-- ===== src/Tree/Digests.antt =====
-- The test of the siblings' digests by the verifiers of merkle.ts and transparency.ts
-- (packages/portable-promotion-receipt/src), as a predicate.
use agent_airlock.Prelude.{◌≡◌, refl, true, List, [], ◌∷◌, all, All, arith}
use agent_airlock.Prelude.Texts.{Text}
use agent_airlock.Digest.{is_digest, IsDigest}
use agent_airlock.Tree.{Sibling}

pub all-AllDigests :
    (s : List (Sibling Text)) → all (λ t. is_digest t.hash) s ≡ true → All (λ t. IsDigest t.hash) s
all-AllDigests [] h = tt
all-AllDigests (t ∷ s) h = (ground arith, all-AllDigests s (ground arith))

pub AllDigests-all :
    (s : List (Sibling Text)) → All (λ t. IsDigest t.hash) s → all (λ t. is_digest t.hash) s ≡ true
AllDigests-all [] h = refl
AllDigests-all (t ∷ s) (p, h) = rw p (AllDigests-all s h)
