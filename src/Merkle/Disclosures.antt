-- ===== src/Merkle/Disclosures.antt =====
-- `verifyEvidenceDisclosure` on what `buildEvidenceCommitment` discloses
-- (packages/portable-promotion-receipt/src/merkle.ts).
use agent_airlock.Prelude.{
  ℕ, ◌≤◌, ◌<◌, ◌≡◌, refl, sym, ap, ◌∙◌, subst, ◌⊎◌, inl, inr, Bool, true, false, not, List, [], ◌∷◌,
  Option, some, none, length, all, All, ltb, leb, ◌==◌, ◌||◌, arith, both, negated,
}
use agent_airlock.Prelude.Texts.{Text, eq_of_text_eq}
use agent_airlock.Prelude.Results.{
  Result, ok, thrown, throw_if, catch, traverse, >>=-eq_ok, ok-injective, throw_if_done,
}
use agent_airlock.Digest.{Sha256, is_digest, IsDigest}
use agent_airlock.StableJson.{compare_utf8}
use agent_airlock.StableJson.Sorting.{length-sort}
use agent_airlock.Tree.{Sibling, tree_root, head?, climb, build_levels}
use agent_airlock.Tree.Digests.{all-AllDigests}
use agent_airlock.Merkle.{
  EvidenceLeaf, Disclosure, Commitment, assert_portable_evidence_leaf,
  assert_portable_evidence_disclosure, hash_evidence_leaf, hash_internal, last_of, root_of,
  disclose, sort_leaves, check_leaves, commit, build_evidence_commitment, ends_at, answer,
  verify_evidence_disclosure,
}
use agent_airlock.Merkle.Hashes.{last_of-build_levels}

module _ (sha : Sha256) (credential_free : Text → Bool) where
  abbrev pub hash_leaf : EvidenceLeaf → Result Text
  hash_leaf = hash_evidence_leaf sha credential_free

  abbrev pub node : Text → Text → Text
  node = hash_internal sha credential_free

  -- What stands behind a commitment of at least one leaf: the hashed leaves and their tree.
  abbrev pub IsTree : Commitment → List Text → Type 0
  IsTree c level =
      (traverse hash_leaf c.leaves ≡ ok level)
      × (tree_root node level ≡ some c.root)
      × (c.disclosures
          ≡ disclose sha credential_free (length c.leaves) (build_levels node (length level) level)
              0 c.leaves)

  root_of-cases : (o : Option Text) (r : Text) → root_of o ≡ ok r → o ≡ some r
  root_of-cases none r h = absurd (cc)
  root_of-cases (some s) r h = cc

  commit-IsTree :
      (l : EvidenceLeaf) (ls : List EvidenceLeaf) (c : Commitment)
      → commit sha credential_free (l ∷ ls) ≡ ok c
      → (level : List Text) × IsTree c level
  unfolding commit
  commit-IsTree l ls c h =
      let (level, hashed, r1) = >>=-eq_ok (traverse hash_leaf (l ∷ ls)) _ h in
      let (root, top, last) =
        >>=-eq_ok (root_of (head? (last_of (build_levels node (length level) level)))) _ r1 in
      let made = ok-injective last in
      let found =
        ap head? (sym (last_of-build_levels node (length level) level))
        ∙ root_of-cases (head? (last_of (build_levels node (length level) level))) root top in
      (level, subst (λ x. IsTree x level) made (hashed, unfold tree_root in found, refl))

  commit-cases :
      (s : List EvidenceLeaf) (c : Commitment)
      → commit sha credential_free s ≡ ok c
      → (c.leaves ≡ s)
        × (((c.leaves ≡ []) × (c.disclosures ≡ [])) ⊎ ((level : List Text) × IsTree c level))
  unfolding commit
  commit-cases [] c h =
      let made = ok-injective h in
      (
        ap (λ x. x.leaves) (sym made),
        inl (ap (λ x. x.leaves) (sym made), ap (λ x. x.disclosures) (sym made)),
      )
  commit-cases (l ∷ ls) c h =
      let (level, hashed, r1) = >>=-eq_ok (traverse hash_leaf (l ∷ ls)) _ h in
      let (root, top, last) =
        >>=-eq_ok (root_of (head? (last_of (build_levels node (length level) level)))) _ r1 in
      (ap (λ x. x.leaves) (sym (ok-injective last)), inr (commit-IsTree l ls c h))

  pub build_evidence_commitment-cases :
      (leaves : List EvidenceLeaf) (c : Commitment)
      → build_evidence_commitment sha credential_free leaves ≡ ok c
      → (length c.leaves ≤ 10000)
        × (((c.leaves ≡ []) × (c.disclosures ≡ [])) ⊎ ((level : List Text) × IsTree c level))
  unfolding build_evidence_commitment
  build_evidence_commitment-cases leaves c h =
      let sorted = sort_leaves sha credential_free leaves in
      let (_, small, r1) =
        >>=-eq_ok (throw_if (ltb 10000 (length leaves)) "Evidence tree exceeds the leaf limit") _
          h in
      let (_, _, r2) = >>=-eq_ok (check_leaves sha credential_free [] sorted) _ r1 in
      let (same, shape) = commit-cases sorted c r2 in
      let size = ap length same ∙ length-sort (λ a b. compare_utf8 a.identity b.identity) leaves in
      (ground (arith, throw_if_done _ _ small, size), shape)

  ends_at-cases :
      (root : Text) (o : Option (Text × List (Sibling Text)))
      → ends_at sha credential_free root o ≡ true
      → o ≡ some (root, [])
  ends_at-cases root none h = absurd (cc)
  ends_at-cases root (some (hash, [])) h = ap (λ t. some (t, [])) (eq_of_text_eq hash root h)
  ends_at-cases root (some (hash, s ∷ rest)) h = absurd (ground (arith, h))

  catch-true : (r : Result Bool) → catch r false ≡ true → r ≡ ok true
  catch-true (ok b) h = ap ok h
  catch-true (thrown e) h = absurd (cc)

  pub verify-cases :
      (d : Disclosure) (root : Text) (count : ℕ)
      → verify_evidence_disclosure sha credential_free d root count ≡ true
      → (x : Text) × (hash_leaf d.leaf ≡ ok x)
        × (d.total_leaves ≡ count)
        × (d.leaf_index < count)
        × All (λ t. IsDigest t.hash) d.siblings
        × (climb node d.total_leaves d.leaf_index d.total_leaves d.siblings x ≡ some (root, []))
  unfolding verify_evidence_disclosure assert_portable_evidence_disclosure
  verify-cases d root count h =
      let answered = catch-true (answer sha credential_free d root count) h in
      let (_, shape, r1) =
        >>=-eq_ok (assert_portable_evidence_disclosure sha credential_free d) _ answered in
      let (x, hashed, last) = >>=-eq_ok (hash_leaf d.leaf) _ r1 in
      let (_, bounds, s1) =
        >>=-eq_ok
          (throw_if
            (ltb d.total_leaves 1
              || ltb 10000 d.total_leaves
              || leb d.total_leaves d.leaf_index
              || ltb 32 (length d.siblings))
            "Portable evidence disclosure bounds are invalid")
          _ shape in
      let (_, _, s2) = >>=-eq_ok (assert_portable_evidence_leaf sha credential_free d.leaf) _ s1 in
      let digests =
        throw_if_done (not (all (λ s. is_digest s.hash) d.siblings))
          "Portable evidence sibling is invalid" s2 in
      let within = throw_if_done _ _ bounds in
      let (right, walk) =
        both (not (not (is_digest root) || not (d.total_leaves == count)))
          (ends_at sha credential_free root
            (climb node d.total_leaves d.leaf_index d.total_leaves d.siblings x))
          (ok-injective last) in
      let size : d.total_leaves ≡ count = ground (arith, right) in
      (
        x,
        hashed,
        size,
        ground (arith, within, size),
        all-AllDigests d.siblings (negated (all (λ s. is_digest s.hash) d.siblings) digests),
        ends_at-cases root (climb node d.total_leaves d.leaf_index d.total_leaves d.siblings x)
            walk,
      )
