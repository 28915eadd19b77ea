-- ===== src/StableJson/Bytes.antt =====
-- The laws of `Buffer.compare` as an order of byte sequences.
use agent_airlock.Prelude.{ℕ, ◌≡◌, refl, List, [], ◌∷◌, Ordering, arith, ◌⊎◌, inl, inr}
use agent_airlock.StableJson.{compare_bytes}

pub compare_bytes_refl : (s : List ℕ) → compare_bytes s s ≡ Ordering.eq
unfolding compare_bytes
compare_bytes_refl [] = refl
compare_bytes_refl (c ∷ s) = ground (arith, compare_bytes_refl s)

pub eq_of_compare_bytes : (s t : List ℕ) → compare_bytes s t ≡ Ordering.eq → s ≡ t
unfolding compare_bytes
eq_of_compare_bytes [] [] h = refl
eq_of_compare_bytes [] (d ∷ t) h = absurd (ground arith)
eq_of_compare_bytes (c ∷ s) [] h = absurd (ground arith)
eq_of_compare_bytes (c ∷ s) (d ∷ t) h = ground (arith, eq_of_compare_bytes s t)

pub compare_bytes_flip :
    (s t : List ℕ) → compare_bytes s t ≡ Ordering.gt → compare_bytes t s ≡ Ordering.lt
unfolding compare_bytes
compare_bytes_flip [] [] h = absurd (ground arith)
compare_bytes_flip [] (d ∷ t) h = absurd (ground arith)
compare_bytes_flip (c ∷ s) [] h = refl
compare_bytes_flip (c ∷ s) (d ∷ t) h = ground (arith, compare_bytes_flip s t)

pub compare_bytes_trans :
    (s t u : List ℕ)
    → compare_bytes s t ≡ Ordering.lt
    → compare_bytes t u ≡ Ordering.lt
    → compare_bytes s u ≡ Ordering.lt
unfolding compare_bytes
compare_bytes_trans [] [] u h k = absurd (ground arith)
compare_bytes_trans [] (d ∷ t) [] h k = absurd (ground arith)
compare_bytes_trans [] (d ∷ t) (e ∷ u) h k = refl
compare_bytes_trans (c ∷ s) [] u h k = absurd (ground arith)
compare_bytes_trans (c ∷ s) (d ∷ t) [] h k = absurd (ground arith)
compare_bytes_trans (c ∷ s) (d ∷ t) (e ∷ u) h k = ground (arith, compare_bytes_trans s t u)

pub Ordering-cases : (o : Ordering) → (o ≡ Ordering.lt) ⊎ ((o ≡ Ordering.eq) ⊎ (o ≡ Ordering.gt))
Ordering-cases Ordering.lt = inl refl
Ordering-cases Ordering.eq = inr (inl refl)
Ordering-cases Ordering.gt = inr (inr refl)
