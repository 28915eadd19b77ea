-- ===== src/Selection/Order.antt =====
-- The laws of `compareEntries` as an order, on the entries that carry a component for each criterion.
use agent_airlock.Prelude.{
  ℕ, ◌≡◌, refl, sym, ap, ◌∙◌, subst, true, false, List, [], ◌∷◌, map, length, Ordering, arith, inl,
  inr,
}
use agent_airlock.StableJson.{compare_bytes, compare_utf8, is_gt}
use agent_airlock.StableJson.Bytes.{
  compare_bytes_refl, eq_of_compare_bytes, compare_bytes_flip, compare_bytes_trans, Ordering-cases,
}
use agent_airlock.Canonical.{utf8_bytes}
use agent_airlock.Selection.{
  Component, ScorecardEntry, compare_components, compare_entries, or_else_by,
}

compare_bytes_raise :
    (s t : List ℕ) → compare_bytes s t ≡ Ordering.lt → compare_bytes t s ≡ Ordering.gt
compare_bytes_raise s t h = elim (Ordering-cases (compare_bytes t s)) [
  | inl lower ↦ absurd (cc (sym (compare_bytes_refl s) ∙ compare_bytes_trans s t s h lower))
  | inr (inl same) ↦ absurd (
      cc (
        sym (compare_bytes_refl s) ∙ ap (compare_bytes s) (sym (eq_of_compare_bytes t s same)) ∙ h))
  | inr (inr greater) ↦ greater
]

-- The values by which an entry is compared.
abbrev pub values : List Component → List ℕ
values cs = map (λ c. c.normalized_value) cs

compare_components_lem :
    (ls rs : List Component)
    → length ls ≡ length rs
    → compare_components ls rs ≡ compare_bytes (values rs) (values ls)
unfolding compare_components compare_bytes
compare_components_lem [] [] e = refl
compare_components_lem [] (r ∷ rs) e = absurd (omega arith)
compare_components_lem (l ∷ ls) [] e = absurd (omega arith)
compare_components_lem (l ∷ ls) (r ∷ rs) e =
    ground (arith, compare_components_lem ls rs (omega arith))

compare_entries_lem :
    (e f : ScorecardEntry)
    → length e.components ≡ length f.components
    → compare_entries e f
      ≡ or_else_by
          (compare_bytes (values f.components) (values e.components))
          (compare_bytes (utf8_bytes e.competitor_id) (utf8_bytes f.competitor_id))
unfolding compare_entries compare_utf8
compare_entries_lem e f same = rw (compare_components_lem e.components f.components same)

-- The comparison of two pairs of a value list and an identifier's bytes.
abbrev Earlier : (v v' b b' : List ℕ) → Type 0
Earlier v v' b b' = is_gt (or_else_by (compare_bytes v' v) (compare_bytes b b')) ≡ false

Earlier-total :
    (v v' b b' : List ℕ)
    → is_gt (or_else_by (compare_bytes v' v) (compare_bytes b b')) ≡ true
    → Earlier v' v b' b
Earlier-total v v' b b' h = elim (Ordering-cases (compare_bytes v' v)) [
  | inl lower ↦ absurd (cc (rw lower at h))
  | inr (inr greater) ↦ rw (compare_bytes_flip v' v greater)
  | inr (inl same) ↦ elim (Ordering-cases (compare_bytes b b')) [
    | inl lower ↦ absurd (cc (rw (same, lower) at h))
    | inr (inl equal) ↦ absurd (cc (rw (same, equal) at h))
    | inr (inr greater) ↦ rw (
      ap (compare_bytes v) (eq_of_compare_bytes v' v same) ∙ compare_bytes_refl v,
      compare_bytes_flip b b' greater,
    )
  ]
]

-- No later, for lists of bytes or of values.
compare_bytes_le_trans :
    (s t u : List ℕ)
    → is_gt (compare_bytes s t) ≡ false
    → is_gt (compare_bytes t u) ≡ false
    → is_gt (compare_bytes s u) ≡ false
compare_bytes_le_trans s t u h k = elim (Ordering-cases (compare_bytes s t)) [
  | inr (inr greater) ↦ absurd (cc (rw greater at h))
  | inr (inl same) ↦ ap (λ x. is_gt (compare_bytes x u)) (eq_of_compare_bytes s t same) ∙ k
  | inl lower ↦ elim (Ordering-cases (compare_bytes t u)) [
    | inr (inr greater) ↦ absurd (cc (rw greater at k))
    | inr (inl same) ↦ ap (λ x. is_gt (compare_bytes s x)) (sym (eq_of_compare_bytes t u same)) ∙ h
    | inl later ↦ ap is_gt (compare_bytes_trans s t u lower later)
  ]
]

Earlier-trans : (u v w a b c : List ℕ) → Earlier u v a b → Earlier v w b c → Earlier u w a c
Earlier-trans u v w a b c h k = elim (Ordering-cases (compare_bytes v u)) [
  | inr (inr greater) ↦ absurd (cc (rw greater at h))
  | inr (inl same) ↦
      let equal = eq_of_compare_bytes v u same in
      let behind = subst (λ x. Earlier x w b c) equal k in
      elim (Ordering-cases (compare_bytes w u)) [
        | inl lower ↦ rw lower
        | inr (inr greater) ↦ absurd (cc (rw greater at behind))
        | inr (inl level) ↦
            rw level (compare_bytes_le_trans a b c (rw same at h) (rw level at behind))
      ]
  | inl lower ↦ elim (Ordering-cases (compare_bytes w v)) [
    | inr (inr greater) ↦ absurd (cc (rw greater at k))
    | inr (inl same) ↦ rw (ap (λ x. compare_bytes x u) (eq_of_compare_bytes w v same) ∙ lower)
    | inl below ↦ rw (compare_bytes_trans w v u below lower)
  ]
]

-- The entries with a component for each of `n` criteria.
abbrev pub IsComplete : ℕ → ScorecardEntry → Type 0
IsComplete n e = length e.components ≡ n

pub compare_entries_total :
    (n : ℕ) (e f : ScorecardEntry)
    → IsComplete n e
    → IsComplete n f
    → is_gt (compare_entries e f) ≡ true
    → is_gt (compare_entries f e) ≡ false
compare_entries_total n e f p q h = rw (compare_entries_lem f e (q ∙ sym p)) (
    Earlier-total (values e.components) (values f.components) (utf8_bytes e.competitor_id)
      (utf8_bytes f.competitor_id) (rw (compare_entries_lem e f (p ∙ sym q)) at h))

pub compare_entries_trans :
    (n : ℕ) (e f g : ScorecardEntry)
    → IsComplete n e
    → IsComplete n f
    → IsComplete n g
    → is_gt (compare_entries e f) ≡ false
    → is_gt (compare_entries f g) ≡ false
    → is_gt (compare_entries e g) ≡ false
compare_entries_trans n e f g p q r h k = rw (compare_entries_lem e g (p ∙ sym r)) (
    Earlier-trans (values e.components) (values f.components) (values g.components)
      (utf8_bytes e.competitor_id) (utf8_bytes f.competitor_id) (utf8_bytes g.competitor_id)
      (rw (compare_entries_lem e f (p ∙ sym q)) at h)
      (rw (compare_entries_lem f g (q ∙ sym r)) at k))
