-- ===== src/Selection/Replay/Quality.antt =====
-- `createQualityAssertion` as the value of its criterion.
use native.Mathlib.Nat.{div-le_of_le-mul, div-lt_iff_lt-mul, mul-div_right}
use agent_airlock.Prelude.{
  ◌*◌, ◌/◌, ◌≤◌, ◌<◌, ◌≡◌, refl, ap, ◌∙◌, true, false, List, [], ◌∷◌, length, arith, inl, inr, ◌↔◌,
  all, Bool-cases,
}
use agent_airlock.Selection.{quality_assertion, selection_criteria}
use agent_airlock.Selection.Replay.{
  ValidationStatus, has_passed, count_passed, create_quality_assertion,
}

count_passed_le : (ss : List ValidationStatus) → count_passed ss ≤ length ss
unfolding count_passed
count_passed_le [] = omega arith
count_passed_le (s ∷ ss) = elim (Bool-cases (has_passed s)) [
  | inl here ↦ rw here (omega (arith, count_passed_le ss))
  | inr not_here ↦ rw not_here (omega (arith, count_passed_le ss))
]

count_passed-all :
    (ss : List ValidationStatus) → all has_passed ss ≡ true → count_passed ss ≡ length ss
unfolding count_passed
count_passed-all [] h = refl
count_passed-all (s ∷ ss) h = elim (Bool-cases (has_passed s)) [
  | inl here ↦ rw here (omega (arith, count_passed-all ss (rw here at h)))
  | inr not_here ↦ absurd (cc (rw not_here at h))
]

count_passed_lt :
    (ss : List ValidationStatus) → all has_passed ss ≡ false → count_passed ss < length ss
unfolding count_passed
count_passed_lt [] h = absurd (cc)
count_passed_lt (s ∷ ss) h = elim (Bool-cases (has_passed s)) [
  | inl here ↦ rw here (omega (arith, count_passed_lt ss (rw here at h)))
  | inr not_here ↦ rw not_here (omega (arith, count_passed_le ss))
]

-- The assertion of at least one validation lies within the bound of its criterion, and is that
-- bound exactly when every validation passed.
pub create_quality_assertion_lem :
    (s : ValidationStatus) (ss : List ValidationStatus)
    → (create_quality_assertion (s ∷ ss) ≤ (selection_criteria quality_assertion).maximum)
      × ((create_quality_assertion (s ∷ ss) ≡ (selection_criteria quality_assertion).maximum)
          ↔ (all has_passed (s ∷ ss) ≡ true))
unfolding create_quality_assertion selection_criteria
create_quality_assertion_lem s ss =
    let l = s ∷ ss in
    (
      div-le_of_le-mul (length l) (omega (arith, count_passed_le l)),
      (
        λ top. elim (Bool-cases (all has_passed l)) [
          | inl every ↦ every
          | inr some_not ↦ absurd (
              omega (
                arith,
                top,
                (div-lt_iff_lt-mul {k = length l} {x = count_passed l * 1000000} {y = 1000000}
                      (omega arith)).1
                    (omega (arith, count_passed_lt l some_not)),
              ))
        ],
        λ every.
            ap (λ n. n * 1000000 / length l) (count_passed-all l every)
            ∙ mul-div_right 1000000 {m = length l} (omega arith),
      ),
    )
