-- ===== src/Selection/Scoring.antt =====
-- The scorecard of `selectCandidates` in apps/server/src/candidate-selection.ts.
use agent_airlock.Prelude.{
  suc, ◌≡◌, sym, ap, ◌∙◌, subst, Bool, true, false, not, List, [], ◌∷◌, ◌++◌, length, length-append,
  all, any, ltb, ◌==◌, ◌&&◌, ◌||◌, if◌then◌else◌, Option, none, some, arith, inl, inr, All,
  Option-cases,
}
use agent_airlock.Prelude.Int.{ℤ}
use agent_airlock.Prelude.Texts.{Text, codes, includes}
use agent_airlock.Prelude.Results.{ok, ◌>>=◌, throw_if, >>=-eq_ok, ok-injective}
use agent_airlock.Canonical.{utf8_bytes}
use agent_airlock.Selection.{
  Criterion, Contract, CandidateInput, Component, component, bounded_value, ScorecardEntry,
  kind_text, normalize_exclusions, score_criteria, is_identifier, score_candidate, score_candidates,
}
use agent_airlock.Selection.Order.{IsComplete}

abbrev is_some : Option ℤ → Bool
is_some none = false
is_some (some z) = true

-- What lets a candidate compete: its validations passed, nothing excludes it, nothing is missing.
abbrev pub is_qualified : List Criterion → CandidateInput → Bool
is_qualified criteria input =
    (length input.exclusions == 0 && input.required_validations_passed)
    && all (λ c. is_some (input.criterion_values c.kind)) criteria

length-exclusions :
    (ex : List Text) (passed : Bool) (t : Text)
    → (length (ex ++ (if passed then [] else t ∷ [])) == 0) ≡ (length ex == 0 && passed)
length-exclusions ex true t = ground (arith, length-append ex [])
length-exclusions ex false t = ground (arith, length-append ex (t ∷ []))

-- The walk over the criteria excludes nobody exactly when no value is missing.
module _ (input : CandidateInput) where
  score_criteria_lem :
      (cs : List Criterion) (ex : List Text) (ex' : List Text) (comps : List Component)
      → score_criteria input cs ex ≡ ok (ex', comps)
      → (length ex' == 0)
        ≡ (length ex == 0 && all (λ c. is_some (input.criterion_values c.kind)) cs)
  unfolding score_criteria
  score_criteria_lem [] ex ex' comps e = ground (arith, ok-injective e)
  score_criteria_lem (c ∷ cs) ex ex' comps e = elim (Option-cases (input.criterion_values c.kind)) [
    | inl missing ↦
        let rest =
          score_criteria_lem cs (ex ++ (codes "missing-criterion:" ++ kind_text c.kind) ∷ []) ex'
            comps (rw (missing, score_criteria) at e) in
        rw missing (
          ground
            (arith, rest, length-append ex ((codes "missing-criterion:" ++ kind_text c.kind) ∷ [])))
    | inr (z, there) ↦
        let (raw, bounded, after) =
          >>=-eq_ok (bounded_value z c.maximum)
            (λ raw. score_criteria input cs ex >>= λ rest. ok (rest.0, component c raw ∷ rest.1))
            (rw (there, score_criteria) at e) in
        let (rest, scored, made) =
          >>=-eq_ok (score_criteria input cs ex) (λ rest. ok (rest.0, component c raw ∷ rest.1))
            after in
        let counted = score_criteria_lem cs ex rest.0 rest.1 scored in
        rw there (sym (ap (λ r. length r.0 == 0) (ok-injective made)) ∙ counted)
  ]

  score_criteria-length :
      (cs : List Criterion) (ex : List Text) (ex' : List Text) (comps : List Component)
      → score_criteria input cs ex ≡ ok (ex', comps)
      → (length ex' == 0) ≡ true
      → length comps ≡ length cs
  unfolding score_criteria
  score_criteria-length [] ex ex' comps e none_left = ground (arith, ok-injective e)
  score_criteria-length (c ∷ cs) ex ex' comps e none_left =
      elim (Option-cases (input.criterion_values c.kind)) [
        | inl missing ↦
            let here : (length ex' == 0)
                ≡ (length ex == 0 && all (λ c. is_some (input.criterion_values c.kind)) (c ∷ cs)) =
              score_criteria_lem (c ∷ cs) ex ex' comps e in
            absurd (ground (arith, here, missing))
        | inr (z, there) ↦
            let (raw, bounded, after) =
              >>=-eq_ok (bounded_value z c.maximum)
                (λ raw.
                  score_criteria input cs ex >>= λ rest. ok (rest.0, component c raw ∷ rest.1))
                (rw (there, score_criteria) at e) in
            let (rest, scored, made) =
              >>=-eq_ok (score_criteria input cs ex) (λ rest. ok (rest.0, component c raw ∷ rest.1))
                after in
            sym (ap (λ r. length r.1) (ok-injective made))
            ∙ ap suc (
                score_criteria-length cs ex rest.0 rest.1 scored
                  (ap (λ r. length r.0 == 0) (ok-injective made) ∙ none_left))
      ]

  normalize_exclusions_lem :
      (ex : List Text)
      → normalize_exclusions input ≡ ok ex
      → (length ex == 0) ≡ (length input.exclusions == 0 && input.required_validations_passed)
  unfolding normalize_exclusions
  normalize_exclusions_lem ex e =
      let (_, bounded, rest) = >>=-eq_ok (throw_if (ltb 64 (length input.exclusions)) _) _ e in
      let (_, valid, made) =
        >>=-eq_ok
          (throw_if
            (any (λ e. ltb (length e) 1 || ltb 240 (length (utf8_bytes e))) input.exclusions) _)
          _ rest in
      sym (ap (λ l. length l == 0) (ok-injective made))
      ∙ length-exclusions input.exclusions input.required_validations_passed
          (codes "required-validation-failed")

-- A scored candidate is eligible exactly when it qualifies, and then it has every component.
pub score_candidate_lem :
    (contract : Contract) (input : CandidateInput) (e : ScorecardEntry)
    → score_candidate contract input ≡ ok e
    → (e.competitor_id ≡ input.competitor_id)
      × (e.eligible ≡ is_qualified contract.criteria input)
      × (e.eligible ≡ true → IsComplete (length contract.criteria) e)
unfolding score_candidate
score_candidate_lem contract input e made =
    let (ex, normal, rest) = >>=-eq_ok (normalize_exclusions input) _ made in
    let (scored, scores, last) = >>=-eq_ok (score_criteria input contract.criteria ex) _ rest in
    let entry = ok-injective last in
    (
      sym (ap (λ r. r.competitor_id) entry),
      sym (ap (λ r. r.eligible) entry)
          ∙ score_criteria_lem input contract.criteria ex scored.0 scored.1 scores
          ∙ ap (λ b. b && all (λ c. is_some (input.criterion_values c.kind)) contract.criteria)
              (normalize_exclusions_lem input ex normal),
      λ eligible.
          sym (ap (λ r. length r.components) entry)
          ∙ score_criteria-length input contract.criteria ex scored.0 scored.1 scores
              (ap (λ r. r.eligible) entry ∙ eligible),
    )

pub score_candidates_lem :
    (contract : Contract) (cs : List CandidateInput) (ids : List Text) (es : List ScorecardEntry)
    → score_candidates contract cs ids ≡ ok es
    → All (λ e. e.eligible ≡ true → IsComplete (length contract.criteria) e) es
unfolding score_candidates
score_candidates_lem contract [] ids es made =
    subst (All (λ e. e.eligible ≡ true → IsComplete (length contract.criteria) e))
      (ok-injective made) tt
score_candidates_lem contract (c ∷ cs) ids es made =
    let (_, _, rest) =
      >>=-eq_ok (throw_if (not (is_identifier c.competitor_id)) "competitor identifier is invalid")
        _ made in
    let (_, _, rest') =
      >>=-eq_ok
        (throw_if (includes ids c.competitor_id)
          "Selection contains duplicate competitor identifiers")
        _ rest in
    let (e, scored, rest'') = >>=-eq_ok (score_candidate contract c) _ rest' in
    let (others, later, last) =
      >>=-eq_ok (score_candidates contract cs (c.competitor_id ∷ ids)) _ rest'' in
    let (_, _, complete) = score_candidate_lem contract c e scored in
    subst (All (λ e. e.eligible ≡ true → IsComplete (length contract.criteria) e))
      (ok-injective last)
      (complete, score_candidates_lem contract cs (c.competitor_id ∷ ids) others later)
