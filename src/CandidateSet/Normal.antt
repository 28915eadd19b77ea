-- ===== src/CandidateSet/Normal.antt =====
-- The inputs that `validateCandidateSetInput` (apps/server/src/candidate-set.ts) gives back.
use agent_airlock.Prelude.{
  ℕ, suc, ◌≡◌, refl, sym, subst, ap, ◌∙◌, true, false, not, List, [], ◌∷◌, length, ltb, ◌&&◌, ◌||◌,
  inl, inr, Bool-cases,
}
use agent_airlock.Prelude.Texts.{Text, codes, text_eq, includes}
use agent_airlock.Prelude.Results.{ok, throw_if, with_prefix, >>=-eq_ok, ok-injective}
use Prim.Native.String.{String}
use agent_airlock.Canonical.{utf8_bytes}
use agent_airlock.Selection.{assert_selection_contract}
use agent_airlock.CandidateSet.{
  Competitor, SetInput, is_space, trim_start, trim_end, trim, is_empty, is_competitor_id,
  assert_budget, assert_safe_text, check_competitors, validate_candidate_set_input,
}

trim_end_idempotent : (t : Text) → trim_end (trim_end t) ≡ trim_end t
unfolding trim_end
trim_end_idempotent [] = refl
trim_end_idempotent (c ∷ t) = elim (Bool-cases (is_space c && is_empty (trim_end t))) [
  | inl nothing ↦ rw nothing refl
  | inr kept ↦ rw (kept, trim_end_idempotent t, kept) refl
]

start_kept : (c : ℕ) (t : Text) → is_space c ≡ false → trim_start (c ∷ t) ≡ c ∷ t
unfolding trim_start
start_kept c t h = rw h refl

end_kept : (c : ℕ) (t : Text) → is_space c ≡ false → trim_end (c ∷ t) ≡ c ∷ trim_end t
unfolding trim_end
end_kept c t h = rw h refl

start_dropped : (c : ℕ) (t : Text) → is_space c ≡ true → trim_start (c ∷ t) ≡ trim_start t
unfolding trim_start
start_dropped c t h = rw h refl

trim_start_trimmed : (t : Text) → trim_start (trim_end (trim_start t)) ≡ trim_end (trim_start t)
trim_start_trimmed [] = unfold trim_start trim_end in refl
trim_start_trimmed (c ∷ t) = elim (Bool-cases (is_space c)) [
  | inl space ↦ rw (start_dropped c t space) (trim_start_trimmed t)
  | inr letter ↦
      rw (start_kept c t letter, end_kept c t letter, start_kept c (trim_end t) letter) refl
]

trim_idempotent : (t : Text) → trim (trim t) ≡ trim t
unfolding trim
trim_idempotent t = ap trim_end (trim_start_trimmed t) ∙ trim_end_idempotent (trim_start t)

module _ (redact : Text → Text) where
  assert_safe_text_lem :
      (value : Text) (label : String) (minimum maximum : ℕ) (t : Text)
      → assert_safe_text redact value label minimum maximum ≡ ok t
      → assert_safe_text redact t label minimum maximum ≡ ok t
  unfolding assert_safe_text
  assert_safe_text_lem value label minimum maximum t h =
      let (_, size, r1) =
        >>=-eq_ok
          (throw_if
            (ltb (length (utf8_bytes (trim value))) minimum
              || ltb maximum (length (utf8_bytes (trim value))))
            (with_prefix "Candidate Set " (with_prefix label " is empty or oversized")))
          _ h in
      let (_, clean, last) =
        >>=-eq_ok
          (throw_if (not (text_eq (redact (trim value)) (trim value)))
            (with_prefix "Candidate Set " (with_prefix label " contains credential-like content")))
          _ r1 in
      let same : trim value ≡ t = ok-injective last in
      rw (← same, trim_idempotent value, size, clean) refl

  competitor_again :
      (ids : List Text) (c : Competitor) (instruction : Text) (rest : List Competitor)
      → throw_if (not (is_competitor_id c.id)) "Competitor identifier is invalid" ≡ ok tt
      → throw_if (includes ids c.id) "Candidate Set contains duplicate competitor identifiers"
        ≡ ok tt
      → throw_if
          (not (text_eq c.executor_profile_id (codes "standard-v1")))
          "Competitor uses an unsupported trusted executor profile"
        ≡ ok tt
      → assert_safe_text redact instruction "strategy instruction" 1 4000 ≡ ok instruction
      → check_competitors redact (c.id ∷ ids) rest ≡ ok rest
      → check_competitors redact ids (record c { strategy_instruction = instruction } ∷ rest)
        ≡ ok (record c { strategy_instruction = instruction } ∷ rest)
  unfolding check_competitors
  competitor_again ids c instruction rest safe fresh profile text others =
      rw (safe, fresh, profile, text, others) refl

  pub check_competitors_lem :
      (ids : List Text) (cs out : List Competitor)
      → check_competitors redact ids cs ≡ ok out
      → (check_competitors redact ids out ≡ ok out) × (length out ≡ length cs)
  unfolding check_competitors
  check_competitors_lem ids [] out h =
      let nothing : [] ≡ out = ok-injective h in (rw (← nothing) refl, ap length (sym nothing))
  check_competitors_lem ids (c ∷ cs) out h =
      let (_, safe, r1) =
        >>=-eq_ok (throw_if (not (is_competitor_id c.id)) "Competitor identifier is invalid") _ h in
      let (_, fresh, r2) =
        >>=-eq_ok
          (throw_if (includes ids c.id) "Candidate Set contains duplicate competitor identifiers") _
          r1 in
      let (_, profile, r3) =
        >>=-eq_ok
          (throw_if (not (text_eq c.executor_profile_id (codes "standard-v1")))
            "Competitor uses an unsupported trusted executor profile")
          _ r2 in
      let (instruction, text, r4) =
        >>=-eq_ok (assert_safe_text redact c.strategy_instruction "strategy instruction" 1 4000) _
          r3 in
      let (rest, others, last) = >>=-eq_ok (check_competitors redact (c.id ∷ ids) cs) _ r4 in
      let same : record c { strategy_instruction = instruction } ∷ rest ≡ out = ok-injective last in
      let (again, size) = check_competitors_lem (c.id ∷ ids) cs rest others in
      let here =
        competitor_again ids c instruction rest safe fresh profile
          (assert_safe_text_lem c.strategy_instruction "strategy instruction" 1 4000 instruction
            text)
          again in
      (
        subst (λ o. check_competitors redact ids o ≡ ok o) same here,
        ap length (sym same) ∙ ap suc size,
      )

  input_again :
      (input : SetInput) (objective : Text) (competitors : List Competitor)
      → assert_safe_text redact objective "objective" 1 50000 ≡ ok objective
      → throw_if
          (ltb (length competitors) 2 || ltb 8 (length competitors))
          "Candidate Set must contain two through eight competitors"
        ≡ ok tt
      → check_competitors redact [] competitors ≡ ok competitors
      → assert_selection_contract input.selection_contract ≡ ok tt
      → throw_if
          (ltb input.max_concurrency 1
            || ltb 4 input.max_concurrency
            || ltb (length competitors) input.max_concurrency)
          "Candidate Set concurrency must be between one and four competitors"
        ≡ ok tt
      → assert_budget input.budget (length competitors) ≡ ok tt
      → validate_candidate_set_input redact
          (record input { objective = objective; competitors = competitors })
        ≡ ok (record input { objective = objective; competitors = competitors })
  unfolding validate_candidate_set_input
  input_again input objective competitors text count checked contract concurrency budget =
      rw (text, count, checked, contract, concurrency, budget) refl

  -- What the validation gives back is an input that it accepts and gives back as it
  -- is.
  pub validate_candidate_set_input_lem :
      (input out : SetInput)
      → validate_candidate_set_input redact input ≡ ok out
      → validate_candidate_set_input redact out ≡ ok out
  unfolding validate_candidate_set_input
  validate_candidate_set_input_lem input out h =
      let (objective, text, r1) =
        >>=-eq_ok (assert_safe_text redact input.objective "objective" 1 50000) _ h in
      let (_, count, r2) =
        >>=-eq_ok
          (throw_if (ltb (length input.competitors) 2 || ltb 8 (length input.competitors))
            "Candidate Set must contain two through eight competitors")
          _ r1 in
      let (competitors, checked, r3) =
        >>=-eq_ok (check_competitors redact [] input.competitors) _ r2 in
      let (_, contract, r4) = >>=-eq_ok (assert_selection_contract input.selection_contract) _ r3 in
      let (_, concurrency, r5) =
        >>=-eq_ok
          (throw_if
            (ltb input.max_concurrency 1
              || ltb 4 input.max_concurrency
              || ltb (length competitors) input.max_concurrency)
            "Candidate Set concurrency must be between one and four competitors")
          _ r4 in
      let (_, budget, last) = >>=-eq_ok (assert_budget input.budget (length competitors)) _ r5 in
      let same : record input { objective = objective; competitors = competitors } ≡ out =
        ok-injective last in
      let (again, size) = check_competitors_lem [] input.competitors competitors checked in
      let counted : throw_if (ltb (length competitors) 2 || ltb 8 (length competitors))
            "Candidate Set must contain two through eight competitors"
          ≡ ok tt =
        rw size count in
      subst (λ o. validate_candidate_set_input redact o ≡ ok o) same
        (input_again input objective competitors
          (assert_safe_text_lem input.objective "objective" 1 50000 objective text) counted again
          contract concurrency budget)
