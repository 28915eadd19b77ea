-- ===== src/CandidateSet/Bounds.antt =====
-- The bounds that `validateCandidateSetInput` (apps/server/src/candidate-set.ts) puts on an input.
use agent_airlock.Prelude.{ℕ, ◌≤◌, ◌≡◌, sym, subst, false, [], length, ltb, ◌||◌, arith}
use agent_airlock.Prelude.Texts.{Text}
use agent_airlock.Prelude.Results.{ok, throw_if, >>=-eq_ok, ok-injective, throw_if_done}
use agent_airlock.Selection.{assert_selection_contract}
use agent_airlock.CandidateSet.{
  SetInput, assert_budget, assert_safe_text, check_competitors, validate_candidate_set_input,
}
use agent_airlock.CandidateSet.Normal.{check_competitors_lem}

-- The numbers that a run of the set relies on: as many competitors at once as there are, and a token
-- for each.
abbrev pub IsBounded : SetInput → Type 0
IsBounded input =
    (2 ≤ length input.competitors)
    × (length input.competitors ≤ 8)
    × (1 ≤ input.max_concurrency)
    × (input.max_concurrency ≤ 4)
    × (input.max_concurrency ≤ length input.competitors)
    × (length input.competitors ≤ input.budget.max_total_tokens)
    × (input.budget.max_total_tokens ≤ 10000000)

count_bounds : (n : ℕ) → (ltb n 2 || ltb 8 n) ≡ false → (2 ≤ n) × (n ≤ 8)
count_bounds n h = ground arith

concurrency_bounds :
    (k n : ℕ) → (ltb k 1 || ltb 4 k || ltb n k) ≡ false → (1 ≤ k) × (k ≤ 4) × (k ≤ n)
concurrency_bounds k n h = ground arith

token_bounds :
    (d t b n : ℕ)
    → (ltb d 1000 || ltb 3600000 d || ltb t n || ltb 10000000 t || ltb 800000000 b) ≡ false
    → (n ≤ t) × (t ≤ 10000000)
token_bounds d t b n h = ground arith

module _ (redact : Text → Text) where
  -- An input that the validation gives back has two to eight competitors, a concurrency from one to
  -- four that is at most the number of competitors, and at least as many tokens as competitors, at
  -- most ten million.
  pub validate_candidate_set_input-IsBounded :
      (input out : SetInput) → validate_candidate_set_input redact input ≡ ok out → IsBounded out
  unfolding validate_candidate_set_input assert_budget
  validate_candidate_set_input-IsBounded input out h =
      let (objective, _, r1) =
        >>=-eq_ok (assert_safe_text redact input.objective "objective" 1 50000) _ h in
      let (_, count, r2) =
        >>=-eq_ok
          (throw_if (ltb (length input.competitors) 2 || ltb 8 (length input.competitors))
            "Candidate Set must contain two through eight competitors")
          _ r1 in
      let (competitors, checked, r3) =
        >>=-eq_ok (check_competitors redact [] input.competitors) _ r2 in
      let (_, _, r4) = >>=-eq_ok (assert_selection_contract input.selection_contract) _ r3 in
      let (_, concurrency, r5) =
        >>=-eq_ok
          (throw_if
            (ltb input.max_concurrency 1
              || ltb 4 input.max_concurrency
              || ltb (length competitors) input.max_concurrency)
            "Candidate Set concurrency must be between one and four competitors")
          _ r4 in
      let (_, budget, last) = >>=-eq_ok (assert_budget input.budget (length competitors)) _ r5 in
      let size : length competitors ≡ length input.competitors =
        (check_competitors_lem redact [] input.competitors competitors checked).1 in
      let (two, eight) = count_bounds (length input.competitors) (throw_if_done _ _ count) in
      let (one, four, fit) =
        concurrency_bounds input.max_concurrency (length competitors)
          (throw_if_done _ _ concurrency) in
      let (tokens, most) =
        token_bounds input.budget.max_duration_ms_per_competitor input.budget.max_total_tokens
          input.budget.max_total_changed_bytes (length competitors) (throw_if_done _ _ budget) in
      subst IsBounded (ok-injective last) (
        subst (λ n. 2 ≤ n) (sym size) two,
        subst (λ n. n ≤ 8) (sym size) eight,
        one,
        four,
        fit,
        tokens,
        most,
      )
