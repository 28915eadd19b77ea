-- ===== src/Selection/Replay/Excluded.antt =====
-- Candidate sets that are cancelled or over their aggregate budget, in `replayCandidateSelection`.
use mathlib.Core.List.{Memᴰ}
use mathlib.Core.List.Memᴰ
use agent_airlock.Prelude.{
  ◌≡◌, refl, sym, ap, ◌∙◌, true, false, not, List, [], ◌∷◌, ◌++◌, Option, none, some, length,
  length-append, arith, ◌==◌, ◌&&◌, ◌⊎◌, inl, inr, All, Option-cases, if◌then◌else◌, subst,
  append_assoc,
}
use agent_airlock.Prelude.Int.{pos, exceeds}
use agent_airlock.Prelude.Texts.{Text, codes, includes}
use agent_airlock.Prelude.Results.{ok, throw_if, >>=-eq_ok, ok-injective}
use agent_airlock.Digest.{Sha256}
use agent_airlock.Selection.{
  total_tokens, added_bytes, Contract, Criterion, CandidateInput, ScorecardEntry, Decision,
  score_candidate, score_candidates, is_identifier,
}
use agent_airlock.Selection.Scoring.{score_candidate_lem, is_qualified}
use agent_airlock.Selection.Ranking.{IsWinner, select_candidates_lem}
use agent_airlock.Selection.Replay.{
  Run, CandidateSet, Competitor, aggregate_exclusions, candidate_input, candidate_inputs, find_run,
  replay_candidate_selection, validations_passed, aggregate,
}

abbrev IsExcluded : CandidateInput → Type 0
IsExcluded input = (length input.exclusions == 0) ≡ false

candidate_input_lem :
    (runs : List (Text × Run)) (t : Text) (ts : List Text) (c : Competitor) (input : CandidateInput)
    → candidate_input runs (t ∷ ts) c ≡ ok input
    → IsExcluded input
unfolding candidate_input
candidate_input_lem runs t ts c input made = elim (Option-cases (find_run c.run_id runs)) [
  | inl missing ↦ absurd (cc (rw (missing, candidate_input) at made))
  | inr (run, there) ↦
      let built : ok (record {
        competitor_id = c.id;
        required_validations_passed = c.is_sealed && validations_passed run;
        exclusions = c.exclusions ++ t ∷ ts;
        criterion_values = c.criterion_values;
      })
          ≡ ok input =
        rw (there, candidate_input) at made in
      sym (ap (λ i. length i.exclusions == 0) (ok-injective built))
      ∙ ground (arith, length-append c.exclusions (t ∷ ts))
]

candidate_inputs_lem :
    (runs : List (Text × Run)) (t : Text) (ts : List Text) (cs : List Competitor)
    → (inputs : List CandidateInput) → candidate_inputs runs (t ∷ ts) cs ≡ ok inputs
    → All IsExcluded inputs
unfolding candidate_inputs
candidate_inputs_lem runs t ts [] inputs h = subst (All IsExcluded) (ok-injective h) tt
candidate_inputs_lem runs t ts (c ∷ cs) inputs h =
    let (input, made, r1) = >>=-eq_ok (candidate_input runs (t ∷ ts) c) _ h in
    let (rest, others, last) = >>=-eq_ok (candidate_inputs runs (t ∷ ts) cs) _ r1 in
    subst (All IsExcluded) (ok-injective last)
      (candidate_input_lem runs t ts c input made, candidate_inputs_lem runs t ts cs rest others)

score_candidates-excluded :
    (contract : Contract) (cs : List CandidateInput) (ids : List Text) (es : List ScorecardEntry)
    → All IsExcluded cs
    → score_candidates contract cs ids ≡ ok es
    → All (λ e. e.eligible ≡ false) es
unfolding score_candidates
score_candidates-excluded contract [] ids es h made =
    subst (All (λ e. e.eligible ≡ false)) (ok-injective made) tt
score_candidates-excluded contract (c ∷ cs) ids es (excluded, h) made =
    let (_, _, r1) = >>=-eq_ok (throw_if (not (is_identifier c.competitor_id)) _) _ made in
    let (_, _, r2) = >>=-eq_ok (throw_if (includes ids c.competitor_id) _) _ r1 in
    let (e, scored, r3) = >>=-eq_ok (score_candidate contract c) _ r2 in
    let (others, later, last) =
      >>=-eq_ok (score_candidates contract cs (c.competitor_id ∷ ids)) _ r3 in
    let (_, eligible, _) = score_candidate_lem contract c e scored in
    subst (All (λ e. e.eligible ≡ false)) (ok-injective last) (
      eligible ∙ barred c contract.criteria excluded,
      score_candidates-excluded contract cs (c.competitor_id ∷ ids) others h later,
    )
  where
    barred :
        (c : CandidateInput) (criteria : List Criterion)
        → IsExcluded c
        → is_qualified criteria c ≡ false
    barred c criteria h = rw h

none_eligible :
    (w : ScorecardEntry) (l : List ScorecardEntry)
    → All (λ e. e.eligible ≡ false) l
    → Memᴰ w l
    → w.eligible ≡ false
none_eligible w [] h m = absurd (Memᴰ.not-nil m)
none_eligible w (e ∷ l) (p, h) (Memᴰ.head same) = ap (λ e. e.eligible) same ∙ p
none_eligible w (e ∷ l) (p, h) (Memᴰ.tail later) = none_eligible w l h later

no_winner :
    (es : List ScorecardEntry) (w : Option Text)
    → All (λ e. e.eligible ≡ false) es
    → IsWinner es w
    → w ≡ none
no_winner es none h k = refl
no_winner es (some id) h (w, member, eligible, _, _) =
    absurd (cc (eligible, none_eligible w es h member))

-- What excludes every candidate of a set: too many tokens, too many added bytes, or a cancellation.
abbrev pub IsStopped : CandidateSet → Type 0
IsStopped s =
    ((exceeds (aggregate total_tokens s.competitors (pos 0)) s.max_total_tokens ≡ true)
      ⊎ (exceeds (aggregate added_bytes s.competitors (pos 0)) s.max_total_changed_bytes ≡ true))
    ⊎ (s.cancellation_requested ≡ true)

some_text : (ts us : List Text) (t : Text) → (v : Text) × (vs : List Text) × (ts ++ t ∷ us ≡ v ∷ vs)
some_text [] us t = (t, us, refl)
some_text (v ∷ ts) us t = (v, ts ++ t ∷ us, refl)

aggregate_exclusions-IsStopped :
    (s : CandidateSet)
    → IsStopped s
    → (t : Text) × (ts : List Text) × (aggregate_exclusions s ≡ t ∷ ts)
unfolding aggregate_exclusions
aggregate_exclusions-IsStopped s (inl (inl tokens)) =
    let rest =
      (if exceeds (aggregate added_bytes s.competitors (pos 0)) s.max_total_changed_bytes
        then codes "aggregate-budget:changed-bytes" ∷ []
        else [])
      ++ (if s.cancellation_requested
          then codes "candidate-set-cancelled-before-selection" ∷ []
          else []) in
    (
      codes "aggregate-budget:total-tokens",
      rest,
      ap (λ b. (if b then codes "aggregate-budget:total-tokens" ∷ [] else []) ++ rest) tokens,
    )
aggregate_exclusions-IsStopped s (inl (inr bytes)) =
    let first =
      if exceeds (aggregate total_tokens s.competitors (pos 0)) s.max_total_tokens
      then codes "aggregate-budget:total-tokens" ∷ []
      else [] in
    let rest =
      if s.cancellation_requested
      then codes "candidate-set-cancelled-before-selection" ∷ []
      else [] in
    let (t, ts, made) = some_text first rest (codes "aggregate-budget:changed-bytes") in
    (
      t,
      ts,
      ap (λ b. first ++ ((if b then codes "aggregate-budget:changed-bytes" ∷ [] else []) ++ rest))
            bytes
          ∙ made,
    )
aggregate_exclusions-IsStopped s (inr cancelled) =
    let first =
      if exceeds (aggregate total_tokens s.competitors (pos 0)) s.max_total_tokens
      then codes "aggregate-budget:total-tokens" ∷ []
      else [] in
    let second =
      if exceeds (aggregate added_bytes s.competitors (pos 0)) s.max_total_changed_bytes
      then codes "aggregate-budget:changed-bytes" ∷ []
      else [] in
    let (t, ts, made) =
      some_text (first ++ second) [] (codes "candidate-set-cancelled-before-selection") in
    (
      t,
      ts,
      ap
            (λ b.
              first
              ++ (second
                  ++ (if b then codes "candidate-set-cancelled-before-selection" ∷ [] else [])))
            cancelled
          ∙ sym (append_assoc first second (codes "candidate-set-cancelled-before-selection" ∷ []))
          ∙ made,
    )

-- Where a replayed set is stopped (its tokens or its added bytes exceed the budget, or it was
-- cancelled), the decision has no winner.
pub replay_candidate_selection_lem :
    (sha : Sha256) (s : CandidateSet) (runs : List (Text × Run)) (decision : Decision)
    → (digest : Text) → IsStopped s
    → replay_candidate_selection sha s runs ≡ ok (decision, digest)
    → decision.winner_competitor_id ≡ none
unfolding replay_candidate_selection
replay_candidate_selection_lem sha s runs decision digest stopped h =
    let (t, ts, excluded) = aggregate_exclusions-IsStopped s stopped in
    let (inputs, made, selected) =
      >>=-eq_ok (candidate_inputs runs (aggregate_exclusions s) s.competitors) _ h in
    let (es, scored, _, winner, _) =
      select_candidates_lem sha s.id s.state_id s.contract inputs decision digest selected in
    no_winner es decision.winner_competitor_id
      (score_candidates-excluded s.contract inputs [] es
        (candidate_inputs_lem runs t ts s.competitors inputs
          (subst (λ x. candidate_inputs runs x s.competitors ≡ ok inputs) excluded made))
        scored)
      winner
