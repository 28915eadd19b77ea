-- ===== src/Selection/Replay/Examples.antt =====
-- A cancelled set of one candidate, and three validations of which one failed.
use agent_airlock.Prelude.{◌≤◌, ◌≡◌, refl, true, List, [], ◌∷◌, none, some, inr, all, ◌↔◌}
use agent_airlock.Prelude.Int.{pos}
use agent_airlock.Prelude.Texts.{Text, codes, text_eq}
use agent_airlock.Prelude.Results.{Result, ok, thrown}
use agent_airlock.Canonical.{utf8_bytes}
use agent_airlock.Digest.Examples.{toy_sha}
use agent_airlock.StableJson.{stable_json}
use agent_airlock.Selection.{
  changed_files, quality_assertion, selection_criteria, Decision, decide_order, decision_digest,
  score_candidates, CandidateInput, ScorecardEntry, select_candidates, assert_selection_contract,
  assert_criteria, is_identifier, score_candidate, normalize_exclusions, score_criteria,
  bounded_value,
}
use agent_airlock.Selection.Replay.{
  Run, passed, failed, has_passed, CandidateSet, candidate_inputs, aggregate_exclusions,
  replay_candidate_selection, create_quality_assertion, candidate_input, find_run, aggregate,
}
use agent_airlock.Selection.Replay.Excluded.{replay_candidate_selection_lem}
use agent_airlock.Selection.Replay.Quality.{create_quality_assertion_lem}

abbrev cancelled_set : CandidateSet
cancelled_set = record {
  id = codes "set";
  state_id = codes "state";
  contract = record { schema_version = 1; criteria = selection_criteria changed_files ∷ [] };
  competitors =
      (record {
        id = codes "a";
        run_id = codes "run";
        is_sealed = true;
        exclusions = [];
        criterion_values = λ kind. some (pos 2);
      })
      ∷ [];
  max_total_tokens = 100;
  max_total_changed_bytes = 100;
  cancellation_requested = true;
}

abbrev runs : List (Text × Run)
runs = (codes "run", some ((record { status = passed; required = true }) ∷ [])) ∷ []

abbrev inputs_of : Result (List CandidateInput) → List CandidateInput
inputs_of (ok inputs) = inputs
inputs_of (thrown e) = []

abbrev scored_of : Result (List ScorecardEntry) → List ScorecardEntry
scored_of (ok es) = es
scored_of (thrown e) = []

abbrev decision : Decision
decision = decide_order (codes "set") (codes "state") (
    scored_of (
      score_candidates cancelled_set.contract
        (inputs_of
          (candidate_inputs runs (aggregate_exclusions cancelled_set) cancelled_set.competitors))
        []))

replay_candidate_selection-sample :
    replay_candidate_selection toy_sha cancelled_set runs
    ≡ ok (decision, decision_digest toy_sha decision)
unfolding replay_candidate_selection candidate_inputs aggregate_exclusions selection_criteria
    candidate_input find_run text_eq select_candidates assert_selection_contract assert_criteria
    stable_json utf8_bytes is_identifier score_candidates score_candidate normalize_exclusions
    aggregate score_criteria bounded_value
replay_candidate_selection-sample = refl

replay_candidate_selection_example : decision.winner_competitor_id ≡ none
replay_candidate_selection_example =
    replay_candidate_selection_lem toy_sha cancelled_set runs decision
      (decision_digest toy_sha decision) (inr refl) replay_candidate_selection-sample

create_quality_assertion_example :
    (create_quality_assertion (passed ∷ failed ∷ passed ∷ [])
      ≤ (selection_criteria quality_assertion).maximum)
    × ((create_quality_assertion (passed ∷ failed ∷ passed ∷ [])
          ≡ (selection_criteria quality_assertion).maximum)
        ↔ (all has_passed (passed ∷ failed ∷ passed ∷ []) ≡ true))
create_quality_assertion_example = create_quality_assertion_lem passed (failed ∷ passed ∷ [])
