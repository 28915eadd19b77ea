-- ===== src/Selection/Examples.antt =====
-- Two candidates, told apart by the files they changed.
use agent_airlock.Prelude.{ℕ, ◌≡◌, refl, Bool, true, false, List, [], ◌∷◌, none, some}
use agent_airlock.Prelude.Int.{pos}
use agent_airlock.Prelude.Texts.{Text, codes, text_eq}
use agent_airlock.Prelude.Results.{Result, ok, thrown}
use agent_airlock.Canonical.{utf8_bytes}
use agent_airlock.Digest.Examples.{toy_sha}
use agent_airlock.StableJson.{sort, stable_json}
use agent_airlock.Selection.{
  changed_files, Contract, selection_criteria, CandidateInput, ScorecardEntry, Decision,
  score_candidate, score_candidates, decide_order, decision_digest, select_candidates,
  ordered_eligible, filter_eligible, is_identifier, normalize_exclusions, score_criteria,
  bounded_value, compare_entries, compare_components, component, assert_selection_contract,
  assert_criteria,
}
use agent_airlock.Selection.Scoring.{score_candidate_lem, is_qualified}
use agent_airlock.Selection.Order.{IsComplete}
use agent_airlock.Selection.Ranking.{IsRanking, IsWinner, select_candidates_lem}

abbrev contract : Contract
contract = record { schema_version = 1; criteria = selection_criteria changed_files ∷ [] }

abbrev input : Text → ℕ → Bool → CandidateInput
input id files passed = record {
  competitor_id = id;
  required_validations_passed = passed;
  exclusions = [];
  criterion_values = λ kind. some (pos files);
}

abbrev inputs : List CandidateInput
inputs = input (codes "a") 7 true ∷ input (codes "b") 3 true ∷ input (codes "c") 1 false ∷ []

abbrev entry_of : Result ScorecardEntry → ScorecardEntry
entry_of (ok e) = e
entry_of (thrown e) = record {
  competitor_id = [];
  eligible = false;
  exclusions = [];
  components = [];
  rank = none;
}

abbrev entries_of : Result (List ScorecardEntry) → List ScorecardEntry
entries_of (ok es) = es
entries_of (thrown e) = []

abbrev scored : List ScorecardEntry
scored = entries_of (score_candidates contract inputs [])

abbrev decision : Decision
decision = decide_order (codes "set") (codes "state") scored

decide_order-sample : decision.winner_competitor_id ≡ some (codes "b")
unfolding selection_criteria decide_order ordered_eligible sort filter_eligible score_candidates
    is_identifier score_candidate normalize_exclusions score_criteria bounded_value text_eq
    compare_entries compare_components component
decide_order-sample = refl

score_candidate-sample :
    score_candidate contract (input (codes "a") 7 true)
    ≡ ok (entry_of (score_candidate contract (input (codes "a") 7 true)))
unfolding selection_criteria decide_order ordered_eligible sort filter_eligible score_candidates
    is_identifier score_candidate normalize_exclusions score_criteria bounded_value text_eq
    compare_entries compare_components component
score_candidate-sample = refl

select_candidates-sample :
    select_candidates toy_sha (codes "set") (codes "state") contract inputs
    ≡ ok (decision, decision_digest toy_sha decision)
unfolding select_candidates assert_selection_contract assert_criteria stable_json utf8_bytes
    selection_criteria decide_order ordered_eligible sort filter_eligible score_candidates
    is_identifier score_candidate normalize_exclusions score_criteria bounded_value text_eq
    compare_entries compare_components component
select_candidates-sample = refl

score_candidate_example :
    let e = entry_of (score_candidate contract (input (codes "a") 7 true)) in
    (e.competitor_id ≡ codes "a")
    × (e.eligible ≡ is_qualified contract.criteria (input (codes "a") 7 true))
    × (e.eligible ≡ true → IsComplete 1 e)
score_candidate_example =
    score_candidate_lem contract (input (codes "a") 7 true)
      (entry_of (score_candidate contract (input (codes "a") 7 true))) score_candidate-sample

select_candidates_example :
    (es : List ScorecardEntry) × (score_candidates contract inputs [] ≡ ok es)
    × IsRanking es decision.ordered_competitor_ids
    × IsWinner es decision.winner_competitor_id
    × (decision_digest toy_sha decision ≡ decision_digest toy_sha decision)
select_candidates_example =
    select_candidates_lem toy_sha (codes "set") (codes "state") contract inputs decision
      (decision_digest toy_sha decision) select_candidates-sample
