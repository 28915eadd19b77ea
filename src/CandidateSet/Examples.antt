-- ===== src/CandidateSet/Examples.antt =====
-- A Candidate Set of two competitors whose texts have white space around them.
use agent_airlock.Prelude.{◌≡◌, refl, [], ◌∷◌}
use agent_airlock.Prelude.Texts.{Text, codes, text_eq}
use agent_airlock.Prelude.Results.{ok}
use agent_airlock.Canonical.{utf8_bytes}
use agent_airlock.StableJson.{stable_json}
use agent_airlock.Selection.{
  Contract, changed_files, selection_criteria, assert_selection_contract, assert_criteria,
}
use agent_airlock.CandidateSet.{
  SetInput, Competitor, Budget, retain, is_space, trim_start, trim_end, trim, is_competitor_id,
  assert_budget, assert_safe_text, check_competitors, validate_candidate_set_input,
}
use agent_airlock.CandidateSet.Normal.{validate_candidate_set_input_lem}
use agent_airlock.CandidateSet.Bounds.{IsBounded, validate_candidate_set_input-IsBounded}

abbrev contract : Contract
contract = record { schema_version = 1; criteria = selection_criteria changed_files ∷ [] }

abbrev budget : Budget
budget = record {
  max_duration_ms_per_competitor = 600000;
  max_total_tokens = 2000000;
  max_total_changed_bytes = 200000000;
}

abbrev competitor : Text → Text → Competitor
competitor id instruction = record {
  id = id;
  executor_profile_id = codes "standard-v1";
  strategy_instruction = instruction;
}

abbrev set_input : Text → Text → SetInput
set_input objective instruction = record {
  objective = objective;
  competitors =
      competitor (codes "small") instruction ∷ competitor (codes "fast") (codes "Be fast") ∷ [];
  selection_contract = contract;
  max_concurrency = 2;
  budget = budget;
  loser_policy = retain;
}

abbrev as_it_is : Text → Text
as_it_is t = t

given_back :
    validate_candidate_set_input as_it_is (set_input (codes " Fix it  ") (codes " Be small"))
    ≡ ok (set_input (codes "Fix it") (codes "Be small"))
unfolding validate_candidate_set_input check_competitors assert_safe_text assert_budget
    is_competitor_id trim trim_end trim_start is_space utf8_bytes text_eq stable_json
    assert_selection_contract assert_criteria selection_criteria
given_back = refl

validate_candidate_set_input_example :
    validate_candidate_set_input as_it_is (set_input (codes "Fix it") (codes "Be small"))
    ≡ ok (set_input (codes "Fix it") (codes "Be small"))
validate_candidate_set_input_example =
    validate_candidate_set_input_lem as_it_is (set_input (codes " Fix it  ") (codes " Be small"))
      (set_input (codes "Fix it") (codes "Be small")) given_back

validate_candidate_set_input-IsBounded_example :
    IsBounded (set_input (codes "Fix it") (codes "Be small"))
validate_candidate_set_input-IsBounded_example =
    validate_candidate_set_input-IsBounded as_it_is
      (set_input (codes " Fix it  ") (codes " Be small"))
      (set_input (codes "Fix it") (codes "Be small")) given_back
