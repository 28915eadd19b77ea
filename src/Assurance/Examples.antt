-- ===== src/Assurance/Examples.antt =====
-- A base contract that gains a required path and a lower limit.
use agent_airlock.Prelude.{◌+◌, ◌≡◌, refl, Bool, true, List, [], ◌∷◌}
use agent_airlock.Prelude.Texts.{Text, codes, text_eq}
use agent_airlock.Prelude.Results.{ok}
use agent_airlock.Digest.Examples.{toy_sha}
use agent_airlock.StableJson.{sort, compare_bytes}
use agent_airlock.Outcome.{
  OutcomeContract, validate_outcome_contract_input, create_next_outcome_contract, validate_paths,
  has_duplicates, validate_secrets, validate_commands,
}
use agent_airlock.Assurance.{
  Operation, add_required_path, lower_max_changed_files, apply_assurance_operations,
  apply_operations, apply_operation, assert_monotonic_strengthening, assert_paths, assert_rules,
  assert_commands, add_path, sort_demands,
}
use agent_airlock.Assurance.Strengthening.{KeepsDemands, AddsDemand, apply_assurance_operations_lem}

abbrev any_pattern : Text → Bool
any_pattern pattern = true

abbrev base : OutcomeContract
base = record {
  version = 3;
  demands = record {
    required_paths = codes "README.md" ∷ [];
    protected_paths = [];
    max_changed_files = 20;
    max_added_bytes = 500;
    secret_patterns = [];
    validation_commands = [];
  };
  created_at = codes "then";
}

abbrev operations : List Operation
operations = add_required_path (codes "AGENTS.md") ∷ lower_max_changed_files 7 ∷ []

abbrev next : OutcomeContract
next = record {
  version = 4;
  demands = record {
    required_paths = codes "AGENTS.md" ∷ codes "README.md" ∷ [];
    protected_paths = [];
    max_changed_files = 7;
    max_added_bytes = 500;
    secret_patterns = [];
    validation_commands = [];
  };
  created_at = codes "now";
}

apply_assurance_operations-sample :
    apply_assurance_operations toy_sha any_pattern compare_bytes (codes "now") base operations
    ≡ ok next
unfolding apply_assurance_operations apply_operations apply_operation
    validate_outcome_contract_input sort_demands sort add_path text_eq compare_bytes validate_paths
    has_duplicates validate_secrets validate_commands create_next_outcome_contract
    assert_monotonic_strengthening assert_paths assert_rules assert_commands
apply_assurance_operations-sample = refl

apply_assurance_operations_example :
    (next.version ≡ base.version + 1)
    × (validate_outcome_contract_input any_pattern next.demands ≡ ok tt)
    × KeepsDemands base.demands next.demands
    × AddsDemand base.demands next.demands
apply_assurance_operations_example =
    apply_assurance_operations_lem toy_sha any_pattern compare_bytes (codes "now") base operations
      next apply_assurance_operations-sample
