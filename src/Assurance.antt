-- ===== src/Assurance.antt =====
-- Assurance Proposals that strengthen an Outcome Contract: apps/server/src/assurance.ts.
pub mod Strengthening
pub mod Simulation
pub mod Examples
use agent_airlock.Prelude.{
  ℕ, ◌+◌, Bool, true, false, not, List, [], ◌∷◌, ◌++◌, Option, none, some, length, any, ltb, leb,
  ◌==◌, ◌&&◌, ◌||◌, if◌then◌else◌, Ordering,
}
use agent_airlock.Prelude.Int.{pos}
use agent_airlock.Prelude.Texts.{Text, codes, text_eq, includes}
use agent_airlock.Prelude.Results.{Result, ok, thrown, ◌>>=◌, ◌>>◌, throw_if}
use agent_airlock.Canonical.{Json, str, num, obj, fields, utf8_bytes, print_number}
use agent_airlock.StableJson.{stable_json, sort, compare_bytes}
use agent_airlock.Digest.{Sha256, sha256_digest}
use agent_airlock.Outcome.{
  SecretPattern, ValidationCommand, Demands, OutcomeContract, validate_outcome_contract_input,
  create_next_outcome_contract,
}

pub data Operation : Type 0 where
  add_required_path : (path : Text) → Operation
  add_protected_path : (path : Text) → Operation
  lower_max_changed_files : (maximum : ℕ) → Operation
  lower_max_added_bytes : (maximum : ℕ) → Operation
  add_catalog_secret : (catalog_id : Text) (catalog_version : ℕ) (name pattern : Text) → Operation
  make_command_required : (name command_hash : Text) (timeout_ms : ℕ) → Operation

-- `ASSURANCE_SECRET_CATALOG`.
abbrev pub catalog_id : Text
catalog_id = codes "agent-airlock-secret-catalog"

abbrev pub catalog_rules : List SecretPattern
catalog_rules =
    (record {
      name = codes "private-key-block";
      pattern = codes "-----BEGIN (?:RSA |EC |OPENSSH )?PRIVATE KEY-----";
    })
    ∷ []

unfoldable pub assurance_operation_key : Operation → Text
assurance_operation_key (add_required_path path) = codes "add-required-path:" ++ path
assurance_operation_key (add_protected_path path) = codes "add-protected-path:" ++ path
assurance_operation_key (lower_max_changed_files maximum) =
    codes "lower-max-changed-files:" ++ print_number (pos maximum)
assurance_operation_key (lower_max_added_bytes maximum) =
    codes "lower-max-added-bytes:" ++ print_number (pos maximum)
assurance_operation_key (add_catalog_secret id version name pattern) =
    codes "add-catalog-secret|" ++ (id ++ (codes "|" ++ name))
assurance_operation_key (make_command_required name hash timeout) =
    codes "make-command-required:" ++ name

-- `paths.push(path)` unless it is there.
unfoldable pub add_path : List Text → Text → List Text
add_path paths path = if includes paths path then paths else paths ++ path ∷ []

abbrev pub lower : ℕ → ℕ → ℕ
lower current maximum = if ltb maximum current then maximum else current

unfoldable pub find_rule : Text → List SecretPattern → Option SecretPattern
find_rule name [] = none
find_rule name (r ∷ rs) =
    let later = find_rule name rs in if text_eq r.name name then some r else later

unfoldable pub add_rule : List SecretPattern → SecretPattern → List SecretPattern
add_rule rules r = if any (λ s. text_eq s.name r.name) rules then rules else rules ++ r ∷ []

unfoldable pub find_command : Text → List ValidationCommand → Option ValidationCommand
find_command name [] = none
find_command name (c ∷ cs) =
    let later = find_command name cs in if text_eq c.name name then some c else later

-- `command.required = true` on the command that `find` gives.
unfoldable pub require_command : Text → List ValidationCommand → List ValidationCommand
require_command name [] = []
require_command name (c ∷ cs) =
    let later = require_command name cs in
    if text_eq c.name name then record c { required = true } ∷ cs else c ∷ later

abbrev command_json : ValidationCommand → Json
command_json c =
    obj
      (fields ((codes "command", str c.command) ∷ (codes "timeoutMs", num (pos c.timeout_ms)) ∷ []))

module _ (sha : Sha256) where
  unfoldable pub command_hash : ValidationCommand → Text
  command_hash c = sha256_digest sha (utf8_bytes (stable_json (command_json c)))

  -- The step of the loop in `applyAssuranceOperations`.
  unfoldable pub apply_operation : Demands → Operation → Result Demands
  apply_operation input (add_required_path path) =
      ok (record input { required_paths = add_path input.required_paths path })
  apply_operation input (add_protected_path path) =
      ok (record input { protected_paths = add_path input.protected_paths path })
  apply_operation input (lower_max_changed_files maximum) =
      ok (record input { max_changed_files = lower input.max_changed_files maximum })
  apply_operation input (lower_max_added_bytes maximum) =
      ok (record input { max_added_bytes = lower input.max_added_bytes maximum })
  apply_operation input (add_catalog_secret id version name pattern) =
      elim (find_rule name catalog_rules) [
        | none ↦ thrown "Assurance Proposal secret catalog reference is invalid"
        | some trusted ↦
            throw_if
              (not (text_eq id catalog_id)
                || not (version == 1)
                || not (text_eq trusted.pattern pattern))
              "Assurance Proposal secret catalog reference is invalid"
            >> ok (record input { secret_patterns = add_rule input.secret_patterns trusted })
      ]
  apply_operation input (make_command_required name hash timeout) =
      elim (find_command name input.validation_commands) [
        | none ↦ thrown "Assurance Proposal command identity is invalid"
        | some c ↦
            throw_if (not (c.timeout_ms == timeout) || not (text_eq (command_hash c) hash))
              "Assurance Proposal command identity is invalid"
            >> ok (record input {
              validation_commands = require_command name input.validation_commands;
            })
      ]

  unfoldable pub apply_operations : Demands → List Operation → Result Demands
  apply_operations input [] = ok input
  apply_operations input (o ∷ os) = do next ← apply_operation input o; apply_operations next os

-- Whether a rule stands in a list unchanged.
abbrev pub same_rule : SecretPattern → SecretPattern → Bool
same_rule r candidate = text_eq candidate.name r.name && text_eq candidate.pattern r.pattern

unfoldable pub assert_paths : List Text → List Text → Bool → Result (Unit {0})
assert_paths [] proposed required = ok tt
assert_paths (p ∷ ps) proposed required = do
  throw_if (not (includes proposed p)) (
      if required
      then "Assurance Proposal removes a required path"
      else "Assurance Proposal removes a protected path")
  assert_paths ps proposed required

unfoldable pub assert_rules : List SecretPattern → List SecretPattern → Result (Unit {0})
assert_rules [] proposed = ok tt
assert_rules (r ∷ rs) proposed = do
  throw_if (not (any (same_rule r) proposed)) "Assurance Proposal changes an existing secret rule"
  assert_rules rs proposed

-- The walk over the commands: whether one of them has become required.
unfoldable pub assert_commands : List ValidationCommand → List ValidationCommand → Result Bool
assert_commands [] proposed = ok false
assert_commands (c ∷ cs) proposed = elim (find_command c.name proposed) [
  | none ↦ thrown "Assurance Proposal changes an existing Validation command"
  | some next ↦
      throw_if
        (not (text_eq next.command c.command)
          || not (next.timeout_ms == c.timeout_ms)
          || c.required && not next.required)
        "Assurance Proposal changes an existing Validation command"
      >> (assert_commands cs proposed >>= λ later. ok (not c.required && next.required || later))
]

unfoldable pub assert_monotonic_strengthening : Demands → Demands → Result (Unit {0})
assert_monotonic_strengthening base proposed = do
  assert_paths base.required_paths proposed.required_paths true
  assert_paths base.protected_paths proposed.protected_paths false
  throw_if
      (ltb base.max_changed_files proposed.max_changed_files
        || ltb base.max_added_bytes proposed.max_added_bytes)
      "Assurance Proposal raises an Outcome Contract limit"
  assert_rules base.secret_patterns proposed.secret_patterns
  promoted ← assert_commands base.validation_commands proposed.validation_commands
  throw_if
      (not (
        ltb proposed.max_changed_files base.max_changed_files
        || ltb proposed.max_added_bytes base.max_added_bytes
        || ltb (length base.required_paths) (length proposed.required_paths)
        || ltb (length base.protected_paths) (length proposed.protected_paths)
        || ltb (length base.secret_patterns) (length proposed.secret_patterns)
        || promoted
        || ltb (length base.validation_commands) (length proposed.validation_commands)))
      "Assurance Proposal is not strictly stronger"

-- `localeCompare` is a parameter, as is the test of a regular expression.
module _ (sha : Sha256) (compiles : Text → Bool) (locale_compare : Text → Text → Ordering) where
  unfoldable pub sort_demands : Demands → Demands
  sort_demands d = record {
    required_paths = sort compare_bytes d.required_paths;
    protected_paths = sort compare_bytes d.protected_paths;
    max_changed_files = d.max_changed_files;
    max_added_bytes = d.max_added_bytes;
    secret_patterns = sort (λ a b. locale_compare a.name b.name) d.secret_patterns;
    validation_commands = sort (λ a b. locale_compare a.name b.name) d.validation_commands;
  }

  unfoldable pub apply_assurance_operations :
      Text → OutcomeContract → List Operation → Result OutcomeContract
  apply_assurance_operations now base operations = do
    input ← apply_operations sha base.demands operations
    validate_outcome_contract_input compiles (sort_demands input)
    next ← create_next_outcome_contract compiles now base (sort_demands input)
    assert_monotonic_strengthening base.demands next.demands
    ok next
