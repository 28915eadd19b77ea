-- ===== src/Outcome.antt =====
-- Outcome Contracts and their validation: apps/server/src/outcome-contract.ts.
use agent_airlock.Prelude.{
  ℕ, ◌+◌, Bool, false, not, List, [], ◌∷◌, ◌++◌, map, length, any, all, ltb, leb, ◌==◌, ◌&&◌, ◌||◌,
}
use agent_airlock.Prelude.Texts.{Text, codes, includes, split}
use agent_airlock.Prelude.Results.{Result, ok, ◌>>◌, throw_if}

pub record SecretPattern : Type 0 where
  pub name : Text
  pub pattern : Text

pub record ValidationCommand : Type 0 where
  pub name : Text
  pub command : Text
  pub timeout_ms : ℕ
  pub required : Bool

-- `OutcomeContractInput`: what a contract demands.
pub record Demands : Type 0 where
  pub required_paths : List Text
  pub protected_paths : List Text
  pub max_changed_files : ℕ
  pub max_added_bytes : ℕ
  pub secret_patterns : List SecretPattern
  pub validation_commands : List ValidationCommand

-- `OutcomeContract`: the demands with their version and date.
pub record OutcomeContract : Type 0 where
  pub version : ℕ
  pub demands : Demands
  pub created_at : Text

abbrev starts_with_slash : Text → Bool
starts_with_slash [] = false
starts_with_slash (c ∷ rest) = c == b'/'

unfoldable pub is_unsafe_path : Text → Bool
unfolding split
is_unsafe_path pattern =
    length pattern == 0
    || starts_with_slash pattern
    || any (λ c. c == 92) pattern
    || includes (split pattern []) (codes "..")

unfoldable pub validate_paths : List Text → Result (Unit {0})
unfolding is_unsafe_path
validate_paths [] = ok tt
validate_paths (p ∷ ps) = do
  throw_if (is_unsafe_path p) "Outcome Contract contains an unsafe path pattern"
  throw_if (ltb 240 (length p)) "Outcome Contract path patterns are too long"
  validate_paths ps

-- `new Set(texts).size !== texts.length`.
unfoldable pub has_duplicates : List Text → Bool
has_duplicates [] = false
has_duplicates (t ∷ ts) = includes ts t || has_duplicates ts

abbrev is_name_part : ℕ → Bool
is_name_part c =
    leb 97 c && leb c 122
    || leb 65 c && leb c 90
    || leb 48 c && leb c 57
    || c == b'_'
    || c == b'.'
    || c == b'-'

-- /^[a-zA-Z0-9_.-]{1,64}$/.
unfoldable pub validate_rule_name : Text → Result (Unit {0})
validate_rule_name name =
    throw_if (ltb (length name) 1 || ltb 64 (length name) || not (all is_name_part name))
      "Outcome Contract rule names are invalid"

-- What `trim` removes: white space and line terminators.
abbrev is_space : ℕ → Bool
is_space c =
    leb 9 c && leb c 13
    || c == 32
    || c == 160
    || c == 5760
    || leb 8192 c && leb c 8202
    || c == 8232
    || c == 8233
    || c == 8239
    || c == 8287
    || c == 12288
    || c == 65279

unfoldable pub validate_commands : List ValidationCommand → Result (Unit {0})
validate_commands [] = ok tt
validate_commands (c ∷ cs) = do
  validate_rule_name c.name
  throw_if
      (all is_space c.command
        || ltb 2000 (length c.command)
        || ltb c.timeout_ms 1000
        || ltb 300000 c.timeout_ms)
      "Outcome Contract command is outside the safe range"
  validate_commands cs

-- `compiles` says whether `new RegExp(pattern, "g")` does.
module _ (compiles : Text → Bool) where
  unfoldable pub validate_secrets : List SecretPattern → Result (Unit {0})
  validate_secrets [] = ok tt
  validate_secrets (s ∷ ss) = do
    validate_rule_name s.name
    throw_if (ltb (length s.pattern) 1 || ltb 1000 (length s.pattern))
        "Outcome Contract secret pattern is too long"
    throw_if (not (compiles s.pattern))
        "Outcome Contract secret pattern is not a valid regular expression"
    validate_secrets ss

  unfoldable pub validate_outcome_contract_input : Demands → Result (Unit {0})
  validate_outcome_contract_input input = do
    throw_if
        (ltb input.max_changed_files 1
          || ltb 10000 input.max_changed_files
          || ltb 1073741824 input.max_added_bytes)
        "Outcome Contract limits are outside the safe range"
    throw_if
        (ltb 100 (length input.required_paths)
          || ltb 100 (length input.protected_paths)
          || ltb 50 (length input.secret_patterns)
          || ltb 20 (length input.validation_commands))
        "Outcome Contract contains too many rules"
    validate_paths (input.required_paths ++ input.protected_paths)
    throw_if (has_duplicates input.required_paths) "Outcome Contract required paths must be unique"
    throw_if (has_duplicates input.protected_paths)
        "Outcome Contract protected paths must be unique"
    validate_secrets input.secret_patterns
    validate_commands input.validation_commands
    throw_if
        (has_duplicates (
          map (λ s. codes "secret:" ++ s.name) input.secret_patterns
          ++ map (λ c. codes "command:" ++ c.name) input.validation_commands))
        "Outcome Contract names must be unique"

  -- The next contract, made at the time `now`.
  unfoldable pub create_next_outcome_contract :
      Text → OutcomeContract → Demands → Result OutcomeContract
  create_next_outcome_contract now current input = do
    validate_outcome_contract_input input
    ok (record { version = current.version + 1; demands = input; created_at = now })
