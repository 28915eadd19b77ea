-- ===== src/Assurance/Simulation.antt =====
-- `simulateOperation` of apps/server/src/assurance.ts: what an operation would have made of a
-- historical Run. The operation key, the Run and the hash of the result are left out.
pub mod History
pub mod Rules
pub mod Verdicts
pub mod Examples
use agent_airlock.Prelude.{
  ℕ, ◌+◌, Bool, true, false, not, List, [], ◌∷◌, ◌++◌, Option, none, some, any, ltb, ◌==◌, ◌&&◌,
  ◌||◌, if◌then◌else◌,
}
use agent_airlock.Prelude.Texts.{Text, codes, text_eq}
use agent_airlock.Digest.{Sha256}
use agent_airlock.Outcome.{ValidationCommand}
use agent_airlock.Assurance.{
  Operation, add_required_path, add_protected_path, lower_max_changed_files, lower_max_added_bytes,
  add_catalog_secret, make_command_required, find_command, command_hash,
}

pub data Disposition : Type 0 where
  promoted quarantined discarded cancelled : Disposition

pub data ChangeKind : Type 0 where
  added modified deleted : ChangeKind

pub record Change : Type 0 where
  pub path : Text
  pub kind : ChangeKind

pub record Changes : Type 0 where
  pub files : List Change
  pub total_changed_files : ℕ
  pub total_added_bytes : ℕ
  pub truncated : Bool

pub data Verdict : Type 0 where
  passed failed error : Verdict

-- The part of a Run's transaction that the simulation reads.
pub record Transaction : Type 0 where
  pub disposition : Option Disposition
  pub changes : Option Changes
  pub validation_commands : List ValidationCommand
  pub validations : List (Text × Verdict)

pub data Classification : Type 0 where
  exact conservative unknown : Classification

pub record SimulationResult : Type 0 where
  pub classification : Classification
  pub counterfactual : Option Disposition
  pub missing_inputs : List Text

abbrev pub outcome : Classification → Option Disposition → List Text → SimulationResult
outcome classification counterfactual missing = record {
  classification = classification;
  counterfactual = counterfactual;
  missing_inputs = missing;
}

abbrev missing : Text → SimulationResult
missing input = outcome unknown none (input ∷ [])

abbrev pub exactly : Option Disposition → SimulationResult
exactly disposition = outcome exact disposition []

abbrev pub is_deleted : ChangeKind → Bool
is_deleted added = false
is_deleted modified = false
is_deleted deleted = true

-- The last `else if` of a protected path that no listed change touches.
unfoldable pub simulate_protected_path :
    Text → Option Disposition → Option Changes → SimulationResult
simulate_protected_path path prior none = missing (codes "transaction.changes")
simulate_protected_path path prior (some changes) =
    if any (λ c. text_eq c.path path) changes.files
    then exactly (some quarantined)
    else if changes.truncated
    then missing (codes "complete transaction.changes.files")
    else exactly prior

unfoldable pub simulate_required_path : Text → Option Changes → SimulationResult
simulate_required_path path none = missing (codes "transaction.changes")
simulate_required_path path (some changes) =
    if any (λ c. text_eq c.path path && is_deleted c.kind) changes.files
    then exactly (some quarantined)
    else if changes.truncated
    then missing (codes "complete transaction.changes.files")
    else missing (codes "historical required-path evaluator result")

unfoldable pub simulate_limit :
    (Changes → ℕ) → ℕ → Option Disposition → Option Changes → SimulationResult
simulate_limit observed maximum prior none = missing (codes "transaction.changes")
simulate_limit observed maximum prior (some changes) =
    exactly (if ltb maximum (observed changes) then some quarantined else prior)

unfoldable pub find_validation : Text → List (Text × Verdict) → Option Verdict
find_validation name [] = none
find_validation name (v ∷ vs) =
    let later = find_validation name vs in if text_eq v.0 name then some v.1 else later

unfoldable pub simulate_secret : Option Disposition → Option Verdict → SimulationResult
simulate_secret prior none = missing (codes "matching trusted catalog secret evaluator result")
simulate_secret prior (some passed) = exactly prior
simulate_secret prior (some failed) = exactly (some quarantined)
simulate_secret prior (some error) =
    missing (codes "complete trusted catalog secret evaluator result")

unfoldable pub simulate_validation : Option Disposition → Option Verdict → SimulationResult
simulate_validation prior none = missing (codes "matching Validation command result")
simulate_validation prior (some passed) = exactly prior
simulate_validation prior (some failed) = exactly (some quarantined)
simulate_validation prior (some error) = exactly (some quarantined)

abbrev is_quarantined : Option Disposition → Bool
is_quarantined (some quarantined) = true
is_quarantined _ = false

-- `if (classification === "unknown" && … === "quarantined")`.
unfoldable pub settle : Option Disposition → SimulationResult → SimulationResult
settle prior o = elim o.classification [
  | exact ↦ o
  | conservative ↦ o
  | unknown ↦
      if is_quarantined prior then outcome conservative o.counterfactual o.missing_inputs else o
]

module _ (sha : Sha256) where
  unfoldable pub simulate_command :
      Text
      → Text
      → ℕ
      → Option Disposition
      → Option ValidationCommand
      → Option Verdict
      → SimulationResult
  unfolding simulate_validation
  simulate_command name hash timeout prior none verdict =
      missing (codes "matching Outcome Contract command identity")
  simulate_command name hash timeout prior (some c) verdict =
      if not (c.timeout_ms == timeout) || not (text_eq (command_hash sha c) hash)
      then missing (codes "matching Outcome Contract command identity")
      else simulate_validation prior verdict

  unfoldable pub simulate_on : Operation → Transaction → SimulationResult
  simulate_on (add_required_path path) t = simulate_required_path path t.changes
  simulate_on (add_protected_path path) t = simulate_protected_path path t.disposition t.changes
  simulate_on (lower_max_changed_files maximum) t =
      simulate_limit (λ c. c.total_changed_files) maximum t.disposition t.changes
  simulate_on (lower_max_added_bytes maximum) t =
      simulate_limit (λ c. c.total_added_bytes) maximum t.disposition t.changes
  simulate_on (make_command_required name hash timeout) t =
      simulate_command name hash timeout t.disposition (find_command name t.validation_commands)
        (find_validation (codes "command:" ++ name) t.validations)
  simulate_on (add_catalog_secret id version name pattern) t =
      simulate_secret t.disposition
        (find_validation (codes "assurance-catalog-rule:" ++ (name ++ codes ":v1")) t.validations)

  -- A Run without a transaction has no prior disposition either.
  unfoldable pub simulate_operation : Operation → Option Transaction → SimulationResult
  simulate_operation operation none = settle none (missing (codes "transaction"))
  simulate_operation operation (some t) = settle t.disposition (simulate_on operation t)
