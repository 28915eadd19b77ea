-- ===== src/Assurance/Simulation/History.antt =====
-- What the history of a Run shows of an operation, and the answers of `simulateOperation`
-- (apps/server/src/assurance.ts) to it.
use agent_airlock.Prelude.{◌≡◌, ◌≤◌, ◌<◌, false, [], ◌∷◌, ◌++◌, Option, none, some, ◌⊎◌, ℕ, Memᴰ}
use agent_airlock.Prelude.Texts.{Text, codes}
use agent_airlock.Digest.{Sha256}
use agent_airlock.Outcome.{ValidationCommand}
use agent_airlock.Assurance.{
  Operation, add_required_path, add_protected_path, lower_max_changed_files, lower_max_added_bytes,
  add_catalog_secret, make_command_required, find_command, command_hash,
}
use agent_airlock.Assurance.Simulation.{
  Disposition, quarantined, find_validation, deleted, Transaction, Change, Changes, conservative,
  unknown, SimulationResult, outcome, exactly, Verdict,
}

-- A listed change of a path.
abbrev pub Touches : Text → Changes → Type 0
Touches path changes = (c : Change) × Memᴰ c changes.files × (c.path ≡ path)

-- A listed deletion of a path.
abbrev pub Deletes : Text → Changes → Type 0
Deletes path changes = (c : Change) × Memᴰ c changes.files × (c.path ≡ path) × (c.kind ≡ deleted)

-- The command of the Run's contract is the one that the operation names.
abbrev pub Matches : Sha256 → Text → ℕ → Option ValidationCommand → Type 0
Matches sha hash timeout found =
    (c : ValidationCommand) × (found ≡ some c)
    × (c.timeout_ms ≡ timeout)
    × (command_hash sha c ≡ hash)

-- The history has changes, of which something holds.
abbrev pub Recorded : (Changes → Type 0) → Option Changes → Type 0
Recorded Q history = (changes : Changes) × (history ≡ some changes) × Q changes

-- The history shows a violation of the operation.
abbrev pub Breaks : Sha256 → Operation → Transaction → Type 0
Breaks sha (add_required_path path) t = Recorded (Deletes path) t.changes
Breaks sha (add_protected_path path) t = Recorded (Touches path) t.changes
Breaks sha (lower_max_changed_files maximum) t =
    Recorded (λ c. maximum < c.total_changed_files) t.changes
Breaks sha (lower_max_added_bytes maximum) t =
    Recorded (λ c. maximum < c.total_added_bytes) t.changes
Breaks sha (make_command_required name hash timeout) t =
    Matches sha hash timeout (find_command name t.validation_commands)
    × ((find_validation (codes "command:" ++ name) t.validations ≡ some Verdict.failed)
        ⊎ (find_validation (codes "command:" ++ name) t.validations ≡ some Verdict.error))
Breaks sha (add_catalog_secret id version name pattern) t =
    find_validation (codes "assurance-catalog-rule:" ++ (name ++ codes ":v1")) t.validations
    ≡ some Verdict.failed

-- The history shows that the operation is met; of a required path it never does.
abbrev pub Meets : Sha256 → Operation → Transaction → Type 0
Meets sha (add_required_path path) t = ⊥
Meets sha (add_protected_path path) t =
    Recorded (λ c. (c.truncated ≡ false) × ¬ Touches path c) t.changes
Meets sha (lower_max_changed_files maximum) t =
    Recorded (λ c. c.total_changed_files ≤ maximum) t.changes
Meets sha (lower_max_added_bytes maximum) t =
    Recorded (λ c. c.total_added_bytes ≤ maximum) t.changes
Meets sha (make_command_required name hash timeout) t =
    Matches sha hash timeout (find_command name t.validation_commands)
    × (find_validation (codes "command:" ++ name) t.validations ≡ some Verdict.passed)
Meets sha (add_catalog_secret id version name pattern) t =
    find_validation (codes "assurance-catalog-rule:" ++ (name ++ codes ":v1")) t.validations
    ≡ some Verdict.passed

-- An answer that claims no disposition, and names what it misses: conservative of a quarantined
-- Run, unknown of any other.
abbrev pub IsOpen : Option Disposition → SimulationResult → Type 0
IsOpen prior o =
    (o.counterfactual ≡ none)
    × ((input : Text) × (o.missing_inputs ≡ input ∷ []))
    × (((prior ≡ some quarantined) × (o.classification ≡ conservative))
        ⊎ (¬ (prior ≡ some quarantined) × (o.classification ≡ unknown)))

-- The answer is a quarantine where the history shows a violation, the prior disposition where it
-- shows that the operation is met, and open where it shows neither.
abbrev pub Decides : Type 0 → Type 0 → Option Disposition → SimulationResult → Type 0
Decides Broken Met prior o =
    (Broken × (o ≡ exactly (some quarantined)))
    ⊎ ((Met × (o ≡ exactly prior)) ⊎ (¬ Broken × ¬ Met × IsOpen prior o))

-- The same before `settle`.
abbrev pub Answers : Type 0 → Type 0 → Option Disposition → SimulationResult → Type 0
Answers Broken Met prior o =
    (Broken × (o ≡ exactly (some quarantined)))
    ⊎ ((Met × (o ≡ exactly prior))
        ⊎ (¬ Broken × ¬ Met × ((input : Text) × (o ≡ outcome unknown none (input ∷ [])))))

abbrev pub DecidesRun : Sha256 → Operation → Option Transaction → SimulationResult → Type 0
DecidesRun sha operation none o = IsOpen none o
DecidesRun sha operation (some t) o =
    Decides (Breaks sha operation t) (Meets sha operation t) t.disposition o
