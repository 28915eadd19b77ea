-- ===== src/Journal/Operations.antt =====
-- The class `PromotionJournal` of apps/server/src/promotion-journal.ts. Its directory is a list of
-- named files; the queue of the class runs its operations one after the other, so an operation
-- takes the directory and gives it back. Failures of the file system itself are left out.
use agent_airlock.Prelude.{
  ◌+◌, Bool, true, false, not, List, [], ◌∷◌, ◌++◌, Option, none, some, take, ltb, ◌==◌,
  if◌then◌else◌,
}
use Prim.Native.String.{String}
use agent_airlock.Prelude.Texts.{Text, codes, text_eq}
use agent_airlock.Prelude.Results.{Result, ok, thrown, ◌>>=◌, ◌>>◌, throw_if, with_prefix}
use agent_airlock.Canonical.{Json}
use agent_airlock.StableJson.{sort}
use agent_airlock.Journal.{
  Platform, Phase, phase_index, validated, Scope, Authority, ordinary_run, Plan, Transaction,
  Canonical, JournalRecord, is_safe_identifier, recovery_output,
}
use agent_airlock.Journal.Validation.{parse_scope, scopes_equal, validate_record, upgrade}

-- What a file holds: text that does not parse as a record, or the record.
pub data File : Type 0 where
  corrupt : File
  holds : JournalRecord → File

abbrev pub Disk : Type 0
Disk = List (Text × File)

unfoldable pub get_file : Text → Disk → Option File
get_file name [] = none
get_file name (e ∷ d) = let later = get_file name d in if text_eq e.0 name then some e.1 else later

unfoldable pub remove_file : Text → Disk → Disk
remove_file name [] = []
remove_file name (e ∷ d) =
    let later = remove_file name d in if text_eq e.0 name then later else e ∷ later

unfoldable pub put_file : Text → File → Disk → Disk
unfolding remove_file
put_file name file d = (name, file) ∷ remove_file name d

unfoldable pub file_path : Text → Text
file_path run_id = run_id ++ codes ".json"

unfoldable pub temporary_path : Text → Text → Text
unfolding file_path
temporary_path run_id uuid = file_path run_id ++ (codes "." ++ (uuid ++ codes ".tmp"))

-- The file that `rename` moves, onto whatever stands at the target.
unfoldable pub rename_file : Text → Text → Disk → Disk
rename_file from to d = elim (get_file from d) [
  | none ↦ d
  | some file ↦ put_file to file (remove_file from d)
]

-- `persist`: a temporary file, then its move to the target.
unfoldable pub write_temporary : Text → JournalRecord → Disk → Disk
write_temporary uuid r d = put_file (temporary_path r.run_id uuid) (holds r) d

unfoldable pub persist : Text → JournalRecord → Disk → Disk
persist uuid r d =
    rename_file (temporary_path r.run_id uuid) (file_path r.run_id) (write_temporary uuid r d)

pub record ScanError : Type 0 where
  pub run_id : Option Text
  pub message : String

pub record Scan : Type 0 where
  pub records : List JournalRecord
  pub errors : List ScanError

abbrev scan_error : Text → String → ScanError
scan_error run_id e = record {
  run_id = some run_id;
  message = with_prefix "Promotion journal is corrupt: " e;
}

abbrev unsafe_file : ScanError
unsafe_file = record { run_id = none; message = "Unsafe Promotion journal filename" }

-- The name before ".json", where a name ends so.
unfoldable pub strip_json : Text → Option Text
strip_json [] = none
strip_json (c ∷ cs) =
    let inner = strip_json cs in
    if text_eq (c ∷ cs) (codes ".json")
    then some []
    else elim inner [ none ↦ none | some t ↦ some (c ∷ t) ]

abbrev pub already_exists : Option File → Bool
already_exists none = false
already_exists (some file) = true

abbrev authority_or_ordinary : Option Authority → Authority
authority_or_ordinary none = ordinary_run 1
authority_or_ordinary (some authority) = authority

unfoldable pub first_record :
    Text → Plan → Transaction → Json → Option Authority → Scope → JournalRecord
first_record now plan transaction result authority scope = record {
  schema_version = 3;
  run_id = plan.run_id;
  agent_id = plan.agent_id;
  scope = some scope;
  authority = some (authority_or_ordinary authority);
  phase = validated;
  plan = plan;
  target_canonical = none;
  transaction = record transaction {
    recovery = record {
      journal_phase = some validated;
      recovered_after_restart = false;
      recovery_error = none;
    };
  };
  recovery_result = record { output = recovery_output; carried = result };
  created_at = now;
  updated_at = now;
}

abbrev pub next_target : Option (Option Canonical) → Option Canonical → Option Canonical
next_target none current = current
next_target (some target) current = target

-- The record that `advance` writes.
unfoldable pub advanced :
    Text → Phase → Transaction → Option (Option Canonical) → JournalRecord → JournalRecord
advanced now phase transaction target current = record current {
  phase = phase;
  transaction = record transaction {
    recovery = record transaction.recovery { journal_phase = some phase; recovery_error = none };
  };
  target_canonical = next_target target current.target_canonical;
  updated_at = now;
}

unfoldable pub with_recovery_error : Text → Transaction → Text → JournalRecord → JournalRecord
with_recovery_error now transaction message current = record current {
  transaction = record transaction {
    status = codes "recovery-error";
    recovery = record {
      journal_phase = some current.phase;
      recovered_after_restart = current.transaction.recovery.recovered_after_restart;
      recovery_error = some (take 500 message);
    };
  };
  updated_at = now;
}

unfoldable pub with_transaction : Text → Transaction → JournalRecord → JournalRecord
with_transaction now transaction current = record current {
  transaction = record transaction {
    recovery = record transaction.recovery { journal_phase = some current.phase };
  };
  updated_at = now;
}

unfoldable pub with_scope : Text → Scope → JournalRecord → JournalRecord
with_scope now scope current = record current {
  schema_version = 3;
  scope = some scope;
  updated_at = now;
}

module _ (platform : Platform) where
  abbrev pub read_file : Option File → Result JournalRecord
  read_file none = thrown "ENOENT"
  read_file (some corrupt) = thrown "Promotion journal is not JSON"
  read_file (some (holds raw)) = do
    throw_if (ltb 2000000 (platform.file_size raw)) "Promotion journal exceeds 2000000 bytes"
    validate_record platform.checks (upgrade raw)
    ok (upgrade raw)

  unfoldable pub read : Text → Disk → Result JournalRecord
  unfolding file_path
  read run_id d = do
    throw_if (not (is_safe_identifier run_id)) "Run identifier is not safe"
    read_file (get_file (file_path run_id) d)

  -- The end of each operation: `validateRecord`, then `persist`.
  unfoldable pub save : Text → JournalRecord → Disk → Result (JournalRecord × Disk)
  save uuid r d = do validate_record platform.checks r; ok (r, persist uuid r d)

  unfoldable pub begin_promotion :
      Text
      → Text
      → Plan
      → Transaction
      → Json
      → Option Authority
      → Scope
      → Disk
      → Result (JournalRecord × Disk)
  begin_promotion uuid now plan transaction result authority scope d = do
    throw_if (not (is_safe_identifier plan.run_id)) "Run identifier is not safe"
    throw_if (already_exists (get_file (file_path plan.run_id) d))
        "Promotion journal already exists for Run"
    parse_scope scope
    save uuid (first_record now plan transaction result authority scope) d

  -- `targetCanonical` may be absent, null or a reference.
  unfoldable pub advance :
      Text
      → Text
      → Text
      → Phase
      → Transaction
      → Option (Option Canonical)
      → Disk
      → Result (JournalRecord × Disk)
  advance uuid now run_id phase transaction target d = do
    current ← read run_id d
    if phase_index phase == phase_index current.phase
        then ok (current, d)
        else throw_if (not (phase_index phase == phase_index current.phase + 1))
            "Promotion journal cannot advance between these phases"
          >> save uuid (advanced now phase transaction target current) d

  unfoldable pub record_recovery_error :
      Text → Text → Text → Transaction → Text → Disk → Result (JournalRecord × Disk)
  record_recovery_error uuid now run_id transaction message d = do
    current ← read run_id d
    save uuid (with_recovery_error now transaction message current) d

  unfoldable pub update_transaction :
      Text → Text → Text → Transaction → Disk → Result (JournalRecord × Disk)
  update_transaction uuid now run_id transaction d = do
    current ← read run_id d
    save uuid (with_transaction now transaction current) d

  -- A record of schema version 3 has a scope, and keeps it.
  unfoldable pub bind_scope :
      Text → Text → Scope → JournalRecord → Option Scope → Disk → Result (JournalRecord × Disk)
  bind_scope uuid now scope current none d = save uuid (with_scope now scope current) d
  bind_scope uuid now scope current (some bound) d = do
    throw_if (not (scopes_equal bound scope))
        "Promotion journal external-action consumer scope is immutable"
    ok (current, d)

  unfoldable pub bind_external_action_scope :
      Text → Text → Text → Scope → Disk → Result (JournalRecord × Disk)
  bind_external_action_scope uuid now run_id scope d = do
    current ← read run_id d
    parse_scope scope
    bind_scope uuid now scope current current.scope d

  abbrev scan_result : Text → Result JournalRecord → Scan → Scan
  scan_result run_id (ok r) rest = record rest { records = r ∷ rest.records }
  scan_result run_id (thrown e) rest = record rest { errors = scan_error run_id e ∷ rest.errors }

  abbrev pub scan_entry : Option Text → Disk → Scan → Scan
  scan_entry none d rest = rest
  scan_entry (some run_id) d rest =
      if is_safe_identifier run_id
      then scan_result run_id (read run_id d) rest
      else record rest { errors = unsafe_file ∷ rest.errors }

  unfoldable pub scan_entries : List (Text × File) → Disk → Scan
  unfolding read strip_json
  scan_entries [] d = record { records = []; errors = [] }
  scan_entries (e ∷ es) d = scan_entry (strip_json e.0) d (scan_entries es d)

  unfoldable pub scan : Disk → Scan
  unfolding scan_entries sort
  scan d = scan_entries (sort (λ a b. platform.checks.locale_compare a.0 b.0) d) d
