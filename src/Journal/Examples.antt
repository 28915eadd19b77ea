-- ===== src/Journal/Examples.antt =====
-- A Run without Resource Providers, from its begin to its completed phase, on a platform that finds
-- no credentials.
use mathlib.Core.List.{Memᴰ}
use agent_airlock.Prelude.{All, ◌+◌, ◌≤◌, ◌≡◌, refl, true, false, [], ◌∷◌, map, none, some, arith}
use agent_airlock.Prelude.Texts.{Text, codes, text_eq}
use agent_airlock.Prelude.Results.{ok, thrown}
use agent_airlock.Canonical.{null}
use agent_airlock.StableJson.{sort, compare_bytes}
use agent_airlock.Digest.{is_digest}
use agent_airlock.Digest.Examples.{digest_of}
use agent_airlock.Journal.{
  Platform, version_installed, completed, Scope, Plan, Transaction, Canonical, JournalRecord,
  is_safe_identifier,
}
use agent_airlock.Journal.Evidence.{
  same_texts, assert_same_provider_set, check_plans, array_of, index_versions, parse_version_vector,
  index_plans, parse_promotion_plan_vector, check_resources, check_events, check_canonical,
  check_canonical_versions, validate_resource_evidence,
}
use agent_airlock.Journal.Validation.{
  parse_scope, validate_promotion_authority, lacks_target, target_differs, identity_is_invalid,
  validate_record, upgrade,
}
use agent_airlock.Journal.Operations.{
  Disk, get_file, remove_file, put_file, file_path, temporary_path, rename_file, write_temporary,
  persist, first_record, advanced, read, save, begin_promotion, advance, scan,
}
use agent_airlock.Journal.Machine.{
  Command, begin_run, advance_to, call, disk_after, run_all, entry_of, entry_at, IsFiled,
}
use agent_airlock.Journal.Refinement.{Moves, call-Moves}
use agent_airlock.Journal.Runs.{KeepsEntry, entered, run_all-KeepsEntry, run_all-entered}
use agent_airlock.Journal.Reads.{read-call, read-begin_promotion_oversized, read-write_temporary}
use agent_airlock.Journal.Scan.{IsRead, scan_lem}
use agent_airlock.Journal.Once.{Beginning, begin, begin_once}
use agent_airlock.Journal.Progress.{phases_after, to_phase, run_all-phases_after}

abbrev platform : Platform
platform = record {
  checks = record {
    patterns = record {
      sensitive_key = λ key. false;
      sensitive_value = λ value. false;
      redact = λ value. value;
    };
    is_date = λ date. true;
    locale_compare = compare_bytes;
  };
  file_size = λ r. 900;
}

abbrev plan : Plan
plan = record {
  run_id = codes "run-1";
  agent_id = codes "agent-1";
  target_state_id = codes "state-2";
  source_state_id = codes "state-1";
  source_content_hash = [];
  source_provider_versions = some [];
  target_provider_versions = some [];
  resource_plans = some [];
  carried = null;
}

abbrev transaction : Transaction
transaction = record {
  id = codes "run-1";
  status = codes "approved";
  canonical_state_id_before = codes "state-1";
  canonical_content_hash_before = [];
  provider_resources = some [];
  provider_resource_events = some [];
  recovery = record {
    journal_phase = none;
    recovered_after_restart = false;
    recovery_error = none;
  };
  carried = null;
}

abbrev scope : Scope
scope = record {
  schema_version = 1;
  delivery_mode = codes "idempotent-http";
  consumer_scope_digest = digest_of b'a';
}

abbrev beginning : Beginning
beginning = record {
  uuid = codes "u1";
  now = codes "then";
  plan = plan;
  transaction = transaction;
  result = null;
  authority = none;
  scope = scope;
}

abbrev first : JournalRecord
first = first_record (codes "then") plan transaction null none scope

abbrev start_command : Command
start_command = begin_run (codes "u1") (codes "then") plan transaction null none scope

evaluated : Unit {0}
unfolding begin_promotion save persist put_file remove_file rename_file write_temporary get_file
    file_path temporary_path first_record validate_record validate_resource_evidence text_eq
    is_safe_identifier is_digest parse_scope validate_promotion_authority lacks_target
    target_differs identity_is_invalid sort same_texts assert_same_provider_set check_plans array_of
    index_versions parse_version_vector index_plans parse_promotion_plan_vector check_resources
    check_events check_canonical check_canonical_versions compare_bytes advance advanced read
    upgrade
evaluated = tt

begin-sample : begin platform beginning [] ≡ ok (first, persist (codes "u1") first [])
unfolding evaluated
begin-sample = refl

abbrev begun : Disk
begun = persist (codes "u1") first []

empty-IsFiled : IsFiled []
unfolding get_file
empty-IsFiled run_id r h = absurd (cc)

call-Moves_example : Moves platform [] (disk_after (call platform start_command []) [])
call-Moves_example = call-Moves platform start_command [] empty-IsFiled

begun-IsFiled : IsFiled begun
unfolding evaluated call
begun-IsFiled = (call-Moves platform start_command [] empty-IsFiled).0

-- The advance that installs the version names its target; the others keep it.
abbrev target : Canonical
target = record { state_id = codes "state-2"; provider_versions = some []; carried = null }

abbrev install : Command
install =
    advance_to (codes "u2") (codes "later") (codes "run-1") version_installed transaction
      (some (some target))

abbrev installed : JournalRecord
installed = advanced (codes "later") version_installed transaction (some (some target)) first

abbrev installed_disk : Disk
installed_disk = run_all platform (install ∷ []) begun

begun-entry_at : entry_at (codes "run-1") begun ≡ some (entry_of first)
unfolding evaluated
begun-entry_at = refl

run_all-KeepsEntry_example :
    KeepsEntry (entry_of first) (entry_at (codes "run-1") (run_all platform (install ∷ []) begun))
run_all-KeepsEntry_example =
    run_all-KeepsEntry platform (install ∷ []) begun (codes "run-1") (entry_of first) begun-IsFiled
      begun-entry_at

run_all-entered_example :
    entered (entry_at (codes "run-1") (run_all platform (install ∷ []) begun))
    ≤ entered (entry_at (codes "run-1") begun) + 1
run_all-entered_example =
    run_all-entered platform (install ∷ []) begun (codes "run-1") begun-IsFiled

begin_once_example :
    begin platform beginning (run_all platform (install ∷ []) begun)
    ≡ thrown "Promotion journal already exists for Run"
begin_once_example =
    begin_once platform beginning beginning (install ∷ []) [] first begun empty-IsFiled begin-sample
      refl

read-call_example : read platform (codes "run-1") begun ≡ ok first
unfolding call first_record
read-call_example = read-call platform start_command [] first begun empty-IsFiled begin-sample refl

-- The same platform, where every file is too large.
abbrev crowded : Platform
crowded = record platform { file_size = λ r. 2000001 }

read-begin_promotion_oversized_example :
    (begin_promotion crowded (codes "u1") (codes "then") plan transaction null none scope []
      ≡ ok (first, begun))
    × (read crowded (codes "run-1") begun ≡ thrown "Promotion journal exceeds 2000000 bytes")
unfolding first_record
read-begin_promotion_oversized_example =
    read-begin_promotion_oversized platform (λ r. 2000001) (codes "u1") (codes "then") plan
      transaction null none scope [] first begun begin-sample (omega arith)

read-write_temporary_example :
    read platform (codes "run-1") (write_temporary (codes "u2") installed begun)
    ≡ read platform (codes "run-1") begun
read-write_temporary_example =
    read-write_temporary platform (codes "u2") (codes "run-1") installed begun

installed-IsFiled : IsFiled installed_disk
unfolding run_all
installed-IsFiled = (call-Moves platform install begun begun-IsFiled).0

installed-sample : read platform (codes "run-1") installed_disk ≡ ok installed
unfolding evaluated run_all call
installed-sample = refl

run_all-phases_after_example :
    (last : JournalRecord) × (read platform (codes "run-1") (
        run_all platform
          (map
            (to_phase platform
              (codes "later")
              (codes "promoted")
              transaction.recovery
              null
              (codes "u3")
              (codes "run-1")
              installed)
            (phases_after version_installed))
          installed_disk)
      ≡ ok last)
    × (last.phase ≡ completed)
unfolding advanced
run_all-phases_after_example =
    run_all-phases_after platform (codes "later") (codes "promoted") transaction.recovery null
      (codes "u3") (codes "run-1") installed installed_disk installed-IsFiled installed-sample
      (omega arith) (λ p. refl)

scan_lem_example :
    ((run_id : Text) (r : JournalRecord)
      → read platform run_id begun ≡ ok r
      → Memᴰ r (scan platform begun).records)
    × All (IsRead platform begun) (scan platform begun).records
scan_lem_example = scan_lem platform begun
