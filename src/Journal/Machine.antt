-- ===== src/Journal/Machine.antt =====
-- The operations of `PromotionJournal` (apps/server/src/promotion-journal.ts) as commands that run
-- one after the other, and the machine that they promise: what a Run's entry says, and the moves
-- that it may make.
use agent_airlock.Prelude.{◌+◌, ◌≡◌, List, [], ◌∷◌, Option, none, some}
use agent_airlock.Prelude.Texts.{Text}
use agent_airlock.Prelude.Results.{Result, ok, thrown}
use agent_airlock.Canonical.{Json}
use agent_airlock.Journal.{
  Platform, Phase, validated, phase_index, Scope, Authority, Plan, Transaction, Canonical,
  JournalRecord,
}
use agent_airlock.Journal.Validation.{upgrade}
use agent_airlock.Journal.Operations.{
  File, corrupt, holds, Disk, get_file, file_path, begin_promotion, advance, record_recovery_error,
  update_transaction, bind_external_action_scope,
}

-- A call of an operation, with the identifier of its temporary file and the time.
pub data Command : Type 0 where
  begin_run :
      (uuid now : Text) (plan : Plan) (transaction : Transaction) (result : Json)
      (authority : Option Authority) (scope : Scope)
      → Command
  advance_to :
      (uuid now run_id : Text) (phase : Phase) (transaction : Transaction)
      (target : Option (Option Canonical))
      → Command
  note_error : (uuid now run_id : Text) (transaction : Transaction) (message : Text) → Command
  set_transaction : (uuid now run_id : Text) (transaction : Transaction) → Command
  bind_to : (uuid now run_id : Text) (scope : Scope) → Command

unfoldable pub call : Platform → Command → Disk → Result (JournalRecord × Disk)
call platform (begin_run uuid now plan transaction result authority scope) d =
    begin_promotion platform uuid now plan transaction result authority scope d
call platform (advance_to uuid now run_id phase transaction target) d =
    advance platform uuid now run_id phase transaction target d
call platform (note_error uuid now run_id transaction message) d =
    record_recovery_error platform uuid now run_id transaction message d
call platform (set_transaction uuid now run_id transaction) d =
    update_transaction platform uuid now run_id transaction d
call platform (bind_to uuid now run_id scope) d =
    bind_external_action_scope platform uuid now run_id scope d

-- A failed operation leaves the directory as it was, and the queue goes on.
abbrev pub disk_after : Result (JournalRecord × Disk) → Disk → Disk
disk_after (ok (r, d')) d = d'
disk_after (thrown e) d = d

unfoldable pub run_all : Platform → List Command → Disk → Disk
run_all platform [] d = d
run_all platform (c ∷ cs) d = run_all platform cs (disk_after (call platform c d) d)

-- What the journal promises to keep of a Run.
pub record JournalEntry : Type 0 where
  pub agent_id : Text
  pub authority : Option Authority
  pub plan : Plan
  pub phase : Phase
  pub scope : Option Scope

abbrev pub entry_of : JournalRecord → JournalEntry
entry_of r = record {
  agent_id = r.agent_id;
  authority = r.authority;
  plan = r.plan;
  phase = r.phase;
  scope = r.scope;
}

abbrev pub entry_in : Option File → Option JournalEntry
entry_in none = none
entry_in (some corrupt) = none
entry_in (some (holds r)) = some (entry_of (upgrade r))

-- The entry of a Run in a directory.
abbrev pub entry_at : Text → Disk → Option JournalEntry
entry_at run_id d = entry_in (get_file (file_path run_id) d)

-- The moves of the machine: an entry starts validated, goes on by one phase, or takes a scope when
-- it has none.
pub data Step (x y : Option JournalEntry) : Type 0 where
  stay : y ≡ x → Step x y
  start : (e : JournalEntry) → x ≡ none → y ≡ some e → e.phase ≡ validated → Step x y
  move :
      (e : JournalEntry) (p : Phase)
      → x ≡ some e
      → y ≡ some (record e { phase = p })
      → phase_index p ≡ phase_index e.phase + 1
      → Step x y
  bind :
      (e : JournalEntry) (s : Scope)
      → x ≡ some e
      → e.scope ≡ none
      → y ≡ some (record e { scope = some s })
      → Step x y

-- Each journal file holds a record of the Run that it is named for.
abbrev pub IsFiled : Disk → Type 0
IsFiled d =
    (run_id : Text) (r : JournalRecord)
    → get_file (file_path run_id) d ≡ some (holds r)
    → r.run_id ≡ run_id
