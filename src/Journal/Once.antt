-- ===== src/Journal/Once.antt =====
-- `PromotionJournal.begin` (apps/server/src/promotion-journal.ts) on a Run that was begun before.
use agent_airlock.Prelude.{◌≡◌, refl, ap, ◌∙◌, subst, true, List, Option, none, some}
use agent_airlock.Prelude.Texts.{Text}
use agent_airlock.Prelude.Results.{Result, ok, thrown}
use agent_airlock.Canonical.{Json}
use agent_airlock.Journal.{
  Platform, Scope, Authority, Plan, Transaction, JournalRecord, is_safe_identifier,
}
use agent_airlock.Journal.Validation.{upgrade}
use agent_airlock.Journal.Operations.{
  File, Disk, get_file, file_path, already_exists, first_record, begin_promotion,
}
use agent_airlock.Journal.Files.{get_file-persist}
use agent_airlock.Journal.Machine.{
  Command, run_all, JournalEntry, entry_of, entry_in, entry_at, IsFiled,
}
use agent_airlock.Journal.Refinement.{save_lem, begin_promotion-Moves}
use agent_airlock.Journal.Reads.{begin_promotion-Origin, valid-is_safe_identifier}
use agent_airlock.Journal.Runs.{run_all-KeepsEntry}

entry_in-already_exists :
    (f : Option File) (e : JournalEntry) → entry_in f ≡ some e → already_exists f ≡ true
entry_in-already_exists none e h = absurd (cc)
entry_in-already_exists (some f) e h = refl

-- What an operation begins with, beside its directory: the rest of its arguments.
pub record Beginning : Type 0 where
  pub uuid : Text
  pub now : Text
  pub plan : Plan
  pub transaction : Transaction
  pub result : Json
  pub authority : Option Authority
  pub scope : Scope

module _ (platform : Platform) where
  abbrev pub begin : Beginning → Disk → Result (JournalRecord × Disk)
  begin b d =
      begin_promotion platform b.uuid b.now b.plan b.transaction b.result b.authority b.scope d

  abbrev begun_record : Beginning → JournalRecord
  begun_record b = first_record b.now b.plan b.transaction b.result b.authority b.scope

  begin_again_lem :
      (b : Beginning) (d : Disk)
      → is_safe_identifier b.plan.run_id ≡ true
      → already_exists (get_file (file_path b.plan.run_id) d) ≡ true
      → begin b d ≡ thrown "Promotion journal already exists for Run"
  unfolding begin_promotion
  begin_again_lem b d safe there = rw (safe, there)

  begun_lem :
      (b : Beginning) (d : Disk) (r : JournalRecord) (d' : Disk)
      → begin b d ≡ ok (r, d')
      → (is_safe_identifier b.plan.run_id ≡ true)
        × (entry_at b.plan.run_id d' ≡ some (entry_of (upgrade (begun_record b))))
  unfolding first_record
  begun_lem b d r d' h =
      let saved =
        begin_promotion-Origin platform b.uuid b.now b.plan b.transaction b.result b.authority
          b.scope d r d' h in
      let (valid, written) = save_lem platform b.uuid (begun_record b) d r d' saved in
      (
        valid-is_safe_identifier platform (begun_record b) valid,
        subst (λ x. entry_at b.plan.run_id x ≡ some (entry_of (upgrade (begun_record b)))) written
            (ap entry_in (get_file-persist b.uuid (begun_record b) d)),
      )

  -- A Run is begun at most once: after a begin that succeeded on a filed directory, and whatever
  -- operations follow it, another begin for that Run throws that its journal already exists.
  pub begin_once :
      (first second : Beginning) (cs : List Command) (d : Disk) (r : JournalRecord) (d' : Disk)
      → IsFiled d
      → begin first d ≡ ok (r, d')
      → second.plan.run_id ≡ first.plan.run_id
      → begin second (run_all platform cs d') ≡ thrown "Promotion journal already exists for Run"
  begin_once first second cs d r d' filed h same =
      let (filed', _) =
        begin_promotion-Moves platform first.uuid first.now first.plan first.transaction
          first.result first.authority first.scope d r d' filed h in
      let (safe, entry) = begun_lem first d r d' h in
      let last = run_all platform cs d' in
      let (e, at, _, _, _, _, _) =
        run_all-KeepsEntry platform cs d' first.plan.run_id
          (entry_of (upgrade (begun_record first))) filed' entry in
      begin_again_lem second last (ap is_safe_identifier same ∙ safe) (
        ap (λ t. already_exists (get_file (file_path t) last)) same
        ∙ entry_in-already_exists (get_file (file_path first.plan.run_id) last) e at)
