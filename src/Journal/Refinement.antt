-- ===== src/Journal/Refinement.antt =====
-- The operations of `PromotionJournal` (apps/server/src/promotion-journal.ts) beside the machine.
use agent_airlock.Prelude.{
  ◌+◌, ◌≡◌, refl, sym, ap, ◌∙◌, subst, false, not, Option, none, some, ltb, ◌==◌, ==_iff, inl, inr,
  Bool-cases, negated, then_side, else_side,
}
use agent_airlock.Prelude.Texts.{Text, text_eq, eq_of_text_eq, apart_of_text_eq}
use agent_airlock.Prelude.Results.{
  ok, ◌>>◌, throw_if, >>=-eq_ok, ok-injective, throw_if_done, Result-cases,
}
use agent_airlock.Canonical.{Json}
use agent_airlock.Journal.{
  Platform, Phase, phase_index, Scope, Authority, Plan, Transaction, Canonical, JournalRecord,
  is_safe_identifier,
}
use agent_airlock.Journal.Validation.{upgrade, validate_record, parse_scope, scopes_equal}
use agent_airlock.Journal.Operations.{
  File, corrupt, holds, Disk, get_file, file_path, persist, read, read_file, save, first_record,
  begin_promotion, advanced, advance, with_recovery_error, record_recovery_error, with_transaction,
  update_transaction, with_scope, bind_scope, bind_external_action_scope, already_exists,
}
use agent_airlock.Journal.Files.{get_file-persist, get_file-persist_other}
use agent_airlock.Journal.Upgrade.{upgrade-validate_record}
use agent_airlock.Journal.Machine.{
  Command, begin_run, advance_to, note_error, set_transaction, bind_to, call, disk_after, entry_of,
  entry_in, entry_at, Step, stay, start, move, bind, IsFiled,
}

held_lem : (a b : JournalRecord) → some (holds a) ≡ some (holds b) → a ≡ b
held_lem a b h = cc

absent_lem : (f : Option File) → already_exists f ≡ false → entry_in f ≡ none
absent_lem none h = refl
absent_lem (some f) h = absurd (cc)

module _ (platform : Platform) where
  read_file_lem :
      (f : Option File) (current : JournalRecord)
      → read_file platform f ≡ ok current
      → (raw : JournalRecord) × (f ≡ some (holds raw))
        × (upgrade raw ≡ current)
        × (validate_record platform.checks current ≡ ok tt)
  read_file_lem none current h = absurd (cc)
  read_file_lem (some corrupt) current h = absurd (cc)
  read_file_lem (some (holds raw)) current h =
      let (_, _, r1) =
        >>=-eq_ok
          (throw_if (ltb 2000000 (platform.file_size raw))
            "Promotion journal exceeds 2000000 bytes")
          _ h in
      let (_, valid, last) = >>=-eq_ok (validate_record platform.checks (upgrade raw)) _ r1 in
      let same = ok-injective last in
      (raw, refl, same, subst (λ r. validate_record platform.checks r ≡ ok tt) same valid)

  -- What a read gives is the upgrade of what the file holds, and valid.
  pub read_lem :
      (run_id : Text) (d : Disk) (current : JournalRecord)
      → read platform run_id d ≡ ok current
      → (raw : JournalRecord) × (get_file (file_path run_id) d ≡ some (holds raw))
        × (upgrade raw ≡ current)
        × (validate_record platform.checks current ≡ ok tt)
  unfolding read
  read_lem run_id d current h =
      let (_, _, found) =
        >>=-eq_ok (throw_if (not (is_safe_identifier run_id)) "Run identifier is not safe") _ h in
      read_file_lem (get_file (file_path run_id) d) current found

  pub save_lem :
      (uuid : Text) (next : JournalRecord) (d : Disk) (r : JournalRecord) (d' : Disk)
      → save platform uuid next d ≡ ok (r, d')
      → (validate_record platform.checks next ≡ ok tt) × (persist uuid next d ≡ d')
  unfolding save
  save_lem uuid next d r d' h =
      let (_, valid, last) = >>=-eq_ok (validate_record platform.checks next) _ h in
      (valid, ap (λ x. x.1) (ok-injective last))

  -- From one directory to the next: the files stay filed, and each entry makes a move.
  abbrev pub Moves : Disk → Disk → Type 0
  Moves d d' = IsFiled d' × ((run_id : Text) → Step (entry_at run_id d) (entry_at run_id d'))

  persist-IsFiled :
      (uuid : Text) (next : JournalRecord) (d : Disk) → IsFiled d → IsFiled (persist uuid next d)
  persist-IsFiled uuid next d filed run_id r there =
      elim (Bool-cases (text_eq next.run_id run_id)) [
        | inl named ↦
            let same = eq_of_text_eq next.run_id run_id named in
            let held =
              sym (get_file-persist uuid next d)
              ∙ ap (λ t. get_file (file_path t) (persist uuid next d)) same
              ∙ there in
            ap (λ x. x.run_id) (sym (held_lem next r held)) ∙ same
        | inr other ↦
            let apart = apart_of_text_eq next.run_id run_id other in
            filed run_id r (sym (get_file-persist_other uuid next d run_id apart) ∙ there)
      ]

  persist-Moves :
      (uuid : Text) (next : JournalRecord) (d : Disk)
      → IsFiled d
      → validate_record platform.checks next ≡ ok tt
      → Step (entry_at next.run_id d) (some (entry_of next))
      → Moves d (persist uuid next d)
  persist-Moves uuid next d filed valid step = (
    persist-IsFiled uuid next d filed,
    λ run_id. elim (Bool-cases (text_eq next.run_id run_id)) [
      | inl named ↦
          let same = eq_of_text_eq next.run_id run_id named in
          let there = ap entry_in (get_file-persist uuid next d) in
          let kept =
            ap (λ r. some (entry_of r)) (upgrade-validate_record platform.checks next valid) in
          subst (λ t. Step (entry_at t d) (entry_at t (persist uuid next d))) same
            (subst (Step (entry_at next.run_id d)) (sym (there ∙ kept)) step)
      | inr other ↦
          let apart = apart_of_text_eq next.run_id run_id other in
          stay (ap entry_in (get_file-persist_other uuid next d run_id apart))
    ],
  )

  stays : (d : Disk) → IsFiled d → Moves d d
  stays d filed = (filed, λ run_id. stay refl)

  -- A record read from a filed directory is that of the Run it is read for, and its entry stands
  -- there.
  pub read-entry_at :
      (run_id : Text) (d : Disk) (current : JournalRecord)
      → IsFiled d
      → read platform run_id d ≡ ok current
      → (current.run_id ≡ run_id) × (entry_at run_id d ≡ some (entry_of current))
  unfolding upgrade
  read-entry_at run_id d current filed h =
      let (raw, there, same, _) = read_lem run_id d current h in
      (
        ap (λ r. r.run_id) (sym same) ∙ filed run_id raw there,
        ap entry_in there ∙ ap (λ r. some (entry_of r)) same,
      )

  -- The record written back by an operation on a Run that was read.
  save-Moves :
      (uuid run_id : Text) (current next : JournalRecord) (d : Disk) (r : JournalRecord) (d' : Disk)
      → IsFiled d
      → read platform run_id d ≡ ok current
      → next.run_id ≡ current.run_id
      → Step (some (entry_of current)) (some (entry_of next))
      → save platform uuid next d ≡ ok (r, d')
      → Moves d d'
  save-Moves uuid run_id current next d r d' filed found named step h =
      let (valid, written) = save_lem uuid next d r d' h in
      let (own, there) = read-entry_at run_id d current filed found in
      subst (Moves d) written (
        persist-Moves uuid next d filed valid (
          subst (λ x. Step x (some (entry_of next)))
            (sym (ap (λ t. entry_at t d) (named ∙ own) ∙ there)) step))

  pub begin_promotion-Moves :
      (uuid now : Text) (plan : Plan) (transaction : Transaction) (result : Json)
      → (authority : Option Authority) (scope : Scope) (d : Disk) (r : JournalRecord) (d' : Disk)
      → IsFiled d
      → begin_promotion platform uuid now plan transaction result authority scope d ≡ ok (r, d')
      → Moves d d'
  unfolding begin_promotion first_record
  begin_promotion-Moves uuid now plan transaction result authority scope d r d' filed h =
      let (_, _, r1) =
        >>=-eq_ok (throw_if (not (is_safe_identifier plan.run_id)) "Run identifier is not safe") _
          h in
      let (_, fresh, r2) =
        >>=-eq_ok
          (throw_if (already_exists (get_file (file_path plan.run_id) d))
            "Promotion journal already exists for Run")
          _ r1 in
      let (_, _, r3) = >>=-eq_ok (parse_scope scope) _ r2 in
      let next = first_record now plan transaction result authority scope in
      let (valid, written) = save_lem uuid next d r d' r3 in
      subst (Moves d) written (
        persist-Moves uuid next d filed valid (
          start (entry_of next)
            (absent_lem (get_file (file_path plan.run_id) d) (throw_if_done _ _ fresh)) refl refl))

  advance-Moves :
      (uuid now run_id : Text) (phase : Phase) (transaction : Transaction)
      → (target : Option (Option Canonical)) (d : Disk) (r : JournalRecord) (d' : Disk) → IsFiled d
      → advance platform uuid now run_id phase transaction target d ≡ ok (r, d')
      → Moves d d'
  unfolding advance advanced
  advance-Moves uuid now run_id phase transaction target d r d' filed h =
      let (current, found, rest) = >>=-eq_ok (read platform run_id d) _ h in
      let next = advanced now phase transaction target current in
      let go_on =
        throw_if (not (phase_index phase == phase_index current.phase + 1))
          "Promotion journal cannot advance between these phases"
        >> save platform uuid next d in
      let test = phase_index phase == phase_index current.phase in
      elim (Bool-cases test) [
        | inl same ↦
            let end = then_side test (ok (current, d)) go_on (ok (r, d')) same rest in
            subst (Moves d) (ap (λ x. x.1) (ok-injective end)) (stays d filed)
        | inr other ↦
            let (_, succeeds, saved) =
              >>=-eq_ok
                (throw_if (not (phase_index phase == phase_index current.phase + 1))
                  "Promotion journal cannot advance between these phases")
                _ (else_side test (ok (current, d)) go_on (ok (r, d')) other rest) in
            let successor = (==_iff (phase_index phase) (phase_index current.phase + 1)).0 (
              negated (phase_index phase == phase_index current.phase + 1)
                (throw_if_done _ _ succeeds)) in
            save-Moves uuid run_id current next d r d' filed found refl
              (move (entry_of current) phase refl refl successor) saved
      ]

  record_recovery_error-Moves :
      (uuid now run_id : Text) (transaction : Transaction) (message : Text) (d : Disk)
      → (r : JournalRecord) (d' : Disk) → IsFiled d
      → record_recovery_error platform uuid now run_id transaction message d ≡ ok (r, d')
      → Moves d d'
  unfolding record_recovery_error with_recovery_error
  record_recovery_error-Moves uuid now run_id transaction message d r d' filed h =
      let (current, found, saved) = >>=-eq_ok (read platform run_id d) _ h in
      save-Moves uuid run_id current (with_recovery_error now transaction message current) d r d'
        filed found refl (stay refl) saved

  update_transaction-Moves :
      (uuid now run_id : Text) (transaction : Transaction) (d : Disk)
      → (r : JournalRecord) (d' : Disk) → IsFiled d
      → update_transaction platform uuid now run_id transaction d ≡ ok (r, d')
      → Moves d d'
  unfolding update_transaction with_transaction
  update_transaction-Moves uuid now run_id transaction d r d' filed h =
      let (current, found, saved) = >>=-eq_ok (read platform run_id d) _ h in
      save-Moves uuid run_id current (with_transaction now transaction current) d r d' filed found
        refl (stay refl) saved

  bind_scope-Moves :
      (uuid now run_id : Text) (scope : Scope) (current : JournalRecord) (bound : Option Scope)
      → (d : Disk) (r : JournalRecord) (d' : Disk) → current.scope ≡ bound
      → IsFiled d
      → read platform run_id d ≡ ok current
      → bind_scope platform uuid now scope current bound d ≡ ok (r, d')
      → Moves d d'
  unfolding bind_scope with_scope
  bind_scope-Moves uuid now run_id scope current none d r d' unbound filed found h =
      save-Moves uuid run_id current (with_scope now scope current) d r d' filed found refl
        (bind (entry_of current) scope refl unbound refl) h
  bind_scope-Moves uuid now run_id scope current (some s) d r d' is_bound filed found h =
      let (_, _, last) =
        >>=-eq_ok
          (throw_if (not (scopes_equal s scope))
            "Promotion journal external-action consumer scope is immutable")
          _ h in
      subst (Moves d) (ap (λ x. x.1) (ok-injective last)) (stays d filed)

  bind_external_action_scope-Moves :
      (uuid now run_id : Text) (scope : Scope) (d : Disk) (r : JournalRecord) (d' : Disk)
      → IsFiled d
      → bind_external_action_scope platform uuid now run_id scope d ≡ ok (r, d')
      → Moves d d'
  unfolding bind_external_action_scope
  bind_external_action_scope-Moves uuid now run_id scope d r d' filed h =
      let (current, found, r1) = >>=-eq_ok (read platform run_id d) _ h in
      let (_, _, last) = >>=-eq_ok (parse_scope scope) _ r1 in
      bind_scope-Moves uuid now run_id scope current current.scope d r d' refl filed found last

  call_ok-Moves :
      (c : Command) (d : Disk) (r : JournalRecord) (d' : Disk)
      → IsFiled d
      → call platform c d ≡ ok (r, d')
      → Moves d d'
  unfolding call
  call_ok-Moves (begin_run uuid now plan transaction result authority scope) d r d' filed h =
      begin_promotion-Moves uuid now plan transaction result authority scope d r d' filed h
  call_ok-Moves (advance_to uuid now run_id phase transaction target) d r d' filed h =
      advance-Moves uuid now run_id phase transaction target d r d' filed h
  call_ok-Moves (note_error uuid now run_id transaction message) d r d' filed h =
      record_recovery_error-Moves uuid now run_id transaction message d r d' filed h
  call_ok-Moves (set_transaction uuid now run_id transaction) d r d' filed h =
      update_transaction-Moves uuid now run_id transaction d r d' filed h
  call_ok-Moves (bind_to uuid now run_id scope) d r d' filed h =
      bind_external_action_scope-Moves uuid now run_id scope d r d' filed h

  -- Every operation keeps a directory filed, whether it fails or not, and moves the entry of each
  -- Run by one step of the machine: it stays, starts validated, goes on by one phase, or takes a
  -- scope that it lacked. Nothing else of an entry changes.
  pub call-Moves : (c : Command) (d : Disk) → IsFiled d → Moves d (disk_after (call platform c d) d)
  call-Moves c d filed = elim (Result-cases (call platform c d)) [
    | inl ((r, d'), done) ↦
        subst (Moves d) (ap (λ x. disk_after x d) (sym done)) (call_ok-Moves c d r d' filed done)
    | inr (e, failed) ↦ subst (Moves d) (ap (λ x. disk_after x d) (sym failed)) (stays d filed)
  ]
