-- ===== src/Journal/Reads.antt =====
-- What `PromotionJournal.read` (apps/server/src/promotion-journal.ts) gives of the records that its
-- other operations write.
use agent_airlock.Prelude.{
  ℕ, ◌+◌, ◌<◌, ◌≡◌, refl, sym, ap, ap₂, ◌∙◌, subst, Bool, true, false, not, Option, none, some, ltb,
  ◌==◌, ◌&&◌, ◌⊎◌, inl, inr, Bool-cases, arith, then_side, else_side, if◌then◌else◌,
}
use agent_airlock.Prelude.Texts.{Text}
use agent_airlock.Prelude.Results.{
  Result, ok, thrown, ◌>>◌, throw_if, >>=-eq_ok, ok-injective, throw_if_done,
}
use agent_airlock.Canonical.{Json}
use agent_airlock.Journal.{
  Platform, Phase, phase_index, Scope, Authority, Plan, Transaction, Canonical, JournalRecord,
  is_safe_identifier,
}
use agent_airlock.Journal.Validation.{
  validate_record, parse_scope, scopes_equal, has_exact_keys, identity_is_invalid,
}
use agent_airlock.Journal.Operations.{
  holds, Disk, get_file, file_path, write_temporary, persist, read, read_file, save, first_record,
  begin_promotion, advanced, advance, with_recovery_error, record_recovery_error, with_transaction,
  update_transaction, with_scope, bind_scope, bind_external_action_scope, already_exists,
}
use agent_airlock.Journal.Files.{get_file-persist, get_file-write_temporary}
use agent_airlock.Journal.Upgrade.{upgrade-validate_record}
use agent_airlock.Journal.Machine.{
  Command, begin_run, advance_to, note_error, set_transaction, bind_to, call, IsFiled,
}
use agent_airlock.Journal.Refinement.{read-entry_at}

identity_is_invalid_lem :
    (r : JournalRecord) → identity_is_invalid r ≡ false → is_safe_identifier r.run_id ≡ true
unfolding identity_is_invalid
identity_is_invalid_lem r h = ground arith

module _ (platform : Platform) where
  abbrev pub is_oversized : JournalRecord → Bool
  is_oversized r = ltb 2000000 (platform.file_size r)

  -- What a read gives of a record just written.
  abbrev pub read_back : JournalRecord → Result JournalRecord
  read_back r = if is_oversized r then thrown "Promotion journal exceeds 2000000 bytes" else ok r

  pub valid-is_safe_identifier :
      (r : JournalRecord)
      → validate_record platform.checks r ≡ ok tt
      → is_safe_identifier r.run_id ≡ true
  unfolding validate_record
  valid-is_safe_identifier r h =
      let (_, _, r1) =
        >>=-eq_ok
          (throw_if (not (r.schema_version == 2) && not (r.schema_version == 3))
            "Promotion journal identity or schema is invalid")
          _ h in
      let (_, _, r2) =
        >>=-eq_ok
          (throw_if (not (has_exact_keys r.schema_version r.scope))
            "Promotion journal contains unknown or missing fields")
          _ r1 in
      let (_, identity, _) =
        >>=-eq_ok
          (throw_if (identity_is_invalid r) "Promotion journal identity or schema is invalid") _
          r2 in
      identity_is_invalid_lem r (
        throw_if_done (identity_is_invalid r) "Promotion journal identity or schema is invalid"
          identity)

  read_held_lem :
      (r : JournalRecord)
      → validate_record platform.checks r ≡ ok tt
      → read_file platform (some (holds r)) ≡ read_back r
  read_held_lem r valid = elim (Bool-cases (is_oversized r)) [
    | inl large ↦ rw large
    | inr small ↦ rw (small, upgrade-validate_record platform.checks r valid, valid)
  ]

  -- A record that an operation saved is read back as it is, unless its file is over the limit that
  -- only a read checks.
  pub read-save :
      (uuid : Text) (next : JournalRecord) (d : Disk) (r : JournalRecord) (d' : Disk)
      → save platform uuid next d ≡ ok (r, d')
      → read platform r.run_id d' ≡ read_back r
  unfolding save read
  read-save uuid next d r d' h =
      let (_, valid, last) = >>=-eq_ok (validate_record platform.checks next) _ h in
      let made = ok-injective last in
      let written : read platform next.run_id (persist uuid next d) ≡ read_back next =
        rw (valid-is_safe_identifier next valid, get_file-persist uuid next d)
          (read_held_lem next valid) in
      subst (λ x. read platform x.0.run_id x.1 ≡ read_back x.0) made written

  -- Where a record that an operation gives comes from: saved, or read with nothing written.
  abbrev pub Origin : Disk → JournalRecord → Disk → Type 0
  Origin d r d' =
      ((uuid : Text) × (next : JournalRecord) × (save platform uuid next d ≡ ok (r, d')))
      ⊎ ((run_id : Text) × (read platform run_id d ≡ ok r) × (d ≡ d'))

  same_end :
      (run_id : Text) (current : JournalRecord) (d : Disk) (r : JournalRecord) (d' : Disk)
      → read platform run_id d ≡ ok current
      → ◌≡◌ {A = Result (JournalRecord × Disk)} (ok (current, d)) (ok (r, d'))
      → Origin d r d'
  same_end run_id current d r d' found h =
      let made = ok-injective h in inr (run_id, found ∙ ap (λ x. ok x.0) made, ap (λ x. x.1) made)

  pub begin_promotion-Origin :
      (uuid now : Text) (plan : Plan) (transaction : Transaction) (result : Json)
      → (authority : Option Authority) (scope : Scope) (d : Disk) (r : JournalRecord) (d' : Disk)
      → begin_promotion platform uuid now plan transaction result authority scope d ≡ ok (r, d')
      → save platform uuid (first_record now plan transaction result authority scope) d ≡ ok (r, d')
  unfolding begin_promotion
  begin_promotion-Origin uuid now plan transaction result authority scope d r d' h =
      let (_, _, r1) =
        >>=-eq_ok (throw_if (not (is_safe_identifier plan.run_id)) "Run identifier is not safe") _
          h in
      let (_, _, r2) =
        >>=-eq_ok
          (throw_if (already_exists (get_file (file_path plan.run_id) d))
            "Promotion journal already exists for Run")
          _ r1 in
      let (_, _, r3) = >>=-eq_ok (parse_scope scope) _ r2 in r3

  advance-Origin :
      (uuid now run_id : Text) (phase : Phase) (transaction : Transaction)
      → (target : Option (Option Canonical)) (d : Disk) (r : JournalRecord) (d' : Disk)
      → advance platform uuid now run_id phase transaction target d ≡ ok (r, d')
      → Origin d r d'
  unfolding advance
  advance-Origin uuid now run_id phase transaction target d r d' h =
      let (current, found, rest) = >>=-eq_ok (read platform run_id d) _ h in
      let next = advanced now phase transaction target current in
      let go_on =
        throw_if (not (phase_index phase == phase_index current.phase + 1))
          "Promotion journal cannot advance between these phases"
        >> save platform uuid next d in
      let test = phase_index phase == phase_index current.phase in
      elim (Bool-cases test) [
        | inl same ↦
            same_end run_id current d r d' found
              (then_side test (ok (current, d)) go_on (ok (r, d')) same rest)
        | inr other ↦
            let (_, _, saved) =
              >>=-eq_ok
                (throw_if (not (phase_index phase == phase_index current.phase + 1))
                  "Promotion journal cannot advance between these phases")
                _ (else_side test (ok (current, d)) go_on (ok (r, d')) other rest) in
            inl (uuid, next, saved)
      ]

  bind_scope-Origin :
      (uuid now run_id : Text) (scope : Scope) (current : JournalRecord) (bound : Option Scope)
      → (d : Disk) (r : JournalRecord) (d' : Disk) → read platform run_id d ≡ ok current
      → bind_scope platform uuid now scope current bound d ≡ ok (r, d')
      → Origin d r d'
  unfolding bind_scope
  bind_scope-Origin uuid now run_id scope current none d r d' found h =
      inl (uuid, with_scope now scope current, h)
  bind_scope-Origin uuid now run_id scope current (some s) d r d' found h =
      let (_, _, last) =
        >>=-eq_ok
          (throw_if (not (scopes_equal s scope))
            "Promotion journal external-action consumer scope is immutable")
          _ h in
      same_end run_id current d r d' found last

  call-Origin :
      (c : Command) (d : Disk) (r : JournalRecord) (d' : Disk)
      → call platform c d ≡ ok (r, d')
      → Origin d r d'
  unfolding call record_recovery_error update_transaction bind_external_action_scope
  call-Origin (begin_run uuid now plan transaction result authority scope) d r d' h = inl (
    uuid,
    first_record now plan transaction result authority scope,
    begin_promotion-Origin uuid now plan transaction result authority scope d r d' h,
  )
  call-Origin (advance_to uuid now run_id phase transaction target) d r d' h =
      advance-Origin uuid now run_id phase transaction target d r d' h
  call-Origin (note_error uuid now run_id transaction message) d r d' h =
      let (current, _, saved) = >>=-eq_ok (read platform run_id d) _ h in
      inl (uuid, with_recovery_error now transaction message current, saved)
  call-Origin (set_transaction uuid now run_id transaction) d r d' h =
      let (current, _, saved) = >>=-eq_ok (read platform run_id d) _ h in
      inl (uuid, with_transaction now transaction current, saved)
  call-Origin (bind_to uuid now run_id scope) d r d' h =
      let (current, found, r1) = >>=-eq_ok (read platform run_id d) _ h in
      let (_, _, last) = >>=-eq_ok (parse_scope scope) _ r1 in
      bind_scope-Origin uuid now run_id scope current current.scope d r d' found last

  -- The record that an operation gives, on a filed directory, is what a read of its Run gives
  -- afterwards, where its file is within the limit of a read.
  pub read-call :
      (c : Command) (d : Disk) (r : JournalRecord) (d' : Disk)
      → IsFiled d
      → call platform c d ≡ ok (r, d')
      → is_oversized r ≡ false
      → read platform r.run_id d' ≡ ok r
  read-call c d r d' filed h small = elim (call-Origin c d r d' h) [
    | inl (uuid, next, saved) ↦ rw (read-save uuid next d r d' saved, small)
    | inr (run_id, found, same) ↦
        let (own, _) = read-entry_at platform run_id d r filed found in
        ap₂ (read platform) own (sym same) ∙ found
  ]

  -- Between the two writes of a saved record, each Run reads as it did before them.
  pub read-write_temporary :
      (uuid run_id : Text) (next : JournalRecord) (d : Disk)
      → read platform run_id (write_temporary uuid next d) ≡ read platform run_id d
  unfolding read
  read-write_temporary uuid run_id next d = rw (get_file-write_temporary uuid next d run_id)

module _ (platform : Platform) where
  -- A save on one platform, read on one of other sizes.
  read-save_oversized :
      (size : JournalRecord → ℕ) (uuid : Text) (next : JournalRecord) (d : Disk)
      → (r : JournalRecord) (d' : Disk) → save platform uuid next d ≡ ok (r, d')
      → ltb 2000000 (size r) ≡ true
      → read (record platform { file_size = size }) r.run_id d'
        ≡ thrown "Promotion journal exceeds 2000000 bytes"
  unfolding save
  read-save_oversized size uuid next d r d' saved over =
      rw (read-save (record platform { file_size = size }) uuid next d r d' saved) (rw over refl)

  -- Whether a Promotion begins does not depend on the sizes of files: where it begins on one
  -- platform, it begins with the same record and directory on a platform of any other sizes, and
  -- where the record's file is over the limit there, every read of it throws.
  pub read-begin_promotion_oversized :
      (size : JournalRecord → ℕ) (uuid now : Text) (plan : Plan) (transaction : Transaction)
      → (result : Json) (authority : Option Authority) (scope : Scope) (d : Disk)
      → (r : JournalRecord) (d' : Disk)
      → begin_promotion platform uuid now plan transaction result authority scope d ≡ ok (r, d')
      → 2000000 < size r
      → (begin_promotion
            (record platform { file_size = size })
            uuid
            now
            plan
            transaction
            result
            authority
            scope
            d
          ≡ ok (r, d'))
        × (read (record platform { file_size = size }) r.run_id d'
            ≡ thrown "Promotion journal exceeds 2000000 bytes")
  unfolding begin_promotion save
  read-begin_promotion_oversized size uuid now plan transaction result authority scope d r d' h
        large =
      let saved =
        begin_promotion-Origin platform uuid now plan transaction result authority scope d r d' h in
      let over : ltb 2000000 (size r) ≡ true = ground arith in
      (
        h,
        read-save_oversized size uuid (first_record now plan transaction result authority scope) d r
            d' saved over,
      )
