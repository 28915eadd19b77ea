-- ===== src/Journal/Progress.antt =====
-- How `PromotionJournal.advance` (apps/server/src/promotion-journal.ts) gets an installed Promotion
-- to its end.
use agent_airlock.Prelude.{
  ℕ, ◌+◌, ◌≡◌, refl, sym, ap, ◌∙◌, true, false, not, List, [], ◌∷◌, Option, none, some, map, ◌≤◌,
  ◌==◌, ◌&&◌, if◌then◌else◌, arith,
}
use agent_airlock.Prelude.Texts.{Text}
use agent_airlock.Prelude.Results.{ok, thrown, throw_if, >>=-eq_ok, throw_if_done}
use agent_airlock.Canonical.{Json}
use agent_airlock.Journal.{
  Platform, Phase, validated, version_installed, canonical_advanced, effects_delivered, completed,
  phase_index, Authority, ordinary_run, candidate_set, federated_admission, federated_approval,
  Transaction, Canonical, Recovery, JournalRecord,
}
use agent_airlock.Journal.Evidence.{validate_resource_evidence}
use agent_airlock.Journal.Validation.{
  validate_record, validate_promotion_authority, candidate_set_contradicts, lacks_target,
  target_differs, identity_is_invalid, has_exact_keys, parse_optional_scope,
}
use agent_airlock.Journal.Operations.{Disk, persist, read, save, advanced, advance}
use agent_airlock.Journal.Reads.{is_oversized, read-save}
use agent_airlock.Journal.Machine.{call, advance_to, disk_after, run_all, Command, IsFiled}
use agent_airlock.Journal.Refinement.{read_lem, read-entry_at}

abbrev pub phases_after : Phase → List Phase
phases_after validated = version_installed ∷ canonical_advanced ∷ effects_delivered ∷ completed ∷ []
phases_after version_installed = canonical_advanced ∷ effects_delivered ∷ completed ∷ []
phases_after canonical_advanced = effects_delivered ∷ completed ∷ []
phases_after effects_delivered = completed ∷ []
phases_after completed = []

-- The phases that lead from the one of an index to the last, each the successor of the one before.
abbrev Follows : ℕ → List Phase → Type 0
Follows n [] = n ≡ 4
Follows n (p ∷ ps) = (phase_index p ≡ n + 1) × Follows (phase_index p) ps

phases_after-Follows : (p : Phase) → Follows (phase_index p) (phases_after p)
phases_after-Follows validated = (refl, (refl, (refl, (refl, refl))))
phases_after-Follows version_installed = (refl, (refl, (refl, refl)))
phases_after-Follows canonical_advanced = (refl, (refl, refl))
phases_after-Follows effects_delivered = (refl, refl)
phases_after-Follows completed = refl

completed_lem : (p : Phase) → phase_index p ≡ 4 → p ≡ completed
completed_lem p h = ground arith

-- The authority check reads nothing that `advance` changes.
authority_kept :
    (now : Text) (p : Phase) (status : Text) (recovery : Recovery) (carried : Json)
    → (r : JournalRecord) (a : Option Authority)
    → validate_promotion_authority
        (advanced now p
          (record r.transaction { status = status; recovery = recovery; carried = carried })
          none
          r)
        a
      ≡ validate_promotion_authority r a
unfolding validate_promotion_authority advanced candidate_set_contradicts
authority_kept now p status recovery carried r none = refl
authority_kept now p status recovery carried r (some (ordinary_run version)) = refl
authority_kept now p status recovery carried r (some (candidate_set v s c w d e st h)) = refl
authority_kept now p status recovery carried r (some (federated_admission v a i d pr po)) = refl
authority_kept now p status recovery carried r (some (federated_approval v a i d x pr po)) = refl

module _ (platform : Platform) (now status : Text) (recovery : Recovery) (carried : Json) where
  -- The record's own transaction with new evidence of how it went.
  abbrev pub reported : JournalRecord → Transaction
  reported r = record r.transaction { status = status; recovery = recovery; carried = carried }

  abbrev pub in_phase : Phase → JournalRecord → JournalRecord
  in_phase p r = advanced now p (reported r) none r

  advanced-validate_record :
      (p : Phase) (r : JournalRecord) (c : Canonical)
      → r.target_canonical ≡ some c
      → validate_record platform.checks r ≡ ok tt
      → validate_record platform.checks (in_phase p r) ≡ ok tt
  unfolding validate_record advanced identity_is_invalid validate_resource_evidence target_differs
      lacks_target
  advanced-validate_record p r c target h =
      let (_, version, r1) =
        >>=-eq_ok
          (throw_if (not (r.schema_version == 2) && not (r.schema_version == 3))
            "Promotion journal identity or schema is invalid")
          _ h in
      let (_, keys, r2) =
        >>=-eq_ok
          (throw_if (not (has_exact_keys r.schema_version r.scope))
            "Promotion journal contains unknown or missing fields")
          _ r1 in
      let (_, identity, r3) =
        >>=-eq_ok
          (throw_if (identity_is_invalid r) "Promotion journal identity or schema is invalid") _
          r2 in
      let (_, scope, r4) = >>=-eq_ok (parse_optional_scope r.scope) _ r3 in
      let (_, authorized, r5) = >>=-eq_ok (validate_promotion_authority r r.authority) _ r4 in
      let (_, _, r6) =
        >>=-eq_ok
          (throw_if (lacks_target (phase_index r.phase) r.target_canonical)
            "Installed Promotion journal phase requires target fingerprints")
          _ r5 in
      let present : lacks_target (phase_index p) r.target_canonical ≡ false =
        ap (lacks_target (phase_index p)) target in
      rw
        (
          version,
          keys,
          identity,
          scope,
          authority_kept now p status recovery carried r r.authority,
          authorized,
          present,
        )
        r6

  target_lem :
      (n : ℕ) (o : Option Canonical)
      → 1 ≤ n
      → lacks_target n o ≡ false
      → (c : Canonical) × (o ≡ some c)
  unfolding lacks_target
  target_lem n none above h = absurd (ground (arith, h, above))
  target_lem n (some c) above h = (c, refl)

  has_target_lem :
      (r : JournalRecord)
      → validate_record platform.checks r ≡ ok tt
      → lacks_target (phase_index r.phase) r.target_canonical ≡ false
  unfolding validate_record
  has_target_lem r h =
      let (_, _, r1) =
        >>=-eq_ok
          (throw_if (not (r.schema_version == 2) && not (r.schema_version == 3))
            "Promotion journal identity or schema is invalid")
          _ h in
      let (_, _, r2) =
        >>=-eq_ok
          (throw_if (not (has_exact_keys r.schema_version r.scope))
            "Promotion journal contains unknown or missing fields")
          _ r1 in
      let (_, _, r3) =
        >>=-eq_ok
          (throw_if (identity_is_invalid r) "Promotion journal identity or schema is invalid") _
          r2 in
      let (_, _, r4) = >>=-eq_ok (parse_optional_scope r.scope) _ r3 in
      let (_, _, r5) = >>=-eq_ok (validate_promotion_authority r r.authority) _ r4 in
      let (_, present, _) =
        >>=-eq_ok
          (throw_if (lacks_target (phase_index r.phase) r.target_canonical)
            "Installed Promotion journal phase requires target fingerprints")
          _ r5 in
      throw_if_done _ _ present

  module _ (uuid run_id : Text) (current : JournalRecord) where
    abbrev pub to_phase : Phase → Command
    to_phase p = advance_to uuid now run_id p (reported current) none

    save-validate_record :
        (next : JournalRecord) (d : Disk)
        → validate_record platform.checks next ≡ ok tt
        → save platform uuid next d ≡ ok (next, persist uuid next d)
    unfolding save
    save-validate_record next d valid = rw valid

    read_phase_lem :
        (p : Phase) (d : Disk)
        → current.run_id ≡ run_id
        → validate_record platform.checks (in_phase p current) ≡ ok tt
        → is_oversized platform (in_phase p current) ≡ false
        → read platform run_id (persist uuid (in_phase p current) d) ≡ ok (in_phase p current)
    unfolding advanced
    read_phase_lem p d own valid small =
        let next = in_phase p current in
        ap (λ t. read platform t (persist uuid next d)) (sym own)
        ∙ read-save platform uuid next d next (persist uuid next d)
            (save-validate_record next d valid)
        ∙ ap (λ b. if b then thrown "Promotion journal exceeds 2000000 bytes" else ok next) small

    -- From a readable record of the Run to the next one.
    next_phase_lem :
        (r : JournalRecord) (p : Phase) (d : Disk)
        → read platform run_id d ≡ ok r
        → phase_index p ≡ phase_index r.phase + 1
        → advanced now p (reported current) none r ≡ in_phase p current
        → current.run_id ≡ run_id
        → validate_record platform.checks (in_phase p current) ≡ ok tt
        → is_oversized platform (in_phase p current) ≡ false
        → read platform run_id (disk_after (call platform (to_phase p) d) d)
          ≡ ok (in_phase p current)
    unfolding call advance
    next_phase_lem r p d found next made own valid small =
        let saved = save-validate_record (in_phase p current) d valid in
        let apart : (phase_index p == phase_index r.phase) ≡ false = ground (arith, next) in
        let successor : (phase_index p == phase_index r.phase + 1) ≡ true = ground (arith, next) in
        rw (found, apart, successor, made, saved) (read_phase_lem p d own valid small)

    -- What each phase's record needs: a valid record, and a file within the limit of a read.
    abbrev IsReady : Phase → Type 0
    IsReady p =
        (validate_record platform.checks (in_phase p current) ≡ ok tt)
        × (is_oversized platform (in_phase p current) ≡ false)

    walk_lem :
        (ps : List Phase) (r : JournalRecord) (d : Disk)
        → Follows (phase_index r.phase) ps
        → ((q : Phase) → advanced now q (reported current) none r ≡ in_phase q current)
        → read platform run_id d ≡ ok r
        → current.run_id ≡ run_id
        → ((q : Phase) → IsReady q)
        → (last : JournalRecord) × (read platform run_id (run_all platform (map to_phase ps) d)
            ≡ ok last)
          × (last.phase ≡ completed)
    unfolding run_all advanced
    walk_lem [] r d at made found own ready = (r, found, completed_lem r.phase at)
    walk_lem (p ∷ ps) r d (next, after) made found own ready =
        let (valid, small) = ready p in
        let there = next_phase_lem r p d found next (made p) own valid small in
        walk_lem ps (in_phase p current) (disk_after (call platform (to_phase p) d) d) after
          (λ q. refl) there own ready

    -- From a readable record of a filed directory, in any phase from the installed version on, the
    -- advances through the phases that are left, each with the record's own transaction and new
    -- evidence, bring the Run to its completed phase, where none of the records that they write is
    -- over the limit of a read.
    pub run_all-phases_after :
        (d : Disk)
        → IsFiled d
        → read platform run_id d ≡ ok current
        → 1 ≤ phase_index current.phase
        → ((p : Phase) → is_oversized platform (in_phase p current) ≡ false)
        → (last : JournalRecord) × (read platform run_id
              (run_all platform (map to_phase (phases_after current.phase)) d)
            ≡ ok last)
          × (last.phase ≡ completed)
    run_all-phases_after d filed found installed small =
        let (own, _) = read-entry_at platform run_id d current filed found in
        let (_, _, _, valid) = read_lem platform run_id d current found in
        let (c, target) =
          target_lem (phase_index current.phase) current.target_canonical installed
            (has_target_lem current valid) in
        walk_lem (phases_after current.phase) current d (phases_after-Follows current.phase)
          (λ q. refl) found own (λ p. (advanced-validate_record p current c target valid, small p))
