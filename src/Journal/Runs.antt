-- ===== src/Journal/Runs.antt =====
-- What a history of operations on the Promotion journal (apps/server/src/promotion-journal.ts) keeps
-- of each Run.
use agent_airlock.Prelude.{
  ℕ, ◌+◌, ◌≤◌, ◌≡◌, refl, sym, ap, ◌∙◌, List, [], ◌∷◌, Option, none, some, length, arith,
}
use agent_airlock.Prelude.Texts.{Text}
use agent_airlock.Journal.{Platform, phase_index, Scope}
use agent_airlock.Journal.Operations.{Disk}
use agent_airlock.Journal.Machine.{
  Command, call, disk_after, run_all, JournalEntry, entry_at, Step, stay, start, move, bind,
  IsFiled,
}
use agent_airlock.Journal.Refinement.{call-Moves}

-- The later entry is of the same agent, authority and plan, in the same phase or a later one, with
-- the same scope where there was one.
abbrev pub KeepsEntry : JournalEntry → Option JournalEntry → Type 0
KeepsEntry e y =
    (e' : JournalEntry) × (y ≡ some e')
    × (e'.agent_id ≡ e.agent_id)
    × (e'.authority ≡ e.authority)
    × (e'.plan ≡ e.plan)
    × (phase_index e.phase ≤ phase_index e'.phase)
    × ((s : Scope) → e.scope ≡ some s → e'.scope ≡ some s)

-- How many phases a Run has entered.
abbrev pub entered : Option JournalEntry → ℕ
entered none = 0
entered (some e) = phase_index e.phase + 1

same_entry : (a b : JournalEntry) → some a ≡ some b → a ≡ b
same_entry a b h = cc

keeps_self : (e : JournalEntry) (y : Option JournalEntry) → y ≡ some e → KeepsEntry e y
keeps_self e y h = (e, h, refl, refl, refl, omega arith, λ s at. at)

Step-KeepsEntry :
    (x y : Option JournalEntry) (e : JournalEntry) → x ≡ some e → Step x y → KeepsEntry e y
Step-KeepsEntry x y e h (stay same) = keeps_self e y (same ∙ h)
Step-KeepsEntry x y e h (start f absent made first) = absurd (cc)
Step-KeepsEntry x y e h (move f p at made next) =
    let own = same_entry f e (sym at ∙ h) in
    (
      record f { phase = p },
      made,
      ap (λ x. x.agent_id) own,
      ap (λ x. x.authority) own,
      ap (λ x. x.plan) own,
      omega (arith, next, ap (λ x. phase_index x.phase) own),
      λ s scoped. ap (λ x. x.scope) own ∙ scoped,
    )
Step-KeepsEntry x y e h (bind f t at unbound made) =
    let own = same_entry f e (sym at ∙ h) in
    (
      record f { scope = some t },
      made,
      ap (λ x. x.agent_id) own,
      ap (λ x. x.authority) own,
      ap (λ x. x.plan) own,
      omega (arith, ap (λ x. phase_index x.phase) own),
      λ s scoped. absurd (cc (unbound, ap (λ x. x.scope) own, scoped)),
    )

KeepsEntry-trans :
    (e : JournalEntry) (y z : Option JournalEntry)
    → KeepsEntry e y
    → ((f : JournalEntry) → y ≡ some f → KeepsEntry f z)
    → KeepsEntry e z
KeepsEntry-trans e y z (f, at, agent, authority, plan, later, scoped) go_on =
    let (g, at', agent', authority', plan', later', scoped') = go_on f at in
    (
      g,
      at',
      agent' ∙ agent,
      authority' ∙ authority,
      plan' ∙ plan,
      omega (arith, later, later'),
      λ s h. scoped' s (scoped s h),
    )

Step-entered :
    (x y : Option JournalEntry) → Step x y → (entered x ≤ entered y) × (entered y ≤ entered x + 1)
Step-entered x y (stay same) = ground (arith, ap entered same)
Step-entered x y (start e absent made first) =
    ground (arith, ap entered absent, ap entered made, ap phase_index first)
Step-entered x y (move e p at made next) = ground (arith, ap entered at, ap entered made, next)
Step-entered x y (bind e s at unbound made) = ground (arith, ap entered at, ap entered made)

module _ (platform : Platform) where
  -- However the operations go on, an entry keeps its agent, authority, plan and scope, and its
  -- phase never goes back.
  pub run_all-KeepsEntry :
      (cs : List Command) (d : Disk) (run_id : Text) (e : JournalEntry)
      → IsFiled d
      → entry_at run_id d ≡ some e
      → KeepsEntry e (entry_at run_id (run_all platform cs d))
  unfolding run_all
  run_all-KeepsEntry [] d run_id e filed h = keeps_self e (entry_at run_id d) h
  run_all-KeepsEntry (c ∷ cs) d run_id e filed h =
      let next = disk_after (call platform c d) d in
      let (filed', moves) = call-Moves platform c d filed in
      KeepsEntry-trans e (entry_at run_id next) (entry_at run_id (run_all platform cs next))
        (Step-KeepsEntry (entry_at run_id d) (entry_at run_id next) e h (moves run_id))
        (λ f at. run_all-KeepsEntry cs next run_id f filed' at)

  -- No phase is skipped: a history of n operations takes a Run through at most n phases.
  pub run_all-entered :
      (cs : List Command) (d : Disk) (run_id : Text)
      → IsFiled d
      → entered (entry_at run_id (run_all platform cs d)) ≤ entered (entry_at run_id d) + length cs
  unfolding run_all
  run_all-entered [] d run_id filed = omega arith
  run_all-entered (c ∷ cs) d run_id filed =
      let next = disk_after (call platform c d) d in
      let (filed', moves) = call-Moves platform c d filed in
      omega (
        arith,
        run_all-entered cs next run_id filed',
        (Step-entered (entry_at run_id d) (entry_at run_id next) (moves run_id)).1,
      )
