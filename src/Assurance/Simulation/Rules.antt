-- ===== src/Assurance/Simulation/Rules.antt =====
-- What each rule of `simulateOperation` (apps/server/src/assurance.ts) answers.
use agent_airlock.Prelude.{
  ◌≡◌, ◌≤◌, ◌<◌, refl, ap, subst, Bool, true, false, [], ◌∷◌, Option, none, some, any, ltb, ◌⊎◌,
  inl, inr, Bool-cases, not, ◌==◌, ◌||◌, ◌&&◌, ℕ, List, Memᴰ, both, arith,
}
use mathlib.Core.List.Memᴰ
use agent_airlock.Prelude.Texts.{Text, codes, text_eq, text_eq_refl, eq_of_text_eq}
use agent_airlock.Digest.{Sha256}
use agent_airlock.Outcome.{ValidationCommand}
use agent_airlock.Assurance.{command_hash}
use agent_airlock.Assurance.Simulation.{
  Disposition, is_deleted, deleted, Change, ChangeKind, added, modified, Changes, Verdict,
  simulate_protected_path, simulate_required_path, simulate_limit, simulate_secret,
  simulate_validation, simulate_command,
}
use agent_airlock.Assurance.Simulation.History.{Touches, Deletes, Matches, Recorded, Answers}

any-cases :
    {A : Type 0} (p : A → Bool) (xs : List A) → any p xs ≡ true → (x : A) × Memᴰ x xs × (p x ≡ true)
any-cases p [] h = absurd (cc)
any-cases p (x ∷ xs) h = elim (Bool-cases (p x)) [
  | inl here ↦ (x, Memᴰ.head refl, here)
  | inr not_here ↦ let (y, m, there) = any-cases p xs (rw not_here at h) in (y, Memᴰ.tail m, there)
]

any_of_Memᴰ :
    {A : Type 0} (p : A → Bool) (xs : List A) (x : A) → Memᴰ x xs → p x ≡ true → any p xs ≡ true
any_of_Memᴰ p [] x m h = absurd (Memᴰ.not-nil m)
any_of_Memᴰ p (y ∷ xs) x (Memᴰ.head e) h = ground (arith, ap p e, h)
any_of_Memᴰ p (y ∷ xs) x (Memᴰ.tail m) h = ground (arith, any_of_Memᴰ p xs x m h)

untouched_lem :
    (path : Text) (changes : Changes)
    → any (λ c. text_eq c.path path) changes.files ≡ false
    → ¬ Touches path changes
untouched_lem path changes h (c, m, e) =
    let found =
      any_of_Memᴰ (λ d. text_eq d.path path) changes.files c m (rw e (text_eq_refl path)) in
    cc (h, found)

undeleted_lem :
    (path : Text) (changes : Changes)
    → any (λ c. text_eq c.path path && is_deleted c.kind) changes.files ≡ false
    → ¬ Deletes path changes
undeleted_lem path changes h (c, m, e, k) =
    let found =
      any_of_Memᴰ (λ d. text_eq d.path path && is_deleted d.kind) changes.files c m
        (rw (e, k) (rw (text_eq_refl path) refl)) in
    cc (h, found)

is_deleted-cases : (k : ChangeKind) → is_deleted k ≡ true → k ≡ deleted
is_deleted-cases added h = absurd (cc)
is_deleted-cases modified h = absurd (cc)
is_deleted-cases deleted h = refl

no_history : (Q : Changes → Type 0) → ¬ Recorded Q none
no_history Q (changes, e, q) = absurd (cc e)

no_record : (Q : Changes → Type 0) (changes : Changes) → ¬ Q changes → ¬ Recorded Q (some changes)
no_record Q changes h (others, e, q) = let same : others ≡ changes = cc e in h (subst Q same q)

pub simulate_protected_path_lem :
    (path : Text) (prior : Option Disposition) (history : Option Changes)
    → Answers
        (Recorded (Touches path) history)
        (Recorded (λ c. (c.truncated ≡ false) × ¬ Touches path c) history)
        prior
        (simulate_protected_path path prior history)
unfolding simulate_protected_path
simulate_protected_path_lem path prior none = inr (inr (no_history _, no_history _, (_, refl)))
simulate_protected_path_lem path prior (some changes) =
    elim (Bool-cases (any (λ c. text_eq c.path path) changes.files)) [
      | inl touched ↦
          let (c, m, same) = any-cases (λ d. text_eq d.path path) changes.files touched in
          inl ((changes, refl, (c, m, eq_of_text_eq c.path path same)), (rw touched refl))
      | inr untouched ↦ elim (Bool-cases changes.truncated) [
        | inl cut ↦ inr (
            inr (
              no_record (Touches path) changes (untouched_lem path changes untouched),
              no_record _ changes (λ both. cc (cut, both.0)),
              (codes "complete transaction.changes.files", (rw (untouched, cut) refl)),
            ))
        | inr whole ↦ inr (
            inl (
              (changes, refl, (whole, untouched_lem path changes untouched)),
              (rw (untouched, whole) refl),
            ))
      ]
    ]

pub simulate_required_path_lem :
    (path : Text) (prior : Option Disposition) (history : Option Changes)
    → Answers (Recorded (Deletes path) history) ⊥ prior (simulate_required_path path history)
unfolding simulate_required_path
simulate_required_path_lem path prior none = inr (inr (no_history _, (λ never. never), (_, refl)))
simulate_required_path_lem path prior (some changes) =
    let test : Change → Bool = λ c. text_eq c.path path && is_deleted c.kind in
    elim (Bool-cases (any (λ c. text_eq c.path path && is_deleted c.kind) changes.files)) [
      | inl gone ↦
          let (c, m, same) = any-cases test changes.files gone in
          let (named, kind) = both (text_eq c.path path) (is_deleted c.kind) same in
          inl (
            (changes, refl, (c, m, eq_of_text_eq c.path path named, is_deleted-cases c.kind kind)),
            (rw gone refl),
          )
      | inr kept ↦
          let none_gone = no_record (Deletes path) changes (undeleted_lem path changes kept) in
          elim (Bool-cases changes.truncated) [
            | inl cut ↦ inr (
                inr (
                  none_gone,
                  (λ never. never),
                  (codes "complete transaction.changes.files", (rw (kept, cut) refl)),
                ))
            | inr whole ↦ inr (
                inr (
                  none_gone,
                  (λ never. never),
                  (codes "historical required-path evaluator result", (rw (kept, whole) refl)),
                ))
          ]
    ]

pub simulate_limit_lem :
    (observed : Changes → ℕ) (maximum : ℕ) (prior : Option Disposition) (history : Option Changes)
    → Answers
        (Recorded (λ c. maximum < observed c) history)
        (Recorded (λ c. observed c ≤ maximum) history)
        prior
        (simulate_limit observed maximum prior history)
unfolding simulate_limit
simulate_limit_lem observed maximum prior none = inr (inr (no_history _, no_history _, (_, refl)))
simulate_limit_lem observed maximum prior (some changes) =
    elim (Bool-cases (ltb maximum (observed changes))) [
      | inl above ↦ inl ((changes, refl, ground arith), (rw above refl))
      | inr below ↦ inr (inl ((changes, refl, ground arith), (rw below refl)))
    ]

pub simulate_secret_lem :
    (prior : Option Disposition) (verdict : Option Verdict)
    → Answers
        (verdict ≡ some Verdict.failed)
        (verdict ≡ some Verdict.passed)
        prior
        (simulate_secret prior verdict)
unfolding simulate_secret
simulate_secret_lem prior none = inr (inr ((λ e. cc), (λ e. cc), (_, refl)))
simulate_secret_lem prior (some Verdict.passed) = inr (inl (refl, refl))
simulate_secret_lem prior (some Verdict.failed) = inl (refl, refl)
simulate_secret_lem prior (some Verdict.error) = inr (inr ((λ e. cc), (λ e. cc), (_, refl)))

module _ (sha : Sha256) where
  mismatch_lem :
      (hash : Text) (timeout : ℕ) (c : ValidationCommand)
      → (not (c.timeout_ms == timeout) || not (text_eq (command_hash sha c) hash)) ≡ true
      → ¬ Matches sha hash timeout (some c)
  mismatch_lem hash timeout c h (d, e, t, k) =
      let same : d ≡ c = cc e in
      let time : (c.timeout_ms == timeout) ≡ true = rw (← same, t) (ground arith) in
      let named : text_eq (command_hash sha c) hash ≡ true = rw (← same, k) (text_eq_refl hash) in
      ground (arith, h, time, named)

  matched_lem :
      (name hash : Text) (timeout : ℕ) (prior : Option Disposition) (c : ValidationCommand)
      → (verdict : Option Verdict)
      → (not (c.timeout_ms == timeout) || not (text_eq (command_hash sha c) hash)) ≡ false
      → Matches sha hash timeout (some c)
      → Answers
          (Matches sha hash timeout (some c)
            × ((verdict ≡ some Verdict.failed) ⊎ (verdict ≡ some Verdict.error)))
          (Matches sha hash timeout (some c) × (verdict ≡ some Verdict.passed))
          prior
          (simulate_command sha name hash timeout prior (some c) verdict)
  unfolding simulate_command simulate_validation
  matched_lem name hash timeout prior c none same m =
      let neither : ¬ (
          Matches sha hash timeout (some c)
          × ((◌≡◌ {A = Option Verdict} none (some Verdict.failed))
              ⊎ (◌≡◌ {A = Option Verdict} none (some Verdict.error)))) =
        λ (_, e). elim e [ inl f ↦ cc f | inr f ↦ cc f ] in
      inr (
        inr
          (neither, (λ (_, e). cc e), (codes "matching Validation command result", (rw same refl))))
  matched_lem name hash timeout prior c (some Verdict.passed) same m =
      inr (inl ((m, refl), (rw same refl)))
  matched_lem name hash timeout prior c (some Verdict.failed) same m =
      inl ((m, inl refl), (rw same refl))
  matched_lem name hash timeout prior c (some Verdict.error) same m =
      inl ((m, inr refl), (rw same refl))

  pub simulate_command_lem :
      (name hash : Text) (timeout : ℕ) (prior : Option Disposition)
      → (found : Option ValidationCommand) (verdict : Option Verdict)
      → Answers
          (Matches sha hash timeout found
            × ((verdict ≡ some Verdict.failed) ⊎ (verdict ≡ some Verdict.error)))
          (Matches sha hash timeout found × (verdict ≡ some Verdict.passed))
          prior
          (simulate_command sha name hash timeout prior found verdict)
  unfolding simulate_command simulate_validation
  simulate_command_lem name hash timeout prior none verdict =
      inr (inr ((λ ((c, e, _, _), _). cc e), (λ ((c, e, _, _), _). cc e), (_, refl)))
  simulate_command_lem name hash timeout prior (some c) verdict =
      let test = not (c.timeout_ms == timeout) || not (text_eq (command_hash sha c) hash) in
      elim (Bool-cases test) [
        | inl other ↦
            let apart = mismatch_lem hash timeout c other in
            inr (
              inr (
                (λ (m, _). apart m),
                (λ (m, _). apart m),
                (codes "matching Outcome Contract command identity", (rw other refl)),
              ))
        | inr same ↦
            let matches : Matches sha hash timeout (some c) = (
              c,
              refl,
              ground (arith, same),
              eq_of_text_eq (command_hash sha c) hash (ground (arith, same)),
            ) in
            matched_lem name hash timeout prior c verdict same matches
      ]
