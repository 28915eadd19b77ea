-- ===== src/Assurance/Strengthening.antt =====
-- `assertMonotonicStrengthening` and `applyAssuranceOperations` of apps/server/src/assurance.ts: the
-- relation of the demands before and after.
use mathlib.Core.List.{Memᴰ}
use agent_airlock.Prelude.{
  ◌+◌, ◌≤◌, ◌<◌, ◌≡◌, refl, sym, ap, ap₂, ◌∙◌, subst, Bool, true, false, not, List, [], ◌∷◌, some,
  length, any, ltb, ◌==◌, ◌&&◌, ◌||◌, Ordering, arith, ◌⊎◌, inl, inr, All, Option-cases, ltb→lt,
  negated, neither, either, both,
}
use agent_airlock.Prelude.Texts.{Text, text_eq, eq_of_text_eq, includes}
use agent_airlock.Prelude.Results.{ok, ◌>>=◌, throw_if, >>=-eq_ok, ok-injective, throw_if_done}
use agent_airlock.Digest.{Sha256}
use agent_airlock.Outcome.{
  SecretPattern, ValidationCommand, Demands, OutcomeContract, validate_outcome_contract_input,
  create_next_outcome_contract,
}
use agent_airlock.Assurance.{
  Operation, find_command, same_rule, assert_paths, assert_rules, assert_commands,
  assert_monotonic_strengthening, apply_operations, sort_demands, apply_assurance_operations,
}

-- A command that stands in the later list under its name, unchanged, and no less required.
abbrev pub KeepsCommand : List ValidationCommand → ValidationCommand → Type 0
KeepsCommand proposed c =
    (d : ValidationCommand) × (find_command c.name proposed ≡ some d)
    × (d.command ≡ c.command)
    × (d.timeout_ms ≡ c.timeout_ms)
    × (c.required ≡ true → d.required ≡ true)

-- A command that was optional and is required in the later list.
abbrev pub IsPromoted : List ValidationCommand → ValidationCommand → Type 0
IsPromoted proposed c =
    (d : ValidationCommand) × (find_command c.name proposed ≡ some d)
    × (c.required ≡ false)
    × (d.required ≡ true)

-- Whatever the base demands, the proposed demands ask for too.
abbrev pub KeepsDemands : Demands → Demands → Type 0
KeepsDemands base proposed =
    All (λ p. Memᴰ p proposed.required_paths) base.required_paths
    × All (λ p. Memᴰ p proposed.protected_paths) base.protected_paths
    × (proposed.max_changed_files ≤ base.max_changed_files)
    × (proposed.max_added_bytes ≤ base.max_added_bytes)
    × All (λ r. Memᴰ r proposed.secret_patterns) base.secret_patterns
    × All (KeepsCommand proposed.validation_commands) base.validation_commands

-- A lower limit, a further path, rule or command, or a command that became required.
abbrev pub AddsDemand : Demands → Demands → Type 0
AddsDemand base proposed =
    ((((((proposed.max_changed_files < base.max_changed_files)
              ⊎ (proposed.max_added_bytes < base.max_added_bytes))
            ⊎ (length base.required_paths < length proposed.required_paths))
          ⊎ (length base.protected_paths < length proposed.protected_paths))
        ⊎ (length base.secret_patterns < length proposed.secret_patterns))
      ⊎ ((c : ValidationCommand) × Memᴰ c base.validation_commands
          × IsPromoted proposed.validation_commands c))
    ⊎ (length base.validation_commands < length proposed.validation_commands)

includes-Memᴰ : (l : List Text) (p : Text) → includes l p ≡ true → Memᴰ p l
includes-Memᴰ [] p h = absurd (cc)
includes-Memᴰ (q ∷ l) p h = elim (either (text_eq q p) (includes l p) h) [
  | inl here ↦ Memᴰ.head (sym (eq_of_text_eq q p here))
  | inr later ↦ Memᴰ.tail (includes-Memᴰ l p later)
]

any-same_rule : (l : List SecretPattern) (r : SecretPattern) → any (same_rule r) l ≡ true → Memᴰ r l
any-same_rule [] r h = absurd (cc)
any-same_rule (s ∷ l) r h = elim (either (same_rule r s) (any (same_rule r) l) h) [
  | inl here ↦
      let (names, patterns) = both (text_eq s.name r.name) (text_eq s.pattern r.pattern) here in
      Memᴰ.head (
        ap₂ (λ n p. record { name = n; pattern = p }) (sym (eq_of_text_eq s.name r.name names))
          (sym (eq_of_text_eq s.pattern r.pattern patterns)))
  | inr later ↦ Memᴰ.tail (any-same_rule l r later)
]

assert_paths_lem :
    (ps proposed : List Text) (required : Bool)
    → assert_paths ps proposed required ≡ ok tt
    → All (λ p. Memᴰ p proposed) ps
unfolding assert_paths
assert_paths_lem [] proposed required h = tt
assert_paths_lem (p ∷ ps) proposed required h =
    let (_, kept, rest) = >>=-eq_ok (throw_if (not (includes proposed p)) _) _ h in
    (
      includes-Memᴰ proposed p (negated (includes proposed p) (throw_if_done _ _ kept)),
      assert_paths_lem ps proposed required rest,
    )

assert_rules_lem :
    (rs proposed : List SecretPattern)
    → assert_rules rs proposed ≡ ok tt
    → All (λ r. Memᴰ r proposed) rs
unfolding assert_rules
assert_rules_lem [] proposed h = tt
assert_rules_lem (r ∷ rs) proposed h =
    let (_, kept, rest) = >>=-eq_ok (throw_if (not (any (same_rule r) proposed)) _) _ h in
    (
      any-same_rule proposed r (negated (any (same_rule r) proposed) (throw_if_done _ _ kept)),
      assert_rules_lem rs proposed rest,
    )

unchanged :
    (proposed : List ValidationCommand) (c d : ValidationCommand)
    → find_command c.name proposed ≡ some d
    → (not (text_eq d.command c.command)
        || not (d.timeout_ms == c.timeout_ms)
        || c.required && not d.required)
      ≡ false
    → KeepsCommand proposed c
unchanged proposed c d there h =
    let (same, dropped) =
      neither (not (text_eq d.command c.command) || not (d.timeout_ms == c.timeout_ms))
        (c.required && not d.required) h in
    let (changed, moved) =
      neither (not (text_eq d.command c.command)) (not (d.timeout_ms == c.timeout_ms)) same in
    (
      d,
      there,
      eq_of_text_eq d.command c.command (negated (text_eq d.command c.command) changed),
      ground (arith, moved),
      λ required. ground (arith, dropped, required),
    )

assert_commands_lem :
    (cs proposed : List ValidationCommand) (promoted : Bool)
    → assert_commands cs proposed ≡ ok promoted
    → All (KeepsCommand proposed) cs
      × (promoted ≡ true → (c : ValidationCommand) × Memᴰ c cs × IsPromoted proposed c)
unfolding assert_commands
assert_commands_lem [] proposed promoted h =
    (tt, λ yes_promoted. absurd (cc (ok-injective h, yes_promoted)))
assert_commands_lem (c ∷ cs) proposed promoted h =
    elim (Option-cases (find_command c.name proposed)) [
      | inl missing ↦ absurd (cc (rw (missing, assert_commands) at h))
      | inr (d, there) ↦
          let (_, same, rest) =
            >>=-eq_ok
              (throw_if
                (not (text_eq d.command c.command)
                  || not (d.timeout_ms == c.timeout_ms)
                  || c.required && not d.required)
                "Assurance Proposal changes an existing Validation command")
              (λ _.
                assert_commands cs proposed >>= λ later. ok (not c.required && d.required || later))
              (rw (there, assert_commands) at h) in
          let (later, others, made) =
            >>=-eq_ok (assert_commands cs proposed)
              (λ later. ok (not c.required && d.required || later)) rest in
          let (keeps, promotes) = assert_commands_lem cs proposed later others in
          (
            (unchanged proposed c d there (throw_if_done _ _ same), keeps),
            λ is_promoted.
                elim (either (not c.required && d.required) later
                  (ok-injective made ∙ is_promoted)) [
                    | inl here ↦
                        let (optional, needed) = both (not c.required) d.required here in
                        (c, Memᴰ.head refl, (d, there, ground (arith, optional), needed))
                    | inr below ↦
                        let (e, member, found) = promotes below in (e, Memᴰ.tail member, found)
                  ],
          )
    ]

or_sum : {A B : Type 0} (a b : Bool) → (a ≡ true → A) → (b ≡ true → B) → (a || b) ≡ true → A ⊎ B
or_sum true b f g h = inl (f refl)
or_sum false b f g h = inr (g h)

-- What passes the assertion keeps every demand of the base and adds one.
pub assert_monotonic_strengthening_lem :
    (base proposed : Demands)
    → assert_monotonic_strengthening base proposed ≡ ok tt
    → KeepsDemands base proposed × AddsDemand base proposed
unfolding assert_monotonic_strengthening
assert_monotonic_strengthening_lem base proposed h =
    let (_, required, r1) =
      >>=-eq_ok (assert_paths base.required_paths proposed.required_paths true) _ h in
    let (_, protected, r2) =
      >>=-eq_ok (assert_paths base.protected_paths proposed.protected_paths false) _ r1 in
    let (_, limits, r3) =
      >>=-eq_ok
        (throw_if
          (ltb base.max_changed_files proposed.max_changed_files
            || ltb base.max_added_bytes proposed.max_added_bytes)
          _)
        _ r2 in
    let (_, rules, r4) =
      >>=-eq_ok (assert_rules base.secret_patterns proposed.secret_patterns) _ r3 in
    let (promoted, commands, last) =
      >>=-eq_ok (assert_commands base.validation_commands proposed.validation_commands) _ r4 in
    let (files, bytes) =
      neither (ltb base.max_changed_files proposed.max_changed_files)
        (ltb base.max_added_bytes proposed.max_added_bytes) (throw_if_done _ _ limits) in
    let (kept, promotes) =
      assert_commands_lem base.validation_commands proposed.validation_commands promoted commands in
    (
      (
        assert_paths_lem base.required_paths proposed.required_paths true required,
        assert_paths_lem base.protected_paths proposed.protected_paths false protected,
        ground (arith, files),
        ground (arith, bytes),
        assert_rules_lem base.secret_patterns proposed.secret_patterns rules,
        kept,
      ),
      or_sum _ _
          (or_sum _ _
            (or_sum _ _
              (or_sum _ _
                (or_sum _ _
                  (or_sum _ _ (ltb→lt proposed.max_changed_files base.max_changed_files)
                    (ltb→lt proposed.max_added_bytes base.max_added_bytes))
                  (ltb→lt (length base.required_paths) (length proposed.required_paths)))
                (ltb→lt (length base.protected_paths) (length proposed.protected_paths)))
              (ltb→lt (length base.secret_patterns) (length proposed.secret_patterns)))
            promotes)
          (ltb→lt (length base.validation_commands) (length proposed.validation_commands))
          (negated _ (throw_if_done _ _ last)),
    )

-- An accepted list of operations gives the next version of the contract, valid, with every demand
-- of the base kept and one added.
pub apply_assurance_operations_lem :
    (sha : Sha256) (compiles : Text → Bool) (locale_compare : Text → Text → Ordering)
    → (now : Text) (base : OutcomeContract) (operations : List Operation) (next : OutcomeContract)
    → apply_assurance_operations sha compiles locale_compare now base operations ≡ ok next
    → (next.version ≡ base.version + 1)
      × (validate_outcome_contract_input compiles next.demands ≡ ok tt)
      × KeepsDemands base.demands next.demands
      × AddsDemand base.demands next.demands
unfolding apply_assurance_operations create_next_outcome_contract
apply_assurance_operations_lem sha compiles locale_compare now base operations next h =
    let (input, applied, r1) = >>=-eq_ok (apply_operations sha base.demands operations) _ h in
    let sorted = sort_demands sha compiles locale_compare input in
    let (_, valid, r2) = >>=-eq_ok (validate_outcome_contract_input compiles sorted) _ r1 in
    let (made, created, r3) =
      >>=-eq_ok (create_next_outcome_contract compiles now base sorted) _ r2 in
    let (_, stronger, last) =
      >>=-eq_ok (assert_monotonic_strengthening base.demands made.demands) _ r3 in
    let (_, _, created') = >>=-eq_ok (validate_outcome_contract_input compiles sorted) _ created in
    let result = ok-injective created' ∙ ok-injective last in
    let (keeps, adds) =
      subst (λ c. KeepsDemands base.demands c.demands × AddsDemand base.demands c.demands)
        (ok-injective last)
        (assert_monotonic_strengthening_lem base.demands made.demands stronger) in
    (
      sym (ap (λ c. c.version) result),
      subst (λ d. validate_outcome_contract_input compiles d ≡ ok tt) (ap (λ c. c.demands) result)
          valid,
      keeps,
      adds,
    )
