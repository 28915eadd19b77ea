-- ===== src/Trust/Verdicts.antt =====
-- The receipts that `evaluateSigningKeyTrust` (packages/portable-promotion-receipt/src/trust-policy.ts)
-- trusts.
use mathlib.Core.List.{Memᴰ}
use agent_airlock.Prelude.{
  ◌≡◌, refl, sym, ap, ◌∙◌, subst, Bool, true, false, not, Option, ◌↔◌, inl, inr, Option-cases,
  if◌then◌else◌,
}
use agent_airlock.Prelude.Texts.{Text}
use agent_airlock.Prelude.Results.{ok, throw_if, >>=-eq_ok, ok-injective}
use agent_airlock.Trust.{
  Clock, lt_time, KeyStatus, active, retired, compromised, TrustRule, TrustPolicy, is_dated,
  assert_signing_key_trust_policy,
}
use agent_airlock.Trust.Evaluation.{
  Signing, TrustStatus, TrustReport, trusted, historically_trusted, outside_validity_window,
  scope_mismatch, policy_expired, policy_not_yet_effective, find_rule, evaluation_time,
  is_after_end, is_outside_window, mismatches_scope, in_bounds_status, found_status, rule_status,
  status_at, grants, evaluate_signing_key_trust,
}
use agent_airlock.Trust.Rules.{find_rule_lem, find_rule-policy}

grants_else :
    (clock : Clock) (b : Bool) (x y : TrustStatus)
    → grants clock x ≡ false
    → (grants clock (if b then x else y) ≡ true) ↔ ((b ≡ false) × (grants clock y ≡ true))
grants_else clock true x y h = (λ k. absurd (cc (h, k)), λ k. absurd (cc (k.0)))
grants_else clock false x y h = (λ k. (refl, k), λ k. k.1)

module _ (clock : Clock) where
  -- What a rule asks of a receipt.
  abbrev pub Admits : TrustRule → Signing → Type 0
  Admits rule s =
      (rule.status ≡ compromised → ⊥)
      × (is_outside_window clock rule s ≡ false)
      × (mismatches_scope clock rule s ≡ false)

  -- A policy in force with a rule for the key that admits the receipt.
  abbrev pub IsGranted : Text → TrustPolicy → Signing → Type 0
  IsGranted time policy s =
      (lt_time (clock time) (clock policy.issued_at) ≡ false)
      × (is_after_end clock time policy.expires_at ≡ false)
      × ((rule : TrustRule) × Memᴰ rule policy.keys × (rule.key_id ≡ s.key_id) × Admits rule s)

  in_bounds_status_lem :
      (rule : TrustRule) (s : Signing) (granted : TrustStatus)
      → grants clock granted ≡ true
      → (grants clock (in_bounds_status clock rule s granted) ≡ true)
        ↔ ((is_outside_window clock rule s ≡ false) × (mismatches_scope clock rule s ≡ false))
  in_bounds_status_lem rule s granted good =
      let rest = if mismatches_scope clock rule s then scope_mismatch else granted in
      let outer =
        grants_else clock (is_outside_window clock rule s) outside_validity_window rest refl in
      let inner = grants_else clock (mismatches_scope clock rule s) scope_mismatch granted refl in
      (
        λ h. let (inside, k) = outer.0 h in (inside, (inner.0 k).0),
        λ h. outer.1 (h.0, inner.1 (h.1, good)),
      )

  rule_status_lem :
      (k : KeyStatus) (rule : TrustRule) (s : Signing)
      → (grants clock (rule_status clock k rule s) ≡ true) ↔ (
          (k ≡ compromised → ⊥)
          × (is_outside_window clock rule s ≡ false)
          × (mismatches_scope clock rule s ≡ false))
  unfolding rule_status
  rule_status_lem compromised rule s = (λ h. absurd (cc), λ h. absurd (h.0 refl))
  rule_status_lem active rule s =
      let bounds = in_bounds_status_lem rule s trusted refl in
      (
        λ h. let (inside, scoped) = bounds.0 h in (λ e. cc, inside, scoped),
        λ h. bounds.1 (h.1, h.2),
      )
  rule_status_lem retired rule s =
      let bounds = in_bounds_status_lem rule s historically_trusted refl in
      (
        λ h. let (inside, scoped) = bounds.0 h in (λ e. cc, inside, scoped),
        λ h. bounds.1 (h.1, h.2),
      )

  found_status_lem :
      (policy : TrustPolicy) (s : Signing)
      → assert_signing_key_trust_policy clock policy ≡ ok tt
      → (grants clock (found_status clock (find_rule s.key_id policy.keys) s) ≡ true)
        ↔ ((rule : TrustRule) × Memᴰ rule policy.keys × (rule.key_id ≡ s.key_id) × Admits rule s)
  found_status_lem policy s accepted =
      let granted = λ (o : Option TrustRule). grants clock (found_status clock o s) ≡ true in
      (
        λ h. elim (Option-cases (find_rule s.key_id policy.keys)) [
          | inl nothing ↦ absurd (cc (subst granted nothing h))
          | inr (rule, found) ↦
              let (member, named) = find_rule_lem s.key_id policy.keys rule found in
              (rule, member, named, (rule_status_lem rule.status rule s).0 (subst granted found h))
        ],
        λ h.
            let (rule, member, named, admits) = h in
            let found =
              ap (λ t. find_rule t policy.keys) (sym named)
              ∙ find_rule-policy clock policy rule accepted member in
            subst granted (sym found) ((rule_status_lem rule.status rule s).1 admits),
      )

  status_at_lem :
      (time : Text) (policy : TrustPolicy) (s : Signing)
      → assert_signing_key_trust_policy clock policy ≡ ok tt
      → (grants clock (status_at clock time policy s) ≡ true) ↔ IsGranted time policy s
  unfolding status_at
  status_at_lem time policy s accepted =
      let last = found_status clock (find_rule s.key_id policy.keys) s in
      let rest = if is_after_end clock time policy.expires_at then policy_expired else last in
      let outer =
        grants_else clock (lt_time (clock time) (clock policy.issued_at)) policy_not_yet_effective
          rest refl in
      let inner =
        grants_else clock (is_after_end clock time policy.expires_at) policy_expired last refl in
      let found = found_status_lem policy s accepted in
      (
        λ h.
            let (started, k) = outer.0 h in
            let (unexpired, found_it) = inner.0 k in (started, unexpired, found.0 found_it),
        λ h. outer.1 (h.0, inner.1 (h.1, found.1 h.2)),
      )

  -- Under an accepted policy, a report trusts the receipt exactly where its proof is valid, the
  -- policy is in force at the evaluation time, and a rule of the policy for the signing key is not
  -- compromised and admits the decision's time, Agent and disposition.
  pub evaluate_signing_key_trust_lem :
      (s : Signing) (policy : TrustPolicy) (cryptographic : Bool) (evaluated_at : Option Text)
      → (now : Text) (report : TrustReport) → assert_signing_key_trust_policy clock policy ≡ ok tt
      → evaluate_signing_key_trust clock s policy cryptographic evaluated_at now ≡ ok report
      → (report.trusts ≡ true)
        ↔ ((cryptographic ≡ true) × IsGranted (evaluation_time evaluated_at now) policy s)
  unfolding evaluate_signing_key_trust
  evaluate_signing_key_trust_lem s policy false evaluated_at now report accepted h =
      let made = ap (λ r. r.trusts) (ok-injective h) in
      (λ k. absurd (cc (made, k)), λ k. absurd (cc (k.0)))
  evaluate_signing_key_trust_lem s policy true evaluated_at now report accepted h =
      let time = evaluation_time evaluated_at now in
      let (_, _, last) =
        >>=-eq_ok (throw_if (not (is_dated clock time)) "Trust-policy evaluation time is invalid") _
          h in
      let made = ap (λ r. r.trusts) (ok-injective last) in
      let status = status_at_lem time policy s accepted in
      (λ k. (refl, status.0 (made ∙ k)), λ k. sym made ∙ status.1 k.1)
