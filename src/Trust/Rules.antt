-- ===== src/Trust/Rules.antt =====
-- The rules of an accepted policy (packages/portable-promotion-receipt/src/trust-policy.ts): one for
-- each key, which `policy.keys.find` finds.
use mathlib.Core.List.{Memᴰ}
use agent_airlock.Prelude.{
  ◌≡◌, refl, sym, ap, ◌∙◌, subst, true, false, not, List, [], ◌∷◌, some, arith, inl, inr,
  Bool-cases, negated,
}
use agent_airlock.Prelude.Texts.{Text, text_eq, text_eq_refl, eq_of_text_eq, text_eq_apart}
use agent_airlock.Prelude.Results.{ok, throw_if, >>=-eq_ok, throw_if_done}
use agent_airlock.Canonical.{text_lt}
use agent_airlock.Trust.{
  Clock, TrustRule, TrustPolicy, validate_rule, assert_key_rules, assert_signing_key_trust_policy,
  policy_is_invalid, ends_by,
}
use agent_airlock.Trust.Evaluation.{find_rule}

text_lt_irrefl : (s : Text) → text_lt s s ≡ false
unfolding text_lt
text_lt_irrefl [] = refl
text_lt_irrefl (c ∷ s) = ground (arith, text_lt_irrefl s)

text_lt_trans : (s t u : Text) → text_lt s t ≡ true → text_lt t u ≡ true → text_lt s u ≡ true
unfolding text_lt
text_lt_trans s [] [] h k = absurd (cc)
text_lt_trans s (d ∷ t) [] h k = absurd (cc)
text_lt_trans [] t (e ∷ u) h k = refl
text_lt_trans (c ∷ s) [] (e ∷ u) h k = absurd (cc)
text_lt_trans (c ∷ s) (d ∷ t) (e ∷ u) h k = ground (arith, text_lt_trans s t u, h, k)

same_rule : (a b : TrustRule) → some a ≡ some b → a ≡ b
same_rule a b h = cc

pub find_rule_lem :
    (key_id : Text) (rules : List TrustRule) (rule : TrustRule)
    → find_rule key_id rules ≡ some rule
    → Memᴰ rule rules × (rule.key_id ≡ key_id)
unfolding find_rule
find_rule_lem key_id [] rule h = absurd (cc)
find_rule_lem key_id (r ∷ rules) rule h = elim (Bool-cases (text_eq r.key_id key_id)) [
  | inl own ↦
      let same = same_rule r rule (rw own at h) in
      (
        Memᴰ.head (sym same),
        subst (λ x. x.key_id ≡ key_id) same (eq_of_text_eq r.key_id key_id own),
      )
  | inr other ↦
      let (there, named) = find_rule_lem key_id rules rule (rw other at h) in
      (Memᴰ.tail there, named)
]

module _ (clock : Clock) where
  assert_rules_lem :
      (previous : Text) (rules : List TrustRule) (rule : TrustRule)
      → assert_key_rules clock previous rules ≡ ok tt
      → Memᴰ rule rules
      → text_lt previous rule.key_id ≡ true
  unfolding assert_key_rules
  assert_rules_lem previous [] rule h m = elim m [ ]
  assert_rules_lem previous (r ∷ rules) rule h m =
      let (_, _, r1) = >>=-eq_ok (validate_rule clock r) _ h in
      let (_, above, r2) =
        >>=-eq_ok
          (throw_if (not (text_lt previous r.key_id))
            "Signing-key trust rules must be unique and sorted by keyId")
          _ r1 in
      let first = negated (text_lt previous r.key_id) (throw_if_done _ _ above) in
      elim m [
        | Memᴰ.head same ↦ ap (λ x. text_lt previous x.key_id) same ∙ first
        | Memᴰ.tail below ↦
            text_lt_trans previous r.key_id rule.key_id first
              (assert_rules_lem r.key_id rules rule r2 below)
      ]

  -- In an accepted list of rules, the rule found for a key is the only one for it.
  find_rule-assert_key_rules :
      (previous : Text) (rules : List TrustRule) (rule : TrustRule)
      → assert_key_rules clock previous rules ≡ ok tt
      → Memᴰ rule rules
      → find_rule rule.key_id rules ≡ some rule
  unfolding assert_key_rules find_rule
  find_rule-assert_key_rules previous [] rule h m = elim m [ ]
  find_rule-assert_key_rules previous (r ∷ rules) rule h m =
      let (_, _, r1) = >>=-eq_ok (validate_rule clock r) _ h in
      let (_, _, r2) =
        >>=-eq_ok
          (throw_if (not (text_lt previous r.key_id))
            "Signing-key trust rules must be unique and sorted by keyId")
          _ r1 in
      elim m [
        | Memᴰ.head same ↦
            let own : text_eq r.key_id rule.key_id ≡ true =
              ap (λ x. text_eq r.key_id x.key_id) same ∙ text_eq_refl r.key_id in
            rw own (ap some (sym same))
        | Memᴰ.tail below ↦
            let apart : text_eq r.key_id rule.key_id ≡ false =
              text_eq_apart r.key_id rule.key_id (λ same. cc (
                same,
                assert_rules_lem r.key_id rules rule r2 below,
                text_lt_irrefl rule.key_id,
                ap (λ t. text_lt t rule.key_id) same,
              )) in
            rw apart (find_rule-assert_key_rules r.key_id rules rule r2 below)
      ]

  pub find_rule-policy :
      (p : TrustPolicy) (rule : TrustRule)
      → assert_signing_key_trust_policy clock p ≡ ok tt
      → Memᴰ rule p.keys
      → find_rule rule.key_id p.keys ≡ some rule
  unfolding assert_signing_key_trust_policy
  find_rule-policy p rule h m =
      let (_, _, r1) =
        >>=-eq_ok
          (throw_if (policy_is_invalid clock p)
            "Signing-key trust policy identity or bounds are invalid")
          _ h in
      let (_, _, r2) =
        >>=-eq_ok
          (throw_if (ends_by clock p.expires_at p.issued_at)
            "Signing-key trust policy expiry must follow issuance")
          _ r1 in
      let (_, sorted, _) = >>=-eq_ok (assert_key_rules clock [] p.keys) _ r2 in
      find_rule-assert_key_rules [] p.keys rule sorted m
