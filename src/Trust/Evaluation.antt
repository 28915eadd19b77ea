-- ===== src/Trust/Evaluation.antt =====
-- `evaluateSigningKeyTrust` of packages/portable-promotion-receipt/src/trust-policy.ts. The detail
-- text of a report is left out.
use agent_airlock.Prelude.{
  Bool, true, false, not, List, [], ◌∷◌, Option, none, some, length, ltb, ◌&&◌, ◌||◌, if◌then◌else◌,
}
use agent_airlock.Prelude.Texts.{Text, text_eq, includes}
use agent_airlock.Prelude.Results.{Result, ok, ◌>>◌, throw_if}
use agent_airlock.Trust.{
  Clock, lt_time, KeyStatus, active, retired, compromised, TrustRule, TrustPolicy, is_dated,
}

-- What is read of an envelope: its key and its receipt's decision.
pub record Signing : Type 0 where
  pub key_id : Text
  pub decided_at : Text
  pub agent_id : Text
  pub disposition : Text

pub data TrustStatus : Type 0 where
  trusted historically_trusted untrusted is_compromised policy_not_yet_effective : TrustStatus
  policy_expired outside_validity_window scope_mismatch cryptographic_proof_invalid : TrustStatus

pub record TrustReport : Type 0 where
  pub policy_id : Text
  pub key_id : Text
  pub trusts : Bool
  pub status : TrustStatus

-- `policy.keys.find(...)`.
unfoldable pub find_rule : Text → List TrustRule → Option TrustRule
find_rule key_id [] = none
find_rule key_id (rule ∷ rest) =
    let later = find_rule key_id rest in if text_eq rule.key_id key_id then some rule else later

abbrev pub evaluation_time : Option Text → Text → Text
evaluation_time none now = now
evaluation_time (some evaluated_at) now = evaluated_at

-- An empty scope is every value.
abbrev pub out_of_scope : List Text → Text → Bool
out_of_scope scope value = ltb 0 (length scope) && not (includes scope value)

module _ (clock : Clock) where
  -- `end !== null && Date.parse(time) > Date.parse(end)`.
  abbrev pub is_after_end : Text → Option Text → Bool
  is_after_end time none = false
  is_after_end time (some end) = lt_time (clock end) (clock time)

  abbrev pub is_outside_window : TrustRule → Signing → Bool
  is_outside_window rule s =
      lt_time (clock s.decided_at) (clock rule.valid_from)
      || is_after_end s.decided_at rule.valid_until

  abbrev pub mismatches_scope : TrustRule → Signing → Bool
  mismatches_scope rule s =
      out_of_scope rule.agent_ids s.agent_id || out_of_scope rule.dispositions s.disposition

  abbrev pub in_bounds_status : TrustRule → Signing → TrustStatus → TrustStatus
  in_bounds_status rule s granted =
      if is_outside_window rule s
      then outside_validity_window
      else if mismatches_scope rule s
      then scope_mismatch
      else granted

  unfoldable pub rule_status : KeyStatus → TrustRule → Signing → TrustStatus
  rule_status compromised rule s = is_compromised
  rule_status active rule s = in_bounds_status rule s trusted
  rule_status retired rule s = in_bounds_status rule s historically_trusted

  abbrev pub found_status : Option TrustRule → Signing → TrustStatus
  found_status none s = untrusted
  found_status (some rule) s = rule_status rule.status rule s

  unfoldable pub status_at : Text → TrustPolicy → Signing → TrustStatus
  unfolding find_rule rule_status
  status_at time policy s =
      if lt_time (clock time) (clock policy.issued_at)
      then policy_not_yet_effective
      else if is_after_end time policy.expires_at
      then policy_expired
      else found_status (find_rule s.key_id policy.keys) s

  abbrev pub grants : TrustStatus → Bool
  grants trusted = true
  grants historically_trusted = true
  grants untrusted = false
  grants is_compromised = false
  grants policy_not_yet_effective = false
  grants policy_expired = false
  grants outside_validity_window = false
  grants scope_mismatch = false
  grants cryptographic_proof_invalid = false

  abbrev report_of : TrustPolicy → Signing → TrustStatus → TrustReport
  report_of policy s status = record {
    policy_id = policy.policy_id;
    key_id = s.key_id;
    trusts = grants status;
    status = status;
  }

  unfoldable pub evaluate_signing_key_trust :
      Signing → TrustPolicy → Bool → Option Text → Text → Result TrustReport
  unfolding status_at
  evaluate_signing_key_trust s policy false evaluated_at now =
      ok (report_of policy s cryptographic_proof_invalid)
  evaluate_signing_key_trust s policy true evaluated_at now = do
    throw_if (not (is_dated clock (evaluation_time evaluated_at now)))
        "Trust-policy evaluation time is invalid"
    ok (report_of policy s (status_at (evaluation_time evaluated_at now) policy s))
