-- ===== src/Resources/Eligibility/Laws.antt =====
-- The claims that `assessRequiredResourceEligibility` finds eligible.
use agent_airlock.Prelude.{◌≡◌, true, ◌↔◌, arith}
use agent_airlock.Resources.{
  CapabilityClaim, Visibility, Idempotency, Reconciliation, Retention, Discarding, Repair,
}
use agent_airlock.Resources.Eligibility.{assess_required_resource_eligibility, eligibility_reasons}

-- The guarantees that a required resource must claim.
abbrev pub IsFullGuarantee : CapabilityClaim → Type 0
IsFullGuarantee claim =
    (claim.promotion_visibility ≡ Visibility.canonical_manifest)
    × (claim.promotion_idempotency ≡ Idempotency.run_keyed)
    × (claim.reconciliation ≡ Reconciliation.forward)
    × (claim.quarantine ≡ Retention.retained)
    × (claim.discard ≡ Discarding.idempotent)
    × (claim.repair ≡ Repair.fork)

-- A claim is eligible exactly when it makes all six guarantees.
pub assess_required_resource_eligibility_lem :
    (claim : CapabilityClaim)
    → ((assess_required_resource_eligibility claim).0 ≡ true) ↔ IsFullGuarantee claim
unfolding assess_required_resource_eligibility eligibility_reasons
assess_required_resource_eligibility_lem claim = ground arith
