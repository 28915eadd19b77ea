-- ===== src/Resources/Eligibility.antt =====
-- `assessRequiredResourceEligibility` of packages/transactional-resource-sdk/src/validation.ts.
pub mod Laws
use agent_airlock.Prelude.{Bool, true, false, not, List, [], ◌∷◌, ◌++◌, length, ◌==◌, if◌then◌else◌}
use agent_airlock.Prelude.Texts.{Text, codes}
use agent_airlock.Resources.{
  CapabilityClaim, Visibility, Idempotency, Reconciliation, Retention, Discarding, Repair,
}

abbrev pub is_canonical : Visibility → Bool
is_canonical Visibility.canonical_manifest = true
is_canonical Visibility.post_promotion_reconciled = false
is_canonical Visibility.best_effort = false

abbrev pub is_run_keyed : Idempotency → Bool
is_run_keyed Idempotency.run_keyed = true
is_run_keyed Idempotency.not_idempotent = false

abbrev pub is_forward : Reconciliation → Bool
is_forward Reconciliation.forward = true
is_forward Reconciliation.observe_only = false
is_forward Reconciliation.no_reconciliation = false

abbrev pub is_retained : Retention → Bool
is_retained Retention.retained = true
is_retained Retention.evidence_only = false

abbrev pub is_idempotent : Discarding → Bool
is_idempotent Discarding.idempotent = true
is_idempotent Discarding.best_effort_discard = false

abbrev pub is_fork : Repair → Bool
is_fork Repair.fork = true
is_fork Repair.unsupported = false

abbrev pub reason_unless : Bool → Text → List Text
reason_unless true reason = []
reason_unless false reason = reason ∷ []

unfoldable pub eligibility_reasons : CapabilityClaim → List Text
eligibility_reasons claim =
    reason_unless (is_canonical claim.promotion_visibility)
      (codes "Required all-or-nothing resources must use canonical-manifest Promotion visibility")
    ++ (reason_unless (is_run_keyed claim.promotion_idempotency)
          (codes "Promotion is not run-keyed and idempotent")
        ++ (reason_unless (is_forward claim.reconciliation)
              (codes "Forward reconciliation is not supported")
            ++ (reason_unless (is_retained claim.quarantine)
                  (codes "Mutable Quarantine is not retained")
                ++ (reason_unless (is_idempotent claim.discard) (codes "Discard is not idempotent")
                    ++ reason_unless (is_fork claim.repair)
                        (codes "Repair cannot fork the retained resource candidate")))))

-- Whether the resource is eligible, and the reasons why not.
unfoldable pub assess_required_resource_eligibility : CapabilityClaim → Bool × List Text
assess_required_resource_eligibility claim =
    (length (eligibility_reasons claim) == 0, eligibility_reasons claim)
