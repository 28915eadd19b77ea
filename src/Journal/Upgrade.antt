-- ===== src/Journal/Upgrade.antt =====
-- `upgradeLegacyResourcePlan` of apps/server/src/promotion-journal.ts on the records that
-- `validateRecord` accepts.
use agent_airlock.Prelude.{
  ℕ, ◌≡◌, refl, ap, not, List, [], map, Option, none, some, length, ltb, ◌==◌, ◌&&◌, arith,
  if◌then◌else◌,
}
use agent_airlock.Prelude.Results.{ok, throw_if, >>=-eq_ok, throw_if_done}
use agent_airlock.Resources.{VersionReference, ResourcePlan}
use agent_airlock.Journal.{Checks, Authority, Canonical, JournalRecord, phase_index}
use agent_airlock.Journal.Evidence.{
  parse_version_vector, parse_promotion_plan_vector, array_of, check_canonical, check_plans,
  check_resources, check_events, version_ids, assert_same_provider_set, validate_resource_evidence,
}
use agent_airlock.Journal.Validation.{
  validate_record, validate_promotion_authority, upgrade, or_empty, upgrade_canonical,
  upgrade_authority, has_exact_keys, identity_is_invalid, parse_optional_scope, lacks_target,
  target_differs,
}

module _ (checks : Checks) where
  version_vector_lem :
      (x : Option (List VersionReference)) (v : List VersionReference)
      → parse_version_vector checks x ≡ ok v
      → or_empty x ≡ x
  unfolding parse_version_vector
  version_vector_lem none v h = absurd (cc)
  version_vector_lem (some x) v h = refl

  plan_vector_lem :
      (x : Option (List ResourcePlan)) (v : List ResourcePlan)
      → parse_promotion_plan_vector checks x ≡ ok v
      → or_empty x ≡ x
  unfolding parse_promotion_plan_vector
  plan_vector_lem none v h = absurd (cc)
  plan_vector_lem (some x) v h = refl

  array_lem : {A : Type 0} (x : Option (List A)) (v : List A) → array_of x ≡ ok v → or_empty x ≡ x
  unfolding array_of
  array_lem none v h = absurd (cc)
  array_lem (some x) v h = refl

  canonical_lem :
      (targets : List VersionReference) (c : Option Canonical)
      → check_canonical checks targets c ≡ ok tt
      → upgrade_canonical c ≡ c
  unfolding check_canonical
  canonical_lem targets none h = refl
  canonical_lem targets (some c) h =
      let (v, parsed, _) = >>=-eq_ok (parse_version_vector checks c.provider_versions) _ h in
      ap (λ vs. some (record c { provider_versions = vs }))
        (version_vector_lem c.provider_versions v parsed)

  -- What accepted resource evidence says of the arrays of a record: none is missing.
  abbrev HasArrays : JournalRecord → Type 0
  HasArrays r =
      (or_empty r.plan.source_provider_versions ≡ r.plan.source_provider_versions)
      × (or_empty r.plan.target_provider_versions ≡ r.plan.target_provider_versions)
      × (or_empty r.plan.resource_plans ≡ r.plan.resource_plans)
      × (or_empty r.transaction.provider_resources ≡ r.transaction.provider_resources)
      × (or_empty r.transaction.provider_resource_events ≡ r.transaction.provider_resource_events)
      × (upgrade_canonical r.target_canonical ≡ r.target_canonical)

  validate_resource_evidence-HasArrays :
      (r : JournalRecord) → validate_resource_evidence checks r ≡ ok tt → HasArrays r
  unfolding validate_resource_evidence
  validate_resource_evidence-HasArrays r h =
      let (sources, e1, r1) =
        >>=-eq_ok (parse_version_vector checks r.plan.source_provider_versions) _ h in
      let (targets, e2, r2) =
        >>=-eq_ok (parse_version_vector checks r.plan.target_provider_versions) _ r1 in
      let (plans, e3, r3) =
        >>=-eq_ok (parse_promotion_plan_vector checks r.plan.resource_plans) _ r2 in
      let (_, _, r4) =
        >>=-eq_ok (assert_same_provider_set (version_ids sources) (version_ids targets)) _ r3 in
      let (_, _, r5) =
        >>=-eq_ok (assert_same_provider_set (version_ids sources) (map (λ p. p.provider_id) plans))
          _ r4 in
      let (_, _, r6) = >>=-eq_ok (check_plans sources targets plans) _ r5 in
      let (resources, e4, r7) = >>=-eq_ok (array_of r.transaction.provider_resources) _ r6 in
      let (_, _, r8) =
        >>=-eq_ok
          (throw_if (ltb 64 (length resources)) "Promotion journal exceeds 64 Resource Providers") _
          r7 in
      let (seen, _, r9) =
        >>=-eq_ok (check_resources checks sources targets plans resources []) _ r8 in
      let (_, _, r10) =
        >>=-eq_ok (assert_same_provider_set (version_ids sources) (map (λ e. e.0) seen)) _ r9 in
      let (events, e5, r11) = >>=-eq_ok (array_of r.transaction.provider_resource_events) _ r10 in
      let (_, _, r12) =
        >>=-eq_ok
          (throw_if (ltb 256 (length events))
            "Promotion journal Resource lifecycle events are invalid")
          _ r11 in
      let (_, _, r13) = >>=-eq_ok (check_events checks seen events) _ r12 in
      (
        version_vector_lem r.plan.source_provider_versions sources e1,
        version_vector_lem r.plan.target_provider_versions targets e2,
        plan_vector_lem r.plan.resource_plans plans e3,
        array_lem r.transaction.provider_resources resources e4,
        array_lem r.transaction.provider_resource_events events e5,
        canonical_lem targets r.target_canonical r13,
      )

  authority_lem :
      (r : JournalRecord) (version : ℕ) (a : Option Authority)
      → validate_promotion_authority r a ≡ ok tt
      → upgrade_authority version a ≡ a
  unfolding validate_promotion_authority
  authority_lem r version none h = absurd (cc)
  authority_lem r version (some a) h = refl

  -- An accepted record is one that the upgrade leaves as it is.
  pub upgrade-validate_record :
      (r : JournalRecord) → validate_record checks r ≡ ok tt → upgrade r ≡ r
  unfolding validate_record upgrade
  upgrade-validate_record r h =
      let (_, version, r1) =
        >>=-eq_ok
          (throw_if (not (r.schema_version == 2) && not (r.schema_version == 3))
            "Promotion journal identity or schema is invalid")
          _ h in
      let (_, _, r2) =
        >>=-eq_ok
          (throw_if (not (has_exact_keys r.schema_version r.scope))
            "Promotion journal contains unknown or missing fields")
          _ r1 in
      let (_, _, r3) =
        >>=-eq_ok
          (throw_if (identity_is_invalid r) "Promotion journal identity or schema is invalid") _
          r2 in
      let (_, _, r4) = >>=-eq_ok (parse_optional_scope r.scope) _ r3 in
      let (_, authorized, r5) = >>=-eq_ok (validate_promotion_authority r r.authority) _ r4 in
      let (_, _, r6) =
        >>=-eq_ok
          (throw_if (lacks_target (phase_index r.phase) r.target_canonical)
            "Installed Promotion journal phase requires target fingerprints")
          _ r5 in
      let (_, _, r7) =
        >>=-eq_ok
          (throw_if (target_differs r.target_canonical r.plan)
            "Promotion journal target does not match its plan")
          _ r6 in
      let (sources, targets, plans, resources, events, canonical) =
        validate_resource_evidence-HasArrays r r7 in
      let schema : (if r.schema_version == 1 then 2 else r.schema_version) ≡ r.schema_version =
        ground (arith, throw_if_done _ _ version) in
      let authority = authority_lem r r.schema_version r.authority authorized in
      λ i. record r {
        schema_version = schema i;
        authority = authority i;
        target_canonical = canonical i;
        transaction = record r.transaction {
          provider_resources = resources i;
          provider_resource_events = events i;
        };
        plan = record r.plan {
          source_provider_versions = sources i;
          target_provider_versions = targets i;
          resource_plans = plans i;
        };
      }
