-- ===== src/Journal/Evidence.antt =====
-- `validateResourceEvidence` of apps/server/src/promotion-journal.ts.
use agent_airlock.Prelude.{
  Bool, true, false, not, List, [], ◌∷◌, ◌++◌, map, Option, none, some, length, ltb, ◌==◌, ◌&&◌,
  ◌||◌, if◌then◌else◌,
}
use agent_airlock.Prelude.Int.{pos}
use agent_airlock.Prelude.Texts.{Text, codes, text_eq, includes}
use agent_airlock.Prelude.Results.{Result, ok, thrown, ◌>>=◌, ◌>>◌, throw_if}
use agent_airlock.Canonical.{Json, num, str, obj, fields, end}
use agent_airlock.StableJson.{sort, compare_bytes, json_text}
use agent_airlock.Resources.{
  Manifest, VersionReference, ChangeEvidence, ResourceValidation, ResourcePlan, QuarantineHandle,
}
use agent_airlock.Resources.Handles.{
  parse_resource_provider_manifest, parse_resource_version_reference, parse_prepared_resource,
  parse_resource_change_evidence, parse_resource_validation_evidence, parse_resource_promotion_plan,
  parse_resource_quarantine_handle,
}
use agent_airlock.Journal.{Checks, ResourceEvidence, LifecycleEvent, JournalRecord, Canonical}

abbrev version_json : VersionReference → Json
version_json v = obj (
    fields (
      (codes "schemaVersion", num (pos v.schema_version))
      ∷ (codes "providerId", str v.provider_id)
      ∷ (codes "resourceKind", str v.resource_kind)
      ∷ (codes "versionId", str v.version_id)
      ∷ (codes "fingerprint", str v.fingerprint)
      ∷ (codes "metadata", obj v.metadata)
      ∷ []))

abbrev plan_json : ResourcePlan → Json
plan_json p = obj (
    fields (
      (codes "schemaVersion", num (pos p.schema_version))
      ∷ (codes "providerId", str p.provider_id)
      ∷ (codes "resourceKind", str p.resource_kind)
      ∷ (codes "runId", str p.run_id)
      ∷ (codes "idempotencyKey", str p.idempotency_key)
      ∷ (codes "sourceVersionId", str p.source_version_id)
      ∷ (codes "sourceFingerprint", str p.source_fingerprint)
      ∷ (codes "targetVersionId", str p.target_version_id)
      ∷ (codes "targetFingerprint", str p.target_fingerprint)
      ∷ (codes "metadata", obj p.metadata)
      ∷ []))

-- `map.get(id)`, over values that carry their identifier.
module _ {A : Type 0} (id_of : A → Text) where
  unfoldable pub find_by : Text → List A → Option A
  find_by id [] = none
  find_by id (a ∷ l) = let later = find_by id l in if text_eq (id_of a) id then some a else later

unfoldable pub same_texts : List Text → List Text → Bool
same_texts [] [] = true
same_texts (s ∷ ss) (t ∷ ts) = text_eq s t && same_texts ss ts
same_texts [] (t ∷ ts) = false
same_texts (s ∷ ss) [] = false

-- Both sides sorted by code units, as `Array.sort` does by default.
unfoldable pub assert_same_provider_set : List Text → List Text → Result (Unit {0})
assert_same_provider_set expected actual =
    throw_if (not (same_texts (sort compare_bytes expected) (sort compare_bytes actual)))
      "Promotion journal provider set is inconsistent"

abbrev pub version_ids : List VersionReference → List Text
version_ids versions = map (λ v. v.provider_id) versions

abbrev plan_contradicts : ResourcePlan → Option VersionReference → Option VersionReference → Bool
plan_contradicts plan none target = true
plan_contradicts plan (some source) none = true
plan_contradicts plan (some source) (some target) =
    not (text_eq source.resource_kind plan.resource_kind)
    || not (text_eq target.resource_kind plan.resource_kind)
    || not (text_eq source.version_id plan.source_version_id)
    || not (text_eq source.fingerprint plan.source_fingerprint)
    || not (text_eq target.version_id plan.target_version_id)
    || not (text_eq target.fingerprint plan.target_fingerprint)

-- The loop over the resource plans.
unfoldable pub check_plans :
    List VersionReference → List VersionReference → List ResourcePlan → Result (Unit {0})
unfolding find_by
check_plans sources targets [] = ok tt
check_plans sources targets (p ∷ ps) = do
  throw_if
      (plan_contradicts p (find_by (λ v. v.provider_id) p.provider_id sources)
        (find_by (λ v. v.provider_id) p.provider_id targets))
      "Resource Promotion plan contradicts its version vectors"
  check_plans sources targets ps

abbrev manifest_of : ResourceEvidence → Manifest
manifest_of r = record {
  sdk_schema_version = 1;
  provider_id = r.provider_id;
  resource_kind = r.resource_kind;
  label = r.label;
  capabilities = r.capabilities;
  metadata = end;
}

abbrev lifecycle_stages : List Text
lifecycle_stages =
    codes "prepare"
    ∷ codes "runtime"
    ∷ codes "describe"
    ∷ codes "validate"
    ∷ codes "plan-promotion"
    ∷ codes "promote"
    ∷ codes "quarantine"
    ∷ codes "discard"
    ∷ codes "reconcile"
    ∷ []

abbrev dispositions : List Text
dispositions = codes "promoted" ∷ codes "quarantined" ∷ codes "discarded" ∷ codes "cancelled" ∷ []

abbrev is_unknown_disposition : Option Text → Bool
is_unknown_disposition none = false
is_unknown_disposition (some d) = not (includes dispositions d)

-- The kinds of the providers seen so far, by their identifiers.
abbrev pub Seen : Type 0
Seen = List (Text × Text)

abbrev kind_is : Option (Text × Text) → Text → Bool
kind_is none kind = false
kind_is (some e) kind = text_eq e.1 kind

unfoldable pub array_of : {A : Type 0} → Option (List A) → Result (List A)
array_of none = thrown "Promotion journal provider resources must be an array"
array_of (some values) = ok values

module _ (checks : Checks) where
  -- The journal's `stableJson`.
  abbrev journal_json : Json → Text
  journal_json = json_text (sort (λ a b. checks.locale_compare a.0 b.0))

  abbrev same_version : VersionReference → VersionReference → Bool
  same_version v w = text_eq (journal_json (version_json v)) (journal_json (version_json w))

  abbrev same_plan : ResourcePlan → ResourcePlan → Bool
  same_plan p q = text_eq (journal_json (plan_json p)) (journal_json (plan_json q))

  unfoldable pub index_versions :
      List VersionReference → List VersionReference → Result (List VersionReference)
  index_versions [] indexed = ok indexed
  index_versions (v ∷ vs) indexed = do
    parse_resource_version_reference checks.patterns v none
    throw_if (includes (version_ids indexed) v.provider_id)
        "Promotion journal has duplicate version vectors"
    index_versions vs (indexed ++ v ∷ [])

  unfoldable pub parse_version_vector :
      Option (List VersionReference) → Result (List VersionReference)
  parse_version_vector none = thrown "Promotion journal version vectors are invalid"
  parse_version_vector (some values) = do
    throw_if (ltb 64 (length values)) "Promotion journal version vectors are invalid"
    index_versions values []

  unfoldable pub index_plans : List ResourcePlan → List ResourcePlan → Result (List ResourcePlan)
  index_plans [] indexed = ok indexed
  index_plans (p ∷ ps) indexed = do
    parse_resource_promotion_plan checks.patterns p none
    throw_if (includes (map (λ q. q.provider_id) indexed) p.provider_id)
        "Promotion journal has duplicate Resource Promotion plan"
    index_plans ps (indexed ++ p ∷ [])

  unfoldable pub parse_promotion_plan_vector :
      Option (List ResourcePlan) → Result (List ResourcePlan)
  parse_promotion_plan_vector none = thrown "Promotion journal Resource Promotion plans are invalid"
  parse_promotion_plan_vector (some values) = do
    throw_if (ltb 64 (length values)) "Promotion journal Resource Promotion plans are invalid"
    index_plans values []

  abbrev check_change : ResourceEvidence → Option ChangeEvidence → Result (Unit {0})
  check_change r none = ok tt
  check_change r (some c) = do
    parse_resource_change_evidence checks.patterns c (some (manifest_of r))
    throw_if (not (text_eq c.fingerprint_before r.source.fingerprint))
        "Promotion journal Resource change contradicts its source"

  abbrev check_validations : Manifest → List ResourceValidation → Result (Unit {0})
  check_validations manifest [] = ok tt
  check_validations manifest (v ∷ vs) = do
    parse_resource_validation_evidence checks.patterns v (some manifest)
    check_validations manifest vs

  abbrev check_optional_plan : Manifest → Option ResourcePlan → Result (Unit {0})
  check_optional_plan manifest none = ok tt
  check_optional_plan manifest (some p) =
      parse_resource_promotion_plan checks.patterns p (some manifest)

  abbrev check_optional_version : Manifest → Option VersionReference → Result (Unit {0})
  check_optional_version manifest none = ok tt
  check_optional_version manifest (some v) =
      parse_resource_version_reference checks.patterns v (some manifest)

  abbrev check_optional_quarantine : Manifest → Option QuarantineHandle → Result (Unit {0})
  check_optional_quarantine manifest none = ok tt
  check_optional_quarantine manifest (some q) =
      parse_resource_quarantine_handle checks.patterns q (some manifest)

  abbrev installed_as : Option VersionReference → VersionReference → Bool
  installed_as none target = true
  installed_as (some v) target = same_version v target

  -- The plan, the evidence's own plan, and the planned source and target: all there, and agreeing.
  abbrev agrees :
      ResourceEvidence
      → Option ResourcePlan
      → Option ResourcePlan
      → Option VersionReference
      → Option VersionReference
      → Bool
  agrees r (some plan) (some own) (some source) (some target) =
      same_plan plan own && same_version r.source source && installed_as r.installed_version target
  agrees r none own source target = false
  agrees r (some plan) none source target = false
  agrees r (some plan) (some own) none target = false
  agrees r (some plan) (some own) (some source) none = false

  module _ (sources targets : List VersionReference) (plans : List ResourcePlan) where
    unfoldable pub check_resource : ResourceEvidence → Seen → Result (Unit {0})
    unfolding find_by json_text sort
    check_resource r seen = do
      throw_if
          (not (r.schema_version == 1)
            || not r.required
            || length r.label == 0
            || ltb 160 (length r.label)
            || ltb 512 (length r.summary))
          "Promotion journal provider evidence is invalid"
      parse_resource_provider_manifest checks.patterns (manifest_of r)
      throw_if (includes (map (λ e. e.0) seen) r.provider_id)
          "Promotion journal has duplicate provider evidence"
      parse_prepared_resource checks.patterns r.candidate r.runtime_binding (manifest_of r)
      parse_resource_version_reference checks.patterns r.source (some (manifest_of r))
      check_change r r.change
      throw_if (ltb 64 (length r.validations)) "Promotion journal Resource Validations are invalid"
      check_validations (manifest_of r) r.validations
      check_optional_plan (manifest_of r) r.promotion_plan
      check_optional_version (manifest_of r) r.installed_version
      check_optional_quarantine (manifest_of r) r.quarantine
      throw_if (is_unknown_disposition r.disposition)
          "Promotion journal provider disposition is invalid"
      throw_if
          (not (
            agrees r (find_by (λ p. p.provider_id) r.provider_id plans) r.promotion_plan
              (find_by (λ v. v.provider_id) r.provider_id sources)
              (find_by (λ v. v.provider_id) r.provider_id targets)))
          "Promotion journal provider evidence contradicts its durable plan"

    unfoldable pub check_resources : List ResourceEvidence → Seen → Result Seen
    check_resources [] seen = ok seen
    check_resources (r ∷ rs) seen = do
      check_resource r seen
      check_resources rs (seen ++ (r.provider_id, r.resource_kind) ∷ [])

  unfoldable pub check_events : Seen → List LifecycleEvent → Result (Unit {0})
  unfolding find_by
  check_events seen [] = ok tt
  check_events seen (e ∷ es) = do
    throw_if
        (not (e.schema_version == 1)
          || not (kind_is (find_by (λ s. s.0) e.provider_id seen) e.resource_kind)
          || not (includes lifecycle_stages e.stage)
          || not (text_eq e.status (codes "passed")) && not (text_eq e.status (codes "failed"))
          || length e.summary == 0
          || ltb 512 (length e.summary)
          || not (checks.is_date e.at))
        "Promotion journal Resource lifecycle event is invalid"
    check_events seen es

  abbrev version_differs : VersionReference → Option VersionReference → Bool
  version_differs v none = true
  version_differs v (some w) = not (same_version v w)

  unfoldable pub check_canonical_versions :
      List VersionReference → List VersionReference → Result (Unit {0})
  unfolding find_by json_text sort
  check_canonical_versions canonical [] = ok tt
  check_canonical_versions canonical (v ∷ vs) = do
    throw_if (version_differs v (find_by (λ w. w.provider_id) v.provider_id canonical))
        "Target Canonical provider version contradicts its plan"
    check_canonical_versions canonical vs

  unfoldable pub check_canonical : List VersionReference → Option Canonical → Result (Unit {0})
  check_canonical targets none = ok tt
  check_canonical targets (some c) = do
    versions ← parse_version_vector c.provider_versions
    assert_same_provider_set (version_ids targets) (version_ids versions)
    check_canonical_versions versions targets

  unfoldable pub validate_resource_evidence : JournalRecord → Result (Unit {0})
  validate_resource_evidence r = do
    sources ← parse_version_vector r.plan.source_provider_versions
    targets ← parse_version_vector r.plan.target_provider_versions
    plans ← parse_promotion_plan_vector r.plan.resource_plans
    assert_same_provider_set (version_ids sources) (version_ids targets)
    assert_same_provider_set (version_ids sources) (map (λ p. p.provider_id) plans)
    check_plans sources targets plans
    resources ← array_of r.transaction.provider_resources
    throw_if (ltb 64 (length resources)) "Promotion journal exceeds 64 Resource Providers"
    seen ← check_resources sources targets plans resources []
    assert_same_provider_set (version_ids sources) (map (λ e. e.0) seen)
    events ← array_of r.transaction.provider_resource_events
    throw_if (ltb 256 (length events)) "Promotion journal Resource lifecycle events are invalid"
    check_events seen events
    check_canonical targets r.target_canonical
