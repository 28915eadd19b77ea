-- ===== src/Resources/Handles.antt =====
-- The parsers of packages/transactional-resource-sdk/src/validation.ts.
use agent_airlock.Prelude.{
  Bool, true, false, not, [], ◌∷◌, ◌++◌, Option, none, some, length, any, ltb, ◌==◌, ◌&&◌, ◌||◌,
  if◌then◌else◌,
}
use agent_airlock.Prelude.Int.{pos}
use agent_airlock.Prelude.Texts.{Text, codes, text_eq, includes, split}
use agent_airlock.Prelude.Results.{Result, ok, thrown, ◌>>=◌, ◌>>◌, throw_if}
use agent_airlock.Canonical.{Json, num, str, obj, fields, utf8_bytes}
use agent_airlock.Digest.{Sha256, hex_encode}
use agent_airlock.Resources.{
  Patterns, CapabilityClaim, Manifest, VersionReference, CandidateHandle, RuntimeBinding,
  ChangeEvidence, ResourceValidation, ResourcePlan, QuarantineHandle, Isolation, Visibility,
  Idempotency, Reconciliation, Retention, Discarding, Repair, Access, no_access, read_only,
  read_write, assert_resource_fingerprint, expect_schema, expect_integer, assert_manifest_identity,
  expect_identifier, expect_opaque_identifier, expect_credential_free_string,
}
use agent_airlock.Resources.Metadata.{validate_metadata, stringify}

abbrev isolation_text : Isolation → Text
isolation_text Isolation.candidate_copy = codes "candidate-copy"
isolation_text Isolation.provider_branch = codes "provider-branch"
isolation_text Isolation.deferred_intent = codes "deferred-intent"

abbrev visibility_text : Visibility → Text
visibility_text Visibility.canonical_manifest = codes "canonical-manifest"
visibility_text Visibility.post_promotion_reconciled = codes "post-promotion-reconciled"
visibility_text Visibility.best_effort = codes "best-effort"

abbrev idempotency_text : Idempotency → Text
idempotency_text Idempotency.run_keyed = codes "run-keyed"
idempotency_text Idempotency.not_idempotent = codes "none"

abbrev reconciliation_text : Reconciliation → Text
reconciliation_text Reconciliation.forward = codes "forward"
reconciliation_text Reconciliation.observe_only = codes "observe-only"
reconciliation_text Reconciliation.no_reconciliation = codes "none"

abbrev retention_text : Retention → Text
retention_text Retention.retained = codes "retained"
retention_text Retention.evidence_only = codes "evidence-only"

abbrev discarding_text : Discarding → Text
discarding_text Discarding.idempotent = codes "idempotent"
discarding_text Discarding.best_effort_discard = codes "best-effort"

abbrev repair_text : Repair → Text
repair_text Repair.fork = codes "fork"
repair_text Repair.unsupported = codes "unsupported"

abbrev pub access_text : Access → Text
access_text no_access = codes "none"
access_text read_only = codes "read-only"
access_text read_write = codes "read-write"

abbrev claim_json : CapabilityClaim → Json
claim_json c = obj (
    fields (
      (codes "schemaVersion", num (pos c.schema_version))
      ∷ (codes "isolation", str (isolation_text c.isolation))
      ∷ (codes "promotionVisibility", str (visibility_text c.promotion_visibility))
      ∷ (codes "promotionIdempotency", str (idempotency_text c.promotion_idempotency))
      ∷ (codes "reconciliation", str (reconciliation_text c.reconciliation))
      ∷ (codes "quarantine", str (retention_text c.quarantine))
      ∷ (codes "discard", str (discarding_text c.discard))
      ∷ (codes "repair", str (repair_text c.repair))
      ∷ (codes "runtimeAccess", str (access_text c.runtime_access))
      ∷ []))

-- `AIRLOCK_RESOURCE_FAILURE_SEMANTICS`.
abbrev failure_semantics : Json
failure_semantics = obj (
    fields (
      (codes "schemaVersion", num (pos 1))
      ∷ (codes "prepare", str (codes "abort-before-runtime"))
      ∷ (codes "describe", str (codes "quarantine-run"))
      ∷ (codes "validate", str (codes "quarantine-run"))
      ∷ (codes "planPromotion", str (codes "quarantine-run"))
      ∷ (codes "promote", str (codes "recovery-error"))
      ∷ (codes "quarantine", str (codes "recovery-error"))
      ∷ (codes "discard", str (codes "retain-evidence-error"))
      ∷ (codes "reconcile", str (codes "recovery-error"))
      ∷ []))

abbrev manifest_json : Manifest → Json
manifest_json m = obj (
    fields (
      (codes "sdkSchemaVersion", num (pos m.sdk_schema_version))
      ∷ (codes "providerId", str m.provider_id)
      ∷ (codes "resourceKind", str m.resource_kind)
      ∷ (codes "label", str m.label)
      ∷ (codes "capabilities", claim_json m.capabilities)
      ∷ (codes "failureSemantics", failure_semantics)
      ∷ (codes "metadata", obj m.metadata)
      ∷ []))

-- `parseCapabilityClaim`: its enumerations are types.
unfoldable pub parse_capability_claim : CapabilityClaim → Result (Unit {0})
parse_capability_claim c =
    throw_if (not (c.schema_version == 1)) "Capability Claim schema version must be 1"

abbrev same_access : Access → Access → Bool
same_access no_access no_access = true
same_access no_access read_only = false
same_access no_access read_write = false
same_access read_only no_access = false
same_access read_only read_only = true
same_access read_only read_write = false
same_access read_write no_access = false
same_access read_write read_only = false
same_access read_write read_write = true

abbrev is_bad_segment : Text → Bool
is_bad_segment segment =
    length segment == 0 || text_eq segment (codes ".") || text_eq segment (codes "..")

abbrev starts_with_slash : Text → Bool
starts_with_slash [] = false
starts_with_slash (c ∷ rest) = c == b'/'

module _ (patterns : Patterns) where
  unfoldable pub parse_resource_provider_manifest : Manifest → Result (Unit {0})
  parse_resource_provider_manifest m = do
    throw_if (not (m.sdk_schema_version == 1)) "Resource Provider manifest schema version must be 1"
    expect_identifier patterns m.provider_id
    expect_identifier patterns m.resource_kind
    expect_credential_free_string patterns m.label 1 80
    parse_capability_claim m.capabilities
    validate_metadata patterns m.metadata
    throw_if (ltb 32768 (length (utf8_bytes (stringify (manifest_json m)))))
        "Resource Provider manifest exceeds 32768 bytes"

  unfoldable pub parse_resource_version_reference :
      VersionReference → Option Manifest → Result (Unit {0})
  parse_resource_version_reference v manifest = do
    expect_schema v.schema_version
    expect_identifier patterns v.provider_id
    expect_identifier patterns v.resource_kind
    expect_opaque_identifier patterns v.version_id 128
    assert_resource_fingerprint v.fingerprint
    validate_metadata patterns v.metadata
    assert_manifest_identity v.provider_id v.resource_kind manifest

  unfoldable pub parse_resource_candidate_handle :
      CandidateHandle → Option Manifest → Result (Unit {0})
  parse_resource_candidate_handle v manifest = do
    expect_schema v.schema_version
    expect_identifier patterns v.provider_id
    expect_identifier patterns v.resource_kind
    expect_opaque_identifier patterns v.candidate_id 128
    expect_opaque_identifier patterns v.source_version_id 128
    assert_resource_fingerprint v.source_fingerprint
    assert_resource_fingerprint v.candidate_fingerprint
    validate_metadata patterns v.metadata
    assert_manifest_identity v.provider_id v.resource_kind manifest

  unfoldable pub parse_runtime_binding : RuntimeBinding → Manifest → Result (Unit {0})
  parse_runtime_binding b manifest = do
    expect_schema b.schema_version
    expect_credential_free_string patterns b.relative_path 1 256
    throw_if
        (starts_with_slash b.relative_path
          || any (λ c. c == 92) b.relative_path
          || any is_bad_segment (split b.relative_path []))
        "Resource Runtime binding must be a safe relative POSIX path"
    throw_if (same_access b.access no_access) "access must be one of read-only, read-write"
    throw_if (not (same_access b.access manifest.capabilities.runtime_access))
        "Resource Runtime binding contradicts its Capability Claim"

  abbrev parse_binding : Option RuntimeBinding → Manifest → Result (Unit {0})
  parse_binding none manifest =
      throw_if (not (same_access manifest.capabilities.runtime_access no_access))
        "Resource Provider omitted its declared Runtime binding"
  parse_binding (some b) manifest = do
    parse_runtime_binding b manifest
    throw_if (same_access manifest.capabilities.runtime_access no_access)
        "Resource Provider with no Runtime access returned a binding"

  unfoldable pub parse_prepared_resource :
      CandidateHandle → Option RuntimeBinding → Manifest → Result (Unit {0})
  unfolding parse_runtime_binding
  parse_prepared_resource candidate binding manifest = do
    parse_resource_candidate_handle candidate (some manifest)
    parse_binding binding manifest

  unfoldable pub parse_resource_change_evidence :
      ChangeEvidence → Option Manifest → Result (Unit {0})
  parse_resource_change_evidence v manifest = do
    expect_schema v.schema_version
    expect_identifier patterns v.provider_id
    expect_identifier patterns v.resource_kind
    assert_resource_fingerprint v.fingerprint_before
    assert_resource_fingerprint v.fingerprint_candidate
    expect_credential_free_string patterns v.summary 1 512
    validate_metadata patterns v.metadata
    assert_manifest_identity v.provider_id v.resource_kind manifest

  abbrev parse_output : Option Text → Result (Unit {0})
  parse_output none = ok tt
  parse_output (some output) = expect_credential_free_string patterns output 0 16384

  unfoldable pub parse_resource_validation_evidence :
      ResourceValidation → Option Manifest → Result (Unit {0})
  parse_resource_validation_evidence v manifest = do
    expect_schema v.schema_version
    parse_output v.output
    expect_identifier patterns v.provider_id
    expect_identifier patterns v.resource_kind
    expect_identifier patterns v.name
    throw_if (not (includes (codes "passed" ∷ codes "failed" ∷ codes "error" ∷ []) v.status))
        "status must be one of passed, failed, error"
    expect_integer v.duration_ms 0 300000
    expect_credential_free_string patterns v.summary 1 512
    assert_manifest_identity v.provider_id v.resource_kind manifest

  unfoldable pub parse_resource_promotion_plan : ResourcePlan → Option Manifest → Result (Unit {0})
  parse_resource_promotion_plan v manifest = do
    expect_schema v.schema_version
    expect_identifier patterns v.provider_id
    expect_identifier patterns v.resource_kind
    expect_opaque_identifier patterns v.run_id 128
    expect_opaque_identifier patterns v.idempotency_key 256
    expect_opaque_identifier patterns v.source_version_id 128
    assert_resource_fingerprint v.source_fingerprint
    expect_opaque_identifier patterns v.target_version_id 128
    assert_resource_fingerprint v.target_fingerprint
    validate_metadata patterns v.metadata
    assert_manifest_identity v.provider_id v.resource_kind manifest

  unfoldable pub parse_resource_quarantine_handle :
      QuarantineHandle → Option Manifest → Result (Unit {0})
  parse_resource_quarantine_handle v manifest = do
    expect_schema v.schema_version
    expect_identifier patterns v.provider_id
    expect_identifier patterns v.resource_kind
    expect_opaque_identifier patterns v.run_id 128
    expect_opaque_identifier patterns v.quarantine_id 128
    assert_resource_fingerprint v.candidate_fingerprint
    validate_metadata patterns v.metadata
    assert_manifest_identity v.provider_id v.resource_kind manifest

  -- The key by which a provider recognises a repeated Promotion of a Run.
  unfoldable pub create_resource_promotion_idempotency_key :
      Sha256 → Text → Text → Text → Result Text
  create_resource_promotion_idempotency_key sha run_id provider_id resource_kind = do
    expect_opaque_identifier patterns run_id 128
    expect_identifier patterns provider_id
    expect_identifier patterns resource_kind
    ok (
        codes "airlock:v1:"
        ++ hex_encode (
            sha.hash (
              utf8_bytes (
                stringify (
                  obj (
                    fields (
                      (codes "providerId", str provider_id)
                      ∷ (codes "resourceKind", str resource_kind)
                      ∷ (codes "runId", str run_id)
                      ∷ [])))))))

  -- The plan, the Candidate, the Run and the fingerprint of the Candidate's state.
  unfoldable pub assert_resource_promotion_plan_matches_candidate :
      Sha256 → ResourcePlan → CandidateHandle → Text → Text → Result (Unit {0})
  assert_resource_promotion_plan_matches_candidate sha plan candidate run_id fingerprint =
      if not (text_eq plan.run_id run_id)
        || not (text_eq plan.source_version_id candidate.source_version_id)
        || not (text_eq plan.source_fingerprint candidate.source_fingerprint)
        || not (text_eq plan.target_fingerprint fingerprint)
        || text_eq plan.target_version_id plan.source_version_id
          && not (text_eq plan.target_fingerprint plan.source_fingerprint)
      then thrown "Resource Promotion plan contradicts the prepared Candidate"
      else create_resource_promotion_idempotency_key sha run_id plan.provider_id plan.resource_kind
        >>= λ key.
            throw_if (not (text_eq plan.idempotency_key key))
              "Resource Promotion plan contradicts the prepared Candidate"
