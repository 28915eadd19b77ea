-- ===== src/Resources.antt =====
-- The values of the resource lifecycle, with the expectations that their parsers share:
-- packages/transactional-resource-sdk/src/types.ts and validation.ts. A parser gives its input back,
-- so it is a check here. What the regular expressions for credentials say is a parameter.
pub mod Metadata
pub mod Handles
pub mod Eligibility
pub mod Examples
use agent_airlock.Prelude.{
  ℕ, Bool, true, false, not, List, [], ◌∷◌, ◌++◌, Option, none, some, length, all, any, ltb, leb,
  ◌==◌, ◌&&◌, ◌||◌, if◌then◌else◌,
}
use agent_airlock.Prelude.Texts.{Text, codes, text_eq}
use agent_airlock.Prelude.Results.{Result, ok, thrown, ◌>>=◌, ◌>>◌, throw_if}
use agent_airlock.Canonical.{Json, Properties}
use agent_airlock.Digest.{is_lower_hex}

-- `sensitiveKeyPattern.test`, `sensitiveValuePatterns.some(...)` and `redactSensitiveText`.
pub record Patterns : Type 0 where
  pub sensitive_key : Text → Bool
  pub sensitive_value : Text → Bool
  pub redact : Text → Text

pub data Isolation : Type 0 where
  candidate_copy provider_branch deferred_intent : Isolation

pub data Visibility : Type 0 where
  canonical_manifest post_promotion_reconciled best_effort : Visibility

pub data Idempotency : Type 0 where
  run_keyed not_idempotent : Idempotency

pub data Reconciliation : Type 0 where
  forward observe_only no_reconciliation : Reconciliation

pub data Retention : Type 0 where
  retained evidence_only : Retention

pub data Discarding : Type 0 where
  idempotent best_effort_discard : Discarding

pub data Repair : Type 0 where
  fork unsupported : Repair

pub data Access : Type 0 where
  no_access read_only read_write : Access

pub record CapabilityClaim : Type 0 where
  pub schema_version : ℕ
  pub isolation : Isolation
  pub promotion_visibility : Visibility
  pub promotion_idempotency : Idempotency
  pub reconciliation : Reconciliation
  pub quarantine : Retention
  pub discard : Discarding
  pub repair : Repair
  pub runtime_access : Access

-- What a manifest says of itself; its failure semantics are the constant that the code compares
-- them with.
pub record Manifest : Type 0 where
  pub sdk_schema_version : ℕ
  pub provider_id : Text
  pub resource_kind : Text
  pub label : Text
  pub capabilities : CapabilityClaim
  pub metadata : Properties

pub record VersionReference : Type 0 where
  pub schema_version : ℕ
  pub provider_id : Text
  pub resource_kind : Text
  pub version_id : Text
  pub fingerprint : Text
  pub metadata : Properties

pub record CandidateHandle : Type 0 where
  pub schema_version : ℕ
  pub provider_id : Text
  pub resource_kind : Text
  pub candidate_id : Text
  pub source_version_id : Text
  pub source_fingerprint : Text
  pub candidate_fingerprint : Text
  pub metadata : Properties

pub record RuntimeBinding : Type 0 where
  pub schema_version : ℕ
  pub relative_path : Text
  pub access : Access

pub record ChangeEvidence : Type 0 where
  pub schema_version : ℕ
  pub provider_id : Text
  pub resource_kind : Text
  pub changed : Bool
  pub fingerprint_before : Text
  pub fingerprint_candidate : Text
  pub summary : Text
  pub metadata : Properties

pub record ResourceValidation : Type 0 where
  pub schema_version : ℕ
  pub provider_id : Text
  pub resource_kind : Text
  pub name : Text
  pub status : Text
  pub required : Bool
  pub duration_ms : ℕ
  pub summary : Text
  pub output : Option Text

pub record ResourcePlan : Type 0 where
  pub schema_version : ℕ
  pub provider_id : Text
  pub resource_kind : Text
  pub run_id : Text
  pub idempotency_key : Text
  pub source_version_id : Text
  pub source_fingerprint : Text
  pub target_version_id : Text
  pub target_fingerprint : Text
  pub metadata : Properties

pub record QuarantineHandle : Type 0 where
  pub schema_version : ℕ
  pub provider_id : Text
  pub resource_kind : Text
  pub run_id : Text
  pub quarantine_id : Text
  pub candidate_fingerprint : Text
  pub metadata : Properties

abbrev is_lower_letter : ℕ → Bool
is_lower_letter c = leb 97 c && leb c 122

abbrev is_digit : ℕ → Bool
is_digit c = leb 48 c && leb c 57

abbrev is_separator : ℕ → Bool
is_separator c = c == b'.' || c == b'-'

-- The groups of /^[a-z][a-z0-9]*(?:[.-][a-z0-9]+)*$/; `after` says that a separator came last.
unfoldable pub is_grouped : Bool → Text → Bool
is_grouped after [] = not after
is_grouped after (c ∷ rest) =
    (is_lower_letter c || is_digit c || is_separator c && not after)
    && is_grouped (is_separator c) rest

unfoldable pub is_identifier : Text → Bool
unfolding is_grouped
is_identifier [] = false
is_identifier (c ∷ rest) = is_lower_letter c && is_grouped false rest

abbrev is_alphanumeric : ℕ → Bool
is_alphanumeric c = is_lower_letter c || leb 65 c && leb c 90 || is_digit c

abbrev is_opaque_part : ℕ → Bool
is_opaque_part c = is_alphanumeric c || c == b'.' || c == b'_' || c == b':' || c == b'-'

-- /^[A-Za-z0-9][A-Za-z0-9._:-]*$/.
unfoldable pub is_opaque : Text → Bool
is_opaque [] = false
is_opaque (c ∷ rest) = is_alphanumeric c && all is_opaque_part rest

-- `assertResourceFingerprint`.
unfoldable pub assert_resource_fingerprint : Text → Result (Unit {0})
assert_resource_fingerprint value =
    throw_if (not (length value == 64 && all is_lower_hex value))
      "fingerprint must be a lowercase SHA-256 fingerprint"

-- `expectLifecycleObject`: the schema version.
unfoldable pub expect_schema : ℕ → Result (Unit {0})
expect_schema version = throw_if (not (version == 1)) "schema version must be 1"

unfoldable pub expect_integer : ℕ → ℕ → ℕ → Result (Unit {0})
expect_integer value minimum maximum =
    throw_if (ltb value minimum || ltb maximum value) "value must be an integer in its range"

-- `assertManifestIdentity`, where a manifest is given.
unfoldable pub assert_manifest_identity : Text → Text → Option Manifest → Result (Unit {0})
assert_manifest_identity provider_id resource_kind none = ok tt
assert_manifest_identity provider_id resource_kind (some manifest) =
    throw_if
      (not (text_eq provider_id manifest.provider_id)
        || not (text_eq resource_kind manifest.resource_kind))
      "Resource lifecycle value contradicts its provider identity"

module _ (patterns : Patterns) where
  unfoldable pub assert_credential_free : Text → Result (Unit {0})
  assert_credential_free value =
      throw_if (patterns.sensitive_value value || not (text_eq (patterns.redact value) value))
        "value contains a credential-like value"

  unfoldable pub expect_identifier : Text → Result (Unit {0})
  expect_identifier input = do
    throw_if (ltb 64 (length input) || not (is_identifier input))
        "value must be a safe lowercase identifier"
    assert_credential_free input

  unfoldable pub expect_opaque_identifier : Text → ℕ → Result (Unit {0})
  expect_opaque_identifier input maximum = do
    throw_if (length input == 0 || ltb maximum (length input) || not (is_opaque input))
        "value must be a bounded opaque identifier"
    assert_credential_free input

  unfoldable pub expect_credential_free_string : Text → ℕ → ℕ → Result (Unit {0})
  expect_credential_free_string input minimum maximum = do
    throw_if (ltb (length input) minimum || ltb maximum (length input))
        "value must contain a bounded number of characters"
    assert_credential_free input
