-- ===== src/Trust.antt =====
-- Signing-key trust policies and policy-authority rotations: their data and shape checks, from
-- packages/portable-promotion-receipt/src/trust-policy.ts and authority-rotation.ts. `Date.parse` is
-- a parameter; where it gives NaN, a comparison is false.
pub mod Evaluation
pub mod Rules
pub mod Verdicts
pub mod Authority
pub mod Vouching
pub mod Examples
use agent_airlock.Prelude.{
  ℕ, Bool, true, false, not, List, [], ◌∷◌, Option, none, some, length, all, ltb, leb, ◌==◌, ◌&&◌,
  ◌||◌,
}
use agent_airlock.Prelude.Int.{ℤ, pos, negsuc}
use agent_airlock.Prelude.Texts.{Text, codes, text_eq, includes}
use agent_airlock.Prelude.Results.{Result, ok, thrown, ◌>>=◌, ◌>>◌, throw_if}
use agent_airlock.Canonical.{
  Json, null, num, str, arr, obj, Items, nil, cons, fields, utf8_bytes, canonicalize, text_lt,
}
use agent_airlock.Base64.{decode_canonical_base64url}
use agent_airlock.Digest.{is_digest}
use agent_airlock.Signature.{PublicJwk, assert_portable_public_jwk, jwk_json}
use agent_airlock.Selection.{is_identifier}
use agent_airlock.Resources.Metadata.{stringify}

-- `Date.parse`: milliseconds, or NaN.
abbrev pub Clock : Type 0
Clock = Text → Option ℤ

-- `Date.parse(a) < Date.parse(b)` on two results.
abbrev pub lt_time : Option ℤ → Option ℤ → Bool
lt_time (some (pos m)) (some (pos n)) = ltb m n
lt_time (some (pos m)) (some (negsuc n)) = false
lt_time (some (negsuc m)) (some (pos n)) = true
lt_time (some (negsuc m)) (some (negsuc n)) = ltb n m
lt_time none b = false
lt_time (some a) none = false

abbrev pub le_time : Option ℤ → Option ℤ → Bool
le_time (some (pos m)) (some (pos n)) = leb m n
le_time (some (pos m)) (some (negsuc n)) = false
le_time (some (negsuc m)) (some (pos n)) = true
le_time (some (negsuc m)) (some (negsuc n)) = leb n m
le_time none b = false
le_time (some a) none = false

pub data KeyStatus : Type 0 where
  active retired compromised : KeyStatus

pub record TrustRule : Type 0 where
  pub key_id : Text
  pub status : KeyStatus
  pub valid_from : Text
  pub valid_until : Option Text
  pub agent_ids : List Text
  pub dispositions : List Text
  pub note : Option Text

pub record TrustPolicy : Type 0 where
  pub schema : Text
  pub schema_version : ℕ
  pub policy_id : Text
  pub issued_at : Text
  pub expires_at : Option Text
  pub keys : List TrustRule

pub record SignedTrustPolicy : Type 0 where
  pub schema : Text
  pub schema_version : ℕ
  pub policy : TrustPolicy
  pub policy_digest : Text
  pub signature_algorithm : Text
  pub signature : Text
  pub authority_key_id : Text
  pub authority_public_jwk : PublicJwk

pub record Rotation : Type 0 where
  pub schema : Text
  pub schema_version : ℕ
  pub rotation_id : Text
  pub issued_at : Text
  pub effective_at : Text
  pub expires_at : Option Text
  pub previous_authority_key_id : Text
  pub next_authority_key_id : Text
  pub next_authority_public_jwk : PublicJwk

pub record SignedRotation : Type 0 where
  pub schema : Text
  pub schema_version : ℕ
  pub rotation : Rotation
  pub rotation_digest : Text
  pub signature_algorithm : Text
  pub signature : Text
  pub previous_authority_public_jwk : PublicJwk

abbrev text_items : List Text → Items
text_items [] = nil
text_items (t ∷ ts) = cons (str t) (text_items ts)

abbrev null_or_str : Option Text → Json
null_or_str none = null
null_or_str (some t) = str t

abbrev status_text : KeyStatus → Text
status_text active = codes "active"
status_text retired = codes "retired"
status_text compromised = codes "compromised"

abbrev rule_json : TrustRule → Json
rule_json r = obj (
    fields (
      (codes "keyId", str r.key_id)
      ∷ (codes "status", str (status_text r.status))
      ∷ (codes "validFrom", str r.valid_from)
      ∷ (codes "validUntil", null_or_str r.valid_until)
      ∷ (codes "agentIds", arr (text_items r.agent_ids))
      ∷ (codes "dispositions", arr (text_items r.dispositions))
      ∷ (codes "note", null_or_str r.note)
      ∷ []))

abbrev rule_items : List TrustRule → Items
rule_items [] = nil
rule_items (r ∷ rs) = cons (rule_json r) (rule_items rs)

abbrev pub policy_json : TrustPolicy → Json
policy_json p = obj (
    fields (
      (codes "schema", str p.schema)
      ∷ (codes "schemaVersion", num (pos p.schema_version))
      ∷ (codes "policyId", str p.policy_id)
      ∷ (codes "issuedAt", str p.issued_at)
      ∷ (codes "expiresAt", null_or_str p.expires_at)
      ∷ (codes "keys", arr (rule_items p.keys))
      ∷ []))

abbrev pub rotation_json : Rotation → Json
rotation_json r = obj (
    fields (
      (codes "schema", str r.schema)
      ∷ (codes "schemaVersion", num (pos r.schema_version))
      ∷ (codes "rotationId", str r.rotation_id)
      ∷ (codes "issuedAt", str r.issued_at)
      ∷ (codes "effectiveAt", str r.effective_at)
      ∷ (codes "expiresAt", null_or_str r.expires_at)
      ∷ (codes "previousAuthorityKeyId", str r.previous_authority_key_id)
      ∷ (codes "nextAuthorityKeyId", str r.next_authority_key_id)
      ∷ (codes "nextAuthorityPublicJwk", jwk_json r.next_authority_public_jwk)
      ∷ []))

abbrev signed_policy_json : SignedTrustPolicy → Json
signed_policy_json e = obj (
    fields (
      (codes "schema", str e.schema)
      ∷ (codes "schemaVersion", num (pos e.schema_version))
      ∷ (codes "policy", policy_json e.policy)
      ∷ (codes "policyDigest", str e.policy_digest)
      ∷ (codes "signatureAlgorithm", str e.signature_algorithm)
      ∷ (codes "signature", str e.signature)
      ∷ (codes "authorityKeyId", str e.authority_key_id)
      ∷ (codes "authorityPublicJwk", jwk_json e.authority_public_jwk)
      ∷ []))

abbrev signed_rotation_json : SignedRotation → Json
signed_rotation_json e = obj (
    fields (
      (codes "schema", str e.schema)
      ∷ (codes "schemaVersion", num (pos e.schema_version))
      ∷ (codes "rotation", rotation_json e.rotation)
      ∷ (codes "rotationDigest", str e.rotation_digest)
      ∷ (codes "signatureAlgorithm", str e.signature_algorithm)
      ∷ (codes "signature", str e.signature)
      ∷ (codes "previousAuthorityPublicJwk", jwk_json e.previous_authority_public_jwk)
      ∷ []))

abbrev portable_dispositions : List Text
portable_dispositions =
    codes "promoted" ∷ codes "quarantined" ∷ codes "discarded" ∷ codes "cancelled" ∷ []

-- /^\d{4}-\d{2}-\d{2}T\d{2}:\d{2}:\d{2}\.\d{3}Z$/, with a 'd' for each digit.
unfoldable pub has_form : Text → Text → Bool
has_form [] [] = true
has_form (p ∷ ps) (c ∷ cs) =
    (p == b'd' && leb 48 c && leb c 57 || not (p == b'd') && p == c) && has_form ps cs
has_form [] (c ∷ cs) = false
has_form (p ∷ ps) [] = false

abbrev pub is_finite : Option ℤ → Bool
is_finite none = false
is_finite (some t) = true

-- `assertSortedUniqueStrings`, from the item before.
unfoldable pub assert_sorted_unique_strings : Text → List Text → Result (Unit {0})
unfolding text_lt
assert_sorted_unique_strings previous [] = ok tt
assert_sorted_unique_strings previous (item ∷ rest) = do
  throw_if (not (text_lt previous item)) "must be unique and sorted"
  assert_sorted_unique_strings item rest

module _ (clock : Clock) where
  -- `isTimestamp`.
  unfoldable pub is_dated : Text → Bool
  unfolding has_form
  is_dated value = has_form (codes "dddd-dd-ddTdd:dd:dd.dddZ") value && is_finite (clock value)

  abbrev pub is_nullable_dated : Option Text → Bool
  is_nullable_dated none = true
  is_nullable_dated (some value) = is_dated value

  -- `end !== null && Date.parse(end) <= Date.parse(start)`.
  abbrev pub ends_by : Option Text → Text → Bool
  ends_by none start = false
  ends_by (some end) start = le_time (clock end) (clock start)

  abbrev is_long : Option Text → Bool
  is_long none = false
  is_long (some note) = ltb 500 (length note)

  abbrev is_retired_open : KeyStatus → Option Text → Bool
  is_retired_open retired none = true
  is_retired_open retired (some end) = false
  is_retired_open active end = false
  is_retired_open compromised end = false

  unfoldable pub validate_rule : TrustRule → Result (Unit {0})
  validate_rule rule = do
    throw_if
        (not (is_digest rule.key_id)
          || not (is_dated rule.valid_from)
          || not (is_nullable_dated rule.valid_until)
          || ltb 256 (length rule.agent_ids)
          || ltb 4 (length rule.dispositions)
          || is_long rule.note)
        "Signing-key trust rule is invalid"
    throw_if (ends_by rule.valid_until rule.valid_from)
        "Signing-key trust rule validity window is invalid"
    throw_if (is_retired_open rule.status rule.valid_until)
        "A retired signing key requires a validUntil timestamp"
    assert_sorted_unique_strings [] rule.agent_ids
    assert_sorted_unique_strings [] rule.dispositions
    throw_if (not (all is_identifier rule.agent_ids))
        "Signing-key trust rule Agent scope is invalid"
    throw_if (not (all (includes portable_dispositions) rule.dispositions))
        "Signing-key trust rule disposition scope is invalid"

  -- The loop over the rules, with the key of the rule before.
  unfoldable pub assert_key_rules : Text → List TrustRule → Result (Unit {0})
  unfolding text_lt
  assert_key_rules previous [] = ok tt
  assert_key_rules previous (rule ∷ rest) = do
    validate_rule rule
    throw_if (not (text_lt previous rule.key_id))
        "Signing-key trust rules must be unique and sorted by keyId"
    assert_key_rules rule.key_id rest

  unfoldable pub policy_is_invalid : TrustPolicy → Bool
  policy_is_invalid p =
      not (text_eq p.schema (codes "agent-airlock/signing-key-trust-policy"))
      || not (p.schema_version == 1)
      || not (is_identifier p.policy_id)
      || not (is_dated p.issued_at)
      || not (is_nullable_dated p.expires_at)
      || ltb 256 (length p.keys)

  unfoldable pub assert_signing_key_trust_policy : TrustPolicy → Result (Unit {0})
  assert_signing_key_trust_policy p = do
    throw_if (policy_is_invalid p) "Signing-key trust policy identity or bounds are invalid"
    throw_if (ends_by p.expires_at p.issued_at)
        "Signing-key trust policy expiry must follow issuance"
    assert_key_rules [] p.keys
    throw_if (ltb 65536 (length (utf8_bytes (stringify (policy_json p)))))
        "Signing-key trust policy exceeds the byte limit"

  unfoldable pub assert_signed_policy : SignedTrustPolicy → Result (Unit {0})
  assert_signed_policy e = do
    throw_if
        (not (text_eq e.schema (codes "agent-airlock/signed-signing-key-trust-policy"))
          || not (e.schema_version == 1)
          || not (is_digest e.policy_digest)
          || not (text_eq e.signature_algorithm (codes "Ed25519")))
        "Signed signing-key trust policy identity is invalid"
    bytes ← decode_canonical_base64url e.signature 64
    throw_if (not (length bytes == 64) || not (is_digest e.authority_key_id))
        "Signed signing-key trust policy identity is invalid"
    assert_signing_key_trust_policy e.policy
    assert_portable_public_jwk e.authority_public_jwk
    text ← canonicalize (signed_policy_json e)
    throw_if (ltb 131072 (length (utf8_bytes text)))
        "Signed signing-key trust policy exceeds the byte limit"

  unfoldable pub assert_policy_authority_rotation : Rotation → Result (Unit {0})
  assert_policy_authority_rotation r = do
    throw_if
        (not (text_eq r.schema (codes "agent-airlock/policy-authority-rotation"))
          || not (r.schema_version == 1)
          || not (is_identifier r.rotation_id)
          || not (is_dated r.issued_at)
          || not (is_dated r.effective_at)
          || not (is_nullable_dated r.expires_at)
          || not (is_digest r.previous_authority_key_id)
          || not (is_digest r.next_authority_key_id)
          || text_eq r.previous_authority_key_id r.next_authority_key_id)
        "Policy-authority rotation identity or bounds are invalid"
    throw_if (lt_time (clock r.effective_at) (clock r.issued_at))
        "Policy-authority rotation cannot take effect before issuance"
    throw_if (ends_by r.expires_at r.effective_at)
        "Policy-authority rotation expiry must follow its effective time"
    assert_portable_public_jwk r.next_authority_public_jwk
    text ← canonicalize (rotation_json r)
    throw_if (ltb 32768 (length (utf8_bytes text)))
        "Policy-authority rotation exceeds the byte limit"

  unfoldable pub assert_signed_rotation : SignedRotation → Result (Unit {0})
  assert_signed_rotation e = do
    throw_if
        (not (text_eq e.schema (codes "agent-airlock/signed-policy-authority-rotation"))
          || not (e.schema_version == 1)
          || not (is_digest e.rotation_digest)
          || not (text_eq e.signature_algorithm (codes "Ed25519")))
        "Signed policy-authority rotation identity is invalid"
    bytes ← decode_canonical_base64url e.signature 64
    throw_if (not (length bytes == 64)) "Signed policy-authority rotation identity is invalid"
    assert_policy_authority_rotation e.rotation
    assert_portable_public_jwk e.previous_authority_public_jwk
    text ← canonicalize (signed_rotation_json e)
    throw_if (ltb 65536 (length (utf8_bytes text)))
        "Signed policy-authority rotation exceeds the byte limit"
