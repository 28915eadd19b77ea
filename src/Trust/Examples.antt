-- ===== src/Trust/Examples.antt =====
-- A policy with one retired key, signed by an authority that then hands over to another.
use agent_airlock.Prelude.{
  ℕ, ◌+◌, ◌-◌, ◌*◌, ◌≡◌, refl, ◌↔◌, true, [], ◌∷◌, none, some, leb, ◌&&◌, if◌then◌else◌,
}
use agent_airlock.Prelude.Int.{pos}
use agent_airlock.Prelude.Texts.{Text, codes, text_eq}
use agent_airlock.Prelude.Results.{ok, catch}
use agent_airlock.Canonical.{canonicalize, utf8_bytes, text_lt, quote, join, print_number}
use agent_airlock.StableJson.{json_text}
use agent_airlock.Base64.{decode_canonical_base64url}
use agent_airlock.Digest.{IsDigest, sha256_digest, is_digest, digest_bytes}
use agent_airlock.Digest.Examples.{toy_sha, checksum, digest_of, replicate}
use agent_airlock.Signature.{
  PublicJwk, Verifier, trust_policy, assert_portable_public_jwk, canonical_digest,
  public_jwk_fingerprint, verify_portable_signature, signature_message,
}
use agent_airlock.Signature.Domains.{signature_message-injective}
use agent_airlock.Selection.{is_identifier}
use agent_airlock.Trust.{
  Clock, retired, TrustRule, TrustPolicy, SignedTrustPolicy, Rotation, SignedRotation, policy_json,
  rotation_json, has_form, assert_sorted_unique_strings, is_dated, validate_rule, assert_key_rules,
  policy_is_invalid, assert_signing_key_trust_policy, assert_signed_policy,
  assert_policy_authority_rotation, assert_signed_rotation,
}
use agent_airlock.Trust.Evaluation.{
  Signing, TrustReport, historically_trusted, find_rule, rule_status, status_at,
  evaluate_signing_key_trust,
}
use agent_airlock.Trust.Verdicts.{IsGranted, evaluate_signing_key_trust_lem}
use agent_airlock.Trust.Authority.{
  PolicyReport, RotationReport, invalid_policy_report, invalid_rotation_report, check_authorities,
  assert_trusted_authority_key_ids, digest_signing_key_trust_policy,
  digest_policy_authority_rotation, invalid_policy_report, invalid_rotation_report,
  verify_signed_signing_key_trust_policy_envelope, verify_signed_policy_authority_rotation_envelope,
}
use agent_airlock.Trust.Vouching.{
  IsVouchedPolicy, IsVouchedRotation, verify_signed_signing_key_trust_policy_envelope_lem,
  verify_signed_policy_authority_rotation_envelope_lem,
}

-- The digits of a timestamp, which come in the order of the times.
abbrev digits : ℕ → Text → ℕ
digits n [] = n
digits n (c ∷ t) =
    let more = digits (10 * n + (c - 48)) t in
    let same = digits n t in if leb 48 c && leb c 57 then more else same

abbrev clock : Clock
clock = λ t. some (pos (digits 0 t))

abbrev rule : TrustRule
rule = record {
  key_id = digest_of b'a';
  status = retired;
  valid_from = codes "2026-01-01T00:00:00.000Z";
  valid_until = some (codes "2026-06-01T00:00:00.000Z");
  agent_ids = codes "agent-1" ∷ [];
  dispositions = [];
  note = none;
}

abbrev policy : TrustPolicy
policy = record {
  schema = codes "agent-airlock/signing-key-trust-policy";
  schema_version = 1;
  policy_id = codes "policy-1";
  issued_at = codes "2026-02-01T00:00:00.000Z";
  expires_at = none;
  keys = rule ∷ [];
}

abbrev signing : Signing
signing = record {
  key_id = digest_of b'a';
  decided_at = codes "2026-03-01T00:00:00.000Z";
  agent_id = codes "agent-1";
  disposition = codes "promoted";
}

abbrev report : TrustReport
report = record {
  policy_id = codes "policy-1";
  key_id = digest_of b'a';
  trusts = true;
  status = historically_trusted;
}

evaluated : Unit {0}
unfolding assert_signing_key_trust_policy policy_is_invalid is_dated has_form is_identifier
    is_digest assert_key_rules validate_rule assert_sorted_unique_strings text_lt text_eq utf8_bytes
    json_text quote join print_number evaluate_signing_key_trust status_at find_rule rule_status
evaluated = tt

policy-sample : assert_signing_key_trust_policy clock policy ≡ ok tt
unfolding evaluated
policy-sample = refl

report-sample :
    evaluate_signing_key_trust clock signing policy true
      (some (codes "2026-07-01T00:00:00.000Z"))
      (codes "now")
    ≡ ok report
unfolding evaluated
report-sample = refl

evaluate_signing_key_trust_example :
    (report.trusts ≡ true)
    ↔ ((true ≡ true) × IsGranted clock (codes "2026-07-01T00:00:00.000Z") policy signing)
evaluate_signing_key_trust_example =
    evaluate_signing_key_trust_lem clock signing policy true
      (some (codes "2026-07-01T00:00:00.000Z")) (codes "now") report policy-sample report-sample

a-IsDigest : IsDigest (digest_of b'a')
unfolding is_digest
a-IsDigest = refl

signature_message-injective_example :
    (trust_policy ≡ trust_policy) × (digest_of b'a' ≡ digest_of b'a')
signature_message-injective_example =
    signature_message-injective trust_policy trust_policy (digest_of b'a') (digest_of b'a')
      a-IsDigest a-IsDigest refl

abbrev any_signature : Verifier
any_signature = λ _ _ _. true

abbrev authority : PublicJwk
authority = record { crv = codes "Ed25519"; kty = codes "OKP"; x = replicate 43 b'A' }

abbrev successor : PublicJwk
successor = record { crv = codes "Ed25519"; kty = codes "OKP"; x = b'B' ∷ replicate 42 b'A' }

signed : Unit {0}
unfolding evaluated assert_signed_policy assert_policy_authority_rotation assert_signed_rotation
    canonicalize decode_canonical_base64url assert_portable_public_jwk canonical_digest
    public_jwk_fingerprint verify_portable_signature signature_message sha256_digest checksum
    check_authorities assert_trusted_authority_key_ids digest_signing_key_trust_policy
    digest_policy_authority_rotation verify_signed_signing_key_trust_policy_envelope
    verify_signed_policy_authority_rotation_envelope digest_bytes
signed = tt

abbrev authority_id : Text
authority_id = catch (public_jwk_fingerprint toy_sha authority) []

abbrev successor_id : Text
successor_id = catch (public_jwk_fingerprint toy_sha successor) []

abbrev signed_policy : SignedTrustPolicy
signed_policy = record {
  schema = codes "agent-airlock/signed-signing-key-trust-policy";
  schema_version = 1;
  policy = policy;
  policy_digest = catch (canonical_digest toy_sha (policy_json policy)) [];
  signature_algorithm = codes "Ed25519";
  signature = replicate 86 b'A';
  authority_key_id = authority_id;
  authority_public_jwk = authority;
}

abbrev policy_report : PolicyReport
policy_report =
    catch
      (verify_signed_signing_key_trust_policy_envelope toy_sha any_signature clock signed_policy
        (authority_id ∷ []))
      invalid_policy_report

policy_report-sample :
    verify_signed_signing_key_trust_policy_envelope toy_sha any_signature clock signed_policy
      (authority_id ∷ [])
    ≡ ok policy_report
unfolding signed
policy_report-sample = refl

policy_report-valid : policy_report.valid ≡ true
unfolding signed
policy_report-valid = refl

verify_signed_signing_key_trust_policy_envelope_example :
    (policy_report.valid ≡ true)
    ↔ IsVouchedPolicy toy_sha any_signature clock signed_policy (authority_id ∷ [])
verify_signed_signing_key_trust_policy_envelope_example =
    verify_signed_signing_key_trust_policy_envelope_lem toy_sha any_signature clock signed_policy
      (authority_id ∷ []) policy_report policy_report-sample

abbrev rotation : Rotation
rotation = record {
  schema = codes "agent-airlock/policy-authority-rotation";
  schema_version = 1;
  rotation_id = codes "rotation-1";
  issued_at = codes "2026-02-01T00:00:00.000Z";
  effective_at = codes "2026-03-01T00:00:00.000Z";
  expires_at = none;
  previous_authority_key_id = authority_id;
  next_authority_key_id = successor_id;
  next_authority_public_jwk = successor;
}

abbrev signed_rotation : SignedRotation
signed_rotation = record {
  schema = codes "agent-airlock/signed-policy-authority-rotation";
  schema_version = 1;
  rotation = rotation;
  rotation_digest = catch (canonical_digest toy_sha (rotation_json rotation)) [];
  signature_algorithm = codes "Ed25519";
  signature = replicate 86 b'A';
  previous_authority_public_jwk = authority;
}

abbrev rotation_report : RotationReport
rotation_report =
    catch
      (verify_signed_policy_authority_rotation_envelope toy_sha any_signature clock signed_rotation
        (authority_id ∷ []) none (codes "2026-04-01T00:00:00.000Z"))
      invalid_rotation_report

rotation_report-sample :
    verify_signed_policy_authority_rotation_envelope toy_sha any_signature clock signed_rotation
      (authority_id ∷ [])
      none
      (codes "2026-04-01T00:00:00.000Z")
    ≡ ok rotation_report
unfolding signed
rotation_report-sample = refl

rotation_report-valid : rotation_report.valid ≡ true
unfolding signed
rotation_report-valid = refl

verify_signed_policy_authority_rotation_envelope_example :
    (rotation_report.valid ≡ true)
    ↔ IsVouchedRotation toy_sha any_signature clock signed_rotation
        (authority_id ∷ [])
        (codes "2026-04-01T00:00:00.000Z")
verify_signed_policy_authority_rotation_envelope_example =
    verify_signed_policy_authority_rotation_envelope_lem toy_sha any_signature clock signed_rotation
      (authority_id ∷ []) none (codes "2026-04-01T00:00:00.000Z") rotation_report
      rotation_report-sample
