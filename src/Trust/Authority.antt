-- ===== src/Trust/Authority.antt =====
-- `verifySignedSigningKeyTrustPolicyEnvelope` and `verifySignedPolicyAuthorityRotationEnvelope` of
-- packages/portable-promotion-receipt/src/crypto.ts. The detail texts of the checks are left out.
use agent_airlock.Prelude.{
  Bool, true, false, not, List, [], ◌∷◌, Option, none, some, length, take, all, ltb, ◌&&◌, ◌||◌,
}
use agent_airlock.Prelude.Texts.{Text, codes, text_eq, includes}
use agent_airlock.Prelude.Results.{Result, ok, thrown, ◌>>=◌, ◌>>◌, throw_if}
use agent_airlock.Digest.{Sha256, is_digest}
use agent_airlock.Signature.{
  Verifier, trust_policy, authority_rotation, canonical_digest, public_jwk_fingerprint,
  verify_portable_signature,
}
use agent_airlock.Checkpoints.{Check, check}
use agent_airlock.Trust.{
  Clock, le_time, TrustPolicy, SignedTrustPolicy, Rotation, SignedRotation, policy_json,
  rotation_json, is_dated, assert_signing_key_trust_policy, assert_signed_policy,
  assert_policy_authority_rotation, assert_signed_rotation,
}
use agent_airlock.Trust.Evaluation.{evaluation_time}

pub record PolicyReport : Type 0 where
  pub valid : Bool
  pub cryptographically_valid : Bool
  pub authority_trusted : Bool
  pub checks : List Check
  pub policy : Option TrustPolicy
  pub policy_digest : Option Text
  pub authority_key_id : Option Text

pub record RotationReport : Type 0 where
  pub valid : Bool
  pub cryptographically_valid : Bool
  pub previous_authority_trusted : Bool
  pub temporally_valid : Bool
  pub checks : List Check
  pub rotation : Option Rotation
  pub rotation_digest : Option Text
  pub previous_authority_key_id : Option Text
  pub next_authority_key_id : Option Text

-- The loop over the trusted authorities, with those seen before.
unfoldable pub check_authorities : List Text → List Text → Result (Unit {0})
check_authorities seen [] = ok tt
check_authorities seen (value ∷ rest) = do
  throw_if (not (is_digest value) || includes seen value)
      "Trusted policy authority fingerprints are invalid or duplicated"
  check_authorities (value ∷ seen) rest

unfoldable pub assert_trusted_authority_key_ids : List Text → Result (Unit {0})
assert_trusted_authority_key_ids values = do
  throw_if (ltb 32 (length values)) "Too many trusted policy authorities"
  check_authorities [] values

abbrev pub only_if {ℓ} : {A : Type ℓ} → Bool → A → Option A
only_if true a = some a
only_if false a = none

abbrev pub are_valid : List Check → Bool
are_valid checks = all (λ c. c.valid) checks

abbrev pub invalid_policy_report : PolicyReport
invalid_policy_report = record {
  valid = false;
  cryptographically_valid = false;
  authority_trusted = false;
  checks = check (codes "policy-schema") false ∷ [];
  policy = none;
  policy_digest = none;
  authority_key_id = none;
}

abbrev pub invalid_rotation_report : RotationReport
invalid_rotation_report = record {
  valid = false;
  cryptographically_valid = false;
  previous_authority_trusted = false;
  temporally_valid = false;
  checks = check (codes "rotation-schema") false ∷ [];
  rotation = none;
  rotation_digest = none;
  previous_authority_key_id = none;
  next_authority_key_id = none;
}

module _ (sha : Sha256) (verifier : Verifier) (clock : Clock) where
  unfoldable pub digest_signing_key_trust_policy : TrustPolicy → Result Text
  digest_signing_key_trust_policy policy =
      assert_signing_key_trust_policy clock policy >> canonical_digest sha (policy_json policy)

  unfoldable pub digest_policy_authority_rotation : Rotation → Result Text
  digest_policy_authority_rotation rotation =
      assert_policy_authority_rotation clock rotation
      >> canonical_digest sha (rotation_json rotation)

  abbrev policy_report : SignedTrustPolicy → List Check → Bool → Text → Text → PolicyReport
  policy_report e checks authority_trusted digest key_id =
      let cryptographically_valid = are_valid (take 4 checks) in
      let valid = cryptographically_valid && authority_trusted in
      record {
        valid = valid;
        cryptographically_valid = cryptographically_valid;
        authority_trusted = authority_trusted;
        checks = checks;
        policy = only_if valid e.policy;
        policy_digest = some digest;
        authority_key_id = some key_id;
      }

  abbrev policy_checks : SignedTrustPolicy → List Text → Text → Text → List Check
  policy_checks e authorities digest key_id =
      check (codes "policy-schema") true
      ∷ check (codes "policy-digest") (text_eq digest e.policy_digest)
      ∷ check (codes "authority-key-fingerprint") (text_eq key_id e.authority_key_id)
      ∷ check (codes "policy-signature") (
          verify_portable_signature verifier e.policy_digest e.signature e.authority_public_jwk
            trust_policy)
      ∷ check (codes "authority-trust-root") (includes authorities e.authority_key_id)
      ∷ []

  abbrev pub verify_accepted_policy :
      SignedTrustPolicy → List Text → Result (Unit {0}) → Result PolicyReport
  verify_accepted_policy e authorities (thrown error) = ok invalid_policy_report
  verify_accepted_policy e authorities (ok done) = do
    digest ← digest_signing_key_trust_policy e.policy
    key_id ← public_jwk_fingerprint sha e.authority_public_jwk
    ok (
        policy_report e (policy_checks e authorities digest key_id)
          (includes authorities e.authority_key_id) digest key_id)

  unfoldable pub verify_signed_signing_key_trust_policy_envelope :
      SignedTrustPolicy → List Text → Result PolicyReport
  unfolding digest_signing_key_trust_policy
  verify_signed_signing_key_trust_policy_envelope e authorities =
      verify_accepted_policy e authorities
        (assert_trusted_authority_key_ids authorities >> assert_signed_policy clock e)

  abbrev is_until : Option Text → Text → Bool
  is_until none time = true
  is_until (some end) time = le_time (clock time) (clock end)

  abbrev pub is_effective : Rotation → Text → Bool
  is_effective r time =
      is_dated clock time
      && le_time (clock r.effective_at) (clock time)
      && is_until r.expires_at time

  abbrev rotation_report :
      SignedRotation → List Check → Bool → Bool → Text → Text → Text → RotationReport
  rotation_report e checks previous_trusted temporally_valid digest previous_id next_id =
      let cryptographically_valid = are_valid (take 5 checks) in
      let valid = cryptographically_valid && previous_trusted && temporally_valid in
      record {
        valid = valid;
        cryptographically_valid = cryptographically_valid;
        previous_authority_trusted = previous_trusted;
        temporally_valid = temporally_valid;
        checks = checks;
        rotation = only_if valid e.rotation;
        rotation_digest = some digest;
        previous_authority_key_id = some previous_id;
        next_authority_key_id = some next_id;
      }

  abbrev rotation_checks : SignedRotation → List Text → Text → Text → Text → Text → List Check
  rotation_checks e authorities time digest previous_id next_id =
      check (codes "rotation-schema") true
      ∷ check (codes "rotation-digest") (text_eq digest e.rotation_digest)
      ∷ check (codes "previous-authority-fingerprint")
          (text_eq previous_id e.rotation.previous_authority_key_id)
      ∷ check (codes "next-authority-fingerprint")
          (text_eq next_id e.rotation.next_authority_key_id)
      ∷ check (codes "rotation-signature") (
          verify_portable_signature verifier e.rotation_digest e.signature
            e.previous_authority_public_jwk authority_rotation)
      ∷ check (codes "previous-authority-trust-root")
          (includes authorities e.rotation.previous_authority_key_id)
      ∷ check (codes "rotation-validity-window") (is_effective e.rotation time)
      ∷ []

  abbrev pub verify_accepted_rotation :
      SignedRotation → List Text → Text → Result (Unit {0}) → Result RotationReport
  verify_accepted_rotation e authorities time (thrown error) = ok invalid_rotation_report
  verify_accepted_rotation e authorities time (ok done) = do
    digest ← digest_policy_authority_rotation e.rotation
    previous_id ← public_jwk_fingerprint sha e.previous_authority_public_jwk
    next_id ← public_jwk_fingerprint sha e.rotation.next_authority_public_jwk
    ok (
        rotation_report e (rotation_checks e authorities time digest previous_id next_id)
          (includes authorities e.rotation.previous_authority_key_id) (is_effective e.rotation time)
          digest previous_id next_id)

  unfoldable pub verify_signed_policy_authority_rotation_envelope :
      SignedRotation → List Text → Option Text → Text → Result RotationReport
  unfolding digest_policy_authority_rotation
  verify_signed_policy_authority_rotation_envelope e authorities evaluated_at now =
      verify_accepted_rotation e authorities (evaluation_time evaluated_at now)
        (assert_trusted_authority_key_ids authorities >> assert_signed_rotation clock e)
