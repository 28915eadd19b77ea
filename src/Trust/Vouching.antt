-- ===== src/Trust/Vouching.antt =====
-- The signed policies and rotations that the verifiers of
-- packages/portable-promotion-receipt/src/crypto.ts find valid.
use agent_airlock.Prelude.{◌≡◌, refl, sym, ap, ◌∙◌, Bool, true, List, Option, ◌↔◌, ◌&&◌, arith}
use agent_airlock.Prelude.Texts.{Text, text_eq, text_eq_iff, includes}
use agent_airlock.Prelude.Results.{Result, ok, thrown, ◌>>◌, >>=-eq_ok, ok-injective}
use agent_airlock.Digest.{Sha256}
use agent_airlock.Signature.{
  Verifier, trust_policy, authority_rotation, public_jwk_fingerprint, verify_portable_signature,
}
use agent_airlock.Trust.{
  Clock, SignedTrustPolicy, SignedRotation, assert_signed_policy, assert_signed_rotation,
}
use agent_airlock.Trust.Evaluation.{evaluation_time}
use agent_airlock.Trust.Authority.{
  PolicyReport, RotationReport, assert_trusted_authority_key_ids, digest_signing_key_trust_policy,
  digest_policy_authority_rotation, is_effective, verify_accepted_policy, verify_accepted_rotation,
  verify_signed_signing_key_trust_policy_envelope, verify_signed_policy_authority_rotation_envelope,
}

-- A call that gives one value gives another just where the two are equal.
gives_iff :
    (call : Result Text) (given claimed : Text)
    → call ≡ ok given
    → (text_eq given claimed ≡ true) ↔ (call ≡ ok claimed)
gives_iff call given claimed h = (
  (λ k. h ∙ ap ok ((text_eq_iff given claimed).0 k)),
  λ k. (text_eq_iff given claimed).1 (ok-injective (sym h ∙ k)),
)

policy_verdict :
    (a b c d : Bool)
    → (((true && (a && (b && (c && true)))) && d) ≡ true)
      ↔ ((a ≡ true) × (b ≡ true) × (c ≡ true) × (d ≡ true))
policy_verdict a b c d = ground arith

rotation_verdict :
    (a b c d e f : Bool)
    → (((true && (a && (b && (c && (d && true))))) && e && f) ≡ true)
      ↔ ((a ≡ true) × (b ≡ true) × (c ≡ true) × (d ≡ true) × (e ≡ true) × (f ≡ true))
rotation_verdict a b c d e f = ground arith

module _ (sha : Sha256) (verifier : Verifier) (clock : Clock) where
  -- What vouches for a signed policy: its shape, the digest of its canonical JSON, the key that the
  -- authority's identifier is the fingerprint of, that key's signature, and a trusted authority.
  abbrev pub IsVouchedPolicy : SignedTrustPolicy → List Text → Type 0
  IsVouchedPolicy e authorities =
      ((assert_trusted_authority_key_ids authorities >> assert_signed_policy clock e) ≡ ok tt)
      × (digest_signing_key_trust_policy sha verifier clock e.policy ≡ ok e.policy_digest)
      × (public_jwk_fingerprint sha e.authority_public_jwk ≡ ok e.authority_key_id)
      × (verify_portable_signature verifier e.policy_digest e.signature e.authority_public_jwk
            trust_policy
          ≡ true)
      × (includes authorities e.authority_key_id ≡ true)

  accepted_policy_lem :
      (e : SignedTrustPolicy) (authorities : List Text) (shape : Result (Unit {0}))
      → (report : PolicyReport)
      → (assert_trusted_authority_key_ids authorities >> assert_signed_policy clock e) ≡ shape
      → verify_accepted_policy sha verifier clock e authorities shape ≡ ok report
      → (report.valid ≡ true) ↔ IsVouchedPolicy e authorities
  accepted_policy_lem e authorities (thrown error) report shape h =
      let made = ap (λ r. r.valid) (ok-injective h) in
      (λ k. absurd (cc (made, k)), λ k. absurd (cc (k.0, shape)))
  accepted_policy_lem e authorities (ok done) report shape h =
      let (digest, digested, r1) =
        >>=-eq_ok (digest_signing_key_trust_policy sha verifier clock e.policy) _ h in
      let (key_id, printed, last) =
        >>=-eq_ok (public_jwk_fingerprint sha e.authority_public_jwk) _ r1 in
      let made = ap (λ r. r.valid) (ok-injective last) in
      let signature =
        verify_portable_signature verifier e.policy_digest e.signature e.authority_public_jwk
          trust_policy in
      let verdict =
        policy_verdict (text_eq digest e.policy_digest) (text_eq key_id e.authority_key_id)
          signature (includes authorities e.authority_key_id) in
      let digests =
        gives_iff (digest_signing_key_trust_policy sha verifier clock e.policy) digest
          e.policy_digest digested in
      let prints =
        gives_iff (public_jwk_fingerprint sha e.authority_public_jwk) key_id e.authority_key_id
          printed in
      (
        λ k. let (a, b, c, d) = verdict.0 (made ∙ k) in (shape, digests.0 a, prints.0 b, c, d),
        λ k. sym made ∙ verdict.1 (digests.1 k.1, prints.1 k.2, k.3, k.4),
      )

  -- A policy report is valid exactly where the envelope is vouched for: the trusted authorities and
  -- the envelope have the right shape, the digest of the policy is the claimed one, the claimed
  -- authority is the fingerprint of the included key, that key signed the digest as a trust policy,
  -- and the authority is one of the trusted.
  pub verify_signed_signing_key_trust_policy_envelope_lem :
      (e : SignedTrustPolicy) (authorities : List Text) (report : PolicyReport)
      → verify_signed_signing_key_trust_policy_envelope sha verifier clock e authorities ≡ ok report
      → (report.valid ≡ true) ↔ IsVouchedPolicy e authorities
  unfolding verify_signed_signing_key_trust_policy_envelope
  verify_signed_signing_key_trust_policy_envelope_lem e authorities report h =
      accepted_policy_lem e authorities
        (assert_trusted_authority_key_ids authorities >> assert_signed_policy clock e) report refl h

  -- What vouches for a signed rotation, at a time.
  abbrev pub IsVouchedRotation : SignedRotation → List Text → Text → Type 0
  IsVouchedRotation e authorities time =
      ((assert_trusted_authority_key_ids authorities >> assert_signed_rotation clock e) ≡ ok tt)
      × (digest_policy_authority_rotation sha verifier clock e.rotation ≡ ok e.rotation_digest)
      × (public_jwk_fingerprint sha e.previous_authority_public_jwk
          ≡ ok e.rotation.previous_authority_key_id)
      × (public_jwk_fingerprint sha e.rotation.next_authority_public_jwk
          ≡ ok e.rotation.next_authority_key_id)
      × (verify_portable_signature verifier e.rotation_digest e.signature
            e.previous_authority_public_jwk authority_rotation
          ≡ true)
      × (includes authorities e.rotation.previous_authority_key_id ≡ true)
      × (is_effective sha verifier clock e.rotation time ≡ true)

  accepted_rotation_lem :
      (e : SignedRotation) (authorities : List Text) (time : Text) (shape : Result (Unit {0}))
      → (report : RotationReport)
      → (assert_trusted_authority_key_ids authorities >> assert_signed_rotation clock e) ≡ shape
      → verify_accepted_rotation sha verifier clock e authorities time shape ≡ ok report
      → (report.valid ≡ true) ↔ IsVouchedRotation e authorities time
  accepted_rotation_lem e authorities time (thrown error) report shape h =
      let made = ap (λ r. r.valid) (ok-injective h) in
      (λ k. absurd (cc (made, k)), λ k. absurd (cc (k.0, shape)))
  accepted_rotation_lem e authorities time (ok done) report shape h =
      let digest_of = digest_policy_authority_rotation sha verifier clock e.rotation in
      let previous_of = public_jwk_fingerprint sha e.previous_authority_public_jwk in
      let next_of = public_jwk_fingerprint sha e.rotation.next_authority_public_jwk in
      let (digest, digested, r1) = >>=-eq_ok digest_of _ h in
      let (previous_id, printed, r2) = >>=-eq_ok previous_of _ r1 in
      let (next_id, printed_next, last) = >>=-eq_ok next_of _ r2 in
      let made = ap (λ r. r.valid) (ok-injective last) in
      let verdict =
        rotation_verdict (text_eq digest e.rotation_digest)
          (text_eq previous_id e.rotation.previous_authority_key_id)
          (text_eq next_id e.rotation.next_authority_key_id)
          (verify_portable_signature verifier e.rotation_digest e.signature
            e.previous_authority_public_jwk authority_rotation)
          (includes authorities e.rotation.previous_authority_key_id)
          (is_effective sha verifier clock e.rotation time) in
      let digests = gives_iff digest_of digest e.rotation_digest digested in
      let prints = gives_iff previous_of previous_id e.rotation.previous_authority_key_id printed in
      let next_prints = gives_iff next_of next_id e.rotation.next_authority_key_id printed_next in
      (
        λ k.
            let (a, b, c, d, f, g) = verdict.0 (made ∙ k) in
            (shape, digests.0 a, prints.0 b, next_prints.0 c, d, f, g),
        λ k. sym made ∙ verdict.1 (digests.1 k.1, prints.1 k.2, next_prints.1 k.3, k.4, k.5, k.6),
      )

  -- A rotation report is valid exactly where the envelope is vouched for at the evaluation time: as
  -- for a policy, by the previous authority under the rotation domain, with the next authority's
  -- identifier the fingerprint of its key, from the effective time until the expiry.
  pub verify_signed_policy_authority_rotation_envelope_lem :
      (e : SignedRotation) (authorities : List Text) (evaluated_at : Option Text) (now : Text)
      → (report : RotationReport)
      → verify_signed_policy_authority_rotation_envelope sha verifier clock e authorities
          evaluated_at now
        ≡ ok report
      → (report.valid ≡ true) ↔ IsVouchedRotation e authorities (evaluation_time evaluated_at now)
  unfolding verify_signed_policy_authority_rotation_envelope
  verify_signed_policy_authority_rotation_envelope_lem e authorities evaluated_at now report h =
      accepted_rotation_lem e authorities (evaluation_time evaluated_at now)
        (assert_trusted_authority_key_ids authorities >> assert_signed_rotation clock e) report refl
        h
