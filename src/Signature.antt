-- ===== src/Signature.antt =====
-- Ed25519 signatures over digests: `publicJwkFingerprint`, `verifyPortableSignature` and
-- `signatureMessage` of crypto.ts, with `assertPortablePublicJwk` of validation.ts
-- (packages/portable-promotion-receipt/src). The scheme itself is node:crypto's, a parameter.
pub mod Domains
use agent_airlock.Prelude.{ℕ, Bool, false, not, List, [], ◌∷◌, ◌++◌, length, ◌==◌, ◌&&◌}
use agent_airlock.Prelude.Texts.{Text, codes, text_eq}
use agent_airlock.Prelude.Results.{Result, ok, ◌>>=◌, ◌>>◌, throw_if, catch}
use agent_airlock.Canonical.{Json, str, obj, fields, canonicalize, utf8_bytes}
use agent_airlock.Base64.{decode_canonical_base64url}
use agent_airlock.Digest.{Sha256, sha256_digest, digest_bytes}

pub record PublicJwk : Type 0 where
  pub crv : Text
  pub kty : Text
  pub x : Text

pub data Domain : Type 0 where
  receipt checkpoint trust_policy authority_rotation : Domain

abbrev pub domain_bytes : Domain → List ℕ
domain_bytes receipt = codes "agent-airlock-portable-receipt-signature-v1" ++ 0 ∷ []
domain_bytes checkpoint =
    codes "agent-airlock-portable-transparency-checkpoint-signature-v1" ++ 0 ∷ []
domain_bytes trust_policy = codes "agent-airlock-signing-key-trust-policy-v1" ++ 0 ∷ []
domain_bytes authority_rotation = codes "agent-airlock-policy-authority-rotation-v1" ++ 0 ∷ []

unfoldable pub assert_portable_public_jwk : PublicJwk → Result (Unit {0})
assert_portable_public_jwk jwk = do
  throw_if (not (text_eq jwk.crv (codes "Ed25519"))) "Portable public JWK is invalid"
  throw_if (not (text_eq jwk.kty (codes "OKP"))) "Portable public JWK is invalid"
  bytes ← decode_canonical_base64url jwk.x 32
  throw_if (not (length bytes == 32)) "Portable public JWK is invalid"

abbrev pub jwk_json : PublicJwk → Json
jwk_json jwk =
    obj (
      fields
        ((codes "crv", str jwk.crv) ∷ (codes "kty", str jwk.kty) ∷ (codes "x", str jwk.x) ∷ []))

-- `sha256Digest(Buffer.from(canonicalize(value), "utf8"))`.
unfoldable pub canonical_digest : Sha256 → Json → Result Text
canonical_digest sha value = canonicalize value >>= λ text. ok (sha256_digest sha (utf8_bytes text))

unfoldable pub public_jwk_fingerprint : Sha256 → PublicJwk → Result Text
public_jwk_fingerprint sha jwk =
    assert_portable_public_jwk jwk >> canonical_digest sha (jwk_json jwk)

unfoldable pub signature_message : Domain → Text → List ℕ
signature_message domain digest = domain_bytes domain ++ digest_bytes digest

-- `createPublicKey` and `verify` of node:crypto: the key's `x`, the message and the signature.
abbrev pub Verifier : Type 0
Verifier = Text → List ℕ → List ℕ → Bool

unfoldable pub verify_portable_signature : Verifier → Text → Text → PublicJwk → Domain → Bool
unfolding signature_message
verify_portable_signature verifier digest signature jwk domain =
    catch
      (assert_portable_public_jwk jwk
        >> (decode_canonical_base64url signature 64 >>= λ bytes.
            ok (length bytes == 64 && verifier jwk.x (signature_message domain digest) bytes)))
      false
