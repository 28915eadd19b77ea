-- ===== src/Signature/Domains.antt =====
-- The domains of the signatures of packages/portable-promotion-receipt/src/crypto.ts.
use mathlib.Core.List.{append_cancel_left}
use agent_airlock.Prelude.{
  ℕ, ◌≡◌, refl, sym, ap, ◌∙◌, subst, Bool, false, List, none, some, get_elem?, ◌==◌, if◌then◌else◌,
}
use agent_airlock.Prelude.Texts.{Text}
use agent_airlock.Digest.{IsDigest, digest_bytes}
use agent_airlock.Digest.Laws.{digest_bytes-injective}
use agent_airlock.Signature.{
  Domain, receipt, checkpoint, trust_policy, authority_rotation, domain_bytes, signature_message,
}

abbrev is_byte_at : ℕ → ℕ → List ℕ → Bool
is_byte_at i c message = elim (get_elem? message i) [ none ↦ false | some d ↦ d == c ]

-- The domain of a message, read off two of its bytes.
abbrev domain_of : List ℕ → Domain
domain_of message =
    if is_byte_at 16 b'g' message
    then trust_policy
    else if is_byte_at 16 b'l' message
    then authority_rotation
    else if is_byte_at 23 b't' message
    then checkpoint
    else receipt

domain_of-signature_message :
    (domain : Domain) (digest : Text) → domain_of (signature_message domain digest) ≡ domain
unfolding signature_message
domain_of-signature_message receipt digest = refl
domain_of-signature_message checkpoint digest = refl
domain_of-signature_message trust_policy digest = refl
domain_of-signature_message authority_rotation digest = refl

-- The message that is signed tells its domain and its digest: no signature over the one of a domain
-- is a signature over one of another domain or digest.
pub signature_message-injective :
    (a b : Domain) (d e : Text)
    → IsDigest d
    → IsDigest e
    → signature_message a d ≡ signature_message b e
    → (a ≡ b) × (d ≡ e)
unfolding signature_message
signature_message-injective a b d e h k same =
    let domains =
      sym (domain_of-signature_message a d) ∙ ap domain_of same ∙ domain_of-signature_message b e in
    let aligned : signature_message b d ≡ signature_message b e =
      subst (λ x. signature_message x d ≡ signature_message b e) domains same in
    (
      domains,
      digest_bytes-injective d e h k
          (append_cancel_left (domain_bytes b) (digest_bytes d) (digest_bytes e) aligned),
    )
