-- ===== src/Digest/Laws.antt =====
-- Digest texts and their bytes determine each other.
use agent_airlock.Prelude.{
  ℕ, zero, suc, ◌+◌, ◌-◌, ◌*◌, ◌/◌, ◌%◌, ◌<◌, ◌≡◌, refl, sym, ap, ◌∙◌, ◌⊎◌, inl, inr, true, List,
  [], ◌∷◌, ◌++◌, Memᴰ, some, length, drop, all, leb, ◌&&◌, All, arith, Bool-cases, Option-cases,
}
use agent_airlock.Prelude.Texts.{Text, text_eq, text_eq_iff}
use agent_airlock.Digest.{
  Sha256, Collision, hex_digit, hex_encode, hex_value, hex_decode, digest_prefix, sha256_digest,
  strip_prefix, is_lower_hex, is_digest, IsDigest, digest_bytes,
}

hex_digit-is_lower_hex : (n : ℕ) → n < 16 → is_lower_hex (hex_digit n) ≡ true
unfolding is_lower_hex hex_digit
hex_digit-is_lower_hex n h = ground arith

hex_value-hex_digit : (n : ℕ) → n < 16 → hex_value (hex_digit n) ≡ some n
unfolding hex_value hex_digit
hex_value-hex_digit n h = ground arith

length-hex_encode : (bytes : List ℕ) → length (hex_encode bytes) ≡ 2 * length bytes
unfolding hex_encode
length-hex_encode [] = refl
length-hex_encode (b ∷ bytes) = omega (arith, length-hex_encode bytes)

hex_encode-is_lower_hex :
    (bytes : List ℕ) → All (λ b. b < 256) bytes → all is_lower_hex (hex_encode bytes) ≡ true
unfolding hex_encode
hex_encode-is_lower_hex [] h = refl
hex_encode-is_lower_hex (b ∷ bytes) (p, h) =
    rw
      (hex_digit-is_lower_hex (b / 16) (omega arith), hex_digit-is_lower_hex (b % 16) (omega arith))
      (hex_encode-is_lower_hex bytes h)

-- The bytes come back from their hexadecimal digits.
pub hex_decode-hex_encode :
    (bytes : List ℕ) → All (λ b. b < 256) bytes → hex_decode (hex_encode bytes) ≡ bytes
unfolding hex_decode hex_encode
hex_decode-hex_encode [] h = refl
hex_decode-hex_encode (b ∷ bytes) (p, h) = ground (
  arith,
  hex_value-hex_digit (b / 16),
  hex_value-hex_digit (b % 16),
  hex_decode-hex_encode bytes h,
)

strip_prefix-append : (p t : Text) → strip_prefix p (p ++ t) ≡ some t
unfolding strip_prefix
strip_prefix-append [] t = refl
strip_prefix-append (c ∷ p) t = ground (arith, strip_prefix-append p t)

append_of_strip_prefix : (p t r : Text) → strip_prefix p t ≡ some r → t ≡ p ++ r
unfolding strip_prefix
append_of_strip_prefix [] t r e = cc
append_of_strip_prefix (a ∷ p) [] r e = cc
append_of_strip_prefix (a ∷ p) (c ∷ t) r e = ground (arith, append_of_strip_prefix p t r)

-- What the hash function gives is a digest.
pub sha256_digest-IsDigest : (sha : Sha256) (m : List ℕ) → IsDigest (sha256_digest sha m)
unfolding is_digest sha256_digest
sha256_digest-IsDigest sha m = ground (
  arith,
  hex_encode-is_lower_hex (sha.hash m) (sha.hash_bytes m),
  length-hex_encode (sha.hash m),
  sha.hash_length m,
)

-- The digits of a digest.
pub IsDigest-cases :
    (d : Text)
    → IsDigest d
    → (r : Text) × (d ≡ digest_prefix ++ r) × (length r ≡ 64) × (all is_lower_hex r ≡ true)
unfolding is_digest
IsDigest-cases d h = elim (Option-cases (strip_prefix digest_prefix d)) [
  | inl missing ↦ absurd (ground arith)
  | inr (r, e) ↦ (r, append_of_strip_prefix digest_prefix d r e, ground arith, ground arith)
]

hex_value_of_is_lower_hex :
    (c : ℕ)
    → is_lower_hex c ≡ true
    → (v : ℕ) × (hex_value c ≡ some v) × (hex_digit v ≡ c) × (v < 16)
unfolding is_lower_hex hex_value hex_digit
hex_value_of_is_lower_hex c h = elim (Bool-cases (leb 48 c && leb c 57)) [
  | inl digit ↦ (c - 48, ground arith, ground arith, ground arith)
  | inr letter ↦ (c - 87, ground arith, ground arith, ground arith)
]

hex_encode-hex_decode :
    (k : ℕ) (r : Text)
    → length r ≡ 2 * k
    → all is_lower_hex r ≡ true
    → (hex_encode (hex_decode r) ≡ r) × (length (hex_decode r) ≡ k)
unfolding hex_encode hex_decode
hex_encode-hex_decode k [] n h = (refl, omega arith)
hex_encode-hex_decode k (c ∷ []) n h = absurd (omega arith)
hex_encode-hex_decode zero (c ∷ d ∷ r) n h = absurd (omega arith)
hex_encode-hex_decode (suc k) (c ∷ d ∷ r) n h =
    let (u, cu, uc, su) = hex_value_of_is_lower_hex c (ground arith) in
    let (v, dv, vd, sv) = hex_value_of_is_lower_hex d (ground arith) in
    let (back, len) = hex_encode-hex_decode k r (omega arith) (ground arith) in
    let high : (16 * u + v) / 16 ≡ u = omega arith in
    let low : (16 * u + v) % 16 ≡ v = omega arith in (ground arith, ground arith)

drop-prefix : (r : Text) → drop 7 (digest_prefix ++ r) ≡ r
drop-prefix r = refl

pub digest_bytes_lem :
    (d : Text)
    → IsDigest d
    → (digest_prefix ++ hex_encode (digest_bytes d) ≡ d) × (length (digest_bytes d) ≡ 32)
unfolding digest_bytes
digest_bytes_lem d h =
    let (r, e, n, lower) = IsDigest-cases d h in
    let (back, len) = hex_encode-hex_decode 32 r n lower in
    rw e (ap (λ t. digest_prefix ++ t) back, len)

-- Digests with the same bytes are the same text.
pub digest_bytes-injective :
    (c d : Text) → IsDigest c → IsDigest d → digest_bytes c ≡ digest_bytes d → c ≡ d
digest_bytes-injective c d p q e =
    sym (digest_bytes_lem c p).0
    ∙ ap (λ b. digest_prefix ++ hex_encode b) e
    ∙ (digest_bytes_lem d q).0

pub append_cancel : (a b c d : List ℕ) → length a ≡ length c → a ++ b ≡ c ++ d → (a ≡ c) × (b ≡ d)
append_cancel [] b [] d n e = (refl, e)
append_cancel [] b (y ∷ c) d n e = absurd (omega arith)
append_cancel (x ∷ a) b [] d n e = absurd (omega arith)
append_cancel (x ∷ a) b (y ∷ c) d n e =
    let (same, rest) = append_cancel a b c d (omega arith) (cc e) in (cc, rest)

-- Equal digest texts come from equal messages, or the messages, each of its list, are a collision.
pub sha256_digest_split :
    (sha : Sha256) (ms ns : List (List ℕ)) (m n : List ℕ)
    → Memᴰ m ms
    → Memᴰ n ns
    → sha256_digest sha m ≡ sha256_digest sha n
    → (m ≡ n) ⊎ Collision sha ms ns
sha256_digest_split sha ms ns m n p q e = elim (Bool-cases (text_eq m n)) [
  | inl same ↦ inl ((text_eq_iff m n).0 same)
  | inr different ↦ inr (m, n, p, q, (λ same. cc (different, (text_eq_iff m n).1 same)), hashes)
]
  where
    hashes : sha.hash m ≡ sha.hash n
    hashes =
        let texts : digest_prefix ++ hex_encode (sha.hash m)
            ≡ digest_prefix ++ hex_encode (sha.hash n) =
          unfold sha256_digest in e in
        sym (hex_decode-hex_encode (sha.hash m) (sha.hash_bytes m))
        ∙ ap (λ t. hex_decode (drop 7 t)) texts
        ∙ hex_decode-hex_encode (sha.hash n) (sha.hash_bytes n)
