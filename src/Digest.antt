-- ===== src/Digest.antt =====
-- Digest texts: `sha256:` and 64 hexadecimal digits, as crypto.ts makes them, validation.ts tests
-- them and the tree hashes of merkle.ts and transparency.ts take them apart
-- (packages/portable-promotion-receipt/src).
pub mod Laws
pub mod Examples
use agent_airlock.Prelude.{
  ℕ, suc, ◌+◌, ◌-◌, ◌*◌, ◌/◌, ◌%◌, ◌<◌, ◌≡◌, ◌≢◌, Bool, true, false, List, [], ◌∷◌, ◌++◌, Memᴰ,
  Option, none, some, length, drop, all, ltb, leb, ◌==◌, ◌&&◌, ◌||◌, if◌then◌else◌, All,
}
use agent_airlock.Prelude.Texts.{Text, codes, text_eq}

-- `createHash("sha256").update(bytes).digest()` of node:crypto, which is not part of the program:
-- 32 bytes for any message.
pub record Sha256 : Type 0 where
  pub hash : List ℕ → List ℕ
  pub hash_length : (message : List ℕ) → length (hash message) ≡ 32
  pub hash_bytes : (message : List ℕ) → All (λ b. b < 256) (hash message)

-- A message of the first list and a different message of the second with one hash.
abbrev pub Collision : Sha256 → List (List ℕ) → List (List ℕ) → Type 0
Collision sha ms ns =
    (m : List ℕ) × (n : List ℕ) × Memᴰ m ms × Memᴰ n ns × (m ≢ n) × (sha.hash m ≡ sha.hash n)

-- `.digest("hex")`.
unfoldable pub hex_digit : ℕ → ℕ
hex_digit n = if ltb n 10 then 48 + n else 87 + n

unfoldable pub hex_encode : List ℕ → Text
unfolding hex_digit
hex_encode [] = []
hex_encode (b ∷ bytes) = hex_digit (b / 16) ∷ hex_digit (b % 16) ∷ hex_encode bytes

-- `Buffer.from(text, "hex")`: it stops at the first pair that is not hexadecimal.
unfoldable pub hex_value : ℕ → Option ℕ
hex_value c =
    if leb 48 c && leb c 57
    then some (c - 48)
    else if leb 97 c && leb c 102
    then some (c - 87)
    else if leb 65 c && leb c 70
    then some (c - 55)
    else none

unfoldable pub hex_decode : Text → List ℕ
unfolding hex_value
hex_decode [] = []
hex_decode (c ∷ []) = []
hex_decode (c ∷ d ∷ rest) =
    let bytes = hex_decode rest in
    elim (hex_value c) [
      | none ↦ []
      | some high ↦ elim (hex_value d) [ none ↦ [] | some low ↦ (16 * high + low) ∷ bytes ]
    ]

abbrev pub digest_prefix : Text
digest_prefix = codes "sha256:"

-- `sha256Digest`.
unfoldable pub sha256_digest : Sha256 → List ℕ → Text
unfolding hex_encode
sha256_digest sha message = digest_prefix ++ hex_encode (sha.hash message)

-- A test of `text` against a literal prefix, with the rest of the text.
unfoldable pub strip_prefix : Text → Text → Option Text
strip_prefix [] text = some text
strip_prefix (p ∷ prefix) [] = none
strip_prefix (p ∷ prefix) (c ∷ text) = if p == c then strip_prefix prefix text else none

unfoldable pub is_lower_hex : ℕ → Bool
is_lower_hex c = leb 97 c && leb c 102 || leb 48 c && leb c 57

-- `digestPattern`, /^sha256:[a-f0-9]{64}$/.
unfoldable pub is_digest : Text → Bool
unfolding strip_prefix is_lower_hex
is_digest text = elim (strip_prefix digest_prefix text) [
  | none ↦ false
  | some rest ↦ length rest == 64 && all is_lower_hex rest
]

abbrev pub IsDigest : Text → Type 0
IsDigest text = is_digest text ≡ true

-- The bytes of a digest: `Buffer.from(digest.slice("sha256:".length), "hex")`.
unfoldable pub digest_bytes : Text → List ℕ
unfolding hex_decode
digest_bytes digest = hex_decode (drop 7 digest)
