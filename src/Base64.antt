-- ===== src/Base64.antt =====
-- Canonical unpadded base64url: `decodeCanonicalBase64Url` and `encodeBase64Url` of validation.ts
-- (packages/portable-promotion-receipt/src). `atob` and `btoa` are the platform's.
use agent_airlock.Prelude.{
  ℕ, ◌+◌, ◌-◌, ◌*◌, ◌/◌, ◌%◌, ◌≡◌, refl, Bool, not, List, [], ◌∷◌, Option, none, some, all, length,
  ltb, leb, ◌==◌, ◌&&◌, ◌||◌, if◌then◌else◌,
}
use agent_airlock.Prelude.Texts.{Text, codes, text_eq}
use agent_airlock.Prelude.Results.{Result, ok, thrown, ◌>>◌, throw_if}

-- `base64UrlPattern`, /^[A-Za-z0-9_-]+$/, of one character.
abbrev pub is_base64url : ℕ → Bool
is_base64url c =
    leb 65 c && leb c 90 || leb 97 c && leb c 122 || leb 48 c && leb c 57 || c == b'_' || c == b'-'

-- The alphabet, with `-` and `_` in the places of `+` and `/`.
sextet : ℕ → ℕ
sextet c =
    if leb 65 c && leb c 90
    then c - 65
    else if leb 97 c && leb c 122
    then c - 71
    else if leb 48 c && leb c 57
    then c + 4
    else if c == b'-'
    then 62
    else 63

letter : ℕ → ℕ
letter v =
    if ltb v 26
    then 65 + v
    else if ltb v 52
    then 71 + v
    else if ltb v 62
    then v - 4
    else if v == 62
    then b'-'
    else b'_'

-- `atob` of the padded text: one character over a multiple of four is refused; what the last
-- character holds beyond a byte is dropped.
atob : Text → Option (List ℕ)
unfolding sextet
atob [] = some []
atob (a ∷ []) = none
atob (a ∷ b ∷ []) = some ((4 * sextet a + sextet b / 16) ∷ [])
atob (a ∷ b ∷ c ∷ []) =
    some ((4 * sextet a + sextet b / 16) ∷ (16 * (sextet b % 16) + sextet c / 4) ∷ [])
atob (a ∷ b ∷ c ∷ d ∷ rest) =
    let bytes = atob rest in
    elim bytes [
      | none ↦ none
      | some more ↦ some (
          (4 * sextet a + sextet b / 16)
          ∷ (16 * (sextet b % 16) + sextet c / 4)
          ∷ (64 * (sextet c % 4) + sextet d)
          ∷ more)
    ]

unfoldable pub encode_base64url : List ℕ → Text
unfolding letter
encode_base64url [] = []
encode_base64url (x ∷ []) = letter (x / 4) ∷ letter (16 * (x % 4)) ∷ []
encode_base64url (x ∷ y ∷ []) =
    letter (x / 4) ∷ letter (16 * (x % 4) + y / 16) ∷ letter (4 * (y % 16)) ∷ []
encode_base64url (x ∷ y ∷ z ∷ rest) =
    letter (x / 4)
    ∷ letter (16 * (x % 4) + y / 16)
    ∷ letter (4 * (y % 16) + z / 64)
    ∷ letter (z % 64)
    ∷ encode_base64url rest

unfoldable pub decode_canonical_base64url : Text → ℕ → Result (List ℕ)
unfolding atob encode_base64url text_eq
decode_canonical_base64url value maximum_bytes = do
  throw_if (length value == 0 || not (all is_base64url value))
      "Value is not canonical unpadded base64url"
  elim (atob value) [
    | none ↦ thrown "Value is not canonical bounded base64url"
    | some decoded ↦
        throw_if
          (ltb maximum_bytes (length decoded) || not (text_eq (encode_base64url decoded) value))
          "Value is not canonical bounded base64url"
        >> ok decoded
  ]

decode_sample : decode_canonical_base64url (codes "SGk_") 3 ≡ ok (72 ∷ 105 ∷ 63 ∷ [])
unfolding decode_canonical_base64url
decode_sample = refl

-- Bits beyond the last byte are not canonical.
decode_loose_bits :
    decode_canonical_base64url (codes "SB") 3 ≡ thrown "Value is not canonical bounded base64url"
unfolding decode_canonical_base64url
decode_loose_bits = refl
