-- ===== src/Resources/Metadata.antt =====
-- `validateMetadata` of packages/transactional-resource-sdk/src/validation.ts. The walk carries the
-- number of entries seen so far, which the code counts in `stats`.
pub mod Bounds
use agent_airlock.Prelude.{
  ℕ, ◌+◌, Bool, true, false, not, List, [], ◌∷◌, ◌++◌, length, ltb, leb, ◌==◌, ◌&&◌, ◌||◌,
  if◌then◌else◌,
}
use agent_airlock.Prelude.Texts.{Text, codes, text_eq}
use agent_airlock.Prelude.Results.{Result, ok, thrown, ◌>>=◌, ◌>>◌, throw_if}
use agent_airlock.Canonical.{
  Json, null, bool, num, decimal, str, arr, obj, Items, nil, cons, Properties, end, property,
  count_items, utf8_bytes,
}
use agent_airlock.StableJson.{json_text}
use agent_airlock.Resources.{Patterns}

-- `JSON.stringify`.
abbrev pub stringify : Json → Text
stringify = json_text (λ entries. entries)

-- `key.replace(/[A-Z]/g, (character) => "_" + character.toLowerCase())`.
unfoldable pub normalized_key : Text → Text
normalized_key [] = []
normalized_key (c ∷ rest) =
    let later = normalized_key rest in
    if leb 65 c && leb c 90 then b'_' ∷ (c + 32) ∷ later else c ∷ later

module _ (patterns : Patterns) where
  abbrev pub is_bad_key : Text → Bool
  is_bad_key key =
      text_eq key (codes "__proto__")
      || text_eq key (codes "prototype")
      || text_eq key (codes "constructor")
      || patterns.sensitive_key (normalized_key key)

  -- One entry more.
  unfoldable pub count_entry : ℕ → Result ℕ
  count_entry entries =
      if ltb 128 (entries + 1) then thrown "metadata exceeds 128 entries" else ok (entries + 1)

  unfoldable mutual
    unfolding count_entry normalized_key count_items

    pub validate_json_value : Json → ℕ → ℕ → Result ℕ
    validate_json_value null depth entries = ok entries
    validate_json_value (bool b) depth entries = ok entries
    validate_json_value (num z) depth entries = ok entries
    validate_json_value (decimal t) depth entries = ok entries
    validate_json_value (str s) depth entries = do
      throw_if (ltb 4096 (length s)) "metadata exceeds 4096 characters"
      throw_if (patterns.sensitive_value s) "metadata contains a credential-like value"
      ok entries
    validate_json_value (arr vs) depth entries = do
      throw_if (ltb 8 depth) "metadata exceeds maximum JSON depth 8"
      throw_if (ltb 128 (count_items vs)) "metadata exceeds 128 array items"
      validate_json_items vs depth entries
    validate_json_value (obj ps) depth entries = do
      throw_if (ltb 8 depth) "metadata exceeds maximum JSON depth 8"
      validate_json_properties ps depth entries

    pub validate_json_items : Items → ℕ → ℕ → Result ℕ
    validate_json_items nil depth entries = ok entries
    validate_json_items (cons v vs) depth entries = do
      counted ← count_entry entries
      after ← validate_json_value v (depth + 1) counted
      validate_json_items vs depth after

    -- The loop of `validateJsonObject`.
    pub validate_json_properties : Properties → ℕ → ℕ → Result ℕ
    validate_json_properties end depth entries = ok entries
    validate_json_properties (property key v ps) depth entries = do
      counted ← count_entry entries
      throw_if (length key == 0 || ltb 80 (length key)) "metadata contains an invalid key length"
      throw_if (is_bad_key key) "metadata contains sensitive key"
      after ← validate_json_value v (depth + 1) counted
      validate_json_properties ps depth after

  unfoldable pub validate_metadata : Properties → Result (Unit {0})
  validate_metadata input = do
    entries ← validate_json_value (obj input) 0 0
    throw_if (ltb 16384 (length (utf8_bytes (stringify (obj input)))))
        "metadata exceeds 16384 bytes"
