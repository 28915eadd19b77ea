-- ===== src/Canonical.antt =====
-- packages/portable-promotion-receipt/src/canonical.ts: JSON values, the limits that a canonical
-- value keeps, and its canonical text. A property list holds each key once, in insertion order.
-- `JSON.stringify`, `TextEncoder` and the comparison of strings are the language's.
use agent_airlock.Prelude.{
  ℕ, zero, suc, ◌+◌, ◌-◌, ◌*◌, ◌/◌, ◌%◌, Bool, true, false, not, List, [], ◌∷◌, ◌++◌, map, ltb, leb,
  ◌==◌, ◌&&◌, ◌||◌, ◌≡◌, refl, if◌then◌else◌,
}
use agent_airlock.Prelude.Int.{ℤ, pos, negsuc}
use agent_airlock.Prelude.Texts.{Text, codes}
use agent_airlock.Prelude.Results.{Result, ok, thrown, ◌>>=◌, ◌>>◌, throw_if}
use agent_airlock.Digest.{hex_digit}

-- A number is `num` where it is an integer that is printed in plain digits, and else `decimal`, with
-- the text that `JSON.stringify` makes of it.
mutual
  pub data Json : Type 0 where
    null : Json
    bool : Bool → Json
    num : ℤ → Json
    decimal : Text → Json
    str : Text → Json
    arr : Items → Json
    obj : Properties → Json

  pub data Items : Type 0 where
    nil : Items
    cons : Json → Items → Items

  pub data Properties : Type 0 where
    end : Properties
    property : Text → Json → Properties → Properties

unfoldable pub count_items : Items → ℕ
count_items nil = 0
count_items (cons v vs) = suc (count_items vs)

unfoldable pub count_properties : Properties → ℕ
count_properties end = 0
count_properties (property k v ps) = suc (count_properties ps)

abbrev pub is_high_surrogate : ℕ → Bool
is_high_surrogate c = leb 0xd800 c && leb c 0xdbff

abbrev pub is_low_surrogate : ℕ → Bool
is_low_surrogate c = leb 0xdc00 c && leb c 0xdfff

-- `assertValidUnicode`.
unfoldable pub assert_valid_unicode : Text → Result (Unit {0})
assert_valid_unicode [] = ok tt
assert_valid_unicode (c ∷ []) =
    if is_high_surrogate c
    then thrown "JSON string contains an unpaired high surrogate"
    else if is_low_surrogate c
    then thrown "JSON string contains an unpaired low surrogate"
    else ok tt
assert_valid_unicode (c ∷ d ∷ rest) =
    let after_pair = assert_valid_unicode rest in
    let after_one = assert_valid_unicode (d ∷ rest) in
    if is_high_surrogate c
    then (if is_low_surrogate d
        then after_pair
        else thrown "JSON string contains an unpaired high surrogate")
    else if is_low_surrogate c
    then thrown "JSON string contains an unpaired low surrogate"
    else after_one

abbrev pub is_safe_integer : ℤ → Bool
is_safe_integer (pos n) = leb n 9007199254740991
is_safe_integer (negsuc n) = ltb n 9007199254740991

-- The depth and node limits, which every value passes on entry; the count of nodes so far.
unfoldable pub enter : ℕ → ℕ → Result ℕ
enter depth nodes = do
  throw_if (ltb 64 depth) "JSON value exceeds the depth limit"
  throw_if (ltb 50000 (nodes + 1)) "JSON value exceeds the node limit"
  ok (nodes + 1)

-- `assertCanonicalJsonValueWithinBudget`, with the budget's count of nodes passed on.
unfoldable mutual
  unfolding count_items count_properties enter assert_valid_unicode

  pub assert_within_budget : Json → ℕ → ℕ → Result ℕ
  assert_within_budget null depth nodes = enter depth nodes
  assert_within_budget (bool b) depth nodes = enter depth nodes
  assert_within_budget (str s) depth nodes =
      enter depth nodes >>= λ n. assert_valid_unicode s >> ok n
  assert_within_budget (num z) depth nodes = enter depth nodes >>= λ n.
      throw_if (not (is_safe_integer z)) "JSON numbers must be safe integers" >> ok n
  assert_within_budget (decimal t) depth nodes =
      enter depth nodes >>= λ n. thrown "JSON numbers must be safe integers"
  assert_within_budget (arr vs) depth nodes = enter depth nodes >>= λ n.
      throw_if (ltb 50000 (count_items vs)) "JSON array exceeds the item limit"
      >> assert_items vs (depth + 1) n
  assert_within_budget (obj ps) depth nodes = enter depth nodes >>= λ n.
      throw_if (ltb 50000 (count_properties ps)) "JSON object exceeds the property limit"
      >> assert_properties ps (depth + 1) n

  pub assert_items : Items → ℕ → ℕ → Result ℕ
  assert_items nil depth nodes = ok nodes
  assert_items (cons v vs) depth nodes =
      assert_within_budget v depth nodes >>= λ n. assert_items vs depth n

  pub assert_properties : Properties → ℕ → ℕ → Result ℕ
  assert_properties end depth nodes = ok nodes
  assert_properties (property k v ps) depth nodes =
      assert_valid_unicode k
      >> (assert_within_budget v depth nodes >>= λ n. assert_properties ps depth n)

unfoldable pub assert_canonical_json_value : Json → Result ℕ
unfolding assert_within_budget
assert_canonical_json_value value = assert_within_budget value 0 0

-- The decimal digits of a number; the number itself is enough fuel.
unfoldable pub digits : ℕ → ℕ → Text
digits zero n = (48 + n % 10) ∷ []
digits (suc f) n = elim (ltb n 10) [
  | true ↦ (48 + n) ∷ []
  | false ↦ digits f (n / 10) ++ (48 + n % 10) ∷ []
]

unfoldable pub print_number : ℤ → Text
unfolding digits
print_number (pos n) = digits n n
print_number (negsuc n) = b'-' ∷ digits (suc n) (suc n)

abbrev starts_low : Text → Bool
starts_low [] = false
starts_low (c ∷ s) = is_low_surrogate c

-- A half without the other one, told by the code units before and after it.
abbrev is_unpaired : Bool → ℕ → Text → Bool
is_unpaired after_high c rest =
    is_high_surrogate c && not (starts_low rest) || is_low_surrogate c && not after_high

-- `JSON.stringify` of one code unit inside a string.
unfoldable pub escape : Bool → ℕ → Text
unfolding hex_digit
escape unpaired c =
    if c == 34
    then codes "\\\""
    else if c == 92
    then codes "\\\\"
    else if c == 8
    then codes "\\b"
    else if c == 9
    then codes "\\t"
    else if c == 10
    then codes "\\n"
    else if c == 12
    then codes "\\f"
    else if c == 13
    then codes "\\r"
    else if ltb c 32
    then codes "\\u00" ++ hex_digit (c / 16) ∷ hex_digit (c % 16) ∷ []
    else if unpaired
    then codes "\\ud"
      ++ hex_digit (c / 256 % 16) ∷ hex_digit (c / 16 % 16) ∷ hex_digit (c % 16) ∷ []
    else c ∷ []

-- From a code unit on, whether a high half stands before it.
unfoldable pub escape_from : Bool → Text → Text
unfolding escape
escape_from after_high [] = []
escape_from after_high (c ∷ s) =
    escape (is_unpaired after_high c s) c ++ escape_from (is_high_surrogate c) s

unfoldable pub quote : Text → Text
unfolding escape_from
quote s = 34 ∷ (escape_from false s ++ 34 ∷ [])

-- `left < right` on strings compares their code units in order.
unfoldable pub text_lt : Text → Text → Bool
text_lt [] [] = false
text_lt [] (d ∷ t) = true
text_lt (c ∷ s) [] = false
text_lt (c ∷ s) (d ∷ t) = ltb c d || c == d && text_lt s t

-- `keys.sort(compareUtf16)`, on the keys with what is printed for them.
unfoldable pub insert_key : Text × Text → List (Text × Text) → List (Text × Text)
insert_key e [] = e ∷ []
insert_key e (f ∷ rest) = if text_lt f.0 e.0 then f ∷ insert_key e rest else e ∷ f ∷ rest

unfoldable pub sort_keys : List (Text × Text) → List (Text × Text)
unfolding insert_key text_lt
sort_keys [] = []
sort_keys (e ∷ rest) = insert_key e (sort_keys rest)

-- `.join(",")`.
unfoldable pub join : List Text → Text
join [] = []
join (t ∷ []) = t
join (t ∷ u ∷ rest) = t ++ b',' ∷ join (u ∷ rest)

unfoldable mutual
  unfolding print_number quote sort_keys join

  pub serialize : Json → Text
  serialize null = codes "null"
  serialize (bool true) = codes "true"
  serialize (bool false) = codes "false"
  serialize (num z) = print_number z
  serialize (decimal t) = t
  serialize (str s) = quote s
  serialize (arr vs) = b'[' ∷ (join (serialize_items vs) ++ b']' ∷ [])
  serialize (obj ps) =
      b'{'
      ∷ (join (map (λ e. quote e.0 ++ b':' ∷ e.1) (sort_keys (serialize_properties ps)))
          ++ b'}' ∷ [])

  pub serialize_items : Items → List Text
  serialize_items nil = []
  serialize_items (cons v vs) = serialize v ∷ serialize_items vs

  pub serialize_properties : Properties → List (Text × Text)
  serialize_properties end = []
  serialize_properties (property k v ps) = (k, serialize v) ∷ serialize_properties ps

-- `canonicalize`.
unfoldable pub canonicalize : Json → Result Text
unfolding assert_canonical_json_value serialize
canonicalize value = assert_canonical_json_value value >>= λ _. ok (serialize value)

-- `TextEncoder.encode` and `Buffer.from(text, "utf8")`.
unfoldable pub utf8_unit : ℕ → List ℕ
utf8_unit c =
    if ltb c 0x80
    then c ∷ []
    else if ltb c 0x800
    then (192 + c / 64) ∷ (128 + c % 64) ∷ []
    else if leb 0xd800 c && leb c 0xdfff
    then 239 ∷ 191 ∷ 189 ∷ []
    else (224 + c / 4096) ∷ (128 + c / 64 % 64) ∷ (128 + c % 64) ∷ []

unfoldable pub utf8_pair : ℕ → ℕ → List ℕ
utf8_pair c d =
    let point = 0x10000 + (c - 0xd800) * 1024 + (d - 0xdc00) in
    (240 + point / 262144)
    ∷ (128 + point / 4096 % 64)
    ∷ (128 + point / 64 % 64)
    ∷ (128 + point % 64)
    ∷ []

unfoldable pub utf8_bytes : Text → List ℕ
unfolding utf8_unit utf8_pair
utf8_bytes [] = []
utf8_bytes (c ∷ []) = utf8_unit c
utf8_bytes (c ∷ d ∷ rest) =
    let after_pair = utf8_bytes rest in
    let after_one = utf8_bytes (d ∷ rest) in
    if is_high_surrogate c && is_low_surrogate d
    then utf8_pair c d ++ after_pair
    else utf8_unit c ++ after_one

-- Small objects: `{ schemaVersion: 1, ... }`.
abbrev pub fields : List (Text × Json) → Properties
fields [] = end
fields ((k, v) ∷ rest) = property k v (fields rest)

sample : Json
sample = obj (
    fields
      ((codes "b", num (negsuc 11)) ∷ (codes "a", arr (cons (bool true) (cons null nil))) ∷ []))

canonicalize-sample : canonicalize sample ≡ ok (codes "{\"a\":[true,null],\"b\":-12}")
unfolding canonicalize sample
canonicalize-sample = refl
