-- ===== src/Resources/Metadata/Bounds.antt =====
-- The bounds that `validateMetadata` puts on metadata.
use agent_airlock.Prelude.{ℕ, ◌+◌, ◌≤◌, ◌≡◌, length, ltb, ◌==◌, ◌||◌, arith}
use agent_airlock.Prelude.Results.{ok, throw_if, >>=-eq_ok, ok-injective, throw_if_done}
use agent_airlock.Canonical.{
  Json, null, bool, num, decimal, str, arr, obj, Items, nil, cons, Properties, end, property,
  count_items, utf8_bytes,
}
use agent_airlock.Resources.{Patterns}
use agent_airlock.Resources.Metadata.{
  stringify, is_bad_key, count_entry, validate_json_value, validate_json_items,
  validate_json_properties, validate_metadata,
}

-- The array items and object entries of a value, at every depth.
abbrev mutual
  pub entries_of : Json → ℕ
  entries_of null = 0
  entries_of (bool b) = 0
  entries_of (num z) = 0
  entries_of (decimal t) = 0
  entries_of (str s) = 0
  entries_of (arr vs) = entries_of_items vs
  entries_of (obj ps) = entries_of_properties ps

  pub entries_of_items : Items → ℕ
  entries_of_items nil = 0
  entries_of_items (cons v vs) = 1 + entries_of v + entries_of_items vs

  pub entries_of_properties : Properties → ℕ
  entries_of_properties end = 0
  entries_of_properties (property key v ps) = 1 + entries_of v + entries_of_properties ps

module _ (patterns : Patterns) where
  count_entry_lem : (n m : ℕ) → count_entry patterns n ≡ ok m → (m ≡ n + 1) × (m ≤ 128)
  unfolding count_entry
  count_entry_lem n m h = ground (arith, h)

  mutual
    unfolding validate_json_value validate_json_items validate_json_properties

    validate_json_value-entries_of :
        (v : Json) (depth n m : ℕ)
        → n ≤ 128
        → validate_json_value patterns v depth n ≡ ok m
        → (m ≡ n + entries_of v) × (m ≤ 128)
    validate_json_value-entries_of null depth n m small h = ground (arith, ok-injective h)
    validate_json_value-entries_of (bool b) depth n m small h = ground (arith, ok-injective h)
    validate_json_value-entries_of (num z) depth n m small h = ground (arith, ok-injective h)
    validate_json_value-entries_of (decimal t) depth n m small h = ground (arith, ok-injective h)
    validate_json_value-entries_of (str s) depth n m small h =
        let (_, _, r1) =
          >>=-eq_ok (throw_if (ltb 4096 (length s)) "metadata exceeds 4096 characters") _ h in
        let (_, _, r2) =
          >>=-eq_ok
            (throw_if (patterns.sensitive_value s) "metadata contains a credential-like value") _
            r1 in
        ground (arith, ok-injective r2)
    validate_json_value-entries_of (arr vs) depth n m small h =
        let (_, _, r1) =
          >>=-eq_ok (throw_if (ltb 8 depth) "metadata exceeds maximum JSON depth 8") _ h in
        let (_, _, r2) =
          >>=-eq_ok (throw_if (ltb 128 (count_items vs)) "metadata exceeds 128 array items") _ r1 in
        validate_json_items-entries_of vs depth n m small r2
    validate_json_value-entries_of (obj ps) depth n m small h =
        let (_, _, r1) =
          >>=-eq_ok (throw_if (ltb 8 depth) "metadata exceeds maximum JSON depth 8") _ h in
        validate_json_properties-entries_of ps depth n m small r1

    validate_json_items-entries_of :
        (vs : Items) (depth n m : ℕ)
        → n ≤ 128
        → validate_json_items patterns vs depth n ≡ ok m
        → (m ≡ n + entries_of_items vs) × (m ≤ 128)
    validate_json_items-entries_of nil depth n m small h = ground (arith, ok-injective h)
    validate_json_items-entries_of (cons v vs) depth n m small h =
        let (k, counted, r1) = >>=-eq_ok (count_entry patterns n) _ h in
        let (made, within) = count_entry_lem n k counted in
        let (j, inner, r2) = >>=-eq_ok (validate_json_value patterns v (depth + 1) k) _ r1 in
        let (more, below) = validate_json_value-entries_of v (depth + 1) k j within inner in
        let (rest, last) = validate_json_items-entries_of vs depth j m below r2 in
        (omega (arith, made, more, rest), last)

    validate_json_properties-entries_of :
        (ps : Properties) (depth n m : ℕ)
        → n ≤ 128
        → validate_json_properties patterns ps depth n ≡ ok m
        → (m ≡ n + entries_of_properties ps) × (m ≤ 128)
    validate_json_properties-entries_of end depth n m small h = ground (arith, ok-injective h)
    validate_json_properties-entries_of (property key v ps) depth n m small h =
        let (k, counted, r1) = >>=-eq_ok (count_entry patterns n) _ h in
        let (made, within) = count_entry_lem n k counted in
        let (_, _, r2) =
          >>=-eq_ok
            (throw_if (length key == 0 || ltb 80 (length key))
              "metadata contains an invalid key length")
            _ r1 in
        let (_, _, r3) =
          >>=-eq_ok (throw_if (is_bad_key patterns key) "metadata contains sensitive key") _ r2 in
        let (j, inner, r4) = >>=-eq_ok (validate_json_value patterns v (depth + 1) k) _ r3 in
        let (more, below) = validate_json_value-entries_of v (depth + 1) k j within inner in
        let (rest, last) = validate_json_properties-entries_of ps depth j m below r4 in
        (omega (arith, made, more, rest), last)

  -- Accepted metadata has at most 128 items and entries at all depths together, and its text at
  -- most 16384 bytes.
  pub validate_metadata-entries_of :
      (input : Properties)
      → validate_metadata patterns input ≡ ok tt
      → (entries_of_properties input ≤ 128) × (length (utf8_bytes (stringify (obj input))) ≤ 16384)
  unfolding validate_metadata
  validate_metadata-entries_of input h =
      let (m, counted, last) = >>=-eq_ok (validate_json_value patterns (obj input) 0 0) _ h in
      let (made, within) = validate_json_value-entries_of (obj input) 0 0 m (omega arith) counted in
      (omega (arith, made, within), ground (arith, throw_if_done _ _ last))
