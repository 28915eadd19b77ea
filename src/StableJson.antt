-- ===== src/StableJson.antt =====
-- `stableJson` and `compareUtf8` of apps/server/src/candidate-selection.ts: JSON text with its keys
-- sorted by their UTF-8 bytes. A property that is undefined is left out of the value.
pub mod Bytes
pub mod Sorting
use agent_airlock.Prelude.{
  ℕ, Bool, true, false, List, [], ◌∷◌, ◌++◌, map, ltb, ◌==◌, ◌&&◌, ◌||◌, if◌then◌else◌, compare,
  Ordering,
}
use agent_airlock.Prelude.Texts.{Text, codes}
use agent_airlock.Canonical.{
  Json, null, bool, num, decimal, str, arr, obj, Items, nil, cons, Properties, end, property,
  print_number, quote, join, utf8_bytes,
}

-- `Buffer.compare`: the first byte that differs decides, then the length.
unfoldable pub compare_bytes : List ℕ → List ℕ → Ordering
compare_bytes [] [] = Ordering.eq
compare_bytes [] (d ∷ t) = Ordering.lt
compare_bytes (c ∷ s) [] = Ordering.gt
compare_bytes (c ∷ s) (d ∷ t) = elim (compare c d) [
  | Ordering.lt ↦ Ordering.lt
  | Ordering.gt ↦ Ordering.gt
  | Ordering.eq ↦ compare_bytes s t
]

unfoldable pub compare_utf8 : Text → Text → Ordering
compare_utf8 left right = compare_bytes (utf8_bytes left) (utf8_bytes right)

abbrev pub is_gt : Ordering → Bool
is_gt Ordering.gt = true
is_gt Ordering.eq = false
is_gt Ordering.lt = false

-- A stable sort by a comparison, as `Array.sort` is.
module _ {ℓ} {A : Type ℓ} (order : A → A → Ordering) where
  unfoldable pub insert : A → List A → List A
  insert a [] = a ∷ []
  insert a (b ∷ l) = if is_gt (order a b) then b ∷ insert a l else a ∷ b ∷ l

  unfoldable pub sort : List A → List A
  unfolding insert
  sort [] = []
  sort (a ∷ l) = insert a (sort l)

abbrev by_key : Text × Text → Text × Text → Ordering
by_key a b = compare_utf8 a.0 b.0

-- JSON text whose object entries are arranged by a function: as they stand for `JSON.stringify`.
module _ (arrange : List (Text × Text) → List (Text × Text)) where
  unfoldable mutual
    unfolding print_number quote join

    pub json_text : Json → Text
    json_text null = codes "null"
    json_text (bool true) = codes "true"
    json_text (bool false) = codes "false"
    json_text (num z) = print_number z
    json_text (decimal t) = t
    json_text (str s) = quote s
    json_text (arr vs) = b'[' ∷ (join (json_items vs) ++ b']' ∷ [])
    json_text (obj ps) =
        b'{' ∷ (join (map (λ e. quote e.0 ++ b':' ∷ e.1) (arrange (json_entries ps))) ++ b'}' ∷ [])

    pub json_items : Items → List Text
    json_items nil = []
    json_items (cons v vs) = json_text v ∷ json_items vs

    pub json_entries : Properties → List (Text × Text)
    json_entries end = []
    json_entries (property k v ps) = (k, json_text v) ∷ json_entries ps

unfoldable pub stable_json : Json → Text
unfolding json_text sort compare_utf8 compare_bytes
stable_json = json_text (sort by_key)
