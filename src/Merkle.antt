-- ===== src/Merkle.antt =====
-- The evidence commitment of packages/portable-promotion-receipt/src/merkle.ts, with the shape checks
-- of its leaves and disclosures from validation.ts. What `assertCredentialFreeText` finds in a text
-- is a parameter.
pub mod Hashes
pub mod Disclosures
pub mod Soundness
pub mod Completeness
pub mod Examples
use agent_airlock.Prelude.{
  ℕ, suc, ◌+◌, Bool, true, false, not, List, [], ◌∷◌, ◌++◌, Option, none, some, length, all, ltb,
  leb, ◌==◌, ◌&&◌, ◌||◌, Ordering,
}
use agent_airlock.Prelude.Int.{pos}
use agent_airlock.Prelude.Texts.{Text, codes, text_eq, includes}
use agent_airlock.Prelude.Results.{Result, ok, thrown, ◌>>=◌, ◌>>◌, throw_if, catch, traverse}
use agent_airlock.Canonical.{Json, null, bool, num, str, obj, fields, canonicalize, utf8_bytes}
use agent_airlock.StableJson.{sort, compare_utf8}
use agent_airlock.Digest.{Sha256, sha256_digest, is_digest, digest_bytes}
use agent_airlock.Selection.{is_identifier}
use agent_airlock.Tree.{Sibling, head?, build_levels, build_siblings, climb}

pub record EvidenceLeaf : Type 0 where
  pub schema_version : ℕ
  pub identity : Text
  pub category : Text
  pub status : Text
  pub required : Bool
  pub duration_ms : Option ℕ
  pub summary : Option Text
  pub value_hash : Text

pub record Disclosure : Type 0 where
  pub leaf : EvidenceLeaf
  pub leaf_index : ℕ
  pub total_leaves : ℕ
  pub siblings : List (Sibling Text)

pub record Commitment : Type 0 where
  pub root : Text
  pub leaves : List EvidenceLeaf
  pub disclosures : List Disclosure

abbrev null_or_num : Option ℕ → Json
null_or_num none = null
null_or_num (some n) = num (pos n)

abbrev null_or_str : Option Text → Json
null_or_str none = null
null_or_str (some t) = str t

abbrev leaf_json : EvidenceLeaf → Json
leaf_json l = obj (
    fields (
      (codes "schemaVersion", num (pos l.schema_version))
      ∷ (codes "identity", str l.identity)
      ∷ (codes "category", str l.category)
      ∷ (codes "status", str l.status)
      ∷ (codes "required", bool l.required)
      ∷ (codes "durationMs", null_or_num l.duration_ms)
      ∷ (codes "summary", null_or_str l.summary)
      ∷ (codes "valueHash", str l.value_hash)
      ∷ []))

abbrev categories : List Text
categories =
    codes "validation" ∷ codes "resource" ∷ codes "external-action" ∷ codes "selection" ∷ []

abbrev statuses : List Text
statuses = codes "passed" ∷ codes "failed" ∷ codes "skipped" ∷ codes "error" ∷ codes "recorded" ∷ []

abbrev is_long : Option ℕ → Bool
is_long none = false
is_long (some n) = ltb 3600000 n

-- The level that `levels.at(-1)` gives.
unfoldable pub last_of : List (List Text) → List Text
last_of [] = []
last_of (level ∷ []) = level
last_of (level ∷ above ∷ more) = last_of (above ∷ more)

abbrev pub root_of : Option Text → Result Text
root_of none = thrown "Evidence tree root is unavailable"
root_of (some root) = ok root

module _ (sha : Sha256) (credential_free : Text → Bool) where
  abbrev pub is_bad_summary : Option Text → Bool
  is_bad_summary none = false
  is_bad_summary (some t) =
      length t == 0 || ltb 500 (length (utf8_bytes t)) || not (credential_free t)

  unfoldable pub assert_portable_evidence_leaf : EvidenceLeaf → Result (Unit {0})
  assert_portable_evidence_leaf l =
      throw_if
        (not (l.schema_version == 1)
          || not (is_identifier l.identity)
          || not (credential_free l.identity)
          || not (includes categories l.category)
          || not (includes statuses l.status)
          || is_long l.duration_ms
          || is_bad_summary l.summary
          || not (is_digest l.value_hash))
        "Portable evidence leaf is invalid"

  unfoldable pub assert_portable_evidence_disclosure : Disclosure → Result (Unit {0})
  assert_portable_evidence_disclosure d = do
    throw_if
        (ltb d.total_leaves 1
          || ltb 10000 d.total_leaves
          || leb d.total_leaves d.leaf_index
          || ltb 32 (length d.siblings))
        "Portable evidence disclosure bounds are invalid"
    assert_portable_evidence_leaf d.leaf
    throw_if (not (all (λ s. is_digest s.hash) d.siblings)) "Portable evidence sibling is invalid"

  unfoldable pub evidence_empty_root : Text
  evidence_empty_root = sha256_digest sha (codes "agent-airlock-evidence-empty-v1" ++ 0 ∷ [])

  unfoldable pub hash_evidence_leaf : EvidenceLeaf → Result Text
  hash_evidence_leaf l = do
    assert_portable_evidence_leaf l
    text ← canonicalize (leaf_json l)
    ok (sha256_digest sha (0 ∷ utf8_bytes text))

  unfoldable pub hash_internal : Text → Text → Text
  hash_internal left right = sha256_digest sha (1 ∷ (digest_bytes left ++ digest_bytes right))

  -- The loop over the sorted leaves, with the identities seen before.
  unfoldable pub check_leaves : List Text → List EvidenceLeaf → Result (Unit {0})
  check_leaves seen [] = ok tt
  check_leaves seen (l ∷ ls) = do
    assert_portable_evidence_leaf l
    throw_if (includes seen l.identity) "Evidence tree contains a duplicate leaf identity"
    check_leaves (l.identity ∷ seen) ls

  abbrev pub disclosure_at : ℕ → List (List Text) → EvidenceLeaf → ℕ → Disclosure
  disclosure_at total levels l index = record {
    leaf = l;
    leaf_index = index;
    total_leaves = total;
    siblings = build_siblings hash_internal levels index;
  }

  -- `sorted.map((leaf, leafIndex) => ...)`, from an index on.
  unfoldable pub disclose : ℕ → List (List Text) → ℕ → List EvidenceLeaf → List Disclosure
  unfolding build_siblings
  disclose total levels index [] = []
  disclose total levels index (l ∷ ls) =
      disclosure_at total levels l index ∷ disclose total levels (index + 1) ls

  abbrev pub sort_leaves : List EvidenceLeaf → List EvidenceLeaf
  sort_leaves = sort (λ a b. compare_utf8 a.identity b.identity)

  unfoldable pub commit : List EvidenceLeaf → Result Commitment
  unfolding build_levels build_siblings
  commit [] = ok (record { root = evidence_empty_root; leaves = []; disclosures = [] })
  commit (l ∷ ls) = do
    hashes ← traverse hash_evidence_leaf (l ∷ ls)
    let levels = build_levels hash_internal (length hashes) hashes
    root ← root_of (head? (last_of levels))
    ok (record {
      root = root;
      leaves = l ∷ ls;
      disclosures = disclose (length (l ∷ ls)) levels 0 (l ∷ ls);
    })

  unfoldable pub build_evidence_commitment : List EvidenceLeaf → Result Commitment
  build_evidence_commitment leaves = do
    throw_if (ltb 10000 (length leaves)) "Evidence tree exceeds the leaf limit"
    check_leaves [] (sort_leaves leaves)
    commit (sort_leaves leaves)

  abbrev ends_at : Text → Option (Text × List (Sibling Text)) → Bool
  ends_at root none = false
  ends_at root (some (hash, unused)) = length unused == 0 && text_eq hash root

  abbrev answer : Disclosure → Text → ℕ → Result Bool
  answer d root count = do
    assert_portable_evidence_disclosure d
    let wrong = not (is_digest root) || not (d.total_leaves == count)
    current ← hash_evidence_leaf d.leaf
    ok (
        not wrong
        && ends_at root
            (climb hash_internal d.total_leaves d.leaf_index d.total_leaves d.siblings current))

  -- Whatever throws answers false.
  unfoldable pub verify_evidence_disclosure : Disclosure → Text → ℕ → Bool
  unfolding climb
  verify_evidence_disclosure d root count = catch (answer d root count) false
