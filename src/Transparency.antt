-- ===== src/Transparency.antt =====
-- The transparency tree of packages/portable-promotion-receipt/src/transparency.ts: its hashes, its
-- root, the accumulator of the root, and inclusion proofs.
pub mod Hashes
pub mod Roots
pub mod Inclusion
pub mod Examples
use agent_airlock.Prelude.{
  ℕ, suc, ◌+◌, Bool, true, false, not, List, [], ◌∷◌, ◌++◌, Option, none, some, length, get_elem?,
  all, ltb, leb, ◌==◌, ◌&&◌, ◌||◌, if◌then◌else◌,
}
use agent_airlock.Prelude.Texts.{Text, codes, text_eq}
use agent_airlock.Prelude.Results.{Result, ok, thrown, ◌>>=◌, ◌>>◌, throw_if, catch, traverse}
use agent_airlock.Time.{is_timestamp}
use agent_airlock.Digest.{Sha256, sha256_digest, is_digest, digest_bytes}
use agent_airlock.Tree.{Sibling, tree_root, path_from, climb}
use agent_airlock.Tree.Frontier.{carry, frontier_root}

abbrev pub leaf_domain : List ℕ
leaf_domain = codes "agent-airlock-transparency-leaf-v1" ++ 0 ∷ []

abbrev pub node_domain : List ℕ
node_domain = codes "agent-airlock-transparency-node-v1" ++ 0 ∷ []

abbrev pub empty_domain : List ℕ
empty_domain = codes "agent-airlock-transparency-empty-v1" ++ 0 ∷ []

-- The frontier and the count of `TransparencyRootAccumulator`.
pub record Accumulator : Type 0 where
  pub frontier : List (Option Text)
  pub count : ℕ

pub record InclusionProof : Type 0 where
  pub receipt_digest : Text
  pub leaf_index : ℕ
  pub tree_size : ℕ
  pub siblings : List (Sibling Text)

-- `level[0]!`: the level is never empty where this is read.
abbrev pub first : Option Text → Result Text
first (some root) = ok root
first none = thrown "Transparency level is empty"

abbrev pub new_accumulator : Accumulator
new_accumulator = record { frontier = []; count = 0 }

pub record Checkpoint : Type 0 where
  pub schema : Text
  pub schema_version : ℕ
  pub tree_size : ℕ
  pub root : Text
  pub prior_checkpoint_digest : Option Text
  pub created_at : Text
  pub key_id : Text

-- A field that is null or a digest.
abbrev pub null_or_digest : Option Text → Bool
null_or_digest none = true
null_or_digest (some d) = is_digest d

abbrev pub checkpoint_schema : Text
checkpoint_schema = codes "agent-airlock/portable-transparency-checkpoint"

-- `assertTransparencyCheckpoint`, as the test that it throws by.
unfoldable pub is_checkpoint : Checkpoint → Bool
is_checkpoint c =
    text_eq c.schema checkpoint_schema
    && c.schema_version == 1
    && leb c.tree_size 100000
    && is_digest c.root
    && null_or_digest c.prior_checkpoint_digest
    && is_timestamp c.created_at
    && is_digest c.key_id

-- `assertTransparencyInclusionProof`, likewise; the siblings are tested one by one.
unfoldable pub is_inclusion_proof : InclusionProof → Bool
is_inclusion_proof p =
    is_digest p.receipt_digest
    && leb 1 p.tree_size
    && leb p.tree_size 100000
    && ltb p.leaf_index p.tree_size
    && leb (length p.siblings) 32
    && all (λ s. is_digest s.hash) p.siblings

module _ (sha : Sha256) where
  unfoldable pub hash_transparency_leaf : Text → Result Text
  hash_transparency_leaf digest = do
    throw_if (not (is_digest digest)) "Transparency leaf digest is invalid"
    ok (sha256_digest sha (leaf_domain ++ digest_bytes digest))

  unfoldable pub hash_transparency_node : Text → Text → Text
  hash_transparency_node left right =
      sha256_digest sha (node_domain ++ digest_bytes left ++ digest_bytes right)

  unfoldable pub empty_root : Text
  empty_root = sha256_digest sha empty_domain

  unfoldable pub transparency_root : List Text → Result Text
  transparency_root [] = ok empty_root
  transparency_root (d ∷ ds) = do
    throw_if (ltb 100000 (length (d ∷ ds))) "Transparency tree exceeds its entry boundary"
    level ← traverse hash_transparency_leaf (d ∷ ds)
    first (tree_root hash_transparency_node level)

  -- `root`.
  unfoldable pub root : Accumulator → Result Text
  root a =
      if a.count == 0
      then ok empty_root
      else first (frontier_root hash_transparency_node a.frontier none)

  -- `append`: the new state and its root. The hash of the leaf throws before any state is changed.
  unfoldable pub append : Accumulator → Text → Result (Accumulator × Text)
  append a receipt_digest = do
    hash ← hash_transparency_leaf receipt_digest
    let next = record a {
      frontier = carry hash_transparency_node a.frontier hash;
      count = a.count + 1;
    }
    r ← root next
    ok (next, r)

  -- A log that appends its receipts one after the other, and reads the root of the last state.
  unfoldable pub append_all : Accumulator → List Text → Result Accumulator
  append_all a [] = ok a
  append_all a (d ∷ ds) = append a d >>= λ s. append_all s.0 ds

  unfoldable pub create_transparency_inclusion_proof : List Text → ℕ → Result InclusionProof
  create_transparency_inclusion_proof digests leaf_index = elim (get_elem? digests leaf_index) [
    | none ↦ thrown "Transparency inclusion index is invalid"
    | some receipt_digest ↦ do
      level ← traverse hash_transparency_leaf digests
      ok (record {
        receipt_digest = receipt_digest;
        leaf_index = leaf_index;
        tree_size = length digests;
        siblings = path_from hash_transparency_node (length level) level leaf_index;
      })
  ]

  -- The walk from the leaf, after the guards.
  unfoldable pub walks_to : InclusionProof → Text → Bool
  walks_to p root_digest = elim (hash_transparency_leaf p.receipt_digest) [
    | thrown _ ↦ false
    | ok leaf ↦
        elim (climb hash_transparency_node p.tree_size p.leaf_index p.tree_size p.siblings leaf) [
          | none ↦ false
          | some (hash, unused) ↦ length unused == 0 && text_eq hash root_digest
        ]
  ]

  -- `verifyTransparencyInclusion`: whatever throws answers false.
  unfoldable pub verify_transparency_inclusion : InclusionProof → Checkpoint → Bool
  verify_transparency_inclusion p c =
      is_inclusion_proof p && is_checkpoint c && p.tree_size == c.tree_size && walks_to p c.root
