-- ===== src/Merkle/Soundness.antt =====
-- What a disclosure that `verifyEvidenceDisclosure` accepts discloses
-- (packages/portable-promotion-receipt/src/merkle.ts).
use agent_airlock.Prelude.{
  ℕ, zero, suc, ◌+◌, ◌≡◌, refl, sym, ap, ap₂, ◌∙◌, subst, Memᴰ, All, All-of_Memᴰ, ◌∷◌, ◌⊎◌, inl,
  inr, Bool, true, List, [], some, length, get_elem?, get_elem?_lt, arith,
}
use agent_airlock.Prelude.Texts.{Text}
use agent_airlock.Prelude.Results.{ok, catch, get_elem?-traverse, length-traverse, traverse-All}
use agent_airlock.Digest.{Sha256, Collision, IsDigest}
use agent_airlock.Tree.{tree_root, path_from, build_levels, climb}
use agent_airlock.Tree.Notes.{walk_notes}
use agent_airlock.Tree.Inclusion.{build_siblings-build_levels}
use agent_airlock.Tree.WalkBinding.{walks_binding}
use agent_airlock.Merkle.{
  EvidenceLeaf, Disclosure, Commitment, disclosure_at, disclose, build_evidence_commitment,
  verify_evidence_disclosure,
}
use agent_airlock.Merkle.Hashes.{
  disclosure_messages, node_message, leaf_bytes, node_P, node_split, leaf_P, leaf_split,
}
use agent_airlock.Merkle.Disclosures.{
  hash_leaf, node, IsTree, build_evidence_commitment-cases, verify-cases,
}

zero_add : (j : ℕ) → 0 + j ≡ j
zero_add j = omega arith

module _ (sha : Sha256) (credential_free : Text → Bool) where
  -- The disclosed leaf is that of the commitment at the same index, by its canonical JSON.
  abbrev pub IsDisclosed : Commitment → Disclosure → Type 0
  IsDisclosed c d =
      (l : EvidenceLeaf) × (get_elem? c.leaves d.leaf_index ≡ some l)
      × (leaf_bytes d.leaf ≡ leaf_bytes l)

  -- The disclosure that the commitment has at an index.
  get_elem?-disclose :
      (total : ℕ) (levels : List (List Text)) (k : ℕ) (ls : List EvidenceLeaf) (i : ℕ)
      (l : EvidenceLeaf)
      → get_elem? ls i ≡ some l
      → get_elem? (disclose sha credential_free total levels k ls) i
        ≡ some (disclosure_at sha credential_free total levels l (k + i))
  unfolding disclose
  get_elem?-disclose total levels k [] i l h = absurd (cc)
  get_elem?-disclose total levels k (m ∷ ls) zero l h =
      let index : k ≡ k + 0 = omega arith in
      let same : m ≡ l = cc h in
      ap₂ (λ n j. some (disclosure_at sha credential_free total levels n j)) same index
  get_elem?-disclose total levels k (m ∷ ls) (suc i) l h =
      let index : k + 1 + i ≡ k + suc i = omega arith in
      get_elem?-disclose total levels (k + 1) ls i l h
      ∙ ap (λ j. some (disclosure_at sha credential_free total levels l j)) index

  walked :
      (Q : List ℕ → Type 0) (d : Disclosure) (x : Text)
      → hash_leaf sha credential_free d.leaf ≡ ok x
      → All Q (
          walk_notes
            (node sha credential_free)
            node_message
            d.total_leaves
            d.leaf_index
            d.total_leaves
            d.siblings
            (catch (hash_leaf sha credential_free d.leaf) []))
      → All Q (
          walk_notes
            (node sha credential_free)
            node_message
            d.total_leaves
            d.leaf_index
            d.total_leaves
            d.siblings
            x)
  walked Q d x leaf h =
      subst
        (λ z. All Q (
          walk_notes (node sha credential_free) node_message d.total_leaves d.leaf_index
            d.total_leaves d.siblings z))
        (ap (λ o. catch o []) leaf) h

  -- An accepted disclosure and the commitment's own at its index.
  disclosures_binding :
      (d q : Disclosure) (level : List Text) (x y r : Text)
      → All IsDigest level
      → All (λ s. IsDigest s.hash) d.siblings
      → hash_leaf sha credential_free d.leaf ≡ ok x
      → hash_leaf sha credential_free q.leaf ≡ ok y
      → d.total_leaves ≡ length level
      → q.total_leaves ≡ length level
      → q.leaf_index ≡ d.leaf_index
      → q.siblings ≡ path_from (node sha credential_free) (length level) level d.leaf_index
      → get_elem? level d.leaf_index ≡ some y
      → tree_root (node sha credential_free) level ≡ some r
      → climb (node sha credential_free) d.total_leaves d.leaf_index d.total_leaves d.siblings x
        ≡ some (r, [])
      → (leaf_bytes d.leaf ≡ leaf_bytes q.leaf)
        ⊎ Collision sha
            (disclosure_messages sha credential_free d)
            (disclosure_messages sha credential_free q)
  disclosures_binding d q level x y r pl ps leaf hashed width width' index path at top walk =
      let ms = disclosure_messages sha credential_free d in
      let ns = disclosure_messages sha credential_free q in
      let L : List ℕ → Type 0 = λ m. Memᴰ m ms in
      let R : List ℕ → Type 0 = λ m. Memᴰ m ns in
      let (first, rest) = All-of_Memᴰ L ms (λ m h. h) in
      let (first', rest') = All-of_Memᴰ R ns (λ m h. h) in
      elim (walks_binding (node sha credential_free) node_message IsDigest L R (Collision sha ms ns)
        (node_P sha credential_free) (node_split sha credential_free ms ns) level d.leaf_index
        q.leaf_index d.total_leaves q.total_leaves d.siblings q.siblings x y r pl ps
        (leaf_P sha credential_free d.leaf x leaf) (leaf_P sha credential_free q.leaf y hashed)
        width width' index path (walked L d x leaf rest) (walked R q y hashed rest') at top walk) [
          | inr found ↦ inr found
          | inl same ↦
              leaf_split sha credential_free ms ns d.leaf q.leaf x first first' leaf
                (hashed ∙ ap ok (sym same))
        ]

  -- The commitment has a disclosure at the index, and the two walks hash two different messages to
  -- one hash.
  abbrev pub HasCollision : Commitment → Disclosure → Type 0
  HasCollision c d =
      (q : Disclosure) × (get_elem? c.disclosures d.leaf_index ≡ some q)
      × Collision sha (disclosure_messages sha credential_free d)
          (disclosure_messages sha credential_free q)

  IsTree-IsDisclosed :
      (c : Commitment) (d : Disclosure) (level : List Text)
      → IsTree sha credential_free c level
      → verify_evidence_disclosure sha credential_free d c.root (length c.leaves) ≡ true
      → IsDisclosed c d ⊎ HasCollision c d
  IsTree-IsDisclosed c d level (hashes, top, shape) h =
      let (x, hashed, size, below, digests, walk) =
        verify-cases sha credential_free d c.root (length c.leaves) h in
      let (l, there) = get_elem?_lt c.leaves d.leaf_index below in
      let (y, at, leaf) =
        get_elem?-traverse (hash_leaf sha credential_free) c.leaves level d.leaf_index l hashes
          there in
      let counted = length-traverse (hash_leaf sha credential_free) c.leaves level hashes in
      let levels = build_levels (node sha credential_free) (length level) level in
      let q = disclosure_at sha credential_free (length c.leaves) levels l d.leaf_index in
      elim (disclosures_binding d q level x y c.root
        (traverse-All (hash_leaf sha credential_free) IsDigest (leaf_P sha credential_free) c.leaves
          level hashes)
        digests hashed leaf (size ∙ sym counted) (sym counted) refl
        (build_siblings-build_levels (node sha credential_free) (length level) level d.leaf_index
          (omega arith))
        at top walk) [
          | inl bytes ↦ inl (l, there, bytes)
          | inr found ↦ inr (
            q,
            ap (λ ds. get_elem? ds d.leaf_index) shape
                ∙ get_elem?-disclose (length c.leaves) levels 0 c.leaves d.leaf_index l there
                ∙ ap (λ j. some (disclosure_at sha credential_free (length c.leaves) levels l j))
                    (zero_add d.leaf_index),
            found,
          )
        ]

  -- A disclosure that is accepted against the root and the leaf count of a commitment has the
  -- canonical JSON of the commitment's leaf at its index, or the walk along it and the walk along
  -- the commitment's own disclosure at that index hash two different messages to one hash.
  pub verify_evidence_disclosure_sound :
      (leaves : List EvidenceLeaf) (c : Commitment) (d : Disclosure)
      → build_evidence_commitment sha credential_free leaves ≡ ok c
      → verify_evidence_disclosure sha credential_free d c.root (length c.leaves) ≡ true
      → IsDisclosed c d ⊎ HasCollision c d
  verify_evidence_disclosure_sound leaves c d built h =
      let (_, shape) = build_evidence_commitment-cases sha credential_free leaves c built in
      elim shape [
        | inl (nothing, _) ↦
            let (_, _, _, below, _, _) =
              verify-cases sha credential_free d c.root (length c.leaves) h in
            absurd (omega (arith, ap length nothing, below))
        | inr (level, tree) ↦ IsTree-IsDisclosed c d level tree h
      ]
