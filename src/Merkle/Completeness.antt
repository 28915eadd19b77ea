-- ===== src/Merkle/Completeness.antt =====
-- `verifyEvidenceDisclosure` accepts what `buildEvidenceCommitment` discloses
-- (packages/portable-promotion-receipt/src/merkle.ts).
use agent_airlock.Prelude.{
  ℕ, zero, suc, ◌+◌, ◌≤◌, ◌≡◌, refl, sym, ap, ◌∙◌, subst, inl, inr, Bool, true, false, List, [],
  ◌∷◌, Option, some, length, get_elem?, lt_of_get_elem?, all, All, ltb, leb, ◌==◌, ◌||◌, arith,
}
use agent_airlock.Prelude.Texts.{Text, text_eq_refl}
use agent_airlock.Prelude.Results.{ok, traverse, get_elem?-traverse, length-traverse, traverse-All}
use agent_airlock.Digest.{Sha256, is_digest, IsDigest}
use agent_airlock.Tree.{
  Sibling, tree_root, head?, last_level, next_level, build_levels, build_siblings, path_from, climb,
}
use agent_airlock.Tree.Digests.{AllDigests-all}
use agent_airlock.Tree.Binding.{next_level-All}
use agent_airlock.Tree.Inclusion.{
  last_level_round, climb-path_from, length-path_from, build_siblings-build_levels,
}
use agent_airlock.Tree.Walks.{path_from-All}
use agent_airlock.Merkle.{
  EvidenceLeaf, Disclosure, Commitment, assert_portable_evidence_leaf,
  assert_portable_evidence_disclosure, disclosure_at, disclose, build_evidence_commitment,
  verify_evidence_disclosure,
}
use agent_airlock.Merkle.Hashes.{node_P, leaf_P, hash_evidence_leaf-cases}
use agent_airlock.Merkle.Disclosures.{hash_leaf, node, build_evidence_commitment-cases}

accept_lem :
    (sha : Sha256) (credential_free : Text → Bool)
    → (d : Disclosure) (root : Text) (count : ℕ) (x : Text)
    → (ltb d.total_leaves 1
        || ltb 10000 d.total_leaves
        || leb d.total_leaves d.leaf_index
        || ltb 32 (length d.siblings))
      ≡ false
    → assert_portable_evidence_leaf sha credential_free d.leaf ≡ ok tt
    → all (λ s. is_digest s.hash) d.siblings ≡ true
    → hash_leaf sha credential_free d.leaf ≡ ok x
    → is_digest root ≡ true
    → (d.total_leaves == count) ≡ true
    → climb (node sha credential_free) d.total_leaves d.leaf_index d.total_leaves d.siblings x
      ≡ some (root, [])
    → verify_evidence_disclosure sha credential_free d root count ≡ true
unfolding verify_evidence_disclosure assert_portable_evidence_disclosure
accept_lem sha credential_free d root count x bounds good digests hashed rooted size walk =
    rw (bounds, good, digests, hashed, rooted, size, walk) (text_eq_refl root)

module _ (sha : Sha256) (credential_free : Text → Bool) where
  last_level-All :
      (f : ℕ) (l : List Text)
      → All IsDigest l
      → All IsDigest (last_level (node sha credential_free) f l)
  last_level-All zero l h = unfold last_level in h
  last_level-All (suc f) [] h = unfold last_level in h
  last_level-All (suc f) (a ∷ []) h = unfold last_level in h
  last_level-All (suc f) (a ∷ b ∷ l) h = rw last_level_round (
      last_level-All f (node sha credential_free a b ∷ next_level (node sha credential_free) l) (
        unfold next_level in
        next_level-All (node sha credential_free) IsDigest (node_P sha credential_free) (a ∷ b ∷ l)
          h))

  head?-All : (l : List Text) (r : Text) → All IsDigest l → head? l ≡ some r → IsDigest r
  unfolding head?
  head?-All [] r h e = absurd (cc)
  head?-All (a ∷ l) r h e = let same : a ≡ r = cc in ap is_digest (sym same) ∙ h.0

  get_elem?-disclose :
      (total : ℕ) (levels : List (List Text)) (k : ℕ) (ls : List EvidenceLeaf) (i : ℕ)
      (d : Disclosure)
      → get_elem? (disclose sha credential_free total levels k ls) i ≡ some d
      → (l : EvidenceLeaf) × (get_elem? ls i ≡ some l)
        × (disclosure_at sha credential_free total levels l (k + i) ≡ d)
  unfolding disclose
  get_elem?-disclose total levels k [] i d h = absurd (cc)
  get_elem?-disclose total levels k (l ∷ ls) zero d h =
      let index : k + 0 ≡ k = omega arith in
      let first : disclosure_at sha credential_free total levels l k ≡ d = cc h in
      (l, refl, rw index first)
  get_elem?-disclose total levels k (l ∷ ls) (suc i) d h =
      let (found, at, made) = get_elem?-disclose total levels (k + 1) ls i d h in
      let index : k + suc i ≡ k + 1 + i = omega arith in (found, at, rw index made)

  module _ (leaves : List EvidenceLeaf) (level : List Text) (root : Text)
      (hashes : traverse (hash_leaf sha credential_free) leaves ≡ ok level)
      (top : tree_root (node sha credential_free) level ≡ some root)
      (small : length leaves ≤ 10000) where
    abbrev levels : List (List Text)
    levels = build_levels (node sha credential_free) (length level) level

    width : length level ≡ length leaves
    width = length-traverse (hash_leaf sha credential_free) leaves level hashes

    digests : All IsDigest level
    digests =
        traverse-All (hash_leaf sha credential_free) IsDigest (leaf_P sha credential_free) leaves
          level hashes

    root-IsDigest : IsDigest root
    unfolding tree_root
    root-IsDigest =
        head?-All (last_level (node sha credential_free) (length level) level) root
          (last_level-All (length level) level digests) top

    path_at : ℕ → List (Sibling Text)
    path_at i = path_from (node sha credential_free) (length level) level i

    -- The walk of the verifier along a leaf's path.
    path_at-climb :
        (i : ℕ) (x : Text)
        → get_elem? level i ≡ some x
        → climb (node sha credential_free) (length leaves) i (length leaves) (path_at i) x
          ≡ some (root, [])
    unfolding tree_root head? path_at
    path_at-climb i x at =
        let (r, walk, last) =
          climb-path_from (node sha credential_free) (length level) level i x at (omega arith) in
        let roots : ◌≡◌ {A = Option Text} (some r) (some root) = rw last at top in
        let same : r ≡ root = cc in
        subst (λ w. climb (node sha credential_free) w i w (path_at i) x ≡ some (root, [])) width
          (walk ∙ ap (λ t. some (t, [])) same)

    disclosed_path :
        (i : ℕ) (l : EvidenceLeaf)
        → get_elem? leaves i ≡ some l
        → verify_evidence_disclosure sha credential_free
            (record {
              leaf = l;
              leaf_index = i;
              total_leaves = length leaves;
              siblings = path_at i;
            })
            root
            (length leaves)
          ≡ true
    unfolding path_at
    disclosed_path i l there =
        let (x, at, leaf) =
          get_elem?-traverse (hash_leaf sha credential_free) leaves level i l hashes there in
        let (_, _, _, good) = hash_evidence_leaf-cases sha credential_free l x leaf in
        let below = lt_of_get_elem? leaves i l there in
        let short : length (path_at i) ≤ 14 =
          length-path_from (node sha credential_free) 14 (length level) level i
            (omega (arith, width, small)) in
        let hashed : all (λ s. is_digest s.hash) (path_at i) ≡ true = AllDigests-all (path_at i) (
          path_from-All (node sha credential_free) IsDigest (node_P sha credential_free)
            (length level) level i digests) in
        accept_lem sha credential_free
          (record { leaf = l; leaf_index = i; total_leaves = length leaves; siblings = path_at i })
          root (length leaves) x (ground (arith, below, short, small)) good hashed leaf
          root-IsDigest (ground arith) (path_at-climb i x at)

    pub disclosure_at-verify_evidence_disclosure :
        (i : ℕ) (l : EvidenceLeaf)
        → get_elem? leaves i ≡ some l
        → verify_evidence_disclosure sha credential_free
            (disclosure_at sha credential_free (length leaves) levels l i)
            root
            (length leaves)
          ≡ true
    unfolding path_at
    disclosure_at-verify_evidence_disclosure i l there =
        let path : build_siblings (node sha credential_free) levels i ≡ path_at i =
          build_siblings-build_levels (node sha credential_free) (length level) level i
            (omega arith) in
        subst
          (λ s.
            verify_evidence_disclosure sha credential_free
              (record { leaf = l; leaf_index = i; total_leaves = length leaves; siblings = s }) root
              (length leaves)
            ≡ true)
          (sym path) (disclosed_path i l there)

  -- Each disclosure of a commitment is accepted against the commitment's root and leaf count.
  pub verify_evidence_disclosure_complete :
      (leaves : List EvidenceLeaf) (c : Commitment) (i : ℕ) (d : Disclosure)
      → build_evidence_commitment sha credential_free leaves ≡ ok c
      → get_elem? c.disclosures i ≡ some d
      → verify_evidence_disclosure sha credential_free d c.root (length c.leaves) ≡ true
  verify_evidence_disclosure_complete leaves c i d built there =
      let (small, shape) = build_evidence_commitment-cases sha credential_free leaves c built in
      elim shape [
        | inl (_, nothing) ↦ absurd (cc (ap (λ l. get_elem? l i) nothing, there))
        | inr (level, (hashes, top, disclosures)) ↦
            let (l, at, made) =
              get_elem?-disclose (length c.leaves)
                (build_levels (node sha credential_free) (length level) level) 0 c.leaves i d
                (ap (λ l. get_elem? l i) (sym disclosures) ∙ there) in
            let levels = build_levels (node sha credential_free) (length level) level in
            let index : i ≡ 0 + i = omega arith in
            subst
              (λ x.
                verify_evidence_disclosure sha credential_free x c.root (length c.leaves) ≡ true)
              (ap (disclosure_at sha credential_free (length c.leaves) levels l) index ∙ made)
              (disclosure_at-verify_evidence_disclosure c.leaves level c.root hashes top small i l
                at)
      ]
