-- ===== src/Transparency/Inclusion.antt =====
-- `createTransparencyInclusionProof` and `verifyTransparencyInclusion` of
-- packages/portable-promotion-receipt/src/transparency.ts.
use agent_airlock.Prelude.{
  ℕ, ◌≤◌, ◌<◌, ◌≡◌, sym, ap, ◌∙◌, subst, ◌⊎◌, inl, inr, true, List, [], ◌∷◌, Memᴰ, All, All-of_Memᴰ,
  refl, Option, some, none, length, get_elem?, get_elem?_lt, ltb, arith, Bool-cases, Option-cases,
}
use agent_airlock.Prelude.Texts.{Text, text_eq_refl, eq_of_text_eq}
use agent_airlock.Prelude.Results.{
  ok, catch, traverse, Result-cases, get_elem?-traverse, length-traverse, traverse-All,
}
use agent_airlock.Digest.{Sha256, Collision, IsDigest}
use agent_airlock.Tree.{tree_root, head?, path_from, climb}
use agent_airlock.Tree.Digests.{all-AllDigests, AllDigests-all}
use agent_airlock.Tree.Inclusion.{climb-path_from, length-path_from}
use agent_airlock.Tree.Walks.{path_from-All}
use agent_airlock.Tree.WalkBinding.{walks_binding}
use agent_airlock.Transparency.{
  InclusionProof, Checkpoint, is_checkpoint, is_inclusion_proof, hash_transparency_leaf,
  hash_transparency_node, transparency_root, first, create_transparency_inclusion_proof, walks_to,
  verify_transparency_inclusion,
}
use agent_airlock.Tree.Notes.{walk_notes}
use agent_airlock.Transparency.Hashes.{
  node_message, inclusion_messages, node_P, node_split, leaf_P, leaf_split,
  hash_transparency_leaf-cases,
}

first-cases : (o : Option Text) (r : Text) → first o ≡ ok r → o ≡ some r
first-cases none r e = absurd (cc)
first-cases (some s) r e = cc

module _ (sha : Sha256) where
  -- What stands behind a root: the hashed leaves.
  pub transparency_root-cases :
      (d : Text) (ds : List Text) (r : Text)
      → transparency_root sha (d ∷ ds) ≡ ok r
      → (level : List Text) × (traverse (hash_transparency_leaf sha) (d ∷ ds) ≡ ok level)
        × (tree_root (hash_transparency_node sha) level ≡ some r)
        × (length (d ∷ ds) ≤ 100000)
  unfolding transparency_root
  transparency_root-cases d ds r e = elim (Bool-cases (ltb 100000 (length (d ∷ ds)))) [
    | inl long ↦ absurd (ground arith)
    | inr small ↦ elim (Result-cases (traverse (hash_transparency_leaf sha) (d ∷ ds))) [
      | inr (m, bad) ↦ absurd (cc (rw (small, bad) at e))
      | inl (level, fine) ↦
          let read : first (tree_root (hash_transparency_node sha) level) ≡ ok r =
            rw (small, fine) at e in
          (
            level,
            fine,
            first-cases (tree_root (hash_transparency_node sha) level) r read,
            ground arith,
          )
    ]
  ]

  walks_to-cases :
      (p : InclusionProof) (r : Text)
      → walks_to sha p r ≡ true
      → (x : Text) × (hash_transparency_leaf sha p.receipt_digest ≡ ok x)
        × (climb (hash_transparency_node sha) p.tree_size p.leaf_index p.tree_size p.siblings x
            ≡ some (r, []))
  unfolding walks_to
  walks_to-cases p r h = elim (Result-cases (hash_transparency_leaf sha p.receipt_digest)) [
    | inr (m, bad) ↦ absurd (ground arith)
    | inl (x, leaf) ↦
        elim (Option-cases
          (climb (hash_transparency_node sha) p.tree_size p.leaf_index p.tree_size p.siblings x)) [
            | inl stop ↦ absurd (ground arith)
            | inr ((hash, []), walk) ↦
                let same : hash ≡ r = eq_of_text_eq hash r (ground arith) in
                (x, leaf, walk ∙ ap (λ t. some (t, [])) same)
            | inr ((hash, s ∷ rest), walk) ↦ absurd (ground arith)
          ]
  ]

  -- What `create_transparency_inclusion_proof` makes of a hashed log.
  abbrev made : List Text → ℕ → Text → List Text → InclusionProof
  made ds i d level = record {
    receipt_digest = d;
    leaf_index = i;
    tree_size = length ds;
    siblings = path_from (hash_transparency_node sha) (length level) level i;
  }

  create_lem :
      (ds : List Text) (i : ℕ) (d : Text) (level : List Text)
      → get_elem? ds i ≡ some d
      → traverse (hash_transparency_leaf sha) ds ≡ ok level
      → create_transparency_inclusion_proof sha ds i ≡ ok (made ds i d level)
  unfolding create_transparency_inclusion_proof
  create_lem ds i d level at leaves = rw (at, create_transparency_inclusion_proof) (rw leaves)

  walked :
      (Q : List ℕ → Type 0) (p : InclusionProof) (x : Text)
      → hash_transparency_leaf sha p.receipt_digest ≡ ok x
      → All Q (
          walk_notes
            (hash_transparency_node sha)
            node_message
            p.tree_size
            p.leaf_index
            p.tree_size
            p.siblings
            (catch (hash_transparency_leaf sha p.receipt_digest) []))
      → All Q (
          walk_notes
            (hash_transparency_node sha)
            node_message
            p.tree_size
            p.leaf_index
            p.tree_size
            p.siblings
            x)
  walked Q p x leaf h =
      subst
        (λ z. All Q (
          walk_notes (hash_transparency_node sha) node_message p.tree_size p.leaf_index p.tree_size
            p.siblings z))
        (ap (λ o. catch o []) leaf) h

  -- A walk along a proof and one along the path of a tree, from one index to one root.
  proofs_binding :
      (p q : InclusionProof) (level : List Text) (x y r : Text)
      → All IsDigest level
      → All (λ s. IsDigest s.hash) p.siblings
      → hash_transparency_leaf sha p.receipt_digest ≡ ok x
      → hash_transparency_leaf sha q.receipt_digest ≡ ok y
      → p.tree_size ≡ length level
      → q.tree_size ≡ length level
      → q.leaf_index ≡ p.leaf_index
      → q.siblings ≡ path_from (hash_transparency_node sha) (length level) level p.leaf_index
      → get_elem? level p.leaf_index ≡ some y
      → tree_root (hash_transparency_node sha) level ≡ some r
      → climb (hash_transparency_node sha) p.tree_size p.leaf_index p.tree_size p.siblings x
        ≡ some (r, [])
      → (p.receipt_digest ≡ q.receipt_digest)
        ⊎ Collision sha (inclusion_messages sha p) (inclusion_messages sha q)
  proofs_binding p q level x y r pl ps leaf hashed width width' index path at top walk =
      let ms = inclusion_messages sha p in
      let ns = inclusion_messages sha q in
      let node = hash_transparency_node sha in
      let L : List ℕ → Type 0 = λ m. Memᴰ m ms in
      let R : List ℕ → Type 0 = λ m. Memᴰ m ns in
      let (lp, lw) = All-of_Memᴰ L ms (λ m h. h) in
      let (rq, around) = All-of_Memᴰ R ns (λ m h. h) in
      elim (walks_binding node node_message IsDigest L R (Collision sha ms ns) (node_P sha)
        (node_split sha ms ns) level p.leaf_index q.leaf_index p.tree_size q.tree_size p.siblings
        q.siblings x y r pl ps (leaf_P sha p.receipt_digest x leaf)
        (leaf_P sha q.receipt_digest y hashed) width width' index path (walked L p x leaf lw)
        (walked R q y hashed around) at top walk) [
          | inr found ↦ inr found
          | inl same ↦
              leaf_split sha ms ns p.receipt_digest q.receipt_digest x lp rq leaf
                (hashed ∙ ap ok (sym same))
        ]

  -- An accepted inclusion proof names a receipt of the log: against a checkpoint that has the size
  -- and the root of a log, the receipt stands in that log at the proof's index, or the walk along
  -- the proof and the walk along the log's own proof at that index hash two different messages to
  -- one hash.
  pub verify_transparency_inclusion_sound :
      (p : InclusionProof) (c : Checkpoint) (ds : List Text)
      → verify_transparency_inclusion sha p c ≡ true
      → transparency_root sha ds ≡ ok c.root
      → length ds ≡ c.tree_size
      → (get_elem? ds p.leaf_index ≡ some p.receipt_digest)
        ⊎ ((q : InclusionProof) × (create_transparency_inclusion_proof sha ds p.leaf_index ≡ ok q)
            × Collision sha (inclusion_messages sha p) (inclusion_messages sha q))
  unfolding verify_transparency_inclusion is_inclusion_proof
  verify_transparency_inclusion_sound p c [] h root size = absurd (ground arith)
  verify_transparency_inclusion_sound p c (d ∷ ds) h root size =
      let (level, leaves, top, _) = transparency_root-cases d ds c.root root in
      let (x, leaf, walk) = walks_to-cases p c.root (ground arith) in
      let same_size : p.tree_size ≡ length (d ∷ ds) = ground arith in
      let (e, there) = get_elem?_lt (d ∷ ds) p.leaf_index (ground arith) in
      let (y, at, hashed) =
        get_elem?-traverse (hash_transparency_leaf sha) (d ∷ ds) level p.leaf_index e leaves
          there in
      let counted = length-traverse (hash_transparency_leaf sha) (d ∷ ds) level leaves in
      let digests = all-AllDigests p.siblings (ground arith) in
      let q = made (d ∷ ds) p.leaf_index e level in
      elim (proofs_binding p q level x y c.root
        (traverse-All (hash_transparency_leaf sha) IsDigest (leaf_P sha) (d ∷ ds) level leaves)
        digests leaf hashed (same_size ∙ sym counted) (sym counted) refl refl at top walk) [
          | inl named ↦ inl (there ∙ ap some (sym named))
          | inr found ↦ inr (q, create_lem (d ∷ ds) p.leaf_index e level there leaves, found)
        ]

  made-walks_to :
      (ds : List Text) (i : ℕ) (d x : Text) (level : List Text) (r : Text)
      → hash_transparency_leaf sha d ≡ ok x
      → get_elem? level i ≡ some x
      → length level ≡ length ds
      → tree_root (hash_transparency_node sha) level ≡ some r
      → walks_to sha (made ds i d level) r ≡ true
  unfolding walks_to tree_root head?
  made-walks_to ds i d x level r leaf at size top =
      let (r', walk, last) =
        climb-path_from (hash_transparency_node sha) (length level) level i x at (omega arith) in
      let roots : ◌≡◌ {A = Option Text} (some r') (some r) = rw last at top in
      let same : r' ≡ r = cc in rw (leaf, walks_to) (rw (← size, walk, same) (text_eq_refl r))

  made-is_inclusion_proof :
      (ds : List Text) (i : ℕ) (d x : Text) (level : List Text)
      → hash_transparency_leaf sha d ≡ ok x
      → traverse (hash_transparency_leaf sha) ds ≡ ok level
      → i < length ds
      → length ds ≤ 100000
      → is_inclusion_proof (made ds i d level) ≡ true
  unfolding is_inclusion_proof
  made-is_inclusion_proof ds i d x level leaf leaves h small =
      let size = length-traverse (hash_transparency_leaf sha) ds level leaves in
      let digests = AllDigests-all (path_from (hash_transparency_node sha) (length level) level i) (
        path_from-All (hash_transparency_node sha) IsDigest (node_P sha) (length level) level i
          (traverse-All (hash_transparency_leaf sha) IsDigest (leaf_P sha) ds level leaves)) in
      let short =
        length-path_from (hash_transparency_node sha) 17 (length level) level i
          (omega (arith, size)) in
      let (good, _) = hash_transparency_leaf-cases sha d x leaf in
      ground (arith, digests, short, good)

  -- Every receipt of a log has an inclusion proof, and the verifier accepts it against a valid
  -- checkpoint that has the size and the root of the log.
  pub verify_transparency_inclusion_complete :
      (ds : List Text) (i : ℕ) (c : Checkpoint)
      → i < length ds
      → is_checkpoint c ≡ true
      → transparency_root sha ds ≡ ok c.root
      → length ds ≡ c.tree_size
      → (p : InclusionProof) × (create_transparency_inclusion_proof sha ds i ≡ ok p)
        × (verify_transparency_inclusion sha p c ≡ true)
  unfolding verify_transparency_inclusion
  verify_transparency_inclusion_complete [] i c h k root size = absurd (omega arith)
  verify_transparency_inclusion_complete (d ∷ ds) i c h k root size =
      let (level, leaves, top, small) = transparency_root-cases d ds c.root root in
      let (e, there) = get_elem?_lt (d ∷ ds) i h in
      let (y, at, hashed) =
        get_elem?-traverse (hash_transparency_leaf sha) (d ∷ ds) level i e leaves there in
      let same_size = length-traverse (hash_transparency_leaf sha) (d ∷ ds) level leaves in
      (
        made (d ∷ ds) i e level,
        create_lem (d ∷ ds) i e level there leaves,
        rw
            (
              made-is_inclusion_proof (d ∷ ds) i e y level hashed leaves h small,
              k,
              made-walks_to (d ∷ ds) i e y level c.root hashed at same_size top,
            )
            (ground arith),
      )
