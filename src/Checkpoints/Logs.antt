-- ===== src/Checkpoints/Logs.antt =====
-- The log behind a root: `transparencyRoot` of
-- packages/portable-promotion-receipt/src/transparency.ts.
use agent_airlock.Prelude.{
  ◌≡◌, refl, sym, ap, ◌∙◌, ◌⊎◌, inl, inr, ℕ, List, [], ◌∷◌, Memᴰ, map, subst, All, All-split,
  All-of_Memᴰ, All-of_map, length, all, ◌≤◌, true, arith,
}
use agent_airlock.Prelude.Texts.{Text}
use agent_airlock.Prelude.Results.{
  ok, catch, traverse, length-traverse, traverse-All, traverse_split, traverse-cases,
}
use agent_airlock.Digest.{Sha256, Collision, IsDigest, is_digest}
use agent_airlock.Tree.Notes.{tree_notes}
use agent_airlock.Tree.Binding.{tree_root_binding}
use agent_airlock.Transparency.{hash_transparency_leaf, hash_transparency_node, transparency_root}
use agent_airlock.Transparency.Hashes.{
  root_messages, leaf_message, node_message, node_P, node_split, leaf_P, leaf_split,
  hash_transparency_leaf-cases,
}
use agent_airlock.Transparency.Inclusion.{transparency_root-cases}

module _ (sha : Sha256) where
  -- The messages of a log's root are those of its leaves and those of its tree.
  root_messages-All :
      (ds level : List Text)
      → traverse (hash_transparency_leaf sha) ds ≡ ok level
      → All (λ d. Memᴰ (leaf_message d) (root_messages sha ds)) ds
        × All
            (λ m. Memᴰ m (root_messages sha ds))
            (tree_notes (hash_transparency_node sha) node_message (length level) level)
  root_messages-All ds level leaves =
      let ms = root_messages sha ds in
      let In : List ℕ → Type 0 = λ m. Memᴰ m ms in
      let (firsts, nodes) = All-split In (map leaf_message ds) _ (All-of_Memᴰ In ms (λ m h. h)) in
      (
        All-of_map In leaf_message ds firsts,
        subst (λ l. All In (tree_notes (hash_transparency_node sha) node_message (length l) l))
            (ap (λ o. catch o []) leaves) nodes,
      )

  -- Two logs of one length with one root hold the same receipts in the same order, or a message
  -- hashed for the root of the one and a different message hashed for the root of the other have one
  -- hash.
  pub transparency_root_binding :
      (ds es : List Text) (r : Text)
      → transparency_root sha ds ≡ ok r
      → transparency_root sha es ≡ ok r
      → length ds ≡ length es
      → (ds ≡ es) ⊎ Collision sha (root_messages sha ds) (root_messages sha es)
  transparency_root_binding [] [] r p q n = inl refl
  transparency_root_binding [] (e ∷ es) r p q n = absurd (omega arith)
  transparency_root_binding (d ∷ ds) [] r p q n = absurd (omega arith)
  transparency_root_binding (d ∷ ds) (e ∷ es) r p q n =
      let leaf = hash_transparency_leaf sha in
      let node = hash_transparency_node sha in
      let (level, leaves, top, _) = transparency_root-cases sha d ds r p in
      let (level', leaves', top', _) = transparency_root-cases sha e es r q in
      let size : length level ≡ length level' =
        length-traverse leaf (d ∷ ds) level leaves
        ∙ n
        ∙ sym (length-traverse leaf (e ∷ es) level' leaves') in
      let ms = root_messages sha (d ∷ ds) in
      let ns = root_messages sha (e ∷ es) in
      let (firsts, nodes) = root_messages-All (d ∷ ds) level leaves in
      let (firsts', nodes') = root_messages-All (e ∷ es) level' leaves' in
      elim (tree_root_binding node node_message IsDigest (λ m. Memᴰ m ms) (λ m. Memᴰ m ns)
        (Collision sha ms ns) (node_P sha) (node_split sha ms ns) level level' size
        (traverse-All leaf IsDigest (leaf_P sha) (d ∷ ds) level leaves)
        (traverse-All leaf IsDigest (leaf_P sha) (e ∷ es) level' leaves') nodes nodes'
        (top ∙ sym top')) [
          | inr found ↦ inr found
          | inl same ↦
              traverse_split leaf (Collision sha ms ns) (λ a. Memᴰ (leaf_message a) ms)
                (λ a. Memᴰ (leaf_message a) ns) (leaf_split sha ms ns) (d ∷ ds) (e ∷ es) level
                firsts firsts' leaves (leaves' ∙ ap ok (sym same))
        ]

  leaves-digests :
      (ds level : List Text)
      → traverse (hash_transparency_leaf sha) ds ≡ ok level
      → all is_digest ds ≡ true
  leaves-digests [] level e = refl
  leaves-digests (d ∷ ds) level e =
      let (x, xs, here, others, _) = traverse-cases (hash_transparency_leaf sha) d ds level e in
      rw (hash_transparency_leaf-cases sha d x here).0 (leaves-digests ds xs others)

  -- A log with a root holds digests, and no more than the tree admits.
  pub transparency_root-digests :
      (ds : List Text) (r : Text)
      → transparency_root sha ds ≡ ok r
      → (all is_digest ds ≡ true) × (length ds ≤ 100000)
  transparency_root-digests [] r e = (refl, omega arith)
  transparency_root-digests (d ∷ ds) r e =
      let (level, leaves, _, small) = transparency_root-cases sha d ds r e in
      (leaves-digests (d ∷ ds) level leaves, small)
