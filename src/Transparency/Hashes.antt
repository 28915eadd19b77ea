-- ===== src/Transparency/Hashes.antt =====
-- The hashes of the transparency tree: they are digests, and equal ones come from equal parts or
-- from a collision among the messages hashed. The messages that the code hashes, as lists.
use agent_airlock.Prelude.{
  ◌≡◌, refl, sym, ap, ◌∙◌, ◌⊎◌, inl, inr, List, [], ◌∷◌, ◌++◌, Memᴰ, map, ℕ, length, arith,
  Bool-cases,
}
use agent_airlock.Prelude.Texts.{Text}
use agent_airlock.Prelude.Results.{ok, catch, traverse}
use agent_airlock.Digest.{Sha256, Collision, sha256_digest, is_digest, IsDigest, digest_bytes}
use agent_airlock.Digest.Laws.{
  sha256_digest-IsDigest, sha256_digest_split, digest_bytes_lem, digest_bytes-injective,
  append_cancel,
}
use agent_airlock.Tree.Notes.{tree_notes, walk_notes}
use agent_airlock.Transparency.{
  InclusionProof, leaf_domain, node_domain, hash_transparency_leaf, hash_transparency_node,
}

-- The messages that the hashes are of.
abbrev pub leaf_message : Text → List ℕ
leaf_message d = leaf_domain ++ digest_bytes d

abbrev pub node_message : Text → Text → List ℕ
node_message left right = node_domain ++ digest_bytes left ++ digest_bytes right

module _ (sha : Sha256) where
  -- The messages that `transparency_root` hashes.
  abbrev pub root_messages : List Text → List (List ℕ)
  root_messages ds =
      let level = catch (traverse (hash_transparency_leaf sha) ds) [] in
      map leaf_message ds
      ++ tree_notes (hash_transparency_node sha) node_message (length level) level

  -- The messages that `verify_transparency_inclusion` hashes on its walk.
  abbrev pub inclusion_messages : InclusionProof → List (List ℕ)
  inclusion_messages p =
      leaf_message p.receipt_digest
      ∷ walk_notes (hash_transparency_node sha) node_message p.tree_size p.leaf_index p.tree_size
          p.siblings (catch (hash_transparency_leaf sha p.receipt_digest) [])

  pub node_P : (a b : Text) → IsDigest a → IsDigest b → IsDigest (hash_transparency_node sha a b)
  unfolding hash_transparency_node
  node_P a b p q = sha256_digest-IsDigest sha _

  pub node_split :
      (ms ns : List (List ℕ)) (a b c d : Text)
      → IsDigest a
      → IsDigest b
      → IsDigest c
      → IsDigest d
      → Memᴰ (node_message a b) ms
      → Memᴰ (node_message c d) ns
      → hash_transparency_node sha a b ≡ hash_transparency_node sha c d
      → ((a ≡ c) × (b ≡ d)) ⊎ Collision sha ms ns
  unfolding hash_transparency_node
  node_split ms ns a b c d pa pb pc pd u v e = elim (sha256_digest_split sha ms ns _ _ u v e) [
    | inr found ↦ inr found
    | inl same ↦
        let (_, tail) =
          append_cancel node_domain (digest_bytes a ++ digest_bytes b) node_domain
            (digest_bytes c ++ digest_bytes d) refl same in
        let (first, second) =
          append_cancel (digest_bytes a) (digest_bytes b) (digest_bytes c) (digest_bytes d)
            ((digest_bytes_lem a pa).1 ∙ sym (digest_bytes_lem c pc).1) tail in
        inl (digest_bytes-injective a c pa pc first, digest_bytes-injective b d pb pd second)
  ]

  pub hash_transparency_leaf-cases :
      (d x : Text)
      → hash_transparency_leaf sha d ≡ ok x
      → IsDigest d × (x ≡ sha256_digest sha (leaf_domain ++ digest_bytes d))
  unfolding hash_transparency_leaf
  hash_transparency_leaf-cases d x e = elim (Bool-cases (is_digest d)) [
    | inl good ↦ (good, ground arith)
    | inr bad ↦ absurd (ground arith)
  ]

  pub leaf_P : (d x : Text) → hash_transparency_leaf sha d ≡ ok x → IsDigest x
  leaf_P d x e =
      let (_, made) = hash_transparency_leaf-cases d x e in
      ap is_digest made ∙ sha256_digest-IsDigest sha _

  pub leaf_split :
      (ms ns : List (List ℕ)) (c d x : Text)
      → Memᴰ (leaf_message c) ms
      → Memᴰ (leaf_message d) ns
      → hash_transparency_leaf sha c ≡ ok x
      → hash_transparency_leaf sha d ≡ ok x
      → (c ≡ d) ⊎ Collision sha ms ns
  leaf_split ms ns c d x u v e k =
      let (pc, made) = hash_transparency_leaf-cases c x e in
      let (pd, made') = hash_transparency_leaf-cases d x k in
      elim (sha256_digest_split sha ms ns _ _ u v (sym made ∙ made')) [
        | inr found ↦ inr found
        | inl same ↦
            let (_, tail) =
              append_cancel leaf_domain (digest_bytes c) leaf_domain (digest_bytes d) refl same in
            inl (digest_bytes-injective c d pc pd tail)
      ]
