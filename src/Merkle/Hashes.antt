-- ===== src/Merkle/Hashes.antt =====
-- The hashes of the evidence tree (packages/portable-promotion-receipt/src/merkle.ts).
use agent_airlock.Prelude.{
  ℕ, zero, suc, ◌≡◌, refl, sym, ap, ◌∙◌, ◌⊎◌, inl, inr, Bool, List, [], ◌∷◌, ◌++◌, Memᴰ, subst,
  arith,
}
use agent_airlock.Prelude.Texts.{Text}
use agent_airlock.Prelude.Results.{Result, ok, catch, ◌>>=◌, >>=-eq_ok, ok-injective}
use agent_airlock.Canonical.{canonicalize, utf8_bytes}
use agent_airlock.Digest.{Sha256, Collision, sha256_digest, is_digest, IsDigest, digest_bytes}
use agent_airlock.Digest.Laws.{
  sha256_digest-IsDigest, sha256_digest_split, digest_bytes_lem, digest_bytes-injective,
  append_cancel,
}
use agent_airlock.Tree.{build_levels, last_level, next_level}
use agent_airlock.Tree.Inclusion.{build_levels_round, last_level_round}
use agent_airlock.Tree.Notes.{walk_notes}
use agent_airlock.Merkle.{
  EvidenceLeaf, Disclosure, leaf_json, last_of, assert_portable_evidence_leaf, hash_evidence_leaf,
  hash_internal,
}

-- The bytes of a leaf's canonical JSON.
abbrev pub leaf_bytes : EvidenceLeaf → Result (List ℕ)
leaf_bytes l = canonicalize (leaf_json l) >>= λ text. ok (utf8_bytes text)

-- The messages that the hashes are of.
abbrev pub leaf_message : EvidenceLeaf → List ℕ
leaf_message l = 0 ∷ catch (leaf_bytes l) []

abbrev pub node_message : Text → Text → List ℕ
node_message left right = 1 ∷ (digest_bytes left ++ digest_bytes right)

module _ (sha : Sha256) (credential_free : Text → Bool) where
  -- The messages that `verify_evidence_disclosure` hashes on its walk.
  abbrev pub disclosure_messages : Disclosure → List (List ℕ)
  disclosure_messages d =
      leaf_message d.leaf
      ∷ walk_notes (hash_internal sha credential_free) node_message d.total_leaves d.leaf_index
          d.total_leaves d.siblings (catch (hash_evidence_leaf sha credential_free d.leaf) [])

  pub node_P :
      (a b : Text) → IsDigest a → IsDigest b → IsDigest (hash_internal sha credential_free a b)
  unfolding hash_internal
  node_P a b p q = sha256_digest-IsDigest sha _

  pub node_split :
      (ms ns : List (List ℕ)) (a b c d : Text)
      → IsDigest a
      → IsDigest b
      → IsDigest c
      → IsDigest d
      → Memᴰ (node_message a b) ms
      → Memᴰ (node_message c d) ns
      → hash_internal sha credential_free a b ≡ hash_internal sha credential_free c d
      → ((a ≡ c) × (b ≡ d)) ⊎ Collision sha ms ns
  unfolding hash_internal
  node_split ms ns a b c d pa pb pc pd u v e = elim (sha256_digest_split sha ms ns _ _ u v e) [
    | inr found ↦ inr found
    | inl same ↦
        let (_, tail) =
          append_cancel (1 ∷ []) (digest_bytes a ++ digest_bytes b) (1 ∷ [])
            (digest_bytes c ++ digest_bytes d) refl same in
        let (first, second) =
          append_cancel (digest_bytes a) (digest_bytes b) (digest_bytes c) (digest_bytes d)
            ((digest_bytes_lem a pa).1 ∙ sym (digest_bytes_lem c pc).1) tail in
        inl (digest_bytes-injective a c pa pc first, digest_bytes-injective b d pb pd second)
  ]

  pub hash_evidence_leaf-cases :
      (l : EvidenceLeaf) (x : Text)
      → hash_evidence_leaf sha credential_free l ≡ ok x
      → (bytes : List ℕ) × (leaf_bytes l ≡ ok bytes)
        × (x ≡ sha256_digest sha (0 ∷ bytes))
        × (assert_portable_evidence_leaf sha credential_free l ≡ ok tt)
  unfolding hash_evidence_leaf
  hash_evidence_leaf-cases l x h =
      let (_, good, r1) = >>=-eq_ok (assert_portable_evidence_leaf sha credential_free l) _ h in
      let (text, written, last) = >>=-eq_ok (canonicalize (leaf_json l)) _ r1 in
      (
        utf8_bytes text,
        ap (λ t. t >>= λ s. ok (utf8_bytes s)) written,
        sym (ok-injective last),
        good,
      )

  pub leaf_P :
      (l : EvidenceLeaf) (x : Text) → hash_evidence_leaf sha credential_free l ≡ ok x → IsDigest x
  leaf_P l x h =
      let (bytes, _, made, _) = hash_evidence_leaf-cases l x h in
      ap is_digest made ∙ sha256_digest-IsDigest sha _

  pub leaf_split :
      (ms ns : List (List ℕ)) (k l : EvidenceLeaf) (x : Text)
      → Memᴰ (leaf_message k) ms
      → Memᴰ (leaf_message l) ns
      → hash_evidence_leaf sha credential_free k ≡ ok x
      → hash_evidence_leaf sha credential_free l ≡ ok x
      → (leaf_bytes k ≡ leaf_bytes l) ⊎ Collision sha ms ns
  leaf_split ms ns k l x u v e h =
      let (b, written, made, _) = hash_evidence_leaf-cases k x e in
      let (c, written', made', _) = hash_evidence_leaf-cases l x h in
      elim (sha256_digest_split sha ms ns (0 ∷ b) (0 ∷ c)
        (subst (λ m. Memᴰ m ms) (ap (λ o. 0 ∷ catch o []) written) u)
        (subst (λ m. Memᴰ m ns) (ap (λ o. 0 ∷ catch o []) written') v) (sym made ∙ made')) [
          | inr found ↦ inr found
          | inl same ↦
              let (_, tail) = append_cancel (0 ∷ []) b (0 ∷ []) c refl same in
              inl (written ∙ ap ok tail ∙ sym written')
        ]

-- The last of the levels that are kept is where the rounds end.
module _ (node : Text → Text → Text) where
  last_of-cons :
      (f : ℕ) (level l : List Text)
      → last_of (level ∷ build_levels node f l) ≡ last_of (build_levels node f l)
  unfolding last_of build_levels
  last_of-cons zero level l = refl
  last_of-cons (suc f) level l = ground arith

  pub last_of-build_levels :
      (f : ℕ) (l : List Text) → last_of (build_levels node f l) ≡ last_level node f l
  last_of-build_levels zero l = unfold last_level build_levels last_of in refl
  last_of-build_levels (suc f) [] = unfold last_level build_levels last_of in refl
  last_of-build_levels (suc f) (a ∷ []) = unfold last_level build_levels last_of in refl
  last_of-build_levels (suc f) (a ∷ b ∷ l) =
      let above = node a b ∷ next_level node l in
      ap last_of (build_levels_round node f a b l)
      ∙ last_of-cons f (a ∷ b ∷ l) above
      ∙ last_of-build_levels f above
      ∙ sym (last_level_round node f a b l)
