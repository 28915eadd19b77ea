-- ===== src/Transparency/Roots.antt =====
-- `TransparencyRootAccumulator` of packages/portable-promotion-receipt/src/transparency.ts
-- beside `transparencyRoot`.
use agent_airlock.Prelude.{
  ◌+◌, ◌≤◌, ◌≡◌, refl, sym, ap, ◌∙◌, false, List, [], ◌∷◌, ◌++◌, some, none, length, append-nil,
  append_assoc, length-append, ltb, get_elem?, subst, inl, inr, ◌==◌, arith,
}
use Prim.Native.String.{String}
use agent_airlock.Prelude.Texts.{Text}
use agent_airlock.Prelude.Results.{
  Result, ok, thrown, ◌>>=◌, traverse, traverse-cases, get_elem?-traverse, Result-cases,
}
use agent_airlock.Digest.{Sha256}
use agent_airlock.Tree.{tree_root}
use agent_airlock.Tree.Root.{tree_root-some}
use agent_airlock.Tree.Frontier.{
  Holds, no_digit, carry-Holds, carry, frontier_root, frontier_root-eq-tree_root,
}
use agent_airlock.Transparency.{
  Accumulator, hash_transparency_leaf, hash_transparency_node, transparency_root, new_accumulator,
  root, append, append_all,
}

module _ (sha : Sha256) where
  -- The state of an accumulator that has hashed these leaves.
  pub record Covers (a : Accumulator) (level : List Text) : Type 0 where
    pub digits : Holds (hash_transparency_node sha) a.frontier level
    pub counted : a.count ≡ length level

  head_lem : (level : List Text) (x : Text) → (y : Text) × (get_elem? (level ++ x ∷ []) 0 ≡ some y)
  head_lem [] x = (x, refl)
  head_lem (y ∷ level) x = (y, refl)

  -- With a leaf in it, an accumulator has a root, and it is the root of the tree.
  root_lem :
      (a : Accumulator) (level : List Text) (y : Text)
      → Covers a level
      → get_elem? level 0 ≡ some y
      → (r : Text) × (root sha a ≡ ok r) × (tree_root (hash_transparency_node sha) level ≡ some r)
  unfolding root
  root_lem a [] y c at = absurd (cc)
  root_lem a (x ∷ level) y c at =
      let (r, top) = tree_root-some (hash_transparency_node sha) (x ∷ level) y at in
      let folded = frontier_root-eq-tree_root (hash_transparency_node sha) none c.digits in
      let found : frontier_root (hash_transparency_node sha) a.frontier none ≡ some r =
        folded ∙ ap (tree_root (hash_transparency_node sha)) (append-nil _) ∙ top in
      let some_leaf : (a.count == 0) ≡ false = ground (arith, c.counted) in
      (r, rw (some_leaf, found), top)

  append_lem :
      (a : Accumulator) (d x : Text) (level : List Text)
      → Covers a level
      → hash_transparency_leaf sha d ≡ ok x
      → (b : Accumulator) × (r : Text) × (append sha a d ≡ ok (b, r))
        × Covers b (level ++ x ∷ [])
        × (tree_root (hash_transparency_node sha) (level ++ x ∷ []) ≡ some r)
  unfolding append
  append_lem a d x level c e =
      let b : Accumulator = record a {
        frontier = carry (hash_transparency_node sha) a.frontier x;
        count = a.count + 1;
      } in
      let covers : Covers b (level ++ x ∷ []) = record {
        digits = carry-Holds (hash_transparency_node sha) x c.digits;
        counted = omega (arith, c.counted, length-append level (x ∷ []));
      } in
      let (y, at) = head_lem level x in
      let (r, now, top) = root_lem b (level ++ x ∷ []) y covers at in
      (b, r, rw (e, now), covers, top)

  append_all-ok :
      (ds xs : List Text) (a : Accumulator) (level : List Text)
      → Covers a level
      → traverse (hash_transparency_leaf sha) ds ≡ ok xs
      → (b : Accumulator) × (append_all sha a ds ≡ ok b) × Covers b (level ++ xs)
  unfolding append_all
  append_all-ok [] xs a level c e =
      let nothing : [] ≡ xs = cc in
      (a, refl, subst (Covers a) (sym (append-nil level) ∙ ap (λ l. level ++ l) nothing) c)
  append_all-ok (d ∷ ds) zs a level c e =
      let (x, xs, here, others, made) = traverse-cases (hash_transparency_leaf sha) d ds zs e in
      let (b, r, added, covers, _) = append_lem a d x level c here in
      let (b', done, all) = append_all-ok ds xs b (level ++ x ∷ []) covers others in
      (
        b',
        rw added done,
        subst (Covers b') (append_assoc level (x ∷ []) xs ∙ ap (λ l. level ++ l) (sym made)) all,
      )

  append_all-thrown :
      (ds : List Text) (m : String) (a : Accumulator) (level : List Text)
      → Covers a level
      → traverse (hash_transparency_leaf sha) ds ≡ thrown m
      → append_all sha a ds ≡ thrown m
  unfolding append_all
  append_all-thrown [] m a level c e = absurd (cc)
  append_all-thrown (d ∷ ds) m a level c e = elim (Result-cases (hash_transparency_leaf sha d)) [
    | inr (n, bad) ↦
        let raised : ◌≡◌ {A = Result (List Text)} (thrown n) (thrown m) = rw bad at e in
        let same : n ≡ m = cc in unfold append in rw bad (ap thrown same)
    | inl (x, good) ↦
        let (b, r, added, covers, _) = append_lem a d x level c good in
        elim (Result-cases (traverse (hash_transparency_leaf sha) ds)) [
          | inl (xs, fine) ↦ absurd (cc (rw (good, fine) at e))
          | inr (n, worse) ↦
              rw added (
                append_all-thrown ds m b (level ++ x ∷ []) covers (worse ∙ (rw (good, worse) at e)))
        ]
  ]

  new-Covers : Covers new_accumulator []
  new-Covers = record { digits = no_digit refl; counted = refl }

  -- An accumulator to which receipts are appended one by one has the root that the whole tree has,
  -- and it refuses the receipts that the whole tree refuses, with the same error, as long as they
  -- are no more than the 100,000 that the tree admits.
  pub append_all-root :
      (ds : List Text)
      → length ds ≤ 100000
      → (append_all sha new_accumulator ds >>= root sha) ≡ transparency_root sha ds
  unfolding transparency_root
  append_all-root [] h = unfold append_all root in refl
  append_all-root (d ∷ ds) h =
      elim (Result-cases (traverse (hash_transparency_leaf sha) (d ∷ ds))) [
        | inr (m, bad) ↦
            let small : ltb 100000 (length (d ∷ ds)) ≡ false = ground arith in
            rw (append_all-thrown (d ∷ ds) m new_accumulator [] new-Covers bad, small, bad)
        | inl (zs, fine) ↦
            let small : ltb 100000 (length (d ∷ ds)) ≡ false = ground arith in
            let (b, done, covers) = append_all-ok (d ∷ ds) zs new_accumulator [] new-Covers fine in
            let (y, at, _) =
              get_elem?-traverse (hash_transparency_leaf sha) (d ∷ ds) zs 0 d fine refl in
            let (r, now, top) = root_lem b zs y covers at in rw (done, small, fine, top) now
      ]
