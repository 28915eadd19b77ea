-- ===== src/Tree/Root.antt =====
-- The loop that hashes a tree level by level: its rounds, and that its fuel does not matter.
use agent_airlock.Prelude.{
  ℕ, zero, suc, ◌≤◌, ◌≡◌, refl, sym, ap, ◌∙◌, List, [], ◌∷◌, ◌++◌, some, length, get_elem?, arith,
}
use agent_airlock.Tree.{head?, next_level, last_level, tree_root}
use agent_airlock.Tree.Inclusion.{length-next_level, last_level_round, climb-path_from}

module _ {D : Type 0} (node : D → D → D) where
  pub last_level_fuel :
      (f g : ℕ) (l : List D)
      → length l ≤ suc f
      → length l ≤ suc g
      → last_level node f l ≡ last_level node g l
  last_level_fuel zero zero l h k = refl
  last_level_fuel zero (suc g) [] h k = unfold last_level in refl
  last_level_fuel zero (suc g) (a ∷ []) h k = unfold last_level in refl
  last_level_fuel zero (suc g) (a ∷ b ∷ l) h k = absurd (omega arith)
  last_level_fuel (suc f) zero [] h k = unfold last_level in refl
  last_level_fuel (suc f) zero (a ∷ []) h k = unfold last_level in refl
  last_level_fuel (suc f) zero (a ∷ b ∷ l) h k = absurd (omega arith)
  last_level_fuel (suc f) (suc g) [] h k = unfold last_level in refl
  last_level_fuel (suc f) (suc g) (a ∷ []) h k = unfold last_level in refl
  last_level_fuel (suc f) (suc g) (a ∷ b ∷ l) h k =
      last_level_round node f a b l
      ∙ last_level_fuel f g (node a b ∷ next_level node l) (omega (arith, length-next_level node l))
          (omega (arith, length-next_level node l))
      ∙ sym (last_level_round node g a b l)

  -- A round leaves the root as it is.
  pub tree_root-next_level : (l : List D) → tree_root node (next_level node l) ≡ tree_root node l
  tree_root-next_level [] = unfold next_level in refl
  tree_root-next_level (a ∷ []) = unfold next_level in refl
  tree_root-next_level (a ∷ b ∷ l) =
      unfold tree_root next_level in
      ap head? (
        last_level_fuel (suc (length (next_level node l))) (suc (length l))
          (node a b ∷ next_level node l) (omega arith) (omega (arith, length-next_level node l))
        ∙ sym (last_level_round node (suc (length l)) a b l))

  abbrev pub flat : List (D × D) → List D
  flat [] = []
  flat ((a, b) ∷ ps) = a ∷ b ∷ flat ps

  abbrev pub hash_pairs : List (D × D) → List D
  hash_pairs [] = []
  hash_pairs ((a, b) ∷ ps) = node a b ∷ hash_pairs ps

  pub next_level-flat :
      (ps : List (D × D)) (r : List D)
      → next_level node (flat ps ++ r) ≡ hash_pairs ps ++ next_level node r
  unfolding next_level
  next_level-flat [] r = refl
  next_level-flat ((a, b) ∷ ps) r = ap (λ l. node a b ∷ l) (next_level-flat ps r)

  pub flat-append : (ps qs : List (D × D)) → flat (ps ++ qs) ≡ flat ps ++ flat qs
  flat-append [] qs = refl
  flat-append ((a, b) ∷ ps) qs = ap (λ l. a ∷ b ∷ l) (flat-append ps qs)

  pub hash_pairs-append :
      (ps qs : List (D × D)) → hash_pairs (ps ++ qs) ≡ hash_pairs ps ++ hash_pairs qs
  hash_pairs-append [] qs = refl
  hash_pairs-append ((a, b) ∷ ps) qs = ap (λ l. node a b ∷ l) (hash_pairs-append ps qs)

  pub tree_root-some :
      (l : List D) (x : D) → get_elem? l 0 ≡ some x → (r : D) × (tree_root node l ≡ some r)
  unfolding tree_root
  tree_root-some l x h =
      let (r, _, top) = climb-path_from node (length l) l 0 x h (omega arith) in
      (r, rw top (unfold head? in refl))
