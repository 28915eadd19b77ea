-- ===== src/Tree/Notes.antt =====
-- The pairs of digests that the tree joins on the way to a root, and that a verifier joins on its
-- walk, each as a note that a parameter makes of it.
use agent_airlock.Prelude.{
  ℕ, zero, suc, ◌+◌, ◌/◌, ◌%◌, ◌≡◌, Bool, true, false, List, [], ◌∷◌, ◌++◌, none, some, length, ltb,
  ◌==◌, ◌||◌, if◌then◌else◌, arith,
}
use agent_airlock.Tree.{Sibling, next_level, absorb}

-- Whether a round of the verifier uses a sibling.
abbrev pub uses_sibling : ℕ → ℕ → Bool
uses_sibling i w = i % 2 == 1 || ltb (i + 1) w

module _ {D M : Type 0} (node : D → D → D) (note : D → D → M) where
  -- The pairs of one round over a level.
  unfoldable pub round_notes : List D → List M
  round_notes [] = []
  round_notes (a ∷ []) = []
  round_notes (a ∷ b ∷ r) = note a b ∷ round_notes r

  -- The pairs of all rounds.
  unfoldable pub tree_notes : ℕ → List D → List M
  tree_notes zero l = []
  tree_notes (suc f) l = elim (ltb 1 (length l)) [
    | true ↦ round_notes l ++ tree_notes f (next_level node l)
    | false ↦ []
  ]

  -- The pair of a sibling and the running digest, on its side.
  abbrev pub take_notes : Bool → List (Sibling D) → D → List M
  take_notes is_right [] x = []
  take_notes true (s ∷ rest) x = note s.hash x ∷ []
  take_notes false (s ∷ rest) x = note x s.hash ∷ []

  abbrev pub absorb_notes : ℕ → ℕ → List (Sibling D) → D → List M
  absorb_notes i w s x = if uses_sibling i w then take_notes (i % 2 == 1) s x else []

  -- The pairs of a walk.
  unfoldable pub walk_notes : ℕ → ℕ → ℕ → List (Sibling D) → D → List M
  walk_notes zero i w s x = []
  walk_notes (suc f) i w s x = elim (ltb 1 w) [
    | true ↦ elim (absorb node i w s x) [
      | none ↦ []
      | some (y, rest) ↦ absorb_notes i w s x ++ walk_notes f (i / 2) ((w + 1) / 2) rest y
    ]
    | false ↦ []
  ]

  pub tree_notes_round :
      (f : ℕ) (a b : D) (l : List D)
      → tree_notes (suc f) (a ∷ b ∷ l)
        ≡ round_notes (a ∷ b ∷ l) ++ tree_notes f (node a b ∷ next_level node l)
  unfolding tree_notes next_level
  tree_notes_round f a b l = ground arith

  pub walk_notes_round :
      (f i w : ℕ) (s rest : List (Sibling D)) (x y : D)
      → ltb 1 w ≡ true
      → absorb node i w s x ≡ some (y, rest)
      → walk_notes (suc f) i w s x
        ≡ absorb_notes i w s x ++ walk_notes f (i / 2) ((w + 1) / 2) rest y
  unfolding walk_notes
  walk_notes_round f i w s rest x y wide go = ground (arith, wide, go)
