-- ===== src/Tree/Inclusion.antt =====
-- Walking up a tree: the siblings that the builder collects lead the verifier to the root.
use agent_airlock.Prelude.{
  ℕ, zero, suc, ◌+◌, ◌-◌, ◌/◌, ◌≤◌, ◌<◌, ◌≡◌, refl, ap, ◌∙◌, List, [], ◌∷◌, ◌++◌, some, length,
  get_elem?, ltb, inl, inr, Bool-cases, Option-cases, arith, length-append, ◌^◌,
}
use native.Mathlib.Nat.{pow-suc}
use agent_airlock.Tree.{
  Sibling, sibling_at, next_level, last_level, path_from, build_levels, build_siblings, absorb,
  climb,
}

module _ {D : Type 0} (node : D → D → D) where
  pub length-next_level : (l : List D) → length (next_level node l) ≡ (length l + 1) / 2
  unfolding next_level
  length-next_level [] = omega arith
  length-next_level (a ∷ []) = omega arith
  length-next_level (a ∷ b ∷ r) = omega (arith, length-next_level r)

  sibling_at-shift :
      (a b : D) (r : List D) (j : ℕ) → sibling_at (a ∷ b ∷ r) (suc (suc j)) ≡ sibling_at r j
  unfolding sibling_at
  sibling_at-shift a b r zero = ground arith
  sibling_at-shift a b r (suc k) =
      let below : suc (suc (suc k)) - 1 ≡ suc (suc k) = omega arith in
      let above : suc (suc (suc k)) + 1 ≡ suc (suc (suc (suc k))) = omega arith in
      let down : suc k - 1 ≡ k = omega arith in
      let up : suc k + 1 ≡ suc (suc k) = omega arith in rw (below, above, down, up) (ground arith)

  absorb-shift :
      (j w : ℕ) (s : List (Sibling D)) (x : D)
      → absorb node (suc (suc j)) (suc (suc w)) s x ≡ absorb node j w s x
  unfolding absorb
  absorb-shift j w s x = ground arith

  -- One round of builder and verifier.
  pub absorb-sibling_at :
      (l : List D) (i : ℕ) (x : D)
      → get_elem? l i ≡ some x
      → (y : D) × (get_elem? (next_level node l) (i / 2) ≡ some y)
        × ((rest : List (Sibling D))
            → absorb node i (length l) (sibling_at l i ++ rest) x ≡ some (y, rest))
  unfolding next_level
  absorb-sibling_at [] i x h = absurd (cc)
  absorb-sibling_at (a ∷ []) zero x h = unfold absorb sibling_at in (x, h, λ rest. refl)
  absorb-sibling_at (a ∷ []) (suc i) x h = absurd (cc)
  absorb-sibling_at (a ∷ b ∷ r) zero x h = (node x b, ground arith, λ rest. first_pair a b r rest x)
    where
      first_pair :
          (a b : D) (r : List D) (rest : List (Sibling D)) (x : D)
          → absorb node 0 (length (a ∷ b ∷ r)) (sibling_at (a ∷ b ∷ r) 0 ++ rest) x
            ≡ some (node x b, rest)
      first_pair a b r rest x = unfold absorb sibling_at in ground arith
  absorb-sibling_at (a ∷ b ∷ r) (suc zero) x h =
      unfold absorb sibling_at in (node a x, ground arith, λ rest. refl)
  absorb-sibling_at (a ∷ b ∷ r) (suc (suc j)) x h =
      let (y, at, walk) = absorb-sibling_at r j x h in
      let up : suc (suc j) / 2 ≡ suc (j / 2) = omega arith in
      (y, rw up at, λ rest. rw (sibling_at-shift a b r j, absorb-shift) (walk rest))

  -- A level of two or more is hashed once more; one round of each loop.
  pub climb_round :
      (f i w : ℕ) (s rest : List (Sibling D)) (x y : D)
      → 1 < w
      → absorb node i w s x ≡ some (y, rest)
      → climb node (suc f) i w s x ≡ climb node f (i / 2) ((w + 1) / 2) rest y
  unfolding climb
  climb_round f i w s rest x y h e = ground arith

  pub path_from_round :
      (f : ℕ) (a b : D) (l : List D) (i : ℕ)
      → path_from node (suc f) (a ∷ b ∷ l) i
        ≡ sibling_at (a ∷ b ∷ l) i ++ path_from node f (node a b ∷ next_level node l) (i / 2)
  unfolding path_from next_level
  path_from_round f a b l i = ground arith

  pub last_level_round :
      (f : ℕ) (a b : D) (l : List D)
      → last_level node (suc f) (a ∷ b ∷ l) ≡ last_level node f (node a b ∷ next_level node l)
  unfolding last_level next_level
  last_level_round f a b l = ground arith

  pub build_levels_round :
      (f : ℕ) (a b : D) (l : List D)
      → build_levels node (suc f) (a ∷ b ∷ l)
        ≡ (a ∷ b ∷ l) ∷ build_levels node f (node a b ∷ next_level node l)
  unfolding build_levels next_level
  build_levels_round f a b l = ground arith

  -- The verifier, on the path that the builder collects, arrives at the root with nothing left.
  pub climb-path_from :
      (f : ℕ) (l : List D) (i : ℕ) (x : D)
      → get_elem? l i ≡ some x
      → length l ≤ suc f
      → (r : D) × (climb node f i (length l) (path_from node f l i) x ≡ some (r, []))
        × (last_level node f l ≡ r ∷ [])
  climb-path_from f [] i x h m = absurd (cc)
  climb-path_from zero (a ∷ []) zero x h m =
      unfold climb path_from last_level in (x, refl, ground arith)
  climb-path_from (suc f) (a ∷ []) zero x h m =
      unfold climb path_from last_level in (x, refl, ground arith)
  climb-path_from f (a ∷ []) (suc i) x h m = absurd (cc)
  climb-path_from zero (a ∷ b ∷ l) i x h m = absurd (omega arith)
  climb-path_from (suc f) (a ∷ b ∷ l) i x h m =
      let (y, at, walk) = absorb-sibling_at (a ∷ b ∷ l) i x h in
      let shorter : suc (length (next_level node l)) ≡ (length (a ∷ b ∷ l) + 1) / 2 =
        omega (arith, length-next_level l) in
      let (r, up, top) =
        climb-path_from f (node a b ∷ next_level node l) (i / 2) y (unfold next_level in at)
          (omega (arith, shorter)) in
      let path = path_from node f (node a b ∷ next_level node l) (i / 2) in
      let now =
        climb_round f i (length (a ∷ b ∷ l)) (sibling_at (a ∷ b ∷ l) i ++ path) path x y
          (omega arith) (walk path) in
      (r, rw path_from_round (now ∙ (rw (← shorter) up)), last_level_round f a b l ∙ top)

  -- More fuel than the width changes nothing.
  pub climb_fuel :
      (f i w : ℕ) (s : List (Sibling D)) (x : D)
      → w ≤ suc f
      → climb node (suc f) i w s x ≡ climb node f i w s x
  unfolding climb
  climb_fuel zero i w s x h = ground arith
  climb_fuel (suc f) i w s x h = elim (Bool-cases (ltb 1 w)) [
    | inl wide ↦ elim (Option-cases (absorb node i w s x)) [
      | inl stop ↦ ground arith
      | inr ((y, rest), go) ↦
          ground (arith, climb_fuel f (i / 2) ((w + 1) / 2) rest y (ground arith))
    ]
    | inr narrow ↦ ground arith
  ]

  build_siblings-cons :
      (level : List D) (f : ℕ) (l : List D) (i : ℕ)
      → build_siblings node (level ∷ build_levels node f l) i
        ≡ sibling_at level i ++ build_siblings node (build_levels node f l) (i / 2)
  unfolding build_siblings build_levels
  build_siblings-cons level zero l i = refl
  build_siblings-cons level (suc f) l i = ground arith

  -- The levels that merkle.ts keeps give the siblings that transparency.ts collects on its way.
  pub build_siblings-build_levels :
      (f : ℕ) (l : List D) (i : ℕ)
      → length l ≤ suc f
      → build_siblings node (build_levels node f l) i ≡ path_from node f l i
  build_siblings-build_levels zero [] i h = unfold build_siblings build_levels path_from in refl
  build_siblings-build_levels zero (a ∷ []) i h =
      unfold build_siblings build_levels path_from in refl
  build_siblings-build_levels zero (a ∷ b ∷ l) i h = absurd (omega arith)
  build_siblings-build_levels (suc f) [] i h = unfold build_siblings build_levels path_from in refl
  build_siblings-build_levels (suc f) (a ∷ []) i h =
      unfold build_siblings build_levels path_from in refl
  build_siblings-build_levels (suc f) (a ∷ b ∷ l) i h =
      rw (build_levels_round, path_from_round)
        (build_siblings-cons (a ∷ b ∷ l) f (node a b ∷ next_level node l) i
          ∙ ap (λ p. sibling_at (a ∷ b ∷ l) i ++ p)
              (build_siblings-build_levels f (node a b ∷ next_level node l) (i / 2)
                (omega (arith, length-next_level l))))

  length-sibling_at : (l : List D) (i : ℕ) → length (sibling_at l i) ≤ 1
  unfolding sibling_at
  length-sibling_at l i = ground arith

  -- A path is no longer than the tree is high.
  pub length-path_from :
      (k f : ℕ) (l : List D) (i : ℕ) → length l ≤ 2 ^ k → length (path_from node f l i) ≤ k
  length-path_from k zero l i h = unfold path_from in omega arith
  length-path_from k (suc f) [] i h = unfold path_from in omega arith
  length-path_from k (suc f) (a ∷ []) i h = unfold path_from in omega arith
  length-path_from zero (suc f) (a ∷ b ∷ l) i h = absurd (omega arith)
  length-path_from (suc k) (suc f) (a ∷ b ∷ l) i h =
      let later =
        length-path_from k f (node a b ∷ next_level node l) (i / 2)
          (omega (arith, length-next_level l, pow-suc 2 k)) in
      rw path_from_round (
        omega (
          arith,
          length-append (sibling_at (a ∷ b ∷ l) i)
              (path_from node f (node a b ∷ next_level node l) (i / 2)),
          length-sibling_at (a ∷ b ∷ l) i,
          later,
        ))
