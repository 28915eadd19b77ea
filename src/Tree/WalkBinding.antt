-- ===== src/Tree/WalkBinding.antt =====
-- Walking up to a root: an index leads to one leaf, unless two different pairs of digests that two
-- walks join have one hash.
use agent_airlock.Prelude.{
  ℕ, zero, suc, ◌+◌, ◌/◌, ◌%◌, ◌≡◌, sym, ap, subst, ◌∙◌, ◌⊎◌, inl, inr, Bool, true, false, List, [],
  ◌∷◌, some, length, ◌==◌, if◌then◌else◌, get_elem?, All, All-split, arith,
}
use agent_airlock.Tree.{Sibling, head?, tree_root, path_from, absorb, climb}
use agent_airlock.Tree.Notes.{uses_sibling, take_notes, absorb_notes, walk_notes, walk_notes_round}
use agent_airlock.Tree.Inclusion.{climb-path_from}
use agent_airlock.Tree.Walks.{combine, absorb-cases, absorb_P, climb-cases, path_from-All}

-- A digest of a pair that the left walk joins and a pair that the right walk joins names them or is
-- a collision.
module _ {D M : Type 0} (node : D → D → D) (note : D → D → M) (P : D → Type 0) (L R : M → Type 0)
    (Clash : Type 0) (node_P : (a b : D) → P a → P b → P (node a b))
    (node_split : (a b c d : D)
      → P a
      → P b
      → P c
      → P d
      → L (note a b)
      → R (note c d)
      → node a b ≡ node c d
      → ((a ≡ c) × (b ≡ d)) ⊎ Clash) where
  combine_split :
      (b : Bool) (h k : Sibling D) (s t : List (Sibling D)) (x y : D)
      → P h.hash
      → P x
      → P k.hash
      → P y
      → All L (take_notes node note b (h ∷ s) x)
      → All R (take_notes node note b (k ∷ t) y)
      → combine node P node_P b h.hash x ≡ combine node P node_P b k.hash y
      → (x ≡ y) ⊎ Clash
  combine_split true h k s t x y ph px pk py (u, _) (v, _) e =
      elim (node_split h.hash x k.hash y ph px pk py u v e) [
        | inl (_, same) ↦ inl same
        | inr found ↦ inr found
      ]
  combine_split false h k s t x y ph px pk py (u, _) (v, _) e =
      elim (node_split x h.hash y k.hash px ph py pk u v e) [
        | inl (same, _) ↦ inl same
        | inr found ↦ inr found
      ]

  -- The pairs of a round that uses a sibling.
  taken :
      (Q : M → Type 0) (i w : ℕ) (s s' : List (Sibling D)) (t : Sibling D) (x : D)
      → uses_sibling i w ≡ true
      → s ≡ t ∷ s'
      → All Q (absorb_notes node note i w s x)
      → All Q (take_notes node note (i % 2 == 1) (t ∷ s') x)
  taken Q i w s s' t x on shape u =
      subst (λ r. All Q (take_notes node note (i % 2 == 1) r x)) shape
        (subst (λ b. All Q (if b then take_notes node note (i % 2 == 1) s x else [])) on u)

  -- One round of two verifiers at one index and width.
  absorb_binding :
      (i w : ℕ) (s t s' t' : List (Sibling D)) (x y x' y' : D)
      → All (λ h. P h.hash) s
      → All (λ h. P h.hash) t
      → P x
      → P y
      → All L (absorb_notes node note i w s x)
      → All R (absorb_notes node note i w t y)
      → absorb node i w s x ≡ some (x', s')
      → absorb node i w t y ≡ some (y', t')
      → x' ≡ y'
      → (x ≡ y) ⊎ Clash
  absorb_binding i w s t s' t' x y x' y' hs ht px py u v e k same =
      elim (absorb-cases node P node_P i w s s' x x' e) [
        | inl (off, _, kept) ↦ elim (absorb-cases node P node_P i w t t' y y' k) [
          | inl (_, _, kept') ↦ inl (kept ∙ same ∙ sym kept')
          | inr (on, _) ↦ absurd (cc)
        ]
        | inr (on, (a, shape, made)) ↦ elim (absorb-cases node P node_P i w t t' y y' k) [
          | inl (off, _, _) ↦ absurd (cc)
          | inr (_, (b, shape', made')) ↦
              combine_split (i % 2 == 1) a b s' t' x y (subst (All (λ h. P h.hash)) shape hs).0 px
                (subst (All (λ h. P h.hash)) shape' ht).0 py (taken L i w s s' a x on shape u)
                (taken R i w t t' b y on shape' v) (sym made ∙ same ∙ made')
        ]
      ]

  -- Two walks from one index to one root started at one leaf.
  climb_binding :
      (f i w : ℕ) (s t s' t' : List (Sibling D)) (x y r : D)
      → All (λ h. P h.hash) s
      → All (λ h. P h.hash) t
      → P x
      → P y
      → All L (walk_notes node note f i w s x)
      → All R (walk_notes node note f i w t y)
      → climb node f i w s x ≡ some (r, s')
      → climb node f i w t y ≡ some (r, t')
      → (x ≡ y) ⊎ Clash
  climb_binding zero i w s t s' t' x y r hs ht px py u v e k = unfold climb in inl (cc)
  climb_binding (suc f) i w s t s' t' x y r hs ht px py u v e k =
      elim (climb-cases node P node_P f i w s s' x r e) [
        | inl (off, kept) ↦ elim (climb-cases node P node_P f i w t t' y r k) [
          | inl (_, kept') ↦ inl (kept ∙ sym kept')
          | inr (on, _) ↦ absurd (cc)
        ]
        | inr (on, (x1, s1, go, up)) ↦ elim (climb-cases node P node_P f i w t t' y r k) [
          | inl (off, _) ↦ absurd (cc)
          | inr (_, (y1, t1, go', up')) ↦
              let (hs1, px1) = absorb_P node P node_P i w s s1 x x1 hs px go in
              let (ht1, py1) = absorb_P node P node_P i w t t1 y y1 ht py go' in
              let (here, above) =
                All-split L (absorb_notes node note i w s x) _
                  (subst (All L) (walk_notes_round node note f i w s s1 x x1 on go) u) in
              let (here', above') =
                All-split R (absorb_notes node note i w t y) _
                  (subst (All R) (walk_notes_round node note f i w t t1 y y1 on go') v) in
              elim (climb_binding f (i / 2) ((w + 1) / 2) s1 t1 s' t' x1 y1 r hs1 ht1 px1 py1 above
                above' up up') [
                  | inl same ↦
                      absorb_binding i w s t s1 t1 x y x1 y1 hs ht px py here here' go go' same
                  | inr found ↦ inr found
                ]
        ]
      ]

  -- Whoever walks from an index of a tree to its root has started at the leaf that stands there.
  climb-tree_root :
      (l : List D) (i : ℕ) (s : List (Sibling D)) (x y r : D)
      → All P l
      → All (λ h. P h.hash) s
      → P x
      → P y
      → All L (walk_notes node note (length l) i (length l) s x)
      → All R (walk_notes node note (length l) i (length l) (path_from node (length l) l i) y)
      → get_elem? l i ≡ some y
      → tree_root node l ≡ some r
      → climb node (length l) i (length l) s x ≡ some (r, [])
      → (x ≡ y) ⊎ Clash
  unfolding tree_root
  climb-tree_root l i s x y r pl hs px py u v at root walk =
      let (r', up, top) = climb-path_from node (length l) l i y at (omega arith) in
      let both : some r' ≡ some r = unfold head? in sym (ap head? top) ∙ root in
      let same : r' ≡ r = cc both in
      climb_binding (length l) i (length l) s (path_from node (length l) l i) [] [] x y r hs
        (path_from-All node P node_P (length l) l i pl) px py u v walk
        (subst
          (λ q. climb node (length l) i (length l) (path_from node (length l) l i) y ≡ some (q, []))
          same up)

  -- The same of a walk with the width of the tree and one along the path that the tree gives.
  pub walks_binding :
      (l : List D) (i i' w w' : ℕ) (s s' : List (Sibling D)) (x y r : D)
      → All P l
      → All (λ h. P h.hash) s
      → P x
      → P y
      → w ≡ length l
      → w' ≡ length l
      → i' ≡ i
      → s' ≡ path_from node (length l) l i
      → All L (walk_notes node note w i w s x)
      → All R (walk_notes node note w' i' w' s' y)
      → get_elem? l i ≡ some y
      → tree_root node l ≡ some r
      → climb node w i w s x ≡ some (r, [])
      → (x ≡ y) ⊎ Clash
  walks_binding l i i' w w' s s' x y r pl hs px py width width' index path u v at root walk =
      climb-tree_root l i s x y r pl hs px py
        (subst (λ k. All L (walk_notes node note k i k s x)) width u)
        (subst (λ t. All R (walk_notes node note (length l) i (length l) t y)) path
          (subst (λ j. All R (walk_notes node note (length l) j (length l) s' y)) index
            (subst (λ k. All R (walk_notes node note k i' k s' y)) width' v)))
        at root (subst (λ k. climb node k i k s x ≡ some (r, [])) width walk)
