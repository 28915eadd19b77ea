-- ===== src/Tree/Binding.antt =====
-- What a root commits to: two trees of one size with one root are one tree, unless two different
-- pairs of digests that they join have one hash.
use agent_airlock.Prelude.{
  ℕ, zero, suc, ◌≤◌, ◌≡◌, refl, sym, ap, subst, ◌∙◌, ◌⊎◌, inl, inr, List, [], ◌∷◌, length, All,
  All-split, arith,
}
use agent_airlock.Tree.{head?, next_level, last_level, tree_root}
use agent_airlock.Tree.Notes.{round_notes, tree_notes, tree_notes_round}
use agent_airlock.Tree.Inclusion.{length-next_level, last_level_round}

pub next_level-All :
    {D : Type 0} (node : D → D → D) (P : D → Type 0)
    → ((a b : D) → P a → P b → P (node a b))
    → (l : List D) → All P l
    → All P (next_level node l)
unfolding next_level
next_level-All node P node_P [] h = tt
next_level-All node P node_P (a ∷ []) h = h
next_level-All node P node_P (a ∷ b ∷ l) (pa, (pb, pl)) =
    (node_P a b pa pb, next_level-All node P node_P l pl)

-- What the node hash has to be: it keeps digests well formed, and a digest of a pair that the left
-- side joins and a pair that the right side joins names them or is a collision.
module _ {D M : Type 0} (node : D → D → D) (note : D → D → M) (P : D → Type 0) (L R : M → Type 0)
    (Clash : Type 0) (node_P : (a b : D) → P a → P b → P (node a b))
    (node_split : (a b c d : D)
      → P a
      → P b
      → P c
      → P d
      → L (note a b)
      → R (note c d)
      → node a b ≡ node c d
      → ((a ≡ c) × (b ≡ d)) ⊎ Clash) where
  next_level_binding :
      (l m : List D)
      → length l ≡ length m
      → All P l
      → All P m
      → All L (round_notes node note l)
      → All R (round_notes node note m)
      → next_level node l ≡ next_level node m
      → (l ≡ m) ⊎ Clash
  unfolding next_level round_notes
  next_level_binding [] [] n p q u v e = inl refl
  next_level_binding [] (c ∷ m) n p q u v e = absurd (omega arith)
  next_level_binding (a ∷ l) [] n p q u v e = absurd (omega arith)
  next_level_binding (a ∷ []) (c ∷ []) n p q u v e = inl e
  next_level_binding (a ∷ []) (c ∷ d ∷ m) n p q u v e = absurd (omega arith)
  next_level_binding (a ∷ b ∷ l) (c ∷ []) n p q u v e = absurd (omega arith)
  next_level_binding (a ∷ b ∷ l) (c ∷ d ∷ m) n (pa, (pb, pl)) (pc, (pd, pm)) (u, us) (v, vs) e =
      elim (node_split a b c d pa pb pc pd u v (cc)) [
        | inr found ↦ inr found
        | inl (ac, bd) ↦ elim (next_level_binding l m (omega arith) pl pm us vs (cc)) [
          | inr found ↦ inr found
          | inl lm ↦ inl (cc)
        ]
      ]

  last_level_binding :
      (f : ℕ) (l m : List D)
      → length l ≤ suc f
      → length l ≡ length m
      → All P l
      → All P m
      → All L (tree_notes node note f l)
      → All R (tree_notes node note f m)
      → head? (last_level node f l) ≡ head? (last_level node f m)
      → (l ≡ m) ⊎ Clash
  last_level_binding f [] [] h n p q u v e = inl refl
  last_level_binding f [] (c ∷ m) h n p q u v e = absurd (omega arith)
  last_level_binding f (a ∷ l) [] h n p q u v e = absurd (omega arith)
  last_level_binding zero (a ∷ []) (c ∷ []) h n p q u v e = unfold last_level head? in inl (cc)
  last_level_binding (suc f) (a ∷ []) (c ∷ []) h n p q u v e = unfold last_level head? in inl (cc)
  last_level_binding f (a ∷ []) (c ∷ d ∷ m) h n p q u v e = absurd (omega arith)
  last_level_binding f (a ∷ b ∷ l) (c ∷ []) h n p q u v e = absurd (omega arith)
  last_level_binding zero (a ∷ b ∷ l) (c ∷ d ∷ m) h n p q u v e = absurd (omega arith)
  last_level_binding (suc f) (a ∷ b ∷ l) (c ∷ d ∷ m) h n p q u v e =
      let (here, above) =
        All-split L (round_notes node note (a ∷ b ∷ l)) _
          (subst (All L) (tree_notes_round node note f a b l) u) in
      let (here', above') =
        All-split R (round_notes node note (c ∷ d ∷ m)) _
          (subst (All R) (tree_notes_round node note f c d m) v) in
      elim (last_level_binding f (node a b ∷ next_level node l) (node c d ∷ next_level node m)
        (omega (arith, length-next_level node l))
        (omega (arith, length-next_level node l, length-next_level node m))
        (unfold next_level in next_level-All node P node_P (a ∷ b ∷ l) p)
        (unfold next_level in next_level-All node P node_P (c ∷ d ∷ m) q) above above'
        (ap head? (sym (last_level_round node f a b l))
          ∙ e
          ∙ ap head? (last_level_round node f c d m))) [
            | inl same ↦
                next_level_binding (a ∷ b ∷ l) (c ∷ d ∷ m) n p q here here'
                  (unfold next_level in same)
            | inr found ↦ inr found
          ]

  pub tree_root_binding :
      (l m : List D)
      → length l ≡ length m
      → All P l
      → All P m
      → All L (tree_notes node note (length l) l)
      → All R (tree_notes node note (length m) m)
      → tree_root node l ≡ tree_root node m
      → (l ≡ m) ⊎ Clash
  unfolding tree_root
  tree_root_binding l m n p q u v e =
      last_level_binding (length l) l m (omega arith) n p q u
        (subst (λ k. All R (tree_notes node note k m)) (sym n) v)
        (e ∙ ap (λ k. head? (last_level node k m)) (sym n))
