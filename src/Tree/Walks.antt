-- ===== src/Tree/Walks.antt =====
-- The rounds of a walk up to a root, and that they keep digests well formed.
use agent_airlock.Prelude.{
  ℕ, zero, suc, ◌+◌, ◌/◌, ◌%◌, ◌≡◌, sym, subst, ◌⊎◌, inl, inr, Bool, true, false, List, [], ◌∷◌,
  some, length, ltb, ◌==◌, ◌-◌, if◌then◌else◌, get_elem?, All, All-append, Bool-cases, Option-cases,
  arith,
}
use agent_airlock.Tree.Binding.{next_level-All}
use agent_airlock.Tree.{
  Sibling, Direction, sibling, sibling_at, next_level, path_from, take_sibling, absorb, climb,
}
use agent_airlock.Tree.Notes.{uses_sibling}
use agent_airlock.Tree.Inclusion.{path_from_round}

-- What the node hash has to be: it keeps digests well formed.
module _ {D : Type 0} (node : D → D → D) (P : D → Type 0)
    (node_P : (a b : D) → P a → P b → P (node a b)) where
  abbrev pub AllHashes : List (Sibling D) → Type 0
  AllHashes = All (λ s. P s.hash)

  -- What a round did: nothing, or the hash of the next sibling with the running one.
  abbrev pub combine : Bool → D → D → D
  combine true h x = node h x
  combine false h x = node x h

  take_sibling-cases :
      (b : Bool) (s s' : List (Sibling D)) (x x' : D)
      → take_sibling node b s x ≡ some (x', s')
      → (t : Sibling D) × (s ≡ t ∷ s') × (x' ≡ combine b t.hash x)
  take_sibling-cases true (t ∷ rest) s' x x' e = (t, ground arith, ground arith)
  take_sibling-cases false (t ∷ rest) s' x x' e = (t, ground arith, ground arith)
  take_sibling-cases b [] s' x x' e = absurd (cc)

  pub absorb-cases :
      (i w : ℕ) (s s' : List (Sibling D)) (x x' : D)
      → absorb node i w s x ≡ some (x', s')
      → ((uses_sibling i w ≡ false) × (s ≡ s') × (x ≡ x'))
        ⊎ ((uses_sibling i w ≡ true)
            × ((t : Sibling D) × (s ≡ t ∷ s') × (x' ≡ combine (i % 2 == 1) t.hash x)))
  unfolding absorb
  absorb-cases i w s s' x x' e = elim (Bool-cases (uses_sibling i w)) [
    | inl used ↦ inr (used, take_sibling-cases (i % 2 == 1) s s' x x' (rw used at e))
    | inr not_used ↦ inl (not_used, cc (rw not_used at e), cc (rw not_used at e))
  ]

  combine_P : (b : Bool) (h x : D) → P h → P x → P (combine b h x)
  combine_P true h x p q = node_P h x p q
  combine_P false h x p q = node_P x h q p

  pub absorb_P :
      (i w : ℕ) (s s' : List (Sibling D)) (x x' : D)
      → AllHashes s
      → P x
      → absorb node i w s x ≡ some (x', s')
      → AllHashes s' × P x'
  absorb_P i w s s' x x' hs px e = elim (absorb-cases i w s s' x x' e) [
    | inl (_, same, kept) ↦ (subst AllHashes same hs, subst P kept px)
    | inr (_, (t, shape, made)) ↦
        let (pt, rest) = subst AllHashes shape hs in
        (rest, subst P (sym made) (combine_P (i % 2 == 1) t.hash x pt px))
  ]

  pub climb-cases :
      (f i w : ℕ) (s s' : List (Sibling D)) (x r : D)
      → climb node (suc f) i w s x ≡ some (r, s')
      → ((ltb 1 w ≡ false) × (x ≡ r))
        ⊎ ((ltb 1 w ≡ true)
            × ((y : D) × (rest : List (Sibling D)) × (absorb node i w s x ≡ some (y, rest))
                × (climb node f (i / 2) ((w + 1) / 2) rest y ≡ some (r, s'))))
  unfolding climb
  climb-cases f i w s s' x r e = elim (Bool-cases (ltb 1 w)) [
    | inl wide ↦ elim (Option-cases (absorb node i w s x)) [
      | inl stop ↦ absurd (ground arith)
      | inr ((y, rest), go) ↦ inr (wide, (y, rest, go, ground arith))
    ]
    | inr narrow ↦ inl (narrow, ground arith)
  ]

  All-if :
      (b : Bool) (s t : List (Sibling D))
      → AllHashes s
      → AllHashes t
      → AllHashes (if b then s else t)
  All-if true s t h k = h
  All-if false s t h k = k

  side-All :
      (d : Direction) (l : List D) (i : ℕ)
      → All P l
      → AllHashes (sibling (λ h. record { direction = d; hash = h }) (get_elem? l i))
  side-All d [] i h = tt
  side-All d (a ∷ l) zero h = (h.0, tt)
  side-All d (a ∷ l) (suc i) h = side-All d l i h.1

  -- The siblings of a level of well-formed digests are well formed.
  pub sibling_at-All : (l : List D) (i : ℕ) → All P l → AllHashes (sibling_at l i)
  unfolding sibling_at
  sibling_at-All l i h =
      All-if (i % 2 == 1) _ _ (side-All Direction.left l (i - 1) h)
        (All-if (ltb (i + 1) (length l)) _ _ (side-All Direction.right l (i + 1) h) tt)

  pub path_from-All : (f : ℕ) (l : List D) (i : ℕ) → All P l → AllHashes (path_from node f l i)
  path_from-All zero l i h = unfold path_from in tt
  path_from-All (suc f) [] i h = unfold path_from in tt
  path_from-All (suc f) (a ∷ []) i h = unfold path_from in tt
  path_from-All (suc f) (a ∷ b ∷ l) i h = rw path_from_round (
      All-append (λ s. P s.hash) _ _ (sibling_at-All (a ∷ b ∷ l) i h)
        (path_from-All f (node a b ∷ next_level node l) (i / 2)
          (unfold next_level in next_level-All node P node_P (a ∷ b ∷ l) h)))
