-- ===== src/Tree/Frontier.antt =====
-- The frontier of `TransparencyRootAccumulator` (transparency.ts): a binary counter whose digit at a
-- height is the root of a perfect subtree, or null. It gives the root of the whole tree.
use agent_airlock.Prelude.{
  ◌≡◌, refl, sym, ap, ◌∙◌, List, [], ◌∷◌, ◌++◌, Option, none, some, append-nil, append_assoc,
}
use agent_airlock.Tree.{next_level, tree_root}
use agent_airlock.Tree.Root.{
  tree_root-next_level, flat, hash_pairs, next_level-flat, flat-append, hash_pairs-append,
}

module _ {D : Type 0} (node : D → D → D) where
  -- The loop of `append`: null the digits that it carries over, and set the first free one.
  unfoldable pub carry : List (Option D) → D → List (Option D)
  carry [] hash = some hash ∷ []
  carry (none ∷ frontier) hash = some hash ∷ frontier
  carry (some x ∷ frontier) hash = none ∷ carry frontier (node x hash)

  -- The loop of `root`, from the lowest digit up.
  unfoldable pub frontier_root : List (Option D) → Option D → Option D
  frontier_root [] root = root
  frontier_root (none ∷ frontier) root = frontier_root frontier root
  frontier_root (some x ∷ frontier) none = frontier_root frontier (some x)
  frontier_root (some x ∷ frontier) (some root) = frontier_root frontier (some (node x root))

  -- The frontier stands for a level: a digit for its last element if that has no partner, and the
  -- rest for the level of its pairs.
  pub data Holds : List (Option D) → List D → Type 0 where
    no_digit : {l : List D} → l ≡ [] → Holds [] l
    even :
        {f : List (Option D)} {l : List D} (ps : List (D × D))
        → l ≡ flat node ps
        → Holds f (hash_pairs node ps)
        → Holds (none ∷ f) l
    odd :
        {f : List (Option D)} {l : List D} (ps : List (D × D)) (x : D)
        → l ≡ flat node ps ++ x ∷ []
        → Holds f (hash_pairs node ps)
        → Holds (some x ∷ f) l

  pub carry-Holds :
      {f : List (Option D)} {l : List D} (h : D) → Holds f l → Holds (carry f h) (l ++ h ∷ [])
  unfolding carry
  carry-Holds h (no_digit e) = odd [] h (ap (λ l. l ++ h ∷ []) e) (no_digit refl)
  carry-Holds h (even ps e rest) = odd ps h (ap (λ l. l ++ h ∷ []) e) rest
  carry-Holds h (odd ps x e rest) =
      even (ps ++ (x, h) ∷ [])
        (ap (λ l. l ++ h ∷ []) e
          ∙ append_assoc (flat node ps) (x ∷ []) (h ∷ [])
          ∙ sym (flat-append node ps ((x, h) ∷ [])))
        (rw (hash_pairs-append node ps ((x, h) ∷ [])) (carry-Holds (node x h) rest))

  abbrev pub to_list : Option D → List D
  to_list none = []
  to_list (some x) = x ∷ []

  next_level-to_list : (r : Option D) → next_level node (to_list r) ≡ to_list r
  unfolding next_level
  next_level-to_list none = refl
  next_level-to_list (some x) = refl

  tree_root-to_list : (r : Option D) → r ≡ tree_root node (to_list r)
  unfolding tree_root
  tree_root-to_list none = refl
  tree_root-to_list (some x) = refl

  -- One level up, with what the lower digits have come to.
  tree_root_up :
      (ps : List (D × D)) (r s : List D)
      → next_level node r ≡ s
      → tree_root node (hash_pairs node ps ++ s) ≡ tree_root node (flat node ps ++ r)
  tree_root_up ps r s e =
      ap (λ t. tree_root node (hash_pairs node ps ++ t)) (sym e)
      ∙ ap (tree_root node) (sym (next_level-flat node ps r))
      ∙ tree_root-next_level node (flat node ps ++ r)

  -- The fold over the frontier is the root of the level that it stands for.
  pub frontier_root-eq-tree_root :
      {f : List (Option D)} {l : List D} (r : Option D)
      → Holds f l
      → frontier_root f r ≡ tree_root node (l ++ to_list r)
  unfolding frontier_root
  frontier_root-eq-tree_root r (no_digit e) =
      tree_root-to_list r ∙ ap (λ l. tree_root node (l ++ to_list r)) (sym e)
  frontier_root-eq-tree_root r (even ps e rest) =
      frontier_root-eq-tree_root r rest
      ∙ tree_root_up ps (to_list r) (to_list r) (next_level-to_list r)
      ∙ ap (λ l. tree_root node (l ++ to_list r)) (sym e)
  frontier_root-eq-tree_root none (odd ps x e rest) =
      frontier_root-eq-tree_root (some x) rest
      ∙ tree_root_up ps (x ∷ []) (x ∷ []) (next_level-to_list (some x))
      ∙ ap (tree_root node) (sym (append-nil _ ∙ e))
  frontier_root-eq-tree_root (some y) (odd ps x e rest) =
      frontier_root-eq-tree_root (some (node x y)) rest
      ∙ tree_root_up ps (x ∷ y ∷ []) (node x y ∷ []) (unfold next_level in refl)
      ∙ ap (tree_root node)
          (sym (ap (λ l. l ++ y ∷ []) e ∙ append_assoc (flat node ps) (x ∷ []) (y ∷ [])))
