-- ===== src/Tree.antt =====
-- The hash tree that packages/portable-promotion-receipt/src/merkle.ts and transparency.ts write
-- out, each for its own node hash: here over any type of digests and any such hash.
pub mod Inclusion
pub mod Root
pub mod Frontier
pub mod Notes
pub mod Binding
pub mod Walks
pub mod WalkBinding
pub mod Digests
use agent_airlock.Prelude.{
  ℕ, zero, suc, ◌+◌, ◌-◌, ◌/◌, ◌%◌, Bool, true, false, List, [], ◌∷◌, ◌++◌, Option, none, some,
  length, get_elem?, ltb, ◌==◌, ◌||◌, if◌then◌else◌,
}

pub data Direction : Type 0 where
  left right : Direction

pub record Sibling (D : Type 0) : Type 0 where
  pub direction : Direction
  pub hash : D

abbrev pub is_left : Direction → Bool
is_left left = true
is_left right = false

-- The sibling that a level gives the index, if the index has one.
abbrev pub sibling {ℓ} : {A : Type ℓ} {B : Type 0} → (A → B) → Option A → List B
sibling f none = []
sibling f (some a) = f a ∷ []

module _ {D : Type 0} where
  unfoldable pub sibling_at : List D → ℕ → List (Sibling D)
  sibling_at level index =
      if index % 2 == 1
      then sibling (λ h. record { direction = left; hash = h }) (get_elem? level (index - 1))
      else if ltb (index + 1) (length level)
      then sibling (λ h. record { direction = right; hash = h }) (get_elem? level (index + 1))
      else []

  unfoldable pub head? : List D → Option D
  head? [] = none
  head? (a ∷ l) = some a

module _ {D : Type 0} (node : D → D → D) where
  -- One round: `next.push(right ? hash(left, right) : left)` for each pair.
  unfoldable pub next_level : List D → List D
  next_level [] = []
  next_level (a ∷ []) = a ∷ []
  next_level (a ∷ b ∷ r) = node a b ∷ next_level r

  -- `while (level.length > 1) level = next`.
  unfoldable pub last_level : ℕ → List D → List D
  last_level zero level = level
  last_level (suc f) level = elim (ltb 1 (length level)) [
    | true ↦ last_level f (next_level level)
    | false ↦ level
  ]

  -- `level[0]` after the loop. A round shortens the level, so its length is enough fuel.
  unfoldable pub tree_root : List D → Option D
  unfolding last_level head?
  tree_root level = head? (last_level (length level) level)

  -- The siblings pushed by the loop that walks up from the index.
  unfoldable pub path_from : ℕ → List D → ℕ → List (Sibling D)
  path_from zero level index = []
  path_from (suc f) level index = elim (ltb 1 (length level)) [
    | true ↦ sibling_at level index ++ path_from f (next_level level) (index / 2)
    | false ↦ []
  ]

  -- `buildLevels`: every level, the leaves first.
  unfoldable pub build_levels : ℕ → List D → List (List D)
  build_levels zero level = level ∷ []
  build_levels (suc f) level = elim (ltb 1 (length level)) [
    | true ↦ level ∷ build_levels f (next_level level)
    | false ↦ level ∷ []
  ]

  -- `buildSiblings`: the loop over `levels.slice(0, -1)`.
  unfoldable pub build_siblings : List (List D) → ℕ → List (Sibling D)
  build_siblings [] index = []
  build_siblings (level ∷ []) index = []
  build_siblings (level ∷ above ∷ more) index =
      sibling_at level index ++ build_siblings (above ∷ more) (index / 2)

  -- The verifier's use of one sibling, which has to stand on the other side.
  abbrev pub take_sibling : Bool → List (Sibling D) → D → Option (D × List (Sibling D))
  take_sibling is_right [] current = none
  take_sibling true (s ∷ rest) current =
      if is_left s.direction then some (node s.hash current, rest) else none
  take_sibling false (s ∷ rest) current =
      if is_left s.direction then none else some (node current s.hash, rest)

  -- One round of the verifier: the running hash and the siblings not yet used, or `return false`.
  unfoldable pub absorb : ℕ → ℕ → List (Sibling D) → D → Option (D × List (Sibling D))
  absorb index width siblings current =
      if index % 2 == 1 || ltb (index + 1) width
      then take_sibling (index % 2 == 1) siblings current
      else some (current, siblings)

  -- `while (width > 1)` of the verifier; a round lowers the width, so it is enough fuel.
  unfoldable pub climb : ℕ → ℕ → ℕ → List (Sibling D) → D → Option (D × List (Sibling D))
  climb zero index width siblings current = some (current, siblings)
  climb (suc f) index width siblings current = elim (ltb 1 width) [
    | true ↦ elim (absorb index width siblings current) [
      | none ↦ none
      | some (next, rest) ↦ climb f (index / 2) ((width + 1) / 2) rest next
    ]
    | false ↦ some (current, siblings)
  ]
