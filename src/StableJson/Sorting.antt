-- ===== src/StableJson/Sorting.antt =====
-- Sorting by a comparison, as `Array.sort` does: the order of the result and its elements.
use mathlib.Core.List.{Permᴰ, Memᴰ}
use mathlib.Core.List.Permᴰ
use mathlib.Core.List.Memᴰ
use agent_airlock.Prelude.{
  suc, length, ap, ◌∙◌, ◌≡◌, refl, true, false, List, [], ◌∷◌, Ordering, inl, inr, All, Bool-cases,
}
use agent_airlock.StableJson.{insert, sort, is_gt}

module _ {A : Type 0} (order : A → A → Ordering) where
  -- Every element comes no later than those behind it.
  abbrev pub IsSorted : List A → Type 0
  IsSorted [] = Unit
  IsSorted (a ∷ l) = All (λ b. is_gt (order a b) ≡ false) l × IsSorted l

  insert-Permᴰ : (a : A) (l : List A) → Permᴰ (a ∷ l) (insert order a l)
  unfolding insert
  insert-Permᴰ a [] = Permᴰ.refl (a ∷ [])
  insert-Permᴰ a (b ∷ l) = elim (Bool-cases (is_gt (order a b))) [
    | inl later ↦ rw later (Permᴰ.trans (Permᴰ.swap refl refl) (Permᴰ.cons refl (insert-Permᴰ a l)))
    | inr sooner ↦ rw sooner (Permᴰ.refl (a ∷ b ∷ l))
  ]

  length-insert : (a : A) (l : List A) → length (insert order a l) ≡ suc (length l)
  unfolding insert
  length-insert a [] = refl
  length-insert a (b ∷ l) = elim (Bool-cases (is_gt (order a b))) [
    | inl later ↦ rw later (ap suc (length-insert a l))
    | inr sooner ↦ rw sooner refl
  ]

  pub length-sort : (l : List A) → length (sort order l) ≡ length l
  unfolding sort
  length-sort [] = refl
  length-sort (a ∷ l) = length-insert a (sort order l) ∙ ap suc (length-sort l)

  pub sort-Permᴰ : (l : List A) → Permᴰ l (sort order l)
  unfolding sort
  sort-Permᴰ [] = Permᴰ.refl []
  sort-Permᴰ (a ∷ l) = Permᴰ.trans (Permᴰ.cons refl (sort-Permᴰ l)) (insert-Permᴰ a (sort order l))

  insert-Memᴰ : (x a : A) (l : List A) → Memᴰ x (a ∷ l) → Memᴰ x (insert order a l)
  unfolding insert
  insert-Memᴰ x a [] m = m
  insert-Memᴰ x a (b ∷ l) m = elim (Bool-cases (is_gt (order a b))) [
    | inr sooner ↦ rw sooner m
    | inl later ↦ rw later (elim (Memᴰ.cases_cons m) [
      | inl e ↦ Memᴰ.tail (insert-Memᴰ x a l (Memᴰ.head e))
      | inr k ↦ elim (Memᴰ.cases_cons k) [
        | inl e ↦ Memᴰ.head e
        | inr j ↦ Memᴰ.tail (insert-Memᴰ x a l (Memᴰ.tail j))
      ]
    ])
  ]

  pub sort-Memᴰ : (x : A) (l : List A) → Memᴰ x l → Memᴰ x (sort order l)
  unfolding sort
  sort-Memᴰ x [] m = elim m [ ]
  sort-Memᴰ x (a ∷ l) (Memᴰ.head e) = insert-Memᴰ x a (sort order l) (Memᴰ.head e)
  sort-Memᴰ x (a ∷ l) (Memᴰ.tail m) = insert-Memᴰ x a (sort order l) (Memᴰ.tail (sort-Memᴰ x l m))

  module _ (Q : A → Type 0) where
    pub insert-All : (a : A) (l : List A) → Q a → All Q l → All Q (insert order a l)
    unfolding insert
    insert-All a [] p h = (p, tt)
    insert-All a (b ∷ l) p (q, h) = elim (Bool-cases (is_gt (order a b))) [
      | inl later ↦ rw later (q, insert-All a l p h)
      | inr sooner ↦ rw sooner (p, (q, h))
    ]

    pub sort-All : (l : List A) → All Q l → All Q (sort order l)
    unfolding sort
    sort-All [] h = tt
    sort-All (a ∷ l) (p, h) = insert-All a (sort order l) p (sort-All l h)

    insert-All_back : (a : A) (l : List A) → All Q (insert order a l) → Q a × All Q l
    unfolding insert
    insert-All_back a [] h = h
    insert-All_back a (b ∷ l) h = elim (Bool-cases (is_gt (order a b))) [
      | inl later ↦
          let (first, rest) = rw later at h in
          let (p, others) = insert-All_back a l rest in (p, (first, others))
      | inr sooner ↦ rw sooner at h
    ]

    pub sort-All_back : (l : List A) → All Q (sort order l) → All Q l
    unfolding sort
    sort-All_back [] h = tt
    sort-All_back (a ∷ l) h =
        let (p, others) = insert-All_back a (sort order l) h in (p, sort-All_back l others)

  module _ (P : A → Type 0)
      (total : (a b : A) → P a → P b → is_gt (order a b) ≡ true → is_gt (order b a) ≡ false)
      (trans : (a b c : A)
        → P a
        → P b
        → P c
        → is_gt (order a b) ≡ false
        → is_gt (order b c) ≡ false
        → is_gt (order a c) ≡ false) where
    All-trans :
        (a b : A) (l : List A)
        → P a
        → P b
        → All P l
        → is_gt (order a b) ≡ false
        → All (λ c. is_gt (order b c) ≡ false) l
        → All (λ c. is_gt (order a c) ≡ false) l
    All-trans a b [] pa pb h le k = tt
    All-trans a b (c ∷ l) pa pb (pc, h) le (first, k) =
        (trans a b c pa pb pc le first, All-trans a b l pa pb h le k)

    insert-IsSorted :
        (a : A) (l : List A) → P a → All P l → IsSorted l → IsSorted (insert order a l)
    unfolding insert
    insert-IsSorted a [] p h k = (tt, tt)
    insert-IsSorted a (b ∷ l) p (q, h) (behind, k) = elim (Bool-cases (is_gt (order a b))) [
      | inl later ↦ rw later (
        insert-All (λ c. is_gt (order b c) ≡ false) a l (total a b p q later) behind,
        insert-IsSorted a l p h k,
      )
      | inr sooner ↦ rw sooner ((sooner, All-trans a b l p q h sooner behind), (behind, k))
    ]

    pub sort-IsSorted : (l : List A) → All P l → IsSorted (sort order l)
    unfolding sort
    sort-IsSorted [] h = tt
    sort-IsSorted (a ∷ l) (p, h) =
        insert-IsSorted a (sort order l) p (sort-All P l h) (sort-IsSorted l h)
