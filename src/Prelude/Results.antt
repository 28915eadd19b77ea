-- ===== src/Prelude/Results.antt =====
-- Code that throws: a result or the text of the error.
use Prim.Native.String.{String, ◌++◌}
use Prim.Native.Nat.{ℕ, zero, suc}
use mathlib.Core.Path.{◌≡◌, refl, sym, ap, ◌∙◌, subst}
use mathlib.Core.Logic.{◌⊎◌, inl, inr}
use mathlib.Core.Option.{some}
use native.Mathlib.Omega.{arith}
use agent_airlock.Prelude.Lists.{length, get_elem?, take, All}
use mathlib.Core.Bool.{Bool, true, false}
use mathlib.Core.List.{List, [], ◌∷◌}

-- `thrown` carries the error's message.
pub data Result {ℓ} (T : Type ℓ) : Type ℓ where
  thrown : String → Result T
  ok : T → Result T

infixl 5 ◌>>=◌
abbrev pub ◌>>=◌ {ℓ κ} : {T : Type ℓ} {U : Type κ} → Result T → (T → Result U) → Result U
thrown message >>= next = thrown message
ok value >>= next = next value

infixl 5 ◌>>◌
abbrev pub ◌>>◌ {ℓ} : {U : Type ℓ} → Result (Unit {0}) → Result U → Result U
first >> second = first >>= λ (done : Unit {0}). second

-- `if (bad) throw new Error(message)`.
abbrev pub throw_if : Bool → String → Result (Unit {0})
throw_if true e = thrown e
throw_if false e = ok tt

pub throw_if_done :
    (bad : Bool) (message : String) {u : Unit {0}} → throw_if bad message ≡ ok u → bad ≡ false
throw_if_done true message e = absurd (cc)
throw_if_done false message e = refl

-- An error's message with a text before it.
abbrev pub with_prefix : String → String → String
with_prefix text message = text ++ message

-- `try { … } catch { return fallback }`.
abbrev pub catch {ℓ} : {A : Type ℓ} → Result A → A → A
catch (ok a) b = a
catch (thrown e) b = b

-- Where a chain gives a value, so does its first part, and the rest goes on from there.
pub >>=-eq_ok {ℓ κ} :
    {T : Type ℓ} {U : Type κ} (first : Result T) (next : T → Result U) {result : U}
    → (first >>= next) ≡ ok result
    → (value : T) × (first ≡ ok value) × (next value ≡ ok result)
>>=-eq_ok (thrown message) next e = cc
>>=-eq_ok (ok value) next e = (value, refl, e)

pub ok-injective {ℓ} : {A : Type ℓ} {a b : A} → ok a ≡ ok b → a ≡ b
ok-injective e = cc

pub Result-cases {ℓ} :
    {A : Type ℓ} (r : Result A) → ((a : A) × (r ≡ ok a)) ⊎ ((e : String) × (r ≡ thrown e))
Result-cases (ok a) = inl (a, refl)
Result-cases (thrown e) = inr (e, refl)

-- `values.map(f)` where `f` may throw: the first error stops the walk.
abbrev pub traverse {ℓ κ} : {A : Type ℓ} {B : Type κ} → (A → Result B) → List A → Result (List B)
traverse f [] = ok []
traverse f (x ∷ xs) = f x >>= λ y. traverse f xs >>= λ ys. ok (y ∷ ys)

module _ {ℓ κ} {A : Type ℓ} {B : Type κ} (f : A → Result B) where
  pub traverse-cases :
      (x : A) (xs : List A) (zs : List B)
      → traverse f (x ∷ xs) ≡ ok zs
      → (y : B) × (ys : List B) × (f x ≡ ok y) × (traverse f xs ≡ ok ys) × (zs ≡ y ∷ ys)
  traverse-cases x xs zs e =
      let (y, first, rest) = >>=-eq_ok (f x) (λ y. traverse f xs >>= λ ys. ok (y ∷ ys)) e in
      let (ys, others, made) = >>=-eq_ok (traverse f xs) (λ ys. ok (y ∷ ys)) rest in
      (y, ys, first, others, cc)

  pub length-traverse : (xs : List A) (ys : List B) → traverse f xs ≡ ok ys → length ys ≡ length xs
  length-traverse [] ys e = cc
  length-traverse (x ∷ xs) zs e =
      let (y, ys, _, others, made) = traverse-cases x xs zs e in
      ap length made ∙ ap suc (length-traverse xs ys others)

  -- What stands at an index came from what stood there.
  pub get_elem?-traverse :
      (xs : List A) (ys : List B) (i : ℕ) (x : A)
      → traverse f xs ≡ ok ys
      → get_elem? xs i ≡ some x
      → (y : B) × (get_elem? ys i ≡ some y) × (f x ≡ ok y)
  get_elem?-traverse [] ys i x e at = absurd (cc)
  get_elem?-traverse (x ∷ xs) zs zero z e at =
      let (y, ys, here, others, made) = traverse-cases x xs zs e in
      (y, ap (λ l. get_elem? l zero) made, ap f (cc) ∙ here)
  get_elem?-traverse (x ∷ xs) zs (suc i) z e at =
      let (y, ys, here, others, made) = traverse-cases x xs zs e in
      let (w, there, hashed) = get_elem?-traverse xs ys i z others at in
      (w, ap (λ l. get_elem? l (suc i)) made ∙ there, hashed)

  pub traverse-take :
      (n : ℕ) (xs : List A) (ys : List B)
      → traverse f xs ≡ ok ys
      → traverse f (take n xs) ≡ ok (take n ys)
  traverse-take zero xs ys e = refl
  traverse-take (suc n) [] ys e = ap (λ l. ok (take (suc n) l)) nothing
    where
      nothing : [] ≡ ys
      nothing = cc
  traverse-take (suc n) (x ∷ xs) zs e =
      let (y, ys, here, others, made) = traverse-cases x xs zs e in
      rw (here, traverse-take n xs ys others) (ap (λ l. ok (take (suc n) l)) (sym made))

  module _ {μ} (P : B → Type μ) (always : (x : A) (y : B) → f x ≡ ok y → P y) where
    pub traverse-All : (xs : List A) (ys : List B) → traverse f xs ≡ ok ys → All P ys
    traverse-All [] ys e = subst (All P) nothing tt
      where
        nothing : [] ≡ ys
        nothing = cc
    traverse-All (x ∷ xs) zs e =
        let (y, ys, here, others, made) = traverse-cases x xs zs e in
        subst (All P) (sym made) (always x y here, traverse-All xs ys others)

  -- If `f` gives no two inputs one result but by `C`, neither does the walk.
  module _ {μ} (C : Type μ) (L : A → Type μ) (R : A → Type μ)
      (split : (a b : A) (y : B) → L a → R b → f a ≡ ok y → f b ≡ ok y → (a ≡ b) ⊎ C) where
    pub traverse_split :
        (xs zs : List A) (ys : List B)
        → All L xs
        → All R zs
        → traverse f xs ≡ ok ys
        → traverse f zs ≡ ok ys
        → (xs ≡ zs) ⊎ C
    traverse_split [] [] ys u v e k = inl refl
    traverse_split [] (z ∷ zs) ys u v e k =
        absurd (omega (arith, length-traverse [] ys e, length-traverse (z ∷ zs) ys k))
    traverse_split (x ∷ xs) [] ys u v e k =
        absurd (omega (arith, length-traverse (x ∷ xs) ys e, length-traverse [] ys k))
    traverse_split (x ∷ xs) (z ∷ zs) ws (u, us) (v, vs) e k =
        let (y, ys, here, others, made) = traverse-cases x xs ws e in
        let (y', ys', here', others', made') = traverse-cases z zs ws k in
        elim (split x z y u v here (cc)) [
          | inr found ↦ inr found
          | inl head ↦ elim (traverse_split xs zs ys us vs others (cc)) [
            | inr found ↦ inr found
            | inl tail ↦ inl (cc)
          ]
        ]
