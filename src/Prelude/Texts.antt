-- ===== src/Prelude/Texts.antt =====
-- Texts of the program: lists of UTF-16 code units, which JavaScript's strings are.
use Prim.Native.Char.{code}
use Prim.Native.String.{String}
use Prim.Native.Nat.{ℕ}
use mathlib.Core.Path.{◌≡◌, refl, ap}
use mathlib.Core.Logic.{◌↔◌, inl, inr}
use mathlib.Core.Bool.{Bool, true, false, ◌&&◌}
use mathlib.Core.List.{List, [], ◌∷◌, ◌++◌}
use native.Mathlib.Omega.{arith}
use agent_airlock.Prelude.Tests.{◌==◌, if◌then◌else◌, Bool-cases}
use agent_airlock.Prelude.Lists.{any}

abbrev pub Text : Type 0
Text = List ℕ

-- The code units of a text literal; every literal of the model is ASCII.
abbrev pub codes : String → Text
codes String.[] = []
codes (String.◌∷◌ c s) = code c ∷ codes s

-- `left === right` on two texts.
unfoldable pub text_eq : Text → Text → Bool
text_eq [] [] = true
text_eq (a ∷ s) (b ∷ t) = a == b && text_eq s t
text_eq _ _ = false

-- `texts.includes(t)`, and `seen.has(t)` on a set of texts.
abbrev pub includes : List Text → Text → Bool
includes texts t = any (λ s. text_eq s t) texts

-- `path.split("/")`, with the part read so far.
unfoldable pub split : Text → Text → List Text
split [] part = part ∷ []
split (c ∷ rest) part =
    let next = split rest [] in
    let longer = split rest (part ++ c ∷ []) in if c == b'/' then part ∷ next else longer

pub text_eq_refl : (s : Text) → text_eq s s ≡ true
unfolding text_eq
text_eq_refl [] = refl
text_eq_refl (a ∷ s) = ground (arith, text_eq_refl s)

pub eq_of_text_eq : (s t : Text) → text_eq s t ≡ true → s ≡ t
unfolding text_eq
eq_of_text_eq [] [] h = refl
eq_of_text_eq (a ∷ s) (b ∷ t) h = ground (arith, eq_of_text_eq s t)
eq_of_text_eq [] (b ∷ t) h = cc
eq_of_text_eq (a ∷ s) [] h = cc

pub text_eq_iff : (s t : Text) → (text_eq s t ≡ true) ↔ (s ≡ t)
text_eq_iff s t = (eq_of_text_eq s t, λ e. rw e (text_eq_refl t))

pub text_eq_apart : (s t : Text) → (s ≡ t → ⊥) → text_eq s t ≡ false
text_eq_apart s t apart = elim (Bool-cases (text_eq s t)) [
  | inl same ↦ absurd (apart (eq_of_text_eq s t same))
  | inr differ ↦ differ
]

pub apart_of_text_eq : (s t : Text) → text_eq s t ≡ false → s ≡ t → ⊥
apart_of_text_eq s t differ same = cc (differ, same, text_eq_refl s, ap (text_eq s) same)
