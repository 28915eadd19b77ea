-- ===== src/Time.antt =====
-- Timestamps: `isTimestamp` of transparency.ts and validation.ts, a text of 24 characters that
-- `new Date(value).toISOString()` gives back. Those are the texts YYYY-MM-DDTHH:mm:ss.sssZ of a day
-- of the calendar and a time of that day; `Date` is the language's.
use agent_airlock.Prelude.{
  ℕ, ◌+◌, ◌-◌, ◌*◌, ◌%◌, ◌≡◌, refl, Bool, true, false, not, List, [], ◌∷◌, leb, ◌==◌, ◌&&◌, ◌||◌,
  if◌then◌else◌,
}
use agent_airlock.Prelude.Texts.{Text, codes}

abbrev is_digit : ℕ → Bool
is_digit c = leb 48 c && leb c 57

abbrev two : ℕ → ℕ → ℕ
two a b = 10 * (a - 48) + (b - 48)

is_leap_year : ℕ → Bool
is_leap_year y = y % 4 == 0 && (not (y % 100 == 0) || y % 400 == 0)

days_in_month : ℕ → ℕ → ℕ
unfolding is_leap_year
days_in_month y m =
    if m == 2
    then (if is_leap_year y then 29 else 28)
    else if m == 4 || m == 6 || m == 9 || m == 11
    then 30
    else 31

is_date : ℕ → ℕ → ℕ → Bool
unfolding days_in_month
is_date y m d = leb 1 m && leb m 12 && leb 1 d && leb d (days_in_month y m)

is_clock_time : ℕ → ℕ → ℕ → Bool
is_clock_time h m s = leb h 23 && leb m 59 && leb s 59

are_digits : List ℕ → Bool
are_digits [] = true
are_digits (c ∷ s) = is_digit c && are_digits s

unfoldable pub is_timestamp : Text → Bool
unfolding is_date is_clock_time are_digits
is_timestamp
      (y1 ∷ y2 ∷ y3 ∷ y4 ∷ dash1 ∷ m1 ∷ m2 ∷ dash2 ∷ d1 ∷ d2 ∷ t ∷ h1 ∷ h2 ∷ colon1 ∷ i1 ∷ i2
        ∷ colon2 ∷ s1 ∷ s2 ∷ dot ∷ k1 ∷ k2 ∷ k3 ∷ z ∷ []) =
    are_digits
      (y1 ∷ y2 ∷ y3 ∷ y4 ∷ m1 ∷ m2 ∷ d1 ∷ d2 ∷ h1 ∷ h2 ∷ i1 ∷ i2 ∷ s1 ∷ s2 ∷ k1 ∷ k2 ∷ k3 ∷ [])
    && dash1 == b'-'
    && dash2 == b'-'
    && t == b'T'
    && colon1 == b':'
    && colon2 == b':'
    && dot == b'.'
    && z == b'Z'
    && is_date (100 * two y1 y2 + two y3 y4) (two m1 m2) (two d1 d2)
    && is_clock_time (two h1 h2) (two i1 i2) (two s1 s2)
is_timestamp _ = false

leap_day : is_timestamp (codes "2024-02-29T23:59:59.999Z") ≡ true
unfolding is_timestamp
leap_day = refl

no_leap_day : is_timestamp (codes "2023-02-29T00:00:00.000Z") ≡ false
unfolding is_timestamp
no_leap_day = refl
