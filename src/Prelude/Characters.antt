-- ===== src/Prelude/Characters.antt =====
-- The tests on characters and the text functions of Python's `str` and `re`, on the tables of Unicode 15.
use Prim.Native.Nat.{ℕ, ◌+◌, ◌-◌}
use mathlib.Core.Path.{◌≡◌, refl}
use mathlib.Core.Bool.{Bool, true, false, ◌&&◌, ◌||◌}
use mathlib.Core.List.{List, [], ◌∷◌}
use native.Mathlib.Omega.{arith}
use sim_bridge.Prelude.Tests.{leb, ltb, if◌then◌else◌, nat_Comparable, Bool-cases}
use sim_bridge.Prelude.Lists.{any_of, contains, keep_if}
use sim_bridge.Prelude.Texts.{Text, is_empty}

-- The zero of every run of ten decimal digits (general category Nd).
abbrev zeros : List ℕ
zeros =
    48 ∷ 1632 ∷ 1776 ∷ 1984 ∷ 2406 ∷ 2534 ∷ 2662 ∷ 2790 ∷ 2918 ∷ 3046 ∷ 3174 ∷ 3302 ∷ 3430 ∷ 3558
    ∷ 3664 ∷ 3792 ∷ 3872 ∷ 4160 ∷ 4240 ∷ 6112 ∷ 6160 ∷ 6470 ∷ 6608 ∷ 6784 ∷ 6800 ∷ 6992 ∷ 7088
    ∷ 7232 ∷ 7248 ∷ 42528 ∷ 43216 ∷ 43264 ∷ 43472 ∷ 43504 ∷ 43600 ∷ 44016 ∷ 65296 ∷ 66720 ∷ 68912
    ∷ 69734 ∷ 69872 ∷ 69942 ∷ 70096 ∷ 70384 ∷ 70736 ∷ 70864 ∷ 71248 ∷ 71360 ∷ 71472 ∷ 71904 ∷ 72016
    ∷ 72784 ∷ 73040 ∷ 73120 ∷ 73552 ∷ 92768 ∷ 92864 ∷ 93008 ∷ 120782 ∷ 120792 ∷ 120802 ∷ 120812
    ∷ 120822 ∷ 123200 ∷ 123632 ∷ 124144 ∷ 125264 ∷ 130032 ∷ []

-- The further characters that `str.isdigit` accepts: first and last of each run.
abbrev other_digits : List (ℕ × ℕ)
other_digits =
    (178, 179)
    ∷ (185, 185)
    ∷ (4969, 4977)
    ∷ (6618, 6618)
    ∷ (8304, 8304)
    ∷ (8308, 8313)
    ∷ (8320, 8329)
    ∷ (9312, 9320)
    ∷ (9332, 9340)
    ∷ (9352, 9360)
    ∷ (9450, 9450)
    ∷ (9461, 9469)
    ∷ (9471, 9471)
    ∷ (10102, 10110)
    ∷ (10112, 10120)
    ∷ (10122, 10130)
    ∷ (68160, 68163)
    ∷ (69216, 69224)
    ∷ (69714, 69722)
    ∷ (127232, 127242)
    ∷ []

abbrev spaces : List ℕ
spaces =
    9 ∷ 10 ∷ 11 ∷ 12 ∷ 13 ∷ 28 ∷ 29 ∷ 30 ∷ 31 ∷ 32 ∷ 133 ∷ 160 ∷ 5760 ∷ 8192 ∷ 8193 ∷ 8194 ∷ 8195
    ∷ 8196 ∷ 8197 ∷ 8198 ∷ 8199 ∷ 8200 ∷ 8201 ∷ 8202 ∷ 8232 ∷ 8233 ∷ 8239 ∷ 8287 ∷ 12288 ∷ []

-- `\d` of a pattern on `str`
unfoldable pub is_decimal : ℕ → Bool
is_decimal c = any_of (λ z. leb z c && ltb c (z + 10)) zeros

-- `c.isdigit()`
unfoldable pub is_digit : ℕ → Bool
is_digit c = is_decimal c || any_of (λ r. leb r.0 c && leb c r.1) other_digits

-- `c.isspace()`
unfoldable pub is_space : ℕ → Bool
is_space c = contains c spaces

pub plus_not_decimal : is_decimal 43 ≡ false
unfolding is_decimal
plus_not_decimal = refl

pub seven_decimal : is_decimal 55 ≡ true
unfolding is_decimal
seven_decimal = refl

pub eight_decimal : is_decimal 56 ≡ true
unfolding is_decimal
eight_decimal = refl

pub plus_not_space : is_space 43 ≡ false
unfolding is_space contains
plus_not_space = refl

pub newline_space : is_space 10 ≡ true
unfolding is_space contains
newline_space = refl

any_of-contains :
    (p : ℕ → Bool) (c : ℕ) (xs : List ℕ) → p c ≡ true → contains c xs ≡ true → any_of p xs ≡ true
unfolding contains
any_of-contains p c [] h m = ground arith
any_of-contains p c (x ∷ xs) h m = ground (arith, any_of-contains p c xs h)

no_decimal_space : any_of is_decimal spaces ≡ false
unfolding is_decimal
no_decimal_space = refl

pub decimal_not_space : (c : ℕ) → is_decimal c ≡ true → is_space c ≡ false
unfolding is_space
decimal_not_space c h =
    ground (
      arith,
      any_of-contains is_decimal c spaces h,
      no_decimal_space,
      Bool-cases (contains c spaces),
    )

-- `s.lstrip()` and `s.rstrip()`
unfoldable pub left_strip : Text → Text
left_strip [] = []
left_strip (c ∷ s) = let rest = left_strip s in if is_space c then rest else c ∷ s

unfoldable pub right_strip : Text → Text
right_strip [] = []
right_strip (c ∷ s) =
    let rest = right_strip s in if is_empty rest && is_space c then [] else c ∷ rest

-- `s.strip()`
abbrev pub strip : Text → Text
strip s = right_strip (left_strip s)

-- `re.sub(r"[^\d]", "", s)`
abbrev pub decimals : Text → Text
decimals s = keep_if is_decimal s

abbrev value_from : List ℕ → ℕ → ℕ
value_from [] c = 0
value_from (z ∷ zs) c = if leb z c && ltb c (z + 10) then c - z else value_from zs c

-- The value of a decimal digit.
unfoldable pub decimal_value : ℕ → ℕ
decimal_value c = value_from zeros c
