-- ===== src/Acl/Lines.antt =====
-- core/acl.py: `str.split` and `int`, by which a line is read.
use sim_bridge.Prelude.{
  ℕ, zero, suc, ◌+◌, ◌*◌, nat_eq, Text, is_space, is_decimal, Bool, true, false, ◌&&◌, List, [],
  ◌∷◌, Option, none, some, if◌then◌else◌, Comparable, ◌≡◌, ◌↔◌, arith, decimal_value,
}

-- A Python `int`.
pub data UserId : Type 0 where
  pos : ℕ → UserId
  negsuc : ℕ → UserId

unfoldable pub user_eq : UserId → UserId → Bool
user_eq (pos a) (pos b) = nat_eq a b
user_eq (pos a) (negsuc b) = false
user_eq (negsuc a) (pos b) = false
user_eq (negsuc a) (negsuc b) = nat_eq a b

pub user_eq_iff : (a b : UserId) → (user_eq a b ≡ true) ↔ (a ≡ b)
unfolding user_eq
user_eq_iff (pos a) (pos b) = ground arith
user_eq_iff (pos a) (negsuc b) = ground arith
user_eq_iff (negsuc a) (pos b) = ground arith
user_eq_iff (negsuc a) (negsuc b) = ground arith

instance abbrev pub user_Comparable : Comparable UserId
user_Comparable = record { equals = user_eq; equals_iff = user_eq_iff }

-- A word in front of the words that follow.
abbrev pub push : Text → List Text → List Text
push [] ws = ws
push (c ∷ w) ws = (c ∷ w) ∷ ws

-- The first word of a text, up to a space, and the words after it.
unfoldable pub split_words : Text → Text × List Text
split_words [] = ([], [])
split_words (c ∷ s) =
    let (w, ws) = split_words s in if is_space c then ([], push w ws) else (c ∷ w, ws)

-- `s.split()`
unfoldable pub words : Text → List Text
words s = let (w, ws) = split_words s in push w ws

-- Decimal digits with single underscores between them, after the value so far.
unfoldable pub parse_digits : ℕ → Text → Option ℕ
parse_digits n [] = some n
parse_digits n (c ∷ []) = if is_decimal c then some (n * 10 + decimal_value c) else none
parse_digits n (c ∷ d ∷ s) =
    let after_digit = parse_digits (n * 10 + decimal_value c) (d ∷ s) in
    let after_underscore = parse_digits (n * 10 + decimal_value d) s in
    if is_decimal c
    then after_digit
    else if nat_eq c 95 && is_decimal d
    then after_underscore
    else none

-- The number starts with a digit.
unfoldable pub parse_nat : Text → Option ℕ
parse_nat [] = none
parse_nat (c ∷ s) =
    let value = parse_digits (decimal_value c) s in if is_decimal c then value else none

abbrev negated : ℕ → UserId
negated zero = pos zero
negated (suc n) = negsuc n

abbrev signed : (ℕ → UserId) → Option ℕ → Option UserId
signed f none = none
signed f (some n) = some (f n)

-- `int(s)` of a word, of no more digits than `int` accepts
unfoldable pub parse_int : Text → Option UserId
parse_int [] = none
parse_int (c ∷ s) =
    if nat_eq c 45
    then signed negated (parse_nat s)
    else if nat_eq c 43
    then signed pos (parse_nat s)
    else signed pos (parse_nat (c ∷ s))
