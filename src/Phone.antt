-- ===== src/Phone.antt =====
-- core/phone.py: the lenient `normalize_e164` and the strict `parse_destination`.
pub mod Normal
pub mod Strict
use sim_bridge.Prelude.{
  ℕ, leb, nat_eq, Text, codes, is_empty, starts_with, strip, decimals, is_decimal, Bool, true,
  false, not, ◌&&◌, ◌||◌, suc, List, [], ◌∷◌, ◌++◌, Option, none, some, or_else, length, drop,
  if◌then◌else◌,
}

-- The digits that a text starts with, and what follows them.
unfoldable pub digit_run : Text → ℕ
digit_run [] = 0
digit_run (c ∷ s) = let rest = digit_run s in if is_decimal c then suc rest else 0

unfoldable pub after_digits : Text → Text
after_digits [] = []
after_digits (c ∷ s) = let rest = after_digits s in if is_decimal c then rest else c ∷ s

-- `$` of a pattern matches at the end and before a last line feed.
abbrev pub at_end : Text → Bool
at_end [] = true
at_end (c ∷ []) = nat_eq c 10
at_end (c ∷ d ∷ s) = false

-- `\d{low,high}$`
unfoldable pub digits_to_end : ℕ → ℕ → Text → Bool
digits_to_end low high s =
    leb low (digit_run s) && leb (digit_run s) high && at_end (after_digits s)

-- `^c\d{low,high}$`
unfoldable pub led_by : ℕ → ℕ → ℕ → Text → Bool
led_by first low high [] = false
led_by first low high (c ∷ s) = nat_eq c first && digits_to_end low high s

-- `_E164_RE`
abbrev pub is_e164 : Text → Bool
is_e164 s = led_by 43 1 15 s

abbrev checked : Text → Option Text
checked result = if is_e164 result then some result else none

-- The body of `normalize_e164` on the stripped number, whose digits are `digits`.
unfoldable pub normalized : Bool → Text → Option Text
normalized has_plus digits =
    if is_empty digits || leb (length digits) 6
    then none
    else if has_plus
    then checked (43 ∷ digits)
    else if starts_with digits (codes "8") && nat_eq (length digits) 11
    then some (codes "+7" ++ drop 1 digits)
    else if starts_with digits (codes "7") && nat_eq (length digits) 11
    then some (43 ∷ digits)
    else checked (43 ∷ digits)

unfoldable pub normalize_e164 : Text → Option Text
normalize_e164 raw =
    if is_empty raw || is_empty (strip raw)
    then none
    else normalized (starts_with (strip raw) (codes "+")) (decimals (strip raw))

unfoldable pub is_service_number : Text → Bool
is_service_number number =
    leb 2 (length (decimals number))
    && leb (length (decimals number)) 6
    && not (
        starts_with number (codes "+")
        || starts_with number (codes "7")
        || starts_with number (codes "8"))

pub record Destination : Type 0 where
  pub number : Text
  pub is_internal : Bool

abbrev external : Text → Destination
external number = record { number = number; is_internal = false }

abbrev internal : Text → Destination
internal number = record { number = number; is_internal = true }

-- `parse_destination` on the stripped input.
unfoldable pub destination_of : Text → Option Destination
destination_of s =
    if led_by 43 11 15 s
    then some (external s)
    else if led_by 56 10 14 s
    then some (external (codes "+7" ++ drop 1 s))
    else if digits_to_end 3 3 s
    then some (external s)
    else if digits_to_end 4 4 s
    then some (internal s)
    else none

abbrev pub parse_destination : Option Text → Option Destination
parse_destination raw = destination_of (strip (or_else raw []))
