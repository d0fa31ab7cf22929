-- ===== src/Phone/Normal.antt =====
-- core/phone.py: what `normalize_e164` returns and what it makes of the forms of one number.
use sim_bridge.Prelude.{
  none, length-keep_if-le, Bool-cases, ℕ, ◌≤◌, Text, codes, is_empty, starts_with, strip,
  left_strip, right_strip, decimals, is_decimal, plus_not_decimal, plus_not_space,
  decimal_not_space, seven_decimal, eight_decimal, Bool, true, false, [], ◌∷◌, ◌++◌, some, length,
  All, keep_if-All, ◌≡◌, ◌⊎◌, inl, inr, refl, arith, ◌∙◌,
}
use sim_bridge.Phone.{digit_run, after_digits, digits_to_end, led_by, normalized, normalize_e164}

unfoldable pub Digits : Text → Type 0
Digits s = All (λ c. is_decimal c ≡ true) s

-- A plus sign and seven to fifteen digits.
unfoldable pub IsE164 : Text → Type 0
IsE164 t = (ds : Text) × (t ≡ 43 ∷ ds) × Digits ds × (7 ≤ length ds) × (length ds ≤ 15)

pub digit_run-Digits : (s : Text) → Digits s → (digit_run s ≡ length s) × (after_digits s ≡ [])
unfolding digit_run after_digits Digits
digit_run-Digits [] d = (refl, refl)
digit_run-Digits (c ∷ s) d = ground (arith, digit_run-Digits s d.1)

decimals-Digits : (s : Text) → Digits (decimals s)
unfolding Digits
decimals-Digits s = keep_if-All is_decimal s

pub decimals_all : (s : Text) → Digits s → decimals s ≡ s
unfolding Digits
decimals_all [] d = refl
decimals_all (c ∷ s) d = ground (arith, decimals_all s d.1)

left_strip-decimals : (s : Text) → decimals (left_strip s) ≡ decimals s
unfolding left_strip
left_strip-decimals [] = refl
left_strip-decimals (c ∷ s) = ground (arith, left_strip-decimals s, decimal_not_space c)

right_strip-decimals : (s : Text) → decimals (right_strip s) ≡ decimals s
unfolding right_strip
right_strip-decimals [] = refl
right_strip-decimals (c ∷ s) = ground (arith, right_strip-decimals s, decimal_not_space c)

strip-decimals : (s : Text) → decimals (strip s) ≡ decimals s
strip-decimals s = right_strip-decimals (left_strip s) ∙ left_strip-decimals s

pub right_strip-Digits : (s : Text) → Digits s → right_strip s ≡ s
unfolding right_strip Digits
right_strip-Digits [] d = refl
right_strip-Digits (c ∷ s) d = ground (arith, right_strip-Digits s d.1, decimal_not_space c)

pub strip_plus : (ds : Text) → Digits ds → strip (43 ∷ ds) ≡ 43 ∷ ds
unfolding left_strip right_strip
strip_plus ds d = ground (arith, plus_not_space, right_strip-Digits ds d)

digits_to_end-Digits :
    (low high : ℕ) (ds : Text)
    → Digits ds
    → low ≤ length ds
    → length ds ≤ high
    → digits_to_end low high ds ≡ true
unfolding digits_to_end
digits_to_end-Digits low high ds d l h = ground (arith, digit_run-Digits ds d)

normalized-result :
    (has_plus : Bool) (c : ℕ) (ds n : Text)
    → Digits (c ∷ ds)
    → normalized has_plus (c ∷ ds) ≡ some n
    → ((n ≡ 43 ∷ c ∷ ds) ⊎ (n ≡ 43 ∷ 55 ∷ ds)) × (6 ≤ length ds) × (length ds ≤ 14)
unfolding normalized led_by digits_to_end starts_with
normalized-result has_plus c ds n d e =
    ground (arith, digit_run-Digits (c ∷ ds) d, seven_decimal, eight_decimal)

normalized-IsE164 :
    (has_plus : Bool) (ds n : Text) → Digits ds → normalized has_plus ds ≡ some n → IsE164 n
unfolding IsE164 Digits
normalized-IsE164 has_plus [] n d e = unfold normalized in ground arith
normalized-IsE164 has_plus (c ∷ ds) n d e =
    let r = normalized-result has_plus c ds n d e in
    elim (r.0) [
      | inl same ↦ (c ∷ ds, same, d, ground arith, ground arith)
      | inr seven ↦ (55 ∷ ds, seven, (seven_decimal, d.1), ground arith, ground arith)
    ]

pub normalize_e164-IsE164 : (raw n : Text) → normalize_e164 raw ≡ some n → IsE164 n
unfolding normalize_e164
normalize_e164-IsE164 raw n e = ground (
  arith,
  normalized-IsE164 (starts_with (strip raw) (codes "+")) (decimals (strip raw)) n
      (decimals-Digits (strip raw)),
)

normalized-plus :
    (ds : Text) → Digits ds → 7 ≤ length ds → length ds ≤ 15 → normalized true ds ≡ some (43 ∷ ds)
unfolding normalized led_by
normalized-plus [] d l h = ground arith
normalized-plus (c ∷ ds) d l h = ground (arith, digits_to_end-Digits 1 15 (c ∷ ds) d)

-- Each such text is its own normal form.
pub IsE164-normal : (n : Text) → IsE164 n → normalize_e164 n ≡ some n
unfolding normalize_e164 starts_with IsE164
IsE164-normal n (ds, e, d, l, h) =
    ground (arith, strip_plus ds d, plus_not_decimal, decimals_all ds d, normalized-plus ds d l h)

-- What normalize_e164 returns is a plus sign and seven to fifteen digits, and normalizing it again
-- changes nothing.
pub normalize_e164_fixed :
    (raw n : Text) → normalize_e164 raw ≡ some n → IsE164 n × (normalize_e164 n ≡ some n)
normalize_e164_fixed raw n e =
    (normalize_e164-IsE164 raw n e, IsE164-normal n (normalize_e164-IsE164 raw n e))

-- The ways in which a Russian number of ten digits after its prefix is written: with an 8 and no plus
-- sign, or with a 7. Characters that are not digits may stand anywhere.
unfoldable pub WritesRussian : Text → Text → Type 0
WritesRussian ds raw =
    ((decimals raw ≡ 56 ∷ ds) × (starts_with (strip raw) (codes "+") ≡ false))
    ⊎ (decimals raw ≡ 55 ∷ ds)

normalized_eight :
    (ds : Text) → Digits ds → length ds ≡ 10 → normalized false (56 ∷ ds) ≡ some (43 ∷ 55 ∷ ds)
unfolding normalized starts_with
normalized_eight ds d l = ground arith

normalized_seven :
    (has_plus : Bool) (ds : Text)
    → Digits ds
    → length ds ≡ 10
    → normalized has_plus (55 ∷ ds) ≡ some (43 ∷ 55 ∷ ds)
unfolding normalized starts_with Digits
normalized_seven true ds d l = ground (arith, normalized-plus (55 ∷ ds) (seven_decimal, d))
normalized_seven false ds d l = ground arith

nonempty_decimals : (s ds : Text) (c : ℕ) → decimals s ≡ c ∷ ds → is_empty s ≡ false
nonempty_decimals [] ds c e = ground arith
nonempty_decimals (d ∷ s) ds c e = refl

-- However a Russian number of ten digits is written, with 8, 7 or +7 and with any punctuation and
-- spaces, normalize_e164 returns +7 and the ten digits.
pub normalize_e164_russian :
    (ds raw : Text)
    → Digits ds
    → length ds ≡ 10
    → WritesRussian ds raw
    → normalize_e164 raw ≡ some (codes "+7" ++ ds)
unfolding normalize_e164 WritesRussian
normalize_e164_russian ds raw d l (inl (e, p)) = ground (
  arith,
  strip-decimals raw,
  nonempty_decimals raw ds 56 e,
  nonempty_decimals (strip raw) ds 56,
  normalized_eight ds d l,
)
normalize_e164_russian ds raw d l (inr e) = ground (
  arith,
  strip-decimals raw,
  nonempty_decimals raw ds 55 e,
  nonempty_decimals (strip raw) ds 55,
  normalized_seven (starts_with (strip raw) (codes "+")) ds d l,
)

-- A text of at most six characters is no number.
pub short_number : (s : Text) → length s ≤ 6 → normalize_e164 s ≡ none
unfolding normalize_e164 normalized
short_number s h = ground (
  arith,
  strip-decimals s,
  length-keep_if-le is_decimal s,
  Bool-cases (is_empty (decimals (strip s))),
)
