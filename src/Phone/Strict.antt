-- ===== src/Phone/Strict.antt =====
-- core/phone.py: `parse_destination` accepts the four forms it names, and what it returns for each.
use sim_bridge.Prelude.{
  is_empty, decimal_not_space, subst, sym, ◌∙◌, ℕ, ◌≤◌, Text, codes, strip, left_strip, right_strip,
  newline_space, plus_not_decimal, true, false, [], ◌∷◌, ◌++◌, Option, some, or_else, length,
  seven_decimal, ◌≡◌, ◌↔◌, ◌⊎◌, inl, inr, refl, arith,
}
use sim_bridge.Phone.{
  after_digits, digits_to_end, led_by, at_end, normalize_e164, Destination, destination_of,
  parse_destination,
}
use sim_bridge.Phone.Normal.{
  right_strip-Digits, strip_plus, Digits, IsE164, digit_run-Digits, IsE164-normal,
}

-- The forms that the documentation of `parse_destination` allows, each with what it stands for.
pub Form : Text → Destination → Type 0
Form s d =
    ((ds : Text) × Digits ds
      × (11 ≤ length ds)
      × (length ds ≤ 15)
      × (s ≡ 43 ∷ ds)
      × (d.number ≡ s)
      × (d.is_internal ≡ false))
    ⊎ ((ds : Text) × Digits ds
        × (10 ≤ length ds)
        × (length ds ≤ 14)
        × (s ≡ 56 ∷ ds)
        × (d.number ≡ codes "+7" ++ ds)
        × (d.is_internal ≡ false))
    ⊎ (Digits s × (length s ≡ 3) × (d.number ≡ s) × (d.is_internal ≡ false))
    ⊎ (Digits s × (length s ≡ 4) × (d.number ≡ s) × (d.is_internal ≡ true))

-- A stripped text does not end in a line feed.
abbrev pub NoLineFeed : Text → Type 0
NoLineFeed s = right_strip s ≡ s

NoLineFeed-tail : (c : ℕ) (s : Text) → NoLineFeed (c ∷ s) → NoLineFeed s
unfolding right_strip
NoLineFeed-tail c s h = ground arith

pub right_strip_twice : (s : Text) → NoLineFeed (right_strip s)
unfolding right_strip
right_strip_twice [] = refl
right_strip_twice (c ∷ s) = ground (arith, right_strip_twice s)

Digits-if_at_end : (s : Text) → NoLineFeed s → at_end (after_digits s) ≡ true → Digits s
unfolding after_digits Digits right_strip
Digits-if_at_end [] n e = tt
Digits-if_at_end (c ∷ []) n e = ground (arith, newline_space)
Digits-if_at_end (c ∷ d ∷ s) n e =
    ground (arith, Digits-if_at_end (d ∷ s) (NoLineFeed-tail c (d ∷ s) n))

-- On a stripped text the pattern means what it says.
digits_to_end_iff :
    (low high : ℕ) (s : Text)
    → NoLineFeed s
    → (digits_to_end low high s ≡ true) ↔ (Digits s × (low ≤ length s) × (length s ≤ high))
unfolding digits_to_end
digits_to_end_iff low high s n = ground (arith, Digits-if_at_end s n, digit_run-Digits s)

-- What `led_by` tests of a stripped text.
Prefixed : ℕ → ℕ → ℕ → Text → Type 0
Prefixed first low high s =
    (ds : Text) × (s ≡ first ∷ ds) × Digits ds × (low ≤ length ds) × (length ds ≤ high)

led_by-Prefixed :
    (first low high : ℕ) (s : Text)
    → NoLineFeed s
    → led_by first low high s ≡ true
    → Prefixed first low high s
unfolding led_by Prefixed
led_by-Prefixed first low high [] n e = ground arith
led_by-Prefixed first low high (c ∷ s) n e =
    ground (arith, digits_to_end_iff low high s (NoLineFeed-tail c s n))

Prefixed-led_by :
    (first low high : ℕ) (s : Text) → Prefixed first low high s → led_by first low high s ≡ true
unfolding led_by Prefixed digits_to_end
Prefixed-led_by first low high s (ds, e, d, l, h) = ground (arith, digit_run-Digits ds d)

destination-Form :
    (s : Text) (d : Destination) → NoLineFeed s → destination_of s ≡ some d → Form s d
unfolding destination_of Form Prefixed
destination-Form s d n e = ground (
  arith,
  led_by-Prefixed 43 11 15 s n,
  led_by-Prefixed 56 10 14 s n,
  digits_to_end_iff 3 3 s n,
  digits_to_end_iff 4 4 s n,
)

led_by-length :
    (first low high : ℕ) (s : Text)
    → NoLineFeed s
    → length s ≤ low
    → led_by first low high s ≡ false
unfolding led_by
led_by-length first low high [] n l = refl
led_by-length first low high (c ∷ s) n l =
    ground (arith, digits_to_end_iff low high s (NoLineFeed-tail c s n))

-- A text of decimal digits does not start with a plus sign.
Digits-not_plus : (low high : ℕ) (s : Text) → Digits s → led_by 43 low high s ≡ false
unfolding led_by Digits
Digits-not_plus low high [] d = refl
Digits-not_plus low high (c ∷ s) d = ground (arith, plus_not_decimal)

Form-destination :
    (s : Text) (d : Destination) → NoLineFeed s → Form s d → destination_of s ≡ some d
unfolding destination_of Form Prefixed
Form-destination s d n (inl (ds, digits, low, high, e, num, flag)) =
    ground (arith, Prefixed-led_by 43 11 15 s (ds, e, digits, low, high))
Form-destination s d n (inr (inl (ds, digits, low, high, e, num, flag))) =
    unfold led_by in ground (arith, Prefixed-led_by 56 10 14 s (ds, e, digits, low, high))
Form-destination s d n (inr (inr (inl (digits, l, num, flag)))) =
    ground
      (arith, Digits-not_plus 11 15 s digits, led_by-length 56 10 14 s n, digits_to_end_iff 3 3 s n)
Form-destination s d n (inr (inr (inr (digits, l, num, flag)))) = ground (
  arith,
  Digits-not_plus 11 15 s digits,
  led_by-length 56 10 14 s n,
  digits_to_end_iff 3 3 s n,
  digits_to_end_iff 4 4 s n,
)

-- parse_destination returns a destination exactly when the stripped input has one of the four
-- allowed forms, and then the destination of that form: a plus sign and eleven to fifteen digits
-- as they are, an 8 and ten to fourteen digits with +7 in place of the 8, three digits as they
-- are, four digits as an internal number.
pub parse_destination_iff :
    (raw : Option Text) (d : Destination)
    → (parse_destination raw ≡ some d) ↔ Form (strip (or_else raw [])) d
parse_destination_iff raw d =
    let s = strip (or_else raw []) in
    let n = right_strip_twice (left_strip (or_else raw [])) in
    (destination-Form s d n, Form-destination s d n)

Form-nonempty : (s : Text) (d : Destination) → Form s d → is_empty s ≡ false
unfolding Form
Form-nonempty [] d f = ground arith
Form-nonempty (c ∷ s) d f = refl

strip-Digits : (s : Text) → Digits s → strip s ≡ s
unfolding left_strip Digits
strip-Digits [] d = unfold right_strip in refl
strip-Digits (c ∷ s) d = ground (arith, decimal_not_space c d.0, right_strip-Digits (c ∷ s) d)

-- The number of a destination is of one of the forms itself.
Form-again : (s : Text) (d : Destination) → Form s d → (strip d.number ≡ d.number) × Form d.number d
unfolding Form
Form-again s d (inl (ds, digits, low, high, e, num, flag)) =
    (ground (arith, strip_plus ds digits), inl (ds, digits, low, high, num ∙ e, refl, flag))
Form-again s d (inr (inl (ds, digits, low, high, e, num, flag))) =
    let seven : Digits (55 ∷ ds) = unfold Digits in (seven_decimal, digits) in
    (
      ground (arith, strip_plus (55 ∷ ds) seven),
      inl (55 ∷ ds, seven, omega arith, omega arith, num, refl, flag),
    )
Form-again s d (inr (inr (inl (digits, l, num, flag)))) =
    let own : Digits d.number = subst Digits (sym num) digits in
    (strip-Digits d.number own, inr (inr (inl (own, ground arith, refl, flag))))
Form-again s d (inr (inr (inr (digits, l, num, flag)))) =
    let own : Digits d.number = subst Digits (sym num) digits in
    (strip-Digits d.number own, inr (inr (inr (own, ground arith, refl, flag))))

-- The number of a destination is parsed as that destination again.
pub parse_destination_again :
    (raw : Option Text) (d : Destination)
    → parse_destination raw ≡ some d
    → (strip d.number ≡ d.number)
      × (parse_destination (some d.number) ≡ some d)
      × (is_empty d.number ≡ false)
parse_destination_again raw d e =
    let (same, form) = Form-again (strip (or_else raw [])) d ((parse_destination_iff raw d).0 e) in
    (
      same,
      (parse_destination_iff (some d.number) d).1 (subst (λ t. Form t d) (sym same) form),
      Form-nonempty d.number d form,
    )

Form-IsE164 :
    (s : Text) (d : Destination)
    → Form s d
    → ((d.is_internal ≡ false) × IsE164 d.number)
      ⊎ (Digits d.number × (d.number ≡ s) × (length s ≤ 4))
unfolding Form IsE164
Form-IsE164 s d (inl (ds, digits, low, high, e, num, flag)) =
    inl (flag, (ds, ground arith, digits, ground arith, high))
Form-IsE164 s d (inr (inl (ds, digits, low, high, e, num, flag))) =
    inl (flag, (55 ∷ ds, num, unfold Digits in (seven_decimal, digits), ground arith, ground arith))
Form-IsE164 s d (inr (inr (inl (digits, l, num, flag)))) =
    inr (unfold Digits in ground arith, num, ground arith)
Form-IsE164 s d (inr (inr (inr (digits, l, num, flag)))) =
    inr (unfold Digits in ground arith, num, ground arith)

-- A destination that parse_destination returns is either an external number that normalize_e164
-- leaves as it is, or a number of at most four digits, which is the input without the spaces around
-- it.
pub parse_destination-normal :
    (raw : Option Text) (d : Destination)
    → parse_destination raw ≡ some d
    → ((d.is_internal ≡ false) × (normalize_e164 d.number ≡ some d.number))
      ⊎ ((d.number ≡ strip (or_else raw [])) × (length d.number ≤ 4))
parse_destination-normal raw d e = ground (
  arith,
  Form-IsE164 (strip (or_else raw [])) d ((parse_destination_iff raw d).0 e),
  IsE164-normal d.number,
)
