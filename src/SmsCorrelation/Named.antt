-- ===== src/SmsCorrelation/Named.antt =====
-- core/sms_correlation.py: when a report names the number of a record, and when a record was sent.
use sim_bridge.Prelude.{
  Text, codes, text_Comparable, is_empty, starts_with, has_substring, is_digit, Bool, true, not,
  ◌&&◌, List, [], ◌∷◌, ◌++◌, none, some, keep_if, any_of, drop, ◌≡◌, ◌≢◌, ◌↔◌, ◌⊎◌, inl, inr, refl,
  sym, ap, ◌∙◌, arith, Bool-cases, Option-cases, if◌then◌else◌,
}
use mathlib.Core.List.{cons≢nil}
use sim_bridge.SmsCorrelation.{SmsRecord}
use sim_bridge.SmsCorrelation.Matching.{phone_digit_variants, is_hinted, submission_time}

-- The one text stands in the other.
abbrev pub Within : Text → Text → Type 0
Within v t = (before : Text) × (after : Text) × (t ≡ before ++ v ++ after)

starts_with-Within : (t v : Text) → starts_with t v ≡ true → (after : Text) × (t ≡ v ++ after)
unfolding starts_with
starts_with-Within t [] h = (t, refl)
starts_with-Within [] (d ∷ v) h = absurd (ground (arith, h))
starts_with-Within (c ∷ t) (d ∷ v) h =
    let (after, e) = starts_with-Within t v (ground (arith, h)) in (after, ground (arith, h, e))

starts_with-append : (v after : Text) → starts_with (v ++ after) v ≡ true
unfolding starts_with
starts_with-append [] after = refl
starts_with-append (d ∷ v) after = ground (arith, starts_with-append v after)

has_substring-if_starts : (t v : Text) → starts_with t v ≡ true → has_substring t v ≡ true
unfolding has_substring
has_substring-if_starts [] v h = h
has_substring-if_starts (c ∷ t) v h = ground (arith, h)

has_substring-append : (before v after : Text) → has_substring (before ++ v ++ after) v ≡ true
unfolding has_substring
has_substring-append [] v after =
    has_substring-if_starts (v ++ after) v (starts_with-append v after)
has_substring-append (c ∷ before) v after = ground (arith, has_substring-append before v after)

has_substring-Within : (t v : Text) → has_substring t v ≡ true → Within v t
unfolding has_substring
has_substring-Within [] v h = let (after, e) = starts_with-Within [] v h in ([], after, e)
has_substring-Within (c ∷ t) v h = elim (Bool-cases (starts_with (c ∷ t) v)) [
  | inl e ↦ let (after, f) = starts_with-Within (c ∷ t) v e in ([], after, f)
  | inr e ↦
      let (before, after, f) = has_substring-Within t v (ground (arith, e, h)) in
      (c ∷ before, after, ap (λ s. c ∷ s) f)
]

Within-has_substring : (t v : Text) → Within v t → has_substring t v ≡ true
Within-has_substring t v (before, after, e) =
    ap (λ s. has_substring s v) e ∙ has_substring-append before v after

abbrev pub digits_of : Text → Text
digits_of s = keep_if is_digit s

-- Among the digits of the report stand those of a number, or those with its first 7 written as 8.
abbrev pub NamesNumber : (report digits : Text) → Type 0
NamesNumber report digits =
    (digits ≢ [])
    × (Within digits report ⊎ ((rest : Text) × (digits ≡ 55 ∷ rest) × Within (56 ∷ rest) report))

abbrev pub Names : (report_text : Text) → SmsRecord → Type 0
Names report_text rec = NamesNumber (digits_of report_text) (digits_of rec.phone_number)

hinted_by : (report : Text) → List Text → Bool
hinted_by report variants = any_of (λ v. not (is_empty v) && has_substring report v) variants

variants_of : Text → List Text
variants_of digits =
    if is_empty digits
    then []
    else if starts_with digits (codes "7")
    then digits ∷ (codes "8" ++ drop 1 digits) ∷ []
    else digits ∷ []

hinted_by-NamesNumber :
    (report digits : Text)
    → hinted_by report (variants_of digits) ≡ true
    → NamesNumber report digits
unfolding hinted_by variants_of starts_with
hinted_by-NamesNumber report [] h = absurd (ground (arith, h))
hinted_by-NamesNumber report (c ∷ digits) h =
    elim (Bool-cases (has_substring report (c ∷ digits))) [
      | inl e ↦ (cons≢nil, inl (has_substring-Within report (c ∷ digits) e))
      | inr e ↦
          let second : (c ≡ 55) × (has_substring report (56 ∷ digits) ≡ true) =
            ground (arith, e, h) in
          (
            cons≢nil,
            inr (
              digits,
              ap (λ d. d ∷ digits) second.0,
              has_substring-Within report (56 ∷ digits) second.1,
            ),
          )
    ]

NamesNumber-hinted_by :
    (report digits : Text)
    → NamesNumber report digits
    → hinted_by report (variants_of digits) ≡ true
unfolding hinted_by variants_of starts_with
NamesNumber-hinted_by report [] (full, h) = absurd (full refl)
NamesNumber-hinted_by report (c ∷ digits) (full, inl w) =
    ground (arith, Within-has_substring report (c ∷ digits) w)
NamesNumber-hinted_by report (c ∷ digits) (full, inr (rest, e, w)) =
    ground (arith, Within-has_substring report (56 ∷ rest) w, e)

pub is_hinted_iff :
    (report_text : Text) (rec : SmsRecord)
    → (is_hinted report_text rec ≡ true) ↔ Names report_text rec
unfolding is_hinted phone_digit_variants hinted_by variants_of
is_hinted_iff report_text rec = (
  hinted_by-NamesNumber (digits_of report_text) (digits_of rec.phone_number),
  NamesNumber-hinted_by (digits_of report_text) (digits_of rec.phone_number),
)

-- The time of the submission, or of the record if none is noted.
abbrev pub SentAt : SmsRecord → Text → Type 0
SentAt rec t =
    ((rec.submitted_at ≡ some t) × (t ≢ []))
    ⊎ ((t ≡ rec.created_at) × ((rec.submitted_at ≡ none) ⊎ (rec.submitted_at ≡ some [])))

pub submission_time-SentAt : (rec : SmsRecord) → SentAt rec (submission_time rec)
unfolding submission_time
submission_time-SentAt rec = elim (Option-cases rec.submitted_at) [
  | inl e ↦ inr (ground (arith, e), inl e)
  | inr ([], e) ↦ inr (ground (arith, e), inr e)
  | inr (c ∷ t, e) ↦
      let sent : submission_time rec ≡ c ∷ t = ground (arith, e) in
      inl (e ∙ ap some (sym sent), λ empty. cons≢nil (sym sent ∙ empty))
]
