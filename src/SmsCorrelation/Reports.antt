-- ===== src/SmsCorrelation/Reports.antt =====
-- core/sms_correlation.py: which message `match_report` finds, and `recent`.
use sim_bridge.Prelude.{
  Text, text_le, text_le_total, text_le_trans, Bool, true, false, List, [], ◌∷◌, none, some,
  keep_if, get_elem?, length, Member, Member-keep_if, Member-sort_by, sort_by-least, ◌≡◌, ◌↔◌, ◌⊎◌,
  inl, inr, refl, arith, subst, sym, Option-cases, ◌∙◌, Bool-cases, length-sort_by, sort_by,
}
use sim_bridge.Dict.{values}
use sim_bridge.SmsCorrelation.{SmsRecord, SmsCorrelationStore, newest_first}
use sim_bridge.SmsCorrelation.Matching.{
  is_candidate, is_hinted, submission_time, or_list, match_report,
}

first-Member : {A : Type 0} (xs : List A) (a : A) → get_elem? xs 0 ≡ some a → Member a xs
first-Member [] a e = ground arith
first-Member (x ∷ xs) a e = ground arith

module _ (key : SmsRecord → Text) where
  newest_first-least :
      (xs : List SmsRecord) (a b : SmsRecord)
      → get_elem? (newest_first key xs) 0 ≡ some a
      → Member b xs
      → text_le (key b) (key a) ≡ true
  unfolding newest_first
  newest_first-least xs a b e m =
      sort_by-least (λ x y. text_le (key y) (key x)) (λ x y. text_le_total (key y) (key x))
        (λ x y z h k. text_le_trans (key z) (key y) (key x) k h) xs a b e m

  newest_first-Member :
      (xs : List SmsRecord) (a : SmsRecord)
      → get_elem? (newest_first key xs) 0 ≡ some a
      → Member a xs
  unfolding newest_first
  newest_first-Member xs a e =
      (Member-sort_by (λ x y. text_le (key y) (key x)) a xs).0
        (first-Member (sort_by (λ x y. text_le (key y) (key x)) xs) a e)

length_first : {A : Type 0} (xs : List A) → get_elem? xs 0 ≡ none → length xs ≡ 0
length_first [] e = refl
length_first (x ∷ xs) e = ground arith

-- The records that pass the test if there are any, else all.
preferred :
    (p : SmsRecord → Bool) (xs ys : List SmsRecord) (a : SmsRecord)
    → ys ≡ keep_if p xs
    → Member a (or_list ys xs)
    → (Member a ys × (p a ≡ true)) ⊎ ((ys ≡ []) × Member a xs)
preferred p xs [] a e m = inr (refl, m)
preferred p xs (y ∷ ys) a e m = inl (m, ((Member-keep_if p a xs).0 (subst (Member a) e m)).1)

none_kept :
    (p : SmsRecord → Bool) (xs : List SmsRecord) (b : SmsRecord)
    → [] ≡ keep_if p xs
    → Member b xs
    → p b ≡ false
none_kept p xs b e m = elim (Bool-cases (p b)) [
  | inl kept ↦ absurd (subst (Member b) (sym e) ((Member-keep_if p b xs).1 (m, kept)))
  | inr dropped ↦ dropped
]

listed :
    (p : SmsRecord → Bool) (xs ys : List SmsRecord) (b : SmsRecord)
    → ys ≡ keep_if p xs
    → Member b xs
    → p b ≡ true
    → Member b (or_list ys xs)
listed p xs [] b e m h = m
listed p xs (y ∷ ys) b e m h = subst (Member b) (sym e) ((Member-keep_if p b xs).1 (m, h))

listed_all :
    (xs ys : List SmsRecord) (b : SmsRecord) → ys ≡ [] → Member b xs → Member b (or_list ys xs)
listed_all xs [] b e m = m
listed_all xs (y ∷ ys) b e m = ground arith

no_least :
    {A : Type 0} (le : A → A → Bool) (xs : List A) → get_elem? (sort_by le xs) 0 ≡ none → xs ≡ []
no_least le [] e = refl
no_least le (x ∷ xs) e =
    ground (arith, length-sort_by le (x ∷ xs), length_first (sort_by le (x ∷ xs)) e)

no_open :
    (p : SmsRecord → Bool) (xs ys : List SmsRecord)
    → ys ≡ keep_if p xs
    → or_list ys xs ≡ []
    → xs ≡ []
no_open p xs [] e h = h
no_open p xs (y ∷ ys) e h = ground arith

module _ (modem_id report_text : Text) (s : SmsCorrelationStore) where
  abbrev candidates : List SmsRecord
  candidates = keep_if (is_candidate modem_id) (values s.records)

  -- The records that a report may be about: submitted on its modem and not yet resolved.
  abbrev pub IsOpen : SmsRecord → Type 0
  IsOpen rec = Member rec (values s.records) × (is_candidate modem_id rec ≡ true)

  -- The first is to be preferred to the second: it alone is named by the report, or both or neither
  -- are and it was not submitted earlier.
  abbrev pub Outranks : SmsRecord → SmsRecord → Type 0
  Outranks rec other =
      ((is_hinted report_text rec ≡ true) × (is_hinted report_text other ≡ false))
      ⊎ ((is_hinted report_text rec ≡ is_hinted report_text other)
          × (text_le (submission_time other) (submission_time rec) ≡ true))

  -- match_report returns a record that was submitted on the modem and is not yet resolved.
  -- Against any other such record, the report names its number and not the other's, or both or
  -- neither and it was not submitted earlier.
  pub match_report_lem :
      (rec other : SmsRecord)
      → match_report modem_id report_text s ≡ some rec
      → IsOpen other
      → IsOpen rec × Outranks rec other
  unfolding match_report
  match_report_lem rec other e o =
      let hinted = keep_if (is_hinted report_text) candidates in
      let m = newest_first-Member submission_time (or_list hinted candidates) rec e in
      let least = newest_first-least submission_time (or_list hinted candidates) rec other e in
      let inside = λ (b : SmsRecord). Member-keep_if (is_candidate modem_id) b (values s.records) in
      let listed_other =
        listed (is_hinted report_text) candidates hinted other refl ((inside other).1 o) in
      elim (preferred (is_hinted report_text) candidates hinted rec refl m) [
        | inl (kept, named) ↦ (
          (inside rec).0 ((Member-keep_if (is_hinted report_text) rec candidates).0 kept).0,
          elim (Bool-cases (is_hinted report_text other)) [
            | inl also ↦ inr (named ∙ sym also, least (listed_other also))
            | inr unnamed ↦ inl (named, unnamed)
          ],
        )
        | inr (none_named, kept) ↦
            let no_hint = λ (b : SmsRecord) (k : Member b candidates).
              none_kept (is_hinted report_text) candidates b (sym none_named) k in
            (
              (inside rec).0 kept,
              inr (
                no_hint rec kept ∙ sym (no_hint other ((inside other).1 o)),
                least (listed_all candidates hinted other none_named ((inside other).1 o)),
              ),
            )
      ]

  pub match_report-IsOpen :
      (rec : SmsRecord) → match_report modem_id report_text s ≡ some rec → IsOpen rec
  unfolding match_report
  match_report-IsOpen rec e =
      let hinted = keep_if (is_hinted report_text) candidates in
      let m = newest_first-Member submission_time (or_list hinted candidates) rec e in
      elim (preferred (is_hinted report_text) candidates hinted rec refl m) [
        | inl (kept, named) ↦
            (Member-keep_if (is_candidate modem_id) rec (values s.records)).0
              ((Member-keep_if (is_hinted report_text) rec candidates).0 kept).0
        | inr (none_named, kept) ↦
            (Member-keep_if (is_candidate modem_id) rec (values s.records)).0 kept
      ]

  -- match_report returns nothing exactly when no submitted record of the modem is unresolved.
  pub match_report-none :
      (match_report modem_id report_text s ≡ none) ↔ ((rec : SmsRecord) → ¬ IsOpen rec)
  unfolding match_report newest_first
  match_report-none =
      let hinted = keep_if (is_hinted report_text) candidates in
      let le = λ (a b : SmsRecord). text_le (submission_time b) (submission_time a) in
      let inside = λ (b : SmsRecord). Member-keep_if (is_candidate modem_id) b (values s.records) in
      (
        λ e rec o.
            subst (Member rec)
              (no_open (is_hinted report_text) candidates hinted refl
                (no_least le (or_list hinted candidates) e))
              ((inside rec).1 o),
        λ h. elim (Option-cases (match_report modem_id report_text s)) [
          | inl found ↦ found
          | inr (rec, found) ↦ absurd (h rec (match_report-IsOpen rec found))
        ],
      )
