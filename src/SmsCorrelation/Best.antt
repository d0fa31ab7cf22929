-- ===== src/SmsCorrelation/Best.antt =====
-- core/sms_correlation.py: `match_report` against what makes a record the one that a report is about.
use sim_bridge.Prelude.{
  Text, All, [], ◌∷◌, text_le, text_Comparable, text_eq_iff, true, false, List, none, some, Member,
  ◌≡◌, ◌↔◌, ◌⊎◌, inl, inr, refl, sym, ◌∙◌, arith, ap, Bool-cases, Option-cases,
}
use sim_bridge.Dict.{values}
use sim_bridge.SmsCorrelation.{
  Status, pending, submitted, delivered, failed, expired, SmsRecord, SmsCorrelationStore,
}
use sim_bridge.SmsCorrelation.Matching.{
  is_candidate, is_hinted, is_pending, is_submitted, submission_time, match_report,
}
use sim_bridge.SmsCorrelation.Named.{Names, SentAt, is_hinted_iff, submission_time-SentAt}
use sim_bridge.SmsCorrelation.Reports.{
  Outranks, match_report_lem, match_report-IsOpen, match_report-none,
}

submitted_lem : (t : Status) → is_submitted t ≡ true → t ≡ submitted
submitted_lem submitted h = refl
submitted_lem pending h = absurd (ground (arith, h))
submitted_lem delivered h = absurd (ground (arith, h))
submitted_lem failed h = absurd (ground (arith, h))
submitted_lem expired h = absurd (ground (arith, h))

pending_lem : (t : Status) → is_pending t ≡ true → t ≡ pending
pending_lem pending h = refl
pending_lem submitted h = absurd (ground (arith, h))
pending_lem delivered h = absurd (ground (arith, h))
pending_lem failed h = absurd (ground (arith, h))
pending_lem expired h = absurd (ground (arith, h))

-- The first is named by the report and the other is not; or the report names both or neither, and the
-- other was not sent later.
abbrev pub Prefers : (report_text : Text) → SmsRecord → SmsRecord → Type 0
Prefers report_text rec other =
    (Names report_text rec × (¬ Names report_text other))
    ⊎ (((Names report_text rec × Names report_text other)
          ⊎ ((¬ Names report_text rec) × (¬ Names report_text other)))
        × ((t : Text) × (u : Text) × SentAt rec t × SentAt other u × (text_le u t ≡ true)))

-- A record that was submitted on the modem and has no outcome.
abbrev pub IsAwaited : (modem_id : Text) → SmsRecord → Type 0
IsAwaited modem_id rec =
    (rec.submit_status ≡ submitted) × (rec.delivery_status ≡ pending) × (rec.modem_id ≡ modem_id)

is_candidate_iff :
    (modem_id : Text) (rec : SmsRecord)
    → (is_candidate modem_id rec ≡ true) ↔ IsAwaited modem_id rec
unfolding is_candidate
is_candidate_iff modem_id rec = (
  λ h. (
    submitted_lem rec.submit_status (ground (arith, h)),
    pending_lem rec.delivery_status (ground (arith, h)),
    ground (arith, h, text_eq_iff rec.modem_id modem_id),
  ),
  λ a.
      ground
        (arith, ap is_submitted a.0, ap is_pending a.1, a.2, text_eq_iff rec.modem_id modem_id),
)

Member-All : {A : Type 0} (P : A → Type 0) (xs : List A) → ((a : A) → Member a xs → P a) → All P xs
Member-All P [] h = tt
Member-All P (x ∷ xs) h = (h x (inl refl), Member-All P xs (λ a m. h a (inr m)))

module _ (report_text : Text) where
  not-Names : (rec : SmsRecord) → is_hinted report_text rec ≡ false → ¬ Names report_text rec
  not-Names rec h n = ground (arith, h, (is_hinted_iff report_text rec).1 n)

  both_sent :
      (rec other : SmsRecord)
      → text_le (submission_time other) (submission_time rec) ≡ true
      → (t : Text) × (u : Text) × SentAt rec t × SentAt other u × (text_le u t ≡ true)
  both_sent rec other h = (
    submission_time rec,
    submission_time other,
    submission_time-SentAt rec,
    submission_time-SentAt other,
    h,
  )

  Outranks-Prefers :
      (modem_id : Text) (s : SmsCorrelationStore) (rec other : SmsRecord)
      → Outranks modem_id report_text s rec other
      → Prefers report_text rec other
  Outranks-Prefers modem_id s rec other (inl (named, unnamed)) =
      inl ((is_hinted_iff report_text rec).0 named, not-Names other unnamed)
  Outranks-Prefers modem_id s rec other (inr (same, later)) =
      elim (Bool-cases (is_hinted report_text rec)) [
        | inl e ↦ inr (
          inl (
            (is_hinted_iff report_text rec).0 e,
            (is_hinted_iff report_text other).0 (sym same ∙ e),
          ),
          both_sent rec other later,
        )
        | inr e ↦
            inr (inr (not-Names rec e, not-Names other (sym same ∙ e)), both_sent rec other later)
      ]

  preferred_to :
      (modem_id : Text) (s : SmsCorrelationStore) (rec : SmsRecord)
      → match_report modem_id report_text s ≡ some rec
      → (other : SmsRecord) → Member other (values s.records)
      → (¬ IsAwaited modem_id other) ⊎ Prefers report_text rec other
  preferred_to modem_id s rec e other m = elim (Bool-cases (is_candidate modem_id other)) [
    | inr f ↦ inl (λ a. ground (arith, f, (is_candidate_iff modem_id other).1 a))
    | inl f ↦ inr (
        Outranks-Prefers modem_id s rec other
          (match_report_lem modem_id report_text s rec other e (m, f)).1)
  ]

  -- match_report returns nothing, and then no record of the store was submitted on the modem and
  -- is without an outcome; or it returns such a record of the store, and against every other such
  -- record either the digits of the report contain its number, with a leading 7 as it is or as 8,
  -- and not the other number, or both or neither, and the other was not sent later, by the time
  -- of submission or else of creation.
  pub match_report-IsBest :
      (modem_id : Text) (s : SmsCorrelationStore)
      → ((match_report modem_id report_text s ≡ none)
          × All (λ other. ¬ IsAwaited modem_id other) (values s.records))
        ⊎ ((rec : SmsRecord) × (match_report modem_id report_text s ≡ some rec)
            × Member rec (values s.records)
            × IsAwaited modem_id rec
            × All
                (λ other. (¬ IsAwaited modem_id other) ⊎ Prefers report_text rec other)
                (values s.records))
  match_report-IsBest modem_id s = elim (Option-cases (match_report modem_id report_text s)) [
    | inl e ↦ inl (
      e,
      Member-All (λ other. ¬ IsAwaited modem_id other) (values s.records)
          (λ other m a.
            (match_report-none modem_id report_text s).0 e other
              (m, (is_candidate_iff modem_id other).1 a)),
    )
    | inr (rec, e) ↦
        let o = match_report-IsOpen modem_id report_text s rec e in
        inr (
          rec,
          e,
          o.0,
          (is_candidate_iff modem_id rec).0 o.1,
          Member-All (λ other. (¬ IsAwaited modem_id other) ⊎ Prefers report_text rec other)
              (values s.records) (preferred_to modem_id s rec e),
        )
  ]
