-- ===== src/Checks/Messages.antt =====
-- core/sms_correlation.py on small inputs.
use sim_bridge.Prelude.{
  Text, codes, text_eq, text_Comparable, text_le, starts_with, has_substring, is_decimal, is_digit,
  Bool, List, [], ◌∷◌, none, some, insert_by, sort_by, ◌≡◌, ◌≢◌, refl, ◌⊎◌, All, Member,
}
use sim_bridge.Dict.{get, put, values}
use sim_bridge.SmsCorrelation.{
  Message, SmsRecord, SmsCorrelationStore, entry, blank, unparseable, new_record, new_store,
  submitted_record, delivered_record, newest_first, load_from, store_record, mark,
}
use sim_bridge.SmsCorrelation.Matching.{
  match_report, is_candidate, is_hinted, phone_digit_variants, submission_time,
}
use sim_bridge.SmsCorrelation.Best.{IsAwaited, Prefers, match_report-IsBest}
use sim_bridge.SmsCorrelation.Restart.{
  Step, creates, submits, delivers, steps, step, all_written, restart_restores,
}
use sim_bridge.SmsCorrelation.Resolved.{IsResolved, resolved_stays}

abbrev to_first : Message
to_first = record {
  sms_id = codes "a";
  telegram_user_id = 7;
  phone_number = codes "+79261234555";
  text = codes "hello";
  telegram_message_id = none;
  modem_id = codes "gsm";
  now = codes "2026-01-01T10:00";
}

abbrev to_second : Message
to_second = record to_first {
  sms_id = codes "b";
  phone_number = codes "+79260000000";
  now = codes "2026-01-01T10:01";
}

-- Both are submitted, the first is delivered.
abbrev sent : List Step
sent =
    creates to_first
    ∷ creates to_second
    ∷ submits (codes "a") (codes "2026-01-01T10:02")
    ∷ submits (codes "b") (codes "2026-01-01T10:03")
    ∷ []

abbrev store : SmsCorrelationStore
store = steps (all_written sent) (new_store (some []))

abbrev first_sent : SmsRecord
first_sent = submitted_record (codes "2026-01-01T10:02") (new_record to_first)

abbrev second_sent : SmsRecord
second_sent = submitted_record (codes "2026-01-01T10:03") (new_record to_second)

abbrev report : Text
report = codes "delivered to 8926-123-45-55"

-- The older message is found by the number in the report.
older_matched : match_report (codes "gsm") report store ≡ some first_sent
unfolding match_report is_candidate is_hinted phone_digit_variants submission_time newest_first
    sort_by insert_by text_le steps step new_store store_record mark get put text_eq starts_with
    has_substring is_digit is_decimal load_from new_record submitted_record
older_matched = refl

match_report-IsBest_example :
    ((match_report (codes "gsm") report store ≡ none)
      × All (λ other. ¬ IsAwaited (codes "gsm") other) (values store.records))
    ⊎ ((rec : SmsRecord) × (match_report (codes "gsm") report store ≡ some rec)
        × Member rec (values store.records)
        × IsAwaited (codes "gsm") rec
        × All
            (λ other. (¬ IsAwaited (codes "gsm") other) ⊎ Prefers report rec other)
            (values store.records))
match_report-IsBest_example = match_report-IsBest report (codes "gsm") store

restart_restores_example :
    new_store (steps (all_written sent) (new_store (some (blank ∷ unparseable ∷ [])))).log
    ≡ steps (all_written sent) (new_store (some (blank ∷ unparseable ∷ [])))
restart_restores_example = restart_restores (blank ∷ unparseable ∷ []) sent

abbrev delivery : List (Bool × Step)
delivery = all_written (delivers (codes "a") (codes "2026-01-01T10:04") ∷ [])

abbrev resolved_store : SmsCorrelationStore
resolved_store = steps delivery (new_store (some (entry first_sent ∷ entry second_sent ∷ [])))

first-IsResolved : IsResolved (codes "a") resolved_store
unfolding steps step new_store load_from mark get put text_eq submitted_record new_record
    delivered_record
first-IsResolved = (delivered_record (codes "2026-01-01T10:04") first_sent, refl, refl)

second_matched : match_report (codes "gsm") report (steps [] resolved_store) ≡ some second_sent
unfolding match_report is_candidate is_hinted phone_digit_variants submission_time newest_first
    sort_by insert_by text_le steps step new_store load_from mark get put text_eq starts_with
    has_substring is_digit is_decimal delivered_record new_record submitted_record
second_matched = refl

resolved_stays_example : codes "b" ≢ codes "a"
unfolding submitted_record new_record
resolved_stays_example =
    resolved_stays (some (entry first_sent ∷ entry second_sent ∷ [])) delivery [] (codes "a")
      (codes "gsm") report second_sent first-IsResolved tt second_matched
