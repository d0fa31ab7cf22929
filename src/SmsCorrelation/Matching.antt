-- ===== src/SmsCorrelation/Matching.antt =====
-- core/sms_correlation.py: `match_report`, which finds the message that a delivery report is about.
use sim_bridge.Prelude.{
  Text, codes, text_Comparable, is_empty, is_set, starts_with, has_substring, is_digit, Bool, true,
  false, not, ◌&&◌, List, [], ◌∷◌, ◌++◌, Option, or_else, keep_if, get_elem?, any_of, drop,
  if◌then◌else◌, ◌==◌,
}
use sim_bridge.Dict.{values}
use sim_bridge.SmsCorrelation.{
  Status, pending, submitted, delivered, failed, expired, SmsRecord, SmsCorrelationStore,
  newest_first,
}

abbrev pub is_pending : Status → Bool
is_pending pending = true
is_pending submitted = false
is_pending delivered = false
is_pending failed = false
is_pending expired = false

abbrev pub is_submitted : Status → Bool
is_submitted pending = false
is_submitted submitted = true
is_submitted delivered = false
is_submitted failed = false
is_submitted expired = false

-- `_phone_digit_variants`
unfoldable pub phone_digit_variants : Text → List Text
phone_digit_variants phone_number =
    let digits = keep_if is_digit phone_number in
    if is_empty digits
    then []
    else if starts_with digits (codes "7")
    then digits ∷ (codes "8" ++ drop 1 digits) ∷ []
    else digits ∷ []

unfoldable pub is_candidate : Text → SmsRecord → Bool
is_candidate modem_id rec =
    is_submitted rec.submit_status && is_pending rec.delivery_status && rec.modem_id == modem_id

-- A form of the record's number stands among the digits of the report.
unfoldable pub is_hinted : Text → SmsRecord → Bool
is_hinted report_text rec =
    any_of (λ v. not (is_empty v) && has_substring (keep_if is_digit report_text) v)
      (phone_digit_variants rec.phone_number)

-- `r.submitted_at or r.created_at`
unfoldable pub submission_time : SmsRecord → Text
submission_time rec =
    if is_set rec.submitted_at then or_else rec.submitted_at [] else rec.created_at

-- `hinted or candidates`
abbrev pub or_list : List SmsRecord → List SmsRecord → List SmsRecord
or_list [] ys = ys
or_list (x ∷ xs) ys = x ∷ xs

unfoldable pub match_report : Text → Text → SmsCorrelationStore → Option SmsRecord
match_report modem_id report_text s =
    let candidates = keep_if (is_candidate modem_id) (values s.records) in
    let hinted = keep_if (is_hinted report_text) candidates in
    get_elem? (newest_first submission_time (or_list hinted candidates)) 0
