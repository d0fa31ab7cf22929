-- ===== src/Agent/Sms/Delivery.antt =====
-- agent/routes.py: the routes of the delivery reports, and what is announced to the userbot.
use sim_bridge.Prelude.{
  ℕ, Text, codes, text_Comparable, has_substring, Bool, false, List, [], ◌∷◌, ◌++◌, Option, none,
  some, any_of, take, if◌then◌else◌,
}
use sim_bridge.Dict.{get}
use sim_bridge.Audit.{EventType, Value, string, append}
use sim_bridge.Metrics.{sms_delivered, sms_failed}
use sim_bridge.SmsCorrelation.{
  SmsRecord, SmsCorrelationStore, mark, mark_delivered, mark_failed, delivered_record,
  failed_record,
}
use sim_bridge.SmsCorrelation.Matching.{match_report}
use sim_bridge.Agent.Http.{Reply, returned, http_error, strip_slashes}
use sim_bridge.Agent.Sms.{Config, SmsApi, Moment, log}

-- A delivery outcome: the two values that `status` is given.
pub data DeliveryOutcome : Type 0 where
  delivered failed : DeliveryOutcome

abbrev pub outcome_text : DeliveryOutcome → Text
outcome_text delivered = codes "delivered"
outcome_text failed = codes "failed"

-- `_notify_userbot_delivery`: the post that is attempted. Its outcome is only logged.
unfoldable pub notify_userbot_delivery :
    Config → SmsRecord → DeliveryOutcome → (error : Option Text) → SmsApi → SmsApi
unfolding strip_slashes
notify_userbot_delivery cfg rec status error s = elim (cfg.userbot_url) [
  | none ↦ s
  | some url ↦ record s {
    notices =
        s.notices
        ++ record {
          url = strip_slashes url ++ codes "/events/delivery";
          sms_id = rec.sms_id;
          phone_number = rec.phone_number;
          telegram_user_id = rec.telegram_user_id;
          status = outcome_text status;
          error = error;
        }
          ∷ [];
  }
]

abbrev pub count_outcome : DeliveryOutcome → SmsApi → SmsApi
count_outcome delivered s = record s { metrics = sms_delivered s.metrics }
count_outcome failed s = record s { metrics = sms_failed s.metrics }

abbrev from_detail : Option Text → List (Text × Value)
from_detail none = []
from_detail (some number) = (codes "from", string number) ∷ []

unfoldable pub announce_delivery :
    Config
    → SmsRecord
    → DeliveryOutcome
    → (error from_number : Option Text) → (now : ℕ) → SmsApi
    → SmsApi
unfolding sms_delivered sms_failed append notify_userbot_delivery
announce_delivery cfg rec status error from_number now s =
    notify_userbot_delivery cfg rec status error (
      log now EventType.sms_delivery_report (some rec.telegram_user_id) none none
        (outcome_text status)
        ((codes "sms_id", string rec.sms_id)
          ∷ (codes "phone", string rec.phone_number)
          ∷ from_detail from_number)
        (count_outcome status s))

-- `mark_delivered` or `mark_failed` with its error.
unfoldable pub mark_outcome :
    (sms_id : Text)
    → DeliveryOutcome
    → (error : Text) → Moment
    → SmsCorrelationStore
    → SmsCorrelationStore × Bool
unfolding mark delivered_record failed_record
mark_outcome sms_id delivered error m store = mark_delivered sms_id m.iso m.marked_written store
mark_outcome sms_id failed error m store = mark_failed sms_id error false m.marked_written store

abbrev pub sms_not_found : Reply Text
sms_not_found = http_error 404 (codes "SMS record not found")

abbrev pub outcome_error : DeliveryOutcome → Text → Option Text
outcome_error delivered error = none
outcome_error failed error = some error

-- What `report_sms_delivered` and `report_sms_failed` do. The record that `get` returns is the object
-- that is marked, of which the announcement reads no field that is changed.
unfoldable pub report_outcome :
    Config → (sms_id : Text) → DeliveryOutcome → Moment → SmsApi → SmsApi × Reply Text
unfolding mark_outcome announce_delivery
report_outcome cfg sms_id status m s = elim (get sms_id s.store.records) [
  | none ↦ (s, sms_not_found)
  | some rec ↦
      let error = codes "delivery_failed" in
      let (store, marked) = mark_outcome sms_id status error m s.store in
      let resolved : SmsApi = record s { store = store } in
      if marked
      then (
        announce_delivery cfg rec status (outcome_error status error) none m.now resolved,
        returned sms_id,
      )
      else (resolved, sms_not_found)
]

unfoldable pub report_sms_delivered :
    Config → (sms_id : Text) → Moment → SmsApi → SmsApi × Reply Text
unfolding report_outcome
report_sms_delivered cfg sms_id m s = report_outcome cfg sms_id delivered m s

unfoldable pub report_sms_failed : Config → (sms_id : Text) → Moment → SmsApi → SmsApi × Reply Text
unfolding report_outcome
report_sms_failed cfg sms_id m s = report_outcome cfg sms_id failed m s

pub record SmsReportRequest : Type 0 where
  pub phone_number : Text
  pub text : Text
  pub modem_id : Text

abbrev pub failed_markers : List Text
failed_markers =
    codes "not delivered"
    ∷ codes "не доставлен"
    ∷ codes "expired"
    ∷ codes "timeout"
    ∷ codes "failed"
    ∷ []

-- Whether the message was matched, with its identifier and the outcome.
pub data Matched : Type 0 where
  no_match : Matched
  matched : (sms_id : Text) → DeliveryOutcome → Matched

-- `lower` is `str.lower`.
module _ (lower : Text → Text) where
  unfoldable pub outcome_of : Text → DeliveryOutcome
  outcome_of text =
      if any_of (λ marker. has_substring (lower text) marker) failed_markers
      then failed
      else delivered

  unfoldable pub sms_delivery_report :
      Config → SmsReportRequest → Moment → SmsApi → SmsApi × Matched
  unfolding match_report outcome_of mark_outcome announce_delivery append
  sms_delivery_report cfg req m s = elim (match_report req.modem_id req.text s.store) [
    | none ↦ (
      log m.now EventType.sms_delivery_report none none none (codes "no_match")
          ((codes "modem_id", string req.modem_id)
            ∷ (codes "from", string req.phone_number)
            ∷ (codes "text_preview", string (take 120 req.text))
            ∷ [])
          s,
      no_match,
    )
    | some rec ↦
        let status = outcome_of req.text in
        let error = take 200 req.text in
        let store = (mark_outcome rec.sms_id status error m s.store).0 in
        (
          announce_delivery cfg rec status (outcome_error status error) (some req.phone_number)
              m.now (record s { store = store }),
          matched rec.sms_id status,
        )
  ]
