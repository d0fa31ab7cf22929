-- ===== src/Agent/Sms/Serving.antt =====
-- agent/routes.py: requests to the routes of messages, one after the other.
use sim_bridge.Prelude.{Text, text_Comparable, List, [], ◌∷◌, Option, none, some, ◌≡◌, ℕ}
use sim_bridge.Dict.{get}
use sim_bridge.Blacklist.{Stamp}
use sim_bridge.Agent.Sms.{Config, SmsApi, Ami, Moment}
use sim_bridge.Agent.Sms.Sending.{SmsRequest, send_sms, block_number, unblock_number}
use sim_bridge.Agent.Sms.Delivery.{
  SmsReportRequest, report_sms_delivered, report_sms_failed, sms_delivery_report,
}
pub mod Records
pub mod Identity
pub mod Sender
pub mod Tally

-- A request with its arguments, the identifier that it draws, and what it reads from outside.
pub data Request : Type 0 where
  send : SmsRequest → (sms_id : Text) → Moment → Request
  block unblock : Text → Option Stamp → ℕ → Request
  delivered failed : (sms_id : Text) → Moment → Request
  report : SmsReportRequest → Moment → Request

module _ (lower : Text → Text) (cfg : Config) (ami : Ami) where
  unfoldable pub serve : SmsApi → Request → SmsApi
  serve s (send req sms_id m) = (send_sms lower cfg ami req sms_id m s).0
  serve s (block number stamp now) = (block_number number stamp now s).0
  serve s (unblock number stamp now) = (unblock_number number stamp now s).0
  serve s (delivered sms_id m) = (report_sms_delivered cfg sms_id m s).0
  serve s (failed sms_id m) = (report_sms_failed cfg sms_id m s).0
  serve s (report req m) = (sms_delivery_report lower cfg req m s).0

  unfoldable pub serve_all : SmsApi → List Request → SmsApi
  serve_all s [] = s
  serve_all s (q ∷ qs) = serve_all (serve s q) qs

  -- An identifier that is drawn is not in use.
  abbrev pub Fresh : SmsApi → Request → Type 0
  Fresh s (send req sms_id m) = get sms_id s.store.records ≡ none
  Fresh s _ = Unit

  abbrev pub AllFresh : SmsApi → List Request → Type 0
  AllFresh s [] = Unit
  AllFresh s (q ∷ qs) = Fresh s q × AllFresh (serve s q) qs
