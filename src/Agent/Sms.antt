-- ===== src/Agent/Sms.antt =====
-- agent/routes.py: the state that the routes of messages share. A handler is one step, as for calls.
-- The texts that `send_sms` of the AMI client was given are kept as a list, as are the posts to the
-- userbot.
use sim_bridge.Prelude.{ℕ, Text, codes, List, [], ◌∷◌, ◌++◌, Option, none, some, Bool}
use sim_bridge.Audit.{AuditLog, AuditRecord, EventType, Value, append}
use sim_bridge.Blacklist.{BlacklistManager}
use sim_bridge.RateLimit.{RateLimiter}
use sim_bridge.Metrics.{MetricsCollector}
use sim_bridge.SmsCorrelation.{SmsCorrelationStore}
pub mod Sending
pub mod Delivery
pub mod Serving

-- The settings that these routes read, with the defaults filled in. `agent.userbot_url` may be missing.
pub record Config : Type 0 where
  pub dongle : Text
  pub sms_per_hour : ℕ
  pub userbot_url : Option Text

-- The arguments of `ami.send_sms`.
pub record Submission : Type 0 where
  pub number : Text
  pub text : Text
  pub payload : Text

-- How `ami.send_sms` ends: it returns, or raises AMISendError, ConnectionError or another exception,
-- with its text.
pub data SendResult : Type 0 where
  sent : SendResult
  refused : Text → SendResult
  disconnected : SendResult
  crashed : Text → SendResult

-- How AMI answers `send_sms`, after the submissions so far.
abbrev pub Ami : Type 0
Ami = List Submission → Submission → SendResult

-- The body of a post to the userbot's /events/delivery, with its address.
pub record DeliveryNotice : Type 0 where
  pub url : Text
  pub sms_id : Text
  pub phone_number : Text
  pub telegram_user_id : ℕ
  pub status : Text
  pub error : Option Text

pub record SmsApi : Type 0 where
  pub blacklist : BlacklistManager
  pub sms_limiter : RateLimiter
  pub store : SmsCorrelationStore
  pub metrics : MetricsCollector
  pub audit : AuditLog
  pub submissions : List Submission
  pub notices : List DeliveryNotice

-- What a request reads from outside: the clocks, the ISO time of the records, and whether the two
-- appends to the log of the store succeed.
pub record Moment : Type 0 where
  pub ticks : ℕ
  pub now : ℕ
  pub iso : Text
  pub created_written : Bool
  pub marked_written : Bool

-- `audit.log(…)`
abbrev pub log :
    ℕ
    → EventType
    → Option ℕ
    → Option Text
    → Option Text
    → Text
    → List (Text × Value)
    → SmsApi
    → SmsApi
log now event telegram_user_id correlation_id modem_id outcome details s = record s {
  audit =
      append
        (record {
          timestamp = now;
          event = event;
          telegram_user_id = telegram_user_id;
          correlation_id = correlation_id;
          modem_id = modem_id;
          outcome = outcome;
          details = details;
        })
        s.audit;
}
