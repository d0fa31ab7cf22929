-- ===== src/Agent/Sms/Sending.antt =====
-- agent/routes.py: `send_sms`, and the routes that change the blacklist.
use sim_bridge.Prelude.{
  ℕ, leb, Text, codes, show_nat, Bool, true, not, ◌&&◌, ◌||◌, List, [], ◌∷◌, ◌++◌, Option, none,
  some, or_else, length, if◌then◌else◌,
}
use sim_bridge.Audit.{EventType, Value, string, boolean, append}
use sim_bridge.Blacklist.{BlacklistManager, Outcome, Stamp, has_number, block, unblock}
use sim_bridge.Blacklist
use sim_bridge.RateLimit.{allow}
use sim_bridge.Phone.{Destination, parse_destination, is_service_number}
use sim_bridge.Metrics.{sms_sent, sms_failed}
use sim_bridge.SmsCorrelation.{
  Message, new_record, create, store_record, mark, mark_submitted, mark_failed, submitted_record,
  failed_record,
}
use sim_bridge.Agent.Errors.{
  message, asterisk_sms_error_to_type, number_malformed_sms, blacklisted, modem_unavailable,
}
use sim_bridge.Agent.Http.{Reply, returned, http_error, raised}
use sim_bridge.Agent.Calls.Placing.{is_nonzero}
use sim_bridge.Agent.Sms.{
  Config, SmsApi, Ami, Submission, SendResult, sent, refused, disconnected, crashed, Moment, log,
}

-- `correlation_id` is the identifier of the request, or the one that is drawn.
pub record SmsRequest : Type 0 where
  pub to : Text
  pub text : Text
  pub correlation_id : Text
  pub telegram_user_id : Option ℕ
  pub telegram_message_id : Option ℕ

pub record SmsResponse : Type 0 where
  pub correlation_id : Text
  pub sms_id : Text
  pub message : Text

-- `min_length=1, max_length=160`: another text is refused before the handler is called.
abbrev pub has_valid_length : Text → Bool
has_valid_length text = leb 1 (length text) && leb (length text) 160

abbrev pub sms_limiter_key : SmsRequest → Text → Text
sms_limiter_key req number =
    codes "sms:"
    ++ (if is_nonzero req.telegram_user_id
        then show_nat (or_else req.telegram_user_id 0)
        else number)

-- The audit records of `send_sms` on a request that is not taken.
abbrev pub log_refused : ℕ → SmsRequest → Text → List (Text × Value) → SmsApi → SmsApi
log_refused now req outcome details s =
    log now EventType.sms_send_requested req.telegram_user_id (some req.correlation_id) none outcome
      details s

abbrev pub message_of : Config → SmsRequest → (number sms_id : Text) → Moment → Message
message_of cfg req number sms_id m = record {
  sms_id = sms_id;
  telegram_user_id = or_else req.telegram_user_id 0;
  phone_number = number;
  text = req.text;
  telegram_message_id = req.telegram_message_id;
  modem_id = cfg.dongle;
  now = m.iso;
}

-- `sms_store.mark_failed(…, submit_failed=True)` and `metrics_collector.sms_failed()`
unfoldable pub submit_failed : (sms_id error : Text) → Moment → SmsApi → SmsApi
unfolding mark failed_record sms_failed
submit_failed sms_id error m s = record s {
  store = (mark_failed sms_id error true m.marked_written s.store).0;
  metrics = sms_failed s.metrics;
}

abbrev pub submission_of : SmsRequest → (number sms_id : Text) → Submission
submission_of req number sms_id = record { number = number; text = req.text; payload = sms_id }

-- `dest.is_internal or is_service_number(dest.number)`: no SMS goes there.
abbrev pub takes_sms : Destination → Bool
takes_sms dest = not (dest.is_internal || is_service_number dest.number)

module _ (lower : Text → Text) where
  -- What follows `ami.send_sms`, by the way it ends.
  unfoldable pub after_submission :
      Config
      → SmsRequest
      → (number sms_id : Text) → Moment
      → SendResult
      → SmsApi
      → SmsApi × Reply SmsResponse
  unfolding submit_failed mark submitted_record sms_sent append asterisk_sms_error_to_type
  after_submission cfg req number sms_id m sent s = (
    log m.now EventType.sms_submitted req.telegram_user_id (some req.correlation_id)
        (some cfg.dongle) (codes "ok")
        ((codes "to", string number) ∷ (codes "sms_id", string sms_id) ∷ [])
        (record s {
          store = (mark_submitted sms_id m.iso m.marked_written s.store).0;
          metrics = sms_sent s.metrics;
        }),
    returned (record {
      correlation_id = req.correlation_id;
      sms_id = sms_id;
      message = codes "SMS submitted to " ++ req.to;
    }),
  )
  after_submission cfg req number sms_id m (refused error) s = (
    submit_failed sms_id error m s,
    http_error 502 (message (asterisk_sms_error_to_type lower error)),
  )
  after_submission cfg req number sms_id m disconnected s = (
    submit_failed sms_id (message modem_unavailable) m s,
    http_error 503 (message modem_unavailable),
  )
  after_submission cfg req number sms_id m (crashed error) s =
      (submit_failed sms_id error m s, http_error 500 error)

  -- From the creation of the record on. `sms_id` is the identifier that `create` draws.
  unfoldable pub submit :
      Config
      → Ami
      → SmsRequest
      → (number sms_id : Text) → Moment
      → SmsApi
      → SmsApi × Reply SmsResponse
  unfolding after_submission store_record new_record append
  submit cfg ami req number sms_id m s =
      let recorded : SmsApi = record s {
        store = (create (message_of cfg req number sms_id m) m.created_written s.store).0;
      } in
      let requested : SmsApi =
        log m.now EventType.sms_send_requested req.telegram_user_id (some req.correlation_id) none
          (codes "submitted") ((codes "to", string number) ∷ (codes "sms_id", string sms_id) ∷ [])
          recorded in
      after_submission cfg req number sms_id m (ami s.submissions (submission_of req number sms_id))
        (record requested { submissions = s.submissions ++ submission_of req number sms_id ∷ [] })

  -- From the blacklist check on.
  unfoldable pub send_to :
      Config
      → Ami
      → SmsRequest
      → (number sms_id : Text) → Moment
      → SmsApi
      → SmsApi × Reply SmsResponse
  unfolding has_number allow submit append show_nat
  send_to cfg ami req number sms_id m s =
      let (blacklist, is_listed) = has_number number s.blacklist in
      let checked : SmsApi = record s { blacklist = blacklist } in
      let (limiter, allowed) = allow s.sms_limiter (sms_limiter_key req number) m.ticks in
      let counted : SmsApi = record checked { sms_limiter = limiter } in
      if is_listed
      then (
        log_refused m.now req (codes "blacklisted") ((codes "to", string number) ∷ []) checked,
        http_error 403 (message blacklisted),
      )
      else if allowed
      then submit cfg ami req number sms_id m counted
      else (
        log_refused m.now req (codes "rate_limited")
            ((codes "to", string number) ∷ (codes "limit", Value.number cfg.sms_per_hour) ∷ [])
            counted,
        http_error 429
            (codes "Rate limit exceeded: " ++ show_nat cfg.sms_per_hour ++ codes " SMS per hour"),
      )

  unfoldable pub send_sms :
      Config → Ami → SmsRequest → (sms_id : Text) → Moment → SmsApi → SmsApi × Reply SmsResponse
  unfolding send_to append is_service_number
  send_sms cfg ami req sms_id m s =
      let malformed : SmsApi × Reply SmsResponse = (
        log_refused m.now req (codes "malformed") ((codes "to", string req.to) ∷ []) s,
        http_error 400 (message number_malformed_sms),
      ) in
      elim (parse_destination (some req.to)) [
        | none ↦ malformed
        | some dest ↦
            if takes_sms dest then send_to cfg ami req dest.number sms_id m s else malformed
      ]

abbrev log_change : ℕ → Text → List (Text × Value) → SmsApi → SmsApi
log_change now outcome details s =
    log now EventType.blacklist_changed none none none outcome details s

abbrev pub report_change :
    ℕ
    → (action number key : Text) → SmsApi
    → BlacklistManager × Outcome
    → SmsApi × Reply (Text × Text)
report_change now action number key s (blacklist, Blacklist.os_error) =
    (record s { blacklist = blacklist }, raised)
report_change now action number key s (blacklist, Blacklist.returned changed) = (
  log_change now action ((codes "number", string number) ∷ (key, boolean changed) ∷ [])
      (record s { blacklist = blacklist }),
  returned (action, number),
)

-- The stamp of the write is the time that the file gets, if the write succeeds.
unfoldable pub block_number : Text → Option Stamp → ℕ → SmsApi → SmsApi × Reply (Text × Text)
unfolding block append
block_number number stamp now s =
    report_change now (codes "blocked") number (codes "added") s (block number stamp s.blacklist)

unfoldable pub unblock_number : Text → Option Stamp → ℕ → SmsApi → SmsApi × Reply (Text × Text)
unfolding unblock append
unblock_number number stamp now s =
    report_change now (codes "unblocked") number (codes "removed") s
      (unblock number stamp s.blacklist)
