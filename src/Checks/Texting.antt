-- ===== src/Checks/Texting.antt =====
-- agent/routes.py on small inputs: the routes of messages.
use sim_bridge.Prelude.{
  Text, codes, text_eq, text_Comparable, true, false, List, [], ◌∷◌, ◌++◌, none, some, ◌≡◌, refl,
  ◌⊎◌, is_decimal, is_space, left_strip, right_strip, contains, starts_with,
}
use sim_bridge.Dict.{get, put}
use sim_bridge.Blacklist
use sim_bridge.Blacklist.{has_number, maybe_reload}
use sim_bridge.RateLimit.{new_limiter, allow, recent}
use sim_bridge.Metrics.{new_collector}
use sim_bridge.Phone.{
  Destination, parse_destination, destination_of, led_by, digits_to_end, digit_run, after_digits,
  normalize_e164, normalized,
}
use sim_bridge.SmsCorrelation.{new_store, store_record, mark}
use sim_bridge.Agent.Http.{returned, is_returned, strip_slashes}
use sim_bridge.Agent.Sms.{Config, SmsApi, Ami, Moment, sent, disconnected}
use sim_bridge.Agent.Sms.Sending.{
  SmsRequest, send_sms, takes_sms, sms_limiter_key, after_submission,
}
use sim_bridge.Agent.Sms.Delivery.{report_sms_delivered}
use sim_bridge.Agent.Sms.Serving.{Request, serve_all}
use sim_bridge.Agent.Sms.Serving
use sim_bridge.Agent.Sms.Serving.Records.{Submitted, Untouched, send_sms-Submitted}
use sim_bridge.Agent.Sms.Serving.Sender.{sent_then_delivered}
use sim_bridge.Agent.Sms.Serving.Tally.{IsTallied, serve_all-Tallied}

abbrev settings : Config
settings = record {
  dongle = codes "gsm";
  sms_per_hour = 30;
  userbot_url = some (codes "http://127.0.0.1:8080/");
}

-- AMI takes the first message and is gone afterwards.
abbrev once : Ami
once [] x = sent
once (y ∷ ys) x = disconnected

abbrev same : Text → Text
same s = s

abbrev moment : Moment
moment = record {
  ticks = 1;
  now = 10;
  iso = codes "2026-01-01T10:00";
  created_written = true;
  marked_written = true;
}

abbrev start : SmsApi
start = record {
  blacklist = Blacklist.new_manager none;
  sms_limiter = new_limiter 30 3600;
  store = new_store none;
  metrics = new_collector;
  audit = [];
  submissions = [];
  notices = [];
}

abbrev hello : SmsRequest
hello = record {
  to = codes "+79261234555";
  text = codes "hello";
  correlation_id = codes "r1";
  telegram_user_id = some 7;
  telegram_message_id = none;
}

abbrev a : Text
a = codes "a"

abbrev somebody : Destination
somebody = record { number = codes "+79261234555"; is_internal = false }

send_sms-Submitted_example :
    ((dest : Destination) × ((parse_destination (some hello.to) ≡ some dest)
        × (takes_sms dest ≡ true)
        × ((has_number dest.number start.blacklist).1 ≡ false)
        × ((allow start.sms_limiter (sms_limiter_key hello dest.number) 1).1 ≡ true)
        × Submitted sent start hello dest.number a
            (send_sms same settings once hello a moment start)))
    ⊎ Untouched start (send_sms same settings once hello a moment start)
send_sms-Submitted_example = send_sms-Submitted same settings once hello a moment start

abbrev later : List Request
later = Serving.send hello (codes "b") moment ∷ Serving.delivered (codes "b") moment ∷ []

parsed : parse_destination (some hello.to) ≡ some somebody
unfolding destination_of led_by digits_to_end digit_run after_digits is_decimal is_space left_strip
    right_strip contains
parsed = refl

answered : is_returned (send_sms same settings once hello a moment start).1 ≡ true
unfolding send_sms destination_of led_by digits_to_end digit_run after_digits is_decimal is_space
    left_strip right_strip contains has_number normalize_e164 normalized starts_with maybe_reload
    allow recent get
answered = refl

fresh : get (codes "b") (send_sms same settings once hello a moment start).0.store.records ≡ none
unfolding send_sms destination_of led_by digits_to_end digit_run after_digits is_decimal is_space
    left_strip right_strip contains has_number normalize_e164 normalized starts_with maybe_reload
    allow recent get put store_record mark after_submission new_store text_eq
fresh = refl

sent_then_delivered_example :
    ((report_sms_delivered settings a moment
        (serve_all same settings once (send_sms same settings once hello a moment start).0 later)).1
      ≡ returned a)
    × ((report_sms_delivered settings a moment (
          serve_all same settings once
            (send_sms same settings once hello a moment start).0
            later)).0.notices
        ≡ (serve_all same settings once
            (send_sms same settings once hello a moment start).0
            later).notices
          ++ record {
            url = codes "http://127.0.0.1:8080/events/delivery";
            sms_id = a;
            phone_number = codes "+79261234555";
            telegram_user_id = 7;
            status = codes "delivered";
            error = none;
          }
            ∷ [])
unfolding strip_slashes
sent_then_delivered_example =
    sent_then_delivered same settings once hello a (codes "http://127.0.0.1:8080/") moment moment
      start later somebody refl parsed answered (fresh, (tt, tt))

serve_all-Tallied_example :
    IsTallied same settings once
      (serve_all same settings once start (Serving.send hello a moment ∷ later))
serve_all-Tallied_example =
    serve_all-Tallied same settings once start (Serving.send hello a moment ∷ later) refl
