-- ===== src/Checks/Limits.antt =====
-- core/ratelimit.py, core/recovery.py and core/alerting.py on small inputs.
use sim_bridge.Prelude.{
  ℕ, ◌-◌, ltb, leb, Text, codes, text_eq, text_Comparable, Bool, true, false, List, [], ◌∷◌, some,
  ◌≡◌, refl, arith,
}
use sim_bridge.Dict.{get, put}
use sim_bridge.RateLimit.{allow, remaining, recent}
use sim_bridge.RateLimit.Window.{request, requests, start, InOrder, allowed_within, allow_exact}
use sim_bridge.Recovery.{BackoffReconnector, Ending, retry, retry_loop}
use sim_bridge.Recovery.Backoff.{BacksOff, retry-BacksOff}
use sim_bridge.Alerting.{default_rules, new_rule, should_send, alert}
use sim_bridge.Alerting.Cooldown.{Call, send_times, Apart, sends-Apart}

abbrev user : Text
user = codes "42"

-- Three requests of one user within a window of ten.
abbrev burst : List (Text × ℕ)
burst = (user, 1) ∷ (user, 3) ∷ (user, 4) ∷ []

third_refused : (requests (start 2 10) burst).history ≡ (user, 3) ∷ (user, 1) ∷ []
unfolding requests request allow recent get put text_eq
third_refused = refl

abbrev in_order : InOrder 0 burst
in_order = (omega arith, (omega arith, (omega arith, tt)))

allow_exact_example :
    ((allow (requests (start 2 10) burst).limiter user 12).1
      ≡ ltb (allowed_within 10 user 12 (requests (start 2 10) burst).history) 2)
    × (remaining (requests (start 2 10) burst).limiter user 12
        ≡ 2 - allowed_within 10 user 12 (requests (start 2 10) burst).history)
allow_exact_example = allow_exact 2 10 burst user 12 in_order (omega arith)

abbrev ami : BackoffReconnector
ami = record { min_delay = 1; max_delay = 5; max_retries = 10 }

-- The operation first works the fifth time.
abbrev fifth : ℕ → Bool
fifth i = leb 5 i

fifth_try :
    retry 10 ami fifth
    ≡ some (record { result = true; attempts = 5; sleeps = 1 ∷ 2 ∷ 4 ∷ 5 ∷ []; gave_up = false })
unfolding retry_loop
fifth_try = refl

retry-BacksOff_example : (e : Ending) × (retry 10 ami fifth ≡ some e) × BacksOff ami fifth e
retry-BacksOff_example = retry-BacksOff ami fifth 10 (omega arith) (omega arith)

abbrev offline : Text
offline = codes "dongle_offline"

abbrev alarm : ℕ → Call
alarm now = record { name = offline; now = now; delivers = true }

abbrev alarms : List Call
alarms = alarm 100 ∷ alarm 400 ∷ alarm 500 ∷ alarm 700 ∷ []

-- The first alarm, less than the cooldown after the clock's zero, is suppressed.
alarm_times : send_times offline alarms default_rules ≡ 400 ∷ 700 ∷ []
unfolding send_times alert should_send get put text_eq
alarm_times = refl

sends-Apart_example : Apart 300 0 (send_times offline alarms default_rules)
sends-Apart_example =
    sends-Apart offline alarms default_rules (new_rule offline 300) (unfold get text_eq in refl)
