-- ===== src/Metrics.antt =====
-- core/metrics.py: the counters of SMS and calls, and the last known state of three components.
-- Durations are in microseconds, readings of the monotonic clock in its ticks. A rate or an average
-- is the pair of its numerator and its denominator, before the division and the rounding.
use sim_bridge.Prelude.{ℕ, ◌+◌, ltb, nat_eq, Bool, Option, none, some, if◌then◌else◌}

pub record SmsCounters : Type 0 where
  pub sent : ℕ
  pub delivered : ℕ
  pub failed : ℕ
  pub incoming : ℕ

pub record CallCounters : Type 0 where
  pub incoming_answered : ℕ
  pub incoming_rejected : ℕ
  pub incoming_voicemail : ℕ
  pub incoming_timeout : ℕ
  pub outgoing_answered : ℕ
  pub outgoing_failed : ℕ
  pub outgoing_timeout : ℕ
  pub answered_micros : ℕ
  pub answered_completed : ℕ

pub record MetricsCollector : Type 0 where
  pub sms : SmsCounters
  pub calls : CallCounters
  pub modem_registered : Option Bool
  pub modem_last_check : ℕ
  pub bridge_reachable : Option Bool
  pub bridge_last_check : ℕ
  pub telegram_connected : Option Bool
  pub telegram_last_check : ℕ

-- The direction of a call: the two values that `CallMachine.direction` is given.
pub data Direction : Type 0 where
  incoming outgoing : Direction

abbrev pub new_collector : MetricsCollector
new_collector = record {
  sms = record { sent = 0; delivered = 0; failed = 0; incoming = 0 };
  calls = record {
    incoming_answered = 0;
    incoming_rejected = 0;
    incoming_voicemail = 0;
    incoming_timeout = 0;
    outgoing_answered = 0;
    outgoing_failed = 0;
    outgoing_timeout = 0;
    answered_micros = 0;
    answered_completed = 0;
  };
  modem_registered = none;
  modem_last_check = 0;
  bridge_reachable = none;
  bridge_last_check = 0;
  telegram_connected = none;
  telegram_last_check = 0;
}

unfoldable pub delivery_rate : SmsCounters → Option (ℕ × ℕ)
delivery_rate c = if nat_eq c.sent 0 then none else some (c.delivered, c.sent)

unfoldable pub total_answered : CallCounters → ℕ
total_answered c = c.incoming_answered + c.outgoing_answered

unfoldable pub avg_answered_micros : CallCounters → Option (ℕ × ℕ)
avg_answered_micros c =
    if nat_eq c.answered_completed 0 then none else some (c.answered_micros, c.answered_completed)

unfoldable pub total_missed : CallCounters → ℕ
total_missed c = c.incoming_rejected + c.incoming_timeout + c.outgoing_failed + c.outgoing_timeout

module _ (m : MetricsCollector) where
  unfoldable pub sms_sent : MetricsCollector
  sms_sent = record m { sms = record (m.sms) { sent = (m.sms).sent + 1 } }

  unfoldable pub sms_delivered : MetricsCollector
  sms_delivered = record m { sms = record (m.sms) { delivered = (m.sms).delivered + 1 } }

  unfoldable pub sms_failed : MetricsCollector
  sms_failed = record m { sms = record (m.sms) { failed = (m.sms).failed + 1 } }

  unfoldable pub sms_incoming : MetricsCollector
  sms_incoming = record m { sms = record (m.sms) { incoming = (m.sms).incoming + 1 } }

  unfoldable pub call_answered : Direction → MetricsCollector
  call_answered incoming = record m {
    calls = record (m.calls) { incoming_answered = (m.calls).incoming_answered + 1 };
  }
  call_answered outgoing = record m {
    calls = record (m.calls) { outgoing_answered = (m.calls).outgoing_answered + 1 };
  }

  unfoldable pub call_rejected : Direction → MetricsCollector
  call_rejected incoming = record m {
    calls = record (m.calls) { incoming_rejected = (m.calls).incoming_rejected + 1 };
  }
  call_rejected outgoing = m

  unfoldable pub call_voicemail : MetricsCollector
  call_voicemail = record m {
    calls = record (m.calls) { incoming_voicemail = (m.calls).incoming_voicemail + 1 };
  }

  unfoldable pub call_timeout : Direction → MetricsCollector
  call_timeout incoming = record m {
    calls = record (m.calls) { incoming_timeout = (m.calls).incoming_timeout + 1 };
  }
  call_timeout outgoing = record m {
    calls = record (m.calls) { outgoing_timeout = (m.calls).outgoing_timeout + 1 };
  }

  unfoldable pub call_failed : MetricsCollector
  call_failed = record m {
    calls = record (m.calls) { outgoing_failed = (m.calls).outgoing_failed + 1 };
  }

  -- A duration that is not positive is ignored.
  unfoldable pub record_answered_duration : ℕ → MetricsCollector
  record_answered_duration micros =
      if ltb 0 micros
      then record m {
        calls = record (m.calls) {
          answered_micros = (m.calls).answered_micros + micros;
          answered_completed = (m.calls).answered_completed + 1;
        };
      }
      else m

  unfoldable pub set_modem_registered : Bool → ℕ → MetricsCollector
  set_modem_registered registered now = record m {
    modem_registered = some registered;
    modem_last_check = now;
  }

  unfoldable pub set_bridge_reachable : Bool → ℕ → MetricsCollector
  set_bridge_reachable reachable now = record m {
    bridge_reachable = some reachable;
    bridge_last_check = now;
  }

  unfoldable pub set_telegram_connected : Bool → ℕ → MetricsCollector
  set_telegram_connected connected now = record m {
    telegram_connected = some connected;
    telegram_last_check = now;
  }
