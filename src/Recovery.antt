-- ===== src/Recovery.antt =====
-- core/recovery.py: the retry loop with its growing delays, and the watchdog of a modem. Delays are in
-- ticks of the clock. Cancelling the tasks by `stop` is left out, and the callbacks are there and
-- do not raise.
pub mod Backoff
pub mod Watchdog
use sim_bridge.Prelude.{
  ℕ, zero, suc, ◌*◌, ltb, leb, min, Text, Bool, true, false, List, [], ◌∷◌, ◌++◌, Option, none,
  some, if◌then◌else◌,
}

pub record BackoffReconnector : Type 0 where
  pub min_delay : ℕ
  pub max_delay : ℕ
  pub max_retries : ℕ

-- How a loop ended: its result, how often the operation was called, how long it slept between, and
-- whether `on_give_up` was called.
pub record Ending : Type 0 where
  pub result : Bool
  pub attempts : ℕ
  pub sleeps : List ℕ
  pub gave_up : Bool

abbrev slept : ℕ → Ending → Ending
slept delay e = record e { sleeps = delay ∷ e.sleeps }

abbrev slept_if : ℕ → Option Ending → Option Ending
slept_if delay none = none
slept_if delay (some e) = some (slept delay e)

-- `_retry_loop` from the attempt after `attempt`: `succeeds i` says how the i-th call of the operation
-- goes. Every turn of the loop uses one unit of fuel.
unfoldable pub retry_loop : ℕ → BackoffReconnector → (ℕ → Bool) → ℕ → ℕ → Option Ending
retry_loop zero r succeeds attempt delay = none
retry_loop (suc fuel) r succeeds attempt delay =
    let rest = retry_loop fuel r succeeds (suc attempt) (min (delay * 2) r.max_delay) in
    if succeeds (suc attempt)
    then some (record { result = true; attempts = suc attempt; sleeps = []; gave_up = false })
    else if leb r.max_retries (suc attempt)
    then some (record { result = false; attempts = suc attempt; sleeps = []; gave_up = true })
    else slept_if delay rest

abbrev pub retry : ℕ → BackoffReconnector → (ℕ → Bool) → Option Ending
retry fuel r succeeds = retry_loop fuel r succeeds 0 r.min_delay

pub data Check : Type 0 where
  healthy : Check
  -- With how the reset goes, if one is tried.
  unhealthy : Bool → Check
  check_error : Check

pub record ModemWatchdog : Type 0 where
  pub max_resets : ℕ
  pub consecutive_failures : ℕ
  -- How often `_reset_fn` was called, and how often `_alert_fn` was.
  pub resets : ℕ
  pub alerts : ℕ

abbrev pub new_watchdog : ℕ → ModemWatchdog
new_watchdog max_resets = record {
  max_resets = max_resets;
  consecutive_failures = 0;
  resets = 0;
  alerts = 0;
}

-- One turn of `_watch_loop`.
unfoldable pub watch : Check → ModemWatchdog → ModemWatchdog
watch healthy w =
    if ltb 0 w.consecutive_failures
    then record w { consecutive_failures = 0; alerts = suc w.alerts }
    else record w { consecutive_failures = 0 }
watch (unhealthy reset_works) w =
    if leb w.max_resets (suc w.consecutive_failures)
    then if reset_works
      then record w { consecutive_failures = 0; resets = suc w.resets }
      else record w {
        consecutive_failures = suc w.consecutive_failures;
        resets = suc w.resets;
        alerts = suc w.alerts;
      }
    else record w { consecutive_failures = suc w.consecutive_failures }
watch check_error w = w

unfoldable pub watch_all : List Check → ModemWatchdog → ModemWatchdog
watch_all [] w = w
watch_all (c ∷ cs) w = watch_all cs (watch c w)
