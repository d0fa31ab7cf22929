-- ===== src/Modem.antt =====
-- core/modem.py: the states of a modem, snapshots of it, and the two sets of states that the
-- callers test. The children are the single-modem provider, the routing strategies and the pool.
pub mod Provider
pub mod Routing
pub mod Pool
use sim_bridge.Prelude.{ℕ, Text, Bool, true, false, Option, none, some, is_some, ◌&&◌}

pub data ModemState : Type 0 where
  offline initializing ready busy sms_busy call_busy error disabled : ModemState

-- `AVAILABLE_STATES`: the states that can accept new work.
abbrev pub is_available_state : ModemState → Bool
is_available_state ModemState.ready = true
is_available_state _ = false

-- `ONLINE_STATES`
abbrev pub is_online_state : ModemState → Bool
is_online_state ModemState.initializing = true
is_online_state ModemState.ready = true
is_online_state ModemState.busy = true
is_online_state ModemState.sms_busy = true
is_online_state ModemState.call_busy = true
is_online_state _ = false

-- `BROKEN_STATES`
abbrev pub is_broken_state : ModemState → Bool
is_broken_state ModemState.offline = true
is_broken_state ModemState.error = true
is_broken_state _ = false

-- `state is ModemState.OFFLINE`
abbrev pub is_offline_state : ModemState → Bool
is_offline_state ModemState.offline = true
is_offline_state _ = false

-- Times are readings of the monotonic clock, in its ticks.
pub record ModemInfo : Type 0 where
  pub modem_id : Text
  pub device : Text
  pub state : ModemState
  pub registered : Bool
  pub signal_percent : Option ℕ
  pub operator : Option Text
  pub sim_number : Option Text
  pub imei_suffix : Option Text
  pub error : Option Text
  pub last_seen : ℕ

-- Whether a modem state warrants a recovery attempt.
unfoldable pub is_broken : Option ModemInfo → Bool
is_broken none = false
is_broken (some info) = is_broken_state info.state
