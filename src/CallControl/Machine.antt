-- ===== src/CallControl/Machine.antt =====
-- core/call_control.py, `CallMachine`. A time stamp is the instant that the stored ISO text renders,
-- in microseconds. Each operation reads the clock once.
use sim_bridge.Prelude.{
  ℕ, ◌+◌, ◌*◌, ltb, Text, is_set, codes, Bool, not, List, [], ◌∷◌, ◌++◌, Option, none, some,
  contains, if◌then◌else◌,
}
use sim_bridge.Metrics.{Direction}
use sim_bridge.CallControl.State.{
  CallState, idle, bridged, allowed, is_terminal_state, state_Comparable, state_eq,
}

pub record CallMachine : Type 0 where
  pub call_id : Text
  pub direction : Direction
  pub caller_number : Text
  pub callee_number : Text
  pub caller_name : Option Text
  pub callee_name : Option Text
  pub modem_id : Text
  pub state : CallState
  pub created_at : ℕ
  pub updated_at : ℕ
  pub error : Option Text
  pub gsm_channel_id : Option Text
  pub bridge_channel_id : Option Text
  pub telegram_user_id : Option ℕ
  pub telegram_call_id : Option Text
  pub bridged_at : Option ℕ

-- The constructor with the defaults of the fields, and `__post_init__` at `now`.
abbrev pub new_call : Text → Direction → ℕ → CallMachine
new_call call_id direction now = record {
  call_id = call_id;
  direction = direction;
  caller_number = [];
  callee_number = [];
  caller_name = none;
  callee_name = none;
  modem_id = codes "gsm";
  state = idle;
  created_at = now;
  updated_at = now;
  error = none;
  gsm_channel_id = none;
  bridge_channel_id = none;
  telegram_user_id = none;
  telegram_call_id = none;
  bridged_at = none;
}

-- The fields that an allowed transition writes.
unfoldable pub enter : ℕ → CallState → CallMachine → CallMachine
enter now new_state c = record c {
  state = new_state;
  updated_at = now;
  bridged_at = if state_eq new_state bridged then some now else c.bridged_at;
}

-- `transition`, with the hook `_on_transition` acting on what it closes over; `none` is the raise of
-- InvalidTransition.
unfoldable pub transition {ℓ} :
    {M : Type ℓ}
    → (CallMachine → M → M)
    → ℕ
    → CallState
    → CallMachine
    → M
    → Option (CallMachine × M)
transition hook now new_state c m =
    if contains new_state (allowed c.direction c.state)
    then some (enter now new_state c, hook (enter now new_state c) m)
    else none

abbrev pub is_terminal : CallMachine → Bool
is_terminal c = is_terminal_state c.state

abbrev pub is_active : CallMachine → Bool
is_active c = not (is_terminal c)

-- `elapsed > seconds`, for the microseconds from `since` to `now`.
abbrev pub exceeds : ℕ → ℕ → ℕ → Bool
exceeds since now seconds = ltb (since + seconds * 1_000_000) now

unfoldable pub check_duration_exceeded : ℕ → CallMachine → ℕ → Bool
check_duration_exceeded now c max_seconds = exceeds c.created_at now max_seconds

-- The channel of a leg that is known and not empty.
abbrev pub channel : Option Text → List Text
channel none = []
channel (some id) = if is_set (some id) then id ∷ [] else []

unfoldable pub get_active_channel_ids : CallMachine → List Text
get_active_channel_ids c = channel c.gsm_channel_id ++ channel c.bridge_channel_id
