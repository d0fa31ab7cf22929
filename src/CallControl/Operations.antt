-- ===== src/CallControl/Operations.antt =====
-- core/call_control.py, `CallRegistry`: the operations on the calls that are there. Each is given the
-- clock once. The results are Python's Booleans.
use sim_bridge.Prelude.{
  ℕ, Text, text_Comparable, is_set, Bool, true, false, Option, none, some, if◌then◌else◌, ◌&&◌,
}
use sim_bridge.Dict.{get, put}
use sim_bridge.Metrics.{MetricsCollector}
use sim_bridge.CallControl.State.{CallState, state_Comparable}
use sim_bridge.CallControl.Machine.{CallMachine}
use sim_bridge.CallControl.Registry.{CallRegistry, move}

abbrev pub set_gsm_channel : Option Text → CallMachine → CallMachine
set_gsm_channel id c = record c { gsm_channel_id = id }

abbrev pub set_error : Option Text → CallMachine → CallMachine
set_error reason c = record c { error = reason }

module _ {P : Type 0} where
  -- The write of a call that is in the registry, with the metrics as they are then.
  abbrev pub write : Text → CallRegistry P → CallMachine × Option MetricsCollector → CallRegistry P
  write call_id r (c, m) = record r { calls = put call_id c r.calls; metrics = m }

  unfoldable pub transition : CallRegistry P → Text → CallState → ℕ → CallRegistry P × Bool
  transition r call_id new_state now = elim (get call_id r.calls) [
    | none ↦ (r, false)
    | some c ↦ elim (move now new_state (c, r.metrics)) [
      | none ↦ (r, false)
      | some moved ↦ (write call_id r moved, true)
    ]
  ]

  -- `call = self.get(call_id)`, `if call: …`
  unfoldable pub update_call : Text → (CallMachine → CallMachine) → CallRegistry P → CallRegistry P
  update_call call_id f r = elim (get call_id r.calls) [
    | none ↦ r
    | some c ↦ record r { calls = put call_id (f c) r.calls }
  ]

  -- `ok = self.transition(…)`, `if ok and value: …`
  unfoldable pub then_update :
      Text
      → Option Text
      → (CallMachine → CallMachine)
      → CallRegistry P × Bool
      → CallRegistry P × Bool
  unfolding update_call
  then_update call_id value f (r, ok) =
      (if ok && is_set value then update_call call_id f r else r, ok)

module _ {P : Type 0} where
  unfoldable pub start_telegram_ring : CallRegistry P → Text → ℕ → CallRegistry P × Bool
  unfolding transition
  start_telegram_ring r call_id now = transition r call_id CallState.telegram_ringing now

  unfoldable pub accept_incoming : CallRegistry P → Text → ℕ → CallRegistry P × Bool
  unfolding transition
  accept_incoming r call_id now = transition r call_id CallState.telegram_accepted now

  unfoldable pub bridge_call : CallRegistry P → Text → ℕ → CallRegistry P × Bool
  unfolding transition
  bridge_call r call_id now = transition r call_id CallState.bridged now

  unfoldable pub fallback_to_voicemail : CallRegistry P → Text → ℕ → CallRegistry P × Bool
  unfolding transition
  fallback_to_voicemail r call_id now = transition r call_id CallState.voicemail now

  unfoldable pub start_telegram_calling : CallRegistry P → Text → ℕ → CallRegistry P × Bool
  unfolding transition
  start_telegram_calling r call_id now = transition r call_id CallState.telegram_calling now

  unfoldable pub user_accepted : CallRegistry P → Text → ℕ → CallRegistry P × Bool
  unfolding transition
  user_accepted r call_id now = transition r call_id CallState.user_accepted now

  unfoldable pub gsm_ringing : CallRegistry P → Text → ℕ → CallRegistry P × Bool
  unfolding transition
  gsm_ringing r call_id now = transition r call_id CallState.gsm_ringing now

  unfoldable pub gsm_connected : CallRegistry P → Text → ℕ → CallRegistry P × Bool
  unfolding transition
  gsm_connected r call_id now = transition r call_id CallState.connected now

  unfoldable pub gsm_busy : CallRegistry P → Text → ℕ → CallRegistry P × Bool
  unfolding transition
  gsm_busy r call_id now = transition r call_id CallState.gsm_busy now

  unfoldable pub gsm_no_answer : CallRegistry P → Text → ℕ → CallRegistry P × Bool
  unfolding transition
  gsm_no_answer r call_id now = transition r call_id CallState.gsm_no_answer now

  unfoldable pub telegram_timeout : CallRegistry P → Text → ℕ → CallRegistry P × Bool
  unfolding transition
  telegram_timeout r call_id now = transition r call_id CallState.telegram_timeout now

  unfoldable pub answer_gsm : CallRegistry P → Text → Option Text → ℕ → CallRegistry P × Bool
  unfolding transition then_update
  answer_gsm r call_id gsm_channel_id now =
      then_update call_id gsm_channel_id (set_gsm_channel gsm_channel_id)
        (transition r call_id CallState.gsm_answered now)

  unfoldable pub dial_gsm : CallRegistry P → Text → Option Text → ℕ → CallRegistry P × Bool
  unfolding transition then_update
  dial_gsm r call_id gsm_channel_id now =
      then_update call_id gsm_channel_id (set_gsm_channel gsm_channel_id)
        (transition r call_id CallState.gsm_dialing now)

  unfoldable pub hangup : CallRegistry P → Text → Option Text → ℕ → CallRegistry P × Bool
  unfolding transition then_update
  hangup r call_id reason now =
      then_update call_id reason (set_error reason) (transition r call_id CallState.hangup now)

  unfoldable pub reject : CallRegistry P → Text → Option Text → ℕ → CallRegistry P × Bool
  unfolding transition then_update
  reject r call_id reason now =
      then_update call_id reason (set_error reason) (transition r call_id CallState.rejected now)

  unfoldable pub gsm_error : CallRegistry P → Text → Option Text → ℕ → CallRegistry P × Bool
  unfolding transition then_update
  gsm_error r call_id reason now =
      then_update call_id reason (set_error reason) (transition r call_id CallState.gsm_error now)

  unfoldable pub set_bridge_leg : CallRegistry P → Text → Text → CallRegistry P × Bool
  set_bridge_leg r call_id id = elim (get call_id r.calls) [
    | none ↦ (r, false)
    | some c ↦
        (record r { calls = put call_id (record c { bridge_channel_id = some id }) r.calls }, true)
  ]

  unfoldable pub set_telegram_call_id : CallRegistry P → Text → Text → CallRegistry P × Bool
  set_telegram_call_id r call_id id = elim (get call_id r.calls) [
    | none ↦ (r, false)
    | some c ↦
        (record r { calls = put call_id (record c { telegram_call_id = some id }) r.calls }, true)
  ]
