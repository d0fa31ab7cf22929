-- ===== src/Agent/Calls/TimeLimits.antt =====
-- agent/routes.py, `call_check_timeouts`: the calls that have run past a time limit are closed.
use sim_bridge.Prelude.{
  ℕ, Text, codes, text_Comparable, ◌||◌, List, [], ◌∷◌, ◌++◌, none, some, length, if◌then◌else◌,
}
use sim_bridge.Audit.{EventType, string, append}
use sim_bridge.Modem.Pool.{Provider}
use sim_bridge.CallControl.State.{CallState, state_eq}
use sim_bridge.CallControl.Machine.{CallMachine, get_active_channel_ids}
use sim_bridge.CallControl.Registry.{CallRegistry, cleanup}
use sim_bridge.CallControl.Operations.{fallback_to_voicemail, telegram_timeout, hangup}
use sim_bridge.CallControl.Monitor.{get_timed_out_calls}
use sim_bridge.Agent.Calls.{
  Config, CallApi, Ami, log, with_registry, current, hang_up_channels, notify_userbot_call,
}

pub data Action : Type 0 where
  voicemail timed_out hangup_duration : Action

module _ {P : Type 0} ⦃i : Provider P⦄ where
  abbrev pub clean : (call_id : Text) → CallApi P → CallApi P
  clean call_id t = with_registry t (cleanup t.registry call_id)

  -- RINGING or TELEGRAM_RINGING
  unfoldable pub expire_ringing : CallApi P → CallMachine → ℕ → CallApi P
  unfolding fallback_to_voicemail cleanup append
  expire_ringing s c now =
      let r : CallRegistry P = (fallback_to_voicemail s.registry c.call_id now).0 in
      clean c.call_id (
        log now EventType.call_telegram_timeout none (some c.call_id) (codes "voicemail_fallback")
          ((codes "from", string c.caller_number) ∷ []) (with_registry s r))

  -- MODEM_RESERVED or TELEGRAM_CALLING
  unfoldable pub expire_waiting : Config → CallApi P → CallMachine → ℕ → CallApi P
  unfolding telegram_timeout cleanup append notify_userbot_call
  expire_waiting cfg s c now =
      let r : CallRegistry P = (telegram_timeout s.registry c.call_id now).0 in
      clean c.call_id (
        notify_userbot_call cfg (current r c) (codes "no_answer") (
          log now EventType.call_telegram_timeout c.telegram_user_id (some c.call_id)
            (codes "no_answer") ((codes "to", string c.callee_number) ∷ []) (with_registry s r)))

  -- BRIDGED
  unfoldable pub expire_bridged : Ami → CallApi P → CallMachine → ℕ → CallApi P
  unfolding hang_up_channels get_active_channel_ids hangup cleanup append
  expire_bridged ami s c now =
      let asked =
        hang_up_channels ami now (codes "max_duration") c.call_id (get_active_channel_ids c) s in
      let r : CallRegistry P =
        (hangup asked.registry c.call_id (some (codes "max_duration_exceeded")) now).0 in
      clean c.call_id (
        log now EventType.call_duration_expired c.telegram_user_id (some c.call_id)
          (codes "max_duration") [] (with_registry asked r))

  -- One round. The calls are different objects, so that a round finds its call as the list has it.
  unfoldable pub expire :
      Config → Ami → CallApi P → CallMachine → ℕ → CallApi P × List (Text × Action)
  unfolding expire_ringing expire_waiting expire_bridged
  expire cfg ami s c now =
      if state_eq c.state CallState.ringing || state_eq c.state CallState.telegram_ringing
      then (expire_ringing s c now, (c.call_id, voicemail) ∷ [])
      else if state_eq c.state CallState.modem_reserved
          || state_eq c.state CallState.telegram_calling
      then (expire_waiting cfg s c now, (c.call_id, timed_out) ∷ [])
      else if state_eq c.state CallState.bridged
      then (expire_bridged ami s c now, (c.call_id, hangup_duration) ∷ [])
      else (s, [])

  -- The loop, with the entries that it appends to `handled`.
  unfoldable pub expire_all :
      Config → Ami → ℕ → List CallMachine → CallApi P → CallApi P × List (Text × Action)
  unfolding expire
  expire_all cfg ami now [] s = (s, [])
  expire_all cfg ami now (c ∷ cs) s =
      let (t, handled) = expire cfg ami s c now in
      let (u, others) = expire_all cfg ami now cs t in (u, handled ++ others)

  -- The answer is the number of the calls handled and their list.
  unfoldable pub call_check_timeouts :
      Config → Ami → CallApi P → ℕ → CallApi P × (ℕ × List (Text × Action))
  unfolding get_timed_out_calls expire_all
  call_check_timeouts cfg ami s now =
      let (t, handled) = expire_all cfg ami now (get_timed_out_calls s.registry cfg.limits now) s in
      (t, (length handled, handled))
