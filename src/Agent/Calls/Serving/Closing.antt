-- ===== src/Agent/Calls/Serving/Closing.antt =====
-- agent/routes.py over core/call_control.py: the reports of the dialplan and the time limits act on the
-- registry by its operations only.
use sim_bridge.Prelude.{
  ℕ, Text, text_Comparable, Bool, List, [], ◌∷◌, ◌++◌, some, ◌≡◌, refl, codes, if◌then◌else◌,
  Option-cases, inl, inr, sym, subst,
}
use sim_bridge.Dict.{get}
use sim_bridge.Metrics.{Direction, incoming, outgoing}
use sim_bridge.Modem.Pool.{Provider}
use sim_bridge.CallControl.State.{CallState, state_eq}
use sim_bridge.CallControl.Machine.{CallMachine, get_active_channel_ids, is_terminal}
use sim_bridge.CallControl.Registry.{CallRegistry}
use sim_bridge.CallControl.Operations.{
  bridge_call, fallback_to_voicemail, gsm_ringing, gsm_connected, gsm_busy, gsm_no_answer,
  telegram_timeout,
}
use sim_bridge.CallControl.Monitor.{get_timed_out_calls}
use sim_bridge.CallControl.Trace.{Event, step, Sound}
use sim_bridge.CallControl.Trace
use sim_bridge.Agent.Calls.{Config, CallApi, Ami, notify_userbot_call, current}
use sim_bridge.Agent.Calls.Complete.{
  CallCompleteRequest, has_status, dialstatus_or, connect_and_bridge, record_failure,
  incoming_answered, outgoing_answered, incoming_unanswered, incoming_rejected, incoming_ended,
  outgoing_failed, outgoing_ended, complete_bridged, complete_leg, call_complete, gone,
}
use sim_bridge.Agent.Calls.TimeLimits.{
  Action, expire_ringing, expire_waiting, expire_bridged, expire, expire_all, call_check_timeouts,
}
use sim_bridge.Agent.Calls.Serving.Steps.{
  Reach, here, Reach-trans, if-Reach, if-Served, option-Served, one_step,
}
use sim_bridge.Agent.Calls.Serving.Making.{moves-Reach}
use sim_bridge.Agent.Calls.Serving.Ending.{hung_up-Reach, cleans-Reach, hangs_up-Reach}

module _ {P : Type 0} where
  pub notify_userbot_call-registry :
      (cfg : Config) (c : CallMachine) (status : Text) (s : CallApi P)
      → (notify_userbot_call cfg c status s).registry ≡ s.registry
  unfolding notify_userbot_call
  notify_userbot_call-registry cfg c status s = elim (Option-cases cfg.userbot_url) [
    | inl e ↦ rw (e, notify_userbot_call) refl
    | inr (url, e) ↦ rw (e, notify_userbot_call) refl
  ]

module _ {P : Type 0} ⦃i : Provider P⦄ where
  notifies-Reach :
      (r : CallRegistry P) (cfg : Config) (c : CallMachine) (status : Text) (s : CallApi P)
      → Reach r s.registry
      → Reach r (notify_userbot_call cfg c status s).registry
  notifies-Reach r cfg c status s h =
      subst (Reach r) (sym (notify_userbot_call-registry cfg c status s)) h

  if-Moved :
      (r : CallRegistry P) (b : Bool) (x y : CallRegistry P × Bool)
      → Reach r x.0
      → Reach r y.0
      → Reach r (if b then x else y).0
  if-Moved r b x y p q = if-Reach {S = CallRegistry P × Bool} (λ t. t.0) r b x y p q

  if-Acted :
      (r : CallRegistry P) (b : Bool) (x y : CallApi P × List (Text × Action))
      → Reach r x.0.registry
      → Reach r y.0.registry
      → Reach r (if b then x else y).0.registry
  if-Acted r b x y p q =
      if-Reach {S = CallApi P × List (Text × Action)} (λ t. t.0.registry) r b x y p q

  connect_and_bridge-Reach :
      (r : CallRegistry P) (id : Text) (now : ℕ) → Reach r (connect_and_bridge r id now).0
  unfolding connect_and_bridge gsm_ringing gsm_connected bridge_call
  connect_and_bridge-Reach r id now =
      let rings = moves-Reach r id CallState.gsm_ringing now in
      let connects =
        Reach-trans rings (moves-Reach (gsm_ringing r id now).0 id CallState.connected now) in
      if-Moved r _ _ _
        (if-Moved r _ _ _
          (Reach-trans connects (
            moves-Reach (gsm_connected (gsm_ringing r id now).0 id now).0 id CallState.bridged now))
          connects)
        rings

  record_failure-Reach :
      (r : CallRegistry P) (id : Text) (req : CallCompleteRequest) (now : ℕ)
      → Reach r (record_failure r id req now).0
  unfolding record_failure gsm_no_answer gsm_busy step
  record_failure-Reach r id req now =
      if-Moved r _ _ _ (moves-Reach r id CallState.gsm_no_answer now) (
        if-Moved r _ _ _ (moves-Reach r id CallState.gsm_busy now)
          (one_step r (Trace.fails id (some (dialstatus_or req (codes "network_error"))) now) tt))

  incoming_answered-Reach :
      (s : CallApi P) (id : Text) (c : CallMachine) (now : ℕ)
      → Reach s.registry (incoming_answered s id c now).0.registry
  unfolding incoming_answered step
  incoming_answered-Reach s id c now =
      let forwarded = one_step s.registry (Trace.fast_forwards id now) tt in
      if-Served s.registry _ _ _ forwarded forwarded

  outgoing_answered-Reach :
      (cfg : Config) (s : CallApi P) (id : Text) (c : CallMachine) (now : ℕ)
      → Reach s.registry (outgoing_answered cfg s id c now).0.registry
  unfolding outgoing_answered
  outgoing_answered-Reach cfg s id c now =
      let bridged = connect_and_bridge-Reach s.registry id now in
      if-Served s.registry _ _ _
        (notifies-Reach s.registry cfg (current (connect_and_bridge s.registry id now).0 c)
          (codes "answered") _ bridged)
        bridged

  incoming_unanswered-Reach :
      (s : CallApi P) (id : Text) (c : CallMachine) (now : ℕ)
      → Reach s.registry (incoming_unanswered s id c now).0.registry
  unfolding incoming_unanswered fallback_to_voicemail
  incoming_unanswered-Reach s id c now =
      let left = moves-Reach s.registry id CallState.voicemail now in
      if-Served s.registry _ _ _ (cleans-Reach s.registry _ id left) left

  incoming_rejected-Reach :
      (s : CallApi P) (id : Text) (c : CallMachine) (now : ℕ)
      → Reach s.registry (incoming_rejected s id c now).0.registry
  unfolding incoming_rejected step
  incoming_rejected-Reach s id c now =
      let rejected =
        one_step s.registry (Trace.rejects id (some (codes "telegram_rejected")) now) tt in
      if-Served s.registry _ _ _ (cleans-Reach s.registry _ id rejected) rejected

  incoming_ended-Reach :
      (s : CallApi P) (id : Text) (c : CallMachine) (req : CallCompleteRequest) (now : ℕ)
      → Reach s.registry (incoming_ended s id c req now).0.registry
  unfolding incoming_ended
  incoming_ended-Reach s id c req now =
      let reason =
        if has_status req (codes "cancelled")
        then codes "caller_hangup"
        else codes "bridge_" ++ dialstatus_or req (codes "failed") in
      let closed = hangs_up-Reach s.registry id (some reason) now in
      if-Served s.registry _ _ _ (cleans-Reach s.registry _ id closed) closed

  outgoing_failed-Reach :
      (cfg : Config) (s : CallApi P) (id : Text) (c : CallMachine) (req : CallCompleteRequest)
      (now : ℕ)
      → Reach s.registry (outgoing_failed cfg s id c req now).0.registry
  unfolding outgoing_failed
  outgoing_failed-Reach cfg s id c req now =
      let failed = record_failure-Reach s.registry id req now in
      if-Served s.registry _ _ _
        (cleans-Reach s.registry _ id (
          notifies-Reach s.registry cfg (current (record_failure s.registry id req now).0 c)
            req.status _ failed))
        failed

  outgoing_ended-Reach :
      (ami : Ami) (s : CallApi P) (id : Text) (c : CallMachine) (req : CallCompleteRequest)
      (now : ℕ)
      → Reach s.registry (outgoing_ended ami s id c req now).0.registry
  unfolding outgoing_ended
  outgoing_ended-Reach ami s id c req now =
      let closed =
        hung_up-Reach ami now (codes "BYE") id (get_active_channel_ids c)
          (some (codes "telegram_hangup")) s in
      if-Served s.registry _ _ _ (cleans-Reach s.registry _ id closed) closed

  complete_bridged-Reach :
      (ami : Ami) (s : CallApi P) (id : Text) (c : CallMachine) (req : CallCompleteRequest)
      (now : ℕ)
      → Reach s.registry (complete_bridged ami s id c req now).0.registry
  unfolding complete_bridged
  complete_bridged-Reach ami s id c req now =
      let reason = if has_status req (codes "ended") then codes "completed" else req.status in
      let closed =
        hung_up-Reach ami now (codes "BYE") id (get_active_channel_ids c) (some reason) s in
      if-Served s.registry _ _ _ here (cleans-Reach s.registry _ id closed)

  complete_leg-Reach :
      (cfg : Config) (ami : Ami) (s : CallApi P) (id : Text) (c : CallMachine) (d : Direction)
      (req : CallCompleteRequest) (now : ℕ)
      → Reach s.registry (complete_leg cfg ami s id c d req now).0.registry
  unfolding complete_leg
  complete_leg-Reach cfg ami s id c incoming req now =
      if-Served s.registry (has_status req (codes "answered")) (incoming_answered s id c now) _
        (incoming_answered-Reach s id c now)
        (if-Served s.registry (has_status req (codes "no_answer")) (incoming_unanswered s id c now)
          _ (incoming_unanswered-Reach s id c now)
          (if-Served s.registry (has_status req (codes "busy")) (incoming_rejected s id c now)
            (incoming_ended s id c req now) (incoming_rejected-Reach s id c now)
            (incoming_ended-Reach s id c req now)))
  complete_leg-Reach cfg ami s id c outgoing req now =
      if-Served s.registry (has_status req (codes "answered")) (outgoing_answered cfg s id c now) _
        (outgoing_answered-Reach cfg s id c now)
        (if-Served s.registry _ (outgoing_failed cfg s id c req now)
          (outgoing_ended ami s id c req now) (outgoing_failed-Reach cfg s id c req now)
          (outgoing_ended-Reach ami s id c req now))

  pub call_complete-Reach :
      (cfg : Config) (ami : Ami) (s : CallApi P) (id : Text) (req : CallCompleteRequest) (now : ℕ)
      → Reach s.registry (call_complete cfg ami s id req now).0.registry
  unfolding call_complete
  call_complete-Reach cfg ami s id req now =
      option-Served s.registry (get id s.registry.calls) _ _ here (λ c.
        if-Served s.registry (is_terminal c) (s, gone) _ here
          (if-Served s.registry (state_eq c.state CallState.bridged)
            (complete_bridged ami s id c req now) (complete_leg cfg ami s id c c.direction req now)
            (complete_bridged-Reach ami s id c req now)
            (complete_leg-Reach cfg ami s id c c.direction req now)))

  expire_ringing-Reach :
      (s : CallApi P) (c : CallMachine) (now : ℕ)
      → Reach s.registry (expire_ringing s c now).registry
  unfolding expire_ringing fallback_to_voicemail
  expire_ringing-Reach s c now =
      cleans-Reach s.registry _ c.call_id (moves-Reach s.registry c.call_id _ now)

  expire_waiting-Reach :
      (cfg : Config) (s : CallApi P) (c : CallMachine) (now : ℕ)
      → Reach s.registry (expire_waiting cfg s c now).registry
  unfolding expire_waiting telegram_timeout
  expire_waiting-Reach cfg s c now = cleans-Reach s.registry _ c.call_id (
      notifies-Reach s.registry cfg (current (telegram_timeout s.registry c.call_id now).0 c)
        (codes "no_answer") _ (moves-Reach s.registry c.call_id _ now))

  expire_bridged-Reach :
      (ami : Ami) (s : CallApi P) (c : CallMachine) (now : ℕ)
      → Reach s.registry (expire_bridged ami s c now).registry
  unfolding expire_bridged
  expire_bridged-Reach ami s c now = cleans-Reach s.registry _ c.call_id (
      hung_up-Reach ami now (codes "max_duration") c.call_id (get_active_channel_ids c)
        (some (codes "max_duration_exceeded")) s)

  expire-Reach :
      (cfg : Config) (ami : Ami) (s : CallApi P) (c : CallMachine) (now : ℕ)
      → Reach s.registry (expire cfg ami s c now).0.registry
  unfolding expire
  expire-Reach cfg ami s c now = if-Acted s.registry _ _ _ (expire_ringing-Reach s c now) (
      if-Acted s.registry _ _ _ (expire_waiting-Reach cfg s c now)
        (if-Acted s.registry _ _ _ (expire_bridged-Reach ami s c now) here))

  expire_all-Reach :
      (cfg : Config) (ami : Ami) (now : ℕ) (cs : List CallMachine) (s : CallApi P)
      → Reach s.registry (expire_all cfg ami now cs s).0.registry
  unfolding expire_all
  expire_all-Reach cfg ami now [] s = here
  expire_all-Reach cfg ami now (c ∷ cs) s =
      Reach-trans (expire-Reach cfg ami s c now)
        (expire_all-Reach cfg ami now cs (expire cfg ami s c now).0)

  pub call_check_timeouts-Reach :
      (cfg : Config) (ami : Ami) (s : CallApi P) (now : ℕ)
      → Reach s.registry (call_check_timeouts cfg ami s now).0.registry
  unfolding call_check_timeouts
  call_check_timeouts-Reach cfg ami s now =
      expire_all-Reach cfg ami now (get_timed_out_calls s.registry cfg.limits now) s
