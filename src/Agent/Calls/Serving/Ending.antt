-- ===== src/Agent/Calls/Serving/Ending.antt =====
-- agent/routes.py over core/call_control.py: the routes on calls that are there act on the registry by
-- its operations only.
use sim_bridge.Prelude.{
  ℕ, Text, text_Comparable, List, [], ◌∷◌, Option, none, some, ◌≡◌, refl, codes, Option-cases, inl,
  inr, ◌∙◌,
}
use sim_bridge.Dict.{get}
use sim_bridge.Modem.Pool.{Provider}
use sim_bridge.CallControl.Machine.{CallMachine, get_active_channel_ids}
use sim_bridge.CallControl.Registry.{CallRegistry, cleanup}
use sim_bridge.CallControl.Operations.{accept_incoming, bridge_call, hangup, start_telegram_ring}
use sim_bridge.CallControl.Trace.{Event, step, Sound}
use sim_bridge.CallControl.Trace
use sim_bridge.Agent.Calls.{CallApi, Ami, hang_up_one, hang_up_channels}
use sim_bridge.Agent.Calls.Single.{
  call_accept, call_answer_gsm, call_bridge, call_set_bridge_leg, call_reject, call_hangup,
  call_telegram_ring, call_set_gsm_channel, gsm_answered,
}
use sim_bridge.Agent.Calls.Serving.Steps.{Reach, here, next, if-Served, option-Served, one_step}
use sim_bridge.Agent.Calls.Serving.Making.{moves-Reach}

module _ {P : Type 0} ⦃i : Provider P⦄ where
  pub hang_up_channels-registry :
      (ami : Ami) (now : ℕ) (reason id : Text) (channels : List Text) (s : CallApi P)
      → (hang_up_channels ami now reason id channels s).registry ≡ s.registry
  unfolding hang_up_channels
  hang_up_channels-registry ami now reason id [] s = refl
  hang_up_channels-registry ami now reason id (channel ∷ channels) s =
      hang_up_channels-registry ami now reason id channels _
      ∙ (elim (Option-cases (ami s.hangups channel)) [
        | inl e ↦ rw (e, hang_up_one) refl
        | inr (x, e) ↦ rw (e, hang_up_one) refl
      ])

  pub cleans-Reach : (r s : CallRegistry P) (id : Text) → Reach r s → Reach r (cleanup s id)
  unfolding step
  cleans-Reach r s id h = next h (Trace.cleans id) tt

  pub hangs_up-Reach :
      (r : CallRegistry P) (id : Text) (reason : Option Text) (now : ℕ)
      → Reach r (hangup r id reason now).0
  unfolding step
  hangs_up-Reach r id reason now = one_step r (Trace.hangs_up id reason now) tt

  -- The channels first, then the call.
  pub hung_up-Reach :
      (ami : Ami) (now : ℕ) (why id : Text) (channels : List Text) (reason : Option Text)
      (s : CallApi P)
      → Reach s.registry
          (hangup (hang_up_channels ami now why id channels s).registry id reason now).0
  hung_up-Reach ami now why id channels reason s =
      rw (hang_up_channels-registry ami now why id channels s)
        (hangs_up-Reach s.registry id reason now)

  pub call_accept-Reach :
      (s : CallApi P) (id : Text) (now : ℕ) → Reach s.registry (call_accept s id now).0.registry
  unfolding call_accept accept_incoming
  call_accept-Reach s id now =
      let moved = moves-Reach s.registry id _ now in
      option-Served s.registry (get id s.registry.calls) _ _ here
        (λ c. if-Served s.registry _ _ _ moved moved)

  gsm_answered-Reach :
      (s : CallApi P) (id : Text) (now : ℕ) (c : CallMachine)
      → Reach s.registry (gsm_answered s id now c).0.registry
  unfolding step
  gsm_answered-Reach s id now c =
      let answered = one_step s.registry (Trace.answers id c.gsm_channel_id now) tt in
      if-Served s.registry _ _ _ answered answered

  pub call_answer_gsm-Reach :
      (s : CallApi P) (id : Text) (now : ℕ) → Reach s.registry (call_answer_gsm s id now).0.registry
  unfolding call_answer_gsm
  call_answer_gsm-Reach s id now = option-Served s.registry (get id s.registry.calls) _ _ here (λ c.
      option-Served s.registry c.gsm_channel_id _ _ (gsm_answered-Reach s id now c)
        (λ channel. if-Served s.registry _ _ _ here (gsm_answered-Reach s id now c)))

  pub call_bridge-Reach :
      (s : CallApi P) (id : Text) (now : ℕ) → Reach s.registry (call_bridge s id now).0.registry
  unfolding call_bridge bridge_call
  call_bridge-Reach s id now =
      let moved = moves-Reach s.registry id _ now in
      option-Served s.registry (get id s.registry.calls) _ _ here
        (λ c. if-Served s.registry _ _ _ moved moved)

  pub call_set_bridge_leg-Reach :
      (s : CallApi P) (id channel : Text)
      → Reach s.registry (call_set_bridge_leg s id channel).0.registry
  unfolding call_set_bridge_leg step
  call_set_bridge_leg-Reach s id channel = one_step s.registry (Trace.sets_bridge_leg id channel) tt

  pub call_set_gsm_channel-Reach :
      (s : CallApi P) (id channel : Text)
      → Reach s.registry (call_set_gsm_channel s id channel).0.registry
  unfolding call_set_gsm_channel step
  call_set_gsm_channel-Reach s id channel =
      option-Served s.registry (get id s.registry.calls) _ _ here
        (λ c. one_step s.registry (Trace.sets_gsm_channel id channel) tt)

  pub call_telegram_ring-Reach :
      (s : CallApi P) (id : Text) (now : ℕ)
      → Reach s.registry (call_telegram_ring s id now).0.registry
  unfolding call_telegram_ring start_telegram_ring
  call_telegram_ring-Reach s id now =
      let moved = moves-Reach s.registry id _ now in
      option-Served s.registry (get id s.registry.calls) _ _ here
        (λ c. if-Served s.registry _ _ _ moved moved)

  pub call_reject-Reach :
      (s : CallApi P) (id : Text) (now : ℕ) → Reach s.registry (call_reject s id now).0.registry
  unfolding call_reject step
  call_reject-Reach s id now =
      let rejected = one_step s.registry (Trace.rejects id (some (codes "user_rejected")) now) tt in
      option-Served s.registry (get id s.registry.calls) _ _ here
        (λ c. if-Served s.registry _ _ _ (cleans-Reach s.registry _ id rejected) rejected)

  pub call_hangup-Reach :
      (ami : Ami) (s : CallApi P) (id : Text) (now : ℕ)
      → Reach s.registry (call_hangup ami s id now).0.registry
  unfolding call_hangup
  call_hangup-Reach ami s id now = option-Served s.registry (get id s.registry.calls) _ _ here (λ c.
      let closed = hung_up-Reach ami now (codes "BYE") id (get_active_channel_ids c) none s in
      if-Served s.registry _ _ _ (cleans-Reach s.registry _ id closed) closed)
