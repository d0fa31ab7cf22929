-- ===== src/Agent/Calls/Serving/Making.antt =====
-- agent/routes.py over core/call_control.py: the routes that make and accept calls act on the registry by
-- its operations only.
use sim_bridge.Prelude.{
  ℕ, Text, text_Comparable, Bool, true, false, List, [], ◌∷◌, none, some, ◌≡◌, ◌≢◌, refl, is_set,
  codes, if◌then◌else◌, Bool-cases, Option-cases, inl, inr, subst,
}
use sim_bridge.Dict.{get}
use sim_bridge.Modem.Pool.{Provider}
use sim_bridge.Phone.{Destination, parse_destination}
use sim_bridge.Blacklist.{has_number}
use sim_bridge.RateLimit.{allow}
use sim_bridge.CallControl.State.{CallState, state_eq}
use sim_bridge.CallControl.Machine.{CallMachine}
use sim_bridge.CallControl.Registry.{
  CallRegistry, Result, ok, err, modem_busy, busy, offline, create_outgoing, create_incoming,
  invalid_transition, strategy_not_implemented,
}
use sim_bridge.CallControl.Operations.{
  transition, start_telegram_calling, start_telegram_ring, user_accepted, dial_gsm,
}
use sim_bridge.CallControl.Trace.{Event, step, Sound}
use sim_bridge.CallControl.Trace
use sim_bridge.Agent.Calls.{Config, CallApi, log, with_registry}
use sim_bridge.Audit.{EventType, string}
use sim_bridge.Agent.Calls.Placing.{
  OutgoingCallRequest, CallRequest, order_of, call_incoming, call_outgoing, ring_user, place_call,
  call_number, acl_denies, authorize_call, is_nonzero, prepared, accept_pending, pending_calls,
  call_outgoing_accepted, call_limiter_key, ring_telegram, report_dialed,
}
use sim_bridge.Agent.Calls.Serving.Steps.{Reach, here, Reach-trans, if-Reach, if-Served, one_step}

module _ {P : Type 0} ⦃i : Provider P⦄ where
  pub moves-Reach :
      (r : CallRegistry P) (id : Text) (s : CallState) (now : ℕ) → Reach r (transition r id s now).0
  unfolding step
  moves-Reach r id s now = one_step r (Trace.moves id s now) tt

  ring_user-Reach :
      (s : CallApi P) (req : OutgoingCallRequest) (dest : Destination) (id : Text) (now : ℕ)
      (made : Result CallMachine × CallRegistry P)
      → Reach made.1 (ring_user s req dest id now made).0.registry
  unfolding ring_user start_telegram_calling
  ring_user-Reach s req dest id now (ok c, r) = moves-Reach r id _ now
  ring_user-Reach s req dest id now (err (modem_busy offline), r) = here
  ring_user-Reach s req dest id now (err (modem_busy busy), r) = here
  ring_user-Reach s req dest id now (err invalid_transition, r) = here
  ring_user-Reach s req dest id now (err strategy_not_implemented, r) = here

  place_call-Reach :
      (s : CallApi P) (req : OutgoingCallRequest) (dest : Destination) (id : Text) (now : ℕ)
      → get id s.registry.calls ≡ none
      → Reach s.registry (place_call s req dest id now).0.registry
  unfolding place_call step
  place_call-Reach s req dest id now fresh =
      let (blacklist, is_listed) = has_number dest.number s.blacklist in
      let o = order_of req dest id in
      let named : codes "gsm" ≢ [] = λ e. cc e in
      if-Served s.registry is_listed _ _ here (
        Reach-trans (one_step s.registry (Trace.dials o now) (fresh, named)) (
          ring_user-Reach (record s { blacklist = blacklist }) req dest id now
            (create_outgoing s.registry o now)))

  call_number-Reach :
      (s : CallApi P) (req : OutgoingCallRequest) (id : Text) (now : ℕ)
      → get id s.registry.calls ≡ none
      → Reach s.registry (call_number s req id now).0.registry
  unfolding call_number
  call_number-Reach s req id now fresh =
      elim (Option-cases (parse_destination (some req.phone_number))) [
        | inl e ↦ rw (e, call_number) here
        | inr (dest, e) ↦ rw (e, call_number) (place_call-Reach s req dest id now fresh)
      ]

  acl_denies-registry :
      (req : OutgoingCallRequest) (s : CallApi P) → (acl_denies req s).0.registry ≡ s.registry
  unfolding acl_denies
  acl_denies-registry req s = elim (Bool-cases (is_nonzero req.telegram_user_id)) [
    | inl e ↦ rw (e, acl_denies) refl
    | inr e ↦ rw (e, acl_denies) refl
  ]

  authorize_call-Reach :
      (s : CallApi P) (req : OutgoingCallRequest) (id : Text) (now : ℕ)
      → get id s.registry.calls ≡ none
      → Reach s.registry (authorize_call s req id now).0.registry
  unfolding authorize_call
  authorize_call-Reach s req id now fresh =
      let (asked, denies) = acl_denies req s in
      let same = acl_denies-registry req s in
      let allowed : CallApi P =
        log now EventType.call_acl_check req.telegram_user_id none (codes "allowed")
          ((codes "to", string req.phone_number) ∷ []) asked in
      let fresh_asked : get id allowed.registry.calls ≡ none = rw same fresh in
      subst (λ r. Reach r (authorize_call s req id now).0.registry) same
        (if-Served asked.registry denies _ _ here
          (call_number-Reach allowed req id now fresh_asked))

  pub call_outgoing-Reach :
      (cfg : Config) (s : CallApi P) (req : OutgoingCallRequest) (id : Text) (ticks now : ℕ)
      → get id s.registry.calls ≡ none
      → Reach s.registry (call_outgoing cfg s req id ticks now).0.registry
  unfolding call_outgoing
  call_outgoing-Reach cfg s req id ticks now fresh =
      let (limiter, allowed) = allow s.call_limiter (call_limiter_key req) ticks in
      if-Served s.registry allowed _ _
        (authorize_call-Reach (record s { call_limiter = limiter }) req id now fresh) here

  ring_telegram-Reach :
      (s : CallApi P) (req : CallRequest) (id : Text) (now : ℕ)
      (made : Result CallMachine × CallRegistry P)
      → Reach made.1 (ring_telegram s req id now made).0.registry
  unfolding start_telegram_ring
  ring_telegram-Reach s req id now (ok c, r) = moves-Reach r id _ now
  ring_telegram-Reach s req id now (err e, r) = here

  pub call_incoming-Reach :
      (cfg : Config) (s : CallApi P) (req : CallRequest) (id : Text) (now : ℕ)
      → get id s.registry.calls ≡ none
      → Reach s.registry (call_incoming cfg s req id now).0.registry
  unfolding call_incoming step
  call_incoming-Reach cfg s req id now fresh =
      Reach-trans
        (one_step s.registry
          (Trace.arrives id req.phone_number req.contact_name cfg.dongle req.gsm_channel_id now)
          fresh)
        (ring_telegram-Reach s req id now (
          create_incoming s.registry id req.phone_number req.contact_name cfg.dongle
            req.gsm_channel_id now))

  report_dialed-registry :
      (s : CallApi P) (c : CallMachine) (channel : Text) (now : ℕ) (done : Bool)
      (r : CallRegistry P)
      → Reach r s.registry
      → Reach r (report_dialed s c channel now done).0.registry
  report_dialed-registry s c channel now true r h = h
  report_dialed-registry s c channel now false r h = h

  prepared-Reach :
      (r : CallRegistry P) (c : CallMachine) (channel : Text) (now : ℕ)
      → Reach r (prepared r c channel now)
  unfolding prepared start_telegram_calling step
  prepared-Reach r c channel now =
      let calling : CallRegistry P =
        if state_eq c.state CallState.modem_reserved
        then (start_telegram_calling r c.call_id now).0
        else r in
      let called =
        if-Reach (λ t. t) r (state_eq c.state CallState.modem_reserved) _ r
          (moves-Reach r c.call_id CallState.telegram_calling now) here in
      if-Reach (λ t. t) r (is_set (some channel)) _ calling
        (Reach-trans called (one_step calling (Trace.sets_bridge_leg c.call_id channel) tt)) called

  accept_pending-Reach :
      (s : CallApi P) (c : CallMachine) (channel : Text) (now : ℕ)
      → Reach s.registry (accept_pending s c channel now).0.registry
  unfolding accept_pending user_accepted step
  accept_pending-Reach s c channel now =
      let r = prepared s.registry c channel now in
      let (accepted, is_accepted) = user_accepted r c.call_id now in
      let (dialed, is_dialed) = dial_gsm accepted c.call_id none now in
      let to_accepted =
        Reach-trans (prepared-Reach s.registry c channel now) (moves-Reach r c.call_id _ now) in
      if-Served s.registry is_accepted _ _
        (report_dialed-registry (with_registry s dialed) c channel now is_dialed s.registry
          (Reach-trans to_accepted (one_step accepted (Trace.dials_gsm c.call_id none now) tt)))
        to_accepted

  pub call_outgoing_accepted-Reach :
      (s : CallApi P) (channel : Text) (now : ℕ)
      → Reach s.registry (call_outgoing_accepted s channel now).0.registry
  unfolding call_outgoing_accepted
  call_outgoing_accepted-Reach s channel now = go (pending_calls s.registry) refl
    where
      go :
          (cs : List CallMachine)
          → pending_calls s.registry ≡ cs
          → Reach s.registry (call_outgoing_accepted s channel now).0.registry
      go [] e = rw (e, call_outgoing_accepted) here
      go (c ∷ []) e = rw (e, call_outgoing_accepted) (accept_pending-Reach s c channel now)
      go (c ∷ d ∷ cs) e = rw (e, call_outgoing_accepted) here
