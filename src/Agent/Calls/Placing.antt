-- ===== src/Agent/Calls/Placing.antt =====
-- agent/routes.py: the routes that make a call and the one that accepts an outgoing call.
use sim_bridge.Prelude.{
  ℕ, suc, Text, codes, text_Comparable, show_nat, is_set, Bool, true, false, not, ◌&&◌, ◌||◌, List,
  [], ◌∷◌, ◌++◌, Option, none, some, or_else, keep_if, length, if◌then◌else◌,
}
use sim_bridge.Dict.{values}
use sim_bridge.Audit.{EventType, string, nullable, append}
use sim_bridge.Acl.{check}
use sim_bridge.Acl.Lines.{pos}
use sim_bridge.Blacklist.{has_number}
use sim_bridge.RateLimit.{allow}
use sim_bridge.Phone.{Destination, parse_destination}
use sim_bridge.Modem.Pool.{Provider}
use sim_bridge.CallControl.State.{CallState, state_eq}
use sim_bridge.CallControl.Machine.{CallMachine}
use sim_bridge.CallControl.Registry.{
  CallRegistry, Outgoing, Result, ok, err, modem_busy, busy, offline, create_incoming,
  create_outgoing, is_outgoing,
}
use sim_bridge.CallControl.Operations.{
  start_telegram_ring, start_telegram_calling, set_bridge_leg, user_accepted, dial_gsm,
}
use sim_bridge.Agent.Errors.{message, blacklisted, number_malformed_call}
use sim_bridge.Agent.Http.{Reply, returned, http_error, raised}
use sim_bridge.Agent.Calls.{
  Config, CallApi, CallResponse, CallStateResponse, call_response, state_response, wrong_state, log,
  with_registry, current,
}

pub record CallRequest : Type 0 where
  pub phone_number : Text
  pub contact_name : Option Text
  pub gsm_channel_id : Option Text

-- The users of Telegram have positive identifiers.
pub record OutgoingCallRequest : Type 0 where
  pub phone_number : Text
  pub telegram_user_id : Option ℕ

-- `if value`, for an optional number
abbrev pub is_nonzero : Option ℕ → Bool
is_nonzero (some (suc n)) = true
is_nonzero _ = false

-- `c.direction == "outgoing" and c.state in (MODEM_RESERVED, TELEGRAM_CALLING)`
abbrev pub is_pending : CallMachine → Bool
is_pending c =
    is_outgoing c.direction
    && (state_eq c.state CallState.modem_reserved || state_eq c.state CallState.telegram_calling)

-- The arguments of `create_outgoing`, with its default for `modem_id`.
abbrev pub order_of : OutgoingCallRequest → Destination → (call_id : Text) → Outgoing
order_of req dest call_id = record {
  call_id = call_id;
  callee_number = dest.number;
  caller_number = codes "user:" ++ show_nat (or_else req.telegram_user_id 0);
  callee_name = none;
  modem_id = codes "gsm";
  telegram_user_id = req.telegram_user_id;
  modem_required = not dest.is_internal;
}

abbrev pub call_limiter_key : OutgoingCallRequest → Text
call_limiter_key req = codes "call:" ++ show_nat (or_else req.telegram_user_id 0)

module _ {P : Type 0} where
  -- The rest of `call_incoming`, after `create_incoming`.
  abbrev pub ring_telegram :
      CallApi P
      → CallRequest
      → (call_id : Text) → ℕ
      → Result CallMachine × CallRegistry P
      → CallApi P × Reply CallResponse
  ring_telegram s req call_id now (err e, r) = (with_registry s r, raised)
  ring_telegram s req call_id now (ok c, r) =
      let ringing : CallRegistry P = (start_telegram_ring r call_id now).0 in
      (
        log now EventType.call_incoming none (some call_id) (codes "ok")
            ((codes "from", string req.phone_number)
              ∷ (codes "gsm_channel", nullable req.gsm_channel_id)
              ∷ [])
            (with_registry s ringing),
        returned (call_response (current ringing c)),
      )

  -- `call_id` is the identifier that `create_incoming` draws.
  unfoldable pub call_incoming :
      Config → CallApi P → CallRequest → (call_id : Text) → ℕ → CallApi P × Reply CallResponse
  unfolding create_incoming start_telegram_ring append
  call_incoming cfg s req call_id now = ring_telegram s req call_id now (
      create_incoming s.registry call_id req.phone_number req.contact_name cfg.dongle
        req.gsm_channel_id now)

  -- The rest of `call_outgoing`, after `create_outgoing`.
  unfoldable pub ring_user :
      CallApi P
      → OutgoingCallRequest
      → Destination
      → (call_id : Text) → ℕ
      → Result CallMachine × CallRegistry P
      → CallApi P × Reply CallResponse
  unfolding start_telegram_calling append
  ring_user s req dest call_id now (err (modem_busy offline), r) =
      (with_registry s r, http_error 503 (codes "Modem offline — check the device"))
  ring_user s req dest call_id now (err (modem_busy busy), r) =
      (with_registry s r, http_error 503 (codes "Modem busy — another call in progress"))
  ring_user s req dest call_id now (err e, r) = (with_registry s r, raised)
  ring_user s req dest call_id now (ok c, r) =
      let calling : CallRegistry P = (start_telegram_calling r call_id now).0 in
      (
        log now EventType.call_outgoing req.telegram_user_id (some call_id) (codes "ok")
            ((codes "to", string dest.number) ∷ []) (with_registry s calling),
        returned (call_response (current calling c)),
      )

module _ {P : Type 0} ⦃i : Provider P⦄ where
  -- From the blacklist check on.
  unfoldable pub place_call :
      CallApi P
      → OutgoingCallRequest
      → Destination
      → (call_id : Text) → ℕ
      → CallApi P × Reply CallResponse
  unfolding has_number create_outgoing ring_user show_nat
  place_call s req dest call_id now =
      let (blacklist, is_listed) = has_number dest.number s.blacklist in
      let checked : CallApi P = record s { blacklist = blacklist } in
      if is_listed
      then (checked, http_error 403 (message blacklisted))
      else ring_user checked req dest call_id now
          (create_outgoing s.registry (order_of req dest call_id) now)

  -- From the parsing of the number on.
  unfoldable pub call_number :
      CallApi P → OutgoingCallRequest → (call_id : Text) → ℕ → CallApi P × Reply CallResponse
  unfolding place_call append
  call_number s req call_id now = elim (parse_destination (some req.phone_number)) [
    | none ↦ (
      log now EventType.call_requested req.telegram_user_id none (codes "malformed")
          ((codes "to", string req.phone_number) ∷ []) s,
      http_error 400 (message number_malformed_call),
    )
    | some dest ↦ place_call s req dest call_id now
  ]

  -- `req.telegram_user_id and not acl.check(…)`: without a user the ACL is not asked.
  unfoldable pub acl_denies : OutgoingCallRequest → CallApi P → CallApi P × Bool
  unfolding check
  acl_denies req s = elim (is_nonzero req.telegram_user_id) [
    | false ↦ (s, false)
    | true ↦
        let (acl, may) = check (pos (or_else req.telegram_user_id 0)) (codes "out_call") s.acl in
        (record s { acl = acl }, not may)
  ]

  -- From the ACL check on.
  unfoldable pub authorize_call :
      CallApi P → OutgoingCallRequest → (call_id : Text) → ℕ → CallApi P × Reply CallResponse
  unfolding acl_denies call_number append
  authorize_call s req call_id now =
      let (asked, denies) = acl_denies req s in
      if denies
      then (
        log now EventType.call_acl_check req.telegram_user_id none (codes "denied")
            ((codes "to", string req.phone_number) ∷ []) asked,
        http_error 403 (codes "Not authorized to place outgoing calls"),
      )
      else call_number
          (log now EventType.call_acl_check req.telegram_user_id none (codes "allowed")
            ((codes "to", string req.phone_number) ∷ []) asked)
          req call_id now

  -- `ticks` is the limiter's own clock, `call_id` the identifier that `create_outgoing` draws.
  unfoldable pub call_outgoing :
      Config
      → CallApi P
      → OutgoingCallRequest
      → (call_id : Text) → (ticks now : ℕ) → CallApi P × Reply CallResponse
  unfolding allow authorize_call show_nat
  call_outgoing cfg s req call_id ticks now =
      let (limiter, allowed) = allow s.call_limiter (call_limiter_key req) ticks in
      let counted : CallApi P = record s { call_limiter = limiter } in
      if allowed then authorize_call counted req call_id now else (
        counted,
        http_error 429 (
            codes "Rate limit exceeded: "
            ++ show_nat cfg.calls_per_minute
            ++ codes " calls per minute"),
      )

module _ {P : Type 0} where
  -- The end of `call_outgoing_accepted`, after `dial_gsm`.
  abbrev pub report_dialed :
      CallApi P → CallMachine → (channel : Text) → ℕ → Bool → CallApi P × Reply CallStateResponse
  report_dialed s c channel now false =
      (s, wrong_state (codes "Cannot dial GSM") (current s.registry c))
  report_dialed s c channel now true = (
    log now EventType.call_accepted c.telegram_user_id (some c.call_id) (codes "ok")
        ((codes "to", string c.callee_number)
          ∷ (codes "direction", string (codes "outgoing"))
          ∷ (codes "bridge_channel", string channel)
          ∷ [])
        s,
    returned (state_response c.call_id (current s.registry c)),
  )

  -- The registry before `user_accepted`.
  unfoldable pub prepared : CallRegistry P → CallMachine → (channel : Text) → ℕ → CallRegistry P
  unfolding start_telegram_calling set_bridge_leg
  prepared r c channel now =
      let calling : CallRegistry P =
        if state_eq c.state CallState.modem_reserved
        then (start_telegram_calling r c.call_id now).0
        else r in
      if is_set (some channel) then (set_bridge_leg calling c.call_id channel).0 else calling

  -- The one pending call has been found.
  unfoldable pub accept_pending :
      CallApi P → CallMachine → (channel : Text) → ℕ → CallApi P × Reply CallStateResponse
  unfolding prepared user_accepted dial_gsm append
  accept_pending s c channel now =
      let (accepted, is_accepted) =
        user_accepted (prepared s.registry c channel now) c.call_id now in
      let (dialed, is_dialed) = dial_gsm accepted c.call_id none now in
      if is_accepted
      then report_dialed (with_registry s dialed) c channel now is_dialed
      else (with_registry s accepted, wrong_state (codes "Cannot accept") (current accepted c))

  unfoldable pub pending_calls : CallRegistry P → List CallMachine
  pending_calls r = keep_if is_pending (values r.calls)

  -- `channel` is `req.bridge_channel_id`.
  unfoldable pub call_outgoing_accepted :
      CallApi P → (channel : Text) → ℕ → CallApi P × Reply CallStateResponse
  unfolding pending_calls accept_pending show_nat
  call_outgoing_accepted s channel now = elim (pending_calls s.registry) [
    | [] ↦ (s, http_error 404 (codes "No pending outgoing call"))
    | c ∷ [] ↦ accept_pending s c channel now
    | c ∷ d ∷ cs ↦ (
      s,
      http_error 409 (
          codes "Ambiguous: " ++ show_nat (length (c ∷ d ∷ cs)) ++ codes " pending outgoing calls"),
    )
  ]
