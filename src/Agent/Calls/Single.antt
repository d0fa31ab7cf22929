-- ===== src/Agent/Calls/Single.antt =====
-- agent/routes.py: the routes that move or show one call.
use sim_bridge.Prelude.{
  ℕ, Text, codes, text_Comparable, is_set, Bool, [], ◌∷◌, ◌++◌, none, some, length, if◌then◌else◌,
}
use sim_bridge.Dict.{get}
use sim_bridge.Audit.{EventType, string, number, nullable, append}
use sim_bridge.Modem.Pool.{Provider}
use sim_bridge.CallControl.Machine.{CallMachine, get_active_channel_ids}
use sim_bridge.CallControl.Registry.{CallRegistry, cleanup}
use sim_bridge.CallControl.Operations.{
  accept_incoming, answer_gsm, bridge_call, set_bridge_leg, reject, hangup, start_telegram_ring,
  update_call, set_gsm_channel,
}
use sim_bridge.Agent.Http.{Reply, returned, http_error}
use sim_bridge.Agent.Calls.{
  CallApi, Ami, CallStateResponse, state_response, direction_text, wrong_state, log, with_registry,
  current, hang_up_channels,
}

abbrev pub not_found : {A : Type 0} → Reply A
not_found = http_error 404 (codes "Call not found")

-- The text of the NotImplementedError that `answer_channel` of agent/ami_client.py always raises.
abbrev pub answer_channel_error : Text → Text
answer_channel_error channel_id =
    codes "AMI cannot answer a channel (no AMI action, no CLI verb); the dialplan Dial() answers "
    ++ channel_id
    ++ codes " when the bridge endpoint connects — ARI is required for AMI-side answer"

module _ {P : Type 0} where
  -- `call = registry.get(call_id)`, `if not call: raise …`
  abbrev pub with_call :
      {A : Type 0}
      → CallApi P
      → (call_id : Text) → (CallMachine → CallApi P × Reply A)
      → CallApi P × Reply A
  with_call s call_id f = elim (get call_id s.registry.calls) [
    | none ↦ (s, not_found)
    | some c ↦ f c
  ]

  -- `if not ok: raise HTTPException(409, …)`, and what follows. The registry is what the operation left.
  abbrev pub finish :
      {A : Type 0}
      → (refusal : Text) → CallApi P
      → CallMachine
      → CallRegistry P × Bool
      → (CallApi P → CallApi P × Reply A)
      → CallApi P × Reply A
  finish refusal s c (r, ok) f =
      if ok then f (with_registry s r) else (with_registry s r, wrong_state refusal (current r c))

  -- The answer, with the object of the call as the registry `r` has it.
  abbrev pub state_of : (call_id : Text) → CallMachine → CallRegistry P → Reply CallStateResponse
  state_of call_id c r = returned (state_response call_id (current r c))

  unfoldable pub call_accept :
      CallApi P → (call_id : Text) → ℕ → CallApi P × Reply CallStateResponse
  unfolding accept_incoming append
  call_accept s call_id now = with_call s call_id (λ c.
      finish (codes "Cannot accept") s c (accept_incoming s.registry call_id now) (λ t. (
        log now EventType.call_accepted none (some call_id) (codes "ok")
            ((codes "from", string c.caller_number)
              ∷ (codes "direction", string (direction_text c.direction))
              ∷ [])
            t,
        state_of call_id c t.registry,
      )))

  abbrev pub gsm_answered :
      CallApi P → (call_id : Text) → ℕ → CallMachine → CallApi P × Reply CallStateResponse
  gsm_answered s call_id now c =
      finish (codes "Cannot answer GSM") s c (answer_gsm s.registry call_id c.gsm_channel_id now)
        (λ t. (
          log now EventType.call_gsm_answered none (some call_id) (codes "ok") [] t,
          state_of call_id c t.registry,
        ))

  abbrev pub answer_failed :
      CallApi P → (call_id : Text) → ℕ → (error : Text) → CallApi P × Reply CallStateResponse
  answer_failed s call_id now error = (
    log now EventType.call_gsm_answered none (some call_id) (codes "error")
        ((codes "error", string error) ∷ []) s,
    http_error 500 (codes "Failed to answer GSM channel: " ++ error),
  )

  unfoldable pub call_answer_gsm :
      CallApi P → (call_id : Text) → ℕ → CallApi P × Reply CallStateResponse
  unfolding answer_gsm append
  call_answer_gsm s call_id now = with_call s call_id (λ c. elim (c.gsm_channel_id) [
    | none ↦ gsm_answered s call_id now c
    | some channel ↦
        if is_set (some channel)
        then answer_failed s call_id now (answer_channel_error channel)
        else gsm_answered s call_id now c
  ])

  unfoldable pub call_bridge :
      CallApi P → (call_id : Text) → ℕ → CallApi P × Reply CallStateResponse
  unfolding bridge_call append
  call_bridge s call_id now = with_call s call_id (λ c.
      finish (codes "Cannot bridge") s c (bridge_call s.registry call_id now) (λ t. (
        log now EventType.call_bridged none (some call_id) (codes "ok")
            ((codes "gsm_channel", nullable (current t.registry c).gsm_channel_id)
              ∷ (codes "bridge_channel", nullable (current t.registry c).bridge_channel_id)
              ∷ [])
            t,
        state_of call_id c t.registry,
      )))

  unfoldable pub call_set_bridge_leg :
      CallApi P → (call_id channel_id : Text) → CallApi P × Reply (Text × Text)
  unfolding set_bridge_leg
  call_set_bridge_leg s call_id channel_id =
      let (r, ok) = set_bridge_leg s.registry call_id channel_id in
      (with_registry s r, if ok then returned (call_id, channel_id) else not_found)

  unfoldable pub call_telegram_ring : CallApi P → (call_id : Text) → ℕ → CallApi P × Reply Text
  unfolding start_telegram_ring append
  call_telegram_ring s call_id now = with_call s call_id (λ c.
      finish (codes "Cannot start telegram ring") s c (start_telegram_ring s.registry call_id now)
        (λ t. (
          log now EventType.call_telegram_ring none (some call_id) (codes "ok")
              ((codes "from", string c.caller_number) ∷ []) t,
          returned call_id,
        )))

  unfoldable pub call_set_gsm_channel :
      CallApi P → (call_id channel_id : Text) → CallApi P × Reply (Text × Text)
  unfolding update_call
  call_set_gsm_channel s call_id channel_id = with_call s call_id (λ c. (
    with_registry s (update_call call_id (set_gsm_channel (some channel_id)) s.registry),
    returned (call_id, channel_id),
  ))

  unfoldable pub call_state : CallApi P → (call_id : Text) → CallApi P × Reply CallStateResponse
  call_state s call_id =
      with_call s call_id
        (λ c. (s, returned (record (state_response c.call_id c) { error = c.error })))

module _ {P : Type 0} ⦃i : Provider P⦄ where
  unfoldable pub call_reject :
      CallApi P → (call_id : Text) → ℕ → CallApi P × Reply CallStateResponse
  unfolding reject cleanup append
  call_reject s call_id now = with_call s call_id (λ c.
      finish (codes "Cannot reject") s c
        (reject s.registry call_id (some (codes "user_rejected")) now)
        (λ t. (
          with_registry
              (log now EventType.call_rejected none (some call_id) (codes "user_rejected")
                ((codes "from", string c.caller_number) ∷ []) t)
              (cleanup t.registry call_id),
          state_of call_id c t.registry,
        )))

  -- The channels are hung up before the call is known to allow it.
  unfoldable pub call_hangup :
      Ami → CallApi P → (call_id : Text) → ℕ → CallApi P × Reply CallStateResponse
  unfolding get_active_channel_ids hang_up_channels hangup cleanup append
  call_hangup ami s call_id now = with_call s call_id (λ c.
      let channels = get_active_channel_ids c in
      let asked = hang_up_channels ami now (codes "BYE") call_id channels s in
      finish (codes "Cannot hangup") asked c (hangup asked.registry call_id none now) (λ t. (
        with_registry
            (log now EventType.call_hangup none (some call_id) (codes "ok")
              ((codes "channels_terminated", number (length channels)) ∷ []) t)
            (cleanup t.registry call_id),
        state_of call_id c t.registry,
      )))
