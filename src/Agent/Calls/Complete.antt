-- ===== src/Agent/Calls/Complete.antt =====
-- agent/routes.py, `call_complete`: the dialplan reports how a leg of a call has ended.
use sim_bridge.Prelude.{
  ℕ, Text, codes, text_Comparable, text_eq, is_set, Bool, false, ◌||◌, [], ◌∷◌, ◌++◌, Option, none,
  some, if◌then◌else◌,
}
use sim_bridge.Dict.{get}
use sim_bridge.Audit.{EventType, string, nullable, append}
use sim_bridge.Metrics.{Direction, incoming, outgoing}
use sim_bridge.Modem.Pool.{Provider}
use sim_bridge.CallControl.State.{CallState, state_eq}
use sim_bridge.CallControl.Machine.{CallMachine, is_terminal, get_active_channel_ids}
use sim_bridge.CallControl.Registry.{CallRegistry, cleanup}
use sim_bridge.CallControl.Operations.{
  bridge_call, reject, hangup, fallback_to_voicemail, gsm_ringing, gsm_connected, gsm_busy,
  gsm_no_answer, gsm_error,
}
use sim_bridge.CallControl.Monitor.{fast_forward_bridged}
use sim_bridge.Agent.Http.{Reply, returned, http_error}
use sim_bridge.Agent.Calls.{
  Config, CallApi, Ami, direction_text, wrong_state, log, with_registry, current, hang_up_channels,
  notify_userbot_call,
}

pub record CallCompleteRequest : Type 0 where
  pub status : Text
  pub dialstatus : Option Text

-- The answer names the call, and for one that was bridged the state "cleanup".
pub record Completed : Type 0 where
  pub call_id : Text
  pub state : Option Text

-- `req.status == "…"`
abbrev pub has_status : CallCompleteRequest → Text → Bool
has_status req status = text_eq req.status status

-- `req.dialstatus or default`
abbrev pub dialstatus_or : CallCompleteRequest → Text → Text
dialstatus_or req default = elim (req.dialstatus) [
  | none ↦ default
  | some t ↦ if is_set (some t) then t else default
]

abbrev pub gone : Reply Completed
gone = http_error 404 (codes "Call not found or already closed")

abbrev pub completed : Text → Reply Completed
completed call_id = returned (record { call_id = call_id; state = none })

-- `gsm_ringing(…) and gsm_connected(…) and bridge_call(…)`
unfoldable pub connect_and_bridge : {P : Type 0} → CallRegistry P → Text → ℕ → CallRegistry P × Bool
unfolding gsm_ringing gsm_connected bridge_call
connect_and_bridge r call_id now =
    let (rings, is_ringing) = gsm_ringing r call_id now in
    let (connects, is_connected) = gsm_connected rings call_id now in
    if is_ringing
    then (if is_connected then bridge_call connects call_id now else (connects, false))
    else (rings, false)

-- The operation for a GSM dial that failed, by its status.
unfoldable pub record_failure :
    {P : Type 0} → CallRegistry P → Text → CallCompleteRequest → ℕ → CallRegistry P × Bool
unfolding gsm_no_answer gsm_busy gsm_error
record_failure r call_id req now =
    if has_status req (codes "no_answer")
    then gsm_no_answer r call_id now
    else if has_status req (codes "busy")
    then gsm_busy r call_id now
    else gsm_error r call_id (some (dialstatus_or req (codes "network_error"))) now

module _ {P : Type 0} where
  -- `if not ok: raise HTTPException(409, …)`, and what follows
  abbrev pub finish :
      (refusal : Text)
      → CallApi P
      → (call_id : Text) → CallMachine
      → CallRegistry P × Bool
      → (CallApi P → CallApi P)
      → CallApi P × Reply Completed
  finish refusal s call_id c (r, ok) f =
      if ok
      then (f (with_registry s r), completed call_id)
      else (with_registry s r, wrong_state refusal (current r c))

  -- An incoming call that was answered is not cleaned up: its channel is alive.
  unfoldable pub incoming_answered :
      CallApi P → (call_id : Text) → CallMachine → ℕ → CallApi P × Reply Completed
  unfolding fast_forward_bridged append
  incoming_answered s call_id c now =
      finish (codes "Cannot bridge") s call_id c (fast_forward_bridged s.registry call_id now) (λ t.
        log now EventType.call_bridged none (some call_id) (codes "ok")
          ((codes "gsm_channel", nullable (current t.registry c).gsm_channel_id)
            ∷ (codes "bridge_channel", nullable (current t.registry c).bridge_channel_id)
            ∷ [])
          t)

  unfoldable pub outgoing_answered :
      Config → CallApi P → (call_id : Text) → CallMachine → ℕ → CallApi P × Reply Completed
  unfolding connect_and_bridge append notify_userbot_call
  outgoing_answered cfg s call_id c now =
      finish (codes "Cannot bridge") s call_id c (connect_and_bridge s.registry call_id now) (λ t.
        notify_userbot_call cfg (current t.registry c) (codes "answered") (
          log now EventType.call_bridged c.telegram_user_id (some call_id) (codes "ok")
            ((codes "to", string c.callee_number) ∷ []) t))

module _ {P : Type 0} ⦃i : Provider P⦄ where
  abbrev pub clean : (call_id : Text) → CallApi P → CallApi P
  clean call_id t = with_registry t (cleanup t.registry call_id)

  unfoldable pub incoming_unanswered :
      CallApi P → (call_id : Text) → CallMachine → ℕ → CallApi P × Reply Completed
  unfolding fallback_to_voicemail cleanup append
  incoming_unanswered s call_id c now =
      finish (codes "Cannot fall back to voicemail") s call_id c
        (fallback_to_voicemail s.registry call_id now)
        (λ t. clean call_id (
          log now EventType.call_telegram_timeout none (some call_id) (codes "voicemail_fallback")
            ((codes "from", string c.caller_number) ∷ []) t))

  unfoldable pub incoming_rejected :
      CallApi P → (call_id : Text) → CallMachine → ℕ → CallApi P × Reply Completed
  unfolding reject cleanup append
  incoming_rejected s call_id c now =
      finish (codes "Cannot reject") s call_id c
        (reject s.registry call_id (some (codes "telegram_rejected")) now)
        (λ t. clean call_id (
          log now EventType.call_rejected none (some call_id) (codes "telegram_rejected")
            ((codes "from", string c.caller_number) ∷ []) t))

  -- The reason is the caller's hangup, or names the Dial status of the bridge leg.
  unfoldable pub incoming_ended :
      CallApi P
      → (call_id : Text) → CallMachine
      → CallCompleteRequest
      → ℕ
      → CallApi P × Reply Completed
  unfolding hangup cleanup append
  incoming_ended s call_id c req now =
      let reason =
        if has_status req (codes "cancelled")
        then codes "caller_hangup"
        else codes "bridge_" ++ dialstatus_or req (codes "failed") in
      finish (codes "Cannot hangup") s call_id c (hangup s.registry call_id (some reason) now) (λ t.
        clean call_id (
          log now EventType.call_hangup none (some call_id) req.status
            ((codes "from", string c.caller_number)
              ∷ (codes "dialstatus", nullable req.dialstatus)
              ∷ [])
            t))

  unfoldable pub outgoing_failed :
      Config
      → CallApi P
      → (call_id : Text) → CallMachine
      → CallCompleteRequest
      → ℕ
      → CallApi P × Reply Completed
  unfolding record_failure cleanup append notify_userbot_call
  outgoing_failed cfg s call_id c req now =
      finish (codes "Cannot record " ++ req.status) s call_id c
        (record_failure s.registry call_id req now)
        (λ t. clean call_id (
          notify_userbot_call cfg (current t.registry c) req.status (
            log now EventType.call_hangup c.telegram_user_id (some call_id) req.status
              ((codes "to", string c.callee_number)
                ∷ (codes "dialstatus", nullable req.dialstatus)
                ∷ [])
              t)))

  -- The user ended the call: cancelled, ended, or any other status.
  unfoldable pub outgoing_ended :
      Ami
      → CallApi P
      → (call_id : Text) → CallMachine
      → CallCompleteRequest
      → ℕ
      → CallApi P × Reply Completed
  unfolding hang_up_channels get_active_channel_ids hangup cleanup append
  outgoing_ended ami s call_id c req now =
      let asked = hang_up_channels ami now (codes "BYE") call_id (get_active_channel_ids c) s in
      finish (codes "Cannot hangup") asked call_id c
        (hangup asked.registry call_id (some (codes "telegram_hangup")) now)
        (λ t. clean call_id (
          log now EventType.call_hangup c.telegram_user_id (some call_id) req.status
            ((codes "to", string c.callee_number) ∷ []) t))

  -- The branch on BRIDGED. Whether `hangup` succeeds is not asked.
  unfoldable pub complete_bridged :
      Ami
      → CallApi P
      → (call_id : Text) → CallMachine
      → CallCompleteRequest
      → ℕ
      → CallApi P × Reply Completed
  unfolding hang_up_channels get_active_channel_ids hangup cleanup append
  complete_bridged ami s call_id c req now =
      let asked = hang_up_channels ami now (codes "BYE") call_id (get_active_channel_ids c) s in
      let reason = if has_status req (codes "ended") then codes "completed" else req.status in
      let closed : CallRegistry P = (hangup asked.registry call_id (some reason) now).0 in
      if has_status req (codes "answered")
      then (s, http_error 409 (codes "Call already bridged"))
      else (
        clean call_id (
            log now EventType.call_hangup c.telegram_user_id (some call_id) req.status
              ((codes "direction", string (direction_text c.direction))
                ∷ (codes "dialstatus", nullable req.dialstatus)
                ∷ [])
              (with_registry asked closed)),
        returned (record { call_id = call_id; state = some (codes "cleanup") }),
      )

  unfoldable pub complete_leg :
      Config
      → Ami
      → CallApi P
      → (call_id : Text) → CallMachine
      → Direction
      → CallCompleteRequest
      → ℕ
      → CallApi P × Reply Completed
  unfolding incoming_answered incoming_unanswered incoming_rejected incoming_ended outgoing_answered
      outgoing_failed outgoing_ended
  complete_leg cfg ami s call_id c incoming req now =
      if has_status req (codes "answered")
      then incoming_answered s call_id c now
      else if has_status req (codes "no_answer")
      then incoming_unanswered s call_id c now
      else if has_status req (codes "busy")
      then incoming_rejected s call_id c now
      else incoming_ended s call_id c req now
  complete_leg cfg ami s call_id c outgoing req now =
      if has_status req (codes "answered")
      then outgoing_answered cfg s call_id c now
      else if has_status req (codes "no_answer")
          || has_status req (codes "busy")
          || has_status req (codes "failed")
      then outgoing_failed cfg s call_id c req now
      else outgoing_ended ami s call_id c req now

  unfoldable pub call_complete :
      Config
      → Ami
      → CallApi P
      → (call_id : Text) → CallCompleteRequest
      → ℕ
      → CallApi P × Reply Completed
  unfolding complete_bridged complete_leg
  call_complete cfg ami s call_id req now = elim (get call_id s.registry.calls) [
    | none ↦ (s, gone)
    | some c ↦
        if is_terminal c
        then (s, gone)
        else if state_eq c.state CallState.bridged
        then complete_bridged ami s call_id c req now
        else complete_leg cfg ami s call_id c c.direction req now
  ]
