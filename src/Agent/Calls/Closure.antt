-- ===== src/Agent/Calls/Closure.antt =====
-- agent/routes.py, `call_complete`: a final report removes the call, or changes nothing in the registry.
use sim_bridge.Prelude.{
  ℕ, Text, text_Comparable, text_eq_iff, codes, Bool, true, false, List, [], ◌∷◌, ◌++◌, none, some,
  ◌≡◌, append-nil, append_assoc, refl, sym, ap, ◌∙◌, arith, ◌||◌, ◌⊎◌, if◌then◌else◌, Bool-cases,
  Option-cases, inl, inr, map,
}
use sim_bridge.Dict.{get}
use sim_bridge.Dict.Laws.{get-remove}
use sim_bridge.Metrics.{Direction, incoming, outgoing}
use sim_bridge.Modem.Pool.{Provider}
use sim_bridge.CallControl.State.{CallState, state_eq}
use sim_bridge.CallControl.Machine.{CallMachine, get_active_channel_ids, is_terminal}
use sim_bridge.CallControl.Registry.{CallRegistry, cleanup}
use sim_bridge.CallControl.Operations.{
  transition, fallback_to_voicemail, reject, hangup, gsm_busy, gsm_no_answer,
}
use sim_bridge.CallControl.Legs.Elsewhere.{
  transition_refused, hangup_refused, reject_refused, gsm_error_refused,
}
use sim_bridge.CallControl.Accounting.Keyed.{cleanup-calls}
use sim_bridge.Agent.Http.{Reply, returned, http_error}
use sim_bridge.Agent.Calls.{Config, CallApi, Ami, hang_up_one, hang_up_channels}
use sim_bridge.Agent.Calls.Complete.{
  CallCompleteRequest, Completed, has_status, dialstatus_or, record_failure, incoming_unanswered,
  incoming_rejected, incoming_ended, outgoing_failed, outgoing_ended, complete_bridged,
  complete_leg, call_complete, gone,
}
use sim_bridge.Agent.Calls.Serving.Ending.{hang_up_channels-registry}

abbrev pub Removed : {P : Type 0} → Text → CallApi P × Reply Completed → Type 0
Removed id (t, reply) = (a : Completed) × ((reply ≡ returned a) × (get id t.registry.calls ≡ none))

abbrev pub Refused : {P : Type 0} → CallRegistry P → CallApi P × Reply Completed → Type 0
Refused r (t, reply) =
    (code : ℕ) × (detail : Text) × ((reply ≡ http_error code detail) × (t.registry ≡ r))

-- What a report of an ended leg may do, with the registry that was there before.
abbrev pub IsClosed : {P : Type 0} → CallRegistry P → Text → CallApi P × Reply Completed → Type 0
IsClosed r id done = Removed id done ⊎ Refused r done

module _ {P : Type 0} ⦃i : Provider P⦄ where
  pub get-cleanup : (r : CallRegistry P) (id : Text) → get id (cleanup r id).calls ≡ none
  get-cleanup r id = ground (arith, cleanup-calls r id, get-remove id id r.calls, text_eq_iff id id)

  if-IsClosed :
      (r : CallRegistry P) (id : Text) (b : Bool) (x y : CallApi P × Reply Completed)
      → Removed id x
      → (b ≡ false → Refused r y)
      → IsClosed r id (if b then x else y)
  if-IsClosed r id true x y h k = inl h
  if-IsClosed r id false x y h k = inr (k refl)

  record_failure_refused :
      (r : CallRegistry P) (id : Text) (req : CallCompleteRequest) (now : ℕ)
      → (record_failure r id req now).1 ≡ false
      → (record_failure r id req now).0 ≡ r
  unfolding record_failure gsm_no_answer gsm_busy
  record_failure_refused r id req now =
      let reason = dialstatus_or req (codes "network_error") in
      elim (Bool-cases (has_status req (codes "no_answer"))) [
        | inl e ↦ rw e (transition_refused r id CallState.gsm_no_answer now)
        | inr e ↦ elim (Bool-cases (has_status req (codes "busy"))) [
          | inl f ↦ rw (e, f) (transition_refused r id CallState.gsm_busy now)
          | inr f ↦ rw (e, f) (gsm_error_refused r id (some reason) now)
        ]
      ]

  unanswered-IsClosed :
      (s : CallApi P) (id : Text) (c : CallMachine) (now : ℕ)
      → IsClosed s.registry id (incoming_unanswered s id c now)
  unfolding incoming_unanswered fallback_to_voicemail
  unanswered-IsClosed s id c now =
      let (t, done) = transition s.registry id CallState.voicemail now in
      if-IsClosed s.registry id done _ _ (_, (refl, get-cleanup t id))
        (λ e. (_, _, (refl, transition_refused s.registry id CallState.voicemail now e)))

  rejected-IsClosed :
      (s : CallApi P) (id : Text) (c : CallMachine) (now : ℕ)
      → IsClosed s.registry id (incoming_rejected s id c now)
  unfolding incoming_rejected
  rejected-IsClosed s id c now =
      let reason = some (codes "telegram_rejected") in
      let (t, done) = reject s.registry id reason now in
      if-IsClosed s.registry id done _ _ (_, (refl, get-cleanup t id))
        (λ e. (_, _, (refl, reject_refused s.registry id reason now e)))

  ended-IsClosed :
      (s : CallApi P) (id : Text) (c : CallMachine) (req : CallCompleteRequest) (now : ℕ)
      → IsClosed s.registry id (incoming_ended s id c req now)
  unfolding incoming_ended
  ended-IsClosed s id c req now =
      let reason =
        if has_status req (codes "cancelled")
        then codes "caller_hangup"
        else codes "bridge_" ++ dialstatus_or req (codes "failed") in
      let (t, done) = hangup s.registry id (some reason) now in
      if-IsClosed s.registry id done _ _ (_, (refl, get-cleanup t id))
        (λ e. (_, _, (refl, hangup_refused s.registry id (some reason) now e)))

  failed-IsClosed :
      (cfg : Config) (s : CallApi P) (id : Text) (c : CallMachine) (req : CallCompleteRequest)
      (now : ℕ)
      → IsClosed s.registry id (outgoing_failed cfg s id c req now)
  unfolding outgoing_failed
  failed-IsClosed cfg s id c req now =
      let (t, done) = record_failure s.registry id req now in
      if-IsClosed s.registry id done _ _ (_, (refl, get-cleanup _ id))
        (λ e. (_, _, (refl, record_failure_refused s.registry id req now e)))

  outgoing_ended-IsClosed :
      (ami : Ami) (s : CallApi P) (id : Text) (c : CallMachine) (req : CallCompleteRequest)
      (now : ℕ)
      → IsClosed s.registry id (outgoing_ended ami s id c req now)
  unfolding outgoing_ended
  outgoing_ended-IsClosed ami s id c req now =
      let asked = hang_up_channels ami now (codes "BYE") id (get_active_channel_ids c) s in
      let same = hang_up_channels-registry ami now (codes "BYE") id (get_active_channel_ids c) s in
      let reason = some (codes "telegram_hangup") in
      let (t, done) = hangup asked.registry id reason now in
      if-IsClosed s.registry id done _ _ (_, (refl, get-cleanup t id))
        (λ e. (_, _, (refl, hangup_refused asked.registry id reason now e ∙ same)))

  bridged-IsClosed :
      (ami : Ami) (s : CallApi P) (id : Text) (c : CallMachine) (req : CallCompleteRequest)
      (now : ℕ)
      → IsClosed s.registry id (complete_bridged ami s id c req now)
  unfolding complete_bridged
  bridged-IsClosed ami s id c req now = elim (Bool-cases (has_status req (codes "answered"))) [
    | inl e ↦ rw (e, complete_bridged) (inr (_, _, (refl, refl)))
    | inr e ↦ rw (e, complete_bridged) (inl (_, (refl, get-cleanup _ id)))
  ]

  leg-IsClosed :
      (cfg : Config) (ami : Ami) (s : CallApi P) (id : Text) (c : CallMachine) (d : Direction)
      (req : CallCompleteRequest) (now : ℕ)
      → has_status req (codes "answered") ≡ false
      → IsClosed s.registry id (complete_leg cfg ami s id c d req now)
  unfolding complete_leg
  leg-IsClosed cfg ami s id c incoming req now h =
      elim (Bool-cases (has_status req (codes "no_answer"))) [
        | inl e ↦ rw (h, e, complete_leg) (unanswered-IsClosed s id c now)
        | inr e ↦ elim (Bool-cases (has_status req (codes "busy"))) [
          | inl f ↦ rw (h, e, f, complete_leg) (rejected-IsClosed s id c now)
          | inr f ↦ rw (h, e, f, complete_leg) (ended-IsClosed s id c req now)
        ]
      ]
  leg-IsClosed cfg ami s id c outgoing req now h =
      let failed =
        has_status req (codes "no_answer")
        || has_status req (codes "busy")
        || has_status req (codes "failed") in
      elim (Bool-cases failed) [
        | inl e ↦ rw (h, e, complete_leg) (failed-IsClosed cfg s id c req now)
        | inr e ↦ rw (h, e, complete_leg) (outgoing_ended-IsClosed ami s id c req now)
      ]

  -- A report with another status than "answered" is either answered, and then the registry has no
  -- call with that identifier, or refused with an HTTP error, and then the registry is as it was.
  pub call_complete-IsClosed :
      (cfg : Config) (ami : Ami) (s : CallApi P) (id : Text) (req : CallCompleteRequest) (now : ℕ)
      → has_status req (codes "answered") ≡ false
      → IsClosed s.registry id (call_complete cfg ami s id req now)
  unfolding call_complete
  call_complete-IsClosed cfg ami s id req now h = elim (Option-cases (get id s.registry.calls)) [
    | inl e ↦ rw (e, call_complete) (inr (_, _, (refl, refl)))
    | inr (c, e) ↦ elim (Bool-cases (is_terminal c)) [
      | inl f ↦ rw (e, f, call_complete) (inr (_, _, (refl, refl)))
      | inr f ↦ elim (Bool-cases (state_eq c.state CallState.bridged)) [
        | inl g ↦ rw (e, f, g, call_complete) (bridged-IsClosed ami s id c req now)
        | inr g ↦ rw (e, f, g, call_complete) (leg-IsClosed cfg ami s id c c.direction req now h)
      ]
    ]
  ]

  -- A second report.
  call_complete-gone :
      (cfg : Config) (ami : Ami) (s : CallApi P) (id : Text) (req : CallCompleteRequest) (now : ℕ)
      → get id s.registry.calls ≡ none
      → call_complete cfg ami s id req now ≡ (s, gone)
  unfolding call_complete
  call_complete-gone cfg ami s id req now e = rw (e, call_complete) refl

  -- After a report with another status than "answered" that was answered, a second report for the
  -- call, with any status and at any time, gets 404 and changes nothing.
  pub call_complete_twice :
      (cfg : Config) (ami : Ami) (s : CallApi P) (id : Text) (a : Completed)
      (req again : CallCompleteRequest) (now later : ℕ)
      → has_status req (codes "answered") ≡ false
      → (call_complete cfg ami s id req now).1 ≡ returned a
      → call_complete cfg ami (call_complete cfg ami s id req now).0 id again later
        ≡ ((call_complete cfg ami s id req now).0, gone)
  call_complete_twice cfg ami s id a req again now later h done =
      elim (call_complete-IsClosed cfg ami s id req now h) [
        | inl (b, (_, absent)) ↦
            call_complete-gone cfg ami (call_complete cfg ami s id req now).0 id again later absent
        | inr (code, detail, (failed, _)) ↦ cc (done, failed)
      ]

  hang_up_channels-hangups :
      (ami : Ami) (now : ℕ) (why id : Text) (channels : List Text) (s : CallApi P)
      → (hang_up_channels ami now why id channels s).hangups
        ≡ s.hangups ++ map (λ channel. (channel, why)) channels
  unfolding hang_up_channels
  hang_up_channels-hangups ami now why id [] s = sym (append-nil s.hangups)
  hang_up_channels-hangups ami now why id (channel ∷ channels) s =
      hang_up_channels-hangups ami now why id channels (hang_up_one ami now why id channel s)
      ∙ ap (λ asked. asked ++ map (λ other. (other, why)) channels)
          (elim (Option-cases (ami s.hangups channel)) [
            | inl e ↦ rw (e, hang_up_one) refl
            | inr (x, e) ↦ rw (e, hang_up_one) refl
          ])
      ∙ append_assoc s.hangups ((channel, why) ∷ []) (map (λ other. (other, why)) channels)

  -- A report with another status than "answered" on a bridged call is always answered: AMI is
  -- asked to hang up each channel of the call, in order, whatever it answers, and the call leaves
  -- the registry.
  pub call_complete-bridged :
      (cfg : Config) (ami : Ami) (s : CallApi P) (id : Text) (c : CallMachine)
      (req : CallCompleteRequest) (now : ℕ)
      → get id s.registry.calls ≡ some c
      → c.state ≡ CallState.bridged
      → has_status req (codes "answered") ≡ false
      → ((call_complete cfg ami s id req now).1
          ≡ returned (record { call_id = id; state = some (codes "cleanup") }))
        × (get id (call_complete cfg ami s id req now).0.registry.calls ≡ none)
        × ((call_complete cfg ami s id req now).0.hangups
            ≡ s.hangups ++ map (λ channel. (channel, codes "BYE")) (get_active_channel_ids c))
  unfolding call_complete complete_bridged
  call_complete-bridged cfg ami s id c req now found bridged h =
      let live : is_terminal c ≡ false = rw bridged refl in
      let there : state_eq c.state CallState.bridged ≡ true = rw bridged refl in
      rw (found, live, there, h, call_complete)
        (
          refl,
          get-cleanup _ id,
          hang_up_channels-hangups ami now (codes "BYE") id (get_active_channel_ids c) s,
        )
