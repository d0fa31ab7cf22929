-- ===== src/Agent/Calls/Expiry.antt =====
-- agent/routes.py, `call_check_timeouts`: which calls are left.
use sim_bridge.Prelude.{
  ℕ, Text, text_Comparable, text_eq, text_eq_iff, codes, Bool, true, false, List, [], ◌∷◌, none,
  some, ◌≡◌, refl, ap, ◌∙◌, arith, ◌||◌, length, length-append, count_if, length-keep_if, keep_if,
  any_of, All, keep_if-All, All-weaken, if◌then◌else◌, Bool-cases, inl, inr,
}
use sim_bridge.Dict.{Dict, get, values}
use sim_bridge.Dict.Laws.{get-remove}
use sim_bridge.Dict.Counts.{Unique}
use sim_bridge.Modem.Pool.{Provider}
use sim_bridge.CallControl.State.{CallState, state_eq}
use sim_bridge.CallControl.Machine.{CallMachine, get_active_channel_ids}
use sim_bridge.CallControl.Registry.{CallRegistry, cleanup}
use sim_bridge.CallControl.Operations.{fallback_to_voicemail, telegram_timeout, hangup}
use sim_bridge.CallControl.Monitor.{Limits, limit_in, has_timed_out, get_timed_out_calls}
use sim_bridge.CallControl.Legs.Elsewhere.{Elsewhere, transition-Elsewhere, hangup-Elsewhere}
use sim_bridge.CallControl.Accounting.Keyed.{IsKeyed, cleanup-calls}
use sim_bridge.Agent.Calls.{Config, CallApi, Ami, hang_up_channels, current}
use sim_bridge.Agent.Calls.TimeLimits.{
  expire_ringing, expire_waiting, expire_bridged, expire, expire_all, call_check_timeouts,
}
use sim_bridge.Agent.Calls.Serving.Ending.{hang_up_channels-registry}
use sim_bridge.Agent.Calls.Serving.Closing.{notify_userbot_call-registry}

-- A call that is past a limit is in one of the five states that the rounds handle.
handled_state : CallState → Bool
handled_state s =
    state_eq s CallState.ringing
    || state_eq s CallState.telegram_ringing
    || (state_eq s CallState.modem_reserved || state_eq s CallState.telegram_calling)
    || state_eq s CallState.bridged

has_timed_out-handled :
    (l : Limits) (now : ℕ) (c : CallMachine)
    → has_timed_out l now c ≡ true
    → handled_state c.state ≡ true
unfolding has_timed_out limit_in handled_state
has_timed_out-handled l now c h = go c.state refl
  where
    go : (s : CallState) → c.state ≡ s → handled_state s ≡ true
    go CallState.idle e = ground arith
    go _ e = ground arith

module _ {P : Type 0} ⦃i : Provider P⦄ where
  removed :
      (r s : CallRegistry P) (id k : Text)
      → Elsewhere id r s
      → get k (cleanup s id).calls ≡ (if text_eq id k then none else get k r.calls)
  removed r s id k h = elim (Bool-cases (text_eq id k)) [
    | inl e ↦ rw e (ground (arith, cleanup-calls s id, get-remove id k s.calls))
    | inr e ↦ rw e (ground (arith, cleanup-calls s id, get-remove id k s.calls, h k e))
  ]

  -- A step that leaves the registry, after one on a call.
  kept_registry : (r s t : CallRegistry P) (id : Text) → t ≡ s → Elsewhere id r s → Elsewhere id r t
  kept_registry r s t id e h k g = rw e (h k g)

  waiting_removed :
      (cfg : Config) (c : CallMachine) (now : ℕ) (s : CallApi P) (k : Text)
      → get k (expire_waiting cfg s c now).registry.calls
        ≡ (if text_eq c.call_id k then none else get k s.registry.calls)
  unfolding expire_waiting telegram_timeout
  waiting_removed cfg c now s k =
      let r : CallRegistry P = (telegram_timeout s.registry c.call_id now).0 in
      removed s.registry _ c.call_id k (
        kept_registry s.registry r _ c.call_id
          (notify_userbot_call-registry cfg (current r c) (codes "no_answer") _)
          (transition-Elsewhere s.registry c.call_id CallState.telegram_timeout now))

  bridged_removed :
      (ami : Ami) (c : CallMachine) (now : ℕ) (s : CallApi P) (k : Text)
      → get k (expire_bridged ami s c now).registry.calls
        ≡ (if text_eq c.call_id k then none else get k s.registry.calls)
  unfolding expire_bridged
  bridged_removed ami c now s k =
      let why = codes "max_duration" in
      let channels = get_active_channel_ids c in
      let asked = hang_up_channels ami now why c.call_id channels s in
      let reason = some (codes "max_duration_exceeded") in
      removed s.registry (hangup asked.registry c.call_id reason now).0 c.call_id k (
        kept_registry s.registry (hangup s.registry c.call_id reason now).0
          (hangup asked.registry c.call_id reason now).0 c.call_id
          (ap (λ r. (hangup r c.call_id reason now).0)
            (hang_up_channels-registry ami now why c.call_id channels s))
          (hangup-Elsewhere s.registry c.call_id reason now))

  expire-calls :
      (cfg : Config) (ami : Ami) (now : ℕ) (c : CallMachine) (s : CallApi P) (k : Text)
      → handled_state c.state ≡ true
      → (get k (expire cfg ami s c now).0.registry.calls
          ≡ (if text_eq c.call_id k then none else get k s.registry.calls))
        × (length (expire cfg ami s c now).1 ≡ 1)
  unfolding expire expire_ringing fallback_to_voicemail handled_state
  expire-calls cfg ami now c s k h =
      let rings =
        state_eq c.state CallState.ringing || state_eq c.state CallState.telegram_ringing in
      let waits =
        state_eq c.state CallState.modem_reserved || state_eq c.state CallState.telegram_calling in
      elim (Bool-cases rings) [
        | inl e ↦ rw e (
          removed s.registry _ c.call_id k
              (transition-Elsewhere s.registry c.call_id CallState.voicemail now),
          refl,
        )
        | inr e ↦ elim (Bool-cases waits) [
          | inl f ↦ rw (e, f) (waiting_removed cfg c now s k, refl)
          | inr f ↦
              let g : state_eq c.state CallState.bridged ≡ true = ground (arith, h, e, f) in
              rw (e, f, g) (bridged_removed ami c now s k, refl)
        ]
      ]

  expire_all-calls :
      (cfg : Config) (ami : Ami) (now : ℕ) (cs : List CallMachine) (s : CallApi P) (k : Text)
      → All (λ c. handled_state c.state ≡ true) cs
      → (get k (expire_all cfg ami now cs s).0.registry.calls
          ≡ (if any_of (λ c. text_eq c.call_id k) cs then none else get k s.registry.calls))
        × (length (expire_all cfg ami now cs s).1 ≡ length cs)
  unfolding expire_all
  expire_all-calls cfg ami now [] s k a = (refl, refl)
  expire_all-calls cfg ami now (c ∷ cs) s k a =
      let (t, handled) = expire cfg ami s c now in
      let (first, one) = expire-calls cfg ami now c s k a.0 in
      let (rest, others) = expire_all-calls cfg ami now cs t k a.1 in
      (
        ground (arith, first, rest),
        ground (arith, one, others, length-append handled (expire_all cfg ami now cs t).1),
      )

-- The calls of a dictionary that pass a test, where each is stored once and under its identifier.
timed_out_entry :
    (p : CallMachine → Bool) (d : Dict Text CallMachine) (k : Text)
    → Unique d
    → ((j : Text) (c : CallMachine) → get j d ≡ some c → c.call_id ≡ j)
    → any_of (λ c. text_eq c.call_id k) (keep_if p (values d))
      ≡ (elim (get k d) [ none ↦ false | some c ↦ p c ])
unfolding get
timed_out_entry p [] k u own = refl
timed_out_entry p ((j, c) ∷ d) k u own =
    let here : c.call_id ≡ j = own j c (ground (arith, text_eq_iff j j)) in
    let below : (i : Text) (x : CallMachine) → get i d ≡ some x → x.call_id ≡ i =
      λ i x h. own i x (ground (arith, u.0, text_eq_iff j i)) in
    ground (arith, here, timed_out_entry p d k u.1 below, u.0, text_eq_iff j k)

module _ {P : Type 0} ⦃i : Provider P⦄ where
  -- If every call is stored once and under its own identifier, call_check_timeouts removes from
  -- the registry exactly the calls that get_timed_out_calls finds past a limit, leaves every
  -- other call as it was, whatever AMI answers, and answers with the number of the calls found.
  pub call_check_timeouts_lem :
      (cfg : Config) (ami : Ami) (s : CallApi P) (now : ℕ)
      → IsKeyed s.registry
      → ((k : Text)
          → get k (call_check_timeouts cfg ami s now).0.registry.calls
            ≡ (elim (get k s.registry.calls) [
              | none ↦ none
              | some c ↦ if has_timed_out cfg.limits now c then none else some c
            ]))
        × ((call_check_timeouts cfg ami s now).1.0
            ≡ count_if (has_timed_out cfg.limits now) (values s.registry.calls))
  unfolding call_check_timeouts get_timed_out_calls
  call_check_timeouts_lem cfg ami s now h =
      let late = has_timed_out cfg.limits now in
      let calls = s.registry.calls in
      let all =
        All-weaken (λ c. late c ≡ true) (λ c. handled_state c.state ≡ true)
          (has_timed_out-handled cfg.limits now) (keep_if late (values calls))
          (keep_if-All late (values calls)) in
      let gone = λ (k : Text). expire_all-calls cfg ami now (keep_if late (values calls)) s k all in
      (
        λ k. ground (arith, (gone k).0, timed_out_entry late calls k h.unique h.own),
        (gone []).1 ∙ length-keep_if late (values calls),
      )
