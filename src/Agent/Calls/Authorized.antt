-- ===== src/Agent/Calls/Authorized.antt =====
-- agent/routes.py, `call_outgoing`: which calls are placed.
use sim_bridge.Prelude.{
  ℕ, Text, text_Comparable, codes, true, false, not, [], ◌∷◌, none, some, or_else, ◌≡◌, refl, sym,
  ap, ◌∙◌, ◌⊎◌, Bool-cases, Option-cases, inl, inr, contains,
}
use sim_bridge.Dict.{get}
use sim_bridge.Dict.Laws.{get-put_self}
use sim_bridge.Acl.{check}
use sim_bridge.Acl.Lines.{pos}
use sim_bridge.Blacklist.{has_number}
use sim_bridge.RateLimit.{allow}
use sim_bridge.Phone.{Destination, parse_destination}
use sim_bridge.Modem.Pool.{Provider}
use sim_bridge.CallControl.State.{CallState}
use sim_bridge.CallControl.Machine.{CallMachine, enter}
use sim_bridge.CallControl.Machine
use sim_bridge.CallControl.Registry.{
  CallRegistry, Result, ok, err, modem_busy, busy, offline, invalid_transition,
  strategy_not_implemented, create_outgoing,
}
use sim_bridge.CallControl.Operations.{transition, start_telegram_calling}
use sim_bridge.CallControl.Accounting.{placed_call}
use sim_bridge.CallControl.Accounting.Keyed.{Made, create_outgoing-Made}
use sim_bridge.Agent.Http.{Reply, is_returned}
use sim_bridge.Agent.Calls.{Config, CallApi, CallResponse, log}
use sim_bridge.Audit.{EventType, string}
use sim_bridge.Agent.Calls.Placing.{
  OutgoingCallRequest, is_nonzero, order_of, call_limiter_key, ring_user, place_call, call_number,
  acl_denies, authorize_call, call_outgoing,
}

-- The call as it waits for the Telegram user.
abbrev pub waiting_call :
    OutgoingCallRequest → Destination → (call_id modem_id : Text) → ℕ → CallMachine
waiting_call req dest call_id modem_id now =
    record (placed_call (order_of req dest call_id) modem_id now) {
      state = CallState.telegram_calling;
      updated_at = now;
    }

module _ {P : Type 0} where
  -- The calls before and after, and the answer: a call has been placed to `dest`.
  abbrev pub Placed :
      CallApi P
      → OutgoingCallRequest
      → Destination
      → Text
      → ℕ
      → CallApi P × Reply CallResponse
      → Type 0
  Placed s req dest id now (t, reply) =
      (modem_id : Text) × ((is_returned reply ≡ true)
        × (get id t.registry.calls ≡ some (waiting_call req dest id modem_id now)))

  abbrev pub Unplaced : CallApi P → CallApi P × Reply CallResponse → Type 0
  Unplaced s (t, reply) = (is_returned reply ≡ false) × (t.registry.calls ≡ s.registry.calls)

  -- The limiter, the ACL for a user that is known, and the blacklist let the request pass.
  abbrev pub Permitted : CallApi P → OutgoingCallRequest → Destination → ℕ → Type 0
  Permitted s req dest ticks =
      ((allow s.call_limiter (call_limiter_key req) ticks).1 ≡ true)
      × ((is_nonzero req.telegram_user_id ≡ false)
          ⊎ ((check (pos (or_else req.telegram_user_id 0)) (codes "out_call") s.acl).1 ≡ true))
      × (parse_destination (some req.phone_number) ≡ some dest)
      × ((has_number dest.number s.blacklist).1 ≡ false)

  start_telegram_calling-waiting :
      (r : CallRegistry P) (req : OutgoingCallRequest) (dest : Destination) (id modem_id : Text)
      (now : ℕ)
      → get id r.calls ≡ some (placed_call (order_of req dest id) modem_id now)
      → get id (start_telegram_calling r id now).0.calls
        ≡ some (waiting_call req dest id modem_id now)
  unfolding start_telegram_calling transition Machine.transition enter contains
  start_telegram_calling-waiting r req dest id modem_id now h =
      rw (h, transition) (get-put_self id (waiting_call req dest id modem_id now) r.calls)

  ring_user-Placed :
      (s : CallApi P) (req : OutgoingCallRequest) (dest : Destination) (id : Text) (now : ℕ)
      (r : CallRegistry P) (made : Result CallMachine × CallRegistry P)
      → r.calls ≡ s.registry.calls
      → Made (order_of req dest id) now r made
      → Placed s req dest id now (ring_user s req dest id now made)
        ⊎ Unplaced s (ring_user s req dest id now made)
  unfolding ring_user
  ring_user-Placed s req dest id now r (ok c, t) same (inl (e, (h, _))) = cc h
  ring_user-Placed s req dest id now r (ok c, t) same (inr (m, (_, stored))) =
      let placed = placed_call (order_of req dest id) m now in
      let found : get id t.calls ≡ some placed = rw stored (get-put_self id placed r.calls) in
      inl (m, (refl, start_telegram_calling-waiting t req dest id m now found))
  ring_user-Placed s req dest id now r (err e, t) same (inr (m, (h, _))) = cc h
  ring_user-Placed s req dest id now r (err (modem_busy offline), t) same (inl (_, (_, kept))) =
      inr (refl, kept ∙ same)
  ring_user-Placed s req dest id now r (err (modem_busy busy), t) same (inl (_, (_, kept))) =
      inr (refl, kept ∙ same)
  ring_user-Placed s req dest id now r (err invalid_transition, t) same (inl (_, (_, kept))) =
      inr (refl, kept ∙ same)
  ring_user-Placed s req dest id now r (err strategy_not_implemented, t) same (inl (_, (_, kept))) =
      inr (refl, kept ∙ same)

module _ {P : Type 0} ⦃i : Provider P⦄ where
  place_call-Placed :
      (s : CallApi P) (req : OutgoingCallRequest) (dest : Destination) (id : Text) (now : ℕ)
      → (((has_number dest.number s.blacklist).1 ≡ false)
          × Placed s req dest id now (place_call s req dest id now))
        ⊎ Unplaced s (place_call s req dest id now)
  unfolding place_call
  place_call-Placed s req dest id now =
      let (blacklist, is_listed) = has_number dest.number s.blacklist in
      let o = order_of req dest id in
      elim (Bool-cases is_listed) [
        | inl e ↦ rw (e, place_call) (inr (refl, refl))
        | inr e ↦
            elim (ring_user-Placed (record s { blacklist = blacklist }) req dest id now s.registry
              (create_outgoing s.registry o now) refl (create_outgoing-Made s.registry o now)) [
                | inl placed ↦ rw (e, place_call) (inl (refl, placed))
                | inr unplaced ↦ rw (e, place_call) (inr unplaced)
              ]
      ]

  call_number-Placed :
      (s : CallApi P) (req : OutgoingCallRequest) (id : Text) (now : ℕ)
      → ((dest : Destination) × ((parse_destination (some req.phone_number) ≡ some dest)
            × ((has_number dest.number s.blacklist).1 ≡ false)
            × Placed s req dest id now (call_number s req id now)))
        ⊎ Unplaced s (call_number s req id now)
  unfolding call_number
  call_number-Placed s req id now =
      elim (Option-cases (parse_destination (some req.phone_number))) [
        | inl e ↦ rw (e, call_number) (inr (refl, refl))
        | inr (dest, e) ↦ elim (place_call-Placed s req dest id now) [
          | inl (free, placed) ↦ inl (dest, (e, free, rw (e, call_number) placed))
          | inr unplaced ↦ rw (e, call_number) (inr unplaced)
        ]
      ]

  acl_denies_lem :
      (req : OutgoingCallRequest) (s : CallApi P)
      → ((acl_denies req s).0.registry ≡ s.registry)
        × ((acl_denies req s).0.blacklist ≡ s.blacklist)
        × (((acl_denies req s).1 ≡ true)
            ⊎ ((is_nonzero req.telegram_user_id ≡ false)
                ⊎ ((check (pos (or_else req.telegram_user_id 0)) (codes "out_call") s.acl).1
                    ≡ true)))
  unfolding acl_denies
  acl_denies_lem req s = elim (Bool-cases (is_nonzero req.telegram_user_id)) [
    | inr e ↦ rw (e, acl_denies) (refl, refl, inr (inl refl))
    | inl e ↦
        let may = (check (pos (or_else req.telegram_user_id 0)) (codes "out_call") s.acl).1 in
        elim (Bool-cases may) [
          | inl f ↦ rw (e, acl_denies) (refl, refl, inr (inr f))
          | inr f ↦ rw (e, acl_denies) (refl, refl, inl (ap not f))
        ]
  ]

  authorize_call-Placed :
      (s : CallApi P) (req : OutgoingCallRequest) (id : Text) (now : ℕ)
      → ((dest : Destination) × (((is_nonzero req.telegram_user_id ≡ false)
              ⊎ ((check (pos (or_else req.telegram_user_id 0)) (codes "out_call") s.acl).1 ≡ true))
            × (parse_destination (some req.phone_number) ≡ some dest)
            × ((has_number dest.number s.blacklist).1 ≡ false)
            × Placed s req dest id now (authorize_call s req id now)))
        ⊎ Unplaced s (authorize_call s req id now)
  unfolding authorize_call
  authorize_call-Placed s req id now =
      let (asked, denies) = acl_denies req s in
      let (same, kept, may) = acl_denies_lem req s in
      let passed : CallApi P =
        log now EventType.call_acl_check req.telegram_user_id none (codes "allowed")
          ((codes "to", string req.phone_number) ∷ []) asked in
      elim (Bool-cases denies) [
        | inl e ↦ rw (e, authorize_call) (inr (refl, ap (λ r. r.calls) same))
        | inr e ↦ elim (call_number-Placed passed req id now) [
          | inl (dest, (parsed, free, placed)) ↦ elim may [
            | inl denied ↦ cc (e, denied)
            | inr may_call ↦
                inl (dest, (may_call, parsed, rw (sym kept) free, rw (e, authorize_call) placed))
          ]
          | inr (refused, unchanged) ↦
              rw (e, authorize_call) (inr (refused, unchanged ∙ ap (λ r. r.calls) same))
        ]
      ]

  -- Either call_outgoing answers with a call, and then the call limiter allowed the request, the
  -- ACL grants the user out_call unless the request names no user or 0, the number parses and is
  -- not blacklisted, and the registry has under the new identifier a call to that number in
  -- TELEGRAM_CALLING; or it does not answer with a call, and the calls of the registry are as
  -- before.
  pub call_outgoing-Placed :
      (cfg : Config) (s : CallApi P) (req : OutgoingCallRequest) (id : Text) (ticks now : ℕ)
      → ((dest : Destination) × (Permitted s req dest ticks
            × Placed s req dest id now (call_outgoing cfg s req id ticks now)))
        ⊎ Unplaced s (call_outgoing cfg s req id ticks now)
  unfolding call_outgoing
  call_outgoing-Placed cfg s req id ticks now =
      let (limiter, allowed) = allow s.call_limiter (call_limiter_key req) ticks in
      elim (Bool-cases allowed) [
        | inr e ↦ rw (e, call_outgoing) (inr (refl, refl))
        | inl e ↦ elim (authorize_call-Placed (record s { call_limiter = limiter }) req id now) [
          | inl (dest, (may, parsed, free, placed)) ↦
              inl (dest, ((e, may, parsed, free), rw (e, call_outgoing) placed))
          | inr unplaced ↦ rw (e, call_outgoing) (inr unplaced)
        ]
      ]
