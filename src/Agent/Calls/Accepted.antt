-- ===== src/Agent/Calls/Accepted.antt =====
-- agent/routes.py, `call_outgoing_accepted`: the bridge's INVITE is matched to the call that waits for it.
use sim_bridge.Prelude.{
  ℕ, Text, text_Comparable, text_eq_iff, is_set, true, [], ◌∷◌, Option, some, ◌≡◌, refl, arith, ◌⊎◌,
  if◌then◌else◌, Bool-cases, inl, inr, contains, Member, Member-keep_if,
}
use sim_bridge.Dict.{Dict, get, values}
use sim_bridge.Dict.Laws.{get-put_self}
use sim_bridge.Dict.Counts.{Unique}
use sim_bridge.Metrics.{outgoing}
use sim_bridge.CallControl.State.{CallState, state_eq, state_eq_iff, state_Comparable, allowed}
use sim_bridge.CallControl.Machine.{CallMachine, enter}
use sim_bridge.CallControl.Machine
use sim_bridge.CallControl.Registry.{CallRegistry}
use sim_bridge.CallControl.Operations.{
  transition, start_telegram_calling, set_bridge_leg, user_accepted, dial_gsm, then_update,
}
use sim_bridge.CallControl.Accounting.Keyed.{IsKeyed}
use sim_bridge.Agent.Calls.{CallApi}
use sim_bridge.Agent.Calls.Placing.{
  is_pending, prepared, accept_pending, pending_calls, call_outgoing_accepted,
}
use sim_bridge.Agent.Http.{is_returned}

-- A stored call is found under its identifier.
entry_of :
    (d : Dict Text CallMachine) (c : CallMachine)
    → Unique d
    → ((j : Text) (x : CallMachine) → get j d ≡ some x → x.call_id ≡ j)
    → Member c (values d)
    → get c.call_id d ≡ some c
unfolding get
entry_of [] c u own m = absurd m
entry_of ((j, x) ∷ d) c u own m =
    let here : x.call_id ≡ j = own j x (ground (arith, text_eq_iff j j)) in
    let below : (i : Text) (y : CallMachine) → get i d ≡ some y → y.call_id ≡ i =
      λ i y h. own i y (ground (arith, u.0, text_eq_iff j i)) in
    ground (arith, here, entry_of d c u.1 below, u.0, text_eq_iff j c.call_id)

pending_lem :
    (c : CallMachine)
    → is_pending c ≡ true
    → (c.direction ≡ outgoing)
      × ((c.state ≡ CallState.modem_reserved) ⊎ (c.state ≡ CallState.telegram_calling))
pending_lem c p = (
  ground arith,
  ground (
    arith,
    state_eq_iff c.state CallState.modem_reserved,
    state_eq_iff c.state CallState.telegram_calling,
  ),
)

module _ {P : Type 0} where
  -- An allowed transition of a stored call.
  advance :
      (r : CallRegistry P) (id : Text) (c : CallMachine) (s : CallState) (now : ℕ)
      → get id r.calls ≡ some c
      → contains s (allowed c.direction c.state) ≡ true
      → ((transition r id s now).1 ≡ true)
        × (get id (transition r id s now).0.calls ≡ some (enter now s c))
  unfolding transition Machine.transition
  advance r id c s now h k = rw (h, transition, k) (refl, get-put_self id (enter now s c) r.calls)

  -- A stored call that waits for its user, with what it shares with the call `c`.
  record Waiting (r : CallRegistry P) (c : CallMachine) (bridge : Option Text) : Type 0 where
    call : CallMachine
    stored : get c.call_id r.calls ≡ some call
    is_out : call.direction ≡ outgoing
    calling : call.state ≡ CallState.telegram_calling
    same_callee : call.callee_number ≡ c.callee_number
    bridge_leg : call.bridge_channel_id ≡ bridge

  calling-Waiting :
      (r : CallRegistry P) (c : CallMachine) (now : ℕ)
      → get c.call_id r.calls ≡ some c
      → is_pending c ≡ true
      → Waiting
          (if state_eq c.state CallState.modem_reserved
            then (start_telegram_calling r c.call_id now).0
            else r)
          c
          c.bridge_channel_id
  unfolding start_telegram_calling contains enter
  calling-Waiting r c now h p =
      let (out, states) = pending_lem c p in
      elim (Bool-cases (state_eq c.state CallState.modem_reserved)) [
        | inl e ↦
            let reserved = (state_eq_iff c.state CallState.modem_reserved).0 e in
            let (_, moved) =
              advance r c.call_id c CallState.telegram_calling now h (rw (out, reserved) refl) in
            rw e (record {
              call = enter now CallState.telegram_calling c;
              stored = moved;
              is_out = out;
              calling = refl;
              same_callee = refl;
              bridge_leg = refl;
            })
        | inr e ↦ rw e (record {
          call = c;
          stored = h;
          is_out = out;
          calling = ground (arith, states, e, state_eq_iff c.state CallState.modem_reserved);
          same_callee = refl;
          bridge_leg = refl;
        })
      ]

  prepared-Waiting :
      (r : CallRegistry P) (c : CallMachine) (channel : Text) (now : ℕ)
      → get c.call_id r.calls ≡ some c
      → is_pending c ≡ true
      → Waiting
          (prepared r c channel now)
          c
          (if is_set (some channel) then some channel else c.bridge_channel_id)
  unfolding prepared set_bridge_leg
  prepared-Waiting r c channel now h p =
      let w = calling-Waiting r c now h p in
      let calls =
        (if state_eq c.state CallState.modem_reserved
          then (start_telegram_calling r c.call_id now).0
          else r).calls in
      elim (Bool-cases (is_set (some channel))) [
        | inr e ↦ rw (e, prepared) w
        | inl e ↦
            rw (e, prepared, w.stored, set_bridge_leg)
              (record {
                call = record w.call { bridge_channel_id = some channel };
                stored =
                    get-put_self c.call_id (record w.call { bridge_channel_id = some channel })
                      calls;
                is_out = w.is_out;
                calling = w.calling;
                same_callee = w.same_callee;
                bridge_leg = refl;
              })
      ]

  -- If every call is stored once and under its own identifier and exactly one outgoing call waits
  -- for its user, call_outgoing_accepted answers, and that call is in GSM_DIALING to the same
  -- number, with the bridge channel of the request if it names one and the channel it had
  -- otherwise.
  pub call_outgoing_accepted_lem :
      (s : CallApi P) (c : CallMachine) (channel : Text) (now : ℕ)
      → IsKeyed s.registry
      → pending_calls s.registry ≡ c ∷ []
      → (is_returned (call_outgoing_accepted s channel now).1 ≡ true)
        × ((d : CallMachine) × ((get c.call_id
                  (call_outgoing_accepted s channel now).0.registry.calls
                ≡ some d)
              × (d.state ≡ CallState.gsm_dialing)
              × (d.callee_number ≡ c.callee_number)
              × (d.bridge_channel_id
                  ≡ (if is_set (some channel) then some channel else c.bridge_channel_id))))
  unfolding call_outgoing_accepted accept_pending pending_calls user_accepted dial_gsm then_update
      contains enter
  call_outgoing_accepted_lem s c channel now keyed alone =
      let (only, _) = Member-keep_if is_pending c (values s.registry.calls) in
      let found = only (rw alone (inl refl)) in
      let w =
        prepared-Waiting s.registry c channel now
          (entry_of s.registry.calls c keyed.unique keyed.own found.0) found.1 in
      let r = prepared s.registry c channel now in
      let (accepts, accepted) =
        advance r c.call_id w.call CallState.user_accepted now w.stored
          (rw (w.is_out, w.calling) refl) in
      let (dials, dialed) =
        advance (user_accepted r c.call_id now).0 c.call_id
          (enter now CallState.user_accepted w.call) CallState.gsm_dialing now accepted
          (rw w.is_out refl) in
      rw (alone, call_outgoing_accepted, accepts, dials)
        (
          refl,
          (
            enter now CallState.gsm_dialing (enter now CallState.user_accepted w.call),
            (dialed, refl, w.same_callee, w.bridge_leg),
          ),
        )
