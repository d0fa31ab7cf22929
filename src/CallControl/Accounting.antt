-- ===== src/CallControl/Accounting.antt =====
-- core/call_control.py, `CallRegistry`: what `create_incoming`, `create_outgoing` and `cleanup` do to
-- the calls and to the reservation, and that the other operations do nothing to them.
pub mod Counter
pub mod Pooled
pub mod Keyed
use sim_bridge.Modem.Pool.{select_for_call}
use sim_bridge.Prelude.{
  codes, ℕ, zero, suc, ◌+◌, ◌-◌, ltb, Text, text_Comparable, text_eq_iff, Bool, true, false, List,
  [], ◌∷◌, Option, none, some, ◌≡◌, refl, ap, ◌∙◌, arith, if◌then◌else◌, Bool-cases, Option-cases,
  ◌⊎◌, inl, inr, contains,
}
use sim_bridge.Dict.{Dict, get, put, remove}
use sim_bridge.Metrics.{MetricsCollector, incoming}
use sim_bridge.Modem.Pool.{Provider, ModemPool}
use sim_bridge.CallControl.State
use sim_bridge.CallControl.State.{CallState}
use sim_bridge.CallControl.Machine.{CallMachine, transition, enter, new_call}
use sim_bridge.CallControl.Registry.{
  CallRegistry, Outgoing, create_outgoing, place_on_modem, place_selected, modem_busy, busy, Result,
  ok, err, move, metrics_hook, outgoing_chain, outgoing_call, place, count_reserved,
  selection_record, cleanup, holds_modem, release_modem, create_incoming, store,
}
use sim_bridge.Audit.{append}
use sim_bridge.CallControl.Operations.{answer_gsm, dial_gsm, hangup, reject, gsm_error}
use sim_bridge.CallControl.Trace.{Event, step, arrives, dials, cleans, device}
use sim_bridge.CallControl.Trace
use sim_bridge.CallControl.Legs.{
  SameLegs, transition-SameLegs, transition_update-SameLegs, update_call-SameLegs,
  set_bridge_leg-SameLegs, set_telegram_call_id-SameLegs,
}
use sim_bridge.CallControl.Legs.Loops.{
  terminate_bridged_calls-SameLegs, fast_forward_bridged-SameLegs,
}

-- The call that `create_outgoing` stores.
abbrev pub placed_call : Outgoing → Text → ℕ → CallMachine
placed_call o modem_id now = record (outgoing_call o modem_id now) {
  state = CallState.modem_reserved;
  updated_at = now;
}

-- The three transitions of a new outgoing call succeed and count nothing.
pub outgoing_chain_lem :
    (o : Outgoing) (modem_id : Text) (now : ℕ) (m : Option MetricsCollector)
    → outgoing_chain now (outgoing_call o modem_id now, m) ≡ some (placed_call o modem_id now, m)
unfolding outgoing_chain transition enter contains metrics_hook
outgoing_chain_lem o modem_id now none = refl
outgoing_chain_lem o modem_id now (some m) = refl

abbrev pub arrived_call : (id caller : Text) → Option Text → Text → Option Text → ℕ → CallMachine
arrived_call id caller name modem channel now = record (new_call id incoming now) {
  caller_number = caller;
  caller_name = name;
  modem_id = modem;
  gsm_channel_id = channel;
  state = CallState.ringing;
}

metrics_hook-ringing :
    (now : ℕ) (c : CallMachine) (m : Option MetricsCollector)
    → c.state ≡ CallState.ringing
    → metrics_hook now c m ≡ m
unfolding metrics_hook
metrics_hook-ringing now c none h = refl
metrics_hook-ringing now c (some m) h = ground arith

pub create_incoming_lem :
    {P : Type 0} (r : CallRegistry P) (id caller : Text) (name : Option Text) (modem : Text)
    (channel : Option Text) (now : ℕ)
    → create_incoming r id caller name modem channel now ≡ (
      ok (arrived_call id caller name modem channel now),
      store (arrived_call id caller name modem channel now) r.metrics r,
    )
unfolding create_incoming transition enter contains metrics_hook
create_incoming_lem r id caller name modem channel now =
    let c = arrived_call id caller name modem channel now in
    ap (λ m. (ok c, store c m r)) (metrics_hook-ringing now c r.metrics refl)

module _ {P : Type 0} where
  -- The registry after the modem has been chosen.
  abbrev pub placed : CallRegistry P → Outgoing → (modem_id policy : Text) → ℕ → CallRegistry P
  placed r o modem_id policy now = record (store (placed_call o modem_id now) r.metrics r) {
    modems_reserved = count_reserved o.modem_required r.modem_pool r.modems_reserved;
    audit =
        if o.modem_required
        then append (selection_record o modem_id policy now) r.audit
        else r.audit;
  }

  pub place_lem :
      (r : CallRegistry P) (o : Outgoing) (modem_id policy : Text) (now : ℕ)
      → place r o modem_id policy now
        ≡ (ok (placed_call o modem_id now), placed r o modem_id policy now)
  unfolding place
  place_lem r o modem_id policy now = rw (outgoing_chain_lem o modem_id now r.metrics, place)

module _ {P : Type 0} ⦃i : Provider P⦄ where
  pub step-arrives :
      (r : CallRegistry P) (id caller : Text) (name : Option Text) (modem : Text)
      (channel : Option Text) (now : ℕ)
      → step r (arrives id caller name modem channel now)
        ≡ store (arrived_call id caller name modem channel now) r.metrics r
  unfolding step
  step-arrives r id caller name modem channel now =
      ap (λ p. p.1) (create_incoming_lem r id caller name modem channel now)

  pub create_outgoing-internal :
      (r : CallRegistry P) (o : Outgoing) (now : ℕ)
      → o.modem_required ≡ false
      → create_outgoing r o now ≡ (ok (placed_call o [] now), placed r o [] (codes "none") now)
  unfolding create_outgoing
  create_outgoing-internal r o now h =
      let e : create_outgoing r o now ≡ place r o [] (codes "none") now = simp h in
      e ∙ place_lem r o [] (codes "none") now

  -- Without a pool the counter decides.
  pub create_outgoing-busy :
      (r : CallRegistry P) (o : Outgoing) (now : ℕ)
      → o.modem_required ≡ true
      → r.modem_pool ≡ none
      → ltb 0 r.modems_reserved ≡ true
      → create_outgoing r o now ≡ (err (modem_busy busy), r)
  unfolding create_outgoing place_on_modem
  create_outgoing-busy r o now h pool reserved = simp (h, pool, reserved)

  pub create_outgoing-direct :
      (r : CallRegistry P) (o : Outgoing) (now : ℕ)
      → o.modem_required ≡ true
      → r.modem_pool ≡ none
      → ltb 0 r.modems_reserved ≡ false
      → create_outgoing r o now
        ≡ (ok (placed_call o o.modem_id now), placed r o o.modem_id (codes "direct") now)
  unfolding create_outgoing place_on_modem
  create_outgoing-direct r o now h pool free =
      let e : create_outgoing r o now ≡ place r o o.modem_id (codes "direct") now =
        simp (h, pool, free) in
      e ∙ place_lem r o o.modem_id (codes "direct") now

  pub create_outgoing-pooled :
      (r : CallRegistry P) (o : Outgoing) (pool : ModemPool P) (now : ℕ)
      → o.modem_required ≡ true
      → r.modem_pool ≡ some pool
      → create_outgoing r o now ≡ place_selected r o (select_for_call pool) now
  unfolding create_outgoing place_on_modem
  create_outgoing-pooled r o pool now h e = simp (h, e)

  pub cleanup-absent : (r : CallRegistry P) (id : Text) → get id r.calls ≡ none → cleanup r id ≡ r
  unfolding cleanup
  cleanup-absent r id h = rw (h, cleanup)

  pub cleanup-idle :
      (r : CallRegistry P) (id : Text) (c : CallMachine)
      → get id r.calls ≡ some c
      → holds_modem c ≡ false
      → cleanup r id ≡ record r { calls = remove id r.calls }
  unfolding cleanup
  cleanup-idle r id c h k = rw (h, cleanup, k)

  pub cleanup-holding :
      (r : CallRegistry P) (id : Text) (c : CallMachine)
      → get id r.calls ≡ some c
      → holds_modem c ≡ true
      → cleanup r id ≡ release_modem c r.modem_pool (record r { calls = remove id r.calls })
  unfolding cleanup
  cleanup-holding r id c h k = rw (h, cleanup, k)

  pub cleanup-direct :
      (r : CallRegistry P) (id : Text) (c : CallMachine)
      → get id r.calls ≡ some c
      → holds_modem c ≡ true
      → r.modem_pool ≡ none
      → cleanup r id
        ≡ record r { calls = remove id r.calls; modems_reserved = r.modems_reserved - 1 }
  unfolding release_modem
  cleanup-direct r id c h k pool =
      cleanup-holding r id c h k
      ∙ ap (λ p. release_modem c p (record r { calls = remove id r.calls })) pool

-- The operations that neither create nor remove a call.
abbrev pub Keeping : {P : Type 0} → Event P → Type 0
Keeping (arrives id caller name modem channel now) = ⊥
Keeping (dials o now) = ⊥
Keeping (cleans id) = ⊥
Keeping (device change) = ⊥
Keeping _ = Unit

module _ {P : Type 0} ⦃i : Provider P⦄ where
  pub step-SameLegs : (r : CallRegistry P) (e : Event P) → Keeping e → SameLegs r (step r e)
  unfolding step answer_gsm dial_gsm hangup reject gsm_error
  step-SameLegs r (arrives id caller name modem channel now) h = absurd h
  step-SameLegs r (dials o now) h = absurd h
  step-SameLegs r (cleans id) h = absurd h
  step-SameLegs r (device change) h = absurd h
  step-SameLegs r (Trace.moves id s now) h = transition-SameLegs r id s now
  step-SameLegs r (Trace.answers id channel now) h =
      transition_update-SameLegs r id _ channel _ now
        (λ c. record { direction = refl; modem_id = refl; call_id = refl })
  step-SameLegs r (Trace.dials_gsm id channel now) h =
      transition_update-SameLegs r id _ channel _ now
        (λ c. record { direction = refl; modem_id = refl; call_id = refl })
  step-SameLegs r (Trace.hangs_up id reason now) h =
      transition_update-SameLegs r id _ reason _ now
        (λ c. record { direction = refl; modem_id = refl; call_id = refl })
  step-SameLegs r (Trace.rejects id reason now) h =
      transition_update-SameLegs r id _ reason _ now
        (λ c. record { direction = refl; modem_id = refl; call_id = refl })
  step-SameLegs r (Trace.fails id reason now) h =
      transition_update-SameLegs r id _ reason _ now
        (λ c. record { direction = refl; modem_id = refl; call_id = refl })
  step-SameLegs r (Trace.sets_bridge_leg id channel) h = set_bridge_leg-SameLegs r id channel
  step-SameLegs r (Trace.sets_telegram_call id tg) h = set_telegram_call_id-SameLegs r id tg
  step-SameLegs r (Trace.sets_gsm_channel id channel) h =
      update_call-SameLegs r id _
        (λ c. record { direction = refl; modem_id = refl; call_id = refl })
  step-SameLegs r (Trace.fast_forwards id now) h = fast_forward_bridged-SameLegs r id now
  step-SameLegs r (Trace.terminates reason now) h = terminate_bridged_calls-SameLegs r reason now
