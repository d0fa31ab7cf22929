-- ===== src/CallControl/Accounting/Keyed.antt =====
-- core/call_control.py, `CallRegistry`: every call is stored once, under its own identifier.
use sim_bridge.Prelude.{
  ℕ, Text, text_Comparable, text_eq, text_eq_iff, [], Option, none, some, ◌≡◌, refl, ap, sym, ◌∙◌,
  ◌⊎◌, inl, inr, arith, Bool-cases, Option-cases, ltb,
}
use sim_bridge.Dict.{get, put, remove}
use sim_bridge.Dict.Laws.{get-put, get-remove}
use sim_bridge.Dict.Counts.{Unique, put-Unique, remove-Unique, remove_absent}
use sim_bridge.Metrics.{MetricsCollector}
use sim_bridge.Modem.{ModemInfo}
use sim_bridge.Modem.Routing.{Selection, returned, not_implemented}
use sim_bridge.Modem.Pool.{Provider, ModemPool, select_for_call, strategy_name}
use sim_bridge.CallControl.Machine.{CallMachine}
use sim_bridge.CallControl.Registry.{
  CallRegistry, Outgoing, Result, CallError, ok, err, create_outgoing, place_selected, cleanup,
  release_modem, holds_modem, new_registry,
}
use sim_bridge.CallControl.Trace.{Event, step, arrives, dials, cleans, device, Sound}
use sim_bridge.CallControl.Accounting.{
  step-SameLegs, step-arrives, place_lem, placed_call, arrived_call, create_outgoing-internal,
  create_outgoing-pooled, create_outgoing-busy, create_outgoing-direct, cleanup-absent,
  cleanup-idle, cleanup-holding,
}

-- No key stands twice, and a call that is found under a key has it as its identifier.
pub record IsKeyed {P : Type 0} (r : CallRegistry P) : Type 0 where
  pub unique : Unique r.calls
  pub own : (k : Text) (c : CallMachine) → get k r.calls ≡ some c → c.call_id ≡ k

module _ {P : Type 0} where
  -- `create_outgoing` either fails and leaves the calls, or stores the call that it returns.
  abbrev pub Made : Outgoing → ℕ → CallRegistry P → Result CallMachine × CallRegistry P → Type 0
  Made o now r (made, s) =
      ((e : CallError) × ((made ≡ err e) × (s.calls ≡ r.calls)))
      ⊎ ((modem_id : Text) × ((made ≡ ok (placed_call o modem_id now))
            × (s.calls ≡ put o.call_id (placed_call o modem_id now) r.calls)))

  put-Keyed :
      (r s : CallRegistry P) (c : CallMachine)
      → s.calls ≡ put c.call_id c r.calls
      → IsKeyed r
      → IsKeyed s
  put-Keyed r s c e h = record {
    unique = rw e (put-Unique c.call_id c r.calls h.unique);
    own = λ k d g.
        let found : get k (put c.call_id c r.calls) ≡ some d = rw (sym e) g in
        elim (Bool-cases (text_eq c.call_id k)) [
          | inl f ↦ ground (arith, get-put c.call_id k c r.calls, text_eq_iff c.call_id k)
          | inr f ↦ h.own k d (ground (arith, get-put c.call_id k c r.calls))
        ];
  }

  pub cleanup-calls :
      ⦃i : Provider P⦄ (r : CallRegistry P) (id : Text) → (cleanup r id).calls ≡ remove id r.calls
  unfolding cleanup release_modem
  cleanup-calls r id = elim (Option-cases (get id r.calls)) [
    | inl e ↦ rw (cleanup-absent r id e) (sym (remove_absent id r.calls e))
    | inr (c, e) ↦ elim (Bool-cases (holds_modem c)) [
      | inr f ↦ rw (cleanup-idle r id c e f) refl
      | inl f ↦ elim (Option-cases r.modem_pool) [
        | inl g ↦ rw (cleanup-holding r id c e f, g) refl
        | inr (pool, g) ↦ rw (cleanup-holding r id c e f, g) refl
      ]
    ]
  ]

  pub new-Keyed :
      (pool : Option (ModemPool P)) (metrics : Option MetricsCollector)
      → IsKeyed (new_registry pool metrics)
  unfolding get
  new-Keyed pool metrics = record { unique = tt; own = λ k c h. cc h }

module _ {P : Type 0} ⦃i : Provider P⦄ where
  place_selected-Made :
      (r : CallRegistry P) (o : Outgoing) (now : ℕ)
      (selection : Selection (ModemPool P × Option ModemInfo))
      → Made o now r (place_selected r o selection now)
  unfolding place_selected
  place_selected-Made r o now not_implemented = inl (_, (refl, refl))
  place_selected-Made r o now (returned (after, none)) = inl (_, (refl, refl))
  place_selected-Made r o now (returned (after, some m)) =
      rw (place_lem (record r { modem_pool = some after }) o m.modem_id (strategy_name after) now)
        (inr (m.modem_id, (refl, refl)))

  pub create_outgoing-Made :
      (r : CallRegistry P) (o : Outgoing) (now : ℕ) → Made o now r (create_outgoing r o now)
  create_outgoing-Made r o now = elim (Bool-cases o.modem_required) [
    | inr e ↦ rw (create_outgoing-internal r o now e) (inr ([], (refl, refl)))
    | inl e ↦ elim (Option-cases r.modem_pool) [
      | inr (pool, p) ↦
          rw (create_outgoing-pooled r o pool now e p)
            (place_selected-Made r o now (select_for_call pool))
      | inl p ↦ elim (Bool-cases (ltb 0 r.modems_reserved)) [
        | inl f ↦ rw (create_outgoing-busy r o now e p f) (inl (_, (refl, refl)))
        | inr f ↦ rw (create_outgoing-direct r o now e p f) (inr (o.modem_id, (refl, refl)))
      ]
    ]
  ]

  pub step-Keyed : (r : CallRegistry P) (e : Event P) → Sound r e → IsKeyed r → IsKeyed (step r e)
  unfolding step
  step-Keyed r (arrives id caller name modem channel now) s h =
      put-Keyed r (step r (arrives id caller name modem channel now))
        (arrived_call id caller name modem channel now)
        (ap (λ t. t.calls) (step-arrives r id caller name modem channel now)) h
  step-Keyed r (dials o now) s h = elim (create_outgoing-Made r o now) [
    | inl (e, (_, same)) ↦ record {
      unique = rw same h.unique;
      own = λ k c g. h.own k c (rw (sym same) g);
    }
    | inr (m, (_, stored)) ↦ put-Keyed r (create_outgoing r o now).1 (placed_call o m now) stored h
  ]
  step-Keyed r (cleans id) s h = record {
    unique = rw (cleanup-calls r id) (remove-Unique id r.calls h.unique);
    own = λ k c g. h.own k c (ground (arith, cleanup-calls r id, get-remove id k r.calls));
  }
  step-Keyed r (device change) s h = record { unique = h.unique; own = h.own }
  step-Keyed r e s h =
      let same = step-SameLegs r e tt in
      record {
        unique = same.unique h.unique;
        own = λ k c g. let (d, found) = same.ids k c g in found.1 ∙ h.own k d found.0;
      }
