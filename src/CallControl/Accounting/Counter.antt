-- ===== src/CallControl/Accounting/Counter.antt =====
-- core/call_control.py, `CallRegistry` without a modem pool: the counter of reserved modems.
use sim_bridge.Prelude.{
  codes, ℕ, ◌+◌, ◌-◌, ◌≤◌, ltb, Text, text_Comparable, is_empty, true, false, not, List, [], ◌∷◌,
  Option, none, some, ◌≡◌, ◌≢◌, refl, sym, ap, subst, ◌∙◌, arith, if◌then◌else◌, Bool-cases,
  Option-cases, inl, inr,
}
use sim_bridge.Dict.{get, put, remove}
use sim_bridge.Dict.Counts.{Unique, put-Unique, remove-Unique, count_if-put, count_if-remove}
use sim_bridge.Metrics.{MetricsCollector}
use sim_bridge.Modem.Pool.{Provider}
use sim_bridge.CallControl.Machine.{CallMachine}
use sim_bridge.CallControl.Registry.{
  CallRegistry, Outgoing, holds, holds_modem, release_modem, new_registry,
}
use sim_bridge.CallControl.Trace.{
  Event, step, run, arrives, dials, cleans, device, Sound, AllSound, change_device,
}
use sim_bridge.CallControl.Legs.{legs_count}
use sim_bridge.CallControl.Accounting.{
  create_outgoing-internal, create_outgoing-direct, create_outgoing-busy, cleanup-absent,
  cleanup-idle, cleanup-direct, Keeping, step-SameLegs, step-arrives, placed, placed_call,
  arrived_call,
}

-- The counter is the number of outgoing calls that hold the modem, and there is one modem.
pub record Counted {P : Type 0} (r : CallRegistry P) : Type 0 where
  pub no_pool : r.modem_pool ≡ none
  pub unique : Unique r.calls
  pub count : legs_count holds r.calls ≡ r.modems_reserved
  pub bound : r.modems_reserved ≤ 1

not_empty : (t : Text) → t ≢ [] → is_empty t ≡ false
not_empty [] h = absurd (h refl)
not_empty (c ∷ t) h = refl

module _ {P : Type 0} ⦃i : Provider P⦄ where
  Keeping-Counted : (r : CallRegistry P) (e : Event P) → Keeping e → Counted r → Counted (step r e)
  Keeping-Counted r e k v =
      let same = step-SameLegs r e k in
      record {
        no_pool = same.pool ∙ v.no_pool;
        unique = same.unique v.unique;
        count = ground (arith, same.legs holds, same.counter, v.count);
        bound = ground (arith, same.counter, v.bound);
      }

  arrives-Counted :
      (r : CallRegistry P) (id caller : Text) (name : Option Text) (modem : Text)
      (channel : Option Text) (now : ℕ)
      → get id r.calls ≡ none
      → Counted r
      → Counted (step r (arrives id caller name modem channel now))
  arrives-Counted r id caller name modem channel now fresh v =
      let c = arrived_call id caller name modem channel now in
      rw (step-arrives r id caller name modem channel now) (record {
        no_pool = v.no_pool;
        unique = put-Unique id c r.calls v.unique;
        count = ground (arith, count_if-put holds_modem id c r.calls, v.count);
        bound = v.bound;
      })

  placed-Counted :
      (r : CallRegistry P) (o : Outgoing) (modem_id policy : Text) (now : ℕ)
      → get o.call_id r.calls ≡ none
      → (is_empty modem_id ≡ not o.modem_required)
      → (o.modem_required ≡ true → r.modems_reserved ≡ 0)
      → Counted r
      → Counted (placed r o modem_id policy now)
  placed-Counted r o modem_id policy now fresh named free v = record {
    no_pool = v.no_pool;
    unique = put-Unique o.call_id c r.calls v.unique;
    count = ground (arith, counted, v.count, v.no_pool);
    bound = ground (arith, v.bound, v.no_pool);
  }
    where
      c : CallMachine
      c = placed_call o modem_id now

      counted :
          legs_count holds (put o.call_id c r.calls)
          ≡ legs_count holds r.calls + (if o.modem_required then 1 else 0)
      counted = ground (arith, count_if-put holds_modem o.call_id c r.calls)

  dials-Counted :
      (r : CallRegistry P) (o : Outgoing) (now : ℕ)
      → get o.call_id r.calls ≡ none
      → o.modem_id ≢ []
      → Counted r
      → Counted (step r (dials o now))
  unfolding step
  dials-Counted r o now fresh named v = elim (Bool-cases o.modem_required) [
    | inr e ↦
        subst (λ t. Counted t.1) (sym (create_outgoing-internal r o now e))
          (placed-Counted r o [] (codes "none") now fresh (ground arith) (λ t. ground arith) v)
    | inl e ↦ elim (Bool-cases (ltb 0 r.modems_reserved)) [
      | inl f ↦ subst (λ t. Counted t.1) (sym (create_outgoing-busy r o now e v.no_pool f)) v
      | inr f ↦
          subst (λ t. Counted t.1) (sym (create_outgoing-direct r o now e v.no_pool f))
            (placed-Counted r o o.modem_id (codes "direct") now fresh
              (not_empty o.modem_id named ∙ simp e) (λ t. ground arith) v)
    ]
  ]

  removed-Counted :
      (r : CallRegistry P) (id : Text) (c : CallMachine)
      → get id r.calls ≡ some c
      → Counted r
      → Counted (record r {
        calls = remove id r.calls;
        modems_reserved = if holds_modem c then r.modems_reserved - 1 else r.modems_reserved;
      })
  removed-Counted r id c h v = record {
    no_pool = v.no_pool;
    unique = remove-Unique id r.calls v.unique;
    count = ground (arith, count_if-remove holds_modem id r.calls v.unique, v.count);
    bound = ground (arith, v.bound);
  }

  cleans-Counted : (r : CallRegistry P) (id : Text) → Counted r → Counted (step r (cleans id))
  unfolding step release_modem
  cleans-Counted r id v = elim (Option-cases (get id r.calls)) [
    | inl e ↦ subst Counted (sym (cleanup-absent r id e)) v
    | inr (c, e) ↦ elim (Bool-cases (holds_modem c)) [
      | inr f ↦
          subst Counted (sym (cleanup-idle r id c e f)) (simp f at (removed-Counted r id c e v))
      | inl f ↦
          subst Counted (sym (cleanup-direct r id c e f v.no_pool))
            (simp f at (removed-Counted r id c e v))
    ]
  ]

  device-Counted :
      (r : CallRegistry P) (change : P → P) → Counted r → Counted (step r (device change))
  unfolding step
  device-Counted r change v = record {
    no_pool = ap (change_device change) v.no_pool;
    unique = v.unique;
    count = v.count;
    bound = v.bound;
  }

  step-Counted : (r : CallRegistry P) (e : Event P) → Sound r e → Counted r → Counted (step r e)
  step-Counted r (arrives id caller name modem channel now) s v =
      arrives-Counted r id caller name modem channel now s v
  step-Counted r (dials o now) s v = dials-Counted r o now s.0 s.1 v
  step-Counted r (cleans id) s v = cleans-Counted r id v
  step-Counted r (device change) s v = device-Counted r change v
  step-Counted r e s v = Keeping-Counted r e tt v

  run_from-Counted :
      (r : CallRegistry P) (es : List (Event P)) → AllSound r es → Counted r → Counted (run r es)
  unfolding run
  run_from-Counted r [] s v = v
  run_from-Counted r (e ∷ es) s v = run_from-Counted (step r e) es s.1 (step-Counted r e s.0 v)

  -- From an empty registry without a modem pool, after any operations with fresh call identifiers
  -- in which every dialled call names a modem, the counter of reserved modems is the number of
  -- outgoing calls that hold the modem, and it is at most one.
  pub run-Counted :
      (metrics : Option MetricsCollector) (es : List (Event P))
      → AllSound (new_registry none metrics) es
      → Counted (run (new_registry none metrics) es)
  run-Counted metrics es s =
      run_from-Counted (new_registry none metrics) es s
        (record { no_pool = refl; unique = tt; count = refl; bound = omega arith })
