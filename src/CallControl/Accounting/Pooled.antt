-- ===== src/CallControl/Accounting/Pooled.antt =====
-- core/call_control.py, `CallRegistry` over a modem pool: no modem carries two calls.
use sim_bridge.Prelude.{
  codes, ℕ, ◌≤◌, Text, text_Comparable, text_eq, text_eq_iff, Bool, true, ◌&&◌, List, [], ◌∷◌,
  Option, none, some, ◌≡◌, refl, sym, ap, subst, ◌∙◌, arith, if◌then◌else◌, Bool-cases,
  Option-cases, inl, inr, contains, contains-add, contains-discard,
}
use sim_bridge.Dict.{get, remove}
use sim_bridge.Dict.Counts.{Unique, put-Unique, remove-Unique, count_if-put, count_if-remove}
use sim_bridge.Metrics.{MetricsCollector, Direction}
use sim_bridge.Modem.{ModemInfo}
use sim_bridge.Modem.Routing.{Selection, returned, not_implemented}
use sim_bridge.Modem.Pool.{Provider, ModemPool, select_for_call, release, strategy_name}
use sim_bridge.Modem.Pool.Reservation.{Reserved, select_for_call-Reserved, contains-select_for_call}
use sim_bridge.CallControl.Machine.{CallMachine}
use sim_bridge.CallControl.Registry.{
  CallRegistry, Outgoing, holds, holds_modem, place_selected, release_modem, new_registry,
}
use sim_bridge.CallControl.Trace.{
  Event, step, run, arrives, dials, cleans, device, New, AllNew, change_device,
}
use sim_bridge.CallControl.Legs.{legs_count}
use sim_bridge.CallControl.Accounting.{
  Keeping, step-SameLegs, step-arrives, place_lem, placed_call, arrived_call,
  create_outgoing-internal, create_outgoing-pooled, cleanup-absent, cleanup-idle, cleanup-holding,
  placed,
}

-- An outgoing call that holds the modem `id`.
abbrev pub holds_id : Text → Direction → Text → Bool
holds_id id direction modem_id = holds direction modem_id && text_eq modem_id id

-- At most one call holds a modem, and only a reserved one. `pool` is the registry's pool.
pub record Exclusive {P : Type 0} (r : CallRegistry P) (pool : ModemPool P) : Type 0 where
  pub pooled : r.modem_pool ≡ some pool
  pub unique : Unique r.calls
  pub one :
      (id : Text) → legs_count (holds_id id) r.calls ≤ (if contains id pool.reserved then 1 else 0)

-- The same of the pool that the registry has, whichever it is.
abbrev pub IsExclusive : {P : Type 0} → CallRegistry P → Type 0
IsExclusive {P} r = (pool : ModemPool P) × Exclusive r pool

module _ {P : Type 0} ⦃i : Provider P⦄ where
  Keeping-Exclusive :
      (r : CallRegistry P) (e : Event P) → Keeping e → IsExclusive r → IsExclusive (step r e)
  Keeping-Exclusive r e k (pool, v) =
      let same = step-SameLegs r e k in
      (
        pool,
        record {
          pooled = same.pool ∙ v.pooled;
          unique = same.unique v.unique;
          one = λ id. ground (arith, same.legs (holds_id id), v.one id);
        },
      )

  arrives-Exclusive :
      (r : CallRegistry P) (id caller : Text) (name : Option Text) (modem : Text)
      (channel : Option Text) (now : ℕ)
      → get id r.calls ≡ none
      → IsExclusive r
      → IsExclusive (step r (arrives id caller name modem channel now))
  arrives-Exclusive r id caller name modem channel now fresh (pool, v) =
      let c = arrived_call id caller name modem channel now in
      rw (step-arrives r id caller name modem channel now) (
        pool,
        record {
          pooled = v.pooled;
          unique = put-Unique id c r.calls v.unique;
          one = λ j.
              ground (
                arith,
                count_if-put (λ d. holds_id j d.direction d.modem_id) id c r.calls,
                v.one j,
              );
        },
      )

  internal-Exclusive :
      (r : CallRegistry P) (o : Outgoing) (now : ℕ)
      → get o.call_id r.calls ≡ none
      → IsExclusive r
      → IsExclusive (placed r o [] (codes "none") now)
  internal-Exclusive r o now fresh (pool, v) = (
    pool,
    record {
      pooled = v.pooled;
      unique = put-Unique o.call_id (placed_call o [] now) r.calls v.unique;
      one = λ j. ground (
        arith,
        count_if-put (λ d. holds_id j d.direction d.modem_id) o.call_id (placed_call o [] now)
            r.calls,
        v.one j,
      );
    },
  )

  -- A modem that the pool has just reserved carried no call.
  selected-Exclusive :
      (r : CallRegistry P) (o : Outgoing) (pool after : ModemPool P) (m : ModemInfo) (now : ℕ)
      → get o.call_id r.calls ≡ none
      → Exclusive r pool
      → Reserved pool after m
      → Exclusive
          (placed (record r { modem_pool = some after }) o m.modem_id (strategy_name after) now)
          after
  selected-Exclusive r o pool after m now fresh v chosen = record {
    pooled = refl;
    unique = put-Unique o.call_id (placed_call o m.modem_id now) r.calls v.unique;
    one = λ j. ground (
      arith,
      count_if-put (λ d. holds_id j d.direction d.modem_id) o.call_id (placed_call o m.modem_id now)
          r.calls,
      v.one j,
      contains-add m.modem_id j pool.reserved,
      text_eq_iff m.modem_id j,
      chosen.now_reserved,
      chosen.was_free,
    );
  }

  refused-Exclusive :
      (r : CallRegistry P) (pool after : ModemPool P)
      → Exclusive r pool
      → select_for_call pool ≡ returned (after, none)
      → Exclusive (record r { modem_pool = some after }) after
  refused-Exclusive r pool after v h = record {
    pooled = refl;
    unique = v.unique;
    one = λ j. elim (Bool-cases (contains j pool.reserved)) [
      | inl e ↦ ground (arith, v.one j, contains-select_for_call pool after none j e h)
      | inr e ↦ ground (arith, v.one j)
    ];
  }

  place_selected-Exclusive :
      (r : CallRegistry P) (o : Outgoing) (pool : ModemPool P) (now : ℕ)
      (s : Selection (ModemPool P × Option ModemInfo))
      → get o.call_id r.calls ≡ none
      → Exclusive r pool
      → select_for_call pool ≡ s
      → IsExclusive (place_selected r o s now).1
  unfolding place_selected
  place_selected-Exclusive r o pool now not_implemented fresh v e = (pool, v)
  place_selected-Exclusive r o pool now (returned (after, none)) fresh v e =
      (after, refused-Exclusive r pool after v e)
  place_selected-Exclusive r o pool now (returned (after, some m)) fresh v e =
      subst (λ t. IsExclusive t.1)
        (sym
          (place_lem (record r { modem_pool = some after }) o m.modem_id (strategy_name after) now))
        (
          after,
          selected-Exclusive r o pool after m now fresh v (select_for_call-Reserved pool after m e),
        )

  dials-Exclusive :
      (r : CallRegistry P) (o : Outgoing) (now : ℕ)
      → get o.call_id r.calls ≡ none
      → IsExclusive r
      → IsExclusive (step r (dials o now))
  unfolding step
  dials-Exclusive r o now fresh (pool, v) = elim (Bool-cases o.modem_required) [
    | inr e ↦
        subst (λ t. IsExclusive t.1) (sym (create_outgoing-internal r o now e))
          (internal-Exclusive r o now fresh (pool, v))
    | inl e ↦
        subst (λ t. IsExclusive t.1) (sym (create_outgoing-pooled r o pool now e v.pooled))
          (place_selected-Exclusive r o pool now (select_for_call pool) fresh v refl)
  ]

  removed-Exclusive :
      (r : CallRegistry P) (pool : ModemPool P) (id : Text) (c : CallMachine)
      → get id r.calls ≡ some c
      → holds_modem c ≡ true
      → Exclusive r pool
      → Exclusive
          (record r { calls = remove id r.calls; modem_pool = some (release pool c.modem_id) })
          (release pool c.modem_id)
  unfolding release
  removed-Exclusive r pool id c h k v = record {
    pooled = refl;
    unique = remove-Unique id r.calls v.unique;
    one = λ j. ground (
      arith,
      count_if-remove (λ d. holds_id j d.direction d.modem_id) id r.calls v.unique,
      v.one j,
      contains-discard c.modem_id j pool.reserved,
      text_eq_iff c.modem_id j,
    );
  }

  idle-Exclusive :
      (r : CallRegistry P) (pool : ModemPool P) (id : Text)
      → Exclusive r pool
      → Exclusive (record r { calls = remove id r.calls }) pool
  idle-Exclusive r pool id v = record {
    pooled = v.pooled;
    unique = remove-Unique id r.calls v.unique;
    one = λ j. ground (
      arith,
      count_if-remove (λ d. holds_id j d.direction d.modem_id) id r.calls v.unique,
      v.one j,
    );
  }

  cleans-Exclusive :
      (r : CallRegistry P) (id : Text) → IsExclusive r → IsExclusive (step r (cleans id))
  unfolding step release_modem
  cleans-Exclusive r id (pool, v) = elim (Option-cases (get id r.calls)) [
    | inl e ↦ subst IsExclusive (sym (cleanup-absent r id e)) (pool, v)
    | inr (c, e) ↦ elim (Bool-cases (holds_modem c)) [
      | inr f ↦ subst IsExclusive (sym (cleanup-idle r id c e f)) (pool, idle-Exclusive r pool id v)
      | inl f ↦
          subst IsExclusive
            (sym (
              cleanup-holding r id c e f
              ∙ ap (λ p. release_modem c p (record r { calls = remove id r.calls })) v.pooled))
            (release pool c.modem_id, removed-Exclusive r pool id c e f v)
    ]
  ]

  device-Exclusive :
      (r : CallRegistry P) (change : P → P) → IsExclusive r → IsExclusive (step r (device change))
  unfolding step
  device-Exclusive r change (pool, v) = (
    record pool { provider = change pool.provider },
    record { pooled = ap (change_device change) v.pooled; unique = v.unique; one = v.one },
  )

  pub step-Exclusive :
      (r : CallRegistry P) (e : Event P) → New r e → IsExclusive r → IsExclusive (step r e)
  step-Exclusive r (arrives id caller name modem channel now) s v =
      arrives-Exclusive r id caller name modem channel now s v
  step-Exclusive r (dials o now) s v = dials-Exclusive r o now s v
  step-Exclusive r (cleans id) s v = cleans-Exclusive r id v
  step-Exclusive r (device change) s v = device-Exclusive r change v
  step-Exclusive r e s v = Keeping-Exclusive r e tt v

  run_from-Exclusive :
      (r : CallRegistry P) (es : List (Event P))
      → AllNew r es
      → IsExclusive r
      → IsExclusive (run r es)
  unfolding run
  run_from-Exclusive r [] s v = v
  run_from-Exclusive r (e ∷ es) s v =
      run_from-Exclusive (step r e) es s.1 (step-Exclusive r e s.0 v)

  pub new-Exclusive :
      (pool : ModemPool P) (metrics : Option MetricsCollector)
      → IsExclusive (new_registry (some pool) metrics)
  new-Exclusive pool metrics =
      (pool, record { pooled = refl; unique = tt; one = λ id. omega arith })

  -- From an empty registry over a modem pool of any provider and strategy, after any operations
  -- with fresh call identifiers and any device changes, at most one outgoing call of the registry
  -- holds a given modem, and a modem that a call holds is reserved in the pool.
  pub run-Exclusive :
      (pool : ModemPool P) (metrics : Option MetricsCollector) (es : List (Event P))
      → AllNew (new_registry (some pool) metrics) es
      → IsExclusive (run (new_registry (some pool) metrics) es)
  run-Exclusive pool metrics es s =
      run_from-Exclusive (new_registry (some pool) metrics) es s (new-Exclusive pool metrics)
