-- ===== src/CallControl/Creation.antt =====
-- core/call_control.py, `create_outgoing` over a modem pool: its outcomes.
use mathlib.Core.Path.{subst₂}
use sim_bridge.Prelude.{
  ℕ, text_Comparable, text_eq_iff, true, false, Option, none, some, ◌≡◌, ◌≢◌, refl, sym, ap, ◌∙◌,
  arith, if◌then◌else◌, Bool-cases, Option-cases, inl, inr, contains, contains-add, Member, ltb,
}
use sim_bridge.Dict.{get}
use sim_bridge.Dict.Laws.{get-put_self}
use sim_bridge.Modem.{ModemInfo, is_available_state}
use sim_bridge.Modem.Routing.{Selection, returned, not_implemented}
use sim_bridge.Modem.Pool.{
  Provider, ModemPool, select_for_call, is_all_busy, all_offline, strategy_name,
}
use sim_bridge.Modem.Pool.Reservation.{Reserved, select_for_call-Reserved}
use sim_bridge.Modem.Pool.Busy.{is_all_busy_iff}
use sim_bridge.CallControl.State
use sim_bridge.CallControl.Machine.{CallMachine}
use sim_bridge.CallControl.Registry.{
  CallRegistry, Outgoing, ok, err, invalid_transition, modem_busy, busy, offline, create_outgoing,
  place_selected,
}
use sim_bridge.CallControl.Accounting.{
  place_lem, placed, placed_call, create_outgoing-internal, create_outgoing-pooled,
  create_outgoing-busy, create_outgoing-direct,
}

module _ {P : Type 0} ⦃i : Provider P⦄ where
  -- When no modem of the pool is available, create_outgoing refuses a call that needs one with
  -- the reason "offline" if every modem is offline and "busy" otherwise, and leaves the registry
  -- as it was.
  pub create_outgoing-all_busy :
      (r : CallRegistry P) (o : Outgoing) (pool : ModemPool P) (now : ℕ)
      → o.modem_required ≡ true
      → r.modem_pool ≡ some pool
      → is_all_busy pool ≡ true
      → create_outgoing r o now ≡ (
        err (modem_busy (if all_offline pool then offline else busy)),
        record r { modem_pool = some pool },
      )
  unfolding place_selected
  create_outgoing-all_busy r o pool now h e full =
      create_outgoing-pooled r o pool now h e
      ∙ ap (λ s. place_selected r o s now) ((is_all_busy_iff pool).0 full)

  -- What `create_outgoing` promises of a call that it returns.
  pub record Placed (r s : CallRegistry P) (o : Outgoing) (pool : ModemPool P) (c : CallMachine)
      : Type 0 where
    pub reserved_state : c.state ≡ State.modem_reserved
    pub stored : get o.call_id s.calls ≡ some c
    pub chosen : ModemInfo
    pub listed : Member chosen (Provider.list_modems i pool.provider)
    pub available : is_available_state chosen.state ≡ true
    pub carried_by : c.modem_id ≡ chosen.modem_id
    pub was_free : contains c.modem_id pool.reserved ≡ false
    pub after : ModemPool P
    pub pool_after : s.modem_pool ≡ some after
    pub now_reserved : contains c.modem_id after.reserved ≡ true

  placed-Placed :
      (r : CallRegistry P) (o : Outgoing) (pool after : ModemPool P) (m : ModemInfo) (now : ℕ)
      → Reserved pool after m
      → Placed r
          (placed (record r { modem_pool = some after }) o m.modem_id (strategy_name after) now)
          o
          pool
          (placed_call o m.modem_id now)
  placed-Placed r o pool after m now v = record {
    reserved_state = refl;
    stored = get-put_self o.call_id (placed_call o m.modem_id now) r.calls;
    chosen = m;
    listed = v.listed;
    available = v.was_ready;
    carried_by = refl;
    was_free = v.was_free;
    after = after;
    pool_after = refl;
    now_reserved = ground (
      arith,
      v.now_reserved,
      contains-add m.modem_id m.modem_id pool.reserved,
      text_eq_iff m.modem_id m.modem_id,
    );
  }

  selected-Placed :
      (r s : CallRegistry P) (o : Outgoing) (pool : ModemPool P) (c : CallMachine) (now : ℕ)
      (selection : Selection (ModemPool P × Option ModemInfo))
      → select_for_call pool ≡ selection
      → place_selected r o selection now ≡ (ok c, s)
      → Placed r s o pool c
  unfolding place_selected
  selected-Placed r s o pool c now not_implemented e h = cc h
  selected-Placed r s o pool c now (returned (after, none)) e h = cc h
  selected-Placed r s o pool c now (returned (after, some m)) e h =
      let v = select_for_call-Reserved pool after m e in
      let q =
        sym
          (place_lem (record r { modem_pool = some after }) o m.modem_id (strategy_name after) now)
        ∙ h in
      subst₂ (λ t d. Placed r t o pool d) (ap (λ t. t.1) q) (cc q)
        (placed-Placed r o pool after m now v)

  -- A call that needs a modem and that create_outgoing returns is stored in the state
  -- MODEM_RESERVED and carried by a modem that the provider listed, READY and not reserved, and
  -- that is reserved in the pool afterwards.
  pub create_outgoing-Placed :
      (r s : CallRegistry P) (o : Outgoing) (pool : ModemPool P) (c : CallMachine) (now : ℕ)
      → o.modem_required ≡ true
      → r.modem_pool ≡ some pool
      → create_outgoing r o now ≡ (ok c, s)
      → Placed r s o pool c
  create_outgoing-Placed r s o pool c now h e made =
      selected-Placed r s o pool c now (select_for_call pool) refl
        (sym (create_outgoing-pooled r o pool now h e) ∙ made)

  place_selected-ne-invalid :
      (r : CallRegistry P) (o : Outgoing) (now : ℕ)
      (selection : Selection (ModemPool P × Option ModemInfo))
      → (place_selected r o selection now).0 ≢ err invalid_transition
  unfolding place_selected
  place_selected-ne-invalid r o now not_implemented h = cc h
  place_selected-ne-invalid r o now (returned (after, none)) h = cc h
  place_selected-ne-invalid r o now (returned (after, some m)) h = cc (
    h,
    ap (λ t. t.0)
        (place_lem (record r { modem_pool = some after }) o m.modem_id (strategy_name after) now),
  )

  -- Whatever the registry, create_outgoing never fails by InvalidTransition.
  pub create_outgoing-ne-invalid :
      (r : CallRegistry P) (o : Outgoing) (now : ℕ)
      → (create_outgoing r o now).0 ≢ err invalid_transition
  create_outgoing-ne-invalid r o now h = elim (Bool-cases o.modem_required) [
    | inr e ↦ cc (h, ap (λ t. t.0) (create_outgoing-internal r o now e))
    | inl e ↦ elim (Option-cases r.modem_pool) [
      | inr (pool, p) ↦
          place_selected-ne-invalid r o now (select_for_call pool)
            (sym (ap (λ t. t.0) (create_outgoing-pooled r o pool now e p)) ∙ h)
      | inl p ↦ elim (Bool-cases (ltb 0 r.modems_reserved)) [
        | inl f ↦ cc (h, ap (λ t. t.0) (create_outgoing-busy r o now e p f))
        | inr f ↦ cc (h, ap (λ t. t.0) (create_outgoing-direct r o now e p f))
      ]
    ]
  ]
