-- ===== src/Modem/Pool/Reservation.antt =====
-- core/modem.py, `ModemPool`: no modem is handed out twice.
use sim_bridge.Prelude.{
  Text, text_Comparable, true, false, not, List, [], ◌∷◌, Option, none, some, contains,
  contains-add, ◌&&◌, ◌≡◌, refl, arith, Member, Member-keep_if, ◌∙◌, add,
}
use sim_bridge.Modem.{ModemInfo, is_available_state}
use sim_bridge.Modem.Routing.{Strategy, Selection, returned, not_implemented, select}
use sim_bridge.Modem.Routing.Choice.{select-Member}
use sim_bridge.Modem.Pool.{
  Provider, ModemPool, get_available, select_and_reserve, reserve, select_for_sms, select_for_call,
  mark_call,
}

module _ {P : Type 0} ⦃i : Provider P⦄ where
  -- What a selection under the lock did to the pool.
  pub record Reserved (pool after : ModemPool P) (m : ModemInfo) : Type 0 where
    pub listed : Member m (i.list_modems pool.provider)
    pub was_ready : is_available_state m.state ≡ true
    pub was_free : contains m.modem_id pool.reserved ≡ false
    pub now_reserved : after.reserved ≡ add m.modem_id pool.reserved

  -- A successful selection, taken apart.
  select_and_reserve_inversion :
      (pool : ModemPool P) (x : ModemInfo) (xs : List ModemInfo) (after : ModemPool P)
      (m : ModemInfo) (r : Selection (Strategy × Option ModemInfo))
      → select pool.strategy (x ∷ xs) ≡ r
      → select_and_reserve pool (x ∷ xs) ≡ returned (after, some m)
      → (t : Strategy) × (select pool.strategy (x ∷ xs) ≡ returned (t, some m))
        × (after.reserved ≡ add m.modem_id pool.reserved)
  unfolding select_and_reserve reserve
  select_and_reserve_inversion pool x xs after m not_implemented e h = ground arith
  select_and_reserve_inversion pool x xs after m (returned (t, none)) e h = ground arith
  select_and_reserve_inversion pool x xs after m (returned (t, some n)) e h =
      (t, ground arith, ground arith)

  Member-get_available :
      (pool : ModemPool P) (m : ModemInfo)
      → Member m (get_available pool)
      → Member m (i.list_modems pool.provider)
        × (is_available_state m.state ≡ true)
        × (contains m.modem_id pool.reserved ≡ false)
  unfolding get_available
  Member-get_available pool m h = ground (
    arith,
    Member-keep_if (λ n. not (contains n.modem_id pool.reserved) && is_available_state n.state) m
        (i.list_modems pool.provider),
  )

  select_and_reserve-Reserved :
      (pool : ModemPool P) (offered : List ModemInfo) (after : ModemPool P) (m : ModemInfo)
      → get_available pool ≡ offered
      → select_and_reserve pool offered ≡ returned (after, some m)
      → Reserved pool after m
  select_and_reserve-Reserved pool [] after m e h = unfold select_and_reserve in ground arith
  select_and_reserve-Reserved pool (x ∷ xs) after m e h =
      let (t, chosen, kept) = select_and_reserve_inversion pool x xs after m _ refl h in
      let (in_list, is_ready, is_free) =
        Member-get_available pool m (rw e (select-Member pool.strategy t (x ∷ xs) m chosen)) in
      record { listed = in_list; was_ready = is_ready; was_free = is_free; now_reserved = kept }

  reserved-select_and_reserve :
      (pool : ModemPool P) (offered : List ModemInfo) (after : ModemPool P)
      (chosen : Option ModemInfo) (id : Text)
      → select_and_reserve pool offered ≡ returned (after, chosen)
      → contains id pool.reserved ≡ true
      → contains id after.reserved ≡ true
  unfolding select_and_reserve reserve
  reserved-select_and_reserve pool [] after chosen id h r = ground arith
  reserved-select_and_reserve pool (x ∷ xs) after none id h r = ground arith
  reserved-select_and_reserve pool (x ∷ xs) after (some m) id h r =
      ground (arith, contains-add m.modem_id id pool.reserved)

  -- A modem that `select_for_sms` returns is listed by the provider, READY and not reserved, and it
  -- is added to the reservations.
  pub select_for_sms-Reserved :
      (pool after : ModemPool P) (m : ModemInfo)
      → select_for_sms pool ≡ returned (after, some m)
      → Reserved pool after m
  select_for_sms-Reserved pool after m h =
      select_and_reserve-Reserved pool (get_available pool) after m refl
        (unfold select_for_sms in h)

  mark_call_inversion :
      (after : ModemPool P) (m : ModemInfo) (r : Selection (ModemPool P × Option ModemInfo))
      → (elim r [ not_implemented ↦ not_implemented | returned c ↦ returned (mark_call c) ])
        ≡ returned (after, some m)
      → (mid : ModemPool P) × (r ≡ returned (mid, some m))
        × (after.reserved ≡ mid.reserved)
        × (after.provider ≡ i.set_call_active mid.provider m.modem_id true)
  unfolding mark_call
  mark_call_inversion after m not_implemented h = ground arith
  mark_call_inversion after m (returned (mid, none)) h = ground arith
  mark_call_inversion after m (returned (mid, some n)) h =
      (mid, ground arith, ground arith, ground arith)

  pub select_for_call-Reserved :
      (pool after : ModemPool P) (m : ModemInfo)
      → select_for_call pool ≡ returned (after, some m)
      → Reserved pool after m
  select_for_call-Reserved pool after m h =
      let (mid, e, same, marked) =
        mark_call_inversion after m (select_and_reserve pool (get_available pool))
          (unfold select_for_call in h) in
      let v = select_and_reserve-Reserved pool (get_available pool) mid m refl e in
      record {
        listed = v.listed;
        was_ready = v.was_ready;
        was_free = v.was_free;
        now_reserved = same ∙ v.now_reserved;
      }

  pub reserved-mark_call :
      (after : ModemPool P) (chosen : Option ModemInfo)
      (r : Selection (ModemPool P × Option ModemInfo))
      → (elim r [ not_implemented ↦ not_implemented | returned c ↦ returned (mark_call c) ])
        ≡ returned (after, chosen)
      → (mid : ModemPool P) × (r ≡ returned (mid, chosen)) × (after.reserved ≡ mid.reserved)
  unfolding mark_call
  reserved-mark_call after chosen not_implemented h = ground arith
  reserved-mark_call after chosen (returned (mid, none)) h = (mid, ground arith, ground arith)
  reserved-mark_call after chosen (returned (mid, some n)) h = (mid, ground arith, ground arith)

  -- A selection lifts no reservation.
  pub contains-select_for_sms :
      (pool after : ModemPool P) (chosen : Option ModemInfo) (id : Text)
      → contains id pool.reserved ≡ true
      → select_for_sms pool ≡ returned (after, chosen)
      → contains id after.reserved ≡ true
  contains-select_for_sms pool after chosen id r h =
      reserved-select_and_reserve pool (get_available pool) after chosen id
        (unfold select_for_sms in h) r

  pub contains-select_for_call :
      (pool after : ModemPool P) (chosen : Option ModemInfo) (id : Text)
      → contains id pool.reserved ≡ true
      → select_for_call pool ≡ returned (after, chosen)
      → contains id after.reserved ≡ true
  contains-select_for_call pool after chosen id r h =
      let (mid, e, same) =
        reserved-mark_call after chosen (select_and_reserve pool (get_available pool))
          (unfold select_for_call in h) in
      rw same (reserved-select_and_reserve pool (get_available pool) mid chosen id e r)
