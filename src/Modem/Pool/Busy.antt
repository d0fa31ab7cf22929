-- ===== src/Modem/Pool/Busy.antt =====
-- core/modem.py, `ModemPool`: when a call gets no modem, and what `release` gives back.
use sim_bridge.Prelude.{
  Text, text_Comparable, true, false, List, [], ◌∷◌, Option, none, some, length, contains,
  contains-discard, if◌then◌else◌, ◌==◌, ◌≡◌, ◌≢◌, refl, arith, ◌↔◌, nat_eq,
}
use sim_bridge.Modem.{ModemInfo}
use sim_bridge.Modem.Routing.{Strategy, Selection, returned, not_implemented, select}
use sim_bridge.Modem.Routing.Choice.{select-ne-none}
use sim_bridge.Modem.Pool.{
  Provider, ModemPool, get_available, select_and_reserve, reserve, select_for_call, release,
  is_all_busy,
}
use sim_bridge.Modem.Pool.Reservation.{reserved-mark_call}

nil_of_length : (offered : List ModemInfo) → nat_eq (length offered) 0 ≡ true → offered ≡ []
nil_of_length [] h = refl
nil_of_length (x ∷ xs) h = ground arith

module _ {P : Type 0} ⦃i : Provider P⦄ where
  select_and_reserve-ne-none :
      (pool after : ModemPool P) (x : ModemInfo) (xs : List ModemInfo)
      (r : Selection (Strategy × Option ModemInfo))
      → select pool.strategy (x ∷ xs) ≡ r
      → select_and_reserve pool (x ∷ xs) ≢ returned (after, none)
  unfolding select_and_reserve reserve
  select_and_reserve-ne-none pool after x xs not_implemented e h = ground arith
  select_and_reserve-ne-none pool after x xs (returned (t, none)) e h =
      select-ne-none pool.strategy t x xs e
  select_and_reserve-ne-none pool after x xs (returned (t, some m)) e h = ground arith

  none_of_available :
      (pool after : ModemPool P) (offered : List ModemInfo)
      → select_and_reserve pool offered ≡ returned (after, none)
      → offered ≡ []
  none_of_available pool after [] h = refl
  none_of_available pool after (x ∷ xs) h =
      absurd (select_and_reserve-ne-none pool after x xs (select pool.strategy (x ∷ xs)) refl h)

  all_busy-none :
      (pool : ModemPool P) → is_all_busy pool ≡ true → select_for_call pool ≡ returned (pool, none)
  unfolding select_for_call is_all_busy
  all_busy-none pool h = rw (nil_of_length (get_available pool) h, select_for_call)

  none-all_busy :
      (pool : ModemPool P) → select_for_call pool ≡ returned (pool, none) → is_all_busy pool ≡ true
  unfolding is_all_busy
  none-all_busy pool h =
      let (mid, e, same) =
        reserved-mark_call pool none (select_and_reserve pool (get_available pool))
          (unfold select_for_call in h) in
      rw (none_of_available pool mid (get_available pool) e)

  -- select_for_call returns None and leaves the pool as it was exactly when is_all_busy says that
  -- no modem is available.
  pub is_all_busy_iff :
      (pool : ModemPool P)
      → (is_all_busy pool ≡ true) ↔ (select_for_call pool ≡ returned (pool, none))
  is_all_busy_iff pool = (all_busy-none pool, none-all_busy pool)

  -- After a release the modem is not reserved, every other reservation stands, and the provider has
  -- been told that the call is over.
  pub release_lem :
      (pool : ModemPool P) (id other : Text)
      → (contains other (release pool id).reserved
          ≡ (if id == other then false else contains other pool.reserved))
        × ((release pool id).provider ≡ i.set_call_active pool.provider id false)
        × ((release pool id).strategy ≡ pool.strategy)
  unfolding release
  release_lem pool id other = (contains-discard id other pool.reserved, refl, refl)
