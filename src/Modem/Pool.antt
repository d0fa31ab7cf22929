-- ===== src/Modem/Pool.antt =====
-- core/modem.py, `ModemPool`: modems of one provider, with routing and reservation. The provider is
-- any implementation of the interface `ModemProvider`, as far as the pool calls it.
pub mod Reservation
pub mod Exclusive
pub mod Busy
pub mod Single
use sim_bridge.Prelude.{
  ℕ, Text, text_Comparable, Bool, true, false, not, List, [], ◌∷◌, Option, none, some, length,
  keep_if, nat_eq, contains, add, discard, if◌then◌else◌, ◌&&◌, ◌==◌,
}
use sim_bridge.Modem.{ModemState, ModemInfo, is_available_state, is_offline_state}
use sim_bridge.Modem.Routing.{Strategy, Selection, returned, not_implemented, select, name}

-- The two methods of `ModemProvider` that the pool calls.
pub record Provider (P : Type 0) : Type 0 where
  pub list_modems : P → List ModemInfo
  pub set_call_active : P → Text → Bool → P

pub record ModemPool (P : Type 0) : Type 0 where
  pub provider : P
  pub strategy : Strategy
  pub reserved : List Text

module _ {P : Type 0} where
  -- `strategy or FirstAvailableStrategy()`
  unfoldable pub new_pool : P → Option Strategy → ModemPool P
  new_pool p none = record { provider = p; strategy = Strategy.first_available; reserved = [] }
  new_pool p (some s) = record { provider = p; strategy = s; reserved = [] }

  unfoldable pub strategy_name : ModemPool P → Text
  unfolding name
  strategy_name pool = name pool.strategy

  unfoldable pub get_reserved_count : ModemPool P → ℕ
  get_reserved_count pool = length pool.reserved

-- `all(info.state is ModemState.OFFLINE for info in infos)`
abbrev pub all_modems_offline : List ModemInfo → Bool
all_modems_offline [] = true
all_modems_offline (m ∷ ms) = is_offline_state m.state && all_modems_offline ms

-- The filter of `_get_available`, over the reserved identifiers.
unfoldable pub available_in : List Text → List ModemInfo → List ModemInfo
available_in reserved =
    keep_if (λ m. not (contains m.modem_id reserved) && is_available_state m.state)

module _ {P : Type 0} ⦃i : Provider P⦄ where
  unfoldable pub all_offline : ModemPool P → Bool
  all_offline pool = all_modems_offline (i.list_modems pool.provider)

  unfoldable pub get_available : ModemPool P → List ModemInfo
  unfolding available_in
  get_available pool = available_in pool.reserved (i.list_modems pool.provider)

  unfoldable pub is_all_busy : ModemPool P → Bool
  is_all_busy pool = nat_eq (length (get_available pool)) 0

  -- The part of a selection under the lock: choose, then reserve what was chosen.
  pub reserve : ModemPool P → Strategy → Option ModemInfo → ModemPool P × Option ModemInfo
  reserve pool s none = (record pool { strategy = s }, none)
  reserve pool s (some m) =
      (record pool { strategy = s; reserved = add m.modem_id pool.reserved }, some m)

  pub select_and_reserve : ModemPool P → List ModemInfo → Selection (ModemPool P × Option ModemInfo)
  select_and_reserve pool [] = returned (pool, none)
  select_and_reserve pool (m ∷ ms) = elim (select pool.strategy (m ∷ ms)) [
    | not_implemented ↦ not_implemented
    | returned (s, chosen) ↦ returned (reserve pool s chosen)
  ]

  unfoldable pub select_for_sms : ModemPool P → Selection (ModemPool P × Option ModemInfo)
  unfolding select_and_reserve reserve
  select_for_sms pool = select_and_reserve pool (get_available pool)

  pub mark_call : ModemPool P × Option ModemInfo → ModemPool P × Option ModemInfo
  mark_call (pool, none) = (pool, none)
  mark_call (pool, some m) =
      (record pool { provider = i.set_call_active pool.provider m.modem_id true }, some m)

  unfoldable pub select_for_call : ModemPool P → Selection (ModemPool P × Option ModemInfo)
  unfolding select_and_reserve reserve mark_call
  select_for_call pool = elim (select_and_reserve pool (get_available pool)) [
    | not_implemented ↦ not_implemented
    | returned r ↦ returned (mark_call r)
  ]

  unfoldable pub release : ModemPool P → Text → ModemPool P
  release pool modem_id = record pool {
    reserved = discard modem_id pool.reserved;
    provider = i.set_call_active pool.provider modem_id false;
  }
