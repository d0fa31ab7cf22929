-- ===== src/Modem/Pool/Exclusive.antt =====
-- core/modem.py, `ModemPool` over time: calls of the pool in any order, with the device changing state
-- by itself in between.
use mathlib.Core.Bool.{false≢true}
use sim_bridge.Prelude.{
  Text, text_Comparable, text_eq_iff, true, List, [], ◌∷◌, Option, some, contains, contains-add,
  contains-discard, ◌≡◌, ◌≢◌, refl, arith, All, ◌∙◌, sym,
}
use sim_bridge.Modem.{ModemInfo}
use sim_bridge.Modem.Routing.{Selection, returned, not_implemented}
use sim_bridge.Modem.Pool.{Provider, ModemPool, select_for_sms, select_for_call, release}
use sim_bridge.Modem.Pool.Reservation.{
  Reserved, select_for_sms-Reserved, select_for_call-Reserved, contains-select_for_sms,
  contains-select_for_call,
}

pub data Kind : Type 0 where
  for_sms for_call : Kind

-- One call of the pool, or a change of the device's state that the provider takes in.
pub data Call (P : Type 0) : Type 0 where
  selects : Kind → Call P
  releases : Text → Call P
  device : (P → P) → Call P

-- The pool after a call; one that raises leaves it as it was.
after_selection :
    {P : Type 0} → ModemPool P → Selection (ModemPool P × Option ModemInfo) → ModemPool P
after_selection pool not_implemented = pool
after_selection pool (returned (after, chosen)) = after

abbrev pub KeepsReserved : {P : Type 0} → Text → Call P → Type 0
KeepsReserved id (releases other) = other ≢ id
KeepsReserved id _ = Unit

module _ {P : Type 0} ⦃i : Provider P⦄ where
  unfoldable pub select_for : Kind → ModemPool P → Selection (ModemPool P × Option ModemInfo)
  select_for for_sms pool = select_for_sms pool
  select_for for_call pool = select_for_call pool

  unfoldable pub step : ModemPool P → Call P → ModemPool P
  unfolding after_selection
  step pool (selects kind) = after_selection pool (select_for kind pool)
  step pool (releases id) = release pool id
  step pool (device change) = record pool { provider = change pool.provider }

  unfoldable pub run : ModemPool P → List (Call P) → ModemPool P
  run pool [] = pool
  run pool (c ∷ cs) = run (step pool c) cs

  select_for-Reserved :
      (kind : Kind) (pool after : ModemPool P) (m : ModemInfo)
      → select_for kind pool ≡ returned (after, some m)
      → Reserved pool after m
  unfolding select_for
  select_for-Reserved for_sms pool after m h = select_for_sms-Reserved pool after m h
  select_for-Reserved for_call pool after m h = select_for_call-Reserved pool after m h

  contains-select_for :
      (kind : Kind) (pool after : ModemPool P) (chosen : Option ModemInfo) (id : Text)
      → contains id pool.reserved ≡ true
      → select_for kind pool ≡ returned (after, chosen)
      → contains id after.reserved ≡ true
  unfolding select_for
  contains-select_for for_sms = contains-select_for_sms
  contains-select_for for_call = contains-select_for_call

  contains-after_selection :
      (kind : Kind) (pool : ModemPool P) (id : Text)
      (r : Selection (ModemPool P × Option ModemInfo))
      → select_for kind pool ≡ r
      → contains id pool.reserved ≡ true
      → contains id (after_selection pool r).reserved ≡ true
  unfolding after_selection
  contains-after_selection kind pool id not_implemented e h = h
  contains-after_selection kind pool id (returned (after, chosen)) e h =
      contains-select_for kind pool after chosen id h e

  contains-step :
      (id : Text) (pool : ModemPool P) (c : Call P)
      → KeepsReserved id c
      → contains id pool.reserved ≡ true
      → contains id (step pool c).reserved ≡ true
  unfolding step
  contains-step id pool (selects kind) k h =
      contains-after_selection kind pool id (select_for kind pool) refl h
  contains-step id pool (releases other) k h =
      unfold release in
      ground (arith, contains-discard other id pool.reserved, text_eq_iff other id)
  contains-step id pool (device change) k h = h

  contains-run :
      (id : Text) (pool : ModemPool P) (cs : List (Call P))
      → All (KeepsReserved id) cs
      → contains id pool.reserved ≡ true
      → contains id (run pool cs).reserved ≡ true
  unfolding run
  contains-run id pool [] a h = h
  contains-run id pool (c ∷ cs) a h =
      contains-run id (step pool c) cs a.1 (contains-step id pool c a.0 h)

  -- A modem that one selection of the pool returned is not returned by a later selection,
  -- whatever calls and device changes lie between, as long as it has not been released.
  pub selected_once :
      (k l : Kind) (pool after last : ModemPool P) (m n : ModemInfo) (cs : List (Call P))
      → select_for k pool ≡ returned (after, some m)
      → All (KeepsReserved m.modem_id) cs
      → select_for l (run after cs) ≡ returned (last, some n)
      → n.modem_id ≢ m.modem_id
  selected_once k l pool after last m n cs first kept second same =
      let v = select_for-Reserved k pool after m first in
      let w = select_for-Reserved l (run after cs) last n second in
      let held = contains-run m.modem_id after cs kept (
        rw v.now_reserved (
          ground (
            arith,
            contains-add m.modem_id m.modem_id pool.reserved,
            text_eq_iff m.modem_id m.modem_id,
          ))) in
      false≢true (sym w.was_free ∙ (rw same held))
