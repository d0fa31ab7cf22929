-- ===== src/CallControl/Trace.antt =====
-- core/call_control.py, `CallRegistry` over time: its operations in any order, with the one write that
-- a route of agent/routes.py makes to a stored call. The modem's device may change by itself.
use sim_bridge.Prelude.{ℕ, Text, List, [], ◌∷◌, Option, none, some, ◌≡◌, ◌≢◌, text_Comparable}
use sim_bridge.Dict.{get}
use sim_bridge.Modem.Pool.{Provider, ModemPool}
use sim_bridge.CallControl.State.{CallState}
use sim_bridge.CallControl.Registry.{
  CallRegistry, Outgoing, create_incoming, create_outgoing, cleanup,
}
use sim_bridge.CallControl.Operations.{
  transition, answer_gsm, dial_gsm, hangup, reject, gsm_error, set_bridge_leg, set_telegram_call_id,
  update_call, set_gsm_channel,
}
use sim_bridge.CallControl.Monitor.{fast_forward_bridged, terminate_bridged_calls}

-- One operation with its arguments and its clock. The operations whose whole body is a transition to a
-- fixed state are `moves`. `sets_gsm_channel` is no operation of the registry: it is the assignment to
-- the stored call in `call_set_gsm_channel` of agent/routes.py.
pub data Event (P : Type 0) : Type 0 where
  arrives : (call_id caller : Text) → Option Text → (modem_id : Text) → Option Text → ℕ → Event P
  dials : Outgoing → ℕ → Event P
  moves : Text → CallState → ℕ → Event P
  answers dials_gsm hangs_up rejects fails : Text → Option Text → ℕ → Event P
  sets_bridge_leg sets_telegram_call sets_gsm_channel : Text → Text → Event P
  fast_forwards : Text → ℕ → Event P
  terminates : Option Text → ℕ → Event P
  cleans : Text → Event P
  device : (P → P) → Event P

abbrev pub change_device : {P : Type 0} → (P → P) → Option (ModemPool P) → Option (ModemPool P)
change_device change none = none
change_device change (some pool) = some (record pool { provider = change pool.provider })

module _ {P : Type 0} ⦃i : Provider P⦄ where
  unfoldable pub step : CallRegistry P → Event P → CallRegistry P
  step r (arrives id caller name modem channel now) =
      (create_incoming r id caller name modem channel now).1
  step r (dials o now) = (create_outgoing r o now).1
  step r (moves id s now) = (transition r id s now).0
  step r (answers id channel now) = (answer_gsm r id channel now).0
  step r (dials_gsm id channel now) = (dial_gsm r id channel now).0
  step r (hangs_up id reason now) = (hangup r id reason now).0
  step r (rejects id reason now) = (reject r id reason now).0
  step r (fails id reason now) = (gsm_error r id reason now).0
  step r (sets_bridge_leg id channel) = (set_bridge_leg r id channel).0
  step r (sets_telegram_call id tg) = (set_telegram_call_id r id tg).0
  step r (sets_gsm_channel id channel) = update_call id (set_gsm_channel (some channel)) r
  step r (fast_forwards id now) = (fast_forward_bridged r id now).0
  step r (terminates reason now) = (terminate_bridged_calls r reason now).0
  step r (cleans id) = cleanup r id
  step r (device change) = record r { modem_pool = change_device change r.modem_pool }

  unfoldable pub run : CallRegistry P → List (Event P) → CallRegistry P
  run r [] = r
  run r (e ∷ es) = run (step r e) es

-- The identifier of a new call is not in use.
abbrev pub New : {P : Type 0} → CallRegistry P → Event P → Type 0
New r (arrives id caller name modem channel now) = get id r.calls ≡ none
New r (dials o now) = get o.call_id r.calls ≡ none
New r _ = Unit

-- What the operations take for granted of an event: the identifier of a new call is not in use, and a
-- call that needs a modem names one.
abbrev pub Sound : {P : Type 0} → CallRegistry P → Event P → Type 0
Sound r (arrives id caller name modem channel now) = get id r.calls ≡ none
Sound r (dials o now) = (get o.call_id r.calls ≡ none) × (o.modem_id ≢ [])
Sound r _ = Unit

module _ {P : Type 0} ⦃i : Provider P⦄ where
  abbrev pub AllSound : CallRegistry P → List (Event P) → Type 0
  AllSound r [] = Unit
  AllSound r (e ∷ es) = Sound r e × AllSound (step r e) es

  abbrev pub AllNew : CallRegistry P → List (Event P) → Type 0
  AllNew r [] = Unit
  AllNew r (e ∷ es) = New r e × AllNew (step r e) es

  pub Sound-New : (r : CallRegistry P) (e : Event P) → Sound r e → New r e
  Sound-New r (arrives id caller name modem channel now) s = s
  Sound-New r (dials o now) s = s.0
  Sound-New r e s = tt
