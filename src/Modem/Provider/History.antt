-- ===== src/Modem/Provider/History.antt =====
-- core/modem.py, `SingleModemProvider`: its state against the calls that were made on it.
use sim_bridge.Prelude.{
  ℕ, ◌<◌, Text, Bool, true, false, Option, none, some, is_some, text_Comparable, List, [], ◌∷◌, ◌≡◌,
  ◌==◌, if◌then◌else◌, is_set,
}
use sim_bridge.Modem.{ModemState, ModemInfo}
use sim_bridge.Modem.Provider.{SingleModemProvider}
use sim_bridge.Modem.Provider.Derivation.{Call, report, sms, call, gone}

-- What the last calls for the modem say, after this value. Calls for other modems say nothing.
pub last_call : Text → Bool → List Call → Bool
last_call m before [] = before
last_call m before (call other active ∷ cs) = last_call m (if other == m then active else before) cs
last_call m before (report other r now ∷ cs) = last_call m before cs
last_call m before (sms other active ∷ cs) = last_call m before cs
last_call m before (gone other now ∷ cs) = last_call m before cs

pub last_sms : Text → Bool → List Call → Bool
last_sms m before [] = before
last_sms m before (sms other active ∷ cs) = last_sms m (if other == m then active else before) cs
last_sms m before (report other r now ∷ cs) = last_sms m before cs
last_sms m before (call other active ∷ cs) = last_sms m before cs
last_sms m before (gone other now ∷ cs) = last_sms m before cs

pub last_registered : Text → Bool → List Call → Bool
last_registered m before [] = before
last_registered m before (report other r now ∷ cs) =
    last_registered m (if other == m then r.registered else before) cs
last_registered m before (gone other now ∷ cs) =
    last_registered m (if other == m then false else before) cs
last_registered m before (sms other active ∷ cs) = last_registered m before cs
last_registered m before (call other active ∷ cs) = last_registered m before cs

abbrev newer {ℓ} : {A : Type ℓ} → Option A → Option A → Option A
newer none before = before
newer (some a) before = some a

-- The last error text since the modem was last marked offline.
pub last_error : Text → Option Text → List Call → Option Text
last_error m before [] = before
last_error m before (report other r now ∷ cs) =
    last_error m (if other == m then newer r.error before else before) cs
last_error m before (gone other now ∷ cs) = last_error m (if other == m then none else before) cs
last_error m before (sms other active ∷ cs) = last_error m before cs
last_error m before (call other active ∷ cs) = last_error m before cs

-- The last signal since the modem was last marked offline.
pub last_signal : Text → Option ℕ → List Call → Option ℕ
last_signal m before [] = before
last_signal m before (report other r now ∷ cs) =
    last_signal m (if other == m then newer r.signal_percent before else before) cs
last_signal m before (gone other now ∷ cs) = last_signal m (if other == m then none else before) cs
last_signal m before (sms other active ∷ cs) = last_signal m before cs
last_signal m before (call other active ∷ cs) = last_signal m before cs

-- The states with what each of them means.
pub data Means (error registered signal calling texting : Bool) : ModemState → Type 0 where
  broken : error ≡ true → Means error registered signal calling texting ModemState.error
  unseen :
      error ≡ false
      → registered ≡ false
      → signal ≡ false
      → Means error registered signal calling texting ModemState.offline
  searching :
      error ≡ false
      → registered ≡ false
      → signal ≡ true
      → Means error registered signal calling texting ModemState.initializing
  in_call :
      error ≡ false
      → registered ≡ true
      → calling ≡ true
      → Means error registered signal calling texting ModemState.call_busy
  in_sms :
      error ≡ false
      → registered ≡ true
      → calling ≡ false
      → texting ≡ true
      → Means error registered signal calling texting ModemState.sms_busy
  idle :
      error ≡ false
      → registered ≡ true
      → calling ≡ false
      → texting ≡ false
      → Means error registered signal calling texting ModemState.ready

-- The clock is past its zero at each report.
abbrev pub IsTimed : Call → Type 0
IsTimed (report m r now) = 0 < now
IsTimed (gone m now) = 0 < now
IsTimed _ = Unit

-- The fields of the provider are what its calls said last, after those of `p`.
record Follows (p q : SingleModemProvider) (cs : List Call) : Type 0 where
  calling : q.call_active ≡ last_call p.modem_id p.call_active cs
  texting : q.sms_active ≡ last_sms p.modem_id p.sms_active cs
  registered : (q.info).registered ≡ last_registered p.modem_id (p.info).registered cs
  error : (q.info).error ≡ last_error p.modem_id (p.info).error cs
  signal : (q.info).signal_percent ≡ last_signal p.modem_id (p.info).signal_percent cs
  seen : 0 < (q.info).last_seen

module _ (info : ModemInfo) (texting calling : Bool) (h : 0 < info.last_seen) where
  abbrev Stands : ModemState → Type 0
  Stands = Means (is_set info.error) info.registered (is_some info.signal_percent) calling texting
