-- ===== src/Modem/Provider/Derivation.antt =====
-- core/modem.py, `SingleModemProvider`: the stored state against the branches of `_derive_state`,
-- over any sequence of the calls that write it.
use sim_bridge.Prelude.{
  ℕ, ◌<◌, Text, Bool, true, false, not, ◌&&◌, Option, none, text_Comparable, List, [], ◌∷◌, ◌≡◌,
  refl, ◌∙◌, arith, text_eq_iff, is_set, All,
}
use sim_bridge.Modem.{ModemState}
use sim_bridge.Modem.Provider.{
  SingleModemProvider, Report, init, derived, update_state, set_sms_active, set_call_active,
  mark_offline, is_available,
}

-- The calls that write the provider. The pollers' reports carry the clock.
pub data Call : Type 0 where
  report : Text → Report → ℕ → Call
  sms : Text → Bool → Call
  call : Text → Bool → Call
  gone : Text → ℕ → Call

unfoldable pub step : SingleModemProvider → Call → SingleModemProvider
step p (report m r now) = (update_state p m r now).0
step p (sms m active) = (set_sms_active p m active).0
step p (call m active) = (set_call_active p m active).0
step p (gone m now) = (mark_offline p m now).0

unfoldable pub run : SingleModemProvider → List Call → SingleModemProvider
run p [] = p
run p (c ∷ cs) = run (step p c) cs

pub record IsDerived (p : SingleModemProvider) : Type 0 where
  pub id : (p.info).modem_id ≡ p.modem_id
  pub state : (p.info).state ≡ derived p.info p.sms_active p.call_active

init-IsDerived :
    (m device : Text) (sim : Option Text) (now : ℕ) → 0 < now → IsDerived (init m device sim now)
unfolding init derived
init-IsDerived m device sim now h = ground arith

pub step-IsDerived : (p : SingleModemProvider) (c : Call) → IsDerived p → IsDerived (step p c)
unfolding step update_state set_sms_active set_call_active mark_offline derived
step-IsDerived p (report m r now) v = ground arith
step-IsDerived p (sms m active) v = ground arith
step-IsDerived p (call m active) v = ground arith
step-IsDerived p (gone m now) v = ground arith

run_from-IsDerived : (p : SingleModemProvider) (cs : List Call) → IsDerived p → IsDerived (run p cs)
unfolding run
run_from-IsDerived p [] v = v
run_from-IsDerived p (c ∷ cs) v = run_from-IsDerived (step p c) cs (step-IsDerived p c v)

-- After any calls on a provider constructed at a positive clock reading, its stored snapshot is
-- its own modem and its state is the one that the branches of _derive_state give for the stored
-- fields and the activity flags.
pub run-IsDerived :
    (m device : Text) (sim : Option Text) (now : ℕ) (cs : List Call)
    → 0 < now
    → IsDerived (run (init m device sim now) cs)
run-IsDerived m device sim now cs h = run_from-IsDerived _ cs (init-IsDerived m device sim now h)

-- A provider in a derived state whose modem was seen after the clock's zero takes new work
-- exactly when the modem is registered, reports no error and neither a call nor an SMS is under
-- way.
pub is_available_iff :
    (p : SingleModemProvider)
    → IsDerived p
    → 0 < (p.info).last_seen
    → is_available p p.modem_id ≡ (
        (p.info).registered && not (is_set (p.info).error) && not p.call_active && not p.sms_active)
unfolding is_available derived
is_available_iff p v h = ground (arith, text_eq_iff p.modem_id p.modem_id)

-- After mark_offline at a positive clock reading the modem is OFFLINE, with no signal, operator or
-- error left, and takes no work.
pub mark_offline-state :
    (p : SingleModemProvider) (now : ℕ)
    → 0 < now
    → let q = (mark_offline p p.modem_id now).0 in
      ((q.info).state ≡ ModemState.offline)
      × ((q.info).signal_percent ≡ none)
      × ((q.info).operator ≡ none)
      × ((q.info).error ≡ none)
      × (is_available q p.modem_id ≡ false)
unfolding mark_offline derived is_available
mark_offline-state p now h = ground (arith, text_eq_iff p.modem_id p.modem_id)

-- The calls that never name an error: reports without one, and the activity flags.
abbrev pub NoErrorReport : Call → Type 0
NoErrorReport (report m r now) = r.error ≡ none
NoErrorReport (gone m now) = ⊥
NoErrorReport _ = Unit

error-step :
    (p : SingleModemProvider) (c : Call)
    → NoErrorReport c
    → ((step p c).info).error ≡ (p.info).error
unfolding step update_state set_sms_active set_call_active
error-step p (report m r now) h = ground arith
error-step p (sms m active) h = ground arith
error-step p (call m active) h = ground arith
error-step p (gone m now) h = absurd h

error-run :
    (p : SingleModemProvider) (cs : List Call)
    → All NoErrorReport cs
    → ((run p cs).info).error ≡ (p.info).error
unfolding run
error-run p [] a = refl
error-run p (c ∷ cs) a = error-run (step p c) cs a.1 ∙ error-step p c a.0

-- From a derived state with an error, as long as the calls are activity flags and reports without
-- an error text, the modem stays in the state ERROR.
pub error_stays :
    (p : SingleModemProvider) (cs : List Call)
    → IsDerived p
    → is_set (p.info).error ≡ true
    → All NoErrorReport cs
    → ((run p cs).info).state ≡ ModemState.error
unfolding derived
error_stays p cs v e a = ground (arith, run_from-IsDerived p cs v, error-run p cs a)
