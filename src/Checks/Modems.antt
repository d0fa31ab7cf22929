-- ===== src/Checks/Modems.antt =====
-- core/modem.py on small inputs.
use sim_bridge.Prelude.{
  ℕ, ◌<◌, Text, codes, text_eq, text_Comparable, true, false, List, [], ◌∷◌, none, some, ◌≡◌, ◌≢◌,
  refl, inl, insert_by, sort_by, text_le, contains, add, ◌+◌,
}
use sim_bridge.Modem.{ModemState, ModemInfo}
use sim_bridge.Modem.Provider.{
  SingleModemProvider, Report, derived, update_state, init, set_call_active, set_sms_active,
}
use sim_bridge.Modem.Provider.Derivation.{Call, report, sms, call, run, step, IsDerived}
use sim_bridge.Modem.Routing.{round_robin, returned, select, sorted_modems}
use sim_bridge.Modem.Routing.Choice.{repeat_select, round_robin_serves}
use sim_bridge.Modem.Pool.{Provider, ModemPool, get_available, select_for_call, select_for_sms}
use sim_bridge.Modem.Pool.Single.{single_provider}
use sim_bridge.Modem.Pool.Exclusive
use sim_bridge.Modem.Pool.Exclusive.{Kind, for_sms, for_call, select_for, selected_once}

abbrev good_report : Report
good_report = record { registered = true; signal_percent = some 70; operator = none; error = none }

abbrev bad_report : Report
bad_report = record {
  registered = true;
  signal_percent = none;
  operator = none;
  error = some (codes "sim");
}

abbrev gsm : Text
gsm = codes "gsm"

abbrev polls : List Call
polls = report gsm good_report 6 ∷ call gsm true ∷ sms gsm true ∷ call gsm false ∷ []

busy_with_sms : ((run (init gsm gsm none 5) polls).info).state ≡ ModemState.sms_busy
unfolding init run step update_state set_call_active set_sms_active text_eq
busy_with_sms = refl

abbrev online : SingleModemProvider
online = record {
  modem_id = gsm;
  device = gsm;
  info = record {
    modem_id = gsm;
    device = gsm;
    state = ModemState.ready;
    registered = true;
    signal_percent = some 70;
    operator = none;
    sim_number = none;
    imei_suffix = none;
    error = none;
    last_seen = 6;
  };
  sms_active = false;
  call_active = false;
  observed = true;
}

run-online : run (init gsm gsm none 5) (report gsm good_report 6 ∷ []) ≡ online
unfolding init run step update_state text_eq
run-online = refl

online-IsDerived : IsDerived online
unfolding derived
online-IsDerived = record { id = refl; state = refl }

abbrev broken : SingleModemProvider
broken = record online {
  info = record (online.info) { state = ModemState.error; error = some (codes "sim") };
}

-- Two modems that are ready.
abbrev modem : Text → ModemInfo
modem id = record (online.info) { modem_id = id; device = id }

abbrev two : List ModemInfo
two = modem (codes "b") ∷ modem (codes "a") ∷ []

round_robin_serves_example :
    (k : ℕ) × (k < 2)
    × (select (repeat_select k (round_robin 3) two) two
        ≡ returned (round_robin (3 + k + 1), some (modem (codes "b"))))
round_robin_serves_example = round_robin_serves 3 two (modem (codes "b")) (inl refl)

-- A provider that only lists its modems.
instance abbrev listing : Provider (List ModemInfo)
listing = record { list_modems = λ p. p; set_call_active = λ p id active. p }

abbrev pool_of_two : ModemPool (List ModemInfo)
pool_of_two = record { provider = two; strategy = round_robin 0; reserved = [] }

abbrev one_reserved : ModemPool (List ModemInfo)
one_reserved = record { provider = two; strategy = round_robin 1; reserved = codes "a" ∷ [] }

abbrev both_reserved : ModemPool (List ModemInfo)
both_reserved = record {
  provider = two;
  strategy = round_robin 2;
  reserved = codes "a" ∷ codes "b" ∷ [];
}

first_selection :
    select_for for_call pool_of_two ≡ returned (one_reserved, some (modem (codes "a")))
unfolding select_for select_for_call select_for_sms get_available select sorted_modems sort_by
    insert_by text_le contains text_eq add
first_selection = refl

second_selection :
    select_for for_sms one_reserved ≡ returned (both_reserved, some (modem (codes "b")))
unfolding select_for select_for_call select_for_sms get_available select sorted_modems sort_by
    insert_by text_le contains text_eq add
second_selection = refl

selected_once_example : codes "b" ≢ codes "a"
unfolding Exclusive.run
selected_once_example =
    selected_once for_call for_sms pool_of_two one_reserved both_reserved (modem (codes "a"))
      (modem (codes "b")) [] first_selection tt second_selection
