-- ===== src/Checks/Calls.antt =====
-- core/call_control.py on small inputs.
use sim_bridge.Prelude.{
  ◌≤◌, Text, codes, text_eq, text_Comparable, true, false, List, [], ◌∷◌, none, some, ◌≡◌, ◌≢◌,
  refl, arith, inl, inr, Member, contains, insert_by, sort_by,
}
use sim_bridge.Dict.{get}
use sim_bridge.Metrics.{incoming, new_collector}
use sim_bridge.Modem.{ModemState}
use sim_bridge.Modem.Routing.{first_available, select, sorted_modems}
use sim_bridge.Modem.Provider.{SingleModemProvider}
use sim_bridge.Modem.Provider as Device
use sim_bridge.Modem.Pool.{ModemPool, get_available, select_for_call}
use sim_bridge.Modem.Pool.Single.{single_provider}
use sim_bridge.CallControl.State
use sim_bridge.CallControl.Machine.{CallMachine, new_call, enter, transition, is_terminal}
use sim_bridge.CallControl.Lifecycle.{granted, granted-le, after, after-terminal}
use sim_bridge.CallControl.Registry.{
  CallRegistry, Outgoing, new_registry, create_outgoing, place, place_selected, place_on_modem,
  outgoing_chain, metrics_hook,
}
use sim_bridge.CallControl.Trace.{Event, dials, moves, cleans, run}
use sim_bridge.CallControl.Accounting.{placed_call}
use sim_bridge.CallControl.Accounting.Counter.{Counted, run-Counted}
use sim_bridge.CallControl.Accounting.Pooled.{IsExclusive, run-Exclusive}
use sim_bridge.CallControl.Creation.{create_outgoing-Placed, Placed}
use sim_bridge.CallControl.Monitor.{
  Limits, get_timed_out_calls, terminate_bridged_calls, get_bridged_calls, fast_forward_bridged,
}
use sim_bridge.CallControl.Monitor.Timeouts.{Member-get_timed_out_calls}
use sim_bridge.CallControl.Monitor.Termination.{terminate_bridged_calls_lem}
use sim_bridge.CallControl.Monitor.Forward.{fast_forward_bridged_lem}

abbrev gsm : Text
gsm = codes "gsm"

abbrev order : Text → Outgoing
order id = record {
  call_id = id;
  callee_number = codes "+79261234555";
  caller_number = codes "simbridge";
  callee_name = none;
  modem_id = gsm;
  telegram_user_id = some 7;
  modem_required = true;
}

abbrev empty_registry : CallRegistry SingleModemProvider
empty_registry = new_registry none none

abbrev one_call : List (Event SingleModemProvider)
one_call =
    dials (order (codes "c1")) 5
    ∷ moves (codes "c1") State.telegram_calling 6
    ∷ cleans (codes "c1")
    ∷ []

named : gsm ≢ []
named e = ground arith

run-Counted_example : Counted (run empty_registry one_call)
unfolding get
run-Counted_example = run-Counted none one_call ((refl, named), (tt, (tt, tt)))

abbrev ready_device : SingleModemProvider
ready_device = record {
  modem_id = gsm;
  device = gsm;
  info = record {
    modem_id = gsm;
    device = gsm;
    state = ModemState.ready;
    registered = true;
    signal_percent = some 70;
    operator = none;
    sim_number = none;
    imei_suffix = none;
    error = none;
    last_seen = 6;
  };
  sms_active = false;
  call_active = false;
  observed = true;
}

abbrev free_pool : ModemPool SingleModemProvider
free_pool = record { provider = ready_device; strategy = first_available; reserved = [] }

run-Exclusive_example : IsExclusive (run (new_registry (some free_pool) none) one_call)
unfolding get
run-Exclusive_example = run-Exclusive free_pool none one_call (refl, (tt, (tt, tt)))

abbrev ended_call : CallMachine
ended_call = record (new_call (codes "c1") incoming 5) { state = State.voicemail }

granted-le_example : granted ((6, State.ringing) ∷ (7, State.hangup) ∷ []) ended_call ≤ 11
granted-le_example = granted-le ((6, State.ringing) ∷ (7, State.hangup) ∷ []) ended_call

after-terminal_example :
    is_terminal (after ((6, State.ringing) ∷ (7, State.hangup) ∷ []) ended_call) ≡ true
after-terminal_example =
    after-terminal ((6, State.ringing) ∷ (7, State.hangup) ∷ []) ended_call refl

abbrev limits : Limits
limits = record { ring_wait_seconds = 25; max_call_seconds = 3600; tg_ring_seconds = 30 }

abbrev bridged_call : CallMachine
bridged_call = record (new_call (codes "c2") incoming 5) {
  state = State.bridged;
  bridged_at = some 5;
}

abbrev ringing_call : CallMachine
ringing_call = record (new_call (codes "c3") incoming 5) { state = State.ringing }

abbrev two_calls : CallRegistry SingleModemProvider
two_calls = record empty_registry {
  calls = (codes "c2", bridged_call) ∷ (codes "c3", ringing_call) ∷ [];
  metrics = some new_collector;
}

Member-get_timed_out_calls_example :
    Member ringing_call (get_timed_out_calls two_calls limits 25_000_006)
Member-get_timed_out_calls_example =
    (Member-get_timed_out_calls two_calls limits 25_000_006 ringing_call).1
      (inr (inl refl), inl (inl refl, omega arith))

terminate_bridged_calls_lem_example :
    get_bridged_calls (terminate_bridged_calls two_calls (some (codes "link_drop")) 90).0 ≡ []
terminate_bridged_calls_lem_example =
    (terminate_bridged_calls_lem two_calls (some (codes "link_drop")) 90).1

fast_forward_bridged_lem_example : (fast_forward_bridged two_calls (codes "c3") 90).1 ≡ true
unfolding get text_eq
fast_forward_bridged_lem_example =
    (fast_forward_bridged_lem two_calls (codes "c3") 90 ringing_call refl refl).0

abbrev pooled_registry : CallRegistry SingleModemProvider
pooled_registry = new_registry (some free_pool) none

create_outgoing-Placed_example :
    Placed pooled_registry
      (create_outgoing pooled_registry (order (codes "c1")) 5).1
      (order (codes "c1"))
      free_pool
      (placed_call (order (codes "c1")) gsm 5)
unfolding create_outgoing place_on_modem place_selected place outgoing_chain transition enter
    metrics_hook select_for_call get_available Device.list_modems select sorted_modems sort_by
    insert_by contains text_eq
create_outgoing-Placed_example =
    create_outgoing-Placed pooled_registry
      (create_outgoing pooled_registry (order (codes "c1")) 5).1 (order (codes "c1")) free_pool
      (placed_call (order (codes "c1")) gsm 5) 5 refl refl refl

abbrev taken_pool : ModemPool SingleModemProvider
taken_pool = record free_pool { reserved = gsm ∷ [] }
