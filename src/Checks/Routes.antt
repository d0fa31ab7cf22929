-- ===== src/Checks/Routes.antt =====
-- agent/routes.py on small inputs: the routes of calls.
use sim_bridge.Prelude.{
  Text, codes, text_eq, text_eq_iff, text_Comparable, true, false, List, [], ◌∷◌, none, some, ◌≡◌,
  refl, arith, ◌⊎◌, if◌then◌else◌,
}
use sim_bridge.Dict.{get}
use sim_bridge.Metrics.{outgoing}
use sim_bridge.Modem.{ModemState}
use sim_bridge.Modem.Routing.{first_available}
use sim_bridge.Modem.Provider.{SingleModemProvider}
use sim_bridge.Modem.Pool.{ModemPool}
use sim_bridge.Modem.Pool.Single.{single_provider}
use sim_bridge.CallControl.State
use sim_bridge.CallControl.Machine.{CallMachine, new_call, get_active_channel_ids}
use sim_bridge.CallControl.Registry.{CallRegistry, new_registry}
use sim_bridge.CallControl.Monitor.{has_timed_out, limit_in}
use sim_bridge.CallControl.Accounting.Pooled.{IsExclusive}
use sim_bridge.CallControl.Accounting.Keyed.{IsKeyed}
use sim_bridge.Acl
use sim_bridge.Blacklist
use sim_bridge.RateLimit.{new_limiter}
use sim_bridge.Agent.Http.{returned}
use sim_bridge.Agent.Calls.{Config, CallApi, Ami}
use sim_bridge.Agent.Calls.Placing.{
  OutgoingCallRequest, call_outgoing, call_outgoing_accepted, pending_calls,
}
use sim_bridge.Agent.Calls.Complete.{CallCompleteRequest, Completed, call_complete, gone}
use sim_bridge.Agent.Calls.Closure.{
  IsClosed, call_complete-IsClosed, call_complete_twice, call_complete-bridged,
}
use sim_bridge.Agent.Calls.Expiry.{call_check_timeouts_lem}
use sim_bridge.Agent.Calls.Authorized.{Permitted, Placed, Unplaced, call_outgoing-Placed}
use sim_bridge.Agent.Http.{is_returned}
use sim_bridge.Agent.Calls.TimeLimits.{call_check_timeouts}
use sim_bridge.Phone.{Destination}
use sim_bridge.Agent.Calls.Accepted.{call_outgoing_accepted_lem}
use sim_bridge.Agent.Calls.Serving.{Request, serve_all}
use sim_bridge.Agent.Calls.Serving
use sim_bridge.Agent.Calls.Serving.Refinement.{serve_all-Exclusive}

abbrev gsm : Text
gsm = codes "gsm"

abbrev ready_device : SingleModemProvider
ready_device = record {
  modem_id = gsm;
  device = gsm;
  info = record {
    modem_id = gsm;
    device = gsm;
    state = ModemState.ready;
    registered = true;
    signal_percent = some 70;
    operator = none;
    sim_number = none;
    imei_suffix = none;
    error = none;
    last_seen = 6;
  };
  sms_active = false;
  call_active = false;
  observed = true;
}

abbrev free_pool : ModemPool SingleModemProvider
free_pool = record { provider = ready_device; strategy = first_available; reserved = [] }

abbrev settings : Config
settings = record {
  dongle = gsm;
  calls_per_minute = 3;
  limits = record { ring_wait_seconds = 18; max_call_seconds = 1800; tg_ring_seconds = 30 };
  userbot_url = some (codes "http://127.0.0.1:8080/");
}

abbrev silent : Ami
silent hangups channel = none

abbrev api : CallRegistry SingleModemProvider → CallApi SingleModemProvider
api registry = record {
  registry = registry;
  acl = Acl.new_manager (some (record { lines = codes "7 out_call" ∷ []; modified = 5 }));
  blacklist = Blacklist.new_manager none;
  call_limiter = new_limiter 3 60;
  audit = [];
  hangups = [];
  notices = [];
}

abbrev start : CallApi SingleModemProvider
start = api (new_registry (some free_pool) none)

abbrev c1 : Text
c1 = codes "c1"

abbrev call_somebody : OutgoingCallRequest
call_somebody = record { phone_number = codes "+79261234555"; telegram_user_id = some 7 }

abbrev ended : CallCompleteRequest
ended = record { status = codes "ended"; dialstatus = none }

abbrev requests : List (Request SingleModemProvider)
requests =
    Serving.outgoing call_somebody c1 1 10
    ∷ Serving.outgoing_accepted (codes "PJSIP/tg-1") 11
    ∷ Serving.complete c1 (record { status = codes "answered"; dialstatus = none }) 12
    ∷ Serving.check_timeouts 13
    ∷ Serving.complete c1 ended 14
    ∷ []

serve_all-Exclusive_example : IsExclusive (serve_all settings silent start requests).registry
unfolding get
serve_all-Exclusive_example =
    serve_all-Exclusive settings silent start free_pool none requests refl
      (refl, (tt, (tt, (tt, (tt, tt)))))

-- A registry with one outgoing call.
abbrev with_state : State.CallState → CallMachine
with_state state = record (new_call c1 outgoing 10) {
  callee_number = codes "+79261234555";
  state = state;
  gsm_channel_id = some (codes "Dongle/gsm-1");
}

abbrev holding : State.CallState → CallApi SingleModemProvider
holding state =
    api (record (new_registry (some free_pool) none) { calls = (c1, with_state state) ∷ [] })

holding-Keyed : (state : State.CallState) → IsKeyed (holding state).registry
unfolding get
holding-Keyed state = record {
  unique = (refl, tt);
  own = λ k c h. ground (arith, text_eq_iff c1 k);
}

call_complete-IsClosed_example :
    IsClosed
      (holding State.gsm_dialing).registry
      c1
      (call_complete settings silent (holding State.gsm_dialing) c1 ended 20)
unfolding text_eq
call_complete-IsClosed_example =
    call_complete-IsClosed settings silent (holding State.gsm_dialing) c1 ended 20 refl

abbrev bridged : CallApi SingleModemProvider
bridged = holding State.bridged

abbrev cleaned : Completed
cleaned = record { call_id = c1; state = some (codes "cleanup") }

call_complete-bridged_example :
    ((call_complete settings silent bridged c1 ended 20).1 ≡ returned cleaned)
    × (get c1 (call_complete settings silent bridged c1 ended 20).0.registry.calls ≡ none)
    × ((call_complete settings silent bridged c1 ended 20).0.hangups
        ≡ (codes "Dongle/gsm-1", codes "BYE") ∷ [])
unfolding get text_eq get_active_channel_ids
call_complete-bridged_example =
    call_complete-bridged settings silent bridged c1 (with_state State.bridged) ended 20 refl refl
      refl

call_complete_twice_example :
    call_complete settings silent (call_complete settings silent bridged c1 ended 20).0 c1 ended 21
    ≡ ((call_complete settings silent bridged c1 ended 20).0, gone)
unfolding text_eq
call_complete_twice_example =
    call_complete_twice settings silent bridged c1 cleaned ended ended 20 21 refl
      call_complete-bridged_example.0

call_check_timeouts_lem_example :
    ((k : Text)
      → get k (call_check_timeouts settings silent bridged 1_900_000_000).0.registry.calls
        ≡ (elim (get k bridged.registry.calls) [
          | none ↦ none
          | some c ↦ if has_timed_out settings.limits 1_900_000_000 c then none else some c
        ]))
    × ((call_check_timeouts settings silent bridged 1_900_000_000).1.0 ≡ 1)
unfolding has_timed_out limit_in
call_check_timeouts_lem_example =
    call_check_timeouts_lem settings silent bridged 1_900_000_000 (holding-Keyed State.bridged)

call_outgoing-Placed_example :
    ((dest : Destination) × (Permitted start call_somebody dest 1
        × Placed start call_somebody dest c1 10
            (call_outgoing settings start call_somebody c1 1 10)))
    ⊎ Unplaced start (call_outgoing settings start call_somebody c1 1 10)
call_outgoing-Placed_example = call_outgoing-Placed settings start call_somebody c1 1 10

call_outgoing_accepted_lem_example :
    (is_returned (call_outgoing_accepted (holding State.telegram_calling) (codes "PJSIP/tg-1") 20).1
      ≡ true)
    × ((d : CallMachine) × ((get c1
              (call_outgoing_accepted
                (holding State.telegram_calling)
                (codes "PJSIP/tg-1")
                20).0.registry.calls
            ≡ some d)
          × (d.state ≡ State.gsm_dialing)
          × (d.callee_number ≡ codes "+79261234555")
          × (d.bridge_channel_id ≡ some (codes "PJSIP/tg-1"))))
unfolding pending_calls
call_outgoing_accepted_lem_example =
    call_outgoing_accepted_lem (holding State.telegram_calling) (with_state State.telegram_calling)
      (codes "PJSIP/tg-1") 20 (holding-Keyed State.telegram_calling) refl
