-- ===== src/Agent/Calls/Serving.antt =====
-- agent/routes.py: requests to the call routes, one after the other. The modem's device may change
-- state by itself between them.
pub mod Steps
pub mod Making
pub mod Ending
pub mod Closing
pub mod Refinement
use sim_bridge.Prelude.{ℕ, Text, text_Comparable, List, [], ◌∷◌, none, ◌≡◌}
use sim_bridge.Dict.{get}
use sim_bridge.Modem.Pool.{Provider}
use sim_bridge.CallControl.Trace.{change_device}
use sim_bridge.Agent.Calls.{Config, CallApi, Ami, with_registry}
use sim_bridge.Agent.Calls.Placing.{
  CallRequest, OutgoingCallRequest, call_incoming, call_outgoing, call_outgoing_accepted,
}
use sim_bridge.Agent.Calls.Single.{
  call_accept, call_answer_gsm, call_bridge, call_set_bridge_leg, call_reject, call_hangup,
  call_telegram_ring, call_set_gsm_channel,
}
use sim_bridge.Agent.Calls.Complete.{CallCompleteRequest, call_complete}
use sim_bridge.Agent.Calls.TimeLimits.{call_check_timeouts}

-- A request with its arguments, the identifier that it draws, and its clocks.
pub data Request (P : Type 0) : Type 0 where
  incoming : CallRequest → (call_id : Text) → ℕ → Request P
  outgoing : OutgoingCallRequest → (call_id : Text) → (ticks now : ℕ) → Request P
  outgoing_accepted : (channel : Text) → ℕ → Request P
  complete : (call_id : Text) → CallCompleteRequest → ℕ → Request P
  accept answer_gsm bridge reject hangup telegram_ring : (call_id : Text) → ℕ → Request P
  set_bridge_leg set_gsm_channel : (call_id channel_id : Text) → Request P
  check_timeouts : ℕ → Request P
  device : (P → P) → Request P

module _ {P : Type 0} ⦃i : Provider P⦄ (cfg : Config) (ami : Ami) where
  unfoldable pub serve : CallApi P → Request P → CallApi P
  serve s (incoming req call_id now) = (call_incoming cfg s req call_id now).0
  serve s (outgoing req call_id ticks now) = (call_outgoing cfg s req call_id ticks now).0
  serve s (outgoing_accepted channel now) = (call_outgoing_accepted s channel now).0
  serve s (complete call_id req now) = (call_complete cfg ami s call_id req now).0
  serve s (accept call_id now) = (call_accept s call_id now).0
  serve s (answer_gsm call_id now) = (call_answer_gsm s call_id now).0
  serve s (bridge call_id now) = (call_bridge s call_id now).0
  serve s (reject call_id now) = (call_reject s call_id now).0
  serve s (hangup call_id now) = (call_hangup ami s call_id now).0
  serve s (telegram_ring call_id now) = (call_telegram_ring s call_id now).0
  serve s (set_bridge_leg call_id channel_id) = (call_set_bridge_leg s call_id channel_id).0
  serve s (set_gsm_channel call_id channel_id) = (call_set_gsm_channel s call_id channel_id).0
  serve s (check_timeouts now) = (call_check_timeouts cfg ami s now).0
  serve s (device change) =
      with_registry s
        (record s.registry { modem_pool = change_device change s.registry.modem_pool })

  unfoldable pub serve_all : CallApi P → List (Request P) → CallApi P
  serve_all s [] = s
  serve_all s (q ∷ qs) = serve_all (serve s q) qs

  -- An identifier that is drawn is not in use.
  abbrev pub Fresh : CallApi P → Request P → Type 0
  Fresh s (incoming req call_id now) = get call_id s.registry.calls ≡ none
  Fresh s (outgoing req call_id ticks now) = get call_id s.registry.calls ≡ none
  Fresh s _ = Unit

  abbrev pub AllFresh : CallApi P → List (Request P) → Type 0
  AllFresh s [] = Unit
  AllFresh s (q ∷ qs) = Fresh s q × AllFresh (serve s q) qs
