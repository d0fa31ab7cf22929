-- ===== src/Agent/Calls/Serving/Refinement.antt =====
-- agent/routes.py over core/call_control.py: the handlers as a client of the registry.
use sim_bridge.Prelude.{List, [], ◌∷◌, Option, some, ◌≡◌}
use sim_bridge.Metrics.{MetricsCollector}
use sim_bridge.Modem.Pool.{Provider, ModemPool}
use sim_bridge.CallControl.Registry.{new_registry}
use sim_bridge.CallControl.Trace
use sim_bridge.CallControl.Trace.{Event, step, Sound, Sound-New}
use sim_bridge.CallControl.Accounting.Pooled.{IsExclusive, step-Exclusive, new-Exclusive}
use sim_bridge.CallControl.Accounting.Keyed.{IsKeyed, step-Keyed}
use sim_bridge.Agent.Calls.{Config, CallApi, Ami}
use sim_bridge.Agent.Calls.Serving.{
  Request, serve, serve_all, Fresh, AllFresh, incoming, outgoing, outgoing_accepted, complete,
  accept, answer_gsm, bridge, reject, hangup, telegram_ring, set_bridge_leg, set_gsm_channel,
  check_timeouts, device,
}
use sim_bridge.Agent.Calls.Serving.Steps.{Reach, here, Reach-trans, Reach-induction, one_step}
use sim_bridge.Agent.Calls.Serving.Making.{
  call_incoming-Reach, call_outgoing-Reach, call_outgoing_accepted-Reach,
}
use sim_bridge.Agent.Calls.Serving.Ending.{
  call_accept-Reach, call_answer_gsm-Reach, call_bridge-Reach, call_set_bridge_leg-Reach,
  call_reject-Reach, call_hangup-Reach, call_telegram_ring-Reach, call_set_gsm_channel-Reach,
}
use sim_bridge.Agent.Calls.Serving.Closing.{call_complete-Reach, call_check_timeouts-Reach}

module _ {P : Type 0} ⦃i : Provider P⦄ (cfg : Config) (ami : Ami) where
  serve-Reach :
      (s : CallApi P) (q : Request P)
      → Fresh cfg ami s q
      → Reach s.registry (serve cfg ami s q).registry
  unfolding serve step
  serve-Reach s (incoming req id now) f = call_incoming-Reach cfg s req id now f
  serve-Reach s (outgoing req id ticks now) f = call_outgoing-Reach cfg s req id ticks now f
  serve-Reach s (outgoing_accepted channel now) f = call_outgoing_accepted-Reach s channel now
  serve-Reach s (complete id req now) f = call_complete-Reach cfg ami s id req now
  serve-Reach s (accept id now) f = call_accept-Reach s id now
  serve-Reach s (answer_gsm id now) f = call_answer_gsm-Reach s id now
  serve-Reach s (bridge id now) f = call_bridge-Reach s id now
  serve-Reach s (reject id now) f = call_reject-Reach s id now
  serve-Reach s (hangup id now) f = call_hangup-Reach ami s id now
  serve-Reach s (telegram_ring id now) f = call_telegram_ring-Reach s id now
  serve-Reach s (set_bridge_leg id channel) f = call_set_bridge_leg-Reach s id channel
  serve-Reach s (set_gsm_channel id channel) f = call_set_gsm_channel-Reach s id channel
  serve-Reach s (check_timeouts now) f = call_check_timeouts-Reach cfg ami s now
  serve-Reach s (device change) f = one_step s.registry (Trace.device change) tt

  -- Whatever requests reach the call routes, with fresh identifiers where they draw one, the
  -- registry is one that the operations of CallRegistry and the write of a GSM channel reach, each
  -- applied where its precondition holds.
  pub serve_all-Reach :
      (s : CallApi P) (qs : List (Request P))
      → AllFresh cfg ami s qs
      → Reach s.registry (serve_all cfg ami s qs).registry
  unfolding serve_all
  serve_all-Reach s [] f = here
  serve_all-Reach s (q ∷ qs) f =
      Reach-trans (serve-Reach s q f.0) (serve_all-Reach (serve cfg ami s q) qs f.1)

  -- From an empty registry over a modem pool of any provider and strategy, after any requests to
  -- the call routes that draw fresh call identifiers, in any order and with any answers of AMI,
  -- and any device changes, at most one outgoing call of the registry holds a given modem, and a
  -- modem that a call holds is reserved in the pool.
  pub serve_all-Exclusive :
      (s : CallApi P) (pool : ModemPool P) (metrics : Option MetricsCollector)
      (qs : List (Request P))
      → s.registry ≡ new_registry (some pool) metrics
      → AllFresh cfg ami s qs
      → IsExclusive (serve_all cfg ami s qs).registry
  serve_all-Exclusive s pool metrics qs e f =
      Reach-induction IsExclusive (λ r e h. step-Exclusive r e (Sound-New r e h))
        (serve_all-Reach s qs f) (rw e (new-Exclusive pool metrics))

  pub serve_all-Keyed :
      (s : CallApi P) (qs : List (Request P))
      → IsKeyed s.registry
      → AllFresh cfg ami s qs
      → IsKeyed (serve_all cfg ami s qs).registry
  serve_all-Keyed s qs h f = Reach-induction IsKeyed step-Keyed (serve_all-Reach s qs f) h
