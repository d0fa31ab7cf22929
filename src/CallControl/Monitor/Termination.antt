-- ===== src/CallControl/Monitor/Termination.antt =====
-- core/call_control.py, `terminate_bridged_calls`: what a link failure leaves.
use sim_bridge.Prelude.{
  ℕ, Text, text_Comparable, true, List, [], ◌∷◌, Option, none, some, ◌≡◌, refl, arith,
  if◌then◌else◌, keep_if, contains, map,
}
use sim_bridge.Dict.{Dict, get, values, map_values}
use sim_bridge.Dict.Laws.{get-map_values}
use sim_bridge.Metrics.{Direction, incoming, outgoing, MetricsCollector}
use sim_bridge.CallControl.State
use sim_bridge.CallControl.State.{CallState, state_eq, state_eq_iff, allowed, state_Comparable}
use sim_bridge.CallControl.Machine.{CallMachine, enter, transition}
use sim_bridge.CallControl.Registry.{CallRegistry}
use sim_bridge.CallControl.Monitor.{
  terminate_call, terminate_calls, terminate_bridged_calls, get_bridged_calls, bridged_ids,
}

-- A call after the termination: a bridged one has hung up, with the reason.
abbrev pub ended : ℕ → Option Text → CallMachine → CallMachine
ended now reason c =
    if state_eq c.state State.bridged
    then record c { state = State.hangup; updated_at = now; error = reason }
    else c

bridged-hangup : (d : Direction) → contains State.hangup (allowed d State.bridged) ≡ true
unfolding contains
bridged-hangup incoming = refl
bridged-hangup outgoing = refl

terminate_call-ended :
    (now : ℕ) (reason : Option Text) (c : CallMachine) (m : Option MetricsCollector)
    → (terminate_call now reason (c, m)).0 ≡ ended now reason c
unfolding terminate_call transition enter
terminate_call-ended now reason c m =
    ground (arith, bridged-hangup c.direction, state_eq_iff c.state State.bridged)

terminate_calls-ended :
    (now : ℕ) (reason : Option Text) (d : Dict Text CallMachine) (m : Option MetricsCollector)
    → (terminate_calls now reason d m).0 ≡ map_values (ended now reason) d
unfolding terminate_calls
terminate_calls-ended now reason [] m = refl
terminate_calls-ended now reason ((k, c) ∷ d) m =
    let (c', n) = terminate_call now reason (c, m) in
    cc (terminate_call-ended now reason c m, terminate_calls-ended now reason d n)

no_bridged :
    (now : ℕ) (reason : Option Text) (d : Dict Text CallMachine)
    → keep_if (λ c. state_eq c.state State.bridged) (values (map_values (ended now reason) d)) ≡ []
no_bridged now reason [] = refl
no_bridged now reason ((k, c) ∷ d) = ground (arith, no_bridged now reason d)

bridged_ids-map :
    (cs : List CallMachine)
    → bridged_ids cs ≡ map (λ c. c.call_id) (keep_if (λ c. state_eq c.state State.bridged) cs)
bridged_ids-map [] = refl
bridged_ids-map (c ∷ cs) = ground (arith, bridged_ids-map cs)

module _ {P : Type 0} where
  -- terminate_bridged_calls puts every bridged call, and no other, into HANGUP with the reason,
  -- leaves no bridged call, and returns the identifiers of the calls that were bridged, in order.
  pub terminate_bridged_calls_lem :
      (r : CallRegistry P) (reason : Option Text) (now : ℕ)
      → let (s, ids) = terminate_bridged_calls r reason now in
        ((k : Text)
          → get k s.calls
            ≡ (elim (get k r.calls) [ none ↦ none | some c ↦ some (ended now reason c) ]))
        × (get_bridged_calls s ≡ [])
        × (ids ≡ map (λ c. c.call_id) (get_bridged_calls r))
  unfolding terminate_bridged_calls get_bridged_calls
  terminate_bridged_calls_lem r reason now =
      let e = terminate_calls-ended now reason r.calls r.metrics in
      (
        λ k. rw e (get-map_values (ended now reason) k r.calls),
        rw e (no_bridged now reason r.calls),
        bridged_ids-map (values r.calls),
      )
