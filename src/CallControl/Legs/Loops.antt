-- ===== src/CallControl/Legs/Loops.antt =====
-- core/call_control.py: the loops of `fast_forward_bridged` and `terminate_bridged_calls` keep the
-- direction and the modem of every call.
use sim_bridge.Prelude.{
  ℕ, Text, text_Comparable, Bool, List, [], ◌∷◌, Option, some, ◌≡◌, refl, ◌∙◌, arith, Bool-cases,
  Option-cases, inl, inr, is_none, text_eq,
}
use sim_bridge.Dict.{Dict, get}
use sim_bridge.Dict.Counts.{Unique}
use sim_bridge.Metrics.{Direction, MetricsCollector}
use sim_bridge.CallControl.State.{CallState, state_eq}
use sim_bridge.CallControl.Machine.{CallMachine}
use sim_bridge.CallControl.Lifecycle.{transition_inversion}
use sim_bridge.CallControl.Registry.{CallRegistry, move, metrics_hook}
use sim_bridge.CallControl.Monitor.{
  fast_forward, fast_forward_bridged, forward_steps, terminate_call, terminate_calls,
  terminate_bridged_calls,
}
use sim_bridge.CallControl.Legs.{
  SameLegs, SameLegs-refl, write-SameLegs, legs_count, SameCall, SameCall-refl, SameCall-trans,
  SameIds, enter-SameCall,
}

move-keeps :
    (now : ℕ) (s : CallState) (c d : CallMachine) (m n : Option MetricsCollector)
    → move now s (c, m) ≡ some (d, n)
    → SameCall d c
move-keeps now s c d m n h =
    let (_, same, _) = transition_inversion (metrics_hook now) now s c d m n h in
    rw same (enter-SameCall now s c)

fast_forward-keeps :
    (now : ℕ) (steps : List (CallState × CallState)) (c : CallMachine) (m : Option MetricsCollector)
    → SameCall (fast_forward now steps (c, m)).0.0 c
unfolding fast_forward
fast_forward-keeps now [] c m = SameCall-refl c
fast_forward-keeps now ((src, dst) ∷ steps) c m = elim (Bool-cases (state_eq c.state src)) [
  | inr e ↦ rw e (fast_forward-keeps now steps c m)
  | inl e ↦ elim (Option-cases (move now dst (c, m))) [
    | inl f ↦ rw (e, f) (SameCall-refl c)
    | inr ((d, n), f) ↦
        let kept = move-keeps now dst c d m n f in
        let later = fast_forward-keeps now steps d n in rw (e, f) (SameCall-trans later kept)
  ]
]

terminate_call-keeps :
    (now : ℕ) (reason : Option Text) (c : CallMachine) (m : Option MetricsCollector)
    → SameCall (terminate_call now reason (c, m)).0 c
unfolding terminate_call
terminate_call-keeps now reason c m = elim (Bool-cases (state_eq c.state CallState.bridged)) [
  | inr e ↦ rw e (SameCall-refl c)
  | inl e ↦ elim (Option-cases (move now CallState.hangup (c, m))) [
    | inl f ↦ rw (e, f) (record { direction = refl; modem_id = refl; call_id = refl })
    | inr ((d, n), f) ↦
        let kept = move-keeps now CallState.hangup c d m n f in
        rw (e, f)
          (record { direction = kept.direction; modem_id = kept.modem_id; call_id = kept.call_id })
  ]
]

terminate_calls-legs :
    (now : ℕ) (reason : Option Text) (q : Direction → Text → Bool) (d : Dict Text CallMachine)
    (m : Option MetricsCollector)
    → legs_count q (terminate_calls now reason d m).0 ≡ legs_count q d
unfolding terminate_calls
terminate_calls-legs now reason q [] m = refl
terminate_calls-legs now reason q ((k, c) ∷ d) m =
    let (c', n) = terminate_call now reason (c, m) in
    let kept = terminate_call-keeps now reason c m in
    ground (arith, kept.direction, kept.modem_id, terminate_calls-legs now reason q d n)

get-terminate_calls :
    (now : ℕ) (reason : Option Text) (j : Text) (d : Dict Text CallMachine)
    (m : Option MetricsCollector)
    → is_none (get j (terminate_calls now reason d m).0) ≡ is_none (get j d)
unfolding terminate_calls get
get-terminate_calls now reason j [] m = refl
get-terminate_calls now reason j ((k, c) ∷ d) m =
    let (c', n) = terminate_call now reason (c, m) in
    ground (arith, get-terminate_calls now reason j d n)

terminate_calls-Unique :
    (now : ℕ) (reason : Option Text) (d : Dict Text CallMachine) (m : Option MetricsCollector)
    → Unique d
    → Unique (terminate_calls now reason d m).0
unfolding terminate_calls
terminate_calls-Unique now reason [] m u = tt
terminate_calls-Unique now reason ((k, c) ∷ d) m u =
    let (c', n) = terminate_call now reason (c, m) in
    (get-terminate_calls now reason k d n ∙ u.0, terminate_calls-Unique now reason d n u.1)

terminate_calls-ids :
    (now : ℕ) (reason : Option Text) (d : Dict Text CallMachine) (m : Option MetricsCollector)
    → SameIds d (terminate_calls now reason d m).0
unfolding terminate_calls get
terminate_calls-ids now reason [] m j e h = cc h
terminate_calls-ids now reason ((k, c) ∷ d) m j e h =
    let (c', n) = terminate_call now reason (c, m) in
    let kept = terminate_call-keeps now reason c m in
    elim (Bool-cases (text_eq k j)) [
      | inl f ↦ (c, (ground arith, ground (arith, kept.call_id)))
      | inr f ↦
          let deeper : get j (terminate_calls now reason d n).0 ≡ some e = ground arith in
          let (x, found) = terminate_calls-ids now reason d n j e deeper in
          (x, (ground (arith, found.0), found.1))
    ]

module _ {P : Type 0} where
  pub terminate_bridged_calls-SameLegs :
      (r : CallRegistry P) (reason : Option Text) (now : ℕ)
      → SameLegs r (terminate_bridged_calls r reason now).0
  unfolding terminate_bridged_calls
  terminate_bridged_calls-SameLegs r reason now = record {
    unique = terminate_calls-Unique now reason r.calls r.metrics;
    legs = λ q. terminate_calls-legs now reason q r.calls r.metrics;
    ids = terminate_calls-ids now reason r.calls r.metrics;
    counter = refl;
    pool = refl;
  }

  pub fast_forward_bridged-SameLegs :
      (r : CallRegistry P) (id : Text) (now : ℕ) → SameLegs r (fast_forward_bridged r id now).0
  unfolding fast_forward_bridged
  fast_forward_bridged-SameLegs r id now = elim (Option-cases (get id r.calls)) [
    | inl e ↦ rw (e, fast_forward_bridged) (SameLegs-refl r)
    | inr (c, e) ↦
        let kept = fast_forward-keeps now forward_steps c r.metrics in
        rw (e, fast_forward_bridged) (write-SameLegs r id c _ _ e kept)
  ]
