-- ===== src/CallControl/Monitor/Forward.antt =====
-- core/call_control.py, `fast_forward_bridged`: an incoming call that the dialplan reports answered.
use sim_bridge.Prelude.{
  ℕ, Text, text_Comparable, Bool, true, false, Option, none, some, ◌≡◌, refl, ap, ◌∙◌, arith,
  if◌then◌else◌, contains, ◌||◌, ◌≢◌, text_eq_iff,
}
use sim_bridge.Dict.{get}
use sim_bridge.Dict.Laws.{get-put}
use sim_bridge.Metrics.{incoming, MetricsCollector, call_answered}
use sim_bridge.CallControl.State
use sim_bridge.CallControl.State.{CallState, state_eq}
use sim_bridge.CallControl.Machine.{CallMachine, enter, transition}
use sim_bridge.CallControl.Registry.{CallRegistry, metrics_hook}
use sim_bridge.CallControl.Monitor.{fast_forward, forward_steps, fast_forward_bridged}
use sim_bridge.CallControl.Operations.{write}

-- The states from which the answered call is brought to BRIDGED.
abbrev pub before_bridged : CallState → Bool
before_bridged State.ringing = true
before_bridged State.telegram_ringing = true
before_bridged State.telegram_accepted = true
before_bridged State.gsm_answered = true
before_bridged _ = false

abbrev pub forwarded : ℕ → CallMachine → CallMachine
forwarded now c = record c { state = State.bridged; updated_at = now; bridged_at = some now }

-- One call more that was answered, of an incoming one.
abbrev pub one_answered : Option MetricsCollector → Option MetricsCollector
one_answered none = none
one_answered (some m) = some (call_answered m incoming)

fast_forward-incoming :
    (now : ℕ) (c : CallMachine) (s : CallState) (m : Option MetricsCollector)
    → c.state ≡ s
    → c.direction ≡ incoming
    → fast_forward now forward_steps (c, m) ≡ (
        if before_bridged s
        then ((forwarded now c, one_answered m), true)
        else ((c, m), state_eq s State.bridged))
unfolding fast_forward transition contains enter metrics_hook
fast_forward-incoming now c State.idle m e d = ground arith
fast_forward-incoming now c _ m e d = ground arith

module _ {P : Type 0} where
  forward_eq :
      (r : CallRegistry P) (id : Text) (now : ℕ) (c : CallMachine)
      → get id r.calls ≡ some c
      → c.direction ≡ incoming
      → fast_forward_bridged r id now ≡ (
          let (moved, done) = fast_forward now forward_steps (c, r.metrics) in
          (write id r moved, done))
  unfolding fast_forward_bridged
  forward_eq r id now c h d = rw (h, fast_forward_bridged)

  -- For an incoming call of the registry fast_forward_bridged brings it to BRIDGED from each of
  -- the four states before, counts it once as answered, changes nothing from any other state,
  -- tells whether the call is BRIDGED, and leaves the other calls alone.
  pub fast_forward_bridged_lem :
      (r : CallRegistry P) (id : Text) (now : ℕ) (c : CallMachine)
      → get id r.calls ≡ some c
      → c.direction ≡ incoming
      → let (s, done) = fast_forward_bridged r id now in
        (done ≡ (before_bridged c.state || state_eq c.state State.bridged))
        × (get id s.calls ≡ some (if before_bridged c.state then forwarded now c else c))
        × (s.metrics ≡ (if before_bridged c.state then one_answered r.metrics else r.metrics))
        × ((j : Text) → j ≢ id → get j s.calls ≡ get j r.calls)
  fast_forward_bridged_lem r id now c h d =
      let e =
        forward_eq r id now c h d
        ∙ ap (λ t. (write id r t.0, t.1)) (fast_forward-incoming now c c.state r.metrics refl d) in
      (
        ground (arith, e),
        ground (
          arith,
          e,
          get-put id id (forwarded now c) r.calls,
          get-put id id c r.calls,
          text_eq_iff id id,
        ),
        ground (arith, e),
        λ j n. ground (
          arith,
          e,
          get-put id j (forwarded now c) r.calls,
          get-put id j c r.calls,
          text_eq_iff id j,
        ),
      )
