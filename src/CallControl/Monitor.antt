-- ===== src/CallControl/Monitor.antt =====
-- core/call_control.py, `CallRegistry`: the queries, the time limits, the fast-forward to BRIDGED and
-- the termination of bridged calls.
pub mod Timeouts
pub mod Termination
pub mod Forward
use sim_bridge.Prelude.{
  ℕ, Text, text_Comparable, Bool, true, false, List, [], ◌∷◌, ◌++◌, Option, none, some,
  if◌then◌else◌, ◌&&◌, keep_if, count_if, not,
}
use sim_bridge.Dict.{Dict, get, values}
use sim_bridge.Metrics.{Direction, incoming, outgoing, MetricsCollector}
use sim_bridge.CallControl.State
use sim_bridge.CallControl.State.{CallState, state_eq}
use sim_bridge.CallControl.Machine.{
  CallMachine, is_terminal, is_active, exceeds, get_active_channel_ids,
}
use sim_bridge.CallControl.Registry.{CallRegistry, move, is_outgoing}
use sim_bridge.CallControl.Operations.{write}

-- `call.direction == direction`
abbrev pub same_direction : Direction → Direction → Bool
same_direction incoming d = not (is_outgoing d)
same_direction outgoing d = is_outgoing d

-- The time limits of `get_timed_out_calls`, in seconds.
pub record Limits : Type 0 where
  pub ring_wait_seconds : ℕ
  pub max_call_seconds : ℕ
  pub tg_ring_seconds : ℕ

-- The branch on `call.state`: the limit that applies in a state.
unfoldable pub limit_in : Limits → CallState → Option ℕ
limit_in l CallState.ringing = some l.ring_wait_seconds
limit_in l CallState.telegram_ringing = some l.ring_wait_seconds
limit_in l CallState.modem_reserved = some l.tg_ring_seconds
limit_in l CallState.telegram_calling = some l.tg_ring_seconds
limit_in l CallState.bridged = some l.max_call_seconds
limit_in l _ = none

-- The test of one call in the loop. `updated_at` is never empty.
unfoldable pub has_timed_out : Limits → ℕ → CallMachine → Bool
unfolding limit_in
has_timed_out l now c = if is_terminal c then false else (elim (limit_in l c.state) [
  | none ↦ false
  | some seconds ↦ exceeds c.updated_at now seconds
])

-- The channels of the calls that are not terminal, in the order of the registry.
abbrev pub active_channels : List CallMachine → List Text
active_channels [] = []
active_channels (c ∷ cs) =
    let rest = active_channels cs in
    if is_terminal c then rest else get_active_channel_ids c ++ rest

module _ {P : Type 0} where
  unfoldable pub list_all : CallRegistry P → List CallMachine
  list_all r = values r.calls

  unfoldable pub list_active : CallRegistry P → List CallMachine
  list_active r = keep_if is_active (values r.calls)

  unfoldable pub count_by_state : CallRegistry P → CallState → ℕ
  count_by_state r s = count_if (λ c. state_eq c.state s) (values r.calls)

  unfoldable pub count_by_direction : CallRegistry P → Direction → ℕ
  count_by_direction r d =
      count_if (λ c. same_direction c.direction d && is_active c) (values r.calls)

  unfoldable pub get_timed_out_calls : CallRegistry P → Limits → ℕ → List CallMachine
  unfolding has_timed_out
  get_timed_out_calls r l now = keep_if (has_timed_out l now) (values r.calls)

  unfoldable pub get_orphan_channel_ids : CallRegistry P → List Text
  unfolding get_active_channel_ids
  get_orphan_channel_ids r = active_channels (values r.calls)

  unfoldable pub get_bridged_calls : CallRegistry P → List CallMachine
  get_bridged_calls r = keep_if (λ c. state_eq c.state CallState.bridged) (values r.calls)

-- The pairs (source, destination) of `fast_forward_bridged`.
abbrev pub forward_steps : List (CallState × CallState)
forward_steps =
    (CallState.ringing, CallState.telegram_ringing)
    ∷ (CallState.telegram_ringing, CallState.telegram_accepted)
    ∷ (CallState.telegram_accepted, CallState.gsm_answered)
    ∷ (CallState.gsm_answered, CallState.bridged)
    ∷ []

-- The loop, and the test after it. A transition that raises ends it with False.
unfoldable pub fast_forward :
    ℕ
    → List (CallState × CallState)
    → CallMachine × Option MetricsCollector
    → (CallMachine × Option MetricsCollector) × Bool
fast_forward now [] (c, m) = ((c, m), state_eq c.state CallState.bridged)
fast_forward now ((src, dst) ∷ steps) (c, m) =
    let moved : (CallMachine × Option MetricsCollector) × Bool = elim (move now dst (c, m)) [
      | none ↦ ((c, m), false)
      | some next ↦ fast_forward now steps next
    ] in
    let skipped = fast_forward now steps (c, m) in if state_eq c.state src then moved else skipped

-- One round of `terminate_bridged_calls`.
unfoldable pub terminate_call :
    ℕ → Option Text → CallMachine × Option MetricsCollector → CallMachine × Option MetricsCollector
terminate_call now reason (c, m) =
    if state_eq c.state CallState.bridged
    then (elim (move now CallState.hangup (c, m)) [
      | none ↦ (record c { error = reason }, m)
      | some (d, n) ↦ (record d { error = reason }, n)
    ])
    else (c, m)

-- The rounds over the calls, each with the metrics that the last has left.
unfoldable pub terminate_calls :
    ℕ
    → Option Text
    → Dict Text CallMachine
    → Option MetricsCollector
    → Dict Text CallMachine × Option MetricsCollector
terminate_calls now reason [] m = ([], m)
terminate_calls now reason ((k, c) ∷ d) m =
    let (c', n) = terminate_call now reason (c, m) in
    let (d', n') = terminate_calls now reason d n in ((k, c') ∷ d', n')

-- The identifiers that the rounds append to `terminated`.
abbrev pub bridged_ids : List CallMachine → List Text
bridged_ids [] = []
bridged_ids (c ∷ cs) =
    let rest = bridged_ids cs in
    if state_eq c.state CallState.bridged then c.call_id ∷ rest else rest

module _ {P : Type 0} where
  unfoldable pub fast_forward_bridged : CallRegistry P → Text → ℕ → CallRegistry P × Bool
  unfolding fast_forward
  fast_forward_bridged r call_id now = elim (get call_id r.calls) [
    | none ↦ (r, false)
    | some c ↦
        let (moved, done) = fast_forward now forward_steps (c, r.metrics) in
        (write call_id r moved, done)
  ]

  unfoldable pub terminate_bridged_calls :
      CallRegistry P → Option Text → ℕ → CallRegistry P × List Text
  unfolding terminate_calls
  terminate_bridged_calls r reason now =
      let (calls, metrics) = terminate_calls now reason r.calls r.metrics in
      (record r { calls = calls; metrics = metrics }, bridged_ids (values r.calls))
