-- ===== src/CallControl/Monitor/Timeouts.antt =====
-- core/call_control.py: which calls `get_timed_out_calls` returns, and what the termination of bridged
-- calls leaves.
use sim_bridge.Prelude.{
  ℕ, ◌+◌, ◌*◌, ◌<◌, text_Comparable, true, ◌≡◌, refl, arith, ◌⊎◌, ◌↔◌, Member, Member-keep_if,
}
use sim_bridge.Dict.{values}
use sim_bridge.CallControl.State
use sim_bridge.CallControl.State.{CallState, state_eq}
use sim_bridge.CallControl.Machine.{CallMachine}
use sim_bridge.CallControl.Registry.{CallRegistry}
use sim_bridge.CallControl.Monitor.{Limits, has_timed_out, get_timed_out_calls}

-- The three kinds of time-out, each with its states and its limit in microseconds.
abbrev pub Overdue : Limits → ℕ → CallMachine → Type 0
Overdue l now c =
    (((c.state ≡ State.ringing) ⊎ (c.state ≡ State.telegram_ringing))
      × (c.updated_at + l.ring_wait_seconds * 1_000_000 < now))
    ⊎ (((c.state ≡ State.modem_reserved) ⊎ (c.state ≡ State.telegram_calling))
        × (c.updated_at + l.tg_ring_seconds * 1_000_000 < now))
    ⊎ ((c.state ≡ State.bridged) × (c.updated_at + l.max_call_seconds * 1_000_000 < now))

has_timed_out_iff :
    (l : Limits) (now : ℕ) (c : CallMachine) → (has_timed_out l now c ≡ true) ↔ Overdue l now c
unfolding has_timed_out
has_timed_out_iff l now c = go c.state refl
  where
    go : (s : CallState) → c.state ≡ s → (has_timed_out l now c ≡ true) ↔ Overdue l now c
    go State.idle e = ground arith
    go _ e = ground arith

module _ {P : Type 0} where
  -- get_timed_out_calls returns exactly the calls of the registry that have rung towards Telegram
  -- for longer than ring_wait_seconds, waited for the Telegram user for longer than
  -- tg_ring_seconds, or been bridged for longer than max_call_seconds, since they entered their
  -- state.
  pub Member-get_timed_out_calls :
      (r : CallRegistry P) (l : Limits) (now : ℕ) (c : CallMachine)
      → Member c (get_timed_out_calls r l now) ↔ (Member c (values r.calls) × Overdue l now c)
  unfolding get_timed_out_calls
  Member-get_timed_out_calls r l now c =
      let (only, all) = Member-keep_if (has_timed_out l now) c (values r.calls) in
      let (late, timed_out) = has_timed_out_iff l now c in
      (λ m. ((only m).0, late (only m).1), λ p. all (p.0, timed_out p.1))
