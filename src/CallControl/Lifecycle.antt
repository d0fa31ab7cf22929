-- ===== src/CallControl/Lifecycle.antt =====
-- core/call_control.py: a call runs through finitely many states, and a call that has ended does not
-- come back.
use sim_bridge.Prelude.{
  Option-cases, ℕ, suc, ◌+◌, ◌≤◌, ◌<◌, true, List, [], ◌∷◌, Option, none, some, contains, All,
  All-contains, ◌≡◌, arith, inl, inr,
}
use sim_bridge.Metrics.{Direction, incoming, outgoing}
use sim_bridge.CallControl.State.{CallState, allowed, is_terminal_state, state_Comparable}
use sim_bridge.CallControl.Machine.{CallMachine, transition, enter, is_terminal}

-- What a successful `transition` did.
pub transition_inversion {ℓ} :
    {M : Type ℓ} (hook : CallMachine → M → M) (now : ℕ) (s : CallState) (c d : CallMachine)
    (m m' : M)
    → transition hook now s c m ≡ some (d, m')
    → (contains s (allowed c.direction c.state) ≡ true) × (d ≡ enter now s c) × (m' ≡ hook d m)
unfolding transition
transition_inversion hook now s c d m m' h = ground arith

-- How far a call has come.
rank : CallState → ℕ
rank CallState.idle = 0
rank CallState.ringing = 1
rank CallState.telegram_ringing = 2
rank CallState.telegram_accepted = 3
rank CallState.gsm_answered = 4
rank CallState.requested = 1
rank CallState.acl_checked = 2
rank CallState.modem_reserved = 3
rank CallState.telegram_calling = 4
rank CallState.user_accepted = 5
rank CallState.gsm_dialing = 6
rank CallState.gsm_ringing = 7
rank CallState.connected = 8
rank CallState.bridged = 9
rank CallState.voicemail = 9
rank CallState.hangup = 10
rank _ = 11

rank-allowed : (d : Direction) (s : CallState) → All (λ t. rank s < rank t) (allowed d s)
unfolding rank
rank-allowed incoming CallState.idle = omega arith
rank-allowed incoming _ = omega arith
rank-allowed outgoing CallState.idle = omega arith
rank-allowed outgoing _ = omega arith

terminal-allowed :
    (d : Direction) (s : CallState)
    → is_terminal_state s ≡ true
    → All (λ t. is_terminal_state t ≡ true) (allowed d s)
terminal-allowed incoming CallState.idle h = ground arith
terminal-allowed incoming _ h = ground arith
terminal-allowed outgoing CallState.idle h = ground arith
terminal-allowed outgoing _ h = ground arith

-- A request for a transition, made at a time. A refused one leaves the call as it was.
abbrev Request : Type 0
Request = ℕ × CallState

abbrev silent : CallMachine → Unit {0} → Unit {0}
silent c m = m

attempt : Request → CallMachine → Option (CallMachine × Unit {0})
attempt (now, s) c = transition silent now s c tt

abbrev or_stay : CallMachine → Option (CallMachine × Unit {0}) → CallMachine
or_stay c none = c
or_stay c (some (d, m)) = d

pub after : List Request → CallMachine → CallMachine
unfolding attempt
after [] c = c
after (r ∷ rs) c = after rs (or_stay c (attempt r c))

-- How many of the requests are granted.
pub granted : List Request → CallMachine → ℕ
unfolding attempt
granted [] c = 0
granted (r ∷ rs) c = elim (attempt r c) [ none ↦ granted rs c | some (d, m) ↦ suc (granted rs d) ]

rank-le : (s : CallState) → rank s ≤ 11
unfolding rank
rank-le CallState.idle = omega arith
rank-le _ = omega arith

attempt-rank :
    (r : Request) (c d : CallMachine) (m : Unit {0})
    → attempt r c ≡ some (d, m)
    → rank c.state < rank d.state
unfolding attempt enter
attempt-rank (now, s) c d m h =
    let (ok, e, _) = transition_inversion silent now s c d tt m h in
    rw (e, enter)
      (All-contains (λ t. rank c.state < rank t) s (allowed c.direction c.state)
        (rank-allowed c.direction c.state) ok)

granted-rank : (rs : List Request) (c : CallMachine) → granted rs c + rank c.state ≤ 11
unfolding granted
granted-rank [] c = omega (arith, rank-le c.state)
granted-rank (r ∷ rs) c = elim (Option-cases (attempt r c)) [
  | inl e ↦ rw (e, granted) (granted-rank rs c)
  | inr ((d, m), e) ↦ rw (e, granted) (omega (arith, granted-rank rs d, attempt-rank r c d m e))
]

-- Of any requests for transitions, in any order and at any times, at most eleven are granted to
-- one call.
pub granted-le : (rs : List Request) (c : CallMachine) → granted rs c ≤ 11
granted-le rs c = omega (arith, granted-rank rs c)

attempt-terminal :
    (r : Request) (c : CallMachine)
    → is_terminal c ≡ true
    → is_terminal (or_stay c (attempt r c)) ≡ true
unfolding enter
attempt-terminal (now, s) c h = elim (Option-cases (attempt (now, s) c)) [
  | inl e ↦ rw e h
  | inr ((d, m), e) ↦
      let (ok, same, _) = transition_inversion silent now s c d tt m (unfold attempt in e) in
      rw (e, same)
        (All-contains (λ t. is_terminal_state t ≡ true) s (allowed c.direction c.state)
          (terminal-allowed c.direction c.state h) ok)
]

-- A call in a terminal state stays in terminal states, whatever transitions are requested of it.
pub after-terminal :
    (rs : List Request) (c : CallMachine) → is_terminal c ≡ true → is_terminal (after rs c) ≡ true
unfolding after
after-terminal [] c h = h
after-terminal (r ∷ rs) c h = after-terminal rs (or_stay c (attempt r c)) (attempt-terminal r c h)
