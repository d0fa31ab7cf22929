-- ===== src/CallControl/Legs.antt =====
-- core/call_control.py, `CallRegistry`: the operations on calls that are there change neither the
-- direction nor the modem of a call, and touch no reservation.
pub mod Loops
pub mod Elsewhere
use sim_bridge.Prelude.{
  ℕ, ◌+◌, Text, text_Comparable, Bool, true, false, List, [], ◌∷◌, Option, none, some, ◌≡◌, refl,
  ◌∙◌, arith, is_set, if◌then◌else◌, count_if, Bool-cases, Option-cases, ◌⊎◌, inl, inr, ◌&&◌,
  text_eq, text_eq_iff,
}
use sim_bridge.Dict.{Dict, get, put, values}
use sim_bridge.Dict.Laws.{get-put}
use sim_bridge.Dict.Counts.{Unique, put-Unique, count_if-put, weight}
use sim_bridge.Metrics.{Direction, MetricsCollector}
use sim_bridge.Modem.Pool.{ModemPool}
use sim_bridge.CallControl.State.{CallState}
use sim_bridge.CallControl.Machine
use sim_bridge.CallControl.Machine.{CallMachine, enter}
use sim_bridge.CallControl.Lifecycle.{transition_inversion}
use sim_bridge.CallControl.Registry.{CallRegistry, move, metrics_hook}
use sim_bridge.CallControl.Operations.{
  transition, update_call, then_update, write, set_gsm_channel, set_error, answer_gsm, dial_gsm,
  hangup, reject, gsm_error, set_bridge_leg, set_telegram_call_id,
}

-- The calls whose direction and modem pass a test.
abbrev pub legs_count : (Direction → Text → Bool) → Dict Text CallMachine → ℕ
legs_count q calls = count_if (λ c. q c.direction c.modem_id) (values calls)

-- A call that has kept what never changes of it.
pub record SameCall (d c : CallMachine) : Type 0 where
  pub direction : d.direction ≡ c.direction
  pub modem_id : d.modem_id ≡ c.modem_id
  pub call_id : d.call_id ≡ c.call_id

pub SameCall-refl : (c : CallMachine) → SameCall c c
SameCall-refl c = record { direction = refl; modem_id = refl; call_id = refl }

pub SameCall-trans : {e d c : CallMachine} → SameCall e d → SameCall d c → SameCall e c
SameCall-trans a b = record {
  direction = a.direction ∙ b.direction;
  modem_id = a.modem_id ∙ b.modem_id;
  call_id = a.call_id ∙ b.call_id;
}

-- Every call of `s` was there in `r`, under the same key.
abbrev pub SameIds : Dict Text CallMachine → Dict Text CallMachine → Type 0
SameIds r s =
    (k : Text) (d : CallMachine)
    → get k s ≡ some d
    → (c : CallMachine) × ((get k r ≡ some c) × (d.call_id ≡ c.call_id))

pub record SameLegs {P : Type 0} (r s : CallRegistry P) : Type 0 where
  pub unique : Unique r.calls → Unique s.calls
  pub legs : (q : Direction → Text → Bool) → legs_count q s.calls ≡ legs_count q r.calls
  pub ids : SameIds r.calls s.calls
  pub counter : s.modems_reserved ≡ r.modems_reserved
  pub pool : s.modem_pool ≡ r.modem_pool

pub enter-SameCall : (now : ℕ) (s : CallState) (c : CallMachine) → SameCall (enter now s c) c
unfolding enter
enter-SameCall now s c = record { direction = refl; modem_id = refl; call_id = refl }

put-SameIds :
    (calls : Dict Text CallMachine) (id : Text) (c d : CallMachine)
    → get id calls ≡ some c
    → d.call_id ≡ c.call_id
    → SameIds calls (put id d calls)
put-SameIds calls id c d h same k e g = elim (Bool-cases (text_eq id k)) [
  | inl f ↦ ground (arith, get-put id k d calls, text_eq_iff id k)
  | inr f ↦ ground (arith, get-put id k d calls)
]

module _ {P : Type 0} where
  pub SameLegs-refl : (r : CallRegistry P) → SameLegs r r
  SameLegs-refl r = record {
    unique = λ u. u;
    legs = λ q. refl;
    ids = λ k d h. (d, (h, refl));
    counter = refl;
    pool = refl;
  }

  pub SameLegs-trans : {r s t : CallRegistry P} → SameLegs r s → SameLegs s t → SameLegs r t
  SameLegs-trans a b = record {
    unique = λ u. b.unique (a.unique u);
    legs = λ q. b.legs q ∙ a.legs q;
    ids = λ k e h.
        let (d, later) = b.ids k e h in
        let (c, earlier) = a.ids k d later.0 in (c, (earlier.0, later.1 ∙ earlier.1));
    counter = b.counter ∙ a.counter;
    pool = b.pool ∙ a.pool;
  }

  -- The write of a call that has kept its direction and modem.
  pub write-SameLegs :
      (r : CallRegistry P) (id : Text) (c d : CallMachine) (m : Option MetricsCollector)
      → get id r.calls ≡ some c
      → SameCall d c
      → SameLegs r (write id r (d, m))
  write-SameLegs r id c d m h same = record {
    unique = put-Unique id d r.calls;
    legs = λ q. ground (
      arith,
      count_if-put (λ c. q c.direction c.modem_id) id d r.calls,
      same.direction,
      same.modem_id,
    );
    ids = put-SameIds r.calls id c d h same.call_id;
    counter = refl;
    pool = refl;
  }

  pub transition-SameLegs :
      (r : CallRegistry P) (id : Text) (s : CallState) (now : ℕ)
      → SameLegs r (transition r id s now).0
  unfolding transition
  transition-SameLegs r id s now = elim (Option-cases (get id r.calls)) [
    | inl e ↦ rw (e, transition) (SameLegs-refl r)
    | inr (c, e) ↦ elim (Option-cases (move now s (c, r.metrics))) [
      | inl f ↦ rw (e, transition, f) (SameLegs-refl r)
      | inr ((d, m), f) ↦
          let (_, same, _) = transition_inversion (metrics_hook now) now s c d r.metrics m f in
          rw (e, transition, f) (write-SameLegs r id c d m e (rw same (enter-SameCall now s c)))
    ]
  ]

  pub update_call-SameLegs :
      (r : CallRegistry P) (id : Text) (f : CallMachine → CallMachine)
      → ((c : CallMachine) → SameCall (f c) c)
      → SameLegs r (update_call id f r)
  unfolding update_call
  update_call-SameLegs r id f keeps = elim (Option-cases (get id r.calls)) [
    | inl e ↦ rw (e, update_call) (SameLegs-refl r)
    | inr (c, e) ↦ rw (e, update_call) (write-SameLegs r id c (f c) r.metrics e (keeps c))
  ]

  then_update-SameLegs :
      (r s : CallRegistry P) (id : Text) (value : Option Text) (f : CallMachine → CallMachine)
      (done : Bool)
      → ((c : CallMachine) → SameCall (f c) c)
      → SameLegs r s
      → SameLegs r (then_update id value f (s, done)).0
  unfolding then_update
  then_update-SameLegs r s id value f done keeps h = elim (Bool-cases (done && is_set value)) [
    | inl e ↦ rw e (SameLegs-trans h (update_call-SameLegs s id f keeps))
    | inr e ↦ rw e h
  ]

  -- A transition and the write that follows a success.
  pub transition_update-SameLegs :
      (r : CallRegistry P) (id : Text) (s : CallState) (value : Option Text)
      (f : CallMachine → CallMachine) (now : ℕ)
      → ((c : CallMachine) → SameCall (f c) c)
      → SameLegs r (then_update id value f (transition r id s now)).0
  transition_update-SameLegs r id s value f now keeps =
      let (t, done) = transition r id s now in
      then_update-SameLegs r t id value f done keeps (transition-SameLegs r id s now)

  pub set_bridge_leg-SameLegs :
      (r : CallRegistry P) (id channel : Text) → SameLegs r (set_bridge_leg r id channel).0
  unfolding set_bridge_leg
  set_bridge_leg-SameLegs r id channel = elim (Option-cases (get id r.calls)) [
    | inl e ↦ rw (e, set_bridge_leg) (SameLegs-refl r)
    | inr (c, e) ↦
        rw (e, set_bridge_leg)
          (write-SameLegs r id c _ r.metrics e
            (record { direction = refl; modem_id = refl; call_id = refl }))
  ]

  pub set_telegram_call_id-SameLegs :
      (r : CallRegistry P) (id tg : Text) → SameLegs r (set_telegram_call_id r id tg).0
  unfolding set_telegram_call_id
  set_telegram_call_id-SameLegs r id tg = elim (Option-cases (get id r.calls)) [
    | inl e ↦ rw (e, set_telegram_call_id) (SameLegs-refl r)
    | inr (c, e) ↦
        rw (e, set_telegram_call_id)
          (write-SameLegs r id c _ r.metrics e
            (record { direction = refl; modem_id = refl; call_id = refl }))
  ]
