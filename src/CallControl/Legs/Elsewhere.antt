-- ===== src/CallControl/Legs/Elsewhere.antt =====
-- core/call_control.py, `CallRegistry`: an operation on a call leaves the other calls, and one that is
-- refused leaves everything.
use sim_bridge.Prelude.{
  ℕ, Text, text_Comparable, text_eq, Bool, true, false, Option, ◌≡◌, refl, ◌∙◌, arith, is_set, ◌&&◌,
  Bool-cases, Option-cases, inl, inr,
}
use sim_bridge.Dict.{get}
use sim_bridge.Dict.Laws.{get-put}
use sim_bridge.CallControl.State.{CallState}
use sim_bridge.CallControl.Machine.{CallMachine}
use sim_bridge.CallControl.Registry.{CallRegistry, move}
use sim_bridge.CallControl.Operations.{
  transition, update_call, then_update, hangup, reject, gsm_error, set_error,
}

abbrev pub Elsewhere : {P : Type 0} → Text → CallRegistry P → CallRegistry P → Type 0
Elsewhere id r s = (k : Text) → text_eq id k ≡ false → get k s.calls ≡ get k r.calls

module _ {P : Type 0} where
  pub transition-Elsewhere :
      (r : CallRegistry P) (id : Text) (s : CallState) (now : ℕ)
      → Elsewhere id r (transition r id s now).0
  unfolding transition
  transition-Elsewhere r id s now k h = elim (Option-cases (get id r.calls)) [
    | inl e ↦ rw (e, transition) refl
    | inr (c, e) ↦ elim (Option-cases (move now s (c, r.metrics))) [
      | inl f ↦ rw (e, transition, f) refl
      | inr ((d, m), f) ↦ rw (e, transition, f) (ground (arith, get-put id k d r.calls))
    ]
  ]

  pub transition_refused :
      (r : CallRegistry P) (id : Text) (s : CallState) (now : ℕ)
      → (transition r id s now).1 ≡ false
      → (transition r id s now).0 ≡ r
  unfolding transition
  transition_refused r id s now h = elim (Option-cases (get id r.calls)) [
    | inl e ↦ rw (e, transition) refl
    | inr (c, e) ↦ elim (Option-cases (move now s (c, r.metrics))) [
      | inl f ↦ rw (e, transition, f) refl
      | inr ((d, m), f) ↦ ground (arith, e, f)
    ]
  ]

  update_call-Elsewhere :
      (id : Text) (f : CallMachine → CallMachine) (r : CallRegistry P)
      → Elsewhere id r (update_call id f r)
  unfolding update_call
  update_call-Elsewhere id f r k h = elim (Option-cases (get id r.calls)) [
    | inl e ↦ rw (e, update_call) refl
    | inr (c, e) ↦ rw (e, update_call) (ground (arith, get-put id k (f c) r.calls))
  ]

  then_update-Elsewhere :
      (r s : CallRegistry P) (id : Text) (value : Option Text) (f : CallMachine → CallMachine)
      (done : Bool)
      → Elsewhere id r s
      → Elsewhere id r (then_update id value f (s, done)).0
  unfolding then_update
  then_update-Elsewhere r s id value f done h k g = elim (Bool-cases (done && is_set value)) [
    | inl e ↦ rw e (update_call-Elsewhere id f s k g ∙ h k g)
    | inr e ↦ rw e (h k g)
  ]

  then_update_refused :
      (r s : CallRegistry P) (id : Text) (value : Option Text) (f : CallMachine → CallMachine)
      (done : Bool)
      → (done ≡ false → s ≡ r)
      → (then_update id value f (s, done)).1 ≡ false
      → (then_update id value f (s, done)).0 ≡ r
  unfolding then_update
  then_update_refused r s id value f true h g = cc g
  then_update_refused r s id value f false h g = h g

  pub hangup-Elsewhere :
      (r : CallRegistry P) (id : Text) (reason : Option Text) (now : ℕ)
      → Elsewhere id r (hangup r id reason now).0
  unfolding hangup
  hangup-Elsewhere r id reason now =
      let (s, done) = transition r id CallState.hangup now in
      then_update-Elsewhere r s id reason (set_error reason) done
        (transition-Elsewhere r id CallState.hangup now)

  pub hangup_refused :
      (r : CallRegistry P) (id : Text) (reason : Option Text) (now : ℕ)
      → (hangup r id reason now).1 ≡ false
      → (hangup r id reason now).0 ≡ r
  unfolding hangup
  hangup_refused r id reason now =
      let (s, done) = transition r id CallState.hangup now in
      then_update_refused r s id reason (set_error reason) done
        (transition_refused r id CallState.hangup now)

  pub reject_refused :
      (r : CallRegistry P) (id : Text) (reason : Option Text) (now : ℕ)
      → (reject r id reason now).1 ≡ false
      → (reject r id reason now).0 ≡ r
  unfolding reject
  reject_refused r id reason now =
      let (s, done) = transition r id CallState.rejected now in
      then_update_refused r s id reason (set_error reason) done
        (transition_refused r id CallState.rejected now)

  pub gsm_error_refused :
      (r : CallRegistry P) (id : Text) (reason : Option Text) (now : ℕ)
      → (gsm_error r id reason now).1 ≡ false
      → (gsm_error r id reason now).0 ≡ r
  unfolding gsm_error
  gsm_error_refused r id reason now =
      let (s, done) = transition r id CallState.gsm_error now in
      then_update_refused r s id reason (set_error reason) done
        (transition_refused r id CallState.gsm_error now)
