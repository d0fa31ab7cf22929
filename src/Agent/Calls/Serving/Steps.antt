-- ===== src/Agent/Calls/Serving/Steps.antt =====
-- agent/routes.py over core/call_control.py: what the handlers may do to the registry, as a relation.
use sim_bridge.Prelude.{Bool, true, false, Option, none, some, if◌then◌else◌}
use sim_bridge.Modem.Pool.{Provider}
use sim_bridge.CallControl.Registry.{CallRegistry}
use sim_bridge.Agent.Http.{Reply}
use sim_bridge.Agent.Calls.{CallApi}
use sim_bridge.CallControl.Trace.{Event, step, Sound}

-- The registry that is reached by operations each of which is sound where it is applied.
pub data Reach {P : Type 0} ⦃i : Provider P⦄ (r : CallRegistry P) : CallRegistry P → Type 0 where
  here : Reach r r
  next : {s : CallRegistry P} → Reach r s → (e : Event P) → Sound s e → Reach r (step s e)

module _ {P : Type 0} ⦃i : Provider P⦄ where
  pub Reach-trans : {r s t : CallRegistry P} → Reach r s → Reach s t → Reach r t
  Reach-trans a here = a
  Reach-trans a (next b e h) = next (Reach-trans a b) e h

  -- A property of registries that every sound operation keeps holds of all that is reached.
  pub Reach-induction :
      (K : CallRegistry P → Type 0)
      → ((s : CallRegistry P) (e : Event P) → Sound s e → K s → K (step s e))
      → {r s : CallRegistry P} → Reach r s
      → K r
      → K s
  Reach-induction K keeps here k = k
  Reach-induction K keeps (next {s} b e h) k = keeps s e h (Reach-induction K keeps b k)

  -- Both branches of a test reach.
  pub if-Reach {ℓ} :
      {S : Type ℓ} (f : S → CallRegistry P) (r : CallRegistry P) (b : Bool) (x y : S)
      → Reach r (f x)
      → Reach r (f y)
      → Reach r (f (if b then x else y))
  if-Reach f r true x y p q = p
  if-Reach f r false x y p q = q

  pub one_step : (r : CallRegistry P) (e : Event P) → Sound r e → Reach r (step r e)
  one_step r e h = next here e h

  -- The same for what a handler ends with.
  pub if-Served :
      {A : Type 0} (r : CallRegistry P) (b : Bool) (x y : CallApi P × Reply A)
      → Reach r x.0.registry
      → Reach r y.0.registry
      → Reach r (if b then x else y).0.registry
  if-Served r true x y p q = p
  if-Served r false x y p q = q

  pub option-Served :
      {A : Type 0} {B : Type 0} (r : CallRegistry P) (o : Option B) (x : CallApi P × Reply A)
      (y : B → CallApi P × Reply A)
      → Reach r x.0.registry
      → ((b : B) → Reach r (y b).0.registry)
      → let t : CallApi P × Reply A = elim o [ none ↦ x | some b ↦ y b ] in Reach r t.0.registry
  option-Served r none x y p q = p
  option-Served r (some b) x y p q = q b
