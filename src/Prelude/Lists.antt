-- ===== src/Prelude/Lists.antt =====
-- Lists measured by native numbers, tests on their elements, and membership by recursion.
use Prim.Native.Nat.{ℕ, zero, suc, ◌+◌, ◌≤◌}
use mathlib.Core.Path.{◌≡◌, refl, subst}
use mathlib.Core.Logic.{◌↔◌, ◌⊎◌, inl, inr}
use mathlib.Core.Bool.{Bool, true, false, ◌||◌}
use mathlib.Core.List.{List, [], ◌∷◌, ◌++◌}
use mathlib.Core.Option.{Option, none, some}
use native.Mathlib.Omega.{arith}
use sim_bridge.Prelude.Tests.{if◌then◌else◌, Comparable, ◌==◌, Bool-cases}

module _ {ℓ} {A : Type ℓ} where
  abbrev pub length : List A → ℕ
  length [] = 0
  length (x ∷ xs) = suc (length xs)

  abbrev pub get_elem? : List A → ℕ → Option A
  get_elem? [] i = none
  get_elem? (x ∷ xs) zero = some x
  get_elem? (x ∷ xs) (suc i) = get_elem? xs i

  abbrev pub take : ℕ → List A → List A
  take zero xs = []
  take (suc n) [] = []
  take (suc n) (x ∷ xs) = x ∷ take n xs

  abbrev pub drop : ℕ → List A → List A
  drop zero xs = xs
  drop (suc n) [] = []
  drop (suc n) (x ∷ xs) = drop n xs

  -- `[x for x in xs if p x]`
  abbrev pub keep_if : (A → Bool) → List A → List A
  keep_if p [] = []
  keep_if p (x ∷ xs) = let rest = keep_if p xs in if p x then x ∷ rest else rest

  -- `sum(1 for x in xs if p x)`
  abbrev pub count_if : (A → Bool) → List A → ℕ
  count_if p [] = 0
  count_if p (x ∷ xs) = if p x then suc (count_if p xs) else count_if p xs

  abbrev pub any_of : (A → Bool) → List A → Bool
  any_of p [] = false
  any_of p (x ∷ xs) = p x || any_of p xs

  abbrev pub All {κ} : (A → Type κ) → List A → Type κ
  All P [] = Unit
  All P (x ∷ xs) = P x × All P xs

  pub length-append : (xs ys : List A) → length (xs ++ ys) ≡ length xs + length ys
  length-append [] ys = omega arith
  length-append (x ∷ xs) ys = omega (arith, length-append xs ys)

  pub length-keep_if-le : (p : A → Bool) (xs : List A) → length (keep_if p xs) ≤ length xs
  length-keep_if-le p [] = omega arith
  length-keep_if-le p (x ∷ xs) = ground (arith, length-keep_if-le p xs)

  pub length-keep_if : (p : A → Bool) (xs : List A) → length (keep_if p xs) ≡ count_if p xs
  length-keep_if p [] = refl
  length-keep_if p (x ∷ xs) = ground (arith, length-keep_if p xs)

  -- Every element that is kept passes the test.
  pub keep_if-All : (p : A → Bool) (xs : List A) → All (λ x. p x ≡ true) (keep_if p xs)
  keep_if-All p [] = tt
  keep_if-All p (x ∷ xs) = ground (arith, keep_if-All p xs)

  pub All-weaken {κ μ} :
      (P : A → Type κ) (Q : A → Type μ)
      → ((x : A) → P x → Q x)
      → (xs : List A) → All P xs
      → All Q xs
  All-weaken P Q f [] a = tt
  All-weaken P Q f (x ∷ xs) a = (f x a.0, All-weaken P Q f xs a.1)

  pub All-append {κ} : (P : A → Type κ) (xs ys : List A) → All P xs → All P ys → All P (xs ++ ys)
  All-append P [] ys h k = k
  All-append P (x ∷ xs) ys h k = (h.0, All-append P xs ys h.1 k)

-- Membership by recursion, which the tactics take apart.
abbrev pub Member : {A : Type 0} → A → List A → Type 0
Member a [] = ⊥
Member a (x ∷ xs) = (x ≡ a) ⊎ Member a xs

module _ {A : Type 0} where
  pub Member-keep_if :
      (p : A → Bool) (a : A) (xs : List A) → Member a (keep_if p xs) ↔ (Member a xs × (p a ≡ true))
  Member-keep_if p a [] = ground arith
  Member-keep_if p a (x ∷ xs) = ground (arith, Member-keep_if p a xs)

-- Tests of membership in a list whose elements `==` compares.
module _ {ℓ} {A : Type ℓ} ⦃e : Comparable A⦄ where
  unfoldable pub contains : A → List A → Bool
  contains a [] = false
  contains a (x ∷ xs) = x == a || contains a xs

  -- `set.discard`
  unfoldable pub discard : A → List A → List A
  discard a [] = []
  discard a (x ∷ xs) = let rest = discard a xs in if x == a then rest else x ∷ rest

  -- `set.add`
  unfoldable pub add : A → List A → List A
  add a xs = if contains a xs then xs else xs ++ a ∷ []

  pub contains-append :
      (a : A) (xs ys : List A) → contains a (xs ++ ys) ≡ (contains a xs || contains a ys)
  unfolding contains
  contains-append a [] ys = refl
  contains-append a (x ∷ xs) ys = ground (arith, contains-append a xs ys)

  pub contains-discard :
      (a b : A) (xs : List A)
      → contains b (discard a xs) ≡ (if a == b then false else contains b xs)
  unfolding contains discard
  contains-discard a b [] = ground arith
  contains-discard a b (x ∷ xs) =
      ground (arith, contains-discard a b xs, e.equals_iff x a, e.equals_iff x b, e.equals_iff a b)

  pub contains-add :
      (a b : A) (xs : List A) → contains b (add a xs) ≡ (if a == b then true else contains b xs)
  unfolding add contains
  contains-add a b xs = ground (arith, contains-append b xs (a ∷ []), e.equals_iff a b)

  -- What holds of every element holds of one that the test finds.
  pub All-contains {κ} :
      (P : A → Type κ) (a : A) (xs : List A) → All P xs → contains a xs ≡ true → P a
  unfolding contains
  All-contains P a [] h c = ground arith
  All-contains P a (x ∷ xs) h c = elim (Bool-cases (x == a)) [
    | inl same ↦ subst P ((e.equals_iff x a).0 same) h.0
    | inr other ↦ All-contains P a xs h.1 (ground arith)
  ]

  pub All-add {κ} : (P : A → Type κ) (a : A) (xs : List A) → P a → All P xs → All P (add a xs)
  unfolding add
  All-add P a xs p h = elim (Bool-cases (contains a xs)) [
    | inl e ↦ ground (arith, h)
    | inr e ↦ ground (arith, All-append P xs (a ∷ []) h (p, tt))
  ]

  pub All-discard {κ} : (P : A → Type κ) (a : A) (xs : List A) → All P xs → All P (discard a xs)
  unfolding discard
  All-discard P a [] h = tt
  All-discard P a (x ∷ xs) h = ground (arith, All-discard P a xs h.1)

module _ {A : Type 0} ⦃e : Comparable A⦄ where
  pub contains_iff : (a : A) (xs : List A) → (contains a xs ≡ true) ↔ Member a xs
  unfolding contains
  contains_iff a [] = ground arith
  contains_iff a (x ∷ xs) = ground (arith, contains_iff a xs, e.equals_iff x a)
