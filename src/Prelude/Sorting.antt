-- ===== src/Prelude/Sorting.antt =====
-- `sorted(xs, key=…)`: the stable sort, from the test whether the first may stay before the second.
use Prim.Native.Nat.{suc}
use mathlib.Core.Path.{◌≡◌, refl}
use mathlib.Core.Logic.{◌↔◌, ◌⊎◌, inl, inr}
use mathlib.Core.Option.{some}
use mathlib.Core.Bool.{Bool, true}
use mathlib.Core.List.{List, [], ◌∷◌}
use native.Mathlib.Omega.{arith}
use sim_bridge.Prelude.Tests.{if◌then◌else◌}
use sim_bridge.Prelude.Lists.{length, All, Member, get_elem?}

module _ {ℓ} {A : Type ℓ} (le : A → A → Bool) where
  unfoldable pub insert_by : A → List A → List A
  insert_by x [] = x ∷ []
  insert_by x (y ∷ ys) = let rest = insert_by x ys in if le x y then x ∷ y ∷ ys else y ∷ rest

  unfoldable pub sort_by : List A → List A
  sort_by [] = []
  sort_by (x ∷ xs) = insert_by x (sort_by xs)

  length-insert_by : (x : A) (ys : List A) → length (insert_by x ys) ≡ suc (length ys)
  unfolding insert_by
  length-insert_by x [] = refl
  length-insert_by x (y ∷ ys) = ground (arith, length-insert_by x ys)

  pub length-sort_by : (xs : List A) → length (sort_by xs) ≡ length xs
  unfolding sort_by
  length-sort_by [] = refl
  length-sort_by (x ∷ xs) = omega (arith, length-insert_by x (sort_by xs), length-sort_by xs)

module _ {A : Type 0} (le : A → A → Bool) where
  Member-insert_by :
      (x a : A) (ys : List A) → Member a (insert_by le x ys) ↔ ((x ≡ a) ⊎ Member a ys)
  unfolding insert_by
  Member-insert_by x a [] = ground arith
  Member-insert_by x a (y ∷ ys) = ground (arith, Member-insert_by x a ys)

  -- Sorting loses nothing and invents nothing.
  pub Member-sort_by : (a : A) (xs : List A) → Member a (sort_by le xs) ↔ Member a xs
  unfolding sort_by
  Member-sort_by a [] = ground arith
  Member-sort_by a (x ∷ xs) =
      ground (arith, Member-insert_by x a (sort_by le xs), Member-sort_by a xs)

-- The first element of a sorted list comes before every other, if the test is a total order.
module _ {A : Type 0} (le : A → A → Bool) (total : (a b : A) → (le a b ≡ true) ⊎ (le b a ≡ true))
    (trans : (a b c : A) → le a b ≡ true → le b c ≡ true → le a c ≡ true) where
  abbrev Ordered : List A → Type 0
  Ordered [] = Unit
  Ordered (x ∷ xs) = All (λ y. le x y ≡ true) xs × Ordered xs

  All-weaken :
      (x y : A) (ys : List A)
      → le x y ≡ true
      → All (λ z. le y z ≡ true) ys
      → All (λ z. le x z ≡ true) ys
  All-weaken x y [] h a = tt
  All-weaken x y (z ∷ ys) h a = (trans x y z h a.0, All-weaken x y ys h a.1)

  All-insert_by :
      (x y : A) (ys : List A)
      → le y x ≡ true
      → All (λ z. le y z ≡ true) ys
      → All (λ z. le y z ≡ true) (insert_by le x ys)
  unfolding insert_by
  All-insert_by x y [] h a = (h, tt)
  All-insert_by x y (z ∷ ys) h a = ground (arith, All-insert_by x y ys h a.1)

  All-Member :
      (x : A) (ys : List A) (b : A) → All (λ y. le x y ≡ true) ys → Member b ys → le x b ≡ true
  All-Member x [] b a m = absurd m
  All-Member x (y ∷ ys) b a (inl e) = rw (← e) a.0
  All-Member x (y ∷ ys) b a (inr m) = All-Member x ys b a.1 m

  Ordered-insert_by : (x : A) (ys : List A) → Ordered ys → Ordered (insert_by le x ys)
  unfolding insert_by
  Ordered-insert_by x [] o = (tt, tt)
  Ordered-insert_by x (y ∷ ys) o =
      ground (arith, total x y, All-weaken x y ys, All-insert_by x y ys, Ordered-insert_by x ys o.1)

  Ordered-sort_by : (xs : List A) → Ordered (sort_by le xs)
  unfolding sort_by
  Ordered-sort_by [] = tt
  Ordered-sort_by (x ∷ xs) = Ordered-insert_by x (sort_by le xs) (Ordered-sort_by xs)

  least_of_Ordered :
      (xs : List A) (a b : A) → Ordered xs → get_elem? xs 0 ≡ some a → Member b xs → le a b ≡ true
  least_of_Ordered [] a b o h m = absurd m
  least_of_Ordered (x ∷ xs) a b o h (inl e) = ground (arith, total x x)
  least_of_Ordered (x ∷ xs) a b o h (inr m) =
      let e : x ≡ a = cc in rw (← e) (All-Member x xs b o.0 m)

  pub sort_by-least :
      (xs : List A) (a b : A) → get_elem? (sort_by le xs) 0 ≡ some a → Member b xs → le a b ≡ true
  sort_by-least xs a b h m =
      least_of_Ordered (sort_by le xs) a b (Ordered-sort_by xs) h ((Member-sort_by le b xs).1 m)
