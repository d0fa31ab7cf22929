-- ===== src/Dict/Counts.antt =====
-- How many values of a dictionary pass a test, after a write. Keys are unique.
use sim_bridge.Prelude.{
  ℕ, ◌+◌, ◌≡◌, refl, [], ◌∷◌, Option, none, some, Bool, Comparable, if◌then◌else◌, arith, count_if,
  is_none, true,
}
use sim_bridge.Dict.{Dict, get, put, remove, values}
use sim_bridge.Dict.Laws.{get-put, get-remove}

-- The weight of a stored value under a test, 0 or 1.
abbrev pub weight {κ} : {V : Type κ} → (V → Bool) → Option V → ℕ
weight p none = 0
weight p (some v) = if p v then 1 else 0

module _ {ℓ κ} {K : Type ℓ} ⦃e : Comparable K⦄ {V : Type κ} where
  abbrev pub Unique : Dict K V → Type 0
  Unique [] = Unit
  Unique ((k, v) ∷ d) = (is_none (get k d) ≡ true) × Unique d

  pub put-Unique : (k : K) (v : V) (d : Dict K V) → Unique d → Unique (put k v d)
  unfolding put get
  put-Unique k v [] u = (refl, tt)
  put-Unique k v ((j, w) ∷ d) u =
      ground (arith, put-Unique k v d u.1, get-put k j v d, e.equals_iff k j, e.equals_iff j k)

  pub remove-Unique : (k : K) (d : Dict K V) → Unique d → Unique (remove k d)
  unfolding remove
  remove-Unique k [] u = tt
  remove-Unique k ((j, w) ∷ d) u = ground (arith, remove-Unique k d u.1, get-remove k j d)

  pub count_if-put :
      (p : V → Bool) (k : K) (v : V) (d : Dict K V)
      → count_if p (values (put k v d)) + weight p (get k d)
        ≡ count_if p (values d) + weight p (some v)
  unfolding put get
  count_if-put p k v [] = ground arith
  count_if-put p k v ((j, w) ∷ d) = ground (arith, count_if-put p k v d)

  pub remove_absent : (k : K) (d : Dict K V) → get k d ≡ none → remove k d ≡ d
  unfolding remove get
  remove_absent k [] h = refl
  remove_absent k ((j, w) ∷ d) h = ground (arith, remove_absent k d)

  pub count_if-remove :
      (p : V → Bool) (k : K) (d : Dict K V)
      → Unique d
      → count_if p (values (remove k d)) + weight p (get k d) ≡ count_if p (values d)
  unfolding remove get
  count_if-remove p k [] u = omega arith
  count_if-remove p k ((j, w) ∷ d) u =
      ground (arith, count_if-remove p k d u.1, e.equals_iff j k, remove_absent k d)
