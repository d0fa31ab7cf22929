-- ===== src/Dict/Laws.antt =====
-- What a read returns after a write.
use sim_bridge.Prelude.{
  ◌≡◌, ◌≢◌, refl, [], ◌∷◌, none, some, Comparable, ◌==◌, if◌then◌else◌, arith, All,
}
use sim_bridge.Dict.{Dict, get, put, remove, values, map_values}

module _ {ℓ κ} {K : Type ℓ} ⦃e : Comparable K⦄ {V : Type κ} where
  pub get-put :
      (k j : K) (v : V) (d : Dict K V) → get j (put k v d) ≡ (if k == j then some v else get j d)
  unfolding get put
  get-put k j v [] = refl
  get-put k j v ((i, w) ∷ d) =
      ground (arith, e.equals_iff k j, e.equals_iff i k, e.equals_iff i j, get-put k j v d)

  pub get-put_self : (k : K) (v : V) (d : Dict K V) → get k (put k v d) ≡ some v
  get-put_self k v d = ground (arith, get-put k k v d, e.equals_iff k k)

  pub get-put_ne : (k j : K) (v : V) (d : Dict K V) → k ≢ j → get j (put k v d) ≡ get j d
  get-put_ne k j v d h = ground (arith, get-put k j v d, e.equals_iff k j)

  pub get-remove :
      (k j : K) (d : Dict K V) → get j (remove k d) ≡ (if k == j then none else get j d)
  unfolding get remove
  get-remove k j [] = ground arith
  get-remove k j ((i, w) ∷ d) =
      ground (arith, e.equals_iff k j, e.equals_iff i k, e.equals_iff i j, get-remove k j d)

  pub get-map_values {μ} :
      {W : Type μ} (f : V → W) (k : K) (d : Dict K V)
      → get k (map_values f d) ≡ (elim (get k d) [ none ↦ none | some v ↦ some (f v) ])
  unfolding get
  get-map_values f k [] = refl
  get-map_values f k ((j, v) ∷ d) = ground (arith, get-map_values f k d)

-- A predicate on the values that are stored.
module _ {ℓ κ μ} {K : Type ℓ} ⦃e : Comparable K⦄ {V : Type κ} (P : V → Type μ) where
  pub get-All : (k : K) (v : V) (d : Dict K V) → All P (values d) → get k d ≡ some v → P v
  unfolding get
  get-All k v [] a h = ground arith
  get-All k v ((j, w) ∷ d) a h = ground (arith, get-All k v d a.1)

  pub put-All : (k : K) (v : V) (d : Dict K V) → All P (values d) → P v → All P (values (put k v d))
  unfolding put
  put-All k v [] a p = (p, tt)
  put-All k v ((j, w) ∷ d) a p = ground (arith, put-All k v d a.1 p)

  pub remove-All : (k : K) (d : Dict K V) → All P (values d) → All P (values (remove k d))
  unfolding remove
  remove-All k [] a = tt
  remove-All k ((j, w) ∷ d) a = ground (arith, remove-All k d a.1)
