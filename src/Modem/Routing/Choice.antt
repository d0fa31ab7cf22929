-- ===== src/Modem/Routing/Choice.antt =====
-- core/modem.py: what the two implemented strategies choose.
use native.Mathlib.Nat.{add-mod-mod, mod-add-mod, mod-lt, add-mod_right, mod-eq_of_lt}
use sim_bridge.Prelude.{
  ◌≢◌, text_le_total, text_le_trans, sort_by-least, ℕ, zero, suc, ◌+◌, ◌%◌, ◌-◌, ◌∙◌, sym, ap, ◌<◌,
  ◌≡◌, refl, text_le, List, [], ◌∷◌, none, some, length, get_elem?, arith, Member, inl, inr,
  length-sort_by, Member-sort_by, true,
}
use sim_bridge.Modem.{ModemInfo}
use sim_bridge.Modem.Routing.{
  Strategy, first_available, round_robin, sticky, explicit, returned, not_implemented,
  sorted_modems, select,
}

Member-get_elem? :
    {A : Type 0} (xs : List A) (n : ℕ) (a : A) → get_elem? xs n ≡ some a → Member a xs
Member-get_elem? [] n a h = ground arith
Member-get_elem? (x ∷ xs) zero a h = ground arith
Member-get_elem? (x ∷ xs) (suc n) a h = inr (Member-get_elem? xs n a h)

get_elem?-some :
    {A : Type 0} (xs : List A) (n : ℕ) → n < length xs → (a : A) × (get_elem? xs n ≡ some a)
get_elem?-some [] n h = absurd (omega arith)
get_elem?-some (x ∷ xs) zero h = (x, refl)
get_elem?-some (x ∷ xs) (suc n) h = get_elem?-some xs n (omega arith)

Member-sorted :
    (m : ModemInfo) (n : ℕ) (xs : List ModemInfo)
    → get_elem? (sorted_modems xs) n ≡ some m
    → Member m xs
unfolding sorted_modems
Member-sorted m n xs h = (Member-sort_by _ m xs).0 (Member-get_elem? (sorted_modems xs) n m h)

-- Whatever a strategy returns was offered to it.
pub select-Member :
    (s t : Strategy) (offered : List ModemInfo) (m : ModemInfo)
    → select s offered ≡ returned (t, some m)
    → Member m offered
unfolding select
select-Member first_available t [] m h = ground arith
select-Member first_available t (x ∷ xs) m h = Member-sorted m 0 (x ∷ xs) (cc)
select-Member (round_robin c) t [] m h = ground arith
select-Member (round_robin c) t (x ∷ xs) m h =
    Member-sorted m (c % length (sorted_modems (x ∷ xs))) (x ∷ xs) (cc)
select-Member sticky t offered m h = ground arith
select-Member explicit t offered m h = ground arith

sorted-some :
    (x : ModemInfo) (xs : List ModemInfo) (n : ℕ)
    → n < length (sorted_modems (x ∷ xs))
    → get_elem? (sorted_modems (x ∷ xs)) n ≢ none
sorted-some x xs n h e = let (a, e') = get_elem?-some (sorted_modems (x ∷ xs)) n h in cc

sorted_positive : (x : ModemInfo) (xs : List ModemInfo) → 0 < length (sorted_modems (x ∷ xs))
unfolding sorted_modems
sorted_positive x xs = omega (arith, length-sort_by (λ a b. text_le a.modem_id b.modem_id) (x ∷ xs))

-- With a modem on offer no strategy returns `None`.
pub select-ne-none :
    (s t : Strategy) (x : ModemInfo) (xs : List ModemInfo) → select s (x ∷ xs) ≢ returned (t, none)
unfolding select
select-ne-none first_available t x xs h = sorted-some x xs 0 (sorted_positive x xs) (cc)
select-ne-none (round_robin c) t x xs h =
    sorted-some x xs (c % length (sorted_modems (x ∷ xs))) (mod-lt c (sorted_positive x xs)) (cc)
select-ne-none sticky t x xs h = cc
select-ne-none explicit t x xs h = cc

-- The modem that the first-available strategy returns is one on offer, and no modem on offer has a
-- smaller identifier.
pub first_available_least :
    (offered : List ModemInfo) (t : Strategy) (m n : ModemInfo)
    → select first_available offered ≡ returned (t, some m)
    → Member n offered
    → Member m offered × (text_le m.modem_id n.modem_id ≡ true)
unfolding select sorted_modems
first_available_least [] t m n h k = absurd k
first_available_least (x ∷ xs) t m n h k = (
  Member-sorted m 0 (x ∷ xs) (cc),
  sort_by-least (λ a b. text_le a.modem_id b.modem_id) (λ a b. text_le_total a.modem_id b.modem_id)
      (λ a b c. text_le_trans a.modem_id b.modem_id c.modem_id) (x ∷ xs) m n (cc) k,
)

-- The strategy after `k` selections from the same offer.
unfoldable pub repeat_select : ℕ → Strategy → List ModemInfo → Strategy
repeat_select zero s offered = s
repeat_select (suc k) s offered = elim (select (repeat_select k s offered) offered) [
  | not_implemented ↦ s
  | returned (t, chosen) ↦ t
]

repeat_select-round_robin :
    (k c : ℕ) (x : ModemInfo) (xs : List ModemInfo)
    → repeat_select k (round_robin c) (x ∷ xs) ≡ round_robin (c + k)
unfolding repeat_select select
repeat_select-round_robin zero c x xs = ground arith
repeat_select-round_robin (suc k) c x xs = ground (arith, repeat_select-round_robin k c x xs)

-- The turn at which a position comes up.
turn : ℕ → ℕ → ℕ → ℕ
turn c n p = (p + (n - c % n)) % n

mod-turn : (c n p : ℕ) → p < n → (c + (p + (n - c % n)) % n) % n ≡ p
mod-turn c n p h =
    add-mod-mod c (p + (n - c % n)) n
    ∙ sym (mod-add-mod c n (p + (n - c % n)))
    ∙ ap (λ k. k % n) (omega (arith, mod-lt c {m = n} (omega arith)))
    ∙ add-mod_right p n
    ∙ mod-eq_of_lt h

get_elem?-of-Member :
    {A : Type 0} (xs : List A) (a : A)
    → Member a xs
    → (p : ℕ) × (p < length xs) × (get_elem? xs p ≡ some a)
get_elem?-of-Member [] a h = absurd h
get_elem?-of-Member (x ∷ xs) a (inl e) = (0, omega arith, ap some e)
get_elem?-of-Member (x ∷ xs) a (inr m) =
    let (p, lt, e) = get_elem?-of-Member xs a m in (suc p, omega arith, e)

-- Among as many consecutive round-robin selections as there are modems on offer, each modem on
-- offer is selected, whatever the counter was at the start.
pub round_robin_serves :
    (c : ℕ) (offered : List ModemInfo) (m : ModemInfo)
    → Member m offered
    → (k : ℕ) × (k < length offered)
      × (select (repeat_select k (round_robin c) offered) offered
          ≡ returned (round_robin (c + k + 1), some m))
unfolding select turn sorted_modems
round_robin_serves c [] m h = absurd h
round_robin_serves c (x ∷ xs) m h =
    let sorted = sorted_modems (x ∷ xs) in
    let n = length sorted in
    let (p, lt, e) = get_elem?-of-Member sorted m ((Member-sort_by _ m (x ∷ xs)).1 h) in
    let same : n ≡ length (x ∷ xs) = length-sort_by _ (x ∷ xs) in
    (
      turn c n p,
      rw (← same) (mod-lt (p + (n - c % n)) (omega arith)),
      rw (repeat_select-round_robin (turn c n p) c x xs, mod-turn c n p lt) (rw e),
    )
