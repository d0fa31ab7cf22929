-- ===== src/Modem/Routing.antt =====
-- core/modem.py, the routing strategies: a constructor for each class, with the state it keeps.
pub mod Choice
use sim_bridge.Prelude.{
  ℕ, suc, ◌+◌, ◌%◌, Text, codes, text_le, List, [], ◌∷◌, Option, none, some, length, get_elem?,
  sort_by,
}
use sim_bridge.Modem.{ModemInfo}

pub data Strategy : Type 0 where
  first_available : Strategy
  round_robin : ℕ → Strategy
  sticky : Strategy
  explicit : Strategy

-- The class attribute `name`.
unfoldable pub name : Strategy → Text
name first_available = codes "first_available"
name (round_robin counter) = codes "round_robin"
name sticky = codes "sticky"
name explicit = codes "explicit"

-- `select` returns a modem or `None`, or raises NotImplementedError.
pub data Selection {ℓ} (A : Type ℓ) : Type ℓ where
  returned : A → Selection A
  not_implemented : Selection A

-- `sorted(available, key=lambda m: m.modem_id)`
unfoldable pub sorted_modems : List ModemInfo → List ModemInfo
sorted_modems = sort_by (λ a b. text_le a.modem_id b.modem_id)

-- The strategy after the call, beside the choice.
unfoldable pub select : Strategy → List ModemInfo → Selection (Strategy × Option ModemInfo)
select first_available [] = returned (first_available, none)
select first_available (m ∷ ms) = returned (first_available, get_elem? (sorted_modems (m ∷ ms)) 0)
select (round_robin counter) [] = returned (round_robin counter, none)
select (round_robin counter) (m ∷ ms) =
    let sorted = sorted_modems (m ∷ ms) in
    returned (round_robin (counter + 1), get_elem? sorted (counter % length sorted))
select sticky available = not_implemented
select explicit available = not_implemented
