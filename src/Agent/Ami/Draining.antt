-- ===== src/Agent/Ami/Draining.antt =====
-- agent/ami_client.py, `get_modem_status`: which message of the stream it takes as its answer.
use sim_bridge.Prelude.{
  ℕ, suc, zero, ◌+◌, ◌-◌, ◌<◌, Text, text_Comparable, true, false, List, [], ◌∷◌, ◌++◌, Option,
  none, some, ◌≡◌, ◌≢◌, ◌⊎◌, inl, inr, refl, ap, ◌∙◌, arith, length, All, Bool-cases, if◌then◌else◌,
}
use mathlib.Core.Option
use sim_bridge.Agent.Ami.{Fields}
use sim_bridge.Agent.Ami.Devices.{
  drained, drain_message, drain, drain_cap, get_modem_status, is_own, is_ack, is_device_entry,
  is_list_complete, normalize_device_entry, status_of,
}

-- The first device entry.
pub find_device : List Fields → Option Fields
find_device [] = none
find_device (m ∷ ms) = if is_device_entry m then some m else find_device ms

-- The messages before the reply: they have other identifiers or none.
abbrev pub IsForeign : Text → Fields → Type 0
IsForeign action_id m = is_own action_id m ≡ false

-- The acknowledgement of the action, which is no part of the list.
pub record IsOwnAck (action_id : Text) (m : Fields) : Type 0 where
  pub own : is_own action_id m ≡ true
  pub acknowledges : is_ack m ≡ true
  pub no_entry : is_device_entry m ≡ false
  pub no_end : is_list_complete m ≡ false

-- The message that ends the list.
abbrev pub IsTerminator : Fields → Type 0
IsTerminator m = (is_device_entry m ≡ false) × (is_list_complete m ≡ true)

foreign_lem :
    (action_id : Text) (m : Fields)
    → IsForeign action_id m
    → drain_message action_id (record { entry = []; acked = false }) m
      ≡ some (record { entry = []; acked = false })
unfolding drain_message
foreign_lem action_id m h = ground (arith, h)

drain-foreign :
    (action_id : Text) (rounds left : ℕ) (stale more : List Fields)
    → rounds ≡ length stale + left
    → All (IsForeign action_id) stale
    → drain action_id rounds (record { entry = []; acked = false }) (stale ++ more)
      ≡ drain action_id left (record { entry = []; acked = false }) more
unfolding drain
drain-foreign action_id rounds left [] more e h =
    ap (λ n. drain action_id n (record { entry = []; acked = false }) more) (omega (arith, e))
drain-foreign action_id zero left (m ∷ stale) more e h = absurd (omega (arith, e))
drain-foreign action_id (suc rounds) left (m ∷ stale) more e h =
    rw (foreign_lem action_id m h.0, drain)
      (drain-foreign action_id rounds left stale more (omega (arith, e)) h.1)

empty_entry : is_device_entry [] ≡ false
unfolding is_device_entry
empty_entry = refl

abbrev first_of : Fields → Option Fields → Fields
first_of [] found = elim found [ none ↦ [] | some m ↦ m ]
first_of (field ∷ fields) found = field ∷ fields

-- What the loop does with a message of the list.
listed_lem :
    (action_id : Text) (entry : Fields) (m : Fields)
    → (is_list_complete m ≡ false) ⊎ (is_device_entry m ≡ true)
    → drain_message action_id (record { entry = entry; acked = true }) m
      ≡ some (record {
        entry = first_of entry (if is_device_entry m then some m else none);
        acked = true;
      })
unfolding drain_message
listed_lem action_id [] m h = ground (arith, h)
listed_lem action_id (field ∷ fields) m h = ground (arith, h)

terminator_lem :
    (action_id : Text) (entry : Fields) (m : Fields)
    → IsTerminator m
    → drain_message action_id (record { entry = entry; acked = true }) m ≡ none
unfolding drain_message
terminator_lem action_id entry m t = ground (arith, t.0, t.1)

first_of-find_device :
    (entry m : Fields) (reply : List Fields)
    → first_of (first_of entry (if is_device_entry m then some m else none)) (find_device reply)
      ≡ first_of entry (find_device (m ∷ reply))
unfolding find_device
first_of-find_device (field ∷ fields) m reply = refl
first_of-find_device [] [] reply = rw empty_entry refl
first_of-find_device [] (field ∷ fields) reply = ground arith

-- Past the acknowledgement, the loop reads the list to its end.
drain-acked :
    (action_id : Text) (rounds : ℕ) (entry : Fields) (reply rest : List Fields)
    (terminator : Fields)
    → length reply < rounds
    → All (λ m. (is_list_complete m ≡ false) ⊎ (is_device_entry m ≡ true)) reply
    → IsTerminator terminator
    → drain action_id rounds (record { entry = entry; acked = true }) (reply ++ terminator ∷ rest)
      ≡ drained (first_of entry (find_device reply)) true rest
unfolding drain find_device
drain-acked action_id zero entry reply rest terminator e h t = absurd (omega (arith, e))
drain-acked action_id (suc rounds) [] [] rest terminator e h t =
    rw (terminator_lem action_id [] terminator t, drain) refl
drain-acked action_id (suc rounds) (field ∷ fields) [] rest terminator e h t =
    rw (terminator_lem action_id (field ∷ fields) terminator t, drain) refl
drain-acked action_id (suc rounds) entry (m ∷ reply) rest terminator e h t =
    rw (listed_lem action_id entry m h.0, drain)
      (drain-acked action_id rounds (first_of entry (if is_device_entry m then some m else none))
          reply rest terminator (omega (arith, e)) h.1 t
        ∙ ap (λ x. drained x true rest) (first_of-find_device entry m reply))

ack_lem :
    (action_id : Text) (m : Fields)
    → IsOwnAck action_id m
    → drain_message action_id (record { entry = []; acked = false }) m
      ≡ some (record { entry = []; acked = true })
unfolding drain_message
ack_lem action_id m h = ground (arith, h.own, h.acknowledges, h.no_entry, h.no_end)

drain-reply :
    (action_id : Text) (rounds : ℕ) (stale reply rest : List Fields) (ack terminator : Fields)
    → length stale + length reply + 1 < rounds
    → All (IsForeign action_id) stale
    → IsOwnAck action_id ack
    → All (λ m. (is_list_complete m ≡ false) ⊎ (is_device_entry m ≡ true)) reply
    → IsTerminator terminator
    → drain action_id rounds
        (record { entry = []; acked = false })
        (stale ++ ack ∷ (reply ++ terminator ∷ rest))
      ≡ drained (first_of [] (find_device reply)) true rest
unfolding drain
drain-reply action_id rounds stale reply rest ack terminator e h a r t =
    drain-foreign action_id rounds (suc (rounds - length stale - 1)) stale
      (ack ∷ (reply ++ terminator ∷ rest)) (omega (arith, e)) h
    ∙ rw (ack_lem action_id ack a, drain)
        (drain-acked action_id (rounds - length stale - 1) [] reply rest terminator
          (omega (arith, e)) r t)

find_device-nonempty : (reply : List Fields) → find_device reply ≢ some []
unfolding find_device
find_device-nonempty [] h = ground (arith, h)
find_device-nonempty (m ∷ reply) h = elim (Bool-cases (is_device_entry m)) [
  | inl e ↦ ground (arith, e, h, empty_entry)
  | inr e ↦ find_device-nonempty reply (ground (arith, e, h))
]

-- If messages without the ActionID of the query come first, then its acknowledgement, then
-- messages that do not end the list, then one that does, all within the cap of 1024 messages,
-- get_modem_status returns the first device entry after the acknowledgement, normalized, or {} if
-- there is none.
pub get_modem_status-reply :
    (action_id : Text) (stale reply rest : List Fields) (ack terminator : Fields)
    → length stale + length reply + 1 < drain_cap
    → All (IsForeign action_id) stale
    → IsOwnAck action_id ack
    → All (λ m. (is_list_complete m ≡ false) ⊎ (is_device_entry m ≡ true)) reply
    → IsTerminator terminator
    → get_modem_status action_id (stale ++ ack ∷ (reply ++ terminator ∷ rest))
      ≡ some (Option.map normalize_device_entry (find_device reply))
unfolding get_modem_status
get_modem_status-reply action_id stale reply rest ack terminator e h a r t =
    rw (drain-reply action_id drain_cap stale reply rest ack terminator e h a r t)
      (go (find_device reply) refl)
  where
    go :
        (found : Option Fields)
        → find_device reply ≡ found
        → status_of (drained (first_of [] found) true rest)
          ≡ some (Option.map normalize_device_entry found)
    go none f = refl
    go (some []) f = absurd (find_device-nonempty reply f)
    go (some (field ∷ fields)) f = refl
