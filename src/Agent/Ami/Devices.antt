-- ===== src/Agent/Ami/Devices.antt =====
-- agent/ami_client.py, `get_modem_status`: how the messages of a device list are read.
use sim_bridge.Prelude.{
  ℕ, suc, zero, ◌+◌, ◌-◌, ◌*◌, ◌/◌, min, nat_eq, Text, codes, text_Comparable, is_empty, is_set,
  has_substring, strip, Bool, true, false, ◌&&◌, ◌||◌, List, [], ◌∷◌, Option, none, some, or_else,
  is_some, drop, length, contains, if◌then◌else◌,
}
use sim_bridge.Dict.{get}
use sim_bridge.Acl.Lines.{pos, negsuc, parse_int}
use sim_bridge.Agent.Ami.{Fields, has_field}

abbrev pub registered_states : List Text
registered_states = codes "Registered, home network" ∷ codes "Registered, roaming" ∷ []

-- `resp.get("Event", "") or resp.get("Message", "")`
abbrev marker : Fields → Text
marker resp =
    let event = or_else (get (codes "Event") resp) [] in
    if is_empty event then or_else (get (codes "Message") resp) [] else event

unfoldable pub is_device_entry : Fields → Bool
unfolding has_substring get
is_device_entry resp =
    has_substring (marker resp) (codes "DongleDeviceEntry")
    || is_some (get (codes "GSMRegistrationStatus") resp) && is_some (get (codes "Device") resp)

unfoldable pub is_list_complete : Fields → Bool
unfolding has_substring get
is_list_complete resp =
    has_substring (marker resp) (codes "DongleShowDevicesComplete")
    || has_substring (marker resp) (codes "ListComplete")

-- What `get_modem_status` returns of a device.
pub record ModemStatus : Type 0 where
  pub device : Text
  pub registered : Bool
  pub signal_percent : Option ℕ
  pub operator : Option Text
  pub imei_suffix : Option Text

-- `s.split(",")[0]`
abbrev before_comma : Text → Text
before_comma [] = []
before_comma (c ∷ s) = let rest = before_comma s in if nat_eq c 44 then [] else c ∷ rest

-- `max(0, min(100, round((dbm + 110) * 100 / 60)))`, where `above` is `dbm + 110`, or 0 below. The
-- quotient is a number of thirds and never half-way between two integers.
abbrev percent : (above : ℕ) → ℕ
percent above = min 100 ((10 * above + 3) / 6)

unfoldable pub signal_of : Text → Option ℕ
unfolding parse_int
signal_of rssi = elim (parse_int (strip (before_comma rssi))) [
  | none ↦ none
  | some (pos n) ↦ some (percent (n + 110))
  | some (negsuc n) ↦ some (percent (110 - suc n))
]

-- `v or None`, and the last four characters of a text that is not empty
abbrev set_or_none : Option Text → Option Text
set_or_none t = if is_set t then t else none

abbrev suffix : Text → Option Text
suffix imei = if is_empty imei then none else some (drop (length imei - 4) imei)

unfoldable pub normalize_device_entry : Fields → ModemStatus
unfolding signal_of get contains
normalize_device_entry entry = record {
  device = or_else (get (codes "Device") entry) [];
  registered = contains (or_else (get (codes "GSMRegistrationStatus") entry) []) registered_states;
  signal_percent = signal_of (or_else (get (codes "RSSI") entry) []);
  operator = set_or_none (get (codes "ProviderName") entry);
  imei_suffix = suffix (or_else (get (codes "IMEIState") entry) []);
}

-- The two variables of the loop of `get_modem_status` that its next round reads.
pub record Drain : Type 0 where
  pub entry : Fields
  pub acked : Bool

-- `resp.get("ActionID") == action_id`
abbrev pub is_own : (action_id : Text) → Fields → Bool
is_own action_id resp = has_field (codes "ActionID") action_id resp

abbrev pub is_ack : Fields → Bool
is_ack resp =
    has_field (codes "Response") (codes "Success") resp
    || has_field (codes "Response") (codes "Followed") resp

abbrev first_entry : Fields → Fields → Fields
first_entry [] resp = resp
first_entry (field ∷ fields) resp = field ∷ fields

-- One message of the loop; none is the break at the list's terminator.
unfoldable pub drain_message : (action_id : Text) → Drain → Fields → Option Drain
unfolding is_device_entry is_list_complete get
drain_message action_id s resp =
    let own = is_own action_id resp in
    if is_device_entry resp && (own || s.acked)
    then some (record s { entry = first_entry s.entry resp })
    else if is_list_complete resp
    then (if own || s.acked then none else some s)
    else if is_ack resp && own
    then some (record s { acked = true })
    else some s

-- How the loop ends: with the entry, whether the terminator was seen, and the messages that follow; or
-- with the ConnectionError of a read that timed out.
pub data Drained : Type 0 where
  drained : (entry : Fields) → (terminated : Bool) → List Fields → Drained
  no_message : Drained

-- The first number is what is left of the cap. Past the messages listed there is silence.
unfoldable pub drain : (action_id : Text) → ℕ → Drain → List Fields → Drained
unfolding drain_message
drain action_id zero s messages = drained s.entry false messages
drain action_id (suc left) s [] = no_message
drain action_id (suc left) s (resp ∷ messages) = elim (drain_message action_id s resp) [
  | none ↦ drained s.entry true messages
  | some t ↦ drain action_id left t messages
]

abbrev pub drain_cap : ℕ
drain_cap = 1024

-- `{}` for a device that has no entry. None is the ConnectionError.
abbrev pub status_of : Drained → Option (Option ModemStatus)
status_of no_message = none
status_of (drained [] terminated messages) = some none
status_of (drained (field ∷ fields) terminated messages) =
    some (some (normalize_device_entry (field ∷ fields)))

-- What the reads of `get_modem_status` make of the messages that arrive.
unfoldable pub get_modem_status : (action_id : Text) → List Fields → Option (Option ModemStatus)
unfolding drain normalize_device_entry
get_modem_status action_id messages =
    status_of (drain action_id drain_cap (record { entry = []; acked = false }) messages)
