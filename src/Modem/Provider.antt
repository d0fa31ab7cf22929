-- ===== src/Modem/Provider.antt =====
-- core/modem.py, `SingleModemProvider`: a modem whose state is derived from device reports and from
-- the two activity flags. The interface `ModemProvider` is `Provider`.
pub mod Derivation
pub mod History
use sim_bridge.Prelude.{
  ℕ, zero, ltb, Text, is_set, Bool, true, false, not, ◌&&◌, Option, none, some, is_some,
  if◌then◌else◌, ◌==◌, text_Comparable, List, [], ◌∷◌,
}
use sim_bridge.Modem.{ModemState, ModemInfo, is_available_state}

pub record SingleModemProvider : Type 0 where
  pub modem_id : Text
  pub device : Text
  pub info : ModemInfo
  pub sms_active : Bool
  pub call_active : Bool
  pub observed : Bool

-- The constructor. `now` is the clock at the construction of the snapshot.
unfoldable pub init : Text → Text → Option Text → ℕ → SingleModemProvider
init modem_id device sim_number now = record {
  modem_id = modem_id;
  device = device;
  info = record {
    modem_id = modem_id;
    device = device;
    state = ModemState.offline;
    registered = false;
    signal_percent = none;
    operator = none;
    sim_number = sim_number;
    imei_suffix = none;
    error = none;
    last_seen = now;
  };
  sms_active = false;
  call_active = false;
  observed = false;
}

-- `_derive_state`: the branches of the method, as a function of what they read.
unfoldable pub derived : ModemInfo → Bool → Bool → ModemState
derived info sms_active call_active =
    if is_set info.error
    then ModemState.error
    else if not info.registered && ltb 0 info.last_seen
    then (if is_some info.signal_percent then ModemState.initializing else ModemState.offline)
    else if call_active
    then ModemState.call_busy
    else if sms_active
    then ModemState.sms_busy
    else if info.registered
    then ModemState.ready
    else ModemState.initializing

unfoldable pub derive_state : SingleModemProvider → SingleModemProvider
unfolding derived
derive_state p = record p {
  info = record (p.info) { state = derived p.info p.sms_active p.call_active };
}

-- `_derive_info` copies every field, so the snapshot is the record.
unfoldable pub get_info : SingleModemProvider → Text → Option ModemInfo
get_info p modem_id = if modem_id == p.modem_id then some p.info else none

unfoldable pub list_modems : SingleModemProvider → List ModemInfo
unfolding get_info
list_modems p = elim (get_info p p.modem_id) [ none ↦ [] | some info ↦ info ∷ [] ]

unfoldable pub is_available : SingleModemProvider → Text → Bool
unfolding get_info
is_available p modem_id =
    if modem_id == p.modem_id
    then (elim (get_info p modem_id) [ none ↦ false | some info ↦ is_available_state info.state ])
    else false

unfoldable pub has_observed : SingleModemProvider → Text → Bool
has_observed p modem_id = if modem_id == p.modem_id then p.observed else false

-- `if x is not None: self._info.x = x`
abbrev pub or_keep {ℓ} : {A : Type ℓ} → Option A → Option A → Option A
or_keep none old = old
or_keep (some a) old = some a

-- What `update_state` takes from a device report, and when.
pub record Report : Type 0 where
  pub registered : Bool
  pub signal_percent : Option ℕ
  pub operator : Option Text
  pub error : Option Text

unfoldable pub update_state : SingleModemProvider → Text → Report → ℕ → SingleModemProvider × Bool
unfolding derive_state
update_state p modem_id r now =
    if modem_id == p.modem_id
    then (
      derive_state (record p {
        observed = true;
        info = record (p.info) {
          registered = r.registered;
          signal_percent = or_keep r.signal_percent (p.info).signal_percent;
          operator = or_keep r.operator (p.info).operator;
          error = or_keep r.error (p.info).error;
          last_seen = now;
        };
      }),
      true,
    )
    else (p, false)

unfoldable pub set_sms_active : SingleModemProvider → Text → Bool → SingleModemProvider × Bool
unfolding derive_state
set_sms_active p modem_id active =
    if modem_id == p.modem_id
    then (derive_state (record p { sms_active = active }), true)
    else (p, false)

unfoldable pub set_call_active : SingleModemProvider → Text → Bool → SingleModemProvider × Bool
unfolding derive_state
set_call_active p modem_id active =
    if modem_id == p.modem_id
    then (derive_state (record p { call_active = active }), true)
    else (p, false)

unfoldable pub mark_offline : SingleModemProvider → Text → ℕ → SingleModemProvider × Bool
unfolding derive_state
mark_offline p modem_id now =
    if modem_id == p.modem_id
    then (
      derive_state (record p {
        observed = true;
        info = record (p.info) {
          registered = false;
          signal_percent = none;
          operator = none;
          error = none;
          last_seen = now;
        };
      }),
      true,
    )
    else (p, false)
