-- ===== src/Checks/Manager.antt =====
-- agent/ami_client.py on small inputs.
use sim_bridge.Prelude.{
  Text, codes, text_eq, text_Comparable, nat_Comparable, true, false, [], ◌∷◌, ◌++◌, none, some,
  ◌≡◌, refl, arith, All, inl, inr, contains, is_space, left_strip, right_strip, strip,
  has_substring, is_decimal, decimal_value,
}
use mathlib.Core.Option
use sim_bridge.Dict.{get, keys}
use sim_bridge.Dict.Counts.{Unique}
use sim_bridge.Acl.Lines.{parse_int, parse_nat, parse_digits}
use sim_bridge.Agent.Ami.{
  Fields, send_action, written, newline_in_value, render, read_headers, message, timed_out, line,
  silence,
}
use sim_bridge.Agent.Ami.Actions.{flatten, sms_action, status_action}
use sim_bridge.Agent.Ami.Devices.{
  get_modem_status, is_device_entry, is_list_complete, normalize_device_entry, signal_of,
}
use sim_bridge.Agent.Ami.Framing.{IsKey, arrivals, read_headers-send_action}
use sim_bridge.Agent.Ami.Breaks.{Unbroken}
use sim_bridge.Agent.Ami.OneLine.{sms_action-received}
use sim_bridge.Agent.Ami.Draining.{
  IsForeign, IsTerminator, IsOwnAck, find_device, get_modem_status-reply,
}

-- A value of two lines is refused.
two_lines :
    send_action true ((codes "Message", codes "a" ++ 10 ∷ codes "Action: Logoff") ∷ [])
    ≡ newline_in_value
unfolding send_action
two_lines = refl

-- A run of line breaks is one blank.
flattened : flatten false (codes "a" ++ 13 ∷ 10 ∷ 10 ∷ codes "b") ≡ codes "a b"
unfolding flatten
flattened = refl

abbrev query : Fields
query = status_action (codes "gsm") (codes "s1")

-- A message that is cut off is not returned.
cut_off : read_headers (line (codes "Response: Success") ∷ silence ∷ []) [] ≡ timed_out
unfolding read_headers text_eq
cut_off = refl

query-IsKey : All IsKey (keys query)
unfolding contains left_strip right_strip is_space
query-IsKey = (
  record { one_line = refl; no_colon = refl; stripped = refl },
  (
    record { one_line = refl; no_colon = refl; stripped = refl },
    (record { one_line = refl; no_colon = refl; stripped = refl }, tt),
  ),
)

query_written : send_action true query ≡ written (render query)
unfolding send_action
query_written = refl

no_repeats : Unique query
unfolding get text_eq
no_repeats = (refl, (refl, (refl, tt)))

read_headers-send_action_example :
    (headers : Fields) × ((read_headers (arrivals [] (render query ++ codes "Event: ")) []
        ≡ message headers (arrivals [] (codes "Event: ")))
      × (get (codes "Device") headers ≡ Option.map strip (get (codes "Device") query)))
read_headers-send_action_example =
    read_headers-send_action query (render query) (codes "Event: ") (codes "Device") query-IsKey
      no_repeats query_written

abbrev text : Text
text = codes "two" ++ 10 ∷ codes "lines"

sms_action-received_example :
    (t : Text) × (headers : Fields) × (one_line : Text) × (Unbroken text one_line
      × (send_action true
            (sms_action (codes "gsm") (codes "+79990001122") text (some (codes "m")) (codes "a"))
          ≡ written t)
      × (read_headers (arrivals [] (t ++ [])) [] ≡ message headers (arrivals [] []))
      × (get (codes "Number") headers ≡ some (strip (codes "+79990001122")))
      × (get (codes "Message") headers ≡ some (strip one_line)))
sms_action-received_example =
    sms_action-received (codes "gsm") (codes "+79990001122") text (some (codes "m")) (codes "a") []
      refl refl refl refl

abbrev stale_end : Fields
stale_end = (codes "Event", codes "DongleShowDevicesComplete") ∷ (codes "ActionID", codes "s0") ∷ []

abbrev ack : Fields
ack = (codes "Response", codes "Success") ∷ (codes "ActionID", codes "s1") ∷ []

abbrev call_event : Fields
call_event = (codes "Event", codes "Newstate") ∷ []

abbrev device : Fields
device =
    (codes "Event", codes "DongleDeviceEntry")
    ∷ (codes "ActionID", codes "s1")
    ∷ (codes "Device", codes "gsm")
    ∷ (codes "GSMRegistrationStatus", codes "Registered, home network")
    ∷ (codes "RSSI", codes "-80, good")
    ∷ (codes "IMEIState", codes "123456789")
    ∷ []

abbrev list_end : Fields
list_end = (codes "Event", codes "DongleShowDevicesComplete") ∷ (codes "ActionID", codes "s1") ∷ []

device_status : normalize_device_entry device ≡ record {
  device = codes "gsm";
  registered = true;
  signal_percent = some 50;
  operator = none;
  imei_suffix = some (codes "6789");
}
unfolding normalize_device_entry signal_of parse_int parse_nat parse_digits is_decimal decimal_value
    get text_eq contains left_strip right_strip is_space
device_status = refl

call_event_goes_on : is_list_complete call_event ≡ false
unfolding is_list_complete has_substring get text_eq
call_event_goes_on = refl

device_found : is_device_entry device ≡ true
unfolding is_device_entry has_substring get text_eq
device_found = refl

stale_end-IsForeign : IsForeign (codes "s1") stale_end
unfolding get text_eq
stale_end-IsForeign = refl

ack-IsOwnAck : IsOwnAck (codes "s1") ack
unfolding is_device_entry is_list_complete has_substring get text_eq
ack-IsOwnAck = record { own = refl; acknowledges = refl; no_entry = refl; no_end = refl }

list_end-IsTerminator : IsTerminator list_end
unfolding is_device_entry is_list_complete has_substring get text_eq
list_end-IsTerminator = (refl, refl)

get_modem_status-reply_example :
    get_modem_status
      (codes "s1")
      ((stale_end ∷ []) ++ ack ∷ ((call_event ∷ device ∷ []) ++ list_end ∷ call_event ∷ []))
    ≡ some (Option.map normalize_device_entry (find_device (call_event ∷ device ∷ [])))
get_modem_status-reply_example =
    get_modem_status-reply (codes "s1") (stale_end ∷ []) (call_event ∷ device ∷ [])
      (call_event ∷ []) ack list_end (omega arith) (stale_end-IsForeign, tt) ack-IsOwnAck
      (inl call_event_goes_on, (inr device_found, tt)) list_end-IsTerminator
