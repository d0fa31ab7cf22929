-- ===== src/Agent/Ami.antt =====
-- agent/ami_client.py: the messages that the client writes and reads. Text is written and read as code
-- points. A transaction holds the lock from its first write to its last read, so that it is one step.
use sim_bridge.Prelude.{
  ℕ, suc, zero, ◌+◌, ◌-◌, ◌*◌, ◌/◌, min, nat_eq, show_nat, Text, codes, text_Comparable, text_eq,
  is_empty, is_set, has_substring, strip, Bool, true, false, not, ◌&&◌, ◌||◌, List, [], ◌∷◌, ◌++◌,
  Option, none, some, or_else, any_of, is_some, drop, length, contains, if◌then◌else◌,
}
use sim_bridge.Dict.{Dict, get, put, values}
use sim_bridge.Acl.Lines.{UserId, pos, negsuc, parse_int}
pub mod Stripped
pub mod Framing
pub mod Actions
pub mod Breaks
pub mod OneLine
pub mod Devices
pub mod Draining

-- The fields of an action, or the headers of a message.
abbrev pub Fields : Type 0
Fields = Dict Text Text

-- `"\r" in v or "\n" in v`
abbrev pub has_newline : Text → Bool
has_newline v = any_of (λ c. nat_eq c 13 || nat_eq c 10) v

-- `f"{k}: {v}\r\n"`
abbrev pub header_line : Text × Text → Text
header_line (k, v) = k ++ 58 ∷ 32 ∷ (v ++ 13 ∷ 10 ∷ [])

unfoldable pub render : Fields → Text
render [] = 13 ∷ 10 ∷ []
render (field ∷ fields) = header_line field ++ render fields

-- What a write ends with: the text that is written, or an exception.
pub data Written : Type 0 where
  written : Text → Written
  -- ConnectionError: the client is not connected.
  not_connected : Written
  -- ValueError: a value contains a newline.
  newline_in_value : Written

unfoldable pub send_action : (connected : Bool) → Fields → Written
unfolding render
send_action connected fields =
    if connected
    then (if any_of has_newline (values fields) then newline_in_value else written (render fields))
    else not_connected

-- `text.partition(":")`, for a text with a colon
unfoldable pub partition_colon : Text → Option (Text × Text)
partition_colon [] = none
partition_colon (c ∷ s) =
    if nat_eq c 58
    then some ([], s)
    else elim (partition_colon s) [ none ↦ none | some (key, value) ↦ some (c ∷ key, value) ]

unfoldable pub add_header : Text → Fields → Fields
unfolding partition_colon put
add_header line headers = elim (partition_colon (strip line)) [
  | none ↦ headers
  | some (key, value) ↦ put (strip key) (strip value) headers
]

-- `line in (b"\r\n", b"\n")`
abbrev pub ends_message : Text → Bool
ends_message line = text_eq line (13 ∷ 10 ∷ []) || text_eq line (10 ∷ [])

-- What `readline` gives next: a line, the end of the stream, or nothing for AMI_READ_TIMEOUT seconds.
pub data Arrival : Type 0 where
  line : Text → Arrival
  end silence : Arrival

-- A message, or the ConnectionError after a silence, which drops the streams.
pub data Received : Type 0 where
  message : Fields → List Arrival → Received
  timed_out : Received

-- The loop of `_read_response`. Past the arrivals listed there is silence.
unfoldable pub read_headers : List Arrival → Fields → Received
unfolding add_header
read_headers [] headers = timed_out
read_headers (silence ∷ arrivals) headers = timed_out
read_headers (end ∷ arrivals) headers = message headers (end ∷ arrivals)
read_headers (line text ∷ arrivals) headers = elim (ends_message text) [
  | true ↦ message headers arrivals
  | false ↦ read_headers arrivals (add_header text headers)
]

-- `resp.get(key) == value`
abbrev pub has_field : Text → Text → Fields → Bool
has_field key value resp = elim (get key resp) [ none ↦ false | some v ↦ text_eq v value ]
