-- ===== src/Agent/Ami/OneLine.antt =====
-- agent/ami_client.py, `send_sms`: a text of any number of lines is sent as one message.
use sim_bridge.Prelude.{
  Text, codes, strip, left_strip, right_strip, is_space, Bool, true, false, [], ◌∷◌, ◌++◌, Option,
  none, some, ◌≡◌, refl, arith, All, contains, text_Comparable, nat_Comparable, text_eq,
}
use sim_bridge.Dict.{get, keys}
use sim_bridge.Dict.Counts.{Unique}
use sim_bridge.Agent.Ami.{Fields, has_newline, render, written, send_action, message, read_headers}
use sim_bridge.Agent.Ami.Actions.{flatten, sms_action}
use sim_bridge.Agent.Ami.Breaks.{Unbroken, flatten-Unbroken}
use sim_bridge.Agent.Ami.Framing.{IsKey, arrivals, stored, get-stored, read_headers-stored}

flatten-has_newline : (in_run : Bool) (text : Text) → has_newline (flatten in_run text) ≡ false
unfolding flatten
flatten-has_newline in_run [] = refl
flatten-has_newline true (c ∷ text) =
    ground (arith, flatten-has_newline true text, flatten-has_newline false text)
flatten-has_newline false (c ∷ text) =
    ground (arith, flatten-has_newline true text, flatten-has_newline false text)

-- The payload, if there is one, is one line.
abbrev pub IsOneLine : Option Text → Type 0
IsOneLine none = Unit
IsOneLine (some payload) = has_newline payload ≡ false

is_key : {k : Text} → has_newline k ≡ false → contains 58 k ≡ false → strip k ≡ k → IsKey k
is_key h i j = record { one_line = h; no_colon = i; stripped = j }

sms_action-IsKey :
    (dongle to text : Text) (payload : Option Text) (action_id : Text)
    → All IsKey (keys (sms_action dongle to text payload action_id))
unfolding contains left_strip right_strip is_space
sms_action-IsKey dongle to text none action_id = (
  is_key refl refl refl,
  (
    is_key refl refl refl,
    (
      is_key refl refl refl,
      (
        is_key refl refl refl,
        (is_key refl refl refl, (is_key refl refl refl, (is_key refl refl refl, tt))),
      ),
    ),
  ),
)
sms_action-IsKey dongle to text (some payload) action_id = (
  is_key refl refl refl,
  (
    is_key refl refl refl,
    (
      is_key refl refl refl,
      (
        is_key refl refl refl,
        (
          is_key refl refl refl,
          (is_key refl refl refl, (is_key refl refl refl, (is_key refl refl refl, tt))),
        ),
      ),
    ),
  ),
)

sms_action-Unique :
    (dongle to text : Text) (payload : Option Text) (action_id : Text)
    → Unique (sms_action dongle to text payload action_id)
unfolding get text_eq
sms_action-Unique dongle to text none action_id =
    (refl, (refl, (refl, (refl, (refl, (refl, (refl, tt)))))))
sms_action-Unique dongle to text (some payload) action_id =
    (refl, (refl, (refl, (refl, (refl, (refl, (refl, (refl, tt))))))))

send_action-sms_action :
    (dongle to text : Text) (payload : Option Text) (action_id : Text)
    → has_newline dongle ≡ false
    → has_newline to ≡ false
    → IsOneLine payload
    → has_newline action_id ≡ false
    → send_action true (sms_action dongle to text payload action_id)
      ≡ written (render (sms_action dongle to text payload action_id))
unfolding send_action
send_action-sms_action dongle to text none action_id d n p i =
    rw (d, n, i, flatten-has_newline false text) refl
send_action-sms_action dongle to text (some payload) action_id d n p i =
    rw (d, n, i, p, flatten-has_newline false text) refl

-- For a device, a number, an identifier and a payload without a newline and any text,
-- _send_action writes the action of send_sms, and _read_response reads it as one message with
-- that number and with the text in which one blank stands for each longest run of carriage
-- returns and line feeds, both without the blanks around them.
pub sms_action-received :
    (dongle to text : Text) (payload : Option Text) (action_id more : Text)
    → has_newline dongle ≡ false
    → has_newline to ≡ false
    → IsOneLine payload
    → has_newline action_id ≡ false
    → (t : Text) × (headers : Fields) × (one_line : Text) × (Unbroken text one_line
        × (send_action true (sms_action dongle to text payload action_id) ≡ written t)
        × (read_headers (arrivals [] (t ++ more)) [] ≡ message headers (arrivals [] more))
        × (get (codes "Number") headers ≡ some (strip to))
        × (get (codes "Message") headers ≡ some (strip one_line)))
unfolding get text_eq
sms_action-received dongle to text payload action_id more d n p i =
    let action = sms_action dongle to text payload action_id in
    let sent = send_action-sms_action dongle to text payload action_id d n p i in
    let ks = sms_action-IsKey dongle to text payload action_id in
    let u = sms_action-Unique dongle to text payload action_id in
    (
      render action,
      stored action [],
      flatten false text,
      (
        flatten-Unbroken text,
        sent,
        read_headers-stored action (render action) more ks sent,
        get-stored (codes "Number") action [] u,
        get-stored (codes "Message") action [] u,
      ),
    )
