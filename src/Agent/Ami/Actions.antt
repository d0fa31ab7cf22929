-- ===== src/Agent/Ami/Actions.antt =====
-- agent/ami_client.py: the actions that the methods send, and the error of send_sms.
use sim_bridge.Prelude.{
  ℕ, nat_eq, show_nat, Text, codes, text_Comparable, is_set, Bool, true, false, ◌||◌, [], ◌∷◌, ◌++◌,
  Option, none, some, or_else, if◌then◌else◌,
}
use sim_bridge.Dict.{get, put}
use sim_bridge.Agent.Ami.{Fields, has_field}

-- `re.sub(r"[\r\n]+", " ", text)`. The flag says that the last character was one of a run.
unfoldable pub flatten : Bool → Text → Text
flatten in_run [] = []
flatten in_run (c ∷ s) = elim (nat_eq c 13 || nat_eq c 10) [
  | true ↦ if in_run then flatten true s else 32 ∷ flatten true s
  | false ↦ c ∷ flatten false s
]

abbrev payload_field : Option Text → Fields
payload_field none = []
payload_field (some payload) = (codes "Payload", payload) ∷ []

-- The action of `send_sms`.
abbrev pub sms_action : (dongle to text : Text) → Option Text → (action_id : Text) → Fields
sms_action dongle to text payload action_id =
    (codes "Action", codes "DongleSendSMS")
    ∷ (codes "Device", dongle)
    ∷ (codes "Number", to)
    ∷ (codes "Message", flatten false text)
    ∷ (codes "Validity", codes "1440")
    ∷ (codes "Report", codes "yes")
    ∷ (codes "ActionID", action_id)
    ∷ payload_field payload

-- The text of the AMISendError for a response, if it says that the action failed.
unfoldable pub sms_error : Fields → Option Text
unfolding get
sms_error resp =
    if has_field (codes "Response") (codes "Error") resp
      || has_field (codes "Action") (codes "failure") resp
    then some (or_else (get (codes "Message") resp) (codes "DongleSendSMS failed"))
    else none

abbrev pub status_action : (dongle action_id : Text) → Fields
status_action dongle action_id =
    (codes "Action", codes "DongleShowDevices")
    ∷ (codes "Device", dongle)
    ∷ (codes "ActionID", action_id)
    ∷ []

abbrev pub hangup_action : (channel_id reason action_id : Text) → Fields
hangup_action channel_id reason action_id =
    (codes "Action", codes "Hangup")
    ∷ (codes "Channel", channel_id)
    ∷ (codes "Reason", reason)
    ∷ (codes "ActionID", action_id)
    ∷ []

abbrev pub variable_action : (channel_id variable value action_id : Text) → Fields
variable_action channel_id variable value action_id =
    (codes "Action", codes "SetVariable")
    ∷ (codes "Channel", channel_id)
    ∷ (codes "Variable", variable)
    ∷ (codes "Value", value)
    ∷ (codes "ActionID", action_id)
    ∷ []

-- The headers `Variable` overwrite each other: the last one is sent.
abbrev last_variable : Fields → Fields → Fields
last_variable [] action = action
last_variable ((k, v) ∷ vars) action =
    last_variable vars (put (codes "Variable") (k ++ codes "=" ++ v) action)

unfoldable pub originate_action :
    (endpoint context extension : Text)
    → (priority : ℕ) → (caller_id : Option Text) → (channel_vars : Fields) → (action_id : Text)
    → Fields
unfolding put show_nat
originate_action endpoint context extension priority caller_id channel_vars action_id =
    let action : Fields =
      (codes "Action", codes "Originate")
      ∷ (codes "Channel", endpoint)
      ∷ (codes "Context", context)
      ∷ (codes "Extension", extension)
      ∷ (codes "Priority", show_nat priority)
      ∷ (codes "ActionID", action_id)
      ∷ [] in
    last_variable channel_vars
      (if is_set caller_id then put (codes "CallerID") (or_else caller_id []) action else action)
