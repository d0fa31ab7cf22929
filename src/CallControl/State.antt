-- ===== src/CallControl/State.antt =====
-- core/call_control.py: `CallState`, the two tables of transitions and the set of terminal states.
use sim_bridge.Prelude.{
  Text, codes, ℕ, nat_eq, nat_eq_iff, get_elem?, List, [], ◌∷◌, some, ◌≡◌, refl, ◌↔◌, ap,
  Comparable, Bool, true, false,
}
use sim_bridge.Metrics.{Direction, incoming, outgoing}

pub data CallState : Type 0 where
  idle hangup cleanup rejected : CallState
  ringing telegram_ringing telegram_accepted gsm_answered voicemail : CallState
  requested acl_checked acl_denied modem_reserved telegram_calling user_accepted : CallState
  gsm_dialing gsm_ringing gsm_busy gsm_no_answer gsm_error connected telegram_timeout : CallState
  bridged : CallState

abbrev pub all_states : List CallState
all_states =
    idle ∷ hangup ∷ cleanup ∷ rejected ∷ ringing ∷ telegram_ringing ∷ telegram_accepted
    ∷ gsm_answered ∷ voicemail ∷ requested ∷ acl_checked ∷ acl_denied ∷ modem_reserved
    ∷ telegram_calling ∷ user_accepted ∷ gsm_dialing ∷ gsm_ringing ∷ gsm_busy ∷ gsm_no_answer
    ∷ gsm_error ∷ connected ∷ telegram_timeout ∷ bridged ∷ []

-- `state.value`
abbrev pub state_value : CallState → Text
state_value idle = codes "idle"
state_value hangup = codes "hangup"
state_value cleanup = codes "cleanup"
state_value rejected = codes "rejected"
state_value ringing = codes "ringing"
state_value telegram_ringing = codes "telegram_ringing"
state_value telegram_accepted = codes "telegram_accepted"
state_value gsm_answered = codes "gsm_answered"
state_value voicemail = codes "voicemail"
state_value requested = codes "requested"
state_value acl_checked = codes "acl_checked"
state_value acl_denied = codes "acl_denied"
state_value modem_reserved = codes "modem_reserved"
state_value telegram_calling = codes "telegram_calling"
state_value user_accepted = codes "user_accepted"
state_value gsm_dialing = codes "gsm_dialing"
state_value gsm_ringing = codes "gsm_ringing"
state_value gsm_busy = codes "gsm_busy"
state_value gsm_no_answer = codes "gsm_no_answer"
state_value gsm_error = codes "gsm_error"
state_value connected = codes "connected"
state_value telegram_timeout = codes "telegram_timeout"
state_value bridged = codes "bridged"

-- The place of a state in that list, by which `==` compares states.
abbrev pub index : CallState → ℕ
index idle = 0
index hangup = 1
index cleanup = 2
index rejected = 3
index ringing = 4
index telegram_ringing = 5
index telegram_accepted = 6
index gsm_answered = 7
index voicemail = 8
index requested = 9
index acl_checked = 10
index acl_denied = 11
index modem_reserved = 12
index telegram_calling = 13
index user_accepted = 14
index gsm_dialing = 15
index gsm_ringing = 16
index gsm_busy = 17
index gsm_no_answer = 18
index gsm_error = 19
index connected = 20
index telegram_timeout = 21
index bridged = 22

get_elem?-index : (s : CallState) → get_elem? all_states (index s) ≡ some s
get_elem?-index idle = refl
get_elem?-index _ = refl

abbrev pub state_eq : CallState → CallState → Bool
state_eq s t = nat_eq (index s) (index t)

pub state_eq_iff : (s t : CallState) → (state_eq s t ≡ true) ↔ (s ≡ t)
state_eq_iff s t = (
  λ h. cc (
    get_elem?-index s,
    get_elem?-index t,
    ap (get_elem? all_states) ((nat_eq_iff (index s) (index t)).0 h),
  ),
  λ e. (nat_eq_iff (index s) (index t)).1 (ap index e),
)

instance abbrev pub state_Comparable : Comparable CallState
state_Comparable = record { equals = state_eq; equals_iff = state_eq_iff }

-- `_INCOMING_TRANSITIONS.get(state, [])`
abbrev pub incoming_transitions : CallState → List CallState
incoming_transitions idle = ringing ∷ []
incoming_transitions ringing = telegram_ringing ∷ rejected ∷ hangup ∷ voicemail ∷ []
incoming_transitions telegram_ringing = telegram_accepted ∷ rejected ∷ hangup ∷ voicemail ∷ []
incoming_transitions telegram_accepted = gsm_answered ∷ hangup ∷ []
incoming_transitions gsm_answered = bridged ∷ hangup ∷ []
incoming_transitions bridged = hangup ∷ []
incoming_transitions hangup = cleanup ∷ []
incoming_transitions voicemail = hangup ∷ []
incoming_transitions _ = []

-- `_OUTGOING_TRANSITIONS.get(state, [])`
abbrev pub outgoing_transitions : CallState → List CallState
outgoing_transitions idle = requested ∷ []
outgoing_transitions requested = acl_checked ∷ rejected ∷ []
outgoing_transitions acl_checked = acl_denied ∷ modem_reserved ∷ []
outgoing_transitions modem_reserved = telegram_calling ∷ rejected ∷ telegram_timeout ∷ []
outgoing_transitions telegram_calling = user_accepted ∷ rejected ∷ telegram_timeout ∷ []
outgoing_transitions user_accepted = gsm_dialing ∷ hangup ∷ []
outgoing_transitions gsm_dialing = gsm_ringing ∷ gsm_busy ∷ gsm_no_answer ∷ gsm_error ∷ hangup ∷ []
outgoing_transitions gsm_ringing = connected ∷ gsm_no_answer ∷ gsm_error ∷ hangup ∷ []
outgoing_transitions connected = bridged ∷ hangup ∷ []
outgoing_transitions bridged = hangup ∷ []
outgoing_transitions hangup = cleanup ∷ []
outgoing_transitions _ = []

abbrev pub allowed : Direction → CallState → List CallState
allowed incoming = incoming_transitions
allowed outgoing = outgoing_transitions

-- `_TERMINAL_STATES`
abbrev pub is_terminal_state : CallState → Bool
is_terminal_state cleanup = true
is_terminal_state rejected = true
is_terminal_state hangup = true
is_terminal_state voicemail = true
is_terminal_state acl_denied = true
is_terminal_state telegram_timeout = true
is_terminal_state gsm_busy = true
is_terminal_state gsm_no_answer = true
is_terminal_state gsm_error = true
is_terminal_state _ = false
