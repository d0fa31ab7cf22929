-- ===== src/Audit.antt =====
-- core/events.py, `EventType`, and core/audit.py: the audit log, as the list of the records that have
-- been appended. The rendering as JSON lines and the file are not modelled.
use sim_bridge.Prelude.{ℕ, Text, Bool, List, [], ◌∷◌, ◌++◌, Option, none, some}

pub data EventType : Type 0 where
  user_denied sms_send_requested sms_submitted sms_received sms_delivery_report : EventType
  broadcast_sent call_requested blacklist_changed config_reloaded : EventType
  voicemail_received voicemail_early_hangup : EventType
  call_incoming call_telegram_ring call_gsm_answered : EventType
  call_outgoing call_acl_check call_gsm_dialed call_gsm_ringing call_gsm_connected : EventType
  call_accepted call_rejected call_bridged call_hangup : EventType
  call_telegram_timeout call_duration_expired : EventType
  modem_selected alert_sent : EventType

-- A value in the `details`.
pub data Value : Type 0 where
  string : Text → Value
  number : ℕ → Value
  boolean : Bool → Value
  null : Value

-- `None` or a text
abbrev pub nullable : Option Text → Value
nullable none = null
nullable (some t) = string t

-- The `details` are the pairs of the dictionary, in its order.
pub record AuditRecord : Type 0 where
  pub timestamp : ℕ
  pub event : EventType
  pub telegram_user_id : Option ℕ
  pub correlation_id : Option Text
  pub modem_id : Option Text
  pub outcome : Text
  pub details : List (Text × Value)

abbrev pub AuditLog : Type 0
AuditLog = List AuditRecord

unfoldable pub append : AuditRecord → AuditLog → AuditLog
append r log = log ++ r ∷ []
