-- ===== src/Agent/Errors.antt =====
-- core/errors.py: the errors that a user is told, and what they are made of.
use sim_bridge.Prelude.{Text, codes, has_substring, Bool, true, false, ◌&&◌, ◌||◌, if◌then◌else◌}

pub data SmsErrorType : Type 0 where
  number_missing number_malformed number_malformed_sms number_malformed_call : SmsErrorType
  modem_unavailable no_gsm_registration sim_unavailable send_failed : SmsErrorType
  blacklisted denied delivery_failed delivery_expired unknown unknown_command : SmsErrorType

abbrev pub is_submit_error : SmsErrorType → Bool
is_submit_error delivery_failed = false
is_submit_error delivery_expired = false
is_submit_error unknown = false
is_submit_error unknown_command = false
is_submit_error _ = true

abbrev pub message : SmsErrorType → Text
message number_missing = codes "Number not specified"
message number_malformed = codes "Invalid number format"
message number_malformed_sms = codes "Invalid number for SMS"
message number_malformed_call = codes "Invalid number for call"
message modem_unavailable = codes "Modem unavailable"
message no_gsm_registration = codes "Modem not registered on the network"
message sim_unavailable = codes "SIM card unavailable"
message send_failed = codes "SMS send error"
message blacklisted = codes "Number is blacklisted"
message denied = codes "Insufficient permissions"
message delivery_failed = codes "SMS not delivered"
message delivery_expired = codes "SMS expired (not delivered)"
message unknown = codes "Unknown error"
message unknown_command = codes "Unknown command"

-- `asterisk_sms_error_to_type`, where `lower` is `str.lower`.
module _ (lower : Text → Text) where
  unfoldable pub asterisk_sms_error_to_type : Text → SmsErrorType
  asterisk_sms_error_to_type error_msg =
      let err = lower error_msg in
      let says : Text → Bool = has_substring err in
      if says (codes "not registered") || says (codes "no network") || says (codes "unregistered")
      then no_gsm_registration
      else if says (codes "sim")
          && (says (codes "not ready") || says (codes "missing") || says (codes "error"))
      then sim_unavailable
      else if says (codes "busy") || says (codes "unavailable") || says (codes "no modem")
      then modem_unavailable
      else if says (codes "fail") || says (codes "error")
      then send_failed
      else unknown
