-- ===== src/SmsCorrelation.antt =====
-- core/sms_correlation.py: the records of outgoing messages, in memory and in the log file.
-- A line of the file is what `json.loads` and `SMSRecord(**data)` make of it. Times are ISO texts that
-- the caller supplies, as is the identifier that `uuid4` draws, and whether an append succeeds.
pub mod Named
pub mod Matching
pub mod Restart
pub mod Reports
pub mod Best
pub mod Resolved
use sim_bridge.Prelude.{
  ℕ, nat_Comparable, Text, codes, text_Comparable, text_le, is_empty, is_set, starts_with,
  has_substring, is_digit, Bool, true, false, not, ◌&&◌, ◌||◌, List, [], ◌∷◌, ◌++◌, map, reverse,
  Option, none, some, or_else, keep_if, take, get_elem?, any_of, drop, sort_by, if◌then◌else◌, ◌==◌,
}
use sim_bridge.Dict.{Dict, get, put, values}

pub data Status : Type 0 where
  pending : Status
  submitted : Status
  delivered : Status
  failed : Status
  expired : Status

pub record SmsRecord : Type 0 where
  pub sms_id : Text
  pub telegram_user_id : ℕ
  pub telegram_message_id : Option ℕ
  pub phone_number : Text
  pub modem_id : Text
  pub text : Text
  pub submit_status : Status
  pub delivery_status : Status
  pub submitted_at : Option Text
  pub delivered_at : Option Text
  pub error_message : Option Text
  pub created_at : Text

pub data Line : Type 0 where
  entry : SmsRecord → Line
  blank : Line
  unparseable : Line

pub record SmsCorrelationStore : Type 0 where
  pub records : Dict Text SmsRecord
  -- The lines of the log file, if the store has one.
  pub log : Option (List Line)

-- `_load`: the last line of an identifier wins.
unfoldable pub load_from : Dict Text SmsRecord → List Line → Dict Text SmsRecord
load_from records [] = records
load_from records (entry rec ∷ lines) = load_from (put rec.sms_id rec records) lines
load_from records (blank ∷ lines) = load_from records lines
load_from records (unparseable ∷ lines) = load_from records lines

abbrev pub load : List Line → Dict Text SmsRecord
load lines = load_from [] lines

unfoldable pub new_store : Option (List Line) → SmsCorrelationStore
new_store none = record { records = []; log = none }
new_store (some lines) = record { records = load lines; log = some lines }

-- `_persist`, where `written` says whether the append succeeds.
unfoldable pub persist : Bool → SmsRecord → Option (List Line) → Option (List Line)
persist written rec none = none
persist written rec (some lines) = some (if written then lines ++ entry rec ∷ [] else lines)

-- What `create` is given, with the identifier drawn and the time.
pub record Message : Type 0 where
  pub sms_id : Text
  pub telegram_user_id : ℕ
  pub phone_number : Text
  pub text : Text
  pub telegram_message_id : Option ℕ
  pub modem_id : Text
  pub now : Text

unfoldable pub new_record : Message → SmsRecord
new_record m = record {
  sms_id = m.sms_id;
  telegram_user_id = m.telegram_user_id;
  telegram_message_id = m.telegram_message_id;
  phone_number = m.phone_number;
  modem_id = m.modem_id;
  text = m.text;
  submit_status = pending;
  delivery_status = pending;
  submitted_at = none;
  delivered_at = none;
  error_message = none;
  created_at = m.now;
}

-- A record is stored under its identifier and appended to the log.
unfoldable pub store_record : Bool → SmsRecord → SmsCorrelationStore → SmsCorrelationStore
store_record written rec s = record s {
  records = put rec.sms_id rec s.records;
  log = persist written rec s.log;
}

abbrev pub create : Message → Bool → SmsCorrelationStore → SmsCorrelationStore × SmsRecord
create m written s = (store_record written (new_record m) s, new_record m)

unfoldable pub submitted_record : Text → SmsRecord → SmsRecord
submitted_record now rec = record rec { submit_status = submitted; submitted_at = some now }

unfoldable pub delivered_record : Text → SmsRecord → SmsRecord
delivered_record now rec = record rec { delivery_status = delivered; delivered_at = some now }

unfoldable pub failed_record : Text → Bool → SmsRecord → SmsRecord
failed_record error true rec = record rec { error_message = some error; submit_status = failed }
failed_record error false rec = record rec { error_message = some error; delivery_status = failed }

-- What the three `mark_…` share: the object that the dictionary holds is changed in place and logged.
-- It stays under the key it was found at, and its line carries its own identifier.
unfoldable pub mark :
    (SmsRecord → SmsRecord) → Text → Bool → SmsCorrelationStore → SmsCorrelationStore × Bool
mark change sms_id written s = elim (get sms_id s.records) [
  | none ↦ (s, false)
  | some rec ↦ (
    record s {
      records = put sms_id (change rec) s.records;
      log = persist written (change rec) s.log;
    },
    true,
  )
]

abbrev pub mark_submitted : Text → Text → Bool → SmsCorrelationStore → SmsCorrelationStore × Bool
mark_submitted sms_id now written s = mark (submitted_record now) sms_id written s

abbrev pub mark_delivered : Text → Text → Bool → SmsCorrelationStore → SmsCorrelationStore × Bool
mark_delivered sms_id now written s = mark (delivered_record now) sms_id written s

abbrev pub mark_failed :
    Text → Text → Bool → Bool → SmsCorrelationStore → SmsCorrelationStore × Bool
mark_failed sms_id error submit_failed written s =
    mark (failed_record error submit_failed) sms_id written s

abbrev is_reply : ℕ → ℕ → SmsRecord → Bool
is_reply user message rec =
    rec.telegram_user_id == user
    && elim (rec.telegram_message_id) [ none ↦ false | some m ↦ m == message ]

unfoldable pub find_by_telegram_message : ℕ → ℕ → SmsCorrelationStore → Option SmsRecord
find_by_telegram_message user message s =
    get_elem? (keep_if (is_reply user message) (reverse (values s.records))) 0

-- `sort(key=…, reverse=True)` keeps the order of equal keys.
unfoldable pub newest_first : (SmsRecord → Text) → List SmsRecord → List SmsRecord
newest_first key recs = sort_by (λ a b. text_le (key b) (key a)) recs

unfoldable pub recent : ℕ → ℕ → SmsCorrelationStore → List SmsRecord
recent user limit s = take limit (
    newest_first (λ r. r.created_at) (keep_if (λ r. r.telegram_user_id == user) (values s.records)))
