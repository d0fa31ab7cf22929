-- ===== src/Alerting.antt =====
-- core/alerting.py: the rules with their cooldowns. `delivers` says whether `_send_fn` returns rather
-- than raises. Times are readings of the monotonic clock, `now - last >= cooldown` is written without
-- the subtraction.
pub mod Cooldown
use sim_bridge.Prelude.{
  ℕ, ◌+◌, leb, Text, codes, text_Comparable, Bool, true, false, List, [], ◌∷◌, Option, none, some,
  if◌then◌else◌,
}
use sim_bridge.Dict.{Dict, get, put}

pub record AlertRule : Type 0 where
  pub name : Text
  pub cooldown_seconds : ℕ
  pub last_sent : ℕ

abbrev pub new_rule : Text → ℕ → AlertRule
new_rule name cooldown = record { name = name; cooldown_seconds = cooldown; last_sent = 0 }

unfoldable pub should_send : ℕ → AlertRule → AlertRule × Bool
should_send now rule =
    if leb (rule.last_sent + rule.cooldown_seconds) now
    then (record rule { last_sent = now }, true)
    else (rule, false)

abbrev pub AlertManager : Type 0
AlertManager = Dict Text AlertRule

-- `register_rule`, which replaces a rule of that name.
unfoldable pub register_rule : Text → ℕ → AlertManager → AlertManager
register_rule name cooldown rules = put name (new_rule name cooldown) rules

-- `_register_default_rules`
abbrev pub default_rules : AlertManager
default_rules =
    (codes "dongle_offline", new_rule (codes "dongle_offline") 300)
    ∷ (codes "gsm_registration_lost", new_rule (codes "gsm_registration_lost") 300)
    ∷ (codes "telegram_session_invalid", new_rule (codes "telegram_session_invalid") 600)
    ∷ (codes "peer_unreachable", new_rule (codes "peer_unreachable") 300)
    ∷ (codes "repeated_call_failures", new_rule (codes "repeated_call_failures") 600)
    ∷ (codes "modem_recovery", new_rule (codes "modem_recovery") 600)
    ∷ (codes "peer_recovery", new_rule (codes "peer_recovery") 600)
    ∷ []

-- What `alert` does: the manager after it, whether `_send_fn` was called, and the result, which is
-- absent if the exception of `_send_fn` leaves the call.
pub record Alerted : Type 0 where
  pub rules : AlertManager
  pub tried : Bool
  pub result : Option Bool

abbrev alert_by : Text → AlertRule × Bool → Bool → AlertManager → Alerted
alert_by name (rule, true) delivers rules = record {
  rules = put name rule rules;
  tried = true;
  result = some delivers;
}
alert_by name (rule, false) delivers rules = record {
  rules = put name rule rules;
  tried = false;
  result = some false;
}

unfoldable pub alert : Text → ℕ → Bool → AlertManager → Alerted
alert name now delivers rules = elim (get name rules) [
  | none ↦ record { rules = rules; tried = true; result = if delivers then some true else none }
  | some rule ↦ alert_by name (should_send now rule) delivers rules
]
