-- ===== src/Alerting/Cooldown.antt =====
-- core/alerting.py: the cooldown keeps the sends of one rule apart.
use sim_bridge.Prelude.{
  ℕ, ◌+◌, ◌≤◌, leb, Text, text_Comparable, text_eq_iff, Bool, true, false, List, [], ◌∷◌, some,
  if◌then◌else◌, ◌==◌, ◌≡◌, refl, sym, subst, arith, inl, inr, Option-cases, Bool-cases,
}
use sim_bridge.Dict.{get}
use sim_bridge.Dict.Laws.{get-put}
use sim_bridge.Alerting.{AlertRule, AlertManager, should_send, alert}

-- A call of `alert`.
pub record Call : Type 0 where
  pub name : Text
  pub now : ℕ
  pub delivers : Bool

unfoldable pub alerts : List Call → AlertManager → AlertManager
alerts [] rules = rules
alerts (c ∷ cs) rules = alerts cs (alert c.name c.now c.delivers rules).rules

-- The times at which the calls of a rule reach `_send_fn`.
unfoldable pub send_times : Text → List Call → AlertManager → List ℕ
send_times name [] rules = []
send_times name (c ∷ cs) rules =
    let later = send_times name cs (alert c.name c.now c.delivers rules).rules in
    if c.name == name
    then if (alert c.name c.now c.delivers rules).tried then c.now ∷ later else later
    else later

-- Each time is at least `gap` after the one before, the first after `last`.
abbrev pub Apart : ℕ → ℕ → List ℕ → Type 0
Apart gap last [] = Unit
Apart gap last (t ∷ ts) = (last + gap ≤ t) × Apart gap t ts

alert-own :
    (name other : Text) (now : ℕ) (delivers : Bool) (rules : AlertManager) (rule : AlertRule)
    → (other == name) ≡ true
    → get name rules ≡ some rule
    → ((alert other now delivers rules).tried ≡ (should_send now rule).1)
      × (get name (alert other now delivers rules).rules ≡ some (should_send now rule).0)
unfolding alert should_send
alert-own name other now delivers rules rule h e =
    let found : get other rules ≡ some rule =
      subst (λ n. get n rules ≡ some rule) (sym ((text_eq_iff other name).0 h)) e in
    ground (
      arith,
      found,
      get-put other name (record rule { last_sent = now }) rules,
      get-put other name rule rules,
    )

alert-other :
    (name other : Text) (now : ℕ) (delivers : Bool) (rules : AlertManager)
    → (other == name) ≡ false
    → get name (alert other now delivers rules).rules ≡ get name rules
unfolding alert
alert-other name other now delivers rules h = elim (Option-cases (get other rules)) [
  | inl e ↦ ground arith
  | inr (rule, e) ↦
      unfold should_send in
      ground (
        arith,
        get-put other name rule rules,
        get-put other name (record rule { last_sent = now }) rules,
      )
]

Apart-from :
    (cooldown : ℕ) (name : Text) (calls : List Call) (rules : AlertManager) (rule : AlertRule)
    → rule.cooldown_seconds ≡ cooldown
    → get name rules ≡ some rule
    → Apart cooldown rule.last_sent (send_times name calls rules)
unfolding send_times should_send
Apart-from cooldown name [] rules rule c e = tt
Apart-from cooldown name (k ∷ calls) rules rule c e = elim (Bool-cases (k.name == name)) [
  | inl same ↦
      let own = alert-own name k.name k.now k.delivers rules rule same e in
      elim (Bool-cases (leb (rule.last_sent + rule.cooldown_seconds) k.now)) [
        | inl due ↦ ground (
          arith,
          own,
          Apart-from cooldown name calls (alert k.name k.now k.delivers rules).rules
              (record rule { last_sent = k.now }) c,
        )
        | inr early ↦ ground (
          arith,
          own,
          Apart-from cooldown name calls (alert k.name k.now k.delivers rules).rules rule c,
        )
      ]
  | inr other ↦ ground (
    arith,
    alert-other name k.name k.now k.delivers rules other,
    Apart-from cooldown name calls (alert k.name k.now k.delivers rules).rules rule c,
  )
]

-- Under a rule that is registered, two calls of alert that reach the transport are at least the
-- cooldown apart, and the first is at least the cooldown after the rule was last sent.
pub sends-Apart :
    (name : Text) (calls : List Call) (rules : AlertManager) (rule : AlertRule)
    → get name rules ≡ some rule
    → Apart rule.cooldown_seconds rule.last_sent (send_times name calls rules)
sends-Apart name calls rules rule e = Apart-from rule.cooldown_seconds name calls rules rule refl e
