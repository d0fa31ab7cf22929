-- ===== src/CallControl/Registry.antt =====
-- core/call_control.py, `CallRegistry`: the calls by their identifiers, the modem reservation and the
-- metrics that every transition feeds. The calls are mutable objects that only the registry holds, so
-- a write to a call is a write to its entry. The modem pool is over any provider.
use sim_bridge.Prelude.{
  ℕ, ◌+◌, ◌-◌, ltb, Text, text_Comparable, is_empty, codes, Bool, true, false, not, ◌&&◌, [], ◌∷◌,
  Option, none, some, if◌then◌else◌, ◌>>=◌,
}
use sim_bridge.Dict.{Dict, get, put, remove}
use sim_bridge.Metrics.{
  Direction, incoming, outgoing, MetricsCollector, call_answered, call_rejected, call_voicemail,
  call_timeout, call_failed, record_answered_duration,
}
use sim_bridge.Audit.{AuditLog, AuditRecord, EventType, string, append}
use sim_bridge.Modem.Routing.{Selection, returned, not_implemented}
use sim_bridge.Modem.{ModemInfo}
use sim_bridge.Modem.Pool.{
  Provider, ModemPool, strategy_name, all_offline, select_for_call, release,
}
use sim_bridge.CallControl.State.{CallState}
use sim_bridge.CallControl.Machine.{CallMachine, new_call, transition}

pub record CallRegistry (P : Type 0) : Type 0 where
  pub calls : Dict Text CallMachine
  pub audit : AuditLog
  pub modems_reserved : ℕ
  pub modem_pool : Option (ModemPool P)
  pub metrics : Option MetricsCollector

-- `reason` of ModemBusyError.
pub data BusyReason : Type 0 where
  busy offline : BusyReason

pub data CallError : Type 0 where
  invalid_transition : CallError
  modem_busy : BusyReason → CallError
  strategy_not_implemented : CallError

-- What a call of the registry raises or returns. The registry that it leaves stands beside it.
pub data Result {ℓ} (A : Type ℓ) : Type ℓ where
  ok : A → Result A
  err : CallError → Result A

-- The branch on `state` in `_metrics_hook`, with the clock at `now`.
count_state : ℕ → CallMachine → CallState → MetricsCollector → MetricsCollector
count_state now c CallState.bridged m = call_answered m c.direction
count_state now c CallState.rejected m = call_rejected m c.direction
count_state now c CallState.voicemail m = call_voicemail m
count_state now c CallState.telegram_timeout m = call_timeout m outgoing
count_state now c CallState.gsm_busy m = call_failed m
count_state now c CallState.gsm_no_answer m = call_failed m
count_state now c CallState.gsm_error m = call_failed m
count_state now c CallState.hangup m = elim c.bridged_at [
  | none ↦ m
  | some since ↦ record_answered_duration m (now - since)
]
count_state now c _ m = m

unfoldable pub metrics_hook : ℕ → CallMachine → Option MetricsCollector → Option MetricsCollector
unfolding count_state
metrics_hook now c none = none
metrics_hook now c (some m) = some (count_state now c c.state m)

-- A transition of a call of the registry: with the hook that `create_…` attached.
abbrev pub move :
    ℕ
    → CallState
    → CallMachine × Option MetricsCollector
    → Option (CallMachine × Option MetricsCollector)
move now s (c, m) = transition (metrics_hook now) now s c m

-- The arguments of `create_outgoing`, and the value of `uuid.uuid4().hex`.
pub record Outgoing : Type 0 where
  pub call_id : Text
  pub callee_number : Text
  pub caller_number : Text
  pub callee_name : Option Text
  pub modem_id : Text
  pub telegram_user_id : Option ℕ
  pub modem_required : Bool

module _ {P : Type 0} where
  abbrev pub new_registry : Option (ModemPool P) → Option MetricsCollector → CallRegistry P
  new_registry pool metrics = record {
    calls = [];
    audit = [];
    modems_reserved = 0;
    modem_pool = pool;
    metrics = metrics;
  }

  -- `self._calls[call.call_id] = call`, and the metrics that the transitions have left.
  abbrev pub store : CallMachine → Option MetricsCollector → CallRegistry P → CallRegistry P
  store c m r = record r { calls = put c.call_id c r.calls; metrics = m }

  -- `call_id` is the value of `uuid.uuid4().hex`.
  unfoldable pub create_incoming :
      CallRegistry P
      → (call_id caller_number : Text) → Option Text
      → (modem_id : Text) → Option Text
      → ℕ
      → Result CallMachine × CallRegistry P
  create_incoming r call_id caller_number caller_name modem_id gsm_channel_id now =
      elim (move now CallState.ringing (call, r.metrics)) [
        | none ↦ (err invalid_transition, r)
        | some (c, m) ↦ (ok c, store c m r)
      ]
    where
      call : CallMachine
      call = record (new_call call_id incoming now) {
        caller_number = caller_number;
        caller_name = caller_name;
        modem_id = modem_id;
        gsm_channel_id = gsm_channel_id;
      }

-- `call.direction == "outgoing"`
abbrev pub is_outgoing : Direction → Bool
is_outgoing incoming = false
is_outgoing outgoing = true

-- `call.direction == "outgoing" and call.modem_id`
abbrev pub holds : Direction → Text → Bool
holds direction modem_id = is_outgoing direction && not (is_empty modem_id)

abbrev pub holds_modem : CallMachine → Bool
holds_modem c = holds c.direction c.modem_id

-- The three transitions of `create_outgoing`.
unfoldable pub outgoing_chain :
    ℕ → CallMachine × Option MetricsCollector → Option (CallMachine × Option MetricsCollector)
outgoing_chain now start = do
  asked ← move now CallState.requested start
  checked ← move now CallState.acl_checked asked
  move now CallState.modem_reserved checked

abbrev pub outgoing_call : Outgoing → Text → ℕ → CallMachine
outgoing_call o modem_id now = record (new_call (o.call_id) outgoing now) {
  caller_number = o.caller_number;
  callee_number = o.callee_number;
  callee_name = o.callee_name;
  modem_id = modem_id;
  telegram_user_id = o.telegram_user_id;
}

abbrev pub selection_record : Outgoing → Text → Text → ℕ → AuditRecord
selection_record o modem_id policy now = record {
  timestamp = now;
  event = EventType.modem_selected;
  telegram_user_id = none;
  correlation_id = some o.call_id;
  modem_id = some modem_id;
  outcome = codes "ok";
  details =
      (codes "policy", string policy)
      ∷ (codes "direction", string (codes "outgoing"))
      ∷ (codes "destination", string o.callee_number)
      ∷ [];
}

module _ {P : Type 0} where
  -- `if modem_required and not self._modem_pool: self._modems_reserved += 1`
  abbrev pub count_reserved : Bool → Option (ModemPool P) → ℕ → ℕ
  count_reserved false pool n = n
  count_reserved true none n = n + 1
  count_reserved true (some pool) n = n

  -- The part of `create_outgoing` after the modem has been chosen, by the policy that is named.
  unfoldable pub place :
      CallRegistry P → Outgoing → (modem_id policy : Text) → ℕ → Result CallMachine × CallRegistry P
  unfolding append
  place r o modem_id policy now =
      elim (outgoing_chain now (outgoing_call o modem_id now, r.metrics)) [
        | none ↦ (err invalid_transition, r)
        | some (c, m) ↦ (
          ok c,
          record (store c m r) {
            modems_reserved = count_reserved o.modem_required r.modem_pool r.modems_reserved;
            audit =
                if o.modem_required
                then append (selection_record o modem_id policy now) r.audit
                else r.audit;
          },
        )
      ]

module _ {P : Type 0} ⦃i : Provider P⦄ where
  -- The pool's answer to `create_outgoing`.
  unfoldable pub place_selected :
      CallRegistry P
      → Outgoing
      → Selection (ModemPool P × Option ModemInfo)
      → ℕ
      → Result CallMachine × CallRegistry P
  place_selected r o not_implemented now = (err strategy_not_implemented, r)
  place_selected r o (returned (pool, none)) now = (
    err (modem_busy (if all_offline pool then offline else busy)),
    record r { modem_pool = some pool },
  )
  place_selected r o (returned (pool, some chosen)) now =
      place (record r { modem_pool = some pool }) o chosen.modem_id (strategy_name pool) now

  -- The branch on the pool, for a call that needs a modem.
  unfoldable pub place_on_modem :
      CallRegistry P → Outgoing → Option (ModemPool P) → ℕ → Result CallMachine × CallRegistry P
  place_on_modem r o none now =
      if ltb 0 r.modems_reserved
      then (err (modem_busy busy), r)
      else place r o o.modem_id (codes "direct") now
  place_on_modem r o (some pool) now = place_selected r o (select_for_call pool) now

  -- An internal call takes no modem: its `modem_id` is empty.
  unfoldable pub create_outgoing :
      CallRegistry P → Outgoing → ℕ → Result CallMachine × CallRegistry P
  create_outgoing r o now =
      if o.modem_required
      then place_on_modem r o r.modem_pool now
      else place r o [] (codes "none") now

  -- The modem is released for an outgoing call that has one.
  unfoldable pub release_modem :
      CallMachine → Option (ModemPool P) → CallRegistry P → CallRegistry P
  release_modem c none r = record r { modems_reserved = r.modems_reserved - 1 }
  release_modem c (some pool) r = record r { modem_pool = some (release pool c.modem_id) }

  unfoldable pub cleanup : CallRegistry P → Text → CallRegistry P
  unfolding release_modem
  cleanup r call_id = elim (get call_id r.calls) [
    | none ↦ r
    | some c ↦
        let rest = record r { calls = remove call_id r.calls } in
        if holds_modem c then release_modem c r.modem_pool rest else rest
  ]
