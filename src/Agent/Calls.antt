-- ===== src/Agent/Calls.antt =====
-- agent/routes.py: the state that the call routes share, and what several of them do.
-- A handler is one step: its awaits are taken to end before another handler runs. Each reads the clock
-- once. The requests to AMI and the posts to the userbot are kept as lists.
use sim_bridge.Prelude.{
  ℕ, Text, codes, text_Comparable, Bool, true, false, List, [], ◌∷◌, ◌++◌, Option, none, some,
  or_else,
}
use sim_bridge.Dict.{get}
use sim_bridge.Audit.{AuditLog, AuditRecord, EventType, Value, string, append}
use sim_bridge.Metrics.{Direction, incoming, outgoing}
use sim_bridge.Acl.{AclManager}
use sim_bridge.Blacklist.{BlacklistManager}
use sim_bridge.RateLimit.{RateLimiter}
use sim_bridge.CallControl.State.{state_value}
use sim_bridge.CallControl.Machine.{CallMachine}
use sim_bridge.CallControl.Registry.{CallRegistry}
use sim_bridge.CallControl.Monitor.{Limits}
use sim_bridge.Agent.Http.{Reply, returned, http_error, strip_slashes}
pub mod Placing
pub mod Single
pub mod Complete
pub mod TimeLimits
pub mod Serving
pub mod Expiry
pub mod Closure
pub mod Authorized
pub mod Accepted

-- The settings that the call routes read, with the defaults filled in. `agent.userbot_url` may be
-- missing.
pub record Config : Type 0 where
  pub dongle : Text
  pub calls_per_minute : ℕ
  pub limits : Limits
  pub userbot_url : Option Text

-- The body of a post to the userbot's /events/call, with its address.
pub record CallNotice : Type 0 where
  pub url : Text
  pub to : Text
  pub telegram_user_id : Option ℕ
  pub status : Text
  pub call_id : Text

pub record CallApi (P : Type 0) : Type 0 where
  pub registry : CallRegistry P
  pub acl : AclManager
  pub blacklist : BlacklistManager
  pub call_limiter : RateLimiter
  -- The records that the routes write. The registry keeps its own apart.
  pub audit : AuditLog
  -- The channels that AMI was asked to hang up, with the reasons.
  pub hangups : List (Text × Text)
  pub notices : List CallNotice

-- How AMI answers `hangup_channel`, after the requests so far: the text of an exception, or none.
abbrev pub Ami : Type 0
Ami = List (Text × Text) → Text → Option Text

abbrev pub direction_text : Direction → Text
direction_text incoming = codes "incoming"
direction_text outgoing = codes "outgoing"

pub record CallResponse : Type 0 where
  pub call_id : Text
  pub state : Text
  pub caller_number : Text
  pub callee_number : Text
  pub direction : Text

pub record CallStateResponse : Type 0 where
  pub call_id : Text
  pub state : Text
  pub direction : Text
  pub error : Option Text

abbrev pub call_response : CallMachine → CallResponse
call_response c = record {
  call_id = c.call_id;
  state = state_value c.state;
  caller_number = c.caller_number;
  callee_number = c.callee_number;
  direction = direction_text c.direction;
}

abbrev pub state_response : Text → CallMachine → CallStateResponse
state_response call_id c = record {
  call_id = call_id;
  state = state_value c.state;
  direction = direction_text c.direction;
  error = none;
}

-- `f"{what} — call is in {call.state.value} state"`
abbrev pub wrong_state : {A : Type 0} → Text → CallMachine → Reply A
wrong_state what c =
    http_error 409 (what ++ codes " — call is in " ++ state_value c.state ++ codes " state")

module _ {P : Type 0} where
  -- `audit.log(…)` at `now`
  abbrev pub log :
      ℕ → EventType → Option ℕ → Option Text → Text → List (Text × Value) → CallApi P → CallApi P
  log now event telegram_user_id correlation_id outcome details s = record s {
    audit =
        append
          (record {
            timestamp = now;
            event = event;
            telegram_user_id = telegram_user_id;
            correlation_id = correlation_id;
            modem_id = none;
            outcome = outcome;
            details = details;
          })
          s.audit;
  }

  abbrev pub with_registry : CallApi P → CallRegistry P → CallApi P
  with_registry s r = record s { registry = r }

  -- The object of a call as it is now: the entry of the registry, for as long as it is there.
  abbrev pub current : CallRegistry P → CallMachine → CallMachine
  current r c = or_else (get c.call_id r.calls) c

  -- `_notify_userbot_call`: the post that is attempted. Its outcome is only logged.
  unfoldable pub notify_userbot_call : Config → CallMachine → Text → CallApi P → CallApi P
  unfolding strip_slashes
  notify_userbot_call cfg c status s = elim (cfg.userbot_url) [
    | none ↦ s
    | some url ↦ record s {
      notices =
          s.notices
          ++ record {
            url = strip_slashes url ++ codes "/events/call";
            to = c.callee_number;
            telegram_user_id = c.telegram_user_id;
            status = status;
            call_id = c.call_id;
          }
            ∷ [];
    }
  ]

  -- One channel: `await ami.hangup_channel(…)`, and the record of a failure.
  abbrev pub hang_up_one : Ami → ℕ → (reason call_id channel : Text) → CallApi P → CallApi P
  hang_up_one ami now reason call_id channel s =
      let asked : CallApi P = record s { hangups = s.hangups ++ (channel, reason) ∷ [] } in
      elim (ami s.hangups channel) [
        | none ↦ asked
        | some e ↦
            log now EventType.call_hangup none (some call_id) (codes "partial_hangup")
              ((codes "error", string e) ∷ (codes "channel", string channel) ∷ []) asked
      ]

  -- `for channel_id in channels: …`
  unfoldable pub hang_up_channels :
      Ami → ℕ → (reason call_id : Text) → List Text → CallApi P → CallApi P
  unfolding append
  hang_up_channels ami now reason call_id [] s = s
  hang_up_channels ami now reason call_id (channel ∷ channels) s =
      hang_up_channels ami now reason call_id channels
        (hang_up_one ami now reason call_id channel s)
