-- ===== src/Agent/Auth.antt =====
-- agent/deps.py: the checks that every request passes before its handler is called. Times are readings
-- of the monotonic clock in its ticks.
use sim_bridge.Prelude.{
  ℕ, suc, zero, ◌+◌, ◌-◌, ltb, Text, codes, text_Comparable, text_eq, is_empty, is_set, starts_with,
  strip, Bool, true, false, not, ◌&&◌, List, [], ◌∷◌, ◌++◌, Option, none, some, or_else, length,
  keep_if, any_of, contains, add, is_some, if◌then◌else◌,
}
use sim_bridge.Dict.{Dict, get, put}
use sim_bridge.Agent.Http.{Reply, returned, http_error, raised, is_returned}
pub mod Replay
pub mod Gate

-- The module's globals: the token of the environment, the peers, and the times of the identifiers.
pub record Auth : Type 0 where
  pub agent_token : Option Text
  pub allowed_peers : List Text
  pub replay_window : ℕ
  pub seen_ids : Dict Text ℕ

-- What the checks read of a request: the two headers and the address of the client.
pub record AuthRequest : Type 0 where
  pub authorization : Option Text
  pub client_host : Option Text
  pub correlation_id : Option Text

-- An entry of `allowed_peers`: a text, or another value of the YAML file.
pub data Peer : Type 0 where
  named : Text → Peer
  other : Peer

-- `ipaddress.ip_address` accepts a text, and `socket.gethostbyname` finds an address or raises OSError.
module _ (is_ip : Text → Bool) (resolve : Text → Option Text) where
  abbrev add_resolved : Text → List Text → List Text
  add_resolved entry result =
      if is_ip entry
      then result
      else (elim (resolve entry) [ none ↦ result | some address ↦ add address result ])

  abbrev add_peer : Peer → List Text → List Text
  add_peer other result = result
  add_peer (named raw) result =
      let entry = strip raw in
      if is_empty entry then result else add_resolved entry (add entry result)

  unfoldable pub normalize_peers : List Peer → List Text → List Text
  unfolding add
  normalize_peers [] result = result
  normalize_peers (peer ∷ peers) result = normalize_peers peers (add_peer peer result)

  -- The identifiers that were seen stay, as `init_deps` does not touch them.
  unfoldable pub init_deps : Option Text → List Peer → (window : ℕ) → Auth → Auth
  unfolding normalize_peers
  init_deps token peers window s = record s {
    agent_token = token;
    allowed_peers = normalize_peers peers [];
    replay_window = window;
  }

-- `s.replace(t, "")` for a text `t` that is not empty, from left to right. The number counts the
-- characters of an occurrence that are still to be left out.
unfoldable pub without : Text → ℕ → Text → Text
unfolding starts_with
without t skipped [] = []
without t (suc skipped) (c ∷ s) = without t skipped s
without t zero (c ∷ s) = elim (starts_with (c ∷ s) t) [
  | true ↦ without t (length t - 1) s
  | false ↦ c ∷ without t zero s
]

-- The token of the header.
abbrev pub bearer : AuthRequest → Text
bearer req = strip (without (codes "Bearer ") 0 (or_else req.authorization []))

abbrev pub is_ascii : Text → Bool
is_ascii s = not (any_of (λ c. not (ltb c 128)) s)

abbrev pub accepted : Reply (Unit {0})
accepted = returned tt

-- `hmac.compare_digest` raises TypeError for a text that is not ASCII.
abbrev pub compare_tokens : Text → Text → Reply (Unit {0})
compare_tokens token expected =
    if is_ascii token && is_ascii expected
    then (if text_eq token expected
        then accepted
        else http_error 401 (codes "Invalid or missing bearer token"))
    else raised

unfoldable pub check_auth : Auth → AuthRequest → Reply (Unit {0})
unfolding without
check_auth s req =
    if is_set s.agent_token
    then (if is_empty (bearer req)
        then http_error 401 (codes "Invalid or missing bearer token")
        else compare_tokens (bearer req) (or_else s.agent_token []))
    else http_error 500 (codes "Agent token not configured")

abbrev pub local_hosts : List Text
local_hosts = codes "127.0.0.1" ∷ codes "::1" ∷ codes "localhost" ∷ []

-- `f"{client_host}"`
abbrev host_text : Option Text → Text
host_text host = or_else host (codes "None")

abbrev pub is_among : Option Text → List Text → Bool
is_among none hosts = false
is_among (some host) hosts = contains host hosts

unfoldable pub check_ip : Auth → AuthRequest → Reply (Unit {0})
unfolding contains
check_ip s req = if is_among req.client_host local_hosts then accepted else elim (s.allowed_peers) [
  | [] ↦ http_error 403 (
      codes "IP "
      ++ host_text req.client_host
      ++ codes " rejected — no allowed_peers configured and not localhost")
  | peer ∷ peers ↦
      if is_among req.client_host (peer ∷ peers)
      then accepted
      else http_error 403
          (codes "IP " ++ host_text req.client_host ++ codes " not in allowed peers")
]

-- The entries that are not expired: `now - v > _replay_window` is written without the subtraction.
unfoldable pub live_ids : ℕ → ℕ → Dict Text ℕ → Dict Text ℕ
live_ids window now seen = keep_if (λ e. not (ltb (e.1 + window) now)) seen

-- A request with an identifier.
unfoldable pub check_id : Auth → Text → ℕ → Auth × Reply (Unit {0})
unfolding live_ids
check_id s cid now =
    let live = live_ids s.replay_window now s.seen_ids in
    if is_some (get cid live)
    then (
      record s { seen_ids = live },
      http_error 409 (codes "Duplicate correlation_id — possible replay attack"),
    )
    else (record s { seen_ids = put cid now live }, accepted)

unfoldable pub check_replay : Auth → AuthRequest → ℕ → Auth × Reply (Unit {0})
unfolding check_id
check_replay s req now =
    if is_set req.correlation_id
    then check_id s (or_else req.correlation_id []) now
    else (s, accepted)

-- The three dependencies in their order. An exception of one ends the request.
unfoldable pub require_auth : Auth → AuthRequest → ℕ → Auth × Reply (Unit {0})
unfolding check_auth check_ip check_replay
require_auth s req now =
    let replay = check_replay s req now in
    if is_returned (check_auth s req)
    then (if is_returned (check_ip s req) then replay else (s, check_ip s req))
    else (s, check_auth s req)
