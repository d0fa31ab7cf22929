-- ===== src/Checks/Entry.antt =====
-- agent/deps.py on small inputs.
use sim_bridge.Prelude.{
  Text, codes, text_eq, text_Comparable, true, false, [], ◌∷◌, some, ◌≡◌, ◌<◌, ◌+◌, refl, arith,
  ◌⊎◌, contains, starts_with, is_space, left_strip, right_strip,
}
use mathlib.Core.List.{cons≢nil}
use sim_bridge.Dict.{get, put}
use sim_bridge.Agent.Http.{http_error, raised, is_returned}
use sim_bridge.Agent.Auth.{
  Auth, AuthRequest, require_auth, check_auth, check_ip, check_replay, check_id, live_ids, without,
  accepted, bearer,
}
use sim_bridge.Agent.Auth.Gate.{run, IsTrusted, accepted_once, require_auth-IsTrusted}

abbrev agent : Auth
agent = record {
  agent_token = some (codes "secret");
  allowed_peers = codes "10.0.0.2" ∷ [];
  replay_window = 300;
  seen_ids = [];
}

abbrev from_peer : Text → AuthRequest
from_peer header = record {
  authorization = some header;
  client_host = some (codes "10.0.0.2");
  correlation_id = some (codes "c");
}

abbrev good : AuthRequest
good = from_peer (codes "Bearer secret")

good_token : bearer good ≡ codes "secret"
unfolding without starts_with left_strip right_strip is_space contains
good_token = refl

accepted_first :
    require_auth agent good 10 ≡ (record agent { seen_ids = (codes "c", 10) ∷ [] }, accepted)
unfolding require_auth check_auth check_ip check_replay check_id live_ids get put without
    starts_with left_strip right_strip is_space contains text_eq
accepted_first = refl

-- Within the window the identifier is refused, and after it accepted.
repeated :
    (require_auth (require_auth agent good 10).0 good 310).1
    ≡ http_error 409 (codes "Duplicate correlation_id — possible replay attack")
unfolding require_auth check_auth check_ip check_replay check_id live_ids get put without
    starts_with left_strip right_strip is_space contains text_eq
repeated = refl

abbrev bad : AuthRequest
bad = from_peer (codes "Bearer other")

first_accepted : is_returned (require_auth (run agent []) good 10).1 ≡ true
unfolding run require_auth check_auth check_ip check_replay check_id live_ids get put without
    starts_with left_strip right_strip is_space contains text_eq
first_accepted = refl

accepted_later :
    is_returned
      (require_auth (run (require_auth (run agent []) good 10).0 ((bad, 20) ∷ [])) good 311).1
    ≡ true
unfolding run require_auth check_auth check_ip check_replay check_id live_ids get put without
    starts_with left_strip right_strip is_space contains text_eq
accepted_later = refl

-- A token that is not ASCII ends in the TypeError of `compare_digest`.
not_ascii : (require_auth agent (from_peer (codes "Bearer sécret")) 10).1 ≡ raised
unfolding require_auth check_auth check_ip check_replay check_id live_ids get put without
    starts_with left_strip right_strip is_space contains text_eq
not_ascii = refl

wrong_token :
    (require_auth agent bad 10).1 ≡ http_error 401 (codes "Invalid or missing bearer token")
unfolding require_auth check_auth check_ip check_replay check_id live_ids get put without
    starts_with left_strip right_strip is_space contains text_eq
wrong_token = refl

accepted_once_example : 10 + 300 < 311
accepted_once_example =
    accepted_once agent [] ((bad, 20) ∷ []) good good (codes "c") 10 311 refl refl refl cons≢nil
      (omega arith, omega arith) first_accepted accepted_later

require_auth-IsTrusted_example :
    IsTrusted agent good
    ⊎ ((is_returned (require_auth agent good 10).1 ≡ false)
        × ((require_auth agent good 10).0 ≡ agent))
require_auth-IsTrusted_example = require_auth-IsTrusted agent good 10
