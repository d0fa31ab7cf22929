-- ===== src/Agent/Auth/Gate.antt =====
-- agent/deps.py, `require_auth`: which requests are let through, one after the other.
use sim_bridge.Prelude.{
  ℕ, ◌+◌, ◌≤◌, ◌<◌, Text, text_Comparable, text_eq_iff, is_set, is_empty, true, false, List, [],
  ◌∷◌, some, ◌≡◌, ◌≢◌, refl, sym, ap, ◌∙◌, arith, ◌⊎◌, inl, inr, Bool-cases, Option-cases,
}
use sim_bridge.Dict.Counts.{Unique}
use sim_bridge.Agent.Http.{is_returned}
use sim_bridge.Agent.Auth.{
  Auth, AuthRequest, check_auth, check_ip, require_auth, bearer, compare_tokens, is_among,
  local_hosts,
}
use sim_bridge.Agent.Auth.Replay.{
  Tidy, Known, require_auth-Tidy, require_auth-Known, accepted_id, get-live_ids,
}

-- The requests with their times, one after the other.
unfoldable pub run : Auth → List (AuthRequest × ℕ) → Auth
unfolding require_auth
run s [] = s
run s ((req, now) ∷ qs) = run (require_auth s req now).0 qs

-- The clock does not go back: from `before` through the requests to `after`.
abbrev pub InOrder : (before : ℕ) → List (AuthRequest × ℕ) → (after : ℕ) → Type 0
InOrder before [] after = before ≤ after
InOrder before ((req, now) ∷ qs) after = (before ≤ now) × InOrder now qs after

run-Tidy : (s : Auth) (qs : List (AuthRequest × ℕ)) → Unique s.seen_ids → Tidy s (run s qs)
unfolding run
run-Tidy s [] u = record { same_window = refl; unique = u }
run-Tidy s ((req, now) ∷ qs) u =
    let first = require_auth-Tidy s req now u in
    let rest = run-Tidy (require_auth s req now).0 qs first.unique in
    record { same_window = rest.same_window ∙ first.same_window; unique = rest.unique }

run-Known :
    (s : Auth) (qs : List (AuthRequest × ℕ)) (cid : Text) (at before after : ℕ)
    → Unique s.seen_ids
    → at ≤ before
    → InOrder before qs after
    → Known cid at before s
    → Known cid at after (run s qs)
unfolding run
run-Known s [] cid at before after u i h (inl found) = inl found
run-Known s [] cid at before after u i h (inr gone) = inr (omega (arith, gone, h))
run-Known s ((req, now) ∷ qs) cid at before after u i h k =
    let v = require_auth-Tidy s req now u in
    let i' : at ≤ now = omega (arith, i, h.0) in
    run-Known (require_auth s req now).0 qs cid at now after v.unique i' h.1
      (require_auth-Known s req cid at before now u h.0 i' k)

-- From a start without seen identifiers, two accepted requests with the same correlation id that
-- is not empty, whatever requests come before and between them, are more than the replay window
-- apart, if the clock does not go back from the first to the second.
pub accepted_once :
    (s : Auth) (earlier between : List (AuthRequest × ℕ)) (first second : AuthRequest) (cid : Text)
    (first_at second_at : ℕ)
    → s.seen_ids ≡ []
    → first.correlation_id ≡ some cid
    → second.correlation_id ≡ some cid
    → cid ≢ []
    → InOrder first_at between second_at
    → is_returned (require_auth (run s earlier) first first_at).1 ≡ true
    → is_returned
        (require_auth
          (run (require_auth (run s earlier) first first_at).0 between)
          second
          second_at).1
      ≡ true
    → first_at + s.replay_window < second_at
accepted_once s earlier between first second cid first_at second_at fresh one two full order done
      again =
    let u : Unique s.seen_ids = rw fresh tt in
    let set : is_set (some cid) ≡ true = go cid full in
    let before = run s earlier in
    let tidy = run-Tidy s earlier u in
    let after = (require_auth before first first_at).0 in
    let tidy_after = require_auth-Tidy before first first_at tidy.unique in
    let later = run after between in
    let tidy_later = run-Tidy after between tidy_after.unique in
    let (_, stored) = accepted_id before first cid first_at one set done in
    let (absent, _) = accepted_id later second cid second_at two set again in
    let window = tidy_later.same_window ∙ tidy_after.same_window ∙ tidy.same_window in
    elim (run-Known after between cid first_at first_at second_at tidy_after.unique (omega arith)
      order (inl (first_at, (stored, omega arith)))) [
        | inr gone ↦ rw (sym window) gone
        | inl (v, (found, late)) ↦ ground (
          arith,
          get-live_ids later.replay_window second_at cid later.seen_ids tidy_later.unique,
          absent,
          found,
          late,
          window,
        )
      ]
  where
    go : (t : Text) → t ≢ [] → is_set (some t) ≡ true
    go [] h = absurd (h refl)
    go (c ∷ t) h = refl

-- The token is the agent's, and the client is local or one of the peers.
abbrev pub IsTrusted : Auth → AuthRequest → Type 0
IsTrusted s req =
    (s.agent_token ≡ some (bearer req))
    × (bearer req ≢ [])
    × ((is_among req.client_host local_hosts ≡ true)
        ⊎ (is_among req.client_host s.allowed_peers ≡ true))

compare_tokens_lem :
    (token expected : Text) → is_returned (compare_tokens token expected) ≡ true → token ≡ expected
compare_tokens_lem token expected h = ground (arith, h, text_eq_iff token expected)

check_auth_lem :
    (s : Auth) (req : AuthRequest)
    → is_returned (check_auth s req) ≡ true
    → (s.agent_token ≡ some (bearer req)) × (bearer req ≢ [])
unfolding check_auth
check_auth_lem s req h = elim (Option-cases s.agent_token) [
  | inl e ↦ absurd (ground (arith, e, h))
  | inr (token, e) ↦ elim (Bool-cases (is_set (some token))) [
    | inr f ↦ absurd (ground (arith, e, f, h))
    | inl f ↦ elim (Bool-cases (is_empty (bearer req))) [
      | inl g ↦ absurd (ground (arith, e, f, g, h))
      | inr g ↦
          let same : is_returned (compare_tokens (bearer req) token) ≡ true =
            ground (arith, e, f, g, h) in
          (
            e ∙ ap some (sym (compare_tokens_lem (bearer req) token same)),
            λ empty. cc (g, ap is_empty empty),
          )
    ]
  ]
]

check_ip_lem :
    (s : Auth) (req : AuthRequest)
    → is_returned (check_ip s req) ≡ true
    → (is_among req.client_host local_hosts ≡ true)
      ⊎ (is_among req.client_host s.allowed_peers ≡ true)
unfolding check_ip
check_ip_lem s req h = elim (Bool-cases (is_among req.client_host local_hosts)) [
  | inl e ↦ inl e
  | inr e ↦ go s.allowed_peers refl
]
  where
    go :
        (peers : List Text)
        → s.allowed_peers ≡ peers
        → (is_among req.client_host local_hosts ≡ true)
          ⊎ (is_among req.client_host s.allowed_peers ≡ true)
    go [] e = ground (arith, e, h)
    go (peer ∷ peers) e = ground (arith, e, h)

-- Either the token of the request is the configured one and not empty, and the client is local or
-- one of the allowed peers; or the request is refused and the seen identifiers are as they were.
pub require_auth-IsTrusted :
    (s : Auth) (req : AuthRequest) (now : ℕ)
    → IsTrusted s req
      ⊎ ((is_returned (require_auth s req now).1 ≡ false) × ((require_auth s req now).0 ≡ s))
unfolding require_auth
require_auth-IsTrusted s req now = elim (Bool-cases (is_returned (check_auth s req))) [
  | inr e ↦ inr (rw (e, require_auth) (e, refl))
  | inl e ↦ elim (Bool-cases (is_returned (check_ip s req))) [
    | inr f ↦ inr (rw (e, f, require_auth) (f, refl))
    | inl f ↦ let (token, full) = check_auth_lem s req e in inl (token, full, check_ip_lem s req f)
  ]
]
