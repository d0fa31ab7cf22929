-- ===== src/Agent/Auth/Replay.antt =====
-- agent/deps.py: an identifier is accepted once in every window.
use sim_bridge.Prelude.{
  ℕ, ◌+◌, ◌≤◌, ◌<◌, ltb, Text, text_Comparable, text_eq, text_eq_iff, is_set, true, [], ◌∷◌, none,
  some, or_else, ◌≡◌, refl, arith, ◌⊎◌, inl, inr, if◌then◌else◌, Bool-cases, Option-cases, is_some,
}
use sim_bridge.Dict.{Dict, get, put}
use sim_bridge.Dict.Laws.{get-put, get-put_self}
use sim_bridge.Dict.Counts.{Unique, put-Unique}
use sim_bridge.Agent.Http.{is_returned}
use sim_bridge.Agent.Auth.{
  Auth, AuthRequest, check_auth, check_ip, live_ids, check_id, check_replay, require_auth,
}

-- Whether the entry of an identifier is still there after the clean-up.
pub get-live_ids :
    (window now : ℕ) (k : Text) (d : Dict Text ℕ)
    → Unique d
    → get k (live_ids window now d)
      ≡ (elim (get k d) [ none ↦ none | some v ↦ if ltb (v + window) now then none else some v ])
unfolding live_ids get
get-live_ids window now k [] u = refl
get-live_ids window now k ((j, v) ∷ d) u =
    ground (arith, get-live_ids window now k d u.1, u.0, text_eq_iff j k)

live_ids-Unique : (window now : ℕ) (d : Dict Text ℕ) → Unique d → Unique (live_ids window now d)
unfolding live_ids
live_ids-Unique window now [] u = tt
live_ids-Unique window now ((j, v) ∷ d) u =
    ground (arith, live_ids-Unique window now d u.1, u.0, get-live_ids window now j d u.1)

-- What a check of the identifiers keeps: the window, and that no identifier stands twice.
pub record Tidy (s t : Auth) : Type 0 where
  pub same_window : t.replay_window ≡ s.replay_window
  pub unique : Unique t.seen_ids

-- The identifier was accepted at `at` or later, or its window had ended at `now`.
abbrev pub Known : Text → (at now : ℕ) → Auth → Type 0
Known cid at now s =
    ((v : ℕ) × ((get cid s.seen_ids ≡ some v) × (at ≤ v))) ⊎ (at + s.replay_window < now)

check_id-Tidy :
    (s : Auth) (cid : Text) (now : ℕ) → Unique s.seen_ids → Tidy s (check_id s cid now).0
unfolding check_id
check_id-Tidy s cid now u =
    let live = live_ids s.replay_window now s.seen_ids in
    let v = live_ids-Unique s.replay_window now s.seen_ids u in
    elim (Bool-cases (is_some (get cid live))) [
      | inl e ↦ rw (e, check_id) (record { same_window = refl; unique = v })
      | inr e ↦ rw (e, check_id) (record { same_window = refl; unique = put-Unique cid now live v })
    ]

pub require_auth-Tidy :
    (s : Auth) (req : AuthRequest) (now : ℕ) → Unique s.seen_ids → Tidy s (require_auth s req now).0
unfolding require_auth check_replay
require_auth-Tidy s req now u =
    let kept : Tidy s s = record { same_window = refl; unique = u } in
    elim (Bool-cases (is_returned (check_auth s req))) [
      | inr e ↦ rw (e, require_auth) kept
      | inl e ↦ elim (Bool-cases (is_returned (check_ip s req))) [
        | inr f ↦ rw (e, f, require_auth) kept
        | inl f ↦ elim (Bool-cases (is_set req.correlation_id)) [
          | inr g ↦ rw (e, f, g, require_auth, check_replay) kept
          | inl g ↦
              rw (e, f, g, require_auth, check_replay)
                (check_id-Tidy s (or_else req.correlation_id []) now u)
        ]
      ]
    ]

-- The clean-up forgets an identifier only when its window has ended.
live-Known :
    (s : Auth) (cid : Text) (at before now : ℕ)
    → Unique s.seen_ids
    → before ≤ now
    → Known cid at before s
    → Known cid at now (record s { seen_ids = live_ids s.replay_window now s.seen_ids })
live-Known s cid at before now u h (inr gone) = inr (omega (arith, gone, h))
live-Known s cid at before now u h (inl (v, (found, late))) =
    elim (Bool-cases (ltb (v + s.replay_window) now)) [
      | inl e ↦ inr (ground (arith, e, late))
      | inr e ↦
          inl
            (v, (ground (arith, get-live_ids s.replay_window now cid s.seen_ids u, found, e), late))
    ]

put-Known :
    (s : Auth) (other cid : Text) (at now : ℕ)
    → at ≤ now
    → Known cid at now s
    → Known cid at now (record s { seen_ids = put other now s.seen_ids })
put-Known s other cid at now h (inr gone) = inr gone
put-Known s other cid at now h (inl (v, (found, late))) = elim (Bool-cases (text_eq other cid)) [
  | inl e ↦ inl (now, (ground (arith, get-put other cid now s.seen_ids), h))
  | inr e ↦ inl (v, (ground (arith, get-put other cid now s.seen_ids, found), late))
]

check_id-Known :
    (s : Auth) (other cid : Text) (at before now : ℕ)
    → Unique s.seen_ids
    → before ≤ now
    → at ≤ now
    → Known cid at before s
    → Known cid at now (check_id s other now).0
unfolding check_id
check_id-Known s other cid at before now u h i k =
    let live = live_ids s.replay_window now s.seen_ids in
    let cleaned : Auth = record s { seen_ids = live } in
    let l = live-Known s cid at before now u h k in
    elim (Bool-cases (is_some (get other live))) [
      | inl e ↦ rw (e, check_id) l
      | inr e ↦ rw (e, check_id) (put-Known cleaned other cid at now i l)
    ]

-- Time passes.
later-Known :
    (s : Auth) (cid : Text) (at before now : ℕ)
    → before ≤ now
    → Known cid at before s
    → Known cid at now s
later-Known s cid at before now h (inr gone) = inr (omega (arith, gone, h))
later-Known s cid at before now h (inl found) = inl found

pub require_auth-Known :
    (s : Auth) (req : AuthRequest) (cid : Text) (at before now : ℕ)
    → Unique s.seen_ids
    → before ≤ now
    → at ≤ now
    → Known cid at before s
    → Known cid at now (require_auth s req now).0
unfolding require_auth check_replay
require_auth-Known s req cid at before now u h i k =
    let kept = later-Known s cid at before now h k in
    elim (Bool-cases (is_returned (check_auth s req))) [
      | inr e ↦ rw (e, require_auth) kept
      | inl e ↦ elim (Bool-cases (is_returned (check_ip s req))) [
        | inr f ↦ rw (e, f, require_auth) kept
        | inl f ↦ elim (Bool-cases (is_set req.correlation_id)) [
          | inr g ↦ rw (e, f, g, require_auth, check_replay) kept
          | inl g ↦
              rw (e, f, g, require_auth, check_replay)
                (check_id-Known s (or_else req.correlation_id []) cid at before now u h i k)
        ]
      ]
    ]

-- An accepted request with an identifier: it was not there, and it is there now.
pub accepted_id :
    (s : Auth) (req : AuthRequest) (cid : Text) (now : ℕ)
    → req.correlation_id ≡ some cid
    → is_set (some cid) ≡ true
    → is_returned (require_auth s req now).1 ≡ true
    → (get cid (live_ids s.replay_window now s.seen_ids) ≡ none)
      × (get cid (require_auth s req now).0.seen_ids ≡ some now)
unfolding require_auth check_replay check_id
accepted_id s req cid now named full done =
    let live = live_ids s.replay_window now s.seen_ids in
    elim (Bool-cases (is_returned (check_auth s req))) [
      | inr e ↦ absurd (ground (arith, e, done))
      | inl e ↦ elim (Bool-cases (is_returned (check_ip s req))) [
        | inr f ↦ absurd (ground (arith, e, f, done))
        | inl f ↦ elim (Option-cases (get cid live)) [
          | inr (v, g) ↦ absurd (ground (arith, e, f, g, done, named, full))
          | inl g ↦ (
            g,
            rw (e, f, named, full, g, require_auth, check_replay, check_id)
                (get-put_self cid now live),
          )
        ]
      ]
    ]
