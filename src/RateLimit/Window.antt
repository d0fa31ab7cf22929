-- ===== src/RateLimit/Window.antt =====
-- core/ratelimit.py against its promise: a request is allowed when fewer than `max_requests` requests of
-- the key have been allowed within the window, counted over the whole history.
use sim_bridge.Prelude.{
  ℕ, ◌+◌, ◌-◌, ◌≤◌, ltb, Text, text_Comparable, text_eq_iff, Bool, true, false, ◌&&◌, List, [], ◌∷◌,
  ◌++◌, or_else, length, keep_if, count_if, ◌==◌, ◌≡◌, refl, arith, length-keep_if,
}
use sim_bridge.Dict.{get}
use sim_bridge.Dict.Laws.{get-put}
use sim_bridge.RateLimit.{RateLimiter, new_limiter, is_recent, recent, allow, remaining}

-- The requests that were allowed, newest first, each with its key and time.
abbrev pub History : Type 0
History = List (Text × ℕ)

-- How many of them are the key's and lie in the window that ends at `now`.
pub allowed_within : ℕ → Text → ℕ → History → ℕ
allowed_within window key now = count_if (λ g. g.0 == key && is_recent window now g.1)

pub record Run : Type 0 where
  pub limiter : RateLimiter
  pub history : History

abbrev note : Text → ℕ → Bool → History → History
note key now true h = (key, now) ∷ h
note key now false h = h

-- One request, and the history with it.
unfoldable pub request : Run → Text × ℕ → Run
request s (key, now) = record {
  limiter = (allow s.limiter key now).0;
  history = note key now (allow s.limiter key now).1 s.history;
}

unfoldable pub requests : Run → List (Text × ℕ) → Run
requests s [] = s
requests s (q ∷ qs) = requests (request s q) qs

-- The clock does not go back.
abbrev pub InOrder : ℕ → List (Text × ℕ) → Type 0
InOrder last [] = Unit
InOrder last ((key, now) ∷ qs) = (last ≤ now) × InOrder now qs

abbrev pub last_time : ℕ → List (Text × ℕ) → ℕ
last_time last [] = last
last_time last ((key, now) ∷ qs) = last_time now qs

-- What the buckets know of the history, for windows that end at `last` or later.
record Agrees (s : Run) (last : ℕ) : Type 0 where
  counts :
      (key : Text) (now : ℕ)
      → last ≤ now
      → count_if (is_recent (s.limiter).window now) (or_else (get key (s.limiter).buckets) [])
        ≡ allowed_within (s.limiter).window key now s.history
  bounded :
      (key : Text) (now : ℕ)
      → last ≤ now
      → allowed_within (s.limiter).window key now s.history ≤ (s.limiter).max_requests

-- A later window sees the same of what an earlier one has kept.
count_if-keep_if :
    (window now later : ℕ) (ts : List ℕ)
    → now ≤ later
    → count_if (is_recent window later) (keep_if (is_recent window now) ts)
      ≡ count_if (is_recent window later) ts
count_if-keep_if window now later [] h = refl
count_if-keep_if window now later (t ∷ ts) h = ground (arith, count_if-keep_if window now later ts)

count_if-append :
    (p : ℕ → Bool) (xs ys : List ℕ) → count_if p (xs ++ ys) ≡ count_if p xs + count_if p ys
count_if-append p [] ys = omega arith
count_if-append p (x ∷ xs) ys = ground (arith, count_if-append p xs ys)

-- A later window holds no more.
allowed_within_mono :
    (window : ℕ) (key : Text) (now later : ℕ) (h : History)
    → now ≤ later
    → allowed_within window key later h ≤ allowed_within window key now h
unfolding allowed_within
allowed_within_mono window key now later [] le = omega arith
allowed_within_mono window key now later ((k, t) ∷ h) le =
    ground (arith, allowed_within_mono window key now later h)

module _ (s : Run) (key : Text) (now last : ℕ) (later_than : last ≤ now) (v : Agrees s last) where
  length-recent :
      length (recent s.limiter key now) ≡ allowed_within (s.limiter).window key now s.history
  unfolding recent
  length-recent = ground (
    arith,
    length-keep_if (is_recent (s.limiter).window now) (or_else (get key (s.limiter).buckets) []),
    v.counts key now,
  )

  -- What the limiter keeps of a key still agrees with the history, for later windows.
  count_if-recent :
      (later : ℕ)
      → now ≤ later
      → count_if (is_recent (s.limiter).window later) (recent s.limiter key now)
        ≡ allowed_within (s.limiter).window key later s.history
  unfolding recent
  count_if-recent later h = ground (
    arith,
    count_if-keep_if (s.limiter).window now later (or_else (get key (s.limiter).buckets) []),
    v.counts key later,
  )

  request-Agrees : Agrees (request s (key, now)) now
  unfolding request allow
  request-Agrees = record {
    counts = λ k later h.
        unfold allowed_within in
        ground (
          arith,
          get-put key k (recent s.limiter key now) (s.limiter).buckets,
          get-put key k (recent s.limiter key now ++ now ∷ []) (s.limiter).buckets,
          count_if-append (is_recent (s.limiter).window later) (recent s.limiter key now)
              (now ∷ []),
          count_if-recent later h,
          v.counts k later,
          text_eq_iff key k,
        );
    bounded = λ k later h.
        unfold allowed_within in
        ground (
          arith,
          length-recent,
          allowed_within_mono (s.limiter).window key now later s.history h,
          v.bounded k later,
          text_eq_iff key k,
        );
  }

  allow-eq :
      (allow s.limiter key now).1
      ≡ ltb (allowed_within (s.limiter).window key now s.history) (s.limiter).max_requests
  unfolding allow
  allow-eq = ground (arith, length-recent)

  remaining-eq :
      remaining s.limiter key now
      ≡ (s.limiter).max_requests - allowed_within (s.limiter).window key now s.history
  unfolding remaining
  remaining-eq = ground (arith, length-recent)

requests-Agrees :
    (s : Run) (qs : List (Text × ℕ)) (last : ℕ)
    → InOrder last qs
    → Agrees s last
    → Agrees (requests s qs) (last_time last qs)
unfolding requests
requests-Agrees s [] last o v = v
requests-Agrees s ((key, now) ∷ qs) last o v =
    requests-Agrees (request s (key, now)) qs now o.1 (request-Agrees s key now last o.0 v)

abbrev pub start : ℕ → ℕ → Run
start max_requests window = record { limiter = new_limiter max_requests window; history = [] }

start-Agrees : (max_requests window : ℕ) → Agrees (start max_requests window) 0
unfolding get allowed_within
start-Agrees max_requests window = record {
  counts = λ key now h. refl;
  bounded = λ key now h. omega arith;
}

requests_settings :
    (s : Run) (qs : List (Text × ℕ))
    → ((requests s qs).limiter.window ≡ (s.limiter).window)
      × ((requests s qs).limiter.max_requests ≡ (s.limiter).max_requests)
unfolding requests request allow
requests_settings s [] = (refl, refl)
requests_settings s ((key, now) ∷ qs) = ground (arith, requests_settings (request s (key, now)) qs)

module _ (max_requests window : ℕ) (qs : List (Text × ℕ)) (key : Text) (now : ℕ)
    (in_order : InOrder 0 qs) (later_than : last_time 0 qs ≤ now) where
  abbrev after : Run
  after = requests (start max_requests window) qs

  -- After any requests in the order of a clock, the limiter allows the next request of a key
  -- exactly when fewer than max_requests of the key's requests were allowed within the window
  -- that ends now, and remaining is the number that is left.
  pub allow_exact :
      ((allow (requests (start max_requests window) qs).limiter key now).1
        ≡ ltb
            (allowed_within window key now (requests (start max_requests window) qs).history)
            max_requests)
      × (remaining (requests (start max_requests window) qs).limiter key now
          ≡ max_requests
            - allowed_within window key now (requests (start max_requests window) qs).history)
  allow_exact =
      let v =
        requests-Agrees (start max_requests window) qs 0 in_order
          (start-Agrees max_requests window) in
      let fields = requests_settings (start max_requests window) qs in
      ground (
        arith,
        allow-eq after key now (last_time 0 qs) later_than v,
        remaining-eq after key now (last_time 0 qs) later_than v,
        fields,
      )

  -- In every window that ends now, at most max_requests requests of a key have been allowed.
  pub window_bound :
      allowed_within window key now (requests (start max_requests window) qs).history ≤ max_requests
  window_bound =
      let v =
        requests-Agrees (start max_requests window) qs 0 in_order
          (start-Agrees max_requests window) in
      ground (arith, v.bounded key now later_than, requests_settings (start max_requests window) qs)
