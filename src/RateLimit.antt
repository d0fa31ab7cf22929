-- ===== src/RateLimit.antt =====
-- core/ratelimit.py, `RateLimiter`: a sliding window of time stamps for each key. Times are readings of
-- the monotonic clock in its ticks, and `t > now - window` is written without the subtraction.
pub mod Window
use sim_bridge.Prelude.{
  ℕ, ◌+◌, ◌-◌, ltb, leb, Text, text_Comparable, Bool, true, false, List, [], ◌∷◌, ◌++◌, or_else,
  length, keep_if, if◌then◌else◌,
}
use sim_bridge.Dict.{Dict, get, put}

pub record RateLimiter : Type 0 where
  pub max_requests : ℕ
  pub window : ℕ
  pub buckets : Dict Text (List ℕ)

abbrev pub new_limiter : ℕ → ℕ → RateLimiter
new_limiter max_requests window = record {
  max_requests = max_requests;
  window = window;
  buckets = [];
}

-- `t > cutoff`
abbrev pub is_recent : ℕ → ℕ → ℕ → Bool
is_recent window now t = ltb now (t + window)

-- The key's time stamps without the expired ones.
unfoldable pub recent : RateLimiter → Text → ℕ → List ℕ
recent r key now = keep_if (is_recent r.window now) (or_else (get key r.buckets) [])

unfoldable pub allow : RateLimiter → Text → ℕ → RateLimiter × Bool
allow r key now =
    let timestamps = recent r key now in
    if leb r.max_requests (length timestamps)
    then (record r { buckets = put key timestamps r.buckets }, false)
    else (record r { buckets = put key (timestamps ++ now ∷ []) r.buckets }, true)

-- `max(0, …)` is the subtraction that stops at 0.
unfoldable pub remaining : RateLimiter → Text → ℕ → ℕ
remaining r key now = r.max_requests - length (recent r key now)
