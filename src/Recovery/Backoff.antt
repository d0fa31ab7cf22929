-- ===== src/Recovery/Backoff.antt =====
-- core/recovery.py: how a retry loop ends, and how long it sleeps.
use sim_bridge.Prelude.{
  ℕ, zero, suc, ◌+◌, ◌*◌, ◌^◌, ◌≤◌, ◌<◌, leb, min, max, not, ◌-◌, Bool, true, false, List, [], ◌∷◌,
  some, ◌≡◌, refl, arith, inl, inr, subst, All, map, ◌∙◌, ◌⊎◌, Bool-cases,
}
use native.Mathlib.Nat.{mul_assoc, mul_comm}
use sim_bridge.Recovery.{BackoffReconnector, Ending, retry_loop, retry}

-- The sleeps of exponential backoff: the delay doubles up to the cap.
abbrev pub doubling : ℕ → ℕ → ℕ → List ℕ
doubling cap delay zero = []
doubling cap delay (suc n) = delay ∷ doubling cap (min (delay * 2) cap) n

one_more :
    (cap delay m n : ℕ)
    → m ≡ suc n
    → doubling cap delay m ≡ delay ∷ doubling cap (min (delay * 2) cap) n
one_more cap delay zero n e = ground arith
one_more cap delay (suc m) n e = ground arith

-- The numbers from the first on, so many.
abbrev pub count_up : ℕ → ℕ → List ℕ
count_up start zero = []
count_up start (suc n) = start ∷ count_up (suc start) n

All-count_up :
    (succeeds : ℕ → Bool) (limit start n : ℕ)
    → start + n ≤ limit
    → 0 < start
    → ((i : ℕ) → 0 < i → i < limit → succeeds i ≡ false)
    → All (λ i. succeeds i ≡ false) (count_up start n)
All-count_up succeeds limit start zero l p h = tt
All-count_up succeeds limit start (suc n) l p h = (
  h start p (omega arith),
  All-count_up succeeds limit (suc start) n (omega arith) (omega arith) h,
)

suc-or-later : (n i : ℕ) → n < i → (suc n ≡ i) ⊎ (suc n < i)
suc-or-later n i l = ground arith

-- How the loop ends that starts after `attempt` and has `left` attempts.
record EndsWell (r : BackoffReconnector) (succeeds : ℕ → Bool) (attempt left delay : ℕ) (e : Ending)
    : Type 0 where
  result_last : e.result ≡ succeeds e.attempts
  failed_before : (i : ℕ) → attempt < i → i < e.attempts → succeeds i ≡ false
  bounded : (attempt < e.attempts) × (e.attempts ≤ attempt + left)
  exhausted : e.result ≡ false → e.attempts ≡ attempt + left
  given_up : e.gave_up ≡ not e.result
  backs_off : e.sleeps ≡ doubling r.max_delay delay (e.attempts - suc attempt)

EndsWell-slept :
    (r : BackoffReconnector) (succeeds : ℕ → Bool) (attempt left delay : ℕ) (e : Ending)
    → succeeds (suc attempt) ≡ false
    → EndsWell r succeeds (suc attempt) left (min (delay * 2) r.max_delay) e
    → EndsWell r succeeds attempt (suc left) delay (record e { sleeps = delay ∷ e.sleeps })
EndsWell-slept r succeeds attempt left delay e fails w = record {
  result_last = w.result_last;
  failed_before = λ i l k. elim (suc-or-later attempt i l) [
    | inl same ↦ subst (λ j. succeeds j ≡ false) same fails
    | inr later ↦ w.failed_before i later k
  ];
  bounded = (omega (arith, w.bounded), omega (arith, w.bounded));
  exhausted = λ k. omega (arith, w.exhausted k);
  given_up = w.given_up;
  backs_off = ground (
    arith,
    one_more r.max_delay delay (e.attempts - suc attempt) (e.attempts - suc (suc attempt))
        (omega (arith, w.bounded)),
    w.backs_off,
  );
}

retry_loop_lem :
    (fuel : ℕ) (r : BackoffReconnector) (succeeds : ℕ → Bool) (attempt left delay : ℕ)
    → left ≤ fuel
    → 0 < left
    → attempt + left ≡ max 1 r.max_retries
    → (e : Ending) × (retry_loop fuel r succeeds attempt delay ≡ some e)
      × EndsWell r succeeds attempt left delay e
unfolding retry_loop
retry_loop_lem zero r succeeds attempt left delay f p h = ground arith
retry_loop_lem (suc fuel) r succeeds attempt left delay f p h =
    elim (Bool-cases (succeeds (suc attempt))) [
      | inl works ↦ (
        record { result = true; attempts = suc attempt; sleeps = []; gave_up = false },
        ground arith,
        record {
          result_last = ground arith;
          failed_before = λ i l k. ground arith;
          bounded = (omega arith, omega arith);
          exhausted = λ k. ground arith;
          given_up = refl;
          backs_off = ground arith;
        },
      )
      | inr fails ↦ elim (Bool-cases (leb r.max_retries (suc attempt))) [
        | inl last ↦ (
          record { result = false; attempts = suc attempt; sleeps = []; gave_up = true },
          ground arith,
          record {
            result_last = ground arith;
            failed_before = λ i l k. ground arith;
            bounded = (omega arith, ground arith);
            exhausted = λ k. ground arith;
            given_up = refl;
            backs_off = ground arith;
          },
        )
        | inr more ↦
            let (e, eq, w) =
              retry_loop_lem fuel r succeeds (suc attempt) (left - 1) (min (delay * 2) r.max_delay)
                (omega arith) (ground arith) (ground arith) in
            (
              record e { sleeps = delay ∷ e.sleeps },
              ground arith,
              subst
                  (λ n.
                    EndsWell r succeeds attempt n delay (record e { sleeps = delay ∷ e.sleeps }))
                  (omega arith) (EndsWell-slept r succeeds attempt (left - 1) delay e fails w),
            )
      ]
    ]

next_power : (cap d p : ℕ) → min (min (d * p) cap * 2) cap ≡ min (d * (2 * p)) cap
next_power cap d p = ground (arith, mul_assoc d p 2, mul_comm p 2)

powers_from :
    (cap d n j delay : ℕ)
    → delay ≡ min (d * 2 ^ j) cap
    → doubling cap delay n ≡ map (λ k. min (d * 2 ^ k) cap) (count_up j n)
powers_from cap d zero j delay e = refl
powers_from cap d (suc n) j delay e =
    ground (arith, powers_from cap d n (suc j) (min (delay * 2) cap), next_power cap d (2 ^ j))

doubling-powers :
    (cap delay n : ℕ)
    → delay ≤ cap
    → doubling cap delay n ≡ map (λ k. min (delay * 2 ^ k) cap) (count_up 0 n)
doubling-powers cap delay n d = powers_from cap delay n 0 delay (omega arith)

-- What the retry loop promises of its ending.
unfoldable pub BacksOff : BackoffReconnector → (ℕ → Bool) → Ending → Type 0
BacksOff r succeeds e =
    (e.result ≡ succeeds e.attempts)
    × (0 < e.attempts)
    × (e.attempts ≤ max 1 r.max_retries)
    × All (λ i. succeeds i ≡ false) (count_up 1 (e.attempts - 1))
    × ((e.result ≡ true) ⊎ (e.attempts ≡ max 1 r.max_retries))
    × (e.gave_up ≡ not e.result)
    × (e.sleeps ≡ map (λ k. min (r.min_delay * 2 ^ k) r.max_delay) (count_up 0 (e.attempts - 1)))

-- With a minimal delay within the maximal one, and fuel for max_retries attempts (for one, if
-- max_retries is 0), the retry loop ends. It calls the operation until its first success and then
-- returns True, or max_retries times, which all fail, and then gives up and returns False.
-- Between two attempts it sleeps: the k-th time min_delay doubled k times, but no longer than
-- max_delay.
pub retry-BacksOff :
    (r : BackoffReconnector) (succeeds : ℕ → Bool) (fuel : ℕ)
    → r.min_delay ≤ r.max_delay
    → max 1 r.max_retries ≤ fuel
    → (e : Ending) × (retry fuel r succeeds ≡ some e) × BacksOff r succeeds e
unfolding BacksOff
retry-BacksOff r succeeds fuel d f =
    let (e, ends, w) =
      retry_loop_lem fuel r succeeds 0 (max 1 r.max_retries) r.min_delay f (omega arith)
        (omega arith) in
    (
      e,
      ends,
      (
        w.result_last,
        w.bounded.0,
        omega (arith, w.bounded),
        All-count_up succeeds e.attempts 1 (e.attempts - 1) (omega (arith, w.bounded)) (omega arith)
            w.failed_before,
        ground (arith, w.exhausted, Bool-cases e.result),
        w.given_up,
        w.backs_off ∙ doubling-powers r.max_delay r.min_delay (e.attempts - 1) d,
      ),
    )
