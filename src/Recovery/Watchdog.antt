-- ===== src/Recovery/Watchdog.antt =====
-- core/recovery.py: when the watchdog resets the modem, and what it does when resetting does not help.
use sim_bridge.Prelude.{ℕ, zero, suc, ◌-◌, ◌<◌, false, List, [], ◌∷◌, ◌≡◌, refl, arith}
use sim_bridge.Recovery.{Check, unhealthy, ModemWatchdog, new_watchdog, watch, watch_all}

-- A modem that stays unhealthy through n checks and whose resets all fail.
abbrev pub hopeless : ℕ → List Check
hopeless zero = []
hopeless (suc n) = unhealthy false ∷ hopeless n

hopeless_last :
    (n : ℕ) (w : ModemWatchdog)
    → watch_all (hopeless (suc n)) w ≡ watch (unhealthy false) (watch_all (hopeless n) w)
unfolding watch_all
hopeless_last zero w = refl
hopeless_last (suc n) w = hopeless_last n (watch (unhealthy false) w)

counts :
    (max_resets n : ℕ)
    → 0 < max_resets
    → ((watch_all (hopeless n) (new_watchdog max_resets)).consecutive_failures ≡ n)
      × ((watch_all (hopeless n) (new_watchdog max_resets)).resets ≡ n - (max_resets - 1))
      × ((watch_all (hopeless n) (new_watchdog max_resets)).alerts ≡ n - (max_resets - 1))
      × ((watch_all (hopeless n) (new_watchdog max_resets)).max_resets ≡ max_resets)
unfolding watch
counts max_resets zero p = unfold watch_all in (refl, omega arith, omega arith, refl)
counts max_resets (suc n) p =
    ground (arith, counts max_resets n p, hopeless_last n (new_watchdog max_resets))

-- The watchdog of a modem that stays unhealthy through n checks and whose resets all fail tries a
-- reset at each check from the max_resets-th on, and alerts as often.
pub keeps_resetting :
    (max_resets n : ℕ)
    → 0 < max_resets
    → ((watch_all (hopeless n) (new_watchdog max_resets)).resets ≡ n - (max_resets - 1))
      × ((watch_all (hopeless n) (new_watchdog max_resets)).alerts ≡ n - (max_resets - 1))
keeps_resetting max_resets n p = let c = counts max_resets n p in (c.1, c.2)
