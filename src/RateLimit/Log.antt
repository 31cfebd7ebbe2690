-- ===== src/RateLimit/Log.antt =====
-- The specification of AllowLimit: a limiter that keeps the log of all allowed events.
use serpent_seek.Prelude.{ℕ, String, Bool, List, [], ◌∷◌, ◌++◌, length, ltb, ◌==◌, if◌then◌else◌}
use serpent_seek.RateLimit.{recent}

-- the allowed events of each key, the oldest first
abbrev pub Log : Type 0
Log = String → List ℕ

abbrev pub log_event : String → ℕ → Log → Log
log_event key now log k = if key == k then log k ++ now ∷ [] else log k

abbrev pub is_allowed : String → ℕ → ℕ → ℕ → Log → Bool
is_allowed key limit window now log = ltb (length (recent window now (log key))) limit

abbrev pub log_step : String → ℕ → ℕ → ℕ → Log → Log
log_step key limit window now log =
    if is_allowed key limit window now log then log_event key now log else log
