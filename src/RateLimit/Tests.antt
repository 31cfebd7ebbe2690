-- ===== src/RateLimit/Tests.antt =====
-- Runs of the limiter: two events in a window of one hundred.
use serpent_seek.Prelude.{pos, ◌≡◌, [], arith}
use serpent_seek.RateLimit.{new_rate_limiter, window_of, allow_limit}
use serpent_seek.RateLimit.Log.{Log, is_allowed, log_step}
use serpent_seek.RateLimit.Refines.{Agrees, allow_limit-refines, new-Agrees}

abbrev empty_log : Log
empty_log k = []

allow_limit-refines_example :
    ((allow_limit "ip" (pos 2) (pos 100) 50 (new_rate_limiter (pos 2) (pos 100) 10)).0
      ≡ is_allowed "ip" 2 (window_of (pos 100)) 50 empty_log)
    × Agrees
        (window_of (pos 100))
        50
        (allow_limit "ip" (pos 2) (pos 100) 50 (new_rate_limiter (pos 2) (pos 100) 10)).1
        (log_step "ip" 2 (window_of (pos 100)) 50 empty_log)
allow_limit-refines_example =
    allow_limit-refines "ip" 1 (pos 100) 10 50 (new_rate_limiter (pos 2) (pos 100) 10) empty_log
      (omega arith) (new-Agrees (pos 2) (pos 100) (window_of (pos 100)) 10)
