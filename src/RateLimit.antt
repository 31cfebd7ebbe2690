-- ===== src/RateLimit.antt =====
-- internal/auth/ratelimit.go: the limiter of requests by key. A moment is a number of nanoseconds;
-- `t.After(now - window)` is written without the subtraction. The mutex makes each call one step.
pub mod Log
pub mod Refines
mod Tests
use serpent_seek.Prelude.{
  ℕ, ◌+◌, ℤ, is_positive, to_ℕ, String, Bool, true, false, List, [], ◌∷◌, ◌++◌, Dict, lookup,
  insert, or_else, keep, length, ltb, leb, if◌then◌else◌,
}

pub record RateLimiter : Type 0 where
  pub hits : Dict (List ℕ)
  pub limit : ℤ
  pub window : ℤ
  pub last_sweep : ℕ

unfoldable pub new_rate_limiter : ℤ → ℤ → ℕ → RateLimiter
new_rate_limiter limit window now = record {
  hits = [];
  limit = limit;
  window = window;
  last_sweep = now;
}

abbrev pub minute : ℕ
minute = 60_000_000_000

-- the times of the list that the window, which ends now, still holds
unfoldable pub recent : ℕ → ℕ → List ℕ → List ℕ
recent window now = keep (λ t. ltb now (t + window))

unfoldable pub hits_of : String → Dict (List ℕ) → List ℕ
hits_of key hits = or_else (lookup key hits) []

unfoldable pub sweep : ℕ → ℕ → Dict (List ℕ) → Dict (List ℕ)
sweep window now [] = []
sweep window now ((k, times) ∷ hits) =
    let rest = sweep window now hits in
    elim (recent window now times) [ [] ↦ rest | t ∷ ts ↦ (k, t ∷ ts) ∷ rest ]

-- the hits after the periodic sweep
unfoldable pub swept : ℕ → ℕ → RateLimiter → RateLimiter
swept window now l =
    if leb (l.last_sweep + window) now
    then record l { hits = sweep window now l.hits; last_sweep = now }
    else l

unfoldable pub window_of : ℤ → ℕ
window_of window = if is_positive window then to_ℕ window else minute

unfoldable pub decide : String → ℕ → ℕ → ℕ → RateLimiter → Bool × RateLimiter
decide key limit window now l =
    let kept = recent window now (hits_of key l.hits) in
    if leb limit (length kept)
    then (false, record l { hits = insert key kept l.hits })
    else (true, record l { hits = insert key (kept ++ now ∷ []) l.hits })

-- AllowLimit
unfoldable pub allow_limit : String → ℤ → ℤ → ℕ → RateLimiter → Bool × RateLimiter
allow_limit key limit window now l =
    if is_positive limit
    then decide key (to_ℕ limit) (window_of window) now (swept (window_of window) now l)
    else (true, l)

-- Allow
unfoldable pub allow : String → ℕ → RateLimiter → Bool × RateLimiter
unfolding allow_limit
allow key now l = allow_limit key l.limit l.window now l
