-- ===== src/Cooldown/Active.antt =====
-- providerCooldowns.active: the count of blocked instances.
use serpent_seek.Prelude.{
  ℕ, ◌<◌, String, ◌≡◌, refl, Bool, false, none, some, [], ◌∷◌, Dict, length, lookup, ltb, arith,
  eq_iff, IsUnique, All,
}
use serpent_seek.Cooldown.{Cooldowns, blocked, sweep, active}

-- the entry is in the future
abbrev pub IsLive : ℕ → String × ℕ → Type 0
IsLive now e = now < e.1

sweep-IsLive :
    (now : ℕ) (until fails : Dict ℕ)
    → ((sweep now until fails).0 ≡ length (sweep now until fails).1)
      × All (IsLive now) (sweep now until fails).1
unfolding sweep
sweep-IsLive now [] fails = (refl, tt)
sweep-IsLive now ((k, t) ∷ until) fails = ground (arith, sweep-IsLive now until fails)

-- what a map keeps of an entry that may have expired
abbrev pub live_at : ℕ → Dict ℕ → String → Bool
live_at now until key = elim (lookup key until) [ none ↦ false | some t ↦ ltb now t ]

sweep-live_at :
    (now : ℕ) (until fails : Dict ℕ) (key : String)
    → IsUnique until
    → live_at now (sweep now until fails).1 key ≡ live_at now until key
unfolding sweep lookup
sweep-live_at now [] fails key h = refl
sweep-live_at now ((k, t) ∷ until) fails key (fresh, h) =
    ground
      (arith, sweep-live_at now until fails key h, eq_iff k key, sweep-live_at now until fails k h)

-- For a map, with no key twice: `active` counts the entries that it keeps, each of which is still in the future, and changes for
-- no instance whether it is blocked at that moment.
pub active_lem :
    (now : ℕ) (c : Cooldowns) (key : String)
    → IsUnique c.until
    → ((active now c).0 ≡ length (active now c).1.until)
      × All (IsLive now) (active now c).1.until
      × ((blocked key now (active now c).1).0 ≡ (blocked key now c).0)
unfolding active blocked
active_lem now c key unique =
    let (counted, live) = sweep-IsLive now c.until c.fails in
    (counted, live, ground (arith, sweep-live_at now c.until c.fails key unique))
