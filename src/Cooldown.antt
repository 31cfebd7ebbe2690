-- ===== src/Cooldown.antt =====
-- internal/engine/cooldown.go: the circuit breaker of provider instances. A moment is a number of
-- nanoseconds; the mutex makes each method one step.
pub mod Trip
pub mod Active
mod Tests
use serpent_seek.Prelude.{
  ℕ, ◌+◌, ℤ, is_positive, to_ℕ, String, Bool, true, false, not, ◌||◌, none, some, [], ◌∷◌, Dict,
  lookup, insert, delete, or_else, ltb, leb, ◌==◌, if◌then◌else◌,
}

pub record Cooldowns : Type 0 where
  pub fails : Dict ℕ
  pub until : Dict ℕ

abbrev pub new_cooldowns : Cooldowns
new_cooldowns = record { fails = []; until = [] }

abbrev pub minute : ℕ
minute = 60_000_000_000

-- delete(c.until, key); delete(c.fails, key)
unfoldable pub clear : String → Cooldowns → Cooldowns
clear key c = record { fails = delete key c.fails; until = delete key c.until }

-- An expired entry is dropped by the test itself.
unfoldable pub blocked : String → ℕ → Cooldowns → Bool × Cooldowns
blocked key now c = if key == "" then (false, c) else elim (lookup key c.until) [
  | none ↦ (false, c)
  | some t ↦ if ltb now t then (true, c) else (false, clear key c)
]

unfoldable pub span_of : ℤ → ℕ
span_of cooldown = if is_positive cooldown then to_ℕ cooldown else minute

unfoldable pub note_failure : String → ℕ → ℕ → ℕ → Cooldowns → Bool × Cooldowns
note_failure key threshold span now c =
    let n = or_else (lookup key c.fails) 0 + 1 in
    let fails = insert key n c.fails in
    if leb threshold n
    then (true, record { fails = delete key fails; until = insert key (now + span) c.until })
    else (false, record c { fails = fails })

unfoldable pub observe : String → Bool → ℤ → ℤ → ℕ → Cooldowns → Bool × Cooldowns
observe key ok threshold cooldown now c =
    if key == "" || not (is_positive threshold)
    then (false, c)
    else if ok
    then (false, clear key c)
    else note_failure key (to_ℕ threshold) (span_of cooldown) now c

-- the loop of `active` over the entries of `until`
unfoldable pub sweep : ℕ → Dict ℕ → Dict ℕ → ℕ × Dict ℕ × Dict ℕ
sweep now [] fails = (0, [], fails)
sweep now ((k, t) ∷ until) fails =
    let (n, kept, left) = sweep now until fails in
    if ltb now t then (n + 1, (k, t) ∷ kept, left) else (n, kept, delete k left)

unfoldable pub active : ℕ → Cooldowns → ℕ × Cooldowns
active now c =
    let (n, kept, left) = sweep now c.until c.fails in (n, record { fails = left; until = kept })
