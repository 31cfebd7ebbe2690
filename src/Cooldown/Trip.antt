-- ===== src/Cooldown/Trip.antt =====
-- providerCooldowns.observe and blocked, over runs of failures and successes.
use serpent_seek.Prelude.{
  ℕ, suc, ◌+◌, ◌≤◌, ◌<◌, ℤ, pos, is_positive, String, ◌≡◌, ◌≢◌, Bool, true, false, none, List, [],
  ◌∷◌, length, lookup, insert, lookup-insert, lookup-delete, or_else, ltb, leb, arith, eq_iff,
}
use serpent_seek.Cooldown.{Cooldowns, clear, blocked, span_of, note_failure, observe}

-- one failed attempt at each of the moments, the first one first
pub fail_all : String → ℤ → ℤ → List ℕ → Cooldowns → Cooldowns
fail_all key threshold cooldown [] c = c
fail_all key threshold cooldown (t ∷ ts) c =
    fail_all key threshold cooldown ts (observe key false threshold cooldown t c).1

pub count-observe :
    (key : String) (t : ℕ) (cooldown : ℤ) (now : ℕ) (c : Cooldowns)
    → key ≢ ""
    → or_else (lookup key c.fails) 0 < t
    → or_else (lookup key (observe key false (pos (suc t)) cooldown now c).1.fails) 0
      ≡ or_else (lookup key c.fails) 0 + 1
unfolding observe note_failure
count-observe key t cooldown now c named low = ground (
  arith,
  eq_iff key "",
  eq_iff key key,
  lookup-insert key key (or_else (lookup key c.fails) 0 + 1) c.fails,
)

count-fail_all :
    (key : String) (t : ℕ) (cooldown : ℤ) (ts : List ℕ) (c : Cooldowns)
    → key ≢ ""
    → or_else (lookup key c.fails) 0 + length ts ≤ t
    → or_else (lookup key (fail_all key (pos (suc t)) cooldown ts c).fails) 0
      ≡ or_else (lookup key c.fails) 0 + length ts
unfolding fail_all
count-fail_all key t cooldown [] c named low = omega arith
count-fail_all key t cooldown (now ∷ ts) c named low =
    let one = count-observe key t cooldown now c named (omega arith) in
    let rest =
      count-fail_all key t cooldown ts (observe key false (pos (suc t)) cooldown now c).1 named
        (omega arith) in
    omega arith

-- For an instance with an identity: from a clear counter, and with the threshold t + 1, a failure after at most t others trips the
-- breaker exactly if it is failure number t + 1.
pub observe_trips :
    (key : String) (t : ℕ) (cooldown : ℤ) (ts : List ℕ) (now : ℕ) (c : Cooldowns)
    → key ≢ ""
    → lookup key c.fails ≡ none
    → length ts ≤ t
    → (observe key false (pos (suc t)) cooldown now (fail_all key (pos (suc t)) cooldown ts c)).0
      ≡ leb (suc t) (length ts + 1)
unfolding observe note_failure
observe_trips key t cooldown ts now c named clear_before few =
    ground (arith, eq_iff key "", count-fail_all key t cooldown ts c)

-- A failure that trips the breaker blocks the instance exactly until the cooldown has passed, and
-- clears its counter.
blocked-observe :
    (key : String) (threshold cooldown : ℤ) (now later : ℕ) (c : Cooldowns)
    → (observe key false threshold cooldown now c).0 ≡ true
    → ((blocked key later (observe key false threshold cooldown now c).1).0
        ≡ ltb later (now + span_of cooldown))
      × (lookup key (observe key false threshold cooldown now c).1.fails ≡ none)
unfolding observe note_failure blocked
blocked-observe key threshold cooldown now later c trips = ground (
  arith,
  lookup-insert key key (now + span_of cooldown) c.until,
  eq_iff key key,
  eq_iff key "",
  lookup-delete key key (insert key (or_else (lookup key c.fails) 0 + 1) c.fails),
)

-- With the breaker on, after a success an instance with an identity is not blocked, and its counter
-- is clear.
pub blocked-observe_success :
    (key : String) (threshold cooldown : ℤ) (now later : ℕ) (c : Cooldowns)
    → key ≢ ""
    → is_positive threshold ≡ true
    → ((blocked key later (observe key true threshold cooldown now c).1).0 ≡ false)
      × (lookup key (observe key true threshold cooldown now c).1.fails ≡ none)
unfolding observe clear blocked
blocked-observe_success key threshold cooldown now later c named on = ground (
  arith,
  eq_iff key "",
  eq_iff key key,
  lookup-delete key key c.until,
  lookup-delete key key c.fails,
)

-- An observation of one instance changes neither the counter nor the block of another.
pub observe_other :
    (key other : String) (ok : Bool) (threshold cooldown : ℤ) (now : ℕ) (c : Cooldowns)
    → key ≢ other
    → (lookup other (observe key ok threshold cooldown now c).1.fails ≡ lookup other c.fails)
      × (lookup other (observe key ok threshold cooldown now c).1.until ≡ lookup other c.until)
unfolding observe note_failure clear
observe_other key other ok threshold cooldown now c apart = ground (
  arith,
  eq_iff key other,
  lookup-delete key other c.until,
  lookup-delete key other c.fails,
  lookup-insert key other (or_else (lookup key c.fails) 0 + 1) c.fails,
  lookup-insert key other (now + span_of cooldown) c.until,
  lookup-delete key other (insert key (or_else (lookup key c.fails) 0 + 1) c.fails),
)
