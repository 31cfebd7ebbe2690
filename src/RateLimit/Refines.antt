-- ===== src/RateLimit/Refines.antt =====
-- AllowLimit of internal/auth/ratelimit.go, against the log of allowed events.
use serpent_seek.Prelude.{
  ℕ, suc, ◌+◌, ◌≤◌, ℤ, pos, String, ◌≡◌, refl, inl, inr, true, false, none, List, [], ◌∷◌, ◌++◌,
  Dict, lookup, insert, length, leb, ◌==◌, if◌then◌else◌, arith, lookup-insert, insert-IsUnique,
  IsUnique, eq_iff, eq_of_test, eq_self, Bool-cases, ap, sym, ◌∙◌,
}
use serpent_seek.RateLimit.{
  RateLimiter, recent, hits_of, sweep, swept, window_of, decide, allow_limit, new_rate_limiter,
}
use serpent_seek.RateLimit.Log.{Log, log_event, is_allowed, log_step}

-- what has left the window by now has left it later too
recent-recent :
    (window now later : ℕ) (ts : List ℕ)
    → now ≤ later
    → recent window later (recent window now ts) ≡ recent window later ts
unfolding recent
recent-recent window now later [] h = refl
recent-recent window now later (t ∷ ts) h = ground (arith, recent-recent window now later ts h)

recent-append :
    (window later : ℕ) (xs ys : List ℕ)
    → recent window later (xs ++ ys) ≡ recent window later xs ++ recent window later ys
unfolding recent
recent-append window later [] ys = refl
recent-append window later (x ∷ xs) ys = ground (arith, recent-append window later xs ys)

lookup-sweep :
    (window now : ℕ) (key : String) (hits : Dict (List ℕ))
    → IsUnique hits
    → hits_of key (sweep window now hits) ≡ recent window now (hits_of key hits)
unfolding sweep hits_of recent lookup
lookup-sweep window now key [] u = refl
lookup-sweep window now key ((k, ts) ∷ hits) (fresh, u) =
    ground
      (arith, lookup-sweep window now key hits u, lookup-sweep window now k hits u, eq_iff k key)

lookup-sweep-none :
    (window now : ℕ) (key : String) (hits : Dict (List ℕ))
    → lookup key hits ≡ none
    → lookup key (sweep window now hits) ≡ none
unfolding sweep lookup
lookup-sweep-none window now key [] h = refl
lookup-sweep-none window now key ((k, ts) ∷ hits) h =
    ground (arith, lookup-sweep-none window now key hits)

sweep-IsUnique :
    (window now : ℕ) (hits : Dict (List ℕ)) → IsUnique hits → IsUnique (sweep window now hits)
unfolding sweep lookup
sweep-IsUnique window now [] u = tt
sweep-IsUnique window now ((k, ts) ∷ hits) (fresh, u) =
    ground (arith, sweep-IsUnique window now hits u, lookup-sweep-none window now k hits fresh)

-- The limiter agrees with a log at a moment: from then on, both hold the same recent events.
pub record Agrees (window now : ℕ) (l : RateLimiter) (log : Log) : Type 0 where
  pub unique : IsUnique l.hits
  pub same :
      (k : String) (later : ℕ)
      → now ≤ later
      → recent window later (hits_of k l.hits) ≡ recent window later (log k)

swept-Agrees :
    (window now now' : ℕ) (l : RateLimiter) (log : Log)
    → now ≤ now'
    → Agrees window now l log
    → Agrees window now' (swept window now' l) log
unfolding swept
swept-Agrees window now now' l log h v = elim (Bool-cases (leb (l.last_sweep + window) now')) [
  | inl due ↦
      rw (due, swept)
        (record {
          unique = sweep-IsUnique window now' l.hits v.unique;
          same = λ k later after.
              ap (λ x. recent window later x) (lookup-sweep window now' k l.hits v.unique)
              ∙ recent-recent window now' later (hits_of k l.hits) after
              ∙ v.same k later (omega arith);
        })
  | inr early ↦
      rw (early, swept)
        (record { unique = v.unique; same = λ k later after. v.same k later (omega arith) })
]

hits_of-insert :
    (key k : String) (ts : List ℕ) (hits : Dict (List ℕ))
    → hits_of k (insert key ts hits) ≡ (if key == k then ts else hits_of k hits)
unfolding hits_of
hits_of-insert key k ts hits = ground (arith, lookup-insert key k ts hits)

-- the entry of one key is replaced by times that the window cannot tell from those of a log
put-Agrees :
    (key : String) (ts : List ℕ) (window now : ℕ) (l : RateLimiter) (log log' : Log)
    → Agrees window now l log
    → ((later : ℕ) → now ≤ later → recent window later ts ≡ recent window later (log' key))
    → ((k : String) → (key == k) ≡ false → log' k ≡ log k)
    → Agrees window now (record l { hits = insert key ts l.hits }) log'
put-Agrees key ts window now l log log' v here others = record {
  unique = insert-IsUnique key ts l.hits v.unique;
  same = λ k later after. elim (Bool-cases (key == k)) [
    | inl at_k ↦
        ap (λ x. recent window later x) (hits_of-insert key k ts l.hits ∙ simp at_k)
        ∙ here later after
        ∙ ap (λ x. recent window later (log' x)) (eq_of_test key k at_k)
    | inr apart ↦
        ap (λ x. recent window later x) (hits_of-insert key k ts l.hits ∙ simp apart)
        ∙ v.same k later after
        ∙ ap (λ x. recent window later x) (sym (others k apart))
  ];
}

log_event_self :
    (key : String) (now : ℕ) (log : Log) → log_event key now log key ≡ log key ++ now ∷ []
log_event_self key now log = simp (eq_self key)

-- One decision: the limiter answers as the log does, and agrees with it afterwards.
decide-refines :
    (key : String) (limit window now : ℕ) (l : RateLimiter) (log : Log)
    → Agrees window now l log
    → ((decide key limit window now l).0 ≡ is_allowed key limit window now log)
      × Agrees window now (decide key limit window now l).1 (log_step key limit window now log)
unfolding decide
decide-refines key limit window now l log v =
    let kept = recent window now (hits_of key l.hits) in
    let same_now : kept ≡ recent window now (log key) = v.same key now (omega arith) in
    let kept_later : (later : ℕ)
        → now ≤ later
        → recent window later kept ≡ recent window later (log key) =
      λ later after.
        recent-recent window now later (hits_of key l.hits) after ∙ v.same key later after in
    elim (Bool-cases (leb limit (length kept))) [
      | inl full ↦
          let no : is_allowed key limit window now log ≡ false =
            ground (arith, full, ap (λ ts. length ts) same_now) in
          rw (full, no, decide)
            (refl, put-Agrees key kept window now l log log v kept_later (λ k apart. refl))
      | inr room ↦
          let yes : is_allowed key limit window now log ≡ true =
            ground (arith, room, ap (λ ts. length ts) same_now) in
          let appended : (later : ℕ)
              → now ≤ later
              → recent window later (kept ++ now ∷ [])
                ≡ recent window later (log_event key now log key) =
            λ later after.
              recent-append window later kept (now ∷ [])
              ∙ ap (λ x. x ++ recent window later (now ∷ [])) (kept_later later after)
              ∙ sym (recent-append window later (log key) (now ∷ []))
              ∙ ap (λ x. recent window later x) (sym (log_event_self key now log)) in
          rw (room, yes, decide)
            (
              refl,
              put-Agrees key (kept ++ now ∷ []) window now l log (log_event key now log) v appended
                  (λ k apart. simp apart),
            )
    ]

-- For a positive limit and at a moment that is not before the last one, AllowLimit answers as the log
-- of all allowed events does, which allows an event if fewer than the limit are still in the window,
-- and afterwards the limiter agrees with the log to which an allowed event is added.
pub allow_limit-refines :
    (key : String) (limit : ℕ) (window : ℤ) (now now' : ℕ) (l : RateLimiter) (log : Log)
    → now ≤ now'
    → Agrees (window_of window) now l log
    → ((allow_limit key (pos (suc limit)) window now' l).0
        ≡ is_allowed key (suc limit) (window_of window) now' log)
      × Agrees
          (window_of window)
          now'
          (allow_limit key (pos (suc limit)) window now' l).1
          (log_step key (suc limit) (window_of window) now' log)
unfolding allow_limit
allow_limit-refines key limit window now now' l log h v =
    decide-refines key (suc limit) (window_of window) now' (swept (window_of window) now' l) log
      (swept-Agrees (window_of window) now now' l log h v)

-- A new limiter agrees with the empty log.
pub new-Agrees :
    (limit window : ℤ) (span now : ℕ)
    → Agrees span now (new_rate_limiter limit window now) (λ _. [])
unfolding new_rate_limiter hits_of lookup
new-Agrees limit window span now = record { unique = tt; same = λ k later after. refl }
