-- ===== src/Hub/Replay.antt =====
-- Publish and Subscribe of internal/sse/hub.go against the log of all published events.
use serpent_seek.Prelude.{
  ℕ, zero, suc, ◌+◌, ◌-◌, ◌≤◌, ◌<◌, ℤ, pos, negsuc, String, ◌≡◌, refl, ap, sym, ◌∙◌, inl, inr, true,
  List, [], ◌∷◌, ◌++◌, Dict, lookup, insert, delete, keep, drop, length, ltb, ◌==◌, if◌then◌else◌,
  arith, lookup-insert, eq_of_test, Bool-cases, Option-cases, length-append, length-drop,
}
use serpent_seek.Hub.{
  Event, Hub, new_hub, buffer_of, is_newer, subscribe, trim_buffer, evict, noted, next_event,
  appended, buffered,
}

-- the published events of each key, the oldest first
abbrev pub Log : Type 0
Log = String → List Event

abbrev pub log_event : String → Event → Log → Log
log_event key ev log k = if key == k then log k ++ ev ∷ [] else log k

-- the last `max` elements
abbrev pub last_events : ℕ → List Event → List Event
last_events max events = drop (length events - max) events

-- the ids grow, from above `low` up to `high`
abbrev pub Grows : ℕ → ℕ → List Event → Type 0
Grows low high [] = low ≤ high
Grows low high (e ∷ events) = (low < e.id) × Grows e.id high events

trim_buffer_lem : (max : ℕ) (events : List Event) → trim_buffer max events ≡ last_events max events
unfolding trim_buffer
trim_buffer_lem max events = elim (Bool-cases (ltb max (length events))) [
  | inl over ↦ simp over
  | inr within ↦
      let none_over : length events - max ≡ 0 = ground (arith, within) in
      rw (within, none_over, trim_buffer) refl
]

drop_add : (n : ℕ) (xs ys : List Event) → n ≤ length xs → drop n (xs ++ ys) ≡ drop n xs ++ ys
drop_add zero xs ys h = refl
drop_add (suc n) [] ys h = absurd (omega arith)
drop_add (suc n) (x ∷ xs) ys h = drop_add n xs ys (omega arith)

drop_empty : (n : ℕ) → drop {A = Event} n [] ≡ []
drop_empty zero = refl
drop_empty (suc n) = refl

drop-drop : (m n : ℕ) (xs : List Event) → drop m (drop n xs) ≡ drop (n + m) xs
drop-drop m zero xs = ap (λ x. drop x xs) (omega arith)
drop-drop m (suc n) [] = drop_empty m ∙ sym (drop_empty (suc n + m))
drop-drop m (suc n) (x ∷ xs) =
    drop-drop m n xs ∙ ap (λ i. drop i (x ∷ xs)) {x = suc (n + m)} {y = suc n + m} (omega arith)

-- trimming before an event is added loses nothing that the trimming after it keeps
last_events-append :
    (max : ℕ) (events : List Event) (e : Event)
    → last_events max (last_events max events ++ e ∷ []) ≡ last_events max (events ++ e ∷ [])
last_events-append max events e =
    let n = length events - max in
    let le : n ≤ length events = omega arith in
    let whole : last_events max events ++ e ∷ [] ≡ drop n (events ++ e ∷ []) =
      sym (drop_add n events (e ∷ []) le) in
    let size : n + (length (drop n (events ++ e ∷ [])) - max) ≡ length (events ++ e ∷ []) - max =
      omega (arith, length-drop n (events ++ e ∷ []), length-append events (e ∷ [])) in
    ap (λ x. last_events max x) whole
    ∙ drop-drop (length (drop n (events ++ e ∷ [])) - max) n (events ++ e ∷ [])
    ∙ ap (λ x. drop x (events ++ e ∷ [])) size

Grows-raise :
    (low high high' : ℕ) (events : List Event)
    → high ≤ high'
    → Grows low high events
    → Grows low high' events
Grows-raise low high high' [] h g = omega arith
Grows-raise low high high' (e ∷ events) h (a, g) = (a, Grows-raise e.id high high' events h g)

Grows-append :
    (low high : ℕ) (events : List Event) (e : Event)
    → high < e.id
    → Grows low high events
    → Grows low e.id (events ++ e ∷ [])
Grows-append low high [] e h g = (omega arith, omega arith)
Grows-append low high (d ∷ events) e h (a, g) = (a, Grows-append d.id high events e h g)

-- from an event that is newer than `last_id` on, all are
keep_all :
    (last_id : ℤ) (low high : ℕ) (e : Event) (events : List Event)
    → is_newer last_id e ≡ true
    → Grows e.id high events
    → keep (is_newer last_id) events ≡ events
unfolding is_newer
keep_all last_id low high e [] n g = refl
keep_all (negsuc z) low high e (d ∷ events) n (a, g) =
    ap (λ x. d ∷ x) (keep_all (negsuc z) low high d events refl g)
keep_all (pos z) low high e (d ∷ events) n (a, g) =
    let newer : ltb z d.id ≡ true = ground (arith, n, a) in
    rw newer (ap (λ x. d ∷ x) (keep_all (pos z) low high d events newer g))

-- the last events hold every newer one, when there are not more of them
keep-last :
    (last_id : ℤ) (max low high : ℕ) (events : List Event)
    → Grows low high events
    → length (keep (is_newer last_id) events) ≤ max
    → keep (is_newer last_id) (last_events max events) ≡ keep (is_newer last_id) events
keep-last last_id max low high [] g few = ap (λ x. keep (is_newer last_id) x) (drop_empty (0 - max))
keep-last last_id max low high (e ∷ events) (a, g) few =
    elim (Bool-cases (ltb max (suc (length events)))) [
      | inl over ↦
          let size : suc (length events) - max ≡ suc (length events - max) = ground (arith, over) in
          elim (Bool-cases (is_newer last_id e)) [
            | inl newer ↦
                let all = keep_all last_id low high e events newer g in
                absurd (ground (arith, over, newer, few, ap (λ x. length x) all))
            | inr old ↦
                let fewer : length (keep (is_newer last_id) events) ≤ max =
                  ground (arith, old, few) in
                rw (size, old) (keep-last last_id max e.id high events g fewer)
          ]
      | inr within ↦
          let size : suc (length events) - max ≡ 0 = ground (arith, within) in rw size refl
    ]

evict-few :
    (max : ℕ) (order : List String) (buffers : Dict (List Event))
    → length order ≤ max
    → evict max order buffers ≡ (order, buffers)
unfolding evict
evict-few max [] buffers h = refl
evict-few max (k ∷ order) buffers h = ground (arith, h)

pub length-evict :
    (max : ℕ) (order : List String) (buffers : Dict (List Event))
    → length (evict max order buffers).0 ≡ (if ltb max (length order) then max else length order)
unfolding evict
length-evict max [] buffers = ground arith
length-evict max (k ∷ order) buffers = ground (arith, length-evict max order (delete k buffers))

length-noted-le :
    (key : String) (buffers : Dict (List Event)) (order : List String)
    → length order ≤ length (noted key buffers order)
unfolding noted
length-noted-le key buffers order = elim (Option-cases (lookup key buffers)) [
  | inl new ↦ rw (new, noted) (omega (arith, length-append order (key ∷ [])))
  | inr (events, known) ↦ rw (known, noted) (omega arith)
]

pub buffer_of-insert :
    (key k : String) (events : List Event) (buffers : Dict (List Event))
    → buffer_of k (insert key events buffers) ≡ (if key == k then events else buffer_of k buffers)
unfolding buffer_of
buffer_of-insert key k events buffers = ground (arith, lookup-insert key k events buffers)

-- The hub follows a log: the ids of a key's events grow, and the buffers hold the last events of every
-- key, until there are as many keys as the hub may hold.
pub record Follows (h : Hub) (log : Log) : Type 0 where
  pub grows : (k : String) → Grows 0 h.seq (log k)
  pub whole :
      length h.order < h.max_keys
      → (k : String) → buffer_of k h.buffers ≡ last_events h.max_buf (log k)

-- the order was as short before an event was added, and nothing was evicted
order_before :
    (key : String) (ev : Event) (h : Hub)
    → length (buffered key ev h).order < h.max_keys
    → (length h.order < h.max_keys) × ((buffered key ev h).buffers ≡ appended key ev h)
unfolding buffered
order_before key ev h short =
    let all = noted key h.buffers h.order in
    let size = length-evict h.max_keys all (appended key ev h) in
    let few : length all < h.max_keys = ground (arith, short, size) in
    (
      omega (arith, length-noted-le key h.buffers h.order),
      ap (λ x. x.1) (evict-few h.max_keys all (appended key ev h) (omega arith)),
    )

appended-buffer_of :
    (key : String) (ev : Event) (h : Hub) (log : Log)
    → ((k : String) → buffer_of k h.buffers ≡ last_events h.max_buf (log k))
    → (k : String)
    → buffer_of k (appended key ev h) ≡ last_events h.max_buf (log_event key ev log k)
unfolding appended
appended-buffer_of key ev h log same k = elim (Bool-cases (key == k)) [
  | inl at_k ↦
      buffer_of-insert key k (trim_buffer h.max_buf (buffer_of key h.buffers ++ ev ∷ [])) h.buffers
      ∙ (simp at_k)
      ∙ trim_buffer_lem h.max_buf (buffer_of key h.buffers ++ ev ∷ [])
      ∙ ap (λ x. last_events h.max_buf (x ++ ev ∷ [])) (same key)
      ∙ last_events-append h.max_buf (log key) ev
      ∙ ap (λ x. last_events h.max_buf (log x ++ ev ∷ [])) (eq_of_test key k at_k)
      ∙ sym (rw at_k refl)
  | inr apart ↦
      buffer_of-insert key k (trim_buffer h.max_buf (buffer_of key h.buffers ++ ev ∷ [])) h.buffers
      ∙ (simp apart)
      ∙ same k
      ∙ sym (rw apart refl)
]

-- Publishing an event with the next id keeps the agreement of the hub with the log, to which the event
-- is added.
pub buffered-Follows :
    (key event_type payload : String) (h : Hub) (log : Log)
    → Follows h log
    → Follows
        (buffered key (next_event event_type payload h) h)
        (log_event key (next_event event_type payload h) log)
unfolding next_event buffered
buffered-Follows key event_type payload h log v =
    let ev = next_event event_type payload h in
    record {
      grows = λ k. elim (Bool-cases (key == k)) [
        | inl at_k ↦ rw at_k (Grows-append 0 h.seq (log k) ev (omega arith) (v.grows k))
        | inr apart ↦ rw apart (Grows-raise 0 h.seq (suc h.seq) (log k) (omega arith) (v.grows k))
      ];
      whole = λ short k.
          let (before, kept) = order_before key ev h short in
          ap (λ x. buffer_of k x) kept ∙ appended-buffer_of key ev h log (v.whole before) k;
    }

pub new-Follows : Follows new_hub (λ _. [])
unfolding buffer_of lookup
new-Follows = record { grows = λ k. omega arith; whole = λ short k. refl }

-- A subscriber that comes back with the id of the last event it has seen gets every event of the key
-- that the log has after it, in order, if those are at most as many as a buffer holds, while the hub
-- follows the log and has fewer keys than it may hold.
pub subscribe_replays :
    (key : String) (last_id : ℤ) (h : Hub) (log : Log)
    → Follows h log
    → length h.order < h.max_keys
    → length (keep (is_newer last_id) (log key)) ≤ h.max_buf
    → (subscribe key last_id h).1 ≡ keep (is_newer last_id) (log key)
unfolding subscribe
subscribe_replays key last_id h log v short few =
    ap (λ x. keep (is_newer last_id) x) (v.whole short key)
    ∙ keep-last last_id h.max_buf 0 h.seq (log key) (v.grows key) few
