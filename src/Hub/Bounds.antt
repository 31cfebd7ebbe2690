-- ===== src/Hub/Bounds.antt =====
-- The replay buffers of internal/sse/hub.go: their sizes and the order of their keys.
use serpent_seek.Prelude.{
  ℕ, ◌-◌, ◌≤◌, String, ◌≡◌, refl, ◌∙◌, ◌⊎◌, inl, inr, none, List, [], ◌∷◌, ◌++◌, Dict, lookup,
  insert, delete, length, ltb, In, ◌==◌, arith, lookup-insert, lookup-delete, eq_iff, Bool-cases,
  Option-cases, length-drop, In-append,
}
use serpent_seek.Hub.{Event, Hub, new_hub, buffer_of, trim_buffer, evict, noted, appended, buffered}
use serpent_seek.Hub.Replay.{length-evict, buffer_of-insert}

-- every key with a buffer stands in the order
abbrev pub Listed : List String → Dict (List Event) → Type 0
Listed order buffers = (k : String) → (lookup k buffers ≡ none) ⊎ In k order

pub record IsBounded (h : Hub) : Type 0 where
  pub few_keys : length h.order ≤ h.max_keys
  pub listed : Listed h.order h.buffers
  pub short : (k : String) → length (buffer_of k h.buffers) ≤ h.max_buf

delete-Listed :
    (oldest : String) (order : List String) (buffers : Dict (List Event))
    → Listed (oldest ∷ order) buffers
    → Listed order (delete oldest buffers)
delete-Listed oldest order buffers h k = elim (Bool-cases (oldest == k)) [
  | inl at_k ↦ inl (lookup-delete oldest k buffers ∙ (simp at_k))
  | inr apart ↦ elim (h k) [
    | inl absent ↦ inl (lookup-delete oldest k buffers ∙ (simp apart) ∙ absent)
    | inr (inl here) ↦ absurd (ground (arith, apart, here, eq_iff oldest k))
    | inr (inr later) ↦ inr later
  ]
]

evict-Listed :
    (max : ℕ) (order : List String) (buffers : Dict (List Event))
    → Listed order buffers
    → Listed (evict max order buffers).0 (evict max order buffers).1
unfolding evict
evict-Listed max [] buffers h = h
evict-Listed max (k ∷ order) buffers h =
    let rest = evict-Listed max order (delete k buffers) (delete-Listed k order buffers h) in
    elim (Bool-cases (ltb max (length (k ∷ order)))) [
      | inl over ↦ rw over rest
      | inr within ↦ rw within h
    ]

-- the eviction removes buffers and changes none
lookup-evict :
    (max : ℕ) (k : String) (order : List String) (buffers : Dict (List Event))
    → (lookup k (evict max order buffers).1 ≡ none)
      ⊎ (lookup k (evict max order buffers).1 ≡ lookup k buffers)
unfolding evict
lookup-evict max k [] buffers = inr refl
lookup-evict max k (oldest ∷ order) buffers =
    let rest = lookup-evict max k order (delete oldest buffers) in
    ground (arith, rest, lookup-delete oldest k buffers)

noted-Listed :
    (key : String) (events : List Event) (order : List String) (buffers : Dict (List Event))
    → Listed order buffers
    → Listed (noted key buffers order) (insert key events buffers)
unfolding noted
noted-Listed key events order buffers h k = elim (Option-cases (lookup key buffers)) [
  | inl new ↦
      rw (new, noted)
        (ground (
          arith,
          h k,
          lookup-insert key k events buffers,
          eq_iff key k,
          In-append k order (key ∷ []),
        ))
  | inr (past, known) ↦
      rw (known, noted)
        (ground (arith, known, h k, lookup-insert key k events buffers, eq_iff key k))
]

length-trim_buffer-le : (max : ℕ) (events : List Event) → length (trim_buffer max events) ≤ max
unfolding trim_buffer
length-trim_buffer-le max events = ground (arith, length-drop (length events - max) events)

short_evicted :
    (max bound : ℕ) (k : String) (order : List String) (buffers : Dict (List Event))
    → length (buffer_of k buffers) ≤ bound
    → length (buffer_of k (evict max order buffers).1) ≤ bound
unfolding buffer_of
short_evicted max bound k order buffers h = ground (arith, lookup-evict max k order buffers)

-- The locked part of Publish leaves at most maxKeys buffers, each in the order of the keys and with at
-- most maxBuf events, if the hub was so before.
pub buffered-IsBounded :
    (key : String) (ev : Event) (h : Hub) → IsBounded h → IsBounded (buffered key ev h)
unfolding buffered appended
buffered-IsBounded key ev h b =
    let all = noted key h.buffers h.order in
    let size = length-evict h.max_keys all (appended key ev h) in
    let new = trim_buffer h.max_buf (buffer_of key h.buffers ++ ev ∷ []) in
    record {
      few_keys = ground (arith, size);
      listed =
          evict-Listed h.max_keys all (appended key ev h)
            (noted-Listed key new h.order h.buffers b.listed);
      short = λ k.
          let at = b.short k in
          short_evicted h.max_keys h.max_buf k all (appended key ev h) (
            ground (
              arith,
              buffer_of-insert key k new h.buffers,
              length-trim_buffer-le h.max_buf (buffer_of key h.buffers ++ ev ∷ []),
            ));
    }

pub new-IsBounded : IsBounded new_hub
unfolding buffer_of lookup
new-IsBounded = record { few_keys = omega arith; listed = λ k. inl refl; short = λ k. omega arith }
