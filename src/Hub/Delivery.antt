-- ===== src/Hub/Delivery.antt =====
-- The subscribers of internal/sse/hub.go and their channels: sending, closing, leaving.
use mathlib.Core.Path.{subst}
use serpent_seek.Prelude.{
  ℕ, String, ◌≡◌, refl, ap, sym, ◌∙◌, inl, inr, Bool, true, false, not, none, some, List, [], ◌∷◌,
  ◌++◌, Dict, lookup, length, get_elem?, set, ltb, eqb, In, if◌then◌else◌, arith, Bool-cases,
  Option-cases, In-append, get_elem?-set, lt_of_get_elem?, List-cases, or_else,
}
use serpent_seek.Hub.{
  Event, Channel, Hub, subscribers_of, send, deliver, delivered, close_channel, close_set,
  close_sets, close,
}

-- no subscriber stands twice
abbrev pub IsDistinct : List ℕ → Type 0
IsDistinct [] = Unit
IsDistinct (i ∷ is) = ¬ In i is × IsDistinct is

-- the subscribers of all keys
abbrev pub all_subscribers : Dict (List ℕ) → List ℕ
all_subscribers [] = []
all_subscribers ((key, own) ∷ subs) = own ++ all_subscribers subs

abbrev pub is_open : List Channel → ℕ → Bool
is_open channels i = elim (get_elem? channels i) [ none ↦ false | some c ↦ not c.is_closed ]

abbrev pub is_shut : List Channel → ℕ → Bool
is_shut channels i = elim (get_elem? channels i) [ none ↦ false | some c ↦ c.is_closed ]

-- what keeps a hub from sending on a closed channel and from closing one twice
pub record IsLive (h : Hub) : Type 0 where
  pub distinct : IsDistinct (all_subscribers h.subs)
  pub all_open : (i : ℕ) → In i (all_subscribers h.subs) → is_open h.channels i ≡ true

pub In-subscribers_of :
    (i : ℕ) (key : String) (subs : Dict (List ℕ))
    → In i (subscribers_of key subs)
    → In i (all_subscribers subs)
unfolding subscribers_of lookup
In-subscribers_of i key [] h = h
In-subscribers_of i key ((own, is) ∷ subs) h =
    ground (arith, In-subscribers_of i key subs, In-append i is (all_subscribers subs))

-- a channel with another queue or flag at one place
is_open-set :
    (channels : List Channel) (i j : ℕ) (c d : Channel)
    → get_elem? channels i ≡ some c
    → is_open (set channels i d) j ≡ (if eqb j i then not d.is_closed else is_open channels j)
is_open-set channels i j c d h =
    ground (arith, get_elem?-set channels i j d, lt_of_get_elem? channels i c h)

-- Sending on an open channel succeeds, and leaves the same channels open.
send-open :
    (ev : Event) (i : ℕ) (channels : List Channel)
    → is_open channels i ≡ true
    → (after : List Channel) × (send ev i channels ≡ some after)
      × ((j : ℕ) → is_open after j ≡ is_open channels j)
unfolding send
send-open ev i channels h = elim (Option-cases (get_elem? channels i)) [
  | inl missing ↦ absurd (ground (arith, h, missing))
  | inr (c, at_i) ↦
      let unclosed : c.is_closed ≡ false = ground (arith, h, at_i) in
      elim (Bool-cases (ltb (length c.queue) 256)) [
        | inl room ↦ (
          set channels i (record c { queue = c.queue ++ ev ∷ [] }),
          rw (at_i, unclosed, room, send) refl,
          λ j. ground (
            arith,
            at_i,
            unclosed,
            is_open-set channels i j c (record c { queue = c.queue ++ ev ∷ [] }) at_i,
          ),
        )
        | inr full ↦ (channels, rw (at_i, unclosed, full, send) refl, λ j. refl)
      ]
]

deliver-open :
    (ev : Event) (is : List ℕ) (channels : List Channel)
    → ((i : ℕ) → In i is → is_open channels i ≡ true)
    → (after : List Channel) × (deliver ev is channels ≡ some after)
      × ((j : ℕ) → is_open after j ≡ is_open channels j)
unfolding deliver
deliver-open ev [] channels h = (channels, refl, λ j. refl)
deliver-open ev (i ∷ is) channels h =
    let (one, sent, kept) = send-open ev i channels (h i (inl refl)) in
    let (after, rest, same) = deliver-open ev is one (λ j m. kept j ∙ h j (inr m)) in
    (after, rw (sent, deliver) rest, λ j. same j ∙ kept j)

-- Closing an open channel changes no other.
close_channel-open :
    (i : ℕ) (channels : List Channel)
    → is_open channels i ≡ true
    → (after : List Channel) × (close_channel i channels ≡ some after)
      × (is_shut after i ≡ true)
      × ((j : ℕ) → ¬ (j ≡ i) → get_elem? after j ≡ get_elem? channels j)
unfolding close_channel
close_channel-open i channels h = elim (Option-cases (get_elem? channels i)) [
  | inl missing ↦ absurd (ground (arith, h, missing))
  | inr (c, at_i) ↦
      let unclosed : c.is_closed ≡ false = ground (arith, h, at_i) in
      let shut = record c { is_closed = true } in
      (
        set channels i shut,
        rw (at_i, unclosed, close_channel) refl,
        ground (arith, get_elem?-set channels i i shut, lt_of_get_elem? channels i c at_i),
        λ j apart. ground (arith, get_elem?-set channels i j shut, apart),
      )
]

close_set-open :
    (is : List ℕ) (channels : List Channel)
    → IsDistinct is
    → ((i : ℕ) → In i is → is_open channels i ≡ true)
    → (after : List Channel) × (close_set is channels ≡ some after)
      × ((j : ℕ) → In j is → is_shut after j ≡ true)
      × ((j : ℕ) → ¬ In j is → get_elem? after j ≡ get_elem? channels j)
unfolding close_set
close_set-open [] channels d h = (channels, refl, λ j m. absurd m, λ j m. refl)
close_set-open (i ∷ is) channels (fresh, d) h =
    let (one, closed, shut, kept) = close_channel-open i channels (h i (inl refl)) in
    let others : (j : ℕ) → In j is → is_open one j ≡ true =
      λ j m. rw (kept j (λ e. fresh (subst (λ x. In x is) e m)), is_open) (h j (inr m)) in
    let (after, rest, all_shut, same) = close_set-open is one d others in
    (
      after,
      rw (closed, close_set) rest,
      λ j m. elim m [
        | inl here ↦ ap (λ x. is_shut after x) here ∙ rw (same i fresh, is_shut) shut
        | inr later ↦ all_shut j later
      ],
      λ j m. same j (λ n. m (inr n)) ∙ kept j (λ e. m (inl e)),
    )

close_set-append :
    (is js : List ℕ) (channels : List Channel)
    → close_set (is ++ js) channels
      ≡ elim (close_set is channels) [ none ↦ none | some after ↦ close_set js after ]
unfolding close_set
close_set-append [] js channels = refl
close_set-append (i ∷ is) js channels = elim (Option-cases (close_channel i channels)) [
  | inl fails ↦ rw (fails, close_set) refl
  | inr (one, closed) ↦ rw (closed, close_set) (close_set-append is js one)
]

close_sets_lem :
    (subs : Dict (List ℕ)) (channels : List Channel)
    → close_sets subs channels ≡ close_set (all_subscribers subs) channels
unfolding close_sets close_set
close_sets_lem [] channels = refl
close_sets_lem ((key, is) ∷ subs) channels =
    let parts = close_set-append is (all_subscribers subs) channels in
    elim (Option-cases (close_set is channels)) [
      | inl fails ↦ rw (fails, close_sets) (sym (rw fails at parts))
      | inr (one, closed) ↦
          rw (closed, close_sets) (close_sets_lem subs one ∙ sym (rw closed at parts))
    ]

-- A Publish with no other call between its steps never sends on a closed channel, and leaves the
-- hub's subscribers with open channels.
pub delivered-IsLive :
    (key : String) (ev : Event) (h : Hub)
    → IsLive h
    → (channels : List Channel) × (delivered ev (subscribers_of key h.subs) h
        ≡ some (record h { channels = channels }))
      × IsLive (record h { channels = channels })
unfolding delivered
delivered-IsLive key ev h live =
    let subs = subscribers_of key h.subs in
    let (channels, sent, same) =
      deliver-open ev subs h.channels (λ i m. live.all_open i (In-subscribers_of i key h.subs m)) in
    (
      channels,
      rw (sent, delivered) refl,
      record { distinct = live.distinct; all_open = λ i m. same i ∙ live.all_open i m },
    )

-- Close closes the channel of every subscriber, never twice, and leaves none subscribed.
pub close-IsLive :
    (h : Hub)
    → IsLive h
    → (channels : List Channel) × (close h
        ≡ some (record h { closed = true; subs = []; channels = channels }))
      × IsLive (record h { closed = true; subs = []; channels = channels })
      × ((i : ℕ) → In i (all_subscribers h.subs) → is_shut channels i ≡ true)
unfolding close
close-IsLive h live =
    let (channels, closed, shut, same) =
      close_set-open (all_subscribers h.subs) h.channels live.distinct live.all_open in
    (
      channels,
      rw (close_sets_lem h.subs h.channels, closed, close) refl,
      record { distinct = tt; all_open = λ i m. absurd m },
      shut,
    )

deliver-panics :
    (ev : Event) (i : ℕ) (is : List ℕ) (channels : List Channel)
    → is_shut channels i ≡ true
    → deliver ev (i ∷ is) channels ≡ none
unfolding deliver send
deliver-panics ev i is channels shut = elim (Option-cases (get_elem? channels i)) [
  | inl missing ↦ absurd (ground (arith, shut, missing))
  | inr (c, at_i) ↦
      let closed : c.is_closed ≡ true = ground (arith, shut, at_i) in
      rw (at_i, closed, deliver, send) refl
]

-- When a Close runs between the two steps of a Publish, the second step sends on a closed channel and
-- panics, if the key has a subscriber.
pub close_races :
    (key : String) (ev : Event) (i : ℕ) (h shut : Hub)
    → IsLive h
    → In i (subscribers_of key h.subs)
    → close h ≡ some shut
    → delivered ev (subscribers_of key h.subs) shut ≡ none
unfolding delivered
close_races key ev i h shut live m closed =
    let (channels, at, after_live, all_shut) = close-IsLive h live in
    let same : record h { closed = true; subs = []; channels = channels } ≡ shut =
      ap (λ o. or_else o h) (sym at ∙ closed) in
    elim (List-cases (subscribers_of key h.subs)) [
      | inl nobody ↦ absurd (subst (λ x. In i x) nobody m)
      | inr (j, rest, e) ↦
          let first : In j (subscribers_of key h.subs) = subst (λ x. In j x) (sym e) (inl refl) in
          let dead : is_shut shut.channels j ≡ true =
            ap (λ x. is_shut x.channels j) (sym same)
            ∙ all_shut j (In-subscribers_of j key h.subs first) in
          let panics = deliver-panics ev j rest shut.channels dead in rw (e, panics, delivered) refl
    ]
