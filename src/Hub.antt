-- ===== src/Hub.antt =====
-- internal/sse/hub.go: the hub of Server-Sent Events. The mutex makes each locked section one step; a
-- Publish is two, as it sends after it has unlocked. A subscriber is the position of its channel
-- among the channels made so far; the ids count the events from 1.
pub mod Delivery
pub mod Replay
pub mod Bounds
pub mod Clients
pub mod Runs
mod Tests
use serpent_seek.Prelude.{
  ℕ, suc, ◌+◌, ◌-◌, ℤ, pos, negsuc, String, Bool, true, false, not, Option, none, some, List, [],
  ◌∷◌, ◌++◌, Dict, lookup, insert, delete, or_else, get_elem?, set, keep, drop, length, ltb, eqb,
  if◌then◌else◌,
}

pub record Event : Type 0 where
  pub id : ℕ
  pub event_type : String
  pub payload : String

-- a buffered Go channel with what the reader has not taken yet
pub record Channel : Type 0 where
  pub queue : List Event
  pub is_closed : Bool

pub record Hub : Type 0 where
  pub seq : ℕ
  pub subs : Dict (List ℕ)
  pub buffers : Dict (List Event)
  pub order : List String
  pub max_buf : ℕ
  pub max_keys : ℕ
  pub closed : Bool
  pub channels : List Channel

abbrev pub new_hub : Hub
new_hub = record {
  seq = 0;
  subs = [];
  buffers = [];
  order = [];
  max_buf = 500;
  max_keys = 256;
  closed = false;
  channels = [];
}

-- make(chan Event, 256)
abbrev pub capacity : ℕ
capacity = 256

abbrev pub new_channel : Channel
new_channel = record { queue = []; is_closed = false }

-- h.buffers[key], empty for a key that has none
unfoldable pub buffer_of : String → Dict (List Event) → List Event
buffer_of key buffers = or_else (lookup key buffers) []

unfoldable pub subscribers_of : String → Dict (List ℕ) → List ℕ
subscribers_of key subs = or_else (lookup key subs) []

-- e.ID > lastID
unfoldable pub is_newer : ℤ → Event → Bool
is_newer (pos n) e = ltb n e.id
is_newer (negsuc n) e = true

-- Subscribe: the new subscriber, the replay, and the hub afterwards
unfoldable pub subscribe : String → ℤ → Hub → ℕ × List Event × Hub
subscribe key last_id h =
    let sub = length h.channels in
    (
      sub,
      keep (is_newer last_id) (buffer_of key h.buffers),
      record h {
        subs = insert key (sub ∷ subscribers_of key h.subs) h.subs;
        channels = h.channels ++ new_channel ∷ [];
      },
    )

-- delete(set, sub)
unfoldable pub without : ℕ → List ℕ → List ℕ
without sub = keep (λ other. not (eqb other sub))

-- delete(h.subs, key) once its set is empty
unfoldable pub store_set : String → List ℕ → Dict (List ℕ) → Dict (List ℕ)
store_set key [] subs = delete key subs
store_set key (sub ∷ left) subs = insert key (sub ∷ left) subs

-- the function that Subscribe returns
unfoldable pub unsubscribe : String → ℕ → Hub → Hub
unsubscribe key sub h = elim (lookup key h.subs) [
  | none ↦ h
  | some subscribed ↦ record h { subs = store_set key (without sub subscribed) h.subs }
]

-- the last `max` events of a buffer
unfoldable pub trim_buffer : ℕ → List Event → List Event
trim_buffer max events =
    if ltb max (length events) then drop (length events - max) events else events

-- the loop that drops the oldest keys
unfoldable pub evict : ℕ → List String → Dict (List Event) → List String × Dict (List Event)
evict max [] buffers = ([], buffers)
evict max (oldest ∷ order) buffers =
    let rest = evict max order (delete oldest buffers) in
    if ltb max (length (oldest ∷ order)) then rest else (oldest ∷ order, buffers)

-- the order with a key that is not known yet at its end
unfoldable pub noted : String → Dict (List Event) → List String → List String
noted key buffers order = elim (lookup key buffers) [
  | none ↦ order ++ key ∷ []
  | some events ↦ order
]

unfoldable pub next_event : String → String → Hub → Event
next_event event_type payload h = record {
  id = suc h.seq;
  event_type = event_type;
  payload = payload;
}

-- the buffers with an event added to those of its key, before the eviction
unfoldable pub appended : String → Event → Hub → Dict (List Event)
appended key ev h =
    insert key (trim_buffer h.max_buf (buffer_of key h.buffers ++ ev ∷ [])) h.buffers

-- Publish up to h.mu.Unlock(), of an open hub
unfoldable pub buffered : String → Event → Hub → Hub
buffered key ev h =
    let kept = evict h.max_keys (noted key h.buffers h.order) (appended key ev h) in
    record h { seq = suc h.seq; order = kept.0; buffers = kept.1 }

-- select { case ch <- ev: default: }, which panics (none) on a closed channel
unfoldable pub send : Event → ℕ → List Channel → Option (List Channel)
send ev sub channels = elim (get_elem? channels sub) [
  | none ↦ some channels
  | some c ↦
      if c.is_closed
      then none
      else if ltb (length c.queue) capacity
      then some (set channels sub (record c { queue = c.queue ++ ev ∷ [] }))
      else some channels
]

-- the loop after the unlocking
unfoldable pub deliver : Event → List ℕ → List Channel → Option (List Channel)
deliver ev [] channels = some channels
deliver ev (sub ∷ subs) channels = elim (send ev sub channels) [
  | none ↦ none
  | some sent ↦ deliver ev subs sent
]

-- the second step of Publish, with the subscribers that the first one has copied
unfoldable pub delivered : Event → List ℕ → Hub → Option Hub
delivered ev subs h = elim (deliver ev subs h.channels) [
  | none ↦ none
  | some channels ↦ some (record h { channels = channels })
]

-- Publish, with no other call between its steps; json.Marshal is a parameter
unfoldable pub publish : {D : Type 0} → (D → Option String) → String → String → D → Hub → Option Hub
publish marshal key event_type content h = elim (marshal content) [
  | none ↦ some h
  | some payload ↦
      if h.closed
      then some h
      else let ev = next_event event_type payload h in
        delivered ev (subscribers_of key h.subs) (buffered key ev h)
]

-- close(ch), which panics on a closed channel
unfoldable pub close_channel : ℕ → List Channel → Option (List Channel)
close_channel sub channels = elim (get_elem? channels sub) [
  | none ↦ some channels
  | some c ↦ if c.is_closed then none else some (set channels sub (record c { is_closed = true }))
]

unfoldable pub close_set : List ℕ → List Channel → Option (List Channel)
close_set [] channels = some channels
close_set (sub ∷ subs) channels = elim (close_channel sub channels) [
  | none ↦ none
  | some rest ↦ close_set subs rest
]

unfoldable pub close_sets : Dict (List ℕ) → List Channel → Option (List Channel)
close_sets [] channels = some channels
close_sets ((key, set) ∷ subs) channels = elim (close_set set channels) [
  | none ↦ none
  | some rest ↦ close_sets subs rest
]

-- Close
unfoldable pub close : Hub → Option Hub
close h = elim (close_sets h.subs h.channels) [
  | none ↦ none
  | some channels ↦ some (record h { closed = true; subs = []; channels = channels })
]

-- Clients
unfoldable pub clients : Dict (List ℕ) → ℕ
clients [] = 0
clients ((key, set) ∷ subs) = length set + clients subs
