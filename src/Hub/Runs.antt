-- ===== src/Hub/Runs.antt =====
-- Sequences of calls of internal/sse/hub.go on one hub.
use serpent_seek.Prelude.{
  ℕ, ℤ, String, ◌≡◌, refl, ap, ◌∙◌, inl, inr, true, Option, none, some, List, [], ◌∷◌, lookup,
  if◌then◌else◌, Bool-cases, Option-cases,
}
use serpent_seek.Hub.{
  Event, Hub, new_hub, subscribers_of, subscribe, unsubscribe, next_event, buffered, delivered,
  publish, close,
}
use serpent_seek.Hub.Delivery.{IsLive, delivered-IsLive, close-IsLive}
use serpent_seek.Hub.Clients.{subscribe-IsLive, unsubscribe-IsLive}
use serpent_seek.Hub.Bounds.{IsBounded, buffered-IsBounded, new-IsBounded}

pub data Call (D : Type 0) : Type 0 where
  subscribes : String → ℤ → Call D
  unsubscribes : String → ℕ → Call D
  publishes : String → String → D → Call D
  closes : Call D

-- one call; none stands for a panic
unfoldable pub run_call : {D : Type 0} → (D → Option String) → Call D → Hub → Option Hub
run_call marshal (subscribes key last_id) h = some (subscribe key last_id h).2
run_call marshal (unsubscribes key sub) h = some (unsubscribe key sub h)
run_call marshal (publishes key event_type content) h = publish marshal key event_type content h
run_call marshal closes h = close h

unfoldable pub run : {D : Type 0} → (D → Option String) → List (Call D) → Hub → Option Hub
run marshal [] h = some h
run marshal (call ∷ calls) h = elim (run_call marshal call h) [
  | none ↦ none
  | some after ↦ run marshal calls after
]

-- the two invariants of a hub
pub record IsSound (h : Hub) : Type 0 where
  pub live : IsLive h
  pub bounded : IsBounded h

buffered-IsLive : (key : String) (ev : Event) (h : Hub) → IsLive h → IsLive (buffered key ev h)
unfolding buffered
buffered-IsLive key ev h live = record {
  distinct = live.distinct;
  all_open = λ i m. live.all_open i m;
}

publish-IsSound :
    {D : Type 0} (marshal : D → Option String) (key event_type : String) (content : D) (h : Hub)
    → IsSound h
    → (after : Hub) × (publish marshal key event_type content h ≡ some after) × IsSound after
unfolding publish buffered
publish-IsSound marshal key event_type content h sound = elim (Option-cases (marshal content)) [
  | inl fails ↦ (h, rw (fails, publish) refl, sound)
  | inr (payload, e) ↦ elim (Bool-cases h.closed) [
    | inl closed ↦ (h, simp (e, closed, publish), sound)
    | inr serving ↦
        let ev = next_event event_type payload h in
        let (channels, sent, live) =
          delivered-IsLive key ev (buffered key ev h) (buffered-IsLive key ev h sound.live) in
        let b = buffered-IsBounded key ev h sound.bounded in
        (
          record (buffered key ev h) { channels = channels },
          rw (e, publish)
              (ap
                  (λ b.
                    if b
                    then some h
                    else delivered ev (subscribers_of key h.subs) (buffered key ev h))
                  serving
                ∙ sent),
          record {
            live = live;
            bounded = record { few_keys = b.few_keys; listed = b.listed; short = b.short };
          },
        )
  ]
]

run_call-IsSound :
    {D : Type 0} (marshal : D → Option String) (call : Call D) (h : Hub)
    → IsSound h
    → (after : Hub) × (run_call marshal call h ≡ some after) × IsSound after
unfolding run_call subscribe unsubscribe
run_call-IsSound marshal (subscribes key last_id) h sound =
    let b = sound.bounded in
    (
      (subscribe key last_id h).2,
      refl,
      record {
        live = (subscribe-IsLive key last_id h sound.live).0;
        bounded = record { few_keys = b.few_keys; listed = b.listed; short = b.short };
      },
    )
run_call-IsSound marshal (unsubscribes key sub) h sound =
    let b = sound.bounded in
    (
      unsubscribe key sub h,
      refl,
      record {
        live = unsubscribe-IsLive key sub h sound.live;
        bounded = elim (Option-cases (lookup key h.subs)) [
          | inl nobody ↦ rw (nobody, unsubscribe) b
          | inr (old, found) ↦
              rw (found, unsubscribe)
                (record { few_keys = b.few_keys; listed = b.listed; short = b.short })
        ];
      },
    )
run_call-IsSound marshal (publishes key event_type content) h sound =
    publish-IsSound marshal key event_type content h sound
run_call-IsSound marshal closes h sound =
    let (channels, closed, live, shut) = close-IsLive h sound.live in
    let b = sound.bounded in
    (
      record h { closed = true; subs = []; channels = channels },
      closed,
      record {
        live = live;
        bounded = record { few_keys = b.few_keys; listed = b.listed; short = b.short };
      },
    )

run-IsSound_from :
    {D : Type 0} (marshal : D → Option String) (calls : List (Call D)) (h : Hub)
    → IsSound h
    → (after : Hub) × (run marshal calls h ≡ some after) × IsSound after
unfolding run
run-IsSound_from marshal [] h sound = (h, refl, sound)
run-IsSound_from marshal (call ∷ calls) h sound =
    let (one, called, s) = run_call-IsSound marshal call h sound in
    let (after, rest, t) = run-IsSound_from marshal calls one s in (after, rw (called, run) rest, t)

-- Every sequence of Subscribe, unsubscribe, Publish and Close on a new hub, each in one piece, ends
-- without a panic, in a hub with bounded buffers whose subscribers are distinct and have open channels.
pub run-IsSound :
    {D : Type 0} (marshal : D → Option String) (calls : List (Call D))
    → (after : Hub) × (run marshal calls new_hub ≡ some after) × IsSound after
run-IsSound marshal calls = run-IsSound_from marshal calls new_hub (record {
  live = record { distinct = tt; all_open = λ i m. absurd m };
  bounded = new-IsBounded;
})
