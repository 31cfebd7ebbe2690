-- ===== src/Hub/Tests.antt =====
-- Runs of the hub: one subscriber and one event.
use serpent_seek.Prelude.{
  pos, String, ◌≡◌, refl, inl, true, Option, none, some, List, [], ◌∷◌, keep, lookup, insert, arith,
}
use serpent_seek.Hub.{
  Hub, Event, new_hub, is_newer, next_event, buffered, subscribers_of, subscribe, delivered, close,
  appended, evict, noted, trim_buffer,
}
use serpent_seek.Hub.Delivery.{close_races, close-IsLive, IsLive}
use serpent_seek.Hub.Clients.{subscribe-IsLive}
use serpent_seek.Hub.Replay.{
  Log, log_event, Follows, buffered-Follows, new-Follows, subscribe_replays,
}
use serpent_seek.Hub.Runs.{
  Call, subscribes, unsubscribes, publishes, closes, run, IsSound, run-IsSound,
}

abbrev marshal_text : String → Option String
marshal_text text = some text

abbrev calls : List (Call String)
calls =
    subscribes "req" (pos 0)
    ∷ publishes "req" "step" "one"
    ∷ unsubscribes "req" 0
    ∷ closes
    ∷ publishes "req" "step" "late"
    ∷ []

run-IsSound_example : (after : Hub) × (run marshal_text calls new_hub ≡ some after) × IsSound after
run-IsSound_example = run-IsSound marshal_text calls

abbrev first_event : Event
first_event = next_event "step" "one" new_hub

abbrev empty_log : Log
empty_log k = []

buffered-Follows_example :
    Follows (buffered "req" first_event new_hub) (log_event "req" first_event empty_log)
buffered-Follows_example = buffered-Follows "req" "step" "one" new_hub empty_log new-Follows

subscribe_replays_example :
    (subscribe "req" (pos 0) (buffered "req" first_event new_hub)).1
    ≡ keep (is_newer (pos 0)) (log_event "req" first_event empty_log "req")
unfolding buffered next_event is_newer noted evict appended trim_buffer lookup
subscribe_replays_example =
    subscribe_replays "req" (pos 0) (buffered "req" first_event new_hub)
      (log_event "req" first_event empty_log)
      (buffered-Follows "req" "step" "one" new_hub empty_log new-Follows) (omega arith)
      (omega arith)

abbrev joined : Hub
joined = (subscribe "req" (pos 0) new_hub).2

joined-IsLive : IsLive joined
joined-IsLive =
    (subscribe-IsLive "req" (pos 0) new_hub
      (record { distinct = tt; all_open = λ i m. absurd m })).0

-- the closing of a hub with one subscriber
shut_joined : (shut : Hub) × (close joined ≡ some shut)
shut_joined =
    let (channels, closed, live, shut) = close-IsLive joined joined-IsLive in
    (record joined { closed = true; subs = []; channels = channels }, closed)

close_races_example : delivered first_event (subscribers_of "req" joined.subs) shut_joined.0 ≡ none
unfolding subscribers_of subscribe lookup insert
close_races_example =
    close_races "req" first_event 0 joined shut_joined.0 joined-IsLive (inl refl) shut_joined.1
