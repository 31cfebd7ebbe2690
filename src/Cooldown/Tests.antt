-- ===== src/Cooldown/Tests.antt =====
-- Runs of the breaker with a threshold of three failures.
use serpent_seek.Prelude.{
  pos, ◌≡◌, refl, true, false, [], ◌∷◌, lookup, insert, delete, leb, arith, ne_of_test,
}
use serpent_seek.Cooldown.{Cooldowns, new_cooldowns, span_of, note_failure, observe}
use serpent_seek.Cooldown.Trip.{fail_all, observe_trips}

abbrev shaky : Cooldowns
shaky = record { fails = ("p", 2) ∷ []; until = ("q", 900) ∷ [] }

observe_trips_example :
    (observe "p" false
      (pos 3)
      (pos 60)
      30
      (fail_all "p" (pos 3) (pos 60) (10 ∷ 20 ∷ []) new_cooldowns)).0
    ≡ leb 3 3
observe_trips_example =
    observe_trips "p" 2 (pos 60) (10 ∷ 20 ∷ []) 30 new_cooldowns (ne_of_test "p" "" refl)
      (unfold lookup in refl) (omega arith)

trips : (observe "p" false (pos 3) (pos 60) 30 shaky).0 ≡ true
unfolding observe note_failure span_of lookup insert delete
trips = refl
