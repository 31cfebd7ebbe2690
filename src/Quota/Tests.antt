-- ===== src/Quota/Tests.antt =====
-- Months of thirty days, and a store with one counter.
use Prim.Native.Nat.{◌/◌}
use serpent_seek.Prelude.{
  ℕ, suc, ◌≤◌, String, Option, Dict, ◌+◌, ◌-◌, ◌*◌, ◌<◌, pos, ◌≡◌, refl, ◌↔◌, some, List, [], ◌∷◌,
  arith, ltb, length, if◌then◌else◌,
}
use serpent_seek.Quota.{
  UserQuota, Calendar, quota_period_key, period_start, reset_day, day_of, shift, week_forward,
  week_back, Found, found, not_found, CacheEntry, cache_ttl, get,
}
use serpent_seek.Quota.Periods.{IsCalendar, reset_day_lem}
use serpent_seek.Quota.Guard.{Counters, Clock}
use serpent_seek.Quota.Fresh.{IsFresh, IsFresh-empty, allowance, get-IsFresh}
use serpent_seek.Quota.Bound.{
  IsCounting, run_checks, run_checks_lem, run_overlapping, run_overlapping_lem,
}

abbrev thirty : Calendar
thirty = record {
  date = λ d. "day";
  month_start = λ d. d / 30 * 30;
  next_month = λ d. d / 30 * 30 + 30;
}

thirty-IsCalendar : IsCalendar thirty
thirty-IsCalendar = record {
  starts = λ d. omega arith;
  ends = λ d. omega arith;
  whole = λ d e le before. omega arith;
  later = λ d e after. omega arith;
}

reset_day_lem_example :
    (100 < 102)
    × ((101 < 102) ↔ (period_start thirty "weekly" 101 ≡ period_start thirty "weekly" 100))
unfolding reset_day week_forward week_back
reset_day_lem_example =
    reset_day_lem thirty "weekly" 100 101 102 thirty-IsCalendar (omega arith) (omega arith) refl

abbrev one_counter : Counters ℕ
one_counter = record {
  get_usage = λ subject key n. some n;
  increment_usage = λ subject key n. some (suc n, suc n);
  count_rolling_hits = λ subject since n. some n;
  add_rolling_hit = λ subject at n. some (suc n);
}

one_counter-IsCounting : IsCounting one_counter
one_counter-IsCounting = record {
  count = λ subject key n. n;
  reads = λ subject key n. refl;
  after = λ subject key n. suc n;
  adds = λ subject key n. refl;
  counts = λ subject key n. refl;
}

abbrev two_a_day : UserQuota
two_a_day = record {
  user_id = "u1";
  requests = pos 2;
  period = "daily";
  window_hours = pos 0;
  tz_offset = pos 60;
  updated_at = "";
}

abbrev at : ℕ → Clock
at now = record {
  now = now;
  answered = now;
  utc_day = "day";
  seconds_to_next_day = 1;
  rfc3339 = λ t. "";
}

abbrev searches : List Clock
searches = at 100 ∷ at 200 ∷ at 300 ∷ []

run_checks_lem_example :
    (run_checks one_counter thirty "u1" two_a_day searches 0).0
    ≡ (if ltb (length searches) (2 - 0) then length searches else 2 - 0)
unfolding quota_period_key day_of period_start shift one_counter-IsCounting
run_checks_lem_example =
    run_checks_lem one_counter thirty "u1" "day#daily" two_a_day one_counter-IsCounting refl
      searches 0 (refl, (refl, (refl, tt)))

abbrev ten_searches : UserQuota
ten_searches = record {
  user_id = "u1";
  requests = pos 10;
  period = "daily";
  window_hours = pos 0;
  tz_offset = pos 0;
  updated_at = "";
}

-- a quota that is removed after a second
abbrev removed : ℕ → String → Found
removed now user_id = if ltb now 1_000_000_000 then found ten_searches else not_found

-- a store that answers within 10 nanoseconds
abbrev first_read : Option UserQuota × Dict CacheEntry
first_read = get (removed 5) "u1" 0 10 []

first_read-IsFresh : IsFresh removed 10 10 first_read.1
first_read-IsFresh =
    (get-IsFresh removed 10 "u1" 0 0 5 10 [] (omega arith) (omega arith) (omega arith) (omega arith)
      refl (IsFresh-empty removed 10 0)).0

get-IsFresh_example :
    IsFresh removed 10 4_000_000_010
      (get (removed 4_000_000_001) "u1" 4_000_000_000 4_000_000_010 first_read.1).1
    × ((t : ℕ) × (t ≤ 4_000_000_010)
        × (4_000_000_000 < t + cache_ttl + 10)
        × ((get (removed 4_000_000_001) "u1" 4_000_000_000 4_000_000_010 first_read.1).0
            ≡ allowance (removed t "u1")))
get-IsFresh_example =
    get-IsFresh removed 10 "u1" 10 4_000_000_000 4_000_000_001 4_000_000_010 first_read.1
      (omega arith) (omega arith) (omega arith) (omega arith) refl first_read-IsFresh

-- three searches that overlap, where one is left
run_overlapping_lem_example :
    ((run_overlapping one_counter thirty "u1" two_a_day (some 1) searches 1).0 ≡ 3)
    × ((run_overlapping one_counter thirty "u1" two_a_day (some 1) searches 1).1 ≡ 1 + 3)
unfolding quota_period_key day_of period_start shift one_counter-IsCounting
run_overlapping_lem_example =
    run_overlapping_lem one_counter thirty "u1" "day#daily" two_a_day one_counter-IsCounting refl
      searches 1 1 (refl, (refl, (refl, tt))) (omega arith)
