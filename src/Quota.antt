-- ===== src/Quota.antt =====
-- internal/httpd/quotas.go: the allowance of searches that a user has. A moment is a number of nanoseconds
-- since 1970; a day is a number of days since then, in the time of the quota. Months and the text of a
-- date come from package time: they are parameters.
pub mod Periods
pub mod Guard
pub mod Bound
pub mod Fresh
mod Tests
use serpent_seek.Prelude.{
  ℕ, suc, ◌+◌, ◌-◌, ◌*◌, ℤ, pos, negsuc, is_positive, String, Bool, true, false, not, Option, none,
  some, List, [], ◌∷◌, Dict, insert, lookup, delete, ltb, eqb, ◌==◌, if◌then◌else◌, append_text,
}
use Prim.Native.Nat.{◌/◌, ◌%◌}

-- models.go: UserQuota
pub record UserQuota : Type 0 where
  pub user_id : String
  pub requests : ℤ
  pub period : String
  pub window_hours : ℤ
  pub tz_offset : ℤ
  pub updated_at : String

pub record Calendar : Type 0 where
  -- Format("2006-01-02")
  pub date : ℕ → String
  -- the first day of the month, and that of the next one
  pub month_start : ℕ → ℕ
  pub next_month : ℕ → ℕ

abbrev pub minute_ns : ℕ
minute_ns = 60_000_000_000

abbrev pub day_ns : ℕ
day_ns = 86_400_000_000_000

-- now.Add(offset minutes), of a moment that is not before 1970 then
unfoldable pub shift : ℤ → ℕ → ℕ
shift (pos m) now = now + m * minute_ns
shift (negsuc m) now = now - (m + 1) * minute_ns

-- Add(-offset minutes)
unfoldable pub unshift : ℤ → ℕ → ℕ
unshift (pos m) t = t - m * minute_ns
unshift (negsuc m) t = t + (m + 1) * minute_ns

unfoldable pub day_of : UserQuota → ℕ → ℕ
day_of q now = shift q.tz_offset now / day_ns

-- the days since the last Monday, for Sunday as day 0; the first day was a Thursday
unfoldable pub week_back : ℕ → ℕ
week_back d = ((d + 4) % 7 + 6) % 7

-- the first day of the period of a day
unfoldable pub period_start : Calendar → String → ℕ → ℕ
period_start cal period d =
    if period == "weekly"
    then d - week_back d
    else if period == "monthly"
    then cal.month_start d
    else d

-- quotaPeriodKey
unfoldable pub quota_period_key : Calendar → UserQuota → ℕ → String
quota_period_key cal q now =
    append_text (cal.date (period_start cal q.period (day_of q now))) (append_text "#" q.period)

-- forward of quotaResetAt
unfoldable pub week_forward : ℕ → ℕ
week_forward d = let forward = (7 - week_back d) % 7 in if eqb forward 0 then 7 else forward

-- the day on which the period of a day ends; none for a rolling quota
unfoldable pub reset_day : Calendar → String → ℕ → Option ℕ
reset_day cal period d =
    if period == "weekly"
    then some (d + week_forward d)
    else if period == "monthly"
    then some (cal.next_month d)
    else if period == "rolling"
    then none
    else some (d + 1)

-- quotaResetAt
unfoldable pub quota_reset_at : Calendar → UserQuota → ℕ → Option ℕ
quota_reset_at cal q now = elim (reset_day cal q.period (day_of q now)) [
  | none ↦ none
  | some d ↦ some (unshift q.tz_offset (d * day_ns))
]

-- quotaWindowDuration, in hours
unfoldable pub window_hours_of : ℤ → ℕ
window_hours_of (negsuc n) = 24
window_hours_of (pos n) = if eqb n 0 then 24 else if ltb 720 n then 720 else n

abbrev pub hour_ns : ℕ
hour_ns = 3_600_000_000_000

unfoldable pub quota_window_duration : UserQuota → ℕ
quota_window_duration q = window_hours_of q.window_hours * hour_ns

-- what GetUserQuota answers
pub data Found : Type 0 where
  found : UserQuota → Found
  not_found : Found
  unreachable : Found

pub record CacheEntry : Type 0 where
  pub quota : Option UserQuota
  pub fetched : ℕ

-- quotaCacheTTL, five seconds
abbrev pub cache_ttl : ℕ
cache_ttl = 5_000_000_000

-- put of quotaCache
unfoldable pub put : String → Option UserQuota → ℕ → Dict CacheEntry → Dict CacheEntry
put user_id q now entries = insert user_id (record { quota = q; fetched = now }) entries

-- invalidate of quotaCache
unfoldable pub invalidate : String → Dict CacheEntry → Dict CacheEntry
invalidate user_id entries = delete user_id entries

-- the end of `get`, which asks the store
unfoldable pub fetch :
    (String → Found) → String → ℕ → Dict CacheEntry → Option UserQuota × Dict CacheEntry
fetch get_user_quota user_id now entries = elim (get_user_quota user_id) [
  | unreachable ↦ (none, entries)
  | not_found ↦ (none, put user_id none now entries)
  | found q ↦
      if is_positive q.requests
      then (some q, put user_id (some q) now entries)
      else (none, put user_id none now entries)
]

-- get of quotaCache, at a moment and at the later one at which the store has answered: the quota, and the
-- cache afterwards
unfoldable pub get :
    (String → Found) → String → ℕ → ℕ → Dict CacheEntry → Option UserQuota × Dict CacheEntry
get get_user_quota user_id now answered entries =
    if user_id == "" then (none, entries) else elim (lookup user_id entries) [
      | none ↦ fetch get_user_quota user_id answered entries
      | some e ↦
          if ltb now (e.fetched + cache_ttl)
          then (e.quota, entries)
          else fetch get_user_quota user_id answered entries
    ]
