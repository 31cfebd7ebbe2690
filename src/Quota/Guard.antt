-- ===== src/Quota/Guard.antt =====
-- internal/httpd/guard.go and the counters of internal/httpd/quotas.go: the guard of searches. The store's
-- counters, the text of the current UTC day and the seconds to the next one are parameters; logging,
-- metrics and the web hook are left out.
use serpent_seek.Prelude.{
  ℕ, ◌+◌, ◌-◌, ℤ, pos, is_positive, to_ℕ, String, true, not, Option, none, some, [], ◌∷◌, Dict,
  insert, ltb, leb, ◌==◌, if◌then◌else◌, append_text, itoa,
}
use Prim.Native.Nat.{◌/◌}
use serpent_seek.Auth.Identity.{Identity}
use serpent_seek.RateLimit.{RateLimiter, allow_limit}
use serpent_seek.Quota.{
  UserQuota, Calendar, CacheEntry, Found, get, quota_period_key, quota_reset_at,
  quota_window_duration,
}

-- the counters of internal/store/store.go; none stands for an error
pub record Counters (S : Type 0) : Type 0 where
  pub get_usage : String → String → S → Option ℕ
  pub increment_usage : String → String → S → Option (ℕ × S)
  pub count_rolling_hits : String → ℕ → S → Option ℕ
  pub add_rolling_hit : String → ℕ → S → Option S

-- the time of a request: the moment, and what package time makes of it
pub record Clock : Type 0 where
  pub now : ℕ
  -- the moment at which the store has answered for the quota
  pub answered : ℕ
  pub utc_day : String
  pub seconds_to_next_day : ℕ
  -- Format(time.RFC3339)
  pub rfc3339 : ℕ → String

-- what the guard answers: the headers that it sets, and whether the search goes on
pub data Reply : Type 0 where
  passes : Dict String → Reply
  refuses : String → Dict String → Reply

-- identityUserID of validation.go
unfoldable pub identity_user_id : Option Identity → String
identity_user_id none = ""
identity_user_id (some id) = elim id.user [ none ↦ "" | some user ↦ user.id ]

-- usageSubject, for the client's address
unfoldable pub usage_subject : Option Identity → String → String
usage_subject none ip = append_text "ip:" ip
usage_subject (some id) ip =
    if not (id.key_id == "")
    then append_text "key:" id.key_id
    else elim id.user [ none ↦ append_text "ip:" ip | some user ↦ append_text "user:" user.id ]

abbrev pub second_ns : ℕ
second_ns = 1_000_000_000

abbrev pub at_least_one : ℕ → ℕ
at_least_one n = if ltb n 1 then 1 else n

unfoldable pub reset_header : Clock → Option ℕ → Dict String → Dict String
reset_header clock none headers = headers
reset_header clock (some reset_at) headers =
    insert "X-Serpent-Quota-Reset-At" (clock.rfc3339 reset_at) headers

-- the seconds of Retry-After
unfoldable pub retry_after : UserQuota → ℕ → Option ℕ → ℕ
retry_after q now none = quota_window_duration q / second_ns
retry_after q now (some reset_at) = at_least_one ((reset_at - now) / second_ns + 1)

unfoldable pub quota_headers : ℕ → ℕ → Dict String → Dict String
quota_headers limit remaining headers =
    insert "X-Serpent-Quota-Remaining" (itoa (pos remaining))
      (insert "X-Serpent-Quota-Limit" (itoa (pos limit)) headers)

module _ {S : Type 0} (counters : Counters S) (cal : Calendar) where
  -- quotaUsage
  unfoldable pub quota_usage : String → UserQuota → ℕ → S → Option ℕ
  quota_usage subject q now s =
      if q.period == "rolling"
      then counters.count_rolling_hits subject (now - quota_window_duration q) s
      else counters.get_usage subject (quota_period_key cal q now) s

  -- recordQuotaHit
  unfoldable pub record_quota_hit : String → UserQuota → ℕ → S → Option S
  record_quota_hit subject q now s =
      if q.period == "rolling"
      then counters.add_rolling_hit subject now s
      else elim (counters.increment_usage subject (quota_period_key cal q now) s) [
        | none ↦ none
        | some (count, s') ↦ some s'
      ]

  -- checkUserQuota after the exhaustion test; a usage that could not be read counts as 0
  unfoldable pub admit : Clock → String → UserQuota → ℕ → S → Reply × S
  admit clock subject q used s =
      let headers = reset_header clock (quota_reset_at cal q clock.now) [] in
      elim (record_quota_hit subject q clock.now s) [
        | none ↦ (passes headers, s)
        | some s' ↦
            (passes (quota_headers (to_ℕ q.requests) (to_ℕ q.requests - used - 1) headers), s')
      ]

  unfoldable pub refuse : Clock → UserQuota → Reply
  refuse clock q =
      let reset_at = quota_reset_at cal q clock.now in
      refuses "quota_exceeded" (
        quota_headers (to_ℕ q.requests) 0 (
          insert "X-Serpent-Api" "quota_exceeded" (
            insert "Retry-After" (itoa (pos (retry_after q clock.now reset_at)))
              (reset_header clock reset_at []))))

  -- checkUserQuota from the usage that was read; other requests may have counted since
  unfoldable pub decide_user_quota : Clock → String → UserQuota → Option ℕ → S → Reply × S
  decide_user_quota clock user_id q usage s =
      let subject = append_text "user:" user_id in
      elim usage [
        | none ↦ admit clock subject q 0 s
        | some used ↦
            if leb (to_ℕ q.requests) used then (refuse clock q, s) else admit clock subject q used s
      ]

  -- checkUserQuota where no other request counts between its two calls of the store
  unfoldable pub check_user_quota : Clock → String → UserQuota → S → Reply × S
  check_user_quota clock user_id q s =
      decide_user_quota clock user_id q (quota_usage (append_text "user:" user_id) q clock.now s) s

  -- the counting of the daily quota
  unfoldable pub count_daily : Clock → String → ℕ → Dict String → S → Reply × S
  count_daily clock subject quota headers s =
      elim (counters.increment_usage subject clock.utc_day s) [
        | none ↦ (passes headers, s)
        | some (count, s') ↦ (passes (quota_headers quota (quota - count) headers), s')
      ]

  -- the daily quota of searchGuard, with the headers set so far
  unfoldable pub check_daily : Clock → String → ℕ → Dict String → S → Reply × S
  check_daily clock subject quota headers s = elim (counters.get_usage subject clock.utc_day s) [
    | none ↦ count_daily clock subject quota headers s
    | some used ↦
        if leb quota used
        then (
          refuses "quota_exceeded" (
              insert "X-Serpent-Api" "quota_exceeded"
                (insert "Retry-After" (itoa (pos clock.seconds_to_next_day)) headers)),
          s,
        )
        else count_daily clock subject quota headers s
  ]

  -- searchGuard after the rate limit
  unfoldable pub guard_quotas : Clock → String → String → ℤ → Option UserQuota → S → Reply × S
  guard_quotas clock subject user_id quota none s =
      if is_positive quota then check_daily clock subject (to_ℕ quota) [] s else (passes [], s)
  guard_quotas clock subject user_id quota (some q) s =
      let (reply, s') = check_user_quota clock user_id q s in
      elim reply [
        | refuses code headers ↦ (refuses code headers, s')
        | passes headers ↦
            if is_positive quota
            then check_daily clock subject (to_ℕ quota) headers s'
            else (passes headers, s')
      ]

  -- searchGuard: the settings, what the store has of users' quotas, the identity and the address, and the
  -- limiter, the cache of quotas and the counters, which it returns changed
  unfoldable pub search_guard :
      Clock
      → ℤ
      → ℤ
      → (String → Found)
      → Option Identity
      → String
      → RateLimiter
      → Dict CacheEntry
      → S
      → Reply × RateLimiter × Dict CacheEntry × S
  search_guard clock rate_limit quota get_user_quota id ip limiter cache s =
      let subject = usage_subject id ip in
      let user_id = identity_user_id id in
      let (user_quota, cache') = get get_user_quota user_id clock.now clock.answered cache in
      let (allowed, limiter') =
        if is_positive rate_limit
        then allow_limit subject rate_limit (pos 60_000_000_000) clock.now limiter
        else (true, limiter) in
      let (reply, s') = guard_quotas clock subject user_id quota user_quota s in
      if allowed then (reply, limiter', cache', s') else (
        refuses "rate_limited" (("X-Serpent-Api", "rate_limited") ∷ ("Retry-After", "60") ∷ []),
        limiter',
        cache',
        s,
      )
