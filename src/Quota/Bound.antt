-- ===== src/Quota/Bound.antt =====
-- checkUserQuota of internal/httpd/guard.go over searches in one period: one after another, and overlapping.
use serpent_seek.Prelude.{
  ◌<◌, Option, ℕ, suc, ◌+◌, ◌-◌, to_ℕ, String, ◌≡◌, refl, ap, ◌∙◌, inl, inr, true, false, some,
  List, [], ◌∷◌, length, ltb, leb, All, ◌==◌, if◌then◌else◌, arith, append_text, Bool-cases,
}
use serpent_seek.Quota.{UserQuota, Calendar, quota_period_key}
use serpent_seek.Quota.Guard.{
  Counters, Clock, Reply, passes, refuses, quota_usage, record_quota_hit, admit, refuse,
  check_user_quota, decide_user_quota,
}

-- a store whose counters count, and do not fail
pub record IsCounting {S : Type 0} (counters : Counters S) : Type 0 where
  pub count : String → String → S → ℕ
  pub reads : (a k : String) (s : S) → counters.get_usage a k s ≡ some (count a k s)
  pub after : String → String → S → S
  pub adds :
      (a k : String) (s : S)
      → counters.increment_usage a k s ≡ some (suc (count a k s), after a k s)
  pub counts : (a k : String) (s : S) → count a k (after a k s) ≡ suc (count a k s)

unfoldable pub passed : Reply → ℕ
passed (passes headers) = 1
passed (refuses code headers) = 0

-- the number of searches that pass, one after the other, and the state afterwards
unfoldable pub run_checks :
    {S : Type 0} → Counters S → Calendar → String → UserQuota → List Clock → S → ℕ × S
run_checks counters cal user_id q [] s = (0, s)
run_checks counters cal user_id q (clock ∷ clocks) s =
    let (reply, s') = check_user_quota counters cal clock user_id q s in
    let (n, s'') = run_checks counters cal user_id q clocks s' in (passed reply + n, s'')

-- the searches that have all read the same usage before any of them counted, one after the other from
-- there on
unfoldable pub run_overlapping :
    {S : Type 0} → Counters S → Calendar → String → UserQuota → Option ℕ → List Clock → S → ℕ × S
run_overlapping counters cal user_id q usage [] s = (0, s)
run_overlapping counters cal user_id q usage (clock ∷ clocks) s =
    let (reply, s') = decide_user_quota counters cal clock user_id q usage s in
    let (n, s'') = run_overlapping counters cal user_id q usage clocks s' in (passed reply + n, s'')

module _ {S : Type 0} (counters : Counters S) (cal : Calendar) (user_id key : String)
    (q : UserQuota) (good : IsCounting counters) (calendar : (q.period == "rolling") ≡ false) where
  abbrev used : S → ℕ
  used s = good.count (append_text "user:" user_id) key s

  usage_lem :
      (now : ℕ) (s : S)
      → quota_period_key cal q now ≡ key
      → quota_usage counters cal (append_text "user:" user_id) q now s ≡ some (used s)
  unfolding quota_usage
  usage_lem now s e = rw (calendar, e) (good.reads (append_text "user:" user_id) key s)

  record_lem :
      (now : ℕ) (s : S)
      → quota_period_key cal q now ≡ key
      → record_quota_hit counters cal (append_text "user:" user_id) q now s
        ≡ some (good.after (append_text "user:" user_id) key s)
  unfolding record_quota_hit
  record_lem now s e = rw (calendar, e, good.adds (append_text "user:" user_id) key s) refl

  check_refuses :
      (clock : Clock) (s : S)
      → quota_period_key cal q clock.now ≡ key
      → leb (to_ℕ q.requests) (used s) ≡ true
      → check_user_quota counters cal clock user_id q s ≡ (refuse counters cal clock q, s)
  unfolding check_user_quota decide_user_quota
  check_refuses clock s e full =
      rw (usage_lem clock.now s e, full, check_user_quota, decide_user_quota) refl

  check_passes :
      (clock : Clock) (s : S)
      → quota_period_key cal q clock.now ≡ key
      → leb (to_ℕ q.requests) (used s) ≡ false
      → (passed (check_user_quota counters cal clock user_id q s).0 ≡ 1)
        × ((check_user_quota counters cal clock user_id q s).1
            ≡ good.after (append_text "user:" user_id) key s)
  unfolding check_user_quota decide_user_quota admit passed
  check_passes clock s e room =
      let whole : check_user_quota counters cal clock user_id q s
          ≡ admit counters cal clock (append_text "user:" user_id) q (used s) s =
        rw (usage_lem clock.now s e, room, check_user_quota, decide_user_quota) refl in
      let hit = record_lem clock.now s e in
      (
        ap (λ r. passed r.0) whole ∙ rw (hit, admit) refl,
        ap (λ r. r.1) whole ∙ rw (hit, admit) refl,
      )

  -- As long as the store's counters count, and no other search counts between the reading and the counting of a
  -- search, exactly the first searches of one period of a calendar quota pass, as many as the allowance has left.
  pub run_checks_lem :
      (clocks : List Clock) (s : S)
      → All (λ clock. quota_period_key cal q clock.now ≡ key) clocks
      → (run_checks counters cal user_id q clocks s).0 ≡ (
          if ltb (length clocks) (to_ℕ q.requests - used s)
          then length clocks
          else to_ℕ q.requests - used s)
  unfolding run_checks refuse passed
  run_checks_lem [] s all = ground arith
  run_checks_lem (clock ∷ clocks) s (e, all) =
      let s' = (check_user_quota counters cal clock user_id q s).1 in
      let rest = run_checks_lem clocks s' all in
      elim (Bool-cases (leb (to_ℕ q.requests) (used s))) [
        | inl full ↦
            let refused = check_refuses clock s e full in
            let none_passed : passed (check_user_quota counters cal clock user_id q s).0 ≡ 0 =
              ap (λ r. passed r.0) refused in
            let left : used s' ≡ used s = ap (λ r. used r.1) refused in
            ground (arith, rest, none_passed, left, full)
        | inr room ↦
            let (one_passed, next) = check_passes clock s e room in
            let left : used s' ≡ suc (used s) =
              ap used next ∙ good.counts (append_text "user:" user_id) key s in
            ground (arith, rest, one_passed, left, room)
      ]

  decide_passes :
      (clock : Clock) (read : ℕ) (s : S)
      → quota_period_key cal q clock.now ≡ key
      → leb (to_ℕ q.requests) read ≡ false
      → (passed (decide_user_quota counters cal clock user_id q (some read) s).0 ≡ 1)
        × ((decide_user_quota counters cal clock user_id q (some read) s).1
            ≡ good.after (append_text "user:" user_id) key s)
  unfolding decide_user_quota admit passed
  decide_passes clock read s e room =
      let hit = record_lem clock.now s e in
      (rw (room, hit, decide_user_quota, admit) refl, rw (room, hit, decide_user_quota, admit) refl)

  -- Searches that overlap are not bounded by the allowance: all those of one period of a calendar quota pass that
  -- read the usage while any of the allowance was left, before one of them counted; and all of them are counted.
  pub run_overlapping_lem :
      (clocks : List Clock) (s s' : S)
      → All (λ clock. quota_period_key cal q clock.now ≡ key) clocks
      → used s < to_ℕ q.requests
      → ((run_overlapping counters cal user_id q (some (used s)) clocks s').0 ≡ length clocks)
        × (used (run_overlapping counters cal user_id q (some (used s)) clocks s').1
            ≡ used s' + length clocks)
  unfolding run_overlapping
  run_overlapping_lem [] s s' all left = (refl, omega arith)
  run_overlapping_lem (clock ∷ clocks) s s' (e, all) left =
      let (one, next) = decide_passes clock (used s) s' e (ground (arith, left)) in
      let later = (decide_user_quota counters cal clock user_id q (some (used s)) s').1 in
      let (rest, total) = run_overlapping_lem clocks s later all left in
      let counted : used later ≡ suc (used s') =
        ap used next ∙ good.counts (append_text "user:" user_id) key s' in
      (ground (arith, one, rest), ground (arith, total, counted))
