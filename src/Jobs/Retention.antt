-- ===== src/Jobs/Retention.antt =====
-- What the clean-up of internal/jobs/cleanup.go keeps: the counters of the current period of a quota of
-- internal/httpd/quotas.go.
use mathlib.Core.Path.{subst}
use serpent_seek.Prelude.{
  ℕ, ◌+◌, ◌-◌, ◌≤◌, is_positive, to_ℕ, String, ◌≡◌, ap, sym, ◌∙◌, inl, inr, ◌⊎◌, true, false, not,
  some, List, In, ltb, arith, In-keep, In-keep_intro,
}
use serpent_seek.Jobs.Steps.{prune-Keeps, prune_positive, cleanup_keeps, cleanup_brings}
use serpent_seek.Quota.{Calendar, period_start}
use serpent_seek.Quota.Periods.{week_back_lem}
use serpent_seek.Jobs.Cleanup.{
  Deletions, Retention, Today, CleanupReport, UsageRow, cleanup, delete_usage_before, days_before,
}

-- no period of a calendar quota has begun more than thirty days ago
period_start-le :
    (cal : Calendar) (period : String) (d : ℕ)
    → ((day : ℕ) → day ≤ cal.month_start day + 30)
    → d ≤ period_start cal period d + 30
unfolding period_start
period_start-le cal period d months =
    let week = week_back_lem d in let month = months d in ground (arith, week, month)

-- the usage rows of a store: DeleteOldUsage deletes those before the day of its text, and nothing else changes them
pub record IsUsageStore {S : Type 0} (store : Deletions S) (usage : S → List UsageRow)
    (date : ℕ → String) : Type 0 where
  pub deletes :
      (day n : ℕ) (s s' : S)
      → store.delete_old_usage (date day) s ≡ some (n, s')
      → usage s' ≡ delete_usage_before day (usage s)
  pub requests :
      (t : String) (n : ℕ) (s s' : S)
      → store.delete_old_requests t s ≡ some (n, s')
      → usage s' ≡ usage s
  pub logs :
      (t : String) (n : ℕ) (s s' : S)
      → store.delete_old_logs t s ≡ some (n, s')
      → usage s' ≡ usage s
  pub sessions :
      (t : String) (n : ℕ) (s s' : S)
      → store.delete_expired_sessions t s ≡ some (n, s')
      → usage s' ≡ usage s
  pub hits :
      (t : String) (n : ℕ) (s s' : S)
      → store.delete_old_rolling_hits t s ≡ some (n, s')
      → usage s' ≡ usage s
  pub audit :
      (t : String) (n : ℕ) (s s' : S)
      → store.delete_old_audit t s ≡ some (n, s')
      → usage s' ≡ usage s
  pub stats : (t : String) (s : S) → usage (store.recompute_daily_stats t s) ≡ usage s

still_In :
    {S : Type 0} (usage : S → List UsageRow) (row : UsageRow) (s s' : S)
    → usage s' ≡ usage s
    → In row (usage s)
    → In row (usage s')
still_In usage row s s' e here = subst (λ rows. In row rows) (sym e) here

-- The clean-up keeps the counter of the current period of a calendar quota, whether it succeeds or ends with an error, if
-- the retention of usage is turned off by a number of days that is not positive, or is at least 31 days; on a
-- calendar whose months have at most 31 days, and where the UTC day is at most one day ahead of that of the quota.
pub cleanup-In :
    {S : Type 0} (store : Deletions S) (usage : S → List UsageRow) (date : ℕ → String)
    (keeps : Retention) (today : Today) (cal : Calendar) (row : UsageRow) (s : S) (d utc_day : ℕ)
    → IsUsageStore store usage date
    → ((n : ℕ) → today.day_before n ≡ date (days_before utc_day n))
    → ((day : ℕ) → day ≤ cal.month_start day + 30)
    → utc_day ≤ d + 1
    → In row (usage s)
    → row.start ≡ period_start cal row.period d
    → (is_positive keeps.usage_days ≡ false) ⊎ (31 ≤ to_ℕ keeps.usage_days)
    → In row (usage (cleanup store keeps today s).1)
unfolding days_before delete_usage_before
cleanup-In {S = S} store usage date keeps today cal row s d utc_day laws days months ahead listed
      current enough =
    let P : S → Type 0 = λ t. In row (usage t) in
    let long = period_start-le cal row.period d months in
    cleanup_keeps store keeps today P
      (prune-Keeps P _ _ _
        (λ on n t t' e here. still_In usage row t t' (laws.requests _ n t t' e) here))
      (prune-Keeps P _ _ _
        (λ on n t t' e here. still_In usage row t t' (laws.logs _ n t t' e) here))
      (λ n t t' e here. still_In usage row t t' (laws.sessions _ n t t' e) here)
      (prune-Keeps P _ _ _ (λ on n t t' e here.
        let day = utc_day - to_ℕ keeps.usage_days in
        let text = days (to_ℕ keeps.usage_days) in
        let left = laws.deletes day n t t' (ap (λ c. store.delete_old_usage c t) (sym text) ∙ e) in
        let stays : In row (delete_usage_before day (usage t)) = elim enough [
          | inl off ↦ absurd (ground (arith, on, off))
          | inr many ↦
              In-keep_intro (λ r. not (ltb r.start day)) row (usage t) here
                (ground (arith, long, current, ahead, many))
        ] in
        subst (λ rows. In row rows) (sym left) stays))
      (prune-Keeps P _ _ _
        (λ on n t t' e here. still_In usage row t t' (laws.hits _ n t t' e) here))
      (prune-Keeps P _ _ _
        (λ on n t t' e here. still_In usage row t t' (laws.audit _ n t t' e) here))
      (λ text t here.
        still_In usage row t (store.recompute_daily_stats text t) (laws.stats text t) here)
      s listed

-- A clean-up that succeeds, with a positive number of days for usage, leaves no usage row that is older than that
-- many days before the UTC day.
pub cleanup_prunes :
    {S : Type 0} (store : Deletions S) (usage : S → List UsageRow) (date : ℕ → String)
    (keeps : Retention) (today : Today) (report : CleanupReport) (row : UsageRow) (s : S)
    (utc_day : ℕ)
    → IsUsageStore store usage date
    → ((n : ℕ) → today.day_before n ≡ date (days_before utc_day n))
    → is_positive keeps.usage_days ≡ true
    → (cleanup store keeps today s).0 ≡ some report
    → In row (usage (cleanup store keeps today s).1)
    → utc_day ≤ row.start + to_ℕ keeps.usage_days
unfolding days_before delete_usage_before
cleanup_prunes {S = S} store usage date keeps today report row s utc_day laws days on done listed =
    let P : S → Type 0 = λ t. In row (usage t) → utc_day ≤ row.start + to_ℕ keeps.usage_days in
    let moved = λ (t t' : S) (e : usage t' ≡ usage t) (old : P t) (here : In row (usage t')).
      old (still_In usage row t' t (sym e) here) in
    cleanup_brings store keeps today P
      (λ n t t' e here.
        let day = utc_day - to_ℕ keeps.usage_days in
        let text = days (to_ℕ keeps.usage_days) in
        let run =
          sym (prune_positive keeps.usage_days today.day_before store.delete_old_usage t on) ∙ e in
        let left =
          laws.deletes day n t t' (ap (λ c. store.delete_old_usage c t) (sym text) ∙ run) in
        let stays =
          (In-keep (λ r. not (ltb r.start day)) row (usage t)
            (subst (λ rows. In row rows) left here)).1 in
        ground (arith, stays))
      (prune-Keeps P _ _ _ (λ on' n t t' e. moved t t' (laws.hits _ n t t' e)))
      (prune-Keeps P _ _ _ (λ on' n t t' e. moved t t' (laws.audit _ n t t' e)))
      (λ text t. moved t (store.recompute_daily_stats text t) (laws.stats text t)) report s done
      listed
