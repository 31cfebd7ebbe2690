-- ===== src/Jobs/Cleanup.antt =====
-- Cleanup of internal/jobs/cleanup.go, and DeleteOldUsage of internal/store/sqlstore/sqlstore.go over the
-- rows of usage counters. The time taken is not measured.
use serpent_seek.Prelude.{
  ℕ, ◌-◌, ℤ, is_positive, to_ℕ, String, not, Option, none, some, List, keep, ltb, if◌then◌else◌,
}

-- the retention settings, in days
pub record Retention : Type 0 where
  pub history_days : ℤ
  pub log_days : ℤ
  pub usage_days : ℤ
  pub audit_days : ℤ

-- the moment of the clean-up: texts of it and of the days before it
pub record Today : Type 0 where
  -- Format(time.RFC3339Nano) of now and of now.AddDate(0, 0, -n)
  pub now_text : String
  pub moment_before : ℕ → String
  -- Format("2006-01-02") of now.AddDate(0, 0, -n)
  pub day_before : ℕ → String

-- the store's deletions; none stands for an error
pub record Deletions (S : Type 0) : Type 0 where
  pub delete_old_requests : String → S → Option (ℕ × S)
  pub delete_old_logs : String → S → Option (ℕ × S)
  pub delete_expired_sessions : String → S → Option (ℕ × S)
  pub delete_old_usage : String → S → Option (ℕ × S)
  pub delete_old_rolling_hits : String → S → Option (ℕ × S)
  pub delete_old_audit : String → S → Option (ℕ × S)
  pub recompute_daily_stats : String → S → S

pub record CleanupReport : Type 0 where
  pub requests : ℕ
  pub logs : ℕ
  pub sessions : ℕ
  pub usage : ℕ
  pub rolling_hits : ℕ
  pub audit : ℕ

-- one deletion, for a positive number of days; a failed one changes nothing
unfoldable pub prune :
    {S : Type 0} → ℤ → (ℕ → String) → (String → S → Option (ℕ × S)) → S → Option (ℕ × S)
prune days cutoff delete_rows s =
    if is_positive days then delete_rows (cutoff (to_ℕ days)) s else some (0, s)

-- the report, none after an error, and the state that the deletions have left
unfoldable pub cleanup :
    {S : Type 0} → Deletions S → Retention → Today → S → Option CleanupReport × S
cleanup store keeps today s0 =
    elim (prune keeps.history_days today.moment_before store.delete_old_requests s0) [
      | none ↦ (none, s0)
      | some (requests, s1) ↦
          elim (prune keeps.log_days today.moment_before store.delete_old_logs s1) [
            | none ↦ (none, s1)
            | some (logs, s2) ↦ elim (store.delete_expired_sessions today.now_text s2) [
              | none ↦ (none, s2)
              | some (sessions, s3) ↦
                  elim (prune keeps.usage_days today.day_before store.delete_old_usage s3) [
                    | none ↦ (none, s3)
                    | some (usage, s4) ↦
                        elim (prune keeps.usage_days today.moment_before
                          store.delete_old_rolling_hits s4) [
                            | none ↦ (none, s4)
                            | some (hits, s5) ↦
                                elim (prune keeps.audit_days today.moment_before
                                  store.delete_old_audit s5) [
                                    | none ↦ (none, s5)
                                    | some (audit, s6) ↦ (
                                      some (record {
                                        requests = requests;
                                        logs = logs;
                                        sessions = sessions;
                                        usage = usage;
                                        rolling_hits = hits;
                                        audit = audit;
                                      }),
                                      store.recompute_daily_stats (today.day_before 1)
                                          (store.recompute_daily_stats (today.day_before 0) s6),
                                    )
                                  ]
                          ]
                  ]
            ]
          ]
    ]

-- a row of usage_daily: the first ten characters of its day name the day `start`
pub record UsageRow : Type 0 where
  pub subject : String
  pub start : ℕ
  pub period : String
  pub count : ℕ

-- DeleteOldUsage; dates of four-digit years are ordered as their days
unfoldable pub delete_usage_before : ℕ → List UsageRow → List UsageRow
delete_usage_before day = keep (λ row. not (ltb row.start day))

-- the day of now.AddDate(0, 0, -n)
unfoldable pub days_before : ℕ → ℕ → ℕ
days_before day n = day - n
