-- ===== src/Jobs/Tests.antt =====
-- One job that fails, and the counter of a week.
use Prim.Native.Nat.{◌/◌}
use serpent_seek.Prelude.{
  ◌≤◌, zero, suc, String, ap, sym, ◌∙◌, inr, Option, none, List, pos, ℕ, ◌+◌, ◌*◌, ◌≡◌, refl, inl,
  false, some, [], ◌∷◌, In, lookup, insert, arith, ◌==◌,
}
use serpent_seek.Jobs.Registry.{
  Handler, Manager, new_manager, register, run_now, status, status-run_now,
}
use serpent_seek.Jobs.Cleanup.{
  Deletions, Retention, Today, CleanupReport, UsageRow, prune, cleanup, delete_usage_before,
  days_before,
}
use serpent_seek.Jobs.Retention.{IsUsageStore, cleanup-In, cleanup_prunes}
use serpent_seek.Quota.{period_start, week_back, Calendar}

abbrev fails : Handler ℕ
fails n = (some "database is locked", n)

abbrev jobs : Manager ℕ
jobs = register "cleanup" fails new_manager

status-run_now_example :
    (lookup "cleanup" (status (run_now "cleanup" 7 jobs 0).1)
      ≡ some (record { last_error = "database is locked"; last_run = some 7 }))
    × (("cleanup" == "vacuum") ≡ false
        → lookup "vacuum" (status (run_now "cleanup" 7 jobs 0).1) ≡ lookup "vacuum" (status jobs))
unfolding register insert lookup
status-run_now_example = status-run_now "cleanup" "vacuum" 7 fails jobs 0 refl

abbrev thirties : Calendar
thirties = record {
  date = λ d. "day";
  month_start = λ d. d / 30 * 30;
  next_month = λ d. d / 30 * 30 + 30;
}

abbrev week_row : UsageRow
week_row = record { subject = "user:u1"; start = 39; period = "weekly"; count = 4 }

-- the text of a day, as many letters as its number
day_text : ℕ → String
day_text zero = ""
day_text (suc n) = String.◌∷◌ "a" (day_text n)

abbrev day_of_text : String → ℕ
day_of_text String.[] = 0
day_of_text (String.◌∷◌ c s) = suc (day_of_text s)

day_of_text-day_text : (n : ℕ) → day_of_text (day_text n) ≡ n
unfolding day_text
day_of_text-day_text zero = refl
day_of_text-day_text (suc n) = ap suc (day_of_text-day_text n)

-- a store that holds usage rows only
abbrev usage_store : Deletions (List UsageRow)
usage_store = record {
  delete_old_requests = λ t s. some (0, s);
  delete_old_logs = λ t s. some (0, s);
  delete_expired_sessions = λ t s. some (0, s);
  delete_old_usage = λ t s. some (1, delete_usage_before (day_of_text t) s);
  delete_old_rolling_hits = λ t s. some (0, s);
  delete_old_audit = λ t s. some (0, s);
  recompute_daily_stats = λ t s. s;
}

second :
    {S : Type 0} (d n : ℕ) (s s' : S)
    → ◌≡◌ {A = Option (ℕ × S)} (some (d, s)) (some (n, s'))
    → s' ≡ s
second d n s s' e = sym (ap (λ o. elim o [ none ↦ s | some (k, t) ↦ t ]) e)

usage_store-IsUsageStore : IsUsageStore usage_store (λ s. s) day_text
usage_store-IsUsageStore = record {
  deletes = λ day n s s' e.
      second 1 n _ s' e ∙ ap (λ d. delete_usage_before d s) (day_of_text-day_text day);
  requests = λ t n s s' e. second 0 n s s' e;
  logs = λ t n s s' e. second 0 n s s' e;
  sessions = λ t n s s' e. second 0 n s s' e;
  hits = λ t n s s' e. second 0 n s s' e;
  audit = λ t n s s' e. second 0 n s s' e;
  stats = λ t s. refl;
}

abbrev a_month : Retention
a_month = record { history_days = pos 0; log_days = pos 7; usage_days = pos 31; audit_days = pos 1 }

abbrev today : Today
today = record {
  now_text = "now";
  moment_before = λ n. "before";
  day_before = λ n. day_text (days_before 42 n);
}

cleanup-In_example : In week_row (cleanup usage_store a_month today (week_row ∷ [])).1
unfolding period_start week_back
cleanup-In_example =
    cleanup-In usage_store (λ s. s) day_text a_month today thirties week_row (week_row ∷ []) 42 42
      usage_store-IsUsageStore (λ n. refl) (λ day. omega arith) (omega arith) (inl refl) refl
      (inr (omega arith))

abbrev one_row : CleanupReport
one_row = record { requests = 0; logs = 0; sessions = 0; usage = 1; rolling_hits = 0; audit = 0 }

cleanup_prunes_example : 42 ≤ 39 + 31
unfolding cleanup prune delete_usage_before days_before day_text
cleanup_prunes_example =
    cleanup_prunes usage_store (λ s. s) day_text a_month today one_row week_row (week_row ∷ []) 42
      usage_store-IsUsageStore (λ n. refl) refl refl (inl refl)
