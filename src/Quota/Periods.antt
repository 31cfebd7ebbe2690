-- ===== src/Quota/Periods.antt =====
-- quotaPeriodKey and quotaResetAt of internal/httpd/quotas.go: the period of a day and its end.
use Prim.Native.Nat.{◌%◌}
use serpent_seek.Prelude.{
  ℕ, ◌+◌, ◌-◌, ◌≤◌, ◌<◌, String, ◌≡◌, ap, inl, inr, ◌↔◌, some, ◌==◌, arith, Bool-cases, or_else,
  ltb,
}
use serpent_seek.Quota.{Calendar, week_back, week_forward, period_start, reset_day}

-- months are intervals of days that follow each other
pub record IsCalendar (cal : Calendar) : Type 0 where
  pub starts : (d : ℕ) → cal.month_start d ≤ d
  pub ends : (d : ℕ) → d < cal.next_month d
  pub whole : (d e : ℕ) → d ≤ e → e < cal.next_month d → cal.month_start e ≡ cal.month_start d
  pub later : (d e : ℕ) → cal.next_month d ≤ e → cal.next_month d ≤ cal.month_start e

pub week_back_lem : (d : ℕ) → week_back d ≡ (d + 3) % 7
unfolding week_back
week_back_lem d = omega arith

week_forward_lem : (d : ℕ) → week_forward d ≡ 7 - (d + 3) % 7
unfolding week_forward
week_forward_lem d = ground (arith, week_back_lem d)

-- a week begins on the same day for two days exactly if the later one is before the next Monday
week_lem :
    (d e : ℕ) → 7 ≤ d → d ≤ e → (e < d + (7 - (d + 3) % 7)) ↔ (e - (e + 3) % 7 ≡ d - (d + 3) % 7)
week_lem d e h le = (λ before. omega arith, λ same. omega arith)

-- In a calendar whose months follow each other, and from the second week of 1970 on: the period of a day
-- ends after the day, and a later day is before that end exactly if it counts on the same period.
pub reset_day_lem :
    (cal : Calendar) (period : String) (d e r : ℕ)
    → IsCalendar cal
    → 7 ≤ d
    → d ≤ e
    → reset_day cal period d ≡ some r
    → (d < r) × ((e < r) ↔ (period_start cal period e ≡ period_start cal period d))
unfolding reset_day period_start
reset_day_lem cal period d e r c h le end = elim (Bool-cases (period == "weekly")) [
  | inl weekly ↦
      let ended : some (d + week_forward d) ≡ some r = rw (weekly, reset_day) at end in
      let end_day : d + week_forward d ≡ r = ap (λ o. or_else o 0) ended in
      let forward = week_forward_lem d in
      let same = week_lem d e h le in
      rw (weekly, week_back_lem e, week_back_lem d)
        (
          omega (arith, end_day, forward),
          (
            λ before. same.0 (omega (arith, end_day, forward)),
            λ s. let early = same.1 s in omega (arith, end_day, forward, early),
          ),
        )
  | inr other ↦ elim (Bool-cases (period == "monthly")) [
    | inl monthly ↦
        let ended : some (cal.next_month d) ≡ some r = rw (other, monthly, reset_day) at end in
        let end_day : cal.next_month d ≡ r = ap (λ o. or_else o 0) ended in
        let after = c.ends d in
        let here = c.starts d in
        rw (other, monthly)
          (
            omega (arith, end_day, after),
            (
              λ before. c.whole d e le (omega (arith, end_day)),
              λ s. elim (Bool-cases (ltb e r)) [
                | inl early ↦ ground (arith, early)
                | inr late ↦
                    let next = c.later d e (ground (arith, late, end_day)) in
                    absurd (omega (arith, next, s, here, after))
              ],
            ),
          )
    | inr rest ↦ elim (Bool-cases (period == "rolling")) [
      | inl rolling ↦ absurd (ground (arith, end, other, rest, rolling))
      | inr daily ↦
          let ended : some (d + 1) ≡ some r = rw (other, rest, daily, reset_day) at end in
          let end_day : d + 1 ≡ r = ap (λ o. or_else o 0) ended in
          rw (other, rest)
            (
              omega (arith, end_day),
              (λ before. omega (arith, end_day), λ s. omega (arith, end_day, s)),
            )
    ]
  ]
]
