-- ===== src/Jobs/Steps.antt =====
-- What the steps of Cleanup in internal/jobs/cleanup.go keep and bring about.
use mathlib.Core.Path.{subst}
use serpent_seek.Prelude.{
  refl, ℕ, ℤ, is_positive, to_ℕ, String, ◌≡◌, ap, inl, inr, true, Option, none, some, arith,
  Bool-cases, Option-cases,
}
use serpent_seek.Jobs.Cleanup.{Deletions, Retention, Today, CleanupReport, prune, cleanup}

-- a step of the clean-up that keeps what holds of the state
abbrev pub Keeps : {S : Type 0} → (S → Type 0) → (S → Option (ℕ × S)) → Type 0
Keeps {S = S} P step = (n : ℕ) (s s' : S) → step s ≡ some (n, s') → P s → P s'

pub prune-Keeps :
    {S : Type 0} (P : S → Type 0) (days : ℤ) (cutoff : ℕ → String)
    (delete_rows : String → S → Option (ℕ × S))
    → (is_positive days ≡ true → Keeps P (delete_rows (cutoff (to_ℕ days))))
    → Keeps P (prune days cutoff delete_rows)
unfolding prune
prune-Keeps P days cutoff delete_rows step n s s' e good = elim (Bool-cases (is_positive days)) [
  | inl some_days ↦ step some_days n s s' (rw some_days at e) good
  | inr no_days ↦
      let same : s ≡ s' = ap (λ o. elim o [ none ↦ s | some (k, t) ↦ t ]) (rw no_days at e) in
      subst P same good
]

module _ {S : Type 0} (store : Deletions S) (keeps : Retention) (today : Today) (P : S → Type 0)
    (requests : Keeps P (prune keeps.history_days today.moment_before store.delete_old_requests))
    (logs : Keeps P (prune keeps.log_days today.moment_before store.delete_old_logs))
    (sessions : Keeps P (store.delete_expired_sessions today.now_text))
    (usage : Keeps P (prune keeps.usage_days today.day_before store.delete_old_usage))
    (hits : Keeps P (prune keeps.usage_days today.moment_before store.delete_old_rolling_hits))
    (audit : Keeps P (prune keeps.audit_days today.moment_before store.delete_old_audit))
    (stats : (t : String) (s : S) → P s → P (store.recompute_daily_stats t s)) where
  -- what every step keeps, the clean-up keeps
  pub cleanup_keeps : (s : S) → P s → P (cleanup store keeps today s).1
  unfolding cleanup
  cleanup_keeps s0 p0 =
      elim (Option-cases
        (prune keeps.history_days today.moment_before store.delete_old_requests s0)) [
          | inl e ↦ rw (e, cleanup) p0
          | inr ((n1, s1), e1) ↦
              let p1 = requests n1 s0 s1 e1 p0 in
              elim (Option-cases
                (prune keeps.log_days today.moment_before store.delete_old_logs s1)) [
                  | inl e ↦ rw (e1, e, cleanup) p1
                  | inr ((n2, s2), e2) ↦
                      let p2 = logs n2 s1 s2 e2 p1 in
                      elim (Option-cases (store.delete_expired_sessions today.now_text s2)) [
                        | inl e ↦ rw (e1, e2, e, cleanup) p2
                        | inr ((n3, s3), e3) ↦
                            let p3 = sessions n3 s2 s3 e3 p2 in
                            elim (Option-cases
                              (prune keeps.usage_days today.day_before store.delete_old_usage s3)) [
                                | inl e ↦ rw (e1, e2, e3, e, cleanup) p3
                                | inr ((n4, s4), e4) ↦
                                    let p4 = usage n4 s3 s4 e4 p3 in
                                    elim (Option-cases (
                                      prune keeps.usage_days today.moment_before
                                        store.delete_old_rolling_hits s4)) [
                                          | inl e ↦ rw (e1, e2, e3, e4, e, cleanup) p4
                                          | inr ((n5, s5), e5) ↦
                                              let p5 = hits n5 s4 s5 e5 p4 in
                                              elim (Option-cases (
                                                prune keeps.audit_days today.moment_before
                                                  store.delete_old_audit s5)) [
                                                    | inl e ↦ rw (e1, e2, e3, e4, e5, e, cleanup) p5
                                                    | inr ((n6, s6), e6) ↦
                                                        rw (e1, e2, e3, e4, e5, e6, cleanup)
                                                          (stats _ _
                                                            (stats _ _ (audit n6 s5 s6 e6 p5)))
                                                  ]
                                        ]
                              ]
                      ]
                ]
        ]

module _ {S : Type 0} (store : Deletions S) (keeps : Retention) (today : Today) (P : S → Type 0)
    (usage : (n : ℕ) (s s' : S)
      → prune keeps.usage_days today.day_before store.delete_old_usage s ≡ some (n, s')
      → P s')
    (hits : Keeps P (prune keeps.usage_days today.moment_before store.delete_old_rolling_hits))
    (audit : Keeps P (prune keeps.audit_days today.moment_before store.delete_old_audit))
    (stats : (t : String) (s : S) → P s → P (store.recompute_daily_stats t s)) where
  -- what the deletion of usage brings about, and the later steps keep, holds when the clean-up has succeeded
  pub cleanup_brings :
      (report : CleanupReport) (s : S)
      → (cleanup store keeps today s).0 ≡ some report
      → P (cleanup store keeps today s).1
  unfolding cleanup
  cleanup_brings report s0 h =
      elim (Option-cases
        (prune keeps.history_days today.moment_before store.delete_old_requests s0)) [
          | inl e ↦ absurd (ground (arith, (rw (e, cleanup) at h)))
          | inr ((n1, s1), e1) ↦
              elim (Option-cases
                (prune keeps.log_days today.moment_before store.delete_old_logs s1)) [
                  | inl e ↦ absurd (ground (arith, (rw (e1, e, cleanup) at h)))
                  | inr ((n2, s2), e2) ↦
                      elim (Option-cases (store.delete_expired_sessions today.now_text s2)) [
                        | inl e ↦ absurd (ground (arith, (rw (e1, e2, e, cleanup) at h)))
                        | inr ((n3, s3), e3) ↦
                            elim (Option-cases
                              (prune keeps.usage_days today.day_before store.delete_old_usage s3)) [
                                | inl e ↦
                                    absurd (ground (arith, (rw (e1, e2, e3, e, cleanup) at h)))
                                | inr ((n4, s4), e4) ↦
                                    let p4 = usage n4 s3 s4 e4 in
                                    elim (Option-cases (
                                      prune keeps.usage_days today.moment_before
                                        store.delete_old_rolling_hits s4)) [
                                          | inl e ↦ rw (e1, e2, e3, e4, e, cleanup) p4
                                          | inr ((n5, s5), e5) ↦
                                              let p5 = hits n5 s4 s5 e5 p4 in
                                              elim (Option-cases (
                                                prune keeps.audit_days today.moment_before
                                                  store.delete_old_audit s5)) [
                                                    | inl e ↦ rw (e1, e2, e3, e4, e5, e, cleanup) p5
                                                    | inr ((n6, s6), e6) ↦
                                                        rw (e1, e2, e3, e4, e5, e6, cleanup)
                                                          (stats _ _
                                                            (stats _ _ (audit n6 s5 s6 e6 p5)))
                                                  ]
                                        ]
                              ]
                      ]
                ]
        ]

pub prune_positive :
    {S : Type 0} (days : ℤ) (cutoff : ℕ → String) (delete_rows : String → S → Option (ℕ × S))
    (s : S)
    → is_positive days ≡ true
    → prune days cutoff delete_rows s ≡ delete_rows (cutoff (to_ℕ days)) s
unfolding prune
prune_positive days cutoff delete_rows s on = rw on refl
