-- ===== src/Jobs/Registry.antt =====
-- internal/jobs/jobs.go: Register, RunNow and Status. A job is a function of the state of the store; its
-- error is a text, none for nil.
use serpent_seek.Prelude.{
  ℕ, String, ◌≡◌, refl, ap, sym, ◌∙◌, inl, inr, false, Option, none, some, [], ◌∷◌, Dict, lookup,
  insert, or_else, ◌==◌, lookup-insert, lookup-insert_self, Bool-cases, eq_of_test,
}

abbrev pub Handler : Type 0 → Type 0
Handler S = S → Option String × S

pub record Manager (S : Type 0) : Type 0 where
  pub handlers : Dict (Handler S)
  pub last_run : Dict ℕ
  pub last_err : Dict String

-- what RunNow returns
pub data RunResult : Type 0 where
  unknown_job : RunResult
  failed : String → RunResult
  done : RunResult

-- an entry of Status: the last error and the last run
pub record Entry : Type 0 where
  pub last_error : String
  pub last_run : Option ℕ

unfoldable pub result_of : Option String → RunResult
result_of none = done
result_of (some e) = failed e

module _ {S : Type 0} where
  -- New
  abbrev pub new_manager : Manager S
  new_manager = record { handlers = []; last_run = []; last_err = [] }

  -- Register, without the scheduling
  unfoldable pub register : String → (Handler S) → (Manager S) → (Manager S)
  register name fn m = record m { handlers = insert name fn m.handlers }

  -- RunNow, at a moment
  unfoldable pub run_now : String → ℕ → (Manager S) → S → RunResult × (Manager S) × S
  run_now name now m s = elim (lookup name m.handlers) [
    | none ↦ (unknown_job, m, s)
    | some fn ↦
        let (err, s') = fn s in
        (
          result_of err,
          record m {
            last_run = insert name now m.last_run;
            last_err = insert name (or_else err "") m.last_err;
          },
          s',
        )
  ]

  unfoldable pub entry_of : String → (Manager S) → Entry
  entry_of name m = record {
    last_error = or_else (lookup name m.last_err) "";
    last_run = lookup name m.last_run;
  }

  unfoldable pub entries : Dict (Handler S) → (Manager S) → Dict Entry
  entries [] m = []
  entries ((name, fn) ∷ handlers) m = insert name (entry_of name m) (entries handlers m)

  -- Status
  unfoldable pub status : (Manager S) → Dict Entry
  status m = entries m.handlers m

  lookup-entries :
      (name : String) (handlers : Dict (Handler S)) (m : Manager S)
      → lookup name (entries handlers m)
        ≡ elim (lookup name handlers) [ none ↦ none | some fn ↦ some (entry_of name m) ]
  unfolding entries lookup
  lookup-entries name [] m = refl
  lookup-entries name ((own, fn) ∷ handlers) m =
      let rest = lookup-entries name handlers m in
      elim (Bool-cases (own == name)) [
        | inl here ↦
            rw (here, lookup)
              (lookup-insert own name (entry_of own m) (entries handlers m)
                ∙ rw here (ap (λ n. some (entry_of n m)) (eq_of_test own name here)))
        | inr other ↦
            rw (other, lookup)
              (lookup-insert own name (entry_of own m) (entries handlers m) ∙ rw other rest)
      ]

  same_entry :
      (name other : String) (now : ℕ) (err : Option String) (m : Manager S)
      → (name == other) ≡ false
      → entry_of other (record m {
        last_run = insert name now m.last_run;
        last_err = insert name (or_else err "") m.last_err;
      })
        ≡ entry_of other m
  unfolding entry_of
  same_entry name other now err m apart =
      let run : lookup other (insert name now m.last_run) ≡ lookup other m.last_run =
        lookup-insert name other now m.last_run ∙ (simp apart) in
      let error : lookup other (insert name (or_else err "") m.last_err) ≡ lookup other m.last_err =
        lookup-insert name other (or_else err "") m.last_err ∙ (simp apart) in
      λ i. record { last_error = or_else (error i) ""; last_run = run i }

  -- After a run of a registered job, Status shows its moment and its error for the job, and for every other
  -- job what it showed before.
  pub status-run_now :
      (name other : String) (now : ℕ) (fn : Handler S) (m : Manager S) (s : S)
      → lookup name m.handlers ≡ some fn
      → (lookup name (status (run_now name now m s).1)
          ≡ some (record { last_error = or_else (fn s).0 ""; last_run = some now }))
        × ((name == other) ≡ false
            → lookup other (status (run_now name now m s).1) ≡ lookup other (status m))
  unfolding status run_now entry_of
  status-run_now name other now fn m s known =
      let err = (fn s).0 in
      let after = record m {
        last_run = insert name now m.last_run;
        last_err = insert name (or_else err "") m.last_err;
      } in
      let ran : (run_now name now m s).1 ≡ after = rw (known, run_now) refl in
      (
        ap (λ x. lookup name (entries x.handlers x)) ran
            ∙ lookup-entries name m.handlers after
            ∙ rw
                (
                  known,
                  lookup-insert_self name now m.last_run,
                  lookup-insert_self name (or_else err "") m.last_err,
                )
                refl,
        λ apart.
            ap (λ x. lookup other (entries x.handlers x)) ran
            ∙ lookup-entries other m.handlers after
            ∙ ap (λ e. elim (lookup other m.handlers) [ none ↦ none | some fn ↦ some e ])
                (same_entry name other now err m apart)
            ∙ sym (lookup-entries other m.handlers m),
      )
