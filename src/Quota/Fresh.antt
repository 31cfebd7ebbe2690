-- ===== src/Quota/Fresh.antt =====
-- What the cache of quotas in internal/httpd/quotas.go answers, over a store that changes with time.
use serpent_seek.Prelude.{
  ℕ, ◌+◌, ◌≤◌, ◌<◌, is_positive, String, ◌≡◌, refl, ap, sym, ◌∙◌, inl, inr, false, Option, none,
  some, [], Dict, lookup, ltb, ◌==◌, if◌then◌else◌, arith, or_else, lookup-insert, Bool-cases,
  Option-cases, eq_of_test,
}
use serpent_seek.Quota.{
  UserQuota, Found, found, not_found, unreachable, CacheEntry, cache_ttl, put, fetch, get,
}

-- what an answer of the store allows: no quota for an unlimited user, and for one that cannot be read
unfoldable pub allowance : Found → Option UserQuota
allowance (found q) = if is_positive q.requests then some q else none
allowance not_found = none
allowance unreachable = none

-- every entry says what the store said at most `lag` before it was made
pub IsFresh : (ℕ → String → Found) → ℕ → ℕ → Dict CacheEntry → Type 0
IsFresh stored lag now entries =
    (user_id : String) (e : CacheEntry)
    → lookup user_id entries ≡ some e
    → (e.fetched ≤ now)
      × ((t : ℕ) × (t ≤ e.fetched)
          × (e.fetched ≤ t + lag)
          × (e.quota ≡ allowance (stored t user_id)))

module _ (stored : ℕ → String → Found) (lag : ℕ) where
  put-IsFresh :
      (user_id : String) (read now : ℕ) (entries : Dict CacheEntry) (q : Option UserQuota)
      → read ≤ now
      → now ≤ read + lag
      → IsFresh stored lag now entries
      → q ≡ allowance (stored read user_id)
      → IsFresh stored lag now (put user_id q now entries)
  unfolding put IsFresh
  put-IsFresh user_id read now entries q past soon fresh said other e at_other =
      let put_lem = lookup-insert user_id other (record { quota = q; fetched = now }) entries in
      elim (Bool-cases (user_id == other)) [
        | inl own ↦
            let here : some e ≡ some (record { quota = q; fetched = now }) =
              sym at_other ∙ put_lem ∙ (simp own) in
            let entry : e ≡ record { quota = q; fetched = now } = ap (λ o. or_else o e) here in
            let same = eq_of_test user_id other own in
            let at : e.fetched ≡ now = ap (λ x. x.fetched) entry in
            (
              ground (arith, at),
              (
                read,
                ground (arith, at, past),
                ground (arith, at, soon),
                ap (λ x. x.quota) entry ∙ said ∙ (λ i. allowance (stored read (same i))),
              ),
            )
        | inr apart ↦ fresh other e (sym (put_lem ∙ (simp apart)) ∙ at_other)
      ]

  pub IsFresh-empty : (now : ℕ) → IsFresh stored lag now []
  unfolding IsFresh lookup
  IsFresh-empty now user_id e at = absurd (ground (arith, at))

  later-IsFresh :
      (before now : ℕ) (entries : Dict CacheEntry)
      → before ≤ now
      → IsFresh stored lag before entries
      → IsFresh stored lag now entries
  unfolding IsFresh
  later-IsFresh before now entries le fresh user_id e at =
      let (fetched, said) = fresh user_id e at in (omega (arith, le, fetched), said)

  -- what the end of `get` answers is the store's answer, and the entries stay true
  answer-IsFresh :
      (user_id : String) (read now : ℕ) (entries : Dict CacheEntry) (answer : Found)
      → read ≤ now
      → now ≤ read + lag
      → stored read user_id ≡ answer
      → IsFresh stored lag now entries
      → IsFresh stored lag now (fetch (stored read) user_id now entries).1
        × ((fetch (stored read) user_id now entries).0 ≡ allowance (stored read user_id))
  unfolding fetch allowance
  answer-IsFresh user_id read now entries unreachable past soon said fresh =
      let whole : fetch (stored read) user_id now entries ≡ (none, entries) =
        rw (said, fetch) refl in
      rw whole (fresh, rw said refl)
  answer-IsFresh user_id read now entries not_found past soon said fresh =
      let whole : fetch (stored read) user_id now entries ≡ (none, put user_id none now entries) =
        rw (said, fetch) refl in
      rw whole
        (put-IsFresh user_id read now entries none past soon fresh (rw said refl), rw said refl)
  answer-IsFresh user_id read now entries (found q) past soon said fresh =
      elim (Bool-cases (is_positive q.requests)) [
        | inl limited ↦
            let whole : fetch (stored read) user_id now entries
                ≡ (some q, put user_id (some q) now entries) =
              rw (said, fetch, limited) refl in
            let kept : some q ≡ allowance (stored read user_id) = rw (said, limited) refl in
            rw whole (put-IsFresh user_id read now entries (some q) past soon fresh kept, kept)
        | inr unlimited ↦
            let whole : fetch (stored read) user_id now entries
                ≡ (none, put user_id none now entries) =
              rw (said, fetch, unlimited) refl in
            let kept : none ≡ allowance (stored read user_id) = rw (said, unlimited) refl in
            rw whole (put-IsFresh user_id read now entries none past soon fresh kept, kept)
      ]

  -- On entries that are true of a store whose answers take a bounded time: the quota that `get` gives for a user is the
  -- one that the store gave at some moment in the five seconds and this time up to the answer's moment, no
  -- quota for a store that could not be read, and the entries afterwards are true of the store again.
  pub get-IsFresh :
      (user_id : String) (before now read answered : ℕ) (entries : Dict CacheEntry)
      → before ≤ now
      → now ≤ read
      → read ≤ answered
      → answered ≤ now + lag
      → (user_id == "") ≡ false
      → IsFresh stored lag before entries
      → IsFresh stored lag answered (get (stored read) user_id now answered entries).1
        × ((t : ℕ) × (t ≤ answered)
            × (now < t + cache_ttl + lag)
            × ((get (stored read) user_id now answered entries).0 ≡ allowance (stored t user_id)))
  unfolding get IsFresh
  get-IsFresh user_id before now read answered entries le begun past soon named fresh =
      let true_then = later-IsFresh before answered entries (omega arith) fresh in
      let (after, said) =
        answer-IsFresh user_id read answered entries (stored read user_id) past (omega arith) refl
          true_then in
      elim (Option-cases (lookup user_id entries)) [
        | inl missing ↦ rw (named, missing) (after, (read, past, omega arith, said))
        | inr (e, at) ↦
            let (fetched, (t, known, close, entry)) = true_then user_id e at in
            elim (Bool-cases (ltb now (e.fetched + cache_ttl))) [
              | inl young ↦
                  rw (named, at, young)
                    (true_then, (t, omega arith, ground (arith, young, close), entry))
              | inr old ↦ rw (named, at, old) (after, (read, past, omega arith, said))
            ]
      ]
