-- ===== src/Hub/Clients.antt =====
-- Subscribe, the function it returns, and Clients of internal/sse/hub.go: the sets of subscribers.
use mathlib.Core.Path.{subst}
use serpent_seek.Prelude.{
  ℕ, suc, ◌+◌, ◌<◌, ℤ, String, ◌≡◌, refl, sym, ◌∙◌, ◌⊎◌, inl, inr, Bool, true, not, List, [], ◌∷◌,
  ◌++◌, Dict, lookup, insert, delete, length, get_elem?, eqb, In, ◌==◌, if◌then◌else◌, arith,
  Bool-cases, Option-cases, In-append, In-keep, get_elem?-concat, lt_of_get_elem?, keep,
  length-append,
}
use serpent_seek.Hub.{
  Channel, Hub, subscribers_of, new_channel, subscribe, unsubscribe, without, store_set, clients,
}
use serpent_seek.Hub.Delivery.{IsDistinct, all_subscribers, is_open, IsLive, In-subscribers_of}

clients_lem : (subs : Dict (List ℕ)) → clients subs ≡ length (all_subscribers subs)
unfolding clients
clients_lem [] = refl
clients_lem ((key, own) ∷ subs) =
    omega (arith, clients_lem subs, length-append own (all_subscribers subs))

IsDistinct-append :
    (is js : List ℕ)
    → IsDistinct is
    → IsDistinct js
    → ((i : ℕ) → In i is → ¬ In i js)
    → IsDistinct (is ++ js)
IsDistinct-append [] js d e apart = e
IsDistinct-append (i ∷ is) js (fresh, d) e apart = (
  λ m. elim ((In-append i is js).0 m) [ inl a ↦ fresh a | inr b ↦ apart i (inl refl) b ],
  IsDistinct-append is js d e (λ k m. apart k (inr m)),
)

IsDistinct-parts :
    (is js : List ℕ)
    → IsDistinct (is ++ js)
    → IsDistinct is × IsDistinct js × ((i : ℕ) → In i is → ¬ In i js)
IsDistinct-parts [] js d = (tt, d, λ i m. absurd m)
IsDistinct-parts (i ∷ is) js (fresh, d) =
    let (a, b, apart) = IsDistinct-parts is js d in
    (
      (λ m. fresh ((In-append i is js).1 (inl m)), a),
      b,
      λ k m n. elim m [
        | inl here ↦ fresh ((In-append i is js).1 (inr (subst (λ x. In x js) here n)))
        | inr later ↦ apart k later n
      ],
    )

IsDistinct-keep : (p : ℕ → Bool) (is : List ℕ) → IsDistinct is → IsDistinct (keep p is)
IsDistinct-keep p [] d = tt
IsDistinct-keep p (i ∷ is) (fresh, d) = elim (Bool-cases (p i)) [
  | inl stays ↦ rw stays (λ m. fresh ((In-keep p i is m).0), IsDistinct-keep p is d)
  | inr leaves ↦ rw leaves (IsDistinct-keep p is d)
]

IsDistinct-subscribers_of :
    (key : String) (subs : Dict (List ℕ))
    → IsDistinct (all_subscribers subs)
    → IsDistinct (subscribers_of key subs)
unfolding subscribers_of lookup
IsDistinct-subscribers_of key [] d = tt
IsDistinct-subscribers_of key ((own, is) ∷ subs) d =
    let (di, ds, apart) = IsDistinct-parts is (all_subscribers subs) d in
    ground (arith, di, IsDistinct-subscribers_of key subs ds)

-- the subscribers after the set of a key is stored
In-insert :
    (i : ℕ) (key : String) (new : List ℕ) (subs : Dict (List ℕ))
    → In i (all_subscribers (insert key new subs))
    → In i new ⊎ In i (all_subscribers subs)
unfolding insert
In-insert i key new [] m = ground (arith, In-append i new [], m)
In-insert i key new ((own, is) ∷ subs) m =
    let rest = In-insert i key new subs in
    ground (
      arith,
      m,
      rest,
      In-append i is (all_subscribers subs),
      In-append i new (all_subscribers subs),
      In-append i is (all_subscribers (insert key new subs)),
    )

In-delete :
    (i : ℕ) (key : String) (subs : Dict (List ℕ))
    → In i (all_subscribers (delete key subs))
    → In i (all_subscribers subs)
unfolding delete
In-delete i key [] m = m
In-delete i key ((own, is) ∷ subs) m = ground (
  arith,
  m,
  In-delete i key subs,
  In-append i is (all_subscribers subs),
  In-append i is (all_subscribers (delete key subs)),
)

-- members of the new set come from the old one or are subscribed nowhere
abbrev IsReplaced : List ℕ → List ℕ → Dict (List ℕ) → Type 0
IsReplaced new old subs = (i : ℕ) → In i new → In i old ⊎ (¬ In i (all_subscribers subs))

insert-IsDistinct :
    (key : String) (new : List ℕ) (subs : Dict (List ℕ))
    → IsDistinct new
    → IsReplaced new (subscribers_of key subs) subs
    → IsDistinct (all_subscribers subs)
    → IsDistinct (all_subscribers (insert key new subs))
unfolding insert subscribers_of lookup
insert-IsDistinct key new [] dn from d = IsDistinct-append new [] dn tt (λ i m n. n)
insert-IsDistinct key new ((own, is) ∷ subs) dn from d =
    let (di, ds, apart) = IsDistinct-parts is (all_subscribers subs) d in
    elim (Bool-cases (own == key)) [
      | inl here ↦
          let from_it : (i : ℕ) → In i new → In i is ⊎ (¬ In i (is ++ all_subscribers subs)) =
            λ i m. rw (here, lookup) at (from i m) in
          rw here (
            IsDistinct-append new (all_subscribers subs) dn ds (λ i m n. elim (from_it i m) [
              | inl old ↦ apart i old n
              | inr nowhere ↦ nowhere ((In-append i is (all_subscribers subs)).1 (inr n))
            ]))
      | inr other ↦
          let from_it : (i : ℕ)
              → In i new
              → In i (subscribers_of key subs) ⊎ (¬ In i (is ++ all_subscribers subs)) =
            λ i m. rw (other, lookup) at (from i m) in
          let rest =
            insert-IsDistinct key new subs dn
              (λ i m. elim (from_it i m) [
                | inl old ↦ inl old
                | inr nowhere ↦
                    inr (λ n. nowhere ((In-append i is (all_subscribers subs)).1 (inr n)))
              ])
              ds in
          rw other (
            IsDistinct-append is (all_subscribers (insert key new subs)) di rest (λ i m n.
              elim (In-insert i key new subs n) [
                | inr later ↦ apart i m later
                | inl added ↦ elim (from_it i added) [
                  | inl old ↦ apart i m (In-subscribers_of i key subs old)
                  | inr nowhere ↦ nowhere ((In-append i is (all_subscribers subs)).1 (inl m))
                ]
              ]))
    ]

delete-IsDistinct :
    (key : String) (subs : Dict (List ℕ))
    → IsDistinct (all_subscribers subs)
    → IsDistinct (all_subscribers (delete key subs))
unfolding delete
delete-IsDistinct key [] d = d
delete-IsDistinct key ((own, is) ∷ subs) d =
    let (di, ds, apart) = IsDistinct-parts is (all_subscribers subs) d in
    let rest = delete-IsDistinct key subs ds in
    elim (Bool-cases (own == key)) [
      | inl here ↦ rw here rest
      | inr other ↦ rw other (
          IsDistinct-append is (all_subscribers (delete key subs)) di rest
            (λ i m n. apart i m (In-delete i key subs n)))
    ]

-- the number of subscribers, with those of one key counted again
clients-insert :
    (key : String) (new : List ℕ) (subs : Dict (List ℕ))
    → clients (insert key new subs) + length (subscribers_of key subs) ≡ clients subs + length new
unfolding clients insert subscribers_of lookup
clients-insert key new [] = omega arith
clients-insert key new ((own, is) ∷ subs) = ground (arith, clients-insert key new subs)

-- The ids of the subscribers are positions of open channels, so a new one is not subscribed yet.
below : (h : Hub) (i : ℕ) → IsLive h → In i (all_subscribers h.subs) → i < length h.channels
below h i live m = elim (Option-cases (get_elem? h.channels i)) [
  | inl missing ↦ let seen = live.all_open i m in absurd (ground (arith, seen, missing))
  | inr (c, at_i) ↦ lt_of_get_elem? h.channels i c at_i
]

fresh_channel :
    (channels : List Channel) (i : ℕ)
    → is_open (channels ++ new_channel ∷ []) i
      ≡ (if eqb i (length channels) then true else is_open channels i)
fresh_channel channels i = ground (arith, get_elem?-concat channels new_channel i)

-- Subscribe gives the new subscriber an open channel that no other has, and adds one to Clients.
pub subscribe-IsLive :
    (key : String) (last_id : ℤ) (h : Hub)
    → IsLive h
    → IsLive (subscribe key last_id h).2
      × (clients (subscribe key last_id h).2.subs ≡ suc (clients h.subs))
unfolding subscribe
subscribe-IsLive key last_id h live =
    let sub = length h.channels in
    let old = subscribers_of key h.subs in
    let unused : ¬ In sub (all_subscribers h.subs) =
      λ m. absurd (omega (arith, below h sub live m)) in
    let ds = IsDistinct-subscribers_of key h.subs live.distinct in
    (
      record {
        distinct =
            insert-IsDistinct key (sub ∷ old) h.subs
              (λ m. unused (In-subscribers_of sub key h.subs m), ds)
              (λ i m. elim m [
                | inl e ↦ inr (subst (λ x. ¬ In x (all_subscribers h.subs)) (sym e) unused)
                | inr n ↦ inl n
              ])
              live.distinct;
        all_open = λ i m. elim (In-insert i key (sub ∷ old) h.subs m) [
          | inl (inl here) ↦ fresh_channel h.channels i ∙ ground (arith, here)
          | inl (inr n) ↦
              let seen = live.all_open i (In-subscribers_of i key h.subs n) in
              fresh_channel h.channels i ∙ ground (arith, seen)
          | inr n ↦
              let seen = live.all_open i n in fresh_channel h.channels i ∙ ground (arith, seen)
        ];
      },
      omega (arith, clients-insert key (sub ∷ old) h.subs),
    )

In-store_set :
    (i : ℕ) (key : String) (new : List ℕ) (subs : Dict (List ℕ))
    → In i (all_subscribers (store_set key new subs))
    → In i new ⊎ In i (all_subscribers subs)
unfolding store_set
In-store_set i key [] subs m = inr (In-delete i key subs m)
In-store_set i key (j ∷ new) subs m = In-insert i key (j ∷ new) subs m

store_set-IsDistinct :
    (key : String) (new : List ℕ) (subs : Dict (List ℕ))
    → IsDistinct new
    → ((i : ℕ) → In i new → In i (subscribers_of key subs))
    → IsDistinct (all_subscribers subs)
    → IsDistinct (all_subscribers (store_set key new subs))
unfolding store_set
store_set-IsDistinct key [] subs dn from d = delete-IsDistinct key subs d
store_set-IsDistinct key (j ∷ new) subs dn from d =
    insert-IsDistinct key (j ∷ new) subs dn (λ i m. inl (from i m)) d

-- The function that Subscribe returns leaves the hub as live as it was.
pub unsubscribe-IsLive :
    (key : String) (sub : ℕ) (h : Hub) → IsLive h → IsLive (unsubscribe key sub h)
unfolding unsubscribe without subscribers_of
unsubscribe-IsLive key sub h live = elim (Option-cases (lookup key h.subs)) [
  | inl nobody ↦ rw (nobody, unsubscribe) live
  | inr (old, found) ↦
      let new = keep (λ other. not (eqb other sub)) old in
      let own : subscribers_of key h.subs ≡ old = rw (found, subscribers_of) refl in
      let d = subst IsDistinct own (IsDistinct-subscribers_of key h.subs live.distinct) in
      let from : (i : ℕ) → In i new → In i (subscribers_of key h.subs) =
        λ i m. subst (λ x. In i x) (sym own) ((In-keep (λ other. not (eqb other sub)) i old m).0) in
      rw (found, unsubscribe)
        (record {
          distinct =
              store_set-IsDistinct key new h.subs
                (IsDistinct-keep (λ other. not (eqb other sub)) old d) from live.distinct;
          all_open = λ i m. elim (In-store_set i key new h.subs m) [
            | inl n ↦ live.all_open i (In-subscribers_of i key h.subs (from i n))
            | inr n ↦ live.all_open i n
          ];
        })
]
