-- ===== src/Engine/Limiter/Fair.antt =====
-- semLimiter of internal/engine/engine.go: its slots and their holders, in every state that it reaches.
use mathlib.Core.Path.{subst}
use serpent_seek.Prelude.{
  ℕ, suc, ◌+◌, ◌-◌, ◌≤◌, ℤ, pos, is_positive, to_ℕ, ◌≡◌, refl, ap, sym, ◌∙◌, inl, inr, true, false,
  none, some, List, [], ◌∷◌, ◌++◌, length, get_elem?, set, ltb, eqb, arith, Bool-cases,
  Option-cases, get_elem?-set, get_elem?-concat, lt_of_get_elem?, get_elem?_of_lt, or_else,
  length-append, length-set,
}
use serpent_seek.Engine.Limiter.{
  Slots, SemLimiter, set_limit_locked, new_sem_limiter, same_limit, set_limit, slot, acquire,
  release, count, Step, limits, acquires, releases, Reaches, starts, steps,
}

-- every slot that is taken has its holder, and none beyond the capacity
pub record IsFair (l : SemLimiter) (hs : List ℕ) : Type 0 where
  pub counted : (i : ℕ) (s : Slots) → get_elem? l.made i ≡ some s → s.held ≡ count i hs
  pub within : (i : ℕ) (s : Slots) → get_elem? l.made i ≡ some s → s.held ≤ s.capacity
  pub unknown : (i : ℕ) → length l.made ≤ i → count i hs ≡ 0

count-append : (c : ℕ) (xs ys : List ℕ) → count c (xs ++ ys) ≡ count c xs + count c ys
count-append c [] ys = omega arith
count-append c (x ∷ xs) ys = omega (arith, count-append c xs ys)

same_slots : (s t : Slots) → some s ≡ some t → (s.held ≡ t.held) × (s.capacity ≡ t.capacity)
same_slots s t e = (ap (λ o. (or_else o s).held) e, ap (λ o. (or_else o s).capacity) e)

set_limit_locked-IsFair :
    (limit : ℤ) (l : SemLimiter) (hs : List ℕ) → IsFair l hs → IsFair (set_limit_locked limit l) hs
unfolding set_limit_locked
set_limit_locked-IsFair limit l hs v = elim (Bool-cases (is_positive limit)) [
  | inr off ↦ rw off (record { counted = v.counted; within = v.within; unknown = v.unknown })
  | inl on ↦
      let new : Slots = record { capacity = to_ℕ limit; held = 0 } in
      rw on (record {
        counted = λ i s h. elim (Bool-cases (eqb i (length l.made))) [
          | inl last ↦
              let e : some new ≡ some s = sym (get_elem?-concat l.made new i ∙ (simp last)) ∙ h in
              let here = same_slots new s e in
              let none_yet = v.unknown i (ground (arith, last)) in omega (arith, here.0, none_yet)
          | inr old ↦ v.counted i s (sym (get_elem?-concat l.made new i ∙ (simp old)) ∙ h)
        ];
        within = λ i s h. elim (Bool-cases (eqb i (length l.made))) [
          | inl last ↦
              let e : some new ≡ some s = sym (get_elem?-concat l.made new i ∙ (simp last)) ∙ h in
              let here = same_slots new s e in omega (arith, here.0)
          | inr old ↦ v.within i s (sym (get_elem?-concat l.made new i ∙ (simp old)) ∙ h)
        ];
        unknown = λ i h. v.unknown i (omega (arith, h, length-append l.made (new ∷ [])));
      })
]

-- one channel gets other slots, and its count follows
put-IsFair :
    (c : ℕ) (s t : Slots) (l : SemLimiter) (hs gs : List ℕ)
    → IsFair l hs
    → get_elem? l.made c ≡ some s
    → t.held ≡ count c gs
    → t.held ≤ t.capacity
    → ((i : ℕ) → (eqb i c) ≡ false → count i gs ≡ count i hs)
    → IsFair (record l { made = set l.made c t }) gs
put-IsFair c s t l hs gs v at_c held fits others =
    let low = lt_of_get_elem? l.made c s at_c in
    record {
      counted = λ i u h. elim (Bool-cases (eqb i c)) [
        | inl here ↦
            let e : some t ≡ some u =
              sym (get_elem?-set l.made c i t ∙ ground (arith, here, low)) ∙ h in
            let same = same_slots t u e in
            let at_i : i ≡ c = ground (arith, here) in
            sym same.0 ∙ held ∙ ap (λ x. count x gs) (sym at_i)
        | inr apart ↦
            v.counted i u (sym (get_elem?-set l.made c i t ∙ ground (arith, apart)) ∙ h)
            ∙ sym (others i apart)
      ];
      within = λ i u h. elim (Bool-cases (eqb i c)) [
        | inl here ↦
            let e : some t ≡ some u =
              sym (get_elem?-set l.made c i t ∙ ground (arith, here, low)) ∙ h in
            let same = same_slots t u e in omega (arith, same.0, same.1, fits)
        | inr apart ↦ v.within i u (sym (get_elem?-set l.made c i t ∙ ground (arith, apart)) ∙ h)
      ];
      unknown = λ i h.
          let size = length-set l.made c t in
          let apart : eqb i c ≡ false = ground (arith, low, h, size) in
          others i apart ∙ v.unknown i (omega (arith, h, size));
    }

acquire-IsFair :
    (c : ℕ) (l l' : SemLimiter) (hs : List ℕ)
    → acquire l ≡ slot c l'
    → IsFair l hs
    → IsFair l' (c ∷ hs)
unfolding acquire
acquire-IsFair c l l' hs h v = elim (Option-cases l.ch) [
  | inl unlimited ↦ absurd (ground (arith, h, unlimited))
  | inr (k, e) ↦ elim (Option-cases (get_elem? l.made k)) [
    | inl missing ↦ absurd (ground (arith, h, e, missing))
    | inr (s, at_k) ↦
        let taken : SemLimiter = record l {
          made = set l.made k (record s { held = s.held + 1 });
        } in
        let parts : (ltb s.held s.capacity ≡ true) × (k ≡ c) × (taken ≡ l') =
          ground (arith, h, e, at_k) in
        let before = v.counted k s at_k in
        let room = parts.0 in
        let fair : IsFair taken (k ∷ hs) =
          put-IsFair k s (record s { held = s.held + 1 }) l hs (k ∷ hs) v at_k
            (ground (arith, before)) (ground (arith, room)) (λ i apart. ground (arith, apart)) in
        subst (λ x. IsFair x (c ∷ hs)) parts.2 (subst (λ x. IsFair taken (x ∷ hs)) parts.1 fair)
  ]
]

release-IsFair :
    (c : ℕ) (l l' : SemLimiter) (hs gs : List ℕ)
    → release c l ≡ some l'
    → IsFair l (hs ++ c ∷ gs)
    → IsFair l' (hs ++ gs)
unfolding release
release-IsFair c l l' hs gs h v = elim (Option-cases (get_elem? l.made c)) [
  | inl missing ↦ absurd (ground (arith, h, missing))
  | inr (s, at_c) ↦
      let given : SemLimiter = record l { made = set l.made c (record s { held = s.held - 1 }) } in
      let parts : (eqb s.held 0 ≡ false) × (given ≡ l') = ground (arith, h, at_c) in
      let before = v.counted c s at_c in
      let fits = v.within c s at_c in
      let all = count-append c hs (c ∷ gs) in
      let left = count-append c hs gs in
      let some_held = parts.0 in
      let fair : IsFair given (hs ++ gs) =
        put-IsFair c s (record s { held = s.held - 1 }) l (hs ++ c ∷ gs) (hs ++ gs) v at_c
          (ground (arith, before, all, left)) (omega (arith, fits))
          (λ i apart.
            let here = count-append i hs (c ∷ gs) in
            let there = count-append i hs gs in ground (arith, apart, here, there)) in
      subst (λ x. IsFair x (hs ++ gs)) parts.1 fair
]

beyond : (made : List Slots) (c : ℕ) → get_elem? made c ≡ none → length made ≤ c
beyond made c h = elim (Bool-cases (ltb c (length made))) [
  | inr out ↦ ground (arith, out)
  | inl inside ↦
      let (s, at_c) = get_elem?_of_lt made c (ground (arith, inside)) in
      absurd (ground (arith, h, at_c))
]

-- A slot that an attempt holds can be given back at once.
holder_releases :
    (c : ℕ) (l : SemLimiter) (hs gs : List ℕ)
    → IsFair l (hs ++ c ∷ gs)
    → (l' : SemLimiter) × (release c l ≡ some l')
unfolding release
holder_releases c l hs gs v =
    let all = count-append c hs (c ∷ gs) in
    let own : count c (c ∷ gs) ≡ suc (count c gs) = ground arith in
    elim (Option-cases (get_elem? l.made c)) [
      | inl missing ↦
          let outside = v.unknown c (beyond l.made c missing) in
          absurd (omega (arith, all, own, outside))
      | inr (s, at_c) ↦
          let before = v.counted c s at_c in
          let some_held : eqb s.held 0 ≡ false = ground (arith, before, all, own) in
          (
            record l { made = set l.made c (record s { held = s.held - 1 }) },
            rw (at_c, some_held, release) refl,
          )
    ]

Step-IsFair : (l l' : SemLimiter) (hs hs' : List ℕ) → Step l hs l' hs' → IsFair l hs → IsFair l' hs'
unfolding set_limit
Step-IsFair _ _ _ _ (limits limit l hs) v = elim (Bool-cases (same_limit limit l.limit)) [
  | inl same ↦ rw (same, set_limit) v
  | inr other ↦ rw (other, set_limit) (set_limit_locked-IsFair limit l hs v)
]
Step-IsFair _ _ _ _ (acquires c l l' hs h) v = acquire-IsFair c l l' hs h v
Step-IsFair _ _ _ _ (releases c l l' hs gs h) v = release-IsFair c l l' hs gs h v

reached : (limit : ℤ) (l : SemLimiter) (hs : List ℕ) → Reaches limit l hs → IsFair l hs
unfolding new_sem_limiter
reached limit _ _ starts =
    set_limit_locked-IsFair limit (record { limit = pos 0; ch = none; made = [] }) []
      (record {
        counted = λ i s h. absurd (ground (arith, h));
        within = λ i s h. absurd (ground (arith, h));
        unknown = λ i h. refl;
      })
reached limit _ _ (steps m l gs hs r step) = Step-IsFair m l gs hs step (reached limit m gs r)

-- In every state that a limiter reaches, whatever the changes of its limit: a channel has as many taken slots
-- as attempts hold one of it, and never more than its capacity, and an attempt can always give its slot back.
pub Reaches-IsFair :
    (limit : ℤ) (l : SemLimiter) (hs : List ℕ)
    → Reaches limit l hs
    → IsFair l hs
      × ((c : ℕ) (before after : List ℕ)
          → hs ≡ before ++ c ∷ after
          → (l' : SemLimiter) × (release c l ≡ some l'))
Reaches-IsFair limit l hs r =
    let fair = reached limit l hs r in
    (fair, λ c before after e. holder_releases c l before after (subst (λ x. IsFair l x) e fair))
