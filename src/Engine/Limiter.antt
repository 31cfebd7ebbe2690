-- ===== src/Engine/Limiter.antt =====
-- semLimiter of internal/engine/engine.go: the slots for concurrent attempts. A channel is its position among
-- the channels made so far; a new limit makes a new one, and the holders of old slots give them back to
-- theirs.
pub mod Fair
use serpent_seek.Prelude.{
  ℕ, suc, ◌+◌, ◌-◌, ◌≤◌, ◌<◌, ℤ, pos, negsuc, is_positive, to_ℕ, String, ◌≡◌, refl, ap, sym, ◌∙◌,
  inl, inr, Bool, true, false, not, ◌&&◌, Option, none, some, List, [], ◌∷◌, ◌++◌, length,
  get_elem?, set, ltb, eqb, if◌then◌else◌, arith, Bool-cases, Option-cases, get_elem?-set,
  get_elem?-concat, lt_of_get_elem?, get_elem?_of_lt, or_else, length-append, length-set,
}

-- a buffered channel of `capacity` slots, `held` of them taken
pub record Slots : Type 0 where
  pub capacity : ℕ
  pub held : ℕ

pub record SemLimiter : Type 0 where
  pub limit : ℤ
  pub ch : Option ℕ
  pub made : List Slots

abbrev pub same_limit : ℤ → ℤ → Bool
same_limit (pos a) (pos b) = eqb a b
same_limit (negsuc a) (negsuc b) = eqb a b
same_limit (pos a) (negsuc b) = false
same_limit (negsuc a) (pos b) = false

-- setLimitLocked
unfoldable pub set_limit_locked : ℤ → SemLimiter → SemLimiter
set_limit_locked limit l =
    if is_positive limit
    then record {
      limit = limit;
      ch = some (length l.made);
      made = l.made ++ record { capacity = to_ℕ limit; held = 0 } ∷ [];
    }
    else record l { limit = limit; ch = none }

-- newSemLimiter
unfoldable pub new_sem_limiter : ℤ → SemLimiter
new_sem_limiter limit = set_limit_locked limit (record { limit = pos 0; ch = none; made = [] })

-- setLimit
unfoldable pub set_limit : ℤ → SemLimiter → SemLimiter
set_limit limit l = if same_limit limit l.limit then l else set_limit_locked limit l

-- acquire: no limit, a slot of a channel, or a wait for one (or for the end of the context)
pub data Acquired : Type 0 where
  free : Acquired
  slot : ℕ → SemLimiter → Acquired
  waits : ℕ → Acquired

unfoldable pub acquire : SemLimiter → Acquired
acquire l = elim l.ch [
  | none ↦ free
  | some c ↦ elim (get_elem? l.made c) [
    | none ↦ waits c
    | some s ↦
        if ltb s.held s.capacity
        then slot c (record l { made = set l.made c (record s { held = s.held + 1 }) })
        else waits c
  ]
]

-- the function that acquire returns: a receive, which would wait (none) on an empty channel
unfoldable pub release : ℕ → SemLimiter → Option SemLimiter
release c l = elim (get_elem? l.made c) [
  | none ↦ none
  | some s ↦
      if eqb s.held 0
      then none
      else some (record l { made = set l.made c (record s { held = s.held - 1 }) })
]

-- the attempts that hold a slot, by the channel of the slot
abbrev pub count : ℕ → List ℕ → ℕ
count c [] = 0
count c (h ∷ holders) = (if eqb h c then 1 else 0) + count c holders

-- one step of the limiter and the attempts that hold its slots
pub data Step : SemLimiter → List ℕ → SemLimiter → List ℕ → Type 0 where
  limits : (limit : ℤ) (l : SemLimiter) (hs : List ℕ) → Step l hs (set_limit limit l) hs
  acquires :
      (c : ℕ) (l l' : SemLimiter) (hs : List ℕ) → acquire l ≡ slot c l' → Step l hs l' (c ∷ hs)
  releases :
      (c : ℕ) (l l' : SemLimiter) (hs gs : List ℕ)
      → release c l ≡ some l'
      → Step l (hs ++ c ∷ gs) l' (hs ++ gs)

pub data Reaches (limit : ℤ) : SemLimiter → List ℕ → Type 0 where
  starts : Reaches limit (new_sem_limiter limit) []
  steps :
      (l l' : SemLimiter) (hs hs' : List ℕ)
      → Reaches limit l hs
      → Step l hs l' hs'
      → Reaches limit l' hs'
