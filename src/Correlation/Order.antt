-- ===== src/Correlation/Order.antt =====
-- What sorting by time does to the observations of a window.
use mathlib.Core.List.{Perm}
use mathlib.Core.List.Perm
use mathlib.Core.Option.{some-injective}
use cyber_sentinel_ids_ips.Prelude.{
  ℕ, ◌≤◌, ◌≡◌, refl, min, Bool, true, none, some, List, [], ◌∷◌, any, all, leb, ◌==◌, arith,
  Bool-cases, Option-cases, inl, inr,
}
use cyber_sentinel_ids_ips.Correlation.{
  Observation, insert_by_time, sort_by_time, first_time, last_time, worst,
}

-- The observations are in time order, the first not before `from`.
abbrev pub IsAscending : ℕ → List Observation → Type 0
IsAscending from [] = Unit
IsAscending from (o ∷ os) = (from ≤ o.timestamp) × IsAscending o.timestamp os

insert-Perm : (o : Observation) (os : List Observation) → Perm (insert_by_time o os) (o ∷ os)
unfolding insert_by_time
insert-Perm o [] = Perm.refl (o ∷ [])
insert-Perm o (x ∷ xs) = elim (Bool-cases (leb o.timestamp x.timestamp)) [
  | inl before ↦ rw before (Perm.refl (o ∷ x ∷ xs))
  | inr after ↦ rw after (Perm.trans (Perm.cons x (insert-Perm o xs)) (Perm.swap o x xs))
]

pub sort_by_time-Perm : (os : List Observation) → Perm (sort_by_time os) os
unfolding sort_by_time
sort_by_time-Perm [] = Perm.refl []
sort_by_time-Perm (o ∷ os) =
    Perm.trans (insert-Perm o (sort_by_time os)) (Perm.cons o (sort_by_time-Perm os))

insert-IsAscending :
    (from : ℕ) (o : Observation) (os : List Observation)
    → from ≤ o.timestamp
    → IsAscending from os
    → IsAscending from (insert_by_time o os)
unfolding insert_by_time
insert-IsAscending from o [] h s = (h, tt)
insert-IsAscending from o (x ∷ xs) h s = elim (Bool-cases (leb o.timestamp x.timestamp)) [
  | inl before ↦ rw before (h, (ground arith, s.1))
  | inr after ↦ rw after (s.0, insert-IsAscending x.timestamp o xs (ground arith) s.1)
]

sort-IsAscending : (os : List Observation) → IsAscending 0 (sort_by_time os)
unfolding sort_by_time
sort-IsAscending [] = tt
sort-IsAscending (o ∷ os) =
    insert-IsAscending 0 o (sort_by_time os) (omega arith) (sort-IsAscending os)

all-insert :
    (p : Observation → Bool) (o : Observation) (os : List Observation)
    → all p (insert_by_time o os) ≡ all p (o ∷ os)
unfolding insert_by_time
all-insert p o [] = refl
all-insert p o (x ∷ xs) = ground (arith, all-insert p o xs)

pub all-sort_by_time :
    (p : Observation → Bool) (os : List Observation) → all p (sort_by_time os) ≡ all p os
unfolding sort_by_time
all-sort_by_time p [] = refl
all-sort_by_time p (o ∷ os) =
    ground (arith, all-insert p o (sort_by_time os), all-sort_by_time p os)

any-insert :
    (p : Observation → Bool) (o : Observation) (os : List Observation)
    → any p (insert_by_time o os) ≡ any p (o ∷ os)
unfolding insert_by_time
any-insert p o [] = refl
any-insert p o (x ∷ xs) = ground (arith, any-insert p o xs)

pub any-sort_by_time :
    (p : Observation → Bool) (os : List Observation) → any p (sort_by_time os) ≡ any p os
unfolding sort_by_time
any-sort_by_time p [] = refl
any-sort_by_time p (o ∷ os) =
    ground (arith, any-insert p o (sort_by_time os), any-sort_by_time p os)

-- The first and the last time of a window.
first_time-IsAscending :
    (from t : ℕ) (os : List Observation)
    → IsAscending from os
    → first_time os ≡ some t
    → IsAscending t os × (any (λ e. e.timestamp == t) os ≡ true)
unfolding first_time
first_time-IsAscending from t [] s h = absurd (cc h)
first_time-IsAscending from t (o ∷ os) s h =
    let e : o.timestamp ≡ t = ground arith in ((omega arith, s.1), ground arith)

last_time_bounds :
    (from t : ℕ) (os : List Observation)
    → IsAscending from os
    → last_time os ≡ some t
    → (from ≤ t)
      × (all (λ e. leb e.timestamp t) os ≡ true)
      × (any (λ e. e.timestamp == t) os ≡ true)
unfolding last_time
last_time_bounds from t [] s h = absurd (cc h)
last_time_bounds from t (o ∷ []) s h =
    let e : o.timestamp ≡ t = ground arith in (omega (arith, s.0), ground arith, ground arith)
last_time_bounds from t (o ∷ p ∷ os) s h =
    let (late, below, reached) = last_time_bounds o.timestamp t (p ∷ os) s.1 h in
    (omega (arith, s.0), ground arith, ground arith)

pub sorted_times :
    (first_seen last_seen : ℕ) (os : List Observation)
    → first_time (sort_by_time os) ≡ some first_seen
    → last_time (sort_by_time os) ≡ some last_seen
    → IsAscending first_seen (sort_by_time os)
      × (any (λ e. e.timestamp == first_seen) (sort_by_time os) ≡ true)
      × (all (λ e. leb e.timestamp last_seen) (sort_by_time os) ≡ true)
      × (any (λ e. e.timestamp == last_seen) (sort_by_time os) ≡ true)
sorted_times first_seen last_seen os h k =
    let (up, starts) =
      first_time-IsAscending 0 first_seen (sort_by_time os) (sort-IsAscending os) h in
    let (late, below, ends) = last_time_bounds first_seen last_seen (sort_by_time os) up k in
    (up, starts, below, ends)

-- There is a worst severity unless there are no observations.
worst-none : (os : List Observation) → worst os ≡ none → os ≡ []
unfolding worst
worst-none [] h = refl
worst-none (o ∷ os) h = elim (Option-cases (worst os)) [
  | inl nothing ↦ absurd (ground arith)
  | inr (r, below) ↦ absurd (ground arith)
]

all-leb_below :
    (s r : ℕ) (os : List Observation)
    → s ≤ r
    → all (λ e. leb r e.severity) os ≡ true
    → all (λ e. leb s e.severity) os ≡ true
all-leb_below s r [] h k = refl
all-leb_below s r (o ∷ os) h k = ground (arith, all-leb_below s r os)

-- The worst severity is the lowest, and one has it.
pub worst_lem :
    (s : ℕ) (os : List Observation)
    → worst os ≡ some s
    → (all (λ e. leb s e.severity) os ≡ true) × (any (λ e. e.severity == s) os ≡ true)
unfolding worst
worst_lem s [] h = absurd (cc h)
worst_lem s (o ∷ os) h = elim (Option-cases (worst os)) [
  | inl nothing ↦ rw (worst-none os nothing) (ground arith, ground arith)
  | inr (r, below) ↦
      let (bound, reached) = worst_lem r os below in
      let e : min o.severity r ≡ s = some-injective (min o.severity r) s (rw below at h) in
      (ground (arith, all-leb_below s r os), ground arith)
]
