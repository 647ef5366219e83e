-- ===== src/Reassembly/Flow/Ages.antt =====
-- The live flows of crates/reassembly/src/flow.rs in the order of their ages.
use mathlib.Core.Path.{subst}
use cyber_sentinel_ids_ips.Prelude.{
  ℕ, zero, suc, ◌≤◌, ◌≡◌, refl, sym, ap, ◌∙◌, true, false, some, List, [], ◌∷◌, length, take, leb,
  if◌then◌else◌, arith, Bool-cases, inl, inr, Every, Every-drop, Every-map, drop,
}
use cyber_sentinel_ids_ips.Common.Map.{Map, get, contains_key, IsMap, absent_of}
use cyber_sentinel_ids_ips.Reassembly.Flow.{FlowKey, table_key, Flow, key_eq, key_eq_iff}
use cyber_sentinel_ids_ips.Reassembly.Flow.Table.{insert_by_age, by_age, keys_of}
use cyber_sentinel_ids_ips.Reassembly.Flow.Ending.{has_key}

Every-insert_by_age :
    (P : ℕ × FlowKey → Type 0) (e : ℕ × FlowKey) (xs : List (ℕ × FlowKey))
    → P e
    → Every P xs
    → Every P (insert_by_age e xs)
unfolding insert_by_age
Every-insert_by_age P e [] p h = (p, tt)
Every-insert_by_age P e (x ∷ xs) p h = elim (Bool-cases (leb e.0 x.0)) [
  | inl older ↦ rw older (p, h)
  | inr younger ↦ rw younger (h.0, Every-insert_by_age P e xs p h.1)
]

pub by_age-Every :
    (P : ℕ × FlowKey → Type 0) (flows : Map FlowKey Flow)
    → Every (λ (e : FlowKey × Flow). P (e.1.last_seen, e.0)) flows
    → Every P (by_age flows)
unfolding by_age
by_age-Every P [] h = tt
by_age-Every P ((key, flow) ∷ flows) h =
    Every-insert_by_age P (flow.last_seen, key) (by_age flows) h.0 (by_age-Every P flows h.1)

length-insert_by_age :
    (e : ℕ × FlowKey) (xs : List (ℕ × FlowKey)) → length (insert_by_age e xs) ≡ suc (length xs)
unfolding insert_by_age
length-insert_by_age e [] = refl
length-insert_by_age e (x ∷ xs) = ground (arith, length-insert_by_age e xs)

pub length-by_age : (flows : Map FlowKey Flow) → length (by_age flows) ≡ length flows
unfolding by_age
length-by_age [] = refl
length-by_age ((key, flow) ∷ flows) =
    length-insert_by_age (flow.last_seen, key) (by_age flows) ∙ ap suc (length-by_age flows)

-- The entry of a key, in a map that has it once.
abbrev pub IsEntry : Map FlowKey Flow → FlowKey × Flow → Type 0
IsEntry flows e = get e.0 flows ≡ some e.1

get-later :
    (i : FlowKey) (w : Flow) (flows : Map FlowKey Flow) (e : FlowKey × Flow)
    → contains_key i flows ≡ false
    → IsEntry flows e
    → IsEntry ((i, w) ∷ flows) e
unfolding get
get-later i w flows (k, f) fresh h = elim (Bool-cases (key_eq i k)) [
  | inl found ↦ absurd (cc (absent_of i k flows ((key_eq_iff i k).0 found) fresh, h))
  | inr other ↦ rw other h
]

pub entries-Every : (flows : Map FlowKey Flow) → IsMap flows → Every (IsEntry flows) flows
unfolding get
entries-Every [] u = tt
entries-Every ((i, w) ∷ flows) u = (
  rw ((key_eq_iff i i).1 refl) refl,
  Every-map (IsEntry flows) (IsEntry ((i, w) ∷ flows)) flows (λ e h. get-later i w flows e u.0 h)
      (entries-Every flows u.1),
)

-- Ages that do not fall.
abbrev pub IsSorted : List (ℕ × FlowKey) → Type 0
IsSorted [] = Unit
IsSorted (e ∷ xs) = Every (λ (x : ℕ × FlowKey). e.0 ≤ x.0) xs × IsSorted xs

insert_by_age-IsSorted :
    (e : ℕ × FlowKey) (xs : List (ℕ × FlowKey)) → IsSorted xs → IsSorted (insert_by_age e xs)
unfolding insert_by_age
insert_by_age-IsSorted e [] s = (tt, tt)
insert_by_age-IsSorted e (x ∷ xs) s = elim (Bool-cases (leb e.0 x.0)) [
  | inl older ↦
      let first : e.0 ≤ x.0 = ground arith in
      rw older (
        (
          first,
          Every-map (λ (y : ℕ × FlowKey). x.0 ≤ y.0) (λ (y : ℕ × FlowKey). e.0 ≤ y.0) xs
              (λ y h. omega (arith, first, h)) s.0,
        ),
        s,
      )
  | inr younger ↦
      let first : x.0 ≤ e.0 = ground arith in
      rw younger (
        Every-insert_by_age (λ (y : ℕ × FlowKey). x.0 ≤ y.0) e xs first s.0,
        insert_by_age-IsSorted e xs s.1,
      )
]

pub by_age-IsSorted : (flows : Map FlowKey Flow) → IsSorted (by_age flows)
unfolding by_age
by_age-IsSorted [] = tt
by_age-IsSorted ((key, flow) ∷ flows) =
    insert_by_age-IsSorted (flow.last_seen, key) (by_age flows) (by_age-IsSorted flows)

-- Each age in the first part against each in the second.
pub IsSorted-split :
    (n : ℕ) (xs : List (ℕ × FlowKey))
    → IsSorted xs
    → Every (λ (e : ℕ × FlowKey). Every (λ (x : ℕ × FlowKey). e.0 ≤ x.0) (drop n xs)) (take n xs)
IsSorted-split zero xs s = tt
IsSorted-split (suc n) [] s = tt
IsSorted-split (suc n) (x ∷ xs) s =
    (Every-drop (λ (y : ℕ × FlowKey). x.0 ≤ y.0) n xs s.0, IsSorted-split n xs s.1)

has_key-insert_by_age :
    (k : FlowKey) (e : ℕ × FlowKey) (xs : List (ℕ × FlowKey))
    → has_key k (keys_of (insert_by_age e xs))
      ≡ (if key_eq k e.1 then true else has_key k (keys_of xs))
unfolding insert_by_age keys_of
has_key-insert_by_age k e [] = ground arith
has_key-insert_by_age k e (x ∷ xs) = ground (arith, has_key-insert_by_age k e xs)

pub has_key-by_age :
    (k : FlowKey) (flow : Flow) (flows : Map FlowKey Flow)
    → get k flows ≡ some flow
    → has_key k (keys_of (by_age flows)) ≡ true
unfolding by_age get
has_key-by_age k flow [] h = cc h
has_key-by_age k flow ((i, w) ∷ flows) h = elim (Bool-cases (key_eq i k)) [
  | inl found ↦
      let back : key_eq k i ≡ true = (key_eq_iff k i).1 (sym ((key_eq_iff i k).0 found)) in
      has_key-insert_by_age k (w.last_seen, i) (by_age flows) ∙ rw back refl
  | inr other ↦
      has_key-insert_by_age k (w.last_seen, i) (by_age flows)
      ∙ ground (arith, has_key-by_age k flow flows (rw other at h))
]

pub has_key-split :
    (k : FlowKey) (n : ℕ) (xs : List (ℕ × FlowKey))
    → has_key k (keys_of xs) ≡ true
    → has_key k (keys_of (take n xs)) ≡ false
    → has_key k (keys_of (drop n xs)) ≡ true
unfolding keys_of
has_key-split k zero xs h absent = h
has_key-split k (suc n) [] h absent = h
has_key-split k (suc n) (x ∷ xs) h absent = ground (arith, has_key-split k n xs)

-- What holds of every entry holds of the one of a key.
pub Every-key :
    (P : ℕ × FlowKey → Type 0) (k : FlowKey) (xs : List (ℕ × FlowKey))
    → Every P xs
    → has_key k (keys_of xs) ≡ true
    → (age : ℕ) × P (age, k)
unfolding keys_of
Every-key P k [] h there = absurd (cc there)
Every-key P k ((age, i) ∷ xs) h there = elim (Bool-cases (key_eq k i)) [
  | inl same ↦ (age, subst (λ j. P (age, j)) (sym ((key_eq_iff k i).0 same)) h.0)
  | inr other ↦ Every-key P k xs h.1 (ground arith)
]
