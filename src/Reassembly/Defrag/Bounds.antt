-- ===== src/Reassembly/Defrag/Bounds.antt =====
-- The table of crates/reassembly/src/defrag.rs within its bounds: sweeps, evictions and new sets.
use mathlib.Core.Path.{subst}
use native.Mathlib.Nat.{le_trans}
use cyber_sentinel_ids_ips.Prelude.{
  ℕ, suc, ◌+◌, ◌/◌, ◌≤◌, ◌<◌, ◌≡◌, refl, ◌∙◌, max, Bool, true, some, List, [], ◌∷◌, take, all, zero,
  length, leb, arith, Bool-cases, inl, inr,
}
use cyber_sentinel_ids_ips.Common.Map.{
  Map, get, contains_key, insert, remove, retain_map, IsMap, get-insert-some, get-remove-some,
  get-retain_map-some, insert-IsMap, remove-IsMap, retain_map-IsMap, length-remove,
  length-retain_map,
}
use cyber_sentinel_ids_ips.Reassembly.RangeBuffer.{
  RangeBuffer, u64_max, write, drain_contiguous_upto, contiguous_end, WriteOutcome,
}
use cyber_sentinel_ids_ips.Reassembly.RangeBuffer as Buffer
use cyber_sentinel_ids_ips.Reassembly.RangeBuffer.View.{IsValid, new-IsValid}
use cyber_sentinel_ids_ips.Reassembly.Defrag.{
  FragmentView, FragmentKey, FragmentSet, Defragmenter, fragment_key, sweep, insert_by_age, by_age,
  evict, has_room, make_room, fresh_set, max_datagram_len, max_holes_per_datagram,
}

-- The set of a datagram: its buffer is well formed, has not been drained and is capped as set up.
pub record IsFragmentSet (set : FragmentSet) : Type 0 where
  pub valid : IsValid set.buffer
  pub from_zero : set.buffer.base ≡ 0
  pub byte_cap : set.buffer.byte_limit ≡ max_datagram_len
  pub hole_cap : set.buffer.range_limit ≡ max_holes_per_datagram

-- Each datagram once, and each of its sets as above.
pub record IsTable (sets : Map FragmentKey FragmentSet) : Type 0 where
  pub is_map : IsMap sets
  pub each : (key : FragmentKey) (set : FragmentSet) → get key sets ≡ some set → IsFragmentSet set

pub record IsBounded (d : Defragmenter) : Type 0 where
  pub table : IsTable d.sets
  pub capped : length d.sets ≤ d.max_sets
  pub some_sets : 1 ≤ d.max_sets

pub remove-IsTable :
    (key : FragmentKey) (sets : Map FragmentKey FragmentSet)
    → IsTable sets
    → IsTable (remove key sets)
remove-IsTable key sets t = record {
  is_map = remove-IsMap key sets t.is_map;
  each = λ k set h. t.each k set (get-remove-some key k sets set h);
}

pub insert-IsTable :
    (key : FragmentKey) (set : FragmentSet) (sets : Map FragmentKey FragmentSet)
    → IsFragmentSet set
    → IsTable sets
    → IsTable (insert key set sets)
insert-IsTable key set sets s t = record {
  is_map = insert-IsMap key set sets t.is_map;
  each = λ k set' h. elim (get-insert-some key k set set' sets h) [
    | inl (_, same) ↦ subst IsFragmentSet same s
    | inr before ↦ t.each k set' before
  ];
}

retain_map-IsTable :
    (p : FragmentKey → FragmentSet → Bool) (sets : Map FragmentKey FragmentSet)
    → IsTable sets
    → IsTable (retain_map p sets)
retain_map-IsTable p sets t = record {
  is_map = retain_map-IsMap p sets t.is_map;
  each = λ k set h. t.each k set (get-retain_map-some p k sets set t.is_map h);
}

pub fresh_set-IsFragmentSet :
    (fragment : FragmentView) (now : ℕ) → IsFragmentSet (fresh_set fragment now)
unfolding Buffer.new
fresh_set-IsFragmentSet fragment now = record {
  valid = new-IsValid 0 max_datagram_len max_holes_per_datagram (omega arith);
  from_zero = refl;
  byte_cap = refl;
  hole_cap = refl;
}

-- A state whose caps are those of `d`, whose table is well formed and no longer than `n`.
pub record Trimmed (d : Defragmenter) (n : ℕ) (d' : Defragmenter) : Type 0 where
  pub table : IsTable d'.sets
  pub size : length d'.sets ≤ n
  pub same_cap : d'.max_sets ≡ d.max_sets

pub sweep-Trimmed :
    (d : Defragmenter) (now : ℕ) → IsTable d.sets → Trimmed d (length d.sets) (sweep d now)
unfolding sweep
sweep-Trimmed d now t = record {
  table = retain_map-IsTable _ d.sets t;
  size = length-retain_map _ d.sets;
  same_cap = refl;
}

length-remove-lt :
    (key : FragmentKey) (sets : Map FragmentKey FragmentSet)
    → contains_key key sets ≡ true
    → length (remove key sets) < length sets
unfolding get remove
length-remove-lt key [] h = absurd (cc h)
length-remove-lt key ((k, set) ∷ sets) h =
    ground (arith, length-remove key sets, length-remove-lt key sets)

evict-Trimmed :
    (keys : List (ℕ × FragmentKey)) (d : Defragmenter)
    → IsTable d.sets
    → Trimmed d (length d.sets) (evict keys d)
unfolding evict
evict-Trimmed [] d t = record { table = t; size = omega arith; same_cap = refl }
evict-Trimmed ((_, key) ∷ keys) d t = elim (Bool-cases (contains_key key d.sets)) [
  | inl there ↦
      let r =
        evict-Trimmed keys
          (record d {
            sets = remove key d.sets;
            counters = record (d.counters) { evicted = d.counters.evicted + 1 };
          })
          (remove-IsTable key d.sets t) in
      rw there (record {
        table = r.table;
        size = le_trans r.size (length-remove key d.sets);
        same_cap = r.same_cap;
      })
  | inr gone ↦ rw gone (evict-Trimmed keys d t)
]

all_weaken :
    (p q : FragmentKey × FragmentSet → Bool) (sets : Map FragmentKey FragmentSet)
    → ((e : FragmentKey × FragmentSet) → p e ≡ true → q e ≡ true)
    → all p sets ≡ true
    → all q sets ≡ true
all_weaken p q [] h k = refl
all_weaken p q (e ∷ sets) h k = ground (arith, h e, all_weaken p q sets h)

keys_present : (sets : Map FragmentKey FragmentSet) → all (λ e. contains_key e.0 sets) sets ≡ true
unfolding get
keys_present [] = refl
keys_present ((k, set) ∷ sets) = ground (
  arith,
  (fragment_key.key_eq_iff k k).1 refl,
  all_weaken (λ e. contains_key e.0 sets) (λ e. contains_key e.0 ((k, set) ∷ sets)) sets
      (λ e h. ground arith),
  keys_present sets,
)

all-insert_by_age :
    (p : FragmentKey → Bool) (e : ℕ × FragmentKey) (es : List (ℕ × FragmentKey))
    → all (λ x. p x.1) (insert_by_age e es) ≡ all (λ x. p x.1) (e ∷ es)
unfolding insert_by_age
all-insert_by_age p e [] = refl
all-insert_by_age p e (x ∷ xs) = ground (arith, all-insert_by_age p e xs)

all-by_age :
    (p : FragmentKey → Bool) (sets : Map FragmentKey FragmentSet)
    → all (λ x. p x.1) (by_age sets) ≡ all (λ e. p e.0) sets
unfolding by_age
all-by_age p [] = refl
all-by_age p ((k, set) ∷ sets) =
    ground (arith, all-insert_by_age p (set.first_seen, k) (by_age sets), all-by_age p sets)

length-insert_by_age :
    (e : ℕ × FragmentKey) (es : List (ℕ × FragmentKey))
    → length (insert_by_age e es) ≡ suc (length es)
unfolding insert_by_age
length-insert_by_age e [] = refl
length-insert_by_age e (x ∷ xs) = ground (arith, length-insert_by_age e xs)

length-by_age : (sets : Map FragmentKey FragmentSet) → length (by_age sets) ≡ length sets
unfolding by_age
length-by_age [] = refl
length-by_age ((k, set) ∷ sets) =
    omega (arith, length-insert_by_age (set.first_seen, k) (by_age sets), length-by_age sets)

-- Evicting at least one key that is there makes room.
evict-lt :
    (n : ℕ) (keys : List (ℕ × FragmentKey)) (d : Defragmenter)
    → 1 ≤ n
    → 1 ≤ length keys
    → all (λ x. contains_key x.1 d.sets) keys ≡ true
    → IsTable d.sets
    → length (evict (take n keys) d).sets < length d.sets
unfolding evict
evict-lt n [] d h k a t = absurd (omega arith)
evict-lt zero (e ∷ keys) d h k a t = absurd (omega arith)
evict-lt (suc n) ((at, key) ∷ keys) d h k a t =
    let there : contains_key key d.sets ≡ true = ground arith in
    let r =
      evict-Trimmed (take n keys)
        (record d {
          sets = remove key d.sets;
          counters = record (d.counters) { evicted = d.counters.evicted + 1 };
        })
        (remove-IsTable key d.sets t) in
    rw there (omega (arith, r.size, length-remove-lt key d.sets there))

-- Making room leaves room for one more datagram.
pub make_room-Trimmed :
    (d : Defragmenter) (now : ℕ)
    → IsBounded d
    → IsTable (make_room d now).sets
      × (length (make_room d now).sets < d.max_sets)
      × ((make_room d now).max_sets ≡ d.max_sets)
unfolding make_room
make_room-Trimmed d now b =
    let s = sweep-Trimmed d now b.table in
    let batch : ℕ = max (d.max_sets / 10) 1 in
    let e = evict-Trimmed (take batch (by_age (sweep d now).sets)) (sweep d now) s.table in
    elim (Bool-cases (has_room d)) [
      | inl roomy ↦ rw roomy (b.table, ground arith, refl)
      | inr full ↦ elim (Bool-cases (has_room (sweep d now))) [
        | inl roomy ↦ rw (full, roomy) (s.table, ground (arith, s.same_cap), s.same_cap)
        | inr full' ↦
            rw (full, full')
              (
                e.table,
                elim (Bool-cases (leb 1 (length (sweep d now).sets))) [
                  | inl some_there ↦ omega (
                    arith,
                    evict-lt batch (by_age (sweep d now).sets) (sweep d now) (omega arith)
                        (ground (arith, length-by_age (sweep d now).sets))
                        (all-by_age (λ k. contains_key k (sweep d now).sets) (sweep d now).sets
                          ∙ keys_present (sweep d now).sets)
                        s.table,
                    s.size,
                    b.capped,
                  )
                  | inr none_there ↦ ground (arith, e.size, b.some_sets)
                ],
                e.same_cap ∙ s.same_cap,
              )
      ]
    ]
