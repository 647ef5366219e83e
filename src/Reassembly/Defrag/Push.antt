-- ===== src/Reassembly/Defrag/Push.antt =====
-- `push` of crates/reassembly/src/defrag.rs, and its end, where a datagram may come out.
use mathlib.Core.Path.{subst}
use native.Mathlib.Nat.{le_trans}
use cyber_sentinel_ids_ips.Prelude.{
  ℕ, ◌+◌, ◌*◌, ◌≤◌, ◌<◌, ◌≡◌, ◌⊎◌, refl, sym, ap, ◌∙◌, true, false, Option, none, some, [],
  get_elem?, length, ltb, leb, if◌then◌else◌, arith, Bool-cases, Option-cases, inl, inr,
}
use cyber_sentinel_ids_ips.Common.Map.{
  Map, get, contains_key, insert, remove, present, length-insert, length-remove,
}
use cyber_sentinel_ids_ips.Common.Config.{OverlapPolicy}
use cyber_sentinel_ids_ips.Reassembly.RangeBuffer.{contiguous_end, sat_add}
use cyber_sentinel_ids_ips.Reassembly.RangeBuffer.View.{byte_at, contiguous_end-FirstMissing}
use cyber_sentinel_ids_ips.Reassembly.RangeBuffer.Promise.{GoesIn, write-GoesIn}
use cyber_sentinel_ids_ips.Reassembly.RangeBuffer.Drain.{
  DrainsTo, drained, drain_contiguous_upto-DrainsTo,
}
use cyber_sentinel_ids_ips.Reassembly.Defrag.{
  FragmentView, FragmentKey, FragmentSet, Defragmenter, Reassembled, fragment_key, sweep_due,
  maybe_sweep, make_room, key_of, fresh_set, open_set, joined_set, is_complete, finish, push_into,
  push, max_datagram_len, is_misaligned,
}
use cyber_sentinel_ids_ips.Reassembly.Defrag.Bounds.{
  IsFragmentSet, IsTable, IsBounded, sweep-Trimmed, make_room-Trimmed, insert-IsTable,
  remove-IsTable, fresh_set-IsFragmentSet,
}

-- A datagram that came out of its set: its length is the one claimed, and its bytes are those held.
pub record IsWhole (set : FragmentSet) (datagram : Reassembled) : Type 0 where
  pub total : ℕ
  pub claimed : set.total_len ≡ some total
  pub size : length datagram.content ≡ total
  pub held : (i : ℕ) → i < total → (v : ℕ) × (byte_at set.buffer i ≡ some v)
  pub bytes : (i : ℕ) → i < total → get_elem? datagram.content i ≡ byte_at set.buffer i
  pub ambiguous : datagram.conflicting_bytes ≡ set.conflicting_bytes

-- Why no datagram comes out: no length is claimed, or a byte below it is missing.
abbrev pub IsWaiting : FragmentSet → Type 0
IsWaiting set =
    (set.total_len ≡ none)
    ⊎ ((total : ℕ) × (set.total_len ≡ some total)
        × (i : ℕ) × (i < total)
        × (byte_at set.buffer i ≡ none))

abbrev pub IsResult : FragmentSet → Option Reassembled → Type 0
IsResult set none = IsWaiting set
IsResult set (some datagram) = IsWhole set datagram

-- A set that waits is put back, and one whose datagram is out is forgotten.
abbrev pub sets_after :
    Option Reassembled
    → Map FragmentKey FragmentSet
    → FragmentKey
    → FragmentSet
    → Map FragmentKey FragmentSet
sets_after none sets key set = insert key set sets
sets_after (some datagram) sets key set = remove key sets

-- The end of a push.
pub record Finishes (d : Defragmenter) (key : FragmentKey) (set : FragmentSet) : Type 0 where
  pub after : Defragmenter
  pub result : Option Reassembled
  pub runs : finish d key set ≡ some (after, result)
  pub bounded : IsBounded after
  pub whole : IsResult set result
  pub filed : after.sets ≡ sets_after result d.sets key set

waits-Finishes :
    (d : Defragmenter) (key : FragmentKey) (set : FragmentSet)
    → IsBounded d
    → IsFragmentSet set
    → contains_key key d.sets ≡ true
    → is_complete set.total_len set.buffer ≡ false
    → IsWaiting set
    → Finishes d key set
unfolding finish
waits-Finishes d key set b s there waits why = record {
  after = record d { sets = insert key set d.sets };
  result = none;
  runs = rw waits refl;
  bounded = record {
    table = insert-IsTable key set d.sets s b.table;
    capped = ground (arith, b.capped, length-insert key set d.sets);
    some_sets = b.some_sets;
  };
  whole = why;
  filed = refl;
}

-- A complete set, its claimed length known.
completes-Finishes :
    (d : Defragmenter) (key : FragmentKey) (set : FragmentSet) (total : ℕ)
    → IsBounded d
    → IsFragmentSet set
    → set.total_len ≡ some total
    → total ≤ contiguous_end set.buffer
    → Finishes d key set
unfolding finish
completes-Finishes d key set total b s claim reached =
    let r : DrainsTo set.buffer total [] =
      drain_contiguous_upto-DrainsTo set.buffer total [] s.valid in
    let done : leb total (contiguous_end set.buffer) ≡ true = ground arith in
    let count : drained set.buffer total ≡ total = omega (arith, s.from_zero) in
    record {
      after = record d {
        sets = remove key d.sets;
        counters = record (d.counters) { completed = d.counters.completed + 1 };
      };
      result = some (record {
        source = set.source;
        destination = set.destination;
        protocol = set.protocol;
        content = r.moved;
        fragments = set.fragments;
        conflicting_bytes = set.conflicting_bytes;
      });
      runs = rw (claim, done, r.runs) refl;
      bounded = record {
        table = remove-IsTable key d.sets b.table;
        capped = le_trans (length-remove key d.sets) b.capped;
        some_sets = b.some_sets;
      };
      whole = record {
        total = total;
        claimed = claim;
        held = λ i below.
            (contiguous_end-FirstMissing set.buffer s.valid).held i (omega (arith, s.from_zero))
              (omega (arith, reached, below));
        size = r.drained_lem.size ∙ count;
        bytes = λ i below.
            r.drained_lem.bytes i (omega (arith, count, below))
            ∙ ap (byte_at set.buffer) (omega (arith, s.from_zero));
        ambiguous = refl;
      };
      filed = refl;
    }

-- A set that is joined either waits, and then no length is claimed or no byte is held for an offset
-- below it, or gives its datagram, and then a byte is held for every offset below the length claimed:
-- the datagram has that length, every byte of it is the one held at its offset, and the number of ambiguous bytes is the set's. A set that waits is put back in the table, and one
-- whose datagram is out is forgotten. No panic, and the bounds stay.
pub finish-Finishes :
    (d : Defragmenter) (key : FragmentKey) (set : FragmentSet)
    → IsBounded d
    → IsFragmentSet set
    → contains_key key d.sets ≡ true
    → Finishes d key set
finish-Finishes d key set b s there = elim (Option-cases set.total_len) [
  | inl unknown ↦ waits-Finishes d key set b s there (rw unknown refl) (inl unknown)
  | inr (total, claim) ↦ elim (Bool-cases (leb total (contiguous_end set.buffer))) [
    | inl reached ↦ completes-Finishes d key set total b s claim (ground arith)
    | inr short ↦ waits-Finishes d key set b s there (rw (claim, short) refl) (
        inr (
          total,
          claim,
          contiguous_end set.buffer,
          ground (arith, short),
          (contiguous_end-FirstMissing set.buffer s.valid).missing,
        ))
  ]
]

same-IsBounded :
    (d d' : Defragmenter) → d'.sets ≡ d.sets → d'.max_sets ≡ d.max_sets → IsBounded d → IsBounded d'
same-IsBounded d d' e f b = record {
  table = subst IsTable (sym e) b.table;
  capped = rw (e, f) b.capped;
  some_sets = rw f b.some_sets;
}

maybe_sweep-IsBounded : (d : Defragmenter) (now : ℕ) → IsBounded d → IsBounded (maybe_sweep d now)
unfolding maybe_sweep
maybe_sweep-IsBounded d now b =
    let t = sweep-Trimmed d now b.table in
    elim (Bool-cases (sweep_due d.last_sweep now)) [
      | inl due ↦ rw due (record {
        table = t.table;
        capped = omega (arith, t.size, t.same_cap, b.capped);
        some_sets = rw t.same_cap b.some_sets;
      })
      | inr early ↦ rw early b
    ]

open_set-IsBounded :
    (d : Defragmenter) (fragment : FragmentView) (now : ℕ)
    → IsBounded d
    → IsBounded (open_set d fragment now)
unfolding open_set
open_set-IsBounded d fragment now b =
    let (table, room, same) = make_room-Trimmed d now b in
    elim (Bool-cases (contains_key (key_of fragment) d.sets)) [
      | inl there ↦ rw there b
      | inr absent ↦ rw absent (record {
        table =
            insert-IsTable (key_of fragment) (fresh_set fragment now) (make_room d now).sets
              (fresh_set-IsFragmentSet fragment now) table;
        capped = ground (
          arith,
          room,
          same,
          length-insert (key_of fragment) (fresh_set fragment now) (make_room d now).sets,
        );
        some_sets = rw same b.some_sets;
      })
    ]

joined_set-IsFragmentSet :
    (set : FragmentSet) (fragment : FragmentView) (now end offset : ℕ) (policy : OverlapPolicy)
    → IsFragmentSet set
    → (g : GoesIn set.buffer offset fragment.payload policy)
    → IsFragmentSet (joined_set set fragment now end g.buffer g.outcome)
joined_set-IsFragmentSet set fragment now end offset policy s g = record {
  valid = g.valid;
  from_zero = g.same_base ∙ s.from_zero;
  byte_cap = g.same_byte_limit ∙ s.byte_cap;
  hole_cap = g.same_range_limit ∙ s.hole_cap;
}

pub record Pushes (d : Defragmenter) (fragment : FragmentView) (now : ℕ) (policy : OverlapPolicy)
    : Type 0 where
  pub after : Defragmenter
  pub result : Option Reassembled
  pub runs : push d fragment now policy ≡ some (after, result)
  pub bounded : IsBounded after

push_into-runs :
    (d : Defragmenter) (fragment : FragmentView) (now : ℕ) (policy : OverlapPolicy)
    → IsBounded d
    → (d' : Defragmenter) × (r : Option Reassembled) × (push_into d fragment now policy
          (get (key_of fragment) d.sets)
        ≡ some (d', r))
      × IsBounded d'
unfolding push_into
push_into-runs d fragment now policy b = elim (Option-cases (get (key_of fragment) d.sets)) [
  | inl absent ↦ (d, none, rw absent refl, b)
  | inr (set, there) ↦
      let s : IsFragmentSet set = b.table.each (key_of fragment) set there in
      let g : GoesIn set.buffer (fragment.offset * 8) fragment.payload policy =
        write-GoesIn set.buffer (fragment.offset * 8) fragment.payload policy s.valid
          (omega (arith, s.from_zero)) in
      let counted : Defragmenter = record d {
        counters = record (d.counters) {
          overlaps = d.counters.overlaps + g.outcome.overlapped;
          conflicting_overlaps = d.counters.conflicting_overlaps + g.outcome.conflicting;
          refused_bytes = d.counters.refused_bytes + g.outcome.refused;
        };
      } in
      let joined : FragmentSet =
        joined_set set fragment now (sat_add (fragment.offset * 8) (length fragment.payload))
          g.buffer g.outcome in
      let f : Finishes counted (key_of fragment) joined =
        finish-Finishes counted (key_of fragment) joined (same-IsBounded d counted refl refl b)
          (joined_set-IsFragmentSet set fragment now _ (fragment.offset * 8) policy s g)
          (ap present there) in
      (f.after, f.result, rw (there, g.runs) f.runs, f.bounded)
]

-- A fragment offered to a defragmenter that is within its bounds never panics, whatever its offset,
-- payload and time, and leaves it within its bounds: no more datagrams in progress than its cap, each
-- once, and each in a buffer that is well formed and capped at the largest datagram and 128 holes.
pub push-Pushes :
    (d : Defragmenter) (fragment : FragmentView) (now : ℕ) (policy : OverlapPolicy)
    → IsBounded d
    → Pushes d fragment now policy
unfolding push
push-Pushes d₀ fragment now policy b =
    let counted : Defragmenter = record d₀ {
      counters = record (d₀.counters) { fragments = d₀.counters.fragments + 1 };
    } in
    let d : Defragmenter = maybe_sweep counted now in
    let swept : IsBounded d =
      maybe_sweep-IsBounded counted now (same-IsBounded d₀ counted refl refl b) in
    let aligned : Defragmenter = record d {
      counters = record (d.counters) {
        misaligned =
            if is_misaligned fragment then d.counters.misaligned + 1 else d.counters.misaligned;
      };
    } in
    let opened : IsBounded (open_set aligned fragment now) =
      open_set-IsBounded aligned fragment now (same-IsBounded d aligned refl refl swept) in
    let (d', r, runs, bounded) =
      push_into-runs (open_set aligned fragment now) fragment now policy opened in
    elim (Bool-cases
      (ltb max_datagram_len (sat_add (fragment.offset * 8) (length fragment.payload)))) [
        | inl over ↦ record {
          after = record d {
            counters = record (d.counters) { oversized = d.counters.oversized + 1 };
          };
          result = none;
          runs = rw over refl;
          bounded = same-IsBounded d _ refl refl swept;
        }
        | inr fits ↦ record { after = d'; result = r; runs = rw fits runs; bounded = bounded }
      ]
