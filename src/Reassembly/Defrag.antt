-- ===== src/Reassembly/Defrag.antt =====
-- crates/reassembly/src/defrag.rs: fragments of a datagram put together again. Instants and
-- durations are numbers of one unit, the second; counters do not wrap. A panic of the range buffer is
-- `none`. Log lines are left out.
pub mod Bounds
pub mod Push
mod Tests
use cyber_sentinel_ids_ips.Prelude.{
  ℕ, ◌+◌, ◌-◌, ◌*◌, ◌/◌, ◌%◌, ◌≡◌, ◌↔◌, min, max, Bool, true, false, ◌&&◌, not, Option, none, some,
  List, [], ◌∷◌, map, length, take, ltb, leb, ◌==◌, if◌then◌else◌, ◌>>=◌, arith,
}
use cyber_sentinel_ids_ips.Common.Net.{IpAddr, ip_eq}
use cyber_sentinel_ids_ips.Common.Map.{Key, Map, get, contains_key, insert, remove, retain_map}
use cyber_sentinel_ids_ips.Common.Config.{OverlapPolicy, ReassemblyConfig}
use cyber_sentinel_ids_ips.Common.Endpoint.{ip_eq_iff}
use cyber_sentinel_ids_ips.Reassembly.RangeBuffer.{
  RangeBuffer, WriteOutcome, write, contiguous_end, drain_contiguous_upto, buffered_bytes, sat_add,
}
use cyber_sentinel_ids_ips.Reassembly.RangeBuffer as Buffer

abbrev pub max_datagram_len : ℕ
max_datagram_len = 65535

abbrev pub max_holes_per_datagram : ℕ
max_holes_per_datagram = 128

abbrev pub sweep_interval : ℕ
sweep_interval = 5

pub record FragmentView : Type 0 where
  pub source : IpAddr
  pub destination : IpAddr
  pub identification : ℕ
  pub protocol : ℕ
  pub offset : ℕ
  pub more_fragments : Bool
  pub payload : List ℕ

pub record FragmentKey : Type 0 where
  pub source : IpAddr
  pub destination : IpAddr
  pub identification : ℕ
  pub protocol : ℕ

pub record Reassembled : Type 0 where
  pub source : IpAddr
  pub destination : IpAddr
  pub protocol : ℕ
  pub content : List ℕ
  pub fragments : ℕ
  pub conflicting_bytes : ℕ

pub record DefragCounters : Type 0 where
  pub fragments : ℕ
  pub completed : ℕ
  pub started : ℕ
  pub timed_out : ℕ
  pub evicted : ℕ
  pub overlaps : ℕ
  pub conflicting_overlaps : ℕ
  pub oversized : ℕ
  pub refused_bytes : ℕ
  pub misaligned : ℕ

pub record FragmentSet : Type 0 where
  pub buffer : RangeBuffer
  pub first_seen : ℕ
  pub last_seen : ℕ
  pub total_len : Option ℕ
  pub fragments : ℕ
  pub conflicting_bytes : ℕ
  pub source : IpAddr
  pub destination : IpAddr
  pub protocol : ℕ

unfoldable pub fragment_key_eq : FragmentKey → FragmentKey → Bool
fragment_key_eq a b =
    ip_eq a.source b.source
    && ip_eq a.destination b.destination
    && a.identification == b.identification
    && a.protocol == b.protocol

pub fragment_key_eq_iff : (a b : FragmentKey) → (fragment_key_eq a b ≡ true) ↔ (a ≡ b)
unfolding fragment_key_eq
fragment_key_eq_iff a b =
    ground (arith, ip_eq_iff a.source b.source, ip_eq_iff a.destination b.destination)

instance abbrev pub fragment_key : Key FragmentKey
fragment_key = record { key_eq = fragment_key_eq; key_eq_iff = fragment_key_eq_iff }

pub record Defragmenter : Type 0 where
  pub sets : Map FragmentKey FragmentSet
  pub max_sets : ℕ
  pub max_bytes_total : ℕ
  pub timeout : ℕ
  pub counters : DefragCounters
  pub last_sweep : Option ℕ

unfoldable pub new : ReassemblyConfig → Defragmenter
new config = record {
  sets = [];
  max_sets = max config.max_fragment_sets 1;
  max_bytes_total = max config.max_fragment_bytes_total 1;
  timeout = max config.fragment_timeout_secs 1;
  counters = record {
    fragments = 0;
    completed = 0;
    started = 0;
    timed_out = 0;
    evicted = 0;
    overlaps = 0;
    conflicting_overlaps = 0;
    oversized = 0;
    refused_bytes = 0;
    misaligned = 0;
  };
  last_sweep = none;
}

pub active_sets : Defragmenter → ℕ
active_sets d = length d.sets

abbrev pub sum_buffered : Map FragmentKey FragmentSet → ℕ
sum_buffered [] = 0
sum_buffered ((key, set) ∷ sets) = buffered_bytes set.buffer + sum_buffered sets

-- The method `buffered_bytes`.
pub held_bytes : Defragmenter → ℕ
held_bytes d = sum_buffered d.sets

pub capacity : Defragmenter → ℕ
capacity d = d.max_sets

-- `duration_since` fails where `now` is before `last_seen`, and the source takes zero.
pub sweep : Defragmenter → ℕ → Defragmenter
sweep d now =
    let sets = retain_map (λ _ set. ltb (now - set.last_seen) d.timeout) d.sets in
    record d {
      sets = sets;
      last_sweep = some now;
      counters = record (d.counters) {
        timed_out = d.counters.timed_out + (length d.sets - length sets);
      };
    }

-- Whether a sweep is due.
abbrev pub sweep_due : Option ℕ → ℕ → Bool
sweep_due none now = true
sweep_due (some last) now = leb last now && leb sweep_interval (now - last)

pub maybe_sweep : Defragmenter → ℕ → Defragmenter
unfolding sweep
maybe_sweep d now = if sweep_due d.last_sweep now then sweep d now else d

-- The keys by age. `sort_unstable_by_key` leaves the order of equal ages open; this is one that it
-- may give.
insert_by_age : ℕ × FragmentKey → List (ℕ × FragmentKey) → List (ℕ × FragmentKey)
insert_by_age e [] = e ∷ []
insert_by_age e (x ∷ xs) =
    let rest = insert_by_age e xs in if leb e.0 x.0 then e ∷ x ∷ xs else x ∷ rest

pub by_age : Map FragmentKey FragmentSet → List (ℕ × FragmentKey)
unfolding insert_by_age
by_age [] = []
by_age ((key, set) ∷ sets) = insert_by_age (set.first_seen, key) (by_age sets)

pub evict : List (ℕ × FragmentKey) → Defragmenter → Defragmenter
evict [] d = d
evict ((_, key) ∷ keys) d =
    let gone = evict keys (record d {
      sets = remove key d.sets;
      counters = record (d.counters) { evicted = d.counters.evicted + 1 };
    }) in
    let rest = evict keys d in if contains_key key d.sets then gone else rest

abbrev pub has_room : Defragmenter → Bool
has_room d = ltb (length d.sets) d.max_sets && ltb (sum_buffered d.sets) d.max_bytes_total

pub make_room : Defragmenter → ℕ → Defragmenter
unfolding sweep
make_room d now =
    let swept = sweep d now in
    if has_room d
    then d
    else if has_room swept
    then swept
    else evict (take (max (d.max_sets / 10) 1) (by_age swept.sets)) swept

abbrev pub key_of : FragmentView → FragmentKey
key_of fragment = record {
  source = fragment.source;
  destination = fragment.destination;
  identification = fragment.identification;
  protocol = fragment.protocol;
}

abbrev pub fresh_set : FragmentView → ℕ → FragmentSet
fresh_set fragment now = record {
  buffer = Buffer.new 0 max_datagram_len max_holes_per_datagram;
  first_seen = now;
  last_seen = now;
  total_len = none;
  fragments = 0;
  conflicting_bytes = 0;
  source = fragment.source;
  destination = fragment.destination;
  protocol = fragment.protocol;
}

-- The set of the fragment's datagram, begun where there is none.
pub open_set : Defragmenter → FragmentView → ℕ → Defragmenter
unfolding make_room
open_set d fragment now =
    let roomy = make_room d now in
    if contains_key (key_of fragment) d.sets then d else record roomy {
      sets = insert (key_of fragment) (fresh_set fragment now) roomy.sets;
      counters = record (roomy.counters) { started = roomy.counters.started + 1 };
    }

-- `get_or_insert`: the first claim stays.
abbrev pub total_claimed : Option ℕ → Bool → ℕ → Option ℕ
total_claimed (some total) more end = some total
total_claimed none more end = if more then none else some end

abbrev pub is_complete : Option ℕ → RangeBuffer → Bool
is_complete none buffer = false
is_complete (some total) buffer = leb total (contiguous_end buffer)

abbrev total_or_zero : Option ℕ → ℕ
total_or_zero none = 0
total_or_zero (some total) = total

-- The set with the fragment in it.
abbrev pub joined_set :
    FragmentSet → FragmentView → ℕ → ℕ → RangeBuffer → WriteOutcome → FragmentSet
joined_set set fragment now end buffer outcome = record set {
  buffer = buffer;
  fragments = set.fragments + 1;
  last_seen = max set.last_seen now;
  conflicting_bytes = set.conflicting_bytes + outcome.conflicting;
  total_len = total_claimed set.total_len fragment.more_fragments end;
}

-- The end of `push`: a datagram that is complete leaves the table.
pub finish : Defragmenter → FragmentKey → FragmentSet → Option (Defragmenter × Option Reassembled)
finish d key set =
    if not (is_complete set.total_len set.buffer)
    then some (record d { sets = insert key set d.sets }, none)
    else (do
      (buffer, content, count) ← drain_contiguous_upto set.buffer (total_or_zero set.total_len) []
      some (
        record d {
          sets = remove key d.sets;
          counters = record (d.counters) { completed = d.counters.completed + 1 };
        },
        some (record {
          source = set.source;
          destination = set.destination;
          protocol = set.protocol;
          content = content;
          fragments = set.fragments;
          conflicting_bytes = set.conflicting_bytes;
        }),
      ))

-- `push` from the lookup of the set on.
pub push_into :
    Defragmenter
    → FragmentView
    → ℕ
    → OverlapPolicy
    → Option FragmentSet
    → Option (Defragmenter × Option Reassembled)
unfolding finish
push_into d fragment now policy none = some (d, none)
push_into d fragment now policy (some set) =
    let offset = fragment.offset * 8 in
    let end = sat_add offset (length fragment.payload) in
    do
      (buffer, outcome) ← write set.buffer offset fragment.payload policy
      finish
          (record d {
            counters = record (d.counters) {
              overlaps = d.counters.overlaps + outcome.overlapped;
              conflicting_overlaps = d.counters.conflicting_overlaps + outcome.conflicting;
              refused_bytes = d.counters.refused_bytes + outcome.refused;
            };
          })
          (key_of fragment) (joined_set set fragment now end buffer outcome)

abbrev pub is_misaligned : FragmentView → Bool
is_misaligned fragment =
    fragment.more_fragments
    && not (length fragment.payload == 0)
    && not (length fragment.payload % 8 == 0)

pub push :
    Defragmenter → FragmentView → ℕ → OverlapPolicy → Option (Defragmenter × Option Reassembled)
unfolding maybe_sweep open_set push_into
push d₀ fragment now policy =
    let d =
      maybe_sweep
        (record d₀ { counters = record (d₀.counters) { fragments = d₀.counters.fragments + 1 } })
        now in
    let oversized = record d {
      counters = record (d.counters) { oversized = d.counters.oversized + 1 };
    } in
    let aligned = record d {
      counters = record (d.counters) {
        misaligned =
            if is_misaligned fragment then d.counters.misaligned + 1 else d.counters.misaligned;
      };
    } in
    let opened = open_set aligned fragment now in
    if ltb max_datagram_len (sat_add (fragment.offset * 8) (length fragment.payload))
    then some (oversized, none)
    else push_into opened fragment now policy (get (key_of fragment) opened.sets)
