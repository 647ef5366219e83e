-- ===== src/Reassembly/Defrag/Tests.antt =====
-- The defragmenter on concrete fragments.
use cyber_sentinel_ids_ips.Prelude.{◌≡◌, refl, true, false, some, [], ◌∷◌, arith}
use cyber_sentinel_ids_ips.Common.Net.{v4, ip_eq}
use cyber_sentinel_ids_ips.Common.Map.{get, insert, contains_key}
use cyber_sentinel_ids_ips.Common.Config.{first, ReassemblyConfig}
use cyber_sentinel_ids_ips.Reassembly.Defrag.{
  FragmentView, FragmentSet, Defragmenter, key_of, new, fragment_key, fragment_key_eq, fresh_set,
}
use cyber_sentinel_ids_ips.Reassembly.Defrag.Bounds.{IsBounded, IsFragmentSet, insert-IsTable}
use cyber_sentinel_ids_ips.Reassembly.Defrag.Push.{Finishes, finish-Finishes, Pushes, push-Pushes}

abbrev config : ReassemblyConfig
config = record {
  overlap_policy = first;
  host_policies = [];
  max_fragment_sets = 1;
  max_fragment_bytes_total = 4096;
  fragment_timeout_secs = 60;
  max_stream_bytes_per_flow = 4096;
  max_stream_bytes_total = 4096;
  delivery_flush_bytes = 1024;
}

-- The second half of a datagram of eleven bytes.
abbrev tail : FragmentView
tail = record {
  source = v4 167772161;
  destination = v4 167772162;
  identification = 7;
  protocol = 17;
  offset = 1;
  more_fragments = false;
  payload = 104 ∷ 101 ∷ 120 ∷ [];
}

new-IsBounded : IsBounded (new config)
unfolding new get
new-IsBounded = record {
  table = record { is_map = tt; each = λ key set h. absurd (cc h) };
  capped = omega arith;
  some_sets = omega arith;
}

push-Pushes_example : Pushes (new config) tail 100 first
push-Pushes_example = push-Pushes (new config) tail 100 first new-IsBounded

-- A set with all of three bytes, and the length known.
abbrev full : FragmentSet
full = record (fresh_set tail 100) {
  buffer = record {
    base = 0;
    content = 97 ∷ 98 ∷ 99 ∷ [];
    covered = record { start = 0; end = 3 } ∷ [];
    byte_limit = 65535;
    range_limit = 128;
  };
  total_len = some 3;
  conflicting_bytes = 1;
}

full-IsFragmentSet : IsFragmentSet full
full-IsFragmentSet = record {
  valid = omega arith;
  from_zero = refl;
  byte_cap = refl;
  hole_cap = refl;
}

abbrev waiting : Defragmenter
waiting = record (new config) { sets = (key_of tail, full) ∷ [] }

waiting-IsBounded : IsBounded waiting
unfolding new insert
waiting-IsBounded = record {
  table = insert-IsTable (key_of tail) full [] full-IsFragmentSet new-IsBounded.table;
  capped = omega arith;
  some_sets = omega arith;
}

waiting-there : contains_key (key_of tail) waiting.sets ≡ true
unfolding get fragment_key_eq ip_eq
waiting-there = refl

finish-Finishes_example : Finishes waiting (key_of tail) full
finish-Finishes_example =
    finish-Finishes waiting (key_of tail) full waiting-IsBounded full-IsFragmentSet waiting-there
