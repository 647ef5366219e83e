-- ===== src/Reassembly/Flow.antt =====
-- crates/reassembly/src/flow.rs, with `Limits` of lib.rs: one conversation and its identifier.
-- Instants and durations are nanoseconds, instants from the epoch on; packet, byte and flow counts
-- are natural numbers, which the source holds in 64 bits.
pub mod Table
pub mod Ending
pub mod Sweep
pub mod Ages
pub mod Evict
pub mod Absorb
pub mod Observe
pub mod Flush
mod Tests
use Prim.Native.Nat.{bit_and, bit_or, bit_xor}
use cyber_sentinel_ids_ips.Prelude.{
  ℕ, zero, suc, ◌+◌, ◌-◌, ◌*◌, ◌/◌, ◌%◌, ◌^◌, ◌≡◌, ◌↔◌, Bool, true, false, ◌&&◌, ◌||◌, not, Option,
  none, some, List, [], ◌∷◌, ◌++◌, ◌==◌, if◌then◌else◌, arith,
}
use cyber_sentinel_ids_ips.Common.Net.{IpAddr, v4, v6}
use cyber_sentinel_ids_ips.Common.Map.{Key}
use cyber_sentinel_ids_ips.Common.Endpoint.{
  Endpoint, endpoint_le, endpoint_eq, endpoint_eq_iff, endpoint_le_total, endpoint_le_antisym,
}
use cyber_sentinel_ids_ips.Reassembly.Stream.{
  StreamPair, StreamCounters, StreamReady, TcpSegment, pair_counters, pair_buffered_bytes,
}

pub record Limits : Type 0 where
  pub max_flows : ℕ
  pub max_bytes_per_flow : ℕ
  pub max_bytes_total : ℕ
  pub max_fragment_sets : ℕ
  pub flow_timeout : ℕ
  pub fragment_timeout : ℕ

abbrev pub default_limits : Limits
default_limits = record {
  max_flows = 65536;
  max_bytes_per_flow = 1048576;
  max_bytes_total = 536870912;
  max_fragment_sets = 4096;
  flow_timeout = 300000000000;
  fragment_timeout = 60000000000;
}

pub record FlowKey : Type 0 where
  pub protocol : ℕ
  pub first : Endpoint
  pub second : Endpoint

unfoldable pub new : ℕ → Endpoint → Endpoint → FlowKey
new protocol source destination =
    if endpoint_le source destination
    then record { protocol = protocol; first = source; second = destination }
    else record { protocol = protocol; first = destination; second = source }

unfoldable pub key_eq : FlowKey → FlowKey → Bool
key_eq a b =
    a.protocol == b.protocol && endpoint_eq a.first b.first && endpoint_eq a.second b.second

pub key_eq_iff : (a b : FlowKey) → (key_eq a b ≡ true) ↔ (a ≡ b)
unfolding key_eq
key_eq_iff a b = ground (arith, endpoint_eq_iff a.first b.first, endpoint_eq_iff a.second b.second)

instance abbrev pub table_key : Key FlowKey
table_key = record { key_eq = key_eq; key_eq_iff = key_eq_iff }

-- A packet and its answer have one key.
pub new-swapped :
    (protocol : ℕ) (source destination : Endpoint)
    → new protocol destination source ≡ new protocol source destination
unfolding new
new-swapped protocol source destination = ground (
  arith,
  endpoint_le_total source destination,
  endpoint_le_total destination source,
  endpoint_le_antisym source destination,
  endpoint_le_antisym destination source,
)

pub record DirectionCounters : Type 0 where
  pub packets : ℕ
  pub bytes : ℕ

pub record Flow : Type 0 where
  pub id : ℕ
  pub key : FlowKey
  pub initiator : Endpoint
  pub start : ℕ
  pub last_seen : ℕ
  pub to_server : DirectionCounters
  pub to_client : DirectionCounters
  pub tcp_flags_seen : ℕ
  pub fin_from_initiator : Bool
  pub fin_from_responder : Bool
  pub saw_reset : Bool
  pub streams : Option StreamPair

unfoldable pub responder : Flow → Endpoint
responder flow =
    if endpoint_eq flow.initiator flow.key.first then flow.key.second else flow.key.first

pub oriented_tuple : Flow → Endpoint × Endpoint
unfolding responder
oriented_tuple flow = (flow.initiator, responder flow)

-- `duration_since(..).unwrap_or_default()`.
pub duration : Flow → ℕ
duration flow = flow.last_seen - flow.start

abbrev pub is_closed : Flow → Bool
is_closed flow = flow.saw_reset || (flow.fin_from_initiator && flow.fin_from_responder)

abbrev pub counters_of : Option StreamPair → Option StreamCounters
counters_of none = none
counters_of (some streams) = some (pair_counters streams)

abbrev pub flow_stream_counters : Flow → Option StreamCounters
flow_stream_counters flow = counters_of flow.streams

abbrev pub buffered_in : Option StreamPair → ℕ
buffered_in none = 0
buffered_in (some streams) = pair_buffered_bytes streams

abbrev pub flow_buffered_bytes : Flow → ℕ
flow_buffered_bytes flow = buffered_in flow.streams

abbrev pub tcp_protocol : ℕ
tcp_protocol = 6

-- The letters of the flags, as their character codes: `FSRPAUEC`.
abbrev pub flag_letters : List ℕ
flag_letters = 70 ∷ 83 ∷ 82 ∷ 80 ∷ 65 ∷ 85 ∷ 69 ∷ 67 ∷ []

unfoldable pub letters_from : ℕ → ℕ → List ℕ → List ℕ
letters_from flags bit [] = []
letters_from flags bit (letter ∷ letters) =
    let rest = letters_from flags (suc bit) letters in
    if bit_and flags (2 ^ bit) == 0 then rest else letter ∷ rest

pub tcp_flags_string : Flow → Option (List ℕ)
unfolding letters_from
tcp_flags_string flow =
    if flow.key.protocol == tcp_protocol
    then some (letters_from flow.tcp_flags_seen 0 flag_letters)
    else none

pub data EndReason : Type 0 where
  closed timed_out evicted sensor_stopped : EndReason

pub record EndedFlow : Type 0 where
  pub flow : Flow
  pub reason : EndReason
  pub final_ready : StreamReady

pub record Observed : Type 0 where
  pub flow_id : ℕ
  pub is_to_server : Bool
  pub is_new : Bool

pub record FlowCounters : Type 0 where
  pub flows_created : ℕ
  pub flows_closed : ℕ
  pub flows_timed_out : ℕ
  pub flows_evicted : ℕ
  pub resets_ignored : ℕ

abbrev pub no_flow_counters : FlowCounters
no_flow_counters = record {
  flows_created = 0;
  flows_closed = 0;
  flows_timed_out = 0;
  flows_evicted = 0;
  resets_ignored = 0;
}

pub record PacketSummary : Type 0 where
  pub protocol : ℕ
  pub source : Endpoint
  pub destination : Endpoint
  pub timestamp : ℕ
  pub frame_len : ℕ
  pub payload : List ℕ
  pub tcp : Option TcpSegment

-- The lowest `count` bytes of a number, the highest first: `to_be_bytes` and `octets`.
unfoldable pub be_bytes : ℕ → ℕ → List ℕ
be_bytes zero n = []
be_bytes (suc count) n = (n / 256 ^ count) % 256 ∷ be_bytes count n

abbrev pub fnv_prime : ℕ
fnv_prime = 1099511628211

abbrev pub fnv_offset_basis : ℕ
fnv_offset_basis = 14695981039346656037

unfoldable pub mix : ℕ → List ℕ → ℕ
mix hash [] = hash
mix hash (byte ∷ bytes) = mix ((bit_xor hash byte * fnv_prime) % 2 ^ 64) bytes

abbrev pub octets : IpAddr → List ℕ
octets (v4 a) = be_bytes 4 a
octets (v6 a) = be_bytes 16 a

abbrev pub mix_endpoint : ℕ → Endpoint → ℕ
mix_endpoint hash endpoint = mix (mix hash (octets endpoint.address)) (be_bytes 2 endpoint.port)

unfoldable pub derive_flow_id : FlowKey → ℕ → ℕ
unfolding be_bytes mix
derive_flow_id key start =
    let keyed =
      mix_endpoint (mix_endpoint (mix fnv_offset_basis (key.protocol ∷ [])) key.first) key.second in
    let hash = mix keyed (be_bytes 8 (start % 2 ^ 64)) in if hash == 0 then 1 else hash
