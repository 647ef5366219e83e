-- ===== src/Reassembly/Stream.antt =====
-- crates/reassembly/src/stream.rs: one TCP conversation put together again. Sequence numbers wrap at
-- 32 bits; offsets and counters are natural numbers, which the source holds in 63 and 64 bits. A
-- panic of the range buffer is `none`.
pub mod Anchor
pub mod Store
pub mod Deliver
pub mod Pair
mod Tests
use Prim.Native.Nat.{bit_and}
use cyber_sentinel_ids_ips.Prelude.{
  ℕ, ◌+◌, ◌-◌, ◌%◌, ◌^◌, min, max, Bool, true, false, ◌&&◌, ◌||◌, not, Option, none, some, List, [],
  ◌∷◌, length, ltb, leb, ◌==◌, if◌then◌else◌, ◌>>=◌,
}
use cyber_sentinel_ids_ips.Common.Int.{ℤ, pos, negsuc, diff, at_least_zero, ends_by}
use cyber_sentinel_ids_ips.Common.Config.{OverlapPolicy, ReassemblyConfig}
use cyber_sentinel_ids_ips.Reassembly.RangeBuffer.{
  RangeBuffer, WriteOutcome, write, contiguous_end, covered_end, drain_contiguous_upto,
  buffered_bytes, reset,
}
use cyber_sentinel_ids_ips.Reassembly.RangeBuffer as Buffer

abbrev pub flag_fin : ℕ
flag_fin = 1

abbrev pub flag_syn : ℕ
flag_syn = 2

abbrev pub flag_rst : ℕ
flag_rst = 4

abbrev pub flag_ack : ℕ
flag_ack = 16

abbrev pub max_holes_per_stream : ℕ
max_holes_per_stream = 256

abbrev pub rst_sequence_slack : ℕ
rst_sequence_slack = 65535

pub record TcpSegment : Type 0 where
  pub sequence : ℕ
  pub acknowledgment : ℕ
  pub flags : ℕ
  pub payload : List ℕ

abbrev pub has : TcpSegment → ℕ → Bool
has segment flag = not (bit_and segment.flags flag == 0)

pub record StreamReady : Type 0 where
  pub to_server : List ℕ
  pub to_client : List ℕ

pub clear : StreamReady → StreamReady
clear ready = record { to_server = []; to_client = [] }

pub ready_is_empty : StreamReady → Bool
ready_is_empty ready = length ready.to_server == 0 && length ready.to_client == 0

pub ready_len : StreamReady → ℕ
ready_len ready = length ready.to_server + length ready.to_client

pub record StreamCounters : Type 0 where
  pub segments : ℕ
  pub bytes_accepted : ℕ
  pub bytes_delivered : ℕ
  pub overlaps : ℕ
  pub conflicting_overlaps : ℕ
  pub refused_bytes : ℕ
  pub out_of_window : ℕ
  pub before_window : ℕ
  pub after_fin : ℕ
  pub syn_data : ℕ
  pub flushed_unacked : ℕ
  pub dropped_incomplete : ℕ

abbrev pub no_counters : StreamCounters
no_counters = record {
  segments = 0;
  bytes_accepted = 0;
  bytes_delivered = 0;
  overlaps = 0;
  conflicting_overlaps = 0;
  refused_bytes = 0;
  out_of_window = 0;
  before_window = 0;
  after_fin = 0;
  syn_data = 0;
  flushed_unacked = 0;
  dropped_incomplete = 0;
}

pub merge : StreamCounters → StreamCounters → StreamCounters
merge a b = record {
  segments = a.segments + b.segments;
  bytes_accepted = a.bytes_accepted + b.bytes_accepted;
  bytes_delivered = a.bytes_delivered + b.bytes_delivered;
  overlaps = a.overlaps + b.overlaps;
  conflicting_overlaps = a.conflicting_overlaps + b.conflicting_overlaps;
  refused_bytes = a.refused_bytes + b.refused_bytes;
  out_of_window = a.out_of_window + b.out_of_window;
  before_window = a.before_window + b.before_window;
  after_fin = a.after_fin + b.after_fin;
  syn_data = a.syn_data + b.syn_data;
  flushed_unacked = a.flushed_unacked + b.flushed_unacked;
  dropped_incomplete = a.dropped_incomplete + b.dropped_incomplete;
}

-- One direction.
pub record Stream : Type 0 where
  pub base_sequence : ℕ
  pub established : Bool
  pub buffer : RangeBuffer
  pub acknowledged_upto : ℕ
  pub fin_at : Option ℕ
  pub byte_limit : ℕ
  pub flush_bytes : ℕ
  pub counters : StreamCounters

abbrev pub new_stream : ℕ → ℕ → Stream
new_stream byte_limit flush_bytes = record {
  base_sequence = 0;
  established = false;
  buffer = Buffer.new 0 byte_limit max_holes_per_stream;
  acknowledged_upto = 0;
  fin_at = none;
  byte_limit = byte_limit;
  flush_bytes = flush_bytes;
  counters = no_counters;
}

-- `u32::wrapping_sub`, and `base + delta` for the difference read as an `i32`.
abbrev pub wrapping_sub : ℕ → ℕ → ℕ
wrapping_sub a b = (a + 2 ^ 32 - b) % 2 ^ 32

abbrev pub offset_by : ℕ → ℕ → ℤ
offset_by base delta = if ltb delta (2 ^ 31) then pos (base + delta) else diff base (2 ^ 32 - delta)

pub absolute : Stream → ℕ → ℤ
absolute s sequence = offset_by s.buffer.base (wrapping_sub sequence s.base_sequence)

abbrev pub is_empty_payload : List ℕ → Bool
is_empty_payload payload = length payload == 0

pub establish : Stream → TcpSegment → Stream
establish s segment =
    if s.established
    then s
    else if has segment flag_syn
    then record s { base_sequence = (segment.sequence + 1) % 2 ^ 32; established = true }
    else if not (is_empty_payload segment.payload)
    then record s { base_sequence = segment.sequence; established = true }
    else s

-- Whether an offset is at or past a FIN.
abbrev pub past_fin : Option ℕ → ℕ → Bool
past_fin none offset = false
past_fin (some fin_at) offset = leb fin_at offset

-- What a write adds to the counters.
abbrev pub count_write : StreamCounters → WriteOutcome → StreamCounters
count_write c outcome = record c {
  bytes_accepted = c.bytes_accepted + outcome.accepted;
  overlaps = c.overlaps + outcome.overlapped;
  conflicting_overlaps = c.conflicting_overlaps + outcome.conflicting;
  refused_bytes = c.refused_bytes + outcome.refused;
  before_window = c.before_window + outcome.before_window;
}

abbrev pub count_out_of_window : Stream → ℕ → Stream
count_out_of_window s n = record s {
  counters = record (s.counters) { out_of_window = s.counters.out_of_window + n };
}

-- `store` behind its first return, by the sign of the offset.
pub store_at : Stream → ℤ → List ℕ → OverlapPolicy → Option Stream
store_at s (negsuc _) payload policy = some (count_out_of_window s (length payload))
store_at s (pos offset) payload policy =
    if leb (s.buffer.base + s.byte_limit) offset
    then some (count_out_of_window s (length payload))
    else if past_fin s.fin_at offset
    then some (record s {
      counters = record (s.counters) { after_fin = s.counters.after_fin + length payload };
    })
    else (do
      (buffer, outcome) ← write s.buffer offset payload policy
      some (record s { buffer = buffer; counters = count_write s.counters outcome }))

pub store : Stream → ℕ → List ℕ → OverlapPolicy → Option Stream
unfolding store_at absolute
store s sequence payload policy =
    if ends_by (absolute s sequence) (length payload) s.buffer.base
    then some (record s {
      counters = record (s.counters) { before_window = s.counters.before_window + length payload };
    })
    else store_at s (absolute s sequence) payload policy

-- The sequence number of the payload: data on a SYN starts behind it.
abbrev pub data_sequence : TcpSegment → ℕ
data_sequence segment =
    if has segment flag_syn then (segment.sequence + 1) % 2 ^ 32 else segment.sequence

-- The earliest FIN.
abbrev pub earliest : Option ℕ → ℕ → ℕ
earliest none fin_at = fin_at
earliest (some existing) fin_at = min existing fin_at

abbrev pub count_segment : Stream → TcpSegment → Stream
count_segment s segment = record s {
  counters = record (s.counters) {
    segments =
        if is_empty_payload segment.payload then s.counters.segments else s.counters.segments + 1;
    syn_data =
        if has segment flag_syn
        then s.counters.syn_data + length segment.payload
        else s.counters.syn_data;
  };
}

abbrev pub close_at : Stream → TcpSegment → Stream
close_at s segment =
    let fin_at = at_least_zero (absolute s (data_sequence segment)) + length segment.payload in
    if has segment flag_fin then record s { fin_at = some (earliest s.fin_at fin_at) } else s

-- `push` of an anchored stream, behind the first counters.
pub push_anchored : Stream → TcpSegment → OverlapPolicy → Option Stream
push_anchored s segment policy = do
  stored ←
      if is_empty_payload segment.payload
      then some s
      else store s (data_sequence segment) segment.payload policy
  some (close_at stored segment)

pub push : Stream → TcpSegment → OverlapPolicy → Option Stream
unfolding establish
push s₀ segment policy =
    let s = establish s₀ segment in
    if not s.established then some s else push_anchored (count_segment s segment) segment policy

abbrev pub acknowledge_at : Stream → ℤ → Stream
acknowledge_at s (negsuc _) = s
acknowledge_at s (pos offset) =
    if ltb 0 offset then record s { acknowledged_upto = max s.acknowledged_upto offset } else s

pub acknowledge : Stream → ℕ → Stream
unfolding absolute
acknowledge s acknowledgment =
    if not s.established then s else acknowledge_at s (absolute s acknowledgment)

-- How far `deliver` may go, and what it counts as flushed.
abbrev pub delivery_limit : Stream → Bool → ℕ × ℕ
delivery_limit s force =
    let contiguous = contiguous_end s.buffer in
    let available = contiguous - s.buffer.base in
    if force
    then (contiguous, 0)
    else if leb s.flush_bytes available
    then (contiguous, available)
    else (min s.acknowledged_upto contiguous, 0)

-- The stream and the grown `out`.
pub deliver : Stream → List ℕ → Bool → Option (Stream × List ℕ)
deliver s out force = do
  (buffer, grown, count) ← drain_contiguous_upto s.buffer (delivery_limit s force).0 out
  some (
    record s {
      buffer = buffer;
      base_sequence = (s.base_sequence + (length grown - length out)) % 2 ^ 32;
      counters = record (s.counters) {
        flushed_unacked = s.counters.flushed_unacked + (delivery_limit s force).1;
        bytes_delivered = s.counters.bytes_delivered + (length grown - length out);
      };
    },
    grown,
  )

abbrev pub in_reset_window : RangeBuffer → ℤ → Bool
in_reset_window buffer (negsuc _) = false
in_reset_window buffer (pos offset) = leb offset (covered_end buffer + rst_sequence_slack)

pub rst_is_in_window : Stream → ℕ → Bool
unfolding absolute
rst_is_in_window s sequence =
    if not s.established then false else in_reset_window s.buffer (absolute s sequence)

pub discard : Stream → Stream
discard s = record s {
  counters = record (s.counters) {
    dropped_incomplete = s.counters.dropped_incomplete + buffered_bytes s.buffer;
  };
  buffer = reset s.buffer s.buffer.base;
}

-- Both directions.
pub record StreamPair : Type 0 where
  pub to_server : Stream
  pub to_client : Stream

unfoldable pub new : ReassemblyConfig → StreamPair
new config =
    let byte_limit = max config.max_stream_bytes_per_flow 1 in
    let flush = min (max config.delivery_flush_bytes 1) byte_limit in
    record { to_server = new_stream byte_limit flush; to_client = new_stream byte_limit flush }

abbrev pub acknowledge_if : TcpSegment → Stream → Stream
acknowledge_if segment s = if has segment flag_ack then acknowledge s segment.acknowledgment else s

-- `push` up to the deliveries.
pub offer : StreamPair → Bool → TcpSegment → OverlapPolicy → OverlapPolicy → Option StreamPair
offer pair true segment policy_to_server policy_to_client = do
  to_server ← push pair.to_server segment policy_to_server
  some (record { to_server = to_server; to_client = acknowledge_if segment pair.to_client })
offer pair false segment policy_to_server policy_to_client = do
  to_client ← push pair.to_client segment policy_to_client
  some (record { to_server = acknowledge_if segment pair.to_server; to_client = to_client })

-- The deliveries of `push` and `flush`.
abbrev pub deliver_both : StreamPair → StreamReady → Bool → Option (StreamPair × StreamReady)
deliver_both pair ready force = do
  (to_server, server_bytes) ← deliver pair.to_server ready.to_server force
  (to_client, client_bytes) ← deliver pair.to_client ready.to_client force
  some (
    record { to_server = to_server; to_client = to_client },
    record { to_server = server_bytes; to_client = client_bytes },
  )

-- The method `push` of the pair.
pub push_pair :
    StreamPair
    → Bool
    → TcpSegment
    → OverlapPolicy
    → OverlapPolicy
    → StreamReady
    → Option (StreamPair × StreamReady)
unfolding offer
push_pair pair to_server segment policy_to_server policy_to_client ready = do
  offered ← offer pair to_server segment policy_to_server policy_to_client
  deliver_both offered ready false

pub rst_should_close : StreamPair → Bool → ℕ → Bool
rst_should_close pair to_server sequence =
    rst_is_in_window (if to_server then pair.to_server else pair.to_client) sequence

pub flush : StreamPair → StreamReady → Option (StreamPair × StreamReady)
flush pair ready = do
  (delivered, grown) ← deliver_both pair ready true
  some (
    record { to_server = discard delivered.to_server; to_client = discard delivered.to_client },
    grown,
  )

pub pair_buffered_bytes : StreamPair → ℕ
pair_buffered_bytes pair =
    buffered_bytes pair.to_server.buffer + buffered_bytes pair.to_client.buffer

pub pair_counters : StreamPair → StreamCounters
pair_counters pair = merge pair.to_server.counters pair.to_client.counters

pub direction_counters : StreamPair → Bool → StreamCounters
direction_counters pair to_server =
    if to_server then pair.to_server.counters else pair.to_client.counters
