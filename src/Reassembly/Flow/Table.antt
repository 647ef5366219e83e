-- ===== src/Reassembly/Flow/Table.antt =====
-- crates/reassembly/src/flow.rs: the table of live flows. A panic of a range buffer is `none`. The
-- source's map gives its entries in no particular order, and equal ages are sorted in no particular
-- order; the orders here are among those.
use Prim.Native.Nat.{bit_or}
use cyber_sentinel_ids_ips.Prelude.{
  ℕ, ◌+◌, ◌-◌, ◌/◌, max, Bool, true, false, ◌&&◌, not, Option, none, some, List, [], ◌∷◌, ◌++◌,
  length, take, ltb, leb, ◌==◌, if◌then◌else◌, ◌>>=◌,
}
use cyber_sentinel_ids_ips.Common.Net.{IpAddr}
use cyber_sentinel_ids_ips.Common.Config.{OverlapPolicy, ReassemblyConfig, default_config}
use cyber_sentinel_ids_ips.Common.Map.{Map, get, contains_key, insert, remove}
use cyber_sentinel_ids_ips.Common.Endpoint.{endpoint_eq}
use cyber_sentinel_ids_ips.Reassembly.Stream.{
  StreamPair, StreamCounters, StreamReady, TcpSegment, no_counters, merge, push_pair, flush,
  rst_should_close, has, flag_fin, flag_rst,
}
use cyber_sentinel_ids_ips.Reassembly.Stream as Conversation
use cyber_sentinel_ids_ips.Reassembly.Flow.{
  Limits, FlowKey, table_key, Flow, DirectionCounters, responder, is_closed, flow_stream_counters,
  flow_buffered_bytes, tcp_protocol, EndReason, closed, timed_out, evicted, sensor_stopped,
  EndedFlow, Observed, FlowCounters, no_flow_counters, PacketSummary, derive_flow_id,
}
use cyber_sentinel_ids_ips.Reassembly.Flow as Key

pub record FlowTable : Type 0 where
  pub flows : Map FlowKey Flow
  pub limits : Limits
  pub reassembly : ReassemblyConfig
  pub stream_bytes : ℕ
  pub finished_stream_counters : StreamCounters
  pub counters : FlowCounters
  pub ended : List EndedFlow
  pub last_sweep : Option ℕ

-- 10 seconds.
abbrev pub sweep_interval : ℕ
sweep_interval = 10000000000

abbrev pub eviction_batch_fraction : ℕ
eviction_batch_fraction = 10

unfoldable pub with_reassembly : Limits → ReassemblyConfig → FlowTable
with_reassembly limits reassembly = record {
  flows = [];
  limits = limits;
  reassembly = reassembly;
  stream_bytes = 0;
  finished_stream_counters = no_counters;
  counters = no_flow_counters;
  ended = [];
  last_sweep = none;
}

unfoldable pub new : Limits → FlowTable
unfolding with_reassembly
new limits = with_reassembly limits default_config

pub len : FlowTable → ℕ
len t = length t.flows

pub capacity : FlowTable → ℕ
capacity t = t.limits.max_flows

abbrev pub none_ready : StreamReady
none_ready = record { to_server = []; to_client = [] }

-- The streams behind a flush, and what it delivers.
abbrev pub flush_streams : Option StreamPair → Option (Option StreamPair × StreamReady)
flush_streams none = some (none, none_ready)
flush_streams (some streams) = do
  (flushed, ready) ← flush streams none_ready
  some (some flushed, ready)

abbrev pub merge_finished : StreamCounters → Option StreamCounters → StreamCounters
merge_finished totals none = totals
merge_finished totals (some counters) = merge totals counters

-- The table behind the flush of a flow that has left it.
abbrev pub report : FlowTable → Flow → EndReason → Option StreamPair × StreamReady → FlowTable
report t flow reason (streams, final_ready) =
    let flushed = record flow { streams = streams } in
    record t {
      finished_stream_counters =
          merge_finished t.finished_stream_counters (flow_stream_counters flushed);
      stream_bytes = t.stream_bytes - flow_buffered_bytes flow;
      ended =
          t.ended ++ (record { flow = flushed; reason = reason; final_ready = final_ready } ∷ []);
    }

unfoldable pub end_flow : FlowTable → Flow → EndReason → Option FlowTable
end_flow t flow reason = do
  flushed ← flush_streams flow.streams
  some (report t flow reason flushed)

-- The counter of the reason.
abbrev pub count_ended : EndReason → FlowCounters → FlowCounters
count_ended closed c = record c { flows_closed = c.flows_closed + 1 }
count_ended timed_out c = record c { flows_timed_out = c.flows_timed_out + 1 }
count_ended evicted c = record c { flows_evicted = c.flows_evicted + 1 }
count_ended sensor_stopped c = c

-- `if let Some(flow) = self.flows.remove(&key)`, which counts the flow and ends it.
abbrev pub end_found : FlowTable → FlowKey → EndReason → Option Flow → Option FlowTable
end_found t key reason none = some t
end_found t key reason (some flow) =
    end_flow (record t { flows = remove key t.flows; counters = count_ended reason t.counters })
      flow reason

unfoldable pub remove_and_end : FlowTable → FlowKey → EndReason → Option FlowTable
unfolding end_flow
remove_and_end t key reason = end_found t key reason (get key t.flows)

unfoldable pub end_all : EndReason → List FlowKey → FlowTable → Option FlowTable
unfolding remove_and_end
end_all reason [] t = some t
end_all reason (key ∷ keys) t = remove_and_end t key reason >>= end_all reason keys

-- `now.duration_since(flow.last_seen).unwrap_or_default() >= timeout`.
abbrev pub is_idle : ℕ → ℕ → Flow → Bool
is_idle now timeout flow = leb timeout (now - flow.last_seen)

unfoldable pub expired_keys : ℕ → ℕ → Map FlowKey Flow → List FlowKey
expired_keys now timeout [] = []
expired_keys now timeout ((key, flow) ∷ flows) =
    let rest = expired_keys now timeout flows in
    if is_idle now timeout flow then key ∷ rest else rest

unfoldable pub sweep : FlowTable → ℕ → Option FlowTable
unfolding end_all expired_keys
sweep t now =
    end_all timed_out (expired_keys now t.limits.flow_timeout t.flows)
      (record t { last_sweep = some now })

abbrev pub is_due : ℕ → Option ℕ → Bool
is_due now none = true
is_due now (some last) = leb last now && leb sweep_interval (now - last)

unfoldable pub maybe_sweep : FlowTable → ℕ → Option FlowTable
unfolding sweep
maybe_sweep t now = if is_due now t.last_sweep then sweep t now else some t

abbrev pub within_limits : FlowTable → Bool
within_limits t =
    ltb (length t.flows) t.limits.max_flows
    && ltb t.stream_bytes t.reassembly.max_stream_bytes_total

unfoldable pub insert_by_age : ℕ × FlowKey → List (ℕ × FlowKey) → List (ℕ × FlowKey)
insert_by_age e [] = e ∷ []
insert_by_age e (x ∷ xs) =
    let rest = insert_by_age e xs in if leb e.0 x.0 then e ∷ x ∷ xs else x ∷ rest

unfoldable pub by_age : Map FlowKey Flow → List (ℕ × FlowKey)
unfolding insert_by_age
by_age [] = []
by_age ((key, flow) ∷ flows) = insert_by_age (flow.last_seen, key) (by_age flows)

unfoldable pub keys_of : List (ℕ × FlowKey) → List FlowKey
keys_of [] = []
keys_of ((_, key) ∷ rest) = key ∷ keys_of rest

unfoldable pub evict_batch : FlowTable → Option FlowTable
unfolding by_age keys_of end_all
evict_batch t =
    let batch = max (t.limits.max_flows / eviction_batch_fraction) 1 in
    end_all evicted (keys_of (take batch (by_age t.flows))) t

unfoldable pub make_room : FlowTable → ℕ → Option FlowTable
unfolding sweep evict_batch
make_room t now =
    if within_limits t
    then some t
    else sweep t now >>= λ swept. if within_limits swept then some swept else evict_batch swept

abbrev pub fresh_flow : ReassemblyConfig → FlowKey → PacketSummary → Flow
fresh_flow reassembly key packet = record {
  id = derive_flow_id key packet.timestamp;
  key = key;
  initiator = packet.source;
  start = packet.timestamp;
  last_seen = packet.timestamp;
  to_server = record { packets = 0; bytes = 0 };
  to_client = record { packets = 0; bytes = 0 };
  tcp_flags_seen = 0;
  fin_from_initiator = false;
  fin_from_responder = false;
  saw_reset = false;
  streams = if packet.protocol == tcp_protocol then some (Conversation.new reassembly) else none;
}

-- `entry(key).or_insert_with(..)`: the flow, and the counters.
abbrev pub entry : FlowTable → FlowKey → PacketSummary → Option Flow → Flow × FlowCounters
entry t key packet none = (
  fresh_flow t.reassembly key packet,
  record (t.counters) { flows_created = t.counters.flows_created + 1 },
)
entry t key packet (some flow) = (flow, t.counters)

abbrev pub bump : DirectionCounters → ℕ → DirectionCounters
bump d frame_len = record { packets = d.packets + 1; bytes = d.bytes + frame_len }

-- The direction's counters, and when the flow was last seen.
unfoldable pub count_packet : Flow → PacketSummary → Bool → Flow
count_packet flow packet to_server = record flow {
  to_server = if to_server then bump flow.to_server packet.frame_len else flow.to_server;
  to_client = if to_server then flow.to_client else bump flow.to_client packet.frame_len;
  last_seen = max flow.last_seen packet.timestamp;
}

unfoldable pub note_flags : Flow → TcpSegment → Bool → Flow
note_flags flow segment to_server =
    let fin = has segment flag_fin in
    record flow {
      tcp_flags_seen = bit_or flow.tcp_flags_seen segment.flags;
      fin_from_initiator = if fin && to_server then true else flow.fin_from_initiator;
      fin_from_responder = if fin && not to_server then true else flow.fin_from_responder;
    }

-- A reset that the destination acts on ends the flow; another one is counted.
unfoldable pub note_reset : Flow → TcpSegment → Bool → Bool → Flow × ℕ
note_reset flow segment closes to_server =
    if has segment flag_rst
    then (if closes then (record flow { saw_reset = true }, 0) else (flow, 1))
    else (flow, 0)

-- The flow, what is ready, and how many resets were ignored.
unfoldable pub absorb :
    (IpAddr → OverlapPolicy)
    → Flow
    → TcpSegment
    → Bool
    → StreamReady
    → Option StreamPair
    → Option (Flow × StreamReady × ℕ)
unfolding responder note_reset
absorb policy flow segment to_server ready none =
    let (noted, ignored) = note_reset flow segment true to_server in some (noted, ready, ignored)
absorb policy flow segment to_server ready (some streams) = do
  (pushed, grown) ←
      push_pair streams to_server segment (policy (responder flow).address)
        (policy flow.initiator.address) ready
  let closes = rst_should_close pushed to_server segment.sequence
  let (noted, ignored) = note_reset (record flow { streams = some pushed }) segment closes to_server
  some (noted, grown, ignored)

unfoldable pub absorb_segment :
    (IpAddr → OverlapPolicy)
    → Flow
    → Option TcpSegment
    → Bool
    → StreamReady
    → Option (Flow × StreamReady × ℕ)
unfolding note_flags absorb
absorb_segment policy flow none to_server ready = some (flow, ready, 0)
absorb_segment policy flow (some segment) to_server ready =
    let noted = note_flags flow segment to_server in
    absorb policy noted segment to_server ready noted.streams

abbrev pub close_if : Bool → FlowTable → FlowKey → Option FlowTable
close_if ends t key = if ends then remove_and_end t key closed else some t

-- `observe` behind the sweep and the eviction.
unfoldable pub observe_in :
    FlowTable
    → PacketSummary
    → FlowKey
    → Bool
    → (IpAddr → OverlapPolicy)
    → StreamReady
    → Option (FlowTable × StreamReady × Observed)
unfolding count_packet absorb_segment
observe_in t packet key is_new policy ready = do
  let (flow, counters) = entry t key packet (get key t.flows)
  let to_server = endpoint_eq packet.source flow.initiator
  let counted = count_packet flow packet to_server
  (after, grown, ignored) ← absorb_segment policy counted packet.tcp to_server ready
  ended ←
      close_if (is_closed after)
        (record t {
          flows = insert key after t.flows;
          counters = record counters { resets_ignored = counters.resets_ignored + ignored };
          stream_bytes = t.stream_bytes + flow_buffered_bytes after - flow_buffered_bytes counted;
        })
        key
  some (ended, grown, record { flow_id = after.id; is_to_server = to_server; is_new = is_new })

unfoldable pub observe :
    FlowTable
    → PacketSummary
    → (IpAddr → OverlapPolicy)
    → StreamReady
    → Option (FlowTable × StreamReady × Observed)
unfolding maybe_sweep make_room observe_in
observe t packet policy ready = do
  swept ← maybe_sweep t packet.timestamp
  let key = Key.new packet.protocol packet.source packet.destination
  let is_new = not (contains_key key swept.flows)
  roomy ← if is_new then make_room swept packet.timestamp else some swept
  observe_in roomy packet key is_new policy ready

-- `flush`: every flow that is left.
unfoldable pub end_drained : Map FlowKey Flow → FlowTable → Option FlowTable
end_drained [] t = some t
end_drained ((_, flow) ∷ flows) t = end_flow t flow sensor_stopped >>= end_drained flows

unfoldable pub flush_table : FlowTable → Option FlowTable
unfolding end_drained
flush_table t = end_drained t.flows (record t { flows = [] })

unfoldable pub sum_counters : StreamCounters → Map FlowKey Flow → StreamCounters
sum_counters totals [] = totals
sum_counters totals ((_, flow) ∷ flows) =
    sum_counters (merge_finished totals (flow_stream_counters flow)) flows

pub stream_counters : FlowTable → StreamCounters
unfolding sum_counters
stream_counters t = sum_counters t.finished_stream_counters t.flows
