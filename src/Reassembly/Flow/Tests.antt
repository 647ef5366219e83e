-- ===== src/Reassembly/Flow/Tests.antt =====
-- A small flow table.
use mathlib.Core.Path.{subst}
use cyber_sentinel_ids_ips.Prelude.{◌≡◌, refl, some, List, [], ◌++◌, ◌∷◌, arith, inl, inr}
use cyber_sentinel_ids_ips.Common.Net.{v4}
use cyber_sentinel_ids_ips.Common.Config.{OverlapPolicy, first, default_config}
use cyber_sentinel_ids_ips.Common.Map.{get, insert, get-insert-some, insert-IsMap, total_of}
use cyber_sentinel_ids_ips.Common.Endpoint.{Endpoint}
use cyber_sentinel_ids_ips.Reassembly.Stream as Conversation
use cyber_sentinel_ids_ips.Reassembly.Stream.{TcpSegment, StreamReady}
use cyber_sentinel_ids_ips.Reassembly.Stream.Store.{new-IsStream, pair_buffered_bytes-new}
use cyber_sentinel_ids_ips.Reassembly.Flow.{
  FlowKey, table_key, key_eq, Flow, EndedFlow, PacketSummary, Observed, Limits, default_limits,
  is_closed, derive_flow_id, new-swapped, no_flow_counters, flow_buffered_bytes,
}
use cyber_sentinel_ids_ips.Reassembly.Flow as Key
use cyber_sentinel_ids_ips.Reassembly.Flow.Table.{
  FlowTable, sweep, evict_batch, observe, flush_table, fresh_flow, none_ready,
}
use cyber_sentinel_ids_ips.Reassembly.Flow.Ending.{IsBooked, Settles}
use cyber_sentinel_ids_ips.Reassembly.Flow.Sweep.{if_busy, sweep_ends_idle}
use cyber_sentinel_ids_ips.Reassembly.Flow.Evict.{Evicts, evict_batch-Evicts}
use cyber_sentinel_ids_ips.Reassembly.Flow.Absorb.{HasRoom, HasRoom-IsPair}
use cyber_sentinel_ids_ips.Reassembly.Flow.Observe.{Observes, observe-Observes}
use cyber_sentinel_ids_ips.Reassembly.Flow.Flush.{AllReported, flush_table-empties}

abbrev client : Endpoint
client = record { address = v4 167772161; port = 40000 }

abbrev server : Endpoint
server = record { address = v4 167772162; port = 80 }

-- A segment with a reset and two bytes.
abbrev reset_segment : TcpSegment
reset_segment = record { sequence = 1000; acknowledgment = 0; flags = 20; payload = 104 ∷ 105 ∷ [] }

abbrev packet : PacketSummary
packet = record {
  protocol = 6;
  source = client;
  destination = server;
  timestamp = 1000;
  frame_len = 60;
  payload = 104 ∷ 105 ∷ [];
  tcp = some reset_segment;
}

abbrev key : FlowKey
key = record { protocol = 6; first = client; second = server }

abbrev flow : Flow
flow = fresh_flow default_config key packet

-- A table that follows one conversation, within a cap of one.
abbrev table : FlowTable
table = record {
  flows = insert key flow [];
  limits = record default_limits { max_flows = 1 };
  reassembly = default_config;
  stream_bytes = 0;
  finished_stream_counters = Conversation.no_counters;
  counters = record no_flow_counters { flows_created = 1 };
  ended = [];
  last_sweep = some 1000;
}

flow-HasRoom : HasRoom 2 flow.streams
flow-HasRoom = new-IsStream default_config 2 (omega arith)

only_flow : (k : FlowKey) (f : Flow) → get k table.flows ≡ some f → HasRoom 2 f.streams
unfolding get
only_flow k f h = elim (get-insert-some key k flow f [] h) [
  | inl (_, same) ↦ subst (λ (g : Flow). HasRoom 2 g.streams) same flow-HasRoom
  | inr before ↦ cc before
]

table-IsBooked : IsBooked table
unfolding insert total_of
table-IsBooked = record {
  is_map = insert-IsMap key flow [] tt;
  pairs = λ k f h. HasRoom-IsPair 2 f.streams (only_flow k f h);
  bytes = omega (arith, pair_buffered_bytes-new default_config);
  balance = refl;
}

abbrev first_policy : Key.IpAddr → OverlapPolicy
first_policy address = first

observe-Observes_example :
    (t' : FlowTable) × (grown : StreamReady) × (observed : Observed) × (observe table packet
        first_policy none_ready
      ≡ some (t', grown, observed))
    × Observes table t' (Key.new 6 client server)
unfolding insert
observe-Observes_example =
    observe-Observes table packet first_policy none_ready table-IsBooked (omega arith) (omega arith)
      only_flow (omega arith)

sweep_ends_idle_example :
    (t' : FlowTable) × (sweep table 400000000000 ≡ some t')
    × Settles table t'
    × ((k : FlowKey) → get k t'.flows ≡ if_busy 400000000000 300000000000 (get k table.flows))
sweep_ends_idle_example = sweep_ends_idle table 400000000000 table-IsBooked

evict_batch-Evicts_example : (t' : FlowTable) × (evict_batch table ≡ some t') × Evicts table t'
evict_batch-Evicts_example = evict_batch-Evicts table table-IsBooked

flush_table-empties_example :
    (t' : FlowTable) × (flush_table table ≡ some t')
    × (t'.flows ≡ [])
    × (t'.stream_bytes ≡ 0)
    × (es : List EndedFlow) × (t'.ended ≡ table.ended ++ es)
    × AllReported table.flows es
flush_table-empties_example = flush_table-empties table table-IsBooked
