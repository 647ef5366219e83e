-- ===== src/Reassembly/Flow/Absorb.antt =====
-- A segment taken into its flow: `absorb_segment` of crates/reassembly/src/flow.rs.
use mathlib.Core.Path.{subst}
use cyber_sentinel_ids_ips.Prelude.{
  ℕ, ◌+◌, ◌<◌, ◌≡◌, refl, sym, ◌∙◌, max, Bool, true, Option, none, some, ◌++◌, length, ◌==◌, arith,
  Bool-cases, inl, inr,
}
use cyber_sentinel_ids_ips.Common.Net.{IpAddr}
use cyber_sentinel_ids_ips.Common.Config.{OverlapPolicy, ReassemblyConfig}
use cyber_sentinel_ids_ips.Common.Map.{size_of}
use cyber_sentinel_ids_ips.Reassembly.RangeBuffer.{u64_max}
use cyber_sentinel_ids_ips.Reassembly.Stream.{StreamPair, StreamReady, TcpSegment, rst_should_close}
use cyber_sentinel_ids_ips.Reassembly.Stream.Store.{IsStream, new-IsStream, pair_buffered_bytes-new}
use cyber_sentinel_ids_ips.Reassembly.Stream.Pair.{push_pair-Advanced}
use cyber_sentinel_ids_ips.Reassembly.Flow.{
  FlowKey, table_key, Flow, PacketSummary, responder, flow_buffered_bytes, tcp_protocol,
}
use cyber_sentinel_ids_ips.Reassembly.Flow.Table.{
  FlowTable, fresh_flow, entry, count_packet, note_flags, note_reset, absorb, absorb_segment,
}
use cyber_sentinel_ids_ips.Reassembly.Flow.Ending.{IsPair}

-- Both windows of a conversation are addressable with room for so many bytes more.
abbrev pub HasRoom : ℕ → Option StreamPair → Type 0
HasRoom n none = Unit
HasRoom n (some pair) = IsStream pair.to_server n × IsStream pair.to_client n

abbrev pub payload_size : Option TcpSegment → ℕ
payload_size none = 0
payload_size (some segment) = length segment.payload

pub HasRoom-IsPair : (n : ℕ) (streams : Option StreamPair) → HasRoom n streams → IsPair streams
HasRoom-IsPair n none h = tt
HasRoom-IsPair n (some pair) h = (h.0.valid, h.1.valid)

note_reset-streams :
    (flow : Flow) (segment : TcpSegment) (closes to_server : Bool)
    → (note_reset flow segment closes to_server).0.streams ≡ flow.streams
unfolding note_reset
note_reset-streams flow segment closes to_server = ground arith

-- A segment taken into a flow.
unfoldable pub Absorbed :
    (IpAddr → OverlapPolicy) → Flow → Option TcpSegment → Bool → StreamReady → Type 0
Absorbed policy flow tcp to_server ready =
    (after : Flow) × (grown : StreamReady) × (ignored : ℕ) × (absorb_segment policy flow tcp
        to_server ready
      ≡ some (after, grown, ignored))
    × IsPair after.streams

absorb-runs :
    (policy : IpAddr → OverlapPolicy) (flow : Flow) (segment : TcpSegment) (to_server : Bool)
    (ready : StreamReady) (streams : Option StreamPair)
    → flow.streams ≡ streams
    → HasRoom (length segment.payload) streams
    → (after : Flow) × (grown : StreamReady) × (ignored : ℕ) × (absorb policy flow segment to_server
          ready streams
        ≡ some (after, grown, ignored))
      × IsPair after.streams
unfolding absorb
absorb-runs policy flow segment to_server ready none e room =
    let (noted, ignored) = note_reset flow segment true to_server in
    (
      noted,
      ready,
      ignored,
      refl,
      subst IsPair (sym (note_reset-streams flow segment true to_server ∙ e)) tt,
    )
absorb-runs policy flow segment to_server ready (some pair) e room =
    let (pushed, server_bytes, client_bytes, runs, s, c) =
      push_pair-Advanced pair to_server segment (policy (responder flow).address)
        (policy flow.initiator.address) ready room.0 room.1 in
    let closes : Bool = rst_should_close pushed to_server segment.sequence in
    let taken : Flow = record flow { streams = some pushed } in
    let (noted, ignored) = note_reset taken segment closes to_server in
    (
      noted,
      record {
        to_server = ready.to_server ++ server_bytes;
        to_client = ready.to_client ++ client_bytes;
      },
      ignored,
      rw runs refl,
      subst IsPair (sym (note_reset-streams taken segment closes to_server)) (s.valid, c.valid),
    )

pub absorb_segment-runs :
    (policy : IpAddr → OverlapPolicy) (flow : Flow) (tcp : Option TcpSegment) (to_server : Bool)
    (ready : StreamReady)
    → HasRoom (payload_size tcp) flow.streams
    → Absorbed policy flow tcp to_server ready
unfolding absorb_segment Absorbed note_flags
absorb_segment-runs policy flow none to_server ready room =
    (flow, ready, 0, refl, HasRoom-IsPair 0 flow.streams room)
absorb_segment-runs policy flow (some segment) to_server ready room =
    absorb-runs policy (note_flags flow segment to_server) segment to_server ready flow.streams refl
      room

fresh_flow-HasRoom :
    (config : ReassemblyConfig) (key : FlowKey) (packet : PacketSummary) (n : ℕ)
    → max config.max_stream_bytes_per_flow 1 + n < u64_max
    → HasRoom n (fresh_flow config key packet).streams
fresh_flow-HasRoom config key packet n h = elim (Bool-cases (packet.protocol == tcp_protocol)) [
  | inl tcp ↦ rw tcp (new-IsStream config n h)
  | inr other ↦ rw other tt
]

fresh_flow-empty :
    (config : ReassemblyConfig) (key : FlowKey) (packet : PacketSummary)
    → flow_buffered_bytes (fresh_flow config key packet) ≡ 0
fresh_flow-empty config key packet = elim (Bool-cases (packet.protocol == tcp_protocol)) [
  | inl tcp ↦ rw tcp (pair_buffered_bytes-new config)
  | inr other ↦ rw other refl
]

pub count_packet-streams :
    (flow : Flow) (packet : PacketSummary) (to_server : Bool)
    → (count_packet flow packet to_server).streams ≡ flow.streams
unfolding count_packet
count_packet-streams flow packet to_server = refl

-- The flow of a packet, there before or new.
unfoldable pub entry_flow : FlowTable → FlowKey → PacketSummary → Option Flow → Flow
entry_flow t key packet found = (entry t key packet found).0

pub entry-HasRoom :
    (t : FlowTable) (key : FlowKey) (packet : PacketSummary) (n : ℕ) (found : Option Flow)
    → ((f : Flow) → found ≡ some f → HasRoom n f.streams)
    → max t.reassembly.max_stream_bytes_per_flow 1 + n < u64_max
    → HasRoom n (entry_flow t key packet found).streams
unfolding entry_flow
entry-HasRoom t key packet n none room fresh = fresh_flow-HasRoom t.reassembly key packet n fresh
entry-HasRoom t key packet n (some flow) room fresh = room flow refl

pub entry-size :
    (t : FlowTable) (key : FlowKey) (packet : PacketSummary) (found : Option Flow)
    → flow_buffered_bytes (entry_flow t key packet found) ≡ size_of flow_buffered_bytes found
unfolding entry_flow
entry-size t key packet none = fresh_flow-empty t.reassembly key packet
entry-size t key packet (some flow) = refl
