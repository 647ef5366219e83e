-- ===== src/Reassembly/Flow/Observe.antt =====
-- `FlowTable::observe` of crates/reassembly/src/flow.rs on any packet.
use mathlib.Core.Path.{subst}
use cyber_sentinel_ids_ips.Prelude.{
  ℕ, suc, ◌+◌, ◌-◌, ◌≤◌, ◌<◌, ◌≡◌, refl, sym, ap, ◌∙◌, max, Bool, true, false, not, some, length,
  if◌then◌else◌, arith, Bool-cases, Option-cases, inl, inr,
}
use cyber_sentinel_ids_ips.Common.Net.{IpAddr}
use cyber_sentinel_ids_ips.Common.Config.{OverlapPolicy, ReassemblyConfig}
use cyber_sentinel_ids_ips.Common.Map.{
  Map, get, contains_key, insert, insert-IsMap, get-insert-some, get-insert, length-insert, size_of,
  total_of-insert,
}
use cyber_sentinel_ids_ips.Common.Endpoint.{endpoint_eq}
use cyber_sentinel_ids_ips.Reassembly.RangeBuffer.{u64_max}
use cyber_sentinel_ids_ips.Reassembly.Stream.{StreamReady}
use cyber_sentinel_ids_ips.Reassembly.Flow.{
  FlowKey, table_key, Flow, PacketSummary, Observed, FlowCounters, responder, is_closed, closed,
  key_eq, Limits, flow_buffered_bytes, tcp_protocol,
}
use cyber_sentinel_ids_ips.Reassembly.Flow as Key
use cyber_sentinel_ids_ips.Reassembly.Flow.Table.{
  FlowTable, entry, count_packet, close_if, observe_in, observe, make_room,
}
use cyber_sentinel_ids_ips.Reassembly.Flow.Ending.{
  IsPair, IsBooked, IsBalanced, Settles, Settles-refl, Settles-trans, remove_and_end-Settles,
}
use cyber_sentinel_ids_ips.Reassembly.Flow.Sweep.{maybe_sweep-Settles}
use cyber_sentinel_ids_ips.Reassembly.Flow.Evict.{make_room-Settles}
use cyber_sentinel_ids_ips.Reassembly.Flow.Absorb.{
  HasRoom, payload_size, Absorbed, absorb_segment-runs, count_packet-streams, entry_flow,
  entry-HasRoom, entry-size,
}

entry-balance :
    (t : FlowTable) (key : FlowKey) (packet : PacketSummary) (after : Flow) (ignored : ℕ)
    → IsBalanced (length t.flows) t.counters
    → (let counters : FlowCounters = (entry t key packet (get key t.flows)).1 in
        IsBalanced
          (length (insert key after t.flows))
          (record counters { resets_ignored = counters.resets_ignored + ignored }))
entry-balance t key packet after ignored b = elim (Option-cases (get key t.flows)) [
  | inl absent ↦
      let grown : length (insert key after t.flows) ≡ suc (length t.flows) =
        length-insert key after t.flows ∙ rw absent refl in
      rw absent (omega (arith, grown, b))
  | inr (flow, there) ↦
      let same : length (insert key after t.flows) ≡ length t.flows =
        length-insert key after t.flows ∙ rw there refl in
      rw there (omega (arith, same, b))
]

insert-capped :
    (flows : Map FlowKey Flow) (key : FlowKey) (flow : Flow) (cap : ℕ)
    → length flows ≤ cap
    → (contains_key key flows ≡ false → length flows < cap)
    → length (insert key flow flows) ≤ cap
insert-capped flows key flow cap h room = ground (arith, length-insert key flow flows)

-- The table behind the segment, before the flow is closed.
abbrev settled : FlowTable → FlowKey → FlowCounters → Flow → Flow → ℕ → FlowTable
settled t key counters counted after ignored = record t {
  flows = insert key after t.flows;
  counters = record counters { resets_ignored = counters.resets_ignored + ignored };
  stream_bytes = t.stream_bytes + flow_buffered_bytes after - flow_buffered_bytes counted;
}

settled-IsBooked :
    (t : FlowTable) (key : FlowKey) (packet : PacketSummary) (counted after : Flow) (ignored : ℕ)
    → IsBooked t
    → IsPair after.streams
    → flow_buffered_bytes counted ≡ size_of flow_buffered_bytes (get key t.flows)
    → IsBooked (settled t key (entry t key packet (get key t.flows)).1 counted after ignored)
settled-IsBooked t key packet counted after ignored b pair size = record {
  is_map = insert-IsMap key after t.flows b.is_map;
  pairs = λ k f h. elim (get-insert-some key k after f t.flows h) [
    | inl (_, same) ↦ subst (λ (g : Flow). IsPair g.streams) same pair
    | inr before ↦ b.pairs k f before
  ];
  bytes = omega (arith, total_of-insert flow_buffered_bytes key after t.flows, b.bytes, size);
  balance = entry-balance t key packet after ignored b.balance;
}

insert_other :
    (flows : Map FlowKey Flow) (key j : FlowKey) (after f : Flow)
    → key_eq key j ≡ false
    → get j (insert key after flows) ≡ some f
    → get j flows ≡ some f
insert_other flows key j after f other there = ground (arith, get-insert key j after flows)

-- What a packet leaves of a table: the books and the cap, and every flow but its own as it was.
pub record Observes (t t' : FlowTable) (key : FlowKey) : Type 0 where
  pub booked : IsBooked t'
  pub capped : length t'.flows ≤ t.limits.max_flows
  pub same_limits : t'.limits ≡ t.limits
  pub same_reassembly : t'.reassembly ≡ t.reassembly
  pub others :
      (j : FlowKey) (f : Flow)
      → key_eq key j ≡ false
      → get j t'.flows ≡ some f
      → get j t.flows ≡ some f

-- The flow is closed, or stays.
close_if-runs :
    (ends : Bool) (t : FlowTable) (key : FlowKey)
    → IsBooked t
    → (t' : FlowTable) × (close_if ends t key ≡ some t') × Settles t t'
close_if-runs true t key b =
    let (t', runs, s, _) = remove_and_end-Settles t key closed refl b in (t', runs, s)
close_if-runs false t key b = (t, refl, Settles-refl t b)

observe_in-Observes :
    (t : FlowTable) (packet : PacketSummary) (key : FlowKey) (is_new : Bool)
    (policy : IpAddr → OverlapPolicy) (ready : StreamReady)
    → IsBooked t
    → ((f : Flow) → get key t.flows ≡ some f → HasRoom (payload_size packet.tcp) f.streams)
    → max t.reassembly.max_stream_bytes_per_flow 1 + payload_size packet.tcp < u64_max
    → length t.flows ≤ t.limits.max_flows
    → (contains_key key t.flows ≡ false → length t.flows < t.limits.max_flows)
    → (t' : FlowTable) × (grown : StreamReady) × (observed : Observed) × (observe_in t packet key
          is_new policy ready
        ≡ some (t', grown, observed))
      × Observes t t' key
unfolding observe_in Absorbed entry_flow
observe_in-Observes t packet key is_new policy ready b room fresh cap free =
    let flow : Flow = (entry t key packet (get key t.flows)).0 in
    let to_server : Bool = endpoint_eq packet.source flow.initiator in
    let counted : Flow = count_packet flow packet to_server in
    let same : counted.streams ≡ flow.streams = count_packet-streams flow packet to_server in
    let roomy : HasRoom (payload_size packet.tcp) flow.streams =
      entry-HasRoom t key packet (payload_size packet.tcp) (get key t.flows) room fresh in
    let (after, grown, ignored, runs, pair) =
      absorb_segment-runs policy counted packet.tcp to_server ready
        (subst (HasRoom (payload_size packet.tcp)) (sym same) roomy) in
    let size : flow_buffered_bytes counted ≡ size_of flow_buffered_bytes (get key t.flows) =
      ap Key.buffered_in same ∙ entry-size t key packet (get key t.flows) in
    let counters : FlowCounters = (entry t key packet (get key t.flows)).1 in
    let u : FlowTable = settled t key counters counted after ignored in
    let books : IsBooked u = settled-IsBooked t key packet counted after ignored b pair size in
    let (t', closes, s) = close_if-runs (is_closed after) u key books in
    (
      t',
      grown,
      record { flow_id = after.id; is_to_server = to_server; is_new = is_new },
      rw (runs, closes) refl,
      record {
        booked = s.booked;
        capped =
            omega
              (arith, s.leaves.fewer, insert-capped t.flows key after t.limits.max_flows cap free);
        same_limits = s.leaves.same_limits;
        same_reassembly = s.leaves.same_reassembly;
        others =
            λ j f other stays. insert_other t.flows key j after f other (s.leaves.kept j f stays);
      },
    )

-- Room for a key that is not there.
room_for_key :
    (t : FlowTable) (key : FlowKey) (now cap : ℕ)
    → IsBooked t
    → t.limits.max_flows ≡ cap
    → 1 ≤ cap
    → length t.flows ≤ cap
    → (t' : FlowTable) × ((if not (contains_key key t.flows) then make_room t now else some t)
        ≡ some t')
      × Settles t t'
      × (contains_key key t'.flows ≡ false → length t'.flows < cap)
room_for_key t key now cap b same some_flows full = elim (Bool-cases (contains_key key t.flows)) [
  | inl there ↦ (t, rw there refl, Settles-refl t b, λ absent. cc (there, absent))
  | inr absent ↦
      let (t', makes, s, free) = make_room-Settles t now b (omega arith) (omega arith) in
      (t', rw absent makes, s, λ _. omega (arith, free, same))
]

-- Whatever its flags, sequence numbers and payload, and whatever its time, a packet that the table
-- observes never makes it panic, as long as the table is within its cap of at least one flow, its
-- books are in order and the windows of its TCP flows, and of one that is new, are addressable with
-- room for the payload. Behind it the books are in order and the table is within its cap. It has
-- changed no flow but its own: another one that is still there is as it was.
pub observe-Observes :
    (t : FlowTable) (packet : PacketSummary) (policy : IpAddr → OverlapPolicy) (ready : StreamReady)
    → IsBooked t
    → 1 ≤ t.limits.max_flows
    → length t.flows ≤ t.limits.max_flows
    → ((k : FlowKey) (f : Flow)
        → get k t.flows ≡ some f
        → HasRoom (payload_size packet.tcp) f.streams)
    → max t.reassembly.max_stream_bytes_per_flow 1 + payload_size packet.tcp < u64_max
    → (t' : FlowTable) × (grown : StreamReady) × (observed : Observed) × (observe t packet policy
          ready
        ≡ some (t', grown, observed))
      × Observes t t' (Key.new packet.protocol packet.source packet.destination)
unfolding observe
observe-Observes t packet policy ready b some_flows cap room fresh =
    let key : FlowKey = Key.new packet.protocol packet.source packet.destination in
    let (u, sweeps, s) = maybe_sweep-Settles t packet.timestamp b in
    let is_new : Bool = not (contains_key key u.flows) in
    let (v, makes, s', free) =
      room_for_key u key packet.timestamp t.limits.max_flows s.booked
        (ap (λ (l : Limits). l.max_flows) s.leaves.same_limits) some_flows
        (omega (arith, cap, s.leaves.fewer)) in
    let both : Settles t v = Settles-trans t u v s s' in
    let caps : v.limits.max_flows ≡ t.limits.max_flows =
      ap (λ (l : Limits). l.max_flows) both.leaves.same_limits in
    let (t', grown, observed, runs, o) =
      observe_in-Observes v packet key is_new policy ready both.booked
        (λ f there. room key f (both.leaves.kept key f there))
        (omega (
          arith,
          fresh,
          ap (λ (c : ReassemblyConfig). c.max_stream_bytes_per_flow) both.leaves.same_reassembly,
        ))
        (omega (arith, caps, cap, both.leaves.fewer))
        (λ absent. omega (arith, caps, free absent)) in
    (
      t',
      grown,
      observed,
      rw (sweeps, makes) runs,
      record {
        booked = o.booked;
        capped = omega (arith, o.capped, caps);
        same_limits = o.same_limits ∙ both.leaves.same_limits;
        same_reassembly = o.same_reassembly ∙ both.leaves.same_reassembly;
        others = λ j f other stays. both.leaves.kept j f (o.others j f other stays);
      },
    )
