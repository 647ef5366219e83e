-- ===== src/Reassembly/Flow/Flush.antt =====
-- The end of the capture, and the identifiers of flows.
use Prim.Native.Nat.{bit_xor}
use cyber_sentinel_ids_ips.Prelude.{
  ℕ, ◌*◌, ◌/◌, ◌%◌, ◌^◌, ◌≤◌, ◌<◌, ◌≡◌, refl, sym, ap, ◌∙◌, some, List, [], ◌∷◌, ◌++◌, ◌==◌,
  if◌then◌else◌, arith, Every, Every-map, append-nil, append_assoc,
}
use cyber_sentinel_ids_ips.Common.Map.{Map, total_of}
use cyber_sentinel_ids_ips.Reassembly.Flow.{
  FlowKey, table_key, Flow, flow_buffered_bytes, sensor_stopped, EndedFlow, mix, derive_flow_id,
  be_bytes, fnv_prime,
}
use cyber_sentinel_ids_ips.Reassembly.Flow.Table.{FlowTable, end_drained, flush_table}
use cyber_sentinel_ids_ips.Reassembly.Flow.Ending.{
  IsPair, IsBooked, end_flow-Ended, Reports, end_flow-Reports,
}
use cyber_sentinel_ids_ips.Reassembly.Flow.Ages.{IsEntry, entries-Every}

-- Reports of flows, one for each, in their order: each ended because the sensor stopped.
pub data AllReported : Map FlowKey Flow → List EndedFlow → Type 0 where
  none_left : AllReported [] []
  one_more :
      (key : FlowKey) (flow : Flow) (flows : Map FlowKey Flow) (e : EndedFlow) (es : List EndedFlow)
      → Reports flow sensor_stopped e
      → AllReported flows es
      → AllReported ((key, flow) ∷ flows) (e ∷ es)

end_drained-runs :
    (flows : Map FlowKey Flow) (t : FlowTable)
    → Every (λ (e : FlowKey × Flow). IsPair e.1.streams) flows
    → t.stream_bytes ≡ total_of flow_buffered_bytes flows
    → (t' : FlowTable) × (end_drained flows t ≡ some t')
      × (t'.flows ≡ t.flows)
      × (t'.stream_bytes ≡ 0)
      × (es : List EndedFlow) × (t'.ended ≡ t.ended ++ es)
      × AllReported flows es
unfolding end_drained total_of
end_drained-runs [] t v b = (t, refl, refl, b, [], sym (append-nil t.ended), none_left)
end_drained-runs ((key, flow) ∷ flows) t v b =
    let (u, ends, e) = end_flow-Ended t flow sensor_stopped v.0 in
    let (one, behind, shown) = end_flow-Reports t u flow sensor_stopped v.0 ends in
    let (t', runs, left, bytes, es, more, all) =
      end_drained-runs flows u v.1 (omega (arith, e.bytes, b)) in
    (
      t',
      rw ends runs,
      left ∙ e.flows,
      bytes,
      one ∷ es,
      more ∙ ap (λ r. r ++ es) behind ∙ append_assoc t.ended (one ∷ []) es,
      one_more key flow flows one es shown all,
    )

-- When the capture ends, a table whose books are in order is emptied without a panic, and no byte is
-- left counted. The reports so far stay, and behind them comes one for each flow of the table, in
-- order: the flow with its streams flushed, with what that flush delivers, ended because the sensor
-- stopped.
pub flush_table-empties :
    (t : FlowTable)
    → IsBooked t
    → (t' : FlowTable) × (flush_table t ≡ some t')
      × (t'.flows ≡ [])
      × (t'.stream_bytes ≡ 0)
      × (es : List EndedFlow) × (t'.ended ≡ t.ended ++ es)
      × AllReported t.flows es
unfolding flush_table
flush_table-empties t b =
    end_drained-runs t.flows (record t { flows = [] })
      (Every-map (IsEntry t.flows) (λ (e : FlowKey × Flow). IsPair e.1.streams) t.flows
        (λ e there. b.pairs e.0 e.1 there) (entries-Every t.flows b.is_map))
      b.bytes

mix-bounded : (bytes : List ℕ) (hash : ℕ) → hash < 2 ^ 64 → mix hash bytes < 2 ^ 64
unfolding mix
mix-bounded [] hash h = h
mix-bounded (byte ∷ bytes) hash h =
    mix-bounded bytes ((bit_xor hash byte * fnv_prime) % 2 ^ 64) (omega arith)

never_zero :
    (hash : ℕ)
    → hash < 2 ^ 64
    → (1 ≤ (if hash == 0 then 1 else hash)) × ((if hash == 0 then 1 else hash) < 2 ^ 64)
never_zero hash h = (ground arith, ground arith)

mix-word : (hash n : ℕ) → mix hash (be_bytes 8 n) < 2 ^ 64
unfolding mix be_bytes
mix-word hash n =
    mix-bounded (be_bytes 7 n) ((bit_xor hash ((n / 256 ^ 7) % 256) * fnv_prime) % 2 ^ 64)
      (omega arith)

-- The identifier of a flow is a 64-bit number and never zero, which the events keep for no flow.
pub derive_flow_id-bounded :
    (key : FlowKey) (start : ℕ)
    → (1 ≤ derive_flow_id key start) × (derive_flow_id key start < 2 ^ 64)
unfolding derive_flow_id
derive_flow_id-bounded key start = never_zero _ (mix-word _ (start % 2 ^ 64))
