-- ===== src/Reassembly/Flow/Ending.antt =====
-- The end of a flow: `end_flow` of crates/reassembly/src/flow.rs, and the books of the table.
use mathlib.Core.Path.{subst}
use mathlib.Core.Option.{some-injective}
use cyber_sentinel_ids_ips.Prelude.{
  ℕ, suc, ◌+◌, ◌-◌, ◌≤◌, ◌≡◌, refl, sym, ap, ◌∙◌, Bool, true, false, Option, none, some, List, [],
  ◌∷◌, ◌++◌, length, any, if◌then◌else◌, arith, Option-cases, inl, inr, length-append,
}
use cyber_sentinel_ids_ips.Common.Map.{
  Map, get, remove, IsMap, get-remove, get-remove-some, remove-IsMap, total_of, size_of,
  total_of-remove, length-remove-some, remove-absent,
}
use cyber_sentinel_ids_ips.Reassembly.RangeBuffer.View.{IsValid}
use cyber_sentinel_ids_ips.Reassembly.Stream.{StreamPair, StreamReady}
use cyber_sentinel_ids_ips.Reassembly.Stream.Pair.{flush_runs}
use cyber_sentinel_ids_ips.Reassembly.Flow.{
  FlowKey, table_key, Flow, flow_buffered_bytes, EndReason, closed, timed_out, evicted,
  sensor_stopped, EndedFlow, FlowCounters, key_eq, key_eq_iff,
}
use cyber_sentinel_ids_ips.Reassembly.Flow.Table.{
  FlowTable, none_ready, flush_streams, end_flow, report, end_found, count_ended, remove_and_end,
  end_all,
}

abbrev pub IsPair : Option StreamPair → Type 0
IsPair none = Unit
IsPair (some pair) = IsValid pair.to_server.buffer × IsValid pair.to_client.buffer

flush_streams-runs :
    (streams : Option StreamPair)
    → IsPair streams
    → (r : Option StreamPair × StreamReady) × (flush_streams streams ≡ some r)
flush_streams-runs none v = ((none, none_ready), refl)
flush_streams-runs (some pair) v =
    let ((flushed, ready), runs) = flush_runs pair none_ready v.0 v.1 in
    ((some flushed, ready), rw runs refl)

-- Each flow that was created is one of those still there or is counted where it ended.
abbrev pub IsBalanced : ℕ → FlowCounters → Type 0
IsBalanced live c = c.flows_created ≡ live + c.flows_closed + c.flows_timed_out + c.flows_evicted

-- The books of a table: each key once, each flow's buffers well formed, the bytes counted, and each
-- flow that was created still there or counted where it ended.
pub record IsBooked (t : FlowTable) : Type 0 where
  pub is_map : IsMap t.flows
  pub pairs : (k : FlowKey) (f : Flow) → get k t.flows ≡ some f → IsPair f.streams
  pub bytes : t.stream_bytes ≡ total_of flow_buffered_bytes t.flows
  pub balance : IsBalanced (length t.flows) t.counters

-- A table that some flows of another have left: each of those is reported, and the others are as
-- they were.
pub record Leaves (t t' : FlowTable) : Type 0 where
  pub same_limits : t'.limits ≡ t.limits
  pub same_reassembly : t'.reassembly ≡ t.reassembly
  pub kept : (k : FlowKey) (f : Flow) → get k t'.flows ≡ some f → get k t.flows ≡ some f
  pub reported : length t'.flows + length t'.ended ≡ length t.flows + length t.ended
  pub fewer : length t'.flows ≤ length t.flows

pub Leaves-refl : (t : FlowTable) → Leaves t t
Leaves-refl t = record {
  same_limits = refl;
  same_reassembly = refl;
  kept = λ k f h. h;
  reported = refl;
  fewer = omega arith;
}

pub Leaves-trans : (t u v : FlowTable) → Leaves t u → Leaves u v → Leaves t v
Leaves-trans t u v a b = record {
  same_limits = b.same_limits ∙ a.same_limits;
  same_reassembly = b.same_reassembly ∙ a.same_reassembly;
  kept = λ k f h. a.kept k f (b.kept k f h);
  reported = b.reported ∙ a.reported;
  fewer = omega (arith, a.fewer, b.fewer);
}

-- A flow that ends behind its removal.
pub record Ended (t t' : FlowTable) (flow : Flow) : Type 0 where
  pub flows : t'.flows ≡ t.flows
  pub same_limits : t'.limits ≡ t.limits
  pub same_reassembly : t'.reassembly ≡ t.reassembly
  pub counters : t'.counters ≡ t.counters
  pub bytes : t'.stream_bytes ≡ t.stream_bytes - flow_buffered_bytes flow
  pub reported : length t'.ended ≡ suc (length t.ended)

pub end_flow-Ended :
    (t : FlowTable) (flow : Flow) (reason : EndReason)
    → IsPair flow.streams
    → (t' : FlowTable) × (end_flow t flow reason ≡ some t') × Ended t t' flow
unfolding end_flow
end_flow-Ended t flow reason v =
    let (flushed, runs) = flush_streams-runs flow.streams v in
    (
      report t flow reason flushed,
      rw runs refl,
      record {
        flows = refl;
        same_limits = refl;
        same_reassembly = refl;
        counters = refl;
        bytes = refl;
        reported = omega (arith, length-append t.ended (_ ∷ []));
      },
    )

-- The report of a flow that ended: the flow itself, but for its streams, which are flushed, with what
-- their flush delivers, and the reason.
pub record Reports (flow : Flow) (reason : EndReason) (e : EndedFlow) : Type 0 where
  pub same_flow : e.flow ≡ record flow { streams = e.flow.streams }
  pub flushed : flush_streams flow.streams ≡ some (e.flow.streams, e.final_ready)
  pub same_reason : e.reason ≡ reason

-- The reports so far stay, and that of the flow comes behind them.
pub end_flow-Reports :
    (t t' : FlowTable) (flow : Flow) (reason : EndReason)
    → IsPair flow.streams
    → end_flow t flow reason ≡ some t'
    → (e : EndedFlow) × (t'.ended ≡ t.ended ++ (e ∷ [])) × Reports flow reason e
unfolding end_flow
end_flow-Reports t t' flow reason v h =
    let ((streams, ready), runs) = flush_streams-runs flow.streams v in
    let same : report t flow reason (streams, ready) ≡ t' =
      some-injective (report t flow reason (streams, ready)) t' (rw runs at h) in
    (
      record { flow = record flow { streams = streams }; reason = reason; final_ready = ready },
      ap (λ (u : FlowTable). u.ended) (sym same),
      record { same_flow = refl; flushed = runs; same_reason = refl },
    )

-- A table whose books are in order and that some flows of another have left.
pub record Settles (t t' : FlowTable) : Type 0 where
  pub booked : IsBooked t'
  pub leaves : Leaves t t'

pub Settles-refl : (t : FlowTable) → IsBooked t → Settles t t
Settles-refl t b = record { booked = b; leaves = Leaves-refl t }

pub Settles-trans : (t u v : FlowTable) → Settles t u → Settles u v → Settles t v
Settles-trans t u v a b = record {
  booked = b.booked;
  leaves = Leaves-trans t u v a.leaves b.leaves;
}

-- The reasons that are counted.
abbrev pub is_counted : EndReason → Bool
is_counted sensor_stopped = false
is_counted reason = true

count_ended-balance :
    (reason : EndReason) (c : FlowCounters) (before after : ℕ)
    → is_counted reason ≡ true
    → suc after ≡ before
    → IsBalanced before c
    → IsBalanced after (count_ended reason c)
count_ended-balance closed c before after counted e b = omega arith
count_ended-balance timed_out c before after counted e b = omega arith
count_ended-balance evicted c before after counted e b = omega arith
count_ended-balance sensor_stopped c before after counted e b = absurd (cc counted)

remove_found :
    (t : FlowTable) (key : FlowKey) (reason : EndReason) (flow : Flow)
    → is_counted reason ≡ true
    → IsBooked t
    → get key t.flows ≡ some flow
    → (t' : FlowTable) × (end_found t key reason (some flow) ≡ some t')
      × Settles t t'
      × (t'.flows ≡ remove key t.flows)
unfolding end_flow
remove_found t key reason flow counted b there =
    let removed : FlowTable = record t {
      flows = remove key t.flows;
      counters = count_ended reason t.counters;
    } in
    let (t', runs, e) = end_flow-Ended removed flow reason (b.pairs key flow there) in
    let size : suc (length (remove key t.flows)) ≡ length t.flows =
      length-remove-some key flow t.flows b.is_map there in
    let held = total_of-remove flow_buffered_bytes key t.flows b.is_map in
    let own : size_of flow_buffered_bytes (get key t.flows) ≡ flow_buffered_bytes flow =
      ap (size_of flow_buffered_bytes) there in
    (
      t',
      runs,
      record {
        booked = record {
          is_map = subst IsMap (sym e.flows) (remove-IsMap key t.flows b.is_map);
          pairs = λ k f h. b.pairs k f (get-remove-some key k t.flows f (rw e.flows at h));
          bytes =
              e.bytes
              ∙ omega (arith, b.bytes, held, own)
              ∙ ap (total_of flow_buffered_bytes) (sym e.flows);
          balance = subst (IsBalanced (length t'.flows)) (sym e.counters) (
              count_ended-balance reason t.counters (length t.flows) (length t'.flows) counted
                (omega (arith, size, ap length e.flows)) b.balance);
        };
        leaves = record {
          same_limits = e.same_limits;
          same_reassembly = e.same_reassembly;
          kept = λ k f h. get-remove-some key k t.flows f (rw e.flows at h);
          reported = omega (arith, e.reported, size, ap length e.flows);
          fewer = omega (arith, size, ap length e.flows);
        };
      },
      e.flows,
    )

-- What is removed is counted and reported, and the books stay in order, whether the key is there or
-- not.
pub remove_and_end-Settles :
    (t : FlowTable) (key : FlowKey) (reason : EndReason)
    → is_counted reason ≡ true
    → IsBooked t
    → (t' : FlowTable) × (remove_and_end t key reason ≡ some t')
      × Settles t t'
      × (t'.flows ≡ remove key t.flows)
unfolding remove_and_end
remove_and_end-Settles t key reason counted b = elim (Option-cases (get key t.flows)) [
  | inl absent ↦ (t, rw absent refl, Settles-refl t b, sym (remove-absent key t.flows absent))
  | inr (flow, there) ↦
      let (t', runs, settles, flows) = remove_found t key reason flow counted b there in
      (t', rw there runs, settles, flows)
]

-- The keys that a list of them leaves.
abbrev pub has_key : FlowKey → List FlowKey → Bool
has_key key keys = any (key_eq key) keys

unfoldable pub remove_all : List FlowKey → Map FlowKey Flow → Map FlowKey Flow
remove_all [] flows = flows
remove_all (key ∷ keys) flows = remove_all keys (remove key flows)

pub end_all-Settles :
    (reason : EndReason) (keys : List FlowKey) (t : FlowTable)
    → is_counted reason ≡ true
    → IsBooked t
    → (t' : FlowTable) × (end_all reason keys t ≡ some t')
      × Settles t t'
      × (t'.flows ≡ remove_all keys t.flows)
unfolding end_all remove_all
end_all-Settles reason [] t counted b = (t, refl, Settles-refl t b, refl)
end_all-Settles reason (key ∷ keys) t counted b =
    let (u, first, settles, flows) = remove_and_end-Settles t key reason counted b in
    let (v, rest, settled, left) = end_all-Settles reason keys u counted settles.booked in
    (v, rw first rest, Settles-trans t u v settles settled, left ∙ ap (remove_all keys) flows)

pub get-remove_all :
    (keys : List FlowKey) (k : FlowKey) (flows : Map FlowKey Flow)
    → get k (remove_all keys flows) ≡ (if has_key k keys then none else get k flows)
unfolding remove_all
get-remove_all [] k flows = refl
get-remove_all (key ∷ keys) k flows = ground (
  arith,
  get-remove_all keys k (remove key flows),
  get-remove key k flows,
  key_eq_iff k key,
  key_eq_iff key k,
)
