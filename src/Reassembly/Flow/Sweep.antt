-- ===== src/Reassembly/Flow/Sweep.antt =====
-- Sweeps of the flow table of crates/reassembly/src/flow.rs.
use cyber_sentinel_ids_ips.Prelude.{
  ℕ, ◌≡◌, refl, sym, ap, ◌∙◌, Bool, true, false, Option, none, some, [], ◌∷◌, if◌then◌else◌, arith,
  Bool-cases, inl, inr,
}
use cyber_sentinel_ids_ips.Common.Map.{Map, get, IsMap, absent_of}
use cyber_sentinel_ids_ips.Reassembly.Flow.{FlowKey, table_key, Flow, timed_out, key_eq, key_eq_iff}
use cyber_sentinel_ids_ips.Reassembly.Flow.Table.{
  FlowTable, is_idle, expired_keys, sweep, maybe_sweep, is_due,
}
use cyber_sentinel_ids_ips.Reassembly.Flow.Ending.{
  IsBooked, Settles, Settles-refl, end_all-Settles, has_key, remove_all, get-remove_all,
}

-- What a sweep leaves of a flow.
abbrev pub if_busy : ℕ → ℕ → Option Flow → Option Flow
if_busy now timeout none = none
if_busy now timeout (some flow) = if is_idle now timeout flow then none else some flow

abbrev idle_there : ℕ → ℕ → Option Flow → Bool
idle_there now timeout none = false
idle_there now timeout (some flow) = is_idle now timeout flow

expired_keys-idle :
    (now timeout : ℕ) (k : FlowKey) (flows : Map FlowKey Flow)
    → IsMap flows
    → has_key k (expired_keys now timeout flows) ≡ idle_there now timeout (get k flows)
unfolding expired_keys get
expired_keys-idle now timeout k [] u = refl
expired_keys-idle now timeout k ((i, w) ∷ flows) u = elim (Bool-cases (key_eq i k)) [
  | inl found ↦
      let same : i ≡ k = (key_eq_iff i k).0 found in
      let rest : has_key k (expired_keys now timeout flows) ≡ false =
        expired_keys-idle now timeout k flows u.1
        ∙ ap (idle_there now timeout) (absent_of i k flows same u.0) in
      let back : key_eq k i ≡ true = (key_eq_iff k i).1 (sym same) in
      rw found (ground (arith, rest, back))
  | inr other ↦
      ground (arith, expired_keys-idle now timeout k flows u.1, key_eq_iff i k, key_eq_iff k i)
]

busy_of :
    (now timeout : ℕ) (o : Option Flow)
    → (if idle_there now timeout o then none else o) ≡ if_busy now timeout o
busy_of now timeout none = refl
busy_of now timeout (some flow) = refl

pub sweep-Settles :
    (t : FlowTable) (now : ℕ)
    → IsBooked t
    → (t' : FlowTable) × (sweep t now ≡ some t')
      × Settles t t'
      × (t'.flows ≡ remove_all (expired_keys now t.limits.flow_timeout t.flows) t.flows)
unfolding sweep
sweep-Settles t now b =
    let started : FlowTable = record t { last_sweep = some now } in
    let same : IsBooked started = record {
      is_map = b.is_map;
      pairs = b.pairs;
      bytes = b.bytes;
      balance = b.balance;
    } in
    let (t', runs, s, flows) =
      end_all-Settles timed_out (expired_keys now t.limits.flow_timeout t.flows) started refl
        same in
    (
      t',
      runs,
      record {
        booked = s.booked;
        leaves = record {
          same_limits = s.leaves.same_limits;
          same_reassembly = s.leaves.same_reassembly;
          kept = s.leaves.kept;
          reported = s.leaves.reported;
          fewer = s.leaves.fewer;
        };
      },
      flows,
    )

-- A sweep of a table whose books are in order never panics. It ends exactly the flows that have been
-- idle for the timeout, those that were last seen after `now` not among them unless the timeout is
-- zero, and leaves every other flow as it is. The books stay in order: what it ends is counted and
-- reported, and its bytes are given back.
pub sweep_ends_idle :
    (t : FlowTable) (now : ℕ)
    → IsBooked t
    → (t' : FlowTable) × (sweep t now ≡ some t')
      × Settles t t'
      × ((k : FlowKey) → get k t'.flows ≡ if_busy now t.limits.flow_timeout (get k t.flows))
sweep_ends_idle t now b =
    let (t', runs, s, flows) = sweep-Settles t now b in
    (
      t',
      runs,
      s,
      λ k.
          let left = get-remove_all (expired_keys now t.limits.flow_timeout t.flows) k t.flows in
          let idle = expired_keys-idle now t.limits.flow_timeout k t.flows b.is_map in
          ap (get k) flows ∙ left ∙ rw idle (busy_of now t.limits.flow_timeout (get k t.flows)),
    )

pub maybe_sweep-Settles :
    (t : FlowTable) (now : ℕ)
    → IsBooked t
    → (t' : FlowTable) × (maybe_sweep t now ≡ some t') × Settles t t'
unfolding maybe_sweep
maybe_sweep-Settles t now b = elim (Bool-cases (is_due now t.last_sweep)) [
  | inl due ↦ let (t', runs, s, _) = sweep-Settles t now b in (t', rw due runs, s)
  | inr early ↦ (t, rw early refl, Settles-refl t b)
]
