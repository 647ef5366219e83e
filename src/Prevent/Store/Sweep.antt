-- ===== src/Prevent/Store/Sweep.antt =====
-- What a sweep of the verdict store leaves of its decisions.
use cyber_sentinel_ids_ips.Prelude.{
  ℕ, ◌-◌, ◌≤◌, ◌<◌, ◌≡◌, refl, sym, ap, ◌∙◌, Bool, false, ◌&&◌, ◌||◌, not, Option, none, some, ltb,
  if◌then◌else◌, arith, Option-cases, inl, inr,
}
use cyber_sentinel_ids_ips.Common.Net.{IpAddr}
use cyber_sentinel_ids_ips.Common.Event.{NetTuple}
use cyber_sentinel_ids_ips.Common.Map.{get, contains_key, IsMap, present, get-retain_map}
use cyber_sentinel_ids_ips.Prevent.Key.{FlowKey, flow_key, from_tuple}
use cyber_sentinel_ids_ips.Common.Endpoint.{ip_key}
use cyber_sentinel_ids_ips.Prevent.Store.{
  Decision, accept, drop_packet, flow_verdict, blocked_source, Prevention, armed, is_allow_listed,
  decide, expire,
}

-- What `decide` decides.
abbrev pub decision : Prevention → NetTuple → ℕ → Decision
decision p t now = (decide p t now).1

-- Whether a packet has an endpoint that is never to be blocked.
abbrev pub is_exempt : Prevention → NetTuple → Bool
is_exempt p t = is_allow_listed p.settings t.src_ip || is_allow_listed p.settings t.dest_ip

-- The decision from what the two tables say of the packet.
abbrev pub judge : Bool → Bool → Bool → Option ℕ → ℕ → Decision
judge arms exempt condemned none now =
    if arms && not exempt && condemned then drop_packet flow_verdict else accept
judge arms exempt condemned (some until) now =
    if arms && not exempt
    then (if condemned
        then drop_packet flow_verdict
        else if ltb now until
        then drop_packet blocked_source
        else accept)
    else accept

pub decision-judge :
    (p : Prevention) (t : NetTuple) (now : ℕ)
    → decision p t now
      ≡ judge
          (armed p)
          (is_exempt p t)
          (contains_key (from_tuple t) p.flows)
          (get t.src_ip p.sources)
          now
unfolding decide
decision-judge p t now = ground arith

-- Both tables have each key once.
pub record IsStore (p : Prevention) : Type 0 where
  pub flows : IsMap p.flows
  pub sources : IsMap p.sources

-- What a sweep leaves of a flow verdict and of a source block.
abbrev pub fresh_flow : Prevention → ℕ → Option ℕ → Bool
fresh_flow p now none = false
fresh_flow p now (some at) = ltb (now - at) p.settings.source_block

abbrev pub fresh_source : ℕ → Option ℕ → Option ℕ
fresh_source now none = none
fresh_source now (some until) = if ltb now until then some until else none

contains-expire :
    (p : Prevention) (k : FlowKey) (now : ℕ)
    → IsStore p
    → contains_key k (expire p now).flows ≡ fresh_flow p now (get k p.flows)
unfolding expire
contains-expire p k now s =
    ap present (get-retain_map (λ _ at. ltb (now - at) p.settings.source_block) k p.flows s.flows)
    ∙ elim (Option-cases (get k p.flows)) [
      | inl absent ↦ rw absent
      | inr (at, there) ↦ rw there (ground arith)
    ]

get-expire :
    (p : Prevention) (a : IpAddr) (now : ℕ)
    → IsStore p
    → get a (expire p now).sources ≡ fresh_source now (get a p.sources)
unfolding expire
get-expire p a now s =
    get-retain_map (λ _ until. ltb now until) a p.sources s.sources
    ∙ elim (Option-cases (get a p.sources)) [
      | inl absent ↦ rw absent
      | inr (until, present) ↦ rw present
    ]

settings-expire : (p : Prevention) (now : ℕ) → (expire p now).settings ≡ p.settings
unfolding expire
settings-expire p now = refl

-- The decision after a sweep at the same instant.
decision-expire :
    (p : Prevention) (t : NetTuple) (now : ℕ)
    → IsStore p
    → decision (expire p now) t now
      ≡ judge
          (armed p)
          (is_exempt p t)
          (fresh_flow p now (get (from_tuple t) p.flows))
          (fresh_source now (get t.src_ip p.sources))
          now
decision-expire p t now s =
    decision-judge (expire p now) t now
    ∙ rw
        (contains-expire p (from_tuple t) now s, get-expire p t.src_ip now s, settings-expire p now)

judge-fresh :
    (arms exempt : Bool) (p : Prevention) (flow until : Option ℕ) (now : ℕ)
    → ((at : ℕ) → flow ≡ some at → now - at < p.settings.source_block)
    → judge arms exempt (fresh_flow p now flow) (fresh_source now until) now
      ≡ judge arms exempt (present flow) until now
judge-fresh arms exempt p none none now young = refl
judge-fresh arms exempt p none (some until) now young = ground arith
judge-fresh arms exempt p (some at) none now young = ground (arith, young at)
judge-fresh arms exempt p (some at) (some until) now young = ground (arith, young at)

judge-stale :
    (arms exempt : Bool) (p : Prevention) (flow until : Option ℕ) (now : ℕ)
    → ((at : ℕ) → flow ≡ some at → p.settings.source_block ≤ now - at)
    → ((u : ℕ) → until ≡ some u → u ≤ now)
    → judge arms exempt (fresh_flow p now flow) (fresh_source now until) now ≡ accept
judge-stale arms exempt p none none now old lapsed = ground arith
judge-stale arms exempt p none (some u) now old lapsed = ground (arith, lapsed u)
judge-stale arms exempt p (some at) none now old lapsed = ground (arith, old at)
judge-stale arms exempt p (some at) (some u) now old lapsed = ground (arith, old at, lapsed u)

-- A sweep never changes the decision of a packet at the same instant, unless the packet is of a
-- conversation whose verdict is at least as old as a block lasts: source blocks that have run out
-- are not enforced, swept or not.
pub expire_unobserved :
    (p : Prevention) (t : NetTuple) (now : ℕ)
    → IsStore p
    → ((at : ℕ) → get (from_tuple t) p.flows ≡ some at → now - at < p.settings.source_block)
    → decision (expire p now) t now ≡ decision p t now
expire_unobserved p t now s young =
    decision-expire p t now s
    ∙ judge-fresh (armed p) (is_exempt p t) p (get (from_tuple t) p.flows) (get t.src_ip p.sources)
        now young
    ∙ sym (decision-judge p t now)

-- Once the verdict of its conversation is as old as a block lasts and the block of its source has
-- run out, or where there was none, a sweep lets a packet through.
pub expire-accepts :
    (p : Prevention) (t : NetTuple) (now : ℕ)
    → IsStore p
    → ((at : ℕ) → get (from_tuple t) p.flows ≡ some at → p.settings.source_block ≤ now - at)
    → ((until : ℕ) → get t.src_ip p.sources ≡ some until → until ≤ now)
    → decision (expire p now) t now ≡ accept
expire-accepts p t now s old lapsed =
    decision-expire p t now s
    ∙ judge-stale (armed p) (is_exempt p t) p (get (from_tuple t) p.flows) (get t.src_ip p.sources)
        now old lapsed
