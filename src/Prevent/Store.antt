-- ===== src/Prevent/Store.antt =====
-- crates/prevent/src/store.rs: the verdict store and the per-packet decision. Instants and
-- durations are numbers of one unit; counters do not wrap. Log lines are left out.
pub mod Reach
pub mod Sweep
pub mod Verdicts
mod Tests
use cyber_sentinel_ids_ips.Prelude.{
  ℕ, ◌+◌, ◌-◌, ◌≡◌, ◌↔◌, max, Bool, true, false, ◌&&◌, ◌||◌, not, Option, none, some, List, [],
  String, length, ltb, leb, ◌==◌, any, unwrap_or, if◌then◌else◌,
}
use cyber_sentinel_ids_ips.Common.Net.{IpAddr, v4, v6, ip_eq, IpNetwork, contains}
use cyber_sentinel_ids_ips.Common.Event.{NetTuple, Protocol, proto_number}
use cyber_sentinel_ids_ips.Common.Map.{Key, Map, get, contains_key, insert, remove, retain_map}
use cyber_sentinel_ids_ips.Prevent.Key.{FlowKey, flow_key, from_tuple}
use cyber_sentinel_ids_ips.Common.Endpoint.{ip_key}

pub data Mode : Type 0 where
  detect prevent : Mode

abbrev pub mode_as_str : Mode → String
mode_as_str detect = "detect"
mode_as_str prevent = "prevent"

pub data FailMode : Type 0 where
  open_mode closed : FailMode

abbrev pub fail_mode_as_str : FailMode → String
fail_mode_as_str open_mode = "open"
fail_mode_as_str closed = "closed"

pub data DropReason : Type 0 where
  flow_verdict blocked_source : DropReason

pub data Decision : Type 0 where
  accept : Decision
  drop_packet : DropReason → Decision

abbrev pub is_drop : Decision → Bool
is_drop accept = false
is_drop (drop_packet _) = true

abbrev pub drop_reason_as_str : DropReason → String
drop_reason_as_str flow_verdict = "flow_verdict"
drop_reason_as_str blocked_source = "blocked_source"

pub data BlockOutcome : Type 0 where
  blocked : Option IpAddr → BlockOutcome
  not_armed : BlockOutcome
  allow_listed : IpAddr → BlockOutcome
  full : BlockOutcome

pub record PreventionSettings : Type 0 where
  pub mode : Mode
  pub fail_mode : FailMode
  pub allow_list : List IpNetwork
  pub source_block : ℕ
  pub max_blocked_flows : ℕ
  pub max_blocked_sources : ℕ

-- `PreventStats` of crates/common/src/event.rs.
pub record PreventStats : Type 0 where
  pub enabled : Bool
  pub mode : String
  pub fail_mode : String
  pub packets_judged : ℕ
  pub packets_dropped : ℕ
  pub allow_listed_passes : ℕ
  pub allow_listed_blocks_refused : ℕ
  pub flows_blocked : ℕ
  pub sources_blocked : ℕ
  pub blocked_flows_active : ℕ
  pub blocked_sources_active : ℕ
  pub flow_verdicts_expired : ℕ
  pub source_blocks_expired : ℕ
  pub blocks_dropped_at_capacity : ℕ
  pub fail_mode_packets : ℕ
  pub verdict_latency_us_total : ℕ
  pub verdict_latency_us_max : ℕ
  pub verdict_latency_over_1ms : ℕ
  pub verdict_latency_over_10ms : ℕ
  pub queue_depth : ℕ
  pub queue_depth_max : ℕ
  pub queue_unjudged : ℕ

pub record Prevention : Type 0 where
  pub settings : PreventionSettings
  pub flows : Map FlowKey ℕ
  pub sources : Map IpAddr ℕ
  pub stats : PreventStats

pub new : PreventionSettings → Prevention
new settings = record {
  settings = settings;
  flows = [];
  sources = [];
  stats = record {
    enabled = true;
    mode = mode_as_str settings.mode;
    fail_mode = fail_mode_as_str settings.fail_mode;
    packets_judged = 0;
    packets_dropped = 0;
    allow_listed_passes = 0;
    allow_listed_blocks_refused = 0;
    flows_blocked = 0;
    sources_blocked = 0;
    blocked_flows_active = 0;
    blocked_sources_active = 0;
    flow_verdicts_expired = 0;
    source_blocks_expired = 0;
    blocks_dropped_at_capacity = 0;
    fail_mode_packets = 0;
    verdict_latency_us_total = 0;
    verdict_latency_us_max = 0;
    verdict_latency_over_1ms = 0;
    verdict_latency_over_10ms = 0;
    queue_depth = 0;
    queue_depth_max = 0;
    queue_unjudged = 0;
  };
}

abbrev pub source_block_timeout : Prevention → ℕ
source_block_timeout p = p.settings.source_block

-- The method `fail_mode`.
abbrev pub fail_mode_of : Prevention → FailMode
fail_mode_of p = p.settings.fail_mode

abbrev pub is_prevent : Mode → Bool
is_prevent detect = false
is_prevent prevent = true

abbrev pub armed : Prevention → Bool
armed p = is_prevent p.settings.mode

pub set_mode : Prevention → Mode → Prevention
set_mode p mode = record p {
  settings = record (p.settings) { mode = mode };
  stats = record (p.stats) { mode = mode_as_str mode };
}

pub is_allow_listed : PreventionSettings → IpAddr → Bool
is_allow_listed settings address = any (λ network. contains network address) settings.allow_list

-- The last test of `decide`: the block of the packet's source.
pub decide_source : Prevention → IpAddr → ℕ → Option ℕ → Prevention × Decision
decide_source p source now none = (p, accept)
decide_source p source now (some until) =
    if ltb now until
    then (
      record p { stats = record (p.stats) { packets_dropped = p.stats.packets_dropped + 1 } },
      drop_packet blocked_source,
    )
    else (
      record p {
        sources = remove source p.sources;
        stats = record (p.stats) { source_blocks_expired = p.stats.source_blocks_expired + 1 };
      },
      accept,
    )

pub decide : Prevention → NetTuple → ℕ → Prevention × Decision
unfolding decide_source
decide p₀ tuple now =
    let p = record p₀ {
      stats = record (p₀.stats) { packets_judged = p₀.stats.packets_judged + 1 };
    } in
    if not (armed p)
    then (p, accept)
    else if is_allow_listed p.settings tuple.src_ip || is_allow_listed p.settings tuple.dest_ip
    then (
      record p {
        stats = record (p.stats) { allow_listed_passes = p.stats.allow_listed_passes + 1 };
      },
      accept,
    )
    else if contains_key (from_tuple tuple) p.flows
    then (
      record p { stats = record (p.stats) { packets_dropped = p.stats.packets_dropped + 1 } },
      drop_packet flow_verdict,
    )
    else decide_source p tuple.src_ip now (get tuple.src_ip p.sources)

-- The loop over the two addresses.
pub first_allow_listed : PreventionSettings → NetTuple → Option IpAddr
first_allow_listed settings tuple =
    if is_allow_listed settings tuple.src_ip
    then some tuple.src_ip
    else if is_allow_listed settings tuple.dest_ip
    then some tuple.dest_ip
    else none

-- `block` behind the loop.
pub record_block : Prevention → NetTuple → ℕ → Prevention × BlockOutcome
record_block p tuple now =
    if leb p.settings.max_blocked_flows (length p.flows)
      || leb p.settings.max_blocked_sources (length p.sources)
    then (
      record p {
        stats = record (p.stats) {
          blocks_dropped_at_capacity = p.stats.blocks_dropped_at_capacity + 1;
        };
      },
      full,
    )
    else (
      record p {
        flows = insert (from_tuple tuple) now p.flows;
        sources = insert tuple.src_ip (now + p.settings.source_block) p.sources;
        stats = record (p.stats) {
          flows_blocked = p.stats.flows_blocked + 1;
          sources_blocked =
              if contains_key tuple.src_ip p.sources
              then p.stats.sources_blocked
              else p.stats.sources_blocked + 1;
        };
      },
      blocked (some tuple.src_ip),
    )

block_unless : Prevention → NetTuple → ℕ → Option IpAddr → Prevention × BlockOutcome
unfolding record_block
block_unless p tuple now (some address) = (
  record p {
    stats = record (p.stats) {
      allow_listed_blocks_refused = p.stats.allow_listed_blocks_refused + 1;
    };
  },
  allow_listed address,
)
block_unless p tuple now none = record_block p tuple now

pub block : Prevention → NetTuple → ℕ → Prevention × BlockOutcome
unfolding block_unless first_allow_listed
block p tuple now =
    if not (armed p)
    then (p, not_armed)
    else block_unless p tuple now (first_allow_listed p.settings tuple)

pub expire : Prevention → ℕ → Prevention
expire p now =
    let flows = retain_map (λ _ at. ltb (now - at) p.settings.source_block) p.flows in
    let sources = retain_map (λ _ until. ltb now until) p.sources in
    record p {
      flows = flows;
      sources = sources;
      stats = record (p.stats) {
        flow_verdicts_expired = p.stats.flow_verdicts_expired + (length p.flows - length flows);
        source_blocks_expired = p.stats.source_blocks_expired + (length p.sources - length sources);
      };
    }

-- The method `stats`.
pub stats_now : Prevention → PreventStats
stats_now p = record (p.stats) {
  blocked_flows_active = length p.flows;
  blocked_sources_active = length p.sources;
}

pub record_latency : Prevention → ℕ → Prevention
record_latency p micros = record p {
  stats = record (p.stats) {
    verdict_latency_us_total = p.stats.verdict_latency_us_total + micros;
    verdict_latency_us_max = max p.stats.verdict_latency_us_max micros;
    verdict_latency_over_1ms =
        if ltb 1000 micros
        then p.stats.verdict_latency_over_1ms + 1
        else p.stats.verdict_latency_over_1ms;
    verdict_latency_over_10ms =
        if ltb 10000 micros
        then p.stats.verdict_latency_over_10ms + 1
        else p.stats.verdict_latency_over_10ms;
  };
}

-- `QueueDepth` of crates/prevent/src/depth.rs.
pub record QueueDepth : Type 0 where
  pub queue_num : ℕ
  pub queued : ℕ
  pub queue_dropped : ℕ
  pub user_dropped : ℕ
  pub id_sequence : ℕ

pub unjudged : QueueDepth → ℕ
unjudged d = d.queue_dropped + d.user_dropped

pub record_queue_depth : Prevention → QueueDepth → Prevention
record_queue_depth p depth = record p {
  stats = record (p.stats) {
    queue_depth = depth.queued;
    queue_depth_max = max p.stats.queue_depth_max depth.queued;
    queue_unjudged = unjudged depth;
  };
}

pub record_fail_mode_applied : Prevention → ℕ → Prevention
record_fail_mode_applied p packets = record p {
  stats = record (p.stats) { fail_mode_packets = p.stats.fail_mode_packets + packets };
}
