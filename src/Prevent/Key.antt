-- ===== src/Prevent/Key.antt =====
-- `FlowKey` of crates/prevent/src/store.rs: a conversation, whichever direction it is seen in.
use cyber_sentinel_ids_ips.Prelude.{
  ℕ, ◌≡◌, ◌↔◌, Bool, true, ◌&&◌, ◌==◌, unwrap_or, if◌then◌else◌, arith,
}
use cyber_sentinel_ids_ips.Common.Net.{ip_eq}
use cyber_sentinel_ids_ips.Common.Event.{NetTuple, proto_number}
use cyber_sentinel_ids_ips.Common.Map.{Key}
use cyber_sentinel_ids_ips.Common.Endpoint.{
  Endpoint, endpoint_le, endpoint_le_total, endpoint_le_antisym, ip_eq_iff,
}

pub record FlowKey : Type 0 where
  pub protocol : ℕ
  pub lower : Endpoint
  pub upper : Endpoint

unfoldable pub from_tuple : NetTuple → FlowKey
unfolding endpoint_le proto_number
from_tuple tuple =
    let one : Endpoint = record { address = tuple.src_ip; port = unwrap_or tuple.src_port 0 } in
    let other : Endpoint = record { address = tuple.dest_ip; port = unwrap_or tuple.dest_port 0 } in
    if endpoint_le one other
    then record { protocol = proto_number tuple.proto; lower = one; upper = other }
    else record { protocol = proto_number tuple.proto; lower = other; upper = one }

-- A packet of the other direction.
abbrev pub reversed : NetTuple → NetTuple
reversed t = record {
  src_ip = t.dest_ip;
  src_port = t.dest_port;
  dest_ip = t.src_ip;
  dest_port = t.src_port;
  proto = t.proto;
}

unfoldable pub flow_eq : FlowKey → FlowKey → Bool
flow_eq a b =
    a.protocol == b.protocol
    && ip_eq a.lower.address b.lower.address
    && a.lower.port == b.lower.port
    && ip_eq a.upper.address b.upper.address
    && a.upper.port == b.upper.port

pub flow_eq_iff : (a b : FlowKey) → (flow_eq a b ≡ true) ↔ (a ≡ b)
unfolding flow_eq
flow_eq_iff a b =
    ground
      (arith, ip_eq_iff a.lower.address b.lower.address, ip_eq_iff a.upper.address b.upper.address)

instance abbrev pub flow_key : Key FlowKey
flow_key = record { key_eq = flow_eq; key_eq_iff = flow_eq_iff }

ordered_pair :
    (p : ℕ) (a b : Endpoint)
    → (if endpoint_le b a
        then (let k : FlowKey = record { protocol = p; lower = b; upper = a } in k)
        else record { protocol = p; lower = a; upper = b })
      ≡ (if endpoint_le a b
          then record { protocol = p; lower = a; upper = b }
          else record { protocol = p; lower = b; upper = a })
ordered_pair p a b =
    ground (arith, endpoint_le_total a b, endpoint_le_total b a, endpoint_le_antisym a b)

-- A packet and a packet of the other direction have the same key.
pub from_tuple-reversed : (t : NetTuple) → from_tuple (reversed t) ≡ from_tuple t
unfolding from_tuple
from_tuple-reversed t =
    ordered_pair (proto_number t.proto)
      (record { address = t.src_ip; port = unwrap_or t.src_port 0 })
      (record { address = t.dest_ip; port = unwrap_or t.dest_port 0 })
