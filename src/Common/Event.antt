-- ===== src/Common/Event.antt =====
-- crates/common/src/event.rs: the tuple that identifies a packet, and the kinds of events.
use cyber_sentinel_ids_ips.Prelude.{ℕ, Option, String}
use cyber_sentinel_ids_ips.Common.Net.{IpAddr}

pub data Protocol : Type 0 where
  tcp udp icmp ip : Protocol

-- `proto as u8`.
unfoldable pub proto_number : Protocol → ℕ
proto_number tcp = 0
proto_number udp = 1
proto_number icmp = 2
proto_number ip = 3

pub record NetTuple : Type 0 where
  pub src_ip : IpAddr
  pub src_port : Option ℕ
  pub dest_ip : IpAddr
  pub dest_port : Option ℕ
  pub proto : Protocol

pub data EventKind : Type 0 where
  alert anomaly flow fim auth process incident stats : EventKind

-- `EventKind::as_str`.
abbrev pub event_kind_as_str : EventKind → String
event_kind_as_str alert = "alert"
event_kind_as_str anomaly = "anomaly"
event_kind_as_str flow = "flow"
event_kind_as_str fim = "fim"
event_kind_as_str auth = "auth"
event_kind_as_str process = "process"
event_kind_as_str incident = "incident"
event_kind_as_str stats = "stats"
