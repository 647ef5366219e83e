-- ===== src/Decode/Layers.antt =====
-- crates/decode/src/layers.rs: the decoded network and transport layers.
use cyber_sentinel_ids_ips.Prelude.{ℕ, Bool, ◌||◌, not, Option, none, some, ◌==◌}
use cyber_sentinel_ids_ips.Common.Net.{IpAddr, v4, v6}
use cyber_sentinel_ids_ips.Common.Event as Event
use cyber_sentinel_ids_ips.Common.Event.{Protocol}

pub record Ipv4Info : Type 0 where
  pub source : ℕ
  pub destination : ℕ
  pub protocol : ℕ
  pub ttl : ℕ
  pub identification : ℕ
  pub fragment_offset : ℕ
  pub more_fragments : Bool
  pub header_len : ℕ
  pub total_len : ℕ

pub record Ipv6Info : Type 0 where
  pub source : ℕ
  pub destination : ℕ
  pub protocol : ℕ
  pub hop_limit : ℕ
  pub payload_length : ℕ
  pub header_len : ℕ
  pub is_fragment : Bool
  pub fragment_offset : ℕ
  pub more_fragments : Bool
  pub identification : ℕ

pub data Network : Type 0 where
  ipv4 : Ipv4Info → Network
  ipv6 : Ipv6Info → Network

-- `Ipv4Info::is_fragment`.
abbrev pub ipv4_is_fragment : Ipv4Info → Bool
ipv4_is_fragment i = i.more_fragments || not (i.fragment_offset == 0)

-- The methods of `Network`.
abbrev pub network_source : Network → IpAddr
network_source (ipv4 i) = v4 i.source
network_source (ipv6 i) = v6 i.source

abbrev pub network_destination : Network → IpAddr
network_destination (ipv4 i) = v4 i.destination
network_destination (ipv6 i) = v6 i.destination

abbrev pub network_protocol : Network → ℕ
network_protocol (ipv4 i) = i.protocol
network_protocol (ipv6 i) = i.protocol

abbrev pub network_is_fragment : Network → Bool
network_is_fragment (ipv4 i) = ipv4_is_fragment i
network_is_fragment (ipv6 i) = i.is_fragment

pub record TcpFlags : Type 0 where
  pub fin : Bool
  pub syn : Bool
  pub rst : Bool
  pub psh : Bool
  pub ack : Bool
  pub urg : Bool
  pub ece : Bool
  pub cwr : Bool

pub record TcpInfo : Type 0 where
  pub source_port : ℕ
  pub destination_port : ℕ
  pub sequence_number : ℕ
  pub acknowledgment_number : ℕ
  pub window_size : ℕ
  pub flags : TcpFlags
  pub header_len : ℕ

pub record UdpInfo : Type 0 where
  pub source_port : ℕ
  pub destination_port : ℕ
  pub length : ℕ

pub record IcmpInfo : Type 0 where
  pub icmp_type : ℕ
  pub code : ℕ
  pub is_v6 : Bool

pub data Transport : Type 0 where
  tcp : TcpInfo → Transport
  udp : UdpInfo → Transport
  icmp : IcmpInfo → Transport
  other : ℕ → Transport

-- The methods of `Transport`.
abbrev pub transport_source_port : Transport → Option ℕ
transport_source_port (tcp i) = some i.source_port
transport_source_port (udp i) = some i.source_port
transport_source_port (icmp i) = none
transport_source_port (other n) = none

abbrev pub transport_destination_port : Transport → Option ℕ
transport_destination_port (tcp i) = some i.destination_port
transport_destination_port (udp i) = some i.destination_port
transport_destination_port (icmp i) = none
transport_destination_port (other n) = none

abbrev pub transport_protocol : Transport → Protocol
transport_protocol (tcp i) = Event.tcp
transport_protocol (udp i) = Event.udp
transport_protocol (icmp i) = Event.icmp
transport_protocol (other n) = Event.ip
