-- ===== src/Decode/Transport.antt =====
-- crates/decode/src/lib.rs: a decoded frame, and the decoding of its transport header. The headers
-- that etherparse reads are parameters, as functions from the bytes.
mod InFrame
mod Tests
use cyber_sentinel_ids_ips.Prelude.{
  ℕ, ◌+◌, ◌-◌, ◌*◌, ◌/◌, min, max, Bool, true, false, Option, none, some, List, [], ◌∷◌, take, drop,
  ltb, leb, ◌==◌, length, get_elem?, if◌then◌else◌, ◌>>=◌,
}
use cyber_sentinel_ids_ips.Common.Event.{Protocol, NetTuple, ip}
use cyber_sentinel_ids_ips.Decode.Anomaly as Anomaly
use cyber_sentinel_ids_ips.Decode.Anomaly.{
  Layer, AnomalyKind, AnomalySet, no_anomalies, truncated_header, impossible_length,
  length_mismatch,
}
use cyber_sentinel_ids_ips.Decode.Layers as Layers
use cyber_sentinel_ids_ips.Decode.Layers.{
  Network, Transport, TcpFlags, TcpInfo, UdpInfo, network_source, network_destination,
  transport_source_port, transport_destination_port, transport_protocol,
}

-- `Range<usize>`.
pub record Range : Type 0 where
  pub first : ℕ
  pub last : ℕ

pub record Decoded : Type 0 where
  pub frame : List ℕ
  pub original_len : ℕ
  pub ether_type : Option ℕ
  pub vlan_ids : List (Option ℕ)
  pub network : Option Network
  pub transport : Option Transport
  pub payload : Range
  pub network_payload : Range
  pub anomalies : AnomalySet

abbrev empty_range : Range
empty_range = record { first = 0; last = 0 }

-- `Decoded::new`.
abbrev pub new : List ℕ → ℕ → Decoded
new frame original_len = record {
  frame = frame;
  original_len = original_len;
  ether_type = none;
  vlan_ids = none ∷ none ∷ [];
  network = none;
  transport = none;
  payload = empty_range;
  network_payload = empty_range;
  anomalies = no_anomalies;
}

abbrev pub is_snapped : Decoded → Bool
is_snapped d = ltb (length d.frame) d.original_len

-- `frame.get(range).unwrap_or(&[])`.
abbrev pub bytes_in : ℕ → ℕ → List ℕ → List ℕ
bytes_in first last frame =
    if ltb last first
    then []
    else (if ltb (length frame) last then [] else take (last - first) (drop first frame))

-- `Decoded::payload_bytes`.
abbrev pub payload_bytes : Decoded → List ℕ
payload_bytes d = bytes_in d.payload.first d.payload.last d.frame

abbrev source_port_of : Option Transport → Option ℕ
source_port_of none = none
source_port_of (some t) = transport_source_port t

abbrev destination_port_of : Option Transport → Option ℕ
destination_port_of none = none
destination_port_of (some t) = transport_destination_port t

abbrev protocol_of : Option Transport → Protocol
protocol_of none = ip
protocol_of (some t) = transport_protocol t

abbrev pub tuple_of : Option Network → Option Transport → Option NetTuple
tuple_of none t = none
tuple_of (some n) t = some (record {
  src_ip = network_source n;
  src_port = source_port_of t;
  dest_ip = network_destination n;
  dest_port = destination_port_of t;
  proto = protocol_of t;
})

-- `Decoded::five_tuple`.
abbrev pub five_tuple : Decoded → Option NetTuple
five_tuple d = tuple_of d.network d.transport

unfoldable pub clamp_range : ℕ → ℕ → ℕ → Range
clamp_range first last frame_len = record {
  first = min first frame_len;
  last = max (min last frame_len) (min first frame_len);
}

-- `decoded.anomalies.push(Anomaly::new(layer, kind))`.
abbrev pub report : Layer → AnomalyKind → Decoded → Decoded
report layer kind d = record d {
  anomalies = Anomaly.push (record { kind = kind; layer = layer }) d.anomalies;
}

abbrev pub set_transport : Transport → Decoded → Decoded
set_transport t d = record d { transport = some t }

abbrev pub set_payload : ℕ → ℕ → Decoded → Decoded
set_payload first last d = record d { payload = clamp_range first last (length d.frame) }

-- The fields of etherparse's headers that are read.
pub record TcpHeader : Type 0 where
  pub source_port : ℕ
  pub destination_port : ℕ
  pub sequence_number : ℕ
  pub acknowledgment_number : ℕ
  pub window_size : ℕ
  pub flags : TcpFlags

abbrev pub tcp_info : TcpHeader → ℕ → TcpInfo
tcp_info h header_len = record {
  source_port = h.source_port;
  destination_port = h.destination_port;
  sequence_number = h.sequence_number;
  acknowledgment_number = h.acknowledgment_number;
  window_size = h.window_size;
  flags = h.flags;
  header_len = header_len;
}

-- The end of `decode_tcp`: what `TcpHeader::from_slice` gave.
unfoldable pub read_tcp : Decoded → Option TcpHeader → ℕ → ℕ → ℕ → Decoded
read_tcp d none header_len start end = report Anomaly.tcp truncated_header d
read_tcp d (some h) header_len start end =
    set_payload (start + header_len) end (set_transport (Layers.tcp (tcp_info h header_len)) d)

-- The reports on the length that a UDP header claims.
unfoldable pub check_udp_length : Decoded → ℕ → ℕ → Decoded
check_udp_length d claimed available =
    if ltb claimed 8
    then report Anomaly.udp impossible_length d
    else (if ltb available claimed
        then (if is_snapped d then d else report Anomaly.udp length_mismatch d)
        else d)

-- The end of `decode_udp`: what `UdpHeader::from_slice` gave.
unfoldable pub read_udp : Decoded → Option UdpInfo → ℕ → ℕ → ℕ → Decoded
unfolding check_udp_length
read_udp d none available start end = report Anomaly.udp truncated_header d
read_udp d (some h) available start end =
    set_payload (start + 8) (min (start + max h.length 8) end)
      (set_transport (Layers.udp h) (check_udp_length d h.length available))

-- `slice[0]` and `slice[1]`.
abbrev pub icmp_of : List ℕ → Bool → Option Transport
icmp_of slice is_v6 = get_elem? slice 0 >>= λ t. get_elem? slice 1 >>= λ c.
    some (Layers.icmp (record { icmp_type = t; code = c; is_v6 = is_v6 }))

unfoldable pub decode_icmp : Decoded → List ℕ → ℕ → ℕ → Bool → Option Decoded
decode_icmp d slice start end is_v6 =
    if ltb (length slice) 8
    then (if leb 2 (length slice)
        then (icmp_of slice is_v6 >>= λ t.
            some (set_transport t (report Anomaly.icmp truncated_header d)))
        else some (report Anomaly.icmp truncated_header d))
    else (icmp_of slice is_v6 >>= λ t. some (set_payload (start + 8) end (set_transport t d)))

module _ (parse_tcp : List ℕ → Option TcpHeader) (parse_udp : List ℕ → Option UdpInfo) where
  -- `decode_tcp` from the data offset.
  unfoldable pub decode_tcp_at : Decoded → List ℕ → ℕ → ℕ → ℕ → Decoded
  unfolding read_tcp
  decode_tcp_at d slice start end data_offset =
      if ltb data_offset 5
      then report Anomaly.tcp impossible_length d
      else (if ltb (length slice) (data_offset * 4)
          then report Anomaly.tcp truncated_header d
          else read_tcp d (parse_tcp slice) (data_offset * 4) start end)

  unfoldable pub decode_tcp : Decoded → List ℕ → ℕ → ℕ → Option Decoded
  unfolding decode_tcp_at
  decode_tcp d slice start end =
      if ltb (length slice) 20
      then some (report Anomaly.tcp truncated_header d)
      else (get_elem? slice 12 >>= λ b. some (decode_tcp_at d slice start end (b / 16)))

  unfoldable pub decode_udp : Decoded → List ℕ → ℕ → ℕ → Decoded
  unfolding read_udp
  decode_udp d slice start end =
      if ltb (length slice) 8
      then report Anomaly.udp truncated_header d
      else read_udp d (parse_udp slice) (length slice) start end

  unfoldable pub decode_transport_slice : Decoded → ℕ → List ℕ → ℕ → ℕ → Option Decoded
  unfolding decode_tcp decode_udp decode_icmp
  decode_transport_slice d protocol slice start end =
      if protocol == 6
      then decode_tcp d slice start end
      else (if protocol == 17
          then some (decode_udp d slice start end)
          else (if protocol == 1
              then decode_icmp d slice start end false
              else (if protocol == 58
                  then decode_icmp d slice start end true
                  else some (set_payload start end (set_transport (Layers.other protocol) d)))))

  unfoldable pub decode_transport : Decoded → ℕ → ℕ → ℕ → Option Decoded
  unfolding decode_transport_slice
  decode_transport d protocol start end =
      decode_transport_slice d protocol (bytes_in start (min end (length d.frame)) d.frame) start
        end

  unfoldable pub decode_transport_bytes : List ℕ → ℕ → Option Decoded
  unfolding decode_transport
  decode_transport_bytes bytes protocol =
      decode_transport (new bytes (length bytes)) protocol 0 (length bytes)
