-- ===== src/Decode/Transport/Tests.antt =====
-- A datagram of ten bytes, after two bytes that stand for an earlier layer.
use cyber_sentinel_ids_ips.Prelude.{
  ℕ, ◌+◌, ◌*◌, ◌≡◌, refl, Option, none, some, List, [], ◌∷◌, ◌>>=◌, get_elem?, arith,
}
use cyber_sentinel_ids_ips.Decode.Layers.{UdpInfo}
use cyber_sentinel_ids_ips.Decode.Transport.{
  clamp_range, Decoded, TcpHeader, new, payload_bytes, decode_transport,
}
use cyber_sentinel_ids_ips.Decode.Transport.InFrame.{Reads, decode_transport-Reads}

-- The number in two bytes, the high one first.
abbrev number_at : List ℕ → ℕ → Option ℕ
number_at bytes i =
    get_elem? bytes i >>= λ high. get_elem? bytes (i + 1) >>= λ low. some (high * 256 + low)

-- A reader of UDP headers as RFC 768 lays them out, and one that reads no TCP header.
abbrev parse_udp : List ℕ → Option UdpInfo
parse_udp bytes = number_at bytes 0 >>= λ source. number_at bytes 2 >>= λ destination.
    number_at bytes 4 >>= λ size.
    some (record { source_port = source; destination_port = destination; length = size })

abbrev parse_tcp : List ℕ → Option TcpHeader
parse_tcp bytes = none

abbrev datagram : List ℕ
datagram = 7 ∷ 7 ∷ 0 ∷ 53 ∷ 16 ∷ 0 ∷ 0 ∷ 10 ∷ 0 ∷ 0 ∷ 104 ∷ 105 ∷ []

abbrev received : Decoded
received = new datagram 12

decoded :
    (decode_transport parse_tcp parse_udp received 17 2 12 >>= λ r. some (payload_bytes r))
    ≡ some (104 ∷ 105 ∷ [])
unfolding decode_transport clamp_range
decoded = refl

decode_transport-Reads_example :
    (r : Decoded) × (decode_transport parse_tcp parse_udp received 17 2 12 ≡ some r)
    × Reads received r
decode_transport-Reads_example =
    decode_transport-Reads parse_tcp parse_udp received 17 2 12
      (record { ordered = omega arith; inside = omega arith })
