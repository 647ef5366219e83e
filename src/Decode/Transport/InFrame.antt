-- ===== src/Decode/Transport/InFrame.antt =====
-- What decoding a transport header gives, on every branch.
use mathlib.Core.Path.{subst}
use cyber_sentinel_ids_ips.Prelude.{
  ℕ, zero, suc, ◌+◌, ◌*◌, ◌/◌, ◌≤◌, ◌<◌, ◌≡◌, ◌⊎◌, inl, inr, refl, sym, ap, min, max, Bool, true,
  false, Option, none, some, List, [], ◌∷◌, ltb, leb, ◌==◌, length, get_elem?, if◌then◌else◌, ◌>>=◌,
  arith, Bool-cases, length-append,
}
use cyber_sentinel_ids_ips.Common.Map.{present}
use cyber_sentinel_ids_ips.Decode.Anomaly as Anomaly
use cyber_sentinel_ids_ips.Decode.Anomaly.{
  Anomaly, Layer, AnomalyKind, AnomalySet, anomaly_cap, is_found, push,
}
use cyber_sentinel_ids_ips.Decode.Anomaly.Capped.{push-known, push-full, push-room}
use cyber_sentinel_ids_ips.Decode.Layers as Layers
use cyber_sentinel_ids_ips.Decode.Layers.{Transport, UdpInfo}
use cyber_sentinel_ids_ips.Decode.Transport.{
  Decoded, Range, is_snapped, tuple_of, TcpHeader, new, five_tuple, clamp_range, report, read_tcp,
  check_udp_length, read_udp, icmp_of, set_transport, set_payload, tcp_info, decode_icmp,
  decode_tcp_at, decode_tcp, decode_udp, decode_transport_slice, decode_transport,
  decode_transport_bytes,
}

-- A range of a frame's bytes, neither inverted nor past the end.
pub record IsRange (frame : List ℕ) (r : Range) : Type 0 where
  pub ordered : r.first ≤ r.last
  pub inside : r.last ≤ length frame

-- A transport header was read from `d`: the rest of the frame's reading stands, the payload is in the
-- frame, and where no header was read something was reported.
pub record Reads (d r : Decoded) : Type 0 where
  pub frame : r.frame ≡ d.frame
  pub network : r.network ≡ d.network
  pub network_payload : r.network_payload ≡ d.network_payload
  pub in_frame : IsRange d.frame r.payload
  pub signalled : (present r.transport ≡ true) ⊎ (0 < length r.anomalies.found)

any-found : (a : Anomaly) (xs : List Anomaly) → is_found a xs ≡ true → 0 < length xs
any-found a [] h = cc h
any-found a (x ∷ xs) h = omega arith

-- After a report the set is not empty.
abbrev IsSome : AnomalySet → Type 0
IsSome s = 0 < length s.found

push-found : (a : Anomaly) (s : AnomalySet) → 0 < length (push a s).found
push-found a s = elim (Bool-cases (is_found a s.found)) [
  | inl h ↦ subst IsSome (sym (push-known a s h)) (any-found a s.found h)
  | inr h ↦ elim (Bool-cases (leb anomaly_cap (length s.found))) [
    | inl k ↦ subst IsSome (sym (push-full a s h (ground arith))) (ground arith)
    | inr k ↦
        subst IsSome (sym (push-room a s h (ground arith)))
          (omega (arith, length-append s.found (a ∷ [])))
  ]
]

clamp_range-IsRange :
    (first last : ℕ) (frame : List ℕ) → IsRange frame (clamp_range first last (length frame))
unfolding clamp_range
clamp_range-IsRange first last frame = record { ordered = omega arith; inside = omega arith }

report-Reads :
    (layer : Layer) (kind : AnomalyKind) (d : Decoded)
    → IsRange d.frame d.payload
    → Reads d (report layer kind d)
report-Reads layer kind d h = record {
  frame = refl;
  network = refl;
  network_payload = refl;
  in_frame = h;
  signalled = inr (push-found (record { kind = kind; layer = layer }) d.anomalies);
}

-- A header was read, with any reports on the way.
taken-Reads :
    (d : Decoded) (s : AnomalySet) (t : Transport) (first last : ℕ)
    → Reads d (set_payload first last (set_transport t (record d { anomalies = s })))
taken-Reads d s t first last = record {
  frame = refl;
  network = refl;
  network_payload = refl;
  in_frame = clamp_range-IsRange first last d.frame;
  signalled = inl refl;
}

read_tcp-Reads :
    (d : Decoded) (o : Option TcpHeader) (header_len start end : ℕ)
    → IsRange d.frame d.payload
    → Reads d (read_tcp d o header_len start end)
unfolding read_tcp
read_tcp-Reads d none header_len start end h = report-Reads _ _ d h
read_tcp-Reads d (some t) header_len start end h =
    taken-Reads d d.anomalies (Layers.tcp (tcp_info t header_len)) (start + header_len) end

-- Both branches of a test.
if-holds {ℓ} :
    {A : Type ℓ} (P : A → Type 0) (b : Bool) (x y : A)
    → (b ≡ true → P x)
    → (b ≡ false → P y)
    → P (if b then x else y)
if-holds P true x y p q = p refl
if-holds P false x y p q = q refl

-- Only the anomalies change.
abbrev HasAnomalies : Decoded → Decoded → Type 0
HasAnomalies d r = (s : AnomalySet) × (r ≡ record d { anomalies = s })

check_udp_length-anomalies :
    (d : Decoded) (claimed available : ℕ) → HasAnomalies d (check_udp_length d claimed available)
unfolding check_udp_length
check_udp_length-anomalies d claimed available =
    if-holds (HasAnomalies d) (ltb claimed 8) _ _ (λ h. (_, refl))
      (λ h.
        if-holds (HasAnomalies d) (ltb available claimed) _ _
          (λ k. if-holds (HasAnomalies d) (is_snapped d) _ _ (λ l. (_, refl)) (λ l. (_, refl)))
          (λ k. (_, refl)))

read_udp-Reads :
    (d : Decoded) (o : Option UdpInfo) (available start end : ℕ)
    → IsRange d.frame d.payload
    → Reads d (read_udp d o available start end)
unfolding read_udp
read_udp-Reads d none available start end h = report-Reads _ _ d h
read_udp-Reads d (some u) available start end h =
    let c = check_udp_length-anomalies d u.length available in
    subst
      (λ e. Reads d (
        set_payload (start + 8) (min (start + max u.length 8) end)
          (set_transport (Layers.udp u) e)))
      (sym c.1) (taken-Reads d c.0 (Layers.udp u) (start + 8) (min (start + max u.length 8) end))

-- A result without a panic.
abbrev Gives : Decoded → Option Decoded → Type 0
Gives d o = (r : Decoded) × (o ≡ some r) × Reads d r

gives : {d : Decoded} (r : Decoded) → Reads d r → Gives d (some r)
gives r h = (r, refl, h)

icmp_of_lem :
    (slice : List ℕ) (is_v6 : Bool)
    → 2 ≤ length slice
    → (t : Transport) × (icmp_of slice is_v6 ≡ some t)
icmp_of_lem [] is_v6 h = absurd (omega arith)
icmp_of_lem (x ∷ []) is_v6 h = absurd (omega arith)
icmp_of_lem (x ∷ y ∷ rest) is_v6 h = (_, refl)

get_elem?-some {ℓ} :
    {A : Type ℓ} (xs : List A) (i : ℕ) → i < length xs → (a : A) × (get_elem? xs i ≡ some a)
get_elem?-some [] i h = absurd (omega arith)
get_elem?-some (x ∷ xs) zero h = (x, refl)
get_elem?-some (x ∷ xs) (suc i) h = get_elem?-some xs i (omega arith)

-- A truncated message is reported, and its type and code are kept.
attributed :
    (d : Decoded) (t : Transport)
    → IsRange d.frame d.payload
    → Reads d (set_transport t (report Anomaly.icmp Anomaly.truncated_header d))
attributed d t h = record {
  frame = refl;
  network = refl;
  network_payload = refl;
  in_frame = h;
  signalled = inl refl;
}

decode_icmp-Gives :
    (d : Decoded) (slice : List ℕ) (start end : ℕ) (is_v6 : Bool)
    → IsRange d.frame d.payload
    → Gives d (decode_icmp d slice start end is_v6)
unfolding decode_icmp
decode_icmp-Gives d slice start end is_v6 h =
    if-holds (Gives d) (ltb (length slice) 8) _ _
      (λ short.
        if-holds (Gives d) (leb 2 (length slice)) _ _
          (λ k.
            let t = icmp_of_lem slice is_v6 (ground arith) in
            subst
              (λ o. Gives d (
                o >>= λ t. some (set_transport t (report Anomaly.icmp Anomaly.truncated_header d))))
              (sym t.1) (gives _ (attributed d t.0 h)))
          (λ k. gives _ (report-Reads _ _ d h)))
      (λ long.
        let t = icmp_of_lem slice is_v6 (ground arith) in
        subst (λ o. Gives d (o >>= λ t. some (set_payload (start + 8) end (set_transport t d))))
          (sym t.1) (gives _ (taken-Reads d d.anomalies t.0 (start + 8) end)))

module _ (parse_tcp : List ℕ → Option TcpHeader) (parse_udp : List ℕ → Option UdpInfo) where
  decode_tcp_at-Reads :
      (d : Decoded) (slice : List ℕ) (start end data_offset : ℕ)
      → IsRange d.frame d.payload
      → Reads d (decode_tcp_at parse_tcp parse_udp d slice start end data_offset)
  unfolding decode_tcp_at
  decode_tcp_at-Reads d slice start end data_offset h =
      if-holds (Reads d) (ltb data_offset 5) _ _ (λ k. report-Reads _ _ d h)
        (λ k.
          if-holds (Reads d) (ltb (length slice) (data_offset * 4)) _ _ (λ l. report-Reads _ _ d h)
            (λ l. read_tcp-Reads d (parse_tcp slice) (data_offset * 4) start end h))

  decode_tcp-Gives :
      (d : Decoded) (slice : List ℕ) (start end : ℕ)
      → IsRange d.frame d.payload
      → Gives d (decode_tcp parse_tcp parse_udp d slice start end)
  unfolding decode_tcp
  decode_tcp-Gives d slice start end h =
      if-holds (Gives d) (ltb (length slice) 20) _ _ (λ k. gives _ (report-Reads _ _ d h))
        (λ k.
          let b = get_elem?-some slice 12 (ground arith) in
          subst
            (λ o.
              Gives d
                (o >>= λ b. some (decode_tcp_at parse_tcp parse_udp d slice start end (b / 16))))
            (sym b.1) (gives _ (decode_tcp_at-Reads d slice start end (b.0 / 16) h)))

  decode_udp-Reads :
      (d : Decoded) (slice : List ℕ) (start end : ℕ)
      → IsRange d.frame d.payload
      → Reads d (decode_udp parse_tcp parse_udp d slice start end)
  unfolding decode_udp
  decode_udp-Reads d slice start end h =
      if-holds (Reads d) (ltb (length slice) 8) _ _ (λ k. report-Reads _ _ d h)
        (λ k. read_udp-Reads d (parse_udp slice) (length slice) start end h)

  decode_transport_slice-Gives :
      (d : Decoded) (protocol : ℕ) (slice : List ℕ) (start end : ℕ)
      → IsRange d.frame d.payload
      → Gives d (decode_transport_slice parse_tcp parse_udp d protocol slice start end)
  unfolding decode_transport_slice
  decode_transport_slice-Gives d protocol slice start end h =
      if-holds (Gives d) (protocol == 6) _ _ (λ k. decode_tcp-Gives d slice start end h)
        (λ k.
          if-holds (Gives d) (protocol == 17) _ _
            (λ l. gives _ (decode_udp-Reads d slice start end h))
            (λ l.
              if-holds (Gives d) (protocol == 1) _ _
                (λ m. decode_icmp-Gives d slice start end false h)
                (λ m.
                  if-holds (Gives d) (protocol == 58) _ _
                    (λ n. decode_icmp-Gives d slice start end true h)
                    (λ n. gives _ (taken-Reads d d.anomalies (Layers.other protocol) start end)))))

  -- Whatever the bytes are, and wherever the header is said to begin and the packet to end, decoding a
  -- transport header does not panic. It leaves the frame, the network layer and the network payload as
  -- they were, the payload lies in the frame if it did before, and where no header is known afterwards
  -- an anomaly is recorded.
  pub decode_transport-Reads :
      (d : Decoded) (protocol start end : ℕ)
      → IsRange d.frame d.payload
      → (r : Decoded) × (decode_transport parse_tcp parse_udp d protocol start end ≡ some r)
        × Reads d r
  unfolding decode_transport
  decode_transport-Reads d protocol start end h =
      decode_transport_slice-Gives d protocol _ start end h

  -- What is read from a reassembled datagram has its payload in the datagram, and no tuple.
  decode_transport_bytes-Reads :
      (bytes : List ℕ) (protocol : ℕ)
      → (r : Decoded) × (decode_transport_bytes parse_tcp parse_udp bytes protocol ≡ some r)
        × IsRange bytes r.payload
        × (five_tuple r ≡ none)
  unfolding decode_transport_bytes
  decode_transport_bytes-Reads bytes protocol =
      let g =
        decode_transport-Reads (new bytes (length bytes)) protocol 0 (length bytes)
          (record { ordered = omega arith; inside = omega arith }) in
      (g.0, g.1, g.2.in_frame, ap (λ n. tuple_of n g.0.transport) g.2.network)
