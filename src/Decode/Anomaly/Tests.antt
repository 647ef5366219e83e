-- ===== src/Decode/Anomaly/Tests.antt =====
-- A frame with nine distinct anomalies, one of them reported twice.
use cyber_sentinel_ids_ips.Prelude.{List, [], ◌∷◌, ◌++◌, map, ◌≡◌, refl, true}
use cyber_sentinel_ids_ips.Decode.Anomaly.{
  Anomaly, Layer, AnomalyKind, ipv4, tcp, truncated_header, length_mismatch, impossible_length,
  unknown_ip_version, bad_ipv4_checksum, too_many_layers, empty_frame, no_anomalies, push,
}
use cyber_sentinel_ids_ips.Decode.Anomaly.Capped.{push_all, capped, distinct_from, push_all-capped}

abbrev at : Layer → AnomalyKind → Anomaly
at layer kind = record { kind = kind; layer = layer }

abbrev seven : List Anomaly
seven = map (at ipv4) (
    truncated_header ∷ length_mismatch ∷ impossible_length ∷ unknown_ip_version ∷ bad_ipv4_checksum
    ∷ too_many_layers ∷ empty_frame ∷ [])

abbrev nine : List Anomaly
nine = seven ++ (at ipv4 truncated_header ∷ at tcp truncated_header ∷ at tcp length_mismatch ∷ [])

-- The first eight stand in the set, which says that there were more.
nine_overflow :
    push_all nine no_anomalies
    ≡ record { found = seven ++ (at tcp truncated_header ∷ []); overflowed = true }
unfolding push
nine_overflow = refl

push_all-capped_example : push_all nine no_anomalies ≡ capped (distinct_from [] nine)
push_all-capped_example = push_all-capped nine
