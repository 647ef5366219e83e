-- ===== src/Decode/Anomaly.antt =====
-- crates/decode/src/anomaly.rs: what a decoder found wrong in one frame, and the set that keeps it.
pub mod Capped
mod Tests
use cyber_sentinel_ids_ips.Prelude.{
  ℕ, Bool, true, false, ◌&&◌, List, [], ◌∷◌, ◌++◌, leb, ◌==◌, any, length, if◌then◌else◌, String,
}

pub data Layer : Type 0 where
  ethernet vlan ipv4 ipv6 tcp udp icmp : Layer

-- `Layer::as_str`.
abbrev pub layer_as_str : Layer → String
layer_as_str ethernet = "ethernet"
layer_as_str vlan = "vlan"
layer_as_str ipv4 = "ipv4"
layer_as_str ipv6 = "ipv6"
layer_as_str tcp = "tcp"
layer_as_str udp = "udp"
layer_as_str icmp = "icmp"

pub data AnomalyKind : Type 0 where
  truncated_header length_mismatch impossible_length unknown_ip_version : AnomalyKind
  bad_ipv4_checksum too_many_layers empty_frame : AnomalyKind

-- `AnomalyKind::as_str`.
abbrev pub kind_as_str : AnomalyKind → String
kind_as_str truncated_header = "truncated_header"
kind_as_str length_mismatch = "length_mismatch"
kind_as_str impossible_length = "impossible_length"
kind_as_str unknown_ip_version = "unknown_ip_version"
kind_as_str bad_ipv4_checksum = "bad_ipv4_checksum"
kind_as_str too_many_layers = "too_many_layers"
kind_as_str empty_frame = "empty_frame"

-- The derived equalities compare the constructors, by their position.
abbrev layer_number : Layer → ℕ
layer_number ethernet = 0
layer_number vlan = 1
layer_number ipv4 = 2
layer_number ipv6 = 3
layer_number tcp = 4
layer_number udp = 5
layer_number icmp = 6

abbrev kind_number : AnomalyKind → ℕ
kind_number truncated_header = 0
kind_number length_mismatch = 1
kind_number impossible_length = 2
kind_number unknown_ip_version = 3
kind_number bad_ipv4_checksum = 4
kind_number too_many_layers = 5
kind_number empty_frame = 6

pub record Anomaly : Type 0 where
  pub kind : AnomalyKind
  pub layer : Layer

abbrev pub anomaly_eq : Anomaly → Anomaly → Bool
anomaly_eq a b =
    kind_number a.kind == kind_number b.kind && layer_number a.layer == layer_number b.layer

pub record AnomalySet : Type 0 where
  pub found : List Anomaly
  pub overflowed : Bool

-- `AnomalySet::CAP`.
abbrev pub anomaly_cap : ℕ
anomaly_cap = 8

-- `AnomalySet::default()`.
abbrev pub no_anomalies : AnomalySet
no_anomalies = record { found = []; overflowed = false }

-- `found.contains(&anomaly)`.
abbrev pub is_found : Anomaly → List Anomaly → Bool
is_found a anomalies = any (anomaly_eq a) anomalies

-- `AnomalySet::push`.
unfoldable pub push : Anomaly → AnomalySet → AnomalySet
push a s =
    if is_found a s.found
    then s
    else (if leb anomaly_cap (length s.found)
        then record s { overflowed = true }
        else record s { found = s.found ++ (a ∷ []) })

-- `AnomalySet::contains`.
abbrev pub contains_anomaly : Layer → AnomalyKind → AnomalySet → Bool
contains_anomaly layer kind s = is_found (record { kind = kind; layer = layer }) s.found
