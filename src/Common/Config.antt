-- ===== src/Common/Config.antt =====
-- crates/common/src/config.rs: the configuration of reassembly, and its check.
use cyber_sentinel_ids_ips.Prelude.{
  ℕ, Bool, ◌&&◌, List, [], ◌∷◌, Result, ok, err, any, ltb, ◌==◌, if◌then◌else◌,
}
use cyber_sentinel_ids_ips.Common.Net.{IpNetwork, ip_eq}

pub data OverlapPolicy : Type 0 where
  first last : OverlapPolicy

pub record HostPolicy : Type 0 where
  pub network : IpNetwork
  pub policy : OverlapPolicy

pub record ReassemblyConfig : Type 0 where
  pub overlap_policy : OverlapPolicy
  pub host_policies : List HostPolicy
  pub max_fragment_sets : ℕ
  pub max_fragment_bytes_total : ℕ
  pub fragment_timeout_secs : ℕ
  pub max_stream_bytes_per_flow : ℕ
  pub max_stream_bytes_total : ℕ
  pub delivery_flush_bytes : ℕ

-- `ReassemblyConfig::default`.
abbrev pub default_config : ReassemblyConfig
default_config = record {
  overlap_policy = first;
  host_policies = [];
  max_fragment_sets = 4096;
  max_fragment_bytes_total = 33554432;
  fragment_timeout_secs = 60;
  max_stream_bytes_per_flow = 1048576;
  max_stream_bytes_total = 268435456;
  delivery_flush_bytes = 65536;
}

-- The errors of the check, by the key that they name.
pub data ConfigInvalid : Type 0 where
  max_fragment_sets_zero fragment_timeout_zero max_stream_bytes_zero : ConfigInvalid
  total_below_flow delivery_flush_zero flush_above_flow : ConfigInvalid
  listed_twice : IpNetwork → ConfigInvalid

-- Whether two networks print the same, which they do only where they are the same.
abbrev pub prints_same : IpNetwork → IpNetwork → Bool
prints_same a b = ip_eq a.address b.address && a.prefix_len == b.prefix_len

-- The loop over the entries, with the networks seen before.
unfoldable pub check_hosts : List IpNetwork → List HostPolicy → Result {0, 0} Unit ConfigInvalid
check_hosts seen [] = ok tt
check_hosts seen (entry ∷ entries) =
    let rest = check_hosts (entry.network ∷ seen) entries in
    if any (prints_same entry.network) seen then err (listed_twice entry.network) else rest

unfoldable pub check : ReassemblyConfig → Result {0, 0} Unit ConfigInvalid
unfolding check_hosts
check config =
    if config.max_fragment_sets == 0
    then err max_fragment_sets_zero
    else if config.fragment_timeout_secs == 0
    then err fragment_timeout_zero
    else if config.max_stream_bytes_per_flow == 0
    then err max_stream_bytes_zero
    else if ltb config.max_stream_bytes_total config.max_stream_bytes_per_flow
    then err total_below_flow
    else if config.delivery_flush_bytes == 0
    then err delivery_flush_zero
    else if ltb config.max_stream_bytes_per_flow config.delivery_flush_bytes
    then err flush_above_flow
    else check_hosts [] config.host_policies
