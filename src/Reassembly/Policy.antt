-- ===== src/Reassembly/Policy.antt =====
-- crates/reassembly/src/policy.rs: the overlap policy of a destination.
pub mod Longest
mod Tests
use cyber_sentinel_ids_ips.Prelude.{
  ℕ, Bool, true, false, Option, none, some, List, [], ◌∷◌, leb, find, length, if◌then◌else◌,
}
use cyber_sentinel_ids_ips.Common.Net.{IpAddr, IpNetwork, contains}
use cyber_sentinel_ids_ips.Common.Config.{OverlapPolicy, HostPolicy, ReassemblyConfig}

pub record PolicyResolver : Type 0 where
  pub default_policy : OverlapPolicy
  pub entries : List HostPolicy

-- `sort_by_key(Reverse(prefix_len))`, which is stable: an entry goes before the first one whose
-- prefix is no longer than its own.
pub insert_by_prefix : HostPolicy → List HostPolicy → List HostPolicy
insert_by_prefix e [] = e ∷ []
insert_by_prefix e (x ∷ xs) =
    let rest = insert_by_prefix e xs in
    if leb x.network.prefix_len e.network.prefix_len then e ∷ x ∷ xs else x ∷ rest

pub sort_by_prefix : List HostPolicy → List HostPolicy
unfolding insert_by_prefix
sort_by_prefix [] = []
sort_by_prefix (e ∷ es) = insert_by_prefix e (sort_by_prefix es)

pub new : OverlapPolicy → List HostPolicy → PolicyResolver
new default_policy overrides = record {
  default_policy = default_policy;
  entries = sort_by_prefix overrides;
}

pub from_config : ReassemblyConfig → PolicyResolver
from_config config = new config.overlap_policy config.host_policies

-- `map_or(default, |(_, policy)| policy)`.
abbrev pub policy_or : OverlapPolicy → Option HostPolicy → OverlapPolicy
policy_or d none = d
policy_or d (some e) = e.policy

abbrev pub applies : IpAddr → HostPolicy → Bool
applies address e = contains e.network address

pub for_destination : PolicyResolver → IpAddr → OverlapPolicy
for_destination r address = policy_or r.default_policy (find (applies address) r.entries)

pub override_count : PolicyResolver → ℕ
override_count r = length r.entries
