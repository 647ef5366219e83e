-- ===== src/Reassembly/Policy/Tests.antt =====
-- The policy table on a concrete configuration.
use cyber_sentinel_ids_ips.Prelude.{◌*◌, ◌^◌, ◌+◌, ◌≡◌, refl, [], ◌∷◌}
use cyber_sentinel_ids_ips.Common.Net.{v4, v6, IpNetwork, contains}
use cyber_sentinel_ids_ips.Common.Config.{first, last, ReassemblyConfig}
use cyber_sentinel_ids_ips.Reassembly.Policy.{
  from_config, new, sort_by_prefix, for_destination, policy_or,
}
use cyber_sentinel_ids_ips.Reassembly.Policy.Longest.{longest, for_destination-longest}

abbrev net_8 : IpNetwork
net_8 = record { address = v4 (10 * 2 ^ 24); prefix_len = 8 }

abbrev net_32 : IpNetwork
net_32 = record { address = v4 (10 * 2 ^ 24 + 1 * 2 ^ 16 + 2 * 2 ^ 8 + 3); prefix_len = 32 }

abbrev config : ReassemblyConfig
config = record {
  overlap_policy = last;
  host_policies =
      record { network = net_8; policy = first } ∷ record { network = net_32; policy = last } ∷ [];
  max_fragment_sets = 16;
  max_fragment_bytes_total = 1024;
  fragment_timeout_secs = 30;
  max_stream_bytes_per_flow = 4096;
  max_stream_bytes_total = 4096;
  delivery_flush_bytes = 4096;
}

the_host_wins : for_destination (from_config config) net_32.address ≡ last
unfolding for_destination from_config new sort_by_prefix contains
the_host_wins = refl

its_neighbour : for_destination (from_config config) (v4 (10 * 2 ^ 24 + 7)) ≡ first
unfolding for_destination from_config new sort_by_prefix contains
its_neighbour = refl

other_family : for_destination (from_config config) (v6 (10 * 2 ^ 24 + 7)) ≡ last
unfolding for_destination from_config new sort_by_prefix contains
other_family = refl

for_destination-longest_example :
    for_destination (from_config config) net_32.address
    ≡ policy_or last (longest net_32.address config.host_policies)
for_destination-longest_example = for_destination-longest config net_32.address
