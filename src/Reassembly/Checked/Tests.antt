-- ===== src/Reassembly/Checked/Tests.antt =====
-- The default configuration passes its check.
use cyber_sentinel_ids_ips.Prelude.{◌≤◌, ◌≡◌, refl, ok}
use cyber_sentinel_ids_ips.Common.Config.{check, check_hosts, default_config}
use cyber_sentinel_ids_ips.Reassembly.Stream as Conversation
use cyber_sentinel_ids_ips.Reassembly.Defrag as Fragments
use cyber_sentinel_ids_ips.Reassembly.Checked.{check-limits}

check-default : check default_config ≡ ok tt
unfolding check check_hosts
check-default = refl

check-limits_example :
    ((Conversation.new default_config).to_server.byte_limit ≡ 1048576)
    × ((Conversation.new default_config).to_client.byte_limit ≡ 1048576)
    × ((Conversation.new default_config).to_server.flush_bytes ≡ 65536)
    × ((Conversation.new default_config).to_client.flush_bytes ≡ 65536)
    × ((Fragments.new default_config).max_sets ≡ 4096)
    × ((Fragments.new default_config).max_bytes_total ≡ 33554432)
    × ((Fragments.new default_config).timeout ≡ 60)
    × (65536 ≤ 1048576)
    × (1048576 ≤ 268435456)
check-limits_example = check-limits default_config check-default
