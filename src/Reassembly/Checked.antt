-- ===== src/Reassembly/Checked.antt =====
-- The limits of crates/reassembly/src/stream.rs and defrag.rs behind the check of a configuration in
-- crates/common/src/config.rs.
mod Tests
use cyber_sentinel_ids_ips.Prelude.{
  ℕ, ◌≤◌, ◌<◌, ◌≡◌, refl, min, max, Bool, true, false, ok, List, [], ◌∷◌, ltb, ◌==◌, if◌then◌else◌,
  arith,
}
use cyber_sentinel_ids_ips.Common.Config.{
  ReassemblyConfig, check, check_hosts, default_config, first,
}
use cyber_sentinel_ids_ips.Reassembly.Stream.{StreamPair}
use cyber_sentinel_ids_ips.Reassembly.Stream as Conversation
use cyber_sentinel_ids_ips.Reassembly.Defrag.{Defragmenter}
use cyber_sentinel_ids_ips.Reassembly.Defrag as Fragments

-- Behind a check that passes, the limit and the flush threshold of each direction of a conversation
-- are the configured ones, as are the number of datagrams in progress and their timeout: the bounds
-- that the constructors put on them change none. The check does not look at the total of the fragment
-- bytes, and that one number is the configured one or, where 0 is configured, 1. The flush threshold
-- is no more than the limit of a direction, which is no more than that of all.
pub check-limits :
    (config : ReassemblyConfig)
    → check config ≡ ok tt
    → ((Conversation.new config).to_server.byte_limit ≡ config.max_stream_bytes_per_flow)
      × ((Conversation.new config).to_client.byte_limit ≡ config.max_stream_bytes_per_flow)
      × ((Conversation.new config).to_server.flush_bytes ≡ config.delivery_flush_bytes)
      × ((Conversation.new config).to_client.flush_bytes ≡ config.delivery_flush_bytes)
      × ((Fragments.new config).max_sets ≡ config.max_fragment_sets)
      × ((Fragments.new config).max_bytes_total
          ≡ (if config.max_fragment_bytes_total == 0 then 1 else config.max_fragment_bytes_total))
      × ((Fragments.new config).timeout ≡ config.fragment_timeout_secs)
      × (config.delivery_flush_bytes ≤ config.max_stream_bytes_per_flow)
      × (config.max_stream_bytes_per_flow ≤ config.max_stream_bytes_total)
unfolding check Conversation.new Fragments.new
check-limits config h = (
  ground arith,
  ground arith,
  ground arith,
  ground arith,
  ground arith,
  ground arith,
  ground arith,
  ground arith,
  ground arith,
)
