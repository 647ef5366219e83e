-- ===== src/Common/Net/Tests.antt =====
-- Networks on concrete addresses.
use cyber_sentinel_ids_ips.Prelude.{◌≡◌, ◌↔◌, refl, true, ok, arith}
use cyber_sentinel_ids_ips.Common.Net.{
  v4, IpNetwork, new, mask, masked_v4, contains, max_prefix_len,
}
use cyber_sentinel_ids_ips.Common.Net.Prefix.{SamePrefix, contains-new}

-- 10.1.2.3/8, with its host bits cleared.
abbrev ten : IpNetwork
ten = record { address = v4 167772160; prefix_len = 8 }

new-ten : new (v4 167838211) 8 ≡ ok ten
unfolding new mask masked_v4 max_prefix_len
new-ten = refl

contains-new_example :
    (contains ten (v4 184549375) ≡ true) ↔ SamePrefix 8 (v4 184549375) (v4 167838211)
contains-new_example =
    contains-new (v4 167838211) (v4 184549375) 8 ten (omega arith) (omega arith) new-ten
