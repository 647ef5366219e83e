-- ===== src/Common/Net.antt =====
-- crates/common/src/net.rs: address ranges in CIDR form. Addresses are numbers of 32 or 128 bits.
-- Parsing and printing rest on the standard library's parsers of addresses and are not modelled.
pub mod Prefix
mod Tests
use Prim.Native.Nat.{bit_and}
use cyber_sentinel_ids_ips.Prelude.{
  ℕ, ◌-◌, ◌^◌, ◌<◌, Bool, true, false, Result, ok, err, ltb, ◌==◌, if◌then◌else◌,
}
use cyber_sentinel_ids_ips.Common.Bits.{shl}

-- `std::net::IpAddr`.
pub data IpAddr : Type 0 where
  v4 : ℕ → IpAddr
  v6 : ℕ → IpAddr

-- The addresses that the type can hold.
abbrev pub IsAddress : IpAddr → Type 0
IsAddress (v4 a) = a < 2 ^ 32
IsAddress (v6 a) = a < 2 ^ 128

-- `==` on addresses.
unfoldable pub ip_eq : IpAddr → IpAddr → Bool
ip_eq (v4 a) (v4 b) = a == b
ip_eq (v6 a) (v6 b) = a == b
ip_eq _ _ = false

pub record IpNetwork : Type 0 where
  pub address : IpAddr
  pub prefix_len : ℕ

-- The error of `IpNetwork::new`; the others belong to parsing.
pub data IpNetworkParseError : Type 0 where
  prefix_too_long : ℕ → ℕ → IpNetworkParseError

pub max_prefix_len : IpAddr → ℕ
max_prefix_len (v4 _) = 32
max_prefix_len (v6 _) = 128

pub masked_v4 : ℕ → ℕ → ℕ
masked_v4 address prefix_len =
    bit_and address (if prefix_len == 0 then 0 else shl 32 (2 ^ 32 - 1) (32 - prefix_len))

pub masked_v6 : ℕ → ℕ → ℕ
masked_v6 address prefix_len =
    bit_and address (if prefix_len == 0 then 0 else shl 128 (2 ^ 128 - 1) (128 - prefix_len))

pub mask : IpAddr → ℕ → IpAddr
mask (v4 a) prefix_len = v4 (masked_v4 a prefix_len)
mask (v6 a) prefix_len = v6 (masked_v6 a prefix_len)

pub new : IpAddr → ℕ → Result IpNetwork IpNetworkParseError
unfolding max_prefix_len
new address prefix_len =
    if ltb (max_prefix_len address) prefix_len
    then err (prefix_too_long prefix_len (max_prefix_len address))
    else ok (record { address = mask address prefix_len; prefix_len = prefix_len })

pub host : IpAddr → IpNetwork
unfolding max_prefix_len
host address = record { address = address; prefix_len = max_prefix_len address }

contains_in : IpAddr → ℕ → IpAddr → Bool
contains_in (v4 network) prefix_len (v4 candidate) = masked_v4 candidate prefix_len == network
contains_in (v6 network) prefix_len (v6 candidate) = masked_v6 candidate prefix_len == network
contains_in _ prefix_len _ = false

unfoldable pub contains : IpNetwork → IpAddr → Bool
unfolding contains_in masked_v4 masked_v6
contains net address = contains_in net.address net.prefix_len address
