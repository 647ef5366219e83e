-- ===== src/Common/Endpoint.antt =====
-- An endpoint of a conversation, an address and a port, as crates/reassembly/src/flow.rs and
-- crates/prevent/src/store.rs order and compare them.
use cyber_sentinel_ids_ips.Prelude.{
  ℕ, ◌≡◌, ◌↔◌, refl, Bool, true, false, ◌&&◌, ltb, leb, ◌==◌, if◌then◌else◌, arith,
}
use cyber_sentinel_ids_ips.Common.Net.{IpAddr, v4, v6, ip_eq}
use cyber_sentinel_ids_ips.Common.Map.{Key}

-- The derived order of `IpAddr`: the first family before the second, then by value.
abbrev pub ip_lt : IpAddr → IpAddr → Bool
ip_lt (v4 a) (v4 b) = ltb a b
ip_lt (v4 a) (v6 b) = true
ip_lt (v6 a) (v4 b) = false
ip_lt (v6 a) (v6 b) = ltb a b

pub record Endpoint : Type 0 where
  pub address : IpAddr
  pub port : ℕ

-- `<=` on pairs of an address and a port.
unfoldable pub endpoint_le : Endpoint → Endpoint → Bool
unfolding ip_eq
endpoint_le a b =
    if ip_lt a.address b.address then true else (ip_eq a.address b.address && leb a.port b.port)

pub ip_eq_iff : (a b : IpAddr) → (ip_eq a b ≡ true) ↔ (a ≡ b)
unfolding ip_eq
ip_eq_iff (v4 a) (v4 b) = ground arith
ip_eq_iff (v4 a) (v6 b) = (λ h. cc h, λ h. cc h)
ip_eq_iff (v6 a) (v4 b) = (λ h. cc h, λ h. cc h)
ip_eq_iff (v6 a) (v6 b) = ground arith

instance abbrev pub ip_key : Key IpAddr
ip_key = record { key_eq = ip_eq; key_eq_iff = ip_eq_iff }

unfoldable pub endpoint_eq : Endpoint → Endpoint → Bool
endpoint_eq a b = ip_eq a.address b.address && a.port == b.port

pub endpoint_eq_iff : (a b : Endpoint) → (endpoint_eq a b ≡ true) ↔ (a ≡ b)
unfolding endpoint_eq
endpoint_eq_iff a b = ground (arith, ip_eq_iff a.address b.address)

-- Of two addresses exactly one of `<`, `==` and `>` holds.
ip_trichotomy :
    (a b : IpAddr)
    → (ip_lt a b ≡ false → ip_eq a b ≡ false → ip_lt b a ≡ true)
      × (ip_lt a b ≡ true → ip_lt b a ≡ false)
      × (ip_lt a b ≡ true → ip_eq b a ≡ false)
      × (ip_eq a b ≡ true → ip_lt a b ≡ false)
unfolding ip_eq
ip_trichotomy (v4 a) (v4 b) =
    (λ h k. ground arith, λ h. ground arith, λ h. ground arith, λ h. ground arith)
ip_trichotomy (v4 a) (v6 b) = (λ h k. cc, λ h. refl, λ h. refl, λ h. cc)
ip_trichotomy (v6 a) (v4 b) = (λ h k. refl, λ h. cc, λ h. cc, λ h. cc)
ip_trichotomy (v6 a) (v6 b) =
    (λ h k. ground arith, λ h. ground arith, λ h. ground arith, λ h. ground arith)

pub endpoint_le_total : (a b : Endpoint) → endpoint_le a b ≡ false → endpoint_le b a ≡ true
unfolding endpoint_le
endpoint_le_total a b h = ground (
  arith,
  ip_trichotomy a.address b.address,
  ip_trichotomy b.address a.address,
  ip_eq_iff a.address b.address,
  ip_eq_iff b.address a.address,
)

pub endpoint_le_antisym : (a b : Endpoint) → endpoint_le a b ≡ true → endpoint_le b a ≡ true → a ≡ b
unfolding endpoint_le
endpoint_le_antisym a b h k = ground (
  arith,
  ip_trichotomy a.address b.address,
  ip_trichotomy b.address a.address,
  ip_eq_iff a.address b.address,
  ip_eq_iff b.address a.address,
)
