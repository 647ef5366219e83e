-- ===== src/Common/Net/Prefix.antt =====
-- `IpNetwork::contains` of crates/common/src/net.rs against the leading bits of addresses.
use Prim.Native.Nat.{bit_and}
use mathlib.Core.Path.{subst}
use cyber_sentinel_ids_ips.Prelude.{
  ℕ, ◌+◌, ◌-◌, ◌/◌, ◌^◌, ◌≤◌, ◌<◌, ◌≡◌, ◌↔◌, refl, sym, ap, ◌∙◌, Bool, true, ok, ◌==◌, ==_iff,
  all_upto, all_upto_sound, if◌then◌else◌, arith,
}
use cyber_sentinel_ids_ips.Common.Bits.{
  shl, ones, raised, halved, bit_and-raised, halved-eq_div, raised_injective,
}
use cyber_sentinel_ids_ips.Common.Net.{
  IpAddr, v4, v6, IsAddress, IpNetwork, mask, new, contains, max_prefix_len,
}

-- A family's mask for a prefix.
abbrev mask_of : ℕ → ℕ → ℕ
mask_of width p = if p == 0 then 0 else shl width (2 ^ width - 1) (width - p)

fits : ℕ → ℕ → Bool
fits width p = mask_of width p == raised (width - p) (ones p)

fits_v4 : all_upto 32 (fits 32) ≡ true
unfolding all_upto fits raised ones
fits_v4 = refl

fits_v6 : all_upto 128 (fits 128) ≡ true
unfolding all_upto fits raised ones
fits_v6 = refl

mask_of-eq_raised :
    (width p : ℕ)
    → all_upto width (fits width) ≡ true
    → p ≤ width
    → mask_of width p ≡ raised (width - p) (ones p)
unfolding fits
mask_of-eq_raised width p t h = (==_iff _ _).0 (all_upto_sound width (fits width) p t h)

-- Masking to a prefix clears the bits behind it.
masked :
    (width p a : ℕ)
    → all_upto width (fits width) ≡ true
    → p ≤ width
    → a < 2 ^ width
    → bit_and a (mask_of width p) ≡ raised (width - p) (halved (width - p) a)
masked width p a t h k =
    ap (bit_and a) (mask_of-eq_raised width p t h)
    ∙ bit_and-raised (width - p) p a
        (subst (λ w. a < 2 ^ w) (let e : width ≡ (width - p) + p = omega arith in e) k)

-- Two masked words are the same where the words begin alike.
masked_same :
    (width p a b : ℕ)
    → all_upto width (fits width) ≡ true
    → p ≤ width
    → a < 2 ^ width
    → b < 2 ^ width
    → (bit_and a (mask_of width p) ≡ bit_and b (mask_of width p))
      ↔ (a / 2 ^ (width - p) ≡ b / 2 ^ (width - p))
masked_same width p a b t h k l = (
  λ e.
      sym (halved-eq_div (width - p) a)
      ∙ raised_injective (width - p) (halved (width - p) a) (halved (width - p) b)
          (sym (masked width p a t h k) ∙ e ∙ masked width p b t h l)
      ∙ halved-eq_div (width - p) b,
  λ e.
      masked width p a t h k
      ∙ ap (raised (width - p))
          (halved-eq_div (width - p) a ∙ e ∙ sym (halved-eq_div (width - p) b))
      ∙ sym (masked width p b t h l),
)

-- Whether two addresses are of one family and have the same first `prefix_len` bits.
abbrev pub SamePrefix : ℕ → IpAddr → IpAddr → Type 0
SamePrefix p (v4 a) (v4 b) = a / 2 ^ (32 - p) ≡ b / 2 ^ (32 - p)
SamePrefix p (v6 a) (v6 b) = a / 2 ^ (128 - p) ≡ b / 2 ^ (128 - p)
SamePrefix p _ _ = ⊥

new-eq_ok :
    (address : IpAddr) (p : ℕ) (net : IpNetwork)
    → new address p ≡ ok net
    → (p ≤ max_prefix_len address) × (net ≡ record { address = mask address p; prefix_len = p })
unfolding new
new-eq_ok address p net e = ground arith

-- A test of two masked words for equality.
same_iff :
    (width p a b : ℕ)
    → all_upto width (fits width) ≡ true
    → p ≤ width
    → a < 2 ^ width
    → b < 2 ^ width
    → ((bit_and a (mask_of width p) == bit_and b (mask_of width p)) ≡ true)
      ↔ (a / 2 ^ (width - p) ≡ b / 2 ^ (width - p))
same_iff width p a b t h k l =
    let (to, back) = masked_same width p a b t h k l in
    (λ e. to ((==_iff _ _).0 e), λ e. (==_iff _ _).1 (back e))

-- A network that `new` built from an address and a prefix length contains exactly the addresses of
-- the same family whose first `prefix_len` bits are those of that address, host bits of the address
-- set or not; an address of the other family is in no network.
pub contains-new :
    (network candidate : IpAddr) (p : ℕ) (net : IpNetwork)
    → IsAddress network
    → IsAddress candidate
    → new network p ≡ ok net
    → (contains net candidate ≡ true) ↔ SamePrefix p candidate network
unfolding contains new mask max_prefix_len
contains-new (v4 n) (v4 c) p net hn hc e =
    let (short, same) = new-eq_ok (v4 n) p net e in rw same (same_iff 32 p c n fits_v4 short hc hn)
contains-new (v6 n) (v6 c) p net hn hc e =
    let (short, same) = new-eq_ok (v6 n) p net e in rw same (same_iff 128 p c n fits_v6 short hc hn)
contains-new (v4 n) (v6 c) p net hn hc e =
    let (short, same) = new-eq_ok (v4 n) p net e in rw same (λ h. absurd (cc h), λ h. absurd h)
contains-new (v6 n) (v4 c) p net hn hc e =
    let (short, same) = new-eq_ok (v6 n) p net e in rw same (λ h. absurd (cc h), λ h. absurd h)
