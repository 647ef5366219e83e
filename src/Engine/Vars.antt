-- ===== src/Engine/Vars.antt =====
-- crates/engine/src/vars.rs: address and port sets, and what a resolved header selects. The text of
-- the expressions is not modelled.
mod Tests
use cyber_sentinel_ids_ips.Prelude.{
  ℕ, ◌≡◌, refl, sym, ap, ◌∙◌, Bool, true, false, ◌&&◌, ◌||◌, not, Option, none, some, List, [], ◌∷◌,
  any, leb, if◌then◌else◌, Result, ok, err, arith,
}
use cyber_sentinel_ids_ips.Common.Net.{IpAddr, IpNetwork}
use cyber_sentinel_ids_ips.Common.Net as Net
use cyber_sentinel_ids_ips.Common.Event.{NetTuple, Protocol, tcp, udp, icmp, ip}
use cyber_sentinel_ids_ips.Rules.Model.{
  RuleProtocol, rule_tcp, rule_udp, rule_icmp, rule_ip, rule_http, rule_dns, rule_tls,
}

-- `AddressSet` and `PortSet`: a set by its inclusions and exclusions, networks or port ranges.
pub record ItemSet (A : Type 0) : Type 0 where
  pub everything_else : Bool
  pub include : List A
  pub exclude : List A

module _ {A X : Type 0} (covers : X → A → Bool) where
  unfoldable pub contains : ItemSet A → X → Bool
  contains s x =
      if any (covers x) s.exclude then false else (s.everything_else || any (covers x) s.include)

abbrev pub in_network : IpAddr → IpNetwork → Bool
in_network address network = Net.contains network address

abbrev pub in_range : ℕ → ℕ × ℕ → Bool
in_range port (low, high) = leb low port && leb port high

abbrev pub address_contains : ItemSet IpNetwork → IpAddr → Bool
address_contains = contains in_network

abbrev pub port_contains : ItemSet (ℕ × ℕ) → ℕ → Bool
port_contains = contains in_range

abbrev pub everything : {A : Type 0} → ItemSet A
everything = record { everything_else = true; include = []; exclude = [] }

abbrev pub nothing : {A : Type 0} → ItemSet A
nothing = record { everything_else = false; include = []; exclude = [] }

-- `VarError::UnsupportedNegation`.
pub data NegateError : Type 0 where
  unsupported_negation : NegateError

-- The `match` on what the set has: everything, no inclusion, no exclusion.
unfoldable pub negate_parts :
    {A : Type 0} → Bool → List A → List A → Result {0, 0} (ItemSet A) NegateError
negate_parts true [] [] = ok nothing
negate_parts true [] (e ∷ exclude) =
    ok (record { everything_else = false; include = e ∷ exclude; exclude = [] })
negate_parts false (i ∷ include) [] =
    ok (record { everything_else = true; include = []; exclude = i ∷ include })
negate_parts false [] [] = ok everything
negate_parts true (i ∷ include) exclude = err unsupported_negation
negate_parts false [] (e ∷ exclude) = err unsupported_negation
negate_parts false (i ∷ include) (e ∷ exclude) = err unsupported_negation

unfoldable pub negate : {A : Type 0} → ItemSet A → Result {0, 0} (ItemSet A) NegateError
unfolding negate_parts
negate s = negate_parts s.everything_else s.include s.exclude

abbrev pub PortSet : Type 0
PortSet = ItemSet (ℕ × ℕ)

-- `PortSet::negate`.
abbrev pub negate_ports : PortSet → Result {0, 0} PortSet NegateError
negate_ports = negate

pub record CompiledHeader : Type 0 where
  pub protocol : RuleProtocol
  pub source : ItemSet IpNetwork
  pub source_ports : ItemSet (ℕ × ℕ)
  pub destination : ItemSet IpNetwork
  pub destination_ports : ItemSet (ℕ × ℕ)
  pub is_bidirectional : Bool

abbrev pub same_protocol : Protocol → Protocol → Bool
same_protocol tcp tcp = true
same_protocol udp udp = true
same_protocol icmp icmp = true
same_protocol ip ip = true
same_protocol a b = false

unfoldable pub protocol_matches : RuleProtocol → Protocol → Bool
protocol_matches rule_ip wire = true
protocol_matches rule_tcp wire = same_protocol wire tcp
protocol_matches rule_udp wire = same_protocol wire udp
protocol_matches rule_icmp wire = same_protocol wire icmp
protocol_matches rule_http wire = same_protocol wire tcp
protocol_matches rule_tls wire = same_protocol wire tcp
protocol_matches rule_dns wire = same_protocol wire udp || same_protocol wire tcp

-- `is_none_or(..)`.
abbrev pub port_allowed : ItemSet (ℕ × ℕ) → Option ℕ → Bool
port_allowed ports none = true
port_allowed ports (some port) = port_contains ports port

unfoldable pub one_way : CompiledHeader → IpAddr → Option ℕ → IpAddr → Option ℕ → Bool
unfolding contains
one_way h source source_port destination destination_port =
    address_contains h.source source
    && address_contains h.destination destination
    && port_allowed h.source_ports source_port
    && port_allowed h.destination_ports destination_port

-- `CompiledHeader::matches`.
unfoldable pub header_matches : CompiledHeader → NetTuple → Bool
unfolding protocol_matches one_way
header_matches h tuple =
    if not (protocol_matches h.protocol tuple.proto)
    then false
    else if one_way h tuple.src_ip tuple.src_port tuple.dest_ip tuple.dest_port
    then true
    else (h.is_bidirectional && one_way h tuple.dest_ip tuple.dest_port tuple.src_ip tuple.src_port)

negated_set : {A : Type 0} → Result {0, 0} (ItemSet A) NegateError → ItemSet A
negated_set (ok t) = t
negated_set (err e) = nothing

negate_parts_exact :
    {A X : Type 0} (covers : X → A → Bool) (all : Bool) (include exclude : List A) (t : ItemSet A)
    (x : X)
    → negate_parts all include exclude ≡ ok t
    → contains covers (negated_set (negate_parts all include exclude)) x
      ≡ not (
          contains covers
            (record { everything_else = all; include = include; exclude = exclude })
            x)
unfolding contains negate_parts negated_set
negate_parts_exact covers true [] [] t x h = refl
negate_parts_exact covers true [] (e ∷ exclude) t x h = ground arith
negate_parts_exact covers false (i ∷ include) [] t x h = ground arith
negate_parts_exact covers false [] [] t x h = refl
negate_parts_exact covers true (i ∷ include) exclude t x h = absurd (cc h)
negate_parts_exact covers false [] (e ∷ exclude) t x h = absurd (cc h)
negate_parts_exact covers false (i ∷ include) (e ∷ exclude) t x h = absurd (cc h)

-- A negation is exact wherever it is not refused: whatever the ranges and networks cover, what the
-- negated set contains is exactly what the set does not.
pub negate_exact :
    {A X : Type 0} (covers : X → A → Bool) (s t : ItemSet A) (x : X)
    → negate s ≡ ok t
    → contains covers t x ≡ not (contains covers s x)
unfolding negate negated_set
negate_exact covers s t x h =
    ap (λ (r : Result (ItemSet _) NegateError). contains covers (negated_set r) x) (sym h)
    ∙ negate_parts_exact covers s.everything_else s.include s.exclude t x h
