-- ===== src/Reassembly/Policy/Longest.antt =====
-- The table of crates/reassembly/src/policy.rs against the longest prefix that matches.
use native.Mathlib.Nat.{le_trans, le_refl}
use cyber_sentinel_ids_ips.Prelude.{
  ℕ, ◌≤◌, ◌≡◌, refl, ap, ◌∙◌, Bool, Option, none, some, List, [], ◌∷◌, leb, find, if◌then◌else◌,
  arith, Bool-cases, inl, inr,
}
use cyber_sentinel_ids_ips.Common.Net.{IpAddr}
use cyber_sentinel_ids_ips.Common.Config.{HostPolicy, ReassemblyConfig}
use cyber_sentinel_ids_ips.Reassembly.Policy.{
  insert_by_prefix, sort_by_prefix, new, from_config, policy_or, applies, for_destination,
}

-- Of two candidates, the first unless the second has a longer prefix.
abbrev pub longer : HostPolicy → Option HostPolicy → HostPolicy
longer e none = e
longer e (some r) = if leb r.network.prefix_len e.network.prefix_len then e else r

-- Of the entries whose network contains the address, the one of the longest prefix; of several such,
-- the first in the file.
pub longest : IpAddr → List HostPolicy → Option HostPolicy
longest address [] = none
longest address (e ∷ es) =
    if applies address e then some (longer e (longest address es)) else longest address es

-- No prefix is longer than `n`, and they do not grow.
abbrev Descends : ℕ → List HostPolicy → Type 0
Descends n [] = Unit
Descends n (e ∷ es) = (e.network.prefix_len ≤ n) × Descends e.network.prefix_len es

Descends-mono : (n m : ℕ) (es : List HostPolicy) → n ≤ m → Descends n es → Descends m es
Descends-mono n m [] h d = tt
Descends-mono n m (e ∷ es) h d = (omega arith, d.1)

insert-Descends :
    (n : ℕ) (e : HostPolicy) (es : List HostPolicy)
    → e.network.prefix_len ≤ n
    → Descends n es
    → Descends n (insert_by_prefix e es)
unfolding insert_by_prefix
insert-Descends n e [] h d = (h, tt)
insert-Descends n e (x ∷ xs) h d =
    elim (Bool-cases (leb x.network.prefix_len e.network.prefix_len)) [
      | inl before ↦ rw before (h, (ground arith, d.1))
      | inr after ↦ rw after (d.0, insert-Descends x.network.prefix_len e xs (ground arith) d.1)
    ]

abbrev top : List HostPolicy → ℕ
top [] = 0
top (e ∷ es) = if leb e.network.prefix_len (top es) then top es else e.network.prefix_len

sort-Descends : (es : List HostPolicy) → Descends (top es) (sort_by_prefix es)
unfolding sort_by_prefix
sort-Descends [] = tt
sort-Descends (e ∷ es) =
    insert-Descends (top (e ∷ es)) e (sort_by_prefix es) (ground arith)
      (Descends-mono (top es) (top (e ∷ es)) (sort_by_prefix es) (ground arith) (sort-Descends es))

find_bound :
    (p : HostPolicy → Bool) (n : ℕ) (es : List HostPolicy) (r : HostPolicy)
    → Descends n es
    → find p es ≡ some r
    → r.network.prefix_len ≤ n
find_bound p n [] r d h = absurd (cc h)
find_bound p n (e ∷ es) r d h = ground (arith, find_bound p e.network.prefix_len es r)

longer-top :
    (e : HostPolicy) (o : Option HostPolicy)
    → ((r : HostPolicy) → o ≡ some r → r.network.prefix_len ≤ e.network.prefix_len)
    → longer e o ≡ e
longer-top e none h = refl
longer-top e (some r) h = ground (arith, h r refl)

find-insert :
    (p : HostPolicy → Bool) (n : ℕ) (e : HostPolicy) (es : List HostPolicy)
    → Descends n es
    → find p (insert_by_prefix e es) ≡ (if p e then some (longer e (find p es)) else find p es)
unfolding insert_by_prefix
find-insert p n e [] d = ground arith
find-insert p n e (x ∷ xs) d = elim (Bool-cases (leb x.network.prefix_len e.network.prefix_len)) [
  | inl before ↦ rw before (
      ground (
        arith,
        longer-top e (find p (x ∷ xs)) (λ r h.
            le_trans
              (find_bound p x.network.prefix_len (x ∷ xs) r (le_refl x.network.prefix_len, d.1) h)
              (ground arith)),
      ))
  | inr after ↦ rw after (ground (arith, find-insert p x.network.prefix_len e xs d.1))
]

find-sort :
    (address : IpAddr) (es : List HostPolicy)
    → find (applies address) (sort_by_prefix es) ≡ longest address es
unfolding sort_by_prefix longest
find-sort address [] = refl
find-sort address (e ∷ es) =
    find-insert (applies address) (top es) e (sort_by_prefix es) (sort-Descends es)
    ∙ rw (find-sort address es)

-- The policy for an address is that of the override with the longest prefix among those whose
-- network contains it, of the first of them in the file where several are as long, and the default
-- policy where none contains it.
pub for_destination-longest :
    (config : ReassemblyConfig) (address : IpAddr)
    → for_destination (from_config config) address
      ≡ policy_or config.overlap_policy (longest address config.host_policies)
unfolding for_destination from_config new
for_destination-longest config address =
    ap (policy_or config.overlap_policy) (find-sort address config.host_policies)
