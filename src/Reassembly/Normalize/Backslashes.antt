-- ===== src/Reassembly/Normalize/Backslashes.antt =====
-- Backslashes in `collapse_path` of crates/reassembly/src/normalize.rs.
use cyber_sentinel_ids_ips.Prelude.{
  ℕ, ◌≡◌, refl, ap, Bool, true, false, List, [], ◌∷◌, ◌++◌, any, map, ◌==◌, if◌then◌else◌, arith,
  Bool-cases, inl, inr, Every,
}
use cyber_sentinel_ids_ips.Reassembly.Normalize.{NormalizationFlags}
use cyber_sentinel_ids_ips.Reassembly.Normalize.Collapse.{
  into_first, split, visit_all, write_rest, write_segments, open_root, render, start_walk,
  collapse_separated, is_backslash, separator_of,
}
use cyber_sentinel_ids_ips.Reassembly.Normalize.Names.{visit_all-Every}

abbrev pub HasNoBackslash : List ℕ → Type 0
HasNoBackslash bytes = any is_backslash bytes ≡ false

HasNoBackslash-uncons :
    (b : ℕ) (rest : List ℕ) → HasNoBackslash (b ∷ rest) → ((b == 92) ≡ false) × HasNoBackslash rest
HasNoBackslash-uncons b rest h = (ground (arith, h), ground (arith, h))

-- Behind the separators that were backslashes.
pub map-HasNoBackslash : (input : List ℕ) → HasNoBackslash (map separator_of input)
map-HasNoBackslash [] = refl
map-HasNoBackslash (b ∷ input) = ground (arith, map-HasNoBackslash input)

pub map_nothing : (input : List ℕ) → HasNoBackslash input → map separator_of input ≡ input
map_nothing [] h = refl
map_nothing (b ∷ input) h =
    let (plain, rest) = HasNoBackslash-uncons b input h in
    rw plain (ap (λ r. b ∷ r) (map_nothing input rest))

append-HasNoBackslash :
    (xs ys : List ℕ) → HasNoBackslash xs → HasNoBackslash ys → HasNoBackslash (xs ++ ys)
append-HasNoBackslash [] ys h k = k
append-HasNoBackslash (x ∷ xs) ys h k = ground (arith, append-HasNoBackslash xs ys)

into_first-HasNoBackslash :
    (b : ℕ) (parts : List (List ℕ))
    → (b == 92) ≡ false
    → Every HasNoBackslash parts
    → Every HasNoBackslash (into_first b parts)
into_first-HasNoBackslash b [] h k = (ground arith, tt)
into_first-HasNoBackslash b (part ∷ parts) h k = (ground (arith, k.0), k.1)

split-HasNoBackslash : (input : List ℕ) → HasNoBackslash input → Every HasNoBackslash (split input)
unfolding split
split-HasNoBackslash [] h = (refl, tt)
split-HasNoBackslash (b ∷ rest) h =
    let (plain, clean) = HasNoBackslash-uncons b rest h in
    elim (Bool-cases (b == 47)) [
      | inl root ↦ rw root (refl, split-HasNoBackslash rest clean)
      | inr name ↦
          rw name (into_first-HasNoBackslash b (split rest) plain (split-HasNoBackslash rest clean))
    ]

write_rest-HasNoBackslash :
    (segments : List (List ℕ))
    → Every HasNoBackslash segments
    → HasNoBackslash (write_rest segments)
unfolding write_rest
write_rest-HasNoBackslash [] e = refl
write_rest-HasNoBackslash (s ∷ segments) e =
    append-HasNoBackslash s (write_rest segments) e.0 (write_rest-HasNoBackslash segments e.1)

write_segments-HasNoBackslash :
    (segments : List (List ℕ))
    → Every HasNoBackslash segments
    → HasNoBackslash (write_segments segments)
unfolding write_segments
write_segments-HasNoBackslash [] e = refl
write_segments-HasNoBackslash (s ∷ segments) e =
    append-HasNoBackslash s (write_rest segments) e.0 (write_rest-HasNoBackslash segments e.1)

open_root-HasNoBackslash :
    (absolute : Bool) (out : List ℕ) → HasNoBackslash out → HasNoBackslash (open_root absolute out)
open_root-HasNoBackslash true out h = h
open_root-HasNoBackslash false out h = h

closed-HasNoBackslash :
    (b : Bool) (out : List ℕ)
    → HasNoBackslash out
    → HasNoBackslash (if b then out ++ (47 ∷ []) else out)
closed-HasNoBackslash true out h = append-HasNoBackslash out (47 ∷ []) h refl
closed-HasNoBackslash false out h = h

-- A path without a backslash is collapsed to one without.
pub collapse_separated-HasNoBackslash :
    (flags : NormalizationFlags) (input : List ℕ)
    → HasNoBackslash input
    → HasNoBackslash (collapse_separated flags input).0
unfolding collapse_separated render
collapse_separated-HasNoBackslash flags [] h = refl
collapse_separated-HasNoBackslash flags (b ∷ rest) h =
    let parts : List (List ℕ) = split (b ∷ rest) in
    let segments : List (List ℕ) = (visit_all (start_walk flags parts) parts).segments in
    let clean : Every HasNoBackslash segments =
      visit_all-Every HasNoBackslash HasNoBackslash (λ part k n. n) (start_walk flags parts) parts
        (split-HasNoBackslash (b ∷ rest) h) tt in
    closed-HasNoBackslash _ (open_root (b == 47) (write_segments segments)) (
      open_root-HasNoBackslash (b == 47) (write_segments segments)
        (write_segments-HasNoBackslash segments clean))
