-- ===== src/Reassembly/Normalize/Shorter.antt =====
-- The lengths of what crates/reassembly/src/normalize.rs gives.
use mathlib.Core.Option.{some-injective}
use cyber_sentinel_ids_ips.Prelude.{
  ℕ, suc, ◌+◌, ◌-◌, ◌≤◌, ◌≡◌, refl, ap, ◌∙◌, Bool, true, false, any, some, List, [], ◌∷◌, ◌++◌,
  length, map, ◌==◌, if◌then◌else◌, arith, Bool-cases, Option-cases, inl, inr, length-append,
}
use cyber_sentinel_ids_ips.Reassembly.Normalize.{
  NormalizationFlags, no_flags, NormalizeOptions, Normalized, percent_decode_repeatedly,
}
use cyber_sentinel_ids_ips.Reassembly.Normalize.Collapse.{
  PartKind, empty_part, self_part, parent_part, name_part, part_kind, into_first, split,
  separator_of, pop, Walk, go_up, visit_kind, visit, visit_all, trailing, names_no_file, write_rest,
  write_segments, close_directory, ends_with_separator, open_root, render, collapse_separated,
  collapse_path, start_walk, is_backslash, normalize_path,
}
use cyber_sentinel_ids_ips.Reassembly.Normalize.Rounds.{length-percent_decode_repeatedly}

-- The bytes of the parts and of a separator behind each.
abbrev pub total : List (List ℕ) → ℕ
total [] = 0
total (part ∷ parts) = suc (length part) + total parts

abbrev pub one_if : Bool → ℕ
one_if b = if b then 1 else 0

into_first-total :
    (b : ℕ) (parts : List (List ℕ))
    → 1 ≤ total parts
    → total (into_first b parts) ≡ suc (total parts)
into_first-total b [] h = absurd (omega arith)
into_first-total b (part ∷ parts) h = omega arith

pub total-split : (input : List ℕ) → total (split input) ≡ suc (length input)
unfolding split
total-split [] = refl
total-split (b ∷ rest) = ground (arith, total-split rest, into_first-total b (split rest))

total-append : (xs ys : List (List ℕ)) → total (xs ++ ys) ≡ total xs + total ys
total-append [] ys = omega arith
total-append (x ∷ xs) ys = omega (arith, total-append xs ys)

total-pop : (segments kept : List (List ℕ)) → pop segments ≡ some kept → total kept ≤ total segments
unfolding pop
total-pop [] kept h = cc h
total-pop (s ∷ []) kept h = ground arith
total-pop (s ∷ t ∷ rest) kept h = elim (Option-cases (pop (t ∷ rest))) [
  | inl nothing ↦ cc (rw (pop, nothing) at h)
  | inr (less, popped) ↦
      let e : s ∷ less ≡ kept = some-injective (s ∷ less) kept (rw (pop, popped) at h) in
      omega (arith, ap total e, total-pop (t ∷ rest) less popped)
]

total-go_up : (w : Walk) → total (go_up w (pop w.segments)).segments ≤ total w.segments
total-go_up w = elim (Option-cases (pop w.segments)) [
  | inl nothing ↦ rw nothing (omega arith)
  | inr (kept, popped) ↦ rw popped (total-pop w.segments kept popped)
]

total-visit_kind :
    (w : Walk) (part : List ℕ) (kind : PartKind)
    → total (visit_kind w part kind).segments + one_if (names_no_file kind)
      ≤ total w.segments + suc (length part)
total-visit_kind w part empty_part = omega arith
total-visit_kind w part self_part = omega arith
total-visit_kind w part parent_part = omega (arith, total-go_up w)
total-visit_kind w part name_part = omega (arith, total-append w.segments (part ∷ []))

total-visit_all :
    (w : Walk) (parts : List (List ℕ))
    → total (visit_all w parts).segments + one_if (trailing parts) ≤ total w.segments + total parts
unfolding visit_all visit trailing
total-visit_all w [] = omega arith
total-visit_all w (part ∷ []) = omega (arith, total-visit_kind w part (part_kind part))
total-visit_all w (part ∷ next ∷ rest) =
    omega (
      arith,
      total-visit_kind w part (part_kind part),
      total-visit_all (visit w part) (next ∷ rest),
    )

length-write_rest : (segments : List (List ℕ)) → length (write_rest segments) ≡ total segments
unfolding write_rest
length-write_rest [] = refl
length-write_rest (s ∷ segments) =
    omega (arith, length-write_rest segments, length-append s (write_rest segments))

length-write_segments :
    (segments : List (List ℕ)) → length (write_segments segments) ≡ total segments - 1
unfolding write_segments
length-write_segments [] = refl
length-write_segments (s ∷ segments) =
    omega (arith, length-write_rest segments, length-append s (write_rest segments))

length-close_directory :
    (directory : Bool) (out : List ℕ)
    → length (close_directory directory out) ≤ length out + one_if directory
length-close_directory directory out = ground (arith, length-append out (47 ∷ []))

length-open_root :
    (absolute : Bool) (out : List ℕ)
    → length (open_root absolute out) ≡ one_if absolute + length out
length-open_root true out = omega arith
length-open_root false out = omega arith

closed_root :
    (absolute directory : Bool)
    → length (close_directory directory (open_root absolute [])) ≤ one_if absolute
unfolding ends_with_separator
closed_root false directory = ground arith
closed_root true directory = ground arith

length-render :
    (absolute directory : Bool) (segments : List (List ℕ))
    → length (render absolute directory segments)
      ≤ one_if absolute + (if total segments == 0 then 0 else total segments - 1 + one_if directory)
unfolding render write_segments
length-render absolute directory [] = omega (arith, closed_root absolute directory)
length-render absolute directory (s ∷ segments) =
    let body : List ℕ = write_segments (s ∷ segments) in
    let closed : length (render absolute directory (s ∷ segments))
        ≤ length (open_root absolute body) + one_if directory =
      length-close_directory directory (open_root absolute body) in
    ground (arith, closed, length-open_root absolute body, length-write_segments (s ∷ segments))

length-render_walk :
    (absolute : Bool) (w : Walk) (parts : List (List ℕ)) (n : ℕ)
    → total w.segments ≡ 0
    → total parts ≡ suc n
    → length (render absolute (trailing parts) (visit_all w parts).segments) ≤ one_if absolute + n
length-render_walk absolute w parts n empty all =
    let walked : List (List ℕ) = (visit_all w parts).segments in
    let bound = total-visit_all w parts in
    let written = length-render absolute (trailing parts) walked in ground arith

trailing-next :
    (part : List ℕ) (parts : List (List ℕ))
    → 1 ≤ total parts
    → trailing (part ∷ parts) ≡ trailing parts
unfolding trailing
trailing-next part [] h = absurd (omega arith)
trailing-next part (next ∷ rest) h = refl

length-collapse_rooted :
    (w : Walk) (rest : List ℕ)
    → total w.segments ≡ 0
    → length (render true (trailing ([] ∷ split rest)) (visit_all w ([] ∷ split rest)).segments)
      ≤ 1 + length rest
unfolding visit_all visit part_kind
length-collapse_rooted w rest empty =
    let more : 1 ≤ total (split rest) = omega (arith, total-split rest) in
    rw (trailing-next [] (split rest) more)
      (length-render_walk true w (split rest) (length rest) empty (total-split rest))

length-collapse_separated :
    (flags : NormalizationFlags) (input : List ℕ)
    → length (collapse_separated flags input).0 ≤ length input
unfolding collapse_separated split
length-collapse_separated flags [] = omega arith
length-collapse_separated flags (b ∷ rest) =
    let parts : List (List ℕ) = into_first b (split rest) in
    let size : total parts ≡ suc (suc (length rest)) =
      into_first-total b (split rest) (omega (arith, total-split rest))
      ∙ ap suc (total-split rest) in
    let rooted = length-collapse_rooted (start_walk flags ([] ∷ split rest)) rest refl in
    let relative =
      length-render_walk false (start_walk flags parts) parts (suc (length rest)) refl size in
    elim (Bool-cases (b == 47)) [
      | inl root ↦ rw root (omega (arith, rooted))
      | inr name ↦ rw name (omega (arith, relative))
    ]

length-map : (f : ℕ → ℕ) (xs : List ℕ) → length (map f xs) ≡ length xs
length-map f [] = refl
length-map f (x ∷ xs) = ap suc (length-map f xs)

pub length-collapse_path :
    (input : List ℕ) (backslash : Bool) → length (collapse_path input backslash).0 ≤ length input
unfolding collapse_path
length-collapse_path input true =
    let found : NormalizationFlags = record no_flags { backslash = any is_backslash input } in
    omega (
      arith,
      length-map separator_of input,
      length-collapse_separated found (map separator_of input),
    )
length-collapse_path input false = length-collapse_separated no_flags input

-- Normalising a path never gives more bytes than it is given, whatever the options.
pub length-normalize_path :
    (input : List ℕ) (options : NormalizeOptions)
    → length (normalize_path input options).bytes ≤ length input
unfolding normalize_path
length-normalize_path input options =
    let decoded : Normalized = percent_decode_repeatedly input options.decode_rounds in
    let passes = length-percent_decode_repeatedly input options.decode_rounds in
    let collapsed = length-collapse_path decoded.bytes options.backslash_is_separator in
    ground arith
