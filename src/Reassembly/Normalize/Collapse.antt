-- ===== src/Reassembly/Normalize/Collapse.antt =====
-- `collapse_path` and `normalize_path` of crates/reassembly/src/normalize.rs. 47 is `/`, 92 is `\`
-- and 46 is `.`.
use cyber_sentinel_ids_ips.Prelude.{
  ℕ, Bool, true, false, ◌&&◌, ◌||◌, not, Option, none, some, List, [], ◌∷◌, ◌++◌, any, ◌==◌,
  if◌then◌else◌, map,
}
use cyber_sentinel_ids_ips.Reassembly.Normalize.{
  NormalizationFlags, no_flags, merge, NormalizeOptions, Normalized, percent_decode_repeatedly,
}

-- The kinds of part that the `match` tells apart.
pub data PartKind : Type 0 where
  empty_part self_part parent_part : PartKind
  name_part : PartKind

unfoldable pub part_kind : List ℕ → PartKind
part_kind [] = empty_part
part_kind (b ∷ []) = if b == 46 then self_part else name_part
part_kind (b ∷ c ∷ []) = if b == 46 && c == 46 then parent_part else name_part
part_kind (b ∷ c ∷ d ∷ rest) = name_part

abbrev pub into_first : ℕ → List (List ℕ) → List (List ℕ)
into_first b [] = (b ∷ []) ∷ []
into_first b (part ∷ parts) = (b ∷ part) ∷ parts

-- `split(|byte| *byte == b'/')`.
unfoldable pub split : List ℕ → List (List ℕ)
split [] = [] ∷ []
split (b ∷ rest) = let parts = split rest in if b == 47 then [] ∷ parts else into_first b parts

abbrev pub separator_of : ℕ → ℕ
separator_of b = if b == 92 then 47 else b

-- `segments.pop()`: `none` where there is none.
unfoldable pub pop : List (List ℕ) → Option (List (List ℕ))
pop [] = none
pop (s ∷ []) = some []
pop (s ∷ t ∷ rest) = elim (pop (t ∷ rest)) [ none ↦ none | some kept ↦ some (s ∷ kept) ]

pub record Walk : Type 0 where
  pub segments : List (List ℕ)
  pub flags : NormalizationFlags

abbrev pub go_up : Walk → Option (List (List ℕ)) → Walk
go_up w none = record w { flags = record (w.flags) { traversal = true; above_root = true } }
go_up w (some kept) = record { segments = kept; flags = record (w.flags) { traversal = true } }

abbrev pub visit_kind : Walk → List ℕ → PartKind → Walk
visit_kind w part empty_part = w
visit_kind w part self_part = record w { flags = record (w.flags) { self_reference = true } }
visit_kind w part parent_part = go_up w (pop w.segments)
visit_kind w part name_part = record w { segments = w.segments ++ (part ∷ []) }

unfoldable pub visit : Walk → List ℕ → Walk
unfolding part_kind pop
visit w part = visit_kind w part (part_kind part)

unfoldable pub visit_all : Walk → List (List ℕ) → Walk
unfolding visit
visit_all w [] = w
visit_all w (part ∷ parts) = visit_all (visit w part) parts

-- Whether a part between the first and the last is empty.
abbrev pub is_empty_part : List ℕ → Bool
is_empty_part [] = true
is_empty_part (b ∷ part) = false

unfoldable pub empty_before_last : List (List ℕ) → Bool
empty_before_last [] = false
empty_before_last (part ∷ []) = false
empty_before_last (part ∷ next ∷ rest) = is_empty_part part || empty_before_last (next ∷ rest)

abbrev pub has_empty_segment : List (List ℕ) → Bool
has_empty_segment [] = false
has_empty_segment (part ∷ parts) = empty_before_last parts

abbrev pub names_no_file : PartKind → Bool
names_no_file name_part = false
names_no_file kind = true

-- Whether the last part is empty, `.` or `..`.
unfoldable pub trailing : List (List ℕ) → Bool
unfolding part_kind
trailing [] = false
trailing (part ∷ []) = names_no_file (part_kind part)
trailing (part ∷ next ∷ rest) = trailing (next ∷ rest)

unfoldable pub write_rest : List (List ℕ) → List ℕ
write_rest [] = []
write_rest (s ∷ segments) = 47 ∷ s ++ write_rest segments

-- The segments with a separator in front of each but the first.
unfoldable pub write_segments : List (List ℕ) → List ℕ
unfolding write_rest
write_segments [] = []
write_segments (s ∷ segments) = s ++ write_rest segments

abbrev pub is_absolute : List ℕ → Bool
is_absolute [] = false
is_absolute (b ∷ rest) = b == 47

unfoldable pub ends_with_separator : List ℕ → Bool
ends_with_separator [] = false
ends_with_separator (b ∷ []) = b == 47
ends_with_separator (b ∷ c ∷ rest) = ends_with_separator (c ∷ rest)

abbrev pub close_directory : Bool → List ℕ → List ℕ
close_directory directory out =
    if directory && not (is_empty_part out) && not (ends_with_separator out)
    then out ++ (47 ∷ [])
    else out

abbrev pub open_root : Bool → List ℕ → List ℕ
open_root absolute out = if absolute then 47 ∷ out else out

-- The path that segments, a root and a last part are written as.
unfoldable pub render : Bool → Bool → List (List ℕ) → List ℕ
unfolding write_segments ends_with_separator
render absolute directory segments =
    close_directory directory (open_root absolute (write_segments segments))

abbrev pub start_walk : NormalizationFlags → List (List ℕ) → Walk
start_walk flags parts = record {
  segments = [];
  flags = record flags { empty_segment = has_empty_segment parts };
}

unfoldable pub collapse_separated : NormalizationFlags → List ℕ → List ℕ × NormalizationFlags
unfolding split empty_before_last visit_all trailing render
collapse_separated flags [] = ([], flags)
collapse_separated flags (b ∷ rest) =
    let input = b ∷ rest in
    let parts = split input in
    let walk = visit_all (start_walk flags parts) parts in
    (render (is_absolute input) (trailing parts) walk.segments, walk.flags)

abbrev pub is_backslash : ℕ → Bool
is_backslash b = b == 92

unfoldable pub collapse_path : List ℕ → Bool → List ℕ × NormalizationFlags
unfolding collapse_separated
collapse_path input true =
    collapse_separated (record no_flags { backslash = any is_backslash input })
      (map separator_of input)
collapse_path input false = collapse_separated no_flags input

unfoldable pub normalize_path : List ℕ → NormalizeOptions → Normalized
unfolding collapse_path
normalize_path input options =
    let decoded = percent_decode_repeatedly input options.decode_rounds in
    let (collapsed, flags) = collapse_path decoded.bytes options.backslash_is_separator in
    if options.collapses_path
    then record decoded { bytes = collapsed; flags = merge decoded.flags flags }
    else decoded
