-- ===== src/Reassembly/Normalize/Canonical.antt =====
-- The paths that `collapse_path` and `normalize_path` of crates/reassembly/src/normalize.rs give.
use cyber_sentinel_ids_ips.Prelude.{
  ℕ, ◌≡◌, ◌≢◌, refl, sym, ap, ◌∙◌, Bool, true, false, List, [], ◌∷◌, ◌++◌, any, map, ◌==◌,
  if◌then◌else◌, Every, Every-map, append-nil,
}
use cyber_sentinel_ids_ips.Reassembly.Normalize.{
  NormalizationFlags, no_flags, NormalizeOptions, percent_decode_repeatedly,
}
use cyber_sentinel_ids_ips.Reassembly.Normalize.Collapse.{
  split, visit_all, trailing, write_rest, write_segments, ends_with_separator, open_root, part_kind,
  render, collapse_separated, start_walk, is_backslash, separator_of, collapse_path, normalize_path,
}
use cyber_sentinel_ids_ips.Reassembly.Normalize.Names.{
  is_separator, IsName, split-Every, visit_all-IsName,
}
use cyber_sentinel_ids_ips.Reassembly.Normalize.Backslashes.{
  HasNoBackslash, map-HasNoBackslash, map_nothing, collapse_separated-HasNoBackslash,
}
use cyber_sentinel_ids_ips.Reassembly.Normalize.Written.{render-written, collapse-render}

-- A segment that names something: it has a byte, is not `.` or `..`, and has no separator in it.
pub record IsSegment (s : List ℕ) : Type 0 where
  pub not_empty : s ≢ []
  pub not_self : s ≢ 46 ∷ []
  pub not_parent : s ≢ 46 ∷ 46 ∷ []
  pub no_separator : any is_separator s ≡ false

-- Segments with one separator between each and the next.
abbrev pub joined : List (List ℕ) → List ℕ
joined [] = []
joined (s ∷ []) = s
joined (s ∷ t ∷ segments) = s ++ (47 ∷ joined (t ∷ segments))

-- The spelling of a path: a separator in front where it is absolute, the segments, and a separator
-- behind where it names a directory that is not the root.
abbrev pub spelling : Bool → Bool → List (List ℕ) → List ℕ
spelling absolute directory [] = if absolute then 47 ∷ [] else []
spelling absolute directory (s ∷ segments) =
    (if absolute then 47 ∷ [] else [])
    ++ (joined (s ∷ segments) ++ (if directory then 47 ∷ [] else []))

-- A path that is spelled from segments.
pub record IsCanonical (path : List ℕ) : Type 0 where
  pub absolute : Bool
  pub directory : Bool
  pub segments : List (List ℕ)
  pub written : path ≡ spelling absolute directory segments
  pub names : Every IsSegment segments

name-IsSegment : (s : List ℕ) → IsName s → IsSegment s
unfolding part_kind
name-IsSegment s n = record {
  not_empty = λ e. absurd (cc (rw e at n.0));
  not_self = λ e. absurd (cc (rw e at n.0));
  not_parent = λ e. absurd (cc (rw e at n.0));
  no_separator = n.1;
}

joined_lem :
    (s : List ℕ) (segments : List (List ℕ)) → s ++ write_rest segments ≡ joined (s ∷ segments)
unfolding write_rest
joined_lem s [] = append-nil s
joined_lem s (t ∷ segments) = ap (λ r. s ++ (47 ∷ r)) (joined_lem t segments)

root_lem :
    (absolute : Bool) (out : List ℕ)
    → open_root absolute out ≡ (if absolute then 47 ∷ [] else []) ++ out
root_lem true out = refl
root_lem false out = refl

render-spelling :
    (absolute directory : Bool) (segments : List (List ℕ))
    → Every IsName segments
    → render absolute directory segments ≡ spelling absolute directory segments
unfolding render write_segments ends_with_separator
render-spelling true true [] e = refl
render-spelling true false [] e = refl
render-spelling false true [] e = refl
render-spelling false false [] e = refl
render-spelling absolute directory (s ∷ segments) e =
    render-written absolute directory s segments e.0 e.1
    ∙ root_lem absolute _
    ∙ ap (λ r. (if absolute then 47 ∷ [] else []) ++ (r ++ (if directory then 47 ∷ [] else [])))
        (joined_lem s segments)

names-IsSegment : (segments : List (List ℕ)) → Every IsName segments → Every IsSegment segments
names-IsSegment segments e = Every-map IsName IsSegment segments name-IsSegment e

-- A path that `render` wrote from names.
record IsRendered (path : List ℕ) : Type 0 where
  absolute : Bool
  directory : Bool
  segments : List (List ℕ)
  written : path ≡ render absolute directory segments
  names : Every IsName segments

rendered-IsCanonical : (path : List ℕ) → IsRendered path → IsCanonical path
rendered-IsCanonical path r = record {
  absolute = r.absolute;
  directory = r.directory;
  segments = r.segments;
  written = r.written ∙ render-spelling r.absolute r.directory r.segments r.names;
  names = names-IsSegment r.segments r.names;
}

collapse_separated-IsRendered :
    (flags : NormalizationFlags) (input : List ℕ) → IsRendered (collapse_separated flags input).0
unfolding collapse_separated render write_segments
collapse_separated-IsRendered flags [] = record {
  absolute = false;
  directory = false;
  segments = [];
  written = refl;
  names = tt;
}
collapse_separated-IsRendered flags (b ∷ rest) =
    let parts : List (List ℕ) = split (b ∷ rest) in
    record {
      absolute = b == 47;
      directory = trailing parts;
      segments = (visit_all (start_walk flags parts) parts).segments;
      written = refl;
      names = visit_all-IsName (start_walk flags parts) parts (split-Every (b ∷ rest)) tt;
    }

collapse_path-IsRendered :
    (input : List ℕ) (backslash : Bool) → IsRendered (collapse_path input backslash).0
unfolding collapse_path
collapse_path-IsRendered input true =
    collapse_separated-IsRendered (record no_flags { backslash = any is_backslash input })
      (map separator_of input)
collapse_path-IsRendered input false = collapse_separated-IsRendered no_flags input

collapse_separated-again :
    (flags : NormalizationFlags) (path : List ℕ)
    → IsRendered path
    → (collapse_separated flags path).0 ≡ path
collapse_separated-again flags path r =
    ap (λ p. (collapse_separated flags p).0) r.written
    ∙ collapse-render flags r.absolute r.directory r.segments r.names
    ∙ sym r.written

collapse_path_same :
    (input : List ℕ) (backslash : Bool)
    → (collapse_path (collapse_path input backslash).0 backslash).0
      ≡ (collapse_path input backslash).0
unfolding collapse_path
collapse_path_same input false =
    collapse_separated-again no_flags _ (collapse_path-IsRendered input false)
collapse_path_same input true =
    let first : NormalizationFlags = record no_flags { backslash = any is_backslash input } in
    let out : List ℕ = (collapse_separated first (map separator_of input)).0 in
    let second : NormalizationFlags = record no_flags { backslash = any is_backslash out } in
    let clean : HasNoBackslash out =
      collapse_separated-HasNoBackslash first (map separator_of input) (map-HasNoBackslash input) in
    ap (λ p. (collapse_separated second p).0) (map_nothing out clean)
    ∙ collapse_separated-again second out (collapse_path-IsRendered input true)

-- What `collapse_path` gives, whatever the bytes of the path and whether backslashes separate or not,
-- it gives back as it is: both in the same mode and where backslashes are bytes like any other.
pub collapse_path-again :
    (input : List ℕ) (backslash : Bool)
    → ((collapse_path (collapse_path input backslash).0 backslash).0
        ≡ (collapse_path input backslash).0)
      × ((collapse_path (collapse_path input backslash).0 false).0
          ≡ (collapse_path input backslash).0)
unfolding collapse_path
collapse_path-again input backslash = (
  collapse_path_same input backslash,
  collapse_separated-again no_flags _ (collapse_path-IsRendered input backslash),
)

-- Whatever the bytes of a path, and the other options, a path that is decoded and collapsed is spelled
-- from segments: a separator in front or none, the segments with one separator between each and the
-- next, and a separator behind the last or none. No segment is empty, `.` or `..`, or has a separator
-- in it.
pub normalize_path-IsCanonical :
    (input : List ℕ) (options : NormalizeOptions)
    → options.collapses_path ≡ true
    → IsCanonical (normalize_path input options).bytes
unfolding normalize_path
normalize_path-IsCanonical input options h = rw h (
    rendered-IsCanonical _ (
      collapse_path-IsRendered (percent_decode_repeatedly input options.decode_rounds).bytes
        options.backslash_is_separator))
