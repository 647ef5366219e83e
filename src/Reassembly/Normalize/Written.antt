-- ===== src/Reassembly/Normalize/Written.antt =====
-- Names written as a path by crates/reassembly/src/normalize.rs, and split again.
use cyber_sentinel_ids_ips.Prelude.{
  ℕ, ◌≡◌, refl, sym, ap, ap₂, ◌∙◌, Bool, true, false, List, [], ◌∷◌, ◌++◌, ◌==◌, if◌then◌else◌,
  arith, Option-cases, inl, inr, Every, append_assoc, append-nil,
}
use cyber_sentinel_ids_ips.Reassembly.Normalize.{NormalizationFlags}
use cyber_sentinel_ids_ips.Reassembly.Normalize.Collapse.{
  PartKind, empty_part, self_part, parent_part, name_part, part_kind, split, pop, Walk, visit_kind,
  visit, visit_all, trailing, write_rest, write_segments, ends_with_separator, open_root, render,
  collapse_separated, start_walk,
}
use cyber_sentinel_ids_ips.Reassembly.Normalize.Names.{HasNoSeparator, IsName}

-- Names written with separators between them, and one behind them where they name a directory.
abbrev pub behind : Bool → List ℕ
behind directory = if directory then 47 ∷ [] else []

abbrev part_behind : Bool → List (List ℕ)
part_behind directory = if directory then [] ∷ [] else []

split-separator : (s rest : List ℕ) → HasNoSeparator s → split (s ++ (47 ∷ rest)) ≡ s ∷ split rest
unfolding split
split-separator [] rest h = refl
split-separator (b ∷ s) rest h = ground (arith, split-separator s rest)

split-one : (s : List ℕ) → HasNoSeparator s → split s ≡ s ∷ []
unfolding split
split-one [] h = refl
split-one (b ∷ s) h = ground (arith, split-one s)

split-written :
    (directory : Bool) (s : List ℕ) (segments : List (List ℕ))
    → HasNoSeparator s
    → Every IsName segments
    → split ((s ++ write_rest segments) ++ behind directory)
      ≡ s ∷ (segments ++ part_behind directory)
unfolding write_rest split
split-written false s [] h e = ap split (append-nil (s ++ []) ∙ append-nil s) ∙ split-one s h
split-written true s [] h e =
    ap (λ r. split (r ++ (47 ∷ []))) (append-nil s) ∙ split-separator s [] h
split-written directory s (t ∷ segments) h e =
    ap split (append_assoc s (47 ∷ t ++ write_rest segments) (behind directory))
    ∙ split-separator s ((t ++ write_rest segments) ++ behind directory) h
    ∙ ap (λ r. s ∷ r) (split-written directory t segments e.0.1 e.1)

trailing-written :
    (directory : Bool) (s : List ℕ) (segments : List (List ℕ))
    → IsName s
    → Every IsName segments
    → trailing (s ∷ (segments ++ part_behind directory)) ≡ directory
unfolding trailing
trailing-written false s [] n e = rw n.0 refl
trailing-written true s [] n e = refl
trailing-written directory s (t ∷ segments) n e = trailing-written directory t segments e.0 e.1

visit_all-written :
    (w : Walk) (directory : Bool) (segments : List (List ℕ))
    → Every IsName segments
    → (visit_all w (segments ++ part_behind directory)).segments ≡ w.segments ++ segments
unfolding visit_all visit part_kind
visit_all-written w false [] e = sym (append-nil w.segments)
visit_all-written w true [] e = sym (append-nil w.segments)
visit_all-written w directory (s ∷ segments) e =
    let next : Walk = record w { segments = w.segments ++ (s ∷ []) } in
    ap (λ k. (visit_all (visit_kind w s k) (segments ++ part_behind directory)).segments) e.0.0
    ∙ visit_all-written next directory segments e.1
    ∙ append_assoc w.segments (s ∷ []) segments

ends_with_separator-append :
    (xs : List ℕ) (y : ℕ) (ys : List ℕ)
    → ends_with_separator (xs ++ (y ∷ ys)) ≡ ends_with_separator (y ∷ ys)
unfolding ends_with_separator
ends_with_separator-append [] y ys = refl
ends_with_separator-append (x ∷ []) y ys = refl
ends_with_separator-append (x ∷ z ∷ xs) y ys = ends_with_separator-append (z ∷ xs) y ys

ends_with_separator-name : (s : List ℕ) → HasNoSeparator s → ends_with_separator s ≡ false
unfolding ends_with_separator
ends_with_separator-name [] h = refl
ends_with_separator-name (b ∷ []) h = ground arith
ends_with_separator-name (b ∷ c ∷ s) h = ends_with_separator-name (c ∷ s) (ground arith)

empty-IsName : ¬ IsName []
unfolding part_kind
empty-IsName n = cc n.0

ends_with_separator-written :
    (s : List ℕ) (segments : List (List ℕ))
    → IsName s
    → Every IsName segments
    → ends_with_separator (s ++ write_rest segments) ≡ false
unfolding write_rest ends_with_separator
ends_with_separator-written s [] n e =
    ap ends_with_separator (append-nil s) ∙ ends_with_separator-name s n.1
ends_with_separator-written s ([] ∷ segments) n e = absurd (empty-IsName e.0)
ends_with_separator-written s ((c ∷ t) ∷ segments) n e =
    ends_with_separator-append s 47 (c ∷ t ++ write_rest segments)
    ∙ ends_with_separator-written (c ∷ t) segments e.0 e.1

-- What a directory that is not the root is written as.
pub render-written :
    (absolute directory : Bool) (s : List ℕ) (segments : List (List ℕ))
    → IsName s
    → Every IsName segments
    → render absolute directory (s ∷ segments)
      ≡ open_root absolute ((s ++ write_rest segments) ++ behind directory)
unfolding render write_segments ends_with_separator
render-written absolute directory [] segments n e = absurd (empty-IsName n)
render-written false false (b ∷ s) segments n e = sym (append-nil ((b ∷ s) ++ write_rest segments))
render-written true false (b ∷ s) segments n e =
    ap (λ r. 47 ∷ r) (sym (append-nil ((b ∷ s) ++ write_rest segments)))
render-written false true (b ∷ s) segments n e =
    rw (ends_with_separator-written (b ∷ s) segments n e) refl
render-written true true (b ∷ s) segments n e =
    rw (ends_with_separator-written (b ∷ s) segments n e) refl

-- What the parts of a path are written as.
shown : NormalizationFlags → Bool → List (List ℕ) → List ℕ
shown flags absolute parts =
    render absolute (trailing parts) (visit_all (start_walk flags parts) parts).segments

collapse-shown :
    (flags : NormalizationFlags) (b : ℕ) (rest : List ℕ)
    → (collapse_separated flags (b ∷ rest)).0 ≡ shown flags (b == 47) (split (b ∷ rest))
unfolding collapse_separated shown
collapse-shown flags b rest = refl

shown-names :
    (flags : NormalizationFlags) (absolute directory : Bool) (s : List ℕ) (segments : List (List ℕ))
    → IsName s
    → Every IsName segments
    → shown flags absolute (s ∷ (segments ++ part_behind directory))
      ≡ render absolute directory (s ∷ segments)
unfolding shown
shown-names flags absolute directory s segments n e =
    let parts : List (List ℕ) = s ∷ (segments ++ part_behind directory) in
    ap₂ (render absolute) (trailing-written directory s segments n e)
      (visit_all-written (start_walk flags parts) directory (s ∷ segments) (n, e))

visit_kind-segments :
    (v w : Walk) (part : List ℕ) (kind : PartKind)
    → v.segments ≡ w.segments
    → (visit_kind v part kind).segments ≡ (visit_kind w part kind).segments
visit_kind-segments v w part empty_part e = e
visit_kind-segments v w part self_part e = e
visit_kind-segments v w part parent_part e = elim (Option-cases (pop w.segments)) [
  | inl nothing ↦ rw (e, nothing) refl
  | inr (kept, popped) ↦ rw (e, popped) refl
]
visit_kind-segments v w part name_part e = ap (λ s. s ++ (part ∷ [])) e

visit_all-segments :
    (v w : Walk) (parts : List (List ℕ))
    → v.segments ≡ w.segments
    → (visit_all v parts).segments ≡ (visit_all w parts).segments
unfolding visit_all visit
visit_all-segments v w [] e = e
visit_all-segments v w (part ∷ parts) e =
    visit_all-segments (visit v part) (visit w part) parts
      (visit_kind-segments v w part (part_kind part) e)

shown-root :
    (flags : NormalizationFlags) (absolute : Bool) (part : List ℕ) (parts : List (List ℕ))
    → shown flags absolute ([] ∷ part ∷ parts) ≡ shown flags absolute (part ∷ parts)
unfolding shown trailing visit_all visit part_kind
shown-root flags absolute part parts = ap (render absolute (trailing (part ∷ parts))) (
    visit_all-segments (start_walk flags ([] ∷ part ∷ parts)) (start_walk flags (part ∷ parts))
      (part ∷ parts) refl)

collapse_written :
    (flags : NormalizationFlags) (absolute directory : Bool) (s : List ℕ) (segments : List (List ℕ))
    → IsName s
    → Every IsName segments
    → (collapse_separated flags
        (open_root absolute ((s ++ write_rest segments) ++ behind directory))).0
      ≡ render absolute directory (s ∷ segments)
unfolding split render
collapse_written flags absolute directory [] segments n e = absurd (empty-IsName n)
collapse_written flags true directory (b ∷ s) segments n e =
    let input : List ℕ = ((b ∷ s) ++ write_rest segments) ++ behind directory in
    collapse-shown flags 47 input
    ∙ ap (λ parts. shown flags true ([] ∷ parts)) (split-written directory (b ∷ s) segments n.1 e)
    ∙ shown-root flags true (b ∷ s) (segments ++ part_behind directory)
    ∙ shown-names flags true directory (b ∷ s) segments n e
collapse_written flags false directory (b ∷ s) segments n e =
    let rest : List ℕ = (s ++ write_rest segments) ++ behind directory in
    let relative : (b == 47) ≡ false = ground (arith, n.1) in
    collapse-shown flags b rest
    ∙ ap₂ (shown flags) relative (split-written directory (b ∷ s) segments n.1 e)
    ∙ shown-names flags false directory (b ∷ s) segments n e

collapse_root :
    (flags : NormalizationFlags) (absolute directory : Bool)
    → (collapse_separated flags (render absolute directory [])).0 ≡ render absolute directory []
unfolding collapse_separated split visit_all visit trailing render write_segments
    ends_with_separator part_kind
collapse_root flags false false = refl
collapse_root flags false true = refl
collapse_root flags true false = refl
collapse_root flags true true = refl

pub collapse-render :
    (flags : NormalizationFlags) (absolute directory : Bool) (segments : List (List ℕ))
    → Every IsName segments
    → (collapse_separated flags (render absolute directory segments)).0
      ≡ render absolute directory segments
collapse-render flags absolute directory [] e = collapse_root flags absolute directory
collapse-render flags absolute directory (s ∷ segments) e =
    ap (λ out. (collapse_separated flags out).0)
      (render-written absolute directory s segments e.0 e.1)
    ∙ collapse_written flags absolute directory s segments e.0 e.1
