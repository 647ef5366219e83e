-- ===== src/Engine/Eval/Window.antt =====
-- The window of a content option of crates/engine/src/eval.rs: by its modifiers, and as
-- `content_window` computes it.
use cyber_sentinel_ids_ips.Prelude.{
  ℕ, suc, ◌+◌, ◌-◌, ◌≤◌, ◌≡◌, Option, none, some, length, arith, Bool-cases, Option-cases, inl, inr,
  unwrap_or, if◌then◌else◌,
}
use cyber_sentinel_ids_ips.Common.Int.{ℤ, pos, negsuc, at_least_zero}
use cyber_sentinel_ids_ips.Common.Map.{present}
use cyber_sentinel_ids_ips.Rules.Options.{ContentMatch, is_relative}
use cyber_sentinel_ids_ips.Engine.Eval.{content_window, content_start, no_later, plus}

pub content_window-bounds :
    (content : ContentMatch) (length cursor : ℕ)
    → ((content_window content length cursor).0 ≤ (content_window content length cursor).1)
      × ((content_window content length cursor).1 ≤ length)
content_window-bounds content length cursor = (omega arith, omega arith)

-- Where the search of a content option starts: relative to the cursor, by the distance and not below
-- zero, or at the offset.
abbrev pub from_distance : Option ℤ → ℕ → ℕ
from_distance none cursor = cursor
from_distance (some (pos n)) cursor = cursor + n
from_distance (some (negsuc n)) cursor = cursor - suc n

abbrev pub search_from : ContentMatch → ℕ → ℕ
search_from content cursor =
    if is_relative content
    then from_distance content.distance cursor
    else unwrap_or content.offset 0

-- A span from a place, if there is one, reaches as far as `end`.
abbrev pub Reaches : Option ℕ → ℕ → ℕ → Type 0
Reaches none from end = Unit
Reaches (some span) from end = end ≤ from + span

-- A place where a content option looks for its pattern: the pattern lies in the buffer, behind the
-- start of the search, within `within` of the cursor and within `depth` of that start.
pub record InWindow (content : ContentMatch) (size cursor place : ℕ) : Type 0 where
  pub behind : search_from content cursor ≤ place
  pub inside : place + length content.pattern ≤ size
  pub within : Reaches content.within cursor (place + length content.pattern)
  pub depth : Reaches content.depth (search_from content cursor) (place + length content.pattern)

plus_distance : (z : ℤ) (cursor : ℕ) → at_least_zero (plus z cursor) ≡ from_distance (some z) cursor
plus_distance (pos n) cursor = omega arith
plus_distance (negsuc n) cursor = ground arith

content_start-search_from :
    (content : ContentMatch) (cursor : ℕ)
    → content_start content cursor ≡ search_from content cursor
content_start-search_from content cursor = elim (Option-cases content.distance) [
  | inl nothing ↦ rw nothing (elim (Bool-cases (present content.within)) [
    | inl k ↦ rw k (omega arith)
    | inr k ↦ rw k (omega arith)
  ])
  | inr (z, there) ↦ rw there (plus_distance z cursor)
]

-- An upper bound of a window by a bound and a span.
no_later_iff :
    (span : Option ℕ) (end from e : ℕ)
    → (e ≤ no_later end from span → (e ≤ end) × Reaches span from e)
      × (e ≤ end → Reaches span from e → e ≤ no_later end from span)
no_later_iff none end from e = (λ h. (h, tt), λ h k. h)
no_later_iff (some span) end from e = (λ h. (omega arith, omega arith), λ h k. omega arith)

-- `within` is measured from the cursor, since it makes an option relative.
within_base :
    (content : ContentMatch) (cursor e : ℕ)
    → (Reaches content.within (if is_relative content then cursor else 0) e
        → Reaches content.within cursor e)
      × (Reaches content.within cursor e
          → Reaches content.within (if is_relative content then cursor else 0) e)
within_base content cursor e = elim (Option-cases content.within) [
  | inl nothing ↦ rw nothing ((λ h. tt), (λ h. tt))
  | inr (span, there) ↦ elim (Bool-cases (present content.distance)) [
    | inl k ↦ rw (there, k) ((λ h. h), (λ h. h))
    | inr k ↦ rw (there, k) ((λ h. h), (λ h. h))
  ]
]

pub in_content_window :
    (content : ContentMatch) (size cursor place : ℕ)
    → 1 ≤ length content.pattern
    → InWindow content size cursor place
    → ((content_window content size cursor).0 ≤ place)
      × (place + length content.pattern ≤ (content_window content size cursor).1)
in_content_window content size cursor place width w =
    let base : ℕ = if is_relative content then cursor else 0 in
    let e : ℕ = place + length content.pattern in
    let start : content_start content cursor ≡ search_from content cursor =
      content_start-search_from content cursor in
    let first : e ≤ no_later size base content.within =
      (no_later_iff content.within size base e).1 w.inside
        ((within_base content cursor e).1 w.within) in
    let last : e
        ≤ no_later (no_later size base content.within) (content_start content cursor)
            content.depth =
      (no_later_iff content.depth (no_later size base content.within) (content_start content cursor)
          e).1
        first (rw start w.depth) in
    (omega (arith, start, w.behind), omega (arith, last, w.inside))

pub content_window-InWindow :
    (content : ContentMatch) (size cursor place : ℕ)
    → 1 ≤ length content.pattern
    → (content_window content size cursor).0 ≤ place
    → place + length content.pattern ≤ (content_window content size cursor).1
    → InWindow content size cursor place
content_window-InWindow content size cursor place width from to =
    let base : ℕ = if is_relative content then cursor else 0 in
    let e : ℕ = place + length content.pattern in
    let start : content_start content cursor ≡ search_from content cursor =
      content_start-search_from content cursor in
    let last : e
        ≤ no_later (no_later size base content.within) (content_start content cursor)
            content.depth =
      omega (arith, from, to, width) in
    let (first, deep) =
      (no_later_iff content.depth (no_later size base content.within) (content_start content cursor)
          e).0
        last in
    let (inside, near) = (no_later_iff content.within size base e).0 first in
    record {
      behind = omega (arith, start, from, to, width, inside);
      inside = inside;
      within = (within_base content cursor e).0 near;
      depth = rw start at deep;
    }
