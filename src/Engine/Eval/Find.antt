-- ===== src/Engine/Eval/Find.antt =====
-- `match_content` of crates/engine/src/eval.rs against the places of its window.
use mathlib.Core.Option.{some-injective}
use cyber_sentinel_ids_ips.Prelude.{
  ℕ, ◌+◌, ◌-◌, ◌≤◌, ◌<◌, ◌≡◌, refl, sym, ap, ◌∙◌, Bool, true, false, ◌||◌, Option, none, some, List,
  [], ◌∷◌, length, take, drop, ltb, arith, Bool-cases, inl, inr, length-take, length-drop,
}
use cyber_sentinel_ids_ips.Rules.Options.{ContentMatch, is_blank}
use cyber_sentinel_ids_ips.Engine.Eval.{
  same_at, find_pattern, match_content, content_window, settle_content,
}
use cyber_sentinel_ids_ips.Engine.Eval.Position.{
  First, same_at-take, drop-take, drop-drop, position_of-First, position_of-none,
}
use cyber_sentinel_ids_ips.Engine.Eval.Window.{
  InWindow, content_window-bounds, in_content_window, content_window-InWindow,
}

-- The part of the haystack that is searched.
abbrev window : List ℕ → ℕ → ℕ → List ℕ
window haystack start end = take (end - start) (drop start haystack)

-- Whether the pattern stands at a place of the buffer.
abbrev pub occurs_at : ContentMatch → List ℕ → ℕ → Bool
occurs_at content haystack q = same_at content.nocase content.pattern (drop q haystack)

same_at-window :
    (nocase : Bool) (needle haystack : List ℕ) (start end p q : ℕ)
    → q ≡ start + p
    → q + length needle ≤ end
    → same_at nocase needle (drop p (window haystack start end))
      ≡ same_at nocase needle (drop q haystack)
same_at-window nocase needle haystack start end p q e h =
    ap (same_at nocase needle)
      (drop-take p (end - start) (end - start - p) (drop start haystack) refl)
    ∙ same_at-take nocase needle (drop p (drop start haystack)) (end - start - p) (omega arith)
    ∙ ap (same_at nocase needle) (drop-drop p start q haystack e)

length-window :
    (haystack : List ℕ) (start end : ℕ)
    → end ≤ length haystack
    → length (window haystack start end) ≡ end - start
length-window haystack start end h =
    omega (arith, length-take (end - start) (drop start haystack), length-drop start haystack)

-- What a search of a window finds, by places of the whole.
record Searched (content : ContentMatch) (haystack : List ℕ) (start end : ℕ) (o : Option ℕ)
    : Type 0 where
  hit :
      (p : ℕ)
      → o ≡ some p
      → (start + p + length content.pattern ≤ end)
        × (occurs_at content haystack (start + p) ≡ true)
        × ((q : ℕ) → start ≤ q → q < start + p → occurs_at content haystack q ≡ false)
  miss :
      o ≡ none
      → (q : ℕ) → start ≤ q
      → q + length content.pattern ≤ end
      → 1 ≤ length content.pattern
      → occurs_at content haystack q ≡ false

too_long :
    (pattern : List ℕ) (size : ℕ)
    → (is_blank pattern || ltb size (length pattern)) ≡ true
    → 1 ≤ length pattern
    → size < length pattern
too_long [] size h k = absurd (omega arith)
too_long (x ∷ pattern) size h k = ground arith

find_pattern-Searched :
    (content : ContentMatch) (haystack : List ℕ) (start end : ℕ)
    → start ≤ end
    → end ≤ length haystack
    → Searched content haystack start end
        (find_pattern (window haystack start end) content.pattern content.nocase)
unfolding find_pattern
find_pattern-Searched content haystack start end h k =
    let w : List ℕ = window haystack start end in
    let n : ℕ = length content.pattern in
    let size : length w ≡ end - start = length-window haystack start end k in
    elim (Bool-cases (is_blank content.pattern || ltb (length w) n)) [
      | inl nothing ↦ rw nothing record {
        hit = λ p e. absurd (cc e);
        miss = λ _ q from fits width.
            let long = too_long content.pattern (length w) nothing width in
            absurd (omega (arith, long, size, from, fits, width));
      }
      | inr search ↦ rw search record {
        hit = λ p e.
            let f : First content.nocase content.pattern w p =
              position_of-First content.nocase content.pattern w p e in
            (
              omega (arith, f.fits, size),
              sym (
                    same_at-window content.nocase content.pattern haystack start end p (start + p)
                      refl (omega (arith, f.fits, size)))
                  ∙ f.occurs,
              λ q from below.
                  sym (
                    same_at-window content.nocase content.pattern haystack start end (q - start) q
                      (omega (arith, from)) (omega (arith, f.fits, size, from, below)))
                  ∙ f.earliest (q - start) (omega (arith, from, below)),
            );
        miss = λ e q from fits width.
            sym (
              same_at-window content.nocase content.pattern haystack start end (q - start) q
                (omega (arith, from)) fits)
            ∙ position_of-none content.nocase content.pattern w (q - start) e
                (omega (arith, size, from, fits, width));
      }
    ]

settled_hit :
    (cursor start width : ℕ) (o : Option ℕ) (moved : ℕ)
    → settle_content false cursor start width o ≡ some moved
    → (p : ℕ) × (o ≡ some p) × (moved ≡ start + p + width)
settled_hit cursor start width none moved h = absurd (cc h)
settled_hit cursor start width (some p) moved h = (p, refl, sym (some-injective _ moved h))

settled_miss :
    (cursor start width : ℕ) (o : Option ℕ)
    → settle_content false cursor start width o ≡ none
    → o ≡ none
settled_miss cursor start width none h = refl
settled_miss cursor start width (some p) h = absurd (cc h)

settled_negated :
    (cursor start width : ℕ) (o : Option ℕ) (moved : ℕ)
    → settle_content true cursor start width o ≡ some moved
    → (o ≡ none) × (moved ≡ cursor)
settled_negated cursor start width none moved h = (refl, sym (some-injective cursor moved h))
settled_negated cursor start width (some p) moved h = absurd (cc h)

-- A content option against the places of its window.
pub record MatchesContent (content : ContentMatch) (haystack : List ℕ) (cursor : ℕ) : Type 0 where
  pub found :
      (moved : ℕ)
      → content.negated ≡ false
      → match_content content haystack cursor ≡ some moved
      → (place : ℕ) × (moved ≡ place + length content.pattern)
        × InWindow content (length haystack) cursor place
        × (occurs_at content haystack place ≡ true)
        × ((q : ℕ)
            → InWindow content (length haystack) cursor q
            → q < place
            → occurs_at content haystack q ≡ false)
  pub refused :
      content.negated ≡ false
      → match_content content haystack cursor ≡ none
      → 1 ≤ length content.pattern
      → (q : ℕ) → InWindow content (length haystack) cursor q
      → occurs_at content haystack q ≡ false
  pub avoided :
      (moved : ℕ)
      → content.negated ≡ true
      → match_content content haystack cursor ≡ some moved
      → (moved ≡ cursor)
        × (1 ≤ length content.pattern
            → (q : ℕ) → InWindow content (length haystack) cursor q
            → occurs_at content haystack q ≡ false)
  pub spoiled :
      content.negated ≡ true
      → match_content content haystack cursor ≡ none
      → (q : ℕ) × InWindow content (length haystack) cursor q
        × (occurs_at content haystack q ≡ true)

settled_spoiled :
    (cursor start width : ℕ) (o : Option ℕ)
    → settle_content true cursor start width o ≡ none
    → (p : ℕ) × (o ≡ some p)
settled_spoiled cursor start width none h = absurd (cc h)
settled_spoiled cursor start width (some p) h = (p, refl)

wide_of :
    (pattern w : List ℕ) (nocase : Bool) (p : ℕ)
    → find_pattern w pattern nocase ≡ some p
    → 1 ≤ length pattern
unfolding find_pattern
wide_of [] w nocase p h = absurd (cc h)
wide_of (x ∷ pattern) w nocase p h = omega arith

-- What a search finds has a pattern.
find_pattern-wide :
    (content : ContentMatch) (w : List ℕ) (p : ℕ)
    → find_pattern w content.pattern content.nocase ≡ some p
    → 1 ≤ length content.pattern
find_pattern-wide content w p h = wide_of content.pattern w content.nocase p h

-- Whatever the modifiers of a content option, the buffer and the cursor: a place is in its window where
-- the pattern lies in the buffer, behind the offset or, for a relative option, behind the distance from
-- the cursor, and ends within `within` of the cursor and `depth` of that start. Where the option is not
-- negated and holds, the cursor that it leaves is behind the first place of the window that has the
-- pattern; where it does not hold, no place of the window has it. Where it is negated and holds, no
-- place of the window has it and the cursor stays; where it does not hold, one has it.
pub match_content-MatchesContent :
    (content : ContentMatch) (haystack : List ℕ) (cursor : ℕ)
    → MatchesContent content haystack cursor
unfolding match_content
match_content-MatchesContent content haystack cursor =
    let start : ℕ = (content_window content (length haystack) cursor).0 in
    let end : ℕ = (content_window content (length haystack) cursor).1 in
    let bounds = content_window-bounds content (length haystack) cursor in
    let o : Option ℕ = find_pattern (window haystack start end) content.pattern content.nocase in
    let s : Searched content haystack start end o =
      find_pattern-Searched content haystack start end bounds.0 bounds.1 in
    let missed =
      λ (nothing : o ≡ none) (width : 1 ≤ length content.pattern) (q : ℕ)
          (w : InWindow content (length haystack) cursor q).
        let (from, to) = in_content_window content (length haystack) cursor q width w in
        s.miss nothing q from to width in
    let placed = λ (p : ℕ) (there : o ≡ some p).
      content_window-InWindow content (length haystack) cursor (start + p)
        (find_pattern-wide content (window haystack start end) p there) (omega arith)
        (s.hit p there).0 in
    record {
      found = λ moved plain h.
          let (p, there, at) =
            settled_hit cursor start (length content.pattern) o moved (rw plain at h) in
          let (fits, occurs, earliest) = s.hit p there in
          let width = find_pattern-wide content (window haystack start end) p there in
          (
            start + p,
            omega (arith, at),
            placed p there,
            occurs,
            λ q w below.
                earliest q (in_content_window content (length haystack) cursor q width w).0 below,
          );
      refused =
          λ plain h. missed (settled_miss cursor start (length content.pattern) o (rw plain at h));
      avoided = λ moved negated h.
          let (nothing, same) =
            settled_negated cursor start (length content.pattern) o moved (rw negated at h) in
          (same, missed nothing);
      spoiled = λ negated h.
          let (p, there) =
            settled_spoiled cursor start (length content.pattern) o (rw negated at h) in
          (start + p, placed p there, (s.hit p there).1);
    }
