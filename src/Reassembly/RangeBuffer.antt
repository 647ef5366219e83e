-- ===== src/Reassembly/RangeBuffer.antt =====
-- crates/reassembly/src/range_buffer.rs: a bounded byte buffer addressed by absolute offset.
-- Offsets and counts are natural numbers; where the source saturates at `u64::MAX`, `sat_add`
-- does. A slice index out of range, on which the source panics, is `none`.
pub mod Ranges
pub mod Copy
pub mod Stepped
pub mod Loop
pub mod View
pub mod WriteInto
pub mod Write
pub mod Promise
pub mod Drain
mod Tests
pub use cyber_sentinel_ids_ips.Common.Config.{OverlapPolicy, first, last}
use cyber_sentinel_ids_ips.Prelude.{
  ℕ, ◌+◌, ◌-◌, ◌^◌, min, max, Bool, true, false, ◌&&◌, not, Option, none, some, List, [], ◌∷◌, ◌++◌,
  length, take, drop, replicate, any, ltb, leb, ◌==◌, if◌then◌else◌, ◌>>=◌,
}

pub record Range : Type 0 where
  pub start : ℕ
  pub end : ℕ

pub record WriteOutcome : Type 0 where
  pub accepted : ℕ
  pub overlapped : ℕ
  pub conflicting : ℕ
  pub replaced : ℕ
  pub refused : ℕ
  pub before_window : ℕ

abbrev pub default_outcome : WriteOutcome
default_outcome = record {
  accepted = 0;
  overlapped = 0;
  conflicting = 0;
  replaced = 0;
  refused = 0;
  before_window = 0;
}

pub lost_data : WriteOutcome → Bool
lost_data o = ltb 0 o.refused

-- `content` is the source's `data`.
pub record RangeBuffer : Type 0 where
  pub base : ℕ
  pub content : List ℕ
  pub covered : List Range
  pub byte_limit : ℕ
  pub range_limit : ℕ

abbrev pub u64_max : ℕ
u64_max = 2 ^ 64 - 1

-- `u64::saturating_add`.
abbrev pub sat_add : ℕ → ℕ → ℕ
sat_add a b = min (a + b) u64_max

unfoldable pub new : ℕ → ℕ → ℕ → RangeBuffer
new base byte_limit range_limit = record {
  base = base;
  content = [];
  covered = [];
  byte_limit = max byte_limit 1;
  range_limit = max range_limit 1;
}

pub sum_lengths : List Range → ℕ
sum_lengths [] = 0
sum_lengths (r ∷ rs) = (r.end - r.start) + sum_lengths rs

pub buffered_bytes : RangeBuffer → ℕ
buffered_bytes b = sum_lengths b.covered

pub range_count : RangeBuffer → ℕ
range_count b = length b.covered

pub is_empty : RangeBuffer → Bool
is_empty b = length b.covered == 0

pub first_end : ℕ → List Range → ℕ
first_end base [] = base
first_end base (r ∷ rs) = if r.start == base then r.end else base

pub contiguous_end : RangeBuffer → ℕ
unfolding first_end
contiguous_end b = first_end b.base b.covered

pub last_end : ℕ → List Range → ℕ
last_end d [] = d
last_end d (r ∷ rs) = last_end r.end rs

pub covered_end : RangeBuffer → ℕ
unfolding last_end
covered_end b = last_end b.base b.covered

-- `&items[from..to]`, which panics out of range.
pub slice : List ℕ → ℕ → ℕ → Option (List ℕ)
slice items from to =
    if leb from to && leb to (length items) then some (take (to - from) (drop from items)) else none

-- `Vec::resize(n, 0)` where it grows.
pub grow : List ℕ → ℕ → List ℕ
grow items n = items ++ replicate (n - length items) 0

-- `copy_from_slice` panics where the lengths differ; by `slice` both are `to - from`.
pub copy_in : ℕ → ℕ → ℕ → ℕ → List ℕ → List ℕ → Option (List ℕ)
unfolding slice
copy_in base from to write_offset bytes content = do
  source ← slice bytes (from - write_offset) (to - write_offset)
  target ← slice content (from - base) (to - base)
  some (take (from - base) content ++ (source ++ drop (to - base) content))

count_ne : List ℕ → List ℕ → ℕ
count_ne [] ys = 0
count_ne (x ∷ xs) [] = 0
count_ne (x ∷ xs) (y ∷ ys) = (if x == y then 0 else 1) + count_ne xs ys

pub count_differing : ℕ → ℕ → ℕ → ℕ → List ℕ → List ℕ → Option ℕ
unfolding slice count_ne
count_differing base from to write_offset bytes content = do
  incoming ← slice bytes (from - write_offset) (to - write_offset)
  existing ← slice content (from - base) (to - base)
  some (count_ne existing incoming)

touches : ℕ → ℕ → Range → Bool
touches start end r = leb start r.end && leb r.start end

pub touches_existing : List Range → ℕ → ℕ → Bool
unfolding touches
touches_existing covered start end = any (touches start end) covered

-- The loop of `mark_covered`; what it pushes to `out` before the rest is what stands in front.
pub mark_loop : List Range → Range → Bool → List Range
mark_loop [] merged inserted = if inserted then [] else merged ∷ []
mark_loop (r ∷ rs) merged inserted =
    let rest = mark_loop rs merged inserted in
    let after = mark_loop rs merged true in
    let absorbed =
      mark_loop rs (record { start = min merged.start r.start; end = max merged.end r.end })
        inserted in
    if ltb r.end merged.start
    then r ∷ rest
    else if ltb merged.end r.start
    then (if inserted then r ∷ after else merged ∷ r ∷ after)
    else absorbed

pub mark_covered : List Range → ℕ → ℕ → List Range
mark_covered covered start end = mark_loop covered (record { start = start; end = end }) false

-- What the loop of `write` changes: its `cursor`, `self.data` and `outcome`.
pub record Walk : Type 0 where
  pub cursor : ℕ
  pub content : List ℕ
  pub outcome : WriteOutcome

-- What an overlap adds to `outcome.replaced`.
abbrev pub replaced_by : OverlapPolicy → ℕ → ℕ
replaced_by first differing = 0
replaced_by last differing = differing

-- The loop's constants: `self.base`, the trimmed `offset`, `end` and `bytes`, and `policy`.
module _ (base offset end : ℕ) (bytes : List ℕ) (policy : OverlapPolicy) where
  -- The uncovered gap before `existing`.
  pub fill_gap : Range → Walk → Option Walk
  fill_gap existing w =
      let gap_end = min existing.start end in
      if ltb w.cursor existing.start
      then (do
        content ← copy_in base w.cursor gap_end offset bytes w.content
        some (record {
          cursor = gap_end;
          content = content;
          outcome = record (w.outcome) { accepted = w.outcome.accepted + (gap_end - w.cursor) };
        }))
      else some w

  replace : OverlapPolicy → ℕ → ℕ → List ℕ → Option (List ℕ)
  replace first from to content = some content
  replace last from to content = copy_in base from to offset bytes content

  -- The stretch that `existing` covers.
  pub overlap : Range → Walk → Option Walk
  unfolding replace
  overlap existing w =
      let overlap_end = min existing.end end in
      if ltb w.cursor overlap_end
      then (do
        differing ← count_differing base w.cursor overlap_end offset bytes w.content
        content ← replace policy w.cursor overlap_end w.content
        some (record {
          cursor = overlap_end;
          content = content;
          outcome = record (w.outcome) {
            overlapped = w.outcome.overlapped + (overlap_end - w.cursor);
            conflicting = w.outcome.conflicting + differing;
            replaced = w.outcome.replaced + replaced_by policy differing;
          };
        }))
      else some w

  pub walk : List Range → Walk → Option Walk
  walk [] w = some w
  walk (existing ∷ rest) w =
      let skipped = walk rest w in
      let walked = (do w' ← fill_gap existing w; w'' ← overlap existing w'; walk rest w'') in
      if leb existing.end w.cursor
      then skipped
      else if leb end existing.start
      then some w
      else walked

  -- What is left after the loop.
  pub fill_rest : Walk → Option Walk
  fill_rest w =
      if ltb w.cursor end
      then (do
        content ← copy_in base w.cursor end offset bytes w.content
        some (record {
          cursor = end;
          content = content;
          outcome = record (w.outcome) { accepted = w.outcome.accepted + (end - w.cursor) };
        }))
      else some w

-- `write` from the growth of `self.data` on.
pub write_into :
    RangeBuffer → ℕ → List ℕ → OverlapPolicy → WriteOutcome → Option (RangeBuffer × WriteOutcome)
write_into b offset bytes policy outcome =
    let end = sat_add offset (length bytes) in
    do
      walked ←
          walk b.base offset end bytes policy b.covered
            (record { cursor = offset; content = grow b.content (end - b.base); outcome = outcome })
      w ← fill_rest b.base offset end bytes policy walked
      some
          (record b { content = w.content; covered = mark_covered b.covered offset end }, w.outcome)

-- `write` from the second test for emptiness on: the range cap.
pub write_kept :
    RangeBuffer → ℕ → List ℕ → OverlapPolicy → WriteOutcome → Option (RangeBuffer × WriteOutcome)
write_kept b offset [] policy outcome = some (b, outcome)
write_kept b offset (x ∷ xs) policy outcome =
    if leb b.range_limit (length b.covered)
      && not (touches_existing b.covered offset (sat_add offset (length (x ∷ xs))))
    then some (b, record outcome { refused = outcome.refused + length (x ∷ xs) })
    else write_into b offset (x ∷ xs) policy outcome

-- `write` after the trim of the consumed prefix: the byte cap.
pub write_from :
    RangeBuffer → ℕ → List ℕ → OverlapPolicy → WriteOutcome → Option (RangeBuffer × WriteOutcome)
write_from b offset bytes policy outcome =
    let window_end = sat_add b.base b.byte_limit in
    let keep = window_end - offset in
    if leb window_end offset
    then some (b, record outcome { refused = length bytes })
    else if ltb window_end (sat_add offset (length bytes))
    then (do
      kept ← slice bytes 0 keep
      write_kept b offset kept policy (record outcome { refused = length bytes - keep }))
    else write_kept b offset bytes policy outcome

pub write : RangeBuffer → ℕ → List ℕ → OverlapPolicy → Option (RangeBuffer × WriteOutcome)
write b offset [] policy = some (b, default_outcome)
write b offset (x ∷ xs) policy =
    let bytes = x ∷ xs in
    let skip = b.base - offset in
    if leb (sat_add offset (length bytes)) b.base
    then some (b, record default_outcome { before_window = length bytes })
    else if ltb offset b.base
    then (do
      rest ← slice bytes skip (length bytes)
      write_from b b.base rest policy (record default_outcome { before_window = skip }))
    else write_from b offset bytes policy default_outcome

-- `retain_mut` of `consume`: clamp each range to the window, and keep what reaches past its start.
pub retain_after : ℕ → List Range → List Range
retain_after base [] = []
retain_after base (r ∷ rs) =
    let rest = retain_after base rs in
    if ltb base r.end then record r { start = max r.start base } ∷ rest else rest

pub consume : RangeBuffer → ℕ → Option RangeBuffer
consume b count =
    if leb count (length b.content)
    then some (record b {
      base = b.base + count;
      content = drop count b.content;
      covered = retain_after (b.base + count) b.covered;
    })
    else none

-- The new buffer, `out` and the count that is returned.
pub drain_contiguous_upto : RangeBuffer → ℕ → List ℕ → Option (RangeBuffer × List ℕ × ℕ)
drain_contiguous_upto b limit out =
    let end = min (contiguous_end b) limit in
    let count = end - b.base in
    if leb end b.base
    then some (b, out, 0)
    else (do moved ← slice b.content 0 count; b' ← consume b count; some (b', out ++ moved, count))

pub drain_contiguous : RangeBuffer → List ℕ → Option (RangeBuffer × List ℕ × ℕ)
drain_contiguous b out = drain_contiguous_upto b u64_max out

pub reset : RangeBuffer → ℕ → RangeBuffer
reset b base = record b { base = base; content = []; covered = [] }

pub peek_contiguous : RangeBuffer → Option (List ℕ)
peek_contiguous b = slice b.content 0 (min (contiguous_end b - b.base) (length b.content))
