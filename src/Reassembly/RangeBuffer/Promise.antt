-- ===== src/Reassembly/RangeBuffer/Promise.antt =====
-- What `RangeBuffer::write` promises its callers, in terms of the bytes held at each offset.
use mathlib.Core.Path.{subst}
use mathlib.Core.Option.{some-injective}
use cyber_sentinel_ids_ips.Prelude.{
  ℕ, ◌+◌, ◌-◌, ◌≤◌, ◌<◌, ◌≡◌, sym, ◌∙◌, min, max, true, false, Option, some, List, [], ◌∷◌, length,
  get_elem?, if◌then◌else◌, arith, count_from, count_from-eq_zero,
}
use cyber_sentinel_ids_ips.Reassembly.RangeBuffer.{
  OverlapPolicy, first, last, RangeBuffer, Range, WriteOutcome, u64_max, sat_add, replaced_by,
  write, sum_lengths, buffered_bytes, range_count,
}
use cyber_sentinel_ids_ips.Reassembly.RangeBuffer.Ranges.{within, covers, IsSorted}
use cyber_sentinel_ids_ips.Reassembly.RangeBuffer.Copy.{differ}
use cyber_sentinel_ids_ips.Reassembly.RangeBuffer.View.{
  byte_at, IsValid, byte_at-some, get_elem?-some,
}
use cyber_sentinel_ids_ips.Reassembly.RangeBuffer.WriteInto.{contradicts, merged_at}
use cyber_sentinel_ids_ips.Reassembly.RangeBuffer.Write.{
  Written, stored, amount, start_outcome, write-WritesAll,
}

-- What a write of `bytes` at `offset` leaves at offset `x`: its own byte inside the window, where
-- the range cap lets it in and the policy does not keep an older one; what was there elsewhere.
abbrev pub written_at : RangeBuffer → ℕ → List ℕ → OverlapPolicy → ℕ → Option ℕ
written_at b offset bytes policy x =
    let lo = max offset b.base in
    let hi = min (sat_add offset (length bytes)) (sat_add b.base b.byte_limit) in
    if stored b lo hi then merged_at b offset bytes policy lo hi x else byte_at b x

replaces_from_zero :
    (p : OverlapPolicy) (r c : ℕ) → r + replaced_by p 0 ≡ 0 + replaced_by p c → r ≡ replaced_by p c
replaces_from_zero first r c h = omega arith
replaces_from_zero last r c h = omega arith

module _ (b : RangeBuffer) (offset : ℕ) (bytes : List ℕ) (policy : OverlapPolicy) where
  -- The part of the write that is in the window, the bytes from there on, and the first counters.
  abbrev lo : ℕ
  lo = max offset b.base

  abbrev hi : ℕ
  hi = min (sat_add offset (length bytes)) (sat_add b.base b.byte_limit)

  abbrev kept : ℕ
  kept = length bytes - (b.base - offset)

  abbrev start : WriteOutcome
  start = start_outcome b offset bytes

  -- A write that gives a buffer, which is well formed, keeps its window and its caps, and holds at
  -- every offset the byte of `written_at`.
  pub record GoesIn : Type 0 where
    pub buffer : RangeBuffer
    pub outcome : WriteOutcome
    pub runs : write b offset bytes policy ≡ some (buffer, outcome)
    pub valid : IsValid buffer
    pub same_base : buffer.base ≡ b.base
    pub same_byte_limit : buffer.byte_limit ≡ b.byte_limit
    pub same_range_limit : buffer.range_limit ≡ b.range_limit
    pub view : (x : ℕ) → byte_at buffer x ≡ written_at b offset bytes policy x

  -- A write to a well-formed buffer, whose window starts below the last offset, never panics: it
  -- gives a well-formed buffer with the same window and caps that holds at every offset the byte of
  -- `written_at`: inside the window, where the range cap lets the write in, its own byte, unless the
  -- policy keeps one that was there; elsewhere what was there.
  pub write-GoesIn : IsValid b → b.base < u64_max → GoesIn
  write-GoesIn v h =
      let r = write-WritesAll b policy v offset bytes h in
      record {
        buffer = r.buffer;
        outcome = r.outcome;
        runs = r.runs;
        valid = r.written.valid;
        same_base = r.written.same_base;
        same_byte_limit = r.written.same_byte_limit;
        same_range_limit = r.written.same_range_limit;
        view = r.written.view;
      }

  -- A write that gave `b'` and `o` is the one of `write-WritesAll`.
  result-Written :
      (b' : RangeBuffer) (o : WriteOutcome)
      → IsValid b
      → b.base < u64_max
      → write b offset bytes policy ≡ some (b', o)
      → Written b offset bytes policy lo hi start b' o
        × (lo + kept ≤ u64_max → o.refused + amount (stored b lo hi) (hi - lo) ≡ kept)
  result-Written b' o v h e =
      let r = write-WritesAll b policy v offset bytes h in
      subst
        (λ (p : RangeBuffer × WriteOutcome).
          Written b offset bytes policy lo hi start p.0 p.1
          × (lo + kept ≤ u64_max → p.1.refused + amount (stored b lo hi) (hi - lo) ≡ kept))
        (some-injective _ _ (sym r.runs ∙ e)) (r.written, λ fit. omega (arith, r.refused fit))

  -- Each byte of a write that ends at or below the last offset is counted exactly once, as
  -- accepted, overlapped, refused or before the window, and those before the window are the ones
  -- below its start.
  pub write-counts :
      (b' : RangeBuffer) (o : WriteOutcome)
      → IsValid b
      → b.base < u64_max
      → offset + length bytes ≤ u64_max
      → write b offset bytes policy ≡ some (b', o)
      → (o.accepted + o.overlapped + o.refused + o.before_window ≡ length bytes)
        × (o.before_window ≡ min (length bytes) (b.base - offset))
  write-counts b' o v h k e =
      let (w, refused) = result-Written b' o v h e in
      (omega (arith, w.total, w.before_window, refused (omega arith)), w.before_window)

  -- A write counts as conflicting exactly the offsets that it reaches, if the range cap lets it in,
  -- at which the held byte differs from its own, and as replaced all of these under the last policy
  -- and none under the first.
  pub write-conflicts :
      (b' : RangeBuffer) (o : WriteOutcome)
      → IsValid b
      → b.base < u64_max
      → write b offset bytes policy ≡ some (b', o)
      → (o.conflicting
          ≡ amount (stored b lo hi) (count_from (contradicts b offset bytes) lo (hi - lo)))
        × (o.replaced ≡ replaced_by policy o.conflicting)
  write-conflicts b' o v h e =
      let (w, refused) = result-Written b' o v h e in
      (w.conflicts ∙ omega arith, replaces_from_zero policy o.replaced o.conflicting w.replaces)

-- Two bytes that are there and do not differ are the same.
not_differ : (a b : ℕ) (x y : Option ℕ) → x ≡ some a → y ≡ some b → differ x y ≡ false → x ≡ y
not_differ a b x y p q h = ground arith

module _ (b : RangeBuffer) (offset : ℕ) (bytes : List ℕ) (v : IsValid b)
    (h : b.base < u64_max) where
  agree_at :
      (x : ℕ)
      → count_from
          (contradicts b offset bytes)
          (max offset b.base)
          (min (sat_add offset (length bytes)) (sat_add b.base b.byte_limit) - max offset b.base)
        ≡ 0
      → covers b.covered x ≡ true
      → within
          (max offset b.base)
          (min (sat_add offset (length bytes)) (sat_add b.base b.byte_limit))
          x
        ≡ true
      → byte_at b x ≡ get_elem? bytes (x - offset)
  agree_at x none_differ held inside =
      let (y, p) = byte_at-some b x v held in
      let (z, q) = get_elem?-some bytes (x - offset) (ground arith) in
      not_differ y z (byte_at b x) (get_elem? bytes (x - offset)) p q (
        count_from-eq_zero (contradicts b offset bytes) (max offset b.base) _ x none_differ
          (ground arith) (ground arith))

  -- Where a write counts no conflicting byte under the first policy, the two policies hold the same
  -- bytes after it: a policy matters only where a conflict is counted.
  pub policies_agree :
      (b₁ b₂ : RangeBuffer) (o₁ o₂ : WriteOutcome)
      → write b offset bytes first ≡ some (b₁, o₁)
      → write b offset bytes last ≡ some (b₂, o₂)
      → o₁.conflicting ≡ 0
      → (x : ℕ) → byte_at b₁ x ≡ byte_at b₂ x
  policies_agree b₁ b₂ o₁ o₂ e₁ e₂ z x =
      let (w₁, _) = result-Written b offset bytes first b₁ o₁ v h e₁ in
      let (w₂, _) = result-Written b offset bytes last b₂ o₂ v h e₂ in
      ground (arith, w₁.view x, w₂.view x, w₁.conflicts, agree_at x)

sum_lengths-le : (rs : List Range) (lo hi : ℕ) → IsSorted lo hi rs → sum_lengths rs ≤ hi - lo
unfolding sum_lengths
sum_lengths-le [] lo hi s = omega arith
sum_lengths-le (r ∷ rs) lo hi s = omega (arith, sum_lengths-le rs (r.end + 1) hi s.3)

-- A well-formed buffer holds no more bytes than its byte cap and no more
-- ranges than its range cap.
pub caps_hold :
    (b : RangeBuffer)
    → IsValid b
    → (buffered_bytes b ≤ b.byte_limit) × (range_count b ≤ b.range_limit)
unfolding buffered_bytes range_count
caps_hold b v = (
  omega (arith, v, sum_lengths-le b.covered b.base (b.base + length b.content) v.sorted),
  v.ranges_capped,
)
