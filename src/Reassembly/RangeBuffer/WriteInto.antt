-- ===== src/Reassembly/RangeBuffer/WriteInto.antt =====
-- `RangeBuffer::write` from the growth of the buffer on: the loop, the tail and the merge of the
-- covered ranges.
use cyber_sentinel_ids_ips.Prelude.{
  ℕ, ◌+◌, ◌-◌, ◌≤◌, ◌<◌, ◌≡◌, refl, ap, ◌∙◌, max, Bool, false, ◌&&◌, ◌||◌, not, Option, some, List,
  length, get_elem?, leb, if◌then◌else◌, arith, Bool-cases, inl, inr, >>=-chain, count_from,
  count_from-ext,
}
use cyber_sentinel_ids_ips.Reassembly.RangeBuffer.{
  OverlapPolicy, RangeBuffer, Walk, WriteOutcome, sat_add, grow, walk, fill_rest, write_into,
  replaced_by, touches_existing, mark_covered,
}
use cyber_sentinel_ids_ips.Reassembly.RangeBuffer.Ranges.{
  within, covers, IsSorted, IsSorted-mono, covers-mark_covered, mark_covered-IsSorted,
  length-mark_covered,
}
use cyber_sentinel_ids_ips.Reassembly.RangeBuffer.Copy.{differ}
use cyber_sentinel_ids_ips.Reassembly.RangeBuffer.Stepped.{keeps, clashes, Stepped, InRange}
use cyber_sentinel_ids_ips.Reassembly.RangeBuffer.Loop.{walk-Reaches}
use cyber_sentinel_ids_ips.Reassembly.RangeBuffer.View.{
  byte_at, IsValid, covered_bounds, length-grow, get_elem?-grow,
}

-- Whether the held and the written byte for offset `x` disagree, for a write at `offset`.
abbrev pub contradicts : RangeBuffer → ℕ → List ℕ → ℕ → Bool
contradicts b offset bytes x = differ (byte_at b x) (get_elem? bytes (x - offset))

-- What `b` holds for `x` after the bytes of `[lo, hi)` of a write at `offset` are merged by `policy`.
abbrev pub merged_at : RangeBuffer → ℕ → List ℕ → OverlapPolicy → ℕ → ℕ → ℕ → Option ℕ
merged_at b offset bytes policy lo hi x =
    if within lo hi x && not (keeps policy && covers b.covered x)
    then get_elem? bytes (x - offset)
    else byte_at b x

-- The state and the counters after the bytes of `[lo, hi)` of a write at `offset` went in.
pub record Wrote (b : RangeBuffer) (offset : ℕ) (bytes : List ℕ) (policy : OverlapPolicy)
    (lo hi : ℕ) (o : WriteOutcome) (b' : RangeBuffer) (o' : WriteOutcome) : Type 0 where
  pub valid : IsValid b'
  pub same_base : b'.base ≡ b.base
  pub same_byte_limit : b'.byte_limit ≡ b.byte_limit
  pub same_range_limit : b'.range_limit ≡ b.range_limit
  pub view : (x : ℕ) → byte_at b' x ≡ merged_at b offset bytes policy lo hi x
  pub covers_lem : (x : ℕ) → covers b'.covered x ≡ (within lo hi x || covers b.covered x)
  pub total : o'.accepted + o'.overlapped + lo ≡ o.accepted + o.overlapped + hi
  pub conflicts :
      o'.conflicting ≡ o.conflicting + count_from (contradicts b offset bytes) lo (hi - lo)
  pub replaces :
      o'.replaced + replaced_by policy o.conflicting
      ≡ o.replaced + replaced_by policy o'.conflicting
  pub refused : o'.refused ≡ o.refused
  pub before_window : o'.before_window ≡ o.before_window

-- Where `write_into` is called.
pub record CanWrite (b : RangeBuffer) (offset : ℕ) (bytes : List ℕ) : Type 0 where
  pub valid : IsValid b
  pub from_base : b.base ≤ offset
  pub not_empty : offset < sat_add offset (length bytes)
  pub fits : sat_add offset (length bytes) ≤ sat_add b.base b.byte_limit
  pub room :
      (leb b.range_limit (length b.covered)
        && not (touches_existing b.covered offset (sat_add offset (length bytes))))
      ≡ false

module _ (b : RangeBuffer) (offset : ℕ) (bytes : List ℕ) (policy : OverlapPolicy) (o : WriteOutcome)
    (c : CanWrite b offset bytes) where
  abbrev stop : ℕ
  stop = sat_add offset (length bytes)

  abbrev start : Walk
  start = record { cursor = offset; content = grow b.content (stop - b.base); outcome = o }

  start-InRange : InRange b.base offset stop bytes policy start
  start-InRange = record {
    window = c.from_base;
    here = omega arith;
    within_write = omega (arith, c.not_empty);
    source = omega arith;
    target = omega (arith, length-grow b.content (stop - b.base));
  }

  abbrev after : Walk → RangeBuffer
  after w = record b { content = w.content; covered = mark_covered b.covered offset stop }

  module _ (w : Walk)
      (s : Stepped b.base offset stop bytes policy b.covered offset stop start w) where
    size-after : length w.content ≡ max (length b.content) (stop - b.base)
    size-after = s.size ∙ length-grow b.content (stop - b.base)

    wider : IsSorted b.base (b.base + length w.content) b.covered
    wider =
        IsSorted-mono b.covered b.base b.base (b.base + length b.content)
          (b.base + length w.content) (omega arith) (omega (arith, size-after)) c.valid.sorted

    after-IsValid : IsValid (after w)
    after-IsValid = record {
      sorted =
          mark_covered-IsSorted b.covered b.base (b.base + length w.content) offset stop wider
            c.from_base c.not_empty (omega (arith, size-after));
      bytes_capped = omega (arith, size-after, c.fits, c.valid);
      ranges_capped = ground (
        arith,
        c.room,
        c.valid.ranges_capped,
        length-mark_covered b.covered b.base (b.base + length w.content) offset stop wider,
      );
      addressable = omega (arith, size-after, c.fits, c.valid);
      some_ranges = c.valid.some_ranges;
    }

    covers-after :
        (x : ℕ) → covers (after w).covered x ≡ (within offset stop x || covers b.covered x)
    covers-after x =
        covers-mark_covered b.covered b.base (b.base + length w.content) offset stop wider x
          c.not_empty

    view-after : (x : ℕ) → byte_at (after w) x ≡ merged_at b offset bytes policy offset stop x
    view-after x = elim (Bool-cases (within offset stop x || covers b.covered x)) [
      | inr outside ↦ rw (covers-after x, outside) (ground arith)
      | inl inside ↦
          let from : b.base ≤ x = ground (arith, c.from_base, covered_bounds b x c.valid) in
          let back : b.base + (x - b.base) ≡ x = omega arith in
          rw (covers-after x, inside)
            (ground (
              arith,
              rw back at (s.at (x - b.base)),
              get_elem?-grow b.content (stop - b.base) (x - b.base),
              covered_bounds b x c.valid,
            ))
    ]

    clash-after :
        (x : ℕ)
        → clashes b.base offset stop bytes policy b.covered start.content x
          ≡ contradicts b offset bytes x
    clash-after x = elim (Bool-cases (covers b.covered x)) [
      | inr outside ↦ rw outside
      | inl inside ↦ rw (
        inside,
        get_elem?-grow b.content (stop - b.base) (x - b.base)
            (omega (arith, covered_bounds b x c.valid inside)),
      )
    ]

  pub write_into-Wrote :
      (b' : RangeBuffer) × (o' : WriteOutcome) × (write_into b offset bytes policy o
        ≡ some (b', o'))
      × Wrote b offset bytes policy offset stop o b' o'
  unfolding write_into
  write_into-Wrote =
      let (w, e, s) =
        walk-Reaches b.base offset stop bytes policy b.covered b.base (b.base + length b.content)
          start c.valid.sorted start-InRange in
      (
        after w,
        w.outcome,
        >>=-chain (walk b.base offset stop bytes policy b.covered start)
            (fill_rest b.base offset stop bytes policy) (λ w. some (after w, w.outcome)) e,
        record {
          valid = after-IsValid w s;
          same_base = refl;
          same_byte_limit = refl;
          same_range_limit = refl;
          view = view-after w s;
          covers_lem = covers-after w s;
          total = s.total;
          conflicts =
              s.conflicts
              ∙ ap (λ k. o.conflicting + k)
                  (count_from-ext (clashes b.base offset stop bytes policy b.covered start.content)
                    (contradicts b offset bytes) offset (stop - offset)
                    (λ x p q. clash-after w s x));
          replaces = s.replaces;
          refused = s.refused;
          before_window = s.before_window;
        },
      )
