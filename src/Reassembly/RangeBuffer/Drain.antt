-- ===== src/Reassembly/RangeBuffer/Drain.antt =====
-- `drain_contiguous_upto` of crates/reassembly/src/range_buffer.rs.
use mathlib.Core.List.{append-nil}
use cyber_sentinel_ids_ips.Prelude.{
  ℕ, ◌+◌, ◌-◌, ◌≤◌, ◌<◌, ◌≡◌, refl, ◌∙◌, min, max, none, some, List, [], ◌++◌, length, get_elem?,
  take, drop, leb, if◌then◌else◌, arith, Bool-cases, inl, inr, length-drop, get_elem?-drop,
}
use cyber_sentinel_ids_ips.Reassembly.RangeBuffer.{
  RangeBuffer, contiguous_end, consume, drain_contiguous_upto, retain_after,
}
use cyber_sentinel_ids_ips.Reassembly.RangeBuffer.Ranges.{
  IsSorted-mono, covers-retain_after, length-retain_after, retain_after-IsSorted,
}
use cyber_sentinel_ids_ips.Reassembly.RangeBuffer.Copy.{
  slice-eq_some, length-slice, get_elem?-slice,
}
use cyber_sentinel_ids_ips.Reassembly.RangeBuffer.View.{
  byte_at, IsValid, covered_bounds, contiguous_end_lem, FirstMissing, contiguous_end-FirstMissing,
}

-- `b'` is `b` with the window moved on by `count`.
pub record Consumed (b : RangeBuffer) (count : ℕ) (b' : RangeBuffer) : Type 0 where
  pub valid : IsValid b'
  pub base : b'.base ≡ b.base + count
  pub same_byte_limit : b'.byte_limit ≡ b.byte_limit
  pub same_range_limit : b'.range_limit ≡ b.range_limit
  pub view : (x : ℕ) → byte_at b' x ≡ (if leb (b.base + count) x then byte_at b x else none)

pub consume-Consumed :
    (b : RangeBuffer) (count : ℕ)
    → IsValid b
    → count ≤ length b.content
    → (b' : RangeBuffer) × (consume b count ≡ some b') × Consumed b count b'
unfolding consume
consume-Consumed b count v h =
    let rest : ℕ = length (drop count b.content) in
    let size : rest ≡ length b.content - count = length-drop count b.content in
    let base' : ℕ = b.base + count in
    (
      record b {
        base = base';
        content = drop count b.content;
        covered = retain_after base' b.covered;
      },
      ground arith,
      record {
        valid = record {
          sorted =
              IsSorted-mono (retain_after base' b.covered) (max base' b.base) base'
                (b.base + length b.content) (base' + rest) (omega arith) (omega arith)
                (retain_after-IsSorted b.covered base' b.base (b.base + length b.content) v.sorted);
          bytes_capped = omega (arith, v);
          ranges_capped = omega (arith, v, length-retain_after b.covered base');
          addressable = omega (arith, v);
          some_ranges = v.some_ranges;
        };
        base = refl;
        same_byte_limit = refl;
        same_range_limit = refl;
        view = λ x. ground (
          arith,
          covers-retain_after b.covered base' x,
          get_elem?-drop count b.content (x - base') (x - b.base),
          covered_bounds b x v,
        );
      },
    )

Consumed-none : (b : RangeBuffer) → IsValid b → Consumed b 0 b
Consumed-none b v = record {
  valid = v;
  base = omega arith;
  same_byte_limit = refl;
  same_range_limit = refl;
  view = λ x. ground (arith, covered_bounds b x v);
}

-- How many bytes a drain up to `limit` moves.
abbrev pub drained : RangeBuffer → ℕ → ℕ
drained b limit = min (contiguous_end b) limit - b.base

-- What a drain adds to `out` and leaves behind.
pub record Drained (b : RangeBuffer) (count : ℕ) (moved : List ℕ) (b' : RangeBuffer) : Type 0 where
  pub consumed : Consumed b count b'
  pub size : length moved ≡ count
  pub bytes : (i : ℕ) → i < count → get_elem? moved i ≡ byte_at b (b.base + i)

module _ (b : RangeBuffer) (limit : ℕ) (out : List ℕ) where
  -- A drain that gives a buffer, the grown `out` and the count, by the contiguous end.
  pub record DrainsTo : Type 0 where
    pub buffer : RangeBuffer
    pub moved : List ℕ
    pub runs : drain_contiguous_upto b limit out ≡ some (buffer, out ++ moved, drained b limit)
    pub drained_lem : Drained b (drained b limit) moved buffer

  pub drain_contiguous_upto-DrainsTo : IsValid b → DrainsTo
  unfolding drain_contiguous_upto
  drain_contiguous_upto-DrainsTo v = elim (Bool-cases (leb (min (contiguous_end b) limit) b.base)) [
    | inl nothing ↦
        let none_moved : drained b limit ≡ 0 = ground arith in
        (record {
          buffer = b;
          moved = [];
          runs = rw (nothing, none_moved, append-nil);
          drained_lem = rw none_moved (record {
            consumed = Consumed-none b v;
            size = refl;
            bytes = λ i lt. absurd (omega arith);
          });
        })
    | inr something ↦
        let (first, last, covered, stop) = contiguous_end_lem b v in
        let count : ℕ = drained b limit in
        let (b', e, c) = consume-Consumed b count v (omega arith) in
        record {
          buffer = b';
          moved = take (count - 0) b.content;
          runs = rw (something, slice-eq_some b.content 0 count (omega arith) (omega arith), e);
          drained_lem = record {
            consumed = c;
            size = length-slice b.content 0 count (omega arith) (omega arith) ∙ omega arith;
            bytes = λ i lt. rw (covered (b.base + i) (omega arith) (omega arith)) (
                get_elem?-slice b.content 0 count i (b.base + i - b.base) (omega arith)
                  (omega arith));
          };
        }
  ]

  -- A drain by the first byte that is missing: it moves what is held before that byte and the limit.
  pub record Drains : Type 0 where
    pub missing : ℕ
    pub first_missing : FirstMissing b missing
    pub buffer : RangeBuffer
    pub moved : List ℕ
    pub runs :
        drain_contiguous_upto b limit out ≡ some (buffer, out ++ moved, min missing limit - b.base)
    pub drained_lem : Drained b (min missing limit - b.base) moved buffer

  -- A drain of a well-formed buffer never panics: it appends, in order, the bytes held from the
  -- window's start to the first offset that holds none, or to the limit where that comes first, and
  -- counts them. It leaves the buffer well formed, its window past them and holding the rest.
  pub drain_contiguous_upto-Drains : IsValid b → Drains
  drain_contiguous_upto-Drains v =
      let d : DrainsTo = drain_contiguous_upto-DrainsTo v in
      record {
        missing = contiguous_end b;
        first_missing = contiguous_end-FirstMissing b v;
        buffer = d.buffer;
        moved = d.moved;
        runs = d.runs;
        drained_lem = d.drained_lem;
      }
