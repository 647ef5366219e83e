-- ===== src/Reassembly/Stream/Deliver.antt =====
-- `deliver` of crates/reassembly/src/stream.rs.
use mathlib.Core.Path.{subst}
use mathlib.Core.Option.{some-injective}
use cyber_sentinel_ids_ips.Prelude.{
  ℕ, ◌+◌, ◌-◌, ◌%◌, ◌^◌, ◌≤◌, ◌<◌, ◌≡◌, refl, sym, ap, ◌∙◌, min, max, Bool, none, some, List, ◌++◌,
  length, get_elem?, leb, if◌then◌else◌, arith, length-append,
}
use cyber_sentinel_ids_ips.Reassembly.RangeBuffer.{
  RangeBuffer, contiguous_end, drain_contiguous_upto,
}
use cyber_sentinel_ids_ips.Reassembly.RangeBuffer.View.{
  byte_at, IsValid, contiguous_end_lem, FirstMissing, contiguous_end-FirstMissing,
}
use cyber_sentinel_ids_ips.Reassembly.RangeBuffer.Drain.{
  DrainsTo, Consumed, drained, drain_contiguous_upto-DrainsTo,
}
use cyber_sentinel_ids_ips.Reassembly.Stream.{Stream, deliver, delivery_limit}
use cyber_sentinel_ids_ips.Reassembly.Stream.Anchor.{IsAnchored, sequence_of}

-- How far a delivery goes that is not forced, by the first byte that is missing: up to it where the
-- flush threshold is reached, and otherwise up to it and to what is acknowledged.
abbrev pub settled_upto : Stream → ℕ → ℕ
settled_upto s missing =
    if leb s.flush_bytes (missing - s.buffer.base) then missing else min s.acknowledged_upto missing

-- Where the window starts after a delivery.
abbrev pub delivered_upto : Stream → Bool → ℕ → ℕ
delivered_upto s force missing =
    max s.buffer.base (if force then missing else settled_upto s missing)

-- A delivery that hands out `moved`.
pub record Delivers (s : Stream) (out : List ℕ) (force : Bool) : Type 0 where
  pub missing : ℕ
  pub first_missing : FirstMissing s.buffer missing
  pub stream : Stream
  pub moved : List ℕ
  pub runs : deliver s out force ≡ some (stream, out ++ moved)
  pub size : length moved ≡ delivered_upto s force missing - s.buffer.base
  pub bytes :
      (x : ℕ)
      → s.buffer.base ≤ x
      → x < delivered_upto s force missing
      → get_elem? moved (x - s.buffer.base) ≡ byte_at s.buffer x
  pub valid : IsValid stream.buffer
  pub moves : stream.buffer.base ≡ delivered_upto s force missing
  pub rest :
      (x : ℕ)
      → byte_at stream.buffer x
        ≡ (if leb (delivered_upto s force missing) x then byte_at s.buffer x else none)
  pub anchor : stream.base_sequence ≡ (s.base_sequence + length moved) % 2 ^ 32
  pub counted : stream.counters.bytes_delivered ≡ s.counters.bytes_delivered + length moved
  pub kept :
      (stream.fin_at ≡ s.fin_at)
      × (stream.established ≡ s.established)
      × (stream.acknowledged_upto ≡ s.acknowledged_upto)

anchor_moves : (isn base n : ℕ) → (sequence_of isn base + n) % 2 ^ 32 ≡ sequence_of isn (base + n)
anchor_moves isn base n = omega arith

limit_lem :
    (s : Stream) (force : Bool)
    → IsValid s.buffer
    → s.buffer.base + drained s.buffer (delivery_limit s force).0
      ≡ delivered_upto s force (contiguous_end s.buffer)
limit_lem s force v = let ends = contiguous_end_lem s.buffer v in ground (arith, ends.0)

-- The stream that a drain leaves.
abbrev after_drain : Stream → Bool → RangeBuffer → ℕ → Stream
after_drain s force buffer n = record s {
  buffer = buffer;
  base_sequence = (s.base_sequence + n) % 2 ^ 32;
  counters = record (s.counters) {
    flushed_unacked = s.counters.flushed_unacked + (delivery_limit s force).1;
    bytes_delivered = s.counters.bytes_delivered + n;
  };
}

deliver-after_drain :
    (s : Stream) (out moved : List ℕ) (force : Bool) (buffer : RangeBuffer) (count : ℕ)
    → drain_contiguous_upto s.buffer (delivery_limit s force).0 out
      ≡ some (buffer, out ++ moved, count)
    → deliver s out force ≡ some (after_drain s force buffer (length moved), out ++ moved)
unfolding deliver
deliver-after_drain s out moved force buffer count h =
    let grown : length (out ++ moved) - length out ≡ length moved =
      omega (arith, length-append out moved) in
    rw (h, grown) refl

-- A delivery of a stream whose buffer is well formed never panics. It appends, in order, exactly the
-- bytes held from the window's start up to the place it may settle: where it is forced or the flush
-- threshold is reached, the first offset that holds no byte, and otherwise the first that holds none
-- or is not acknowledged. What is held from there on stays, the window starts there, the anchor moves
-- with it, and the bytes are counted.
pub deliver-Delivers :
    (s : Stream) (out : List ℕ) (force : Bool) → IsValid s.buffer → Delivers s out force
deliver-Delivers s out force v =
    let limit : ℕ = (delivery_limit s force).0 in
    let d : DrainsTo s.buffer limit out = drain_contiguous_upto-DrainsTo s.buffer limit out v in
    let goes : s.buffer.base + drained s.buffer limit
        ≡ delivered_upto s force (contiguous_end s.buffer) =
      limit_lem s force v in
    let size : length d.moved ≡ drained s.buffer limit = d.drained_lem.size in
    let consumed : Consumed s.buffer (drained s.buffer limit) d.buffer = d.drained_lem.consumed in
    record {
      missing = contiguous_end s.buffer;
      first_missing = contiguous_end-FirstMissing s.buffer v;
      stream = after_drain s force d.buffer (length d.moved);
      moved = d.moved;
      runs = deliver-after_drain s out d.moved force d.buffer (drained s.buffer limit) d.runs;
      size = omega (arith, size, goes);
      bytes = λ x from below.
          d.drained_lem.bytes (x - s.buffer.base) (omega (arith, goes, from, below))
          ∙ ap (byte_at s.buffer) (omega (arith, from));
      valid = consumed.valid;
      moves = consumed.base ∙ goes;
      rest = λ x. rw (← goes) (consumed.view x);
      anchor = refl;
      counted = refl;
      kept = (refl, refl, refl);
    }

-- A delivery keeps a stream anchored: sequence numbers name the same offsets before and after it.
pub deliver-IsAnchored :
    (s s' : Stream) (isn : ℕ) (out grown : List ℕ) (force : Bool)
    → IsValid s.buffer
    → IsAnchored isn s
    → deliver s out force ≡ some (s', grown)
    → IsAnchored isn s'
deliver-IsAnchored s s' isn out grown force v a runs =
    let d : Delivers s out force = deliver-Delivers s out force v in
    let n : ℕ = length d.moved in
    let ends : s.buffer.base ≤ delivered_upto s force d.missing = omega arith in
    let base : d.stream.buffer.base ≡ s.buffer.base + n = omega (arith, d.moves, d.size, ends) in
    let anchored : IsAnchored isn d.stream =
      d.anchor
      ∙ ap (λ b. (b + n) % 2 ^ 32) a
      ∙ anchor_moves isn s.buffer.base n
      ∙ ap (sequence_of isn) (sym base) in
    subst (λ (q : Stream × List ℕ). IsAnchored isn q.0) (some-injective _ _ (sym d.runs ∙ runs))
      anchored
