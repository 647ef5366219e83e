-- ===== src/Reassembly/Stream/Anchor.antt =====
-- Sequence numbers and offsets in crates/reassembly/src/stream.rs, across the wrap at 32 bits.
use cyber_sentinel_ids_ips.Prelude.{
  ℕ, ◌+◌, ◌-◌, ◌%◌, ◌^◌, ◌≤◌, ◌<◌, ◌≡◌, true, false, leb, arith, Bool-cases, inl, inr,
}
use cyber_sentinel_ids_ips.Common.Int.{pos}
use cyber_sentinel_ids_ips.Reassembly.Stream.{
  Stream, absolute, offset_by, wrapping_sub, establish, has, flag_syn, TcpSegment,
}

-- The sequence number of a byte, in a stream whose first byte has sequence number `isn`.
abbrev pub sequence_of : ℕ → ℕ → ℕ
sequence_of isn offset = (isn + offset) % 2 ^ 32

abbrev pub IsAnchored : ℕ → Stream → Type 0
IsAnchored isn s = s.base_sequence ≡ sequence_of isn s.buffer.base

-- The signed difference recovers the offset.
wrapping_sub-ahead :
    (isn base offset : ℕ)
    → base ≤ offset
    → offset < base + 2 ^ 31
    → wrapping_sub (sequence_of isn offset) (sequence_of isn base) ≡ offset - base
wrapping_sub-ahead isn base offset h k = omega arith

wrapping_sub-behind :
    (isn base offset : ℕ)
    → offset < base
    → base ≤ offset + 2 ^ 31
    → wrapping_sub (sequence_of isn offset) (sequence_of isn base) ≡ 2 ^ 32 - (base - offset)
wrapping_sub-behind isn base offset h k = omega arith

offset_by-ahead :
    (base offset : ℕ)
    → base ≤ offset
    → offset < base + 2 ^ 31
    → offset_by base (offset - base) ≡ pos offset
offset_by-ahead base offset h k = ground arith

offset_by-behind :
    (base offset : ℕ)
    → offset < base
    → base ≤ offset + 2 ^ 31
    → offset_by base (2 ^ 32 - (base - offset)) ≡ pos offset
offset_by-behind base offset h k = ground arith

-- In an anchored stream, the offset of a sequence number is that of the byte that has it, as long as
-- the byte is less than 2 GiB ahead of the window's start and at most 2 GiB behind it, wherever the
-- sequence numbers wrap.
pub absolute-sequence_of :
    (s : Stream) (isn offset : ℕ)
    → IsAnchored isn s
    → offset < s.buffer.base + 2 ^ 31
    → s.buffer.base ≤ offset + 2 ^ 31
    → absolute s (sequence_of isn offset) ≡ pos offset
unfolding absolute
absolute-sequence_of s isn offset a h k = elim (Bool-cases (leb s.buffer.base offset)) [
  | inl ahead ↦
      rw (a, wrapping_sub-ahead isn s.buffer.base offset (ground arith) h)
        (offset_by-ahead s.buffer.base offset (ground arith) h)
  | inr behind ↦
      rw (a, wrapping_sub-behind isn s.buffer.base offset (ground arith) k)
        (offset_by-behind s.buffer.base offset (ground arith) k)
]

-- A SYN anchors the stream one past its own sequence number.
pub establish-IsAnchored :
    (s : Stream) (segment : TcpSegment)
    → s.established ≡ false
    → has segment flag_syn ≡ true
    → s.buffer.base ≡ 0
    → IsAnchored (segment.sequence + 1) (establish s segment)
unfolding establish
establish-IsAnchored s segment fresh syn start = rw (fresh, syn, start) (omega arith)
