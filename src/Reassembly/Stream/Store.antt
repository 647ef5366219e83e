-- ===== src/Reassembly/Stream/Store.antt =====
-- What `store` of crates/reassembly/src/stream.rs does with a payload. Only the first offset of a
-- payload is compared with a FIN.
use mathlib.Core.Path.{subst}
use cyber_sentinel_ids_ips.Prelude.{
  ℕ, ◌+◌, ◌≤◌, ◌<◌, ◌≡◌, ◌⊎◌, refl, sym, ap, min, max, true, false, some, List, length, leb, arith,
  Bool-cases, inl, inr,
}
use cyber_sentinel_ids_ips.Common.Config.{ReassemblyConfig}
use cyber_sentinel_ids_ips.Common.Int.{ℤ, pos, negsuc, ends_by}
use cyber_sentinel_ids_ips.Reassembly.RangeBuffer.{OverlapPolicy, RangeBuffer, u64_max}
use cyber_sentinel_ids_ips.Reassembly.RangeBuffer.View.{
  byte_at, IsValid, new-IsValid, base-new, buffered_bytes-new,
}
use cyber_sentinel_ids_ips.Reassembly.RangeBuffer.Promise.{
  GoesIn, write-GoesIn, write-counts, written_at,
}
use cyber_sentinel_ids_ips.Reassembly.Stream.{
  Stream, StreamCounters, absolute, store, store_at, past_fin, count_write, count_out_of_window,
  new, new_stream, pair_buffered_bytes, max_holes_per_stream,
}

-- The payload bytes that the counters account for.
abbrev pub accounted : StreamCounters → ℕ
accounted c =
    c.bytes_accepted + c.overlaps + c.refused_bytes + c.out_of_window + c.before_window
    + c.after_fin

-- The stream's window is addressable with room for a payload, and its buffer is well formed.
pub record IsStream (s : Stream) (room : ℕ) : Type 0 where
  pub valid : IsValid s.buffer
  pub addressable : s.buffer.base + s.byte_limit + room < u64_max

new_stream-IsStream :
    (limit flush n : ℕ) → limit + n < u64_max → IsStream (new_stream limit flush) n
new_stream-IsStream limit flush n h = record {
  valid = new-IsValid 0 limit max_holes_per_stream (omega arith);
  addressable = omega (arith, base-new 0 limit max_holes_per_stream);
}

-- Both directions of a new conversation have room for what fits below the top, and hold nothing.
pub new-IsStream :
    (config : ReassemblyConfig) (n : ℕ)
    → max config.max_stream_bytes_per_flow 1 + n < u64_max
    → IsStream (new config).to_server n × IsStream (new config).to_client n
unfolding new
new-IsStream config n h =
    let limit : ℕ = max config.max_stream_bytes_per_flow 1 in
    let flush : ℕ = min (max config.delivery_flush_bytes 1) limit in
    (new_stream-IsStream limit flush n h, new_stream-IsStream limit flush n h)

pub pair_buffered_bytes-new : (config : ReassemblyConfig) → pair_buffered_bytes (new config) ≡ 0
unfolding new pair_buffered_bytes
pair_buffered_bytes-new config =
    let limit : ℕ = max config.max_stream_bytes_per_flow 1 in
    rw (buffered_bytes-new 0 limit max_holes_per_stream) refl

-- Why a payload is not written: it ends where the window starts or before, it starts before the
-- first offset of all, at the window's end or past it, or at a FIN or past it. At or past a FIN all of
-- it is counted as such.
abbrev pub Unwritten : Stream → ℤ → List ℕ → Stream → Type 0
Unwritten s place payload s' =
    (ends_by place (length payload) s.buffer.base ≡ true)
    ⊎ ((n : ℕ) × (place ≡ negsuc n))
    ⊎ ((offset : ℕ) × (place ≡ pos offset) × (s.buffer.base + s.byte_limit ≤ offset))
    ⊎ ((offset : ℕ) × (place ≡ pos offset)
        × (past_fin s.fin_at offset ≡ true)
        × (s'.counters.after_fin ≡ s.counters.after_fin + length payload))

-- Where a payload went.
pub record Stored (s : Stream) (place : ℤ) (payload : List ℕ) (policy : OverlapPolicy) (s' : Stream)
    : Type 0 where
  pub valid : IsValid s'.buffer
  pub same_base : s'.buffer.base ≡ s.buffer.base
  pub same_limit : s'.byte_limit ≡ s.byte_limit
  pub same_fin : s'.fin_at ≡ s.fin_at
  pub total : accounted s'.counters ≡ accounted s.counters + length payload
  pub fate :
      ((s'.buffer ≡ s.buffer) × Unwritten s place payload s')
      ⊎ ((offset : ℕ) × (place ≡ pos offset)
          × (offset < s.buffer.base + s.byte_limit)
          × (past_fin s.fin_at offset ≡ false)
          × ((x : ℕ) → byte_at s'.buffer x ≡ written_at s.buffer offset payload policy x))

-- A payload that only changes the counters.
counted-Stored :
    (s s' : Stream) (place : ℤ) (payload : List ℕ) (policy : OverlapPolicy)
    → IsValid s.buffer
    → s'.buffer ≡ s.buffer
    → s'.byte_limit ≡ s.byte_limit
    → s'.fin_at ≡ s.fin_at
    → accounted s'.counters ≡ accounted s.counters + length payload
    → Unwritten s place payload s'
    → Stored s place payload policy s'
counted-Stored s s' place payload policy v e l f t why = record {
  valid = subst IsValid (sym e) v;
  same_base = ap (λ (b : RangeBuffer). b.base) e;
  same_limit = l;
  same_fin = f;
  total = t;
  fate = inl (e, why);
}

store_at-Stored :
    (s : Stream) (place : ℤ) (payload : List ℕ) (policy : OverlapPolicy)
    → IsStream s (length payload)
    → (s' : Stream) × (store_at s place payload policy ≡ some s') × Stored s place payload policy s'
unfolding store_at
store_at-Stored s (negsuc n) payload policy i = (
  count_out_of_window s (length payload),
  refl,
  counted-Stored s _ (negsuc n) payload policy i.valid refl refl refl (omega arith)
      (inr (inl (n, refl))),
)
store_at-Stored s (pos offset) payload policy i =
    elim (Bool-cases (leb (s.buffer.base + s.byte_limit) offset)) [
      | inl far ↦ (
        count_out_of_window s (length payload),
        rw far refl,
        counted-Stored s _ (pos offset) payload policy i.valid refl refl refl (omega arith)
            (inr (inr (inl (offset, refl, ground (arith, far))))),
      )
      | inr near ↦ elim (Bool-cases (past_fin s.fin_at offset)) [
        | inl past ↦ (
          record s {
            counters = record (s.counters) { after_fin = s.counters.after_fin + length payload };
          },
          rw (near, past) refl,
          counted-Stored s _ (pos offset) payload policy i.valid refl refl refl (omega arith)
              (inr (inr (inr (offset, refl, past, refl)))),
        )
        | inr before ↦
            let g : GoesIn s.buffer offset payload policy =
              write-GoesIn s.buffer offset payload policy i.valid (omega (arith, i.addressable)) in
            let counts =
              write-counts s.buffer offset payload policy g.buffer g.outcome i.valid
                (omega (arith, i.addressable)) (ground (arith, near, i.addressable)) g.runs in
            (
              record s { buffer = g.buffer; counters = count_write s.counters g.outcome },
              rw (near, before, g.runs) refl,
              record {
                valid = g.valid;
                same_base = g.same_base;
                same_limit = refl;
                same_fin = refl;
                total = omega (arith, counts.0);
                fate = inr (offset, refl, ground (arith, near), before, g.view);
              },
            )
      ]
    ]

-- A payload offered to a stream whose buffer is well formed and whose window stays addressable never
-- panics. Each of its bytes is counted exactly once: accepted, overlapped, refused, out of the
-- window, before the window or after the FIN. It is written, so that every offset holds what a write
-- of it at its place puts there, or the buffer stays as it was: then the payload ends at or before the
-- window's start, starts before the first offset or past the window's end, or starts at or past a
-- known FIN, where all of it is counted as after the FIN. Only its first offset is compared with the
-- FIN: a payload that starts before it is written whole.
pub store-Stored :
    (s : Stream) (sequence : ℕ) (payload : List ℕ) (policy : OverlapPolicy)
    → IsStream s (length payload)
    → (s' : Stream) × (store s sequence payload policy ≡ some s')
      × Stored s (absolute s sequence) payload policy s'
unfolding store
store-Stored s sequence payload policy i =
    elim (Bool-cases (ends_by (absolute s sequence) (length payload) s.buffer.base)) [
      | inl behind ↦ (
        record s {
          counters = record (s.counters) {
            before_window = s.counters.before_window + length payload;
          };
        },
        rw behind refl,
        counted-Stored s _ (absolute s sequence) payload policy i.valid refl refl refl (omega arith)
            (inl behind),
      )
      | inr ahead ↦ rw ahead (store_at-Stored s (absolute s sequence) payload policy i)
    ]
