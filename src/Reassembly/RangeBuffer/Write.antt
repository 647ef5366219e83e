-- ===== src/Reassembly/RangeBuffer/Write.antt =====
-- `RangeBuffer::write` of crates/reassembly/src/range_buffer.rs, from its early returns to the loop.
use mathlib.Core.Path.{transport}
use cyber_sentinel_ids_ips.Prelude.{
  ℕ, ◌+◌, ◌-◌, ◌≤◌, ◌<◌, ◌≡◌, refl, ap, ◌∙◌, min, max, Bool, true, false, ◌&&◌, ◌||◌, not, Option,
  some, List, [], ◌∷◌, length, get_elem?, take, drop, ltb, leb, if◌then◌else◌, arith, Bool-cases,
  inl, inr, ◌>>=◌, count_from, count_from-ext,
}
use cyber_sentinel_ids_ips.Reassembly.RangeBuffer.{
  OverlapPolicy, RangeBuffer, WriteOutcome, u64_max, sat_add, replaced_by, write_kept, write_from,
  write, default_outcome, touches_existing, slice,
}
use cyber_sentinel_ids_ips.Reassembly.RangeBuffer.Ranges.{within, covers}
use cyber_sentinel_ids_ips.Reassembly.RangeBuffer.Copy.{
  differ, slice-eq_some, length-slice, get_elem?-slice,
}
use cyber_sentinel_ids_ips.Reassembly.RangeBuffer.View.{byte_at, IsValid}
use cyber_sentinel_ids_ips.Reassembly.RangeBuffer.WriteInto.{
  contradicts, merged_at, write_into-Wrote,
}

-- Whether the range cap lets `[lo, hi)` in: there is room for one more range, or it touches one.
abbrev pub stored : RangeBuffer → ℕ → ℕ → Bool
stored b lo hi =
    ltb lo hi
    && not (leb b.range_limit (length b.covered) && not (touches_existing b.covered lo hi))

abbrev pub amount : Bool → ℕ → ℕ
amount true n = n
amount false n = 0

-- `b'` and `o'` after a write of `bytes` at `offset`, of which `[lo, hi)` is in the window.
pub record Written (b : RangeBuffer) (offset : ℕ) (bytes : List ℕ) (policy : OverlapPolicy)
    (lo hi : ℕ) (o : WriteOutcome) (b' : RangeBuffer) (o' : WriteOutcome) : Type 0 where
  pub valid : IsValid b'
  pub same_base : b'.base ≡ b.base
  pub same_byte_limit : b'.byte_limit ≡ b.byte_limit
  pub same_range_limit : b'.range_limit ≡ b.range_limit
  pub view :
      (x : ℕ)
      → byte_at b' x
        ≡ (if stored b lo hi then merged_at b offset bytes policy lo hi x else byte_at b x)
  pub covers_lem :
      (x : ℕ) → covers b'.covered x ≡ ((stored b lo hi && within lo hi x) || covers b.covered x)
  pub total :
      o'.accepted + o'.overlapped ≡ o.accepted + o.overlapped + amount (stored b lo hi) (hi - lo)
  pub conflicts :
      o'.conflicting
      ≡ o.conflicting
        + amount (stored b lo hi) (count_from (contradicts b offset bytes) lo (hi - lo))
  pub replaces :
      o'.replaced + replaced_by policy o.conflicting
      ≡ o.replaced + replaced_by policy o'.conflicting
  pub before_window : o'.before_window ≡ o.before_window

-- A write of `len` bytes at `offset` that runs; `refused` holds where the write does not end past
-- the last offset.
pub record Writes (b : RangeBuffer) (offset : ℕ) (bytes : List ℕ) (policy : OverlapPolicy)
    (lo hi : ℕ) (o : WriteOutcome) (len : ℕ) (run : Option (RangeBuffer × WriteOutcome))
    : Type 0 where
  pub buffer : RangeBuffer
  pub outcome : WriteOutcome
  pub runs : run ≡ some (buffer, outcome)
  pub written : Written b offset bytes policy lo hi o buffer outcome
  pub refused :
      lo + len ≤ u64_max → outcome.refused + amount (stored b lo hi) (hi - lo) ≡ o.refused + len

-- Nothing is stored.
unstored :
    (b : RangeBuffer) (offset : ℕ) (bytes : List ℕ) (policy : OverlapPolicy) (lo hi : ℕ)
    (o o' : WriteOutcome)
    → IsValid b
    → stored b lo hi ≡ false
    → o'.accepted ≡ o.accepted
    → o'.overlapped ≡ o.overlapped
    → o'.conflicting ≡ o.conflicting
    → o'.replaced ≡ o.replaced
    → o'.before_window ≡ o.before_window
    → Written b offset bytes policy lo hi o b o'
unstored b offset bytes policy lo hi o o' v e a c d r w = record {
  valid = v;
  same_base = refl;
  same_byte_limit = refl;
  same_range_limit = refl;
  view = λ x. rw e;
  covers_lem = λ x. rw e;
  total = rw e (omega arith);
  conflicts = rw e (omega arith);
  replaces = rw (d, r);
  before_window = w;
}

-- A part of the bytes, at their place, stands for all of them.
relabel :
    (b : RangeBuffer) (offset offset' : ℕ) (bytes bytes' : List ℕ) (policy : OverlapPolicy)
    (lo hi : ℕ) (o : WriteOutcome) (b' : RangeBuffer) (o' : WriteOutcome)
    → ((x : ℕ) → lo ≤ x → x < hi → get_elem? bytes (x - offset) ≡ get_elem? bytes' (x - offset'))
    → Written b offset bytes policy lo hi o b' o'
    → Written b offset' bytes' policy lo hi o b' o'
relabel b offset offset' bytes bytes' policy lo hi o b' o' same w = record {
  valid = w.valid;
  same_base = w.same_base;
  same_byte_limit = w.same_byte_limit;
  same_range_limit = w.same_range_limit;
  view = λ x. ground (arith, same x, w.view x);
  covers_lem = w.covers_lem;
  total = w.total;
  conflicts =
      w.conflicts
      ∙ ap (λ k. o.conflicting + amount (stored b lo hi) k)
          (count_from-ext (contradicts b offset bytes) (contradicts b offset' bytes') lo (hi - lo)
            (λ x p q. ap (differ (byte_at b x)) (same x p (omega arith))));
  replaces = w.replaces;
  before_window = w.before_window;
}

-- The bytes of a write that lie behind the window, in the counters it starts with.
abbrev pub start_outcome : RangeBuffer → ℕ → List ℕ → WriteOutcome
start_outcome b offset bytes = record default_outcome {
  before_window = min (length bytes) (b.base - offset);
}

Writes-cong :
    {b : RangeBuffer} {offset : ℕ} {bytes : List ℕ} {policy : OverlapPolicy} {lo lo' hi hi' : ℕ}
    {o o' : WriteOutcome} {len len' : ℕ} {run run' : Option (RangeBuffer × WriteOutcome)}
    → lo ≡ lo'
    → hi ≡ hi'
    → o ≡ o'
    → len ≡ len'
    → run ≡ run'
    → Writes b offset bytes policy lo hi o len run
    → Writes b offset bytes policy lo' hi' o' len' run'
Writes-cong {b} {offset} {bytes} {policy} p q r s t w =
    transport (λ i. Writes b offset bytes policy (p i) (q i) (r i) (s i) (t i)) w

counted_before : ℕ → WriteOutcome
counted_before n = record default_outcome { before_window = n }

-- What was refused before plays no part.
rebase_refused :
    (b : RangeBuffer) (offset : ℕ) (bytes : List ℕ) (policy : OverlapPolicy) (lo hi n : ℕ)
    (o : WriteOutcome) (b' : RangeBuffer) (o' : WriteOutcome)
    → Written b offset bytes policy lo hi (record o { refused = n }) b' o'
    → Written b offset bytes policy lo hi o b' o'
rebase_refused b offset bytes policy lo hi n o b' o' w = record {
  valid = w.valid;
  same_base = w.same_base;
  same_byte_limit = w.same_byte_limit;
  same_range_limit = w.same_range_limit;
  view = w.view;
  covers_lem = w.covers_lem;
  total = w.total;
  conflicts = w.conflicts;
  replaces = w.replaces;
  before_window = w.before_window;
}

module _ (b : RangeBuffer) (policy : OverlapPolicy) (v : IsValid b) where
  abbrev pub window_end : ℕ
  window_end = sat_add b.base b.byte_limit

  -- Of a write at `offset`, at or behind the window's start, the end inside the window.
  abbrev pub reach : ℕ → List ℕ → ℕ
  reach offset bytes = min (sat_add offset (length bytes)) window_end

  write_kept-Writes :
      (lo : ℕ) (bytes : List ℕ) (o : WriteOutcome)
      → b.base ≤ lo
      → lo < window_end
      → sat_add lo (length bytes) ≤ window_end
      → Writes b lo bytes policy lo
          (sat_add lo (length bytes))
          o
          (length bytes)
          (write_kept b lo bytes policy o)
  unfolding write_kept
  write_kept-Writes lo [] o h k l =
      let empty : stored b lo (sat_add lo 0) ≡ false = ground arith in
      record {
        buffer = b;
        outcome = o;
        runs = refl;
        written = unstored b lo [] policy lo (sat_add lo 0) o o v empty refl refl refl refl refl;
        refused = λ fit. rw empty (omega arith);
      }
  write_kept-Writes lo (x ∷ xs) o h k l =
      elim (Bool-cases (
        leb b.range_limit (length b.covered)
        && not (touches_existing b.covered lo (sat_add lo (length (x ∷ xs)))))) [
          | inl capped ↦
              let hi : ℕ = sat_add lo (length (x ∷ xs)) in
              let empty : stored b lo hi ≡ false = ground arith in
              let o' : WriteOutcome = record o { refused = o.refused + length (x ∷ xs) } in
              record {
                buffer = b;
                outcome = o';
                runs = rw capped;
                written = unstored b lo (x ∷ xs) policy lo hi o o' v empty refl refl refl refl refl;
                refused = λ fit. rw empty (omega arith);
              }
          | inr room ↦
              let hi : ℕ = sat_add lo (length (x ∷ xs)) in
              let lt : lo < hi = omega arith in
              let full : stored b lo hi ≡ true = ground arith in
              let (b', o', e, w) =
                write_into-Wrote b lo (x ∷ xs) policy o
                  (record { valid = v; from_base = h; not_empty = lt; fits = l; room = room }) in
              record {
                buffer = b';
                outcome = o';
                runs = rw room e;
                written = record {
                  valid = w.valid;
                  same_base = w.same_base;
                  same_byte_limit = w.same_byte_limit;
                  same_range_limit = w.same_range_limit;
                  view = λ y. rw full (w.view y);
                  covers_lem = λ y. rw full (w.covers_lem y);
                  total = rw full (omega (arith, w.total));
                  conflicts = rw full w.conflicts;
                  replaces = w.replaces;
                  before_window = w.before_window;
                };
                refused = λ fit. rw full (omega (arith, w.refused));
              }
        ]

  -- The write of the first `keep` bytes, where those end at the window's end.
  write_cut-Writes :
      (lo keep : ℕ) (bytes : List ℕ) (o : WriteOutcome)
      → b.base ≤ lo
      → lo < window_end
      → keep ≡ window_end - lo
      → keep ≤ length bytes
      → o.refused ≡ 0
      → Writes b lo bytes policy lo window_end o (length bytes) (
          slice bytes 0 keep >>= λ kept.
          write_kept b lo kept policy (record o { refused = length bytes - keep }))
  write_cut-Writes lo keep bytes o h k e l z =
      let kept : List ℕ = take (keep - 0) (drop 0 bytes) in
      let size : length kept ≡ keep - 0 = length-slice bytes 0 keep (omega arith) l in
      let hi : sat_add lo (length kept) ≡ window_end = omega arith in
      let o' : WriteOutcome = record o { refused = length bytes - keep } in
      let r = write_kept-Writes lo kept o' h k (omega arith) in
      let r' : Writes b lo kept policy lo window_end o' (length kept)
          (write_kept b lo kept policy o') =
        rw hi at r in
      record {
        buffer = r'.buffer;
        outcome = r'.outcome;
        runs = rw (slice-eq_some bytes 0 keep (omega arith) l) r'.runs;
        written =
            rebase_refused b lo bytes policy lo window_end (length bytes - keep) o r'.buffer
              r'.outcome
              (relabel b lo lo kept bytes policy lo window_end o' r'.buffer r'.outcome
                (λ x p q.
                  get_elem?-slice bytes 0 keep (x - lo) (x - lo) (omega arith) (omega arith))
                r'.written);
        refused = λ fit. omega (arith, r'.refused (omega arith));
      }

  -- The bytes that the byte cap leaves.
  write_from-Writes :
      (lo : ℕ) (bytes : List ℕ) (o : WriteOutcome)
      → b.base ≤ lo
      → o.refused ≡ 0
      → Writes b lo bytes policy lo
          (reach lo bytes)
          o
          (length bytes)
          (write_from b lo bytes policy o)
  unfolding write_from
  write_from-Writes lo bytes o h z = elim (Bool-cases (leb window_end lo)) [
    | inl past ↦
        let empty : stored b lo (reach lo bytes) ≡ false = ground arith in
        let o' : WriteOutcome = record o { refused = length bytes } in
        record {
          buffer = b;
          outcome = o';
          runs = rw past;
          written =
              unstored b lo bytes policy lo (reach lo bytes) o o' v empty refl refl refl refl refl;
          refused = λ fit. rw empty (omega (arith, z));
        }
    | inr before ↦ elim (Bool-cases (ltb window_end (sat_add lo (length bytes)))) [
      | inl long ↦
          let e : reach lo bytes ≡ window_end = ground arith in
          rw (before, long, e)
            (write_cut-Writes lo (window_end - lo) bytes o h (ground arith) refl (ground arith) z)
      | inr short ↦
          let e : reach lo bytes ≡ sat_add lo (length bytes) = ground arith in
          rw (before, short, e) (write_kept-Writes lo bytes o h (ground arith) (ground arith))
    ]
  ]

  abbrev pub WritesAll : ℕ → List ℕ → Type 0
  WritesAll offset bytes =
      Writes b offset bytes policy (max offset b.base) (reach offset bytes)
        (start_outcome b offset bytes) (length bytes - (b.base - offset))
        (write b offset bytes policy)

  behind-WritesAll :
      (offset : ℕ) (x : ℕ) (xs : List ℕ)
      → b.base < u64_max
      → leb (sat_add offset (length (x ∷ xs))) b.base ≡ true
      → WritesAll offset (x ∷ xs)
  unfolding write
  behind-WritesAll offset x xs h behind =
      let bytes : List ℕ = x ∷ xs in
      let empty : stored b (max offset b.base) (reach offset bytes) ≡ false = ground arith in
      let all : length bytes ≡ min (length bytes) (b.base - offset) = ground arith in
      let o' : WriteOutcome = record default_outcome { before_window = length bytes } in
      record {
        buffer = b;
        outcome = o';
        runs = rw behind;
        written =
            unstored b offset bytes policy (max offset b.base) (reach offset bytes)
              (start_outcome b offset bytes) o' v empty refl refl refl refl all;
        refused = λ fit. rw empty (omega arith);
      }

  trimmed-WritesAll :
      (offset : ℕ) (x : ℕ) (xs : List ℕ)
      → leb (sat_add offset (length (x ∷ xs))) b.base ≡ false
      → offset < b.base
      → WritesAll offset (x ∷ xs)
  unfolding write counted_before
  trimmed-WritesAll offset x xs past lt =
      let bytes : List ℕ = x ∷ xs in
      let skip : ℕ = b.base - offset in
      let rest : List ℕ = take (length bytes - skip) (drop skip bytes) in
      let some_left : skip ≤ length bytes = ground arith in
      let size : length rest ≡ length bytes - skip =
        length-slice bytes skip (length bytes) some_left (omega arith) in
      let o' : WriteOutcome = counted_before skip in
      let r = write_from-Writes b.base rest o' (omega arith) refl in
      let trims : ltb offset b.base ≡ true = ground arith in
      let same : min (sat_add b.base (length rest)) window_end ≡ reach offset bytes =
        ground arith in
      Writes-cong {offset = offset} {bytes = bytes} (omega arith) same
        (ap counted_before (ground arith)) size
        (rw (past, trims, slice-eq_some bytes skip (length bytes) some_left (omega arith)))
        (record {
          buffer = r.buffer;
          outcome = r.outcome;
          runs = r.runs;
          written =
              relabel b b.base offset rest bytes policy b.base (reach b.base rest) o' r.buffer
                r.outcome
                (λ y p q.
                  get_elem?-slice bytes skip (length bytes) (y - b.base) (y - offset) (omega arith)
                    (omega arith))
                r.written;
          refused = r.refused;
        })

  -- Every write of a well-formed buffer runs.
  pub write-WritesAll : (offset : ℕ) (bytes : List ℕ) → b.base < u64_max → WritesAll offset bytes
  unfolding write counted_before
  write-WritesAll offset [] h =
      let empty : stored b (max offset b.base) (reach offset []) ≡ false = ground arith in
      record {
        buffer = b;
        outcome = default_outcome;
        runs = refl;
        written =
            unstored b offset [] policy (max offset b.base) (reach offset [])
              (start_outcome b offset []) default_outcome v empty refl refl refl refl (omega arith);
        refused = λ fit. rw empty (omega arith);
      }
  write-WritesAll offset (x ∷ xs) h =
      elim (Bool-cases (leb (sat_add offset (length (x ∷ xs))) b.base)) [
        | inl behind ↦ behind-WritesAll offset x xs h behind
        | inr past ↦ elim (Bool-cases (ltb offset b.base)) [
          | inl trims ↦ trimmed-WritesAll offset x xs past (ground arith)
          | inr inside ↦
              Writes-cong (ground arith) refl (ap counted_before (ground arith)) (ground arith)
                (rw (past, inside))
                (write_from-Writes offset (x ∷ xs) default_outcome (ground arith) refl)
        ]
      ]
