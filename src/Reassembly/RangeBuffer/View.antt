-- ===== src/Reassembly/RangeBuffer/View.antt =====
-- What a `RangeBuffer` holds at each absolute offset, and when it is well formed.
use cyber_sentinel_ids_ips.Prelude.{
  ℕ, zero, suc, ◌+◌, ◌-◌, ◌≤◌, ◌<◌, ◌≡◌, refl, max, true, Option, none, some, List, [], ◌∷◌, length,
  replicate, get_elem?, if◌then◌else◌, arith, length-append, length-replicate,
  get_elem?-append_left,
}
use cyber_sentinel_ids_ips.Reassembly.RangeBuffer.{
  RangeBuffer, u64_max, new, grow, contiguous_end, buffered_bytes, sum_lengths,
}
use cyber_sentinel_ids_ips.Reassembly.RangeBuffer.Ranges.{
  covers, IsSorted, covers-lt, covers-ge, covers-first_end, not_covers-first_end, first_end_bounds,
}

-- The byte that is held for offset `x`.
abbrev pub byte_at : RangeBuffer → ℕ → Option ℕ
byte_at b x = if covers b.covered x then get_elem? b.content (x - b.base) else none

-- The ranges are sorted, apart and inside the stored bytes, and both caps hold.
pub record IsValid (b : RangeBuffer) : Type 0 where
  pub sorted : IsSorted b.base (b.base + length b.content) b.covered
  pub bytes_capped : length b.content ≤ b.byte_limit
  pub ranges_capped : length b.covered ≤ b.range_limit
  pub addressable : b.base + length b.content ≤ u64_max
  pub some_ranges : 0 < b.range_limit

-- A fresh buffer is well formed and holds nothing.
pub buffered_bytes-new :
    (base byte_limit range_limit : ℕ) → buffered_bytes (new base byte_limit range_limit) ≡ 0
unfolding buffered_bytes new sum_lengths
buffered_bytes-new base byte_limit range_limit = refl

pub base-new : (base byte_limit range_limit : ℕ) → (new base byte_limit range_limit).base ≡ base
unfolding new
base-new base byte_limit range_limit = refl

pub new-IsValid :
    (base byte_limit range_limit : ℕ) → base ≤ u64_max → IsValid (new base byte_limit range_limit)
unfolding new
new-IsValid base byte_limit range_limit h = record {
  sorted = tt;
  bytes_capped = omega arith;
  ranges_capped = omega arith;
  addressable = omega arith;
  some_ranges = omega arith;
}

pub covered_bounds :
    (b : RangeBuffer) (x : ℕ)
    → IsValid b
    → covers b.covered x ≡ true
    → (b.base ≤ x) × (x < b.base + length b.content)
covered_bounds b x v h = ground (
  arith,
  covers-lt b.covered b.base (b.base + length b.content) x v.sorted,
  covers-ge b.covered b.base (b.base + length b.content) x v.sorted,
)

pub get_elem?-some : (xs : List ℕ) (i : ℕ) → i < length xs → (y : ℕ) × (get_elem? xs i ≡ some y)
get_elem?-some [] i h = absurd (omega arith)
get_elem?-some (x ∷ xs) zero h = (x, refl)
get_elem?-some (x ∷ xs) (suc i) h = get_elem?-some xs i (omega arith)

-- There is a byte at each offset that is covered.
pub byte_at-some :
    (b : RangeBuffer) (x : ℕ)
    → IsValid b
    → covers b.covered x ≡ true
    → (y : ℕ) × (byte_at b x ≡ some y)
byte_at-some b x v h =
    let (y, e) = get_elem?-some b.content (x - b.base) (omega (arith, covered_bounds b x v h)) in
    (y, rw (h, e))

pub length-grow : (items : List ℕ) (n : ℕ) → length (grow items n) ≡ max (length items) n
unfolding grow
length-grow items n = omega (
  arith,
  length-append items (replicate (n - length items) 0),
  length-replicate {0} {A = ℕ} (n - length items) 0,
)

pub get_elem?-grow :
    (items : List ℕ) (n i : ℕ) → i < length items → get_elem? (grow items n) i ≡ get_elem? items i
unfolding grow
get_elem?-grow items n i h = get_elem?-append_left items (replicate (n - length items) 0) i h

-- From the window's start to the contiguous end every byte is there, and at that end none is.
pub contiguous_end_lem :
    (b : RangeBuffer)
    → IsValid b
    → (b.base ≤ contiguous_end b)
      × (contiguous_end b ≤ b.base + length b.content)
      × ((x : ℕ) → b.base ≤ x → x < contiguous_end b → covers b.covered x ≡ true)
      × (byte_at b (contiguous_end b) ≡ none)
unfolding contiguous_end
contiguous_end_lem b v =
    let hi : ℕ = b.base + length b.content in
    (
      (first_end_bounds b.covered b.base hi (omega arith) v.sorted).0,
      (first_end_bounds b.covered b.base hi (omega arith) v.sorted).1,
      λ x p q. covers-first_end b.covered b.base hi x v.sorted p q,
      rw (not_covers-first_end b.covered b.base hi v.sorted),
    )

-- The first offset at or past the window's start for which no byte is held.
pub record FirstMissing (b : RangeBuffer) (x : ℕ) : Type 0 where
  pub from : b.base ≤ x
  pub held : (y : ℕ) → b.base ≤ y → y < x → (v : ℕ) × (byte_at b y ≡ some v)
  pub missing : byte_at b x ≡ none

pub contiguous_end-FirstMissing : (b : RangeBuffer) → IsValid b → FirstMissing b (contiguous_end b)
contiguous_end-FirstMissing b v =
    let (from, _, covered, missing) = contiguous_end_lem b v in
    record { from = from; held = λ y p q. byte_at-some b y v (covered y p q); missing = missing }
