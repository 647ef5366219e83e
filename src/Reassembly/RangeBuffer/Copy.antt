-- ===== src/Reassembly/RangeBuffer/Copy.antt =====
-- `copy_in` and `count_differing` of crates/reassembly/src/range_buffer.rs, byte by byte.
use cyber_sentinel_ids_ips.Prelude.{
  ℕ, suc, ◌+◌, ◌-◌, ◌≤◌, ◌<◌, ◌≡◌, ap, ◌∙◌, Bool, false, not, Option, none, some, List, [], ◌∷◌,
  ◌++◌, length, take, drop, get_elem?, ◌==◌, if◌then◌else◌, arith, length-append, length-take,
  length-drop, get_elem?-append_left, get_elem?-append_right, get_elem?-take_lt, get_elem?-drop,
  count_from, count_from-zero, count_from-suc,
}
use cyber_sentinel_ids_ips.Reassembly.RangeBuffer.{slice, copy_in, count_ne, count_differing}
use cyber_sentinel_ids_ips.Reassembly.RangeBuffer.Ranges.{within}

pub slice-eq_some :
    (items : List ℕ) (from to : ℕ)
    → from ≤ to
    → to ≤ length items
    → slice items from to ≡ some (take (to - from) (drop from items))
unfolding slice
slice-eq_some items from to h k = ground arith

pub length-slice :
    (items : List ℕ) (from to : ℕ)
    → from ≤ to
    → to ≤ length items
    → length (take (to - from) (drop from items)) ≡ to - from
length-slice items from to h k =
    omega (arith, length-take (to - from) (drop from items), length-drop from items)

pub get_elem?-slice :
    (items : List ℕ) (from to i j : ℕ)
    → j ≡ from + i
    → j < to
    → get_elem? (take (to - from) (drop from items)) i ≡ get_elem? items j
get_elem?-slice items from to i j e h =
    get_elem?-take_lt (to - from) (drop from items) i (omega arith)
    ∙ get_elem?-drop from items i j e

-- `source` written over `content` from index `a` to index `b`.
splice-get_elem? :
    (content source : List ℕ) (a b i : ℕ)
    → a ≤ b
    → b ≤ length content
    → length source ≡ b - a
    → get_elem? (take a content ++ (source ++ drop b content)) i
      ≡ (if within a b i then get_elem? source (i - a) else get_elem? content i)
splice-get_elem? content source a b i h k l = ground (
  arith,
  length-take a content,
  get_elem?-append_left (take a content) (source ++ drop b content) i,
  get_elem?-take_lt a content i,
  get_elem?-append_right (take a content) (source ++ drop b content) i (i - a),
  get_elem?-append_left source (drop b content) (i - a),
  get_elem?-append_right source (drop b content) (i - a) (i - b),
  get_elem?-drop b content (i - b) i,
)

-- The loop's constants, as in `RangeBuffer`.
module _ (base offset : ℕ) (bytes : List ℕ) where
  -- What a copy of `[from, to)` leaves: the same size, the write's bytes there, the old elsewhere.
  pub record Copied (from to : ℕ) (old new : List ℕ) : Type 0 where
    pub size : length new ≡ length old
    pub at :
        (i : ℕ)
        → get_elem? new i ≡ (
            if within from to (base + i)
            then get_elem? bytes (base + i - offset)
            else get_elem? old i)

  pub copy_in-Copied :
      (from to : ℕ) (content : List ℕ)
      → base ≤ offset
      → offset ≤ from
      → from ≤ to
      → to - offset ≤ length bytes
      → to - base ≤ length content
      → (new : List ℕ) × (copy_in base from to offset bytes content ≡ some new)
        × Copied from to content new
  unfolding copy_in
  copy_in-Copied from to content h a b c d = (
    take (from - base) content ++ (source ++ drop (to - base) content),
    ground (
      arith,
      slice-eq_some bytes (from - offset) (to - offset),
      slice-eq_some content (from - base) (to - base),
    ),
    record {
      size = ground (
        arith,
        length-append (take (from - base) content) (source ++ drop (to - base) content),
        length-append source (drop (to - base) content),
        length-take (from - base) content,
        length-drop (to - base) content,
        length-slice bytes (from - offset) (to - offset),
      );
      at = λ i. ground (
        arith,
        splice-get_elem? content source (from - base) (to - base) i,
        length-slice bytes (from - offset) (to - offset),
        get_elem?-slice bytes (from - offset) (to - offset) (i - (from - base)) (base + i - offset),
      );
    },
  )
    where
      source : List ℕ
      source = take ((to - offset) - (from - offset)) (drop (from - offset) bytes)

-- Whether two bytes are there and disagree.
abbrev pub differ : Option ℕ → Option ℕ → Bool
differ none y = false
differ (some x) none = false
differ (some x) (some y) = not (x == y)

-- `count_ne` of two lists, index by index, at any numbering of the indices.
count_ne-eq_count :
    (xs ys : List ℕ) (from : ℕ) (p : ℕ → Bool)
    → length xs ≡ length ys
    → ((i : ℕ) → i < length xs → p (from + i) ≡ differ (get_elem? xs i) (get_elem? ys i))
    → count_ne xs ys ≡ count_from p from (length xs)
unfolding count_ne
count_ne-eq_count [] ys from p l h = omega (arith, count_from-zero p from)
count_ne-eq_count (x ∷ xs) [] from p l h = absurd (omega arith)
count_ne-eq_count (x ∷ xs) (y ∷ ys) from p l h = ground (
  arith,
  h 0,
  count_from-suc p from (length xs),
  count_ne-eq_count xs ys (from + 1) p (omega arith) (λ i lt.
      ap p (let e : from + 1 + i ≡ from + suc i = omega arith in e) ∙ h (suc i) (omega arith)),
)

module _ (base offset : ℕ) (bytes : List ℕ) where
  -- Whether the buffered and the written byte at absolute offset `x` disagree.
  abbrev pub differs_at : List ℕ → ℕ → Bool
  differs_at content x = differ (get_elem? content (x - base)) (get_elem? bytes (x - offset))

  pub count_differing-eq_count :
      (from to : ℕ) (content : List ℕ)
      → base ≤ offset
      → offset ≤ from
      → from ≤ to
      → to - offset ≤ length bytes
      → to - base ≤ length content
      → count_differing base from to offset bytes content
        ≡ some (count_from (differs_at content) from (to - from))
  unfolding count_differing
  count_differing-eq_count from to content h a b c d = ground (
    arith,
    slice-eq_some bytes (from - offset) (to - offset),
    slice-eq_some content (from - base) (to - base),
    length-slice bytes (from - offset) (to - offset),
    length-slice content (from - base) (to - base),
    count_ne-eq_count existing incoming from (differs_at content) same_length pointwise,
  )
    where
      incoming : List ℕ
      incoming = take ((to - offset) - (from - offset)) (drop (from - offset) bytes)

      existing : List ℕ
      existing = take ((to - base) - (from - base)) (drop (from - base) content)

      same_length : length existing ≡ length incoming
      same_length = omega (
        arith,
        length-slice bytes (from - offset) (to - offset) (omega arith) c,
        length-slice content (from - base) (to - base) (omega arith) d,
      )

      pointwise :
          (i : ℕ)
          → i < length existing
          → differs_at content (from + i) ≡ differ (get_elem? existing i) (get_elem? incoming i)
      pointwise i lt =
          let short : i < (to - base) - (from - base) =
            omega (arith, length-slice content (from - base) (to - base) (omega arith) d) in
          rw (
            get_elem?-slice content (from - base) (to - base) i (from + i - base) (omega arith)
                (omega arith),
            get_elem?-slice bytes (from - offset) (to - offset) i (from + i - offset) (omega arith)
                (omega arith),
          )
