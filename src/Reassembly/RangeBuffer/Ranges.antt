-- ===== src/Reassembly/RangeBuffer/Ranges.antt =====
-- The list of covered ranges of range_buffer.rs: which offsets it covers, and what merging and
-- clamping do to it.
use cyber_sentinel_ids_ips.Prelude.{
  ℕ, ◌+◌, ◌≤◌, ◌<◌, ◌≡◌, refl, min, max, Bool, true, false, ◌&&◌, ◌||◌, List, [], ◌∷◌, length, any,
  ltb, leb, arith, inl, inr, Bool-cases,
}
use cyber_sentinel_ids_ips.Reassembly.RangeBuffer.{
  Range, touches, touches_existing, mark_loop, mark_covered, retain_after, first_end,
}

abbrev pub within : ℕ → ℕ → ℕ → Bool
within start end x = leb start x && ltb x end

-- Whether an offset is covered.
abbrev pub covers : List Range → ℕ → Bool
covers [] x = false
covers (r ∷ rs) x = within r.start r.end x || covers rs x

-- Sorted, disjoint, not touching, not empty, and between `lo` and `hi`.
abbrev pub IsSorted : ℕ → ℕ → List Range → Type 0
IsSorted lo hi [] = Unit
IsSorted lo hi (r ∷ rs) =
    (lo ≤ r.start) × (r.start < r.end) × (r.end ≤ hi) × IsSorted (r.end + 1) hi rs

pub IsSorted-mono :
    (rs : List Range) (lo lo' hi hi' : ℕ)
    → lo' ≤ lo
    → hi ≤ hi'
    → IsSorted lo hi rs
    → IsSorted lo' hi' rs
IsSorted-mono [] lo lo' hi hi' h k s = tt
IsSorted-mono (r ∷ rs) lo lo' hi hi' h k s = (
  omega arith,
  s.1,
  omega arith,
  IsSorted-mono rs (r.end + 1) (r.end + 1) hi hi' (omega arith) k s.3,
)

pub covers-lt : (rs : List Range) (lo hi x : ℕ) → IsSorted lo hi rs → x < lo → covers rs x ≡ false
covers-lt [] lo hi x s h = refl
covers-lt (r ∷ rs) lo hi x s h = ground (arith, covers-lt rs (r.end + 1) hi x)

pub covers-ge : (rs : List Range) (lo hi x : ℕ) → IsSorted lo hi rs → hi ≤ x → covers rs x ≡ false
covers-ge [] lo hi x s h = refl
covers-ge (r ∷ rs) lo hi x s h = ground (arith, covers-ge rs (r.end + 1) hi x)

-- Once the merged range is out, what is left of a sorted list passes unchanged.
mark_loop-inserted :
    (rs : List Range) (m : Range) (lo hi : ℕ)
    → IsSorted lo hi rs
    → m.end < lo
    → mark_loop rs m true ≡ rs
unfolding mark_loop
mark_loop-inserted [] m lo hi s h = refl
mark_loop-inserted (r ∷ rs) m lo hi s h = ground (arith, mark_loop-inserted rs m (r.end + 1) hi)

covers-mark_loop :
    (rs : List Range) (m : Range) (lo hi x : ℕ)
    → IsSorted lo hi rs
    → m.start < m.end
    → covers (mark_loop rs m false) x ≡ (within m.start m.end x || covers rs x)
unfolding mark_loop
covers-mark_loop [] m lo hi x s h = ground arith
covers-mark_loop (r ∷ rs) m lo hi x s h = ground (
  arith,
  mark_loop-inserted rs m (r.end + 1) hi,
  covers-mark_loop rs m (r.end + 1) hi x,
  covers-mark_loop rs (record { start = min m.start r.start; end = max m.end r.end }) (r.end + 1) hi
      x,
)

mark_loop-IsSorted :
    (rs : List Range) (m : Range) (lo hi : ℕ)
    → IsSorted lo hi rs
    → lo ≤ m.start
    → m.start < m.end
    → m.end ≤ hi
    → IsSorted lo hi (mark_loop rs m false)
unfolding mark_loop
mark_loop-IsSorted [] m lo hi s a b c = ground arith
mark_loop-IsSorted (r ∷ rs) m lo hi s a b c = elim (Bool-cases (ltb r.end m.start)) [
  | inl before ↦
      rw before (s.0, s.1, s.2, mark_loop-IsSorted rs m (r.end + 1) hi s.3 (ground arith) b c)
  | inr not_before ↦ rw not_before (elim (Bool-cases (ltb m.end r.start)) [
    | inl after ↦
        rw (after, mark_loop-inserted rs m (r.end + 1) hi s.3 (ground arith))
          (a, b, c, (ground arith, s.1, s.2, s.3))
    | inr touching ↦ rw touching (
        mark_loop-IsSorted rs (record { start = min m.start r.start; end = max m.end r.end }) lo hi
          (IsSorted-mono rs (r.end + 1) lo hi hi (omega arith) (omega arith) s.3) (omega arith)
          (omega arith) (omega arith))
  ])
]

length-mark_loop_inserted : (rs : List Range) (m : Range) → length (mark_loop rs m true) ≤ length rs
unfolding mark_loop
length-mark_loop_inserted [] m = omega arith
length-mark_loop_inserted (r ∷ rs) m = ground (
  arith,
  length-mark_loop_inserted rs m,
  length-mark_loop_inserted rs (record { start = min m.start r.start; end = max m.end r.end }),
)

touches-lt :
    (rs : List Range) (lo hi start end : ℕ)
    → IsSorted lo hi rs
    → end < lo
    → any (touches start end) rs ≡ false
unfolding touches
touches-lt [] lo hi start end s h = refl
touches-lt (r ∷ rs) lo hi start end s h = ground (arith, touches-lt rs (r.end + 1) hi start end)

-- A merge adds at most one range, and none where the new range touches one that is there.
length-mark_loop :
    (rs : List Range) (m : Range) (lo hi : ℕ)
    → IsSorted lo hi rs
    → (length (mark_loop rs m false) ≤ length rs + 1)
      × (touches_existing rs m.start m.end ≡ true → length (mark_loop rs m false) ≤ length rs)
unfolding mark_loop touches_existing touches
length-mark_loop [] m lo hi s = (omega arith, λ h. cc)
length-mark_loop (r ∷ rs) m lo hi s =
    let absorbed : Range = record { start = min m.start r.start; end = max m.end r.end } in
    (
      ground (
        arith,
        length-mark_loop_inserted rs m,
        (length-mark_loop rs m (r.end + 1) hi s.3).0,
        (length-mark_loop rs absorbed (r.end + 1) hi s.3).0,
      ),
      λ h. ground (
        arith,
        length-mark_loop_inserted rs m,
        (length-mark_loop rs m (r.end + 1) hi s.3).1,
        touches-lt rs (r.end + 1) hi m.start m.end,
        (length-mark_loop rs absorbed (r.end + 1) hi s.3).0,
      ),
    )

module _ (rs : List Range) (lo hi start end : ℕ) (s : IsSorted lo hi rs) where
  pub covers-mark_covered :
      (x : ℕ)
      → start < end
      → covers (mark_covered rs start end) x ≡ (within start end x || covers rs x)
  unfolding mark_covered
  covers-mark_covered x h = covers-mark_loop rs (record { start = start; end = end }) lo hi x s h

  pub mark_covered-IsSorted :
      lo ≤ start → start < end → end ≤ hi → IsSorted lo hi (mark_covered rs start end)
  unfolding mark_covered
  mark_covered-IsSorted a b c =
      mark_loop-IsSorted rs (record { start = start; end = end }) lo hi s a b c

  pub length-mark_covered :
      (length (mark_covered rs start end) ≤ length rs + 1)
      × (touches_existing rs start end ≡ true → length (mark_covered rs start end) ≤ length rs)
  unfolding mark_covered
  length-mark_covered = length-mark_loop rs (record { start = start; end = end }) lo hi s

pub covers-retain_after :
    (rs : List Range) (base x : ℕ) → covers (retain_after base rs) x ≡ (leb base x && covers rs x)
unfolding retain_after
covers-retain_after [] base x = ground arith
covers-retain_after (r ∷ rs) base x = ground (arith, covers-retain_after rs base x)

pub length-retain_after : (rs : List Range) (base : ℕ) → length (retain_after base rs) ≤ length rs
unfolding retain_after
length-retain_after [] base = omega arith
length-retain_after (r ∷ rs) base = ground (arith, length-retain_after rs base)

pub retain_after-IsSorted :
    (rs : List Range) (base lo hi : ℕ)
    → IsSorted lo hi rs
    → IsSorted (max base lo) hi (retain_after base rs)
unfolding retain_after
retain_after-IsSorted [] base lo hi s = tt
retain_after-IsSorted (r ∷ rs) base lo hi s = elim (Bool-cases (ltb base r.end)) [
  | inl past ↦ rw past (
    omega arith,
    ground arith,
    s.2,
    IsSorted-mono (retain_after base rs) (max base (r.end + 1)) (r.end + 1) hi hi (omega arith)
        (omega arith) (retain_after-IsSorted rs base (r.end + 1) hi s.3),
  )
  | inr gone ↦ rw gone (
      IsSorted-mono (retain_after base rs) (max base (r.end + 1)) (max base lo) hi hi (omega arith)
        (omega arith) (retain_after-IsSorted rs base (r.end + 1) hi s.3))
]

-- The contiguous end is exactly where coverage from the window's start breaks off.
pub covers-first_end :
    (rs : List Range) (base hi x : ℕ)
    → IsSorted base hi rs
    → base ≤ x
    → x < first_end base rs
    → covers rs x ≡ true
unfolding first_end
covers-first_end [] base hi x s a b = absurd (omega arith)
covers-first_end (r ∷ rs) base hi x s a b = ground arith

pub not_covers-first_end :
    (rs : List Range) (base hi : ℕ) → IsSorted base hi rs → covers rs (first_end base rs) ≡ false
unfolding first_end
not_covers-first_end [] base hi s = refl
not_covers-first_end (r ∷ rs) base hi s =
    ground (arith, covers-lt rs (r.end + 1) hi base, covers-lt rs (r.end + 1) hi r.end)

pub first_end_bounds :
    (rs : List Range) (base hi : ℕ)
    → base ≤ hi
    → IsSorted base hi rs
    → (base ≤ first_end base rs) × (first_end base rs ≤ hi)
unfolding first_end
first_end_bounds [] base hi h s = (omega arith, h)
first_end_bounds (r ∷ rs) base hi h s = (ground arith, ground arith)
