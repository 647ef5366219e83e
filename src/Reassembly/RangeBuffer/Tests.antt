-- ===== src/Reassembly/RangeBuffer/Tests.antt =====
-- `RangeBuffer` on concrete buffers.
use cyber_sentinel_ids_ips.Prelude.{ℕ, count_from, ◌≡◌, refl, some, List, [], ◌∷◌, arith}
use cyber_sentinel_ids_ips.Reassembly.RangeBuffer.{
  first, last, Range, RangeBuffer, WriteOutcome, write, drain_contiguous_upto, contiguous_end,
  copy_in, count_differing, slice, grow, fill_gap, overlap, replace, walk, fill_rest, write_into,
  write_kept, write_from, mark_covered, mark_loop, touches_existing, consume, retain_after,
}
use cyber_sentinel_ids_ips.Reassembly.RangeBuffer.View.{byte_at, IsValid}
use cyber_sentinel_ids_ips.Reassembly.RangeBuffer.Promise.{
  GoesIn, write-GoesIn, write-counts, write-conflicts, policies_agree,
}
use cyber_sentinel_ids_ips.Reassembly.RangeBuffer.Drain.{Drains, drain_contiguous_upto-Drains}

-- Offsets 2, 3 and 5 are held, 4 is a hole.
abbrev held : RangeBuffer
held = record {
  base = 2;
  content = 65 ∷ 66 ∷ 0 ∷ 68 ∷ [];
  covered = record { start = 2; end = 4 } ∷ record { start = 5; end = 6 } ∷ [];
  byte_limit = 8;
  range_limit = 4;
}

held-IsValid : IsValid held
held-IsValid = omega arith

abbrev joined : List Range
joined = record { start = 2; end = 7 } ∷ []

abbrev outcome_first : WriteOutcome
outcome_first = record {
  accepted = 2;
  overlapped = 3;
  conflicting = 1;
  replaced = 0;
  refused = 0;
  before_window = 1;
}

abbrev after_first : RangeBuffer
after_first = record held { content = 65 ∷ 66 ∷ 67 ∷ 68 ∷ 70 ∷ []; covered = joined }

-- A write of six bytes at offset 1, one byte behind the window, that disagrees at offset 5.
write_first :
    write held 1 (64 ∷ 65 ∷ 66 ∷ 67 ∷ 69 ∷ 70 ∷ []) first ≡ some (after_first, outcome_first)
unfolding write write_from write_kept write_into walk fill_gap overlap replace fill_rest copy_in
    count_differing grow mark_covered mark_loop touches_existing
write_first = refl

write_last :
    write held 1 (64 ∷ 65 ∷ 66 ∷ 67 ∷ 69 ∷ 70 ∷ []) last
    ≡ some (
      record held { content = 65 ∷ 66 ∷ 67 ∷ 69 ∷ 70 ∷ []; covered = joined },
      record outcome_first { replaced = 1 },
    )
unfolding write write_from write_kept write_into walk fill_gap overlap replace fill_rest copy_in
    count_differing grow mark_covered mark_loop touches_existing
write_last = refl

drain_joined :
    drain_contiguous_upto after_first 6 []
    ≡ some (
      record held { base = 6; content = 70 ∷ []; covered = record { start = 6; end = 7 } ∷ [] },
      65 ∷ 66 ∷ 67 ∷ 68 ∷ [],
      4,
    )
unfolding drain_contiguous_upto consume retain_after contiguous_end slice
drain_joined = refl

write-GoesIn_example : GoesIn held 1 (64 ∷ 65 ∷ 66 ∷ 67 ∷ 69 ∷ 70 ∷ []) last
write-GoesIn_example =
    write-GoesIn held 1 (64 ∷ 65 ∷ 66 ∷ 67 ∷ 69 ∷ 70 ∷ []) last held-IsValid (omega arith)

write-counts_example : (◌≡◌ {A = ℕ} 6 6) × (◌≡◌ {A = ℕ} 1 1)
write-counts_example =
    write-counts held 1 (64 ∷ 65 ∷ 66 ∷ 67 ∷ 69 ∷ 70 ∷ []) first after_first outcome_first
      held-IsValid (omega arith) (omega arith) write_first

write-conflicts_example : (outcome_first.conflicting ≡ 1) × (outcome_first.replaced ≡ 0)
unfolding touches_existing count_from
write-conflicts_example =
    write-conflicts held 1 (64 ∷ 65 ∷ 66 ∷ 67 ∷ 69 ∷ 70 ∷ []) first after_first outcome_first
      held-IsValid (omega arith) write_first

-- A write of the missing byte, with an agreeing neighbour on each side.
abbrev filled : RangeBuffer
filled = record held {
  content = 65 ∷ 66 ∷ 67 ∷ 68 ∷ [];
  covered = record { start = 2; end = 6 } ∷ [];
}

abbrev outcome_fill : WriteOutcome
outcome_fill = record {
  accepted = 1;
  overlapped = 2;
  conflicting = 0;
  replaced = 0;
  refused = 0;
  before_window = 0;
}

fill_first : write held 3 (66 ∷ 67 ∷ 68 ∷ []) first ≡ some (filled, outcome_fill)
unfolding write write_from write_kept write_into walk fill_gap overlap replace fill_rest copy_in
    count_differing grow mark_covered mark_loop touches_existing
fill_first = refl

fill_last : write held 3 (66 ∷ 67 ∷ 68 ∷ []) last ≡ some (filled, outcome_fill)
unfolding write write_from write_kept write_into walk fill_gap overlap replace fill_rest copy_in
    count_differing grow mark_covered mark_loop touches_existing
fill_last = refl

policies_agree_example : byte_at filled 4 ≡ byte_at filled 4
policies_agree_example =
    policies_agree held 3 (66 ∷ 67 ∷ 68 ∷ []) held-IsValid (omega arith) filled filled outcome_fill
      outcome_fill fill_first fill_last refl 4

after_first-IsValid : IsValid after_first
after_first-IsValid = omega arith

drain_contiguous_upto-Drains_example : Drains after_first 6 []
drain_contiguous_upto-Drains_example =
    drain_contiguous_upto-Drains after_first 6 [] after_first-IsValid
