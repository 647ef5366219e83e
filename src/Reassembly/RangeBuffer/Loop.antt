-- ===== src/Reassembly/RangeBuffer/Loop.antt =====
-- The loop of `RangeBuffer::write` in crates/reassembly/src/range_buffer.rs.
use cyber_sentinel_ids_ips.Prelude.{
  ℕ, ◌+◌, ◌-◌, ◌≤◌, ◌<◌, ◌≡◌, refl, ap, min, max, ◌&&◌, not, some, List, [], ◌∷◌, length, get_elem?,
  ltb, leb, if◌then◌else◌, arith, ◌>>=◌, Bool-cases, >>=-chain, inl, inr, count_from,
  count_from-ext, count_from_none,
}
use cyber_sentinel_ids_ips.Reassembly.RangeBuffer.{
  OverlapPolicy, first, last, Range, Walk, replaced_by, fill_gap, overlap, walk, fill_rest, replace,
  copy_in,
}
use cyber_sentinel_ids_ips.Reassembly.RangeBuffer.Stepped.{
  keeps, clashes, Stepped-refl, Stepped-trans, Stepped-see, InRange, InRange-step, Reaches, gap_to,
}
use cyber_sentinel_ids_ips.Reassembly.RangeBuffer.Ranges.{within, covers, IsSorted, covers-lt}
use cyber_sentinel_ids_ips.Reassembly.RangeBuffer.Copy.{
  copy_in-Copied, differs_at, count_differing-eq_count,
}

replaced_by-add :
    (p : OverlapPolicy) (a b c : ℕ)
    → c + replaced_by p b + replaced_by p a ≡ c + replaced_by p (a + b)
replaced_by-add first a b c = omega arith
replaced_by-add last a b c = omega arith

module _ (base offset end : ℕ) (bytes : List ℕ) (policy : OverlapPolicy) where
  -- A copy of an uncovered stretch.
  copied_step :
      (to : ℕ) (w : Walk)
      → InRange base offset end bytes policy w
      → w.cursor ≤ to
      → to ≤ end
      → Reaches base offset end bytes policy [] to w (
          copy_in base w.cursor to offset bytes w.content >>= λ content. some (record {
            cursor = to;
            content = content;
            outcome = record (w.outcome) { accepted = w.outcome.accepted + (to - w.cursor) };
          }))
  copied_step to w v a b =
      let (new, e, c) =
        copy_in-Copied base offset bytes w.cursor to w.content v.window v.here a (omega arith)
          (omega arith) in
      (
        record {
          cursor = to;
          content = new;
          outcome = record (w.outcome) { accepted = w.outcome.accepted + (to - w.cursor) };
        },
        rw e,
        record {
          cursor = refl;
          size = c.size;
          at = λ i. ground (arith, c.at i);
          total = omega arith;
          conflicts = omega (
            arith,
            count_from_none (clashes base offset end bytes policy [] w.content) w.cursor
                (to - w.cursor) (λ x p q. refl),
          );
          replaces = refl;
          refused = refl;
          before_window = refl;
        },
      )

  fill_gap-Reaches :
      (r : Range) (w : Walk)
      → InRange base offset end bytes policy w
      → Reaches base offset end bytes policy []
          (gap_to base offset end bytes policy r w)
          w
          (fill_gap base offset end bytes policy r w)
  unfolding fill_gap
  fill_gap-Reaches r w v = elim (Bool-cases (ltb w.cursor r.start)) [
    | inl gap ↦
        let to : gap_to base offset end bytes policy r w ≡ min r.start end = ground arith in
        rw (gap, to) (copied_step (min r.start end) w v (ground arith) (omega arith))
    | inr covered ↦
        let to : gap_to base offset end bytes policy r w ≡ w.cursor = ground arith in
        rw (covered, to)
          (w, refl, Stepped-refl base offset end bytes policy [] w.cursor w.cursor w refl refl)
  ]

  fill_rest-Reaches :
      (w : Walk)
      → InRange base offset end bytes policy w
      → Reaches base offset end bytes policy [] end w (fill_rest base offset end bytes policy w)
  unfolding fill_rest
  fill_rest-Reaches w v = elim (Bool-cases (ltb w.cursor end)) [
    | inl more ↦ rw more (copied_step end w v (omega arith) (omega arith))
    | inr done ↦
        let here : w.cursor ≡ end = ground arith in
        rw done (w, refl, Stepped-refl base offset end bytes policy [] w.cursor end w here here)
  ]

  -- The content after the overlap, by policy.
  replace-at :
      (p : OverlapPolicy) (r : Range) (w : Walk) (to : ℕ)
      → InRange base offset end bytes policy w
      → r.start ≤ w.cursor
      → w.cursor ≤ to
      → to ≤ r.end
      → to ≤ end
      → (new : List ℕ) × (replace base offset end bytes policy p w.cursor to w.content ≡ some new)
        × (length new ≡ length w.content)
        × ((i : ℕ)
            → get_elem? new i ≡ (
                if within w.cursor to (base + i) && not (keeps p && covers (r ∷ []) (base + i))
                then get_elem? bytes (base + i - offset)
                else get_elem? w.content i))
  unfolding replace
  replace-at first r w to v a b c d = (w.content, refl, refl, λ i. ground arith)
  replace-at last r w to v a b c d =
      let (new, e, k) =
        copy_in-Copied base offset bytes w.cursor to w.content v.window v.here b (omega arith)
          (omega arith) in
      (new, e, k.size, λ i. ground (arith, k.at i))

  abbrev pub overlap_to : Range → Walk → ℕ
  overlap_to r w = max w.cursor (min r.end end)

  clash_here :
      (r : Range) (w : Walk) (to : ℕ)
      → r.start ≤ w.cursor
      → to ≤ r.end
      → w.cursor ≤ to
      → count_from (differs_at base offset bytes w.content) w.cursor (to - w.cursor)
        ≡ count_from
            (clashes base offset end bytes policy (r ∷ []) w.content)
            w.cursor
            (to - w.cursor)
  clash_here r w to a b c =
      count_from-ext (differs_at base offset bytes w.content)
        (clashes base offset end bytes policy (r ∷ []) w.content) w.cursor (to - w.cursor)
        (λ x p q. ground arith)

  overlap-Reaches :
      (r : Range) (w : Walk)
      → InRange base offset end bytes policy w
      → r.start ≤ w.cursor
      → Reaches base offset end bytes policy
          (r ∷ [])
          (overlap_to r w)
          w
          (overlap base offset end bytes policy r w)
  unfolding overlap
  overlap-Reaches r w v a = elim (Bool-cases (ltb w.cursor (min r.end end))) [
    | inl more ↦
        let to : overlap_to r w ≡ min r.end end = ground arith in
        let lt : w.cursor < min r.end end = ground arith in
        let (new, e, size, at) =
          replace-at policy r w (min r.end end) v a (omega arith) (omega arith) (omega arith) in
        let counted =
          count_differing-eq_count base offset bytes w.cursor (min r.end end) w.content v.window
            v.here (omega arith) (omega arith) (omega arith) in
        rw (more, to, counted, e)
          (
            _,
            refl,
            record {
              cursor = refl;
              size = size;
              at = at;
              total = omega arith;
              conflicts =
                  ap (λ k. w.outcome.conflicting + k)
                    (clash_here r w (min r.end end) a (omega arith) (omega arith));
              replaces = replaced_by-add policy w.outcome.conflicting _ w.outcome.replaced;
              refused = refl;
              before_window = refl;
            },
          )
    | inr done ↦
        let to : overlap_to r w ≡ w.cursor = ground arith in
        rw (done, to)
          (
            w,
            refl,
            Stepped-refl base offset end bytes policy (r ∷ []) w.cursor w.cursor w refl refl,
          )
  ]

  -- One range: the gap before it and what it covers.
  range-Reaches :
      (r : Range) (w : Walk)
      → InRange base offset end bytes policy w
      → r.start < end
      → r.start < r.end
      → w.cursor < r.end
      → Reaches base offset end bytes policy
          (r ∷ [])
          (min r.end end)
          w
          (fill_gap base offset end bytes policy r w >>= overlap base offset end bytes policy r)
  range-Reaches r w v a k b =
      let (w', e, s) = fill_gap-Reaches r w v in
      let v' =
        InRange-step base offset end bytes policy [] (gap_to base offset end bytes policy r w) w w'
          v (omega arith) (omega arith) s in
      let (w'', e', s') = overlap-Reaches r w' v' (omega (arith, s.cursor)) in
      let to : overlap_to r w' ≡ min r.end end = omega (arith, s.cursor) in
      rw (e, e', ← to)
        (
          w'',
          refl,
          Stepped-trans base offset end bytes policy [] (r ∷ []) (r ∷ []) w.cursor
              (gap_to base offset end bytes policy r w) (overlap_to r w') w w' w'' (omega arith)
              (omega arith) (omega (arith, s.cursor)) (λ x p q. ground arith) (λ x p q. refl) s s',
        )

  -- From any point of a write that is in range, the loop and what follows it end without a panic,
  -- at the end of the write.
  pub walk-Reaches :
      (rs : List Range) (lo hi : ℕ) (w : Walk)
      → IsSorted lo hi rs
      → InRange base offset end bytes policy w
      → Reaches base offset end bytes policy rs end w
          (walk base offset end bytes policy rs w >>= fill_rest base offset end bytes policy)
  unfolding walk
  walk-Reaches [] lo hi w s v = fill_rest-Reaches w v
  walk-Reaches (r ∷ rs) lo hi w s v = elim (Bool-cases (leb r.end w.cursor)) [
    | inl behind ↦
        let (w', e, t) = walk-Reaches rs (r.end + 1) hi w s.3 v in
        rw behind (
          w',
          e,
          Stepped-see base offset end bytes policy rs (r ∷ rs) end w w' (omega arith) (omega arith)
              (λ x p q. ground arith) t,
        )
    | inr not_behind ↦ elim (Bool-cases (leb end r.start)) [
      | inl past ↦
          let (w', e, t) = fill_rest-Reaches w v in
          rw (not_behind, past)
            (
              w',
              e,
              Stepped-see base offset end bytes policy [] (r ∷ rs) end w w' (omega arith)
                  (omega arith) (λ x p q. ground (arith, covers-lt rs (r.end + 1) hi x s.3)) t,
            )
      | inr meets ↦
          let lt : w.cursor < r.end = ground arith in
          let (w', e, t) = range-Reaches r w v (ground arith) s.1 lt in
          let v' =
            InRange-step base offset end bytes policy (r ∷ []) (min r.end end) w w' v (omega arith)
              (omega arith) t in
          let (w'', e', t') = walk-Reaches rs (r.end + 1) hi w' s.3 v' in
          rw
            (
              not_behind,
              meets,
              >>=-chain (fill_gap base offset end bytes policy r w)
                  (overlap base offset end bytes policy r) (walk base offset end bytes policy rs) e,
            )
            (
              w'',
              e',
              Stepped-trans base offset end bytes policy (r ∷ []) rs (r ∷ rs) w.cursor
                  (min r.end end) end w w' w'' (omega arith) (omega arith) (omega arith)
                  (λ x p q. ground (arith, covers-lt rs (r.end + 1) hi x s.3))
                  (λ x p q. ground arith) t t',
            )
    ]
  ]
