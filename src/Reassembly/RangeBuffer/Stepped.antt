-- ===== src/Reassembly/RangeBuffer/Stepped.antt =====
-- What the loop of `RangeBuffer::write` does over a stretch of offsets, to every byte and to every
-- counter, and how stretches join.
use mathlib.Core.Path.{subst}
use cyber_sentinel_ids_ips.Prelude.{
  ℕ, ◌+◌, ◌-◌, ◌≤◌, ◌<◌, ◌≡◌, refl, ap, ap₂, ◌∙◌, min, max, Bool, true, false, ◌&&◌, not, Option,
  some, List, length, get_elem?, if◌then◌else◌, arith, count_from, count_from-zero,
  count_from-append, count_from-ext,
}
use cyber_sentinel_ids_ips.Reassembly.RangeBuffer.{
  OverlapPolicy, first, last, Range, Walk, replaced_by,
}
use cyber_sentinel_ids_ips.Reassembly.RangeBuffer.Ranges.{within, covers}
use cyber_sentinel_ids_ips.Reassembly.RangeBuffer.Copy.{differ, differs_at}

-- Whether the policy keeps a byte that is already there.
abbrev pub keeps : OverlapPolicy → Bool
keeps first = true
keeps last = false

module _ (base offset end : ℕ) (bytes : List ℕ) (policy : OverlapPolicy) where
  -- The offsets of `rs` at which the buffered and the written byte disagree.
  abbrev pub clashes : List Range → List ℕ → ℕ → Bool
  clashes rs content x = covers rs x && differs_at base offset bytes content x

  -- Going over `[from, to)`, of which `rs` is covered.
  pub record Stepped (rs : List Range) (from to : ℕ) (old new : Walk) : Type 0 where
    pub cursor : new.cursor ≡ to
    pub size : length new.content ≡ length old.content
    pub at :
        (i : ℕ)
        → get_elem? new.content i ≡ (
            if within from to (base + i) && not (keeps policy && covers rs (base + i))
            then get_elem? bytes (base + i - offset)
            else get_elem? old.content i)
    pub total :
        new.outcome.accepted + new.outcome.overlapped + from
        ≡ old.outcome.accepted + old.outcome.overlapped + to
    pub conflicts :
        new.outcome.conflicting
        ≡ old.outcome.conflicting + count_from (clashes rs old.content) from (to - from)
    pub replaces :
        new.outcome.replaced + replaced_by policy old.outcome.conflicting
        ≡ old.outcome.replaced + replaced_by policy new.outcome.conflicting
    pub refused : new.outcome.refused ≡ old.outcome.refused
    pub before_window : new.outcome.before_window ≡ old.outcome.before_window

  pub Stepped-refl :
      (rs : List Range) (a c : ℕ) (w : Walk) → w.cursor ≡ c → a ≡ c → Stepped rs a c w w
  Stepped-refl rs a c w e f = record {
    cursor = e;
    size = refl;
    at = λ i. ground arith;
    total = omega arith;
    conflicts = ground (arith, count_from-zero (clashes rs w.content) a);
    replaces = refl;
    refused = refl;
    before_window = refl;
  }

  -- One stretch after another, where each sees of `rs` what is in it.
  pub Stepped-trans :
      (rs₁ rs₂ rs : List Range) (a b c : ℕ) (w w' w'' : Walk)
      → base ≤ a
      → a ≤ b
      → b ≤ c
      → ((x : ℕ) → a ≤ x → x < b → covers rs₁ x ≡ covers rs x)
      → ((x : ℕ) → b ≤ x → x < c → covers rs₂ x ≡ covers rs x)
      → Stepped rs₁ a b w w'
      → Stepped rs₂ w'.cursor c w' w''
      → Stepped rs a c w w''
  Stepped-trans rs₁ rs₂ rs a b c w w' w'' h k l see₁ see₂ s from_cursor = record {
    cursor = t.cursor;
    size = t.size ∙ s.size;
    at = λ i. ground (arith, s.at i, t.at i, see₁ (base + i), see₂ (base + i));
    total = omega (arith, s.total, t.total);
    conflicts = omega (
      arith,
      s.conflicts,
      t.conflicts,
      count_from-ext (clashes rs₁ w.content) (clashes rs w.content) a (b - a) seen₁,
      count_from-ext (clashes rs₂ w'.content) (clashes rs w.content) b (c - b) seen₂,
      count_from-append (clashes rs w.content) (b - a) (c - b) a b (c - a) (omega arith)
          (omega arith),
    );
    replaces = ground (arith, s.replaces, t.replaces, s.conflicts, t.conflicts);
    refused = t.refused ∙ s.refused;
    before_window = t.before_window ∙ s.before_window;
  }
    where
      seen₁ : (x : ℕ) → a ≤ x → x < a + (b - a) → clashes rs₁ w.content x ≡ clashes rs w.content x
      seen₁ x p q = ap (λ u. u && differs_at base offset bytes w.content x) (see₁ x p (omega arith))

      t : Stepped rs₂ b c w' w''
      t = subst (λ k. Stepped rs₂ k c w' w'') s.cursor from_cursor

      same : (x : ℕ) → b ≤ x → get_elem? w'.content (x - base) ≡ get_elem? w.content (x - base)
      same x p = ground (arith, s.at (x - base))

      seen₂ : (x : ℕ) → b ≤ x → x < b + (c - b) → clashes rs₂ w'.content x ≡ clashes rs w.content x
      seen₂ x p q =
          ap₂ (λ u v. u && differ v (get_elem? bytes (x - offset))) (see₂ x p (omega arith))
            (same x p)

  -- Where the loop's variables stand: everything in range.
  pub record InRange (w : Walk) : Type 0 where
    pub window : base ≤ offset
    pub here : offset ≤ w.cursor
    pub within_write : w.cursor ≤ end
    pub source : end - offset ≤ length bytes
    pub target : end - base ≤ length w.content

  -- A result that is there, and steps to `to`.
  abbrev pub Reaches : List Range → ℕ → Walk → Option Walk → Type 0
  Reaches rs to w r = (w' : Walk) × (r ≡ some w') × Stepped rs w.cursor to w w'

  abbrev pub gap_to : Range → Walk → ℕ
  gap_to r w = max w.cursor (min r.start end)

  -- The same stretch, with another list that covers the same of it.
  pub Stepped-see :
      (rs rs' : List Range) (to : ℕ) (w w' : Walk)
      → base ≤ w.cursor
      → w.cursor ≤ to
      → ((x : ℕ) → w.cursor ≤ x → x < to → covers rs x ≡ covers rs' x)
      → Stepped rs w.cursor to w w'
      → Stepped rs' w.cursor to w w'
  Stepped-see rs rs' to w w' a b see s =
      Stepped-trans rs rs rs' w.cursor w.cursor to w w w' a (omega arith) b
        (λ x p q. absurd (omega arith)) see (Stepped-refl rs w.cursor w.cursor w refl refl) s

  pub InRange-step :
      (rs : List Range) (to : ℕ) (w w' : Walk)
      → InRange w
      → w.cursor ≤ to
      → to ≤ end
      → Stepped rs w.cursor to w w'
      → InRange w'
  InRange-step rs to w w' v a b s = record {
    window = v.window;
    here = omega (arith, s.cursor);
    within_write = omega (arith, s.cursor);
    source = v.source;
    target = omega (arith, s.size);
  }
