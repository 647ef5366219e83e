-- ===== src/Applayer/Http/Chunks.antt =====
-- `HttpParser::push` of crates/applayer/src/http.rs on a stream in pieces.
use mathlib.Core.Path.{subst}
use cyber_sentinel_ids_ips.Prelude.{
  ℕ, zero, suc, ◌+◌, ◌-◌, ◌≤◌, ◌<◌, ◌≡◌, refl, sym, ap, ◌∙◌, false, Option, none, some, List, [],
  ◌∷◌, ◌++◌, length, take, drop, arith, Bool-cases, Option-cases, inl, inr, length-append,
  length-drop, append_assoc,
}
use cyber_sentinel_ids_ips.Reassembly.Normalize.{NormalizeOptions}
use cyber_sentinel_ids_ips.Applayer.Http.{
  HttpParser, HttpRequest, find_head_end, parse_head, give_up, counted, take_head, read_heads, push,
}
use cyber_sentinel_ids_ips.Applayer.Http.Head.{HeadEnd, find_head_end-HeadEnd}

-- The parser with more bytes behind those that it holds.
abbrev pub with_more : HttpParser → List ℕ → HttpParser
with_more p more = record p { buffer = p.buffer ++ more }

take-append : (n : ℕ) (xs ys : List ℕ) → n ≤ length xs → take n (xs ++ ys) ≡ take n xs
take-append zero xs ys h = refl
take-append (suc n) [] ys h = absurd (omega arith)
take-append (suc n) (x ∷ xs) ys h = ap (λ r. x ∷ r) (take-append n xs ys (omega arith))

drop-append : (n : ℕ) (xs ys : List ℕ) → n ≤ length xs → drop n (xs ++ ys) ≡ drop n xs ++ ys
drop-append zero xs ys h = refl
drop-append (suc n) [] ys h = absurd (omega arith)
drop-append (suc n) (x ∷ xs) ys h = drop-append n xs ys (omega arith)

counted-kept :
    (p : HttpParser) (o : Option HttpRequest)
    → ((counted p o).0.buffer ≡ p.buffer)
      × ((counted p o).0.max_head ≡ p.max_head)
      × ((counted p o).0.counters.oversized ≡ p.counters.oversized)
counted-kept p none = (refl, refl, refl)
counted-kept p (some r) = (refl, refl, refl)

-- What a head leaves of the parser.
take_head-kept :
    (p : HttpParser) (options : NormalizeOptions) (end : ℕ)
    → ((take_head p options end).0.buffer ≡ drop end p.buffer)
      × ((take_head p options end).0.max_head ≡ p.max_head)
      × ((take_head p options end).0.counters.oversized ≡ p.counters.oversized)
unfolding take_head
take_head-kept p options end = elim (Bool-cases p.resynchronising) [
  | inl lost ↦ rw lost (refl, refl, refl)
  | inr read ↦ rw read (
      counted-kept (record p { buffer = drop end p.buffer; resynchronising = false })
        (parse_head (take end p.buffer) options))
]

counted-more :
    (p : HttpParser) (o : Option HttpRequest) (more : List ℕ)
    → counted (with_more p more) o ≡ (with_more (counted p o).0 more, (counted p o).1)
counted-more p none more = refl
counted-more p (some r) more = refl

take_head-more :
    (p : HttpParser) (options : NormalizeOptions) (end : ℕ) (more : List ℕ)
    → end ≤ length p.buffer
    → take_head (with_more p more) options end
      ≡ (with_more (take_head p options end).0 more, (take_head p options end).1)
unfolding take_head
take_head-more p options end more h =
    let front : take end (p.buffer ++ more) ≡ take end p.buffer = take-append end p.buffer more h in
    let rest : drop end (p.buffer ++ more) ≡ drop end p.buffer ++ more =
      drop-append end p.buffer more h in
    elim (Bool-cases p.resynchronising) [
      | inl lost ↦ rw (lost, rest) refl
      | inr read ↦
          rw (read, rest, front)
            (counted-more (record p { buffer = drop end p.buffer; resynchronising = false })
              (parse_head (take end p.buffer) options) more)
    ]

-- The two results of a read, the requests behind others.
abbrev behind : List HttpRequest → HttpParser × List HttpRequest → HttpParser × List HttpRequest
behind found (p, later) = (p, found ++ later)

-- Turns that are enough are as good as more.
read_heads-turns :
    (m n : ℕ) (p : HttpParser) (options : NormalizeOptions)
    → length p.buffer < m
    → length p.buffer < n
    → read_heads m p options ≡ read_heads n p options
unfolding read_heads
read_heads-turns zero n p options h k = absurd (omega arith)
read_heads-turns (suc m) zero p options h k = absurd (omega arith)
read_heads-turns (suc m) (suc n) p options h k = elim (Option-cases (find_head_end p.buffer)) [
  | inl no_end ↦ rw (read_heads, no_end) refl
  | inr (end, ends) ↦
      let next : HttpParser = (take_head p options end).0 in
      let e : HeadEnd p.buffer end = find_head_end-HeadEnd p.buffer end ends in
      let shorter : length next.buffer ≡ length p.buffer - end =
        ap length (take_head-kept p options end).0 ∙ length-drop end p.buffer in
      rw (read_heads, ends)
        (ap (behind (take_head p options end).1) (
          read_heads-turns m n next options (omega (arith, shorter, e.some_bytes, e.inside))
            (omega (arith, shorter, e.some_bytes, e.inside))))
]

-- The parser that no head ends in, kept whole.
give_up-kept : (p : HttpParser) → length p.buffer ≤ p.max_head → give_up p ≡ p
give_up-kept p h = ground arith

give_up-oversized :
    (p : HttpParser)
    → (give_up p).counters.oversized ≡ p.counters.oversized
    → length p.buffer ≤ p.max_head
give_up-oversized p h = ground arith

give_up-bounded : (p : HttpParser) → length (give_up p).buffer ≤ p.max_head
give_up-bounded p = ground arith

give_up-cap : (p : HttpParser) → (give_up p).max_head ≡ p.max_head
give_up-cap p = ground arith

give_up-le : (p : HttpParser) → p.counters.oversized ≤ (give_up p).counters.oversized
give_up-le p = ground arith

-- The loop only counts up, and holds no more than the cap when it ends.
record Read (p q : HttpParser) : Type 0 where
  bounded : length q.buffer ≤ p.max_head
  same_cap : q.max_head ≡ p.max_head
  upward : p.counters.oversized ≤ q.counters.oversized

read_heads-Read :
    (n : ℕ) (p : HttpParser) (options : NormalizeOptions)
    → length p.buffer < n
    → Read p (read_heads n p options).0
unfolding read_heads
read_heads-Read zero p options h = absurd (omega arith)
read_heads-Read (suc n) p options h = elim (Option-cases (find_head_end p.buffer)) [
  | inl no_end ↦
      rw (read_heads, no_end)
        record { bounded = give_up-bounded p; same_cap = give_up-cap p; upward = give_up-le p }
  | inr (end, ends) ↦
      let next : HttpParser = (take_head p options end).0 in
      let e : HeadEnd p.buffer end = find_head_end-HeadEnd p.buffer end ends in
      let (left, cap, same) = take_head-kept p options end in
      let shorter : length next.buffer ≡ length p.buffer - end =
        ap length left ∙ length-drop end p.buffer in
      let r : Read next (read_heads n next options).0 =
        read_heads-Read n next options (omega (arith, shorter, e.some_bytes, e.inside)) in
      rw (read_heads, ends)
        record {
          bounded = omega (arith, r.bounded, cap);
          same_cap = r.same_cap ∙ cap;
          upward = omega (arith, r.upward, same);
        }
]

behind_twice :
    (found later : List HttpRequest) (r : HttpParser × List HttpRequest)
    → behind found (behind later r) ≡ behind (found ++ later) r
behind_twice found later r = ap (λ l. (r.0, l)) (sym (append_assoc found later r.1))

one_turn :
    (n : ℕ) (p : HttpParser) (options : NormalizeOptions) (end : ℕ)
    → find_head_end p.buffer ≡ some end
    → read_heads (suc n) p options
      ≡ behind (take_head p options end).1 (read_heads n (take_head p options end).0 options)
unfolding read_heads
one_turn n p options end ends = rw (read_heads, ends) refl

stop_turn :
    (n : ℕ) (p : HttpParser) (options : NormalizeOptions)
    → find_head_end p.buffer ≡ none
    → (read_heads (suc n) p options).0.counters.oversized ≡ p.counters.oversized
    → read_heads (suc n) p options ≡ (p, [])
unfolding read_heads
stop_turn n p options no_end same =
    let fits : length p.buffer ≤ p.max_head =
      give_up-oversized p (rw (read_heads, no_end) at same) in
    rw (read_heads, no_end) (ap (λ (q : HttpParser). (q, [])) (give_up-kept p fits))

-- Bytes that come later are read as if they had come at once.
read_heads-more :
    (n m k : ℕ) (p : HttpParser) (options : NormalizeOptions) (more : List ℕ)
    → length p.buffer < n
    → length p.buffer + length more < m
    → (read_heads n p options).0.counters.oversized ≡ p.counters.oversized
    → length (read_heads n p options).0.buffer + length more < k
    → read_heads m (with_more p more) options
      ≡ behind
          (read_heads n p options).1
          (read_heads k (with_more (read_heads n p options).0 more) options)
unfolding read_heads
read_heads-more zero m k p options more h i same j = absurd (omega arith)
read_heads-more (suc n) zero k p options more h i same j = absurd (omega arith)
read_heads-more (suc n) (suc m) k p options more h i same j =
    elim (Option-cases (find_head_end p.buffer)) [
      | inl no_end ↦
          let stopped : read_heads (suc n) p options ≡ (p, []) =
            stop_turn n p options no_end same in
          let room : length p.buffer + length more < k =
            subst (λ (r : HttpParser × List HttpRequest). length r.0.buffer + length more < k)
              stopped j in
          let size : length (p.buffer ++ more) ≡ length p.buffer + length more =
            length-append p.buffer more in
          subst
            (λ (r : HttpParser × List HttpRequest).
              read_heads (suc m) (with_more p more) options
              ≡ behind r.1 (read_heads k (with_more r.0 more) options))
            (sym stopped)
            (read_heads-turns (suc m) k (with_more p more) options (omega (arith, size))
              (omega (arith, size)))
      | inr (end, ends) ↦
          let (next, found) = take_head p options end in
          let e : HeadEnd p.buffer end = find_head_end-HeadEnd p.buffer end ends in
          let (left, _, kept) = take_head-kept p options end in
          let shorter : length next.buffer ≡ length p.buffer - end =
            ap length left ∙ length-drop end p.buffer in
          let turn : read_heads (suc n) p options ≡ behind found (read_heads n next options) =
            one_turn n p options end ends in
          let grown : read_heads (suc m) (with_more p more) options
              ≡ behind found (read_heads m (with_more next more) options) =
            one_turn m (with_more p more) options end (e.settled more)
            ∙ ap (λ (r : HttpParser × List HttpRequest). behind r.1 (read_heads m r.0 options))
                (take_head-more p options end more e.inside) in
          let rest =
            read_heads-more n m k next options more (omega (arith, shorter, e.some_bytes, e.inside))
              (omega (arith, shorter, e.some_bytes, e.inside))
              (ap (λ (r : HttpParser × List HttpRequest). r.0.counters.oversized) (sym turn)
                ∙ same
                ∙ sym kept)
              (subst (λ (r : HttpParser × List HttpRequest). length r.0.buffer + length more < k)
                turn j) in
          subst
            (λ (r : HttpParser × List HttpRequest).
              read_heads (suc m) (with_more p more) options
              ≡ behind r.1 (read_heads k (with_more r.0 more) options))
            (sym turn) (grown ∙ ap (behind found) rest ∙ behind_twice found _ _)
    ]

-- What a push leaves in the buffer never passes the cap, however much comes and whatever it is, and
-- the cap stays. The turns of its loop are enough: a push that comes in two pieces, the first of
-- which gives no head up as too long, leaves the parser and gives the requests, in order, that the
-- two pieces at once do.
pub push-pieces :
    (p : HttpParser) (bytes more : List ℕ) (options : NormalizeOptions)
    → (length (push p bytes options).0.buffer ≤ p.max_head)
      × ((push p bytes options).0.max_head ≡ p.max_head)
      × ((push p bytes options).0.counters.oversized ≡ p.counters.oversized
          → push p (bytes ++ more) options ≡ (
            (push (push p bytes options).0 more options).0,
            (push p bytes options).1 ++ (push (push p bytes options).0 more options).1,
          ))
unfolding push
push-pieces p bytes more options =
    let grown : HttpParser = with_more p bytes in
    let turns : ℕ = suc (length grown.buffer) in
    let r : Read grown (read_heads turns grown options).0 =
      read_heads-Read turns grown options (omega arith) in
    let all : List ℕ = p.buffer ++ (bytes ++ more) in
    let held : List ℕ = (read_heads turns grown options).0.buffer ++ more in
    let sizes : length all ≡ length grown.buffer + length more =
      ap length (sym (append_assoc p.buffer bytes more)) ∙ length-append grown.buffer more in
    (
      r.bounded,
      r.same_cap,
      λ same.
          ap (λ b. read_heads (suc (length all)) (record p { buffer = b }) options)
            (sym (append_assoc p.buffer bytes more))
          ∙ read_heads-more turns (suc (length all)) (suc (length held)) grown options more
              (omega arith) (omega (arith, sizes)) same
              (omega (arith, length-append (read_heads turns grown options).0.buffer more)),
    )
