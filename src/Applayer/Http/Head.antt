-- ===== src/Applayer/Http/Head.antt =====
-- Where request heads end in crates/applayer/src/http.rs, with and without later bytes.
use mathlib.Core.Option.{some-injective}
use native.Mathlib.Decide.{dec_lt}
use cyber_sentinel_ids_ips.Prelude.{
  ℕ, suc, ◌≤◌, ◌<◌, ◌≡◌, refl, ap, ◌∙◌, min, true, false, Option, none, some, List, [], ◌∷◌, ◌++◌,
  length, arith, Bool-cases, Option-cases, inl, inr,
}
use cyber_sentinel_ids_ips.Applayer.Http.{
  starts_with, end_of, earlier, crlf_twice, lf_twice, find_head_end,
}

starts_with-append :
    (pattern bytes more : List ℕ)
    → starts_with pattern bytes ≡ true
    → starts_with pattern (bytes ++ more) ≡ true
unfolding starts_with
starts_with-append [] bytes more h = refl
starts_with-append (x ∷ pattern) [] more h = cc h
starts_with-append (x ∷ pattern) (b ∷ bytes) more h =
    ground (arith, starts_with-append pattern bytes more)

starts_with-fits :
    (pattern bytes more : List ℕ)
    → length pattern ≤ length bytes
    → starts_with pattern (bytes ++ more) ≡ starts_with pattern bytes
unfolding starts_with
starts_with-fits [] bytes more h = refl
starts_with-fits (x ∷ pattern) [] more h = absurd (omega arith)
starts_with-fits (x ∷ pattern) (b ∷ bytes) more h =
    ground (arith, starts_with-fits pattern bytes more)

starts_with-length :
    (pattern bytes : List ℕ) → starts_with pattern bytes ≡ true → length pattern ≤ length bytes
unfolding starts_with
starts_with-length [] bytes h = omega arith
starts_with-length (x ∷ pattern) [] h = cc h
starts_with-length (x ∷ pattern) (b ∷ bytes) h = ground (arith, starts_with-length pattern bytes)

crosses_end :
    (pattern bytes more : List ℕ)
    → starts_with pattern bytes ≡ false
    → starts_with pattern (bytes ++ more) ≡ true
    → length bytes < length pattern
crosses_end pattern bytes more h k = elim (dec_lt (length bytes) (length pattern)) [
  | yes short ↦ short
  | no long ↦ absurd (cc (starts_with-fits pattern bytes more (omega arith), h, k))
]

-- The end is that of the pattern, and inside the bytes.
end_of-bounds :
    (pattern bytes : List ℕ) (end : ℕ)
    → end_of pattern bytes ≡ some end
    → (length pattern ≤ end) × (end ≤ length bytes)
unfolding end_of
end_of-bounds pattern [] end h = absurd (cc h)
end_of-bounds pattern (b ∷ bytes) end h = elim (Bool-cases (starts_with pattern (b ∷ bytes))) [
  | inl here ↦
      let fits = starts_with-length pattern (b ∷ bytes) here in
      let e : length pattern ≡ end = some-injective (length pattern) end (rw here at h) in
      (omega arith, omega arith)
  | inr later ↦ elim (Option-cases (end_of pattern bytes)) [
    | inl nothing ↦ absurd (cc (rw (later, nothing) at h))
    | inr (e, found) ↦
        let s : suc e ≡ end = some-injective (suc e) end (rw (later, found) at h) in
        let (low, high) = end_of-bounds pattern bytes e found in (omega arith, omega arith)
  ]
]

-- What is found is found behind later bytes too, and what they add ends past what was there.
end_of-append :
    (pattern bytes more : List ℕ) (end : ℕ)
    → end_of pattern bytes ≡ some end
    → end_of pattern (bytes ++ more) ≡ some end
unfolding end_of
end_of-append pattern [] more end h = absurd (cc h)
end_of-append pattern (b ∷ bytes) more end h = elim (Bool-cases (starts_with pattern (b ∷ bytes))) [
  | inl here ↦ rw (starts_with-append pattern (b ∷ bytes) more here) (rw here at h)
  | inr later ↦ elim (Option-cases (end_of pattern bytes)) [
    | inl nothing ↦ absurd (cc (rw (later, nothing) at h))
    | inr (e, found) ↦
        let bounds = end_of-bounds pattern bytes e found in
        let same : starts_with pattern (b ∷ (bytes ++ more)) ≡ false =
          starts_with-fits pattern (b ∷ bytes) more (omega (arith, bounds.0, bounds.1)) ∙ later in
        rw (same, end_of-append pattern bytes more e found) (rw (later, found) at h)
  ]
]

end_of-later :
    (pattern bytes more : List ℕ) (end : ℕ)
    → 1 ≤ length pattern
    → end_of pattern bytes ≡ none
    → end_of pattern (bytes ++ more) ≡ some end
    → length bytes < end
unfolding end_of
end_of-later pattern [] more end p h found = omega (arith, end_of-bounds pattern more end found)
end_of-later pattern (b ∷ bytes) more end p h found =
    elim (Bool-cases (starts_with pattern (b ∷ bytes))) [
      | inl here ↦ absurd (cc (rw here at h))
      | inr later ↦ elim (Bool-cases (starts_with pattern (b ∷ (bytes ++ more)))) [
        | inl crosses ↦
            let e : length pattern ≡ end =
              some-injective (length pattern) end (rw crosses at found) in
            let short : length (b ∷ bytes) < length pattern =
              crosses_end pattern (b ∷ bytes) more later crosses in
            omega arith
        | inr behind ↦ elim (Option-cases (end_of pattern bytes)) [
          | inr (e, there) ↦ absurd (cc (rw (later, there) at h))
          | inl nothing ↦ elim (Option-cases (end_of pattern (bytes ++ more))) [
            | inl none_yet ↦ absurd (cc (rw (behind, none_yet) at found))
            | inr (e, there) ↦
                let s : suc e ≡ end = some-injective (suc e) end (rw (behind, there) at found) in
                omega (arith, end_of-later pattern bytes more e p nothing there)
          ]
        ]
      ]
    ]

-- Where a head ends: behind a terminator, inside the bytes, and in the same place when more follow.
pub record HeadEnd (bytes : List ℕ) (end : ℕ) : Type 0 where
  pub some_bytes : 2 ≤ end
  pub inside : end ≤ length bytes
  pub settled : (more : List ℕ) → find_head_end (bytes ++ more) ≡ some end

earlier_both : (a b end : ℕ) → earlier (some a) (some b) ≡ some end → min a b ≡ end
earlier_both a b end h = some-injective (min a b) end h

earlier_crlf :
    (a end : ℕ) (lf : Option ℕ)
    → ((b : ℕ) → lf ≡ some b → a < b)
    → a ≡ end
    → earlier (some a) lf ≡ some end
earlier_crlf a end none h e = ap some e
earlier_crlf a end (some b) h e = ap some (omega (arith, h b refl))

earlier_lf :
    (b end : ℕ) (crlf : Option ℕ)
    → ((a : ℕ) → crlf ≡ some a → b < a)
    → b ≡ end
    → earlier crlf (some b) ≡ some end
earlier_lf b end none h e = ap some e
earlier_lf b end (some a) h e = ap some (omega (arith, h a refl))

pub find_head_end-HeadEnd :
    (bytes : List ℕ) (end : ℕ) → find_head_end bytes ≡ some end → HeadEnd bytes end
unfolding find_head_end
find_head_end-HeadEnd bytes end h = elim (Option-cases (end_of crlf_twice bytes)) [
  | inl no_crlf ↦ elim (Option-cases (end_of lf_twice bytes)) [
    | inl no_lf ↦ absurd (cc (rw (no_crlf, no_lf) at h))
    | inr (b, lf) ↦
        let e : b ≡ end = some-injective b end (rw (no_crlf, lf) at h) in
        let bounds = end_of-bounds lf_twice bytes b lf in
        record {
          some_bytes = omega (arith, bounds.0);
          inside = omega (arith, bounds.1);
          settled = λ more. rw (end_of-append lf_twice bytes more b lf) (
              earlier_lf b end (end_of crlf_twice (bytes ++ more))
                (λ a crlf. omega (
                  arith,
                  bounds.1,
                  end_of-later crlf_twice bytes more a (omega arith) no_crlf crlf,
                ))
                e);
        }
  ]
  | inr (a, crlf) ↦
      let bounds = end_of-bounds crlf_twice bytes a crlf in
      elim (Option-cases (end_of lf_twice bytes)) [
        | inl no_lf ↦
            let e : a ≡ end = some-injective a end (rw (crlf, no_lf) at h) in
            record {
              some_bytes = omega (arith, bounds.0);
              inside = omega (arith, bounds.1);
              settled = λ more. rw (end_of-append crlf_twice bytes more a crlf) (
                  earlier_crlf a end (end_of lf_twice (bytes ++ more))
                    (λ b lf.
                      omega (
                        arith,
                        bounds.1,
                        end_of-later lf_twice bytes more b (omega arith) no_lf lf,
                      ))
                    e);
            }
        | inr (b, lf) ↦
            let e : min a b ≡ end = earlier_both a b end (rw (crlf, lf) at h) in
            let also = end_of-bounds lf_twice bytes b lf in
            record {
              some_bytes = omega (arith, bounds.0, also.0);
              inside = omega (arith, bounds.1, also.1);
              settled = λ more.
                  rw
                    (
                      end_of-append crlf_twice bytes more a crlf,
                      end_of-append lf_twice bytes more b lf,
                    )
                    (ap some e);
            }
      ]
]
