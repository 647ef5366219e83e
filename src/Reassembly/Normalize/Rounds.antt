-- ===== src/Reassembly/Normalize/Rounds.antt =====
-- The decoding rounds of crates/reassembly/src/normalize.rs: when they settle.
use cyber_sentinel_ids_ips.Prelude.{
  ℕ, zero, suc, ◌+◌, ◌*◌, ◌≤◌, ◌≡◌, ◌↔◌, ◌⊎◌, inl, inr, refl, ap, ◌∙◌, true, false, List, [], ◌∷◌,
  length, arith, Bool-cases, Option-cases,
}
use cyber_sentinel_ids_ips.Reassembly.Normalize.{
  Normalized, no_flags, escape, percent_decode, bytes_eq, decode_rounds_from, check_limit,
  after_round, percent_decode_repeatedly,
}

pub bytes_eq_iff : (xs ys : List ℕ) → (bytes_eq xs ys ≡ true) ↔ (xs ≡ ys)
unfolding bytes_eq
bytes_eq_iff [] [] = (λ h. refl, λ h. refl)
bytes_eq_iff [] (y ∷ ys) = (λ h. cc h, λ h. cc h)
bytes_eq_iff (x ∷ xs) [] = (λ h. cc h, λ h. cc h)
bytes_eq_iff (x ∷ xs) (y ∷ ys) = ground (arith, bytes_eq_iff xs ys)

-- One pass leaves the bytes as they are, or drops at least two of them.
abbrev pub Shrinks : List ℕ → List ℕ → Type 0
Shrinks input out = (out ≡ input) ⊎ (length out + 2 ≤ length input)

Shrinks-literal : (b : ℕ) (input out : List ℕ) → Shrinks input out → Shrinks (b ∷ input) (b ∷ out)
Shrinks-literal b input out (inl same) = inl (ap (λ r. b ∷ r) same)
Shrinks-literal b input out (inr less) = inr (omega arith)

Shrinks-unescaped :
    (b h l byte : ℕ) (rest out : List ℕ)
    → Shrinks rest out
    → Shrinks (b ∷ h ∷ l ∷ rest) (byte ∷ out)
Shrinks-unescaped b h l byte rest out (inl same) = inr (omega (arith, ap length same))
Shrinks-unescaped b h l byte rest out (inr less) = inr (omega arith)

pub percent_decode-Shrinks : (input : List ℕ) → Shrinks input (percent_decode input).0
unfolding percent_decode
percent_decode-Shrinks [] = inl refl
percent_decode-Shrinks (b ∷ []) = inl refl
percent_decode-Shrinks (b ∷ h ∷ []) =
    Shrinks-literal b (h ∷ []) (percent_decode (h ∷ [])).0 (percent_decode-Shrinks (h ∷ []))
percent_decode-Shrinks (b ∷ h ∷ l ∷ rest) = elim (Option-cases (escape b h l)) [
  | inl plain ↦
      rw (percent_decode, plain)
        (Shrinks-literal b (h ∷ l ∷ rest) (percent_decode (h ∷ l ∷ rest)).0
          (percent_decode-Shrinks (h ∷ l ∷ rest)))
  | inr (byte, found) ↦
      rw (percent_decode, found)
        (Shrinks-unescaped b h l byte rest (percent_decode rest).0 (percent_decode-Shrinks rest))
]

decode_limit-unset : (input : List ℕ) → (percent_decode input).1.decode_limit_reached ≡ false
unfolding percent_decode
decode_limit-unset [] = refl
decode_limit-unset (b ∷ []) = ground arith
decode_limit-unset (b ∷ h ∷ []) = ground (arith, decode_limit-unset (h ∷ []))
decode_limit-unset (b ∷ h ∷ l ∷ rest) =
    ground (arith, decode_limit-unset (h ∷ l ∷ rest), decode_limit-unset rest)

-- Whether another pass changes nothing.
abbrev pub IsSettled : Normalized → Type 0
IsSettled r = (percent_decode r.bytes).0 ≡ r.bytes

percent_decode-short : (xs : List ℕ) → length xs ≤ 0 → (percent_decode xs).0 ≡ xs
unfolding percent_decode
percent_decode-short [] h = refl
percent_decode-short (x ∷ xs) h = absurd (omega arith)

settled_short : (r : Normalized) → length r.bytes ≤ 0 → IsSettled r
settled_short r h = ground (arith, percent_decode-short r.bytes)

after_round-quiet :
    (round : ℕ) (state : Normalized)
    → (after_round round state).flags.decode_limit_reached ≡ state.flags.decode_limit_reached
after_round-quiet round state = ground (arith, decode_limit-unset state.bytes)

Shrinks-changed :
    (input out : List ℕ)
    → Shrinks input out
    → bytes_eq out input ≡ false
    → length out + 2 ≤ length input
Shrinks-changed input out (inl same) h = cc ((bytes_eq_iff out input).1 same, h)
Shrinks-changed input out (inr less) h = less

ends_later :
    (left round : ℕ) (r : Normalized)
    → IsSettled r ⊎ (r.rounds_applied ≡ suc round + left)
    → IsSettled r ⊎ (r.rounds_applied ≡ round + suc left)
ends_later left round r (inl settled) = inl settled
ends_later left round r (inr all) = inr (omega arith)

ends_from_none :
    (rounds : ℕ) (r : Normalized)
    → IsSettled r ⊎ (r.rounds_applied ≡ 0 + rounds)
    → IsSettled r ⊎ (r.rounds_applied ≡ rounds)
ends_from_none rounds r (inl settled) = inl settled
ends_from_none rounds r (inr all) = inr (omega (arith, all))

all_rounds :
    (rounds : ℕ) (r : Normalized)
    → IsSettled r ⊎ (r.rounds_applied ≡ rounds)
    → bytes_eq (percent_decode r.bytes).0 r.bytes ≡ false
    → r.rounds_applied ≡ rounds
all_rounds rounds r (inl settled) h =
    cc ((bytes_eq_iff (percent_decode r.bytes).0 r.bytes).1 settled, h)
all_rounds rounds r (inr all) h = all

check_limit-same :
    (rounds : ℕ) (r : Normalized)
    → bytes_eq (percent_decode r.bytes).0 r.bytes ≡ true
    → check_limit rounds r ≡ r
check_limit-same rounds r h = rw h (ground arith)

check_limit-reached :
    (rounds : ℕ) (r : Normalized)
    → 1 ≤ rounds
    → r.rounds_applied ≡ rounds
    → bytes_eq (percent_decode r.bytes).0 r.bytes ≡ false
    → check_limit rounds r ≡ record r { flags = record (r.flags) { decode_limit_reached = true } }
check_limit-reached rounds r h all changes = ground arith

-- What the loop of rounds leaves.
record Looped (left round : ℕ) (state r : Normalized) : Type 0 where
  shorter : length r.bytes ≤ length state.bytes
  applied : r.rounds_applied ≤ round + left
  quiet : r.flags.decode_limit_reached ≡ state.flags.decode_limit_reached
  ends : IsSettled r ⊎ (r.rounds_applied ≡ round + left)
  enough : length state.bytes ≤ 2 * left → IsSettled r

decode_rounds_from-Looped :
    (left round : ℕ) (state : Normalized)
    → state.rounds_applied ≡ round
    → Looped left round state (decode_rounds_from left round state)
unfolding decode_rounds_from
decode_rounds_from-Looped zero round state h = record {
  shorter = omega arith;
  applied = omega arith;
  quiet = refl;
  ends = inr (omega arith);
  enough = λ short. settled_short state short;
}
decode_rounds_from-Looped (suc left) round state h =
    let next = after_round round state in
    let pass = percent_decode-Shrinks state.bytes in
    let rest : Looped left (suc round) next (decode_rounds_from left (suc round) next) =
      decode_rounds_from-Looped left (suc round) next refl in
    elim (Bool-cases (bytes_eq (percent_decode state.bytes).0 state.bytes)) [
      | inl same ↦ rw same record {
        shorter = omega arith;
        applied = omega arith;
        quiet = refl;
        ends = inl ((bytes_eq_iff (percent_decode state.bytes).0 state.bytes).0 same);
        enough = λ short. (bytes_eq_iff (percent_decode state.bytes).0 state.bytes).0 same;
      }
      | inr changed ↦
          let less = Shrinks-changed state.bytes (percent_decode state.bytes).0 pass changed in
          rw changed record {
            shorter = omega (arith, rest.shorter, less);
            applied = omega (arith, rest.applied);
            quiet = rest.quiet ∙ after_round-quiet round state;
            ends = ends_later left round (decode_rounds_from left (suc round) next) rest.ends;
            enough = λ short. rest.enough (omega (arith, less));
          }
    ]

-- The bytes, the number of rounds and the verdict on the limit of a decoding in rounds.
pub record Decoded (input : List ℕ) (rounds : ℕ) (r : Normalized) : Type 0 where
  pub shorter : length r.bytes ≤ length input
  pub applied : r.rounds_applied ≤ rounds
  pub settled : r.flags.decode_limit_reached ≡ false → IsSettled r
  pub unsettled : r.flags.decode_limit_reached ≡ true → ¬ IsSettled r
  pub enough : length input ≤ 2 * rounds → r.flags.decode_limit_reached ≡ false

-- Decoding in at least one round gives no more bytes than it is given and applies no more rounds
-- than it may. Where it does not report the limit, another pass would change nothing, and where it
-- does, another pass would. With one round for every two bytes of the input it never reports it.
pub percent_decode_repeatedly-Decoded :
    (input : List ℕ) (rounds : ℕ)
    → 1 ≤ rounds
    → Decoded input rounds (percent_decode_repeatedly input rounds)
unfolding percent_decode_repeatedly
percent_decode_repeatedly-Decoded input rounds h =
    let start : Normalized = record { bytes = input; rounds_applied = 0; flags = no_flags } in
    let r : Normalized = decode_rounds_from rounds 0 start in
    let l : Looped rounds 0 start r = decode_rounds_from-Looped rounds 0 start refl in
    let same = bytes_eq_iff (percent_decode r.bytes).0 r.bytes in
    elim (Bool-cases (bytes_eq (percent_decode r.bytes).0 r.bytes)) [
      | inl stays ↦ rw (check_limit-same rounds r stays) record {
        shorter = l.shorter;
        applied = omega (arith, l.applied);
        settled = λ quiet. same.0 stays;
        unsettled = λ reached. cc (reached, l.quiet);
        enough = λ short. l.quiet;
      }
      | inr changes ↦
          rw
            (check_limit-reached rounds r h
              (all_rounds rounds r (ends_from_none rounds r l.ends) changes) changes)
            record {
              shorter = l.shorter;
              applied = omega (arith, l.applied);
              settled = λ quiet. cc quiet;
              unsettled = λ reached settles. cc (same.1 settles, changes);
              enough = λ short. cc (same.1 (l.enough short), changes);
            }
    ]

-- No number of rounds gives more bytes than there were.
pub length-percent_decode_repeatedly :
    (input : List ℕ) (rounds : ℕ)
    → length (percent_decode_repeatedly input rounds).bytes ≤ length input
unfolding percent_decode_repeatedly
length-percent_decode_repeatedly input rounds =
    let start : Normalized = record { bytes = input; rounds_applied = 0; flags = no_flags } in
    let l : Looped rounds 0 start (decode_rounds_from rounds 0 start) =
      decode_rounds_from-Looped rounds 0 start refl in
    ground (arith, l.shorter)
