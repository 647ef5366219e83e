-- ===== src/Engine/Eval/Position.antt =====
-- `find` of crates/engine/src/eval.rs: the first place of a pattern.
use mathlib.Core.Option.{some-injective}
use cyber_sentinel_ids_ips.Prelude.{
  ℕ, zero, suc, ◌+◌, ◌-◌, ◌≤◌, ◌<◌, ◌≡◌, refl, sym, ap, ◌∙◌, Bool, true, false, none, some, List,
  [], ◌∷◌, length, take, drop, arith, Bool-cases, Option-cases, inl, inr,
}
use cyber_sentinel_ids_ips.Engine.Eval.{same_at, position_of}

same_at-length :
    (nocase : Bool) (needle haystack : List ℕ)
    → same_at nocase needle haystack ≡ true
    → length needle ≤ length haystack
unfolding same_at
same_at-length nocase [] haystack h = omega arith
same_at-length nocase (x ∷ needle) [] h = absurd (cc h)
same_at-length nocase (x ∷ needle) (b ∷ haystack) h =
    ground (arith, same_at-length nocase needle haystack)

pub same_at-take :
    (nocase : Bool) (needle haystack : List ℕ) (n : ℕ)
    → length needle ≤ n
    → same_at nocase needle (take n haystack) ≡ same_at nocase needle haystack
unfolding same_at
same_at-take nocase [] haystack n h = refl
same_at-take nocase (x ∷ needle) haystack zero h = absurd (omega arith)
same_at-take nocase (x ∷ needle) [] (suc n) h = refl
same_at-take nocase (x ∷ needle) (b ∷ haystack) (suc n) h =
    ground (arith, same_at-take nocase needle haystack n)

take_nothing : (n : ℕ) (xs : List ℕ) → xs ≡ [] → take n xs ≡ []
take_nothing zero xs e = refl
take_nothing (suc n) [] e = refl
take_nothing (suc n) (x ∷ xs) e = absurd (cc e)

drop_nothing : (n : ℕ) (xs : List ℕ) → xs ≡ [] → drop n xs ≡ []
drop_nothing zero xs e = e
drop_nothing (suc n) [] e = refl
drop_nothing (suc n) (x ∷ xs) e = absurd (cc e)

pub drop-take : (p n k : ℕ) (xs : List ℕ) → k ≡ n - p → drop p (take n xs) ≡ take k (drop p xs)
drop-take zero n k xs e = let same : n ≡ k = omega arith in ap (λ m. take m xs) same
drop-take (suc p) zero zero xs e = refl
drop-take (suc p) zero (suc k) xs e = absurd (omega arith)
drop-take (suc p) (suc n) k [] e = sym (take_nothing k [] refl)
drop-take (suc p) (suc n) k (x ∷ xs) e = drop-take p n k xs (omega arith)

pub drop-drop : (p s j : ℕ) (xs : List ℕ) → j ≡ s + p → drop p (drop s xs) ≡ drop j xs
drop-drop p zero j xs e = let same : p ≡ j = omega arith in ap (λ m. drop m xs) same
drop-drop p (suc s) j [] e = drop_nothing p [] refl ∙ sym (drop_nothing j [] refl)
drop-drop p (suc s) zero (x ∷ xs) e = absurd (omega arith)
drop-drop p (suc s) (suc j) (x ∷ xs) e = drop-drop p s j xs (omega arith)

-- The first place of a pattern.
pub record First (nocase : Bool) (needle haystack : List ℕ) (p : ℕ) : Type 0 where
  pub fits : p + length needle ≤ length haystack
  pub occurs : same_at nocase needle (drop p haystack) ≡ true
  pub earliest : (q : ℕ) → q < p → same_at nocase needle (drop q haystack) ≡ false

before :
    (nocase : Bool) (needle haystack : List ℕ) (b at q : ℕ)
    → First nocase needle haystack at
    → same_at nocase needle (b ∷ haystack) ≡ false
    → q < suc at
    → same_at nocase needle (drop q (b ∷ haystack)) ≡ false
before nocase needle haystack b at zero f later h = later
before nocase needle haystack b at (suc q) f later h = f.earliest q (omega arith)

pub position_of-First :
    (nocase : Bool) (needle haystack : List ℕ) (p : ℕ)
    → position_of nocase needle haystack ≡ some p
    → First nocase needle haystack p
unfolding position_of
position_of-First nocase needle [] p h = absurd (cc h)
position_of-First nocase needle (b ∷ haystack) p h =
    elim (Bool-cases (same_at nocase needle (b ∷ haystack))) [
      | inl here ↦
          let e : 0 ≡ p = some-injective 0 p (rw here at h) in
          record {
            fits = omega (arith, same_at-length nocase needle (b ∷ haystack) here);
            occurs = ap (λ n. same_at nocase needle (drop n (b ∷ haystack))) (sym e) ∙ here;
            earliest = λ q below. absurd (omega arith);
          }
      | inr later ↦ elim (Option-cases (position_of nocase needle haystack)) [
        | inl nothing ↦ absurd (cc (rw (later, nothing) at h))
        | inr (at, found) ↦
            let e : suc at ≡ p = some-injective (suc at) p (rw (later, found) at h) in
            let f : First nocase needle haystack at =
              position_of-First nocase needle haystack at found in
            record {
              fits = omega (arith, f.fits);
              occurs = ap (λ n. same_at nocase needle (drop n (b ∷ haystack))) (sym e) ∙ f.occurs;
              earliest = λ q below. before nocase needle haystack b at q f later (omega arith);
            }
      ]
    ]

pub position_of-none :
    (nocase : Bool) (needle haystack : List ℕ) (q : ℕ)
    → position_of nocase needle haystack ≡ none
    → q < length haystack
    → same_at nocase needle (drop q haystack) ≡ false
unfolding position_of
position_of-none nocase needle [] q h k = absurd (omega arith)
position_of-none nocase needle (b ∷ haystack) zero h k = ground arith
position_of-none nocase needle (b ∷ haystack) (suc q) h k =
    ground (arith, position_of-none nocase needle haystack q)
