-- ===== src/Decode/Anomaly/Capped.antt =====
-- The anomaly set of crates/decode/src/anomaly.rs against a set without a cap.
use cyber_sentinel_ids_ips.Prelude.{
  ℕ, zero, suc, ◌≤◌, ◌<◌, ◌≡◌, ◌∙◌, refl, sym, ap, ap₂, Bool, true, false, List, [], ◌∷◌, ◌++◌, leb,
  ltb, any, take, length, if◌then◌else◌, arith, Bool-cases, inl, inr, length-append, length-take,
}
use cyber_sentinel_ids_ips.Decode.Anomaly.{
  Anomaly, AnomalySet, anomaly_cap, no_anomalies, is_found, push,
}

-- The anomalies of one frame, in the order in which they were reported.
abbrev pub push_all : List Anomaly → AnomalySet → AnomalySet
push_all [] s = s
push_all (a ∷ reports) s = push_all reports (push a s)

-- A set without a cap after one more report.
abbrev seen_with : Anomaly → List Anomaly → List Anomaly
seen_with a seen = if is_found a seen then seen else seen ++ (a ∷ [])

-- What a set without a cap keeps: every anomaly at its first report.
abbrev pub distinct_from : List Anomaly → List Anomaly → List Anomaly
distinct_from seen [] = seen
distinct_from seen (a ∷ reports) = distinct_from (seen_with a seen) reports

-- A capped set that stands for the uncapped one.
abbrev pub capped : List Anomaly → AnomalySet
capped seen = record { found = take anomaly_cap seen; overflowed = ltb anomaly_cap (length seen) }

abbrev set_of : List Anomaly → Bool → AnomalySet
set_of found overflowed = record { found = found; overflowed = overflowed }

seen_with-known :
    (a : Anomaly) (seen : List Anomaly) → is_found a seen ≡ true → seen_with a seen ≡ seen
seen_with-known a seen h = rw h

seen_with-new :
    (a : Anomaly) (seen : List Anomaly)
    → is_found a seen ≡ false
    → seen_with a seen ≡ seen ++ (a ∷ [])
seen_with-new a seen h = rw h

leb-true : {a b : ℕ} → a ≤ b → leb a b ≡ true
leb-true h = ground arith

leb-false : {a b : ℕ} → b < a → leb a b ≡ false
leb-false h = ground arith

module _ {ℓ} {A : Type ℓ} where
  take-all : (n : ℕ) (xs : List A) → length xs ≤ n → take n xs ≡ xs
  take-all zero [] h = refl
  take-all zero (x ∷ xs) h = absurd (omega arith)
  take-all (suc n) [] h = refl
  take-all (suc n) (x ∷ xs) h = ap (λ r. x ∷ r) (take-all n xs (omega arith))

  take-append : (n : ℕ) (xs ys : List A) → n ≤ length xs → take n (xs ++ ys) ≡ take n xs
  take-append zero xs ys h = refl
  take-append (suc n) [] ys h = absurd (omega arith)
  take-append (suc n) (x ∷ xs) ys h = ap (λ r. x ∷ r) (take-append n xs ys (omega arith))

  any-take : (p : A → Bool) (n : ℕ) (xs : List A) → any p xs ≡ false → any p (take n xs) ≡ false
  any-take p zero xs h = refl
  any-take p (suc n) [] h = refl
  any-take p (suc n) (x ∷ xs) h = ground (arith, any-take p n xs)

-- The branches of one report.
pub push-known : (a : Anomaly) (s : AnomalySet) → is_found a s.found ≡ true → push a s ≡ s
unfolding push
push-known a s h = rw h

pub push-full :
    (a : Anomaly) (s : AnomalySet)
    → is_found a s.found ≡ false
    → anomaly_cap ≤ length s.found
    → push a s ≡ record s { overflowed = true }
unfolding push
push-full a s h k = rw (h, leb-true k)

pub push-room :
    (a : Anomaly) (s : AnomalySet)
    → is_found a s.found ≡ false
    → length s.found < anomaly_cap
    → push a s ≡ record s { found = s.found ++ (a ∷ []) }
unfolding push
push-room a s h k = rw (h, leb-false k)

-- What a capped set is, by the number of anomalies that it stands for.
capped-below :
    (seen : List Anomaly)
    → length seen ≤ anomaly_cap
    → capped seen ≡ record { found = seen; overflowed = false }
capped-below seen h = ap₂ set_of (take-all anomaly_cap seen h) (ground arith)

capped-above :
    (seen : List Anomaly)
    → anomaly_cap < length seen
    → capped seen ≡ record { found = take anomaly_cap seen; overflowed = true }
capped-above seen h = ap₂ set_of refl (ground arith)

-- One report, by what the uncapped set knows and by whether the cap was reached.
push-below :
    (a : Anomaly) (seen : List Anomaly)
    → length seen ≤ anomaly_cap
    → push a (capped seen) ≡ capped (seen_with a seen)
push-below a seen h = elim (Bool-cases (is_found a seen)) [
  | inl k ↦
      ap (push a) (capped-below seen h)
      ∙ push-known a (set_of seen false) k
      ∙ sym (ap capped (seen_with-known a seen k) ∙ capped-below seen h)
  | inr k ↦ elim (Bool-cases (leb anomaly_cap (length seen))) [
    | inl f ↦
        ap (push a) (capped-below seen h)
        ∙ push-full a (set_of seen false) k (ground arith)
        ∙ ap₂ set_of
            (sym
              (take-append anomaly_cap seen (a ∷ []) (ground arith) ∙ take-all anomaly_cap seen h))
            refl
        ∙ sym (
            ap capped (seen_with-new a seen k)
            ∙ capped-above (seen ++ (a ∷ [])) (ground (arith, length-append seen (a ∷ []))))
    | inr f ↦
        ap (push a) (capped-below seen h)
        ∙ push-room a (set_of seen false) k (ground arith)
        ∙ sym (
            ap capped (seen_with-new a seen k)
            ∙ capped-below (seen ++ (a ∷ [])) (ground (arith, length-append seen (a ∷ []))))
  ]
]

-- Above the cap no report changes the set.
push-above :
    (a : Anomaly) (seen : List Anomaly)
    → anomaly_cap < length seen
    → push a (capped seen) ≡ capped seen
push-above a seen h = elim (Bool-cases (is_found a (take anomaly_cap seen))) [
  | inl k ↦ push-known a (capped seen) k
  | inr k ↦
      push-full a (capped seen) k (omega (arith, length-take anomaly_cap seen))
      ∙ sym (capped-above seen h)
]

capped-seen_with :
    (a : Anomaly) (seen : List Anomaly)
    → anomaly_cap < length seen
    → capped (seen_with a seen) ≡ capped seen
capped-seen_with a seen h = elim (Bool-cases (is_found a seen)) [
  | inl k ↦ ap capped (seen_with-known a seen k)
  | inr k ↦
      ap capped (seen_with-new a seen k)
      ∙ capped-above (seen ++ (a ∷ [])) (ground (arith, length-append seen (a ∷ [])))
      ∙ ap₂ set_of (take-append anomaly_cap seen (a ∷ []) (omega (arith, h))) refl
      ∙ sym (capped-above seen h)
]

push-capped : (a : Anomaly) (seen : List Anomaly) → push a (capped seen) ≡ capped (seen_with a seen)
push-capped a seen = elim (Bool-cases (leb (length seen) anomaly_cap)) [
  | inl h ↦ push-below a seen (ground arith)
  | inr h ↦ push-above a seen (ground arith) ∙ sym (capped-seen_with a seen (ground arith))
]

push_all-from :
    (seen reports : List Anomaly)
    → push_all reports (capped seen) ≡ capped (distinct_from seen reports)
push_all-from seen [] = refl
push_all-from seen (a ∷ reports) =
    ap (push_all reports) (push-capped a seen) ∙ push_all-from (seen_with a seen) reports

-- The set of a frame is what a set without a cap would have kept, each distinct anomaly at its first
-- report, cut to its first eight; and the set says that it overflowed exactly where the uncapped set
-- has more than eight.
pub push_all-capped :
    (reports : List Anomaly) → push_all reports no_anomalies ≡ capped (distinct_from [] reports)
push_all-capped reports = push_all-from [] reports
