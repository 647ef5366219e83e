-- ===== src/Common/Map.antt =====
-- `HashMap` and `BTreeMap` of the standard library, as far as the sources use them: finite maps as
-- lists of entries with no key twice. Nothing modelled reads the order of the entries.
use mathlib.Core.Option.{some-injective}
use cyber_sentinel_ids_ips.Prelude.{
  ℕ, suc, ◌+◌, ◌≤◌, ◌≡◌, ◌↔◌, refl, sym, ◌∙◌, ap, Bool, true, false, Option, none, some, List, [],
  ◌∷◌, length, if◌then◌else◌, arith, Bool-cases, inl, inr, ◌⊎◌, ◌>>=◌,
}

-- Equality of keys, as a test.
pub record Key {ℓ} (K : Type ℓ) : Type ℓ where
  pub key_eq : K → K → Bool
  pub key_eq_iff : (a b : K) → (key_eq a b ≡ true) ↔ (a ≡ b)

abbrev pub Map {ℓ κ} : Type ℓ → Type κ → Type (ℓ ⊔ κ)
Map K V = List (K × V)

abbrev pub present {ℓ} : {A : Type ℓ} → Option A → Bool
present none = false
present (some a) = true

none_of {ℓ} : {A : Type ℓ} (o : Option A) → present o ≡ false → o ≡ none
none_of none h = refl
none_of (some a) h = cc

module _ {ℓ κ} {K : Type ℓ} {V : Type κ} ⦃q : Key K⦄ where
  unfoldable pub get : K → Map K V → Option V
  get k [] = none
  get k ((j, v) ∷ m) = if q.key_eq j k then some v else get k m

  abbrev pub contains_key : K → Map K V → Bool
  contains_key k m = present (get k m)

  unfoldable pub insert : K → V → Map K V → Map K V
  insert k v [] = (k, v) ∷ []
  insert k v ((j, w) ∷ m) = if q.key_eq j k then (j, v) ∷ m else (j, w) ∷ insert k v m

  unfoldable pub remove : K → Map K V → Map K V
  remove k [] = []
  remove k ((j, v) ∷ m) = let rest = remove k m in if q.key_eq j k then rest else (j, v) ∷ rest

  unfoldable pub retain_map : (K → V → Bool) → Map K V → Map K V
  retain_map p [] = []
  retain_map p ((j, v) ∷ m) = let rest = retain_map p m in if p j v then (j, v) ∷ rest else rest

  unfoldable pub keep_some : K → Option V → Map K V → Map K V
  keep_some k none m = m
  keep_some k (some v) m = (k, v) ∷ m

  -- `retain` with a test that also changes the value: `none` where it does not keep it.
  unfoldable pub retain_mut : (K → V → Option V) → Map K V → Map K V
  unfolding keep_some
  retain_mut f [] = []
  retain_mut f ((j, v) ∷ m) = keep_some j (f j v) (retain_mut f m)

  -- No key stands twice.
  abbrev pub IsMap : Map K V → Type 0
  IsMap [] = Unit
  IsMap ((k, v) ∷ m) = (contains_key k m ≡ false) × IsMap m

contains_key-nil {ℓ κ} :
    {K : Type ℓ} (V : Type κ) ⦃q : Key K⦄ (k : K)
    → contains_key k (let m : Map K V = [] in m) ≡ false
unfolding get
contains_key-nil V k = refl

module _ {ℓ κ} {K : Type ℓ} {V : Type κ} ⦃q : Key K⦄ where
  pub get-insert :
      (k j : K) (v : V) (m : Map K V)
      → get j (insert k v m) ≡ (if q.key_eq k j then some v else get j m)
  unfolding get insert
  get-insert k j v [] = refl
  get-insert k j v ((i, w) ∷ m) =
      ground (arith, q.key_eq_iff i k, q.key_eq_iff i j, q.key_eq_iff k j, get-insert k j v m)

  -- An entry of a map with one key set is the entry set or was there before.
  pub get-insert-some :
      (k j : K) (v w : V) (m : Map K V)
      → get j (insert k v m) ≡ some w
      → ((k ≡ j) × (v ≡ w)) ⊎ (get j m ≡ some w)
  get-insert-some k j v w m h = elim (Bool-cases (q.key_eq k j)) [
    | inl same ↦
        inl (
          (q.key_eq_iff k j).0 same,
          some-injective v w (rw same at (sym (get-insert k j v m) ∙ h)),
        )
    | inr other ↦ inr (rw other at (sym (get-insert k j v m) ∙ h))
  ]

  pub get-remove :
      (k j : K) (m : Map K V) → get j (remove k m) ≡ (if q.key_eq k j then none else get j m)
  unfolding get remove
  get-remove k j [] = ground arith
  get-remove k j ((i, w) ∷ m) =
      ground (arith, q.key_eq_iff i k, q.key_eq_iff i j, q.key_eq_iff k j, get-remove k j m)

  pub absent_of : (i j : K) (m : Map K V) → i ≡ j → contains_key i m ≡ false → get j m ≡ none
  absent_of i j m e h = rw (← e) (none_of (get i m) h)

  abbrev pub kept : (K → V → Bool) → K → Option V → Option V
  kept p k none = none
  kept p k (some v) = if p k v then some v else none

  pub get-retain_map :
      (p : K → V → Bool) (j : K) (m : Map K V)
      → IsMap m
      → get j (retain_map p m) ≡ kept p j (get j m)
  unfolding get retain_map
  get-retain_map p j [] h = refl
  get-retain_map p j ((i, w) ∷ m) h = elim (Bool-cases (q.key_eq i j)) [
    | inl found ↦
        let same : i ≡ j = (q.key_eq_iff i j).0 found in
        let absent : get j m ≡ none = absent_of i j m same h.0 in
        let here : p i w ≡ p j w = ap (λ k. p k w) same in ground (arith, get-retain_map p j m h.1)
    | inr other ↦ ground (arith, get-retain_map p j m h.1)
  ]

  pub length-insert :
      (k : K) (v : V) (m : Map K V)
      → length (insert k v m) ≡ (if contains_key k m then length m else suc (length m))
  unfolding get insert
  length-insert k v [] = refl
  length-insert k v ((i, w) ∷ m) = ground (arith, length-insert k v m)

  pub length-remove : (k : K) (m : Map K V) → length (remove k m) ≤ length m
  unfolding remove
  length-remove k [] = omega arith
  length-remove k ((i, w) ∷ m) = ground (arith, length-remove k m)

  pub length-retain_map : (p : K → V → Bool) (m : Map K V) → length (retain_map p m) ≤ length m
  unfolding retain_map
  length-retain_map p [] = omega arith
  length-retain_map p ((i, w) ∷ m) = ground (arith, length-retain_map p m)

  pub insert-IsMap : (k : K) (v : V) (m : Map K V) → IsMap m → IsMap (insert k v m)
  unfolding insert
  insert-IsMap k v [] h = (contains_key-nil V k, tt)
  insert-IsMap k v ((i, w) ∷ m) h = elim (Bool-cases (q.key_eq i k)) [
    | inl found ↦ rw found (h.0, h.1)
    | inr other ↦ rw other (
      ground (arith, get-insert k i v m, q.key_eq_iff i k, q.key_eq_iff k i),
      insert-IsMap k v m h.1,
    )
  ]

  pub remove-IsMap : (k : K) (m : Map K V) → IsMap m → IsMap (remove k m)
  unfolding remove
  remove-IsMap k [] h = tt
  remove-IsMap k ((i, w) ∷ m) h = elim (Bool-cases (q.key_eq i k)) [
    | inl found ↦ rw found (remove-IsMap k m h.1)
    | inr other ↦ rw other (ground (arith, get-remove k i m), remove-IsMap k m h.1)
  ]

  pub retain_map-IsMap : (p : K → V → Bool) (m : Map K V) → IsMap m → IsMap (retain_map p m)
  unfolding retain_map
  retain_map-IsMap p [] h = tt
  retain_map-IsMap p ((i, w) ∷ m) h = elim (Bool-cases (p i w)) [
    | inl keeps ↦ rw keeps (ground (arith, get-retain_map p i m h.1), retain_map-IsMap p m h.1)
    | inr drops ↦ rw drops (retain_map-IsMap p m h.1)
  ]

module _ {ℓ κ} {K : Type ℓ} {V : Type κ} ⦃q : Key K⦄ where
  kept-some : (p : K → V → Bool) (k : K) (o : Option V) (v : V) → kept p k o ≡ some v → o ≡ some v
  kept-some p k none v h = h
  kept-some p k (some w) v h = ground arith

  pub get-retain_map-some :
      (p : K → V → Bool) (j : K) (m : Map K V) (v : V)
      → IsMap m
      → get j (retain_map p m) ≡ some v
      → get j m ≡ some v
  get-retain_map-some p j m v u h = kept-some p j (get j m) v (sym (get-retain_map p j m u) ∙ h)

  pub get-remove-some :
      (k j : K) (m : Map K V) (v : V) → get j (remove k m) ≡ some v → get j m ≡ some v
  get-remove-some k j m v h = ground (arith, get-remove k j m)

  get-keep_some :
      (i j : K) (o : Option V) (m : Map K V)
      → get j m ≡ none
      → get j (keep_some i o m) ≡ (if q.key_eq i j then o else none)
  unfolding get keep_some
  get-keep_some i j none m h = ground arith
  get-keep_some i j (some v) m h = ground arith

  get-keep_some_other :
      (i j : K) (o : Option V) (m : Map K V)
      → q.key_eq i j ≡ false
      → get j (keep_some i o m) ≡ get j m
  unfolding get keep_some
  get-keep_some_other i j none m h = refl
  get-keep_some_other i j (some v) m h = rw h refl

  pub get-retain_mut :
      (f : K → V → Option V) (j : K) (m : Map K V)
      → IsMap m
      → get j (retain_mut f m) ≡ (get j m >>= f j)
  unfolding get retain_mut
  get-retain_mut f j [] h = refl
  get-retain_mut f j ((i, w) ∷ m) h = elim (Bool-cases (q.key_eq i j)) [
    | inl found ↦
        let same : i ≡ j = (q.key_eq_iff i j).0 found in
        let absent : get j m ≡ none = absent_of i j m same h.0 in
        get-keep_some i j (f i w) (retain_mut f m)
          (get-retain_mut f j m h.1 ∙ ap (λ o. o >>= f j) absent)
        ∙ rw (found, same) refl
    | inr other ↦
        get-keep_some_other i j (f i w) (retain_mut f m) other
        ∙ get-retain_mut f j m h.1
        ∙ rw other refl
  ]

  keep_some-IsMap :
      (i : K) (o : Option V) (m : Map K V) → get i m ≡ none → IsMap m → IsMap (keep_some i o m)
  unfolding keep_some
  keep_some-IsMap i none m h s = s
  keep_some-IsMap i (some v) m h s = (ap present h, s)

  pub retain_mut-IsMap : (f : K → V → Option V) (m : Map K V) → IsMap m → IsMap (retain_mut f m)
  unfolding retain_mut
  retain_mut-IsMap f [] h = h
  retain_mut-IsMap f ((i, w) ∷ m) h =
      keep_some-IsMap i (f i w) (retain_mut f m)
        (get-retain_mut f i m h.1 ∙ ap (λ o. o >>= f i) (none_of (get i m) h.0))
        (retain_mut-IsMap f m h.1)

  length-keep_some :
      (i : K) (o : Option V) (m : Map K V) → length (keep_some i o m) ≤ suc (length m)
  unfolding keep_some
  length-keep_some i none m = omega arith
  length-keep_some i (some v) m = omega arith

  pub length-retain_mut : (f : K → V → Option V) (m : Map K V) → length (retain_mut f m) ≤ length m
  unfolding retain_mut
  length-retain_mut f [] = omega arith
  length-retain_mut f ((i, w) ∷ m) =
      omega (arith, length-retain_mut f m, length-keep_some i (f i w) (retain_mut f m))

  -- A key that is not there is not removed.
  pub remove-absent : (k : K) (m : Map K V) → get k m ≡ none → remove k m ≡ m
  unfolding get remove
  remove-absent k [] h = refl
  remove-absent k ((i, w) ∷ m) h = elim (Bool-cases (q.key_eq i k)) [
    | inl found ↦ absurd (cc (rw found at h))
    | inr other ↦ rw other (ap (λ r. (i, w) ∷ r) (remove-absent k m (rw other at h)))
  ]

  pub length-remove-some :
      (k : K) (v : V) (m : Map K V)
      → IsMap m
      → get k m ≡ some v
      → suc (length (remove k m)) ≡ length m
  unfolding get remove
  length-remove-some k v [] u h = absurd (cc h)
  length-remove-some k v ((i, w) ∷ m) u h = elim (Bool-cases (q.key_eq i k)) [
    | inl found ↦
        rw (found, remove-absent k m (absent_of i k m ((q.key_eq_iff i k).0 found) u.0)) refl
    | inr other ↦ rw other (ap suc (length-remove-some k v m u.1 (rw other at h)))
  ]

-- A number of a value that may be there.
abbrev pub size_of {ℓ} : {V : Type ℓ} → (V → ℕ) → Option V → ℕ
size_of size none = 0
size_of size (some v) = size v

-- A number of each value, added up.
unfoldable pub total_of {ℓ κ} : {K : Type ℓ} {V : Type κ} → (V → ℕ) → Map K V → ℕ
total_of size [] = 0
total_of size ((k, v) ∷ m) = size v + total_of size m

module _ {ℓ κ} {K : Type ℓ} {V : Type κ} ⦃q : Key K⦄ (size : V → ℕ) where
  pub total_of-insert :
      (k : K) (v : V) (m : Map K V)
      → total_of size (insert k v m) + size_of size (get k m) ≡ total_of size m + size v
  unfolding total_of insert get
  total_of-insert k v [] = omega arith
  total_of-insert k v ((i, w) ∷ m) = elim (Bool-cases (q.key_eq i k)) [
    | inl found ↦ rw found (omega arith)
    | inr other ↦ rw other (omega (arith, total_of-insert k v m))
  ]

  pub total_of-remove :
      (k : K) (m : Map K V)
      → IsMap m
      → total_of size (remove k m) + size_of size (get k m) ≡ total_of size m
  unfolding total_of remove get
  total_of-remove k [] u = omega arith
  total_of-remove k ((i, w) ∷ m) u = elim (Bool-cases (q.key_eq i k)) [
    | inl found ↦
        rw (found, remove-absent k m (absent_of i k m ((q.key_eq_iff i k).0 found) u.0))
          (omega arith)
    | inr other ↦ rw other (omega (arith, total_of-remove k m u.1))
  ]
