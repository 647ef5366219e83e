-- ===== src/Reassembly/Normalize/Names.antt =====
-- The segments that `collapse_path` of crates/reassembly/src/normalize.rs keeps.
use mathlib.Core.Path.{subst}
use mathlib.Core.Option.{some-injective}
use cyber_sentinel_ids_ips.Prelude.{
  ℕ, ◌≡◌, refl, Bool, false, some, List, [], ◌∷◌, any, ◌==◌, arith, Bool-cases, Option-cases, inl,
  inr, Every, Every-append,
}
use cyber_sentinel_ids_ips.Reassembly.Normalize.Collapse.{
  PartKind, empty_part, self_part, parent_part, name_part, part_kind, into_first, split, pop, Walk,
  visit_kind, visit, visit_all,
}

abbrev pub is_separator : ℕ → Bool
is_separator b = b == 47

abbrev pub HasNoSeparator : List ℕ → Type 0
HasNoSeparator part = any is_separator part ≡ false

-- A part that names something: not empty, not `.` or `..`, and with no separator in it.
abbrev pub IsName : List ℕ → Type 0
IsName part = (part_kind part ≡ name_part) × (any is_separator part ≡ false)

into_first-Every :
    (b : ℕ) (parts : List (List ℕ))
    → (b == 47) ≡ false
    → Every HasNoSeparator parts
    → Every HasNoSeparator (into_first b parts)
into_first-Every b [] h k = (ground arith, tt)
into_first-Every b (part ∷ parts) h k = (ground (arith, k.0), k.1)

pub split-Every : (input : List ℕ) → Every HasNoSeparator (split input)
unfolding split
split-Every [] = (refl, tt)
split-Every (b ∷ rest) = elim (Bool-cases (b == 47)) [
  | inl root ↦ rw root (refl, split-Every rest)
  | inr name ↦ rw name (into_first-Every b (split rest) name (split-Every rest))
]

-- What holds of every kept segment, where `good` gives it for a part that is a name.
module _ (P Q : List ℕ → Type 0)
    (good : (part : List ℕ) → part_kind part ≡ name_part → Q part → P part) where
  pop-Every :
      (segments kept : List (List ℕ)) → pop segments ≡ some kept → Every P segments → Every P kept
  unfolding pop
  pop-Every [] kept h e = cc h
  pop-Every (s ∷ []) kept h e = subst (Every P) (some-injective [] kept h) tt
  pop-Every (s ∷ t ∷ rest) kept h e = elim (Option-cases (pop (t ∷ rest))) [
    | inl nothing ↦ cc (rw (pop, nothing) at h)
    | inr (less, popped) ↦
        subst (Every P) (some-injective (s ∷ less) kept (rw (pop, popped) at h))
          (e.0, pop-Every (t ∷ rest) less popped e.1)
  ]

  visit_kind-Every :
      (w : Walk) (part : List ℕ) (kind : PartKind)
      → part_kind part ≡ kind
      → Q part
      → Every P w.segments
      → Every P (visit_kind w part kind).segments
  visit_kind-Every w part empty_part k n e = e
  visit_kind-Every w part self_part k n e = e
  visit_kind-Every w part parent_part k n e = elim (Option-cases (pop w.segments)) [
    | inl nothing ↦ rw nothing e
    | inr (kept, popped) ↦ rw popped (pop-Every w.segments kept popped e)
  ]
  visit_kind-Every w part name_part k n e =
      Every-append P w.segments (part ∷ []) e (good part k n, tt)

  pub visit_all-Every :
      (w : Walk) (parts : List (List ℕ))
      → Every Q parts
      → Every P w.segments
      → Every P (visit_all w parts).segments
  unfolding visit_all visit
  visit_all-Every w [] n e = e
  visit_all-Every w (part ∷ parts) n e =
      visit_all-Every (visit w part) parts n.1 (visit_kind-Every w part (part_kind part) refl n.0 e)

pub visit_all-IsName :
    (w : Walk) (parts : List (List ℕ))
    → Every HasNoSeparator parts
    → Every IsName w.segments
    → Every IsName (visit_all w parts).segments
visit_all-IsName = visit_all-Every IsName HasNoSeparator (λ part k n. (k, n))
