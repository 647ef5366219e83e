-- ===== src/Engine/Eval/Bits.antt =====
-- `FlowBits::apply` of crates/engine/src/eval.rs, and every bit behind it, at the cap and below.
use cyber_sentinel_ids_ips.Prelude.{
  ℕ, ◌≤◌, ◌≡◌, refl, ap, ◌∙◌, Bool, true, false, ◌&&◌, not, none, some, Option, sym, length, ltb,
  leb, if◌then◌else◌, arith, Bool-cases, inl, inr, String,
}
use cyber_sentinel_ids_ips.Common.Map.{
  get, insert, remove, present, get-insert, get-remove, length-insert, length-remove,
}
use cyber_sentinel_ids_ips.Correlation.{string_key}
use cyber_sentinel_ids_ips.Rules.Options.{
  FlowBitsOp, set_bit, unset_bit, toggle_bit, is_set_bit, is_not_set_bit, no_alert,
}
use cyber_sentinel_ids_ips.Engine.Eval.{FlowBits, is_set, apply}

-- What a bit is after an effect that is carried out.
abbrev pub bit_after : FlowBitsOp → String → Bool → Bool
bit_after (set_bit name) asked before = if string_key.key_eq name asked then true else before
bit_after (unset_bit name) asked before = if string_key.key_eq name asked then false else before
bit_after (toggle_bit name) asked before =
    if string_key.key_eq name asked then not before else before
bit_after op asked before = before

apply-capped :
    (bits : FlowBits) (op : FlowBitsOp) (limit : ℕ)
    → length bits ≤ limit
    → length (apply bits op limit) ≤ limit
unfolding apply
apply-capped bits (set_bit name) limit h = ground (arith, length-insert name tt bits)
apply-capped bits (unset_bit name) limit h = omega (arith, length-remove name bits)
apply-capped bits (toggle_bit name) limit h =
    ground (arith, length-insert name tt bits, length-remove name bits)
apply-capped bits (is_set_bit name) limit h = h
apply-capped bits (is_not_set_bit name) limit h = h
apply-capped bits no_alert limit h = h

present-if :
    (b : Bool) (o : Option (Unit {0}))
    → present (if b then some tt else o) ≡ (if b then true else present o)
present-if true o = refl
present-if false o = refl

absent-if :
    (b : Bool) (o : Option (Unit {0}))
    → present (if b then none else o) ≡ (if b then false else present o)
absent-if true o = refl
absent-if false o = refl

is_set-insert :
    (name asked : String) (bits : FlowBits)
    → is_set (insert name tt bits) asked ≡ bit_after (set_bit name) asked (is_set bits asked)
is_set-insert name asked bits =
    ap present (get-insert name asked tt bits)
    ∙ present-if (string_key.key_eq name asked) (get asked bits)

is_set-remove :
    (name asked : String) (bits : FlowBits)
    → is_set (remove name bits) asked ≡ bit_after (unset_bit name) asked (is_set bits asked)
is_set-remove name asked bits =
    ap present (get-remove name asked bits)
    ∙ absent-if (string_key.key_eq name asked) (get asked bits)

toggled :
    (name asked : String) (bits : FlowBits) (b : Bool)
    → is_set bits name ≡ b
    → (if string_key.key_eq name asked then not b else is_set bits asked)
      ≡ bit_after (toggle_bit name) asked (is_set bits asked)
toggled name asked bits b h = elim (Bool-cases (string_key.key_eq name asked)) [
  | inl same ↦
      let e : name ≡ asked = (string_key.key_eq_iff name asked).0 same in
      rw same (ap not (sym h ∙ ap (is_set bits) e))
  | inr other ↦ rw other refl
]

-- Whether an effect would add a bit where no more are taken.
abbrev pub is_refused : FlowBits → FlowBitsOp → ℕ → Bool
is_refused bits (set_bit name) limit = not (is_set bits name) && leb limit (length bits)
is_refused bits (toggle_bit name) limit = not (is_set bits name) && leb limit (length bits)
is_refused bits op limit = false

apply-is_set :
    (bits : FlowBits) (op : FlowBitsOp) (limit : ℕ) (asked : String)
    → is_set (apply bits op limit) asked ≡ (
        if is_refused bits op limit
        then is_set bits asked
        else bit_after op asked (is_set bits asked))
unfolding apply
apply-is_set bits (set_bit name) limit asked = elim (Bool-cases (is_set bits name)) [
  | inl there ↦ elim (Bool-cases (ltb (length bits) limit)) [
    | inl free ↦ rw (there, free) (is_set-insert name asked bits)
    | inr full ↦ rw (there, full) (is_set-insert name asked bits)
  ]
  | inr absent ↦ elim (Bool-cases (ltb (length bits) limit)) [
    | inl free ↦
        let room : leb limit (length bits) ≡ false = ground arith in
        rw (absent, free, room) (is_set-insert name asked bits)
    | inr full ↦
        let none_left : leb limit (length bits) ≡ true = ground arith in
        rw (absent, full, none_left) refl
  ]
]
apply-is_set bits (unset_bit name) limit asked = is_set-remove name asked bits
apply-is_set bits (toggle_bit name) limit asked = elim (Bool-cases (is_set bits name)) [
  | inl there ↦ rw there (is_set-remove name asked bits ∙ toggled name asked bits true there)
  | inr absent ↦ elim (Bool-cases (ltb (length bits) limit)) [
    | inl free ↦
        let room : leb limit (length bits) ≡ false = ground arith in
        rw (absent, free, room)
          (is_set-insert name asked bits ∙ toggled name asked bits false absent)
    | inr full ↦
        let none_left : leb limit (length bits) ≡ true = ground arith in
        rw (absent, full, none_left) refl
  ]
]
apply-is_set bits (is_set_bit name) limit asked = refl
apply-is_set bits (is_not_set_bit name) limit asked = refl
apply-is_set bits no_alert limit asked = refl

-- An effect never takes the bits of a flow past their cap. One that would add a bit at the cap leaves
-- every bit as it was. Any other sets, clears or flips its own bit and leaves every other bit as it
-- was, at the cap too; a condition changes none.
pub apply-Bits :
    (bits : FlowBits) (op : FlowBitsOp) (limit : ℕ)
    → length bits ≤ limit
    → (length (apply bits op limit) ≤ limit)
      × ((asked : String)
          → is_set (apply bits op limit) asked ≡ (
              if is_refused bits op limit
              then is_set bits asked
              else bit_after op asked (is_set bits asked)))
apply-Bits bits op limit h =
    (apply-capped bits op limit h, λ asked. apply-is_set bits op limit asked)
