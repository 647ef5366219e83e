-- ===== src/Reassembly/Normalize/Layers.antt =====
-- Percent-encoding, as a sender does it, against the decoding of crates/reassembly/src/normalize.rs.
use mathlib.Core.Path.{subst}
use cyber_sentinel_ids_ips.Prelude.{
  ℕ, zero, suc, ◌+◌, ◌*◌, ◌/◌, ◌%◌, ◌≤◌, ◌<◌, ◌≡◌, inl, inr, refl, sym, ap, ◌∙◌, Bool, true, false,
  some, List, [], ◌∷◌, length, all, ltb, if◌then◌else◌, arith, Bool-cases,
}
use cyber_sentinel_ids_ips.Reassembly.Normalize.{
  Normalized, no_flags, escape, hex_value, percent_decode, bytes_eq, decode_rounds_from,
  after_round, check_limit, percent_decode_repeatedly,
}
use cyber_sentinel_ids_ips.Reassembly.Normalize.Rounds.{bytes_eq_iff}

abbrev pub hex_digit : ℕ → ℕ
hex_digit n = if ltb n 10 then 48 + n else 87 + n

-- Every byte as an escape.
unfoldable pub percent_encode : List ℕ → List ℕ
percent_encode [] = []
percent_encode (b ∷ rest) = 37 ∷ hex_digit (b / 16) ∷ hex_digit (b % 16) ∷ percent_encode rest

unfoldable pub encode_layers : ℕ → List ℕ → List ℕ
unfolding percent_encode
encode_layers zero text = text
encode_layers (suc n) text = percent_encode (encode_layers n text)

abbrev is_byte : ℕ → Bool
is_byte b = ltb b 256

abbrev pub IsBytes : List ℕ → Type 0
IsBytes text = all is_byte text ≡ true

hex_value-digit : (n : ℕ) → n < 16 → hex_value (hex_digit n) ≡ some n
unfolding hex_value
hex_value-digit n h = ground arith

escape-digits : (b : ℕ) → b < 256 → escape 37 (hex_digit (b / 16)) (hex_digit (b % 16)) ≡ some b
unfolding escape
escape-digits b h =
    let high : hex_value (hex_digit (b / 16)) ≡ some (b / 16) =
      hex_value-digit (b / 16) (omega arith) in
    let low : hex_value (hex_digit (b % 16)) ≡ some (b % 16) =
      hex_value-digit (b % 16) (omega arith) in
    rw (high, low) (ap some (omega arith))

IsBytes-head : (b : ℕ) (rest : List ℕ) → IsBytes (b ∷ rest) → (b < 256) × IsBytes rest
IsBytes-head b rest h = (ground arith, ground arith)

hex_digit-IsByte : (n : ℕ) → n < 16 → is_byte (hex_digit n) ≡ true
hex_digit-IsByte n h = ground arith

escape-IsBytes :
    (high low : ℕ) (rest : List ℕ)
    → is_byte high ≡ true
    → is_byte low ≡ true
    → IsBytes rest
    → IsBytes (37 ∷ high ∷ low ∷ rest)
escape-IsBytes high low rest h l r = ground arith

percent_encode-IsBytes : (text : List ℕ) → IsBytes text → IsBytes (percent_encode text)
unfolding percent_encode
percent_encode-IsBytes [] h = refl
percent_encode-IsBytes (b ∷ rest) h =
    let (small, others) = IsBytes-head b rest h in
    escape-IsBytes (hex_digit (b / 16)) (hex_digit (b % 16)) (percent_encode rest)
      (hex_digit-IsByte (b / 16) (omega arith)) (hex_digit-IsByte (b % 16) (omega arith))
      (percent_encode-IsBytes rest others)

encode_layers-IsBytes : (n : ℕ) (text : List ℕ) → IsBytes text → IsBytes (encode_layers n text)
unfolding encode_layers
encode_layers-IsBytes zero text h = h
encode_layers-IsBytes (suc n) text h =
    percent_encode-IsBytes (encode_layers n text) (encode_layers-IsBytes n text h)

length-percent_encode : (text : List ℕ) → length (percent_encode text) ≡ 3 * length text
unfolding percent_encode
length-percent_encode [] = refl
length-percent_encode (b ∷ rest) = omega (arith, length-percent_encode rest)

-- Bytes written as escapes, one for each, decode in one pass to the bytes they were.
pub percent_decode-encode :
    (text : List ℕ) → IsBytes text → (percent_decode (percent_encode text)).0 ≡ text
unfolding percent_decode percent_encode
percent_decode-encode [] h = refl
percent_decode-encode (b ∷ rest) h =
    let (small, others) = IsBytes-head b rest h in
    rw (percent_decode, escape-digits b small)
      (ap (λ out. b ∷ out) (percent_decode-encode rest others))

encode_layers-longer : (n : ℕ) (text : List ℕ) → 1 ≤ length text → 1 ≤ length (encode_layers n text)
unfolding encode_layers
encode_layers-longer zero text h = h
encode_layers-longer (suc n) text h =
    omega (arith, encode_layers-longer n text h, length-percent_encode (encode_layers n text))

encode_changes :
    (text : List ℕ)
    → IsBytes text
    → 1 ≤ length text
    → bytes_eq (percent_decode (percent_encode text)).0 (percent_encode text) ≡ false
encode_changes text b h =
    elim (Bool-cases (bytes_eq (percent_decode (percent_encode text)).0 (percent_encode text))) [
      | inl same ↦
          let e : text ≡ percent_encode text =
            sym (percent_decode-encode text b)
            ∙ (bytes_eq_iff (percent_decode (percent_encode text)).0 (percent_encode text)).0
                same in
          absurd (omega (arith, ap length e, length-percent_encode text))
      | inr changed ↦ changed
    ]

peel :
    (n round : ℕ) (text : List ℕ) (state : Normalized)
    → IsBytes text
    → 1 ≤ length text
    → state.bytes ≡ encode_layers n text
    → state.rounds_applied ≡ round
    → ((decode_rounds_from n round state).bytes ≡ text)
      × ((decode_rounds_from n round state).rounds_applied ≡ round + n)
unfolding decode_rounds_from encode_layers
peel zero round text state b h e r = (e, omega arith)
peel (suc n) round text state b h e r =
    let layers : List ℕ = encode_layers n text in
    let bytes : IsBytes layers = encode_layers-IsBytes n text b in
    let changed : bytes_eq (percent_decode state.bytes).0 state.bytes ≡ false =
      subst (λ s. bytes_eq (percent_decode s).0 s ≡ false) (sym e)
        (encode_changes layers bytes (encode_layers-longer n text h)) in
    let inner : (percent_decode state.bytes).0 ≡ layers =
      ap (λ s. (percent_decode s).0) e ∙ percent_decode-encode layers bytes in
    let (text_left, rounds) = peel n (suc round) text (after_round round state) b h inner refl in
    rw changed (text_left, omega (arith, rounds))

check_limit-kept :
    (rounds : ℕ) (r : Normalized)
    → ((check_limit rounds r).bytes ≡ r.bytes)
      × ((check_limit rounds r).rounds_applied ≡ r.rounds_applied)
check_limit-kept rounds r = ground arith

-- Bytes encoded any number of times are decoded again by as many rounds: all of the rounds are
-- applied, and what is left are the bytes.
pub percent_decode_repeatedly-layers :
    (n : ℕ) (text : List ℕ)
    → IsBytes text
    → 1 ≤ length text
    → ((percent_decode_repeatedly (encode_layers n text) n).bytes ≡ text)
      × ((percent_decode_repeatedly (encode_layers n text) n).rounds_applied ≡ n)
unfolding percent_decode_repeatedly
percent_decode_repeatedly-layers n text b h =
    let start : Normalized = record {
      bytes = encode_layers n text;
      rounds_applied = 0;
      flags = no_flags;
    } in
    let (bytes, rounds) = peel n 0 text start b h refl refl in
    let (same_bytes, same_rounds) = check_limit-kept n (decode_rounds_from n 0 start) in
    (same_bytes ∙ bytes, omega (arith, same_rounds, rounds))
