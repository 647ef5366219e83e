-- ===== src/Reassembly/Normalize.antt =====
-- crates/reassembly/src/normalize.rs: the canonical spelling of a path. Bytes are the numbers below
-- 256.
pub mod Collapse
pub mod Rounds
pub mod Layers
pub mod Shorter
pub mod Names
mod Backslashes
pub mod Written
pub mod Canonical
mod Tests
use cyber_sentinel_ids_ips.Prelude.{
  ℕ, zero, suc, ◌+◌, ◌-◌, ◌*◌, Bool, true, false, ◌&&◌, ◌||◌, not, Option, none, some, List, [],
  ◌∷◌, ◌++◌, length, any, ltb, leb, ◌==◌, if◌then◌else◌, map,
}

pub record NormalizationFlags : Type 0 where
  pub percent_encoded : Bool
  pub double_encoded : Bool
  pub invalid_escape : Bool
  pub null_byte : Bool
  pub traversal : Bool
  pub above_root : Bool
  pub self_reference : Bool
  pub empty_segment : Bool
  pub backslash : Bool
  pub decode_limit_reached : Bool

abbrev pub no_flags : NormalizationFlags
no_flags = record {
  percent_encoded = false;
  double_encoded = false;
  invalid_escape = false;
  null_byte = false;
  traversal = false;
  above_root = false;
  self_reference = false;
  empty_segment = false;
  backslash = false;
  decode_limit_reached = false;
}

-- `*self != Self::default()`.
unfoldable pub any_flag : NormalizationFlags → Bool
any_flag f =
    f.percent_encoded || f.double_encoded || f.invalid_escape || f.null_byte || f.traversal
    || f.above_root || f.self_reference || f.empty_segment || f.backslash || f.decode_limit_reached

abbrev pub merge : NormalizationFlags → NormalizationFlags → NormalizationFlags
merge f g = record {
  percent_encoded = f.percent_encoded || g.percent_encoded;
  double_encoded = f.double_encoded || g.double_encoded;
  invalid_escape = f.invalid_escape || g.invalid_escape;
  null_byte = f.null_byte || g.null_byte;
  traversal = f.traversal || g.traversal;
  above_root = f.above_root || g.above_root;
  self_reference = f.self_reference || g.self_reference;
  empty_segment = f.empty_segment || g.empty_segment;
  backslash = f.backslash || g.backslash;
  decode_limit_reached = f.decode_limit_reached || g.decode_limit_reached;
}

pub record NormalizeOptions : Type 0 where
  pub decode_rounds : ℕ
  pub collapses_path : Bool
  pub backslash_is_separator : Bool

abbrev pub default_options : NormalizeOptions
default_options = record {
  decode_rounds = 2;
  collapses_path = true;
  backslash_is_separator = false;
}

pub record Normalized : Type 0 where
  pub bytes : List ℕ
  pub rounds_applied : ℕ
  pub flags : NormalizationFlags

-- The value of a hexadecimal digit.
unfoldable pub hex_value : ℕ → Option ℕ
hex_value byte =
    if leb 48 byte && leb byte 57
    then some (byte - 48)
    else if leb 97 byte && leb byte 102
    then some (byte - 97 + 10)
    else if leb 65 byte && leb byte 70
    then some (byte - 65 + 10)
    else none

abbrev pub both_digits : Option ℕ → Option ℕ → Option ℕ
both_digits none low = none
both_digits (some high) none = none
both_digits (some high) (some low) = some (high * 16 + low)

-- The byte that three bytes spell, where they are an escape. `(high << 4) | low` is a sum, since
-- both digits are below 16.
unfoldable pub escape : ℕ → ℕ → ℕ → Option ℕ
unfolding hex_value
escape b high low = if b == 37 then both_digits (hex_value high) (hex_value low) else none

-- A byte that stands for itself in front of what is decoded.
abbrev pub literal : ℕ → List ℕ × NormalizationFlags → List ℕ × NormalizationFlags
literal b (out, flags) =
    (b ∷ out, if b == 37 then record flags { invalid_escape = true } else flags)

-- A byte that an escape stands for in front of what is decoded.
abbrev pub unescaped : ℕ → List ℕ × NormalizationFlags → List ℕ × NormalizationFlags
unescaped byte (out, flags) =
    (byte ∷ out, record flags { percent_encoded = true; null_byte = byte == 0 || flags.null_byte })

unfoldable pub percent_decode : List ℕ → List ℕ × NormalizationFlags
percent_decode [] = ([], no_flags)
percent_decode (b ∷ []) = literal b ([], no_flags)
percent_decode (b ∷ h ∷ []) = literal b (percent_decode (h ∷ []))
percent_decode (b ∷ h ∷ l ∷ rest) = elim (escape b h l) [
  | none ↦ literal b (percent_decode (h ∷ l ∷ rest))
  | some byte ↦ unescaped byte (percent_decode rest)
]

-- `==` on byte strings.
unfoldable pub bytes_eq : List ℕ → List ℕ → Bool
bytes_eq [] [] = true
bytes_eq [] (y ∷ ys) = false
bytes_eq (x ∷ xs) [] = false
bytes_eq (x ∷ xs) (y ∷ ys) = x == y && bytes_eq xs ys

-- One round that changed something; one behind the first found an escape that was encoded itself.
abbrev pub after_round : ℕ → Normalized → Normalized
after_round round state =
    let (decoded, found) = percent_decode state.bytes in
    let flags = merge state.flags found in
    record {
      bytes = decoded;
      rounds_applied = suc round;
      flags = if ltb 0 round then record flags { double_encoded = true } else flags;
    }

-- The rounds that are left, `round` of them gone by.
unfoldable pub decode_rounds_from : ℕ → ℕ → Normalized → Normalized
decode_rounds_from zero round state = state
decode_rounds_from (suc left) round state =
    let rest = decode_rounds_from left (suc round) (after_round round state) in
    if bytes_eq (percent_decode state.bytes).0 state.bytes then state else rest

-- Whether escapes are still there behind the last round.
abbrev pub check_limit : ℕ → Normalized → Normalized
check_limit rounds state =
    if state.rounds_applied == rounds
      && ltb 0 rounds
      && not (bytes_eq (percent_decode state.bytes).0 state.bytes)
    then record state { flags = record (state.flags) { decode_limit_reached = true } }
    else state

unfoldable pub percent_decode_repeatedly : List ℕ → ℕ → Normalized
unfolding decode_rounds_from
percent_decode_repeatedly input rounds =
    check_limit rounds
      (decode_rounds_from rounds 0 record { bytes = input; rounds_applied = 0; flags = no_flags })
