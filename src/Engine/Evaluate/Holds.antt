-- ===== src/Engine/Evaluate/Holds.antt =====
-- What the options of a rule of crates/engine/src/eval.rs ask for.
use cyber_sentinel_ids_ips.Prelude.{
  ℕ, ◌+◌, ◌≤◌, ◌<◌, ◌≡◌, Bool, true, false, Option, none, some, List, [], ◌∷◌, ◌++◌, length, min,
  drop, if◌then◌else◌,
}
use cyber_sentinel_ids_ips.Rules.Options.{
  FlowBitsOp, is_set_bit, is_not_set_bit, is_condition, dsize_matches, ContentMatch, FlowMatch,
  Buffer, ByteTest, apply_op,
}
use cyber_sentinel_ids_ips.Engine.Eval.{
  buffer_of, MatchInput, FlowBits, is_set, normalization_matches, cursor_of, apply_byte_jump,
  move_cursor, resolve_position, read_number, differs,
}
use cyber_sentinel_ids_ips.Engine.Eval.Find.{occurs_at}
use cyber_sentinel_ids_ips.Engine.Evaluate.{
  CompiledOption, content_option, pcre_option, flow_option, flow_bits_option, byte_test_option,
  byte_jump_option, dsize_option, normalized_option, Progress,
}
use cyber_sentinel_ids_ips.Engine.Eval.Window.{InWindow}

-- The place in the buffers that a condition leaves: a cursor that moved, or all as it was.
abbrev pub Moves : Progress → Progress → Buffer → ℕ → Type 0
Moves p q buffer moved = (q.cursors ≡ move_cursor p.cursors buffer moved) × (q.current ≡ buffer)

abbrev pub Stays : Progress → Progress → Type 0
Stays p q = (q.cursors ≡ p.cursors) × (q.current ≡ p.current)

-- A content option from a cursor: its pattern stands first at a place of its window, or nowhere in it.
abbrev pub ContentHolds : ContentMatch → List ℕ → ℕ → ℕ → Type 0
ContentHolds content haystack cursor moved =
    (content.negated ≡ false
      → (place : ℕ) × (moved ≡ place + length content.pattern)
        × InWindow content (length haystack) cursor place
        × (occurs_at content haystack place ≡ true)
        × ((q : ℕ)
            → InWindow content (length haystack) cursor q
            → q < place
            → occurs_at content haystack q ≡ false))
    × (content.negated ≡ true
        → (moved ≡ cursor)
          × (1 ≤ length content.pattern
              → (q : ℕ) → InWindow content (length haystack) cursor q
              → occurs_at content haystack q ≡ false))

-- An expression that is searched for from a place finds something, or nothing if it is negated.
abbrev pub PcreHolds : Bool → ℕ → ℕ → Option ℕ → ℕ → Type 0
PcreHolds negated cursor start o moved =
    (negated ≡ false → (end : ℕ) × (o ≡ some end) × (moved ≡ start + end))
    × (negated ≡ true → (o ≡ none) × (moved ≡ cursor))

-- The connection is in the state and goes in the direction asked for, where one is.
abbrev pub FlowHolds : FlowMatch → MatchInput → Type 0
FlowHolds flow input =
    ((b : Bool) → flow.established ≡ some b → input.established ≡ b)
    × ((b : Bool) → flow.to_server ≡ some b → input.to_server ≡ b)

-- The number that a byte test reads is there and compares as asked.
abbrev pub ByteTestHolds : ByteTest → List ℕ → ℕ → Type 0
ByteTestHolds test haystack cursor =
    (place value : ℕ) × (resolve_position cursor test.offset test.relative ≡ some place)
    × (read_number haystack place test.bytes test.endian ≡ some value)
    × (differs test.negated (apply_op test.op value test.value) ≡ true)

abbrev pub BitHolds : FlowBits → FlowBitsOp → Type 0
BitHolds bits (is_set_bit name) = is_set bits name ≡ true
BitHolds bits (is_not_set_bit name) = is_set bits name ≡ false
BitHolds bits op = Unit

-- What an option asks of its input, from the cursors and the buffer that the options before it leave
-- in `p` to those that it leaves in `q`.
abbrev pub Holds :
    {Regex : Type 0}
    → (Regex → List ℕ → Option ℕ)
    → MatchInput
    → FlowBits
    → CompiledOption Regex
    → Progress
    → Progress
    → Type 0
Holds search input bits (content_option content) p q =
    (haystack : List ℕ) × (buffer_of input.buffers content.buffer ≡ some haystack)
    × (moved : ℕ) × Moves p q content.buffer moved
    × ContentHolds content haystack (cursor_of p.cursors content.buffer) moved
Holds search input bits (pcre_option matcher buffer negated relative) p q =
    (haystack : List ℕ) × (buffer_of input.buffers buffer ≡ some haystack)
    × (moved : ℕ) × Moves p q buffer moved
    × (let cursor = cursor_of p.cursors buffer in
        let start = if relative then min cursor (length haystack) else 0 in
        PcreHolds negated cursor start (search matcher (drop start haystack)) moved)
Holds search input bits (flow_option flow) p q = FlowHolds flow input × Stays p q
Holds search input bits (flow_bits_option op) p q = BitHolds bits op × Stays p q
Holds search input bits (byte_test_option test) p q =
    (haystack : List ℕ) × (buffer_of input.buffers p.current ≡ some haystack)
    × ByteTestHolds test haystack (cursor_of p.cursors p.current)
    × Stays p q
Holds search input bits (byte_jump_option jump) p q =
    (haystack : List ℕ) × (buffer_of input.buffers p.current ≡ some haystack)
    × (moved : ℕ) × Moves p q p.current moved
    × (apply_byte_jump jump haystack (cursor_of p.cursors p.current) ≡ some moved)
    × (moved ≤ length haystack)
Holds search input bits (dsize_option dsize) p q =
    (haystack : List ℕ) × (buffer_of input.buffers p.current ≡ some haystack)
    × (dsize_matches dsize (length haystack) ≡ true)
    × Stays p q
Holds search input bits (normalized_option condition) p q =
    (normalization_matches condition input.buffers.normalization ≡ true) × Stays p q

-- Each option holds, in order, from where the one before it left the cursors.
abbrev pub AllHold :
    {Regex : Type 0}
    → (Regex → List ℕ → Option ℕ)
    → MatchInput
    → FlowBits
    → List (CompiledOption Regex)
    → Progress
    → Type 0
AllHold search input bits [] p = Unit
AllHold search input bits (option ∷ options) p =
    (q : Progress) × Holds search input bits option p q × AllHold search input bits options q

-- The effects that an option asks for.
abbrev pub effect_of : {Regex : Type 0} → CompiledOption Regex → List FlowBitsOp
effect_of (flow_bits_option op) = if is_condition op then [] else op ∷ []
effect_of option = []

unfoldable pub effects_of : {Regex : Type 0} → List (CompiledOption Regex) → List FlowBitsOp
effects_of [] = []
effects_of (option ∷ options) = effect_of option ++ effects_of options
