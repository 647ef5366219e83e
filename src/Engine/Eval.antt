-- ===== src/Engine/Eval.antt =====
-- crates/engine/src/eval.rs: whether a rule matches. The regular expressions are a library: a matcher
-- and its search, which gives the end of what it finds, are parameters. Lengths and cursors are
-- natural numbers, which the source holds in 63 bits; 64-bit words keep their wrap-around.
pub mod Position
pub mod Window
pub mod Find
pub mod Bits
mod Tests
use cyber_sentinel_ids_ips.Prelude.{
  ℕ, zero, suc, ◌+◌, ◌-◌, ◌*◌, ◌%◌, ◌^◌, min, max, Bool, true, false, ◌&&◌, ◌||◌, not, Option, none,
  some, List, [], ◌∷◌, ◌++◌, length, take, drop, ltb, leb, ◌==◌, if◌then◌else◌, ◌>>=◌, unwrap_or,
  String,
}
use cyber_sentinel_ids_ips.Common.Int.{ℤ, pos, negsuc, diff, at_least_zero}
use cyber_sentinel_ids_ips.Common.Map.{Map, contains_key, insert, remove}
use cyber_sentinel_ids_ips.Common.Event.{NetTuple}
use cyber_sentinel_ids_ips.Correlation.{string_key}
use cyber_sentinel_ids_ips.Reassembly.Normalize.{NormalizationFlags}
use cyber_sentinel_ids_ips.Rules.Options.{
  Buffer, payload_buffer, http_uri_buffer, http_header_buffer, http_user_agent_buffer,
  http_method_buffer, http_host_buffer, ContentMatch, is_relative, is_blank, FlowMatch, FlowBitsOp,
  set_bit, unset_bit, toggle_bit, is_set_bit, is_not_set_bit, no_alert, is_condition, apply_op,
  Endian, big, little, ByteTest, ByteJump, DsizeMatch, dsize_matches, NormalizationCondition,
  percent_encoded_cond, double_encoded_cond, invalid_escape_cond, null_byte_cond, traversal_cond,
  above_root_cond, self_reference_cond, empty_segment_cond, backslash_cond,
  decode_limit_reached_cond,
}
use cyber_sentinel_ids_ips.Engine.Vars.{CompiledHeader, header_matches}

pub record Buffers : Type 0 where
  pub payload : List ℕ
  pub http_uri : Option (List ℕ)
  pub http_header : Option (List ℕ)
  pub http_user_agent : Option (List ℕ)
  pub http_method : Option (List ℕ)
  pub http_host : Option (List ℕ)
  pub normalization : NormalizationFlags

-- `Buffers::get`.
unfoldable pub buffer_of : Buffers → Buffer → Option (List ℕ)
buffer_of b payload_buffer = some b.payload
buffer_of b http_uri_buffer = b.http_uri
buffer_of b http_header_buffer = b.http_header
buffer_of b http_user_agent_buffer = b.http_user_agent
buffer_of b http_method_buffer = b.http_method
buffer_of b http_host_buffer = b.http_host

pub record MatchInput : Type 0 where
  pub tuple : NetTuple
  pub established : Bool
  pub to_server : Bool
  pub buffers : Buffers

-- The bits of a flow, by their names.
abbrev pub FlowBits : Type 0
FlowBits = Map String Unit

abbrev pub is_set : FlowBits → String → Bool
is_set bits name = contains_key name bits

-- `FlowBits::apply`.
unfoldable pub apply : FlowBits → FlowBitsOp → ℕ → FlowBits
apply bits (set_bit name) limit =
    if ltb (length bits) limit || is_set bits name then insert name tt bits else bits
apply bits (unset_bit name) limit = remove name bits
apply bits (toggle_bit name) limit =
    if is_set bits name
    then remove name bits
    else if ltb (length bits) limit
    then insert name tt bits
    else bits
apply bits (is_set_bit name) limit = bits
apply bits (is_not_set_bit name) limit = bits
apply bits no_alert limit = bits

-- The six cursors.
pub record Cursors : Type 0 where
  pub at_payload : ℕ
  pub at_uri : ℕ
  pub at_header : ℕ
  pub at_user_agent : ℕ
  pub at_method : ℕ
  pub at_host : ℕ

abbrev pub at_start : Cursors
at_start = record {
  at_payload = 0;
  at_uri = 0;
  at_header = 0;
  at_user_agent = 0;
  at_method = 0;
  at_host = 0;
}

-- `cursors[buffer_index(buffer)]`, read and written.
unfoldable pub cursor_of : Cursors → Buffer → ℕ
cursor_of c payload_buffer = c.at_payload
cursor_of c http_uri_buffer = c.at_uri
cursor_of c http_header_buffer = c.at_header
cursor_of c http_user_agent_buffer = c.at_user_agent
cursor_of c http_method_buffer = c.at_method
cursor_of c http_host_buffer = c.at_host

unfoldable pub move_cursor : Cursors → Buffer → ℕ → Cursors
move_cursor c payload_buffer at = record c { at_payload = at }
move_cursor c http_uri_buffer at = record c { at_uri = at }
move_cursor c http_header_buffer at = record c { at_header = at }
move_cursor c http_user_agent_buffer at = record c { at_user_agent = at }
move_cursor c http_method_buffer at = record c { at_method = at }
move_cursor c http_host_buffer at = record c { at_host = at }

abbrev pub agrees : Option Bool → Bool → Bool
agrees none actual = true
agrees (some true) actual = actual
agrees (some false) actual = not actual

unfoldable pub match_flow : FlowMatch → MatchInput → Bool
match_flow flow input =
    agrees flow.established input.established && agrees flow.to_server input.to_server

-- Bytes that are the same, in either case if `nocase`.
abbrev pub fold_case : Bool → ℕ → ℕ
fold_case nocase b = if nocase && leb 65 b && leb b 90 then b + 32 else b

unfoldable pub same_at : Bool → List ℕ → List ℕ → Bool
same_at nocase [] haystack = true
same_at nocase (x ∷ needle) [] = false
same_at nocase (x ∷ needle) (b ∷ haystack) =
    fold_case nocase b == fold_case nocase x && same_at nocase needle haystack

-- `windows(needle.len()).position(..)`.
unfoldable pub position_of : Bool → List ℕ → List ℕ → Option ℕ
unfolding same_at
position_of nocase needle [] = none
position_of nocase needle (b ∷ haystack) =
    let rest = position_of nocase needle haystack in
    if same_at nocase needle (b ∷ haystack)
    then some 0
    else elim rest [ none ↦ none | some at ↦ some (suc at) ]

unfoldable pub find_pattern : List ℕ → List ℕ → Bool → Option ℕ
unfolding position_of
find_pattern haystack needle nocase =
    if is_blank needle || ltb (length haystack) (length needle)
    then none
    else position_of nocase needle haystack

-- A signed number and a natural one.
abbrev pub plus : ℤ → ℕ → ℤ
plus (pos n) m = pos (n + m)
plus (negsuc n) m = diff m (suc n)

-- Where the search for a pattern starts and ends.
abbrev pub content_start : ContentMatch → ℕ → ℕ
content_start content cursor = at_least_zero (
    plus (unwrap_or content.distance (pos 0))
      (if is_relative content then cursor else unwrap_or content.offset 0))

abbrev pub no_later : ℕ → ℕ → Option ℕ → ℕ
no_later end from none = end
no_later end from (some span) = min end (from + span)

abbrev pub content_window : ContentMatch → ℕ → ℕ → ℕ × ℕ
content_window content length cursor =
    let base = if is_relative content then cursor else 0 in
    let start = content_start content cursor in
    let end = no_later (no_later length base content.within) start content.depth in
    (min start length, max (min end length) (min start length))

-- The cursor behind the match, or `none` where the condition does not hold.
abbrev pub settle_content : Bool → ℕ → ℕ → ℕ → Option ℕ → Option ℕ
settle_content negated cursor start width none = if negated then some cursor else none
settle_content negated cursor start width (some position) =
    if negated then none else some (start + position + width)

unfoldable pub match_content : ContentMatch → List ℕ → ℕ → Option ℕ
unfolding find_pattern
match_content content haystack cursor =
    let (start, end) = content_window content (length haystack) cursor in
    settle_content content.negated cursor start (length content.pattern)
      (find_pattern (take (end - start) (drop start haystack)) content.pattern content.nocase)

-- `value << 8 | byte` in 64 bits, over the bytes.
unfoldable pub read_bytes : ℕ → List ℕ → ℕ
read_bytes value [] = value
read_bytes value (b ∷ bytes) = read_bytes ((value * 256 + b) % 2 ^ 64) bytes

unfoldable pub reversed : List ℕ → List ℕ
reversed [] = []
reversed (b ∷ bytes) = reversed bytes ++ (b ∷ [])

abbrev pub ordered : Endian → List ℕ → List ℕ
ordered big bytes = bytes
ordered little bytes = reversed bytes

unfoldable pub read_number : List ℕ → ℕ → ℕ → Endian → Option ℕ
unfolding read_bytes reversed
read_number haystack position bytes endian =
    if leb (position + bytes) (length haystack)
    then some (read_bytes 0 (ordered endian (take bytes (drop position haystack))))
    else none

abbrev pub not_negative : ℤ → Option ℕ
not_negative (pos n) = some n
not_negative (negsuc n) = none

unfoldable pub resolve_position : ℕ → ℤ → Bool → Option ℕ
resolve_position base offset relative = not_negative (plus offset (if relative then base else 0))

abbrev pub differs : Bool → Bool → Bool
differs true b = not b
differs false b = b

unfoldable pub match_byte_test : ByteTest → List ℕ → ℕ → Bool
unfolding resolve_position read_number
match_byte_test test haystack cursor =
    let read = resolve_position cursor test.offset test.relative >>= λ position.
    read_number haystack position test.bytes test.endian in
    elim read [
      | none ↦ false
      | some value ↦ differs test.negated (apply_op test.op value test.value)
    ]

-- `as i64`, and the sum of two such numbers, which wraps.
abbrev pub as_i64 : ℕ → ℤ
as_i64 n = if ltb n (2 ^ 63) then pos n else negsuc (2 ^ 64 - n - 1)

abbrev pub add_i64 : ℤ → ℤ → ℤ
add_i64 (pos a) (pos b) = as_i64 (a + b)
add_i64 (pos a) (negsuc b) = diff a (suc b)
add_i64 (negsuc a) (pos b) = diff b (suc a)
add_i64 (negsuc a) (negsuc b) =
    if ltb (a + b + 1) (2 ^ 63) then negsuc (a + b + 1) else pos (2 ^ 64 - (a + b + 2))

-- `checked_mul` and `checked_add`.
abbrev pub checked : ℕ → Option ℕ
checked n = if ltb n (2 ^ 64) then some n else none

unfoldable pub jump_target : ByteJump → ℕ → ℕ → Option ℕ
jump_target jump position value = do
  scaled ← checked (value * jump.multiplier)
  destination ← checked (scaled + (position + jump.bytes))
  not_negative (add_i64 (as_i64 destination) jump.post_offset)

-- The cursor behind the jump.
unfoldable pub apply_byte_jump : ByteJump → List ℕ → ℕ → Option ℕ
unfolding resolve_position read_number jump_target
apply_byte_jump jump haystack cursor = do
  position ← resolve_position cursor jump.offset jump.relative
  value ← read_number haystack position jump.bytes jump.endian
  target ← jump_target jump position value
  if leb target (length haystack) then some target else none

unfoldable pub normalization_matches : NormalizationCondition → NormalizationFlags → Bool
normalization_matches percent_encoded_cond flags = flags.percent_encoded
normalization_matches double_encoded_cond flags = flags.double_encoded
normalization_matches invalid_escape_cond flags = flags.invalid_escape
normalization_matches null_byte_cond flags = flags.null_byte
normalization_matches traversal_cond flags = flags.traversal
normalization_matches above_root_cond flags = flags.above_root
normalization_matches self_reference_cond flags = flags.self_reference
normalization_matches empty_segment_cond flags = flags.empty_segment
normalization_matches backslash_cond flags = flags.backslash
normalization_matches decode_limit_reached_cond flags = flags.decode_limit_reached
