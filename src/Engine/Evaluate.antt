-- ===== src/Engine/Evaluate.antt =====
-- `evaluate` of crates/engine/src/eval.rs, with the compiled rule of compile.rs. What a regular
-- expression finds first, as the offset behind it, is a parameter.
pub mod Holds
pub mod Conditions
pub mod Fires
mod Tests
use cyber_sentinel_ids_ips.Prelude.{
  ℕ, ◌+◌, min, Bool, true, false, not, Option, none, some, List, [], ◌∷◌, ◌++◌, length, drop,
  if◌then◌else◌, ◌>>=◌, String,
}
use cyber_sentinel_ids_ips.Common.Map.{Map}
use cyber_sentinel_ids_ips.Rules.Options.{
  Buffer, payload_buffer, ContentMatch, FlowMatch, FlowBitsOp, set_bit, unset_bit, toggle_bit,
  is_set_bit, is_not_set_bit, no_alert, ByteTest, ByteJump, DsizeMatch, dsize_matches,
  NormalizationCondition, Threshold,
}
use cyber_sentinel_ids_ips.Engine.Vars.{CompiledHeader, header_matches}
use cyber_sentinel_ids_ips.Engine.Eval.{
  Buffers, buffer_of, MatchInput, FlowBits, is_set, Cursors, at_start, cursor_of, move_cursor,
  match_flow, match_content, match_byte_test, apply_byte_jump, normalization_matches,
}

pub data CompiledOption (Regex : Type 0) : Type 0 where
  content_option : ContentMatch → CompiledOption Regex
  pcre_option : Regex → Buffer → Bool → Bool → CompiledOption Regex
  flow_option : FlowMatch → CompiledOption Regex
  flow_bits_option : FlowBitsOp → CompiledOption Regex
  byte_test_option : ByteTest → CompiledOption Regex
  byte_jump_option : ByteJump → CompiledOption Regex
  dsize_option : DsizeMatch → CompiledOption Regex
  normalized_option : NormalizationCondition → CompiledOption Regex

pub record CompiledRule (Regex : Type 0) : Type 0 where
  pub sid : ℕ
  pub rev : ℕ
  pub msg : String
  pub classtype : Option String
  pub severity : ℕ
  pub asks_block : Bool
  pub metadata : Map String (List String)
  pub header : CompiledHeader
  pub options : List (CompiledOption Regex)
  pub threshold : Option Threshold
  pub stays_silent : Bool
  pub needs_http : Bool
  pub origin : String

-- What the loop over the options carries.
pub record Progress : Type 0 where
  pub cursors : Cursors
  pub current : Buffer
  pub side_effects : List FlowBitsOp

abbrev pub fresh_progress : Progress
fresh_progress = record { cursors = at_start; current = payload_buffer; side_effects = [] }

abbrev pub when {ℓ} : {A : Type ℓ} → Bool → A → Option A
when true a = some a
when false a = none

-- The cursor that a search leaves, where the option holds.
abbrev pub settle_pcre : Bool → ℕ → ℕ → Option ℕ → Option ℕ
settle_pcre negated cursor start none = if negated then some cursor else none
settle_pcre negated cursor start (some end) = if negated then none else some (start + end)

-- A bit that is asked for, or an effect that is kept for later.
unfoldable pub step_bits : FlowBitsOp → FlowBits → Progress → Option Progress
step_bits (is_set_bit name) bits p = when (is_set bits name) p
step_bits (is_not_set_bit name) bits p = when (not (is_set bits name)) p
step_bits (set_bit name) bits p =
    some (record p { side_effects = p.side_effects ++ (set_bit name ∷ []) })
step_bits (unset_bit name) bits p =
    some (record p { side_effects = p.side_effects ++ (unset_bit name ∷ []) })
step_bits (toggle_bit name) bits p =
    some (record p { side_effects = p.side_effects ++ (toggle_bit name ∷ []) })
step_bits no_alert bits p = some (record p { side_effects = p.side_effects ++ (no_alert ∷ []) })

module _ {Regex : Type 0} (search : Regex → List ℕ → Option ℕ) where
  -- One option of the `match`, or `none` where the rule does not match.
  unfoldable pub step : MatchInput → FlowBits → CompiledOption Regex → Progress → Option Progress
  unfolding step_bits
  step input bits (content_option content) p = do
    haystack ← buffer_of input.buffers content.buffer
    cursor ← match_content content haystack (cursor_of p.cursors content.buffer)
    some (record p {
      cursors = move_cursor p.cursors content.buffer cursor;
      current = content.buffer;
    })
  step input bits (pcre_option matcher buffer negated relative) p = do
    haystack ← buffer_of input.buffers buffer
    let cursor = cursor_of p.cursors buffer
    let start = if relative then min cursor (length haystack) else 0
    moved ← settle_pcre negated cursor start (search matcher (drop start haystack))
    some (record p { cursors = move_cursor p.cursors buffer moved; current = buffer })
  step input bits (flow_option flow) p = when (match_flow flow input) p
  step input bits (flow_bits_option op) p = step_bits op bits p
  step input bits (byte_test_option test) p = do
    haystack ← buffer_of input.buffers p.current
    when (match_byte_test test haystack (cursor_of p.cursors p.current)) p
  step input bits (byte_jump_option jump) p = do
    haystack ← buffer_of input.buffers p.current
    moved ← apply_byte_jump jump haystack (cursor_of p.cursors p.current)
    some (record p { cursors = move_cursor p.cursors p.current moved })
  step input bits (dsize_option dsize) p = do
    haystack ← buffer_of input.buffers p.current
    when (dsize_matches dsize (length haystack)) p
  step input bits (normalized_option condition) p =
      when (normalization_matches condition input.buffers.normalization) p

  unfoldable pub steps :
      MatchInput → FlowBits → List (CompiledOption Regex) → Progress → Option Progress
  unfolding step
  steps input bits [] p = some p
  steps input bits (option ∷ options) p = step input bits option p >>= steps input bits options

  -- The side effects of a rule that matches.
  unfoldable pub evaluate : CompiledRule Regex → MatchInput → FlowBits → Option (List FlowBitsOp)
  unfolding steps
  evaluate rule input bits =
      if not (header_matches rule.header input.tuple)
      then none
      else steps input bits rule.options fresh_progress >>= λ p. some p.side_effects
