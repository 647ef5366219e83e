-- ===== src/Rules/Options.antt =====
-- crates/rules/src/options.rs: the match conditions of a rule. Signed 32-bit numbers are integers.
use Prim.Native.Nat.{bit_and, bit_xor}
use cyber_sentinel_ids_ips.Prelude.{
  ℕ, Bool, true, false, ◌&&◌, ◌||◌, not, Option, none, some, List, [], ◌∷◌, String, ltb, leb, ◌==◌,
}
use cyber_sentinel_ids_ips.Common.Int.{ℤ}
use cyber_sentinel_ids_ips.Common.Map.{present}

pub data Buffer : Type 0 where
  payload_buffer http_uri_buffer http_header_buffer : Buffer
  http_user_agent_buffer http_method_buffer http_host_buffer : Buffer

-- `Buffer::as_str`.
abbrev pub buffer_as_str : Buffer → String
buffer_as_str payload_buffer = "payload"
buffer_as_str http_uri_buffer = "http.uri"
buffer_as_str http_header_buffer = "http.header"
buffer_as_str http_user_agent_buffer = "http.user_agent"
buffer_as_str http_method_buffer = "http.method"
buffer_as_str http_host_buffer = "http.host"

abbrev pub is_http : Buffer → Bool
is_http payload_buffer = false
is_http buffer = true

pub record ContentMatch : Type 0 where
  pub pattern : List ℕ
  pub buffer : Buffer
  pub negated : Bool
  pub nocase : Bool
  pub offset : Option ℕ
  pub depth : Option ℕ
  pub distance : Option ℤ
  pub within : Option ℕ
  pub fast_pattern : Bool

-- `ContentMatch::new`.
abbrev pub bare_content : List ℕ → ContentMatch
bare_content pattern = record {
  pattern = pattern;
  buffer = payload_buffer;
  negated = false;
  nocase = false;
  offset = none;
  depth = none;
  distance = none;
  within = none;
  fast_pattern = false;
}

abbrev pub is_relative : ContentMatch → Bool
is_relative content = present content.distance || present content.within

abbrev pub is_blank : List ℕ → Bool
is_blank [] = true
is_blank (b ∷ bytes) = false

pub usable_as_fast_pattern : ContentMatch → Bool
usable_as_fast_pattern content = not content.negated && not (is_blank content.pattern)

pub record FlowMatch : Type 0 where
  pub established : Option Bool
  pub to_server : Option Bool

pub data FlowBitsOp : Type 0 where
  set_bit unset_bit toggle_bit is_set_bit is_not_set_bit : String → FlowBitsOp
  no_alert : FlowBitsOp

abbrev pub is_condition : FlowBitsOp → Bool
is_condition (is_set_bit name) = true
is_condition (is_not_set_bit name) = true
is_condition op = false

pub data NumericOp : Type 0 where
  equal not_equal less less_or_equal greater greater_or_equal bit_and_op bit_xor_op : NumericOp

-- `NumericOp::apply`.
unfoldable pub apply_op : NumericOp → ℕ → ℕ → Bool
apply_op equal left right = left == right
apply_op not_equal left right = not (left == right)
apply_op less left right = ltb left right
apply_op less_or_equal left right = leb left right
apply_op greater left right = ltb right left
apply_op greater_or_equal left right = leb right left
apply_op bit_and_op left right = not (bit_and left right == 0)
apply_op bit_xor_op left right = not (bit_xor left right == 0)

pub data Endian : Type 0 where
  big little : Endian

pub record ByteTest : Type 0 where
  pub bytes : ℕ
  pub op : NumericOp
  pub value : ℕ
  pub offset : ℤ
  pub relative : Bool
  pub endian : Endian
  pub negated : Bool

pub record ByteJump : Type 0 where
  pub bytes : ℕ
  pub offset : ℤ
  pub relative : Bool
  pub multiplier : ℕ
  pub endian : Endian
  pub post_offset : ℤ

pub record DsizeMatch : Type 0 where
  pub op : NumericOp
  pub value : ℕ
  pub upper : Option ℕ

abbrev pub in_size : NumericOp → ℕ → ℕ → Option ℕ → Bool
in_size op value length none = apply_op op length value
in_size op value length (some upper) = ltb value length && ltb length upper

-- `DsizeMatch::matches`.
abbrev pub dsize_matches : DsizeMatch → ℕ → Bool
dsize_matches dsize length = in_size dsize.op dsize.value length dsize.upper

pub data ThresholdKind : Type 0 where
  threshold_kind limit_kind both_kind : ThresholdKind

pub data Track : Type 0 where
  by_source by_destination by_rule : Track

pub record Threshold : Type 0 where
  pub kind : ThresholdKind
  pub track : Track
  pub count : ℕ
  pub seconds : ℕ

pub data NormalizationCondition : Type 0 where
  percent_encoded_cond double_encoded_cond invalid_escape_cond : NormalizationCondition
  null_byte_cond traversal_cond above_root_cond self_reference_cond : NormalizationCondition
  empty_segment_cond backslash_cond decode_limit_reached_cond : NormalizationCondition

-- `NormalizationCondition::as_str`.
abbrev pub condition_as_str : NormalizationCondition → String
condition_as_str percent_encoded_cond = "percent_encoded"
condition_as_str double_encoded_cond = "double_encoded"
condition_as_str invalid_escape_cond = "invalid_escape"
condition_as_str null_byte_cond = "null_byte"
condition_as_str traversal_cond = "traversal"
condition_as_str above_root_cond = "above_root"
condition_as_str self_reference_cond = "self_reference"
condition_as_str empty_segment_cond = "empty_segment"
condition_as_str backslash_cond = "backslash"
condition_as_str decode_limit_reached_cond = "decode_limit_reached"
