-- ===== src/Engine/Evaluate/Tests.antt =====
-- A rule that asks for a bit, finds a pattern and sets another bit.
use cyber_sentinel_ids_ips.Prelude.{ℕ, ◌≡◌, refl, true, false, Option, some, none, List, [], ◌∷◌}
use cyber_sentinel_ids_ips.Common.Net.{v4}
use cyber_sentinel_ids_ips.Common.Event.{tcp}
use cyber_sentinel_ids_ips.Common.Map.{get}
use cyber_sentinel_ids_ips.Reassembly.Normalize.{no_flags}
use cyber_sentinel_ids_ips.Rules.Options.{set_bit, is_set_bit, bare_content, payload_buffer}
use cyber_sentinel_ids_ips.Rules.Model.{rule_tcp}
use cyber_sentinel_ids_ips.Engine.Vars.{everything, header_matches}
use cyber_sentinel_ids_ips.Engine.Eval.{
  MatchInput, FlowBits, match_content, buffer_of, cursor_of, move_cursor,
}
use cyber_sentinel_ids_ips.Engine.Evaluate.{
  content_option, flow_bits_option, pcre_option, CompiledRule, evaluate, fresh_progress,
}
use cyber_sentinel_ids_ips.Engine.Evaluate.Holds.{AllHold, effects_of}
use cyber_sentinel_ids_ips.Engine.Evaluate.Fires.{evaluate-fires}

-- The expression is its first byte, which it finds at the start or nowhere.
abbrev first_byte : ℕ → List ℕ → Option ℕ
first_byte matcher [] = none
first_byte matcher (b ∷ bytes) = some 1

abbrev rule : CompiledRule ℕ
rule = record {
  sid = 1;
  rev = 1;
  msg = "second step";
  classtype = none;
  severity = 3;
  asks_block = false;
  metadata = [];
  header = record {
    protocol = rule_tcp;
    source = everything;
    source_ports = everything;
    destination = everything;
    destination_ports = everything;
    is_bidirectional = false;
  };
  options =
      flow_bits_option (is_set_bit "first")
      ∷ content_option (bare_content (97 ∷ []))
      ∷ pcre_option 98 payload_buffer false true
      ∷ flow_bits_option (set_bit "second")
      ∷ [];
  threshold = none;
  stays_silent = false;
  needs_http = false;
  origin = "local.rules:1";
}

abbrev input : MatchInput
input = record {
  tuple = record {
    src_ip = v4 1;
    src_port = some 40000;
    dest_ip = v4 2;
    dest_port = some 80;
    proto = tcp;
  };
  established = true;
  to_server = true;
  buffers = record {
    payload = 97 ∷ 98 ∷ [];
    http_uri = none;
    http_header = none;
    http_user_agent = none;
    http_method = none;
    http_host = none;
    normalization = no_flags;
  };
}

abbrev bits : FlowBits
bits = ("first", tt) ∷ []

fires : evaluate first_byte rule input bits ≡ some (set_bit "second" ∷ [])
unfolding evaluate header_matches match_content get buffer_of cursor_of move_cursor
fires = refl

evaluate-fires_example :
    (header_matches rule.header input.tuple ≡ true)
    × AllHold first_byte input bits rule.options fresh_progress
    × (set_bit "second" ∷ [] ≡ effects_of rule.options)
evaluate-fires_example = evaluate-fires first_byte rule input bits (set_bit "second" ∷ []) fires
