-- ===== src/Engine/Eval/Tests.antt =====
-- A pattern and a few bits.
use cyber_sentinel_ids_ips.Prelude.{
  ℕ, ◌≤◌, ◌≡◌, refl, if◌then◌else◌, true, some, List, [], ◌∷◌, length, String, arith,
}
use cyber_sentinel_ids_ips.Common.Int.{pos}
use cyber_sentinel_ids_ips.Correlation.{string_key}
use cyber_sentinel_ids_ips.Rules.Options.{ContentMatch, bare_content, toggle_bit}
use cyber_sentinel_ids_ips.Engine.Eval.{FlowBits, is_set, apply, match_content, read_number, little}
use cyber_sentinel_ids_ips.Engine.Eval.Find.{MatchesContent, match_content-MatchesContent}
use cyber_sentinel_ids_ips.Engine.Eval.Bits.{is_refused, bit_after, apply-Bits}

-- `AB` in either case, one byte behind the last match.
abbrev wanted : ContentMatch
wanted = record (bare_content (65 ∷ 66 ∷ [])) { nocase = true; distance = some (pos 1) }

abbrev text : List ℕ
text = 97 ∷ 98 ∷ 120 ∷ 120 ∷ 97 ∷ 98 ∷ []

second_place : match_content wanted text 2 ≡ some 6
unfolding match_content
second_place = refl

little_word : read_number text 2 2 little ≡ some 30840
unfolding read_number
little_word = refl

match_content-MatchesContent_example : MatchesContent wanted text 2
match_content-MatchesContent_example = match_content-MatchesContent wanted text 2

abbrev bits : FlowBits
bits = ("seen", tt) ∷ []

apply-Bits_example :
    (length (apply bits (toggle_bit "logged_in") 1) ≤ 1)
    × ((asked : String)
        → is_set (apply bits (toggle_bit "logged_in") 1) asked ≡ (
            if is_refused bits (toggle_bit "logged_in") 1
            then is_set bits asked
            else bit_after (toggle_bit "logged_in") asked (is_set bits asked)))
apply-Bits_example = apply-Bits bits (toggle_bit "logged_in") 1 (omega arith)
