-- ===== src/Reassembly/Normalize/Tests.antt =====
-- Paths decoded and collapsed.
use cyber_sentinel_ids_ips.Prelude.{ℕ, ◌≡◌, refl, ◌≤◌, true, false, List, [], ◌∷◌, length, arith}
use cyber_sentinel_ids_ips.Reassembly.Normalize.{
  percent_decode, percent_decode_repeatedly, default_options, bytes_eq, escape,
}
use cyber_sentinel_ids_ips.Reassembly.Normalize.Collapse.{collapse_path, normalize_path}
use cyber_sentinel_ids_ips.Reassembly.Normalize.Rounds.{Decoded, percent_decode_repeatedly-Decoded}
use cyber_sentinel_ids_ips.Reassembly.Normalize.Layers.{
  encode_layers, percent_decode_repeatedly-layers,
}
use cyber_sentinel_ids_ips.Reassembly.Normalize.Shorter.{length-normalize_path}
use cyber_sentinel_ids_ips.Reassembly.Normalize.Canonical.{
  IsCanonical, collapse_path-again, normalize_path-IsCanonical,
}

-- `/a/%252e%252e/etc/./b`.
abbrev twice_encoded : List ℕ
twice_encoded =
    47 ∷ 97 ∷ 47 ∷ 37 ∷ 50 ∷ 53 ∷ 50 ∷ 101 ∷ 37 ∷ 50 ∷ 53 ∷ 50 ∷ 101 ∷ 47 ∷ 101 ∷ 116 ∷ 99 ∷ 47 ∷ 46
    ∷ 47 ∷ 98 ∷ []

-- `/etc/b`.
normalized :
    (normalize_path twice_encoded default_options).bytes ≡ 47 ∷ 101 ∷ 116 ∷ 99 ∷ 47 ∷ 98 ∷ []
unfolding normalize_path collapse_path percent_decode_repeatedly bytes_eq percent_decode escape
normalized = refl

-- `../..` of a relative path is nothing, and is seen to go above the root.
above : (collapse_path (46 ∷ 46 ∷ 47 ∷ 46 ∷ 46 ∷ []) false).0 ≡ []
unfolding collapse_path
above = refl

above_seen : (collapse_path (46 ∷ 46 ∷ 47 ∷ 46 ∷ 46 ∷ []) false).1.above_root ≡ true
unfolding collapse_path
above_seen = refl

percent_decode_repeatedly-Decoded_example :
    Decoded twice_encoded 2 (percent_decode_repeatedly twice_encoded 2)
percent_decode_repeatedly-Decoded_example =
    percent_decode_repeatedly-Decoded twice_encoded 2 (omega arith)

percent_decode_repeatedly-layers_example :
    ((percent_decode_repeatedly (encode_layers 3 (46 ∷ 47 ∷ [])) 3).bytes ≡ 46 ∷ 47 ∷ [])
    × ((percent_decode_repeatedly (encode_layers 3 (46 ∷ 47 ∷ [])) 3).rounds_applied ≡ 3)
percent_decode_repeatedly-layers_example =
    percent_decode_repeatedly-layers 3 (46 ∷ 47 ∷ []) refl (omega arith)

length-normalize_path_example :
    length (normalize_path twice_encoded default_options).bytes ≤ length twice_encoded
length-normalize_path_example = length-normalize_path twice_encoded default_options

collapse_path-again_example :
    ((collapse_path (collapse_path (47 ∷ 97 ∷ 92 ∷ 46 ∷ 46 ∷ []) true).0 true).0
      ≡ (collapse_path (47 ∷ 97 ∷ 92 ∷ 46 ∷ 46 ∷ []) true).0)
    × ((collapse_path (collapse_path (47 ∷ 97 ∷ 92 ∷ 46 ∷ 46 ∷ []) true).0 false).0
        ≡ (collapse_path (47 ∷ 97 ∷ 92 ∷ 46 ∷ 46 ∷ []) true).0)
collapse_path-again_example = collapse_path-again (47 ∷ 97 ∷ 92 ∷ 46 ∷ 46 ∷ []) true

normalize_path-IsCanonical_example :
    IsCanonical (normalize_path twice_encoded default_options).bytes
normalize_path-IsCanonical_example = normalize_path-IsCanonical twice_encoded default_options refl
