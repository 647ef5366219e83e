-- ===== src/Applayer/Http/Tests.antt =====
-- Requests read in pieces.
use cyber_sentinel_ids_ips.Prelude.{ℕ, ◌≤◌, ◌≡◌, refl, List, [], ◌∷◌, ◌++◌, length, replicate}
use cyber_sentinel_ids_ips.Reassembly.Normalize.{default_options}
use cyber_sentinel_ids_ips.Applayer.Http.{new, push}
use cyber_sentinel_ids_ips.Applayer.Http.Chunks.{push-pieces}

-- `GET /a/../b HTTP/1.1`, `Host: h` and the terminator.
abbrev request_head : List ℕ
request_head =
    71 ∷ 69 ∷ 84 ∷ 32 ∷ 47 ∷ 97 ∷ 47 ∷ 46 ∷ 46 ∷ 47 ∷ 98 ∷ 32 ∷ 72 ∷ 84 ∷ 84 ∷ 80 ∷ 47 ∷ 49 ∷ 46
    ∷ 49 ∷ 13 ∷ 10 ∷ []

abbrev request_rest : List ℕ
request_rest = 72 ∷ 111 ∷ 115 ∷ 116 ∷ 58 ∷ 32 ∷ 104 ∷ 13 ∷ 10 ∷ 13 ∷ 10 ∷ []

-- A head past the cap, cut inside its terminator.
abbrev too_long : List ℕ
too_long = replicate 70 97 ++ (13 ∷ 10 ∷ 13 ∷ [])

push-pieces_example :
    (length (push (new 64) request_head default_options).0.buffer ≤ (new 64).max_head)
    × ((push (new 64) request_head default_options).0.max_head ≡ (new 64).max_head)
    × ((push (new 64) request_head default_options).0.counters.oversized
          ≡ (new 64).counters.oversized
        → push (new 64) (request_head ++ request_rest) default_options ≡ (
          (push (push (new 64) request_head default_options).0 request_rest default_options).0,
          (push (new 64) request_head default_options).1
              ++ (push
                  (push (new 64) request_head default_options).0
                  request_rest
                  default_options).1,
        ))
push-pieces_example = push-pieces (new 64) request_head request_rest default_options

-- The request behind such a head is not seen.
hidden :
    (push
      (push (new 64) too_long default_options).0
      ((10 ∷ []) ++ request_head ++ request_rest)
      default_options).1
    ≡ []
unfolding push new
hidden = refl
