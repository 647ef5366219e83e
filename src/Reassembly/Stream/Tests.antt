-- ===== src/Reassembly/Stream/Tests.antt =====
-- A conversation on concrete segments.
use cyber_sentinel_ids_ips.Prelude.{
  ℕ, ◌≤◌, ◌≡◌, refl, true, false, some, List, [], ◌∷◌, ◌++◌, arith,
}
use cyber_sentinel_ids_ips.Common.Int.{pos}
use cyber_sentinel_ids_ips.Reassembly.RangeBuffer.{first, last, RangeBuffer, Range}
use cyber_sentinel_ids_ips.Reassembly.RangeBuffer as Buffer
use cyber_sentinel_ids_ips.Reassembly.RangeBuffer.View.{IsValid, new-IsValid}
use cyber_sentinel_ids_ips.Reassembly.Stream.{
  Stream, StreamPair, TcpSegment, absolute, store, push_pair, new_stream,
}
use cyber_sentinel_ids_ips.Reassembly.Stream.Anchor.{IsAnchored, sequence_of, absolute-sequence_of}
use cyber_sentinel_ids_ips.Reassembly.Stream.Deliver.{
  Delivers, deliver-Delivers, deliver-IsAnchored,
}
use cyber_sentinel_ids_ips.Reassembly.Stream.Store.{IsStream, Stored, store-Stored}
use cyber_sentinel_ids_ips.Reassembly.Stream.Pair.{Advanced, push_pair-Advanced}

-- A stream whose sequence numbers wrap five bytes on, with a FIN at offset 100.
abbrev wrapping : Stream
wrapping = record (new_stream 4096 1024) {
  base_sequence = 4294967291;
  established = true;
  fin_at = some 100;
}

wrapping-IsStream : (room : ℕ) → room ≤ 65535 → IsStream wrapping room
unfolding Buffer.new
wrapping-IsStream room h = record {
  valid = new-IsValid 0 4096 256 (omega arith);
  addressable = omega arith;
}

wrapping-IsAnchored : IsAnchored 4294967291 wrapping
unfolding Buffer.new
wrapping-IsAnchored = refl

-- Offset 8 has sequence number 3.
absolute-sequence_of_example : absolute wrapping (sequence_of 4294967291 8) ≡ pos 8
unfolding Buffer.new
absolute-sequence_of_example =
    absolute-sequence_of wrapping 4294967291 8 wrapping-IsAnchored (omega arith) (omega arith)

abbrev segment : TcpSegment
segment = record {
  sequence = 4294967291;
  acknowledgment = 7;
  flags = 16;
  payload = 71 ∷ 69 ∷ 84 ∷ 32 ∷ 47 ∷ 32 ∷ [];
}

store-Stored_example :
    (s' : Stream) × (store wrapping 4294967291 segment.payload last ≡ some s')
    × Stored wrapping (absolute wrapping 4294967291) segment.payload last s'
store-Stored_example =
    store-Stored wrapping 4294967291 segment.payload last (wrapping-IsStream 6 (omega arith))

-- Two bytes held, the first acknowledged.
abbrev loaded : Stream
loaded = record wrapping {
  buffer = record {
    base = 0;
    content = 71 ∷ 69 ∷ [];
    covered = record { start = 0; end = 2 } ∷ [];
    byte_limit = 4096;
    range_limit = 256;
  };
  acknowledged_upto = 1;
}

loaded-IsValid : IsValid loaded.buffer
loaded-IsValid = omega arith

deliver-Delivers_example : Delivers loaded (1 ∷ 2 ∷ []) false
deliver-Delivers_example = deliver-Delivers loaded (1 ∷ 2 ∷ []) false loaded-IsValid

loaded_delivery : Delivers loaded (1 ∷ 2 ∷ []) false
loaded_delivery = deliver-Delivers loaded (1 ∷ 2 ∷ []) false loaded-IsValid

deliver-IsAnchored_example : IsAnchored 4294967291 loaded_delivery.stream
deliver-IsAnchored_example =
    deliver-IsAnchored loaded loaded_delivery.stream 4294967291 (1 ∷ 2 ∷ [])
      ((1 ∷ 2 ∷ []) ++ loaded_delivery.moved) false loaded-IsValid refl loaded_delivery.runs

push_pair-Advanced_example :
    (pair' : StreamPair) × (server_bytes client_bytes : List ℕ) × (push_pair
        (record { to_server = wrapping; to_client = wrapping })
        true
        segment
        first
        last
        (record { to_server = 9 ∷ []; to_client = [] })
      ≡ some
          (pair', record { to_server = (9 ∷ []) ++ server_bytes; to_client = [] ++ client_bytes }))
    × Advanced wrapping pair'.to_server
    × Advanced wrapping pair'.to_client
push_pair-Advanced_example =
    push_pair-Advanced (record { to_server = wrapping; to_client = wrapping }) true segment first
      last (record { to_server = 9 ∷ []; to_client = [] }) (wrapping-IsStream 6 (omega arith))
      (wrapping-IsStream 6 (omega arith))
