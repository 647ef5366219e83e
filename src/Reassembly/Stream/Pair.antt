-- ===== src/Reassembly/Stream/Pair.antt =====
-- `StreamPair::push` of crates/reassembly/src/stream.rs, for both directions of a conversation.
use mathlib.Core.Path.{subst}
use cyber_sentinel_ids_ips.Prelude.{
  ℕ, ◌≤◌, ◌≡◌, refl, sym, ap, ◌∙◌, Bool, true, false, not, Option, none, some, List, ◌++◌, length,
  arith, Bool-cases, inl, inr,
}
use cyber_sentinel_ids_ips.Common.Int.{ℤ, pos, negsuc}
use cyber_sentinel_ids_ips.Reassembly.RangeBuffer.{OverlapPolicy, RangeBuffer}
use cyber_sentinel_ids_ips.Reassembly.RangeBuffer.View.{IsValid}
use cyber_sentinel_ids_ips.Reassembly.Stream.{
  Stream, StreamPair, StreamReady, TcpSegment, absolute, push, push_anchored, establish, has,
  acknowledge, acknowledge_at, acknowledge_if, flag_fin, count_segment, close_at, data_sequence,
  is_empty_payload, earliest, offer, push_pair, flush, discard,
}
use cyber_sentinel_ids_ips.Reassembly.Stream.Deliver.{Delivers, deliver-Delivers}
use cyber_sentinel_ids_ips.Reassembly.Stream.Store.{IsStream, store-Stored}

-- Where a direction ends, if it is known to, does not move on.
abbrev pub IsNoLater : Option ℕ → Option ℕ → Type 0
IsNoLater none later = Unit
IsNoLater (some f) none = ⊥
IsNoLater (some f) (some g) = g ≤ f

pub record Pushed (s s' : Stream) : Type 0 where
  pub valid : IsValid s'.buffer
  pub same_base : s'.buffer.base ≡ s.buffer.base
  pub same_limit : s'.byte_limit ≡ s.byte_limit
  pub fin : IsNoLater s.fin_at s'.fin_at

IsNoLater-refl : (o : Option ℕ) → IsNoLater o o
IsNoLater-refl none = tt
IsNoLater-refl (some f) = omega arith

earliest-IsNoLater : (o : Option ℕ) (f : ℕ) → IsNoLater o (some (earliest o f))
earliest-IsNoLater none f = tt
earliest-IsNoLater (some g) f = omega arith

establish_keeps :
    (s : Stream) (segment : TcpSegment)
    → ((establish s segment).buffer ≡ s.buffer)
      × ((establish s segment).byte_limit ≡ s.byte_limit)
      × ((establish s segment).fin_at ≡ s.fin_at)
unfolding establish
establish_keeps s segment = ground arith

close_at-IsNoLater :
    (s : Stream) (segment : TcpSegment) → IsNoLater s.fin_at (close_at s segment).fin_at
close_at-IsNoLater s segment = elim (Bool-cases (has segment flag_fin)) [
  | inl closes ↦ rw closes (earliest-IsNoLater s.fin_at _)
  | inr stays ↦ rw stays (IsNoLater-refl s.fin_at)
]

close_at_keeps :
    (s : Stream) (segment : TcpSegment)
    → ((close_at s segment).buffer ≡ s.buffer) × ((close_at s segment).byte_limit ≡ s.byte_limit)
close_at_keeps s segment = ground arith

push_anchored-Pushed :
    (s : Stream) (segment : TcpSegment) (policy : OverlapPolicy)
    → IsStream s (length segment.payload)
    → (s' : Stream) × (push_anchored s segment policy ≡ some s') × Pushed s s'
unfolding push_anchored
push_anchored-Pushed s segment policy i = elim (Bool-cases (is_empty_payload segment.payload)) [
  | inl nothing ↦ (
    close_at s segment,
    rw nothing refl,
    record {
      valid = rw (close_at_keeps s segment).0 i.valid;
      same_base = rw (close_at_keeps s segment).0 refl;
      same_limit = (close_at_keeps s segment).1;
      fin = close_at-IsNoLater s segment;
    },
  )
  | inr something ↦
      let (stored, runs, at) = store-Stored s (data_sequence segment) segment.payload policy i in
      (
        close_at stored segment,
        rw (something, runs) refl,
        record {
          valid = rw (close_at_keeps stored segment).0 at.valid;
          same_base = rw (close_at_keeps stored segment).0 at.same_base;
          same_limit = (close_at_keeps stored segment).1 ∙ at.same_limit;
          fin =
              subst (λ o. IsNoLater o (close_at stored segment).fin_at) at.same_fin
                (close_at-IsNoLater stored segment);
        },
      )
]

-- What a push of a stream with the same buffer, limit and FIN does, this one does.
Pushed-same :
    (s e s' : Stream)
    → e.buffer ≡ s.buffer
    → e.byte_limit ≡ s.byte_limit
    → e.fin_at ≡ s.fin_at
    → Pushed e s'
    → Pushed s s'
Pushed-same s e s' b l f p = record {
  valid = p.valid;
  same_base = p.same_base ∙ ap (λ (c : RangeBuffer). c.base) b;
  same_limit = p.same_limit ∙ l;
  fin = subst (λ o. IsNoLater o s'.fin_at) f p.fin;
}

IsStream-same :
    (s e : Stream) (room : ℕ)
    → e.buffer ≡ s.buffer
    → e.byte_limit ≡ s.byte_limit
    → IsStream s room
    → IsStream e room
IsStream-same s e room b l i = record {
  valid = subst IsValid (sym b) i.valid;
  addressable = omega (arith, i.addressable, ap (λ (c : RangeBuffer). c.base) b, l);
}

Pushed-refl : (s : Stream) → IsValid s.buffer → Pushed s s
Pushed-refl s v = record {
  valid = v;
  same_base = refl;
  same_limit = refl;
  fin = IsNoLater-refl s.fin_at;
}

-- A segment offered to one direction.
push-Pushed :
    (s : Stream) (segment : TcpSegment) (policy : OverlapPolicy)
    → IsStream s (length segment.payload)
    → (s' : Stream) × (push s segment policy ≡ some s') × Pushed s s'
unfolding push
push-Pushed s segment policy i =
    let e : Stream = establish s segment in
    let (buffer, limit, fin) = establish_keeps s segment in
    let j : IsStream e (length segment.payload) =
      IsStream-same s e (length segment.payload) buffer limit i in
    let c : Stream = count_segment e segment in
    let (s', runs, pushed) =
      push_anchored-Pushed c segment policy
        (IsStream-same e c (length segment.payload) refl refl j) in
    elim (Bool-cases (not e.established)) [
      | inl unanchored ↦
          (e, rw unanchored refl, Pushed-same s e e buffer limit fin (Pushed-refl e j.valid))
      | inr anchored ↦ (s', rw anchored runs, Pushed-same s c s' buffer limit fin pushed)
    ]

acknowledge_at_keeps :
    (s : Stream) (place : ℤ)
    → ((acknowledge_at s place).buffer ≡ s.buffer)
      × ((acknowledge_at s place).byte_limit ≡ s.byte_limit)
      × ((acknowledge_at s place).fin_at ≡ s.fin_at)
acknowledge_at_keeps s (pos offset) = ground arith
acknowledge_at_keeps s (negsuc n) = (refl, refl, refl)

acknowledge-Pushed :
    (s : Stream) (segment : TcpSegment) → IsValid s.buffer → Pushed s (acknowledge_if segment s)
unfolding acknowledge
acknowledge-Pushed s segment v =
    let (buffer, limit, fin) = acknowledge_at_keeps s (absolute s segment.acknowledgment) in
    let same : ((acknowledge_if segment s).buffer ≡ s.buffer)
        × ((acknowledge_if segment s).byte_limit ≡ s.byte_limit)
        × ((acknowledge_if segment s).fin_at ≡ s.fin_at) =
      ground arith in
    record {
      valid = subst IsValid (sym same.0) v;
      same_base = ap (λ (b : RangeBuffer). b.base) same.0;
      same_limit = same.1;
      fin = subst (IsNoLater s.fin_at) (sym same.2) (IsNoLater-refl s.fin_at);
    }

-- Both directions after a segment is offered.
offer-Pushed :
    (pair : StreamPair) (to_server : Bool) (segment : TcpSegment)
    (policy_to_server policy_to_client : OverlapPolicy)
    → IsStream pair.to_server (length segment.payload)
    → IsStream pair.to_client (length segment.payload)
    → (pair' : StreamPair) × (offer pair to_server segment policy_to_server policy_to_client
        ≡ some pair')
      × Pushed pair.to_server pair'.to_server
      × Pushed pair.to_client pair'.to_client
unfolding offer
offer-Pushed pair true segment p q i j =
    let (s, runs, pushed) = push-Pushed pair.to_server segment p i in
    (
      record { to_server = s; to_client = acknowledge_if segment pair.to_client },
      rw runs refl,
      pushed,
      acknowledge-Pushed pair.to_client segment j.valid,
    )
offer-Pushed pair false segment p q i j =
    let (s, runs, pushed) = push-Pushed pair.to_client segment q j in
    (
      record { to_server = acknowledge_if segment pair.to_server; to_client = s },
      rw runs refl,
      acknowledge-Pushed pair.to_server segment i.valid,
      pushed,
    )

-- One direction behind a delivery.
pub record Advanced (s s' : Stream) : Type 0 where
  pub valid : IsValid s'.buffer
  pub onward : s.buffer.base ≤ s'.buffer.base
  pub fin : IsNoLater s.fin_at s'.fin_at

delivered-Advanced :
    (s t : Stream) (out : List ℕ) (force : Bool)
    → Pushed s t
    → (d : Delivers t out force) → Advanced s d.stream
delivered-Advanced s t out force p d = record {
  valid = d.valid;
  onward = omega (arith, p.same_base, d.moves);
  fin = subst (IsNoLater s.fin_at) (sym d.kept.0) p.fin;
}

-- A segment offered to a conversation, in either direction and with any flags, sequence numbers and
-- payload, never panics, as long as both windows stay addressable with room for the payload. Behind
-- it both buffers are well formed, neither window has moved back, neither direction's FIN is later
-- than it was, and what was ready before is still there, with what became ready behind it.
pub push_pair-Advanced :
    (pair : StreamPair) (to_server : Bool) (segment : TcpSegment)
    (policy_to_server policy_to_client : OverlapPolicy) (ready : StreamReady)
    → IsStream pair.to_server (length segment.payload)
    → IsStream pair.to_client (length segment.payload)
    → (pair' : StreamPair) × (server_bytes client_bytes : List ℕ) × (push_pair pair to_server
          segment policy_to_server policy_to_client ready
        ≡ some (
          pair',
          record {
            to_server = ready.to_server ++ server_bytes;
            to_client = ready.to_client ++ client_bytes;
          },
        ))
      × Advanced pair.to_server pair'.to_server
      × Advanced pair.to_client pair'.to_client
unfolding push_pair
push_pair-Advanced pair to_server segment p q ready i j =
    let (offered, runs, s, c) = offer-Pushed pair to_server segment p q i j in
    let d : Delivers offered.to_server ready.to_server false =
      deliver-Delivers offered.to_server ready.to_server false s.valid in
    let e : Delivers offered.to_client ready.to_client false =
      deliver-Delivers offered.to_client ready.to_client false c.valid in
    (
      record { to_server = d.stream; to_client = e.stream },
      d.moved,
      e.moved,
      rw (runs, d.runs, e.runs) refl,
      delivered-Advanced pair.to_server offered.to_server ready.to_server false s d,
      delivered-Advanced pair.to_client offered.to_client ready.to_client false c e,
    )

-- What is contiguous at the end of a conversation is delivered, whatever it is.
pub flush_runs :
    (pair : StreamPair) (ready : StreamReady)
    → IsValid pair.to_server.buffer
    → IsValid pair.to_client.buffer
    → (r : StreamPair × StreamReady) × (flush pair ready ≡ some r)
unfolding flush
flush_runs pair ready v w =
    let d : Delivers pair.to_server ready.to_server true =
      deliver-Delivers pair.to_server ready.to_server true v in
    let e : Delivers pair.to_client ready.to_client true =
      deliver-Delivers pair.to_client ready.to_client true w in
    (
      (
        record { to_server = discard d.stream; to_client = discard e.stream },
        record { to_server = ready.to_server ++ d.moved; to_client = ready.to_client ++ e.moved },
      ),
      rw (d.runs, e.runs) refl,
    )
