-- ===== src/Prevent/Store/Reach.antt =====
-- The store after any sequence of calls: its bounds, the allow-list and the kill switch.
use cyber_sentinel_ids_ips.Prelude.{
  ℕ, ◌+◌, ◌≤◌, ◌<◌, ◌≡◌, refl, sym, Bool, true, false, some, List, [], ◌∷◌, length, any, arith, inl,
  inr, ◌⊎◌,
}
use mathlib.Core.Path.{subst}
use native.Mathlib.Nat.{le_trans}
use cyber_sentinel_ids_ips.Common.Net.{IpAddr}
use cyber_sentinel_ids_ips.Common.Event.{NetTuple}
use cyber_sentinel_ids_ips.Common.Map.{
  get, insert, remove, IsMap, get-retain_map-some, get-remove-some, get-insert-some, insert-IsMap,
  remove-IsMap, retain_map-IsMap, length-insert, length-remove, length-retain_map,
}
use cyber_sentinel_ids_ips.Prevent.Key.{FlowKey, flow_key, from_tuple}
use cyber_sentinel_ids_ips.Common.Endpoint.{ip_key}
use cyber_sentinel_ids_ips.Prevent.Store.Sweep.{decision}
use cyber_sentinel_ids_ips.Prevent.Store.{
  not_armed, Mode, detect, accept, Prevention, PreventionSettings, QueueDepth, new, armed, set_mode,
  is_allow_listed, decide, block, record_block, expire, record_latency, record_queue_depth,
  record_fail_mode_applied,
}

-- A call of the store that changes it.
pub data Call : Type 0 where
  call_decide call_block : NetTuple → ℕ → Call
  call_expire call_latency call_fail_mode : ℕ → Call
  call_set_mode : Mode → Call
  call_queue_depth : QueueDepth → Call

pub after_call : Prevention → Call → Prevention
after_call p (call_decide t now) = (decide p t now).0
after_call p (call_block t now) = (block p t now).0
after_call p (call_expire now) = expire p now
after_call p (call_latency micros) = record_latency p micros
after_call p (call_fail_mode packets) = record_fail_mode_applied p packets
after_call p (call_set_mode mode) = set_mode p mode
after_call p (call_queue_depth depth) = record_queue_depth p depth

pub after_calls : Prevention → List Call → Prevention
after_calls p [] = p
after_calls p (c ∷ cs) = after_calls (after_call p c) cs

-- Each table has each key once and is within its cap, and holds nothing of an allow-listed address.
pub record IsSafe (p : Prevention) : Type 0 where
  pub flows_map : IsMap p.flows
  pub sources_map : IsMap p.sources
  pub flows_capped : length p.flows ≤ p.settings.max_blocked_flows
  pub sources_capped : length p.sources ≤ p.settings.max_blocked_sources
  pub flows_free :
      (k : FlowKey) (at : ℕ)
      → get k p.flows ≡ some at
      → (is_allow_listed p.settings k.lower.address ≡ false)
        × (is_allow_listed p.settings k.upper.address ≡ false)
  pub sources_free :
      (a : IpAddr) (until : ℕ) → get a p.sources ≡ some until → is_allow_listed p.settings a ≡ false

-- The allow-list is not part of the mode.
allow_list-mode :
    (s : PreventionSettings) (m : Mode) (a : IpAddr)
    → is_allow_listed (record s { mode = m }) a ≡ is_allow_listed s a
unfolding is_allow_listed
allow_list-mode s m a = refl

new-IsSafe : (s : PreventionSettings) → IsSafe (new s)
unfolding new get
new-IsSafe s = record {
  flows_map = tt;
  sources_map = tt;
  flows_capped = omega arith;
  sources_capped = omega arith;
  flows_free = λ k at h. absurd (cc h);
  sources_free = λ a until h. absurd (cc h);
}

set_mode-IsSafe : (p : Prevention) (m : Mode) → IsSafe p → IsSafe (set_mode p m)
unfolding set_mode
set_mode-IsSafe p m v = record {
  flows_map = v.flows_map;
  sources_map = v.sources_map;
  flows_capped = v.flows_capped;
  sources_capped = v.sources_capped;
  flows_free = λ k at h.
      rw
        (allow_list-mode p.settings m k.lower.address, allow_list-mode p.settings m k.upper.address)
        (v.flows_free k at h);
  sources_free = λ a until h. rw (allow_list-mode p.settings m a) (v.sources_free a until h);
}

-- A store with the same settings and tables.
same-IsSafe :
    (p p' : Prevention)
    → p'.settings ≡ p.settings
    → p'.flows ≡ p.flows
    → p'.sources ≡ p.sources
    → IsSafe p
    → IsSafe p'
same-IsSafe p p' e f g v = record {
  flows_map = subst IsMap (sym f) v.flows_map;
  sources_map = subst IsMap (sym g) v.sources_map;
  flows_capped = rw (e, f) v.flows_capped;
  sources_capped = rw (e, g) v.sources_capped;
  flows_free = λ k at h. rw e (v.flows_free k at (rw f at h));
  sources_free = λ a until h. rw e (v.sources_free a until (rw g at h));
}

expire-IsSafe : (p : Prevention) (now : ℕ) → IsSafe p → IsSafe (expire p now)
unfolding expire
expire-IsSafe p now v = record {
  flows_map = retain_map-IsMap _ p.flows v.flows_map;
  sources_map = retain_map-IsMap _ p.sources v.sources_map;
  flows_capped = le_trans (length-retain_map _ p.flows) v.flows_capped;
  sources_capped = le_trans (length-retain_map _ p.sources) v.sources_capped;
  flows_free = λ k at h. v.flows_free k at (get-retain_map-some _ k p.flows at v.flows_map h);
  sources_free =
      λ a until h. v.sources_free a until (get-retain_map-some _ a p.sources until v.sources_map h);
}

-- A decision keeps the settings and the condemned flows, and forgets at most the packet's source.
decide_settings :
    (p : Prevention) (t : NetTuple) (now : ℕ) → (decide p t now).0.settings ≡ p.settings
unfolding decide
decide_settings p t now = ground arith

decide_flows : (p : Prevention) (t : NetTuple) (now : ℕ) → (decide p t now).0.flows ≡ p.flows
unfolding decide
decide_flows p t now = ground arith

decide_sources :
    (p : Prevention) (t : NetTuple) (now : ℕ)
    → ((decide p t now).0.sources ≡ p.sources)
      ⊎ ((decide p t now).0.sources ≡ remove t.src_ip p.sources)
unfolding decide
decide_sources p t now = ground arith

forget-IsSafe :
    (p p' : Prevention) (a : IpAddr)
    → p'.settings ≡ p.settings
    → p'.flows ≡ p.flows
    → p'.sources ≡ remove a p.sources
    → IsSafe p
    → IsSafe p'
forget-IsSafe p p' a e f g v = record {
  flows_map = subst IsMap (sym f) v.flows_map;
  sources_map = subst IsMap (sym g) (remove-IsMap a p.sources v.sources_map);
  flows_capped = rw (e, f) v.flows_capped;
  sources_capped = rw (e, g) (le_trans (length-remove a p.sources) v.sources_capped);
  flows_free = λ k at h. rw e (v.flows_free k at (rw f at h));
  sources_free =
      λ b until h. rw e (v.sources_free b until (get-remove-some a b p.sources until (rw g at h)));
}

decide-IsSafe : (p : Prevention) (t : NetTuple) (now : ℕ) → IsSafe p → IsSafe (decide p t now).0
decide-IsSafe p t now v = elim (decide_sources p t now) [
  | inl same ↦
      same-IsSafe p (decide p t now).0 (decide_settings p t now) (decide_flows p t now) same v
  | inr gone ↦
      forget-IsSafe p (decide p t now).0 t.src_ip (decide_settings p t now) (decide_flows p t now)
        gone v
]

-- A block either leaves the settings and the tables, or records a packet of no allow-listed address
-- while there is room.
record Records (p : Prevention) (t : NetTuple) (now : ℕ) (p' : Prevention) : Type 0 where
  flows : p'.flows ≡ insert (from_tuple t) now p.flows
  sources : p'.sources ≡ insert t.src_ip (now + p.settings.source_block) p.sources
  room_flows : length p.flows < p.settings.max_blocked_flows
  room_sources : length p.sources < p.settings.max_blocked_sources
  free_src : is_allow_listed p.settings t.src_ip ≡ false
  free_dest : is_allow_listed p.settings t.dest_ip ≡ false

block_settings : (p : Prevention) (t : NetTuple) (now : ℕ) → (block p t now).0.settings ≡ p.settings
unfolding block record_block
block_settings p t now = ground arith

block_cases :
    (p : Prevention) (t : NetTuple) (now : ℕ)
    → (((block p t now).0.flows ≡ p.flows) × ((block p t now).0.sources ≡ p.sources))
      ⊎ Records p t now (block p t now).0
unfolding block record_block
block_cases p t now = ground arith

from_tuple_free :
    (s : PreventionSettings) (t : NetTuple)
    → is_allow_listed s t.src_ip ≡ false
    → is_allow_listed s t.dest_ip ≡ false
    → (is_allow_listed s (from_tuple t).lower.address ≡ false)
      × (is_allow_listed s (from_tuple t).upper.address ≡ false)
unfolding from_tuple
from_tuple_free s t a b = ground arith

Records-IsSafe :
    (p p' : Prevention) (t : NetTuple) (now : ℕ)
    → p'.settings ≡ p.settings
    → Records p t now p'
    → IsSafe p
    → IsSafe p'
Records-IsSafe p p' t now e r v = record {
  flows_map = subst IsMap (sym r.flows) (insert-IsMap (from_tuple t) now p.flows v.flows_map);
  sources_map = subst IsMap (sym r.sources) (insert-IsMap t.src_ip _ p.sources v.sources_map);
  flows_capped =
      rw (e, r.flows) (ground (arith, r.room_flows, length-insert (from_tuple t) now p.flows));
  sources_capped =
      rw (e, r.sources)
        (ground (
          arith,
          r.room_sources,
          length-insert t.src_ip (now + p.settings.source_block) p.sources,
        ));
  flows_free = λ k at h.
      rw e (elim (get-insert-some (from_tuple t) k now at p.flows (rw r.flows at h)) [
        | inl same ↦ rw same.0 at (from_tuple_free p.settings t r.free_src r.free_dest)
        | inr before ↦ v.flows_free k at before
      ]);
  sources_free = λ a until h.
      rw e (elim (get-insert-some t.src_ip a _ until p.sources (rw r.sources at h)) [
        | inl same ↦ rw same.0 at r.free_src
        | inr before ↦ v.sources_free a until before
      ]);
}

block-IsSafe : (p : Prevention) (t : NetTuple) (now : ℕ) → IsSafe p → IsSafe (block p t now).0
block-IsSafe p t now v = elim (block_cases p t now) [
  | inl same ↦ same-IsSafe p (block p t now).0 (block_settings p t now) same.0 same.1 v
  | inr r ↦ Records-IsSafe p (block p t now).0 t now (block_settings p t now) r v
]

after_call-IsSafe : (p : Prevention) (c : Call) → IsSafe p → IsSafe (after_call p c)
unfolding after_call record_latency record_fail_mode_applied record_queue_depth
after_call-IsSafe p (call_decide t now) v = decide-IsSafe p t now v
after_call-IsSafe p (call_block t now) v = block-IsSafe p t now v
after_call-IsSafe p (call_expire now) v = expire-IsSafe p now v
after_call-IsSafe p (call_latency micros) v = same-IsSafe p _ refl refl refl v
after_call-IsSafe p (call_fail_mode packets) v = same-IsSafe p _ refl refl refl v
after_call-IsSafe p (call_set_mode mode) v = set_mode-IsSafe p mode v
after_call-IsSafe p (call_queue_depth depth) v = same-IsSafe p _ refl refl refl v

after_calls-IsSafe : (p : Prevention) (cs : List Call) → IsSafe p → IsSafe (after_calls p cs)
unfolding after_calls
after_calls-IsSafe p [] v = v
after_calls-IsSafe p (c ∷ cs) v = after_calls-IsSafe (after_call p c) cs (after_call-IsSafe p c v)

-- Whatever calls are made of a new store, in whatever order and at whatever instants, its tables
-- stay within their caps, have each key once, and never hold a conversation or a source with an
-- address of the allow-list.
pub new-after_calls-IsSafe :
    (s : PreventionSettings) (cs : List Call) → IsSafe (after_calls (new s) cs)
new-after_calls-IsSafe s cs = after_calls-IsSafe (new s) cs (new-IsSafe s)

abbrev pub switches : Call → Bool
switches (call_set_mode mode) = true
switches _ = false

after_call_disarmed :
    (p : Prevention) (c : Call)
    → switches c ≡ false
    → armed p ≡ false
    → armed (after_call p c) ≡ false
unfolding after_call record_latency record_fail_mode_applied record_queue_depth expire
after_call_disarmed p (call_decide t now) h k = rw (decide_settings p t now) k
after_call_disarmed p (call_block t now) h k = rw (block_settings p t now) k
after_call_disarmed p (call_expire now) h k = k
after_call_disarmed p (call_latency micros) h k = k
after_call_disarmed p (call_fail_mode packets) h k = k
after_call_disarmed p (call_set_mode mode) h k = absurd (cc h)
after_call_disarmed p (call_queue_depth depth) h k = k

after_calls_disarmed :
    (p : Prevention) (cs : List Call)
    → any switches cs ≡ false
    → armed p ≡ false
    → armed (after_calls p cs) ≡ false
unfolding after_calls
after_calls_disarmed p [] h k = k
after_calls_disarmed p (c ∷ cs) h k =
    after_calls_disarmed (after_call p c) cs (ground arith)
      (after_call_disarmed p c (ground arith) k)

disarmed_accepts :
    (p : Prevention) (t : NetTuple) (now : ℕ)
    → armed p ≡ false
    → (decision p t now ≡ accept) × (block p t now ≡ (p, not_armed))
unfolding decide block
disarmed_accepts p t now h = (ground arith, ground arith)

-- The kill switch: once the mode is set to detect, and until it is set again, whatever is called
-- meanwhile and whatever the tables hold, every packet is accepted and no block is recorded.
pub set_mode-disarms :
    (p : Prevention) (cs : List Call) (t : NetTuple) (now : ℕ)
    → any switches cs ≡ false
    → (decision (after_calls (set_mode p detect) cs) t now ≡ accept)
      × (block (after_calls (set_mode p detect) cs) t now
          ≡ (after_calls (set_mode p detect) cs, not_armed))
unfolding set_mode
set_mode-disarms p cs t now h =
    disarmed_accepts _ t now (after_calls_disarmed (set_mode p detect) cs h refl)
