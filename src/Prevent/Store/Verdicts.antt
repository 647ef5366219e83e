-- ===== src/Prevent/Store/Verdicts.antt =====
-- Block verdicts of crates/prevent/src/store.rs and the packets behind them.
use mathlib.Core.Path.{subst}
use mathlib.Core.Option.{some-injective}
use cyber_sentinel_ids_ips.Prelude.{
  ℕ, ◌+◌, ◌≤◌, ◌<◌, ◌≡◌, ◌≢◌, refl, sym, ap, ◌∙◌, Bool, true, false, ◌||◌, Option, none, some,
  arith,
}
use cyber_sentinel_ids_ips.Common.Net.{IpAddr}
use cyber_sentinel_ids_ips.Common.Event.{NetTuple}
use cyber_sentinel_ids_ips.Common.Map.{get, contains_key, insert, IsMap, get-insert, insert-IsMap}
use cyber_sentinel_ids_ips.Prevent.Key.{
  flow_key, flow_eq_iff, from_tuple, reversed, from_tuple-reversed,
}
use cyber_sentinel_ids_ips.Common.Endpoint.{ip_key, ip_eq_iff}
use cyber_sentinel_ids_ips.Prevent.Store.{
  accept, drop_packet, flow_verdict, blocked, Prevention, PreventionSettings, armed,
  is_allow_listed, block, record_block, expire,
}
use cyber_sentinel_ids_ips.Prevent.Store.Sweep.{
  decision, is_exempt, judge, decision-judge, IsStore, expire_unobserved,
}

-- What a block that is recorded leaves.
pub record Recorded (p : Prevention) (t : NetTuple) (now : ℕ) (p' : Prevention) : Type 0 where
  pub arms : armed p' ≡ true
  pub settings : p'.settings ≡ p.settings
  pub not_exempt : is_exempt p t ≡ false
  pub flows : p'.flows ≡ insert (from_tuple t) now p.flows
  pub sources : p'.sources ≡ insert t.src_ip (now + p.settings.source_block) p.sources

pub block-Recorded :
    (p p' : Prevention) (t : NetTuple) (now : ℕ) (source : Option IpAddr)
    → block p t now ≡ (p', blocked source)
    → Recorded p t now p'
unfolding block record_block
block-Recorded p p' t now source e = ground arith

block-IsStore :
    (p p' : Prevention) (t : NetTuple) (now : ℕ) → IsStore p → Recorded p t now p' → IsStore p'
block-IsStore p p' t now s r = record {
  flows = subst IsMap (sym r.flows) (insert-IsMap (from_tuple t) now p.flows s.flows);
  sources =
      subst IsMap (sym r.sources)
        (insert-IsMap t.src_ip (now + p.settings.source_block) p.sources s.sources);
}

-- The conversation's verdict, after the block.
flow-Recorded :
    (p p' : Prevention) (t : NetTuple) (now : ℕ)
    → Recorded p t now p'
    → get (from_tuple t) p'.flows ≡ some now
flow-Recorded p p' t now r = rw (
  r.flows,
  get-insert (from_tuple t) (from_tuple t) now p.flows,
  (flow_eq_iff (from_tuple t) (from_tuple t)).1 refl,
)

source-Recorded :
    (p p' : Prevention) (t : NetTuple) (now : ℕ)
    → Recorded p t now p'
    → get t.src_ip p'.sources ≡ some (now + p.settings.source_block)
source-Recorded p p' t now r = rw (
  r.sources,
  get-insert t.src_ip t.src_ip (now + p.settings.source_block) p.sources,
  (ip_eq_iff t.src_ip t.src_ip).1 refl,
)

judge_condemned :
    (until : Option ℕ) (now : ℕ) → judge true false true until now ≡ drop_packet flow_verdict
judge_condemned none now = refl
judge_condemned (some until) now = refl

judge_blocked :
    (condemned : Bool) (until now : ℕ)
    → now < until
    → judge true false condemned (some until) now ≢ accept
judge_blocked true until now h e = cc
judge_blocked false until now h e = ground arith

or_left : (a b : Bool) → (a || b) ≡ false → a ≡ false
or_left a b h = ground arith

or_swap : (a b : Bool) → (a || b) ≡ false → (b || a) ≡ false
or_swap a b h = ground arith

module _ (p p' : Prevention) (t : NetTuple) (now later : ℕ) (source : Option IpAddr) (s : IsStore p)
    (e : block p t now ≡ (p', blocked source)) (lasts : later < now + p.settings.source_block)
    (ahead : now ≤ later) where
  recorded : Recorded p t now p'
  recorded = block-Recorded p p' t now source e

  same_exempt : (u : NetTuple) → is_exempt p' u ≡ is_exempt p u
  same_exempt u = rw recorded.settings

  flow_dropped :
      (u : NetTuple)
      → from_tuple u ≡ from_tuple t
      → is_exempt p u ≡ false
      → (decision (expire p' later) u later ≡ drop_packet flow_verdict)
        × (decision p' u later ≡ drop_packet flow_verdict)
  flow_dropped u same free =
      let there : get (from_tuple u) p'.flows ≡ some now =
        rw same (flow-Recorded p p' t now recorded) in
      let now_dropped : decision p' u later ≡ drop_packet flow_verdict =
        decision-judge p' u later
        ∙ rw (recorded.arms, same_exempt u, free, there)
            (judge_condemned (get u.src_ip p'.sources) later) in
      (
        expire_unobserved p' u later (block-IsStore p p' t now s recorded) (λ at h. omega (
          arith,
          lasts,
          ahead,
          some-injective now at (sym there ∙ h),
          ap (λ (k : PreventionSettings). k.source_block) recorded.settings,
        ))
            ∙ now_dropped,
        now_dropped,
      )

  source_dropped :
      (u : NetTuple)
      → u.src_ip ≡ t.src_ip
      → is_allow_listed p.settings u.dest_ip ≡ false
      → decision p' u later ≢ accept
  source_dropped u same free h =
      let mine : is_allow_listed p.settings u.src_ip ≡ false =
        rw same (or_left (is_allow_listed p.settings t.src_ip) _ recorded.not_exempt) in
      let there : get u.src_ip p'.sources ≡ some (now + p.settings.source_block) =
        rw same (source-Recorded p p' t now recorded) in
      judge_blocked (contains_key (from_tuple u) p'.flows) (now + p.settings.source_block) later
        lasts
        (rw (recorded.arms, recorded.settings, mine, free, there) at
          (sym (decision-judge p' u later) ∙ h))

  -- After a block is recorded, and until it runs out, every packet of the conversation is dropped,
  -- in either direction and whether or not the tables are swept at that instant, and so is every
  -- packet `u` of the blocked source whose destination is not on the allow-list.
  pub decision-block :
      (u : NetTuple)
      → u.src_ip ≡ t.src_ip
      → is_allow_listed p.settings u.dest_ip ≡ false
      → (decision (expire p' later) t later ≡ drop_packet flow_verdict)
        × (decision p' t later ≡ drop_packet flow_verdict)
        × (decision (expire p' later) (reversed t) later ≡ drop_packet flow_verdict)
        × (decision p' (reversed t) later ≡ drop_packet flow_verdict)
        × (decision p' u later ≢ accept)
  decision-block u same free =
      let (swept, unswept) = flow_dropped t refl recorded.not_exempt in
      let (swept', unswept') = flow_dropped (reversed t) (from_tuple-reversed t) (
        or_swap (is_allow_listed p.settings t.src_ip) (is_allow_listed p.settings t.dest_ip)
          recorded.not_exempt) in
      (swept, unswept, swept', unswept', source_dropped u same free)
