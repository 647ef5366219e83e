-- ===== src/Prevent/Store/Tests.antt =====
-- The verdict store on concrete packets.
use mathlib.Core.Option.{some-injective}
use cyber_sentinel_ids_ips.Prelude.{
  ℕ, ◌-◌, ◌<◌, ◌≤◌, ◌≡◌, ◌≢◌, refl, false, some, List, [], ◌∷◌, arith,
}
use cyber_sentinel_ids_ips.Common.Net.{ip_eq, v4, contains}
use cyber_sentinel_ids_ips.Common.Event.{NetTuple, tcp}
use cyber_sentinel_ids_ips.Common.Map.{get, insert}
use cyber_sentinel_ids_ips.Prevent.Key.{
  reversed, from_tuple, from_tuple-reversed, flow_eq, flow_key,
}
use cyber_sentinel_ids_ips.Common.Endpoint.{ip_key}
use cyber_sentinel_ids_ips.Prevent.Store.{
  prevent, detect, open_mode, PreventionSettings, Prevention, new, block, blocked, not_armed,
  is_allow_listed, first_allow_listed, block_unless, record_block, accept, drop_packet,
  flow_verdict, expire, set_mode,
}
use cyber_sentinel_ids_ips.Prevent.Store.Sweep.{
  decision, IsStore, expire_unobserved, expire-accepts,
}
use cyber_sentinel_ids_ips.Prevent.Store.Verdicts.{decision-block}
use cyber_sentinel_ids_ips.Prevent.Store.Reach.{
  Call, call_decide, call_block, call_expire, after_calls, IsSafe, new-after_calls-IsSafe,
  set_mode-disarms,
}

abbrev settings : PreventionSettings
settings = record {
  mode = prevent;
  fail_mode = open_mode;
  allow_list = record { address = v4 167772161; prefix_len = 32 } ∷ [];
  source_block = 300;
  max_blocked_flows = 2;
  max_blocked_sources = 2;
}

abbrev attack : NetTuple
attack = record {
  src_ip = v4 3405803786;
  src_port = some 40000;
  dest_ip = v4 3232235777;
  dest_port = some 80;
  proto = tcp;
}

abbrev start : Prevention
start = new settings

abbrev after_block : Prevention
after_block = (block start attack 100).0

start-IsStore : IsStore start
unfolding new
start-IsStore = record { flows = tt; sources = tt }

block-attack : block start attack 100 ≡ (after_block, blocked (some (v4 3405803786)))
unfolding block block_unless record_block first_allow_listed is_allow_listed new contains
block-attack = refl

free_source : is_allow_listed start.settings (v4 3232235777) ≡ false
unfolding is_allow_listed contains new
free_source = refl

-- Another conversation of the same source.
abbrev elsewhere : NetTuple
elsewhere = record attack { dest_port = some 443 }

decision-block_example :
    (decision (expire after_block 399) attack 399 ≡ drop_packet flow_verdict)
    × (decision after_block attack 399 ≡ drop_packet flow_verdict)
    × (decision (expire after_block 399) (reversed attack) 399 ≡ drop_packet flow_verdict)
    × (decision after_block (reversed attack) 399 ≡ drop_packet flow_verdict)
    × (decision after_block elsewhere 399 ≢ accept)
unfolding new
decision-block_example =
    decision-block start after_block attack 100 399 (some (v4 3405803786)) start-IsStore
      block-attack (omega arith) (omega arith) elsewhere refl free_source

-- The verdict of the block is 299 units old.
verdict_age :
    (at : ℕ)
    → get (from_tuple attack) after_block.flows ≡ some at
    → 399 - at < after_block.settings.source_block
unfolding block block_unless record_block first_allow_listed is_allow_listed new contains insert get
    flow_eq from_tuple
verdict_age at h = omega (arith, some-injective 100 at h)

verdict_old :
    (at : ℕ)
    → get (from_tuple attack) after_block.flows ≡ some at
    → after_block.settings.source_block ≤ 400 - at
unfolding block block_unless record_block first_allow_listed is_allow_listed new contains insert get
    flow_eq from_tuple
verdict_old at h = omega (arith, some-injective 100 at h)

block_over : (until : ℕ) → get attack.src_ip after_block.sources ≡ some until → until ≤ 400
unfolding block block_unless record_block first_allow_listed is_allow_listed new contains insert get
    ip_eq
block_over until h = omega (arith, some-injective 400 until h)

after_block-IsStore : IsStore after_block
unfolding block block_unless record_block first_allow_listed is_allow_listed new contains insert get
after_block-IsStore = record { flows = (refl, tt); sources = (refl, tt) }

expire_unobserved_example :
    decision (expire after_block 399) attack 399 ≡ decision after_block attack 399
expire_unobserved_example = expire_unobserved after_block attack 399 after_block-IsStore verdict_age

expire-accepts_example : decision (expire after_block 400) attack 400 ≡ accept
expire-accepts_example =
    expire-accepts after_block attack 400 after_block-IsStore verdict_old block_over

from_tuple-reversed_example : from_tuple (reversed attack) ≡ from_tuple attack
from_tuple-reversed_example = from_tuple-reversed attack

abbrev calls : List Call
calls =
    call_block attack 100
    ∷ call_decide attack 150
    ∷ call_block (reversed attack) 160
    ∷ call_decide attack 500
    ∷ call_expire 600
    ∷ []

new-after_calls-IsSafe_example : IsSafe (after_calls (new settings) calls)
new-after_calls-IsSafe_example = new-after_calls-IsSafe settings calls

set_mode-disarms_example :
    (decision (after_calls (set_mode after_block detect) calls) attack 200 ≡ accept)
    × (block (after_calls (set_mode after_block detect) calls) attack 200
        ≡ (after_calls (set_mode after_block detect) calls, not_armed))
set_mode-disarms_example = set_mode-disarms after_block calls attack 200 refl
