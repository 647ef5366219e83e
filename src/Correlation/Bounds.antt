-- ===== src/Correlation/Bounds.antt =====
-- The bounds of the tables of the correlator of crates/correlation/src/lib.rs. They rest on a cap of at
-- least one observation for each host: with a cap of 0 `observe` panics.
use text.Mathlib.Text.{◌==◌ as ◌==ₛ◌}
use mathlib.Core.Path.{subst}
use native.Mathlib.Nat.{le_trans}
use cyber_sentinel_ids_ips.Prelude.{
  ℕ, ◌≤◌, ◌≡◌, ◌⊎◌, refl, sym, ◌∙◌, Bool, true, false, Option, none, some, List, [], ◌∷◌, ◌++◌,
  String, length, all, arith, ◌>>=◌, Bool-cases, Option-cases, inl, inr, length-append,
  length-retain, all-append, all-retain_of,
}
use cyber_sentinel_ids_ips.Common.Map.{
  get, IsMap, get-insert-some, get-retain_mut, insert-IsMap, retain_mut-IsMap, length-insert,
  length-retain_mut,
}
use cyber_sentinel_ids_ips.Correlation.{
  Observation, Correlator, CorrelationSettings, IncidentEvent, string_key, fresh, trim_one, new,
  within, try_correlate, observe,
}
use cyber_sentinel_ids_ips.Correlation.Window.{
  try_correlate_keeps, trimmed, host_window, one_too_many, filed, refused, observe-refused,
  observe-filed, make_room_lem,
}

abbrev pub is_of : String → Observation → Bool
is_of name o = o.host ==ₛ name

-- A host's window is within its cap, and holds observations of that host only.
pub record IsWindow (s : CorrelationSettings) (name : String) (os : List Observation) : Type 0 where
  pub capped : length os ≤ s.max_per_host
  pub mine : all (is_of name) os ≡ true

pub record IsBounded (c : Correlator) : Type 0 where
  pub windows_map : IsMap c.windows
  pub hosts_capped : length c.windows ≤ c.settings.max_hosts
  pub each :
      (name : String) (os : List Observation)
      → get name c.windows ≡ some os
      → IsWindow c.settings name os

trim_one-some :
    (now window : ℕ) (w : Option (List Observation)) (left : List Observation)
    → (w >>= trim_one now window) ≡ some left
    → (os : List Observation) × (w ≡ some os) × (left ≡ fresh now window os)
trim_one-some now window none left h = absurd (cc h)
trim_one-some now window (some os) left h = (os, refl, ground arith)

-- A trimmed window.
pub get-trimmed :
    (c : Correlator) (o : Observation) (name : String) (left : List Observation)
    → IsBounded c
    → get name (trimmed c o) ≡ some left
    → (os : List Observation) × (get name c.windows ≡ some os)
      × (left ≡ fresh o.timestamp c.settings.window os)
get-trimmed c o name left v h =
    trim_one-some o.timestamp c.settings.window (get name c.windows) left (
      sym (
        get-retain_mut (λ _ os. trim_one o.timestamp c.settings.window os) name c.windows
          v.windows_map)
      ∙ h)

trimmed-IsWindow :
    (c : Correlator) (o : Observation) (name : String) (left : List Observation)
    → IsBounded c
    → get name (trimmed c o) ≡ some left
    → IsWindow c.settings name left
trimmed-IsWindow c o name left v h =
    let (os, there, e) = get-trimmed c o name left v h in
    let w : IsWindow c.settings name os = v.each name os there in
    record {
      capped = rw e (
          le_trans (length-retain (λ e. within e.timestamp o.timestamp c.settings.window) os)
            w.capped);
      mine = rw e (
          all-retain_of (λ e. within e.timestamp o.timestamp c.settings.window) (is_of name) os
            w.mine);
    }

pub host_window-IsWindow :
    (c : Correlator) (o : Observation) → IsBounded c → IsWindow c.settings o.host (host_window c o)
host_window-IsWindow c o v = elim (Option-cases (get o.host (trimmed c o))) [
  | inl nothing ↦ rw nothing (record { capped = omega arith; mine = refl })
  | inr (left, there) ↦ rw there (trimmed-IsWindow c o o.host left v there)
]

refused-IsBounded : (c : Correlator) (o : Observation) → IsBounded c → IsBounded (refused c o)
refused-IsBounded c o v = record {
  windows_map = retain_mut-IsMap _ c.windows v.windows_map;
  hosts_capped = le_trans (length-retain_mut _ c.windows) v.hosts_capped;
  each = λ name os h. trimmed-IsWindow c o name os v h;
}

-- What holds of all of a window and of a new observation holds of the new window.
pub all-appended :
    (p : Observation → Bool) (o : Observation) (w kept : List Observation)
    → all p w ≡ true
    → p o ≡ true
    → (kept ≡ w) ⊎ ((e : Observation) × (w ≡ e ∷ kept))
    → all p (kept ++ (o ∷ [])) ≡ true
all-appended p o w kept h k split =
    all-append p kept (o ∷ [])
      (elim split [ inl same ↦ rw same h | inr (e, longer) ↦ ground (arith, rw longer at h) ])
      (ground arith)

pub is_of_refl : (o : Observation) → is_of o.host o ≡ true
is_of_refl o = (string_key.key_eq_iff o.host o.host).1 refl

filed-IsBounded :
    (c : Correlator) (o : Observation) (kept : List Observation) (lost : ℕ)
    → IsBounded c
    → one_too_many c o ≡ false
    → IsWindow c.settings o.host (kept ++ (o ∷ []))
    → IsBounded (filed c o kept lost)
filed-IsBounded c o kept lost v room w = record {
  windows_map = insert-IsMap o.host _ (trimmed c o) (retain_mut-IsMap _ c.windows v.windows_map);
  hosts_capped = ground (
    arith,
    room,
    length-insert o.host (kept ++ (o ∷ [])) (trimmed c o),
    v.hosts_capped,
    length-retain_mut (λ _ os. trim_one o.timestamp c.settings.window os) c.windows,
  );
  each = λ name os h. elim (get-insert-some o.host name (kept ++ (o ∷ [])) os (trimmed c o) h) [
    | inl (same, e) ↦ rw (← same, ← e) w
    | inr before ↦ trimmed-IsWindow c o name os v before
  ];
}

same-IsBounded :
    (c c' : Correlator)
    → c'.windows ≡ c.windows
    → c'.settings ≡ c.settings
    → IsBounded c
    → IsBounded c'
same-IsBounded c c' e f v = record {
  windows_map = subst IsMap (sym e) v.windows_map;
  hosts_capped = rw (e, f) v.hosts_capped;
  each = λ name os h. rw f (v.each name os (rw e at h));
}

-- An observation that is taken.
pub record Takes (c : Correlator) (o : Observation) : Type 0 where
  pub correlator : Correlator
  pub event : Option IncidentEvent
  pub runs : observe c o ≡ some (correlator, event)
  pub settings : correlator.settings ≡ c.settings
  pub bounded : IsBounded correlator

pub observe-Takes :
    (c : Correlator) (o : Observation) → 1 ≤ c.settings.max_per_host → IsBounded c → Takes c o
observe-Takes c o h v = elim (Bool-cases (one_too_many c o)) [
  | inl over ↦ record {
    correlator = refused c o;
    event = none;
    runs = observe-refused c o over;
    settings = refl;
    bounded = refused-IsBounded c o v;
  }
  | inr room ↦
      let w : IsWindow c.settings o.host (host_window c o) = host_window-IsWindow c o v in
      let (kept, lost, e, less, split) = make_room_lem c.settings (host_window c o) h w.capped in
      let (windows, settings) = try_correlate_keeps (filed c o kept lost) o in
      record {
        correlator = (try_correlate (filed c o kept lost) o).0;
        event = (try_correlate (filed c o kept lost) o).1;
        runs = observe-filed c o kept lost room e;
        settings = settings;
        bounded = same-IsBounded (filed c o kept lost) _ windows settings (
            filed-IsBounded c o kept lost v room (record {
              capped = omega (arith, less, length-append kept (o ∷ []));
              mine =
                  all-appended (is_of o.host) o (host_window c o) kept w.mine (is_of_refl o) split;
            }));
      }
]

-- Observations offered one after another.
unfoldable pub observe_all : Correlator → List Observation → Option Correlator
observe_all c [] = some c
observe_all c (o ∷ os) = observe c o >>= λ r. observe_all r.0 os

observe_all-IsBounded :
    (c : Correlator) (os : List Observation)
    → 1 ≤ c.settings.max_per_host
    → IsBounded c
    → (c' : Correlator) × (observe_all c os ≡ some c') × (c'.settings ≡ c.settings) × IsBounded c'
unfolding observe_all
observe_all-IsBounded c [] h v = (c, refl, refl, v)
observe_all-IsBounded c (o ∷ os) h v =
    let t : Takes c o = observe-Takes c o h v in
    let (c', e, kept, w) = observe_all-IsBounded t.correlator os (rw t.settings h) t.bounded in
    (c', rw t.runs e, kept ∙ t.settings, w)

pub new-IsBounded : (s : CorrelationSettings) → IsBounded (new s)
unfolding new get
new-IsBounded s = record {
  windows_map = tt;
  hosts_capped = omega arith;
  each = λ name os h. absurd (cc h);
}

-- With room for at least one observation of a host, a new correlator takes any observations, of any
-- hosts and times, without a panic; behind them it has each host once, no more hosts than its cap,
-- and for each of them no more observations than its cap, all of that host.
pub new-observe_all-IsBounded :
    (s : CorrelationSettings) (os : List Observation)
    → 1 ≤ s.max_per_host
    → (c : Correlator) × (observe_all (new s) os ≡ some c) × (c.settings ≡ s) × IsBounded c
unfolding new
new-observe_all-IsBounded s os h = observe_all-IsBounded (new s) os h (new-IsBounded s)
