-- ===== src/Correlation/Window.antt =====
-- The two ways an observation goes: refused, or filed under its host.
use cyber_sentinel_ids_ips.Prelude.{
  ℕ, suc, ◌+◌, ◌≤◌, ◌<◌, ◌≡◌, ◌⊎◌, refl, Bool, true, false, ◌&&◌, not, Option, none, some, List, [],
  ◌∷◌, ◌++◌, String, length, leb, arith, Bool-cases, inl, inr,
}
use cyber_sentinel_ids_ips.Common.Map.{Map, get, contains_key, insert, retain_map}
use cyber_sentinel_ids_ips.Correlation.{
  Observation, Correlator, CorrelationSettings, IncidentEvent, string_key, trim, expire,
  incident_of, raise, correlate_in, try_correlate, list_or_empty, make_room, observe, within,
  sort_by_time,
}

-- Correlating keeps the settings and the windows.
raise_keeps :
    (c : Correlator) (o : Observation) (i : Option IncidentEvent)
    → ((raise c o i).0.windows ≡ c.windows) × ((raise c o i).0.settings ≡ c.settings)
raise_keeps c o none = (refl, refl)
raise_keeps c o (some i) = (refl, refl)

correlate_in_keeps :
    (c : Correlator) (o : Observation) (w : Option (List Observation))
    → ((correlate_in c o w).0.windows ≡ c.windows) × ((correlate_in c o w).0.settings ≡ c.settings)
correlate_in_keeps c o none = (refl, refl)
correlate_in_keeps c o (some w) = ground (arith, raise_keeps c o (incident_of (sort_by_time w)))

pub try_correlate_keeps :
    (c : Correlator) (o : Observation)
    → ((try_correlate c o).0.windows ≡ c.windows) × ((try_correlate c o).0.settings ≡ c.settings)
unfolding try_correlate
try_correlate_keeps c o = ground (arith, correlate_in_keeps c o (get o.host c.windows))

-- The windows at an observation, trimmed.
abbrev pub trimmed : Correlator → Observation → Map String (List Observation)
trimmed c o = trim o.timestamp c.settings.window c.windows

-- The window of its host there.
abbrev pub host_window : Correlator → Observation → List Observation
host_window c o = list_or_empty (get o.host (trimmed c o))

-- Whether the observation is of one host too many.
abbrev pub one_too_many : Correlator → Observation → Bool
one_too_many c o =
    not (contains_key o.host (trimmed c o)) && leb c.settings.max_hosts (length (trimmed c o))

-- The correlator as it is when the observation is filed, before it looks for an incident.
abbrev pub filed : Correlator → Observation → List Observation → ℕ → Correlator
filed c o kept lost = record c {
  windows = insert o.host (kept ++ (o ∷ [])) (trimmed c o);
  last_incident =
      retain_map (λ _ when. within when o.timestamp c.settings.cooldown) c.last_incident;
  stats = record (c.stats) {
    observations = c.stats.observations + 1;
    dropped = c.stats.dropped + lost;
  };
}

abbrev pub refused : Correlator → Observation → Correlator
refused c o = record c {
  windows = trimmed c o;
  last_incident =
      retain_map (λ _ when. within when o.timestamp c.settings.cooldown) c.last_incident;
  stats = record (c.stats) {
    observations = c.stats.observations + 1;
    dropped = c.stats.dropped + 1;
  };
}

pub observe-refused :
    (c : Correlator) (o : Observation)
    → one_too_many c o ≡ true
    → observe c o ≡ some (refused c o, none)
unfolding observe expire
observe-refused c o h = rw h refl

pub observe-filed :
    (c : Correlator) (o : Observation) (kept : List Observation) (lost : ℕ)
    → one_too_many c o ≡ false
    → make_room c.settings (host_window c o) ≡ some (kept, lost)
    → observe c o ≡ some (try_correlate (filed c o kept lost) o)
unfolding observe expire
observe-filed c o kept lost h k = rw (h, k) refl

pub make_room_lem :
    (s : CorrelationSettings) (w : List Observation)
    → 1 ≤ s.max_per_host
    → length w ≤ s.max_per_host
    → (kept : List Observation) × (lost : ℕ) × (make_room s w ≡ some (kept, lost))
      × (length kept < s.max_per_host)
      × ((kept ≡ w) ⊎ ((o : Observation) × (w ≡ o ∷ kept)))
unfolding make_room
make_room_lem s [] h k = ([], 0, ground arith, ground arith, inl refl)
make_room_lem s (o ∷ os) h k = elim (Bool-cases (leb s.max_per_host (suc (length os)))) [
  | inl tight ↦ (os, 1, rw tight refl, ground arith, inr (o, refl))
  | inr loose ↦ (o ∷ os, 0, rw loose refl, ground arith, inl refl)
]
