-- ===== src/Correlation.antt =====
-- crates/correlation/src/lib.rs: host and network observations that are one incident. Timestamps and
-- durations are numbers of one unit; counters do not wrap. A removal from an empty list, on which
-- the source panics, is `none`. `DedupeMode` is read by nothing there and is left out.
pub mod Order
pub mod Window
pub mod Bounds
pub mod Summary
pub mod Incidents
pub mod Quiet
mod Tests
use text.Mathlib.Text.{◌==◌ as ◌==ₛ◌}
use text.Mathlib.TextEquality.{eq_iff}
use cyber_sentinel_ids_ips.Prelude.{
  ℕ, ◌+◌, ◌-◌, min, Bool, true, false, ◌&&◌, not, Option, none, some, List, [], ◌∷◌, ◌++◌, map,
  String, length, retain, any, ltb, leb, if◌then◌else◌, ◌>>=◌,
}
use cyber_sentinel_ids_ips.Common.Event.{
  EventKind, alert, anomaly, flow, fim, auth, process, incident, stats,
}
use cyber_sentinel_ids_ips.Common.Map.{Key, Map, get, contains_key, insert, retain_map, retain_mut}

instance abbrev pub string_key : Key String
string_key = record { key_eq = λ s t. s ==ₛ t; key_eq_iff = eq_iff }

pub data Domain : Type 0 where
  network host : Domain

abbrev pub of : EventKind → Option Domain
of alert = some network
of anomaly = some network
of flow = some network
of fim = some host
of auth = some host
of process = some host
of incident = none
of stats = none

pub record Observation : Type 0 where
  pub host : String
  pub timestamp : ℕ
  pub domain : Domain
  pub event_type : EventKind
  pub sid : Option ℕ
  pub severity : ℕ
  pub summary : String

pub record CorrelationSettings : Type 0 where
  pub window : ℕ
  pub max_hosts : ℕ
  pub max_per_host : ℕ
  pub cooldown : ℕ

-- `CorrelationSettings::default`, in seconds.
abbrev pub default_settings : CorrelationSettings
default_settings = record { window = 120; max_hosts = 1024; max_per_host = 256; cooldown = 300 }

pub record CorrelationStats : Type 0 where
  pub enabled : Bool
  pub observations : ℕ
  pub incidents : ℕ
  pub dropped : ℕ

pub record Correlator : Type 0 where
  pub settings : CorrelationSettings
  pub windows : Map String (List Observation)
  pub last_incident : Map String ℕ
  pub stats : CorrelationStats

pub record IncidentContributor : Type 0 where
  pub event_type : EventKind
  pub sid : Option ℕ
  pub summary : String
  pub timestamp : ℕ

-- The two numbers that the text of `describe` prints.
pub record Description : Type 0 where
  pub network_side : ℕ
  pub host_side : ℕ

pub record IncidentEvent : Type 0 where
  pub reason : Description
  pub severity : ℕ
  pub first_seen : ℕ
  pub last_seen : ℕ
  pub contributors : List IncidentContributor

pub new : CorrelationSettings → Correlator
new settings = record {
  settings = settings;
  windows = [];
  last_incident = [];
  stats = record { enabled = true; observations = 0; incidents = 0; dropped = 0 };
}

-- The absolute difference of the two is at most `window`.
abbrev pub within : ℕ → ℕ → ℕ → Bool
within earlier now window = leb ((now - earlier) + (earlier - now)) window

abbrev pub is_network : Domain → Bool
is_network network = true
is_network host = false

abbrev pub same_domain : Domain → Domain → Bool
same_domain a b = if is_network a then is_network b else not (is_network b)

abbrev pub opposite : Domain → Domain
opposite network = host
opposite host = network

-- What `expire` keeps of a list of observations.
abbrev pub fresh : ℕ → ℕ → List Observation → List Observation
fresh now window observations = retain (λ o. within o.timestamp now window) observations

-- The closure of `windows.retain`: a list is trimmed, and dropped where nothing is left.
abbrev pub trim_one : ℕ → ℕ → List Observation → Option (List Observation)
trim_one now window observations =
    let left = fresh now window observations in if leb (length left) 0 then none else some left

abbrev pub trim : ℕ → ℕ → Map String (List Observation) → Map String (List Observation)
trim now window m = retain_mut (λ _ observations. trim_one now window observations) m

pub expire : Correlator → ℕ → Correlator
expire c now = record c {
  windows = trim now c.settings.window c.windows;
  last_incident = retain_map (λ _ when. within when now c.settings.cooldown) c.last_incident;
}

-- `sort_by_key` on the timestamps, which is stable.
pub insert_by_time : Observation → List Observation → List Observation
insert_by_time o [] = o ∷ []
insert_by_time o (x ∷ xs) =
    let rest = insert_by_time o xs in if leb o.timestamp x.timestamp then o ∷ x ∷ xs else x ∷ rest

pub sort_by_time : List Observation → List Observation
unfolding insert_by_time
sort_by_time [] = []
sort_by_time (o ∷ os) = insert_by_time o (sort_by_time os)

pub first_time : List Observation → Option ℕ
first_time [] = none
first_time (o ∷ os) = some o.timestamp

pub last_time : List Observation → Option ℕ
last_time [] = none
last_time (o ∷ []) = some o.timestamp
last_time (o ∷ p ∷ os) = last_time (p ∷ os)

-- `min()` on the severities.
pub worst : List Observation → Option ℕ
worst [] = none
worst (o ∷ os) = elim (worst os) [ none ↦ some o.severity | some s ↦ some (min o.severity s) ]

pub describe : List Observation → Description
describe contributors =
    let host_side = length (retain (λ o. same_domain o.domain host) contributors) in
    record { network_side = length contributors - host_side; host_side = host_side }

pub contributor : Observation → IncidentContributor
contributor o = record {
  event_type = o.event_type;
  sid = o.sid;
  summary = o.summary;
  timestamp = o.timestamp;
}

abbrev severity_or : Option ℕ → ℕ → ℕ
severity_or none d = d
severity_or (some s) d = s

-- The incident of contributors in time order; there is none where there are no contributors.
pub incident_of : List Observation → Option IncidentEvent
unfolding first_time last_time worst describe contributor
incident_of contributors = do
  first_seen ← first_time contributors
  last_seen ← last_time contributors
  some (record {
    reason = describe contributors;
    severity = severity_or (worst contributors) 3;
    first_seen = first_seen;
    last_seen = last_seen;
    contributors = map contributor contributors;
  })

-- The test of the cooldown.
abbrev pub cooling : Option ℕ → ℕ → ℕ → Bool
cooling none now cooldown = false
cooling (some previous) now cooldown = within previous now cooldown

-- What an incident changes.
abbrev pub raise :
    Correlator → Observation → Option IncidentEvent → Correlator × Option IncidentEvent
raise c trigger none = (c, none)
raise c trigger (some event) = (
  record c {
    last_incident = insert trigger.host trigger.timestamp c.last_incident;
    stats = record (c.stats) { incidents = c.stats.incidents + 1 };
  },
  some event,
)

-- `try_correlate` behind the lookup of the host's window.
abbrev pub correlate_in :
    Correlator → Observation → Option (List Observation) → Correlator × Option IncidentEvent
correlate_in c trigger none = (c, none)
correlate_in c trigger (some window) =
    if any (λ o. same_domain o.domain (opposite trigger.domain)) window
    then raise c trigger (incident_of (sort_by_time window))
    else (c, none)

pub try_correlate : Correlator → Observation → Correlator × Option IncidentEvent
try_correlate c trigger =
    if cooling (get trigger.host c.last_incident) trigger.timestamp c.settings.cooldown
    then (c, none)
    else correlate_in c trigger (get trigger.host c.windows)

abbrev pub list_or_empty : Option (List Observation) → List Observation
list_or_empty none = []
list_or_empty (some window) = window

-- `window.remove(0)`, which panics on an empty list.
abbrev pub remove_first : List Observation → Option (List Observation)
remove_first [] = none
remove_first (o ∷ os) = some os

-- A host's window with room for one more, and the number of observations dropped for it.
pub make_room : CorrelationSettings → List Observation → Option (List Observation × ℕ)
make_room settings window =
    if leb settings.max_per_host (length window)
    then (do rest ← remove_first window; some (rest, 1))
    else some (window, 0)

pub observe : Correlator → Observation → Option (Correlator × Option IncidentEvent)
unfolding expire make_room try_correlate
observe c₀ observation =
    let counted = record c₀ {
      stats = record (c₀.stats) { observations = c₀.stats.observations + 1 };
    } in
    let c = expire counted observation.timestamp in
    if not (contains_key observation.host c.windows) && leb c.settings.max_hosts (length c.windows)
    then some (record c { stats = record (c.stats) { dropped = c.stats.dropped + 1 } }, none)
    else (do
      (window, lost) ← make_room c.settings (list_or_empty (get observation.host c.windows))
      some (
          try_correlate
            (record c {
              windows = insert observation.host (window ++ (observation ∷ [])) c.windows;
              stats = record (c.stats) { dropped = c.stats.dropped + lost };
            })
            observation))
