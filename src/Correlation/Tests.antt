-- ===== src/Correlation/Tests.antt =====
-- The correlator on concrete observations.
use mathlib.Core.Path.{subst}
use mathlib.Core.Option.{some-injective}
use cyber_sentinel_ids_ips.Prelude.{
  ◌≡◌, refl, sym, ap, ◌∙◌, true, Option, none, some, [], ◌∷◌, arith,
}
use cyber_sentinel_ids_ips.Common.Event.{alert, fim}
use cyber_sentinel_ids_ips.Common.Map.{get, insert, retain_map, retain_mut}
use cyber_sentinel_ids_ips.Correlation.{
  Observation, network, host, Correlator, CorrelationSettings, IncidentEvent, new, observe, expire,
  make_room, try_correlate, incident_of, sort_by_time, insert_by_time, first_time, last_time, worst,
  describe, contributor, string_key,
}
use cyber_sentinel_ids_ips.Correlation.Bounds.{
  IsBounded, observe_all, new-IsBounded, new-observe_all-IsBounded, Takes, observe-Takes,
}
use cyber_sentinel_ids_ips.Correlation.Incidents.{Backed, observe-Backed}
use cyber_sentinel_ids_ips.Correlation.Quiet.{observe-quiet}

abbrev settings : CorrelationSettings
settings = record { window = 120; max_hosts = 2; max_per_host = 2; cooldown = 300 }

abbrev upload : Observation
upload = record {
  host = "web01";
  timestamp = 10;
  domain = host;
  event_type = fim;
  sid = none;
  severity = 3;
  summary = "file changed: /var/www/upload.php";
}

abbrev shell : Observation
shell = record {
  host = "web01";
  timestamp = 5;
  domain = network;
  event_type = alert;
  sid = some 9000001;
  severity = 2;
  summary = "network alert 9000001";
}

abbrev again : Observation
again = record shell { timestamp = 200 }

first_taken : Takes (new settings) upload
unfolding new
first_taken = observe-Takes (new settings) upload (omega arith) (new-IsBounded settings)

abbrev webshell : IncidentEvent
webshell = record {
  reason = record { network_side = 1; host_side = 1 };
  severity = 2;
  first_seen = 5;
  last_seen = 10;
  contributors = contributor shell ∷ contributor upload ∷ [];
}

abbrev found : Correlator
found = record {
  settings = settings;
  windows = ("web01", upload ∷ shell ∷ []) ∷ [];
  last_incident = ("web01", 5) ∷ [];
  stats = record { enabled = true; observations = 2; incidents = 1; dropped = 0 };
}

abbrev watched : Correlator
watched = record {
  settings = settings;
  windows = ("web01", upload ∷ []) ∷ [];
  last_incident = [];
  stats = record { enabled = true; observations = 1; incidents = 0; dropped = 0 };
}

observe-shell : observe watched shell ≡ some (found, some webshell)
unfolding observe expire make_room try_correlate incident_of sort_by_time insert_by_time first_time
    last_time worst describe get insert retain_map retain_mut
observe-shell = refl

observe-upload : observe (new settings) upload ≡ some (watched, none)
unfolding observe expire make_room try_correlate incident_of sort_by_time insert_by_time first_time
    last_time worst describe get insert retain_map retain_mut new
observe-upload = refl

watched-IsBounded : IsBounded watched
watched-IsBounded =
    subst IsBounded
      (ap (λ (q : Correlator × Option IncidentEvent). q.0)
        (some-injective (first_taken.correlator, first_taken.event) (watched, none)
          (sym first_taken.runs ∙ observe-upload)))
      first_taken.bounded

new-observe_all-IsBounded_example :
    (c : Correlator) × (observe_all (new settings) (upload ∷ shell ∷ again ∷ upload ∷ []) ≡ some c)
    × (c.settings ≡ settings)
    × IsBounded c
new-observe_all-IsBounded_example =
    new-observe_all-IsBounded settings (upload ∷ shell ∷ again ∷ upload ∷ []) (omega arith)

observe-Backed_example : Backed watched found shell webshell
observe-Backed_example =
    observe-Backed watched found shell webshell (omega arith) watched-IsBounded observe-shell

observe-quiet_example :
    (c₁ : Correlator) × (c₂ : Correlator) × (observe_all found (upload ∷ again ∷ []) ≡ some c₁)
    × (observe c₁ again ≡ some (c₂, none))
observe-quiet_example =
    observe-quiet watched found shell again webshell (upload ∷ again ∷ []) (omega arith)
      watched-IsBounded tt observe-shell refl refl refl
