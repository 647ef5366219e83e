-- ===== src/Correlation/Summary.antt =====
-- What an incident says of the observations that it is made of.
use mathlib.Core.Path.{subst}
use mathlib.Core.Option.{some-injective}
use cyber_sentinel_ids_ips.Prelude.{
  ℕ, ◌≡◌, refl, true, some, List, [], ◌∷◌, map, min, all, any, leb, ◌==◌, arith, Option-cases, inl,
  inr,
}
use cyber_sentinel_ids_ips.Correlation.{
  Observation, IncidentEvent, string_key, sort_by_time, incident_of, first_time, last_time, worst,
  contributor, describe,
}
use cyber_sentinel_ids_ips.Correlation.Order.{IsAscending, sorted_times, worst_lem}

-- What an incident says of the observations that it is made of.
pub record Summarises (i : IncidentEvent) (evidence : List Observation) : Type 0 where
  pub listed : i.contributors ≡ map contributor evidence
  pub counted : i.reason ≡ describe evidence
  pub ordered : IsAscending i.first_seen evidence
  pub starts : any (λ e. e.timestamp == i.first_seen) evidence ≡ true
  pub before_end : all (λ e. leb e.timestamp i.last_seen) evidence ≡ true
  pub ends : any (λ e. e.timestamp == i.last_seen) evidence ≡ true
  pub no_worse : all (λ e. leb i.severity e.severity) evidence ≡ true
  pub as_bad : any (λ e. e.severity == i.severity) evidence ≡ true

nonempty_worst :
    (os : List Observation) (t : ℕ) → first_time os ≡ some t → (s : ℕ) × (worst os ≡ some s)
unfolding first_time worst
nonempty_worst [] t h = absurd (cc h)
nonempty_worst (o ∷ os) t h = elim (Option-cases (worst os)) [
  | inl nothing ↦ (o.severity, rw nothing refl)
  | inr (s, there) ↦ (min o.severity s, rw there refl)
]

-- The incident of sorted observations.
abbrev event_of : List Observation → ℕ → ℕ → ℕ → IncidentEvent
event_of w first_seen last_seen severity = record {
  reason = describe (sort_by_time w);
  severity = severity;
  first_seen = first_seen;
  last_seen = last_seen;
  contributors = map contributor (sort_by_time w);
}

event_of-Summarises :
    (w : List Observation) (first_seen last_seen severity : ℕ)
    → first_time (sort_by_time w) ≡ some first_seen
    → last_time (sort_by_time w) ≡ some last_seen
    → worst (sort_by_time w) ≡ some severity
    → Summarises (event_of w first_seen last_seen severity) (sort_by_time w)
event_of-Summarises w first_seen last_seen severity f l s =
    let (ordered, starts, before_end, ends) = sorted_times first_seen last_seen w f l in
    let (no_worse, as_bad) = worst_lem severity (sort_by_time w) s in
    record {
      listed = refl;
      counted = refl;
      ordered = ordered;
      starts = starts;
      before_end = before_end;
      ends = ends;
      no_worse = no_worse;
      as_bad = as_bad;
    }

pub incident_of-Summarises :
    (w : List Observation) (i : IncidentEvent)
    → incident_of (sort_by_time w) ≡ some i
    → Summarises i (sort_by_time w)
unfolding incident_of
incident_of-Summarises w i h = elim (Option-cases (first_time (sort_by_time w))) [
  | inl nothing ↦ absurd (ground arith)
  | inr (start, f) ↦ elim (Option-cases (last_time (sort_by_time w))) [
    | inl nothing ↦ absurd (ground arith)
    | inr (end, l) ↦
        let (severity, s) = nonempty_worst (sort_by_time w) start f in
        let same : event_of w start end severity ≡ i =
          some-injective (event_of w start end severity) i (rw (f, l, s) at h) in
        subst (λ j. Summarises j (sort_by_time w)) same
          (event_of-Summarises w start end severity f l s)
  ]
]
