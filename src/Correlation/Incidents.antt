-- ===== src/Correlation/Incidents.antt =====
-- What stands behind an incident.
use mathlib.Core.Path.{subst}
use mathlib.Core.List.{Perm}
use mathlib.Core.Option.{some-injective}
use cyber_sentinel_ids_ips.Prelude.{
  ℕ, ◌≤◌, ◌≡◌, refl, sym, ◌∙◌, true, false, Option, none, some, List, [], ◌∷◌, ◌++◌, all, any,
  arith, Bool-cases, Option-cases, inl, inr, all-retain, any-append_right,
}
use cyber_sentinel_ids_ips.Common.Map.{get, insert, kept, get-insert}
use cyber_sentinel_ids_ips.Correlation.{
  Observation, Domain, network, host, Correlator, IncidentEvent, string_key, within, try_correlate,
  observe, same_domain, opposite, sort_by_time, incident_of, raise, cooling,
}
use cyber_sentinel_ids_ips.Correlation.Order.{sort_by_time-Perm, all-sort_by_time, any-sort_by_time}
use cyber_sentinel_ids_ips.Correlation.Window.{
  try_correlate_keeps, trimmed, host_window, one_too_many, filed, observe-refused, observe-filed,
  make_room_lem,
}
use cyber_sentinel_ids_ips.Correlation.Bounds.{
  is_of, IsBounded, IsWindow, get-trimmed, host_window-IsWindow, all-appended, is_of_refl,
}
use cyber_sentinel_ids_ips.Correlation.Summary.{Summarises, incident_of-Summarises}

-- An incident that an attempt raises is that of the host's window, which has an observation of the
-- other domain, and its host was not cooling.
pub record Raised (c c' : Correlator) (o : Observation) (w : List Observation) (i : IncidentEvent)
    : Type 0 where
  pub warm : cooling (get o.host c.last_incident) o.timestamp c.settings.cooldown ≡ false
  pub crosses : any (λ e. same_domain e.domain (opposite o.domain)) w ≡ true
  pub event : incident_of (sort_by_time w) ≡ some i
  pub noted : c'.last_incident ≡ insert o.host o.timestamp c.last_incident

raise-Raised :
    (c c' : Correlator) (o : Observation) (w : List Observation) (i : IncidentEvent)
    (j : Option IncidentEvent)
    → raise c o j ≡ (c', some i)
    → (j ≡ some i) × (c'.last_incident ≡ insert o.host o.timestamp c.last_incident)
raise-Raised c c' o w i none h = absurd (ground arith)
raise-Raised c c' o w i (some k) h = (ground arith, ground arith)

pub try_correlate-Raised :
    (c c' : Correlator) (o : Observation) (w : List Observation) (i : IncidentEvent)
    → get o.host c.windows ≡ some w
    → try_correlate c o ≡ (c', some i)
    → Raised c c' o w i
unfolding try_correlate
try_correlate-Raised c c' o w i e h =
    elim (Bool-cases (cooling (get o.host c.last_incident) o.timestamp c.settings.cooldown)) [
      | inl cold ↦ absurd (ground arith)
      | inr warm ↦ elim (Bool-cases (any (λ e. same_domain e.domain (opposite o.domain)) w)) [
        | inl crosses ↦
            let (event, noted) =
              raise-Raised c c' o w i (incident_of (sort_by_time w)) (rw (warm, e, crosses) at h) in
            record { warm = warm; crosses = crosses; event = event; noted = noted }
        | inr not_crosses ↦ absurd (ground (arith, rw (warm, e, not_crosses) at h))
      ]
    ]

pub record Backed (c c' : Correlator) (o : Observation) (i : IncidentEvent) : Type 0 where
  pub earlier : List Observation
  pub evidence : List Observation
  pub filed_last : get o.host c'.windows ≡ some (earlier ++ (o ∷ []))
  pub noted : get o.host c'.last_incident ≡ some o.timestamp
  pub held : Perm evidence (earlier ++ (o ∷ []))
  pub says : Summarises i evidence
  pub near : all (λ e. within e.timestamp o.timestamp c.settings.window) evidence ≡ true
  pub mine : all (is_of o.host) evidence ≡ true
  pub both :
      (any (λ e. same_domain e.domain network) evidence ≡ true)
      × (any (λ e. same_domain e.domain host) evidence ≡ true)

host_window-near :
    (c : Correlator) (o : Observation)
    → IsBounded c
    → all (λ e. within e.timestamp o.timestamp c.settings.window) (host_window c o) ≡ true
host_window-near c o v = elim (Option-cases (get o.host (trimmed c o))) [
  | inl nothing ↦ rw nothing refl
  | inr (left, there) ↦
      let (os, before, e) = get-trimmed c o o.host left v there in
      rw (there, e) (all-retain (λ e. within e.timestamp o.timestamp c.settings.window) os)
]

both_domains :
    (d : Domain) (os : List Observation)
    → any (λ e. same_domain e.domain (opposite d)) os ≡ true
    → any (λ e. same_domain e.domain d) os ≡ true
    → (any (λ e. same_domain e.domain network) os ≡ true)
      × (any (λ e. same_domain e.domain host) os ≡ true)
both_domains network os h k = (k, h)
both_domains host os h k = (h, k)

same_domain_refl : (d : Domain) → same_domain d d ≡ true
same_domain_refl network = refl
same_domain_refl host = refl

pub get-filed :
    (c : Correlator) (o : Observation) (kept : List Observation) (lost : ℕ)
    → get o.host (filed c o kept lost).windows ≡ some (kept ++ (o ∷ []))
get-filed c o kept lost =
    get-insert o.host o.host (kept ++ (o ∷ [])) (trimmed c o) ∙ rw (is_of_refl o) refl

-- An incident is backed by evidence: the observations that its host's window holds, the one just
-- offered the last to come in. All are of that host and within the window of the newest, and there
-- are some of the network and some of the host. The incident lists each once in time order, counts
-- both sides, spans their times, has the worst of their severities, and is noted for the cooldown.
pub observe-Backed :
    (c c' : Correlator) (o : Observation) (i : IncidentEvent)
    → 1 ≤ c.settings.max_per_host
    → IsBounded c
    → observe c o ≡ some (c', some i)
    → Backed c c' o i
observe-Backed c c' o i h v runs = elim (Bool-cases (one_too_many c o)) [
  | inl over ↦ absurd (ground (arith, sym (observe-refused c o over) ∙ runs))
  | inr room ↦
      let w : IsWindow c.settings o.host (host_window c o) = host_window-IsWindow c o v in
      let (kept, lost, e, less, split) = make_room_lem c.settings (host_window c o) h w.capped in
      let tried : try_correlate (filed c o kept lost) o ≡ (c', some i) =
        some-injective _ _ (sym (observe-filed c o kept lost room e) ∙ runs) in
      let r : Raised (filed c o kept lost) c' o (kept ++ (o ∷ [])) i =
        try_correlate-Raised (filed c o kept lost) c' o (kept ++ (o ∷ [])) i
          (get-filed c o kept lost) tried in
      let windows : c'.windows ≡ (filed c o kept lost).windows =
        subst
          (λ (q : Correlator × Option IncidentEvent). q.0.windows ≡ (filed c o kept lost).windows)
          tried (try_correlate_keeps (filed c o kept lost) o).0 in
      let (networked, hosted) = both_domains o.domain (kept ++ (o ∷ [])) r.crosses (
        any-append_right (λ e. same_domain e.domain o.domain) kept (o ∷ [])
          (rw (any, same_domain_refl o.domain) refl)) in
      record {
        earlier = kept;
        evidence = sort_by_time (kept ++ (o ∷ []));
        filed_last = rw windows (get-filed c o kept lost);
        noted = rw r.noted (
            get-insert o.host o.host o.timestamp (filed c o kept lost).last_incident
            ∙ rw (is_of_refl o) refl);
        held = sort_by_time-Perm (kept ++ (o ∷ []));
        says = incident_of-Summarises (kept ++ (o ∷ [])) i r.event;
        near =
            all-sort_by_time (λ e. within e.timestamp o.timestamp c.settings.window)
              (kept ++ (o ∷ []))
            ∙ all-appended (λ e. within e.timestamp o.timestamp c.settings.window) o
                (host_window c o) kept (host_window-near c o v) (ground arith) split;
        mine =
            all-sort_by_time (is_of o.host) (kept ++ (o ∷ []))
            ∙ all-appended (is_of o.host) o (host_window c o) kept w.mine (is_of_refl o) split;
        both = (
          any-sort_by_time (λ e. same_domain e.domain network) (kept ++ (o ∷ [])) ∙ networked,
          any-sort_by_time (λ e. same_domain e.domain host) (kept ++ (o ∷ [])) ∙ hosted,
        );
      }
]
