-- ===== src/Correlation/Quiet.antt =====
-- The quiet period after an incident in crates/correlation/src/lib.rs.
use mathlib.Core.Path.{subst}
use mathlib.Core.Option.{some-injective}
use cyber_sentinel_ids_ips.Prelude.{
  ℕ, ◌≤◌, ◌≡◌, ◌⊎◌, refl, sym, ap, ◌∙◌, true, false, Option, none, some, List, [], ◌∷◌, String, all,
  arith, Bool-cases, inl, inr,
}
use cyber_sentinel_ids_ips.Common.Map.{
  Map, get, insert, IsMap, kept, get-insert, get-retain_map, retain_map, retain_map-IsMap,
  insert-IsMap,
}
use cyber_sentinel_ids_ips.Correlation.{
  Observation, Correlator, IncidentEvent, string_key, within, try_correlate, observe, sort_by_time,
  incident_of, raise, correlate_in, cooling,
}
use cyber_sentinel_ids_ips.Correlation.Window.{
  host_window, one_too_many, filed, refused, observe-refused, observe-filed, make_room_lem,
}
use cyber_sentinel_ids_ips.Correlation.Bounds.{
  IsBounded, IsWindow, host_window-IsWindow, observe_all, Takes, observe-Takes,
}
use cyber_sentinel_ids_ips.Correlation.Incidents.{observe-Backed}

-- The host's last incident was at `at`.
pub record Quiet (c : Correlator) (name : String) (at : ℕ) : Type 0 where
  pub bounded : IsBounded c
  pub noted_map : IsMap c.last_incident
  pub noted : get name c.last_incident ≡ some at

-- What is noted of the last incidents when an observation comes.
abbrev noted_at : Correlator → Observation → Map String ℕ
noted_at c o = retain_map (λ _ when. within when o.timestamp c.settings.cooldown) c.last_incident

raise_notes :
    (c : Correlator) (o : Observation) (i : Option IncidentEvent)
    → ((raise c o i).0.last_incident ≡ c.last_incident)
      ⊎ ((raise c o i).0.last_incident ≡ insert o.host o.timestamp c.last_incident)
raise_notes c o none = inl refl
raise_notes c o (some i) = inr refl

correlate_in_notes :
    (c : Correlator) (o : Observation) (w : Option (List Observation))
    → ((correlate_in c o w).0.last_incident ≡ c.last_incident)
      ⊎ ((correlate_in c o w).0.last_incident ≡ insert o.host o.timestamp c.last_incident)
correlate_in_notes c o none = inl refl
correlate_in_notes c o (some w) = ground (arith, raise_notes c o (incident_of (sort_by_time w)))

-- While its host is cooling, an attempt changes nothing; otherwise it notes at most its own host.
try_correlate_notes :
    (c : Correlator) (o : Observation)
    → (try_correlate c o ≡ (c, none))
      ⊎ ((cooling (get o.host c.last_incident) o.timestamp c.settings.cooldown ≡ false)
          × (((try_correlate c o).0.last_incident ≡ c.last_incident)
              ⊎ ((try_correlate c o).0.last_incident ≡ insert o.host o.timestamp c.last_incident)))
unfolding try_correlate
try_correlate_notes c o =
    elim (Bool-cases (cooling (get o.host c.last_incident) o.timestamp c.settings.cooldown)) [
      | inl cold ↦ inl (rw cold refl)
      | inr warm ↦ inr (warm, rw warm (correlate_in_notes c o (get o.host c.windows)))
    ]

noted_at-some :
    (c : Correlator) (o : Observation) (name : String) (at : ℕ)
    → Quiet c name at
    → within at o.timestamp c.settings.cooldown ≡ true
    → get name (noted_at c o) ≡ some at
noted_at-some c o name at q near =
    get-retain_map (λ _ when. within when o.timestamp c.settings.cooldown) name c.last_incident
      q.noted_map
    ∙ rw (q.noted, near) refl

-- What an observation does to the notes: it keeps those of the cooldown, and adds at most one for its
-- own host, which it does only where that host is not cooling.
Notes : (c c' : Correlator) → Observation → Option IncidentEvent → Type 0
Notes c c' o i =
    ((c'.last_incident ≡ noted_at c o) × (i ≡ none))
    ⊎ ((cooling (get o.host (noted_at c o)) o.timestamp c.settings.cooldown ≡ false)
        × ((c'.last_incident ≡ noted_at c o)
            ⊎ (c'.last_incident ≡ insert o.host o.timestamp (noted_at c o))))

tried-Notes :
    (c : Correlator) (o : Observation) (kept : List Observation) (lost : ℕ)
    → Notes c (try_correlate (filed c o kept lost) o).0 o (try_correlate (filed c o kept lost) o).1
unfolding Notes
tried-Notes c o kept lost = elim (try_correlate_notes (filed c o kept lost) o) [
  | inl nothing ↦ rw nothing (inl (refl, refl))
  | inr warm ↦ inr warm
]

observe-Notes :
    (c c' : Correlator) (o : Observation) (i : Option IncidentEvent)
    → 1 ≤ c.settings.max_per_host
    → IsBounded c
    → observe c o ≡ some (c', i)
    → Notes c c' o i
unfolding Notes
observe-Notes c c' o i h v runs = elim (Bool-cases (one_too_many c o)) [
  | inl over ↦
      let same : (refused c o, let e : Option IncidentEvent = none in e) ≡ (c', i) =
        some-injective _ _ (sym (observe-refused c o over) ∙ runs) in
      inl (
        ap (λ (q : Correlator × Option IncidentEvent). q.0.last_incident) (sym same),
        ap (λ (q : Correlator × Option IncidentEvent). q.1) (sym same),
      )
  | inr room ↦
      let w : IsWindow c.settings o.host (host_window c o) = host_window-IsWindow c o v in
      let (kept, lost, e, less, split) = make_room_lem c.settings (host_window c o) h w.capped in
      subst (λ (q : Correlator × Option IncidentEvent). Notes c q.0 o q.1)
        (some-injective _ _ (sym (observe-filed c o kept lost room e) ∙ runs))
        (tried-Notes c o kept lost)
]

inserted_at-some :
    (name : String) (at : ℕ) (o : Observation) (m : Map String ℕ)
    → ¬ (o.host ≡ name)
    → get name m ≡ some at
    → get name (insert o.host o.timestamp m) ≡ some at
inserted_at-some name at o m other h =
    get-insert o.host name o.timestamp m ∙ elim (Bool-cases (string_key.key_eq o.host name)) [
      | inl same ↦ absurd (other ((string_key.key_eq_iff o.host name).0 same))
      | inr apart ↦ rw apart h
    ]

notes_kept :
    (c' : Correlator) (o : Observation) (m : Map String ℕ) (name : String) (at : ℕ)
    → ¬ (o.host ≡ name)
    → IsMap m
    → get name m ≡ some at
    → (c'.last_incident ≡ m) ⊎ (c'.last_incident ≡ insert o.host o.timestamp m)
    → IsMap c'.last_incident × (get name c'.last_incident ≡ some at)
notes_kept c' o m name at other u h (inl same) = (subst IsMap (sym same) u, rw same h)
notes_kept c' o m name at other u h (inr one) = (
  subst IsMap (sym one) (insert-IsMap o.host o.timestamp m u),
  rw one (inserted_at-some name at o m other h),
)

Notes-Quiet :
    (c c' : Correlator) (o : Observation) (i : Option IncidentEvent) (name : String) (at : ℕ)
    → Quiet c name at
    → within at o.timestamp c.settings.cooldown ≡ true
    → IsBounded c'
    → Notes c c' o i
    → Quiet c' name at × (o.host ≡ name → i ≡ none)
unfolding Notes
Notes-Quiet c c' o i name at q near v (inl (same, quiet)) = (
  record {
    bounded = v;
    noted_map = subst IsMap (sym same) (retain_map-IsMap _ c.last_incident q.noted_map);
    noted = rw same (noted_at-some c o name at q near);
  },
  λ _. quiet,
)
Notes-Quiet c c' o i name at q near v (inr (warm, notes)) =
    let other : ¬ (o.host ≡ name) =
      λ e. absurd (ground (arith, near, rw (e, noted_at-some c o name at q near) at warm)) in
    let (u, noted) =
      notes_kept c' o (noted_at c o) name at other (retain_map-IsMap _ c.last_incident q.noted_map)
        (noted_at-some c o name at q near) notes in
    (record { bounded = v; noted_map = u; noted = noted }, λ e. absurd (other e))

-- An observation that is taken in the quiet period.
observe-Quiet :
    (c : Correlator) (o : Observation) (name : String) (at : ℕ)
    → 1 ≤ c.settings.max_per_host
    → Quiet c name at
    → within at o.timestamp c.settings.cooldown ≡ true
    → (t : Takes c o) × Quiet t.correlator name at × (o.host ≡ name → t.event ≡ none)
observe-Quiet c o name at h q near =
    let t : Takes c o = observe-Takes c o h q.bounded in
    let (quiet, silent) =
      Notes-Quiet c t.correlator o t.event name at q near t.bounded
        (observe-Notes c t.correlator o t.event h q.bounded t.runs) in
    (t, quiet, silent)

observe_all-Quiet :
    (c : Correlator) (os : List Observation) (name : String) (at cooldown : ℕ)
    → 1 ≤ c.settings.max_per_host
    → Quiet c name at
    → c.settings.cooldown ≡ cooldown
    → all (λ e. within at e.timestamp cooldown) os ≡ true
    → (c' : Correlator) × (observe_all c os ≡ some c')
      × (c'.settings ≡ c.settings)
      × Quiet c' name at
unfolding observe_all
observe_all-Quiet c [] name at cooldown h q same near = (c, refl, refl, q)
observe_all-Quiet c (o ∷ os) name at cooldown h q same near =
    let (t, quiet, _) = observe-Quiet c o name at h q (rw same (ground arith)) in
    let (c', runs, kept, q') =
      observe_all-Quiet t.correlator os name at cooldown (rw t.settings h) quiet
        (rw t.settings same) (ground arith) in
    (c', rw t.runs runs, kept ∙ t.settings, q')

Notes-IsMap :
    (c c' : Correlator) (o : Observation) (i : Option IncidentEvent)
    → IsMap c.last_incident
    → Notes c c' o i
    → IsMap c'.last_incident
unfolding Notes
Notes-IsMap c c' o i u (inl (same, _)) =
    subst IsMap (sym same) (retain_map-IsMap _ c.last_incident u)
Notes-IsMap c c' o i u (inr (warm, inl same)) =
    subst IsMap (sym same) (retain_map-IsMap _ c.last_incident u)
Notes-IsMap c c' o i u (inr (warm, inr one)) =
    subst IsMap (sym one)
      (insert-IsMap o.host o.timestamp (noted_at c o) (retain_map-IsMap _ c.last_incident u))

incident-Quiet :
    (c c' : Correlator) (o : Observation) (i : IncidentEvent)
    → 1 ≤ c.settings.max_per_host
    → IsBounded c
    → IsMap c.last_incident
    → observe c o ≡ some (c', some i)
    → Quiet c' o.host o.timestamp × (c'.settings ≡ c.settings)
incident-Quiet c c' o i h v u runs =
    let t : Takes c o = observe-Takes c o h v in
    let same : t.correlator ≡ c' =
      ap (λ (q : Correlator × Option IncidentEvent). q.0)
        (some-injective _ _ (sym t.runs ∙ runs)) in
    (
      record {
        bounded = subst IsBounded same t.bounded;
        noted_map = Notes-IsMap c c' o (some i) u (observe-Notes c c' o (some i) h v runs);
        noted = (observe-Backed c c' o i h v runs).noted;
      },
      subst (λ (q : Correlator). q.settings ≡ c.settings) same t.settings,
    )

-- After an incident of a host, whatever is observed of any host within the cooldown of that incident,
-- before or after it in time, another observation of that host within the cooldown is taken without a
-- second incident.
pub observe-quiet :
    (c c' : Correlator) (o e : Observation) (i : IncidentEvent) (os : List Observation)
    → 1 ≤ c.settings.max_per_host
    → IsBounded c
    → IsMap c.last_incident
    → observe c o ≡ some (c', some i)
    → all (λ e. within o.timestamp e.timestamp c.settings.cooldown) os ≡ true
    → within o.timestamp e.timestamp c.settings.cooldown ≡ true
    → e.host ≡ o.host
    → (c₁ c₂ : Correlator) × (observe_all c' os ≡ some c₁) × (observe c₁ e ≡ some (c₂, none))
observe-quiet c c' o e i os h v u runs near last same =
    let (q, s) = incident-Quiet c c' o i h v u runs in
    let (c₁, all_run, s₁, q₁) =
      observe_all-Quiet c' os o.host o.timestamp c.settings.cooldown (rw s h) q (rw s refl) near in
    let (t, _, silent) =
      observe-Quiet c₁ e o.host o.timestamp (rw (s₁, s) h) q₁ (rw (s₁, s) last) in
    (c₁, t.correlator, all_run, t.runs ∙ rw (silent same) refl)
