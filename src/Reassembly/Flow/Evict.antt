-- ===== src/Reassembly/Flow/Evict.antt =====
-- Evictions of the flow table of crates/reassembly/src/flow.rs.
use mathlib.Core.Path.{subst}
use mathlib.Core.Option.{some-injective}
use cyber_sentinel_ids_ips.Prelude.{
  ℕ, suc, ◌-◌, ◌/◌, ◌≤◌, ◌<◌, ◌≡◌, refl, sym, ap, ◌∙◌, max, true, false, none, some, List, [], ◌∷◌,
  length, take, drop, arith, Bool-cases, inl, inr, Every, Every-take, Every-drop, Every-map,
  Every-both,
}
use cyber_sentinel_ids_ips.Common.Map.{
  Map, get, remove, IsMap, present, length-remove, length-remove-some,
}
use cyber_sentinel_ids_ips.Reassembly.Flow.{FlowKey, table_key, Flow, Limits, evicted}
use cyber_sentinel_ids_ips.Reassembly.Flow.Table.{
  FlowTable, within_limits, by_age, keys_of, evict_batch, make_room, eviction_batch_fraction,
}
use cyber_sentinel_ids_ips.Reassembly.Flow.Ending.{
  IsBooked, Settles, Settles-refl, Settles-trans, end_all-Settles, has_key, remove_all,
  get-remove_all,
}
use cyber_sentinel_ids_ips.Reassembly.Flow.Sweep.{sweep-Settles}
use cyber_sentinel_ids_ips.Reassembly.Flow.Ages.{
  IsEntry, entries-Every, by_age-Every, length-by_age, by_age-IsSorted, IsSorted-split,
  has_key-by_age, has_key-split, Every-key,
}

length-remove_all :
    (keys : List FlowKey) (flows : Map FlowKey Flow) → length (remove_all keys flows) ≤ length flows
unfolding remove_all
length-remove_all [] flows = omega arith
length-remove_all (key ∷ keys) flows =
    omega (arith, length-remove_all keys (remove key flows), length-remove key flows)

-- An age with a key is that of the key's flow.
abbrev IsAged : Map FlowKey Flow → ℕ × FlowKey → Type 0
IsAged flows e = (f : Flow) × (get e.1 flows ≡ some f) × (f.last_seen ≡ e.0)

ages-Every : (flows : Map FlowKey Flow) → IsMap flows → Every (IsAged flows) (by_age flows)
ages-Every flows u = by_age-Every (IsAged flows) flows (
    Every-map (IsEntry flows) (λ (e : FlowKey × Flow). IsAged flows (e.1.last_seen, e.0)) flows
      (λ e h. (e.1, h, refl)) (entries-Every flows u))

removed_key :
    (keys : List FlowKey) (k : FlowKey) (flows : Map FlowKey Flow) (f : Flow)
    → get k flows ≡ some f
    → get k (remove_all keys flows) ≡ none
    → has_key k keys ≡ true
removed_key keys k flows f there gone = ground (arith, get-remove_all keys k flows)

kept_key :
    (keys : List FlowKey) (k : FlowKey) (flows : Map FlowKey Flow) (g : Flow)
    → get k (remove_all keys flows) ≡ some g
    → (has_key k keys ≡ false) × (get k flows ≡ some g)
kept_key keys k flows g stays = elim (Bool-cases (has_key k keys)) [
  | inl listed ↦ absurd (ground (arith, get-remove_all keys k flows))
  | inr other ↦ (other, ground (arith, get-remove_all keys k flows))
]

oldest_removed :
    (n : ℕ) (flows : Map FlowKey Flow) (k j : FlowKey) (f g : Flow)
    → IsMap flows
    → get k flows ≡ some f
    → get k (remove_all (keys_of (take n (by_age flows))) flows) ≡ none
    → get j (remove_all (keys_of (take n (by_age flows))) flows) ≡ some g
    → f.last_seen ≤ g.last_seen
oldest_removed n flows k j f g u there gone stays =
    let ages : List (ℕ × FlowKey) = by_age flows in
    let batch : List FlowKey = keys_of (take n ages) in
    let (unlisted, present) = kept_key batch j flows g stays in
    let aged = ages-Every flows u in
    let split = IsSorted-split n ages (by_age-IsSorted flows) in
    let listed : has_key k batch ≡ true = removed_key batch k flows f there gone in
    let later : has_key j (keys_of (drop n ages)) ≡ true =
      has_key-split j n ages (has_key-by_age j g flows present) unlisted in
    let (a, ((f', there', age), below)) =
      Every-key (λ e. IsAged flows e × Every (λ (x : ℕ × FlowKey). e.0 ≤ x.0) (drop n ages)) k
        (take n ages) (Every-both _ _ (take n ages) (Every-take (IsAged flows) n ages aged) split)
        listed in
    let (b, ((g', present', old), above)) =
      Every-key (λ e. IsAged flows e × (a ≤ e.0)) j (drop n ages)
        (Every-both _ _ (drop n ages) (Every-drop (IsAged flows) n ages aged) below) later in
    let same : f' ≡ f = some-injective f' f (sym there' ∙ there) in
    let same' : g' ≡ g = some-injective g' g (sym present' ∙ present) in
    omega (
      arith,
      ap (λ (h : Flow). h.last_seen) same,
      ap (λ (h : Flow). h.last_seen) same',
      age,
      old,
      above,
    )

aged_shortens :
    (b : ℕ) (ages : List (ℕ × FlowKey)) (flows : Map FlowKey Flow)
    → IsMap flows
    → 1 ≤ length ages
    → Every (IsAged flows) ages
    → length (remove_all (keys_of (take (suc b) ages)) flows) < length flows
unfolding keys_of remove_all
aged_shortens b [] flows u h aged = absurd (omega arith)
aged_shortens b ((age, k) ∷ ages) flows u h ((f, there, _), aged) = omega (
  arith,
  length-remove-some k f flows u there,
  length-remove_all (keys_of (take b ages)) (remove k flows),
)

-- What an eviction does to a table.
pub record Evicts (t t' : FlowTable) : Type 0 where
  pub settles : Settles t t'
  pub oldest :
      (k j : FlowKey) (f g : Flow)
      → get k t.flows ≡ some f
      → get k t'.flows ≡ none
      → get j t'.flows ≡ some g
      → f.last_seen ≤ g.last_seen
  pub shorter : 1 ≤ length t.flows → length t'.flows < length t.flows

-- An eviction never panics. It ends at least one flow where there is one, and no flow that it ends
-- was seen later than a flow that it leaves. The books stay in order.
pub evict_batch-Evicts :
    (t : FlowTable) → IsBooked t → (t' : FlowTable) × (evict_batch t ≡ some t') × Evicts t t'
unfolding evict_batch
evict_batch-Evicts t b =
    let batch : ℕ = max (t.limits.max_flows / eviction_batch_fraction) 1 in
    let (t', runs, s, flows) =
      end_all-Settles evicted (keys_of (take batch (by_age t.flows))) t refl b in
    let some_batch : suc (batch - 1) ≡ batch = omega arith in
    (
      t',
      runs,
      record {
        settles = s;
        oldest = λ k j f g there gone stays.
            oldest_removed batch t.flows k j f g b.is_map there (rw flows at gone)
              (rw flows at stays);
        shorter = λ h.
            let some_age : 1 ≤ length (by_age t.flows) = omega (arith, length-by_age t.flows) in
            let less =
              aged_shortens (batch - 1) (by_age t.flows) t.flows b.is_map some_age
                (ages-Every t.flows b.is_map) in
            let taken =
              subst
                (λ n.
                  length (remove_all (keys_of (take n (by_age t.flows))) t.flows) < length t.flows)
                some_batch less in
            subst (λ m. length m < length t.flows) (sym flows) taken;
      },
    )

pub make_room-Settles :
    (t : FlowTable) (now : ℕ)
    → IsBooked t
    → 1 ≤ t.limits.max_flows
    → length t.flows ≤ t.limits.max_flows
    → (t' : FlowTable) × (make_room t now ≡ some t')
      × Settles t t'
      × (length t'.flows < t.limits.max_flows)
unfolding make_room
make_room-Settles t now b some_flows cap = elim (Bool-cases (within_limits t)) [
  | inl room ↦ (t, rw room refl, Settles-refl t b, ground arith)
  | inr full ↦
      let (u, swept, s, _) = sweep-Settles t now b in
      let caps : u.limits ≡ t.limits = s.leaves.same_limits in
      elim (Bool-cases (within_limits u)) [
        | inl room ↦ (
          u,
          rw (full, swept, room) refl,
          s,
          ground (arith, ap (λ (l : Limits). l.max_flows) caps),
        )
        | inr still ↦
            let (v, evicts, e) = evict_batch-Evicts u s.booked in
            (
              v,
              rw (full, swept, still) evicts,
              Settles-trans t u v s e.settles,
              ground (arith, s.leaves.fewer, e.shorter, e.settles.leaves.fewer),
            )
      ]
]
