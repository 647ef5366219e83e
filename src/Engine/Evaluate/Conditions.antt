-- ===== src/Engine/Evaluate/Conditions.antt =====
-- The conditions of an option in crates/engine/src/eval.rs, each against what it asks for.
use mathlib.Core.Option.{some-injective}
use cyber_sentinel_ids_ips.Prelude.{
  ℕ, ◌+◌, ◌≤◌, ◌≡◌, refl, sym, ap, ◌∙◌, Bool, true, false, ◌&&◌, Option, none, some, List, length,
  if◌then◌else◌, ◌>>=◌, arith, Bool-cases, Option-cases, inl, inr, leb,
}
use cyber_sentinel_ids_ips.Rules.Options.{ContentMatch, FlowMatch, Buffer, ByteTest, ByteJump}
use cyber_sentinel_ids_ips.Engine.Eval.{
  agrees, match_flow, MatchInput, match_content, apply_byte_jump, match_byte_test, move_cursor,
  resolve_position, read_number, jump_target,
}
use cyber_sentinel_ids_ips.Engine.Eval.Find.{MatchesContent, match_content-MatchesContent}
use cyber_sentinel_ids_ips.Engine.Evaluate.{Progress, when, settle_pcre}
use cyber_sentinel_ids_ips.Engine.Evaluate.Holds.{
  FlowHolds, Moves, Stays, ContentHolds, PcreHolds, ByteTestHolds,
}

pub when-some : (b : Bool) (p q : Progress) → when b p ≡ some q → (b ≡ true) × (q ≡ p)
when-some true p q h = (refl, some-injective q p (sym h))
when-some false p q h = absurd (cc h)

-- The value of a step that gives one.
pub bind-some {ℓ κ} :
    {A : Type ℓ} {B : Type κ} (m : Option A) (f : A → Option B) (b : B)
    → (m >>= f) ≡ some b
    → (a : A) × (m ≡ some a) × (f a ≡ some b)
bind-some none f b h = absurd (cc h)
bind-some (some a) f b h = (a, refl, h)

agreed :
    (asked : Option Bool) (actual : Bool)
    → agrees asked actual ≡ true
    → (b : Bool) → asked ≡ some b
    → actual ≡ b
agreed none actual h b e = absurd (cc e)
agreed (some true) actual h b e = h ∙ some-injective true b e
agreed (some false) true h b e = absurd (cc h)
agreed (some false) false h b e = some-injective false b e

both : (a b : Bool) → (a && b) ≡ true → (a ≡ true) × (b ≡ true)
both a b h = (ground (arith, h), ground (arith, h))

pub match_flow-FlowHolds :
    (flow : FlowMatch) (input : MatchInput) → match_flow flow input ≡ true → FlowHolds flow input
unfolding match_flow
match_flow-FlowHolds flow input h =
    let (state, direction) =
      both (agrees flow.established input.established) (agrees flow.to_server input.to_server) h in
    (
      agreed flow.established input.established state,
      agreed flow.to_server input.to_server direction,
    )

pub same_place : (p q : Progress) → q ≡ p → Stays p q
same_place p q e = (ap (λ (r : Progress). r.cursors) e, ap (λ (r : Progress). r.current) e)

pub moved_place :
    (p q : Progress) (buffer : Buffer) (moved : ℕ)
    → some (record p { cursors = move_cursor p.cursors buffer moved; current = buffer }) ≡ some q
    → Moves p q buffer moved
moved_place p q buffer moved h =
    let e = some-injective _ q h in
    (ap (λ (r : Progress). r.cursors) (sym e), ap (λ (r : Progress). r.current) (sym e))

pub content-ContentHolds :
    (content : ContentMatch) (haystack : List ℕ) (cursor moved : ℕ)
    → match_content content haystack cursor ≡ some moved
    → ContentHolds content haystack cursor moved
content-ContentHolds content haystack cursor moved h =
    let m : MatchesContent content haystack cursor =
      match_content-MatchesContent content haystack cursor in
    ((λ plain. m.found moved plain h), (λ negated. m.avoided moved negated h))

pub settle_pcre-PcreHolds :
    (negated : Bool) (cursor start : ℕ) (o : Option ℕ) (moved : ℕ)
    → settle_pcre negated cursor start o ≡ some moved
    → PcreHolds negated cursor start o moved
settle_pcre-PcreHolds true cursor start none moved h =
    ((λ k. absurd (cc k)), (λ k. (refl, sym (some-injective cursor moved h))))
settle_pcre-PcreHolds true cursor start (some end) moved h = absurd (cc h)
settle_pcre-PcreHolds false cursor start none moved h = absurd (cc h)
settle_pcre-PcreHolds false cursor start (some end) moved h =
    ((λ k. (end, refl, sym (some-injective (start + end) moved h))), (λ k. absurd (cc k)))

pub tested :
    (test : ByteTest) (haystack : List ℕ) (cursor : ℕ)
    → match_byte_test test haystack cursor ≡ true
    → ByteTestHolds test haystack cursor
unfolding match_byte_test
tested test haystack cursor h =
    elim (Option-cases (resolve_position cursor test.offset test.relative)) [
      | inl nowhere ↦ absurd (cc (rw (match_byte_test, nowhere) at h))
      | inr (place, there) ↦
          elim (Option-cases (read_number haystack place test.bytes test.endian)) [
            | inl nothing ↦ absurd (cc (rw (match_byte_test, there, nothing) at h))
            | inr (value, read) ↦
                (place, value, there, read, rw (match_byte_test, there, read) at h)
          ]
    ]

inside :
    (target moved size : ℕ)
    → (if leb target size then some target else none) ≡ some moved
    → moved ≤ size
inside target moved size h = elim (Bool-cases (leb target size)) [
  | inl fits ↦
      let e : target ≡ moved = some-injective target moved (rw fits at h) in ground (arith, e, fits)
  | inr past ↦ absurd (cc (rw past at h))
]

pub jumps_inside :
    (jump : ByteJump) (haystack : List ℕ) (cursor moved : ℕ)
    → apply_byte_jump jump haystack cursor ≡ some moved
    → moved ≤ length haystack
unfolding apply_byte_jump
jumps_inside jump haystack cursor moved h =
    let (place, _, reads) =
      bind-some (resolve_position cursor jump.offset jump.relative) _ moved h in
    let (value, _, goes) =
      bind-some (read_number haystack place jump.bytes jump.endian) _ moved reads in
    let (target, _, ends) = bind-some (jump_target jump place value) _ moved goes in
    inside target moved (length haystack) ends
