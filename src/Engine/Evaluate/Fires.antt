-- ===== src/Engine/Evaluate/Fires.antt =====
-- Rules of crates/engine/src/eval.rs that fire.
use mathlib.Core.Option.{some-injective}
use cyber_sentinel_ids_ips.Prelude.{
  ℕ, ◌≡◌, sym, ap, ◌∙◌, true, not, Option, some, List, [], ◌∷◌, ◌++◌, length, min, drop,
  if◌then◌else◌, arith, Bool-cases, inl, inr, append_assoc, append-nil,
}
use cyber_sentinel_ids_ips.Rules.Options.{
  FlowBitsOp, set_bit, unset_bit, toggle_bit, is_set_bit, is_not_set_bit, no_alert, dsize_matches,
}
use cyber_sentinel_ids_ips.Engine.Vars.{header_matches}
use cyber_sentinel_ids_ips.Engine.Eval.{
  buffer_of, MatchInput, FlowBits, is_set, cursor_of, match_content, apply_byte_jump,
  match_byte_test,
}
use cyber_sentinel_ids_ips.Engine.Evaluate.{
  CompiledOption, content_option, pcre_option, flow_option, flow_bits_option, byte_test_option,
  byte_jump_option, dsize_option, normalized_option, CompiledRule, Progress, step, steps, step_bits,
  evaluate, fresh_progress, settle_pcre,
}
use cyber_sentinel_ids_ips.Engine.Evaluate.Holds.{Stays, Holds, AllHold, effect_of, effects_of}
use cyber_sentinel_ids_ips.Engine.Evaluate.Conditions.{
  bind-some, when-some, match_flow-FlowHolds, same_place, moved_place, content-ContentHolds,
  settle_pcre-PcreHolds, tested, jumps_inside,
}

-- What a step that goes on leaves.
record Steps {Regex : Type 0} (search : Regex → List ℕ → Option ℕ) (input : MatchInput)
    (bits : FlowBits) (option : CompiledOption Regex) (p q : Progress) : Type 0 where
  holds : Holds search input bits option p q
  effects : q.side_effects ≡ p.side_effects ++ effect_of option

quiet : (p q : Progress) → q.side_effects ≡ p.side_effects → q.side_effects ≡ p.side_effects ++ []
quiet p q e = e ∙ sym (append-nil p.side_effects)

effects-some : (p q : Progress) → some p ≡ some q → q.side_effects ≡ p.side_effects
effects-some p q h = ap (λ (r : Progress). r.side_effects) (sym (some-injective p q h))

-- A condition that holds without a trace.
abbrev unchanged : (p q : Progress) → q ≡ p → q.side_effects ≡ p.side_effects ++ []
unchanged p q e = quiet p q (ap (λ (r : Progress). r.side_effects) e)

-- An effect that is kept for later.
asks :
    (p q : Progress) (op : FlowBitsOp)
    → some (record p { side_effects = p.side_effects ++ (op ∷ []) }) ≡ some q
    → Stays p q × (q.side_effects ≡ p.side_effects ++ (op ∷ []))
asks p q op h =
    let e = sym (some-injective (record p { side_effects = p.side_effects ++ (op ∷ []) }) q h) in
    (
      (ap (λ (r : Progress). r.cursors) e, ap (λ (r : Progress). r.current) e),
      ap (λ (r : Progress). r.side_effects) e,
    )

module _ {Regex : Type 0} (search : Regex → List ℕ → Option ℕ) (input : MatchInput)
    (bits : FlowBits) where
  step_bits-Steps :
      (op : FlowBitsOp) (p q : Progress)
      → step_bits op bits p ≡ some q
      → Steps search input bits (flow_bits_option op) p q
  unfolding step_bits
  step_bits-Steps (is_set_bit name) p q h =
      let (there, same) = when-some (is_set bits name) p q h in
      record { holds = (there, same_place p q same); effects = unchanged p q same }
  step_bits-Steps (is_not_set_bit name) p q h =
      let (there, same) = when-some (not (is_set bits name)) p q h in
      record { holds = (ground arith, same_place p q same); effects = unchanged p q same }
  step_bits-Steps (set_bit name) p q h =
      let (stays, one) = asks p q (set_bit name) h in record { holds = (tt, stays); effects = one }
  step_bits-Steps (unset_bit name) p q h =
      let (stays, one) = asks p q (unset_bit name) h in
      record { holds = (tt, stays); effects = one }
  step_bits-Steps (toggle_bit name) p q h =
      let (stays, one) = asks p q (toggle_bit name) h in
      record { holds = (tt, stays); effects = one }
  step_bits-Steps no_alert p q h =
      let (stays, one) = asks p q no_alert h in record { holds = (tt, stays); effects = one }

  step-Steps :
      (option : CompiledOption Regex) (p q : Progress)
      → step search input bits option p ≡ some q
      → Steps search input bits option p q
  unfolding step
  step-Steps (content_option content) p q h =
      let (haystack, there, moves) = bind-some (buffer_of input.buffers content.buffer) _ q h in
      let cursor = cursor_of p.cursors content.buffer in
      let (moved, matches, same) = bind-some (match_content content haystack cursor) _ q moves in
      record {
        holds = (
          haystack,
          there,
          moved,
          moved_place p q content.buffer moved same,
          content-ContentHolds content haystack cursor moved matches,
        );
        effects = quiet p q (effects-some _ q same);
      }
  step-Steps (pcre_option matcher buffer negated relative) p q h =
      let (haystack, there, moves) = bind-some (buffer_of input.buffers buffer) _ q h in
      let cursor = cursor_of p.cursors buffer in
      let start = if relative then min cursor (length haystack) else 0 in
      let o = search matcher (drop start haystack) in
      let (moved, settles, same) = bind-some (settle_pcre negated cursor start o) _ q moves in
      record {
        holds = (
          haystack,
          there,
          moved,
          moved_place p q buffer moved same,
          settle_pcre-PcreHolds negated cursor start o moved settles,
        );
        effects = quiet p q (effects-some _ q same);
      }
  step-Steps (flow_option flow) p q h =
      let (matches, same) = when-some _ p q h in
      record {
        holds = (match_flow-FlowHolds flow input matches, same_place p q same);
        effects = unchanged p q same;
      }
  step-Steps (flow_bits_option op) p q h = step_bits-Steps op p q h
  step-Steps (byte_test_option test) p q h =
      let (haystack, there, tests) = bind-some (buffer_of input.buffers p.current) _ q h in
      let cursor = cursor_of p.cursors p.current in
      let (passes, same) = when-some (match_byte_test test haystack cursor) p q tests in
      record {
        holds = (haystack, there, tested test haystack cursor passes, same_place p q same);
        effects = unchanged p q same;
      }
  step-Steps (byte_jump_option jump) p q h =
      let (haystack, there, moves) = bind-some (buffer_of input.buffers p.current) _ q h in
      let cursor = cursor_of p.cursors p.current in
      let (moved, jumps, same) = bind-some (apply_byte_jump jump haystack cursor) _ q moves in
      record {
        holds = (
          haystack,
          there,
          moved,
          moved_place p q p.current moved same,
          jumps,
          jumps_inside jump haystack cursor moved jumps,
        );
        effects = quiet p q (effects-some _ q same);
      }
  step-Steps (dsize_option dsize) p q h =
      let (haystack, there, tests) = bind-some (buffer_of input.buffers p.current) _ q h in
      let (passes, same) = when-some (dsize_matches dsize (length haystack)) p q tests in
      record {
        holds = (haystack, there, passes, same_place p q same);
        effects = unchanged p q same;
      }
  step-Steps (normalized_option condition) p q h =
      let (matches, same) = when-some _ p q h in
      record { holds = (matches, same_place p q same); effects = unchanged p q same }

  steps-AllHold :
      (options : List (CompiledOption Regex)) (p q : Progress)
      → steps search input bits options p ≡ some q
      → AllHold search input bits options p
        × (q.side_effects ≡ p.side_effects ++ effects_of options)
  unfolding steps effects_of
  steps-AllHold [] p q h = (tt, quiet p q (effects-some p q h))
  steps-AllHold (option ∷ options) p q h =
      let (next, first, rest) = bind-some (step search input bits option p) _ q h in
      let s : Steps search input bits option p next = step-Steps option p next first in
      let (hold, effects) = steps-AllHold options next q rest in
      (
        (next, s.holds, hold),
        effects
            ∙ ap (λ e. e ++ effects_of options) s.effects
            ∙ append_assoc p.side_effects (effect_of option) (effects_of options),
      )

-- Evaluation fails closed. Whatever the regular expressions find, a rule that fires has a header
-- that selects the packet, and each of its options holds in turn, from where the one before it left
-- the cursors: a content pattern stands first at a place of its window, with the cursor behind it, or
-- nowhere in its window if it is negated; an expression finds something from its start, or nothing if
-- it is negated; the number of a byte test is there and compares as asked; a jump lands in its buffer;
-- the buffer has the size asked for; the direction and state of the connection are those asked for;
-- every bit that must be set is and every bit that must not be is not; and the normaliser found what
-- is asked for. The side effects are those of its options, each once, in the order written, and no
-- condition among them.
pub evaluate-fires :
    {Regex : Type 0} (search : Regex → List ℕ → Option ℕ) (rule : CompiledRule Regex)
    (input : MatchInput) (bits : FlowBits) (effects : List FlowBitsOp)
    → evaluate search rule input bits ≡ some effects
    → (header_matches rule.header input.tuple ≡ true)
      × AllHold search input bits rule.options fresh_progress
      × (effects ≡ effects_of rule.options)
unfolding evaluate
evaluate-fires search rule input bits effects h =
    elim (Bool-cases (header_matches rule.header input.tuple)) [
      | inr other ↦ absurd (cc (rw other at h))
      | inl selects ↦
          let (p, runs, same) =
            bind-some (steps search input bits rule.options fresh_progress) _ effects
              (rw selects at h) in
          let (hold, all) = steps-AllHold search input bits rule.options fresh_progress p runs in
          (selects, hold, sym (some-injective p.side_effects effects same) ∙ all)
    ]
