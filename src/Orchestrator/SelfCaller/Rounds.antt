-- ===== src/Orchestrator/SelfCaller/Rounds.antt =====
-- How often the inner orchestrator runs, and which output is returned.
use tako_ai_core.Common.{
  ℕ, zero, suc, ◌+◌, ◌≤◌, ◌<◌, ◌≡◌, refl, sym, ap, ◌∙◌, String, Option, none, some, true, false,
  Bool-cases, inl, inr, arith, str_eq, lookup, lookup-insert,
}
use tako_ai_core.Core.Error.{TakoError}
use tako_ai_core.Core.Effects.{Outcome, returns, raises, Outcome-cases}
use tako_ai_core.Core.Float.{Float}
use tako_ai_core.Core.Types.{Principal}
use tako_ai_core.Orchestrator.Types.{OrchInput, OrchOutput}
use tako_ai_core.Orchestrator.SelfCaller.Depth.{parse_u8-show_u8}
use tako_ai_core.Orchestrator.SelfCaller.{
  SelfCaller, depth_key, read_depth, bumped_principal, revised, round_principal, accepts,
  run_rounds, run,
}

-- The depth that a round writes into its principal is the depth that is read back from it, and all
-- other metadata are kept.
pub read_depth-bumped_principal :
    (p : Principal) (depth : ℕ)
    → depth < 256
    → (read_depth (bumped_principal p depth) ≡ depth)
      × ((k : String)
          → str_eq depth_key k ≡ false
          → lookup k (bumped_principal p depth).metadata ≡ lookup k p.metadata)
unfolding read_depth bumped_principal
read_depth-bumped_principal p depth small =
    (rw (lookup-insert, parse_u8-show_u8 depth small), λ k other. rw (lookup-insert, other))

module _ (F : Float) {W : Type 0} (s : SelfCaller W F.Real) (principal : Principal) where
  -- What a run may do with `left` rounds to go, the next of them at `offset`: a failure of the inner
  -- orchestrator or of the guard is passed on, an output is returned when the guard is confident in
  -- it or no round is left, and otherwise the input is revised for the next round.
  pub data Rounds : ℕ → ℕ → OrchInput → W → Outcome W OrchOutput → Type 0 where
    inner_fails :
        {left offset : ℕ} {input : OrchInput} {w w' : W} {e : TakoError}
        → s.inner.run (round_principal F s principal offset) input w ≡ raises e w'
        → Rounds (suc left) offset input w (raises e w')
    guard_fails :
        {left offset : ℕ} {input : OrchInput} (out : OrchOutput) (w' : W) {w w'' : W}
        {e : TakoError}
        → s.inner.run (round_principal F s principal offset) input w ≡ returns out w'
        → s.confidence.evaluate (round_principal F s principal offset) out.text w' ≡ raises e w''
        → Rounds (suc left) offset input w (raises e w'')
    confident :
        {left offset : ℕ} {input : OrchInput} {out : OrchOutput} (w' : W) {w w'' : W}
        (conf : F.Real)
        → s.inner.run (round_principal F s principal offset) input w ≡ returns out w'
        → s.confidence.evaluate (round_principal F s principal offset) out.text w'
          ≡ returns conf w''
        → F.le s.min_confidence conf ≡ true
        → Rounds (suc left) offset input w (returns out w'')
    last_round :
        {offset : ℕ} {input : OrchInput} {out : OrchOutput} (w' : W) {w w'' : W} (conf : F.Real)
        → s.inner.run (round_principal F s principal offset) input w ≡ returns out w'
        → s.confidence.evaluate (round_principal F s principal offset) out.text w'
          ≡ returns conf w''
        → Rounds 1 offset input w (returns out w'')
    revise :
        {left offset : ℕ} {input : OrchInput} (out : OrchOutput) (w' w'' : W) {w : W}
        (conf : F.Real) {o : Outcome W OrchOutput}
        → s.inner.run (round_principal F s principal offset) input w ≡ returns out w'
        → s.confidence.evaluate (round_principal F s principal offset) out.text w'
          ≡ returns conf w''
        → F.le s.min_confidence conf ≡ false
        → Rounds (suc left) (offset + 1) (revised s.revision_prompt input out) w'' o
        → Rounds (suc (suc left)) offset input w o

  -- the equations of one round
  module _ (left offset : ℕ) (input : OrchInput) (last : Option OrchOutput) where
    abbrev here : W → Outcome W OrchOutput
    here = run_rounds F s principal (suc left) offset input last

    round-inner_fails :
        (w w' : W) (e : TakoError)
        → s.inner.run (round_principal F s principal offset) input w ≡ raises e w'
        → here w ≡ raises e w'
    unfolding run_rounds
    round-inner_fails w w' e h = ground arith

    module _ (out : OrchOutput) (w w' : W)
        (ran : s.inner.run (round_principal F s principal offset) input w ≡ returns out w') where
      round-guard_fails :
          (w'' : W) (e : TakoError)
          → s.confidence.evaluate (round_principal F s principal offset) out.text w' ≡ raises e w''
          → here w ≡ raises e w''
      unfolding run_rounds
      round-guard_fails w'' e h = ground arith

      module _ (w'' : W) (conf : F.Real)
          (scored : s.confidence.evaluate (round_principal F s principal offset) out.text w'
            ≡ returns conf w'') where
        round-accepted : accepts F s principal conf offset ≡ true → here w ≡ returns out w''
        unfolding run_rounds
        round-accepted a = ground arith

        round-again :
            accepts F s principal conf offset ≡ false
            → here w
              ≡ run_rounds F s principal left
                  (offset + 1)
                  (revised s.revision_prompt input out)
                  (some out)
                  w''
        unfolding run_rounds
        round-again a = ground arith

  -- `conf >= min_confidence || offset >= max_depth`, told apart by whether a round is left
  accepts_last :
      (conf : F.Real) (offset : ℕ) → s.max_depth ≤ offset → accepts F s principal conf offset ≡ true
  accepts_last conf offset l = ground arith

  accepts_sure :
      (conf : F.Real) (offset : ℕ)
      → F.le s.min_confidence conf ≡ true
      → accepts F s principal conf offset ≡ true
  accepts_sure conf offset l = ground arith

  accepts_unsure :
      (conf : F.Real) (offset : ℕ)
      → F.le s.min_confidence conf ≡ false
      → offset < s.max_depth
      → accepts F s principal conf offset ≡ false
  accepts_unsure conf offset l m = ground arith

  -- the rounds after one whose output the guard is not confident in
  abbrev Later : ℕ → ℕ → OrchInput → Type 0
  Later left offset input =
      (left' : ℕ) (out : OrchOutput) (w'' : W)
      → left ≡ suc left'
      → Rounds (suc left') (offset + 1) (revised s.revision_prompt input out) w'' (
          run_rounds F s principal (suc left') (offset + 1) (revised s.revision_prompt input out)
            (some out) w'')

  scored-Rounds :
      (left offset : ℕ) (input : OrchInput) (last : Option OrchOutput) (out : OrchOutput)
      (w w' w'' : W) (conf : F.Real)
      → offset + left ≡ s.max_depth
      → Later left offset input
      → s.inner.run (round_principal F s principal offset) input w ≡ returns out w'
      → s.confidence.evaluate (round_principal F s principal offset) out.text w' ≡ returns conf w''
      → Rounds (suc left) offset input w (run_rounds F s principal (suc left) offset input last w)
  scored-Rounds zero offset input last out w w' w'' conf n later h g =
      rw
        (round-accepted zero offset input last out w w' h w'' conf g
          (accepts_last conf offset (omega arith)))
        (last_round w' conf h g)
  scored-Rounds (suc left) offset input last out w w' w'' conf n later h g =
      elim (Bool-cases (F.le s.min_confidence conf)) [
        | inl sure ↦
            rw
              (round-accepted (suc left) offset input last out w w' h w'' conf g
                (accepts_sure conf offset sure))
              (confident w' conf h g sure)
        | inr unsure ↦
            rw
              (round-again (suc left) offset input last out w w' h w'' conf g
                (accepts_unsure conf offset unsure (omega arith)))
              (revise out w' w'' conf h g unsure (later left out w'' refl))
      ]

  one_round-Rounds :
      (left offset : ℕ) (input : OrchInput) (last : Option OrchOutput) (w : W)
      → offset + left ≡ s.max_depth
      → Later left offset input
      → Rounds (suc left) offset input w (run_rounds F s principal (suc left) offset input last w)
  one_round-Rounds left offset input last w n later =
      elim (Outcome-cases (s.inner.run (round_principal F s principal offset) input w)) [
        | inr (e, w', h) ↦ rw (round-inner_fails left offset input last w w' e h) (inner_fails h)
        | inl (out, w', h) ↦
            elim (Outcome-cases
              (s.confidence.evaluate (round_principal F s principal offset) out.text w')) [
                | inr (e, w'', g) ↦
                    rw (round-guard_fails left offset input last out w w' h w'' e g)
                      (guard_fails out w' h g)
                | inl (conf, w'', g) ↦
                    scored-Rounds left offset input last out w w' w'' conf n later h g
              ]
      ]

  run_rounds-Rounds :
      (left offset : ℕ) (input : OrchInput) (last : Option OrchOutput) (w : W)
      → offset + left ≡ s.max_depth
      → Rounds (suc left) offset input w (run_rounds F s principal (suc left) offset input last w)
  run_rounds-Rounds zero offset input last w n =
      one_round-Rounds zero offset input last w n (λ left' out w'' e. absurd (omega arith))
  run_rounds-Rounds (suc left) offset input last w n =
      one_round-Rounds (suc left) offset input last w n (λ left' out w'' e. rw (sym (same e)) (
        run_rounds-Rounds left (offset + 1) (revised s.revision_prompt input out) (some out) w''
          (omega arith)))
    where
      same : {a b : ℕ} → suc a ≡ suc b → a ≡ b
      same e = omega arith

  -- The inner orchestrator runs at most `max_depth + 1` times, at the offsets 0, 1, … from the depth
  -- of the caller's principal: a failure of it or of the guard ends the run, the first output that
  -- the guard is confident in is returned, and the output of the last round is returned whatever
  -- the guard says; before every other round the input is revised with the output so far.
  pub run-Rounds :
      (input : OrchInput) (w : W) → Rounds (suc s.max_depth) 0 input w (run F s principal input w)
  unfolding run
  run-Rounds input w = run_rounds-Rounds s.max_depth 0 input none w (omega arith)

-- an inner orchestrator that counts its runs, under a guard that is never confident
module _ (F : Float) (s : SelfCaller ℕ F.Real) (principal : Principal) (out : OrchOutput)
    (conf : F.Real)
    (counts : (p : Principal) (input : OrchInput) (n : ℕ)
      → s.inner.run p input n ≡ returns out (n + 1))
    (scores : (p : Principal) (text : String) (n : ℕ)
      → s.confidence.evaluate p text n ≡ returns conf n)
    (unsure : F.le s.min_confidence conf ≡ false) where
  run_rounds-counts :
      (left offset : ℕ) (input : OrchInput) (last : Option OrchOutput) (n : ℕ)
      → offset + left ≡ s.max_depth
      → run_rounds F s principal (suc left) offset input last n ≡ returns out (n + suc left)
  run_rounds-counts zero offset input last n e =
      round-accepted F s principal zero offset input last out n (n + 1)
        (counts (round_principal F s principal offset) input n) (n + 1) conf
        (scores (round_principal F s principal offset) out.text (n + 1))
        (accepts_last F s principal conf offset (omega arith))
  run_rounds-counts (suc left) offset input last n e =
      round-again F s principal (suc left) offset input last out n (n + 1)
        (counts (round_principal F s principal offset) input n) (n + 1) conf
        (scores (round_principal F s principal offset) out.text (n + 1))
        (accepts_unsure F s principal conf offset unsure (omega arith))
      ∙ run_rounds-counts left (offset + 1) (revised s.revision_prompt input out) (some out) (n + 1)
          (omega arith)
      ∙ ap {B = Outcome ℕ OrchOutput} (returns out) (omega arith)

  -- If the guard is never confident, the inner orchestrator runs `max_depth + 1` times, whatever
  -- depth the caller's principal carries already.
  pub run_ignores_depth :
      (input : OrchInput) (n : ℕ) → run F s principal input n ≡ returns out (n + suc s.max_depth)
  unfolding run
  run_ignores_depth input n = run_rounds-counts s.max_depth 0 input none n (omega arith)
