-- ===== src/Orchestrator/AbMcts/Builder.antt =====
-- crates/tako-orchestrator/src/ab_mcts.rs: the builder. The `f32` constants and the empty tool
-- registry are arguments.
use tako_ai_core.Common.{
  ℕ, ◌<◌, ◌≡◌, inl, inr, Option, none, some, Option-cases, List, [], ◌∷◌, ◌++◌, ltb, if◌then◌else◌,
  arith,
}
use tako_ai_core.Core.Error.{lit, invalid}
use tako_ai_core.Core.Effects.{Result, ok, err}
use tako_ai_core.Core.Traits.{LlmProvider, PolicyEngine, Router, Verifier}
use tako_ai_core.Orchestrator.Single.{ToolRegistry}
use tako_ai_core.Orchestrator.AbMcts.Rollout.{AbMcts}

pub record AbMctsBuilder (W R Stream : Type 0) : Type 0 where
  pub provider : Option (LlmProvider W R Stream)
  pub candidates : List (LlmProvider W R Stream)
  pub router : Option (Router W R)
  pub verifier : Option (Verifier W R)
  pub tools : Option (ToolRegistry W)
  pub policy : Option (PolicyEngine W)
  pub default_temperature : Option R
  pub default_max_tokens : Option ℕ
  pub max_iterations : Option ℕ
  pub branching_factor : Option ℕ
  pub max_steps_per_rollout : Option ℕ
  pub temperature : Option R
  pub min_confidence : Option R

pub record Defaults (W R : Type 0) : Type 0 where
  pub temperature : R
  pub min_confidence : R
  pub no_tools : ToolRegistry W
  -- `c.clamp(0.0, 1.0)`
  pub clamp : R → R

abbrev pub or_default : {A : Type 0} → Option A → A → A
or_default none a = a
or_default (some b) a = b

-- `n.max(1)`
abbrev pub at_least_one : ℕ → ℕ
at_least_one n = if ltb n 1 then 1 else n

abbrev pub default_max_iterations : ℕ
default_max_iterations = 16

abbrev pub default_branching_factor : ℕ
default_branching_factor = 3

abbrev pub default_max_steps_per_rollout : ℕ
default_max_steps_per_rollout = 4

-- the methods of the builder, with their arguments
pub data Setting (W R Stream : Type 0) : Type 0 where
  provider candidate : LlmProvider W R Stream → Setting W R Stream
  router : Router W R → Setting W R Stream
  verifier : Verifier W R → Setting W R Stream
  tools : ToolRegistry W → Setting W R Stream
  policy : PolicyEngine W → Setting W R Stream
  max_iterations branching_factor max_steps_per_rollout max_tokens : ℕ → Setting W R Stream
  temperature min_confidence : R → Setting W R Stream

one_or_more : (n : ℕ) → 0 < at_least_one n
one_or_more n = ground arith

module _ {W R Stream : Type 0} (d : Defaults W R) where
  abbrev pub builder : AbMctsBuilder W R Stream
  builder = record {
    provider = none;
    candidates = [];
    router = none;
    verifier = none;
    tools = none;
    policy = none;
    default_temperature = none;
    default_max_tokens = none;
    max_iterations = none;
    branching_factor = none;
    max_steps_per_rollout = none;
    temperature = none;
    min_confidence = none;
  }

  unfoldable pub set : AbMctsBuilder W R Stream → Setting W R Stream → AbMctsBuilder W R Stream
  set b (provider p) = record b { provider = some p }
  set b (candidate p) = record b { candidates = b.candidates ++ p ∷ [] }
  set b (router r) = record b { router = some r }
  set b (verifier v) = record b { verifier = some v }
  set b (tools t) = record b { tools = some t }
  set b (policy p) = record b { policy = some p }
  set b (max_iterations n) = record b { max_iterations = some (at_least_one n) }
  set b (branching_factor k) = record b { branching_factor = some (at_least_one k) }
  set b (max_steps_per_rollout n) = record b { max_steps_per_rollout = some (at_least_one n) }
  set b (max_tokens n) = record b { default_max_tokens = some n }
  set b (temperature t) = record b { temperature = some t }
  set b (min_confidence c) = record b { min_confidence = some (d.clamp c) }

  -- a chain of calls on the builder
  unfoldable pub set_all :
      AbMctsBuilder W R Stream → List (Setting W R Stream) → AbMctsBuilder W R Stream
  unfolding set
  set_all b [] = b
  set_all b (s ∷ ss) = set_all (set b s) ss

  unfoldable pub build : AbMctsBuilder W R Stream → Result (AbMcts W R Stream)
  build b = elim b.provider [
    | none ↦ err (invalid (lit "AbMctsBuilder: provider is required" ∷ []))
    | some p ↦ elim b.verifier [
      | none ↦ err (invalid (lit "AbMctsBuilder: verifier is required" ∷ []))
      | some v ↦
          let temperature = or_default b.temperature d.temperature in
          ok record {
            provider = p;
            candidates = b.candidates;
            router = b.router;
            verifier = v;
            tools = or_default b.tools d.no_tools;
            policy = b.policy;
            default_temperature = some (or_default b.default_temperature temperature);
            default_max_tokens = b.default_max_tokens;
            max_iterations = or_default b.max_iterations default_max_iterations;
            branching_factor = or_default b.branching_factor default_branching_factor;
            max_steps_per_rollout =
                or_default b.max_steps_per_rollout default_max_steps_per_rollout;
            temperature = temperature;
            min_confidence = or_default b.min_confidence d.min_confidence;
          }
    ]
  ]

  -- no number of the builder is 0
  abbrev IsPositive : AbMctsBuilder W R Stream → Type 0
  IsPositive b =
      (0 < or_default b.max_iterations default_max_iterations)
      × (0 < or_default b.branching_factor default_branching_factor)
      × (0 < or_default b.max_steps_per_rollout default_max_steps_per_rollout)

  set-IsPositive :
      (b : AbMctsBuilder W R Stream) (s : Setting W R Stream) → IsPositive b → IsPositive (set b s)
  unfolding set
  set-IsPositive b (provider p) h = h
  set-IsPositive b (candidate p) h = h
  set-IsPositive b (router r) h = h
  set-IsPositive b (verifier v) h = h
  set-IsPositive b (tools t) h = h
  set-IsPositive b (policy p) h = h
  set-IsPositive b (max_iterations n) (i, b', s) = (one_or_more n, b', s)
  set-IsPositive b (branching_factor k) (i, b', s) = (i, one_or_more k, s)
  set-IsPositive b (max_steps_per_rollout n) (i, b', s) = (i, b', one_or_more n)
  set-IsPositive b (max_tokens n) h = h
  set-IsPositive b (temperature t) h = h
  set-IsPositive b (min_confidence c) h = h

  set_all-IsPositive :
      (b : AbMctsBuilder W R Stream) (ss : List (Setting W R Stream))
      → IsPositive b
      → IsPositive (set_all b ss)
  unfolding set_all
  set_all-IsPositive b [] h = h
  set_all-IsPositive b (s ∷ ss) h = set_all-IsPositive (set b s) ss (set-IsPositive b s h)

  -- Whatever calls configure the builder, the search it builds makes at least one iteration, lets
  -- every node have a child, and lets a rollout make a step.
  pub build-positive :
      (ss : List (Setting W R Stream)) (a : AbMcts W R Stream)
      → build (set_all builder ss) ≡ ok a
      → (0 < a.max_iterations) × (0 < a.branching_factor) × (0 < a.max_steps_per_rollout)
  unfolding build
  build-positive ss a h =
      let (iterates, branches, steps) =
        set_all-IsPositive builder ss (omega arith, omega arith, omega arith) in
      elim (Option-cases (set_all builder ss).provider) [
        | inl no_provider ↦ absurd (ground arith)
        | inr (p, is_p) ↦ elim (Option-cases (set_all builder ss).verifier) [
          | inl no_verifier ↦ absurd (ground arith)
          | inr (v, is_v) ↦
              let i : a.max_iterations
                  ≡ or_default (set_all builder ss).max_iterations default_max_iterations =
                ground arith in
              let k : a.branching_factor
                  ≡ or_default (set_all builder ss).branching_factor default_branching_factor =
                ground arith in
              let n : a.max_steps_per_rollout
                  ≡ or_default (set_all builder ss).max_steps_per_rollout
                      default_max_steps_per_rollout =
                ground arith in
              (rw (i) iterates, rw (k) branches, rw (n) steps)
        ]
      ]
