-- ===== src/Orchestrator/AbMcts/Search.antt =====
-- crates/tako-orchestrator/src/ab_mcts.rs: one iteration of the search, the search loop and `run`. An
-- index out of range, where Rust panics, gives `none`.
use tako_ai_core.Common.{
  ℕ, zero, suc, true, false, if◌then◌else◌, String, Option, none, some, List, [], ◌∷◌, length,
  get_elem?, string_append,
}
use tako_ai_core.Core.Error.{TakoError, lit, invalid}
use tako_ai_core.Core.Effects.{Io, returns, raises, pure, ◌>>=◌}
use tako_ai_core.Core.Float.{Float}
use tako_ai_core.Core.Types.{Principal, Message, ContentPart, as_text, Usage, no_usage}
use tako_ai_core.Orchestrator.Types.{OrchInput, OrchOutput}
use tako_ai_core.Orchestrator.Single.{Texts, add_usage, or_empty, opening}
use tako_ai_core.Orchestrator.AbMcts.Rollout.{AbMcts, RolloutResult, pick_rollout_provider, rollout}
use tako_ai_core.Orchestrator.AbMcts.{
  Node, Sampling, clamp_unit, new_root, select, IterationOutcome, expand,
}

-- the first text of a message, if it has one
unfoldable pub first_text : List ContentPart → Option String
unfolding as_text
first_text [] = none
first_text (p ∷ rest) = elim (as_text p) [ some s ↦ some s | none ↦ first_text rest ]

unfoldable pub prompt_parts : List Message → List String
unfolding first_text
prompt_parts [] = []
prompt_parts (m ∷ ms) = elim (first_text m.content) [
  | some s ↦ s ∷ prompt_parts ms
  | none ↦ prompt_parts ms
]

-- `join("\n")`
unfoldable pub join_lines : List String → String
join_lines [] = ""
join_lines (s ∷ []) = s
join_lines (s ∷ t ∷ rest) = string_append s (string_append "\n" (join_lines (t ∷ rest)))

abbrev pub no_rollout : TakoError
no_rollout = invalid (lit "AbMcts: no rollout completed (try increasing max_iterations)" ∷ [])

abbrev pub or_no_text : Option String → String
or_no_text none = ""
or_no_text (some s) = s

module _ (F : Float) {Rng : Type 0} (S : Sampling F Rng) where
  open F use {Real}

  pub record Progress : Type 0 where
    pub nodes : List (Node Real)
    pub rng : Rng
    pub best_leaf : Option ℕ
    pub best_score : Real
    pub total_usage : Usage

  abbrev pub start : Rng → List Message → Progress
  start rng root_messages = record {
    nodes = new_root F S root_messages ∷ [];
    rng = rng;
    best_leaf = none;
    best_score = S.minus_one;
    total_usage = no_usage;
  }

  abbrev pub note : Progress → IterationOutcome F S → Progress
  note p o = record {
    nodes = o.nodes;
    rng = o.rng;
    best_leaf = if F.lt p.best_score o.score then some o.leaf else p.best_leaf;
    best_score = if F.lt p.best_score o.score then o.score else p.best_score;
    total_usage = add_usage p.total_usage o.rollout_usage;
  }

  abbrev pub answer_of : Usage → Node Real → OrchOutput
  answer_of usage leaf = record {
    text = or_no_text leaf.output_text;
    message = or_empty leaf.output_message;
    usage = usage;
    steps = leaf.rollout_steps;
  }

module _ (F : Float) {Rng : Type 0} (S : Sampling F Rng) {W Stream : Type 0} (texts : Texts)
    (a : AbMcts W F.Real Stream) (principal : Principal) where
  open F use {Real}

  -- from the node that the selection chose: provider, rollout, score
  unfoldable pub simulate : String → Node Real → Io W (RolloutResult × Real)
  simulate prompt node = pick_rollout_provider a principal node.messages >>= λ picked.
      rollout texts a principal picked node.messages >>= λ r.
      a.verifier.score principal prompt r.text >>= λ score. pure (r, clamp_unit F S score)

  unfoldable pub iterate : String → List (Node Real) → Rng → Io W (Option (IterationOutcome F S))
  unfolding select simulate expand
  iterate prompt nodes rng w =
      elim (select F S (length nodes) a.branching_factor nodes rng 0 (0 ∷ [])) [
        | none ↦ returns none w
        | some (parent, path, rng') ↦ elim (get_elem? nodes parent) [
          | none ↦ returns none w
          | some node ↦ elim (simulate prompt node w) [
            | raises e w' ↦ raises e w'
            | returns (r, score) w' ↦
                returns (some (expand F S nodes rng' parent path node r score)) w'
          ]
        ]
      ]

  -- the `for` loop, by the iterations that are left
  unfoldable pub search : ℕ → String → Progress F S → Io W (Option (Progress F S))
  unfolding iterate
  search zero prompt p w = returns (some p) w
  search (suc left) prompt p w = elim (iterate prompt p.nodes p.rng w) [
    | raises e w' ↦ raises e w'
    | returns none w' ↦ returns none w'
    | returns (some o) w' ↦ elim (F.le a.min_confidence (note F S p o).best_score) [
      | true ↦ returns (some (note F S p o)) w'
      | false ↦ search left prompt (note F S p o) w'
    ]
  ]

  -- the output from the best leaf
  unfoldable pub finish : Option (Progress F S) → Io W (Option OrchOutput)
  finish none w = returns none w
  finish (some p) w = elim p.best_leaf [
    | none ↦ raises no_rollout w
    | some leaf ↦ elim (get_elem? p.nodes leaf) [
      | none ↦ returns none w
      | some node ↦ returns (some (answer_of F S p.total_usage node)) w
    ]
  ]

  -- `seed` draws the generator's seed
  unfoldable pub run : (W → Rng × W) → OrchInput → Io W (Option OrchOutput)
  unfolding prompt_parts join_lines search finish
  run seed input w =
      let (rng, w') = seed w in
      (search a.max_iterations (join_lines (prompt_parts input.messages))
            (start F S rng (opening input))
          >>= finish)
        w'
