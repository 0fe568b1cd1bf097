-- ===== src/Orchestrator/AbMcts.antt =====
-- crates/tako-orchestrator/src/ab_mcts.rs: tree search over rollouts. Spans are left out. The random
-- generator and its Gamma sampler are arguments; an index out of range, where Rust panics, gives `none`.
pub mod Rollout
pub mod Builder
pub mod Search
pub mod Tree
pub mod Selection
pub mod Growth
pub mod Best
pub mod Answer
pub mod Examples
use tako_ai_core.Common.{
  ℕ, zero, suc, ◌+◌, ◌%◌, ◌^◌, Bool, true, false, ◌&&◌, ltb, if◌then◌else◌, String, Option, none,
  some, List, [], ◌∷◌, ◌++◌, length, get_elem?, modify, string_append,
}
use tako_ai_core.Core.Error.{lit, invalid}
use tako_ai_core.Core.Effects.{Io, Result, ok, err, returns, raises, pure, fail, ◌>>=◌}
use tako_ai_core.Core.Float.{Float}
use tako_ai_core.Core.Types.{
  Principal, Message, assistant_message, ContentPart, as_text, Usage, no_usage,
}
use tako_ai_core.Core.Traits.{LlmProvider, PolicyEngine, Router, Verifier}
use tako_ai_core.Orchestrator.Types.{OrchInput, OrchOutput}
use tako_ai_core.Orchestrator.Single.{ToolRegistry, Texts, add_usage, or_empty, opening}
use tako_ai_core.Orchestrator.AbMcts.Rollout.{AbMcts, RolloutResult, pick_rollout_provider, rollout}

-- one node of the tree; `children` are indices into the arena
pub record Node (R : Type 0) : Type 0 where
  pub messages : List Message
  pub alpha : R
  pub beta : R
  pub children : List ℕ
  pub output_text : Option String
  pub output_message : Option Message
  pub rollout_steps : ℕ

-- the constants and operations on `f32` that the search uses, besides those of `Float`
pub record Sampling (F : Float) (Rng : Type 0) : Type 0 where
  pub one : F.Real
  pub half : F.Real
  pub tiny : F.Real
  pub minus_one : F.Real
  pub neg_infinity : F.Real
  pub sub : F.Real → F.Real → F.Real
  pub div : F.Real → F.Real → F.Real
  -- `f32::max`
  pub max : F.Real → F.Real → F.Real
  pub sample_gamma : Rng → F.Real → F.Real × Rng

module _ (F : Float) {Rng : Type 0} (S : Sampling F Rng) where
  open F use {Real}

  abbrev pub clamp_unit : Real → Real
  clamp_unit x = if F.lt x F.zero then F.zero else if F.lt S.one x then S.one else x

  unfoldable pub sample_beta : Rng → Real → Real → Real × Rng
  sample_beta rng alpha beta =
      let (x, rng') = S.sample_gamma rng (S.max alpha S.tiny) in
      let (y, rng'') = S.sample_gamma rng' (S.max beta S.tiny) in
      (if F.le (F.add x y) F.zero then S.half else clamp_unit (S.div x (F.add x y)), rng'')

  abbrev pub new_root : List Message → Node Real
  new_root messages = record {
    messages = messages;
    alpha = S.one;
    beta = S.one;
    children = [];
    output_text = none;
    output_message = none;
    rollout_steps = 0;
  }

  -- the loop over the children: the best one so far with its sample
  unfoldable pub best_of :
      List (Node Real) → Rng → Option ℕ → Real → List ℕ → Option (Option ℕ × Real × Rng)
  best_of nodes rng best sample [] = some (best, sample, rng)
  best_of nodes rng best sample (c ∷ cs) = elim (get_elem? nodes c) [
    | none ↦ none
    | some node ↦
        let (s, rng') = sample_beta rng node.alpha node.beta in
        best_of nodes rng' (if F.lt sample s then some c else best)
          (if F.lt sample s then s else sample) cs
  ]

  -- `(node.children.len() as u32) < self.branching_factor`
  abbrev pub can_branch : ℕ → Node Real → Bool
  can_branch branching_factor node = ltb (length node.children % 2 ^ 32) branching_factor

  -- Where the selection stops: the node to expand and the path to it.
  unfoldable pub select : ℕ → ℕ → List (Node Real) → Rng → ℕ → List ℕ → Option (ℕ × List ℕ × Rng)
  unfolding sample_beta best_of
  select zero branching_factor nodes rng current path = none
  select (suc fuel) branching_factor nodes rng current path = elim (get_elem? nodes current) [
    | none ↦ none
    | some node ↦
        let (new_child_sample, rng') = sample_beta rng S.one S.one in
        elim (best_of nodes rng' none S.neg_infinity node.children) [
          | none ↦ none
          | some (none, _, rng'') ↦ some (current, path, rng'')
          | some (some next, best_child_sample, rng'') ↦
              elim (can_branch branching_factor node && F.lt best_child_sample new_child_sample) [
                | true ↦ some (current, path, rng'')
                | false ↦ select fuel branching_factor nodes rng'' next (path ++ next ∷ [])
              ]
        ]
  ]

  abbrev pub leaf_of : List Message → RolloutResult → Node Real
  leaf_of parent_messages r = record (new_root (parent_messages ++ r.message ∷ [])) {
    output_text = some r.text;
    output_message = some r.message;
    rollout_steps = r.steps;
  }

  abbrev pub add_child : ℕ → Node Real → Node Real
  add_child c node = record node { children = node.children ++ c ∷ [] }

  -- the leaf is appended and becomes a child of the node at `parent`
  unfoldable pub insert_leaf : ℕ → Node Real → List (Node Real) → List (Node Real)
  insert_leaf parent leaf nodes = modify parent (add_child (length nodes)) (nodes ++ leaf ∷ [])

  abbrev pub credit : Real → Node Real → Node Real
  credit score node = record node {
    alpha = F.add node.alpha score;
    beta = F.add node.beta (S.sub S.one score);
  }

  unfoldable pub back_propagate : List ℕ → Real → List (Node Real) → List (Node Real)
  back_propagate [] score nodes = nodes
  back_propagate (n ∷ path) score nodes = back_propagate path score (modify n (credit score) nodes)

  pub record IterationOutcome : Type 0 where
    pub nodes : List (Node Real)
    pub rng : Rng
    pub leaf : ℕ
    pub score : Real
    pub rollout_usage : Usage

  -- a rollout from `parent`, with its score, added to the tree
  unfoldable pub expand :
      List (Node Real) → Rng → ℕ → List ℕ → Node Real → RolloutResult → Real → IterationOutcome
  expand nodes rng parent path node r score = record {
    nodes =
        back_propagate (path ++ length nodes ∷ []) score
          (insert_leaf parent (leaf_of node.messages r) nodes);
    rng = rng;
    leaf = length nodes;
    score = score;
    rollout_usage = r.usage;
  }
