-- ===== src/Orchestrator/AbMcts/Growth.antt =====
-- An iteration of crates/tako-orchestrator/src/ab_mcts.rs on a tree.
use tako_ai_core.Common.{
  ℕ, zero, suc, ◌+◌, ◌%◌, ◌^◌, ◌≤◌, ◌<◌, ◌≡◌, refl, sym, ◌∙◌, ◌⊎◌, inl, inr, ◌==◌, if◌then◌else◌,
  String, Option, none, some, true, ltb, List, [], ◌∷◌, ◌++◌, All-map, length, List-cases,
  get_elem?, get_elem?-lt, ltb→lt, arith,
}
use tako_ai_core.Core.Error.{TakoError}
use tako_ai_core.Core.Effects.{Outcome, returns, raises, Outcome-cases}
use tako_ai_core.Core.Float.{Float}
use tako_ai_core.Core.Types.{Principal, Message, user, Usage, no_usage, u32_max}
use tako_ai_core.Core.Traits.{LlmProvider}
use tako_ai_core.Orchestrator.Single.{Texts, model_of, tool_calls, all_text, add_usage, run_tools}
use tako_ai_core.Orchestrator.AbMcts.Rollout.{
  AbMcts, RolloutResult, rollout_result, pick_rollout_provider, rollout_chat, rollout_turns,
  rollout,
}
use tako_ai_core.Orchestrator.AbMcts.{Node, Sampling, select, IterationOutcome, expand}
use tako_ai_core.Orchestrator.AbMcts.Search.{simulate, iterate}
use tako_ai_core.Orchestrator.AbMcts.Tree.{
  IsChild, IsTree, IsBounded, expand-IsTree, expand-IsBounded, length-expand,
}
use tako_ai_core.Orchestrator.AbMcts.Selection.{IsAbove, IsSelected, childless, select-Ends}

module _ {W R Stream : Type 0} (texts : Texts) (a : AbMcts W R Stream) where
  -- What a rollout gives: the text of its message, after 1 to `max_steps_per_rollout` calls.
  record IsRolledOut (left steps : ℕ) (r : RolloutResult) : Type 0 where
    wrote : r.text ≡ all_text r.message.content
    at_least : steps ≤ r.steps
    some_step : 0 < left → steps < r.steps
    at_most : r.steps ≤ steps + left

  rollout_turns-IsRolledOut :
      (left : ℕ) (provider : LlmProvider W R Stream) (principal : Principal) (step steps : ℕ)
      (messages : List Message) (usage : Usage) (last : Option Message) (w w' : W)
      (r : RolloutResult)
      → rollout_turns texts a provider principal left step messages usage steps last w
        ≡ returns r w'
      → IsRolledOut left steps r
  unfolding rollout_turns
  rollout_turns-IsRolledOut zero provider principal step steps messages usage last w w' r h =
      let is_r : rollout_result last usage steps ≡ r = cc in
      rw (sym is_r) record {
        wrote = refl;
        at_least = omega arith;
        some_step = omega arith;
        at_most = omega arith;
      }
  rollout_turns-IsRolledOut (suc left) provider principal step steps messages usage last w w' r h =
      elim (Outcome-cases (rollout_chat a provider principal messages w)) [
        | inr (e, v, x) ↦ absurd (ground arith)
        | inl (resp, v, x) ↦ elim (List-cases (tool_calls resp.message.content)) [
          | inl none_called ↦
              let is_r : rollout_result (some resp.message) (add_usage usage resp.usage) (steps + 1)
                  ≡ r =
                ground arith in
              rw (sym is_r) record {
                wrote = refl;
                at_least = omega arith;
                some_step = omega arith;
                at_most = omega arith;
              }
          | inr (c, cs, called) ↦
              elim (Outcome-cases (
                run_tools texts a.tools a.policy principal (model_of provider.id)
                  (messages ++ resp.message ∷ []) (c ∷ cs) v)) [
                    | inr (e, v', y) ↦ absurd (ground arith)
                    | inl (results, v', y) ↦
                        let ih =
                          rollout_turns-IsRolledOut left provider principal (step + 1) (steps + 1)
                            ((messages ++ resp.message ∷ [])
                              ++ record { role = user; content = results } ∷ [])
                            (add_usage usage resp.usage)
                            (if step + 1 == a.max_steps_per_rollout
                              then some resp.message
                              else last)
                            v' w' r (rw (x, rollout_turns, called, y) at h) in
                        record {
                          wrote = ih.wrote;
                          at_least = omega (arith, ih.at_least);
                          some_step = λ more. omega (arith, ih.at_least);
                          at_most = omega (arith, ih.at_most);
                        }
                  ]
        ]
      ]

  -- A rollout makes between one and max_steps_per_rollout provider calls, and its text is the text of
  -- the message it ends with.
  pub rollout-bounds :
      (principal : Principal) (provider : LlmProvider W R Stream) (messages : List Message)
      (w w' : W) (r : RolloutResult)
      → rollout texts a principal provider messages w ≡ returns r w'
      → (r.text ≡ all_text r.message.content)
        × (r.steps ≤ a.max_steps_per_rollout)
        × (0 < a.max_steps_per_rollout → 0 < r.steps)
  unfolding rollout
  rollout-bounds principal provider messages w w' r h =
      let all_of =
        rollout_turns-IsRolledOut a.max_steps_per_rollout provider principal 0 0 messages no_usage
          none w w' r h in
      (all_of.wrote, omega (arith, all_of.at_most), all_of.some_step)

module _ (F : Float) {Rng : Type 0} (S : Sampling F Rng) {W Stream : Type 0} (texts : Texts)
    (a : AbMcts W F.Real Stream) (principal : Principal) where
  open F use {Real}

  outcome_of :
      {o o' : IterationOutcome F S} {w w' : W}
      → ◌≡◌ {A = Outcome W (Option (IterationOutcome F S))}
          (returns (some o) w)
          (returns (some o') w')
      → o ≡ o'
  outcome_of h = cc

  simulate-Wrote :
      (prompt : String) (node : Node Real) (w w' : W) (r : RolloutResult) (score : Real)
      → simulate F S texts a principal prompt node w ≡ returns (r, score) w'
      → r.text ≡ all_text r.message.content
  unfolding simulate
  simulate-Wrote prompt node w w' r score h =
      elim (Outcome-cases (pick_rollout_provider a principal node.messages w)) [
        | inr (e, v, x) ↦ absurd (ground arith)
        | inl (picked, v, x) ↦
            elim (Outcome-cases (rollout texts a principal picked node.messages v)) [
              | inr (e, v', y) ↦ absurd (ground arith)
              | inl (r', v', y) ↦
                  elim (Outcome-cases (a.verifier.score principal prompt r'.text v')) [
                    | inr (e, v'', z) ↦ absurd (ground arith)
                    | inl (raw, v'', z) ↦
                        let is_r : r' ≡ r = ground arith in
                        rw (sym is_r)
                          (rollout-bounds texts a principal picked node.messages v v' r' y).0
                  ]
            ]
      ]

  -- one iteration, once its selection is known
  iterate_selected :
      (prompt : String) (nodes : List (Node Real)) (rng rng' : Rng) (parent : ℕ) (path : List ℕ)
      (node : Node Real) (w : W)
      → select F S (length nodes) a.branching_factor nodes rng 0 (0 ∷ [])
        ≡ some (parent, path, rng')
      → get_elem? nodes parent ≡ some node
      → iterate F S texts a principal prompt nodes rng w
        ≡ (elim (simulate F S texts a principal prompt node w)
            as (λ _. Outcome W (Option (IterationOutcome F S))) [
              | raises e w' ↦ raises e w'
              | returns (r, score) w' ↦
                  returns (some (expand F S nodes rng' parent path node r score)) w'
            ])
  unfolding iterate
  iterate_selected prompt nodes rng rng' parent path node w s at = rw (iterate, s, at) refl

  -- a tree with one leaf more, the last of its nodes
  pub record IsGrown (nodes : List (Node Real)) (o : IterationOutcome F S) : Type 0 where
    pub tree : IsTree o.nodes
    pub one_more : length o.nodes ≡ suc (length nodes)
    pub newest : o.leaf ≡ length nodes

  -- From a tree, an iteration never panics: it fails, or it leaves a tree with exactly one leaf more, the
  -- last of its nodes.
  pub iterate-IsGrown :
      (prompt : String) (nodes : List (Node Real)) (rng : Rng) (w : W)
      → IsTree nodes
      → 0 < length nodes
      → ((e : TakoError) × (w' : W) × (iterate F S texts a principal prompt nodes rng w
            ≡ raises e w'))
        ⊎ ((o : IterationOutcome F S) × (w' : W) × (iterate F S texts a principal prompt nodes rng w
              ≡ returns (some o) w')
            × IsGrown nodes o)
  unfolding expand
  iterate-IsGrown prompt nodes rng w tree root =
      let (parent, path, rng', selects, selected, down, whole, descent) =
        select-Ends F S (length nodes) a.branching_factor nodes rng 0 (0 ∷ []) tree root
          (omega arith) (root, tt) in
      let ran =
        iterate_selected prompt nodes rng rng' parent path selected.node w selects
          selected.stands in
      elim (Outcome-cases (simulate F S texts a principal prompt selected.node w)) [
        | inr (e, v, x) ↦ inl (e, v, rw (x) at ran)
        | inl ((r, score), v, x) ↦ inr (
          expand F S nodes rng' parent path selected.node r score,
          v,
          rw (x) at ran,
          record {
            tree =
                expand-IsTree F S nodes rng' parent path selected.node r score tree selected.stands
                  (simulate-Wrote prompt selected.node w v r score x);
            one_more = length-expand F S nodes rng' parent path selected.node r score;
            newest = refl;
          },
        )
      ]

  has_room :
      (children : List ℕ) (k : ℕ)
      → k ≤ u32_max
      → 0 < k
      → length children ≤ k
      → (children ≡ []) ⊎ (ltb (length children % 2 ^ 32) k ≡ true)
      → length children < k
  has_room children k fits positive bounded (inl bare) = rw (bare) positive
  has_room children k fits positive bounded (inr below) =
      let small = ltb→lt (length children % 2 ^ 32) k below in omega arith

  -- the branching factor bounds the children of the node that an iteration expands
  expands-IsBounded :
      (nodes : List (Node Real)) (rng : Rng) (parent : ℕ) (path path' : List ℕ) (r : RolloutResult)
      (score : Real)
      → IsAbove F S
      → a.branching_factor ≤ u32_max
      → 0 < a.branching_factor
      → IsTree nodes
      → IsBounded a.branching_factor nodes
      → (selected : IsSelected F S a.branching_factor nodes parent path')
      → IsBounded a.branching_factor (expand F S nodes rng parent path selected.node r score).nodes
  expands-IsBounded nodes rng parent path path' r score above fits positive tree bounded selected =
      let inside =
        All-map (IsChild nodes parent selected.node.messages) (λ c. c < length nodes)
          selected.node.children (λ c h. get_elem?-lt nodes c h.child h.stands)
          (tree parent selected.node selected.stands) in
      let bare_or_below : (selected.node.children ≡ [])
          ⊎ (ltb (length selected.node.children % 2 ^ 32) a.branching_factor ≡ true) =
        elim selected.may_branch [
          | inl (rng1, top, rng2, h) ↦
              inl (childless F S nodes rng1 rng2 top selected.node.children above inside h)
          | inr below ↦ inr below
        ] in
      expand-IsBounded F S nodes rng a.branching_factor parent path selected.node r score bounded
        selected.stands
        (has_room selected.node.children a.branching_factor fits positive
          (bounded parent selected.node selected.stands) bare_or_below)

  -- If every sample is above -∞ and the branching factor is positive and fits 32 bits, an iteration on
  -- a tree in which no node has more children than that leaves such a tree.
  pub iterate-IsBounded :
      (prompt : String) (nodes : List (Node Real)) (rng : Rng) (w w' : W) (o : IterationOutcome F S)
      → IsAbove F S
      → a.branching_factor ≤ u32_max
      → 0 < a.branching_factor
      → IsTree nodes
      → 0 < length nodes
      → IsBounded a.branching_factor nodes
      → iterate F S texts a principal prompt nodes rng w ≡ returns (some o) w'
      → IsBounded a.branching_factor o.nodes
  iterate-IsBounded prompt nodes rng w w' o above fits positive tree root bounded h =
      let (parent, path, rng', selects, selected, down, whole, descent) =
        select-Ends F S (length nodes) a.branching_factor nodes rng 0 (0 ∷ []) tree root
          (omega arith) (root, tt) in
      let ran =
        iterate_selected prompt nodes rng rng' parent path selected.node w selects
          selected.stands in
      elim (Outcome-cases (simulate F S texts a principal prompt selected.node w)) [
        | inr (e, v, x) ↦ absurd (let failed = sym h ∙ (rw (x) at ran) in ground arith)
        | inl ((r, score), v, x) ↦
            let same = outcome_of (sym (rw (x) at ran) ∙ h) in
            rw (sym same) (
              expands-IsBounded nodes rng' parent path path r score above fits positive tree bounded
                selected)
      ]
