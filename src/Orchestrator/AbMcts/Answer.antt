-- ===== src/Orchestrator/AbMcts/Answer.antt =====
-- What `run` of crates/tako-orchestrator/src/ab_mcts.rs answers.
use tako_ai_core.Common.{
  ℕ, zero, suc, ◌≤◌, ◌<◌, ◌≡◌, refl, sym, ap, ◌∙◌, ◌⊎◌, inl, inr, String, Option, some, true, false,
  Bool-cases, List, [], ◌∷◌, All, In, length, get_elem?, get_elem?-some, arith,
}
use tako_ai_core.Core.Error.{TakoError}
use tako_ai_core.Core.Effects.{Outcome, returns, raises}
use tako_ai_core.Core.Float.{Float}
use tako_ai_core.Core.Types.{Principal, Message}
use tako_ai_core.Orchestrator.Types.{OrchInput, OrchOutput}
use tako_ai_core.Orchestrator.Single.{Texts, opening}
use tako_ai_core.Orchestrator.AbMcts.Rollout.{AbMcts}
use tako_ai_core.Orchestrator.AbMcts.{Node, Sampling, new_root, IterationOutcome}
use tako_ai_core.Orchestrator.AbMcts.Search.{
  Progress, start, note, search, finish, answer_of, prompt_parts, join_lines, no_rollout, run,
}
use tako_ai_core.Orchestrator.AbMcts.Tree.{IsTree}
use tako_ai_core.Orchestrator.AbMcts.Growth.{IsGrown, iterate-IsGrown}
use tako_ai_core.Orchestrator.AbMcts.Best.{
  IsStrict, Reaches, search-Reaches, noted_above, best_noted,
}

module _ (F : Float) {Rng : Type 0} (S : Sampling F Rng) where
  -- The nodes are a tree, and the best leaf is one of them.
  record IsSound (p : Progress F S) : Type 0 where
    tree : IsTree p.nodes
    root : 0 < length p.nodes
    leaf_stands : (leaf : ℕ) → p.best_leaf ≡ some leaf → leaf < length p.nodes

  pub root-IsTree : (messages : List Message) → IsTree (new_root F S messages ∷ [])
  unfolding get_elem?
  root-IsTree messages zero node at =
      let is_root : new_root F S messages ≡ node = cc in rw (sym is_root) tt
  root-IsTree messages (suc i) node at = cc

  start-IsSound : (rng : Rng) (messages : List Message) → IsSound (start F S rng messages)
  start-IsSound rng messages = record {
    tree = root-IsTree messages;
    root = omega arith;
    leaf_stands = λ leaf h. cc;
  }

module _ (F : Float) {Rng : Type 0} (S : Sampling F Rng) {W Stream : Type 0} (texts : Texts)
    (a : AbMcts W F.Real Stream) (principal : Principal) where
  note-IsSound :
      (p : Progress F S) (o : IterationOutcome F S)
      → IsSound F S p
      → IsGrown F S texts a principal p.nodes o
      → IsSound F S (note F S p o)
  note-IsSound p o sound grown = record {
    tree = grown.tree;
    root = rw (grown.one_more) (omega arith);
    leaf_stands = λ leaf h. rw (grown.one_more) (elim (Bool-cases (F.lt p.best_score o.score)) [
      | inl t ↦ let is_leaf : o.leaf ≡ leaf = ground arith in omega (arith, grown.newest, is_leaf)
      | inr t ↦ omega (arith, sound.leaf_stands leaf (ground arith))
    ]);
  }

  -- From a tree the search fails or ends in a tree; it never panics.
  search-IsSound :
      (left : ℕ) (prompt : String) (p : Progress F S) (w : W)
      → IsSound F S p
      → ((e : TakoError) × (v : W) × (search F S texts a principal left prompt p w ≡ raises e v))
        ⊎ ((q : Progress F S) × (v : W) × (search F S texts a principal left prompt p w
              ≡ returns (some q) v)
            × IsSound F S q)
  unfolding search
  search-IsSound zero prompt p w sound = inr (p, w, refl, sound)
  search-IsSound (suc left) prompt p w sound =
      elim (iterate-IsGrown F S texts a principal prompt p.nodes p.rng w sound.tree sound.root) [
        | inl (e, w', x) ↦ inl (e, w', rw (search, x) refl)
        | inr (o, w', x, grown) ↦
            let sound' = note-IsSound p o sound grown in
            elim (Bool-cases (F.le a.min_confidence (note F S p o).best_score)) [
              | inl met ↦ inr (note F S p o, w', rw (search, x, met) refl, sound')
              | inr unmet ↦
                  let goes : search F S texts a principal (suc left) prompt p w
                      ≡ search F S texts a principal left prompt (note F S p o) w' =
                    rw (search, x, unmet) refl in
                  elim (search-IsSound left prompt (note F S p o) w' sound') [
                    | inl (e, v, y) ↦ inl (e, v, goes ∙ y)
                    | inr (q, v, y, found) ↦ inr (q, v, goes ∙ y, found)
                  ]
            ]
      ]

  -- What stands behind an answer: the iterations made, and the best of their leaves.
  pub record IsBest (input : OrchInput) (rng : Rng) (w v : W) (out : OrchOutput) : Type 0 where
    pub iterations : List (IterationOutcome F S)
    pub final : Progress F S
    pub reached :
        Reaches F S texts a principal
          (join_lines (prompt_parts input.messages))
          (start F S rng (opening input))
          w
          iterations
          final
          v
    pub at_most : length iterations ≤ a.max_iterations
    pub ended :
        (length iterations ≡ a.max_iterations) ⊎ (F.le a.min_confidence final.best_score ≡ true)
    pub best : IterationOutcome F S
    pub made : In best iterations
    pub unbeaten : All (λ o. F.lt best.score o.score ≡ false) iterations
    pub leaf : Node F.Real
    pub stands : get_elem? final.nodes best.leaf ≡ some leaf
    pub answered : out ≡ answer_of F S final.total_usage leaf

  -- `run`, once its search is known
  run_found :
      (seed : W → Rng × W) (input : OrchInput) (w : W) (o : Outcome W (Option (Progress F S)))
      → search F S texts a principal a.max_iterations
          (join_lines (prompt_parts input.messages))
          (start F S (seed w).0 (opening input))
          (seed w).1
        ≡ o
      → run F S texts a principal seed input w ≡ (elim o as (λ _. Outcome W (Option OrchOutput)) [
        | raises e v ↦ raises e v
        | returns q v ↦ finish F S texts a principal q v
      ])
  unfolding run
  run_found seed input w o h =
      ap
        (λ z. (elim z as (λ _. Outcome W (Option OrchOutput)) [
          | raises e v ↦ raises e v
          | returns q v ↦ finish F S texts a principal q v
        ]))
        h

  -- `run` never panics: from every input it fails, or answers with the best leaf.
  pub run-IsBest :
      (seed : W → Rng × W) (input : OrchInput) (w : W)
      → IsStrict F
      → ((e : TakoError) × (v : W) × (run F S texts a principal seed input w ≡ raises e v))
        ⊎ ((out : OrchOutput) × (v : W) × (run F S texts a principal seed input w
              ≡ returns (some out) v)
            × IsBest input (seed w).0 (seed w).1 v out)
  unfolding finish
  run-IsBest seed input w strict =
      let rng = (seed w).0 in
      let w' = (seed w).1 in
      let prompt = join_lines (prompt_parts input.messages) in
      elim (search-IsSound a.max_iterations prompt (start F S rng (opening input)) w'
        (start-IsSound F S rng (opening input))) [
          | inl (e, v, x) ↦ inl (e, v, run_found seed input w (raises e v) x)
          | inr (q, v, x, sound) ↦
              let (os, reaches, few, ends) =
                search-Reaches F S texts a principal prompt a.max_iterations
                  (start F S rng (opening input)) q w' v x in
              let found = run_found seed input w (returns (some q) v) x in
              elim (best_noted F S texts a principal prompt reaches) [
                | inl (no_leaf, _) ↦ inl (no_rollout, v, found ∙ (rw (no_leaf) refl))
                | inr (o, made, is_leaf, is_score) ↦
                    let (leaf, stands) =
                      get_elem?-some q.nodes o.leaf (sound.leaf_stands o.leaf is_leaf) in
                    inr (
                      answer_of F S q.total_usage leaf,
                      v,
                      found ∙ (rw (is_leaf, stands) refl),
                      record {
                        iterations = os;
                        final = q;
                        reached = reaches;
                        at_most = few;
                        ended = ends;
                        best = o;
                        made = made;
                        unbeaten =
                            rw (sym is_score)
                              (noted_above F S texts a principal prompt strict reaches);
                        leaf = leaf;
                        stands = stands;
                        answered = refl;
                      },
                    )
              ]
        ]
