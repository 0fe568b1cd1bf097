-- ===== src/Orchestrator/AbMcts/Examples.antt =====
-- The theorems on the tree search at concrete inputs: scores in percent.
use tako_ai_core.Common.{
  ℕ, suc, ◌+◌, ◌-◌, ◌*◌, ◌/◌, ◌≡◌, refl, ◌⊎◌, if◌then◌else◌, ltb, none, zero, some, List, [], ◌∷◌,
  get_elem?, modify, string_append, arith,
}
use tako_ai_core.Core.Error.{TakoError}
use tako_ai_core.Core.Effects.{ok, returns, raises}
use tako_ai_core.Core.Types.{as_text, no_usage}
use tako_ai_core.Core.Traits.{Verifier}
use tako_ai_core.Core.Examples.{naturals, alice, answer, good_provider}
use tako_ai_core.Orchestrator.Types.{OrchOutput}
use tako_ai_core.Orchestrator.Single.{all_text, tool_calls, add_usage, model_of}
use tako_ai_core.Orchestrator.Single.Examples.{texts, registry, task}
use tako_ai_core.Orchestrator.AbMcts.Rollout.{
  AbMcts, RolloutResult, rollout_result, pick_rollout_provider, rollout_chat, rollout_turns,
  rollout,
}
use tako_ai_core.Orchestrator.AbMcts.Builder.{Setting, Defaults, builder, set, set_all, build}
use tako_ai_core.Orchestrator.AbMcts.{
  Node, Sampling, sample_beta, new_root, best_of, select, IterationOutcome, expand, insert_leaf,
  back_propagate,
}
use tako_ai_core.Orchestrator.AbMcts.Search.{simulate, iterate, run}
use tako_ai_core.Orchestrator.AbMcts.Tree.{IsTree, IsBounded, expand-IsTree}
use tako_ai_core.Orchestrator.AbMcts.Selection.{IsAbove, IsSelected, Descends, select-Ends}
use tako_ai_core.Orchestrator.AbMcts.Growth.{IsGrown, iterate-IsGrown, iterate-IsBounded}
use tako_ai_core.Orchestrator.AbMcts.Best.{IsStrict}
use tako_ai_core.Orchestrator.AbMcts.Answer.{root-IsTree, IsBest, run-IsBest}

-- a generator that counts its draws
abbrev percents : Sampling naturals ℕ
percents = record {
  one = 100;
  half = 50;
  tiny = 1;
  minus_one = 0;
  neg_infinity = 0;
  sub = λ a b. a - b;
  div = λ a b. suc (a * 100 / b);
  max = λ a b. if ltb a b then b else a;
  sample_gamma = λ draws k. (k + draws, draws + 1);
}

abbrev fair : Verifier ℕ ℕ
fair = record {
  score = λ who prompt output n. returns 70 (n + 1);
  evaluate_streaming = λ who partial n. returns none n;
}

abbrev searcher : AbMcts ℕ ℕ ℕ
searcher = record {
  provider = good_provider;
  candidates = [];
  router = none;
  verifier = fair;
  tools = registry;
  policy = none;
  default_temperature = none;
  default_max_tokens = none;
  max_iterations = 2;
  branching_factor = 3;
  max_steps_per_rollout = 4;
  temperature = 70;
  min_confidence = 95;
}

abbrev rolled : RolloutResult
rolled = rollout_result (some answer.message) (add_usage no_usage answer.usage) 1

rolls_out : rollout texts searcher alice good_provider task.messages 0 ≡ returns rolled 1
unfolding rollout rollout_turns rollout_chat model_of tool_calls
rolls_out = refl

abbrev tree : List (Node ℕ)
tree = new_root naturals percents task.messages ∷ []

tree-IsTree : IsTree tree
tree-IsTree = root-IsTree naturals percents task.messages

-- the root with one leaf below it
abbrev grown : List (Node ℕ)
grown =
    (expand naturals percents tree 0 0 (0 ∷ []) (new_root naturals percents task.messages) rolled
      70).nodes

grown-IsTree : IsTree grown
unfolding get_elem? all_text as_text string_append
grown-IsTree =
    expand-IsTree naturals percents tree 0 0 (0 ∷ []) (new_root naturals percents task.messages)
      rolled 70 tree-IsTree refl refl

-- with one child at most, the selection goes down to the leaf
goes_down :
    (rng : ℕ) × (select naturals percents 2 1 grown 0 0 (0 ∷ []) ≡ some (1, 0 ∷ 1 ∷ [], rng))
unfolding select best_of sample_beta expand insert_leaf back_propagate modify get_elem?
goes_down = (_, refl)

select-Ends_example :
    (parent : ℕ) × (path : List ℕ) × (rng : ℕ) × (select naturals percents 2 1 grown 0 0 (0 ∷ [])
      ≡ some (parent, path, rng))
    × IsSelected naturals percents 1 grown parent path
    × (down : List ℕ) × (path ≡ 0 ∷ down)
    × Descends naturals percents grown 0 down parent
unfolding expand insert_leaf back_propagate modify
select-Ends_example =
    select-Ends naturals percents 2 1 grown 0 0 (0 ∷ []) grown-IsTree (omega arith) (omega arith)
      (omega arith, tt)

iterate-IsGrown_example :
    ((e : TakoError) × (w : ℕ) × (iterate naturals percents texts searcher alice "why?" tree 0 0
        ≡ raises e w))
    ⊎ ((o : IterationOutcome naturals percents) × (w : ℕ) × (iterate naturals percents texts
            searcher alice "why?" tree 0 0
          ≡ returns (some o) w)
        × IsGrown naturals percents texts searcher alice tree o)
iterate-IsGrown_example =
    iterate-IsGrown naturals percents texts searcher alice "why?" tree 0 0 tree-IsTree (omega arith)

abbrev first_outcome : IterationOutcome naturals percents
first_outcome =
    expand naturals percents tree 2 0 (0 ∷ []) (new_root naturals percents task.messages) rolled 70

iterates :
    iterate naturals percents texts searcher alice "why?" tree 0 0 ≡ returns (some first_outcome) 2
unfolding iterate select best_of sample_beta get_elem? simulate pick_rollout_provider rollout
    rollout_turns rollout_chat model_of tool_calls
iterates = refl

percents-IsAbove : IsAbove naturals percents
unfolding sample_beta
percents-IsAbove rng alpha beta = ground arith

tree-IsBounded : IsBounded 3 tree
unfolding get_elem?
tree-IsBounded zero node at = ground arith
tree-IsBounded (suc i) node at = cc

iterate-IsBounded_example : IsBounded 3 first_outcome.nodes
iterate-IsBounded_example =
    iterate-IsBounded naturals percents texts searcher alice "why?" tree 0 0 2 first_outcome
      percents-IsAbove (omega arith) (omega arith) tree-IsTree (omega arith) tree-IsBounded iterates

naturals-IsStrict : IsStrict naturals
naturals-IsStrict = record {
  irreflexive = λ x. ground arith;
  transitive = λ x y z below above. ground arith;
}

run-IsBest_example :
    ((e : TakoError) × (v : ℕ) × (run naturals percents texts searcher alice (λ n. (n, n)) task 0
        ≡ raises e v))
    ⊎ ((out : OrchOutput) × (v : ℕ) × (run naturals percents texts searcher alice
            (λ n. (n, n))
            task
            0
          ≡ returns (some out) v)
        × IsBest naturals percents texts searcher alice task 0 0 v out)
run-IsBest_example =
    run-IsBest naturals percents texts searcher alice (λ n. (n, n)) task 0 naturals-IsStrict

abbrev in_percent : Defaults ℕ ℕ
in_percent = record {
  temperature = 70;
  min_confidence = 95;
  no_tools = registry;
  clamp = λ c. if ltb 100 c then 100 else c;
}

-- no iteration asked for, two steps in a rollout
abbrev settings : List (Setting ℕ ℕ ℕ)
settings =
    Setting.provider good_provider
    ∷ Setting.max_iterations 0
    ∷ Setting.verifier fair
    ∷ Setting.max_steps_per_rollout 2
    ∷ []

abbrev built : AbMcts ℕ ℕ ℕ
built = record searcher {
  default_temperature = some 70;
  max_iterations = 1;
  max_steps_per_rollout = 2;
}

builds : build in_percent (set_all in_percent (builder in_percent) settings) ≡ ok built
unfolding build set_all set
builds = refl
