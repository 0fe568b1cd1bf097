-- ===== src/Orchestrator/AbMcts/Tree.antt =====
-- The arena of crates/tako-orchestrator/src/ab_mcts.rs is a tree of conversations.
use tako_ai_core.Common.{
  ℕ, suc, ◌≤◌, ◌<◌, ◌≡◌, refl, sym, ap, ◌∙◌, inl, inr, some, List, [], ◌∷◌, ◌++◌, All, All-snoc,
  All-map, length, length-append, length-modify, get_elem?, modify, get_elem?-lt, get_elem?-modify,
  modify-get_elem?, get_elem?-append, get_elem?-last, get_elem?-snoc, arith,
}
use tako_ai_core.Core.Float.{Float}
use tako_ai_core.Core.Types.{Message}
use tako_ai_core.Orchestrator.Single.{all_text}
use tako_ai_core.Orchestrator.AbMcts.Rollout.{RolloutResult}
use tako_ai_core.Orchestrator.AbMcts.{
  Node, Sampling, leaf_of, add_child, insert_leaf, credit, back_propagate, expand,
}

module _ {R : Type 0} where
  -- A child stands after its parent; its conversation is the parent's and the message its rollout
  -- ended with, whose text is its output.
  pub record IsChild (nodes : List (Node R)) (i : ℕ) (messages : List Message) (c : ℕ)
      : Type 0 where
    pub later : i < c
    pub child : Node R
    pub stands : get_elem? nodes c ≡ some child
    pub last : Message
    pub conversation : child.messages ≡ messages ++ last ∷ []
    pub ended : child.output_message ≡ some last
    pub answered : child.output_text ≡ some (all_text last.content)

  abbrev pub IsTree : List (Node R) → Type 0
  IsTree nodes =
      (i : ℕ) (node : Node R)
      → get_elem? nodes i ≡ some node
      → All (IsChild nodes i node.messages) node.children

  -- No node has more children than allowed.
  abbrev pub IsBounded : ℕ → List (Node R) → Type 0
  IsBounded k nodes =
      (i : ℕ) (node : Node R) → get_elem? nodes i ≡ some node → length node.children ≤ k

  -- a change of nodes that leaves the conversation and the output
  record Keeps (f : Node R → Node R) : Type 0 where
    messages : (n : Node R) → (f n).messages ≡ n.messages
    message : (n : Node R) → (f n).output_message ≡ n.output_message
    text : (n : Node R) → (f n).output_text ≡ n.output_text

  kept :
      (f : Node R → Node R) (k : Keeps f) (n i : ℕ) (nodes : List (Node R))
      (messages : List Message) (c : ℕ)
      → IsChild nodes i messages c
      → IsChild (modify n f nodes) i messages c
  kept f k n i nodes messages c h =
      let (node, at, change) = modify-get_elem? n c f nodes h.child h.stands in
      let agree : (node.messages ≡ h.child.messages)
          × (node.output_message ≡ h.child.output_message)
          × (node.output_text ≡ h.child.output_text) =
        elim change [
          | inl same ↦ (
            ap (λ z. z.messages) same,
            ap (λ z. z.output_message) same,
            ap (λ z. z.output_text) same,
          )
          | inr same ↦ (
            ap (λ z. z.messages) same ∙ k.messages h.child,
            ap (λ z. z.output_message) same ∙ k.message h.child,
            ap (λ z. z.output_text) same ∙ k.text h.child,
          )
        ] in
      let (messages_agree, message_agrees, text_agrees) = agree in
      record {
        later = h.later;
        child = node;
        stands = at;
        last = h.last;
        conversation = messages_agree ∙ h.conversation;
        ended = message_agrees ∙ h.ended;
        answered = text_agrees ∙ h.answered;
      }

  appended :
      (nodes : List (Node R)) (leaf : Node R) (i : ℕ) (messages : List Message) (c : ℕ)
      → IsChild nodes i messages c
      → IsChild (nodes ++ leaf ∷ []) i messages c
  appended nodes leaf i messages c h = record {
    later = h.later;
    child = h.child;
    stands =
        get_elem?-append nodes (leaf ∷ []) c (get_elem?-lt nodes c h.child h.stands) ∙ h.stands;
    last = h.last;
    conversation = h.conversation;
    ended = h.ended;
    answered = h.answered;
  }

  -- the length, the tree and the bound survive
  snoc-IsTree :
      (nodes : List (Node R)) (leaf : Node R)
      → IsTree nodes
      → leaf.children ≡ []
      → IsTree (nodes ++ leaf ∷ [])
  snoc-IsTree nodes leaf tree bare i node at = elim (get_elem?-snoc nodes leaf i node at) [
    | inl old ↦
        All-map (IsChild nodes i node.messages) (IsChild (nodes ++ leaf ∷ []) i node.messages)
          node.children (appended nodes leaf i node.messages) (tree i node old)
    | inr (last, same) ↦ rw (same, bare) tt
  ]

  found_node :
      (nodes : List (Node R)) (leaf node found : Node R) (i : ℕ)
      → get_elem? nodes i ≡ some node
      → get_elem? (nodes ++ leaf ∷ []) i ≡ some found
      → found ≡ node
  found_node nodes leaf node found i at stands =
      let same = get_elem?-append nodes (leaf ∷ []) i (get_elem?-lt nodes i node at) in cc

  -- a change at one node, given what it makes of that node's children
  modify-IsTree :
      (nodes : List (Node R)) (n : ℕ) (f : Node R → Node R)
      → Keeps f
      → IsTree nodes
      → ((node : Node R)
          → get_elem? nodes n ≡ some node
          → All (IsChild nodes n node.messages) (f node).children)
      → IsTree (modify n f nodes)
  modify-IsTree nodes n f keeps tree changed i node at =
      let (old, stood, change) = get_elem?-modify n i f nodes node at in
      elim change [
        | inl same ↦ rw (same) (
            All-map (IsChild nodes i old.messages) (IsChild (modify n f nodes) i old.messages)
              old.children (kept f keeps n i nodes old.messages) (tree i old stood))
        | inr (here_too, same) ↦
            rw (same, keeps.messages old)
              (All-map (IsChild nodes i old.messages) (IsChild (modify n f nodes) i old.messages)
                (f old).children (kept f keeps n i nodes old.messages)
                (rw (here_too) at (changed old (rw (sym here_too) at stood))))
      ]

  modify-IsBounded :
      (nodes : List (Node R)) (k n : ℕ) (f : Node R → Node R)
      → IsBounded k nodes
      → ((node : Node R) → get_elem? nodes n ≡ some node → length (f node).children ≤ k)
      → IsBounded k (modify n f nodes)
  modify-IsBounded nodes k n f bounded changed i node at =
      let (old, stood, change) = get_elem?-modify n i f nodes node at in
      elim change [
        | inl same ↦ rw (same) (bounded i old stood)
        | inr (here_too, same) ↦ rw (same) (changed old (rw (sym here_too) at stood))
      ]

module _ (F : Float) {Rng : Type 0} (S : Sampling F Rng) where
  open F use {Real}

  credit-Keeps : (score : Real) → Keeps (credit F S score)
  credit-Keeps score = record { messages = λ n. refl; message = λ n. refl; text = λ n. refl }

  add_child-Keeps : (c : ℕ) → Keeps (add_child F S c)
  add_child-Keeps c = record { messages = λ n. refl; message = λ n. refl; text = λ n. refl }

  back_propagate-IsTree :
      (path : List ℕ) (score : Real) (nodes : List (Node Real))
      → IsTree nodes
      → IsTree (back_propagate F S path score nodes)
  unfolding back_propagate
  back_propagate-IsTree [] score nodes tree = tree
  back_propagate-IsTree (n ∷ path) score nodes tree =
      back_propagate-IsTree path score (modify n (credit F S score) nodes)
        (modify-IsTree nodes n (credit F S score) (credit-Keeps score) tree (tree n))

  back_propagate-IsBounded :
      (path : List ℕ) (score : Real) (nodes : List (Node Real)) (k : ℕ)
      → IsBounded k nodes
      → IsBounded k (back_propagate F S path score nodes)
  unfolding back_propagate
  back_propagate-IsBounded [] score nodes k bounded = bounded
  back_propagate-IsBounded (n ∷ path) score nodes k bounded =
      back_propagate-IsBounded path score (modify n (credit F S score) nodes) k
        (modify-IsBounded nodes k n (credit F S score) bounded (bounded n))

  length-back_propagate :
      (path : List ℕ) (score : Real) (nodes : List (Node Real))
      → length (back_propagate F S path score nodes) ≡ length nodes
  unfolding back_propagate
  length-back_propagate [] score nodes = refl
  length-back_propagate (n ∷ path) score nodes =
      length-back_propagate path score (modify n (credit F S score) nodes)
      ∙ length-modify n (credit F S score) nodes

  insert_leaf-IsTree :
      (nodes : List (Node Real)) (parent : ℕ) (node : Node Real) (r : RolloutResult)
      → IsTree nodes
      → get_elem? nodes parent ≡ some node
      → r.text ≡ all_text r.message.content
      → IsTree (insert_leaf F S parent (leaf_of F S node.messages r) nodes)
  unfolding insert_leaf
  insert_leaf-IsTree nodes parent node r tree at wrote =
      let leaf = leaf_of F S node.messages r in
      modify-IsTree (nodes ++ leaf ∷ []) parent (add_child F S (length nodes))
        (add_child-Keeps (length nodes)) (snoc-IsTree nodes leaf tree refl)
        λ found stands.
          let is_node : found ≡ node = found_node nodes leaf node found parent at stands in
          All-snoc (IsChild (nodes ++ leaf ∷ []) parent found.messages) found.children
            (length nodes) (snoc-IsTree nodes leaf tree refl parent found stands)
            record {
              later = get_elem?-lt nodes parent node at;
              child = leaf;
              stands = get_elem?-last nodes leaf;
              last = r.message;
              conversation = ap (λ z. z.messages ++ r.message ∷ []) (sym is_node);
              ended = refl;
              answered = ap some wrote;
            }

  insert_leaf-IsBounded :
      (nodes : List (Node Real)) (k parent : ℕ) (node leaf : Node Real)
      → IsBounded k nodes
      → get_elem? nodes parent ≡ some node
      → leaf.children ≡ []
      → length node.children < k
      → IsBounded k (insert_leaf F S parent leaf nodes)
  unfolding insert_leaf
  insert_leaf-IsBounded nodes k parent node leaf bounded at bare room =
      modify-IsBounded (nodes ++ leaf ∷ []) k parent (add_child F S (length nodes))
        (λ i found stands. elim (get_elem?-snoc nodes leaf i found stands) [
          | inl old ↦ bounded i found old
          | inr (last, same) ↦ rw (same, bare) (omega arith)
        ])
        λ found stands.
          let is_node : found ≡ node = found_node nodes leaf node found parent at stands in
          rw (length-append, is_node) (omega arith)

  -- What an iteration leaves: a tree with one node more, the leaf at its end.
  pub expand-IsTree :
      (nodes : List (Node Real)) (rng : Rng) (parent : ℕ) (path : List ℕ) (node : Node Real)
      (r : RolloutResult) (score : Real)
      → IsTree nodes
      → get_elem? nodes parent ≡ some node
      → r.text ≡ all_text r.message.content
      → IsTree (expand F S nodes rng parent path node r score).nodes
  unfolding expand
  expand-IsTree nodes rng parent path node r score tree at wrote =
      back_propagate-IsTree (path ++ length nodes ∷ []) score _
        (insert_leaf-IsTree nodes parent node r tree at wrote)

  pub length-expand :
      (nodes : List (Node Real)) (rng : Rng) (parent : ℕ) (path : List ℕ) (node : Node Real)
      (r : RolloutResult) (score : Real)
      → length (expand F S nodes rng parent path node r score).nodes ≡ suc (length nodes)
  unfolding expand insert_leaf
  length-expand nodes rng parent path node r score =
      length-back_propagate (path ++ length nodes ∷ []) score _
      ∙ length-modify parent (add_child F S (length nodes))
          (nodes ++ leaf_of F S node.messages r ∷ [])
      ∙ (rw (length-append) (omega arith))

  pub expand-IsBounded :
      (nodes : List (Node Real)) (rng : Rng) (k parent : ℕ) (path : List ℕ) (node : Node Real)
      (r : RolloutResult) (score : Real)
      → IsBounded k nodes
      → get_elem? nodes parent ≡ some node
      → length node.children < k
      → IsBounded k (expand F S nodes rng parent path node r score).nodes
  unfolding expand
  expand-IsBounded nodes rng k parent path node r score bounded at room =
      back_propagate-IsBounded (path ++ length nodes ∷ []) score _ k (
        insert_leaf-IsBounded nodes k parent node (leaf_of F S node.messages r) bounded at refl
          room)
