-- ===== src/Orchestrator/AbMcts/Selection.antt =====
-- The selection loop of crates/tako-orchestrator/src/ab_mcts.rs: it ends, and where.
use tako_ai_core.Common.{
  ℕ, zero, suc, ◌+◌, ◌≤◌, ◌<◌, ◌≡◌, refl, sym, ap, ◌∙◌, ◌⊎◌, inl, inr, Option, none, some, Bool,
  true, false, ◌&&◌, Bool-cases, and-true, if◌then◌else◌, List, [], ◌∷◌, ◌++◌, All, All-snoc,
  All-map, All-In, In, here, there, length, get_elem?, get_elem?-some, get_elem?-lt, arith,
}
use tako_ai_core.Core.Float.{Float}
use tako_ai_core.Orchestrator.AbMcts.{Node, Sampling, sample_beta, best_of, can_branch, select}
use tako_ai_core.Orchestrator.AbMcts.Tree.{IsChild, IsTree}

append_nil : (xs : List ℕ) → xs ++ [] ≡ xs
append_nil [] = refl
append_nil (x ∷ xs) = ap (λ l. x ∷ l) (append_nil xs)

append_one : (xs : List ℕ) (y : ℕ) (ys : List ℕ) → (xs ++ y ∷ []) ++ ys ≡ xs ++ y ∷ ys
append_one [] y ys = refl
append_one (x ∷ xs) y ys = ap (λ l. x ∷ l) (append_one xs y ys)

no_some : (n : ℕ) → none ≡ some n → ⊥
no_some n h = cc

module _ (F : Float) {Rng : Type 0} (S : Sampling F Rng) where
  open F use {Real}

  -- Every sample is greater than -∞, which a sample in the unit interval is.
  abbrev pub IsAbove : Type 0
  IsAbove =
      (rng : Rng) (alpha beta : Real)
      → F.lt S.neg_infinity (sample_beta F S rng alpha beta).0 ≡ true

  best_step :
      (nodes : List (Node Real)) (rng : Rng) (best : Option ℕ) (sample : Real) (c : ℕ) (cs : List ℕ)
      (node : Node Real)
      → get_elem? nodes c ≡ some node
      → best_of F S nodes rng best sample (c ∷ cs)
        ≡ best_of F S nodes
            (sample_beta F S rng node.alpha node.beta).1
            (if F.lt sample (sample_beta F S rng node.alpha node.beta).0 then some c else best)
            (if F.lt sample (sample_beta F S rng node.alpha node.beta).0
              then (sample_beta F S rng node.alpha node.beta).0
              else sample)
            cs
  unfolding best_of
  best_step nodes rng best sample c cs node at = rw (at, best_of) refl

  -- where the best child comes from
  Origin : Option ℕ → Option ℕ → List ℕ → Type 0
  Origin best found cs = (best ≡ found) ⊎ ((c : ℕ) × (found ≡ some c) × In c cs)

  kept_or_taken :
      (b : Bool) (best found : Option ℕ) (c : ℕ) (cs : List ℕ)
      → Origin (if b then some c else best) found cs
      → Origin best found (c ∷ cs)
  unfolding Origin
  kept_or_taken b best found c cs (inr (d, is_d, i)) = inr (d, is_d, there i)
  kept_or_taken true best found c cs (inl same) = inr (c, sym same, here)
  kept_or_taken false best found c cs (inl same) = inl same

  -- the sample of a node
  abbrev draw : Rng → Node Real → Real × Rng
  draw rng node = sample_beta F S rng node.alpha node.beta

  best_of-Total :
      (nodes : List (Node Real)) (cs : List ℕ) (rng : Rng) (best : Option ℕ) (sample : Real)
      → All (λ c. c < length nodes) cs
      → (found : Option ℕ) × (top : Real) × (rng' : Rng) × (best_of F S nodes rng best sample cs
          ≡ some (found, top, rng'))
        × Origin best found cs
  unfolding best_of Origin
  best_of-Total nodes [] rng best sample inside = (best, sample, rng, refl, inl refl)
  best_of-Total nodes (c ∷ cs) rng best sample (first, inside) =
      let (node, at) = get_elem?-some nodes c first in
      let (found, top, rng', runs, origin) =
        best_of-Total nodes cs (draw rng node).1
          (if F.lt sample (draw rng node).0 then some c else best)
          (if F.lt sample (draw rng node).0 then (draw rng node).0 else sample) inside in
      (
        found,
        top,
        rng',
        best_step nodes rng best sample c cs node at ∙ runs,
        kept_or_taken (F.lt sample (draw rng node).0) best found c cs origin,
      )

  found_none :
      (found : Option ℕ) (top top' : Real) (rng rng' : Rng)
      → ◌≡◌ {A = Option (Option ℕ × Real × Rng)} (some (none, top, rng)) (some (found, top', rng'))
      → none ≡ found
  found_none found top top' rng rng' h = cc

  -- With every sample above -∞, only a node without children has no best child.
  pub childless :
      (nodes : List (Node Real)) (rng rng' : Rng) (top : Real) (cs : List ℕ)
      → IsAbove
      → All (λ c. c < length nodes) cs
      → best_of F S nodes rng none S.neg_infinity cs ≡ some (none, top, rng')
      → cs ≡ []
  unfolding Origin
  childless nodes rng rng' top [] above inside h = refl
  childless nodes rng rng' top (c ∷ cs) above (first, inside) h =
      let (node, at) = get_elem?-some nodes c first in
      let taken =
        rw (above rng node.alpha node.beta, if◌then◌else◌) at
          (best_step nodes rng none S.neg_infinity c cs node at) in
      let (found, t, rng2, runs, origin) =
        best_of-Total nodes cs (draw rng node).1 (some c) (draw rng node).0 inside in
      let nothing = found_none found top t rng' rng2 (sym h ∙ taken ∙ runs) in
      absurd (elim origin [
        | inl same ↦ no_some c (nothing ∙ sym same)
        | inr (d, is_d, i) ↦ no_some d (nothing ∙ is_d)
      ])

  -- What the selection ends with: a node of the tree, by a path in it, that has no child
  -- with a sample above -∞ or may have one more child.
  pub record IsSelected (k : ℕ) (nodes : List (Node Real)) (parent : ℕ) (path : List ℕ)
      : Type 0 where
    pub node : Node Real
    pub stands : get_elem? nodes parent ≡ some node
    pub on_tree : All (λ n. n < length nodes) path
    pub may_branch :
        ((rng : Rng) × (top : Real) × (rng' : Rng) × (best_of F S nodes rng none S.neg_infinity
              node.children
            ≡ some (none, top, rng')))
        ⊎ (can_branch F S k node ≡ true)

  -- one step of the loop: it stops at a node without a best child …
  stops_childless :
      (fuel k : ℕ) (nodes : List (Node Real)) (rng rng' : Rng) (current : ℕ) (path : List ℕ)
      (node : Node Real) (top : Real)
      → get_elem? nodes current ≡ some node
      → best_of F S nodes (sample_beta F S rng S.one S.one).1 none S.neg_infinity node.children
        ≡ some (none, top, rng')
      → select F S (suc fuel) k nodes rng current path ≡ some (current, path, rng')
  unfolding select
  stops_childless fuel k nodes rng rng' current path node top at runs = rw (at, select, runs) refl

  -- … and at one that may branch and whose new child samples best, or else goes on to the best child
  goes_on :
      (fuel k : ℕ) (nodes : List (Node Real)) (rng rng' : Rng) (current : ℕ) (path : List ℕ)
      (node : Node Real) (next : ℕ) (top : Real)
      → get_elem? nodes current ≡ some node
      → best_of F S nodes (sample_beta F S rng S.one S.one).1 none S.neg_infinity node.children
        ≡ some (some next, top, rng')
      → (can_branch F S k node && F.lt top (sample_beta F S rng S.one S.one).0) ≡ false
      → select F S (suc fuel) k nodes rng current path
        ≡ select F S fuel k nodes rng' next (path ++ next ∷ [])
  unfolding select
  goes_on fuel k nodes rng rng' current path node next top at runs descends =
      rw (at, select, runs, descends) refl

  stops_branching :
      (fuel k : ℕ) (nodes : List (Node Real)) (rng rng' : Rng) (current : ℕ) (path : List ℕ)
      (node : Node Real) (next : ℕ) (top : Real)
      → get_elem? nodes current ≡ some node
      → best_of F S nodes (sample_beta F S rng S.one S.one).1 none S.neg_infinity node.children
        ≡ some (some next, top, rng')
      → (can_branch F S k node && F.lt top (sample_beta F S rng S.one S.one).0) ≡ true
      → select F S (suc fuel) k nodes rng current path ≡ some (current, path, rng')
  unfolding select
  stops_branching fuel k nodes rng rng' current path node next top at runs branches =
      rw (at, select, runs, branches) refl

  -- A way down the tree: each node is a child of the one before it.
  abbrev pub Descends : List (Node Real) → ℕ → List ℕ → ℕ → Type 0
  Descends nodes n [] m = n ≡ m
  Descends nodes n (c ∷ cs) m =
      (node : Node Real) × (get_elem? nodes n ≡ some node)
      × In c node.children
      × Descends nodes c cs m

  -- In a tree the selection ends, with fuel for every node, at a node that has no child with a sample
  -- above -∞ or may have one more child. The path is the one it was given, and then every node on a
  -- way down from the current node to that one, each a child of the node before it.
  pub select-Ends :
      (fuel k : ℕ) (nodes : List (Node Real)) (rng : Rng) (current : ℕ) (path : List ℕ)
      → IsTree nodes
      → current < length nodes
      → length nodes ≤ fuel + current
      → All (λ n. n < length nodes) path
      → (parent : ℕ) × (path' : List ℕ) × (rng' : Rng) × (select F S fuel k nodes rng current path
          ≡ some (parent, path', rng'))
        × IsSelected k nodes parent path'
        × (down : List ℕ) × (path' ≡ path ++ down)
        × Descends nodes current down parent
  unfolding Origin
  select-Ends zero k nodes rng current path tree there_is enough on_tree = absurd (omega arith)
  select-Ends (suc fuel) k nodes rng current path tree there_is enough on_tree =
      let (node, at) = get_elem?-some nodes current there_is in
      let rng1 = (sample_beta F S rng S.one S.one).1 in
      let inside =
        All-map (IsChild nodes current node.messages) (λ c. c < length nodes) node.children
          (λ c h. get_elem?-lt nodes c h.child h.stands) (tree current node at) in
      let (found, top, rng2, runs, origin) =
        best_of-Total nodes node.children rng1 none S.neg_infinity inside in
      elim origin [
        | inl same ↦
            let runs' = rw (sym same) at runs in
            (
              current,
              path,
              rng2,
              stops_childless fuel k nodes rng rng2 current path node top at runs',
              record {
                node = node;
                stands = at;
                on_tree = on_tree;
                may_branch = inl (rng1, top, rng2, runs');
              },
              [],
              sym (append_nil path),
              refl,
            )
        | inr (next, is_next, i) ↦
            let runs' = rw (is_next) at runs in
            elim (Bool-cases
              (can_branch F S k node && F.lt top (sample_beta F S rng S.one S.one).0)) [
                | inl branches ↦ (
                  current,
                  path,
                  rng2,
                  stops_branching fuel k nodes rng rng2 current path node next top at runs'
                      branches,
                  record {
                    node = node;
                    stands = at;
                    on_tree = on_tree;
                    may_branch = inr (and-true _ _ branches).0;
                  },
                  [],
                  sym (append_nil path),
                  refl,
                )
                | inr descends ↦
                    let child =
                      All-In (IsChild nodes current node.messages) node.children next
                        (tree current node at) i in
                    let next_is = get_elem?-lt nodes next child.child child.stands in
                    let deeper = child.later in
                    let (parent, path', rng3, ends, selected, down, whole, descent) =
                      select-Ends fuel k nodes rng2 next (path ++ next ∷ []) tree next_is
                        (omega arith)
                        (All-snoc (λ n. n < length nodes) path next on_tree next_is) in
                    (
                      parent,
                      path',
                      rng3,
                      goes_on fuel k nodes rng rng2 current path node next top at runs' descends
                          ∙ ends,
                      selected,
                      next ∷ down,
                      whole ∙ append_one path next down,
                      (node, at, i, descent),
                    )
              ]
      ]
