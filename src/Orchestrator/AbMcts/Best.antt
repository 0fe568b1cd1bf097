-- ===== src/Orchestrator/AbMcts/Best.antt =====
-- The search loop of crates/tako-orchestrator/src/ab_mcts.rs: its iterations and the leaf it answers
-- with.
use tako_ai_core.Common.{
  ℕ, zero, suc, ◌≤◌, ◌≡◌, refl, sym, ap, ◌⊎◌, inl, inr, if◌then◌else◌, String, none, some, true,
  false, Bool-cases, List, [], ◌∷◌, All, In, here, there, length, arith,
}
use tako_ai_core.Core.Effects.{returns, Outcome-cases}
use tako_ai_core.Core.Float.{Float}
use tako_ai_core.Core.Types.{Principal}
use tako_ai_core.Orchestrator.Single.{Texts}
use tako_ai_core.Orchestrator.AbMcts.Rollout.{AbMcts}
use tako_ai_core.Orchestrator.AbMcts.{Sampling, IterationOutcome}
use tako_ai_core.Orchestrator.AbMcts.Search.{iterate, Progress, note, search}

-- What `<` on floats satisfies, also on NaN, which is below nothing and above nothing.
pub record IsStrict (F : Float) : Type 0 where
  pub irreflexive : (x : F.Real) → F.lt x x ≡ false
  pub transitive : (x y z : F.Real) → F.lt x y ≡ true → F.lt y z ≡ true → F.lt x z ≡ true

module _ {F : Float} (strict : IsStrict F) where
  abbrev larger : F.Real → F.Real → F.Real
  larger best score = if F.lt best score then score else best

  above_score : (best score : F.Real) → F.lt (larger best score) score ≡ false
  above_score best score = elim (Bool-cases (F.lt best score)) [
    | inl t ↦ rw (t, if◌then◌else◌) (strict.irreflexive score)
    | inr t ↦ rw (t, if◌then◌else◌) t
  ]

  above_both : (best score x : F.Real) → F.lt best x ≡ false → F.lt (larger best score) x ≡ false
  above_both best score x below = elim (Bool-cases (F.lt best score)) [
    | inr t ↦ rw (t, if◌then◌else◌) below
    | inl t ↦ elim (Bool-cases (F.lt score x)) [
      | inr u ↦ rw (t, if◌then◌else◌) u
      | inl u ↦ absurd (let up = strict.transitive best score x t u in ground arith)
    ]
  ]

module _ (F : Float) {Rng : Type 0} (S : Sampling F Rng) {W Stream : Type 0} (texts : Texts)
    (a : AbMcts W F.Real Stream) (principal : Principal) (prompt : String) where
  open F use {Real}

  -- The iterations that lead from one state of the search to another; only the last of them may
  -- bring the best score to the threshold.
  pub data Reaches
      : Progress F S → W → List (IterationOutcome F S) → Progress F S → W → Type 0 where
    done : {p : Progress F S} {w : W} → Reaches p w [] p w
    round :
        {p q : Progress F S} {w w' v : W} (o : IterationOutcome F S)
        {os : List (IterationOutcome F S)}
        → iterate F S texts a principal prompt p.nodes p.rng w ≡ returns (some o) w'
        → (os ≡ []) ⊎ (F.le a.min_confidence (note F S p o).best_score ≡ false)
        → Reaches (note F S p o) w' os q v
        → Reaches p w (o ∷ os) q v

  -- The loop runs until the threshold is met or the iterations are used up.
  pub search-Reaches :
      (left : ℕ) (p q : Progress F S) (w v : W)
      → search F S texts a principal left prompt p w ≡ returns (some q) v
      → (os : List (IterationOutcome F S)) × Reaches p w os q v
        × (length os ≤ left)
        × ((length os ≡ left) ⊎ (F.le a.min_confidence q.best_score ≡ true))
  unfolding search
  search-Reaches zero p q w v h =
      let same : p ≡ q = cc in
      let there_too : w ≡ v = cc in ([], rw (same, there_too) done, omega arith, inl refl)
  search-Reaches (suc left) p q w v h =
      elim (Outcome-cases (iterate F S texts a principal prompt p.nodes p.rng w)) [
        | inr (e, w', x) ↦ absurd (ground arith)
        | inl (none, w', x) ↦ absurd (ground arith)
        | inl (some o, w', x) ↦
            elim (Bool-cases (F.le a.min_confidence (note F S p o).best_score)) [
              | inl met ↦
                  let same : note F S p o ≡ q = ground arith in
                  let there_too : w' ≡ v = ground arith in
                  (
                    o ∷ [],
                    rw (sym same, sym there_too) (round o x (inl refl) done),
                    omega arith,
                    inr (rw (sym same) met),
                  )
              | inr unmet ↦
                  let goes : search F S texts a principal left prompt (note F S p o) w'
                      ≡ returns (some q) v =
                    rw (search, x, unmet) at h in
                  let (os, reaches, few, ends) = search-Reaches left (note F S p o) q w' v goes in
                  (
                    o ∷ os,
                    round o x (inr unmet) reaches,
                    omega (arith, few),
                    elim ends [ inl all_used ↦ inl (ap suc all_used) | inr met ↦ inr met ],
                  )
            ]
      ]

  -- a score below which the best score does not fall stays one
  keeps_above :
      {p q : Progress F S} {w v : W} {os : List (IterationOutcome F S)}
      → IsStrict F
      → Reaches p w os q v
      → (x : Real) → F.lt p.best_score x ≡ false
      → F.lt q.best_score x ≡ false
  keeps_above strict done x below = below
  keeps_above {p} strict (round o ran more rest) x below =
      keeps_above strict rest x (above_both strict p.best_score o.score x below)

  pub noted_above :
      {p q : Progress F S} {w v : W} {os : List (IterationOutcome F S)}
      → IsStrict F
      → Reaches p w os q v
      → All (λ o. F.lt q.best_score o.score ≡ false) os
  noted_above strict done = tt
  noted_above {p} strict (round o ran more rest) = (
    keeps_above strict rest o.score (above_score strict p.best_score o.score),
    noted_above strict rest,
  )

  -- where the best leaf comes from
  pub best_noted :
      {p q : Progress F S} {w v : W} {os : List (IterationOutcome F S)}
      → Reaches p w os q v
      → ((q.best_leaf ≡ p.best_leaf) × (q.best_score ≡ p.best_score))
        ⊎ ((o : IterationOutcome F S) × In o os
            × (q.best_leaf ≡ some o.leaf)
            × (q.best_score ≡ o.score))
  best_noted done = inl (refl, refl)
  best_noted {p} (round o ran more rest) = elim (best_noted rest) [
    | inr (o', i, leaf, score) ↦ inr (o', there i, leaf, score)
    | inl (leaf, score) ↦ elim (Bool-cases (F.lt p.best_score o.score)) [
      | inl better ↦
          inr (o, here, rw (better, if◌then◌else◌) at leaf, rw (better, if◌then◌else◌) at score)
      | inr worse ↦ inl (rw (worse, if◌then◌else◌) at leaf, rw (worse, if◌then◌else◌) at score)
    ]
  ]
