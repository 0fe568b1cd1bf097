-- ===== src/Governance/Bundle/Atomic.antt =====
-- The step on the anchor in Governance/Bundle against the loop of crates/tako-governance/src/sigstore.rs
-- that it stands for.
use tako_ai_core.Common.{
  ℕ, zero, suc, ◌≤◌, ◌<◌, ◌≡◌, refl, sym, ap, ◌∙◌, ◌⊎◌, inl, inr, Bool, true, false, Bool-cases,
  ltb, if◌then◌else◌, List, [], ◌∷◌, arith,
}
use tako_ai_core.Core.Error.{TakoError}
use tako_ai_core.Core.Effects.{returns, raises}
use tako_ai_core.Governance.Freshness.{
  Shared, Phase, loading, trying, accepted, rejected, larger, attempt, access, run_schedule,
}
use tako_ai_core.Governance.Bundle.{Anchor, went_back, advance_anchor}

-- one call of a size, in a phase, with nobody else at the anchor
abbrev pub alone : ℕ → Phase → ℕ → List ℕ → Shared
alone size phase anchor log = record {
  anchor = anchor;
  verifies = record { tree_size = size; phase = phase } ∷ [];
  log = log;
}

-- exchanges of which so many fail spuriously before one does not
abbrev exchanges : ℕ → List (ℕ × Bool)
exchanges zero = (0, false) ∷ []
exchanges (suc failures) = (0, true) ∷ exchanges failures

-- the turns of a call: its load and its exchanges
abbrev pub turns_of : ℕ → List (ℕ × Bool)
turns_of failures = (0, false) ∷ exchanges failures

stays_rejected :
    (failures size seen anchor : ℕ) (log : List ℕ)
    → run_schedule (exchanges failures) (alone size (rejected seen) anchor log)
      ≡ alone size (rejected seen) anchor log
unfolding run_schedule access attempt
stays_rejected zero size seen anchor log = refl
stays_rejected (suc failures) size seen anchor log = stays_rejected failures size seen anchor log

stale :
    (failures size anchor : ℕ) (log : List ℕ)
    → size < anchor
    → run_schedule (exchanges failures) (alone size (trying anchor) anchor log)
      ≡ alone size (rejected anchor) anchor log
unfolding run_schedule access attempt
stale zero size anchor log below = ground arith
stale (suc failures) size anchor log below =
    let under : ltb size anchor ≡ true = ground arith in
    rw (under, if◌then◌else◌, access, attempt, run_schedule)
      (stays_rejected failures size anchor anchor log)

fresh :
    (failures size anchor : ℕ) (log : List ℕ)
    → anchor ≤ size
    → run_schedule (exchanges failures) (alone size (trying anchor) anchor log)
      ≡ alone size (accepted size) size (size ∷ log)
unfolding run_schedule access attempt
fresh zero size anchor log above = ground arith
fresh (suc failures) size anchor log above =
    let not_under : ltb size anchor ≡ false = ground arith in
    rw (not_under, if◌then◌else◌, access, attempt, run_schedule)
      (fresh failures size anchor log above)

module _ {W : Type 0} (anchor : Anchor W) where
  -- The step does what the loop does, run alone with any number of spurious failures: both accept and
  -- leave the same anchor, or both reject and leave the anchor as it was.
  pub advance_anchor-run_schedule :
      (failures size : ℕ) (log : List ℕ) (w : W)
      → let s = run_schedule (turns_of failures) (alone size loading (anchor.load w) log) in
        ((advance_anchor anchor size w ≡ returns tt (anchor.store s.anchor w))
          × (s ≡ alone size (accepted size) size (size ∷ log)))
        ⊎ ((e : TakoError) × (advance_anchor anchor size w ≡ raises e w)
            × (s ≡ alone size (rejected (anchor.load w)) (anchor.load w) log))
  unfolding advance_anchor run_schedule access attempt
  advance_anchor-run_schedule failures size log w = elim (Bool-cases (ltb size (anchor.load w))) [
    | inl under ↦ inr (
      went_back size (anchor.load w),
      rw (advance_anchor, under) refl,
      stale failures size (anchor.load w) log (ground arith),
    )
    | inr not_under ↦
        let above : anchor.load w ≤ size = ground arith in
        let ends = fresh failures size (anchor.load w) log above in
        let is_size : larger size (anchor.load w) ≡ size = ground arith in
        let steps : advance_anchor anchor size w ≡ returns tt (anchor.store size w) =
          rw (advance_anchor, not_under, is_size) refl in
        inl (steps ∙ ap (λ s. returns tt (anchor.store s.anchor w)) (sym ends), ends)
  ]
