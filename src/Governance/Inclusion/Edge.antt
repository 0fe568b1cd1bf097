-- ===== src/Governance/Inclusion/Edge.antt =====
-- The inner `while` loop: the fuel of its model is enough.
use tako_ai_core.Common.{
  ℕ, zero, suc, ◌/◌, ◌≤◌, ◌≡◌, ◌⊎◌, inl, inr, true, not, ◌&&◌, ◌==◌, Bool-cases, arith,
}
use tako_ai_core.Governance.Inclusion.{is_odd, skip_edge}

skip_edge_done :
    (fuel fnode sn : ℕ)
    → fnode ≤ fuel
    → (is_odd (skip_edge fuel fnode sn).0 ≡ true) ⊎ ((skip_edge fuel fnode sn).0 ≡ 0)
unfolding skip_edge
skip_edge_done zero fnode sn le = inr (omega arith)
skip_edge_done (suc fuel) fnode sn le = elim (Bool-cases (not (is_odd fnode) && not (fnode == 0))) [
  | inl t ↦ rw t (skip_edge_done fuel (fnode / 2) (sn / 2) (ground arith))
  | inr t ↦ rw t (ground arith)
]

-- With `fnode` as its fuel the model of the loop runs until its condition fails: the index it
-- stops at is odd or 0.
pub skip_edge_ends :
    (fnode sn : ℕ)
    → (is_odd (skip_edge fnode fnode sn).0 ≡ true) ⊎ ((skip_edge fnode fnode sn).0 ≡ 0)
skip_edge_ends fnode sn = skip_edge_done fnode fnode sn (omega arith)
