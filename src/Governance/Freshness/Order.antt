-- ===== src/Governance/Freshness/Order.antt =====
-- What no interleaving of verifications can break.
use tako_ai_core.Common.{
  ℕ, zero, suc, ◌≤◌, ◌<◌, ◌≡◌, refl, ◌⊎◌, inl, inr, Bool, false, List, [], ◌∷◌, All, arith,
}
use tako_ai_core.Governance.Freshness.{
  Phase, loading, trying, accepted, rejected, Verify, Shared, attempt, access, run_schedule,
}

-- Accepted sizes never went down, and none is above the anchor.
abbrev pub IsFresh : ℕ → List ℕ → Type 0
IsFresh anchor [] = Unit
IsFresh anchor (latest ∷ before) = (latest ≤ anchor) × IsFresh latest before

-- What a call may rely on: what it loaded, and what it accepted, is at most the anchor, and what it
-- rejected its checkpoint for is a larger size that the anchor had reached.
abbrev pub IsJustified : ℕ → ℕ → Phase → Type 0
IsJustified anchor size loading = Unit
IsJustified anchor size (trying prev) = prev ≤ anchor
IsJustified anchor size (accepted n) = (n ≡ size) × (size ≤ anchor)
IsJustified anchor size (rejected prev) = (size < prev) × (prev ≤ anchor)

abbrev AllJustified : ℕ → List Verify → Type 0
AllJustified anchor = All (λ v. IsJustified anchor v.tree_size v.phase)

abbrev pub IsConsistent : Shared → Type 0
IsConsistent s = IsFresh s.anchor s.log × AllJustified s.anchor s.verifies

IsFresh-weaken : (a b : ℕ) (log : List ℕ) → a ≤ b → IsFresh a log → IsFresh b log
IsFresh-weaken a b [] le h = tt
IsFresh-weaken a b (x ∷ log) le h = (omega (arith, h.0), h.1)

IsJustified-weaken :
    (a b size : ℕ) (p : Phase) → a ≤ b → IsJustified a size p → IsJustified b size p
IsJustified-weaken a b size loading le h = tt
IsJustified-weaken a b size (trying prev) le h = omega arith
IsJustified-weaken a b size (accepted n) le h = (h.0, omega (arith, h.1))
IsJustified-weaken a b size (rejected prev) le h = (h.0, omega (arith, h.1))

AllJustified-weaken : (a b : ℕ) (vs : List Verify) → a ≤ b → AllJustified a vs → AllJustified b vs
AllJustified-weaken a b [] le h = tt
AllJustified-weaken a b (v ∷ vs) le h =
    (IsJustified-weaken a b v.tree_size v.phase le h.0, AllJustified-weaken a b vs le h.1)

-- what one access keeps
abbrev Kept : ℕ → ℕ × List ℕ × Verify → Type 0
Kept anchor (anchor', log', v') =
    (anchor ≤ anchor') × IsFresh anchor' log' × IsJustified anchor' v'.tree_size v'.phase

-- the three ways a comparison and exchange can go
trying-cases :
    (spurious : Bool) (anchor : ℕ) (log : List ℕ) (v : Verify) (prev : ℕ)
    → let a = attempt spurious anchor log v (trying prev) in
      ((v.tree_size < prev) × (a ≡ (anchor, log, record v { phase = rejected prev })))
      ⊎ ((prev ≤ v.tree_size)
          × (anchor ≡ prev)
          × (a ≡ (v.tree_size, v.tree_size ∷ log, record v { phase = accepted v.tree_size })))
      ⊎ (a ≡ (anchor, log, record v { phase = trying anchor }))
unfolding attempt
trying-cases spurious anchor log v prev = ground arith

attempt-Kept :
    (spurious : Bool) (anchor : ℕ) (log : List ℕ) (v : Verify) (p : Phase)
    → v.phase ≡ p
    → IsFresh anchor log
    → IsJustified anchor v.tree_size p
    → Kept anchor (attempt spurious anchor log v p)
unfolding attempt
attempt-Kept spurious anchor log v loading e f j = (omega arith, f, omega arith)
attempt-Kept spurious anchor log v (trying prev) e f j =
    elim (trying-cases spurious anchor log v prev) [
      | inl (small, r) ↦ rw r (omega arith, f, (small, j))
      | inr (inl (large, same, r)) ↦ rw r (
        omega arith,
        (omega arith, IsFresh-weaken anchor v.tree_size log (omega arith) f),
        (refl, omega arith),
      )
      | inr (inr r) ↦ rw r (omega arith, f, omega arith)
    ]
attempt-Kept spurious anchor log v (accepted n) e f j = (omega arith, f, rw e j)
attempt-Kept spurious anchor log v (rejected n) e f j = (omega arith, f, rw e j)

access-IsConsistent :
    (i : ℕ) (spurious : Bool) (anchor : ℕ) (log : List ℕ) (vs : List Verify)
    → IsFresh anchor log
    → AllJustified anchor vs
    → (anchor ≤ (access i spurious anchor log vs).anchor)
      × IsConsistent (access i spurious anchor log vs)
unfolding access
access-IsConsistent i spurious anchor log [] f a = (omega arith, (f, tt))
access-IsConsistent zero spurious anchor log (v ∷ vs) f a =
    let (up, f', j) = attempt-Kept spurious anchor log v v.phase refl f a.0 in
    (up, (f', (j, AllJustified-weaken anchor _ vs up a.1)))
access-IsConsistent (suc i) spurious anchor log (v ∷ vs) f a =
    let (up, (f', a')) = access-IsConsistent i spurious anchor log vs f a.1 in
    (up, (f', (IsJustified-weaken anchor _ v.tree_size v.phase up a.0, a')))

-- Whatever the interleaving and the spurious failures, the anchor never goes down, accepted tree
-- sizes never go down and stay at most the anchor, and every rejected checkpoint was smaller than
-- an anchor that had been reached.
pub run_schedule-IsConsistent :
    (turns : List (ℕ × Bool)) (s : Shared)
    → IsConsistent s
    → (s.anchor ≤ (run_schedule turns s).anchor) × IsConsistent (run_schedule turns s)
unfolding run_schedule
run_schedule-IsConsistent [] s c = (omega arith, c)
run_schedule-IsConsistent ((i, spurious) ∷ rest) s c =
    let (up, c') = access-IsConsistent i spurious s.anchor s.log s.verifies c.0 c.1 in
    let (up', c'') =
      run_schedule-IsConsistent rest (access i spurious s.anchor s.log s.verifies) c' in
    (omega arith, c'')

abbrev pub single_call : ℕ → ℕ → List ℕ → Shared
single_call size anchor log = record {
  anchor = anchor;
  verifies = record { tree_size = size; phase = loading } ∷ [];
  log = log;
}

abbrev pub two_turns : List (ℕ × Bool)
two_turns = (0, false) ∷ (0, false) ∷ []

-- A call that runs alone, with no spurious failure, is done after its load and one exchange: it
-- accepts exactly if its tree size is at least the anchor, which then is that size.
pub run_schedule_alone :
    (size anchor : ℕ) (log : List ℕ)
    → ((anchor ≤ size)
        × (run_schedule two_turns (single_call size anchor log)
            ≡ record (single_call size anchor log) {
              anchor = size;
              verifies = record { tree_size = size; phase = accepted size } ∷ [];
              log = size ∷ log;
            }))
      ⊎ ((size < anchor)
          × (run_schedule two_turns (single_call size anchor log)
              ≡ record (single_call size anchor log) {
                verifies = record { tree_size = size; phase = rejected anchor } ∷ [];
              }))
unfolding run_schedule access attempt
run_schedule_alone size anchor log = ground arith
