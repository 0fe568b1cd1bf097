-- ===== src/Governance/Freshness.antt =====
-- The freshness anchor of crates/tako-governance/src/sigstore.rs: the largest Rekor tree size seen,
-- an atomic that all verifications on one verifier share.
pub mod Order
use tako_ai_core.Common.{
  ℕ, zero, suc, Bool, true, false, not, ◌&&◌, ltb, leb, ◌==◌, if◌then◌else◌, List, [], ◌∷◌,
}

-- Where a verification stands in the loop: before the first load, with the value `prev` that it
-- compares with, or done. The error of a rejection names the value that was observed.
pub data Phase : Type 0 where
  loading : Phase
  trying : ℕ → Phase
  accepted rejected : ℕ → Phase

-- one call of `verify_bundle` at the loop, with its checkpoint's tree size
pub record Verify : Type 0 where
  pub tree_size : ℕ
  pub phase : Phase

-- The anchor, all calls, and the tree sizes that were accepted, the latest first.
pub record Shared : Type 0 where
  pub anchor : ℕ
  pub verifies : List Verify
  pub log : List ℕ

abbrev pub larger : ℕ → ℕ → ℕ
larger a b = if leb a b then b else a

-- One atomic access of one call: the load, or the comparison with `prev` and then
-- `compare_exchange_weak`, which may also fail spuriously. `verifies` holds just this call.
unfoldable pub attempt : Bool → ℕ → List ℕ → Verify → Phase → ℕ × List ℕ × Verify
attempt spurious anchor log v loading = (anchor, log, record v { phase = trying anchor })
attempt spurious anchor log v (trying prev) =
    if ltb v.tree_size prev
    then (anchor, log, record v { phase = rejected prev })
    else if not spurious && (anchor == prev)
    then (larger v.tree_size prev, v.tree_size ∷ log, record v { phase = accepted v.tree_size })
    else (anchor, log, record v { phase = trying anchor })
attempt spurious anchor log v (accepted n) = (anchor, log, v)
attempt spurious anchor log v (rejected n) = (anchor, log, v)

-- the access of the call with that number
unfoldable pub access : ℕ → Bool → ℕ → List ℕ → List Verify → Shared
access i spurious anchor log [] = record { anchor = anchor; verifies = []; log = log }
access zero spurious anchor log (v ∷ vs) =
    let (anchor', log', v') = attempt spurious anchor log v v.phase in
    record { anchor = anchor'; verifies = v' ∷ vs; log = log' }
access (suc i) spurious anchor log (v ∷ vs) =
    let s = access i spurious anchor log vs in record s { verifies = v ∷ s.verifies }

-- A schedule says whose turn it is, and whether an exchange fails spuriously.
unfoldable pub run_schedule : List (ℕ × Bool) → Shared → Shared
run_schedule [] s = s
run_schedule ((i, spurious) ∷ rest) s =
    run_schedule rest (access i spurious s.anchor s.log s.verifies)
