-- ===== src/Governance/State/Steps.antt =====
-- The steps of crates/tako-governance/src/sigstore_state.rs and what a call of one tells: the helpers for
-- the proofs about the file.
use tako_ai_core.Common.{◌≡◌, ◌⊎◌, inl, inr, String, arith}
use tako_ai_core.Core.Error.{TakoError, Text}
use tako_ai_core.Core.Effects.{
  Io, Outcome, returns, raises, ◌>>=◌, Outcome-cases, ForeignOutcome, ForeignOutcome-cases, comes,
  breaks_off,
}
use tako_ai_core.Governance.State.{Serde, Reading, holds, Files, guarded}

module _ {W Bytes : Type 0} (read : W → Reading Bytes) (old : Reading Bytes) (body : Bytes) where
  -- what may be in the file after a call that replaces `old` by `body`
  abbrev pub Leaves : Outcome W (Unit {0}) → Type 0
  Leaves (returns u w) = read w ≡ holds body
  Leaves (raises e w) = (read w ≡ old) ⊎ (read w ≡ holds body)

  pub bind-Leaves :
      {A : Type 0} (m : Io W A) (k : A → Io W (Unit {0})) (w : W)
      → ((a : A) (w' : W) → m w ≡ returns a w' → Leaves (k a w'))
      → ((e : TakoError) (w' : W) → m w ≡ raises e w' → read w' ≡ old)
      → Leaves ((m >>= k) w)
  bind-Leaves m k w then_ok keeps = elim (Outcome-cases (m w)) [
    | inl (a, w', x) ↦ rw (Leaves, ◌>>=◌, x) (then_ok a w' x)
    | inr (e, w', x) ↦ rw (Leaves, ◌>>=◌, x) (inl (keeps e w' x))
  ]

module _ {W Bytes Tmp : Type 0} (serde : Serde Bytes) (files : Files W Bytes Tmp)
    (path : String) where
  module _ (tmp : Tmp) (f : Text → Text) (step : W → ForeignOutcome W (Unit {0})) (w : W) where
    pub guarded-returns :
        (u : Unit {0}) (w' : W)
        → guarded serde files path tmp f step w ≡ returns u w'
        → step w ≡ comes u w'
    unfolding guarded
    guarded-returns u w' h = elim (ForeignOutcome-cases (step w)) [
      | inl (b, v, x) ↦ ground arith
      | inr (e, v, x) ↦ absurd (ground arith)
    ]

    pub guarded-raises :
        (e : TakoError) (w' : W)
        → guarded serde files path tmp f step w ≡ raises e w'
        → (m : Text) × (v : W) × (step w ≡ breaks_off m v) × (files.discard tmp v ≡ w')
    unfolding guarded
    guarded-raises e w' h = elim (ForeignOutcome-cases (step w)) [
      | inl (b, v, x) ↦ absurd (ground arith)
      | inr (m, v, x) ↦ (m, v, x, ground arith)
    ]
