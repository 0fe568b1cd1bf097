-- ===== src/Core/Effects.antt =====
-- Asynchronous calls that may fail. What they read and change outside (providers, networks,
-- clocks, random numbers) is a state `W` that the calls pass on.
use tako_ai_core.Common.{◌≡◌, refl, ◌⊎◌, inl, inr, arith}
use tako_ai_core.Core.Error.{TakoError, Text}

-- `Result<A, TakoError>`
pub data Result (A : Type 0) : Type 0 where
  ok : A → Result A
  err : TakoError → Result A

-- the result of a call, and what it left behind
pub data Outcome (W A : Type 0) : Type 0 where
  returns : A → W → Outcome W A
  raises : TakoError → W → Outcome W A

abbrev pub Io : Type 0 → Type 0 → Type 0
Io W A = W → Outcome W A

infixl 5 ◌>>=◌ ◌>>◌
abbrev pub ◌>>=◌ : {W A B : Type 0} → Io W A → (A → Io W B) → Io W B
◌>>=◌ m f w = elim (m w) [ returns a w' ↦ f a w' | raises e w' ↦ raises e w' ]

abbrev pub ◌>>◌ : {W A B : Type 0} → Io W A → Io W B → Io W B
m >> k = m >>= λ _. k

abbrev pub pure : {W A : Type 0} → A → Io W A
pure a w = returns a w

abbrev pub fail : {W A : Type 0} → TakoError → Io W A
fail e w = raises e w

abbrev pub lift : {W A : Type 0} → Result A → Io W A
lift (ok a) w = returns a w
lift (err e) w = raises e w

-- `Ok(a) => Ok(f a)` on a pure result
abbrev pub and_then : {A B : Type 0} → Result A → (A → Result B) → Result B
and_then (ok a) f = f a
and_then (err e) f = err e

pub Result-cases :
    {A : Type 0} (r : Result A) → ((a : A) × (r ≡ ok a)) ⊎ ((e : TakoError) × (r ≡ err e))
Result-cases (ok a) = inl (a, refl)
Result-cases (err e) = inr (e, refl)

pub Outcome-cases :
    {W A : Type 0} (o : Outcome W A)
    → ((a : A) × (w : W) × (o ≡ returns a w)) ⊎ ((e : TakoError) × (w : W) × (o ≡ raises e w))
Outcome-cases (returns a w) = inl (a, w, refl)
Outcome-cases (raises e w) = inr (e, w, refl)

-- Code of other crates fails with an error of its own, of which only the message is read.
pub data Foreign (A : Type 0) : Type 0 where
  gives : A → Foreign A
  breaks : Text → Foreign A

pub data ForeignOutcome (W A : Type 0) : Type 0 where
  comes : A → W → ForeignOutcome W A
  breaks_off : Text → W → ForeignOutcome W A

-- `map_err`
abbrev pub map_err : {A : Type 0} → (Text → TakoError) → Foreign A → Result A
map_err f (gives a) = ok a
map_err f (breaks m) = err (f m)

abbrev pub map_err_io : {W A : Type 0} → (Text → TakoError) → (W → ForeignOutcome W A) → Io W A
map_err_io f m w = elim (m w) [ comes a w' ↦ returns a w' | breaks_off msg w' ↦ raises (f msg) w' ]

pub Foreign-cases :
    {A : Type 0} (r : Foreign A) → ((a : A) × (r ≡ gives a)) ⊎ ((m : Text) × (r ≡ breaks m))
Foreign-cases (gives a) = inl (a, refl)
Foreign-cases (breaks m) = inr (m, refl)

-- a sequence that returns is two calls that return
pub bind-returns :
    {W A B : Type 0} (m : Io W A) (f : A → Io W B) (w v : W) (b : B)
    → (m >>= f) w ≡ returns b v
    → (a : A) × (w' : W) × (m w ≡ returns a w') × (f a w' ≡ returns b v)
bind-returns m f w v b h = elim (Outcome-cases (m w)) [
  | inl (a, w', x) ↦ (a, w', x, ground arith)
  | inr (e, w', x) ↦ absurd (ground arith)
]

pub lift-returns :
    {W A : Type 0} (r : Result A) (w v : W) (a : A) → lift r w ≡ returns a v → (r ≡ ok a) × (w ≡ v)
lift-returns (ok b) w v a h = (cc, cc)
lift-returns (err e) w v a h = cc

pub and_then-ok :
    {A B : Type 0} (r : Result A) (f : A → Result B) (b : B)
    → and_then r f ≡ ok b
    → (a : A) × (r ≡ ok a) × (f a ≡ ok b)
and_then-ok (ok a) f b h = (a, refl, h)
and_then-ok (err e) f b h = cc

pub map_err-ok :
    {A : Type 0} (f : Text → TakoError) (r : Foreign A) (a : A) → map_err f r ≡ ok a → r ≡ gives a
map_err-ok f (gives b) a h = cc
map_err-ok f (breaks m) a h = cc

pub ForeignOutcome-cases :
    {W A : Type 0} (o : ForeignOutcome W A)
    → ((a : A) × (w : W) × (o ≡ comes a w)) ⊎ ((e : Text) × (w : W) × (o ≡ breaks_off e w))
ForeignOutcome-cases (comes a w) = inl (a, w, refl)
ForeignOutcome-cases (breaks_off e w) = inr (e, w, refl)

-- the world after a call
abbrev pub world_of : {W A : Type 0} → ForeignOutcome W A → W
world_of (comes a w) = w
world_of (breaks_off e w) = w

module _ {W A : Type 0} (f : Text → TakoError) (m : W → ForeignOutcome W A) (w : W) where
  pub map_err_io-returns : (a : A) (w' : W) → map_err_io f m w ≡ returns a w' → m w ≡ comes a w'
  map_err_io-returns a w' h = elim (ForeignOutcome-cases (m w)) [
    | inl (b, v, x) ↦ ground arith
    | inr (e, v, x) ↦ absurd (ground arith)
  ]

  pub map_err_io-raises :
      (e : TakoError) (w' : W) → map_err_io f m w ≡ raises e w' → world_of (m w) ≡ w'
  map_err_io-raises e w' h = elim (ForeignOutcome-cases (m w)) [
    | inl (b, v, x) ↦ absurd (ground arith)
    | inr (e', v, x) ↦ ground arith
  ]

-- a sequence that returns, by its first step: a test, a result of other code, or a call of other code
module _ {W B : Type 0} (w v : W) (b : B) where
  pub test-returns :
      (r : Result (Unit {0})) (k : Io W B)
      → (lift r >> k) w ≡ returns b v
      → (r ≡ ok tt) × (k w ≡ returns b v)
  test-returns (ok u) k h = (refl, h)
  test-returns (err e) k h = cc

  pub given-returns :
      {A : Type 0} (f : Text → TakoError) (r : Foreign A) (k : A → Io W B)
      → (lift (map_err f r) >>= k) w ≡ returns b v
      → (a : A) × (r ≡ gives a) × (k a w ≡ returns b v)
  given-returns f (gives a) k h = (a, refl, h)
  given-returns f (breaks m) k h = cc

  pub call-returns :
      {A : Type 0} (f : Text → TakoError) (m : W → ForeignOutcome W A) (k : A → Io W B)
      → (map_err_io f m >>= k) w ≡ returns b v
      → (a : A) × (w' : W) × (m w ≡ comes a w') × (k a w' ≡ returns b v)
  call-returns f m k h =
      let (a, w', x, rest) = bind-returns (map_err_io f m) k w v b h in
      (a, w', map_err_io-returns f m w a w' x, rest)
