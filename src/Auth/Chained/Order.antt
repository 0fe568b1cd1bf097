-- ===== src/Auth/Chained/Order.antt =====
-- Which resolver decides, and which were asked before it.
use tako_ai_core.Common.{
  String, ◌≡◌, ◌↔◌, refl, sym, ap, subst, ◌∙◌, inl, inr, Option, some, List, [], ◌∷◌, ◌++◌, true,
  false, Bool-cases, arith,
}
use tako_ai_core.Core.Error.{TakoError}
use tako_ai_core.Core.Effects.{Io, Outcome, returns, raises, Outcome-cases}
use tako_ai_core.Core.Types.{Principal}
use tako_ai_core.Auth.Chained.{
  ShortCircuitPolicy, ChildEntry, ChainedAuthResolver, should_short_circuit, try_children, resolve,
}

module _ {W : Type 0} (chain : ShortCircuitPolicy) (token : String) where
  abbrev asks : ChildEntry W → Io W Principal
  asks entry = entry.resolver.resolve token

  -- The children were asked in turn, and each raised an error that does not end the chain. The
  -- last error before and after stands beside the state.
  pub data Falls : Option TakoError → List (ChildEntry W) → W → Option TakoError → W → Type 0 where
    start : {l : Option TakoError} {w : W} → Falls l [] w l w
    asked :
        {l l' : Option TakoError} {entry : ChildEntry W} {rest : List (ChildEntry W)} {w w' w'' : W}
        {e : TakoError}
        → entry.resolver.resolve token w ≡ raises e w'
        → should_short_circuit chain entry.policy e ≡ false
        → Falls (some e) rest w' l' w''
        → Falls l (entry ∷ rest) w l' w''

  -- A child accepts, or ends the chain, after those before it fell through; or all fell through,
  -- and the last error is what is left.
  pub data Resolves (l : Option TakoError) (cs : List (ChildEntry W)) (w : W)
      : Outcome W Principal → Type 0 where
    accepted :
        {before : List (ChildEntry W)} (entry : ChildEntry W) (after : List (ChildEntry W))
        {l' : Option TakoError} {w' w'' : W} {p : Principal}
        → cs ≡ before ++ entry ∷ after
        → Falls l before w l' w'
        → entry.resolver.resolve token w' ≡ returns p w''
        → Resolves l cs w (returns p w'')
    halted :
        {before : List (ChildEntry W)} (entry : ChildEntry W) (after : List (ChildEntry W))
        {l' : Option TakoError} {w' w'' : W} {e : TakoError}
        → cs ≡ before ++ entry ∷ after
        → Falls l before w l' w'
        → entry.resolver.resolve token w' ≡ raises e w''
        → should_short_circuit chain entry.policy e ≡ true
        → Resolves l cs w (raises e w'')
    exhausted : {w' : W} {e : TakoError} → Falls l cs w (some e) w' → Resolves l cs w (raises e w')

  extend :
      {l : Option TakoError} {entry : ChildEntry W} {rest : List (ChildEntry W)} {w w' : W}
      {e : TakoError} {o : Outcome W Principal}
      → entry.resolver.resolve token w ≡ raises e w'
      → should_short_circuit chain entry.policy e ≡ false
      → Resolves (some e) rest w' o
      → Resolves l (entry ∷ rest) w o
  extend {entry = entry} h s (accepted x after c f a) =
      accepted x after (ap (λ r. entry ∷ r) c) (asked h s f) a
  extend {entry = entry} h s (halted x after c f a t) =
      halted x after (ap (λ r. entry ∷ r) c) (asked h s f) a t
  extend h s (exhausted f) = exhausted (asked h s f)

  try-accepted :
      (l : Option TakoError) (entry : ChildEntry W) (rest : List (ChildEntry W)) (w w' : W)
      (p : Principal)
      → entry.resolver.resolve token w ≡ returns p w'
      → try_children chain token (entry ∷ rest) l w ≡ returns p w'
  unfolding try_children
  try-accepted l entry rest w w' p h = ground arith

  try-halted :
      (l : Option TakoError) (entry : ChildEntry W) (rest : List (ChildEntry W)) (w w' : W)
      (e : TakoError)
      → entry.resolver.resolve token w ≡ raises e w'
      → should_short_circuit chain entry.policy e ≡ true
      → try_children chain token (entry ∷ rest) l w ≡ raises e w'
  unfolding try_children
  try-halted l entry rest w w' e h t = ground arith

  try-falls :
      (l : Option TakoError) (entry : ChildEntry W) (rest : List (ChildEntry W)) (w w' : W)
      (e : TakoError)
      → entry.resolver.resolve token w ≡ raises e w'
      → should_short_circuit chain entry.policy e ≡ false
      → try_children chain token (entry ∷ rest) l w ≡ try_children chain token rest (some e) w'
  unfolding try_children
  try-falls l entry rest w w' e h s = ground arith

  first_child :
      (l : Option TakoError) (entry : ChildEntry W) (rest : List (ChildEntry W)) (w : W)
      → ((e : TakoError) (w' : W)
          → Resolves (some e) rest w' (try_children chain token rest (some e) w'))
      → Resolves l (entry ∷ rest) w (try_children chain token (entry ∷ rest) l w)
  first_child l entry rest w later = elim (Outcome-cases (asks entry w)) [
    | inl (p, w', h) ↦
        rw (try-accepted l entry rest w w' p h) (accepted {before = []} entry rest refl start h)
    | inr (e, w', h) ↦ elim (Bool-cases (should_short_circuit chain entry.policy e)) [
      | inl t ↦
          rw (try-halted l entry rest w w' e h t) (halted {before = []} entry rest refl start h t)
      | inr s ↦ rw (try-falls l entry rest w w' e h s) (extend h s (later e w'))
    ]
  ]

  after_error :
      (cs : List (ChildEntry W)) (e : TakoError) (w : W)
      → Resolves (some e) cs w (try_children chain token cs (some e) w)
  unfolding try_children
  after_error [] e w = exhausted start
  after_error (entry ∷ rest) e w =
      first_child (some e) entry rest w (λ e' w'. after_error rest e' w')

  -- What fell through can be cut off.
  try-append :
      {l l' : Option TakoError} {before : List (ChildEntry W)} {w w' : W}
      → Falls l before w l' w'
      → (after : List (ChildEntry W))
      → try_children chain token (before ++ after) l w ≡ try_children chain token after l' w'
  try-append start after = refl
  try-append (asked h s f) after = try-falls _ _ _ _ _ _ h s ∙ try-append f after

  try-nil : (e : TakoError) (w : W) → try_children chain token [] (some e) w ≡ raises e w
  unfolding try_children
  try-nil e w = refl

  try-exhausted :
      {l : Option TakoError} {cs : List (ChildEntry W)} {w w' : W} {e : TakoError}
      → Falls l cs w (some e) w'
      → try_children chain token cs l w ≡ raises e w'
  try-exhausted start = try-nil _ _
  try-exhausted (asked h s f) = try-falls _ _ _ _ _ _ h s ∙ try-exhausted f

  Resolves-unique :
      {l : Option TakoError} {cs : List (ChildEntry W)} {w : W} {o : Outcome W Principal}
      → Resolves l cs w o
      → try_children chain token cs l w ≡ o
  Resolves-unique (accepted x after c f h) =
      rw c (try-append f (x ∷ after) ∙ try-accepted _ _ _ _ _ _ h)
  Resolves-unique (halted x after c f h t) =
      rw c (try-append f (x ∷ after) ∙ try-halted _ _ _ _ _ _ h t)
  Resolves-unique (exhausted f) = try-exhausted f

module _ {W : Type 0} (c : ChainedAuthResolver W) (token : String) where
  resolve-try :
      (entry : ChildEntry W) (rest : List (ChildEntry W)) (w : W)
      → c.children ≡ entry ∷ rest
      → resolve c token w ≡ try_children c.short_circuit_policy token (entry ∷ rest) Option.none w
  unfolding resolve
  resolve-try entry rest w h = rw (h, resolve) (rw h)

  -- A chain with a child resolves to `o` exactly when `o` is the first acceptance, the first error
  -- that ends the chain, or else the last error, of the children asked in order.
  pub resolve-Resolves :
      (entry : ChildEntry W) (rest : List (ChildEntry W)) (w : W) (o : Outcome W Principal)
      → c.children ≡ entry ∷ rest
      → Resolves c.short_circuit_policy token Option.none (entry ∷ rest) w o
        ↔ (resolve c token w ≡ o)
  resolve-Resolves entry rest w o h = (
    (λ r. resolve-try entry rest w h ∙ Resolves-unique _ token r),
    λ e.
        subst (Resolves c.short_circuit_policy token Option.none (entry ∷ rest) w)
          (sym (resolve-try entry rest w h) ∙ e)
          (first_child _ token Option.none entry rest w (λ e' w'. after_error _ token rest e' w')),
  )
