-- ===== src/Runtime/Fallback/Order.antt =====
-- Which provider answers, and which are asked before it.
use tako_ai_core.Common.{
  ◌≡◌, ◌↔◌, subst, ◌∙◌, true, false, Bool-cases, inl, inr, List, [], ◌∷◌, arith,
}
use tako_ai_core.Core.Error.{TakoError, is_transient}
use tako_ai_core.Core.Effects.{Io, Outcome, returns, raises, Outcome-cases}
use tako_ai_core.Core.Types.{Principal, ChatRequest, ChatResponse}
use tako_ai_core.Runtime.Fallback.{FallbackProvider, cascade, try_all, calls, chat, stream}

module _ {W A : Type 0} where
  -- The calls are made in order, each from the state that the one before left. The first success
  -- or permanent error is the answer, and a transient error only where no call is left.
  pub data Answers : Io W A → List (Io W A) → W → Outcome W A → Type 0 where
    success :
        {call : Io W A} {rest : List (Io W A)} {w w' : W} {a : A}
        → call w ≡ returns a w'
        → Answers call rest w (returns a w')
    permanent :
        {call : Io W A} {rest : List (Io W A)} {w w' : W} {e : TakoError}
        → call w ≡ raises e w'
        → is_transient e ≡ false
        → Answers call rest w (raises e w')
    exhausted :
        {call : Io W A} {w w' : W} {e : TakoError}
        → call w ≡ raises e w'
        → is_transient e ≡ true
        → Answers call [] w (raises e w')
    falls_back :
        {call next : Io W A} {rest : List (Io W A)} {w w' : W} {e : TakoError} {o : Outcome W A}
        → call w ≡ raises e w'
        → is_transient e ≡ true
        → Answers next rest w' o
        → Answers call (next ∷ rest) w o

  -- One transient error is one provider less.
  try_all-next :
      (call next : Io W A) (rest : List (Io W A)) (w w' : W) (e : TakoError)
      → call w ≡ raises e w'
      → is_transient e ≡ true
      → try_all call (next ∷ rest) w ≡ try_all next rest w'
  unfolding try_all cascade
  try_all-next call next rest w w' e h t = ground arith

  try_all-success :
      (call : Io W A) (rest : List (Io W A)) (w w' : W) (a : A)
      → call w ≡ returns a w'
      → try_all call rest w ≡ returns a w'
  unfolding try_all
  try_all-success call rest w w' a h = ground arith

  try_all-permanent :
      (call : Io W A) (rest : List (Io W A)) (w w' : W) (e : TakoError)
      → call w ≡ raises e w'
      → is_transient e ≡ false
      → try_all call rest w ≡ raises e w'
  unfolding try_all
  try_all-permanent call rest w w' e h t = ground arith

  try_all-exhausted :
      (call : Io W A) (w w' : W) (e : TakoError)
      → call w ≡ raises e w'
      → try_all call [] w ≡ raises e w'
  unfolding try_all cascade
  try_all-exhausted call w w' e h = ground arith

  -- Only a transient error of the first call leads to the calls behind it.
  unless_transient :
      (call : Io W A) (rest : List (Io W A)) (w : W)
      → ((e : TakoError) (w' : W)
          → call w ≡ raises e w'
          → is_transient e ≡ true
          → Answers call rest w (try_all call rest w))
      → Answers call rest w (try_all call rest w)
  unless_transient call rest w after = elim (Outcome-cases (call w)) [
    | inl (a, w', h) ↦ rw (try_all-success call rest w w' a h) (success h)
    | inr (e, w', h) ↦ elim (Bool-cases (is_transient e)) [
      | inl t ↦ after e w' h t
      | inr t ↦ rw (try_all-permanent call rest w w' e h t) (permanent h t)
    ]
  ]

  try_all-Answers :
      (call : Io W A) (rest : List (Io W A)) (w : W) → Answers call rest w (try_all call rest w)
  try_all-Answers call [] w =
      unless_transient call [] w λ e w' h t. rw (try_all-exhausted call w w' e h) (exhausted h t)
  try_all-Answers call (next ∷ rest) w = unless_transient call (next ∷ rest) w λ e w' h t.
      rw (try_all-next call next rest w w' e h t) (falls_back h t (try_all-Answers next rest w'))

  Answers-unique :
      {call : Io W A} {rest : List (Io W A)} {w : W} {o : Outcome W A}
      → Answers call rest w o
      → try_all call rest w ≡ o
  Answers-unique (success h) = try_all-success _ _ _ _ _ h
  Answers-unique (permanent h t) = try_all-permanent _ _ _ _ _ h t
  Answers-unique (exhausted h t) = try_all-exhausted _ _ _ _ h
  Answers-unique (falls_back h t a) = try_all-next _ _ _ _ _ _ h t ∙ Answers-unique a

module _ {W R Stream : Type 0} (p : FallbackProvider W R Stream) (who : Principal) where
  -- `chat` has an outcome exactly when it is the answer of the chain: primary and fallbacks in order,
  -- up to the first success or permanent error, or else the last error.
  pub chat-Answers :
      (req : ChatRequest R) (w : W) (o : Outcome W ChatResponse)
      → Answers (p.primary.chat who req) (calls (λ q. q.chat who req) p.fallbacks) w o
        ↔ (chat p who req w ≡ o)
  unfolding chat
  chat-Answers req w o = (Answers-unique, λ e. subst (Answers _ _ w) e (try_all-Answers _ _ w))

  -- Opening a stream has an outcome exactly when it is the answer of the same chain.
  pub stream-Answers :
      (req : ChatRequest R) (w : W) (o : Outcome W Stream)
      → Answers (p.primary.stream who req) (calls (λ q. q.stream who req) p.fallbacks) w o
        ↔ (stream p who req w ≡ o)
  unfolding stream
  stream-Answers req w o = (Answers-unique, λ e. subst (Answers _ _ w) e (try_all-Answers _ _ w))
