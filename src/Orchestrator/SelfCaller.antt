-- ===== src/Orchestrator/SelfCaller.antt =====
-- crates/tako-orchestrator/src/self_caller.rs: an orchestrator that runs another one again while a
-- guard is not confident in its output.
pub mod Depth
pub mod Rounds
use tako_ai_core.Common.{
  ℕ, zero, suc, ◌+◌, String, Option, none, some, List, [], ◌∷◌, ◌++◌, Bool, ◌||◌, leb,
  if◌then◌else◌, lookup, insert,
}
use tako_ai_core.Core.Error.{TakoError, lit, invalid}
use tako_ai_core.Core.Effects.{Io, Outcome, returns, raises, ◌>>=◌, pure}
use tako_ai_core.Core.Float.{Float}
use tako_ai_core.Core.Types.{Principal, Message, assistant_message, user_message, saturating_add}
use tako_ai_core.Core.Traits.{ConfidenceGuard}
use tako_ai_core.Orchestrator.Types.{OrchInput, OrchOutput, Orchestrator}
use Depth.{show_u8, parse_u8, u8_max}

abbrev pub depth_key : String
depth_key = "tako.recursion.depth"

abbrev pub or_zero : Option ℕ → ℕ
or_zero none = 0
or_zero (some n) = n

abbrev pub parsed_depth : Option String → Option ℕ
parsed_depth none = none
parsed_depth (some s) = parse_u8 s

pub read_depth : Principal → ℕ
read_depth p = or_zero (parsed_depth (lookup depth_key p.metadata))

pub bumped_principal : Principal → ℕ → Principal
bumped_principal p depth = record p { metadata = insert depth_key (show_u8 depth) p.metadata }

pub record SelfCaller (W R : Type 0) : Type 0 where
  pub inner : Orchestrator W
  pub max_depth : ℕ
  pub min_confidence : R
  pub confidence : ConfidenceGuard W R
  pub revision_prompt : String

-- the corrective input: the output so far, and the prompt to revise it
pub revised : String → OrchInput → OrchOutput → OrchInput
revised prompt input out = record input {
  messages = (input.messages ++ assistant_message out.text ∷ []) ++ user_message prompt ∷ [];
}

abbrev pub no_output : TakoError
no_output = invalid (lit "SelfCaller: no output produced" ∷ [])

abbrev ok_or : {W : Type 0} → Option OrchOutput → Io W OrchOutput
ok_or none w = raises no_output w
ok_or (some out) w = returns out w

module _ (F : Float) {W : Type 0} (s : SelfCaller W F.Real) (principal : Principal) where
  -- the principal of the round with that offset
  abbrev pub round_principal : ℕ → Principal
  round_principal offset =
      bumped_principal principal (saturating_add u8_max (read_depth principal) offset)

  -- `conf >= self.min_confidence || offset >= self.max_depth`
  abbrev pub accepts : F.Real → ℕ → Bool
  accepts conf offset = F.le s.min_confidence conf || leb s.max_depth offset

  -- the `for` loop over the offsets, by the rounds that are left
  pub run_rounds : ℕ → ℕ → OrchInput → Option OrchOutput → Io W OrchOutput
  run_rounds zero offset input last_output = ok_or last_output
  run_rounds (suc left) offset input last_output = do
    out ← s.inner.run (round_principal offset) input
    conf ← s.confidence.evaluate (round_principal offset) out.text
    let again = run_rounds left (offset + 1) (revised s.revision_prompt input out) (some out)
    if accepts conf offset then pure out else again

  pub run : OrchInput → Io W OrchOutput
  run input = run_rounds (suc s.max_depth) 0 input none
