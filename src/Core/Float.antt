-- ===== src/Core/Float.antt =====
-- `f64` and `f32` are arguments of the model: the operations that the code uses, with no law.
use tako_ai_core.Common.{ℕ, String, Bool}

pub record Float : Type 1 where
  pub Real : Type 0
  pub zero : Real
  pub add : Real → Real → Real
  -- `a < b` and `a <= b`, both false on a NaN
  pub lt : Real → Real → Bool
  pub le : Real → Real → Bool
  -- `{:.n}` in `format!`
  pub show : ℕ → Real → String
