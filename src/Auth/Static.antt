-- ===== src/Auth/Static.antt =====
-- crates/tako-compat/src/auth/static_tokens.rs: a table from tokens to principals.
use tako_ai_core.Common.{
  lookup-insert, str_eq, Bool-cases, ◌≡◌, inl, inr, if◌then◌else◌, String, Option, none, some, [],
  ◌∷◌, Dict, lookup, insert,
}
use tako_ai_core.Core.Error.{TakoError, lit, invalid}
use tako_ai_core.Core.Effects.{Result, ok, err, lift}
use tako_ai_core.Core.Types.{Principal}
use tako_ai_core.Auth.{AuthResolver}

pub record StaticTokens : Type 0 where
  pub table : Dict Principal

pub new : StaticTokens
new = record { table = [] }

pub with_token : StaticTokens → String → Principal → StaticTokens
with_token s token principal = record { table = insert token principal s.table }

abbrev pub unknown_token : TakoError
unknown_token = invalid (lit "unknown bearer token" ∷ [])

abbrev ok_or : Option Principal → Result Principal
ok_or none = err unknown_token
ok_or (some p) = ok p

pub resolve : StaticTokens → String → Result Principal
resolve s token = ok_or (lookup token s.table)

-- as a child of a chain, over any state
pub static_resolver : {W : Type 0} → StaticTokens → AuthResolver W
static_resolver s = record { resolve = λ token. lift (resolve s token) }

-- A token that was added resolves to its principal, and every other token to what it did before.
pub resolve-with_token :
    (s : StaticTokens) (token other : String) (p : Principal)
    → resolve (with_token s token p) other ≡ (if str_eq token other then ok p else resolve s other)
unfolding resolve with_token
resolve-with_token s token other p = elim (Bool-cases (str_eq token other)) [
  | inl same ↦ rw (lookup-insert, same)
  | inr different ↦ rw (lookup-insert, different)
]
