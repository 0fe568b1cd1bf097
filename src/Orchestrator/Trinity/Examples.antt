-- ===== src/Orchestrator/Trinity/Examples.antt =====
-- The theorems on roles at concrete inputs.
use tako_ai_core.Common.{ℕ, ◌≡◌, refl, String, none, some, List, [], ◌∷◌, In, lookup, string_append}
use tako_ai_core.Core.Error.{circuit_open}
use tako_ai_core.Core.Effects.{fail}
use tako_ai_core.Core.Traits.{LlmProvider}
use tako_ai_core.Orchestrator.Trinity.{
  builder, role, put_role, split_bar, candidate_id, named, with_id, or_else, by_label,
  pick_provider,
}
use tako_ai_core.Orchestrator.Trinity.Roles.{added, last_given, added-Picks}

abbrev provider_of : String → LlmProvider ℕ ℕ ℕ
provider_of id = record {
  id = id;
  chat = λ who req. fail circuit_open;
  stream = λ who req. fail circuit_open;
  estimate_cost_usd = λ req. 0;
}

-- the critic is given twice
abbrev calls : List (String × LlmProvider ℕ ℕ ℕ)
calls =
    ("critic", provider_of "a:1")
    ∷ ("planner", provider_of "b:2")
    ∷ ("critic", provider_of "c:3")
    ∷ []

critic_listed : In "critic" (added calls builder).role_order
unfolding added role put_role lookup
critic_listed = In.here

added-Picks_example :
    (p : LlmProvider ℕ ℕ ℕ) × (last_given "critic" calls ≡ some p)
    × (pick_provider (added calls builder).roles (candidate_id (added calls builder).roles "critic")
        ≡ some ("critic", p))
unfolding split_bar
added-Picks_example = added-Picks calls "critic" critic_listed refl

-- a role with a bar in its name is not found again
barred :
    pick_provider
      (("a|b", provider_of "c:3") ∷ [])
      (candidate_id (("a|b", provider_of "c:3") ∷ []) "a|b")
    ≡ none
unfolding pick_provider by_label candidate_id named with_id or_else split_bar lookup string_append
barred = refl
