-- ===== src/Orchestrator/Trinity/Roles.antt =====
-- The roles of crates/tako-orchestrator/src/trinity.rs: what a candidate that the router may choose
-- stands for.
use Prim.Native.Char.{code}
use tako_ai_core.Common.{
  Option, ◌≡◌, refl, sym, ap, ◌∙◌, inl, inr, true, false, Bool-cases, ◌==◌, str_eq, eq_iff,
  if◌then◌else◌, String, none, some, Option-cases, List, [], ◌∷◌, All, All-snoc, All-map, Dict,
  lookup, string_append, In, All-In,
}
use tako_ai_core.Core.Traits.{LlmProvider}
use tako_ai_core.Orchestrator.Trinity.{
  TrinityBuilder, builder, put_role, split_bar, role, candidate_id, named, or_else, by_label,
  pick_provider,
}

-- a label starts with its role
split_bar-append :
    (r pid : String)
    → split_bar r ≡ none
    → split_bar (string_append r (string_append "|" pid)) ≡ some (r, pid)
unfolding split_bar string_append
split_bar-append String.[] pid h = refl
split_bar-append (String.◌∷◌ c s) pid h = elim (Bool-cases (code c == b'|')) [
  | inl bar ↦
      absurd (
        let one : split_bar (String.◌∷◌ c s) ≡ some (String.[], s) = rw (split_bar, bar) refl in cc)
  | inr other ↦ elim (Option-cases (split_bar s)) [
    | inl clean ↦
        let rest = split_bar-append s pid clean in rw (split_bar, other, string_append, rest) refl
    | inr ((a, b), found) ↦ absurd (
        let one : split_bar (String.◌∷◌ c s) ≡ some (String.◌∷◌ c a, b) =
          rw (split_bar, other, found) refl in
        cc)
  ]
]

apart : (k key r : String) → str_eq k key ≡ false → str_eq k r ≡ true → str_eq key r ≡ false
apart k key r other here = elim (Bool-cases (str_eq key r)) [
  | inr miss ↦ miss
  | inl hit ↦
      let same : k ≡ key = (eq_iff k r).0 here ∙ sym ((eq_iff key r).0 hit) in
      absurd (let yes_it_is = (eq_iff k key).1 same in cc)
]

lookup-put_role :
    {V : Type 0} (key : String) (value : V) (r : String) (dict : Dict V)
    → lookup r (put_role key value dict) ≡ (if str_eq key r then some value else lookup r dict)
unfolding lookup put_role
lookup-put_role key value r [] = refl
lookup-put_role key value r ((k, v) ∷ rest) = elim (Bool-cases (str_eq k key)) [
  | inl same ↦
      let is_key : k ≡ key = (eq_iff k key).0 same in
      elim (Bool-cases (str_eq key r)) [
        | inl hit ↦ rw (put_role, same, lookup, hit) refl
        | inr miss ↦
            let away : str_eq k r ≡ false = ap (λ z. str_eq z r) is_key ∙ miss in
            rw (put_role, same, lookup, miss, away) refl
      ]
  | inr other ↦ elim (Bool-cases (str_eq k r)) [
    | inl here ↦ rw (put_role, other, lookup, here, apart k key r other here) refl
    | inr away ↦ rw (put_role, other, lookup, away) (lookup-put_role key value r rest)
  ]
]

module _ {W R Stream : Type 0} where
  -- every name in the order has a provider
  abbrev pub HasProvider : Dict (LlmProvider W R Stream) → String → Type 0
  HasProvider roles r = (p : LlmProvider W R Stream) × (lookup r roles ≡ some p)

  put_role-HasProvider :
      (name : String) (p : LlmProvider W R Stream) (roles : Dict (LlmProvider W R Stream))
      (r : String)
      → HasProvider roles r
      → HasProvider (put_role name p roles) r
  put_role-HasProvider name p roles r (q, h) = elim (Bool-cases (str_eq name r)) [
    | inl same ↦ (p, lookup-put_role name p r roles ∙ rw (same) refl)
    | inr other ↦ (q, lookup-put_role name p r roles ∙ rw (other) h)
  ]

  -- A candidate that stands for a role with a provider, and whose role has no `|` in its name, picks
  -- this role and this provider.
  pub pick_provider-candidate_id :
      (roles : Dict (LlmProvider W R Stream)) (r : String) (p : LlmProvider W R Stream)
      → split_bar r ≡ none
      → lookup r roles ≡ some p
      → pick_provider roles (candidate_id roles r) ≡ some (r, p)
  unfolding pick_provider by_label candidate_id named or_else
  pick_provider-candidate_id roles r p clean found =
      let label = split_bar-append r p.id clean in
      rw (found, pick_provider, by_label, label, named, found) refl

  -- Adding a role keeps it so that every name in the order of the roles has a provider.
  pub role-HasProvider :
      (name : String) (p : LlmProvider W R Stream) (b : TrinityBuilder W R Stream)
      → All (HasProvider b.roles) b.role_order
      → All (HasProvider (role name p b).roles) (role name p b).role_order
  unfolding role
  role-HasProvider name p b h =
      let kept : All (HasProvider (put_role name p b.roles)) b.role_order =
        All-map (HasProvider b.roles) (HasProvider (put_role name p b.roles)) b.role_order
          (λ r. put_role-HasProvider name p b.roles r) h in
      let same : str_eq name name ≡ true = (eq_iff name name).1 refl in
      let new : HasProvider (put_role name p b.roles) name =
        (p, lookup-put_role name p name b.roles ∙ rw (same) refl) in
      elim (Option-cases (lookup name b.roles)) [
        | inl fresh ↦
            rw (role, fresh)
              (All-snoc (HasProvider (put_role name p b.roles)) b.role_order name kept new)
        | inr (q, known) ↦ rw (role, known) kept
      ]

  -- the builder after these calls of `role`
  unfoldable pub added :
      List (String × LlmProvider W R Stream) → TrinityBuilder W R Stream → TrinityBuilder W R Stream
  added [] b = b
  added ((name, p) ∷ calls) b = added calls (role name p b)

  added-HasProvider :
      (calls : List (String × LlmProvider W R Stream)) (b : TrinityBuilder W R Stream)
      → All (HasProvider b.roles) b.role_order
      → All (HasProvider (added calls b).roles) (added calls b).role_order
  unfolding added
  added-HasProvider [] b h = h
  added-HasProvider ((name, p) ∷ calls) b h =
      added-HasProvider calls (role name p b) (role-HasProvider name p b h)

  -- the provider in the last of the calls with this name
  abbrev pub last_given :
      String → List (String × LlmProvider W R Stream) → Option (LlmProvider W R Stream)
  last_given r [] = none
  last_given r ((name, p) ∷ calls) = elim (last_given r calls) [
    | some later ↦ some later
    | none ↦ if str_eq name r then some p else none
  ]

  -- the roles after the calls: the last call for a name, or what was there before
  added-lookup :
      (r : String) (calls : List (String × LlmProvider W R Stream)) (b : TrinityBuilder W R Stream)
      → lookup r (added calls b).roles
        ≡ (elim (last_given r calls) [ some p ↦ some p | none ↦ lookup r b.roles ])
  unfolding added role
  added-lookup r [] b = refl
  added-lookup r ((name, p) ∷ calls) b =
      let rest = added-lookup r calls (role name p b) in
      elim (Option-cases (last_given r calls)) [
        | inr (q, later) ↦ rw (added, last_given, later) (rw (later) at rest)
        | inl nothing ↦ elim (Bool-cases (str_eq name r)) [
          | inl same ↦
              rw (added, last_given, nothing, same)
                (rw (nothing) at rest ∙ lookup-put_role name p r b.roles ∙ rw (same) refl)
          | inr other ↦
              rw (added, last_given, nothing, other)
                (rw (nothing) at rest ∙ lookup-put_role name p r b.roles ∙ rw (other) refl)
        ]
      ]

  last_given-lookup :
      (r : String) (calls : List (String × LlmProvider W R Stream)) (p : LlmProvider W R Stream)
      → lookup r (added calls builder).roles ≡ some p
      → last_given r calls ≡ some p
  unfolding lookup
  last_given-lookup r calls p found = elim (Option-cases (last_given r calls)) [
    | inl nothing ↦ absurd (
        let gone : none ≡ some p = sym (rw (nothing) at (added-lookup r calls builder)) ∙ found in
        cc)
    | inr (q, last) ↦ last ∙ sym (rw (last) at (added-lookup r calls builder)) ∙ found
  ]

  -- Whatever roles a builder is given: if a role has no `|` in its name, the candidate that stands for it
  -- leads the router's choice back to this role and to the provider it was last given.
  pub added-Picks :
      (calls : List (String × LlmProvider W R Stream)) (r : String)
      → In r (added calls builder).role_order
      → split_bar r ≡ none
      → (p : LlmProvider W R Stream) × (last_given r calls ≡ some p)
        × (pick_provider (added calls builder).roles (candidate_id (added calls builder).roles r)
            ≡ some (r, p))
  added-Picks calls r listed clean =
      let b : TrinityBuilder W R Stream = added calls builder in
      let (p, found) =
        All-In (HasProvider b.roles) b.role_order r (added-HasProvider calls builder tt) listed in
      (p, last_given-lookup r calls p found, pick_provider-candidate_id b.roles r p clean found)
