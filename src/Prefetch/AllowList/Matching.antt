-- ===== src/Prefetch/AllowList/Matching.antt =====
-- Which hosts an allow list matches.
use tako_ai_core.Common.{
  String, ◌≡◌, ◌↔◌, ◌⊎◌, inl, inr, sym, ap, ◌∙◌, none, some, List, [], ◌∷◌, ◌++◌, true, ◌||◌,
  Bool-cases, Option-cases, or-true, or-true_left, or-true_right, any, any-snoc, In, here, there,
  str_eq, eq_iff, ends_with, strip_star_dot, string_append, arith,
}
use tako_ai_core.Core.Effects.{ok, Foreign-cases}
use tako_ai_core.Prefetch.AllowList.{
  IpNets, AllowList, empty_allow_list, dotted, add_host, add_hosts, add_cidrs,
  from_strings_and_cidrs, contains,
}

-- An entry matches a host: a plain one if they are equal, and one that reads `*.X` if the host ends
-- in `.X`.
pub data Matches (host : String) : String → Type 0 where
  exactly : {entry : String} → strip_star_dot entry ≡ none → host ≡ entry → Matches host entry
  below :
      {entry suffix : String}
      → strip_star_dot entry ≡ some suffix
      → ends_with host (dotted suffix) ≡ true
      → Matches host entry

-- `ends_with` is: some text, and then the suffix.
pub ends_with-append :
    (s t : String) → ends_with s t ≡ true → (r : String) × (s ≡ string_append r t)
unfolding ends_with string_append
ends_with-append String.[] t h = (String.[], (eq_iff _ _).0 h)
ends_with-append (String.◌∷◌ c s) t h = elim (Bool-cases (str_eq (String.◌∷◌ c s) t)) [
  | inl e ↦ (String.[], (eq_iff _ _).0 e)
  | inr n ↦
      let (r, e) = ends_with-append s t (rw n at h) in (String.◌∷◌ c r, ap (λ x. String.◌∷◌ c x) e)
]

-- some entry of the list matches the host
abbrev pub SomeMatch : String → List String → Type 0
SomeMatch host entries = (entry : String) × In entry entries × Matches host entry

first_or_rest :
    {A : Type 0} (host entry : String) (rest : List String)
    → (Matches host entry ⊎ A) ⊎ SomeMatch host rest
    → A ⊎ SomeMatch host (entry ∷ rest)
first_or_rest host entry rest (inl (inl m)) = inr (entry, here, m)
first_or_rest host entry rest (inl (inr h)) = inl h
first_or_rest host entry rest (inr (x, i, m)) = inr (x, there i, m)

module _ {Net : Type 0} (host : String) where
  contains-suffix :
      (a : AllowList Net) (d : String)
      → contains (record a { suffixes = a.suffixes ++ d ∷ [] }) host
        ≡ (contains a host || ends_with host d)
  unfolding contains
  contains-suffix a d = ground (arith, any-snoc (ends_with host) a.suffixes d)

  contains-exact :
      (a : AllowList Net) (entry : String)
      → contains (record a { exact = entry ∷ a.exact }) host
        ≡ (str_eq host entry || contains a host)
  unfolding contains any
  contains-exact a entry = ground arith

  add_host-suffix :
      (a : AllowList Net) (entry suffix : String)
      → strip_star_dot entry ≡ some suffix
      → contains (add_host a entry) host ≡ (contains a host || ends_with host (dotted suffix))
  unfolding add_host
  add_host-suffix a entry suffix e = rw (e, add_host) (contains-suffix a (dotted suffix))

  add_host-exact :
      (a : AllowList Net) (entry : String)
      → strip_star_dot entry ≡ none
      → contains (add_host a entry) host ≡ (str_eq host entry || contains a host)
  unfolding add_host
  add_host-exact a entry e = rw (e, add_host) (contains-exact a entry)

  contains-add_host :
      (a : AllowList Net) (entry : String)
      → contains (add_host a entry) host ≡ true
      → Matches host entry ⊎ (contains a host ≡ true)
  contains-add_host a entry h = elim (Option-cases (strip_star_dot entry)) [
    | inl e ↦ elim (or-true (str_eq host entry) _ (sym (add_host-exact a entry e) ∙ h)) [
      | inl q ↦ inl (exactly e ((eq_iff _ _).0 q))
      | inr q ↦ inr q
    ]
    | inr (suffix, e) ↦
        elim (or-true (contains a host) _ (sym (add_host-suffix a entry suffix e) ∙ h)) [
          | inl q ↦ inr q
          | inr q ↦ inl (below e q)
        ]
  ]

  add_host-keeps :
      (a : AllowList Net) (entry : String)
      → contains a host ≡ true
      → contains (add_host a entry) host ≡ true
  add_host-keeps a entry h = elim (Option-cases (strip_star_dot entry)) [
    | inl e ↦ add_host-exact a entry e ∙ or-true_right (str_eq host entry) _ h
    | inr (suffix, e) ↦ add_host-suffix a entry suffix e ∙ or-true_left (contains a host) _ h
  ]

  add_host-Matches :
      (a : AllowList Net) {entry : String}
      → Matches host entry
      → contains (add_host a entry) host ≡ true
  add_host-Matches a {entry} (exactly e q) =
      add_host-exact a entry e ∙ or-true_left (str_eq host entry) _ ((eq_iff _ _).1 q)
  add_host-Matches a {entry} (below {suffix = s} e q) =
      add_host-suffix a entry s e ∙ or-true_right (contains a host) _ q

  contains-add_hosts :
      (entries : List String) (a : AllowList Net)
      → contains (add_hosts a entries) host ≡ true
      → (contains a host ≡ true) ⊎ SomeMatch host entries
  unfolding add_hosts
  contains-add_hosts [] a h = inl h
  contains-add_hosts (entry ∷ rest) a h =
      first_or_rest host entry rest (elim (contains-add_hosts rest (add_host a entry) h) [
        | inl q ↦ inl (contains-add_host a entry q)
        | inr m ↦ inr m
      ])

  add_hosts-keeps :
      (entries : List String) (a : AllowList Net)
      → contains a host ≡ true
      → contains (add_hosts a entries) host ≡ true
  unfolding add_hosts
  add_hosts-keeps [] a h = h
  add_hosts-keeps (entry ∷ rest) a h = add_hosts-keeps rest _ (add_host-keeps a entry h)

  add_hosts-Matches :
      {entry : String} {entries : List String} (a : AllowList Net)
      → In entry entries
      → Matches host entry
      → contains (add_hosts a entries) host ≡ true
  unfolding add_hosts
  add_hosts-Matches a (here {xs = rest}) m = add_hosts-keeps rest _ (add_host-Matches a m)
  add_hosts-Matches a (there i) m = add_hosts-Matches _ i m

  module _ (nets : IpNets Net) (vendor : String) where
    contains-add_cidrs :
        (entries : List String) (a b : AllowList Net)
        → add_cidrs nets vendor a entries ≡ ok b
        → contains b host ≡ contains a host
    unfolding add_cidrs contains
    contains-add_cidrs [] a b h = ground arith
    contains-add_cidrs (entry ∷ rest) a b h = elim (Foreign-cases (nets.parse entry)) [
      | inl (net, e) ↦
          contains-add_cidrs rest (record a { cidrs = a.cidrs ++ net ∷ [] }) b
            (rw (e, add_cidrs) at h)
      | inr (msg, e) ↦ ground arith
    ]

    nothing : ¬ (contains {Net = Net} empty_allow_list host ≡ true)
    unfolding contains any
    nothing h = cc

    -- A list built from entries contains a host exactly if an entry matches it: a plain entry the same
    -- host, an entry `*.X` every host that ends in `.X`.
    pub contains-SomeMatch :
        (host_entries cidr_entries : List String) (a : AllowList Net)
        → from_strings_and_cidrs nets vendor host_entries cidr_entries ≡ ok a
        → (contains a host ≡ true) ↔ SomeMatch host host_entries
    unfolding from_strings_and_cidrs
    contains-SomeMatch host_entries cidr_entries a built = (
      (λ h.
          elim (contains-add_hosts host_entries empty_allow_list (
            sym (contains-add_cidrs cidr_entries (add_hosts empty_allow_list host_entries) a built)
            ∙ h)) [ inl q ↦ absurd (nothing q) | inr m ↦ m ]),
      λ (x, i, m).
          contains-add_cidrs cidr_entries (add_hosts empty_allow_list host_entries) a built
          ∙ add_hosts-Matches empty_allow_list i m,
    )
