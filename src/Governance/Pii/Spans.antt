-- ===== src/Governance/Pii/Spans.antt =====
-- Which spans are replaced, and that nothing else is touched.
use tako_ai_core.Common.{
  ℕ, ◌≤◌, ◌<◌, ◌≡◌, ◌⊎◌, inl, inr, true, false, leb, Bool-cases, List, [], ◌∷◌, All, In, here,
  there, arith,
}
use tako_ai_core.Governance.Rekor.{Bytes}
use tako_ai_core.Governance.Pii.{
  PiiKind, PiiHit, all_hits, compiled_rules, comes_first, place, sort_hits, keep, detect,
}

-- Hits from the cursor on, each behind the one before.
abbrev pub IsDisjoint : ℕ → List PiiHit → Type 0
IsDisjoint cursor [] = Unit
IsDisjoint cursor (h ∷ hs) = (cursor ≤ h.start) × IsDisjoint h.end hs

keep-IsDisjoint : (cursor : ℕ) (hs : List PiiHit) → IsDisjoint cursor (keep cursor hs)
unfolding keep
keep-IsDisjoint cursor [] = tt
keep-IsDisjoint cursor (h ∷ hs) = elim (Bool-cases (leb cursor h.start)) [
  | inl t ↦ rw (t, keep) (ground arith, keep-IsDisjoint h.end hs)
  | inr t ↦ rw (t, keep) (keep-IsDisjoint cursor hs)
]

-- No hit starts before one ahead of it.
abbrev IsSorted : List PiiHit → Type 0
IsSorted [] = Unit
IsSorted (h ∷ hs) = All (λ x. h.start ≤ x.start) hs × IsSorted hs

All-weaken :
    (a b : ℕ) (hs : List PiiHit) → a ≤ b → All (λ x. b ≤ x.start) hs → All (λ x. a ≤ x.start) hs
All-weaken a b [] le h = tt
All-weaken a b (x ∷ xs) le h = (omega (arith, h.0), All-weaken a b xs le h.1)

place-All :
    (a : ℕ) (h : PiiHit) (xs : List PiiHit)
    → a ≤ h.start
    → All (λ x. a ≤ x.start) xs
    → All (λ x. a ≤ x.start) (place h xs)
unfolding place
place-All a h [] l p = (l, tt)
place-All a h (x ∷ xs) l p = elim (Bool-cases (comes_first h x)) [
  | inl t ↦ rw t (l, p)
  | inr t ↦ rw t (p.0, place-All a h xs l p.1)
]

comes_first-le : (a b : PiiHit) → comes_first a b ≡ true → a.start ≤ b.start
unfolding comes_first
comes_first-le a b h = ground arith

comes_later : (a b : PiiHit) → comes_first a b ≡ false → b.start ≤ a.start
unfolding comes_first
comes_later a b h = ground arith

place-IsSorted : (h : PiiHit) (xs : List PiiHit) → IsSorted xs → IsSorted (place h xs)
unfolding place
place-IsSorted h [] s = (tt, tt)
place-IsSorted h (x ∷ xs) s = elim (Bool-cases (comes_first h x)) [
  | inl t ↦ let l = comes_first-le h x t in rw t ((l, All-weaken h.start x.start xs l s.0), s)
  | inr t ↦ rw t (place-All x.start h xs (comes_later h x t) s.0, place-IsSorted h xs s.1)
]

sort_hits-IsSorted : (hs : List PiiHit) → IsSorted (sort_hits hs)
unfolding sort_hits
sort_hits-IsSorted [] = tt
sort_hits-IsSorted (h ∷ hs) = place-IsSorted h (sort_hits hs) (sort_hits-IsSorted hs)

place-here : (h : PiiHit) (xs : List PiiHit) → In h (place h xs)
unfolding place
place-here h [] = here
place-here h (x ∷ xs) = elim (Bool-cases (comes_first h x)) [
  | inl t ↦ rw t here
  | inr t ↦ rw t (there (place-here h xs))
]

place-there : (h : PiiHit) {c : PiiHit} {xs : List PiiHit} → In c xs → In c (place h xs)
unfolding place
place-there h {xs = []} i = elim i [ ]
place-there h {xs = x ∷ xs} here = elim (Bool-cases (comes_first h x)) [
  | inl t ↦ rw t (there here)
  | inr t ↦ rw t here
]
place-there h {xs = x ∷ xs} (there i) = elim (Bool-cases (comes_first h x)) [
  | inl t ↦ rw t (there (there i))
  | inr t ↦ rw t (there (place-there h i))
]

sort_hits-In : {c : PiiHit} {hs : List PiiHit} → In c hs → In c (sort_hits hs)
unfolding sort_hits
sort_hits-In {hs = []} i = elim i [ ]
sort_hits-In {hs = h ∷ hs} here = place-here h (sort_hits hs)
sort_hits-In {hs = h ∷ hs} (there i) = place-there h (sort_hits-In i)

-- A hit begins within one of the chosen ones.
pub record Covered (chosen : List PiiHit) (c : PiiHit) : Type 0 where
  pub by : PiiHit
  pub is_chosen : In by chosen
  pub from : by.start ≤ c.start
  pub within : c.start < by.end

All-at : {a : ℕ} {c : PiiHit} {hs : List PiiHit} → In c hs → All (λ x. a ≤ x.start) hs → a ≤ c.start
All-at here h = h.0
All-at (there i) h = All-at i h.1

Covered-there : (h : PiiHit) {hs : List PiiHit} {c : PiiHit} → Covered hs c → Covered (h ∷ hs) c
Covered-there h v = record {
  by = v.by;
  is_chosen = there v.is_chosen;
  from = v.from;
  within = v.within;
}

abbrev Fate : ℕ → List PiiHit → PiiHit → Type 0
Fate cursor chosen c = In c chosen ⊎ Covered chosen c ⊎ (c.start < cursor)

chosen_head :
    (cursor : ℕ) (h c : PiiHit) (kept : List PiiHit)
    → h.start ≤ c.start
    → Fate h.end kept c
    → Fate cursor (h ∷ kept) c
chosen_head cursor h c kept l (inl i) = inl (there i)
chosen_head cursor h c kept l (inr (inl v)) = inr (inl (Covered-there h v))
chosen_head cursor h c kept l (inr (inr w)) =
    inr (inl (record { by = h; is_chosen = here; from = l; within = w }))

keep-Fate :
    (cursor : ℕ) (hs : List PiiHit) {c : PiiHit}
    → IsSorted hs
    → In c hs
    → Fate cursor (keep cursor hs) c
unfolding keep
keep-Fate cursor [] s i = elim i [ ]
keep-Fate cursor (h ∷ hs) s here = elim (Bool-cases (leb cursor h.start)) [
  | inl t ↦ rw (t, keep) (inl here)
  | inr t ↦ inr (inr (ground arith))
]
keep-Fate cursor (h ∷ hs) s (there i) = elim (Bool-cases (leb cursor h.start)) [
  | inl t ↦
      rw (t, keep)
        (chosen_head cursor h _ (keep h.end hs) (All-at i s.0) (keep-Fate h.end hs s.1 i))
  | inr t ↦ rw (t, keep) (keep-Fate cursor hs s.1 i)
]

module _ (re : PiiKind → Bytes → List (ℕ × ℕ)) (input : Bytes) where
  abbrev pub found : List PiiHit
  found = all_hits (compiled_rules re) input

  not_before_0 : (c : PiiHit) → ¬ (c.start < 0)
  not_before_0 c h = omega arith

  -- The hits that are detected do not overlap and come in the order of the input, and every match
  -- that passed its rule's validation is one of them or begins within one of them.
  pub detect-IsDisjoint :
      IsDisjoint 0 (detect re input)
      × ((c : PiiHit) → In c found → In c (detect re input) ⊎ Covered (detect re input) c)
  unfolding detect
  detect-IsDisjoint = (
    keep-IsDisjoint 0 (sort_hits found),
    λ c i. elim (keep-Fate 0 (sort_hits found) (sort_hits-IsSorted found) (sort_hits-In i)) [
      | inl k ↦ inl k
      | inr (inl v) ↦ inr v
      | inr (inr w) ↦ absurd (not_before_0 c w)
    ],
  )
