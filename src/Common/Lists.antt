-- ===== src/Common/Lists.antt =====
-- Lists measured by the native numbers, and predicates over all their members.
use Prim.Native.Nat.{ℕ, zero, suc, ◌+◌, ◌<◌}
use mathlib.Core.Path.{◌≡◌, refl, sym, ap}
use mathlib.Core.Logic.{◌⊎◌, inl, inr}
use mathlib.Core.Option.{Option, none, some}
use mathlib.Core.Bool.{Bool, true, false, ◌&&◌, ◌||◌}
use mathlib.Core.List.{List, [], ◌∷◌, ◌++◌, map}
use native.Mathlib.Omega.{arith}

module _ {ℓ} {A : Type ℓ} where
  abbrev pub length : List A → ℕ
  length [] = 0
  length (x ∷ xs) = suc (length xs)

  pub length-append : (xs ys : List A) → length (xs ++ ys) ≡ length xs + length ys
  length-append [] ys = omega arith
  length-append (x ∷ xs) ys = omega (arith, length-append xs ys)

  -- Every member passes the test.
  unfoldable pub all : (A → Bool) → List A → Bool
  all p [] = true
  all p (x ∷ xs) = p x && all p xs

  -- Some member passes the test.
  unfoldable pub any : (A → Bool) → List A → Bool
  any p [] = false
  any p (x ∷ xs) = p x || any p xs

  abbrev pub All {κ} : (A → Type κ) → List A → Type κ
  All P [] = Unit
  All P (x ∷ xs) = P x × All P xs

  -- Membership, with the position kept.
  pub data In (a : A) : List A → Type ℓ where
    here : {xs : List A} → In a (a ∷ xs)
    there : {x : A} {xs : List A} → In a xs → In a (x ∷ xs)

  pub any-snoc : (p : A → Bool) (xs : List A) (y : A) → any p (xs ++ y ∷ []) ≡ (any p xs || p y)
  unfolding any
  any-snoc p [] y = ground arith
  any-snoc p (x ∷ xs) y = ground (arith, any-snoc p xs y)

  -- `list[i]`, nothing out of range
  unfoldable pub get_elem? : List A → ℕ → Option A
  get_elem? [] i = none
  get_elem? (x ∷ xs) zero = some x
  get_elem? (x ∷ xs) (suc i) = get_elem? xs i

  -- the list with `f` applied at one index
  unfoldable pub modify : ℕ → (A → A) → List A → List A
  modify i f [] = []
  modify zero f (x ∷ xs) = f x ∷ xs
  modify (suc i) f (x ∷ xs) = x ∷ modify i f xs

  pub length-modify : (i : ℕ) (f : A → A) (xs : List A) → length (modify i f xs) ≡ length xs
  unfolding modify
  length-modify i f [] = refl
  length-modify zero f (x ∷ xs) = refl
  length-modify (suc i) f (x ∷ xs) = ap suc (length-modify i f xs)

  pub get_elem?-some : (xs : List A) (i : ℕ) → i < length xs → (x : A) × (get_elem? xs i ≡ some x)
  unfolding get_elem?
  get_elem?-some [] i h = absurd (omega arith)
  get_elem?-some (x ∷ xs) zero h = (x, refl)
  get_elem?-some (x ∷ xs) (suc i) h = get_elem?-some xs i (omega arith)

  pub get_elem?-lt : (xs : List A) (i : ℕ) (x : A) → get_elem? xs i ≡ some x → i < length xs
  unfolding get_elem?
  get_elem?-lt [] i x h = cc
  get_elem?-lt (y ∷ ys) zero x h = omega arith
  get_elem?-lt (y ∷ ys) (suc i) x h = omega (arith, get_elem?-lt ys i x h)

  -- what stands in a modified list comes from the list …
  pub get_elem?-modify :
      (n i : ℕ) (f : A → A) (xs : List A) (y : A)
      → get_elem? (modify n f xs) i ≡ some y
      → (x : A) × (get_elem? xs i ≡ some x) × ((y ≡ x) ⊎ ((n ≡ i) × (y ≡ f x)))
  unfolding get_elem? modify
  get_elem?-modify n i f [] y h = cc
  get_elem?-modify zero zero f (x ∷ xs) y h = (x, refl, inr (refl, cc))
  get_elem?-modify zero (suc i) f (x ∷ xs) y h = (y, h, inl refl)
  get_elem?-modify (suc n) zero f (x ∷ xs) y h = (y, h, inl refl)
  get_elem?-modify (suc n) (suc i) f (x ∷ xs) y h =
      let (z, at, change) = get_elem?-modify n i f xs y h in
      elim change [
        | inl same ↦ (z, at, inl same)
        | inr (same, changed) ↦ (z, at, inr (ap suc same, changed))
      ]

  -- … and what stood in the list is there, changed or not.
  pub modify-get_elem? :
      (n i : ℕ) (f : A → A) (xs : List A) (x : A)
      → get_elem? xs i ≡ some x
      → (y : A) × (get_elem? (modify n f xs) i ≡ some y) × ((y ≡ x) ⊎ (y ≡ f x))
  unfolding get_elem? modify
  modify-get_elem? n i f [] x h = cc
  modify-get_elem? zero zero f (y ∷ ys) x h = (f y, refl, inr cc)
  modify-get_elem? zero (suc i) f (y ∷ ys) x h = (x, h, inl refl)
  modify-get_elem? (suc n) zero f (y ∷ ys) x h = (x, h, inl refl)
  modify-get_elem? (suc n) (suc i) f (y ∷ ys) x h = modify-get_elem? n i f ys x h

  pub get_elem?-append :
      (xs ys : List A) (i : ℕ) → i < length xs → get_elem? (xs ++ ys) i ≡ get_elem? xs i
  unfolding get_elem?
  get_elem?-append [] ys i h = absurd (omega arith)
  get_elem?-append (x ∷ xs) ys zero h = refl
  get_elem?-append (x ∷ xs) ys (suc i) h = get_elem?-append xs ys i (omega arith)

  pub get_elem?-last : (xs : List A) (y : A) → get_elem? (xs ++ y ∷ []) (length xs) ≡ some y
  unfolding get_elem?
  get_elem?-last [] y = refl
  get_elem?-last (x ∷ xs) y = get_elem?-last xs y

  -- what stands in a list with one more member
  pub get_elem?-snoc :
      (xs : List A) (y : A) (i : ℕ) (x : A)
      → get_elem? (xs ++ y ∷ []) i ≡ some x
      → (get_elem? xs i ≡ some x) ⊎ ((i ≡ length xs) × (x ≡ y))
  unfolding get_elem?
  get_elem?-snoc [] y zero x h = inr (refl, cc)
  get_elem?-snoc [] y (suc i) x h = cc
  get_elem?-snoc (z ∷ zs) y zero x h = inl h
  get_elem?-snoc (z ∷ zs) y (suc i) x h = elim (get_elem?-snoc zs y i x h) [
    | inl old ↦ inl old
    | inr (last, same) ↦ inr (ap suc last, same)
  ]

  pub All-snoc {κ} : (P : A → Type κ) (xs : List A) (y : A) → All P xs → P y → All P (xs ++ y ∷ [])
  All-snoc P [] y ps p = (p, tt)
  All-snoc P (x ∷ xs) y (q, qs) p = (q, All-snoc P xs y qs p)

  pub All-map {κ} : (P Q : A → Type κ) (xs : List A) → ((x : A) → P x → Q x) → All P xs → All Q xs
  All-map P Q [] f ps = tt
  All-map P Q (x ∷ xs) f (p, ps) = (f x p, All-map P Q xs f ps)

  pub All-In {κ} : (P : A → Type κ) (xs : List A) (x : A) → All P xs → In x xs → P x
  All-In P [] x ps i = elim i [ ]
  All-In P (y ∷ ys) _ (p, ps) here = p
  All-In P (y ∷ ys) x (p, ps) (there i) = All-In P ys x ps i

  pub List-cases : (xs : List A) → (xs ≡ []) ⊎ ((y : A) × (ys : List A) × (xs ≡ y ∷ ys))
  List-cases [] = inl refl
  List-cases (y ∷ ys) = inr (y, ys, refl)

  -- a sum over a list
  unfoldable pub sum_of : (A → ℕ) → List A → ℕ
  sum_of f [] = 0
  sum_of f (x ∷ xs) = f x + sum_of f xs

  pub sum_of-modify :
      (f : A → ℕ) (i : ℕ) (xs : List A) (x y : A)
      → get_elem? xs i ≡ some x
      → sum_of f (modify i (λ _. y) xs) + f x ≡ sum_of f xs + f y
  unfolding sum_of get_elem? modify
  sum_of-modify f i [] x y h = cc
  sum_of-modify f zero (z ∷ zs) x y h = let same : z ≡ x = cc in rw (same) (omega arith)
  sum_of-modify f (suc i) (z ∷ zs) x y h = omega (arith, sum_of-modify f i zs x y h)

  pub All-get_elem? {κ} :
      (P : A → Type κ) (xs : List A) (i : ℕ) (x : A) → All P xs → get_elem? xs i ≡ some x → P x
  unfolding get_elem?
  All-get_elem? P [] i x ps h = cc
  All-get_elem? P (y ∷ ys) zero x (p, ps) h = let same : y ≡ x = cc in rw (sym same) p
  All-get_elem? P (y ∷ ys) (suc i) x (p, ps) h = All-get_elem? P ys i x ps h

  pub All-modify {κ} :
      (P : A → Type κ) (xs : List A) (i : ℕ) (y : A) → All P xs → P y → All P (modify i (λ _. y) xs)
  unfolding modify
  All-modify P [] i y ps q = tt
  All-modify P (x ∷ xs) zero y (p, ps) q = (q, ps)
  All-modify P (x ∷ xs) (suc i) y (p, ps) q = (p, All-modify P xs i y ps q)

  pub In-cons : (x y : A) (xs : List A) → In x (y ∷ xs) → (x ≡ y) ⊎ In x xs
  In-cons _ y xs here = inl refl
  In-cons x y xs (there i) = inr i

  pub get_elem?-In : (xs : List A) (i : ℕ) (x : A) → get_elem? xs i ≡ some x → In x xs
  unfolding get_elem?
  get_elem?-In [] i x h = cc
  get_elem?-In (y ∷ ys) zero x h = let same : y ≡ x = cc in rw (same) here
  get_elem?-In (y ∷ ys) (suc i) x h = there (get_elem?-In ys i x h)

  pub map-modify {κ} :
      {B : Type κ} (f : A → B) (i : ℕ) (xs : List A) (x y : A)
      → get_elem? xs i ≡ some x
      → f y ≡ f x
      → map f (modify i (λ _. y) xs) ≡ map f xs
  unfolding get_elem? modify
  map-modify f i [] x y h same = cc
  map-modify f zero (z ∷ zs) x y h same = let is_x : z ≡ x = cc in rw (is_x, same) refl
  map-modify f (suc i) (z ∷ zs) x y h same = ap (λ l. f z ∷ l) (map-modify f i zs x y h same)

-- members of a list of successors
pub In-map-suc : (j : ℕ) (xs : List ℕ) → In j (map suc xs) → (i : ℕ) × (j ≡ suc i) × In i xs
In-map-suc j [] i = elim i [ ]
In-map-suc _ (x ∷ xs) here = (x, refl, here)
In-map-suc j (x ∷ xs) (there i) = let (k, same, at) = In-map-suc j xs i in (k, same, there at)
