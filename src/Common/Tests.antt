-- ===== src/Common/Tests.antt =====
-- Boolean tests on the native numbers and on texts, and case splits that keep an equation.
use Prim.Native.Nat.{ℕ, zero, suc, ◌≤◌, ◌<◌, compare, Ordering}
use mathlib.Core.Path.{◌≡◌, refl}
use mathlib.Core.Logic.{◌⊎◌, inl, inr}
use mathlib.Core.Bool.{Bool, true, false, ◌&&◌, ◌||◌}
use mathlib.Core.Option.{Option, none, some}
use native.Mathlib.Omega.{arith}
pub use text.Mathlib.Text.{◌==◌ as str_eq}

abbrev pub ltb : ℕ → ℕ → Bool
ltb a b = elim (compare a b) [ Ordering.lt ↦ true | _ ↦ false ]

abbrev pub leb : ℕ → ℕ → Bool
leb a b = elim (compare a b) [ Ordering.gt ↦ false | _ ↦ true ]

infix 50 ◌==◌
abbrev pub ◌==◌ : ℕ → ℕ → Bool
a == b = elim (compare a b) [ Ordering.eq ↦ true | _ ↦ false ]

infix 1 if◌then◌else◌
abbrev pub if◌then◌else◌ {ℓ} : {A : Type ℓ} → Bool → A → A → A
if true then x else y = x
if false then x else y = y

pub Bool-cases : (b : Bool) → (b ≡ true) ⊎ (b ≡ false)
Bool-cases true = inl refl
Bool-cases false = inr refl

pub Option-cases {ℓ} : {A : Type ℓ} (o : Option A) → (o ≡ none) ⊎ ((a : A) × (o ≡ some a))
Option-cases none = inl refl
Option-cases (some a) = inr (a, refl)

pub ltb→lt : (a b : ℕ) → ltb a b ≡ true → a < b
ltb→lt a b h = ground arith

pub leb→le : (a b : ℕ) → leb a b ≡ true → a ≤ b
leb→le a b h = ground arith

pub or-true : (p q : Bool) → (p || q) ≡ true → (p ≡ true) ⊎ (q ≡ true)
or-true p q h = ground arith

pub or-true_left : (p q : Bool) → p ≡ true → (p || q) ≡ true
or-true_left p q h = ground arith

pub or-true_right : (p q : Bool) → q ≡ true → (p || q) ≡ true
or-true_right p q h = ground arith

pub and-true : (p q : Bool) → (p && q) ≡ true → (p ≡ true) × (q ≡ true)
and-true p q h = ground arith

-- Whether a test holds of all of 0, 1, …, bound - 1, tried from the top.
unfoldable pub holds_up_to : (ℕ → Bool) → ℕ → Bool
holds_up_to test zero = true
holds_up_to test (suc top) = if test top then holds_up_to test top else false

pub holds_up_to-at :
    (test : ℕ → Bool) (bound k : ℕ) → holds_up_to test bound ≡ true → k < bound → test k ≡ true
unfolding holds_up_to
holds_up_to-at test zero k tried small = absurd (omega arith)
holds_up_to-at test (suc top) k tried small = ground (arith, holds_up_to-at test top k)
