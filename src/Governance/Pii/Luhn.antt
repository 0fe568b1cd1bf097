-- ===== src/Governance/Pii/Luhn.antt =====
-- The check digit finds every single mistyped digit.
use tako_ai_core.Common.{ℕ, ◌+◌, ◌%◌, ◌<◌, ◌≡◌, refl, true, List, [], ◌∷◌, ◌++◌, length, arith}
use tako_ai_core.Governance.Pii.{reversed, weight, luhn_sum, luhn_digits}

weight_small : (i d : ℕ) → d < 10 → weight i d < 10
unfolding weight
weight_small i d h = ground arith

-- Doubling and taking the digit sum tells all ten digits apart.
weight_distinct : (i d e : ℕ) → d < 10 → e < 10 → weight i d ≡ weight i e → d ≡ e
unfolding weight
weight_distinct i d e h k w = ground arith

luhn_sum_at :
    (i d e : ℕ) (xs ys : List ℕ)
    → (j rest : ℕ) × (luhn_sum i (xs ++ d ∷ ys) ≡ weight j d + rest)
      × (luhn_sum i (xs ++ e ∷ ys) ≡ weight j e + rest)
unfolding luhn_sum
luhn_sum_at i d e [] ys = (i, luhn_sum (i + 1) ys, refl, refl)
luhn_sum_at i d e (x ∷ xs) ys =
    let (j, rest, p, q) = luhn_sum_at (i + 1) d e xs ys in
    (j, weight i x + rest, omega (arith, p), omega (arith, q))

reversed-append : (ys zs us : List ℕ) → reversed ys (zs ++ us) ≡ reversed ys zs ++ us
unfolding reversed
reversed-append [] zs us = refl
reversed-append (y ∷ ys) zs us = reversed-append ys (y ∷ zs) us

reversed_at :
    (xs ys acc : List ℕ) (d : ℕ)
    → reversed (xs ++ d ∷ ys) acc ≡ reversed ys [] ++ d ∷ reversed xs acc
unfolding reversed
reversed_at [] ys acc d = reversed-append ys [] (d ∷ acc)
reversed_at (x ∷ xs) ys acc d = reversed_at xs ys (x ∷ acc) d

length_at : (xs ys : List ℕ) (d e : ℕ) → length (xs ++ d ∷ ys) ≡ length (xs ++ e ∷ ys)
length_at [] ys d e = refl
length_at (x ∷ xs) ys d e = omega (arith, length_at xs ys d e)

luhn_sum_of : (ds : List ℕ) → luhn_digits ds ≡ true → luhn_sum 0 (reversed ds []) % 10 ≡ 0
unfolding luhn_digits
luhn_sum_of ds h = ground arith

same_weight : (v w rest : ℕ) → v < 10 → w < 10 → (v + rest) % 10 ≡ 0 → (w + rest) % 10 ≡ 0 → v ≡ w
same_weight v w rest a b h k = omega arith

-- Of two digit strings that differ in one place at most one passes the check.
pub luhn_digits_apart :
    (xs ys : List ℕ) (d e : ℕ)
    → d < 10
    → e < 10
    → luhn_digits (xs ++ d ∷ ys) ≡ true
    → luhn_digits (xs ++ e ∷ ys) ≡ true
    → d ≡ e
luhn_digits_apart xs ys d e small little h k =
    let (j, rest, p, q) = luhn_sum_at 0 d e (reversed ys []) (reversed xs []) in
    let s = luhn_sum_of (xs ++ d ∷ ys) h in
    let t = luhn_sum_of (xs ++ e ∷ ys) k in
    let u = (rw (reversed_at xs ys [] d, p) at s) in
    let v = (rw (reversed_at xs ys [] e, q) at t) in
    weight_distinct j d e small little (
      same_weight (weight j d) (weight j e) rest (weight_small j d small) (weight_small j e little)
        u v)
