-- ===== src/Governance/Chain/Trust.antt =====
-- What a chain that `verify_chain` accepts looks like.
use tako_ai_core.Common.{
  ℕ, zero, suc, ◌≤◌, ◌≡◌, ◌∙◌, ◌⊎◌, inl, inr, true, false, Bool-cases, Option-cases, str_eq, eq_iff,
  String, some, List, [], ◌∷◌, any, All, In, here, there, arith,
}
use tako_ai_core.Core.Effects.{returns, ok, gives, Result-cases, Outcome-cases}
use tako_ai_core.Core.Types.{saturating_add, u32_max}
use tako_ai_core.Governance.Chain.{
  BasicConstraints, Extension, Certificate, TrustRoot, Crypto, Clock, recognised, check_extensions,
  check_critical_extensions_known, check_issuer_is_ca, check_path_len, find_subject, pick_issuer,
  is_pinned, verify_one_signature, check_anchor, check_issuer, check_validity_now, hops,
  verify_chain,
}

-- Every critical extension is one that the verifier knows.
abbrev pub KnownCritical : Certificate → Type 0
KnownCritical cert =
    (exts : List Extension)
    → cert.extensions ≡ some exts
    → All (λ x. x.critical ≡ true → any (str_eq x.extn_id) recognised ≡ true) exts

-- The parsed constraints say that this is a certificate authority.
abbrev pub IsCa : Certificate → BasicConstraints → Type 0
IsCa cert bc = (cert.basic_constraints ≡ gives (some bc)) × (bc.ca ≡ true)

-- `below` intermediates are not more than the constraint allows.
abbrev pub Allows : BasicConstraints → ℕ → Type 0
Allows bc below = (budget : ℕ) → bc.path_len_constraint ≡ some budget → below ≤ budget

check_extensions_known :
    (exts : List Extension)
    → check_extensions exts ≡ ok tt
    → All (λ x. x.critical ≡ true → any (str_eq x.extn_id) recognised ≡ true) exts
unfolding check_extensions any
check_extensions_known [] h = tt
check_extensions_known (x ∷ exts) h =
    (λ critical. ground arith, check_extensions_known exts (ground arith))

critical-KnownCritical :
    (cert : Certificate) → check_critical_extensions_known cert ≡ ok tt → KnownCritical cert
critical-KnownCritical cert h exts e = check_extensions_known exts (rw e at h)

check_issuer_is_ca-IsCa :
    (cert : Certificate) (bc : BasicConstraints) → check_issuer_is_ca cert ≡ ok bc → IsCa cert bc
unfolding check_issuer_is_ca
check_issuer_is_ca-IsCa cert bc h = (ground arith, ground arith)

path_len-Allows :
    (bc : BasicConstraints) (below : ℕ) → check_path_len bc below ≡ ok tt → Allows bc below
path_len-Allows bc below h budget e = ground arith

find_subject-In :
    (name : String) (cs : List Certificate) (c : Certificate)
    → find_subject name cs ≡ some c
    → (c.subject ≡ name) × In c cs
unfolding find_subject
find_subject-In name [] c h = cc
find_subject-In name (d ∷ cs) c h = elim (Bool-cases (str_eq d.subject name)) [
  | inl t ↦ let same : d ≡ c = cc in (ground (arith, eq_iff c.subject name), rw same here)
  | inr t ↦ let (n, i) = find_subject-In name cs c (rw t at h) in (n, there i)
]

module _ {W Key : Type 0} (crypto : Crypto Key) (clock : Clock W) (bundle : List Certificate)
    (trust : TrustRoot) where
  -- Valid at a time that the clock showed.
  pub record ValidOnce (cert : Certificate) : Type 0 where
    pub world : W
    pub begun : cert.not_before ≤ (clock.now world).0
    pub not_over : (clock.now world).0 ≤ cert.not_after

  -- One of the certificates that an issuer is looked for in.
  abbrev pub Offered : Certificate → Type 0
  Offered c = In c bundle ⊎ In c trust.intermediates ⊎ In c trust.roots

  -- `issuer` may vouch for `current` with `below` intermediates between it and the leaf.
  pub record Vouches (issuer current : Certificate) (below : ℕ) : Type 0 where
    pub name : issuer.subject ≡ current.issuer
    pub offered : Offered issuer
    pub signed : verify_one_signature crypto current issuer ≡ ok tt
    pub constraints : BasicConstraints
    pub authority : IsCa issuer constraints
    pub known : KnownCritical issuer
    pub allowed : Allows constraints below

  -- A way of at most `left` hops from a certificate to a pinned root.
  pub data Trusted : ℕ → ℕ → Certificate → Type 0 where
    anchor :
        {left below : ℕ} {c : Certificate} (bc : BasicConstraints)
        → ValidOnce c
        → is_pinned trust c ≡ true
        → c.subject ≡ c.issuer
        → verify_one_signature crypto c c ≡ ok tt
        → IsCa c bc
        → KnownCritical c
        → Trusted (suc left) below c
    under_root :
        {left below : ℕ} {c : Certificate} (issuer : Certificate)
        → ValidOnce c
        → Vouches issuer c below
        → is_pinned trust issuer ≡ true
        → ValidOnce issuer
        → Trusted (suc left) below c
    under_intermediate :
        {left below : ℕ} {c : Certificate} (issuer : Certificate)
        → ValidOnce c
        → Vouches issuer c below
        → Trusted left (saturating_add u32_max below 1) issuer
        → Trusted (suc left) below c

  valid-ValidOnce :
      (cert : Certificate) (w w' : W)
      → check_validity_now clock cert w ≡ returns tt w'
      → ValidOnce cert
  unfolding check_validity_now
  valid-ValidOnce cert w w' h = record { world = w; begun = ground arith; not_over = ground arith }

  anchor_parts :
      (c : Certificate)
      → check_anchor crypto c ≡ ok tt
      → (verify_one_signature crypto c c ≡ ok tt)
        × (bc : BasicConstraints) × (check_issuer_is_ca c ≡ ok bc)
        × (check_critical_extensions_known c ≡ ok tt)
  unfolding check_anchor
  anchor_parts c h = ground arith

  issuer_parts :
      (current issuer : Certificate) (below : ℕ)
      → check_issuer crypto current issuer below ≡ ok tt
      → (verify_one_signature crypto current issuer ≡ ok tt)
        × (bc : BasicConstraints) × (check_issuer_is_ca issuer ≡ ok bc)
        × (check_critical_extensions_known issuer ≡ ok tt)
        × (check_path_len bc below ≡ ok tt)
  unfolding check_issuer
  issuer_parts current issuer below h = ground arith

  pick-Offered :
      (name : String) (c : Certificate)
      → pick_issuer bundle trust name ≡ some c
      → (c.subject ≡ name) × Offered c
  pick-Offered name c h = elim (Option-cases (find_subject name bundle)) [
    | inr (d, e) ↦ let (n, i) = find_subject-In name bundle c (e ∙ (rw e at h)) in (n, inl i)
    | inl e ↦ elim (Option-cases (find_subject name trust.intermediates)) [
      | inr (d, f) ↦
          let (n, i) = find_subject-In name trust.intermediates c (f ∙ (rw (e, f) at h)) in
          (n, inr (inl i))
      | inl f ↦ let (n, i) = find_subject-In name trust.roots c (rw (e, f) at h) in (n, inr (inr i))
    ]
  ]

  issuer-Vouches :
      (current issuer : Certificate) (below : ℕ)
      → pick_issuer bundle trust current.issuer ≡ some issuer
      → check_issuer crypto current issuer below ≡ ok tt
      → Vouches issuer current below
  issuer-Vouches current issuer below picked checked =
      let (n, o) = pick-Offered current.issuer issuer picked in
      let (s, bc, ca, k, l) = issuer_parts current issuer below checked in
      record {
        name = n;
        offered = o;
        signed = s;
        constraints = bc;
        authority = check_issuer_is_ca-IsCa issuer bc ca;
        known = critical-KnownCritical issuer k;
        allowed = path_len-Allows bc below l;
      }

  -- one hop that found an issuer, taken apart
  hop_issued :
      (left below : ℕ) (current : Certificate) (w w' : W)
      → str_eq current.subject current.issuer ≡ false
      → hops crypto clock bundle trust (suc left) below current w ≡ returns tt w'
      → (w'' : W) × (issuer : Certificate) × (check_validity_now clock current w ≡ returns tt w'')
        × (pick_issuer bundle trust current.issuer ≡ some issuer)
        × (check_issuer crypto current issuer below ≡ ok tt)
        × (((is_pinned trust issuer ≡ true) × (check_validity_now clock issuer w'' ≡ returns tt w'))
            ⊎ (hops crypto clock bundle trust left (saturating_add u32_max below 1) issuer w''
                ≡ returns tt w'))
  unfolding hops
  hop_issued left below current w w' o h =
      elim (Outcome-cases (check_validity_now clock current w)) [
        | inr (e, v, x) ↦ absurd (ground arith)
        | inl (_, v, x) ↦ elim (Option-cases (pick_issuer bundle trust current.issuer)) [
          | inl n ↦ absurd (ground arith)
          | inr (issuer, n) ↦ elim (Result-cases (check_issuer crypto current issuer below)) [
            | inr (e, k) ↦ absurd (ground arith)
            | inl (_, k) ↦ elim (Bool-cases (is_pinned trust issuer)) [
              | inl p ↦ (v, issuer, x, n, k, inl (p, ground arith))
              | inr p ↦ (v, issuer, x, n, k, inr (ground arith))
            ]
          ]
        ]
      ]

  hop_anchored :
      (left below : ℕ) (current : Certificate) (w w' : W)
      → str_eq current.subject current.issuer ≡ true
      → hops crypto clock bundle trust (suc left) below current w ≡ returns tt w'
      → ((w'' : W) × (check_validity_now clock current w ≡ returns tt w''))
        × (is_pinned trust current ≡ true)
        × (check_anchor crypto current ≡ ok tt)
  unfolding hops
  hop_anchored left below current w w' o h =
      elim (Outcome-cases (check_validity_now clock current w)) [
        | inr (e, v, x) ↦ absurd (ground arith)
        | inl (_, v, x) ↦ ((v, x), ground arith, ground arith)
      ]

  no_hops :
      (below : ℕ) (current : Certificate) (w w' : W)
      → ¬ (hops crypto clock bundle trust zero below current w ≡ returns tt w')
  unfolding hops
  no_hops below current w w' h = cc

  hops-Trusted :
      (left below : ℕ) (current : Certificate) (w w' : W)
      → hops crypto clock bundle trust left below current w ≡ returns tt w'
      → Trusted left below current
  hops-Trusted zero below current w w' h = absurd (no_hops below current w w' h)
  hops-Trusted (suc left) below current w w' h =
      elim (Bool-cases (str_eq current.subject current.issuer)) [
        | inl o ↦
            let ((v, x), p, a) = hop_anchored left below current w w' o h in
            let (s, bc, ca, k) = anchor_parts current a in
            anchor bc (valid-ValidOnce current w v x) p ((eq_iff _ _).0 o) s
              (check_issuer_is_ca-IsCa current bc ca) (critical-KnownCritical current k)
        | inr o ↦
            let (v, issuer, x, n, k, further) = hop_issued left below current w w' o h in
            let vouched = issuer-Vouches current issuer below n k in
            elim further [
              | inl (p, y) ↦
                  under_root issuer (valid-ValidOnce current w v x) vouched p
                    (valid-ValidOnce issuer v w' y)
              | inr y ↦
                  under_intermediate issuer (valid-ValidOnce current w v x) vouched
                    (hops-Trusted left (saturating_add u32_max below 1) issuer v w' y)
            ]
      ]

  -- If a chain is accepted, at most 16 hops lead from the leaf to a pinned root: every certificate
  -- on the way was valid when the clock was read, is signed by the next, and every issuer is one of
  -- those offered, a certificate authority without unknown critical extensions, whose limit allows
  -- the intermediates below it; the way ends below a pinned root or at one that signs itself.
  pub verify_chain-Trusted :
      (leaf : Certificate) (w w' : W)
      → verify_chain crypto clock bundle trust leaf w ≡ returns tt w'
      → Trusted 16 0 leaf
  unfolding verify_chain
  verify_chain-Trusted leaf w w' h = hops-Trusted 16 0 leaf w w' h
