-- ===== src/Governance/Chain.antt =====
-- The chain-of-trust walk of crates/tako-governance/src/sigstore.rs. A certificate is what the
-- `x509_cert` crate parsed; names and object identifiers are only compared, and stand as texts.
pub mod Trust
pub mod Examples
use tako_ai_core.Common.{
  ℕ, zero, suc, Bool, true, false, not, ◌&&◌, ◌||◌, ltb, str_eq, if◌then◌else◌, String, Option,
  none, some, List, [], ◌∷◌, any,
}
use tako_ai_core.Core.Error.{TakoError, lit, num, invalid}
use tako_ai_core.Core.Effects.{
  Io, Outcome, returns, raises, Result, ok, err, Foreign, gives, breaks, map_err, and_then, lift,
  ◌>>=◌, ◌>>◌,
}
use tako_ai_core.Core.Types.{saturating_add, u32_max}
use tako_ai_core.Governance.Rekor.{Bytes, bytes_eq}

pub record BasicConstraints : Type 0 where
  pub ca : Bool
  pub path_len_constraint : Option ℕ

pub record Extension : Type 0 where
  pub extn_id : String
  pub critical : Bool

-- `spki_der`, `tbs_der` and `der` are the results of `to_der`.
pub record Certificate : Type 0 where
  pub subject : String
  pub issuer : String
  pub not_before : ℕ
  pub not_after : ℕ
  pub signature_algorithm : String
  pub key_algorithm : String
  pub signature : Bytes
  pub spki_der : Foreign Bytes
  pub tbs_der : Foreign Bytes
  pub der : Foreign Bytes
  pub basic_constraints : Foreign (Option BasicConstraints)
  pub extensions : Option (List Extension)

pub record TrustRoot : Type 0 where
  pub roots : List Certificate
  pub intermediates : List Certificate

pub data SigningScheme : Type 0 where
  ecdsa_p256_sha256 ecdsa_p384_sha384 rsa_pkcs1_sha256_2048 : SigningScheme

-- the `sigstore` crate's keys, and the system's clock
pub record Crypto (Key : Type 0) : Type 0 where
  pub from_der : Bytes → SigningScheme → Foreign Key
  pub verify_signature : Key → Bytes → Bytes → Foreign (Unit {0})

pub record Clock (W : Type 0) : Type 0 where
  pub now : W → ℕ × W

unfoldable pub chain_signing_scheme : Certificate → Certificate → Result SigningScheme
chain_signing_scheme child issuer =
    let sig_alg = child.signature_algorithm in
    let key_alg = issuer.key_algorithm in
    if str_eq sig_alg "1.2.840.10045.4.3.2" && str_eq key_alg "1.2.840.10045.2.1"
    then ok ecdsa_p256_sha256
    else if str_eq sig_alg "1.2.840.10045.4.3.3" && str_eq key_alg "1.2.840.10045.2.1"
    then ok ecdsa_p384_sha384
    else if str_eq sig_alg "1.2.840.113549.1.1.11" && str_eq key_alg "1.2.840.113549.1.1.1"
    then ok rsa_pkcs1_sha256_2048
    else err (
        invalid (
          lit "sigstore: unsupported chain signature algorithm `"
          ∷ lit sig_alg
          ∷ lit "` over key `"
          ∷ lit key_alg
          ∷ lit "`"
          ∷ []))

unfoldable pub check_issuer_is_ca : Certificate → Result BasicConstraints
check_issuer_is_ca issuer =
    and_then
      (map_err (λ e. invalid (lit "sigstore: chain BasicConstraints parse: " ∷ e))
        issuer.basic_constraints)
      (λ pair. elim pair [
        | none ↦ err (
            invalid
              (lit "sigstore: chain issuer missing BasicConstraints (RFC 5280 §4.2.1.9)" ∷ []))
        | some bc ↦
            if not bc.ca
            then err (
                invalid
                  (lit "sigstore: chain issuer has BasicConstraints cA=FALSE (not a CA)" ∷ []))
            else ok bc
      ])

-- the identifiers of the extensions that the verifier knows
abbrev pub recognised : List String
recognised =
    "2.5.29.19" ∷ "2.5.29.15" ∷ "2.5.29.37" ∷ "2.5.29.17" ∷ "2.5.29.14" ∷ "2.5.29.35"
    ∷ "1.3.6.1.4.1.57264.1.1" ∷ "1.3.6.1.4.1.57264.1.8" ∷ []

unfoldable pub check_extensions : List Extension → Result (Unit {0})
unfolding any
check_extensions [] = ok tt
check_extensions (ext ∷ rest) =
    let next = check_extensions rest in
    if ext.critical && not (any (str_eq ext.extn_id) recognised)
    then err (
        invalid (
          lit "sigstore: chain cert carries unrecognised critical extension OID `"
          ∷ lit ext.extn_id
          ∷ lit "`"
          ∷ []))
    else next

abbrev pub check_critical_extensions_known : Certificate → Result (Unit {0})
check_critical_extensions_known cert = elim cert.extensions [
  | none ↦ ok tt
  | some exts ↦ check_extensions exts
]

unfoldable pub cert_eq : Certificate → Certificate → Bool
cert_eq a b = elim a.der [
  | gives x ↦ elim b.der [ gives y ↦ bytes_eq x y | breaks _ ↦ false ]
  | breaks _ ↦ false
]

unfoldable pub find_subject : String → List Certificate → Option Certificate
find_subject name [] = none
find_subject name (c ∷ cs) =
    let next = find_subject name cs in if str_eq c.subject name then some c else next

abbrev pub or_else : Option Certificate → Option Certificate → Option Certificate
or_else none o = o
or_else (some c) o = some c

-- the issuer: from the bundle, the pinned intermediates, or the roots
abbrev pub pick_issuer : List Certificate → TrustRoot → String → Option Certificate
pick_issuer bundle trust name =
    or_else (or_else (find_subject name bundle) (find_subject name trust.intermediates))
      (find_subject name trust.roots)

unfoldable pub is_pinned : TrustRoot → Certificate → Bool
is_pinned trust cert = any (λ r. cert_eq r cert) trust.roots

abbrev pub check_path_len : BasicConstraints → ℕ → Result (Unit {0})
check_path_len bc below = elim bc.path_len_constraint [
  | none ↦ ok tt
  | some budget ↦
      if ltb budget below
      then err (
          invalid (
            lit "sigstore: chain pathLenConstraint exceeded (issuer budget "
            ∷ num budget
            ∷ lit ", "
            ∷ num below
            ∷ lit " intermediate(s) below it)"
            ∷ []))
      else ok tt
]

module _ {Key : Type 0} (crypto : Crypto Key) where
  unfoldable pub verify_one_signature : Certificate → Certificate → Result (Unit {0})
  verify_one_signature child issuer = and_then (chain_signing_scheme child issuer) λ scheme.
      and_then (map_err (λ e. invalid (lit "sigstore: issuer spki encode: " ∷ e)) issuer.spki_der)
        λ spki.
          and_then
            (map_err (λ e. invalid (lit "sigstore: issuer key unsupported: " ∷ e))
              (crypto.from_der spki scheme))
            λ key.
              and_then (map_err (λ e. invalid (lit "sigstore: tbs encode: " ∷ e)) child.tbs_der)
                λ tbs.
                  map_err (λ e. invalid (lit "sigstore: chain signature invalid: " ∷ e))
                    (crypto.verify_signature key child.signature tbs)

  -- what a self-signed certificate in the roots must pass
  pub check_anchor : Certificate → Result (Unit {0})
  check_anchor current =
      and_then (verify_one_signature current current)
        λ _. and_then (check_issuer_is_ca current) λ _. check_critical_extensions_known current

  -- what the chosen issuer must pass
  unfoldable pub check_issuer : Certificate → Certificate → ℕ → Result (Unit {0})
  check_issuer current issuer below = and_then (verify_one_signature current issuer) λ _.
      and_then (check_issuer_is_ca issuer)
        λ bc. and_then (check_critical_extensions_known issuer) λ _. check_path_len bc below

module _ {W : Type 0} (clock : Clock W) where
  unfoldable pub check_validity_now : Certificate → Io W (Unit {0})
  check_validity_now cert w =
      let (now, w') = clock.now w in
      if ltb now cert.not_before
      then raises
          (invalid
            (lit "sigstore: cert not yet valid (notBefore=" ∷ num cert.not_before ∷ lit ")" ∷ []))
          w'
      else if ltb cert.not_after now
      then raises
          (invalid (lit "sigstore: cert expired (notAfter=" ∷ num cert.not_after ∷ lit ")" ∷ [])) w'
      else returns tt w'

abbrev pub not_pinned : TakoError
not_pinned =
    invalid
      (lit "sigstore: chain ends at a self-signed cert that is not in the pinned trust root" ∷ [])

abbrev pub unknown_issuer : TakoError
unknown_issuer =
    invalid (lit "sigstore: chain has unknown issuer (no matching intermediate or root)" ∷ [])

abbrev pub too_deep : TakoError
too_deep =
    invalid (lit "sigstore: chain depth exceeded 16 hops without reaching a pinned root" ∷ [])

module _ {W Key : Type 0} (crypto : Crypto Key) (clock : Clock W) (bundle : List Certificate)
    (trust : TrustRoot) where
  -- the `for` loop, by the hops that are left
  unfoldable pub hops : ℕ → ℕ → Certificate → Io W (Unit {0})
  hops zero below current w = raises too_deep w
  hops (suc left) below current w = elim (check_validity_now clock current w) [
    | raises e w' ↦ raises e w'
    | returns _ w' ↦
        if str_eq current.subject current.issuer
        then (if is_pinned trust current
            then lift (check_anchor crypto current) w'
            else raises not_pinned w')
        else elim (pick_issuer bundle trust current.issuer) [
          | none ↦ raises unknown_issuer w'
          | some issuer ↦ elim (check_issuer crypto current issuer below) [
            | err e ↦ raises e w'
            | ok _ ↦
                let up = hops left (saturating_add u32_max below 1) issuer w' in
                if is_pinned trust issuer then check_validity_now clock issuer w' else up
          ]
        ]
  ]

  unfoldable pub verify_chain : Certificate → Io W (Unit {0})
  verify_chain leaf = hops 16 0 leaf
