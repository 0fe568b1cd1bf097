-- ===== src/Governance/Bundle/Identity.antt =====
-- crates/tako-governance/src/sigstore.rs: who a leaf certificate says has signed. The extensions
-- stand as the `x509_cert` crate decodes them; a regular expression is its test.
use tako_ai_core.Common.{
  Bool, true, false, ◌&&◌, str_eq, if◌then◌else◌, any, String, Option, none, some, List, [], ◌∷◌,
}
use tako_ai_core.Core.Error.{lit, invalid}
use tako_ai_core.Core.Effects.{Result, ok, err, Foreign, map_err, and_then}
use tako_ai_core.Governance.Chain.{
  Certificate, SigningScheme, ecdsa_p256_sha256, ecdsa_p384_sha384, rsa_pkcs1_sha256_2048,
}

pub data GeneralName : Type 0 where
  rfc822_name uniform_resource_identifier dns_name : String → GeneralName
  other_name : GeneralName

-- an extension of the leaf, and its value read as UTF-8 and as an IA5String
pub record LeafExtension : Type 0 where
  pub extn_id : String
  pub as_utf8 : Foreign String
  pub as_ia5 : Foreign String

pub record Leaf : Type 0 where
  pub certificate : Certificate
  pub extended_key_usage : Foreign (Option (List String))
  pub subject_alt_name : Foreign (Option (List GeneralName))
  pub extensions : Option (List LeafExtension)

pub data SanMatch : Type 0 where
  exact : String → SanMatch
  regex : (String → Bool) → SanMatch

pub record IdentityPolicy : Type 0 where
  pub issuer : String
  pub san_match : SanMatch

abbrev pub code_signing : String
code_signing = "1.3.6.1.5.5.7.3.3"

abbrev pub fulcio_oidc_issuer_v1 : String
fulcio_oidc_issuer_v1 = "1.3.6.1.4.1.57264.1.1"

abbrev pub fulcio_oidc_issuer_v2 : String
fulcio_oidc_issuer_v2 = "1.3.6.1.4.1.57264.1.8"

unfoldable pub matches : SanMatch → String → Bool
matches (exact s) value = str_eq s value
matches (regex is_match) value = is_match value

unfoldable pub check_code_signing_eku : Leaf → Result (Unit {0})
unfolding any
check_code_signing_eku cert =
    and_then
      (map_err (λ e. invalid (lit "sigstore: cert EKU extension: " ∷ e)) cert.extended_key_usage)
      λ pair. elim pair [
        | none ↦ err (invalid (lit "sigstore: cert missing ExtendedKeyUsage extension" ∷ []))
        | some eku ↦
            if any (str_eq code_signing) eku
            then ok tt
            else err (invalid (lit "sigstore: cert EKU does not include codeSigning" ∷ []))
      ]

-- the names that are texts
unfoldable pub san_values : List GeneralName → List String
san_values [] = []
san_values (rfc822_name s ∷ rest) = s ∷ san_values rest
san_values (uniform_resource_identifier s ∷ rest) = s ∷ san_values rest
san_values (dns_name s ∷ rest) = s ∷ san_values rest
san_values (other_name ∷ rest) = san_values rest

unfoldable pub extract_san_values : Leaf → Result (List String)
unfolding san_values
extract_san_values cert =
    and_then
      (map_err (λ e. invalid (lit "sigstore: cert SAN extension: " ∷ e)) cert.subject_alt_name)
      λ pair. elim pair [
        | none ↦ err (invalid (lit "sigstore: cert missing SubjectAltName extension" ∷ []))
        | some names ↦ elim (san_values names) [
          | [] ↦ err (invalid (lit "sigstore: cert SAN has no rfc822/URI/DNS entry" ∷ []))
          | s ∷ ss ↦ ok (s ∷ ss)
        ]
      ]

-- the first of the two Fulcio extensions that is there
unfoldable pub issuer_in : List LeafExtension → Result String
issuer_in [] =
    err (invalid (lit "sigstore: cert has no Fulcio OIDC issuer extension (v1 or v2)" ∷ []))
issuer_in (ext ∷ rest) = elim (str_eq ext.extn_id fulcio_oidc_issuer_v1) [
  | true ↦ map_err (λ e. invalid (lit "sigstore: OIDC issuer (v1) utf8: " ∷ e)) ext.as_utf8
  | false ↦ elim (str_eq ext.extn_id fulcio_oidc_issuer_v2) [
    | true ↦ map_err (λ e. invalid (lit "sigstore: OIDC issuer (v2): " ∷ e)) ext.as_ia5
    | false ↦ issuer_in rest
  ]
]

unfoldable pub extract_oidc_issuer : Leaf → Result String
unfolding issuer_in
extract_oidc_issuer cert = elim cert.extensions [
  | none ↦ err (invalid (lit "sigstore: cert has no extensions" ∷ []))
  | some extensions ↦ issuer_in extensions
]

unfoldable pub signing_scheme_for_cert : Leaf → Result SigningScheme
signing_scheme_for_cert cert =
    let sig_alg = cert.certificate.signature_algorithm in
    let alg_oid = cert.certificate.key_algorithm in
    if str_eq sig_alg "1.2.840.10045.4.3.2" && str_eq alg_oid "1.2.840.10045.2.1"
    then ok ecdsa_p256_sha256
    else if str_eq sig_alg "1.2.840.10045.4.3.3" && str_eq alg_oid "1.2.840.10045.2.1"
    then ok ecdsa_p384_sha384
    else if str_eq sig_alg "1.2.840.113549.1.1.11" && str_eq alg_oid "1.2.840.113549.1.1.1"
    then ok rsa_pkcs1_sha256_2048
    else err (
        invalid (
          lit "sigstore: unsupported cert signature algorithm `"
          ∷ lit sig_alg
          ∷ lit "` over key `"
          ∷ lit alg_oid
          ∷ lit "`"
          ∷ []))

-- `{:?}` of the list of names is an argument.
unfoldable pub check_identity : (List String → String) → IdentityPolicy → Leaf → Result (Unit {0})
unfolding extract_san_values extract_oidc_issuer matches any
check_identity debug policy cert = and_then (extract_san_values cert) λ sans.
    and_then (extract_oidc_issuer cert) λ issuer.
      if str_eq issuer policy.issuer
      then (if any (matches policy.san_match) sans
          then ok tt
          else err (
              invalid (
                lit "sigstore: no cert SAN in "
                ∷ lit (debug sans)
                ∷ lit " matches identity policy"
                ∷ [])))
      else err (
          invalid (
            lit "sigstore: cert OIDC issuer `"
            ∷ lit issuer
            ∷ lit "` does not match expected `"
            ∷ lit policy.issuer
            ∷ lit "`"
            ∷ []))
