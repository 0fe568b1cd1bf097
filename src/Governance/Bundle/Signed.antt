-- ===== src/Governance/Bundle/Signed.antt =====
-- What the keyless verifier of crates/tako-governance/src/sigstore.rs asks of a leaf certificate.
use tako_ai_core.Common.{
  ◌≡◌, ap, ◌∙◌, inl, inr, true, Bool-cases, str_eq, eq_iff, any, String, some, Option-cases, List,
  trim, arith,
}
use tako_ai_core.Core.Effects.{
  ok, returns, gives, map_err, lift, bind-returns, lift-returns, and_then-ok, ◌>>◌, map_err-ok,
}
use tako_ai_core.Governance.Rekor.{Bytes, Codecs}
use tako_ai_core.Governance.Chain.{SigningScheme, Crypto, Clock, check_validity_now}
use tako_ai_core.Governance.Bundle.Identity.{
  Leaf, IdentityPolicy, code_signing, matches, check_code_signing_eku, extract_san_values,
  extract_oidc_issuer, signing_scheme_for_cert, check_identity,
}
use tako_ai_core.Governance.Bundle.Transparency.{Wire}
use tako_ai_core.Governance.Bundle.{
  KeylessBundle, KeylessVerifier, Anchor, Parsers, check_signature, check_leaf,
}

check_code_signing_eku-any :
    (cert : Leaf)
    → check_code_signing_eku cert ≡ ok tt
    → (eku : List String) × (cert.extended_key_usage ≡ gives (some eku))
      × (any (str_eq code_signing) eku ≡ true)
unfolding check_code_signing_eku
check_code_signing_eku-any cert h =
    let (pair, x, y) = and_then-ok _ _ tt h in
    let z = map_err-ok _ cert.extended_key_usage pair x in
    elim (Option-cases pair) [
      | inl nothing ↦ absurd (ground arith)
      | inr (eku, there_is) ↦
          let y' = rw (there_is) at y in
          elim (Bool-cases (any (str_eq code_signing) eku)) [
            | inl listed ↦ (eku, z ∙ ap gives there_is, listed)
            | inr missing ↦ absurd (ground arith)
          ]
    ]

check_identity-matches :
    (debug : List String → String) (policy : IdentityPolicy) (cert : Leaf)
    → check_identity debug policy cert ≡ ok tt
    → (extract_oidc_issuer cert ≡ ok policy.issuer)
      × ((sans : List String) × (extract_san_values cert ≡ ok sans)
          × (any (matches policy.san_match) sans ≡ true))
unfolding check_identity
check_identity-matches debug policy cert h =
    let (sans, x, h') = and_then-ok (extract_san_values cert) _ tt h in
    let (issuer, y, h'') = and_then-ok (extract_oidc_issuer cert) _ tt h' in
    elim (Bool-cases (str_eq issuer policy.issuer)) [
      | inr other ↦ absurd (ground arith)
      | inl same ↦ elim (Bool-cases (any (matches policy.san_match) sans)) [
        | inr unnamed ↦ absurd (ground arith)
        | inl named ↦
            let is_it : issuer ≡ policy.issuer = (eq_iff _ _).0 same in
            (y ∙ ap ok is_it, (sans, x, named))
      ]
    ]

module _ {W Key : Type 0} (parsers : Parsers) (wire : Wire) (c : Codecs) (crypto : Crypto Key)
    (clock : Clock W) (anchor : Anchor W) where
  -- The manifest carries a signature that the leaf's own key verifies.
  pub record IsSigned (cert : Leaf) (signature_b64 : String) (manifest : Bytes) : Type 0 where
    pub signature : Bytes
    pub decoded : c.b64_decode (trim signature_b64) ≡ gives signature
    pub scheme : SigningScheme
    pub supported : signing_scheme_for_cert cert ≡ ok scheme
    pub spki : Bytes
    pub encoded : cert.certificate.spki_der ≡ gives spki
    pub key : Key
    pub loaded : crypto.from_der spki scheme ≡ gives key
    pub verified : crypto.verify_signature key signature manifest ≡ gives tt

  check_signature-IsSigned :
      (cert : Leaf) (signature_b64 : String) (manifest : Bytes)
      → check_signature parsers wire c crypto clock anchor cert signature_b64 manifest ≡ ok tt
      → IsSigned cert signature_b64 manifest
  unfolding check_signature
  check_signature-IsSigned cert signature_b64 manifest h =
      let (signature, x1, h1) =
        and_then-ok (map_err _ (c.b64_decode (trim signature_b64))) _ tt h in
      let (scheme, x2, h2) = and_then-ok (signing_scheme_for_cert cert) _ tt h1 in
      let (spki, x3, h3) = and_then-ok (map_err _ cert.certificate.spki_der) _ tt h2 in
      let (key, x4, h4) = and_then-ok (map_err _ (crypto.from_der spki scheme)) _ tt h3 in
      record {
        signature = signature;
        decoded = map_err-ok _ _ signature x1;
        scheme = scheme;
        supported = x2;
        spki = spki;
        encoded = map_err-ok _ _ spki x3;
        key = key;
        loaded = map_err-ok _ _ key x4;
        verified = map_err-ok _ _ tt h4;
      }

  -- The leaf was valid when the clock was read, may sign code, belongs to the expected identity, and
  -- signed the manifest.
  pub record IsLeaf (v : KeylessVerifier Key) (cert : Leaf) (bundle : KeylessBundle)
      (manifest : Bytes) (w : W) : Type 0 where
    pub read : W
    pub valid : check_validity_now clock cert.certificate w ≡ returns tt read
    pub usages : List String
    pub has_usages : cert.extended_key_usage ≡ gives (some usages)
    pub signs_code : any (str_eq code_signing) usages ≡ true
    pub issued_by : extract_oidc_issuer cert ≡ ok v.identity.issuer
    pub names : List String
    pub has_names : extract_san_values cert ≡ ok names
    pub named : any (matches v.identity.san_match) names ≡ true
    pub signed : IsSigned cert bundle.signature_b64 manifest

  pub check_leaf-IsLeaf :
      (k : KeylessVerifier Key) (cert : Leaf) (bundle : KeylessBundle) (manifest : Bytes) (w v : W)
      → check_leaf parsers wire c crypto clock anchor k cert bundle manifest w ≡ returns tt v
      → IsLeaf k cert bundle manifest w
  unfolding check_leaf
  check_leaf-IsLeaf k cert bundle manifest w v h =
      let valid = check_validity_now clock cert.certificate in
      let eku = lift {W = W} (check_code_signing_eku cert) in
      let identity = lift {W = W} (check_identity parsers.debug k.identity cert) in
      let (u3, w3, h3, signs) = bind-returns (valid >> eku >> identity) _ w v tt h in
      let (u2, w2, h2, names) = bind-returns (valid >> eku) _ w w3 u3 h3 in
      let (u1, w1, h1, usage) = bind-returns valid _ w w2 u2 h2 in
      let (usages, has_usages, signs_code) =
        check_code_signing_eku-any cert (lift-returns _ w1 w2 tt usage).0 in
      let (issued_by, (sans, has_sans, is_named)) =
        check_identity-matches parsers.debug k.identity cert (lift-returns _ w2 w3 tt names).0 in
      record {
        read = w1;
        valid = h1;
        usages = usages;
        has_usages = has_usages;
        signs_code = signs_code;
        issued_by = issued_by;
        names = sans;
        has_names = has_sans;
        named = is_named;
        signed =
            check_signature-IsSigned cert bundle.signature_b64 manifest
              (lift-returns _ w3 v tt signs).0;
      }
