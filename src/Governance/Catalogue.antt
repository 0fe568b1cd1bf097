-- ===== src/Governance/Catalogue.antt =====
-- crates/tako-governance/src/sigstore.rs: CatalogueVerifier, which checks a tool catalogue's signature with
-- a pinned key. The key, its check of a signature, and reading a file are arguments.
use tako_ai_core.Common.{
  ℕ, ◌≡◌, Bool, false, ◌==◌, ◌&&◌, ◌||◌, leb, if◌then◌else◌, String, [], ◌∷◌, all,
}
use tako_ai_core.Core.Error.{lit, invalid}
use tako_ai_core.Core.Effects.{
  Io, Result, ok, lift, Foreign, gives, ForeignOutcome, map_err, map_err-ok, map_err_io, and_then,
  and_then-ok, ◌>>=◌,
}
use tako_ai_core.Governance.Rekor.{Bytes}
use tako_ai_core.Governance.Bundle.{Catalogue, Parsers}

pub data Signature : Type 0 where
  base64_encoded raw : Bytes → Signature

-- `CosignVerificationKey`
pub record CosignKeys (Key Scheme : Type 0) : Type 0 where
  pub from_pem : Bytes → Scheme → Foreign Key
  pub default_scheme : Scheme
  pub verify_signature : Key → Signature → Bytes → Foreign (Unit {0})

abbrev pub is_base64_byte : ℕ → Bool
is_base64_byte b =
    leb b'0' b && leb b b'9'
    || leb b'A' b && leb b b'Z'
    || leb b'a' b && leb b b'z'
    || b == b'+'
    || b == b'/'
    || b == b'='
    || b == 13
    || b == 10
    || b == b' '

unfoldable pub looks_base64 : Bytes → Bool
looks_base64 [] = false
looks_base64 (b ∷ bs) = all is_base64_byte (b ∷ bs)

abbrev pub encoding_of : Bytes → Signature
encoding_of signature = if looks_base64 signature then base64_encoded signature else raw signature

module _ {Key Scheme : Type 0} (keys : CosignKeys Key Scheme) where
  unfoldable pub with_scheme : Bytes → Scheme → Result Key
  with_scheme pem scheme =
      map_err (λ e. invalid (lit "sigstore: invalid public key: " ∷ e)) (keys.from_pem pem scheme)

  unfoldable pub from_pem : Bytes → Result Key
  from_pem pem = with_scheme pem keys.default_scheme

  unfoldable pub from_pem_path :
      {W : Type 0} → (String → W → ForeignOutcome W Bytes) → String → Io W Key
  from_pem_path read path =
      map_err_io (λ e. invalid (lit "sigstore: read pem: " ∷ e)) (read path) >>= λ pem.
      lift (from_pem pem)

  module _ (parsers : Parsers) where
    -- `CatalogueVerifier::verify`, of a verifier with this key
    unfoldable pub verify : Key → Bytes → Bytes → Result Catalogue
    verify key manifest_bytes signature =
        and_then
          (map_err (λ e. invalid (lit "sigstore: signature invalid: " ∷ e))
            (keys.verify_signature key (encoding_of signature) manifest_bytes))
          λ _.
            map_err (λ e. invalid (lit "sigstore: catalogue parse: " ∷ e))
              (parsers.catalogue manifest_bytes)

    -- A catalogue comes out only of the bytes that the pinned key's signature covers.
    pub verify-Signed :
        (key : Key) (manifest_bytes signature : Bytes) (c : Catalogue)
        → verify key manifest_bytes signature ≡ ok c
        → (keys.verify_signature key (encoding_of signature) manifest_bytes ≡ gives tt)
          × (parsers.catalogue manifest_bytes ≡ gives c)
    unfolding verify
    verify-Signed key manifest_bytes signature c h =
        let (_, signed, parsed) =
          and_then-ok
            (map_err (λ e. invalid (lit "sigstore: signature invalid: " ∷ e))
              (keys.verify_signature key (encoding_of signature) manifest_bytes))
            (λ _.
              map_err (λ e. invalid (lit "sigstore: catalogue parse: " ∷ e))
                (parsers.catalogue manifest_bytes))
            c h in
        (
          map_err-ok _ (keys.verify_signature key (encoding_of signature) manifest_bytes) tt signed,
          map_err-ok _ (parsers.catalogue manifest_bytes) c parsed,
        )
