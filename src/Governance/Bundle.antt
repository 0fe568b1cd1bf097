-- ===== src/Governance/Bundle.antt =====
-- crates/tako-governance/src/sigstore.rs: the keyless verifier. Its anchor is a cell of the world
-- that one step reads and advances; Governance/Freshness takes that step apart into the accesses of
-- its loop.
pub mod Pem
pub mod Identity
pub mod Transparency
pub mod Signed
pub mod Logged
pub mod Checked
pub mod Atomic
pub mod Examples
use tako_ai_core.Common.{
  ℕ, Bool, true, false, ltb, if◌then◌else◌, any, String, Option, none, some, List, [], ◌∷◌, trim,
}
use tako_ai_core.Core.Error.{TakoError, lit, num, invalid}
use tako_ai_core.Core.Types.{ToolSchema}
use tako_ai_core.Core.Effects.{
  Io, Result, ok, err, returns, raises, Foreign, map_err, and_then, lift, pure, ◌>>=◌, ◌>>◌,
}
use tako_ai_core.Governance.Rekor.{Bytes, Codecs, RekorEntry, RekorCheckpoint, RekorInclusionProof}
use tako_ai_core.Governance.Inclusion.{verify_rekor_inclusion}
use tako_ai_core.Governance.Freshness.{larger}
use tako_ai_core.Governance.Chain.{
  Certificate, TrustRoot, Crypto, Clock, check_validity_now, verify_chain,
}
use tako_ai_core.Governance.Bundle.Pem.{parse_pem_chain}
use tako_ai_core.Governance.Bundle.Identity.{
  Leaf, IdentityPolicy, check_code_signing_eku, check_identity, signing_scheme_for_cert,
}
use tako_ai_core.Governance.Bundle.Transparency.{Wire, verify_rekor_set, verify_rekor_checkpoint}

pub record KeylessBundle : Type 0 where
  pub leaf_cert_pem : String
  pub signature_b64 : String
  pub chain_pem : Option String
  pub rekor : Option RekorEntry

pub record Catalogue : Type 0 where
  pub server : Option String
  pub tools : List ToolSchema

pub record KeylessVerifier (Key : Type 0) : Type 0 where
  pub identity : IdentityPolicy
  pub trust_root : Option TrustRoot
  pub rekor_key : Option Key

-- `rekor_min_tree_size`, an atomic
pub record Anchor (W : Type 0) : Type 0 where
  pub load : W → ℕ
  pub store : ℕ → W → W

-- serde_json and the PEM and certificate parsers
pub record Parsers : Type 0 where
  pub bundle : Bytes → Foreign KeylessBundle
  pub catalogue : Bytes → Foreign Catalogue
  pub leaf : String → Foreign Leaf
  pub certificate : String → Foreign Certificate
  -- `{:?}` of the names in a message
  pub debug : List String → String

-- the first key of the verifier: no root, no log
abbrev pub new_verifier : {Key : Type 0} → IdentityPolicy → KeylessVerifier Key
new_verifier identity = record { identity = identity; trust_root = none; rekor_key = none }

abbrev pub with_trust_root : {Key : Type 0} → TrustRoot → KeylessVerifier Key → KeylessVerifier Key
with_trust_root root v = record v { trust_root = some root }

abbrev pub went_back : ℕ → ℕ → TakoError
went_back tree_size observed = invalid (
    lit "sigstore: rekor checkpoint tree_size "
    ∷ num tree_size
    ∷ lit " < previously observed "
    ∷ num observed
    ∷ [])

module _ {W : Type 0} (anchor : Anchor W) where
  abbrev pub set_rekor_min_tree_size : ℕ → W → W
  set_rekor_min_tree_size n w = anchor.store n w

  abbrev pub rekor_max_tree_size : W → ℕ
  rekor_max_tree_size w = anchor.load w

  -- the loop on the anchor as one step
  unfoldable pub advance_anchor : ℕ → Io W (Unit {0})
  advance_anchor tree_size w =
      if ltb tree_size (anchor.load w)
      then raises (went_back tree_size (anchor.load w)) w
      else returns tt (anchor.store (larger tree_size (anchor.load w)) w)

module _ {W Key : Type 0} (parsers : Parsers) (wire : Wire) (c : Codecs) (crypto : Crypto Key)
    (clock : Clock W) (anchor : Anchor W) where
  -- the signature over the manifest, by the leaf's key
  unfoldable pub check_signature : Leaf → String → Bytes → Result (Unit {0})
  check_signature cert signature_b64 manifest =
      and_then
        (map_err (λ e. invalid (lit "sigstore: signature base64: " ∷ e))
          (c.b64_decode (trim signature_b64)))
        λ signature. and_then (signing_scheme_for_cert cert) λ scheme.
          and_then
            (map_err (λ e. invalid (lit "sigstore: spki encode: " ∷ e)) cert.certificate.spki_der)
            λ spki.
              and_then
                (map_err (λ e. invalid (lit "sigstore: cert public key unsupported: " ∷ e))
                  (crypto.from_der spki scheme))
                λ key.
                  map_err (λ e. invalid (lit "sigstore: signature invalid: " ∷ e))
                    (crypto.verify_signature key signature manifest)

  abbrev pub intermediates_of : Option String → Result (List Certificate)
  intermediates_of none = ok []
  intermediates_of (some pem) = parse_pem_chain parsers.certificate pem

  unfoldable pub check_chain : Option TrustRoot → Leaf → Option String → Io W (Unit {0})
  check_chain none cert chain_pem = pure tt
  check_chain (some root) cert chain_pem = lift (intermediates_of chain_pem) >>= λ intermediates.
      verify_chain crypto clock intermediates root cert.certificate

  abbrev pub check_inclusion : RekorEntry → Option RekorInclusionProof → Result (Unit {0})
  check_inclusion entry none = ok tt
  check_inclusion entry (some proof) = verify_rekor_inclusion c entry proof

  abbrev pub root_of : Option RekorInclusionProof → Option String
  root_of none = none
  root_of (some proof) = some proof.root_hash_hex

  abbrev pub check_checkpoint :
      Key → Option RekorInclusionProof → Option RekorCheckpoint → Io W (Unit {0})
  check_checkpoint key proof none = pure tt
  check_checkpoint key proof (some checkpoint) =
      lift (verify_rekor_checkpoint wire c crypto key checkpoint (root_of proof))
      >> advance_anchor anchor checkpoint.tree_size

  -- only with a key of the log and an entry in the bundle
  unfoldable pub check_rekor : Option Key → Option RekorEntry → Io W (Unit {0})
  check_rekor none entry = pure tt
  check_rekor (some key) none = pure tt
  check_rekor (some key) (some entry) =
      lift (verify_rekor_set wire c crypto key entry)
      >> lift (check_inclusion entry entry.inclusion_proof)
      >> check_checkpoint key entry.inclusion_proof entry.checkpoint

  -- everything about the leaf before its chain
  unfoldable pub check_leaf : KeylessVerifier Key → Leaf → KeylessBundle → Bytes → Io W (Unit {0})
  unfolding check_signature
  check_leaf v cert bundle manifest =
      check_validity_now clock cert.certificate
      >> lift (check_code_signing_eku cert)
      >> lift (check_identity parsers.debug v.identity cert)
      >> lift (check_signature cert bundle.signature_b64 manifest)

  unfoldable pub verify_bundle : KeylessVerifier Key → Bytes → Bytes → Io W Catalogue
  unfolding check_leaf check_chain check_rekor
  verify_bundle v manifest bundle_json =
      lift
        (map_err (λ e. invalid (lit "sigstore: bundle parse: " ∷ e)) (parsers.bundle bundle_json))
      >>= λ bundle.
          lift (
            map_err (λ e. invalid (lit "sigstore: leaf cert parse: " ∷ e))
              (parsers.leaf bundle.leaf_cert_pem))
          >>= λ cert.
              check_leaf v cert bundle manifest
              >> check_chain v.trust_root cert bundle.chain_pem
              >> check_rekor v.rekor_key bundle.rekor
              >> lift (
                  map_err (λ e. invalid (lit "sigstore: catalogue parse: " ∷ e))
                    (parsers.catalogue manifest))
