-- ===== src/Governance/Bundle/Checked.antt =====
-- What stands behind a bundle that the keyless verifier of crates/tako-governance/src/sigstore.rs
-- accepts.
use tako_ai_core.Common.{◌≡◌, refl, ap, subst, ◌∙◌, ◌⊎◌, inl, inr, String, Option, none, some, List}
use tako_ai_core.Core.Effects.{
  ok, returns, gives, map_err, lift, bind-returns, lift-returns, ◌>>◌, map_err-ok,
}
use tako_ai_core.Governance.Rekor.{Bytes, Codecs}
use tako_ai_core.Governance.Chain.{Certificate, TrustRoot, Crypto, Clock}
use tako_ai_core.Governance.Chain.Trust.{Trusted, verify_chain-Trusted}
use tako_ai_core.Governance.Bundle.Identity.{Leaf}
use tako_ai_core.Governance.Bundle.Transparency.{Wire}
use tako_ai_core.Governance.Bundle.{
  KeylessBundle, Catalogue, KeylessVerifier, Anchor, Parsers, intermediates_of, check_chain,
  check_rekor, check_leaf, verify_bundle,
}
use tako_ai_core.Governance.Bundle.Signed.{IsLeaf, check_leaf-IsLeaf}
use tako_ai_core.Governance.Bundle.Logged.{LogHolds, check_rekor-LogHolds}

module _ {W Key : Type 0} (parsers : Parsers) (wire : Wire) (c : Codecs) (crypto : Crypto Key)
    (clock : Clock W) (anchor : Anchor W) where
  -- No root is pinned, or the chain from the leaf is trusted.
  abbrev pub IsChained : Option TrustRoot → Leaf → Option String → Type 0
  IsChained trust cert chain_pem =
      (trust ≡ none)
      ⊎ ((root : TrustRoot) × (intermediates : List Certificate) × (trust ≡ some root)
          × (intermediates_of parsers wire c crypto clock anchor chain_pem ≡ ok intermediates)
          × Trusted crypto clock intermediates root 16 0 cert.certificate)

  check_chain-IsChained :
      (trust : Option TrustRoot) (cert : Leaf) (chain_pem : Option String) (w v : W)
      → check_chain parsers wire c crypto clock anchor trust cert chain_pem w ≡ returns tt v
      → IsChained trust cert chain_pem
  unfolding check_chain
  check_chain-IsChained none cert chain_pem w v h = inl refl
  check_chain-IsChained (some root) cert chain_pem w v h =
      let (intermediates, w', x, y) =
        bind-returns (lift (intermediates_of parsers wire c crypto clock anchor chain_pem)) _ w v tt
          h in
      inr (
        root,
        intermediates,
        refl,
        (lift-returns _ w w' intermediates x).0,
        verify_chain-Trusted crypto clock intermediates root cert.certificate w' v y,
      )

  -- What an accepted bundle has been checked for, on the way from one world to another: the leaf and
  -- its chain are checked, which may read the clock, and then the log, whose tests end in the last one.
  pub record IsChecked (k : KeylessVerifier Key) (manifest bundle_json : Bytes) (w v : W)
      (catalogue : Catalogue) : Type 0 where
    pub bundle : KeylessBundle
    pub parsed : parsers.bundle bundle_json ≡ gives bundle
    pub cert : Leaf
    pub loaded : parsers.leaf bundle.leaf_cert_pem ≡ gives cert
    pub leaf : IsLeaf parsers wire c crypto clock anchor k cert bundle manifest w
    pub chained : IsChained k.trust_root cert bundle.chain_pem
    pub before_chain : W
    pub leaf_ends :
        check_leaf parsers wire c crypto clock anchor k cert bundle manifest w
        ≡ returns tt before_chain
    pub before_log : W
    pub chain_ends :
        check_chain parsers wire c crypto clock anchor k.trust_root cert bundle.chain_pem
          before_chain
        ≡ returns tt before_log
    pub logged : LogHolds parsers wire c crypto clock anchor k.rekor_key bundle.rekor before_log v
    pub read : parsers.catalogue manifest ≡ gives catalogue

  -- If a bundle is accepted, its leaf certificate was valid, may sign code, names the issuer and one of
  -- the subjects that the policy asks for, and its key signed the manifest; a pinned root is reached by
  -- a trusted chain; with a pinned key of the log, the entry that the bundle carries holds with its
  -- inclusion proof and its checkpoint. The checkpoint's tree is not smaller than the anchor was right
  -- after the chain was checked, and the call leaves that tree's size in the anchor; without a
  -- checkpoint it leaves what was there.
  pub verify_bundle-IsChecked :
      (k : KeylessVerifier Key) (manifest bundle_json : Bytes) (w v : W) (catalogue : Catalogue)
      → verify_bundle parsers wire c crypto clock anchor k manifest bundle_json w
        ≡ returns catalogue v
      → IsChecked k manifest bundle_json w v catalogue
  unfolding verify_bundle
  verify_bundle-IsChecked k manifest bundle_json w v catalogue h =
      let (bundle, w1, x1, h1) =
        bind-returns (lift (map_err _ (parsers.bundle bundle_json))) _ w v catalogue h in
      let (is_bundle, same1) = lift-returns _ w w1 bundle x1 in
      let (cert, w2, x2, h2) =
        bind-returns (lift (map_err _ (parsers.leaf bundle.leaf_cert_pem))) _ w1 v catalogue h1 in
      let (is_cert, same2) = lift-returns _ w1 w2 cert x2 in
      let leaf = check_leaf parsers wire c crypto clock anchor k cert bundle manifest in
      let chain =
        check_chain parsers wire c crypto clock anchor k.trust_root cert bundle.chain_pem in
      let rekor = check_rekor parsers wire c crypto clock anchor k.rekor_key bundle.rekor in
      let (u5, w5, h5, reads) = bind-returns (leaf >> chain >> rekor) _ w2 v catalogue h2 in
      let (u4, w4, h4, logs) = bind-returns (leaf >> chain) _ w2 w5 u5 h5 in
      let (u3, w3, leaves, chains) = bind-returns leaf _ w2 w4 u4 h4 in
      record {
        bundle = bundle;
        parsed = map_err-ok _ _ bundle is_bundle;
        cert = cert;
        loaded = map_err-ok _ _ cert is_cert;
        leaf = rw (same1 ∙ same2) (
            check_leaf-IsLeaf parsers wire c crypto clock anchor k cert bundle manifest w2 w3
              leaves);
        chained = check_chain-IsChained k.trust_root cert bundle.chain_pem w3 w4 chains;
        before_chain = w3;
        leaf_ends = ap leaf (same1 ∙ same2) ∙ leaves;
        before_log = w4;
        chain_ends = chains;
        logged =
            subst (LogHolds parsers wire c crypto clock anchor k.rekor_key bundle.rekor w4)
              (lift-returns _ w5 v catalogue reads).1
              (check_rekor-LogHolds parsers wire c crypto clock anchor k.rekor_key bundle.rekor w4
                w5 logs);
        read = map_err-ok _ _ catalogue (lift-returns _ w5 v catalogue reads).0;
      }
