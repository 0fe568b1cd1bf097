-- ===== src/Governance/Bundle/Examples.antt =====
-- The theorem on bundles at a concrete input.
use tako_ai_core.Common.{
  starts_with, contains_text, ℕ, ◌+◌, ◌≡◌, ◌⊎◌, refl, str_eq, if◌then◌else◌, none, some, [], ◌∷◌,
  any, trim, trim_start_matches, trim_end_matches, string_append,
}
use tako_ai_core.Core.Error.{TakoError}
use tako_ai_core.Core.Effects.{returns, raises, gives}
use tako_ai_core.Governance.Rekor.{RekorCheckpoint, Codecs, bytes_eq}
use tako_ai_core.Governance.Inclusion.Examples.{zeros32, proof, entry}
use tako_ai_core.Governance.Inclusion.{
  skip_edge, climb, walk, decode_hash, decode_path, check_root, verify_rekor_inclusion,
}
use tako_ai_core.Governance.Chain.{
  Clock, chain_signing_scheme, check_extensions, check_issuer_is_ca, cert_eq, find_subject,
  is_pinned, verify_one_signature, check_issuer, check_validity_now, hops, verify_chain,
}
use tako_ai_core.Governance.Chain.Examples.{middle_cert, leaf_cert, trusting, pinned}
use tako_ai_core.Governance.Bundle.Pem.{lines, pem_blocks, parse_pem_chain}
use tako_ai_core.Governance.Bundle.Identity.{
  Leaf, exact, uniform_resource_identifier, other_name, code_signing, fulcio_oidc_issuer_v1,
  matches, check_code_signing_eku, san_values, extract_san_values, issuer_in, extract_oidc_issuer,
  signing_scheme_for_cert, check_identity,
}
use tako_ai_core.Governance.Bundle.Transparency.{
  Wire, verify_rekor_set, check_expected_root, verify_rekor_checkpoint,
}
use tako_ai_core.Governance.Bundle.{
  KeylessBundle, Catalogue, KeylessVerifier, Anchor, Parsers, advance_anchor, check_signature,
  check_chain, check_rekor, check_leaf, verify_bundle,
}
use tako_ai_core.Governance.Freshness.{loading, accepted, rejected, run_schedule}
use tako_ai_core.Governance.Bundle.Atomic.{alone, turns_of, advance_anchor-run_schedule}
use tako_ai_core.Governance.Bundle.Checked.{IsChecked, verify_bundle-IsChecked}

-- the world: a clock and the anchor
abbrev World : Type 0
World = ℕ × ℕ

abbrev clock : Clock World
clock = record { now = λ w. (w.0, (w.0 + 1, w.1)) }

abbrev anchor : Anchor World
anchor = record { load = λ w. w.1; store = λ n w. (w.0, n) }

abbrev codecs : Codecs
codecs = record {
  b64_decode = λ s. if str_eq s "head" then gives (1 ∷ 0 ∷ 7 ∷ zeros32) else gives (7 ∷ []);
  hex_decode = λ s. if str_eq s "root" then gives (1 ∷ 0 ∷ 7 ∷ zeros32) else gives zeros32;
  sha256 = λ bytes. bytes;
}

abbrev wire : Wire
wire = record { decimal = λ n. "2"; utf8 = λ s. []; to_string = λ v. gives [] }

abbrev leaf : Leaf
leaf = record {
  certificate = leaf_cert;
  extended_key_usage = gives (some (code_signing ∷ []));
  subject_alt_name =
      gives (some (other_name ∷ uniform_resource_identifier "https://ci.example/release" ∷ []));
  extensions = some (
      record {
        extn_id = fulcio_oidc_issuer_v1;
        as_utf8 = gives "https://issuer.example";
        as_ia5 = gives "";
      }
      ∷ []);
}

abbrev head : RekorCheckpoint
head = record {
  origin = "log";
  tree_size = 2;
  root_hash_b64 = "head";
  key_id = "k";
  signature_b64 = "sig";
}

abbrev bundle : KeylessBundle
bundle = record {
  leaf_cert_pem = "leaf";
  signature_b64 = "sig";
  chain_pem = some "-----BEGIN CERTIFICATE-----\nmiddle\n-----END CERTIFICATE-----\n";
  rekor = some (record entry { inclusion_proof = some proof; checkpoint = some head });
}

abbrev catalogue : Catalogue
catalogue = record { server = none; tools = [] }

abbrev parsers : Parsers
parsers = record {
  bundle = λ bytes. gives bundle;
  catalogue = λ bytes. gives catalogue;
  leaf = λ pem. gives leaf;
  certificate = λ pem. gives middle_cert;
  debug = λ names. "";
}

abbrev verifier : KeylessVerifier ℕ
verifier = record {
  identity = record {
    issuer = "https://issuer.example";
    san_match = exact "https://ci.example/release";
  };
  trust_root = some pinned;
  rekor_key = some 5;
}

-- the anchor goes from 1 to 2
bundle_accepted :
    verify_bundle parsers wire codecs trusting clock anchor verifier (9 ∷ []) [] (7, 1)
    ≡ returns catalogue (11, 2)
unfolding verify_bundle check_leaf check_chain check_rekor check_signature advance_anchor
    verify_rekor_set verify_rekor_checkpoint check_expected_root check_identity
    signing_scheme_for_cert extract_oidc_issuer issuer_in extract_san_values san_values
    check_code_signing_eku matches parse_pem_chain pem_blocks lines contains_text starts_with
    string_append any trim trim_start_matches trim_end_matches bytes_eq verify_chain hops
    check_validity_now find_subject is_pinned cert_eq check_issuer check_extensions
    check_issuer_is_ca verify_one_signature chain_signing_scheme verify_rekor_inclusion walk climb
    skip_edge decode_path decode_hash check_root
bundle_accepted = refl

verify_bundle-IsChecked_example :
    IsChecked parsers wire codecs trusting clock anchor verifier
      (9 ∷ [])
      []
      (7, 1)
      (11, 2)
      catalogue
verify_bundle-IsChecked_example =
    verify_bundle-IsChecked parsers wire codecs trusting clock anchor verifier (9 ∷ []) [] (7, 1)
      (11, 2) catalogue bundle_accepted

advance_anchor-run_schedule_example :
    ((advance_anchor anchor 2 (7, 1)
        ≡ returns tt
            (anchor.store (run_schedule (turns_of 3) (alone 2 loading 1 [])).anchor (7, 1)))
      × (run_schedule (turns_of 3) (alone 2 loading 1 []) ≡ alone 2 (accepted 2) 2 (2 ∷ [])))
    ⊎ ((e : TakoError) × (advance_anchor anchor 2 (7, 1) ≡ raises e (7, 1))
        × (run_schedule (turns_of 3) (alone 2 loading 1 []) ≡ alone 2 (rejected 1) 1 []))
advance_anchor-run_schedule_example = advance_anchor-run_schedule anchor 3 2 [] (7, 1)
