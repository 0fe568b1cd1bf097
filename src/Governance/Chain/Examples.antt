-- ===== src/Governance/Chain/Examples.antt =====
-- The theorem on chains at a concrete input.
use tako_ai_core.Common.{ℕ, ◌+◌, ◌≡◌, refl, true, none, some, [], ◌∷◌, any}
use tako_ai_core.Core.Effects.{returns, gives}
use tako_ai_core.Governance.Rekor.{bytes_eq}
use tako_ai_core.Governance.Chain.{
  Certificate, TrustRoot, Crypto, Clock, chain_signing_scheme, check_extensions, check_issuer_is_ca,
  cert_eq, find_subject, is_pinned, verify_one_signature, check_issuer, check_validity_now, hops,
  verify_chain,
}
use tako_ai_core.Governance.Chain.Trust.{Trusted, verify_chain-Trusted}

abbrev pub root_cert : Certificate
root_cert = record {
  subject = "root";
  issuer = "root";
  not_before = 0;
  not_after = 1000;
  signature_algorithm = "1.2.840.10045.4.3.2";
  key_algorithm = "1.2.840.10045.2.1";
  signature = 1 ∷ [];
  spki_der = gives (2 ∷ []);
  tbs_der = gives (3 ∷ []);
  der = gives (4 ∷ []);
  basic_constraints = gives (some (record { ca = true; path_len_constraint = some 1 }));
  extensions = some (record { extn_id = "2.5.29.19"; critical = true } ∷ []);
}

abbrev pub middle_cert : Certificate
middle_cert = record root_cert {
  subject = "middle";
  der = gives (5 ∷ []);
  basic_constraints = gives (some (record { ca = true; path_len_constraint = some 0 }));
}

abbrev pub leaf_cert : Certificate
leaf_cert = record root_cert {
  subject = "leaf";
  issuer = "middle";
  der = gives (6 ∷ []);
  basic_constraints = gives none;
}

-- every signature verifies, and the clock ticks when it is read
abbrev pub trusting : Crypto ℕ
trusting = record {
  from_der = λ spki scheme. gives 0;
  verify_signature = λ key signature message. gives tt;
}

abbrev ticking : Clock ℕ
ticking = record { now = λ n. (n, n + 1) }

abbrev pub pinned : TrustRoot
pinned = record { roots = root_cert ∷ []; intermediates = [] }

leaf_accepted : verify_chain trusting ticking (middle_cert ∷ []) pinned leaf_cert 7 ≡ returns tt 10
unfolding verify_chain hops check_validity_now find_subject is_pinned cert_eq bytes_eq any
    check_issuer check_extensions check_issuer_is_ca verify_one_signature chain_signing_scheme
leaf_accepted = refl

verify_chain-Trusted_example : Trusted trusting ticking (middle_cert ∷ []) pinned 16 0 leaf_cert
verify_chain-Trusted_example =
    verify_chain-Trusted trusting ticking (middle_cert ∷ []) pinned leaf_cert 7 10 leaf_accepted
