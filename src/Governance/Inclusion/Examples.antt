-- ===== src/Governance/Inclusion/Examples.antt =====
-- The theorems on inclusion proofs at concrete inputs.
use tako_ai_core.Common.{
  ◌≡◌, refl, ◌⊎◌, none, [], ◌∷◌, str_eq, if◌then◌else◌, trim, trim_start_matches, trim_end_matches,
}
use tako_ai_core.Core.Effects.{ok, gives}
use tako_ai_core.Governance.Rekor.{Bytes, RekorEntry, RekorInclusionProof, Codecs, bytes_eq}
use tako_ai_core.Governance.Inclusion.{
  skip_edge, climb, walk, decode_hash, decode_path, check_root, verify_rekor_inclusion,
}
use tako_ai_core.Governance.Inclusion.Binding.{Collision, inclusion_binds}

abbrev pub zeros32 : Bytes
zeros32 =
    0 ∷ 0 ∷ 0 ∷ 0 ∷ 0 ∷ 0 ∷ 0 ∷ 0 ∷ 0 ∷ 0 ∷ 0 ∷ 0 ∷ 0 ∷ 0 ∷ 0 ∷ 0 ∷ 0 ∷ 0 ∷ 0 ∷ 0 ∷ 0 ∷ 0 ∷ 0 ∷ 0
    ∷ 0 ∷ 0 ∷ 0 ∷ 0 ∷ 0 ∷ 0 ∷ 0 ∷ 0 ∷ []

-- a hash that keeps its input, and decoders that know three texts
abbrev plain : Codecs
plain = record {
  b64_decode = λ s. gives (7 ∷ []);
  hex_decode = λ s. if str_eq s "root" then gives (1 ∷ 0 ∷ 7 ∷ zeros32) else gives zeros32;
  sha256 = λ bytes. bytes;
}

-- the left one of two leaves
abbrev pub proof : RekorInclusionProof
proof = record { hashes_hex = "sibling" ∷ []; tree_size = 2; log_index = 0; root_hash_hex = "root" }

abbrev pub entry : RekorEntry
entry = record {
  log_index = 0;
  log_id = "log";
  integrated_time = "0";
  canonicalized_body = "body";
  set_b64 = "";
  inclusion_proof = none;
  checkpoint = none;
}

proof_verifies : verify_rekor_inclusion plain entry proof ≡ ok tt
unfolding verify_rekor_inclusion walk climb skip_edge decode_path decode_hash check_root bytes_eq
    trim trim_start_matches trim_end_matches
proof_verifies = refl

inclusion_binds_example :
    (plain.b64_decode (trim entry.canonicalized_body)
      ≡ plain.b64_decode (trim entry.canonicalized_body))
    ⊎ Collision plain
inclusion_binds_example =
    inclusion_binds plain entry entry proof proof refl refl refl proof_verifies proof_verifies
