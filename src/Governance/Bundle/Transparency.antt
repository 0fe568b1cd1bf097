-- ===== src/Governance/Bundle/Transparency.antt =====
-- crates/tako-governance/src/sigstore.rs: the signatures of the transparency log, over an entry and
-- over the head of the tree. Decimals, UTF-8 and serde_json's printer are arguments.
use tako_ai_core.Common.{ℕ, if◌then◌else◌, String, Option, none, some, [], ◌∷◌, trim, string_append}
use tako_ai_core.Core.Error.{lit, invalid}
use tako_ai_core.Core.Json.{Json, number, string, object, end, field}
use tako_ai_core.Core.Effects.{Result, ok, err, Foreign, map_err, and_then}
use tako_ai_core.Governance.Rekor.{Bytes, bytes_eq, Codecs, RekorEntry, RekorCheckpoint}
use tako_ai_core.Governance.Chain.{Crypto}

pub record Wire : Type 0 where
  pub decimal : ℕ → String
  pub utf8 : String → Bytes
  pub to_string : Json → Foreign Bytes

module _ {Key : Type 0} (wire : Wire) (c : Codecs) (crypto : Crypto Key) (key : Key) where
  -- the signed payload: sorted keys
  abbrev pub set_payload : RekorEntry → Json
  set_payload entry = object (
      field "body" (string entry.canonicalized_body) (
        field "integratedTime" (number entry.integrated_time) (
          field "logID" (string entry.log_id)
            (field "logIndex" (number (wire.decimal entry.log_index)) end))))

  unfoldable pub verify_rekor_set : RekorEntry → Result (Unit {0})
  verify_rekor_set entry =
      and_then
        (map_err (λ e. invalid (lit "sigstore: rekor SET canonical encode: " ∷ e))
          (wire.to_string (set_payload entry)))
        λ canonical.
          and_then
            (map_err (λ e. invalid (lit "sigstore: rekor SET base64: " ∷ e))
              (c.b64_decode (trim entry.set_b64)))
            λ set_bytes.
              map_err (λ e. invalid (lit "sigstore: rekor SET invalid: " ∷ e))
                (crypto.verify_signature key set_bytes canonical)

  -- the first three lines of the note, and the empty one
  abbrev pub signed_message : RekorCheckpoint → String
  signed_message checkpoint = string_append checkpoint.origin (
      string_append "\n" (
        string_append (wire.decimal checkpoint.tree_size)
          (string_append "\n" (string_append checkpoint.root_hash_b64 "\n\n"))))

  unfoldable pub check_expected_root : RekorCheckpoint → Option String → Result (Unit {0})
  check_expected_root checkpoint none = ok tt
  check_expected_root checkpoint (some expected_hex) =
      and_then
        (map_err (λ e. invalid (lit "sigstore: rekor checkpoint root base64: " ∷ e))
          (c.b64_decode (trim checkpoint.root_hash_b64)))
        λ actual_bytes.
          and_then
            (map_err (λ e. invalid (lit "sigstore: rekor checkpoint root hex: " ∷ e))
              (c.hex_decode (trim expected_hex)))
            λ expected_bytes.
              if bytes_eq actual_bytes expected_bytes
              then ok tt
              else err (
                  invalid (
                    lit "sigstore: rekor checkpoint root hash disagrees with inclusion proof root"
                    ∷ []))

  unfoldable pub verify_rekor_checkpoint : RekorCheckpoint → Option String → Result (Unit {0})
  unfolding check_expected_root
  verify_rekor_checkpoint checkpoint expected_root_hex =
      and_then
        (map_err (λ e. invalid (lit "sigstore: rekor checkpoint base64: " ∷ e))
          (c.b64_decode (trim checkpoint.signature_b64)))
        λ sig_bytes.
          and_then
            (map_err (λ e. invalid (lit "sigstore: rekor checkpoint invalid: " ∷ e))
              (crypto.verify_signature key sig_bytes (wire.utf8 (signed_message checkpoint))))
            λ _. check_expected_root checkpoint expected_root_hex
