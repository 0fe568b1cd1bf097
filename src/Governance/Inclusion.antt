-- ===== src/Governance/Inclusion.antt =====
-- `verify_rekor_inclusion` of crates/tako-governance/src/sigstore.rs: a Merkle inclusion proof.
pub mod Edge
pub mod Binding
pub mod Examples
use tako_ai_core.Common.{
  ℕ, zero, suc, ◌+◌, ◌-◌, ◌/◌, ◌%◌, Bool, true, false, not, ◌&&◌, ◌||◌, ◌==◌, leb, if◌then◌else◌,
  String, List, [], ◌∷◌, ◌++◌, length, trim,
}
use tako_ai_core.Core.Error.{TakoError, invalid, lit, num}
use tako_ai_core.Core.Effects.{Result, ok, err, Foreign, map_err, and_then}
use tako_ai_core.Governance.Rekor.{Bytes, RekorEntry, RekorInclusionProof, Codecs, bytes_eq}

abbrev pub is_odd : ℕ → Bool
is_odd n = n % 2 == 1

-- `while fnode & 1 == 0 && fnode != 0 { fnode >>= 1; sn >>= 1; }`
unfoldable pub skip_edge : ℕ → ℕ → ℕ → ℕ × ℕ
skip_edge zero fnode sn = (fnode, sn)
skip_edge (suc fuel) fnode sn =
    let next = skip_edge fuel (fnode / 2) (sn / 2) in
    if not (is_odd fnode) && not (fnode == 0) then next else (fnode, sn)

abbrev pub too_long : TakoError
too_long = invalid (lit "sigstore: rekor inclusion proof too long" ∷ [])

abbrev pub too_short : TakoError
too_short = invalid (lit "sigstore: rekor inclusion proof too short" ∷ [])

module _ (c : Codecs) where
  abbrev pub leaf_hash : Bytes → Bytes
  leaf_hash body = c.sha256 (0 ∷ body)

  abbrev pub node_hash : Bytes → Bytes → Bytes
  node_hash left right = c.sha256 (1 ∷ left ++ right)

  -- one round of the loop over the path: the next `fnode`, `sn` and `r`
  unfoldable pub climb : ℕ → ℕ → Bytes → Bytes → ℕ × ℕ × Bytes
  unfolding skip_edge
  climb fnode sn p r =
      if is_odd fnode || (fnode == sn)
      then (let (f, s) = skip_edge fnode fnode sn in (f / 2, s / 2, node_hash p r))
      else (fnode / 2, sn / 2, node_hash r p)

  -- the loop: what `sn` and `r` are after it
  unfoldable pub walk : List Bytes → ℕ → ℕ → Bytes → Result (ℕ × Bytes)
  walk [] fnode sn r = ok (sn, r)
  walk (p ∷ path) fnode sn r =
      let (f, s, r') = climb fnode sn p r in
      let rest = walk path f s r' in if sn == 0 then err too_long else rest

  -- one sibling, of 32 bytes
  unfoldable pub decode_hash : String → Result Bytes
  decode_hash s =
      and_then
        (map_err (λ e. invalid (lit "sigstore: rekor proof hex: " ∷ e)) (c.hex_decode (trim s)))
        (λ raw.
          if length raw == 32
          then ok raw
          else err (
              invalid (
                lit "sigstore: rekor proof hash wrong length (got "
                ∷ num (length raw)
                ∷ lit " bytes, want 32)"
                ∷ [])))

  unfoldable pub decode_path : List String → Result (List Bytes)
  decode_path [] = ok []
  decode_path (s ∷ rest) =
      and_then (decode_hash s) (λ p. and_then (decode_path rest) (λ ps. ok (p ∷ ps)))

  -- the checks after the loop
  unfoldable pub check_root : String → ℕ × Bytes → Result (Unit {0})
  check_root root_hash_hex (sn, r) =
      if not (sn == 0)
      then err too_short
      else and_then
          (map_err (λ e. invalid (lit "sigstore: rekor root hex: " ∷ e))
            (c.hex_decode (trim root_hash_hex)))
          (λ expected_root.
            if bytes_eq expected_root r
            then ok tt
            else err (
                invalid (
                  lit "sigstore: rekor inclusion proof: computed root does not match pinned root"
                  ∷ [])))

  unfoldable pub verify_rekor_inclusion : RekorEntry → RekorInclusionProof → Result (Unit {0})
  verify_rekor_inclusion entry proof =
      if not (proof.log_index == entry.log_index)
      then err (
          invalid (
            lit "sigstore: rekor inclusion proof log_index ("
            ∷ num proof.log_index
            ∷ lit ") does not match entry log_index ("
            ∷ num entry.log_index
            ∷ lit ")"
            ∷ []))
      else if (proof.tree_size == 0) || leb proof.tree_size entry.log_index
      then err (
          invalid (
            lit "sigstore: rekor inclusion proof: log_index "
            ∷ num entry.log_index
            ∷ lit " out of range for tree_size "
            ∷ num proof.tree_size
            ∷ []))
      else and_then
          (map_err (λ e. invalid (lit "sigstore: rekor body base64: " ∷ e))
            (c.b64_decode (trim entry.canonicalized_body)))
          (λ body. and_then (decode_path proof.hashes_hex) (λ path.
            and_then (walk path entry.log_index (proof.tree_size - 1) (leaf_hash body))
              (check_root proof.root_hash_hex)))
