-- ===== src/Governance/Rekor.antt =====
-- The transparency-log data of crates/tako-governance/src/sigstore.rs, bytes, and the decoders that
-- the checks call.
use tako_ai_core.Common.{
  ℕ, ◌≡◌, refl, sym, ◌⊎◌, inl, inr, ◌≢◌, Bool, true, false, ◌&&◌, ◌==◌, String, Option, List, [],
  ◌∷◌, ◌++◌, length, arith, Bool-cases,
}
use tako_ai_core.Core.Effects.{Foreign}

abbrev pub Bytes : Type 0
Bytes = List ℕ

pub record RekorInclusionProof : Type 0 where
  pub hashes_hex : List String
  pub tree_size : ℕ
  pub log_index : ℕ
  pub root_hash_hex : String

pub record RekorCheckpoint : Type 0 where
  pub origin : String
  pub tree_size : ℕ
  pub root_hash_b64 : String
  pub key_id : String
  pub signature_b64 : String

-- `integrated_time` is an `i64` that is only passed on, here as its decimal text.
pub record RekorEntry : Type 0 where
  pub log_index : ℕ
  pub log_id : String
  pub integrated_time : String
  pub canonicalized_body : String
  pub set_b64 : String
  pub inclusion_proof : Option RekorInclusionProof
  pub checkpoint : Option RekorCheckpoint

-- the `base64`, `hex` and `sha2` crates
pub record Codecs : Type 0 where
  pub b64_decode : String → Foreign Bytes
  pub hex_decode : String → Foreign Bytes
  pub sha256 : Bytes → Bytes

unfoldable pub bytes_eq : Bytes → Bytes → Bool
bytes_eq [] [] = true
bytes_eq [] (y ∷ ys) = false
bytes_eq (x ∷ xs) [] = false
bytes_eq (x ∷ xs) (y ∷ ys) = x == y && bytes_eq xs ys

pub bytes_eq_sound : (xs ys : Bytes) → bytes_eq xs ys ≡ true → xs ≡ ys
unfolding bytes_eq
bytes_eq_sound [] [] h = refl
bytes_eq_sound [] (y ∷ ys) h = cc
bytes_eq_sound (x ∷ xs) [] h = cc
bytes_eq_sound (x ∷ xs) (y ∷ ys) h = ground (arith, bytes_eq_sound xs ys)

pub bytes_eq_refl : (xs : Bytes) → bytes_eq xs xs ≡ true
unfolding bytes_eq
bytes_eq_refl [] = refl
bytes_eq_refl (x ∷ xs) = ground (arith, bytes_eq_refl xs)

pub bytes_same_or_not : (xs ys : Bytes) → (xs ≡ ys) ⊎ (xs ≢ ys)
bytes_same_or_not xs ys = elim (Bool-cases (bytes_eq xs ys)) [
  | inl h ↦ inl (bytes_eq_sound xs ys h)
  | inr h ↦ inr (λ e. let r = bytes_eq_refl xs in cc (rw (sym e) at h))
]

-- Equal texts with equally long beginnings have the same parts.
pub append_parts :
    (xs ys us vs : Bytes) → length xs ≡ length ys → xs ++ us ≡ ys ++ vs → (xs ≡ ys) × (us ≡ vs)
append_parts [] [] us vs l e = (refl, e)
append_parts [] (y ∷ ys) us vs l e = absurd (omega arith)
append_parts (x ∷ xs) [] us vs l e = absurd (omega arith)
append_parts (x ∷ xs) (y ∷ ys) us vs l e =
    let q = append_parts xs ys us vs (omega arith) cc in (cc, q.1)
