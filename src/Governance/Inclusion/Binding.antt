-- ===== src/Governance/Inclusion/Binding.antt =====
-- An inclusion proof binds the log's entry to its position: two different bodies at one position
-- of one tree would give away a collision of the hash.
use tako_ai_core.Common.{
  ℕ, ◌+◌, ◌-◌, ◌<◌, ◌≡◌, ◌≢◌, refl, sym, ap, ◌∙◌, ◌⊎◌, inl, inr, true, Bool-cases, ◌||◌, ◌==◌,
  String, List, [], ◌∷◌, ◌++◌, length, All, arith, trim,
}
use tako_ai_core.Core.Effects.{ok, gives, Result-cases, Foreign-cases}
use tako_ai_core.Governance.Rekor.{
  Bytes, RekorEntry, RekorInclusionProof, Codecs, bytes_eq, bytes_eq_sound, bytes_same_or_not,
  append_parts,
}
use tako_ai_core.Governance.Inclusion.{
  is_odd, leaf_hash, node_hash, climb, walk, decode_hash, decode_path, check_root,
  verify_rekor_inclusion,
}

module _ (c : Codecs) where
  -- Two different texts with the same hash.
  pub record Collision : Type 0 where
    pub first : Bytes
    pub second : Bytes
    pub different : first ≢ second
    pub same_hash : c.sha256 first ≡ c.sha256 second

  sha256_same : (x y : Bytes) → c.sha256 x ≡ c.sha256 y → (x ≡ y) ⊎ Collision
  sha256_same x y h = elim (bytes_same_or_not x y) [
    | inl e ↦ inl e
    | inr n ↦ inr (record { first = x; second = y; different = n; same_hash = h })
  ]

  append_length : (xs ys : Bytes) → length (xs ++ ys) ≡ length xs + length ys
  append_length [] ys = omega arith
  append_length (x ∷ xs) ys = omega (arith, append_length xs ys)

  -- nodes with equally long siblings on the left, and on the right
  node_hash_left :
      (p q r s : Bytes)
      → length p ≡ length q
      → node_hash c p r ≡ node_hash c q s
      → (r ≡ s) ⊎ Collision
  node_hash_left p q r s l h = elim (sha256_same _ _ h) [
    | inl e ↦ inl (append_parts p q r s l cc).1
    | inr x ↦ inr x
  ]

  node_hash_right :
      (p q r s : Bytes)
      → length p ≡ length q
      → node_hash c r p ≡ node_hash c s q
      → (r ≡ s) ⊎ Collision
  node_hash_right p q r s l h = elim (sha256_same _ _ h) [
    | inl e ↦
        let t : r ++ p ≡ s ++ q = cc in
        let n = ap {B = ℕ} (λ (z : Bytes). length z) t in
        inl (append_parts r s p q (omega (arith, n, append_length r p, append_length s q)) t).0
    | inr x ↦ inr x
  ]

  climb-same :
      (fnode sn : ℕ) (p q r s : Bytes)
      → ((climb c fnode sn p r).0 ≡ (climb c fnode sn q s).0)
        × ((climb c fnode sn p r).1 ≡ (climb c fnode sn q s).1)
  unfolding climb
  climb-same fnode sn p q r s = elim (Bool-cases (is_odd fnode || (fnode == sn))) [
    | inl h ↦ rw h (refl, refl)
    | inr h ↦ rw h (refl, refl)
  ]

  climb_back :
      (fnode sn : ℕ) (p q r s : Bytes)
      → length p ≡ length q
      → (climb c fnode sn p r).2 ≡ (climb c fnode sn q s).2
      → (r ≡ s) ⊎ Collision
  unfolding climb
  climb_back fnode sn p q r s l h = elim (Bool-cases (is_odd fnode || (fnode == sn))) [
    | inl t ↦ node_hash_left p q r s l (rw t at h)
    | inr t ↦ node_hash_right p q r s l (rw t at h)
  ]

  abbrev Is32 : List Bytes → Type 0
  Is32 = All (λ p. length p ≡ 32)

  walk-step :
      (p : Bytes) (path : List Bytes) (fnode sn : ℕ) (r : Bytes) (res : ℕ × Bytes)
      → walk c (p ∷ path) fnode sn r ≡ ok res
      → (¬ (sn ≡ 0))
        × (walk c path (climb c fnode sn p r).0 (climb c fnode sn p r).1 (climb c fnode sn p r).2
            ≡ ok res)
  unfolding walk
  walk-step p path fnode sn r res h = ground arith

  walk-end :
      (fnode sn m : ℕ) (r root : Bytes)
      → walk c [] fnode sn r ≡ ok (m, root)
      → (sn ≡ m) × (r ≡ root)
  unfolding walk
  walk-end fnode sn m r root h = (cc, cc)

  -- From one position, two walks that both end at the top with the same hash began with the same
  -- hash, or a collision is met.
  walk_back :
      (ps qs : List Bytes) (fnode sn : ℕ) (r s root : Bytes)
      → Is32 ps
      → Is32 qs
      → walk c ps fnode sn r ≡ ok (0, root)
      → walk c qs fnode sn s ≡ ok (0, root)
      → (r ≡ s) ⊎ Collision
  walk_back [] [] fnode sn r s root a b h k =
      inl ((walk-end fnode sn 0 r root h).1 ∙ sym (walk-end fnode sn 0 s root k).1)
  walk_back [] (q ∷ qs) fnode sn r s root a b h k =
      absurd ((walk-step q qs fnode sn s (0, root) k).0 (walk-end fnode sn 0 r root h).0)
  walk_back (p ∷ ps) [] fnode sn r s root a b h k =
      absurd ((walk-step p ps fnode sn r (0, root) h).0 (walk-end fnode sn 0 s root k).0)
  walk_back (p ∷ ps) (q ∷ qs) fnode sn r s root a b h k =
      let (_, h') = walk-step p ps fnode sn r (0, root) h in
      let (_, k') = walk-step q qs fnode sn s (0, root) k in
      let (f, t) = climb-same fnode sn p q r s in
      elim (walk_back ps qs (climb c fnode sn q s).0 (climb c fnode sn q s).1
        (climb c fnode sn p r).2 (climb c fnode sn q s).2 root a.1 b.1 (rw (f, t) at h') k') [
          | inl e ↦ climb_back fnode sn p q r s (a.0 ∙ sym b.0) e
          | inr x ↦ inr x
        ]

  decode_hash-Is32 : (s : String) (p : Bytes) → decode_hash c s ≡ ok p → length p ≡ 32
  unfolding decode_hash
  decode_hash-Is32 s p h = ground arith

  decode_path-cons :
      (s : String) (rest : List String) (ps : List Bytes)
      → decode_path c (s ∷ rest) ≡ ok ps
      → (q : Bytes) × (qs : List Bytes) × (ps ≡ q ∷ qs)
        × (decode_hash c s ≡ ok q)
        × (decode_path c rest ≡ ok qs)
  unfolding decode_path
  decode_path-cons s rest ps h = ground arith

  decode_path-Is32 : (ss : List String) (ps : List Bytes) → decode_path c ss ≡ ok ps → Is32 ps
  unfolding decode_path
  decode_path-Is32 [] [] h = tt
  decode_path-Is32 [] (p ∷ ps) h = cc
  decode_path-Is32 (s ∷ ss) ps h =
      let (q, qs, e, d, r) = decode_path-cons s ss ps h in
      rw e (decode_hash-Is32 s q d, decode_path-Is32 ss qs r)

  -- A verified proof, taken apart: its position lies in the tree, and from the body's leaf hash its
  -- path leads in exactly the right number of steps to the pinned root.
  pub record Included (entry : RekorEntry) (proof : RekorInclusionProof) : Type 0 where
    pub body : Bytes
    pub path : List Bytes
    pub root : Bytes
    pub body_decoded : c.b64_decode (trim entry.canonicalized_body) ≡ gives body
    pub root_decoded : c.hex_decode (trim proof.root_hash_hex) ≡ gives root
    pub path_decoded : decode_path c proof.hashes_hex ≡ ok path
    pub same_index : proof.log_index ≡ entry.log_index
    pub in_tree : entry.log_index < proof.tree_size
    pub leads : walk c path entry.log_index (proof.tree_size - 1) (leaf_hash c body) ≡ ok (0, root)

  check_root-ok :
      (hex : String) (sn : ℕ) (r : Bytes)
      → check_root c hex (sn, r) ≡ ok tt
      → (sn ≡ 0)
        × (root : Bytes) × (c.hex_decode (trim hex) ≡ gives root)
        × (bytes_eq root r ≡ true)
  unfolding check_root
  check_root-ok hex sn r h = ground arith

  module _ (entry : RekorEntry) (proof : RekorInclusionProof)
      (verified : verify_rekor_inclusion c entry proof ≡ ok tt) where
    inclusion_range : (proof.log_index ≡ entry.log_index) × (entry.log_index < proof.tree_size)
    unfolding verify_rekor_inclusion
    inclusion_range = ground arith

    body_decodes : (body : Bytes) × (c.b64_decode (trim entry.canonicalized_body) ≡ gives body)
    unfolding verify_rekor_inclusion
    body_decodes = elim (Foreign-cases (c.b64_decode (trim entry.canonicalized_body))) [
      | inl d ↦ d
      | inr (m, d) ↦ absurd (ground arith)
    ]

    path_decodes : (path : List Bytes) × (decode_path c proof.hashes_hex ≡ ok path)
    unfolding verify_rekor_inclusion
    path_decodes = elim (Result-cases (decode_path c proof.hashes_hex)) [
      | inl d ↦ d
      | inr (e, d) ↦ let (body, b) = body_decodes in absurd (ground arith)
    ]

    walk_ends :
        (body : Bytes) (path : List Bytes)
        → c.b64_decode (trim entry.canonicalized_body) ≡ gives body
        → decode_path c proof.hashes_hex ≡ ok path
        → (sn : ℕ) × (r : Bytes) × (walk c path entry.log_index
              (proof.tree_size - 1)
              (leaf_hash c body)
            ≡ ok (sn, r))
          × (check_root c proof.root_hash_hex (sn, r) ≡ ok tt)
    unfolding verify_rekor_inclusion
    walk_ends body path b p =
        elim (Result-cases (walk c path entry.log_index (proof.tree_size - 1) (leaf_hash c body))) [
          | inl ((sn, r), w) ↦ (sn, r, w, ground arith)
          | inr (e, w) ↦ absurd (ground arith)
        ]

    inclusion_parts : Included entry proof
    inclusion_parts =
        let (same, within) = inclusion_range in
        let (body, b) = body_decodes in
        let (path, p) = path_decodes in
        let (sn, r, w, k) = walk_ends body path b p in
        let (z, root, d, e) = check_root-ok proof.root_hash_hex sn r k in
        record {
          body = body;
          path = path;
          root = root;
          body_decoded = b;
          root_decoded = d;
          path_decoded = p;
          same_index = same;
          in_tree = within;
          leads = rw (z, sym (bytes_eq_sound root r e)) at w;
        }

  -- If a proof is verified, its position is the entry's and lies in the tree, and its path leads
  -- from the body's leaf hash in the right number of steps to the pinned root.
  pub verify_rekor_inclusion-Included :
      (entry : RekorEntry) (proof : RekorInclusionProof)
      → verify_rekor_inclusion c entry proof ≡ ok tt
      → Included entry proof
  verify_rekor_inclusion-Included = inclusion_parts

  -- If proofs are verified for two entries at one position of trees of one size with one root, the
  -- two bodies are the same, or a collision of the hash is at hand.
  pub inclusion_binds :
      (entry other : RekorEntry) (proof rival : RekorInclusionProof)
      → entry.log_index ≡ other.log_index
      → proof.tree_size ≡ rival.tree_size
      → proof.root_hash_hex ≡ rival.root_hash_hex
      → verify_rekor_inclusion c entry proof ≡ ok tt
      → verify_rekor_inclusion c other rival ≡ ok tt
      → (c.b64_decode (trim entry.canonicalized_body)
          ≡ c.b64_decode (trim other.canonicalized_body))
        ⊎ Collision
  inclusion_binds entry other proof rival i n x h k =
      let a = inclusion_parts entry proof h in
      let b = inclusion_parts other rival k in
      let same_root : a.root ≡ b.root = cc in
      elim (walk_back a.path b.path entry.log_index (proof.tree_size - 1) (leaf_hash c a.body)
        (leaf_hash c b.body) a.root (decode_path-Is32 proof.hashes_hex a.path a.path_decoded)
        (decode_path-Is32 rival.hashes_hex b.path b.path_decoded) a.leads
        (rw (sym i, sym n, sym same_root) at b.leads)) [
          | inl e ↦ elim (sha256_same _ _ e) [ inl same ↦ inl cc | inr y ↦ inr y ]
          | inr y ↦ inr y
        ]
