-- ===== src/Governance/State/Restart.antt =====
-- Saving, crashes and restarts of crates/tako-governance/src/sigstore_state.rs, over what the documents
-- of the file system, of `NamedTempFile` and of serde_json say.
use tako_ai_core.Common.{ℕ, ◌≡◌, refl, sym, ap, subst, ◌∙◌, ◌⊎◌, inl, inr, String, some, ◌∷◌, arith}
use tako_ai_core.Core.Error.{TakoError, Text, lit, invalid}
use tako_ai_core.Core.Effects.{
  Outcome, returns, raises, ◌>>=◌, ◌>>◌, lift, map_err, Outcome-cases, gives, Foreign-cases,
  ForeignOutcome, ForeignOutcome-cases, world_of, map_err_io-returns, map_err_io-raises, comes,
  breaks_off, map_err_io,
}
use tako_ai_core.Governance.Bundle.{Anchor}
use tako_ai_core.Governance.State.{
  StateFile, Serde, Reading, holds, Files, state_of, with_default, dir_of, load, found, parse_state,
  guarded, write_tmp, sync_tmp, rename_tmp, create_parent, open_tmp, replace_with, chmod_state_file,
  write_state, save, seed, persist,
}
use tako_ai_core.Governance.State.Steps.{Leaves, bind-Leaves, guarded-returns, guarded-raises}

module _ {W Bytes Tmp : Type 0} (serde : Serde Bytes) (files : Files W Bytes Tmp)
    (path : String) where
  module _ (content : Tmp → W → Bytes) (empty : Bytes)
      (discard_keeps : (tmp : Tmp) (w : W)
        → files.read path (files.discard tmp w) ≡ files.read path w)
      (create_keeps : (dir : String) (w : W)
        → files.read path (world_of (files.create_dir_all dir w)) ≡ files.read path w)
      (open_keeps : (dir : String) (w : W)
        → files.read path (world_of (files.new_in dir w)) ≡ files.read path w)
      (opens_empty : (dir : String) (tmp : Tmp) (w w' : W)
        → files.new_in dir w ≡ comes tmp w'
        → content tmp w' ≡ empty)
      (write_keeps : (tmp : Tmp) (b : Bytes) (w : W)
        → files.read path (world_of (files.write_all tmp b w)) ≡ files.read path w)
      (writes : (tmp : Tmp) (b : Bytes) (w w' : W)
        → content tmp w ≡ empty
        → files.write_all tmp b w ≡ comes tt w'
        → content tmp w' ≡ b)
      (sync_keeps : (tmp : Tmp) (w : W)
        → files.read path (world_of (files.sync_all tmp w)) ≡ files.read path w)
      (sync_leaves : (tmp : Tmp) (w w' : W)
        → files.sync_all tmp w ≡ comes tt w'
        → content tmp w' ≡ content tmp w)
      (renames : (tmp : Tmp) (w w' : W)
        → files.rename tmp path w ≡ comes tt w'
        → files.read path w' ≡ holds (content tmp w))
      (rename_keeps : (tmp : Tmp) (e : Text) (w w' : W)
        → files.rename tmp path w ≡ breaks_off e w'
        → files.read path w' ≡ files.read path w)
      (mode_keeps : (mode : ℕ) (w : W)
        → files.read path (world_of (files.set_mode path mode w)) ≡ files.read path w) where
    module _ (old : Reading Bytes) (body : Bytes) where
      abbrev Ends : Outcome W (Unit {0}) → Type 0
      Ends = Leaves (files.read path) old body

      chmods : (w : W) → files.read path w ≡ holds body → Ends (chmod_state_file serde files path w)
      unfolding chmod_state_file
      chmods w h =
          let kept = mode_keeps 384 w in
          elim (ForeignOutcome-cases (files.set_mode path 384 w)) [
            | inl (u, w', x) ↦
                rw (Leaves, chmod_state_file, map_err_io, x)
                  (ap (files.read path) (ground arith) ∙ kept ∙ h)
            | inr (e, w', x) ↦
                rw (Leaves, chmod_state_file, map_err_io, x)
                  (inr (ap (files.read path) (ground arith) ∙ kept ∙ h))
          ]

      discards :
          (tmp : Tmp) (f : Text → Text) (step : W → ForeignOutcome W (Unit {0})) (w : W)
          → files.read path w ≡ old
          → ((m : Text) (v : W) → step w ≡ breaks_off m v → files.read path v ≡ files.read path w)
          → (e : TakoError) (w' : W) → guarded serde files path tmp f step w ≡ raises e w'
          → files.read path w' ≡ old
      discards tmp f step w h keeps e w' x =
          let (m, v, broken, gone) = guarded-raises serde files path tmp f step w e w' x in
          ap (files.read path) (sym gone) ∙ discard_keeps tmp v ∙ keeps m v broken ∙ h

      kept_by :
          {A : Type 0} (o : ForeignOutcome W A) (v : W)
          → files.read path (world_of o) ≡ old
          → world_of o ≡ v
          → files.read path v ≡ old
      kept_by o v h x = ap (files.read path) (sym x) ∙ h

      renamed :
          (tmp : Tmp) (w : W)
          → content tmp w ≡ body
          → files.read path w ≡ old
          → Ends ((rename_tmp serde files path tmp >> chmod_state_file serde files path) w)
      unfolding rename_tmp
      renamed tmp w full h =
          bind-Leaves (files.read path) old body (rename_tmp serde files path tmp)
            (λ _. chmod_state_file serde files path) w
            (λ u w' x. chmods w' (
              renames tmp w w' (guarded-returns serde files path tmp _ _ w u w' x) ∙ ap holds full))
            (discards tmp _ (files.rename tmp path) w h λ m v. rename_keeps tmp m w v)

      synced :
          (tmp : Tmp) (w : W)
          → content tmp w ≡ body
          → files.read path w ≡ old
          → Ends (
              (sync_tmp serde files path tmp
                  >> (rename_tmp serde files path tmp >> chmod_state_file serde files path))
                w)
      unfolding sync_tmp
      synced tmp w full h =
          let kept = sync_keeps tmp w ∙ h in
          bind-Leaves (files.read path) old body (sync_tmp serde files path tmp)
            (λ _. rename_tmp serde files path tmp >> chmod_state_file serde files path) w
            (λ u w' x.
              let done = guarded-returns serde files path tmp _ (files.sync_all tmp) w u w' x in
              renamed tmp w' (sync_leaves tmp w w' done ∙ full)
                (kept_by (files.sync_all tmp w) w' kept (ap world_of done)))
            (discards tmp _ (files.sync_all tmp) w h
              λ m v broken. ap (files.read path) (sym (ap world_of broken)) ∙ sync_keeps tmp w)

      replaces :
          (tmp : Tmp) (w : W)
          → content tmp w ≡ empty
          → files.read path w ≡ old
          → Ends (replace_with serde files path body tmp w)
      unfolding replace_with write_tmp
      replaces tmp w clean h =
          let kept = write_keeps tmp body w ∙ h in
          bind-Leaves (files.read path) old body (write_tmp serde files path body tmp)
            (λ _.
              sync_tmp serde files path tmp
              >> (rename_tmp serde files path tmp >> chmod_state_file serde files path))
            w
            (λ u w' x.
              let done =
                guarded-returns serde files path tmp _ (files.write_all tmp body) w u w' x in
              synced tmp w' (writes tmp body w w' clean done)
                (kept_by (files.write_all tmp body w) w' kept (ap world_of done)))
            (discards tmp _ (files.write_all tmp body) w h λ m v broken.
              ap (files.read path) (sym (ap world_of broken)) ∙ write_keeps tmp body w)

      opened :
          (dir : String) (w : W)
          → files.read path w ≡ old
          → Ends ((open_tmp serde files path dir >>= replace_with serde files path body) w)
      unfolding open_tmp
      opened dir w h =
          let kept = open_keeps dir w ∙ h in
          bind-Leaves (files.read path) old body (open_tmp serde files path dir)
            (replace_with serde files path body) w
            (λ tmp w' x.
              let done = map_err_io-returns _ (files.new_in dir) w tmp w' x in
              replaces tmp w' (opens_empty dir tmp w w' done)
                (kept_by (files.new_in dir w) w' kept (ap world_of done)))
            (λ e w' x.
              kept_by (files.new_in dir w) w' kept
                (map_err_io-raises _ (files.new_in dir) w e w' x))

      write_state-Leaves :
          (w : W) → files.read path w ≡ old → Ends (write_state serde files path body w)
      unfolding write_state create_parent
      write_state-Leaves w h =
          let dir = dir_of (files.parent path) in
          let kept = create_keeps dir w ∙ h in
          bind-Leaves (files.read path) old body (create_parent serde files path dir)
            (λ _. open_tmp serde files path dir >>= replace_with serde files path body) w
            (λ u w' x.
              let done = map_err_io-returns _ (files.create_dir_all dir) w u w' x in
              opened dir w' (kept_by (files.create_dir_all dir w) w' kept (ap world_of done)))
            (λ e w' x.
              kept_by (files.create_dir_all dir w) w' kept
                (map_err_io-raises _ (files.create_dir_all dir) w e w' x))

    module _
        (serde_reads : (f : StateFile) (b : Bytes)
          → serde.to_vec f ≡ gives b
          → serde.from_slice b
            ≡ gives (record {
              version = some f.version;
              rekor_min_tree_size = f.rekor_min_tree_size;
            })) where
      loads :
          (n : ℕ) (b : Bytes) (w : W)
          → serde.to_vec (state_of serde files path n) ≡ gives b
          → files.read path w ≡ holds b
          → load serde files path w ≡ returns n w
      unfolding load found parse_state with_default state_of
      loads n b w x h =
          let fields = serde_reads (state_of serde files path n) b x in
          rw (load, h, found, parse_state, fields) refl

      -- A save that returns leaves the new number in the file, and one that fails at any of its steps
      -- leaves in it what was there before or the new number: never anything in between.
      pub save-IsAtomic :
          (n : ℕ) (w : W)
          → ((w' : W) × (save serde files path n w ≡ returns tt w')
              × (load serde files path w' ≡ returns n w'))
            ⊎ ((e : TakoError) × (w' : W) × (save serde files path n w ≡ raises e w')
                × ((files.read path w' ≡ files.read path w)
                    ⊎ (load serde files path w' ≡ returns n w')))
      unfolding save
      save-IsAtomic n w = elim (Foreign-cases (serde.to_vec (state_of serde files path n))) [
        | inr (m, x) ↦ inr (
          invalid (lit "sigstore_state: serialise: " ∷ m),
          w,
          rw (save, ◌>>=◌, lift, map_err, x) refl,
          inl refl,
        )
        | inl (b, x) ↦
            let saves : save serde files path n w ≡ write_state serde files path b w =
              rw (save, ◌>>=◌, lift, map_err, x) refl in
            let ends = write_state-Leaves (files.read path w) b w refl in
            elim (Outcome-cases (write_state serde files path b w)) [
              | inl (u, w', y) ↦
                  inl (w', saves ∙ y, loads n b w' x (subst (Ends (files.read path w) b) y ends))
              | inr (e, w', y) ↦ inr (
                e,
                w',
                saves ∙ y,
                elim (subst (Ends (files.read path w) b) y ends) [
                  | inl kept ↦ inl kept
                  | inr new ↦ inr (loads n b w' x new)
                ],
              )
            ]
      ]

      -- A verifier seeded after a restart goes on from the anchor that the last one persisted.
      pub seed-persist :
          (before after : Anchor W) (w w' : W)
          → persist serde files path before w ≡ returns tt w'
          → seed serde files path after w' ≡ returns tt (after.store (before.load w) w')
      unfolding seed persist
      seed-persist before after w w' h = elim (save-IsAtomic (before.load w) w) [
        | inl (v, x, l) ↦
            let same : v ≡ w' = ground arith in
            let read_back =
              subst (λ z. load serde files path z ≡ returns (before.load w) z) same l in
            rw (seed, ◌>>=◌, read_back) refl
        | inr (e, v, x, _) ↦ absurd (ground arith)
      ]
