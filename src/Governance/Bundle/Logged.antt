-- ===== src/Governance/Bundle/Logged.antt =====
-- What the keyless verifier of crates/tako-governance/src/sigstore.rs asks of the transparency log.
use tako_ai_core.Common.{
  ◌≤◌, ◌≡◌, refl, sym, subst, ◌∙◌, ◌⊎◌, inl, inr, Bool-cases, ltb, Option, none, some, arith,
}
use tako_ai_core.Core.Effects.{ok, returns, lift, bind-returns, lift-returns, ◌>>◌}
use tako_ai_core.Governance.Rekor.{Codecs, RekorEntry, RekorCheckpoint, RekorInclusionProof}
use tako_ai_core.Governance.Freshness.{larger}
use tako_ai_core.Governance.Chain.{Crypto, Clock}
use tako_ai_core.Governance.Bundle.Transparency.{Wire, verify_rekor_set, verify_rekor_checkpoint}
use tako_ai_core.Governance.Bundle.{
  Anchor, Parsers, advance_anchor, check_inclusion, root_of, check_checkpoint, check_rekor,
}

module _ {W Key : Type 0} (parsers : Parsers) (wire : Wire) (c : Codecs) (crypto : Crypto Key)
    (clock : Clock W) (anchor : Anchor W) where
  -- In the one world the anchor is no larger than the checkpoint's tree; in the other it is that tree's
  -- size, and nothing else has changed.
  abbrev pub IsFresh : RekorCheckpoint → W → W → Type 0
  IsFresh checkpoint w v =
      (anchor.load w ≤ checkpoint.tree_size) × (v ≡ anchor.store checkpoint.tree_size w)

  advance_anchor-IsFresh :
      (checkpoint : RekorCheckpoint) (w v : W)
      → advance_anchor anchor checkpoint.tree_size w ≡ returns tt v
      → IsFresh checkpoint w v
  unfolding advance_anchor
  advance_anchor-IsFresh checkpoint w v h =
      elim (Bool-cases (ltb checkpoint.tree_size (anchor.load w))) [
        | inl stale ↦ absurd (ground arith)
        | inr fresh ↦
            let above : anchor.load w ≤ checkpoint.tree_size = ground arith in
            let largest : larger checkpoint.tree_size (anchor.load w) ≡ checkpoint.tree_size =
              ground arith in
            let stores : returns tt (anchor.store checkpoint.tree_size w) ≡ returns tt v =
              rw (advance_anchor, fresh, largest) at h in
            (above, ground arith)
      ]

  -- Without a key of the log, or an entry, nothing is asked of the log; with both, the entry's own
  -- signature holds, and those of its inclusion proof and of its checkpoint where it has them.
  pub record IsLogged (key : Key) (entry : RekorEntry) (w v : W) : Type 0 where
    pub timestamped : verify_rekor_set wire c crypto key entry ≡ ok tt
    pub included :
        check_inclusion parsers wire c crypto clock anchor entry entry.inclusion_proof ≡ ok tt
    pub anchored :
        ((entry.checkpoint ≡ none) × (v ≡ w))
        ⊎ ((checkpoint : RekorCheckpoint) × (entry.checkpoint ≡ some checkpoint)
            × (verify_rekor_checkpoint wire c crypto key checkpoint
                  (root_of parsers wire c crypto clock anchor entry.inclusion_proof)
                ≡ ok tt)
            × IsFresh checkpoint w v)

  checkpoint-anchored :
      (key : Key) (proof : Option RekorInclusionProof) (checkpoint : Option RekorCheckpoint)
      (w v : W)
      → check_checkpoint parsers wire c crypto clock anchor key proof checkpoint w ≡ returns tt v
      → ((checkpoint ≡ none) × (v ≡ w))
        ⊎ ((cp : RekorCheckpoint) × (checkpoint ≡ some cp)
            × (verify_rekor_checkpoint wire c crypto key cp
                  (root_of parsers wire c crypto clock anchor proof)
                ≡ ok tt)
            × IsFresh cp w v)
  checkpoint-anchored key proof none w v h = inl (refl, ground arith)
  checkpoint-anchored key proof (some cp) w v h =
      let (u, w1, x, y) =
        bind-returns
          (lift (
            verify_rekor_checkpoint wire c crypto key cp
              (root_of parsers wire c crypto clock anchor proof)))
          _ w v tt h in
      let (holds, same) = lift-returns _ w w1 tt x in
      inr (cp, refl, holds, rw (sym same) at (advance_anchor-IsFresh cp w1 v y))

  abbrev pub LogHolds : Option Key → Option RekorEntry → W → W → Type 0
  LogHolds pinned rekor w v =
      (((pinned ≡ none) ⊎ (rekor ≡ none)) × (v ≡ w))
      ⊎ ((key : Key) × (entry : RekorEntry) × (pinned ≡ some key)
          × (rekor ≡ some entry)
          × IsLogged key entry w v)

  pub check_rekor-LogHolds :
      (pinned : Option Key) (rekor : Option RekorEntry) (w v : W)
      → check_rekor parsers wire c crypto clock anchor pinned rekor w ≡ returns tt v
      → LogHolds pinned rekor w v
  unfolding check_rekor
  check_rekor-LogHolds none rekor w v h = inl (inl refl, ground arith)
  check_rekor-LogHolds (some key) none w v h = inl (inr refl, ground arith)
  check_rekor-LogHolds (some key) (some entry) w v h =
      let set = lift {W = W} (verify_rekor_set wire c crypto key entry) in
      let proof =
        lift {W = W}
          (check_inclusion parsers wire c crypto clock anchor entry entry.inclusion_proof) in
      let (u, w2, both, last) = bind-returns (set >> proof) _ w v tt h in
      let (u1, w1, first, second) = bind-returns set _ w w2 u both in
      let (stamped, same1) = lift-returns _ w w1 tt first in
      let (proved, same2) = lift-returns _ w1 w2 tt second in
      inr (
        key,
        entry,
        refl,
        refl,
        record {
          timestamped = stamped;
          included = proved;
          anchored =
              subst
                (λ z.
                  ((entry.checkpoint ≡ none) × (v ≡ z))
                  ⊎ ((checkpoint : RekorCheckpoint) × (entry.checkpoint ≡ some checkpoint)
                      × (verify_rekor_checkpoint wire c crypto key checkpoint
                            (root_of parsers wire c crypto clock anchor entry.inclusion_proof)
                          ≡ ok tt)
                      × IsFresh checkpoint z v))
                (sym (same1 ∙ same2))
                (checkpoint-anchored key entry.inclusion_proof entry.checkpoint w2 v last);
        },
      )
