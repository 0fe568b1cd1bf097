-- ===== src/Governance/State/Examples.antt =====
-- The theorems on the state file at concrete inputs.
use tako_ai_core.Common.{ℕ, ◌≡◌, refl, ◌⊎◌, String, some, List, [], ◌∷◌}
use tako_ai_core.Core.Error.{TakoError, lit}
use tako_ai_core.Core.Effects.{returns, raises, gives, breaks, Foreign, comes}
use tako_ai_core.Governance.Bundle.{Anchor}
use tako_ai_core.Governance.State.{
  Fields, Serde, Reading, holds, missing, Files, load, found, guarded, write_tmp, sync_tmp,
  rename_tmp, chmod_state_file, create_parent, open_tmp, replace_with, write_state, state_of, save,
  seed, persist,
}
use tako_ai_core.Governance.State.Restart.{save-IsAtomic, seed-persist}

-- one state file, one temporary file, and the anchors before and after a restart
record Disk : Type 0 where
  file : Reading (List ℕ)
  buffer : List ℕ
  old_anchor : ℕ
  new_anchor : ℕ

-- a state file as its two numbers
abbrev read_fields : List ℕ → Foreign Fields
read_fields (v ∷ n ∷ []) = gives (record { version = some v; rekor_min_tree_size = n })
read_fields _ = breaks (lit "trailing characters" ∷ [])

abbrev numbers : Serde (List ℕ)
numbers = record {
  to_vec = λ f. gives (f.version ∷ f.rekor_min_tree_size ∷ []);
  from_slice = read_fields;
}

abbrev disk : Files Disk (List ℕ) ℕ
disk = record {
  read = λ _ w. w.file;
  parent = λ _. some "/var/lib/tako";
  create_dir_all = λ _ w. comes tt w;
  new_in = λ _ w. comes 0 (record w { buffer = [] });
  tmp_path = λ _. "/var/lib/tako/.tmp";
  write_all = λ _ b w. comes tt (record w { buffer = b });
  sync_all = λ _ w. comes tt w;
  rename = λ _ _ w. comes tt (record w { file = holds w.buffer });
  discard = λ _ w. w;
  set_mode = λ _ _ w. comes tt w;
}

abbrev path : String
path = "/var/lib/tako/rekor.json"

abbrev first_boot : Disk
first_boot = record { file = missing; buffer = 7 ∷ []; old_anchor = 4711; new_anchor = 0 }

abbrev saved : ℕ → Disk
saved n = record first_boot { file = holds (1 ∷ n ∷ []); buffer = 1 ∷ n ∷ [] }

abbrev old_verifier : Anchor Disk
old_verifier = record { load = λ w. w.old_anchor; store = λ n w. record w { old_anchor = n } }

abbrev new_verifier : Anchor Disk
new_verifier = record { load = λ w. w.new_anchor; store = λ n w. record w { new_anchor = n } }

starts_at_zero : load numbers disk path first_boot ≡ returns 0 first_boot
unfolding load found
starts_at_zero = refl

persisted : persist numbers disk path old_verifier first_boot ≡ returns tt (saved 4711)
unfolding persist save state_of write_state create_parent open_tmp replace_with write_tmp sync_tmp
    rename_tmp chmod_state_file guarded
persisted = refl

save-IsAtomic_example :
    ((w : Disk) × (save numbers disk path 3 (saved 5) ≡ returns tt w)
      × (load numbers disk path w ≡ returns 3 w))
    ⊎ ((e : TakoError) × (w : Disk) × (save numbers disk path 3 (saved 5) ≡ raises e w)
        × ((disk.read path w ≡ disk.read path (saved 5))
            ⊎ (load numbers disk path w ≡ returns 3 w)))
save-IsAtomic_example =
    save-IsAtomic numbers disk path (λ _ w. w.buffer) [] (λ tmp w. refl) (λ dir w. refl)
      (λ dir w. refl) (λ dir tmp w w' h. cc) (λ tmp b w. refl) (λ tmp b w w' e h. cc)
      (λ tmp w. refl) (λ tmp w w' h. cc) (λ tmp w w' h. cc) (λ tmp m w w' h. cc) (λ mode w. refl)
      (λ f b h. cc) 3 (saved 5)

seed-persist_example :
    seed numbers disk path new_verifier (saved 4711)
    ≡ returns tt (record (saved 4711) { new_anchor = 4711 })
seed-persist_example =
    seed-persist numbers disk path (λ _ w. w.buffer) [] (λ tmp w. refl) (λ dir w. refl)
      (λ dir w. refl) (λ dir tmp w w' h. cc) (λ tmp b w. refl) (λ tmp b w w' e h. cc)
      (λ tmp w. refl) (λ tmp w w' h. cc) (λ tmp w w' h. cc) (λ tmp m w w' h. cc) (λ mode w. refl)
      (λ f b h. cc) old_verifier new_verifier first_boot (saved 4711) persisted
