-- ===== src/Governance/State.antt =====
-- crates/tako-governance/src/sigstore_state.rs: the file that keeps the freshness anchor between two
-- runs. The file system, serde_json and `NamedTempFile` are arguments; permissions are Unix's.
pub mod Steps
pub mod Restart
pub mod Examples
use tako_ai_core.Common.{ℕ, ◌==◌, if◌then◌else◌, String, str_eq, Option, none, some, [], ◌∷◌}
use tako_ai_core.Core.Error.{Text, lit, num, invalid}
use tako_ai_core.Core.Effects.{
  Io, returns, raises, ◌>>=◌, ◌>>◌, Result, ok, err, lift, and_then, map_err, Foreign,
  ForeignOutcome, comes, breaks_off, map_err_io,
}
use tako_ai_core.Governance.Bundle.{Anchor, set_rekor_min_tree_size, rekor_max_tree_size}

abbrev pub state_file_version : ℕ
state_file_version = 1

pub record StateFile : Type 0 where
  pub version : ℕ
  pub rekor_min_tree_size : ℕ

-- the fields as the JSON object has them; serde_json refuses all others
pub record Fields : Type 0 where
  pub version : Option ℕ
  pub rekor_min_tree_size : ℕ

-- `default_state_file_version` stands for a missing version
unfoldable pub with_default : Fields → StateFile
with_default f = record {
  version = elim f.version [ none ↦ state_file_version | some v ↦ v ];
  rekor_min_tree_size = f.rekor_min_tree_size;
}

pub record Serde (Bytes : Type 0) : Type 0 where
  pub to_vec : StateFile → Foreign Bytes
  pub from_slice : Bytes → Foreign Fields

-- what `std::fs::read` finds
pub data Reading (Bytes : Type 0) : Type 0 where
  holds : Bytes → Reading Bytes
  missing : Reading Bytes
  unreadable : Text → Reading Bytes

-- `Tmp` is a `NamedTempFile`; `discard` is its `Drop`.
pub record Files (W Bytes Tmp : Type 0) : Type 0 where
  pub read : String → W → Reading Bytes
  pub parent : String → Option String
  pub create_dir_all : String → W → ForeignOutcome W (Unit {0})
  pub new_in : String → W → ForeignOutcome W Tmp
  pub tmp_path : Tmp → String
  pub write_all : Tmp → Bytes → W → ForeignOutcome W (Unit {0})
  pub sync_all : Tmp → W → ForeignOutcome W (Unit {0})
  pub rename : Tmp → String → W → ForeignOutcome W (Unit {0})
  pub discard : Tmp → W → W
  pub set_mode : String → ℕ → W → ForeignOutcome W (Unit {0})

abbrev pub unsupported_version : ℕ → Text
unsupported_version v =
    lit "sigstore_state: unsupported state file version "
    ∷ num v
    ∷ lit " (this build expects "
    ∷ num state_file_version
    ∷ lit "); rebuild from a fresh boot"
    ∷ []

-- the parent of the path, or `.` where there is none
unfoldable pub dir_of : Option String → String
dir_of none = "."
dir_of (some p) = if str_eq p "" then "." else p

module _ {W Bytes Tmp : Type 0} (serde : Serde Bytes) (files : Files W Bytes Tmp)
    (path : String) where
  unfoldable pub parse_state : Bytes → Result ℕ
  parse_state bytes =
      and_then
        (map_err (λ e. invalid (lit "sigstore_state: parse " ∷ lit path ∷ lit ": " ∷ e))
          (serde.from_slice bytes))
        λ fields.
          let parsed = with_default fields in
          if parsed.version == state_file_version
          then ok parsed.rekor_min_tree_size
          else err (invalid (unsupported_version parsed.version))

  unfoldable pub found : Reading Bytes → Result ℕ
  found (holds bytes) = parse_state bytes
  found missing = ok 0
  found (unreadable e) = err (invalid (lit "sigstore_state: read " ∷ lit path ∷ lit ": " ∷ e))

  -- `JsonStateStore::load`
  unfoldable pub load : Io W ℕ
  load w = lift (found (files.read path w)) w

  -- a step on the temporary file, which is deleted if the step fails
  unfoldable pub guarded : Tmp → (Text → Text) → (W → ForeignOutcome W (Unit {0})) → Io W (Unit {0})
  guarded tmp message step w = elim (step w) [
    | comes u w' ↦ returns u w'
    | breaks_off e w' ↦ raises (invalid (message e)) (files.discard tmp w')
  ]

  unfoldable pub write_tmp : Bytes → Tmp → Io W (Unit {0})
  write_tmp body tmp =
      guarded tmp (λ e. lit "sigstore_state: write tmp " ∷ lit (files.tmp_path tmp) ∷ lit ": " ∷ e)
        (files.write_all tmp body)

  unfoldable pub sync_tmp : Tmp → Io W (Unit {0})
  sync_tmp tmp =
      guarded tmp (λ e. lit "sigstore_state: fsync tmp " ∷ lit (files.tmp_path tmp) ∷ lit ": " ∷ e)
        (files.sync_all tmp)

  unfoldable pub rename_tmp : Tmp → Io W (Unit {0})
  rename_tmp tmp =
      guarded tmp (λ e. lit "sigstore_state: persist tmp -> " ∷ lit path ∷ lit ": " ∷ e)
        (files.rename tmp path)

  -- `chmod_state_file`, with mode 0600
  unfoldable pub chmod_state_file : Io W (Unit {0})
  chmod_state_file =
      map_err_io (λ e. invalid (lit "sigstore_state: chmod 0600 " ∷ lit path ∷ lit ": " ∷ e))
        (files.set_mode path 384)

  unfoldable pub create_parent : String → Io W (Unit {0})
  create_parent dir =
      map_err_io (λ e. invalid (lit "sigstore_state: create parent " ∷ lit dir ∷ lit ": " ∷ e))
        (files.create_dir_all dir)

  unfoldable pub open_tmp : String → Io W Tmp
  open_tmp dir =
      map_err_io (λ e. invalid (lit "sigstore_state: open tmp in " ∷ lit dir ∷ lit ": " ∷ e))
        (files.new_in dir)

  -- the steps on the opened temporary file
  unfoldable pub replace_with : Bytes → Tmp → Io W (Unit {0})
  replace_with body tmp =
      write_tmp body tmp >> (sync_tmp tmp >> (rename_tmp tmp >> chmod_state_file))

  -- `save` after serialisation
  unfoldable pub write_state : Bytes → Io W (Unit {0})
  write_state body =
      let dir = dir_of (files.parent path) in
      create_parent dir >> (open_tmp dir >>= replace_with body)

  unfoldable pub state_of : ℕ → StateFile
  state_of n = record { version = state_file_version; rekor_min_tree_size = n }

  -- `JsonStateStore::save`
  unfoldable pub save : ℕ → Io W (Unit {0})
  save n =
      lift
        (map_err (λ e. invalid (lit "sigstore_state: serialise: " ∷ e)) (serde.to_vec (state_of n)))
      >>= write_state

  -- `JsonStateStore::seed` and `JsonStateStore::persist`, on the anchor of a verifier
  unfoldable pub seed : Anchor W → Io W (Unit {0})
  seed anchor = load >>= λ n w. returns tt (set_rekor_min_tree_size anchor n w)

  unfoldable pub persist : Anchor W → Io W (Unit {0})
  persist anchor w = save (rekor_max_tree_size anchor w) w
