-- ===== src/Common/Maps.antt =====
-- `HashMap` and `BTreeMap` with string keys, as association lists, the newest entry first; nothing reads
-- their order or counts them.
use Prim.Native.String.{String}
use mathlib.Core.Path.{◌≡◌, refl}
use mathlib.Core.Option.{Option, none, some}
use mathlib.Core.List.{List, [], ◌∷◌}
use tako_ai_core.Common.Tests.{str_eq, if◌then◌else◌}

abbrev pub Dict : Type 0 → Type 0
Dict V = List (String × V)

module _ {V : Type 0} where
  unfoldable pub lookup : String → Dict V → Option V
  lookup key [] = none
  lookup key (entry ∷ older) = if str_eq entry.0 key then some entry.1 else lookup key older

  -- what the key had before stays, hidden, behind the new entry
  unfoldable pub insert : String → V → Dict V → Dict V
  insert key value dict = (key, value) ∷ dict

  pub lookup-insert :
      (key other : String) (value : V) (dict : Dict V)
      → lookup other (insert key value dict)
        ≡ (if str_eq key other then some value else lookup other dict)
  unfolding lookup insert
  lookup-insert key other value dict = refl
