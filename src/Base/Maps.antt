-- ===== src/Base/Maps.antt =====
-- `Map<string, V>` as an association list: a key that is set again keeps its place.
use Prim.Native.String.{String}
use mathlib.Core.Option.{Option, none, some}
use mathlib.Core.List.{List, [], ◌∷◌}
use vidsilo.Base.Tests.{◌==◌, if◌then◌else◌}

abbrev pub Dict {ℓ} : Type ℓ → Type ℓ
Dict V = List (String × V)

module _ {ℓ} {V : Type ℓ} where
  -- `entries.get(key)`
  unfoldable pub lookup : String → Dict V → Option V
  lookup key [] = none
  lookup key ((other, value) ∷ entries) = if other == key then some value else lookup key entries

  -- `entries.delete(key)`
  unfoldable pub delete : String → Dict V → Dict V
  delete key [] = []
  delete key ((other, value) ∷ entries) =
      let rest = delete key entries in if other == key then rest else (other, value) ∷ rest

  -- `entries.set(key, value)`
  unfoldable pub insert : String → V → Dict V → Dict V
  insert key value [] = (key, value) ∷ []
  insert key value ((other, old) ∷ entries) =
      let rest = insert key value entries in
      if other == key then (other, value) ∷ entries else (other, old) ∷ rest
