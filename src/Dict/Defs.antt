-- ===== src/Dict/Defs.antt =====
-- Lookup, write and delete of a map.
use lxc2docker.Prelude.{Bool, true, false, List, [], ◌∷◌, Option, none, some, if◌then◌else◌}
use lxc2docker.Strings.{Str, eq_str}

abbrev pub Dict {ℓ} : Type ℓ → Type ℓ
Dict V = List (Str × V)

module _ {ℓ} {V : Type ℓ} where
  -- `v, ok := m[k]`
  unfoldable pub get : Str → Dict V → Option V
  get k [] = none
  get k ((j, v) ∷ m) = if eq_str j k then some v else get k m

  -- `delete(m, k)`
  unfoldable pub delete : Str → Dict V → Dict V
  delete k [] = []
  delete k ((j, v) ∷ m) = let rest = delete k m in if eq_str j k then rest else (j, v) ∷ rest

  -- `m[k] = v`
  unfoldable pub set : Str → V → Dict V → Dict V
  unfolding delete
  set k v m = (k, v) ∷ delete k m

  unfoldable pub has : Str → Dict V → Bool
  has k [] = false
  has k ((j, v) ∷ m) = if eq_str j k then true else has k m

  unfoldable pub keys : Dict V → List Str
  keys [] = []
  keys ((j, v) ∷ m) = j ∷ keys m

  unfoldable pub values : Dict V → List V
  values [] = []
  values ((j, v) ∷ m) = v ∷ values m
