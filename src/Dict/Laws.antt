-- ===== src/Dict/Laws.antt =====
-- The laws of a map.
use lxc2docker.Prelude.{
  ◌≡◌, refl, true, false, [], ◌∷◌, none, some, arith, if◌then◌else◌, In, inl, inr, Bool-cases,
}
use lxc2docker.Strings.{Str, eq_str, eq_str_iff, eq_str_refl}
use lxc2docker.Dict.Defs.{Dict, get, delete, set, has, values}

module _ {ℓ} {V : Type ℓ} where
  pub get-delete :
      (k j : Str) (m : Dict V) → get j (delete k m) ≡ (if eq_str k j then none else get j m)
  unfolding get delete
  get-delete k j [] = ground arith
  get-delete k j ((i, v) ∷ m) =
      ground (arith, get-delete k j m, eq_str_iff i k, eq_str_iff i j, eq_str_iff k j)

  pub get-set :
      (k j : Str) (v : V) (m : Dict V)
      → get j (set k v m) ≡ (if eq_str k j then some v else get j m)
  unfolding get set
  get-set k j v m = ground (arith, get-delete k j m)

  pub get-set_self : (k : Str) (v : V) (m : Dict V) → get k (set k v m) ≡ some v
  get-set_self k v m = rw (get-set, eq_str_refl) refl

  pub has-get : (k : Str) (m : Dict V) → has k m ≡ elim (get k m) [ none ↦ false | some v ↦ true ]
  unfolding has get
  has-get k [] = refl
  has-get k ((j, v) ∷ m) = ground (arith, has-get k m)

module _ {V : Type 0} where
  -- An entry that a lookup finds is one that a `range` loop meets.
  pub In-values : (k : Str) (m : Dict V) {v : V} → get k m ≡ some v → In v (values m)
  unfolding get values
  In-values k [] h = cc
  In-values k ((j, w) ∷ m) {v} h = elim (Bool-cases (eq_str j k)) [
    | inl e ↦ inl (ground arith)
    | inr e ↦ inr (In-values k m (ground arith))
  ]

  pub In-delete : (k : Str) (v : V) (m : Dict V) → In v (values (delete k m)) → In v (values m)
  unfolding delete values
  In-delete k v [] = λ i. i
  In-delete k v ((j, w) ∷ m) = elim (Bool-cases (eq_str j k)) [
    | inl e ↦ rw e λ i. inr (In-delete k v m i)
    | inr e ↦ rw e (elim [ inl p ↦ inl p | inr i ↦ inr (In-delete k v m i) ])
  ]
