-- ===== src/Store/Networks/Resolve.antt =====
-- Which record `RemoveNetwork` drops, and which one `GetNetwork` finds.
use lxc2docker.Prelude.{
  ◌≡◌, refl, sym, ap, ◌∙◌, true, false, [], ◌∷◌, none, some, arith, Bool-cases, Option-cases, inl,
  inr, ◌⊎◌, In,
}
use lxc2docker.Strings.{Str, eq_str, eq_str_iff}
use lxc2docker.Dict.{Dict, get, has, get-delete}
use lxc2docker.Store.Records.{NetworkRecord}
use lxc2docker.Store.Networks.{network_matches, find_network, network_key_of_name, drop_network}

network_key_of_name_sound :
    (name : Str) (m : Dict NetworkRecord) (id : Str)
    → network_key_of_name name m ≡ some id
    → (n : NetworkRecord) × In (id, n) m × (n.name ≡ name)
unfolding network_key_of_name
network_key_of_name_sound name [] id h = absurd (ground arith)
network_key_of_name_sound name ((j, n) ∷ m) id h = elim (Bool-cases (eq_str n.name name)) [
  | inl e ↦ (n, inl (ground arith), (eq_str_iff n.name name).0 e)
  | inr e ↦ let (t, i, p) = network_key_of_name_sound name m id (ground arith) in (t, inr i, p)
]

-- At most one key is dropped: the one asked for or, if there is no such key, that of a record with
-- the name asked for. Every other key reads as before.
pub drop_network_precise :
    (id_or_name j : Str) (m : Dict NetworkRecord)
    → (get j (drop_network id_or_name m) ≡ get j m)
      ⊎ ((get j (drop_network id_or_name m) ≡ none)
          × (((has id_or_name m ≡ true) × (j ≡ id_or_name))
              ⊎ ((has id_or_name m ≡ false)
                  × ((n : NetworkRecord) × In (j, n) m × (n.name ≡ id_or_name)))))
unfolding drop_network
drop_network_precise x j m = elim (Bool-cases (has x m)) [
  | inl e ↦ elim (Bool-cases (eq_str x j)) [
    | inl q ↦ inr (rw (e, get-delete, q) refl, inl (e, sym ((eq_str_iff x j).0 q)))
    | inr q ↦ inl (rw (e, get-delete, q) refl)
  ]
  | inr e ↦ elim (Option-cases (network_key_of_name x m)) [
    | inl f ↦ inl (rw (e, f) refl)
    | inr (id, f) ↦ elim (Bool-cases (eq_str id j)) [
      | inl q ↦
          let same = (eq_str_iff id j).0 q in
          inr (
            rw (e, f) (rw (get-delete, q) refl),
            inr (e, rw (← same) (network_key_of_name_sound x m id f)),
          )
      | inr q ↦ inl (rw (e, f) (rw (get-delete, q) refl))
    ]
  ]
]

find_network_sound :
    (x : Str) (m : Dict NetworkRecord) (n : NetworkRecord)
    → find_network x m ≡ some n
    → (id : Str) × In (id, n) m × (network_matches x id n ≡ true)
unfolding find_network
find_network_sound x [] n h = absurd (ground arith)
find_network_sound x ((id, t) ∷ m) n h = elim (Bool-cases (network_matches x id t)) [
  | inl e ↦
      let q : t ≡ n = ground arith in
      (
        id,
        inl (ap (λ (r : NetworkRecord). let p : Str × NetworkRecord = (id, r) in p) (sym q)),
        rw (← q) e,
      )
  | inr e ↦ let (k, i, p) = find_network_sound x m n (ground arith) in (k, inr i, p)
]

find_network-none :
    (x : Str) (m : Dict NetworkRecord) (id : Str) (n : NetworkRecord)
    → find_network x m ≡ none
    → In (id, n) m
    → network_matches x id n ≡ false
unfolding find_network
find_network-none x [] id n h i = absurd i
find_network-none x ((k, t) ∷ m) id n h (inl e) = elim (Bool-cases (network_matches x k t)) [
  | inl q ↦ absurd (ground arith)
  | inr q ↦ ap (λ (p : Str × NetworkRecord). network_matches x p.0 p.1) e ∙ q
]
find_network-none x ((k, t) ∷ m) id n h (inr i) = find_network-none x m id n (ground arith) i
