-- ===== src/Store/Containers/Resolve.antt =====
-- What `ResolveID` answers.
use lxc2docker.Prelude.{
  ◌≡◌, ◌≢◌, sym, ap, ◌∙◌, true, false, [], ◌∷◌, none, some, arith, Bool-cases, Option-cases, inl,
  inr, ◌⊎◌, In, is_empty, find, find_sound, find-none,
}
use lxc2docker.Strings.{Str, codes, eq_str, eq_str_iff, trim_prefix, has_prefix}
use lxc2docker.Dict.{Dict, has, keys}
use lxc2docker.Store.Records.{ContainerRecord}
use lxc2docker.Store.State.{Store}
use lxc2docker.Store.Containers.{resolve_id, key_of_name}

has_key : (k : Str) (m : Dict ContainerRecord) → has k m ≡ true → In k (keys m)
unfolding has keys
has_key k [] h = absurd (ground arith)
has_key k ((j, r) ∷ m) h = elim (Bool-cases (eq_str j k)) [
  | inl e ↦ inl (ground (arith, (eq_str_iff j k).0 e))
  | inr e ↦ inr (has_key k m (ground arith))
]

key_of_name_sound :
    (name : Str) (m : Dict ContainerRecord) (id : Str)
    → key_of_name name m ≡ some id
    → (r : ContainerRecord) × In (id, r) m × (r.name ≡ name)
unfolding key_of_name
key_of_name_sound name [] id h = absurd (ground arith)
key_of_name_sound name ((j, r) ∷ m) id h = elim (Bool-cases (eq_str r.name name)) [
  | inl e ↦ (r, inl (ground arith), (eq_str_iff r.name name).0 e)
  | inr e ↦ let (t, i, p) = key_of_name_sound name m id (ground arith) in (t, inr i, p)
]

key_of_name-none :
    (name : Str) (m : Dict ContainerRecord) (id : Str) (r : ContainerRecord)
    → key_of_name name m ≡ none
    → In (id, r) m
    → r.name ≢ name
unfolding key_of_name
key_of_name-none name [] id r h i = absurd i
key_of_name-none name ((j, t) ∷ m) id r h (inl e) = λ p. elim (Bool-cases (eq_str t.name name)) [
  | inl q ↦ absurd (ground arith)
  | inr f ↦
      let q : t.name ≡ name = sym (ap (λ (u : Str × ContainerRecord). u.1.name) e) ∙ p in
      cc (f, (eq_str_iff t.name name).1 q)
]
key_of_name-none name ((j, t) ∷ m) id r h (inr i) = key_of_name-none name m id r (ground arith) i

module _ (id_or_name : Str) (s : Store) where
  abbrev pub bare : Str
  bare = trim_prefix id_or_name (codes "/")

  -- Of a text that is not empty behind its leading slash: if it resolves to `id`, then `id` is the text, or a key with the text as prefix, or the key of
  -- a record with that name. If it does not, then no key begins with it, and no record has the
  -- name. A key that is the text itself wins over all others.
  pub resolve_id_finds :
      is_empty bare ≡ false
      → ((id : Str)
          → resolve_id id_or_name s ≡ some id
          → (In id (keys s.state.containers) × ((id ≡ bare) ⊎ (has_prefix id bare ≡ true)))
            ⊎ ((r : ContainerRecord) × In (id, r) s.state.containers × (r.name ≡ bare)))
        × (resolve_id id_or_name s ≡ none
            → ((id : Str) → In id (keys s.state.containers) → has_prefix id bare ≡ false)
              × ((id : Str) (r : ContainerRecord) → In (id, r) s.state.containers → r.name ≢ bare))
        × (has bare s.state.containers ≡ true → resolve_id id_or_name s ≡ some bare)
  unfolding resolve_id
  resolve_id_finds n = elim (Bool-cases (has bare s.state.containers)) [
    | inl e ↦ (
      (λ id h. inl (ground (arith, has_key bare s.state.containers e), inl (ground arith))),
      (λ h. absurd (ground arith)),
      λ _. rw (n, e),
    )
    | inr e ↦ elim (Option-cases (find (λ id. has_prefix id bare) (keys s.state.containers))) [
      | inl f ↦ (
        (λ id h. inr (key_of_name_sound bare s.state.containers id (ground arith))),
        (λ h. (
          (λ id i. find-none (λ k. has_prefix k bare) id (keys s.state.containers) f i),
          λ id r i. key_of_name-none bare s.state.containers id r (ground arith) i,
        )),
        λ h. absurd (ground arith),
      )
      | inr (k, f) ↦ (
        (λ id h.
            let same : k ≡ id = ground arith in
            let (i, p) = find_sound (λ x. has_prefix x bare) (keys s.state.containers) f in
            inl (rw (← same) i, inr (rw (← same) p))),
        (λ h. absurd (ground arith)),
        λ h. absurd (ground arith),
      )
    ]
  ]
