-- ===== src/Api/Env/Merge.antt =====
-- The last setting of a variable wins.
use lxc2docker.Prelude.{
  ◌≡◌, ◌↔◌, refl, sym, ap, ◌∙◌, true, List, [], ◌∷◌, ◌++◌, Option, none, some, arith, if◌then◌else◌,
  map, In, In-append, In-append_left, In-append_right, inl, inr, ◌⊎◌, Bool-cases, Option-cases,
  append_assoc, append-nil,
}
use mathlib.Core.Path.{subst}
use lxc2docker.Strings.{Str, eq_str, eq_str_iff}
use lxc2docker.Dict.{Dict, get, set, has, get-set}
use lxc2docker.Api.Env.{
  Env, env_key, add_image_entry, add_request_entry, add_entries, entry_of, merge_env,
}

-- The last entry with this key.
unfoldable pub last_entry : Str → List Str → Option Str
last_entry key [] = none
last_entry key (e ∷ es) = elim (last_entry key es) [
  | some x ↦ some x
  | none ↦ if eq_str (env_key e) key then some e else none
]

last_entry-snoc :
    (key e : Str) (es : List Str)
    → last_entry key (es ++ e ∷ []) ≡ (if eq_str (env_key e) key then some e else last_entry key es)
unfolding last_entry
last_entry-snoc key e [] = refl
last_entry-snoc key e (x ∷ es) = ground (arith, last_entry-snoc key e es)

last_entry_key : (key e : Str) (es : List Str) → last_entry key es ≡ some e → env_key e ≡ key
unfolding last_entry
last_entry_key key e [] h = absurd (ground arith)
last_entry_key key e (x ∷ es) h = elim (Option-cases (last_entry key es)) [
  | inl q ↦ ground (arith, eq_str_iff (env_key x) key)
  | inr (y, q) ↦ last_entry_key key e es (ground arith)
]

-- What was added so far, and the entries that it stands for.
record Stands (env : Env) (done : List Str) : Type 0 where
  entries : (key : Str) → get key env.0 ≡ last_entry key done
  ordered : (key e : Str) → get key env.0 ≡ some e → In key env.1
  listed : (key : Str) → In key env.1 → (e : Str) × (get key env.0 ≡ some e)

-- A way to add an entry that writes it, and lists its key if that is not listed.
abbrev Adds : (Env → Str → Env) → Type 0
Adds add =
    (env : Env) (e : Str) (done : List Str) → Stands env done → Stands (add env e) (done ++ e ∷ [])

write :
    (m : Dict Str) (order order' : List Str) (e : Str) (done : List Str)
    → Stands (m, order) done
    → ((key : Str) → In key order' ↔ (In key order ⊎ (key ≡ env_key e)))
    → Stands (set (env_key e) e m, order') (done ++ e ∷ [])
write m order order' e done s keys = record {
  entries =
      λ key. ground (arith, get-set (env_key e) key e m, last_entry-snoc key e done, s.entries key);
  ordered = λ key x h. elim (Bool-cases (eq_str (env_key e) key)) [
    | inl q ↦ (keys key).1 (inr (sym ((eq_str_iff _ _).0 q)))
    | inr q ↦ (keys key).1 (inl (s.ordered key x (ground (arith, get-set (env_key e) key e m))))
  ];
  listed = λ key i. elim (Bool-cases (eq_str (env_key e) key)) [
    | inl q ↦ (e, ground (arith, get-set (env_key e) key e m))
    | inr q ↦ elim ((keys key).0 i) [
      | inl old ↦ let (x, h) = s.listed key old in (x, ground (arith, get-set (env_key e) key e m))
      | inr new ↦ absurd (ground (arith, eq_str_iff (env_key e) key, new))
    ]
  ];
}

snoc_keys : (order : List Str) (k key : Str) → In key (order ++ k ∷ []) ↔ (In key order ⊎ (key ≡ k))
snoc_keys order k key = (
  (λ i. elim (In-append key order (k ∷ []) i) [
    | inl l ↦ inl l
    | inr (inl e) ↦ inr e
    | inr (inr n) ↦ absurd n
  ]),
  elim [
    | inl l ↦ In-append_left key order (k ∷ []) l
    | inr e ↦ In-append_right key order (k ∷ []) (inl e)
  ],
)

image-Adds : Adds add_image_entry
unfolding add_image_entry
image-Adds (m, order) e done s =
    write m order (order ++ env_key e ∷ []) e done s (snoc_keys order (env_key e))

has-get : (key : Str) (m : Dict Str) → has key m ≡ true → (e : Str) × (get key m ≡ some e)
unfolding has get
has-get key [] h = absurd (ground arith)
has-get key ((k, v) ∷ m) h = elim (Bool-cases (eq_str k key)) [
  | inl q ↦ (v, ground arith)
  | inr q ↦ let (e, g) = has-get key m (ground arith) in (e, ground arith)
]

request-Adds : Adds add_request_entry
unfolding add_request_entry
request-Adds (m, order) e done s = elim (Bool-cases (has (env_key e) m)) [
  | inr q ↦
      rw (add_request_entry, q)
        (write m order (order ++ env_key e ∷ []) e done s (snoc_keys order (env_key e)))
  | inl q ↦
      let (x, g) = has-get (env_key e) m q in
      rw (add_request_entry, q)
        (write m order order e done s
          (λ key. ((λ i. inl i), elim [ inl i ↦ i | inr p ↦ rw p (s.ordered (env_key e) x g) ])))
]

add_entries-Stands :
    (add : Env → Str → Env) (adds : Adds add) (es : List Str) (env : Env) (done : List Str)
    → Stands env done
    → Stands (add_entries add es env) (done ++ es)
unfolding add_entries
add_entries-Stands add adds [] env done s = subst (Stands env) (sym (append-nil done)) s
add_entries-Stands add adds (e ∷ es) env done s =
    subst (Stands (add_entries add es (add env e))) (append_assoc done (e ∷ []) es)
      (add_entries-Stands add adds es (add env e) (done ++ e ∷ []) (adds env e done s))

nothing-Stands : Stands ([], []) []
unfolding get last_entry
nothing-Stands = record {
  entries = λ key. refl;
  ordered = λ key e h. absurd (ground arith);
  listed = λ key i. absurd i;
}

In-map :
    (f : Str → Str) (b : Str) (xs : List Str) → In b (map f xs) → (a : Str) × In a xs × (b ≡ f a)
In-map f b [] i = absurd i
In-map f b (x ∷ xs) (inl e) = (x, inl refl, e)
In-map f b (x ∷ xs) (inr i) = let (a, j, e) = In-map f b xs i in (a, inr j, e)

map-In : (f : Str → Str) (a : Str) (xs : List Str) → In a xs → In (f a) (map f xs)
map-In f a [] i = absurd i
map-In f a (x ∷ xs) (inl e) = inl (ap f e)
map-In f a (x ∷ xs) (inr i) = inr (map-In f a xs i)

-- The environment of a container holds exactly the entries that are the last ones for their keys in
-- the image's environment followed by the request's: each variable that either sets is there, the
-- request overrides the image, and no overridden entry is left.
pub merge_env_iff :
    (image_env request_env : List Str) (e : Str)
    → In e (merge_env image_env request_env)
      ↔ (last_entry (env_key e) (image_env ++ request_env) ≡ some e)
unfolding merge_env entry_of
merge_env_iff image_env request_env e =
    let first = add_entries add_image_entry image_env ([], []) in
    let env = add_entries add_request_entry request_env first in
    let s : Stands env (image_env ++ request_env) =
      add_entries-Stands add_request_entry request-Adds request_env first image_env
        (add_entries-Stands add_image_entry image-Adds image_env ([], []) [] nothing-Stands) in
    (
      (λ i.
          let (key, j, q) = In-map (entry_of env.0) e env.1 i in
          let (x, g) = s.listed key j in
          let same : e ≡ x = q ∙ rw (entry_of, g) refl in
          let last : last_entry key (image_env ++ request_env) ≡ some x = sym (s.entries key) ∙ g in
          let of_key = last_entry_key key x (image_env ++ request_env) last in
          rw (same, of_key) last),
      λ h.
          let g : get (env_key e) env.0 ≡ some e = s.entries (env_key e) ∙ h in
          let value : entry_of env.0 (env_key e) ≡ e = rw (entry_of, g) refl in
          subst (λ x. In x (map (entry_of env.0) env.1)) value
            (map-In (entry_of env.0) (env_key e) env.1 (s.ordered (env_key e) e g)),
    )
