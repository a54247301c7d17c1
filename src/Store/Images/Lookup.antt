-- ===== src/Store/Images/Lookup.antt =====
-- What `GetImage` finds.
use lxc2docker.Prelude.{
  ◌≡◌, ◌≢◌, refl, sym, ap, ◌∙◌, [], ◌∷◌, none, some, arith, Bool-cases, Option-cases, inl, inr, ◌⊎◌,
  In,
}
use lxc2docker.Strings.{Str, eq_str, eq_str_iff}
use lxc2docker.Dict.{Dict, get}
use lxc2docker.Store.Records.{ImageRecord}
use lxc2docker.Store.State.{Store}
use lxc2docker.Store.Images.{bare_image_ref, find_bare, get_image}

find_bare_sound :
    (bare : Str) (m : Dict ImageRecord) (r : ImageRecord)
    → find_bare bare m ≡ some r
    → (key : Str) × In (key, r) m × (bare_image_ref key ≡ bare)
unfolding find_bare
find_bare_sound bare [] r h = absurd (ground arith)
find_bare_sound bare ((key, x) ∷ m) r h = elim (Bool-cases (eq_str (bare_image_ref key) bare)) [
  | inl e ↦ (key, inl (ground arith), (eq_str_iff (bare_image_ref key) bare).0 e)
  | inr e ↦ let (k, i, p) = find_bare_sound bare m r (ground arith) in (k, inr i, p)
]

find_bare-none :
    (bare : Str) (m : Dict ImageRecord) (key : Str) (r : ImageRecord)
    → find_bare bare m ≡ none
    → In (key, r) m
    → bare_image_ref key ≢ bare
unfolding find_bare
find_bare-none bare [] key r h i = absurd i
find_bare-none bare ((k, x) ∷ m) key r h (inl e) = λ p.
    elim (Bool-cases (eq_str (bare_image_ref k) bare)) [
      | inl t ↦ absurd (ground arith)
      | inr f ↦
          let q : bare_image_ref k ≡ bare =
            sym (ap (λ (t : Str × ImageRecord). bare_image_ref t.0) e) ∙ p in
          cc (f, (eq_str_iff (bare_image_ref k) bare).1 q)
    ]
find_bare-none bare ((k, x) ∷ m) key r h (inr i) = find_bare-none bare m key r (ground arith) i

-- The record that stands under the reference asked for is found first; without one, an image that
-- is found stands under a reference with the same bare form; and if none is found, no reference of
-- the map has the bare form of the one asked for.
pub get_image_finds :
    (ref : Str) (s : Store)
    → ((r : ImageRecord) → get ref s.state.images ≡ some r → get_image ref s ≡ some r)
      × ((r : ImageRecord)
          → get_image ref s ≡ some r
          → (get ref s.state.images ≡ some r)
            ⊎ ((get ref s.state.images ≡ none)
                × ((key : Str) × In (key, r) s.state.images
                    × (bare_image_ref key ≡ bare_image_ref ref))))
      × (get_image ref s ≡ none
          → (key : Str) (r : ImageRecord) → In (key, r) s.state.images
          → bare_image_ref key ≢ bare_image_ref ref)
unfolding get_image
get_image_finds ref s = elim (Option-cases (get ref s.state.images)) [
  | inl e ↦ (
    (λ r h. absurd (ground (arith, e, h))),
    (λ r h. inr (e, find_bare_sound (bare_image_ref ref) s.state.images r (ground arith))),
    λ h key r. find_bare-none (bare_image_ref ref) s.state.images key r (ground arith),
  )
  | inr (x, e) ↦ ((λ r h. rw h refl), (λ r h. inl (ground arith)), λ h. absurd (ground arith))
]
