-- ===== src/Api/ListFilters/Spec.antt =====
-- The filters of a container list, said without loops.
use lxc2docker.Prelude.{
  ◌≡◌, ◌≢◌, ◌↔◌, refl, true, List, [], ◌∷◌, none, some, arith, Option-cases, inl, inr, ◌⊎◌, In,
  all_sound, all_complete, is_empty,
}
use lxc2docker.Strings.{Str, codes, eq_str_iff, has_prefix, cut_byte}
use lxc2docker.Dict.{Dict, get}
use lxc2docker.Store.Records.{ContainerRecord}
use lxc2docker.Api.Filters.{Filters, values_of}
use lxc2docker.Api.ListFilters.{
  normalize_image_ref, shorten_image_ref, label_holds, matches_label_filter,
}

-- A key with no value accepts everything; else one of its values has to pass.
abbrev pub Accepts : List Str → (Str → Type 0) → Type 0
Accepts vals P = (vals ≡ []) ⊎ ((v : Str) × In v vals × P v)

-- A wanted label `key` asks for the key, `key=value` for the key with this value.
abbrev pub HasLabel : Dict Str → Str → Type 0
HasLabel labels want =
    (cut_byte b'=' want ≡ none → (v : Str) × (get want labels ≡ some v))
    × ((k v : Str) → cut_byte b'=' want ≡ some (k, v) → get k labels ≡ some v)

-- Two references name one image if they agree in full, with the tag ":latest" for a reference without
-- a colon, or once the registry host and "library/" are taken off either of them, or off both.
abbrev pub SameImage : Str → Str → Type 0
SameImage image want =
    let full = normalize_image_ref image in
    let wanted = normalize_image_ref want in
    (full ≡ wanted)
    ⊎ (full ≡ shorten_image_ref wanted)
    ⊎ (shorten_image_ref full ≡ wanted)
    ⊎ (shorten_image_ref full ≡ shorten_image_ref wanted)

pub record Wanted (rec : ContainerRecord) (state : Str) (f : Filters) : Type 0 where
  pub status : Accepts (values_of (codes "status") f) (λ v. (v ≡ state) × (v ≢ []))
  pub id : Accepts (values_of (codes "id") f) (λ v. has_prefix rec.id v ≡ true)
  pub name :
      Accepts
        (values_of (codes "name") f)
        (λ v. ((v ≡ rec.name) ⊎ (v ≡ b'/' ∷ rec.name)) × (v ≢ []))
  pub ancestor : Accepts (values_of (codes "ancestor") f) (SameImage rec.image)
  pub label : (v : Str) → In v (values_of (codes "label") f) → HasLabel rec.labels v

empty_iff : (vs : List Str) → (is_empty vs ≡ true) ↔ (vs ≡ [])
unfolding is_empty
empty_iff [] = ((λ _. refl), λ _. refl)
empty_iff (v ∷ vs) = ((λ h. absurd (ground arith)), λ h. absurd (ground arith))

label_holds_iff :
    (labels : Dict Str) (want : Str) → (label_holds labels want ≡ true) ↔ HasLabel labels want
unfolding label_holds
label_holds_iff labels want = elim (Option-cases (cut_byte b'=' want)) [
  | inl e ↦ elim (Option-cases (get want labels)) [
    | inl g ↦ ((λ h. absurd (ground arith)), λ h. absurd (ground (arith, (h.0 e).1)))
    | inr (v, g) ↦ ((λ h. ((λ _. (v, g)), λ k w q. absurd (cc (e, q)))), λ h. ground arith)
  ]
  | inr ((k, v), e) ↦ elim (Option-cases (get k labels)) [
    | inl g ↦ ((λ h. absurd (ground arith)), λ h. absurd (cc (h.1 k v e, g)))
    | inr (x, g) ↦ (
      (λ h. ((λ q. absurd (cc (e, q))), λ k' v' q. ground (arith, eq_str_iff x v))),
      λ h. ground (arith, eq_str_iff x v, h.1 k v e),
    )
  ]
]

pub labels_iff :
    (vals : List Str) (labels : Dict Str)
    → (matches_label_filter vals labels ≡ true) ↔ ((v : Str) → In v vals → HasLabel labels v)
unfolding matches_label_filter
labels_iff vals labels = (
  (λ h v i. (label_holds_iff labels v).0 (all_sound (label_holds labels) v vals h i)),
  λ h. all_complete (label_holds labels) vals (λ v i. (label_holds_iff labels v).1 (h v i)),
)
