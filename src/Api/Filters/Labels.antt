-- ===== src/Api/Filters/Labels.antt =====
-- The two readings of a label filter: `matchLabel` of filters.go and `matchesLabelFilter` of
-- list_filters.go.
use lxc2docker.Prelude.{
  ◌≡◌, ◌↔◌, true, [], none, some, arith, Option-cases, inl, inr, ◌⊎◌, In, all_sound, all_complete,
}
use lxc2docker.Strings.{Str, codes, eq_str_iff, cut_byte}
use lxc2docker.Dict.{Dict, get}
use lxc2docker.Api.Filters.{Filters, values_of, label_matches, match_label, or_no_text, is_present}
use lxc2docker.Api.ListFilters.{label_holds}

-- A wanted label `key=` with no value, for a key that the container does not have.
pub AsksForNothing : Dict Str → Str → Type 0
AsksForNothing labels want = (k : Str) × (cut_byte b'=' want ≡ some (k, [])) × (get k labels ≡ none)

label_matches_iff :
    (labels : Dict Str) (want : Str)
    → (label_matches labels want ≡ true)
      ↔ ((label_holds labels want ≡ true) ⊎ AsksForNothing labels want)
unfolding label_matches label_holds or_no_text is_present AsksForNothing
label_matches_iff labels want = elim (Option-cases (cut_byte b'=' want)) [
  | inl e ↦ elim (Option-cases (get want labels)) [
    | inl g ↦ (
      (λ h. absurd (ground arith)),
      elim [ inl h ↦ absurd (ground arith) | inr (k, p, q) ↦ absurd (cc (e, p)) ],
    )
    | inr (v, g) ↦ ((λ h. inl (ground arith)), λ h. ground arith)
  ]
  | inr ((k, v), e) ↦ elim (Option-cases (get k labels)) [
    | inl g ↦ (
      (λ h. let nothing : v ≡ [] = ground (arith, eq_str_iff [] v) in inr (k, cc (e, nothing), g)),
      elim [ inl h ↦ absurd (ground arith) | inr (k', p, q) ↦ ground (arith, eq_str_iff [] v) ],
    )
    | inr (x, g) ↦ (
      (λ h. inl (ground arith)),
      elim [ inl h ↦ ground arith | inr (k', p, q) ↦ absurd (cc (e, g, p, q)) ],
    )
  ]
]

-- The label filter of a container list and the one of networks, volumes and prune requests agree,
-- but for a filter `key=` with no value: the former also lets pass what has no such key.
pub label_filters_agree :
    (labels : Dict Str) (f : Filters)
    → (match_label labels f ≡ true) ↔ (
        (want : Str)
        → In want (values_of (codes "label") f)
        → (label_holds labels want ≡ true) ⊎ AsksForNothing labels want)
unfolding match_label
label_filters_agree labels f = (
  (λ h want i. (label_matches_iff labels want).0 (all_sound (label_matches labels) want _ h i)),
  λ h.
      all_complete (label_matches labels) _
        (λ want i. (label_matches_iff labels want).1 (h want i)),
)
