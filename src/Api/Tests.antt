-- ===== src/Api/Tests.antt =====
-- Filters of list requests, and the theorems at concrete inputs.
use lxc2docker.Prelude.{◌≡◌, ◌↔◌, refl, true, [], ◌∷◌, ◌⊎◌, In, all}
use lxc2docker.Strings.{Str, codes, eq_str, cut_byte}
use lxc2docker.Dict.{get}
use lxc2docker.Store.Records.{ContainerRecord}
use lxc2docker.Store.Samples.{blank_container}
use lxc2docker.Api.Filters.{Filters, values_of, match_label, label_matches}
use lxc2docker.Api.Filters.Labels.{AsksForNothing, label_filters_agree}
use lxc2docker.Api.ListFilters.{label_holds}

abbrev web : ContainerRecord
web = record blank_container {
  id = codes "abc123";
  name = codes "web";
  image = codes "docker.io/library/nginx:latest";
  labels = (codes "tier", codes "front") ∷ [];
}

abbrev running_front : Filters
running_front =
    (codes "status", codes "running" ∷ [])
    ∷ (codes "name", codes "/web" ∷ [])
    ∷ (codes "ancestor", codes "nginx" ∷ [])
    ∷ (codes "label", codes "tier=front" ∷ [])
    ∷ []

-- A filter for a label that the container does not have, with no value.
abbrev unset_label : Filters
unset_label = (codes "label", codes "zone=" ∷ []) ∷ []

label_filters_agree_example : (match_label web.labels unset_label ≡ true) ↔ (
    (want : Str)
    → In want (values_of (codes "label") unset_label)
    → (label_holds web.labels want ≡ true) ⊎ AsksForNothing web.labels want)
label_filters_agree_example = label_filters_agree web.labels unset_label

unset_label_passes : match_label web.labels unset_label ≡ true
unfolding match_label values_of get eq_str all label_matches cut_byte
unset_label_passes = refl
