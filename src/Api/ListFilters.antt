-- ===== src/Api/ListFilters.antt =====
-- internal/api/list_filters.go: the filters of list and prune requests, with the helpers
-- `normalizeImageRef` (images.go) and `canonicalNetworkName` (containers_extra.go).
pub mod Spec
use Prim.Native.Nat.{◌^◌}
use lxc2docker.Prelude.{
  ℕ, zero, suc, ◌+◌, ◌-◌, ◌*◌, Bool, true, false, not, ◌&&◌, ◌||◌, List, [], ◌∷◌, ◌++◌, Option,
  none, some, if◌then◌else◌, any, all, is_empty, ◌==◌,
}
use lxc2docker.Prelude.Int.{ℤ, pos, negsuc, ltb_ℤ}
use lxc2docker.Strings.{
  Str, codes, eq_str, has_prefix, trim_prefix, contains_byte, cut_byte, atoi, trim_space,
}
use lxc2docker.Dict.{Dict, get, set}
use lxc2docker.Store.Records.{Time, ContainerRecord, NetworkRecord, VolumeRecord}
use lxc2docker.Api.Filters.{Filters, values_of}

unfoldable pub or_default : Str → Str → Str
or_default v fallback = if is_empty v then fallback else v

pub data ParseResult : Type 0 where
  parsed : Filters → ParseResult
  bad_filters : ParseResult

kept_values : Str → Dict Bool → List Str
kept_values key [] = []
kept_values key ((k, enabled) ∷ m) =
    let rest = kept_values key m in if eq_str key (codes "label") || enabled then k ∷ rest else rest

-- A set with nothing to keep writes no key.
add_set : Str → List Str → Filters → Filters
add_set key [] f = f
add_set key (v ∷ vs) f = set key (values_of key f ++ (v ∷ vs)) f

-- The values are decoded one by one: as a list of texts or, if that fails, as a set.
module _ {Raw : Type 0} (as_slice : Raw → Option (List Str))
    (as_map : Raw → Option (Dict Bool)) where
  parse_entries : Dict Raw → Filters → ParseResult
  parse_entries [] out = parsed out
  parse_entries ((key, raw) ∷ rest) out = elim (as_slice raw) [
    | some vs ↦ parse_entries rest (set key (values_of key out ++ vs) out)
    | none ↦ elim (as_map raw) [
      | none ↦ bad_filters
      | some m ↦ parse_entries rest (add_set key (kept_values key m) out)
    ]
  ]

  unfoldable pub parse_list_filters : (Str → Option (Dict Raw)) → Str → ParseResult
  unfolding parse_entries add_set kept_values
  parse_list_filters as_object raw =
      if is_empty raw
      then parsed []
      else elim (as_object raw) [ none ↦ bad_filters | some entries ↦ parse_entries entries [] ]

matches_candidate : Str → Str → Bool
matches_candidate v c = not (is_empty c) && eq_str v c

unfoldable pub any_match : Str → List Str → Filters → Bool
unfolding matches_candidate
any_match key candidates f =
    let vals = values_of key f in
    if is_empty vals then true else any (λ v. any (matches_candidate v) candidates) vals

unfoldable pub matches_container_id_filter : List Str → Str → Bool
matches_container_id_filter filters id =
    if is_empty filters then true else any (λ want. eq_str want id || has_prefix id want) filters

-- images.go
unfoldable pub normalize_image_ref : Str → Str
normalize_image_ref name = if contains_byte b':' name then name else name ++ codes ":latest"

unfoldable pub shorten_image_ref : Str → Str
shorten_image_ref ref =
    let bare : Str = elim (cut_byte b'/' ref) [
      | none ↦ ref
      | some (prefix, rest) ↦
          if contains_byte b'.' prefix || contains_byte b':' prefix then rest else ref
    ] in
    trim_prefix bare (codes "library/")

-- The set of candidates, as a list.
unfoldable pub image_ref_candidates : Str → List Str
image_ref_candidates ref = let norm = normalize_image_ref ref in norm ∷ shorten_image_ref norm ∷ []

unfoldable pub ancestors_match : Str → Str → Bool
unfolding image_ref_candidates
ancestors_match record_image filter =
    any (λ l. any (λ r. eq_str r l) (image_ref_candidates filter))
      (image_ref_candidates record_image)

unfoldable pub label_holds : Dict Str → Str → Bool
label_holds labels want = elim (cut_byte b'=' want) [
  | none ↦ elim (get want labels) [ none ↦ false | some got ↦ true ]
  | some (k, v) ↦ elim (get k labels) [ none ↦ false | some got ↦ eq_str got v ]
]

unfoldable pub matches_label_filter : List Str → Dict Str → Bool
matches_label_filter filters labels = all (label_holds labels) filters

unfoldable pub matches_container_filters : ContainerRecord → Str → Filters → Bool
matches_container_filters rec state f =
    let ancestors = values_of (codes "ancestor") f in
    if not (any_match (codes "status") (state ∷ []) f)
    then false
    else if not (matches_container_id_filter (values_of (codes "id") f) rec.id)
    then false
    else if not (any_match (codes "name") (rec.name ∷ (b'/' ∷ rec.name) ∷ []) f)
    then false
    else if not (is_empty ancestors) && not (any (ancestors_match rec.image) ancestors)
    then false
    else matches_label_filter (values_of (codes "label") f) rec.labels

abbrev pub default_network_name : Str
default_network_name = codes "veth0"

unfoldable pub canonical_network_name : Str → Str
canonical_network_name name =
    let bare = trim_space name in
    if is_empty bare || (eq_str bare (codes "default") || eq_str bare (codes "bridge"))
    then default_network_name
    else name

unfoldable pub matches_network_filters : NetworkRecord → Filters → Bool
matches_network_filters n f =
    let bucket =
      if eq_str (canonical_network_name n.name) default_network_name
      then codes "builtin"
      else codes "custom" in
    if not (any_match (codes "driver") (n.driver ∷ []) f)
    then false
    else if not (any_match (codes "id") (n.id ∷ []) f)
    then false
    else if not (any_match (codes "name") (n.name ∷ []) f)
    then false
    else if not (any_match (codes "scope") (n.scope ∷ []) f)
    then false
    else if not (is_empty (values_of (codes "type") f))
        && not (any_match (codes "type") (bucket ∷ []) f)
    then false
    else matches_label_filter (values_of (codes "label") f) n.labels

-- Seconds since the epoch, in nanoseconds.
unix_seconds : ℤ → Time
unix_seconds (pos n) = pos (n * 10 ^ 9)
unix_seconds (negsuc n) = negsuc ((n + 1) * 10 ^ 9 - 1)

pub data UntilResult : Type 0 where
  no_limit : UntilResult
  until_time : Time → UntilResult
  bad_until : Str → UntilResult

last_value : List Str → Option Str
last_value [] = none
last_value (v ∷ []) = some v
last_value (v ∷ w ∷ vs) = last_value (w ∷ vs)

-- The last value counts: an RFC 3339 time, read by the parameter, or else a number of seconds.
unfoldable pub parse_prune_until : (Str → Option Time) → Filters → UntilResult
unfolding last_value unix_seconds
parse_prune_until parse_rfc3339 f = elim (last_value (values_of (codes "until") f)) [
  | none ↦ no_limit
  | some raw ↦ elim (parse_rfc3339 raw) [
    | some t ↦ until_time t
    | none ↦ elim (atoi raw) [ some secs ↦ until_time (unix_seconds secs) | none ↦ bad_until raw ]
  ]
]

unfoldable pub prune_eligible : Time → Dict Str → Filters → Option Time → Bool
prune_eligible created labels f none = matches_label_filter (values_of (codes "label") f) labels
prune_eligible created labels f (some until) =
    if ltb_ℤ until created then false else matches_label_filter (values_of (codes "label") f) labels

is_true_text : Str → Bool
is_true_text v = eq_str v (codes "true") || eq_str v (codes "1")

unfoldable pub matches_volume_filters : VolumeRecord → ℕ → Filters → Bool
unfolding is_true_text
matches_volume_filters v ref_count f =
    let vals = values_of (codes "dangling") f in
    let want = any is_true_text vals in
    let is_dangling = ref_count == 0 in
    if not (any_match (codes "driver") (or_default v.driver (codes "local") ∷ []) f)
    then false
    else if not (any_match (codes "name") (v.name ∷ []) f)
    then false
    else if not (matches_label_filter (values_of (codes "label") f) v.labels)
    then false
    else if is_empty vals
    then true
    else if want
    then is_dangling
    else not is_dangling
