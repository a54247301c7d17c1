-- ===== src/Api/Filters.antt =====
-- internal/api/filters.go: the `filters` query parameter of list requests. The JSON decoder is a
-- parameter: `none` where it reports an error.
pub mod Labels
use lxc2docker.Prelude.{
  ℕ, Bool, true, false, not, ◌&&◌, ◌||◌, List, [], ◌∷◌, ◌++◌, Option, none, some, if◌then◌else◌,
  any, all, is_empty,
}
use lxc2docker.Strings.{
  Str, codes, eq_str, has_prefix, trim_prefix, contains, contains_byte, cut_byte,
}
use lxc2docker.Dict.{Dict, get, set}

abbrev pub Filters : Type 0
Filters = Dict (List Str)

or_empty : Option (List Str) → List Str
or_empty none = []
or_empty (some vs) = vs

-- `f[key]`
unfoldable pub values_of : Str → Filters → List Str
unfolding or_empty
values_of key f = or_empty (get key f)

enabled : Dict Bool → List Str
enabled [] = []
enabled ((v, true) ∷ m) = v ∷ enabled m
enabled ((v, false) ∷ m) = enabled m

-- A key with no enabled value is not written.
add_legacy : Str → List Str → Filters → Filters
add_legacy key [] f = f
add_legacy key (v ∷ vs) f = set key (values_of key f ++ (v ∷ vs)) f

from_legacy : Dict (Dict Bool) → Filters → Filters
unfolding add_legacy enabled
from_legacy [] f = f
from_legacy ((key, m) ∷ rest) f = from_legacy rest (add_legacy key (enabled m) f)

or_legacy : Option (Dict (Dict Bool)) → Filters
unfolding from_legacy
or_legacy none = []
or_legacy (some m) = from_legacy m []

module _ (as_arrays : Str → Option Filters) (as_sets : Str → Option (Dict (Dict Bool))) where
  -- The decoding of arrays that fails part way leaves in `out` at most keys with no values when the
  -- other form is then decoded, and these are read like keys that are not there.
  unfoldable pub parse_filters : Str → Filters
  unfolding or_legacy
  parse_filters raw =
      if is_empty raw
      then []
      else elim (as_arrays raw) [ some f ↦ f | none ↦ or_legacy (as_sets raw) ]

unfoldable pub has_values : Str → Filters → Bool
has_values key f = not (is_empty (values_of key f))

unfoldable pub match_any : Str → Str → Filters → Bool
match_any key val f =
    if not (has_values key f) then true else any (λ v. eq_str v val) (values_of key f)

-- `got` is "" for a label that is not there.
or_no_text : Option Str → Str
or_no_text none = []
or_no_text (some v) = v

is_present : Option Str → Bool
is_present none = false
is_present (some v) = true

unfoldable pub label_matches : Dict Str → Str → Bool
unfolding or_no_text is_present
label_matches labels want = elim (cut_byte b'=' want) [
  | none ↦ is_present (get want labels)
  | some (k, v) ↦ eq_str (or_no_text (get k labels)) v
]

unfoldable pub match_label : Dict Str → Filters → Bool
match_label labels f = all (label_matches labels) (values_of (codes "label") f)

slash : Str → Str
slash s = trim_prefix s (codes "/")

unfoldable pub match_name_prefix : List Str → Filters → Bool
unfolding slash
match_name_prefix names f =
    let vals = values_of (codes "name") f in
    if is_empty vals
    then true
    else any (λ want. any (λ n. contains (slash n) (slash want)) names) vals

unfoldable pub match_id : Str → Filters → Bool
match_id id f =
    let vals = values_of (codes "id") f in if is_empty vals then true else any (has_prefix id) vals

unfoldable pub match_ancestor : Str → Str → Filters → Bool
match_ancestor image image_id f =
    let vals = values_of (codes "ancestor") f in
    if is_empty vals
    then true
    else any (λ want. eq_str want image || (eq_str want image_id || has_prefix image_id want)) vals

unfoldable pub match_image_reference : Str → Filters → Bool
match_image_reference ref f =
    let vals = values_of (codes "reference") f in
    if is_empty vals
    then true
    else any
        (λ want.
          eq_str want ref || (not (contains_byte b':' want) && has_prefix ref (want ++ codes ":")))
        vals
