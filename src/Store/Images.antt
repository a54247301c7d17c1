-- ===== src/Store/Images.antt =====
-- internal/store/store.go: image records, keyed by reference, and the lookup that forgives a missing
-- registry, "library/" or tag.
pub mod Names
pub mod Lookup
use lxc2docker.Prelude.{
  Bool, true, false, not, ◌&&◌, ◌||◌, List, [], ◌∷◌, ◌++◌, Option, none, some, if◌then◌else◌,
}
use lxc2docker.Strings.{Str, codes, eq_str, trim_prefix, contains_byte, cut_byte, cut_last_byte}
use lxc2docker.Dict.{Dict, get, set, delete, values}
use lxc2docker.Store.Records.{ImageRecord}
use lxc2docker.Store.State.{State, Store, SaveOutcome, StoreError, save}

-- The part before the first slash is a registry if it holds a dot or a colon.
unfoldable pub looks_like_host : Str → Bool
looks_like_host prefix = contains_byte b'.' prefix || contains_byte b':' prefix

unfoldable pub strip_registry : Str → Str
strip_registry ref = elim (cut_byte b'/' ref) [
  | none ↦ ref
  | some (prefix, rest) ↦ if looks_like_host prefix then rest else ref
]

-- `ref[strings.LastIndex(ref, "/")+1:]`
unfoldable pub last_component : Str → Str
last_component ref = elim (cut_last_byte b'/' ref) [ none ↦ ref | some (path, name) ↦ name ]

unfoldable pub default_tag : Str → Str
default_tag ref =
    if not (contains_byte b'@' ref) && not (contains_byte b':' (last_component ref))
    then ref ++ codes ":latest"
    else ref

unfoldable pub bare_image_ref : Str → Str
bare_image_ref ref = default_tag (trim_prefix (strip_registry ref) (codes "library/"))

-- The loop over the map.
unfoldable pub find_bare : Str → Dict ImageRecord → Option ImageRecord
find_bare bare [] = none
find_bare bare ((key, r) ∷ m) =
    if eq_str (bare_image_ref key) bare then some r else find_bare bare m

or_bare : Option ImageRecord → Option ImageRecord → Option ImageRecord
or_bare (some r) _ = some r
or_bare none other = other

unfoldable pub get_image : Str → Store → Option ImageRecord
unfolding or_bare
get_image ref s = or_bare (get ref s.state.images) (find_bare (bare_image_ref ref) s.state.images)

unfoldable pub add_image : SaveOutcome → ImageRecord → Store → Store × Option StoreError
add_image w r s =
    save w (record s { state = record s.state { images = set r.ref r s.state.images } })

unfoldable pub remove_image : SaveOutcome → Str → Store → Store × Option StoreError
remove_image w ref s =
    save w (record s { state = record s.state { images = delete ref s.state.images } })

unfoldable pub list_images : Store → List ImageRecord
list_images s = values s.state.images
