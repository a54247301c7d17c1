-- ===== src/Store/Networks.antt =====
-- internal/store/store.go: volume and network records.
pub mod Resolve
use lxc2docker.Prelude.{
  Bool, true, false, ◌&&◌, ◌||◌, List, [], ◌∷◌, Option, none, some, if◌then◌else◌, is_empty, leb,
  length,
}
use lxc2docker.Strings.{Str, eq_str, has_prefix}
use lxc2docker.Dict.{Dict, get, set, delete, has, values}
use lxc2docker.Store.Records.{VolumeRecord, NetworkRecord}
use lxc2docker.Store.State.{State, Store, SaveOutcome, StoreError, save}

unfoldable pub add_volume : SaveOutcome → VolumeRecord → Store → Store × Option StoreError
add_volume w v s =
    save w (record s { state = record s.state { volumes = set v.name v s.state.volumes } })

unfoldable pub get_volume : Str → Store → Option VolumeRecord
get_volume name s = get name s.state.volumes

unfoldable pub list_volumes : Store → List VolumeRecord
list_volumes s = values s.state.volumes

unfoldable pub remove_volume : SaveOutcome → Str → Store → Store × Option StoreError
remove_volume w name s =
    save w (record s { state = record s.state { volumes = delete name s.state.volumes } })

unfoldable pub list_networks : Store → List NetworkRecord
list_networks s = values s.state.networks

unfoldable pub network_matches : Str → Str → NetworkRecord → Bool
network_matches id_or_name id n =
    eq_str n.name id_or_name
    || (eq_str n.id id_or_name || (leb 4 (length id_or_name) && has_prefix id id_or_name))

unfoldable pub find_network : Str → Dict NetworkRecord → Option NetworkRecord
find_network id_or_name [] = none
find_network id_or_name ((id, n) ∷ m) =
    if network_matches id_or_name id n then some n else find_network id_or_name m

unfoldable pub get_network : Str → Store → Option NetworkRecord
get_network id_or_name s =
    if is_empty id_or_name then none else find_network id_or_name s.state.networks

unfoldable pub add_network : SaveOutcome → NetworkRecord → Store → Store × Option StoreError
add_network w n s =
    save w (record s { state = record s.state { networks = set n.id n s.state.networks } })

-- The key of the first record with this name.
unfoldable pub network_key_of_name : Str → Dict NetworkRecord → Option Str
network_key_of_name name [] = none
network_key_of_name name ((id, n) ∷ m) =
    if eq_str n.name name then some id else network_key_of_name name m

unfoldable pub drop_network : Str → Dict NetworkRecord → Dict NetworkRecord
drop_network id_or_name m =
    if has id_or_name m
    then delete id_or_name m
    else elim (network_key_of_name id_or_name m) [ none ↦ m | some id ↦ delete id m ]

unfoldable pub remove_network : SaveOutcome → Str → Store → Store × Option StoreError
remove_network w id_or_name s =
    save w
      (record s { state = record s.state { networks = drop_network id_or_name s.state.networks } })
