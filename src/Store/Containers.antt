-- ===== src/Store/Containers.antt =====
-- internal/store/store.go: the operations on containers and on the address pool. A record is a value
-- here, so the copies that `cloneContainerRecord` makes need no operation: nothing is shared.
pub mod Allocate
pub mod Update
pub mod Addresses
pub mod Resolve
use lxc2docker.Prelude.{
  ℕ, ◌≤◌, Bool, true, false, not, ◌&&◌, ◌||◌, List, [], ◌∷◌, Option, none, some, leb, if◌then◌else◌,
  find, is_empty, ◌==◌,
}
use lxc2docker.Strings.{Str, codes, eq_str, has_prefix, trim_prefix}
use lxc2docker.Dict.{Dict, get, set, delete, has, keys, values}
use lxc2docker.Store.Records.{ContainerRecord}
use lxc2docker.Store.State.{State, Store, SaveOutcome, StoreError, ip_space_exhausted, save}
use lxc2docker.Store.Ip.{
  parse_managed_ip_octet, managed_ip, used_ip_octets, has_octet, append_free_ip, allocate_octet,
}

unfoldable pub allocate_ip : SaveOutcome → Store → Store × Str × Option StoreError
allocate_ip w s =
    let (st, found) = allocate_octet s.state in
    elim found [
      | none ↦ (record s { state = st }, [], some ip_space_exhausted)
      | some octet ↦ let (s', e) = save w (record s { state = st }) in (s', managed_ip octet, e)
    ]

unfoldable pub free_octet : Str → State → Option State
free_octet ip st = elim (parse_managed_ip_octet ip) [
  | none ↦ none
  | some octet ↦
      if has_octet octet (used_ip_octets (values st.containers))
      then none
      else some (record st { free_ips = append_free_ip octet st.free_ips })
]

-- The error of `save` is dropped.
unfoldable pub free_ip : SaveOutcome → Str → Store → Store
unfolding free_octet
free_ip w ip s = elim (free_octet ip s.state) [
  | none ↦ s
  | some st ↦ (save w (record s { state = st })).0
]

unfoldable pub put_container : ContainerRecord → State → State
put_container r st = record st { containers = set r.id r st.containers }

unfoldable pub add_container : SaveOutcome → ContainerRecord → Store → Store × Option StoreError
unfolding put_container
add_container w r s = save w (record s { state = put_container r s.state })

-- What follows the save in `UpdateContainer`: a failed save puts the previous record back.
finish_update :
    Str
    → ContainerRecord
    → ContainerRecord
    → Store × Option StoreError
    → Store × Option ContainerRecord × Option StoreError
finish_update id previous stored (s, none) = (s, some stored, none)
finish_update id previous stored (s, some e) = (
  record s { state = record s.state { containers = set id previous s.state.containers } },
  none,
  some e,
)

unfoldable pub update_container :
    SaveOutcome
    → Str
    → (ContainerRecord → ContainerRecord)
    → Store
    → Store × Option ContainerRecord × Option StoreError
unfolding finish_update
update_container w id update s = elim (get id s.state.containers) [
  | none ↦ (s, none, none)
  | some previous ↦
      let stored = update previous in
      let changed = record s {
        state = record s.state { containers = set id stored s.state.containers };
      } in
      finish_update id previous stored (save w changed)
]

-- `freedOctet`, 0 for none
freed_octet : Str → Dict ContainerRecord → ℕ
freed_octet id cs = elim (get id cs) [
  | none ↦ 0
  | some rec ↦
      if is_empty rec.ip_address
      then 0
      else elim (parse_managed_ip_octet rec.ip_address) [ none ↦ 0 | some octet ↦ octet ]
]

unfoldable pub drop_container : Str → State → State
unfolding freed_octet
drop_container id st =
    let freed = freed_octet id st.containers in
    let cs = delete id st.containers in
    if not (freed == 0) && not (has_octet freed (used_ip_octets (values cs)))
    then record st { containers = cs; free_ips = append_free_ip freed st.free_ips }
    else record st { containers = cs }

unfoldable pub remove_container : SaveOutcome → Str → Store → Store × Option StoreError
unfolding drop_container
remove_container w id s = save w (record s { state = drop_container id s.state })

unfoldable pub get_container : Str → Store → Option ContainerRecord
get_container id s = get id s.state.containers

unfoldable pub find_container_by_name : Str → Store → Option ContainerRecord
find_container_by_name name s =
    let bare = trim_prefix name (codes "/") in
    find (λ r. eq_str r.name bare) (values s.state.containers)

unfoldable pub list_containers : Store → List ContainerRecord
list_containers s = values s.state.containers

-- The loop over the records that matches names, and gives the key.
unfoldable pub key_of_name : Str → Dict ContainerRecord → Option Str
key_of_name name [] = none
key_of_name name ((id, r) ∷ m) = if eq_str r.name name then some id else key_of_name name m

or_else : Option Str → Option Str → Option Str
or_else (some a) _ = some a
or_else none b = b

-- An exact ID, else the first ID with this prefix, else the first record with this name; `none` is
-- the source's "".
unfoldable pub resolve_id : Str → Store → Option Str
unfolding or_else
resolve_id id_or_name s =
    let bare = trim_prefix id_or_name (codes "/") in
    let cs = s.state.containers in
    if is_empty bare
    then none
    else if has bare cs
    then some bare
    else or_else (find (λ id. has_prefix id bare) (keys cs)) (key_of_name bare cs)
