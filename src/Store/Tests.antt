-- ===== src/Store/Tests.antt =====
-- Runs of the store, and the theorems at concrete inputs.
use lxc2docker.Prelude.{
  ℕ, ◌≤◌, ◌≡◌, ◌≢◌, refl, true, false, List, [], ◌∷◌, ◌++◌, none, some, arith, inl, ◌⊎◌, In,
  is_empty, find,
}
use lxc2docker.Strings.{Str, codes, eq_str, has_prefix, trim_prefix, contains_byte}
use lxc2docker.Dict.{get, has, keys, values, set, delete}
use lxc2docker.Store.Records.{ContainerRecord, ImageRecord}
use lxc2docker.Store.Samples.{blank_container, blank_image}
use lxc2docker.Store.State.{
  State, SaveOutcome, Store, saved, rename_fails, ip_space_exhausted, save, fresh_state, new_at,
  opens,
}
use lxc2docker.Store.Ip.{
  parse_managed_ip_octet, managed_ip, used_ip_octets, has_octet, allocate_octet, from_counter,
  advance, scan_free_list,
}
use lxc2docker.Store.Containers.{
  allocate_ip, update_container, get_container, put_container, resolve_id,
}
use lxc2docker.Store.Containers.Allocate.{allocate_ip_answers}
use lxc2docker.Store.Containers.Resolve.{resolve_id_finds, bare}
use lxc2docker.Store.Images.{bare_image_ref, looks_like_host, get_image}
use lxc2docker.Store.Images.Names.{names_agree}
use lxc2docker.Store.Images.Lookup.{get_image_finds}
use lxc2docker.Store.Containers.Update.{
  writes, Committed, RolledBack, update_all_or_nothing, save_durable,
}
use lxc2docker.Store.Containers.Addresses.{
  Daemon, Step, allocate, assign, here, next, IsSafe, IsPending, UniqueAddresses,
}
use lxc2docker.Store.Containers.Addresses.Unique.{addresses_unique}

abbrev web : ContainerRecord
web = record blank_container {
  id = codes "abc123";
  name = codes "web";
  ip_address = codes "10.100.0.2";
}

abbrev empty_store : Store
empty_store = record { state = fresh_state; files = record { state_json = none; temp = none } }

abbrev one_container : Store
one_container = record empty_store { state = put_container web fresh_state }

first_address : (allocate_ip saved empty_store).1 ≡ codes "10.100.0.2"
unfolding allocate_ip allocate_octet from_counter advance scan_free_list used_ip_octets is_empty
    values managed_ip save
first_address = refl

abbrev two_steps : Daemon
two_steps = record { state = fresh_state; pending = [] }

fresh-IsSafe : IsSafe two_steps
unfolding get has_octet
fresh-IsSafe = record {
  start = omega arith;
  held = record {
    unique = λ i j r t o g. absurd (ground arith);
    held_low = λ i r o g. absurd (ground arith);
  };
  free = record { distinct = tt; low = λ o h. absurd (ground arith) };
  once = tt;
  pending = λ o h. absurd (ground arith);
}

abbrev allocated : Daemon
allocated = record { state = (allocate_octet fresh_state).0; pending = 2 ∷ [] }

abbrev created : Daemon
created = record { state = put_container web (allocate_octet fresh_state).0; pending = [] }

allocation : Step two_steps allocated
unfolding allocate_octet from_counter advance scan_free_list used_ip_octets is_empty values
    has_octet
allocation = allocate 2 refl

creation : Step allocated created
unfolding managed_ip get allocate_octet from_counter is_empty scan_free_list used_ip_octets values
creation = assign [] [] 2 web refl refl

addresses_unique_example :
    UniqueAddresses created.state.containers
    × ((o : ℕ) → has_octet o created.pending ≡ true → IsPending created.state o)
addresses_unique_example = addresses_unique fresh-IsSafe (next (next here allocation) creation)

allocate_ip_answers_example :
    ((allocate_ip saved one_container).2 ≢ some ip_space_exhausted
      → (o : ℕ) × ((allocate_ip saved one_container).1 ≡ managed_ip o)
        × (2 ≤ o)
        × (o ≤ 254)
        × (parse_managed_ip_octet (managed_ip o) ≡ some o)
        × ((r : ContainerRecord)
            → In r (values one_container.state.containers)
            → parse_managed_ip_octet r.ip_address ≢ some o))
    × ((allocate_ip saved one_container).2 ≡ some ip_space_exhausted
        → (o : ℕ) → 2 ≤ o
        → o ≤ 254
        → (one_container.state.next_ip ≤ o) ⊎ In o one_container.state.free_ips
        → (r : ContainerRecord) × In r (values one_container.state.containers)
          × (parse_managed_ip_octet r.ip_address ≡ some o))
unfolding put_container
allocate_ip_answers_example = allocate_ip_answers saved one_container (omega arith)

abbrev rename : ContainerRecord → ContainerRecord
rename r = record r { name = codes "api" }

present : get_container (codes "abc123") one_container ≡ some web
unfolding get_container get put_container set eq_str
present = refl

update_all_or_nothing_example :
    Committed
      (codes "abc123")
      rename
      one_container
      web
      (update_container rename_fails (codes "abc123") rename one_container)
    ⊎ RolledBack
        (codes "abc123")
        rename
        one_container
        web
        (update_container rename_fails (codes "abc123") rename one_container)
update_all_or_nothing_example =
    update_all_or_nothing (codes "abc123") rename one_container web rename_fails present

-- A save of another state fails afterwards.
abbrev later : List (State × SaveOutcome)
later = (fresh_state, rename_fails) ∷ []

later_fails : rename_fails ≢ saved
later_fails h = absurd (cc h)

save_durable_example :
    new_at some opens
      (writes later (writes ((one_container.state, saved) ∷ []) (writes [] one_container))).files
    ≡ (
      some (record {
        state = one_container.state;
        files =
            (writes later
              (writes ((one_container.state, saved) ∷ []) (writes [] one_container))).files;
      }),
      none,
    )
save_durable_example =
    save_durable some [] later one_container.state one_container refl (later_fails, tt)

resolve_id_finds_example :
    ((id : Str)
      → resolve_id (codes "/abc") one_container ≡ some id
      → (In id (keys one_container.state.containers)
          × ((id ≡ bare (codes "/abc") one_container)
              ⊎ (has_prefix id (bare (codes "/abc") one_container) ≡ true)))
        ⊎ ((r : ContainerRecord) × In (id, r) one_container.state.containers
            × (r.name ≡ bare (codes "/abc") one_container)))
    × (resolve_id (codes "/abc") one_container ≡ none
        → ((id : Str)
            → In id (keys one_container.state.containers)
            → has_prefix id (bare (codes "/abc") one_container) ≡ false)
          × ((id : Str) (r : ContainerRecord)
              → In (id, r) one_container.state.containers
              → r.name ≢ bare (codes "/abc") one_container))
    × (has (bare (codes "/abc") one_container) one_container.state.containers ≡ true
        → resolve_id (codes "/abc") one_container ≡ some (bare (codes "/abc") one_container))
resolve_id_finds_example =
    resolve_id_finds (codes "/abc") one_container (unfold is_empty trim_prefix in refl)

by_prefix : resolve_id (codes "/abc") one_container ≡ some (codes "abc123")
unfolding resolve_id trim_prefix is_empty has keys put_container set delete eq_str find
by_prefix = refl

names_agree_example :
    (bare_image_ref (codes "nginx") ≡ codes "nginx" ++ codes ":latest")
    × (bare_image_ref (codes "library/" ++ codes "nginx") ≡ codes "nginx" ++ codes ":latest")
    × (bare_image_ref (codes "docker.io" ++ b'/' ∷ codes "nginx")
        ≡ codes "nginx" ++ codes ":latest")
    × (bare_image_ref (codes "docker.io" ++ b'/' ∷ (codes "library/" ++ codes "nginx"))
        ≡ codes "nginx" ++ codes ":latest")
names_agree_example =
    names_agree (codes "docker.io") (unfold contains_byte in refl)
      (unfold looks_like_host contains_byte in refl) (codes "nginx") (codes "nginx")
      (record {
        no_slash = unfold contains_byte in refl;
        no_colon = unfold contains_byte in refl;
        no_at = unfold contains_byte in refl;
      })
      (inl refl)

abbrev one_image : Store
one_image = record empty_store {
  state = record fresh_state {
    images = (codes "docker.io/library/nginx:latest", blank_image) ∷ [];
  };
}

get_image_finds_example :
    ((r : ImageRecord)
      → get (codes "nginx") one_image.state.images ≡ some r
      → get_image (codes "nginx") one_image ≡ some r)
    × ((r : ImageRecord)
        → get_image (codes "nginx") one_image ≡ some r
        → (get (codes "nginx") one_image.state.images ≡ some r)
          ⊎ ((get (codes "nginx") one_image.state.images ≡ none)
              × ((key : Str) × In (key, r) one_image.state.images
                  × (bare_image_ref key ≡ bare_image_ref (codes "nginx")))))
    × (get_image (codes "nginx") one_image ≡ none
        → (key : Str) (r : ImageRecord) → In (key, r) one_image.state.images
        → bare_image_ref key ≢ bare_image_ref (codes "nginx"))
get_image_finds_example = get_image_finds (codes "nginx") one_image
