-- ===== src/Api/Env.antt =====
-- internal/api/containers.go: the environment of a container, from that of its image and that of the
-- request.
pub mod Merge
mod Tests
use lxc2docker.Prelude.{
  Bool, true, false, List, [], ◌∷◌, ◌++◌, Option, none, some, if◌then◌else◌, map, any, length, drop,
}
use lxc2docker.Strings.{Str, codes, cut_byte, has_prefix}
use lxc2docker.Dict.{Dict, get, set, has}

unfoldable pub env_key : Str → Str
env_key entry = elim (cut_byte b'=' entry) [ none ↦ entry | some (key, _) ↦ key ]

-- The entries by key, and the keys in order.
abbrev pub Env : Type 0
Env = Dict Str × List Str

unfoldable pub add_image_entry : Env → Str → Env
add_image_entry (m, order) e = (set (env_key e) e m, order ++ env_key e ∷ [])

unfoldable pub add_request_entry : Env → Str → Env
add_request_entry (m, order) e =
    (set (env_key e) e m, if has (env_key e) m then order else order ++ env_key e ∷ [])

unfoldable pub add_entries : (Env → Str → Env) → List Str → Env → Env
add_entries add [] env = env
add_entries add (e ∷ es) env = add_entries add es (add env e)

-- `m[key]`
unfoldable pub entry_of : Dict Str → Str → Str
entry_of m key = elim (get key m) [ none ↦ [] | some e ↦ e ]

unfoldable pub merge_env : List Str → List Str → List Str
merge_env image_env request_env =
    let (m, order) =
      add_entries add_request_entry request_env (add_entries add_image_entry image_env ([], [])) in
    map (entry_of m) order

abbrev pub oci_default_path : Str
oci_default_path = codes "PATH=/usr/local/sbin:/usr/local/bin:/usr/sbin:/usr/bin:/sbin:/bin"

unfoldable pub ensure_default_path : List Str → List Str
ensure_default_path env =
    if any (λ e. has_prefix e (codes "PATH=")) env then env else oci_default_path ∷ env

value_loop : Str → List Str → Str → Str
value_loop prefix [] val = val
value_loop prefix (e ∷ es) val =
    value_loop prefix es (if has_prefix e prefix then drop (length prefix) e else val)

unfoldable pub env_value : List Str → Str → Str
unfolding value_loop
env_value env key = value_loop (key ++ codes "=") env []
