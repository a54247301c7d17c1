-- ===== src/Api/Env/Tests.antt =====
-- An environment with an override.
use lxc2docker.Prelude.{◌≡◌, ◌↔◌, refl, [], ◌∷◌, ◌++◌, List, some, In}
use lxc2docker.Strings.{Str, codes, cut_byte, eq_str}
use lxc2docker.Dict.{get, set, delete, has}
use lxc2docker.Api.Env.{
  env_key, add_image_entry, add_request_entry, add_entries, entry_of, merge_env,
}
use lxc2docker.Api.Env.Merge.{last_entry, merge_env_iff}

abbrev image : List Str
image = codes "PATH=/bin" ∷ codes "TZ=UTC" ∷ []

abbrev request : List Str
request = codes "TZ=CET" ∷ codes "DEBUG=1" ∷ []

override : merge_env image request ≡ codes "PATH=/bin" ∷ codes "TZ=CET" ∷ codes "DEBUG=1" ∷ []
unfolding merge_env add_entries add_image_entry add_request_entry entry_of env_key cut_byte get set
    delete has eq_str
override = refl

merge_env_iff_example :
    In (codes "TZ=CET") (merge_env image request)
    ↔ (last_entry (env_key (codes "TZ=CET")) (image ++ request) ≡ some (codes "TZ=CET"))
merge_env_iff_example = merge_env_iff image request (codes "TZ=CET")
