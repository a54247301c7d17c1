-- ===== src/Image/Distro.antt =====
-- internal/image/distro.go: a distribution and its release, from an image name and a tag.
use lxc2docker.Prelude.{
  ◌-◌, Bool, true, false, ◌&&◌, List, [], ◌∷◌, ◌++◌, Option, none, some, if◌then◌else◌, all, length,
  take, ◌==◌, ltb,
}
use lxc2docker.Strings.{
  Str, codes, eq_str, has_suffix, to_lower, cut_last_byte, split_byte, is_all_digits,
}
use lxc2docker.Dict.{get}
use lxc2docker.Image.Table.{DistroMeta, known_distros}

abbrev suffixes : List Str
suffixes =
    codes "-slim"
    ∷ codes "-alpine"
    ∷ codes "-bullseye"
    ∷ codes "-bookworm"
    ∷ codes "-buster"
    ∷ codes "-jammy"
    ∷ codes "-focal"
    ∷ codes "-bionic"
    ∷ []

-- The body of the loop over the suffixes.
strip_suffix : Str → Str → Str
strip_suffix tag s = if has_suffix tag s then take (length tag - length s) tag else tag

strip_suffixes : List Str → Str → Str
strip_suffixes [] tag = tag
strip_suffixes (s ∷ rest) tag = strip_suffixes rest (strip_suffix tag s)

strip_date : Str → Str
strip_date tag = elim (cut_last_byte b'-' tag) [
  | none ↦ tag
  | some (head, suffix) ↦ if (length suffix == 8) && is_all_digits suffix then head else tag
]

unfoldable pub strip_docker_variant_suffix : Str → Str
unfolding strip_date strip_suffixes strip_suffix
strip_docker_variant_suffix tag = strip_date (strip_suffixes suffixes tag)

unfoldable pub looks_like_semver : Str → Bool
looks_like_semver s =
    let parts = split_byte b'.' s in if ltb (length parts) 2 then false else all is_all_digits parts

first_two : Str → List Str → Str
first_two s (a ∷ b ∷ rest) = a ++ (b'.' ∷ b)
first_two s _ = s

unfoldable pub major_minor : Str → Str
unfolding first_two
major_minor s = first_two s (split_byte b'.' s)

resolve_release : DistroMeta → Str → Option (Str × Str)
resolve_release meta tag = elim (get tag meta.version_map) [
  | some r ↦ some (meta.lxc_name, r)
  | none ↦
      if eq_str meta.lxc_name (codes "alpine") && looks_like_semver tag
      then some (meta.lxc_name, major_minor tag)
      else none
]

-- The source's `"", ""` is `none`.
unfoldable pub resolve_distro : Str → Str → Option (Str × Str)
unfolding resolve_release
resolve_distro name tag = elim (get (to_lower name) known_distros) [
  | none ↦ none
  | some meta ↦ resolve_release meta (strip_docker_variant_suffix tag)
]

has_meta : Option DistroMeta → Bool
has_meta none = false
has_meta (some m) = true

unfoldable pub is_known_distro : Str → Bool
unfolding has_meta
is_known_distro name = has_meta (get (to_lower name) known_distros)
