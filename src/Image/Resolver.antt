-- ===== src/Image/Resolver.antt =====
-- internal/image/resolver.go: `Resolve`. The SHA-256 of the reference, in hex, is a parameter.
pub mod Names
pub mod Bases
mod Tests
use lxc2docker.Prelude.{
  ℕ, ◌+◌, ◌-◌, Bool, true, false, not, ◌&&◌, ◌||◌, List, [], ◌∷◌, ◌++◌, map, Option, none, some,
  if◌then◌else◌, length, take, ◌==◌, ltb, leb, is_empty,
}
use mathlib.Core.List.{reverse}
use lxc2docker.Strings.{Str, codes, eq_str, has_suffix, contains_byte, cut_byte, cut_last_byte}
use lxc2docker.Image.Registry.{AppDef, lookup_app}
use lxc2docker.Image.Distro.{resolve_distro, is_known_distro}

pub data Kind : Type 0 where
  distro_kind app_kind oci_kind : Kind

pub record ResolvedImage : Type 0 where
  pub ref : Str
  pub kind : Kind
  pub distro : Str
  pub release : Str
  pub arch : Str
  pub app : Option AppDef
  pub base_ref : Str
  pub template_container_name : Str

pub data ResolveResult : Type 0 where
  resolved : ResolvedImage → ResolveResult
  unknown_release : Str → Str → ResolveResult
  unknown_base : Str → Str → ResolveResult

unfoldable pub registry_host : Str → Str
registry_host ref = elim (cut_byte b'/' ref) [
  | none ↦ []
  | some (prefix, _) ↦
      if contains_byte b'.' prefix
        || (contains_byte b':' prefix || eq_str prefix (codes "localhost"))
      then prefix
      else []
]

without_port : Str → Str
without_port host = elim (cut_byte b':' host) [ none ↦ host | some (h, _) ↦ h ]

unfoldable pub is_linuxcontainers_host : Str → Bool
unfolding without_port
is_linuxcontainers_host host =
    let h = without_port host in
    eq_str h (codes "images.linuxcontainers.org")
    || (has_suffix h (codes ".linuxcontainers.org") || eq_str h (codes "linuxcontainers.org"))

unfoldable pub strip_host : Str → Str
strip_host ref = elim (cut_byte b'/' ref) [
  | none ↦ ref
  | some (prefix, rest) ↦
      if contains_byte b'.' prefix || contains_byte b':' prefix then rest else ref
]

split_tag : Str → Str × Str
split_tag bare = elim (cut_last_byte b':' bare) [
  | some (name, tag) ↦ (name, tag)
  | none ↦ (bare, codes "latest")
]

last_path_component : Str → Str
last_path_component name = elim (cut_last_byte b'/' name) [ none ↦ name | some (_, last) ↦ last ]

unfoldable pub parse_ref : Str → Str × Str
unfolding strip_host split_tag last_path_component
parse_ref ref = let (name, tag) = split_tag (strip_host ref) in (last_path_component name, tag)

safe_byte : ℕ → ℕ
safe_byte c = if c == b':' || (c == b'/' || c == b' ') then b'_' else c

safe_oci_byte : ℕ → ℕ
safe_oci_byte c = if c == b':' || (c == b'/' || (c == b'.' || c == b' ')) then b'_' else c

unfoldable pub sanitize : Str → Str
unfolding safe_byte
sanitize = map safe_byte

unfoldable pub sanitize_oci_ref : Str → Str
unfolding safe_oci_byte
sanitize_oci_ref = map safe_oci_byte

unfoldable pub template_name : Str → Str → Str
template_name distro release = codes "__template_" ++ (distro ++ (b'_' ∷ sanitize release))

unfoldable pub app_template_name : Str → Str → Str
app_template_name app tag = codes "__template_app_" ++ (sanitize app ++ (b'_' ∷ sanitize tag))

abbrev oci_prefix : Str
oci_prefix = codes "__template_oci_"

in_cutset : ℕ → Bool
in_cutset c = c == b'.' || (c == b'_' || c == b'-')

trim_left : Str → Str
trim_left [] = []
trim_left (c ∷ s) = let rest = trim_left s in if in_cutset c then rest else c ∷ s

-- `strings.Trim(s, "._-")`
trim_marks : Str → Str
unfolding trim_left in_cutset
trim_marks s = reverse (trim_left (reverse (trim_left s)))

or_image : Str → Str
or_image s = if is_empty s then codes "image" else s

clip : ℕ → Str → Str
clip n s = if ltb n (length s) then take n s else s

-- `maxLength` is 63.
head_len : Str → ℕ
head_len digest =
    let room = 63 - length oci_prefix - length digest - 1 in if ltb room 1 then 1 else room

hashed_name : Str → Str → Str
unfolding trim_marks or_image clip head_len
hashed_name digest safe = or_image (trim_marks (clip (head_len digest) safe)) ++ (b'_' ∷ digest)

-- `hashChars` is 12.
unfoldable pub oci_template_name : (Str → Str) → Str → Str
unfolding hashed_name
oci_template_name sha256_hex ref =
    let safe = sanitize_oci_ref ref in
    if leb (length oci_prefix + length safe) 63
    then oci_prefix ++ safe
    else oci_prefix ++ hashed_name (take 12 (sha256_hex ref)) safe

default_arch : Str → Str
default_arch arch = if is_empty arch then codes "amd64" else arch

oci_image : (Str → Str) → Str → Str → ResolvedImage
oci_image sha256_hex ref arch = record {
  ref = ref;
  kind = oci_kind;
  distro = [];
  release = [];
  arch = arch;
  app = none;
  base_ref = [];
  template_container_name = oci_template_name sha256_hex ref;
}

resolve_template : Str → Str → Str → Str → ResolveResult
resolve_template ref arch name tag = elim (resolve_distro name tag) [
  | none ↦ unknown_release tag name
  | some (distro, release) ↦ resolved (record {
    ref = ref;
    kind = distro_kind;
    distro = distro;
    release = release;
    arch = arch;
    app = none;
    base_ref = [];
    template_container_name = template_name distro release;
  })
]

unfoldable pub base_image_ref : AppDef → Str
base_image_ref app = codes "images.linuxcontainers.org/" ++ app.base

resolve_app : Str → Str → Str → Str → AppDef → ResolveResult
resolve_app ref arch name tag app =
    let (base_name, base_tag) = parse_ref app.base in
    elim (resolve_distro base_name base_tag) [
      | none ↦ unknown_base name app.base
      | some (distro, release) ↦ resolved (record {
        ref = ref;
        kind = app_kind;
        distro = distro;
        release = release;
        arch = arch;
        app = some app;
        base_ref = base_image_ref app;
        template_container_name = app_template_name name tag;
      })
    ]

unfoldable pub resolve : (Str → Str) → Str → Str → Bool → ResolveResult
unfolding resolve_template resolve_app oci_image default_arch
resolve sha256_hex ref arch prefer_oci =
    let (name, tag) = parse_ref ref in
    let a = default_arch arch in
    if is_linuxcontainers_host (registry_host ref) && is_known_distro name
    then resolve_template ref a name tag
    else if prefer_oci
    then resolved (oci_image sha256_hex ref a)
    else elim (lookup_app name) [
      | none ↦ resolved (oci_image sha256_hex ref a)
      | some app ↦ resolve_app ref a name tag app
    ]
