-- ===== src/Image/Resolver/Bases.antt =====
-- Every built-in application has a base that can be pulled.
use lxc2docker.Prelude.{
  ◌≡◌, refl, [], Bool, true, false, ◌&&◌, Option, none, some, arith, In, all, all_sound,
}
use lxc2docker.Strings.{
  Str, eq_str, eq_str_iff, has_suffix, to_lower, cut_byte, cut_last_byte, contains_byte,
  is_all_digits,
}
use lxc2docker.Dict.{values, get, In-values}
use lxc2docker.Image.Registry.{AppDef, lookup_app, known_apps}
use lxc2docker.Image.Distro.{resolve_distro, is_known_distro, strip_docker_variant_suffix}
use lxc2docker.Image.Table.{known_distros}
use lxc2docker.Image.Resolver.{
  distro_kind, app_kind, ResolvedImage, resolved, registry_host, is_linuxcontainers_host, parse_ref,
  resolve, resolve_template, resolve_app, base_image_ref, default_arch, template_name,
  app_template_name,
}

-- The opt-in to a distribution template.
abbrev pub opts_in : Str → Bool
opts_in ref = is_linuxcontainers_host (registry_host ref) && is_known_distro (parse_ref ref).0

same_pair : Option (Str × Str) → Option (Str × Str) → Bool
same_pair (some (a, b)) (some (c, d)) = eq_str a c && eq_str b d
same_pair _ _ = false

-- The base opts in to a distribution template, and is the release that the application is built on.
base_ok : AppDef → Bool
base_ok app =
    let (name, tag) = parse_ref app.base in
    let (name', tag') = parse_ref (base_image_ref app) in
    opts_in (base_image_ref app) && same_pair (resolve_distro name tag) (resolve_distro name' tag')

table : all base_ok (values known_apps) ≡ true
unfolding all base_ok values known_apps base_image_ref parse_ref registry_host
    is_linuxcontainers_host is_known_distro resolve_distro known_distros get same_pair eq_str
    to_lower strip_docker_variant_suffix has_suffix cut_byte cut_last_byte contains_byte
    is_all_digits
table = refl

same_pair_sound :
    (p q : Option (Str × Str))
    → same_pair p q ≡ true
    → (a b : Str) × (p ≡ some (a, b)) × (q ≡ some (a, b))
unfolding same_pair
same_pair_sound (some (a, b)) (some (c, d)) h =
    (a, b, refl, ground (arith, eq_str_iff a c, eq_str_iff b d))
same_pair_sound (some (a, b)) none h = cc
same_pair_sound none q h = cc

base_known : (app : AppDef) → In app (values known_apps) → base_ok app ≡ true
base_known app i = all_sound base_ok app (values known_apps) table i

-- What `Resolve` makes of a built-in application, and of its base.
app_image : Str → Str → AppDef → Str → Str → ResolvedImage
app_image ref arch app distro release = record {
  ref = ref;
  kind = app_kind;
  distro = distro;
  release = release;
  arch = default_arch arch;
  app = some app;
  base_ref = base_image_ref app;
  template_container_name = app_template_name (parse_ref ref).0 (parse_ref ref).1;
}

base_image : AppDef → Str → Str → Str → ResolvedImage
base_image app arch distro release = record {
  ref = base_image_ref app;
  kind = distro_kind;
  distro = distro;
  release = release;
  arch = default_arch arch;
  app = none;
  base_ref = [];
  template_container_name = template_name distro release;
}

module _ (sha256_hex : Str → Str) where
  resolve_base :
      (app : AppDef) (arch distro release : Str) (prefer_oci : Bool)
      → opts_in (base_image_ref app) ≡ true
      → resolve_distro (parse_ref (base_image_ref app)).0 (parse_ref (base_image_ref app)).1
        ≡ some (distro, release)
      → resolve sha256_hex (base_image_ref app) arch prefer_oci
        ≡ resolved (base_image app arch distro release)
  unfolding resolve base_image
  resolve_base app arch distro release prefer_oci o e = rw (o, resolve, e, resolve_template) refl

  resolve_to_app :
      (ref arch distro release : Str) (app : AppDef)
      → opts_in ref ≡ false
      → lookup_app (parse_ref ref).0 ≡ some app
      → resolve_distro (parse_ref app.base).0 (parse_ref app.base).1 ≡ some (distro, release)
      → resolve sha256_hex ref arch false ≡ resolved (app_image ref arch app distro release)
  unfolding resolve app_image
  resolve_to_app ref arch distro release app n l e = rw (n, resolve, l, e, resolve_app) refl

  -- A reference to a built-in application, without the opt-in to distribution templates and by a
  -- caller that does not prefer OCI images, is always resolved to that application; and its base
  -- reference is resolved, for every caller, to the distribution template with the same
  -- distribution and release. So neither the error for an unknown base nor a base that is pulled
  -- as an OCI image can occur.
  pub app_image_builds :
      (ref arch : Str) (app : AppDef) (prefer_oci : Bool)
      → lookup_app (parse_ref ref).0 ≡ some app
      → opts_in ref ≡ false
      → (r b : ResolvedImage) × (resolve sha256_hex ref arch false ≡ resolved r)
        × (r.kind ≡ app_kind)
        × (r.app ≡ some app)
        × (resolve sha256_hex r.base_ref r.arch prefer_oci ≡ resolved b)
        × (b.kind ≡ distro_kind)
        × (b.distro ≡ r.distro)
        × (b.release ≡ r.release)
  unfolding app_image base_image lookup_app
  app_image_builds ref arch app prefer_oci l n =
      let known = base_known app (In-values (parse_ref ref).0 known_apps l) in
      let (distro, release, p, q) =
        same_pair_sound (resolve_distro (parse_ref app.base).0 (parse_ref app.base).1)
          (resolve_distro (parse_ref (base_image_ref app)).0 (parse_ref (base_image_ref app)).1)
          (unfold base_ok in ground arith) in
      (
        app_image ref arch app distro release,
        base_image app (default_arch arch) distro release,
        resolve_to_app ref arch distro release app n l p,
        refl,
        refl,
        resolve_base app (default_arch arch) distro release prefer_oci
            (unfold base_ok in ground arith) q,
        refl,
        refl,
        refl,
      )
