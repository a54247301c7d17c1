-- ===== src/Image/Resolver/Tests.antt =====
-- References of Docker clients, and the theorems at concrete inputs.
use lxc2docker.Prelude.{
  ◌≤◌, ◌≡◌, refl, ap, ◌∙◌, true, false, [], ◌∷◌, none, some, arith, length, is_empty,
}
use lxc2docker.Strings.{
  Str, codes, eq_str, has_suffix, contains_byte, cut_byte, cut_last_byte, is_all_digits, to_lower,
}
use lxc2docker.Dict.{get}
use lxc2docker.Image.Registry.{AppDef, lookup_app, known_apps}
use lxc2docker.Image.Table.{known_distros}
use lxc2docker.Image.Distro.{resolve_distro, is_known_distro, strip_docker_variant_suffix}
use lxc2docker.Image.Resolver.{
  ResolvedImage, distro_kind, app_kind, resolved, resolve, registry_host, is_linuxcontainers_host,
  parse_ref, oci_template_name, template_name, sanitize,
}
use lxc2docker.Image.Resolver.Names.{length-oci_template_name}
use lxc2docker.Image.Resolver.Bases.{opts_in, app_image_builds}

abbrev empty_digest : Str → Str
empty_digest s = codes "e3b0c44298fc1c149afbf4c8996fb924"

length-oci_template_name_example :
    length (
      oci_template_name empty_digest
        (codes "ghcr.io/games-on-whales/a-rather-long-name-for-an-image:stable"))
    ≤ 63
length-oci_template_name_example =
    length-oci_template_name empty_digest (λ s. omega arith)
      (codes "ghcr.io/games-on-whales/a-rather-long-name-for-an-image:stable")

-- The registry's entry.
abbrev nginx_app : AppDef
nginx_app = record {
  base = codes "debian:bookworm";
  packages = codes "nginx" ∷ [];
  post_install = codes "rm -rf /var/lib/apt/lists/*";
  default_cmd = codes "nginx -g 'daemon off;'";
}

nginx_name : (parse_ref (codes "nginx:1.27")).0 ≡ codes "nginx"
unfolding parse_ref cut_byte cut_last_byte contains_byte
nginx_name = refl

nginx_listed : lookup_app (codes "nginx") ≡ some nginx_app
unfolding lookup_app known_apps get eq_str
nginx_listed = refl

no_opt_in : opts_in (codes "nginx:1.27") ≡ false
unfolding registry_host is_linuxcontainers_host cut_byte contains_byte has_suffix eq_str
no_opt_in = refl

app_image_builds_example :
    (r b : ResolvedImage) × (resolve empty_digest (codes "nginx:1.27") [] false ≡ resolved r)
    × (r.kind ≡ app_kind)
    × (r.app ≡ some nginx_app)
    × (resolve empty_digest r.base_ref r.arch true ≡ resolved b)
    × (b.kind ≡ distro_kind)
    × (b.distro ≡ r.distro)
    × (b.release ≡ r.release)
app_image_builds_example =
    app_image_builds empty_digest (codes "nginx:1.27") [] nginx_app true
      (ap lookup_app nginx_name ∙ nginx_listed) no_opt_in

-- Also a caller that prefers OCI images gets a template for such a reference.
abbrev jammy : ResolvedImage
jammy = record {
  ref = codes "images.linuxcontainers.org/ubuntu:22.04";
  kind = distro_kind;
  distro = codes "ubuntu";
  release = codes "jammy";
  arch = codes "arm64";
  app = none;
  base_ref = [];
  template_container_name = codes "__template_ubuntu_jammy";
}

jammy_resolved : resolve empty_digest jammy.ref (codes "arm64") true ≡ resolved jammy
unfolding resolve parse_ref registry_host is_linuxcontainers_host is_known_distro resolve_distro
    strip_docker_variant_suffix known_distros get eq_str to_lower has_suffix cut_byte cut_last_byte
    contains_byte is_all_digits is_empty template_name sanitize
jammy_resolved = refl
