-- ===== src/Store/Images/Names.antt =====
-- `bareImageRef` on the ways to write one image.
use lxc2docker.Prelude.{◌≡◌, refl, true, false, ◌∷◌, ◌++◌, arith, Bool-cases, inl, inr, ◌⊎◌}
use lxc2docker.Strings.{
  Str, codes, has_prefix, trim_prefix, contains_byte, cut_byte-none, cut_byte-append,
  cut_last_byte-none, contains_byte-append, contains_byte_prefix, trim_prefix-none,
  trim_prefix-append,
}
use lxc2docker.Store.Images.{
  looks_like_host, strip_registry, last_component, default_tag, bare_image_ref,
}

-- A plain name: no slash, no colon, no at sign.
pub record IsPlain (name : Str) : Type 0 where
  pub no_slash : contains_byte b'/' name ≡ false
  pub no_colon : contains_byte b':' name ≡ false
  pub no_at : contains_byte b'@' name ≡ false

pub strip_registry_plain : (s : Str) → contains_byte b'/' s ≡ false → strip_registry s ≡ s
unfolding strip_registry
strip_registry_plain s h = rw (cut_byte-none b'/' s h, strip_registry) refl

pub strip_registry_host :
    (host rest : Str)
    → contains_byte b'/' host ≡ false
    → looks_like_host host ≡ true
    → strip_registry (host ++ b'/' ∷ rest) ≡ rest
unfolding strip_registry
strip_registry_host host rest h l = rw (cut_byte-append b'/' host rest h, strip_registry, l) refl

abbrev library : Str
library = codes "library/"

trim_library : (s : Str) → contains_byte b'/' s ≡ false → trim_prefix s library ≡ s
trim_library s h = elim (Bool-cases (has_prefix s library)) [
  | inl e ↦ absurd (cc (h, contains_byte_prefix b'/' s library e (unfold contains_byte in refl)))
  | inr e ↦ trim_prefix-none s library e
]

default_tag_plain : (name : Str) → IsPlain name → default_tag name ≡ name ++ codes ":latest"
unfolding default_tag last_component
default_tag_plain name p =
    rw (cut_last_byte-none b'/' name p.no_slash, last_component, p.no_at, p.no_colon) refl

default_tag_tagged :
    (name tag : Str)
    → contains_byte b'/' (name ++ b':' ∷ tag) ≡ false
    → default_tag (name ++ b':' ∷ tag) ≡ name ++ b':' ∷ tag
unfolding default_tag last_component contains_byte
default_tag_tagged name tag h =
    rw
      (
        cut_last_byte-none b'/' (name ++ b':' ∷ tag) h,
        last_component,
        contains_byte-append b':' name (b':' ∷ tag),
      )
      (ground arith)

strip_registry-library : (s : Str) → strip_registry (library ++ s) ≡ library ++ s
unfolding strip_registry
strip_registry-library s =
    rw (cut_byte-append b'/' (codes "library") s (unfold contains_byte in refl), strip_registry)
      (unfold looks_like_host contains_byte in refl)

module _ (host : Str) (host_no_slash : contains_byte b'/' host ≡ false)
    (is_host : looks_like_host host ≡ true) where
  -- One path component, with and without a registry host and "library/".
  bare_image_ref_forms :
      (short : Str)
      → contains_byte b'/' short ≡ false
      → (bare_image_ref short ≡ default_tag short)
        × (bare_image_ref (library ++ short) ≡ default_tag short)
        × (bare_image_ref (host ++ b'/' ∷ short) ≡ default_tag short)
        × (bare_image_ref (host ++ b'/' ∷ (library ++ short)) ≡ default_tag short)
  unfolding bare_image_ref
  bare_image_ref_forms short h = (
    rw (strip_registry_plain short h, trim_library short h) refl,
    rw (strip_registry-library short, trim_prefix-append library short) refl,
    rw (strip_registry_host host short host_no_slash is_host, trim_library short h) refl,
    rw
        (
          strip_registry_host host (library ++ short) host_no_slash is_host,
          trim_prefix-append library short,
        )
        refl,
  )

  -- For a plain name (no slash, colon or at sign) and a registry host (no slash, and a dot or a
  -- colon in it): the name, the name under "library/", under the host, and under both, each with
  -- no tag or with ":latest", all have the bare form `name:latest`.
  pub names_agree :
      (name short : Str)
      → IsPlain name
      → (short ≡ name) ⊎ (short ≡ name ++ codes ":latest")
      → (bare_image_ref short ≡ name ++ codes ":latest")
        × (bare_image_ref (library ++ short) ≡ name ++ codes ":latest")
        × (bare_image_ref (host ++ b'/' ∷ short) ≡ name ++ codes ":latest")
        × (bare_image_ref (host ++ b'/' ∷ (library ++ short)) ≡ name ++ codes ":latest")
  names_agree name short p (inl e) =
      rw e (rw (default_tag_plain name p) at (bare_image_ref_forms name p.no_slash))
  names_agree name short p (inr e) = rw e (
      rw (default_tag_tagged name (codes "latest") tagged) at
        (bare_image_ref_forms (name ++ codes ":latest") tagged))
    where
      tagged : contains_byte b'/' (name ++ codes ":latest") ≡ false
      tagged = rw (contains_byte-append, p.no_slash) (unfold contains_byte in refl)
