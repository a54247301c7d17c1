-- ===== src/Image/Resolver/Names.antt =====
-- The length of template names, which are host names too.
use lxc2docker.Prelude.{
  ℕ, zero, suc, ◌+◌, ◌≤◌, ◌≡◌, refl, [], ◌∷◌, arith, Bool-cases, inl, inr, length, take, leb,
  length-append, is_empty, leb→le,
}
use mathlib.Core.List.{reverse, reverse-cons}
use lxc2docker.Strings.{Str}
use lxc2docker.Image.Resolver.{
  oci_template_name, sanitize_oci_ref, trim_marks, trim_left, or_image, oci_prefix, clip, head_len,
  hashed_name,
}

length-trim_left : (s : Str) → length (trim_left s) ≤ length s
unfolding trim_left
length-trim_left [] = omega arith
length-trim_left (c ∷ s) = ground (arith, length-trim_left s)

length-reverse : (s : Str) → length (reverse s) ≡ length s
length-reverse [] = refl
length-reverse (c ∷ s) =
    rw (reverse-cons c s) (omega (arith, length-append (reverse s) (c ∷ []), length-reverse s))

length-trim_marks : (s : Str) → length (trim_marks s) ≤ length s
unfolding trim_marks
length-trim_marks s = omega (
  arith,
  length-trim_left s,
  length-trim_left (reverse (trim_left s)),
  length-reverse (trim_left s),
  length-reverse (trim_left (reverse (trim_left s))),
)

length-take : (n : ℕ) (s : Str) → (length (take n s) ≤ n) × (length (take n s) ≤ length s)
length-take zero s = omega arith
length-take (suc n) [] = omega arith
length-take (suc n) (c ∷ s) = omega (arith, length-take n s)

length-or_image : (s : Str) (n : ℕ) → 5 ≤ n → length s ≤ n → length (or_image s) ≤ n
unfolding or_image is_empty
length-or_image [] n five h = omega arith
length-or_image (c ∷ s) n five h = omega arith

length-take_full : (n : ℕ) (s : Str) → n ≤ length s → length (take n s) ≡ n
length-take_full zero s h = refl
length-take_full (suc n) [] h = absurd (omega arith)
length-take_full (suc n) (c ∷ s) h = omega (arith, length-take_full n s (omega arith))

length-clip : (n : ℕ) (s : Str) → length (clip n s) ≤ n
unfolding clip
length-clip n s = ground (arith, length-take n s)

head_len_12 : (digest : Str) → length digest ≡ 12 → head_len digest ≡ 35
unfolding head_len
head_len_12 digest h = rw h refl

length-hashed_name :
    (digest safe : Str) → length digest ≡ 12 → length (hashed_name digest safe) ≤ 48
length-hashed_name digest safe h =
    let c = clip (head_len digest) safe in
    let short = length-or_image (trim_marks c) 35 (omega arith) (
      omega
        (arith, length-trim_marks c, length-clip (head_len digest) safe, head_len_12 digest h)) in
    unfold hashed_name in
    omega (arith, length-append (or_image (trim_marks c)) (b'_' ∷ digest), short)

-- If a SHA-256 in hex has 12 characters or more (it has 64), the template name of an OCI image is at
-- most 63 characters long, as a Linux host name has to be, for every reference.
pub length-oci_template_name :
    (sha256_hex : Str → Str)
    → ((s : Str) → 12 ≤ length (sha256_hex s))
    → (ref : Str) → length (oci_template_name sha256_hex ref) ≤ 63
unfolding oci_template_name
length-oci_template_name sha256_hex long ref =
    let safe = sanitize_oci_ref ref in
    let digest = take 12 (sha256_hex ref) in
    elim (Bool-cases (leb (length oci_prefix + length safe) 63)) [
      | inl e ↦
          rw (e, oci_template_name) (omega (arith, leb→le (length oci_prefix + length safe) 63 e))
      | inr e ↦
          rw (e, oci_template_name)
            (omega (
              arith,
              length-hashed_name digest safe (length-take_full 12 (sha256_hex ref) (long ref)),
            ))
    ]
