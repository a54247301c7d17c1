-- ===== src/Strings/Laws.antt =====
-- Laws of the text functions.
use lxc2docker.Prelude.{
  ℕ, ◌≡◌, ◌≢◌, ◌↔◌, refl, true, false, [], ◌∷◌, ◌++◌, none, some, arith, if◌then◌else◌, length,
  drop, Bool-cases, inl, inr, is_empty,
}
use lxc2docker.Strings.Bytes.{
  Str, eq_str, has_prefix, contains_byte, cut_byte, cut_at, cut_last_byte, split_byte, trim_prefix,
}

pub eq_str_refl : (s : Str) → eq_str s s ≡ true
unfolding eq_str
eq_str_refl [] = refl
eq_str_refl (c ∷ s) = ground (arith, eq_str_refl s)

pub eq_str_sound : (s t : Str) → eq_str s t ≡ true → s ≡ t
unfolding eq_str
eq_str_sound [] [] h = refl
eq_str_sound [] (d ∷ t) h = cc
eq_str_sound (c ∷ s) [] h = cc
eq_str_sound (c ∷ s) (d ∷ t) h = ground (arith, eq_str_sound s t)

pub eq_str_iff : (s t : Str) → (eq_str s t ≡ true) ↔ (s ≡ t)
eq_str_iff s t = (eq_str_sound s t, λ e. rw e (eq_str_refl t))

pub eq_str_ne : (s t : Str) → s ≢ t → eq_str s t ≡ false
eq_str_ne s t h = elim (Bool-cases (eq_str s t)) [
  | inl e ↦ absurd (h (eq_str_sound s t e))
  | inr e ↦ e
]

pub has_prefix-append : (p s : Str) → has_prefix (p ++ s) p ≡ true
unfolding has_prefix
has_prefix-append [] s = unfold has_prefix in nil s
  where
    nil : (s : Str) → has_prefix s [] ≡ true
    nil [] = refl
    nil (c ∷ s) = refl
has_prefix-append (c ∷ p) s = ground (arith, has_prefix-append p s)

-- A prefix is what the text begins with.
pub has_prefix_sound : (s p : Str) → has_prefix s p ≡ true → (r : Str) × (s ≡ p ++ r)
unfolding has_prefix
has_prefix_sound s [] h = (s, refl)
has_prefix_sound [] (d ∷ p) h = absurd (ground arith)
has_prefix_sound (c ∷ s) (d ∷ p) h =
    let (r, e) = has_prefix_sound s p (ground arith) in (r, ground arith)

pub cut_byte-none : (b : ℕ) (s : Str) → contains_byte b s ≡ false → cut_byte b s ≡ none
unfolding contains_byte cut_byte
cut_byte-none b [] h = refl
cut_byte-none b (c ∷ s) h = ground (arith, cut_byte-none b s)

-- A text that is cut at its first `b` is spelled by the two parts, and the first holds no `b`.
pub cut_byte-append :
    (b : ℕ) (k v : Str) → contains_byte b k ≡ false → cut_byte b (k ++ b ∷ v) ≡ some (k, v)
unfolding contains_byte cut_byte
cut_byte-append b [] v h = ground arith
cut_byte-append b (c ∷ k) v h = ground (arith, cut_byte-append b k v)

pub cut_last_byte-none : (b : ℕ) (s : Str) → contains_byte b s ≡ false → cut_last_byte b s ≡ none
unfolding contains_byte cut_last_byte
cut_last_byte-none b [] h = refl
cut_last_byte-none b (c ∷ s) h = ground (arith, cut_last_byte-none b s)

pub cut_last_byte-append :
    (b : ℕ) (k v : Str) → contains_byte b v ≡ false → cut_last_byte b (k ++ b ∷ v) ≡ some (k, v)
unfolding cut_last_byte
cut_last_byte-append b [] v h = ground (arith, cut_last_byte-none b v)
cut_last_byte-append b (c ∷ k) v h = ground (arith, cut_last_byte-append b k v)

pub contains_byte-append :
    (b : ℕ) (s t : Str)
    → contains_byte b (s ++ t) ≡ (if contains_byte b s then true else contains_byte b t)
unfolding contains_byte
contains_byte-append b [] t = refl
contains_byte-append b (c ∷ s) t = ground (arith, contains_byte-append b s t)

pub split_byte-none : (b : ℕ) (s : Str) → contains_byte b s ≡ false → split_byte b s ≡ s ∷ []
unfolding contains_byte split_byte
split_byte-none b [] h = refl
split_byte-none b (c ∷ s) h = ground (arith, split_byte-none b s)

pub split_byte-append :
    (b : ℕ) (k v : Str) → contains_byte b k ≡ false → split_byte b (k ++ b ∷ v) ≡ k ∷ split_byte b v
unfolding contains_byte split_byte
split_byte-append b [] v h = ground arith
split_byte-append b (c ∷ k) v h = ground (arith, split_byte-append b k v)

pub contains_byte_prefix :
    (b : ℕ) (s p : Str)
    → has_prefix s p ≡ true
    → contains_byte b p ≡ true
    → contains_byte b s ≡ true
contains_byte_prefix b s p h c =
    let (r, e) = has_prefix_sound s p h in rw (e, contains_byte-append, c) refl

pub trim_prefix-append : (p s : Str) → trim_prefix (p ++ s) p ≡ s
unfolding trim_prefix
trim_prefix-append p s = rw (has_prefix-append p s) (drop-append p s)
  where
    drop-append : (xs ys : Str) → drop (length xs) (xs ++ ys) ≡ ys
    drop-append [] ys = refl
    drop-append (x ∷ xs) ys = drop-append xs ys

pub trim_prefix-none : (s p : Str) → has_prefix s p ≡ false → trim_prefix s p ≡ s
unfolding trim_prefix
trim_prefix-none s p h = rw h refl

-- A search finds the mark at the beginning.
pub cut_at_start : (m r : Str) → is_empty m ≡ false → cut_at m (m ++ r) ≡ some ([], m ++ r)
unfolding cut_at is_empty
cut_at_start [] r h = absurd (ground arith)
cut_at_start (d ∷ m) r h = rw (cut_at, has_prefix-append (d ∷ m) r) refl
