-- ===== src/Api/Escape/Index.antt =====
-- The scan is a search for the keys, if their first byte does not come back in them.
use lxc2docker.Prelude.{
  ℕ, zero, suc, ◌<◌, ◌≡◌, refl, sym, ap, ◌∙◌, true, false, [], ◌∷◌, ◌++◌, Option, none, some,
  is_empty, length, take, ◌==◌, arith, Bool-cases, Option-cases, inl, inr, append_assoc, append-nil,
}
use lxc2docker.Strings.{Str, has_prefix, cut_at, cut_at_start, contains_byte}
use lxc2docker.Api.Escape.{Scan, passed, found, byte_at, is_byte, scan_byte, scan}

-- What a search for the keys says of the scan: with an occurrence, the text before the first one
-- passes; without one, all of the text passes or is withheld.
unfoldable pub Searched : Str → Str → Str → Option (Str × Str) → Scan → Type 0
Searched keys out text (some (before, rest)) s = s ≡ found (out ++ before)
Searched keys out text none (found o) = ⊥
Searched keys out text none (passed o m) = (o ++ take m keys ≡ out ++ text) × (m < length keys)

has_prefix-short : (keys t : Str) → length t < length keys → has_prefix t keys ≡ false
unfolding has_prefix
has_prefix-short [] t h = absurd (omega (arith, h))
has_prefix-short (k ∷ ks) [] h = refl
has_prefix-short (k ∷ ks) (c ∷ t) h = ground (arith, has_prefix-short ks t (omega (arith, h)))

cut_at-short : (keys t : Str) → length t < length keys → cut_at keys t ≡ none
unfolding cut_at is_empty
cut_at-short [] t h = absurd (omega (arith, h))
cut_at-short (k ∷ ks) [] h = refl
cut_at-short (k ∷ ks) (c ∷ t) h =
    rw (cut_at, has_prefix-short (k ∷ ks) (c ∷ t) h, cut_at-short (k ∷ ks) t (omega (arith, h)))
      refl

-- The search goes on behind bytes that no occurrence begins with.
onto : Str → Option (Str × Str) → Option (Str × Str)
onto x none = none
onto x (some (before, rest)) = some (x ++ before, rest)

onto-onto : (x y : Str) (o : Option (Str × Str)) → onto x (onto y o) ≡ onto (x ++ y) o
unfolding onto
onto-onto x y none = refl
onto-onto x y (some (before, rest)) = ap (λ p. some (p, rest)) (sym (append_assoc x y before))

cut_at-skip :
    (keys : Str) (c : ℕ) (t : Str)
    → has_prefix (c ∷ t) keys ≡ false
    → cut_at keys (c ∷ t) ≡ onto (c ∷ []) (cut_at keys t)
unfolding cut_at onto
cut_at-skip keys c t h = ground (arith, h)

-- A text without the first key.
cut_at-other :
    (k : ℕ) (ks x t : Str)
    → contains_byte k x ≡ false
    → cut_at (k ∷ ks) (x ++ t) ≡ onto x (cut_at (k ∷ ks) t)
unfolding contains_byte onto has_prefix
cut_at-other k ks [] t h = elim (Option-cases (cut_at (k ∷ ks) t)) [
  | inl q ↦ rw q refl
  | inr (p, q) ↦ rw q refl
]
cut_at-other k ks (c ∷ x) t h =
    cut_at-skip (k ∷ ks) c (x ++ t) (ground arith)
    ∙ (ap (onto (c ∷ [])) (cut_at-other k ks x t (ground arith))
        ∙ onto-onto (c ∷ []) x (cut_at (k ∷ ks) t))

-- The keys up to the withheld ones, the next one, and the rest.
split_keys :
    (m : ℕ) (keys : Str)
    → m < length keys
    → (d : ℕ) × (q : Str) × (keys ≡ take m keys ++ d ∷ q)
      × (byte_at m keys ≡ some d)
      × (take (suc m) keys ≡ take m keys ++ d ∷ [])
unfolding byte_at
split_keys m [] h = absurd (omega (arith, h))
split_keys zero (k ∷ ks) h = (k, ks, refl, refl, refl)
split_keys (suc m) (k ∷ ks) h =
    let (d, q, e, b, t) = split_keys m ks (omega (arith, h)) in
    (d, q, ap (λ s. k ∷ s) e, b, ap (λ s. k ∷ s) t)

has_prefix-common : (p s q : Str) → has_prefix (p ++ s) (p ++ q) ≡ has_prefix s q
unfolding has_prefix
has_prefix-common [] s q = refl
has_prefix-common (c ∷ p) s q = ground (arith, has_prefix-common p s q)

contains_byte-take :
    (b m : ℕ) (s : Str) → contains_byte b s ≡ false → contains_byte b (take m s) ≡ false
unfolding contains_byte
contains_byte-take b zero s h = refl
contains_byte-take b (suc m) [] h = refl
contains_byte-take b (suc m) (c ∷ s) h = ground (arith, contains_byte-take b m s (ground arith))

length-take : (m : ℕ) (s : Str) → m < length s → length (take m s) ≡ m
length-take zero s h = refl
length-take (suc m) [] h = absurd (omega (arith, h))
length-take (suc m) (c ∷ s) h = omega (arith, length-take m s (omega (arith, h)))

take-all : (s : Str) → take (length s) s ≡ s
take-all [] = refl
take-all (c ∷ s) = ap (λ t. c ∷ t) (take-all s)

Searched-onto :
    (keys out x t : Str) (o : Option (Str × Str)) (s : Scan)
    → Searched keys (out ++ x) t o s
    → Searched keys out (x ++ t) (onto x o) s
unfolding Searched onto
Searched-onto keys out x t (some (before, rest)) s h = h ∙ ap found (append_assoc out x before)
Searched-onto keys out x t none (found o) h = h
Searched-onto keys out x t none (passed o m) h = (h.0 ∙ append_assoc out x t, h.1)

scan-found : (keys out s : Str) → scan keys (found out) s ≡ found out
unfolding scan scan_byte
scan-found keys out [] = refl
scan-found keys out (b ∷ s) = scan-found keys out s

module _ (k : ℕ) (ks : Str) (once : contains_byte k ks ≡ false) where
  abbrev keys : Str
  keys = k ∷ ks

  abbrev search : Str → Option (Str × Str)
  search = cut_at keys

  -- A wrong byte behind withheld ones: no occurrence begins in them.
  search-miss :
      (m b : ℕ) (s : Str)
      → m < length keys
      → is_byte b m keys ≡ false
      → (search (take m keys ++ b ∷ s) ≡ onto (take m keys) (search (b ∷ s)))
        × (has_prefix (take m keys ++ b ∷ s) keys ≡ false)
  unfolding is_byte has_prefix
  search-miss m b s h n =
      let (d, q, e, at, t) = split_keys m keys h in
      let wrong : has_prefix (take m keys ++ b ∷ s) keys ≡ false =
        ap (has_prefix (take m keys ++ b ∷ s)) e
        ∙ (has_prefix-common (take m keys) (b ∷ s) (d ∷ q) ∙ ground (arith, n, at)) in
      (begun m h wrong, wrong)
    where
      begun :
          (m : ℕ)
          → m < length keys
          → has_prefix (take m keys ++ b ∷ s) keys ≡ false
          → search (take m keys ++ b ∷ s) ≡ onto (take m keys) (search (b ∷ s))
      begun zero h w = cut_at-other k ks [] (b ∷ s) (unfold contains_byte in refl)
      begun (suc m) h w =
          cut_at-skip keys k (take m ks ++ b ∷ s) w
          ∙ (ap (onto (k ∷ []))
                (cut_at-other k ks (take m ks) (b ∷ s) (contains_byte-take k m ks once))
              ∙ onto-onto (k ∷ []) (take m ks) (search (b ∷ s)))

  -- The text that is withheld and the byte that follows the keys.
  next_key :
      (m b : ℕ) (s : Str)
      → m < length keys
      → is_byte b m keys ≡ true
      → take m keys ++ b ∷ s ≡ take (suc m) keys ++ s
  unfolding is_byte
  next_key m b s h hit =
      let (d, q, e, at, t) = split_keys m keys h in
      let same : b ≡ d = ground (arith, hit, at) in
      rw (same) (sym (append_assoc (take m keys) (d ∷ []) s) ∙ ap (λ x. x ++ s) (sym t))

  first_key : (b : ℕ) → is_byte b 0 keys ≡ true → b ≡ k
  unfolding is_byte byte_at
  first_key b h = ground (arith, h)

  two_keys :
      (m b : ℕ)
      → m < length keys
      → is_byte b m keys ≡ false
      → is_byte b 0 keys ≡ true
      → 1 < length keys
  two_keys zero b h n f = absurd (cc (rw f at n))
  two_keys (suc m) b h n f = omega (arith, h)

  scanned :
      (s out : Str) (m : ℕ)
      → m < length keys
      → Searched keys out
          (take m keys ++ s)
          (search (take m keys ++ s))
          (scan keys (passed out m) s)
  unfolding scan scan_byte Searched
  scanned [] out m h =
      let short =
        cut_at-short keys (take m keys ++ [])
          (ground (arith, length-take m keys h, append-nil (take m keys))) in
      rw (short) (ap (λ x. out ++ x) (sym (append-nil (take m keys))), h)
  scanned (b ∷ s) out m h = elim (Bool-cases (is_byte b m keys)) [
    | inl hit ↦ elim (Bool-cases (suc m == length keys)) [
      | inl last ↦
          let reached : suc m ≡ length keys = ground (arith, last) in
          let whole : take (suc m) keys ≡ keys = ap (λ n. take n keys) reached ∙ take-all keys in
          let text : take m keys ++ b ∷ s ≡ keys ++ s =
            next_key m b s h hit ∙ ap (λ x. x ++ s) whole in
          rw (hit, last, text, cut_at_start keys s (unfold is_empty in refl), scan-found keys out s)
            (ap found (sym (append-nil out)))
      | inr more ↦
          rw (hit, more, next_key m b s h hit) (scanned s out (suc m) (ground (arith, h, more)))
    ]
    | inr miss ↦
        let (skipped, wrong) = search-miss m b s h miss in
        rw (miss, skipped)
          (Searched-onto keys out (take m keys) (b ∷ s) (search (b ∷ s)) (scan keys _ s)
            (elim (Bool-cases (is_byte b 0 keys)) [
              | inl first ↦ rw first (
                  rw (first_key b first)
                    (scanned s (out ++ take m keys) 1 (two_keys m b h miss first)))
              | inr other ↦ rw other (
                  rw (cut_at-skip keys b s (search-miss 0 b s (omega arith) other).1) (
                    Searched-onto keys (out ++ take m keys) (b ∷ []) s (search s) (scan keys _ s)
                      (scanned s ((out ++ take m keys) ++ b ∷ []) 0 (omega arith))))
            ]))
  ]

-- The scan of a text from the beginning is a search for the keys, if their first byte does not come
-- back in them: it finds them exactly if they occur in the text, with the text before the first
-- occurrence passed on; and otherwise what is passed and what is withheld is the whole text.
pub scan_searches :
    (k : ℕ) (ks : Str)
    → contains_byte k ks ≡ false
    → (text : Str)
    → Searched (k ∷ ks) [] text (cut_at (k ∷ ks) text) (scan (k ∷ ks) (passed [] 0) text)
scan_searches k ks once text = scanned k ks once text [] 0 (omega arith)
