-- ===== src/Strings/Words.antt =====
-- The words of a text that is printed word by word, and numbers as words.
use lxc2docker.Prelude.{
  ℕ, zero, suc, ◌+◌, ◌/◌, ◌%◌, ◌≡◌, refl, ◌∙◌, Bool, true, false, not, ◌&&◌, [], ◌∷◌, ◌++◌, arith,
  is_empty, append-nil,
}
use lxc2docker.Strings.Bytes.{Str, contains_byte, is_space, first_word, fields}
use lxc2docker.Strings.Numbers.{decimal, itoa}

unfoldable pub spaceless : Str → Bool
spaceless [] = true
spaceless (c ∷ s) = not (is_space c) && spaceless s

unfoldable pub is_word : Str → Bool
unfolding spaceless is_empty
is_word s = not (is_empty s) && spaceless s

first_word-append :
    (w s : Str)
    → spaceless w ≡ true
    → first_word (w ++ s) ≡ (w ++ (first_word s).0, (first_word s).1)
unfolding spaceless first_word
first_word-append [] s h = refl
first_word-append (c ∷ w) s h = ground (arith, first_word-append w s (ground arith))

pub fields-space : (c : ℕ) (s : Str) → is_space c ≡ true → fields (c ∷ s) ≡ fields s
unfolding fields first_word
fields-space c s h = ground arith

pub fields-word :
    (w : Str) (c : ℕ) (s : Str)
    → is_word w ≡ true
    → is_space c ≡ true
    → fields (w ++ c ∷ s) ≡ w ∷ fields s
unfolding fields first_word is_word is_empty spaceless
fields-word [] c s h e = absurd (ground arith)
fields-word (d ∷ w) c s h e =
    let split : first_word ((d ∷ w) ++ c ∷ s) ≡ ((d ∷ w) ++ [], fields s) =
      first_word-append (d ∷ w) (c ∷ s) (ground arith) ∙ ground (arith) in
    ground (arith, split, append-nil w)

pub fields-last : (w : Str) → is_word w ≡ true → fields w ≡ w ∷ []
unfolding fields first_word is_word is_empty spaceless
fields-last [] h = absurd (ground arith)
fields-last (d ∷ w) h = ground (arith, first_word-append (d ∷ w) [] (ground arith), append-nil w)

digit_not_space : (n : ℕ) → is_space (b'0' + n % 10) ≡ false
unfolding is_space
digit_not_space n = ground arith

spaceless-decimal :
    (fuel n : ℕ) (out : Str) → spaceless out ≡ true → spaceless (decimal fuel n out) ≡ true
unfolding decimal spaceless
spaceless-decimal zero n out h = h
spaceless-decimal (suc fuel) n out h =
    let more =
      spaceless-decimal fuel (n / 10) ((b'0' + n % 10) ∷ out)
        (ground (arith, digit_not_space n, h)) in
    ground (arith, more, digit_not_space n, h)

is_empty-decimal : (fuel n c : ℕ) (out : Str) → is_empty (decimal fuel n (c ∷ out)) ≡ false
unfolding decimal is_empty
is_empty-decimal zero n c out = refl
is_empty-decimal (suc fuel) n c out =
    ground (arith, is_empty-decimal fuel (n / 10) (b'0' + n % 10) (c ∷ out))

pub spaceless-itoa : (n : ℕ) → spaceless (itoa n) ≡ true
unfolding itoa spaceless
spaceless-itoa n = spaceless-decimal (suc n) n [] refl

pub is_word-itoa : (n : ℕ) → is_word (itoa n) ≡ true
unfolding itoa is_word is_empty decimal spaceless
is_word-itoa n =
    ground
      (arith, spaceless-decimal (suc n) n [] refl, is_empty-decimal n (n / 10) (b'0' + n % 10) [])

pub fields-nil : fields [] ≡ []
unfolding fields first_word
fields-nil = refl

pub spaceless-contains_byte :
    (b : ℕ) (w : Str) → is_space b ≡ true → spaceless w ≡ true → contains_byte b w ≡ false
unfolding spaceless contains_byte
spaceless-contains_byte b [] e h = refl
spaceless-contains_byte b (c ∷ w) e h = ground (arith, spaceless-contains_byte b w e (ground arith))
