-- ===== src/Prelude/Lists.antt =====
-- Lists measured by native numbers, and the loops that look for an element: Go's `for … range` with
-- an early return.
use Prim.Native.Nat.{ℕ, zero, suc, ◌+◌}
use mathlib.Core.Path.{◌≡◌, refl}
use mathlib.Core.Logic.{◌⊎◌, inl, inr}
use mathlib.Core.Bool.{Bool, true, false, ◌&&◌, ◌||◌}
use mathlib.Core.List.{List, [], ◌∷◌, ◌++◌}
use mathlib.Core.Option.{Option, none, some}
use native.Mathlib.Omega.{arith}
use lxc2docker.Prelude.Tests.{if◌then◌else◌, Bool-cases}

module _ {ℓ} {A : Type ℓ} where
  abbrev pub length : List A → ℕ
  length [] = 0
  length (x ∷ xs) = suc (length xs)

  abbrev pub take : ℕ → List A → List A
  take zero xs = []
  take (suc n) [] = []
  take (suc n) (x ∷ xs) = x ∷ take n xs

  abbrev pub drop : ℕ → List A → List A
  drop zero xs = xs
  drop (suc n) [] = []
  drop (suc n) (x ∷ xs) = drop n xs

  pub length-append : (xs ys : List A) → length (xs ++ ys) ≡ length xs + length ys
  length-append [] ys = omega arith
  length-append (x ∷ xs) ys = omega (arith, length-append xs ys)

  -- `for _, x := range xs { if test(x) { return true } }; return false`
  unfoldable pub any : (A → Bool) → List A → Bool
  any test [] = false
  any test (x ∷ xs) = test x || any test xs

  -- `for _, x := range xs { if !test(x) { return false } }; return true`
  unfoldable pub all : (A → Bool) → List A → Bool
  all test [] = true
  all test (x ∷ xs) = test x && all test xs

  -- The first element that passes.
  unfoldable pub find : (A → Bool) → List A → Option A
  find test [] = none
  find test (x ∷ xs) = if test x then some x else find test xs

  unfoldable pub is_empty : List A → Bool
  is_empty [] = true
  is_empty (x ∷ xs) = false

-- Membership by recursion: it computes to sums, which the tactics take apart.
abbrev pub In : {A : Type 0} → A → List A → Type 0
In a [] = ⊥
In a (x ∷ xs) = (a ≡ x) ⊎ In a xs

module _ {A : Type 0} where
  -- A search that comes back true met an element that passes.
  pub any_sound :
      (test : A → Bool) (xs : List A) → any test xs ≡ true → (a : A) × In a xs × (test a ≡ true)
  unfolding any
  any_sound test [] h = absurd (ground arith)
  any_sound test (x ∷ xs) h = elim (Bool-cases (test x)) [
    | inl e ↦ (x, inl refl, e)
    | inr e ↦ let (a, i, p) = any_sound test xs (ground arith) in (a, inr i, p)
  ]

  pub any_complete :
      (test : A → Bool) (a : A) (xs : List A) → In a xs → test a ≡ true → any test xs ≡ true
  unfolding any
  any_complete test a [] i h = absurd i
  any_complete test a (x ∷ xs) (inl e) h = ground arith
  any_complete test a (x ∷ xs) (inr i) h = ground (arith, any_complete test a xs i h)

  pub all_sound :
      (test : A → Bool) (a : A) (xs : List A) → all test xs ≡ true → In a xs → test a ≡ true
  unfolding all
  all_sound test a [] h i = absurd i
  all_sound test a (x ∷ xs) h (inl e) = ground arith
  all_sound test a (x ∷ xs) h (inr i) = all_sound test a xs (ground arith) i

  pub all_complete :
      (test : A → Bool) (xs : List A) → ((a : A) → In a xs → test a ≡ true) → all test xs ≡ true
  unfolding all
  all_complete test [] h = refl
  all_complete test (x ∷ xs) h =
      ground (arith, h x (inl refl), all_complete test xs (λ a i. h a (inr i)))

  pub find_sound :
      (test : A → Bool) (xs : List A) {a : A} → find test xs ≡ some a → In a xs × (test a ≡ true)
  unfolding find
  find_sound test [] h = absurd (ground arith)
  find_sound test (x ∷ xs) {a} h = elim (Bool-cases (test x)) [
    | inl e ↦ let here : a ≡ x = ground arith in (inl here, ground (arith, here))
    | inr e ↦ let (i, p) = find_sound test xs (ground arith) in (inr i, p)
  ]

  pub find-none :
      (test : A → Bool) (a : A) (xs : List A) → find test xs ≡ none → In a xs → test a ≡ false
  unfolding find
  find-none test a [] h i = absurd i
  find-none test a (x ∷ xs) h (inl e) = ground arith
  find-none test a (x ∷ xs) h (inr i) = find-none test a xs (ground arith) i

  pub In-append : (a : A) (xs ys : List A) → In a (xs ++ ys) → In a xs ⊎ In a ys
  In-append a [] ys i = inr i
  In-append a (x ∷ xs) ys (inl e) = inl (inl e)
  In-append a (x ∷ xs) ys (inr i) = elim (In-append a xs ys i) [
    | inl l ↦ inl (inr l)
    | inr r ↦ inr r
  ]

  pub In-append_left : (a : A) (xs ys : List A) → In a xs → In a (xs ++ ys)
  In-append_left a [] ys i = absurd i
  In-append_left a (x ∷ xs) ys (inl e) = inl e
  In-append_left a (x ∷ xs) ys (inr i) = inr (In-append_left a xs ys i)

  pub In-append_right : (a : A) (xs ys : List A) → In a ys → In a (xs ++ ys)
  In-append_right a [] ys i = i
  In-append_right a (x ∷ xs) ys i = inr (In-append_right a xs ys i)
