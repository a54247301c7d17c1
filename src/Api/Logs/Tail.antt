-- ===== src/Api/Logs/Tail.antt =====
-- The lines are the last ones of the two files together.
use lxc2docker.Prelude.{
  ℕ, zero, suc, ◌+◌, ◌-◌, ◌≤◌, ◌≡◌, refl, sym, ap, ◌∙◌, true, false, List, [], ◌∷◌, ◌++◌, map,
  append_assoc, append-nil, Option, none, some, arith, length, drop, length-append, ◌==◌, ltb,
  Bool-cases, inl, inr, if◌then◌else◌,
}
use lxc2docker.Prelude.Int.{ℤ, pos, negsuc, ◌-ℤ◌, ltb_ℤ}
use lxc2docker.Strings.{Str}
use lxc2docker.Api.Logs.{
  LogFile, ended, push_ring, read_ring, read_tail, read_rotated_tail, unless_failed, backfill,
}

unfoldable pub last : ℕ → List Str → List Str
last n ls = drop (length ls - n) ls

unfoldable pub last_lines : ℤ → List Str → List Str
last_lines (pos n) ls = last n ls
last_lines (negsuc n) ls = ls

-- The lines of the rotated file, none if it is missing or cannot be read to its end.
unfoldable pub older_lines : Option LogFile → List Str
older_lines none = []
older_lines (some f) = if f.failed then [] else f.lines

last-cons : (n : ℕ) (l : Str) (ls : List Str) → n ≤ length ls → last n (l ∷ ls) ≡ last n ls
unfolding last
last-cons n l ls h =
    let shift : suc (length ls) - n ≡ suc (length ls - n) = omega (arith, h) in rw (shift) refl

last-short : (n : ℕ) (ls : List Str) → length ls ≤ n → last n ls ≡ ls
unfolding last
last-short n ls h = let none_left : length ls - n ≡ 0 = omega (arith, h) in rw (none_left) refl

drop-length : (ls : List Str) → drop (length ls) ls ≡ []
drop-length [] = refl
drop-length (l ∷ ls) = drop-length ls

last_none : (ls : List Str) → last 0 ls ≡ []
unfolding last
last_none ls = let all : length ls - 0 ≡ length ls = omega arith in rw (all) (drop-length ls)

drop-append : (m : ℕ) (xs ys : List Str) → m ≤ length xs → drop m (xs ++ ys) ≡ drop m xs ++ ys
drop-append zero xs ys h = refl
drop-append (suc m) [] ys h = absurd (omega (arith, h))
drop-append (suc m) (x ∷ xs) ys h = drop-append m xs ys (omega (arith, h))

last-append_long : (n : ℕ) (xs ys : List Str) → n ≤ length ys → last n (xs ++ ys) ≡ last n ys
last-append_long n [] ys h = refl
last-append_long n (x ∷ xs) ys h =
    last-cons n x (xs ++ ys) (omega (arith, h, length-append xs ys)) ∙ last-append_long n xs ys h

last-append_short :
    (n : ℕ) (xs ys : List Str) → length ys ≤ n → last n (xs ++ ys) ≡ last (n - length ys) xs ++ ys
unfolding last
last-append_short n xs ys h =
    let same : length (xs ++ ys) - n ≡ length xs - (n - length ys) =
      omega (arith, h, length-append xs ys) in
    rw (same) (drop-append (length xs - (n - length ys)) xs ys (omega arith))

-- One more line in the ring, which keeps its bound and the last lines of the whole.
length-push :
    (n : ℕ) (ring : List Str) (l : Str)
    → length ring ≤ suc n
    → length (push_ring (suc n) ring l) ≤ suc n
unfolding push_ring
length-push n [] l h = let room : (0 == suc n) ≡ false = ground arith in rw (room) (omega arith)
length-push n (r ∷ ring) l h = elim (Bool-cases (suc (length ring) == suc n)) [
  | inl e ↦ rw (e) (omega (arith, h, length-append ring (l ∷ [])))
  | inr e ↦
      let room : suc (length ring) ≤ n = ground (arith, h, e) in
      rw (e) (omega (arith, room, length-append ring (l ∷ [])))
]

last-push :
    (n : ℕ) (ring : List Str) (l : Str) (ls : List Str)
    → last (suc n) (push_ring (suc n) ring l ++ ls) ≡ last (suc n) (ring ++ l ∷ ls)
unfolding push_ring
last-push n [] l ls = let room : (0 == suc n) ≡ false = ground arith in rw (room) refl
last-push n (r ∷ ring) l ls = elim (Bool-cases (suc (length ring) == suc n)) [
  | inl e ↦
      let full : length ring ≡ n = ground (arith, e) in
      rw (e, append_assoc ring (l ∷ []) ls)
        (sym
          (last-cons (suc n) r (ring ++ l ∷ ls) (omega (arith, full, length-append ring (l ∷ ls)))))
  | inr e ↦ rw (e, append_assoc ring (l ∷ []) ls) refl
]

read_ring_lem :
    (n : ℕ) (ring ls : List Str)
    → length ring ≤ suc n
    → read_ring (suc n) ring ls ≡ last (suc n) (ring ++ map ended ls)
unfolding read_ring
read_ring_lem n ring [] h = rw (append-nil ring) (sym (last-short (suc n) ring h))
read_ring_lem n ring (l ∷ ls) h =
    read_ring_lem n (push_ring (suc n) ring (ended l)) ls (length-push n ring (ended l) h)
    ∙ last-push n ring (ended l) (map ended ls)

length-map : (ls : List Str) → length (map ended ls) ≡ length ls
length-map [] = refl
length-map (l ∷ ls) = ap (λ n. suc n) (length-map ls)

-- What a positive count reads of a file.
read_tail_lem :
    (f : LogFile) (n : ℕ) → (read_tail f (pos (suc n))).0 ≡ last (suc n) (map ended f.lines)
unfolding read_tail
read_tail_lem f n = read_ring_lem n [] f.lines (omega arith)

-- What is read of the rotated file.
older_lem :
    (rotated : Option LogFile) (tail : ℤ)
    → unless_failed (read_rotated_tail rotated tail)
      ≡ last_lines tail (map ended (older_lines rotated))
unfolding unless_failed read_rotated_tail older_lines last_lines last read_tail
older_lem none (pos zero) = refl
older_lem none (pos (suc n)) = sym (last-short (suc n) [] (omega arith))
older_lem none (negsuc n) = refl
older_lem (some f) (pos zero) = sym (last_none (map ended (older_lines (some f))))
older_lem (some f) (pos (suc n)) = elim (Bool-cases f.failed) [
  | inl e ↦ rw (e) (sym (last-short (suc n) [] (omega arith)))
  | inr e ↦ rw (e) (read_tail_lem f n)
]
older_lem (some f) (negsuc n) = elim (Bool-cases f.failed) [
  | inl e ↦ rw (e) refl
  | inr e ↦ rw (e) refl
]

map-append : (xs ys : List Str) → map ended (xs ++ ys) ≡ map ended xs ++ map ended ys
map-append [] ys = refl
map-append (x ∷ xs) ys = ap (λ ls. ended x ∷ ls) (map-append xs ys)

negative_stays : (k l : ℕ) → negsuc k -ℤ pos l ≡ negsuc (k + l)
unfolding ◌-ℤ◌
negative_stays k l = ground arith

minus_lem : (n l : ℕ) → l ≤ n → pos n -ℤ pos l ≡ pos (n - l)
unfolding ◌-ℤ◌
minus_lem n l h = ground arith

length-drop : (m : ℕ) (ls : List Str) → length (drop m ls) ≡ length ls - m
length-drop zero ls = omega arith
length-drop (suc m) [] = omega arith
length-drop (suc m) (l ∷ ls) = omega (arith, length-drop m ls)

length-last : (n : ℕ) (ls : List Str) → n ≤ length ls → length (last n ls) ≡ n
unfolding last
length-last n ls h = omega (arith, h, length-drop (length ls - n) ls)

-- The lines that are sent before the log is followed are the last ones, as many as were asked for
-- or all, of the rotated file (none of it, if it is missing or cannot be read to its end) and the
-- live file one after the other.
pub backfill_last :
    (tail : ℤ) (live : LogFile) (rotated : Option LogFile)
    → backfill tail live rotated ≡ last_lines tail (map ended (older_lines rotated ++ live.lines))
unfolding backfill last_lines read_tail
backfill_last (pos zero) live rotated =
    sym (last_none (map ended (older_lines rotated ++ live.lines)))
backfill_last (negsuc k) live rotated =
    let all_of_it : ltb_ℤ (negsuc k) (pos 0) ≡ true = ground arith in
    rw
      (
        all_of_it,
        negative_stays k (length (map ended live.lines)),
        map-append (older_lines rotated) live.lines,
        older_lem rotated (negsuc (k + length (map ended live.lines))),
      )
      refl
backfill_last (pos (suc n)) live rotated =
    let older = map ended (older_lines rotated) in
    let newer = map ended live.lines in
    let positive : ltb_ℤ (pos (suc n)) (pos 0) ≡ false = ground arith in
    elim (Bool-cases (ltb (length newer) (suc n))) [
      | inl e ↦
          let fits : length newer ≤ suc n = ground (arith, e) in
          let ring : read_ring (suc n) [] live.lines ≡ newer =
            read_ring_lem n [] live.lines (omega arith) ∙ last-short (suc n) newer fits in
          let short : ltb_ℤ (pos (length newer)) (pos (suc n)) ≡ true = ground (arith, e) in
          rw
            (
              ring,
              positive,
              short,
              minus_lem (suc n) (length newer) fits,
              older_lem rotated (pos (suc n - length newer)),
              map-append (older_lines rotated) live.lines,
            )
            (sym (last-append_short (suc n) older newer fits))
      | inr e ↦
          let covers : suc n ≤ length newer = ground (arith, e) in
          let ring : read_ring (suc n) [] live.lines ≡ last (suc n) newer =
            read_ring_lem n [] live.lines (omega arith) in
          let long : ltb_ℤ (pos (length (last (suc n) newer))) (pos (suc n)) ≡ false =
            ground (arith, length-last (suc n) newer covers) in
          rw (ring, positive, long, map-append (older_lines rotated) live.lines)
            (sym (last-append_long (suc n) older newer covers))
    ]
