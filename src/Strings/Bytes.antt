-- ===== src/Strings/Bytes.antt =====
-- The functions of Go's `strings` package that the program calls, on byte lists. Separators of one
-- byte are numbers: `strings.Split(s, ".")` is `split_byte b'.' s`.
use Prim.Native.Char.{code}
use mathlib.Core.List.{reverse}
use lxc2docker.Prelude.{
  ℕ, ◌+◌, Bool, true, false, ◌&&◌, ◌||◌, List, [], ◌∷◌, ◌++◌, map, String, Option, none, some, leb,
  ◌==◌, if◌then◌else◌, drop, take, length, ◌-◌, all, is_empty,
}

abbrev pub Str : Type 0
Str = List ℕ

-- The bytes of a literal (every literal of the program is ASCII).
abbrev pub codes : String → Str
codes String.[] = []
codes (String.◌∷◌ c s) = code c ∷ codes s

-- `s == t`
unfoldable pub eq_str : Str → Str → Bool
eq_str [] [] = true
eq_str [] (d ∷ t) = false
eq_str (c ∷ s) [] = false
eq_str (c ∷ s) (d ∷ t) = c == d && eq_str s t

-- `strings.HasPrefix(s, p)`
unfoldable pub has_prefix : Str → Str → Bool
has_prefix s [] = true
has_prefix [] (d ∷ p) = false
has_prefix (c ∷ s) (d ∷ p) = c == d && has_prefix s p

unfoldable pub trim_prefix : Str → Str → Str
unfolding has_prefix
trim_prefix s p = if has_prefix s p then drop (length p) s else s

unfoldable pub has_suffix : Str → Str → Bool
unfolding has_prefix
has_suffix s p = has_prefix (reverse s) (reverse p)

unfoldable pub trim_suffix : Str → Str → Str
unfolding has_suffix
trim_suffix s p = if has_suffix s p then take (length s - length p) s else s

-- `strings.Contains(s, p)`
unfoldable pub contains : Str → Str → Bool
unfolding has_prefix
contains [] p = has_prefix [] p
contains (c ∷ s) p = has_prefix (c ∷ s) p || contains s p

unfoldable pub contains_byte : ℕ → Str → Bool
contains_byte b [] = false
contains_byte b (c ∷ s) = c == b || contains_byte b s

-- The text before and behind the first `b`: `strings.Cut`, and `strings.Index` with the two slices.
unfoldable pub cut_byte : ℕ → Str → Option (Str × Str)
cut_byte b [] = none
cut_byte b (c ∷ s) =
    let rest = cut_byte b s in
    if c == b then some ([], s) else elim rest [ none ↦ none | some (k, v) ↦ some (c ∷ k, v) ]

-- `strings.Index` as a cut: what stands before the first occurrence, and what begins there.
unfoldable pub cut_at : Str → Str → Option (Str × Str)
cut_at mark [] = if is_empty mark then some ([], []) else none
cut_at mark (c ∷ s) =
    let later = cut_at mark s in
    if has_prefix (c ∷ s) mark
    then some ([], c ∷ s)
    else elim later [ none ↦ none | some (before, rest) ↦ some (c ∷ before, rest) ]

-- The same at the last `b`: `strings.LastIndex`.
unfoldable pub cut_last_byte : ℕ → Str → Option (Str × Str)
cut_last_byte b [] = none
cut_last_byte b (c ∷ s) = elim (cut_last_byte b s) [
  | some (k, v) ↦ some (c ∷ k, v)
  | none ↦ if c == b then some ([], s) else none
]

-- A byte put in front of the first part.
abbrev pub onto_first : ℕ → List Str → List Str
onto_first c [] = (c ∷ []) ∷ []
onto_first c (p ∷ ps) = (c ∷ p) ∷ ps

-- `strings.Split(s, string(b))`: always one part at least.
unfoldable pub split_byte : ℕ → Str → List Str
split_byte b [] = [] ∷ []
split_byte b (c ∷ s) =
    let parts = split_byte b s in if c == b then [] ∷ parts else onto_first c parts

unfoldable pub join : Str → List Str → Str
join sep [] = []
join sep (p ∷ []) = p
join sep (p ∷ q ∷ ps) = p ++ (sep ++ join sep (q ∷ ps))

lower_byte : ℕ → ℕ
lower_byte c = if leb b'A' c && leb c b'Z' then c + 32 else c

-- `strings.ToLower`, on ASCII text.
unfoldable pub to_lower : Str → Str
unfolding lower_byte
to_lower = map lower_byte

upper_byte : ℕ → ℕ
upper_byte c = if leb b'a' c && leb c b'z' then c - 32 else c

-- `strings.ToUpper`, on ASCII text.
unfoldable pub to_upper : Str → Str
unfolding upper_byte
to_upper = map upper_byte

-- `strings.EqualFold`, on ASCII text.
unfoldable pub equal_fold : Str → Str → Bool
unfolding to_lower
equal_fold s t = eq_str (to_lower s) (to_lower t)

is_digit : ℕ → Bool
is_digit c = leb b'0' c && leb c b'9'

unfoldable pub is_all_digits : Str → Bool
unfolding is_digit all
is_all_digits [] = false
is_all_digits (c ∷ s) = all is_digit (c ∷ s)

unfoldable pub is_space : ℕ → Bool
is_space c = (leb 9 c && leb c 13) || c == 32

-- `strings.TrimLeft` with a set of bytes given by its test.
unfoldable pub trim_left : (ℕ → Bool) → Str → Str
trim_left test [] = []
trim_left test (c ∷ s) = let rest = trim_left test s in if test c then rest else c ∷ s

unfoldable pub trim_right : (ℕ → Bool) → Str → Str
unfolding trim_left
trim_right test s = reverse (trim_left test (reverse s))

-- `strings.TrimSpace`, on ASCII text.
unfoldable pub trim_space : Str → Str
unfolding trim_right is_space
trim_space s = trim_right is_space (trim_left is_space s)

-- A word put in front, if it has a letter.
abbrev pub onto_words : Str → List Str → List Str
onto_words [] ws = ws
onto_words (c ∷ w) ws = (c ∷ w) ∷ ws

-- The letters that the text begins with, and the words after them.
unfoldable pub first_word : Str → Str × List Str
unfolding is_space
first_word [] = ([], [])
first_word (c ∷ s) =
    let (w, ws) = first_word s in if is_space c then ([], onto_words w ws) else (c ∷ w, ws)

-- `strings.Fields`, on ASCII text.
unfoldable pub fields : Str → List Str
unfolding first_word
fields s = let (w, ws) = first_word s in onto_words w ws
