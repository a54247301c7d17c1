-- ===== src/Strings/Numbers.antt =====
-- Go's `strconv.Atoi` and the verb `%d`.
use lxc2docker.Prelude.{
  ℕ, zero, suc, ◌+◌, ◌-◌, ◌*◌, ◌/◌, ◌%◌, ◌^◌, ◌&&◌, [], ◌∷◌, Option, none, some, ltb, leb, ◌==◌,
  if◌then◌else◌,
}
use lxc2docker.Prelude.Int.{ℤ, pos, negsuc}
use lxc2docker.Strings.Bytes.{Str}

unfoldable pub digits_value : ℕ → Str → Option ℕ
digits_value n [] = some n
digits_value n (c ∷ s) =
    let rest = digits_value (n * 10 + (c - b'0')) s in
    if leb b'0' c && leb c b'9' then rest else none

-- One digit at least.
magnitude : Str → Option ℕ
unfolding digits_value
magnitude [] = none
magnitude (c ∷ s) = digits_value 0 (c ∷ s)

positive : Option ℕ → Option ℤ
positive none = none
positive (some n) = if ltb n (2 ^ 63) then some (pos n) else none

negative : Option ℕ → Option ℤ
negative none = none
negative (some zero) = some (pos 0)
negative (some (suc n)) = if ltb n (2 ^ 63) then some (negsuc n) else none

-- `strconv.Atoi` on a 64-bit machine; `none` is its error.
unfoldable pub atoi : Str → Option ℤ
unfolding magnitude positive negative
atoi [] = none
atoi (c ∷ s) =
    if c == b'-'
    then negative (magnitude s)
    else if c == b'+'
    then positive (magnitude s)
    else positive (magnitude (c ∷ s))

unfoldable pub decimal : ℕ → ℕ → Str → Str
decimal zero n out = out
decimal (suc fuel) n out =
    let out' = (b'0' + n % 10) ∷ out in
    let more = decimal fuel (n / 10) out' in if ltb n 10 then out' else more

-- `%d` of a number; a number has at most as many digits as its value plus one.
unfoldable pub itoa : ℕ → Str
unfolding decimal
itoa n = decimal (suc n) n []
