-- ===== src/Api/Escape.antt =====
-- internal/api/exec_detach.go: the detach keys, and the reader that looks for them in the input of an
-- attached client.
pub mod Index
pub mod Session
mod Tests
use lxc2docker.Prelude.{
  ℕ, zero, suc, ◌+◌, ◌-◌, Bool, true, false, not, ◌&&◌, ◌||◌, List, [], ◌∷◌, ◌++◌, Option, none,
  some, if◌then◌else◌, is_empty, length, take, drop, leb, ltb, ◌==◌,
}
use lxc2docker.Strings.{Str, codes, has_prefix, split_byte}

abbrev pub default_detach_keys : Str
default_detach_keys = codes "ctrl-p,ctrl-q"

-- The byte of the key that is pressed with ctrl.
control : ℕ → Option ℕ
control c =
    if leb b'a' c && leb c b'z'
    then some (c - b'a' + 1)
    else if c == b'@'
    then some 0
    else if c == b'['
    then some 27
    else if c == b'\\'
    then some 28
    else if c == b']'
    then some 29
    else if c == b'^'
    then some 30
    else if c == b'_'
    then some 31
    else none

detach_key : Str → Option ℕ
unfolding control
detach_key (c ∷ []) = some c
detach_key tok =
    if has_prefix tok (codes "ctrl-")
    then (elim (drop 5 tok) [ [] ↦ none | c ∷ [] ↦ control c | c ∷ d ∷ rest ↦ none ])
    else none

detach_bytes : List Str → Option Str
unfolding detach_key
detach_bytes [] = some []
detach_bytes (tok ∷ toks) = elim (detach_key tok) [
  | none ↦ none
  | some c ↦ elim (detach_bytes toks) [ none ↦ none | some cs ↦ some (c ∷ cs) ]
]

-- `none` is the error of an invalid key.
unfoldable pub parse_detach_keys : Str → Option Str
unfolding detach_bytes
parse_detach_keys keys =
    let text = if is_empty keys then default_detach_keys else keys in
    detach_bytes (split_byte b',' text)

-- Where the loop over the bytes of a read stands: what is decided to pass, and how much of the keys
-- is withheld; or that it met all the keys.
pub data Scan : Type 0 where
  passed : Str → ℕ → Scan
  found : Str → Scan

unfoldable pub byte_at : ℕ → Str → Option ℕ
byte_at n [] = none
byte_at zero (c ∷ s) = some c
byte_at (suc n) (c ∷ s) = byte_at n s

unfoldable pub is_byte : ℕ → ℕ → Str → Bool
unfolding byte_at
is_byte b n keys = elim (byte_at n keys) [ none ↦ false | some c ↦ b == c ]

unfoldable pub scan_byte : Str → Scan → ℕ → Scan
scan_byte keys (found out) b = found out
scan_byte keys (passed out matched) b =
    let flushed = out ++ take matched keys in
    if is_byte b matched keys
    then if suc matched == length keys then found out else passed out (suc matched)
    else if is_byte b 0 keys
    then passed flushed 1
    else passed (flushed ++ b ∷ []) 0

unfoldable pub scan : Str → Scan → Str → Scan
scan keys s [] = s
scan keys s (b ∷ bs) = scan keys (scan_byte keys s b) bs

pub record EscapeReader : Type 0 where
  pub matched : ℕ
  pub pending : Str

-- What the reader under it answers: bytes, and whether it failed (or is at the end of the input).
pub record Input : Type 0 where
  pub bytes : Str
  pub fails : Bool

pub data ReadError : Type 0 where
  no_error detached inner_error : ReadError

inner : Bool → ReadError
inner fails = if fails then inner_error else no_error

pub record ReadResult : Type 0 where
  pub reader : EscapeReader
  pub given : Str
  pub error : ReadError

-- `Read` with keys, into a buffer of `room` bytes. `n ← r.Read(tmp)` is not called when bytes are
-- pending: `input` is what it would answer.
unfoldable pub read : Str → ℕ → Input → EscapeReader → ReadResult
unfolding inner
read keys room input er =
    if is_empty keys
    then record { reader = er; given = input.bytes; error = inner input.fails }
    else if not (is_empty er.pending)
    then record {
      reader = record er { pending = drop room er.pending };
      given = take room er.pending;
      error = no_error;
    }
    else if is_empty input.bytes
    then record { reader = er; given = []; error = inner input.fails }
    else elim (scan keys (passed [] er.matched) input.bytes) [
      | found out ↦ record {
        reader = record { matched = 0; pending = drop room out };
        given = take room out;
        error = detached;
      }
      | passed out matched ↦ record {
        reader = record { matched = matched; pending = drop room out };
        given = take room out;
        error = inner input.fails;
      }
    ]
