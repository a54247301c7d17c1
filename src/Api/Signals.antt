-- ===== src/Api/Signals.antt =====
-- internal/api/containers.go: the signals of stop and kill requests.
use lxc2docker.Prelude.{
  ℕ, Bool, false, ◌&&◌, ◌||◌, [], ◌∷◌, none, some, if◌then◌else◌, is_empty, any, all, leb, ◌==◌,
  ◌+◌,
}
use lxc2docker.Prelude.Int.{ℤ, pos, ◌+ℤ◌, leb_ℤ}
use lxc2docker.Strings.{Str, codes, trim_prefix, trim_space, to_upper, atoi}
use lxc2docker.Dict.{Dict, get}

abbrev pub signal_numbers : Dict ℕ
signal_numbers =
    (codes "HUP", 1)
    ∷ (codes "INT", 2)
    ∷ (codes "QUIT", 3)
    ∷ (codes "ILL", 4)
    ∷ (codes "TRAP", 5)
    ∷ (codes "ABRT", 6)
    ∷ (codes "BUS", 7)
    ∷ (codes "FPE", 8)
    ∷ (codes "KILL", 9)
    ∷ (codes "USR1", 10)
    ∷ (codes "SEGV", 11)
    ∷ (codes "USR2", 12)
    ∷ (codes "PIPE", 13)
    ∷ (codes "ALRM", 14)
    ∷ (codes "TERM", 15)
    ∷ (codes "STKFLT", 16)
    ∷ (codes "CHLD", 17)
    ∷ (codes "CONT", 18)
    ∷ (codes "STOP", 19)
    ∷ (codes "TSTP", 20)
    ∷ (codes "TTIN", 21)
    ∷ (codes "TTOU", 22)
    ∷ (codes "URG", 23)
    ∷ (codes "XCPU", 24)
    ∷ (codes "XFSZ", 25)
    ∷ (codes "VTALRM", 26)
    ∷ (codes "PROF", 27)
    ∷ (codes "WINCH", 28)
    ∷ (codes "IO", 29)
    ∷ (codes "PWR", 30)
    ∷ (codes "SYS", 31)
    ∷ []

unfoldable pub exit_code_for_signal : Str → ℤ
exit_code_for_signal s = if is_empty s then pos 0 else elim (atoi s) [
  | some n ↦ pos 128 +ℤ n
  | none ↦ elim (get (trim_prefix (to_upper (trim_space s)) (codes "SIG")) signal_numbers) [
    | some n ↦ pos (128 + n)
    | none ↦ pos 0
  ]
]

is_blank : ℕ → Bool
is_blank c = c == b' ' || (c == 9 || c == 10)

is_signal_byte : ℕ → Bool
is_signal_byte c =
    (leb b'A' c && leb c b'Z') || ((leb b'0' c && leb c b'9') || (c == b'+' || c == b'-'))

unfoldable pub is_valid_signal : Str → Bool
unfolding is_blank is_signal_byte
is_valid_signal s = if any is_blank s then false else elim (atoi s) [
  | some n ↦ leb_ℤ (pos 0) n && leb_ℤ n (pos 64)
  | none ↦
      let bare = trim_prefix (to_upper s) (codes "SIG") in
      if is_empty bare then false else all is_signal_byte bare
]
