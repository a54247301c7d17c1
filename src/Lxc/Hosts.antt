-- ===== src/Lxc/Hosts.antt =====
-- internal/lxc/dns_hosts.go: the block of container names that the daemon manages in the file
-- /etc/hosts of each container.
pub mod Splice
pub mod Peers
pub mod Lines
pub mod Mutual
mod Tests
use lxc2docker.Prelude.{
  ℕ, Bool, true, false, not, ◌&&◌, List, [], ◌∷◌, ◌++◌, Option, none, some, if◌then◌else◌, is_empty,
  length, drop, ltb, ◌==◌,
}
use lxc2docker.Strings.{Str, codes, has_suffix, cut_byte, cut_at, trim_right}

abbrev pub newline : ℕ
newline = 10

abbrev pub hosts_managed_begin : Str
hosts_managed_begin = codes "# >>> docker-lxc-daemon: container DNS (managed, do not edit) >>>"

abbrev pub hosts_managed_end : Str
hosts_managed_end = codes "# <<< docker-lxc-daemon: container DNS (managed) <<<"

is_newline : ℕ → Bool
is_newline c = c == newline

-- A block with no end: all from its beginning is dropped.
truncated : Str → Str
unfolding is_newline
truncated before = trim_right is_newline before ++ newline ∷ []

-- What follows the end marker, without the line break.
next_line : Str → Str
next_line after = elim (cut_byte newline after) [ none ↦ after | some (_, rest) ↦ rest ]

unfoldable pub strip_managed_hosts_block : Str → Str
unfolding truncated next_line
strip_managed_hosts_block body = elim (cut_at hosts_managed_begin body) [
  | none ↦ body
  | some (before, _) ↦ elim (cut_at hosts_managed_end body) [
    | none ↦ truncated before
    | some (before_end, rest) ↦
        if ltb (length before_end) (length before)
        then truncated before
        else before ++ next_line (drop (length hosts_managed_end) rest)
  ]
]

unfoldable pub with_newline : Str → Str
with_newline base =
    if not (is_empty base) && not (has_suffix base (newline ∷ []))
    then base ++ newline ∷ []
    else base

unfoldable pub compose_hosts_file : Str → Str → Str
compose_hosts_file existing block =
    let base = strip_managed_hosts_block existing in
    if is_empty block
    then base
    else with_newline base
      ++ (hosts_managed_begin ++ (newline ∷ (block ++ (hosts_managed_end ++ newline ∷ []))))
