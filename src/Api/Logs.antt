-- ===== src/Api/Logs.antt =====
-- internal/api/containers.go: the lines of the console log that a request for logs starts with. A
-- file is what a `bufio.Scanner` makes of it: its lines, and whether the scan ended in an error.
pub mod Tail
mod Tests
use lxc2docker.Prelude.{
  ℕ, zero, suc, ◌||◌, Bool, true, false, List, [], ◌∷◌, ◌++◌, map, Option, none, some, ◌==◌,
  if◌then◌else◌, is_empty, length, drop,
}
use lxc2docker.Prelude.Int.{ℤ, pos, negsuc, ◌-ℤ◌, ltb_ℤ}
use lxc2docker.Strings.{Str, codes, atoi, eq_str}

pub record LogFile : Type 0 where
  pub lines : List Str
  pub failed : Bool

all_if_negative : Option ℤ → ℤ
all_if_negative none = negsuc 0
all_if_negative (some n) = if ltb_ℤ n (pos 0) then negsuc 0 else n

unfoldable pub parse_tail : Str → ℤ
unfolding all_if_negative
parse_tail v = if is_empty v || eq_str v (codes "all") then negsuc 0 else all_if_negative (atoi v)

-- `append(line, '\n')`.
unfoldable pub ended : Str → Str
ended line = line ++ (10 ∷ [])

unfoldable pub push_ring : ℕ → List Str → Str → List Str
push_ring n ring line = (if length ring == n then drop 1 ring else ring) ++ (line ∷ [])

unfoldable pub read_ring : ℕ → List Str → List Str → List Str
read_ring n ring [] = ring
read_ring n ring (line ∷ lines) = read_ring n (push_ring n ring (ended line)) lines

-- The lines, and whether there is an error. That `make([][]byte, 0, n)` finds the memory for so many
-- lines is taken for granted.
unfoldable pub read_tail : LogFile → ℤ → List Str × Bool
read_tail f (negsuc n) = (map ended f.lines, f.failed)
read_tail f (pos zero) = ([], false)
read_tail f (pos (suc n)) = (read_ring (suc n) [] f.lines, f.failed)

-- `none` is a file that cannot be opened.
unfoldable pub read_rotated_tail : Option LogFile → ℤ → List Str × Bool
read_rotated_tail file (pos zero) = ([], false)
read_rotated_tail none n = ([], false)
read_rotated_tail (some f) n = read_tail f n

unfoldable pub unless_failed : List Str × Bool → List Str
unless_failed (ls, failed) = if failed then [] else ls

-- The lines that are sent before the log is followed.
unfoldable pub backfill : ℤ → LogFile → Option LogFile → List Str
backfill (pos zero) live rotated = []
backfill tail live rotated =
    let live_lines = (read_tail live tail).0 in
    let older = unless_failed (read_rotated_tail rotated (tail -ℤ pos (length live_lines))) in
    (if ltb_ℤ tail (pos 0) || ltb_ℤ (pos (length live_lines)) tail then older else []) ++ live_lines
