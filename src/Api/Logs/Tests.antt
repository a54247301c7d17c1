-- ===== src/Api/Logs/Tests.antt =====
-- A request for three lines just after a rotation.
use lxc2docker.Prelude.{◌≡◌, refl, false, [], ◌∷◌, some, map, ◌++◌, is_empty}
use lxc2docker.Prelude.Int.{pos, negsuc, ◌-ℤ◌}
use lxc2docker.Strings.{codes, eq_str, atoi}
use lxc2docker.Api.Logs.{
  LogFile, ended, push_ring, read_ring, read_tail, read_rotated_tail, unless_failed, parse_tail,
  backfill,
}
use lxc2docker.Api.Logs.Tail.{last_lines, older_lines, backfill_last}

abbrev newer : LogFile
newer = record { lines = codes "c" ∷ codes "d" ∷ []; failed = false }

abbrev older : LogFile
older = record { lines = codes "a" ∷ codes "b" ∷ []; failed = false }

three : parse_tail (codes "3") ≡ pos 3
unfolding parse_tail is_empty eq_str atoi
three = refl

minus_three : parse_tail (codes "-3") ≡ negsuc 0
unfolding parse_tail is_empty eq_str atoi
minus_three = refl

three_lines :
    backfill (pos 3) newer (some older) ≡ map ended (codes "b" ∷ codes "c" ∷ codes "d" ∷ [])
unfolding backfill read_tail read_ring push_ring unless_failed read_rotated_tail ◌-ℤ◌
three_lines = refl

backfill_last_example :
    backfill (pos 3) newer (some older)
    ≡ last_lines (pos 3) (map ended (older_lines (some older) ++ newer.lines))
backfill_last_example = backfill_last (pos 3) newer (some older)
