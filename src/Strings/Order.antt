-- ===== src/Strings/Order.antt =====
-- The order of Go on texts, and `sort.Strings` as an insertion of one text after the other.
use lxc2docker.Prelude.{Bool, true, false, ◌&&◌, ◌||◌, List, [], ◌∷◌, ltb, ◌==◌, if◌then◌else◌}
use lxc2docker.Strings.Bytes.{Str}

-- `s <= t`
unfoldable pub leb_str : Str → Str → Bool
leb_str [] t = true
leb_str (c ∷ s) [] = false
leb_str (c ∷ s) (d ∷ t) = ltb c d || (c == d && leb_str s t)

unfoldable pub insert_sorted : Str → List Str → List Str
insert_sorted s [] = s ∷ []
insert_sorted s (t ∷ ts) =
    let rest = insert_sorted s ts in if leb_str s t then s ∷ t ∷ ts else t ∷ rest
