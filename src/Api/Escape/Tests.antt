-- ===== src/Api/Escape/Tests.antt =====
-- The default keys, and a client that types them in two pieces.
use lxc2docker.Prelude.{ℕ, ◌≡◌, refl, false, [], ◌∷◌, List, some, is_empty}
use lxc2docker.Strings.{Str, codes, contains_byte, cut_at, has_prefix, split_byte}
use lxc2docker.Api.Escape.{parse_detach_keys, Input, passed, scan, scan_byte, is_byte}
use lxc2docker.Api.Escape.Index.{Searched, scan_searches}
use lxc2docker.Api.Escape.Session.{start, run_reads, outcome, run_reads_refine}

default_keys : parse_detach_keys [] ≡ some (16 ∷ 17 ∷ [])
unfolding parse_detach_keys split_byte has_prefix is_empty
default_keys = refl

abbrev typed : Str
typed = b'a' ∷ 16 ∷ b'b' ∷ 16 ∷ 17 ∷ b'c' ∷ []

scan_searches_example :
    Searched
      (16 ∷ 17 ∷ [])
      []
      typed
      (cut_at (16 ∷ 17 ∷ []) typed)
      (scan (16 ∷ 17 ∷ []) (passed [] 0) typed)
scan_searches_example = scan_searches 16 (17 ∷ []) (unfold contains_byte in refl) typed

abbrev pieces : List (ℕ × Input)
pieces =
    (4, record { bytes = b'a' ∷ 16 ∷ b'b' ∷ 16 ∷ []; fails = false })
    ∷ (4, record { bytes = 17 ∷ b'c' ∷ []; fails = false })
    ∷ []

run_reads_refine_example :
    scan (16 ∷ 17 ∷ []) (passed [] 0) (run_reads (16 ∷ 17 ∷ []) start pieces).consumed
    ≡ outcome (run_reads (16 ∷ 17 ∷ []) start pieces)
run_reads_refine_example = run_reads_refine (16 ∷ 17 ∷ []) (unfold is_empty in refl) pieces

-- Keys whose first byte comes back in them can be missed: a, a, b in the text aaab.
missed : scan (codes "aab") (passed [] 0) (codes "aaab") ≡ passed (codes "aaab") 0
unfolding scan scan_byte is_byte
missed = refl
