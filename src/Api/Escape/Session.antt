-- ===== src/Api/Escape/Session.antt =====
-- A client's input, read in pieces of any size into buffers of any size.
use lxc2docker.Prelude.{
  ℕ, zero, suc, ◌≡◌, refl, ap, ◌∙◌, Bool, true, false, List, [], ◌∷◌, ◌++◌, if◌then◌else◌, is_empty,
  take, drop, arith, Bool-cases, inl, inr, append_assoc,
}
use lxc2docker.Strings.{Str}
use lxc2docker.Api.Escape.{
  Scan, passed, found, scan_byte, scan, EscapeReader, Input, ReadError, detached, inner, ReadResult,
  read,
}

pub record Session : Type 0 where
  pub reader : EscapeReader
  pub delivered : Str
  pub consumed : Str
  pub is_detached : Bool

abbrev pub start : Session
start = record {
  reader = record { matched = 0; pending = [] };
  delivered = [];
  consumed = [];
  is_detached = false;
}

unfoldable pub is_detach : ReadError → Bool
is_detach detached = true
is_detach _ = false

-- The copying stops when the reader detaches.
unfoldable pub next_read : Str → Session → ℕ × Input → Session
next_read keys s (room, input) =
    let r = read keys room input s.reader in
    if s.is_detached then s else record {
      reader = r.reader;
      delivered = s.delivered ++ r.given;
      consumed = s.consumed ++ (if is_empty s.reader.pending then input.bytes else []);
      is_detached = is_detach r.error;
    }

unfoldable pub run_reads : Str → Session → List (ℕ × Input) → Session
run_reads keys s [] = s
run_reads keys s (r ∷ rs) = run_reads keys (next_read keys s r) rs

-- What the scan of all that was consumed gives.
unfoldable pub outcome : Session → Scan
outcome s =
    if s.is_detached
    then found (s.delivered ++ s.reader.pending)
    else passed (s.delivered ++ s.reader.pending) s.reader.matched

before : Str → Scan → Scan
before x (passed out m) = passed (x ++ out) m
before x (found out) = found (x ++ out)

scan-append : (keys a b : Str) (s : Scan) → scan keys s (a ++ b) ≡ scan keys (scan keys s a) b
unfolding scan
scan-append keys [] b s = refl
scan-append keys (c ∷ a) b s = scan-append keys a b (scan_byte keys s c)

scan_byte-before :
    (keys x : Str) (s : Scan) (b : ℕ)
    → scan_byte keys (before x s) b ≡ before x (scan_byte keys s b)
unfolding scan_byte before
scan_byte-before keys x (found out) b = refl
scan_byte-before keys x (passed out m) b =
    ground (arith, append_assoc x out (take m keys), append_assoc x (out ++ take m keys) (b ∷ []))

scan-before : (keys x t : Str) (s : Scan) → scan keys (before x s) t ≡ before x (scan keys s t)
unfolding scan
scan-before keys x [] s = refl
scan-before keys x (b ∷ t) s =
    ap (λ s'. scan keys s' t) (scan_byte-before keys x s b)
    ∙ scan-before keys x t (scan_byte keys s b)

take-drop : (n : ℕ) (s : Str) → take n s ++ drop n s ≡ s
take-drop zero s = refl
take-drop (suc n) [] = refl
take-drop (suc n) (c ∷ s) = ap (λ t. c ∷ t) (take-drop n s)

module _ (keys : Str) (some_keys : is_empty keys ≡ false) where
  abbrev scan_all : Str → Scan
  scan_all = scan keys (passed [] 0)

  Follows : Session → Type 0
  Follows s = scan_all s.consumed ≡ outcome s

  -- What one read consumes.
  abbrev eaten : EscapeReader → Input → Str
  eaten er input = if is_empty er.pending then input.bytes else []

  read_outcome : ReadResult → Scan
  read_outcome r =
      if is_detach r.error
      then found (r.given ++ r.reader.pending)
      else passed (r.given ++ r.reader.pending) r.reader.matched

  inner_is_no_detach : (fails : Bool) → is_detach (inner fails) ≡ false
  unfolding is_detach inner
  inner_is_no_detach true = refl
  inner_is_no_detach false = refl

  read-scan :
      (room : ℕ) (bytes : Str) (fails : Bool) (matched : ℕ) (pending : Str)
      → scan keys (passed pending matched) (if is_empty pending then bytes else [])
        ≡ read_outcome (
            read keys room
              (record { bytes = bytes; fails = fails })
              (record { matched = matched; pending = pending }))
  unfolding read read_outcome is_detach is_empty scan
  read-scan room bytes fails matched (p ∷ ps) = rw (some_keys, take-drop room (p ∷ ps)) refl
  read-scan room [] fails matched [] = rw (some_keys, inner_is_no_detach fails) refl
  read-scan room (b ∷ bs) fails matched [] = by_scan (scan keys (passed [] matched) (b ∷ bs)) refl
    where
      by_scan :
          (o : Scan)
          → scan keys (passed [] matched) (b ∷ bs) ≡ o
          → scan keys (passed [] matched) (b ∷ bs)
            ≡ read_outcome (
                read keys room
                  (record { bytes = b ∷ bs; fails = fails })
                  (record { matched = matched; pending = [] }))
      by_scan (passed out m) e = simp (some_keys, e, inner_is_no_detach fails, take-drop room out)
      by_scan (found out) e = simp (some_keys, e, take-drop room out)

  step-Follows :
      (s : Session) (room : ℕ) (input : Input)
      → s.is_detached ≡ false
      → Follows s
      → Follows (next_read keys s (room, input))
  unfolding Follows next_read outcome read_outcome before
  step-Follows s room input e f =
      let c = if is_empty s.reader.pending then input.bytes else [] in
      let so_far : scan_all s.consumed
          ≡ before s.delivered (passed s.reader.pending s.reader.matched) =
        ground (arith, e, f) in
      let r = read keys room input s.reader in
      rw (next_read, e)
        (scan-append keys s.consumed c (passed [] 0)
          ∙ (ap (λ o. scan keys o c) so_far
              ∙ (scan-before keys s.delivered c (passed s.reader.pending s.reader.matched)
                  ∙ (ap (before s.delivered)
                        (read-scan room input.bytes input.fails s.reader.matched s.reader.pending)
                      ∙ ground (arith, append_assoc s.delivered r.given r.reader.pending)))))

  next_read_done : (s : Session) (r : ℕ × Input) → s.is_detached ≡ true → next_read keys s r ≡ s
  unfolding next_read
  next_read_done s r e = ground (arith, e)

  next_read-Follows :
      (s : Session) (room : ℕ) (input : Input)
      → Follows s
      → Follows (next_read keys s (room, input))
  unfolding next_read
  next_read-Follows s room input f = elim (Bool-cases s.is_detached) [
    | inl e ↦ rw (next_read_done s (room, input) e) f
    | inr e ↦ step-Follows s room input e f
  ]

  run_reads-Follows :
      (s : Session) (rs : List (ℕ × Input)) → Follows s → Follows (run_reads keys s rs)
  unfolding run_reads
  run_reads-Follows s [] f = f
  run_reads-Follows s ((room, input) ∷ rs) f =
      run_reads-Follows (next_read keys s (room, input)) rs (next_read-Follows s room input f)

-- However the input of a client is cut into reads, and however large the buffers are: what was
-- delivered, with what is pending, what is withheld and whether the client has detached, is what one
-- scan of all the input that was consumed gives.
pub run_reads_refine :
    (keys : Str)
    → is_empty keys ≡ false
    → (rs : List (ℕ × Input))
    → scan keys (passed [] 0) (run_reads keys start rs).consumed ≡ outcome (run_reads keys start rs)
unfolding outcome scan
run_reads_refine keys some_keys rs =
    (unfold Follows in run_reads-Follows keys some_keys start rs refl)
