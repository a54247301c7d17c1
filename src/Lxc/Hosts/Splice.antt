-- ===== src/Lxc/Hosts/Splice.antt =====
-- Splicing a block into a file, and taking it out.
use lxc2docker.Prelude.{
  ℕ, ◌≡◌, refl, sym, ap, ◌∙◌, Bool, true, false, [], ◌∷◌, ◌++◌, none, some, arith, is_empty, length,
  length-append, ltb, ◌==◌, inl, inr, Bool-cases, Option-cases, append_assoc, append-nil,
}
use mathlib.Core.List.{reverse, reverse-cons, reverse-append, reverse-reverse}
use lxc2docker.Strings.{
  Str, has_prefix, has_suffix, contains_byte, cut_byte, cut_at, has_prefix_sound, cut_at_start,
}
use lxc2docker.Lxc.Hosts.{
  newline, hosts_managed_begin, hosts_managed_end, next_line, strip_managed_hosts_block,
  with_newline, compose_hosts_file,
}

-- A text of whole lines.
unfoldable pub ends_line : Str → Bool
ends_line [] = true
ends_line (c ∷ []) = c == newline
ends_line (c ∷ d ∷ s) = ends_line (d ∷ s)

-- A mark without a line break that begins in a text of whole lines also ends in it.
prefix_within :
    (c : ℕ) (b y m : Str)
    → ends_line (c ∷ b) ≡ true
    → contains_byte newline m ≡ false
    → has_prefix ((c ∷ b) ++ y) m ≡ true
    → has_prefix (c ∷ b) m ≡ true
unfolding ends_line has_prefix contains_byte
prefix_within c b y [] e n p = refl
prefix_within c [] y (d ∷ m) e n p = absurd (ground arith)
prefix_within c (a ∷ b) y (d ∷ m) e n p = ground (arith, prefix_within a b y m)

ends_tail : (c : ℕ) (b : Str) → ends_line (c ∷ b) ≡ true → ends_line b ≡ true
unfolding ends_line
ends_tail c [] e = refl
ends_tail c (a ∷ b) e = e

cut_at-none :
    (m : Str) (c : ℕ) (b : Str)
    → cut_at m (c ∷ b) ≡ none
    → (has_prefix (c ∷ b) m ≡ false) × (cut_at m b ≡ none)
unfolding cut_at
cut_at-none m c b f = elim (Bool-cases (has_prefix (c ∷ b) m)) [
  | inl p ↦ absurd (cc (rw (cut_at, p) at f))
  | inr p ↦ elim (Option-cases (cut_at m b)) [
    | inl q ↦ (p, q)
    | inr (x, q) ↦ absurd (cc (rw (cut_at, p, q) at f))
  ]
]

-- The first occurrence after whole lines without the mark is the one that follows them.
cut_at-append :
    (b m r : Str)
    → ends_line b ≡ true
    → contains_byte newline m ≡ false
    → is_empty m ≡ false
    → cut_at m b ≡ none
    → cut_at m (b ++ (m ++ r)) ≡ some (b, m ++ r)
unfolding cut_at ends_line
cut_at-append [] m r e n h f = cut_at_start m r h
cut_at-append (c ∷ b) m r e n h f =
    let (p, q) = cut_at-none m c b f in
    let later = cut_at-append b m r (ends_tail c b e) n h q in
    let not_here : has_prefix ((c ∷ b) ++ (m ++ r)) m ≡ false =
      ground (arith, prefix_within c b (m ++ r) m e n, p) in
    rw (cut_at, not_here, later) refl

ends_line-append : (xs : Str) (c : ℕ) (ys : Str) → ends_line (xs ++ c ∷ ys) ≡ ends_line (c ∷ ys)
unfolding ends_line
ends_line-append [] c ys = refl
ends_line-append (x ∷ []) c ys = refl
ends_line-append (x ∷ y ∷ xs) c ys = ends_line-append (y ∷ xs) c ys

ends_line-suffix : (s : Str) → has_suffix s (newline ∷ []) ≡ true → ends_line s ≡ true
unfolding has_suffix
ends_line-suffix s h =
    let (r, e) = has_prefix_sound (reverse s) (newline ∷ []) h in
    let whole : s ≡ reverse r ++ newline ∷ [] =
      sym (reverse-reverse s) ∙ (ap reverse e ∙ reverse-cons newline r) in
    rw (whole, ends_line-append (reverse r) newline []) (unfold ends_line in refl)

pub ends_line-with_newline : (s : Str) → ends_line (with_newline s) ≡ true
unfolding with_newline is_empty
ends_line-with_newline [] = unfold ends_line in refl
ends_line-with_newline (c ∷ s) = elim (Bool-cases (has_suffix (c ∷ s) (newline ∷ []))) [
  | inl e ↦ rw (with_newline, e) (ends_line-suffix (c ∷ s) e)
  | inr e ↦ rw (with_newline, e) (ends_line-append (c ∷ s) newline [] ∙ (unfold ends_line in refl))
]

-- The file up to the end of the block.
abbrev pub up_to_end : Str → Str → Str
up_to_end base block = base ++ (hosts_managed_begin ++ (newline ∷ block))

module _ (base block : Str) (lines : ends_line base ≡ true)
    (block_lines : ends_line (newline ∷ block) ≡ true)
    (no_begin : cut_at hosts_managed_begin base ≡ none)
    (no_end : cut_at hosts_managed_end (up_to_end base block) ≡ none) where
  abbrev tail : Str
  tail = hosts_managed_end ++ newline ∷ []

  abbrev spliced : Str
  spliced = base ++ (hosts_managed_begin ++ (newline ∷ (block ++ tail)))

  regroup : spliced ≡ up_to_end base block ++ tail
  regroup = sym (
      append_assoc base (hosts_managed_begin ++ (newline ∷ block)) tail
      ∙ ap (λ x. base ++ x) (append_assoc hosts_managed_begin (newline ∷ block) tail))

  found_begin :
      cut_at hosts_managed_begin spliced
      ≡ some (base, hosts_managed_begin ++ (newline ∷ (block ++ tail)))
  found_begin =
      cut_at-append base hosts_managed_begin (newline ∷ (block ++ tail)) lines
        (unfold contains_byte in refl) (unfold is_empty in refl) no_begin

  whole_lines : ends_line (up_to_end base block) ≡ true
  whole_lines =
      ap ends_line (sym (append_assoc base hosts_managed_begin (newline ∷ block)))
      ∙ (ends_line-append (base ++ hosts_managed_begin) newline block ∙ block_lines)

  found_end : cut_at hosts_managed_end spliced ≡ some (up_to_end base block, tail)
  found_end =
      ap (cut_at hosts_managed_end) regroup
      ∙ cut_at-append (up_to_end base block) hosts_managed_end (newline ∷ []) whole_lines
          (unfold contains_byte in refl) (unfold is_empty in refl) no_end

  not_before : ltb (length (up_to_end base block)) (length base) ≡ false
  not_before = ground (arith, length-append base (hosts_managed_begin ++ (newline ∷ block)))

  strip-spliced : strip_managed_hosts_block spliced ≡ base
  unfolding strip_managed_hosts_block next_line cut_byte
  strip-spliced =
      rw (strip_managed_hosts_block, found_begin, found_end, not_before) (append-nil base)

has_suffix-snoc : (s : Str) → has_suffix (s ++ newline ∷ []) (newline ∷ []) ≡ true
unfolding has_suffix has_prefix
has_suffix-snoc s = rw (has_suffix, reverse-append) refl

with_newline_done : (s : Str) → has_suffix s (newline ∷ []) ≡ true → with_newline s ≡ s
unfolding with_newline is_empty
with_newline_done [] e = refl
with_newline_done (c ∷ s) e = ground arith

with_newline_added :
    (c : ℕ) (s : Str)
    → has_suffix (c ∷ s) (newline ∷ []) ≡ false
    → with_newline (c ∷ s) ≡ (c ∷ s) ++ newline ∷ []
unfolding with_newline is_empty
with_newline_added c s e = ground arith

with_newline-twice : (s : Str) → with_newline (with_newline s) ≡ with_newline s
with_newline-twice [] = unfold with_newline is_empty in refl
with_newline-twice (c ∷ s) = elim (Bool-cases (has_suffix (c ∷ s) (newline ∷ []))) [
  | inl e ↦ ap with_newline (with_newline_done (c ∷ s) e)
  | inr e ↦
      let added = with_newline_added c s e in
      ap with_newline added
      ∙ (with_newline_done ((c ∷ s) ++ newline ∷ []) (has_suffix-snoc (c ∷ s)) ∙ sym added)
]

-- The rest of the file, which ends in a line break, and the block have no mark of their own.
pub record Unmarked (existing block : Str) : Type 0 where
  pub some_lines : (is_empty block ≡ false) × (ends_line block ≡ true)
  pub no_begin :
      cut_at hosts_managed_begin (with_newline (strip_managed_hosts_block existing)) ≡ none
  pub no_end :
      cut_at hosts_managed_end (up_to_end (with_newline (strip_managed_hosts_block existing)) block)
      ≡ none

line_break_first :
    (block : Str)
    → ends_line block ≡ true
    → is_empty block ≡ false
    → ends_line (newline ∷ block) ≡ true
unfolding ends_line is_empty
line_break_first [] e h = refl
line_break_first (c ∷ s) e h = e

-- Taking the block out of a file that it was spliced into gives the rest of the file back, with a
-- line break at its end; and splicing another block into it gives what splicing that one into the
-- first file gives. So updates leave the other lines alone, and neither pile up nor depend on the
-- blocks before, if neither the rest of the file nor the block holds one of the two marks.
pub splice_replaces :
    (existing block other : Str)
    → Unmarked existing block
    → is_empty other ≡ false
    → (strip_managed_hosts_block (compose_hosts_file existing block)
        ≡ with_newline (strip_managed_hosts_block existing))
      × (compose_hosts_file (compose_hosts_file existing block) other
          ≡ compose_hosts_file existing other)
unfolding compose_hosts_file strip_managed_hosts_block with_newline
splice_replaces existing block other u h =
    let base = with_newline (strip_managed_hosts_block existing) in
    let (full, lines) = u.some_lines in
    let first : strip_managed_hosts_block (compose_hosts_file existing block) ≡ base =
      rw (compose_hosts_file, full)
        (strip-spliced base block (ends_line-with_newline (strip_managed_hosts_block existing))
          (line_break_first block lines full) u.no_begin u.no_end) in
    (first, rw (compose_hosts_file, h, first, with_newline-twice) refl)
