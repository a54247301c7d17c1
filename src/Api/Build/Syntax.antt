-- ===== src/Api/Build/Syntax.antt =====
-- internal/api/build.go: the instructions of a Dockerfile and their words.
use lxc2docker.Prelude.{
  ℕ, ◌+◌, Bool, false, not, ◌&&◌, ◌||◌, List, [], ◌∷◌, ◌++◌, none, some, if◌then◌else◌, is_empty,
  length, drop, ◌==◌,
}
use lxc2docker.Strings.{
  Str, codes, has_prefix, has_suffix, trim_suffix, contains_byte, cut_byte, split_byte, to_upper,
  trim_left, trim_right, trim_space, fields,
}
use lxc2docker.Dict.{Dict, set}

pub record DockerfileInstruction : Type 0 where
  pub op : Str
  pub args : Str
  pub line : ℕ

-- The lines of `bufio.Scanner`: nothing follows the last line break, and a carriage return before a
-- line break is dropped.
without_last_empty : List Str → List Str
without_last_empty [] = []
without_last_empty ([] ∷ []) = []
without_last_empty ((c ∷ s) ∷ []) = (c ∷ s) ∷ []
without_last_empty (l ∷ m ∷ ls) = l ∷ without_last_empty (m ∷ ls)

without_returns : List Str → List Str
without_returns [] = []
without_returns (l ∷ ls) = trim_suffix l (13 ∷ []) ∷ without_returns ls

unfoldable pub scan_lines : Str → List Str
unfolding without_last_empty without_returns
scan_lines text = without_returns (without_last_empty (split_byte 10 text))

-- What the scan has read so far.
pub record Parser : Type 0 where
  pub current : Str
  pub start_line : ℕ
  pub line_no : ℕ
  pub out : List DockerfileInstruction

unfoldable pub flush : Parser → Parser
flush p =
    let line = trim_space p.current in
    let done = record p { current = [] } in
    if is_empty line || has_prefix line (codes "#") then done else elim (fields line) [
      | [] ↦ done
      | first ∷ rest ↦
          let inst : DockerfileInstruction = record {
            op = to_upper first;
            args = trim_space (drop (length first) line);
            line = p.start_line;
          } in
          record done { out = p.out ++ inst ∷ [] }
    ]

unfoldable pub parse_line : Parser → Str → Parser
parse_line p line =
    let n = p.line_no + 1 in
    let q : Parser = record {
      current = p.current;
      start_line = if is_empty p.current then n else p.start_line;
      line_no = n;
      out = p.out;
    } in
    if has_suffix line (codes "\\")
    then record q { current = p.current ++ (trim_suffix line (codes "\\") ++ codes " ") }
    else flush (record q { current = p.current ++ line })

unfoldable pub parse_lines : Parser → List Str → Parser
parse_lines p [] = p
parse_lines p (l ∷ ls) = parse_lines (parse_line p l) ls

unfoldable pub parse_dockerfile : Str → List DockerfileInstruction
parse_dockerfile contents =
    let start : Parser = record { current = []; start_line = 0; line_no = 0; out = [] } in
    let p = parse_lines start (scan_lines contents) in
    (if is_empty (trim_space p.current) then p else flush p).out

-- The tokens so far, the one that is being read, and whether a quote is open.
pub record Tokens : Type 0 where
  pub tokens : List Str
  pub cur : Str
  pub in_quote : Bool

unfoldable pub close_token : Tokens → Tokens
close_token t = if is_empty t.cur then t else record t { tokens = t.tokens ++ t.cur ∷ []; cur = [] }

unfoldable pub token_byte : Tokens → ℕ → Tokens
token_byte t c =
    if c == b'"'
    then record t { in_quote = not t.in_quote }
    else if not t.in_quote && (c == b' ' || c == 9)
    then close_token t
    else record t { cur = t.cur ++ c ∷ [] }

unfoldable pub token_bytes : Tokens → Str → Tokens
token_bytes t [] = t
token_bytes t (c ∷ s) = token_bytes (token_byte t c) s

unfoldable pub split_shell_tokens : Str → List Str
split_shell_tokens s =
    (close_token (token_bytes (record { tokens = []; cur = []; in_quote = false }) s)).tokens

is_quote : ℕ → Bool
is_quote c = c == b'"'

unfoldable pub trim_quotes : Str → Str
unfolding is_quote
trim_quotes s = trim_right is_quote (trim_left is_quote s)

label_pairs : List Str → Dict Str → Dict Str
label_pairs [] out = out
label_pairs (t ∷ ts) out = elim (cut_byte b'=' t) [
  | none ↦ label_pairs ts out
  | some (k, v) ↦ label_pairs ts (set k (trim_quotes v) out)
]

-- Two tokens without `=` in the first are a key and its value.
unfoldable pub label_tokens : List Str → Dict Str
unfolding label_pairs
label_tokens (k ∷ v ∷ []) =
    let pairs = label_pairs (k ∷ v ∷ []) [] in
    if not (contains_byte b'=' k) then (k, v) ∷ [] else pairs
label_tokens ts = label_pairs ts []

unfoldable pub parse_label_instruction : Str → Dict Str
parse_label_instruction args = label_tokens (split_shell_tokens args)
