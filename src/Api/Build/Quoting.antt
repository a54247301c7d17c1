-- ===== src/Api/Build/Quoting.antt =====
-- Words that are quoted, and texts that are escaped, come back as they were.
use lxc2docker.Prelude.{
  ◌≡◌, refl, ap, ◌∙◌, true, false, List, [], ◌∷◌, ◌++◌, if◌then◌else◌, is_empty, ◌==◌, arith,
  append_assoc, append-nil, Bool-cases, inl, inr,
}
use lxc2docker.Strings.{Str, contains_byte}
use lxc2docker.Dict.{Dict}
use lxc2docker.Api.Build.Syntax.{close_token, token_byte, token_bytes, split_shell_tokens}
use lxc2docker.Api.Build.Variables.{
  begins_dollar, substitute_byte, substitute_from, substitute_build_args,
}

-- The words between double quotes, with spaces behind them.
unfoldable pub quoted : List Str → Str
quoted [] = []
quoted (w ∷ ws) = b'"' ∷ (w ++ b'"' ∷ b' ' ∷ quoted ws)

-- Words that are not empty and have no quote.
unfoldable pub Quotable : List Str → Type 0
Quotable [] = Unit
Quotable (w ∷ ws) = (is_empty w ≡ false) × (contains_byte b'"' w ≡ false) × Quotable ws

token_bytes-quoted :
    (ts : List Str) (cur w s : Str)
    → contains_byte b'"' w ≡ false
    → token_bytes (record { tokens = ts; cur = cur; in_quote = true }) (w ++ s)
      ≡ token_bytes (record { tokens = ts; cur = cur ++ w; in_quote = true }) s
unfolding token_bytes token_byte contains_byte
token_bytes-quoted ts cur [] s h = rw (append-nil cur) refl
token_bytes-quoted ts cur (c ∷ w) s h =
    let other : (c == b'"') ≡ false = ground arith in
    rw (token_bytes, other)
      (token_bytes-quoted ts (cur ++ c ∷ []) w s (ground arith)
        ∙ ap (λ x. token_bytes (record { tokens = ts; cur = x; in_quote = true }) s)
            (append_assoc cur (c ∷ []) w))

token_bytes-close :
    (ts : List Str) (w s : Str)
    → is_empty w ≡ false
    → token_bytes (record { tokens = ts; cur = w; in_quote = true }) (b'"' ∷ b' ' ∷ s)
      ≡ token_bytes (record { tokens = ts ++ w ∷ []; cur = []; in_quote = false }) s
unfolding token_bytes token_byte close_token is_empty
token_bytes-close ts [] s h = absurd (ground arith)
token_bytes-close ts (c ∷ w) s h = refl

token_bytes-words :
    (ts ws : List Str)
    → Quotable ws
    → token_bytes (record { tokens = ts; cur = []; in_quote = false }) (quoted ws)
      ≡ (record { tokens = ts ++ ws; cur = []; in_quote = false })
unfolding token_bytes token_byte quoted Quotable close_token
token_bytes-words ts [] q = rw (append-nil ts) refl
token_bytes-words ts (w ∷ ws) (some_word, no_quote, rest) =
    token_bytes-quoted ts [] w (b'"' ∷ b' ' ∷ quoted ws) no_quote
    ∙ (token_bytes-close ts w (quoted ws) some_word
        ∙ (token_bytes-words (ts ++ w ∷ []) ws rest
            ∙ ap (λ x. record { tokens = x; cur = []; in_quote = false })
                (append_assoc ts (w ∷ []) ws)))

-- Words in double quotes are the tokens of the line, whatever spaces, equals signs and other bytes
-- they hold, if none of them is empty or holds a double quote.
pub split_quoted : (ws : List Str) → Quotable ws → split_shell_tokens (quoted ws) ≡ ws
unfolding split_shell_tokens close_token is_empty
split_quoted ws q = rw (split_shell_tokens, token_bytes-words [] ws q) refl

-- A backslash before each `$`.
unfoldable pub escape_dollars : Str → Str
escape_dollars [] = []
escape_dollars (c ∷ s) =
    let rest = escape_dollars s in if c == b'$' then b'\\' ∷ b'$' ∷ rest else c ∷ rest

begins_dollar-escaped : (s : Str) → begins_dollar (escape_dollars s) ≡ false
unfolding begins_dollar escape_dollars
begins_dollar-escaped [] = refl
begins_dollar-escaped (c ∷ s) = elim (Bool-cases (c == b'$')) [
  | inl e ↦ rw (escape_dollars, e) refl
  | inr e ↦ rw (escape_dollars, e) e
]

substitute_from-escaped :
    (vars : Dict Str) (s : Str) → substitute_from vars 0 (escape_dollars s) ≡ s
unfolding substitute_from escape_dollars substitute_byte begins_dollar
substitute_from-escaped vars [] = refl
substitute_from-escaped vars (c ∷ s) = elim (Bool-cases (c == b'$')) [
  | inl e ↦
      let dollar : c ≡ b'$' = ground (arith, e) in
      rw (dollar) (ap (λ t. b'$' ∷ t) (substitute_from-escaped vars s))
  | inr e ↦
      let plain : substitute_byte vars c (escape_dollars s) ≡ (c ∷ [], 0) =
        ground (arith, begins_dollar-escaped s, e) in
      rw (escape_dollars, e)
        (rw (substitute_from, plain) (ap (λ t. c ∷ t) (substitute_from-escaped vars s)))
]

contains_byte-escaped : (s : Str) → contains_byte b'$' (escape_dollars s) ≡ contains_byte b'$' s
unfolding contains_byte escape_dollars
contains_byte-escaped [] = refl
contains_byte-escaped (c ∷ s) = elim (Bool-cases (c == b'$')) [
  | inl e ↦ rw (escape_dollars, e) refl
  | inr e ↦ rw (escape_dollars, e) (rw (contains_byte, e) (contains_byte-escaped s))
]

escaped_plain : (s : Str) → contains_byte b'$' s ≡ false → escape_dollars s ≡ s
unfolding contains_byte escape_dollars
escaped_plain [] h = refl
escaped_plain (c ∷ s) h = ground (arith, escaped_plain s)

-- Of a text whose dollar signs were escaped with a backslash each, whatever backslashes and
-- references it holds besides, the text itself is left: no variable is replaced in it, and the
-- backslash of each escape is dropped.
pub substitute_escaped :
    (s : Str) (vars : Dict Str) → substitute_build_args (escape_dollars s) vars ≡ s
unfolding substitute_build_args
substitute_escaped s vars = elim (Bool-cases (contains_byte b'$' s)) [
  | inl e ↦ rw (substitute_build_args, contains_byte-escaped s, e) (substitute_from-escaped vars s)
  | inr e ↦ rw (substitute_build_args, contains_byte-escaped s, e) (escaped_plain s e)
]
