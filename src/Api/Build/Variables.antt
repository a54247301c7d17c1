-- ===== src/Api/Build/Variables.antt =====
-- internal/api/build.go: the build arguments, and their substitution in a text.
use lxc2docker.Prelude.{
  ℕ, zero, suc, ◌+◌, Bool, false, not, ◌&&◌, ◌||◌, List, [], ◌∷◌, ◌++◌, none, some, if◌then◌else◌,
  is_empty, length, drop, leb, ◌==◌,
}
use lxc2docker.Strings.{Str, codes, eq_str, contains_byte, cut_byte, cut_at, trim_space}
use lxc2docker.Dict.{Dict, get, set, has}
use lxc2docker.Api.Build.Syntax.{DockerfileInstruction, trim_quotes}

is_alpha_num : ℕ → Bool
is_alpha_num c =
    (leb b'a' c && leb c b'z') || ((leb b'A' c && leb c b'Z') || (leb b'0' c && leb c b'9'))

unfoldable pub value_of : Str → Dict Str → Str
value_of name vars = elim (get name vars) [ none ↦ [] | some v ↦ v ]

-- The text of a reference: a name, a name with a default, or a name with an alternative.
unfoldable pub expand_build_arg_ident : Str → Dict Str → Str
expand_build_arg_ident ident vars = elim (cut_at (codes ":-") ident) [
  | some (name, rest) ↦ let v = value_of name vars in if is_empty v then drop 2 rest else v
  | none ↦ elim (cut_at (codes ":+") ident) [
    | some (name, rest) ↦ if is_empty (value_of name vars) then [] else drop 2 rest
    | none ↦ value_of ident vars
  ]
]

-- The name that a text begins with.
unfoldable pub leading_ident : Str → Str
unfolding is_alpha_num
leading_ident [] = []
leading_ident (c ∷ s) =
    let rest = leading_ident s in if is_alpha_num c || c == b'_' then c ∷ rest else []

-- The identifier behind a `$`, and how many bytes of the text it takes.
unfoldable pub reference : Str → Str × ℕ
reference [] = ([], 0)
reference (c ∷ s) =
    if c == b'{'
    then elim (cut_byte b'}' s) [ none ↦ ([], 0) | some (ident, rest) ↦ (ident, length ident + 2) ]
    else let ident = leading_ident (c ∷ s) in (ident, length ident)

unfoldable pub begins_dollar : Str → Bool
begins_dollar [] = false
begins_dollar (d ∷ t) = d == b'$'

-- What is written for the byte at hand, and how many of the following ones are passed over.
unfoldable pub substitute_byte : Dict Str → ℕ → Str → Str × ℕ
substitute_byte vars c s =
    let (ident, consumed) = reference s in
    if c == b'\\' && begins_dollar s
    then (b'$' ∷ [], 1)
    else if not (c == b'$')
    then (c ∷ [], 0)
    else if is_empty ident
    then (b'$' ∷ [], 0)
    else (expand_build_arg_ident ident vars, consumed)

-- The loop; the number is of bytes that still belong to what was replaced.
unfoldable pub substitute_from : Dict Str → ℕ → Str → Str
substitute_from vars skip [] = []
substitute_from vars (suc k) (c ∷ s) = substitute_from vars k s
substitute_from vars zero (c ∷ s) =
    let (text, skip) = substitute_byte vars c s in text ++ substitute_from vars skip s

unfoldable pub substitute_build_args : Str → Dict Str → Str
substitute_build_args s vars =
    let text = substitute_from vars 0 s in if not (contains_byte b'$' s) then s else text

-- The declarations of the file, with their defaults.
unfoldable pub declare_arg : Dict Str → DockerfileInstruction → Dict Str
declare_arg vars inst =
    if not (eq_str inst.op (codes "ARG"))
    then vars
    else elim (cut_byte b'=' (trim_space inst.args)) [
      | some (name, def) ↦
          let n = trim_space name in
          if is_empty n then vars else set n (trim_quotes (trim_space def)) vars
      | none ↦
          let n = trim_space (trim_space inst.args) in
          if is_empty n || has n vars then vars else set n [] vars
    ]

unfoldable pub declared_args : Dict Str → List DockerfileInstruction → Dict Str
declared_args vars [] = vars
declared_args vars (i ∷ is) = declared_args (declare_arg vars i) is

unfoldable pub overlay : Dict Str → Dict Str → Dict Str
overlay vars [] = vars
overlay vars ((k, v) ∷ rest) = overlay (set k v vars) rest

-- The instructions with their references replaced.
unfoldable pub substitute_all : Dict Str → List DockerfileInstruction → List DockerfileInstruction
substitute_all vars [] = []
substitute_all vars (i ∷ is) =
    (if eq_str i.op (codes "ARG") then i else record i { args = substitute_build_args i.args vars })
    ∷ substitute_all vars is

unfoldable pub expand_instructions :
    Dict Str → List DockerfileInstruction → List DockerfileInstruction
expand_instructions build_args instrs =
    substitute_all (overlay (declared_args [] instrs) build_args) instrs
