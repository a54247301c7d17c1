-- ===== src/Api/Build/Stages.antt =====
-- internal/api/build.go: the stages of a Dockerfile, and which of them is built.
use lxc2docker.Prelude.{
  ℕ, suc, Bool, true, false, ◌&&◌, ◌||◌, List, [], ◌∷◌, ◌++◌, Option, none, some, if◌then◌else◌,
  is_empty, length,
}
use lxc2docker.Strings.{Str, codes, eq_str, equal_fold, has_prefix, trim_space, itoa}
use lxc2docker.Dict.{Dict, get}
use lxc2docker.Api.Build.Syntax.{DockerfileInstruction, split_shell_tokens}

pub record DockerfileStage : Type 0 where
  pub base_ref : Str
  pub name : Str
  pub instructions : List DockerfileInstruction

pub data BuildError : Type 0 where
  missing_base : ℕ → BuildError
  before_from : Str → ℕ → BuildError
  no_from no_stages target_not_found : BuildError

-- The tokens that are no flags; the value of `--platform` goes with it. `skip` is set for that value.
unfoldable pub without_flags : Bool → List Str → List Str
without_flags skip [] = []
without_flags true (t ∷ ts) = without_flags false ts
without_flags false (t ∷ ts) =
    let is_flag = has_prefix t (codes "--") in
    let rest = without_flags (is_flag && eq_str t (codes "--platform")) ts in
    if is_flag then rest else t ∷ rest

unfoldable pub stage_name : List Str → Str
stage_name (as_ ∷ name ∷ rest) = if equal_fold as_ (codes "AS") then name else []
stage_name _ = []

-- The base and the name; `none` without a base.
unfoldable pub parse_from_instruction : Str → Option (Str × Str)
parse_from_instruction args = elim (without_flags false (split_shell_tokens args)) [
  | [] ↦ none
  | base ∷ rest ↦ some (base, stage_name rest)
]

-- The stages that are complete, and the one at hand, if FROM was seen.
pub record Split : Type 0 where
  pub stages : List DockerfileStage
  pub current : Option DockerfileStage

unfoldable pub finished_stages : Split → List DockerfileStage
finished_stages s = elim s.current [ none ↦ s.stages | some st ↦ s.stages ++ st ∷ [] ]

pub data SplitResult : Type 0 where
  split_error : BuildError → SplitResult
  split_ok : Split → SplitResult

unfoldable pub split_step : Split → DockerfileInstruction → SplitResult
split_step s inst =
    if eq_str inst.op (codes "FROM")
    then elim (parse_from_instruction inst.args) [
      | none ↦ split_error (missing_base inst.line)
      | some (base, name) ↦ split_ok (record {
        stages = finished_stages s;
        current = some (record { base_ref = base; name = name; instructions = inst ∷ [] });
      })
    ]
    else elim s.current [
      | none ↦
          if eq_str inst.op (codes "ARG")
          then split_ok s
          else split_error (before_from inst.op inst.line)
      | some st ↦
          split_ok (record s {
            current = some (record st { instructions = st.instructions ++ inst ∷ [] });
          })
    ]

unfoldable pub split_loop : Split → List DockerfileInstruction → SplitResult
split_loop s [] = split_ok s
split_loop s (i ∷ is) = elim (split_step s i) [
  | split_error e ↦ split_error e
  | split_ok t ↦ split_loop t is
]

pub data StagesResult : Type 0 where
  stages_error : BuildError → StagesResult
  stages_ok : List DockerfileStage → StagesResult

unfoldable pub split_dockerfile_stages : List DockerfileInstruction → StagesResult
split_dockerfile_stages instrs = elim (split_loop (record { stages = []; current = none }) instrs) [
  | split_error e ↦ stages_error e
  | split_ok s ↦ elim (finished_stages s) [
    | [] ↦ stages_error no_from
    | st ∷ sts ↦ stages_ok (st ∷ sts)
  ]
]

unfoldable pub find_stage : Str → ℕ → List DockerfileStage → Option ℕ
find_stage target idx [] = none
find_stage target idx (st ∷ sts) =
    let later = find_stage target (suc idx) sts in
    if eq_str st.name target || eq_str (itoa idx) target then some idx else later

-- `none` is the error; the last stage has one stage fewer before it than there are.
unfoldable pub select_build_target : List DockerfileStage → Str → Option ℕ
select_build_target [] target = none
select_build_target (st ∷ sts) target =
    if is_empty (trim_space target) then some (length sts) else find_stage target 0 (st ∷ sts)

unfoldable pub resolve_stage_base_ref : Str → Dict Str → Str
resolve_stage_base_ref base refs = elim (get base refs) [ none ↦ base | some ref ↦ ref ]

unfoldable pub is_scratch_build_ref : Str → Bool
is_scratch_build_ref ref = equal_fold (trim_space ref) (codes "scratch")
