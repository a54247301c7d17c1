-- ===== src/Api/Build/Tests.antt =====
-- A Dockerfile with two stages, quoted labels, and the working directory of a build.
use lxc2docker.Prelude.{
  ℕ, ◌≡◌, refl, true, [], ◌∷◌, ◌++◌, List, Option, none, some, is_empty, any, String,
}
use lxc2docker.Strings.{Str, codes, eq_str, contains_byte, has_prefix, to_lower, equal_fold}
use lxc2docker.Api.Build.Syntax.{
  DockerfileInstruction, close_token, token_byte, token_bytes, split_shell_tokens,
}
use lxc2docker.Api.Build.Variables.{substitute_build_args}
use lxc2docker.Api.Build.Stages.{
  DockerfileStage, without_flags, stage_name, parse_from_instruction, finished_stages, split_step,
  split_loop, stages_ok, split_dockerfile_stages,
}
use lxc2docker.Api.Build.Evaluate.{
  Libraries, resolve_container_path, evaluate_instruction, evaluate_instructions, initial_state,
  evaluate_build_stage,
}
use lxc2docker.Api.Build.Run.{
  BuildCall, make_dir, run_failed, run_ok, run_instruction, run_instructions, run_stage, RunResult,
}
use lxc2docker.Api.Build.Quoting.{
  quoted, Quotable, split_quoted, escape_dollars, substitute_escaped,
}
use lxc2docker.Api.Build.Reading.{only_args, all_instructions, AllStages}
use lxc2docker.Api.Build.Partition.{stages_partition}

abbrev labels : List Str
labels = codes "desc=hello world" ∷ codes "name=x" ∷ []

split_quoted_example : split_shell_tokens (quoted labels) ≡ labels
split_quoted_example =
    split_quoted labels (unfold Quotable is_empty contains_byte in (refl, refl, (refl, refl, tt)))

substitute_escaped_example :
    substitute_build_args (escape_dollars (codes "a$HOME\\$b")) [] ≡ codes "a$HOME\\$b"
substitute_escaped_example = substitute_escaped (codes "a$HOME\\$b") []

abbrev inst : String → String → ℕ → DockerfileInstruction
inst op args line = record { op = codes op; args = codes args; line = line }

abbrev two_stages : List DockerfileInstruction
two_stages =
    inst "ARG" "v=1" 1
    ∷ inst "FROM" "golang AS build" 2
    ∷ inst "RUN" "make" 3
    ∷ inst "FROM" "scratch" 4
    ∷ inst "COPY" "--from=build /a /a" 5
    ∷ []

abbrev stages : List DockerfileStage
stages =
    (record {
      base_ref = codes "golang";
      name = codes "build";
      instructions = inst "FROM" "golang AS build" 2 ∷ inst "RUN" "make" 3 ∷ [];
    })
    ∷ (record {
      base_ref = codes "scratch";
      name = [];
      instructions = inst "FROM" "scratch" 4 ∷ inst "COPY" "--from=build /a /a" 5 ∷ [];
    })
    ∷ []

split_two : split_dockerfile_stages two_stages ≡ stages_ok stages
unfolding split_dockerfile_stages split_loop split_step finished_stages parse_from_instruction
    without_flags stage_name split_shell_tokens token_bytes token_byte close_token eq_str has_prefix
    equal_fold to_lower is_empty
split_two = refl

stages_partition_example :
    (args : List DockerfileInstruction) × (only_args args ≡ true)
    × (two_stages ≡ args ++ all_instructions stages)
    × AllStages stages
stages_partition_example = stages_partition two_stages stages split_two

-- A working directory that is relative is resolved twice: by the evaluation, and by the steps that
-- begin where the evaluation has ended.
abbrev plain_libraries : Libraries
plain_libraries = record {
  decode_strings = λ s. none;
  parse_duration = λ s. none;
  clean = λ s. s;
  join_path = λ a b. if_root a b;
  quote = λ s. s;
}
  where
    if_root : Str → Str → Str
    if_root (c ∷ []) b = c ∷ b
    if_root a b = a ++ b'/' ∷ b

abbrev app : DockerfileStage
app = record {
  base_ref = codes "alpine";
  name = [];
  instructions = inst "FROM" "alpine" 1 ∷ inst "WORKDIR" "app" 2 ∷ [];
}

calls_of : Option RunResult → List BuildCall
calls_of none = []
calls_of (some (run_failed calls e)) = calls
calls_of (some (run_ok r)) = r.calls

made_twice :
    calls_of (run_stage plain_libraries [] (λ c. true) app [] []) ≡ make_dir (codes "/app/app") ∷ []
unfolding calls_of run_stage run_instructions run_instruction evaluate_build_stage
    evaluate_instructions evaluate_instruction initial_state resolve_container_path eq_str
    has_prefix is_empty any
made_twice = refl
