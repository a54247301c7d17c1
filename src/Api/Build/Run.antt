-- ===== src/Api/Build/Run.antt =====
-- internal/api/build.go: the steps of a stage as they are carried out, and the tags of a build.
use lxc2docker.Prelude.{
  ℕ, Bool, ◌||◌, List, [], ◌∷◌, ◌++◌, Option, none, some, if◌then◌else◌, is_empty, any,
}
use lxc2docker.Strings.{Str, codes, eq_str, split_byte, trim_space, fields}
use lxc2docker.Dict.{Dict, set}
use lxc2docker.Api.Env.{merge_env}
use lxc2docker.Api.Build.Syntax.{DockerfileInstruction}
use lxc2docker.Api.Build.Stages.{DockerfileStage}
use lxc2docker.Api.Build.Evaluate.{
  BuildState, Libraries, parse_env_instruction, parse_command_instruction, resolve_container_path,
  run_shell, build_run_argv, evaluate_build_stage,
}

-- What is done to the builder: a directory of its root made, files copied to a working directory,
-- and a command run with an environment.
pub data BuildCall : Type 0 where
  make_dir : Str → BuildCall
  copy_files : Str → Str → BuildCall
  exec_as : List Str → List Str → BuildCall

pub data RunError : Type 0 where
  call_failed : BuildCall → RunError
  unsupported : Str → ℕ → RunError

pub record Run : Type 0 where
  pub state : BuildState
  pub user : Str
  pub calls : List BuildCall

pub data RunResult : Type 0 where
  run_failed : List BuildCall → RunError → RunResult
  run_ok : Run → RunResult

-- The instructions that have done their work when the stage was evaluated.
abbrev settled_ops : List Str
settled_ops =
    codes "FROM"
    ∷ codes "LABEL"
    ∷ codes "ARG"
    ∷ codes "STOPSIGNAL"
    ∷ codes "HEALTHCHECK"
    ∷ codes "VOLUME"
    ∷ codes "SHELL"
    ∷ []

-- `os_env` is the environment of the daemon, and `succeeds` whether a call succeeds.
module _ (lib : Libraries) (os_env : List Str) (succeeds : BuildCall → Bool) where
  after_call : Run → BuildCall → BuildState → RunResult
  after_call r call st =
      let calls = r.calls ++ call ∷ [] in
      if succeeds call
      then run_ok (record { state = st; user = r.user; calls = calls })
      else run_failed calls (call_failed call)

  run_script : BuildState → Str → Str
  run_script st args =
      if is_empty st.workdir
      then args
      else codes "mkdir -p "
        ++ (lib.quote st.workdir
            ++ (codes " && cd " ++ (lib.quote st.workdir ++ (codes " && " ++ args))))

  unfoldable pub run_instruction : Run → DockerfileInstruction → RunResult
  unfolding after_call run_script
  run_instruction r inst =
      let is : Str → Bool = λ op. eq_str inst.op op in
      let st = r.state in
      let dst = resolve_container_path lib st.workdir inst.args in
      if is (codes "USER")
      then run_ok (record r { user = trim_space inst.args })
      else if any is settled_ops
      then run_ok r
      else if is (codes "WORKDIR")
      then after_call r (make_dir dst) (record st { workdir = dst })
      else if is (codes "ENV")
      then run_ok (record r {
        state = record st { env = merge_env st.env (parse_env_instruction inst.args) };
      })
      else if is (codes "COPY") || is (codes "ADD")
      then after_call r (copy_files st.workdir inst.args) st
      else if is (codes "RUN")
      then after_call r
          (exec_as (build_run_argv (run_shell st.shell) r.user (run_script st inst.args))
            (merge_env os_env st.env))
          st
      else if is (codes "CMD")
      then run_ok (record r { state = record st { cmd = parse_command_instruction lib inst.args } })
      else if is (codes "ENTRYPOINT")
      then run_ok
          (record r { state = record st { entrypoint = parse_command_instruction lib inst.args } })
      else if is (codes "EXPOSE")
      then run_ok (record r { state = record st { exposed = st.exposed ++ fields inst.args } })
      else run_failed r.calls (unsupported inst.op inst.line)

  unfoldable pub run_instructions : Run → List DockerfileInstruction → RunResult
  run_instructions r [] = run_ok r
  run_instructions r (i ∷ is) = elim (run_instruction r i) [
    | run_failed calls e ↦ run_failed calls e
    | run_ok r' ↦ run_instructions r' is
  ]

  query_labels : Dict Str → Dict Str → Dict Str
  query_labels labels [] = labels
  query_labels labels ((k, v) ∷ rest) = query_labels (set k v labels) rest

  -- A stage, from its evaluation to its last step; `none` is an error of the evaluation.
  unfoldable pub run_stage : DockerfileStage → List Str → Dict Str → Option RunResult
  unfolding query_labels
  run_stage stage base_env labels = elim (evaluate_build_stage lib stage base_env) [
    | none ↦ none
    | some st ↦
        let state = record st { labels = query_labels st.labels labels } in
        some (run_instructions (record { state = state; user = []; calls = [] }) stage.instructions)
  ]

-- The tags that are not empty, each once, in order.
unfoldable pub collect_tags : List Str → List Str → List Str
collect_tags out [] = out
collect_tags out (t ∷ ts) =
    let tag = trim_space t in
    collect_tags (if is_empty tag || any (eq_str tag) out then out else out ++ tag ∷ []) ts

unfoldable pub collect_build_tags : List Str → List Str → List Str
collect_build_tags out [] = out
collect_build_tags out (v ∷ vs) = collect_build_tags (collect_tags out (split_byte b',' v)) vs
