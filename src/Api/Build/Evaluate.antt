-- ===== src/Api/Build/Evaluate.antt =====
-- internal/api/build.go: the configuration that a stage gives its image, and the steps that are run.
-- The JSON decoder, `time.ParseDuration`, `filepath.Clean`, `filepath.Join` and the quotation `%q` are
-- parameters.
use lxc2docker.Prelude.{
  ℕ, zero, suc, Bool, not, ◌&&◌, ◌||◌, List, [], ◌∷◌, ◌++◌, Option, none, some, if◌then◌else◌,
  is_empty, length, drop, any, ◌==◌,
}
use lxc2docker.Prelude.Int.{ℤ, pos}
use lxc2docker.Strings.{
  Str, codes, eq_str, equal_fold, has_prefix, has_suffix, contains_byte, cut_byte, join, to_upper,
  trim_space, fields, atoi,
}
use lxc2docker.Dict.{Dict, set}
use lxc2docker.Store.Records.{HealthcheckConfig}
use lxc2docker.Api.Env.{merge_env, oci_default_path}
use lxc2docker.Api.Build.Syntax.{DockerfileInstruction, split_shell_tokens, parse_label_instruction}
use lxc2docker.Api.Build.Stages.{DockerfileStage}

pub record BuildState : Type 0 where
  pub base_ref : Str
  pub workdir : Str
  pub env : List Str
  pub cmd : List Str
  pub entrypoint : List Str
  pub exposed : List Str
  pub labels : Dict Str
  pub user : Str
  pub stop_signal : Str
  pub healthcheck : Option HealthcheckConfig
  pub volumes : List Str
  pub shell : List Str

with_equals : List Str → List Str
with_equals [] = []
with_equals (f ∷ fs) = let rest = with_equals fs in if contains_byte b'=' f then f ∷ rest else rest

env_words : Str → List Str → List Str
unfolding with_equals
env_words args [] = []
env_words args (f ∷ []) = if contains_byte b'=' args then with_equals (f ∷ []) else []
env_words args (f ∷ g ∷ fs) =
    let listed = with_equals (f ∷ g ∷ fs) in
    if not (contains_byte b'=' f)
    then (f ++ b'=' ∷ join (codes " ") (g ∷ fs)) ∷ []
    else if contains_byte b'=' args
    then listed
    else []

unfoldable pub parse_env_instruction : Str → List Str
unfolding env_words
parse_env_instruction args = env_words args (fields args)

unfoldable pub run_shell : List Str → List Str
run_shell [] = codes "/bin/sh" ∷ codes "-lc" ∷ []
run_shell (shell ∷ flags) =
    if any (λ a. eq_str a (codes "-c") || eq_str a (codes "-lc")) flags
    then shell ∷ flags
    else (shell ∷ flags) ++ codes "-c" ∷ []

unfoldable pub build_run_argv : List Str → Str → Str → List Str
build_run_argv [] user script = script ∷ []
build_run_argv (shell ∷ flags) user script =
    if not (is_empty (trim_space user))
    then codes "su" ∷ codes "-s" ∷ shell ∷ codes "-c" ∷ script ∷ user ∷ []
    else (shell ∷ flags) ++ script ∷ []

-- The text before and behind the first space or tabulator.
cut_blank : Str → Option (Str × Str)
cut_blank [] = none
cut_blank (c ∷ s) =
    let rest = cut_blank s in
    if c == b' ' || c == 9
    then some ([], s)
    else elim rest [ none ↦ none | some (k, v) ↦ some (c ∷ k, v) ]

empty_healthcheck : HealthcheckConfig
empty_healthcheck = record {
  test = [];
  interval = pos 0;
  timeout = pos 0;
  start_period = pos 0;
  retries = pos 0;
}

-- What the program asks of its libraries.
pub record Libraries : Type 0 where
  pub decode_strings : Str → Option (List Str)
  pub parse_duration : Str → Option ℤ
  pub clean : Str → Str
  pub join_path : Str → Str → Str
  pub quote : Str → Str

module _ (lib : Libraries) where
  unfoldable pub parse_command_instruction : Str → List Str
  parse_command_instruction args =
      let text = trim_space args in
      let shell = if is_empty text then [] else codes "/bin/sh" ∷ codes "-lc" ∷ text ∷ [] in
      if has_prefix text (codes "[") && has_suffix text (codes "]")
      then (elim (lib.decode_strings text) [ none ↦ shell | some out ↦ out ])
      else shell

  unfoldable pub parse_volume_instruction : Str → List Str
  parse_volume_instruction args =
      let text = trim_space args in
      if has_prefix text (codes "[")
      then parse_command_instruction text
      else split_shell_tokens text

  set_duration : Str → (ℤ → HealthcheckConfig) → Option HealthcheckConfig
  set_duration v update = elim (lib.parse_duration v) [ none ↦ none | some d ↦ some (update d) ]

  -- One option; `none` is an error.
  healthcheck_option : Str → Str → HealthcheckConfig → Option HealthcheckConfig
  unfolding set_duration
  healthcheck_option k v out =
      if eq_str k (codes "--interval")
      then set_duration v (λ d. record out { interval = d })
      else if eq_str k (codes "--timeout")
      then set_duration v (λ d. record out { timeout = d })
      else if eq_str k (codes "--start-period")
      then set_duration v (λ d. record out { start_period = d })
      else if eq_str k (codes "--retries")
      then (elim (atoi v) [ none ↦ none | some n ↦ some (record out { retries = n }) ])
      else none

  -- The options, and the text behind them. Each one takes two bytes at least, so the length of the
  -- text is fuel enough.
  healthcheck_options : ℕ → Str → HealthcheckConfig → Option (HealthcheckConfig × Str)
  unfolding healthcheck_option cut_blank
  healthcheck_options zero raw out = some (out, raw)
  healthcheck_options (suc fuel) raw out =
      if not (has_prefix raw (codes "--")) then some (out, raw) else elim (cut_blank raw) [
        | none ↦ none
        | some (opt, rest) ↦ elim (cut_byte b'=' opt) [
          | none ↦ none
          | some (k, v) ↦ elim (healthcheck_option k v out) [
            | none ↦ none
            | some out' ↦ healthcheck_options fuel (trim_space rest) out'
          ]
        ]
      ]

  healthcheck_command : HealthcheckConfig × Str → Option HealthcheckConfig
  healthcheck_command (out, raw) =
      let args = trim_space (drop 3 raw) in
      if not (has_prefix (to_upper raw) (codes "CMD"))
      then none
      else if has_prefix args (codes "[")
      then some (record out { test = codes "CMD" ∷ parse_command_instruction args })
      else some (record out { test = codes "CMD-SHELL" ∷ args ∷ [] })

  unfoldable pub parse_healthcheck_instruction : Str → Option HealthcheckConfig
  unfolding healthcheck_options healthcheck_command empty_healthcheck
  parse_healthcheck_instruction args =
      let raw = trim_space args in
      if equal_fold raw (codes "NONE")
      then some (record empty_healthcheck { test = codes "NONE" ∷ [] })
      else elim (healthcheck_options (length raw) raw empty_healthcheck) [
        | none ↦ none
        | some parsed ↦ healthcheck_command parsed
      ]

  unfoldable pub resolve_container_path : Str → Str → Str
  resolve_container_path workdir path =
      if is_empty path
      then workdir
      else if has_prefix path (codes "/")
      then lib.clean path
      else lib.clean (lib.join_path (if is_empty workdir then codes "/" else workdir) path)

  add_labels : Dict Str → Dict Str → Dict Str
  add_labels labels [] = labels
  add_labels labels ((k, v) ∷ rest) = add_labels (set k v labels) rest

  -- One instruction of `evaluateBuildStage`; `none` is the error of a health check.
  unfoldable pub evaluate_instruction : BuildState → DockerfileInstruction → Option BuildState
  unfolding add_labels
  evaluate_instruction st inst =
      let is : Str → Bool = λ op. eq_str inst.op op in
      if is (codes "WORKDIR")
      then some (record st { workdir = resolve_container_path st.workdir inst.args })
      else if is (codes "ENV")
      then some (record st { env = merge_env st.env (parse_env_instruction inst.args) })
      else if is (codes "CMD")
      then some (record st { cmd = parse_command_instruction inst.args })
      else if is (codes "ENTRYPOINT")
      then some (record st { entrypoint = parse_command_instruction inst.args })
      else if is (codes "EXPOSE")
      then some (record st { exposed = st.exposed ++ fields inst.args })
      else if is (codes "LABEL")
      then some (record st { labels = add_labels st.labels (parse_label_instruction inst.args) })
      else if is (codes "USER")
      then some (record st { user = trim_space inst.args })
      else if is (codes "STOPSIGNAL")
      then some (record st { stop_signal = trim_space inst.args })
      else if is (codes "HEALTHCHECK")
      then (elim (parse_healthcheck_instruction inst.args) [
        | none ↦ none
        | some hc ↦ some (record st { healthcheck = some hc })
      ])
      else if is (codes "VOLUME")
      then some (record st { volumes = st.volumes ++ parse_volume_instruction inst.args })
      else if is (codes "SHELL")
      then some (record st { shell = parse_command_instruction inst.args })
      else some st

  unfoldable pub evaluate_instructions : BuildState → List DockerfileInstruction → Option BuildState
  evaluate_instructions st [] = some st
  evaluate_instructions st (i ∷ is) = elim (evaluate_instruction st i) [
    | none ↦ none
    | some st' ↦ evaluate_instructions st' is
  ]

  unfoldable pub initial_state : DockerfileStage → List Str → BuildState
  initial_state stage base_env = record {
    base_ref = stage.base_ref;
    workdir = codes "/";
    env = if is_empty base_env then oci_default_path ∷ [] else base_env;
    cmd = [];
    entrypoint = [];
    exposed = [];
    labels = [];
    user = [];
    stop_signal = [];
    healthcheck = none;
    volumes = [];
    shell = [];
  }

  unfoldable pub evaluate_build_stage : DockerfileStage → List Str → Option BuildState
  evaluate_build_stage stage base_env =
      elim (evaluate_instructions (initial_state stage base_env) stage.instructions) [
        | none ↦ none
        | some st ↦ if is_empty st.base_ref then none else some st
      ]
