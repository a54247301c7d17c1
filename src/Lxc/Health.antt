-- ===== src/Lxc/Health.antt =====
-- internal/lxc/manager.go: the health watcher. Running a probe (`Exec` under a timeout) is a parameter,
-- and so is what `State` answers; the emitter of events is there.
pub mod Verdict
pub mod Watch
pub mod Streak
mod Tests
use lxc2docker.Prelude.{
  ℕ, ◌-◌, Bool, true, false, not, ◌&&◌, ◌||◌, List, [], ◌∷◌, ◌++◌, Option, none, some,
  if◌then◌else◌, is_empty, length, take, drop, ltb, ◌==◌,
}
use lxc2docker.Prelude.Int.{ℤ, pos, negsuc, ◌+ℤ◌, ◌-ℤ◌, ltb_ℤ, leb_ℤ}
use lxc2docker.Strings.{Str, codes, eq_str}
use lxc2docker.Store.Records.{Time, HealthResult, ContainerRecord}
use lxc2docker.Store.State.{Store, SaveOutcome}
use lxc2docker.Store.Containers.{get_container, update_container, list_containers}

unfoldable pub truncate_output : Str → Str
truncate_output s = if ltb 4096 (length s) then take 4096 s else s

-- What to run; `none` where no probe is made. The caller sees to it that there is a test.
unfoldable pub probe_argv : List Str → Option (List Str)
probe_argv [] = none
probe_argv (form ∷ args) =
    if eq_str form (codes "CMD")
    then (if is_empty args then none else some args)
    else if eq_str form (codes "CMD-SHELL")
    then elim args [ [] ↦ none | command ∷ _ ↦ some (codes "/bin/sh" ∷ codes "-c" ∷ command ∷ []) ]
    else some (form ∷ args)

-- Docker's defaults take the place of what is not positive.
unfoldable pub positive_or : ℤ → ℤ → ℤ
positive_or n fallback = if leb_ℤ n (pos 0) then fallback else n

abbrev pub seconds_30 : ℤ
seconds_30 = pos 30000000000

unfoldable pub effective_retries : ContainerRecord → ℤ
unfolding positive_or
effective_retries rec = positive_or rec.healthcheck_retries (pos 3)

unfoldable pub succeeded : ℤ → Bool
succeeded (pos n) = n == 0
succeeded (negsuc n) = false

unfoldable pub in_start_period : Time → ContainerRecord → Bool
in_start_period end rec = elim rec.started_at [
  | none ↦ false
  | some t ↦
      ltb_ℤ (pos 0) rec.healthcheck_start_period && ltb_ℤ (end -ℤ t) rec.healthcheck_start_period
]

unfoldable pub keep_last_5 : List HealthResult → List HealthResult
keep_last_5 log = if ltb 5 (length log) then drop (length log - 5) log else log

-- The update that a probe makes to the record.
unfoldable pub record_probe : HealthResult → ContainerRecord → ContainerRecord
unfolding keep_last_5
record_probe result current =
    let logged = record current {
      health_last_check = some result.end;
      health_log = keep_last_5 (current.health_log ++ result ∷ []);
    } in
    let streak = current.health_failing_streak +ℤ pos 1 in
    if succeeded result.exit_code
    then record logged { health_failing_streak = pos 0; health_status = codes "healthy" }
    else if in_start_period result.end current
    then logged
    else if leb_ℤ (effective_retries current) streak
    then record logged { health_failing_streak = streak; health_status = codes "unhealthy" }
    else record logged { health_failing_streak = streak }

-- The update when the container does not run.
unfoldable pub reset_health : ContainerRecord → ContainerRecord
reset_health current = record current {
  health_status = codes "starting";
  health_failing_streak = pos 0;
}

unfoldable pub checked_lately : Time → ContainerRecord → Bool
checked_lately now rec = elim rec.health_last_check [
  | none ↦ false
  | some t ↦ ltb_ℤ (now -ℤ t) (positive_or rec.healthcheck_interval seconds_30)
]

-- No test, or the single word NONE.
unfoldable pub no_healthcheck : List Str → Bool
no_healthcheck [] = true
no_healthcheck (w ∷ []) = eq_str w (codes "NONE")
no_healthcheck (w ∷ v ∷ ws) = false

-- What a probe gives: its end, its exit code (-1 if it could not be run) and its output.
pub record ProbeRun : Type 0 where
  pub end : Time
  pub exit_code : ℤ
  pub output : Str

unfoldable pub result_of : Time → ProbeRun → HealthResult
unfolding truncate_output
result_of start run = record {
  start = start;
  end = run.end;
  exit_code = run.exit_code;
  output = truncate_output run.output;
}

-- The new status, if it is another one.
status_change : Str → Option ContainerRecord → Option ContainerRecord → List (Str × Str)
status_change id (some previous) (some updated) =
    if eq_str updated.health_status previous.health_status
    then []
    else (id, updated.health_status) ∷ []
status_change _ _ _ = []

module _ (exec : Str → List Str → ℤ → ProbeRun) (state : Str → Str)
    (saves : Str → SaveOutcome) where
  unfoldable pub run_one_healthcheck : ContainerRecord → Time → Store → Store × List (Str × Str)
  unfolding result_of status_change
  run_one_healthcheck rec start s = elim (probe_argv rec.healthcheck_test) [
    | none ↦ (s, [])
    | some argv ↦
        let run = exec rec.id argv (positive_or rec.healthcheck_timeout seconds_30) in
        let (s', updated, e) =
          update_container (saves rec.id) rec.id (record_probe (result_of start run)) s in
        (s', status_change rec.id (get_container rec.id s) updated)
  ]

  -- The body of the loop of `runDueHealthchecks`.
  unfoldable pub due_healthcheck : Time → ContainerRecord → Store → Store × List (Str × Str)
  unfolding run_one_healthcheck no_healthcheck checked_lately
  due_healthcheck now rec s =
      if no_healthcheck rec.healthcheck_test || eq_str (state rec.id) (codes "paused")
      then (s, [])
      else if not (eq_str (state rec.id) (codes "running"))
      then (if eq_str rec.health_status (codes "starting")
          then (s, [])
          else ((update_container (saves rec.id) rec.id reset_health s).0, []))
      else if checked_lately now rec
      then (s, [])
      else run_one_healthcheck rec now s

  unfoldable pub due_healthchecks : Time → List ContainerRecord → Store → Store × List (Str × Str)
  unfolding due_healthcheck
  due_healthchecks now [] s = (s, [])
  due_healthchecks now (rec ∷ recs) s =
      let (s', events) = due_healthcheck now rec s in
      let (s'', later) = due_healthchecks now recs s' in (s'', events ++ later)

  unfoldable pub run_due_healthchecks : Time → Store → Store × List (Str × Str)
  unfolding due_healthchecks
  run_due_healthchecks now s = due_healthchecks now (list_containers s) s
