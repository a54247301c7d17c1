-- ===== src/Lxc/Health/Tests.antt =====
-- The health watcher at a concrete container.
use lxc2docker.Prelude.{
  ◌≡◌, ◌↔◌, refl, true, List, [], ◌∷◌, some, none, arith, inl, inr, length, Bool-cases,
}
use mathlib.Core.Path.{subst}
use lxc2docker.Prelude.Int.{pos, leb_ℤ, ◌+ℤ◌}
use lxc2docker.Strings.{codes, eq_str}
use lxc2docker.Dict.{get, values}
use lxc2docker.Store.Records.{Time, ContainerRecord}
use lxc2docker.Store.Samples.{blank_container}
use lxc2docker.Store.State.{Store, saved, fresh_state}
use lxc2docker.Store.Containers.{get_container, list_containers}
use lxc2docker.Lxc.Health.{
  ProbeRun, run_due_healthchecks, effective_retries, positive_or, succeeded, in_start_period,
  due_healthcheck, due_healthchecks, no_healthcheck, record_probe, result_of, truncate_output,
}
use lxc2docker.Lxc.Health.Verdict.{HealthOk}
use lxc2docker.Lxc.Health.Watch.{AllHealthOk, tick-AllHealthOk}
use lxc2docker.Lxc.Health.Streak.{probe_row, unhealthy_after}

abbrev probed : ContainerRecord
probed = record blank_container {
  id = codes "abc123";
  healthcheck_test = codes "CMD" ∷ codes "true" ∷ [];
  health_status = codes "starting";
  started_at = some (pos 0);
}

probed-HealthOk : HealthOk probed
unfolding effective_retries positive_or
probed-HealthOk = record {
  streak = (0, refl);
  verdict = ground arith;
  few = omega arith;
  short = λ r i. absurd i;
}

abbrev one_probed : Store
one_probed = record {
  state = record fresh_state { containers = (codes "abc123", probed) ∷ [] };
  files = record { state_json = none; temp = none };
}

all_well : AllHealthOk one_probed
unfolding get_container get
all_well id rec h = elim (Bool-cases (eq_str (codes "abc123") id)) [
  | inl e ↦
      let same : probed ≡ rec = cc (rw (get_container, get, e) at h) in
      subst HealthOk same probed-HealthOk
  | inr e ↦ absurd (cc (rw (get_container, get, e) at h))
]

failure : ProbeRun
failure = record { end = pos 9; exit_code = pos 1; output = codes "connection refused" }

tick-AllHealthOk_example :
    AllHealthOk
      (run_due_healthchecks
        (λ id argv timeout. failure)
        (λ id. codes "running")
        (λ id. saved)
        (pos 8)
        one_probed).0
tick-AllHealthOk_example =
    tick-AllHealthOk (λ id argv timeout. failure) (λ id. codes "running") (λ id. saved) (pos 8)
      one_probed all_well

abbrev three_failures : List (Time × ProbeRun)
three_failures = (pos 1, failure) ∷ (pos 2, failure) ∷ (pos 3, failure) ∷ []

unhealthy_after_example :
    ((probe_row three_failures probed).health_status ≡ codes "unhealthy")
    ↔ (leb_ℤ (effective_retries probed) (pos (length three_failures)) ≡ true)
unfolding succeeded failure in_start_period
unhealthy_after_example =
    unhealthy_after three_failures probed probed-HealthOk refl
      (refl, refl, (refl, refl, (refl, refl, tt)))

-- A container that failed twice in its first run, and is stopped.
abbrev failed_twice : ContainerRecord
failed_twice = record probed { health_failing_streak = pos 2 }

abbrev one_failed : Store
one_failed = record one_probed {
  state = record fresh_state { containers = (codes "abc123", failed_twice) ∷ [] };
}

-- The tick while it is down keeps the streak, and the first failure of the next run is the third.
streak_survives_stop :
    (run_due_healthchecks
      (λ id argv timeout. failure)
      (λ id. codes "exited")
      (λ id. saved)
      (pos 8)
      one_failed).0
    ≡ one_failed
unfolding run_due_healthchecks list_containers values due_healthcheck due_healthchecks
    no_healthcheck eq_str
streak_survives_stop = refl

third_failure : (probe_row ((pos 9, failure) ∷ []) failed_twice).health_status ≡ codes "unhealthy"
unfolding probe_row record_probe result_of truncate_output succeeded in_start_period
    effective_retries positive_or failure ◌+ℤ◌
third_failure = refl
