-- ===== src/Lxc/Health/Streak.antt =====
-- The number of failures that it takes.
use lxc2docker.Prelude.{
  ℕ, suc, ◌+◌, ◌≡◌, ◌↔◌, refl, sym, ap, ◌∙◌, true, false, List, [], ◌∷◌, arith, length, inl, inr,
  Bool-cases, Option-cases,
}
use lxc2docker.Prelude.Int.{pos, ◌+ℤ◌, leb_ℤ}
use lxc2docker.Strings.{codes}
use lxc2docker.Store.Records.{Time, ContainerRecord}
use lxc2docker.Lxc.Health.{
  effective_retries, succeeded, in_start_period, record_probe, ProbeRun, result_of,
}
use lxc2docker.Lxc.Health.Verdict.{HealthOk, probe-HealthOk, next_streak}

-- A row of probes of one container.
unfoldable pub probe_row : List (Time × ProbeRun) → ContainerRecord → ContainerRecord
probe_row [] rec = rec
probe_row ((start, run) ∷ row) rec = probe_row row (record_probe (result_of start run) rec)

-- Every probe fails, after the start period.
abbrev pub Fails : List (Time × ProbeRun) → ContainerRecord → Type 0
Fails [] rec = Unit
Fails ((start, run) ∷ row) rec =
    (succeeded run.exit_code ≡ false) × (in_start_period run.end rec ≡ false) × Fails row rec

-- What a failure leaves.
record Failed (rec after : ContainerRecord) : Type 0 where
  streak : after.health_failing_streak ≡ rec.health_failing_streak +ℤ pos 1
  retries : effective_retries after ≡ effective_retries rec
  rest : (row : List (Time × ProbeRun)) → Fails row rec → Fails row after

same_period :
    (rec after : ContainerRecord) (end : Time)
    → after.started_at ≡ rec.started_at
    → after.healthcheck_start_period ≡ rec.healthcheck_start_period
    → in_start_period end after ≡ in_start_period end rec
unfolding in_start_period
same_period rec after end s p = elim (Option-cases rec.started_at) [
  | inl e ↦ rw (in_start_period, s ∙ e, e) refl
  | inr (t, e) ↦ rw (in_start_period, s ∙ e, e, p) refl
]

Fails-carry :
    (rec after : ContainerRecord)
    → after.started_at ≡ rec.started_at
    → after.healthcheck_start_period ≡ rec.healthcheck_start_period
    → (row : List (Time × ProbeRun)) → Fails row rec
    → Fails row after
Fails-carry rec after s p [] f = f
Fails-carry rec after s p ((start, run) ∷ row) (a, b, f) =
    (a, same_period rec after run.end s p ∙ b, Fails-carry rec after s p row f)

failing_probe :
    (rec : ContainerRecord) (start : Time) (run : ProbeRun)
    → succeeded run.exit_code ≡ false
    → in_start_period run.end rec ≡ false
    → Failed rec (record_probe (result_of start run) rec)
unfolding record_probe result_of effective_retries
failing_probe rec start run f p =
    elim (Bool-cases (leb_ℤ (effective_retries rec) (rec.health_failing_streak +ℤ pos 1))) [
      | inl q ↦
          rw (record_probe, f, p, q)
            (record {
              streak = refl;
              retries = refl;
              rest = λ row. Fails-carry rec _ refl refl row;
            })
      | inr q ↦
          rw (record_probe, f, p, q)
            (record {
              streak = refl;
              retries = refl;
              rest = λ row. Fails-carry rec _ refl refl row;
            })
    ]

probe_row-HealthOk :
    (row : List (Time × ProbeRun)) (rec : ContainerRecord)
    → HealthOk rec
    → HealthOk (probe_row row rec)
unfolding probe_row
probe_row-HealthOk [] rec ok = ok
probe_row-HealthOk ((start, run) ∷ row) rec ok =
    probe_row-HealthOk row (record_probe (result_of start run) rec)
      (probe-HealthOk rec start run ok)

streak_of_row :
    (row : List (Time × ProbeRun)) (rec : ContainerRecord) (n : ℕ)
    → rec.health_failing_streak ≡ pos n
    → Fails row rec
    → ((probe_row row rec).health_failing_streak ≡ pos (n + length row))
      × (effective_retries (probe_row row rec) ≡ effective_retries rec)
unfolding probe_row
streak_of_row [] rec n s f = (s ∙ ap pos (omega arith), refl)
streak_of_row ((start, run) ∷ row) rec n s (a, b, f) =
    let one = failing_probe rec start run a b in
    let (more, same) =
      streak_of_row row (record_probe (result_of start run) rec) (suc n)
        (one.streak ∙ (ap (λ z. z +ℤ pos 1) s ∙ next_streak n)) (one.rest row f) in
    (more ∙ ap pos (omega arith), same ∙ one.retries)

-- A container with a streak of zero that fails a row of probes after its start period is unhealthy
-- at the end exactly if the row is as long as its retries, Docker's default of three included.
pub unhealthy_after :
    (row : List (Time × ProbeRun)) (rec : ContainerRecord)
    → HealthOk rec
    → rec.health_failing_streak ≡ pos 0
    → Fails row rec
    → ((probe_row row rec).health_status ≡ codes "unhealthy")
      ↔ (leb_ℤ (effective_retries rec) (pos (length row)) ≡ true)
unhealthy_after row rec ok s f =
    let (streak, same) = streak_of_row row rec 0 s f in
    let verdict = (probe_row-HealthOk row rec ok).verdict in
    let count : pos (0 + length row) ≡ pos (length row) = ap pos (omega arith) in
    let test : leb_ℤ (effective_retries (probe_row row rec))
          (probe_row row rec).health_failing_streak
        ≡ leb_ℤ (effective_retries rec) (pos (length row)) =
      ap (λ e. leb_ℤ e (probe_row row rec).health_failing_streak) same
      ∙ ap (leb_ℤ (effective_retries rec)) (streak ∙ count) in
    ((λ h. sym test ∙ verdict.0 h), λ h. verdict.1 (test ∙ h))
