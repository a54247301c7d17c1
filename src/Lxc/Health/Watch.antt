-- ===== src/Lxc/Health/Watch.antt =====
-- A tick of the health watcher, and the number of failures that it takes.
use lxc2docker.Prelude.{
  ◌≡◌, sym, ◌∙◌, not, ◌||◌, List, [], ◌∷◌, some, arith, inl, inr, Bool-cases, Option-cases,
}
use mathlib.Core.Path.{subst}
use lxc2docker.Prelude.Int.{ℤ}
use lxc2docker.Strings.{Str, codes, eq_str}
use lxc2docker.Store.Records.{Time, ContainerRecord}
use lxc2docker.Store.State.{Store, SaveOutcome}
use lxc2docker.Store.Containers.{get_container, update_container, list_containers}
use lxc2docker.Store.Containers.Update.{update_all_or_nothing, update_missing}
use lxc2docker.Lxc.Health.{
  reset_health, ProbeRun, probe_argv, positive_or, seconds_30, run_one_healthcheck, checked_lately,
  no_healthcheck, due_healthcheck, due_healthchecks, run_due_healthchecks,
}
use lxc2docker.Lxc.Health.Verdict.{HealthOk, reset-HealthOk, probe-HealthOk}

abbrev pub AllHealthOk : Store → Type 0
AllHealthOk s = (id : Str) (rec : ContainerRecord) → get_container id s ≡ some rec → HealthOk rec

update-AllHealthOk :
    (w : SaveOutcome) (id : Str) (update : ContainerRecord → ContainerRecord) (s : Store)
    → ((rec : ContainerRecord) → HealthOk rec → HealthOk (update rec))
    → AllHealthOk s
    → AllHealthOk (update_container w id update s).0
update-AllHealthOk w id update s keeps all = elim (Option-cases (get_container id s)) [
  | inl gone ↦ rw (update_missing w id update s gone) all
  | inr (p, found) ↦ elim (update_all_or_nothing id update s p w found) [
    | inr (_, _, same, _) ↦ λ j rec h. all j rec (sym (same j) ∙ h)
    | inl (_, _, changed, _) ↦ λ j rec h. elim (Bool-cases (eq_str id j)) [
      | inl e ↦
          let new : update p ≡ rec = ground (arith, changed j) in
          subst HealthOk new (keeps p (all id p found))
      | inr e ↦ all j rec (ground (arith, changed j))
    ]
  ]
]

module _ (exec : Str → List Str → ℤ → ProbeRun) (state : Str → Str)
    (saves : Str → SaveOutcome) where
  one-AllHealthOk :
      (rec : ContainerRecord) (start : Time) (s : Store)
      → AllHealthOk s
      → AllHealthOk (run_one_healthcheck exec state saves rec start s).0
  unfolding run_one_healthcheck
  one-AllHealthOk rec start s all = elim (Option-cases (probe_argv rec.healthcheck_test)) [
    | inl e ↦ rw (run_one_healthcheck, e) all
    | inr (argv, e) ↦
        rw (run_one_healthcheck, e)
          (update-AllHealthOk (saves rec.id) rec.id _ s
            (λ r.
              probe-HealthOk r start
                (exec rec.id argv (positive_or rec.healthcheck_timeout seconds_30)))
            all)
  ]

  due-AllHealthOk :
      (now : Time) (rec : ContainerRecord) (s : Store)
      → AllHealthOk s
      → AllHealthOk (due_healthcheck exec state saves now rec s).0
  unfolding due_healthcheck
  due-AllHealthOk now rec s all =
      elim (Bool-cases
        (no_healthcheck rec.healthcheck_test || eq_str (state rec.id) (codes "paused"))) [
          | inl e ↦ rw (due_healthcheck, e) all
          | inr e ↦ elim (Bool-cases (not (eq_str (state rec.id) (codes "running")))) [
            | inl d ↦ elim (Bool-cases (eq_str rec.health_status (codes "starting"))) [
              | inl h ↦ rw (due_healthcheck, e, d, h) all
              | inr h ↦
                  rw (due_healthcheck, e, d, h)
                    (update-AllHealthOk (saves rec.id) rec.id reset_health s reset-HealthOk all)
            ]
            | inr d ↦ elim (Bool-cases (checked_lately now rec)) [
              | inl l ↦ rw (due_healthcheck, e, d, l) all
              | inr l ↦ rw (due_healthcheck, e, d, l) (one-AllHealthOk rec now s all)
            ]
          ]
        ]

  all_due-AllHealthOk :
      (now : Time) (recs : List ContainerRecord) (s : Store)
      → AllHealthOk s
      → AllHealthOk (due_healthchecks exec state saves now recs s).0
  unfolding due_healthchecks
  all_due-AllHealthOk now [] s all = all
  all_due-AllHealthOk now (rec ∷ recs) s all =
      all_due-AllHealthOk now recs (due_healthcheck exec state saves now rec s).0
        (due-AllHealthOk now rec s all)

  -- A tick of the health watcher keeps the records of all containers consistent, whatever the probes
  -- give, the containers' states are, and the saves meet: a container is unhealthy exactly if its
  -- streak of failures has reached its retries, and its log has at most five results with at most
  -- 4096 bytes of output.
  pub tick-AllHealthOk :
      (now : Time) (s : Store)
      → AllHealthOk s
      → AllHealthOk (run_due_healthchecks exec state saves now s).0
  unfolding run_due_healthchecks
  tick-AllHealthOk now s all = all_due-AllHealthOk now (list_containers s) s all
