-- ===== src/Lxc/Restart/Tests.antt =====
-- The watcher at concrete containers.
use lxc2docker.Prelude.{◌+◌, ◌≤◌, ◌≡◌, refl, true, false, [], ◌∷◌, none, some, arith, inl, inr, In}
use lxc2docker.Prelude.Int.{pos}
use lxc2docker.Strings.{codes, eq_str}
use lxc2docker.Dict.{get}
use lxc2docker.Store.Records.{ContainerRecord}
use lxc2docker.Store.Samples.{blank_container}
use lxc2docker.Store.State.{Store, saved, rename_fails, fresh_state, save}
use lxc2docker.Store.Containers.{get_container, update_container}
use lxc2docker.Lxc.Restart.{
  Runtime, start_call, enforce_restart_policy, should_restart, stamp_finished,
}
use lxc2docker.Lxc.Restart.Policy.{Justified, enforcement-Justified}
use lxc2docker.Lxc.Restart.Retries.{Round, Lawful, restarts, run_rounds}
use lxc2docker.Lxc.Restart.Rounds.{lost_counts, restarts_capped}

-- A container that exits at once, whenever it is started.
abbrev crashing : ContainerRecord
crashing = record blank_container {
  id = codes "abc123";
  restart_policy = codes "on-failure";
  restart_max_retry = pos 2;
  started_at = some (pos 1);
}

abbrev one_crashing : Store
one_crashing = record {
  state = record fresh_state { containers = (codes "abc123", crashing) ∷ [] };
  files = record { state_json = none; temp = none };
}

abbrev exits_at_once : Runtime
exits_at_once = record {
  state = λ id. codes "exited";
  ct_gone = λ rec. false;
  start = λ id s. (s, true);
  remove = λ id s. (record s { state = record s.state { containers = [] } }, true);
}

found : get_container (codes "abc123") one_crashing ≡ some crashing
unfolding get_container get eq_str
found = refl

is_started :
    In
      (start_call (codes "abc123"))
      (enforce_restart_policy exits_at_once saved saved (pos 5) (codes "abc123") one_crashing).1
unfolding enforce_restart_policy get_container get eq_str stamp_finished update_container
    should_restart save
is_started = inl refl

enforcement-Justified_example : Justified exits_at_once crashing (start_call (codes "abc123"))
enforcement-Justified_example =
    enforcement-Justified exits_at_once saved saved (pos 5) one_crashing crashing
      (start_call (codes "abc123")) found is_started

abbrev tick : Round
tick = record {
  between = λ s. s;
  runtime = exits_at_once;
  stamp_save = rename_fails;
  count_save = saved;
  now = pos 5;
}

tick-Lawful : Lawful (codes "abc123") tick
unfolding get_container get
tick-Lawful = ((λ limit used s r. r), (λ limit used s r. r), λ limit used s r. inl refl)

restarts_capped_example :
    restarts (run_rounds (codes "abc123") (tick ∷ tick ∷ tick ∷ []) one_crashing).1 + 0
    ≤ 2 + lost_counts (tick ∷ tick ∷ tick ∷ [])
restarts_capped_example =
    restarts_capped (codes "abc123") 2 (tick ∷ tick ∷ tick ∷ []) 0 one_crashing (omega arith)
      (omega arith)
      (λ r. elim [
        | inl e ↦ rw e tick-Lawful
        | inr (inl e) ↦ rw e tick-Lawful
        | inr (inr (inl e)) ↦ rw e tick-Lawful
        | inr (inr (inr i)) ↦ absurd i
      ])
      (inr (crashing, found, refl, refl, refl, refl))
