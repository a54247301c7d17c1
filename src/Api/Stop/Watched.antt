-- ===== src/Api/Stop/Watched.antt =====
-- A container that a user stopped, and the restart watcher.
use lxc2docker.Prelude.{◌≡◌, sym, ap, ◌∙◌, Bool, true, some, arith, In, inl, inr, ◌⊎◌}
use mathlib.Core.Path.{subst}
use lxc2docker.Prelude.Int.{ℤ}
use lxc2docker.Strings.{Str, codes}
use lxc2docker.Store.Records.{Time, ContainerRecord}
use lxc2docker.Store.State.{Store, SaveOutcome}
use lxc2docker.Store.Containers.{get_container, resolve_id}
use lxc2docker.Lxc.Restart.{Runtime, start_call, enforce_restart_policy}
use lxc2docker.Lxc.Restart.Policy.{MayStart, enforcement-Justified}
use lxc2docker.Api.Stop.{
  mark_finished, Saves, Manager, Response, no_content, not_modified, stop_container,
}
use lxc2docker.Api.Stop.Exits.{Flags, Keeps}
use lxc2docker.Api.Stop.Answers.{Answered, stop_container_answers}

abbrev pub restart_policy_of : ContainerRecord → Str
restart_policy_of rec = rec.restart_policy

only_always :
    (rt : Runtime) (w w' : SaveOutcome) (now : Time) (s : Store) (id j : Str) (c : ℤ) (p : Str)
    → Flags restart_policy_of id true c p s
    → In (start_call j) (enforce_restart_policy rt w w' now id s).1
    → p ≡ codes "always"
only_always rt w w' now s id j c p (rec, h, stopped, exits, policy, own) i =
    let (same, why) =
      enforcement-Justified rt w w' now s rec (start_call j) (ap (λ k. get_container k s) own ∙ h)
        (subst (λ k. In (start_call j) (enforce_restart_policy rt w w' now k s).1) (sym own) i) in
    elim (elim why as (λ _. MayStart rec) [
      | inl (here, may, never, still) ↦ may
      | inr (here, may, ran, stays) ↦ may
    ]) [
      | inl always ↦ sym policy ∙ always
      | inr (allowed, running) ↦ absurd (ground (arith, stopped, running))
    ]

stopped-Flags :
    (w : Saves) (now : Time) (id : Str) (b : Bool) (c code : ℤ) (p : Str) (s : Store) (r : Response)
    → (r ≡ no_content) ⊎ (r ≡ not_modified)
    → Answered restart_policy_of w now id b c code p s r
    → (c' : ℤ) × Flags restart_policy_of id true c' p s
unfolding mark_finished
stopped-Flags w now id b c code p s r (inl e) a =
    let (rec, h, stopped, exits, policy, own) = rw e at a in
    (code, (mark_finished now rec, h, stopped, exits, policy, own))
stopped-Flags w now id b c code p s r (inr e) a = (c, rw e at a)

-- After a stop that is answered with success, also that of a container which is not up, the restart
-- watcher starts the container only if its policy is "always", if the manager's stop leaves the
-- record alone.
pub stopped_not_restarted :
    (m : Manager) (w : Saves) (now : Time) (t name id : Str) (s : Store) (b : Bool) (c : ℤ)
    (p : Str) (rt : Runtime) (v v' : SaveOutcome) (later : Time) (j : Str)
    → resolve_id name s ≡ some id
    → ((timeout : ℤ) (sig : Str)
        → Keeps restart_policy_of id (m.stop_container_with_signal id timeout sig))
    → Flags restart_policy_of id b c p s
    → ((stop_container m w now t name s).response ≡ no_content)
      ⊎ ((stop_container m w now t name s).response ≡ not_modified)
    → In
        (start_call j)
        (enforce_restart_policy rt v v' later id (stop_container m w now t name s).store).1
    → p ≡ codes "always"
stopped_not_restarted m w now t name id s b c p rt v v' later j found stops f ok i =
    let answered =
      stop_container_answers restart_policy_of m w now t name id s b c p found stops f in
    let (c', flags) =
      stopped-Flags w now id b c _ p (stop_container m w now t name s).store
        (stop_container m w now t name s).response ok answered in
    only_always rt v v' later (stop_container m w now t name s).store id j c' p flags i
