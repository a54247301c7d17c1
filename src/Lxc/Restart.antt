-- ===== src/Lxc/Restart.antt =====
-- internal/lxc/manager.go: the restart watcher and the collection of exited containers. The manager's
-- calls of LXC and of Proxmox stand behind the interface `Runtime`; log lines are left out, and the
-- emitter of events is there.
pub mod Policy
pub mod Retries
pub mod Rounds
mod Tests
use lxc2docker.Prelude.{
  ℕ, suc, Bool, true, false, not, ◌&&◌, ◌||◌, List, [], ◌∷◌, ◌++◌, Option, none, some,
  if◌then◌else◌, is_empty,
}
use lxc2docker.Prelude.Int.{ℤ, pos, ◌+ℤ◌, ltb_ℤ, leb_ℤ}
use lxc2docker.Strings.{Str, codes, eq_str}
use lxc2docker.Dict.{get, values}
use lxc2docker.Store.Records.{Time, ContainerRecord}
use lxc2docker.Store.State.{Store, SaveOutcome}
use lxc2docker.Store.Containers.{get_container, update_container, list_containers}

-- `State`, `pveCTGone`, `StartContainer` and `RemoveContainer`; the last two say whether they
-- succeeded.
pub record Runtime : Type 0 where
  pub state : Str → Str
  pub ct_gone : ContainerRecord → Bool
  pub start : Str → Store → Store × Bool
  pub remove : Str → Store → Store × Bool

-- What is done to the system, in order.
pub data Action : Type 0 where
  start_call remove_call : Str → Action
  remove_port_forwards : Str → Action
  event : Str → Str → Action

unfoldable pub is_present_time : Option Time → Bool
is_present_time none = false
is_present_time (some t) = true

unfoldable pub should_restart : ContainerRecord → Bool
should_restart rec =
    if eq_str rec.restart_policy (codes "always")
    then true
    else if eq_str rec.restart_policy (codes "unless-stopped")
    then not rec.stopped_by_user
    else if eq_str rec.restart_policy (codes "on-failure")
    then (if ltb_ℤ (pos 0) rec.restart_max_retry && leb_ℤ rec.restart_max_retry rec.restart_count
        then false
        else not rec.stopped_by_user)
    else false

unfoldable pub should_start_never_started : ContainerRecord → Bool
should_start_never_started rec =
    if eq_str rec.restart_policy (codes "always")
    then true
    else if eq_str rec.restart_policy (codes "unless-stopped")
    then not rec.stopped_by_user
    else false

-- The record is there.
unfoldable pub should_garbage_collect : ContainerRecord → Str → Bool
unfolding is_present_time
should_garbage_collect rec state =
    rec.auto_remove && (is_present_time rec.started_at && eq_str state (codes "exited"))

unfoldable pub stamp_finished : Time → ContainerRecord → ContainerRecord
stamp_finished now current = elim current.finished_at [
  | none ↦ record current { finished_at = some now }
  | some t ↦ current
]

unfoldable pub count_restart : ContainerRecord → ContainerRecord
count_restart current = record current { restart_count = current.restart_count +ℤ pos 1 }

unfoldable pub event_if : Bool → Str → Str → List Action
event_if ok id name = if ok then event id name ∷ [] else []

-- `RemovePortForwards` has a guard on the address in some places.
unfoldable pub forwards_of : Str → List Action
forwards_of ip = if is_empty ip then [] else remove_port_forwards ip ∷ []

module _ (rt : Runtime) where
  pub destroy_container : List Action → Str → Store → Store × List Action
  destroy_container before id s =
      let (s', ok) = rt.remove id s in
      (s', before ++ (remove_call id ∷ event_if ok id (codes "destroy")))

  pub start_created : ContainerRecord → Store → Store × List Action
  start_created rec s =
      if should_start_never_started rec && not (eq_str (rt.state rec.id) (codes "running"))
      then (let (s', ok) = rt.start rec.id s in
          (s', start_call rec.id ∷ event_if ok rec.id (codes "start")))
      else (s, [])

  pub restart : SaveOutcome → ContainerRecord → Store → Store × List Action
  restart w rec s =
      let (s', ok) = rt.start rec.id s in
      if ok
      then (
        (update_container w rec.id count_restart s').0,
        start_call rec.id ∷ event rec.id (codes "restart") ∷ [],
      )
      else (s', start_call rec.id ∷ [])

  -- A container that has exited, with the time of its exit recorded.
  after_exit : SaveOutcome → ContainerRecord → Store → Store × List Action
  unfolding destroy_container restart
  after_exit w rec s =
      if rec.auto_remove
      then destroy_container (remove_port_forwards rec.ip_address ∷ []) rec.id s
      else if should_restart rec
      then restart w rec s
      else (s, [])

  -- The exit is recorded first; a record that is not returned ends the round.
  exited : SaveOutcome → SaveOutcome → Time → ContainerRecord → Store → Store × List Action
  unfolding after_exit
  exited w w' now rec s = elim rec.finished_at [
    | some t ↦ after_exit w' rec s
    | none ↦
        let (s', updated, e) = update_container w rec.id (stamp_finished now) s in
        elim updated [ none ↦ (s', []) | some r ↦ after_exit w' r s' ]
  ]

  -- `enforceRestartPolicy`: one look at one container, with what the two saves meet.
  unfoldable pub enforce_restart_policy :
      SaveOutcome → SaveOutcome → Time → Str → Store → Store × List Action
  unfolding destroy_container start_created exited
  enforce_restart_policy w w' now id s = elim (get_container id s) [
    | none ↦ (s, [])
    | some rec ↦
        if rt.ct_gone rec
        then destroy_container (forwards_of rec.ip_address) rec.id s
        else elim rec.started_at [
          | none ↦ start_created rec s
          | some t ↦
              if eq_str (rt.state rec.id) (codes "exited") then exited w w' now rec s else (s, [])
        ]
  ]

  -- `gc`, over the records that were listed.
  gc_list : List ContainerRecord → Store → Store × List Action
  gc_list [] s = (s, [])
  gc_list (rec ∷ recs) s =
      let due = should_garbage_collect rec (rt.state rec.id) in
      let (after, done) = gc_list recs (if due then (rt.remove rec.id s).0 else s) in
      if due
      then (after, forwards_of rec.ip_address ++ (remove_call rec.id ∷ done))
      else (after, done)

  unfoldable pub gc : Store → Store × List Action
  unfolding gc_list
  gc s = gc_list (list_containers s) s
