-- ===== src/Api/Stop/Answers.antt =====
-- What a stop or a kill leaves in the record, for each of its answers.
use lxc2docker.Prelude.{
  ◌≡◌, refl, Bool, true, false, not, ◌&&◌, Option, none, some, if◌then◌else◌, inl, inr, Bool-cases,
  is_empty,
}
use lxc2docker.Prelude.Int.{ℤ}
use lxc2docker.Strings.{Str, codes}
use lxc2docker.Store.Records.{Time, ContainerRecord}
use lxc2docker.Store.State.{Store}
use lxc2docker.Store.Containers.{get_container, update_container, resolve_id}
use lxc2docker.Api.Signals.{exit_code_for_signal, is_valid_signal}
use lxc2docker.Api.Stop.{
  ApiError, stop_failed, persist_stop_intent, persist_exit_code, restore_stop_intent,
  restore_exit_code, record_finish, Call, Saves, mark_stopped, mark_finished, intent_stop,
  with_intent, stop_with_intent_locked, stop_recording_exit, finished, finish_stop, Manager,
  Response, not_found, bad_request, conflict, not_modified, no_content, server_error, is_up,
  default_signal, kill_found, stop_found, stop_answer, stop_signal_of, stop_timeout_of,
  stop_timeout_with_default, stop_container, kill_container,
}
use lxc2docker.Api.Stop.Exits.{others, update_cases, Flags, Keeps, recorded}
use lxc2docker.Api.Stop.Intents.{Intended, intended}

-- What a request leaves for each of its answers, where the record had the intent b and the exit code
-- c: without an error the intent, the new exit code and the time of the exit; with the error of the
-- save of that time, the intent and the new exit code; with another error, the old intent and exit
-- code, but for those whose rollback failed.
module _ {V : Type 0} (part : ContainerRecord → V) (w : Saves) (now : Time) (id : Str) (b : Bool)
    (c code : ℤ) (p : V) where
  abbrev pub Answered : Store → Response → Type 0
  Answered s no_content =
      (rec : ContainerRecord) × (get_container id s ≡ some (mark_finished now rec))
      × (rec.stopped_by_user ≡ true)
      × (rec.exit_code ≡ code)
      × (part (others rec) ≡ p)
      × (rec.id ≡ id)
  Answered s not_modified = Flags part id true c p s
  Answered s (server_error (record_finish x)) = Flags part id true code p s
  Answered s (server_error e) = Intended part w id b c code p s (some e)
  Answered s bad_request = Flags part id b c p s
  Answered s conflict = Flags part id b c p s
  Answered s not_found = ⊥

  finish_answers :
      (action : Str) (s : Store) (o : Option ApiError)
      → Intended part w id b c code p s o
      → Answered
          (finish_stop w id now action (s, o)).store
          (finish_stop w id now action (s, o)).response
  unfolding finish_stop finished mark_finished
  finish_answers action s (some stop_failed) f = f
  finish_answers action s (some (persist_stop_intent x)) f = f
  finish_answers action s (some (persist_exit_code x)) f = f
  finish_answers action s (some (restore_exit_code e x)) f = f
  finish_answers action s (some (restore_stop_intent e x)) f = f
  finish_answers action s (some (record_finish x)) f = absurd f
  finish_answers action s none (rec, h, stopped, exits, policy, own) =
      elim (update_cases w.finish id (mark_finished now) s rec h) [
        | inl (s', e, there) ↦ rw e (rec, there, stopped, exits, policy, own)
        | inr (s', x, e, there) ↦ rw e (rec, there, stopped, exits, policy, own)
      ]

kill_found_answers :
    {V : Type 0} (part : ContainerRecord → V) (m : Manager) (w : Saves) (now : Time)
    (signal id : Str) (s : Store) (b : Bool) (c : ℤ) (p : V)
    → Keeps part id (m.kill_container id signal)
    → Flags part id b c p s
    → Answered part w now id b c
        (exit_code_for_signal (default_signal m w now signal (codes "SIGKILL")))
        p
        (kill_found m w now signal id s).store
        (kill_found m w now signal id s).response
unfolding kill_found
kill_found_answers part m w now signal id s b c p keeps f =
    let code = exit_code_for_signal (default_signal m w now signal (codes "SIGKILL")) in
    let kill = stop_recording_exit w id code (m.kill_container id signal) in
    elim (Bool-cases (is_up m w now id s)) [
      | inr e ↦ rw (kill_found, e) f
      | inl e ↦
          let done =
            intended part w id b c code p kill s
              (λ t q g. recorded part w id true c code p (m.kill_container id signal) t keeps g)
              f in
          rw (kill_found, e) (finish_answers part w now id b c code p (codes "kill") _ _ done)
    ]

stop_answer-finish :
    (m : Manager) (w : Saves) (now : Time) (id : Str) (r : Store × Option ApiError)
    → stop_answer m w now id true r ≡ finish_stop w id now (codes "stop") r
unfolding stop_answer finish_stop
stop_answer-finish m w now id (s, none) = refl
stop_answer-finish m w now id (s, some e) = refl

-- A container that is not up at the time has only the intent recorded.
idle_answers :
    {V : Type 0} (part : ContainerRecord → V) (m : Manager) (w : Saves) (now : Time) (id : Str)
    (stop : Call) (s : Store) (b : Bool) (c code : ℤ) (p : V)
    → stop (update_container w.intent id (mark_stopped true) s).0
      ≡ ((update_container w.intent id (mark_stopped true) s).0, none)
    → Flags part id b c p s
    → let a = stop_answer m w now id false (stop_with_intent_locked w id stop s) in
      Answered part w now id b c code p a.store a.response
unfolding stop_answer stop_with_intent_locked with_intent intent_stop mark_stopped
idle_answers part m w now id stop s b c code p idle (rec, h, stopped, exits, policy, own) =
    elim (update_cases w.intent id (mark_stopped true) s rec h) [
      | inr (s', x, e, there) ↦ rw (h, e) (rec, there, stopped, exits, policy, own)
      | inl (s', e, there) ↦
          let quiet : stop s' ≡ (s', none) = rw e at idle in
          rw (h, e, quiet) (mark_stopped true rec, there, refl, exits, policy, own)
    ]

stop_found_answers :
    {V : Type 0} (part : ContainerRecord → V) (m : Manager) (w : Saves) (now : Time) (t id : Str)
    (s : Store) (b : Bool) (c : ℤ) (p : V)
    → ((timeout : ℤ) (signal : Str)
        → Keeps part id (m.stop_container_with_signal id timeout signal))
    → Flags part id b c p s
    → Answered part w now id b c
        (exit_code_for_signal
          (default_signal m w now (stop_signal_of m w now (get_container id s)) (codes "SIGTERM")))
        p
        (stop_found m w now t id s).store
        (stop_found m w now t id s).response
unfolding stop_found
stop_found_answers part m w now t id s b c p keeps f =
    let signal = stop_signal_of m w now (get_container id s) in
    let code = exit_code_for_signal (default_signal m w now signal (codes "SIGTERM")) in
    let timeout = stop_timeout_with_default t (stop_timeout_of m w now (get_container id s)) in
    let recording =
      stop_recording_exit w id code (m.stop_container_with_signal id timeout signal) in
    let stop : Call = λ u. if is_up m w now id u then recording u else (u, none) in
    let after = (update_container w.intent id (mark_stopped true) s).0 in
    elim (Bool-cases (is_up m w now id after)) [
      | inl up ↦
          let done =
            intended part w id b c code p stop s
              (λ u q g.
                rw (q, up)
                  (recorded part w id true c code p (m.stop_container_with_signal id timeout signal)
                    after (keeps timeout signal) (rw⁻¹ q g)))
              f in
          rw (stop_found, up, stop_answer-finish m w now id (stop_with_intent_locked w id stop s))
            (finish_answers part w now id b c code p (codes "stop") _ _ done)
      | inr down ↦
          let idle : stop after ≡ (after, none) = rw down refl in
          rw (stop_found, down) (idle_answers part m w now id stop s b c code p idle f)
    ]

pub stop_container_answers :
    {V : Type 0} (part : ContainerRecord → V) (m : Manager) (w : Saves) (now : Time)
    (t name id : Str) (s : Store) (b : Bool) (c : ℤ) (p : V)
    → resolve_id name s ≡ some id
    → ((timeout : ℤ) (sig : Str) → Keeps part id (m.stop_container_with_signal id timeout sig))
    → Flags part id b c p s
    → Answered part w now id b c
        (exit_code_for_signal
          (default_signal m w now (stop_signal_of m w now (get_container id s)) (codes "SIGTERM")))
        p
        (stop_container m w now t name s).store
        (stop_container m w now t name s).response
unfolding stop_container
stop_container_answers part m w now t name id s b c p found stops f =
    rw (stop_container, found) (stop_found_answers part m w now t id s b c p stops f)

abbrev pub whole : ContainerRecord → ContainerRecord
whole rec = rec

-- The record that a stop and a kill of a container leave, for every answer (see Answered), if the
-- manager's stop and kill leave the record alone. An error of the call, or of a save before it, leaves
-- the old record, but for what a failed rollback leaves; an error of the save after it, which records
-- the time of the exit, leaves the new intent and exit code, since the container was stopped; a
-- success leaves these and the time of the exit. All other fields stay as they were.
pub stop_answers :
    (m : Manager) (w : Saves) (now : Time) (t signal name id : Str) (s : Store) (b : Bool) (c : ℤ)
    (rest : ContainerRecord)
    → resolve_id name s ≡ some id
    → ((timeout : ℤ) (sig : Str) → Keeps whole id (m.stop_container_with_signal id timeout sig))
    → Keeps whole id (m.kill_container id signal)
    → Flags whole id b c rest s
    → Answered whole w now id b c
        (exit_code_for_signal
          (default_signal m w now (stop_signal_of m w now (get_container id s)) (codes "SIGTERM")))
        rest
        (stop_container m w now t name s).store
        (stop_container m w now t name s).response
      × Answered whole w now id b c
          (exit_code_for_signal (default_signal m w now signal (codes "SIGKILL")))
          rest
          (kill_container m w now signal name s).store
          (kill_container m w now signal name s).response
unfolding kill_container
stop_answers m w now t signal name id s b c rest found stops kills f = (
  stop_container_answers whole m w now t name id s b c rest found stops f,
  elim (Bool-cases (not (is_empty signal) && not (is_valid_signal signal))) [
    | inl e ↦ rw (kill_container, found, e) f
    | inr e ↦
        rw (kill_container, found, e)
          (kill_found_answers whole m w now signal id s b c rest kills f)
  ],
)
