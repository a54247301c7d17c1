-- ===== src/Api/Stop.antt =====
-- internal/api/containers.go: the requests that stop and kill a container, and what they write to its
-- record around the stop. They run under the lifecycle guard of the container.
pub mod Exits
pub mod Intents
pub mod Answers
pub mod Watched
mod Tests
use lxc2docker.Prelude.{
  ℕ, Bool, true, false, not, ◌&&◌, ◌||◌, List, [], ◌∷◌, Option, none, some, if◌then◌else◌, is_empty,
}
use lxc2docker.Prelude.Int.{ℤ, pos, ltb_ℤ}
use lxc2docker.Strings.{Str, codes, eq_str, atoi}
use lxc2docker.Store.Records.{Time, ContainerRecord}
use lxc2docker.Store.State.{Store, SaveOutcome, StoreError}
use lxc2docker.Store.Containers.{get_container, update_container, resolve_id}
use lxc2docker.Api.Signals.{exit_code_for_signal, is_valid_signal}

pub data ApiError : Type 0 where
  stop_failed : ApiError
  persist_stop_intent persist_exit_code : StoreError → ApiError
  restore_stop_intent restore_exit_code : ApiError → StoreError → ApiError
  record_finish : StoreError → ApiError

-- A call that may change the store, and its error.
abbrev pub Call : Type 0
Call = Store → Store × Option ApiError

-- What the saves of one request meet, in the order of the source.
pub record Saves : Type 0 where
  pub intent : SaveOutcome
  pub exit_code : SaveOutcome
  pub restore_exit_code : SaveOutcome
  pub restore_intent : SaveOutcome
  pub finish : SaveOutcome

unfoldable pub mark_stopped : Bool → ContainerRecord → ContainerRecord
mark_stopped b rec = record rec { stopped_by_user = b }

unfoldable pub mark_exit : ℤ → ContainerRecord → ContainerRecord
mark_exit code rec = record rec { exit_code = code }

unfoldable pub mark_finished : Time → ContainerRecord → ContainerRecord
mark_finished now rec = record rec { finished_at = some now }

-- The value that the closure saw: that of the record, or the zero value.
unfoldable pub was_stopped : Option ContainerRecord → Bool
was_stopped none = false
was_stopped (some rec) = rec.stopped_by_user

unfoldable pub old_exit : Option ContainerRecord → ℤ
old_exit none = pos 0
old_exit (some rec) = rec.exit_code

unfoldable pub is_present : Option ContainerRecord → Bool
is_present none = false
is_present (some rec) = true

module _ (w : Saves) (id : Str) where
  -- After a failed stop, a rollback that fails itself joins its error.
  undo_intent :
      ApiError → Store × Option ContainerRecord × Option StoreError → Store × Option ApiError
  undo_intent e (s, r, none) = (s, some e)
  undo_intent e (s, r, some x) = (s, some (restore_stop_intent e x))

  intent_stop : Bool → Bool → Store × Option ApiError → Store × Option ApiError
  unfolding undo_intent mark_stopped
  intent_stop known prev (s, none) = (s, none)
  intent_stop known prev (s, some e) =
      if known && not prev
      then undo_intent e (update_container w.restore_intent id (mark_stopped false) s)
      else (s, some e)

  with_intent :
      Bool → Call → Store × Option ContainerRecord × Option StoreError → Store × Option ApiError
  unfolding intent_stop
  with_intent prev stop (s, r, some e) = (s, some (persist_stop_intent e))
  with_intent prev stop (s, r, none) = intent_stop (is_present r) prev (stop s)

  unfoldable pub stop_with_intent_locked : Call → Call
  unfolding with_intent
  stop_with_intent_locked stop s =
      with_intent (was_stopped (get_container id s)) stop
        (update_container w.intent id (mark_stopped true) s)

  undo_exit :
      ApiError → Store × Option ContainerRecord × Option StoreError → Store × Option ApiError
  undo_exit e (s, r, none) = (s, some e)
  undo_exit e (s, r, some x) = (s, some (restore_exit_code e x))

  exit_stop : Bool → ℤ → Store × Option ApiError → Store × Option ApiError
  unfolding undo_exit mark_exit
  exit_stop known prev (s, none) = (s, none)
  exit_stop known prev (s, some e) =
      if known
      then undo_exit e (update_container w.restore_exit_code id (mark_exit prev) s)
      else (s, some e)

  with_exit :
      ℤ → Call → Store × Option ContainerRecord × Option StoreError → Store × Option ApiError
  unfolding exit_stop
  with_exit prev stop (s, r, some e) = (s, some (persist_exit_code e))
  with_exit prev stop (s, r, none) = exit_stop (is_present r) prev (stop s)

  unfoldable pub stop_recording_exit : ℤ → Call → Call
  unfolding with_exit
  stop_recording_exit code stop s =
      with_exit (old_exit (get_container id s)) stop
        (update_container w.exit_code id (mark_exit code) s)

-- `emitContainer`, for a record that is there.
pub record Event : Type 0 where
  pub action : Str
  pub subject : Option ContainerRecord

pub data Response : Type 0 where
  not_found bad_request conflict not_modified no_content : Response
  server_error : ApiError → Response

pub record Answer : Type 0 where
  pub store : Store
  pub response : Response
  pub events : List Event

-- `stopTimeoutWithDefault`, in seconds.
unfoldable pub stop_timeout_with_default : Str → ℤ → ℤ
stop_timeout_with_default t default =
    if is_empty t
    then (if ltb_ℤ (pos 0) default then default else pos 10)
    else elim (atoi t) [ none ↦ pos 10 | some n ↦ if ltb_ℤ n (pos 0) then pos 3600 else n ]

-- What the requests ask of the manager: the state of a container, and the stop itself.
pub record Manager : Type 0 where
  pub state : Str → Store → Str
  pub stop_container_with_signal : Str → ℤ → Str → Call
  pub kill_container : Str → Str → Call

finished : Str → Store × Option ContainerRecord × Option StoreError → Answer
finished action (s, r, some e) = record {
  store = s;
  response = server_error (record_finish e);
  events = [];
}
finished action (s, r, none) = record {
  store = s;
  response = no_content;
  events =
      (record { action = action; subject = r })
      ∷ (record { action = codes "die"; subject = r })
      ∷ [];
}

-- The end of both requests: the time of the exit and the events.
finish_stop : Saves → Str → Time → Str → Store × Option ApiError → Answer
unfolding finished mark_finished
finish_stop w id now action (s, some e) = record {
  store = s;
  response = server_error e;
  events = [];
}
finish_stop w id now action (s, none) =
    finished action (update_container w.finish id (mark_finished now) s)

module _ (m : Manager) (w : Saves) (now : Time) where
  unfoldable pub is_up : Str → Store → Bool
  is_up id s = eq_str (m.state id s) (codes "running") || eq_str (m.state id s) (codes "paused")

  unfoldable pub default_signal : Str → Str → Str
  default_signal sig default = if is_empty sig then default else sig

  unfoldable pub stop_signal_of : Option ContainerRecord → Str
  stop_signal_of none = []
  stop_signal_of (some rec) = rec.stop_signal

  unfoldable pub stop_timeout_of : Option ContainerRecord → ℤ
  stop_timeout_of none = pos 0
  stop_timeout_of (some rec) = rec.stop_timeout

  -- `up` is that the closure did not set `notModified`.
  stop_answer : Str → Bool → Store × Option ApiError → Answer
  unfolding finish_stop
  stop_answer id up (s, some e) = record { store = s; response = server_error e; events = [] }
  stop_answer id up (s, none) =
      if up
      then finish_stop w id now (codes "stop") (s, none)
      else record { store = s; response = not_modified; events = [] }

  -- `stopContainer` for the container that was found; `t` is the parameter of the query. A container
  -- that is not up has the intent recorded all the same.
  unfoldable pub stop_found : Str → Str → Store → Answer
  unfolding stop_answer
  stop_found t id s =
      let stop_signal = stop_signal_of (get_container id s) in
      let timeout = stop_timeout_with_default t (stop_timeout_of (get_container id s)) in
      let code = exit_code_for_signal (default_signal stop_signal (codes "SIGTERM")) in
      let stop : Call = λ s'.
        if is_up id s'
        then stop_recording_exit w id code (m.stop_container_with_signal id timeout stop_signal) s'
        else (s', none) in
      let intended = (update_container w.intent id (mark_stopped true) s).0 in
      stop_answer id (is_up id intended) (stop_with_intent_locked w id stop s)

  unfoldable pub stop_container : Str → Str → Store → Answer
  unfolding stop_found
  stop_container t name s = elim (resolve_id name s) [
    | none ↦ record { store = s; response = not_found; events = [] }
    | some id ↦ stop_found t id s
  ]

  unfoldable pub kill_found : Str → Str → Store → Answer
  unfolding finish_stop
  kill_found signal id s =
      let code = exit_code_for_signal (default_signal signal (codes "SIGKILL")) in
      let kill = stop_recording_exit w id code (m.kill_container id signal) in
      if not (is_up id s)
      then record { store = s; response = conflict; events = [] }
      else finish_stop w id now (codes "kill") (stop_with_intent_locked w id kill s)

  unfoldable pub kill_container : Str → Str → Store → Answer
  unfolding kill_found
  kill_container signal name s = elim (resolve_id name s) [
    | none ↦ record { store = s; response = not_found; events = [] }
    | some id ↦
        if not (is_empty signal) && not (is_valid_signal signal)
        then record { store = s; response = bad_request; events = [] }
        else kill_found signal id s
  ]
