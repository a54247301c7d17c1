-- ===== src/Api/Stop/Tests.antt =====
-- A running container, and a stop that fails.
use lxc2docker.Prelude.{◌≡◌, refl, true, false, [], ◌∷◌, none, some, In, inl, inr, is_empty}
use lxc2docker.Prelude.Int.{ℤ, pos}
use lxc2docker.Strings.{Str, codes, eq_str, has_prefix, trim_prefix}
use lxc2docker.Dict.{get, set, delete, has}
use lxc2docker.Store.Records.{ContainerRecord}
use lxc2docker.Store.Samples.{blank_container}
use lxc2docker.Store.State.{Store, saved, fresh_state, save}
use lxc2docker.Store.Containers.{get_container, update_container, resolve_id}
use lxc2docker.Lxc.Restart.{
  Runtime, start_call, enforce_restart_policy, should_restart, stamp_finished,
}
use lxc2docker.Api.Signals.{exit_code_for_signal}
use lxc2docker.Api.Stop.{
  stop_failed, Saves, Manager, no_content, stop_container, stop_found, stop_with_intent_locked,
  stop_recording_exit, was_stopped, old_exit, is_present, mark_stopped, mark_exit, mark_finished,
  kill_container, default_signal, stop_signal_of, is_up,
}
use lxc2docker.Api.Stop.Exits.{Flags, Keeps}
use lxc2docker.Api.Stop.Answers.{whole, Answered, stop_answers}
use lxc2docker.Api.Stop.Watched.{restart_policy_of, stopped_not_restarted}

abbrev server : ContainerRecord
server = record blank_container {
  id = codes "abc123";
  started_at = some (pos 1);
  restart_policy = codes "always";
}

abbrev one_server : Store
one_server = record {
  state = record fresh_state { containers = (codes "abc123", server) ∷ [] };
  files = record { state_json = none; temp = none };
}

-- The stop succeeds, and the kill fails.
abbrev manager : Manager
manager = record {
  state = λ id s. codes "running";
  stop_container_with_signal = λ id t sig s. (s, none);
  kill_container = λ id sig s. (s, some stop_failed);
}

abbrev all_saved : Saves
all_saved = record {
  intent = saved;
  exit_code = saved;
  restore_exit_code = saved;
  restore_intent = saved;
  finish = saved;
}

named : resolve_id (codes "abc123") one_server ≡ some (codes "abc123")
unfolding resolve_id trim_prefix has_prefix has eq_str is_empty
named = refl

server-Flags :
    {V : Type 0} (part : ContainerRecord → V)
    → Flags part (codes "abc123") false (pos 0) (part server) one_server
unfolding get_container get eq_str
server-Flags part = (server, refl, refl, refl, refl, refl)

stop-Keeps :
    {V : Type 0} (part : ContainerRecord → V) (timeout : ℤ) (sig : Str)
    → Keeps part (codes "abc123") (manager.stop_container_with_signal (codes "abc123") timeout sig)
stop-Keeps part timeout sig s b c p f = (f, inl refl)

kill-Keeps :
    Keeps whole (codes "abc123") (manager.kill_container (codes "abc123") (codes "SIGTERM"))
kill-Keeps s b c p f = (f, inr refl)

stop_answers_example :
    Answered whole all_saved
      (pos 9)
      (codes "abc123")
      false
      (pos 0)
      (exit_code_for_signal (
        default_signal manager all_saved
          (pos 9)
          (stop_signal_of manager all_saved (pos 9) (get_container (codes "abc123") one_server))
          (codes "SIGTERM")))
      server
      (stop_container manager all_saved (pos 9) [] (codes "abc123") one_server).store
      (stop_container manager all_saved (pos 9) [] (codes "abc123") one_server).response
    × Answered whole all_saved
        (pos 9)
        (codes "abc123")
        false
        (pos 0)
        (exit_code_for_signal
          (default_signal manager all_saved (pos 9) (codes "SIGTERM") (codes "SIGKILL")))
        server
        (kill_container manager all_saved
          (pos 9)
          (codes "SIGTERM")
          (codes "abc123")
          one_server).store
        (kill_container manager all_saved
          (pos 9)
          (codes "SIGTERM")
          (codes "abc123")
          one_server).response
stop_answers_example =
    stop_answers manager all_saved (pos 9) [] (codes "SIGTERM") (codes "abc123") (codes "abc123")
      one_server false (pos 0) server named (stop-Keeps whole) kill-Keeps (server-Flags whole)

-- After the stop everything is down.
abbrev down : Runtime
down = record {
  state = λ id. codes "exited";
  ct_gone = λ rec. false;
  start = λ id s. (s, true);
  remove = λ id s. (s, true);
}

answered :
    (stop_container manager all_saved (pos 9) [] (codes "abc123") one_server).response ≡ no_content
unfolding stop_container stop_found stop_with_intent_locked stop_recording_exit is_up default_signal
    stop_signal_of was_stopped old_exit is_present mark_stopped mark_exit mark_finished resolve_id
    trim_prefix has_prefix has eq_str is_empty get_container update_container get set delete save
answered = refl

restarted :
    In
      (start_call (codes "abc123"))
      (enforce_restart_policy down saved saved
        (pos 10)
        (codes "abc123")
        (stop_container manager all_saved (pos 9) [] (codes "abc123") one_server).store).1
unfolding stop_container stop_found stop_with_intent_locked stop_recording_exit is_up default_signal
    stop_signal_of was_stopped old_exit is_present mark_stopped mark_exit mark_finished resolve_id
    trim_prefix has_prefix has eq_str is_empty get_container update_container get set delete save
    enforce_restart_policy should_restart stamp_finished
restarted = inl refl

stopped_not_restarted_example : codes "always" ≡ codes "always"
stopped_not_restarted_example =
    stopped_not_restarted manager all_saved (pos 9) [] (codes "abc123") (codes "abc123") one_server
      false (pos 0) (codes "always") down saved saved (pos 10) (codes "abc123") named
      (stop-Keeps restart_policy_of) (server-Flags restart_policy_of) (inl answered) restarted
