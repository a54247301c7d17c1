-- ===== src/Api/Exec/Tests.antt =====
-- Two clients that start the same exec instance, and one that was created but not started.
use lxc2docker.Prelude.{◌≤◌, ◌≡◌, refl, true, false, [], ◌∷◌, List, none}
use lxc2docker.Prelude.Int.{pos}
use lxc2docker.Strings.{codes}
use lxc2docker.Dict.{set, delete}
use lxc2docker.Api.Exec.{ExecRecord, Operation, create, claim, exited, add, prune, is_before}
use lxc2docker.Api.Exec.Once.{wins, grants, claims_bounded}

abbrev shell : ExecRecord
shell = record {
  id = codes "e1";
  container_id = codes "abc123";
  cmd = codes "sh" ∷ [];
  tty = true;
  detach_keys = [];
  attach_stdin = true;
  attach_stdout = true;
  attach_stderr = true;
  env = [];
  working_dir = [];
  user = [];
  privileged = false;
  pid = pos 0;
  exit_code = pos 0;
  running = false;
  started_at = none;
  pty = none;
}

abbrev race : List Operation
race =
    create shell
    ∷ claim (codes "e1") (pos 1)
    ∷ claim (codes "e1") (pos 2)
    ∷ exited (codes "e1") (pos 0)
    ∷ claim (codes "e1") (pos 3)
    ∷ []

claims_bounded_example : wins (codes "e1") race [] ≤ grants (codes "e1") race
claims_bounded_example = claims_bounded (codes "e1") race

-- The clean-up removes an instance that was not started yet, at any time.
created_is_pruned : prune (pos 1) (add shell []) ≡ []
unfolding prune add set delete is_before
created_is_pruned = refl
