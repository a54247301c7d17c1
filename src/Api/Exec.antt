-- ===== src/Api/Exec.antt =====
-- internal/api/exec.go: the table of exec instances, and what the requests and the running commands
-- write to it. Each operation holds the lock of the table, so a history is a list of operations.
pub mod Once
mod Tests
use lxc2docker.Prelude.{
  ℕ, zero, suc, Bool, true, false, not, ◌&&◌, ◌||◌, List, [], ◌∷◌, ◌++◌, Option, none, some,
  if◌then◌else◌, ltb, ◌==◌,
}
use lxc2docker.Prelude.Int.{ℤ, pos, ◌-ℤ◌, ltb_ℤ}
use lxc2docker.Strings.{Str, eq_str, insert_sorted}
use lxc2docker.Dict.{Dict, get, set, delete}
use lxc2docker.Store.Records.{Time}

-- `started_at` is none for the zero time; a terminal is the number of its file.
pub record ExecRecord : Type 0 where
  pub id : Str
  pub container_id : Str
  pub cmd : List Str
  pub tty : Bool
  pub detach_keys : Str
  pub attach_stdin : Bool
  pub attach_stdout : Bool
  pub attach_stderr : Bool
  pub env : List Str
  pub working_dir : Str
  pub user : Str
  pub privileged : Bool
  pub pid : ℤ
  pub exit_code : ℤ
  pub running : Bool
  pub started_at : Option Time
  pub pty : Option ℕ

abbrev pub ExecStore : Type 0
ExecStore = Dict ExecRecord

unfoldable pub add : ExecRecord → ExecStore → ExecStore
add r s = set r.id r s

unfoldable pub is_zero : Option Time → Bool
is_zero none = true
is_zero (some t) = false

unfoldable pub mark_claimed : Time → ExecRecord → ExecRecord
mark_claimed now r = record r { running = true; started_at = some now }

unfoldable pub claim_start : Str → Time → ExecStore → ExecStore × Bool
claim_start id now s = elim (get id s) [
  | none ↦ (s, false)
  | some r ↦
      if r.running || not (is_zero r.started_at)
      then (s, false)
      else (set id (mark_claimed now r) s, true)
]

unfoldable pub update : Str → (ExecRecord → ExecRecord) → ExecStore → ExecStore
update id fn s = elim (get id s) [ none ↦ s | some r ↦ set id (fn r) s ]

unfoldable pub mark_released : ExecRecord → ExecRecord
mark_released r = record r { running = false; started_at = none }

unfoldable pub release_start : Str → ExecStore → ExecStore
release_start id s = update id mark_released s

unfoldable pub ids_for_container : Str → ExecStore → List Str
ids_for_container cid [] = []
ids_for_container cid ((id, r) ∷ s) =
    let ids = ids_for_container cid s in
    if eq_str r.container_id cid then insert_sorted id ids else ids

-- Five minutes, in nanoseconds.
abbrev exec_retention : ℤ
exec_retention = pos 300000000000

-- The zero time is before every other.
unfoldable pub is_before : Option Time → Time → Bool
is_before none cutoff = true
is_before (some t) cutoff = ltb_ℤ t cutoff

unfoldable pub prune : Time → ExecStore → ExecStore
prune now [] = []
prune now ((id, r) ∷ s) =
    let rest = prune now s in
    if not r.running && is_before r.started_at (now -ℤ exec_retention)
    then delete id rest
    else (id, r) ∷ rest

-- What the handlers and the runners write: a detached start, what is known of the process, and its
-- exit.
unfoldable pub mark_detached : Time → ExecRecord → ExecRecord
mark_detached now r = record r {
  running = true;
  started_at = some now;
  exit_code = pos 0;
  pid = pos 0;
}

unfoldable pub or_kept : {A : Type 0} → Option A → A → A
or_kept none a = a
or_kept (some b) a = b

-- A terminal that was opened, and the process, if it has begun.
unfoldable pub mark_process : Option ℕ → Option ℤ → ExecRecord → ExecRecord
unfolding or_kept
mark_process pty pid r = record r {
  pty = (elim pty [ none ↦ r.pty | some t ↦ some t ]);
  pid = or_kept pid r.pid;
}

unfoldable pub mark_exited : ℤ → ExecRecord → ExecRecord
mark_exited code r = record r { running = false; pid = pos 0; exit_code = code; pty = none }

pub data Operation : Type 0 where
  create : ExecRecord → Operation
  claim : Str → Time → Operation
  release : Str → Operation
  start_detached : Str → Time → Operation
  process_known : Str → Option ℕ → Option ℤ → Operation
  exited : Str → ℤ → Operation
  pruned : Time → Operation

unfoldable pub perform : Operation → ExecStore → ExecStore
perform (create r) s = add r s
perform (claim id now) s = (claim_start id now s).0
perform (release id) s = release_start id s
perform (start_detached id now) s = update id (mark_detached now) s
perform (process_known id pty pid) s = update id (mark_process pty pid) s
perform (exited id code) s = update id (mark_exited code) s
perform (pruned now) s = prune now s
