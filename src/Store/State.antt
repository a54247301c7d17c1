-- ===== src/Store/State.antt =====
-- internal/store/store.go: the state in memory, the JSON file behind it, and how one is written to
-- the other. What the file system answers is an argument of each operation.
use lxc2docker.Prelude.{ℕ, List, [], Option, none, some}
use lxc2docker.Dict.{Dict}
use lxc2docker.Store.Records.{ContainerRecord, ImageRecord, VolumeRecord, NetworkRecord}

pub record State : Type 0 where
  pub containers : Dict ContainerRecord
  pub images : Dict ImageRecord
  pub volumes : Dict VolumeRecord
  pub networks : Dict NetworkRecord
  pub next_ip : ℕ
  pub free_ips : List ℕ

-- A file of JSON is named by the state that `json.Encoder` wrote to it; what its text means to
-- `json.Decoder` is an argument of `new_at`. The file `state.json.tmp`: cut short by an error, or a whole encoding.
pub data TempFile : Type 0 where
  partial : TempFile
  whole : State → TempFile

pub record Files : Type 0 where
  pub state_json : Option State
  pub temp : Option TempFile

pub record Store : Type 0 where
  pub state : State
  pub files : Files

-- Which call of `save` fails, if one does.
pub data SaveOutcome : Type 0 where
  open_fails encode_fails close_fails rename_fails saved : SaveOutcome

pub data StoreError : Type 0 where
  mkdir_failed load_failed save_failed ip_space_exhausted : StoreError

-- The temporary file is written first, and takes the place of the state file only when complete.
save_files : SaveOutcome → State → Files → Files
save_files open_fails st f = f
save_files encode_fails st f = record f { temp = some partial }
save_files close_fails st f = record f { temp = some partial }
save_files rename_fails st f = record f { temp = some (whole st) }
save_files saved st f = record f { state_json = some st; temp = none }

save_error : SaveOutcome → Option StoreError
save_error saved = none
save_error _ = some save_failed

unfoldable pub save : SaveOutcome → Store → Store × Option StoreError
unfolding save_files save_error
save w s = (record s { files = save_files w s.state s.files }, save_error w)

abbrev pub fresh_state : State
fresh_state = record {
  containers = [];
  images = [];
  volumes = [];
  networks = [];
  next_ip = 2;
  free_ips = [];
}

-- What `NewAt` meets: whether the directory can be made and the state file, if there, be read.
pub data OpenOutcome : Type 0 where
  mkdir_fails read_fails opens : OpenOutcome

-- A state file that is not there is no error. `decode` is what `json.Decoder` makes of the text that
-- `json.Encoder` writes for a state: a state, or an error.
unfoldable pub new_at :
    (State → Option State) → OpenOutcome → Files → (Option Store) × (Option StoreError)
new_at decode mkdir_fails f = (none, some mkdir_failed)
new_at decode read_fails f = elim f.state_json [
  | none ↦ (some (record { state = fresh_state; files = f }), none)
  | some st ↦ (none, some load_failed)
]
new_at decode opens f = elim f.state_json [
  | none ↦ (some (record { state = fresh_state; files = f }), none)
  | some written ↦ elim (decode written) [
    | none ↦ (none, some load_failed)
    | some st ↦ (some (record { state = st; files = f }), none)
  ]
]
