-- ===== src/Lxc/State.antt =====
-- internal/lxc/manager.go: the state of a container, as it is read from `lxc-info`.
use lxc2docker.Prelude.{Bool, ◌||◌, Option, none, some, if◌then◌else◌, is_empty, ltb}
use lxc2docker.Strings.{Str, codes, eq_str, to_upper, trim_space, itoa}
use lxc2docker.Store.Records.{ContainerRecord}
use lxc2docker.Lxc.Forwards.Reconcile.{StateReply, state_is}

abbrev pub pve_lxc_path : Str
pve_lxc_path = codes "/var/lib/lxc"

-- The name and the path that a container has for LXC.
unfoldable pub lxc_name : Option ContainerRecord → Str → Str → Str × Str
lxc_name none id lxc_path = (id, lxc_path)
lxc_name (some rec) id lxc_path =
    if ltb 0 rec.vmid then (itoa rec.vmid, pve_lxc_path) else (id, lxc_path)

-- `none` is a command that fails.
unfoldable pub lxc_info_state : Option Str → Str
lxc_info_state none = codes "exited"
lxc_info_state (some out) =
    let state = to_upper (trim_space out) in
    if eq_str state (codes "STOPPED") || is_empty state
    then codes "exited"
    else if eq_str state (codes "FROZEN") || eq_str state (codes "FREEZING")
    then codes "paused"
    else codes "running"

-- `ct_gone` is whether the CT of the record belongs to another container now, and `info` what
-- `lxc-info` prints for a name and a path. No path gives an error.
unfoldable pub manager_state :
    Bool → (Str × Str → Option Str) → Option ContainerRecord → Str → Str → StateReply
manager_state ct_gone info rec id lxc_path =
    if ct_gone
    then state_is (codes "exited")
    else state_is (lxc_info_state (info (lxc_name rec id lxc_path)))
