-- ===== src/Lxc/Vmid.antt =====
-- internal/lxc/manager.go: VMIDs of Proxmox guests. `usedVMIDs` is a parameter: the ids that it finds
-- in the cluster's directories, or `none` for its error. A VMID that is asked for is 0 or less when
-- none is pinned, here 0.
pub mod Search
pub mod Creates
mod Tests
use lxc2docker.Prelude.{
  ℕ, zero, suc, ◌+◌, Bool, true, false, ◌||◌, List, [], ◌∷◌, ◌++◌, Option, none, some,
  if◌then◌else◌, length, ◌==◌,
}

unfoldable pub has_id : ℕ → List ℕ → Bool
has_id n [] = false
has_id n (m ∷ ms) = n == m || has_id n ms

unfoldable pub delete_id : ℕ → List ℕ → List ℕ
delete_id n [] = []
delete_id n (m ∷ ms) = let rest = delete_id n ms in if n == m then rest else m ∷ rest

abbrev pub vmid_lower_bound : ℕ
vmid_lower_bound = 100

-- The reservations that are not in use yet.
unfoldable pub drop_committed : List ℕ → List ℕ → List ℕ
drop_committed used [] = []
drop_committed used (n ∷ ns) =
    let rest = drop_committed used ns in if has_id n used then rest else n ∷ rest

-- The loop over the ids, with fuel.
unfoldable pub search_vmid : ℕ → ℕ → List ℕ → List ℕ → Option ℕ
search_vmid zero id used reserved = none
search_vmid (suc fuel) id used reserved =
    let rest = search_vmid fuel (id + 1) used reserved in
    if has_id id used || has_id id reserved then rest else some id

pub data VmidResult : Type 0 where
  vmid : ℕ → VmidResult
  read_failed : VmidResult
  in_use being_created : ℕ → VmidResult
  no_fuel : VmidResult

-- As many rounds as there are ids in the way, and one more.
unfoldable pub lowest_free : List ℕ → List ℕ → List ℕ × VmidResult
unfolding search_vmid
lowest_free used reserved =
    elim (search_vmid (suc (length (used ++ reserved))) vmid_lower_bound used reserved) [
      | none ↦ (reserved, no_fuel)
      | some id ↦ (id ∷ reserved, vmid id)
    ]

-- The reservations that it leaves, and the answer.
unfoldable pub allocate_vmid : ℕ → Option (List ℕ) → List ℕ → List ℕ × VmidResult
unfolding lowest_free drop_committed
allocate_vmid requested none reserved = (reserved, read_failed)
allocate_vmid zero (some used) reserved = lowest_free used (drop_committed used reserved)
allocate_vmid (suc n) (some used) reserved =
    if has_id (suc n) used
    then (reserved, in_use (suc n))
    else if has_id (suc n) reserved
    then (reserved, being_created (suc n))
    else (suc n ∷ reserved, vmid (suc n))

unfoldable pub release_vmid : ℕ → List ℕ → List ℕ
release_vmid id reserved = delete_id id reserved
