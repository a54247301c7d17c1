-- ===== src/Lxc/Vmid/Tests.antt =====
-- A cluster with two guests, and two creates in it.
use lxc2docker.Prelude.{ℕ, ◌≡◌, refl, [], ◌∷◌, List, some}
use lxc2docker.Lxc.Vmid.{
  has_id, delete_id, drop_committed, search_vmid, vmid, vmid_lower_bound, lowest_free,
  allocate_vmid, release_vmid,
}
use lxc2docker.Lxc.Vmid.Search.{Lowest, allocate_vmid-Lowest}
use lxc2docker.Lxc.Vmid.Creates.{
  Cluster, begin, commit, idle, Reach, here, next, IsSafe, reach-IsSafe,
}

abbrev guests : List ℕ
guests = 100 ∷ 102 ∷ []

allocate_vmid-Lowest_example :
    (id : ℕ) × (allocate_vmid 0 (some guests) (101 ∷ 102 ∷ [])
      ≡ (id ∷ drop_committed guests (101 ∷ 102 ∷ []), vmid id))
    × Lowest guests (drop_committed guests (101 ∷ 102 ∷ [])) vmid_lower_bound id
allocate_vmid-Lowest_example = allocate_vmid-Lowest guests (101 ∷ 102 ∷ [])

third_free : allocate_vmid 0 (some guests) (101 ∷ 102 ∷ []) ≡ (103 ∷ 101 ∷ [], vmid 103)
unfolding allocate_vmid lowest_free drop_committed search_vmid has_id
third_free = refl

-- One create has a free id, and has written its configuration; another asks for 200.
abbrev busy : Cluster
busy = record {
  used = 101 ∷ guests;
  reserved = 200 ∷ 101 ∷ [];
  in_flight = 200 ∷ 101 ∷ [];
  undone = [];
}

run : Reach (idle guests) busy
unfolding allocate_vmid lowest_free drop_committed search_vmid has_id
run =
    next
      (next (next here (begin (idle guests) 0 101 (101 ∷ []) refl refl)) (
        commit (record { used = guests; reserved = 101 ∷ []; in_flight = 101 ∷ []; undone = [] })
          101 refl))
      (begin
        (record { used = 101 ∷ guests; reserved = 101 ∷ []; in_flight = 101 ∷ []; undone = [] }) 200
        200 (200 ∷ 101 ∷ []) refl refl)

reach-IsSafe_example : IsSafe busy
reach-IsSafe_example = reach-IsSafe guests busy run

-- Without that condition: the id of a committed create is no reservation any more, so after the
-- create has failed and destroyed its container it is given to another; its deferred release drops
-- the reservation of that one, and a third create is given the same id.
second_create : allocate_vmid 101 (some guests) [] ≡ (101 ∷ [], vmid 101)
unfolding allocate_vmid has_id
second_create = refl

third_create : allocate_vmid 101 (some guests) (release_vmid 101 (101 ∷ [])) ≡ (101 ∷ [], vmid 101)
unfolding allocate_vmid release_vmid has_id delete_id
third_create = refl
