-- ===== src/Store/Containers/Addresses.antt =====
-- The life of the addresses when creates, removals and failed creates interleave: each step is one
-- operation of the store under its lock. An address that was handed out is pending until a record
-- with it is stored or it is given back. A create adds a record without an address (`put_unmanaged`)
-- and writes the address to it when the container is made (`assign`); a warm reuse, with an address
-- that it read of the same record, is `rewrite` if that record has kept it.
pub mod Pieces
pub mod Safety
pub mod Unique
use lxc2docker.Prelude.{
  ℕ, ◌+◌, ◌≤◌, ◌<◌, ◌≡◌, ◌≢◌, refl, Bool, true, false, List, [], ◌∷◌, ◌++◌, Option, none, some,
  arith, if◌then◌else◌, Bool-cases, Option-cases, inl, inr, ◌⊎◌,
}
use lxc2docker.Strings.{Str, eq_str, eq_str_iff}
use lxc2docker.Dict.{Dict, get, set, delete, values, get-set, get-delete, In-values}
use lxc2docker.Store.Records.{ContainerRecord}
use lxc2docker.Store.State.{State}
use lxc2docker.Store.Ip.{
  parse_managed_ip_octet, managed_ip, used_ip_octets, has_octet, append_free_ip, allocate_octet,
}
use lxc2docker.Store.Ip.Octets.{not_used, parse-managed_ip, has_octet-append}
use lxc2docker.Store.Ip.Allocate.{allocate_sound}
use lxc2docker.Store.Ip.Pool.{Distinct, Distinct-snoc, allocate-Shrinks, allocate-Leaves}
use lxc2docker.Store.Containers.{put_container, drop_container, free_octet}

pub record Daemon : Type 0 where
  pub state : State
  pub pending : List ℕ

-- The octet of a record.
abbrev pub Holds : ContainerRecord → ℕ → Type 0
Holds r o = parse_managed_ip_octet r.ip_address ≡ some o

pub data Step (d : Daemon) : Daemon → Type 0 where
  allocate :
      (o : ℕ)
      → (allocate_octet d.state).1 ≡ some o
      → Step d (record { state = (allocate_octet d.state).0; pending = o ∷ d.pending })
  exhausted :
      (allocate_octet d.state).1 ≡ none → Step d (record d { state = (allocate_octet d.state).0 })
  assign :
      (ps qs : List ℕ) (o : ℕ) (r : ContainerRecord)
      → d.pending ≡ ps ++ o ∷ qs
      → r.ip_address ≡ managed_ip o
      → Step d (record { state = put_container r d.state; pending = ps ++ qs })
  put_unmanaged :
      (r : ContainerRecord)
      → parse_managed_ip_octet r.ip_address ≡ none
      → Step d (record d { state = put_container r d.state })
  rewrite :
      (r old : ContainerRecord)
      → get r.id d.state.containers ≡ some old
      → r.ip_address ≡ old.ip_address
      → Step d (record d { state = put_container r d.state })
  give_back :
      (ps qs : List ℕ) (o : ℕ) (st : State)
      → d.pending ≡ ps ++ o ∷ qs
      → free_octet (managed_ip o) d.state ≡ some st
      → Step d (record { state = st; pending = ps ++ qs })
  remove : (id : Str) → Step d (record d { state = drop_container id d.state })

pub data Reach (d : Daemon) : Daemon → Type 0 where
  here : Reach d d
  next : {e f : Daemon} → Reach d e → Step e f → Reach d f

-- No two containers hold the same managed address.
abbrev pub UniqueAddresses : Dict ContainerRecord → Type 0
UniqueAddresses cs =
    (i j : Str) (r t : ContainerRecord) (o : ℕ)
    → get i cs ≡ some r
    → get j cs ≡ some t
    → Holds r o
    → Holds t o
    → i ≡ j

-- The container map and the counter.
pub record HeldOk (next_ip : ℕ) (cs : Dict ContainerRecord) : Type 0 where
  pub unique : UniqueAddresses cs
  pub held_low :
      (i : Str) (r : ContainerRecord) (o : ℕ) → get i cs ≡ some r → Holds r o → o < next_ip

-- The free list and the counter.
pub record FreeOk (next_ip : ℕ) (free : List ℕ) : Type 0 where
  pub distinct : Distinct free
  pub low : (o : ℕ) → has_octet o free ≡ true → o < next_ip

-- A pending octet is in the range, below the counter, not free, and held by no container.
pub record IsPending (st : State) (o : ℕ) : Type 0 where
  pub lo : 2 ≤ o
  pub hi : o ≤ 254
  pub low : o < st.next_ip
  pub not_free : has_octet o st.free_ips ≡ false
  pub unheld : (i : Str) (r : ContainerRecord) → get i st.containers ≡ some r → ¬ Holds r o

pub record IsSafe (d : Daemon) : Type 0 where
  pub start : 2 ≤ d.state.next_ip
  pub held : HeldOk d.state.next_ip d.state.containers
  pub free : FreeOk d.state.next_ip d.state.free_ips
  pub once : Distinct d.pending
  pub pending : (o : ℕ) → has_octet o d.pending ≡ true → IsPending d.state o
