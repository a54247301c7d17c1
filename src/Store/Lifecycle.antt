-- ===== src/Store/Lifecycle.antt =====
-- internal/store/store.go: `LockContainerLifecycle`, the guard that serializes the work on one
-- container. The lock objects stand in a heap, since goroutines that took one keep it after the
-- table has changed; a guard is one call, from its entry to the end of its release.
pub mod Invariant
pub mod Preserved
pub mod Exclusion
mod Tests
use lxc2docker.Prelude.{
  ℕ, suc, ◌+◌, ◌-◌, ◌≡◌, Bool, true, false, ◌&&◌, List, [], ◌∷◌, ◌++◌, Option, none, some,
  if◌then◌else◌, ◌==◌,
}
use lxc2docker.Strings.{Str}
use lxc2docker.Dict.{Dict, get, set, delete}

-- `containerLifecycleLock`; `locked` is the state of its mutex.
pub record LifecycleLock : Type 0 where
  pub locked : Bool
  pub refs : ℕ

-- Addresses from `next` on are not allocated.
pub record Locks : Type 0 where
  pub table : Dict ℕ
  pub heap : ℕ → LifecycleLock
  pub next : ℕ

abbrev pub new_lock : LifecycleLock
new_lock = record { locked = false; refs = 0 }

unfoldable pub store_lock : ℕ → LifecycleLock → (ℕ → LifecycleLock) → ℕ → LifecycleLock
store_lock l x heap m = if m == l then x else heap m

abbrev pub add_ref : LifecycleLock → LifecycleLock
add_ref x = record x { refs = suc x.refs }

abbrev pub set_locked : Bool → LifecycleLock → LifecycleLock
set_locked b x = record x { locked = b }

-- The entry, up to where `lifecycleMu` is released: a lock is found or made, and counted.
unfoldable pub register : Str → Locks → Locks × ℕ
unfolding store_lock
register id k = elim (get id k.table) [
  | some l ↦ (record k { heap = store_lock l (add_ref (k.heap l)) k.heap }, l)
  | none ↦ (
    record {
      table = set id k.next k.table;
      heap = store_lock k.next (add_ref new_lock) k.heap;
      next = suc k.next;
    },
    k.next,
  )
]

-- `s.lifecycleLocks[id] == lock`
unfoldable pub is_entry : Str → ℕ → Dict ℕ → Bool
is_entry id l table = elim (get id table) [ none ↦ false | some m ↦ m == l ]

-- The end of the release, under `lifecycleMu`: the last user of an entry deletes it.
unfoldable pub drop_ref : Str → ℕ → Locks → Locks
unfolding is_entry store_lock
drop_ref id l k =
    let left = (k.heap l).refs - 1 in
    record k {
      table = if left == 0 && is_entry id l k.table then delete id k.table else k.table;
      heap = store_lock l ((record (k.heap l) { refs = left })) k.heap;
    }

unfoldable pub set_mutex : Bool → ℕ → Locks → Locks
unfolding store_lock
set_mutex b l k = record k { heap = store_lock l (set_locked b (k.heap l)) k.heap }

pub data Phase : Type 0 where
  waiting holding unlocked : Phase

pub record Guard : Type 0 where
  pub id : Str
  pub lock : ℕ
  pub phase : Phase

pub record System : Type 0 where
  pub locks : Locks
  pub guards : List Guard

abbrev pub guard : Str → ℕ → Phase → Guard
guard id l p = record { id = id; lock = l; phase = p }

abbrev pub no_guards : System
no_guards = record { locks = record { table = []; heap = λ l. new_lock; next = 0 }; guards = [] }

-- One atomic piece of a call of some goroutine: the entry, `lock.mu.Lock()` when the mutex is free,
-- `lock.mu.Unlock()`, and the rest of the release.
pub data Step : System → System → Type 0 where
  enter :
      (id : Str) (s : System)
      → Step s (record {
        locks = (register id s.locks).0;
        guards = guard id (register id s.locks).1 waiting ∷ s.guards;
      })
  acquire :
      (id : Str) (l : ℕ) (k : Locks) (xs ys : List Guard)
      → (k.heap l).locked ≡ false
      → Step
          (record { locks = k; guards = xs ++ guard id l waiting ∷ ys })
          (record { locks = set_mutex true l k; guards = xs ++ guard id l holding ∷ ys })
  unlock :
      (id : Str) (l : ℕ) (k : Locks) (xs ys : List Guard)
      → Step
          (record { locks = k; guards = xs ++ guard id l holding ∷ ys })
          (record { locks = set_mutex false l k; guards = xs ++ guard id l unlocked ∷ ys })
  leave :
      (id : Str) (l : ℕ) (k : Locks) (xs ys : List Guard)
      → Step
          (record { locks = k; guards = xs ++ guard id l unlocked ∷ ys })
          (record { locks = drop_ref id l k; guards = xs ++ ys })

pub data Steps : System → System → Type 0 where
  done : (s : System) → Steps s s
  then_step : {s t u : System} → Steps s t → Step t u → Steps s u
