-- ===== src/Store/Lifecycle/Exclusion.antt =====
-- What `LockContainerLifecycle` promises to its callers, in every interleaving.
use lxc2docker.Prelude.{ℕ, ◌≤◌, ◌≡◌, false, List, some, arith, ◌==◌, In, inl, inr, Bool-cases}
use lxc2docker.Strings.{Str, eq_str_iff}
use lxc2docker.Dict.{get}
use lxc2docker.Store.Lifecycle.{Locks, waiting, Guard, guard, System, Steps, no_guards}
use lxc2docker.Store.Lifecycle.Invariant.{
  Sound, count_guards, on_lock, owns_lock, owns_container, count_some, count_pos, count_mono,
}
use lxc2docker.Store.Lifecycle.Preserved.{Steps-Sound}

pub record Serialized (s : System) : Type 0 where
  pub exclusive : (id : Str) → count_guards (owns_container id) s.guards ≤ 1
  pub unrelated :
      (id : Str) (l : ℕ)
      → In (guard id l waiting) s.guards
      → count_guards (owns_container id) s.guards ≡ 0
      → (s.locks.heap l).locked ≡ false
  pub no_leak :
      (id : Str) (l : ℕ) → get id s.locks.table ≡ some l → (g : Guard) × In g s.guards × (g.id ≡ id)

exclusive_lem :
    (k : Locks) (gs : List Guard) (id : Str) → Sound k gs → count_guards (owns_container id) gs ≤ 1
unfolding owns_container owns_lock
exclusive_lem k gs id s = elim (Bool-cases (count_guards (owns_container id) gs == 0)) [
  | inl e ↦ ground arith
  | inr e ↦
      let (g, i, t) = count_some (owns_container id) gs (ground arith) in
      let entry : get id k.table ≡ some g.lock = ground (arith, s.known g i, eq_str_iff g.id id) in
      let on_one =
        count_mono (owns_container id) (owns_lock g.lock) gs
          (λ a j u. ground (arith, s.known a j, eq_str_iff a.id id, entry)) in
      ground (arith, s.owned g.lock, on_one)
]

unrelated_lem :
    (k : Locks) (gs : List Guard) (id : Str) (l : ℕ)
    → Sound k gs
    → In (guard id l waiting) gs
    → count_guards (owns_container id) gs ≡ 0
    → (k.heap l).locked ≡ false
unfolding owns_container owns_lock
unrelated_lem k gs id l s i none_owns = elim (Bool-cases (k.heap l).locked) [
  | inr e ↦ e
  | inl e ↦
      let (g, j, t) = count_some (owns_lock l) gs (ground (arith, s.owned l)) in
      let same : g.id ≡ id =
        s.apart g.id id l (ground (arith, s.known g j)) (s.known (guard id l waiting) i) in
      absurd (count_pos (owns_container id) g gs j (ground (arith, eq_str_iff g.id id)) none_owns)
]

no_leak_lem :
    (k : Locks) (gs : List Guard) (id : Str) (l : ℕ)
    → Sound k gs
    → get id k.table ≡ some l
    → (g : Guard) × In g gs × (g.id ≡ id)
unfolding on_lock
no_leak_lem k gs id l s h =
    let (g, i, t) = count_some (on_lock l) gs (s.in_use id l h) in
    (g, i, s.apart g.id id l (ground (arith, s.known g i)) h)

-- However the calls of LockContainerLifecycle interleave: no two goroutines hold the guard of one
-- container; one that waits finds its mutex free when nobody holds the guard of its own container;
-- and the table keeps an entry only for a container with a call under way.
pub lifecycle-Serialized : (s : System) → Steps no_guards s → Serialized s
lifecycle-Serialized s steps =
    let ok = Steps-Sound s steps in
    record {
      exclusive = λ id. exclusive_lem s.locks s.guards id ok;
      unrelated = λ id l. unrelated_lem s.locks s.guards id l ok;
      no_leak = λ id l. no_leak_lem s.locks s.guards id l ok;
    }
