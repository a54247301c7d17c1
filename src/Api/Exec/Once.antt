-- ===== src/Api/Exec/Once.antt =====
-- How often an exec instance is started.
use lxc2docker.Prelude.{
  ℕ, ◌+◌, ◌≤◌, ◌≡◌, refl, Bool, false, ◌&&◌, List, [], ◌∷◌, none, some, arith, if◌then◌else◌, inl,
  inr, Bool-cases, Option-cases,
}
use lxc2docker.Strings.{Str, eq_str, eq_str_iff}
use lxc2docker.Dict.{get, get-set, get-delete}
use lxc2docker.Store.Records.{Time}
use lxc2docker.Api.Exec.{
  ExecRecord, ExecStore, add, is_zero, mark_claimed, claim_start, update, mark_released,
  release_start, prune, mark_detached, mark_process, mark_exited, Operation, create, claim, release,
  start_detached, process_known, exited, pruned, perform,
}

count : Bool → ℕ
count b = if b then 1 else 0

-- The claims of the instance that succeed.
unfoldable pub wins : Str → List Operation → ExecStore → ℕ
unfolding count
wins k [] s = 0
wins k (claim id now ∷ os) s =
    count (eq_str id k && (claim_start id now s).1) + wins k os (perform (claim id now) s)
wins k (o ∷ os) s = wins k os (perform o s)

-- How often it is created, and how often a start is taken back.
unfoldable pub grants : Str → List Operation → ℕ
unfolding count
grants k [] = 0
grants k (create r ∷ os) = count (eq_str r.id k) + grants k os
grants k (release id ∷ os) = count (eq_str id k) + grants k os
grants k (o ∷ os) = grants k os

-- 1 while the instance is there and was not started.
open_starts : Str → ExecStore → ℕ
open_starts k s = elim (get k s) [ none ↦ 0 | some r ↦ if is_zero r.started_at then 1 else 0 ]

open_starts-one : (k : Str) (s : ExecStore) → open_starts k s ≤ 1
unfolding open_starts
open_starts-one k s = ground arith

-- A write that does not take the time of the start away opens nothing.
open_starts-update :
    (k id : Str) (fn : ExecRecord → ExecRecord) (s : ExecStore)
    → ((r : ExecRecord) → is_zero r.started_at ≡ false → is_zero (fn r).started_at ≡ false)
    → open_starts k (update id fn s) ≤ open_starts k s
unfolding open_starts update
open_starts-update k id fn s h = elim (Option-cases (get id s)) [
  | inl q ↦ rw (update, q) (omega arith)
  | inr (r, q) ↦ ground (arith, q, get-set id k (fn r) s, eq_str_iff id k, h r)
]

open_starts-prune :
    (k : Str) (now : Time) (s : ExecStore) → open_starts k (prune now s) ≤ open_starts k s
unfolding open_starts prune get
open_starts-prune k now [] = omega arith
open_starts-prune k now ((id, r) ∷ s) =
    ground (arith, open_starts-prune k now s, get-delete id k (prune now s), eq_str_iff id k)

-- A claim that succeeds closes the instance.
open_starts-claim :
    (k id : Str) (now : Time) (s : ExecStore)
    → count (eq_str id k && (claim_start id now s).1) + open_starts k (claim_start id now s).0
      ≤ open_starts k s
unfolding open_starts claim_start count is_zero mark_claimed
open_starts-claim k id now s = elim (Option-cases (get id s)) [
  | inl q ↦ rw (claim_start, q) (ground arith)
  | inr (r, q) ↦ ground (arith, q, get-set id k (mark_claimed now r) s, eq_str_iff id k)
]

open_starts-other :
    (k id : Str) (fn : ExecRecord → ExecRecord) (s : ExecStore)
    → eq_str id k ≡ false
    → open_starts k (update id fn s) ≤ open_starts k s
unfolding open_starts update
open_starts-other k id fn s h = elim (Option-cases (get id s)) [
  | inl q ↦ rw (update, q) (omega arith)
  | inr (r, q) ↦ ground (arith, q, get-set id k (fn r) s, h)
]

open_starts-release :
    (k id : Str) (s : ExecStore)
    → open_starts k (release_start id s) ≤ count (eq_str id k) + open_starts k s
unfolding count release_start
open_starts-release k id s = elim (Bool-cases (eq_str id k)) [
  | inl e ↦ ground (arith, e, open_starts-one k (release_start id s))
  | inr e ↦ ground (arith, e, open_starts-other k id mark_released s e)
]

open_starts-add :
    (k : Str) (r : ExecRecord) (s : ExecStore)
    → open_starts k (add r s) ≤ count (eq_str r.id k) + open_starts k s
unfolding count add open_starts
open_starts-add k r s = ground (arith, get-set r.id k r s)

wins-bounded :
    (k : Str) (os : List Operation) (s : ExecStore) → wins k os s ≤ grants k os + open_starts k s
unfolding wins grants perform
wins-bounded k [] s = omega arith
wins-bounded k (create r ∷ os) s = omega (arith, wins-bounded k os (add r s), open_starts-add k r s)
wins-bounded k (claim id now ∷ os) s =
    omega (arith, wins-bounded k os (claim_start id now s).0, open_starts-claim k id now s)
wins-bounded k (release id ∷ os) s =
    omega (arith, wins-bounded k os (release_start id s), open_starts-release k id s)
wins-bounded k (start_detached id now ∷ os) s = omega (
  arith,
  wins-bounded k os (update id (mark_detached now) s),
  open_starts-update k id (mark_detached now) s (λ r h. unfold mark_detached is_zero in refl),
)
wins-bounded k (process_known id pty pid ∷ os) s = omega (
  arith,
  wins-bounded k os (update id (mark_process pty pid) s),
  open_starts-update k id (mark_process pty pid) s (λ r h. unfold mark_process in h),
)
wins-bounded k (exited id code ∷ os) s = omega (
  arith,
  wins-bounded k os (update id (mark_exited code) s),
  open_starts-update k id (mark_exited code) s (λ r h. unfold mark_exited in h),
)
wins-bounded k (pruned now ∷ os) s =
    omega (arith, wins-bounded k os (prune now s), open_starts-prune k now s)

-- In every history of the table, whatever order its operations come in, an exec instance is claimed
-- with success at most once for each time that it is created or that a start of it is taken back. So
-- one that is created once, and no start of which is taken back, is run at most once.
pub claims_bounded : (k : Str) (os : List Operation) → wins k os [] ≤ grants k os
unfolding open_starts get
claims_bounded k os = omega (arith, wins-bounded k os [])
