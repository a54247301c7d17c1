-- ===== src/Lxc/Restart/Retries.antt =====
-- The cap on restarts of an "on-failure" container.
use lxc2docker.Prelude.{
  ℕ, suc, ◌+◌, ◌≤◌, ◌<◌, ◌≡◌, ◌∙◌, refl, Bool, true, false, not, ◌&&◌, List, [], ◌∷◌, ◌++◌, none,
  some, arith, if◌then◌else◌, inl, inr, ◌⊎◌, Bool-cases, is_empty,
}
use lxc2docker.Prelude.Int.{pos, ◌+ℤ◌}
use lxc2docker.Strings.{Str, codes, eq_str, eq_str_refl}
use lxc2docker.Store.Records.{Time, ContainerRecord}
use lxc2docker.Store.State.{
  Store, StoreError, SaveOutcome, saved, open_fails, encode_fails, close_fails, rename_fails,
}
use lxc2docker.Store.Containers.{get_container, update_container}
use lxc2docker.Store.Containers.Update.{update_all_or_nothing, update_saved, update_missing}
use lxc2docker.Lxc.Restart.{
  Runtime, Action, start_call, remove_call, remove_port_forwards, event, should_restart,
  should_start_never_started, count_restart, event_if, forwards_of, destroy_container,
  start_created, restart, enforce_restart_policy,
}

unfoldable pub is_restart : Action → Bool
is_restart (event id name) = eq_str name (codes "restart")
is_restart (start_call id) = false
is_restart (remove_call id) = false
is_restart (remove_port_forwards ip) = false

-- The restarts that were announced.
unfoldable pub restarts : List Action → ℕ
unfolding is_restart
restarts [] = 0
restarts (a ∷ acts) = let rest = restarts acts in if is_restart a then suc rest else rest

-- The container is gone, or may be restarted `limit` times, of which `used` are used.
abbrev pub Retries : Str → ℕ → ℕ → Store → Type 0
Retries id limit used s =
    (get_container id s ≡ none)
    ⊎ ((rec : ContainerRecord) × (get_container id s ≡ some rec)
        × (rec.id ≡ id)
        × (rec.restart_policy ≡ codes "on-failure")
        × (rec.restart_max_retry ≡ pos limit)
        × (rec.restart_count ≡ pos used))

-- What else happens to the store leaves the policy of the container alone, or removes it.
abbrev pub Keeps : Str → (Store → Store) → Type 0
Keeps id f = (limit used : ℕ) (s : Store) → Retries id limit used s → Retries id limit used (f s)

-- One tick of the watcher, and what other parts of the daemon do before it.
pub record Round : Type 0 where
  pub between : Store → Store
  pub runtime : Runtime
  pub stamp_save : SaveOutcome
  pub count_save : SaveOutcome
  pub now : Time

abbrev pub Lawful : Str → Round → Type 0
Lawful id r =
    Keeps id r.between
    × Keeps id (λ s. (r.runtime.start id s).0)
    × Keeps id (λ s. (r.runtime.remove id s).0)

unfoldable pub run_rounds : Str → List Round → Store → Store × List Action
run_rounds id [] s = (s, [])
run_rounds id (r ∷ rs) s =
    let (s', done) =
      enforce_restart_policy r.runtime r.stamp_save r.count_save r.now id (r.between s) in
    let (s'', later) = run_rounds id rs s' in (s'', done ++ later)

pub restarts-append :
    (acts more : List Action) → restarts (acts ++ more) ≡ restarts acts + restarts more
unfolding restarts
restarts-append [] more = omega arith
restarts-append (a ∷ acts) more = ground (arith, restarts-append acts more)

-- The counts that are lost with a save that fails.
unfoldable pub lost : SaveOutcome → ℕ
lost saved = 0
lost _ = 1

-- A tick counts the restarts that it announces, but for a lost one, and does not pass the limit.
abbrev pub Counted : Str → ℕ → ℕ → SaveOutcome → Store × List Action → Type 0
Counted id limit used w (s, acts) =
    (used' : ℕ) × Retries id limit used' s
    × (used' ≤ limit)
    × (restarts acts + used ≤ used' + lost w)

restarts-event_if :
    (ok : Bool) (id name : Str)
    → eq_str name (codes "restart") ≡ false
    → restarts (event_if ok id name) ≡ 0
unfolding restarts event_if is_restart
restarts-event_if true id name h = ground arith
restarts-event_if false id name h = refl

pub restarts-forwards_of : (ip : Str) → restarts (forwards_of ip) ≡ 0
unfolding restarts forwards_of is_restart
restarts-forwards_of ip = elim (Bool-cases (is_empty ip)) [ inl e ↦ rw e refl | inr e ↦ rw e refl ]

lost_one :
    (w : SaveOutcome) (id : Str) (s : Store) (rec : ContainerRecord) (x : StoreError)
    → get_container id s ≡ some rec
    → (update_container w id count_restart s).2 ≡ some x
    → lost w ≡ 1
unfolding lost
lost_one saved id s rec x found failed =
    let (ok, _, _, _) = update_saved id count_restart s rec found in absurd (cc (ok, failed))
lost_one open_fails id s rec x found failed = refl
lost_one encode_fails id s rec x found failed = refl
lost_one close_fails id s rec x found failed = refl
lost_one rename_fails id s rec x found failed = refl

module _ (rt : Runtime) (id : Str) (limit : ℕ) (w : SaveOutcome)
    (keeps_start : Keeps id (λ s. (rt.start id s).0))
    (keeps_remove : Keeps id (λ s. (rt.remove id s).0)) where
  pub remove-Counted :
      (before : List Action) (used : ℕ) (s : Store)
      → restarts before ≡ 0
      → used ≤ limit
      → Retries id limit used s
      → Counted id limit used w (destroy_container rt before id s)
  unfolding destroy_container restarts is_restart
  remove-Counted before used s b le r = (
    used,
    keeps_remove limit used s r,
    le,
    ground (
      arith,
      b,
      restarts-append before (remove_call id ∷ event_if (rt.remove id s).1 id (codes "destroy")),
      restarts-event_if (rt.remove id s).1 id (codes "destroy") (unfold eq_str in refl),
    ),
  )

  pub created-Counted :
      (rec : ContainerRecord) (used : ℕ) (s : Store)
      → rec.id ≡ id
      → used ≤ limit
      → Retries id limit used s
      → Counted id limit used w (start_created rt rec s)
  unfolding start_created restarts is_restart
  created-Counted rec used s e le r =
      elim (Bool-cases
        (should_start_never_started rec && not (eq_str (rt.state rec.id) (codes "running")))) [
          | inr n ↦ rw (start_created, n) (used, r, le, omega arith)
          | inl y ↦
              rw (start_created, y, e)
                (
                  used,
                  keeps_start limit used s r,
                  le,
                  ground (
                    arith,
                    restarts-event_if (rt.start id s).1 id (codes "start") (unfold eq_str in refl),
                  ),
                )
        ]

  pub below_limit :
      (rec : ContainerRecord) (used : ℕ)
      → 1 ≤ limit
      → rec.restart_policy ≡ codes "on-failure"
      → rec.restart_max_retry ≡ pos limit
      → rec.restart_count ≡ pos used
      → should_restart rec ≡ true
      → used < limit
  unfolding should_restart eq_str
  below_limit rec used some_retries p m c h =
      let h' = rw (should_restart, p, m, c) at h in ground arith

  counted_restart :
      (used : ℕ) (s : Store)
      → Retries id limit used s
      → (used' : ℕ) × Retries id limit used' (update_container w id count_restart s).0
        × (used' ≤ suc used)
        × (suc used ≤ used' + lost w)
  unfolding count_restart ◌+ℤ◌
  counted_restart used s (inl gone) =
      (suc used, rw (update_missing w id count_restart s gone) (inl gone), omega arith, omega arith)
  counted_restart used s (inr (rec, found, e, p, m, c)) =
      elim (update_all_or_nothing id count_restart s rec w found) [
        | inl (_, _, g, _) ↦ (
          suc used,
          inr (count_restart rec, ground (arith, g id, eq_str_refl id), e, p, m, ground arith),
          omega arith,
          omega arith,
        )
        | inr ((x, failed), _, g, _) ↦ (
          used,
          inr (rec, g id ∙ found, e, p, m, c),
          omega arith,
          omega (arith, lost_one w id s rec x found failed),
        )
      ]

  pub restart-Counted :
      (rec : ContainerRecord) (used : ℕ) (s : Store)
      → rec.id ≡ id
      → used < limit
      → Retries id limit used s
      → Counted id limit used w (restart rt w rec s)
  unfolding restart restarts is_restart
  restart-Counted rec used s e lt r = elim (Bool-cases (rt.start rec.id s).1) [
    | inl ok ↦
        let (used', kept, few, counted) =
          counted_restart used (rt.start id s).0 (keeps_start limit used s r) in
        rw (restart, ok)
          (used', rw e kept, omega (arith, few, lt), unfold eq_str in omega (arith, counted))
    | inr failed ↦
        rw (restart, failed) (used, rw e (keeps_start limit used s r), omega arith, omega arith)
  ]
