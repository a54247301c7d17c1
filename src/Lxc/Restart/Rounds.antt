-- ===== src/Lxc/Restart/Rounds.antt =====
-- The cap over any number of ticks of the watcher.
use mathlib.Core.Path.{subst}
use lxc2docker.Prelude.{
  ℕ, ◌+◌, ◌≤◌, ◌≡◌, refl, ◌∙◌, List, [], ◌∷◌, some, arith, In, inl, inr, Bool-cases, Option-cases,
}
use lxc2docker.Prelude.Int.{pos}
use lxc2docker.Strings.{Str, codes, eq_str, eq_str_refl}
use lxc2docker.Store.Records.{Time, ContainerRecord}
use lxc2docker.Store.State.{Store, SaveOutcome}
use lxc2docker.Store.Containers.{get_container, update_container}
use lxc2docker.Store.Containers.Update.{update_all_or_nothing}
use lxc2docker.Lxc.Restart.{
  Runtime, remove_port_forwards, should_restart, stamp_finished, forwards_of, after_exit, exited,
  enforce_restart_policy,
}
use lxc2docker.Lxc.Restart.Retries.{
  lost, restarts, is_restart, Retries, Keeps, Round, Lawful, run_rounds, Counted, restarts-append,
  restarts-forwards_of, remove-Counted, created-Counted, below_limit, restart-Counted,
}

module _ (rt : Runtime) (limit used : ℕ) (w' : SaveOutcome) (some_retries : 1 ≤ limit)
    (within : used ≤ limit) where
  after_exit-Counted :
      (rec : ContainerRecord) (s : Store)
      → Keeps rec.id (λ s. (rt.start rec.id s).0)
      → Keeps rec.id (λ s. (rt.remove rec.id s).0)
      → get_container rec.id s ≡ some rec
      → rec.restart_policy ≡ codes "on-failure"
      → rec.restart_max_retry ≡ pos limit
      → rec.restart_count ≡ pos used
      → Counted rec.id limit used w' (after_exit rt w' rec s)
  unfolding after_exit restarts is_restart
  after_exit-Counted rec s ks kr found p m c =
      let r : Retries rec.id limit used s = inr (rec, found, refl, p, m, c) in
      elim (Bool-cases rec.auto_remove)
        as (λ _. Counted rec.id limit used w' (after_exit rt w' rec s)) [
          | inl a ↦
              rw (after_exit, a)
                (remove-Counted rt rec.id limit w' ks kr (remove_port_forwards rec.ip_address ∷ [])
                  used s refl within r)
          | inr a ↦ elim (Bool-cases (should_restart rec)) [
            | inl h ↦
                simp (after_exit, a, h)
                  (restart-Counted rt rec.id limit w' ks kr rec used s refl
                    (below_limit rt rec.id limit w' ks kr rec used some_retries p m c h) r)
            | inr h ↦ simp (after_exit, a, h) (used, r, within, omega arith)
          ]
        ]

  exited-Counted :
      (w : SaveOutcome) (now : Time) (rec : ContainerRecord) (s : Store)
      → Keeps rec.id (λ s. (rt.start rec.id s).0)
      → Keeps rec.id (λ s. (rt.remove rec.id s).0)
      → get_container rec.id s ≡ some rec
      → rec.restart_policy ≡ codes "on-failure"
      → rec.restart_max_retry ≡ pos limit
      → rec.restart_count ≡ pos used
      → Counted rec.id limit used w' (exited rt w w' now rec s)
  unfolding exited stamp_finished restarts
  exited-Counted w now rec s ks kr found p m c = elim (Option-cases rec.finished_at) [
    | inr (t, f) ↦ rw (exited, f) (after_exit-Counted rec s ks kr found p m c)
    | inl f ↦
        let stamped : ContainerRecord = record rec { finished_at = some now } in
        let stamp : stamp_finished now rec ≡ stamped = rw (stamp_finished, f) refl in
        elim (update_all_or_nothing rec.id (stamp_finished now) s rec w found) [
          | inl (_, u, g, _) ↦
              rw (exited, f, u, stamp)
                (after_exit-Counted stamped (update_container w rec.id (stamp_finished now) s).0 ks
                  kr (ground (arith, g rec.id, eq_str_refl rec.id, stamp)) p m c)
          | inr (_, u, g, _) ↦
              rw (exited, f, u)
                (used, inr (rec, g rec.id ∙ found, refl, p, m, c), within, omega arith)
        ]
  ]

  enforce_present :
      (w : SaveOutcome) (now : Time) (rec : ContainerRecord) (s : Store)
      → rec.restart_policy ≡ codes "on-failure"
      → rec.restart_max_retry ≡ pos limit
      → rec.restart_count ≡ pos used
      → Keeps rec.id (λ s. (rt.start rec.id s).0)
      → Keeps rec.id (λ s. (rt.remove rec.id s).0)
      → get_container rec.id s ≡ some rec
      → Counted rec.id limit used w' (enforce_restart_policy rt w w' now rec.id s)
  unfolding enforce_restart_policy restarts
  enforce_present w now rec s p m c ks kr found =
      let r : Retries rec.id limit used s = inr (rec, found, refl, p, m, c) in
      elim (Bool-cases (rt.ct_gone rec)) [
        | inl g ↦
            simp (enforce_restart_policy, found, g)
              (remove-Counted rt rec.id limit w' ks kr (forwards_of rec.ip_address) used s
                (restarts-forwards_of rec.ip_address) within r)
        | inr g ↦ elim (Option-cases rec.started_at) [
          | inl n ↦
              simp (enforce_restart_policy, found, g, n)
                (created-Counted rt rec.id limit w' ks kr rec used s refl within r)
          | inr (t, n) ↦ elim (Bool-cases (eq_str (rt.state rec.id) (codes "exited"))) [
            | inl x ↦
                simp (enforce_restart_policy, found, g, n, x)
                  (exited-Counted w now rec s ks kr found p m c)
            | inr x ↦
                simp (enforce_restart_policy, found, g, n, x)
                  (used, inr (rec, refl, refl, p, m, c), within, omega arith)
          ]
        ]
      ]

  enforce-Counted :
      (w : SaveOutcome) (now : Time) (id : Str) (s : Store)
      → Keeps id (λ s. (rt.start id s).0)
      → Keeps id (λ s. (rt.remove id s).0)
      → Retries id limit used s
      → Counted id limit used w' (enforce_restart_policy rt w w' now id s)
  unfolding enforce_restart_policy restarts
  enforce-Counted w now id s ks kr (inl gone) =
      simp (enforce_restart_policy, gone) (used, inl refl, within, omega arith)
  enforce-Counted w now id s ks kr (inr (rec, found, e, p, m, c)) =
      subst
        (λ i.
          Keeps i (λ s. (rt.start i s).0)
          → Keeps i (λ s. (rt.remove i s).0)
          → get_container i s ≡ some rec
          → Counted i limit used w' (enforce_restart_policy rt w w' now i s))
        e (enforce_present w now rec s p m c) ks kr found

unfoldable pub lost_counts : List Round → ℕ
lost_counts [] = 0
lost_counts (r ∷ rs) = lost r.count_save + lost_counts rs

-- An "on-failure" container with a limit of at least one is restarted, over any number of ticks, at
-- most as often as the limit and the ticks in which the save of the count fails allow together; so
-- not more often than the limit if these saves succeed. The condition is that whatever else the
-- daemon does to the container in between leaves its policy and its count alone, or removes it.
pub restarts_capped :
    (id : Str) (limit : ℕ) (rounds : List Round) (used : ℕ) (s : Store)
    → 1 ≤ limit
    → used ≤ limit
    → ((r : Round) → In r rounds → Lawful id r)
    → Retries id limit used s
    → restarts (run_rounds id rounds s).1 + used ≤ limit + lost_counts rounds
unfolding run_rounds restarts lost_counts
restarts_capped id limit [] used s some_retries le lawful ok = omega (arith, le)
restarts_capped id limit (r ∷ rs) used s some_retries le lawful ok =
    let (between, start, remove) = lawful r (inl refl) in
    let round = enforce_restart_policy r.runtime r.stamp_save r.count_save r.now id (r.between s) in
    let (used', ok', le', count) =
      enforce-Counted r.runtime limit used r.count_save some_retries le r.stamp_save r.now id
        (r.between s) start remove (between limit used s ok) in
    let rest =
      restarts_capped id limit rs used' round.0 some_retries le' (λ q i. lawful q (inr i)) ok' in
    omega (arith, count, rest, restarts-append round.1 (run_rounds id rs round.0).1)
