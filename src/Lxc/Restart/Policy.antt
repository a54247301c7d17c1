-- ===== src/Lxc/Restart/Policy.antt =====
-- What one look of the restart watcher may do.
use lxc2docker.Prelude.{
  ◌≡◌, ◌≢◌, refl, Bool, true, false, not, ◌&&◌, List, [], ◌∷◌, Option, none, some, arith, In, inl,
  inr, ◌⊎◌, Bool-cases, Option-cases, In-append, is_empty,
}
use lxc2docker.Prelude.Int.{ℤ, pos, ltb_ℤ, leb_ℤ}
use lxc2docker.Strings.{Str, codes, eq_str, eq_str_iff}
use lxc2docker.Store.Records.{Time, ContainerRecord}
use lxc2docker.Store.State.{Store, SaveOutcome}
use lxc2docker.Store.Containers.{get_container, update_container}
use lxc2docker.Store.Containers.Update.{update_all_or_nothing}
use lxc2docker.Lxc.Restart.{
  Runtime, Action, start_call, remove_call, remove_port_forwards, event, should_restart,
  should_start_never_started, stamp_finished, event_if, forwards_of, destroy_container,
  start_created, restart, after_exit, exited, enforce_restart_policy,
}

-- The policy lets the daemon start the container (again): it keeps the container running, or has
-- retries left, and the user did not stop what only "always" restarts then.
abbrev PolicyAllows : Str → Bool → ℤ → ℤ → Type 0
PolicyAllows policy stopped max count =
    (policy ≡ codes "always")
    ⊎ (((policy ≡ codes "unless-stopped")
          ⊎ ((policy ≡ codes "on-failure")
              × ((ltb_ℤ (pos 0) max ≡ false) ⊎ (leb_ℤ max count ≡ false))))
        × (stopped ≡ false))

abbrev pub MayStart : ContainerRecord → Type 0
MayStart rec =
    PolicyAllows rec.restart_policy rec.stopped_by_user rec.restart_max_retry rec.restart_count

not_and : (a b : Bool) → (a && b) ≡ false → (a ≡ false) ⊎ (b ≡ false)
not_and true b h = inr h
not_and false b h = inl refl

should_restart_sound : (rec : ContainerRecord) → should_restart rec ≡ true → MayStart rec
unfolding should_restart
should_restart_sound rec h = elim (Bool-cases (eq_str rec.restart_policy (codes "always"))) [
  | inl a ↦ inl ((eq_str_iff _ _).0 a)
  | inr a ↦ elim (Bool-cases (eq_str rec.restart_policy (codes "unless-stopped"))) [
    | inl u ↦ inr (inl ((eq_str_iff _ _).0 u), ground arith)
    | inr u ↦ elim (Bool-cases (eq_str rec.restart_policy (codes "on-failure"))) [
      | inr f ↦ absurd (ground arith)
      | inl f ↦
          let open_ : (ltb_ℤ (pos 0) rec.restart_max_retry
                && leb_ℤ rec.restart_max_retry rec.restart_count)
              ≡ false =
            ground arith in
          inr (inr ((eq_str_iff _ _).0 f, not_and _ _ open_), ground arith)
    ]
  ]
]

should_start_sound : (rec : ContainerRecord) → should_start_never_started rec ≡ true → MayStart rec
unfolding should_start_never_started
should_start_sound rec h = elim (Bool-cases (eq_str rec.restart_policy (codes "always"))) [
  | inl a ↦ inl ((eq_str_iff _ _).0 a)
  | inr a ↦ elim (Bool-cases (eq_str rec.restart_policy (codes "unless-stopped"))) [
    | inl u ↦ inr (inl ((eq_str_iff _ _).0 u), ground arith)
    | inr u ↦ absurd (ground arith)
  ]
]

module _ (rt : Runtime) (rec : ContainerRecord) where
  -- A container that ran and is down.
  abbrev pub Down : Type 0
  Down = (t : Time) × (rec.started_at ≡ some t) × (rt.state rec.id ≡ codes "exited")

  -- Why the container may be removed, and why it may be started.
  abbrev pub MayGo : Type 0
  MayGo = (rt.ct_gone rec ≡ true) ⊎ (Down × (rec.auto_remove ≡ true))

  abbrev pub NeverRan : Type 0
  NeverRan =
      (rt.ct_gone rec ≡ false)
      × MayStart rec
      × (rec.started_at ≡ none)
      × (rt.state rec.id ≢ codes "running")

  abbrev pub HasExited : Type 0
  HasExited = (rt.ct_gone rec ≡ false) × MayStart rec × Down × (rec.auto_remove ≡ false)

  -- A call that succeeds on some store.
  abbrev pub Succeeds : (Str → Store → Store × Bool) → Type 0
  Succeeds call = (s : Store) × ((call rec.id s).1 ≡ true)

  -- What may be announced: a removal, a first start or a restart, each after its call succeeded.
  abbrev pub Announced : Str → Type 0
  Announced name =
      ((name ≡ codes "destroy") × MayGo × Succeeds rt.remove)
      ⊎ ((name ≡ codes "start") × NeverRan × Succeeds rt.start)
      ⊎ ((name ≡ codes "restart") × HasExited × Succeeds rt.start)

  -- Why the watcher may do this to the container.
  abbrev pub Justified : Action → Type 0
  Justified (start_call j) = (j ≡ rec.id) × (NeverRan ⊎ HasExited)
  Justified (remove_call j) = (j ≡ rec.id) × MayGo
  Justified (remove_port_forwards ip) = (ip ≡ rec.ip_address) × MayGo
  Justified (event j name) = (j ≡ rec.id) × Announced name

In-event_if :
    (a : Action) (ok : Bool) (id name : Str)
    → In a (event_if ok id name)
    → (a ≡ event id name) × (ok ≡ true)
unfolding event_if
In-event_if a true id name (inl e) = (e, refl)
In-event_if a true id name (inr i) = absurd i
In-event_if a false id name i = absurd i

module _ (rt : Runtime) (rec : ContainerRecord) where
  removal-Justified :
      (before : List Action) (s : Store) (a : Action)
      → ((b : Action) → In b before → Justified rt rec b)
      → MayGo rt rec
      → In a (destroy_container rt before rec.id s).1
      → Justified rt rec a
  unfolding destroy_container
  removal-Justified before s a b why i =
      elim (In-append a before
        (remove_call rec.id ∷ event_if (rt.remove rec.id s).1 rec.id (codes "destroy")) i) [
          | inl l ↦ b a l
          | inr (inl e) ↦ rw e (refl, why)
          | inr (inr l) ↦
              let (e, ok) = In-event_if a (rt.remove rec.id s).1 rec.id (codes "destroy") l in
              rw e (refl, inl (refl, why, (s, ok)))
        ]

  forwards-Justified :
      (a : Action) → MayGo rt rec → In a (forwards_of rec.ip_address) → Justified rt rec a
  unfolding forwards_of
  forwards-Justified a why = elim (Bool-cases (is_empty rec.ip_address)) [
    | inl e ↦ rw e λ i. absurd i
    | inr e ↦ rw e (elim [ inl q ↦ rw q (refl, why) | inr i ↦ absurd i ])
  ]

  created-Justified :
      (s : Store) (a : Action)
      → rec.started_at ≡ none
      → rt.ct_gone rec ≡ false
      → In a (start_created rt rec s).1
      → Justified rt rec a
  unfolding start_created
  created-Justified s a never here i =
      elim (Bool-cases
        (should_start_never_started rec && not (eq_str (rt.state rec.id) (codes "running")))) [
          | inr e ↦ absurd (rw (e, start_created) at i)
          | inl e ↦
              let may = should_start_sound rec (ground arith) in
              let down : rt.state rec.id ≢ codes "running" = λ r.
                absurd (ground (arith, (eq_str_iff (rt.state rec.id) (codes "running")).1 r)) in
              elim (rw (e, start_created) at i) [
                | inl q ↦ rw q (refl, inl (here, may, never, down))
                | inr l ↦
                    let (q, ok) = In-event_if a (rt.start rec.id s).1 rec.id (codes "start") l in
                    rw q (refl, inr (inl (refl, (here, may, never, down), (s, ok))))
              ]
        ]

  -- The record, whatever its exit time has become.
  abbrev with_exit : Option Time → ContainerRecord
  with_exit f = record rec { finished_at = f }

  restart-Justified :
      (w : SaveOutcome) (s : Store) (a : Action) (f : Option Time)
      → HasExited rt rec
      → In a (restart rt w (with_exit f) s).1
      → Justified rt rec a
  unfolding restart
  restart-Justified w s a f may i = elim (Bool-cases (rt.start rec.id s).1) [
    | inl e ↦ elim (rw (e, restart) at i) [
      | inl q ↦ rw q (refl, inr may)
      | inr (inl q) ↦ rw q (refl, inr (inr (refl, may, (s, e))))
      | inr (inr l) ↦ absurd l
    ]
    | inr e ↦ elim (rw (e, restart) at i) [ inl q ↦ rw q (refl, inr may) | inr l ↦ absurd l ]
  ]

  exit-Justified :
      (w : SaveOutcome) (s : Store) (a : Action) (f : Option Time)
      → Down rt rec
      → rt.ct_gone rec ≡ false
      → In a (after_exit rt w (with_exit f) s).1
      → Justified rt rec a
  unfolding after_exit should_restart
  exit-Justified w s a f down here i = elim (Bool-cases rec.auto_remove) [
    | inl e ↦
        removal-Justified (remove_port_forwards rec.ip_address ∷ []) s a
          (λ b. elim [ inl q ↦ rw q (refl, inr (down, e)) | inr l ↦ absurd l ]) (inr (down, e))
          (rw (after_exit, e) at i)
    | inr e ↦ elim (Bool-cases (should_restart (with_exit f))) [
      | inl p ↦
          restart-Justified w s a f (here, should_restart_sound (with_exit f) p, down, e)
            (rw (after_exit, e, p) at i)
      | inr p ↦ absurd (rw (after_exit, e, p) at i)
    ]
  ]

  exited-Justified :
      (w w' : SaveOutcome) (now : Time) (s : Store) (a : Action)
      → get_container rec.id s ≡ some rec
      → Down rt rec
      → rt.ct_gone rec ≡ false
      → In a (exited rt w w' now rec s).1
      → Justified rt rec a
  unfolding exited stamp_finished
  exited-Justified w w' now s a found down here i = elim (Option-cases rec.finished_at) [
    | inr (t, e) ↦ exit-Justified w' s a rec.finished_at down here (rw (exited, e) at i)
    | inl e ↦ elim (update_all_or_nothing rec.id (stamp_finished now) s rec w found) [
      | inl (_, u, _, _) ↦
          let stamp : stamp_finished now rec ≡ with_exit (some now) = rw (stamp_finished, e) refl in
          exit-Justified w' (update_container w rec.id (stamp_finished now) s).0 a (some now) down
            here (rw (exited, e, u, stamp) at i)
      | inr (_, u, _, _) ↦ absurd (rw (exited, e, u) at i)
    ]
  ]

-- Whatever the watcher does to a container it does for a reason. It starts one only if the policy
-- lets it, that is "always", or "unless-stopped" and "on-failure" when the user did not stop it and
-- retries are left, and only if it was never started and does not run, or has exited and is not to
-- be removed. It removes one, and its port forwards, only if its Proxmox container is gone, or it
-- ran, has exited and is to be removed. It announces only a removal, a first start and a restart, for
-- these reasons, and only if a call of the manager for it succeeded. It touches no other container.
pub enforcement-Justified :
    (rt : Runtime) (w w' : SaveOutcome) (now : Time) (s : Store) (rec : ContainerRecord)
    (a : Action)
    → get_container rec.id s ≡ some rec
    → In a (enforce_restart_policy rt w w' now rec.id s).1
    → Justified rt rec a
unfolding enforce_restart_policy
enforcement-Justified rt w w' now s rec a found i = elim (Bool-cases (rt.ct_gone rec)) [
  | inl gone ↦
      removal-Justified rt rec (forwards_of rec.ip_address) s a
        (λ b. forwards-Justified rt rec b (inl gone)) (inl gone)
        (rw (enforce_restart_policy, found, gone) at i)
  | inr here ↦ elim (Option-cases rec.started_at) [
    | inl never ↦
        created-Justified rt rec s a never here
          (rw (enforce_restart_policy, found, here, never) at i)
    | inr (t, ran) ↦ elim (Bool-cases (eq_str (rt.state rec.id) (codes "exited"))) [
      | inl e ↦
          exited-Justified rt rec w w' now s a found (t, ran, (eq_str_iff _ _).0 e) here
            (rw (enforce_restart_policy, found, here, ran, e) at i)
      | inr e ↦ absurd (rw (enforce_restart_policy, found, here, ran, e) at i)
    ]
  ]
]
