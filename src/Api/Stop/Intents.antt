-- ===== src/Api/Stop/Intents.antt =====
-- What `stopWithIntentLocked` leaves in the record.
use lxc2docker.Prelude.{
  ◌≡◌, refl, sym, ap, Bool, true, false, Option, none, some, inl, inr, ◌⊎◌, Bool-cases,
}
use lxc2docker.Prelude.Int.{ℤ}
use lxc2docker.Strings.{Str}
use lxc2docker.Store.Records.{ContainerRecord}
use lxc2docker.Store.State.{Store, StoreError}
use lxc2docker.Store.Containers.{update_container}
use lxc2docker.Api.Stop.{
  ApiError, stop_failed, persist_stop_intent, persist_exit_code, restore_stop_intent,
  restore_exit_code, record_finish, Call, Saves, mark_stopped, was_stopped, is_present, undo_intent,
  intent_stop, with_intent, stop_with_intent_locked,
}
use lxc2docker.Api.Stop.Exits.{update_cases, Flags, Recorded}

-- What a stop with intent leaves, for each of its errors: a failed stop restores intent and exit code,
-- unless the rollback fails itself.
module _ {V : Type 0} (part : ContainerRecord → V) (w : Saves) (id : Str) (b : Bool) (c code : ℤ)
    (p : V) where
  -- The exit code that is left if the rollback of the intent fails after an error.
  abbrev pub code_after : ApiError → ℤ
  code_after (restore_exit_code e x) = code
  code_after _ = c

  abbrev pub Intended : Store → Option ApiError → Type 0
  Intended s none = Flags part id true code p s
  Intended s (some stop_failed) = Flags part id b c p s
  Intended s (some (persist_stop_intent x)) = Flags part id b c p s
  Intended s (some (persist_exit_code x)) = Flags part id b c p s
  Intended s (some (restore_exit_code e x)) = Flags part id b code p s
  Intended s (some (restore_stop_intent e x)) = Flags part id true (code_after e) p s
  Intended s (some (record_finish x)) = ⊥

  -- The rollback of the intent, which is needed only if it was not there before.
  intent_undone :
      (c' : ℤ) (e : ApiError) (s : Store)
      → Flags part id true c' p s
      → let r = undo_intent w id e (update_container w.restore_intent id (mark_stopped false) s) in
        ((r.1 ≡ some e) × Flags part id false c' p r.0)
        ⊎ ((x : StoreError) × (r.1 ≡ some (restore_stop_intent e x)) × Flags part id true c' p r.0)
  unfolding undo_intent mark_stopped
  intent_undone c' e s (rec, h, stopped, exits, policy, own) =
      elim (update_cases w.restore_intent id (mark_stopped false) s rec h) [
        | inl (s', q, there) ↦
            inl (rw q (refl, (mark_stopped false rec, there, refl, exits, policy, own)))
        | inr (s', x, q, there) ↦ inr (x, rw q refl, rw q (rec, there, stopped, exits, policy, own))
      ]

  undo_failed :
      (e : ApiError) (s : Store)
      → Flags part id true (code_after e) p s
      → ((s' : Store) → Flags part id b (code_after e) p s' → Intended s' (some e))
      → Intended (intent_stop w id true b (s, some e)).0 (intent_stop w id true b (s, some e)).1
  unfolding intent_stop
  undo_failed e s f good = elim (Bool-cases b) [
    | inl y ↦
        let same : intent_stop w id true b (s, some e) ≡ (s, some e) = rw (intent_stop, y) refl in
        rw same (good s (rw y f))
    | inr n ↦
        let r = undo_intent w id e (update_container w.restore_intent id (mark_stopped false) s) in
        let same : intent_stop w id true b (s, some e) ≡ r = rw (intent_stop, n) refl in
        elim (intent_undone (code_after e) e s f) [
          | inl (q, g) ↦ rw (same, q) (good r.0 (rw n g))
          | inr (x, q, g) ↦ rw (same, q) g
        ]
  ]

  after_intent :
      (s : Store) (o : Option ApiError)
      → Recorded part w id true c code p s o
      → Intended (intent_stop w id true b (s, o)).0 (intent_stop w id true b (s, o)).1
  unfolding intent_stop
  after_intent s none f = f
  after_intent s (some stop_failed) f = undo_failed stop_failed s f (λ s' g. g)
  after_intent s (some (persist_exit_code x)) f = undo_failed (persist_exit_code x) s f (λ s' g. g)
  after_intent s (some (restore_exit_code e x)) f =
      undo_failed (restore_exit_code e x) s f (λ s' g. g)
  after_intent s (some (persist_stop_intent x)) f = absurd f
  after_intent s (some (restore_stop_intent e x)) f = absurd f
  after_intent s (some (record_finish x)) f = absurd f

  pub intended :
      (stop : Call) (s : Store)
      → ((t : Store)
          → t ≡ (update_container w.intent id (mark_stopped true) s).0
          → Flags part id true c p t
          → Recorded part w id true c code p (stop t).0 (stop t).1)
      → Flags part id b c p s
      → Intended (stop_with_intent_locked w id stop s).0 (stop_with_intent_locked w id stop s).1
  unfolding stop_with_intent_locked with_intent was_stopped is_present mark_stopped
  intended stop s spec (rec, h, stopped, exits, policy, own) =
      elim (update_cases w.intent id (mark_stopped true) s rec h) [
        | inr (s', x, e, there) ↦ rw (h, e) (rec, there, stopped, exits, policy, own)
        | inl (s', e, there) ↦
            let same : stop_with_intent_locked w id stop s ≡ intent_stop w id true b (stop s') =
              rw (stop_with_intent_locked, h, e)
                (ap (λ n. intent_stop w id true n (stop s')) stopped) in
            rw same (
              after_intent (stop s').0 (stop s').1 (
                spec s' (ap (λ r. r.0) (sym e))
                  (mark_stopped true rec, there, refl, exits, policy, own)))
      ]
