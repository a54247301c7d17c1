-- ===== src/Api/Stop/Exits.antt =====
-- What the recording of an exit code leaves in the record.
use lxc2docker.Prelude.{
  ◌≡◌, refl, ap, ◌∙◌, Bool, true, false, Option, none, some, arith, inl, inr, ◌⊎◌,
}
use lxc2docker.Prelude.Int.{ℤ, pos}
use lxc2docker.Strings.{Str, eq_str_refl}
use lxc2docker.Store.Records.{ContainerRecord}
use lxc2docker.Store.State.{Store, SaveOutcome, StoreError}
use lxc2docker.Store.Containers.{get_container, update_container}
use lxc2docker.Store.Containers.Update.{update_all_or_nothing}
use lxc2docker.Api.Stop.{
  ApiError, stop_failed, persist_exit_code, restore_exit_code, Call, Saves, mark_exit, old_exit,
  is_present, undo_exit, exit_stop, with_exit, stop_recording_exit,
}

assembled :
    (r : Store × Option ContainerRecord × Option StoreError) {o : Option ContainerRecord}
    {e : Option StoreError}
    → r.1 ≡ o
    → r.2 ≡ e
    → r ≡ (r.0, o, e)
assembled (s, o, e) p q = rw (p, q) refl

-- An update that is done, or leaves the record as it is.
pub update_cases :
    (w : SaveOutcome) (id : Str) (f : ContainerRecord → ContainerRecord) (s : Store)
    (rec : ContainerRecord)
    → get_container id s ≡ some rec
    → ((s' : Store) × (update_container w id f s ≡ (s', some (f rec), none))
        × (get_container id s' ≡ some (f rec)))
      ⊎ ((s' : Store) × (x : StoreError) × (update_container w id f s ≡ (s', none, some x))
          × (get_container id s' ≡ some rec))
update_cases w id f s rec h = elim (update_all_or_nothing id f s rec w h) [
  | inl (e, r, all, file) ↦
      let (s', r', e') = update_container w id f s in
      inl (s', assembled (update_container w id f s) r e, all id ∙ ground (arith, eq_str_refl id))
  | inr ((x, e), r, all, file) ↦
      let (s', r', e') = update_container w id f s in
      inr (s', x, assembled (update_container w id f s) r e, all id ∙ h)
]

-- A record but for its intent and its exit code.
abbrev pub others : ContainerRecord → ContainerRecord
others rec = record rec { stopped_by_user = false; exit_code = pos 0 }

-- What is followed of the rest of the record: all of it, or a part.
module _ {V : Type 0} (part : ContainerRecord → V) where
  -- The container is there, with this intent and exit code, and this part of the rest.
  abbrev pub Flags : Str → Bool → ℤ → V → Store → Type 0
  Flags id stopped code rest s =
      (rec : ContainerRecord) × (get_container id s ≡ some rec)
      × (rec.stopped_by_user ≡ stopped)
      × (rec.exit_code ≡ code)
      × (part (others rec) ≡ rest)
      × (rec.id ≡ id)

  -- A call of the manager changes neither of them, and fails with its own error.
  abbrev pub Keeps : Str → Call → Type 0
  Keeps id call =
      (s : Store) (b : Bool) (c : ℤ) (p : V)
      → Flags id b c p s
      → Flags id b c p (call s).0 × (((call s).1 ≡ none) ⊎ ((call s).1 ≡ some stop_failed))

module _ {V : Type 0} (part : ContainerRecord → V) (w : Saves) (id : Str) (b : Bool) (c code : ℤ)
    (p : V) where
  -- What `stopRecordingExit` leaves.
  abbrev pub Recorded : Store → Option ApiError → Type 0
  Recorded s none = Flags part id b code p s
  Recorded s (some stop_failed) = Flags part id b c p s
  Recorded s (some (persist_exit_code x)) = Flags part id b c p s
  Recorded s (some (restore_exit_code e x)) = Flags part id b code p s
  Recorded s (some _) = ⊥

  undone :
      (s : Store)
      → Flags part id b code p s
      → let r =
          undo_exit w id stop_failed (update_container w.restore_exit_code id (mark_exit c) s) in
        Recorded r.0 r.1
  unfolding undo_exit mark_exit
  undone s (rec, h, stopped, exits, policy, own) =
      elim (update_cases w.restore_exit_code id (mark_exit c) s rec h) [
        | inl (s', e, there) ↦ rw e (mark_exit c rec, there, stopped, refl, policy, own)
        | inr (s', x, e, there) ↦ rw e (rec, there, stopped, exits, policy, own)
      ]

  after_stop :
      (r : Store × Option ApiError)
      → Flags part id b code p r.0
      → (r.1 ≡ none) ⊎ (r.1 ≡ some stop_failed)
      → Recorded (exit_stop w id true c r).0 (exit_stop w id true c r).1
  unfolding exit_stop
  after_stop (s, o) f (inl q) = rw q f
  after_stop (s, o) f (inr q) = rw q (undone s f)

  pub recorded :
      (stop : Call) (s : Store)
      → Keeps part id stop
      → Flags part id b c p s
      → Recorded (stop_recording_exit w id code stop s).0 (stop_recording_exit w id code stop s).1
  unfolding stop_recording_exit with_exit exit_stop old_exit is_present mark_exit
  recorded stop s keeps (rec, h, stopped, exits, policy, own) =
      elim (update_cases w.exit_code id (mark_exit code) s rec h) [
        | inr (s', x, e, there) ↦ rw (h, e) (rec, there, stopped, exits, policy, own)
        | inl (s', e, there) ↦
            let (kept, answer) =
              keeps s' b code p (mark_exit code rec, there, stopped, refl, policy, own) in
            let same : stop_recording_exit w id code stop s ≡ exit_stop w id true c (stop s') =
              rw (stop_recording_exit, h, e) (ap (λ n. exit_stop w id true n (stop s')) exits) in
            rw same (after_stop (stop s') kept answer)
      ]
