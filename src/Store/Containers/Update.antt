-- ===== src/Store/Containers/Update.antt =====
-- `UpdateContainer` and `save`: memory and file move together.
use lxc2docker.Prelude.{
  ◌≡◌, ◌≢◌, ◌∙◌, List, [], ◌∷◌, refl, sym, Option, none, some, arith, if◌then◌else◌, inl, inr, ◌⊎◌,
}
use mathlib.Core.Path.{subst}
use lxc2docker.Strings.{Str, eq_str, eq_str_iff}
use lxc2docker.Dict.{get, set, get-set}
use lxc2docker.Store.Records.{ContainerRecord}
use lxc2docker.Store.State.{
  State, Store, StoreError, save_failed, opens, new_at, SaveOutcome, open_fails, encode_fails,
  close_fails, rename_fails, saved, save,
}
use lxc2docker.Store.Containers.{get_container, update_container, finish_update}

-- A save leaves the memory as it is. If it reports no error the state file holds that memory, and
-- if it reports one the state file is untouched.
pub save_atomic :
    (w : SaveOutcome) (s : Store)
    → ((save w s).0.state ≡ s.state)
      × (((save w s).1 ≡ none) × ((save w s).0.files.state_json ≡ some s.state)
          ⊎ ((e : StoreError) × ((save w s).1 ≡ some e)
              × ((save w s).0.files.state_json ≡ s.files.state_json)))
unfolding save
save_atomic open_fails s = (refl, inr (save_failed, refl, refl))
save_atomic encode_fails s = (refl, inr (save_failed, refl, refl))
save_atomic close_fails s = (refl, inr (save_failed, refl, refl))
save_atomic rename_fails s = (refl, inr (save_failed, refl, refl))
save_atomic saved s = (refl, inl (refl, refl))

-- Changes of the state, each with what its save meets.
unfoldable pub writes : List (State × SaveOutcome) → Store → Store
writes [] s = s
writes ((st, w) ∷ ws) s = writes ws (save w (record s { state = st })).0

abbrev pub AllFail : List (State × SaveOutcome) → Type 0
AllFail [] = Unit
AllFail ((st, w) ∷ ws) = (w ≢ saved) × AllFail ws

failed_save_keeps :
    (w : SaveOutcome) (s : Store) → w ≢ saved → (save w s).0.files.state_json ≡ s.files.state_json
unfolding save
failed_save_keeps saved s h = absurd (h refl)
failed_save_keeps open_fails s h = refl
failed_save_keeps encode_fails s h = refl
failed_save_keeps close_fails s h = refl
failed_save_keeps rename_fails s h = refl

failed_writes_keep :
    (ws : List (State × SaveOutcome)) (s : Store)
    → AllFail ws
    → (writes ws s).files.state_json ≡ s.files.state_json
unfolding writes
failed_writes_keep [] s h = refl
failed_writes_keep ((st, w) ∷ ws) s (h, hs) =
    failed_writes_keep ws (save w (record s { state = st })).0 hs
    ∙ failed_save_keeps w (record s { state = st }) h

-- The state of the last save that succeeded is what the next start of the daemon reads, whatever
-- the memory held and the files met before, and whichever calls of the later saves failed, if the
-- JSON of that state is decoded to it.
pub save_durable :
    (decode : State → Option State) (before after : List (State × SaveOutcome)) (st : State)
    (s : Store)
    → decode st ≡ some st
    → AllFail after
    → let end = (writes after (writes ((st, saved) ∷ []) (writes before s))).files in
      new_at decode opens end ≡ (some (record { state = st; files = end }), none)
unfolding new_at
save_durable decode before after st s back fails =
    let there : (writes after (writes ((st, saved) ∷ []) (writes before s))).files.state_json
        ≡ some st =
      failed_writes_keep after (writes ((st, saved) ∷ []) (writes before s)) fails
      ∙ (unfold writes save in refl) in
    rw (new_at, there, back) refl

abbrev pub Outcome : Type 0
Outcome = Store × Option ContainerRecord × Option StoreError

module _ (id : Str) (update : ContainerRecord → ContainerRecord) (s : Store)
    (p : ContainerRecord) where
  abbrev pub Committed : Outcome → Type 0
  Committed (s', r, e) =
      (e ≡ none)
      × (r ≡ some (update p))
      × ((j : Str)
          → get_container j s' ≡ (if eq_str id j then some (update p) else get_container j s))
      × (s'.files.state_json ≡ some s'.state)

  abbrev pub RolledBack : Outcome → Type 0
  RolledBack (s', r, e) =
      ((x : StoreError) × (e ≡ some x))
      × (r ≡ none)
      × ((j : Str) → get_container j s' ≡ get_container j s)
      × (s'.files.state_json ≡ s.files.state_json)

  -- Putting the previous record back undoes the write.
  put_back :
      get id s.state.containers ≡ some p
      → (j : Str)
      → get j (set id p (set id (update p) s.state.containers)) ≡ get j s.state.containers
  put_back h j = simp get-set (ground (arith, eq_str_iff id j))

  abbrev written : Store
  written = record s {
    state = record s.state { containers = set id (update p) s.state.containers };
  }

  finished :
      (w : SaveOutcome)
      → get id s.state.containers ≡ some p
      → Committed (finish_update id p (update p) (save w written))
        ⊎ RolledBack (finish_update id p (update p) (save w written))
  unfolding finish_update save get_container
  finished saved h = inl (refl, refl, (λ j. get-set id j (update p) s.state.containers), refl)
  finished open_fails h = inr ((save_failed, refl), refl, put_back h, refl)
  finished encode_fails h = inr ((save_failed, refl), refl, put_back h, refl)
  finished close_fails h = inr ((save_failed, refl), refl, put_back h, refl)
  finished rename_fails h = inr ((save_failed, refl), refl, put_back h, refl)

  update_present :
      (w : SaveOutcome)
      → get id s.state.containers ≡ some p
      → update_container w id update s ≡ finish_update id p (update p) (save w written)
  unfolding update_container
  update_present w h = rw (h, update_container) refl

  -- An update of a container that is there is done as a whole or not at all: without an error
  -- it replaces the record, in memory and in the file, and leaves all others; with an error
  -- every record reads as before, and the file is untouched.
  pub update_all_or_nothing :
      (w : SaveOutcome)
      → get_container id s ≡ some p
      → Committed (update_container w id update s) ⊎ RolledBack (update_container w id update s)
  unfolding get_container
  update_all_or_nothing w h =
      subst (λ r. Committed r ⊎ RolledBack r) (sym (update_present w h)) (finished w h)

  pub update_saved : get_container id s ≡ some p → Committed (update_container saved id update s)
  unfolding get_container finish_update save
  update_saved h =
      subst Committed (sym (update_present saved h))
        (refl, refl, (λ j. get-set id j (update p) s.state.containers), refl)

pub update_missing :
    (w : SaveOutcome) (id : Str) (update : ContainerRecord → ContainerRecord) (s : Store)
    → get_container id s ≡ none
    → update_container w id update s ≡ (s, none, none)
unfolding update_container get_container
update_missing w id update s h = rw (update_container, h) refl
