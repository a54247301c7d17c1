-- ===== src/Store/Lifecycle/Preserved.antt =====
-- Every step of `LockContainerLifecycle` keeps the invariant.
use lxc2docker.Prelude.{
  ℕ, ◌-◌, ◌≤◌, ◌≡◌, refl, true, false, List, ◌∷◌, ◌++◌, some, arith, ◌==◌, inl, inr, Bool-cases,
  Option-cases,
}
use lxc2docker.Strings.{Str, eq_str_iff}
use lxc2docker.Dict.{get, get-set, get-delete}
use lxc2docker.Store.Lifecycle.{
  Locks, waiting, holding, unlocked, Guard, guard, System, Step, enter, acquire, unlock, leave,
  Steps, done, then_step, no_guards, register, store_lock, is_entry, drop_ref, set_mutex,
}
use lxc2docker.Store.Lifecycle.Invariant.{
  Sound, count_guards, on_lock, owns_lock, is_holding, count_middle, In-middle, count_some,
  count_pos, count_mono,
}

-- The order of the guards does not matter.
to_front :
    (k : Locks) (xs : List Guard) (g : Guard) (ys : List Guard)
    → Sound k (xs ++ g ∷ ys)
    → Sound k (g ∷ (xs ++ ys))
to_front k xs g ys s = record {
  known = λ a i. s.known a ((In-middle a xs g ys).1 i);
  counted = λ l. ground (arith, s.counted l, count_middle (on_lock l) xs g ys);
  owned = λ l. ground (arith, s.owned l, count_middle (owns_lock l) xs g ys);
  allocated = s.allocated;
  apart = s.apart;
  in_use = λ id l h. ground (arith, s.in_use id l h, count_middle (on_lock l) xs g ys);
}

to_middle :
    (k : Locks) (xs : List Guard) (g : Guard) (ys : List Guard)
    → Sound k (g ∷ (xs ++ ys))
    → Sound k (xs ++ g ∷ ys)
to_middle k xs g ys s = record {
  known = λ a i. s.known a ((In-middle a xs g ys).0 i);
  counted = λ l. ground (arith, s.counted l, count_middle (on_lock l) xs g ys);
  owned = λ l. ground (arith, s.owned l, count_middle (owns_lock l) xs g ys);
  allocated = s.allocated;
  apart = s.apart;
  in_use = λ id l h. ground (arith, s.in_use id l h, count_middle (on_lock l) xs g ys);
}

acquire-Sound :
    (id : Str) (l : ℕ) (k : Locks) (gs : List Guard)
    → (k.heap l).locked ≡ false
    → Sound k (guard id l waiting ∷ gs)
    → Sound (set_mutex true l k) (guard id l holding ∷ gs)
unfolding set_mutex store_lock count_guards on_lock owns_lock is_holding
acquire-Sound id l k gs free s = record {
  known = λ a i. elim i [
    | inl e ↦ rw e (s.known (guard id l waiting) (inl refl))
    | inr j ↦ s.known a (inr j)
  ];
  counted = λ m. ground (arith, s.counted m);
  owned = λ m. ground (arith, s.owned m);
  allocated = s.allocated;
  apart = s.apart;
  in_use = λ i m h. ground (arith, s.in_use i m h);
}

unlock-Sound :
    (id : Str) (l : ℕ) (k : Locks) (gs : List Guard)
    → Sound k (guard id l holding ∷ gs)
    → Sound (set_mutex false l k) (guard id l unlocked ∷ gs)
unfolding set_mutex store_lock count_guards on_lock owns_lock is_holding
unlock-Sound id l k gs s = record {
  known = λ a i. elim i [
    | inl e ↦ rw e (s.known (guard id l holding) (inl refl))
    | inr j ↦ s.known a (inr j)
  ];
  counted = λ m. ground (arith, s.counted m);
  owned = λ m. ground (arith, s.owned m);
  allocated = s.allocated;
  apart = s.apart;
  in_use = λ i m h. ground (arith, s.in_use i m h);
}

-- No guard is on a lock that is not allocated.
unused :
    (k : Locks) (gs : List Guard) (l : ℕ)
    → Sound k gs
    → k.next ≤ l
    → count_guards (on_lock l) gs ≡ 0
unfolding on_lock
unused k gs l s h = elim (Bool-cases (count_guards (on_lock l) gs == 0)) [
  | inl e ↦ ground arith
  | inr e ↦
      let (g, i, t) = count_some (on_lock l) gs (ground arith) in
      absurd (ground (arith, s.allocated g.id g.lock (s.known g i)))
]

owners_below :
    (l : ℕ) (gs : List Guard) → count_guards (owns_lock l) gs ≤ count_guards (on_lock l) gs
owners_below l gs =
    count_mono (owns_lock l) (on_lock l) gs (λ g i. unfold owns_lock on_lock in λ t. ground arith)

register-Sound :
    (id : Str) (k : Locks) (gs : List Guard)
    → Sound k gs
    → Sound (register id k).0 (guard id (register id k).1 waiting ∷ gs)
unfolding register store_lock count_guards on_lock owns_lock is_holding
register-Sound id k gs s = elim (Option-cases (get id k.table)) [
  | inr (l, e) ↦
      rw (register, e)
        (record {
          known = λ a i. elim i [ inl q ↦ rw q e | inr j ↦ s.known a j ];
          counted = λ m. ground (arith, s.counted m);
          owned = λ m. ground (arith, s.owned m);
          allocated = s.allocated;
          apart = s.apart;
          in_use = λ i m h. ground (arith, s.in_use i m h);
        })
  | inl e ↦
      rw (register, e)
        (record {
          known = λ a i. elim i [
            | inl q ↦ ground (arith, get-set id a.id k.next k.table, eq_str_iff id a.id)
            | inr j ↦
                ground (arith, get-set id a.id k.next k.table, eq_str_iff id a.id, s.known a j)
          ];
          counted = λ m. ground (arith, s.counted m, unused k gs m s);
          owned = λ m. ground (arith, s.owned m, unused k gs m s, owners_below m gs);
          allocated = λ i m. ground (arith, get-set id i k.next k.table, s.allocated i m);
          apart = λ i j m. ground (
            arith,
            get-set id i k.next k.table,
            get-set id j k.next k.table,
            eq_str_iff id i,
            eq_str_iff id j,
            s.allocated i m,
            s.allocated j m,
            s.apart i j m,
          );
          in_use = λ i m. ground (arith, get-set id i k.next k.table, s.in_use i m);
        })
]

drop_ref-Sound :
    (id : Str) (l : ℕ) (k : Locks) (gs : List Guard)
    → Sound k (guard id l unlocked ∷ gs)
    → Sound (drop_ref id l k) gs
unfolding drop_ref store_lock count_guards on_lock owns_lock is_holding is_entry
drop_ref-Sound id l k gs s = elim (Bool-cases ((k.heap l).refs - 1 == 0)) [
  | inl e ↦
      let entry : get id k.table ≡ some l = s.known (guard id l unlocked) (inl refl) in
      let last : count_guards (on_lock l) gs ≡ 0 = ground (arith, s.counted l) in
      rw (drop_ref, e, is_entry, entry)
        (record {
          known = λ a i. ground (
            arith,
            get-delete id a.id k.table,
            eq_str_iff id a.id,
            s.known a (inr i),
            count_pos (on_lock l) a gs i,
          );
          counted = λ m. ground (arith, s.counted m);
          owned = λ m. ground (arith, s.owned m);
          allocated = λ i m. ground (arith, get-delete id i k.table, s.allocated i m);
          apart = λ i j m.
              ground (arith, get-delete id i k.table, get-delete id j k.table, s.apart i j m);
          in_use = λ i m.
              ground
                (arith, get-delete id i k.table, s.in_use i m, s.apart id i l, eq_str_iff id i);
        })
  | inr e ↦ rw e (record {
    known = λ a i. s.known a (inr i);
    counted = λ m. ground (arith, s.counted m);
    owned = λ m. ground (arith, s.owned m);
    allocated = s.allocated;
    apart = s.apart;
    in_use = λ i m h. ground (arith, s.in_use i m h, s.counted m);
  })
]

Step-Sound : (s t : System) → Step s t → Sound s.locks s.guards → Sound t.locks t.guards
Step-Sound _ _ (enter id s) ok = register-Sound id s.locks s.guards ok
Step-Sound _ _ (acquire id l k xs ys free) ok =
    to_middle (set_mutex true l k) xs (guard id l holding) ys
      (acquire-Sound id l k (xs ++ ys) free (to_front k xs (guard id l waiting) ys ok))
Step-Sound _ _ (unlock id l k xs ys) ok =
    to_middle (set_mutex false l k) xs (guard id l unlocked) ys
      (unlock-Sound id l k (xs ++ ys) (to_front k xs (guard id l holding) ys ok))
Step-Sound _ _ (leave id l k xs ys) ok =
    drop_ref-Sound id l k (xs ++ ys) (to_front k xs (guard id l unlocked) ys ok)

no_guards-Sound : Sound no_guards.locks no_guards.guards
unfolding count_guards get
no_guards-Sound = record {
  known = λ g i. absurd i;
  counted = λ l. refl;
  owned = λ l. refl;
  allocated = λ id l h. absurd (ground arith);
  apart = λ i j l h. absurd (ground arith);
  in_use = λ id l h. absurd (ground arith);
}

pub Steps-Sound : (s : System) → Steps no_guards s → Sound s.locks s.guards
Steps-Sound _ (done _) = no_guards-Sound
Steps-Sound _ (then_step {t} {u} before step) = Step-Sound t u step (Steps-Sound t before)
