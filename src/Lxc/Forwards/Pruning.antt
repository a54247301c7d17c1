-- ===== src/Lxc/Forwards/Pruning.antt =====
-- Which ports the second pass withdraws, and what it remembers of the others.
use lxc2docker.Prelude.{
  ℕ, ◌+◌, ◌≤◌, ◌≡◌, refl, sym, ◌∙◌, Bool, true, false, not, ◌||◌, List, [], ◌∷◌, ◌++◌, none, some,
  arith, if◌then◌else◌, In, inl, inr, ◌⊎◌, Bool-cases, Option-cases, any, append-nil, In-append,
  In-append_left, In-append_right, ltb,
}
use lxc2docker.Prelude.Int.{ℤ}
use lxc2docker.Strings.{Str, eq_str, eq_str_iff, eq_str_refl, eq_str_sound}
use lxc2docker.Dict.{Dict, get, set, delete, keys, get-set, get-delete}
use lxc2docker.Lxc.Forwards.Chains.{holds, parse_host_port_key, mark_keys}
use lxc2docker.Lxc.Forwards.Reconcile.{
  Removal, Prune, reset_strikes, strikes_of, prune_key, prune_keys,
}

-- No key twice.
abbrev pub Distinct : List Str → Type 0
Distinct [] = Unit
Distinct (k ∷ ks) = (any (eq_str k) ks ≡ false) × Distinct ks

module _ {V : Type 0} where
  keys-delete :
      (j k : Str) (m : Dict V)
      → any (eq_str j) (keys (delete k m)) ≡ (if eq_str j k then false else any (eq_str j) (keys m))
  unfolding any keys delete
  keys-delete j k [] = ground arith
  keys-delete j k ((i, v) ∷ m) =
      ground (arith, keys-delete j k m, eq_str_iff i k, eq_str_iff j i, eq_str_iff j k)

  delete-Distinct : (k : Str) (m : Dict V) → Distinct (keys m) → Distinct (keys (delete k m))
  unfolding delete keys
  delete-Distinct k [] d = tt
  delete-Distinct k ((i, v) ∷ m) d = elim (Bool-cases (eq_str i k)) [
    | inl e ↦ rw e (delete-Distinct k m d.1)
    | inr e ↦ rw e (ground (arith, e, keys-delete i k m, d.0), delete-Distinct k m d.1)
  ]

  pub set-Distinct :
      (k : Str) (v : V) (m : Dict V) → Distinct (keys m) → Distinct (keys (set k v m))
  unfolding set keys
  set-Distinct k v m d = (ground (arith, keys-delete k k m, eq_str_refl k), delete-Distinct k m d)

pub mark_keys-Distinct :
    (ks : List Str) (m : Dict Bool) → Distinct (keys m) → Distinct (keys (mark_keys ks m))
unfolding mark_keys
mark_keys-Distinct [] m d = d
mark_keys-Distinct (k ∷ ks) m d = mark_keys-Distinct ks (set k true m) (set-Distinct k true m d)

pub holds-In : (k : Str) (m : Dict Bool) → holds k m ≡ true → In k (keys m)
unfolding holds keys get
holds-In k [] h = absurd (ground arith)
holds-In k ((j, b) ∷ m) h = elim (Bool-cases (eq_str j k)) [
  | inl e ↦ inl (sym (eq_str_sound j k e))
  | inr e ↦ inr (holds-In k m (ground arith))
]

pub strikes_of-reset :
    (k : Str) (desired present : Dict Bool) (strikes : Dict ℕ)
    → strikes_of k (reset_strikes desired present strikes)
      ≡ (if holds k desired || not (holds k present) then 0 else strikes_of k strikes)
unfolding reset_strikes strikes_of get
strikes_of-reset k desired present [] = ground arith
strikes_of-reset k desired present ((j, n) ∷ strikes) =
    ground (arith, strikes_of-reset k desired present strikes, eq_str_iff j k)

pub prune_key_other :
    (removes : Str → Bool) (desired : Dict Bool) (p : Prune) (j k : Str)
    → eq_str k j ≡ false
    → strikes_of k (prune_key removes desired p j).strikes ≡ strikes_of k p.strikes
unfolding prune_key strikes_of
prune_key_other removes desired p j k h = ground (
  arith,
  get-set j k (strikes_of j p.strikes + 1) p.strikes,
  get-delete j k p.strikes,
  eq_str_iff j k,
  eq_str_iff k j,
)

-- What the visit of a key adds: its withdrawal, if nobody claims it and it was an orphan before.
withdrawal : Dict Bool → Prune → Str → List Removal
withdrawal desired p k =
    if holds k desired
    then []
    else if ltb (strikes_of k p.strikes) 1
    then []
    else elim (parse_host_port_key k) [
      | none ↦ []
      | some (proto, port) ↦ (record { host_port = port; proto = proto }) ∷ []
    ]

prune_key-removals :
    (removes : Str → Bool) (desired : Dict Bool) (p : Prune) (k : Str)
    → (prune_key removes desired p k).removals ≡ p.removals ++ withdrawal desired p k
unfolding prune_key withdrawal
prune_key-removals removes desired p k = ground (arith, append-nil p.removals)

removals_kept :
    (removes : Str → Bool) (desired : Dict Bool) (r : Removal) (p : Prune) (ks : List Str)
    → In r p.removals
    → In r (prune_keys removes desired p ks).removals
unfolding prune_keys
removals_kept removes desired r p [] i = i
removals_kept removes desired r p (k ∷ ks) i =
    removals_kept removes desired r (prune_key removes desired p k) ks
      (rw (prune_key-removals removes desired p k) (In-append_left r p.removals _ i))

-- A key that stands later in the list is another one.
later_other : (j k : Str) (ks : List Str) → any (eq_str j) ks ≡ false → In k ks → eq_str k j ≡ false
unfolding any
later_other j k [] h i = absurd i
later_other j k (l ∷ ks) h (inl e) = ground (arith, e, eq_str_iff j l, eq_str_iff k j)
later_other j k (l ∷ ks) h (inr i) = later_other j k ks (ground arith) i

-- Why a port is withdrawn: it is published, nobody claims it, and its streak had begun.
pub record Orphan (desired : Dict Bool) (strikes : Dict ℕ) (ks : List Str) (r : Removal) (k : Str)
    : Type 0 where
  pub published : In k ks
  pub unclaimed : holds k desired ≡ false
  pub names : parse_host_port_key k ≡ some (r.proto, r.host_port)
  pub struck : 1 ≤ strikes_of k strikes

withdrawal_sound :
    (desired : Dict Bool) (p : Prune) (k : Str) (ks : List Str) (r : Removal)
    → In r (withdrawal desired p k)
    → Orphan desired p.strikes (k ∷ ks) r k
unfolding withdrawal
withdrawal_sound desired p k ks r i = elim (Bool-cases (holds k desired)) [
  | inl e ↦ absurd (rw (withdrawal, e) at i)
  | inr e ↦ elim (Bool-cases (ltb (strikes_of k p.strikes) 1)) [
    | inl l ↦ absurd (rw (withdrawal, e, l) at i)
    | inr l ↦ elim (Option-cases (parse_host_port_key k)) [
      | inl q ↦ absurd (rw (withdrawal, e, l, q) at i)
      | inr (named, q) ↦ elim (rw (withdrawal, e, l, q) at i) [
        | inl here ↦ record {
          published = inl refl;
          unclaimed = e;
          names = ground (arith, here, q);
          struck = ground (arith, l);
        }
        | inr bad ↦ absurd bad
      ]
    ]
  ]
]

pub removals_sound :
    (removes : Str → Bool) (desired : Dict Bool) (p : Prune) (ks : List Str) (r : Removal)
    → Distinct ks
    → In r (prune_keys removes desired p ks).removals
    → In r p.removals ⊎ ((k : Str) × Orphan desired p.strikes ks r k)
unfolding prune_keys
removals_sound removes desired p [] r d i = inl i
removals_sound removes desired p (k ∷ ks) r d i =
    elim (removals_sound removes desired (prune_key removes desired p k) ks r d.1 i) [
      | inr (j, o) ↦ inr (
        j,
        record {
          published = inr o.published;
          unclaimed = o.unclaimed;
          names = o.names;
          struck = ground (
            arith,
            o.struck,
            prune_key_other removes desired p k j (later_other k j ks d.0 o.published),
          );
        },
      )
      | inl old ↦
          elim (In-append r p.removals _ (rw (prune_key-removals removes desired p k) at old)) [
            | inl before ↦ inl before
            | inr now ↦ inr (k, withdrawal_sound desired p k ks r now)
          ]
    ]

-- The call that withdraws the port of a key.
abbrev pub removal : Str × ℤ → Removal
removal (proto, port) = record { host_port = port; proto = proto }

withdrawal_complete :
    (desired : Dict Bool) (p : Prune) (k : Str) (named : Str × ℤ)
    → holds k desired ≡ false
    → parse_host_port_key k ≡ some named
    → 1 ≤ strikes_of k p.strikes
    → In (removal named) (withdrawal desired p k)
unfolding withdrawal
withdrawal_complete desired p k named h q s =
    let l : ltb (strikes_of k p.strikes) 1 ≡ false = ground (arith, s) in
    rw (withdrawal, h, l, q) (inl refl)

-- An orphan whose streak had begun is withdrawn.
pub removals_complete :
    (removes : Str → Bool) (desired : Dict Bool) (p : Prune) (ks : List Str) (k : Str)
    (named : Str × ℤ)
    → Distinct ks
    → In k ks
    → holds k desired ≡ false
    → parse_host_port_key k ≡ some named
    → 1 ≤ strikes_of k p.strikes
    → In (removal named) (prune_keys removes desired p ks).removals
unfolding prune_keys
removals_complete removes desired p [] k named d i h q s = absurd i
removals_complete removes desired p (j ∷ ks) k named d (inl e) h q s =
    removals_kept removes desired (removal named) (prune_key removes desired p j) ks (
      rw (prune_key-removals removes desired p j) (
        In-append_right (removal named) p.removals _
          (rw⁻¹ e (withdrawal_complete desired p k named h q s))))
removals_complete removes desired p (j ∷ ks) k named d (inr i) h q s =
    removals_complete removes desired (prune_key removes desired p j) ks k named d.1 i h q
      (ground (arith, s, prune_key_other removes desired p j k (later_other j k ks d.0 i)))

prune_keys_absent :
    (removes : Str → Bool) (desired : Dict Bool) (p : Prune) (ks : List Str) (k : Str)
    → any (eq_str k) ks ≡ false
    → strikes_of k (prune_keys removes desired p ks).strikes ≡ strikes_of k p.strikes
unfolding prune_keys any
prune_keys_absent removes desired p [] k h = refl
prune_keys_absent removes desired p (j ∷ ks) k h =
    prune_keys_absent removes desired (prune_key removes desired p j) ks k (ground arith)
    ∙ prune_key_other removes desired p j k (ground arith)

prune_key_first :
    (removes : Str → Bool) (desired : Dict Bool) (p : Prune) (k : Str)
    → holds k desired ≡ false
    → strikes_of k p.strikes ≡ 0
    → strikes_of k (prune_key removes desired p k).strikes ≡ 1
unfolding prune_key strikes_of
prune_key_first removes desired p k h z =
    ground (arith, h, z, get-set k k (strikes_of k p.strikes + 1) p.strikes, eq_str_refl k)

-- An orphan whose streak had not begun gets its first strike.
pub first_strike :
    (removes : Str → Bool) (desired : Dict Bool) (p : Prune) (ks : List Str) (k : Str)
    → Distinct ks
    → In k ks
    → holds k desired ≡ false
    → strikes_of k p.strikes ≡ 0
    → strikes_of k (prune_keys removes desired p ks).strikes ≡ 1
unfolding prune_keys
first_strike removes desired p [] k d i h z = absurd i
first_strike removes desired p (j ∷ ks) k d (inl e) h z = rw⁻¹ e (
    prune_keys_absent removes desired (prune_key removes desired p k) ks k (rw e d.0)
    ∙ prune_key_first removes desired p k h z)
first_strike removes desired p (j ∷ ks) k d (inr i) h z =
    first_strike removes desired (prune_key removes desired p j) ks k d.1 i h
      (prune_key_other removes desired p j k (later_other j k ks d.0 i) ∙ z)
