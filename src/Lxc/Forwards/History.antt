-- ===== src/Lxc/Forwards/History.antt =====
-- What a strike says of the ticks before.
use lxc2docker.Prelude.{
  ℕ, ◌≤◌, ◌≡◌, refl, sym, ◌∙◌, Bool, true, false, List, [], ◌∷◌, none, some, arith, In, inl, inr,
  ◌⊎◌, Bool-cases, Option-cases,
}
use lxc2docker.Strings.{Str, eq_str, eq_str_sound}
use lxc2docker.Dict.{Dict, keys, get}
use lxc2docker.Lxc.Forwards.Chains.{holds}
use lxc2docker.Lxc.Forwards.Reconcile.{
  Removal, Prune, strikes_of, prune_key, prune_keys, Tick, reconcile_port_forwards,
}
use lxc2docker.Lxc.Forwards.Marking.{claimed}
use lxc2docker.Lxc.Forwards.Pruning.{holds-In, strikes_of-reset, prune_key_other}
use lxc2docker.Lxc.Forwards.Ticks.{
  tick_claims, reads, publishes, tick_desired, tick_start, desired-claimed, strikes-keys, Abandoned,
  removals_struck,
}

-- The strikes after the ticks of a run of the daemon, the latest first; it starts with none.
unfoldable pub strikes_after : List Tick → Dict ℕ
strikes_after [] = []
strikes_after (t ∷ ts) = (reconcile_port_forwards t (strikes_after ts)).strikes

-- A tick that read both tables, in which the port was published and nobody claimed it.
pub record OrphanIn (k : Str) (t : Tick) : Type 0 where
  pub current : Dict Str
  pub present : Dict Bool
  pub read : reads t ≡ some current
  pub publish : publishes t ≡ some present
  pub listed : In k (keys present)
  pub free : claimed k (tick_claims t) ≡ false

-- A tick that could not read the tables does nothing.
abbrev pub IsBlind : Tick → Type 0
IsBlind t = (reads t ≡ none) ⊎ (publishes t ≡ none)

-- The port was an orphan in the last tick that could read the tables.
abbrev pub WasOrphan : Str → List Tick → Type 0
WasOrphan k [] = ⊥
WasOrphan k (t ∷ ts) = OrphanIn k t ⊎ (IsBlind t × WasOrphan k ts)

-- Where a strike after the visits of the keys comes from.
strike_source :
    (removes : Str → Bool) (desired : Dict Bool) (k : Str) (p : Prune) (ks : List Str)
    → 1 ≤ strikes_of k (prune_keys removes desired p ks).strikes
    → (1 ≤ strikes_of k p.strikes) ⊎ (In k ks × (holds k desired ≡ false))
unfolding prune_keys prune_key strikes_of
strike_source removes desired k p [] s = inl s
strike_source removes desired k p (j ∷ ks) s =
    elim (strike_source removes desired k (prune_key removes desired p j) ks s) [
      | inr (i, f) ↦ inr (inr i, f)
      | inl before ↦ elim (Bool-cases (eq_str k j)) [
        | inr e ↦ inl (ground (arith, before, prune_key_other removes desired p j k e))
        | inl e ↦
            let same = eq_str_sound k j e in
            elim (Bool-cases (holds k desired)) [
              | inr f ↦ inr (inl same, f)
              | inl d ↦
                  let claimed_key : holds j desired ≡ true = rw⁻¹ same d in
                  inl (rw (prune_key, claimed_key) at before)
            ]
      ]
    ]

struck-OrphanIn :
    (k : Str) (t : Tick) (strikes : Dict ℕ) {current : Dict Str} {present : Dict Bool}
    → reads t ≡ some current
    → publishes t ≡ some present
    → 1 ≤ strikes_of k (reconcile_port_forwards t strikes).strikes
    → OrphanIn k t
struck-OrphanIn k t strikes {current} {present} read publish s =
    let orphan : In k (keys present) → holds k (tick_desired current t) ≡ false → OrphanIn k t =
      λ i f. record {
        current = current;
        present = present;
        read = read;
        publish = publish;
        listed = i;
        free = sym (desired-claimed current t k) ∙ f;
      } in
    elim (strike_source t.removes (tick_desired current t) k (tick_start current present t strikes)
      (keys present) (rw (strikes-keys t strikes read publish) at s)) [
        | inr (i, f) ↦ orphan i f
        | inl kept ↦
            let reset = strikes_of-reset k (tick_desired current t) present strikes in
            orphan (holds-In k present (ground (arith, kept, reset))) (ground (arith, kept, reset))
      ]

blind_keeps :
    (t : Tick) (strikes : Dict ℕ)
    → IsBlind t
    → (reconcile_port_forwards t strikes).strikes ≡ strikes
unfolding reconcile_port_forwards
blind_keeps t strikes (inl e) = rw (reconcile_port_forwards, e) refl
blind_keeps t strikes (inr e) = elim (Option-cases (reads t)) [
  | inl n ↦ rw (reconcile_port_forwards, n) refl
  | inr (c, q) ↦ rw (reconcile_port_forwards, q, e) refl
]

struck-WasOrphan : (k : Str) (ts : List Tick) → 1 ≤ strikes_of k (strikes_after ts) → WasOrphan k ts
unfolding strikes_after strikes_of get
struck-WasOrphan k [] s = absurd (omega (arith, s))
struck-WasOrphan k (t ∷ ts) s =
    let blind : IsBlind t → WasOrphan k (t ∷ ts) =
      λ b. inr (b, struck-WasOrphan k ts (rw (blind_keeps t (strikes_after ts) b) at s)) in
    elim (Option-cases (reads t)) [
      | inl n ↦ blind (inl n)
      | inr (c, q) ↦ elim (Option-cases (publishes t)) [
        | inl n ↦ blind (inr n)
        | inr (p, e) ↦ inl (struck-OrphanIn k t (strikes_after ts) q e s)
      ]
    ]

-- In a run of the daemon, whatever its ticks observe, a tick withdraws only a port that is
-- published, that no container claims which is live or whose state could not be read, and that was
-- published and unclaimed already in the last tick before that could read the tables.
pub reconcile_removals-Abandoned :
    (t : Tick) (before : List Tick) {current : Dict Str} {present : Dict Bool} (r : Removal)
    → reads t ≡ some current
    → publishes t ≡ some present
    → In r (reconcile_port_forwards t (strikes_after before)).removals
    → (k : Str) × Abandoned t (strikes_after before) present r k × WasOrphan k before
reconcile_removals-Abandoned t before r read published i =
    let (k, a) = removals_struck t (strikes_after before) r read published i in
    (k, a, struck-WasOrphan k before a.struck)
