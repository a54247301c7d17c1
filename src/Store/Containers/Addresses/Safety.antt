-- ===== src/Store/Containers/Addresses/Safety.antt =====
-- Every step keeps the invariant.
use lxc2docker.Prelude.{ℕ, ◌≡◌, false, ◌∷◌, some, arith, Bool-cases, inl, inr, ◌==◌}
use lxc2docker.Strings.{Str}
use lxc2docker.Dict.{Dict, get, set, values, In-values}
use lxc2docker.Store.Records.{ContainerRecord}
use lxc2docker.Store.State.{State}
use lxc2docker.Store.Ip.{has_octet, allocate_octet}
use lxc2docker.Store.Ip.Octets.{not_used}
use lxc2docker.Store.Ip.Allocate.{allocate_sound}
use lxc2docker.Store.Ip.Pool.{Shrinks, Leaves, allocate-Shrinks, allocate-Leaves}
use lxc2docker.Store.Containers.{put_container}
use lxc2docker.Store.Containers.Addresses.{Daemon, Holds, IsPending, IsSafe}
use lxc2docker.Store.Containers.Addresses.Pieces.{set_entry, HeldOk-mono, IsPending-Shrinks}

-- An allocation that fails changes the pool and nothing else.
pub Shrinks-IsSafe :
    (d : Daemon) (st : State) → Shrinks d.state st → IsSafe d → IsSafe (record d { state = st })
Shrinks-IsSafe d st s h = record {
  start = omega (arith, s.mono, h.start);
  held = rw s.same (HeldOk-mono d.state.containers s.mono h.held);
  free = record {
    distinct = s.free_distinct;
    low = λ o x. omega (arith, s.mono, h.free.low o (s.free_kept o x));
  };
  once = h.once;
  pending = λ o x. IsPending-Shrinks d.state st o s (h.pending o x);
}

-- A new pending octet is none of the old ones.
fresh_octet :
    (d : Daemon) (st : State) (o : ℕ)
    → IsSafe d
    → Leaves d.state st o
    → has_octet o d.pending ≡ false
fresh_octet d st o h l = elim (Bool-cases (has_octet o d.pending)) [
  | inr e ↦ e
  | inl e ↦
      let p = h.pending o e in
      elim l.origin [
        | inl f ↦ absurd (cc (f, p.not_free))
        | inr (lo, _) ↦ absurd (omega (arith, p.low, lo))
      ]
]

pub allocate-IsSafe :
    (d : Daemon) (o : ℕ)
    → (allocate_octet d.state).1 ≡ some o
    → IsSafe d
    → IsSafe (record { state = (allocate_octet d.state).0; pending = o ∷ d.pending })
unfolding has_octet
allocate-IsSafe d o e h =
    let s = allocate-Shrinks d.state h.free.distinct in
    let l = allocate-Leaves d.state o h.free.distinct e in
    let base = Shrinks-IsSafe d (allocate_octet d.state).0 s h in
    let (lo, hi, unused) = allocate_sound d.state o h.start e in
    let new : IsPending (allocate_octet d.state).0 o = record {
      lo = lo;
      hi = hi;
      low = elim l.origin [ inl f ↦ omega (arith, s.mono, h.free.low o f) | inr (_, b) ↦ b ];
      not_free = l.gone;
      unheld = rw s.same (λ i r g.
          not_used o (values d.state.containers) unused r (In-values i d.state.containers g));
    } in
    record {
      start = base.start;
      held = base.held;
      free = base.free;
      once = (fresh_octet d (allocate_octet d.state).0 o h l, h.once);
      pending = λ x p. elim (Bool-cases (o == x)) [
        | inl q ↦ let q' : x ≡ o = ground arith in rw q' new
        | inr q ↦ base.pending x (ground arith)
      ];
    }

-- A record with no octet of its own, but for those that the record it replaces held.
abbrev pub IsCovered : Dict ContainerRecord → ContainerRecord → Type 0
IsCovered cs r =
    (o : ℕ) → Holds r o → (old : ContainerRecord) × (get r.id cs ≡ some old) × Holds old o

pub put-IsSafe :
    (d : Daemon) (r : ContainerRecord)
    → IsCovered d.state.containers r
    → IsSafe d
    → IsSafe (record d { state = put_container r d.state })
unfolding put_container
put-IsSafe d r c h = record {
  start = h.start;
  held = record {
    unique = λ i j a b o ga gb ha hb.
        let (a', ga', ha') = entry i a o ga ha in
        let (b', gb', hb') = entry j b o gb hb in h.held.unique i j a' b' o ga' gb' ha' hb';
    held_low =
        λ i a o ga ha. let (a', ga', ha') = entry i a o ga ha in h.held.held_low i a' o ga' ha';
  };
  free = h.free;
  once = h.once;
  pending = λ x p.
      let q = h.pending x p in
      record {
        lo = q.lo;
        hi = q.hi;
        low = q.low;
        not_free = q.not_free;
        unheld = λ i a ga ha. let (a', ga', ha') = entry i a x ga ha in q.unheld i a' ga' ha';
      };
}
  where
    entry :
        (i : Str) (a : ContainerRecord) (o : ℕ)
        → get i (set r.id r d.state.containers) ≡ some a
        → Holds a o
        → (old : ContainerRecord) × (get i d.state.containers ≡ some old) × Holds old o
    entry i a o g ho = elim (set_entry r.id i r a d.state.containers g) [
      | inl (k, e) ↦ let (old, g', h') = c o (rw e ho) in (old, rw (← k) g', h')
      | inr g' ↦ (a, g', ho)
    ]
