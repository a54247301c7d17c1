-- ===== src/Store/Containers/Addresses/Unique.antt =====
-- The steps that end an allocation, and the theorem on all runs.
use lxc2docker.Prelude.{
  ℕ, ◌<◌, ◌≡◌, ◌≢◌, sym, true, false, List, ◌∷◌, ◌++◌, some, arith, Bool-cases, Option-cases, inl,
  inr, ◌⊎◌, ◌∙◌, ◌==◌, ap,
}
use lxc2docker.Strings.{Str}
use lxc2docker.Dict.{Dict, get, set, delete, values}
use lxc2docker.Store.Records.{ContainerRecord}
use lxc2docker.Store.State.{State}
use lxc2docker.Store.Ip.{
  parse_managed_ip_octet, managed_ip, used_ip_octets, has_octet, append_free_ip, allocate_octet,
}
use lxc2docker.Store.Ip.Octets.{parse-managed_ip}
use lxc2docker.Store.Ip.Pool.{Distinct, allocate-Shrinks}
use lxc2docker.Store.Containers.{put_container, drop_container, freed_octet, free_octet}
use lxc2docker.Store.Containers.Addresses.{
  Daemon, Step, allocate, exhausted, assign, put_unmanaged, rewrite, give_back, remove, Reach, here,
  next, Holds, HeldOk, IsPending, IsSafe, UniqueAddresses,
}
use lxc2docker.Store.Containers.Addresses.Pieces.{
  Distinct-middle, has_octet-middle, has_octet_here, has_octet-append_free_ip,
  append_free_ip-FreeOk, set_entry, delete_entry, delete-HeldOk,
}
use lxc2docker.Store.Containers.Addresses.Safety.{Shrinks-IsSafe, allocate-IsSafe, put-IsSafe}

-- A pending octet that is taken out of the list: the others stay pending, and are other octets.
module _ (d : Daemon) (h : IsSafe d) (ps qs : List ℕ) (o : ℕ)
    (split : d.pending ≡ ps ++ o ∷ qs) where
  taken : IsPending d.state o
  taken = h.pending o (rw split (has_octet_here ps o qs))

  once_less : Distinct (ps ++ qs) × (has_octet o (ps ++ qs) ≡ false)
  once_less = Distinct-middle ps o qs (rw split at h.once)

  others : (x : ℕ) → has_octet x (ps ++ qs) ≡ true → IsPending d.state x × (x ≢ o)
  others x p = (
    h.pending x (rw split (has_octet-middle x ps o qs p)),
    λ e. absurd (cc (p, once_less.1, ap (λ n. has_octet n (ps ++ qs)) e)),
  )

  create-IsSafe :
      (r : ContainerRecord)
      → r.ip_address ≡ managed_ip o
      → IsSafe (record { state = put_container r d.state; pending = ps ++ qs })
  unfolding put_container
  create-IsSafe r ip = record {
    start = h.start;
    held = record {
      unique = λ i j a b x ga gb ha hb. elim (entry i a ga) [
        | inl (ei, ea) ↦ elim (entry j b gb) [
          | inl (ej, eb) ↦ sym ei ∙ ej
          | inr gb' ↦ absurd (taken.unheld j b gb' (rw (octet a x ea ha) at hb))
        ]
        | inr ga' ↦ elim (entry j b gb) [
          | inl (ej, eb) ↦ absurd (taken.unheld i a ga' (rw (octet b x eb hb) at ha))
          | inr gb' ↦ h.held.unique i j a b x ga' gb' ha hb
        ]
      ];
      held_low = λ i a x ga ha. elim (entry i a ga) [
        | inl (ei, ea) ↦ let e = octet a x ea ha in omega (arith, taken.low)
        | inr ga' ↦ h.held.held_low i a x ga' ha
      ];
    };
    free = h.free;
    once = once_less.0;
    pending = λ x p.
        let (q, ne) = others x p in
        record {
          lo = q.lo;
          hi = q.hi;
          low = q.low;
          not_free = q.not_free;
          unheld = λ i a ga. elim (entry i a ga) [
            | inl (ei, ea) ↦ λ ha. ne (octet a x ea ha)
            | inr ga' ↦ q.unheld i a ga'
          ];
        };
  }
    where
      entry :
          (i : Str) (a : ContainerRecord)
          → get i (set r.id r d.state.containers) ≡ some a
          → ((r.id ≡ i) × (r ≡ a)) ⊎ (get i d.state.containers ≡ some a)
      entry i a g = set_entry r.id i r a d.state.containers g

      octet : (a : ContainerRecord) (x : ℕ) → r ≡ a → Holds a x → x ≡ o
      octet a x e ha = cc (
        ha,
        parse-managed_ip o taken.lo taken.hi,
        ap parse_managed_ip_octet ip,
        ap (λ (c : ContainerRecord). parse_managed_ip_octet c.ip_address) e,
      )

-- An octet below the counter that no container holds goes to the free list, or is there already.
module _ (d : Daemon) (h : IsSafe d) (cs : Dict ContainerRecord) (o : ℕ)
    (held : HeldOk d.state.next_ip cs) where
  release-IsSafe :
      (left : List ℕ)
      → o < d.state.next_ip
      → Distinct left
      → ((x : ℕ)
          → has_octet x left ≡ true
          → IsPending (record d.state { containers = cs }) x × (x ≢ o))
      → IsSafe (record {
        state = record d.state { containers = cs; free_ips = append_free_ip o d.state.free_ips };
        pending = left;
      })
  release-IsSafe left low once pending = record {
    start = h.start;
    held = held;
    free = append_free_ip-FreeOk d.state.next_ip o d.state.free_ips low h.free;
    once = once;
    pending = λ x p.
        let (q, ne) = pending x p in
        record {
          lo = q.lo;
          hi = q.hi;
          low = q.low;
          not_free = elim (Bool-cases (has_octet x (append_free_ip o d.state.free_ips))) [
            | inr e ↦ e
            | inl e ↦ elim (has_octet-append_free_ip x o d.state.free_ips e) [
              | inl same ↦ absurd (ne same)
              | inr f ↦ absurd (cc (f, q.not_free))
            ]
          ];
          unheld = q.unheld;
        };
  }

give_back-IsSafe :
    (d : Daemon) (ps qs : List ℕ) (o : ℕ) (st : State)
    → d.pending ≡ ps ++ o ∷ qs
    → free_octet (managed_ip o) d.state ≡ some st
    → IsSafe d
    → IsSafe (record { state = st; pending = ps ++ qs })
unfolding free_octet
give_back-IsSafe d ps qs o st split e h =
    let t = taken d h ps qs o split in
    let freed : st ≡ record d.state { free_ips = append_free_ip o d.state.free_ips } =
      ground (arith, parse-managed_ip o t.lo t.hi) in
    rw freed (
      release-IsSafe d h d.state.containers o h.held (ps ++ qs) t.low
        (once_less d h ps qs o split).0 (others d h ps qs o split))

freed_held :
    (id : Str) (cs : Dict ContainerRecord)
    → (freed_octet id cs == 0) ≡ false
    → (r : ContainerRecord) × (get id cs ≡ some r) × Holds r (freed_octet id cs)
unfolding freed_octet
freed_held id cs z = elim (Option-cases (get id cs)) [
  | inl e ↦ absurd (ground arith)
  | inr (r, e) ↦ (r, e, ground arith)
]

-- A removal drops the record, and frees the octet that it held if no other record holds it.
drop_cases :
    (id : Str) (st : State)
    → (drop_container id st ≡ record st { containers = delete id st.containers })
      ⊎ ((o : ℕ) × (r : ContainerRecord) × (get id st.containers ≡ some r)
          × Holds r o
          × (drop_container id st ≡ record st {
            containers = delete id st.containers;
            free_ips = append_free_ip o st.free_ips;
          }))
unfolding drop_container
drop_cases id st = elim (Bool-cases (freed_octet id st.containers == 0)) [
  | inl z ↦ inl (rw z)
  | inr z ↦
      let (r, g, p) = freed_held id st.containers z in
      elim (Bool-cases (
        has_octet (freed_octet id st.containers)
          (used_ip_octets (values (delete id st.containers))))) [
            | inl u ↦ inl (rw (z, u))
            | inr u ↦ inr (freed_octet id st.containers, r, g, p, rw (z, u))
          ]
]

remove-IsSafe :
    (d : Daemon) (id : Str) → IsSafe d → IsSafe (record d { state = drop_container id d.state })
remove-IsSafe d id h = elim (drop_cases id d.state) [
  | inl e ↦
      rw e (record { start = h.start; held = held; free = h.free; once = h.once; pending = still })
  | inr (o, r, g, p, e) ↦ rw e (
      release-IsSafe d h (delete id d.state.containers) o held d.pending
        (h.held.held_low id r o g p) h.once
        λ x q. (still x q, λ same. (h.pending x q).unheld id r g (rw same p)))
]
  where
    held : HeldOk d.state.next_ip (delete id d.state.containers)
    held = delete-HeldOk d.state.next_ip id d.state.containers h.held

    still :
        (x : ℕ)
        → has_octet x d.pending ≡ true
        → IsPending (record d.state { containers = delete id d.state.containers }) x
    still x q =
        let p = h.pending x q in
        record {
          lo = p.lo;
          hi = p.hi;
          low = p.low;
          not_free = p.not_free;
          unheld = λ i a ga. p.unheld i a (delete_entry id i a d.state.containers ga);
        }

Step-IsSafe : {d e : Daemon} → Step d e → IsSafe d → IsSafe e
Step-IsSafe {d} (allocate o e) h = allocate-IsSafe d o e h
Step-IsSafe {d} (exhausted e) h =
    Shrinks-IsSafe d (allocate_octet d.state).0 (allocate-Shrinks d.state h.free.distinct) h
Step-IsSafe {d} (assign ps qs o r split ip) h = create-IsSafe d h ps qs o split r ip
Step-IsSafe {d} (put_unmanaged r none_held) h = put-IsSafe d r (λ o p. absurd (cc (p, none_held))) h
Step-IsSafe {d} (rewrite r old g same) h = put-IsSafe d r (λ o p. (old, g, rw (← same) p)) h
Step-IsSafe {d} (give_back ps qs o st split e) h = give_back-IsSafe d ps qs o st split e h
Step-IsSafe {d} (remove id) h = remove-IsSafe d id h

pub Reach-IsSafe : {d e : Daemon} → Reach d e → IsSafe d → IsSafe e
Reach-IsSafe here h = h
Reach-IsSafe (next r s) h = Step-IsSafe s (Reach-IsSafe r h)

-- From a safe state, in whatever order allocations, writes of an allocated address to a new record or
-- to one that is there, failed creates, writes that keep the address of a record, and removals
-- interleave: no two containers hold the same managed address, and an address that was handed out
-- and is still pending is held by no container and is not in the free list. Not among the steps is a
-- warm reuse that writes the address of a record which was removed after it was read.
pub addresses_unique :
    {d e : Daemon}
    → IsSafe d
    → Reach d e
    → UniqueAddresses e.state.containers
      × ((o : ℕ) → has_octet o e.pending ≡ true → IsPending e.state o)
addresses_unique h r = let s = Reach-IsSafe r h in (s.held.unique, s.pending)
