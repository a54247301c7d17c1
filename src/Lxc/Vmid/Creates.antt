-- ===== src/Lxc/Vmid/Creates.antt =====
-- Creates that run at the same time, with what happens in the cluster meanwhile.
use lxc2docker.Prelude.{
  ℕ, zero, suc, ◌≡◌, refl, true, false, ◌||◌, List, [], ◌∷◌, ◌++◌, some, arith, ◌==◌, inl, inr,
  Bool-cases,
}
use lxc2docker.Lxc.Vmid.{has_id, delete_id, drop_committed, vmid, allocate_vmid, release_vmid}
use lxc2docker.Lxc.Vmid.Search.{
  has_id-append, has_id-delete_id, has_id-drop_committed, allocate_vmid-Lowest,
}

-- The ids in the cluster's directories, the reservations, the ids that a create works on, and those
-- whose create has failed and destroyed its container, and still has to give its reservation back.
pub record Cluster : Type 0 where
  pub used : List ℕ
  pub reserved : List ℕ
  pub in_flight : List ℕ
  pub undone : List ℕ

-- A create gets an id, writes its configuration, and ends (in either order, or without writing), or it
-- fails, destroys its own container and then gives the reservation back, as its deferred call. An
-- admin or another node makes a guest, or destroys one that no create works on. An id is not given
-- anew between the destruction by a failed create and its deferred release.
pub data Step : Cluster → Cluster → Type 0 where
  begin :
      (c : Cluster) (requested id : ℕ) (left : List ℕ)
      → allocate_vmid requested (some c.used) c.reserved ≡ (left, vmid id)
      → has_id id c.undone ≡ false
      → Step c (record c { reserved = left; in_flight = id ∷ c.in_flight })
  commit :
      (c : Cluster) (id : ℕ)
      → has_id id c.in_flight ≡ true
      → Step c (record c { used = id ∷ c.used })
  finish :
      (used reserved : List ℕ) (xs : List ℕ) (id : ℕ) (ys us : List ℕ)
      → Step
          (record { used = used; reserved = reserved; in_flight = xs ++ id ∷ ys; undone = us })
          (record {
            used = used;
            reserved = release_vmid id reserved;
            in_flight = xs ++ ys;
            undone = us;
          })
  destroy_own :
      (used reserved : List ℕ) (xs : List ℕ) (id : ℕ) (ys us : List ℕ)
      → Step
          (record { used = used; reserved = reserved; in_flight = xs ++ id ∷ ys; undone = us })
          (record {
            used = delete_id id used;
            reserved = reserved;
            in_flight = xs ++ ys;
            undone = id ∷ us;
          })
  release :
      (used reserved working us : List ℕ) (id : ℕ) (vs : List ℕ)
      → Step
          (record { used = used; reserved = reserved; in_flight = working; undone = us ++ id ∷ vs })
          (record {
            used = used;
            reserved = release_vmid id reserved;
            in_flight = working;
            undone = us ++ vs;
          })
  guest_made : (c : Cluster) (id : ℕ) → Step c (record c { used = id ∷ c.used })
  guest_destroyed :
      (c : Cluster) (id : ℕ)
      → has_id id c.in_flight ≡ false
      → Step c (record c { used = delete_id id c.used })

abbrev pub idle : List ℕ → Cluster
idle used = record { used = used; reserved = []; in_flight = []; undone = [] }

pub data Reach (c : Cluster) : Cluster → Type 0 where
  here : Reach c c
  next : {d e : Cluster} → Reach c d → Step d e → Reach c e

abbrev pub Distinct : List ℕ → Type 0
Distinct [] = Unit
Distinct (n ∷ ns) = (has_id n ns ≡ false) × Distinct ns

-- No id is worked on twice, each is in use or reserved, and none is one that a failed create has still
-- to release.
pub record IsSafe (c : Cluster) : Type 0 where
  pub distinct : Distinct c.in_flight
  pub guarded :
      (id : ℕ) → has_id id c.in_flight ≡ true → (has_id id c.used || has_id id c.reserved) ≡ true
  pub apart : (id : ℕ) → has_id id c.in_flight ≡ true → has_id id c.undone ≡ false

Distinct-drop :
    (xs : List ℕ) (id : ℕ) (ys : List ℕ)
    → Distinct (xs ++ id ∷ ys)
    → Distinct (xs ++ ys) × (has_id id (xs ++ ys) ≡ false)
unfolding has_id
Distinct-drop [] id ys (a, d) = (d, a)
Distinct-drop (x ∷ xs) id ys (a, d) =
    let (d', g) = Distinct-drop xs id ys d in
    (
      (ground (arith, has_id-append x xs (id ∷ ys), has_id-append x xs ys), d'),
      ground (arith, has_id-append x xs (id ∷ ys)),
    )

-- An id that is given is free and becomes reserved; an id that was in use or reserved still is.
record Given (used reserved left : List ℕ) (id : ℕ) : Type 0 where
  unused : has_id id used ≡ false
  unreserved : has_id id reserved ≡ false
  kept :
      (j : ℕ)
      → (has_id j used || has_id j reserved) ≡ true
      → (has_id j used || has_id j left) ≡ true
  held : has_id id left ≡ true

allocated :
    (requested : ℕ) (used reserved left : List ℕ) (id : ℕ)
    → allocate_vmid requested (some used) reserved ≡ (left, vmid id)
    → Given used reserved left id
unfolding allocate_vmid has_id
allocated zero used reserved left id h =
    let (found, e, lowest) = allocate_vmid-Lowest used reserved in
    let same_id : found ≡ id = cc (e, h) in
    let same_left : found ∷ drop_committed used reserved ≡ left = cc (e, h) in
    rw⁻¹ (same_id, same_left)
      (record {
        unused = lowest.unused;
        unreserved =
            ground
              (arith, lowest.unused, lowest.unreserved, has_id-drop_committed found used reserved);
        kept = λ j. ground (arith, has_id-drop_committed j used reserved);
        held = ground arith;
      })
allocated (suc n) used reserved left id h = elim (Bool-cases (has_id (suc n) used)) [
  | inl u ↦ absurd (cc (rw (allocate_vmid, u) at h))
  | inr u ↦ elim (Bool-cases (has_id (suc n) reserved)) [
    | inl r ↦ absurd (cc (rw (allocate_vmid, u, r) at h))
    | inr r ↦
        let h' = rw (allocate_vmid, u, r) at h in
        let same_id : suc n ≡ id = cc h' in
        let same_left : suc n ∷ reserved ≡ left = cc h' in
        rw⁻¹ (same_id, same_left)
          (record { unused = u; unreserved = r; kept = λ j. ground arith; held = ground arith })
  ]
]

begin-IsSafe :
    (c : Cluster) (requested id : ℕ) (left : List ℕ)
    → allocate_vmid requested (some c.used) c.reserved ≡ (left, vmid id)
    → has_id id c.undone ≡ false
    → IsSafe c
    → IsSafe (record c { reserved = left; in_flight = id ∷ c.in_flight })
unfolding has_id
begin-IsSafe c requested id left h new safe =
    let given = allocated requested c.used c.reserved left id h in
    record {
      distinct = (ground (arith, safe.guarded id, given.unused, given.unreserved), safe.distinct);
      guarded = λ j i. ground (arith, safe.guarded j, given.kept j, given.held);
      apart = λ j i. elim (Bool-cases (j == id)) [
        | inl e ↦ let same : j ≡ id = ground arith in rw same new
        | inr e ↦ safe.apart j (ground (arith, i, e))
      ];
    }

has_id-middle :
    (j : ℕ) (xs : List ℕ) (id : ℕ) (ys : List ℕ)
    → has_id j (xs ++ id ∷ ys) ≡ (j == id || has_id j (xs ++ ys))
unfolding has_id
has_id-middle j xs id ys = ground (arith, has_id-append j xs (id ∷ ys), has_id-append j xs ys)

Step-IsSafe : (c d : Cluster) → Step c d → IsSafe c → IsSafe d
unfolding has_id release_vmid
Step-IsSafe _ _ (begin c requested id left h new) safe = begin-IsSafe c requested id left h new safe
Step-IsSafe _ _ (commit c id i) safe = record {
  distinct = safe.distinct;
  guarded = λ j i. ground (arith, safe.guarded j);
  apart = safe.apart;
}
Step-IsSafe _ _ (guest_made c id) safe = record {
  distinct = safe.distinct;
  guarded = λ j i. ground (arith, safe.guarded j);
  apart = safe.apart;
}
Step-IsSafe _ _ (guest_destroyed c id n) safe = record {
  distinct = safe.distinct;
  guarded = λ j i. elim (Bool-cases (j == id)) [
    | inl e ↦ let same : j ≡ id = ground arith in absurd (cc (n, i, same))
    | inr e ↦ ground (arith, safe.guarded j, has_id-delete_id j id c.used)
  ];
  apart = safe.apart;
}
Step-IsSafe _ _ (finish used reserved xs id ys us) safe =
    let (d, g) = Distinct-drop xs id ys safe.distinct in
    record {
      distinct = d;
      guarded = λ j i. elim (Bool-cases (j == id)) [
        | inl e ↦ let same : j ≡ id = ground arith in absurd (cc (g, i, same))
        | inr e ↦
            ground (arith, safe.guarded j, has_id-middle j xs id ys, has_id-delete_id j id reserved)
      ];
      apart = λ j i. safe.apart j (ground (arith, i, has_id-middle j xs id ys));
    }
Step-IsSafe _ _ (destroy_own used reserved xs id ys us) safe =
    let (d, g) = Distinct-drop xs id ys safe.distinct in
    record {
      distinct = d;
      guarded = λ j i. elim (Bool-cases (j == id)) [
        | inl e ↦ let same : j ≡ id = ground arith in absurd (cc (g, i, same))
        | inr e ↦
            ground (arith, safe.guarded j, has_id-middle j xs id ys, has_id-delete_id j id used)
      ];
      apart = λ j i. elim (Bool-cases (j == id)) [
        | inl e ↦ let same : j ≡ id = ground arith in absurd (cc (g, i, same))
        | inr e ↦ ground (arith, e, safe.apart j, i, has_id-middle j xs id ys)
      ];
    }
Step-IsSafe _ _ (release used reserved working us id vs) safe = record {
  distinct = safe.distinct;
  guarded = λ j i. elim (Bool-cases (j == id)) [
    | inl e ↦ ground (arith, e, safe.apart j i, has_id-middle j us id vs)
    | inr e ↦ ground (arith, safe.guarded j, has_id-delete_id j id reserved)
  ];
  apart = λ j i. ground (arith, safe.apart j i, has_id-middle j us id vs);
}

-- However creates interleave, failed ones that destroy what they made included, with guests made and
-- destroyed elsewhere in the cluster: no two creates ever work on one VMID, pinned or not, and each
-- VMID that is worked on is in use or reserved. Two things are taken for granted: nobody else
-- destroys a guest that is being created, and no id is given anew between the destruction by a
-- failed create and its deferred release.
pub reach-IsSafe : (used : List ℕ) (c : Cluster) → Reach (idle used) c → IsSafe c
unfolding has_id
reach-IsSafe used _ here = record {
  distinct = tt;
  guarded = λ id i. absurd (ground arith);
  apart = λ id i. refl;
}
reach-IsSafe used c (next {d} before step) = Step-IsSafe d c step (reach-IsSafe used d before)
