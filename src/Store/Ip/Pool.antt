-- ===== src/Store/Ip/Pool.antt =====
-- The lists of the pool: what a scan of the free list keeps, and what it hands out.
use lxc2docker.Prelude.{
  ℕ, zero, suc, ◌+◌, ◌≤◌, ◌<◌, ◌≡◌, ◌≢◌, refl, true, false, List, [], ◌∷◌, ◌++◌, Option, some,
  arith, ◌==◌, inl, inr, Bool-cases, ◌⊎◌, is_empty, append_assoc, append-nil,
}
use lxc2docker.Store.State.{State}
use lxc2docker.Store.Ip.{
  has_octet, scan_free, scan_free_list, advance, from_counter, allocate_octet,
}
use lxc2docker.Store.Ip.Octets.{has_octet-append}
use lxc2docker.Store.Ip.Allocate.{advance_sound, used_of, chosen}

-- No octet twice.
abbrev pub Distinct : List ℕ → Type 0
Distinct [] = Unit
Distinct (o ∷ os) = (has_octet o os ≡ false) × Distinct os

Distinct-drop : (xs : List ℕ) (o : ℕ) (os : List ℕ) → Distinct (xs ++ o ∷ os) → Distinct (xs ++ os)
unfolding has_octet
Distinct-drop [] o os d = d.1
Distinct-drop (a ∷ xs) o os d = (
  ground (arith, has_octet-append a xs (o ∷ os), has_octet-append a xs os),
  Distinct-drop xs o os d.1,
)

pub Distinct-snoc :
    (xs : List ℕ) (o : ℕ) → Distinct xs → has_octet o xs ≡ false → Distinct (xs ++ o ∷ [])
unfolding has_octet
Distinct-snoc [] o d h = (refl, tt)
Distinct-snoc (a ∷ xs) o d h =
    (ground (arith, has_octet-append a xs (o ∷ [])), Distinct-snoc xs o d.1 (ground arith))

-- Before the first hit nothing is kept; after it the hit is neither kept nor still to come.
abbrev Scanned : ℕ × List ℕ → List ℕ → Type 0
Scanned (reuse, kept) os =
    ((reuse ≡ 0) × (kept ≡ []))
    ⊎ ((reuse ≢ 0) × (has_octet reuse os ≡ false) × (has_octet reuse kept ≡ false))

scan_free-Scanned :
    (used : List ℕ) (acc : ℕ × List ℕ) (o : ℕ) (os : List ℕ)
    → has_octet o os ≡ false
    → Scanned acc (o ∷ os)
    → Scanned (scan_free used acc o) os
unfolding scan_free has_octet
scan_free-Scanned used acc o os d h = ground (arith, has_octet-append acc.0 acc.1 (o ∷ []))

scan_free_list-Scanned :
    (used : List ℕ) (os : List ℕ) (acc : ℕ × List ℕ)
    → Distinct os
    → Scanned acc os
    → Scanned (scan_free_list used acc os) []
unfolding scan_free_list
scan_free_list-Scanned used [] acc d h = h
scan_free_list-Scanned used (o ∷ os) acc d h =
    scan_free_list-Scanned used os (scan_free used acc o) d.1
      (scan_free-Scanned used acc o os d.0 h)

-- A round keeps its octet or drops it.
scan_free_cases :
    (used : List ℕ) (acc : ℕ × List ℕ) (o : ℕ)
    → ((scan_free used acc o).1 ≡ acc.1) ⊎ ((scan_free used acc o).1 ≡ acc.1 ++ o ∷ [])
unfolding scan_free
scan_free_cases used acc o = ground arith

scan_free_list-Distinct :
    (used : List ℕ) (os : List ℕ) (acc : ℕ × List ℕ)
    → Distinct (acc.1 ++ os)
    → Distinct (scan_free_list used acc os).1
unfolding scan_free_list
scan_free_list-Distinct used [] acc d = rw append-nil at d
scan_free_list-Distinct used (o ∷ os) acc d =
    scan_free_list-Distinct used os (scan_free used acc o) (elim (scan_free_cases used acc o) [
      | inl e ↦ rw e (Distinct-drop acc.1 o os d)
      | inr e ↦ rw (e, append_assoc) d
    ])

-- What is kept was kept before or is in the rest.
scan_free_list_kept :
    (used : List ℕ) (os : List ℕ) (acc : ℕ × List ℕ) (x : ℕ)
    → has_octet x (scan_free_list used acc os).1 ≡ true
    → has_octet x (acc.1 ++ os) ≡ true
unfolding scan_free_list has_octet
scan_free_list_kept used [] acc x h = rw append-nil h
scan_free_list_kept used (o ∷ os) acc x h =
    let rest = scan_free_list_kept used os (scan_free used acc o) x h in
    ground (
      arith,
      scan_free_cases used acc o,
      has_octet-append x acc.1 (o ∷ os),
      has_octet-append x (scan_free used acc o).1 os,
      has_octet-append x acc.1 (o ∷ []),
      rest,
    )

-- What is handed out was chosen before or is in the rest.
scan_free_list_choice :
    (used : List ℕ) (os : List ℕ) (acc : ℕ × List ℕ)
    → let r = (scan_free_list used acc os).0 in (r ≡ acc.0) ⊎ (has_octet r os ≡ true)
unfolding scan_free_list scan_free has_octet
scan_free_list_choice used [] acc = inl refl
scan_free_list_choice used (o ∷ os) acc =
    ground (arith, scan_free_list_choice used os (scan_free used acc o))

abbrev kept : State → List ℕ
kept st = (scan_free_list (used_of st) (0, []) st.free_ips).1

abbrev counted : State → ℕ × Option ℕ
counted st = advance 255 (used_of st) st.next_ip

nothing_kept : (st : State) → Distinct st.free_ips → chosen st ≡ 0 → kept st ≡ []
nothing_kept st d z =
    elim (scan_free_list-Scanned (used_of st) st.free_ips (0, []) d (inl (refl, refl))) [
      | inl (_, k) ↦ k
      | inr (n, _, _) ↦ absurd (n z)
    ]

empty_list : (os : List ℕ) → is_empty os ≡ true → os ≡ []
unfolding is_empty
empty_list [] h = refl
empty_list (o ∷ os) h = cc

-- The state that an allocation leaves: the free list is used up and the counter moves, or an
-- octet leaves the free list.
pub allocate_steps :
    (st : State)
    → Distinct st.free_ips
    → (allocate_octet st ≡ (record st { free_ips = []; next_ip = (counted st).0 }, (counted st).1))
      ⊎ ((chosen st ≢ 0)
          × (allocate_octet st ≡ (record st { free_ips = kept st }, some (chosen st))))
unfolding allocate_octet from_counter
allocate_steps st d = elim (Bool-cases (is_empty st.free_ips)) [
  | inl e ↦ let f : st.free_ips ≡ [] = empty_list st.free_ips e in inl (rw (e, ← f))
  | inr e ↦ elim (Bool-cases (chosen st == 0)) [
    | inl z ↦ inl (rw (e, z, nothing_kept st d (ground arith)))
    | inr z ↦ inr (ground arith, rw (e, z))
  ]
]

advance_mono : (fuel : ℕ) (used : List ℕ) (next : ℕ) → next ≤ (advance fuel used next).0
unfolding advance
advance_mono zero used next = omega arith
advance_mono (suc fuel) used next = ground (arith, advance_mono fuel used (next + 1))

-- How an allocation changes the pool, whether or not it succeeds.
pub record Shrinks (st st' : State) : Type 0 where
  pub same : st'.containers ≡ st.containers
  pub mono : st.next_ip ≤ st'.next_ip
  pub free_distinct : Distinct st'.free_ips
  pub free_kept : (x : ℕ) → has_octet x st'.free_ips ≡ true → has_octet x st.free_ips ≡ true

pub allocate-Shrinks : (st : State) → Distinct st.free_ips → Shrinks st (allocate_octet st).0
allocate-Shrinks st d = elim (allocate_steps st d) [
  | inl e ↦ rw e (record {
    same = refl;
    mono = advance_mono 255 (used_of st) st.next_ip;
    free_distinct = tt;
    free_kept = λ x. unfold has_octet in λ h. absurd (ground arith);
  })
  | inr (n, e) ↦ rw e (record {
    same = refl;
    mono = omega arith;
    free_distinct = scan_free_list-Distinct (used_of st) st.free_ips (0, []) d;
    free_kept = λ x h. scan_free_list_kept (used_of st) st.free_ips (0, []) x h;
  })
]

chosen_gone :
    (st : State) → Distinct st.free_ips → chosen st ≢ 0 → has_octet (chosen st) (kept st) ≡ false
chosen_gone st d n =
    elim (scan_free_list-Scanned (used_of st) st.free_ips (0, []) d (inl (refl, refl))) [
      | inl (z, _) ↦ absurd (n z)
      | inr (_, _, g) ↦ g
    ]

chosen_listed : (st : State) → chosen st ≢ 0 → has_octet (chosen st) st.free_ips ≡ true
chosen_listed st n = elim (scan_free_list_choice (used_of st) st.free_ips (0, [])) [
  | inl z ↦ absurd (n z)
  | inr l ↦ l
]

-- The octet that is handed out comes from the free list or from the counter, and is in neither
-- afterwards.
pub record Leaves (st st' : State) (o : ℕ) : Type 0 where
  pub gone : has_octet o st'.free_ips ≡ false
  pub origin : (has_octet o st.free_ips ≡ true) ⊎ ((st.next_ip ≤ o) × (o < st'.next_ip))

pub allocate-Leaves :
    (st : State) (o : ℕ)
    → Distinct st.free_ips
    → (allocate_octet st).1 ≡ some o
    → Leaves st (allocate_octet st).0 o
allocate-Leaves st o d h = elim (allocate_steps st d) [
  | inl e ↦
      let (lo, hi, f, n) = advance_sound 255 (used_of st) st.next_ip o (rw e at h) in
      rw e (record { gone = unfold has_octet in refl; origin = inr (lo, omega arith) })
  | inr (n, e) ↦
      let q : o ≡ chosen st = (let h' = rw e at h in ground arith) in
      rw (e, q) (record { gone = chosen_gone st d n; origin = inl (chosen_listed st n) })
]
