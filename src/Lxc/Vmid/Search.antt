-- ===== src/Lxc/Vmid/Search.antt =====
-- The search for a VMID ends, and finds the lowest one that is free.
use lxc2docker.Prelude.{
  ℕ, zero, suc, ◌+◌, ◌≤◌, ◌<◌, ◌≡◌, ◌≢◌, refl, true, false, ◌||◌, List, [], ◌∷◌, ◌++◌, none, some,
  arith, if◌then◌else◌, length, ◌==◌, inl, inr, Bool-cases, Option-cases,
}
use lxc2docker.Lxc.Vmid.{
  has_id, delete_id, vmid_lower_bound, drop_committed, search_vmid, vmid, lowest_free,
  allocate_vmid,
}

pub has_id-append : (n : ℕ) (xs ys : List ℕ) → has_id n (xs ++ ys) ≡ (has_id n xs || has_id n ys)
unfolding has_id
has_id-append n [] ys = refl
has_id-append n (x ∷ xs) ys = ground (arith, has_id-append n xs ys)

pub has_id-delete_id :
    (n m : ℕ) (xs : List ℕ) → has_id n (delete_id m xs) ≡ (if n == m then false else has_id n xs)
unfolding has_id delete_id
has_id-delete_id n m [] = ground arith
has_id-delete_id n m (x ∷ xs) = ground (arith, has_id-delete_id n m xs)

pub has_id-drop_committed :
    (n : ℕ) (used xs : List ℕ)
    → has_id n (drop_committed used xs) ≡ (if has_id n used then false else has_id n xs)
unfolding has_id drop_committed
has_id-drop_committed n used [] = ground arith
has_id-drop_committed n used (x ∷ xs) = ground (arith, has_id-drop_committed n used xs)

length-delete_id_le : (n : ℕ) (xs : List ℕ) → length (delete_id n xs) ≤ length xs
unfolding delete_id
length-delete_id_le n [] = omega arith
length-delete_id_le n (x ∷ xs) = ground (arith, length-delete_id_le n xs)

length-delete_id : (n : ℕ) (xs : List ℕ) → has_id n xs ≡ true → length (delete_id n xs) < length xs
unfolding delete_id has_id
length-delete_id n [] h = absurd (ground arith)
length-delete_id n (x ∷ xs) h = ground (arith, length-delete_id n xs, length-delete_id_le n xs)

-- A list that holds `n` numbers in a row is as long as that.
row_fits :
    (n lo : ℕ) (xs : List ℕ) → ((j : ℕ) → lo ≤ j → j < lo + n → has_id j xs ≡ true) → n ≤ length xs
row_fits zero lo xs full = omega arith
row_fits (suc n) lo xs full =
    let rest =
      row_fits n (lo + 1) (delete_id lo xs)
        (λ j a b. ground (arith, has_id-delete_id j lo xs, full j (omega arith) (omega arith))) in
    omega (arith, rest, length-delete_id lo xs (full lo (omega arith) (omega arith)))

search_none :
    (fuel id : ℕ) (used reserved : List ℕ)
    → search_vmid fuel id used reserved ≡ none
    → (j : ℕ) → id ≤ j
    → j < id + fuel
    → has_id j (used ++ reserved) ≡ true
unfolding search_vmid
search_none zero id used reserved h j a b = absurd (omega arith)
search_none (suc fuel) id used reserved h j a b =
    elim (Bool-cases (has_id id used || has_id id reserved)) [
      | inr e ↦ absurd (ground arith)
      | inl e ↦ elim (Bool-cases (id == j)) [
        | inl q ↦
            let same : id ≡ j = ground arith in ground (arith, has_id-append j used reserved, same)
        | inr q ↦
            search_none fuel (id + 1) used reserved (ground arith) j (ground arith) (omega arith)
      ]
    ]

-- A free id, and no lower one in the range is free.
pub record Lowest (used reserved : List ℕ) (lo id : ℕ) : Type 0 where
  pub low : lo ≤ id
  pub unused : has_id id used ≡ false
  pub unreserved : has_id id reserved ≡ false
  pub least : (j : ℕ) → lo ≤ j → j < id → (has_id j used || has_id j reserved) ≡ true

search_some :
    (fuel lo : ℕ) (used reserved : List ℕ) (id : ℕ)
    → search_vmid fuel lo used reserved ≡ some id
    → Lowest used reserved lo id
unfolding search_vmid
search_some zero lo used reserved id h = absurd (ground arith)
search_some (suc fuel) lo used reserved id h =
    elim (Bool-cases (has_id lo used || has_id lo reserved)) [
      | inr e ↦
          let same : lo ≡ id = ground arith in
          record {
            low = omega arith;
            unused = ground arith;
            unreserved = ground arith;
            least = λ j a b. absurd (omega arith);
          }
      | inl e ↦
          let more = search_some fuel (lo + 1) used reserved id (ground arith) in
          record {
            low = omega (arith, more.low);
            unused = more.unused;
            unreserved = more.unreserved;
            least = λ j a b. elim (Bool-cases (lo == j)) [
              | inl q ↦ let same : lo ≡ j = ground arith in ground arith
              | inr q ↦ more.least j (ground arith) b
            ];
          }
    ]

search_ends :
    (used reserved : List ℕ)
    → search_vmid (suc (length (used ++ reserved))) vmid_lower_bound used reserved ≢ none
search_ends used reserved h =
    let too_long =
      row_fits (suc (length (used ++ reserved))) vmid_lower_bound (used ++ reserved)
        (search_none (suc (length (used ++ reserved))) vmid_lower_bound used reserved h) in
    absurd (omega (arith, too_long))

-- If no VMID is pinned, the search of allocateVMID ends, for every cluster and every set of
-- reservations: it reserves and returns the lowest id from 100 on that is neither in use nor reserved
-- by a create that has not written its configuration yet.
pub allocate_vmid-Lowest :
    (used reserved : List ℕ)
    → (id : ℕ) × (allocate_vmid 0 (some used) reserved
        ≡ (id ∷ drop_committed used reserved, vmid id))
      × Lowest used (drop_committed used reserved) vmid_lower_bound id
unfolding allocate_vmid lowest_free
allocate_vmid-Lowest used reserved =
    let left = drop_committed used reserved in
    elim (Option-cases (search_vmid (suc (length (used ++ left))) vmid_lower_bound used left)) [
      | inl e ↦ absurd (search_ends used left e)
      | inr (id, e) ↦ (
        id,
        rw (allocate_vmid, lowest_free, e) refl,
        search_some (suc (length (used ++ left))) vmid_lower_bound used left id e,
      )
    ]
