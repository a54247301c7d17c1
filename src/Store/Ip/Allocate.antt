-- ===== src/Store/Ip/Allocate.antt =====
-- What `allocate_octet` hands out, and when it gives up.
use lxc2docker.Prelude.{
  ℕ, zero, suc, ◌+◌, ◌≤◌, ◌≡◌, ◌≢◌, refl, true, false, List, [], ◌∷◌, none, some, arith, ◌==◌, In,
  inl, inr, Bool-cases, ◌⊎◌, is_empty,
}
use lxc2docker.Dict.{values}
use lxc2docker.Store.State.{State}
use lxc2docker.Store.Ip.{
  used_ip_octets, has_octet, scan_free, scan_free_list, advance, from_counter, allocate_octet,
}

-- An octet that may be handed out: in the range, and held by no container.
abbrev pub IsFree : List ℕ → ℕ → Type 0
IsFree used o = (2 ≤ o) × (o ≤ 254) × (has_octet o used ≡ false)

-- `reuseOctet` is 0 or an octet that may be handed out.
abbrev Chosen : List ℕ → ℕ → Type 0
Chosen used reuse = (reuse ≡ 0) ⊎ IsFree used reuse

scan_free_step :
    (used : List ℕ) (acc : ℕ × List ℕ) (o : ℕ)
    → Chosen used acc.0
    → Chosen used (scan_free used acc o).0
unfolding scan_free
scan_free_step used acc o h = ground arith

scan_free_sound :
    (used : List ℕ) (os : List ℕ) (acc : ℕ × List ℕ)
    → Chosen used acc.0
    → Chosen used (scan_free_list used acc os).0
unfolding scan_free_list
scan_free_sound used [] acc h = h
scan_free_sound used (o ∷ os) acc h =
    scan_free_sound used os (scan_free used acc o) (scan_free_step used acc o h)

-- A round leaves `reuseOctet` at 0 only if it was 0 and its octet may not be handed out.
scan_free_zero :
    (used : List ℕ) (acc : ℕ × List ℕ) (o : ℕ)
    → (scan_free used acc o).0 ≡ 0
    → (acc.0 ≡ 0) × ((2 ≤ o) → (o ≤ 254) → has_octet o used ≡ true)
unfolding scan_free
scan_free_zero used acc o h = (ground arith, λ lo hi. ground arith)

-- `reuseOctet` stays 0 only if no octet of the list may be handed out.
scan_free_complete :
    (used : List ℕ) (os : List ℕ) (acc : ℕ × List ℕ)
    → (scan_free_list used acc os).0 ≡ 0
    → (acc.0 ≡ 0) × ((o : ℕ) → In o os → 2 ≤ o → o ≤ 254 → has_octet o used ≡ true)
unfolding scan_free_list
scan_free_complete used [] acc h = (h, λ o i. absurd i)
scan_free_complete used (x ∷ os) acc h =
    let (z, rest) = scan_free_complete used os (scan_free used acc x) h in
    let (z', here) = scan_free_zero used acc x z in
    (z', λ o. elim [ inl e ↦ λ lo hi. rw e (here (rw e at lo) (rw e at hi)) | inr i ↦ rest o i ])

pub advance_sound :
    (fuel : ℕ) (used : List ℕ) (next o : ℕ)
    → (advance fuel used next).1 ≡ some o
    → (next ≤ o) × (o ≤ 254) × (has_octet o used ≡ false) × ((advance fuel used next).0 ≡ o + 1)
unfolding advance
advance_sound zero used next o h = cc
advance_sound (suc fuel) used next o h = ground (arith, advance_sound fuel used (next + 1) o)

-- With 255 rounds of fuel the loop gives up only when every octet from the counter on is in use.
advance_complete :
    (fuel : ℕ) (used : List ℕ) (next : ℕ)
    → 255 ≤ next + fuel
    → (advance fuel used next).1 ≡ none
    → (o : ℕ) → next ≤ o
    → o ≤ 254
    → has_octet o used ≡ true
unfolding advance
advance_complete zero used next f h o lo hi = absurd (omega arith)
advance_complete (suc fuel) used next f h o lo hi = ground (
  arith,
  advance_complete fuel used (next + 1),
  advance_complete fuel used (next + 1) (omega arith) (ground arith) o,
)

abbrev pub used_of : State → List ℕ
used_of st = used_ip_octets (values st.containers)

abbrev pub chosen : State → ℕ
chosen st = (scan_free_list (used_of st) (0, []) st.free_ips).0

empty_scan :
    (used : List ℕ) (os : List ℕ) → is_empty os ≡ true → (scan_free_list used (0, []) os).0 ≡ 0
unfolding is_empty scan_free_list
empty_scan used [] h = refl
empty_scan used (o ∷ os) h = absurd (ground arith)

-- The two sources of an octet: the free list, and the counter where the list gives none.
allocate_cases :
    (st : State)
    → ((chosen st ≡ 0) × ((allocate_octet st).1 ≡ (advance 255 (used_of st) st.next_ip).1))
      ⊎ ((chosen st ≢ 0) × ((allocate_octet st).1 ≡ some (chosen st)))
unfolding allocate_octet from_counter
allocate_cases st = elim (Bool-cases (is_empty st.free_ips)) [
  | inl e ↦ inl (empty_scan (used_of st) st.free_ips e, rw e)
  | inr e ↦ elim (Bool-cases (chosen st == 0)) [
    | inl z ↦ inl (ground arith, rw (e, z))
    | inr z ↦ inr (ground arith, rw (e, z))
  ]
]

-- Whatever `AllocateIP` hands out is an octet of the range that no container holds.
pub allocate_sound :
    (st : State) (o : ℕ)
    → 2 ≤ st.next_ip
    → (allocate_octet st).1 ≡ some o
    → IsFree (used_ip_octets (values st.containers)) o
allocate_sound st o lo h = elim (allocate_cases st) [
  | inl (z, e) ↦
      let (a, b, c, _) = advance_sound 255 (used_of st) st.next_ip o (ground arith) in
      (omega arith, b, c)
  | inr (z, e) ↦ elim (scan_free_sound (used_of st) st.free_ips (0, []) (inl refl)) [
    | inl n ↦ absurd (z n)
    | inr f ↦ let q : o ≡ chosen st = ground arith in rw q f
  ]
]

-- It gives up only when every octet of the free list and from the counter on is held.
pub allocate_complete :
    (st : State)
    → (allocate_octet st).1 ≡ none
    → (o : ℕ) → 2 ≤ o
    → o ≤ 254
    → (st.next_ip ≤ o) ⊎ In o st.free_ips
    → has_octet o (used_ip_octets (values st.containers)) ≡ true
allocate_complete st h o lo hi = elim (allocate_cases st) [
  | inl (z, e) ↦ elim [
    | inl n ↦ advance_complete 255 (used_of st) st.next_ip (omega arith) (ground arith) o n hi
    | inr i ↦ (scan_free_complete (used_of st) st.free_ips (0, []) z).1 o i lo hi
  ]
  | inr (z, e) ↦ λ _. absurd (ground arith)
]
