-- ===== src/Store/Ip/Octets.antt =====
-- Laws of the octet lists, and the round trip between an octet and its address.
use lxc2docker.Prelude.{
  ℕ, zero, suc, ◌≤◌, ◌<◌, ◌≡◌, ◌≢◌, refl, Bool, true, false, ◌&&◌, List, [], ◌∷◌, ◌++◌, none, some,
  arith, ltb, ◌==◌, if◌then◌else◌, In, inl, inr, Bool-cases, Option-cases,
}
use lxc2docker.Strings.{Str, split_byte}
use lxc2docker.Store.Records.{ContainerRecord}
use lxc2docker.Store.Ip.{
  parse_managed_ip_octet, octet_of_parts, managed_ip, used_ip_octets, has_octet,
}

pub has_octet_sound : (o : ℕ) (os : List ℕ) → has_octet o os ≡ true → In o os
unfolding has_octet
has_octet_sound o [] h = absurd (ground arith)
has_octet_sound o (x ∷ os) h = elim (Bool-cases (x == o)) [
  | inl e ↦ inl (ground arith)
  | inr e ↦ inr (has_octet_sound o os (ground arith))
]

pub has_octet_complete : (o : ℕ) (os : List ℕ) → In o os → has_octet o os ≡ true
unfolding has_octet
has_octet_complete o [] i = absurd i
has_octet_complete o (x ∷ os) (inl e) = ground arith
has_octet_complete o (x ∷ os) (inr i) = ground (arith, has_octet_complete o os i)

pub has_octet-append :
    (o : ℕ) (xs ys : List ℕ)
    → has_octet o (xs ++ ys) ≡ (if has_octet o xs then true else has_octet o ys)
unfolding has_octet
has_octet-append o [] ys = refl
has_octet-append o (x ∷ xs) ys = ground (arith, has_octet-append o xs ys)

-- An octet that is not in use is the octet of no record.
pub not_used :
    (o : ℕ) (rs : List ContainerRecord)
    → has_octet o (used_ip_octets rs) ≡ false
    → (r : ContainerRecord) → In r rs
    → parse_managed_ip_octet r.ip_address ≢ some o
unfolding used_ip_octets has_octet
not_used o [] h r i = absurd i
not_used o (x ∷ rs) h r (inl e) = λ p. ground (arith, e)
not_used o (x ∷ rs) h r (inr i) = not_used o rs (ground arith) r i

-- An octet in use is the octet of a record.
pub is_used :
    (o : ℕ) (rs : List ContainerRecord)
    → has_octet o (used_ip_octets rs) ≡ true
    → (r : ContainerRecord) × In r rs × (parse_managed_ip_octet r.ip_address ≡ some o)
unfolding used_ip_octets has_octet
is_used o [] h = absurd (ground arith)
is_used o (x ∷ rs) h = elim (Option-cases (parse_managed_ip_octet x.ip_address)) [
  | inl e ↦ let (r, i, p) = is_used o rs (ground arith) in (r, inr i, p)
  | inr (n, e) ↦ elim (Bool-cases (n == o)) [
    | inl q ↦ (x, inl refl, ground arith)
    | inr q ↦ let (r, i, p) = is_used o rs (ground arith) in (r, inr i, p)
  ]
]

round_trip : ℕ → Bool
round_trip o =
    if ltb o 2
    then true
    else elim (parse_managed_ip_octet (managed_ip o)) [ some n ↦ n == o | none ↦ false ]

all_below : ℕ → (ℕ → Bool) → Bool
all_below zero test = true
all_below (suc n) test = test n && all_below n test

all_below_sound :
    (n : ℕ) (test : ℕ → Bool) (x : ℕ) → all_below n test ≡ true → x < n → test x ≡ true
unfolding all_below
all_below_sound zero test x h lt = absurd (omega arith)
all_below_sound (suc n) test x h lt = ground (arith, all_below_sound n test x)

table : all_below 255 round_trip ≡ true
unfolding all_below round_trip parse_managed_ip_octet managed_ip
table = refl

-- The address of an octet of the range is read back as that octet.
pub parse-managed_ip : (o : ℕ) → 2 ≤ o → o ≤ 254 → parse_managed_ip_octet (managed_ip o) ≡ some o
unfolding round_trip
parse-managed_ip o lo hi = ground (arith, all_below_sound 255 round_trip o table)

octet_of_parts_range : (ps : List Str) (o : ℕ) → octet_of_parts ps ≡ some o → (2 ≤ o) × (o ≤ 254)
unfolding octet_of_parts
octet_of_parts_range (a ∷ b ∷ c ∷ d ∷ []) o h = ground arith
octet_of_parts_range _ o h = cc

-- Only octets of the range are read.
pub parse_range : (ip : Str) (o : ℕ) → parse_managed_ip_octet ip ≡ some o → (2 ≤ o) × (o ≤ 254)
unfolding parse_managed_ip_octet
parse_range ip o h = ground (arith, octet_of_parts_range (split_byte b'.' ip) o)
