-- ===== src/Store/Containers/Addresses/Pieces.antt =====
-- How the parts of the invariant survive the writes that the operations make.
use lxc2docker.Prelude.{
  ℕ, ◌≤◌, ◌<◌, ◌≡◌, true, false, List, [], ◌∷◌, ◌++◌, some, arith, Bool-cases, inl, inr, ◌⊎◌,
}
use lxc2docker.Strings.{Str, eq_str, eq_str_iff}
use lxc2docker.Dict.{Dict, get, set, delete, get-set, get-delete}
use lxc2docker.Store.Records.{ContainerRecord}
use lxc2docker.Store.State.{State}
use lxc2docker.Store.Ip.{has_octet, append_free_ip}
use lxc2docker.Store.Ip.Octets.{has_octet-append}
use lxc2docker.Store.Ip.Pool.{Distinct, Distinct-snoc, Shrinks}
use lxc2docker.Store.Containers.Addresses.{HeldOk, FreeOk, IsPending}

pub Distinct-middle :
    (ps : List ℕ) (o : ℕ) (qs : List ℕ)
    → Distinct (ps ++ o ∷ qs)
    → Distinct (ps ++ qs) × (has_octet o (ps ++ qs) ≡ false)
unfolding has_octet
Distinct-middle [] o qs d = (d.1, d.0)
Distinct-middle (p ∷ ps) o qs d =
    let (rest, out) = Distinct-middle ps o qs d.1 in
    (
      (ground (arith, has_octet-append p ps (o ∷ qs), has_octet-append p ps qs), rest),
      ground (arith, has_octet-append p ps (o ∷ qs), has_octet-append p ps qs, out),
    )

pub has_octet-middle :
    (x : ℕ) (ps : List ℕ) (o : ℕ) (qs : List ℕ)
    → has_octet x (ps ++ qs) ≡ true
    → has_octet x (ps ++ o ∷ qs) ≡ true
unfolding has_octet
has_octet-middle x ps o qs h =
    ground (arith, has_octet-append x ps (o ∷ qs), has_octet-append x ps qs)

pub has_octet_here : (ps : List ℕ) (o : ℕ) (qs : List ℕ) → has_octet o (ps ++ o ∷ qs) ≡ true
unfolding has_octet
has_octet_here ps o qs = ground (arith, has_octet-append o ps (o ∷ qs))

pub has_octet-append_free_ip :
    (x o : ℕ) (free : List ℕ)
    → has_octet x (append_free_ip o free) ≡ true
    → (x ≡ o) ⊎ (has_octet x free ≡ true)
unfolding append_free_ip
has_octet-append_free_ip x o free h = ground (arith, has_octet-append x free (o ∷ []))

pub append_free_ip-Distinct :
    (o : ℕ) (free : List ℕ) → Distinct free → Distinct (append_free_ip o free)
unfolding append_free_ip
append_free_ip-Distinct o free d = elim (Bool-cases (has_octet o free)) [
  | inl e ↦ ground arith
  | inr e ↦ ground (arith, Distinct-snoc free o d e)
]

pub append_free_ip-FreeOk :
    (n o : ℕ) (free : List ℕ) → o < n → FreeOk n free → FreeOk n (append_free_ip o free)
append_free_ip-FreeOk n o free l f = record {
  distinct = append_free_ip-Distinct o free f.distinct;
  low =
      λ x h. elim (has_octet-append_free_ip x o free h) [ inl e ↦ omega arith | inr e ↦ f.low x e ];
}

-- The entries after a write, and after a delete.
module _ {V : Type 0} where
  pub set_entry :
      (k i : Str) (v w : V) (m : Dict V)
      → get i (set k v m) ≡ some w
      → ((k ≡ i) × (v ≡ w)) ⊎ (get i m ≡ some w)
  set_entry k i v w m h = elim (Bool-cases (eq_str k i)) [
    | inl e ↦ inl ((eq_str_iff k i).0 e, ground (arith, get-set k i v m))
    | inr e ↦ inr (ground (arith, get-set k i v m))
  ]

  pub delete_entry :
      (k i : Str) (w : V) (m : Dict V) → get i (delete k m) ≡ some w → get i m ≡ some w
  delete_entry k i w m h = ground (arith, get-delete k i m)

pub HeldOk-mono : {n m : ℕ} (cs : Dict ContainerRecord) → n ≤ m → HeldOk n cs → HeldOk m cs
HeldOk-mono cs le h = record {
  unique = h.unique;
  held_low = λ i r o g p. let l = h.held_low i r o g p in omega arith;
}

pub delete-HeldOk :
    (n : ℕ) (k : Str) (cs : Dict ContainerRecord) → HeldOk n cs → HeldOk n (delete k cs)
delete-HeldOk n k cs h = record {
  unique =
      λ i j r t o g g'. h.unique i j r t o (delete_entry k i r cs g) (delete_entry k j t cs g');
  held_low = λ i r o g. h.held_low i r o (delete_entry k i r cs g);
}

pub IsPending-Shrinks : (st st' : State) (x : ℕ) → Shrinks st st' → IsPending st x → IsPending st' x
IsPending-Shrinks st st' x s p = record {
  lo = p.lo;
  hi = p.hi;
  low = omega (arith, s.mono, p.low);
  not_free = elim (Bool-cases (has_octet x st'.free_ips)) [
    | inl e ↦ absurd (cc (s.free_kept x e, p.not_free))
    | inr e ↦ e
  ];
  unheld = rw s.same p.unheld;
}
