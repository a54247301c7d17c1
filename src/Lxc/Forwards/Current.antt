-- ===== src/Lxc/Forwards/Current.antt =====
-- What the two chains agree on.
use lxc2docker.Prelude.{
  ◌≡◌, ◌↔◌, refl, Bool, false, not, ◌&&◌, ◌||◌, List, [], ◌∷◌, none, some, arith, if◌then◌else◌,
  inl, inr, Bool-cases, Option-cases, any,
}
use lxc2docker.Strings.{Str, eq_str, eq_str_iff, split_byte, fields}
use lxc2docker.Dict.{Dict, get, set, keys, get-set}
use lxc2docker.Lxc.Forwards.Pruning.{Distinct, set-Distinct}
use lxc2docker.Lxc.Forwards.Chains.{
  Chain, holds, rule_of, add_line, add_lines, parse_dnat_chain, printed, list_chain_forwards,
  agreed, current_port_forwards,
}
use lxc2docker.Lxc.Forwards.Listing.{Line, chain_text, AllReadable, targets, Seen, parsed-Seen}

add_lines-Distinct :
    (texts : List Str) (ch : Chain)
    → Distinct (keys ch.rules)
    → Distinct (keys (add_lines ch texts).rules)
unfolding add_lines add_line
add_lines-Distinct [] ch d = d
add_lines-Distinct (t ∷ ts) ch d = elim (Option-cases (rule_of (fields t))) [
  | inl q ↦ add_lines-Distinct ts (add_line ch t) (rw (add_line, q) d)
  | inr ((k, v), q) ↦
      add_lines-Distinct ts (add_line ch t) (rw (add_line, q) (set-Distinct k v ch.rules d))
]

-- The maps of a chain agree on a key and a target: it is there once.
Installed : Str → Str → Chain → Type 0
Installed k v ch = (get k ch.rules ≡ some v) × (holds k ch.dups ≡ false)

Installed-iff :
    (k v : Str) (ts : List Str) (ch : Chain) → Seen k ts ch → Installed k v ch ↔ (ts ≡ v ∷ [])
unfolding Installed Seen
Installed-iff k v [] ch s = ground (arith, s)
Installed-iff k v (u ∷ []) ch s = ground (arith, s)
Installed-iff k v (u ∷ w ∷ ts) ch s = ground (arith, s.1)

agrees : Chain → Chain → Str → Str → Bool
agrees pre out k v =
    not (holds k pre.dups || holds k out.dups)
    && (elim (get k out.rules) [ none ↦ false | some w ↦ eq_str w v ])

get-absent : (k : Str) (m : Dict Str) → any (eq_str k) (keys m) ≡ false → get k m ≡ none
unfolding get keys any
get-absent k [] h = refl
get-absent k ((j, v) ∷ m) h = ground (arith, get-absent k m, eq_str_iff j k, eq_str_iff k j)

get-agreed :
    (pre out : Chain) (k : Str) (rest merged : Dict Str)
    → Distinct (keys rest)
    → get k (agreed pre out rest merged) ≡ elim (get k rest) [
      | none ↦ get k merged
      | some v ↦ if agrees pre out k v then some v else get k merged
    ]
unfolding agreed agrees get keys
get-agreed pre out k [] merged d = refl
get-agreed pre out k ((j, v) ∷ rest) merged d =
    let next = if agrees pre out j v then set j v merged else merged in
    let later = get-agreed pre out k rest next d.1 in
    elim (Bool-cases (eq_str j k)) [
      | inl e ↦
          ground (arith, e, later, get-absent j rest d.0, eq_str_iff j k, get-set j k v merged)
      | inr e ↦ ground (arith, e, later, get-set j k v merged)
    ]

parsed-Distinct : (text : Str) → Distinct (keys (parse_dnat_chain text).rules)
unfolding parse_dnat_chain
parsed-Distinct text =
    add_lines-Distinct (split_byte 10 text) (record { rules = []; dups = [] }) (unfold keys in tt)

agreed_iff :
    (k v : Str) (pre out : Chain)
    → Distinct (keys pre.rules)
    → (get k (agreed pre out pre.rules []) ≡ some v) ↔ (Installed k v pre × Installed k v out)
unfolding Installed
agreed_iff k v pre out d =
    let found = get-agreed pre out k pre.rules [] d in
    elim (Option-cases (get k pre.rules)) [
      | inl p ↦ unfold agrees get in ground (arith, found, p)
      | inr (u, p) ↦ elim (Option-cases (get k out.rules)) [
        | inl q ↦ unfold agrees get in ground (arith, found, p, q)
        | inr (w, q) ↦ unfold agrees get in ground (arith, found, p, q, eq_str_iff w u)
      ]
    ]

-- Of two chains that are listed as `nft` prints them, a key counts as installed with a target exactly
-- if each chain holds one rule of the key, with that target: not if a rule is missing, twice there,
-- or pointing elsewhere. Rules are assumed to have a target without white space, and the other lines
-- of the listings not to read as rules.
pub current-chains :
    (k v : Str) (pre out : List Line)
    → AllReadable pre
    → AllReadable out
    → (current : Dict Str) × (current_port_forwards
          (printed (chain_text pre))
          (printed (chain_text out))
        ≡ some current)
      × ((get k current ≡ some v) ↔ ((targets k pre ≡ v ∷ []) × (targets k out ≡ v ∷ [])))
unfolding current_port_forwards list_chain_forwards
current-chains k v pre out p o =
    let a = parse_dnat_chain (chain_text pre) in
    let b = parse_dnat_chain (chain_text out) in
    let both = agreed_iff k v a b (parsed-Distinct (chain_text pre)) in
    let left = Installed-iff k v (targets k pre) a (parsed-Seen k pre p) in
    let right = Installed-iff k v (targets k out) b (parsed-Seen k out o) in
    (
      agreed a b a.rules [],
      refl,
      (
        λ h. let (i, j) = both.0 h in (left.0 i, right.0 j),
        λ h. let (i, j) = h in both.1 (left.1 i, right.1 j),
      ),
    )
