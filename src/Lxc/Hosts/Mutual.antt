-- ===== src/Lxc/Hosts/Mutual.antt =====
-- Which containers can name each other.
use lxc2docker.Prelude.{
  ◌≡◌, refl, sym, true, false, ◌||◌, List, [], ◌∷◌, ◌++◌, some, arith, is_empty, any, In, inl, inr,
  Bool-cases, Option-cases, any_sound, any_complete,
}
use lxc2docker.Strings.{Str, eq_str, eq_str_iff, eq_str_sound}
use lxc2docker.Dict.{Dict}
use lxc2docker.Store.Records.{NetworkAttachment, ContainerRecord}
use lxc2docker.Lxc.Hosts.Peers.{
  HostsPeer, network_keys, is_member, shares_network, peer_attachments, peer_ip_and_aliases,
  dedupe_onto, dedupe_strings, peer_of, peers_among, hosts_peers_for, canonical_network, sort_peers,
  peer_lines, render_managed_hosts_block,
}
use lxc2docker.Lxc.Hosts.Lines.{
  AddressAmong, peer_attachments-AddressAmong, In-sort_peers, line_of, line_in,
}

shares_sound : (a b : List Str) → shares_network a b ≡ true → (k : Str) × In k a × In k b
unfolding shares_network is_member
shares_sound [] b h = absurd (ground arith)
shares_sound (k ∷ a) b h = elim (Bool-cases (is_member b k)) [
  | inl e ↦
      let (j, i, q) = any_sound (λ j. eq_str j k) b e in (k, inl refl, rw⁻¹ (eq_str_sound j k q) i)
  | inr e ↦ let (j, i, q) = shares_sound a b (ground (arith, e, h)) in (j, inr i, q)
]

shares_complete : (a b : List Str) (k : Str) → In k a → In k b → shares_network a b ≡ true
unfolding shares_network is_member
shares_complete [] b k i q = absurd i
shares_complete (j ∷ a) b k (inl e) q =
    let here = any_complete (λ x. eq_str x j) k b q (ground (arith, e, eq_str_iff k j)) in
    ground (arith, here)
shares_complete (j ∷ a) b k (inr i) q = ground (arith, shares_complete a b k i q)

pub shares_network_comm : (a b : List Str) → shares_network a b ≡ true → shares_network b a ≡ true
shares_network_comm a b h = let (k, i, q) = shares_sound a b h in shares_complete b a k q i

peer_attachments-some :
    (mine : List Str) (ip : Str) (aliases : List Str) (atts : Dict NetworkAttachment)
    → is_empty ip ≡ false
    → is_empty (peer_attachments mine (ip, aliases) atts).0 ≡ false
unfolding peer_attachments is_empty
peer_attachments-some mine ip aliases [] h = h
peer_attachments-some mine ip aliases ((name, att) ∷ rest) h =
    elim (Bool-cases (is_member mine (canonical_network name))) [
      | inl e ↦ elim (Bool-cases (is_empty att.ip_address)) [
        | inl x ↦
            rw (peer_attachments, e, x)
              (peer_attachments-some mine ip (aliases ++ att.aliases) rest h)
        | inr x ↦
            rw (peer_attachments, e, x)
              (peer_attachments-some mine att.ip_address (aliases ++ att.aliases) rest x)
      ]
      | inr e ↦ rw (peer_attachments, e) (peer_attachments-some mine ip aliases rest h)
    ]

dedupe_onto-keeps :
    (n : Str) (out ss : List Str) → (rest : List Str) × (dedupe_onto (n ∷ out) ss ≡ n ∷ rest)
unfolding dedupe_onto
dedupe_onto-keeps n out [] = (out, refl)
dedupe_onto-keeps n out (s ∷ ss) = elim (Bool-cases (is_empty s || is_member (n ∷ out) s)) [
  | inl e ↦ let (rest, q) = dedupe_onto-keeps n out ss in (rest, rw (dedupe_onto, e) q)
  | inr e ↦ let (rest, q) = dedupe_onto-keeps n (out ++ s ∷ []) ss in (rest, rw (dedupe_onto, e) q)
]

dedupe-first :
    (n : Str) (ss : List Str)
    → is_empty n ≡ false
    → (rest : List Str) × (dedupe_strings (n ∷ ss) ≡ n ∷ rest)
unfolding dedupe_strings dedupe_onto is_member any
dedupe-first n ss h =
    let (rest, q) = dedupe_onto-keeps n [] ss in (rest, rw (dedupe_strings, dedupe_onto, h) q)

shares_some : (a b : List Str) → shares_network a b ≡ true → is_empty a ≡ false
unfolding shares_network is_empty
shares_some [] b h = absurd (ground arith)
shares_some (k ∷ a) b h = refl

-- The container can name the other: in its block the other's name leads a line for the other's
-- address, after the lines of other peers.
pub record CanName (rec other : ContainerRecord) (all : List ContainerRecord) : Type 0 where
  pub peer : HostsPeer
  pub listed : In peer (hosts_peers_for rec all)
  pub more : List Str
  pub names : peer.names ≡ other.name ∷ more
  pub reachable : is_empty peer.ip ≡ false
  pub address : AddressAmong (network_keys rec) other.ip_address other.networks peer.ip
  pub before : List HostsPeer
  pub after : List HostsPeer
  pub line :
      render_managed_hosts_block (hosts_peers_for rec all)
      ≡ peer_lines before ++ line_of peer.ip (other.name ∷ more) (peer_lines after)

-- A container that has a name and an address.
pub record Addressed (rec : ContainerRecord) : Type 0 where
  pub has_name : is_empty rec.name ≡ false
  pub has_ip : is_empty rec.ip_address ≡ false

In-peers :
    (mine : List Str) (other : ContainerRecord) (all : List ContainerRecord) (p : HostsPeer)
    → In other all
    → peer_of mine other ≡ some p
    → In p (peers_among mine all)
unfolding peers_among
In-peers mine other [] p i h = absurd i
In-peers mine other (o ∷ all) p (inl e) h = simp (peers_among, sym e, h) (inl refl)
In-peers mine other (o ∷ all) p (inr i) h = elim (Option-cases (peer_of mine o)) [
  | inl q ↦ rw (peers_among, q) (In-peers mine other all p i h)
  | inr (x, q) ↦ rw (peers_among, q) (inr (In-peers mine other all p i h))
]

can_name :
    (rec other : ContainerRecord) (all : List ContainerRecord)
    → In other all
    → Addressed other
    → shares_network (network_keys rec) (network_keys other) ≡ true
    → CanName rec other all
unfolding hosts_peers_for peer_of peer_ip_and_aliases render_managed_hosts_block
can_name rec other all i a h =
    let mine = network_keys rec in
    let found = peer_ip_and_aliases other mine in
    let reach : is_empty found.0 ≡ false =
      peer_attachments-some mine other.ip_address [] other.networks a.has_ip in
    let p : HostsPeer = record { ip = found.0; names = dedupe_strings (other.name ∷ found.1) } in
    let is_peer : peer_of mine other ≡ some p = ground (arith, a.has_name, h, reach) in
    let some_keys : is_empty mine ≡ false = shares_some mine (network_keys other) h in
    let listed : In p (hosts_peers_for rec all) =
      rw (hosts_peers_for, some_keys) (In-peers mine other all p i is_peer) in
    let (more, names) = dedupe-first other.name found.1 a.has_name in
    let (before, after, line) =
      line_in p (sort_peers (hosts_peers_for rec all))
        (In-sort_peers p (hosts_peers_for rec all) listed) in
    record {
      peer = p;
      listed = listed;
      more = more;
      names = names;
      reachable = reach;
      address = peer_attachments-AddressAmong mine other.ip_address [] other.networks;
      before = before;
      after = after;
      line = rw names at line;
    }

-- Two containers of the daemon that have a name and an address, and share a network, can name each
-- other: in the block that is written to the hosts file of each there is a line with the address of
-- the other on one of the shared networks (its own one, if no attachment to one of them has an
-- address), led by the name of the other.
pub hosts_mutual :
    (a b : ContainerRecord) (all : List ContainerRecord)
    → In a all
    → In b all
    → Addressed a
    → Addressed b
    → shares_network (network_keys a) (network_keys b) ≡ true
    → CanName a b all × CanName b a all
hosts_mutual a b all i j x y h = (
  can_name a b all j y h,
  can_name b a all i x (shares_network_comm (network_keys a) (network_keys b) h),
)
