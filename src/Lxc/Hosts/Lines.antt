-- ===== src/Lxc/Hosts/Lines.antt =====
-- The addresses of the peers, and the lines of the block.
use lxc2docker.Prelude.{
  ◌≡◌, ◌⊎◌, append_assoc, refl, ap, true, List, [], ◌∷◌, ◌++◌, is_empty, In, inl, inr, Bool-cases,
}
use lxc2docker.Strings.{Str, codes, join, leb_str}
use lxc2docker.Dict.{Dict}
use lxc2docker.Store.Records.{NetworkAttachment}
use lxc2docker.Lxc.Hosts.Peers.{
  HostsPeer, is_member, peer_attachments, canonical_network, first_name, insert_peer, sort_peers,
  peer_lines,
}

-- The address of a container for those on its networks: that of an attachment to one of them, or its
-- own one if none of these attachments has an address.
abbrev pub AddressAmong : List Str → Str → Dict NetworkAttachment → Str → Type 0
AddressAmong mine own atts ip =
    ((ip ≡ own)
      × ((name : Str) (att : NetworkAttachment)
          → In (name, att) atts
          → is_member mine (canonical_network name) ≡ true
          → is_empty att.ip_address ≡ true))
    ⊎ ((name : Str) × (att : NetworkAttachment) × In (name, att) atts
        × (is_member mine (canonical_network name) ≡ true)
        × (ip ≡ att.ip_address))

-- One more attachment in front that gives no address.
AddressAmong-skip :
    (mine : List Str) (own ip name : Str) (att : NetworkAttachment) (rest : Dict NetworkAttachment)
    → (is_member mine (canonical_network name) ≡ true → is_empty att.ip_address ≡ true)
    → AddressAmong mine own rest ip
    → AddressAmong mine own ((name, att) ∷ rest) ip
AddressAmong-skip mine own ip name att rest none_here (inl (e, none_there)) = inl (
  e,
  λ n a. elim [
    | inl q ↦ λ m.
        let same_name : n ≡ name = ap (λ (x : Str × NetworkAttachment). x.0) q in
        let same_att : a ≡ att = ap (λ (x : Str × NetworkAttachment). x.1) q in
        rw same_att (none_here (rw same_name at m))
    | inr i ↦ none_there n a i
  ],
)
AddressAmong-skip mine own ip name att rest none_here (inr (n, a, i, m, e)) =
    inr (n, a, inr i, m, e)

pub peer_attachments-AddressAmong :
    (mine : List Str) (own : Str) (aliases : List Str) (atts : Dict NetworkAttachment)
    → AddressAmong mine own atts (peer_attachments mine (own, aliases) atts).0
unfolding peer_attachments
peer_attachments-AddressAmong mine own aliases [] = inl (refl, λ n a i. absurd i)
peer_attachments-AddressAmong mine own aliases ((name, att) ∷ rest) =
    elim (Bool-cases (is_member mine (canonical_network name))) [
      | inr e ↦
          rw (peer_attachments, e)
            (AddressAmong-skip mine own _ name att rest (λ m. absurd (cc (m, e)))
              (peer_attachments-AddressAmong mine own aliases rest))
      | inl e ↦ elim (Bool-cases (is_empty att.ip_address)) [
        | inl x ↦
            rw (peer_attachments, e, x)
              (AddressAmong-skip mine own _ name att rest (λ m. x)
                (peer_attachments-AddressAmong mine own (aliases ++ att.aliases) rest))
        | inr x ↦
            rw (peer_attachments, e, x)
              (elim (peer_attachments-AddressAmong mine att.ip_address (aliases ++ att.aliases)
                rest) [
                  | inl (q, _) ↦ inr (name, att, inl refl, e, q)
                  | inr (n, a, i, m, q) ↦ inr (n, a, inr i, m, q)
                ])
      ]
    ]

In-insert_peer :
    (p q : HostsPeer) (ps : List HostsPeer) → (p ≡ q) ⊎ In p ps → In p (insert_peer q ps)
unfolding insert_peer
In-insert_peer p q [] (inl e) = inl e
In-insert_peer p q [] (inr i) = absurd i
In-insert_peer p q (r ∷ ps) h = elim (Bool-cases (leb_str (first_name q) (first_name r))) [
  | inl e ↦ rw (insert_peer, e) h
  | inr e ↦
      rw (insert_peer, e)
        (elim h [
          | inl same ↦ inr (In-insert_peer p q ps (inl same))
          | inr (inl here) ↦ inl here
          | inr (inr i) ↦ inr (In-insert_peer p q ps (inr i))
        ])
]

pub In-sort_peers : (p : HostsPeer) (ps : List HostsPeer) → In p ps → In p (sort_peers ps)
unfolding sort_peers
In-sort_peers p [] i = i
In-sort_peers p (q ∷ ps) (inl e) = In-insert_peer p q (sort_peers ps) (inl e)
In-sort_peers p (q ∷ ps) (inr i) = In-insert_peer p q (sort_peers ps) (inr (In-sort_peers p ps i))

abbrev pub line_of : Str → List Str → Str → Str
line_of ip names rest = ip ++ (9 ∷ (join (codes " ") names ++ (10 ∷ rest)))

pub line_in :
    (p : HostsPeer) (ps : List HostsPeer)
    → In p ps
    → (before : List HostsPeer) × (after : List HostsPeer) × (peer_lines ps
        ≡ peer_lines before ++ line_of p.ip p.names (peer_lines after))
unfolding peer_lines
line_in p [] i = absurd i
line_in p (q ∷ ps) (inl e) = ([], ps, rw e refl)
line_in p (q ∷ ps) (inr i) =
    let (before, after, e) = line_in p ps i in
    let names = join (codes " ") q.names in
    let others = peer_lines before in
    let more = line_of p.ip p.names (peer_lines after) in
    (
      q ∷ before,
      after,
      rw
          (
            e,
            append_assoc q.ip (9 ∷ (names ++ (10 ∷ others))) more,
            append_assoc names (10 ∷ others) more,
          )
          refl,
    )
