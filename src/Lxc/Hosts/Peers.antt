-- ===== src/Lxc/Hosts/Peers.antt =====
-- internal/lxc/dns_hosts.go: the containers that a container can name, the lines for them, and the
-- writing of the file.
use lxc2docker.Prelude.{
  Bool, false, not, ◌&&◌, ◌||◌, List, [], ◌∷◌, ◌++◌, Option, none, some, if◌then◌else◌, is_empty,
  any,
}
use lxc2docker.Strings.{Str, codes, eq_str, leb_str, join, trim_space}
use lxc2docker.Dict.{Dict}
use lxc2docker.Store.Records.{NetworkAttachment, ContainerRecord}
use lxc2docker.Lxc.Hosts.{compose_hosts_file}

abbrev pub default_network_name : Str
default_network_name = codes "veth0"

pub record HostsPeer : Type 0 where
  pub ip : Str
  pub names : List Str

unfoldable pub canonical_network : Str → Str
canonical_network name =
    let n = trim_space name in
    if is_empty n || (eq_str n (codes "default") || eq_str n (codes "bridge"))
    then default_network_name
    else name

-- A set of networks is the list of its names.
unfoldable pub attached_networks : Dict NetworkAttachment → List Str
attached_networks [] = []
attached_networks ((name, att) ∷ rest) = canonical_network name ∷ attached_networks rest

unfoldable pub network_keys : ContainerRecord → List Str
network_keys rec =
    let keys = attached_networks rec.networks in
    if is_empty keys && not (is_empty rec.ip_address) then default_network_name ∷ [] else keys

unfoldable pub is_member : List Str → Str → Bool
is_member keys k = any (λ j. eq_str j k) keys

unfoldable pub shares_network : List Str → List Str → Bool
unfolding any
shares_network [] b = false
shares_network (k ∷ a) b = is_member b k || shares_network a b

-- The address and the aliases so far, over the attachments.
unfoldable pub peer_attachments :
    List Str → Str × List Str → Dict NetworkAttachment → Str × List Str
peer_attachments mine found [] = found
peer_attachments mine (ip, aliases) ((name, att) ∷ rest) =
    let next : Str × List Str =
      (if is_empty att.ip_address then ip else att.ip_address, aliases ++ att.aliases) in
    peer_attachments mine (if is_member mine (canonical_network name) then next else (ip, aliases))
      rest

unfoldable pub peer_ip_and_aliases : ContainerRecord → List Str → Str × List Str
peer_ip_and_aliases rec mine = peer_attachments mine (rec.ip_address, []) rec.networks

-- What is kept so far is also what was seen.
unfoldable pub dedupe_onto : List Str → List Str → List Str
dedupe_onto out [] = out
dedupe_onto out (s ∷ ss) =
    dedupe_onto (if is_empty s || is_member out s then out else out ++ s ∷ []) ss

unfoldable pub dedupe_strings : List Str → List Str
dedupe_strings = dedupe_onto []

unfoldable pub peer_of : List Str → ContainerRecord → Option HostsPeer
peer_of mine other =
    let (ip, aliases) = peer_ip_and_aliases other mine in
    if is_empty other.name || not (shares_network mine (network_keys other))
    then none
    else if is_empty ip
    then none
    else some (record { ip = ip; names = dedupe_strings (other.name ∷ aliases) })

unfoldable pub peers_among : List Str → List ContainerRecord → List HostsPeer
peers_among mine [] = []
peers_among mine (other ∷ all) =
    let peers = peers_among mine all in
    elim (peer_of mine other) [ none ↦ peers | some p ↦ p ∷ peers ]

unfoldable pub hosts_peers_for : ContainerRecord → List ContainerRecord → List HostsPeer
hosts_peers_for rec all =
    let mine = network_keys rec in if is_empty mine then [] else peers_among mine all

-- The order of the first names, which are those of the containers.
unfoldable pub first_name : HostsPeer → Str
first_name p = elim p.names [ [] ↦ [] | n ∷ ns ↦ n ]

unfoldable pub insert_peer : HostsPeer → List HostsPeer → List HostsPeer
unfolding first_name
insert_peer p [] = p ∷ []
insert_peer p (q ∷ qs) =
    let rest = insert_peer p qs in
    if leb_str (first_name p) (first_name q) then p ∷ q ∷ qs else q ∷ rest

unfoldable pub sort_peers : List HostsPeer → List HostsPeer
unfolding insert_peer
sort_peers [] = []
sort_peers (p ∷ ps) = insert_peer p (sort_peers ps)

unfoldable pub peer_lines : List HostsPeer → Str
peer_lines [] = []
peer_lines (p ∷ ps) = p.ip ++ (9 ∷ (join (codes " ") p.names ++ (10 ∷ peer_lines ps)))

unfoldable pub render_managed_hosts_block : List HostsPeer → Str
unfolding sort_peers peer_lines
render_managed_hosts_block peers = peer_lines (sort_peers peers)

-- What becomes of the file: it is left alone, replaced as a whole, or left alone with an error.
pub data WriteResult : Type 0 where
  unchanged : WriteResult
  replaced : Str → WriteResult
  write_error : WriteResult

-- `etc` is that the directory is there, `existing` what is read of the file (nothing, if it cannot be
-- read), and `writes` that the temporary file is written and renamed.
unfoldable pub write_container_hosts :
    Bool → Str → Bool → ContainerRecord → List ContainerRecord → WriteResult
write_container_hosts etc existing writes rec all =
    let out = compose_hosts_file existing (render_managed_hosts_block (hosts_peers_for rec all)) in
    if not etc
    then unchanged
    else if eq_str out existing
    then unchanged
    else if writes
    then replaced out
    else write_error

-- What is found of a container's file: the three arguments above.
pub record HostsFile : Type 0 where
  pub etc : Bool
  pub existing : Str
  pub writes : Bool

-- Every container in turn; an error stops none of the others.
unfoldable pub sync_hosts :
    (ContainerRecord → HostsFile) → List ContainerRecord → List ContainerRecord → List WriteResult
sync_hosts file all [] = []
sync_hosts file all (rec ∷ recs) =
    let f = file rec in
    write_container_hosts f.etc f.existing f.writes rec all ∷ sync_hosts file all recs
