-- ===== src/Lxc/Hosts/Tests.antt =====
-- A file with the lines of an image, and two blocks.
use lxc2docker.Prelude.{◌≡◌, refl, true, is_empty, any, [], ◌∷◌, inl, inr}
use lxc2docker.Strings.{Str, codes, eq_str, cut_at, has_prefix, has_suffix}
use lxc2docker.Lxc.Hosts.{strip_managed_hosts_block, with_newline, compose_hosts_file}
use lxc2docker.Store.Records.{ContainerRecord}
use lxc2docker.Store.Samples.{blank_container}
use lxc2docker.Lxc.Hosts.Peers.{attached_networks, network_keys, is_member, shares_network}
use lxc2docker.Lxc.Hosts.Mutual.{CanName, hosts_mutual}
use lxc2docker.Lxc.Hosts.Splice.{ends_line, Unmarked, splice_replaces}

abbrev image_file : Str
image_file = codes "127.0.0.1\tlocalhost"

abbrev web : Str
web = codes "10.100.0.2\tweb\n"

abbrev web_moved : Str
web_moved = codes "10.100.0.7\tweb\n"

web-Unmarked : Unmarked image_file web
unfolding is_empty ends_line cut_at has_prefix has_suffix strip_managed_hosts_block with_newline
web-Unmarked = record { some_lines = (refl, refl); no_begin = refl; no_end = refl }

splice_replaces_example :
    (strip_managed_hosts_block (compose_hosts_file image_file web)
      ≡ with_newline (strip_managed_hosts_block image_file))
    × (compose_hosts_file (compose_hosts_file image_file web) web_moved
        ≡ compose_hosts_file image_file web_moved)
splice_replaces_example =
    splice_replaces image_file web web_moved web-Unmarked (unfold is_empty in refl)

abbrev postgres : ContainerRecord
postgres = record blank_container {
  id = codes "a1";
  name = codes "postgres";
  ip_address = codes "10.100.0.2";
}

abbrev client : ContainerRecord
client = record blank_container {
  id = codes "b2";
  name = codes "client";
  ip_address = codes "10.100.0.3";
}

share_default : shares_network (network_keys postgres) (network_keys client) ≡ true
unfolding shares_network network_keys attached_networks is_member any is_empty eq_str
share_default = refl

hosts_mutual_example :
    CanName postgres client (postgres ∷ client ∷ [])
    × CanName client postgres (postgres ∷ client ∷ [])
hosts_mutual_example =
    hosts_mutual postgres client (postgres ∷ client ∷ []) (inl refl) (inr (inl refl))
      (unfold is_empty in record { has_name = refl; has_ip = refl })
      (unfold is_empty in record { has_name = refl; has_ip = refl }) share_default
