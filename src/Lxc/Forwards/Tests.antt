-- ===== src/Lxc/Forwards/Tests.antt =====
-- The reconciliation at concrete tables and containers.
use lxc2docker.Prelude.{
  ◌≡◌, ◌↔◌, ◌⊎◌, refl, ap, true, false, [], ◌∷◌, List, some, In, inl, inr, any, is_empty,
}
use lxc2docker.Prelude.Int.{pos}
use lxc2docker.Strings.{
  Str, codes, eq_str, split_byte, fields, contains_byte, itoa, spaceless, is_word, is_space,
  cut_byte, atoi,
}
use lxc2docker.Dict.{Dict, get, set, delete, has, keys}
use lxc2docker.Store.Records.{ContainerRecord}
use lxc2docker.Store.Samples.{blank_container}
use lxc2docker.Lxc.Forwards.Chains.{
  NftReply, printed, holds, text_at, host_port_key, is_dnat, rule_of, add_line, add_lines,
  parse_dnat_chain, list_chain_forwards, agreed, current_port_forwards, mark_keys,
  published_host_ports, parse_host_port_key, or_tcp,
}
use lxc2docker.Lxc.Forwards.Reconcile.{
  Claim, Tick, state_is, is_live, claim, key_of, want_of, add_of, heal_records, reset_strikes,
  strikes_of, prune_key, prune_keys, reconcile_with, reconcile_port_forwards,
}
use lxc2docker.Lxc.Forwards.Claims.{claims, record_claims, binding_claims}
use lxc2docker.Lxc.Forwards.Marking.{claimed}
use lxc2docker.Lxc.Forwards.Healing.{Justified}
use lxc2docker.Lxc.Forwards.Pruning.{removal}
use lxc2docker.Lxc.Forwards.Ticks.{
  tick_claims, reads, publishes, Unclaimed, Abandoned, reconcile_heals, reconcile_adds-Justified,
  reconcile_prunes,
}
use lxc2docker.Lxc.Forwards.History.{strikes_after, WasOrphan, reconcile_removals-Abandoned}
use lxc2docker.Lxc.Forwards.Listing.{
  Rule, Line, rule, other, AllReadable, Readable, targets, rule_key, proto_of, chain_text,
}
use lxc2docker.Lxc.Forwards.Current.{current-chains}

-- A chain in which the port 8741 is published once.
abbrev web : Rule
web = record { udp = false; port = 8741; target = codes "10.100.0.29:8741" }

abbrev one_rule : List Line
one_rule = other (codes "table ip docker {") ∷ rule web ∷ other (codes "}") ∷ []

one_rule-AllReadable : AllReadable one_rule
unfolding AllReadable Readable contains_byte rule_of fields is_space is_word spaceless is_empty
one_rule-AllReadable = ((refl, refl), (refl, ((refl, refl), tt)))

current-chains_example :
    (current : Dict Str) × (current_port_forwards
        (printed (chain_text one_rule))
        (printed (chain_text one_rule))
      ≡ some current)
    × ((get (codes "tcp/8741") current ≡ some (codes "10.100.0.29:8741")) ↔ (
        (targets (codes "tcp/8741") one_rule ≡ codes "10.100.0.29:8741" ∷ [])
        × (targets (codes "tcp/8741") one_rule ≡ codes "10.100.0.29:8741" ∷ [])))
current-chains_example =
    current-chains (codes "tcp/8741") (codes "10.100.0.29:8741") one_rule one_rule
      one_rule-AllReadable one_rule-AllReadable

web_key : targets (codes "tcp/8741") one_rule ≡ codes "10.100.0.29:8741" ∷ []
unfolding targets rule_key proto_of host_port_key itoa eq_str
web_key = refl

abbrev published_web : NftReply
published_web = printed (codes "tcp dport 8741 dnat to 10.100.0.29:8741")

abbrev published_old : NftReply
published_old = printed (codes "tcp dport 8741 dnat to 10.100.0.7:8741")

-- A running container that publishes the port 8741.
abbrev server : ContainerRecord
server = record blank_container {
  id = codes "abc123";
  ip_address = codes "10.100.0.29";
  port_bindings =
      (record { host_ip = []; host_port = 8741; container_port = 8741; proto = [] }) ∷ [];
}

abbrev tick_of : NftReply → List ContainerRecord → Tick
tick_of reply recs = record {
  prerouting = reply;
  output = reply;
  prerouting_again = reply;
  output_again = reply;
  containers = recs;
  state = λ id. state_is (codes "running");
  removes = λ k. true;
}

abbrev server_claim : Claim
server_claim = record {
  readable = true;
  ip = codes "10.100.0.29";
  host_port = 8741;
  container_port = 8741;
  proto = codes "tcp";
}

abbrev stale_tick : Tick
stale_tick = tick_of published_old (server ∷ [])

abbrev orphan_tick : Tick
orphan_tick = tick_of published_web []

reads_stale : reads stale_tick ≡ some ((codes "tcp/8741", codes "10.100.0.7:8741") ∷ [])
unfolding current_port_forwards list_chain_forwards parse_dnat_chain add_lines add_line agreed
    rule_of fields is_space split_byte is_dnat host_port_key eq_str holds has get set delete
reads_stale = refl

publishes_stale : publishes stale_tick ≡ some ((codes "tcp/8741", true) ∷ [])
unfolding published_host_ports list_chain_forwards parse_dnat_chain add_lines add_line mark_keys
    rule_of fields is_space split_byte is_dnat host_port_key eq_str holds has get set delete keys
publishes_stale = refl

claims_stale : tick_claims stale_tick ≡ server_claim ∷ []
unfolding claims record_claims binding_claims claim is_live is_empty or_tcp eq_str
claims_stale = refl

server_claimed : In server_claim (tick_claims stale_tick)
server_claimed = rw claims_stale (inl refl)

reconcile_heals_example : In (add_of server_claim) (reconcile_port_forwards stale_tick []).adds
unfolding eq_str
reconcile_heals_example =
    reconcile_heals stale_tick [] server_claim reads_stale publishes_stale server_claimed refl
      (unfold key_of want_of text_at host_port_key itoa get in refl)
      (λ d i e. elim (rw claims_stale at i) [ inl same ↦ ap want_of same | inr bad ↦ absurd bad ])

reconcile_adds-Justified_example :
    (c : Claim) × Justified
      ((codes "tcp/8741", codes "10.100.0.7:8741") ∷ [])
      (tick_claims stale_tick)
      c
    × (add_of server_claim ≡ add_of c)
reconcile_adds-Justified_example =
    reconcile_adds-Justified stale_tick [] (add_of server_claim) reads_stale publishes_stale
      reconcile_heals_example

web_named : parse_host_port_key (codes "tcp/8741") ≡ some (codes "tcp", pos 8741)
unfolding parse_host_port_key cut_byte atoi
web_named = refl

orphan : Unclaimed (codes "tcp/8741") orphan_tick
unfolding current_port_forwards published_host_ports list_chain_forwards parse_dnat_chain add_lines
    add_line agreed mark_keys rule_of fields is_space split_byte is_dnat host_port_key eq_str holds
    has get set delete keys claimed any claims
orphan = record {
  current = (codes "tcp/8741", codes "10.100.0.29:8741") ∷ [];
  present = (codes "tcp/8741", true) ∷ [];
  read = refl;
  publish = refl;
  listed = refl;
  free = refl;
}

reconcile_prunes_example :
    In (removal (codes "tcp", pos 8741)) (reconcile_port_forwards orphan_tick []).removals
    ⊎ In
        (removal (codes "tcp", pos 8741))
        (reconcile_port_forwards orphan_tick
          (reconcile_port_forwards orphan_tick []).strikes).removals
reconcile_prunes_example =
    reconcile_prunes (codes "tcp/8741") (codes "tcp", pos 8741) orphan_tick orphan_tick [] web_named
      orphan orphan

is_withdrawn :
    In
      (removal (codes "tcp", pos 8741))
      (reconcile_port_forwards orphan_tick (strikes_after (orphan_tick ∷ []))).removals
unfolding strikes_after reconcile_port_forwards reconcile_with heal_records reset_strikes prune_keys
    prune_key strikes_of holds parse_host_port_key cut_byte atoi current_port_forwards
    published_host_ports list_chain_forwards parse_dnat_chain add_lines add_line agreed mark_keys
    rule_of fields is_space split_byte is_dnat host_port_key eq_str has get set delete keys
is_withdrawn = inl refl

reconcile_removals-Abandoned_example :
    (k : Str) × Abandoned orphan_tick
      (strikes_after (orphan_tick ∷ []))
      orphan.present
      (removal (codes "tcp", pos 8741))
      k
    × WasOrphan k (orphan_tick ∷ [])
reconcile_removals-Abandoned_example =
    reconcile_removals-Abandoned orphan_tick (orphan_tick ∷ []) (removal (codes "tcp", pos 8741))
      orphan.read orphan.publish is_withdrawn
