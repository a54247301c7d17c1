-- ===== src/Lxc/Forwards/Chains.antt =====
-- internal/lxc/network.go: what the daemon reads out of an nftables listing, and the commands that
-- publish and withdraw a host port. What `nft` answers is an argument.
use lxc2docker.Prelude.{
  ℕ, Bool, true, false, not, ◌&&◌, ◌||◌, List, [], ◌∷◌, ◌++◌, Option, none, some, if◌then◌else◌,
  is_empty, drop, length,
}
use lxc2docker.Prelude.Int.{ℤ}
use lxc2docker.Strings.{
  Str, codes, eq_str, contains, cut_byte, cut_at, split_byte, trim_space, fields, atoi, itoa,
}
use lxc2docker.Dict.{Dict, get, set, has, keys}

-- `m[k]` of a map into the Booleans.
unfoldable pub holds : Str → Dict Bool → Bool
holds k m = elim (get k m) [ none ↦ false | some b ↦ b ]

-- `m[k]` of a map into the texts.
unfoldable pub text_at : Str → Dict Str → Str
text_at k m = elim (get k m) [ none ↦ [] | some s ↦ s ]

unfoldable pub is_dnat : Str → Str → Str → Str → Bool
is_dnat proto dport dnat to =
    eq_str dport (codes "dport")
    && eq_str dnat (codes "dnat")
    && eq_str to (codes "to")
    && (eq_str proto (codes "tcp") || eq_str proto (codes "udp"))

unfoldable pub host_port_key : Str → Str → Str
host_port_key proto port = proto ++ b'/' ∷ port

-- The first six words in a row of a line that are a DNAT rule: its key and its target.
unfoldable pub rule_of : List Str → Option (Str × Str)
rule_of (proto ∷ dport ∷ port ∷ dnat ∷ to ∷ target ∷ rest) =
    let later = rule_of (dport ∷ port ∷ dnat ∷ to ∷ target ∷ rest) in
    if is_dnat proto dport dnat to then some (host_port_key proto port, target) else later
rule_of _ = none

pub record Chain : Type 0 where
  pub rules : Dict Str
  pub dups : Dict Bool

unfoldable pub add_line : Chain → Str → Chain
add_line ch line = elim (rule_of (fields line)) [
  | none ↦ ch
  | some (key, target) ↦ record {
    rules = set key target ch.rules;
    dups = if has key ch.rules then set key true ch.dups else ch.dups;
  }
]

unfoldable pub add_lines : Chain → List Str → Chain
add_lines ch [] = ch
add_lines ch (line ∷ lines) = add_lines (add_line ch line) lines

unfoldable pub parse_dnat_chain : Str → Chain
parse_dnat_chain listing = add_lines (record { rules = []; dups = [] }) (split_byte 10 listing)

-- What a command of `nft` printed, and whether it succeeded.
pub data NftReply : Type 0 where
  failed : Str → NftReply
  printed : Str → NftReply

-- `none` is the error; a chain that does not exist has no rules.
unfoldable pub list_chain_forwards : NftReply → Option Chain
list_chain_forwards (failed out) =
    if contains out (codes "No such file or directory")
    then some (record { rules = []; dups = [] })
    else none
list_chain_forwards (printed out) = some (parse_dnat_chain out)

-- The rules that both chains agree on.
unfoldable pub agreed : Chain → Chain → Dict Str → Dict Str → Dict Str
agreed pre out [] merged = merged
agreed pre out ((k, v) ∷ rest) merged =
    let skip = holds k pre.dups || holds k out.dups in
    let same : Bool = elim (get k out.rules) [ none ↦ false | some w ↦ eq_str w v ] in
    agreed pre out rest (if not skip && same then set k v merged else merged)

unfoldable pub current_port_forwards : NftReply → NftReply → Option (Dict Str)
current_port_forwards prerouting output = elim (list_chain_forwards prerouting) [
  | none ↦ none
  | some pre ↦ elim (list_chain_forwards output) [
    | none ↦ none
    | some out ↦ some (agreed pre out pre.rules [])
  ]
]

unfoldable pub mark_keys : List Str → Dict Bool → Dict Bool
mark_keys [] m = m
mark_keys (k ∷ ks) m = mark_keys ks (set k true m)

unfoldable pub published_host_ports : NftReply → NftReply → Option (Dict Bool)
published_host_ports prerouting output = elim (list_chain_forwards prerouting) [
  | none ↦ none
  | some pre ↦ elim (list_chain_forwards output) [
    | none ↦ none
    | some out ↦ some (mark_keys (keys out.rules) (mark_keys (keys pre.rules) []))
  ]
]

-- The protocol and the port of a key.
unfoldable pub parse_host_port_key : Str → Option (Str × ℤ)
parse_host_port_key key = elim (cut_byte b'/' key) [
  | none ↦ none
  | some ([], port) ↦ none
  | some (c ∷ proto, port) ↦ elim (atoi port) [ none ↦ none | some p ↦ some (c ∷ proto, p) ]
]

-- A line of a listing publishes the port, which is given as it is printed.
unfoldable pub nat_line_matches_host_port : Str → Str → Str → Bool
nat_line_matches_host_port line host_port proto =
    contains line (proto ++ (codes " dport " ++ (host_port ++ b' ' ∷ [])))
    && contains line (codes "dnat to ")

-- What follows `mark` up to the next one: the second part of `strings.Split`.
between : Str → Str → Option Str
between mark line = elim (cut_at mark line) [
  | none ↦ none
  | some (_, rest) ↦
      let after = drop (length mark) rest in
      elim (cut_at mark after) [ none ↦ some after | some (handle, _) ↦ some handle ]
]

unfoldable pub nat_handles_in : List Str → (Str → Bool) → List Str
unfolding between
nat_handles_in [] test = []
nat_handles_in (line ∷ lines) test =
    let handles = nat_handles_in lines test in
    if not (test line) then handles else elim (between (codes "# handle ") line) [
      | none ↦ handles
      | some h ↦ let handle = trim_space h in if is_empty handle then handles else handle ∷ handles
    ]

unfoldable pub nat_handles_to_delete : Str → (Str → Bool) → List Str
nat_handles_to_delete listing = nat_handles_in (split_byte 10 listing)

-- The commands that change the table: a rule of a chain deleted by its handle, and the two rules of a
-- published port appended.
pub data NftCommand : Type 0 where
  delete_rule : Str → Str → NftCommand
  append_rules : Str → Str → Str → Str → NftCommand

delete_rules : Str → List Str → List NftCommand
delete_rules chain [] = []
delete_rules chain (h ∷ hs) = delete_rule chain h ∷ delete_rules chain hs

chain_deletes : (Str → Bool) → Str → NftReply → List NftCommand
unfolding delete_rules
chain_deletes test chain (failed _) = []
chain_deletes test chain (printed out) = delete_rules chain (nat_handles_to_delete out test)

-- `listing` is what `nft -a list chain` answers for each chain.
unfoldable pub delete_matching_nat_rules : (Str → NftReply) → (Str → Bool) → List NftCommand
unfolding chain_deletes
delete_matching_nat_rules listing test =
    chain_deletes test (codes "prerouting") (listing (codes "prerouting"))
    ++ chain_deletes test (codes "output") (listing (codes "output"))

unfoldable pub remove_port_forwards : (Str → NftReply) → Str → List NftCommand
remove_port_forwards listing ip =
    delete_matching_nat_rules listing
      (λ line. contains line (codes "dnat to " ++ (ip ++ b':' ∷ [])))

unfoldable pub remove_port_forward_for_host_port : (Str → NftReply) → Str → Str → List NftCommand
remove_port_forward_for_host_port listing host_port proto =
    delete_matching_nat_rules listing (λ line. nat_line_matches_host_port line host_port proto)

-- `strings` default of an empty protocol.
unfoldable pub or_tcp : Str → Str
or_tcp proto = if is_empty proto then codes "tcp" else proto

-- The commands, and whether the last one succeeds: `loads`.
unfoldable pub add_port_forward :
    (Str → NftReply) → Bool → Str → ℕ → ℕ → Str → List NftCommand × Bool
add_port_forward listing loads ip host_port container_port proto =
    let p = or_tcp proto in
    (
      remove_port_forward_for_host_port listing (itoa host_port) p
          ++ append_rules p (itoa host_port) ip (itoa container_port) ∷ [],
      loads,
    )
