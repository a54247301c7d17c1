-- ===== src/Lxc/Forwards/Reconcile.antt =====
-- internal/lxc/manager.go: one tick of the reconciliation of published ports.
use lxc2docker.Prelude.{
  ℕ, ◌+◌, Bool, true, false, not, ◌||◌, List, [], ◌∷◌, ◌++◌, Option, none, some, if◌then◌else◌,
  is_empty, ltb,
}
use lxc2docker.Prelude.Int.{ℤ}
use lxc2docker.Strings.{Str, codes, eq_str, itoa}
use lxc2docker.Dict.{Dict, get, set, delete, keys}
use lxc2docker.Store.Records.{ContainerRecord, PortBinding}
use lxc2docker.Lxc.Forwards.Chains.{
  holds, text_at, host_port_key, NftReply, current_port_forwards, published_host_ports,
  parse_host_port_key, or_tcp,
}

abbrev pub orphan_prune_strikes : ℕ
orphan_prune_strikes = 2

-- What `State` answers for a container.
pub data StateReply : Type 0 where
  state_error : StateReply
  state_is : Str → StateReply

unfoldable pub is_live : Str → Bool
is_live state = eq_str state (codes "running") || eq_str state (codes "paused")

-- The calls of `AddPortForward` and `RemovePortForwardForHostPort`.
pub record Add : Type 0 where
  pub ip : Str
  pub host_port : ℕ
  pub container_port : ℕ
  pub proto : Str

pub record Removal : Type 0 where
  pub host_port : ℤ
  pub proto : Str

-- The maps of the first pass, and its calls so far.
pub record Pass : Type 0 where
  pub desired : Dict Bool
  pub want_by : Dict Str
  pub conflicted : Dict Bool
  pub adds : List Add

-- A published port of a container that is live, or whose state could not be read.
pub record Claim : Type 0 where
  pub readable : Bool
  pub ip : Str
  pub host_port : ℕ
  pub container_port : ℕ
  pub proto : Str

unfoldable pub claim : Bool → Str → PortBinding → Claim
claim readable ip pb = record {
  readable = readable;
  ip = ip;
  host_port = pb.host_port;
  container_port = pb.container_port;
  proto = or_tcp pb.proto;
}

unfoldable pub key_of : Claim → Str
key_of c = host_port_key c.proto (itoa c.host_port)

unfoldable pub want_of : Claim → Str
want_of c = c.ip ++ b':' ∷ itoa c.container_port

unfoldable pub add_of : Claim → Add
add_of c = record {
  ip = c.ip;
  host_port = c.host_port;
  container_port = c.container_port;
  proto = c.proto;
}

-- The body of the inner loop.
unfoldable pub heal_claim : Dict Str → Pass → Claim → Pass
heal_claim current pass c =
    let key = key_of c in
    let want = want_of c in
    let wanted = record pass { desired = set key true pass.desired } in
    let clash : Bool = elim (get key pass.want_by) [
      | none ↦ false
      | some prev ↦ not (eq_str prev want)
    ] in
    if clash
    then record wanted { conflicted = set key true pass.conflicted }
    else let first = record wanted { want_by = set key want pass.want_by } in
      if holds key pass.conflicted || not c.readable
      then first
      else if eq_str (text_at key current) want
      then first
      else record first { adds = pass.adds ++ add_of c ∷ [] }

unfoldable pub heal_bindings : Dict Str → Bool → Str → Pass → List PortBinding → Pass
heal_bindings current readable ip pass [] = pass
heal_bindings current readable ip pass (pb ∷ pbs) =
    heal_bindings current readable ip (heal_claim current pass (claim readable ip pb)) pbs

unfoldable pub heal_record : Dict Str → (Str → StateReply) → Pass → ContainerRecord → Pass
heal_record current state pass rec =
    if is_empty rec.ip_address || is_empty rec.port_bindings then pass else elim (state rec.id) [
      | state_error ↦ heal_bindings current false rec.ip_address pass rec.port_bindings
      | state_is st ↦
          if is_live st
          then heal_bindings current true rec.ip_address pass rec.port_bindings
          else pass
    ]

unfoldable pub heal_records : Dict Str → (Str → StateReply) → Pass → List ContainerRecord → Pass
heal_records current state pass [] = pass
heal_records current state pass (rec ∷ recs) =
    heal_records current state (heal_record current state pass rec) recs

abbrev pub no_claims : Pass
no_claims = record { desired = []; want_by = []; conflicted = []; adds = [] }

-- The streaks of the keys that are still published and that nobody claims.
unfoldable pub reset_strikes : Dict Bool → Dict Bool → Dict ℕ → Dict ℕ
reset_strikes desired present [] = []
reset_strikes desired present ((k, n) ∷ strikes) =
    let rest = reset_strikes desired present strikes in
    if holds k desired || not (holds k present) then rest else (k, n) ∷ rest

unfoldable pub strikes_of : Str → Dict ℕ → ℕ
strikes_of k strikes = elim (get k strikes) [ none ↦ 0 | some n ↦ n ]

-- The streaks and the calls of the second pass.
pub record Prune : Type 0 where
  pub strikes : Dict ℕ
  pub removals : List Removal

-- `removes` is whether the call for a key succeeds.
unfoldable pub prune_key : (Str → Bool) → Dict Bool → Prune → Str → Prune
prune_key removes desired p key =
    let n = strikes_of key p.strikes + 1 in
    let struck = record p { strikes = set key n p.strikes } in
    if holds key desired
    then p
    else if ltb n orphan_prune_strikes
    then struck
    else elim (parse_host_port_key key) [
      | none ↦ record p { strikes = delete key p.strikes }
      | some (proto, port) ↦
          let call : Removal = record { host_port = port; proto = proto } in
          if removes key
          then record { strikes = delete key p.strikes; removals = p.removals ++ call ∷ [] }
          else record struck { removals = p.removals ++ call ∷ [] }
    ]

unfoldable pub prune_keys : (Str → Bool) → Dict Bool → Prune → List Str → Prune
prune_keys removes desired p [] = p
prune_keys removes desired p (k ∷ ks) =
    prune_keys removes desired (prune_key removes desired p k) ks

-- What a tick observes: the listings of the two chains as the two reads of them get it, the
-- containers, their states, and the answers of the removals.
pub record Tick : Type 0 where
  pub prerouting : NftReply
  pub output : NftReply
  pub prerouting_again : NftReply
  pub output_again : NftReply
  pub containers : List ContainerRecord
  pub state : Str → StateReply
  pub removes : Str → Bool

pub record TickResult : Type 0 where
  pub adds : List Add
  pub removals : List Removal
  pub strikes : Dict ℕ

unfoldable pub reconcile_with : Dict Str → Dict Bool → Tick → Dict ℕ → TickResult
reconcile_with current present t strikes =
    let pass = heal_records current t.state no_claims t.containers in
    let start : Prune = record {
      strikes = reset_strikes pass.desired present strikes;
      removals = [];
    } in
    let pruned = prune_keys t.removes pass.desired start (keys present) in
    record { adds = pass.adds; removals = pruned.removals; strikes = pruned.strikes }

unfoldable pub reconcile_port_forwards : Tick → Dict ℕ → TickResult
reconcile_port_forwards t strikes = elim (current_port_forwards t.prerouting t.output) [
  | none ↦ record { adds = []; removals = []; strikes = strikes }
  | some current ↦ elim (published_host_ports t.prerouting_again t.output_again) [
    | none ↦ record { adds = []; removals = []; strikes = strikes }
    | some present ↦ reconcile_with current present t strikes
  ]
]

-- `ensurePortForwards`: the calls for one container, `none` when the store has no record of it.
unfoldable pub binding_adds : Str → List PortBinding → List Add
binding_adds ip [] = []
binding_adds ip (pb ∷ pbs) =
    (record {
      ip = ip;
      host_port = pb.host_port;
      container_port = pb.container_port;
      proto = pb.proto;
    })
    ∷ binding_adds ip pbs

unfoldable pub ensure_port_forwards : Option ContainerRecord → StateReply → List Add
ensure_port_forwards none st = []
ensure_port_forwards (some rec) state_error = []
ensure_port_forwards (some rec) (state_is st) =
    if is_empty rec.ip_address || is_empty rec.port_bindings || not (is_live st)
    then []
    else binding_adds rec.ip_address rec.port_bindings
