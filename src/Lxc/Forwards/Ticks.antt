-- ===== src/Lxc/Forwards/Ticks.antt =====
-- What a tick of the reconciliation publishes and withdraws, and what two of them do.
use lxc2docker.Prelude.{
  ℕ, ◌≤◌, ◌≡◌, refl, sym, ap, ◌∙◌, Bool, true, false, List, [], Option, some, arith, In, inl, inr,
  ◌⊎◌, Bool-cases, Option-cases, ltb,
}
use lxc2docker.Prelude.Int.{ℤ}
use lxc2docker.Strings.{Str, eq_str}
use lxc2docker.Dict.{Dict, keys, get}
use lxc2docker.Lxc.Forwards.Chains.{
  holds, text_at, NftReply, list_chain_forwards, current_port_forwards, published_host_ports,
  mark_keys, parse_host_port_key,
}
use lxc2docker.Lxc.Forwards.Reconcile.{
  Add, Removal, Claim, Prune, key_of, want_of, add_of, no_claims, heal_records, reset_strikes,
  strikes_of, prune_keys, Tick, reconcile_with, reconcile_port_forwards,
}
use lxc2docker.Lxc.Forwards.Claims.{claims, heal_claims, heal_records-claims}
use lxc2docker.Lxc.Forwards.Marking.{claimed, heal_claims-desired}
use lxc2docker.Lxc.Forwards.Healing.{Justified, Unanimous, healed_sound, healed_complete}
use lxc2docker.Lxc.Forwards.Pruning.{
  Distinct, removal, mark_keys-Distinct, holds-In, strikes_of-reset, removals_sound,
  removals_complete, first_strike,
}

-- What live containers claim in the tick.
abbrev pub tick_claims : Tick → List Claim
tick_claims t = claims t.state t.containers

abbrev pub reads : Tick → Option (Dict Str)
reads t = current_port_forwards t.prerouting t.output

abbrev pub publishes : Tick → Option (Dict Bool)
publishes t = published_host_ports t.prerouting_again t.output_again

published_host_ports-Distinct :
    (pre out : NftReply) {present : Dict Bool}
    → published_host_ports pre out ≡ some present
    → Distinct (keys present)
unfolding published_host_ports
published_host_ports-Distinct pre out {present} h = elim (Option-cases (list_chain_forwards pre)) [
  | inl q ↦ absurd (cc (rw (published_host_ports, q) at h))
  | inr (p, q) ↦ elim (Option-cases (list_chain_forwards out)) [
    | inl s ↦ absurd (cc (rw (published_host_ports, q, s) at h))
    | inr (o, s) ↦
        let same : mark_keys (keys o.rules) (mark_keys (keys p.rules) []) ≡ present =
          cc (rw (published_host_ports, q, s) at h) in
        rw⁻¹ same (
          mark_keys-Distinct (keys o.rules) (mark_keys (keys p.rules) [])
            (mark_keys-Distinct (keys p.rules) [] (unfold keys in tt)))
  ]
]

-- The keys that the first pass protects.
abbrev pub tick_desired : Dict Str → Tick → Dict Bool
tick_desired current t = (heal_records current t.state no_claims t.containers).desired

pub desired-claimed :
    (current : Dict Str) (t : Tick) (k : Str)
    → holds k (tick_desired current t) ≡ claimed k (tick_claims t)
desired-claimed current t k =
    ap (λ p. holds k p.desired) (heal_records-claims current t.state no_claims t.containers)
    ∙ (heal_claims-desired current no_claims (tick_claims t) k ∙ (unfold holds get in refl))

abbrev pub tick_start : Dict Str → Dict Bool → Tick → Dict ℕ → Prune
tick_start current present t strikes = record {
  strikes = reset_strikes (tick_desired current t) present strikes;
  removals = [];
}

module _ (t : Tick) (strikes : Dict ℕ) {current : Dict Str} {present : Dict Bool}
    (read : reads t ≡ some current) (published : publishes t ≡ some present) where
  result : reconcile_port_forwards t strikes ≡ reconcile_with current present t strikes
  unfolding reconcile_port_forwards
  result = rw (reconcile_port_forwards, read, published) refl

  adds-claims :
      (reconcile_port_forwards t strikes).adds
      ≡ (heal_claims current no_claims (tick_claims t)).adds
  unfolding reconcile_with
  adds-claims =
      rw (result) (ap (λ p. p.adds) (heal_records-claims current t.state no_claims t.containers))

  removals-keys :
      (reconcile_port_forwards t strikes).removals
      ≡ (prune_keys t.removes
          (tick_desired current t)
          (tick_start current present t strikes)
          (keys present)).removals
  unfolding reconcile_with
  removals-keys = rw (result) refl

  pub strikes-keys :
      (reconcile_port_forwards t strikes).strikes
      ≡ (prune_keys t.removes
          (tick_desired current t)
          (tick_start current present t strikes)
          (keys present)).strikes
  unfolding reconcile_with
  strikes-keys = rw (result) refl

-- A tick publishes a port only for a container whose state was read and is live, only if the port is
-- not installed for the container's address in both chains, and only for the target of the first
-- claim of the port in this tick. So it leaves alone what is right, and gives no port two targets
-- within the tick; a port that is claimed for two targets is given to the first claim of each tick.
pub reconcile_adds-Justified :
    (t : Tick) (strikes : Dict ℕ) {current : Dict Str} {present : Dict Bool} (a : Add)
    → reads t ≡ some current
    → publishes t ≡ some present
    → In a (reconcile_port_forwards t strikes).adds
    → (c : Claim) × Justified current (tick_claims t) c × (a ≡ add_of c)
reconcile_adds-Justified t strikes {current} a read published i =
    healed_sound current (tick_claims t) a (rw (adds-claims t strikes read published) at i)

-- A container whose state was read and is live has its port published by the tick, if the port is
-- not installed for its address in both chains and no other container claims it for another target.
pub reconcile_heals :
    (t : Tick) (strikes : Dict ℕ) {current : Dict Str} {present : Dict Bool} (c : Claim)
    → reads t ≡ some current
    → publishes t ≡ some present
    → In c (tick_claims t)
    → c.readable ≡ true
    → eq_str (text_at (key_of c) current) (want_of c) ≡ false
    → Unanimous (key_of c) (want_of c) (tick_claims t)
    → In (add_of c) (reconcile_port_forwards t strikes).adds
reconcile_heals t strikes {current} c read published i r n u =
    rw (adds-claims t strikes read published) (healed_complete current (tick_claims t) c i r n u)

-- Why a tick withdraws a port.
pub record Abandoned (t : Tick) (strikes : Dict ℕ) (present : Dict Bool) (r : Removal) (k : Str)
    : Type 0 where
  pub published : In k (keys present)
  pub unclaimed : claimed k (tick_claims t) ≡ false
  pub names : parse_host_port_key k ≡ some (r.proto, r.host_port)
  pub struck : 1 ≤ strikes_of k strikes

-- A tick withdraws only a port that is published, that no container claims which is live or whose
-- state could not be read, and that had a strike from the tick before.
pub removals_struck :
    (t : Tick) (strikes : Dict ℕ) {current : Dict Str} {present : Dict Bool} (r : Removal)
    → reads t ≡ some current
    → publishes t ≡ some present
    → In r (reconcile_port_forwards t strikes).removals
    → (k : Str) × Abandoned t strikes present r k
removals_struck t strikes {current} {present} r read published i =
    elim (removals_sound t.removes (tick_desired current t) (tick_start current present t strikes)
      (keys present) r (published_host_ports-Distinct t.prerouting_again t.output_again published)
      (rw (removals-keys t strikes read published) at i)) [
        | inl bad ↦ absurd bad
        | inr (k, o) ↦ (
          k,
          record {
            published = o.published;
            unclaimed = sym (desired-claimed current t k) ∙ o.unclaimed;
            names = o.names;
            struck =
                ground
                  (arith, o.struck, strikes_of-reset k (tick_desired current t) present strikes);
          },
        )
      ]

-- What a tick must observe of a port to count it as abandoned.
pub record Unclaimed (k : Str) (t : Tick) : Type 0 where
  pub current : Dict Str
  pub present : Dict Bool
  pub read : reads t ≡ some current
  pub publish : publishes t ≡ some present
  pub listed : holds k present ≡ true
  pub free : claimed k (tick_claims t) ≡ false

struck_before :
    (k : Str) (t : Tick) (strikes : Dict ℕ) (u : Unclaimed k t)
    → strikes_of k (tick_start u.current u.present t strikes).strikes ≡ strikes_of k strikes
struck_before k t strikes u = ground (
  arith,
  strikes_of-reset k (tick_desired u.current t) u.present strikes,
  desired-claimed u.current t k,
  u.free,
  u.listed,
)

pruned_if_struck :
    (k : Str) (named : Str × ℤ) (t : Tick) (strikes : Dict ℕ)
    → parse_host_port_key k ≡ some named
    → Unclaimed k t
    → 1 ≤ strikes_of k strikes
    → In (removal named) (reconcile_port_forwards t strikes).removals
pruned_if_struck k named t strikes q u s = rw (removals-keys t strikes u.read u.publish) (
    removals_complete t.removes (tick_desired u.current t)
      (tick_start u.current u.present t strikes) (keys u.present) k named
      (published_host_ports-Distinct t.prerouting_again t.output_again u.publish)
      (holds-In k u.present u.listed) (desired-claimed u.current t k ∙ u.free) q
      (rw (struck_before k t strikes u) s))

struck_if_not :
    (k : Str) (t : Tick) (strikes : Dict ℕ)
    → Unclaimed k t
    → strikes_of k strikes ≡ 0
    → strikes_of k (reconcile_port_forwards t strikes).strikes ≡ 1
struck_if_not k t strikes u z = rw (strikes-keys t strikes u.read u.publish) (
    first_strike t.removes (tick_desired u.current t) (tick_start u.current u.present t strikes)
      (keys u.present) k (published_host_ports-Distinct t.prerouting_again t.output_again u.publish)
      (holds-In k u.present u.listed) (desired-claimed u.current t k ∙ u.free)
      (struck_before k t strikes u ∙ z))

-- A port that is published in two ticks in a row, and that no container claims in either, is
-- withdrawn by one of them, whatever strikes it had before, if its key can be read.
pub reconcile_prunes :
    (k : Str) (named : Str × ℤ) (t u : Tick) (strikes : Dict ℕ)
    → parse_host_port_key k ≡ some named
    → Unclaimed k t
    → Unclaimed k u
    → In (removal named) (reconcile_port_forwards t strikes).removals
      ⊎ In
          (removal named)
          (reconcile_port_forwards u (reconcile_port_forwards t strikes).strikes).removals
reconcile_prunes k named t u strikes q first second =
    elim (Bool-cases (ltb 0 (strikes_of k strikes))) [
      | inl e ↦ inl (pruned_if_struck k named t strikes q first (ground (arith, e)))
      | inr e ↦
          let one = struck_if_not k t strikes first (ground (arith, e)) in
          inr (
            pruned_if_struck k named u (reconcile_port_forwards t strikes).strikes q second
              (omega (arith, one)))
    ]
