-- ===== src/Lxc/Forwards/Marking.antt =====
-- What the first pass marks: the ports that are claimed, and the targets they are wanted for.
use lxc2docker.Prelude.{
  ◌≡◌, Bool, true, false, not, ◌||◌, List, [], ◌∷◌, Option, none, some, arith, if◌then◌else◌, inl,
  inr, Option-cases, any, find,
}
use lxc2docker.Strings.{Str, eq_str, eq_str_iff}
use lxc2docker.Dict.{Dict, get, set, get-set}
use lxc2docker.Lxc.Forwards.Chains.{holds}
use lxc2docker.Lxc.Forwards.Reconcile.{Pass, Claim, key_of, want_of, heal_claim}
use lxc2docker.Lxc.Forwards.Claims.{heal_claims}

pub holds-set :
    (k j : Str) (m : Dict Bool) → holds j (set k true m) ≡ (if eq_str k j then true else holds j m)
unfolding holds
holds-set k j m = ground (arith, get-set k j true m)

unfoldable pub has_key : Str → Claim → Bool
has_key k c = eq_str (key_of c) k

-- Some container that is not known to be down publishes the port.
unfoldable pub claimed : Str → List Claim → Bool
unfolding any has_key
claimed k cs = any (has_key k) cs

-- The first one that does.
unfoldable pub first_claim : Str → List Claim → Option Claim
unfolding find has_key
first_claim k cs = find (has_key k) cs

unfoldable pub clashes : Pass → Claim → Bool
clashes pass c = elim (get (key_of c) pass.want_by) [
  | none ↦ false
  | some prev ↦ not (eq_str prev (want_of c))
]

heal_claim-desired :
    (current : Dict Str) (pass : Pass) (c : Claim)
    → (heal_claim current pass c).desired ≡ set (key_of c) true pass.desired
unfolding heal_claim
heal_claim-desired current pass c = ground arith

pub heal_claims-desired :
    (current : Dict Str) (pass : Pass) (cs : List Claim) (k : Str)
    → holds k (heal_claims current pass cs).desired ≡ (holds k pass.desired || claimed k cs)
unfolding heal_claims claimed has_key any
heal_claims-desired current pass [] k = ground arith
heal_claims-desired current pass (c ∷ cs) k = ground (
  arith,
  heal_claims-desired current (heal_claim current pass c) cs k,
  heal_claim-desired current pass c,
  holds-set (key_of c) k pass.desired,
)

pub heal_claim-want :
    (current : Dict Str) (pass : Pass) (c : Claim) (k : Str)
    → get k (heal_claim current pass c).want_by ≡ elim (get k pass.want_by) [
      | some w ↦ some w
      | none ↦ if eq_str (key_of c) k then some (want_of c) else none
    ]
unfolding heal_claim
heal_claim-want current pass c k = elim (Option-cases (get (key_of c) pass.want_by)) [
  | inl q ↦
      ground (arith, q, get-set (key_of c) k (want_of c) pass.want_by, eq_str_iff (key_of c) k)
  | inr (w, q) ↦ ground (
    arith,
    q,
    get-set (key_of c) k (want_of c) pass.want_by,
    eq_str_iff (key_of c) k,
    eq_str_iff w (want_of c),
  )
]

-- A port is wanted for the target of the first claim of it.
pub wanted_first :
    (current : Dict Str) (pass : Pass) (cs : List Claim) (k : Str)
    → get k (heal_claims current pass cs).want_by ≡ elim (get k pass.want_by) [
      | some w ↦ some w
      | none ↦ elim (first_claim k cs) [ none ↦ none | some d ↦ some (want_of d) ]
    ]
unfolding heal_claims first_claim find has_key
wanted_first current pass [] k = ground arith
wanted_first current pass (c ∷ cs) k =
    ground (
      arith,
      wanted_first current (heal_claim current pass c) cs k,
      heal_claim-want current pass c k,
    )
