-- ===== src/Lxc/Forwards/Claims.antt =====
-- The first pass as one loop over the ports that live containers publish.
use lxc2docker.Prelude.{
  ◌≡◌, refl, sym, ap, ◌∙◌, Bool, true, false, ◌||◌, List, [], ◌∷◌, ◌++◌, arith, if◌then◌else◌,
  is_empty,
}
use lxc2docker.Strings.{Str}
use lxc2docker.Dict.{Dict}
use lxc2docker.Store.Records.{ContainerRecord, PortBinding}
use lxc2docker.Lxc.Forwards.Reconcile.{
  StateReply, state_error, state_is, is_live, Pass, Claim, claim, heal_claim, heal_bindings,
  heal_record, heal_records,
}

unfoldable pub binding_claims : Bool → Str → List PortBinding → List Claim
binding_claims readable ip [] = []
binding_claims readable ip (pb ∷ pbs) = claim readable ip pb ∷ binding_claims readable ip pbs

-- What a container claims: nothing if it is known to be down, or has no address.
unfoldable pub record_claims : (Str → StateReply) → ContainerRecord → List Claim
record_claims state rec =
    if is_empty rec.ip_address || is_empty rec.port_bindings then [] else elim (state rec.id) [
      | state_error ↦ binding_claims false rec.ip_address rec.port_bindings
      | state_is st ↦
          if is_live st then binding_claims true rec.ip_address rec.port_bindings else []
    ]

unfoldable pub claims : (Str → StateReply) → List ContainerRecord → List Claim
claims state [] = []
claims state (rec ∷ recs) = record_claims state rec ++ claims state recs

unfoldable pub heal_claims : Dict Str → Pass → List Claim → Pass
heal_claims current pass [] = pass
heal_claims current pass (c ∷ cs) = heal_claims current (heal_claim current pass c) cs

heal_claims-append :
    (current : Dict Str) (pass : Pass) (cs ds : List Claim)
    → heal_claims current pass (cs ++ ds) ≡ heal_claims current (heal_claims current pass cs) ds
unfolding heal_claims
heal_claims-append current pass [] ds = refl
heal_claims-append current pass (c ∷ cs) ds =
    heal_claims-append current (heal_claim current pass c) cs ds

heal_bindings-claims :
    (current : Dict Str) (readable : Bool) (ip : Str) (pass : Pass) (pbs : List PortBinding)
    → heal_bindings current readable ip pass pbs
      ≡ heal_claims current pass (binding_claims readable ip pbs)
unfolding heal_claims heal_bindings binding_claims
heal_bindings-claims current readable ip pass [] = refl
heal_bindings-claims current readable ip pass (pb ∷ pbs) =
    heal_bindings-claims current readable ip (heal_claim current pass (claim readable ip pb)) pbs

heal_record-claims :
    (current : Dict Str) (state : Str → StateReply) (pass : Pass) (rec : ContainerRecord)
    → heal_record current state pass rec ≡ heal_claims current pass (record_claims state rec)
unfolding heal_record record_claims
heal_record-claims current state pass rec =
    elim (state rec.id)
        as (λ s.
          state rec.id ≡ s
          → heal_record current state pass rec
            ≡ heal_claims current pass (record_claims state rec)) [
              | state_error ↦ λ q. ground (
                arith,
                q,
                heal_bindings-claims current false rec.ip_address pass rec.port_bindings,
                heal_none,
              )
              | state_is st ↦ λ q. ground (
                arith,
                q,
                heal_bindings-claims current true rec.ip_address pass rec.port_bindings,
                heal_none,
              )
            ]
      refl
  where
    heal_none : heal_claims current pass [] ≡ pass
    heal_none = unfold heal_claims in refl

pub heal_records-claims :
    (current : Dict Str) (state : Str → StateReply) (pass : Pass) (recs : List ContainerRecord)
    → heal_records current state pass recs ≡ heal_claims current pass (claims state recs)
unfolding heal_records claims heal_claims
heal_records-claims current state pass [] = refl
heal_records-claims current state pass (rec ∷ recs) =
    heal_records-claims current state (heal_record current state pass rec) recs
    ∙ (ap (λ p. heal_claims current p (claims state recs))
          (heal_record-claims current state pass rec)
        ∙ sym (heal_claims-append current pass (record_claims state rec) (claims state recs)))
