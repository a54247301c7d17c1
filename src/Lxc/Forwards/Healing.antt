-- ===== src/Lxc/Forwards/Healing.antt =====
-- Which ports the first pass publishes again.
use lxc2docker.Prelude.{
  ◌≡◌, refl, sym, ◌∙◌, Bool, true, false, not, ◌&&◌, List, [], ◌∷◌, ◌++◌, none, some, arith,
  if◌then◌else◌, In, inl, inr, ◌⊎◌, Bool-cases, Option-cases, append-nil, In-append, In-append_left,
  In-append_right,
}
use lxc2docker.Strings.{Str, eq_str, eq_str_iff, eq_str_refl, eq_str_sound}
use lxc2docker.Dict.{Dict, get, set}
use lxc2docker.Lxc.Forwards.Chains.{holds, text_at}
use lxc2docker.Lxc.Forwards.Reconcile.{
  Add, Pass, Claim, key_of, want_of, add_of, heal_claim, no_claims,
}
use lxc2docker.Lxc.Forwards.Claims.{heal_claims}
use lxc2docker.Lxc.Forwards.Marking.{holds-set, first_claim, clashes, heal_claim-want, wanted_first}

-- A call that publishes a port again: its container is known to be live, the port is not installed
-- with its target in both chains, and no claim before it wants another target.
pub record Justified (current : Dict Str) (cs : List Claim) (c : Claim) : Type 0 where
  pub claims_it : In c cs
  pub readable : c.readable ≡ true
  pub not_installed : eq_str (text_at (key_of c) current) (want_of c) ≡ false
  pub first : (d : Claim) × (first_claim (key_of c) cs ≡ some d) × (want_of d ≡ want_of c)

-- What one step of the loop adds.
adds_step : Dict Str → Pass → Claim → Bool
unfolding clashes
adds_step current pass c =
    not (clashes pass c)
    && not (holds (key_of c) pass.conflicted)
    && c.readable
    && not (eq_str (text_at (key_of c) current) (want_of c))

heal_claim-adds :
    (current : Dict Str) (pass : Pass) (c : Claim)
    → (heal_claim current pass c).adds
      ≡ pass.adds ++ (if adds_step current pass c then add_of c ∷ [] else [])
unfolding heal_claim adds_step clashes
heal_claim-adds current pass c = ground (arith, append-nil pass.adds)

adds_kept :
    (current : Dict Str) (a : Add) (pass : Pass) (cs : List Claim)
    → In a pass.adds
    → In a (heal_claims current pass cs).adds
unfolding heal_claims
adds_kept current a pass [] i = i
adds_kept current a pass (c ∷ cs) i =
    adds_kept current a (heal_claim current pass c) cs
      (rw (heal_claim-adds current pass c) (In-append_left a pass.adds _ i))

want_added :
    (current : Dict Str) (pass : Pass) (c : Claim)
    → adds_step current pass c ≡ true
    → get (key_of c) (heal_claim current pass c).want_by ≡ some (want_of c)
unfolding adds_step clashes
want_added current pass c h = elim (Option-cases (get (key_of c) pass.want_by)) [
  | inl q ↦ ground (arith, q, heal_claim-want current pass c (key_of c), eq_str_refl (key_of c))
  | inr (w, q) ↦
      ground (arith, q, heal_claim-want current pass c (key_of c), eq_str_iff w (want_of c))
]

-- A call of the loop is one from before, or one for a claim whose target the port is wanted for.
adds_sound :
    (current : Dict Str) (a : Add) (pass : Pass) (cs : List Claim)
    → In a (heal_claims current pass cs).adds
    → In a pass.adds
      ⊎ ((c : Claim) × In c cs
          × (a ≡ add_of c)
          × (c.readable ≡ true)
          × (eq_str (text_at (key_of c) current) (want_of c) ≡ false)
          × (get (key_of c) (heal_claims current pass cs).want_by ≡ some (want_of c)))
unfolding heal_claims
adds_sound current a pass [] i = inl i
adds_sound current a pass (c ∷ cs) i =
    elim (adds_sound current a (heal_claim current pass c) cs i) [
      | inr (d, j, made, readable, missing, wanted) ↦
          inr (d, inr j, made, readable, missing, wanted)
      | inl j ↦ elim (Bool-cases (adds_step current pass c)) [
        | inl e ↦ elim (In-append a pass.adds _ (rw (heal_claim-adds current pass c, e) at j)) [
          | inl old ↦ inl old
          | inr (inl here) ↦ inr (
            c,
            inl refl,
            here,
            (unfold adds_step in ground arith),
            (unfold adds_step in ground arith),
            wanted_first current (heal_claim current pass c) cs (key_of c)
                ∙ ground (arith, want_added current pass c e),
          )
          | inr (inr bad) ↦ absurd bad
        ]
        | inr e ↦ inl (rw (heal_claim-adds current pass c, e, append-nil pass.adds) at j)
      ]
    ]

-- Every claim of the port wants the target, and the loop has met no other.
record Agreed (k w : Str) (pass : Pass) : Type 0 where
  unflagged : holds k pass.conflicted ≡ false
  wanted : (get k pass.want_by ≡ none) ⊎ (get k pass.want_by ≡ some w)

abbrev pub Unanimous : Str → Str → List Claim → Type 0
Unanimous k w cs = (d : Claim) → In d cs → key_of d ≡ k → want_of d ≡ w

heal_claim-conflicted :
    (current : Dict Str) (pass : Pass) (c : Claim)
    → (heal_claim current pass c).conflicted
      ≡ (if clashes pass c then set (key_of c) true pass.conflicted else pass.conflicted)
unfolding heal_claim clashes
heal_claim-conflicted current pass c = ground arith

heal_claim-Agreed :
    (current : Dict Str) (k w : Str) (pass : Pass) (c : Claim)
    → (key_of c ≡ k → want_of c ≡ w)
    → Agreed k w pass
    → Agreed k w (heal_claim current pass c)
unfolding clashes
heal_claim-Agreed current k w pass c h g = elim (Bool-cases (eq_str (key_of c) k)) [
  | inl e ↦
      let key = eq_str_sound (key_of c) k e in
      let want = h key in
      let calm : clashes pass c ≡ false = ground (arith, g.wanted, key, want, eq_str_refl w) in
      record {
        unflagged = rw (heal_claim-conflicted current pass c, calm) g.unflagged;
        wanted = inr (ground (arith, g.wanted, heal_claim-want current pass c k, want));
      }
  | inr e ↦ record {
    unflagged = ground (
      arith,
      heal_claim-conflicted current pass c,
      holds-set (key_of c) k pass.conflicted,
      g.unflagged,
    );
    wanted = ground (arith, g.wanted, heal_claim-want current pass c k);
  }
]

adds_complete :
    (current : Dict Str) (c : Claim) (pass : Pass) (cs : List Claim)
    → In c cs
    → c.readable ≡ true
    → eq_str (text_at (key_of c) current) (want_of c) ≡ false
    → Unanimous (key_of c) (want_of c) cs
    → Agreed (key_of c) (want_of c) pass
    → In (add_of c) (heal_claims current pass cs).adds
unfolding heal_claims adds_step clashes
adds_complete current c pass [] i r n u g = absurd i
adds_complete current c pass (d ∷ cs) (inl e) r n u g =
    let step : adds_step current pass c ≡ true =
      ground (arith, g.wanted, g.unflagged, eq_str_refl (want_of c)) in
    adds_kept current (add_of c) (heal_claim current pass d) cs (
      rw⁻¹ e (
        rw (heal_claim-adds current pass c, step)
          (In-append_right (add_of c) pass.adds (add_of c ∷ []) (inl refl))))
adds_complete current c pass (d ∷ cs) (inr i) r n u g =
    adds_complete current c (heal_claim current pass d) cs i r n (λ x j. u x (inr j))
      (heal_claim-Agreed current (key_of c) (want_of c) pass d (u d (inl refl)) g)

-- Every call of the first pass is justified.
pub healed_sound :
    (current : Dict Str) (cs : List Claim) (a : Add)
    → In a (heal_claims current no_claims cs).adds
    → (c : Claim) × Justified current cs c × (a ≡ add_of c)
healed_sound current cs a i = elim (adds_sound current a no_claims cs i) [
  | inl bad ↦ absurd bad
  | inr (c, j, made, readable, missing, wanted) ↦ (
    c,
    record {
      claims_it = j;
      readable = readable;
      not_installed = missing;
      first = by_first c wanted;
    },
    made,
  )
]
  where
    by_first :
        (c : Claim)
        → get (key_of c) (heal_claims current no_claims cs).want_by ≡ some (want_of c)
        → (d : Claim) × (first_claim (key_of c) cs ≡ some d) × (want_of d ≡ want_of c)
    by_first c wanted =
        let final = sym (wanted_first current no_claims cs (key_of c)) ∙ wanted in
        elim (Option-cases (first_claim (key_of c) cs)) [
          | inl q ↦ absurd (unfold get in ground (arith, final, q))
          | inr (d, q) ↦ (d, q, unfold get in ground (arith, final, q))
        ]

-- And every live container whose port is missing gets it again, if nobody else claims the port.
pub healed_complete :
    (current : Dict Str) (cs : List Claim) (c : Claim)
    → In c cs
    → c.readable ≡ true
    → eq_str (text_at (key_of c) current) (want_of c) ≡ false
    → Unanimous (key_of c) (want_of c) cs
    → In (add_of c) (heal_claims current no_claims cs).adds
healed_complete current cs c i r n u =
    adds_complete current c no_claims cs i r n u
      record { unflagged = unfold holds get in refl; wanted = inl (unfold get in refl) }
