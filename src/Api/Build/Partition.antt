-- ===== src/Api/Build/Partition.antt =====
-- The stages of a Dockerfile are its instructions, cut before each FROM.
use lxc2docker.Prelude.{
  ◌≡◌, refl, sym, ap, ◌∙◌, true, false, List, [], ◌∷◌, ◌++◌, none, some, arith, append_assoc,
  append-nil, Bool-cases, Option-cases, inl, inr,
}
use mathlib.Core.Path.{subst}
use lxc2docker.Strings.{Str, codes, eq_str}
use lxc2docker.Api.Build.Syntax.{DockerfileInstruction}
use lxc2docker.Api.Build.Stages.{
  DockerfileStage, parse_from_instruction, Split, finished_stages, no_from, SplitResult,
  split_error, split_ok, split_step, split_loop, StagesResult, stages_error, stages_ok,
  split_dockerfile_stages,
}
use lxc2docker.Api.Build.Reading.{
  no_from_in, only_args, IsStage, AllStages, all_instructions, all_instructions-append,
  no_from_in-append, only_args-append, is_op, Reads, finished-Reads,
}

-- FROM begins a stage.
from-Reads :
    (s : Split) (done : List DockerfileInstruction) (i : DockerfileInstruction) (base name : Str)
    → eq_str i.op (codes "FROM") ≡ true
    → parse_from_instruction i.args ≡ some (base, name)
    → Reads s done
    → Reads
        (record {
          stages = finished_stages s;
          current = some (record { base_ref = base; name = name; instructions = i ∷ [] });
        })
        (done ++ i ∷ [])
unfolding finished_stages all_instructions
from-Reads s done i base name f p r =
    let new : DockerfileStage = record { base_ref = base; name = name; instructions = i ∷ [] } in
    record {
      args = r.args;
      arguments = r.arguments;
      covered =
          ap (λ x. x ++ i ∷ []) r.covered
          ∙ (append_assoc r.args (all_instructions (finished_stages s)) (i ∷ [])
              ∙ ap (λ x. r.args ++ x)
                  (sym (all_instructions-append (finished_stages s) (new ∷ []))));
      stages = finished-Reads s done r;
      current = record {
        from = i;
        rest = [];
        whole = refl;
        begins = f;
        named = p;
        no_other = unfold no_from_in in refl;
      };
    }

-- Another instruction joins the stage at hand.
join-Reads :
    (s : Split) (done : List DockerfileInstruction) (i : DockerfileInstruction)
    (st : DockerfileStage)
    → eq_str i.op (codes "FROM") ≡ false
    → s.current ≡ some st
    → Reads s done
    → Reads
        (record s { current = some (record st { instructions = st.instructions ++ i ∷ [] }) })
        (done ++ i ∷ [])
unfolding finished_stages all_instructions
join-Reads s done i st f e r =
    let longer : DockerfileStage = record st { instructions = st.instructions ++ i ∷ [] } in
    let stage : IsStage st =
      subst (λ o. elim o as (λ _. Type 0) [ none ↦ s.stages ≡ [] | some x ↦ IsStage x ]) e
        r.current in
    let before : done ≡ r.args ++ (all_instructions s.stages ++ (st.instructions ++ [])) =
      r.covered
      ∙ ap (λ x. r.args ++ x)
          (rw (finished_stages, e) (all_instructions-append s.stages (st ∷ []))) in
    record {
      args = r.args;
      arguments = r.arguments;
      covered =
          ap (λ x. x ++ i ∷ []) before
          ∙ (append_assoc r.args _ (i ∷ [])
              ∙ ap (λ x. r.args ++ x)
                  (append_assoc (all_instructions s.stages) _ (i ∷ [])
                    ∙ (ap (λ x. all_instructions s.stages ++ x)
                          (ap (λ x. x ++ i ∷ []) (append-nil st.instructions)
                            ∙ sym (append-nil (st.instructions ++ i ∷ [])))
                        ∙ sym (all_instructions-append s.stages (longer ∷ [])))));
      stages = r.stages;
      current = record {
        from = stage.from;
        rest = stage.rest ++ i ∷ [];
        whole = ap (λ x. x ++ i ∷ []) stage.whole;
        begins = stage.begins;
        named = stage.named;
        no_other =
            no_from_in-append stage.rest (i ∷ []) stage.no_other
              (unfold no_from_in is_op in ground (arith, f));
      };
    }

-- An argument before the first stage.
arg-Reads :
    (s : Split) (done : List DockerfileInstruction) (i : DockerfileInstruction)
    → eq_str i.op (codes "ARG") ≡ true
    → s.current ≡ none
    → Reads s done
    → Reads s (done ++ i ∷ [])
unfolding finished_stages all_instructions
arg-Reads s done i a e r =
    let empty : s.stages ≡ [] =
      subst (λ o. elim o as (λ _. Type 0) [ none ↦ s.stages ≡ [] | some x ↦ IsStage x ]) e
        r.current in
    let nothing : all_instructions (finished_stages s) ≡ [] =
      rw (finished_stages, e) (ap all_instructions empty) in
    record {
      args = r.args ++ i ∷ [];
      arguments =
          only_args-append r.args (i ∷ []) r.arguments
            (unfold only_args is_op in ground (arith, a));
      covered =
          ap (λ x. x ++ i ∷ []) (r.covered ∙ (ap (λ x. r.args ++ x) nothing ∙ append-nil r.args))
          ∙ (sym (append-nil (r.args ++ i ∷ [])) ∙ ap (λ x. (r.args ++ i ∷ []) ++ x) (sym nothing));
      stages = r.stages;
      current = r.current;
    }

step-Reads :
    (s t : Split) (done : List DockerfileInstruction) (i : DockerfileInstruction)
    → split_step s i ≡ split_ok t
    → Reads s done
    → Reads t (done ++ i ∷ [])
unfolding split_step
step-Reads s t done i h r = elim (Bool-cases (eq_str i.op (codes "FROM"))) [
  | inl f ↦ elim (Option-cases (parse_from_instruction i.args)) [
    | inl p ↦ absurd (cc (rw (split_step, f, p) at h))
    | inr ((base, name), p) ↦
        subst (λ x. Reads x (done ++ i ∷ [])) (cc (rw (split_step, f, p) at h))
          (from-Reads s done i base name f p r)
  ]
  | inr f ↦ elim (Option-cases s.current) [
    | inr (st, e) ↦
        subst (λ x. Reads x (done ++ i ∷ [])) (cc (simp (split_step, f, e) at h))
          (join-Reads s done i st f e r)
    | inl e ↦ elim (Bool-cases (eq_str i.op (codes "ARG"))) [
      | inl a ↦
          subst (λ x. Reads x (done ++ i ∷ [])) (cc (simp (split_step, f, e, a) at h))
            (arg-Reads s done i a e r)
      | inr a ↦ absurd (cc (simp (split_step, f, e, a) at h))
    ]
  ]
]

loop-Reads :
    (s t : Split) (done is : List DockerfileInstruction)
    → split_loop s is ≡ split_ok t
    → Reads s done
    → Reads t (done ++ is)
unfolding split_loop
loop-Reads s t done [] h r = rw (append-nil done) (subst (λ x. Reads x done) (cc h) r)
loop-Reads s t done (i ∷ is) h r =
    elim (split_step s i) as (λ o. split_step s i ≡ o → Reads t (done ++ i ∷ is)) [
      | split_error e ↦ λ q. absurd (cc (rw (split_loop, q) at h))
      | split_ok u ↦ λ q.
          rw⁻¹ (append_assoc done (i ∷ []) is) (
            loop-Reads u t (done ++ i ∷ []) is (rw (split_loop, q) at h)
              (step-Reads s u done i q r))
    ]
      refl

start-Reads : Reads (record { stages = []; current = none }) []
unfolding finished_stages all_instructions
start-Reads = record {
  args = [];
  arguments = unfold only_args in refl;
  covered = refl;
  stages = unfold AllStages in tt;
  current = refl;
}

stages_found :
    (l sts : List DockerfileStage)
    → (elim l as (λ _. StagesResult) [
      | [] ↦ stages_error no_from
      | st ∷ more ↦ stages_ok (st ∷ more)
    ])
      ≡ stages_ok sts
    → l ≡ sts
stages_found [] sts e = absurd (cc e)
stages_found (st ∷ more) sts e = cc e

-- The stages of a Dockerfile are cut out of it without loss: its instructions are arguments before
-- the first stage, and then those of the stages, in order. Each stage begins with the FROM that gives
-- its base and its name, and holds no other.
pub stages_partition :
    (instrs : List DockerfileInstruction) (sts : List DockerfileStage)
    → split_dockerfile_stages instrs ≡ stages_ok sts
    → (args : List DockerfileInstruction) × (only_args args ≡ true)
      × (instrs ≡ args ++ all_instructions sts)
      × AllStages sts
unfolding split_dockerfile_stages
stages_partition instrs sts h = by (split_loop (record { stages = []; current = none }) instrs) refl
  where
    by :
        (o : SplitResult)
        → split_loop (record { stages = []; current = none }) instrs ≡ o
        → (args : List DockerfileInstruction) × (only_args args ≡ true)
          × (instrs ≡ args ++ all_instructions sts)
          × AllStages sts
    by (split_error e) q = absurd (cc (rw (split_dockerfile_stages, q) at h))
    by (split_ok s) q =
        let r = loop-Reads (record { stages = []; current = none }) s [] instrs q start-Reads in
        let found = rw (split_dockerfile_stages, q) at h in
        let all_found : finished_stages s ≡ sts = stages_found (finished_stages s) sts found in
        (r.args, r.arguments, rw⁻¹ all_found r.covered, rw⁻¹ all_found (finished-Reads s instrs r))
