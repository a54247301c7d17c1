-- ===== src/Api/Build/Reading.antt =====
-- What the split of a Dockerfile has read at each instruction.
use lxc2docker.Prelude.{
  ◌≡◌, refl, sym, ap, ◌∙◌, Bool, true, not, ◌&&◌, List, [], ◌∷◌, ◌++◌, Option, none, some, arith,
  append_assoc,
}
use lxc2docker.Strings.{Str, codes, eq_str}
use lxc2docker.Api.Build.Syntax.{DockerfileInstruction}
use lxc2docker.Api.Build.Stages.{DockerfileStage, parse_from_instruction, Split, finished_stages}

unfoldable pub is_op : Str → DockerfileInstruction → Bool
is_op op inst = eq_str inst.op op

unfoldable pub no_from_in : List DockerfileInstruction → Bool
unfolding is_op
no_from_in [] = true
no_from_in (i ∷ is) = not (is_op (codes "FROM") i) && no_from_in is

unfoldable pub only_args : List DockerfileInstruction → Bool
unfolding is_op
only_args [] = true
only_args (i ∷ is) = is_op (codes "ARG") i && only_args is

-- A stage begins with the FROM that gives its base and its name, and has no other.
pub record IsStage (st : DockerfileStage) : Type 0 where
  pub from : DockerfileInstruction
  pub rest : List DockerfileInstruction
  pub whole : st.instructions ≡ from ∷ rest
  pub begins : eq_str from.op (codes "FROM") ≡ true
  pub named : parse_from_instruction from.args ≡ some (st.base_ref, st.name)
  pub no_other : no_from_in rest ≡ true

unfoldable pub AllStages : List DockerfileStage → Type 0
AllStages [] = Unit
AllStages (st ∷ sts) = IsStage st × AllStages sts

unfoldable pub all_instructions : List DockerfileStage → List DockerfileInstruction
all_instructions [] = []
all_instructions (st ∷ sts) = st.instructions ++ all_instructions sts

pub all_instructions-append :
    (a b : List DockerfileStage)
    → all_instructions (a ++ b) ≡ all_instructions a ++ all_instructions b
unfolding all_instructions
all_instructions-append [] b = refl
all_instructions-append (st ∷ a) b =
    ap (λ x. st.instructions ++ x) (all_instructions-append a b)
    ∙ sym (append_assoc st.instructions (all_instructions a) (all_instructions b))

AllStages-append : (a b : List DockerfileStage) → AllStages a → AllStages b → AllStages (a ++ b)
unfolding AllStages
AllStages-append [] b x y = y
AllStages-append (st ∷ a) b x y = (x.0, AllStages-append a b x.1 y)

pub no_from_in-append :
    (a b : List DockerfileInstruction)
    → no_from_in a ≡ true
    → no_from_in b ≡ true
    → no_from_in (a ++ b) ≡ true
unfolding no_from_in
no_from_in-append [] b x y = y
no_from_in-append (i ∷ a) b x y = ground (arith, no_from_in-append a b (ground arith) y)

pub only_args-append :
    (a b : List DockerfileInstruction)
    → only_args a ≡ true
    → only_args b ≡ true
    → only_args (a ++ b) ≡ true
unfolding only_args
only_args-append [] b x y = y
only_args-append (i ∷ a) b x y = ground (arith, only_args-append a b (ground arith) y)

-- What was read is the arguments before the first stage and the instructions of the stages.
pub record Reads (s : Split) (done : List DockerfileInstruction) : Type 0 where
  pub args : List DockerfileInstruction
  pub arguments : only_args args ≡ true
  pub covered : done ≡ args ++ all_instructions (finished_stages s)
  pub stages : AllStages s.stages
  pub current : elim s.current as (λ _. Type 0) [ none ↦ s.stages ≡ [] | some st ↦ IsStage st ]

pub finished-Reads :
    (s : Split) (done : List DockerfileInstruction) → Reads s done → AllStages (finished_stages s)
unfolding finished_stages
finished-Reads s done r = by s.current refl r.current
  where
    by :
        (o : Option DockerfileStage)
        → s.current ≡ o
        → (elim o as (λ _. Type 0) [ none ↦ s.stages ≡ [] | some st ↦ IsStage st ])
        → AllStages (finished_stages s)
    by none e x = rw (finished_stages, e) r.stages
    by (some st) e x =
        rw (finished_stages, e)
          (AllStages-append s.stages (st ∷ []) r.stages (unfold AllStages in (x, tt)))
