-- ===== src/Dependency/Makefile/Rules.antt =====
-- `serialize` and `Deserialize` of MakefileDependencyInfo.cpp, one after the other.
use xcbuild.Prelude.{
  false, ◌≡◌, ◌≢◌, refl, sym, ap, ◌∙◌, Option, some, List, [], ◌∷◌, ◌++◌, append_assoc, append-nil,
  Every,
}
use xcbuild.Prelude.Text.{Bytes, drop_back}
use xcbuild.Escape.{makefile}
use xcbuild.Dependency.Makefile.{
  DependencyInfo, write_outputs, write_inputs, write_rules, begin, output, inputs_of, no_info,
  push_current, store, line_end, space, colon, ordinary, round, finish, run, read_rules,
}
use xcbuild.Dependency.Makefile.Names.{IsKept, machine, run-name, run-begin}

-- The inputs of the rule with the current one.
pushed : Bytes → List Bytes → List Bytes
pushed [] inputs = inputs
pushed (c ∷ current) inputs = inputs ++ (c ∷ current) ∷ []

abbrev rule : List Bytes → Bytes → DependencyInfo
rule inputs o = record { inputs = inputs; outputs = o ∷ [] }

run_colon :
    (o : Bytes) (infos : List DependencyInfo) (rest : Bytes)
    → run (machine output o no_info infos false) (b':' ∷ rest)
      ≡ run (machine inputs_of [] (rule [] o) infos false) rest
unfolding run round colon
run_colon o infos rest = refl

-- The line break before an input.
run_break :
    (current : Bytes) (inputs : List Bytes) (o : Bytes) (infos : List DependencyInfo) (rest : Bytes)
    → run
        (machine inputs_of current (rule inputs o) infos false)
        (b' ' ∷ b'\\' ∷ 10 ∷ b' ' ∷ b' ' ∷ rest)
      ≡ run (machine inputs_of [] (rule (pushed current inputs) o) infos false) rest
unfolding run round space push_current ordinary pushed drop_back
run_break [] inputs o infos rest = refl
run_break (c ∷ current) inputs o infos rest = refl

run_end :
    (current : Bytes) (inputs : List Bytes) (o : Bytes) (infos : List DependencyInfo)
    → run (machine inputs_of current (rule inputs o) infos false) []
      ≡ some (infos ++ rule (pushed current inputs) o ∷ [])
unfolding run finish store push_current pushed
run_end [] inputs o infos = refl
run_end (c ∷ current) inputs o infos = refl

run_next :
    (current : Bytes) (inputs : List Bytes) (o : Bytes) (infos : List DependencyInfo) (rest : Bytes)
    → run (machine inputs_of current (rule inputs o) infos false) (10 ∷ 10 ∷ rest)
      ≡ run (machine begin [] no_info (infos ++ rule (pushed current inputs) o ∷ []) false) rest
unfolding run round line_end store push_current pushed
run_next [] inputs o infos rest = refl
run_next (c ∷ current) inputs o infos rest = refl

pushed_name :
    (name : Bytes) (inputs more : List Bytes)
    → name ≢ []
    → pushed name inputs ++ more ≡ inputs ++ name ∷ more
unfolding pushed
pushed_name [] inputs more h = absurd (h refl)
pushed_name (c ∷ name) inputs more h = append_assoc inputs ((c ∷ name) ∷ []) more

-- The inputs of a rule, with what comes of the text behind them.
run-write_inputs :
    (more : List Bytes) (current : Bytes) (inputs : List Bytes) (o : Bytes)
    (infos : List DependencyInfo) (rest : Bytes)
    (result : List Bytes → Option (List DependencyInfo))
    → Every IsKept more
    → ((last : Bytes) (before : List Bytes)
        → run (machine inputs_of last (rule before o) infos false) rest
          ≡ result (pushed last before))
    → run (machine inputs_of current (rule inputs o) infos false) (write_inputs more rest)
      ≡ result (pushed current inputs ++ more)
unfolding write_inputs
run-write_inputs [] current inputs o infos rest result k h =
    h current inputs ∙ ap result (sym (append-nil (pushed current inputs)))
run-write_inputs (name ∷ more) current inputs o infos rest result k h =
    run_break current inputs o infos (makefile name ++ write_inputs more rest)
    ∙ run-name inputs_of [] (rule (pushed current inputs) o) infos name (write_inputs more rest) tt
        k.0.1
    ∙ run-write_inputs more name (pushed current inputs) o infos rest result k.1 h
    ∙ ap result (pushed_name name (pushed current inputs) more k.0.0)

-- A whole rule, from its start.
run-rule :
    (o : Bytes) (inputs : List Bytes) (infos : List DependencyInfo) (rest : Bytes)
    (result : List Bytes → Option (List DependencyInfo))
    → IsKept o
    → Every IsKept inputs
    → ((last : Bytes) (before : List Bytes)
        → run (machine inputs_of last (rule before o) infos false) rest
          ≡ result (pushed last before))
    → run
        (machine begin [] no_info infos false)
        (write_outputs (o ∷ []) (b':' ∷ write_inputs inputs rest))
      ≡ result inputs
unfolding write_outputs pushed
run-rule o inputs infos rest result k ks h =
    run-begin no_info infos o (b':' ∷ write_inputs inputs rest) k
    ∙ run-name output [] no_info infos o (b':' ∷ write_inputs inputs rest) tt k.1
    ∙ run_colon o infos (write_inputs inputs rest)
    ∙ run-write_inputs inputs [] [] o infos rest result ks h

-- A rule with one output, whose names are read back as they were written.
pub record IsRule (info : DependencyInfo) : Type 0 where
  pub name : Bytes
  pub one_output : info.outputs ≡ name ∷ []
  pub output_kept : IsKept name
  pub inputs_kept : Every IsKept info.inputs

rule_of : (info : DependencyInfo) → (r : IsRule info) → rule info.inputs r.name ≡ info
rule_of info r = ap (λ t. record { inputs = info.inputs; outputs = t }) (sym r.one_output)

run-write_rules :
    (infos done : List DependencyInfo)
    → Every IsRule infos
    → run (machine begin [] no_info done false) (write_rules infos) ≡ some (done ++ infos)
unfolding write_rules
run-write_rules [] done h = unfold run in unfold finish in ap some (sym (append-nil done))
run-write_rules (info ∷ []) done h =
    ap
      (λ t.
        run (machine begin [] no_info done false)
          (write_outputs t (b':' ∷ write_inputs info.inputs [])))
      h.0.one_output
    ∙ run-rule h.0.name info.inputs done [] (λ inputs. some (done ++ rule inputs h.0.name ∷ []))
        h.0.output_kept h.0.inputs_kept (λ last before. run_end last before h.0.name done)
    ∙ ap (λ t. some (done ++ t ∷ [])) (rule_of info h.0)
run-write_rules (info ∷ next ∷ infos) done h =
    let rest = 10 ∷ 10 ∷ write_rules (next ∷ infos) in
    ap
      (λ t.
        run (machine begin [] no_info done false)
          (write_outputs t (b':' ∷ write_inputs info.inputs rest)))
      h.0.one_output
    ∙ run-rule h.0.name info.inputs done rest
        (λ inputs.
          run (machine begin [] no_info (done ++ rule inputs h.0.name ∷ []) false)
            (write_rules (next ∷ infos)))
        h.0.output_kept h.0.inputs_kept
        (λ last before. run_next last before h.0.name done (write_rules (next ∷ infos)))
    ∙ ap (λ t. run (machine begin [] no_info (done ++ t ∷ []) false) (write_rules (next ∷ infos)))
        (rule_of info h.0)
    ∙ run-write_rules (next ∷ infos) (done ++ info ∷ []) h.1
    ∙ ap some (append_assoc done (info ∷ []) (next ∷ infos))

-- `Deserialize` reads the rules back that `serialize` writes, where each rule has one output and the
-- names are not empty and hold no line end, colon, dollar sign or backslash; spaces, `#` and `%`
-- may stand in them.
pub read_rules-write_rules :
    (infos : List DependencyInfo) → Every IsRule infos → read_rules (write_rules infos) ≡ some infos
unfolding read_rules
read_rules-write_rules infos h = run-write_rules infos [] h

run_space :
    (o : Bytes) (infos : List DependencyInfo) (rest : Bytes)
    → run (machine output o no_info infos false) (b' ' ∷ rest)
      ≡ run (machine output o no_info infos false) rest
unfolding run round space
run_space o infos rest = refl

-- `Deserialize` ignores the space between two outputs of a rule that `serialize` writes: where the
-- names of the rule, outputs and inputs, are not empty and hold no line end, colon, dollar sign or
-- backslash, what it reads has one output, which is the one name behind the other.
pub read_rules-write_outputs :
    (a b : Bytes) (inputs : List Bytes)
    → IsKept a
    → IsKept b
    → Every IsKept inputs
    → read_rules (write_rules (record { inputs = inputs; outputs = a ∷ b ∷ [] } ∷ []))
      ≡ some (record { inputs = inputs; outputs = (a ++ b) ∷ [] } ∷ [])
unfolding read_rules write_rules write_outputs pushed
read_rules-write_outputs a b inputs ka kb ks =
    let behind = b':' ∷ write_inputs inputs [] in
    run-begin no_info [] a (b' ' ∷ (makefile b ++ behind)) ka
    ∙ run-name output [] no_info [] a (b' ' ∷ (makefile b ++ behind)) tt ka.1
    ∙ run_space a [] (makefile b ++ behind)
    ∙ run-name output a no_info [] b behind tt kb.1
    ∙ run_colon (a ++ b) [] (write_inputs inputs [])
    ∙ run-write_inputs inputs [] [] (a ++ b) [] [] (λ is. some (rule is (a ++ b) ∷ [])) ks
        (λ last before. run_end last before (a ++ b) [])
