-- ===== src/Tests/Executors.antt =====
-- The order and the runs of invocations at concrete inputs.
use xcbuild.Prelude.{ℕ, Bool, true, false, ◌≡◌, refl, Option, none, some, List, [], ◌∷◌, ◌++◌, suc}
use xcbuild.Prelude.Text.{Bytes, codes}
use xcbuild.Executor.Auxiliary.{Files, AuxiliaryFile, bytes, copied, write_auxiliary_files}
use xcbuild.Executor.{
  Executable, builtin, external, Invocation, numbered, Machine, State, Outcome, succeeded,
  failed_at, Answer, performed, sort_places, sort_invocations, build_target,
}
use xcbuild.Executor.Schedule.{Schedules, sort_places-Schedules}
use xcbuild.Executor.Written.{AreWritten}
use xcbuild.Executor.Steps.{ran}
use xcbuild.Executor.Runs.{chosen, RanAll, build_target-RanAll}

abbrev tool : Option Executable → Bool → List Bytes → List Bytes → Invocation
tool executable structure inputs outputs = record {
  executable = executable;
  inputs = inputs;
  outputs = outputs;
  phony_inputs = [];
  input_dependencies = [];
  creates_product_structure = structure;
  priority = 0;
}

abbrev link : Invocation
link = tool (some (external (codes "/ld"))) false (codes "b/a.o" ∷ []) (codes "b/app" ∷ [])

abbrev compile : Invocation
compile = tool (some (external (codes "cc"))) false (codes "a.c" ∷ []) (codes "b/a.o" ∷ [])

abbrev folder : Invocation
folder = tool (some (builtin (codes "mkdir"))) true [] (codes "b/dir" ∷ [])

abbrev phony : Invocation
phony = tool none false [] []

abbrev some_tools : List Invocation
some_tools = link ∷ phony ∷ compile ∷ folder ∷ []

-- One that reads nothing and is put behind the others by its priority, two levels above.
abbrev sign : Invocation
sign = record (tool (some (external (codes "/sign"))) false [] []) { priority = 2 }

abbrev copy : Invocation
copy = record (tool (some (external (codes "/cp"))) false [] []) { priority = 1 }

abbrev levels : List Invocation
levels = sign ∷ copy ∷ some_tools

-- A machine that counts its runs and has all it is asked for.
abbrev all_files : Files ℕ
all_files = record {
  is_directory = λ path w. false;
  create_directory = λ path w. some w;
  read = λ path w. some path;
  write = λ bytes path w. some w;
  is_executable = λ path w. true;
  make_executable = λ path w. some w;
  find_executable = λ path w. some path;
}

abbrev machine : Machine ℕ
machine = record {
  files = all_files;
  has_driver = λ name. true;
  run_driver = λ name v w. (0, suc w);
  launch = λ path v w. (some 0, suc w);
}

-- There is no linker.
abbrev failing : Machine ℕ
failing = record machine { files = record all_files { is_executable = λ path w. false } }

abbrev settings : AuxiliaryFile
settings = record {
  path = codes "b/x";
  chunks = bytes (codes "1") ∷ copied (codes "b/y") ∷ [];
  executable = true;
}

abbrev begin : State ℕ
begin = record { world = 0; log = [] }

-- The compiler's output stands before the linker that reads it, which comes first in the list.
sorted_tools : sort_invocations some_tools ≡ some (some (compile ∷ link ∷ phony ∷ folder ∷ []))
unfolding sort_invocations
sorted_tools = refl

own_output : sort_invocations (tool none false (codes "a" ∷ []) (codes "a" ∷ []) ∷ []) ≡ some none
unfolding sort_invocations
own_output = refl

abbrev ran_of : Answer ℕ → List Invocation
ran_of (performed (succeeded s)) = ran s.log
ran_of (performed (failed_at x s)) = ran s.log
ran_of _ = []

all_ran :
    ran_of (build_target machine false (settings ∷ []) some_tools begin)
    ≡ folder ∷ compile ∷ link ∷ []
unfolding build_target ran
all_ran = refl

some_ran : ran_of (build_target failing false [] some_tools begin) ≡ folder ∷ compile ∷ []
unfolding build_target ran
some_ran = refl

sorted_levels :
    sort_invocations levels ≡ some (some (folder ∷ compile ∷ phony ∷ link ∷ copy ∷ sign ∷ []))
unfolding sort_invocations
sorted_levels = refl

sort_places-Schedules_example : Schedules (numbered 0 levels) (sort_places (numbered 0 levels))
sort_places-Schedules_example = sort_places-Schedules (numbered 0 levels)

build_target-RanAll_example :
    (w : ℕ) × (r : Outcome ℕ) × (build_target machine false (settings ∷ []) some_tools begin
      ≡ performed r)
    × AreWritten machine.files (settings ∷ []) 0 w
    × RanAll machine
        (chosen true (compile ∷ link ∷ phony ∷ folder ∷ [])
          ++ chosen false (compile ∷ link ∷ phony ∷ folder ∷ []))
        (record begin { world = w })
        r
build_target-RanAll_example =
    build_target-RanAll machine (settings ∷ []) some_tools (compile ∷ link ∷ phony ∷ folder ∷ [])
      begin (unfold write_auxiliary_files in refl) sorted_tools
