-- ===== src/Executor.antt =====
-- Libraries/xcexecution/Sources/SimpleExecutor.cpp: the order of the invocations of a target by the
-- directed graph of Libraries/pbxbuild, and the runs of them. A pointer to an invocation is its place
-- in the vector. The filesystem, the launcher and the builtin tools are a parameter.
pub mod Auxiliary
pub mod Edges
pub mod Priorities
pub mod Needs
pub mod Schedule
pub mod Steps
pub mod Written
pub mod Runs
use xcbuild.Prelude.{
  nat_eq, ℕ, zero, suc, Bool, true, false, not, ◌&&◌, Option, none, some, List, [], ◌∷◌, ◌++◌, ◌==◌,
  ltb, if◌then◌else◌,
}
use xcbuild.Prelude.Text.{Bytes, equal}
use xcbuild.Path.{is_absolute, parent}
use Auxiliary.{Files, AuxiliaryFile, write_auxiliary_files}
use xcbuild.Graph.{DirectedGraph, insert, ordered}

-- `Invocation::Executable`, which has one of the two.
pub data Executable : Type 0 where
  builtin : Bytes → Executable
  external : Bytes → Executable

-- What SimpleExecutor.cpp reads of an `Invocation`.
pub record Invocation : Type 0 where
  pub executable : Option Executable
  pub inputs : List Bytes
  pub outputs : List Bytes
  pub phony_inputs : List Bytes
  pub input_dependencies : List Bytes
  pub creates_product_structure : Bool
  pub priority : ℕ

abbrev pub Numbered : Type 0
Numbered = List (ℕ × Invocation)

unfoldable pub numbered : ℕ → List Invocation → Numbered
numbered i [] = []
numbered i (v ∷ vs) = (i, v) ∷ numbered (suc i) vs

-- `outputToInvocation`; `insert` keeps what a key has.
abbrev pub OutputMap : Type 0
OutputMap = List (Bytes × ℕ)

unfoldable pub insert_output : Bytes → ℕ → OutputMap → OutputMap
unfolding equal
insert_output path i [] = (path, i) ∷ []
insert_output path i ((k, j) ∷ m) =
    if equal k path then (k, j) ∷ m else (k, j) ∷ insert_output path i m

unfoldable pub find_output : Bytes → OutputMap → Option ℕ
unfolding equal
find_output path [] = none
find_output path ((k, j) ∷ m) = if equal k path then some j else find_output path m

unfoldable pub insert_outputs : List Bytes → ℕ → OutputMap → OutputMap
unfolding insert_output
insert_outputs [] i m = m
insert_outputs (path ∷ paths) i m = insert_outputs paths i (insert_output path i m)

unfoldable pub output_map : Numbered → OutputMap → OutputMap
unfolding insert_outputs
output_map [] m = m
output_map ((i, v) ∷ vs) m = output_map vs (insert_outputs v.outputs i m)

abbrev pub lesser : ℕ → Option ℕ → ℕ
lesser p none = p
lesser p (some q) = if ltb q p then q else p

-- The priority behind one in `orderedPhasePriorities`.
unfoldable pub next_priority : ℕ → Numbered → Option ℕ
next_priority p [] = none
next_priority p ((i, v) ∷ vs) =
    let rest = next_priority p vs in
    if ltb p v.priority then some (lesser v.priority rest) else rest

-- An edge to the producer of each path that has one.
unfoldable pub add_edges : OutputMap → ℕ → List Bytes → DirectedGraph ℕ → DirectedGraph ℕ
unfolding find_output insert
add_edges m i [] g = g
add_edges m i (path ∷ paths) g =
    add_edges m i paths (elim (find_output path m) [ none ↦ g | some j ↦ insert i (j ∷ []) g ])

-- An edge from each invocation of a priority.
unfoldable pub add_later : ℕ → ℕ → Numbered → DirectedGraph ℕ → DirectedGraph ℕ
unfolding insert
add_later i q [] g = g
add_later i q ((k, v) ∷ vs) g =
    add_later i q vs (if v.priority == q then insert k (i ∷ []) g else g)

-- A round of the loop that builds the graph.
unfoldable pub add_invocation :
    OutputMap → Numbered → ℕ → Invocation → DirectedGraph ℕ → DirectedGraph ℕ
unfolding add_edges add_later next_priority insert
add_invocation m all i v g =
    let produced =
      add_edges m i v.input_dependencies
        (add_edges m i v.phony_inputs (add_edges m i v.inputs (insert i [] g))) in
    elim (next_priority v.priority all) [ none ↦ produced | some q ↦ add_later i q all produced ]

unfoldable pub build_graph : OutputMap → Numbered → Numbered → DirectedGraph ℕ → DirectedGraph ℕ
unfolding add_invocation
build_graph m all [] g = g
build_graph m all ((i, v) ∷ vs) g = build_graph m all vs (add_invocation m all i v g)

abbrev pub invocation_graph : Numbered → DirectedGraph ℕ
invocation_graph all =
    build_graph (output_map all []) all all (record { nodes = []; adjacency = [] })

-- The places of `SortInvocations`; the outer `none` says that the fuel of `ordered` ran out.
unfoldable pub sort_places : Numbered → Option (Option (List ℕ))
unfolding build_graph output_map ordered
sort_places all = ordered (invocation_graph all)

unfoldable pub at_place : Numbered → ℕ → List Invocation
at_place [] i = []
at_place ((k, v) ∷ vs) i = if k == i then v ∷ [] else at_place vs i

unfoldable pub at_places : Numbered → List ℕ → List Invocation
unfolding at_place
at_places all [] = []
at_places all (i ∷ places) = at_place all i ++ at_places all places

-- `SortInvocations`
unfoldable pub sort_invocations : List Invocation → Option (Option (List Invocation))
unfolding sort_places numbered at_places
sort_invocations invocations =
    let all = numbered 0 invocations in
    elim (sort_places all) [
      | none ↦ none
      | some none ↦ some none
      | some (some places) ↦ some (some (at_places all places))
    ]

abbrev pub same : Bool → Bool → Bool
same a b = if a then b else not b

-- What the executor is given, over a state of the machine. An exit code of none is a launch that failed.
pub record Machine (W : Type 0) : Type 0 where
  pub files : Files W
  pub has_driver : Bytes → Bool
  pub run_driver : Bytes → Invocation → W → ℕ × W
  pub launch : Bytes → Invocation → W → Option ℕ × W

-- What the formatter is told: the invocation, its tool, and whether for the structure of the product.
pub data Event : Type 0 where
  begin_invocation : Invocation → Bytes → Bool → Event
  finish_invocation : Invocation → Bytes → Bool → Event

pub record State (W : Type 0) : Type 0 where
  pub world : W
  pub log : List Event

-- A success, or the invocation that failed.
pub data Outcome (W : Type 0) : Type 0 where
  succeeded : State W → Outcome W
  failed_at : Invocation → State W → Outcome W

-- What `buildTarget` returns; `not_written` is a failure of its auxiliary files.
pub data Answer (W : Type 0) : Type 0 where
  performed : Outcome W → Answer W
  not_written : W → Answer W
  cyclic : Answer W
  out_of_fuel : Answer W

module _ {W : Type 0} (machine : Machine W) where
  -- The directories of the outputs; those before one that cannot be made stay.
  unfoldable pub create_directories : List Bytes → W → Bool × W
  unfolding parent
  create_directories [] w = (true, w)
  create_directories (path ∷ paths) w = elim (machine.files.create_directory (parent path) w) [
    | none ↦ (false, w)
    | some w' ↦ create_directories paths w'
  ]

  -- Behind the run of a tool.
  unfoldable pub finish_run : Invocation → Bytes → Bool → Bool → State W → Outcome W
  finish_run v tool structure success s =
      let s' : State W = record s { log = s.log ++ finish_invocation v tool structure ∷ [] } in
      if success then succeeded s' else failed_at v s'

  unfoldable pub run_builtin : Invocation → Bool → Bytes → State W → Outcome W
  unfolding finish_run
  run_builtin v structure name s =
      let (code, w) = machine.run_driver name v s.world in
      let begun : State W = record {
        world = w;
        log = s.log ++ begin_invocation v name structure ∷ [];
      } in
      if machine.has_driver name
      then finish_run v name structure (code == 0) begun
      else failed_at v s

  abbrev pub is_zero : Option ℕ → Bool
  is_zero none = false
  is_zero (some code) = code == 0

  abbrev pub locate : Bytes → State W → Option Bytes
  locate path s =
      if is_absolute path
      then (if machine.files.is_executable path s.world then some path else none)
      else machine.files.find_executable path s.world

  unfoldable pub run_external : Invocation → Bool → Bytes → State W → Outcome W
  unfolding finish_run is_absolute
  run_external v structure path s = elim (locate path s) [
    | none ↦ failed_at v s
    | some tool ↦
        let (code, w) = machine.launch tool v s.world in
        let begun : State W = record {
          world = w;
          log = s.log ++ begin_invocation v tool structure ∷ [];
        } in
        finish_run v tool structure (is_zero code) begun
  ]

  unfoldable pub run_tool : Invocation → Bool → Executable → State W → Outcome W
  unfolding run_builtin run_external
  run_tool v structure (builtin name) s = run_builtin v structure name s
  run_tool v structure (external path) s = run_external v structure path s

  -- A run that is no dry run.
  unfoldable pub run_invocation : Invocation → Bool → Executable → State W → Outcome W
  unfolding create_directories run_tool
  run_invocation v structure e s =
      let (made, w) = create_directories v.outputs s.world in
      let s' : State W = record s { world = w } in
      if made then run_tool v structure e s' else failed_at v s'

  -- A round of the loop of `performInvocations`: a phony invocation and one of the other kind are
  -- passed over.
  unfoldable pub perform_invocation : Bool → Bool → Invocation → State W → Outcome W
  unfolding run_invocation
  perform_invocation dry_run structure v s = elim v.executable [
    | none ↦ succeeded s
    | some e ↦
        if same v.creates_product_structure structure
        then (if dry_run then succeeded s else run_invocation v structure e s)
        else succeeded s
  ]

  unfoldable pub perform_invocations : Bool → Bool → List Invocation → State W → Outcome W
  unfolding perform_invocation
  perform_invocations dry_run structure [] s = succeeded s
  perform_invocations dry_run structure (v ∷ vs) s =
      elim (perform_invocation dry_run structure v s) [
        | succeeded s' ↦ perform_invocations dry_run structure vs s'
        | failed_at x s' ↦ failed_at x s'
      ]

  -- `buildTarget` behind its auxiliary files: what creates the structure of the product comes first.
  unfoldable pub run_target : Bool → List Invocation → State W → Answer W
  unfolding sort_invocations perform_invocations
  run_target dry_run invocations s = elim (sort_invocations invocations) [
    | none ↦ out_of_fuel
    | some none ↦ cyclic
    | some (some sorted) ↦ performed (elim (perform_invocations dry_run true sorted s) [
      | failed_at x s' ↦ failed_at x s'
      | succeeded s' ↦ perform_invocations dry_run false sorted s'
    ])
  ]

  -- `buildTarget`
  unfoldable pub build_target : Bool → List AuxiliaryFile → List Invocation → State W → Answer W
  unfolding write_auxiliary_files run_target
  build_target dry_run files invocations s =
      let (written, w) = write_auxiliary_files machine.files dry_run files s.world in
      let s' : State W = record s { world = w } in
      if written then run_target dry_run invocations s' else not_written w
