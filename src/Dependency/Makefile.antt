-- ===== src/Dependency/Makefile.antt =====
-- Libraries/dependency/Sources/MakefileDependencyInfo.cpp: the dependency rules that compilers
-- write for make.
pub mod Names
pub mod Rules
use xcbuild.Prelude.{
  ℕ, Bool, true, false, not, ◌&&◌, ◌||◌, Option, none, some, List, [], ◌∷◌, ◌++◌, ◌==◌, leb,
  if◌then◌else◌,
}
use xcbuild.Prelude.Text.{Bytes, drop_back, is_space}
use xcbuild.Escape.{makefile}

-- `DependencyInfo`
pub record DependencyInfo : Type 0 where
  pub inputs : List Bytes
  pub outputs : List Bytes

-- The outputs of a rule, separated by spaces.
unfoldable pub write_outputs : List Bytes → Bytes → Bytes
unfolding makefile
write_outputs [] rest = rest
write_outputs (output ∷ []) rest = makefile output ++ rest
write_outputs (output ∷ next ∷ outputs) rest =
    makefile output ++ b' ' ∷ write_outputs (next ∷ outputs) rest

-- The inputs of a rule, each on a line of its own.
unfoldable pub write_inputs : List Bytes → Bytes → Bytes
unfolding makefile
write_inputs [] rest = rest
write_inputs (input ∷ inputs) rest =
    b' ' ∷ b'\\' ∷ 10 ∷ b' ' ∷ b' ' ∷ (makefile input ++ write_inputs inputs rest)

unfoldable pub write_rules : List DependencyInfo → Bytes
unfolding write_outputs write_inputs
write_rules [] = []
write_rules (info ∷ []) = write_outputs info.outputs (b':' ∷ write_inputs info.inputs [])
write_rules (info ∷ next ∷ infos) =
    write_outputs info.outputs
      (b':' ∷ write_inputs info.inputs (10 ∷ 10 ∷ write_rules (next ∷ infos)))

-- The states of the loop of `Deserialize`.
pub data State : Type 0 where
  begin : State
  comment : State
  output : State
  inputs_of : State

-- The variables of the loop; `escaped` is whether the byte before is a backslash.
pub record Machine : Type 0 where
  pub state : State
  pub current : Bytes
  pub info : DependencyInfo
  pub infos : List DependencyInfo
  pub escaped : Bool

abbrev pub no_info : DependencyInfo
no_info = record { inputs = []; outputs = [] }

abbrev pub initial : Machine
initial = record { state = begin; current = []; info = no_info; infos = []; escaped = false }

-- `current` as a further input, unless it is empty.
unfoldable pub push_current : Machine → Machine
push_current m = elim m.current [
  | [] ↦ m
  | c ∷ current ↦ record m {
    current = [];
    info = record m.info { inputs = m.info.inputs ++ (c ∷ current) ∷ [] };
  }
]

-- The rule read so far, stored if it has an output.
unfoldable pub store : Machine → Machine
store m = elim m.info.outputs [
  | [] ↦ m
  | o ∷ outputs ↦ record m { infos = m.infos ++ m.info ∷ []; info = no_info }
]

-- An unescaped line end.
unfoldable pub line_end : State → Machine → Option Machine
unfolding push_current store
line_end begin m = some m
line_end output m = none
line_end comment m = let m' = store (push_current m) in some (record m' { state = begin })
line_end inputs_of m = let m' = store (push_current m) in some (record m' { state = begin })

-- Another unescaped space, or an escaped line end.
unfoldable pub space : State → Machine → Option Machine
unfolding push_current
space inputs_of m =
    some (push_current (if m.escaped then record m { current = drop_back m.current } else m))
space begin m = some m
space comment m = some m
space output m = some m

-- An unescaped colon.
unfoldable pub colon : State → Machine → Option Machine
colon begin m = none
colon comment m = some m
colon output m = some (record m {
  info = record m.info { outputs = m.info.outputs ++ m.current ∷ [] };
  current = [];
  state = inputs_of;
})
colon inputs_of m = none

-- A byte that must be escaped: it takes the place of its backslash.
unfoldable pub special : State → ℕ → Machine → Option Machine
special begin c m = none
special comment c m = some m
special output c m =
    if m.escaped then some (record m { current = drop_back m.current ++ c ∷ [] }) else none
special inputs_of c m =
    if m.escaped then some (record m { current = drop_back m.current ++ c ∷ [] }) else none

unfoldable pub ordinary : State → ℕ → Machine → Option Machine
ordinary begin c m = some (record m { state = output; current = m.current ++ c ∷ [] })
ordinary comment c m = some m
ordinary output c m = some (record m { current = m.current ++ c ∷ [] })
ordinary inputs_of c m = some (record m { current = m.current ++ c ∷ [] })

-- The body of the loop.
unfoldable pub round : ℕ → Machine → Option Machine
unfolding line_end space colon special ordinary
round c m =
    if not m.escaped && c == b'#'
    then some (record m { state = comment })
    else if not m.escaped && c == 10
    then line_end m.state m
    else if (not m.escaped && is_space c) || (m.escaped && c == 10)
    then space m.state m
    else if not m.escaped && c == b':'
    then colon m.state m
    else if (c == b'#') || (c == b'%') || (m.escaped && is_space c)
    then special m.state c m
    else ordinary m.state c m

-- `prev = it`
abbrev pub advance : ℕ → Machine → Machine
advance c m = record m { escaped = c == b'\\' }

-- What stands behind the loop.
unfoldable pub finish : State → Machine → Option (List DependencyInfo)
unfolding push_current store
finish begin m = some m.infos
finish output m = none
finish comment m = some (store (push_current m)).infos
finish inputs_of m = some (store (push_current m)).infos

unfoldable pub run : Machine → Bytes → Option (List DependencyInfo)
unfolding round finish
run m [] = finish m.state m
run m (c ∷ rest) = elim (round c m) [ none ↦ none | some m' ↦ run (advance c m') rest ]

unfoldable pub read_rules : Bytes → Option (List DependencyInfo)
unfolding run
read_rules contents = run initial contents
