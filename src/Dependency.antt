-- ===== src/Dependency.antt =====
-- Libraries/dependency/Sources/BinaryDependencyInfo.cpp: the dependency files that the linker
-- writes. Each command is a byte, a string and a NUL.
pub mod Reading
pub mod Makefile
pub mod RoundTrip
pub mod Refusals
use xcbuild.Prelude.{
  ℕ, Bool, true, false, Option, none, some, List, [], ◌∷◌, ◌++◌, ◌==◌, if◌then◌else◌,
}
use xcbuild.Prelude.Text.{Bytes}

-- `BinaryDependencyInfo`, with the inputs and outputs of its `DependencyInfo`.
pub record BinaryDependencyInfo : Type 0 where
  pub version : Bytes
  pub inputs : List Bytes
  pub outputs : List Bytes
  pub missing : List Bytes

abbrev pub version_command : ℕ
version_command = 0

abbrev pub input_command : ℕ
input_command = 16

abbrev pub missing_command : ℕ
missing_command = 17

abbrev pub output_command : ℕ
output_command = 64

-- `WriteCommand`, with the text that is written behind it.
unfoldable pub write_command : ℕ → Bytes → Bytes → Bytes
write_command command string rest = command ∷ (string ++ 0 ∷ rest)

-- One of the loops of `serialize`.
unfoldable pub write_commands : ℕ → List Bytes → Bytes → Bytes
unfolding write_command
write_commands command [] rest = rest
write_commands command (string ∷ strings) rest =
    write_command command string (write_commands command strings rest)

-- The version is written unless it is empty.
unfoldable pub write_version : Bytes → Bytes → Bytes
unfolding write_command
write_version [] rest = rest
write_version (c ∷ version) rest = write_command version_command (c ∷ version) rest

unfoldable pub serialize : BinaryDependencyInfo → Bytes
unfolding write_version write_commands
serialize info = write_version info.version (
    write_commands output_command info.outputs
      (write_commands input_command info.inputs (write_commands missing_command info.missing [])))

-- The only version of a file; `none` if it has one already.
unfoldable pub set_version : Bytes → BinaryDependencyInfo → Option BinaryDependencyInfo
set_version string info = elim info.version [
  | [] ↦ some (record info { version = string })
  | c ∷ version ↦ none
]

-- What a command does to the strings read so far; `none` is `ext::nullopt`.
unfoldable pub execute : ℕ → Bytes → BinaryDependencyInfo → Option BinaryDependencyInfo
unfolding set_version
execute command string info =
    if command == version_command
    then set_version string info
    else if command == input_command
    then some (record info { inputs = info.inputs ++ string ∷ [] })
    else if command == output_command
    then some (record info { outputs = info.outputs ++ string ∷ [] })
    else if command == missing_command
    then some (record info { missing = info.missing ++ string ∷ [] })
    else none

-- Where the loop of `Deserialize` stands: at a command, or in the search for the NUL behind one.
pub data Reader : Type 0 where
  at_command : Reader
  in_string : ℕ → Bytes → Reader

-- The loop of `Deserialize`, a byte at a time.
unfoldable pub read_from : Reader → BinaryDependencyInfo → Bytes → Option BinaryDependencyInfo
unfolding execute
read_from at_command info [] = some info
read_from at_command info (command ∷ rest) = read_from (in_string command []) info rest
read_from (in_string command string) info [] = none
read_from (in_string command string) info (c ∷ rest) =
    let close : Option BinaryDependencyInfo = elim (execute command string info) [
      | none ↦ none
      | some info' ↦ read_from at_command info' rest
    ] in
    let extend = read_from (in_string command (string ++ c ∷ [])) info rest in
    if c == 0 then close else extend

abbrev pub nothing_read : BinaryDependencyInfo
nothing_read = record { version = []; inputs = []; outputs = []; missing = [] }

unfoldable pub deserialize : Bytes → Option BinaryDependencyInfo
unfolding read_from
deserialize contents = read_from at_command nothing_read contents
