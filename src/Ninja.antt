-- ===== src/Ninja.antt =====
-- Libraries/ninja/Sources/Value.cpp and Writer.cpp: the texts of Ninja build files. The buffer of
-- the writer is passed on; `std::to_string` is a parameter.
pub mod Escapes
pub mod Reader
pub mod Lines
pub mod Builds
use xcbuild.Prelude.{
  ℕ, zero, suc, ◌+◌, Bool, true, false, ◌&&◌, ◌||◌, List, [], ◌∷◌, ◌++◌, map, ◌==◌, length, drop,
  if◌then◌else◌,
}
use xcbuild.Prelude.Text.{Bytes, codes, equal}

pub data EscapeMode : Type 0 where
  as_value : EscapeMode
  path_list : EscapeMode
  build_path_list : EscapeMode

-- `Value::Chunk`
pub data Chunk : Type 0 where
  string : Bytes → Chunk
  expression : Bytes → Chunk

abbrev pub Value : Type 0
Value = List Chunk

abbrev pub Binding : Type 0
Binding = Bytes × Value

unfoldable pub is_nil : Bytes → Bool
is_nil [] = true
is_nil (c ∷ s) = false

-- `Value::Chunk::operator==`
unfoldable pub equal_chunk : Chunk → Chunk → Bool
unfolding is_nil equal
equal_chunk (string s) (string t) = (is_nil s && is_nil t) || equal s t
equal_chunk (expression s) (expression t) = (is_nil s && is_nil t) || equal s t
equal_chunk (string s) (expression t) = is_nil s && is_nil t
equal_chunk (expression s) (string t) = is_nil s && is_nil t

-- `Value::operator==`
unfoldable pub equal_value : Value → Value → Bool
unfolding equal_chunk
equal_value [] [] = true
equal_value [] (d ∷ w) = false
equal_value (c ∷ v) [] = false
equal_value (c ∷ v) (d ∷ w) = equal_chunk c d && equal_value v w

-- `Value::operator+`
abbrev pub add : Value → Value → Value
add v w = v ++ w

unfoldable pub is_front : Bytes → Bytes → Bool
is_front [] s = true
is_front (c ∷ search) [] = false
is_front (c ∷ search) (d ∷ s) = if c == d then is_front search s else false

-- The loop of `Replace` from a position, for a search that is not empty.
unfoldable pub replace_from : ℕ → Bytes → Bytes → Bytes → Bytes
unfolding is_front
replace_from zero search by s = s
replace_from (suc fuel) search by [] = []
replace_from (suc fuel) search by (c ∷ s) =
    let behind = replace_from fuel search by (drop (length search) (c ∷ s)) in
    let rest = replace_from fuel search by s in
    if is_front search (c ∷ s) then by ++ behind else c ∷ rest

abbrev pub replace : Bytes → Bytes → Bytes → Bytes
replace s search by = replace_from (length s) search by s

unfoldable pub resolve_chunk : EscapeMode → Chunk → Bytes
unfolding replace_from
resolve_chunk as_value (string s) = replace s (codes "$") (codes "$$")
resolve_chunk path_list (string s) =
    replace (replace s (codes "$") (codes "$$")) (codes " ") (codes "$ ")
resolve_chunk build_path_list (string s) =
    replace (replace (replace s (codes "$") (codes "$$")) (codes " ") (codes "$ ")) (codes ":")
      (codes "$:")
resolve_chunk as_value (expression s) = s
resolve_chunk path_list (expression s) =
    replace (replace s (codes "$ ") (codes "$$ ")) (codes " ") (codes "$ ")
resolve_chunk build_path_list (expression s) =
    replace
      (replace (replace (replace s (codes "$ ") (codes "$$ ")) (codes " ") (codes "$ "))
        (codes "$:") (codes "$$:"))
      (codes ":") (codes "$:")

unfoldable pub resolve : EscapeMode → Value → Bytes
unfolding resolve_chunk
resolve mode [] = []
resolve mode (chunk ∷ v) = resolve_chunk mode chunk ++ resolve mode v

abbrev pub newline : Bytes → Bytes
newline buffer = buffer ++ 10 ∷ []

unfoldable pub indentation : ℕ → Bytes
indentation zero = []
indentation (suc indent) = b' ' ∷ b' ' ∷ indentation indent

unfoldable pub write_binding : Binding → ℕ → Bytes → Bytes
unfolding indentation resolve
write_binding b indent buffer =
    buffer ++ indentation indent ++ b.0 ++ codes " = " ++ resolve as_value b.1 ++ 10 ∷ []

unfoldable pub write_bindings : List Binding → Bytes → Bytes
unfolding write_binding
write_bindings [] buffer = buffer
write_bindings (b ∷ bindings) buffer = write_bindings bindings (write_binding b 1 buffer)

unfoldable pub command_line : Bytes → Bytes → Bytes
command_line name [] = name
command_line name (c ∷ remaining) = name ++ b' ' ∷ c ∷ remaining

-- `command`
unfoldable pub command : Bytes → Bytes → List Binding → Bytes → Bytes
unfolding command_line write_bindings
command name remaining bindings buffer =
    newline (write_bindings bindings (newline (buffer ++ command_line name remaining)))

abbrev pub comment : Bytes → Bytes → Bytes
comment text buffer = buffer ++ codes "# " ++ text ++ 10 ∷ []

unfoldable pub subninja : Value → Bytes → Bytes
unfolding command resolve
subninja path buffer = command (codes "subninja") (resolve path_list path) [] buffer

unfoldable pub include : Value → Bytes → Bytes
unfolding command resolve
include path buffer = command (codes "include") (resolve path_list path) [] buffer

-- A space and a path, for each path.
unfoldable pub spaced : EscapeMode → List Value → Bytes
unfolding resolve
spaced mode [] = []
spaced mode (path ∷ paths) = b' ' ∷ (resolve mode path ++ spaced mode paths)

-- A space between the paths only.
unfoldable pub separated : EscapeMode → List Value → Bytes
unfolding spaced resolve
separated mode [] = []
separated mode (path ∷ paths) = resolve mode path ++ spaced mode paths

unfoldable pub default_paths : List Value → Bytes → Bytes
unfolding command separated
default_paths paths buffer = command (codes "default") (separated path_list paths) [] buffer

unfoldable pub pool : (ℕ → Bytes) → Bytes → ℕ → Bytes → Bytes
unfolding command
pool to_string name depth buffer =
    command (codes "pool") name ((codes "depth", string (to_string depth) ∷ []) ∷ []) buffer

unfoldable pub rule : Bytes → Value → List Binding → Bytes → Bytes
unfolding command
rule name line bindings buffer =
    command (codes "rule") name ((codes "command", line) ∷ bindings) buffer

-- A mark and its paths, if there are any.
unfoldable pub marked : Bytes → List Value → Bytes
unfolding spaced
marked mark [] = []
marked mark (path ∷ paths) = mark ++ spaced build_path_list (path ∷ paths)

-- What stands behind the outputs in the line of `build`.
unfoldable pub build_sources : Bytes → List Value → List Value → List Value → Bytes
unfolding spaced marked
build_sources name inputs dependencies orders =
    b':'
    ∷ b' '
    ∷ (name
        ++ spaced build_path_list inputs
        ++ marked (codes " |") dependencies
        ++ marked (codes " ||") orders)

unfoldable pub build :
    List Value → Bytes → List Value → List Binding → List Value → List Value → Bytes → Bytes
unfolding command separated build_sources
build outputs name inputs bindings dependencies orders buffer =
    command (codes "build")
      (separated build_path_list outputs ++ build_sources name inputs dependencies orders) bindings
      buffer
