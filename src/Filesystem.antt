-- ===== src/Filesystem.antt =====
-- Libraries/libutil/Sources/MemoryFilesystem.cpp, with the operations that it takes from
-- Sources/Filesystem.cpp. The tree has files and directories, as its constructors make no other
-- entry. A file system is the children of its root, whose name is empty. An operation that changes
-- the tree returns the new one, and `none` where the program returns false, which then leaves the
-- tree as it was.
pub mod Lookup
pub mod Names
pub mod Writes
pub mod Frames
pub mod Operations
pub mod Ranges
pub mod Successes
pub mod Removal
use xcbuild.Prelude.{
  ℕ, zero, suc, ◌+◌, ◌-◌, Bool, true, false, not, Option, none, some, List, [], ◌∷◌, ◌++◌, ◌==◌,
  if◌then◌else◌, length, take, drop,
}
use xcbuild.Prelude.Text.{Bytes, equal}
use xcbuild.Path.{is_absolute, is_separator, normalized, separator}

mutual
  pub data Entry : Type 0 where
    file : Bytes → Bytes → Entry
    directory : Bytes → Entries → Entry

  pub data Entries : Type 0 where
    nil : Entries
    cons : Entry → Entries → Entries

-- What stands at a path.
pub data Found : Type 0 where
  missing : Found
  found_file : Bytes → Found
  found_directory : Entries → Found

-- `Entry::child`: the first entry of that name.
unfoldable pub child : Bytes → Entries → Found
unfolding equal
child name nil = missing
child name (cons (file n contents) rest) =
    if equal n name then found_file contents else child name rest
child name (cons (directory n children) rest) =
    if equal n name then found_directory children else child name rest

-- `emplace_back`
unfoldable pub push_back : Entries → Entry → Entries
push_back nil e = cons e nil
push_back (cons x rest) e = cons x (push_back rest e)

-- New contents for the file that `child` finds.
unfoldable pub set_contents : Bytes → Bytes → Entries → Entries
unfolding equal
set_contents name contents nil = nil
set_contents name contents (cons (file n old) rest) =
    if equal n name
    then cons (file n contents) rest
    else cons (file n old) (set_contents name contents rest)
set_contents name contents (cons (directory n children) rest) =
    if equal n name
    then cons (directory n children) rest
    else cons (directory n children) (set_contents name contents rest)

-- `erase(remove_if(name))`
unfoldable pub erase : Bytes → Entries → Entries
unfolding equal
erase name nil = nil
erase name (cons (file n contents) rest) =
    if equal n name then erase name rest else cons (file n contents) (erase name rest)
erase name (cons (directory n children) rest) =
    if equal n name then erase name rest else cons (directory n children) (erase name rest)

-- A step into the directory that `child` finds; `none` if there is none, or the step fails.
unfoldable pub enter : Bytes → (Entries → Option Entries) → Entries → Option Entries
unfolding equal
enter name step nil = none
enter name step (cons (file n contents) rest) =
    let later : Option Entries = elim (enter name step rest) [
      | none ↦ none
      | some r ↦ some (cons (file n contents) r)
    ] in
    if equal n name then none else later
enter name step (cons (directory n children) rest) =
    let here : Option Entries = elim (step children) [
      | none ↦ none
      | some c ↦ some (cons (directory n c) rest)
    ] in
    let later : Option Entries = elim (enter name step rest) [
      | none ↦ none
      | some r ↦ some (cons (directory n children) r)
    ] in
    if equal n name then here else later

-- The same where the name may be empty, which stays in the directory.
unfoldable pub enter_at : Bytes → (Entries → Option Entries) → Entries → Option Entries
unfolding enter
enter_at [] step children = step children
enter_at (c ∷ name) step children = enter (c ∷ name) step children

-- The callback of `WalkPath`: the parent's children, the name, what stands there.
abbrev pub Callback : Type 0
Callback = Entries → Bytes → Found → Option Entries

-- The entry of a name; the empty name is the directory itself.
unfoldable pub entry_at : Entries → Bytes → Found
unfolding child
entry_at children [] = found_directory children
entry_at children (c ∷ name) = child (c ∷ name) children

-- `WalkPath` from a directory along the names of the path.
unfoldable pub walk : Bool → Callback → List Bytes → Entries → Option Entries
unfolding entry_at enter_at
walk all cb [] children = none
walk all cb (name ∷ []) children = cb children name (entry_at children name)
walk false cb (name ∷ next ∷ names) children = enter_at name (walk false cb (next ∷ names)) children
walk true cb (name ∷ next ∷ names) children = elim (cb children name (entry_at children name)) [
  | none ↦ none
  | some children' ↦ enter_at name (walk true cb (next ∷ names)) children'
]

-- `WalkPath` with a callback that only looks.
unfoldable pub locate : List Bytes → Entries → Found
unfolding entry_at
locate [] children = missing
locate (name ∷ []) children = entry_at children name
locate (name ∷ next ∷ names) children = elim (entry_at children name) [
  | missing ↦ missing
  | found_file contents ↦ missing
  | found_directory inner ↦ locate (next ∷ names) inner
]

-- The parts of the text between separators.
unfoldable pub split_names : Bytes → Bytes → List Bytes
split_names name [] = name ∷ []
split_names name (c ∷ cs) =
    let close = name ∷ split_names [] cs in
    let extend = split_names (name ++ c ∷ []) cs in if is_separator c then close else extend

-- The names behind the root of an absolute path, normalized; none for a relative path.
unfoldable pub names_of : Bytes → List Bytes
unfolding is_absolute normalized split_names
names_of path = if is_absolute path then split_names [] (drop 1 (normalized path)) else []

unfoldable pub exists : Bytes → Entries → Bool
unfolding names_of locate
exists path root = elim (locate (names_of path) root) [
  | missing ↦ false
  | found_file contents ↦ true
  | found_directory children ↦ true
]

unfoldable pub create_callback : Callback
unfolding push_back
create_callback children name missing = some (push_back children (file name []))
create_callback children name (found_file contents) = some children
create_callback children name (found_directory inner) = none

unfoldable pub create_file : Bytes → Entries → Option Entries
unfolding names_of walk create_callback
create_file path root = walk false create_callback (names_of path) root

-- The bytes that `read` returns: from the offset, and up to `end`. Where these leave the file, or
-- stand in the wrong order, the program's iterators are invalid; here only the bytes in range stay.
unfoldable pub read_range : ℕ → Option ℕ → Bytes → Bytes
read_range zero none from = from
read_range (suc offset) none from = drop (suc offset) (take (length from - suc offset) from)
read_range offset (some n) from = drop offset (take (offset + n) from)

unfoldable pub read : Bytes → ℕ → Option ℕ → Entries → Option Bytes
unfolding names_of locate read_range
read path offset n root = elim (locate (names_of path) root) [
  | found_file contents ↦ some (read_range offset n contents)
  | missing ↦ none
  | found_directory children ↦ none
]

unfoldable pub write_callback : Bytes → Callback
unfolding push_back set_contents
write_callback contents children name missing = some (push_back children (file name contents))
write_callback contents children name (found_file old) = some (set_contents name contents children)
write_callback contents children name (found_directory inner) = none

unfoldable pub write : Bytes → Bytes → Entries → Option Entries
unfolding names_of walk write_callback
write contents path root = walk false (write_callback contents) (names_of path) root

-- `Filesystem::copyFile`
unfoldable pub copy_file : Bytes → Bytes → Entries → Option Entries
unfolding read write
copy_file from to root = elim (read from 0 none root) [
  | none ↦ none
  | some contents ↦ write contents to root
]

unfoldable pub remove_file_callback : Callback
unfolding erase
remove_file_callback children name (found_file contents) = some (erase name children)
remove_file_callback children name missing = none
remove_file_callback children name (found_directory inner) = none

unfoldable pub remove_file : Bytes → Entries → Option Entries
unfolding names_of walk remove_file_callback
remove_file path root = walk false remove_file_callback (names_of path) root

unfoldable pub directory_callback : Callback
unfolding push_back
directory_callback children name missing = some (push_back children (directory name nil))
directory_callback children name (found_directory inner) = some children
directory_callback children name (found_file contents) = none

unfoldable pub create_directory : Bytes → Bool → Entries → Option Entries
unfolding names_of walk directory_callback
create_directory path recursive root = walk recursive directory_callback (names_of path) root

unfoldable pub is_nil : Entries → Bool
is_nil nil = true
is_nil (cons e rest) = false

unfoldable pub remove_directory_callback : Bool → Callback
unfolding erase is_nil
remove_directory_callback recursive children name (found_directory inner) =
    if recursive
    then some (erase name children)
    else if is_nil inner
    then some (erase name children)
    else none
remove_directory_callback recursive children name missing = none
remove_directory_callback recursive children name (found_file contents) = none

unfoldable pub remove_directory : Bytes → Bool → Entries → Option Entries
unfolding names_of walk remove_directory_callback
remove_directory path recursive root =
    walk false (remove_directory_callback recursive) (names_of path) root

-- `resolvePath`: the empty text where nothing is.
unfoldable pub resolve_path : Bytes → Entries → Bytes
unfolding exists normalized
resolve_path path root = if exists path root then normalized path else []
