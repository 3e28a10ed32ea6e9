-- ===== src/Dependency/Reading.antt =====
-- The loop of `Deserialize` of BinaryDependencyInfo.cpp.
use xcbuild.Prelude.{
  ℕ, true, false, ◌≡◌, refl, ap, ◌∙◌, Option, none, some, [], ◌∷◌, ◌++◌, ◌==◌, append_assoc,
  append-nil, Every,
}
use xcbuild.Prelude.Text.{Bytes}
use xcbuild.Dependency.{BinaryDependencyInfo, execute, at_command, in_string, read_from}

-- No NUL, which ends a string in the file.
abbrev pub IsNulFree : Bytes → Type 0
IsNulFree = Every (λ c. (c == 0) ≡ false)

-- What comes of the command and of all behind it.
unfoldable pub continue_with :
    ℕ → Bytes → BinaryDependencyInfo → Bytes → Option BinaryDependencyInfo
continue_with command string info rest = elim (execute command string info) [
  | none ↦ none
  | some info' ↦ read_from at_command info' rest
]

pub read_from-in_string :
    (command : ℕ) (string more : Bytes) (info : BinaryDependencyInfo) (rest : Bytes)
    → IsNulFree more
    → read_from (in_string command string) info (more ++ 0 ∷ rest)
      ≡ continue_with command (string ++ more) info rest
unfolding read_from continue_with
read_from-in_string command string [] info rest h = rw (append-nil string) refl
read_from-in_string command string (c ∷ more) info rest h = rw h.0 (
    read_from-in_string command (string ++ c ∷ []) more info rest h.1
    ∙ ap (λ s. continue_with command s info rest) (append_assoc string (c ∷ []) more))

pub read_from-byte :
    (command : ℕ) (string : Bytes) (info : BinaryDependencyInfo) (c : ℕ) (rest : Bytes)
    → (c == 0) ≡ false
    → read_from (in_string command string) info (c ∷ rest)
      ≡ read_from (in_string command (string ++ c ∷ [])) info rest
unfolding read_from
read_from-byte command string info c rest n = rw n refl

pub read_from-nul :
    (command : ℕ) (string : Bytes) (info : BinaryDependencyInfo) (c : ℕ) (rest : Bytes)
    → (c == 0) ≡ true
    → read_from (in_string command string) info (c ∷ rest) ≡ continue_with command string info rest
unfolding read_from continue_with
read_from-nul command string info c rest n = rw n refl

pub continue_with-none :
    (command : ℕ) (string : Bytes) (info : BinaryDependencyInfo) (rest : Bytes)
    → execute command string info ≡ none
    → continue_with command string info rest ≡ none
unfolding continue_with
continue_with-none command string info rest e = rw (continue_with, e) refl

pub continue_with-some :
    (command : ℕ) (string : Bytes) (info next : BinaryDependencyInfo) (rest : Bytes)
    → execute command string info ≡ some next
    → continue_with command string info rest ≡ read_from at_command next rest
unfolding continue_with
continue_with-some command string info next rest e = rw (continue_with, e) refl
