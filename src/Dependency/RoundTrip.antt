-- ===== src/Dependency/RoundTrip.antt =====
-- `serialize` and `Deserialize` of BinaryDependencyInfo.cpp, one after the other.
use xcbuild.Prelude.{
  ℕ, ◌≡◌, refl, ap, ◌∙◌, some, List, [], ◌∷◌, ◌++◌, append_assoc, append-nil, Every,
}
use xcbuild.Prelude.Text.{Bytes}
use xcbuild.Dependency.{
  BinaryDependencyInfo, version_command, input_command, missing_command, output_command,
  write_command, write_commands, write_version, serialize, set_version, execute, at_command,
  read_from, deserialize, nothing_read,
}
use xcbuild.Dependency.Reading.{IsNulFree, continue_with, read_from-in_string}

read_from-write_command :
    (command : ℕ) (string rest : Bytes) (info info' : BinaryDependencyInfo)
    → IsNulFree string
    → execute command string info ≡ some info'
    → read_from at_command info (write_command command string rest)
      ≡ read_from at_command info' rest
unfolding read_from write_command continue_with
read_from-write_command command string rest info info' h e =
    read_from-in_string command [] string info rest h ∙ rw (continue_with, e) refl

read_from-inputs :
    (strings : List Bytes) (rest : Bytes) (info : BinaryDependencyInfo)
    → Every IsNulFree strings
    → read_from at_command info (write_commands input_command strings rest)
      ≡ read_from at_command (record info { inputs = info.inputs ++ strings }) rest
unfolding write_commands execute
read_from-inputs [] rest info h = rw (append-nil info.inputs) refl
read_from-inputs (s ∷ strings) rest info h =
    let info' : BinaryDependencyInfo = record info { inputs = info.inputs ++ s ∷ [] } in
    read_from-write_command input_command s (write_commands input_command strings rest) info info'
      h.0 refl
    ∙ read_from-inputs strings rest info' h.1
    ∙ ap (λ t. read_from at_command (record info { inputs = t }) rest)
        (append_assoc info.inputs (s ∷ []) strings)

read_from-outputs :
    (strings : List Bytes) (rest : Bytes) (info : BinaryDependencyInfo)
    → Every IsNulFree strings
    → read_from at_command info (write_commands output_command strings rest)
      ≡ read_from at_command (record info { outputs = info.outputs ++ strings }) rest
unfolding write_commands execute
read_from-outputs [] rest info h = rw (append-nil info.outputs) refl
read_from-outputs (s ∷ strings) rest info h =
    let info' : BinaryDependencyInfo = record info { outputs = info.outputs ++ s ∷ [] } in
    read_from-write_command output_command s (write_commands output_command strings rest) info info'
      h.0 refl
    ∙ read_from-outputs strings rest info' h.1
    ∙ ap (λ t. read_from at_command (record info { outputs = t }) rest)
        (append_assoc info.outputs (s ∷ []) strings)

read_from-missing :
    (strings : List Bytes) (rest : Bytes) (info : BinaryDependencyInfo)
    → Every IsNulFree strings
    → read_from at_command info (write_commands missing_command strings rest)
      ≡ read_from at_command (record info { missing = info.missing ++ strings }) rest
unfolding write_commands execute
read_from-missing [] rest info h = rw (append-nil info.missing) refl
read_from-missing (s ∷ strings) rest info h =
    let info' : BinaryDependencyInfo = record info { missing = info.missing ++ s ∷ [] } in
    read_from-write_command missing_command s (write_commands missing_command strings rest) info
      info' h.0 refl
    ∙ read_from-missing strings rest info' h.1
    ∙ ap (λ t. read_from at_command (record info { missing = t }) rest)
        (append_assoc info.missing (s ∷ []) strings)

read_from-version :
    (version rest : Bytes)
    → IsNulFree version
    → read_from at_command nothing_read (write_version version rest)
      ≡ read_from at_command (record nothing_read { version = version }) rest
unfolding write_version execute set_version
read_from-version [] rest h = refl
read_from-version (c ∷ version) rest h =
    read_from-write_command version_command (c ∷ version) rest nothing_read
      (record nothing_read { version = c ∷ version }) h refl

-- The strings are without NUL.
pub record HasStrings (info : BinaryDependencyInfo) : Type 0 where
  pub version_free : IsNulFree info.version
  pub inputs_free : Every IsNulFree info.inputs
  pub outputs_free : Every IsNulFree info.outputs
  pub missing_free : Every IsNulFree info.missing

-- Dependency information whose strings are without NUL is read back from what `serialize` writes.
pub deserialize-serialize :
    (info : BinaryDependencyInfo) → HasStrings info → deserialize (serialize info) ≡ some info
unfolding deserialize serialize read_from
deserialize-serialize info h =
    let missing_text = write_commands missing_command info.missing [] in
    let inputs_text = write_commands input_command info.inputs missing_text in
    read_from-version info.version (write_commands output_command info.outputs inputs_text)
      h.version_free
    ∙ read_from-outputs info.outputs inputs_text (record nothing_read { version = info.version })
        h.outputs_free
    ∙ read_from-inputs info.inputs missing_text
        (record nothing_read { version = info.version; outputs = info.outputs }) h.inputs_free
    ∙ read_from-missing info.missing []
        (record nothing_read {
          version = info.version;
          outputs = info.outputs;
          inputs = info.inputs;
        })
        h.missing_free
