-- ===== src/Dependency/Refusals.antt =====
-- What `Deserialize` of BinaryDependencyInfo.cpp accepts and refuses.
use xcbuild.Prelude.{
  ◌⊎◌, ℕ, Bool, true, false, ◌≡◌, refl, sym, ◌∙◌, none, some, List, [], ◌∷◌, ◌++◌, ◌==◌,
  if◌then◌else◌, inl, inr, Bool-cases, Option-cases, Every-append,
}
use xcbuild.Prelude.Text.{Bytes}
use xcbuild.Dependency.{
  BinaryDependencyInfo, version_command, input_command, missing_command, output_command, serialize,
  set_version, execute, Reader, at_command, in_string, read_from, deserialize, nothing_read,
}
use xcbuild.Dependency.Reading.{
  IsNulFree, read_from-byte, read_from-nul, continue_with-none, continue_with-some,
}
use xcbuild.Dependency.RoundTrip.{HasStrings, deserialize-serialize}

-- The cases of `execute`, each with what the command adds.
data Executes (string : Bytes) (info info' : BinaryDependencyInfo) : Type 0 where
  version_set : info' ≡ record info { version = string } → Executes string info info'
  input_added :
      info' ≡ record info { inputs = info.inputs ++ string ∷ [] } → Executes string info info'
  output_added :
      info' ≡ record info { outputs = info.outputs ++ string ∷ [] } → Executes string info info'
  missing_added :
      info' ≡ record info { missing = info.missing ++ string ∷ [] } → Executes string info info'

some_inj : {A : Type 0} {a b : A} → some a ≡ some b → b ≡ a
some_inj h = cc h

set_version-some :
    (string version : Bytes) (inputs outputs missing : List Bytes) (info' : BinaryDependencyInfo)
    → set_version string
        (record { version = version; inputs = inputs; outputs = outputs; missing = missing })
      ≡ some info'
    → info' ≡ record { version = string; inputs = inputs; outputs = outputs; missing = missing }
unfolding set_version
set_version-some string [] inputs outputs missing info' h = some_inj h
set_version-some string (c ∷ version) inputs outputs missing info' h = absurd (cc h)

if-cases : {A : Type 0} (b : Bool) {x y z : A} → (if b then x else y) ≡ z → (x ≡ z) ⊎ (y ≡ z)
if-cases true h = inl h
if-cases false h = inr h

execute-Executes :
    (command : ℕ) (string : Bytes) (info info' : BinaryDependencyInfo)
    → execute command string info ≡ some info'
    → Executes string info info'
unfolding execute
execute-Executes command string info info' h = elim (if-cases (command == version_command) h) [
  | inl a ↦
      version_set
        (set_version-some string info.version info.inputs info.outputs info.missing info' a)
  | inr a ↦ elim (if-cases (command == input_command) a) [
    | inl b ↦ input_added (some_inj b)
    | inr b ↦ elim (if-cases (command == output_command) b) [
      | inl c ↦ output_added (some_inj c)
      | inr c ↦ elim (if-cases (command == missing_command) c) [
        | inl d ↦ missing_added (some_inj d)
        | inr d ↦ absurd (cc d)
      ]
    ]
  ]
]

execute-HasStrings :
    (string : Bytes) (info info' : BinaryDependencyInfo)
    → IsNulFree string
    → HasStrings info
    → Executes string info info'
    → HasStrings info'
execute-HasStrings string info info' f h (version_set e) = rw e (record {
  version_free = f;
  inputs_free = h.inputs_free;
  outputs_free = h.outputs_free;
  missing_free = h.missing_free;
})
execute-HasStrings string info info' f h (input_added e) = rw e (record {
  version_free = h.version_free;
  inputs_free = Every-append IsNulFree info.inputs (string ∷ []) h.inputs_free (f, tt);
  outputs_free = h.outputs_free;
  missing_free = h.missing_free;
})
execute-HasStrings string info info' f h (output_added e) = rw e (record {
  version_free = h.version_free;
  inputs_free = h.inputs_free;
  outputs_free = Every-append IsNulFree info.outputs (string ∷ []) h.outputs_free (f, tt);
  missing_free = h.missing_free;
})
execute-HasStrings string info info' f h (missing_added e) = rw e (record {
  version_free = h.version_free;
  inputs_free = h.inputs_free;
  outputs_free = h.outputs_free;
  missing_free = Every-append IsNulFree info.missing (string ∷ []) h.missing_free (f, tt);
})

-- The string read so far has no NUL.
IsReading : Reader → Type 0
IsReading at_command = Unit
IsReading (in_string command string) = IsNulFree string

read_from-HasStrings :
    (reader : Reader) (info info' : BinaryDependencyInfo) (contents : Bytes)
    → IsReading reader
    → HasStrings info
    → read_from reader info contents ≡ some info'
    → HasStrings info'
unfolding read_from IsReading
read_from-HasStrings at_command info info' [] r h e = rw (some_inj e) h
read_from-HasStrings at_command info info' (command ∷ rest) r h e =
    read_from-HasStrings (in_string command []) info info' rest tt h e
read_from-HasStrings (in_string command string) info info' [] r h e = absurd (cc e)
read_from-HasStrings (in_string command string) info info' (c ∷ rest) r h e =
    elim (Bool-cases (c == 0)) [
      | inr n ↦
          read_from-HasStrings (in_string command (string ++ c ∷ [])) info info' rest
            (Every-append (λ b. (b == 0) ≡ false) string (c ∷ []) r (n, tt)) h
            (sym (read_from-byte command string info c rest n) ∙ e)
      | inl z ↦ elim (Option-cases (execute command string info)) [
        | inl x ↦ absurd (
            cc (
              e,
              read_from-nul command string info c rest z,
              continue_with-none command string info rest x,
            ))
        | inr (next, x) ↦
            read_from-HasStrings at_command next info' rest tt
              (execute-HasStrings string info next r h
                (execute-Executes command string info next x))
              (sym (continue_with-some command string info next rest x)
                ∙ sym (read_from-nul command string info c rest z)
                ∙ e)
      ]
    ]

-- What `Deserialize` accepts, whatever its bytes, has only strings without NUL, so that it is read
-- back from what `serialize` makes of it.
pub deserialize-deserialize :
    (contents : Bytes) (info : BinaryDependencyInfo)
    → deserialize contents ≡ some info
    → HasStrings info × (deserialize (serialize info) ≡ some info)
unfolding deserialize IsReading
deserialize-deserialize contents info h =
    let strings =
      read_from-HasStrings at_command nothing_read info contents tt
        (record { version_free = tt; inputs_free = tt; outputs_free = tt; missing_free = tt }) h in
    (strings, deserialize-serialize info strings)

-- From anywhere in the loop, contents whose last byte is no NUL are refused.
read_from-unterminated :
    (reader : Reader) (info : BinaryDependencyInfo) (contents : Bytes) (c : ℕ)
    → (c == 0) ≡ false
    → read_from reader info (contents ++ c ∷ []) ≡ none
unfolding read_from
read_from-unterminated at_command info [] c n = refl
read_from-unterminated at_command info (command ∷ rest) c n =
    read_from-unterminated (in_string command []) info rest c n
read_from-unterminated (in_string command string) info [] c n = rw n refl
read_from-unterminated (in_string command string) info (b ∷ rest) c n = elim (Bool-cases (b == 0)) [
  | inr f ↦
      read_from-byte command string info b (rest ++ c ∷ []) f
      ∙ read_from-unterminated (in_string command (string ++ b ∷ [])) info rest c n
  | inl z ↦
      read_from-nul command string info b (rest ++ c ∷ []) z
      ∙ elim (Option-cases (execute command string info)) [
        | inl x ↦ continue_with-none command string info (rest ++ c ∷ []) x
        | inr (next, x) ↦
            continue_with-some command string info next (rest ++ c ∷ []) x
            ∙ read_from-unterminated at_command next rest c n
      ]
]

-- `Deserialize` refuses contents that end in a byte other than NUL, wherever the last string began.
pub deserialize_unterminated :
    (contents : Bytes) (c : ℕ) → (c == 0) ≡ false → deserialize (contents ++ c ∷ []) ≡ none
unfolding deserialize
deserialize_unterminated contents c n = read_from-unterminated at_command nothing_read contents c n
