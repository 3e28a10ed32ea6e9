-- ===== src/Dependency/Makefile/Names.antt =====
-- The loop of `Deserialize` of MakefileDependencyInfo.cpp over the bytes of a name.
use xcbuild.Prelude.{
  ℕ, Bool, true, false, not, ◌||◌, ◌≡◌, ◌≢◌, refl, sym, ap, ◌∙◌, none, some, List, [], ◌∷◌, ◌++◌,
  ◌==◌, arith, inl, inr, Bool-cases, append_assoc, append-nil, Every,
}
use xcbuild.Prelude.Text.{Bytes, drop_back, drop_back-concat}
use xcbuild.Escape.{makefile, is_escaped_in_makefile}
use xcbuild.Dependency.Makefile.{
  DependencyInfo, State, begin, comment, output, inputs_of, Machine, special, ordinary, round,
  advance, run,
}

-- A byte that is read back as it was written: no line end, `:`, `$` or backslash.
abbrev pub is_kept : ℕ → Bool
is_kept c = not ((c == 10) || (c == b':') || (c == b'$') || (c == b'\\'))

-- A file name of such bytes, and not empty.
abbrev pub IsKept : Bytes → Type 0
IsKept name = (name ≢ []) × Every (λ c. is_kept c ≡ true) name

abbrev pub machine : State → Bytes → DependencyInfo → List DependencyInfo → Bool → Machine
machine s current info infos escaped = record {
  state = s;
  current = current;
  info = info;
  infos = infos;
  escaped = escaped;
}

-- A state in the middle of a name.
abbrev pub InName : State → Type 0
InName begin = ⊥
InName comment = ⊥
InName output = Unit
InName inputs_of = Unit

plain-round :
    (s : State) (current : Bytes) (info : DependencyInfo) (infos : List DependencyInfo) (c : ℕ)
    → InName s
    → is_kept c ≡ true
    → is_escaped_in_makefile c ≡ false
    → round c (machine s current info infos false)
      ≡ some (machine s (current ++ c ∷ []) info infos false)
unfolding round is_escaped_in_makefile ordinary
plain-round begin current info infos c i k e = absurd i
plain-round comment current info infos c i k e = absurd i
plain-round output current info infos c i k e = ground arith
plain-round inputs_of current info infos c i k e = ground arith

escaped-round :
    (s : State) (current : Bytes) (info : DependencyInfo) (infos : List DependencyInfo) (c : ℕ)
    → InName s
    → is_kept c ≡ true
    → is_escaped_in_makefile c ≡ true
    → round c (machine s current info infos true)
      ≡ some (machine s (drop_back current ++ c ∷ []) info infos true)
unfolding round is_escaped_in_makefile special
escaped-round begin current info infos c i k e = absurd i
escaped-round comment current info infos c i k e = absurd i
escaped-round output current info infos c i k e = ground arith
escaped-round inputs_of current info infos c i k e = ground arith

backslash-round :
    (s : State) (current : Bytes) (info : DependencyInfo) (infos : List DependencyInfo)
    → InName s
    → round b'\\' (machine s current info infos false)
      ≡ some (machine s (current ++ b'\\' ∷ []) info infos false)
unfolding round ordinary
backslash-round begin current info infos i = absurd i
backslash-round comment current info infos i = absurd i
backslash-round output current info infos i = refl
backslash-round inputs_of current info infos i = refl

run-round :
    (m m' : Machine) (c : ℕ) (rest : Bytes)
    → round c m ≡ some m'
    → run m (c ∷ rest) ≡ run (advance c m') rest
unfolding run
run-round m m' c rest h = rw (run, h) refl

no_backslash : (c : ℕ) → is_kept c ≡ true → (c == b'\\') ≡ false
no_backslash c k = ground arith

-- A byte of a name, with its escape.
run-byte :
    (s : State) (current : Bytes) (info : DependencyInfo) (infos : List DependencyInfo) (c : ℕ)
    (rest : Bytes)
    → InName s
    → is_kept c ≡ true
    → run (machine s current info infos false) (makefile (c ∷ []) ++ rest)
      ≡ run (machine s (current ++ c ∷ []) info infos false) rest
unfolding makefile
run-byte s current info infos c rest i k = elim (Bool-cases (is_escaped_in_makefile c)) [
  | inr e ↦ rw e (
      run-round (machine s current info infos false)
        (machine s (current ++ c ∷ []) info infos false) c rest
        (plain-round s current info infos c i k e)
      ∙ ap (λ b. run (machine s (current ++ c ∷ []) info infos b) rest) (no_backslash c k))
  | inl e ↦ rw e (
      run-round (machine s current info infos false)
        (machine s (current ++ b'\\' ∷ []) info infos false) b'\\' (c ∷ rest)
        (backslash-round s current info infos i)
      ∙ run-round (machine s (current ++ b'\\' ∷ []) info infos true)
          (machine s (drop_back (current ++ b'\\' ∷ []) ++ c ∷ []) info infos true) c rest
          (escaped-round s (current ++ b'\\' ∷ []) info infos c i k e)
      ∙ ap (λ b. run (machine s (drop_back (current ++ b'\\' ∷ []) ++ c ∷ []) info infos b) rest)
          (no_backslash c k)
      ∙ ap (λ t. run (machine s (t ++ c ∷ []) info infos false) rest)
          (drop_back-concat current b'\\'))
]

makefile_cons :
    (c : ℕ) (name rest : Bytes)
    → makefile (c ∷ name) ++ rest ≡ makefile (c ∷ []) ++ (makefile name ++ rest)
unfolding makefile
makefile_cons c name rest = elim (Bool-cases (is_escaped_in_makefile c)) [
  | inl e ↦ rw e refl
  | inr e ↦ rw e refl
]

pub run-name :
    (s : State) (current : Bytes) (info : DependencyInfo) (infos : List DependencyInfo)
    (name rest : Bytes)
    → InName s
    → Every (λ c. is_kept c ≡ true) name
    → run (machine s current info infos false) (makefile name ++ rest)
      ≡ run (machine s (current ++ name) info infos false) rest
run-name s current info infos [] rest i k =
    unfold makefile in ap (λ t. run (machine s t info infos false) rest) (sym (append-nil current))
run-name s current info infos (c ∷ name) rest i k =
    ap (run (machine s current info infos false)) (makefile_cons c name rest)
    ∙ run-byte s current info infos c (makefile name ++ rest) i k.0
    ∙ run-name s (current ++ c ∷ []) info infos name rest i k.1
    ∙ ap (λ t. run (machine s t info infos false) rest) (append_assoc current (c ∷ []) name)

-- The first byte of a rule begins its output, as if a name were under way.
round-begin :
    (info : DependencyInfo) (infos : List DependencyInfo) (c : ℕ)
    → is_kept c ≡ true
    → is_escaped_in_makefile c ≡ false
    → round c (machine begin [] info infos false) ≡ round c (machine output [] info infos false)
unfolding round is_escaped_in_makefile ordinary
round-begin info infos c k e = ground arith

run-congruence :
    (m m' : Machine) (c : ℕ) (rest : Bytes)
    → round c m ≡ round c m'
    → run m (c ∷ rest) ≡ run m' (c ∷ rest)
unfolding run
run-congruence m m' c rest h =
    ap (λ o. elim o [ none ↦ none | some next ↦ run (advance c next) rest ]) h

pub run-begin :
    (info : DependencyInfo) (infos : List DependencyInfo) (name rest : Bytes)
    → IsKept name
    → run (machine begin [] info infos false) (makefile name ++ rest)
      ≡ run (machine output [] info infos false) (makefile name ++ rest)
unfolding makefile round ordinary
run-begin info infos [] rest k = absurd (k.0 refl)
run-begin info infos (c ∷ name) rest k = elim (Bool-cases (is_escaped_in_makefile c)) [
  | inr e ↦ rw e (
      run-congruence (machine begin [] info infos false) (machine output [] info infos false) c
        (makefile name ++ rest) (round-begin info infos c k.1.0 e))
  | inl e ↦ rw e (
      run-congruence (machine begin [] info infos false) (machine output [] info infos false) b'\\'
        (c ∷ (makefile name ++ rest)) refl)
]
