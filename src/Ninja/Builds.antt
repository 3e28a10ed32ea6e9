-- ===== src/Ninja/Builds.antt =====
-- The line of `build` of Writer.cpp of ninja, read back.
use xcbuild.Prelude.{
  ℕ, ◌≤◌, Bool, true, false, ◌||◌, ◌≡◌, refl, ap, sym, subst, ◌∙◌, Option, none, some, List, [],
  ◌∷◌, ◌++◌, append_assoc, append-nil, ◌==◌, length, drop, arith, Every, if◌then◌else◌,
  length-append,
}
use xcbuild.Prelude.Text.{Bytes, codes}
use xcbuild.Ninja.{
  build_path_list, Value, Binding, string, is_front, resolve, spaced, separated, marked,
  build_sources, newline, write_binding, write_bindings, command_line, command, build,
}
use xcbuild.Ninja.Reader.{read_path, IsPathText, read_path-resolve}
use xcbuild.Ninja.Lines.{strings, read_paths, is_behind_paths, spaced_lem, read_paths-spaced}

-- What a build line says.
pub record Build : Type 0 where
  pub outputs : List Bytes
  pub name : Bytes
  pub inputs : List Bytes
  pub dependencies : List Bytes
  pub orders : List Bytes

abbrev pub is_name_end : ℕ → Bool
is_name_end c = (c == b' ') || (c == 10)

unfoldable pub read_name : Bytes → Bytes × Bytes
read_name [] = ([], [])
read_name (c ∷ s) =
    let (name, rest) = read_name s in if is_name_end c then ([], c ∷ s) else (c ∷ name, rest)

unfoldable pub read_marked : Bytes → Bytes → Option (List Bytes × Bytes)
unfolding is_front read_paths
read_marked mark s =
    if is_front (mark ++ b' ' ∷ []) s
    then read_paths (length s) (drop (length mark) s)
    else some ([], s)

unfoldable pub read_sources : List Bytes → Bytes → Option (Build × Bytes)
unfolding read_paths read_marked read_name
read_sources outputs s =
    let (name, s1) = read_name s in
    elim (read_paths (length s1) s1) [
      | none ↦ none
      | some (inputs, s2) ↦ elim (read_marked (codes " |") s2) [
        | none ↦ none
        | some (dependencies, s3) ↦ elim (read_marked (codes " ||") s3) [
          | none ↦ none
          | some (orders, s4) ↦ some (
            record {
              outputs = outputs;
              name = name;
              inputs = inputs;
              dependencies = dependencies;
              orders = orders;
            },
            s4,
          )
        ]
      ]
    ]

-- A build line behind its word, and what is left of it.
unfoldable pub read_build : Bytes → Option (Build × Bytes)
unfolding read_path read_paths read_sources is_front
read_build s = elim (read_path false s) [
  | none ↦ none
  | some (output, s1) ↦ elim (read_paths (length s1) s1) [
    | none ↦ none
    | some (outputs, s2) ↦
        if is_front (codes ": ") s2 then read_sources (output ∷ outputs) (drop 2 s2) else none
  ]
]

-- The bytes that the rule's name has none of.
abbrev pub IsNameText : Bytes → Type 0
IsNameText s = Every (λ c. is_name_end c ≡ false) s

abbrev is_behind_name : Bytes → Bool
is_behind_name [] = false
is_behind_name (c ∷ s) = is_name_end c

read_name-append :
    (name rest : Bytes)
    → IsNameText name
    → is_behind_name rest ≡ true
    → read_name (name ++ rest) ≡ (name, rest)
unfolding read_name
read_name-append [] [] n h = absurd (cc h)
read_name-append [] (c ∷ rest) n h = ground arith
read_name-append (c ∷ name) rest (q, n) h = rw (q, read_name-append name rest n h) refl

length-spaced :
    (texts : List Bytes) (rest : Bytes)
    → length texts ≤ length (spaced build_path_list (strings texts) ++ rest)
unfolding spaced
length-spaced [] rest = omega arith
length-spaced (t ∷ texts) rest =
    let one = resolve build_path_list (string t ∷ []) in
    omega (
      arith,
      length-spaced texts rest,
      length-append one (spaced build_path_list (strings texts)),
      length-append (spaced build_path_list (strings texts)) rest,
      length-append (one ++ spaced build_path_list (strings texts)) rest,
    )

-- The paths with the whole text as fuel.
read_paths_all :
    (texts : List Bytes) (rest : Bytes)
    → Every IsPathText texts
    → is_behind_paths rest ≡ true
    → let s = spaced build_path_list (strings texts) ++ rest in
      read_paths (length s) s ≡ some (texts, rest)
read_paths_all texts rest p b =
    read_paths-spaced (length (spaced build_path_list (strings texts) ++ rest)) texts rest p b
      (length-spaced texts rest)

is_front-append : (mark s : Bytes) → is_front (mark ++ b' ' ∷ []) (mark ++ b' ' ∷ s) ≡ true
unfolding is_front
is_front-append [] s = refl
is_front-append (c ∷ mark) s = ground (arith, is_front-append mark s)

drop_mark : (mark s : Bytes) → drop (length mark) (mark ++ s) ≡ s
drop_mark [] s = refl
drop_mark (c ∷ mark) s = drop_mark mark s

read_marked_front :
    (mark s : Bytes)
    → is_front (mark ++ b' ' ∷ []) (mark ++ s) ≡ true
    → read_marked mark (mark ++ s) ≡ read_paths (length (mark ++ s)) s
unfolding read_marked
read_marked_front mark s h =
    rw (read_marked, h) (ap (read_paths (length (mark ++ s))) (drop_mark mark s))

-- A mark and its paths are read back, or nothing where there are no paths.
read_marked-marked :
    (mark : Bytes) (texts : List Bytes) (rest : Bytes)
    → Every IsPathText texts
    → is_behind_paths rest ≡ true
    → is_front (mark ++ b' ' ∷ []) rest ≡ false
    → read_marked mark (marked mark (strings texts) ++ rest) ≡ some (texts, rest)
unfolding read_marked marked spaced
read_marked-marked mark [] rest p b f = rw f refl
read_marked-marked mark (t ∷ texts) rest p b f =
    let paths = spaced build_path_list (strings (t ∷ texts)) in
    let one = resolve build_path_list (string t ∷ []) in
    let y = (one ++ spaced build_path_list (strings texts)) ++ rest in
    ap (read_marked mark) (append_assoc mark paths rest)
    ∙ read_marked_front mark (paths ++ rest) (is_front-append mark y)
    ∙ read_paths-spaced (length (mark ++ (paths ++ rest))) (t ∷ texts) rest p b
        (omega (arith, length-append mark (paths ++ rest), length-spaced (t ∷ texts) rest))

-- What stands behind the paths of a line.
marked_behind :
    (mark : Bytes) (paths : List Value) (rest : Bytes)
    → is_behind_paths rest ≡ true
    → is_behind_paths (b' ' ∷ b'|' ∷ mark) ≡ true
    → is_behind_paths (marked (b' ' ∷ b'|' ∷ mark) paths ++ rest) ≡ true
unfolding marked is_front
marked_behind mark [] rest h b = h
marked_behind mark (p ∷ paths) rest h b = refl

name_behind :
    (texts : List Bytes) (rest : Bytes)
    → is_behind_paths rest ≡ true
    → is_behind_name rest ≡ true
    → is_behind_name (spaced build_path_list (strings texts) ++ rest) ≡ true
unfolding spaced
name_behind [] rest b h = h
name_behind (t ∷ texts) rest b h = refl

marked_name_behind :
    (mark : Bytes) (paths : List Value) (rest : Bytes)
    → is_behind_name rest ≡ true
    → is_behind_name (marked (b' ' ∷ mark) paths ++ rest) ≡ true
unfolding marked
marked_name_behind mark [] rest h = h
marked_name_behind mark (p ∷ paths) rest h = refl

-- The bars of the orders are not those of the dependencies.
orders_other_mark :
    (paths : List Value) (rest : Bytes)
    → is_front (codes " | ") (marked (codes " ||") paths ++ 10 ∷ rest) ≡ false
unfolding marked is_front
orders_other_mark [] rest = refl
orders_other_mark (p ∷ paths) rest = refl

-- Texts that a build line can say.
pub record IsBuild (b : Build) : Type 0 where
  pub outputs : Every IsPathText b.outputs
  pub name : IsNameText b.name
  pub inputs : Every IsPathText b.inputs
  pub dependencies : Every IsPathText b.dependencies
  pub orders : Every IsPathText b.orders

read_sources_lem :
    (b : Build) (rest : Bytes)
    → IsBuild b
    → read_sources b.outputs (
        b.name
        ++ (spaced build_path_list (strings b.inputs)
            ++ (marked (codes " |") (strings b.dependencies)
                ++ (marked (codes " ||") (strings b.orders) ++ 10 ∷ rest))))
      ≡ some (b, 10 ∷ rest)
unfolding read_sources is_front
read_sources_lem b rest v =
    let s3 = marked (codes " ||") (strings b.orders) ++ 10 ∷ rest in
    let s2 = marked (codes " |") (strings b.dependencies) ++ s3 in
    let s1 = spaced build_path_list (strings b.inputs) ++ s2 in
    let b3 : is_behind_paths s3 ≡ true =
      marked_behind (b'|' ∷ []) (strings b.orders) (10 ∷ rest) refl refl in
    let b2 : is_behind_paths s2 ≡ true = marked_behind [] (strings b.dependencies) s3 b3 refl in
    let n3 = marked_name_behind (b'|' ∷ b'|' ∷ []) (strings b.orders) (10 ∷ rest) refl in
    let n2 = marked_name_behind (b'|' ∷ []) (strings b.dependencies) s3 n3 in
    let named = read_name-append b.name s1 v.name (name_behind b.inputs s2 b2 n2) in
    rw
      (
        read_sources,
        named,
        read_paths_all b.inputs s2 v.inputs b2,
        read_marked-marked (codes " |") b.dependencies s3 v.dependencies b3
            (orders_other_mark (strings b.orders) rest),
        read_marked-marked (codes " ||") b.orders (10 ∷ rest) v.orders refl refl,
      )
      (ap (λ n. some (record b { name = n.0 }, 10 ∷ rest)) named)

read_build_lem :
    (output : Bytes) (outputs : List Bytes) (b : Build) (rest : Bytes)
    → b.outputs ≡ output ∷ outputs
    → IsBuild b
    → Every IsPathText (output ∷ outputs)
    → let sources =
        b.name
        ++ (spaced build_path_list (strings b.inputs)
            ++ (marked (codes " |") (strings b.dependencies)
                ++ (marked (codes " ||") (strings b.orders) ++ 10 ∷ rest))) in
      read_build (
        resolve build_path_list (string output ∷ [])
        ++ (spaced build_path_list (strings outputs) ++ b':' ∷ b' ' ∷ sources))
      ≡ some (b, 10 ∷ rest)
unfolding read_build is_front
read_build_lem output outputs b rest same v (p, q) =
    let sources =
      b.name
      ++ (spaced build_path_list (strings b.inputs)
          ++ (marked (codes " |") (strings b.dependencies)
              ++ (marked (codes " ||") (strings b.orders) ++ 10 ∷ rest))) in
    let s2 = b':' ∷ b' ' ∷ sources in
    let s1 = spaced build_path_list (strings outputs) ++ s2 in
    rw
      (
        read_build,
        read_path-resolve output s1 p (spaced_lem outputs s2 refl).0,
        read_paths_all outputs s2 q refl,
      )
      (ap (λ o. read_sources o sources) (sym same) ∙ read_sources_lem b rest v)

write_binding-append :
    (b : Binding) (indent : ℕ) (buffer : Bytes)
    → write_binding b indent buffer ≡ buffer ++ write_binding b indent []
unfolding write_binding
write_binding-append b indent buffer = simp append_assoc

-- The bindings are written behind what was written before.
write_bindings-append :
    (bindings : List Binding) (buffer : Bytes)
    → write_bindings bindings buffer ≡ buffer ++ write_bindings bindings []
unfolding write_bindings
write_bindings-append [] buffer = sym (append-nil buffer)
write_bindings-append (b ∷ bindings) buffer =
    let one = write_binding b 1 [] in
    write_bindings-append bindings (write_binding b 1 buffer)
    ∙ ap (λ x. x ++ write_bindings bindings []) (write_binding-append b 1 buffer)
    ∙ append_assoc buffer one (write_bindings bindings [])
    ∙ ap (λ x. buffer ++ x) (sym (write_bindings-append bindings one))

command_line-append :
    (name front back : Bytes) (c : ℕ)
    → command_line name (front ++ c ∷ back) ≡ name ++ b' ' ∷ (front ++ c ∷ back)
unfolding command_line
command_line-append name [] back c = refl
command_line-append name (d ∷ front) back c = refl

-- What a command appends to the buffer.
command-append :
    (name front back : Bytes) (c : ℕ) (bindings : List Binding) (buffer : Bytes)
    → command name (front ++ c ∷ back) bindings buffer
      ≡ buffer
        ++ (name ++ b' ' ∷ ((front ++ c ∷ back) ++ 10 ∷ (write_bindings bindings [] ++ 10 ∷ [])))
unfolding command
command-append name front back c bindings buffer =
    let line = front ++ c ∷ back in
    ap (λ x. newline (write_bindings bindings (newline (buffer ++ x))))
      (command_line-append name front back c)
    ∙ ap newline (write_bindings-append bindings (newline (buffer ++ (name ++ b' ' ∷ line))))
    ∙ simp append_assoc

-- `build` of the values of texts that a build line can say, one output at least, appends a statement
-- to the buffer: the line behind its word reads back as those outputs, that rule and those inputs,
-- dependencies and orders, and the bindings and an empty line stand behind it.
pub read_build-build :
    (b : Build) (output : Bytes) (outputs : List Bytes) (bindings : List Binding) (buffer : Bytes)
    → b.outputs ≡ output ∷ outputs
    → IsBuild b
    → let rest = write_bindings bindings [] ++ 10 ∷ [] in
      (line : Bytes) × (build
          (strings b.outputs)
          b.name
          (strings b.inputs)
          bindings
          (strings b.dependencies)
          (strings b.orders)
          buffer
        ≡ buffer ++ (codes "build " ++ line))
      × (read_build line ≡ some (b, 10 ∷ rest))
unfolding build separated build_sources
read_build-build b output outputs bindings buffer same v =
    let rest = write_bindings bindings [] ++ 10 ∷ [] in
    let front =
      resolve build_path_list (string output ∷ []) ++ spaced build_path_list (strings outputs) in
    let ins = spaced build_path_list (strings b.inputs) in
    let deps = marked (codes " |") (strings b.dependencies) in
    let ords = marked (codes " ||") (strings b.orders) in
    let back = b' ' ∷ (b.name ++ ins ++ deps ++ ords) in
    let paths : Every IsPathText (output ∷ outputs) = subst (Every IsPathText) same v.outputs in
    let line =
      resolve build_path_list (string output ∷ [])
      ++ (spaced build_path_list (strings outputs)
          ++ b':' ∷ b' ' ∷ (b.name ++ (ins ++ (deps ++ (ords ++ 10 ∷ rest))))) in
    (
      line,
      ap
            (λ o.
              build (strings o) b.name (strings b.inputs) bindings (strings b.dependencies)
                (strings b.orders) buffer)
            same
          ∙ command-append (codes "build") front back b':' bindings buffer
          ∙ simp append_assoc,
      read_build_lem output outputs b rest same v paths,
    )
