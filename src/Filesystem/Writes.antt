-- ===== src/Filesystem/Writes.antt =====
-- What the look-ups find behind a change at a path, for WalkPath of MemoryFilesystem.cpp.
use xcbuild.Prelude.{
  ℕ, false, ◌≡◌, refl, ap, ◌∙◌, ◌⊎◌, inl, inr, Option, none, some, List, [], ◌∷◌, arith,
  Option-cases, if◌then◌else◌,
}
use xcbuild.Prelude.Text.{Bytes, equal, equal_iff, equal_refl}
use xcbuild.Filesystem.{
  file, directory, Entries, nil, cons, Found, missing, found_file, found_directory, child, enter,
  enter_at, entry_at, Callback, walk, locate,
}

-- New children for the directory that `child` finds.
unfoldable pub set_children : Bytes → Entries → Entries → Entries
set_children name inner nil = nil
set_children name inner (cons (file n contents) rest) =
    if equal n name
    then cons (file n contents) rest
    else cons (file n contents) (set_children name inner rest)
set_children name inner (cons (directory n children) rest) =
    if equal n name
    then cons (directory n inner) rest
    else cons (directory n children) (set_children name inner rest)

pub child-set_children :
    (name other : Bytes) (inner old cs : Entries)
    → child name cs ≡ found_directory old
    → child other (set_children name inner cs)
      ≡ (if equal name other then found_directory inner else child other cs)
unfolding child set_children
child-set_children name other inner old nil h = absurd (cc h)
child-set_children name other inner old (cons (file n c) rest) h = ground (
  arith,
  child-set_children name other inner old rest,
  equal_iff n name,
  equal_iff n other,
  equal_iff name other,
)
child-set_children name other inner old (cons (directory n c) rest) h = ground (
  arith,
  child-set_children name other inner old rest,
  equal_iff n name,
  equal_iff n other,
  equal_iff name other,
)

-- The directory that a found entry is, changed by the step.
unfoldable pub enter_found : Bytes → (Entries → Option Entries) → Entries → Found → Option Entries
enter_found name step cs missing = none
enter_found name step cs (found_file contents) = none
enter_found name step cs (found_directory inner) = elim (step inner) [
  | none ↦ none
  | some inner' ↦ some (set_children name inner' cs)
]

pub enter-child :
    (name : Bytes) (step : Entries → Option Entries) (cs : Entries)
    → enter name step cs ≡ enter_found name step cs (child name cs)
unfolding enter child enter_found set_children
enter-child name step nil = refl
enter-child name step (cons (file n c) rest) = ground (arith, enter-child name step rest)
enter-child name step (cons (directory n c) rest) = ground (arith, enter-child name step rest)

pub Found-cases :
    (f : Found)
    → (f ≡ missing)
      ⊎ ((c : Bytes) × (f ≡ found_file c))
      ⊎ ((cs : Entries) × (f ≡ found_directory cs))
Found-cases missing = inl refl
Found-cases (found_file c) = inr (inl (c, refl))
Found-cases (found_directory cs) = inr (inr (cs, refl))

-- A step that succeeded was in a directory, and changed nothing else.
pub enter-some :
    (name : Bytes) (step : Entries → Option Entries) (cs cs' : Entries)
    → enter name step cs ≡ some cs'
    → (inner : Entries) × (inner' : Entries) × (child name cs ≡ found_directory inner)
      × (step inner ≡ some inner')
      × (cs' ≡ set_children name inner' cs)
unfolding enter_found
enter-some name step cs cs' h = elim (Found-cases (child name cs)) [
  | inl e ↦ absurd (cc (h, e, enter-child name step cs))
  | inr (inl (c, e)) ↦ absurd (cc (h, e, enter-child name step cs))
  | inr (inr (inner, e)) ↦ elim (Option-cases (step inner)) [
    | inl n ↦ absurd (ground (arith, h, e, n, enter-child name step cs))
    | inr (inner', s) ↦ (inner, inner', e, s, ground (arith, h, e, s, enter-child name step cs))
  ]
]

pub locate-child :
    (c : ℕ) (name next : Bytes) (names : List Bytes) (cs inner : Entries)
    → child (c ∷ name) cs ≡ found_directory inner
    → locate ((c ∷ name) ∷ next ∷ names) cs ≡ locate (next ∷ names) inner
unfolding locate entry_at
locate-child c name next names cs inner h = rw (locate, entry_at, h) refl

-- A successful walk leaves at its path what the callback leaves at the last name.
pub locate-walk :
    (cb : Callback) (found : Found) (names : List Bytes) (root root' : Entries)
    → ((children children' : Entries) (name : Bytes)
        → cb children name (entry_at children name) ≡ some children'
        → entry_at children' name ≡ found)
    → walk false cb names root ≡ some root'
    → locate names root' ≡ found
unfolding walk locate
locate-walk cb found [] root root' last h = absurd (cc h)
locate-walk cb found (name ∷ []) root root' last h = last root root' name h
locate-walk cb found ([] ∷ next ∷ names) root root' last h =
    unfold enter_at entry_at in locate-walk cb found (next ∷ names) root root' last h
locate-walk cb found ((c ∷ name) ∷ next ∷ names) root root' last h =
    unfold enter_at entry_at in
    let (inner, inner', e, s, eq) =
      enter-some (c ∷ name) (walk false cb (next ∷ names)) root root' h in
    rw eq (
      locate-child c name next names (set_children (c ∷ name) inner' root) inner' (
        child-set_children (c ∷ name) (c ∷ name) inner' inner root e
        ∙ ap (λ b. if b then found_directory inner' else child (c ∷ name) root)
            (equal_refl (c ∷ name)))
      ∙ locate-walk cb found (next ∷ names) inner inner' last s)
