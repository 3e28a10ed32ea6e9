-- ===== src/Filesystem/Frames.antt =====
-- What a change at a path leaves as it was, for WalkPath of MemoryFilesystem.cpp.
use xcbuild.Prelude.{
  subst, ℕ, false, ◌≡◌, ◌≢◌, refl, sym, ap, ◌∙◌, ◌⊎◌, inl, inr, Option, none, some, List, [], ◌∷◌,
  Bool-cases, Every, if◌then◌else◌, arith,
}
use xcbuild.Prelude.Text.{Bytes, equal, equal_iff}
use xcbuild.Path.Components.{IsPlain}
use xcbuild.Filesystem.{
  Entries, Found, missing, found_file, found_directory, child, enter_at, entry_at, Callback, walk,
  locate,
}
use xcbuild.Filesystem.Names.{IsNames}
use xcbuild.Filesystem.Writes.{
  set_children, child-set_children, enter-some, locate-child, Found-cases,
}

-- The contents of a file; none for a directory.
unfoldable pub contents_of : Found → Option Bytes
contents_of missing = none
contents_of (found_file contents) = some contents
contents_of (found_directory cs) = none

-- A callback that changes the entry it is called at alone, which is and stays no directory with
-- files in it.
pub record IsLocal (cb : Callback) : Type 0 where
  pub others :
      (children children' : Entries) (c d : ℕ) (name other : Bytes)
      → cb children (c ∷ name) (child (c ∷ name) children) ≡ some children'
      → c ∷ name ≢ d ∷ other
      → child (d ∷ other) children' ≡ child (d ∷ other) children
  pub below :
      (children children' : Entries) (c : ℕ) (name next : Bytes) (names : List Bytes)
      → cb children (c ∷ name) (child (c ∷ name) children) ≡ some children'
      → contents_of (locate ((c ∷ name) ∷ next ∷ names) children')
        ≡ contents_of (locate ((c ∷ name) ∷ next ∷ names) children)
  pub root :
      (children children' : Entries)
      → cb children [] (found_directory children) ≡ some children'
      → children' ≡ children

locate-congruence :
    (d : ℕ) (other : Bytes) (others : List Bytes) (cs cs' : Entries)
    → child (d ∷ other) cs' ≡ child (d ∷ other) cs
    → locate ((d ∷ other) ∷ others) cs' ≡ locate ((d ∷ other) ∷ others) cs
unfolding locate entry_at
locate-congruence d other [] cs cs' h = h
locate-congruence d other (next ∷ others) cs cs' h = rw (locate, entry_at, h) refl

-- Neither does a step into the directory of another name change what is found.
child-set_children_ne :
    (name other : Bytes) (inner old cs : Entries)
    → child name cs ≡ found_directory old
    → name ≢ other
    → child other (set_children name inner cs) ≡ child other cs
child-set_children_ne name other inner old cs h ne =
    child-set_children name other inner old cs h ∙ ground (arith, equal_iff name other)

name-cases : (a b : Bytes) → (a ≡ b) ⊎ (a ≢ b)
name-cases a b = elim (Bool-cases (equal a b)) [
  | inl e ↦ inl ((equal_iff a b).0 e)
  | inr e ↦ inr (λ h. ground (arith, e, (equal_iff a b).1 h))
]

-- The change in a directory that the walk enters, seen from a path through that directory.
locate-set_children :
    (name : Bytes) (d : ℕ) (other next : Bytes) (others : List Bytes) (inner inner' cs : Entries)
    → child name cs ≡ found_directory inner
    → name ≡ d ∷ other
    → locate ((d ∷ other) ∷ next ∷ others) (set_children name inner' cs)
      ≡ locate (next ∷ others) inner'
locate-set_children name d other next others inner inner' cs h e =
    locate-child d other next others (set_children name inner' cs) inner' (
      child-set_children name (d ∷ other) inner' inner cs h
      ∙ ap (λ b. if b then found_directory inner' else child (d ∷ other) cs)
          ((equal_iff name (d ∷ other)).1 e))

contents_of-set_children :
    (name : Bytes) (d : ℕ) (other : Bytes) (inner inner' cs : Entries)
    → child name cs ≡ found_directory inner
    → contents_of (child (d ∷ other) (set_children name inner' cs))
      ≡ contents_of (child (d ∷ other) cs)
unfolding contents_of
contents_of-set_children name d other inner inner' cs h = elim (name-cases name (d ∷ other)) [
  | inl e ↦
      ap contents_of (child-set_children name (d ∷ other) inner' inner cs h)
      ∙ rw ((equal_iff name (d ∷ other)).1 e)
          (sym (ap contents_of (ap (λ n. child n cs) (sym e) ∙ h)))
  | inr ne ↦ ap contents_of (child-set_children_ne name (d ∷ other) inner' inner cs h ne)
]

locate-walk_other :
    (cb : Callback)
    → IsLocal cb
    → (names others : List Bytes) (root root' : Entries) → Every IsPlain names
    → Every IsPlain others
    → names ≢ others
    → walk false cb names root ≡ some root'
    → contents_of (locate others root') ≡ contents_of (locate others root)
unfolding walk entry_at enter_at
locate-walk_other cb l names [] root root' p q ne h = unfold locate in refl
locate-walk_other cb l names ([] ∷ others) root root' p q ne h = absurd (q.0.ne_nil refl)
locate-walk_other cb l [] (o ∷ others) root root' p q ne h = absurd (cc h)
locate-walk_other cb l ([] ∷ names) (o ∷ others) root root' p q ne h = absurd (p.0.ne_nil refl)
locate-walk_other cb l ((c ∷ name) ∷ []) ((d ∷ other) ∷ []) root root' p q ne h = ap contents_of (
    locate-congruence d other [] root root'
      (l.others root root' c d name other h (λ e. ne (ap (λ n. n ∷ []) e))))
locate-walk_other cb l ((c ∷ name) ∷ []) ((d ∷ other) ∷ next ∷ others) root root' p q ne h =
    elim (name-cases (c ∷ name) (d ∷ other)) [
      | inl e ↦
          subst
            (λ n.
              contents_of (locate (n ∷ next ∷ others) root')
              ≡ contents_of (locate (n ∷ next ∷ others) root))
            e (l.below root root' c name next others h)
      | inr e ↦ ap contents_of (
          locate-congruence d other (next ∷ others) root root'
            (l.others root root' c d name other h e))
    ]
locate-walk_other cb l ((c ∷ name) ∷ next ∷ names) ((d ∷ other) ∷ []) root root' p q ne h =
    let (inner, inner', f, s, eq) =
      enter-some (c ∷ name) (walk false cb (next ∷ names)) root root' h in
    unfold locate in rw eq (contents_of-set_children (c ∷ name) d other inner inner' root f)
locate-walk_other cb l ((c ∷ name) ∷ next ∷ names) ((d ∷ other) ∷ next' ∷ others) root root' p q ne
      h =
    let (inner, inner', f, s, eq) =
      enter-some (c ∷ name) (walk false cb (next ∷ names)) root root' h in
    elim (name-cases (c ∷ name) (d ∷ other)) [
      | inl e ↦ rw eq (
          ap contents_of (locate-set_children (c ∷ name) d other next' others inner inner' root f e)
          ∙ locate-walk_other cb l (next ∷ names) (next' ∷ others) inner inner' p.1 q.1
              (λ t. ne (ap (λ ns. (c ∷ name) ∷ ns) t ∙ ap (λ n. n ∷ next' ∷ others) e)) s
          ∙ sym (
              ap contents_of (
                locate-child d other next' others root inner (ap (λ n. child n root) (sym e) ∙ f))))
      | inr e ↦ rw eq (
          ap contents_of (
            locate-congruence d other (next' ∷ others) root (set_children (c ∷ name) inner' root)
              (child-set_children_ne (c ∷ name) (d ∷ other) inner' inner root f e)))
    ]

-- The contents of the files at all other paths stay.
pub contents_of-locate :
    (cb : Callback)
    → IsLocal cb
    → (names others : List Bytes) (root root' : Entries) → IsNames names
    → IsNames others
    → names ≢ others
    → walk false cb names root ≡ some root'
    → contents_of (locate others root') ≡ contents_of (locate others root)
unfolding locate entry_at contents_of walk
contents_of-locate cb l names others root root' p (inl q) ne h = rw q refl
contents_of-locate cb l names others root root' (inl p) (inr q) ne h =
    ap (λ r. contents_of (locate others r))
      (l.root root root' (ap (λ ns. walk false cb ns root) (sym p) ∙ h))
contents_of-locate cb l names others root root' (inr p) (inr q) ne h =
    locate-walk_other cb l names others root root' p q ne h

-- Nothing stands below what is no directory.
pub locate-missing :
    (c : ℕ) (name next : Bytes) (names : List Bytes) (cs : Entries)
    → ((inner : Entries) → child (c ∷ name) cs ≢ found_directory inner)
    → locate ((c ∷ name) ∷ next ∷ names) cs ≡ missing
unfolding locate
locate-missing c name next names cs h = elim (Found-cases (child (c ∷ name) cs)) [
  | inl e ↦ rw (locate, entry_at, e) refl
  | inr (inl (contents, e)) ↦ rw (locate, entry_at, e) refl
  | inr (inr (inner, e)) ↦ absurd (h inner e)
]
