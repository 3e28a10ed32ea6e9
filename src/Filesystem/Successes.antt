-- ===== src/Filesystem/Successes.antt =====
-- When an operation of MemoryFilesystem.cpp succeeds.
use xcbuild.Prelude.{false, ◌≡◌, refl, sym, ap, ◌∙◌, Option, none, some, List, [], ◌∷◌, inl, inr}
use xcbuild.Prelude.Text.{Bytes}
use xcbuild.Filesystem.{
  Entries, found_directory, child, entry_at, enter_at, Callback, walk, locate, names_of,
  set_contents, write_callback, write, read,
}
use xcbuild.Filesystem.Writes.{Found-cases, enter_found, enter-child, set_children, locate-child}
use xcbuild.Filesystem.Frames.{contents_of, locate-missing}
use xcbuild.Filesystem.Operations.{read-write}
use xcbuild.Filesystem.Ranges.{contents_of-read}

enter_found-some :
    (name : Bytes) (step : Entries → Option Entries) (cs inner inner' : Entries)
    → step inner ≡ some inner'
    → enter_found name step cs (found_directory inner) ≡ some (set_children name inner' cs)
unfolding enter_found
enter_found-some name step cs inner inner' s = rw (enter_found, s) refl

-- A callback that accepts every file is reached by the walk to a file.
walk-some :
    (cb : Callback) (old : Bytes) (names : List Bytes) (root : Entries)
    → ((children : Entries) (name : Bytes)
        → contents_of (entry_at children name) ≡ some old
        → (children' : Entries) × (cb children name (entry_at children name) ≡ some children'))
    → contents_of (locate names root) ≡ some old
    → (root' : Entries) × (walk false cb names root ≡ some root')
unfolding walk locate contents_of
walk-some cb old [] root f h = absurd (cc h)
walk-some cb old (name ∷ []) root f h = f root name h
walk-some cb old ([] ∷ next ∷ names) root f h =
    unfold enter_at entry_at in walk-some cb old (next ∷ names) root f h
walk-some cb old ((c ∷ name) ∷ next ∷ names) root f h =
    unfold enter_at in
    elim (Found-cases (child (c ∷ name) root)) [
      | inl e ↦ absurd (
          cc (
            h,
            ap contents_of (locate-missing c name next names root (λ inner d. absurd (cc (e, d)))),
          ))
      | inr (inl (contents, e)) ↦ absurd (
          cc (
            h,
            ap contents_of (locate-missing c name next names root (λ inner d. absurd (cc (e, d)))),
          ))
      | inr (inr (inner, e)) ↦
          let (inner', s) =
            walk-some cb old (next ∷ names) inner f
              (sym (ap contents_of (locate-child c name next names root inner e)) ∙ h) in
          (
            set_children (c ∷ name) inner' root,
            enter-child (c ∷ name) (walk false cb (next ∷ names)) root
                ∙ ap (enter_found (c ∷ name) (walk false cb (next ∷ names)) root) e
                ∙ enter_found-some (c ∷ name) (walk false cb (next ∷ names)) root inner inner' s,
          )
    ]

write_callback-some :
    (contents old : Bytes) (children : Entries) (name : Bytes)
    → contents_of (entry_at children name) ≡ some old
    → (children' : Entries) × (write_callback contents children name (entry_at children name)
        ≡ some children')
unfolding contents_of
write_callback-some contents old children name h = elim (Found-cases (entry_at children name)) [
  | inl e ↦ absurd (cc (h, ap contents_of e))
  | inr (inl (c, e)) ↦ (set_contents name contents children, unfold write_callback in rw e refl)
  | inr (inr (inner, e)) ↦ absurd (cc (h, ap contents_of e))
]

-- A file that can be read can be written, and is then read back as written.
pub write-read :
    (contents old path : Bytes) (root : Entries)
    → read path 0 none root ≡ some old
    → (root' : Entries) × (write contents path root ≡ some root')
      × (read path 0 none root' ≡ some contents)
unfolding write
write-read contents old path root h =
    let (root', w) =
      walk-some (write_callback contents) old (names_of path) root
        (write_callback-some contents old) (contents_of-read path old root h) in
    (root', w, read-write contents path root root' w)
