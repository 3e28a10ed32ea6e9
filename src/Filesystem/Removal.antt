-- ===== src/Filesystem/Removal.antt =====
-- `removeFile` of MemoryFilesystem.cpp.
use xcbuild.Prelude.{ℕ, false, ◌≡◌, ◌≢◌, refl, sym, ap, ◌∙◌, Option, some, List, [], ◌∷◌, arith}
use xcbuild.Prelude.Text.{Bytes, equal_iff, equal_refl}
use xcbuild.Filesystem.{
  Entries, missing, child, entry_at, locate, names_of, exists, read, remove_file_callback,
  remove_file,
}
use xcbuild.Filesystem.Names.{names_of-IsNames}
use xcbuild.Filesystem.Lookup.{child-erase}
use xcbuild.Filesystem.Writes.{locate-walk, Found-cases}
use xcbuild.Filesystem.Frames.{contents_of, IsLocal, contents_of-locate, locate-missing}
use xcbuild.Filesystem.Operations.{read_contents, read-contents_of}

remove_file_callback_last :
    (children children' : Entries) (name : Bytes)
    → remove_file_callback children name (entry_at children name) ≡ some children'
    → entry_at children' name ≡ missing
unfolding remove_file_callback entry_at
remove_file_callback_last children children' [] h = absurd (cc h)
remove_file_callback_last children children' (c ∷ name) h = ground (
  arith,
  Found-cases (child (c ∷ name) children),
  child-erase (c ∷ name) (c ∷ name) children,
  equal_refl (c ∷ name),
)

remove_file_callback_others :
    (children children' : Entries) (c d : ℕ) (name other : Bytes)
    → remove_file_callback children (c ∷ name) (child (c ∷ name) children) ≡ some children'
    → c ∷ name ≢ d ∷ other
    → child (d ∷ other) children' ≡ child (d ∷ other) children
unfolding remove_file_callback
remove_file_callback_others children children' c d name other h ne = ground (
  arith,
  Found-cases (child (c ∷ name) children),
  child-erase (c ∷ name) (d ∷ other) children,
  equal_iff (c ∷ name) (d ∷ other),
)

remove_file_callback_below :
    (children children' : Entries) (c : ℕ) (name next : Bytes) (names : List Bytes)
    → remove_file_callback children (c ∷ name) (child (c ∷ name) children) ≡ some children'
    → contents_of (locate ((c ∷ name) ∷ next ∷ names) children')
      ≡ contents_of (locate ((c ∷ name) ∷ next ∷ names) children)
unfolding entry_at remove_file_callback
remove_file_callback_below children children' c name next names h =
    let after = remove_file_callback_last children children' (c ∷ name) h in
    ap contents_of (
      locate-missing c name next names children' (λ inner e. absurd (cc (after, e)))
      ∙ sym (locate-missing c name next names children (λ inner e. absurd (ground (arith, h, e)))))

remove_file_callback-IsLocal : IsLocal remove_file_callback
unfolding remove_file_callback
remove_file_callback-IsLocal = record {
  others = remove_file_callback_others;
  below = remove_file_callback_below;
  root = λ children children' h. absurd (cc h);
}

-- After a successful `removeFile` nothing exists at the path, and what is read from a path with
-- other names is as it was.
pub exists-remove_file :
    (path other : Bytes) (offset : ℕ) (n : Option ℕ) (root root' : Entries)
    → names_of path ≢ names_of other
    → remove_file path root ≡ some root'
    → (exists path root' ≡ false) × (read other offset n root' ≡ read other offset n root)
unfolding remove_file exists
exists-remove_file path other offset n root root' ne h =
    let gone =
      locate-walk remove_file_callback missing (names_of path) root root' remove_file_callback_last
        h in
    let kept =
      contents_of-locate remove_file_callback remove_file_callback-IsLocal (names_of path)
        (names_of other) root root' (names_of-IsNames path) (names_of-IsNames other) ne h in
    (
      rw (exists, gone) refl,
      read-contents_of other offset n root'
          ∙ ap (read_contents offset n) kept
          ∙ sym (read-contents_of other offset n root),
    )
