-- ===== src/Filesystem/Operations.antt =====
-- What `read` and `exists` find behind an operation of MemoryFilesystem.cpp.
use xcbuild.Prelude.{
  ℕ, ◌≡◌, ◌≢◌, refl, sym, ap, ◌∙◌, Option, none, some, List, [], ◌∷◌, arith, Option-cases, inl, inr,
}
use xcbuild.Prelude.Text.{Bytes, equal_iff, equal_refl}
use xcbuild.Filesystem.{
  Entries, found_file, child, entry_at, locate, names_of, write_callback, write, read_range, read,
  copy_file,
}
use xcbuild.Filesystem.Names.{names_of-IsNames}
use xcbuild.Filesystem.Lookup.{child-push_back_file, child-set_contents}
use xcbuild.Filesystem.Writes.{locate-walk, Found-cases}
use xcbuild.Filesystem.Frames.{contents_of, IsLocal, contents_of-locate, locate-missing}

unfoldable pub read_contents : ℕ → Option ℕ → Option Bytes → Option Bytes
read_contents offset n none = none
read_contents offset n (some contents) = some (read_range offset n contents)

pub read-contents_of :
    (path : Bytes) (offset : ℕ) (n : Option ℕ) (root : Entries)
    → read path offset n root ≡ read_contents offset n (contents_of (locate (names_of path) root))
unfolding read read_contents contents_of
read-contents_of path offset n root = elim (Found-cases (locate (names_of path) root)) [
  | inl e ↦ rw (read, e) refl
  | inr (inl (c, e)) ↦ rw (read, e) refl
  | inr (inr (cs, e)) ↦ rw (read, e) refl
]

write_callback_last :
    (contents : Bytes) (children children' : Entries) (name : Bytes)
    → write_callback contents children name (entry_at children name) ≡ some children'
    → entry_at children' name ≡ found_file contents
unfolding write_callback entry_at
write_callback_last contents children children' [] h = absurd (cc h)
write_callback_last contents children children' (c ∷ name) h =
    elim (Found-cases (child (c ∷ name) children)) [
      | inl e ↦ ground (
        arith,
        child-push_back_file (c ∷ name) (c ∷ name) contents children e,
        equal_refl (c ∷ name),
      )
      | inr (inl (old, e)) ↦ ground (
        arith,
        child-set_contents (c ∷ name) (c ∷ name) contents old children e,
        equal_refl (c ∷ name),
      )
      | inr (inr (inner, e)) ↦ absurd (ground arith)
    ]

-- A successful write is read back: the whole of it, from the same path.
pub read-write :
    (contents path : Bytes) (root root' : Entries)
    → write contents path root ≡ some root'
    → read path 0 none root' ≡ some contents
unfolding write read_contents contents_of read_range
read-write contents path root root' h =
    read-contents_of path 0 none root'
    ∙ ap (λ f. read_contents 0 none (contents_of f))
        (locate-walk (write_callback contents) (found_file contents) (names_of path) root root'
          (write_callback_last contents) h)

write_callback_others :
    (contents : Bytes) (children children' : Entries) (c d : ℕ) (name other : Bytes)
    → write_callback contents children (c ∷ name) (child (c ∷ name) children) ≡ some children'
    → c ∷ name ≢ d ∷ other
    → child (d ∷ other) children' ≡ child (d ∷ other) children
unfolding write_callback
write_callback_others contents children children' c d name other h ne =
    elim (Found-cases (child (c ∷ name) children)) [
      | inl e ↦ ground (
        arith,
        child-push_back_file (c ∷ name) (d ∷ other) contents children e,
        equal_iff (c ∷ name) (d ∷ other),
      )
      | inr (inl (old, e)) ↦ ground (
        arith,
        child-set_contents (c ∷ name) (d ∷ other) contents old children e,
        equal_iff (c ∷ name) (d ∷ other),
      )
      | inr (inr (inner, e)) ↦ absurd (ground arith)
    ]

write_callback_below :
    (contents : Bytes) (children children' : Entries) (c : ℕ) (name next : Bytes)
    (names : List Bytes)
    → write_callback contents children (c ∷ name) (child (c ∷ name) children) ≡ some children'
    → contents_of (locate ((c ∷ name) ∷ next ∷ names) children')
      ≡ contents_of (locate ((c ∷ name) ∷ next ∷ names) children)
unfolding entry_at write_callback
write_callback_below contents children children' c name next names h =
    let after = write_callback_last contents children children' (c ∷ name) h in
    ap contents_of (
      locate-missing c name next names children' (λ inner e. absurd (cc (after, e)))
      ∙ sym (locate-missing c name next names children (λ inner e. absurd (ground (arith, h, e)))))

write_callback-IsLocal : (contents : Bytes) → IsLocal (write_callback contents)
unfolding write_callback
write_callback-IsLocal contents = record {
  others = write_callback_others contents;
  below = write_callback_below contents;
  root = λ children children' h. absurd (cc h);
}

-- A write changes the contents of no other file: whatever is read from a path with other names is as
-- it was, the failures included.
pub read-write_other :
    (contents path other : Bytes) (offset : ℕ) (n : Option ℕ) (root root' : Entries)
    → names_of path ≢ names_of other
    → write contents path root ≡ some root'
    → read other offset n root' ≡ read other offset n root
unfolding write
read-write_other contents path other offset n root root' ne h =
    read-contents_of other offset n root'
    ∙ ap (read_contents offset n) (
        contents_of-locate (write_callback contents) (write_callback-IsLocal contents)
          (names_of path) (names_of other) root root' (names_of-IsNames path)
          (names_of-IsNames other) ne h)
    ∙ sym (read-contents_of other offset n root)

copy_file-none :
    (from to : Bytes) (root : Entries)
    → read from 0 none root ≡ none
    → copy_file from to root ≡ none
unfolding copy_file
copy_file-none from to root e = rw (copy_file, e) refl

copy_file-some :
    (from to contents : Bytes) (root : Entries)
    → read from 0 none root ≡ some contents
    → copy_file from to root ≡ write contents to root
unfolding copy_file write
copy_file-some from to contents root e = rw (copy_file, e) refl

-- `copyFile`: what is read from the target is then what was read from the source.
pub read-copy_file :
    (from to : Bytes) (root root' : Entries)
    → copy_file from to root ≡ some root'
    → read to 0 none root' ≡ read from 0 none root
read-copy_file from to root root' h = elim (Option-cases (read from 0 none root)) [
  | inl e ↦ absurd (cc (h, copy_file-none from to root e))
  | inr (contents, e) ↦
      read-write contents to root root' (sym (copy_file-some from to contents root e) ∙ h) ∙ sym e
]
