-- ===== src/Filesystem/Lookup.antt =====
-- What `child` finds behind each change of a directory's children.
use xcbuild.Prelude.{◌≡◌, refl, arith, if◌then◌else◌}
use xcbuild.Prelude.Text.{Bytes, equal, equal_iff}
use xcbuild.Filesystem.{
  file, directory, Entries, nil, cons, missing, found_file, found_directory, child, push_back,
  set_contents, erase,
}

pub child-push_back_file :
    (name other contents : Bytes) (cs : Entries)
    → child name cs ≡ missing
    → child other (push_back cs (file name contents))
      ≡ (if equal name other then found_file contents else child other cs)
unfolding child push_back
child-push_back_file name other contents nil h = refl
child-push_back_file name other contents (cons (file n c) rest) h = ground (
  arith,
  child-push_back_file name other contents rest,
  equal_iff n name,
  equal_iff n other,
  equal_iff name other,
)
child-push_back_file name other contents (cons (directory n c) rest) h = ground (
  arith,
  child-push_back_file name other contents rest,
  equal_iff n name,
  equal_iff n other,
  equal_iff name other,
)

pub child-push_back_directory :
    (name other : Bytes) (inner cs : Entries)
    → child name cs ≡ missing
    → child other (push_back cs (directory name inner))
      ≡ (if equal name other then found_directory inner else child other cs)
unfolding child push_back
child-push_back_directory name other inner nil h = refl
child-push_back_directory name other inner (cons (file n c) rest) h = ground (
  arith,
  child-push_back_directory name other inner rest,
  equal_iff n name,
  equal_iff n other,
  equal_iff name other,
)
child-push_back_directory name other inner (cons (directory n c) rest) h = ground (
  arith,
  child-push_back_directory name other inner rest,
  equal_iff n name,
  equal_iff n other,
  equal_iff name other,
)

pub child-set_contents :
    (name other contents old : Bytes) (cs : Entries)
    → child name cs ≡ found_file old
    → child other (set_contents name contents cs)
      ≡ (if equal name other then found_file contents else child other cs)
unfolding child set_contents
child-set_contents name other contents old nil h = absurd (cc h)
child-set_contents name other contents old (cons (file n c) rest) h = ground (
  arith,
  child-set_contents name other contents old rest,
  equal_iff n name,
  equal_iff n other,
  equal_iff name other,
)
child-set_contents name other contents old (cons (directory n c) rest) h = ground (
  arith,
  child-set_contents name other contents old rest,
  equal_iff n name,
  equal_iff n other,
  equal_iff name other,
)

pub child-erase :
    (name other : Bytes) (cs : Entries)
    → child other (erase name cs) ≡ (if equal name other then missing else child other cs)
unfolding child erase
child-erase name other nil = ground arith
child-erase name other (cons (file n c) rest) =
    ground (
      arith,
      child-erase name other rest,
      equal_iff n name,
      equal_iff n other,
      equal_iff name other,
    )
child-erase name other (cons (directory n c) rest) =
    ground (
      arith,
      child-erase name other rest,
      equal_iff n name,
      equal_iff n other,
      equal_iff name other,
    )
