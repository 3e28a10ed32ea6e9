-- ===== src/Tests/Filesystems.antt =====
-- The memory file system at concrete inputs.
use xcbuild.Prelude.{arith, sym, ◌∙◌, true, false, ◌≡◌, ◌≢◌, refl, none, some, [], ◌∷◌, ◌++◌}
use xcbuild.Prelude.Text.{Bytes, codes, equal}
use xcbuild.Path.{prefix_of, normalize_path_components}
use xcbuild.Filesystem.{
  Entries, file, directory, nil, cons, names_of, exists, read, write, copy_file, remove_file,
  create_file, create_directory, remove_directory, resolve_path,
}
use xcbuild.Filesystem.Operations.{read-write, read-write_other, read-copy_file}
use xcbuild.Filesystem.Successes.{write-read}
use xcbuild.Filesystem.Removal.{exists-remove_file}
use xcbuild.Filesystem.Ranges.{read_rest}

abbrev tree_with : Bytes → Entries
tree_with contents =
    cons
      (directory (codes "a")
        (cons (file (codes "f") contents) (cons (file (codes "g") (codes "y")) nil)))
      nil

abbrev tree : Entries
tree = tree_with (codes "abcd")

write-tree : write (codes "new") (codes "/a/./f") tree ≡ some (tree_with (codes "new"))
unfolding write prefix_of normalize_path_components
write-tree = refl

read-write_example : read (codes "/a/./f") 0 none (tree_with (codes "new")) ≡ some (codes "new")
read-write_example =
    read-write (codes "new") (codes "/a/./f") tree (tree_with (codes "new")) write-tree

names_f : names_of (codes "/a/./f") ≡ codes "a" ∷ codes "f" ∷ []
unfolding names_of prefix_of normalize_path_components equal
names_f = refl

names_g : names_of (codes "/a/g") ≡ codes "a" ∷ codes "g" ∷ []
unfolding names_of prefix_of normalize_path_components equal
names_g = refl

f_ne_g : (codes "a" ∷ codes "f" ∷ []) ≢ (codes "a" ∷ codes "g" ∷ [])
f_ne_g h = absurd (ground arith)

names_ne : names_of (codes "/a/./f") ≢ names_of (codes "/a/g")
names_ne h = f_ne_g (sym names_f ∙ h ∙ names_g)

read-write_other_example :
    read (codes "/a/g") 0 none (tree_with (codes "new")) ≡ read (codes "/a/g") 0 none tree
read-write_other_example =
    read-write_other (codes "new") (codes "/a/./f") (codes "/a/g") 0 none tree
      (tree_with (codes "new")) names_ne write-tree

abbrev copied : Entries
copied =
    cons
      (directory (codes "a")
        (cons (file (codes "f") (codes "abcd")) (cons (file (codes "g") (codes "y")) nil)))
      (cons (file (codes "h") (codes "abcd")) nil)

copy_tree : copy_file (codes "/a/f") (codes "/h") tree ≡ some copied
unfolding copy_file prefix_of normalize_path_components
copy_tree = refl

read-copy_file_example : read (codes "/h") 0 none copied ≡ read (codes "/a/f") 0 none tree
read-copy_file_example = read-copy_file (codes "/a/f") (codes "/h") tree copied copy_tree

abbrev removed : Entries
removed = cons (directory (codes "a") (cons (file (codes "g") (codes "y")) nil)) nil

remove_tree : remove_file (codes "/a/./f") tree ≡ some removed
unfolding remove_file prefix_of normalize_path_components
remove_tree = refl

exists-remove_file_example :
    (exists (codes "/a/./f") removed ≡ false)
    × (read (codes "/a/g") 0 none removed ≡ read (codes "/a/g") 0 none tree)
exists-remove_file_example =
    exists-remove_file (codes "/a/./f") (codes "/a/g") 0 none tree removed names_ne remove_tree

read-tree : read (codes "/a/f") 0 none tree ≡ some (codes "a" ++ codes "bc" ++ codes "d")
unfolding read prefix_of normalize_path_components
read-tree = refl

-- The last byte of the four is missing.
read_rest_example : read (codes "/a/f") 1 none tree ≡ some (codes "bc")
read_rest_example = read_rest (codes "/a/f") b'a' [] (codes "bc") (codes "d") tree refl read-tree

-- The root cannot be removed, though the program says that it was.
remove_root : remove_directory (codes "/") true tree ≡ some tree
unfolding remove_directory prefix_of normalize_path_components
remove_root = refl

create_nested :
    create_directory (codes "/b/c") true nil
    ≡ some (cons (directory (codes "b") (cons (directory (codes "c") nil) nil)) nil)
unfolding create_directory prefix_of normalize_path_components
create_nested = refl

create_missing_parent : create_directory (codes "/b/c") false nil ≡ none
unfolding create_directory prefix_of normalize_path_components
create_missing_parent = refl

create_over_directory : create_file (codes "/a") tree ≡ none
unfolding create_file prefix_of normalize_path_components
create_over_directory = refl

resolve_tree : resolve_path (codes "/a/../a/f") tree ≡ codes "/a/f"
unfolding resolve_path prefix_of normalize_path_components
resolve_tree = refl

write-read_example :
    (root' : Entries) × (write (codes "new") (codes "/a/f") tree ≡ some root')
    × (read (codes "/a/f") 0 none root' ≡ some (codes "new"))
write-read_example = write-read (codes "new") (codes "abcd") (codes "/a/f") tree read-tree
