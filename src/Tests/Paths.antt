-- ===== src/Tests/Paths.antt =====
-- Libraries/libutil: paths at concrete inputs.
use mathlib.Core.List.{reverse}
use xcbuild.Prelude.{true, false, ◌≡◌, ◌⊎◌, refl, List, [], ◌∷◌, ◌++◌}
use xcbuild.Prelude.Text.{Bytes, codes, Lacks, back_is, equal}
use xcbuild.Path.{
  is_absolute, is_separator, normalize_path_components, normalized, normalized_components,
  with_prefix, prefix_of, child, parent, base, extension, resolved, is_dot,
}
use xcbuild.Path.Components.{IsNormal}
use xcbuild.Path.Normalize.{normalized-normalized, normalized_components-IsNormal}
use xcbuild.Path.Names.{parent-child, base-extension}

abbrev messy : Bytes
messy = codes "../a//b/./../c/"

normalized-messy : normalized messy ≡ codes "../a/c"
unfolding normalized is_absolute prefix_of normalize_path_components equal
normalized-messy = refl

normalized_root : normalized (codes "/..//a/") ≡ codes "/a"
unfolding normalized is_absolute prefix_of normalize_path_components equal
normalized_root = refl

resolved_relative : resolved (codes "a/b") (codes "/root") ≡ codes "/root/a/b"
unfolding resolved back_is
resolved_relative = refl

normalized-normalized_example : normalized (normalized messy) ≡ normalized messy
normalized-normalized_example = normalized-normalized messy

normalized_components-IsNormal_example :
    (s : List Bytes) × (normalized_components messy ≡ with_prefix (prefix_of messy) (reverse s))
    × IsNormal (is_absolute messy) s
normalized_components-IsNormal_example = normalized_components-IsNormal messy

folder_no_separator : back_is is_separator (codes "/usr/lib") ≡ false
unfolding back_is
folder_no_separator = refl

parent-child_example :
    (parent (child (codes "/usr/lib") (codes "a.so")) ≡ codes "/usr/lib")
    × (base true (child (codes "/usr/lib") (codes "a.so")) ≡ codes "a.so")
parent-child_example =
    parent-child (codes "/usr/lib") (codes "a.so") (λ e. cc) folder_no_separator (λ e. cc)
      (refl, (refl, (refl, (refl, tt))))

base-extension_example :
    (base true (codes "x/a.b.c")
        ≡ base false (codes "x/a.b.c") ++ b'.' ∷ extension (codes "x/a.b.c"))
      × Lacks is_dot (extension (codes "x/a.b.c"))
    ⊎ (base false (codes "x/a.b.c") ≡ base true (codes "x/a.b.c"))
      × (extension (codes "x/a.b.c") ≡ [])
      × Lacks is_dot (base true (codes "x/a.b.c"))
base-extension_example = base-extension (codes "x/a.b.c")
