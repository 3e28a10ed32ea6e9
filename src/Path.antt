-- ===== src/Path.antt =====
-- Libraries/libutil: `Path::Unix` (Sources/Unix.cpp), `Path::BaseRelative` (Sources/Relative.cpp)
-- and `Path::BaseAbsolute` (Sources/Absolute.cpp) at the Unix traits. A path is its raw bytes.
pub mod Components
pub mod Normalize
pub mod Names
use xcbuild.Prelude.{
  ℕ, Bool, true, false, not, ◌&&◌, Option, none, some, List, [], ◌∷◌, ◌++◌, map, ◌==◌, ltb, length,
  take, drop, if◌then◌else◌,
}
use xcbuild.Prelude.Text.{Bytes, equal, split_last, back_is, drop_back}
use mathlib.Core.List.{reverse}

abbrev pub separator : ℕ
separator = b'/'

abbrev pub is_separator : ℕ → Bool
is_separator c = c == separator

unfoldable pub is_absolute : Bytes → Bool
is_absolute [] = false
is_absolute (c ∷ path) = c == separator

-- The output parameter `start` of `IsAbsolute`.
abbrev pub start_of : Bytes → ℕ
start_of path = if is_absolute path then 1 else 0

abbrev pub dot : Bytes
dot = b'.' ∷ []

abbrev pub dotdot : Bytes
dotdot = b'.' ∷ b'.' ∷ []

-- A `..` component. The output vector is kept with its last element first.
unfoldable pub previous_component : Bool → List Bytes → List Bytes
previous_component absolute [] = if not absolute then dotdot ∷ [] else []
previous_component absolute (back ∷ output) =
    if not absolute && equal back dotdot then dotdot ∷ back ∷ output else output

-- The end of a component, at a separator or at the end of the text.
unfoldable pub end_component : Bool → Bool → Bytes → List Bytes → List Bytes
unfolding previous_component
end_component absolute collapse [] output = output
end_component absolute collapse component output =
    if not collapse
    then component ∷ output
    else if equal component dotdot
    then previous_component absolute output
    else if equal component dot
    then output
    else component ∷ output

-- The loop of `NormalizePathComponents`; `skipping` stands for its inner loop over separators.
unfoldable pub walk : Bool → Bool → Bool → List Bytes → Bytes → Bytes → List Bytes
unfolding end_component
walk absolute collapse skipping output component [] =
    end_component absolute collapse component output
walk absolute collapse skipping output component (c ∷ rest) =
    let skip = walk absolute collapse true output component rest in
    let close =
      walk absolute collapse true (end_component absolute collapse component output) [] rest in
    let extend = walk absolute collapse false output (component ++ c ∷ []) rest in
    if is_separator c then (if skipping then skip else close) else extend

unfoldable pub normalize_path_components : Bytes → Bool → Bool → List Bytes
unfolding walk
normalize_path_components path absolute collapse = reverse (walk absolute collapse false [] [] path)

-- The leading separators, each spelled as the traits spell it.
unfoldable pub prefix_of : Bytes → Bytes
prefix_of raw = map (λ c. if is_separator c then separator else c) (take (start_of raw) raw)

-- `output.push_back(prefix)` unless it is empty, and the other components behind it.
unfoldable pub with_prefix : Bytes → List Bytes → List Bytes
with_prefix [] output = output
with_prefix (c ∷ prefix) output = (c ∷ prefix) ∷ output

unfoldable pub normalized_components : Bytes → List Bytes
unfolding with_prefix
normalized_components raw =
    with_prefix (prefix_of raw)
      (normalize_path_components (drop (start_of raw) raw) (is_absolute raw) true)

-- The components with separators between them.
unfoldable pub join : List Bytes → Bytes
join [] = []
join (c ∷ []) = c
join (c ∷ d ∷ cs) = c ++ separator ∷ join (d ∷ cs)

-- With a root, the first component is written with no separator behind it.
unfoldable pub join_components : Bool → List Bytes → Bytes
unfolding join
join_components true (root ∷ components) = root ++ join components
join_components has_prefix components = join components

unfoldable pub normalized : Bytes → Bytes
unfolding normalized_components join_components
normalized raw = join_components (ltb 0 (start_of raw)) (normalized_components raw)

unfoldable pub child : Bytes → Bytes → Bytes
child [] name = name
child raw [] = raw
child raw name = if back_is is_separator raw then raw ++ name else raw ++ separator ∷ name

-- `parent`, behind the root: what stands before the last separator, one at the very end left
-- aside; the root alone if there is none.
unfoldable pub parent_in : Bytes → Bytes → Bytes
parent_in root tail =
    elim (split_last is_separator (if back_is is_separator tail then drop_back tail else tail)) [
      | none ↦ root
      | some (before, _) ↦ root ++ before
    ]

unfoldable pub parent : Bytes → Bytes
unfolding is_absolute parent_in
parent raw = parent_in (take (start_of raw) raw) (drop (start_of raw) raw)

abbrev pub is_dot : ℕ → Bool
is_dot c = c == b'.'

-- What stands behind the last separator; all of it if there is none.
unfoldable pub base_in : Bytes → Bytes
base_in tail = elim (split_last is_separator tail) [ none ↦ tail | some (_, after) ↦ after ]

unfoldable pub base_name : Bytes → Bytes
unfolding is_absolute base_in
base_name raw = base_in (drop (start_of raw) raw)

-- `base(extension)`.
unfoldable pub base : Bool → Bytes → Bytes
unfolding base_name
base true raw = base_name raw
base false raw =
    let name = base_name raw in
    elim (split_last is_dot name) [ none ↦ name | some (before, _) ↦ before ]

unfoldable pub extension : Bytes → Bytes
unfolding base
extension raw = elim (split_last is_dot (base true raw)) [ none ↦ [] | some (_, after) ↦ after ]

-- `resolved`: `Traits::Resolve` hands both texts through.
unfoldable pub resolved : Bytes → Bytes → Bytes
unfolding is_absolute child
resolved raw against = if is_absolute raw then raw else child against raw
