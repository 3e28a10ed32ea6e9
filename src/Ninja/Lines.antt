-- ===== src/Ninja/Lines.antt =====
-- How Ninja reads the line of a `build` that Writer.cpp of ninja writes.
use xcbuild.Prelude.{
  ℕ, zero, suc, ◌≤◌, Bool, true, false, ◌||◌, ◌≡◌, refl, ap, ◌∙◌, Option, none, some, List, [], ◌∷◌,
  ◌++◌, append_assoc, map, ◌==◌, length, arith, Every, Bool-cases, inl, inr, if◌then◌else◌,
}
use xcbuild.Prelude.Text.{Bytes, codes}
use xcbuild.Ninja.{build_path_list, Value, string, is_front, resolve, spaced}
use xcbuild.Ninja.Reader.{is_behind_path, read_path, IsPathText, read_path-resolve, resolve-escaped}
use xcbuild.Ninja.Escapes.{escaped, is_special}

-- The values of one string.
abbrev pub strings : List Bytes → List Value
strings texts = map (λ s. string s ∷ []) texts

unfoldable pub add_path : Bytes → Option (List Bytes × Bytes) → Option (List Bytes × Bytes)
add_path p none = none
add_path p (some (paths, rest)) = some (p ∷ paths, rest)

-- The paths behind a space each, until no space follows or a bar follows it. The fuel bounds their
-- number.
unfoldable pub read_paths : ℕ → Bytes → Option (List Bytes × Bytes)
unfolding read_path add_path
read_paths zero s = some ([], s)
read_paths (suc fuel) [] = some ([], [])
read_paths (suc fuel) (c ∷ s) =
    let more : Option (List Bytes × Bytes) = elim (read_path false s) [
      | none ↦ none
      | some (p, rest) ↦ add_path p (read_paths fuel rest)
    ] in
    if c == b' '
    then (if is_front (codes "|") s then some ([], c ∷ s) else more)
    else some ([], c ∷ s)

-- What stands behind the paths: a colon, the end of the line, or a space and a bar.
abbrev pub is_behind_paths : Bytes → Bool
is_behind_paths [] = false
is_behind_paths (c ∷ rest) =
    if c == b' ' then is_front (codes "|") rest else (c == b':') || (c == 10)

starts_no_bar :
    (s rest : Bytes)
    → IsPathText s
    → is_front (codes "|") rest ≡ false
    → is_front (codes "|") (escaped (is_special build_path_list) s ++ rest) ≡ false
unfolding escaped is_front
starts_no_bar [] rest p h = h
starts_no_bar (c ∷ s) rest (q, p) h = elim (Bool-cases (is_special build_path_list c)) [
  | inl y ↦ ground (arith, y)
  | inr y ↦ ground (arith, y, q)
]

-- Behind a path stand more paths or what ends them.
pub spaced_lem :
    (texts : List Bytes) (rest : Bytes)
    → is_behind_paths rest ≡ true
    → let s = spaced build_path_list (strings texts) ++ rest in
      (is_behind_path s ≡ true) × (is_front (codes "|") s ≡ false)
unfolding spaced is_front
spaced_lem [] [] h = absurd (cc h)
spaced_lem [] (c ∷ rest) h = (ground arith, ground arith)
spaced_lem (p ∷ texts) rest h = (refl, refl)

read_paths_next :
    (fuel : ℕ) (s : Bytes) (p rest : Bytes)
    → is_front (codes "|") s ≡ false
    → read_path false s ≡ some (p, rest)
    → read_paths (suc fuel) (b' ' ∷ s) ≡ add_path p (read_paths fuel rest)
unfolding read_paths
read_paths_next fuel s p rest b h = rw (read_paths, b, h)

-- The paths are read back, to what ends them.
pub read_paths-spaced :
    (fuel : ℕ) (texts : List Bytes) (rest : Bytes)
    → Every IsPathText texts
    → is_behind_paths rest ≡ true
    → length texts ≤ fuel
    → read_paths fuel (spaced build_path_list (strings texts) ++ rest) ≡ some (texts, rest)
unfolding read_paths spaced add_path is_front
read_paths-spaced zero [] rest p b l = refl
read_paths-spaced zero (t ∷ texts) rest p b l = absurd (omega arith)
read_paths-spaced (suc fuel) [] [] p b l = refl
read_paths-spaced (suc fuel) [] (c ∷ rest) p b l = ground arith
read_paths-spaced (suc fuel) (t ∷ texts) rest (q, p) b l =
    let behind = spaced build_path_list (strings texts) ++ rest in
    let one = resolve build_path_list (string t ∷ []) in
    let (h, n) = spaced_lem texts rest b in
    let bar : is_front (codes "|") (one ++ behind) ≡ false =
      ap (λ x. is_front (codes "|") (x ++ behind)) (resolve-escaped t)
      ∙ starts_no_bar t behind q n in
    ap (λ x. read_paths (suc fuel) (b' ' ∷ x))
      (append_assoc one (spaced build_path_list (strings texts)) rest)
    ∙ read_paths_next fuel (one ++ behind) t behind bar (read_path-resolve t behind q h)
    ∙ ap (add_path t) (read_paths-spaced fuel texts rest p b (omega arith))
