-- ===== src/Ninja/Reader.antt =====
-- How Ninja reads the paths that Value.cpp of ninja writes: a dollar sign before a dollar sign, a
-- space or a colon stands for that byte, and a space, a colon, a bar or the end of the line ends the
-- path.
use xcbuild.Prelude.{
  ℕ, Bool, true, false, ◌||◌, ◌≡◌, ap, ◌∙◌, Option, none, some, [], ◌∷◌, ◌++◌, append-nil, ◌==◌,
  arith, Every, Bool-cases, inl, inr, if◌then◌else◌,
}
use xcbuild.Prelude.Text.{Bytes}
use xcbuild.Ninja.{build_path_list, string, resolve_chunk, resolve}
use xcbuild.Ninja.Escapes.{escaped, is_special, resolve_chunk-escaped}

unfoldable pub put_front : ℕ → Option (Bytes × Bytes) → Option (Bytes × Bytes)
put_front c none = none
put_front c (some (s, rest)) = some (c ∷ s, rest)

abbrev pub is_end : ℕ → Bool
is_end c = (c == b' ') || (c == b':') || (c == b'|') || (c == 10) || (c == 13)

-- The path up to its end, and the text from there; the flag tells of a dollar sign before.
unfoldable pub read_path : Bool → Bytes → Option (Bytes × Bytes)
unfolding put_front
read_path false [] = some ([], [])
read_path true [] = none
read_path false (c ∷ s) =
    let escape = read_path true s in
    let rest = put_front c (read_path false s) in
    if c == b'$' then escape else if is_end c then some ([], c ∷ s) else rest
read_path true (c ∷ s) =
    let rest = put_front c (read_path false s) in
    if is_special build_path_list c then rest else none

-- Ninja has no escape for a bar or the end of a line.
abbrev pub IsPathText : Bytes → Type 0
IsPathText s = Every (λ c. ((c == b'|') || (c == 10) || (c == 13)) ≡ false) s

-- What stands behind a path.
abbrev pub is_behind_path : Bytes → Bool
is_behind_path [] = false
is_behind_path (c ∷ rest) = is_end c

read_path-escaped :
    (s rest : Bytes)
    → IsPathText s
    → is_behind_path rest ≡ true
    → read_path false (escaped (is_special build_path_list) s ++ rest) ≡ some (s, rest)
unfolding read_path escaped put_front
read_path-escaped [] [] p h = absurd (cc h)
read_path-escaped [] (e ∷ rest) p h = ground (arith, h)
read_path-escaped (c ∷ s) rest (q, p) h = elim (Bool-cases (is_special build_path_list c)) [
  | inl y ↦ ground (arith, y, read_path-escaped s rest p h)
  | inr y ↦ ground (arith, y, q, read_path-escaped s rest p h)
]

pub resolve-escaped :
    (s : Bytes) → resolve build_path_list (string s ∷ []) ≡ escaped (is_special build_path_list) s
unfolding resolve
resolve-escaped s =
    append-nil (resolve_chunk build_path_list (string s)) ∙ resolve_chunk-escaped build_path_list s

-- A value of one string, in the escapes of a build line, is read back, whatever ends it.
pub read_path-resolve :
    (s rest : Bytes)
    → IsPathText s
    → is_behind_path rest ≡ true
    → read_path false (resolve build_path_list (string s ∷ []) ++ rest) ≡ some (s, rest)
read_path-resolve s rest p h =
    ap (λ x. read_path false (x ++ rest)) (resolve-escaped s) ∙ read_path-escaped s rest p h
