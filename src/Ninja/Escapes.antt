-- ===== src/Ninja/Escapes.antt =====
-- The escapes of Value.cpp of ninja in one pass over the text.
use xcbuild.Prelude.{
  ℕ, zero, suc, Bool, true, false, ◌||◌, ◌≡◌, refl, ap, ◌∙◌, [], ◌∷◌, ◌==◌, length, arith,
  Bool-cases, inl, inr, if◌then◌else◌,
}
use xcbuild.Prelude.Text.{Bytes, codes}
use xcbuild.Ninja.{
  EscapeMode, as_value, path_list, build_path_list, string, is_front, replace_from, replace,
  resolve_chunk,
}

-- A dollar sign before each byte that the test holds of.
unfoldable pub escaped : (ℕ → Bool) → Bytes → Bytes
escaped test [] = []
escaped test (c ∷ s) = if test c then b'$' ∷ c ∷ escaped test s else c ∷ escaped test s

-- The bytes that a mode escapes.
abbrev pub is_special : EscapeMode → ℕ → Bool
is_special as_value c = c == b'$'
is_special path_list c = (c == b'$') || (c == b' ')
is_special build_path_list c = (c == b'$') || (c == b' ') || (c == b':')

replace_byte :
    (fuel x : ℕ) (s : Bytes)
    → fuel ≡ length s
    → replace_from fuel (x ∷ []) (b'$' ∷ x ∷ []) s ≡ escaped (λ c. c == x) s
unfolding replace_from is_front escaped
replace_byte zero x [] h = refl
replace_byte zero x (c ∷ s) h = absurd (omega arith)
replace_byte (suc fuel) x [] h = refl
replace_byte (suc fuel) x (c ∷ s) h = ground (arith, replace_byte fuel x s)

-- Two passes are one where the second escapes none of what the first did, nor the dollar sign.
escaped-escaped :
    (first second : ℕ → Bool) (s : Bytes)
    → second b'$' ≡ false
    → ((c : ℕ) → first c ≡ true → second c ≡ false)
    → escaped second (escaped first s) ≡ escaped (λ c. first c || second c) s
unfolding escaped
escaped-escaped first second [] d h = refl
escaped-escaped first second (c ∷ s) d h = elim (Bool-cases (first c)) [
  | inl y ↦ ground (arith, y, h c y, escaped-escaped first second s d h)
  | inr y ↦ ground (arith, y, escaped-escaped first second s d h)
]

dollar_pass : (s : Bytes) → replace s (codes "$") (codes "$$") ≡ escaped (λ c. c == b'$') s
dollar_pass s = replace_byte (length s) b'$' s refl

space_pass :
    (s : Bytes)
    → replace (replace s (codes "$") (codes "$$")) (codes " ") (codes "$ ")
      ≡ escaped (is_special path_list) s
space_pass s =
    ap (λ x. replace x (codes " ") (codes "$ ")) (dollar_pass s)
    ∙ replace_byte (length (escaped (λ c. c == b'$') s)) b' ' (escaped (λ c. c == b'$') s) refl
    ∙ escaped-escaped (λ c. c == b'$') (λ c. c == b' ') s refl (λ c h. ground arith)

escaped-ext :
    (first second : ℕ → Bool) (s : Bytes)
    → ((c : ℕ) → first c ≡ second c)
    → escaped first s ≡ escaped second s
unfolding escaped
escaped-ext first second [] h = refl
escaped-ext first second (c ∷ s) h = ground (arith, h c, escaped-ext first second s h)

-- In each of the three modes the replacements of a string, made one after another over the whole
-- text, are one pass that puts a dollar sign before each byte that the mode escapes.
pub resolve_chunk-escaped :
    (mode : EscapeMode) (s : Bytes) → resolve_chunk mode (string s) ≡ escaped (is_special mode) s
unfolding resolve_chunk
resolve_chunk-escaped as_value s = dollar_pass s
resolve_chunk-escaped path_list s = space_pass s
resolve_chunk-escaped build_path_list s =
    let both = escaped (is_special path_list) s in
    ap (λ x. replace x (codes ":") (codes "$:")) (space_pass s)
    ∙ replace_byte (length both) b':' both refl
    ∙ escaped-escaped (is_special path_list) (λ c. c == b':') s refl (λ c h. ground arith)
    ∙ escaped-ext (λ c. is_special path_list c || c == b':') (is_special build_path_list) s
        (λ c. ground arith)
