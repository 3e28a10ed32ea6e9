-- ===== src/Tests/Plists.antt =====
-- The lexer and the string writer of property lists at concrete inputs.
use xcbuild.Prelude.{◌≡◌, refl, ℕ, zero, suc, ◌+◌, false, none, some, List, [], ◌∷◌, ◌++◌, length}
use xcbuild.Prelude.Text.{codes, back_is}
use xcbuild.Plist.Lexer.{
  ascii, json, Token, dictionary_start, array_start, dictionary_key_val_separator, semicolon, comma,
  quoted_string, unquoted_string, long_comment, plist_data, number_integer, number_real, bool_true,
  invalid_token, unterminated_quoted_string, Lexer, init, read_token,
}
use xcbuild.Plist.Lexer.Bounds.{IsInside, read_token-IsInside}
use xcbuild.Plist.Lexer.Safety.{is_backslash, read_token-some, read_token_overrun}
use xcbuild.Plist.Unquote.{unquote}
use xcbuild.Plist.Writer.{write_string}
use xcbuild.Plist.Writer.Backslash.{read_token_backslash}

-- The tokens up to a count, with their places and lengths.
tokens : ℕ → Lexer → List (Token × ℕ × ℕ)
unfolding read_token
tokens zero l = []
tokens (suc fuel) l = elim (read_token l) [
  | none ↦ []
  | some (t, l') ↦ (t, l'.token_begin, l'.token_length) ∷ tokens fuel l'
]

dictionary_tokens :
    tokens 9 (init (codes "{ a = \"x\\\"y\"; /* c */ b = <0a ff>; }") ascii)
    ≡ (dictionary_start, 0, 1)
      ∷ (unquoted_string, 2, 1)
      ∷ (dictionary_key_val_separator, 4, 1)
      ∷ (quoted_string, 7, 4)
      ∷ (semicolon, 12, 1)
      ∷ (long_comment, 16, 3)
      ∷ (unquoted_string, 22, 1)
      ∷ (dictionary_key_val_separator, 24, 1)
      ∷ (plist_data, 27, 5)
      ∷ []
unfolding tokens
dictionary_tokens = refl

-- A number that starts with a zero is refused.
array_tokens :
    tokens 8 (init (codes "[1, -2.5e3, true, 007]") json)
    ≡ (array_start, 0, 1)
      ∷ (number_integer, 1, 1)
      ∷ (comma, 2, 1)
      ∷ (number_real, 4, 6)
      ∷ (comma, 10, 1)
      ∷ (bool_true, 12, 4)
      ∷ (comma, 16, 1)
      ∷ (invalid_token, 18, 0)
      ∷ []
unfolding tokens
array_tokens = refl

-- The bytes between `9` and `@` pass for hexadecimal digits.
data_digits : tokens 1 (init (codes "<:;=?>") ascii) ≡ (plist_data, 1, 4) ∷ []
unfolding tokens
data_digits = refl

-- A byte that begins no token is an empty string, again and again.
empty_strings :
    tokens 2 (init (codes "@") ascii) ≡ (unquoted_string, 0, 0) ∷ (unquoted_string, 0, 0) ∷ []
unfolding tokens
empty_strings = refl

-- Escapes of ASCII characters by number lose the character or keep its digits.
unquote_numbers :
    unquote (codes "a\\x41b\\u0041c\\u00e9\\n") ≡ codes "a41bc" ++ 0xc3 ∷ 0xa9 ∷ 10 ∷ []
unfolding unquote
unquote_numbers = refl

abbrev after_brace : Lexer
after_brace = record (init (codes "{a}") ascii) { rest = codes "a}"; at = 1; token_length = 1 }

read_brace : read_token (init (codes "{a}") ascii) ≡ some (dictionary_start, after_brace)
unfolding read_token
read_brace = refl

read_token-IsInside_example : IsInside 0 (0 + length (codes "{a}")) dictionary_start after_brace
read_token-IsInside_example =
    read_token-IsInside (init (codes "{a}") ascii) after_brace dictionary_start read_brace

no_backslash : back_is is_backslash (codes "\"a\\\"b\"") ≡ false
unfolding back_is
no_backslash = refl

read_token-some_example :
    (r : Token × Lexer) × (read_token (init (codes "\"a\\\"b\"") json) ≡ some r)
read_token-some_example = read_token-some (init (codes "\"a\\\"b\"") json) no_backslash

overrun_at_end : read_token (init (codes "\"ab\\") json) ≡ none
overrun_at_end = read_token_overrun json (codes "ab") (refl, (refl, tt))

write_quoted : write_string (codes "a\"b c") ≡ some (codes "\"a\\\"b c\"")
unfolding write_string
write_quoted = refl

write_backslash : write_string (codes "a\\") ≡ some (codes "\"a\\\"")
unfolding write_string
write_backslash = refl

read_token_backslash_example :
    (l : Lexer) × (read_token (init (codes "\"a\\\"") ascii) ≡ some (unterminated_quoted_string, l))
read_token_backslash_example =
    read_token_backslash (codes "a") (codes "\"a\\\"") (refl, tt) write_backslash
