-- ===== src/Plist/Lexer.antt =====
-- Libraries/plist/Sources/Format/ASCIIPListLexer.cpp: the tokens of ASCII and JSON property lists.
-- A pointer into the buffer is the bytes from there to `endBuffer`, with its distance from
-- `inputBuffer`. The byte behind the buffer is NUL, which the program relies on; a read past it is
-- `none`. Bytes from 128 are no letters, as in the C locale.
mod Readers
pub mod Lengths
pub mod Bounds
pub mod Safety
use xcbuild.Prelude.{
  ℕ, ◌+◌, ◌-◌, Bool, true, false, not, ◌&&◌, ◌||◌, Option, none, some, List, [], ◌∷◌, ◌==◌, leb,
  length, drop, if◌then◌else◌,
}
use xcbuild.Prelude.Text.{Bytes, codes}
unfoldable pub use Readers.*

pub data Token : Type 0 where
  inline_comment : Token
  long_comment : Token
  unquoted_string : Token
  quoted_string : Token
  number_integer : Token
  number_real : Token
  bool_false : Token
  bool_true : Token
  null : Token
  dictionary_start : Token
  dictionary_key_val_separator : Token
  dictionary_end : Token
  array_start : Token
  array_end : Token
  plist_data : Token
  comma : Token
  semicolon : Token
  invalid_token : Token
  end_of_file : Token
  unterminated_long_comment : Token
  unterminated_quoted_string : Token
  unterminated_data : Token

-- `ASCIIPListLexer`; `rest` and `at` are its pointer.
pub record Lexer : Type 0 where
  pub style : Style
  pub rest : Bytes
  pub at : ℕ
  pub line : ℕ
  pub line_start : ℕ
  pub token_begin : ℕ
  pub token_length : ℕ

-- `ASCIIPListLexerInit`
abbrev pub init : Bytes → Style → Lexer
init buffer style = record {
  style = style;
  rest = buffer;
  at = 0;
  line = 1;
  line_start = 0;
  token_begin = 0;
  token_length = 0;
}

-- `lexer->pointer = p`
abbrev pub point : Cursor → Bytes → Lexer → Lexer
point k s l = record l { rest = s; at = k.at; line = k.line; line_start = k.line_start }

-- A token of one byte, with what stands behind it.
unfoldable pub read_single : Token → Cursor → Bytes → Lexer → Option (Token × Lexer)
read_single token k rest l =
    some (token, record (point (skip 1 k) rest l) { token_begin = k.at; token_length = 1 })

-- A token that is refused before anything of the lexer changes but its lines.
unfoldable pub refuse : Token → Cursor → Lexer → Option (Token × Lexer)
refuse token k l = some (token, record l { line = k.line; line_start = k.line_start })

-- What a reader makes of the end of its scan; the token began at `b`.
unfoldable pub read_scan : Token → Token → ℕ → Lexer → Scan → Option (Token × Lexer)
read_scan token failure b l (closed n rest k) =
    some (token, record (point k rest l) { token_begin = b; token_length = n })
read_scan token failure b l (unterminated k) =
    some (failure, record l { token_begin = b; line = k.line; line_start = k.line_start })
read_scan token failure b l overrun = none

-- The bytes up to the end of the line.
abbrev pub is_in_line : ℕ → Bool
is_in_line c = not (c == 0 || c == 10 || c == 13)

unfoldable pub read_inline_comment : Cursor → Bytes → Lexer → Option (Token × Lexer)
unfolding count_while drop_while
read_inline_comment k s l =
    let n = count_while is_in_line s in
    some (
      inline_comment,
      record (point (skip n k) (drop_while is_in_line s) l) {
        token_begin = k.at;
        token_length = n;
      },
    )

-- A keyword of JSON, with its length.
unfoldable pub keyword_of : Bytes → Option (Token × ℕ)
unfolding has_prefix is_token_separator front
keyword_of s =
    if has_prefix (codes "true") s && is_token_separator json (front (drop 4 s))
    then some (bool_true, 4)
    else if has_prefix (codes "false") s && is_token_separator json (front (drop 5 s))
    then some (bool_false, 5)
    else if has_prefix (codes "null") s && is_token_separator json (front (drop 4 s))
    then some (null, 4)
    else none

-- The token at the pointer, of that length.
abbrev pub read_length : Token → ℕ → Bytes → Lexer → Option (Token × Lexer)
read_length token n rest l =
    some (token, record l { rest = rest; at = l.at + n; token_begin = l.at; token_length = n })

unfoldable pub read_keyword : Style → Lexer → Option (Token × Lexer)
unfolding keyword_of count_while drop_while is_unquoted
read_keyword json l = elim (keyword_of l.rest) [
  | none ↦ read_length invalid_token 0 l.rest l
  | some (token, n) ↦ read_length token n (drop n l.rest) l
]
read_keyword ascii l =
    read_length unquoted_string (count_while is_unquoted l.rest) (drop_while is_unquoted l.rest) l

-- A number of JSON, or else a keyword.
unfoldable pub read_number : Style → Lexer → Option (Token × Lexer)
unfolding read_keyword drop_number
read_number ascii l = read_keyword ascii l
read_number json l = elim (drop_number json l.rest) [
  | none ↦ read_keyword json l
  | some (integer, rest) ↦
      read_length (if integer then number_integer else number_real) (length l.rest - length rest)
        rest l
]

-- A token of one byte that the other style does not have.
unfoldable pub read_styled : Style → Style → Token → Cursor → Bytes → Lexer → Option (Token × Lexer)
unfolding read_single refuse
read_styled ascii ascii token k rest l = read_single token k rest l
read_styled json json token k rest l = read_single token k rest l
read_styled ascii json token k rest l = refuse invalid_token k l
read_styled json ascii token k rest l = refuse invalid_token k l

unfoldable pub read_comment : Cursor → Bytes → Lexer → Option (Token × Lexer)
unfolding front read_inline_comment read_scan read_keyword scan_long_comment
read_comment k rest l =
    if front rest == b'/'
    then read_inline_comment (skip 2 k) (drop 1 rest) l
    else if front rest == b'*'
    then read_scan long_comment unterminated_long_comment (k.at + 2) (point k (b'/' ∷ rest) l)
        (scan_long_comment 0 (skip 2 k) (drop 1 rest))
    else read_keyword l.style (point k (b'/' ∷ rest) l)

-- A single quote, which JSON does not have.
unfoldable pub read_single_quoted : Style → Cursor → Bytes → Lexer → Option (Token × Lexer)
unfolding read_scan scan_single_quoted
read_single_quoted json k rest l = some (invalid_token, point k (b'\'' ∷ rest) l)
read_single_quoted ascii k rest l =
    read_scan quoted_string unterminated_quoted_string (k.at + 1) (point k (b'\'' ∷ rest) l)
      (scan_single_quoted 0 (skip 1 k) rest)

unfoldable pub read_double_quoted : Cursor → Bytes → Lexer → Option (Token × Lexer)
unfolding read_scan scan_double_quoted
read_double_quoted k rest l =
    read_scan quoted_string unterminated_quoted_string (k.at + 1) (point k (b'"' ∷ rest) l)
      (scan_double_quoted 0 (skip 1 k) rest)

unfoldable pub read_data : Style → Cursor → Bytes → Lexer → Option (Token × Lexer)
unfolding read_scan scan_data refuse
read_data json k rest l = refuse invalid_token k l
read_data ascii k rest l =
    read_scan plist_data unterminated_data (k.at + 1) (point k (b'<' ∷ rest) l)
      (scan_data 0 (skip 1 k) rest)

-- The `switch` at a byte that is not skipped.
unfoldable pub read_at : Cursor → ℕ → Bytes → Lexer → Option (Token × Lexer)
unfolding read_comment read_single read_styled read_single_quoted read_double_quoted read_data
    read_number read_keyword
read_at k c rest l =
    if c == b'/'
    then read_comment k rest l
    else if c == b'{'
    then read_single dictionary_start k rest l
    else if c == b'}'
    then read_single dictionary_end k rest l
    else if c == b'['
    then read_styled l.style json array_start k rest l
    else if c == b']'
    then read_styled l.style json array_end k rest l
    else if c == b'('
    then read_styled l.style ascii array_start k rest l
    else if c == b')'
    then read_styled l.style ascii array_end k rest l
    else if c == b':'
    then read_styled l.style json dictionary_key_val_separator k rest l
    else if c == b'='
    then read_styled l.style ascii dictionary_key_val_separator k rest l
    else if c == b','
    then read_single comma k rest l
    else if c == b';'
    then read_styled l.style ascii semicolon k rest l
    else if c == b'\''
    then read_single_quoted l.style k rest l
    else if c == b'"'
    then read_double_quoted k rest l
    else if c == b'<'
    then read_data l.style k rest l
    else if c == b'+' || c == b'-' || c == b'.' || is_digit c
    then read_number l.style (point k (c ∷ rest) l)
    else read_keyword l.style (point k (c ∷ rest) l)

abbrev pub is_skipped : ℕ → Bool
is_skipped c = c == b' ' || c == 12 || c == 9 || c == 13 || c == 10

-- `ASCIIPListLexerReadToken`, its loop over the bytes between tokens.
unfoldable pub read_from : Cursor → Bytes → Lexer → Option (Token × Lexer)
unfolding refuse read_at advance
read_from k [] l = refuse end_of_file k l
read_from k (c ∷ rest) l =
    let later = read_from (advance c k) rest l in if is_skipped c then later else read_at k c rest l

unfoldable pub read_token : Lexer → Option (Token × Lexer)
unfolding read_from
read_token l = read_from (record { at = l.at; line = l.line; line_start = l.line_start }) l.rest l
