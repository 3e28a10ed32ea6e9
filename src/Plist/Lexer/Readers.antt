-- ===== src/Plist/Lexer/Readers.antt =====
-- The readers of ASCIIPListLexer.cpp that walk over the bytes of one token.
use xcbuild.Prelude.{
  ℕ, suc, ◌+◌, ◌-◌, ◌%◌, Bool, true, false, not, ◌&&◌, ◌||◌, Option, none, some, [], ◌∷◌, ◌==◌, leb,
  drop, if◌then◌else◌,
}
use xcbuild.Prelude.Text.{Bytes, is_space}

pub data Style : Type 0 where
  ascii : Style
  json : Style

-- The byte that the pointer stands at, a NUL at the end.
unfoldable pub front : Bytes → ℕ
front [] = 0
front (c ∷ rest) = c

abbrev pub is_digit : ℕ → Bool
is_digit c = leb b'0' c && leb c b'9'

abbrev pub is_alnum : ℕ → Bool
is_alnum c = is_digit c || (leb b'A' c && leb c b'Z') || (leb b'a' c && leb c b'z')

unfoldable pub is_token_separator : Style → ℕ → Bool
is_token_separator json c = is_space c || c == 0 || c == b',' || c == b'}' || c == b']' || c == b':'
is_token_separator ascii c =
    is_space c || c == 0 || c == b',' || c == b';' || c == b')' || c == b'='

-- A byte's `hex2bin`, which wraps around below `0`.
unfoldable pub hex_to_bin : ℕ → ℕ
hex_to_bin c =
    if leb b'a' c && leb c b'f'
    then c - b'a' + 10
    else if leb b'A' c && leb c b'F'
    then c - b'A' + 10
    else (c + 256 - b'0') % 256

-- `while (test(*p)) p++`: what is behind, and how far it is.
unfoldable pub drop_while : (ℕ → Bool) → Bytes → Bytes
drop_while test [] = []
drop_while test (c ∷ rest) = if test c then drop_while test rest else c ∷ rest

unfoldable pub count_while : (ℕ → Bool) → Bytes → ℕ
count_while test [] = 0
count_while test (c ∷ rest) = if test c then suc (count_while test rest) else 0

-- A pointer's distance from the start, `line` and `lineStart`.
pub record Cursor : Type 0 where
  pub at : ℕ
  pub line : ℕ
  pub line_start : ℕ

-- `p++`, with the lines counted.
unfoldable pub advance : ℕ → Cursor → Cursor
advance c k =
    if c == 10
    then record { at = suc k.at; line = suc k.line; line_start = suc k.at }
    else record k { at = suc k.at }

abbrev pub skip : ℕ → Cursor → Cursor
skip n k = record k { at = k.at + n }

-- How a reader of a delimited token ends: with the length of the token, what stands behind it and
-- where; or without its end; or past the NUL behind the buffer.
pub data Scan : Type 0 where
  closed : ℕ → Bytes → Cursor → Scan
  unterminated : Cursor → Scan
  overrun : Scan

unfoldable pub scan_long_comment : ℕ → Cursor → Bytes → Scan
unfolding front advance
scan_long_comment n k [] = unterminated k
scan_long_comment n k (c ∷ rest) =
    if c == 0
    then unterminated k
    else if c == b'*' && front rest == b'/'
    then closed n (drop 1 rest) (skip 2 k)
    else scan_long_comment (suc n) (advance c k) rest

unfoldable pub scan_single_quoted : ℕ → Cursor → Bytes → Scan
unfolding advance
scan_single_quoted n k [] = unterminated k
scan_single_quoted n k (c ∷ rest) =
    if c == b'\''
    then closed n rest (skip 1 k)
    else if c == 0
    then unterminated k
    else scan_single_quoted (suc n) (advance c k) rest

-- A backslash takes the byte behind it along; at the end of the buffer that is the NUL.
unfoldable pub scan_double_quoted : ℕ → Cursor → Bytes → Scan
unfolding advance
scan_double_quoted n k [] = unterminated k
scan_double_quoted n k (c ∷ []) =
    if c == b'"'
    then closed n [] (skip 1 k)
    else if c == 0
    then unterminated k
    else if c == b'\\'
    then overrun
    else unterminated (advance c k)
scan_double_quoted n k (c ∷ d ∷ rest) =
    let escaped = scan_double_quoted (n + 2) (skip 2 k) rest in
    let next = scan_double_quoted (suc n) (advance c k) (d ∷ rest) in
    if c == b'"'
    then closed n (d ∷ rest) (skip 1 k)
    else if c == 0
    then unterminated k
    else if c == b'\\'
    then escaped
    else next

unfoldable pub scan_data : ℕ → Cursor → Bytes → Scan
unfolding advance hex_to_bin
scan_data n k [] = unterminated k
scan_data n k (c ∷ rest) =
    let next = scan_data (suc n) (advance c k) rest in
    if c == b'>'
    then closed n rest (skip 1 k)
    else if c == 0
    then unterminated k
    else if c == 10 || c == b' ' || not (leb 16 (hex_to_bin c))
    then next
    else unterminated k

-- The digits before the point of a number: none may follow a zero but zeros.
unfoldable pub drop_integer : Bool → Bytes → Option Bytes
drop_integer leading_zero [] = some []
drop_integer leading_zero (c ∷ rest) =
    let next = drop_integer leading_zero rest in
    if not (is_digit c)
    then some (c ∷ rest)
    else if leading_zero && not (c == b'0')
    then none
    else next

-- At least one digit.
unfoldable pub drop_digits : Bytes → Option Bytes
unfolding front drop_while
drop_digits s = if is_digit (front s) then some (drop_while is_digit s) else none

unfoldable pub drop_sign : (ℕ → Bool) → Bytes → Bytes
unfolding front
drop_sign test s = if test (front s) then drop 1 s else s

-- Whether there is a fraction, and what stands behind it.
unfoldable pub drop_fraction : Bytes → Option (Bool × Bytes)
unfolding front drop_digits
drop_fraction s =
    if front s == b'.'
    then elim (drop_digits (drop 1 s)) [ none ↦ none | some rest ↦ some (true, rest) ]
    else some (false, s)

unfoldable pub drop_exponent : Bytes → Option (Bool × Bytes)
unfolding front drop_digits drop_sign
drop_exponent s =
    if front s == b'e' || front s == b'E'
    then elim (drop_digits (drop_sign (λ c. c == b'+' || c == b'-') (drop 1 s))) [
      | none ↦ none
      | some rest ↦ some (true, rest)
    ]
    else some (false, s)

-- `ASCIIPListLexerReadJSONNumber`: whether it is an integer, and what stands behind it.
unfoldable pub drop_number : Style → Bytes → Option (Bool × Bytes)
unfolding front drop_sign drop_integer drop_fraction drop_exponent is_token_separator
drop_number style s =
    let digits = drop_sign (λ c. c == b'-') s in
    let integer : Option Bytes =
      if is_digit (front digits) then drop_integer (front digits == b'0') digits else none in
    elim integer [
      | none ↦ none
      | some whole ↦ elim (drop_fraction whole) [
        | none ↦ none
        | some (fraction, more) ↦ elim (drop_exponent more) [
          | none ↦ none
          | some (exponent, rest) ↦
              (if is_token_separator style (front rest)
                then some (not (fraction || exponent), rest)
                else none)
        ]
      ]
    ]

-- `strncmp` with a literal.
unfoldable pub has_prefix : Bytes → Bytes → Bool
has_prefix [] s = true
has_prefix (c ∷ word) [] = false
has_prefix (c ∷ word) (d ∷ s) = c == d && has_prefix word s

-- The bytes of an unquoted string.
unfoldable pub is_unquoted : ℕ → Bool
is_unquoted c =
    is_alnum c || c == b'_' || c == b'.' || c == b'$' || c == b'-' || c == b':' || c == b'/'
