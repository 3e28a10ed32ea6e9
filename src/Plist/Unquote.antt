-- ===== src/Plist/Unquote.antt =====
-- `ASCIIPListCopyUnquotedString` and `ASCIIPListCopyData` of
-- Libraries/plist/Sources/Format/ASCIIPListLexer.cpp, which work in place: what stands before their
-- pointer is what they return, what stands behind it is still to be read. The branches with the
-- loss byte are never taken: `dehexify` is called with a length that is never positive, so that it
-- reads no digit, `deoctify` is not called for the same reason, and `deunicodify` only at a digit.
use xcbuild.Prelude.{
  ℕ, zero, suc, ◌+◌, ◌*◌, ◌/◌, ◌%◌, Bool, ◌||◌, ◌&&◌, [], ◌∷◌, ◌++◌, ◌==◌, leb, ltb, take, drop,
  if◌then◌else◌,
}
use xcbuild.Prelude.Text.{Bytes}
use xcbuild.Plist.Lexer.{Lexer, front, is_digit, hex_to_bin}

abbrev pub is_xdigit : ℕ → Bool
is_xdigit c = is_digit c || (leb b'a' c && leb c b'f') || (leb b'A' c && leb c b'F')

-- The hexadecimal digits at the front, that many at most: their count and their number.
unfoldable pub count_xdigits : ℕ → Bytes → ℕ
count_xdigits zero s = 0
count_xdigits (suc n) [] = 0
count_xdigits (suc n) (c ∷ s) = if is_xdigit c then suc (count_xdigits n s) else 0

unfoldable pub codepoint_from : ℕ → ℕ → Bytes → ℕ
unfolding hex_to_bin
codepoint_from value zero s = value
codepoint_from value (suc n) [] = value
codepoint_from value (suc n) (c ∷ s) =
    let next = codepoint_from (value * 16 + hex_to_bin c) n s in if is_xdigit c then next else value

-- The bytes that `deunicodify` writes and steps over: none for an ASCII character, which is written
-- and then taken away.
unfoldable pub utf8 : ℕ → Bytes
utf8 code =
    if leb code 0x7f
    then []
    else if leb code 0x7ff
    then (0xc0 + code / 64) ∷ (0x80 + code % 64) ∷ []
    else if leb code 0xffff
    then (0xe0 + code / 4096) ∷ (0x80 + code / 64 % 64) ∷ (0x80 + code % 64) ∷ []
    else (0xf0 + code / 262144)
      ∷ (0x80 + code / 4096 % 64)
      ∷ (0x80 + code / 64 % 64)
      ∷ (0x80 + code % 64)
      ∷ []

abbrev pub clamp_codepoint : ℕ → ℕ
clamp_codepoint code = if ltb code 0x110000 then code else 0xfffe

-- `deunicodify`, behind `\u` or `\U`.
unfoldable pub deunicodify : ℕ → Bytes → Bytes
unfolding utf8 codepoint_from
deunicodify most s = utf8 (clamp_codepoint (codepoint_from 0 most s))

-- What a backslash and the byte behind it are replaced by, and how many bytes more are eaten.
unfoldable pub unescape : ℕ → Bytes → Bytes
unfolding front deunicodify
unescape c s =
    if c == b'a'
    then 7 ∷ []
    else if c == b'b'
    then 8 ∷ []
    else if c == b'f'
    then 12 ∷ []
    else if c == b'n'
    then 10 ∷ []
    else if c == b'r'
    then 13 ∷ []
    else if c == b't'
    then 9 ∷ []
    else if c == b'x' || c == 13 || c == 10
    then []
    else if (c == b'u' || c == b'U') && is_xdigit (front s)
    then deunicodify (if c == b'U' then 8 else 4) s
    else c ∷ []

unfoldable pub eaten : ℕ → Bytes → ℕ
unfolding front count_xdigits
eaten c s = if c == b'u' || c == b'U' then count_xdigits (if c == b'U' then 8 else 4) s else 0

-- The loop, with the count of the bytes that are to be eaten.
unfoldable pub unquote_from : ℕ → Bytes → Bytes
unfolding unescape eaten
unquote_from n [] = []
unquote_from (suc n) (c ∷ s) = unquote_from n s
unquote_from zero (c ∷ []) = if c == b'\\' then [] else c ∷ []
unquote_from zero (c ∷ d ∷ s) =
    let replaced = unescape d s ++ unquote_from (eaten d s) s in
    let escaped = if d == 0 then d ∷ s else replaced in
    let next = c ∷ unquote_from zero (d ∷ s) in
    if c == 0 then c ∷ d ∷ s else if c == b'\\' then escaped else next

unfoldable pub unquote : Bytes → Bytes
unfolding unquote_from
unquote text = unquote_from 0 text

-- The text of a token: `tokenLength` bytes from `tokenBegin`.
abbrev pub token_text : Bytes → Lexer → Bytes
token_text buffer l = take l.token_length (drop l.token_begin buffer)

-- `ASCIIPListCopyData`
unfoldable pub copy_data : Bytes → Bytes
copy_data [] = []
copy_data (c ∷ s) = if c == b' ' then copy_data s else c ∷ copy_data s
