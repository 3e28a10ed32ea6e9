-- ===== src/Plist/Writer/RoundTrip.antt =====
-- A string that ASCIIWriter.cpp writes, read by ASCIIPListLexer.cpp.
use xcbuild.Prelude.{true, false, ◌≡◌, refl, some, ◌++◌, Every}
use xcbuild.Prelude.Text.{Bytes}
use xcbuild.Plist.Lexer.{ascii, Token, Lexer, init, is_unquoted, front, read_token}
use xcbuild.Plist.Unquote.{unquote, token_text}
use xcbuild.Plist.Writer.{write_string}
use xcbuild.Plist.Writer.Escaped.{is_kept}
use xcbuild.Plist.Writer.Tokens.{Lexes-read_token, Lexes-write_string}

-- What the lexer finds at the start of a text, and what its token is a copy of.
abbrev Reads : Bytes → Bytes → Bytes → Type 0
Reads text s rest =
    (t : Token) × (l : Lexer) × (read_token (init text ascii) ≡ some (t, l))
    × (unquote (token_text text l) ≡ s)
    × (l.rest ≡ rest)

-- A string of ASCII bytes without NUL, backslash and vertical tab, quoted or not, is read back from
-- what `writeEscapedString` writes: the lexer finds one token, whose copy is the string, and stops
-- behind it, where the next byte is none of an unquoted string.
pub read_token-write_string :
    (s text rest : Bytes)
    → Every (λ c. is_kept c ≡ true) s
    → is_unquoted (front rest) ≡ false
    → write_string s ≡ some text
    → Reads (text ++ rest) s rest
read_token-write_string s text rest k f h =
    let buffer = text ++ rest in
    let (t, string, x) = Lexes-write_string buffer s text rest k f h in
    let (l, r, v, copied) =
      Lexes-read_token buffer text rest t (λ y. unquote y ≡ s) (init buffer ascii) x
        (record { style = refl; rest = refl; place = refl }) in
    (t, l, r, copied, v.rest)
