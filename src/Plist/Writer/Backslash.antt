-- ===== src/Plist/Writer/Backslash.antt =====
-- A backslash in a string that ASCIIWriter.cpp writes.
use xcbuild.Prelude.{
  ℕ, ◌+◌, true, false, ◌≡◌, refl, sym, ap, subst, ◌∙◌, some, [], ◌∷◌, ◌++◌, ltb, length, arith,
  append_assoc, Every, Every-append,
}
use xcbuild.Prelude.Text.{Bytes}
use xcbuild.Plist.Lexer.{
  ascii, unterminated_quoted_string, quoted_string, Lexer, init, Cursor, skip, unterminated,
  scan_double_quoted, read_scan, read_double_quoted, read_at, read_from, read_token,
}
use xcbuild.Plist.Writer.{escape_byte, all_plain, needs_quoting, write_string}
use xcbuild.Plist.Writer.Escaped.{
  is_kept, escaped, escape-escaped, Every-below, scan-escaped, some_inj,
}

escaped-backslash : (s : Bytes) → escaped (s ++ b'\\' ∷ []) ≡ escaped s ++ b'\\' ∷ []
unfolding escaped escape_byte
escaped-backslash [] = refl
escaped-backslash (c ∷ s) =
    ap (λ t. escape_byte c ++ t) (escaped-backslash s)
    ∙ sym (append_assoc (escape_byte c) (escaped s) (b'\\' ∷ []))

all_plain-backslash : (s : Bytes) → all_plain (s ++ b'\\' ∷ []) ≡ false
unfolding all_plain
all_plain-backslash [] = refl
all_plain-backslash (c ∷ s) = ground (arith, all_plain-backslash s)

needs_quoting-backslash : (s : Bytes) → needs_quoting (s ++ b'\\' ∷ []) ≡ true
unfolding needs_quoting
needs_quoting-backslash [] = unfold all_plain in refl
needs_quoting-backslash (c ∷ s) = rw (all_plain-backslash (c ∷ s)) refl

write_string-backslash :
    (s : Bytes)
    → Every (λ c. is_kept c ≡ true) s
    → write_string (s ++ b'\\' ∷ []) ≡ some (b'"' ∷ (escaped s ++ b'\\' ∷ b'"' ∷ []))
unfolding write_string
write_string-backslash s h = rw (needs_quoting-backslash s) (
    rw
      (escape-escaped (s ++ b'\\' ∷ [])
        (Every-append (λ c. ltb 0x80 c ≡ false) s (b'\\' ∷ []) (Every-below s h) (refl, tt)))
      (rw (escaped-backslash s)
        (ap (λ t. some (b'"' ∷ t)) (append_assoc (escaped s) (b'\\' ∷ []) (b'"' ∷ [])))))

scan_backslash :
    (n : ℕ) (k : Cursor) → scan_double_quoted n k (b'\\' ∷ b'"' ∷ []) ≡ unterminated (skip 2 k)
unfolding scan_double_quoted
scan_backslash n k = refl

-- `writeEscapedString` does not escape a backslash: where a backslash is the last byte of a string
-- and the bytes before it are ASCII without NUL, backslash and vertical tab, the string is written so
-- that the lexer takes the closing quote into it, and finds no end.
pub read_token_backslash :
    (s text : Bytes)
    → Every (λ c. is_kept c ≡ true) s
    → write_string (s ++ b'\\' ∷ []) ≡ some text
    → (l : Lexer) × (read_token (init text ascii) ≡ some (unterminated_quoted_string, l))
unfolding read_token read_from read_at read_double_quoted
read_token_backslash s text h w =
    let written = b'"' ∷ (escaped s ++ b'\\' ∷ b'"' ∷ []) in
    let l = init written ascii in
    let (k, e) =
      scan-escaped s 0 (record { at = 1; line = 1; line_start = 0 }) (b'\\' ∷ b'"' ∷ []) h in
    subst (λ u. (l : Lexer) × (read_token (init u ascii) ≡ some (unterminated_quoted_string, l)))
      (some_inj (sym (write_string-backslash s h) ∙ w))
      (
        record l { token_begin = 1; line = k.line; line_start = k.line_start },
        ap (read_scan quoted_string unterminated_quoted_string 1 l)
              (e ∙ scan_backslash (0 + length (escaped s)) k)
            ∙ unfold read_scan in refl,
      )
