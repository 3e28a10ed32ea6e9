-- ===== src/Plist/Lexer/Safety.antt =====
-- Where ASCIIPListLexer.cpp reads past the end of the buffer, and where it does not.
use xcbuild.Prelude.{
  length, ◌-◌, not, ◌||◌, ℕ, suc, ◌+◌, Bool, true, false, ◌≡◌, ◌≢◌, refl, ap, Option, none, some,
  [], ◌∷◌, ◌++◌, ◌==◌, arith, drop, if◌then◌else◌, Every,
}
use xcbuild.Prelude.Text.{Bytes, back_is}
use xcbuild.Plist.Lexer.{
  read_length, number_integer, number_real, Style, ascii, json, Token, Lexer, init, Cursor, advance,
  skip, Scan, closed, unterminated, overrun, scan_long_comment, scan_single_quoted,
  scan_double_quoted, scan_data, drop_number, keyword_of, front, quoted_string, long_comment,
  plist_data, invalid_token, unterminated_long_comment, unterminated_quoted_string,
  unterminated_data, read_single, read_scan, read_inline_comment, read_keyword, read_number,
  read_styled, read_comment, read_single_quoted, read_double_quoted, read_data, read_at, read_from,
  read_token, is_skipped, point,
}
use xcbuild.Plist.Lexer.Bounds.{either}

abbrev pub is_backslash : ℕ → Bool
is_backslash c = c == b'\\'

scan_long_comment-overrun : (n : ℕ) (k : Cursor) (s : Bytes) → scan_long_comment n k s ≢ overrun
unfolding scan_long_comment
scan_long_comment-overrun n k [] h = cc h
scan_long_comment-overrun n k (c ∷ s) h =
    ground (arith, scan_long_comment-overrun (suc n) (advance c k) s)

scan_single_quoted-overrun : (n : ℕ) (k : Cursor) (s : Bytes) → scan_single_quoted n k s ≢ overrun
unfolding scan_single_quoted
scan_single_quoted-overrun n k [] h = cc h
scan_single_quoted-overrun n k (c ∷ s) h =
    ground (arith, scan_single_quoted-overrun (suc n) (advance c k) s)

scan_data-overrun : (n : ℕ) (k : Cursor) (s : Bytes) → scan_data n k s ≢ overrun
unfolding scan_data
scan_data-overrun n k [] h = cc h
scan_data-overrun n k (c ∷ s) h = ground (arith, scan_data-overrun (suc n) (advance c k) s)

scan_double_quoted-overrun :
    (n : ℕ) (k : Cursor) (s : Bytes)
    → back_is is_backslash s ≡ false
    → scan_double_quoted n k s ≢ overrun
unfolding scan_double_quoted back_is
scan_double_quoted-overrun n k [] b h = cc h
scan_double_quoted-overrun n k (c ∷ []) b h = ground arith
scan_double_quoted-overrun n k (c ∷ d ∷ []) b h =
    ground (arith, scan_double_quoted-overrun (suc n) (advance c k) (d ∷ []) b)
scan_double_quoted-overrun n k (c ∷ d ∷ e ∷ s) b h = ground (
  arith,
  scan_double_quoted-overrun (suc n) (advance c k) (d ∷ e ∷ s) b,
  scan_double_quoted-overrun (n + 2) (skip 2 k) (e ∷ s) b,
)

abbrev IsRead : Option (Token × Lexer) → Type 0
IsRead none = ⊥
IsRead (some r) = Unit

IsRead-read_scan :
    (t failure : Token) (b : ℕ) (l : Lexer) (scan : Scan)
    → scan ≢ overrun
    → IsRead (read_scan t failure b l scan)
unfolding read_scan
IsRead-read_scan t failure b l (closed m rest k) h = tt
IsRead-read_scan t failure b l (unterminated k) h = tt
IsRead-read_scan t failure b l overrun h = h refl

IsRead-read_keyword : (style : Style) (l : Lexer) → IsRead (read_keyword style l)
unfolding read_keyword
IsRead-read_keyword ascii l = tt
IsRead-read_keyword json l =
    elim (keyword_of l.rest)
      as (λ o. IsRead (elim o [
        | none ↦ read_length invalid_token 0 l.rest l
        | some (token, n) ↦ read_length token n (drop n l.rest) l
      ])) [ none ↦ tt | some (token, n) ↦ tt ]

IsRead-read_number : (style : Style) (l : Lexer) → IsRead (read_number style l)
unfolding read_number
IsRead-read_number ascii l = IsRead-read_keyword ascii l
IsRead-read_number json l =
    elim (drop_number json l.rest)
      as (λ o. IsRead (elim o [
        | none ↦ read_keyword json l
        | some (integer, rest) ↦
            read_length (if integer then number_integer else number_real)
              (length l.rest - length rest) rest l
      ])) [ none ↦ IsRead-read_keyword json l | some (integer, rest) ↦ tt ]

IsRead-read_styled :
    (s s' : Style) (t : Token) (k : Cursor) (rest : Bytes) (l : Lexer)
    → IsRead (read_styled s s' t k rest l)
unfolding read_styled
IsRead-read_styled ascii ascii t k rest l = tt
IsRead-read_styled json json t k rest l = tt
IsRead-read_styled ascii json t k rest l = tt
IsRead-read_styled json ascii t k rest l = tt

IsRead-read_comment : (k : Cursor) (rest : Bytes) (l : Lexer) → IsRead (read_comment k rest l)
unfolding read_comment
IsRead-read_comment k rest l =
    either IsRead (front rest == b'/') (read_inline_comment (skip 2 k) (drop 1 rest) l)
      (if front rest == b'*'
        then read_scan long_comment unterminated_long_comment (k.at + 2) (point k (b'/' ∷ rest) l)
            (scan_long_comment 0 (skip 2 k) (drop 1 rest))
        else read_keyword l.style (point k (b'/' ∷ rest) l))
      tt
      (either IsRead (front rest == b'*')
        (read_scan long_comment unterminated_long_comment (k.at + 2) (point k (b'/' ∷ rest) l)
          (scan_long_comment 0 (skip 2 k) (drop 1 rest)))
        (read_keyword l.style (point k (b'/' ∷ rest) l))
        (IsRead-read_scan long_comment unterminated_long_comment (k.at + 2)
          (point k (b'/' ∷ rest) l) (scan_long_comment 0 (skip 2 k) (drop 1 rest))
          (scan_long_comment-overrun 0 (skip 2 k) (drop 1 rest)))
        (IsRead-read_keyword l.style (point k (b'/' ∷ rest) l)))

IsRead-read_single_quoted :
    (s : Style) (k : Cursor) (rest : Bytes) (l : Lexer) → IsRead (read_single_quoted s k rest l)
unfolding read_single_quoted
IsRead-read_single_quoted json k rest l = tt
IsRead-read_single_quoted ascii k rest l =
    IsRead-read_scan quoted_string unterminated_quoted_string (k.at + 1) (point k (b'\'' ∷ rest) l)
      (scan_single_quoted 0 (skip 1 k) rest) (scan_single_quoted-overrun 0 (skip 1 k) rest)

IsRead-read_data :
    (s : Style) (k : Cursor) (rest : Bytes) (l : Lexer) → IsRead (read_data s k rest l)
unfolding read_data
IsRead-read_data json k rest l = tt
IsRead-read_data ascii k rest l =
    IsRead-read_scan plist_data unterminated_data (k.at + 1) (point k (b'<' ∷ rest) l)
      (scan_data 0 (skip 1 k) rest) (scan_data-overrun 0 (skip 1 k) rest)

IsRead-read_at :
    (k : Cursor) (c : ℕ) (rest : Bytes) (l : Lexer)
    → back_is is_backslash rest ≡ false
    → IsRead (read_at k c rest l)
unfolding read_at read_single
IsRead-read_at k c rest l b =
    let styled = λ (s' : Style) (t : Token). IsRead-read_styled l.style s' t k rest l in
    let l' = point k (c ∷ rest) l in
    search
      (
        either IsRead,
        styled,
        IsRead-read_comment k rest l,
        IsRead-read_single_quoted l.style k rest l,
        IsRead-read_scan quoted_string unterminated_quoted_string (k.at + 1)
            (point k (b'"' ∷ rest) l) (scan_double_quoted 0 (skip 1 k) rest)
            (scan_double_quoted-overrun 0 (skip 1 k) rest b),
        IsRead-read_data l.style k rest l,
        IsRead-read_number l.style l',
        IsRead-read_keyword l.style l',
      )
      depth 20

back_is-tail :
    (c : ℕ) (s : Bytes) → back_is is_backslash (c ∷ s) ≡ false → back_is is_backslash s ≡ false
unfolding back_is
back_is-tail c [] h = refl
back_is-tail c (d ∷ s) h = h

IsRead-read_from :
    (k : Cursor) (s : Bytes) (l : Lexer) → back_is is_backslash s ≡ false → IsRead (read_from k s l)
unfolding read_from
IsRead-read_from k [] l b = tt
IsRead-read_from k (c ∷ rest) l b =
    either IsRead (is_skipped c) (read_from (advance c k) rest l) (read_at k c rest l)
      (IsRead-read_from (advance c k) rest l (back_is-tail c rest b))
      (IsRead-read_at k c rest l (back_is-tail c rest b))

IsRead-some : (o : Option (Token × Lexer)) → IsRead o → (r : Token × Lexer) × (o ≡ some r)
IsRead-some none h = absurd h
IsRead-some (some r) h = (r, refl)

-- `ASCIIPListLexerReadToken` reads nothing behind the NUL that ends the buffer, and so returns,
-- where the buffer does not end in a backslash.
pub read_token-some :
    (l : Lexer)
    → back_is is_backslash l.rest ≡ false
    → (r : Token × Lexer) × (read_token l ≡ some r)
unfolding read_token
read_token-some l b =
    IsRead-some
      (read_from (record { at = l.at; line = l.line; line_start = l.line_start }) l.rest l)
      (IsRead-read_from (record { at = l.at; line = l.line; line_start = l.line_start }) l.rest l b)

-- The bytes of a string that its reader passes one at a time.
abbrev pub is_passed : ℕ → Bool
is_passed c = not (c == b'"' || c == b'\\' || c == 0)

scan_double_quoted_backslash :
    (n : ℕ) (k : Cursor) (s : Bytes)
    → Every (λ c. is_passed c ≡ true) s
    → scan_double_quoted n k (s ++ b'\\' ∷ []) ≡ overrun
unfolding scan_double_quoted
scan_double_quoted_backslash n k [] h = refl
scan_double_quoted_backslash n k (c ∷ []) h =
    ground (arith, h.0, scan_double_quoted_backslash (suc n) (advance c k) [] tt)
scan_double_quoted_backslash n k (c ∷ d ∷ s) h =
    ground (arith, h.0, scan_double_quoted_backslash (suc n) (advance c k) (d ∷ s) h.1)

-- At a string that is open at the end of the buffer, behind a backslash, it reads past that NUL.
pub read_token_overrun :
    (style : Style) (s : Bytes)
    → Every (λ c. is_passed c ≡ true) s
    → read_token (init (b'"' ∷ (s ++ b'\\' ∷ [])) style) ≡ none
unfolding read_token read_from read_at read_double_quoted read_scan
read_token_overrun style s h =
    ap
      (read_scan quoted_string unterminated_quoted_string 1 (init (b'"' ∷ (s ++ b'\\' ∷ [])) style))
      (scan_double_quoted_backslash 0 (record { at = 1; line = 1; line_start = 0 }) s h)
