-- ===== src/Plist/Writer/Tokens.antt =====
-- Tokens of ASCIIPListLexer.cpp anywhere in a buffer, and the strings of ASCIIWriter.cpp as tokens.
use xcbuild.Prelude.{
  ℕ, zero, suc, ◌+◌, true, false, ◌≡◌, ◌⊎◌, refl, sym, ap, subst, ◌∙◌, some, [], ◌∷◌, ◌++◌, length,
  length-append, take, drop, arith, inl, inr, Bool-cases, append_assoc, Every,
}
use xcbuild.Prelude.Text.{Bytes, codes}
use xcbuild.Plist.Lexer.{
  ascii, Token, quoted_string, unquoted_string, unterminated_quoted_string, dictionary_start,
  dictionary_end, array_start, array_end, comma, semicolon, dictionary_key_val_separator, Lexer,
  Cursor, advance, skip, closed, scan_double_quoted, drop_while, is_unquoted, front, read_scan,
  read_double_quoted, read_keyword, read_from, read_token, point, read_length, is_skipped,
  read_single,
}
use xcbuild.Plist.Lexer.Lengths.{scan_double_quoted-closed}
use xcbuild.Plist.Unquote.{unquote, token_text}
use xcbuild.Plist.Writer.{escape, all_plain, needs_quoting, write_string}
use xcbuild.Plist.Writer.Escaped.{
  is_kept, escaped, scan-escaped, scan_quote, unquote-escaped, unquote-plain, count_while-plain,
  take_front, read_from-plain, some_inj, write_string-plain, write_string-quoted,
}

-- The lexer stands at that rest of the buffer.
pub record IsAt (buffer : Bytes) (l : Lexer) (s : Bytes) : Type 0 where
  pub style : l.style ≡ ascii
  pub rest : l.rest ≡ s
  pub place : drop l.at buffer ≡ s

-- Behind a text that stands at a place.
pub drop_behind :
    (n m : ℕ) (text buffer rest : Bytes)
    → drop n buffer ≡ text ++ rest
    → m ≡ n + length text
    → drop m buffer ≡ rest
drop_behind zero zero [] buffer rest h e = h
drop_behind zero zero (c ∷ text) buffer rest h e = absurd (omega arith)
drop_behind zero (suc m) [] buffer rest h e = absurd (omega arith)
drop_behind zero (suc m) (c ∷ text) [] rest h e = absurd (cc h)
drop_behind zero (suc m) (c ∷ text) (d ∷ buffer) rest h e =
    drop_behind zero m text buffer rest (cc h) (omega arith)
drop_behind (suc n) zero text buffer rest h e = absurd (omega arith)
drop_behind (suc n) (suc m) [] [] rest h e = h
drop_behind (suc n) (suc m) (c ∷ text) [] rest h e = absurd (cc h)
drop_behind (suc n) (suc m) text (d ∷ buffer) rest h e =
    drop_behind n m text buffer rest h (omega arith)

-- At a text the lexer finds a token whose bytes are as told, and stands behind the text.
abbrev pub Lexes : Bytes → Bytes → Bytes → Token → (Bytes → Type 0) → Type 0
Lexes buffer text rest t Q =
    (k : Cursor) (l : Lexer)
    → drop k.at buffer ≡ text ++ rest
    → (l' : Lexer) × (read_from k (text ++ rest) (record l { style = ascii }) ≡ some (t, l'))
      × IsAt buffer l' rest
      × Q (token_text buffer l')

pub Lexes-read_token :
    (buffer text rest : Bytes) (t : Token) (Q : Bytes → Type 0) (l : Lexer)
    → Lexes buffer text rest t Q
    → IsAt buffer l (text ++ rest)
    → (l' : Lexer) × (read_token l ≡ some (t, l')) × IsAt buffer l' rest × Q (token_text buffer l')
unfolding read_token
Lexes-read_token buffer text rest t Q l x v =
    let k : Cursor = record { at = l.at; line = l.line; line_start = l.line_start } in
    let (l', r, w, q) = x k l v.place in
    (
      l',
      ap (λ s. read_from k s l) v.rest
          ∙ ap (λ s. read_from k (text ++ rest) (record l { style = s })) v.style
          ∙ r,
      w,
      q,
    )

-- A blank before a token.
pub Lexes-blank :
    (buffer : Bytes) (c : ℕ) (text rest : Bytes) (t : Token) (Q : Bytes → Type 0)
    → is_skipped c ≡ true
    → Lexes buffer text rest t Q
    → Lexes buffer (c ∷ text) rest t Q
unfolding read_from
Lexes-blank buffer c text rest t Q b x k l h =
    let next : (advance c k).at ≡ k.at + 1 = unfold advance in ground arith in
    let (l', r, w, q) =
      x (advance c k) l (drop_behind k.at (advance c k).at (c ∷ []) buffer (text ++ rest) h next) in
    (l', rw b r, w, q)

-- A token of one byte.
pub Lexes-single :
    (buffer : Bytes) (c : ℕ) (rest : Bytes) (t : Token)
    → ((k : Cursor) (l : Lexer)
        → read_from k (c ∷ rest) (record l { style = ascii })
          ≡ read_single t k rest (record l { style = ascii }))
    → Lexes buffer (c ∷ []) rest t (λ s. Unit)
Lexes-single buffer c rest t e k l h = (
  record (point (skip 1 k) rest (record l { style = ascii })) {
    token_begin = k.at;
    token_length = 1;
  },
  e k l ∙ unfold read_single in refl,
  record {
    style = refl;
    rest = refl;
    place = drop_behind k.at (k.at + 1) (c ∷ []) buffer rest h refl;
  },
  tt,
)

pub Lexes-dictionary_start :
    (buffer rest : Bytes) → Lexes buffer (codes "{") rest dictionary_start (λ s. Unit)
unfolding read_from
Lexes-dictionary_start buffer rest = Lexes-single buffer b'{' rest dictionary_start (λ k l. refl)

pub Lexes-dictionary_end :
    (buffer rest : Bytes) → Lexes buffer (codes "}") rest dictionary_end (λ s. Unit)
unfolding read_from
Lexes-dictionary_end buffer rest = Lexes-single buffer b'}' rest dictionary_end (λ k l. refl)

pub Lexes-array_start :
    (buffer rest : Bytes) → Lexes buffer (codes "(") rest array_start (λ s. Unit)
unfolding read_from
Lexes-array_start buffer rest = Lexes-single buffer b'(' rest array_start (λ k l. refl)

pub Lexes-array_end : (buffer rest : Bytes) → Lexes buffer (codes ")") rest array_end (λ s. Unit)
unfolding read_from
Lexes-array_end buffer rest = Lexes-single buffer b')' rest array_end (λ k l. refl)

pub Lexes-comma : (buffer rest : Bytes) → Lexes buffer (codes ",") rest comma (λ s. Unit)
unfolding read_from
Lexes-comma buffer rest = Lexes-single buffer b',' rest comma (λ k l. refl)

pub Lexes-semicolon : (buffer rest : Bytes) → Lexes buffer (codes ";") rest semicolon (λ s. Unit)
unfolding read_from
Lexes-semicolon buffer rest = Lexes-single buffer b';' rest semicolon (λ k l. refl)

pub Lexes-separator :
    (buffer rest : Bytes) → Lexes buffer (codes "=") rest dictionary_key_val_separator (λ s. Unit)
unfolding read_from
Lexes-separator buffer rest =
    Lexes-single buffer b'=' rest dictionary_key_val_separator (λ k l. refl)

-- A token of delimited bytes: the scan of them is closed.
pub Lexes-closed :
    (buffer : Bytes) (c d : ℕ) (text rest : Bytes) (t failure : Token) (Q : Bytes → Type 0)
    → Q text
    → ((k : Cursor) (l : Lexer)
        → (k' : Cursor) × (read_from k (c ∷ (text ++ d ∷ rest)) (record l { style = ascii })
            ≡ read_scan t failure
                (k.at + 1)
                (point k (c ∷ (text ++ d ∷ rest)) (record l { style = ascii }))
                (closed (length text) rest k'))
          × (k'.at ≡ k.at + (length text + 2)))
    → Lexes buffer (c ∷ (text ++ d ∷ [])) rest t Q
Lexes-closed buffer c d text rest t failure Q q e k l h =
    let whole : c ∷ ((text ++ d ∷ []) ++ rest) ≡ c ∷ (text ++ d ∷ rest) =
      ap (λ s. c ∷ s) (append_assoc text (d ∷ []) rest) in
    let (k', r, p) = e k l in
    let l0 = point k (c ∷ (text ++ d ∷ rest)) (record l { style = ascii }) in
    let inner : drop (k.at + 1) buffer ≡ text ++ d ∷ rest =
      drop_behind k.at (k.at + 1) (c ∷ []) buffer (text ++ d ∷ rest) (h ∙ whole) refl in
    let copied : take (length text) (drop (k.at + 1) buffer) ≡ text =
      ap (take (length text)) inner ∙ take_front text (d ∷ rest) in
    (
      record (point k' rest l0) { token_begin = k.at + 1; token_length = length text },
      ap (λ s. read_from k s (record l { style = ascii })) whole ∙ r ∙ unfold read_scan in refl,
      record {
        style = refl;
        rest = refl;
        place =
            drop_behind k.at k'.at (c ∷ (text ++ d ∷ [])) buffer rest h
              (omega (arith, p, length-append text (d ∷ [])));
      },
      subst Q (sym copied) q,
    )

Lexes-quoted :
    (buffer s rest : Bytes)
    → Every (λ c. is_kept c ≡ true) s
    → Lexes buffer (b'"' ∷ (escaped s ++ b'"' ∷ [])) rest quoted_string (λ x. unquote x ≡ s)
unfolding read_from read_double_quoted
Lexes-quoted buffer s rest h =
    Lexes-closed buffer b'"' b'"' (escaped s) rest quoted_string unterminated_quoted_string
      (λ x. unquote x ≡ s) (unfold unquote in unquote-escaped s h)
      (λ k l.
        let text = escaped s ++ b'"' ∷ rest in
        let (k', e) = scan-escaped s 0 (skip 1 k) (b'"' ∷ rest) h in
        let scanned : scan_double_quoted 0 (skip 1 k) text
            ≡ closed (length (escaped s)) rest (skip 1 k') =
          e
          ∙ scan_quote (0 + length (escaped s)) k' rest
          ∙ ap (λ m. closed m rest (skip 1 k')) (omega arith) in
        let bound =
          scan_double_quoted-closed 0 (skip 1 k) text (length (escaped s)) rest (skip 1 k')
            scanned in
        (
          skip 1 k',
          ap
              (read_scan quoted_string unterminated_quoted_string (k.at + 1)
                (point k (b'"' ∷ text) (record l { style = ascii })))
              scanned,
          omega (arith, bound.0, length-append (escaped s) (b'"' ∷ rest)),
        ))

Lexes-plain :
    (buffer : Bytes) (c : ℕ) (s rest : Bytes)
    → all_plain (c ∷ s) ≡ true
    → is_unquoted (front rest) ≡ false
    → Lexes buffer (c ∷ s) rest unquoted_string (λ x. unquote x ≡ c ∷ s)
Lexes-plain buffer c s rest p f k l h =
    let text = (c ∷ s) ++ rest in
    let l0 = point k text (record l { style = ascii }) in
    let (counted, dropped) = count_while-plain (c ∷ s) rest p f in
    let copied : take (length (c ∷ s)) (drop k.at buffer) ≡ c ∷ s =
      ap (take (length (c ∷ s))) h ∙ take_front (c ∷ s) rest in
    (
      record l0 {
        rest = rest;
        at = k.at + length (c ∷ s);
        token_begin = k.at;
        token_length = length (c ∷ s);
      },
      read_from-plain k c (s ++ rest) l (unfold all_plain in ground arith)
          ∙ (unfold read_keyword in
              ap (λ n. read_length unquoted_string n (drop_while is_unquoted text) l0) counted
              ∙ ap (λ r. read_length unquoted_string (length (c ∷ s)) r l0) dropped),
      record {
        style = refl;
        rest = refl;
        place = drop_behind k.at (k.at + length (c ∷ s)) (c ∷ s) buffer rest h refl;
      },
      ap unquote copied ∙ (unfold unquote in unquote-plain (c ∷ s) p),
    )

-- A token of a string.
abbrev pub IsString : Token → Type 0
IsString t = (t ≡ unquoted_string) ⊎ (t ≡ quoted_string)

-- What `writeEscapedString` writes is a token whose copy is the string.
pub Lexes-write_string :
    (buffer s text rest : Bytes)
    → Every (λ c. is_kept c ≡ true) s
    → is_unquoted (front rest) ≡ false
    → write_string s ≡ some text
    → (t : Token) × IsString t × Lexes buffer text rest t (λ x. unquote x ≡ s)
unfolding write_string needs_quoting escaped
Lexes-write_string buffer [] text rest k f h =
    subst (λ u. (t : Token) × IsString t × Lexes buffer u rest t (λ x. unquote x ≡ []))
      (some_inj (unfold escape in h)) (quoted_string, inr refl, Lexes-quoted buffer [] rest tt)
Lexes-write_string buffer (c ∷ s) text rest k f h =
    let goal =
      λ (u : Bytes). (t : Token) × IsString t × Lexes buffer u rest t (λ x. unquote x ≡ c ∷ s) in
    elim (Bool-cases (all_plain (c ∷ s))) [
      | inl p ↦
          subst goal (some_inj (sym (write_string-plain c s p) ∙ h))
            (unquoted_string, inl refl, Lexes-plain buffer c s rest p f)
      | inr p ↦
          subst goal (some_inj (sym (write_string-quoted c s k p) ∙ h))
            (quoted_string, inr refl, Lexes-quoted buffer (c ∷ s) rest k)
    ]
