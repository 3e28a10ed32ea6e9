-- ===== src/Plist/Writer/Escaped.antt =====
-- The escapes of ASCIIWriter.cpp, passed over by ASCIIPListLexer.cpp and undone by its copies.
use xcbuild.Prelude.{
  ℕ, ◌+◌, Bool, true, false, not, ◌||◌, ◌&&◌, ◌≡◌, refl, sym, ap, ◌∙◌, some, [], ◌∷◌, ◌++◌, ◌==◌,
  ==_iff, ltb, length, length-append, take, arith, inl, inr, Bool-cases, append_assoc, append-nil,
  Every,
}
use xcbuild.Prelude.Text.{Bytes}
use xcbuild.Plist.Lexer.{
  ascii, Lexer, Cursor, advance, skip, closed, scan_double_quoted, drop_while, count_while,
  is_unquoted, is_digit, front, read_keyword, read_at, read_number, read_from, point,
}
use xcbuild.Plist.Unquote.{unquote_from}
use xcbuild.Plist.Writer.{escape_byte, escape, is_plain, all_plain, needs_quoting, write_string}

-- A byte that is read back as it was written: ASCII, and no NUL, backslash or vertical tab.
abbrev pub is_kept : ℕ → Bool
is_kept c = ltb c 0x80 && not (c == 0 || c == b'\\' || c == 11)

unfoldable pub escaped : Bytes → Bytes
escaped [] = []
escaped (c ∷ s) = escape_byte c ++ escaped s

escape-cons :
    (c d : ℕ) (s t : Bytes)
    → ltb 0x80 c ≡ false
    → escape (d ∷ s) ≡ some t
    → escape (c ∷ d ∷ s) ≡ some (escape_byte c ++ t)
unfolding escape
escape-cons c d [] t h e = rw h (rw (escape, e) refl)
escape-cons c d (x ∷ []) t h e = rw h (rw (escape, e) refl)
escape-cons c d (x ∷ y ∷ s) t h e = rw h (rw (escape, e) refl)

pub Every-below : (s : Bytes) → Every (λ c. is_kept c ≡ true) s → Every (λ c. ltb 0x80 c ≡ false) s
Every-below [] h = tt
Every-below (c ∷ s) h = (ground arith, Every-below s h.1)

pub escape-escaped : (s : Bytes) → Every (λ c. ltb 0x80 c ≡ false) s → escape s ≡ some (escaped s)
unfolding escaped
escape-escaped [] h = unfold escape in refl
escape-escaped (c ∷ []) h =
    unfold escape in rw h.0 (ap (λ t. some t) (sym (append-nil (escape_byte c))))
escape-escaped (c ∷ d ∷ s) h = escape-cons c d s (escaped (d ∷ s)) h.0 (escape-escaped (d ∷ s) h.1)

-- The lexer passes over the escape of a byte, whatever stands behind it.
scan-escape_byte :
    (c : ℕ) (n : ℕ) (k : Cursor) (s : Bytes)
    → is_kept c ≡ true
    → (k' : Cursor) × (scan_double_quoted n k (escape_byte c ++ s)
        ≡ scan_double_quoted (n + length (escape_byte c)) k' s)
unfolding escape_byte
scan-escape_byte c n k [] h = elim (Bool-cases (c == 7 || c == 8 || c == 12 || c == b'"')) [
  | inl e ↦ (skip 2 k, unfold scan_double_quoted in ground arith)
  | inr e ↦ (advance c k, unfold scan_double_quoted in ground arith)
]
scan-escape_byte c n k (d ∷ s) h = elim (Bool-cases (c == 7 || c == 8 || c == 12 || c == b'"')) [
  | inl e ↦ (skip 2 k, unfold scan_double_quoted in ground arith)
  | inr e ↦ (advance c k, unfold scan_double_quoted in ground arith)
]

pub scan-escaped :
    (s : Bytes) (n : ℕ) (k : Cursor) (rest : Bytes)
    → Every (λ c. is_kept c ≡ true) s
    → (k' : Cursor) × (scan_double_quoted n k (escaped s ++ rest)
        ≡ scan_double_quoted (n + length (escaped s)) k' rest)
unfolding escaped
scan-escaped [] n k rest h = (k, ap (λ m. scan_double_quoted m k rest) (omega arith))
scan-escaped (c ∷ s) n k rest h =
    let (k', e) = scan-escape_byte c n k (escaped s ++ rest) h.0 in
    let (k'', f) = scan-escaped s (n + length (escape_byte c)) k' rest h.1 in
    (
      k'',
      ap (scan_double_quoted n k) (append_assoc (escape_byte c) (escaped s) rest)
          ∙ e
          ∙ f
          ∙ ap (λ m. scan_double_quoted m k'' rest)
              (omega (arith, length-append (escape_byte c) (escaped s))),
    )

pub scan_quote :
    (n : ℕ) (k : Cursor) (rest : Bytes)
    → scan_double_quoted n k (b'"' ∷ rest) ≡ closed n rest (skip 1 k)
unfolding scan_double_quoted
scan_quote n k [] = refl
scan_quote n k (c ∷ rest) = refl

unquote-escape_byte :
    (c : ℕ) (s : Bytes)
    → is_kept c ≡ true
    → unquote_from 0 (escape_byte c ++ s) ≡ c ∷ unquote_from 0 s
unfolding escape_byte
unquote-escape_byte c [] h = elim (Bool-cases (c == 7 || c == 8 || c == 12 || c == b'"')) [
  | inl e ↦ unfold unquote_from in ground arith
  | inr e ↦ unfold unquote_from in ground arith
]
unquote-escape_byte c (d ∷ s) h = elim (Bool-cases (c == 7 || c == 8 || c == 12 || c == b'"')) [
  | inl e ↦ unfold unquote_from in ground arith
  | inr e ↦ unfold unquote_from in ground arith
]

pub unquote-escaped : (s : Bytes) → Every (λ c. is_kept c ≡ true) s → unquote_from 0 (escaped s) ≡ s
unfolding escaped
unquote-escaped [] h = unfold unquote_from in refl
unquote-escaped (c ∷ s) h =
    unquote-escape_byte c (escaped s) h.0 ∙ ap (λ t. c ∷ t) (unquote-escaped s h.1)

pub unquote-plain : (s : Bytes) → all_plain s ≡ true → unquote_from 0 s ≡ s
unfolding unquote_from all_plain
unquote-plain [] h = refl
unquote-plain (c ∷ []) h = ground arith
unquote-plain (c ∷ d ∷ s) h = ground (arith, unquote-plain (d ∷ s))

pub count_while-plain :
    (s rest : Bytes)
    → all_plain s ≡ true
    → is_unquoted (front rest) ≡ false
    → (count_while is_unquoted (s ++ rest) ≡ length s) × (drop_while is_unquoted (s ++ rest) ≡ rest)
unfolding count_while drop_while all_plain front is_unquoted
count_while-plain [] [] h f = (refl, refl)
count_while-plain [] (r ∷ rest) h f = ground arith
count_while-plain (c ∷ s) rest h f = ground (arith, count_while-plain s rest)

pub take_front : (a b : Bytes) → take (length a) (a ++ b) ≡ a
take_front [] b = refl
take_front (c ∷ a) b = ap (λ s. c ∷ s) (take_front a b)

plain_ne : (c d : ℕ) → is_plain c ≡ true → is_plain d ≡ false → (c == d) ≡ false
plain_ne c d h n = elim (Bool-cases (c == d)) [
  | inl e ↦ absurd (cc (h, n, ap (λ x. is_plain x) ((==_iff c d).0 e)))
  | inr e ↦ e
]

-- A byte that begins an unquoted string leads to it.
pub read_from-plain :
    (k : Cursor) (c : ℕ) (rest : Bytes) (l : Lexer)
    → is_plain c ≡ true
    → read_from k (c ∷ rest) (record l { style = ascii })
      ≡ read_keyword ascii (point k (c ∷ rest) (record l { style = ascii }))
unfolding read_from read_at read_number
read_from-plain k c rest l h =
    let ne = λ (d : ℕ) (n : is_plain d ≡ false). plain_ne c d h n in
    rw (ne 32 refl, ne 12 refl, ne 9 refl, ne 13 refl, ne 10 refl)
      (rw
        (
          ne 47 refl,
          ne 123 refl,
          ne 125 refl,
          ne 91 refl,
          ne 93 refl,
          ne 40 refl,
          ne 41 refl,
          ne 58 refl,
          ne 61 refl,
        )
        (rw
          (
            ne 44 refl,
            ne 59 refl,
            ne 39 refl,
            ne 34 refl,
            ne 60 refl,
            ne 43 refl,
            ne 45 refl,
            ne 46 refl,
          )
          (elim (Bool-cases (is_digit c)) [ inl e ↦ rw e refl | inr e ↦ rw e refl ])))

pub some_inj : {A : Type 0} {a b : A} → some a ≡ some b → a ≡ b
some_inj h = cc h

pub write_string-plain :
    (c : ℕ) (s : Bytes) → all_plain (c ∷ s) ≡ true → write_string (c ∷ s) ≡ some (c ∷ s)
unfolding write_string needs_quoting
write_string-plain c s p = rw p refl

pub write_string-quoted :
    (c : ℕ) (s : Bytes)
    → Every (λ x. is_kept x ≡ true) (c ∷ s)
    → all_plain (c ∷ s) ≡ false
    → write_string (c ∷ s) ≡ some (b'"' ∷ (escaped (c ∷ s) ++ b'"' ∷ []))
unfolding write_string needs_quoting
write_string-quoted c s k p = rw p (rw (escape-escaped (c ∷ s) (Every-below (c ∷ s) k)) refl)

pub quoted_behind :
    (s rest : Bytes) → b'"' ∷ (escaped s ++ b'"' ∷ rest) ≡ (b'"' ∷ (escaped s ++ b'"' ∷ [])) ++ rest
quoted_behind s rest = ap (λ t. b'"' ∷ t) (sym (append_assoc (escaped s) (b'"' ∷ []) rest))
