-- ===== src/Plist/Lexer/Bounds.antt =====
-- The tokens of ASCIIPListLexer.cpp lie within the buffer, and the pointer moves on.
use xcbuild.Prelude.{
  ℕ, suc, ◌+◌, ◌-◌, ◌≤◌, ◌<◌, Bool, true, false, ◌≡◌, ◌⊎◌, inl, inr, refl, sym, subst, Option, none,
  some, [], ◌∷◌, ◌==◌, arith, length, length-drop, if◌then◌else◌, Bool-cases, Option-cases,
}
use xcbuild.Prelude.Text.{Bytes}
use xcbuild.Plist.Lexer.{
  quoted_string, long_comment, plist_data, number_integer, number_real, is_in_line, invalid_token,
  end_of_file, unterminated_long_comment, unterminated_quoted_string, unterminated_data, Style,
  ascii, json, Token, Lexer, unquoted_string, Cursor, advance, skip, Scan, closed, unterminated,
  overrun, scan_long_comment, scan_single_quoted, scan_double_quoted, scan_data, front, drop_number,
  keyword_of, is_unquoted, read_single, refuse, read_scan, read_length, read_keyword, read_number,
  read_styled, read_comment, read_single_quoted, read_double_quoted, read_data, read_at, read_from,
  read_token, is_skipped, point,
}
use xcbuild.Plist.Lexer.Lengths.{
  scan_long_comment-closed, scan_single_quoted-closed, scan_double_quoted-closed, scan_data-closed,
  keyword_of-le, drop_number-lt, count_while-drop_while,
}

-- A result of `ASCIIPListLexerReadToken`, negative for a failure.
abbrev pub is_failure : Token → Bool
is_failure invalid_token = true
is_failure end_of_file = true
is_failure unterminated_long_comment = true
is_failure unterminated_quoted_string = true
is_failure unterminated_data = true
is_failure _ = false

-- The lexer behind a read from `b`, where the buffer ends at `e`: the pointer has not gone back and
-- is in the buffer; the token is too, and only an unquoted string may be empty.
pub record IsInside (b e : ℕ) (t : Token) (l : Lexer) : Type 0 where
  pub ends : l.at + length l.rest ≡ e
  pub forward : b ≤ l.at
  pub token_inside :
      is_failure t ≡ false → (b ≤ l.token_begin) × (l.token_begin + l.token_length ≤ l.at)
  pub moves : is_failure t ≡ false → (b < l.at) ⊎ ((t ≡ unquoted_string) × (l.token_length ≡ 0))

abbrev Fits : ℕ → ℕ → Option (Token × Lexer) → Type 0
Fits b e none = Unit
Fits b e (some (t, l)) = IsInside b e t l

Fits-read_single :
    (b e : ℕ) (t : Token) (k : Cursor) (rest : Bytes) (l : Lexer)
    → b ≤ k.at
    → k.at + suc (length rest) ≡ e
    → Fits b e (read_single t k rest l)
unfolding read_single
Fits-read_single b e t k rest l h q = ground arith

Fits-refuse :
    (b e : ℕ) (t : Token) (k : Cursor) (l : Lexer)
    → is_failure t ≡ true
    → b ≤ l.at
    → l.at + length l.rest ≡ e
    → Fits b e (refuse t k l)
unfolding refuse
Fits-refuse b e t k l f h q = ground arith

Fits-read_scan :
    (b e : ℕ) (t failure : Token) (begin : ℕ) (l : Lexer) (scan : Scan)
    → is_failure failure ≡ true
    → b ≤ l.at
    → l.at + length l.rest ≡ e
    → b ≤ begin
    → ((m : ℕ) (rest : Bytes) (k' : Cursor)
        → scan ≡ closed m rest k'
        → (k'.at + length rest ≡ e) × (begin + m < k'.at))
    → Fits b e (read_scan t failure begin l scan)
unfolding read_scan
Fits-read_scan b e t failure begin l (closed m rest k') f h q g c = ground (arith, c m rest k' refl)
Fits-read_scan b e t failure begin l (unterminated k') f h q g c = ground arith
Fits-read_scan b e t failure begin l overrun f h q g c = tt

Fits-read_keyword :
    (b e : ℕ) (style : Style) (l : Lexer)
    → b ≤ l.at
    → l.at + length l.rest ≡ e
    → Fits b e (read_keyword style l)
unfolding read_keyword
Fits-read_keyword b e json l h q = elim (Option-cases (keyword_of l.rest)) [
  | inl n ↦ rw n (ground arith)
  | inr ((t, n), k) ↦ rw k (ground (arith, keyword_of-le l.rest t n k, length-drop n l.rest))
]
Fits-read_keyword b e ascii l h q = ground (arith, count_while-drop_while is_unquoted l.rest)

read_number-none :
    (l : Lexer) → drop_number json l.rest ≡ none → read_number json l ≡ read_keyword json l
unfolding read_number
read_number-none l h = rw (read_number, h) refl

read_number-some :
    (l : Lexer) (integer : Bool) (rest : Bytes)
    → drop_number json l.rest ≡ some (integer, rest)
    → read_number json l
      ≡ read_length
          (if integer then number_integer else number_real)
          (length l.rest - length rest)
          rest
          l
unfolding read_number
read_number-some l integer rest h = rw (read_number, h) refl

Fits-read_number :
    (b e : ℕ) (style : Style) (l : Lexer)
    → b ≤ l.at
    → l.at + length l.rest ≡ e
    → Fits b e (read_number style l)
Fits-read_number b e ascii l h q = unfold read_number in Fits-read_keyword b e ascii l h q
Fits-read_number b e json l h q = elim (Option-cases (drop_number json l.rest)) [
  | inl n ↦ subst (Fits b e) (sym (read_number-none l n)) (Fits-read_keyword b e json l h q)
  | inr ((i, rest), k) ↦
      subst (Fits b e) (sym (read_number-some l i rest k))
        (ground (arith, drop_number-lt json l.rest i rest k))
]

Fits-read_styled :
    (b e : ℕ) (s s' : Style) (t : Token) (k : Cursor) (rest : Bytes) (l : Lexer)
    → b ≤ l.at
    → l.at + length l.rest ≡ e
    → b ≤ k.at
    → k.at + suc (length rest) ≡ e
    → Fits b e (read_styled s s' t k rest l)
unfolding read_styled
Fits-read_styled b e ascii ascii t k rest l h q h' q' = Fits-read_single b e t k rest l h' q'
Fits-read_styled b e json json t k rest l h q h' q' = Fits-read_single b e t k rest l h' q'
Fits-read_styled b e ascii json t k rest l h q h' q' = Fits-refuse b e invalid_token k l refl h q
Fits-read_styled b e json ascii t k rest l h q h' q' = Fits-refuse b e invalid_token k l refl h q

Fits-read_comment :
    (b e : ℕ) (k : Cursor) (rest : Bytes) (l : Lexer)
    → b ≤ k.at
    → k.at + suc (length rest) ≡ e
    → Fits b e (read_comment k rest l)
unfolding read_comment
Fits-read_comment b e k [] l h q =
    unfold front in Fits-read_keyword b e l.style (point k (b'/' ∷ []) l) h q
Fits-read_comment b e k (c ∷ rest) l h q =
    unfold front in
    elim (Bool-cases (c == b'/')) [
      | inl x ↦ rw x (ground (arith, count_while-drop_while is_in_line rest))
      | inr x ↦ elim (Bool-cases (c == b'*')) [
        | inl y ↦
            rw (x, y)
              (Fits-read_scan b e long_comment unterminated_long_comment (k.at + 2)
                (point k (b'/' ∷ c ∷ rest) l) (scan_long_comment 0 (skip 2 k) rest) refl h q
                (omega arith)
                (λ m r k' z. omega (arith, scan_long_comment-closed 0 (skip 2 k) rest m r k' z)))
        | inr y ↦ rw (x, y) (Fits-read_keyword b e l.style (point k (b'/' ∷ c ∷ rest) l) h q)
      ]
    ]

Fits-read_single_quoted :
    (b e : ℕ) (s : Style) (k : Cursor) (rest : Bytes) (l : Lexer)
    → b ≤ k.at
    → k.at + suc (length rest) ≡ e
    → Fits b e (read_single_quoted s k rest l)
unfolding read_single_quoted
Fits-read_single_quoted b e json k rest l h q = ground arith
Fits-read_single_quoted b e ascii k rest l h q =
    Fits-read_scan b e quoted_string unterminated_quoted_string (k.at + 1)
      (point k (b'\'' ∷ rest) l) (scan_single_quoted 0 (skip 1 k) rest) refl h q (omega arith)
      (λ m r k' z. omega (arith, scan_single_quoted-closed 0 (skip 1 k) rest m r k' z))

Fits-read_double_quoted :
    (b e : ℕ) (k : Cursor) (rest : Bytes) (l : Lexer)
    → b ≤ k.at
    → k.at + suc (length rest) ≡ e
    → Fits b e (read_double_quoted k rest l)
unfolding read_double_quoted
Fits-read_double_quoted b e k rest l h q =
    Fits-read_scan b e quoted_string unterminated_quoted_string (k.at + 1) (point k (b'"' ∷ rest) l)
      (scan_double_quoted 0 (skip 1 k) rest) refl h q (omega arith)
      (λ m r k' z. omega (arith, scan_double_quoted-closed 0 (skip 1 k) rest m r k' z))

Fits-read_data :
    (b e : ℕ) (s : Style) (k : Cursor) (rest : Bytes) (l : Lexer)
    → b ≤ l.at
    → l.at + length l.rest ≡ e
    → b ≤ k.at
    → k.at + suc (length rest) ≡ e
    → Fits b e (read_data s k rest l)
unfolding read_data
Fits-read_data b e json k rest l h q h' q' = Fits-refuse b e invalid_token k l refl h q
Fits-read_data b e ascii k rest l h q h' q' =
    Fits-read_scan b e plist_data unterminated_data (k.at + 1) (point k (b'<' ∷ rest) l)
      (scan_data 0 (skip 1 k) rest) refl h' q' (omega arith)
      (λ m r k' z. omega (arith, scan_data-closed 0 (skip 1 k) rest m r k' z))

-- What holds of both branches holds of the choice.
pub either {ℓ κ} :
    {A : Type ℓ} (P : A → Type κ) (test : Bool) (x y : A) → P x → P y → P (if test then x else y)
either P true x y p q = p
either P false x y p q = q

Fits-read_at :
    (b e : ℕ) (k : Cursor) (c : ℕ) (rest : Bytes) (l : Lexer)
    → b ≤ l.at
    → l.at + length l.rest ≡ e
    → b ≤ k.at
    → k.at + suc (length rest) ≡ e
    → Fits b e (read_at k c rest l)
unfolding read_at
Fits-read_at b e k c rest l h q h' q' =
    let styled = λ (s' : Style) (t : Token). Fits-read_styled b e l.style s' t k rest l h q h' q' in
    let single = λ (t : Token). Fits-read_single b e t k rest l h' q' in
    let l' = point k (c ∷ rest) l in
    search
      (
        either (Fits b e),
        single,
        styled,
        Fits-read_comment b e k rest l h' q',
        Fits-read_single_quoted b e l.style k rest l h' q',
        Fits-read_double_quoted b e k rest l h' q',
        Fits-read_data b e l.style k rest l h q h' q',
        Fits-read_number b e l.style l' h' q',
        Fits-read_keyword b e l.style l' h' q',
      )
      depth 20

Fits-read_from :
    (b e : ℕ) (k : Cursor) (s : Bytes) (l : Lexer)
    → b ≤ l.at
    → l.at + length l.rest ≡ e
    → b ≤ k.at
    → k.at + length s ≡ e
    → Fits b e (read_from k s l)
unfolding read_from
Fits-read_from b e k [] l h q h' q' = Fits-refuse b e end_of_file k l refl h q
Fits-read_from b e k (c ∷ rest) l h q h' q' =
    either (Fits b e) (is_skipped c) (read_from (advance c k) rest l) (read_at k c rest l)
      (Fits-read_from b e (advance c k) rest l h q (unfold advance in ground arith)
        (unfold advance in ground arith))
      (Fits-read_at b e k c rest l h q h' q')

-- `ASCIIPListLexerReadToken`, whatever it returns, leaves the pointer in the buffer and not before
-- the place it had, and puts a token that is no failure behind that place and before the new one.
-- The pointer moves with each such token but an unquoted string that is empty.
pub read_token-IsInside :
    (l l' : Lexer) (t : Token)
    → read_token l ≡ some (t, l')
    → IsInside l.at (l.at + length l.rest) t l'
unfolding read_token
read_token-IsInside l l' t h = subst (Fits l.at (l.at + length l.rest)) h (
    Fits-read_from l.at (l.at + length l.rest)
      (record { at = l.at; line = l.line; line_start = l.line_start }) l.rest l (omega arith) refl
      (omega arith) refl)
