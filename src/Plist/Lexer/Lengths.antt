-- ===== src/Plist/Lexer/Lengths.antt =====
-- How much of the buffer the readers of ASCIIPListLexer.cpp take.
use xcbuild.Prelude.{
  ℕ, suc, ◌+◌, ◌≤◌, ◌<◌, Bool, true, ◌≡◌, inl, inr, refl, ap, some, [], ◌∷◌, ◌==◌, arith, length,
  length-drop, drop, ◌||◌, Bool-cases, Option-cases,
}
use xcbuild.Prelude.Text.{Bytes, codes}
use xcbuild.Plist.Lexer.{
  Style, Token, Cursor, advance, skip, closed, scan_long_comment, scan_single_quoted,
  scan_double_quoted, scan_data, drop_while, count_while, front, is_digit, drop_integer,
  drop_digits, drop_sign, drop_fraction, drop_exponent, drop_number, has_prefix, keyword_of,
}

pub scan_long_comment-closed :
    (n : ℕ) (k : Cursor) (s : Bytes) (m : ℕ) (rest : Bytes) (k' : Cursor)
    → scan_long_comment n k s ≡ closed m rest k'
    → (k'.at + length rest ≡ k.at + length s) × (k.at + m < k'.at + n) × (n ≤ m)
unfolding scan_long_comment advance front
scan_long_comment-closed n k [] m rest k' h = absurd (cc h)
scan_long_comment-closed n k (c ∷ []) m rest k' h =
    ground (arith, scan_long_comment-closed (suc n) (advance c k) [] m rest k')
scan_long_comment-closed n k (c ∷ d ∷ s) m rest k' h =
    ground (arith, scan_long_comment-closed (suc n) (advance c k) (d ∷ s) m rest k')

pub scan_single_quoted-closed :
    (n : ℕ) (k : Cursor) (s : Bytes) (m : ℕ) (rest : Bytes) (k' : Cursor)
    → scan_single_quoted n k s ≡ closed m rest k'
    → (k'.at + length rest ≡ k.at + length s) × (k.at + m < k'.at + n) × (n ≤ m)
unfolding scan_single_quoted advance
scan_single_quoted-closed n k [] m rest k' h = absurd (cc h)
scan_single_quoted-closed n k (c ∷ s) m rest k' h =
    ground (arith, scan_single_quoted-closed (suc n) (advance c k) s m rest k')

pub scan_double_quoted-closed :
    (n : ℕ) (k : Cursor) (s : Bytes) (m : ℕ) (rest : Bytes) (k' : Cursor)
    → scan_double_quoted n k s ≡ closed m rest k'
    → (k'.at + length rest ≡ k.at + length s) × (k.at + m < k'.at + n) × (n ≤ m)
unfolding scan_double_quoted advance
scan_double_quoted-closed n k [] m rest k' h = absurd (cc h)
scan_double_quoted-closed n k (c ∷ []) m rest k' h =
    ground (arith, scan_double_quoted-closed (suc n) (advance c k) [] m rest k')
scan_double_quoted-closed n k (c ∷ d ∷ s) m rest k' h = ground (
  arith,
  scan_double_quoted-closed (suc n) (advance c k) (d ∷ s) m rest k',
  scan_double_quoted-closed (n + 2) (skip 2 k) s m rest k',
)

pub scan_data-closed :
    (n : ℕ) (k : Cursor) (s : Bytes) (m : ℕ) (rest : Bytes) (k' : Cursor)
    → scan_data n k s ≡ closed m rest k'
    → (k'.at + length rest ≡ k.at + length s) × (k.at + m < k'.at + n) × (n ≤ m)
unfolding scan_data advance
scan_data-closed n k [] m rest k' h = absurd (cc h)
scan_data-closed n k (c ∷ s) m rest k' h =
    ground (arith, scan_data-closed (suc n) (advance c k) s m rest k')

pub count_while-drop_while :
    (p : ℕ → Bool) (s : Bytes) → count_while p s + length (drop_while p s) ≡ length s
unfolding count_while drop_while
count_while-drop_while p [] = omega arith
count_while-drop_while p (c ∷ s) = ground (arith, count_while-drop_while p s)

drop_integer-le :
    (z : Bool) (s rest : Bytes) → drop_integer z s ≡ some rest → length rest ≤ length s
unfolding drop_integer
drop_integer-le z [] rest h = ground arith
drop_integer-le z (c ∷ s) rest h = ground (arith, drop_integer-le z s rest)

drop_digits-lt : (s rest : Bytes) → drop_digits s ≡ some rest → length rest < length s
unfolding drop_digits front drop_while
drop_digits-lt [] rest h = ground arith
drop_digits-lt (c ∷ s) rest h = ground (arith, count_while-drop_while (λ c. is_digit c) s)

drop_sign-le : (p : ℕ → Bool) (s : Bytes) → length (drop_sign p s) ≤ length s
unfolding drop_sign
drop_sign-le p s = ground (arith, length-drop 1 s)

drop_fraction-le :
    (s : Bytes) (b : Bool) (rest : Bytes)
    → drop_fraction s ≡ some (b, rest)
    → length rest ≤ length s
unfolding drop_fraction
drop_fraction-le s b rest h = elim (Option-cases (drop_digits (drop 1 s))) [
  | inl e ↦ ground arith
  | inr (r, e) ↦ ground (arith, drop_digits-lt (drop 1 s) r e, length-drop 1 s)
]

drop_exponent-le :
    (s : Bytes) (b : Bool) (rest : Bytes)
    → drop_exponent s ≡ some (b, rest)
    → length rest ≤ length s
unfolding drop_exponent
drop_exponent-le s b rest h =
    let digits = drop_sign (λ c. c == b'+' || c == b'-') (drop 1 s) in
    elim (Option-cases (drop_digits digits)) [
      | inl e ↦ ground arith
      | inr (r, e) ↦ ground (
        arith,
        drop_digits-lt digits r e,
        drop_sign-le (λ c. c == b'+' || c == b'-') (drop 1 s),
        length-drop 1 s,
      )
    ]

-- The digits of a number that has one.
drop_integer-lt :
    (z : Bool) (s rest : Bytes)
    → is_digit (front s) ≡ true
    → drop_integer z s ≡ some rest
    → (z ≡ (front s == b'0'))
    → length rest < length s
unfolding drop_integer front
drop_integer-lt z [] rest d h e = ground arith
drop_integer-lt z (c ∷ s) rest d h e = ground (arith, drop_integer-le z s rest)

pub drop_number-lt :
    (style : Style) (s : Bytes) (b : Bool) (rest : Bytes)
    → drop_number style s ≡ some (b, rest)
    → length rest < length s
unfolding drop_number
drop_number-lt style s b rest h =
    let digits = drop_sign (λ c. c == b'-') s in
    elim (Bool-cases (is_digit (front digits))) [
      | inr no_digit ↦ absurd (ground arith)
      | inl digit ↦ elim (Option-cases (drop_integer (front digits == b'0') digits)) [
        | inl e ↦ absurd (ground arith)
        | inr (whole, e) ↦ elim (Option-cases (drop_fraction whole)) [
          | inl f ↦ absurd (ground arith)
          | inr ((x, more), f) ↦ elim (Option-cases (drop_exponent more)) [
            | inl g ↦ absurd (ground arith)
            | inr ((y, behind), g) ↦
                let same : behind ≡ rest = ground arith in
                omega (
                  arith,
                  ap (λ t. length t) same,
                  drop_exponent-le more y behind g,
                  drop_fraction-le whole x more f,
                  drop_integer-lt (front digits == b'0') digits whole digit e refl,
                  drop_sign-le (λ c. c == b'-') s,
                )
          ]
        ]
      ]
    ]

has_prefix-le : (word s : Bytes) → has_prefix word s ≡ true → length word ≤ length s
unfolding has_prefix
has_prefix-le [] s h = omega arith
has_prefix-le (c ∷ word) [] h = ground arith
has_prefix-le (c ∷ word) (d ∷ s) h = ground (arith, has_prefix-le word s)

pub keyword_of-le :
    (s : Bytes) (t : Token) (n : ℕ) → keyword_of s ≡ some (t, n) → (0 < n) × (n ≤ length s)
unfolding keyword_of
keyword_of-le s t n h = ground (
  arith,
  has_prefix-le (codes "true") s,
  has_prefix-le (codes "false") s,
  has_prefix-le (codes "null") s,
)
