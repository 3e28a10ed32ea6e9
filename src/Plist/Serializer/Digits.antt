-- ===== src/Plist/Serializer/Digits.antt =====
-- The bytes that ASCIIWriter.cpp writes as digits: a token of them, and their value.
use xcbuild.Prelude.{
  ℕ, suc, ◌+◌, ◌/◌, ◌%◌, ◌<◌, false, ◌≡◌, refl, ap, ◌∙◌, some, [], ◌∷◌, ◌++◌, ◌==◌, leb, length,
  length-append, arith, Every,
}
use xcbuild.Prelude.Text.{Bytes}
use xcbuild.Plist.Lexer.{
  ascii, plist_data, unterminated_data, Cursor, advance, skip, closed, scan_data, hex_to_bin,
  read_scan, read_data, read_from, point,
}
use xcbuild.Plist.Lexer.Lengths.{scan_data-closed}
use xcbuild.Plist.Unquote.{copy_data}
use xcbuild.Plist.Writer.Tokens.{Lexes, Lexes-closed}
use xcbuild.Plist.Parser.{digit_value, bytes_of_digits}
use xcbuild.Plist.Serializer.{hex_digit, hex_text}

abbrev pub AreBytes : Bytes → Type 0
AreBytes s = Every (λ c. c < 256) s

-- A digit is none of the bytes that end the token or are left out, and has its value.
digit_lem :
    (n : ℕ)
    → n < 16
    → let d = hex_digit n in
      ((d == b'>') ≡ false)
      × ((d == 0) ≡ false)
      × ((d == 10) ≡ false)
      × ((d == b' ') ≡ false)
      × (leb 16 (hex_to_bin d) ≡ false)
      × (digit_value d ≡ n)
unfolding hex_to_bin
digit_lem n h = (ground arith, ground arith, ground arith, ground arith, ground arith, ground arith)

scan_data-digit :
    (n m : ℕ) (k : Cursor) (rest : Bytes)
    → m < 16
    → scan_data n k (hex_digit m ∷ rest) ≡ scan_data (suc n) (advance (hex_digit m) k) rest
unfolding scan_data
scan_data-digit n m k rest h = let (a, b, c, d, e, f) = digit_lem m h in rw (a, b, c, d, e) refl

scan_data-hex :
    (s rest : Bytes) (n : ℕ) (k : Cursor)
    → AreBytes s
    → (k' : Cursor) × (scan_data n k (hex_text s ++ rest)
        ≡ scan_data (n + length (hex_text s)) k' rest)
unfolding hex_text
scan_data-hex [] rest n k h = (k, ap (λ m. scan_data m k rest) (omega arith))
scan_data-hex (c ∷ s) rest n k (b, h) =
    let k1 = advance (hex_digit (c / 16)) k in
    let k2 = advance (hex_digit (c % 16)) k1 in
    let (k', e) = scan_data-hex s rest (suc (suc n)) k2 h in
    (
      k',
      scan_data-digit n (c / 16) k (hex_digit (c % 16) ∷ (hex_text s ++ rest)) (omega arith)
          ∙ scan_data-digit (suc n) (c % 16) k1 (hex_text s ++ rest) (omega arith)
          ∙ e
          ∙ ap (λ m. scan_data m k' rest) (omega arith),
    )

scan_data_end :
    (n : ℕ) (k : Cursor) (rest : Bytes) → scan_data n k (b'>' ∷ rest) ≡ closed n rest (skip 1 k)
unfolding scan_data
scan_data_end n k rest = refl

copy_data-hex : (s : Bytes) → AreBytes s → copy_data (hex_text s) ≡ hex_text s
unfolding copy_data hex_text
copy_data-hex [] h = refl
copy_data-hex (c ∷ s) (b, h) =
    rw
      (
        (digit_lem (c / 16) (omega arith)).3,
        (digit_lem (c % 16) (omega arith)).3,
        copy_data-hex s h,
      )
      refl

bytes_of_digits-hex : (s : Bytes) → AreBytes s → bytes_of_digits (hex_text s) ≡ some s
unfolding bytes_of_digits hex_text
bytes_of_digits-hex [] h = refl
bytes_of_digits-hex (c ∷ s) (b, h) =
    let high = (digit_lem (c / 16) (omega arith)).5 in
    let low = (digit_lem (c % 16) (omega arith)).5 in
    rw (bytes_of_digits-hex s h) (ap (λ x. some (x ∷ s)) (omega (arith, high, low)))

-- What `handleData` writes is a token, whose digits are those of the bytes.
pub Lexes-hex :
    (buffer s rest : Bytes)
    → AreBytes s
    → Lexes buffer
        (b'<' ∷ (hex_text s ++ b'>' ∷ []))
        rest
        plist_data
        (λ x. bytes_of_digits (copy_data x) ≡ some s)
unfolding read_from read_data
Lexes-hex buffer s rest h =
    Lexes-closed buffer b'<' b'>' (hex_text s) rest plist_data unterminated_data
      (λ x. bytes_of_digits (copy_data x) ≡ some s)
      (ap bytes_of_digits (copy_data-hex s h) ∙ bytes_of_digits-hex s h)
      (λ k l.
        let text = hex_text s ++ b'>' ∷ rest in
        let (k', e) = scan_data-hex s (b'>' ∷ rest) 0 (skip 1 k) h in
        let scanned : scan_data 0 (skip 1 k) text ≡ closed (length (hex_text s)) rest (skip 1 k') =
          e
          ∙ scan_data_end (0 + length (hex_text s)) k' rest
          ∙ ap (λ m. closed m rest (skip 1 k')) (omega arith) in
        let bound =
          scan_data-closed 0 (skip 1 k) text (length (hex_text s)) rest (skip 1 k') scanned in
        (
          skip 1 k',
          ap
              (read_scan plist_data unterminated_data (k.at + 1)
                (point k (b'<' ∷ text) (record l { style = ascii })))
              scanned,
          omega (arith, bound.0, length-append (hex_text s) (b'>' ∷ rest)),
        ))
