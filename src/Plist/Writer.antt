-- ===== src/Plist/Writer.antt =====
-- The strings of Libraries/plist/Sources/Format/ASCIIWriter.cpp.
pub mod Escaped
pub mod Tokens
pub mod RoundTrip
pub mod Backslash
use Prim.Native.Nat.{bit_and, bit_or}
use xcbuild.Prelude.{
  ℕ, zero, suc, ◌+◌, ◌-◌, ◌*◌, ◌/◌, ◌%◌, Bool, true, false, not, ◌||◌, ◌&&◌, Option, none, some,
  List, [], ◌∷◌, ◌++◌, ◌==◌, leb, ltb, length, if◌then◌else◌,
}
use xcbuild.Prelude.Text.{Bytes}
use xcbuild.Plist.Lexer.{is_alnum}

-- The digits of a number, the last one behind `tail`; a digit for each round is enough.
unfoldable pub digits_of : ℕ → ℕ → ℕ → Bytes → Bytes
digits_of base zero n tail = tail
digits_of base (suc fuel) n tail =
    let rest = digits_of base fuel (n / base) ((b'0' + n % base) ∷ tail) in
    if n == 0 then tail else rest

unfoldable pub pad : ℕ → Bytes → Bytes
pad zero s = s
pad (suc n) s = b'0' ∷ pad n s

-- `%03o` and `%04u` of a code point, which has at most 22 bits: eight digits hold it.
unfoldable pub print_padded : ℕ → ℕ → ℕ → Bytes
unfolding digits_of pad
print_padded base width n = let digits = digits_of base 8 n [] in pad (width - length digits) digits

unfoldable pub escape_codepoint : ℕ → Bytes
unfolding print_padded
escape_codepoint code =
    b'\\' ∷ (if ltb code 0xff then print_padded 8 3 code else print_padded 10 4 code)

-- The `switch` on a byte up to 0x80.
unfoldable pub escape_byte : ℕ → Bytes
escape_byte c =
    if c == 7
    then b'\\' ∷ b'a' ∷ []
    else if c == 8
    then b'\\' ∷ b'b' ∷ []
    else if c == 11
    then b'\\' ∷ b'v' ∷ []
    else if c == 12
    then b'\\' ∷ b'f' ∷ []
    else if c == b'"'
    then b'\\' ∷ b'"' ∷ []
    else c ∷ []

-- `primitiveWriteEscapedString` between its quotes; `none` where it returns false. A text that ends
-- within a character is read past its end by the program, which is `none` here.
unfoldable pub escape : Bytes → Option Bytes
unfolding escape_byte escape_codepoint
escape [] = some []
escape (c ∷ []) = if ltb 0x80 c then none else some (escape_byte c)
escape (c ∷ d ∷ []) =
    let two : Option Bytes = some (escape_codepoint (bit_or (bit_and c 0x1f * 64) d)) in
    let one : Option Bytes = elim (escape (d ∷ [])) [
      | none ↦ none
      | some t ↦ some (escape_byte c ++ t)
    ] in
    if ltb 0x80 c then (if bit_and c 0xe0 == 0xc0 then two else none) else one
escape (c ∷ d ∷ e ∷ []) =
    let two : Option Bytes = elim (escape (e ∷ [])) [
      | none ↦ none
      | some t ↦ some (escape_codepoint (bit_or (bit_and c 0x1f * 64) d) ++ t)
    ] in
    let three : Option Bytes =
      some (escape_codepoint (bit_or (bit_or (bit_and c 0xf * 4096) (d * 64)) e)) in
    let one : Option Bytes = elim (escape (d ∷ e ∷ [])) [
      | none ↦ none
      | some t ↦ some (escape_byte c ++ t)
    ] in
    if ltb 0x80 c
    then (if bit_and c 0xe0 == 0xc0 then two else if bit_and c 0xf0 == 0xe0 then three else none)
    else one
escape (c ∷ d ∷ e ∷ f ∷ s) =
    let two : Option Bytes = elim (escape (e ∷ f ∷ s)) [
      | none ↦ none
      | some t ↦ some (escape_codepoint (bit_or (bit_and c 0x1f * 64) d) ++ t)
    ] in
    let three : Option Bytes = elim (escape (f ∷ s)) [
      | none ↦ none
      | some t ↦ some (escape_codepoint (bit_or (bit_or (bit_and c 0xf * 4096) (d * 64)) e) ++ t)
    ] in
    let four : Option Bytes = elim (escape s) [
      | none ↦ none
      | some t ↦ some (
          escape_codepoint
            (bit_or (bit_or (bit_or (bit_and c 0xf * 262144) (d * 4096)) (e * 64)) f + 65536)
          ++ t)
    ] in
    let one : Option Bytes = elim (escape (d ∷ e ∷ f ∷ s)) [
      | none ↦ none
      | some t ↦ some (escape_byte c ++ t)
    ] in
    if ltb 0x80 c
    then (if bit_and c 0xe0 == 0xc0
        then two
        else if bit_and c 0xf0 == 0xe0
        then three
        else if bit_and c 0xf8 == 0xf0
        then four
        else none)
    else one

abbrev pub is_plain : ℕ → Bool
is_plain c = is_alnum c || c == b'_'

unfoldable pub all_plain : Bytes → Bool
all_plain [] = true
all_plain (c ∷ s) = is_plain c && all_plain s

unfoldable pub needs_quoting : Bytes → Bool
unfolding all_plain
needs_quoting [] = true
needs_quoting (c ∷ s) = not (all_plain (c ∷ s))

-- `writeEscapedString`, behind its indentation.
unfoldable pub write_string : Bytes → Option Bytes
unfolding needs_quoting escape
write_string s =
    let quoted : Option Bytes = elim (escape s) [
      | none ↦ none
      | some t ↦ some (b'"' ∷ (t ++ b'"' ∷ []))
    ] in
    if needs_quoting s then quoted else some s
