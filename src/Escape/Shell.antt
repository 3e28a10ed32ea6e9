-- ===== src/Escape/Shell.antt =====
-- `Escape::Shell` against the quoting rules of the POSIX shell.
use xcbuild.Prelude.{ℕ, Bool, not, ◌≡◌, ◌||◌, Option, none, some, [], ◌∷◌, ◌==◌, if◌then◌else◌}
use xcbuild.Prelude.Text.{Bytes, is_space}
use xcbuild.Escape.{is_plain, quote}

-- The bytes with which a word ends or means more than itself, outside quotes.
abbrev pub ends_word : ℕ → Bool
ends_word c = is_space c || not (is_plain c)

pub data Mode : Type 0 where
  outside in_quotes after_backslash : Mode

-- One word as the shell reads it: plain bytes, single quotes, and a backslash before one byte.
-- `none` where the text is no single finished word.
pub read_word : Mode → Bytes → Option Bytes
read_word outside [] = some []
read_word in_quotes [] = none
read_word after_backslash [] = none
read_word outside (c ∷ cs) =
    let open_quote = read_word in_quotes cs in
    let escape = read_word after_backslash cs in
    let plain = read_word outside cs in
    if c == quote
    then open_quote
    else if c == b'\\'
    then escape
    else if ends_word c
    then none
    else elim plain [ none ↦ none | some w ↦ some (c ∷ w) ]
read_word in_quotes (c ∷ cs) =
    let close = read_word outside cs in
    let inside = read_word in_quotes cs in
    if c == quote then close else elim inside [ none ↦ none | some w ↦ some (c ∷ w) ]
read_word after_backslash (c ∷ cs) = elim (read_word outside cs) [
  | none ↦ none
  | some w ↦ some (c ∷ w)
]

-- The word that a text with no space outside quotes is; the empty text is no word.
abbrev pub word_of : Bytes → Option Bytes
word_of [] = none
word_of (c ∷ cs) = read_word outside (c ∷ cs)

word_of-cons : (x : ℕ) (s t : Bytes) → read_word outside (x ∷ t) ≡ some s → word_of (x ∷ t) ≡ some s
word_of-cons x s t h = h
