-- ===== src/Settings/Operations.antt =====
-- `ProcessOperation` of Libraries/pbxsetting/Sources/Environment.cpp: the operations that a
-- reference applies to a setting, as in `$(NAME:identifier)`.
pub mod Identifiers
use xcbuild.Prelude.{
  ℕ, ◌+◌, ◌-◌, Bool, true, false, ◌&&◌, ◌||◌, Option, none, some, List, [], ◌∷◌, ◌++◌, ◌==◌, leb,
  if◌then◌else◌, map,
}
use xcbuild.Prelude.Text.{Bytes, codes, equal}
use xcbuild.Path.{normalized, base, parent, extension}

abbrev pub is_letter : ℕ → Bool
is_letter c = (leb b'a' c && leb c b'z') || (leb b'A' c && leb c b'Z')

abbrev pub is_digit : ℕ → Bool
is_digit c = leb b'0' c && leb c b'9'

abbrev pub begins_identifier : ℕ → Bool
begins_identifier c = is_letter c || c == b'_'

abbrev pub continues_identifier : ℕ → Bool
continues_identifier c = begins_identifier c || is_digit c

-- The loop of `identifier`: the flag says that the first search has found its byte, so that the
-- searches go by `subsequent`.
unfoldable pub identifier_from : Bool → Bytes → Bytes
identifier_from found [] = []
identifier_from true (c ∷ cs) =
    (if continues_identifier c then c else b'_') ∷ identifier_from true cs
identifier_from false (c ∷ cs) =
    let later = c ∷ identifier_from false cs in
    let first = b'_' ∷ identifier_from true cs in if begins_identifier c then later else first

-- One byte of `rfc1034identifier`, between the byte written before it and the byte behind it.
unfoldable pub rfc1034_byte : Option ℕ → ℕ → Option ℕ → ℕ
rfc1034_byte none c next =
    let c' = if c == b'.' then b'-' else c in if is_letter c' then c' else b'-'
rfc1034_byte (some prev) c none =
    let c' = if c == b'.' then b'-' else c in
    if prev == b'.'
    then (if is_letter c' then c' else b'-')
    else (if is_letter c' || is_digit c' then c' else b'-')
rfc1034_byte (some prev) c (some next) =
    if prev == b'.'
    then (if is_letter c then c else b'-')
    else if next == b'.'
    then (if is_letter c || is_digit c || c == b'-' then c else b'-')
    else (if is_letter c || is_digit c then c else b'-')

unfoldable pub rfc1034_from : Option ℕ → Bytes → Bytes
unfolding rfc1034_byte
rfc1034_from prev [] = []
rfc1034_from prev (c ∷ []) = rfc1034_byte prev c none ∷ []
rfc1034_from prev (c ∷ d ∷ cs) =
    rfc1034_byte prev c (some d) ∷ rfc1034_from (some (rfc1034_byte prev c (some d))) (d ∷ cs)

-- `alphabet + digits + "@%_-+=:,./"`
abbrev is_unquoted : ℕ → Bool
is_unquoted c =
    is_letter c
    || is_digit c
    || c == b'@'
    || c == b'%'
    || c == b'_'
    || c == b'-'
    || c == b'+'
    || c == b'='
    || c == b':'
    || c == b','
    || c == b'.'
    || c == b'/'

unfoldable pub all_unquoted : Bytes → Bool
all_unquoted [] = true
all_unquoted (c ∷ cs) = is_unquoted c && all_unquoted cs

-- Each `'` becomes `'"'"'`.
unfoldable pub replace_quotes : Bytes → Bytes
replace_quotes [] = []
replace_quotes (c ∷ cs) =
    if c == 39 then 39 ∷ 34 ∷ 39 ∷ 34 ∷ 39 ∷ replace_quotes cs else c ∷ replace_quotes cs

unfoldable pub quote : Bytes → Bytes
unfolding all_unquoted replace_quotes
quote value = if all_unquoted value then value else 39 ∷ (replace_quotes value ++ 39 ∷ [])

-- `tolower` and `toupper` in the C locale.
unfoldable pub to_lower : ℕ → ℕ
to_lower c = if leb b'A' c && leb c b'Z' then c + 32 else c

unfoldable pub to_upper : ℕ → ℕ
to_upper c = if leb b'a' c && leb c b'z' then c - 32 else c

-- An unknown operation leaves the value, with a warning.
unfoldable pub process_operation : Bytes → Bytes → Bytes
unfolding identifier_from rfc1034_from quote to_lower to_upper equal normalized base parent
    extension
process_operation value operation =
    if equal operation (codes "identifier") || equal operation (codes "c99extidentifier")
    then identifier_from false value
    else if equal operation (codes "rfc1034identifier")
    then rfc1034_from none value
    else if equal operation (codes "quote")
    then quote value
    else if equal operation (codes "lower")
    then map to_lower value
    else if equal operation (codes "upper")
    then map to_upper value
    else if equal operation (codes "standardizepath")
    then normalized value
    else if equal operation (codes "base")
    then base false value
    else if equal operation (codes "dir")
    then parent value
    else if equal operation (codes "file")
    then base true value
    else if equal operation (codes "suffix")
    then b'.' ∷ extension value
    else value
