-- ===== src/Escape.antt =====
-- Libraries/libutil/Sources/Escape.cpp: quoting for a shell and for a Makefile.
pub mod Shell
use xcbuild.Prelude.{
  ℕ, Bool, true, false, ◌||◌, List, [], ◌∷◌, ◌++◌, ◌==◌, leb, ◌&&◌, if◌then◌else◌,
}
use xcbuild.Prelude.Text.{Bytes, is_space, codes}

abbrev pub within : ℕ → ℕ → ℕ → Bool
within lo hi c = leb lo c && leb c hi

-- The alphabet, the digits and `@%_-+=:,./`.
unfoldable pub is_plain : ℕ → Bool
is_plain c =
    within b'a' b'z' c
    || within b'A' b'Z' c
    || within b'0' b'9' c
    || c == b'@'
    || c == b'%'
    || c == b'_'
    || c == b'-'
    || c == b'+'
    || c == b'='
    || c == b':'
    || c == b','
    || c == b'.'
    || c == b'/'

-- `value.find_first_not_of(*escaped) == std::string::npos`
unfoldable pub all_plain : Bytes → Bool
unfolding is_plain
all_plain [] = true
all_plain (c ∷ cs) = is_plain c && all_plain cs

abbrev pub quote : ℕ
quote = 39

-- The loop over the quotes: each becomes `'\''`.
unfoldable pub quoted : Bytes → Bytes
quoted [] = []
quoted (c ∷ cs) = if c == quote then quote ∷ b'\\' ∷ quote ∷ quote ∷ quoted cs else c ∷ quoted cs

unfoldable pub shell : Bytes → Bytes
unfolding all_plain quoted
shell value = if all_plain value then value else quote ∷ (quoted value ++ quote ∷ [])

unfoldable pub is_escaped_in_makefile : ℕ → Bool
is_escaped_in_makefile c = is_space c || c == b'#' || c == b'$' || c == b'%' || c == b':'

unfoldable pub makefile : Bytes → Bytes
unfolding is_escaped_in_makefile
makefile [] = []
makefile (c ∷ cs) = if is_escaped_in_makefile c then b'\\' ∷ c ∷ makefile cs else c ∷ makefile cs
