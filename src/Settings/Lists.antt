-- ===== src/Settings/Lists.antt =====
-- Libraries/pbxsetting/Sources/Type.cpp: settings that hold booleans and lists.
pub mod RoundTrip
use xcbuild.Prelude.{
  ℕ, ◌+◌, Bool, true, false, not, ◌&&◌, ◌||◌, List, [], ◌∷◌, ◌++◌, ◌==◌, leb, if◌then◌else◌, map,
}
use xcbuild.Prelude.Text.{Bytes, is_space, codes, equal}

-- `strcasecmp(value, "yes") == 0`: equal when both are in lower case.
abbrev to_lower : ℕ → ℕ
to_lower c = if leb b'A' c && leb c b'Z' then c + 32 else c

unfoldable pub equal_ignoring_case : Bytes → Bytes → Bool
unfolding equal
equal_ignoring_case a b = equal (map to_lower a) (map to_lower b)

unfoldable pub parse_boolean : Bytes → Bool
unfolding equal_ignoring_case
parse_boolean value =
    equal_ignoring_case value (codes "yes") || equal_ignoring_case value (codes "true")

unfoldable pub format_boolean : Bool → Bytes
format_boolean value = if value then codes "YES" else codes "NO"

-- The local variables of `ParseList`; `quote` is 0 outside quotes.
pub record ListState : Type 0 where
  pub entries : List Bytes
  pub str : Bytes
  pub quote : ℕ
  pub escaped : Bool

-- `if (!str.empty()) entries.push_back(str)`
unfoldable pub flush : List Bytes → Bytes → List Bytes
flush entries [] = entries
flush entries (c ∷ str) = entries ++ (c ∷ str) ∷ []

abbrev append_byte : ListState → ℕ → ListState
append_byte s c = record s { str = s.str ++ c ∷ []; escaped = false }

abbrev pub is_quote : ℕ → Bool
is_quote c = c == 39 || c == 34

unfoldable pub step : ListState → ℕ → ListState
unfolding flush
step s c =
    if s.escaped
    then append_byte s c
    else if is_quote c
    then (if s.quote == 0
        then record s { quote = c }
        else if c == s.quote
        then record s { quote = 0 }
        else append_byte s c)
    else if c == b'\\'
    then record s { escaped = true }
    else if s.quote == 0 && is_space c
    then record s { entries = flush s.entries s.str; str = [] }
    else append_byte s c

unfoldable pub parse_from : ListState → Bytes → List Bytes
unfolding step
parse_from s [] = flush s.entries s.str
parse_from s (c ∷ cs) = parse_from (step s c) cs

unfoldable pub parse_list : Bytes → List Bytes
unfolding parse_from
parse_list = parse_from (record { entries = []; str = []; quote = 0; escaped = false })

abbrev pub is_escaped : ℕ → Bool
is_escaped c = c == b'\\' || is_quote c || is_space c

unfoldable pub format_entry : Bytes → Bytes
format_entry [] = []
format_entry (c ∷ cs) = if is_escaped c then b'\\' ∷ c ∷ format_entry cs else c ∷ format_entry cs

-- A space stands before each entry but the first.
unfoldable pub format_more : List Bytes → Bytes
unfolding format_entry
format_more [] = []
format_more (entry ∷ value) = b' ' ∷ (format_entry entry ++ format_more value)

unfoldable pub format_list : List Bytes → Bytes
unfolding format_more
format_list [] = []
format_list (entry ∷ value) = format_entry entry ++ format_more value
