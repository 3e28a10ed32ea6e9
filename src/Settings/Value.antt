-- ===== src/Settings/Value.antt =====
-- Libraries/pbxsetting/Sources/Value.cpp: the expressions of build settings. An offset into the
-- text is the text that is left from there.
pub mod Parsing
pub mod Search
pub mod RoundTrip
use xcbuild.Prelude.{
  ℕ, zero, suc, ◌+◌, Bool, true, false, ◌&&◌, ◌||◌, Option, none, some, List, [], ◌∷◌, ◌++◌, ◌==◌,
  ltb, leb, if◌then◌else◌, length, take, drop,
}
use xcbuild.Prelude.Text.{Bytes, codes, equal}

-- The vector of entries: a literal string or a reference, and the other entries.
pub data Value : Type 0 where
  nil : Value
  string : Bytes → Value → Value
  reference : Value → Value → Value

-- The normal form of the text, with `$(` and `)` at each reference.
unfoldable pub raw : Value → Bytes
raw nil = []
raw (string s rest) = s ++ raw rest
raw (reference v rest) = b'$' ∷ b'(' ∷ (raw v ++ b')' ∷ raw rest)

-- `operator==`
unfoldable pub equal_value : Value → Value → Bool
unfolding equal
equal_value nil nil = true
equal_value (string s v) (string t w) = equal s t && equal_value v w
equal_value (reference a v) (reference b w) = equal_value a b && equal_value v w
equal_value _ _ = false

-- `push_back` of all the entries.
unfoldable pub append : Value → Value → Value
append nil w = w
append (string s v) w = string s (append v w)
append (reference a v) w = reference a (append v w)

-- `operator+`: a string at the end of the left side and one at the front of the right are joined.
unfoldable pub join : Value → Value → Value
unfolding append
join nil w = w
join (string s nil) (string t w) = string (s ++ t) w
join (string s nil) w = string s w
join (string s (string t v)) w = string s (join (string t v) w)
join (string s (reference a v)) w = string s (join (reference a v) w)
join (reference a v) w = reference a (join v w)

-- `Value::String` and `Value::Variable`.
unfoldable pub from_string : Bytes → Value
from_string [] = nil
from_string (c ∷ cs) = string (c ∷ cs) nil

unfoldable pub variable : Bytes → Value
variable name = reference (string name nil) nil

pub data Delimiter : Type 0 where
  no_delimiter parentheses braces identifier : Delimiter

abbrev pub is_identifier : ℕ → Bool
is_identifier c =
    (leb b'a' c && leb c b'z')
    || (leb b'A' c && leb c b'Z')
    || (leb b'0' c && leb c b'9')
    || c == b'_'

-- `find` of one byte and of two.
unfoldable pub find_byte : ℕ → Bytes → Option ℕ
find_byte a [] = none
find_byte a (c ∷ cs) =
    if c == a then some 0 else elim (find_byte a cs) [ none ↦ none | some n ↦ some (suc n) ]

unfoldable pub find_pair : ℕ → ℕ → Bytes → Option ℕ
find_pair a b [] = none
find_pair a b (c ∷ []) = none
find_pair a b (c ∷ d ∷ cs) =
    if c == a && d == b
    then some 0
    else elim (find_pair a b (d ∷ cs)) [ none ↦ none | some n ↦ some (suc n) ]

-- `find_first_not_of(identifier)`, the size of the text if there is none.
unfoldable pub identifier_length : Bytes → ℕ
identifier_length [] = 0
identifier_length (c ∷ cs) = if is_identifier c then suc (identifier_length cs) else 0

-- The variable `to`.
unfoldable pub find_end : Delimiter → Bytes → Option ℕ
unfolding find_byte identifier_length
find_end no_delimiter text = some (length text)
find_end parentheses text = find_byte b')' text
find_end braces text = find_byte b'}' text
find_end identifier text =
    if identifier_length text == 0 then none else some (identifier_length text)

-- `a <= b || b == npos` and `a < b || b == npos`.
abbrev pub at_most : ℕ → Option ℕ → Bool
at_most a none = true
at_most a (some b) = leb a b

abbrev pub less_than : ℕ → Option ℕ → Bool
less_than a none = true
less_than a (some b) = ltb a b

-- The variables `open`, `openlen`, `start` and `closelen`.
pub record Opening : Type 0 where
  pub at : ℕ
  pub open_length : ℕ
  pub start : Delimiter
  pub close_length : ℕ

unfoldable pub choose_opening : Option ℕ → Option ℕ → Option ℕ → Option Opening
choose_opening pno cbo ido =
    let third : Option Opening = elim ido [
      | some i ↦
          (if less_than i pno && less_than i cbo
            then some (record { at = i; open_length = 1; start = identifier; close_length = 0 })
            else none)
      | none ↦ none
    ] in
    let second : Option Opening = elim cbo [
      | some b ↦
          (if at_most b ido && less_than b pno
            then some (record { at = b; open_length = 2; start = braces; close_length = 1 })
            else third)
      | none ↦ third
    ] in
    elim pno [
      | some p ↦
          (if at_most p ido && less_than p cbo
            then some (record { at = p; open_length = 2; start = parentheses; close_length = 1 })
            else second)
      | none ↦ second
    ]

unfoldable pub find_opening : Bytes → Option Opening
unfolding choose_opening find_pair find_byte
find_opening text =
    choose_opening (find_pair b'$' b'(' text) (find_pair b'$' b'{' text) (find_byte b'$' text)

-- `ParseResult`; `found` has the text from `end` on. Nothing reads the value of a failure.
pub data ParseResult : Type 0 where
  out_of_fuel : ParseResult
  not_found : ParseResult
  found : Bytes → Value → ParseResult

-- `push_back` of a literal that is not empty.
unfoldable pub push_literal : Value → Bytes → Value
unfolding append
push_literal entries [] = entries
push_literal entries (c ∷ cs) = append entries (string (c ∷ cs) nil)

-- One round of the loop: the end of this value, or the opening of a reference in it. `pending` is
-- the text between `append_offset` and `search_offset`, which `text` begins at.
pub data Round : Type 0 where
  no_end : Round
  ends : ℕ → Round
  opens : Opening → Round

unfoldable pub round : Delimiter → Bytes → Round
unfolding find_end find_opening
round end text = elim (find_end end text) [
  | none ↦ no_end
  | some to ↦ elim (find_opening text) [
    | none ↦ ends to
    | some o ↦ (if leb to o.at then ends to else opens o)
  ]
]

unfoldable pub parse_value : ℕ → Delimiter → Value → Bytes → Bytes → ParseResult
unfolding round push_literal append
parse_value zero end entries pending text = out_of_fuel
parse_value (suc fuel) end entries pending text = elim (round end text) [
  | no_end ↦ not_found
  | ends to ↦ found (drop to text) (push_literal entries (pending ++ take to text))
  | opens o ↦ elim (parse_value fuel o.start nil [] (drop (o.at + o.open_length) text)) [
    | out_of_fuel ↦ out_of_fuel
    | found rest v ↦
        parse_value fuel end
          (append (push_literal entries (pending ++ take o.at text)) (reference v nil)) []
          (drop o.close_length rest)
    | not_found ↦
        parse_value fuel end entries (pending ++ take o.open_length text) (drop o.open_length text)
  ]
]

-- `Value::Parse`. Each call and each round leaves less text.
unfoldable pub parse : Bytes → ParseResult
unfolding parse_value
parse text = parse_value (suc (length text)) no_delimiter nil [] text
