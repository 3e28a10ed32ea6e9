-- ===== src/Plist/Serializer.antt =====
-- Libraries/plist/Sources/Format/ASCIIWriter.cpp: the text of an object. What `snprintf` makes of a
-- number is a parameter; `none` is a method that returns false.
pub mod Digits
use xcbuild.Prelude.{
  ℕ, zero, suc, ◌+◌, ◌-◌, ◌/◌, ◌%◌, Bool, true, false, not, ◌||◌, ◌&&◌, Option, none, some, [], ◌∷◌,
  ◌++◌, ltb, if◌then◌else◌,
}
use xcbuild.Prelude.Text.{Bytes, codes}
use xcbuild.Plist.Object.{
  Object, Objects, Entries, string, integer, real, boolean, contents, date, uid, null_object, array,
  dictionary, nil, cons, end, entry,
}
use xcbuild.Plist.Writer.{write_string}

-- `%PRId64` and `%g`.
pub record Formats : Type 0 where
  pub print_integer : ℕ → Bytes
  pub print_real : ℕ → Bytes

-- `ASCIIWriter`, but for its root and its flag.
pub record Writer : Type 0 where
  pub indent : ℕ
  pub last_key : Bool
  pub text : Bytes

abbrev pub Action : Type 0
Action = Writer → Option Writer

infixl 5 ◌>>◌
abbrev pub ◌>>◌ : Action → Action → Action
◌>>◌ m k w = elim (m w) [ none ↦ none | some w' ↦ k w' ]

abbrev pub skip : Action
skip w = some w

unfoldable pub tabs : ℕ → Bytes
tabs zero = []
tabs (suc n) = 9 ∷ tabs n

abbrev pub indentation : Bool → Writer → Bytes
indentation last w = if last then tabs w.indent else []

-- `writeString`
unfoldable pub write : Bytes → Bool → Action
unfolding tabs
write s last w = some (record w { text = w.text ++ (indentation last w ++ s) })

-- `writeEscapedString`
unfoldable pub write_escaped : Bytes → Bool → Action
unfolding write_string tabs
write_escaped s last w = elim (write_string s) [
  | none ↦ none
  | some t ↦ some (record w { text = w.text ++ (indentation last w ++ t) })
]

abbrev pub set_last_key : Bool → Action
set_last_key b w = some (record w { last_key = b })

abbrev pub indent_more : Action
indent_more w = some (record w { indent = suc w.indent })

abbrev pub indent_less : Action
indent_less w = some (record w { indent = w.indent - 1 })

-- `writeString(s, !_lastKey)`
abbrev pub write_value : Bytes → Action
write_value s w = write s (not w.last_key) w

-- A scalar, and `_lastKey = false`.
unfoldable pub handle_scalar : Bytes → Action
unfolding write
handle_scalar s = write_value s >> set_last_key false

unfoldable pub handle_string : Bytes → Action
unfolding write_escaped
handle_string s = (λ w. write_escaped s (not w.last_key) w) >> set_last_key false

-- A byte by `%02x`.
abbrev pub hex_digit : ℕ → ℕ
hex_digit n = if ltb n 10 then b'0' + n else b'a' + (n - 10)

unfoldable pub hex_text : Bytes → Bytes
hex_text [] = []
hex_text (c ∷ s) = hex_digit (c / 16) ∷ hex_digit (c % 16) ∷ hex_text s

unfoldable pub handle_contents : Bytes → Action
unfolding write hex_text
handle_contents s =
    write_value (codes "<")
    >> set_last_key false
    >> write (hex_text s) false
    >> write (codes ">") false

-- One entry of a dictionary.
unfoldable pub write_entry : Bytes → Action → Action
unfolding write_escaped write
write_entry key handle =
    set_last_key false
    >> write_escaped key true
    >> write (codes " = ") false
    >> set_last_key true
    >> handle
    >> write (59 ∷ 10 ∷ []) false

-- `handleDictionary` about its entries.
unfoldable pub write_dictionary : Bool → Action → Action
unfolding write
write_dictionary braces entries =
    (if braces then write_value (123 ∷ 10 ∷ []) >> indent_more else skip)
    >> set_last_key false
    >> entries
    >> (if braces then indent_less >> write (codes "}") true else skip)

unfoldable pub write_array : Action → Action
unfolding write
write_array items =
    write_value (40 ∷ 10 ∷ [])
    >> set_last_key false
    >> indent_more
    >> items
    >> write (10 ∷ []) false
    >> indent_less
    >> write (codes ")") true

-- `handleObject`; the flag says that a dictionary is written with braces, `!_strings || !root`.
unfoldable mutual
  unfolding handle_scalar handle_string handle_contents write_entry write_dictionary write_array

  pub handle_object : Formats → Bool → Object → Action
  handle_object f braces (string s) = handle_string s
  handle_object f braces (integer n) = handle_scalar (f.print_integer n)
  handle_object f braces (real n) = handle_scalar (f.print_real n)
  handle_object f braces (boolean b) = handle_scalar (if b then codes "YES" else codes "NO")
  handle_object f braces (contents s) = handle_contents s
  handle_object f braces (date s) = handle_string s
  handle_object f braces (uid n) =
      write_dictionary braces (write_entry (codes "CF$UID") (handle_scalar (f.print_integer n)))
  handle_object f braces null_object = λ w. none
  handle_object f braces (array xs) = write_array (handle_items f false xs)
  handle_object f braces (dictionary entries) = write_dictionary braces (handle_entries f entries)

  -- A comma before each but the first.
  pub handle_items : Formats → Bool → Objects → Action
  handle_items f comma nil = skip
  handle_items f comma (cons x xs) =
      (if comma then write (44 ∷ 10 ∷ []) false else skip)
      >> handle_object f true x
      >> handle_items f true xs

  pub handle_entries : Formats → Entries → Action
  handle_entries f end = skip
  handle_entries f (entry key x entries) =
      write_entry key (handle_object f true x) >> handle_entries f entries

abbrev pub is_dictionary : Object → Bool
is_dictionary (dictionary entries) = true
is_dictionary o = false

-- `write`, and the contents it leaves.
unfoldable pub serialize : Formats → Bool → Object → Option Bytes
unfolding handle_object write
serialize f strings o =
    let start : Writer = record { indent = 0; last_key = false; text = [] } in
    let end_line : Action = if strings then skip else write (10 ∷ []) false in
    let written : Option Bytes = elim ((handle_object f (not strings) o >> end_line) start) [
      | none ↦ none
      | some w ↦ some w.text
    ] in
    if strings && not (is_dictionary o) then none else written
