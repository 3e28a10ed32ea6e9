-- ===== src/Plist/Json/Writer.antt =====
-- Libraries/plist/Sources/Format/JSONWriter.cpp: the text of an object. It repeats the low level
-- methods of ASCIIWriter.cpp; `char` is signed, as on the machines that the program is for.
use xcbuild.Prelude.{
  ℕ, ◌/◌, ◌%◌, Bool, true, false, not, ◌||◌, ◌==◌, Option, none, some, [], ◌∷◌, ◌++◌, ltb, leb,
  if◌then◌else◌,
}
use xcbuild.Prelude.Text.{Bytes, codes}
use xcbuild.Plist.Object.{
  Object, Objects, Entries, string, integer, real, boolean, contents, date, uid, null_object, array,
  dictionary, nil, cons, end, entry,
}
use xcbuild.Plist.Serializer.{
  Formats, Writer, Action, ◌>>◌, skip, write, write_value, set_last_key, indent_more, indent_less,
  handle_scalar, hex_digit, hex_text,
}

-- A byte by `%04x` of a signed `char`.
abbrev pub escape_control : ℕ → Bytes
escape_control c =
    b'\\'
    ∷ ((if ltb c 32 then codes "00" else codes "ffffff")
        ++ hex_digit (c / 16) ∷ hex_digit (c % 16) ∷ [])

abbrev pub escape_char : ℕ → Bytes
escape_char c =
    if ltb c 32 || leb 128 c
    then escape_control c
    else if c == b'"'
    then b'\\' ∷ b'"' ∷ []
    else c ∷ []

unfoldable pub escape_json : Bytes → Bytes
escape_json [] = []
escape_json (c ∷ s) = escape_char c ++ escape_json s

-- `writeEscapedString`
unfoldable pub write_quoted : Bytes → Bool → Action
unfolding write escape_json
write_quoted s last = write (b'"' ∷ (escape_json s ++ b'"' ∷ [])) last

unfoldable pub handle_quoted : Bytes → Action
unfolding write_quoted
handle_quoted s = (λ w. write_quoted s (not w.last_key) w) >> set_last_key false

unfoldable pub handle_data : Bytes → Action
unfolding write hex_text
handle_data s =
    write_value (codes "\"")
    >> set_last_key false
    >> write (hex_text s) false
    >> write (codes "\"") false

-- One entry of a dictionary, behind a comma if it is not the first.
unfoldable pub write_member : Bool → Bytes → Action → Action
unfolding write write_quoted
write_member comma key handle =
    (if comma then write (codes ",\n") false else skip)
    >> set_last_key false
    >> write_quoted key true
    >> write (codes ": ") false
    >> set_last_key true
    >> handle

-- `handleDictionary` and `handleArray` about what they hold.
unfoldable pub write_object : Action → Action
unfolding write
write_object members =
    write_value (codes "{\n")
    >> indent_more
    >> set_last_key false
    >> members
    >> write (codes "\n") false
    >> indent_less
    >> write (codes "}") true

unfoldable pub write_list : Action → Action
unfolding write
write_list items =
    write_value (codes "[\n")
    >> set_last_key false
    >> indent_more
    >> items
    >> write (codes "\n") false
    >> indent_less
    >> write (codes "]") true

-- `handleObject`
unfoldable mutual
  unfolding handle_scalar handle_quoted handle_data write_member write_object write_list

  pub handle_value : Formats → Object → Action
  handle_value f (string s) = handle_quoted s
  handle_value f (integer n) = handle_scalar (f.print_integer n)
  handle_value f (real n) = handle_scalar (f.print_real n)
  handle_value f (boolean b) = handle_scalar (if b then codes "true" else codes "false")
  handle_value f (contents s) = handle_data s
  handle_value f (date s) = handle_quoted s
  handle_value f (uid n) =
      write_object (write_member false (codes "CF$UID") (handle_scalar (f.print_integer n)))
  handle_value f null_object = λ w. none
  handle_value f (array xs) = write_list (handle_values f false xs)
  handle_value f (dictionary entries) = write_object (handle_members f false entries)

  pub handle_values : Formats → Bool → Objects → Action
  handle_values f comma nil = skip
  handle_values f comma (cons x xs) =
      (if comma then write (codes ",\n") false else skip)
      >> handle_value f x
      >> handle_values f true xs

  pub handle_members : Formats → Bool → Entries → Action
  handle_members f comma end = skip
  handle_members f comma (entry key x entries) =
      write_member comma key (handle_value f x) >> handle_members f true entries

-- `write`, and the contents it leaves.
unfoldable pub serialize_json : Formats → Object → Option Bytes
unfolding handle_value
serialize_json f o =
    let start : Writer = record { indent = 0; last_key = false; text = [] } in
    elim (handle_value f o start) [ none ↦ none | some w ↦ some w.text ]
