-- ===== src/Tests/Jsons.antt =====
-- JSON at concrete inputs: written, and parsed.
use xcbuild.Prelude.{◌≡◌, refl, true, none, some, [], ◌∷◌}
use xcbuild.Prelude.Text.{Bytes, codes}
use xcbuild.Plist.Object.{
  Object, string, integer, boolean, null_object, array, dictionary, nil, cons, end, entry,
}
use xcbuild.Plist.Serializer.{Formats}
use xcbuild.Plist.Parser.{expected_key_separator}
use xcbuild.Plist.Json.{Numbers, Answer, parsed, rejected, parse_json}
use xcbuild.Plist.Json.Soundness.{IsSound, parse_json-IsSound}
use xcbuild.Plist.Json.Writer.{serialize_json, escape_json}

abbrev numbers : Numbers
numbers = record { read_integer = λ s. some 7; read_real = λ s. none }

abbrev formats : Formats
formats = record { print_integer = λ n. codes "7"; print_real = λ n. codes "0" }

abbrev value : Object
value = dictionary (
    entry (codes "a") (array (cons (integer 7) (cons (boolean true) nil)))
      (entry (codes "b") (string (codes "x\"")) end))

abbrev text : Bytes
text = codes "{\n\t\"a\": [\n\t\t7,\n\t\ttrue\n\t],\n\t\"b\": \"x\\\"\"\n}"

written : serialize_json formats value ≡ some text
unfolding serialize_json
written = refl

abbrev root_of : Answer → Object
root_of (parsed p) = elim p.root [ none ↦ null_object | some o ↦ o ]
root_of _ = null_object

read_back : root_of (parse_json numbers text) ≡ value
unfolding parse_json
read_back = refl

-- A comma before the end is taken.
last_comma : root_of (parse_json numbers (codes "[1,]")) ≡ array (cons (integer 7) nil)
unfolding parse_json
last_comma = refl

no_separator : parse_json numbers (codes "{\"a\" 1}") ≡ rejected expected_key_separator
unfolding parse_json
no_separator = refl

-- A line end, a backslash and a byte that is no ASCII are not escaped as JSON has it.
escapes : escape_json (10 ∷ b'\\' ∷ 195 ∷ []) ≡ codes "\\000a\\\\ffffffc3"
unfolding escape_json
escapes = refl

parse_json-IsSound_example : IsSound (parse_json numbers (codes "{\"a\": [1, {}], \"b\""))
parse_json-IsSound_example = parse_json-IsSound numbers (codes "{\"a\": [1, {}], \"b\"")
