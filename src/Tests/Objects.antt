-- ===== src/Tests/Objects.antt =====
-- Property lists at concrete inputs: written, and parsed.
use xcbuild.Prelude.{◌≡◌, arith, refl, true, false, none, some, [], ◌∷◌}
use xcbuild.Prelude.Text.{Bytes, codes, equal}
use xcbuild.Plist.Object.{
  Object, Entries, string, contents, array, dictionary, nil, cons, end, entry,
}
use xcbuild.Plist.Serializer.{Formats, serialize}
use xcbuild.Plist.Parser.RoundTrip.{parse-serialize}
use xcbuild.Plist.Parser.Readable.{AreNew, IsReadable, as_read}
use xcbuild.Plist.Serializer.Digits.{AreBytes}
use xcbuild.Plist.Parser.Soundness.{IsSound, parse-IsSound}
use xcbuild.Plist.Parser.{new, Answer, parsed, rejected, overran, expected_separator, parse}

abbrev plain : Formats
plain = record { print_integer = λ n. codes "0"; print_real = λ n. codes "0" }

abbrev entries_of_sample : Entries
entries_of_sample =
    entry (codes "a b") (array (cons (string (codes "x\"")) (cons (contents (10 ∷ 255 ∷ [])) nil)))
      (entry (codes "c") (dictionary end) (entry (codes "d") (array nil) end))

abbrev sample : Object
sample = dictionary entries_of_sample

sample_text :
    serialize plain false sample
    ≡ some (
        codes
          "{\n\t\"a b\" = (\n\t\t\"x\\\"\",\n\t\t<0aff>\n\t);\n\tc = {\n\t};\n\td = (\n\n\t);\n}\n")
unfolding serialize
sample_text = refl

abbrev root_of : Answer → Object
root_of (parsed p) = elim p.root [ none ↦ array nil | some o ↦ o ]
root_of _ = array nil

sample_parsed :
    root_of (
      parse false (
        codes
          "{\n\t\"a b\" = (\n\t\t\"x\\\"\",\n\t\t<0aff>\n\t);\n\tc = {\n\t};\n\td = (\n\n\t);\n}\n"))
    ≡ sample
unfolding parse
sample_parsed = refl

odd_digits : parse false (codes "<abc>") ≡ overran
unfolding parse
odd_digits = refl

strings_file :
    root_of (parse true (codes "a = b;\n/* x */ c = d;\n"))
    ≡ dictionary
        (entry (codes "a") (string (codes "b")) (entry (codes "c") (string (codes "d")) end))
unfolding parse
strings_file = refl

no_semicolon : parse false (codes "{ a = b }") ≡ rejected expected_separator 1
unfolding parse
no_semicolon = refl

sample-IsReadable : IsReadable sample
unfolding IsReadable equal
sample-IsReadable =
    let new_keys : AreNew [] entries_of_sample = (tt, ((refl, tt), ((refl, (refl, tt)), tt))) in
    let bytes : AreBytes (10 ∷ 255 ∷ []) = (omega arith, (omega arith, tt)) in
    (
      new_keys,
      (
        (refl, (refl, (refl, tt))),
        ((refl, (refl, tt)), (bytes, tt)),
        ((refl, tt), (tt, tt), ((refl, tt), tt, tt)),
      ),
    )

-- The round trip at a dictionary of an array, an empty dictionary and an empty array.
parse-serialize_example :
    (text : Bytes) × (serialize plain false sample ≡ some text)
    × (parse false text ≡ parsed (record new { root = some (as_read sample); done = true }))
parse-serialize_example = parse-serialize plain sample sample-IsReadable

parse-IsSound_example : IsSound (parse false (codes "{ a = <0 1 2>; b = ( \"x"))
parse-IsSound_example = parse-IsSound false (codes "{ a = <0 1 2>; b = ( \"x")
