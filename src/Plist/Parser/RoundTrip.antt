-- ===== src/Plist/Parser/RoundTrip.antt =====
-- A property list that ASCIIWriter.cpp writes, read by ASCIIParser.cpp.
use xcbuild.Prelude.{true, false, ◌≡◌, refl, ap, none, some, [], ◌∷◌, ◌++◌}
use xcbuild.Prelude.Text.{Bytes, codes}
use xcbuild.Plist.Object.{
  Object, Objects, Entries, string, integer, real, boolean, contents, date, uid, null_object, array,
  dictionary, nil, cons, end, entry,
}
use xcbuild.Plist.Lexer.{
  Lexer, Cursor, is_unquoted, read_from, ascii, init, end_of_file, read_token,
}
use xcbuild.Plist.Writer.Tokens.{IsAt}
use xcbuild.Plist.Serializer.{Formats, ◌>>◌, write, handle_object, serialize}
use xcbuild.Plist.Parser.{Parser, new, plist, finished, parsed, step, parse}
use xcbuild.Plist.Parser.Leads.{Leads-parse, parse_from-finished, parse-Leads}
use xcbuild.Plist.Parser.Spots.{top, parser_behind}
use xcbuild.Plist.Parser.Readable.{IsReadable, AreReadable, AreReadableEntries, as_read}
use xcbuild.Plist.Parser.Scalars.{
  place, writer, ReadsValue, Prints, Prints-string, Prints-contents, Prints-scalar,
}
use xcbuild.Plist.Parser.Arrays.{
  PrintsItems, PrintsItems-nil, PrintsItems-cons, PrintsBody, PrintsBody-nil, PrintsBody-cons,
  Prints-array,
}
use xcbuild.Plist.Parser.Dictionaries.{
  PrintsEntries, PrintsEntries-end, PrintsEntries-entry, Prints-dictionary,
}

mutual
  unfolding handle_object IsReadable as_read

  pub Prints-object :
      (f : Formats) (o : Object) → IsReadable o → Prints (handle_object f true o) (as_read o)
  Prints-object f (string s) h = Prints-string s h
  Prints-object f (integer n) h = absurd h
  Prints-object f (real n) h = absurd h
  Prints-object f (boolean true) h = Prints-scalar b'Y' (codes "ES") refl (refl, (refl, (refl, tt)))
  Prints-object f (boolean false) h = Prints-scalar b'N' (codes "O") refl (refl, (refl, tt))
  Prints-object f (contents s) h = Prints-contents s h
  Prints-object f (date s) h = Prints-string s h
  Prints-object f (uid n) h = absurd h
  Prints-object f null_object h = absurd h
  Prints-object f (array xs) h = Prints-array f xs (Prints-body f xs h)
  Prints-object f (dictionary entries) (n, h) =
      Prints-dictionary f entries n (Prints-entries f entries h)

  Prints-body : (f : Formats) (xs : Objects) → AreReadable xs → PrintsBody f xs
  Prints-body f nil h = PrintsBody-nil f
  Prints-body f (cons o xs) (k, h) =
      PrintsBody-cons f o xs (Prints-object f o k) (Prints-items f xs h)

  Prints-items : (f : Formats) (xs : Objects) → AreReadable xs → PrintsItems f xs
  Prints-items f nil h = PrintsItems-nil f
  Prints-items f (cons o xs) (k, h) =
      PrintsItems-cons f o xs (Prints-object f o k) (Prints-items f xs h)

  Prints-entries :
      (f : Formats) (entries : Entries) → AreReadableEntries entries → PrintsEntries f entries
  Prints-entries f end h = PrintsEntries-end f
  Prints-entries f (entry key o entries) (k, r, h) =
      PrintsEntries-entry f key o entries k (Prints-object f o r) (Prints-entries f entries h)

Lexes-end :
    (buffer : Bytes) (l : Lexer)
    → IsAt buffer l (10 ∷ [])
    → (l' : Lexer) × (read_token l ≡ some (end_of_file, l'))
unfolding read_token
Lexes-end buffer l v =
    let k : Cursor = record { at = l.at; line = l.line; line_start = l.line_start } in
    (_, ap (λ s. read_from k s l) v.rest)

abbrev whole : Object → Parser
whole o = record new { root = some o; done = true }

parse-read :
    (text : Bytes) (o : Object)
    → ReadsValue text o
    → parse false (text ++ 10 ∷ []) ≡ parsed (whole o)
unfolding step is_unquoted
parse-read text o r =
    let buffer = text ++ 10 ∷ [] in
    let start = init buffer ascii in
    let (l, v, m) =
      r false buffer (10 ∷ []) [] top start refl tt
        (record { style = refl; rest = refl; place = refl }) in
    let (l', e) = Lexes-end buffer l v in
    let ended =
      parse_from-finished 0 false buffer end_of_file l' (place l plist (parser_behind top o))
        (finished (whole o)) e refl in
    let (fuel, h) = Leads-parse 1 (parsed (whole o)) m ended in
    parse-Leads fuel false buffer (parsed (whole o)) (λ z. cc z) h

-- What is written for an object without numbers, UIDs and nulls, whose strings and keys are ASCII
-- without NUL, backslash and vertical tab, whose data are bytes and whose dictionaries have each key
-- once, is read as one object: that one, but for Booleans and dates, which are read as strings.
pub parse-serialize :
    (f : Formats) (o : Object)
    → IsReadable o
    → (text : Bytes) × (serialize f false o ≡ some text)
      × (parse false text ≡ parsed (record new { root = some (as_read o); done = true }))
unfolding serialize
parse-serialize f o h =
    let (text, e, r) = Prints-object f o h 0 false [] in
    let begin = writer 0 false [] in
    (
      text ++ 10 ∷ [],
      ap
          (λ r. elim (((λ z. r) >> write (10 ∷ []) false) begin) [
            | none ↦ none
            | some w ↦ some w.text
          ])
          e,
      parse-read text (as_read o) r,
    )
