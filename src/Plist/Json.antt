-- ===== src/Plist/Json.antt =====
-- Libraries/plist/Sources/Format/JSONParser.cpp: the stack machine of ASCIIParser.cpp, whose methods
-- it repeats word by word, with a loop of its own. What `strtoll` and `strtod` read is a parameter.
pub mod Soundness
pub mod Writer
use xcbuild.Prelude.{
  ℕ, zero, suc, ◌+◌, ◌==◌, Bool, true, false, Option, none, some, [], ◌∷◌, length, if◌then◌else◌,
}
use xcbuild.Prelude.Text.{Bytes, until_nul}
use xcbuild.Plist.Object.{Object, string, integer, real, boolean, null_object}
use xcbuild.Plist.Lexer.{
  Token, Lexer, json, init, read_token, quoted_string, number_integer, number_real, bool_false,
  bool_true, null, dictionary_start, dictionary_end, array_start, array_end, comma, invalid_token,
  end_of_file, unterminated_long_comment, unterminated_quoted_string, unterminated_data,
}
use xcbuild.Plist.Unquote.{unquote, token_text}
use xcbuild.Plist.Parser.{
  Parser, new, Error, premature_end, bad_token, unterminated_string, token_when_finished,
  unexpected_token, unrecognized_failure, boolean_as_key, null_as_key, integer_as_key, real_as_key,
  bad_integer, bad_real, unknown_token, ParseState, plist, key_separator, entry_separator, Next,
  going, failed, finished, overrun, next, settle, store_value, read_string, leave, push,
  begin_array, begin_dictionary, is_dictionary, read_key_separator,
}

-- `strtoll` of base 0 and `strtod`: the 64 bits, or that no text of a number was found.
pub record Numbers : Type 0 where
  pub read_integer : Bytes → Option ℕ
  pub read_real : Bytes → Option ℕ

-- A value that cannot be a key, and what `parse` does behind it.
unfoldable pub store_plain : Error → Object → Parser → Next
unfolding store_value settle
store_plain as_key value p =
    if is_dictionary p
    then failed as_key
    else next (store_value value p) (λ q. settle (p.level == 0) entry_separator q)

unfoldable pub store_number : Error → Error → (ℕ → Object) → Option ℕ → Parser → Next
unfolding store_plain
store_number as_key bad make none p = if is_dictionary p then failed as_key else failed bad
store_number as_key bad make (some n) p = store_plain as_key (make n) p

-- `JSONParseState::Parse`
unfoldable pub read_value : Numbers → Token → Bytes → Parser → Next
unfolding leave read_string store_plain store_number push
read_value f dictionary_start s p =
    going plist (record (begin_dictionary p) { level = suc p.level })
read_value f array_start s p = going plist (record (begin_array p) { level = suc p.level })
read_value f dictionary_end s p = leave false p
read_value f array_end s p = leave true p
read_value f bool_true s p = store_plain boolean_as_key (boolean true) p
read_value f bool_false s p = store_plain boolean_as_key (boolean false) p
read_value f null s p = store_plain null_as_key null_object p
read_value f number_integer s p =
    store_number integer_as_key bad_integer integer (f.read_integer s) p
read_value f number_real s p = store_number real_as_key bad_real real (f.read_real s) p
read_value f quoted_string s p = read_string s p
read_value f _ s p = failed unknown_token

-- `JSONParseState::EntrySeparator`
unfoldable pub read_separator : Token → Parser → Next
unfolding leave
read_separator dictionary_end p = leave false p
read_separator array_end p = leave true p
read_separator comma p = going plist p
read_separator _ p = failed unexpected_token

unfoldable pub read_json : Numbers → ParseState → Token → Bytes → Parser → Next
unfolding read_value read_separator read_key_separator
read_json f plist t s p = if p.done then failed token_when_finished else read_value f t s p
read_json f key_separator t s p = read_key_separator t p
read_json f entry_separator t s p = read_separator t p

-- A round of the loop of `parse`.
unfoldable pub step : Numbers → Bytes → Token → Lexer → ParseState → Parser → Next
unfolding read_json unquote until_nul
step f buffer end_of_file l state p = if p.done then finished p else failed premature_end
step f buffer invalid_token l state p = failed bad_token
step f buffer unterminated_quoted_string l state p = failed unterminated_string
step f buffer unterminated_long_comment l state p = failed unrecognized_failure
step f buffer unterminated_data l state p = failed unrecognized_failure
step f buffer t l state p = read_json f state t (until_nul (unquote (token_text buffer l))) p

-- What `parse` returns.
pub data Answer : Type 0 where
  parsed : Parser → Answer
  rejected : Error → Answer
  overran : Answer
  out_of_fuel : Answer

abbrev pub answer : (ParseState → Parser → Answer) → Next → Answer
answer more (going state p) = more state p
answer more (failed e) = rejected e
answer more (finished p) = parsed p
answer more overrun = overran

unfoldable pub parse_from : ℕ → Numbers → Bytes → Lexer → ParseState → Parser → Answer
unfolding read_token step
parse_from zero f buffer l state p = out_of_fuel
parse_from (suc fuel) f buffer l state p = elim (read_token l) [
  | none ↦ overran
  | some (t, l') ↦ answer (parse_from fuel f buffer l') (step f buffer t l' state p)
]

-- `parse` on a new parser: each round but the last takes a byte.
unfoldable pub parse_json : Numbers → Bytes → Answer
unfolding parse_from
parse_json f buffer = parse_from (length buffer + 1) f buffer (init buffer json) plist new
