-- ===== src/Plist/Json/Soundness.antt =====
-- What `parse` of JSONParser.cpp returns, and that it does.
use xcbuild.Prelude.{
  ℕ, zero, suc, ◌+◌, ◌<◌, true, false, ◌≡◌, ◌≢◌, refl, sym, ap, subst, Option, none, some, length,
  arith, Option-cases, inl, inr, if◌then◌else◌,
}
use xcbuild.Prelude.Text.{Bytes, until_nul}
use xcbuild.Plist.Object.{Object, integer, real, boolean, null_object}
use xcbuild.Plist.Lexer.{
  Token, Lexer, json, init, read_token, unquoted_string, quoted_string, number_integer, number_real,
  bool_false, bool_true, null, dictionary_start, dictionary_key_val_separator, dictionary_end,
  array_start, array_end, comma, invalid_token, end_of_file, unterminated_long_comment,
  unterminated_quoted_string, unterminated_data,
}
use xcbuild.Plist.Lexer.Bounds.{is_failure, read_token-IsInside}
use xcbuild.Plist.Unquote.{unquote, token_text}
use xcbuild.Plist.Parser.{
  Parser, new, Error, ParseState, plist, key_separator, entry_separator, Next, going, failed,
  finished, overrun, has_state, read_key_separator, premature_end,
}
use xcbuild.Plist.Parser.Standing.{
  Standing, keys, value, items, fresh, inside, complete, parser_of, is_of_text, IsGood, IsOpen,
  either, put-IsGood, begin_array-IsGood, begin_dictionary-IsGood, read_string-IsGood, leave-IsGood,
}
use xcbuild.Plist.Json.{
  Numbers, store_plain, store_number, read_value, read_separator, read_json, step, Answer, parsed,
  rejected, overran, out_of_fuel, answer, parse_from, parse_json,
}

-- A value that is no key, with the error where it stands for one.
store_plain-IsGood :
    (e : Error) (o : Object) (p : Standing)
    → IsOpen p
    → is_of_text e ≡ true
    → IsGood (store_plain e o (parser_of p))
unfolding store_plain has_state
store_plain-IsGood e o fresh d h = put-IsGood o fresh d
store_plain-IsGood e o (inside (keys entries) os) d h = h
store_plain-IsGood e o (inside (value entries key) os) d h =
    put-IsGood o (inside (value entries key) os) d
store_plain-IsGood e o (inside (items xs) os) d h = put-IsGood o (inside (items xs) os) d
store_plain-IsGood e o (complete r) d h = absurd (cc d)

store_number-IsGood :
    (e bad : Error) (make : ℕ → Object) (r : Option ℕ) (p : Standing)
    → IsOpen p
    → is_of_text e ≡ true
    → is_of_text bad ≡ true
    → IsGood (store_number e bad make r (parser_of p))
unfolding store_number
store_number-IsGood e bad make none p d h k = either (has_state false (parser_of p).state) _ _ h k
store_number-IsGood e bad make (some n) p d h k = store_plain-IsGood e (make n) p d h

read_value-IsGood :
    (f : Numbers) (t : Token) (s : Bytes) (p : Standing)
    → IsOpen p
    → IsGood (read_value f t s (parser_of p))
unfolding read_value
read_value-IsGood f dictionary_start s p d = begin_dictionary-IsGood p d
read_value-IsGood f array_start s p d = begin_array-IsGood p d
read_value-IsGood f dictionary_end s p d = leave-IsGood false p
read_value-IsGood f array_end s p d = leave-IsGood true p
read_value-IsGood f bool_true s p d = store_plain-IsGood _ (boolean true) p d refl
read_value-IsGood f bool_false s p d = store_plain-IsGood _ (boolean false) p d refl
read_value-IsGood f null s p d = store_plain-IsGood _ null_object p d refl
read_value-IsGood f number_integer s p d =
    store_number-IsGood _ _ integer (f.read_integer s) p d refl refl
read_value-IsGood f number_real s p d = store_number-IsGood _ _ real (f.read_real s) p d refl refl
read_value-IsGood f quoted_string s p d = read_string-IsGood s p d
read_value-IsGood f _ s p d = refl

read_json-IsGood :
    (f : Numbers) (state : ParseState) (t : Token) (s : Bytes) (p : Standing)
    → IsGood (read_json f state t s (parser_of p))
unfolding read_json read_key_separator read_separator
read_json-IsGood f plist t s fresh = read_value-IsGood f t s fresh refl
read_json-IsGood f plist t s (inside o os) = read_value-IsGood f t s (inside o os) refl
read_json-IsGood f plist t s (complete o) = refl
read_json-IsGood f key_separator dictionary_key_val_separator s p = (p, refl)
read_json-IsGood f key_separator _ s p = refl
read_json-IsGood f entry_separator dictionary_end s p = leave-IsGood false p
read_json-IsGood f entry_separator array_end s p = leave-IsGood true p
read_json-IsGood f entry_separator comma s p = (p, refl)
read_json-IsGood f entry_separator _ s p = refl

at_end-IsGood :
    (p : Standing)
    → IsGood (if (parser_of p).done then finished (parser_of p) else failed premature_end)
at_end-IsGood fresh = refl
at_end-IsGood (inside o os) = refl
at_end-IsGood (complete o) = (o, refl)

step-IsGood :
    (f : Numbers) (buffer : Bytes) (t : Token) (l : Lexer) (state : ParseState) (p : Standing)
    → IsGood (step f buffer t l state (parser_of p))
unfolding step
step-IsGood f buffer end_of_file l state p = at_end-IsGood p
step-IsGood f buffer invalid_token l state p = refl
step-IsGood f buffer unterminated_quoted_string l state p = refl
step-IsGood f buffer unterminated_long_comment l state p = refl
step-IsGood f buffer unterminated_data l state p = refl
step-IsGood f buffer t l state p =
    read_json-IsGood f state t (until_nul (unquote (token_text buffer l))) p

-- A round that goes on took no failure and no unquoted string.
read_json_unquoted :
    (f : Numbers) (state state' : ParseState) (s : Bytes) (p p' : Parser)
    → read_json f state unquoted_string s p ≢ going state' p'
unfolding read_json
read_json_unquoted f plist state' s p p' h = ground arith
read_json_unquoted f key_separator state' s p p' h = cc h
read_json_unquoted f entry_separator state' s p p' h = cc h

step-going :
    (f : Numbers) (buffer : Bytes) (t : Token) (l : Lexer) (state state' : ParseState)
    (p p' : Parser)
    → step f buffer t l state p ≡ going state' p'
    → (is_failure t ≡ false) × (t ≢ unquoted_string)
unfolding step
step-going f buffer end_of_file l state state' p p' h = absurd (ground arith)
step-going f buffer invalid_token l state state' p p' h = absurd (cc h)
step-going f buffer unterminated_long_comment l state state' p p' h = absurd (cc h)
step-going f buffer unterminated_quoted_string l state state' p p' h = absurd (cc h)
step-going f buffer unterminated_data l state state' p p' h = absurd (cc h)
step-going f buffer unquoted_string l state state' p p' h =
    absurd (read_json_unquoted f state state' _ p p' h)
step-going f buffer _ l state state' p p' h = (refl, λ e. cc e)

round_shorter :
    (f : Numbers) (buffer : Bytes) (t : Token) (l l' : Lexer) (state state' : ParseState)
    (p p' : Parser)
    → read_token l ≡ some (t, l')
    → step f buffer t l' state p ≡ going state' p'
    → length l'.rest < length l.rest
round_shorter f buffer t l l' state state' p p' r h =
    let v = read_token-IsInside l l' t r in
    let (g, u) = step-going f buffer t l' state state' p p' h in
    elim (v.moves g) [ inl m ↦ omega (arith, v.ends) | inr (q, z) ↦ absurd (u q) ]

-- The answer has a root and nothing open, or tells an error of the text.
abbrev pub IsSound : Answer → Type 0
IsSound (parsed p) = (o : Object) × (p ≡ record new { root = some o; done = true })
IsSound (rejected e) = is_of_text e ≡ true
IsSound overran = Unit
IsSound out_of_fuel = ⊥

answer-IsSound :
    (more : ParseState → Parser → Answer) (n : Next)
    → ((state : ParseState) (p : Standing)
        → n ≡ going state (parser_of p)
        → IsSound (more state (parser_of p)))
    → IsGood n
    → IsSound (answer more n)
answer-IsSound more (going state p) h (s, e) =
    subst (λ q. IsSound (more state q)) (sym e) (h state s (ap (going state) e))
answer-IsSound more (failed e) h g = g
answer-IsSound more (finished p) h g = g
answer-IsSound more overrun h g = tt

parse_from-IsSound :
    (fuel : ℕ) (f : Numbers) (buffer : Bytes) (l : Lexer) (state : ParseState) (p : Standing)
    → length l.rest < fuel
    → IsSound (parse_from fuel f buffer l state (parser_of p))
unfolding parse_from
parse_from-IsSound zero f buffer l state p h = absurd (omega arith)
parse_from-IsSound (suc fuel) f buffer l state p h = elim (Option-cases (read_token l)) [
  | inl n ↦ rw (parse_from, n) tt
  | inr ((t, l'), r) ↦
      let n = step f buffer t l' state (parser_of p) in
      let e : parse_from (suc fuel) f buffer l state (parser_of p)
          ≡ answer (parse_from fuel f buffer l') n =
        rw (parse_from, r) refl in
      subst IsSound (sym e) (
        answer-IsSound (parse_from fuel f buffer l') n
          (λ state' q g. parse_from-IsSound fuel f buffer l' state' q (
            omega
              (arith, round_shorter f buffer t l l' state state' (parser_of p) (parser_of q) r g)))
          (step-IsGood f buffer t l' state p))
]

-- Whatever the text, and whatever is read as a number, the JSON parser ends. Where it reads past the
-- end of the text (overran) nothing more is told. Where it succeeds it has a root, it is done, and none
-- of its containers is open. Where it fails the error is one of the text: none of those that tell of a
-- lost container, of a second root, of an empty stack or of a key in a wrong state.
pub parse_json-IsSound : (f : Numbers) (buffer : Bytes) → IsSound (parse_json f buffer)
unfolding parse_json
parse_json-IsSound f buffer =
    parse_from-IsSound (length buffer + 1) f buffer (init buffer json) plist fresh (omega arith)
