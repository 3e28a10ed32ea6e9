-- ===== src/Plist/Parser/Soundness.antt =====
-- What `parse` of ASCIIParser.cpp returns: a root, or an error of the text.
use xcbuild.Prelude.{
  ℕ, zero, suc, ◌*◌, ◌+◌, Bool, true, false, ◌≡◌, ◌≢◌, refl, sym, subst, ◌∙◌, some, [], length,
  Option-cases, inl, inr,
}
use xcbuild.Prelude.Text.{Bytes, until_nul}
use xcbuild.Plist.Object.{Object, end}
use xcbuild.Plist.Lexer.{
  Token, Lexer, ascii, init, read_token, inline_comment, long_comment, unquoted_string,
  quoted_string, dictionary_start, dictionary_key_val_separator, dictionary_end, array_start,
  array_end, plist_data, comma, semicolon, invalid_token, end_of_file, unterminated_long_comment,
  unterminated_quoted_string, unterminated_data,
}
use xcbuild.Plist.Unquote.{unquote, token_text, copy_data}
use xcbuild.Plist.Parser.{
  Parser, new, ParseState, plist, key_separator, entry_separator, Next, going, failed, finished,
  overrun, read_plist, read_state, read_key_separator, read_entry_separator, at_end, push, step,
  Answer, parsed, rejected, overran, out_of_fuel, answer, parse_from, parse, has_state,
}
use xcbuild.Plist.Parser.Standing.{
  Standing, keys, fresh, inside, complete, parser_of, is_of_text, IsGood, IsOpen, either,
  begin_array-IsGood, begin_dictionary-IsGood, read_string-IsGood, read_bytes-IsGood, leave-IsGood,
  close_root-IsGood,
}
use xcbuild.Plist.Parser.Termination.{parse-out_of_fuel}

read_plist-IsGood :
    (t : Token) (s digits : Bytes) (p : Standing)
    → IsOpen p
    → IsGood (read_plist t s digits (parser_of p))
unfolding read_plist
read_plist-IsGood dictionary_start s digits p d = begin_dictionary-IsGood p d
read_plist-IsGood array_start s digits p d = begin_array-IsGood p d
read_plist-IsGood dictionary_end s digits p d = leave-IsGood false p
read_plist-IsGood array_end s digits p d = leave-IsGood true p
read_plist-IsGood unquoted_string s digits p d = read_string-IsGood s p d
read_plist-IsGood quoted_string s digits p d = read_string-IsGood s p d
read_plist-IsGood plist_data s digits p d = read_bytes-IsGood digits p d
read_plist-IsGood _ s digits p d = refl

read_state-IsGood :
    (state : ParseState) (t : Token) (s digits : Bytes) (p : Standing)
    → IsGood (read_state state t s digits (parser_of p))
unfolding read_state read_key_separator read_entry_separator
read_state-IsGood plist t s digits fresh = read_plist-IsGood t s digits fresh refl
read_state-IsGood plist t s digits (inside o os) = read_plist-IsGood t s digits (inside o os) refl
read_state-IsGood plist t s digits (complete o) = refl
read_state-IsGood key_separator dictionary_key_val_separator s digits p = (p, refl)
read_state-IsGood key_separator _ s digits p = refl
read_state-IsGood entry_separator semicolon s digits p =
    either (has_state true (parser_of p).state) _ _ refl (p, refl)
read_state-IsGood entry_separator comma s digits p =
    either (has_state false (parser_of p).state) _ _ refl (p, refl)
read_state-IsGood entry_separator array_end s digits p =
    either (has_state false (parser_of p).state) _ _ refl (leave-IsGood true p)
read_state-IsGood entry_separator _ s digits p = refl

at_end-IsGood :
    (strings : Bool) (state : ParseState) (p : Standing)
    → IsGood (at_end strings state (parser_of p))
unfolding at_end
at_end-IsGood strings plist (complete o) = (o, refl)
at_end-IsGood strings key_separator (complete o) = (o, refl)
at_end-IsGood strings entry_separator (complete o) = (o, refl)
at_end-IsGood true plist fresh = close_root-IsGood fresh
at_end-IsGood true plist (inside o os) = close_root-IsGood (inside o os)
at_end-IsGood false plist fresh = refl
at_end-IsGood false plist (inside o os) = refl
at_end-IsGood strings key_separator fresh = refl
at_end-IsGood strings key_separator (inside o os) = refl
at_end-IsGood strings entry_separator fresh = refl
at_end-IsGood strings entry_separator (inside o os) = refl

step-IsGood :
    (strings : Bool) (buffer : Bytes) (t : Token) (l : Lexer) (state : ParseState) (p : Standing)
    → IsGood (step strings buffer t l state (parser_of p))
unfolding step
step-IsGood strings buffer end_of_file l state p = at_end-IsGood strings state p
step-IsGood strings buffer invalid_token l state p = refl
step-IsGood strings buffer unterminated_long_comment l state p = refl
step-IsGood strings buffer unterminated_quoted_string l state p = refl
step-IsGood strings buffer unterminated_data l state p = refl
step-IsGood strings buffer inline_comment l state p = (p, refl)
step-IsGood strings buffer long_comment l state p = (p, refl)
step-IsGood strings buffer t l state p =
    read_state-IsGood state t (until_nul (unquote (token_text buffer l)))
      (copy_data (token_text buffer l)) p

-- The answer has a root and nothing open, or tells an error of the text.
abbrev pub IsSound : Answer → Type 0
IsSound (parsed p) = (o : Object) × (p ≡ record new { root = some o; done = true })
IsSound (rejected e line) = is_of_text e ≡ true
IsSound overran = Unit
IsSound out_of_fuel = ⊥

answer-IsSound :
    (more : ParseState → Parser → Answer) (line : ℕ) (n : Next)
    → ((state : ParseState) (p : Standing)
        → more state (parser_of p) ≢ out_of_fuel
        → IsSound (more state (parser_of p)))
    → IsGood n
    → answer more line n ≢ out_of_fuel
    → IsSound (answer more line n)
answer-IsSound more line (going state p) h (s, e) f =
    subst (λ q. IsSound (more state q)) (sym e)
      (h state s (subst (λ q. more state q ≢ out_of_fuel) e f))
answer-IsSound more line (failed e) h g f = g
answer-IsSound more line (finished p) h g f = g
answer-IsSound more line overrun h g f = tt

parse_from-IsSound :
    (fuel : ℕ) (strings : Bool) (buffer : Bytes) (l : Lexer) (state : ParseState) (p : Standing)
    → parse_from fuel strings buffer l state (parser_of p) ≢ out_of_fuel
    → IsSound (parse_from fuel strings buffer l state (parser_of p))
unfolding parse_from
parse_from-IsSound zero strings buffer l state p f = absurd (f refl)
parse_from-IsSound (suc fuel) strings buffer l state p f = elim (Option-cases (read_token l)) [
  | inl n ↦ rw (parse_from, n) tt
  | inr ((t, l'), r) ↦
      let n = step strings buffer t l' state (parser_of p) in
      let e : parse_from (suc fuel) strings buffer l state (parser_of p)
          ≡ answer (parse_from fuel strings buffer l') l'.line n =
        rw (parse_from, r) refl in
      subst IsSound (sym e) (
        answer-IsSound (parse_from fuel strings buffer l') l'.line n
          (λ state' q g. parse_from-IsSound fuel strings buffer l' state' q g)
          (step-IsGood strings buffer t l' state p) (λ z. f (e ∙ z)))
]

-- Whatever the text, the parser ends. Where it reads or writes past the end of an array (overran)
-- nothing more is told. Where it succeeds it has a root, it is done, and none of its
-- containers is open. Where it fails the error is one of the text: none of those that tell of a lost
-- container, of a second root, of an empty stack or of a key in a wrong state.
pub parse-IsSound : (strings : Bool) (buffer : Bytes) → IsSound (parse strings buffer)
unfolding parse push
parse-IsSound true buffer =
    parse_from-IsSound (2 * length buffer + 2) true buffer (init buffer ascii) plist
      (inside (keys end) []) (parse-out_of_fuel true buffer)
parse-IsSound false buffer =
    parse_from-IsSound (2 * length buffer + 2) false buffer (init buffer ascii) plist fresh
      (parse-out_of_fuel false buffer)
