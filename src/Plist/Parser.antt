-- ===== src/Plist/Parser.antt =====
-- Libraries/plist/Sources/Format/ASCIIParser.cpp: a stack machine over the tokens. A method that
-- returns false, with its call of `abort`, is `refused`. The three stacks grow and shrink together
-- and are one here. Nothing is parsed after an abort, so that `isAborted` is always false.
pub mod Termination
pub mod Standing
pub mod Soundness
pub mod Leads
pub mod Spots
pub mod Readable
pub mod Scalars
pub mod Arrays
pub mod Dictionaries
pub mod RoundTrip
use xcbuild.Prelude.{
  ℕ, zero, suc, ◌+◌, ◌-◌, ◌*◌, ◌/◌, ◌%◌, Bool, true, false, not, ◌||◌, ◌&&◌, Option, none, some,
  List, [], ◌∷◌, ◌++◌, ◌==◌, leb, length, if◌then◌else◌,
}
use xcbuild.Prelude.Text.{Bytes, until_nul}
use xcbuild.Plist.Object.{
  Object, Objects, Entries, string, contents, array, dictionary, nil, end, append, set,
}
use xcbuild.Plist.Lexer.{
  Token, Lexer, ascii, init, read_token, inline_comment, long_comment, unquoted_string,
  quoted_string, number_integer, number_real, bool_false, bool_true, dictionary_start,
  dictionary_key_val_separator, dictionary_end, array_start, array_end, plist_data, comma,
  semicolon, invalid_token, end_of_file, unterminated_long_comment, unterminated_quoted_string,
  unterminated_data,
}
use xcbuild.Plist.Unquote.{unquote, token_text, copy_data}

-- `ValueState`
pub data ValueState : Type 0 where
  start : ValueState
  in_dictionary : ValueState
  in_entry : ValueState
  in_array : ValueState

-- What `push` saves.
pub record Frame : Type 0 where
  pub state : ValueState
  pub container : Option Object
  pub key : Option Bytes

-- `ASCIIParser`; `done` is `isDone`.
pub record Parser : Type 0 where
  pub root : Option Object
  pub level : ℕ
  pub state : ValueState
  pub container : Option Object
  pub key : Option Bytes
  pub frames : List Frame
  pub done : Bool

abbrev pub new : Parser
new = record {
  root = none;
  level = 0;
  state = start;
  container = none;
  key = none;
  frames = [];
  done = false;
}

-- The calls of `abort`, by what they say.
pub data Error : Type 0 where
  no_container : Error
  double_root : Error
  no_dictionary_container : Error
  no_array_container : Error
  wrong_state : Error
  not_opened : Error
  wrong_kind : Error
  underflow : Error
  key_in_wrong_state : Error
  premature_end : Error
  bad_token : Error
  unterminated_comment : Error
  unterminated_string : Error
  unterminated_bytes : Error
  token_when_finished : Error
  bytes_as_key : Error
  unexpected_token : Error
  expected_key_separator : Error
  expected_separator : Error
  expected_semicolon : Error
  expected_comma : Error
  -- Those of JSONParser.cpp alone.
  unrecognized_failure : Error
  boolean_as_key : Error
  null_as_key : Error
  integer_as_key : Error
  real_as_key : Error
  bad_integer : Error
  bad_real : Error
  unknown_token : Error

pub data Result : Type 0 where
  ok : Parser → Result
  refused : Error → Result

infixl 5 ◌>>=◌
abbrev pub ◌>>=◌ : Result → (Parser → Result) → Result
ok p >>= f = f p
refused e >>= f = refused e

-- `push`, for a container and no key.
unfoldable pub push : ValueState → Object → Parser → Parser
push state container p =
    let frame : Frame = record { state = p.state; container = p.container; key = p.key } in
    record p {
      state = state;
      container = some container;
      key = none;
      frames = elim p.state [ start ↦ p.frames | _ ↦ frame ∷ p.frames ];
    }

-- With an empty stack the current state is reset, once.
unfoldable pub pop : Parser → Result
pop p = elim p.frames [
  | [] ↦ elim p.state [
    | start ↦ refused underflow
    | _ ↦ ok (record p { container = none; key = none; state = start })
  ]
  | f ∷ frames ↦
      ok (record p { state = f.state; container = f.container; key = f.key; frames = frames })
]

abbrev pub begin_array : Parser → Parser
begin_array p = push in_array (array nil) p

abbrev pub begin_dictionary : Parser → Parser
begin_dictionary p = push in_dictionary (dictionary end) p

-- `storeKeyValue` where there is no container.
unfoldable pub store_root : Option Bytes → Object → Parser → Result
store_root key value p = elim p.key [
  | some k ↦ refused no_container
  | none ↦ elim p.root [ some o ↦ refused double_root | none ↦ ok (record p { root = some value }) ]
]

unfoldable pub store_entry : Bytes → Object → Object → Parser → Result
unfolding set
store_entry key value (dictionary entries) p =
    ok (record p { container = some (dictionary (set key value entries)); state = in_dictionary })
store_entry key value _ p = refused no_dictionary_container

unfoldable pub store_item : Object → Object → Parser → Result
unfolding append
store_item value (array xs) p =
    ok (record p { container = some (array (append xs value)); state = in_array })
store_item value _ p = refused no_array_container

-- `storeKeyValue`
unfoldable pub store_key_value : Option Bytes → Object → Parser → Result
unfolding store_root store_entry store_item
store_key_value key value p = elim p.container [
  | none ↦ store_root key value p
  | some c ↦ elim key [ some k ↦ store_entry k value c p | none ↦ store_item value c p ]
]

-- Whether the state, or the container, is that of an array, or of a dictionary.
unfoldable pub has_state : Bool → ValueState → Bool
has_state true in_array = true
has_state false in_dictionary = true
has_state _ _ = false

unfoldable pub has_kind : Bool → Object → Bool
has_kind true (array xs) = true
has_kind false (dictionary entries) = true
has_kind _ _ = false

-- `endContainer`
unfoldable pub end_container : Bool → Parser → Result
unfolding has_state has_kind pop store_key_value
end_container is_array p =
    let closed : Result = elim p.container [
      | none ↦ refused not_opened
      | some value ↦
          let popped : Result = pop (record p { container = none }) >>= λ q.
          store_key_value q.key value (record q { key = none }) in
          if has_kind is_array value then popped else refused wrong_kind
    ] in
    if has_state is_array p.state then closed else refused wrong_state

unfoldable pub store_key : Bytes → Parser → Result
store_key key p = elim p.state [
  | in_dictionary ↦ ok (record p { key = some key; state = in_entry })
  | _ ↦ refused key_in_wrong_state
]

-- `storeValue`: the key is moved out before, and is none behind.
unfoldable pub store_value : Object → Parser → Result
unfolding store_key_value
store_value value p = store_key_value p.key value (record p { key = none }) >>= λ q.
    ok (record q { key = none; state = elim q.state [ in_entry ↦ in_dictionary | s ↦ s ] })

abbrev pub is_dictionary : Parser → Bool
is_dictionary p = has_state false p.state

abbrev pub is_array : Parser → Bool
is_array p = has_state true p.state

-- `ASCIIParseState`
pub data ParseState : Type 0 where
  plist : ParseState
  key_separator : ParseState
  entry_separator : ParseState

-- What a token leads to: to go on, or to return; `overrun` is a write past the end of an array.
pub data Next : Type 0 where
  going : ParseState → Parser → Next
  failed : Error → Next
  finished : Parser → Next
  overrun : Next

abbrev pub next : Result → (Parser → Next) → Next
next (ok p) f = f p
next (refused e) f = failed e

abbrev pub finish : Parser → Parser
finish p = record p { done = true }

-- Behind a container or a value.
unfoldable pub settle : Bool → ParseState → Parser → Next
settle top inner p = if top then going plist (finish p) else going inner p

-- `endArray` or `endDictionary`, and `decrementLevel`.
unfoldable pub leave : Bool → Parser → Next
unfolding end_container settle
leave is_array p = next (end_container is_array p) (λ q.
    let level = q.level - 1 in settle (level == 0) entry_separator (record q { level = level }))

-- The bytes of the digits, two by two; an odd number of them is written past the end.
abbrev pub digit_value : ℕ → ℕ
digit_value c =
    if leb b'a' c && leb c b'f'
    then c - b'a' + 10
    else if leb b'A' c && leb c b'F'
    then c - b'A' + 10
    else if leb b'0' c && leb c b'9'
    then c - b'0'
    else 0

unfoldable pub bytes_of_digits : Bytes → Option Bytes
bytes_of_digits [] = some []
bytes_of_digits (c ∷ []) = none
bytes_of_digits (c ∷ d ∷ s) = elim (bytes_of_digits s) [
  | none ↦ none
  | some bytes ↦ some ((digit_value c * 16 + digit_value d) ∷ bytes)
]

unfoldable pub read_string : Bytes → Parser → Next
unfolding store_key store_value settle has_state
read_string s p =
    if is_dictionary p
    then next (store_key s p) (λ q. settle (p.level == 0) key_separator q)
    else next (store_value (string s) p) (λ q. settle (p.level == 0) entry_separator q)

unfoldable pub read_bytes : Bytes → Parser → Next
unfolding bytes_of_digits store_value settle has_state
read_bytes digits p =
    let stored : Next = elim (bytes_of_digits digits) [
      | none ↦ overrun
      | some bytes ↦
          next (store_value (contents bytes) p) (λ q. settle (p.level == 0) entry_separator q)
    ] in
    if is_dictionary p then failed bytes_as_key else stored

-- The end of a strings file closes its dictionary.
unfoldable pub close_root : Parser → Next
unfolding end_container
close_root p = next (end_container false p) (λ q.
    let level = q.level - 1 in
    if level == 0 then finished (finish (record q { level = level })) else failed premature_end)

-- The end of the text.
unfoldable pub at_end : Bool → ParseState → Parser → Next
unfolding close_root
at_end strings plist p =
    if p.done then finished p else if strings then close_root p else failed premature_end
at_end strings _ p = if p.done then finished p else failed premature_end

-- `kASCIIParsePList`, of a text with its escapes read.
unfoldable pub read_plist : Token → Bytes → Bytes → Parser → Next
unfolding leave read_string read_bytes push
read_plist dictionary_start s digits p =
    going plist (record (begin_dictionary p) { level = suc p.level })
read_plist array_start s digits p = going plist (record (begin_array p) { level = suc p.level })
read_plist dictionary_end s digits p = leave false p
read_plist array_end s digits p = leave true p
read_plist unquoted_string s digits p = read_string s p
read_plist quoted_string s digits p = read_string s p
read_plist plist_data s digits p = read_bytes digits p
read_plist _ s digits p = failed unexpected_token

unfoldable pub read_key_separator : Token → Parser → Next
read_key_separator dictionary_key_val_separator p = going plist p
read_key_separator _ p = failed expected_key_separator

-- `kASCIIParseEntrySeparator`: arrays do not require a last separator.
unfoldable pub read_entry_separator : Token → Parser → Next
unfolding leave has_state
read_entry_separator semicolon p = if is_array p then failed expected_comma else going plist p
read_entry_separator comma p = if is_dictionary p then failed expected_semicolon else going plist p
read_entry_separator array_end p =
    if is_dictionary p then failed expected_semicolon else leave true p
read_entry_separator _ p = failed expected_separator

-- The `switch` on the state.
unfoldable pub read_state : ParseState → Token → Bytes → Bytes → Parser → Next
unfolding read_plist read_key_separator read_entry_separator
read_state plist t s digits p =
    if p.done then failed token_when_finished else read_plist t s digits p
read_state key_separator t s digits p = read_key_separator t p
read_state entry_separator t s digits p = read_entry_separator t p

-- A round of the loop of `parse`, at a token that starts and ends in the buffer as the lexer says.
unfoldable pub step : Bool → Bytes → Token → Lexer → ParseState → Parser → Next
unfolding at_end read_state unquote copy_data until_nul
step strings buffer end_of_file l state p = at_end strings state p
step strings buffer invalid_token l state p = failed bad_token
step strings buffer unterminated_long_comment l state p = failed unterminated_comment
step strings buffer unterminated_quoted_string l state p = failed unterminated_string
step strings buffer unterminated_data l state p = failed unterminated_bytes
step strings buffer inline_comment l state p = going state p
step strings buffer long_comment l state p = going state p
step strings buffer t l state p =
    let text = token_text buffer l in
    read_state state t (until_nul (unquote text)) (copy_data text) p

-- What `parse` returns, with the line of an error.
pub data Answer : Type 0 where
  parsed : Parser → Answer
  rejected : Error → ℕ → Answer
  overran : Answer
  out_of_fuel : Answer

-- The end of a round, with the rounds that follow.
abbrev pub answer : (ParseState → Parser → Answer) → ℕ → Next → Answer
answer more line (going state p) = more state p
answer more line (failed e) = rejected e line
answer more line (finished p) = parsed p
answer more line overrun = overran

-- The loop of `parse`.
unfoldable pub parse_from : ℕ → Bool → Bytes → Lexer → ParseState → Parser → Answer
unfolding read_token step
parse_from zero strings buffer l state p = out_of_fuel
parse_from (suc fuel) strings buffer l state p = elim (read_token l) [
  | none ↦ overran
  | some (t, l') ↦
      answer (parse_from fuel strings buffer l') l'.line (step strings buffer t l' state p)
]

-- `parse` on a new parser: each round takes a byte, or ends the rounds at the one that it does not.
unfoldable pub parse : Bool → Bytes → Answer
unfolding parse_from push
parse strings buffer =
    let opened : Parser = if strings then record (begin_dictionary new) { level = 1 } else new in
    parse_from (2 * length buffer + 2) strings buffer (init buffer ascii) plist opened
