-- ===== src/Plist/Parser/Spots.antt =====
-- Where ASCIIParser.cpp takes a value, and what it does with it.
use xcbuild.Plist.Parser.{read_entry_separator}
use xcbuild.Prelude.{
  ◌≢◌, ℕ, suc, Bool, true, false, ◌≡◌, refl, ap, sym, subst, ◌∙◌, Option, none, some, List, [], ◌∷◌,
  arith, inl, inr,
}
use xcbuild.Prelude.Text.{Bytes, until_nul}
use xcbuild.Plist.Object.{
  Object, Objects, Entries, string, contents, array, dictionary, nil, end, append, set,
}
use xcbuild.Plist.Lexer.{
  Token, Lexer, unquoted_string, quoted_string, dictionary_start, dictionary_key_val_separator,
  dictionary_end, array_start, array_end, plist_data, comma, semicolon,
}
use xcbuild.Plist.Unquote.{unquote, token_text, copy_data}
use xcbuild.Plist.Writer.Tokens.{IsString}
use xcbuild.Plist.Parser.{
  Frame, Parser, new, in_dictionary, in_entry, in_array, ParseState, plist, key_separator,
  entry_separator, going, bytes_of_digits, read_string, read_bytes, leave, read_plist, read_state,
  step,
}

-- In an array, behind a key of a dictionary, or at the top.
pub data Spot : Type 0 where
  item : List Frame → Objects → ℕ → Option Object → Spot
  value : List Frame → Entries → Bytes → ℕ → Option Object → Spot
  top : Spot

abbrev pub at_keys : List Frame → Entries → ℕ → Option Object → Parser
at_keys frames entries level root = record {
  root = root;
  level = suc level;
  state = in_dictionary;
  container = some (dictionary entries);
  key = none;
  frames = frames;
  done = false;
}

abbrev pub parser_at : Spot → Parser
parser_at (item frames xs level root) = record {
  root = root;
  level = suc level;
  state = in_array;
  container = some (array xs);
  key = none;
  frames = frames;
  done = false;
}
parser_at (value frames entries key level root) = record (at_keys frames entries level root) {
  state = in_entry;
  key = some key;
}
parser_at top = new

-- What a value leads to.
abbrev pub state_behind : Spot → ParseState
state_behind top = plist
state_behind _ = entry_separator

abbrev pub parser_behind : Spot → Object → Parser
parser_behind (item frames xs level root) o = parser_at (item frames (append xs o) level root)
parser_behind (value frames entries key level root) o =
    at_keys frames (set key o entries) level root
parser_behind top o = record new { root = some o; done = true }

-- The frames within a container.
abbrev pub inner_frames : Spot → List Frame
inner_frames (item frames xs level root) =
    record { state = in_array; container = some (array xs); key = none } ∷ frames
inner_frames (value frames entries key level root) =
    record { state = in_entry; container = some (dictionary entries); key = some key } ∷ frames
inner_frames top = []

abbrev pub level_at : Spot → ℕ
level_at spot = (parser_at spot).level

abbrev pub root_at : Spot → Option Object
root_at spot = (parser_at spot).root

abbrev pub item_in : Spot → Objects → Spot
item_in spot xs = item (inner_frames spot) xs (level_at spot) (root_at spot)

abbrev pub keys_in : Spot → Entries → Parser
keys_in spot entries = at_keys (inner_frames spot) entries (level_at spot) (root_at spot)

read_string-value :
    (s : Bytes) (spot : Spot)
    → read_string s (parser_at spot) ≡ going (state_behind spot) (parser_behind spot (string s))
unfolding read_string
read_string-value s (item frames xs level root) = ground arith
read_string-value s (value frames entries key level root) = ground arith
read_string-value s top = refl

read_string-key :
    (s : Bytes) (frames : List Frame) (entries : Entries) (level : ℕ) (root : Option Object)
    → read_string s (at_keys frames entries level root)
      ≡ going key_separator (parser_at (value frames entries s level root))
unfolding read_string
read_string-key s frames entries level root = ground arith

read_bytes-value :
    (digits s : Bytes) (spot : Spot)
    → bytes_of_digits digits ≡ some s
    → read_bytes digits (parser_at spot)
      ≡ going (state_behind spot) (parser_behind spot (contents s))
unfolding read_bytes
read_bytes-value digits s (item frames xs level root) h = rw (read_bytes, h) (ground arith)
read_bytes-value digits s (value frames entries key level root) h =
    rw (read_bytes, h) (ground arith)
read_bytes-value digits s top h = rw (read_bytes, h) refl

leave-array :
    (spot : Spot) (xs : Objects)
    → leave true (parser_at (item_in spot xs))
      ≡ going (state_behind spot) (parser_behind spot (array xs))
unfolding leave
leave-array (item frames ys level root) xs = ground arith
leave-array (value frames entries key level root) xs = ground arith
leave-array top xs = refl

leave-dictionary :
    (spot : Spot) (entries : Entries)
    → leave false (keys_in spot entries)
      ≡ going (state_behind spot) (parser_behind spot (dictionary entries))
unfolding leave
leave-dictionary (item frames ys level root) entries = ground arith
leave-dictionary (value frames ys key level root) entries = ground arith
leave-dictionary top entries = refl

read_plist-step :
    (t : Token) (p : Parser) (s digits : Bytes)
    → p.done ≡ false
    → read_state plist t s digits p ≡ read_plist t s digits p
unfolding read_state
read_plist-step t p s digits d = rw d refl

done_at : (spot : Spot) → (parser_at spot).done ≡ false
done_at (item frames xs level root) = refl
done_at (value frames entries key level root) = refl
done_at top = refl

-- The rounds at a spot, by their tokens.
module _ (strings : Bool) (buffer : Bytes) (l : Lexer) where
  step_string :
      (t : Token) (p : Parser) (s : Bytes)
      → IsString t
      → p.done ≡ false
      → unquote (token_text buffer l) ≡ s
      → until_nul s ≡ s
      → step strings buffer t l plist p ≡ read_string s p
  unfolding step read_plist
  step_string t p s (inl e) d q n =
      subst (λ t. step strings buffer t l plist p ≡ read_string s p) (sym e)
        (read_plist-step unquoted_string p (until_nul (unquote (token_text buffer l)))
            (copy_data (token_text buffer l)) d
          ∙ ap (λ x. read_string x p) (ap until_nul q ∙ n))
  step_string t p s (inr e) d q n =
      subst (λ t. step strings buffer t l plist p ≡ read_string s p) (sym e)
        (read_plist-step quoted_string p (until_nul (unquote (token_text buffer l)))
            (copy_data (token_text buffer l)) d
          ∙ ap (λ x. read_string x p) (ap until_nul q ∙ n))

  pub step-value :
      (t : Token) (spot : Spot) (s : Bytes)
      → IsString t
      → unquote (token_text buffer l) ≡ s
      → until_nul s ≡ s
      → step strings buffer t l plist (parser_at spot)
        ≡ going (state_behind spot) (parser_behind spot (string s))
  step-value t spot s k q n =
      step_string t (parser_at spot) s k (done_at spot) q n ∙ read_string-value s spot

  pub step-key :
      (t : Token) (frames : List Frame) (entries : Entries) (level : ℕ) (root : Option Object)
      (s : Bytes)
      → IsString t
      → unquote (token_text buffer l) ≡ s
      → until_nul s ≡ s
      → step strings buffer t l plist (at_keys frames entries level root)
        ≡ going key_separator (parser_at (value frames entries s level root))
  step-key t frames entries level root s k q n =
      step_string t (at_keys frames entries level root) s k refl q n
      ∙ read_string-key s frames entries level root

  pub step-contents :
      (spot : Spot) (s : Bytes)
      → bytes_of_digits (copy_data (token_text buffer l)) ≡ some s
      → step strings buffer plist_data l plist (parser_at spot)
        ≡ going (state_behind spot) (parser_behind spot (contents s))
  unfolding step read_plist
  step-contents spot s h =
      read_plist-step plist_data (parser_at spot) (until_nul (unquote (token_text buffer l)))
        (copy_data (token_text buffer l)) (done_at spot)
      ∙ read_bytes-value (copy_data (token_text buffer l)) s spot h

  pub step-array_start :
      (spot : Spot)
      → step strings buffer array_start l plist (parser_at spot)
        ≡ going plist (parser_at (item_in spot nil))
  unfolding step read_state read_plist
  step-array_start (item frames xs level root) = refl
  step-array_start (value frames entries key level root) = refl
  step-array_start top = refl

  pub step-dictionary_start :
      (spot : Spot)
      → step strings buffer dictionary_start l plist (parser_at spot)
        ≡ going plist (keys_in spot end)
  unfolding step read_state read_plist
  step-dictionary_start (item frames xs level root) = refl
  step-dictionary_start (value frames entries key level root) = refl
  step-dictionary_start top = refl

  pub step-array_end :
      (state : ParseState) (spot : Spot) (xs : Objects)
      → state ≢ key_separator
      → step strings buffer array_end l state (parser_at (item_in spot xs))
        ≡ going (state_behind spot) (parser_behind spot (array xs))
  unfolding step read_state read_plist read_entry_separator
  step-array_end plist spot xs n = leave-array spot xs
  step-array_end entry_separator spot xs n = leave-array spot xs
  step-array_end key_separator spot xs n = absurd (n refl)

  pub step-dictionary_end :
      (spot : Spot) (entries : Entries)
      → step strings buffer dictionary_end l plist (keys_in spot entries)
        ≡ going (state_behind spot) (parser_behind spot (dictionary entries))
  unfolding step read_state read_plist
  step-dictionary_end spot entries = leave-dictionary spot entries

  pub step-separator :
      (p : Parser)
      → step strings buffer dictionary_key_val_separator l key_separator p ≡ going plist p
  unfolding step read_state
  step-separator p = refl

  pub step-comma :
      (frames : List Frame) (xs : Objects) (level : ℕ) (root : Option Object)
      → step strings buffer comma l entry_separator (parser_at (item frames xs level root))
        ≡ going plist (parser_at (item frames xs level root))
  unfolding step read_state read_entry_separator
  step-comma frames xs level root = refl

  pub step-semicolon :
      (frames : List Frame) (entries : Entries) (level : ℕ) (root : Option Object)
      → step strings buffer semicolon l entry_separator (at_keys frames entries level root)
        ≡ going plist (at_keys frames entries level root)
  unfolding step read_state read_entry_separator
  step-semicolon frames entries level root = refl
