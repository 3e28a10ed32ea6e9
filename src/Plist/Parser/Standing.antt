-- ===== src/Plist/Parser/Standing.antt =====
-- What a parser of ASCIIParser.cpp may be: new, in its containers, or done.
use xcbuild.Prelude.{
  ℕ, zero, suc, ◌==◌, Bool, true, false, ◌≡◌, refl, sym, subst, Option, none, some, List, [], ◌∷◌,
  arith, if◌then◌else◌,
}
use xcbuild.Prelude.Text.{Bytes}
use xcbuild.Plist.Object.{
  Object, Objects, Entries, string, contents, array, dictionary, nil, end, append, set,
}
use xcbuild.Plist.Parser.{
  Frame, Parser, new, in_dictionary, in_entry, in_array, Error, no_container, double_root,
  no_dictionary_container, not_opened, wrong_kind, underflow, key_in_wrong_state, ParseState, plist,
  key_separator, entry_separator, Next, going, failed, finished, overrun, bytes_of_digits,
  read_string, read_bytes, leave, close_root, push, next, settle, store_value, premature_end,
  begin_array, begin_dictionary,
}

-- A container, with the key whose value is awaited.
pub data Open : Type 0 where
  keys : Entries → Open
  value : Entries → Bytes → Open
  items : Objects → Open

abbrev frame_of : Open → Frame
frame_of (keys entries) = record {
  state = in_dictionary;
  container = some (dictionary entries);
  key = none;
}
frame_of (value entries key) = record {
  state = in_entry;
  container = some (dictionary entries);
  key = some key;
}
frame_of (items xs) = record { state = in_array; container = some (array xs); key = none }

abbrev frames_of : List Open → List Frame
frames_of [] = []
frames_of (o ∷ os) = frame_of o ∷ frames_of os

abbrev depth : List Open → ℕ
depth [] = zero
depth (o ∷ os) = suc (depth os)

pub data Standing : Type 0 where
  fresh : Standing
  inside : Open → List Open → Standing
  complete : Object → Standing

abbrev pub parser_of : Standing → Parser
parser_of fresh = new
parser_of (inside o os) =
    let f = frame_of o in
    record {
      root = none;
      level = suc (depth os);
      state = f.state;
      container = f.container;
      key = f.key;
      frames = frames_of os;
      done = false;
    }
parser_of (complete o) = record new { root = some o; done = true }

-- The errors that a text can cause; the others tell that the parser has lost track of its containers.
abbrev pub is_of_text : Error → Bool
is_of_text no_container = false
is_of_text double_root = false
is_of_text no_dictionary_container = false
is_of_text not_opened = false
is_of_text wrong_kind = false
is_of_text underflow = false
is_of_text key_in_wrong_state = false
is_of_text _ = true

abbrev pub IsGood : Next → Type 0
IsGood (going state p) = (s : Standing) × (p ≡ parser_of s)
IsGood (failed e) = is_of_text e ≡ true
IsGood (finished p) = (o : Object) × (p ≡ parser_of (complete o))
IsGood overrun = Unit

-- One of two, by a test.
pub either : (b : Bool) (m n : Next) → IsGood m → IsGood n → IsGood (if b then m else n)
either true m n h k = h
either false m n h k = k

stands : (n : Next) (state : ParseState) (s : Standing) → n ≡ going state (parser_of s) → IsGood n
stands n state s e = subst IsGood (sym e) (s, refl)

abbrev pub IsOpen : Standing → Type 0
IsOpen s = (parser_of s).done ≡ false

premature : (n : Next) → n ≡ failed premature_end → IsGood n
premature n e = subst IsGood (sym e) refl

pub begin_array-IsGood :
    (s : Standing)
    → IsOpen s
    → IsGood (going plist (record (begin_array (parser_of s)) { level = suc (parser_of s).level }))
unfolding push
begin_array-IsGood fresh d = (inside (items nil) [], refl)
begin_array-IsGood (inside (keys entries) os) d = (inside (items nil) (keys entries ∷ os), refl)
begin_array-IsGood (inside (value entries key) os) d =
    (inside (items nil) (value entries key ∷ os), refl)
begin_array-IsGood (inside (items xs) os) d = (inside (items nil) (items xs ∷ os), refl)
begin_array-IsGood (complete o) d = absurd (cc d)

pub begin_dictionary-IsGood :
    (s : Standing)
    → IsOpen s
    → IsGood
        (going plist (record (begin_dictionary (parser_of s)) { level = suc (parser_of s).level }))
unfolding push
begin_dictionary-IsGood fresh d = (inside (keys end) [], refl)
begin_dictionary-IsGood (inside (keys entries) os) d = (inside (keys end) (keys entries ∷ os), refl)
begin_dictionary-IsGood (inside (value entries key) os) d =
    (inside (keys end) (value entries key ∷ os), refl)
begin_dictionary-IsGood (inside (items xs) os) d = (inside (keys end) (items xs ∷ os), refl)
begin_dictionary-IsGood (complete o) d = absurd (cc d)

-- A value, and what `parse` does behind it.
abbrev pub put : Object → Parser → Next
put o p = next (store_value o p) (λ q. settle (p.level == 0) entry_separator q)

pub put-IsGood : (o : Object) (s : Standing) → IsOpen s → IsGood (put o (parser_of s))
unfolding store_value settle
put-IsGood o fresh d = (complete o, refl)
put-IsGood o (inside (keys entries) os) d = refl
put-IsGood o (inside (value entries key) os) d =
    stands (put o (parser_of (inside (value entries key) os))) entry_separator
      (inside (keys (set key o entries)) os) (ground arith)
put-IsGood o (inside (items xs) os) d =
    stands (put o (parser_of (inside (items xs) os))) entry_separator
      (inside (items (append xs o)) os) (ground arith)
put-IsGood o (complete r) d = absurd (cc d)

pub read_string-IsGood :
    (s : Bytes) (p : Standing) → IsOpen p → IsGood (read_string s (parser_of p))
unfolding read_string
read_string-IsGood s fresh d = put-IsGood (string s) fresh d
read_string-IsGood s (inside (keys entries) os) d =
    stands (read_string s (parser_of (inside (keys entries) os))) key_separator
      (inside (value entries s) os) (ground arith)
read_string-IsGood s (inside (value entries key) os) d =
    put-IsGood (string s) (inside (value entries key) os) d
read_string-IsGood s (inside (items xs) os) d = put-IsGood (string s) (inside (items xs) os) d
read_string-IsGood s (complete o) d = absurd (cc d)

put_bytes :
    (r : Option Bytes) (p : Standing)
    → IsOpen p
    → IsGood (elim r [ none ↦ overrun | some bytes ↦ put (contents bytes) (parser_of p) ])
put_bytes none p d = tt
put_bytes (some bytes) p d = put-IsGood (contents bytes) p d

pub read_bytes-IsGood :
    (digits : Bytes) (p : Standing) → IsOpen p → IsGood (read_bytes digits (parser_of p))
unfolding read_bytes
read_bytes-IsGood digits (inside (keys entries) os) d = refl
read_bytes-IsGood digits fresh d = put_bytes (bytes_of_digits digits) fresh d
read_bytes-IsGood digits (inside (value entries key) os) d =
    put_bytes (bytes_of_digits digits) (inside (value entries key) os) d
read_bytes-IsGood digits (inside (items xs) os) d =
    put_bytes (bytes_of_digits digits) (inside (items xs) os) d
read_bytes-IsGood digits (complete o) d = absurd (cc d)

pub leave-IsGood : (b : Bool) (p : Standing) → IsGood (leave b (parser_of p))
unfolding leave
leave-IsGood true fresh = refl
leave-IsGood false fresh = refl
leave-IsGood true (complete o) = refl
leave-IsGood false (complete o) = refl
leave-IsGood true (inside (keys entries) os) = refl
leave-IsGood true (inside (value entries key) os) = refl
leave-IsGood false (inside (value entries key) os) = refl
leave-IsGood false (inside (items xs) os) = refl
leave-IsGood true (inside (items xs) []) = (complete (array xs), refl)
leave-IsGood false (inside (keys entries) []) = (complete (dictionary entries), refl)
leave-IsGood true (inside (items xs) (keys ys ∷ os)) = refl
leave-IsGood false (inside (keys entries) (keys ys ∷ os)) = refl
leave-IsGood true (inside (items xs) (value ys key ∷ os)) =
    stands (leave true (parser_of (inside (items xs) (value ys key ∷ os)))) entry_separator
      (inside (keys (set key (array xs) ys)) os) (ground arith)
leave-IsGood true (inside (items xs) (items ys ∷ os)) =
    stands (leave true (parser_of (inside (items xs) (items ys ∷ os)))) entry_separator
      (inside (items (append ys (array xs))) os) (ground arith)
leave-IsGood false (inside (keys xs) (value ys key ∷ os)) =
    stands (leave false (parser_of (inside (keys xs) (value ys key ∷ os)))) entry_separator
      (inside (keys (set key (dictionary xs) ys)) os) (ground arith)
leave-IsGood false (inside (keys xs) (items ys ∷ os)) =
    stands (leave false (parser_of (inside (keys xs) (items ys ∷ os)))) entry_separator
      (inside (items (append ys (dictionary xs))) os) (ground arith)

pub close_root-IsGood : (p : Standing) → IsGood (close_root (parser_of p))
unfolding close_root
close_root-IsGood fresh = refl
close_root-IsGood (complete o) = refl
close_root-IsGood (inside (value entries key) os) = refl
close_root-IsGood (inside (items xs) os) = refl
close_root-IsGood (inside (keys entries) []) = (dictionary entries, refl)
close_root-IsGood (inside (keys xs) (keys ys ∷ os)) = refl
close_root-IsGood (inside (keys xs) (value ys key ∷ os)) =
    premature (close_root (parser_of (inside (keys xs) (value ys key ∷ os)))) (ground arith)
close_root-IsGood (inside (keys xs) (items ys ∷ os)) =
    premature (close_root (parser_of (inside (keys xs) (items ys ∷ os)))) (ground arith)
