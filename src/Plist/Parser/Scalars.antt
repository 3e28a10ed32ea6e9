-- ===== src/Plist/Parser/Scalars.antt =====
-- What ASCIIWriter.cpp writes for a value that is no container, read by ASCIIParser.cpp.
use xcbuild.Prelude.{
  ℕ, zero, suc, Bool, true, false, not, ◌≡◌, refl, ap, sym, subst, ◌∙◌, Option, some, [], ◌∷◌, ◌++◌,
  append_assoc, arith, Every, Every-append, Bool-cases, inl, inr, if◌then◌else◌,
}
use xcbuild.Prelude.Text.{Bytes, until_nul}
use xcbuild.Plist.Object.{Object, string, contents}
use xcbuild.Plist.Lexer.{Token, Lexer, plist_data, is_unquoted, front, is_skipped}
use xcbuild.Plist.Unquote.{unquote, token_text, copy_data}
use xcbuild.Plist.Writer.{write_string, all_plain}
use xcbuild.Plist.Writer.Escaped.{write_string-plain, write_string-quoted, escaped}
use xcbuild.Plist.Writer.Tokens.{IsAt, Lexes, Lexes-read_token, Lexes-blank, Lexes-write_string}
use xcbuild.Plist.Serializer.{
  Writer, tabs, write, write_escaped, handle_scalar, handle_string, handle_contents, hex_text,
}
use xcbuild.Plist.Serializer.Digits.{AreBytes, Lexes-hex}
use xcbuild.Plist.Parser.{Parser, ParseState, plist, going, step, bytes_of_digits}
use xcbuild.Plist.Parser.Leads.{Place, Leads, none_more, round}
use xcbuild.Plist.Parser.Spots.{
  Spot, parser_at, state_behind, parser_behind, step-value, step-contents,
}
use xcbuild.Plist.Parser.Readable.{IsKept}

abbrev pub place : Lexer → ParseState → Parser → Place
place l state p = record { lexer = l; state = state; parser = p }

abbrev pub AreBlank : Bytes → Type 0
AreBlank s = Every (λ c. is_skipped c ≡ true) s

abbrev pub IsBehind : Bytes → Type 0
IsBehind rest = is_unquoted (front rest) ≡ false

-- What a value's text leads to, from any spot, whatever blanks stand before it.
abbrev pub ReadsValue : Bytes → Object → Type 0
ReadsValue t o =
    (strings : Bool) (buffer rest b : Bytes) (spot : Spot) (l : Lexer)
    → IsBehind rest
    → AreBlank b
    → IsAt buffer l (b ++ (t ++ rest))
    → (l' : Lexer) × IsAt buffer l' rest
      × Leads strings buffer (place l plist (parser_at spot))
          (place l' (state_behind spot) (parser_behind spot o))

abbrev pub writer : ℕ → Bool → Bytes → Writer
writer i last_key x = record { indent = i; last_key = last_key; text = x }

Lexes-blanks :
    (buffer b text rest : Bytes) (t : Token) (Q : Bytes → Type 0)
    → AreBlank b
    → Lexes buffer text rest t Q
    → Lexes buffer (b ++ text) rest t Q
Lexes-blanks buffer [] text rest t Q h x = x
Lexes-blanks buffer (c ∷ b) text rest t Q (k, h) x =
    Lexes-blank buffer c (b ++ text) rest t Q k (Lexes-blanks buffer b text rest t Q h x)

-- A round over blanks and one token.
pub one_round :
    (strings : Bool) (buffer b text rest : Bytes) (t : Token) (Q : Bytes → Type 0) (l : Lexer)
    (state state' : ParseState) (p p' : Parser)
    → AreBlank b
    → Lexes buffer text rest t Q
    → IsAt buffer l (b ++ (text ++ rest))
    → ((l' : Lexer) → Q (token_text buffer l') → step strings buffer t l' state p ≡ going state' p')
    → (l' : Lexer) × IsAt buffer l' rest
      × Leads strings buffer (place l state p) (place l' state' p')
one_round strings buffer b text rest t Q l state state' p p' h x v s =
    let at : IsAt buffer l ((b ++ text) ++ rest) =
      subst (IsAt buffer l) (sym (append_assoc b text rest)) v in
    let (l', r, w, q) =
      Lexes-read_token buffer (b ++ text) rest t Q l (Lexes-blanks buffer b text rest t Q h x) at in
    (l', w, round t l' state' p' r (s l' q) none_more)

pub AreBlank-tabs : (i : ℕ) → AreBlank (tabs i)
unfolding tabs
AreBlank-tabs zero = tt
AreBlank-tabs (suc i) = (refl, AreBlank-tabs i)

-- The margin before a value.
abbrev pub margin : Bool → ℕ → Bytes
margin last_key i = if not last_key then tabs i else []

pub AreBlank-margin : (last_key : Bool) (i : ℕ) → AreBlank (margin last_key i)
AreBlank-margin true i = tt
AreBlank-margin false i = AreBlank-tabs i

pub until_nul-kept : (s : Bytes) → IsKept s → until_nul s ≡ s
unfolding until_nul
until_nul-kept [] h = refl
until_nul-kept (c ∷ s) (k, h) = ground (arith, until_nul-kept s h)

-- Blanks before a text, moved to those before it.
pub behind_margin :
    (buffer b m t rest : Bytes) (l : Lexer)
    → IsAt buffer l (b ++ ((m ++ t) ++ rest))
    → IsAt buffer l ((b ++ m) ++ (t ++ rest))
behind_margin buffer b m t rest l v =
    subst (IsAt buffer l)
      (ap (λ s. b ++ s) (append_assoc m t rest) ∙ sym (append_assoc b m (t ++ rest))) v

-- A string of any kept text is written.
pub write_string-some : (s : Bytes) → IsKept s → (t : Bytes) × (write_string s ≡ some t)
write_string-some [] h = (b'"' ∷ b'"' ∷ [], unfold write_string in refl)
write_string-some (c ∷ s) h = elim (Bool-cases (all_plain (c ∷ s))) [
  | inl p ↦ (c ∷ s, write_string-plain c s p)
  | inr p ↦ (b'"' ∷ (escaped (c ∷ s) ++ b'"' ∷ []), write_string-quoted c s h p)
]

pub ReadsValue-string :
    (m s t : Bytes)
    → AreBlank m
    → IsKept s
    → write_string s ≡ some t
    → ReadsValue (m ++ t) (string s)
ReadsValue-string m s t bm k h strings buffer rest b spot l f bb v =
    let (token, is, x) = Lexes-write_string buffer s t rest k f h in
    one_round strings buffer (b ++ m) t rest token (λ y. unquote y ≡ s) l plist (state_behind spot)
      (parser_at spot) (parser_behind spot (string s))
      (Every-append (λ c. is_skipped c ≡ true) b m bb bm) x (behind_margin buffer b m t rest l v)
      (λ l' q. step-value strings buffer l' token spot s is q (until_nul-kept s k))

pub ReadsValue-contents :
    (m s : Bytes)
    → AreBlank m
    → AreBytes s
    → ReadsValue (m ++ b'<' ∷ (hex_text s ++ b'>' ∷ [])) (contents s)
ReadsValue-contents m s bm k strings buffer rest b spot l f bb v =
    let t = b'<' ∷ (hex_text s ++ b'>' ∷ []) in
    one_round strings buffer (b ++ m) t rest plist_data
      (λ y. bytes_of_digits (copy_data y) ≡ some s) l plist (state_behind spot) (parser_at spot)
      (parser_behind spot (contents s)) (Every-append (λ c. is_skipped c ≡ true) b m bb bm)
      (Lexes-hex buffer s rest k) (behind_margin buffer b m t rest l v)
      (λ l' q. step-contents strings buffer l' spot s q)

-- A value is written, and read.
abbrev pub Prints : (Writer → Option Writer) → Object → Type 0
Prints action o =
    (i : ℕ) (last_key : Bool) (x : Bytes)
    → (t : Bytes) × (action (writer i last_key x) ≡ some (writer i false (x ++ t))) × ReadsValue t o

pub Prints-string : (s : Bytes) → IsKept s → Prints (handle_string s) (string s)
unfolding handle_string
Prints-string s k i last_key x =
    let (t, e) = write_string-some s k in
    let m = margin last_key i in
    (m ++ t, rw (write_escaped, e) refl, ReadsValue-string m s t (AreBlank-margin last_key i) k e)

pub Prints-contents : (s : Bytes) → AreBytes s → Prints (handle_contents s) (contents s)
unfolding handle_contents write
Prints-contents s k i last_key x =
    let m = margin last_key i in
    (
      m ++ b'<' ∷ (hex_text s ++ b'>' ∷ []),
      ap (λ y. some (writer i false y)) (simp append_assoc),
      ReadsValue-contents m s (AreBlank-margin last_key i) k,
    )

-- A plain text, written without quotes.
pub Prints-scalar :
    (c : ℕ) (s : Bytes)
    → all_plain (c ∷ s) ≡ true
    → IsKept (c ∷ s)
    → Prints (handle_scalar (c ∷ s)) (string (c ∷ s))
unfolding handle_scalar write
Prints-scalar c s p k i last_key x =
    let m = margin last_key i in
    (
      m ++ c ∷ s,
      refl,
      ReadsValue-string m (c ∷ s) (c ∷ s) (AreBlank-margin last_key i) k (write_string-plain c s p),
    )
