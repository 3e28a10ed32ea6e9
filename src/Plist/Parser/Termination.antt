-- ===== src/Plist/Parser/Termination.antt =====
-- The loop of `parse` of ASCIIParser.cpp ends: a token that takes no byte ends it at the next.
use xcbuild.Prelude.{
  ℕ, zero, suc, ◌+◌, ◌-◌, ◌*◌, ◌<◌, ◌≤◌, ◌==◌, Bool, true, false, ◌≡◌, ◌≢◌, inl, inr, refl, subst,
  some, length, arith, Bool-cases, Option-cases, if◌then◌else◌,
}
use xcbuild.Prelude.Text.{Bytes}
use xcbuild.Plist.Object.{string}
use xcbuild.Plist.Lexer.{
  Token, Lexer, ascii, init, read_token, unquoted_string, invalid_token, end_of_file,
  unterminated_long_comment, unterminated_quoted_string, unterminated_data,
}
use xcbuild.Plist.Lexer.Bounds.{is_failure, read_token-IsInside}
use xcbuild.Plist.Parser.{
  Parser, Result, ok, refused, ParseState, plist, key_separator, entry_separator, Next, going,
  failed, finished, overrun, next, settle, store_key, store_value, read_string, at_end, close_root,
  premature_end, end_container, read_state, step, Answer, out_of_fuel, answer, parse_from, parse,
  finish, is_dictionary, begin_dictionary, new,
}

-- Whether a string is taken where the loop stands.
abbrev phase : ParseState → Parser → ℕ
phase plist p = if p.done then 0 else 1
phase _ p = 0

settle-phase :
    (top : Bool) (inner state : ParseState) (p p' : Parser)
    → inner ≢ plist
    → settle top inner p ≡ going state p'
    → phase state p' ≡ 0
unfolding settle
settle-phase true inner plist p p' n h = ground arith
settle-phase true inner key_separator p p' n h = refl
settle-phase true inner entry_separator p p' n h = refl
settle-phase false inner plist p p' n h = absurd (n (cc h))
settle-phase false inner key_separator p p' n h = refl
settle-phase false inner entry_separator p p' n h = refl

next-settle-phase :
    (r : Result) (top : Bool) (inner state : ParseState) (p' : Parser)
    → inner ≢ plist
    → next r (λ q. settle top inner q) ≡ going state p'
    → phase state p' ≡ 0
next-settle-phase (ok q) top inner state p' n h = settle-phase top inner state q p' n h
next-settle-phase (refused e) top inner state p' n h = absurd (cc h)

close_root-going : (state : ParseState) (p p' : Parser) → close_root p ≢ going state p'
unfolding close_root
close_root-going state p p' h = closing (end_container false p) h
  where
    closing :
        (r : Result)
        → next r (λ q.
          let level = q.level - 1 in
          if level == 0
          then finished (finish (record q { level = level }))
          else failed premature_end)
          ≢ going state p'
    closing (ok q) g = ground arith
    closing (refused e) g = cc g

at_end-going :
    (strings : Bool) (state state' : ParseState) (p p' : Parser)
    → at_end strings state p ≢ going state' p'
unfolding at_end
at_end-going strings plist state' p p' h = ground (arith, close_root-going state' p p')
at_end-going strings key_separator state' p p' h = ground arith
at_end-going strings entry_separator state' p p' h = ground arith

read_string-phase :
    (s : Bytes) (state : ParseState) (p p' : Parser)
    → read_string s p ≡ going state p'
    → phase state p' ≡ 0
unfolding read_string
read_string-phase s state p p' h = elim (Bool-cases (is_dictionary p)) [
  | inl d ↦
      next-settle-phase (store_key s p) (p.level == 0) key_separator state p' (λ e. cc e)
        (subst
          (λ b.
            (if b
              then next (store_key s p) (λ q. settle (p.level == 0) key_separator q)
              else next (store_value (string s) p) (λ q. settle (p.level == 0) entry_separator q))
            ≡ going state p')
          d h)
  | inr d ↦
      next-settle-phase (store_value (string s) p) (p.level == 0) entry_separator state p'
        (λ e. cc e)
        (subst
          (λ b.
            (if b
              then next (store_key s p) (λ q. settle (p.level == 0) key_separator q)
              else next (store_value (string s) p) (λ q. settle (p.level == 0) entry_separator q))
            ≡ going state p')
          d h)
]

-- What a token that the loop goes on behind is, and what it does where it takes no byte.
read_state-unquoted :
    (s digits : Bytes) (state state' : ParseState) (p p' : Parser)
    → read_state state unquoted_string s digits p ≡ going state' p'
    → (phase state p ≡ 1) × (phase state' p' ≡ 0)
unfolding read_state
read_state-unquoted s digits plist state' p p' h = elim (Bool-cases p.done) [
  | inl d ↦ absurd (ground (arith, d))
  | inr d ↦ (ground arith, read_string-phase s state' p p' (ground (arith, d)))
]
read_state-unquoted s digits key_separator state' p p' h = absurd (cc h)
read_state-unquoted s digits entry_separator state' p p' h = absurd (cc h)

step-going :
    (strings : Bool) (buffer : Bytes) (t : Token) (l : Lexer) (state state' : ParseState)
    (p p' : Parser)
    → step strings buffer t l state p ≡ going state' p'
    → (is_failure t ≡ false) × (t ≡ unquoted_string → (phase state p ≡ 1) × (phase state' p' ≡ 0))
unfolding step
step-going strings buffer end_of_file l state state' p p' h =
    absurd (at_end-going strings state state' p p' h)
step-going strings buffer invalid_token l state state' p p' h = absurd (cc h)
step-going strings buffer unterminated_long_comment l state state' p p' h = absurd (cc h)
step-going strings buffer unterminated_quoted_string l state state' p p' h = absurd (cc h)
step-going strings buffer unterminated_data l state state' p p' h = absurd (cc h)
step-going strings buffer unquoted_string l state state' p p' h =
    (refl, λ e. read_state-unquoted _ _ state state' p p' h)
step-going strings buffer _ l state state' p p' h = (refl, λ e. absurd (cc e))

-- A round that ends, or goes on to rounds that end.
answer-out_of_fuel :
    (more : ParseState → Parser → Answer) (line : ℕ) (r : Next)
    → ((state : ParseState) (p : Parser) → r ≡ going state p → more state p ≢ out_of_fuel)
    → answer more line r ≢ out_of_fuel
answer-out_of_fuel more line (going state p) h g = h state p refl g
answer-out_of_fuel more line (failed e) h g = cc g
answer-out_of_fuel more line (finished p) h g = cc g
answer-out_of_fuel more line overrun h g = cc g

phase_bound : (state : ParseState) (p : Parser) → phase state p ≤ 1
phase_bound plist p = ground arith
phase_bound key_separator p = omega arith
phase_bound entry_separator p = omega arith

-- What a round leaves is less than what it had: bytes, or the phase.
round_shorter :
    (strings : Bool) (buffer : Bytes) (t : Token) (l l' : Lexer) (state state' : ParseState)
    (p p' : Parser)
    → read_token l ≡ some (t, l')
    → step strings buffer t l' state p ≡ going state' p'
    → 2 * length l'.rest + phase state' p' < 2 * length l.rest + phase state p
round_shorter strings buffer t l l' state state' p p' r h =
    let v = read_token-IsInside l l' t r in
    let (f, u) = step-going strings buffer t l' state state' p p' h in
    elim (v.moves f) [
      | inl m ↦ omega (arith, v.ends, phase_bound state' p')
      | inr (q, z) ↦ let (one, none_left) = u q in omega (arith, v.ends, v.forward, one, none_left)
    ]

parse_from-out_of_fuel :
    (fuel : ℕ) (strings : Bool) (buffer : Bytes) (l : Lexer) (state : ParseState) (p : Parser)
    → 2 * length l.rest + phase state p < fuel
    → parse_from fuel strings buffer l state p ≢ out_of_fuel
unfolding parse_from
parse_from-out_of_fuel zero strings buffer l state p h = absurd (omega arith)
parse_from-out_of_fuel (suc fuel) strings buffer l state p h = elim (Option-cases (read_token l)) [
  | inl n ↦ rw (parse_from, n) (λ e. cc e)
  | inr ((t, l'), r) ↦
      rw (parse_from, r)
        (answer-out_of_fuel (parse_from fuel strings buffer l') l'.line
          (step strings buffer t l' state p)
          (λ state' p' g.
            parse_from-out_of_fuel fuel strings buffer l' state' p'
              (omega (arith, round_shorter strings buffer t l l' state state' p p' r g))))
]

-- Whatever the text, the rounds of the parser end within twice its bytes and two.
pub parse-out_of_fuel : (strings : Bool) (buffer : Bytes) → parse strings buffer ≢ out_of_fuel
unfolding parse
parse-out_of_fuel strings buffer =
    let opened : Parser = if strings then record (begin_dictionary new) { level = 1 } else new in
    parse_from-out_of_fuel (2 * length buffer + 2) strings buffer (init buffer ascii) plist opened
      (omega (arith, phase_bound plist opened))
