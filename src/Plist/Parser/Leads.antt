-- ===== src/Plist/Parser/Leads.antt =====
-- Rounds of the loop of `parse` of ASCIIParser.cpp, put one behind another.
use xcbuild.Prelude.{
  ℕ, zero, suc, ◌+◌, ◌*◌, ◌≤◌, Bool, ◌≡◌, ◌≢◌, refl, sym, ◌∙◌, some, length, arith, Option-cases,
  inl, inr,
}
use xcbuild.Prelude.Text.{Bytes}
use xcbuild.Plist.Lexer.{Token, Lexer, ascii, init, read_token}
use xcbuild.Plist.Parser.{
  Parser, ParseState, plist, Next, going, failed, finished, overrun, step, Answer, out_of_fuel,
  answer, parse_from, parse, begin_dictionary, new,
}
use native.Mathlib.Decide.{dec_le}
use xcbuild.Prelude.{if◌then◌else◌}
use xcbuild.Plist.Parser.Termination.{parse-out_of_fuel}

-- Where the loop stands.
pub record Place : Type 0 where
  pub lexer : Lexer
  pub state : ParseState
  pub parser : Parser

-- Rounds that go on, from a place to another.
pub data Leads (strings : Bool) (buffer : Bytes) : Place → Place → Type 0 where
  none_more : {a : Place} → Leads strings buffer a a
  round :
      {a b : Place} (t : Token) (l : Lexer) (state : ParseState) (p : Parser)
      → read_token a.lexer ≡ some (t, l)
      → step strings buffer t l a.state a.parser ≡ going state p
      → Leads strings buffer (record { lexer = l; state = state; parser = p }) b
      → Leads strings buffer a b

pub Leads-trans :
    {strings : Bool} {buffer : Bytes} {a b c : Place}
    → Leads strings buffer a b
    → Leads strings buffer b c
    → Leads strings buffer a c
Leads-trans none_more n = n
Leads-trans (round t l state p r s m) n = round t l state p r s (Leads-trans m n)

abbrev pub parse_at : ℕ → Bool → Bytes → Place → Answer
parse_at fuel strings buffer a = parse_from fuel strings buffer a.lexer a.state a.parser

-- A round that returns.
pub parse_from-finished :
    (fuel : ℕ) (strings : Bool) (buffer : Bytes) (t : Token) (l : Lexer) (a : Place) (n : Next)
    → read_token a.lexer ≡ some (t, l)
    → step strings buffer t l a.state a.parser ≡ n
    → parse_at (suc fuel) strings buffer a ≡ answer (parse_from fuel strings buffer l) l.line n
unfolding parse_from
parse_from-finished fuel strings buffer t l a n r s = rw (parse_from, r, s) refl

-- What the loop returns from the end of the rounds it returns from their start.
pub Leads-parse :
    {strings : Bool} {buffer : Bytes} {a b : Place} (fuel : ℕ) (r : Answer)
    → Leads strings buffer a b
    → parse_at fuel strings buffer b ≡ r
    → (more : ℕ) × (parse_at more strings buffer a ≡ r)
Leads-parse fuel r none_more h = (fuel, h)
Leads-parse {strings = strings} {buffer = buffer} fuel r (round {a = a} t l state p e s m) h =
    let (more, g) = Leads-parse fuel r m h in
    (suc more, parse_from-finished more strings buffer t l a (going state p) e s ∙ g)

-- An answer does not change with more fuel.
answer-more :
    (f g : ParseState → Parser → Answer) (line : ℕ) (n : Next)
    → ((state : ParseState) (p : Parser) → f state p ≢ out_of_fuel → g state p ≡ f state p)
    → answer f line n ≢ out_of_fuel
    → answer g line n ≡ answer f line n
answer-more f g line (going state p) h e = h state p e
answer-more f g line (failed x) h e = refl
answer-more f g line (finished p) h e = refl
answer-more f g line overrun h e = refl

parse_from-more :
    (fuel more : ℕ) (strings : Bool) (buffer : Bytes) (l : Lexer) (state : ParseState) (p : Parser)
    → fuel ≤ more
    → parse_from fuel strings buffer l state p ≢ out_of_fuel
    → parse_from more strings buffer l state p ≡ parse_from fuel strings buffer l state p
unfolding parse_from
parse_from-more zero more strings buffer l state p h e = absurd (e refl)
parse_from-more (suc fuel) zero strings buffer l state p h e = absurd (omega arith)
parse_from-more (suc fuel) (suc more) strings buffer l state p h e =
    elim (Option-cases (read_token l)) [
      | inl n ↦ rw (parse_from, n) refl
      | inr ((t, l'), r) ↦
          let n = step strings buffer t l' state p in
          let place : Place = record { lexer = l; state = state; parser = p } in
          let low = parse_from-finished fuel strings buffer t l' place n r refl in
          let high = parse_from-finished more strings buffer t l' place n r refl in
          high
          ∙ answer-more (parse_from fuel strings buffer l') (parse_from more strings buffer l')
              l'.line n (λ s q. parse_from-more fuel more strings buffer l' s q (omega arith))
              (λ z. e (low ∙ z))
          ∙ sym low
    ]

-- What some fuel is enough for is what the program returns.
pub parse-Leads :
    (fuel : ℕ) (strings : Bool) (buffer : Bytes) (r : Answer)
    → r ≢ out_of_fuel
    → parse_at fuel strings buffer (record {
      lexer = init buffer ascii;
      state = plist;
      parser = if strings then record (begin_dictionary new) { level = 1 } else new;
    })
      ≡ r
    → parse strings buffer ≡ r
unfolding parse
parse-Leads fuel strings buffer r n h =
    let opened : Parser = if strings then record (begin_dictionary new) { level = 1 } else new in
    let l = init buffer ascii in
    let enough = 2 * length buffer + 2 in
    let total = parse-out_of_fuel strings buffer in
    elim (dec_le fuel enough) [
      | yes y ↦ parse_from-more fuel enough strings buffer l plist opened y (λ e. n (sym h ∙ e)) ∙ h
      | no y ↦
          sym (parse_from-more enough fuel strings buffer l plist opened (omega arith) total) ∙ h
    ]
