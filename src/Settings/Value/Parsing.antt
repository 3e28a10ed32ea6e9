-- ===== src/Settings/Value/Parsing.antt =====
-- `Value::Parse` ends, and `raw` of `operator+`.
use xcbuild.Prelude.{
  ℕ, zero, suc, ◌+◌, ◌≤◌, ◌<◌, ◌≡◌, ◌≢◌, refl, sym, ◌⊎◌, inl, inr, Option, some, [], ◌∷◌, ◌++◌,
  length, length-drop, take, drop, arith, Option-cases, append_assoc, append-nil,
}
use xcbuild.Prelude.Text.{Bytes}
use xcbuild.Settings.Value.{
  Value, nil, string, reference, raw, join, append, Delimiter, no_delimiter, Opening,
  choose_opening, find_pair, find_byte, find_opening, find_end, Round, no_end, ends, opens, round,
  ParseResult, out_of_fuel, not_found, found, push_literal, parse_value, parse,
}

-- `raw` of a joined value is the two texts, one behind the other.
pub raw-join : (v w : Value) → raw (join v w) ≡ raw v ++ raw w
unfolding raw join
raw-join nil w = refl
raw-join (string s nil) nil = simp append-nil
raw-join (string s nil) (string t w) = simp (append-nil, append_assoc)
raw-join (string s nil) (reference a w) = simp append-nil
raw-join (string s (string t v)) w =
    rw (raw-join (string t v) w) (sym (append_assoc s (t ++ raw v) (raw w)))
raw-join (string s (reference a v)) w = rw (raw-join (reference a v) w) (simp append_assoc)
raw-join (reference a v) w = rw (raw-join v w) (simp append_assoc)

find_byte-lt : (a : ℕ) (s : Bytes) {n : ℕ} → find_byte a s ≡ some n → n < length s
unfolding find_byte
find_byte-lt a [] h = absurd (cc h)
find_byte-lt a (c ∷ s) {n} h = elim (Option-cases (find_byte a s)) [
  | inl e ↦ ground arith
  | inr (m, e) ↦ ground (arith, find_byte-lt a s e)
]

find_pair-lt : (a b : ℕ) (s : Bytes) {n : ℕ} → find_pair a b s ≡ some n → n < length s
unfolding find_pair
find_pair-lt a b [] h = absurd (cc h)
find_pair-lt a b (c ∷ []) h = absurd (cc h)
find_pair-lt a b (c ∷ d ∷ s) {n} h = elim (Option-cases (find_pair a b (d ∷ s))) [
  | inl e ↦ ground arith
  | inr (m, e) ↦ ground (arith, find_pair-lt a b (d ∷ s) e)
]

pub choose_opening_cases :
    (p c i : Option ℕ) (o : Opening)
    → choose_opening p c i ≡ some o
    → ((p ≡ some o.at) ⊎ (c ≡ some o.at) ⊎ (i ≡ some o.at)) × (0 < o.open_length)
unfolding choose_opening
choose_opening_cases p c i o h = ground arith

-- A reference opens inside the text.
find_opening-lt :
    (text : Bytes) (o : Opening)
    → find_opening text ≡ some o
    → (o.at < length text) × (0 < o.open_length)
unfolding find_opening
find_opening-lt text o h =
    let (which, pos) =
      choose_opening_cases (find_pair b'$' b'(' text) (find_pair b'$' b'{' text)
        (find_byte b'$' text) o h in
    (
      elim which [
        | inl e ↦ find_pair-lt b'$' b'(' text e
        | inr (inl e) ↦ find_pair-lt b'$' b'{' text e
        | inr (inr e) ↦ find_byte-lt b'$' text e
      ],
      pos,
    )

round-opens :
    (end : Delimiter) (text : Bytes) (o : Opening)
    → round end text ≡ opens o
    → (o.at < length text) × (0 < o.open_length)
unfolding round
round-opens end text o h = find_opening-lt text o (ground arith)

-- The call returned, with no more text left than it was given; without a delimiter it found a value.
abbrev Returns : Delimiter → ℕ → ParseResult → Type 0
Returns end n out_of_fuel = ⊥
Returns end n not_found = end ≢ no_delimiter
Returns end n (found rest v) = length rest ≤ n

Round-cases :
    (r : Round) → (r ≡ no_end) ⊎ ((to : ℕ) × (r ≡ ends to)) ⊎ ((o : Opening) × (r ≡ opens o))
Round-cases no_end = inl refl
Round-cases (ends to) = inr (inl (to, refl))
Round-cases (opens o) = inr (inr (o, refl))

round-no_delimiter : (text : Bytes) → round no_delimiter text ≢ no_end
unfolding round find_end
round-no_delimiter text h = elim (Option-cases (find_opening text)) [
  | inl e ↦ ground arith
  | inr (o, e) ↦ ground arith
]

Returns-le :
    (end : Delimiter) (n m : ℕ) (r : ParseResult) → n ≤ m → Returns end n r → Returns end m r
Returns-le end n m out_of_fuel h x = x
Returns-le end n m not_found h x = x
Returns-le end n m (found rest v) h x = omega arith

-- What the round at a reference makes of the nested call.
Returns-elim :
    (start end : Delimiter) (m n : ℕ) (r failed : ParseResult) (next : Bytes → Value → ParseResult)
    → Returns start m r
    → Returns end n failed
    → ((rest : Bytes) (v : Value) → length rest ≤ m → Returns end n (next rest v))
    → Returns end n
        (elim r [ out_of_fuel ↦ out_of_fuel | not_found ↦ failed | found rest v ↦ next rest v ])
Returns-elim start end m n out_of_fuel failed next h f k = h
Returns-elim start end m n not_found failed next h f k = f
Returns-elim start end m n (found rest v) failed next h f k = k rest v h

parse_value-Returns :
    (fuel : ℕ) (end : Delimiter) (entries : Value) (pending text : Bytes)
    → length text < fuel
    → Returns end (length text) (parse_value fuel end entries pending text)
unfolding parse_value
parse_value-Returns zero end entries pending text h = absurd (omega arith)
parse_value-Returns (suc fuel) end entries pending text h = elim (Round-cases (round end text)) [
  | inl e ↦ rw (e, parse_value) (λ q. round-no_delimiter text (rw q at e))
  | inr (inl (to, e)) ↦ rw (e, parse_value) (omega (arith, length-drop to text))
  | inr (inr (o, e)) ↦
      let bounds = round-opens end text o e in
      let inner = drop (o.at + o.open_length) text in
      let after = drop o.open_length text in
      let inner_length = length-drop (o.at + o.open_length) text in
      let after_length = length-drop o.open_length text in
      let pending' = pending ++ take o.open_length text in
      rw (e, parse_value)
        (Returns-elim o.start end (length inner) (length text)
          (parse_value fuel o.start nil [] inner) (parse_value fuel end entries pending' after) _
          (parse_value-Returns fuel o.start nil [] inner (omega arith))
          (Returns-le end (length after) (length text) (parse_value fuel end entries pending' after)
            (omega arith) (parse_value-Returns fuel end entries pending' after (omega arith)))
          (λ rest v k.
            let last = drop o.close_length rest in
            let last_length = length-drop o.close_length rest in
            let entries' =
              append (push_literal entries (pending ++ take o.at text)) (reference v nil) in
            Returns-le end (length last) (length text) (parse_value fuel end entries' [] last)
              (omega arith) (parse_value-Returns fuel end entries' [] last (omega arith))))
]

Returns-found :
    (n : ℕ) (r : ParseResult)
    → Returns no_delimiter n r
    → (rest : Bytes) × (v : Value) × (r ≡ found rest v)
Returns-found n out_of_fuel h = absurd h
Returns-found n not_found h = absurd (h refl)
Returns-found n (found rest v) h = (rest, v, refl)

-- `Value::Parse` returns a value for every text.
pub parse_total : (text : Bytes) → (rest : Bytes) × (v : Value) × (parse text ≡ found rest v)
unfolding parse
parse_total text =
    Returns-found (length text) (parse_value (suc (length text)) no_delimiter nil [] text)
      (parse_value-Returns (suc (length text)) no_delimiter nil [] text (omega arith))
