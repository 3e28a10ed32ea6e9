-- ===== src/Settings/Value/Search.antt =====
-- Where `Value::Parse` finds the end of a value and the opening of a reference.
use xcbuild.Prelude.{
  ℕ, suc, ◌+◌, ◌≤◌, ◌<◌, Bool, false, ◌||◌, ◌≡◌, ◌≢◌, refl, sym, ap, ◌∙◌, inl, inr, some, [], ◌∷◌,
  ◌++◌, ◌==◌, length, length-append, take, drop, arith, Bool-cases, Option-cases, append_assoc,
  append-nil, Every-append,
}
use xcbuild.Prelude.Text.{Bytes, Lacks}
use xcbuild.Settings.Value.Parsing.{choose_opening_cases}
use xcbuild.Settings.Value.{
  Value, nil, string, reference, append, Delimiter, no_delimiter, parentheses, Opening,
  choose_opening, find_pair, find_byte, find_opening, find_end, ends, opens, round, push_literal,
}

-- The bytes that a literal must not hold to be read back as it is.
abbrev pub is_markup : ℕ → Bool
is_markup c = c == b'$' || c == b')'

-- A value whose text determines it: its literals are not empty, hold no `$` and no `)`, and no
-- literal stands directly behind another.
abbrev pub IsCanonical : Value → Type 0
IsCanonical nil = Unit
IsCanonical (string s nil) = (s ≢ []) × Lacks is_markup s
IsCanonical (string s (string t v)) = ⊥
IsCanonical (string s (reference a v)) = (s ≢ []) × Lacks is_markup s × IsCanonical (reference a v)
IsCanonical (reference a v) = IsCanonical a × IsCanonical v

-- Where the text of a value may end.
pub data IsClosing : Delimiter → Bytes → Type 0 where
  at_end : IsClosing no_delimiter []
  at_parenthesis : (rest : Bytes) → IsClosing parentheses (b')' ∷ rest)

find_byte-here :
    (a : ℕ) (s t : Bytes) → Lacks (λ c. c == a) s → find_byte a (s ++ a ∷ t) ≡ some (length s)
unfolding find_byte
find_byte-here a [] t l = ground arith
find_byte-here a (c ∷ s) t l = ground (arith, find_byte-here a s t l.1)

find_byte-exists : (a : ℕ) (s t : Bytes) → (n : ℕ) × (find_byte a (s ++ a ∷ t) ≡ some n)
unfolding find_byte
find_byte-exists a [] t = (0, ground arith)
find_byte-exists a (c ∷ s) t =
    let (n, e) = find_byte-exists a s t in
    elim (Bool-cases (c == a)) [ inl q ↦ (0, rw q) | inr q ↦ (suc n, rw (q, e)) ]

find_byte-behind :
    (a : ℕ) (s t : Bytes) {n : ℕ}
    → Lacks (λ c. c == a) s
    → find_byte a (s ++ t) ≡ some n
    → length s ≤ n
unfolding find_byte
find_byte-behind a [] t l h = omega arith
find_byte-behind a (c ∷ s) t {n} l h = elim (Option-cases (find_byte a (s ++ t))) [
  | inl e ↦ absurd (ground arith)
  | inr (m, e) ↦ ground (arith, find_byte-behind a s t l.1 e)
]

find_pair-here :
    (a b : ℕ) (s t : Bytes)
    → Lacks (λ c. c == a) s
    → find_pair a b (s ++ a ∷ b ∷ t) ≡ some (length s)
unfolding find_pair
find_pair-here a b [] t l = ground arith
find_pair-here a b (c ∷ []) t l = ground (arith, find_pair-here a b [] t tt)
find_pair-here a b (c ∷ d ∷ s) t l = ground (arith, find_pair-here a b (d ∷ s) t l.1)

find_pair-behind :
    (a b : ℕ) (s t : Bytes) {n : ℕ}
    → Lacks (λ c. c == a) s
    → find_pair a b (s ++ t) ≡ some n
    → length s ≤ n
unfolding find_pair
find_pair-behind a b [] t l h = omega arith
find_pair-behind a b (c ∷ []) [] l h = absurd (cc h)
find_pair-behind a b (c ∷ []) (d ∷ t) {n} l h = ground arith
find_pair-behind a b (c ∷ d ∷ s) t {n} l h = elim (Option-cases (find_pair a b (d ∷ (s ++ t)))) [
  | inl e ↦ absurd (ground arith)
  | inr (m, e) ↦ ground (arith, find_pair-behind a b (d ∷ s) t l.1 e)
]

-- Another pair does not begin where the text has `$(`.
find_pair-other :
    (s t : Bytes) {n : ℕ}
    → Lacks (λ c. c == b'$') s
    → find_pair b'$' b'{' (s ++ b'$' ∷ b'(' ∷ t) ≡ some n
    → length s < n
unfolding find_pair
find_pair-other [] t {n} l h = ground arith
find_pair-other (c ∷ []) t {n} l h = ground arith
find_pair-other (c ∷ d ∷ s) t {n} l h =
    elim (Option-cases (find_pair b'$' b'{' (d ∷ (s ++ b'$' ∷ b'(' ∷ t)))) [
      | inl e ↦ absurd (ground arith)
      | inr (m, e) ↦ ground (arith, find_pair-other (d ∷ s) t l.1 e)
    ]

find_opening-behind :
    (s t : Bytes) (o : Opening)
    → Lacks (λ c. c == b'$') s
    → find_opening (s ++ t) ≡ some o
    → length s ≤ o.at
unfolding find_opening
find_opening-behind s t o l h =
    elim ((choose_opening_cases (find_pair b'$' b'(' (s ++ t)) (find_pair b'$' b'{' (s ++ t))
      (find_byte b'$' (s ++ t)) o h).0) [
        | inl e ↦ find_pair-behind b'$' b'(' s t l e
        | inr (inl e) ↦ find_pair-behind b'$' b'{' s t l e
        | inr (inr e) ↦ find_byte-behind b'$' s t l e
      ]

Lacks-dollar : (s : Bytes) → Lacks is_markup s → Lacks (λ c. c == b'$') s
Lacks-dollar [] l = tt
Lacks-dollar (c ∷ s) l = (ground (arith, l.0), Lacks-dollar s l.1)

Lacks-parenthesis : (s : Bytes) → Lacks is_markup s → Lacks (λ c. c == b')') s
Lacks-parenthesis [] l = tt
Lacks-parenthesis (c ∷ s) l = (ground (arith, l.0), Lacks-parenthesis s l.1)

find_end-closing :
    {end : Delimiter} {tail : Bytes} (s : Bytes)
    → IsClosing end tail
    → Lacks is_markup s
    → find_end end (s ++ tail) ≡ some (length s)
unfolding find_end
find_end-closing s at_end l = ap (λ (t : Bytes). some (length t)) (append-nil s)
find_end-closing s (at_parenthesis rest) l = find_byte-here b')' s rest (Lacks-parenthesis s l)

-- In front of the end there is only the literal.
pub round-closing :
    {end : Delimiter} {tail : Bytes} (s : Bytes)
    → IsClosing end tail
    → Lacks is_markup s
    → round end (s ++ tail) ≡ ends (length s)
unfolding round
round-closing {tail = tail} s closing l = elim (Option-cases (find_opening (s ++ tail))) [
  | inl e ↦ rw (find_end-closing s closing l, round, e)
  | inr (o, e) ↦
      let behind = find_opening-behind s tail o (Lacks-dollar s l) e in
      rw (find_end-closing s closing l, round, e) (ground arith)
]

abbrev pub at_reference : ℕ → Opening
at_reference n = record { at = n; open_length = 2; start = parentheses; close_length = 1 }

find_opening-reference :
    (s t : Bytes)
    → Lacks is_markup s
    → find_opening (s ++ b'$' ∷ b'(' ∷ t) ≡ some (at_reference (length s))
unfolding find_opening
find_opening-reference s t l =
    let l' = Lacks-dollar s l in
    rw (find_pair-here b'$' b'(' s t l', find_byte-here b'$' s (b'(' ∷ t) l')
      (elim (Option-cases (find_pair b'$' b'{' (s ++ b'$' ∷ b'(' ∷ t))) [
        | inl e ↦ unfold choose_opening in rw e (ground arith)
        | inr (n, e) ↦
            let other = find_pair-other s t l' e in unfold choose_opening in rw e (ground arith)
      ])

find_end-later :
    {end : Delimiter} {tail : Bytes} (s t : Bytes)
    → IsClosing end tail
    → Lacks is_markup s
    → (n : ℕ) × (find_end end (s ++ b'$' ∷ b'(' ∷ (t ++ tail)) ≡ some n) × (length s < n)
unfolding find_end
find_end-later {tail = tail} s t at_end l = (
  length (s ++ b'$' ∷ b'(' ∷ (t ++ tail)),
  refl,
  omega (arith, length-append s (b'$' ∷ b'(' ∷ (t ++ tail))),
)
find_end-later s t (at_parenthesis rest) l =
    let (n, e) = find_byte-exists b')' (s ++ b'$' ∷ b'(' ∷ t) rest in
    let e' = ap (find_byte b')') (sym (append_assoc s (b'$' ∷ b'(' ∷ t) (b')' ∷ rest))) ∙ e in
    let front =
      Every-append (λ c. (c == b')') ≡ false) s (b'$' ∷ []) (Lacks-parenthesis s l) (refl, tt) in
    let e'' = ap (find_byte b')') (append_assoc s (b'$' ∷ []) (b'(' ∷ (t ++ b')' ∷ rest))) ∙ e' in
    (
      n,
      e',
      omega (
        arith,
        find_byte-behind b')' (s ++ b'$' ∷ []) (b'(' ∷ (t ++ b')' ∷ rest)) front e'',
        length-append s (b'$' ∷ []),
      ),
    )

-- A reference behind the literal opens, whatever stands in it.
pub round-reference :
    {end : Delimiter} {tail : Bytes} (s t : Bytes)
    → IsClosing end tail
    → Lacks is_markup s
    → round end (s ++ b'$' ∷ b'(' ∷ (t ++ tail)) ≡ opens (at_reference (length s))
unfolding round
round-reference {tail = tail} s t closing l =
    let (n, e, later) = find_end-later s t closing l in
    rw (e, round, find_opening-reference s (t ++ tail) l) (ground arith)

pub take-length : (s t : Bytes) → take (length s) (s ++ t) ≡ s
take-length [] t = refl
take-length (c ∷ s) t = ap (λ r. c ∷ r) (take-length s t)

pub drop-length : (s t : Bytes) → drop (length s) (s ++ t) ≡ t
drop-length [] t = refl
drop-length (c ∷ s) t = drop-length s t

pub drop-length_two : (s : Bytes) (a b : ℕ) (t : Bytes) → drop (length s + 2) (s ++ a ∷ b ∷ t) ≡ t
drop-length_two [] a b t = refl
drop-length_two (c ∷ s) a b t =
    let e : suc (length s) + 2 ≡ suc (length s + 2) = omega arith in rw e (drop-length_two s a b t)

pub append_nil : (v : Value) → append v nil ≡ v
unfolding append
append_nil nil = refl
append_nil (string s v) = ap (string s) (append_nil v)
append_nil (reference a v) = ap (reference a) (append_nil v)

pub append-append : (u v w : Value) → append (append u v) w ≡ append u (append v w)
unfolding append
append-append nil v w = refl
append-append (string s u) v w = ap (string s) (append-append u v w)
append-append (reference a u) v w = ap (reference a) (append-append u v w)

pub push_literal-ne :
    (entries : Value) (s : Bytes) → s ≢ [] → push_literal entries s ≡ append entries (string s nil)
unfolding push_literal
push_literal-ne entries [] h = absurd (h refl)
push_literal-ne entries (c ∷ s) h = refl
