-- ===== src/Settings/Operations/Identifiers.antt =====
-- The texts that `identifier` and `rfc1034identifier` return.
use xcbuild.Prelude.{
  ℕ, suc, Bool, true, false, ◌≡◌, refl, ap, inl, inr, ◌||◌, Option, none, some, [], ◌∷◌, ◌++◌, ◌==◌,
  arith, Bool-cases, Every, length,
}
use xcbuild.Prelude.Text.{Bytes}
use xcbuild.Settings.Operations.{
  begins_identifier, continues_identifier, is_letter, is_digit, identifier_from, rfc1034_byte,
  rfc1034_from,
}

-- A C identifier: it begins with a letter or `_`, and goes on with those and digits.
abbrev pub IsIdentifier : Bytes → Type 0
IsIdentifier [] = Unit
IsIdentifier (c ∷ cs) = (begins_identifier c ≡ true) × Every (λ d. continues_identifier d ≡ true) cs

identifier_from-Every :
    (found : Bool) (s : Bytes)
    → Every (λ c. continues_identifier c ≡ true) (identifier_from found s)
unfolding identifier_from
identifier_from-Every found [] = tt
identifier_from-Every true (c ∷ s) = (ground arith, identifier_from-Every true s)
identifier_from-Every false (c ∷ s) = elim (Bool-cases (begins_identifier c)) [
  | inl b ↦ rw b (ground arith, identifier_from-Every false s)
  | inr b ↦ rw b (refl, identifier_from-Every true s)
]

identifier_from-length : (found : Bool) (s : Bytes) → length (identifier_from found s) ≡ length s
unfolding identifier_from
identifier_from-length found [] = refl
identifier_from-length true (c ∷ s) = ap suc (identifier_from-length true s)
identifier_from-length false (c ∷ s) =
    ground (arith, identifier_from-length true s, identifier_from-length false s)

-- The operation `identifier` returns a C identifier of the length of its value.
pub identifier_from-IsIdentifier :
    (s : Bytes)
    → IsIdentifier (identifier_from false s) × (length (identifier_from false s) ≡ length s)
unfolding identifier_from
identifier_from-IsIdentifier [] = (tt, refl)
identifier_from-IsIdentifier (c ∷ s) = elim (Bool-cases (begins_identifier c)) [
  | inl b ↦ rw b ((b, identifier_from-Every false s), ap suc (identifier_from-length false s))
  | inr b ↦ rw b ((refl, identifier_from-Every true s), ap suc (identifier_from-length true s))
]

-- It leaves alone no digit that only letters and `_` stand before, though an identifier may hold it.
pub identifier_from_digit :
    (s : Bytes) (d : ℕ) (t : Bytes)
    → Every (λ c. begins_identifier c ≡ true) s
    → is_digit d ≡ true
    → identifier_from false (s ++ d ∷ t) ≡ s ++ b'_' ∷ identifier_from true t
unfolding identifier_from
identifier_from_digit [] d t h k = ground arith
identifier_from_digit (c ∷ s) d t h k =
    rw (h.0) (ap (λ r. c ∷ r) (identifier_from_digit s d t h.1 k))

abbrev pub is_label_byte : ℕ → Bool
is_label_byte c = is_letter c || is_digit c || c == b'-'

rfc1034_byte-label :
    (prev : Option ℕ) (c : ℕ) (next : Option ℕ) → is_label_byte (rfc1034_byte prev c next) ≡ true
unfolding rfc1034_byte
rfc1034_byte-label none c next = ground arith
rfc1034_byte-label (some p) c none = ground arith
rfc1034_byte-label (some p) c (some n) = ground arith

-- `rfc1034identifier` returns letters, digits and hyphens: every dot is replaced too.
pub rfc1034_from-Every :
    (prev : Option ℕ) (s : Bytes) → Every (λ c. is_label_byte c ≡ true) (rfc1034_from prev s)
unfolding rfc1034_from
rfc1034_from-Every prev [] = tt
rfc1034_from-Every prev (c ∷ []) = (rfc1034_byte-label prev c none, tt)
rfc1034_from-Every prev (c ∷ d ∷ s) = (
  rfc1034_byte-label prev c (some d),
  rfc1034_from-Every (some (rfc1034_byte prev c (some d))) (d ∷ s),
)
