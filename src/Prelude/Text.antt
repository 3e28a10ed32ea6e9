-- ===== src/Prelude/Text.antt =====
-- `std::string` as a list of bytes, with the searches that the sources call.
use Prim.Native.Char.{code}
use Prim.Native.String.{String}
use Prim.Native.Nat.{ℕ}
use mathlib.Core.Path.{◌≡◌, refl, ap}
use mathlib.Core.Logic.{◌↔◌, ◌≢◌, inl, inr}
use mathlib.Core.Bool.{Bool, true, false, ◌&&◌, ◌||◌}
use mathlib.Core.Option.{Option, none, some}
use mathlib.Core.List.{List, [], ◌∷◌, ◌++◌}
use native.Mathlib.Omega.{arith}
use xcbuild.Prelude.Tests.{◌==◌, leb, if◌then◌else◌, HasEq, Option-cases}
use xcbuild.Prelude.Lists.{Every}

abbrev pub Bytes : Type 0
Bytes = List ℕ

-- The bytes of an ASCII literal.
abbrev pub codes : String → Bytes
codes String.[] = []
codes (String.◌∷◌ c s) = code c ∷ codes s

-- `operator==` of two texts.
unfoldable pub equal : Bytes → Bytes → Bool
equal [] [] = true
equal [] (d ∷ right) = false
equal (c ∷ left) [] = false
equal (c ∷ left) (d ∷ right) = if c == d then equal left right else false

pub equal_iff : (left right : Bytes) → (equal left right ≡ true) ↔ (left ≡ right)
unfolding equal
equal_iff [] [] = ground arith
equal_iff [] (d ∷ right) = ground arith
equal_iff (c ∷ left) [] = ground arith
equal_iff (c ∷ left) (d ∷ right) = ground (arith, equal_iff left right)

pub equal_refl : (a : Bytes) → equal a a ≡ true
equal_refl a = (equal_iff a a).1 refl

pub ne_of_equal : (a b : Bytes) → equal a b ≡ false → a ≢ b
ne_of_equal a b h e = ground (arith, equal_iff a b)

pub equal_of_ne : (a b : Bytes) → a ≢ b → equal a b ≡ false
equal_of_ne a b h = ground (arith, equal_iff a b)

instance abbrev pub bytes_eq : HasEq Bytes
bytes_eq = record { same_key = equal; same_key_iff = equal_iff }

-- `isspace` in the C locale.
abbrev pub is_space : ℕ → Bool
is_space c = c == 32 || (leb 9 c && leb c 13)

-- No byte satisfies the test.
abbrev pub Lacks : (ℕ → Bool) → Bytes → Type 0
Lacks p = Every (λ c. p c ≡ false)

-- The text before and behind the last byte that satisfies the test, as `rfind`, and as `find_if`
-- over reverse iterators.
unfoldable pub split_last : (ℕ → Bool) → Bytes → Option (Bytes × Bytes)
split_last p [] = none
split_last p (c ∷ cs) = elim (split_last p cs) [
  | some (before, after) ↦ some (c ∷ before, after)
  | none ↦ if p c then some ([], cs) else none
]

-- The same at the first such byte, as `find` and `find_if`.
unfoldable pub split_first : (ℕ → Bool) → Bytes → Option (Bytes × Bytes)
split_first p [] = none
split_first p (c ∷ cs) =
    if p c
    then some ([], cs)
    else elim (split_first p cs) [ some (before, after) ↦ some (c ∷ before, after) | none ↦ none ]

pub split_last-Lacks : (p : ℕ → Bool) (s : Bytes) → Lacks p s → split_last p s ≡ none
unfolding split_last
split_last-Lacks p [] h = refl
split_last-Lacks p (c ∷ s) h = ground (arith, split_last-Lacks p s h.1)

pub split_last-append :
    (p : ℕ → Bool) (b : Bytes) (c : ℕ) (a : Bytes)
    → p c ≡ true
    → Lacks p a
    → split_last p (b ++ c ∷ a) ≡ some (b, a)
unfolding split_last
split_last-append p [] c a pc h = ground (arith, split_last-Lacks p a h)
split_last-append p (x ∷ b) c a pc h = ground (arith, split_last-append p b c a pc h)

-- Whether there is a last byte, and it satisfies the test.
unfoldable pub back_is : (ℕ → Bool) → Bytes → Bool
back_is p [] = false
back_is p (c ∷ []) = p c
back_is p (c ∷ d ∷ cs) = back_is p (d ∷ cs)

-- Every bytes but the last.
unfoldable pub drop_back : Bytes → Bytes
drop_back [] = []
drop_back (c ∷ []) = []
drop_back (c ∷ d ∷ cs) = c ∷ drop_back (d ∷ cs)

pub back_is-Lacks : (p : ℕ → Bool) (s : Bytes) → Lacks p s → back_is p s ≡ false
unfolding back_is
back_is-Lacks p [] h = refl
back_is-Lacks p (c ∷ []) h = h.0
back_is-Lacks p (c ∷ d ∷ s) h = back_is-Lacks p (d ∷ s) h.1

pub back_is-append :
    (p : ℕ → Bool) (a : Bytes) (c : ℕ) (b : Bytes) → back_is p (a ++ c ∷ b) ≡ back_is p (c ∷ b)
unfolding back_is
back_is-append p [] c b = refl
back_is-append p (x ∷ []) c b = refl
back_is-append p (x ∷ y ∷ a) c b = back_is-append p (y ∷ a) c b

pub drop_back-append :
    (s : Bytes) (c : ℕ) → back_is (λ x. x == c) s ≡ true → s ≡ drop_back s ++ c ∷ []
unfolding back_is drop_back
drop_back-append [] c h = absurd (cc h)
drop_back-append (x ∷ []) c h = ground arith
drop_back-append (x ∷ y ∷ s) c h = ap (λ t. x ∷ t) (drop_back-append (y ∷ s) c h)

pub drop_back-concat : (s : Bytes) (c : ℕ) → drop_back (s ++ c ∷ []) ≡ s
unfolding drop_back
drop_back-concat [] c = refl
drop_back-concat (x ∷ []) c = refl
drop_back-concat (x ∷ y ∷ s) c = ap (λ t. x ∷ t) (drop_back-concat (y ∷ s) c)

-- Where the last byte of the kind stands.
pub record SplitsLast (p : ℕ → Bool) (s : Bytes) (before after : Bytes) : Type 0 where
  pub at : ℕ
  pub found : p at ≡ true
  pub splits : s ≡ before ++ at ∷ after
  pub rest : Lacks p after

pub split_last-none : (p : ℕ → Bool) (s : Bytes) → split_last p s ≡ none → Lacks p s
unfolding split_last
split_last-none p [] h = tt
split_last-none p (c ∷ s) h = elim (Option-cases (split_last p s)) [
  | inl e ↦ (ground arith, split_last-none p s e)
  | inr ((b, a), e) ↦ absurd (ground arith)
]

SplitsLast-cons :
    (p : ℕ → Bool) (c : ℕ) {s b a : Bytes} → SplitsLast p s b a → SplitsLast p (c ∷ s) (c ∷ b) a
SplitsLast-cons p c x = record {
  at = x.at;
  found = x.found;
  splits = ap (λ t. c ∷ t) x.splits;
  rest = x.rest;
}

pub split_last-some :
    (p : ℕ → Bool) (s before after : Bytes)
    → split_last p s ≡ some (before, after)
    → SplitsLast p s before after
unfolding split_last
split_last-some p [] b a h = absurd (cc h)
split_last-some p (c ∷ s) b a h = elim (Option-cases (split_last p s)) [
  | inl e ↦ record {
    at = c;
    found = ground arith;
    splits = ground arith;
    rest = let x : s ≡ a = ground arith in rw x at (split_last-none p s e);
  }
  | inr ((b', a'), e) ↦
      let x : c ∷ b' ≡ b = ground arith in
      let y : a' ≡ a = ground arith in
      rw (← x, ← y) (SplitsLast-cons p c (split_last-some p s b' a' e))
]

-- The text of a C string.
unfoldable pub until_nul : Bytes → Bytes
until_nul [] = []
until_nul (c ∷ s) = if c == 0 then [] else c ∷ until_nul s

-- A text without NUL is a C string's.
pub until_nul_text : (s rest : Bytes) → Every (λ c. c ≢ 0) s → until_nul (s ++ 0 ∷ rest) ≡ s
unfolding until_nul
until_nul_text [] rest h = refl
until_nul_text (c ∷ s) rest (n, h) = ground (arith, until_nul_text s rest h)
