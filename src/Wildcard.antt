-- ===== src/Wildcard.antt =====
-- Libraries/libutil/Sources/Wildcard.cpp. At the end of the text `*sit` reads the terminating NUL,
-- which is in no pattern: the model takes such a comparison to fail.
pub mod Laws
use xcbuild.Prelude.{
  ℕ, Bool, true, false, ◌&&◌, Option, none, some, List, [], ◌∷◌, ◌==◌, if◌then◌else◌,
}
use xcbuild.Prelude.Text.{Bytes, split_first}

unfoldable pub is_empty : Bytes → Bool
is_empty [] = true
is_empty (c ∷ cs) = false

-- `while (*sit++ != *fit)`: the text behind the first such byte.
unfoldable pub scan_to : ℕ → Bytes → Option Bytes
scan_to f [] = none
scan_to f (c ∷ cs) = if c == f then some cs else scan_to f cs

-- `allowed.find(*sit++)`: the rest of the text, if its first byte is allowed.
unfoldable pub has : ℕ → Bytes → Bool
has c [] = false
has c (a ∷ as') = if a == c then true else has c as'

unfoldable pub take_allowed : Bytes → Bytes → Option Bytes
unfolding has
take_allowed allowed [] = none
take_allowed allowed (c ∷ cs) = if has c allowed then some cs else none

-- `*fit != *sit++`
unfoldable pub take_byte : ℕ → Bytes → Option Bytes
take_byte f [] = none
take_byte f (c ∷ cs) = if f == c then some cs else none

-- The loop over the pattern. The flag says that `fit` is moving to the end of a bracket.
unfoldable pub match_from : Bool → Bytes → Bytes → Bool
unfolding is_empty scan_to take_allowed take_byte split_first
match_from bracket [] text = is_empty text
match_from true (f ∷ pattern) text =
    let behind = match_from false pattern text in
    let inside = match_from true pattern text in if f == b']' then behind else inside
match_from false (f ∷ []) text =
    if f == b'*' then true else elim (take_byte f text) [ none ↦ false | some rest ↦ is_empty rest ]
match_from false (f ∷ g ∷ pattern) text =
    let star : Bool = elim text [
      | [] ↦ true
      | c ∷ cs ↦ elim (scan_to g (c ∷ cs)) [
        | none ↦ false
        | some rest ↦ match_from false pattern rest
      ]
    ] in
    let one : Bool = elim (take_byte f text) [
      | none ↦ false
      | some rest ↦ match_from false (g ∷ pattern) rest
    ] in
    let set : Bool = elim (split_first (λ c. c == b']') (g ∷ pattern)) [
      | none ↦ one
      | some (allowed, _) ↦ elim (take_allowed allowed text) [
        | none ↦ false
        | some rest ↦ match_from true (g ∷ pattern) rest
      ]
    ] in
    if f == b'*' then star else if f == b'[' then set else one

unfoldable pub match : Bytes → Bytes → Bool
unfolding match_from
match = match_from false
