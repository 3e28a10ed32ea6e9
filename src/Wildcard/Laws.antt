-- ===== src/Wildcard/Laws.antt =====
-- What `Wildcard::Match` accepts.
use xcbuild.Prelude.{
  ℕ, Bool, true, false, ◌≡◌, ◌||◌, refl, ◌↔◌, [], ◌∷◌, ◌++◌, ◌==◌, if◌then◌else◌, arith,
}
use xcbuild.Prelude.Text.{Bytes, Lacks, equal, equal_iff}
use xcbuild.Wildcard.{is_empty, take_byte, match_from, match}

-- The bytes with a meaning of their own.
abbrev pub is_special : ℕ → Bool
is_special c = c == b'*' || c == b'['

match_from_literal :
    (pattern text : Bytes)
    → Lacks is_special pattern
    → match_from false pattern text ≡ equal pattern text
unfolding match_from equal is_empty take_byte
match_from_literal [] [] l = refl
match_from_literal [] (c ∷ text) l = refl
match_from_literal (f ∷ []) [] l = ground arith
match_from_literal (f ∷ []) (c ∷ []) l = ground arith
match_from_literal (f ∷ []) (c ∷ d ∷ text) l = ground arith
match_from_literal (f ∷ g ∷ pattern) [] l = ground arith
match_from_literal (f ∷ g ∷ pattern) (c ∷ text) l =
    ground (arith, match_from_literal (g ∷ pattern) text l.1)

-- A pattern without `*` and `[` matches exactly itself.
pub match_literal :
    (pattern text : Bytes)
    → Lacks is_special pattern
    → (match pattern text ≡ true) ↔ (pattern ≡ text)
unfolding match
match_literal pattern text l = rw (match_from_literal pattern text l) (equal_iff pattern text)

-- The text begins with the prefix.
abbrev pub starts_with : Bytes → Bytes → Bool
starts_with [] text = true
starts_with (p ∷ prefix) [] = false
starts_with (p ∷ prefix) (c ∷ text) = if p == c then starts_with prefix text else false

match_from-star :
    (prefix text : Bytes)
    → Lacks is_special prefix
    → match_from false (prefix ++ b'*' ∷ []) text ≡ starts_with prefix text
unfolding match_from take_byte
match_from-star [] text l = refl
match_from-star (f ∷ []) [] l = ground arith
match_from-star (f ∷ []) (c ∷ text) l = ground arith
match_from-star (f ∷ g ∷ prefix) [] l = ground arith
match_from-star (f ∷ g ∷ prefix) (c ∷ text) l =
    ground (arith, match_from-star (g ∷ prefix) text l.1)

-- A star accepts the empty text whatever stands behind it.
pub match_star_empty : (pattern : Bytes) → match (b'*' ∷ pattern) [] ≡ true
unfolding match match_from
match_star_empty [] = refl
match_star_empty (g ∷ pattern) = refl

-- A literal prefix and a star match exactly the texts that begin with the prefix.
pub match_prefix :
    (prefix text : Bytes)
    → Lacks is_special prefix
    → match (prefix ++ b'*' ∷ []) text ≡ starts_with prefix text
unfolding match
match_prefix prefix text l = match_from-star prefix text l
