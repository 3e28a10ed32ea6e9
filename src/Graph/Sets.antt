-- ===== src/Graph/Sets.antt =====
-- `std::unordered_set` as the list of its elements.
use xcbuild.Prelude.{ℕ, suc, ◌+◌, Bool, false, ◌||◌, List, [], ◌∷◌, if◌then◌else◌, HasEq, length}

-- One for each key, and one for each entry of the sets behind the keys.
unfoldable pub total_length {ℓ} : {A : Type ℓ} → List (A × List A) → ℕ
total_length [] = 0
total_length ((k, xs) ∷ m) = suc (length xs + total_length m)

module _ {ℓ} {A : Type ℓ} ⦃e : HasEq A⦄ where
  unfoldable pub contains : List A → A → Bool
  contains [] a = false
  contains (x ∷ xs) a = e.same_key x a || contains xs a

  -- `insert` of one element.
  unfoldable pub add : A → List A → List A
  unfolding contains
  add a xs = if contains xs a then xs else a ∷ xs

  -- `insert` of a range.
  unfoldable pub add_all : List A → List A → List A
  unfolding add
  add_all [] xs = xs
  add_all (a ∷ as') xs = add_all as' (add a xs)

  -- `erase` of the one element that is equal to `a`.
  unfoldable pub erase : A → List A → List A
  erase a [] = []
  erase a (x ∷ xs) = if e.same_key x a then xs else x ∷ erase a xs
