-- ===== src/Graph/Members.antt =====
-- Laws of the sets of Graph/Sets, and a count of the elements that a set does not hold yet.
use xcbuild.Prelude.{
  ℕ, ◌+◌, ◌≤◌, ◌<◌, true, false, ◌||◌, ◌≡◌, refl, List, [], ◌∷◌, ◌++◌, if◌then◌else◌, HasEq, length,
  arith,
}
use xcbuild.Graph.Sets.{contains, add, erase}

module _ {ℓ} {A : Type ℓ} ⦃e : HasEq A⦄ where
  pub same_key_refl : (a : A) → e.same_key a a ≡ true
  same_key_refl a = (e.same_key_iff a a).1 refl

  pub contains-head : (a : A) (xs : List A) → contains (a ∷ xs) a ≡ true
  unfolding contains
  contains-head a xs = ground (arith, same_key_refl a)

  pub contains-tail : (a x : A) (xs : List A) → contains xs a ≡ true → contains (x ∷ xs) a ≡ true
  unfolding contains
  contains-tail a x xs h = ground arith

  pub contains-append :
      (xs ys : List A) (a : A) → contains (xs ++ ys) a ≡ (contains xs a || contains ys a)
  unfolding contains
  contains-append [] ys a = refl
  contains-append (x ∷ xs) ys a = ground (arith, contains-append xs ys a)

  pub add_absent : (a : A) (xs : List A) → contains xs a ≡ false → add a xs ≡ a ∷ xs
  unfolding add
  add_absent a xs h = rw h

  pub add_present : (a : A) (xs : List A) → contains xs a ≡ true → add a xs ≡ xs
  unfolding add
  add_present a xs h = rw h

  pub erase_head : (a : A) (xs : List A) → erase a (a ∷ xs) ≡ xs
  unfolding erase
  erase_head a xs = rw (same_key_refl a)

  -- No element stands twice.
  abbrev pub IsDistinct : List A → Type 0
  IsDistinct [] = Unit
  IsDistinct (x ∷ xs) = (contains xs x ≡ false) × IsDistinct xs

  pub IsDistinct-concat :
      (xs : List A) (a : A) → IsDistinct xs → contains xs a ≡ false → IsDistinct (xs ++ a ∷ [])
  unfolding contains
  IsDistinct-concat [] a d h = (refl, tt)
  IsDistinct-concat (x ∷ xs) a d h = (
    ground (arith, contains-append xs (a ∷ []) x, e.same_key_iff a x, e.same_key_iff x a),
    IsDistinct-concat xs a d.1 (ground arith),
  )

  -- How many elements of `universe` the set does not hold.
  unfoldable pub fresh : List A → List A → ℕ
  fresh xs [] = 0
  fresh xs (u ∷ universe) = (if contains xs u then 0 else 1) + fresh xs universe

  pub fresh_same :
      (xs ys : List A)
      → ((a : A) → contains xs a ≡ contains ys a)
      → (universe : List A) → fresh xs universe ≡ fresh ys universe
  unfolding fresh
  fresh_same xs ys h [] = refl
  fresh_same xs ys h (u ∷ universe) = rw (h u, fresh_same xs ys h universe)

  pub fresh-le : (a : A) (xs universe : List A) → fresh (a ∷ xs) universe ≤ fresh xs universe
  unfolding fresh contains
  fresh-le a xs [] = omega arith
  fresh-le a xs (u ∷ universe) = ground (arith, fresh-le a xs universe)

  pub fresh-lt :
      (a : A) (xs universe : List A)
      → contains universe a ≡ true
      → contains xs a ≡ false
      → fresh (a ∷ xs) universe < fresh xs universe
  unfolding fresh contains
  fresh-lt a xs [] m h = absurd (cc m)
  fresh-lt a xs (u ∷ universe) m h = ground (
    arith,
    fresh-lt a xs universe,
    fresh-le a xs universe,
    e.same_key_iff u a,
    e.same_key_iff a u,
  )

  pub fresh-le_length : (xs universe : List A) → fresh xs universe ≤ length universe
  unfolding fresh
  fresh-le_length xs [] = omega arith
  fresh-le_length xs (u ∷ universe) = ground (arith, fresh-le_length xs universe)
