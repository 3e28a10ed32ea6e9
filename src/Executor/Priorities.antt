-- ===== src/Executor/Priorities.antt =====
-- The chain of priorities of SimpleExecutor.cpp: an edge for each two neighbours orders all of them.
use xcbuild.Prelude.{
  nat_eq, ℕ, zero, suc, ◌+◌, ◌<◌, ◌≤◌, true, false, ◌≡◌, ◌⊎◌, inl, inr, refl, sym, ap, subst, ◌∙◌,
  none, some, List, [], ◌∷◌, ◌++◌, append_assoc, arith, ltb, Bool-cases,
}
use native.Mathlib.Decide.{dec_le}
use xcbuild.Graph.Sets.{contains}
use xcbuild.Executor.{Invocation, Numbered, next_priority}
use xcbuild.Executor.Edges.{IsIn}

-- Wherever the one stands, the other stands before it.
unfoldable pub IsBehind : ℕ → ℕ → List ℕ → Type 0
unfolding contains
IsBehind i j places = (xs ys : List ℕ) → places ≡ xs ++ i ∷ ys → contains xs j ≡ true

-- An element stands somewhere.
contains_split :
    (xs : List ℕ) (a : ℕ)
    → contains xs a ≡ true
    → (front : List ℕ) × (back : List ℕ) × (xs ≡ front ++ a ∷ back)
unfolding contains
contains_split [] a h = absurd (cc h)
contains_split (x ∷ xs) a h = elim (Bool-cases (nat_eq.same_key x a)) [
  | inl e ↦ ([], xs, ap (λ y. y ∷ xs) ((nat_eq.same_key_iff x a).0 e))
  | inr e ↦
      let (front, back, q) = contains_split xs a (ground (arith, h, e)) in
      (x ∷ front, back, ap (λ l. x ∷ l) q)
]

contains-append : (xs ys : List ℕ) (a : ℕ) → contains xs a ≡ true → contains (xs ++ ys) a ≡ true
unfolding contains
contains-append [] ys a h = absurd (cc h)
contains-append (x ∷ xs) ys a h = ground (arith, contains-append xs ys a)

IsBehind-trans :
    (k m i : ℕ) (places : List ℕ) → IsBehind k m places → IsBehind m i places → IsBehind k i places
unfolding IsBehind
IsBehind-trans k m i places km mi xs ys e =
    let (front, back, q) = contains_split xs m (km xs ys e) in
    let found =
      mi front (back ++ k ∷ ys)
        (e ∙ ap (λ l. l ++ k ∷ ys) q ∙ append_assoc front (m ∷ back) (k ∷ ys)) in
    subst (λ l. contains l i ≡ true) (sym q) (contains-append front (m ∷ back) i found)

ltb_lt : (a b : ℕ) → ltb a b ≡ true → a < b
ltb_lt a b h = ground arith

ltb_le : (a b : ℕ) → ltb a b ≡ true → a ≤ b
ltb_le a b h = ground arith

not_above : (p q : ℕ) → q ≤ p → ¬ (p < q)
not_above p q h l = omega arith

not_ltb : (p v u : ℕ) → ltb p v ≡ false → v ≡ u → u ≤ p
not_ltb p v u h e = ground arith

le_trans : (v q u : ℕ) → ltb q v ≡ false → q ≤ u → v ≤ u
le_trans v q u h l = ground arith

-- The least of the priorities above one, which an invocation has.
pub record IsNext (p : ℕ) (vs : Numbered) (q : ℕ) : Type 0 where
  pub above : p < q
  pub least : (i : ℕ) (v : Invocation) → IsIn (i, v) vs → p < v.priority → q ≤ v.priority
  pub taken : (i : ℕ) × (v : Invocation) × IsIn (i, v) vs × (v.priority ≡ q)

IsNext-skip :
    (p q i : ℕ) (v : Invocation) (vs : Numbered)
    → (p < v.priority → q ≤ v.priority)
    → IsNext p vs q
    → IsNext p ((i, v) ∷ vs) q
unfolding IsIn
IsNext-skip p q i v vs h n =
    let (k, w, m, e) = n.taken in
    record {
      above = n.above;
      least = λ j u x l. elim x [
        | inl same ↦
            let is : v.priority ≡ u.priority = ap (λ y. y.1.priority) same in
            omega (arith, h (omega arith))
        | inr x ↦ n.least j u x l
      ];
      taken = (k, w, inr m, e);
    }

IsNext-here :
    (p i : ℕ) (v : Invocation) (vs : Numbered)
    → p < v.priority
    → ((j : ℕ) (u : Invocation) → IsIn (j, u) vs → p < u.priority → v.priority ≤ u.priority)
    → IsNext p ((i, v) ∷ vs) v.priority
unfolding IsIn
IsNext-here p i v vs l h = record {
  above = l;
  least = λ j u x k. elim x [
    | inl same ↦ let is : v.priority ≡ u.priority = ap (λ y. y.1.priority) same in omega arith
    | inr x ↦ h j u x k
  ];
  taken = (i, v, inl refl, refl);
}

pub next_priority-cases :
    (p : ℕ) (vs : Numbered)
    → ((next_priority p vs ≡ none) × ((i : ℕ) (v : Invocation) → IsIn (i, v) vs → v.priority ≤ p))
      ⊎ ((q : ℕ) × (next_priority p vs ≡ some q) × IsNext p vs q)
unfolding next_priority IsIn
next_priority-cases p [] = inl (refl, λ i v x. absurd x)
next_priority-cases p ((i, v) ∷ vs) = elim (Bool-cases (ltb p v.priority)) [
  | inl y ↦ elim (next_priority-cases p vs) [
    | inl (n, all_below) ↦ inr (
      v.priority,
      rw (next_priority, y, n) refl,
      IsNext-here p i v vs (ltb_lt p v.priority y)
          (λ j u x l. absurd (not_above p u.priority (all_below j u x) l)),
    )
    | inr (q, e, n) ↦ elim (Bool-cases (ltb q v.priority)) [
      | inl z ↦ inr (
        q,
        rw (next_priority, y, e, z) refl,
        IsNext-skip p q i v vs (λ l. ltb_le q v.priority z) n,
      )
      | inr z ↦ inr (
        v.priority,
        rw (next_priority, y, e, z) refl,
        IsNext-here p i v vs (ltb_lt p v.priority y)
            (λ j u x l. le_trans v.priority q u.priority z (n.least j u x l)),
      )
    ]
  ]
  | inr y ↦ elim (next_priority-cases p vs) [
    | inl (n, all_below) ↦ inl (
      rw (next_priority, y) n,
      λ j u x. elim x [
        | inl same ↦
            let is : v.priority ≡ u.priority = ap (λ z. z.1.priority) same in
            not_ltb p v.priority u.priority y is
        | inr x ↦ all_below j u x
      ],
    )
    | inr (q, e, n) ↦ inr (
      q,
      rw (next_priority, y) e,
      IsNext-skip p q i v vs
          (λ l. absurd (not_above p v.priority (not_ltb p v.priority v.priority y refl) l)) n,
    )
  ]
]

-- Where each invocation stands before those of the next priority, it stands before all of a higher one.
module _ (all : Numbered) (places : List ℕ)
    (neighbours : (i k : ℕ) (v w : Invocation)
      → IsIn (i, v) all
      → IsIn (k, w) all
      → next_priority v.priority all ≡ some w.priority
      → IsBehind k i places) where
  -- By the distance of the two priorities.
  IsBehind-within :
      (n i k : ℕ) (v w : Invocation)
      → IsIn (i, v) all
      → IsIn (k, w) all
      → v.priority < w.priority
      → w.priority ≤ v.priority + n
      → IsBehind k i places
  IsBehind-within zero i k v w h h' l b = absurd (omega arith)
  IsBehind-within (suc n) i k v w h h' l b = elim (next_priority-cases v.priority all) [
    | inl (e, all_below) ↦ absurd (not_above v.priority w.priority (all_below k w h') l)
    | inr (q, e, next) ↦
        let (m, u, h'', is) = next.taken in
        let above = next.above in
        let first = neighbours i m v u h h'' (e ∙ ap some (sym is)) in
        elim (dec_le w.priority q) [
          | yes y ↦
              let same : q ≡ w.priority = omega (arith, next.least k w h' l) in
              neighbours i k v w h h' (e ∙ ap some same)
          | no y ↦
              IsBehind-trans k m i places
                (IsBehind-within n m k u w h'' h' (omega (arith, is)) (omega (arith, is, above)))
                first
        ]
  ]

  pub IsBehind-priority :
      (i k : ℕ) (v w : Invocation)
      → IsIn (i, v) all
      → IsIn (k, w) all
      → v.priority < w.priority
      → IsBehind k i places
  IsBehind-priority i k v w h h' l = IsBehind-within w.priority i k v w h h' l (omega arith)
