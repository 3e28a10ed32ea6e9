-- ===== src/Graph/Paths.antt =====
-- Edges, paths and cycles of a graph, and what a topological order is.
use xcbuild.Prelude.{true, ◌||◌, ◌≡◌, inl, inr, List, [], ◌∷◌, ◌++◌, HasEq, arith, Bool-cases}
use xcbuild.Graph.Sets.{contains}
use xcbuild.Graph.Members.{IsDistinct}
use xcbuild.Graph.{DirectedGraph, adjacent, keys}

module _ {ℓ} {A : Type ℓ} ⦃e : HasEq A⦄ where
  -- An edge from `x` to `y`.
  abbrev pub Edge : DirectedGraph A → A → A → Type 0
  Edge g x y = contains (adjacent g x) y ≡ true

  -- A path of one edge or more.
  pub data Leads (g : DirectedGraph A) : A → A → Type ℓ where
    edge : {x y : A} → Edge g x y → Leads g x y
    further : {x y z : A} → Leads g x y → Edge g y z → Leads g x z

  unfoldable pub HasCycle : DirectedGraph A → Type ℓ
  HasCycle g = (x : A) × Leads g x x

  -- Each element but the last is a child of the one behind it.
  abbrev pub IsChain : DirectedGraph A → List A → Type 0
  IsChain g [] = Unit
  IsChain g (x ∷ []) = Unit
  IsChain g (y ∷ x ∷ xs) = Edge g x y × IsChain g (x ∷ xs)

  pub IsChain-Leads :
      (g : DirectedGraph A) (y : A) (xs : List A) (x : A)
      → IsChain g (y ∷ xs)
      → contains xs x ≡ true
      → Leads g x y
  unfolding contains
  IsChain-Leads g y [] x c h = absurd (cc h)
  IsChain-Leads g y (z ∷ xs) x c h = elim (Bool-cases (e.same_key z x)) [
    | inl q ↦ rw (← (e.same_key_iff z x).0 q) (edge (c.0))
    | inr q ↦ further (IsChain-Leads g z xs x c.1 (rw q at h)) (c.0)
  ]

  -- A child in progress closes a cycle.
  pub IsChain-HasCycle :
      (g : DirectedGraph A) (y : A) (xs : List A) (x : A)
      → IsChain g (y ∷ xs)
      → contains (y ∷ xs) x ≡ true
      → Edge g y x
      → HasCycle g
  unfolding contains HasCycle
  IsChain-HasCycle g y xs x c h back = elim (Bool-cases (e.same_key y x)) [
    | inl q ↦ (y, edge (rw (← (e.same_key_iff y x).0 q) at back))
    | inr q ↦ (x, further (IsChain-Leads g y xs x c (rw q at h)) back)
  ]

  -- Every child of an element stands before it, or in `before`.
  abbrev pub IsOrdered : DirectedGraph A → List A → List A → Type ℓ
  IsOrdered g before [] = Unit
  IsOrdered g before (x ∷ xs) =
      ((c : A) → Edge g x c → contains before c ≡ true) × IsOrdered g (x ∷ before) xs

  pub IsOrdered-concat :
      (g : DirectedGraph A) (before xs : List A) (x : A)
      → IsOrdered g before xs
      → ((c : A) → Edge g x c → (contains xs c || contains before c) ≡ true)
      → IsOrdered g before (xs ++ x ∷ [])
  unfolding contains
  IsOrdered-concat g before [] x o h = (h, tt)
  IsOrdered-concat g before (y ∷ xs) x o h =
      (o.0, IsOrdered-concat g (y ∷ before) xs x o.1 (λ c k. ground (arith, h c k)))

  -- Every the nodes that the adjacency list names.
  abbrev pub universe : List (A × List A) → List A
  universe [] = []
  universe ((k, children) ∷ m) = k ∷ (children ++ universe m)

  -- A topological order of the graph, children first: it has every key, only nodes of the graph,
  -- no node twice, and each node behind all of its children.
  pub record IsSorted (g : DirectedGraph A) (result : List A) : Type ℓ where
    pub complete : (k : A) → contains (keys g) k ≡ true → contains result k ≡ true
    pub sound : (k : A) → contains result k ≡ true → contains (universe g.adjacency) k ≡ true
    pub once : IsDistinct result
    pub children_first : IsOrdered g [] result
