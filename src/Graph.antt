-- ===== src/Graph.antt =====
-- Libraries/pbxbuild/Sources/DirectedGraph.cpp: a graph as an adjacency list, and `ordered`, its
-- topological sort. An `std::unordered_set` or `std::unordered_map` is a list in the order of its
-- iteration, which the program leaves open and every statement about the graph ranges over.
pub mod Sets
pub mod Members
pub mod Paths
pub mod Loop
pub mod Rounds
pub mod Visits
pub mod Order
pub mod Cycles
use xcbuild.Prelude.{
  ℕ, zero, suc, ◌+◌, Bool, true, false, Option, none, some, List, [], ◌∷◌, ◌++◌, map, if◌then◌else◌,
  length, HasEq,
}
use Sets.{contains, add, add_all, erase, total_length}

pub record DirectedGraph {ℓ} (A : Type ℓ) : Type ℓ where
  pub nodes : List A
  pub adjacency : List (A × List A)

-- The result of looking at the children of a node: one that is in progress, one to explore first,
-- or none of either kind.
pub data Scan {ℓ} (A : Type ℓ) : Type ℓ where
  in_cycle : A → Scan A
  descend : A → Scan A
  exhausted : Scan A

-- The local variables of `ordered`.
pub record State {ℓ} (A : Type ℓ) : Type ℓ where
  pub to_explore : List A
  pub in_progress : List A
  pub explored : List A
  pub result : List A

module _ {ℓ} {A : Type ℓ} ⦃e : HasEq A⦄ where
  -- `_adjacency.find(node)`
  unfoldable pub find : A → List (A × List A) → Option (List A)
  find node [] = none
  find node ((k, children) ∷ m) = if e.same_key k node then some children else find node m

  unfoldable pub insert_adjacency : A → List A → List (A × List A) → List (A × List A)
  unfolding add_all
  insert_adjacency node adjacent [] = (node, add_all adjacent []) ∷ []
  insert_adjacency node adjacent ((k, children) ∷ m) =
      if e.same_key k node
      then (k, add_all adjacent children) ∷ m
      else (k, children) ∷ insert_adjacency node adjacent m

  unfoldable pub insert : A → List A → DirectedGraph A → DirectedGraph A
  unfolding insert_adjacency add add_all
  insert node adjacent g = record {
    nodes = add_all adjacent (add node g.nodes);
    adjacency = insert_adjacency node adjacent g.adjacency;
  }

  unfoldable pub adjacent : DirectedGraph A → A → List A
  unfolding find
  adjacent g node = elim (find node g.adjacency) [ some children ↦ children | none ↦ [] ]

  -- The `for` loop over the children.
  unfoldable pub scan : List A → List A → List A → Scan A
  unfolding contains
  scan in_progress explored [] = exhausted
  scan in_progress explored (child ∷ children) =
      if contains in_progress child
      then in_cycle child
      else if contains explored child
      then scan in_progress explored children
      else descend child

  -- The body of the `while` loop behind `inProgress.insert(node)`; `none` is `ext::nullopt`.
  unfoldable pub leave_or_descend : A → List A → Scan A → State A → Option (State A)
  unfolding add erase
  leave_or_descend node rest (in_cycle child) s = none
  leave_or_descend node rest (descend child) s =
      some (record s { to_explore = child ∷ node ∷ rest })
  leave_or_descend node rest exhausted s = some (record {
    to_explore = rest;
    in_progress = erase node s.in_progress;
    explored = add node s.explored;
    result = s.result ++ node ∷ [];
  })

  -- The body of the `while` loop, at the front of `toExplore`.
  unfoldable pub visit : DirectedGraph A → A → List A → State A → Option (State A)
  unfolding leave_or_descend scan adjacent
  visit g node rest s =
      if contains s.explored node
      then some (record s { to_explore = rest })
      else let s' = record s { in_progress = add node s.in_progress } in
        leave_or_descend node rest (scan s'.in_progress s'.explored (adjacent g node)) s'

  -- The `while` loop. The outer `none` says that the fuel ran out, the inner one is `ext::nullopt`.
  unfoldable pub explore : ℕ → DirectedGraph A → State A → Option (Option (List A))
  unfolding visit
  explore zero g s = none
  explore (suc fuel) g s = elim s.to_explore [
    | [] ↦ some (some s.result)
    | node ∷ rest ↦ elim (visit g node rest s) [ none ↦ some none | some s' ↦ explore fuel g s' ]
  ]

  -- The keys of `_adjacency`.
  abbrev pub keys : DirectedGraph A → List A
  keys g = map (λ p. p.0) g.adjacency

  abbrev pub initial : DirectedGraph A → State A
  initial g = record { to_explore = keys g; in_progress = []; explored = []; result = [] }

  -- More rounds than the loop makes.
  unfoldable pub fuel_of : DirectedGraph A → ℕ
  unfolding total_length
  fuel_of g = suc (length (keys g) + (total_length g.adjacency + total_length g.adjacency))

  unfoldable pub ordered : DirectedGraph A → Option (Option (List A))
  unfolding explore fuel_of
  ordered g = explore (fuel_of g) g (initial g)
