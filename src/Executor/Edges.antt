-- ===== src/Executor/Edges.antt =====
-- The edges and the nodes of the graph that SimpleExecutor.cpp builds.
use xcbuild.Prelude.{
  nat_eq, ℕ, Bool, true, false, ◌||◌, ◌≡◌, ◌⊎◌, inl, inr, refl, sym, ap, subst, ◌∙◌, Option, none,
  some, List, [], ◌∷◌, ◌==◌, ==_iff, arith, if◌then◌else◌,
}
use xcbuild.Prelude.Text.{Bytes}
use xcbuild.Graph.Sets.{contains}
use xcbuild.Graph.Paths.{Edge}
use xcbuild.Graph.Cycles.{adjacent-insert}
use xcbuild.Graph.{DirectedGraph, insert, insert_adjacency, keys}
use xcbuild.Executor.{
  Invocation, Numbered, OutputMap, find_output, next_priority, add_edges, add_later, add_invocation,
  build_graph,
}

abbrev Graph : Type 0
Graph = DirectedGraph ℕ

-- A graph has the edges and the keys of another.
pub record Extends (g h : Graph) : Type 0 where
  pub edges : (i j : ℕ) → Edge g i j → Edge h i j
  pub nodes : (i : ℕ) → contains (keys g) i ≡ true → contains (keys h) i ≡ true

pub Extends-refl : (g : Graph) → Extends g g
Extends-refl g = record { edges = λ i j e. e; nodes = λ i e. e }

pub Extends-trans : {g h k : Graph} → Extends g h → Extends h k → Extends g k
Extends-trans x y = record {
  edges = λ i j e. y.edges i j (x.edges i j e);
  nodes = λ i e. y.nodes i (x.nodes i e);
}

keys-insert_adjacency :
    (n : ℕ) (cs : List ℕ) (nodes : List ℕ) (m : List (ℕ × List ℕ)) (i : ℕ)
    → contains (keys (record { nodes = nodes; adjacency = insert_adjacency n cs m })) i
      ≡ (n == i || contains (keys (record { nodes = nodes; adjacency = m })) i)
unfolding insert_adjacency contains
keys-insert_adjacency n cs nodes [] i = refl
keys-insert_adjacency n cs nodes ((k, ks) ∷ m) i =
    ground (arith, keys-insert_adjacency n cs nodes m i, ==_iff k n, ==_iff k i, ==_iff n i)

pub Extends-insert : (n : ℕ) (cs : List ℕ) (g : Graph) → Extends g (insert n cs g)
unfolding insert
Extends-insert n cs g = record {
  edges = λ i j e. ground (arith, adjacent-insert n cs g i j);
  nodes = λ i e. ground (arith, keys-insert_adjacency n cs g.nodes g.adjacency i);
}

pub insert-Edge : (n j : ℕ) (g : Graph) → Edge (insert n (j ∷ []) g) n j
unfolding contains
insert-Edge n j g = ground (arith, adjacent-insert n (j ∷ []) g n j, ==_iff n n, ==_iff j j)

pub insert-node : (n : ℕ) (cs : List ℕ) (g : Graph) → contains (keys (insert n cs g)) n ≡ true
unfolding insert
insert-node n cs g = ground (arith, keys-insert_adjacency n cs g.nodes g.adjacency n, ==_iff n n)

unfoldable pub IsIn : {A : Type 0} → A → List A → Type 0
IsIn x [] = ⊥
IsIn x (y ∷ ys) = (y ≡ x) ⊎ IsIn x ys

abbrev edge_to : OutputMap → ℕ → Bytes → Graph → Graph
edge_to m i path g = elim (find_output path m) [ none ↦ g | some j ↦ insert i (j ∷ []) g ]

Extends-option :
    (r : Option ℕ) (g : Graph) (f : ℕ → Graph)
    → ((j : ℕ) → Extends g (f j))
    → Extends g (elim r [ none ↦ g | some j ↦ f j ])
Extends-option none g f h = Extends-refl g
Extends-option (some j) g f h = h j

Extends-edge_to :
    (m : OutputMap) (i : ℕ) (path : Bytes) (g : Graph) → Extends g (edge_to m i path g)
Extends-edge_to m i path g =
    Extends-option (find_output path m) g (λ j. insert i (j ∷ []) g)
      (λ j. Extends-insert i (j ∷ []) g)

edge_to-Edge :
    (m : OutputMap) (i j : ℕ) (path : Bytes) (g : Graph)
    → find_output path m ≡ some j
    → Edge (edge_to m i path g) i j
edge_to-Edge m i j path g h = rw (edge_to, h) (insert-Edge i j g)

pub Extends-add_edges :
    (m : OutputMap) (i : ℕ) (paths : List Bytes) (g : Graph) → Extends g (add_edges m i paths g)
unfolding add_edges
Extends-add_edges m i [] g = Extends-refl g
Extends-add_edges m i (path ∷ paths) g =
    Extends-trans (Extends-edge_to m i path g) (Extends-add_edges m i paths (edge_to m i path g))

pub add_edges-Edge :
    (m : OutputMap) (i j : ℕ) (path : Bytes) (paths : List Bytes) (g : Graph)
    → IsIn path paths
    → find_output path m ≡ some j
    → Edge (add_edges m i paths g) i j
unfolding add_edges IsIn
add_edges-Edge m i j path [] g h f = absurd h
add_edges-Edge m i j path (x ∷ paths) g (inl e) f =
    (Extends-add_edges m i paths (edge_to m i x g)).edges i j
      (edge_to-Edge m i j x g (subst (λ y. find_output y m ≡ some j) (sym e) f))
add_edges-Edge m i j path (x ∷ paths) g (inr h) f =
    add_edges-Edge m i j path paths (edge_to m i x g) h f

abbrev later : ℕ → ℕ → ℕ → Invocation → Graph → Graph
later i q k v g = if v.priority == q then insert k (i ∷ []) g else g

Extends-if : (b : Bool) (g h : Graph) → Extends g h → Extends g (if b then h else g)
Extends-if true g h x = x
Extends-if false g h x = Extends-refl g

pub Extends-add_later : (i q : ℕ) (vs : Numbered) (g : Graph) → Extends g (add_later i q vs g)
unfolding add_later
Extends-add_later i q [] g = Extends-refl g
Extends-add_later i q ((k, v) ∷ vs) g =
    Extends-trans
      (Extends-if (v.priority == q) g (insert k (i ∷ []) g) (Extends-insert k (i ∷ []) g))
      (Extends-add_later i q vs (later i q k v g))

pub add_later-Edge :
    (i q k : ℕ) (v : Invocation) (vs : Numbered) (g : Graph)
    → IsIn (k, v) vs
    → v.priority ≡ q
    → Edge (add_later i q vs g) k i
unfolding add_later IsIn
add_later-Edge i q k v [] g h p = absurd h
add_later-Edge i q k v ((n, x) ∷ vs) g (inl e) p =
    (Extends-add_later i q vs (later i q n x g)).edges k i (
      rw ((==_iff x.priority q).1 (ap (λ y. y.1.priority) e ∙ p))
        (subst (λ y. Edge (insert n (i ∷ []) g) y i) (ap (λ y. y.0) e) (insert-Edge n i g)))
add_later-Edge i q k v ((n, x) ∷ vs) g (inr h) p = add_later-Edge i q k v vs (later i q n x g) h p

-- What an invocation reads.
pub data Reads (v : Invocation) (path : Bytes) : Type 0 where
  input : IsIn path v.inputs → Reads v path
  phony : IsIn path v.phony_inputs → Reads v path
  dependency : IsIn path v.input_dependencies → Reads v path

-- The graph of a round, up to the edges of the priorities.
abbrev produced : OutputMap → ℕ → Invocation → Graph → Graph
produced m i v g =
    add_edges m i v.input_dependencies
      (add_edges m i v.phony_inputs (add_edges m i v.inputs (insert i [] g)))

Extends-produced :
    (m : OutputMap) (i : ℕ) (v : Invocation) (g : Graph)
    → Extends (insert i [] g) (produced m i v g)
Extends-produced m i v g = Extends-trans (Extends-add_edges m i v.inputs (insert i [] g)) (
    Extends-trans (Extends-add_edges m i v.phony_inputs _)
      (Extends-add_edges m i v.input_dependencies _))

produced-Edge :
    (m : OutputMap) (i j : ℕ) (v : Invocation) (path : Bytes) (g : Graph)
    → Reads v path
    → find_output path m ≡ some j
    → Edge (produced m i v g) i j
produced-Edge m i j v path g (input h) f =
    (Extends-trans (Extends-add_edges m i v.phony_inputs _)
        (Extends-add_edges m i v.input_dependencies _)).edges
      i j (add_edges-Edge m i j path v.inputs (insert i [] g) h f)
produced-Edge m i j v path g (phony h) f =
    (Extends-add_edges m i v.input_dependencies _).edges i j
      (add_edges-Edge m i j path v.phony_inputs (add_edges m i v.inputs (insert i [] g)) h f)
produced-Edge m i j v path g (dependency h) f =
    add_edges-Edge m i j path v.input_dependencies
      (add_edges m i v.phony_inputs (add_edges m i v.inputs (insert i [] g))) h f

Extends-later :
    (m : OutputMap) (all : Numbered) (i : ℕ) (v : Invocation) (g : Graph)
    → Extends (produced m i v g) (add_invocation m all i v g)
unfolding add_invocation
Extends-later m all i v g =
    Extends-option (next_priority v.priority all) (produced m i v g)
      (λ q. add_later i q all (produced m i v g))
      (λ q. Extends-add_later i q all (produced m i v g))

Extends-add_invocation :
    (m : OutputMap) (all : Numbered) (i : ℕ) (v : Invocation) (g : Graph)
    → Extends g (add_invocation m all i v g)
Extends-add_invocation m all i v g =
    Extends-trans (Extends-insert i [] g)
      (Extends-trans (Extends-produced m i v g) (Extends-later m all i v g))

Extends-build_graph :
    (m : OutputMap) (all vs : Numbered) (g : Graph) → Extends g (build_graph m all vs g)
unfolding build_graph
Extends-build_graph m all [] g = Extends-refl g
Extends-build_graph m all ((i, v) ∷ vs) g =
    Extends-trans (Extends-add_invocation m all i v g)
      (Extends-build_graph m all vs (add_invocation m all i v g))

-- What the round of an invocation puts in is in the graph in the end.
module _ (m : OutputMap) (all : Numbered) (i : ℕ) (v : Invocation) where
  built :
      (P : Graph → Type 0) (vs : Numbered) (g : Graph)
      → ((g h : Graph) → Extends g h → P g → P h)
      → ((g : Graph) → P (add_invocation m all i v g))
      → IsIn (i, v) vs
      → P (build_graph m all vs g)
  unfolding build_graph IsIn
  built P [] g up one h = absurd h
  built P ((k, x) ∷ vs) g up one (inl e) =
      up _ _ (Extends-build_graph m all vs (add_invocation m all k x g))
        (subst (λ y. P (add_invocation m all y.0 y.1 g)) (sym e) (one g))
  built P ((k, x) ∷ vs) g up one (inr h) = built P vs (add_invocation m all k x g) up one h

  pub build_graph-node :
      (vs : Numbered) (g : Graph)
      → IsIn (i, v) vs
      → contains (keys (build_graph m all vs g)) i ≡ true
  build_graph-node vs g =
      built (λ g. contains (keys g) i ≡ true) vs g (λ g h x. x.nodes i)
        (λ g.
          (Extends-trans (Extends-produced m i v g) (Extends-later m all i v g)).nodes i
            (insert-node i [] g))

  pub build_graph-producer :
      (path : Bytes) (j : ℕ) (vs : Numbered) (g : Graph)
      → Reads v path
      → find_output path m ≡ some j
      → IsIn (i, v) vs
      → Edge (build_graph m all vs g) i j
  build_graph-producer path j vs g r f =
      built (λ g. Edge g i j) vs g (λ g h x. x.edges i j)
        (λ g. (Extends-later m all i v g).edges i j (produced-Edge m i j v path g r f))

  pub build_graph-priority :
      (k : ℕ) (w : Invocation) (vs : Numbered) (g : Graph)
      → next_priority v.priority all ≡ some w.priority
      → IsIn (k, w) all
      → IsIn (i, v) vs
      → Edge (build_graph m all vs g) k i
  unfolding add_invocation
  build_graph-priority k w vs g n h =
      built (λ g. Edge g k i) vs g (λ g h x. x.edges k i)
        (λ g.
          rw (add_invocation, n) (add_later-Edge i w.priority k w all (produced m i v g) h refl))
