-- ===== src/Executor/Needs.antt =====
-- Why one invocation has to wait for another in SimpleExecutor.cpp: the edges of its graph are these
-- reasons and no others.
use xcbuild.Prelude.{
  nat_eq, ℕ, ◌<◌, ◌≡◌, inl, inr, refl, sym, subst, ◌∙◌, Option, some, List, [], ◌∷◌, ◌==◌, ==_iff,
  arith, Bool-cases, Option-cases,
}
use xcbuild.Prelude.Text.{Bytes}
use xcbuild.Graph.Sets.{contains}
use xcbuild.Graph.Paths.{Edge, Leads, edge, further}
use xcbuild.Graph.Cycles.{adjacent-insert}
use xcbuild.Graph.{DirectedGraph, insert, adjacent}
use xcbuild.Executor.{
  Invocation, Numbered, OutputMap, find_output, add_edges, add_later, add_invocation, build_graph,
}
use xcbuild.Executor.Edges.{IsIn, Reads, input, phony, dependency}
use xcbuild.Executor.Priorities.{next_priority-cases}

-- What one reads the other is the producer of, or the other is of a lower priority.
pub data Needs (all : Numbered) (produces : Bytes → Option ℕ) (i j : ℕ) : Type 0 where
  reads :
      (v : Invocation) (path : Bytes)
      → IsIn (i, v) all
      → Reads v path
      → produces path ≡ some j
      → Needs all produces i j
  follows :
      (v w : Invocation)
      → IsIn (i, v) all
      → IsIn (j, w) all
      → w.priority < v.priority
      → Needs all produces i j

-- One invocation waits for another, by way of others.
pub data Waits (all : Numbered) (produces : Bytes → Option ℕ) : ℕ → ℕ → Type 0 where
  needs : {i j : ℕ} → Needs all produces i j → Waits all produces i j
  through : {i j k : ℕ} → Waits all produces i j → Needs all produces j k → Waits all produces i k

module _ (all : Numbered) (m : OutputMap) where
  abbrev Needed : ℕ → ℕ → Type 0
  Needed = Needs all (λ path. find_output path m)

  abbrev AreNeeds : DirectedGraph ℕ → Type 0
  AreNeeds g = (i j : ℕ) → Edge g i j → Needed i j

  insert-AreNeeds :
      (i j : ℕ) (g : DirectedGraph ℕ) → Needed i j → AreNeeds g → AreNeeds (insert i (j ∷ []) g)
  unfolding contains
  insert-AreNeeds i j g n h x y e = elim (Bool-cases (contains (adjacent g x) y)) [
    | inl old ↦ h x y old
    | inr new ↦
        let is : (i ≡ x) × (j ≡ y) =
          ground (arith, adjacent-insert i (j ∷ []) g x y, ==_iff i x, ==_iff j y) in
        subst (λ a. Needed a y) is.0 (subst (Needed i) is.1 n)
  ]

  node-AreNeeds : (i : ℕ) (g : DirectedGraph ℕ) → AreNeeds g → AreNeeds (insert i [] g)
  unfolding contains
  node-AreNeeds i g h x y e = h x y (ground (arith, adjacent-insert i [] g x y))

  add_edges-AreNeeds :
      (i : ℕ) (v : Invocation) (paths : List Bytes) (g : DirectedGraph ℕ)
      → IsIn (i, v) all
      → ((path : Bytes) → IsIn path paths → Reads v path)
      → AreNeeds g
      → AreNeeds (add_edges m i paths g)
  unfolding add_edges IsIn
  add_edges-AreNeeds i v [] g h r n = n
  add_edges-AreNeeds i v (path ∷ paths) g h r n = elim (Option-cases (find_output path m)) [
    | inl e ↦ rw (add_edges, e) (add_edges-AreNeeds i v paths g h (λ p x. r p (inr x)) n)
    | inr (j, e) ↦
        rw (add_edges, e)
          (add_edges-AreNeeds i v paths (insert i (j ∷ []) g) h (λ p x. r p (inr x))
            (insert-AreNeeds i j g (reads v path h (r path (inl refl)) e) n))
  ]

  add_later-AreNeeds :
      (i q : ℕ) (v : Invocation) (vs : Numbered) (g : DirectedGraph ℕ)
      → IsIn (i, v) all
      → v.priority < q
      → ((k : ℕ) (w : Invocation) → IsIn (k, w) vs → IsIn (k, w) all)
      → AreNeeds g
      → AreNeeds (add_later i q vs g)
  unfolding add_later IsIn
  add_later-AreNeeds i q v [] g h l sub n = n
  add_later-AreNeeds i q v ((k, w) ∷ vs) g h l sub n = elim (Bool-cases (w.priority == q)) [
    | inl y ↦
        let is = (==_iff w.priority q).0 y in
        rw (add_later, y)
          (add_later-AreNeeds i q v vs (insert k (i ∷ []) g) h l (λ k w x. sub k w (inr x))
            (insert-AreNeeds k i g
              (follows w v (sub k w (inl refl)) h (subst (λ p. v.priority < p) (sym is) l)) n))
    | inr y ↦ rw (add_later, y) (add_later-AreNeeds i q v vs g h l (λ k w x. sub k w (inr x)) n)
  ]

  add_invocation-AreNeeds :
      (i : ℕ) (v : Invocation) (g : DirectedGraph ℕ)
      → IsIn (i, v) all
      → AreNeeds g
      → AreNeeds (add_invocation m all i v g)
  unfolding add_invocation
  add_invocation-AreNeeds i v g h n =
      let produced =
        add_edges-AreNeeds i v v.input_dependencies _ h (λ p x. dependency x)
          (add_edges-AreNeeds i v v.phony_inputs _ h (λ p x. phony x)
            (add_edges-AreNeeds i v v.inputs _ h (λ p x. input x) (node-AreNeeds i g n))) in
      elim (next_priority-cases v.priority all) [
        | inl (e, _) ↦ rw (add_invocation, e) produced
        | inr (q, e, next) ↦
            rw (add_invocation, e)
              (add_later-AreNeeds i q v all _ h next.above (λ k w x. x) produced)
      ]

  pub build_graph-AreNeeds :
      (vs : Numbered) (g : DirectedGraph ℕ)
      → ((k : ℕ) (w : Invocation) → IsIn (k, w) vs → IsIn (k, w) all)
      → AreNeeds g
      → AreNeeds (build_graph m all vs g)
  unfolding build_graph IsIn
  build_graph-AreNeeds [] g sub n = n
  build_graph-AreNeeds ((i, v) ∷ vs) g sub n =
      build_graph-AreNeeds vs (add_invocation m all i v g) (λ k w x. sub k w (inr x))
        (add_invocation-AreNeeds i v g (sub i v (inl refl)) n)

pub Needs-same :
    (all : Numbered) (p q : Bytes → Option ℕ)
    → ((path : Bytes) → p path ≡ q path)
    → {i j : ℕ} → Needs all p i j
    → Needs all q i j
Needs-same all p q h (reads v path x r e) = reads v path x r (sym (h path) ∙ e)
Needs-same all p q h (follows v w x y l) = follows v w x y l

-- A path of a graph of such edges is a chain of waits.
pub Leads-Waits :
    (all : Numbered) (produces : Bytes → Option ℕ) (g : DirectedGraph ℕ)
    → ((i j : ℕ) → Edge g i j → Needs all produces i j)
    → {i j : ℕ} → Leads g i j
    → Waits all produces i j
Leads-Waits all produces g n (edge e) = needs (n _ _ e)
Leads-Waits all produces g n (further l e) = through (Leads-Waits all produces g n l) (n _ _ e)
