-- ===== src/Graph/Cycles.antt =====
-- A graph with a cycle has no topological order, so `ordered` finds every cycle.
use xcbuild.Prelude.{
  true, false, ◌||◌, ◌≡◌, refl, List, [], ◌∷◌, HasEq, arith, Bool-cases, Option-cases, inl, inr,
  Every, Option, none, some, map, if◌then◌else◌,
}
use xcbuild.Graph.Sets.{contains, add, add_all}
use xcbuild.Graph.Members.{contains-tail, IsDistinct}
use xcbuild.Graph.Paths.{Edge, Leads, edge, further, HasCycle, IsOrdered, IsSorted}
use xcbuild.Graph.Rounds.{Every-apart}
use xcbuild.Graph.Order.{Answers, cyclic, sorted, ordered-Answers}
use xcbuild.Graph.{DirectedGraph, keys, adjacent, find, ordered, insert, insert_adjacency}

module _ {ℓ} {A : Type ℓ} ⦃e : HasEq A⦄ where
  -- Every children of its elements are in the list.
  abbrev IsClosed : DirectedGraph A → List A → Type ℓ
  IsClosed g xs = (x c : A) → contains xs x ≡ true → Edge g x c → contains xs c ≡ true

  -- From a node whose children are all in a closed list, no path leaves that list.
  IsClosed-Leads :
      (g : DirectedGraph A) (xs : List A) {x z : A}
      → IsClosed g xs
      → ((c : A) → Edge g x c → contains xs c ≡ true)
      → Leads g x z
      → contains xs z ≡ true
  IsClosed-Leads g xs closed h (edge {y = y} d) = h y d
  IsClosed-Leads g xs closed h (further {y = y} {z = z} p d) =
      closed y z (IsClosed-Leads g xs closed h p) d

  IsClosed-cons :
      (g : DirectedGraph A) (x : A) (xs : List A)
      → IsClosed g xs
      → ((c : A) → Edge g x c → contains xs c ≡ true)
      → IsClosed g (x ∷ xs)
  unfolding contains
  IsClosed-cons g x xs closed h y c m d = elim (Bool-cases (e.same_key x y)) [
    | inl q ↦ contains-tail c x xs (h c (rw (← (e.same_key_iff x y).0 q) at d))
    | inr q ↦ contains-tail c x xs (closed y c (rw q at m) d)
  ]

  IsOrdered-acyclic :
      (g : DirectedGraph A) (before xs : List A) (x : A)
      → IsClosed g before
      → Every (λ y. contains before y ≡ false) xs
      → IsDistinct xs
      → IsOrdered g before xs
      → contains xs x ≡ true
      → ¬ Leads g x x
  unfolding contains
  IsOrdered-acyclic g before [] x closed apart d o m p = cc m
  IsOrdered-acyclic g before (y ∷ xs) x closed apart d o m p = elim (Bool-cases (e.same_key y x)) [
    | inl q ↦
        let same = (e.same_key_iff y x).0 q in
        let inside = IsClosed-Leads g before closed (rw same at (o.0)) p in
        cc (apart.0, inside, same)
    | inr q ↦
        IsOrdered-acyclic g (y ∷ before) xs x (IsClosed-cons g y before closed o.0)
          (Every-apart before y xs apart.1 d.0) d.1 o.1 (rw q at m) p
  ]

  find-keys :
      (m : List (A × List A)) (x : A) {children : List A}
      → find x m ≡ some children
      → contains (map (λ p. p.0) m) x ≡ true
  unfolding find contains
  find-keys [] x f = absurd (cc f)
  find-keys ((k, cs) ∷ m) x f = elim (Bool-cases (e.same_key k x)) [
    | inl q ↦ rw q refl
    | inr q ↦ rw q (find-keys m x (rw q at f))
  ]

  Edge-keys : (g : DirectedGraph A) (x c : A) → Edge g x c → contains (keys g) x ≡ true
  unfolding adjacent contains
  Edge-keys g x c d = elim (Option-cases (find x g.adjacency)) [
    | inl q ↦ absurd (ground arith)
    | inr (cs, q) ↦ find-keys g.adjacency x q
  ]

  Leads-keys : (g : DirectedGraph A) {x z : A} → Leads g x z → contains (keys g) x ≡ true
  Leads-keys g (edge {x = x} {y = y} d) = Edge-keys g x y d
  Leads-keys g (further p d) = Leads-keys g p

  -- A graph with a topological order has no cycle.
  pub IsSorted-acyclic : (g : DirectedGraph A) {result : List A} → IsSorted g result → ¬ HasCycle g
  unfolding HasCycle contains
  IsSorted-acyclic g {result} s (x, p) =
      IsOrdered-acyclic g [] result x (λ y c m d. absurd (cc m)) (Every-nil result) s.once
        s.children_first (s.complete x (Leads-keys g p)) p
    where
      Every-nil : (xs : List A) → Every (λ y. contains [] y ≡ false) xs
      Every-nil [] = tt
      Every-nil (y ∷ xs) = (refl, Every-nil xs)

  Answers-cyclic :
      (g : DirectedGraph A) {o : Option (Option (List A))}
      → Answers g o
      → HasCycle g
      → o ≡ some none
  Answers-cyclic g (cyclic _) h = refl
  Answers-cyclic g (sorted s) h = absurd (IsSorted-acyclic g s h)

  -- `ordered` returns `ext::nullopt` for every graph with a cycle.
  pub ordered_cyclic : (g : DirectedGraph A) → HasCycle g → ordered g ≡ some none
  ordered_cyclic g h = Answers-cyclic g (ordered-Answers g) h

  contains-add :
      (a : A) (xs : List A) (b : A) → contains (add a xs) b ≡ (e.same_key a b || contains xs b)
  unfolding add contains
  contains-add a xs b = ground (arith, e.same_key_iff a b)

  contains-add_all :
      (as' xs : List A) (b : A) → contains (add_all as' xs) b ≡ (contains as' b || contains xs b)
  unfolding add_all contains
  contains-add_all [] xs b = refl
  contains-add_all (a ∷ as') xs b =
      ground (arith, contains-add_all as' (add a xs) b, contains-add a xs b)

  find-insert_adjacency :
      (node : A) (children : List A) (m : List (A × List A)) (x c : A)
      → contains (elim (find x (insert_adjacency node children m)) [ some cs ↦ cs | none ↦ [] ]) c
        ≡ (if e.same_key node x
            then contains children c || contains (elim (find x m) [ some cs ↦ cs | none ↦ [] ]) c
            else contains (elim (find x m) [ some cs ↦ cs | none ↦ [] ]) c)
  unfolding find insert_adjacency contains
  find-insert_adjacency node children [] x c = ground (arith, contains-add_all children [] c)
  find-insert_adjacency node children ((k, ks) ∷ m) x c = ground (
    arith,
    contains-add_all children ks c,
    find-insert_adjacency node children m x c,
    e.same_key_iff k node,
    e.same_key_iff k x,
    e.same_key_iff node x,
  )

  -- `insert` adds the given children to those that the node has, and changes no other node's.
  pub adjacent-insert :
      (node : A) (children : List A) (g : DirectedGraph A) (x c : A)
      → contains (adjacent (insert node children g) x) c ≡ (
          if e.same_key node x
          then contains children c || contains (adjacent g x) c
          else contains (adjacent g x) c)
  unfolding adjacent insert
  adjacent-insert node children g x c = find-insert_adjacency node children g.adjacency x c
