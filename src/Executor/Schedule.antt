-- ===== src/Executor/Schedule.antt =====
-- The order of `SortInvocations`: the producers of what an invocation reads stand before it.
use xcbuild.Prelude.{
  nat_eq, ℕ, ◌<◌, Bool, true, false, ◌||◌, ◌≡◌, refl, ap, subst, ◌∙◌, Option, none, some, List, [],
  ◌∷◌, ◌++◌, arith, if◌then◌else◌,
}
use xcbuild.Prelude.Text.{Bytes, equal, bytes_eq}
use xcbuild.Graph.Sets.{contains}
use xcbuild.Graph.Members.{IsDistinct}
use xcbuild.Graph.Paths.{Edge, HasCycle, IsOrdered, IsSorted}
use xcbuild.Graph.Order.{Answers, cyclic, sorted, ordered-Answers}
use xcbuild.Graph.{DirectedGraph, ordered, adjacent, find}
use xcbuild.Executor.{
  Invocation, Numbered, OutputMap, insert_output, find_output, insert_outputs, output_map,
  invocation_graph, sort_places,
}
use xcbuild.Executor.Needs.{Needs, Waits, Needs-same, build_graph-AreNeeds, Leads-Waits}
use xcbuild.Executor.Priorities.{IsBehind, IsBehind-priority}
use xcbuild.Executor.Edges.{
  IsIn, Reads, build_graph-node, build_graph-producer, build_graph-priority,
}

-- The first invocation that has the path among its outputs.
unfoldable pub producer : Bytes → Numbered → Option ℕ
unfolding contains
producer path [] = none
producer path ((i, v) ∷ vs) = if contains v.outputs path then some i else producer path vs

or_else : Option ℕ → Option ℕ → Option ℕ
or_else none r = r
or_else (some j) r = some j

or_else-none : (r : Option ℕ) → r ≡ or_else r none
unfolding or_else
or_else-none none = refl
or_else-none (some j) = refl

or_else-some :
    (r p : Option ℕ) (b : Bool) (i : ℕ)
    → or_else (or_else r (if b then some i else none)) p ≡ or_else r (if b then some i else p)
unfolding or_else
or_else-some (some j) p b i = refl
or_else-some none p true i = refl
or_else-some none p false i = refl

either_some :
    (a b : Bool) (i : ℕ)
    → (if a then some i else if b then some i else none) ≡ (if a || b then some i else none)
either_some true b i = refl
either_some false b i = refl

find_output-insert_output :
    (path k : Bytes) (i : ℕ) (m : OutputMap)
    → find_output path (insert_output k i m)
      ≡ or_else (find_output path m) (if equal k path then some i else none)
unfolding find_output insert_output or_else
find_output-insert_output path k i [] = refl
find_output-insert_output path k i ((n, j) ∷ m) = ground (
  arith,
  find_output-insert_output path k i m,
  bytes_eq.same_key_iff n k,
  bytes_eq.same_key_iff n path,
  bytes_eq.same_key_iff k path,
)

find_output-insert_outputs :
    (path : Bytes) (ks : List Bytes) (i : ℕ) (m : OutputMap)
    → find_output path (insert_outputs ks i m)
      ≡ or_else (find_output path m) (if contains ks path then some i else none)
unfolding insert_outputs contains or_else
find_output-insert_outputs path [] i m = or_else-none (find_output path m)
find_output-insert_outputs path (k ∷ ks) i m =
    find_output-insert_outputs path ks i (insert_output k i m)
    ∙ ap (λ r. or_else r (if contains ks path then some i else none))
        (find_output-insert_output path k i m)
    ∙ or_else-some (find_output path m) (if contains ks path then some i else none) (equal k path) i
    ∙ ap (or_else (find_output path m)) (either_some (equal k path) (contains ks path) i)

find_output-output_map :
    (path : Bytes) (vs : Numbered) (m : OutputMap)
    → find_output path (output_map vs m) ≡ or_else (find_output path m) (producer path vs)
unfolding output_map producer or_else
find_output-output_map path [] m = or_else-none (find_output path m)
find_output-output_map path ((i, v) ∷ vs) m =
    find_output-output_map path vs (insert_outputs v.outputs i m)
    ∙ ap (λ r. or_else r (producer path vs)) (find_output-insert_outputs path v.outputs i m)
    ∙ or_else-some (find_output path m) (producer path vs) (contains v.outputs path) i

IsOrdered-before :
    (g : DirectedGraph ℕ) (before xs ys : List ℕ) (i j : ℕ)
    → IsOrdered g before (xs ++ i ∷ ys)
    → Edge g i j
    → (contains xs j || contains before j) ≡ true
unfolding contains
IsOrdered-before g before [] ys i j o e = o.0 j e
IsOrdered-before g before (x ∷ xs) ys i j o e =
    ground (arith, IsOrdered-before g (x ∷ before) xs ys i j o.1 e)

IsSorted-IsBehind :
    (g : DirectedGraph ℕ) (places : List ℕ) (i j : ℕ)
    → IsSorted g places
    → Edge g i j
    → IsBehind i j places
unfolding IsBehind contains
IsSorted-IsBehind g places i j s e xs ys q =
    ground (arith, IsOrdered-before g [] xs ys i j (subst (IsOrdered g []) q s.children_first) e)

-- A schedule of invocations has each of them once, the producer of each path that one of them reads
-- before the reader, and before each all those of a lower priority.
pub record IsSchedule (all : Numbered) (places : List ℕ) : Type 0 where
  pub complete : (i : ℕ) (v : Invocation) → IsIn (i, v) all → contains places i ≡ true
  pub once : IsDistinct places
  pub producers_first :
      (i j : ℕ) (v : Invocation) (path : Bytes)
      → IsIn (i, v) all
      → Reads v path
      → producer path all ≡ some j
      → IsBehind i j places
  pub priorities :
      (i k : ℕ) (v w : Invocation)
      → IsIn (i, v) all
      → IsIn (k, w) all
      → v.priority < w.priority
      → IsBehind k i places

-- An invocation that waits for itself, or a schedule.
pub data Schedules (all : Numbered) : Option (Option (List ℕ)) → Type 0 where
  no_schedule : (i : ℕ) → Waits all (λ path. producer path all) i i → Schedules all (some none)
  schedule : {places : List ℕ} → IsSchedule all places → Schedules all (some (some places))

-- The edges of the graph are waits.
invocation_graph-Needs :
    (all : Numbered) (i j : ℕ)
    → Edge (invocation_graph all) i j
    → Needs all (λ path. producer path all) i j
unfolding or_else find_output contains adjacent find
invocation_graph-Needs all i j e =
    let m = output_map all [] in
    Needs-same all (λ path. find_output path m) (λ path. producer path all)
      (λ path. find_output-output_map path all [])
      (build_graph-AreNeeds all m all (record { nodes = []; adjacency = [] }) (λ k w x. x)
        (λ k l x. absurd (cc x)) i j e)

IsSorted-IsSchedule :
    (all : Numbered) (places : List ℕ)
    → IsSorted (invocation_graph all) places
    → IsSchedule all places
unfolding or_else producer find_output
IsSorted-IsSchedule all places s =
    let m = output_map all [] in
    let empty : DirectedGraph ℕ = record { nodes = []; adjacency = [] } in
    record {
      complete = λ i v h. s.complete i (build_graph-node m all i v all empty h);
      once = s.once;
      producers_first = λ i j v path h r f. IsSorted-IsBehind (invocation_graph all) places i j s (
          build_graph-producer m all i v path j all empty r (find_output-output_map path all [] ∙ f)
            h);
      priorities = λ i k v w h h' l.
          IsBehind-priority all places
            (λ i k v w h h' n.
              IsSorted-IsBehind (invocation_graph all) places k i s
                (build_graph-priority m all i v k w all empty n h' h))
            i k v w h h' l;
    }

-- `SortInvocations` ends: with a schedule of the invocations, or, without one, where an invocation waits
-- for itself: by a chain in which each reads what the next is the first to have among its outputs, or is
-- of a higher priority than the next. In a schedule each invocation stands once; behind the first invocation that has
-- among its outputs what it reads as an input, a phony input or an input dependency; and behind all
-- invocations of a lower priority.
pub sort_places-Schedules : (all : Numbered) → Schedules all (sort_places all)
unfolding sort_places HasCycle
sort_places-Schedules all =
    answers (ordered (invocation_graph all)) (ordered-Answers (invocation_graph all))
  where
    answers : (r : Option (Option (List ℕ))) → Answers (invocation_graph all) r → Schedules all r
    answers _ (cyclic (i, c)) = no_schedule i (
        Leads-Waits all (λ path. producer path all) (invocation_graph all)
          (invocation_graph-Needs all) c)
    answers _ (sorted {result = places} s) = schedule (IsSorted-IsSchedule all places s)
