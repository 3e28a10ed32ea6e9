-- ===== src/Graph/Order.antt =====
-- What `ordered` returns.
use xcbuild.Prelude.{
  ℕ, zero, suc, ◌+◌, ◌<◌, true, ◌≡◌, refl, List, [], ◌∷◌, ◌++◌, HasEq, arith, Every, Option, none,
  some, length, map, length-append,
}
use xcbuild.Graph.Sets.{contains, total_length}
use xcbuild.Graph.Members.{same_key_refl, contains-tail, contains-append, fresh-le_length}
use xcbuild.Graph.Paths.{HasCycle, universe, IsSorted}
use xcbuild.Graph.Loop.{Core, Inv, idle, resumed, entering, RoundSays}
use xcbuild.Graph.Visits.{visit_idle, visit_resumed, visit_entering}
use xcbuild.Graph.{DirectedGraph, keys, State, visit, explore, initial, fuel_of, ordered}

module _ {ℓ} {A : Type ℓ} ⦃e : HasEq A⦄ where
  -- A result is a topological order, or there is a cycle; the fuel does not run out.
  pub data Answers (g : DirectedGraph A) : Option (Option (List A)) → Type ℓ where
    cyclic : HasCycle g → Answers g (some none)
    sorted : {result : List A} → IsSorted g result → Answers g (some (some result))

  Core-IsSorted :
      (g : DirectedGraph A) (explored result : List A)
      → Core g [] [] explored result
      → IsSorted g result
  unfolding contains
  Core-IsSorted g explored result core = record {
    complete = λ k h. ground (arith, core.kept k h, core.same k);
    sound = core.known_result;
    once = core.once;
    children_first = core.children_first;
  }

  -- One round, and then the others.
  explore_next :
      (fuel : ℕ) (g : DirectedGraph A) (n : ℕ) (r : Option (State A))
      → RoundSays g n r
      → n < suc fuel
      → ((s : State A) (m : ℕ) → Inv g s m → m < fuel → Answers g (explore fuel g s))
      → Answers g (elim r [ none ↦ some none | some s' ↦ explore fuel g s' ])
  explore_next fuel g n none cycle b more = cyclic cycle
  explore_next fuel g n (some s) (m, less, inv) b more = more s m inv (omega arith)

  pub explore-Answers :
      (fuel : ℕ) (g : DirectedGraph A) (s : State A) (n : ℕ)
      → Inv g s n
      → n < fuel
      → Answers g (explore fuel g s)
  unfolding explore
  explore-Answers zero g s n inv b = absurd (omega arith)
  explore-Answers (suc fuel) g s n (idle [] p q core m) b =
      rw (q, explore) (sorted (Core-IsSorted g s.explored s.result core))
  explore-Answers (suc fuel) g s n (idle (node ∷ rest) p q core m) b =
      rw (q, explore)
        (explore_next fuel g n (visit g node rest s) (visit_idle g s n node rest core p m) b
          (explore-Answers fuel g))
  explore-Answers (suc fuel) g s n (resumed top stack remaining p q core m) b =
      rw (q, explore)
        (explore_next fuel g n (visit g top (stack ++ remaining) s)
          (visit_resumed g s n top stack remaining p core m) b (explore-Answers fuel g))
  explore-Answers (suc fuel) g s n
        (entering child top stack remaining p q d new unseen known core m) b =
      rw (q, explore)
        (explore_next fuel g n (visit g child (top ∷ (stack ++ remaining)) s)
          (visit_entering g s n child top stack remaining p d new unseen known core m) b
          (explore-Answers fuel g))

  contains-keys :
      (m : List (A × List A)) (k : A)
      → contains (map (λ p. p.0) m) k ≡ true
      → contains (universe m) k ≡ true
  unfolding contains
  contains-keys [] k h = h
  contains-keys ((x, cs) ∷ m) k h =
      ground (arith, contains-keys m k, contains-append cs (universe m) k)

  Every-known :
      (m : List (A × List A)) (ks : List A)
      → ((k : A) → contains ks k ≡ true → contains (universe m) k ≡ true)
      → Every (λ x. contains (universe m) x ≡ true) ks
  unfolding contains
  Every-known m [] h = tt
  Every-known m (k ∷ ks) h = (
    h k (ground (arith, same_key_refl k)),
    Every-known m ks (λ x i. h x (contains-tail x k ks i)),
  )

  length-universe : (m : List (A × List A)) → length (universe m) ≡ total_length m
  unfolding total_length
  length-universe [] = refl
  length-universe ((k, cs) ∷ m) = omega (arith, length-append cs (universe m), length-universe m)

  Inv-initial :
      (g : DirectedGraph A)
      → Inv g (initial g) (length (keys g) + (total_length g.adjacency + total_length g.adjacency))
  unfolding contains
  Inv-initial g =
      idle (keys g) refl refl
        (record {
          chain = tt;
          apart = tt;
          distinct = tt;
          children_first = tt;
          same = λ a. refl;
          once = tt;
          kept = λ k h. h;
          known_progress = tt;
          known_remaining = Every-known g.adjacency (keys g) (contains-keys g.adjacency);
          known_result = λ a h. absurd (cc h);
        })
        (omega (arith, fresh-le_length [] (universe g.adjacency), length-universe g.adjacency))

  -- `ordered` always ends. A list that it returns is a topological order of the graph: it has every
  -- key and only nodes of the graph, no node twice, and each node behind all of its children. It
  -- returns `ext::nullopt` only for a graph with a cycle.
  pub ordered-Answers : (g : DirectedGraph A) → Answers g (ordered g)
  unfolding ordered
  ordered-Answers g =
      explore-Answers (fuel_of g) g (initial g) _ (Inv-initial g) (unfold fuel_of in omega arith)
