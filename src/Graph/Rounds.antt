-- ===== src/Graph/Rounds.antt =====
-- Each round of the loop of `ordered` keeps the invariant, or finds a cycle.
use xcbuild.Prelude.{
  ℕ, ◌≤◌, ◌<◌, true, false, ◌≡◌, refl, sym, ap, ◌∙◌, List, [], ◌∷◌, ◌++◌, HasEq, arith, Every,
}
use xcbuild.Graph.Sets.{contains}
use xcbuild.Graph.Members.{
  contains-append, add_absent, erase_head, IsDistinct-concat, fresh_same, fresh-lt,
}
use xcbuild.Graph.Paths.{Edge, IsChain, IsChain-HasCycle, IsOrdered-concat, universe}
use xcbuild.Graph.Loop.{ScanSays, Core, Inv, idle, resumed, entering, Entered, RoundSays, measure}
use xcbuild.Graph.{
  DirectedGraph, adjacent, Scan, in_cycle, descend, exhausted, State, leave_or_descend,
}

module _ {ℓ} {A : Type ℓ} ⦃e : HasEq A⦄ where
  IsChain-tail : (g : DirectedGraph A) (x : A) (xs : List A) → IsChain g (x ∷ xs) → IsChain g xs
  IsChain-tail g x [] c = tt
  IsChain-tail g x (y ∷ xs) c = c.1

  -- A node outside the list may join the explored ones.
  pub Every-apart :
      (explored : List A) (node : A) (xs : List A)
      → Every (λ x. contains explored x ≡ false) xs
      → contains xs node ≡ false
      → Every (λ x. contains (node ∷ explored) x ≡ false) xs
  unfolding contains
  Every-apart explored node [] a h = tt
  Every-apart explored node (x ∷ xs) a h = (
    ground (arith, a.0, e.same_key_iff x node, e.same_key_iff node x),
    Every-apart explored node xs a.1 (ground arith),
  )

  contains_middle :
      (xs : List A) (x : A) (ys : List A) (a : A)
      → contains (xs ++ x ∷ ys) a ≡ contains ((x ∷ xs) ++ ys) a
  unfolding contains
  contains_middle xs x ys a = ground (arith, contains-append xs (x ∷ ys) a, contains-append xs ys a)

  module _ (g : DirectedGraph A) (node : A) {stack remaining explored result : List A}
      (core : Core g (node ∷ stack) remaining explored result) where
    -- The node goes from the front of the nodes in progress to the explored ones.
    Core-leave :
        ((c : A) → Edge g node c → contains explored c ≡ true)
        → Core g stack remaining (node ∷ explored) (result ++ node ∷ [])
    unfolding contains
    Core-leave done = record {
      chain = IsChain-tail g node stack core.chain;
      apart = Every-apart explored node stack core.apart.1 core.distinct.0;
      distinct = core.distinct.1;
      children_first =
          IsOrdered-concat g [] result node core.children_first
            (λ c k. ground (arith, core.same c, done c k));
      same = λ a. ground (arith, core.same a, contains-append result (node ∷ []) a);
      once = IsDistinct-concat result node core.once (sym (core.same node) ∙ core.apart.0);
      kept = λ k h. ground (arith, core.kept k h);
      known_progress = core.known_progress.1;
      known_remaining = core.known_remaining;
      known_result = λ a h. ground (
        arith,
        core.known_result a,
        core.known_progress.0,
        contains-append result (node ∷ []) a,
        e.same_key_iff node a,
      );
    }

  -- The node is finished: the next round is at the node below it, or at the remaining ones.
  leave-Inv :
      (g : DirectedGraph A) (node : A) (stack remaining explored result rest : List A) (n : ℕ)
      → rest ≡ stack ++ remaining
      → Core g (node ∷ stack) remaining explored result
      → measure g remaining ((node ∷ stack) ++ explored) explored ≤ n
      → Core g stack remaining (node ∷ explored) (result ++ node ∷ [])
      → (m : ℕ) × (m < n)
        × Inv g
            (record {
              to_explore = rest;
              in_progress = stack;
              explored = node ∷ explored;
              result = result ++ node ∷ [];
            })
            m
  leave-Inv g node stack remaining explored result rest n r core b core' =
      let u = universe g.adjacency in
      let touched =
        fresh_same (stack ++ node ∷ explored) ((node ∷ stack) ++ explored)
          (contains_middle stack node explored) u in
      let less = fresh-lt node explored u core.known_progress.0 core.apart.0 in
      (
        measure g remaining (stack ++ node ∷ explored) (node ∷ explored),
        omega arith,
        shape stack r core',
      )
    where
      shape :
          (st : List A)
          → rest ≡ st ++ remaining
          → Core g st remaining (node ∷ explored) (result ++ node ∷ [])
          → Inv g
              (record {
                to_explore = rest;
                in_progress = st;
                explored = node ∷ explored;
                result = result ++ node ∷ [];
              })
              (measure g remaining (st ++ node ∷ explored) (node ∷ explored))
      shape [] r' c = idle remaining refl r' c (omega arith)
      shape (top ∷ st) r' c = resumed top st remaining refl r' c (omega arith)

  -- The part of a round behind `inProgress.insert(node)`.
  pub Entered-RoundSays :
      (g : DirectedGraph A) (node : A) (rest : List A) (s : State A) (n : ℕ) (r : Scan A)
      → ((c : A) → Edge g node c → contains (universe g.adjacency) c ≡ true)
      → Entered g node rest s n
      → ScanSays s.in_progress s.explored (adjacent g node) r
      → RoundSays g n (leave_or_descend node rest r s)
  unfolding leave_or_descend
  Entered-RoundSays g node rest s n (in_cycle c) known en (m, i, _) =
      IsChain-HasCycle g node en.stack c en.core.chain (rw en.progress_is at i) m
  Entered-RoundSays g node rest s n (descend c) known en (m, i, x, _) =
      let u = universe g.adjacency in
      let i' : contains (node ∷ en.stack) c ≡ false = rw en.progress_is at i in
      let less =
        fresh-lt c ((node ∷ en.stack) ++ s.explored) u (known c m)
          (contains-append (node ∷ en.stack) s.explored c ∙ rw (i', x)) in
      (
        measure g en.remaining ((c ∷ node ∷ en.stack) ++ s.explored) s.explored,
        omega arith,
        entering c node en.stack en.remaining en.progress_is (ap (λ t. c ∷ node ∷ t) en.rest_is) m
            i' x (known c m) en.core (omega arith),
      )
  Entered-RoundSays g node rest s n exhausted known en all =
      rw (en.progress_is, erase_head node en.stack, add_absent node s.explored en.core.apart.0)
        (leave-Inv g node en.stack en.remaining s.explored s.result rest n en.rest_is en.core
          en.bound (Core-leave g node en.core (λ c k. all c k)))
