-- ===== src/Graph/Visits.antt =====
-- The rounds of the loop of `ordered`, at each of the three shapes of its state.
use xcbuild.Prelude.{
  ℕ, ◌≤◌, true, false, ◌≡◌, refl, ap, ◌∙◌, inl, inr, List, [], ◌∷◌, ◌++◌, HasEq, arith, Bool-cases,
  some,
}
use xcbuild.Graph.Sets.{contains, add}
use xcbuild.Graph.Members.{contains-head, contains-append, add_absent, add_present, fresh-le}
use xcbuild.Graph.Paths.{Edge, universe}
use xcbuild.Graph.Loop.{scan-ScanSays, Core, idle, Entered, RoundSays, measure}
use xcbuild.Graph.Rounds.{Entered-RoundSays}
use xcbuild.Graph.{DirectedGraph, adjacent, find, State, scan, visit}

module _ {ℓ} {A : Type ℓ} ⦃e : HasEq A⦄ where
  contains-universe :
      (m : List (A × List A)) (x : A) (children : List A) (c : A)
      → find x m ≡ some children
      → contains children c ≡ true
      → contains (universe m) c ≡ true
  unfolding find contains
  contains-universe [] x cs c f h = absurd (cc f)
  contains-universe ((k, ks) ∷ m) x cs c f h =
      ground (arith, contains-append ks (universe m) c, contains-universe m x cs c)

  -- A child of any node is a node of the graph.
  Edge-universe :
      (g : DirectedGraph A) (x c : A) → Edge g x c → contains (universe g.adjacency) c ≡ true
  unfolding adjacent contains
  Edge-universe g x c h = ground (arith, contains-universe g.adjacency x (adjacent g x) c)

  module _ (g : DirectedGraph A) (s : State A) (n : ℕ) where
    -- A node that is not explored is entered.
    Entered-visit :
        (node : A) (rest : List A)
        → contains s.explored node ≡ false
        → Entered g node rest (record s { in_progress = add node s.in_progress }) n
        → RoundSays g n (visit g node rest s)
    unfolding visit
    Entered-visit node rest new en =
        rw (new, visit)
          (Entered-RoundSays g node rest (record s { in_progress = add node s.in_progress }) n
            (scan (add node s.in_progress) s.explored (adjacent g node)) (Edge-universe g node) en
            (scan-ScanSays (add node s.in_progress) s.explored (adjacent g node)))

    pub visit_resumed :
        (top : A) (stack remaining : List A)
        → s.in_progress ≡ top ∷ stack
        → Core g (top ∷ stack) remaining s.explored s.result
        → measure g remaining ((top ∷ stack) ++ s.explored) s.explored ≤ n
        → RoundSays g n (visit g top (stack ++ remaining) s)
    visit_resumed top stack remaining p core b =
        Entered-visit top (stack ++ remaining) (core.apart.0) (record {
          stack = stack;
          remaining = remaining;
          progress_is = add_present top s.in_progress (rw p (contains-head top stack)) ∙ p;
          rest_is = refl;
          core = core;
          bound = b;
        })

    pub visit_entering :
        (child top : A) (stack remaining : List A)
        → s.in_progress ≡ top ∷ stack
        → Edge g top child
        → contains (top ∷ stack) child ≡ false
        → contains s.explored child ≡ false
        → contains (universe g.adjacency) child ≡ true
        → Core g (top ∷ stack) remaining s.explored s.result
        → measure g remaining ((child ∷ top ∷ stack) ++ s.explored) s.explored ≤ n
        → RoundSays g n (visit g child (top ∷ (stack ++ remaining)) s)
    visit_entering child top stack remaining p edge new unseen known core b =
        Entered-visit child (top ∷ (stack ++ remaining)) unseen (record {
          stack = top ∷ stack;
          remaining = remaining;
          progress_is = add_absent child s.in_progress (rw p new) ∙ ap (λ t. child ∷ t) p;
          rest_is = refl;
          core = record {
            chain = (edge, core.chain);
            apart = (unseen, core.apart);
            distinct = (new, core.distinct);
            children_first = core.children_first;
            same = core.same;
            once = core.once;
            kept = λ k h. unfold contains in ground (arith, core.kept k h);
            known_progress = (known, core.known_progress);
            known_remaining = core.known_remaining;
            known_result = core.known_result;
          };
          bound = b;
        })

    module _ (node : A) (rest : List A) (core : Core g [] (node ∷ rest) s.explored s.result) where
      Core-skip : contains s.explored node ≡ true → Core g [] rest s.explored s.result
      unfolding contains
      Core-skip old = record {
        chain = tt;
        apart = tt;
        distinct = tt;
        children_first = core.children_first;
        same = core.same;
        once = core.once;
        kept = λ k h. ground (arith, core.kept k h, e.same_key_iff node k);
        known_progress = tt;
        known_remaining = core.known_remaining.1;
        known_result = core.known_result;
      }

      Core-start : contains s.explored node ≡ false → Core g (node ∷ []) rest s.explored s.result
      unfolding contains
      Core-start new = record {
        chain = tt;
        apart = (new, tt);
        distinct = (refl, tt);
        children_first = core.children_first;
        same = core.same;
        once = core.once;
        kept = λ k h. ground (arith, core.kept k h);
        known_progress = (core.known_remaining.0, tt);
        known_remaining = core.known_remaining.1;
        known_result = core.known_result;
      }

      pub visit_idle :
          s.in_progress ≡ []
          → measure g (node ∷ rest) s.explored s.explored ≤ n
          → RoundSays g n (visit g node rest s)
      unfolding visit
      visit_idle p b = elim (Bool-cases (contains s.explored node)) [
        | inl old ↦
            rw (old, visit)
              (
                measure g rest s.explored s.explored,
                omega arith,
                idle rest p refl (Core-skip old) (omega arith),
              )
        | inr new ↦ Entered-visit node rest new (record {
          stack = [];
          remaining = rest;
          progress_is = ap (add node) p ∙ add_absent node [] (unfold contains in refl);
          rest_is = refl;
          core = Core-start new;
          bound = omega (arith, fresh-le node s.explored (universe g.adjacency));
        })
      ]
