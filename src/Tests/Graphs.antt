-- ===== src/Tests/Graphs.antt =====
-- Libraries/pbxbuild: graphs at concrete inputs.
use xcbuild.Prelude.{ℕ, ◌≡◌, refl, none, some, [], ◌∷◌, nat_eq}
use xcbuild.Graph.Sets.{contains}
use xcbuild.Graph.Paths.{edge, further, HasCycle}
use xcbuild.Graph.Order.{Answers, ordered-Answers}
use xcbuild.Graph.Cycles.{ordered_cyclic}
use xcbuild.Graph.{DirectedGraph, adjacent, insert, ordered}

abbrev empty : DirectedGraph ℕ
empty = record { nodes = []; adjacency = [] }

-- 1 → 2, 1 → 3, 2 → 3
abbrev diamond : DirectedGraph ℕ
diamond = insert 1 (2 ∷ 3 ∷ []) (insert 2 (3 ∷ []) empty)

-- 1 → 2, 2 → 3, 3 → 1
abbrev ring : DirectedGraph ℕ
ring = insert 1 (2 ∷ []) (insert 2 (3 ∷ []) (insert 3 (1 ∷ []) empty))

ordered-diamond : ordered diamond ≡ some (some (3 ∷ 2 ∷ 1 ∷ []))
unfolding ordered insert
ordered-diamond = refl

ordered-ring : ordered ring ≡ some none
unfolding ordered insert
ordered-ring = refl

ordered-Answers_example : Answers diamond (ordered diamond)
ordered-Answers_example = ordered-Answers diamond

ring_cycle : HasCycle ring
unfolding HasCycle insert adjacent contains
ring_cycle = (1, further {y = 3} (further {y = 2} (edge refl) refl) refl)

ordered_cyclic_example : ordered ring ≡ some none
ordered_cyclic_example = ordered_cyclic ring ring_cycle
