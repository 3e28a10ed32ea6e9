-- ===== src/Graph/Loop.antt =====
-- The loop of `ordered`: its invariant, with a bound on the rounds left.
use xcbuild.Prelude.{
  ℕ, ◌+◌, ◌≤◌, ◌<◌, true, false, ◌||◌, ◌≡◌, refl, inl, inr, List, [], ◌∷◌, ◌++◌, HasEq, Bool-cases,
  Every, Option, none, some, length,
}
use xcbuild.Graph.Sets.{contains}
use xcbuild.Graph.Members.{contains-head, contains-tail, IsDistinct, fresh}
use xcbuild.Graph.Paths.{Edge, HasCycle, IsChain, IsOrdered, universe}
use xcbuild.Graph.{DirectedGraph, keys, Scan, in_cycle, descend, exhausted, State, scan}

module _ {ℓ} {A : Type ℓ} ⦃e : HasEq A⦄ where
  -- What a result of `scan` says of the children.
  abbrev pub ScanSays : List A → List A → List A → Scan A → Type ℓ
  ScanSays in_progress explored children (in_cycle c) =
      (contains children c ≡ true) × (contains in_progress c ≡ true) × Unit {ℓ}
  ScanSays in_progress explored children (descend c) =
      (contains children c ≡ true)
      × (contains in_progress c ≡ false)
      × (contains explored c ≡ false)
      × Unit {ℓ}
  ScanSays in_progress explored children exhausted =
      (c : A) → contains children c ≡ true → contains explored c ≡ true

  ScanSays-cons :
      (in_progress explored children : List A) (x : A) (r : Scan A)
      → contains explored x ≡ true
      → ScanSays in_progress explored children r
      → ScanSays in_progress explored (x ∷ children) r
  unfolding contains
  ScanSays-cons ip ex children x (in_cycle c) h (m, i, u) = (contains-tail c x children m, i, u)
  ScanSays-cons ip ex children x (descend c) h (m, i, n, u) =
      (contains-tail c x children m, i, n, u)
  ScanSays-cons ip ex children x exhausted h all = λ c m. elim (Bool-cases (e.same_key x c)) [
    | inl q ↦ rw (← (e.same_key_iff x c).0 q) h
    | inr q ↦ all c (rw q at m)
  ]

  contains-nil : (c : A) → contains [] c ≡ false
  unfolding contains
  contains-nil c = refl

  pub scan-ScanSays :
      (in_progress explored children : List A)
      → ScanSays in_progress explored children (scan in_progress explored children)
  unfolding scan
  scan-ScanSays ip ex [] = λ c m. absurd (cc (contains-nil c, m))
  scan-ScanSays ip ex (x ∷ children) = elim (Bool-cases (contains ip x)) [
    | inl i ↦ rw i (contains-head x children, i, tt)
    | inr i ↦ elim (Bool-cases (contains ex x)) [
      | inl n ↦
          rw (i, n)
            (ScanSays-cons ip ex children x (scan ip ex children) n (scan-ScanSays ip ex children))
      | inr n ↦ rw (i, n) (contains-head x children, i, n, tt)
    ]
  ]

  -- What holds of the nodes in progress, the nodes left of the first list, the explored ones and
  -- the result.
  pub record Core (g : DirectedGraph A) (in_progress remaining explored result : List A)
      : Type ℓ where
    pub chain : IsChain g in_progress
    pub apart : Every (λ x. contains explored x ≡ false) in_progress
    pub distinct : IsDistinct in_progress
    pub children_first : IsOrdered g [] result
    pub same : (a : A) → contains explored a ≡ contains result a
    pub once : IsDistinct result
    pub kept :
        (k : A)
        → contains (keys g) k ≡ true
        → (contains explored k || contains in_progress k || contains remaining k) ≡ true
    pub known_progress : Every (λ x. contains (universe g.adjacency) x ≡ true) in_progress
    pub known_remaining : Every (λ x. contains (universe g.adjacency) x ≡ true) remaining
    pub known_result : (a : A) → contains result a ≡ true → contains (universe g.adjacency) a ≡ true

  -- A bound on the rounds left: `touched` are the explored nodes and those in progress.
  abbrev pub measure : DirectedGraph A → List A → List A → List A → ℕ
  measure g remaining touched explored =
      length remaining
      + (fresh touched (universe g.adjacency) + fresh explored (universe g.adjacency))

  -- The three shapes of the state at the head of the loop, with a bound on the rounds left.
  pub data Inv (g : DirectedGraph A) (s : State A) (n : ℕ) : Type ℓ where
    idle :
        (remaining : List A)
        → s.in_progress ≡ []
        → s.to_explore ≡ remaining
        → Core g [] remaining s.explored s.result
        → measure g remaining s.explored s.explored ≤ n
        → Inv g s n
    resumed :
        (top : A) (stack remaining : List A)
        → s.in_progress ≡ top ∷ stack
        → s.to_explore ≡ top ∷ (stack ++ remaining)
        → Core g (top ∷ stack) remaining s.explored s.result
        → measure g remaining ((top ∷ stack) ++ s.explored) s.explored ≤ n
        → Inv g s n
    entering :
        (child top : A) (stack remaining : List A)
        → s.in_progress ≡ top ∷ stack
        → s.to_explore ≡ child ∷ top ∷ (stack ++ remaining)
        → Edge g top child
        → contains (top ∷ stack) child ≡ false
        → contains s.explored child ≡ false
        → contains (universe g.adjacency) child ≡ true
        → Core g (top ∷ stack) remaining s.explored s.result
        → measure g remaining ((child ∷ top ∷ stack) ++ s.explored) s.explored ≤ n
        → Inv g s n

  -- The state behind `inProgress.insert(node)`.
  pub record Entered (g : DirectedGraph A) (node : A) (rest : List A) (s : State A) (n : ℕ)
      : Type ℓ where
    pub stack : List A
    pub remaining : List A
    pub progress_is : s.in_progress ≡ node ∷ stack
    pub rest_is : rest ≡ stack ++ remaining
    pub core : Core g (node ∷ stack) remaining s.explored s.result
    pub bound : measure g remaining ((node ∷ stack) ++ s.explored) s.explored ≤ n

  -- What a round returns: a cycle, or a state with fewer rounds left.
  abbrev pub RoundSays : DirectedGraph A → ℕ → Option (State A) → Type ℓ
  RoundSays g n none = HasCycle g
  RoundSays g n (some s) = (m : ℕ) × (m < n) × Inv g s m
