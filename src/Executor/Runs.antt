-- ===== src/Executor/Runs.antt =====
-- What `performInvocations` and `buildTarget` run.
use xcbuild.Prelude.{
  Bool, true, false, ◌≡◌, ◌⊎◌, inl, inr, refl, sym, ap, subst, ◌∙◌, none, some, List, [], ◌∷◌, ◌++◌,
  append_assoc, append-nil, Option-cases, Bool-cases, if◌then◌else◌,
}
use xcbuild.Executor.Auxiliary.{AuxiliaryFile, write_auxiliary_files}
use xcbuild.Executor.{
  Executable, Invocation, Machine, State, Outcome, succeeded, failed_at, performed, run_invocation,
  perform_invocation, perform_invocations, sort_invocations, run_target, build_target, not_written,
  same,
}
use xcbuild.Executor.Written.{AreWritten, write_auxiliary_files-AreWritten}
use xcbuild.Executor.Steps.{
  ran, Succeeds, Fails, Succeed, none_left, next, Succeed-append, RanOne, run_invocation-RanOne,
}

-- The invocations with a tool, of one kind.
unfoldable pub is_chosen : Bool → Invocation → Bool
is_chosen structure v = elim v.executable [
  | none ↦ false
  | some e ↦ same v.creates_product_structure structure
]

unfoldable pub chosen : Bool → List Invocation → List Invocation
unfolding is_chosen
chosen structure [] = []
chosen structure (v ∷ vs) =
    if is_chosen structure v then v ∷ chosen structure vs else chosen structure vs

module _ {W : Type 0} (machine : Machine W) where
  -- All of these succeed, in their order, and the formatter is told so; or those before one that fails,
  -- which is the outcome, and nothing behind it runs.
  abbrev pub RanAll : List Invocation → State W → Outcome W → Type 0
  RanAll vs s (succeeded s') = Succeed machine vs s.world s'.world × (ran s'.log ≡ ran s.log ++ vs)
  RanAll vs s (failed_at x s') =
      (before : List Invocation) × (behind : List Invocation) × (w : W) × (vs
        ≡ before ++ x ∷ behind)
      × Succeed machine before s.world w
      × Fails machine x w s'.world
      × ((ran s'.log ≡ ran s.log ++ before) ⊎ (ran s'.log ≡ ran s.log ++ (before ++ x ∷ [])))

  perform_invocation-some :
      (b : Bool) (v : Invocation) (e : Executable) (s : State W) (c : Bool)
      → v.executable ≡ some e
      → same v.creates_product_structure b ≡ c
      → perform_invocation machine false b v s
        ≡ (if c then run_invocation machine v b e s else succeeded s)
  unfolding perform_invocation
  perform_invocation-some b v e s c h y =
      ap
        (λ r. elim r [
          | none ↦ succeeded s
          | some e ↦
              if same v.creates_product_structure b
              then run_invocation machine v b e s
              else succeeded s
        ])
        h
      ∙ ap (λ c. if c then run_invocation machine v b e s else succeeded s) y

  -- A round: the invocation is chosen and ran, or it is passed over.
  perform_invocation-cases :
      (b : Bool) (v : Invocation) (s : State W)
      → ((is_chosen b v ≡ true) × RanOne machine v s (perform_invocation machine false b v s))
        ⊎ ((is_chosen b v ≡ false) × (perform_invocation machine false b v s ≡ succeeded s))
  unfolding is_chosen perform_invocation
  perform_invocation-cases b v s = elim (Option-cases v.executable) [
    | inl n ↦ inr (rw (is_chosen, n) refl, rw (perform_invocation, n) refl)
    | inr (e, h) ↦ elim (Bool-cases (same v.creates_product_structure b)) [
      | inl y ↦ inl (
        rw (is_chosen, h) y,
        subst (RanOne machine v s) (sym (perform_invocation-some b v e s true h y))
            (run_invocation-RanOne machine v b e s h),
      )
      | inr y ↦ inr (rw (is_chosen, h) y, perform_invocation-some b v e s false h y)
    ]
  ]

  RanAll-cons :
      (v : Invocation) (vs : List Invocation) (s s' : State W) (r : Outcome W)
      → Succeeds machine v s.world s'.world
      → ran s'.log ≡ ran s.log ++ v ∷ []
      → RanAll vs s' r
      → RanAll (v ∷ vs) s r
  RanAll-cons v vs s s' (succeeded t) x h (l, k) =
      (next x l, k ∙ ap (λ l. l ++ vs) h ∙ append_assoc (ran s.log) (v ∷ []) vs)
  RanAll-cons v vs s s' (failed_at x t) one h (before, behind, w, e, l, f, inl k) = (
    v ∷ before,
    behind,
    w,
    ap (λ l. v ∷ l) e,
    next one l,
    f,
    inl (k ∙ ap (λ l. l ++ before) h ∙ append_assoc (ran s.log) (v ∷ []) before),
  )
  RanAll-cons v vs s s' (failed_at x t) one h (before, behind, w, e, l, f, inr k) = (
    v ∷ before,
    behind,
    w,
    ap (λ l. v ∷ l) e,
    next one l,
    f,
    inr (
        k
        ∙ ap (λ l. l ++ (before ++ x ∷ [])) h
        ∙ append_assoc (ran s.log) (v ∷ []) (before ++ x ∷ [])),
  )

  RanAll-then :
      (v : Invocation) (vs : List Invocation) (s : State W) (r : Outcome W)
      (f : State W → Outcome W)
      → RanOne machine v s r
      → ((s' : State W) → RanAll vs s' (f s'))
      → RanAll (v ∷ vs) s (elim r [ succeeded s' ↦ f s' | failed_at x s' ↦ failed_at x s' ])
  RanAll-then v vs s (succeeded s') f (x, h) k = RanAll-cons v vs s s' (f s') x h (k s')
  RanAll-then v vs s (failed_at x s') f (e, l, inl h) k = (
    [],
    vs,
    s.world,
    ap (λ y. y ∷ vs) (sym e),
    none_left,
    subst (λ y. Fails machine y s.world s'.world) (sym e) l,
    inl (h ∙ sym (append-nil (ran s.log))),
  )
  RanAll-then v vs s (failed_at x s') f (e, l, inr h) k = (
    [],
    vs,
    s.world,
    ap (λ y. y ∷ vs) (sym e),
    none_left,
    subst (λ y. Fails machine y s.world s'.world) (sym e) l,
    inr (h ∙ ap (λ y. ran s.log ++ y ∷ []) (sym e)),
  )

  pub perform_invocations-RanAll :
      (structure : Bool) (vs : List Invocation) (s : State W)
      → RanAll (chosen structure vs) s (perform_invocations machine false structure vs s)
  unfolding perform_invocations chosen
  perform_invocations-RanAll b [] s = (none_left, sym (append-nil (ran s.log)))
  perform_invocations-RanAll b (v ∷ vs) s = elim (perform_invocation-cases b v s) [
    | inl (c, one) ↦ rw c (
        RanAll-then v (chosen b vs) s (perform_invocation machine false b v s)
          (λ s'. perform_invocations machine false b vs s') one
          (λ s'. perform_invocations-RanAll b vs s'))
    | inr (c, e) ↦ rw (perform_invocations, c, e) (perform_invocations-RanAll b vs s)
  ]

  RanAll-append :
      (us vs : List Invocation) (s : State W) (r : Outcome W) (f : State W → Outcome W)
      → RanAll us s r
      → ((s' : State W) → RanAll vs s' (f s'))
      → RanAll (us ++ vs) s (elim r [ failed_at x s' ↦ failed_at x s' | succeeded s' ↦ f s' ])
  RanAll-append us vs s (succeeded s') f (first, h) k = behind (f s') (k s')
    where
      behind : (r : Outcome W) → RanAll vs s' r → RanAll (us ++ vs) s r
      behind (succeeded t) (l, g) =
          (Succeed-append machine first l, g ∙ ap (λ l. l ++ vs) h ∙ append_assoc (ran s.log) us vs)
      behind (failed_at x t) (before, rest, w, e, l, f, inl g) = (
        us ++ before,
        rest,
        w,
        ap (λ l. us ++ l) e ∙ sym (append_assoc us before (x ∷ rest)),
        Succeed-append machine first l,
        f,
        inl (g ∙ ap (λ l. l ++ before) h ∙ append_assoc (ran s.log) us before),
      )
      behind (failed_at x t) (before, rest, w, e, l, f, inr g) = (
        us ++ before,
        rest,
        w,
        ap (λ l. us ++ l) e ∙ sym (append_assoc us before (x ∷ rest)),
        Succeed-append machine first l,
        f,
        inr (
            g
            ∙ ap (λ l. l ++ (before ++ x ∷ [])) h
            ∙ append_assoc (ran s.log) us (before ++ x ∷ [])
            ∙ ap (λ l. ran s.log ++ l) (sym (append_assoc us before (x ∷ [])))),
      )
  RanAll-append us vs s (failed_at x s') f (before, behind, w, e, l, fails, g) k = (
    before,
    behind ++ vs,
    w,
    ap (λ l. l ++ vs) e ∙ append_assoc before (x ∷ behind) vs,
    l,
    fails,
    g,
  )

  run_target-RanAll :
      (invocations sorted : List Invocation) (s : State W)
      → sort_invocations invocations ≡ some (some sorted)
      → (r : Outcome W) × (run_target machine false invocations s ≡ performed r)
        × RanAll (chosen true sorted ++ chosen false sorted) s r
  unfolding run_target
  run_target-RanAll invocations sorted s h = (
    elim (perform_invocations machine false true sorted s) [
      | failed_at x s' ↦ failed_at x s'
      | succeeded s' ↦ perform_invocations machine false false sorted s'
    ],
    rw (run_target, h) refl,
    RanAll-append (chosen true sorted) (chosen false sorted) s
        (perform_invocations machine false true sorted s)
        (λ s'. perform_invocations machine false false sorted s')
        (perform_invocations-RanAll true sorted s)
        (λ s'. perform_invocations-RanAll false sorted s'),
  )

  -- `buildTarget`, where it is no dry run and `writeAuxiliaryFiles` succeeds, of what `SortInvocations`
  -- puts in an order. The auxiliary files are written first, one after the other: the directory is there
  -- or made, the file gets the contents of its chunks, and one that is to be executable is so or is made
  -- so. Then it takes the invocations that create the structure of the product and behind them the
  -- others, each group in that order and without those that have no tool. If it succeeds, each of
  -- them has succeeded, from the machine that the auxiliary files leave to that of the outcome: the
  -- directories of its outputs were made, its tool was run, and it exited with zero. If it fails, those
  -- before one have succeeded, that one failed, which is the outcome, and none behind it ran. The
  -- formatter is told of the end of the tools that succeeded, in that order, and perhaps of the one
  -- that failed.
  pub build_target-RanAll :
      (files : List AuxiliaryFile) (invocations sorted : List Invocation) (s : State W)
      → (write_auxiliary_files machine.files false files s.world).0 ≡ true
      → sort_invocations invocations ≡ some (some sorted)
      → (w : W) × (r : Outcome W) × (build_target machine false files invocations s ≡ performed r)
        × AreWritten machine.files files s.world w
        × RanAll (chosen true sorted ++ chosen false sorted) (record s { world = w }) r
  unfolding build_target
  build_target-RanAll files invocations sorted s written h =
      let w = (write_auxiliary_files machine.files false files s.world).1 in
      let (r, e, k) = run_target-RanAll invocations sorted (record s { world = w }) h in
      (
        w,
        r,
        ap
              (λ b.
                if b
                then run_target machine false invocations (record s { world = w })
                else not_written w)
              written
            ∙ e,
        write_auxiliary_files-AreWritten machine.files files s.world written,
        k,
      )
