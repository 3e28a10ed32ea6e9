-- ===== src/Executor/Steps.antt =====
-- What the run of one invocation does to the machine, as relations, and `performInvocations` on it.
use xcbuild.Prelude.{
  ℕ, Bool, true, false, ◌≡◌, ◌≢◌, ◌⊎◌, inl, inr, refl, sym, ap, subst, ◌∙◌, Option, none, some,
  List, [], ◌∷◌, ◌++◌, ◌==◌, ==_iff, append-nil, Option-cases, Bool-cases, if◌then◌else◌,
}
use xcbuild.Prelude.Text.{Bytes}
use xcbuild.Plist.Writer.Escaped.{some_inj}
use xcbuild.Path.{is_absolute, parent}
use xcbuild.Executor.{
  Executable, builtin, external, Invocation, Machine, Event, begin_invocation, finish_invocation,
  State, Outcome, succeeded, failed_at, create_directories, finish_run, run_builtin, run_external,
  run_tool, run_invocation, is_zero, locate,
}

-- The invocations whose tools came to their end, in that order.
unfoldable pub ran : List Event → List Invocation
ran [] = []
ran (begin_invocation v tool structure ∷ log) = ran log
ran (finish_invocation v tool structure ∷ log) = v ∷ ran log

ran-append : (a b : List Event) → ran (a ++ b) ≡ ran a ++ ran b
unfolding ran
ran-append [] b = refl
ran-append (begin_invocation v tool structure ∷ a) b = ran-append a b
ran-append (finish_invocation v tool structure ∷ a) b = ap (λ vs. v ∷ vs) (ran-append a b)

log-ran :
    (log : List Event) (v : Invocation) (tool : Bytes) (b : Bool)
    → ran ((log ++ begin_invocation v tool b ∷ []) ++ finish_invocation v tool b ∷ [])
      ≡ ran log ++ v ∷ []
unfolding ran
log-ran log v tool b =
    ran-append (log ++ begin_invocation v tool b ∷ []) (finish_invocation v tool b ∷ [])
    ∙ ap (λ vs. vs ++ v ∷ [])
        (ran-append log (begin_invocation v tool b ∷ []) ∙ append-nil (ran log))

module _ {W : Type 0} (machine : Machine W) where
  -- The directories of the paths are made, one after the other; or those before one that cannot be.
  pub data Makes : List Bytes → W → W → Type 0 where
    made : {w : W} → Makes [] w w
    make :
        {path : Bytes} {paths : List Bytes} {w w' w'' : W}
        → machine.files.create_directory (parent path) w ≡ some w'
        → Makes paths w' w''
        → Makes (path ∷ paths) w w''

  pub data CannotMake : List Bytes → W → W → Type 0 where
    refused :
        {path : Bytes} {paths : List Bytes} {w : W}
        → machine.files.create_directory (parent path) w ≡ none
        → CannotMake (path ∷ paths) w w
    behind :
        {path : Bytes} {paths : List Bytes} {w w' w'' : W}
        → machine.files.create_directory (parent path) w ≡ some w'
        → CannotMake paths w' w''
        → CannotMake (path ∷ paths) w w''

  -- Where the tool of a path is: at an absolute path, if it can be executed there, or else where the
  -- filesystem finds it.
  pub data Located (path : Bytes) (w : W) : Option Bytes → Type 0 where
    there :
        is_absolute path ≡ true
        → machine.files.is_executable path w ≡ true
        → Located path w (some path)
    not_there :
        is_absolute path ≡ true → machine.files.is_executable path w ≡ false → Located path w none
    searched : is_absolute path ≡ false → Located path w (machine.files.find_executable path w)

  -- A tool runs: the driver of a builtin tool or the launcher is called, with the exit code.
  pub data Exits (v : Invocation) (w : W) : Executable → Option ℕ → W → Type 0 where
    driven :
        {name : Bytes} {code : ℕ} {w' : W}
        → machine.has_driver name ≡ true
        → machine.run_driver name v w ≡ (code, w')
        → Exits v w (builtin name) (some code) w'
    launched :
        {path tool : Bytes} {code : Option ℕ} {w' : W}
        → Located path w (some tool)
        → machine.launch tool v w ≡ (code, w')
        → Exits v w (external path) code w'

  pub data Lacks (w : W) : Executable → Type 0 where
    no_driver : {name : Bytes} → machine.has_driver name ≡ false → Lacks w (builtin name)
    no_tool : {path : Bytes} → Located path w none → Lacks w (external path)

  -- An invocation succeeds: its tool exits with zero. It fails: a directory cannot be made, there is
  -- no tool, or it does not exit with zero.
  pub data Succeeds (v : Invocation) (w : W) (w' : W) : Type 0 where
    success :
        {e : Executable} {m : W}
        → v.executable ≡ some e
        → Makes v.outputs w m
        → Exits v m e (some 0) w'
        → Succeeds v w w'

  pub data Fails (v : Invocation) (w : W) (w' : W) : Type 0 where
    no_directory : CannotMake v.outputs w w' → Fails v w w'
    no_program :
        {e : Executable} → v.executable ≡ some e → Makes v.outputs w w' → Lacks w' e → Fails v w w'
    failure :
        {e : Executable} {m : W} {code : Option ℕ}
        → v.executable ≡ some e
        → Makes v.outputs w m
        → Exits v m e code w'
        → code ≢ some 0
        → Fails v w w'

  -- All of them succeed, one after the other.
  pub data Succeed : List Invocation → W → W → Type 0 where
    none_left : {w : W} → Succeed [] w w
    next :
        {v : Invocation} {vs : List Invocation} {w w' w'' : W}
        → Succeeds v w w'
        → Succeed vs w' w''
        → Succeed (v ∷ vs) w w''

  pub Succeed-append :
      {us vs : List Invocation} {w w' w'' : W}
      → Succeed us w w'
      → Succeed vs w' w''
      → Succeed (us ++ vs) w w''
  Succeed-append none_left m = m
  Succeed-append (next s l) m = next s (Succeed-append l m)

  -- What a tool's run leads to, from the state before it.
  abbrev pub RanOne : Invocation → State W → Outcome W → Type 0
  RanOne v s (succeeded s') = Succeeds v s.world s'.world × (ran s'.log ≡ ran s.log ++ v ∷ [])
  RanOne v s (failed_at x s') =
      (x ≡ v)
      × Fails v s.world s'.world
      × ((ran s'.log ≡ ran s.log) ⊎ (ran s'.log ≡ ran s.log ++ v ∷ []))

  is_zero-cases :
      (code : Option ℕ)
      → ((is_zero machine code ≡ true) × (code ≡ some 0))
        ⊎ ((is_zero machine code ≡ false) × (code ≢ some 0))
  is_zero-cases none = inr (refl, λ e. cc e)
  is_zero-cases (some code) = elim (Bool-cases (code == 0)) [
    | inl y ↦ inl (y, ap some ((==_iff code 0).0 y))
    | inr n ↦ inr (n, λ e. cc (n, (==_iff code 0).1 (some_inj e)))
  ]

  create_directories-cases :
      (paths : List Bytes) (w : W)
      → (((create_directories machine paths w).0 ≡ true)
          × Makes paths w (create_directories machine paths w).1)
        ⊎ (((create_directories machine paths w).0 ≡ false)
            × CannotMake paths w (create_directories machine paths w).1)
  unfolding create_directories
  create_directories-cases [] w = inl (refl, made)
  create_directories-cases (path ∷ paths) w =
      elim (Option-cases (machine.files.create_directory (parent path) w)) [
        | inl n ↦ rw (create_directories, n) (inr (refl, refused n))
        | inr (w', e) ↦ elim (create_directories-cases paths w') [
          | inl (b, m) ↦ rw (create_directories, e) (inl (b, make e m))
          | inr (b, m) ↦ rw (create_directories, e) (inr (b, behind e m))
        ]
      ]

  locate-Located : (path : Bytes) (s : State W) → Located path s.world (locate machine path s)
  locate-Located path s = elim (Bool-cases (is_absolute path)) [
    | inl a ↦ elim (Bool-cases (machine.files.is_executable path s.world)) [
      | inl y ↦ rw (locate, a, y) (there a y)
      | inr n ↦ rw (locate, a, n) (not_there a n)
    ]
    | inr a ↦ rw (locate, a) (searched a)
  ]

  -- What `run_tool` leads to, from a state with the directories made.
  abbrev RanTool : Invocation → Executable → State W → Outcome W → Type 0
  RanTool v e s (succeeded s') =
      Exits v s.world e (some 0) s'.world × (ran s'.log ≡ ran s.log ++ v ∷ [])
  RanTool v e s (failed_at x s') =
      (x ≡ v)
      × ((Lacks s.world e × (s'.world ≡ s.world) × (ran s'.log ≡ ran s.log))
          ⊎ ((code : Option ℕ) × Exits v s.world e code s'.world
              × (code ≢ some 0)
              × (ran s'.log ≡ ran s.log ++ v ∷ [])))

  finish_run-RanTool :
      (v : Invocation) (e : Executable) (tool : Bytes) (b success : Bool) (code : Option ℕ) (w : W)
      (s : State W)
      → Exits v s.world e code w
      → ((success ≡ true) × (code ≡ some 0)) ⊎ ((success ≡ false) × (code ≢ some 0))
      → RanTool v e s (
          finish_run machine v tool b success
            (record { world = w; log = s.log ++ begin_invocation v tool b ∷ [] }))
  unfolding finish_run
  finish_run-RanTool v e tool b true code w s x (inl (y, z)) =
      (subst (λ c. Exits v s.world e c w) z x, log-ran s.log v tool b)
  finish_run-RanTool v e tool b false code w s x (inl (y, z)) = absurd (cc y)
  finish_run-RanTool v e tool b true code w s x (inr (y, z)) = absurd (cc y)
  finish_run-RanTool v e tool b false code w s x (inr (y, z)) =
      (refl, inr (code, x, z, log-ran s.log v tool b))

  run_builtin-RanTool :
      (v : Invocation) (b : Bool) (name : Bytes) (s : State W)
      → RanTool v (builtin name) s (run_builtin machine v b name s)
  unfolding run_builtin
  run_builtin-RanTool v b name s =
      let r = machine.run_driver name v s.world in
      elim (Bool-cases (machine.has_driver name)) [
        | inl y ↦
            rw (run_builtin, y)
              (finish_run-RanTool v (builtin name) name b (r.0 == 0) (some r.0) r.1 s
                (driven y refl) (is_zero-cases (some r.0)))
        | inr n ↦ rw (run_builtin, n) (refl, inl (no_driver n, refl, refl))
      ]

  run_external-RanTool :
      (v : Invocation) (b : Bool) (path : Bytes) (s : State W)
      → RanTool v (external path) s (run_external machine v b path s)
  unfolding run_external
  run_external-RanTool v b path s = elim (Option-cases (locate machine path s)) [
    | inl e ↦
        rw (run_external, e)
          (refl, inl (no_tool (subst (Located path s.world) e (locate-Located path s)), refl, refl))
    | inr (tool, e) ↦
        let r = machine.launch tool v s.world in
        rw (run_external, e)
          (finish_run-RanTool v (external path) tool b (is_zero machine r.0) r.0 r.1 s
            (launched (subst (Located path s.world) e (locate-Located path s)) refl)
            (is_zero-cases r.0))
  ]

  run_tool-RanTool :
      (v : Invocation) (b : Bool) (e : Executable) (s : State W)
      → RanTool v e s (run_tool machine v b e s)
  unfolding run_tool
  run_tool-RanTool v b (builtin name) s = run_builtin-RanTool v b name s
  run_tool-RanTool v b (external path) s = run_external-RanTool v b path s

  -- A tool's run behind the directories of its outputs.
  RanTool-RanOne :
      (v : Invocation) (e : Executable) (s : State W) (m : W) (r : Outcome W)
      → v.executable ≡ some e
      → Makes v.outputs s.world m
      → RanTool v e (record s { world = m }) r
      → RanOne v s r
  RanTool-RanOne v e s m (succeeded s') x k (exits, l) = (success x k exits, l)
  RanTool-RanOne v e s m (failed_at y s') x k (same, inl (lacks, w, l)) =
      (same, subst (Fails v s.world) (sym w) (no_program x k lacks), inl l)
  RanTool-RanOne v e s m (failed_at y s') x k (same, inr (code, exits, n, l)) =
      (same, failure x k exits n, inr l)

  pub run_invocation-RanOne :
      (v : Invocation) (b : Bool) (e : Executable) (s : State W)
      → v.executable ≡ some e
      → RanOne v s (run_invocation machine v b e s)
  unfolding run_invocation
  run_invocation-RanOne v b e s x =
      let w = (create_directories machine v.outputs s.world).1 in
      elim (create_directories-cases v.outputs s.world) [
        | inl (y, m) ↦
            subst
              (λ c. RanOne v s (
                if c
                then run_tool machine v b e (record s { world = w })
                else failed_at v (record s { world = w })))
              (sym y)
              (RanTool-RanOne v e s w (run_tool machine v b e (record s { world = w })) x m
                (run_tool-RanTool v b e (record s { world = w })))
        | inr (y, m) ↦
            subst
              (λ c. RanOne v s (
                if c
                then run_tool machine v b e (record s { world = w })
                else failed_at v (record s { world = w })))
              (sym y) (refl, no_directory m, inl refl)
      ]
