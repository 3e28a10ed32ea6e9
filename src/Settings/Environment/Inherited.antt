-- ===== src/Settings/Environment/Inherited.antt =====
-- The values of a setting in several levels, each of which inherits those of the levels behind it.
use xcbuild.Prelude.{
  ℕ, zero, suc, ◌<◌, ◌≤◌, Bool, true, false, ◌||◌, ◌≡◌, ◌⊎◌, refl, sym, ap, subst, ◌∙◌, inl, inr,
  Option, none, some, List, [], ◌∷◌, ◌++◌, length, arith, append-nil, Option-cases, if◌then◌else◌,
}
use xcbuild.Prelude.Text.{Bytes, equal, equal_refl}
use xcbuild.Settings.Value.{Value, nil, string, reference}
use xcbuild.Settings.Level.{Condition, Level, get}
use xcbuild.Settings.Environment.{
  Environment, Context, Resolver, find_level, resolve_inheritance, resolve_assignment,
  resolve_reference, resolve_entries, resolve_value, resolve, inherited, tail,
}

-- A value of literals and of `$(inherited)`.
unfoldable pub IsLayer : Value → Type 0
IsLayer nil = Unit
IsLayer (string s rest) = IsLayer rest
IsLayer (reference name rest) = (name ≡ string inherited nil) × IsLayer rest

-- The text of such a value, on what it inherits.
unfoldable pub fill : Value → Bytes → Bytes
fill nil below = []
fill (string s rest) below = s ++ fill rest below
fill (reference name rest) below = below ++ fill rest below

-- All values of the setting in the levels, each on those of the levels behind it.
unfoldable pub stacked : List Level → Bytes → Condition → Bytes
unfolding fill
stacked [] setting condition = []
stacked (level ∷ levels) setting condition = elim (get level setting condition) [
  | none ↦ stacked levels setting condition
  | some v ↦ fill v (stacked levels setting condition)
]

unfoldable pub is_set : List Level → Bytes → Condition → Bool
is_set [] setting condition = false
is_set (level ∷ levels) setting condition = elim (get level setting condition) [
  | none ↦ is_set levels setting condition
  | some v ↦ true
]

-- Each value of the setting is of literals and of `$(inherited)`.
unfoldable pub AreLayers : List Level → Bytes → Condition → Type 0
unfolding IsLayer
AreLayers [] setting condition = Unit
AreLayers (level ∷ levels) setting condition =
    ((v : Value) → get level setting condition ≡ some v → IsLayer v)
    × AreLayers levels setting condition

is_inherited : (setting : Bytes) → (equal inherited setting || equal inherited inherited) ≡ true
is_inherited setting = ground (arith, equal_refl inherited)

module _ (f : Resolver) (levels : List Level) (condition : Condition) (setting : Bytes)
    (rest : List Level) where
  resolve_reference-inherited :
      resolve_reference f levels condition (some (setting, rest)) inherited
      ≡ resolve_inheritance f condition setting rest
  unfolding resolve_reference
  resolve_reference-inherited = rw (is_inherited setting) refl

  -- The references of a layer.
  resolve_entries-IsLayer :
      (v : Value) (below : Bytes)
      → IsLayer v
      → ((x : Context) → f condition (string inherited nil) x ≡ some inherited)
      → resolve_inheritance f condition setting rest ≡ some below
      → resolve_entries f levels condition (some (setting, rest)) v ≡ some (fill v below)
  unfolding resolve_entries fill IsLayer
  resolve_entries-IsLayer nil below h name i = refl
  resolve_entries-IsLayer (string s v) below h name i =
      rw (resolve_entries-IsLayer v below h name i) refl
  resolve_entries-IsLayer (reference n v) below (e, h) name i =
      subst
        (λ m.
          resolve_entries f levels condition (some (setting, rest)) (reference m v)
          ≡ some (below ++ fill v below))
        (sym e)
        (rw
          (
            resolve_entries,
            name (some (setting, rest)),
            resolve_reference-inherited,
            i,
            resolve_entries-IsLayer v below h name i,
          )
          refl)

literal :
    (fuel : ℕ) (levels : List Level) (condition : Condition) (x : Context)
    → resolve_value (suc fuel) levels condition (string inherited nil) x ≡ some inherited
unfolding resolve_value resolve_entries
literal fuel levels condition x = ap some (append-nil inherited)

-- A level that does not set it, and one that does.
module _ (level : Level) (ls : List Level) (setting : Bytes) (condition : Condition) where
  find_level-none :
      get level setting condition ≡ none
      → find_level (level ∷ ls) setting condition ≡ find_level ls setting condition
  unfolding find_level
  find_level-none n = rw (find_level, n) refl

  find_level-some :
      (v : Value)
      → get level setting condition ≡ some v
      → find_level (level ∷ ls) setting condition ≡ some (v, level ∷ ls)
  unfolding find_level
  find_level-some v e = rw (find_level, e) refl

  stacked-none :
      get level setting condition ≡ none
      → stacked (level ∷ ls) setting condition ≡ stacked ls setting condition
  unfolding stacked
  stacked-none n = rw (stacked, n) refl

  stacked-some :
      (v : Value)
      → get level setting condition ≡ some v
      → stacked (level ∷ ls) setting condition ≡ fill v (stacked ls setting condition)
  unfolding stacked
  stacked-some v e = rw (stacked, e) refl

abbrev found_by : Resolver → Bytes → Condition → Option (Value × List Level) → Option Bytes
found_by f setting condition none = some []
found_by f setting condition (some (v, rest)) = f condition v (some (setting, rest))

resolve_inheritance-found :
    (f : Resolver) (condition : Condition) (setting : Bytes) (level : Level) (ls : List Level)
    → resolve_inheritance f condition setting (level ∷ ls)
      ≡ found_by f setting condition (find_level ls setting condition)
unfolding resolve_inheritance tail
resolve_inheritance-found f condition setting level ls =
    elim (Option-cases (find_level ls setting condition)) [
      | inl n ↦ rw (resolve_inheritance, n) refl
      | inr ((v, rest), e) ↦ rw (resolve_inheritance, e) refl
    ]

resolve_value-suc :
    (fuel : ℕ) (levels : List Level) (condition : Condition) (v : Value) (x : Context)
    → resolve_value (suc fuel) levels condition v x
      ≡ resolve_entries (resolve_value fuel levels) levels condition x v
unfolding resolve_value
resolve_value-suc fuel levels condition v x = refl

-- From any level on.
found-stacked :
    (fuel : ℕ) (levels ls : List Level) (setting : Bytes) (condition : Condition)
    → length ls ≤ fuel
    → AreLayers ls setting condition
    → found_by (resolve_value (suc fuel) levels) setting condition (find_level ls setting condition)
      ≡ some (stacked ls setting condition)
unfolding AreLayers
found-stacked fuel levels [] setting condition l h = unfold find_level in unfold stacked in refl
found-stacked zero levels (level ∷ ls) setting condition l h = absurd (omega arith)
found-stacked (suc fuel) levels (level ∷ ls) setting condition l h =
    let f = resolve_value (suc fuel) levels in
    elim (Option-cases (get level setting condition)) [
      | inl n ↦
          ap (found_by (resolve_value (suc (suc fuel)) levels) setting condition)
            (find_level-none level ls setting condition n)
          ∙ found-stacked (suc fuel) levels ls setting condition (omega arith) h.1
          ∙ ap some (sym (stacked-none level ls setting condition n))
      | inr (v, e) ↦
          ap (found_by (resolve_value (suc (suc fuel)) levels) setting condition)
            (find_level-some level ls setting condition v e)
          ∙ (resolve_value-suc (suc fuel) levels condition v (some (setting, level ∷ ls))
              ∙ resolve_entries-IsLayer f levels condition setting (level ∷ ls) v
                  (stacked ls setting condition) (h.0 v e) (literal fuel levels condition)
                  (resolve_inheritance-found f condition setting level ls
                    ∙ found-stacked fuel levels ls setting condition (omega arith) h.1))
          ∙ ap some (sym (stacked-some level ls setting condition v e))
    ]

is_set-find_level :
    (ls : List Level) (setting : Bytes) (condition : Condition)
    → ((is_set ls setting condition ≡ true)
        × (found : Value × List Level) × (find_level ls setting condition ≡ some found))
      ⊎ ((is_set ls setting condition ≡ false) × (find_level ls setting condition ≡ none))
unfolding is_set find_level
is_set-find_level [] setting condition = inr (refl, refl)
is_set-find_level (level ∷ ls) setting condition =
    elim (Option-cases (get level setting condition)) [
      | inl n ↦ rw (is_set, find_level, n) (is_set-find_level ls setting condition)
      | inr (v, e) ↦
          inl (rw (is_set, e) refl, (v, level ∷ ls), find_level-some level ls setting condition v e)
    ]

module _ (f : Resolver) (levels : List Level) (setting : Bytes) where
  assignment_found :
      (condition : Condition) (found : Value × List Level)
      → find_level levels setting condition ≡ some found
      → resolve_assignment f levels condition setting
        ≡ found_by f setting condition (find_level levels setting condition)
  unfolding resolve_assignment
  assignment_found condition found e = rw (resolve_assignment, e) refl

  assignment_fallback :
      (condition : Condition)
      → find_level levels setting condition ≡ none
      → resolve_assignment f levels condition setting
        ≡ found_by f setting [] (find_level levels setting [])
  unfolding resolve_assignment
  assignment_fallback [] n = rw (resolve_assignment, n) refl
  assignment_fallback (p ∷ condition) n = elim (Option-cases (find_level levels setting [])) [
    | inl m ↦ rw (resolve_assignment, n, m) refl
    | inr ((v, rest), e) ↦ rw (resolve_assignment, n, e) refl
  ]

-- With more fuel than levels, where each value that a level gives the setting is of literals and
-- references to `inherited`, the setting resolves to the value of the first level that has it, in which
-- the text of the levels behind stands for each reference, and so on to the last, on nothing: under the
-- condition if a level has the setting under it, and else under the empty one.
pub resolve-stacked :
    (fuel : ℕ) (env : Environment) (setting : Bytes) (condition : Condition)
    → length env.levels < fuel
    → AreLayers env.levels setting condition
    → AreLayers env.levels setting []
    → resolve fuel env setting condition
      ≡ some (
          stacked env.levels setting
            (if is_set env.levels setting condition then condition else []))
unfolding resolve
resolve-stacked zero env setting condition l h k = absurd (omega arith)
resolve-stacked (suc fuel) env setting condition l h k =
    let levels = env.levels in
    let f = resolve_value (suc fuel) levels in
    let enough : length levels ≤ fuel = omega arith in
    elim (is_set-find_level levels setting condition) [
      | inl (b, found, e) ↦ rw b (
          assignment_found f levels setting condition found e
          ∙ found-stacked fuel levels levels setting condition enough h)
      | inr (b, n) ↦ rw b (
          assignment_fallback f levels setting condition n
          ∙ found-stacked fuel levels levels setting [] enough k)
    ]
