-- ===== src/Settings/Environment/Levels.antt =====
-- The order of the levels of an environment, and which of them answers.
use xcbuild.Prelude.{
  ℕ, suc, true, false, ◌≡◌, refl, ap, sym, ◌∙◌, some, List, [], ◌∷◌, ◌++◌, arith, length,
  length-append, take, drop, append_assoc, append-nil,
}
use xcbuild.Prelude.Text.{Bytes}
use xcbuild.Settings.Value.{nil, string}
use xcbuild.Settings.Level.{Condition, Level, get}
use xcbuild.Settings.Environment.{
  Environment, insert_front, insert_back, find_level, resolve_assignment, resolve_entries,
  resolve_value, resolve,
}

-- The environment holds two groups of levels: those inserted as default levels stand behind the
-- others.
pub record IsSplit (env : Environment) (normal defaults : List Level) : Type 0 where
  pub levels_are : env.levels ≡ normal ++ defaults
  pub offset_is : env.offset ≡ length normal

take-length : (xs ys : List Level) → take (length xs) (xs ++ ys) ≡ xs
take-length [] ys = refl
take-length (x ∷ xs) ys = ap (λ r. x ∷ r) (take-length xs ys)

drop-length : (xs ys : List Level) → drop (length xs) (xs ++ ys) ≡ ys
drop-length [] ys = refl
drop-length (x ∷ xs) ys = drop-length xs ys

-- The two ends of the two groups.
middle :
    (env : Environment) (normal defaults : List Level) (level : Level)
    → IsSplit env normal defaults
    → take env.offset env.levels ++ level ∷ drop env.offset env.levels ≡ normal ++ level ∷ defaults
middle env normal defaults level s =
    rw (s.offset_is, s.levels_are, take-length normal defaults, drop-length normal defaults)

-- `insertFront` and `insertBack` put a level at the front or the back of its own group, and leave
-- the other group as it is.
pub insert-IsSplit :
    (env : Environment) (normal defaults : List Level) (level : Level)
    → IsSplit env normal defaults
    → IsSplit (insert_front level false env) (level ∷ normal) defaults
      × IsSplit (insert_front level true env) normal (level ∷ defaults)
      × IsSplit (insert_back level false env) (normal ++ level ∷ []) defaults
      × IsSplit (insert_back level true env) normal (defaults ++ level ∷ [])
unfolding insert_front insert_back
insert-IsSplit env normal defaults level s = (
  record { levels_are = ap (λ t. level ∷ t) s.levels_are; offset_is = ap suc s.offset_is },
  record { levels_are = middle env normal defaults level s; offset_is = s.offset_is },
  record {
    levels_are =
        middle env normal defaults level s ∙ sym (append_assoc normal (level ∷ []) defaults);
    offset_is = omega (arith, s.offset_is, length-append normal (level ∷ []));
  },
  record {
    levels_are = rw (s.levels_are) (append_assoc normal defaults (level ∷ []));
    offset_is = s.offset_is;
  },
)

-- A level inserted at the front of the levels that are no defaults overrides all others: a literal
-- that it gives a setting is the setting's value.
pub resolve-insert_front :
    (fuel : ℕ) (env : Environment) (level : Level) (name : Bytes) (condition : Condition)
    (s : Bytes)
    → get level name condition ≡ some (string s nil)
    → resolve (suc fuel) (insert_front level false env) name condition ≡ some s
unfolding resolve insert_front resolve_assignment find_level resolve_value resolve_entries
resolve-insert_front fuel env level name condition s h =
    rw (h, resolve, resolve_assignment, find_level) (ap some (append-nil s))
