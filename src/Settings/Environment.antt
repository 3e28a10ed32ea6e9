-- ===== src/Settings/Environment.antt =====
-- Libraries/pbxsetting/Sources/Environment.cpp: the levels of an environment and the resolution of
-- settings. The recursion of `resolveValue` takes fuel: settings that refer to one another have
-- none that is enough, as the program's recursion then has no end.
pub mod Levels
pub mod Fuel
pub mod Inherited
use xcbuild.Prelude.{
  ℕ, zero, suc, ◌+◌, Bool, true, false, ◌&&◌, ◌||◌, Option, none, some, List, [], ◌∷◌, ◌++◌, ◌==◌,
  if◌then◌else◌, length, take, drop,
}
use xcbuild.Prelude.Text.{Bytes, codes, equal, split_first}
use xcbuild.Settings.Value.{Value, nil, string, reference}
use xcbuild.Settings.Operations.{process_operation}
use xcbuild.Settings.Level.{Condition, Setting, Level, get}

-- `_levels`, of which the first `_offset` are not default levels.
pub record Environment : Type 0 where
  pub levels : List Level
  pub offset : ℕ

unfoldable pub empty : Environment
empty = record { levels = []; offset = 0 }

unfoldable pub insert_front : Level → Bool → Environment → Environment
insert_front level false env = record { levels = level ∷ env.levels; offset = suc env.offset }
insert_front level true env = record env {
  levels = take env.offset env.levels ++ level ∷ drop env.offset env.levels;
}

unfoldable pub insert_back : Level → Bool → Environment → Environment
insert_back level false env = record {
  levels = take env.offset env.levels ++ level ∷ drop env.offset env.levels;
  offset = suc env.offset;
}
insert_back level true env = record env { levels = env.levels ++ level ∷ [] }

-- The first level that has the setting, with the levels from it on: the iterator `it`.
unfoldable pub find_level : List Level → Bytes → Condition → Option (Value × List Level)
find_level [] setting condition = none
find_level (level ∷ levels) setting condition = elim (get level setting condition) [
  | some v ↦ some (v, level ∷ levels)
  | none ↦ find_level levels setting condition
]

-- `InheritanceContext`: none where it is not valid, else the setting and the levels from `it` on.
abbrev pub Context : Type 0
Context = Option (Bytes × List Level)

-- The recursive calls of `resolveValue`.
abbrev pub Resolver : Type 0
Resolver = Condition → Value → Context → Option Bytes

unfoldable pub tail : List Level → List Level
tail [] = []
tail (level ∷ levels) = levels

-- `resolveInheritance`: the next level that has the setting.
unfoldable pub resolve_inheritance : Resolver → Condition → Bytes → List Level → Option Bytes
unfolding find_level tail
resolve_inheritance resolve condition setting levels =
    elim (find_level (tail levels) setting condition) [
      | none ↦ some []
      | some (v, rest) ↦ resolve condition v (some (setting, rest))
    ]

-- `resolveAssignment`. Its call of itself is with the empty condition, and makes no further one.
unfoldable pub resolve_assignment : Resolver → List Level → Condition → Bytes → Option Bytes
unfolding find_level
resolve_assignment resolve levels condition setting =
    let fallback : Option Bytes = elim condition [
      | [] ↦ some []
      | _ ∷ _ ↦ elim (find_level levels setting []) [
        | some (v, rest) ↦ resolve [] v (some (setting, rest))
        | none ↦ some []
      ]
    ] in
    elim (find_level levels setting condition) [
      | some (v, rest) ↦ resolve condition v (some (setting, rest))
      | none ↦ fallback
    ]

abbrev pub is_colon : ℕ → Bool
is_colon c = c == b':'

-- The operations behind the first colon, one after the other; a round for each byte is enough.
unfoldable pub process_operations : ℕ → Bytes → Bytes → Bytes
unfolding process_operation split_first
process_operations zero value operations = value
process_operations (suc n) value operations = elim (split_first is_colon operations) [
  | none ↦ process_operation value operations
  | some (operation, rest) ↦ process_operations n (process_operation value operation) rest
]

abbrev pub inherited : Bytes
inherited = codes "inherited"

-- A reference whose name is resolved.
unfoldable pub resolve_reference :
    Resolver → List Level → Condition → Context → Bytes → Option Bytes
unfolding resolve_inheritance resolve_assignment process_operations equal split_first
resolve_reference resolve levels condition context resolved =
    let operations_of : Option (Bytes × Bytes) = split_first is_colon resolved in
    let assigned : Option Bytes = elim operations_of [
      | none ↦ resolve_assignment resolve levels condition resolved
      | some (setting, operations) ↦ elim (resolve_assignment resolve levels condition setting) [
        | none ↦ none
        | some value ↦ some (process_operations (suc (length operations)) value operations)
      ]
    ] in
    elim context [
      | none ↦ assigned
      | some (setting, rest) ↦
          (if equal resolved setting || equal resolved inherited
            then resolve_inheritance resolve condition setting rest
            else assigned)
    ]

-- The loop of `resolveValue` over the entries.
unfoldable pub resolve_entries : Resolver → List Level → Condition → Context → Value → Option Bytes
unfolding resolve_reference
resolve_entries resolve levels condition context nil = some []
resolve_entries resolve levels condition context (string s rest) =
    elim (resolve_entries resolve levels condition context rest) [
      | none ↦ none
      | some r ↦ some (s ++ r)
    ]
resolve_entries resolve levels condition context (reference v rest) =
    let others = resolve_entries resolve levels condition context rest in
    elim (resolve condition v context) [
      | none ↦ none
      | some resolved ↦ elim (resolve_reference resolve levels condition context resolved) [
        | none ↦ none
        | some text ↦ elim others [ none ↦ none | some r ↦ some (text ++ r) ]
      ]
    ]

-- `resolveValue`; `none` says that the fuel ran out.
unfoldable pub resolve_value : ℕ → List Level → Resolver
unfolding resolve_entries
resolve_value zero levels condition value context = none
resolve_value (suc fuel) levels condition value context =
    resolve_entries (resolve_value fuel levels) levels condition context value

unfoldable pub resolve : ℕ → Environment → Bytes → Condition → Option Bytes
unfolding resolve_value
resolve fuel env setting condition =
    resolve_assignment (resolve_value fuel env.levels) env.levels condition setting

unfoldable pub expand : ℕ → Environment → Value → Condition → Option Bytes
unfolding resolve_value
expand fuel env value condition = resolve_value fuel env.levels condition value none
