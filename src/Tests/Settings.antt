-- ===== src/Tests/Settings.antt =====
-- Libraries/pbxsetting: environments at concrete inputs.
use xcbuild.Prelude.{
  arith, subst, if◌then◌else◌, true, false, ◌≡◌, refl, none, some, [], ◌∷◌, Every,
}
use xcbuild.Plist.Writer.Escaped.{some_inj}
use xcbuild.Prelude.Text.{Bytes, codes, equal, ne_of_equal, split_first}
use xcbuild.Settings.Value.{Value, nil, string, reference}
use xcbuild.Settings.Level.{Setting, Level, match, get, GetsLast, get-GetsLast}
use xcbuild.Settings.Environment.{
  Environment, empty, insert_front, insert_back, resolve, find_level,
}
use xcbuild.Settings.Environment.Levels.{IsSplit, insert-IsSplit, resolve-insert_front}
use xcbuild.Settings.Environment.Inherited.{IsLayer, AreLayers, stacked, is_set, resolve-stacked}
use xcbuild.Settings.Environment.Fuel.{Mutual, refers_to, resolve-Mutual}

abbrev setting : Bytes → Value → Setting
setting name value = record { name = name; condition = []; value = value }

abbrev defaults : Level
defaults =
    setting (codes "A") (string (codes "x") nil) ∷ setting (codes "B") (refers_to (codes "A")) ∷ []

-- `A = $(inherited)y`
abbrev project : Level
project =
    setting (codes "A") (reference (string (codes "inherited") nil) (string (codes "y") nil)) ∷ []

abbrev env : Environment
env = insert_front project false (insert_back defaults true empty)

resolve-env : resolve 9 env (codes "B") [] ≡ some (codes "xy")
unfolding resolve insert_front insert_back empty get
resolve-env = refl

-- `A = x`, then `A = $(inherited)y`, then a level without it.
abbrev three : Environment
three = record { levels = [] ∷ project ∷ defaults ∷ []; offset = 3 }

three-AreLayers : AreLayers three.levels (codes "A") []
unfolding AreLayers IsLayer get equal
three-AreLayers = (
  λ v e. absurd (cc e),
  (λ v e. subst IsLayer (some_inj e) (refl, tt), (λ v e. subst IsLayer (some_inj e) tt, tt)),
)

resolve-stacked_example :
    resolve 4 three (codes "A") []
    ≡ some
        (stacked three.levels (codes "A") (if is_set three.levels (codes "A") [] then [] else []))
resolve-stacked_example =
    resolve-stacked 4 three (codes "A") [] (omega arith) three-AreLayers three-AreLayers

stacked-three : stacked three.levels (codes "A") [] ≡ codes "xy"
unfolding stacked get equal
stacked-three = refl

empty-IsSplit : IsSplit empty [] []
unfolding empty
empty-IsSplit = record { levels_are = refl; offset_is = refl }

insert-IsSplit_example :
    IsSplit (insert_front project false empty) (project ∷ []) []
    × IsSplit (insert_front project true empty) [] (project ∷ [])
    × IsSplit (insert_back project false empty) (project ∷ []) []
    × IsSplit (insert_back project true empty) [] (project ∷ [])
insert-IsSplit_example = insert-IsSplit empty [] [] project empty-IsSplit

get-defaults : get defaults (codes "A") [] ≡ some (string (codes "x") nil)
unfolding get equal
get-defaults = refl

resolve-insert_front_example :
    resolve 1 (insert_front defaults false env) (codes "A") [] ≡ some (codes "x")
resolve-insert_front_example =
    resolve-insert_front 0 env defaults (codes "A") [] (codes "x") get-defaults

get-GetsLast_example :
    ((v : Value) → get defaults (codes "A") [] ≡ some v → GetsLast defaults (codes "A") [] v)
    × (get defaults (codes "A") [] ≡ none → Every (λ s. match s (codes "A") [] ≡ false) defaults)
get-GetsLast_example = get-GetsLast defaults (codes "A") []

-- `A = $(B)` and `B = $(A)`
abbrev loop : Environment
loop = record {
  levels =
      (setting (codes "A") (refers_to (codes "B"))
        ∷ setting (codes "B") (refers_to (codes "A"))
        ∷ [])
      ∷ [];
  offset = 1;
}

loop-Mutual : Mutual loop.levels (codes "A") (codes "B")
unfolding find_level get split_first equal
loop-Mutual = record {
  rest_a = loop.levels;
  rest_b = loop.levels;
  find_a = refl;
  find_b = refl;
  distinct = ne_of_equal (codes "A") (codes "B") refl;
  not_inherited_a = ne_of_equal (codes "A") (codes "inherited") refl;
  not_inherited_b = ne_of_equal (codes "B") (codes "inherited") refl;
  no_colon_a = refl;
  no_colon_b = refl;
}

resolve-Mutual_example : resolve 1000 loop (codes "A") [] ≡ none
resolve-Mutual_example = resolve-Mutual 1000 loop (codes "A") (codes "B") loop-Mutual
