-- ===== src/Settings/Level.antt =====
-- Libraries/pbxsetting/Sources/Level.cpp, Setting.cpp and Condition.cpp: settings with conditions,
-- and the levels that hold them. A condition's map is the list of its entries.
use xcbuild.Prelude.{
  Bool, true, false, ◌&&◌, Option, none, some, List, [], ◌∷◌, ◌++◌, ◌≡◌, refl, inl, inr,
  if◌then◌else◌, arith, Bool-cases, Option-cases, Every,
}
use xcbuild.Prelude.Text.{Bytes, equal}
use xcbuild.Wildcard
use xcbuild.Settings.Value.{Value}

abbrev pub Condition : Type 0
Condition = List (Bytes × Bytes)

-- `condition._values.find(key)`
unfoldable pub find : Bytes → Condition → Option Bytes
find key [] = none
find key ((k, v) ∷ values) = if equal k key then some v else find key values

-- `Condition::match`: every entry of the first has a matching one in the second.
unfoldable pub match_condition : Condition → Condition → Bool
unfolding find
match_condition [] condition = true
match_condition ((key, pattern) ∷ values) condition = elim (find key condition) [
  | none ↦ false
  | some value ↦ Wildcard.match pattern value && match_condition values condition
]

pub record Setting : Type 0 where
  pub name : Bytes
  pub condition : Condition
  pub value : Value

unfoldable pub match : Setting → Bytes → Condition → Bool
unfolding match_condition
match s name condition = equal s.name name && match_condition s.condition condition

abbrev pub Level : Type 0
Level = List Setting

-- `Level::get`: the last setting that matches.
unfoldable pub get : Level → Bytes → Condition → Option Value
unfolding match
get [] name condition = none
get (s ∷ level) name condition = elim (get level name condition) [
  | some v ↦ some v
  | none ↦ (if match s name condition then some s.value else none)
]

-- Where a level has its answer: a matching setting with no matching one behind it.
pub record GetsLast (level : Level) (name : Bytes) (condition : Condition) (v : Value)
    : Type 0 where
  pub before : Level
  pub setting : Setting
  pub after : Level
  pub splits : level ≡ before ++ setting ∷ after
  pub matches : match setting name condition ≡ true
  pub value_is : setting.value ≡ v
  pub overridden : Every (λ s. match s name condition ≡ false) after

get-none :
    (level : Level) (name : Bytes) (condition : Condition)
    → get level name condition ≡ none
    → Every (λ s. match s name condition ≡ false) level
unfolding get
get-none [] name condition h = tt
get-none (s ∷ level) name condition h = elim (Option-cases (get level name condition)) [
  | inl e ↦ (
    elim (Bool-cases (match s name condition)) [ inl m ↦ absurd (ground arith) | inr m ↦ m ],
    get-none level name condition e,
  )
  | inr (v, e) ↦ absurd (ground arith)
]

GetsLast-cons :
    (s : Setting) (level : Level) (name : Bytes) (condition : Condition) (v : Value)
    → GetsLast level name condition v
    → GetsLast (s ∷ level) name condition v
GetsLast-cons s level name condition v g = record {
  before = s ∷ g.before;
  setting = g.setting;
  after = g.after;
  splits = λ i. s ∷ g.splits i;
  matches = g.matches;
  value_is = g.value_is;
  overridden = g.overridden;
}

get-some :
    (level : Level) (name : Bytes) (condition : Condition) (v : Value)
    → get level name condition ≡ some v
    → GetsLast level name condition v
unfolding get
get-some [] name condition v h = absurd (cc h)
get-some (s ∷ level) name condition v h = elim (Option-cases (get level name condition)) [
  | inl e ↦ record {
    before = [];
    setting = s;
    after = level;
    splits = refl;
    matches = ground arith;
    value_is = ground arith;
    overridden = get-none level name condition e;
  }
  | inr (w, e) ↦
      let same : get level name condition ≡ some v = ground arith in
      GetsLast-cons s level name condition v (get-some level name condition v same)
]

-- A level answers with the value of the last setting that matches, and only if one does.
pub get-GetsLast :
    (level : Level) (name : Bytes) (condition : Condition)
    → ((v : Value) → get level name condition ≡ some v → GetsLast level name condition v)
      × (get level name condition ≡ none → Every (λ s. match s name condition ≡ false) level)
get-GetsLast level name condition = (get-some level name condition, get-none level name condition)
