-- ===== src/Settings/Environment/Fuel.antt =====
-- The depth of the recursion of `resolveValue`.
use xcbuild.Prelude.{ℕ, zero, suc, ◌≡◌, ◌≢◌, refl, ap, sym, ◌∙◌, none, some, List, [], append-nil}
use xcbuild.Prelude.Text.{Bytes, equal_of_ne, split_first}
use xcbuild.Settings.Value.{Value, nil, string, reference}
use xcbuild.Settings.Level.{Level}
use xcbuild.Settings.Environment.{
  Environment, Context, Resolver, find_level, resolve_assignment, resolve_reference,
  resolve_entries, resolve_value, resolve, inherited, is_colon,
}

-- A setting whose value is a reference to another one.
abbrev pub refers_to : Bytes → Value
refers_to name = reference (string name nil) nil

-- Two settings that refer to each other.
pub record Mutual (levels : List Level) (a b : Bytes) : Type 0 where
  pub rest_a : List Level
  pub rest_b : List Level
  pub find_a : find_level levels a [] ≡ some (refers_to b, rest_a)
  pub find_b : find_level levels b [] ≡ some (refers_to a, rest_b)
  pub distinct : a ≢ b
  pub not_inherited_a : a ≢ inherited
  pub not_inherited_b : b ≢ inherited
  pub no_colon_a : split_first is_colon a ≡ none
  pub no_colon_b : split_first is_colon b ≡ none

-- A reference to another setting of the empty condition is resolved by that setting's value.
resolve_reference-assigned :
    (f : Resolver) (levels rest rest' : List Level) (a b : Bytes) (v : Value)
    → b ≢ a
    → b ≢ inherited
    → split_first is_colon b ≡ none
    → find_level levels b [] ≡ some (v, rest')
    → resolve_reference f levels [] (some (a, rest)) b ≡ f [] v (some (b, rest'))
unfolding resolve_reference resolve_assignment
resolve_reference-assigned f levels rest rest' a b v ne ni colon find =
    rw (equal_of_ne b a ne, equal_of_ne b inherited ni, colon, resolve_assignment, find)

resolve_entries-refers_to :
    (f : Resolver) (levels : List Level) (x : Context) (b : Bytes)
    → f [] (string b nil) x ≡ some b
    → resolve_reference f levels [] x b ≡ none
    → resolve_entries f levels [] x (refers_to b) ≡ none
unfolding resolve_entries
resolve_entries-refers_to f levels x b name h = rw (name, h)

resolve_value_literal :
    (fuel : ℕ) (levels : List Level) (x : Context) (b : Bytes)
    → resolve_value (suc fuel) levels [] (string b nil) x ≡ some b
unfolding resolve_value resolve_entries
resolve_value_literal fuel levels x b = ap some (append-nil b)

-- One round between two settings that refer to each other.
resolve_value-reference :
    (fuel : ℕ) (levels rest rest' : List Level) (a b : Bytes) (v : Value)
    → b ≢ a
    → b ≢ inherited
    → split_first is_colon b ≡ none
    → find_level levels b [] ≡ some (v, rest')
    → resolve_value (suc fuel) levels [] v (some (b, rest')) ≡ none
    → resolve_value (suc (suc fuel)) levels [] (refers_to b) (some (a, rest)) ≡ none
resolve_value-reference fuel levels rest rest' a b v ne ni colon find h =
    unfold resolve_value in
    resolve_entries-refers_to (resolve_value (suc fuel) levels) levels (some (a, rest)) b
      (resolve_value_literal fuel levels (some (a, rest)) b)
      (resolve_reference-assigned (resolve_value (suc fuel) levels) levels rest rest' a b v ne ni
          colon find
        ∙ h)

resolve_value_one :
    (levels : List Level) (x : Context) (b : Bytes)
    → resolve_value 1 levels [] (refers_to b) x ≡ none
unfolding resolve_value resolve_entries
resolve_value_one levels x b = refl

resolve_value-Mutual :
    (fuel : ℕ) (levels : List Level) (a b : Bytes) (m : Mutual levels a b)
    → (resolve_value fuel levels [] (refers_to b) (some (a, m.rest_a)) ≡ none)
      × (resolve_value fuel levels [] (refers_to a) (some (b, m.rest_b)) ≡ none)
resolve_value-Mutual zero levels a b m = unfold resolve_value in (refl, refl)
resolve_value-Mutual (suc zero) levels a b m = (
  resolve_value_one levels (some (a, m.rest_a)) b,
  resolve_value_one levels (some (b, m.rest_b)) a,
)
resolve_value-Mutual (suc (suc fuel)) levels a b m =
    let ih = resolve_value-Mutual (suc fuel) levels a b m in
    (
      resolve_value-reference fuel levels m.rest_a m.rest_b a b (refers_to a)
          (λ e. m.distinct (sym e)) m.not_inherited_b m.no_colon_b m.find_b ih.1,
      resolve_value-reference fuel levels m.rest_b m.rest_a b a (refers_to b) m.distinct
          m.not_inherited_a m.no_colon_a m.find_a ih.0,
    )

-- Settings that refer to each other have no value at any depth of the recursion.
pub resolve-Mutual :
    (fuel : ℕ) (env : Environment) (a b : Bytes)
    → Mutual env.levels a b
    → resolve fuel env a [] ≡ none
unfolding resolve resolve_assignment
resolve-Mutual fuel env a b m =
    rw (m.find_a, resolve, resolve_assignment) ((resolve_value-Mutual fuel env.levels a b m).0)
