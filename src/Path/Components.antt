-- ===== src/Path/Components.antt =====
-- The components of a path, and what the loop over its bytes makes of a list of components.
use xcbuild.Prelude.{
  ℕ, Bool, true, false, ◌≡◌, ◌≢◌, inl, inr, refl, ap, ◌∙◌, List, [], ◌∷◌, ◌++◌, Bool-cases, Every,
  Every-append, append_assoc,
}
use xcbuild.Prelude.Text.{Bytes, equal, equal_iff, ne_of_equal, equal_of_ne, Lacks}
use xcbuild.Path.{
  separator, is_separator, dot, dotdot, is_absolute, previous_component, end_component, walk,
}

-- An ordinary component: no separator in it, and not empty, `.` or `..`.
pub record IsPlain (c : Bytes) : Type 0 where
  pub ne_nil : c ≢ []
  pub ne_dot : c ≢ dot
  pub ne_dotdot : c ≢ dotdot
  pub no_separator : Lacks is_separator c

-- The components of a normal path, the last one first: `..` stands only at the front of a relative
-- path, and all else is plain.
pub data IsNormal (absolute : Bool) : List Bytes → Type 0 where
  nil : IsNormal absolute []
  plain :
      {c : Bytes} {cs : List Bytes} → IsPlain c → IsNormal absolute cs → IsNormal absolute (c ∷ cs)
  up :
      {c : Bytes} {cs : List Bytes}
      → absolute ≡ false
      → c ≡ dotdot
      → Every (λ d. d ≡ dotdot) cs
      → IsNormal absolute (c ∷ cs)

pub IsNormal-tail :
    {absolute : Bool} {c : Bytes} {cs : List Bytes}
    → IsNormal absolute (c ∷ cs)
    → IsNormal absolute cs
IsNormal-tail (plain p n) = n
IsNormal-tail {cs = []} (up a e h) = nil
IsNormal-tail {cs = c ∷ cs} (up a e h) = up a h.0 h.1

-- The last component of a normal path is `..` only where all are.
IsNormal-dotdot :
    {absolute : Bool} {c : Bytes} {cs : List Bytes}
    → IsNormal absolute (c ∷ cs)
    → c ≡ dotdot
    → Every (λ d. d ≡ dotdot) cs
IsNormal-dotdot (plain p n) e = absurd (p.ne_dotdot e)
IsNormal-dotdot (up a e h) _ = h

previous_component-IsNormal :
    (absolute : Bool) (output : List Bytes)
    → IsNormal absolute output
    → IsNormal absolute (previous_component absolute output)
unfolding previous_component
previous_component-IsNormal true [] n = nil
previous_component-IsNormal false [] n = up refl refl tt
previous_component-IsNormal true (back ∷ output) n = IsNormal-tail n
previous_component-IsNormal false (back ∷ output) n = elim (Bool-cases (equal back dotdot)) [
  | inl e ↦
      rw e (
        up refl refl ((equal_iff back dotdot).0 e, IsNormal-dotdot n ((equal_iff back dotdot).0 e)))
  | inr e ↦ rw e (IsNormal-tail n)
]

pub end_component-IsNormal :
    (absolute : Bool) (c : Bytes) (output : List Bytes)
    → Lacks is_separator c
    → IsNormal absolute output
    → IsNormal absolute (end_component absolute true c output)
unfolding end_component
end_component-IsNormal absolute [] output l n = n
end_component-IsNormal absolute (x ∷ c) output l n = elim (Bool-cases (equal (x ∷ c) dotdot)) [
  | inl e ↦ rw e (previous_component-IsNormal absolute output n)
  | inr e ↦ elim (Bool-cases (equal (x ∷ c) dot)) [
    | inl e' ↦ rw (e, e') n
    | inr e' ↦
        rw (e, e')
          (plain
            (record {
              ne_nil = cc;
              ne_dot = ne_of_equal (x ∷ c) dot e';
              ne_dotdot = ne_of_equal (x ∷ c) dotdot e;
              no_separator = l;
            })
            n)
  ]
]

previous_component-dotdot :
    (output : List Bytes)
    → Every (λ d. d ≡ dotdot) output
    → previous_component false output ≡ dotdot ∷ output
unfolding previous_component
previous_component-dotdot [] h = refl
previous_component-dotdot (back ∷ output) h = rw ((equal_iff back dotdot).1 h.0)

end_component-dotdot :
    (output : List Bytes)
    → Every (λ d. d ≡ dotdot) output
    → end_component false true dotdot output ≡ dotdot ∷ output
unfolding end_component equal
end_component-dotdot output h = previous_component-dotdot output h

-- A component that keeps the path normal is pushed as it is.
pub end_component-push :
    {absolute : Bool} (c : Bytes) (output : List Bytes)
    → IsNormal absolute (c ∷ output)
    → end_component absolute true c output ≡ c ∷ output
unfolding end_component
end_component-push [] output (plain p n) = absurd (p.ne_nil refl)
end_component-push (x ∷ c) output (plain p n) =
    rw (equal_of_ne (x ∷ c) dotdot p.ne_dotdot, equal_of_ne (x ∷ c) dot p.ne_dot)
end_component-push c output (up a e h) = rw (a, e) (end_component-dotdot output h)

-- What the loop returns is normal, whatever the bytes.
pub walk-IsNormal :
    (absolute skipping : Bool) (output : List Bytes) (component rest : Bytes)
    → Lacks is_separator component
    → IsNormal absolute output
    → IsNormal absolute (walk absolute true skipping output component rest)
unfolding walk
walk-IsNormal absolute skipping output component [] l n =
    end_component-IsNormal absolute component output l n
walk-IsNormal absolute skipping output component (c ∷ rest) l n =
    elim (Bool-cases (is_separator c)) [
      | inl s ↦ elim (Bool-cases skipping) [
        | inl k ↦ rw (s, k) (walk-IsNormal absolute true output component rest l n)
        | inr k ↦
            rw (s, k)
              (walk-IsNormal absolute true (end_component absolute true component output) [] rest tt
                (end_component-IsNormal absolute component output l n))
      ]
      | inr s ↦ rw s (
          walk-IsNormal absolute false output (component ++ c ∷ []) rest
            (Every-append (λ x. is_separator x ≡ false) component (c ∷ []) l (s, tt)) n)
    ]

-- Bytes of a component are collected.
pub walk_component :
    (absolute skipping : Bool) (output : List Bytes) (component c rest : Bytes) (x : ℕ)
    → Lacks is_separator (x ∷ c)
    → walk absolute true skipping output component ((x ∷ c) ++ rest)
      ≡ walk absolute true false output (component ++ x ∷ c) rest
unfolding walk
walk_component absolute skipping output component [] rest x l = rw (l.0)
walk_component absolute skipping output component (y ∷ c) rest x l = rw (l.0) (
    walk_component absolute false output (component ++ x ∷ []) c rest y l.1
    ∙ ap (λ t. walk absolute true false output t rest) (append_assoc component (x ∷ []) (y ∷ c)))

IsNormal-Lacks :
    {absolute : Bool} {c : Bytes} {cs : List Bytes}
    → IsNormal absolute (c ∷ cs)
    → Lacks is_separator c
IsNormal-Lacks (plain p n) = p.no_separator
IsNormal-Lacks (up a e h) = rw e (refl, (refl, tt))

IsNormal-ne_nil :
    {absolute : Bool} {c : Bytes} {cs : List Bytes} → IsNormal absolute (c ∷ cs) → c ≢ []
IsNormal-ne_nil (plain p n) = p.ne_nil
IsNormal-ne_nil (up a e h) = λ e'. cc

-- A component of a normal path is collected whole.
pub IsNormal-walk :
    (absolute skipping : Bool) (c : Bytes) (cs output : List Bytes) (rest : Bytes)
    → IsNormal absolute (c ∷ cs)
    → walk absolute true skipping output [] (c ++ rest) ≡ walk absolute true false output c rest
IsNormal-walk absolute skipping [] cs output rest n = absurd (IsNormal-ne_nil n refl)
IsNormal-walk absolute skipping (x ∷ c) cs output rest n =
    walk_component absolute skipping output [] c rest x (IsNormal-Lacks n)

pub walk-separator :
    (absolute : Bool) (output : List Bytes) (component rest : Bytes)
    → walk absolute true false output component (separator ∷ rest)
      ≡ walk absolute true true (end_component absolute true component output) [] rest
unfolding walk
walk-separator absolute output component rest = refl

-- A normal path does not begin with a separator.
pub IsNormal-front :
    {absolute : Bool} {c : Bytes} {cs : List Bytes} (rest : Bytes)
    → IsNormal absolute (c ∷ cs)
    → is_absolute (c ++ rest) ≡ false
unfolding is_absolute
IsNormal-front {c = []} rest n = absurd (IsNormal-ne_nil n refl)
IsNormal-front {c = x ∷ c} rest n = (IsNormal-Lacks n).0
