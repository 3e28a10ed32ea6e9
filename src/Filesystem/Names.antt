-- ===== src/Filesystem/Names.antt =====
-- The names that WalkPath of MemoryFilesystem.cpp reads off a path.
use xcbuild.Prelude.{
  if◌then◌else◌, Bool, true, false, ◌≡◌, refl, ap, ◌∙◌, ◌⊎◌, inl, inr, List, [], ◌∷◌, ◌++◌,
  Bool-cases, Every, Every-append, append_assoc, append-nil, drop,
}
use xcbuild.Prelude.Text.{Bytes, Lacks}
use xcbuild.Path.{is_separator, separator, is_absolute}
use xcbuild.Path.Components.{IsPlain, IsNormal, IsNormal-tail, plain, up}
use xcbuild.Path.Normalize.{join_stack, render, stack_of, stack_of-IsNormal, normalized-render}
use xcbuild.Filesystem.{split_names, names_of}

split_names-append :
    (name a b : Bytes)
    → split_names name (a ++ separator ∷ b) ≡ split_names name a ++ split_names [] b
unfolding split_names
split_names-append name [] b = refl
split_names-append name (c ∷ a) b = elim (Bool-cases (is_separator c)) [
  | inl e ↦ rw e (ap (λ t. name ∷ t) (split_names-append [] a b))
  | inr e ↦ rw e (split_names-append (name ++ c ∷ []) a b)
]

split_names-Lacks : (name a : Bytes) → Lacks is_separator a → split_names name a ≡ (name ++ a) ∷ []
unfolding split_names
split_names-Lacks name [] h = rw (append-nil name) refl
split_names-Lacks name (c ∷ a) h =
    rw h.0
      (split_names-Lacks (name ++ c ∷ []) a h.1 ∙ ap (λ t. t ∷ []) (append_assoc name (c ∷ []) a))

IsNormal-IsPlain : {c : Bytes} {s : List Bytes} → IsNormal true (c ∷ s) → IsPlain c
IsNormal-IsPlain (plain p n) = p
IsNormal-IsPlain (up a e h) = absurd (cc a)

split_names-Every :
    (c : Bytes) (s : List Bytes)
    → IsNormal true (c ∷ s)
    → Every IsPlain (split_names [] (join_stack (c ∷ s)))
unfolding join_stack
split_names-Every c [] n =
    rw (split_names-Lacks [] c (IsNormal-IsPlain n).no_separator) (IsNormal-IsPlain n, tt)
split_names-Every c (d ∷ s) n = rw (split_names-append [] (join_stack (d ∷ s)) c) (
    rw (split_names-Lacks [] c (IsNormal-IsPlain n).no_separator) (
      Every-append IsPlain (split_names [] (join_stack (d ∷ s))) (c ∷ [])
        (split_names-Every d s (IsNormal-tail n)) (IsNormal-IsPlain n, tt)))

-- The root, or names that are components of a normal path.
abbrev pub IsNames : List Bytes → Type 0
IsNames names = (names ≡ [] ∷ []) ⊎ Every IsPlain names

split_names-IsNames : (s : List Bytes) → IsNormal true s → IsNames (split_names [] (join_stack s))
split_names-IsNames [] n = unfold split_names join_stack in inl refl
split_names-IsNames (c ∷ s) n = inr (split_names-Every c s n)

names_of-render :
    (path : Bytes)
    → names_of path ≡ (
        if is_absolute path
        then split_names [] (drop 1 (render (is_absolute path) (stack_of path)))
        else [])
unfolding names_of
names_of-render path =
    ap (λ t. if is_absolute path then split_names [] (drop 1 t) else []) (normalized-render path)

render-IsNames :
    (b : Bool) (s : List Bytes)
    → IsNormal b s
    → IsNames (if b then split_names [] (drop 1 (render b s)) else [])
unfolding render
render-IsNames true s n = split_names-IsNames s n
render-IsNames false s n = inr tt

-- Every path has the root or proper names.
pub names_of-IsNames : (path : Bytes) → IsNames (names_of path)
names_of-IsNames path =
    rw (names_of-render path)
      (render-IsNames (is_absolute path) (stack_of path) (stack_of-IsNormal path))
