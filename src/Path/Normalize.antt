-- ===== src/Path/Normalize.antt =====
-- `normalized` and `normalizedComponents` of Libraries/libutil/Sources/Relative.cpp.
use mathlib.Core.List.{reverse, reverse-append, concat-ne-nil}
use xcbuild.Prelude.{
  Bool, true, false, ◌≡◌, ◌≢◌, inl, inr, refl, sym, ap, ◌∙◌, List, [], ◌∷◌, ◌++◌, Bool-cases, drop,
  append_assoc, append-nil,
}
use xcbuild.Prelude.Text.{Bytes}
use xcbuild.Path.{
  separator, is_absolute, start_of, walk, normalize_path_components, normalized_components, join,
  normalized, prefix_of, with_prefix,
}
use xcbuild.Path.Components.{
  IsNormal, nil, IsNormal-tail, IsNormal-front, IsNormal-walk, walk-separator, end_component-push,
  walk-IsNormal,
}

-- `join` of the reversed list.
unfoldable pub join_stack : List Bytes → Bytes
join_stack [] = []
join_stack (c ∷ []) = c
join_stack (c ∷ d ∷ s) = join_stack (d ∷ s) ++ separator ∷ c

join_concat :
    (c : Bytes) (cs : List Bytes) (d : Bytes)
    → join ((c ∷ cs) ++ d ∷ []) ≡ join (c ∷ cs) ++ separator ∷ d
unfolding join
join_concat c [] d = refl
join_concat c (e ∷ cs) d =
    ap (λ t. c ++ separator ∷ t) (join_concat e cs d)
    ∙ sym (append_assoc c (separator ∷ join (e ∷ cs)) (separator ∷ d))

join_concat_ne :
    (cs : List Bytes) (d : Bytes) → cs ≢ [] → join (cs ++ d ∷ []) ≡ join cs ++ separator ∷ d
join_concat_ne [] d h = absurd (h refl)
join_concat_ne (c ∷ cs) d h = join_concat c cs d

join-reverse : (s : List Bytes) → join (reverse s) ≡ join_stack s
unfolding join_stack
join-reverse [] = unfold join in refl
join-reverse (c ∷ []) = unfold join in refl
join-reverse (c ∷ d ∷ s) =
    ap join (reverse-append (c ∷ []) (d ∷ s))
    ∙ join_concat_ne (reverse (d ∷ s)) c
        (rw (reverse-append (d ∷ []) s) (concat-ne-nil d (reverse s)))
    ∙ ap (λ t. t ++ separator ∷ c) (join-reverse (d ∷ s))

-- The loop over the joined components arrives at the last one, with the others in the output.
walk-join_stack :
    (absolute : Bool) (c : Bytes) (s : List Bytes) (rest : Bytes)
    → IsNormal absolute (c ∷ s)
    → walk absolute true false [] [] (join_stack (c ∷ s) ++ rest)
      ≡ walk absolute true false s c rest
unfolding join_stack
walk-join_stack absolute c [] rest n = IsNormal-walk absolute false c [] [] rest n
walk-join_stack absolute c (d ∷ s) rest n =
    ap (walk absolute true false [] []) (append_assoc (join_stack (d ∷ s)) (separator ∷ c) rest)
    ∙ walk-join_stack absolute d s (separator ∷ (c ++ rest)) (IsNormal-tail n)
    ∙ walk-separator absolute s d (c ++ rest)
    ∙ ap (λ t. walk absolute true true t [] (c ++ rest)) (end_component-push d s (IsNormal-tail n))
    ∙ IsNormal-walk absolute true c (d ∷ s) (d ∷ s) rest n

walk_back :
    (absolute : Bool) (s : List Bytes)
    → IsNormal absolute s
    → walk absolute true false [] [] (join_stack s) ≡ s
unfolding walk
walk_back absolute [] n = unfold join_stack in refl
walk_back absolute (c ∷ s) n =
    ap (walk absolute true false [] []) (sym (append-nil (join_stack (c ∷ s))))
    ∙ walk-join_stack absolute c s [] n
    ∙ end_component-push c s n

prefix_of_absolute : (raw : Bytes) → is_absolute raw ≡ true → prefix_of raw ≡ separator ∷ []
unfolding prefix_of is_absolute
prefix_of_absolute [] e = absurd (cc e)
prefix_of_absolute (c ∷ raw) e = rw (e, e)

prefix_of_relative : (raw : Bytes) → is_absolute raw ≡ false → prefix_of raw ≡ []
unfolding prefix_of
prefix_of_relative raw e = rw e

-- The two texts that a path is written as: its root, and what stands behind it.
normalized_lem :
    (raw : Bytes)
    → normalized raw
      ≡ prefix_of raw
        ++ join (normalize_path_components (drop (start_of raw) raw) (is_absolute raw) true)
unfolding normalized
normalized_lem raw = elim (Bool-cases (is_absolute raw)) [
  | inl s ↦ rw (s, prefix_of_absolute raw s)
  | inr s ↦ rw (s, prefix_of_relative raw s)
]

-- A path written from its components, the last one first.
unfoldable pub render : Bool → List Bytes → Bytes
unfolding join_stack
render true s = separator ∷ join_stack s
render false s = join_stack s

-- The components that the loop finds, the last one first.
abbrev pub stack_of : Bytes → List Bytes
stack_of raw = walk (is_absolute raw) true false [] [] (drop (start_of raw) raw)

pub stack_of-IsNormal : (raw : Bytes) → IsNormal (is_absolute raw) (stack_of raw)
stack_of-IsNormal raw = walk-IsNormal (is_absolute raw) false [] [] (drop (start_of raw) raw) tt nil

pub normalized-render : (raw : Bytes) → normalized raw ≡ render (is_absolute raw) (stack_of raw)
unfolding render normalize_path_components
normalized-render raw = elim (Bool-cases (is_absolute raw)) [
  | inl s ↦ normalized_lem raw ∙ rw (s, prefix_of_absolute raw s) (rw join-reverse)
  | inr s ↦ normalized_lem raw ∙ rw (s, prefix_of_relative raw s) (rw join-reverse)
]

is_absolute-join_stack :
    {a : Bool} (c : Bytes) (s : List Bytes) (rest : Bytes)
    → IsNormal a (c ∷ s)
    → is_absolute (join_stack (c ∷ s) ++ rest) ≡ false
unfolding join_stack
is_absolute-join_stack c [] rest n = IsNormal-front rest n
is_absolute-join_stack c (d ∷ s) rest n =
    ap is_absolute (append_assoc (join_stack (d ∷ s)) (separator ∷ c) rest)
    ∙ is_absolute-join_stack d s (separator ∷ (c ++ rest)) (IsNormal-tail n)

is_absolute-render : (a : Bool) (s : List Bytes) → IsNormal a s → is_absolute (render a s) ≡ a
unfolding render
is_absolute-render true s n = unfold is_absolute in refl
is_absolute-render false [] n = unfold is_absolute in refl
is_absolute-render false (c ∷ s) n =
    ap is_absolute (sym (append-nil (join_stack (c ∷ s)))) ∙ is_absolute-join_stack c s [] n

stack_of-render : (a : Bool) (s : List Bytes) → IsNormal a s → stack_of (render a s) ≡ s
unfolding render
stack_of-render true s n = rw (is_absolute-render true s n) (walk_back true s n)
stack_of-render false s n = rw (is_absolute-render false s n) (walk_back false s n)

-- A path written from normal components is its own normal form.
pub normalized-render_self :
    (a : Bool) (s : List Bytes) → IsNormal a s → normalized (render a s) ≡ render a s
normalized-render_self a s n =
    normalized-render (render a s)
    ∙ ap (λ b. render b (stack_of (render a s))) (is_absolute-render a s n)
    ∙ ap (render a) (stack_of-render a s n)

-- `normalized` is idempotent: a normalized path is left as it is, whatever path it came from.
pub normalized-normalized : (raw : Bytes) → normalized (normalized raw) ≡ normalized raw
normalized-normalized raw =
    rw (normalized-render raw)
      (normalized-render_self (is_absolute raw) (stack_of raw) (stack_of-IsNormal raw))

-- `normalizedComponents` returns the root, if the path has one, and behind it components that are
-- plain (not empty, not `.` or `..`, without a separator), but for leading `..` where the path has
-- no root. The list `s` holds those components, the last one first.
pub normalized_components-IsNormal :
    (raw : Bytes)
    → (s : List Bytes) × (normalized_components raw ≡ with_prefix (prefix_of raw) (reverse s))
      × IsNormal (is_absolute raw) s
unfolding normalized_components normalize_path_components
normalized_components-IsNormal raw = (stack_of raw, refl, stack_of-IsNormal raw)
