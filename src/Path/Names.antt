-- ===== src/Path/Names.antt =====
-- `child`, `parent`, `base` and `extension` of Libraries/libutil/Sources/Relative.cpp.
use xcbuild.Prelude.{
  ℕ, true, false, ◌≡◌, ◌≢◌, ◌⊎◌, inl, inr, refl, ap, ◌∙◌, [], ◌∷◌, ◌++◌, Bool-cases, Option-cases,
  ==_iff, append_assoc,
}
use xcbuild.Prelude.Text.{
  Bytes, Lacks, split_last, split_last-Lacks, split_last-append, split_last-none, split_last-some,
  back_is, drop_back, back_is-Lacks, back_is-append, drop_back-append,
}
use xcbuild.Path.{
  separator, is_separator, child, parent, base, base_name, base_in, parent_in, extension, is_dot,
}

base_in-append : (b name : Bytes) → Lacks is_separator name → base_in (b ++ separator ∷ name) ≡ name
unfolding base_in
base_in-append b name l = rw (split_last-append is_separator b separator name refl l, base_in)

base_in-Lacks : (name : Bytes) → Lacks is_separator name → base_in name ≡ name
unfolding base_in
base_in-Lacks name l = rw (split_last-Lacks is_separator name l, base_in)

-- The last component behind a separator.
base_name-append :
    (b name : Bytes) → Lacks is_separator name → base_name (b ++ separator ∷ name) ≡ name
unfolding base_name
base_name-append [] name l = base_in-Lacks name l
base_name-append (c ∷ b) name l = elim (Bool-cases (is_separator c)) [
  | inl s ↦ rw s (base_in-append b name l)
  | inr s ↦ rw s (base_in-append (c ∷ b) name l)
]

base_name-Lacks : (name : Bytes) → Lacks is_separator name → base_name name ≡ name
unfolding base_name
base_name-Lacks [] l = base_in-Lacks [] l
base_name-Lacks (c ∷ name) l = rw (l.0) (base_in-Lacks (c ∷ name) l)

-- The two ways in which `child` puts a name behind a path.
child_cases :
    (raw name : Bytes)
    → raw ≢ []
    → name ≢ []
    → (back_is is_separator raw ≡ true) × (child raw name ≡ raw ++ name)
      ⊎ (back_is is_separator raw ≡ false) × (child raw name ≡ raw ++ separator ∷ name)
unfolding child
child_cases [] name h k = absurd (h refl)
child_cases (c ∷ raw) [] h k = absurd (k refl)
child_cases (c ∷ raw) (n ∷ name) h k = elim (Bool-cases (back_is is_separator (c ∷ raw))) [
  | inl e ↦ inl (e, rw e)
  | inr e ↦ inr (e, rw e)
]

-- The base of `child raw name` is `name`, for a name without a separator.
pub base-child :
    (raw name : Bytes) → name ≢ [] → Lacks is_separator name → base true (child raw name) ≡ name
unfolding base
base-child [] name k l = unfold child in base_name-Lacks name l
base-child (c ∷ raw) name k l = elim (child_cases (c ∷ raw) name (λ e. cc) k) [
  | inl (s, e) ↦
      ap base_name e
      ∙ ap (λ t. base_name (t ++ name)) (drop_back-append (c ∷ raw) separator s)
      ∙ ap base_name (append_assoc (drop_back (c ∷ raw)) (separator ∷ []) name)
      ∙ base_name-append (drop_back (c ∷ raw)) name l
  | inr (s, e) ↦ rw e (base_name-append (c ∷ raw) name l)
]

back_is-name :
    (x n : ℕ) (b name : Bytes)
    → Lacks is_separator (n ∷ name)
    → back_is is_separator (b ++ x ∷ n ∷ name) ≡ false
back_is-name x n b name l =
    back_is-append is_separator b x (n ∷ name)
    ∙ back_is-append is_separator (x ∷ []) n name
    ∙ back_is-Lacks is_separator (n ∷ name) l

parent_in-append :
    (root b : Bytes) (n : ℕ) (name : Bytes)
    → Lacks is_separator (n ∷ name)
    → parent_in root (b ++ separator ∷ n ∷ name) ≡ root ++ b
unfolding parent_in
parent_in-append root b n name l = rw (
  back_is-name separator n b name l,
  parent_in,
  split_last-append is_separator b separator (n ∷ name) refl l,
)

-- The parent of a path that ends in a separator and a name.
parent-append :
    (c : ℕ) (b : Bytes) (n : ℕ) (name : Bytes)
    → Lacks is_separator (n ∷ name)
    → parent ((c ∷ b) ++ separator ∷ n ∷ name) ≡ c ∷ b
unfolding parent
parent-append c b n name l = elim (Bool-cases (is_separator c)) [
  | inl s ↦ rw s (parent_in-append (c ∷ []) b n name l)
  | inr s ↦ rw s (parent_in-append [] (c ∷ b) n name l)
]

-- For a path that is not empty and does not end in a separator, and a name that is not empty and
-- has no separator, `parent` and `base` take apart what `child` puts together.
pub parent-child :
    (raw name : Bytes)
    → raw ≢ []
    → back_is is_separator raw ≡ false
    → name ≢ []
    → Lacks is_separator name
    → (parent (child raw name) ≡ raw) × (base true (child raw name) ≡ name)
parent-child [] name h s k l = absurd (h refl)
parent-child (c ∷ raw) [] h s k l = absurd (k refl)
parent-child (c ∷ raw) (n ∷ name) h s k l = (
  elim (child_cases (c ∷ raw) (n ∷ name) h k) [
    | inl (s', e) ↦ absurd (cc s')
    | inr (s', e) ↦ rw e (parent-append c raw n name l)
  ],
  base-child (c ∷ raw) (n ∷ name) k l,
)

-- `base(false)` and `extension` split the base at its last dot; without a dot, `base(false)` is the
-- whole base and the extension is empty.
pub base-extension :
    (raw : Bytes)
    → (base true raw ≡ base false raw ++ b'.' ∷ extension raw) × Lacks is_dot (extension raw)
      ⊎ (base false raw ≡ base true raw) × (extension raw ≡ []) × Lacks is_dot (base true raw)
unfolding extension
base-extension raw = elim (Option-cases (split_last is_dot (base_name raw))) [
  | inl e ↦ inr (rw (e, base), rw (e, extension), split_last-none is_dot (base_name raw) e)
  | inr ((b, a), e) ↦
      let x = split_last-some is_dot (base_name raw) b a e in
      inl (
        rw (e, base, extension) (x.splits ∙ ap (λ t. b ++ t ∷ a) ((==_iff x.at b'.').0 x.found)),
        rw (e, extension) (x.rest),
      )
]
