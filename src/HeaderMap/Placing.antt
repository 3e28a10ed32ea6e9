-- ===== src/HeaderMap/Placing.antt =====
-- The loop of `rehash` of HeaderMap.cpp over the sorted entries, for any way in which an entry is in
-- a table that the other entries do not end.
use xcbuild.Prelude.{
  ℕ, suc, ◌+◌, ◌<◌, ◌≤◌, Bool, true, false, ◌≡◌, refl, sym, subst, ◌∙◌, some, List, [], ◌∷◌, length,
  arith, Every, Bool-cases, inl, inr, ◌==◌,
}
use xcbuild.HeaderMap.{find_slot, at_bucket, stop_before, set, set_all}
use xcbuild.HeaderMap.Table.{
  Bucket, is_empty, get, set_at, get-set_at, length-set_at, count_full, count_full-set_at,
}

-- The hash is in the table, and the bucket is a taken one.
abbrev pub IsEntry : ℕ → ℕ × Bucket → Type 0
IsEntry count e = (e.0 < count) × (is_empty e.1 ≡ false)

-- What a filled table keeps and gains.
pub record Placed (F : List Bucket → ℕ × Bucket → Type 0) (entries : List (ℕ × Bucket))
    (t t' : List Bucket) : Type 0 where
  pub found : Every (F t') entries
  pub kept : (e : ℕ × Bucket) → is_empty e.1 ≡ false → F t e → F t' e
  pub full : count_full t' ≡ count_full t + length entries
  pub same_length : length t' ≡ length t

-- Filling an empty bucket keeps the taken ones in the table.
abbrev pub Keeps : (List Bucket → ℕ × Bucket → Type 0) → Type 0
Keeps F =
    (t : List Bucket) (q : ℕ) (v : Bucket) (e : ℕ × Bucket)
    → q < length t
    → is_empty (get t q) ≡ true
    → is_empty v ≡ false
    → is_empty e.1 ≡ false
    → F t e
    → F (set_at t q v) e

-- A bucket is somewhere in the table.
abbrev pub IsHeld : List Bucket → ℕ × Bucket → Type 0
IsHeld t e = (p : ℕ) × (p < length t) × (get t p ≡ e.1)

-- A taken bucket stays where it is.
pub get-kept :
    (t : List Bucket) (q p : ℕ) (v b : Bucket)
    → q < length t
    → is_empty (get t q) ≡ true
    → is_empty b ≡ false
    → get t p ≡ b
    → get (set_at t q v) p ≡ b
get-kept t q p v b l x f s = elim (Bool-cases (q == p)) [
  | inl y ↦
      let same : q ≡ p = ground arith in
      let taken : is_empty (get t q) ≡ false =
        subst (λ i. is_empty (get t i) ≡ false) (sym same)
          (subst (λ c. is_empty c ≡ false) (sym s) f) in
      absurd (cc (taken, x))
  | inr y ↦ ground (arith, get-set_at t q p v, y, s)
]

pub IsHeld-Keeps : Keeps IsHeld
IsHeld-Keeps t q v e l x f g (p, i, s) =
    (p, omega (arith, length-set_at t q v), get-kept t q p v e.1 l x g s)

set-at_bucket :
    (count hash : ℕ) (b : Bucket) (t : List Bucket) (p : ℕ)
    → find_slot (suc count) count (stop_before hash) hash t ≡ at_bucket p
    → set count hash b t ≡ some (set_at t p b, true)
unfolding set
set-at_bucket count hash b t p h = rw (set, h)

-- `set` fills an empty bucket.
pub set-Placed :
    (F : List Bucket → ℕ × Bucket → Type 0)
    → Keeps F
    → (count hash : ℕ) (b : Bucket) (t : List Bucket) (p : ℕ) → is_empty b ≡ false
    → find_slot (suc count) count (stop_before hash) hash t ≡ at_bucket p
    → p < length t
    → is_empty (get t p) ≡ true
    → F (set_at t p b) (hash, b)
    → (t' : List Bucket) × (set count hash b t ≡ some (t', true)) × Placed F ((hash, b) ∷ []) t t'
set-Placed F k count hash b t p f r l x y = (
  set_at t p b,
  set-at_bucket count hash b t p r,
  record {
    found = (y, tt);
    kept = λ e g. k t p b e l x f g;
    full = ground (arith, count_full-set_at t p b);
    same_length = length-set_at t p b;
  },
)

set_all-next :
    (count : ℕ) (e : ℕ × Bucket) (entries : List (ℕ × Bucket)) (t t' : List Bucket) (found : Bool)
    → set count e.0 e.1 t ≡ some (t', found)
    → set_all count (e ∷ entries) t ≡ set_all count entries t'
unfolding set_all
set_all-next count e entries t t' found h = rw (set_all, h)

-- `set` puts every entry of a table of that many buckets in, while it has buckets to spare.
abbrev pub Sets : (List Bucket → ℕ × Bucket → Type 0) → ℕ → ℕ → ℕ → ℕ → Type 0
Sets F count hashes size spare =
    (e : ℕ × Bucket) (t : List Bucket)
    → IsEntry hashes e
    → length t ≡ size
    → count_full t + spare < count
    → (t' : List Bucket) × (set count e.0 e.1 t ≡ some (t', true)) × Placed F (e ∷ []) t t'

-- The loop over the entries then puts all of them in.
pub set_all-Placed :
    (F : List Bucket → ℕ × Bucket → Type 0) (count hashes size spare : ℕ)
    → Sets F count hashes size spare
    → (entries : List (ℕ × Bucket)) (t : List Bucket) → Every (IsEntry hashes) entries
    → length t ≡ size
    → count_full t + length entries + spare ≤ count
    → (t' : List Bucket) × (set_all count entries t ≡ some t') × Placed F entries t t'
unfolding set_all
set_all-Placed F count hashes size spare put [] t v c s =
    (t, refl, record { found = tt; kept = λ e g x. x; full = omega arith; same_length = refl })
set_all-Placed F count hashes size spare put (e ∷ entries) t (v, vs) c s =
    let (t1, r, p) = put e t v c (omega arith) in
    let full : count_full t1 ≡ count_full t + 1 = p.full in
    let (t2, r2, p2) =
      set_all-Placed F count hashes size spare put entries t1 vs (p.same_length ∙ c)
        (omega arith) in
    (
      t2,
      set_all-next count e entries t t1 true r ∙ r2,
      record {
        found = (p2.kept e v.1 p.found.0, p2.found);
        kept = λ x g y. p2.kept x g (p.kept x g y);
        full = omega (arith, p2.full);
        same_length = p2.same_length ∙ p.same_length;
      },
    )
