-- ===== src/HeaderMap/Table.antt =====
-- The buckets of HeaderMap.cpp as a list.
use xcbuild.Prelude.{
  ◌≢◌, Bool-cases, inl, inr, ℕ, zero, suc, ◌+◌, ◌<◌, Bool, true, ◌≡◌, refl, List, [], ◌∷◌, ◌==◌,
  length, arith, if◌then◌else◌,
}

-- `HMapBucket`
pub record Bucket : Type 0 where
  pub key : ℕ
  pub prefix : ℕ
  pub suffix : ℕ

abbrev pub no_bucket : Bucket
no_bucket = record { key = 0; prefix = 0; suffix = 0 }

-- `Key == HMAP_EmptyBucketKey`
abbrev pub is_empty : Bucket → Bool
is_empty b = b.key == 0

-- No access is out of range.
unfoldable pub get : List Bucket → ℕ → Bucket
get [] i = no_bucket
get (b ∷ buckets) zero = b
get (b ∷ buckets) (suc i) = get buckets i

unfoldable pub set_at : List Bucket → ℕ → Bucket → List Bucket
set_at [] i v = []
set_at (b ∷ buckets) zero v = v ∷ buckets
set_at (b ∷ buckets) (suc i) v = b ∷ set_at buckets i v

unfoldable pub replicate : ℕ → Bucket → List Bucket
replicate zero b = []
replicate (suc n) b = b ∷ replicate n b

pub get-set_at :
    (buckets : List Bucket) (i j : ℕ) (v : Bucket)
    → i < length buckets
    → get (set_at buckets i v) j ≡ (if i == j then v else get buckets j)
unfolding get set_at
get-set_at [] i j v h = absurd (omega arith)
get-set_at (b ∷ buckets) zero zero v h = refl
get-set_at (b ∷ buckets) zero (suc j) v h = ground arith
get-set_at (b ∷ buckets) (suc i) zero v h = ground arith
get-set_at (b ∷ buckets) (suc i) (suc j) v h = ground (arith, get-set_at buckets i j v)

pub length-set_at :
    (buckets : List Bucket) (i : ℕ) (v : Bucket) → length (set_at buckets i v) ≡ length buckets
unfolding set_at
length-set_at [] i v = refl
length-set_at (b ∷ buckets) zero v = refl
length-set_at (b ∷ buckets) (suc i) v = omega (arith, length-set_at buckets i v)

-- How many buckets are taken.
unfoldable pub count_full : List Bucket → ℕ
count_full [] = 0
count_full (b ∷ buckets) = if is_empty b then count_full buckets else suc (count_full buckets)

pub count_full-set_at :
    (buckets : List Bucket) (i : ℕ) (v : Bucket)
    → i < length buckets
    → is_empty (get buckets i) ≡ true
    → count_full (set_at buckets i v)
      ≡ (if is_empty v then count_full buckets else suc (count_full buckets))
unfolding count_full set_at get
count_full-set_at [] i v h e = absurd (omega arith)
count_full-set_at (b ∷ buckets) zero v h e = ground arith
count_full-set_at (b ∷ buckets) (suc i) v h e = ground (arith, count_full-set_at buckets i v)

-- A taken bucket fewer than there are leaves an empty one.
pub has_empty :
    (buckets : List Bucket)
    → count_full buckets < length buckets
    → (i : ℕ) × (i < length buckets) × (is_empty (get buckets i) ≡ true)
unfolding count_full get
has_empty [] h = absurd (omega arith)
has_empty (b ∷ buckets) h = elim (Bool-cases (is_empty b)) [
  | inl e ↦ (0, omega arith, e)
  | inr e ↦ let (i, l, x) = has_empty buckets (ground arith) in (suc i, omega arith, x)
]

-- Two taken buckets fewer leave an empty one elsewhere.
pub has_empty_elsewhere :
    (buckets : List Bucket) (other : ℕ)
    → count_full buckets + 1 < length buckets
    → (i : ℕ) × (i < length buckets) × (is_empty (get buckets i) ≡ true) × (i ≢ other)
unfolding count_full get
has_empty_elsewhere [] other h = absurd (omega arith)
has_empty_elsewhere (b ∷ buckets) zero h =
    let (i, l, x) = has_empty buckets (ground arith) in (suc i, omega arith, x, λ e. omega arith)
has_empty_elsewhere (b ∷ buckets) (suc other) h = elim (Bool-cases (is_empty b)) [
  | inl e ↦ (0, omega arith, e, λ x. omega arith)
  | inr e ↦
      let (i, l, x, n) = has_empty_elsewhere buckets other (ground arith) in
      (suc i, omega arith, x, λ y. n (omega arith))
]
