-- ===== src/HeaderMap/Probes.antt =====
-- The buckets that a search from a hash passes, for HeaderMap.cpp.
use xcbuild.Prelude.{
  ℕ, zero, suc, ◌+◌, ◌%◌, ◌<◌, true, false, ◌≡◌, subst, List, ◌==◌, length, arith, Bool-cases, inl,
  inr,
}
use xcbuild.HeaderMap.{find_slot, at_bucket}
use xcbuild.HeaderMap.Table.{Bucket, is_empty, get, set_at, get-set_at}

-- All the buckets from the first up to the second are taken, the second left aside: a search in the
-- table, which ends at an empty bucket, arrives there.
pub data Probes (count : ℕ) (t : List Bucket) : ℕ → ℕ → Type 0 where
  here : {p : ℕ} → Probes count t p p
  next :
      {h p : ℕ}
      → is_empty (get t h) ≡ false
      → Probes count t ((h + 1) % count) p
      → Probes count t h p

-- The loop of `set` ends at an empty bucket that the search arrives at.
pub find_slot-Probes :
    (fuel count stop n : ℕ) (t : List Bucket) (p : ℕ)
    → find_slot fuel count stop n t ≡ at_bucket p
    → Probes count t n p × (is_empty (get t p) ≡ true)
unfolding find_slot
find_slot-Probes zero count stop n t p h = absurd (cc h)
find_slot-Probes (suc fuel) count stop n t p h = elim (Bool-cases (n == stop)) [
  | inl s ↦ absurd (ground arith)
  | inr s ↦ elim (Bool-cases (is_empty (get t n))) [
    | inl e ↦
        let same : n ≡ p = ground arith in
        (subst (λ x. Probes count t n x) same here, subst (λ x. is_empty (get t x) ≡ true) same e)
    | inr e ↦
        let (r, x) = find_slot-Probes fuel count stop ((n + 1) % count) t p (ground arith) in
        (next e r, x)
  ]
]

-- A bucket that is filled keeps what the searches arrive at.
pub Probes-set_at :
    {count : ℕ} {t : List Bucket} {h p : ℕ} (q : ℕ) (v : Bucket)
    → q < length t
    → is_empty v ≡ false
    → Probes count t h p
    → Probes count (set_at t q v) h p
Probes-set_at q v l f here = here
Probes-set_at {t = t} {h = h} q v l f (next e r) =
    next (ground (arith, get-set_at t q h v)) (Probes-set_at q v l f r)
