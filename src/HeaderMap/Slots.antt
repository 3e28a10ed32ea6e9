-- ===== src/HeaderMap/Slots.antt =====
-- The loop of `set` of HeaderMap.cpp finds a bucket while two are empty.
use xcbuild.Prelude.{
  ℕ, zero, suc, ◌+◌, ◌-◌, ◌^◌, ◌%◌, ◌<◌, true, ◌≡◌, ◌≢◌, ◌≤◌, ◌⊎◌, refl, subst, List, ◌==◌, length,
  arith, Bool-cases, inl, inr,
}
use xcbuild.Prelude.{leb}
use xcbuild.HeaderMap.{find_slot, at_bucket, stop_before}
use xcbuild.HeaderMap.Table.{Bucket, is_empty, get, count_full, has_empty_elsewhere}

step_up : (n count : ℕ) → n + 1 < count → (n + 1) % count ≡ n + 1
step_up n count h = grind arith

step_around : (n count : ℕ) → n + 1 ≡ count → (n + 1) % count ≡ 0
step_around n count h = grind arith

-- From a bucket up to an empty one behind it, the last bucket of the loop not between them.
pub reach_up :
    (d fuel count stop n e : ℕ) (t : List Bucket)
    → n + d ≡ e
    → e < count
    → d < fuel
    → (stop < n) ⊎ (e < stop)
    → is_empty (get t e) ≡ true
    → (p : ℕ) × (find_slot fuel count stop n t ≡ at_bucket p)
unfolding find_slot
reach_up d zero count stop n e t q l f s x = absurd (omega arith)
reach_up zero (suc fuel) count stop n e t q l f s x =
    let same : e ≡ n = omega arith in
    let y : is_empty (get t n) ≡ true = subst (λ i. is_empty (get t i) ≡ true) same x in
    (n, ground (arith, y))
reach_up (suc d) (suc fuel) count stop n e t q l f s x = elim (Bool-cases (is_empty (get t n))) [
  | inl y ↦ (n, ground arith)
  | inr y ↦
      let (p, r) =
        reach_up d fuel count stop (n + 1) e t (omega arith) l (omega arith) (ground arith) x in
      (p, ground (arith, y, r, step_up n count))
]

-- The same where the empty bucket stands before it, and the loop starts over.
reach_around :
    (d fuel count stop n e : ℕ) (t : List Bucket)
    → n + suc d ≡ count
    → e < n
    → e < stop
    → (stop < n) ⊎ (count ≤ stop)
    → d + e + 1 < fuel
    → is_empty (get t e) ≡ true
    → (p : ℕ) × (find_slot fuel count stop n t ≡ at_bucket p)
unfolding find_slot
reach_around d zero count stop n e t q b l s f x = absurd (omega arith)
reach_around zero (suc fuel) count stop n e t q b l s f x = elim (Bool-cases (is_empty (get t n))) [
  | inl y ↦ (n, ground arith)
  | inr y ↦
      let (p, r) =
        reach_up e fuel count stop 0 e t (omega arith) (omega arith) (omega arith) (inr l) x in
      (p, ground (arith, y, r, step_around n count))
]
reach_around (suc d) (suc fuel) count stop n e t q b l s f x =
    elim (Bool-cases (is_empty (get t n))) [
      | inl y ↦ (n, ground arith)
      | inr y ↦
          let (p, r) =
            reach_around d fuel count stop (n + 1) e t (omega arith) (omega arith) l (ground arith)
              (omega arith) x in
          (p, ground (arith, y, r, step_up n count))
    ]

-- From any bucket: the one the loop stops at is the one before it, or none of the table.
pub reach_any :
    (fuel count stop n e : ℕ) (t : List Bucket)
    → n < count
    → e < count
    → count ≤ fuel
    → (stop + 1 ≡ n) ⊎ (count ≤ stop)
    → e ≢ stop
    → is_empty (get t e) ≡ true
    → (p : ℕ) × (find_slot fuel count stop n t ≡ at_bucket p)
reach_any fuel count stop n e t l i f s d x = elim (Bool-cases (leb n e)) [
  | inl g ↦ reach_up (e - n) fuel count stop n e t (ground arith) i (ground arith) (ground arith) x
  | inr g ↦
      reach_around (count - n - 1) fuel count stop n e t (omega arith) (ground arith) (ground arith)
        (ground arith) (ground arith) x
]

-- A bucket the loop ends at is one of the table, where it starts in the table, of which the buckets
-- that it looks through are the first ones.
pub find_slot-bound :
    (fuel count stop n p size : ℕ) (t : List Bucket)
    → n < size
    → 0 < count
    → count ≤ size
    → find_slot fuel count stop n t ≡ at_bucket p
    → p < size
unfolding find_slot
find_slot-bound zero count stop n p size t l c s h = absurd (cc h)
find_slot-bound (suc fuel) count stop n p size t l c s h = elim (Bool-cases (n == stop)) [
  | inl y ↦ absurd (ground arith)
  | inr y ↦ elim (Bool-cases (is_empty (get t n))) [
    | inl e ↦ ground arith
    | inr e ↦
        find_slot-bound fuel count stop ((n + 1) % count) p size t (grind arith) c s (ground arith)
  ]
]

-- The bucket the loop does not look at is the one before the first.
pub stop_before_lem :
    (hash : ℕ)
    → hash < 2 ^ 32
    → (stop_before hash + 1 ≡ hash) ⊎ ((hash ≡ 0) × (stop_before hash ≡ 2 ^ 32 - 1))
stop_before_lem zero h = inr (refl, refl)
stop_before_lem (suc n) h = inl (grind arith)

stop_before_cases :
    (hash count : ℕ)
    → hash < 2 ^ 32
    → count < 2 ^ 32
    → (stop_before hash + 1 ≡ hash) ⊎ (count ≤ stop_before hash)
stop_before_cases hash count h c = elim (stop_before_lem hash h) [
  | inl y ↦ inl y
  | inr y ↦ inr (omega arith)
]

-- From a hash that is one of the buckets looked through, an empty one of them is enough that is
-- not the one before it.
pub reach_from :
    (count hash e : ℕ) (t : List Bucket)
    → hash < count
    → count < 2 ^ 32
    → e < count
    → e ≢ stop_before hash
    → is_empty (get t e) ≡ true
    → (p : ℕ) × (find_slot (suc count) count (stop_before hash) hash t ≡ at_bucket p)
reach_from count hash e t l w i d x =
    reach_any (suc count) count (stop_before hash) hash e t l i (omega arith)
      (stop_before_cases hash count (omega arith) w) d x

-- While two buckets are empty the loop of `set` ends at a bucket of the table.
pub find_slot-total :
    (count hash : ℕ) (t : List Bucket)
    → hash < count
    → count < 2 ^ 32
    → count ≡ length t
    → count_full t + 1 < count
    → (p : ℕ) × (p < count) × (find_slot (suc count) count (stop_before hash) hash t ≡ at_bucket p)
find_slot-total count hash t l w c f =
    let stop = stop_before hash in
    let (e, i, x, d) = has_empty_elsewhere t stop (omega arith) in
    let (p, r) = reach_from count hash e t l w (omega arith) d x in
    (p, find_slot-bound (suc count) count stop hash p count t l (omega arith) (omega arith) r, r)
